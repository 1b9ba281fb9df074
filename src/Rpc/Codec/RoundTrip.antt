-- ===== src/Rpc/Codec/RoundTrip.antt =====
-- rpc/rpc_codec.cpp: the bytes of a message, and what `decode` makes of them.
use lightnet.Common.{
  le→ltb, ◌>>=◌, length, take, drop, get_or, length-append, take_front, drop_front, drop-drop,
  take_first, drop_first, le_bytes, length-le_bytes, of_le-le_bytes, ℕ, ◌+◌, ◌%◌, ◌^◌, ◌≤◌, ◌≡◌,
  refl, sym, ap, ◌∙◌, some, List, [], ◌∷◌, ◌++◌, append_assoc, append-nil, arith,
}
use lightnet.Buffer.{Buffer, max_capacity, peek, readable_bytes, retrieve}
use lightnet.Buffer.Space.{IsValid, length-peek}
use lightnet.Buffer.Take.{retrieve_lem}
use lightnet.Buffer.Append.{
  Yields, append-Yields, append_last-Yields, field-Yields, new_roomy, Yields-content,
}
use lightnet.Rpc.Codec.{
  type_code, magic, protocol_version, encode, slice, decode_at, decode, type_of-type_code,
  RpcMessage, IsMessage,
}

-- The layout of a message.
abbrev pub wire : RpcMessage → List ℕ
wire m =
    le_bytes 4 magic
    ++ (protocol_version
        ∷ type_code m.type
        ∷ (le_bytes 8 m.request_id
            ++ (le_bytes 2 (length m.method % 2 ^ 16)
                ++ (m.method ++ (le_bytes 4 (length m.payload % 2 ^ 32) ++ m.payload)))))

pub length-wire : (m : RpcMessage) → length (wire m) ≡ 20 + length m.method + length m.payload
length-wire m = simp (length-append, length-le_bytes) (omega arith)

-- `encode` succeeds below the capacity limit, and leaves the message's layout in the buffer.
pub encode-wire :
    (m : RpcMessage)
    → length m.method + length m.payload + 28 ≤ max_capacity
    → Yields (length m.method + length m.payload + 28) (wire m) (encode m)
unfolding encode
encode-wire m fits =
    let (roomy, e, h0) =
      new_roomy (4 + 1 + 1 + 8 + 2 + length m.method + 4 + length m.payload) (omega arith) in
    rw e (
      field-Yields 8 4 magic _ _ _ _ _ h0 (omega arith) λ b h.
        append-Yields _ 13 _ _ _ _ _ _ h (omega arith) (omega arith) λ b h.
          append-Yields _ 14 _ _ _ _ _ _ h (omega arith) (omega arith) λ b h.
            field-Yields _ 8 m.request_id _ _ _ _ _ h (omega arith) λ b h.
              field-Yields _ 2 (length m.method % 2 ^ 16) _ _ _ _ _ h (omega arith) λ b h.
                append-Yields _ (24 + length m.method) _ _ m.method _ _ _ h (omega arith)
                  (omega arith)
                  λ b h.
                    field-Yields _ 4 (length m.payload % 2 ^ 32) _ _ _ _ _ h (omega arith) λ b h.
                      Yields-content _ _ (simp append_assoc)
                        (append_last-Yields _ _ _ b m.payload h (omega arith) fits))

-- A message with other bytes behind it, and what stands at the offsets that `decode` reads.
abbrev frame : RpcMessage → List ℕ → List ℕ
frame m rest =
    le_bytes 4 magic
    ++ (protocol_version
        ∷ type_code m.type
        ∷ (le_bytes 8 m.request_id
            ++ (le_bytes 2 (length m.method)
                ++ (m.method ++ (le_bytes 4 (length m.payload) ++ (m.payload ++ rest))))))

wire-append : (m : RpcMessage) (rest : List ℕ) → IsMessage m → wire m ++ rest ≡ frame m rest
wire-append m rest h =
    let e : length m.method % 2 ^ 16 ≡ length m.method = omega (arith, h.method_fit) in
    let e' : length m.payload % 2 ^ 32 ≡ length m.payload = omega (arith, h.payload_fit) in
    rw (e, e') (simp append_assoc)

record Fixed (m : RpcMessage) (p : List ℕ) : Type 0 where
  magic_at : take 4 p ≡ le_bytes 4 magic
  version_at : get_or p 4 0 ≡ protocol_version
  type_at : get_or p 5 0 ≡ type_code m.type
  id_at : slice p 6 8 ≡ le_bytes 8 m.request_id
  method_len_at : slice p 14 2 ≡ le_bytes 2 (length m.method)

frame-Fixed : (m : RpcMessage) (rest : List ℕ) → Fixed m (frame m rest)
unfolding le_bytes
frame-Fixed m rest = record {
  magic_at = refl;
  version_at = refl;
  type_at = refl;
  id_at = refl;
  method_len_at = refl;
}

drop-frame :
    (m : RpcMessage) (rest : List ℕ)
    → drop 16 (frame m rest) ≡ m.method ++ (le_bytes 4 (length m.payload) ++ (m.payload ++ rest))
unfolding le_bytes
drop-frame m rest = refl

drop_method :
    (m : RpcMessage) (rest : List ℕ)
    → drop (16 + length m.method) (frame m rest)
      ≡ le_bytes 4 (length m.payload) ++ (m.payload ++ rest)
drop_method m rest =
    sym (drop-drop (length m.method) 16 (frame m rest))
    ∙ ap (drop (length m.method)) (drop-frame m rest)
    ∙ drop_front m.method _

drop_body_len :
    (m : RpcMessage) (rest : List ℕ)
    → drop (16 + length m.method + 4) (frame m rest) ≡ m.payload ++ rest
drop_body_len m rest =
    sym (drop-drop 4 (16 + length m.method) (frame m rest))
    ∙ ap (drop 4) (drop_method m rest)
    ∙ drop_first 4 (le_bytes 4 (length m.payload)) _ (length-le_bytes 4 (length m.payload))

decode_at-frame :
    (m : RpcMessage) (rest : List ℕ) (readable : ℕ)
    → IsMessage m
    → 20 + length m.method + length m.payload ≤ readable
    → decode_at readable (frame m rest) ≡ some (m, 16 + length m.method + 4 + length m.payload)
unfolding decode_at
decode_at-frame m rest readable h room =
    let f = frame-Fixed m rest in
    rw (
      le→ltb readable 16 (omega arith),
      f.magic_at,
      of_le-le_bytes 4 magic (omega arith),
      ◌>>=◌,
      f.version_at,
      ◌>>=◌,
      f.method_len_at,
      of_le-le_bytes 2 (length m.method) h.method_fit,
      le→ltb readable (16 + length m.method + 4) (omega arith),
      ◌>>=◌,
      drop_method m rest,
      take_first 4 (le_bytes 4 (length m.payload)) (m.payload ++ rest)
          (length-le_bytes 4 (length m.payload)),
      of_le-le_bytes 4 (length m.payload) h.payload_fit,
      le→ltb readable (16 + length m.method + 4 + length m.payload) (omega arith),
      ◌>>=◌,
      drop_body_len m rest,
      take_front m.payload rest,
      f.type_at,
      type_of-type_code m.type h.type_fit,
      f.id_at,
      of_le-le_bytes 8 m.request_id h.id_fit,
      drop-frame m rest,
      take_front m.method _,
    )

pub decode_at-wire :
    (m : RpcMessage)
    → IsMessage m
    → decode_at (length (wire m)) (wire m) ≡ some (m, 16 + length m.method + 4 + length m.payload)
decode_at-wire m h =
    let e : wire m ≡ frame m [] = sym (append-nil (wire m)) ∙ wire-append m [] h in
    rw e (decode_at-frame m [] _ h (omega (arith, ap length e, length-wire m)))

-- A message whose fields fit the format, in front of a valid buffer, is decoded and taken off,
-- whatever follows it.
pub decode-wire :
    (m : RpcMessage) (rest : List ℕ) (buf : Buffer)
    → IsMessage m
    → IsValid buf
    → peek buf ≡ wire m ++ rest
    → (buf' : Buffer) × (decode buf ≡ some (m, buf')) × IsValid buf' × (peek buf' ≡ rest)
unfolding decode
decode-wire m rest buf h v e =
    let total : ℕ = 16 + length m.method + 4 + length m.payload in
    let whole : length (wire m) ≡ total = omega (arith, length-wire m) in
    let room : 20 + length m.method + length m.payload ≤ readable_bytes buf =
      omega
        (arith, sym (length-peek buf v), ap length e, length-append (wire m) rest, length-wire m) in
    let (v', taken) = retrieve_lem buf total v in
    (
      retrieve buf total,
      rw (e ∙ wire-append m rest h, decode_at-frame m rest (readable_bytes buf) h room, ◌>>=◌),
      v',
      taken ∙ ap (drop total) e ∙ drop_first total (wire m) rest whole,
    )

-- A message whose fields fit the format and that is at least 28 bytes below the capacity limit is
-- encoded, what `encode` leaves in its buffer is decoded to the message, and the buffer is then
-- empty.
rpc_decode-encode :
    (m : RpcMessage)
    → IsMessage m
    → length m.method + length m.payload + 28 ≤ max_capacity
    → (buf : Buffer) × (buf' : Buffer) × (encode m ≡ some buf)
      × (decode buf ≡ some (m, buf'))
      × (peek buf' ≡ [])
rpc_decode-encode m h fits =
    let (buf, e, held) = encode-wire m fits in
    let (buf', d, v', p) =
      decode-wire m [] buf h held.valid (held.content ∙ sym (append-nil (wire m))) in
    (buf, buf', e, d, p)
