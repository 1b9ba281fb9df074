-- ===== src/Rpc/Codec/Stream.antt =====
-- rpc/rpc_codec.cpp: `decode` on a stream that arrives in pieces.
use lightnet.Common.{
  some_pair-snd, le→ltb, Option-cases, ◌>>=◌, length, take, drop, length-append, length-drop,
  take-append_le, get_or-append, drop-append_le, of_le, ℕ, ◌+◌, ◌≤◌, ◌≡◌, sym, ap, ◌∙◌, ◌≢◌, inl,
  inr, none, some, List, [], ◌∷◌, ◌++◌, arith,
}
use lightnet.Buffer.{Buffer, peek, readable_bytes, retrieve}
use lightnet.Buffer.Space.{IsValid, length-peek}
use lightnet.Buffer.Take.{retrieve_lem}
use lightnet.Rpc.Codec.{magic, slice, decode_at, decode, RpcMessage, IsMessage}
use lightnet.Rpc.Codec.RoundTrip.{wire, length-wire, decode_at-wire}

slice-append : (p more : List ℕ) (i n : ℕ) → i + n ≤ length p → slice (p ++ more) i n ≡ slice p i n
slice-append p more i n h =
    ap (take n) (drop-append_le i p more (omega arith))
    ∙ take-append_le n (drop i p) more (omega (arith, length-drop i p))

-- What `decode_at` takes is what is there: a header at least, and no more than the readable bytes.
decode_at_takes :
    (readable : ℕ) (p : List ℕ) {m : RpcMessage} {total : ℕ}
    → decode_at readable p ≡ some (m, total)
    → (20 ≤ total) × (total ≤ readable)
unfolding decode_at
decode_at_takes readable p e = ground arith

decode_at_checks :
    (p : List ℕ) {m : RpcMessage} {total : ℕ}
    → decode_at (length p) p ≡ some (m, total)
    → (16 ≤ length p)
      × (16 + of_le (slice p 14 2) + 4 ≤ length p)
      × (16 + of_le (slice p 14 2) + 4 + of_le (slice p (16 + of_le (slice p 14 2)) 4) ≤ length p)
unfolding decode_at
decode_at_checks p e = ground arith

-- More bytes behind a message do not change what is decoded.
decode_at-append :
    (p more : List ℕ) {m : RpcMessage} {total : ℕ}
    → decode_at (length p) p ≡ some (m, total)
    → decode_at (length (p ++ more)) (p ++ more) ≡ some (m, total)
unfolding decode_at
decode_at-append p more e =
    let (h16, hh, ht) = decode_at_checks p e in
    let longer : length (p ++ more) ≡ length p + length more = length-append p more in
    let ml : slice (p ++ more) 14 2 ≡ slice p 14 2 = slice-append p more 14 2 (omega arith) in
    let n : ℕ = of_le (slice p 14 2) in
    let bl : slice (p ++ more) (16 + n) 4 ≡ slice p (16 + n) 4 =
      slice-append p more (16 + n) 4 (omega arith) in
    let size : ℕ = of_le (slice p (16 + n) 4) in
    rw
      (
        le→ltb (length (p ++ more)) 16 (omega (arith, longer)),
        take-append_le 4 p more (omega arith),
        get_or-append p more 4 0 (omega arith),
        ml,
        le→ltb (length (p ++ more)) (16 + n + 4) (omega (arith, longer)),
        bl,
        le→ltb (length (p ++ more)) (16 + n + 4 + size) (omega (arith, longer)),
        get_or-append p more 5 0 (omega arith),
        slice-append p more 6 8 (omega arith),
        slice-append p more 16 n (omega arith),
        slice-append p more (16 + n + 4) size (omega arith),
      )
      (rw
        (
          le→ltb (length p) 16 (omega arith),
          le→ltb (length p) (16 + n + 4) (omega arith),
          le→ltb (length p) (16 + n + 4 + size) (omega arith),
        )
        at e)

-- The front of a message, with at least one byte missing, decodes to nothing.
prefix_undecoded :
    (m : RpcMessage) (p : List ℕ) (x : ℕ) (missing : List ℕ) {found : RpcMessage} {total : ℕ}
    → IsMessage m
    → p ++ (x ∷ missing) ≡ wire m
    → ¬ (decode_at (length p) p ≡ some (found, total))
prefix_undecoded m p x missing {total = total} h e d =
    let (_, within) = decode_at_takes (length p) p d in
    let same : total ≡ 16 + length m.method + 4 + length m.payload =
      some_pair-snd (sym (rw e at (decode_at-append p (x ∷ missing) d)) ∙ decode_at-wire m h) in
    omega (arith, within, same, ap length e, length-append p (x ∷ missing), length-wire m)

-- While a valid buffer holds the front of a message and a byte or more is missing, `decode` returns
-- false.
decode_partial :
    (m : RpcMessage) (buf : Buffer) (x : ℕ) (missing : List ℕ)
    → IsMessage m
    → IsValid buf
    → peek buf ++ (x ∷ missing) ≡ wire m
    → decode buf ≡ none
unfolding decode
decode_partial m buf x missing h v e =
    elim (Option-cases (decode_at (length (peek buf)) (peek buf))) [
      | inl waits ↦ rw (sym (length-peek buf v), waits)
      | inr ((found, total), d) ↦ absurd (prefix_undecoded m (peek buf) x missing h e d)
    ]

-- A message decoded from a valid buffer takes 20 bytes at least from it, and leaves it valid.
pub decode_takes :
    (buf buf' : Buffer) (m : RpcMessage)
    → IsValid buf
    → decode buf ≡ some (m, buf')
    → IsValid buf' × (length (peek buf') + 20 ≤ length (peek buf))
unfolding decode
decode_takes buf buf' m v e = elim (Option-cases (decode_at (readable_bytes buf) (peek buf))) [
  | inl waits ↦ absurd (cc (rw waits at e))
  | inr ((found, total), d) ↦
      let (low, high) = decode_at_takes (readable_bytes buf) (peek buf) d in
      let (v', p) = retrieve_lem buf total v in
      let same : retrieve buf total ≡ buf' = some_pair-snd (rw (d, ◌>>=◌) at e) in
      rw (← same)
        (v', omega (arith, ap length p, length-drop total (peek buf), length-peek buf v, low, high))
]

-- Where the first four readable bytes are not the magic number, `decode` returns false, whatever
-- bytes follow.
pub decode_bad_magic :
    (buf : Buffer) (a b c d : ℕ) (rest : List ℕ)
    → peek buf ≡ a ∷ b ∷ c ∷ d ∷ rest
    → of_le (a ∷ b ∷ c ∷ d ∷ []) ≢ magic
    → decode buf ≡ none
unfolding decode decode_at
decode_bad_magic buf a b c d rest e wrong = rw e (ground arith)

-- Bytes that hold no whole message are kept for the next wake-up.
pub decode_tail :
    (buf : Buffer) (tail : List ℕ)
    → IsValid buf
    → peek buf ≡ tail
    → decode_at (length tail) tail ≡ none
    → decode buf ≡ none
unfolding decode
decode_tail buf tail v e stop = rw (sym (length-peek buf v), e, stop)
