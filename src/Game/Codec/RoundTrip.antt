-- ===== src/Game/Codec/RoundTrip.antt =====
-- game/game_codec.cpp: the bytes that `encode` leaves in its buffer, and what `decode` makes of them.
use lightnet.Common.{
  ◌<◌, ap, take_all, ltb, le→ltb, length, take, length-append, le_bytes, length-le_bytes, ℕ, ◌+◌,
  ◌%◌, ◌^◌, ◌≤◌, ◌≡◌, refl, sym, ◌∙◌, false, some, List, [], ◌∷◌, ◌++◌, append_assoc, append-nil,
  arith,
}
use lightnet.Buffer.{Buffer, new, max_capacity, peek}
use lightnet.Buffer.Append.{
  new_roomy, Yields-content, field-Yields, Holds, Yields, append-Yields, append_last-Yields,
}
use lightnet.Game.Packet.{
  default_header, GameMsgType, GamePacketHeader, GamePacket, msg_type_code, magic, protocol_version,
  header_size, IsHeader, IsMsgType, msg_type_of-msg_type_code,
}
use lightnet.Game.Wire.{read_u8, read_u16-le_bytes, read_u32-le_bytes}
use lightnet.Game.Codec.{build_packet, append_payload, encode, decode}

-- The layout of a packet.
abbrev pub wire : GamePacket → List ℕ
wire packet =
    le_bytes 4 magic
    ++ (packet.header.version
        ∷ msg_type_code packet.header.msg_type
        ∷ (le_bytes 2 packet.header.flags
            ++ (le_bytes 4 packet.header.room_id
                ++ (le_bytes 4 packet.header.player_id
                    ++ (le_bytes 4 packet.header.seq
                        ++ (le_bytes 4 packet.header.tick
                            ++ (le_bytes 2 (length packet.payload % 2 ^ 16)
                                ++ (le_bytes 2 packet.header.reserved ++ packet.payload))))))))

append_payload-Yields :
    (n m : ℕ) (xs payload : List ℕ) (b : Buffer)
    → Holds n xs b
    → n + length payload ≤ m
    → m ≤ max_capacity
    → Yields m (xs ++ payload) (append_payload b payload)
unfolding append_payload
append_payload-Yields n m xs [] b h step fits = (
  b,
  refl,
  record {
    valid = h.valid;
    content = h.content ∙ sym (append-nil xs);
    bound = omega (arith, h.bound);
  },
)
append_payload-Yields n m xs (x ∷ rest) b h step fits =
    append_last-Yields n m xs b (x ∷ rest) h step fits

-- `encode` succeeds below the capacity limit, and leaves the packet's layout in the buffer.
pub encode-wire :
    (packet : GamePacket)
    → length packet.payload + 36 ≤ max_capacity
    → Yields (length packet.payload + 36) (wire packet) (encode packet)
unfolding encode new
encode-wire packet fits =
    let (roomy, e, h0) = new_roomy (header_size + length packet.payload) (omega arith) in
    rw e (
      field-Yields 8 4 magic _ _ _ _ _ h0 (omega arith) λ b h.
        append-Yields _ 13 _ _ _ _ _ _ h (omega arith) (omega arith) λ b h.
          append-Yields _ 14 _ _ _ _ _ _ h (omega arith) (omega arith) λ b h.
            field-Yields _ 2 packet.header.flags _ _ _ _ _ h (omega arith) λ b h.
              field-Yields _ 4 packet.header.room_id _ _ _ _ _ h (omega arith) λ b h.
                field-Yields _ 4 packet.header.player_id _ _ _ _ _ h (omega arith) λ b h.
                  field-Yields _ 4 packet.header.seq _ _ _ _ _ h (omega arith) λ b h.
                    field-Yields _ 4 packet.header.tick _ _ _ _ _ h (omega arith) λ b h.
                      field-Yields _ 2 (length packet.payload % 2 ^ 16) _ _ _ _ _ h (omega arith)
                        λ b h.
                          field-Yields _ 2 packet.header.reserved _ _ _ _ _ h (omega arith) λ b h.
                            Yields-content _ _ (simp append_assoc) (
                              append_payload-Yields 36 (length packet.payload + 36) _ packet.payload
                                b h (omega arith) fits))

-- What `decode` takes from the bytes of a packet: the length on the wire is the number of payload
-- bytes modulo 2 ^ 16, and so many of them are kept.
abbrev pub received : GamePacket → GamePacket
received packet =
    let n = length packet.payload % 2 ^ 16 in
    record { header = record packet.header { payload_len = n }; payload = take n packet.payload }

pub length-wire : (packet : GamePacket) → length (wire packet) ≡ length packet.payload + 28
length-wire packet = simp (length-append, length-le_bytes) (omega arith)

decode-wire :
    (packet : GamePacket)
    → IsHeader packet.header
    → IsMsgType packet.header.msg_type
    → packet.header.version ≡ protocol_version
    → decode (wire packet) ≡ some (received packet)
unfolding decode read_u8
decode-wire packet h named current =
    let room : ltb (length (wire packet)) header_size ≡ false =
      le→ltb _ _ (omega (arith, length-wire packet)) in
    let whole : ltb (length packet.payload) (length packet.payload % 2 ^ 16) ≡ false =
      le→ltb _ _ (omega arith) in
    rw room (
      simp (
        read_u32-le_bytes magic (omega arith),
        current,
        msg_type_of-msg_type_code packet.header.msg_type named,
        read_u16-le_bytes packet.header.flags h.flags_fit,
        read_u32-le_bytes packet.header.room_id h.room_fit,
        read_u32-le_bytes packet.header.player_id h.player_fit,
        read_u32-le_bytes packet.header.seq h.seq_fit,
        read_u32-le_bytes packet.header.tick h.tick_fit,
        read_u16-le_bytes (length packet.payload % 2 ^ 16) (omega arith),
        read_u16-le_bytes packet.header.reserved h.reserved_fit,
        whole,
      ))

-- A packet of the current version and a named type, whose header fits its types and whose payload is
-- at least 36 bytes below the capacity limit, is encoded, and the bytes are decoded to the packet,
-- with the payload cut to its length modulo 2 ^ 16.
pub decode-encode :
    (packet : GamePacket)
    → IsHeader packet.header
    → IsMsgType packet.header.msg_type
    → packet.header.version ≡ protocol_version
    → length packet.payload + 36 ≤ max_capacity
    → (buf : Buffer) × (encode packet ≡ some buf) × (decode (peek buf) ≡ some (received packet))
decode-encode packet h named current fits =
    let (buf, e, held) = encode-wire packet fits in
    (buf, e, rw held.content (decode-wire packet h named current))

-- What `build_packet` makes, of fields that fit their types and a payload of less than 65536 bytes, is
-- decoded to them.
pub build_packet-decode :
    (type : GameMsgType) (room_id player_id seq tick : ℕ) (payload : List ℕ)
    → IsMsgType type
    → room_id < 2 ^ 32
    → player_id < 2 ^ 32
    → seq < 2 ^ 32
    → tick < 2 ^ 32
    → length payload < 2 ^ 16
    → (buf : Buffer) × (build_packet type room_id player_id seq tick payload ≡ some buf)
      × (decode (peek buf)
          ≡ some (record {
            header = record default_header {
              msg_type = type;
              room_id = room_id;
              player_id = player_id;
              seq = seq;
              tick = tick;
              payload_len = length payload;
            };
            payload = payload;
          }))
unfolding build_packet
build_packet-decode type room_id player_id seq tick payload named r p s t fits =
    let header : GamePacketHeader = record default_header {
      msg_type = type;
      room_id = room_id;
      player_id = player_id;
      seq = seq;
      tick = tick;
    } in
    let (buf, e, d) =
      decode-encode (record { header = header; payload = payload }) (omega (arith, r, p, s, t))
        named refl (omega arith) in
    let uncut : length payload % 2 ^ 16 ≡ length payload = omega arith in
    (
      buf,
      e,
      d
          ∙ ap
              (λ (n : ℕ).
                some
                  (record { header = record header { payload_len = n }; payload = take n payload }))
              uncut
          ∙ ap
              (λ (xs : List ℕ).
                some (record {
                  header = record header { payload_len = length payload };
                  payload = xs;
                }))
              (take_all (length payload) payload (omega arith)),
    )
