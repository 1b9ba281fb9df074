-- ===== src/Game/Codec.antt =====
-- game/game_codec.cpp: a packet to a buffer and back.
pub mod RoundTrip
pub mod Strict
use lightnet.Common.{
  ℕ, ◌+◌, ◌%◌, ◌^◌, List, [], ◌∷◌, Option, none, some, true, false, not, leb, ltb, ◌==◌, ◌||◌, ◌&&◌,
  if◌then◌else◌, length, take, drop, ◌>>=◌, ◌>>◌, guard, le_bytes,
}
use lightnet.Buffer.{Buffer, new, ensure_writable, append}
use lightnet.Game.Packet.{
  GamePacket, GamePacketHeader, GameMsgType, default_header, msg_type_code, msg_type_of, magic,
  protocol_version, header_size,
}
use lightnet.Game.Wire.{read_u8, read_u16, read_u32}

-- `if (!packet.payload.empty())`.
append_payload : Buffer → List ℕ → Option Buffer
append_payload buf [] = some buf
append_payload buf (b ∷ bs) = append buf (b ∷ bs)

-- Each field is copied from memory, so in the byte order of the host.
pub encode : GamePacket → Option Buffer
unfolding append_payload
encode packet = do
  buf ← ensure_writable new (header_size + length packet.payload)
  buf ← append buf (le_bytes 4 magic)
  buf ← append buf (packet.header.version ∷ [])
  buf ← append buf (msg_type_code packet.header.msg_type ∷ [])
  buf ← append buf (le_bytes 2 packet.header.flags)
  buf ← append buf (le_bytes 4 packet.header.room_id)
  buf ← append buf (le_bytes 4 packet.header.player_id)
  buf ← append buf (le_bytes 4 packet.header.seq)
  buf ← append buf (le_bytes 4 packet.header.tick)
  buf ← append buf (le_bytes 2 (length packet.payload % 2 ^ 16))
  buf ← append buf (le_bytes 2 packet.header.reserved)
  append_payload buf packet.payload

-- The bytes of a datagram; `none` stands for the result false.
unfoldable pub decode : List ℕ → Option GamePacket
decode bytes = do
  guard (not (ltb (length bytes) header_size))
  (magic_read, p) ← read_u32 bytes
  guard (magic_read == magic)
  (version, p) ← read_u8 p
  guard (version == protocol_version)
  (msg_type_raw, p) ← read_u8 p
  (flags, p) ← read_u16 p
  (room_id, p) ← read_u32 p
  (player_id, p) ← read_u32 p
  (seq, p) ← read_u32 p
  (tick, p) ← read_u32 p
  (payload_len, p) ← read_u16 p
  (reserved, p) ← read_u16 p
  guard (not (ltb (length p) payload_len))
  some (record {
    header = record {
      version = version;
      msg_type = msg_type_of msg_type_raw;
      flags = flags;
      room_id = room_id;
      player_id = player_id;
      seq = seq;
      tick = tick;
      payload_len = payload_len;
      reserved = reserved;
    };
    payload = take payload_len p;
  })

pub build_packet : GameMsgType → ℕ → ℕ → ℕ → ℕ → List ℕ → Option Buffer
unfolding encode
build_packet type room_id player_id seq tick payload = encode (record {
  header = record default_header {
    msg_type = type;
    room_id = room_id;
    player_id = player_id;
    seq = seq;
    tick = tick;
  };
  payload = payload;
})
