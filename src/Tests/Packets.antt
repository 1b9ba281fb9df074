-- ===== src/Tests/Packets.antt =====
-- Runs of the codecs of game/ and rpc/.
use lightnet.Common.{take, le_bytes, pos, negsuc, ℕ, ◌≡◌, refl, none, some, List, [], ◌∷◌, arith}
use lightnet.Buffer.{Buffer, peek}
use lightnet.Game.Packet.{
  msg_type_of, default_header, c2s_chat, c2s_respawn, GamePacketHeader, GamePacket,
  GameInputPayload, GamePlayerSnapshot, GameSnapshotPayload, IsInput,
}
use lightnet.Game.Wire.{read_u8, read_u16, read_u32}
use lightnet.Game.Payload.Kinds.{input_old, bytes_of, ComesBack, decode_payload}
use lightnet.Game.Snapshot.{encode_snapshot, decode_snapshot}
use lightnet.Game.Snapshot.RoundTrip.{decode_snapshot-encode}
use lightnet.Game.Codec as GameCodec
use lightnet.Game.Codec.Strict.{IsAccepted, decode-IsAccepted}
use lightnet.Game.Codec.RoundTrip as GameRoundTrip

abbrev no_header : GamePacketHeader
no_header = default_header

abbrev input : GameInputPayload
input = record {
  input_seq = 7;
  client_tick = 9;
  move_x = negsuc 126;
  move_y = pos 5;
  yaw = negsuc 8999;
  pitch = pos 0;
  buttons = 3;
  pos_x = 0;
  pos_y = 0x41500000;
  pos_z = 0;
  has_pos = 1;
}

input-IsInput : IsInput input
input-IsInput = omega arith

decode_payload_example :
    ComesBack
      (input_old input)
      (record { header = no_header; payload = bytes_of (input_old input) })
decode_payload_example = decode_payload no_header (input_old input) input-IsInput

abbrev player : GamePlayerSnapshot
player = record {
  player_id = 3;
  x = 0;
  y = 0x41500000;
  z = 0;
  yaw = negsuc 4499;
  pitch = pos 100;
  hp = 75;
  state_flags = 0;
  last_input_seq = 12;
  weapon_id = 1;
  pad0 = 0;
  kills = 2;
  deaths = 1;
}

abbrev snap : GameSnapshotPayload
snap = record { server_tick = 60; players = player ∷ player ∷ [] }

decode_snapshot-encode_example :
    decode_snapshot (record { header = no_header; payload = encode_snapshot snap }) ≡ some snap
decode_snapshot-encode_example = decode_snapshot-encode no_header snap (omega arith) (omega arith)

abbrev chat_packet : GamePacket
chat_packet = record {
  header = record default_header { msg_type = c2s_chat; room_id = 1; player_id = 3; seq = 8 };
  payload = 1 ∷ 2 ∷ 3 ∷ [];
}

decode-encode_example :
    (buf : Buffer) × (GameCodec.encode chat_packet ≡ some buf)
    × (GameCodec.decode (peek buf) ≡ some (GameRoundTrip.received chat_packet))
decode-encode_example = GameRoundTrip.decode-encode chat_packet (omega arith) tt refl (omega arith)

-- Twenty-four bytes, the size that the code names, are no header: it has 28.
short_header :
    GameCodec.decode (take 24 (GameRoundTrip.wire (record chat_packet { payload = [] }))) ≡ none
unfolding GameCodec.decode le_bytes read_u32 read_u16 read_u8
short_header = refl

-- A respawn message, 28 bytes of header.
abbrev tiny_bytes : List ℕ
tiny_bytes =
    0x50 ∷ 0x47 ∷ 0x4E ∷ 0x4C ∷ 1 ∷ 12 ∷ 0 ∷ 0 ∷ 1 ∷ 0 ∷ 0 ∷ 0 ∷ 3 ∷ 0 ∷ 0 ∷ 0 ∷ 0 ∷ 0 ∷ 0 ∷ 0 ∷ 0
    ∷ 0 ∷ 0 ∷ 0 ∷ 0 ∷ 0 ∷ 0 ∷ 0 ∷ []

abbrev tiny : GamePacket
tiny = record {
  header = record default_header { msg_type = c2s_respawn; room_id = 1; player_id = 3 };
  payload = [];
}

decode-IsAccepted_example : IsAccepted tiny_bytes tiny
unfolding GameCodec.decode read_u32 read_u16 read_u8 msg_type_of
decode-IsAccepted_example = decode-IsAccepted tiny_bytes {packet = tiny} refl
