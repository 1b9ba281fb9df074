-- ===== src/Game/Packet.antt =====
-- game/game_packet.h: the messages of the game protocol.
-- A float is its 32-bit pattern, which is what the codec copies; text is a list of bytes. The
-- padding fields that no code reads are left out.
use lightnet.Common.{ℕ, ℤ, List, ◌==◌, if◌then◌else◌, ◌<◌, InRange, ◌^◌, ◌⊎◌, ◌≡◌, refl, arith}

pub data GameMsgType : Type 0 where
  c2s_join s2c_join_ack c2s_input c2s_fire c2s_ping s2c_pong s2c_snapshot : GameMsgType
  s2c_event c2s_chat s2c_chat c2s_weapon c2s_respawn s2c_match_state c2s_profile : GameMsgType
  -- A value of the underlying byte that has no enumerator.
  unnamed : ℕ → GameMsgType

-- `static_cast<uint8_t>` of a message type.
unfoldable pub msg_type_code : GameMsgType → ℕ
msg_type_code c2s_join = 1
msg_type_code s2c_join_ack = 2
msg_type_code c2s_input = 3
msg_type_code c2s_fire = 4
msg_type_code c2s_ping = 5
msg_type_code s2c_pong = 6
msg_type_code s2c_snapshot = 7
msg_type_code s2c_event = 8
msg_type_code c2s_chat = 9
msg_type_code s2c_chat = 10
msg_type_code c2s_weapon = 11
msg_type_code c2s_respawn = 12
msg_type_code s2c_match_state = 13
msg_type_code c2s_profile = 14
msg_type_code (unnamed n) = n

-- `static_cast<GameMsgType>` of a byte.
unfoldable pub msg_type_of : ℕ → GameMsgType
msg_type_of n =
    if n == 1
    then c2s_join
    else if n == 2
    then s2c_join_ack
    else if n == 3
    then c2s_input
    else if n == 4
    then c2s_fire
    else if n == 5
    then c2s_ping
    else if n == 6
    then s2c_pong
    else if n == 7
    then s2c_snapshot
    else if n == 8
    then s2c_event
    else if n == 9
    then c2s_chat
    else if n == 10
    then s2c_chat
    else if n == 11
    then c2s_weapon
    else if n == 12
    then c2s_respawn
    else if n == 13
    then s2c_match_state
    else if n == 14
    then c2s_profile
    else unnamed n

pub data GameEventType : Type 0 where
  hit kill respawn : GameEventType
  unnamed_event : ℕ → GameEventType

unfoldable pub event_type_code : GameEventType → ℕ
event_type_code hit = 1
event_type_code kill = 2
event_type_code respawn = 3
event_type_code (unnamed_event n) = n

unfoldable pub event_type_of : ℕ → GameEventType
event_type_of n =
    if n == 1 then hit else if n == 2 then kill else if n == 3 then respawn else unnamed_event n

abbrev pub magic : ℕ
magic = 0x4C4E4750

abbrev pub protocol_version : ℕ
protocol_version = 1

abbrev pub header_size : ℕ
header_size = 24

pub record GamePacketHeader : Type 0 where
  pub version : ℕ
  pub msg_type : GameMsgType
  pub flags : ℕ
  pub room_id : ℕ
  pub player_id : ℕ
  pub seq : ℕ
  pub tick : ℕ
  pub payload_len : ℕ
  pub reserved : ℕ

pub record GamePacket : Type 0 where
  pub header : GamePacketHeader
  pub payload : List ℕ

-- The default member values of a header.
abbrev pub default_header : GamePacketHeader
default_header = record {
  version = protocol_version;
  msg_type = c2s_input;
  flags = 0;
  room_id = 0;
  player_id = 0;
  seq = 0;
  tick = 0;
  payload_len = 0;
  reserved = 0;
}

pub record GameInputPayload : Type 0 where
  pub input_seq : ℕ
  pub client_tick : ℕ
  pub move_x : ℤ
  pub move_y : ℤ
  pub yaw : ℤ
  pub pitch : ℤ
  pub buttons : ℕ
  pub pos_x : ℕ
  pub pos_y : ℕ
  pub pos_z : ℕ
  pub has_pos : ℕ

pub record GameFirePayload : Type 0 where
  pub client_tick : ℕ
  pub weapon_id : ℕ
  pub origin_x : ℕ
  pub origin_y : ℕ
  pub origin_z : ℕ
  pub dir_x : ℕ
  pub dir_y : ℕ
  pub dir_z : ℕ

pub record GameJoinAckPayload : Type 0 where
  pub room_id : ℕ
  pub player_id : ℕ
  pub server_tick : ℕ
  pub tick_interval_ms : ℕ

pub record GamePlayerSnapshot : Type 0 where
  pub player_id : ℕ
  pub x : ℕ
  pub y : ℕ
  pub z : ℕ
  pub yaw : ℤ
  pub pitch : ℤ
  pub hp : ℕ
  pub state_flags : ℕ
  pub last_input_seq : ℕ
  pub weapon_id : ℕ
  pub pad0 : ℕ
  pub kills : ℕ
  pub deaths : ℕ

pub record GameSnapshotPayload : Type 0 where
  pub server_tick : ℕ
  pub players : List GamePlayerSnapshot

pub record GameEventPayload : Type 0 where
  pub event_type : GameEventType
  pub target_id : ℕ
  pub value : ℤ
  pub extra : ℕ

pub record GameChatPayload : Type 0 where
  pub sender_id : ℕ
  pub text : List ℕ

pub record GameMatchStatePayload : Type 0 where
  pub time_left_sec : ℕ
  pub match_over : ℕ

-- The fields lie in the ranges of their C++ types.
pub record IsHeader (h : GamePacketHeader) : Type 0 where
  pub flags_fit : h.flags < 2 ^ 16
  pub room_fit : h.room_id < 2 ^ 32
  pub player_fit : h.player_id < 2 ^ 32
  pub seq_fit : h.seq < 2 ^ 32
  pub tick_fit : h.tick < 2 ^ 32
  pub reserved_fit : h.reserved < 2 ^ 16

pub record IsInput (i : GameInputPayload) : Type 0 where
  pub seq_fit : i.input_seq < 2 ^ 32
  pub tick_fit : i.client_tick < 2 ^ 32
  pub move_x_fit : InRange 128 i.move_x
  pub move_y_fit : InRange 128 i.move_y
  pub yaw_fit : InRange 32768 i.yaw
  pub pitch_fit : InRange 32768 i.pitch
  pub buttons_fit : i.buttons < 2 ^ 16
  pub x_fit : i.pos_x < 2 ^ 32
  pub y_fit : i.pos_y < 2 ^ 32
  pub z_fit : i.pos_z < 2 ^ 32

pub record IsFire (f : GameFirePayload) : Type 0 where
  pub tick_fit : f.client_tick < 2 ^ 32
  pub origin_x_fit : f.origin_x < 2 ^ 32
  pub origin_y_fit : f.origin_y < 2 ^ 32
  pub origin_z_fit : f.origin_z < 2 ^ 32
  pub dir_x_fit : f.dir_x < 2 ^ 32
  pub dir_y_fit : f.dir_y < 2 ^ 32
  pub dir_z_fit : f.dir_z < 2 ^ 32

pub record IsJoinAck (a : GameJoinAckPayload) : Type 0 where
  pub room_fit : a.room_id < 2 ^ 32
  pub player_fit : a.player_id < 2 ^ 32
  pub tick_fit : a.server_tick < 2 ^ 32
  pub interval_fit : a.tick_interval_ms < 2 ^ 32

pub record IsPlayer (p : GamePlayerSnapshot) : Type 0 where
  pub player_fit : p.player_id < 2 ^ 32
  pub x_fit : p.x < 2 ^ 32
  pub y_fit : p.y < 2 ^ 32
  pub z_fit : p.z < 2 ^ 32
  pub yaw_fit : InRange 32768 p.yaw
  pub pitch_fit : InRange 32768 p.pitch
  pub hp_fit : p.hp < 2 ^ 16
  pub flags_fit : p.state_flags < 2 ^ 16
  pub seq_fit : p.last_input_seq < 2 ^ 32
  pub kills_fit : p.kills < 2 ^ 16
  pub deaths_fit : p.deaths < 2 ^ 16

pub record IsEvent (e : GameEventPayload) : Type 0 where
  pub target_fit : e.target_id < 2 ^ 32
  pub value_fit : InRange (2 ^ 31) e.value
  pub extra_fit : e.extra < 2 ^ 32

-- The values that `static_cast` maps back to themselves: an unnamed value has no enumerator's code.
abbrev pub IsMsgType : GameMsgType → Type 0
IsMsgType (unnamed n) = n < 1 ⊎ 14 < n
IsMsgType _ = Unit {0}

abbrev pub IsEventType : GameEventType → Type 0
IsEventType (unnamed_event n) = n < 1 ⊎ 3 < n
IsEventType _ = Unit {0}

pub msg_type_of-msg_type_code : (t : GameMsgType) → IsMsgType t → msg_type_of (msg_type_code t) ≡ t
unfolding msg_type_of msg_type_code
msg_type_of-msg_type_code (unnamed n) h = ground arith
msg_type_of-msg_type_code _ h = refl

pub event_type_of-event_type_code :
    (t : GameEventType) → IsEventType t → event_type_of (event_type_code t) ≡ t
unfolding event_type_of event_type_code
event_type_of-event_type_code (unnamed_event n) h = ground arith
event_type_of-event_type_code _ h = refl
