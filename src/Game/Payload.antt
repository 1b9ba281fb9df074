-- ===== src/Game/Payload.antt =====
-- game/game_codec.cpp: the payloads of the game messages, but for the snapshot.
-- An encoder clears `*out` and appends to it; here it returns what it wrote. A decoder that fails
-- returns false, and every caller then drops the value that it had begun to fill: it is `none`.
pub mod RoundTrip
pub mod Text
pub mod Kinds
use lightnet.Common.{
  ℕ, ◌+◌, ◌^◌, ◌%◌, ℤ, List, [], ◌∷◌, ◌++◌, Option, none, some, leb, ltb, if◌then◌else◌, length,
  take, min, ◌>>=◌, to_signed, to_unsigned,
}
use lightnet.Game.Packet.{
  GamePacket, GameInputPayload, GameFirePayload, GameJoinAckPayload, GameEventPayload,
  GameChatPayload, GameMatchStatePayload, event_type_code, event_type_of,
}
use lightnet.Game.Wire.{
  append_u8, append_u16, append_u32, append_u64, append_i8, append_i16, append_f32, read_u8,
  read_u16, read_u32, read_u64, read_i8, read_i16, read_f32,
}

-- Three zero bytes.
abbrev pub append_pad : List ℕ → List ℕ
append_pad out = append_u8 (append_u8 (append_u8 out 0) 0) 0

abbrev pub read_pad : List ℕ → Option (List ℕ)
read_pad p = do (_, p) ← read_u8 p; (_, p) ← read_u8 p; (_, p) ← read_u8 p; some p

pub encode_input : GameInputPayload → List ℕ
encode_input i =
    let out = append_u32 (append_u32 [] i.input_seq) i.client_tick in
    let out = append_i8 (append_i8 out i.move_x) i.move_y in
    let out = append_i16 (append_i16 out i.yaw) i.pitch in
    let out = append_u16 out i.buttons in
    let out = append_f32 (append_f32 (append_f32 out i.pos_x) i.pos_y) i.pos_z in
    append_pad (append_u8 out i.has_pos)

-- The part with the position, which a message of the old format lacks.
decode_input_pos : List ℕ → GameInputPayload → Option GameInputPayload
decode_input_pos p i = do
  (x, p) ← read_f32 p
  (y, p) ← read_f32 p
  (z, p) ← read_f32 p
  (has_pos, p) ← read_u8 p
  _ ← read_pad p
  some (record i { pos_x = x; pos_y = y; pos_z = z; has_pos = has_pos })

-- `out` is the value that the caller passes, whose position stays if none is sent.
pub decode_input : GamePacket → GameInputPayload → Option GameInputPayload
unfolding decode_input_pos
decode_input packet out = do
  (input_seq, p) ← read_u32 packet.payload
  (client_tick, p) ← read_u32 p
  (move_x, p) ← read_i8 p
  (move_y, p) ← read_i8 p
  (yaw, p) ← read_i16 p
  (pitch, p) ← read_i16 p
  (buttons, p) ← read_u16 p
  let filled = record out {
    input_seq = input_seq;
    client_tick = client_tick;
    move_x = move_x;
    move_y = move_y;
    yaw = yaw;
    pitch = pitch;
    buttons = buttons;
    has_pos = 0;
  }
  if leb 16 (length p) then decode_input_pos p filled else some filled

pub encode_fire : GameFirePayload → List ℕ
encode_fire f =
    let out = append_pad (append_u8 (append_u32 [] f.client_tick) f.weapon_id) in
    let out = append_f32 (append_f32 (append_f32 out f.origin_x) f.origin_y) f.origin_z in
    append_f32 (append_f32 (append_f32 out f.dir_x) f.dir_y) f.dir_z

pub decode_fire : GamePacket → Option GameFirePayload
decode_fire packet = do
  (client_tick, p) ← read_u32 packet.payload
  (weapon_id, p) ← read_u8 p
  p ← read_pad p
  (origin_x, p) ← read_f32 p
  (origin_y, p) ← read_f32 p
  (origin_z, p) ← read_f32 p
  (dir_x, p) ← read_f32 p
  (dir_y, p) ← read_f32 p
  (dir_z, p) ← read_f32 p
  some (record {
    client_tick = client_tick;
    weapon_id = weapon_id;
    origin_x = origin_x;
    origin_y = origin_y;
    origin_z = origin_z;
    dir_x = dir_x;
    dir_y = dir_y;
    dir_z = dir_z;
  })

-- The payload is the desired room.
pub encode_join : ℕ → List ℕ
encode_join desired_room_id = append_u32 [] desired_room_id

pub decode_join : GamePacket → Option ℕ
decode_join packet = do (desired_room_id, p) ← read_u32 packet.payload; some desired_room_id

pub encode_join_ack : GameJoinAckPayload → List ℕ
encode_join_ack a =
    append_u32 (append_u32 (append_u32 (append_u32 [] a.room_id) a.player_id) a.server_tick)
      a.tick_interval_ms

pub decode_join_ack : GamePacket → Option GameJoinAckPayload
decode_join_ack packet = do
  (room_id, p) ← read_u32 packet.payload
  (player_id, p) ← read_u32 p
  (server_tick, p) ← read_u32 p
  (tick_interval_ms, p) ← read_u32 p
  some (record {
    room_id = room_id;
    player_id = player_id;
    server_tick = server_tick;
    tick_interval_ms = tick_interval_ms;
  })

pub encode_event : GameEventPayload → List ℕ
encode_event e =
    let out = append_pad (append_u8 [] (event_type_code e.event_type)) in
    append_u32 (append_u32 (append_u32 out e.target_id) (to_unsigned (2 ^ 31) e.value)) e.extra

pub decode_event : GamePacket → Option GameEventPayload
decode_event packet = do
  (type_raw, p) ← read_u8 packet.payload
  p ← read_pad p
  (target_id, p) ← read_u32 p
  (value_u, p) ← read_u32 p
  (extra, p) ← read_u32 p
  some (record {
    event_type = event_type_of type_raw;
    target_id = target_id;
    value = to_signed (2 ^ 31) value_u;
    extra = extra;
  })

pub encode_ping : ℕ → List ℕ
encode_ping client_send_time = append_u64 [] client_send_time

pub decode_ping : GamePacket → Option ℕ
decode_ping packet = do (client_send_time, p) ← read_u64 packet.payload; some client_send_time

pub encode_pong : ℕ → ℕ → ℕ → List ℕ
encode_pong client_send server_recv server_send =
    append_u64 (append_u64 (append_u64 [] client_send) server_recv) server_send

pub decode_pong : GamePacket → Option (ℕ × ℕ × ℕ)
decode_pong packet = do
  (client_send, p) ← read_u64 packet.payload
  (server_recv, p) ← read_u64 p
  (server_send, p) ← read_u64 p
  some (client_send, server_recv, server_send)

-- At most `limit` bytes of a text, behind their number.
append_text : ℕ → List ℕ → List ℕ → List ℕ
append_text limit out text =
    let n = min (length text) limit % 2 ^ 16 in append_u16 out n ++ take n text

read_text : List ℕ → Option (List ℕ)
read_text p = do (n, p) ← read_u16 p; if ltb (length p) n then none else some (take n p)

pub encode_chat : GameChatPayload → List ℕ
encode_chat c = append_text 200 (append_u32 [] c.sender_id) c.text

pub decode_chat : GamePacket → Option GameChatPayload
decode_chat packet = do
  (sender_id, p) ← read_u32 packet.payload
  text ← read_text p
  some (record { sender_id = sender_id; text = text })

pub encode_weapon : ℕ → List ℕ
encode_weapon weapon_id = append_pad (append_u8 [] weapon_id)

pub decode_weapon : GamePacket → Option ℕ
decode_weapon packet = do (weapon_id, p) ← read_u8 packet.payload; _ ← read_pad p; some weapon_id

pub encode_match_state : GameMatchStatePayload → List ℕ
encode_match_state m = append_pad (append_u8 (append_u32 [] m.time_left_sec) m.match_over)

pub decode_match_state : GamePacket → Option GameMatchStatePayload
decode_match_state packet = do
  (time_left_sec, p) ← read_u32 packet.payload
  (match_over, p) ← read_u8 p
  _ ← read_pad p
  some (record { time_left_sec = time_left_sec; match_over = match_over })

pub encode_profile : List ℕ → List ℕ
encode_profile name = append_text 32 [] name

pub decode_profile : GamePacket → Option (List ℕ)
decode_profile packet = read_text packet.payload
