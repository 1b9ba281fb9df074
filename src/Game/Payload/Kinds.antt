-- ===== src/Game/Payload/Kinds.antt =====
-- game/game_codec.cpp: the payloads of all kinds but the snapshot, and what their decoders return.
use lightnet.Common.{take, ℕ, ◌^◌, ◌<◌, ◌≡◌, refl, some, List, append_assoc}
use lightnet.Game.Packet.{
  GamePacket, GamePacketHeader, GameInputPayload, GameFirePayload, GameJoinAckPayload,
  GameEventPayload, GameChatPayload, GameMatchStatePayload, IsInput, IsFire, IsJoinAck, IsEvent,
  IsEventType,
}
use lightnet.Game.Wire.{
  append_u8, append_u32, append_u64, read_u8, read_u32-le_bytes, read_u64-le_bytes, read_u32_last,
  read_u64_last,
}
use lightnet.Game.Payload.{
  encode_input, decode_input, encode_fire, decode_fire, encode_join, decode_join, encode_join_ack,
  decode_join_ack, encode_event, decode_event, encode_ping, decode_ping, encode_pong, decode_pong,
  encode_chat, decode_chat, encode_weapon, decode_weapon, encode_match_state, decode_match_state,
  encode_profile, decode_profile,
}
use lightnet.Game.Payload.RoundTrip.{
  decode_join_ack-encode, decode_fire-encode, decode_event-encode, decode_input-encode,
  decode_input_old,
}
use lightnet.Game.Payload.Text.{decode_chat-encode, decode_profile-encode}

-- `input_old` is an input in the format without a position.
pub data Payload : Type 0 where
  join : ℕ → Payload
  join_ack : GameJoinAckPayload → Payload
  input : GameInputPayload → Payload
  input_old : GameInputPayload → Payload
  fire : GameFirePayload → Payload
  event : GameEventPayload → Payload
  ping : ℕ → Payload
  pong : ℕ → ℕ → ℕ → Payload
  chat : GameChatPayload → Payload
  weapon : ℕ → Payload
  match_state : GameMatchStatePayload → Payload
  profile : List ℕ → Payload

abbrev pub bytes_of : Payload → List ℕ
bytes_of (join room) = encode_join room
bytes_of (join_ack a) = encode_join_ack a
bytes_of (input i) = encode_input i
bytes_of (input_old i) = take 16 (encode_input i)
bytes_of (fire f) = encode_fire f
bytes_of (event e) = encode_event e
bytes_of (ping sent) = encode_ping sent
bytes_of (pong sent received answered) = encode_pong sent received answered
bytes_of (chat c) = encode_chat c
bytes_of (weapon id) = encode_weapon id
bytes_of (match_state m) = encode_match_state m
bytes_of (profile name) = encode_profile name

-- The fields fit their types, and an event is of a named type.
abbrev Fits : Payload → Type 0
Fits (join room) = room < 2 ^ 32
Fits (join_ack a) = IsJoinAck a
Fits (input i) = IsInput i
Fits (input_old i) = IsInput i
Fits (fire f) = IsFire f
Fits (event e) = IsEvent e × IsEventType e.event_type
Fits (ping sent) = sent < 2 ^ 64
Fits (pong sent received answered) = (sent < 2 ^ 64) × (received < 2 ^ 64) × (answered < 2 ^ 64)
Fits (chat c) = c.sender_id < 2 ^ 32
Fits (weapon id) = id < 256
Fits (match_state m) = (m.time_left_sec < 2 ^ 32) × (m.match_over < 256)
Fits (profile name) = Unit {0}

-- What the decoder of the kind returns. An input is decoded into a record that holds something
-- before, and whose position stays when the bytes have none.
abbrev pub ComesBack : Payload → GamePacket → Type 0
ComesBack (join room) p = decode_join p ≡ some room
ComesBack (join_ack a) p = decode_join_ack p ≡ some a
ComesBack (input i) p = (out : GameInputPayload) → decode_input p out ≡ some i
ComesBack (input_old i) p =
    (out : GameInputPayload)
    → decode_input p out
      ≡ some (record i { pos_x = out.pos_x; pos_y = out.pos_y; pos_z = out.pos_z; has_pos = 0 })
ComesBack (fire f) p = decode_fire p ≡ some f
ComesBack (event e) p = decode_event p ≡ some e
ComesBack (ping sent) p = decode_ping p ≡ some sent
ComesBack (pong sent received answered) p = decode_pong p ≡ some (sent, received, answered)
ComesBack (chat c) p = decode_chat p ≡ some (record c { text = take 200 c.text })
ComesBack (weapon id) p = decode_weapon p ≡ some id
ComesBack (match_state m) p = decode_match_state p ≡ some m
ComesBack (profile name) p = decode_profile p ≡ some (take 32 name)

-- For every kind of payload but the snapshot, a payload whose fields fit their types is encoded to bytes
-- from which the decoder of its kind returns it again; the text of a chat message is cut to 200
-- bytes and a name to 32, and an input in the old format leaves the position as it was.
pub decode_payload :
    (header : GamePacketHeader) (p : Payload)
    → Fits p
    → ComesBack p (record { header = header; payload = bytes_of p })
unfolding encode_join decode_join append_u32 encode_ping decode_ping append_u64 encode_pong
    decode_pong encode_weapon decode_weapon append_u8 read_u8 encode_match_state decode_match_state
decode_payload header (join room) h = rw (read_u32_last room h) refl
decode_payload header (join_ack a) h = decode_join_ack-encode header a h
decode_payload header (input i) h = λ out. decode_input-encode header i out h
decode_payload header (input_old i) h = λ out. decode_input_old header i out h
decode_payload header (fire f) h = decode_fire-encode header f h
decode_payload header (event e) (h, named) = decode_event-encode header e h named
decode_payload header (ping sent) h = rw (read_u64_last sent h) refl
decode_payload header (pong sent received answered) (h, r, a) =
    simp (
      append_assoc,
      read_u64-le_bytes sent h,
      read_u64-le_bytes received r,
      read_u64_last answered a,
    )
decode_payload header (chat c) h = decode_chat-encode header c h
decode_payload header (weapon id) h = refl
decode_payload header (match_state m) (t, o) =
    simp (append_assoc, read_u32-le_bytes m.time_left_sec t)
decode_payload header (profile name) h = decode_profile-encode header name
