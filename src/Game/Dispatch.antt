-- ===== src/Game/Dispatch.antt =====
-- game/room_manager.cpp: what a datagram and a tick of the server do.
-- Each reading of the clock is an argument.
pub mod Strangers
pub mod Respawn
use lightnet.Common.{
  ltb, leb, ◌==◌, if◌then◌else◌, ltb→lt, lt→ltb, le→ltb, le→leb, lt→leb, ltb→ge, leb→le, leb→gt,
  ==→eq, ==→ne, eq→==, ==-refl, Bool-cases, Option-cases, some_pair-fst, some_pair-snd, bytes_eq,
  bytes_eq_refl, bytes_eq→eq, ◌>>=◌, ◌>>◌, guard, >>=-eq-some, guard-eq-some, >>=-elim, eq_of_some,
  length, take, drop, replicate, get_or, All, length-append, length-take, length-drop,
  length-replicate, take-append-drop, take_all, drop_all, drop-nil, take-append_le, drop-append_le,
  take-append_ge, drop-append_ge, take_front, drop_front, drop-drop, drop-take, length-map,
  take_first, drop_first, get_or-append, to_signed, to_unsigned, InRange, to_signed-to_unsigned,
  to_unsigned-lt, codes, IsByte, le_bytes, of_le, length-le_bytes, le_bytes-IsByte, of_le-le_bytes,
  ℤ, pos, negsuc, ℕ, zero, suc, ◌+◌, ◌-◌, ◌*◌, ◌/◌, ◌%◌, ◌^◌, ◌≤◌, ◌<◌, min, max, ◌≡◌, refl, sym,
  ap, ◌∙◌, subst, ◌≢◌, ◌↔◌, ◌⊎◌, inl, inr, Bool, true, false, not, ◌&&◌, ◌||◌, Option, none, some,
  List, [], ◌∷◌, ◌++◌, map, append_assoc, append-nil, arith,
}
use lightnet.Game.Packet.{
  msg_type_code, msg_type_of, event_type_code, event_type_of, magic, protocol_version, header_size,
  default_header, IsMsgType, IsEventType, msg_type_of-msg_type_code, event_type_of-event_type_code,
  GameMsgType, c2s_join, s2c_join_ack, c2s_input, c2s_fire, c2s_ping, s2c_pong, s2c_snapshot,
  s2c_event, c2s_chat, s2c_chat, c2s_weapon, c2s_respawn, s2c_match_state, c2s_profile, unnamed,
  GameEventType, hit, kill, respawn, unnamed_event, GamePacketHeader, GamePacket, GameInputPayload,
  GameFirePayload, GameJoinAckPayload, GamePlayerSnapshot, GameSnapshotPayload, GameEventPayload,
  GameChatPayload, GameMatchStatePayload, IsHeader, IsInput, IsFire, IsJoinAck, IsPlayer, IsEvent,
}
use lightnet.Game.Payload.{
  decode_input, decode_fire, decode_join, decode_chat, decode_weapon, decode_profile, decode_ping,
  encode_pong,
}
use lightnet.Game.Player.{Float32, Peer, fire_damage}
use lightnet.Game.Room.{
  GameRoom, Shot, apply_input, apply_fire, apply_weapon, apply_profile, apply_respawn, tick,
}
use lightnet.Game.Send.{
  send_one, send_each, send_snapshot, send_event, send_chat, send_match_state, send_join_ack,
  Datagram,
}
use lightnet.Game.Manager.{
  new_manager, lookup, unbind, bind, find_room, in_room, refresh_peer, peer_key, find_binding,
  leave_by_peer, rebind, resolve_by_header, resolve_and_refresh_peer, refused, enter, join,
  PlayerBinding, GameRoomManager, JoinResult,
}

-- The state afterwards and what was sent, oldest first.
abbrev Handled : Type 0
Handled = Option (GameRoomManager × List Datagram)

-- A payload to be decoded into, as the code declares it.
abbrev default_input : GameInputPayload
default_input = record {
  input_seq = 0;
  client_tick = 0;
  move_x = pos 0;
  move_y = pos 0;
  yaw = pos 0;
  pitch = pos 0;
  buttons = 0;
  pos_x = 0;
  pos_y = 0x41500000;
  pos_z = 0;
  has_pos = 0;
}

-- `room ? room->server_tick() : 0`.
abbrev tick_of : Option GameRoom → ℕ
tick_of (some room) = room.server_tick
tick_of none = 0

-- The events of a shot: a hit, and a kill behind it.
send_shot : Shot → ℕ → Option (List Datagram)
send_shot shot player_id = if shot.target_id == 0 then some [] else do
  hits ← send_event shot.room (record {
    event_type = hit;
    target_id = shot.target_id;
    value = negsuc (fire_damage - 1);
    extra = player_id;
  })
  kills ←
      if shot.killed
      then send_event shot.room (record {
        event_type = kill;
        target_id = shot.target_id;
        value = pos 0;
        extra = player_id;
      })
      else some []
  some (hits ++ kills)

module _ (inet_ntop : ℕ → List ℕ) (F : Float32) where
  send_pong : GameRoomManager → GamePacket → Peer → ℕ → ℕ → Option (List Datagram)
  send_pong m ping_packet peer server_recv_ns server_send_ns = elim (decode_ping ping_packet) [
    | none ↦ some []
    | some client_send ↦ do
      let from : PlayerBinding = elim (find_binding inet_ntop m peer) [
        | some b ↦ b
        | none ↦ record {
          room_id = ping_packet.header.room_id;
          player_id = ping_packet.header.player_id;
        }
      ]
      d ←
          send_one s2c_pong from.room_id from.player_id ping_packet.header.seq
            ping_packet.header.tick (encode_pong client_send server_recv_ns server_send_ns) peer
      some (d ∷ [])
  ]

  handle_join : GameRoomManager → GamePacket → Peer → Handled
  handle_join m packet peer = elim (decode_join packet) [
    | none ↦ some (m, [])
    | some desired ↦
        let (m', joined) = join inet_ntop F m peer in
        let b : PlayerBinding = record { room_id = joined.room_id; player_id = joined.player_id } in
        if not joined.ok then some (m', []) else do
          let now_tick = tick_of (find_room joined.room_id m'.rooms)
          d ← send_join_ack m'.tick_interval_ms peer joined.room_id joined.player_id now_tick
          some (refresh_peer b peer m', d ∷ [])
  ]

  -- The messages of a bound player, with the state that the binding left.
  pub handle_bound : GameRoomManager → GamePacket → PlayerBinding → Handled
  unfolding send_shot
  handle_bound m packet b = elim packet.header.msg_type [
    | c2s_input ↦ elim (decode_input packet default_input) [
      | none ↦ some (m, [])
      | some input ↦ some (in_room b.room_id (λ r. apply_input F r b.player_id input) m, [])
    ]
    | c2s_fire ↦ elim (decode_fire packet) [
      | none ↦ some (m, [])
      | some fire ↦ elim (find_room b.room_id m.rooms) [
        | none ↦ some (m, [])
        | some room ↦ do
          let shot = apply_fire F room b.player_id fire
          sent ← send_shot shot b.player_id
          some (in_room b.room_id (λ r. shot.room) m, sent)
      ]
    ]
    | c2s_chat ↦ elim (decode_chat packet) [
      | none ↦ some (m, [])
      | some chat ↦ elim (find_room b.room_id m.rooms) [
        | none ↦ some (m, [])
        | some room ↦ do
          sent ← send_chat room (record chat { sender_id = b.player_id })
          some (m, sent)
      ]
    ]
    | c2s_weapon ↦ elim (decode_weapon packet) [
      | none ↦ some (m, [])
      | some weapon_id ↦ some (in_room b.room_id (λ r. apply_weapon r b.player_id weapon_id) m, [])
    ]
    | c2s_respawn ↦ elim (find_room b.room_id m.rooms) [
      | none ↦ some (m, [])
      | some room ↦ do
        let risen = apply_respawn F room b.player_id
        sent ←
            send_event risen
              (record { event_type = respawn; target_id = b.player_id; value = pos 100; extra = 0 })
        some (in_room b.room_id (λ r. risen) m, sent)
    ]
    | c2s_profile ↦ elim (decode_profile packet) [
      | none ↦ some (m, [])
      | some name ↦ some (in_room b.room_id (λ r. apply_profile r b.player_id name) m, [])
    ]
    | _ ↦ some (m, [])
  ]

  -- The messages that only a bound player can send.
  pub handle_play : GameRoomManager → GamePacket → Peer → Handled
  unfolding handle_bound
  handle_play m packet peer =
      let (m', binding) = resolve_and_refresh_peer inet_ntop m peer packet in
      elim binding [ none ↦ some (m', []) | some b ↦ handle_bound m' packet b ]

  pub handle_packet : GameRoomManager → GamePacket → Peer → ℕ → ℕ → Handled
  unfolding handle_join handle_play send_pong
  handle_packet m packet peer received_ns sent_ns = elim packet.header.msg_type [
    | c2s_join ↦ handle_join m packet peer
    | c2s_ping ↦
        let (m', _) = resolve_and_refresh_peer inet_ntop m peer packet in
        do sent ← send_pong m' packet peer received_ns sent_ns; some (m', sent)
    | c2s_input ↦ handle_play m packet peer
    | c2s_fire ↦ handle_play m packet peer
    | c2s_chat ↦ handle_play m packet peer
    | c2s_weapon ↦ handle_play m packet peer
    | c2s_respawn ↦ handle_play m packet peer
    | c2s_profile ↦ handle_play m packet peer
    | _ ↦ some (m, [])
  ]

  -- `match_broadcast_counter_ % std::max(1u, 1000u / tick_interval_ms_) == 0`.
  abbrev match_state_due : GameRoomManager → Bool
  match_state_due m =
      ltb 0 m.tick_interval_ms && m.match_broadcast_counter % max 1 (1000 / m.tick_interval_ms) == 0

  tick_rooms : Bool → List GameRoom → Option (List GameRoom × List Datagram)
  tick_rooms due [] = some ([], [])
  tick_rooms due (room ∷ rooms) =
      let (room', snap) = tick F room in
      do
        snaps ← send_snapshot room' snap
        states ← if due then send_match_state room' else some []
        (rooms', sent) ← tick_rooms due rooms
        some (room' ∷ rooms', snaps ++ (states ++ sent))

  pub tick_all : GameRoomManager → Handled
  unfolding tick_rooms
  tick_all m = do
    let counted : GameRoomManager = record m {
      match_broadcast_counter = (m.match_broadcast_counter + 1) % 2 ^ 32;
    }
    (rooms, sent) ← tick_rooms (match_state_due counted) m.rooms
    some (record counted { rooms = rooms }, sent)
