-- ===== src/Game/Dispatch/Strangers.antt =====
-- game/room_manager.cpp: datagrams from peers that are bound to no player.
use lightnet.Common.{ℕ, ◌≡◌, refl, ap, subst, ◌≢◌, Option, none, some, List, []}
use lightnet.Game.Packet.{
  GameMsgType, c2s_join, s2c_join_ack, c2s_input, c2s_fire, c2s_ping, s2c_pong, s2c_snapshot,
  s2c_event, c2s_chat, s2c_chat, c2s_weapon, c2s_respawn, s2c_match_state, c2s_profile, unnamed,
  GamePacket,
}
use lightnet.Game.Player.{Float32, Peer}
use lightnet.Game.Manager.{GameRoomManager, PlayerBinding, resolve_and_refresh_peer}
use lightnet.Game.Manager.Bindings.{Resolves, resolve-Resolves}
use lightnet.Game.Dispatch.{handle_play, handle_packet}

module _ (inet_ntop : ℕ → List ℕ) (F : Float32) where
  handle_play_stranger :
      (m : GameRoomManager) (packet : GamePacket) (peer : Peer)
      → (resolve_and_refresh_peer inet_ntop m peer packet).1 ≡ none
      → handle_play inet_ntop F m packet peer ≡ some (m, [])
  unfolding handle_play
  handle_play_stranger m packet peer none_found =
      let r : GameRoomManager × Option PlayerBinding =
        resolve_and_refresh_peer inet_ntop m peer packet in
      rw (none_found, handle_play)
        (ap (λ (k : GameRoomManager). some (k, []))
          (subst (λ o. Resolves inet_ntop m peer (r.0, o)) none_found
            (resolve-Resolves inet_ntop m peer packet)))

  stranger_by :
      (m : GameRoomManager) (packet : GamePacket) (peer : Peer) (received_ns sent_ns : ℕ)
      (t : GameMsgType)
      → packet.header.msg_type ≡ t
      → t ≢ c2s_join
      → t ≢ c2s_ping
      → (resolve_and_refresh_peer inet_ntop m peer packet).1 ≡ none
      → handle_packet inet_ntop F m packet peer received_ns sent_ns ≡ some (m, [])
  unfolding handle_packet
  stranger_by m packet peer r s c2s_join e nj np h = absurd (nj refl)
  stranger_by m packet peer r s c2s_ping e nj np h = absurd (np refl)
  stranger_by m packet peer r s c2s_input e nj np h =
      rw (e, handle_packet) (handle_play_stranger m packet peer h)
  stranger_by m packet peer r s c2s_fire e nj np h =
      rw (e, handle_packet) (handle_play_stranger m packet peer h)
  stranger_by m packet peer r s c2s_chat e nj np h =
      rw (e, handle_packet) (handle_play_stranger m packet peer h)
  stranger_by m packet peer r s c2s_weapon e nj np h =
      rw (e, handle_packet) (handle_play_stranger m packet peer h)
  stranger_by m packet peer r s c2s_respawn e nj np h =
      rw (e, handle_packet) (handle_play_stranger m packet peer h)
  stranger_by m packet peer r s c2s_profile e nj np h =
      rw (e, handle_packet) (handle_play_stranger m packet peer h)
  stranger_by m packet peer r s s2c_join_ack e nj np h = rw (e, handle_packet) refl
  stranger_by m packet peer r s s2c_pong e nj np h = rw (e, handle_packet) refl
  stranger_by m packet peer r s s2c_snapshot e nj np h = rw (e, handle_packet) refl
  stranger_by m packet peer r s s2c_event e nj np h = rw (e, handle_packet) refl
  stranger_by m packet peer r s s2c_chat e nj np h = rw (e, handle_packet) refl
  stranger_by m packet peer r s s2c_match_state e nj np h = rw (e, handle_packet) refl
  stranger_by m packet peer r s (unnamed n) e nj np h = rw (e, handle_packet) refl

  -- A datagram that neither its sender nor its header binds to a player changes nothing and is not
  -- answered, unless it asks to join or is a ping.
  handle_packet_stranger :
      (m : GameRoomManager) (packet : GamePacket) (peer : Peer) (received_ns sent_ns : ℕ)
      → packet.header.msg_type ≢ c2s_join
      → packet.header.msg_type ≢ c2s_ping
      → (resolve_and_refresh_peer inet_ntop m peer packet).1 ≡ none
      → handle_packet inet_ntop F m packet peer received_ns sent_ns ≡ some (m, [])
  handle_packet_stranger m packet peer received_ns sent_ns nj np h =
      stranger_by m packet peer received_ns sent_ns packet.header.msg_type refl nj np h
