-- ===== src/Game/Dispatch/Respawn.antt =====
-- game/room_manager.cpp: the event that follows a request to respawn.
use lightnet.Common.{
  ◌==◌, Bool-cases, pos, ℕ, ◌^◌, ◌<◌, ◌≡◌, ap, inl, inr, true, some, List, [], ◌∷◌, arith,
}
use lightnet.Game.Packet.{c2s_respawn, respawn, GamePacket, GameEventPayload}
use lightnet.Game.Player.{Float32, GamePlayer}
use lightnet.Game.Room.{GameRoom, find_player}
use lightnet.Game.Room.Players.{apply_respawn_alive}
use lightnet.Game.Send.{Datagram}
use lightnet.Game.Send.Delivery.{IsSendable, TellsEach, send_event-TellsEach}
use lightnet.Game.Manager.{GameRoomManager, PlayerBinding, find_room, modify_room}
use lightnet.Game.Dispatch.{handle_bound}

-- The event that a player has respawned with 100 health points.
abbrev pub respawned : ℕ → GameEventPayload
respawned player_id = record {
  event_type = respawn;
  target_id = player_id;
  value = pos 100;
  extra = 0;
}

modify_room_same :
    (id : ℕ) (rooms : List GameRoom) {room : GameRoom}
    → find_room id rooms ≡ some room
    → modify_room id (λ r. room) rooms ≡ rooms
unfolding find_room modify_room
modify_room_same id [] e = cc
modify_room_same id (r ∷ rs) {room} e = elim (Bool-cases (r.room_id == id)) [
  | inl here ↦
      let first : some r ≡ some room = rw here at e in
      let same : room ≡ r = cc first in rw here (ap (λ (x : GameRoom). x ∷ rs) same)
  | inr later ↦
      rw later
        (ap (λ (others : List GameRoom). r ∷ others) (modify_room_same id rs (rw later at e)))
]

module _ (inet_ntop : ℕ → List ℕ) (F : Float32) where
  -- A request to respawn by a player who is alive, in a room whose ids and clock fit their types,
  -- changes nothing, and yet each player of the room is sent one datagram, from which `decode` and
  -- `decode_event` take the event that the requesting player has respawned with 100 health points.
  pub handle_bound_alive :
      (m : GameRoomManager) (packet : GamePacket) (b : PlayerBinding) {room : GameRoom}
      {p : GamePlayer}
      → packet.header.msg_type ≡ c2s_respawn
      → find_room b.room_id m.rooms ≡ some room
      → find_player b.player_id room.players ≡ some p
      → p.alive ≡ true
      → b.player_id < 2 ^ 32
      → IsSendable room
      → (sent : List Datagram) × (handle_bound inet_ntop F m packet b ≡ some (m, sent))
        × TellsEach room (respawned b.player_id) room.players sent
  unfolding handle_bound
  handle_bound_alive m packet b {room} e here found lives fit sendable =
      let (sent, s, told) =
        send_event-TellsEach room (respawned b.player_id) sendable (omega (arith, fit)) tt in
      (
        sent,
        rw (e, here, apply_respawn_alive F room b.player_id found lives, s, handle_bound)
            (ap (λ (rooms : List GameRoom). some (record m { rooms = rooms }, sent))
              (modify_room_same b.room_id m.rooms here)),
        told,
      )
