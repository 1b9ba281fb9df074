-- ===== src/Game/Manager.antt =====
-- game/room_manager.h and game/room_manager.cpp: the rooms, and which peer plays as whom.
-- `rooms_` is the list of its rooms, each under its own id, and `peer_index_` an association list. The
-- text that inet_ntop makes of an address is a parameter.
pub mod Bindings
pub mod Table
pub mod Links
pub mod Reach
use lightnet.Common.{
  ltb, leb, ◌==◌, if◌then◌else◌, ltb→lt, lt→ltb, le→ltb, le→leb, lt→leb, ltb→ge, leb→le, leb→gt,
  ==→eq, ==→ne, eq→==, ==-refl, Bool-cases, Option-cases, some_pair-fst, some_pair-snd, bytes_eq,
  bytes_eq_refl, bytes_eq→eq, ◌>>=◌, ◌>>◌, guard, >>=-eq-some, guard-eq-some, >>=-elim, eq_of_some,
  length, take, drop, replicate, get_or, All, length-append, length-take, length-drop,
  length-replicate, take-append-drop, take_all, drop_all, drop-nil, take-append_le, drop-append_le,
  take-append_ge, drop-append_ge, take_front, drop_front, drop-drop, drop-take, length-map,
  take_first, drop_first, get_or-append, to_signed, to_unsigned, InRange, to_signed-to_unsigned,
  to_unsigned-lt, codes, IsByte, le_bytes, of_le, length-le_bytes, le_bytes-IsByte, of_le-le_bytes,
  ℤ, pos, negsuc, ℕ, zero, suc, ◌+◌, ◌-◌, ◌*◌, ◌/◌, ◌%◌, ◌^◌, ◌≤◌, ◌<◌, min, max, ◌≡◌, refl, sym,
  ap, ◌∙◌, subst, ◌≢◌, ◌↔◌, ◌⊎◌, inl, inr, Bool, true, false, not, ◌&&◌, ◌||◌, Option, none, some,
  List, [], ◌∷◌, ◌++◌, map, append_assoc, append-nil, arith,
}
use lightnet.Http.Text.{to_string}
use lightnet.Game.Packet.{GamePacket}
use lightnet.Game.Player.{Float32, Peer, GamePlayer}
use lightnet.Game.Room.{GameRoom, find_player, modify, new_room, remove_player, add_player}

pub record PlayerBinding : Type 0 where
  pub room_id : ℕ
  pub player_id : ℕ

pub record GameRoomManager : Type 0 where
  pub tick_interval_ms : ℕ
  pub next_room_id : ℕ
  pub next_player_id : ℕ
  pub match_broadcast_counter : ℕ
  pub rooms : List GameRoom
  pub peer_index : List (List ℕ × PlayerBinding)

pub record JoinResult : Type 0 where
  pub room_id : ℕ
  pub player_id : ℕ
  pub ok : Bool

unfoldable pub new_manager : ℕ → GameRoomManager
new_manager tick_interval_ms = record {
  tick_interval_ms = tick_interval_ms;
  next_room_id = 1;
  next_player_id = 1;
  match_broadcast_counter = 0;
  rooms = [];
  peer_index = [];
}

unfoldable pub lookup : List ℕ → List (List ℕ × PlayerBinding) → Option PlayerBinding
lookup key [] = none
lookup key ((k, b) ∷ rest) = if bytes_eq k key then some b else lookup key rest

-- `peer_index_.erase(key)`.
unfoldable pub unbind : List ℕ → List (List ℕ × PlayerBinding) → List (List ℕ × PlayerBinding)
unbind key [] = []
unbind key ((k, b) ∷ rest) =
    let others = unbind key rest in if bytes_eq k key then others else (k, b) ∷ others

-- `peer_index_[key] = binding`.
unfoldable pub bind :
    List ℕ → PlayerBinding → List (List ℕ × PlayerBinding) → List (List ℕ × PlayerBinding)
unfolding unbind
bind key b index = (key, b) ∷ unbind key index

unfoldable pub find_room : ℕ → List GameRoom → Option GameRoom
find_room id [] = none
find_room id (r ∷ rs) = if r.room_id == id then some r else find_room id rs

-- Writes through the pointer that `find_room` returns.
unfoldable pub modify_room : ℕ → (GameRoom → GameRoom) → List GameRoom → List GameRoom
modify_room id f [] = []
modify_room id f (r ∷ rs) = if r.room_id == id then f r ∷ rs else r ∷ modify_room id f rs

abbrev pub in_room : ℕ → (GameRoom → GameRoom) → GameRoomManager → GameRoomManager
in_room id f m = record m { rooms = modify_room id f m.rooms }

-- `player->peer = peer`, in the room and for the player of a binding, if both are there.
pub refresh_peer : PlayerBinding → Peer → GameRoomManager → GameRoomManager
refresh_peer b peer m =
    in_room b.room_id
      (λ r. record r { players = modify b.player_id (λ p. record p { peer = peer }) r.players }) m

-- `constexpr uint32_t kSingleRoomId = 1`: all play in one room, which the first join opens.
abbrev pub open_room : GameRoomManager → GameRoomManager
open_room m = elim (find_room 1 m.rooms) [
  | some room ↦ m
  | none ↦ record m { rooms = m.rooms ++ (new_room 1 m.tick_interval_ms ∷ []); next_room_id = 2 }
]

abbrev pub refused : JoinResult
refused = record { room_id = 0; player_id = 0; ok = false }

-- A new player in the open room.
module _ (inet_ntop : ℕ → List ℕ) where
  unfoldable pub peer_key : Peer → List ℕ
  peer_key peer = inet_ntop peer.address ++ (codes ":" ++ to_string peer.port)

  unfoldable pub find_binding : GameRoomManager → Peer → Option PlayerBinding
  find_binding m peer = lookup (peer_key peer) m.peer_index

  pub leave_by_peer : GameRoomManager → Peer → GameRoomManager
  unfolding find_binding
  leave_by_peer m peer = elim (find_binding m peer) [
    | none ↦ m
    | some b ↦ record m {
      rooms = modify_room b.room_id (λ r. (remove_player r b.player_id).0) m.rooms;
      peer_index = unbind (peer_key peer) m.peer_index;
    }
  ]

  -- A player that is found by the header's ids moves to the address that the packet came from.
  pub rebind : GameRoomManager → Peer → PlayerBinding → GamePlayer → GameRoomManager
  rebind m peer b p = record (refresh_peer b peer m) {
    peer_index = bind (peer_key peer) b (unbind (peer_key p.peer) m.peer_index);
  }

  unfoldable pub resolve_by_header :
      GameRoomManager → Peer → PlayerBinding → GameRoomManager × Option PlayerBinding
  unfolding rebind
  resolve_by_header m peer b =
      if b.room_id == 0 || b.player_id == 0 then (m, none) else elim (find_room b.room_id m.rooms) [
        | none ↦ (m, none)
        | some room ↦ elim (find_player b.player_id room.players) [
          | none ↦ (m, none)
          | some p ↦ (rebind m peer b p, some b)
        ]
      ]

  unfoldable pub resolve_and_refresh_peer :
      GameRoomManager → Peer → GamePacket → GameRoomManager × Option PlayerBinding
  unfolding find_binding
  resolve_and_refresh_peer m peer packet = elim (find_binding m peer) [
    | some b ↦ (refresh_peer b peer m, some b)
    | none ↦
        resolve_by_header m peer
          (record { room_id = packet.header.room_id; player_id = packet.header.player_id })
  ]

  unfoldable pub enter : Float32 → GameRoomManager → Peer → GameRoomManager × JoinResult
  enter F m peer =
      let id : ℕ = m.next_player_id in
      let numbered : GameRoomManager = record m { next_player_id = (id + 1) % 2 ^ 32 } in
      elim (find_room 1 m.rooms) [
        | none ↦ (m, refused)
        | some room ↦
            let (entered, given) = add_player F room peer id in
            let seated : GameRoomManager = in_room 1 (λ r. entered) numbered in
            if given == 0 then (seated, refused) else (
              record seated {
                peer_index =
                    bind (peer_key peer) (record { room_id = 1; player_id = id }) m.peer_index;
              },
              record { room_id = 1; player_id = id; ok = true },
            )
      ]

  unfoldable pub join : Float32 → GameRoomManager → Peer → GameRoomManager × JoinResult
  unfolding find_binding enter
  join F m peer = elim (find_binding m peer) [
    | some b ↦ (m, record { room_id = b.room_id; player_id = b.player_id; ok = true })
    | none ↦ enter F (open_room m) peer
  ]
