-- ===== src/Game/Manager/Table.antt =====
-- game/room_manager.cpp: the peer table and the players that it names.
use lightnet.Common.{
  ◌==◌, ==→eq, eq→==, Bool-cases, Option-cases, eq_of_some, length, ℕ, ◌≡◌, refl, sym, ap, ◌∙◌,
  subst, ◌≢◌, inl, inr, false, ◌||◌, none, some, List, [], ◌∷◌, ◌++◌, arith,
}
use lightnet.Game.Player.{Float32, Peer, GamePlayer, spawn}
use lightnet.Game.Player.Sound.{spawn-id}
use lightnet.Game.Room.{GameRoom, find_player, remove, add_player, is_some}
use lightnet.Game.Manager.{modify_room, find_room}

pub find_room-modify_room :
    (id : ℕ) (f : GameRoom → GameRoom) (rooms : List GameRoom) {r : GameRoom}
    → find_room id rooms ≡ some r
    → (f r).room_id ≡ id
    → find_room id (modify_room id f rooms) ≡ some (f r)
unfolding find_room modify_room
find_room-modify_room id f [] e k = cc
find_room-modify_room id f (q ∷ rooms) {r} e k = elim (Bool-cases (q.room_id == id)) [
  | inl here ↦
      let same : q ≡ r = eq_of_some (rw here at e) in
      rw here
        (subst (λ s. find_room id (f s ∷ rooms) ≡ some (f r)) (sym same) (rw (eq→== _ _ k) refl))
  | inr there ↦ rw (there, there) (find_room-modify_room id f rooms (rw there at e) k)
]

pub find_room-modify_room_other :
    (k id : ℕ) (f : GameRoom → GameRoom) (rooms : List GameRoom) {r : GameRoom}
    → find_room id rooms ≡ some r
    → (f r).room_id ≡ id
    → k ≢ id
    → find_room k (modify_room id f rooms) ≡ find_room k rooms
unfolding find_room modify_room
find_room-modify_room_other k id f [] e i ne = refl
find_room-modify_room_other k id f (q ∷ rooms) {r} e i ne = elim (Bool-cases (q.room_id == id)) [
  | inl here ↦
      let same : q ≡ r = eq_of_some (rw here at e) in
      let i' : (f q).room_id ≡ id = ap (λ s. (f s).room_id) same ∙ i in
      ground (arith, i', ==→eq q.room_id id here)
  | inr there ↦ rw (there, find_room-modify_room_other k id f rooms (rw there at e) i ne) refl
]

pub find_room-append :
    (id : ℕ) (rooms more : List GameRoom) {r : GameRoom}
    → find_room id rooms ≡ some r
    → find_room id (rooms ++ more) ≡ some r
unfolding find_room
find_room-append id [] more e = cc
find_room-append id (q ∷ rooms) more e = elim (Bool-cases (q.room_id == id)) [
  | inl here ↦ rw here (rw here at e)
  | inr there ↦ rw there (find_room-append id rooms more (rw there at e))
]

find_player-append :
    (id : ℕ) (ps more : List GamePlayer) {p : GamePlayer}
    → find_player id ps ≡ some p
    → find_player id (ps ++ more) ≡ some p
unfolding find_player
find_player-append id [] more e = cc
find_player-append id (q ∷ ps) more e = elim (Bool-cases (q.player_id == id)) [
  | inl here ↦ rw here (rw here at e)
  | inr there ↦ rw there (find_player-append id ps more (rw there at e))
]

find_player-snoc :
    (id : ℕ) (ps : List GamePlayer) (p : GamePlayer)
    → find_player id ps ≡ none
    → p.player_id ≡ id
    → find_player id (ps ++ (p ∷ [])) ≡ some p
unfolding find_player
find_player-snoc id [] p e i = rw (eq→== _ _ i) refl
find_player-snoc id (q ∷ ps) p e i = elim (Bool-cases (q.player_id == id)) [
  | inl here ↦ absurd (cc (rw here at e))
  | inr there ↦ rw there (find_player-snoc id ps p (rw there at e) i)
]

pub find_player-remove :
    (k id : ℕ) (ps : List GamePlayer) → k ≢ id → find_player k (remove id ps) ≡ find_player k ps
unfolding find_player remove
find_player-remove k id [] ne = refl
find_player-remove k id (q ∷ ps) ne = elim (Bool-cases (q.player_id == id)) [
  | inl here ↦ ground (arith, ==→eq q.player_id id here)
  | inr there ↦ rw (there, find_player-remove k id ps ne) refl
]

pub find_room-id :
    (id : ℕ) (rooms : List GameRoom) {r : GameRoom} → find_room id rooms ≡ some r → r.room_id ≡ id
unfolding find_room
find_room-id id [] e = cc
find_room-id id (q ∷ rooms) e = elim (Bool-cases (q.room_id == id)) [
  | inl here ↦ ap (λ a. a.room_id) (sym (eq_of_some (rw here at e))) ∙ ==→eq _ _ here
  | inr there ↦ find_room-id id rooms (rw there at e)
]

module _ (F : Float32) where
  pub add_player-room_id :
      (room : GameRoom) (peer : Peer) (id : ℕ)
      → (add_player F room peer id).0.room_id ≡ room.room_id
  unfolding add_player
  add_player-room_id room peer id = ground arith

  pub add_player_keeps :
      (room : GameRoom) (peer : Peer) (id k : ℕ) {p : GamePlayer}
      → find_player k room.players ≡ some p
      → find_player k (add_player F room peer id).0.players ≡ some p
  unfolding add_player
  add_player_keeps room peer id k found =
      elim (Bool-cases (id == 0 || is_some (find_player id room.players))) [
        | inl full ↦ rw full found
        | inr free ↦ rw free (find_player-append k room.players _ found)
      ]

  pub add_player_seats :
      (room : GameRoom) (peer : Peer) (id : ℕ)
      → ((add_player F room peer id).1 == 0) ≡ false
      → find_player id (add_player F room peer id).0.players
        ≡ some (spawn F peer id (length room.players))
  unfolding add_player is_some
  add_player_seats room peer id given = elim (Bool-cases (id == 0)) [
    | inl nobody ↦ absurd (cc (rw (nobody, add_player) at given))
    | inr named ↦ elim (Option-cases (find_player id room.players)) [
      | inr (q, taken) ↦ absurd (cc (rw (named, taken, add_player) at given))
      | inl free ↦
          rw (named, free, add_player)
            (find_player-snoc id room.players (spawn F peer id (length room.players)) free
              (spawn-id F peer id (length room.players)))
    ]
  ]

  pub spawn-peer : (peer : Peer) (id n : ℕ) → (spawn F peer id n).peer ≡ peer
  unfolding spawn
  spawn-peer peer id n = refl
