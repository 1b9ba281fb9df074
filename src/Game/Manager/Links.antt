-- ===== src/Game/Manager/Links.antt =====
-- game/room_manager.cpp: each entry of the peer table and the player that it names.
use lightnet.Common.{
  ◌==◌, ==→eq, ==→ne, Bool-cases, bytes_eq, bytes_eq_refl, bytes_eq→eq, eq_of_some, All, ℕ, ◌≡◌,
  refl, sym, ap, ◌∙◌, subst, ◌≢◌, inl, inr, true, some, List, [], ◌∷◌,
}
use lightnet.Game.Player.{Peer, GamePlayer}
use lightnet.Game.Room.{GameRoom, find_player, modify}
use lightnet.Game.Room.Players.{find_player-modify, find_player-modify_other}
use lightnet.Game.Manager.{
  modify_room, lookup, unbind, find_room, refresh_peer, peer_key, PlayerBinding, GameRoomManager,
}
use lightnet.Game.Manager.Table.{find_room-modify_room, find_room-modify_room_other, find_room-id}

abbrev pub Entry : Type 0
Entry = List ℕ × PlayerBinding

pub All-map :
    (P Q : Entry → Type 0) (es : List Entry) → ((e : Entry) → P e → Q e) → All P es → All Q es
All-map P Q [] h a = tt
All-map P Q (e ∷ es) h (a, as') = (h e a, All-map P Q es h as')

-- What is left after `unbind` has another key.
pub All-unbind :
    (P Q : Entry → Type 0) (key : List ℕ) (es : List Entry)
    → ((e : Entry) → e.0 ≢ key → P e → Q e)
    → All P es
    → All Q (unbind key es)
unfolding unbind
All-unbind P Q key [] h a = tt
All-unbind P Q key ((k, b) ∷ es) h (a, as') = elim (Bool-cases (bytes_eq k key)) [
  | inl gone ↦ rw gone (All-unbind P Q key es h as')
  | inr stays ↦ rw stays (
    h (k, b) (λ e. cc (sym (subst (λ z. bytes_eq k z ≡ true) e (bytes_eq_refl k)) ∙ stays)) a,
    All-unbind P Q key es h as',
  )
]

pub lookup-All :
    (P : Entry → Type 0) (key : List ℕ) (es : List Entry) {b : PlayerBinding}
    → All P es
    → lookup key es ≡ some b
    → P (key, b)
unfolding lookup
lookup-All P key [] a e = absurd (cc e)
lookup-All P key ((k, c) ∷ es) {b} (a, as') e = elim (Bool-cases (bytes_eq k key)) [
  | inl here ↦
      subst (λ z. P (z, b)) (bytes_eq→eq k key here)
        (subst (λ z. P (k, z)) (eq_of_some (rw here at e)) a)
  | inr there ↦ lookup-All P key es as' (rw there at e)
]

module _ (inet_ntop : ℕ → List ℕ) where
  -- The entry names a room, a player in it, and the key of the player's address.
  pub record IsLinked (rooms : List GameRoom) (e : Entry) : Type 0 where
    pub room : GameRoom
    pub player : GamePlayer
    pub opened : find_room e.1.room_id rooms ≡ some room
    pub seated : find_player e.1.player_id room.players ≡ some player
    pub addressed : peer_key inet_ntop player.peer ≡ e.0

  abbrev pub IsTable : GameRoomManager → Type 0
  IsTable m = All (IsLinked m.rooms) m.peer_index

  -- The player `id` of a room is there afterwards, with an address of the same key.
  abbrev KeepsKey : ℕ → GameRoom → GameRoom → Type 0
  KeepsKey id r r' =
      (p : GamePlayer)
      → find_player id r.players ≡ some p
      → (p' : GamePlayer) × (find_player id r'.players ≡ some p')
        × (peer_key inet_ntop p'.peer ≡ peer_key inet_ntop p.peer)

  pub put-IsLinked :
      (rid : ℕ) (f : GameRoom → GameRoom) (rooms : List GameRoom) {r : GameRoom} (e : Entry)
      → find_room rid rooms ≡ some r
      → (f r).room_id ≡ rid
      → (e.1.room_id ≡ rid → KeepsKey e.1.player_id r (f r))
      → IsLinked rooms e
      → IsLinked (modify_room rid f rooms) e
  put-IsLinked rid f rooms {r} e found i keeps l = elim (Bool-cases (e.1.room_id == rid)) [
    | inl here ↦
        let at_rid : e.1.room_id ≡ rid = ==→eq _ _ here in
        let same : l.room ≡ r =
          eq_of_some (sym l.opened ∙ ap (λ k. find_room k rooms) at_rid ∙ found) in
        let (p', seat, key) =
          keeps at_rid l.player
            (subst (λ s. find_player e.1.player_id s.players ≡ some l.player) same l.seated) in
        record {
          room = f r;
          player = p';
          opened =
              ap (λ k. find_room k (modify_room rid f rooms)) at_rid
              ∙ find_room-modify_room rid f rooms found i;
          seated = seat;
          addressed = key ∙ l.addressed;
        }
    | inr there ↦ record {
      room = l.room;
      player = l.player;
      opened =
          find_room-modify_room_other e.1.room_id rid f rooms found i (==→ne _ _ there) ∙ l.opened;
      seated = l.seated;
      addressed = l.addressed;
    }
  ]

  -- Two entries that name one player have one key.
  pub same_seat :
      (rooms : List GameRoom) (e e' : Entry)
      → IsLinked rooms e
      → IsLinked rooms e'
      → e.1.room_id ≡ e'.1.room_id
      → e.1.player_id ≡ e'.1.player_id
      → e.0 ≡ e'.0
  same_seat rooms e e' l l' i j =
      let rooms_agree : l.room ≡ l'.room =
        eq_of_some (sym l.opened ∙ ap (λ k. find_room k rooms) i ∙ l'.opened) in
      let players_agree : l.player ≡ l'.player = eq_of_some (
        sym l.seated
        ∙ ap (λ k. find_player k l.room.players) j
        ∙ ap (λ (r : GameRoom). find_player e'.1.player_id r.players) rooms_agree
        ∙ l'.seated) in
      sym l.addressed
      ∙ ap (λ (p : GamePlayer). peer_key inet_ntop p.peer) players_agree
      ∙ l'.addressed

  -- The player that an entry names moves to another address: every other entry stays linked, and so
  -- does this one, if the new address has its key.
  pub move-IsLinked :
      (m : GameRoomManager) (peer : Peer) (key : List ℕ) (b : PlayerBinding) (e : Entry)
      → IsLinked m.rooms (key, b)
      → (e.0 ≡ key → key ≡ peer_key inet_ntop peer)
      → IsLinked m.rooms e
      → IsLinked (refresh_peer b peer m).rooms e
  unfolding refresh_peer
  move-IsLinked m peer key b e l same h =
      let set : GamePlayer → GamePlayer = λ p. record p { peer = peer } in
      put-IsLinked b.room_id (λ r. record r { players = modify b.player_id set r.players }) m.rooms
        e l.opened (find_room-id b.room_id m.rooms l.opened)
        (λ at_rid p seat. elim (Bool-cases (e.1.player_id == b.player_id)) [
          | inr other ↦ (
            p,
            find_player-modify_other e.1.player_id b.player_id set l.room.players (λ p. refl)
                  (==→ne _ _ other)
                ∙ seat,
            refl,
          )
          | inl this ↦
              let at_pid : e.1.player_id ≡ b.player_id = ==→eq _ _ this in
              let e_key : e.0 ≡ key = same_seat m.rooms e (key, b) h l at_rid at_pid in
              let found : find_player b.player_id l.room.players ≡ some p =
                ap (λ k. find_player k l.room.players) (sym at_pid) ∙ seat in
              let agree : p ≡ l.player = eq_of_some (sym found ∙ l.seated) in
              (
                set p,
                ap (λ k. find_player k (modify b.player_id set l.room.players)) at_pid
                    ∙ find_player-modify b.player_id set l.room.players (λ p. refl) found,
                sym (same e_key)
                    ∙ sym l.addressed
                    ∙ ap (λ (q : GamePlayer). peer_key inet_ntop q.peer) (sym agree),
              )
        ])
        h
