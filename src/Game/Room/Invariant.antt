-- ===== src/Game/Room/Invariant.antt =====
-- game/room.cpp: what holds of every room that the functions of `GameRoom` can bring about.
use lightnet.Common.{
  ltb, leb, ◌==◌, ltb→ge, ==→ne, Bool-cases, Option-cases, length, All, ℕ, ◌≡◌, sym, subst, ◌≢◌,
  inl, inr, not, ◌||◌, Option, none, some, List, map, arith,
}
use lightnet.Game.Packet.{GameInputPayload, GameFirePayload}
use lightnet.Game.Player.{
  fire_damage, spawn, norm, take_input, rise, wound, score, profiled, Float32, Peer, GamePlayer,
}
use lightnet.Game.Player.Sound.{
  wound-Keeps, score-Keeps, profiled-Keeps, weapon-Keeps, take_input-Keeps, walk-Keeps,
  cool_down-Keeps, rise-Keeps, spawn-IsSound, spawn-id, IsSound, Keeps,
}
use lightnet.Game.Room.{
  GameRoom, is_some, hit, shoot, new_room, find_player, modify, remove, remove_player, apply_weapon,
  apply_profile, add_player, apply_input, apply_fire, apply_respawn, run_clock, tick,
}
use lightnet.Game.Room.Players.{
  ids, IsDistinct, ids-map, ids-modify, modify-All, map-All, remove-All, remove-IsDistinct,
  All-snoc, snoc-IsDistinct, find_player_missing,
}

pub record IsRoom (players : List GamePlayer) : Type 0 where
  pub sound : All IsSound players
  pub distinct : IsDistinct (ids players)

modify-IsRoom :
    (id : ℕ) (f : GamePlayer → GamePlayer) (ps : List GamePlayer)
    → Keeps f
    → IsRoom ps
    → IsRoom (modify id f ps)
modify-IsRoom id f ps k r = record {
  sound = modify-All IsSound id f ps (λ p _ s. k.keeps_sound p s) r.sound;
  distinct = subst IsDistinct (sym (ids-modify id f ps k.keeps_id)) r.distinct;
}

map-IsRoom :
    (f : GamePlayer → GamePlayer) (ps : List GamePlayer) → Keeps f → IsRoom ps → IsRoom (map f ps)
map-IsRoom f ps k r = record {
  sound = map-All IsSound f ps k.keeps_sound r.sound;
  distinct = subst IsDistinct (sym (ids-map f ps k.keeps_id)) r.distinct;
}

remove-IsRoom : (id : ℕ) (ps : List GamePlayer) → IsRoom ps → IsRoom (remove id ps)
remove-IsRoom id ps r = record {
  sound = remove-All IsSound id ps r.sound;
  distinct = remove-IsDistinct id ps r.distinct;
}

weapon-IsRoom :
    (room : GameRoom) (id w : ℕ) → IsRoom room.players → IsRoom (apply_weapon room id w).players
unfolding apply_weapon
weapon-IsRoom room id w r = elim (Option-cases (find_player id room.players)) [
  | inl absent ↦ rw (absent, apply_weapon) r
  | inr (p, found) ↦ elim (Bool-cases (not p.alive)) [
    | inl dead ↦ rw (found, apply_weapon, dead) r
    | inr lives ↦ elim (Bool-cases (ltb 5 w)) [
      | inl high ↦ rw (found, apply_weapon, lives, high) r
      | inr low ↦
          rw (found, apply_weapon, lives, low)
            (modify-IsRoom id _ room.players (weapon-Keeps w (ltb→ge _ _ low)) r)
    ]
  ]
]

profile-IsRoom :
    (room : GameRoom) (id : ℕ) (name : List ℕ)
    → IsRoom room.players
    → IsRoom (apply_profile room id name).players
unfolding apply_profile
profile-IsRoom room id name r = elim (Option-cases (find_player id room.players)) [
  | inl absent ↦ rw (absent, apply_profile) r
  | inr (p, found) ↦
      rw (found, apply_profile)
        (modify-IsRoom id (profiled name) room.players (profiled-Keeps name) r)
]

hit-IsRoom :
    (room : GameRoom) (shooter_id : ℕ) (t : GamePlayer)
    → IsRoom room.players
    → IsRoom (hit room shooter_id t).room.players
unfolding hit
hit-IsRoom room shooter_id t r =
    let after = modify-IsRoom t.player_id wound room.players wound-Keeps r in
    elim (Bool-cases (leb t.hp fire_damage)) [
      | inl dies ↦ rw dies (modify-IsRoom shooter_id score _ score-Keeps after)
      | inr lives ↦ rw lives after
    ]

module _ (F : Float32) where
  input-IsRoom :
      (room : GameRoom) (id : ℕ) (i : GameInputPayload)
      → IsRoom room.players
      → IsRoom (apply_input F room id i).players
  unfolding apply_input
  input-IsRoom room id i r = elim (Option-cases (find_player id room.players)) [
    | inl absent ↦ rw (absent, apply_input) r
    | inr (p, found) ↦ elim (Bool-cases (not p.alive || room.match_over)) [
      | inl out ↦ rw (found, apply_input, out) r
      | inr plays ↦ elim (Bool-cases (leb i.input_seq p.last_input_seq)) [
        | inl stale ↦ rw (found, apply_input, plays, stale) r
        | inr fresh ↦
            rw (found, apply_input, plays, fresh)
              (modify-IsRoom id (take_input F i) room.players (take_input-Keeps F i) r)
      ]
    ]
  ]

  respawn-IsRoom :
      (room : GameRoom) (id : ℕ) → IsRoom room.players → IsRoom (apply_respawn F room id).players
  unfolding apply_respawn
  respawn-IsRoom room id r = elim (Option-cases (find_player id room.players)) [
    | inl absent ↦ rw (absent, apply_respawn) r
    | inr (p, found) ↦ elim (Bool-cases (p.alive || room.match_over)) [
      | inl out ↦ rw (found, apply_respawn, out) r
      | inr dead ↦ elim (Bool-cases (F.below 0 p.respawn_timer)) [
        | inl early ↦ rw (found, apply_respawn, dead, early) r
        | inr ready ↦
            rw (found, apply_respawn, dead, ready)
              (modify-IsRoom id (rise F id) room.players (rise-Keeps F id) r)
      ]
    ]
  ]

  shoot-IsRoom :
      (room : GameRoom) (id : ℕ) (best : Option GamePlayer)
      → IsRoom room.players
      → IsRoom (shoot room id best).room.players
  unfolding shoot
  shoot-IsRoom room id none r = r
  shoot-IsRoom room id (some t) r = hit-IsRoom room id t r

  fire-IsRoom :
      (room : GameRoom) (id : ℕ) (f : GameFirePayload)
      → IsRoom room.players
      → IsRoom (apply_fire F room id f).room.players
  unfolding apply_fire
  fire-IsRoom room id f r = elim (Bool-cases room.match_over) [
    | inl over ↦ simp over r
    | inr on ↦ elim (Option-cases (find_player id room.players)) [
      | inl absent ↦ simp (on, absent, apply_fire) r
      | inr (s, found) ↦ elim (Bool-cases (not s.alive)) [
        | inl dead ↦ simp (on, found, apply_fire, dead) r
        | inr lives ↦ elim (Bool-cases (F.below (norm F f.dir_x f.dir_y f.dir_z) 0x38d1b717)) [
          | inl short ↦ simp (on, found, apply_fire, lives, short) r
          | inr long ↦ simp (on, found, apply_fire, lives, long) (shoot-IsRoom room id _ r)
        ]
      ]
    ]
  ]

  join-IsRoom :
      (room : GameRoom) (peer : Peer) (id : ℕ)
      → IsRoom room.players
      → IsRoom (add_player F room peer id).0.players
  unfolding add_player is_some
  join-IsRoom room peer id r = elim (Bool-cases (id == 0)) [
    | inl nobody ↦ rw nobody r
    | inr named ↦ elim (Option-cases (find_player id room.players)) [
      | inr (p, taken) ↦ rw (named, taken) r
      | inl free ↦
          rw (named, free)
            (record {
              sound =
                  All-snoc IsSound room.players _ r.sound
                    (spawn-IsSound F peer id (length room.players) (==→ne _ _ named));
              distinct =
                  let p : GamePlayer = spawn F peer id (length room.players) in
                  snoc-IsDistinct room.players p r.distinct (
                    subst (λ n. All (λ k. k ≢ n) (ids room.players))
                      (sym (spawn-id F peer id (length room.players)))
                      (find_player_missing id room.players free));
            })
    ]
  ]

  clock-players : (dt : ℕ) (room : GameRoom) → (run_clock F dt room).players ≡ room.players
  unfolding run_clock
  clock-players dt room = ground arith

  tick-IsRoom : (room : GameRoom) → IsRoom room.players → IsRoom (tick F room).0.players
  unfolding tick
  tick-IsRoom room r =
      map-IsRoom _ _ (walk-Keeps F _ _)
        (map-IsRoom _ _ (cool_down-Keeps F _) (subst IsRoom (sym (clock-players _ _)) r))

-- The calls that a server makes to a room.
pub data Call : Type 0 where
  joins : Peer → ℕ → Call
  leaves : ℕ → Call
  moves : ℕ → GameInputPayload → Call
  fires : ℕ → GameFirePayload → Call
  changes_weapon : ℕ → ℕ → Call
  renames : ℕ → List ℕ → Call
  respawns : ℕ → Call
  ticks : Call

module _ (F : Float32) where
  pub step : GameRoom → Call → GameRoom
  step room (joins peer id) = (add_player F room peer id).0
  step room (leaves id) = (remove_player room id).0
  step room (moves id i) = apply_input F room id i
  step room (fires id f) = (apply_fire F room id f).room
  step room (changes_weapon id w) = apply_weapon room id w
  step room (renames id name) = apply_profile room id name
  step room (respawns id) = apply_respawn F room id
  step room ticks = (tick F room).0

  -- The rooms that calls bring about, in any order.
  pub data Reachable (id interval : ℕ) : GameRoom → Type 0 where
    opens : Reachable id interval (new_room id interval)
    calls :
        (room : GameRoom) (c : Call)
        → Reachable id interval room
        → Reachable id interval (step room c)

  step-IsRoom : (room : GameRoom) (c : Call) → IsRoom room.players → IsRoom (step room c).players
  unfolding step remove_player
  step-IsRoom room (joins peer id) r = join-IsRoom F room peer id r
  step-IsRoom room (leaves id) r = remove-IsRoom id room.players r
  step-IsRoom room (moves id i) r = input-IsRoom F room id i r
  step-IsRoom room (fires id f) r = fire-IsRoom F room id f r
  step-IsRoom room (changes_weapon id w) r = weapon-IsRoom room id w r
  step-IsRoom room (renames id name) r = profile-IsRoom room id name r
  step-IsRoom room (respawns id) r = respawn-IsRoom F room id r
  step-IsRoom room ticks r = tick-IsRoom F room r

  -- Whatever calls a room has taken, its players have distinct ids other than 0, and each has at most
  -- 100 health points, one of the six weapons, and is alive exactly when health points are left.
  pub Reachable-IsRoom :
      (id interval : ℕ) (room : GameRoom) → Reachable id interval room → IsRoom room.players
  unfolding new_room
  Reachable-IsRoom id interval room opens = record { sound = tt; distinct = tt }
  Reachable-IsRoom id interval room (calls before c r) =
      step-IsRoom before c (Reachable-IsRoom id interval before r)
