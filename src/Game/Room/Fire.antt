-- ===== src/Game/Room/Fire.antt =====
-- game/room.cpp: whom a shot meets, and what it does.
use lightnet.Common.{
  ltb, leb→le, leb→gt, lt→ltb, le→ltb, Bool, false, ◌≤◌, ◌+◌, ◌%◌, ap, arith, leb, ◌==◌,
  if◌then◌else◌, ==→ne, Bool-cases, Option-cases, All, ℕ, ◌-◌, ◌≡◌, refl, sym, ◌∙◌, subst, ◌≢◌, ◌⊎◌,
  inl, inr, true, Option, none, some, List, [], ◌∷◌,
}
use lightnet.Game.Packet.{GameFirePayload}
use lightnet.Game.Player.{max_hit_range, fire_damage, norm, wound, score, Float32, GamePlayer}
use lightnet.Game.Player.Sound.{wound-hp, wound-Keeps, score-Keeps}
use lightnet.Game.Room.{
  GameRoom, Shot, missed, hit, shoot, find_player, modify, meets, better, find_hit_loop,
  find_hit_target, validated, apply_fire,
}
use lightnet.Game.Room.Players.{
  ids, IsDistinct, find_player-id, find_player-modify, find_player-modify_other, IsDistinct-found,
}

-- A target for the shooter: another player of the room, alive.
pub record IsTarget (players : List GamePlayer) (shooter_id : ℕ) (t : GamePlayer) : Type 0 where
  pub present : find_player t.player_id players ≡ some t
  pub lives : t.alive ≡ true
  pub other : t.player_id ≢ shooter_id

abbrev Best : List GamePlayer → ℕ → Option GamePlayer → Type 0
Best players shooter_id none = Unit {0}
Best players shooter_id (some t) = IsTarget players shooter_id t

-- A target behind a hit: it has lost 25 health points, or all of them, and is alive if more than 25
-- were there; if not, it waits 5 seconds, a float, for its respawn and counts a death more.
abbrev pub struck : GamePlayer → GamePlayer
struck t = record t {
  hp = t.hp - 25;
  alive = ltb 25 t.hp;
  respawn_timer = if ltb 25 t.hp then t.respawn_timer else 0x40a00000;
  deaths = if ltb 25 t.hp then t.deaths else (t.deaths + 1) % 65536;
}

-- A shooter behind a hit of a target with the given health points.
abbrev pub credited : ℕ → GamePlayer → GamePlayer
credited hp s = record s { kills = if ltb 25 hp then s.kills else (s.kills + 1) % 65536 }

wound-struck : (t : GamePlayer) → t.alive ≡ true → wound t ≡ struck t
unfolding wound
wound-struck t lives = elim (Bool-cases (leb t.hp 25)) [
  | inl dies ↦
      let out : ltb 25 t.hp ≡ false = le→ltb _ _ (leb→le _ _ dies) in
      rw (dies, out)
        (ap
          (λ (n : ℕ). record t {
            hp = n;
            alive = false;
            respawn_timer = 0x40a00000;
            deaths = (t.deaths + 1) % 65536;
          })
          (sym (zero_left t.hp (leb→le _ _ dies))))
  | inr stays ↦
      let up : ltb 25 t.hp ≡ true = lt→ltb _ _ (leb→gt _ _ stays) in
      rw (stays, up) (ap (λ (a : Bool). record t { hp = t.hp - 25; alive = a }) lives)
]
  where
    zero_left : (n : ℕ) → n ≤ 25 → n - 25 ≡ 0
    zero_left n h = omega arith

score-credited : (hp : ℕ) (s : GamePlayer) → leb hp 25 ≡ true → score s ≡ credited hp s
unfolding score
score-credited hp s dies = let out : ltb 25 hp ≡ false = le→ltb _ _ (leb→le _ _ dies) in rw out refl

not-credited : (hp : ℕ) (s : GamePlayer) → leb hp 25 ≡ false → s ≡ credited hp s
not-credited hp s lives = let up : ltb 25 hp ≡ true = lt→ltb _ _ (leb→gt _ _ lives) in rw up refl

-- What a shot that hits does: the shooter was alive and the target a target; in the room behind it
-- the target is struck, the shooter has one kill more exactly if the target is dead, no other player
-- has changed, and neither has anything else of the room.
pub record IsHit (room : GameRoom) (shooter_id : ℕ) (shot : Shot) : Type 0 where
  pub shooter : GamePlayer
  pub target : GamePlayer
  pub aims : find_player shooter_id room.players ≡ some shooter
  pub stands : shooter.alive ≡ true
  pub aimed : IsTarget room.players shooter_id target
  pub named : shot.target_id ≡ target.player_id
  pub left : shot.hp ≡ target.hp - 25
  pub dies : shot.killed ≡ leb target.hp 25
  pub after : find_player target.player_id shot.room.players ≡ some (struck target)
  pub scored : find_player shooter_id shot.room.players ≡ some (credited target.hp shooter)
  pub others :
      (id : ℕ)
      → id ≢ shooter_id
      → id ≢ target.player_id
      → find_player id shot.room.players ≡ find_player id room.players
  pub rest : shot.room ≡ record room { players = shot.room.players }

hit-IsHit :
    (room : GameRoom) (shooter_id : ℕ) (s t : GamePlayer)
    → find_player shooter_id room.players ≡ some s
    → s.alive ≡ true
    → IsTarget room.players shooter_id t
    → IsHit room shooter_id (hit room shooter_id t)
unfolding hit
hit-IsHit room shooter_id s t found alive aim =
    let W = wound-Keeps.keeps_id in
    let S = score-Keeps.keeps_id in
    let after = modify t.player_id wound room.players in
    let wounded = find_player-modify t.player_id wound room.players W aim.present in
    let down = wounded ∙ ap some (wound-struck t aim.lives) in
    let still =
      find_player-modify_other shooter_id t.player_id wound room.players W (λ e. aim.other (sym e))
      ∙ found in
    elim (Bool-cases (leb t.hp fire_damage)) [
      | inl kills ↦ rw kills (record {
        shooter = s;
        target = t;
        aims = found;
        stands = alive;
        aimed = aim;
        named = refl;
        left = wound-hp t;
        dies = sym kills;
        after = find_player-modify_other t.player_id shooter_id score after S aim.other ∙ down;
        scored =
            find_player-modify shooter_id score after S still
            ∙ ap some (score-credited t.hp s kills);
        others = λ id ns nt.
            find_player-modify_other id shooter_id score after S ns
            ∙ find_player-modify_other id t.player_id wound room.players W nt;
        rest = refl;
      })
      | inr lives ↦ rw lives (record {
        shooter = s;
        target = t;
        aims = found;
        stands = alive;
        aimed = aim;
        named = refl;
        left = wound-hp t;
        dies = sym lives;
        after = down;
        scored = still ∙ ap some (not-credited t.hp s lives);
        others = λ id ns nt. find_player-modify_other id t.player_id wound room.players W nt;
        rest = refl;
      })
    ]

module _ (F : Float32) where
  better-Best :
      (players : List GamePlayer) (shooter_id : ℕ) (fire : GameFirePayload) (p : GamePlayer)
      (best : Option GamePlayer) (best_t : ℕ)
      → find_player p.player_id players ≡ some p
      → Best players shooter_id best
      → Best players shooter_id (better F shooter_id fire p (best, best_t)).0
  unfolding better
  better-Best players shooter_id fire p best best_t found h =
      elim (Bool-cases (p.player_id == shooter_id)) [
        | inl self ↦ simp self h
        | inr other ↦ elim (Bool-cases p.alive) [
          | inr dead ↦ simp (other, dead) h
          | inl lives ↦ elim (Option-cases (meets F fire p)) [
            | inl past ↦ simp (other, lives, past, better) h
            | inr (t, met) ↦ elim (Bool-cases (F.below t best_t)) [
              | inr far ↦ simp (other, lives, met, far, better) h
              | inl near ↦
                  simp (other, lives, met, near, better)
                    (record { present = found; lives = lives; other = ==→ne _ _ other })
            ]
          ]
        ]
      ]

  loop-Best :
      (players : List GamePlayer) (shooter_id : ℕ) (fire : GameFirePayload) (ps : List GamePlayer)
      (best : Option GamePlayer) (best_t : ℕ)
      → All (λ p. find_player p.player_id players ≡ some p) ps
      → Best players shooter_id best
      → Best players shooter_id (find_hit_loop F shooter_id fire ps (best, best_t)).0
  unfolding find_hit_loop
  loop-Best players shooter_id fire [] best best_t a h = h
  loop-Best players shooter_id fire (p ∷ ps) best best_t (a, as') h =
      loop-Best players shooter_id fire ps _ _ as'
        (better-Best players shooter_id fire p best best_t a h)

  find_hit_target-Best :
      (room : GameRoom) (shooter_id : ℕ) (fire : GameFirePayload)
      → IsDistinct (ids room.players)
      → Best room.players shooter_id (find_hit_target F room shooter_id fire)
  unfolding find_hit_target
  find_hit_target-Best room shooter_id fire d =
      loop-Best room.players shooter_id fire room.players none max_hit_range
        (IsDistinct-found room.players d) tt

  shoot_lem :
      (room : GameRoom) (shooter_id : ℕ) (s : GamePlayer) (best : Option GamePlayer)
      → find_player shooter_id room.players ≡ some s
      → s.alive ≡ true
      → Best room.players shooter_id best
      → (shoot room shooter_id best ≡ missed room)
        ⊎ IsHit room shooter_id (shoot room shooter_id best)
  unfolding shoot
  shoot_lem room shooter_id s none found alive h = inl refl
  shoot_lem room shooter_id s (some t) found alive h =
      inr (hit-IsHit room shooter_id s t found alive h)

  -- In a room whose players have distinct ids, a shot either misses and changes nothing, or hits: its
  -- shooter and its target are then two players of the room that were alive; behind the shot the target
  -- has lost 25 health points, or, if it had no more, all of them and its life, and it then waits 5
  -- seconds for its respawn and has one death more; the shooter has one kill more exactly if the target
  -- has died; and nothing else of the room has changed.
  pub apply_fire-IsHit :
      (room : GameRoom) (shooter_id : ℕ) (fire : GameFirePayload)
      → IsDistinct (ids room.players)
      → (apply_fire F room shooter_id fire ≡ missed room)
        ⊎ IsHit room shooter_id (apply_fire F room shooter_id fire)
  unfolding apply_fire
  apply_fire-IsHit room shooter_id fire d = elim (Bool-cases room.match_over) [
    | inl over ↦ inl (simp over refl)
    | inr on ↦ elim (Option-cases (find_player shooter_id room.players)) [
      | inl absent ↦ inl (simp (on, absent, apply_fire) refl)
      | inr (s, found) ↦ elim (Bool-cases s.alive) [
        | inr dead ↦ inl (simp (on, found, apply_fire, dead) refl)
        | inl lives ↦
            elim (Bool-cases (F.below (norm F fire.dir_x fire.dir_y fire.dir_z) 0x38d1b717)) [
              | inl short ↦ inl (simp (on, found, apply_fire, lives, short) refl)
              | inr long ↦
                  simp (on, found, apply_fire, lives, long)
                    (shoot_lem room shooter_id s _ found lives (
                      subst
                        (λ k. Best room.players k (
                          find_hit_target F room s.player_id
                            (validated F s fire (norm F fire.dir_x fire.dir_y fire.dir_z))))
                        (find_player-id shooter_id room.players found)
                        (find_hit_target-Best room s.player_id _ d)))
            ]
      ]
    ]
  ]
