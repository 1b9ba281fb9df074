-- ===== src/Game/Room/Nearest.antt =====
-- game/room.cpp: the search of `find_hit_target` for the nearest player.
use lightnet.Common.{
  ◌==◌, Bool-cases, Option-cases, eq_of_some, All, ℕ, ◌≡◌, refl, sym, ◌∙◌, subst, inl, inr, true,
  false, Option, none, some, List, [], ◌∷◌,
}
use lightnet.Game.Packet.{GameFirePayload}
use lightnet.Game.Player.{Float32, GamePlayer, max_hit_range}
use lightnet.Game.Room.{GameRoom, meets, better, find_hit_loop, find_hit_target}

-- `<` on floats is a strict order.
pub record IsOrder (F : Float32) : Type 0 where
  pub irreflexive : (a : ℕ) → F.below a a ≡ false
  pub transitive : (a b c : ℕ) → F.below a b ≡ true → F.below b c ≡ true → F.below a c ≡ true

module _ (F : Float32) (shooter_id : ℕ) (fire : GameFirePayload) where
  -- If `p` is another living player that the shot meets, it is not nearer than `d`.
  abbrev NotNearer : ℕ → GamePlayer → Type 0
  NotNearer d p =
      (p.player_id == shooter_id) ≡ false
      → p.alive ≡ true
      → (u : ℕ) → meets F fire p ≡ some u
      → F.below u d ≡ false

  abbrev pub IsNearest : List GamePlayer → Option GamePlayer → Type 0
  IsNearest players none = All (NotNearer max_hit_range) players
  IsNearest players (some t) =
      (d : ℕ) × (meets F fire t ≡ some d)
      × (F.below d max_hit_range ≡ true)
      × All (NotNearer d) players

  -- The best target and its distance belong together.
  abbrev Tied : Option GamePlayer × ℕ → Type 0
  Tied (none, d) = d ≡ max_hit_range
  Tied (some t, d) = (meets F fire t ≡ some d) × (F.below d max_hit_range ≡ true)

  abbrev Closer : ℕ → ℕ → Type 0
  Closer d d' = (u : ℕ) → F.below u d ≡ false → F.below u d' ≡ false

  near-Tied :
      (o : IsOrder F) (p : GamePlayer) (best : Option GamePlayer) (d t : ℕ)
      → Tied (best, d)
      → meets F fire p ≡ some t
      → F.below t d ≡ true
      → Tied (some p, t)
  near-Tied o p none d t tied met near = (met, subst (λ k. F.below t k ≡ true) tied near)
  near-Tied o p (some q) d t (_, inside) met near =
      (met, o.transitive t d max_hit_range near inside)

  near-Closer : (o : IsOrder F) (d t : ℕ) → F.below t d ≡ true → Closer d t
  near-Closer o d t near u far = elim (Bool-cases (F.below u t)) [
    | inr e ↦ e
    | inl e ↦ absurd (cc (sym far ∙ o.transitive u t d e near))
  ]

  abbrev Steps : GamePlayer → ℕ → Option GamePlayer × ℕ → Type 0
  Steps p d r = Tied r × Closer d r.1 × NotNearer r.1 p

  better_near :
      (p : GamePlayer) (best : Option GamePlayer) (d t : ℕ)
      → (p.player_id == shooter_id) ≡ false
      → p.alive ≡ true
      → meets F fire p ≡ some t
      → F.below t d ≡ true
      → better F shooter_id fire p (best, d) ≡ (some p, t)
  unfolding better
  better_near p best d t other lives met near = simp (other, lives, met, near, better) refl

  better-Steps :
      (o : IsOrder F) (p : GamePlayer) (best : Option GamePlayer) (d : ℕ)
      → Tied (best, d)
      → Steps p d (better F shooter_id fire p (best, d))
  unfolding better
  better-Steps o p best d tied = elim (Bool-cases (p.player_id == shooter_id)) [
    | inl self ↦ simp (self, better) (tied, (λ u h. h), λ other. absurd (cc other))
    | inr other ↦ elim (Bool-cases p.alive) [
      | inr dead ↦ simp (other, dead, better) (tied, (λ u h. h), λ _ lives. absurd (cc lives))
      | inl lives ↦ elim (Option-cases (meets F fire p)) [
        | inl past ↦
            simp (other, lives, past, better) (tied, (λ u h. h), λ _ _ u met. absurd (cc met))
        | inr (t, met) ↦ elim (Bool-cases (F.below t d)) [
          | inr far ↦
              simp (other, lives, met, far, better)
                (tied, (λ u h. h), λ _ _ u e. subst (λ k. F.below k d ≡ false) (eq_of_some e) far)
          | inl near ↦ subst (Steps p d) (sym (better_near p best d t other lives met near)) (
            near-Tied o p best d t tied met near,
            near-Closer o d t near,
            λ _ _ u e.
                subst (λ k. F.below k t ≡ false) (eq_of_some (sym met ∙ e)) (o.irreflexive t),
          )
        ]
      ]
    ]
  ]

  loop-IsNearest :
      (o : IsOrder F) (ps : List GamePlayer) (best : Option GamePlayer) (d : ℕ)
      → Tied (best, d)
      → Tied (find_hit_loop F shooter_id fire ps (best, d))
        × Closer d (find_hit_loop F shooter_id fire ps (best, d)).1
        × All (NotNearer (find_hit_loop F shooter_id fire ps (best, d)).1) ps
  unfolding find_hit_loop
  loop-IsNearest o [] best d tied = (tied, (λ u h. h), tt)
  loop-IsNearest o (p ∷ ps) best d tied =
      let (tied', closer, beaten) = better-Steps o p best d tied in
      let next : Option GamePlayer × ℕ = better F shooter_id fire p (best, d) in
      let (tied'', closer', rest) = loop-IsNearest o ps next.0 next.1 tied' in
      (
        tied'',
        (λ u h. closer' u (closer u h)),
        ((λ other lives u met. closer' u (beaten other lives u met)), rest),
      )

  Tied-IsNearest :
      (players : List GamePlayer) (r : Option GamePlayer × ℕ)
      → Tied r
      → All (NotNearer r.1) players
      → IsNearest players r.0
  Tied-IsNearest players (none, d) tied a = subst (λ k. All (NotNearer k) players) tied a
  Tied-IsNearest players (some t, d) (met, inside) a = (d, met, inside, a)

  -- Where `<` on floats is a strict order, the target is a player that the shot meets within range, and
  -- no other living player that it meets is nearer to the shooter along the aim; where there is no
  -- target, no other living player that the shot meets is within range.
  pub find_hit_target-IsNearest :
      (room : GameRoom)
      → IsOrder F
      → IsNearest room.players (find_hit_target F room shooter_id fire)
  unfolding find_hit_target
  find_hit_target-IsNearest room o =
      let (tied, _, beaten) = loop-IsNearest o room.players none max_hit_range refl in
      Tied-IsNearest room.players
        (find_hit_loop F shooter_id fire room.players (none, max_hit_range)) tied beaten
