-- ===== src/Game/Player/Sound.antt =====
-- game/room.cpp: what the writes to one player leave true of it.
use lightnet.Common.{
  ltb, leb, lt→ltb, leb→gt, Bool-cases, ℕ, ◌-◌, ◌≤◌, ◌<◌, ◌≡◌, refl, sym, ap, ◌∙◌, ◌≢◌, inl, inr,
  Bool, List, arith,
}
use lightnet.Game.Packet.{GameInputPayload}
use lightnet.Game.Player.{
  fire_damage, spawn, take_position, take_input, walk, cool_down, rise, wound, score, profiled,
  Float32, Peer, GamePlayer,
}

-- A player has an id other than 0, at most 100 health points, one of the six weapons, and is alive
-- exactly when health points are left.
pub record IsSound (p : GamePlayer) : Type 0 where
  pub named : 0 < p.player_id
  pub healthy : p.hp ≤ 100
  pub standing : p.alive ≡ ltb 0 p.hp
  pub armed : p.weapon_id ≤ 5

-- Writes that leave the player's id alone.
abbrev pub KeepsId : (GamePlayer → GamePlayer) → Type 0
KeepsId f = (p : GamePlayer) → (f p).player_id ≡ p.player_id

-- A write that keeps the id and the soundness of a player.
pub record Keeps (f : GamePlayer → GamePlayer) : Type 0 where
  pub keeps_id : KeepsId f
  pub keeps_sound : (p : GamePlayer) → IsSound p → IsSound (f p)

-- Writes that leave id, health, life and weapon alone.
same-IsSound :
    (p q : GamePlayer)
    → q.player_id ≡ p.player_id
    → q.hp ≡ p.hp
    → q.alive ≡ p.alive
    → q.weapon_id ≡ p.weapon_id
    → IsSound p
    → IsSound q
same-IsSound p q i h a w s = record {
  named = omega (arith, s.named);
  healthy = omega (arith, s.healthy);
  standing = a ∙ s.standing ∙ ap (ltb 0) (sym h);
  armed = omega (arith, s.armed);
}

pub wound-Keeps : Keeps wound
unfolding wound
wound-Keeps = record {
  keeps_id = λ p. ground arith;
  keeps_sound = λ p s. elim (Bool-cases (leb p.hp fire_damage)) [
    | inl dies ↦
        rw dies
          (record { named = s.named; healthy = omega arith; standing = refl; armed = s.armed })
    | inr lives ↦ rw lives (record {
      named = s.named;
      healthy = omega (arith, s.healthy);
      standing =
          s.standing
          ∙ lt→ltb _ _ (omega (arith, leb→gt _ _ lives))
          ∙ sym (lt→ltb _ _ (omega (arith, leb→gt _ _ lives)));
      armed = s.armed;
    })
  ];
}

pub wound-hp : (t : GamePlayer) → (wound t).hp ≡ t.hp - 25
unfolding wound
wound-hp t = ground arith

pub score-Keeps : Keeps score
unfolding score
score-Keeps = record {
  keeps_id = λ p. refl;
  keeps_sound = λ p s. same-IsSound p (score p) refl refl refl refl s;
}

pub profiled-Keeps : (name : List ℕ) → Keeps (profiled name)
unfolding profiled
profiled-Keeps name = record {
  keeps_id = λ p. refl;
  keeps_sound = λ p s. same-IsSound p (profiled name p) refl refl refl refl s;
}

pub weapon-Keeps : (w : ℕ) → w ≤ 5 → Keeps (λ p. record p { weapon_id = w })
weapon-Keeps w h = record {
  keeps_id = λ p. refl;
  keeps_sound =
      λ p s. record { named = s.named; healthy = s.healthy; standing = s.standing; armed = h };
}

module _ (F : Float32) where
  pub take_input-Keeps : (i : GameInputPayload) → Keeps (take_input F i)
  unfolding take_input take_position
  take_input-Keeps i = record {
    keeps_id = λ p. ground arith;
    keeps_sound = λ p s.
        same-IsSound p (take_input F i p) (ground arith) (ground arith) (ground arith)
          (ground arith) s;
  }

  pub take_input-seq :
      (i : GameInputPayload) (p : GamePlayer) → (take_input F i p).last_input_seq ≡ i.input_seq
  unfolding take_input take_position
  take_input-seq i p = ground arith

  take_input-alive : (i : GameInputPayload) (p : GamePlayer) → (take_input F i p).alive ≡ p.alive
  unfolding take_input take_position
  take_input-alive i p = ground arith

  pub walk-Keeps : (over : Bool) (dt : ℕ) → Keeps (walk F over dt)
  unfolding walk
  walk-Keeps over dt = record {
    keeps_id = λ p. ground arith;
    keeps_sound = λ p s.
        same-IsSound p (walk F over dt p) (ground arith) (ground arith) (ground arith)
          (ground arith) s;
  }

  pub cool_down-Keeps : (dt : ℕ) → Keeps (cool_down F dt)
  unfolding cool_down
  cool_down-Keeps dt = record {
    keeps_id = λ p. ground arith;
    keeps_sound = λ p s.
        same-IsSound p (cool_down F dt p) (ground arith) (ground arith) (ground arith)
          (ground arith) s;
  }

  pub rise-Keeps : (id : ℕ) → Keeps (rise F id)
  unfolding rise
  rise-Keeps id = record {
    keeps_id = λ p. refl;
    keeps_sound =
        λ p s. record { named = s.named; healthy = omega arith; standing = refl; armed = s.armed };
  }

  pub spawn-IsSound : (peer : Peer) (id n : ℕ) → id ≢ 0 → IsSound (spawn F peer id n)
  unfolding spawn
  spawn-IsSound peer id n h = record {
    named = omega arith;
    healthy = omega arith;
    standing = refl;
    armed = omega arith;
  }

  pub spawn-id : (peer : Peer) (id n : ℕ) → (spawn F peer id n).player_id ≡ id
  unfolding spawn
  spawn-id peer id n = refl
