-- ===== src/Tests/Timers.antt =====
-- Runs of the timers.
use lightnet.Common.{
  ◌==◌, if◌then◌else◌, Bool-cases, All, ℕ, ◌≡◌, refl, inl, inr, true, false, some, List, [], ◌∷◌,
  arith,
}
use lightnet.Timer.{
  count, erase, cancel, obey, fire, rearm, tick_loop, tick, TimerNode, TimerWheel, Command, cancels,
  ended, out_of_fuel,
}
use lightnet.Timer.Tick.{IsCancel, Ends, tick_loop-Ends}
use lightnet.Timer.Fires.{Fires, tick-Fires}
use lightnet.Timer.Spin.{tick_loop_spins}

-- Callback 1 cancels the timer 2.
abbrev body : ℕ → List Command
body name = if name == 1 then cancels 2 ∷ [] else []

body-IsCancel : (name : ℕ) → All IsCancel (body name)
body-IsCancel name = elim (Bool-cases (name == 1)) [ inl e ↦ rw e (tt, tt) | inr e ↦ rw e tt ]

abbrev once : TimerNode
once = record { id = 1; expire_ms = 40; interval_ms = 0; repeat = false; callback = some 1 }

abbrev often : TimerNode
often = record { id = 2; expire_ms = 50; interval_ms = 20; repeat = true; callback = some 2 }

abbrev wheel : TimerWheel
wheel = record { timers = once ∷ often ∷ []; active = 2 ∷ 1 ∷ []; next_id = 3; last_tick_ms = 30 }

tick_loop-Ends_example : Ends 60 wheel (tick_loop body 3 60 wheel)
tick_loop-Ends_example =
    tick_loop-Ends body body-IsCancel 3 60 wheel
      (record { sorted = omega arith; rearms = ((λ h. cc), ((λ h. omega arith), tt)) })
      (omega arith)

abbrev frantic : TimerNode
frantic = record often { interval_ms = 0 }

tick_loop_spins_example :
    tick_loop body 1000000 60 (record wheel { timers = frantic ∷ [] }) ≡ out_of_fuel
unfolding fire obey count
tick_loop_spins_example =
    tick_loop_spins body 1000000 60 (record wheel { timers = frantic ∷ [] }) frantic (omega arith)
      refl refl (λ v. refl) refl (omega arith) refl

-- Both are due, and the first callback cancels the second timer.
cancelled_in_tick :
    tick body 3 60 wheel
    ≡ ended (record { timers = []; active = []; next_id = 3; last_tick_ms = 60 }) (1 ∷ [])
unfolding tick tick_loop fire obey cancel erase count rearm
cancelled_in_tick = refl

tick-Fires_example : Fires (λ name. []) (λ name. refl) 60 wheel (tick (λ name. []) 3 60 wheel)
tick-Fires_example =
    tick-Fires (λ name. []) (λ name. refl) 3 60 wheel
      (record { sorted = omega arith; rearms = ((λ h. cc), ((λ h. omega arith), tt)) })
      (((λ e. cc), tt), (tt, tt)) (omega arith)
