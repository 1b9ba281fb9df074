-- ===== src/Timer/Spin.antt =====
-- core/timer_wheel.cpp: the poll timeout, and a repeating timer without interval.
use lightnet.Common.{
  leb, if◌then◌else◌, le→leb, lt→leb, leb→le, leb→gt, Bool-cases, ℕ, zero, suc, ◌+◌, ◌-◌, ◌%◌, ◌^◌,
  ◌≤◌, ◌<◌, min, ◌≡◌, refl, ap, ◌∙◌, inl, inr, true, ◌&&◌, List, [], ◌∷◌, arith,
}
use lightnet.Timer.{
  push, count, fire, rearm, visit, tick_loop, next_timeout_ms, TimerNode, TimerWheel, Command,
  Outcome, out_of_fuel,
}
use lightnet.Timer.Queue.{Later-le, Later, IsSorted, due, due-IsSorted}

Later-sorted :
    (t : ℕ) (n : TimerNode) (ns : List TimerNode)
    → t ≤ n.expire_ms
    → IsSorted (n ∷ ns)
    → Later t (n ∷ ns)
Later-sorted t n ns h (l, s) = (h, Later-le t n.expire_ms ns h l)

timeout_ripe :
    (now : ℕ) (w : TimerWheel) (n : TimerNode) (ns : List TimerNode)
    → w.timers ≡ n ∷ ns
    → n.expire_ms ≤ now
    → next_timeout_ms w now ≡ 0
unfolding next_timeout_ms
timeout_ripe now w n ns e h = rw (e, next_timeout_ms, le→leb _ _ h)

timeout_early :
    (now : ℕ) (w : TimerWheel) (n : TimerNode) (ns : List TimerNode)
    → w.timers ≡ n ∷ ns
    → now < n.expire_ms
    → next_timeout_ms w now ≡ min (n.expire_ms - now) 1000
unfolding next_timeout_ms
timeout_early now w n ns e h = rw (e, next_timeout_ms, lt→leb _ _ h)

timeout_none : (now : ℕ) (w : TimerWheel) → w.timers ≡ [] → next_timeout_ms w now ≡ 1000
unfolding next_timeout_ms
timeout_none now w e = rw (e, next_timeout_ms)

timeout_of :
    (now : ℕ) (w : TimerWheel) (nodes : List TimerNode)
    → w.timers ≡ nodes
    → IsSorted nodes
    → (next_timeout_ms w now ≤ 1000)
      × (0 < due now nodes → next_timeout_ms w now ≡ 0)
      × (due now nodes ≡ 0 → Later (now + next_timeout_ms w now) nodes)
timeout_of now w [] e s =
    let t = timeout_none now w e in (omega (arith, t), (λ h. absurd (omega arith)), (λ h. tt))
timeout_of now w (n ∷ ns) e s = elim (Bool-cases (leb n.expire_ms now)) [
  | inl ripe ↦
      let t = timeout_ripe now w n ns e (leb→le _ _ ripe) in
      (omega (arith, t), (λ h. t), (λ h. absurd (some_due h ripe)))
  | inr early ↦
      let late : now < n.expire_ms = leb→gt _ _ early in
      let t = timeout_early now w n ns e late in
      (
        omega (arith, t),
        (λ h. absurd (omega (arith, due-IsSorted now n ns late s, h))),
        (λ h. Later-sorted (now + next_timeout_ms w now) n ns (omega (arith, t)) s),
      )
]
  where
    some_due :
        (if leb n.expire_ms now then suc (due now ns) else due now ns) ≡ 0
        → leb n.expire_ms now ≡ true
        → ⊥
    some_due h r = ground arith

-- Where the queue is in order, the poll timeout is at most a second; it is zero when a timer is due, and otherwise a poll of that
-- length passes the expiry of no timer.
next_timeout_ms_lem :
    (now : ℕ) (w : TimerWheel)
    → IsSorted w.timers
    → (next_timeout_ms w now ≤ 1000)
      × (0 < due now w.timers → next_timeout_ms w now ≡ 0)
      × (due now w.timers ≡ 0 → Later (now + next_timeout_ms w now) w.timers)
next_timeout_ms_lem now w s = timeout_of now w w.timers refl s

module _ (body : ℕ → List Command) where
  rearm_at_once :
      (now : ℕ) (w : TimerWheel) (node : TimerNode)
      → now < 2 ^ 64
      → node.repeat ≡ true
      → node.interval_ms ≡ 0
      → count node.id w.active ≡ true
      → w.timers ≡ []
      → rearm body now w node ≡ record w { timers = record node { expire_ms = now } ∷ [] }
  unfolding rearm push
  rearm_at_once now w node h r i a e =
      let t : (now + node.interval_ms) % 2 ^ 64 ≡ now = omega arith in
      let b : (node.repeat && count node.id w.active) ≡ true = ground arith in rw (b, e, push, t)

  spin_round :
      (next : TimerWheel → Outcome) (now : ℕ) (w : TimerWheel) (node : TimerNode)
      → now < 2 ^ 64
      → node.repeat ≡ true
      → node.interval_ms ≡ 0
      → ((v : TimerWheel) → fire body v node.callback ≡ v)
      → node.expire_ms ≤ now
      → count node.id w.active ≡ true
      → next (record w { timers = record node { expire_ms = now } ∷ [] }) ≡ out_of_fuel
      → visit body next now w (node ∷ []) ≡ out_of_fuel
  spin_round next now w node h r i silent d a ih =
      let popped : TimerWheel = record w { timers = [] } in
      rw (le→leb _ _ d, a, silent popped, rearm_at_once now popped node h r i a refl, ih)

  -- An active repeating timer without interval, alone in the wheel and due, with a callback that leaves
  -- the wheel alone: the loop of `tick` ends for no fuel, at any time below 2 ^ 64.
  pub tick_loop_spins :
      (fuel now : ℕ) (w : TimerWheel) (node : TimerNode)
      → now < 2 ^ 64
      → node.repeat ≡ true
      → node.interval_ms ≡ 0
      → ((v : TimerWheel) → fire body v node.callback ≡ v)
      → w.timers ≡ node ∷ []
      → node.expire_ms ≤ now
      → count node.id w.active ≡ true
      → tick_loop body fuel now w ≡ out_of_fuel
  unfolding tick_loop
  tick_loop_spins zero now w node h r i silent e d a = refl
  tick_loop_spins (suc fuel) now w node h r i silent e d a =
      ap (visit body (tick_loop body fuel now) now w) e
      ∙ spin_round (tick_loop body fuel now) now w node h r i silent d a (
          tick_loop_spins fuel now _ (record node { expire_ms = now }) h r i silent refl
            (omega arith) a)
