-- ===== src/Timer/Fires.antt =====
-- core/timer_wheel.cpp: which callbacks `tick` runs, where they leave the wheel alone.
use lightnet.Common.{
  ltb, leb, if◌then◌else◌, leb→gt, Bool-cases, All, ℕ, zero, suc, ◌+◌, ◌%◌, ◌^◌, ◌<◌, ◌≡◌, refl,
  sym, ap, ◌∙◌, ◌≢◌, inl, inr, ◌&&◌, Option, none, some, List, [], ◌∷◌, arith,
}
use lightnet.Timer.{
  push, count, erase, obey, fire, rearm, expire, visit, tick_loop, tick, TimerNode, TimerWheel,
  Command, Outcome, ended,
}
use lightnet.Timer.Queue.{IsSorted, due, due-IsSorted}
use lightnet.Timer.Tick.{IsReady, Rearms, IsCancel, rearm_lem, &&-true}

-- The ids of the active timers among the nodes that are due, in the order of the queue.
abbrev due_ids : ℕ → List ℕ → List TimerNode → List ℕ
due_ids now active [] = []
due_ids now active (n ∷ ns) =
    if leb n.expire_ms now
    then if count n.id active then n.id ∷ due_ids now active ns else due_ids now active ns
    else []

abbrev IsFresh : ℕ → List TimerNode → Type 0
IsFresh id ns = All (λ m. m.id ≢ id) ns

abbrev Unique : List TimerNode → Type 0
Unique [] = Unit {0}
Unique (n ∷ ns) = IsFresh n.id ns × Unique ns

push-IsFresh :
    (id : ℕ) (n : TimerNode) (ns : List TimerNode)
    → n.id ≢ id
    → IsFresh id ns
    → IsFresh id (push n ns)
unfolding push
push-IsFresh id n [] h a = (h, tt)
push-IsFresh id n (m ∷ ms) h (a, as') = elim (Bool-cases (ltb n.expire_ms m.expire_ms)) [
  | inl first ↦ rw first (h, (a, as'))
  | inr later ↦ rw later (a, push-IsFresh id n ms h as')
]

push-Unique :
    (n : TimerNode) (ns : List TimerNode) → IsFresh n.id ns → Unique ns → Unique (push n ns)
unfolding push
push-Unique n [] f u = (tt, tt)
push-Unique n (m ∷ ms) (f, fs) (g, u) = elim (Bool-cases (ltb n.expire_ms m.expire_ms)) [
  | inl first ↦ rw first ((f, fs), (g, u))
  | inr later ↦ rw later (push-IsFresh m.id n ms (λ e. f (sym e)) g, push-Unique n ms fs u)
]

due_ids-push :
    (now : ℕ) (active : List ℕ) (n : TimerNode) (ns : List TimerNode)
    → now < n.expire_ms
    → due_ids now active (push n ns) ≡ due_ids now active ns
unfolding push
due_ids-push now active n [] h = ground arith
due_ids-push now active n (m ∷ ms) h = ground (arith, due_ids-push now active n ms h)

count-erase_other :
    (k id : ℕ) (active : List ℕ) → k ≢ id → count k (erase id active) ≡ count k active
unfolding count erase
count-erase_other k id [] ne = refl
count-erase_other k id (a ∷ as') ne = ground (arith, count-erase_other k id as' ne)

due_ids-erase :
    (now id : ℕ) (active : List ℕ) (ns : List TimerNode)
    → IsFresh id ns
    → due_ids now (erase id active) ns ≡ due_ids now active ns
due_ids-erase now id active [] f = refl
due_ids-erase now id active (n ∷ ns) (f, fs) =
    rw (count-erase_other n.id id active f, due_ids-erase now id active ns fs) refl

module _ (body : ℕ → List Command) (silent : (name : ℕ) → body name ≡ []) where
  quiet : (name : ℕ) → All IsCancel (body name)
  quiet name = rw (silent name) tt

  fire_silent : (w : TimerWheel) (cb : Option ℕ) → fire body w cb ≡ w
  unfolding fire obey
  fire_silent w none = refl
  fire_silent w (some name) = rw (silent name) refl

  rearm-due_ids :
      (now : ℕ) (w : TimerWheel) (node : TimerNode)
      → Rearms now node
      → IsFresh node.id w.timers
      → Unique w.timers
      → (due_ids now (rearm body now w node).active (rearm body now w node).timers
          ≡ due_ids now w.active w.timers)
        × Unique (rearm body now w node).timers
  unfolding rearm
  rearm-due_ids now w node again fresh u =
      elim (Bool-cases (node.repeat && count node.id w.active)) [
        | inl back ↦
            let node' : TimerNode = record node { expire_ms = (now + node.interval_ms) % 2 ^ 64 } in
            rw back (
              due_ids-push now w.active node' w.timers (again (&&-true _ _ back)),
              push-Unique node' w.timers fresh u,
            )
        | inr over ↦ rw over (due_ids-erase now node.id w.active w.timers fresh, u)
      ]

  abbrev pub Fires : ℕ → TimerWheel → Outcome → Type 0
  Fires now w o =
      (w' : TimerWheel) × (o ≡ ended w' (due_ids now w.active w.timers)) × (due now w'.timers ≡ 0)

  expire-Fires :
      (next : TimerWheel → Outcome) (now bound : ℕ) (w : TimerWheel) (node : TimerNode)
      → IsReady now w
      → Rearms now node
      → IsFresh node.id w.timers
      → Unique w.timers
      → due now w.timers < bound
      → ((v : TimerWheel)
          → IsReady now v
          → Unique v.timers
          → due now v.timers < bound
          → Fires now v (next v))
      → (w' : TimerWheel) × (expire body next now w node
          ≡ ended w' (
              if count node.id w.active
              then node.id ∷ due_ids now w.active w.timers
              else due_ids now w.active w.timers))
        × (due now w'.timers ≡ 0)
  expire-Fires next now bound w node r again fresh u h ih =
      elim (Bool-cases (count node.id w.active)) [
        | inr gone ↦ rw gone (ih w r u h)
        | inl live ↦
            let (ready, dues, _) = rearm_lem body quiet now w node r again in
            let (same, unique) = rearm-due_ids now w node again fresh u in
            let (w', e, stop) = ih (rearm body now w node) ready unique (omega (arith, dues)) in
            rw (live, fire_silent w node.callback, e, same) (w', refl, stop)
      ]

  visit-Fires :
      (next : TimerWheel → Outcome) (now bound : ℕ) (w : TimerWheel) (nodes : List TimerNode)
      → w.timers ≡ nodes
      → IsReady now w
      → Unique nodes
      → due now nodes < suc bound
      → ((v : TimerWheel)
          → IsReady now v
          → Unique v.timers
          → due now v.timers < bound
          → Fires now v (next v))
      → (w' : TimerWheel) × (visit body next now w nodes ≡ ended w' (due_ids now w.active nodes))
        × (due now w'.timers ≡ 0)
  visit-Fires next now bound w [] e r u h ih = (w, refl, ap (due now) e)
  visit-Fires next now bound w (node ∷ rest) e r (fresh, u) h ih =
      let sorted : IsSorted (node ∷ rest) = rw e at r.sorted in
      let rearms : All (Rearms now) (node ∷ rest) = rw e at r.rearms in
      elim (Bool-cases (leb node.expire_ms now)) [
        | inr early ↦
            rw early
              (w, refl, ap (due now) e ∙ due-IsSorted now node rest (leb→gt _ _ early) sorted)
        | inl ripe ↦ rw ripe (
            expire-Fires next now bound (record w { timers = rest }) node
              (record { sorted = sorted.1; rearms = rearms.1 }) rearms.0 fresh u
              (omega (arith, rw ripe at h)) ih)
      ]

  tick_loop-Fires :
      (fuel now : ℕ) (w : TimerWheel)
      → IsReady now w
      → Unique w.timers
      → due now w.timers < fuel
      → Fires now w (tick_loop body fuel now w)
  unfolding tick_loop
  tick_loop-Fires zero now w r u h = absurd (omega arith)
  tick_loop-Fires (suc fuel) now w r u h =
      visit-Fires (tick_loop body fuel now) now fuel w w.timers refl r u h
        (λ v ready unique less. tick_loop-Fires fuel now v ready unique less)

  -- Where callbacks leave the wheel alone, the queue is in order with different ids, and repeating
  -- timers go back behind `now`, `tick` ends, with more fuel than there are due nodes; it has fired
  -- exactly the due timers that had not been cancelled, each once and in the order of the queue, and no
  -- node is due then.
  pub tick-Fires :
      (fuel now : ℕ) (w : TimerWheel)
      → IsReady now w
      → Unique w.timers
      → due now w.timers < fuel
      → Fires now w (tick body fuel now w)
  unfolding tick
  tick-Fires fuel now w r u h =
      tick_loop-Fires fuel now (record w { last_tick_ms = now })
        (record { sorted = r.sorted; rearms = r.rearms }) u h
