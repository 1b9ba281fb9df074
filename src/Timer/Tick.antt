-- ===== src/Timer/Tick.antt =====
-- core/timer_wheel.cpp: `tick` with callbacks that at most cancel timers.
use lightnet.Common.{
  ltb, leb, leb→gt, Bool-cases, All, ℕ, zero, suc, ◌+◌, ◌%◌, ◌^◌, ◌<◌, ◌≡◌, refl, ap, ◌∙◌, inl, inr,
  Bool, true, ◌&&◌, Option, none, some, List, [], ◌∷◌, arith,
}
use lightnet.Timer.{
  push, count, cancel, obey, fire, rearm, expire, visit, tick_loop, TimerNode, TimerWheel, Command,
  cancels, adds, Outcome, ended,
}
use lightnet.Timer.Queue.{
  IsSorted, due, push-IsSorted, due-push_later, due-IsSorted, count-erase_mono,
}

abbrev pub IsCancel : Command → Type 0
IsCancel (cancels id) = Unit {0}
IsCancel (adds now delay cb repeat) = ⊥

-- A repeating node goes back behind `now`.
abbrev pub Rearms : ℕ → TimerNode → Type 0
Rearms now n = n.repeat ≡ true → now < (now + n.interval_ms) % 2 ^ 64

abbrev IsActive : TimerWheel → ℕ → Type 0
IsActive w id = count id w.active ≡ true

pub record IsReady (now : ℕ) (w : TimerWheel) : Type 0 where
  pub sorted : IsSorted w.timers
  pub rearms : All (Rearms now) w.timers

-- The loop ends with nothing due, and has fired timers that were active.
abbrev pub Ends : ℕ → TimerWheel → Outcome → Type 0
Ends now w o =
    (w' : TimerWheel) × (fired : List ℕ) × (o ≡ ended w' fired)
    × (due now w'.timers ≡ 0)
    × IsSorted w'.timers
    × All (IsActive w) fired

All-push {κ} :
    (P : TimerNode → Type κ) (n : TimerNode) (ns : List TimerNode)
    → P n
    → All P ns
    → All P (push n ns)
unfolding push
All-push P n [] h hs = (h, tt)
All-push P n (m ∷ ms) h (k, hs) = elim (Bool-cases (ltb n.expire_ms m.expire_ms)) [
  | inl e ↦ rw e (h, (k, hs))
  | inr e ↦ rw e (k, All-push P n ms h hs)
]

obey-timers : (w : TimerWheel) (cs : List Command) → All IsCancel cs → (obey w cs).timers ≡ w.timers
unfolding obey
obey-timers w [] h = refl
obey-timers w (cancels id ∷ cs) (_, h) = unfold cancel in obey-timers (cancel w id) cs h
obey-timers w (adds now delay cb repeat ∷ cs) (h, _) = absurd h

-- A cancelled id stays so.
obey-IsActive :
    (w : TimerWheel) (cs : List Command) (id : ℕ)
    → All IsCancel cs
    → IsActive (obey w cs) id
    → IsActive w id
unfolding obey
obey-IsActive w [] id h a = a
obey-IsActive w (cancels other ∷ cs) id (_, h) a =
    count-erase_mono id other w.active (unfold cancel in obey-IsActive (cancel w other) cs id h a)
obey-IsActive w (adds now delay cb repeat ∷ cs) id (h, _) a = absurd h

All-weaken :
    (v w : TimerWheel) (ids : List ℕ)
    → ((id : ℕ) → IsActive v id → IsActive w id)
    → All (IsActive v) ids
    → All (IsActive w) ids
All-weaken v w [] h a = tt
All-weaken v w (id ∷ ids) h (a, as') = (h id a, All-weaken v w ids h as')

pub &&-true : (a b : Bool) → (a && b) ≡ true → a ≡ true
&&-true a b e = ground arith

module _ (body : ℕ → List Command) (quiet : (name : ℕ) → All IsCancel (body name)) where
  fire-timers : (w : TimerWheel) (cb : Option ℕ) → (fire body w cb).timers ≡ w.timers
  unfolding fire
  fire-timers w none = refl
  fire-timers w (some name) = obey-timers w (body name) (quiet name)

  fire-IsActive :
      (w : TimerWheel) (cb : Option ℕ) (id : ℕ) → IsActive (fire body w cb) id → IsActive w id
  unfolding fire
  fire-IsActive w none id a = a
  fire-IsActive w (some name) id a = obey-IsActive w (body name) id (quiet name) a

  -- What `rearm` leaves: no more due nodes than there were, and no more active ids.
  pub rearm_lem :
      (now : ℕ) (w : TimerWheel) (node : TimerNode)
      → IsReady now w
      → Rearms now node
      → IsReady now (rearm body now w node)
        × (due now (rearm body now w node).timers ≡ due now w.timers)
        × ((id : ℕ) → IsActive (rearm body now w node) id → IsActive w id)
  unfolding rearm
  rearm_lem now w node r again = elim (Bool-cases (node.repeat && count node.id w.active)) [
    | inl back ↦
        let later : now < (now + node.interval_ms) % 2 ^ 64 = again (&&-true _ _ back) in
        let node' : TimerNode = record node { expire_ms = (now + node.interval_ms) % 2 ^ 64 } in
        rw back (
          record {
            sorted = push-IsSorted node' w.timers r.sorted;
            rearms = All-push (Rearms now) node' w.timers again r.rearms;
          },
          due-push_later now node' w.timers later,
          λ id a. a,
        )
    | inr over ↦ rw over (
      record { sorted = r.sorted; rearms = r.rearms },
      refl,
      λ id a. count-erase_mono id node.id w.active a,
    )
  ]

  -- One round on a due node.
  expire-Ends :
      (next : TimerWheel → Outcome) (now bound : ℕ) (w : TimerWheel) (node : TimerNode)
      → IsReady now w
      → Rearms now node
      → due now w.timers < bound
      → ((v : TimerWheel) → IsReady now v → due now v.timers < bound → Ends now v (next v))
      → Ends now w (expire body next now w node)
  expire-Ends next now bound w node r again h ih = elim (Bool-cases (count node.id w.active)) [
    | inr gone ↦ rw gone (ih w r h)
    | inl live ↦
        let f : TimerWheel = fire body w node.callback in
        let same : f.timers ≡ w.timers = fire-timers w node.callback in
        let r' : IsReady now f = record { sorted = rw same r.sorted; rearms = rw same r.rearms } in
        let (ready, dues, act) = rearm_lem now f node r' again in
        let (w', fired, e, none_due, sorted, actives) =
          ih (rearm body now f node) ready (omega (arith, dues, ap (due now) same)) in
        rw (live, e)
          (
            w',
            node.id ∷ fired,
            refl,
            none_due,
            sorted,
            (
              live,
              All-weaken (rearm body now f node) w fired
                  (λ id a. fire-IsActive w node.callback id (act id a)) actives,
            ),
          )
  ]

  visit-Ends :
      (next : TimerWheel → Outcome) (now bound : ℕ) (w : TimerWheel) (nodes : List TimerNode)
      → w.timers ≡ nodes
      → IsReady now w
      → due now nodes < suc bound
      → ((v : TimerWheel) → IsReady now v → due now v.timers < bound → Ends now v (next v))
      → Ends now w (visit body next now w nodes)
  visit-Ends next now bound w [] e r h ih = (w, [], refl, ap (due now) e, r.sorted, tt)
  visit-Ends next now bound w (node ∷ rest) e r h ih =
      let sorted : IsSorted (node ∷ rest) = rw e at r.sorted in
      let rearms : All (Rearms now) (node ∷ rest) = rw e at r.rearms in
      elim (Bool-cases (leb node.expire_ms now)) [
        | inr early ↦ rw early (
          w,
          [],
          refl,
          ap (due now) e ∙ due-IsSorted now node rest (leb→gt _ _ early) sorted,
          r.sorted,
          tt,
        )
        | inl ripe ↦ rw ripe (
            expire-Ends next now bound (record w { timers = rest }) node
              (record { sorted = sorted.1; rearms = rearms.1 }) rearms.0
              (omega (arith, rw ripe at h)) ih)
      ]

  -- Where callbacks at most cancel timers, the queue is in order and repeating timers go back behind
  -- `now`, the loop of `tick` ends with more fuel than there are due nodes; then no node is due, the
  -- queue is in order, and the timers that were fired had not been cancelled before.
  pub tick_loop-Ends :
      (fuel now : ℕ) (w : TimerWheel)
      → IsReady now w
      → due now w.timers < fuel
      → Ends now w (tick_loop body fuel now w)
  unfolding tick_loop
  tick_loop-Ends zero now w r h = absurd (omega arith)
  tick_loop-Ends (suc fuel) now w r h =
      visit-Ends (tick_loop body fuel now) now fuel w w.timers refl r h
        (λ v ready less. tick_loop-Ends fuel now v ready less)
