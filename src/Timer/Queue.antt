-- ===== src/Timer/Queue.antt =====
-- core/timer_wheel.cpp: the order of the queue, its due nodes, and the set of active ids.
use lightnet.Common.{
  ltb, leb, if◌then◌else◌, ltb→lt, ltb→ge, Bool-cases, ℕ, suc, ◌≤◌, ◌<◌, ◌≡◌, refl, inl, inr, true,
  false, List, [], ◌∷◌, arith,
}
use lightnet.Timer.{push, count, erase, TimerNode}

-- Each node expires no later than those behind it.
abbrev pub Later : ℕ → List TimerNode → Type 0
Later t [] = Unit {0}
Later t (n ∷ ns) = (t ≤ n.expire_ms) × Later t ns

abbrev pub IsSorted : List TimerNode → Type 0
IsSorted [] = Unit {0}
IsSorted (n ∷ ns) = Later n.expire_ms ns × IsSorted ns

-- The number of nodes that are due.
abbrev pub due : ℕ → List TimerNode → ℕ
due now [] = 0
due now (n ∷ ns) = if leb n.expire_ms now then suc (due now ns) else due now ns

pub Later-le : (s t : ℕ) (ns : List TimerNode) → s ≤ t → Later t ns → Later s ns
Later-le s t [] h l = tt
Later-le s t (n ∷ ns) h (k, l) = (omega arith, Later-le s t ns h l)

push-Later :
    (t : ℕ) (n : TimerNode) (ns : List TimerNode)
    → t ≤ n.expire_ms
    → Later t ns
    → Later t (push n ns)
unfolding push
push-Later t n [] h l = (h, tt)
push-Later t n (m ∷ ms) h (k, l) = ground (arith, push-Later t n ms h l)

pub push-IsSorted : (n : TimerNode) (ns : List TimerNode) → IsSorted ns → IsSorted (push n ns)
unfolding push
push-IsSorted n [] s = (tt, tt)
push-IsSorted n (m ∷ ms) (l, s) = elim (Bool-cases (ltb n.expire_ms m.expire_ms)) [
  | inl first ↦ rw first (
    (
      omega (arith, ltb→lt _ _ first),
      Later-le n.expire_ms m.expire_ms ms (omega (arith, ltb→lt _ _ first)) l,
    ),
    (l, s),
  )
  | inr later ↦ rw later (push-Later m.expire_ms n ms (ltb→ge _ _ later) l, push-IsSorted n ms s)
]

pub due-push_later :
    (now : ℕ) (n : TimerNode) (ns : List TimerNode)
    → now < n.expire_ms
    → due now (push n ns) ≡ due now ns
unfolding push
due-push_later now n [] h = ground arith
due-push_later now n (m ∷ ms) h = ground (arith, due-push_later now n ms h)

due-Later : (now t : ℕ) (ns : List TimerNode) → now < t → Later t ns → due now ns ≡ 0
due-Later now t [] h l = refl
due-Later now t (n ∷ ns) h (k, l) = ground (arith, due-Later now t ns h l)

-- Nothing is due behind a top that is not.
pub due-IsSorted :
    (now : ℕ) (n : TimerNode) (ns : List TimerNode)
    → now < n.expire_ms
    → IsSorted (n ∷ ns)
    → due now (n ∷ ns) ≡ 0
due-IsSorted now n ns h (l, s) = ground (arith, due-Later now n.expire_ms ns h l)

pub count-erase : (id : ℕ) (ids : List ℕ) → count id (erase id ids) ≡ false
unfolding count erase
count-erase id [] = refl
count-erase id (a ∷ ids) = ground (arith, count-erase id ids)

-- Erasing adds no id.
pub count-erase_mono :
    (id other : ℕ) (ids : List ℕ) → count id (erase other ids) ≡ true → count id ids ≡ true
unfolding count erase
count-erase_mono id other [] h = h
count-erase_mono id other (a ∷ ids) h = ground (arith, count-erase_mono id other ids)
