-- ===== src/Core/ThreadPool/Turns.antt =====
-- core/event_loop_thread_pool.cpp: the loops take turns, until the counter wraps.
use lightnet.Common.{
  ◌==◌, length, to_signed, pos, ℕ, zero, suc, ◌+◌, ◌%◌, ◌<◌, ◌≡◌, refl, ap, ◌∙◌, ◌≢◌, false, Option,
  none, some, List, arith,
}
use lightnet.Core.ThreadPool.{
  half, new_pool, emplace, start, has_no_loop, index_of, element, get_next_loop,
  EventLoopThreadPool,
}

-- The pool after `k` calls of `get_next_loop`.
unfoldable pub after_calls : ℕ → EventLoopThreadPool → EventLoopThreadPool
after_calls zero p = p
after_calls (suc k) p = (get_next_loop (after_calls k p)).1

after_calls_lem :
    (k : ℕ) (p : EventLoopThreadPool)
    → has_no_loop p.loops ≡ false
    → p.next ≡ 0
    → ((after_calls k p).loops ≡ p.loops) × ((after_calls k p).next ≡ k % 4294967296)
unfolding after_calls get_next_loop
after_calls_lem zero p has at_start = (refl, at_start)
after_calls_lem (suc k) p has at_start =
    let (same, n) = after_calls_lem k p has at_start in
    let has' : has_no_loop (after_calls k p).loops ≡ false = ap has_no_loop same ∙ has in
    rw (has', after_calls, get_next_loop) (same, omega (arith, n))

emplace-element : (n first i : ℕ) → i < n → element (emplace n first) i ≡ some (some (first + i))
unfolding emplace element
emplace-element zero first i h = absurd (omega arith)
emplace-element (suc n) first zero h = ap (λ (k : ℕ). some (some k)) (omega arith)
emplace-element (suc n) first (suc i) h =
    emplace-element n (first + 1) i (omega arith) ∙ ap (λ (k : ℕ). some (some k)) (omega arith)

length-emplace : (n first : ℕ) → length (emplace n first) ≡ n
unfolding emplace
length-emplace zero first = refl
length-emplace (suc n) first = ap suc (length-emplace n (first + 1))

-- A pool that has been started, with the threads it was given.
abbrev pub running : ℕ → ℕ → ℕ → EventLoopThreadPool
running base n first = start first (record (new_pool base) { num_threads = n })

started-loops :
    (base n first : ℕ)
    → ((running base (suc n) first).loops ≡ emplace (suc n) first)
      × ((running base (suc n) first).next ≡ 0)
unfolding start
started-loops base n first = let more : (suc n == 0) ≡ false = ground arith in (rw more refl, refl)

-- In a pool started with one thread or more, the calls of `get_next_loop` go round the loops: call
-- number `k`, from 0, gives loop `k` modulo the number of loops, as long as `k` is below 2^31; for
-- call 2^31 the index is below 0, unless the number of loops divides 2^31.
pub get_next_loop-turns :
    (base n first k : ℕ)
    → (k < half
        → (get_next_loop (after_calls k (running base (suc n) first))).0
          ≡ some (some (first + k % suc n)))
      × (k ≡ half
          → half % suc n ≢ 0
          → (get_next_loop (after_calls k (running base (suc n) first))).0 ≡ none)
unfolding get_next_loop index_of
get_next_loop-turns base n first k = (
  λ low.
      let p : EventLoopThreadPool = running base (suc n) first in
      let (made, zero_next) = started-loops base n first in
      let has : has_no_loop p.loops ≡ false =
        ap has_no_loop made ∙ (unfold emplace has_no_loop in refl) in
      let (same, num) = after_calls_lem k p has zero_next in
      let still : has_no_loop (after_calls k p).loops ≡ false = ap has_no_loop same ∙ has in
      let l : length (after_calls k p).loops ≡ suc n =
        ap length (same ∙ made) ∙ length-emplace (suc n) first in
      let at : (after_calls k p).next ≡ k = omega (arith, num) in
      let sign : to_signed half k ≡ pos k = ground (arith, low) in
      rw still (
        rw (at, sign, l)
          (ap (λ (ls : List (Option ℕ)). element ls (k % suc n)) (same ∙ made)
            ∙ emplace-element (suc n) first (k % suc n) (omega arith))),
  λ top odd.
      let p : EventLoopThreadPool = running base (suc n) first in
      let (made, zero_next) = started-loops base n first in
      let has : has_no_loop p.loops ≡ false =
        ap has_no_loop made ∙ (unfold emplace has_no_loop in refl) in
      let (same, num) = after_calls_lem k p has zero_next in
      let still : has_no_loop (after_calls k p).loops ≡ false = ap has_no_loop same ∙ has in
      let l : length (after_calls k p).loops ≡ suc n =
        ap length (same ∙ made) ∙ length-emplace (suc n) first in
      let at : (after_calls k p).next ≡ half = omega (arith, num, top) in
      let off : (half % suc n == 0) ≡ false = ground (arith, odd) in
      rw still (rw (at, l) (rw off refl)),
)
