-- ===== src/Core/ThreadPool.antt =====
-- core/event_loop_thread_pool.h and core/event_loop_thread_pool.cpp: the choice of a loop for the next
-- connection. Loops are numbers, and a null pointer is `none`. The counter is an `int` of 32 bits,
-- whose `fetch_add` wraps to negative numbers; the remainder has the sign of its left side, and an
-- index below 0 is out of the vector's bounds.
pub mod Turns
use lightnet.Common.{
  ltb, leb, ◌==◌, if◌then◌else◌, ltb→lt, lt→ltb, le→ltb, le→leb, lt→leb, ltb→ge, leb→le, leb→gt,
  ==→eq, ==→ne, eq→==, ==-refl, Bool-cases, Option-cases, some_pair-fst, some_pair-snd, bytes_eq,
  bytes_eq_refl, bytes_eq→eq, ◌>>=◌, ◌>>◌, guard, >>=-eq-some, guard-eq-some, >>=-elim, eq_of_some,
  length, take, drop, replicate, get_or, All, length-append, length-take, length-drop,
  length-replicate, take-append-drop, take_all, drop_all, drop-nil, take-append_le, drop-append_le,
  take-append_ge, drop-append_ge, take_front, drop_front, drop-drop, drop-take, length-map,
  take_first, drop_first, get_or-append, to_signed, to_unsigned, InRange, to_signed-to_unsigned,
  to_unsigned-lt, codes, IsByte, le_bytes, of_le, length-le_bytes, le_bytes-IsByte, of_le-le_bytes,
  ℤ, pos, negsuc, ℕ, zero, suc, ◌+◌, ◌-◌, ◌*◌, ◌/◌, ◌%◌, ◌^◌, ◌≤◌, ◌<◌, min, max, ◌≡◌, refl, sym,
  ap, ◌∙◌, subst, ◌≢◌, ◌↔◌, ◌⊎◌, inl, inr, Bool, true, false, not, ◌&&◌, ◌||◌, Option, none, some,
  List, [], ◌∷◌, ◌++◌, map, append_assoc, append-nil, arith,
}

pub record EventLoopThreadPool : Type 0 where
  pub base_loop : ℕ
  pub started : Bool
  pub num_threads : ℕ
  pub next : ℕ
  pub loops : List (Option ℕ)

-- 2 ^ 31.
abbrev pub half : ℕ
half = 2147483648

abbrev pub new_pool : ℕ → EventLoopThreadPool
new_pool base = record { base_loop = base; started = false; num_threads = 0; next = 0; loops = [] }

-- The loops `first`, `first + 1`, ... are made, each with a thread.
unfoldable pub emplace : ℕ → ℕ → List (Option ℕ)
emplace zero first = []
emplace (suc n) first = some first ∷ emplace n (first + 1)

unfoldable pub start : ℕ → EventLoopThreadPool → EventLoopThreadPool
start first p =
    let loops = p.loops ++ emplace p.num_threads first in
    record p { started = true; loops = if p.num_threads == 0 then loops ++ (none ∷ []) else loops }

-- `loops_.empty() || (loops_.size() == 1 && loops_[0] == nullptr)`.
unfoldable pub has_no_loop : List (Option ℕ) → Bool
has_no_loop [] = true
has_no_loop (none ∷ []) = true
has_no_loop (none ∷ l ∷ ls) = false
has_no_loop (some l ∷ ls) = false

-- The remainder of C++, as an index where it is not below 0.
unfoldable pub index_of : ℤ → ℕ → Option ℕ
index_of (pos n) size = some (n % size)
index_of (negsuc n) size = if (n + 1) % size == 0 then some 0 else none

-- An element of the vector; `none` behind its end.
unfoldable pub element : List (Option ℕ) → ℕ → Option (Option ℕ)
element [] i = none
element (l ∷ ls) zero = some l
element (l ∷ ls) (suc i) = element ls i

-- The loop, or `none` where the index is out of bounds.
unfoldable pub get_next_loop : EventLoopThreadPool → Option (Option ℕ) × EventLoopThreadPool
get_next_loop p = if has_no_loop p.loops then (some (some p.base_loop), p) else (
  (do i ← index_of (to_signed half p.next) (length p.loops); element p.loops i),
  record p { next = (p.next + 1) % 4294967296 },
)
