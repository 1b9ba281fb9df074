-- ===== src/Core/EventLoop.antt =====
-- core/event_loop.h and core/event_loop.cpp: the loop's queue of tasks and its wake-up descriptor,
-- with other threads at work between any two steps of the loop's own thread. The locked section of
-- `queue_in_loop` is one step and the write to the descriptor behind it is another. Tasks are
-- numbers; what they do, and what ready events and timers do, is of interest here only in so far as
-- it queues tasks or quits. `write` and `read` of the descriptor are taken to succeed.
pub mod Wakeups
pub mod Rounds
pub mod Refines
use lightnet.Common.{
  ltb, leb, ◌==◌, if◌then◌else◌, ltb→lt, lt→ltb, le→ltb, le→leb, lt→leb, ltb→ge, leb→le, leb→gt,
  ==→eq, ==→ne, eq→==, ==-refl, Bool-cases, Option-cases, some_pair-fst, some_pair-snd, bytes_eq,
  bytes_eq_refl, bytes_eq→eq, ◌>>=◌, ◌>>◌, guard, >>=-eq-some, guard-eq-some, >>=-elim, eq_of_some,
  length, take, drop, replicate, get_or, All, length-append, length-take, length-drop,
  length-replicate, take-append-drop, take_all, drop_all, drop-nil, take-append_le, drop-append_le,
  take-append_ge, drop-append_ge, take_front, drop_front, drop-drop, drop-take, length-map,
  take_first, drop_first, get_or-append, to_signed, to_unsigned, InRange, to_signed-to_unsigned,
  to_unsigned-lt, codes, IsByte, le_bytes, of_le, length-le_bytes, le_bytes-IsByte, of_le-le_bytes,
  ℤ, pos, negsuc, ℕ, zero, suc, ◌+◌, ◌-◌, ◌*◌, ◌/◌, ◌%◌, ◌^◌, ◌≤◌, ◌<◌, min, max, ◌≡◌, refl, sym,
  ap, ◌∙◌, subst, ◌≢◌, ◌↔◌, ◌⊎◌, inl, inr, Bool, true, false, not, ◌&&◌, ◌||◌, Option, none, some,
  List, [], ◌∷◌, ◌++◌, map, append_assoc, append-nil, arith,
}

-- Where the loop's thread stands: before `loop`, at the test of `quit_`, in `poll`, in the callbacks
-- and timers, in `do_pending_tasks` behind the swap, or behind the loop.
pub data Phase : Type 0 where
  before_loop : Phase
  testing : Phase
  polling : Phase
  dispatching : Phase
  running : Phase
  after_loop : Phase

-- `wakeups` is the descriptor's counter and `writers` how many threads are about to write to it.
-- `batch` is what the swap has taken. `queued` and `ran` record the tasks queued and run so far,
-- and `direct` those that `run_in_loop` has run at once.
pub record EventLoop : Type 0 where
  pub phase : Phase
  pub looping : Bool
  pub quit : Bool
  pub calling_pending_tasks : Bool
  pub pending_tasks : List ℕ
  pub batch : List ℕ
  pub wakeups : ℕ
  pub writers : ℕ
  pub queued : List ℕ
  pub ran : List ℕ
  pub direct : List ℕ

unfoldable pub new_loop : EventLoop
new_loop = record {
  phase = before_loop;
  looping = false;
  quit = false;
  calling_pending_tasks = false;
  pending_tasks = [];
  batch = [];
  wakeups = 0;
  writers = 0;
  queued = [];
  ran = [];
  direct = [];
}

-- `wakeup`, and `handle_read_wakeup`, which takes the whole counter.
abbrev pub wakeup : EventLoop → EventLoop
wakeup s = record s { wakeups = s.wakeups + 1 }

abbrev handle_read_wakeup : EventLoop → EventLoop
handle_read_wakeup s = record s { wakeups = 0 }

-- The locked section of `queue_in_loop`.
abbrev push_back : ℕ → EventLoop → EventLoop
push_back t s = record s {
  pending_tasks = s.pending_tasks ++ (t ∷ []);
  queued = s.queued ++ (t ∷ []);
}

abbrev will_write : EventLoop → EventLoop
will_write s = record s { writers = s.writers + 1 }

-- `queue_in_loop` in another thread up to the write, and in the loop's own thread.
unfoldable pub queue_elsewhere : ℕ → EventLoop → EventLoop
queue_elsewhere t s = will_write (push_back t s)

unfoldable pub queue_here : ℕ → EventLoop → EventLoop
queue_here t s = let s' = push_back t s in if s.calling_pending_tasks then wakeup s' else s'

unfoldable pub run_in_loop : Bool → ℕ → EventLoop → EventLoop
run_in_loop in_loop t s =
    if in_loop then record s { direct = s.direct ++ (t ∷ []) } else queue_elsewhere t s

-- Coroutines are resumed through the queue in either case.
unfoldable pub schedule_coro : Bool → ℕ → EventLoop → EventLoop
schedule_coro in_loop h s = if in_loop then queue_here h s else queue_elsewhere h s

unfoldable pub quit_loop : Bool → EventLoop → EventLoop
quit_loop in_loop s =
    if in_loop then record s { quit = true } else will_write (record s { quit = true })

-- The start of `loop`, and the test of its `while`.
unfoldable pub start_loop : EventLoop → EventLoop
start_loop s = record s { looping = true; quit = false; phase = testing }

unfoldable pub test_quit : EventLoop → EventLoop
test_quit s =
    if s.quit
    then record s { phase = after_loop; looping = false }
    else record s { phase = polling }

-- `poll` returns; the descriptor is among the active channels when its counter is not zero.
unfoldable pub poll_returns : EventLoop → EventLoop
poll_returns s = handle_read_wakeup (record s { phase = dispatching })

-- The parts of `do_pending_tasks`: up to the swap, one task, and the end.
unfoldable pub swap_tasks : EventLoop → EventLoop
swap_tasks s = record s {
  phase = running;
  calling_pending_tasks = true;
  batch = s.pending_tasks;
  pending_tasks = [];
}

unfoldable pub run_task : EventLoop → ℕ → List ℕ → EventLoop
run_task s t rest = record s { batch = rest; ran = s.ran ++ (t ∷ []) }

unfoldable pub end_tasks : EventLoop → EventLoop
end_tasks s = record s { calling_pending_tasks = false; phase = testing }

-- `do_pending_tasks` without a step of another thread in between, and with tasks that queue none.
unfoldable pub run_tasks : List ℕ → EventLoop → EventLoop
run_tasks [] s = s
run_tasks (t ∷ rest) s = run_tasks rest (run_task s t rest)

unfoldable pub do_pending_tasks : EventLoop → EventLoop
do_pending_tasks s = let swapped = swap_tasks s in end_tasks (run_tasks swapped.batch swapped)

-- One step of the loop's thread or of another one.
pub data Step : EventLoop → EventLoop → Type 0 where
  pushes : (t : ℕ) (s : EventLoop) → Step s (queue_elsewhere t s)
  quits : (s : EventLoop) → Step s (quit_loop false s)
  writes : (n : ℕ) (s : EventLoop) → s.writers ≡ suc n → Step s (wakeup (record s { writers = n }))
  starts : (s : EventLoop) → s.phase ≡ before_loop → Step s (start_loop s)
  tests : (s : EventLoop) → s.phase ≡ testing → Step s (test_quit s)
  returns : (s : EventLoop) → s.phase ≡ polling → Step s (poll_returns s)
  pushes_here :
      (t : ℕ) (s : EventLoop)
      → (s.phase ≡ dispatching) ⊎ (s.phase ≡ running)
      → Step s (queue_here t s)
  quits_here :
      (s : EventLoop) → (s.phase ≡ dispatching) ⊎ (s.phase ≡ running) → Step s (quit_loop true s)
  swaps : (s : EventLoop) → s.phase ≡ dispatching → Step s (swap_tasks s)
  executes :
      (t : ℕ) (rest : List ℕ) (s : EventLoop)
      → s.phase ≡ running
      → s.batch ≡ t ∷ rest
      → Step s (run_task s t rest)
  ends : (s : EventLoop) → s.phase ≡ running → s.batch ≡ [] → Step s (end_tasks s)

pub data Reachable : EventLoop → Type 0 where
  made : Reachable new_loop
  further : (s s' : EventLoop) → Reachable s → Step s s' → Reachable s'
