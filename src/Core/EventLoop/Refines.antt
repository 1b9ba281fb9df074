-- ===== src/Core/EventLoop/Refines.antt =====
-- core/event_loop.cpp: the loop with its batches, its descriptor and its other threads is a queue, as
-- far as the order of the tasks goes.
use lightnet.Common.{
  ◌==◌, ==-refl, ◌>>=◌, Option, none, some, if◌then◌else◌, Bool-cases, ℕ, ◌≡◌, refl, sym, ap, ◌∙◌,
  inl, inr, Bool, true, false, List, [], ◌∷◌, ◌++◌, append_assoc, append-nil,
}
use lightnet.Core.EventLoop.{
  new_loop, queue_elsewhere, queue_here, quit_loop, start_loop, test_quit, poll_returns, swap_tasks,
  run_task, end_tasks, EventLoop, Step, pushes, quits, writes, starts, tests, returns, pushes_here,
  quits_here, swaps, executes, ends, Reachable, made, further,
}
use lightnet.Core.EventLoop.Wakeups.{is_running, Reachable-LoopInv, LoopInv}

-- What the loop promises: tasks that have run, and tasks that wait, first come, first run.
pub record TaskQueue : Type 0 where
  pub done : List ℕ
  pub waiting : List ℕ

-- What can be asked of such a queue, and nothing.
pub data Move : Type 0 where
  silent : Move
  enqueues : ℕ → Move
  runs : ℕ → Move

-- Only the task in front can run.
abbrev pub play : Move → TaskQueue → Option TaskQueue
play silent q = some q
play (enqueues t) q = some (record q { waiting = q.waiting ++ (t ∷ []) })
play (runs t) q = elim q.waiting [
  | [] ↦ none
  | u ∷ rest ↦ if u == t then some (record { done = q.done ++ (t ∷ []); waiting = rest }) else none
]

-- A sequence of moves, the last one first in the list.
abbrev pub plays : List Move → TaskQueue → Option TaskQueue
plays [] q = some q
plays (m ∷ ms) q = do earlier ← plays ms q; play m earlier

-- The move that a step makes, told from who takes it: a call of `queue_in_loop` enqueues its task and
-- nothing else does, the start of a task runs that task, and the other steps are silent.
abbrev pub move_of : {s s' : EventLoop} → Step s s' → Move
move_of (pushes t _) = enqueues t
move_of (quits _) = silent
move_of (writes n _ e) = silent
move_of (starts _ e) = silent
move_of (tests _ e) = silent
move_of (returns _ e) = silent
move_of (pushes_here t _ at_work) = enqueues t
move_of (quits_here _ at_work) = silent
move_of (swaps _ e) = silent
move_of (executes t rest _ e next) = runs t
move_of (ends _ e finished) = silent

-- A run of the loop from its construction, with its moves, the last one first.
pub data Run : List Move → EventLoop → Type 0 where
  begun : Run [] new_loop
  goes :
      (ms : List Move) (s s' : EventLoop) (step : Step s s') → Run ms s → Run (move_of step ∷ ms) s'

abbrev pub no_tasks : TaskQueue
no_tasks = record { done = []; waiting = [] }

-- The batch that the swap has taken waits in front of the pending tasks.
abbrev pub queue_of : EventLoop → TaskQueue
queue_of s = record { done = s.ran; waiting = s.batch ++ s.pending_tasks }

Run-Reachable : (ms : List Move) (s : EventLoop) → Run ms s → Reachable s
Run-Reachable _ _ begun = made
Run-Reachable _ _ (goes ms s s' step r) = further s s' (Run-Reachable ms s r) step

enqueued :
    (t : ℕ) (s : EventLoop)
    → play (enqueues t) (queue_of s)
      ≡ some (record { done = s.ran; waiting = s.batch ++ (s.pending_tasks ++ (t ∷ [])) })
enqueued t s =
    ap (λ (w : List ℕ). some (record { done = s.ran; waiting = w }))
      (append_assoc s.batch s.pending_tasks (t ∷ []))

queue_here-play :
    (t : ℕ) (s : EventLoop) → play (enqueues t) (queue_of s) ≡ some (queue_of (queue_here t s))
unfolding queue_here
queue_here-play t s = elim (Bool-cases s.calling_pending_tasks) [
  | inl on ↦ rw (on, queue_here) (enqueued t s)
  | inr off ↦ rw (off, queue_here) (enqueued t s)
]

queue_elsewhere-play :
    (t : ℕ) (s : EventLoop) → play (enqueues t) (queue_of s) ≡ some (queue_of (queue_elsewhere t s))
unfolding queue_elsewhere
queue_elsewhere-play t s = enqueued t s

quit_loop-queue : (in_loop : Bool) (s : EventLoop) → queue_of s ≡ queue_of (quit_loop in_loop s)
unfolding quit_loop
quit_loop-queue true s = refl
quit_loop-queue false s = refl

test_quit-queue : (s : EventLoop) → queue_of s ≡ queue_of (test_quit s)
unfolding test_quit
test_quit-queue s = elim (Bool-cases s.quit) [
  | inl over ↦ rw (over, test_quit) refl
  | inr again ↦ rw (again, test_quit) refl
]

swap_tasks-queue : (s : EventLoop) → s.batch ≡ [] → queue_of s ≡ queue_of (swap_tasks s)
unfolding swap_tasks
swap_tasks-queue s none_left =
    ap (λ (w : List ℕ). record { done = s.ran; waiting = w })
      (ap (λ (b : List ℕ). b ++ s.pending_tasks) none_left ∙ sym (append-nil s.pending_tasks))

run_task-play :
    (t : ℕ) (rest : List ℕ) (s : EventLoop)
    → s.batch ≡ t ∷ rest
    → play (runs t) (queue_of s) ≡ some (queue_of (run_task s t rest))
unfolding run_task
run_task-play t rest s next =
    ap (λ (b : List ℕ). play (runs t) (record { done = s.ran; waiting = b ++ s.pending_tasks }))
      next
    ∙ rw (==-refl t) refl

step-play :
    (s s' : EventLoop) (step : Step s s')
    → LoopInv s
    → play (move_of step) (queue_of s) ≡ some (queue_of s')
unfolding start_loop poll_returns end_tasks is_running
step-play s s' (pushes t _) i = queue_elsewhere-play t s
step-play s s' (quits _) i = ap some (quit_loop-queue false s)
step-play s s' (writes n _ e) i = refl
step-play s s' (starts _ e) i = refl
step-play s s' (tests _ e) i = ap some (test_quit-queue s)
step-play s s' (returns _ e) i = refl
step-play s s' (pushes_here t _ at_work) i = queue_here-play t s
step-play s s' (quits_here _ at_work) i = ap some (quit_loop-queue true s)
step-play s s' (swaps _ e) i = ap some (swap_tasks-queue s (i.idle (ap is_running e)))
step-play s s' (executes t rest _ e next) i = run_task-play t rest s next
step-play s s' (ends _ e finished) i = refl

-- The loop refines a queue: in any run from its construction, in whatever order the loop's thread and
-- the others take their steps, the calls of `queue_in_loop` and the starts of tasks, in their order,
-- are moves that a first-come, first-run queue, empty at first, can make, each start being that of the
-- task in front; and behind them the queue holds what the loop holds: what has run, and the tasks of the
-- batch, then the pending ones.
pub Run-plays : (ms : List Move) (s : EventLoop) → Run ms s → plays ms no_tasks ≡ some (queue_of s)
unfolding new_loop
Run-plays _ _ begun = refl
Run-plays _ _ (goes ms s s' step r) =
    ap (λ (q : Option TaskQueue). q >>= play (move_of step)) (Run-plays ms s r)
    ∙ step-play s s' step (Reachable-LoopInv s (Run-Reachable ms s r))
