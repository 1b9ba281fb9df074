-- ===== src/Core/EventLoop/Rounds.antt =====
-- core/event_loop.cpp: what a wait in `poll` may rely on, and what one round of the loop gets done.
use lightnet.Common.{
  ℕ, ◌≡◌, refl, sym, ap, ◌∙◌, ◌≢◌, true, List, [], ◌∷◌, ◌++◌, append_assoc, append-nil,
}
use lightnet.Core.EventLoop.{
  poll_returns, swap_tasks, run_task, end_tasks, run_tasks, do_pending_tasks, testing, polling,
  running, EventLoop, returns, swaps, executes, ends, Reachable, further,
}
use lightnet.Core.EventLoop.Wakeups.{
  is_running, is_dispatching, is_polling, IsHeard, Reachable-LoopInv,
}

-- No wake-up is lost: whenever the loop's thread is in `poll` while a task is pending, or after `quit`
-- has been called since `loop` began, the descriptor is readable, or some thread that has queued or
-- quit is still about to write to it.
poll-IsHeard :
    (s : EventLoop)
    → Reachable s
    → s.phase ≡ polling
    → (s.pending_tasks ≢ [] → IsHeard s) × (s.quit ≡ true → IsHeard s)
unfolding is_dispatching is_polling
poll-IsHeard s r at_poll =
    let i = Reachable-LoopInv s r in
    (i.heard (ap is_dispatching at_poll), i.told (ap is_polling at_poll))

-- The batch, run to its end.
run_tasks_lem :
    (batch : List ℕ) (s : EventLoop)
    → Reachable s
    → s.phase ≡ running
    → s.batch ≡ batch
    → Reachable (run_tasks batch s)
      × ((run_tasks batch s).ran ≡ s.ran ++ batch)
      × ((run_tasks batch s).batch ≡ [])
      × ((run_tasks batch s).phase ≡ running)
      × ((run_tasks batch s).pending_tasks ≡ s.pending_tasks)
unfolding run_tasks run_task
run_tasks_lem [] s r at_work e = (r, sym (append-nil s.ran), e, at_work, refl)
run_tasks_lem (t ∷ rest) s r at_work e =
    let s' : EventLoop = run_task s t rest in
    let (r', ran, none_left, still, pending) =
      run_tasks_lem rest s' (further s s' r (executes t rest s at_work e)) at_work refl in
    (r', ran ∙ append_assoc s.ran (t ∷ []) rest, none_left, still, pending)

-- The round that follows when `poll` returns, if nobody queues more meanwhile: it is made of the steps
-- above, runs every task that has been queued until then, in order, leaves none, and comes back to
-- the test of `quit_`.
pub do_pending_tasks_lem :
    (s : EventLoop)
    → Reachable s
    → s.phase ≡ polling
    → Reachable (do_pending_tasks (poll_returns s))
      × ((do_pending_tasks (poll_returns s)).ran ≡ s.queued)
      × ((do_pending_tasks (poll_returns s)).pending_tasks ≡ [])
      × ((do_pending_tasks (poll_returns s)).phase ≡ testing)
unfolding do_pending_tasks poll_returns swap_tasks end_tasks is_running
do_pending_tasks_lem s r at_poll =
    let i = Reachable-LoopInv s r in
    let d : EventLoop = poll_returns s in
    let w : EventLoop = swap_tasks d in
    let r' : Reachable w = further d w (further s d r (returns s at_poll)) (swaps d refl) in
    let (done, ran, none_left, still, pending) = run_tasks_lem s.pending_tasks w r' refl refl in
    let z : EventLoop = run_tasks s.pending_tasks w in
    (
      further z (end_tasks z) done (ends z still none_left),
      ran
          ∙ ap (λ (b : List ℕ). s.ran ++ (b ++ s.pending_tasks))
              (sym (i.idle (ap is_running at_poll)))
          ∙ i.fifo,
      pending,
      refl,
    )
