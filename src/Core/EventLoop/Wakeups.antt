-- ===== src/Core/EventLoop/Wakeups.antt =====
-- core/event_loop.cpp: no wake-up is lost between the threads, and the tasks keep their order.
use lightnet.Common.{
  Bool-cases, ℕ, ◌+◌, ◌<◌, ◌≡◌, refl, sym, ap, ◌∙◌, ◌≢◌, ◌⊎◌, inl, inr, Bool, true, false, List, [],
  ◌∷◌, ◌++◌, append_assoc, append-nil, arith,
}
use lightnet.Core.EventLoop.{
  new_loop, wakeup, queue_elsewhere, queue_here, quit_loop, start_loop, test_quit, poll_returns,
  swap_tasks, run_task, end_tasks, Phase, before_loop, testing, polling, dispatching, running,
  EventLoop, Step, pushes, quits, writes, starts, tests, returns, pushes_here, quits_here, swaps,
  executes, ends, Reachable, made, further,
}

unfoldable pub is_running : Phase → Bool
is_running p = elim p [ running ↦ true | _ ↦ false ]

unfoldable pub is_dispatching : Phase → Bool
is_dispatching p = elim p [ dispatching ↦ true | _ ↦ false ]

unfoldable pub is_polling : Phase → Bool
is_polling p = elim p [ polling ↦ true | _ ↦ false ]

-- The descriptor is readable, or another thread is about to write to it.
abbrev pub IsHeard : EventLoop → Type 0
IsHeard s = 0 < s.wakeups + s.writers

pub record LoopInv (s : EventLoop) : Type 0 where
  pub fifo : s.ran ++ (s.batch ++ s.pending_tasks) ≡ s.queued
  pub idle : is_running s.phase ≡ false → s.batch ≡ []
  pub calling : s.calling_pending_tasks ≡ is_running s.phase
  pub heard : is_dispatching s.phase ≡ false → s.pending_tasks ≢ [] → IsHeard s
  pub told : is_polling s.phase ≡ true → s.quit ≡ true → IsHeard s

push_fifo :
    (ran batch pending queued : List ℕ) (t : ℕ)
    → ran ++ (batch ++ pending) ≡ queued
    → ran ++ (batch ++ (pending ++ (t ∷ []))) ≡ queued ++ (t ∷ [])
push_fifo ran batch pending queued t e =
    ap (◌++◌ ran) (sym (append_assoc batch pending (t ∷ [])))
    ∙ sym (append_assoc ran (batch ++ pending) (t ∷ []))
    ∙ ap (λ (l : List ℕ). l ++ (t ∷ [])) e

queue_elsewhere-LoopInv : (t : ℕ) (s : EventLoop) → LoopInv s → LoopInv (queue_elsewhere t s)
unfolding queue_elsewhere
queue_elsewhere-LoopInv t s i = record {
  fifo = push_fifo s.ran s.batch s.pending_tasks s.queued t i.fifo;
  idle = i.idle;
  calling = i.calling;
  heard = λ p ne. omega arith;
  told = λ p q. omega arith;
}

-- The loop's own thread queues without a wake-up only before the swap of the same round.
queue_here-LoopInv :
    (t : ℕ) (s : EventLoop)
    → (s.phase ≡ dispatching) ⊎ (s.phase ≡ running)
    → LoopInv s
    → LoopInv (queue_here t s)
unfolding queue_here is_running is_dispatching is_polling
queue_here-LoopInv t s (inl at_work) i =
    let off : s.calling_pending_tasks ≡ false = i.calling ∙ ap is_running at_work in
    let fifo = push_fifo s.ran s.batch s.pending_tasks s.queued t i.fifo in
    rw (off, queue_here)
      (record {
        fifo = fifo;
        idle = i.idle;
        calling = sym (ap is_running at_work);
        heard = λ p ne. absurd (cc (p, ap is_dispatching at_work));
        told = λ p q. absurd (cc (p, ap is_polling at_work));
      })
queue_here-LoopInv t s (inr at_work) i =
    let on : s.calling_pending_tasks ≡ true = i.calling ∙ ap is_running at_work in
    let fifo = push_fifo s.ran s.batch s.pending_tasks s.queued t i.fifo in
    rw (on, queue_here)
      (record {
        fifo = fifo;
        idle = i.idle;
        calling = sym (ap is_running at_work);
        heard = λ p ne. omega arith;
        told = λ p q. omega arith;
      })

quit_loop-LoopInv :
    (in_loop : Bool) (s : EventLoop)
    → (in_loop ≡ true → is_polling s.phase ≡ false)
    → LoopInv s
    → LoopInv (quit_loop in_loop s)
unfolding quit_loop
quit_loop-LoopInv true s away i = record {
  fifo = i.fifo;
  idle = i.idle;
  calling = i.calling;
  heard = i.heard;
  told = λ p q. absurd (cc (p, away refl));
}
quit_loop-LoopInv false s away i = record {
  fifo = i.fifo;
  idle = i.idle;
  calling = i.calling;
  heard = λ p ne. omega arith;
  told = λ p q. omega arith;
}

writes-LoopInv : (n : ℕ) (s : EventLoop) → LoopInv s → LoopInv (wakeup (record s { writers = n }))
writes-LoopInv n s i = record {
  fifo = i.fifo;
  idle = i.idle;
  calling = i.calling;
  heard = λ p ne. omega arith;
  told = λ p q. omega arith;
}

start_loop-LoopInv : (s : EventLoop) → s.phase ≡ before_loop → LoopInv s → LoopInv (start_loop s)
unfolding start_loop is_running is_dispatching is_polling
start_loop-LoopInv s at_start i = record {
  fifo = i.fifo;
  idle = λ p. i.idle (ap is_running at_start);
  calling = i.calling ∙ ap is_running at_start;
  heard = λ p ne. i.heard (ap is_dispatching at_start) ne;
  told = λ p q. absurd (cc p);
}

test_quit-LoopInv : (s : EventLoop) → s.phase ≡ testing → LoopInv s → LoopInv (test_quit s)
unfolding test_quit is_running is_dispatching is_polling
test_quit-LoopInv s at_test i = elim (Bool-cases s.quit) [
  | inl over ↦
      rw (over, test_quit)
        (record {
          fifo = i.fifo;
          idle = λ p. i.idle (ap is_running at_test);
          calling = i.calling ∙ ap is_running at_test;
          heard = λ p ne. i.heard (ap is_dispatching at_test) ne;
          told = λ p q. absurd (cc p);
        })
  | inr again ↦
      rw (again, test_quit)
        (record {
          fifo = i.fifo;
          idle = λ p. i.idle (ap is_running at_test);
          calling = i.calling ∙ ap is_running at_test;
          heard = λ p ne. i.heard (ap is_dispatching at_test) ne;
          told = λ p q. absurd (cc q);
        })
]

poll_returns-LoopInv : (s : EventLoop) → s.phase ≡ polling → LoopInv s → LoopInv (poll_returns s)
unfolding poll_returns is_running is_dispatching is_polling
poll_returns-LoopInv s at_poll i = record {
  fifo = i.fifo;
  idle = λ p. i.idle (ap is_running at_poll);
  calling = i.calling ∙ ap is_running at_poll;
  heard = λ p ne. absurd (cc p);
  told = λ p q. absurd (cc p);
}

swap_tasks-LoopInv : (s : EventLoop) → s.phase ≡ dispatching → LoopInv s → LoopInv (swap_tasks s)
unfolding swap_tasks is_running is_dispatching is_polling
swap_tasks-LoopInv s at_work i = record {
  fifo =
      ap (◌++◌ s.ran) (
        append-nil s.pending_tasks
        ∙ ap (λ (b : List ℕ). b ++ s.pending_tasks) (sym (i.idle (ap is_running at_work))))
      ∙ i.fifo;
  idle = λ p. absurd (cc p);
  calling = refl;
  heard = λ p ne. absurd (ne refl);
  told = λ p q. absurd (cc p);
}

run_task-LoopInv :
    (t : ℕ) (rest : List ℕ) (s : EventLoop)
    → s.phase ≡ running
    → s.batch ≡ t ∷ rest
    → LoopInv s
    → LoopInv (run_task s t rest)
unfolding run_task is_running
run_task-LoopInv t rest s at_work next i = record {
  fifo =
      append_assoc s.ran (t ∷ []) (rest ++ s.pending_tasks)
      ∙ ap (λ (b : List ℕ). s.ran ++ (b ++ s.pending_tasks)) (sym next)
      ∙ i.fifo;
  idle = λ p. absurd (cc p);
  calling = i.calling;
  heard = i.heard;
  told = i.told;
}

end_tasks-LoopInv :
    (s : EventLoop) → s.phase ≡ running → s.batch ≡ [] → LoopInv s → LoopInv (end_tasks s)
unfolding end_tasks is_running is_dispatching is_polling
end_tasks-LoopInv s at_work done i = record {
  fifo = i.fifo;
  idle = λ p. done;
  calling = refl;
  heard = λ p ne. i.heard (ap is_dispatching at_work) ne;
  told = λ p q. absurd (cc p);
}

working-not_polling :
    (s : EventLoop) → (s.phase ≡ dispatching) ⊎ (s.phase ≡ running) → is_polling s.phase ≡ false
unfolding is_polling
working-not_polling s (inl e) = ap is_polling e
working-not_polling s (inr e) = ap is_polling e

step-LoopInv : (s s' : EventLoop) → Step s s' → LoopInv s → LoopInv s'
step-LoopInv s s' (pushes t _) i = queue_elsewhere-LoopInv t s i
step-LoopInv s s' (quits _) i = quit_loop-LoopInv false s (λ e. absurd (cc e)) i
step-LoopInv s s' (writes n _ e) i = writes-LoopInv n s i
step-LoopInv s s' (starts _ e) i = start_loop-LoopInv s e i
step-LoopInv s s' (tests _ e) i = test_quit-LoopInv s e i
step-LoopInv s s' (returns _ e) i = poll_returns-LoopInv s e i
step-LoopInv s s' (pushes_here t _ at_work) i = queue_here-LoopInv t s at_work i
step-LoopInv s s' (quits_here _ at_work) i =
    quit_loop-LoopInv true s (λ e. working-not_polling s at_work) i
step-LoopInv s s' (swaps _ e) i = swap_tasks-LoopInv s e i
step-LoopInv s s' (executes t rest _ e next) i = run_task-LoopInv t rest s e next i
step-LoopInv s s' (ends _ e done) i = end_tasks-LoopInv s e done i

new_loop-LoopInv : LoopInv new_loop
unfolding new_loop is_running is_dispatching is_polling
new_loop-LoopInv = record {
  fifo = refl;
  idle = λ p. refl;
  calling = refl;
  heard = λ p ne. absurd (ne refl);
  told = λ p q. absurd (cc p);
}

-- In whatever order the loop's thread and the others take their steps, the tasks that have run, then
-- the rest of the batch, then those that are pending, are all the tasks that were queued, once each
-- and in the order in which they were queued.
pub Reachable-LoopInv : (s : EventLoop) → Reachable s → LoopInv s
Reachable-LoopInv s made = new_loop-LoopInv
Reachable-LoopInv s (further b _ r t) = step-LoopInv b s t (Reachable-LoopInv b r)
