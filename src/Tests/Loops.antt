-- ===== src/Tests/Loops.antt =====
-- Runs of the event loop, its poller, the pool of loops and the histograms.
use lightnet.Common.{
  ◌==◌, if◌then◌else◌, ==-refl, length, pos, negsuc, ℕ, ◌+◌, ◌%◌, ◌<◌, ◌≡◌, refl, ap, ◌∙◌, ◌≢◌,
  true, false, All, List, Option, none, some, [], ◌∷◌, arith,
}
use lightnet.Core.Channel.{new_channel, Channel, Operation, ctl_add, ctl_mod, ctl_del}
use lightnet.Core.EventLoop.{
  new_loop, queue_elsewhere, start_loop, test_quit, poll_returns, do_pending_tasks, testing,
  polling, EventLoop, swap_tasks, run_task, executes, swaps, returns, pushes, starts, tests,
  Reachable, made, further,
}
use lightnet.Core.EventLoop.Wakeups.{LoopInv, Reachable-LoopInv}
use lightnet.Core.EventLoop.Rounds.{do_pending_tasks_lem}
use lightnet.Core.EventLoop.Refines.{
  queue_of, Run-plays, Run, goes, plays, no_tasks, runs, silent, enqueues,
}
use lightnet.Core.EventLoop.Refines as Refines
use lightnet.Core.EpollPoller.{
  Epoll, EpollPoller, update_channel, remove_channel, poll, holds, ready, new_poller,
}
use lightnet.Core.EpollPoller.Unheard.{
  Call, updates, removes, polls, IsElsewhere, make_all, remove_channel_kept,
}
use lightnet.Core.EpollPoller as Poller
use lightnet.Core.EpollPoller.Watching.{Reported, Updates, Removes, kernel_follows, IsEpoll}
use lightnet.Core.ThreadPool.{half, get_next_loop}
use lightnet.Core.ThreadPool.Turns.{after_calls, running, get_next_loop-turns}
use lightnet.Metrics.{cumulatives, bucket_bounds, word}
use lightnet.Metrics.Buckets.{observed, total, counts, observed_lem}

-- Another thread queues task 4, and the loop starts and waits.
abbrev pushed : EventLoop
pushed = queue_elsewhere 4 new_loop

abbrev begun : EventLoop
begun = start_loop pushed

abbrev waiting : EventLoop
waiting = test_quit begun

waiting-Reachable : Reachable waiting
unfolding queue_elsewhere start_loop new_loop test_quit
waiting-Reachable =
    further begun waiting
      (further pushed begun (further new_loop pushed made (pushes 4 new_loop)) (starts pushed refl))
      (tests begun refl)

at_poll : waiting.phase ≡ polling
unfolding test_quit start_loop
at_poll = refl

Reachable-LoopInv_example : LoopInv waiting
Reachable-LoopInv_example = Reachable-LoopInv waiting waiting-Reachable

do_pending_tasks_lem_example :
    Reachable (do_pending_tasks (poll_returns waiting))
    × ((do_pending_tasks (poll_returns waiting)).ran ≡ waiting.queued)
    × ((do_pending_tasks (poll_returns waiting)).pending_tasks ≡ [])
    × ((do_pending_tasks (poll_returns waiting)).phase ≡ testing)
do_pending_tasks_lem_example = do_pending_tasks_lem waiting waiting-Reachable at_poll

-- Task 4 is swapped into the batch and runs.
abbrev swapped : EventLoop
swapped = swap_tasks (poll_returns waiting)

abbrev finished : EventLoop
finished = run_task swapped 4 []

finished-Run : Run (runs 4 ∷ silent ∷ silent ∷ silent ∷ silent ∷ enqueues 4 ∷ []) finished
unfolding queue_elsewhere start_loop new_loop test_quit poll_returns swap_tasks
finished-Run = goes _ swapped finished (executes 4 [] swapped refl refl) (
    goes _ (poll_returns waiting) swapped (swaps (poll_returns waiting) refl) (
      goes _ waiting (poll_returns waiting) (returns waiting refl) (
        goes _ begun waiting (tests begun refl) (
          goes _ pushed begun (starts pushed refl)
            (goes _ new_loop pushed (pushes 4 new_loop) Refines.begun)))))

Run-plays_example :
    plays (runs 4 ∷ silent ∷ silent ∷ silent ∷ silent ∷ enqueues 4 ∷ []) no_tasks
    ≡ some (queue_of finished)
Run-plays_example =
    Run-plays (runs 4 ∷ silent ∷ silent ∷ silent ∷ silent ∷ enqueues 4 ∷ []) finished finished-Run

-- epoll as a function from descriptors to masks.
abbrev Masks : Type 0
Masks = ℕ → Option ℕ

abbrev put : ℕ → Option ℕ → Masks → Masks
put fd m k = λ x. if x == fd then m else k x

abbrev put_if_free : Option ℕ → ℕ → ℕ → Masks → Masks
put_if_free none fd mask k = put fd (some mask) k
put_if_free (some old) fd mask k = k

abbrev put_if_there : Option ℕ → ℕ → ℕ → Masks → Masks
put_if_there none fd mask k = k
put_if_there (some old) fd mask k = put fd (some mask) k

abbrev ctl : Operation → ℕ → ℕ → Masks → Masks
ctl ctl_add fd mask k = put_if_free (k fd) fd mask k
ctl ctl_mod fd mask k = put_if_there (k fd) fd mask k
ctl ctl_del fd mask k = put fd none k

abbrev masks : Epoll Masks
masks = record { epoll_ctl = ctl; watched = λ fd k. k fd }

put_same : (fd : ℕ) (m : Option ℕ) (k : Masks) → put fd m k fd ≡ m
put_same fd m k = rw (==-refl fd) refl

put_other : (fd other : ℕ) (m : Option ℕ) (k : Masks) → fd ≢ other → put fd m k other ≡ k other
put_other fd other m k ne =
    let differs : (other == fd) ≡ false = ground (arith, ne) in rw differs refl

put_if_free_other :
    (o : Option ℕ) (fd other mask : ℕ) (k : Masks)
    → fd ≢ other
    → put_if_free o fd mask k other ≡ k other
put_if_free_other none fd other mask k ne = put_other fd other (some mask) k ne
put_if_free_other (some old) fd other mask k ne = refl

put_if_there_other :
    (o : Option ℕ) (fd other mask : ℕ) (k : Masks)
    → fd ≢ other
    → put_if_there o fd mask k other ≡ k other
put_if_there_other none fd other mask k ne = refl
put_if_there_other (some old) fd other mask k ne = put_other fd other (some mask) k ne

masks_others :
    (op : Operation) (fd other mask : ℕ) (k : Masks) → fd ≢ other → ctl op fd mask k other ≡ k other
masks_others ctl_add fd other mask k ne = put_if_free_other (k fd) fd other mask k ne
masks_others ctl_mod fd other mask k ne = put_if_there_other (k fd) fd other mask k ne
masks_others ctl_del fd other mask k ne = put_other fd other none k ne

masks-IsEpoll : IsEpoll masks
masks-IsEpoll = record {
  adds = λ fd mask k free.
      ap (λ (o : Option ℕ). put_if_free o fd mask k fd) free ∙ put_same fd (some mask) k;
  exists = λ fd mask old k there. ap (λ (o : Option ℕ). put_if_free o fd mask k) there;
  modifies = λ fd mask old k there.
      ap (λ (o : Option ℕ). put_if_there o fd mask k fd) there ∙ put_same fd (some mask) k;
  deletes = λ fd mask k. put_same fd none k;
  others = masks_others;
}

abbrev poller : EpollPoller Masks
poller = record { epoll = λ fd. none; events_size = 16; channels = [] }

abbrev channel : Channel
channel = record { fd = 3; events = 5; index = negsuc 0; added_to_loop = false }

kernel_follows_example :
    Updates masks masks-IsEpoll channel poller (update_channel masks channel poller)
    × (Reported 3 ((3, 1) ∷ [])
        → Removes masks masks-IsEpoll channel poller
            (remove_channel masks channel (poll masks (Poller.ready ((3, 1) ∷ [])) poller).1))
kernel_follows_example = kernel_follows masks masks-IsEpoll channel ((3, 1) ∷ []) poller refl

abbrev added : Channel
added = record channel { index = pos 0; added_to_loop = true }

-- Descriptor 4 is added, has an event and is removed again.
abbrev others_calls : List Call
others_calls = updates (new_channel 4) ∷ polls (ready ((4, 1) ∷ [])) ∷ removes (new_channel 4) ∷ []

remove_channel_kept_example :
    (let first =
        update_channel masks (record (new_channel 3) { events = 5 }) (new_poller (λ fd. none)) in
      let left = remove_channel masks first.0 (make_all masks others_calls first.1) in
      (masks.watched 3 left.1.epoll ≡ some 5)
      × (left.0.index ≡ negsuc 0)
      × (masks.watched 3 (update_channel masks (record left.0 { events = 1 }) left.1).1.epoll
          ≡ some 5))
remove_channel_kept_example =
    remove_channel_kept masks masks-IsEpoll 3 5 1 others_calls (λ fd. none) refl elsewhere
  where
    elsewhere : All (IsElsewhere 3) others_calls
    elsewhere = omega arith

get_next_loop-turns_example :
    (7 < half → (get_next_loop (after_calls 7 (running 0 3 1))).0 ≡ some (some (1 + 7 % 3)))
    × (7 ≡ half → half % 3 ≢ 0 → (get_next_loop (after_calls 7 (running 0 3 1))).0 ≡ none)
get_next_loop-turns_example = get_next_loop-turns 0 2 1 7

observed_lem_example :
    (cumulatives 0 (observed (70 ∷ 800 ∷ [])).buckets ≡ counts bucket_bounds (70 ∷ 800 ∷ []))
    × ((observed (70 ∷ 800 ∷ [])).sum ≡ total (70 ∷ 800 ∷ []) % word)
    × ((observed (70 ∷ 800 ∷ [])).count ≡ length {A = ℕ} (70 ∷ 800 ∷ []) % word)
observed_lem_example = observed_lem (70 ∷ 800 ∷ [])
