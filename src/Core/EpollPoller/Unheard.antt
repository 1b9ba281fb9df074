-- ===== src/Core/EpollPoller/Unheard.antt =====
-- core/epoll_poller.cpp: a channel that is added and removed again without an event in between.
use lightnet.Common.{
  ◌==◌, Bool-cases, length, pos, negsuc, ℤ, ℕ, ◌≡◌, refl, ap, ◌∙◌, ◌≢◌, inl, inr, false, some, none,
  List, [], ◌∷◌, All, ==→eq,
}
use lightnet.Core.Channel.{Channel, new_channel, ctl_add, ctl_mod, ctl_del}
use lightnet.Core.EpollPoller.{
  holds, erase, insert, fill_active_channels, new_poller, update_channel, remove_channel, poll,
  Epoll, Waited, ready, failed, EpollPoller,
}
use lightnet.Core.EpollPoller.Watching.{Reported, IsEpoll}

-- What an event loop calls.
pub data Call : Type 0 where
  updates : Channel → Call
  removes : Channel → Call
  polls : Waited → Call

-- The call is for another descriptor, or it is a `poll` that reports no event of this one.
abbrev pub IsElsewhere : ℕ → Call → Type 0
IsElsewhere fd (updates ch) = ch.fd ≢ fd
IsElsewhere fd (removes ch) = ch.fd ≢ fd
IsElsewhere fd (polls (ready es)) = ¬ Reported fd es
IsElsewhere fd (polls (failed errno)) = Unit

insert-misses :
    (fd x : ℕ) (xs : List ℕ) → x ≢ fd → holds fd xs ≡ false → holds fd (insert x xs) ≡ false
unfolding holds insert
insert-misses fd x xs ne h = elim (Bool-cases (holds x xs)) [
  | inl here ↦ rw (here, insert) h
  | inr absent ↦ elim (Bool-cases (x == fd)) [
    | inl same ↦ absurd (ne (==→eq x fd same))
    | inr differs ↦ rw (absent, insert) (rw differs h)
  ]
]

fill-misses :
    (fd : ℕ) (es : List (ℕ × ℕ)) (xs : List ℕ)
    → ¬ Reported fd es
    → holds fd xs ≡ false
    → holds fd (fill_active_channels es xs) ≡ false
unfolding fill_active_channels
fill-misses fd [] xs r h = h
fill-misses fd ((x, revents) ∷ rest) xs r h =
    fill-misses fd rest (insert x xs) (λ later. r (inr later))
      (insert-misses fd x xs (λ e. r (inl e)) h)

erase-misses : (fd x : ℕ) (xs : List ℕ) → holds fd xs ≡ false → holds fd (erase x xs) ≡ false
unfolding holds erase
erase-misses fd x [] h = refl
erase-misses fd x (y ∷ ys) h = elim (Bool-cases (y == fd)) [
  | inl same ↦ absurd (cc (rw same at h))
  | inr differs ↦
      let later : holds fd ys ≡ false = rw differs at h in
      elim (Bool-cases (y == x)) [
        | inl drops ↦ rw drops (erase-misses fd x ys later)
        | inr stays ↦ rw (stays, differs) (erase-misses fd x ys later)
      ]
]

module _ {K : Type 0} (E : Epoll K) where
  abbrev pub makes : Call → EpollPoller K → EpollPoller K
  makes (updates ch) p = (update_channel E ch p).1
  makes (removes ch) p = (remove_channel E ch p).1
  makes (polls w) p = (poll E w p).1

  abbrev pub make_all : List Call → EpollPoller K → EpollPoller K
  make_all [] p = p
  make_all (c ∷ cs) p = make_all cs (makes c p)

  -- The kernel watches the descriptor with the mask, and the poller has not heard of it.
  Unheard : ℕ → ℕ → EpollPoller K → Type 0
  Unheard fd mask p = (E.watched fd p.epoll ≡ some mask) × (holds fd p.channels ≡ false)

  module _ (laws : IsEpoll E) where
    update_channel-Unheard :
        (fd mask : ℕ) (ch : Channel) (p : EpollPoller K)
        → ch.fd ≢ fd
        → Unheard fd mask p
        → Unheard fd mask (update_channel E ch p).1
    unfolding update_channel Unheard
    update_channel-Unheard fd mask ch p ne (w, h) = by_index ch.index
      where
        by_index :
            (index : ℤ) → Unheard fd mask (update_channel E (record ch { index = index }) p).1
        by_index (negsuc n) = (laws.others ctl_add ch.fd fd ch.events p.epoll ne ∙ w, h)
        by_index (pos n) = (laws.others ctl_mod ch.fd fd ch.events p.epoll ne ∙ w, h)

    remove_channel-Unheard :
        (fd mask : ℕ) (ch : Channel) (p : EpollPoller K)
        → ch.fd ≢ fd
        → Unheard fd mask p
        → Unheard fd mask (remove_channel E ch p).1
    unfolding remove_channel Unheard
    remove_channel-Unheard fd mask ch p ne (w, h) = elim (Bool-cases (holds ch.fd p.channels)) [
      | inl here ↦
          rw (here, remove_channel)
            (
              laws.others ctl_del ch.fd fd ch.events p.epoll ne ∙ w,
              erase-misses fd ch.fd p.channels h,
            )
      | inr absent ↦ rw (absent, remove_channel) (w, h)
    ]

    poll-Unheard :
        (fd mask : ℕ) (es : List (ℕ × ℕ)) (p : EpollPoller K)
        → ¬ Reported fd es
        → Unheard fd mask p
        → Unheard fd mask (poll E (ready es) p).1
    unfolding poll Unheard
    poll-Unheard fd mask [] p r (w, h) = (w, h)
    poll-Unheard fd mask (e ∷ es) p r (w, h) =
        let missed = fill-misses fd (e ∷ es) p.channels r h in
        elim (Bool-cases (length (e ∷ es) == p.events_size)) [
          | inl full ↦ rw full (w, missed)
          | inr spare ↦ rw spare (w, missed)
        ]

    make_all-Unheard :
        (fd mask : ℕ) (cs : List Call) (p : EpollPoller K)
        → All (IsElsewhere fd) cs
        → Unheard fd mask p
        → Unheard fd mask (make_all cs p)
    unfolding poll
    make_all-Unheard fd mask [] p a u = u
    make_all-Unheard fd mask (c ∷ cs) p (a, as') u =
        make_all-Unheard fd mask cs (makes c p) as' (one c a)
      where
        one : (c : Call) → IsElsewhere fd c → Unheard fd mask (makes c p)
        one (updates ch) ne = update_channel-Unheard fd mask ch p ne u
        one (removes ch) ne = remove_channel-Unheard fd mask ch p ne u
        one (polls (ready es)) r = poll-Unheard fd mask es p r u
        one (polls (failed errno)) r = u

    -- A new channel with the mask `events` is added to a new poller, whose kernel does not watch its
    -- descriptor; other channels are updated and removed and `poll` returns, any number of times, but
    -- no event of the descriptor is reported; and then the channel is removed. The kernel still watches
    -- the descriptor, with the mask, although the channel's index says that it does not; and when the
    -- channel is added again with any other mask, the kernel goes on with the old one.
    pub remove_channel_kept :
        (fd events other_events : ℕ) (calls : List Call) (k : K)
        → E.watched fd k ≡ none
        → All (IsElsewhere fd) calls
        → (let added =
              update_channel E (record (new_channel fd) { events = events }) (new_poller k) in
            let left = remove_channel E added.0 (make_all calls added.1) in
            (E.watched fd left.1.epoll ≡ some events)
            × (left.0.index ≡ negsuc 0)
            × (E.watched fd
                  (update_channel E (record left.0 { events = other_events }) left.1).1.epoll
                ≡ some events))
    unfolding remove_channel update_channel new_poller Unheard holds
    remove_channel_kept fd events other_events calls k free elsewhere =
        let ch : Channel = record (new_channel fd) { events = events } in
        let added = update_channel E ch (new_poller k) in
        let (w, h) =
          make_all-Unheard fd events calls added.1 elsewhere (laws.adds fd events k free, refl) in
        rw h (w, refl, ap (E.watched fd) (laws.exists fd other_events events _ w) ∙ w)
