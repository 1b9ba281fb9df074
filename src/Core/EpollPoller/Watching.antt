-- ===== src/Core/EpollPoller/Watching.antt =====
-- core/epoll_poller.cpp: the mask that the kernel watches for a channel, and what the channel's index
-- says of it.
use lightnet.Common.{
  ◌==◌, ==-refl, Bool-cases, length, ℤ, pos, negsuc, ℕ, ◌≡◌, refl, sym, subst, ◌≢◌, ◌⊎◌, inl, inr,
  Bool, true, none, some, List, [], ◌∷◌,
}
use lightnet.Core.Channel.{Channel, Operation, ctl_add, ctl_mod, ctl_del}
use lightnet.Core.EpollPoller.{
  holds, insert, fill_active_channels, update_channel, remove_channel, poll, Epoll, ready,
  EpollPoller,
}

-- epoll_ctl(2): EPOLL_CTL_ADD fails for a descriptor that is there already and EPOLL_CTL_MOD for one
-- that is not, without any effect; the other descriptors are left alone.
pub record IsEpoll {K : Type 0} (E : Epoll K) : Type 0 where
  pub adds :
      (fd mask : ℕ) (k : K)
      → E.watched fd k ≡ none
      → E.watched fd (E.epoll_ctl ctl_add fd mask k) ≡ some mask
  pub exists :
      (fd mask old : ℕ) (k : K) → E.watched fd k ≡ some old → E.epoll_ctl ctl_add fd mask k ≡ k
  pub modifies :
      (fd mask old : ℕ) (k : K)
      → E.watched fd k ≡ some old
      → E.watched fd (E.epoll_ctl ctl_mod fd mask k) ≡ some mask
  pub deletes : (fd mask : ℕ) (k : K) → E.watched fd (E.epoll_ctl ctl_del fd mask k) ≡ none
  pub others :
      (op : Operation) (fd other mask : ℕ) (k : K)
      → fd ≢ other
      → E.watched other (E.epoll_ctl op fd mask k) ≡ E.watched other k

holds-insert : (fd : ℕ) (xs : List ℕ) → holds fd (insert fd xs) ≡ true
unfolding holds insert
holds-insert fd xs = elim (Bool-cases (holds fd xs)) [
  | inl here ↦ rw (here, insert) here
  | inr absent ↦ rw (absent, insert, ==-refl fd, holds) refl
]

holds-insert_other :
    (fd other : ℕ) (xs : List ℕ) → holds other xs ≡ true → holds other (insert fd xs) ≡ true
unfolding holds insert
holds-insert_other fd other xs h = elim (Bool-cases (holds fd xs)) [
  | inl here ↦ rw (here, insert) h
  | inr absent ↦ elim (Bool-cases (fd == other)) [
    | inl same ↦ rw (absent, insert) (rw same refl)
    | inr differs ↦ rw (absent, insert) (rw differs h)
  ]
]

-- A descriptor that an event has been reported for.
abbrev pub Reported : ℕ → List (ℕ × ℕ) → Type 0
Reported fd [] = ⊥
Reported fd ((x, revents) ∷ rest) = (x ≡ fd) ⊎ Reported fd rest

fill-keeps :
    (fd : ℕ) (es : List (ℕ × ℕ)) (xs : List ℕ)
    → holds fd xs ≡ true
    → holds fd (fill_active_channels es xs) ≡ true
unfolding fill_active_channels
fill-keeps fd [] xs h = h
fill-keeps fd ((x, revents) ∷ rest) xs h =
    fill-keeps fd rest (insert x xs) (holds-insert_other x fd xs h)

fill-holds :
    (fd : ℕ) (es : List (ℕ × ℕ)) (xs : List ℕ)
    → Reported fd es
    → holds fd (fill_active_channels es xs) ≡ true
unfolding fill_active_channels
fill-holds fd [] xs r = absurd r
fill-holds fd ((x, revents) ∷ rest) xs (inl e) =
    fill-keeps fd rest (insert x xs)
      (subst (λ (y : ℕ). holds fd (insert y xs) ≡ true) (sym e) (holds-insert fd xs))
fill-holds fd ((x, revents) ∷ rest) xs (inr r) = fill-holds fd rest (insert x xs) r

module _ {K : Type 0} (E : Epoll K) where
  -- The index tells whether the kernel watches the descriptor.
  abbrev InStep : Channel → EpollPoller K → Type 0
  InStep ch p = elim ch.index [
    | negsuc n ↦ E.watched ch.fd p.epoll ≡ none
    | pos n ↦ (mask : ℕ) × (E.watched ch.fd p.epoll ≡ some mask)
  ]

  module _ (laws : IsEpoll E) where
    at_index :
        (fd events : ℕ) (added : Bool) (index : ℤ) (p : EpollPoller K)
        → (let ch : Channel = record {
          fd = fd;
          events = events;
          index = index;
          added_to_loop = added;
        } in
            InStep ch p
            → InStep (update_channel E ch p).0 (update_channel E ch p).1
              × (E.watched fd (update_channel E ch p).1.epoll ≡ some events)
              × ((other : ℕ)
                  → fd ≢ other
                  → E.watched other (update_channel E ch p).1.epoll ≡ E.watched other p.epoll))
    unfolding update_channel
    at_index fd events added (negsuc n) p free =
        let e = laws.adds fd events p.epoll free in
        ((events, e), e, λ other ne. laws.others ctl_add fd other events p.epoll ne)
    at_index fd events added (pos n) p (old, there) =
        let e = laws.modifies fd events old p.epoll there in
        ((events, e), e, λ other ne. laws.others ctl_mod fd other events p.epoll ne)

    -- What `update_channel` comes to.
    abbrev pub Updates : Channel → EpollPoller K → Channel × EpollPoller K → Type 0
    Updates ch p (ch', p') =
        InStep ch' p'
        × (E.watched ch.fd p'.epoll ≡ some ch.events)
        × ((other : ℕ) → ch.fd ≢ other → E.watched other p'.epoll ≡ E.watched other p.epoll)

    -- What `remove_channel` comes to.
    abbrev pub Removes : Channel → EpollPoller K → Channel × EpollPoller K → Type 0
    Removes ch p (ch', p') =
        InStep ch' p'
        × (E.watched ch.fd p'.epoll ≡ none)
        × ((other : ℕ) → ch.fd ≢ other → E.watched other p'.epoll ≡ E.watched other p.epoll)

    drops_seen :
        (ch : Channel) (events : List (ℕ × ℕ)) (p : EpollPoller K)
        → Reported ch.fd events
        → Removes ch p (remove_channel E ch (poll E (ready events) p).1)
    unfolding poll remove_channel
    drops_seen ch [] p r = absurd r
    drops_seen ch (e ∷ es) p r =
        let here = fill-holds ch.fd (e ∷ es) p.channels r in
        let gone = laws.deletes ch.fd ch.events p.epoll in
        elim (Bool-cases (length (e ∷ es) == p.events_size)) [
          | inl full ↦
              rw (full, here)
                (gone, gone, λ other ne. laws.others ctl_del ch.fd other ch.events p.epoll ne)
          | inr spare ↦
              rw (spare, here)
                (gone, gone, λ other ne. laws.others ctl_del ch.fd other ch.events p.epoll ne)
        ]

    -- When the index of a channel tells rightly whether the kernel watches its descriptor,
    -- `update_channel` makes the kernel watch exactly the channel's mask; and after `poll` has
    -- reported an event of the descriptor, `remove_channel` makes the kernel stop watching it. In both
    -- cases the index is right again, and the other descriptors are watched as before.
    pub kernel_follows :
        (ch : Channel) (events : List (ℕ × ℕ)) (p : EpollPoller K)
        → InStep ch p
        → Updates ch p (update_channel E ch p)
          × (Reported ch.fd events → Removes ch p (remove_channel E ch (poll E (ready events) p).1))
    kernel_follows ch events p i =
        (at_index ch.fd ch.events ch.added_to_loop ch.index p i, drops_seen ch events p)
