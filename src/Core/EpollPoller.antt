-- ===== src/Core/EpollPoller.antt =====
-- core/epoll_poller.h and core/epoll_poller.cpp: the poller over epoll. The kernel's side is a parameter:
-- a state, what `epoll_ctl` makes of it, and the mask that it watches for a descriptor. A channel is
-- named by its descriptor, and the poller's map from descriptors to channels is the list of them.
pub mod Watching
pub mod Unheard
use lightnet.Common.{
  ltb, leb, ◌==◌, if◌then◌else◌, ltb→lt, lt→ltb, le→ltb, le→leb, lt→leb, ltb→ge, leb→le, leb→gt,
  ==→eq, ==→ne, eq→==, ==-refl, Bool-cases, Option-cases, some_pair-fst, some_pair-snd, bytes_eq,
  bytes_eq_refl, bytes_eq→eq, ◌>>=◌, ◌>>◌, guard, >>=-eq-some, guard-eq-some, >>=-elim, eq_of_some,
  length, take, drop, replicate, get_or, All, length-append, length-take, length-drop,
  length-replicate, take-append-drop, take_all, drop_all, drop-nil, take-append_le, drop-append_le,
  take-append_ge, drop-append_ge, take_front, drop_front, drop-drop, drop-take, length-map,
  take_first, drop_first, get_or-append, to_signed, to_unsigned, InRange, to_signed-to_unsigned,
  to_unsigned-lt, codes, IsByte, le_bytes, of_le, length-le_bytes, le_bytes-IsByte, of_le-le_bytes,
  ℤ, pos, negsuc, ℕ, zero, suc, ◌+◌, ◌-◌, ◌*◌, ◌/◌, ◌%◌, ◌^◌, ◌≤◌, ◌<◌, min, max, ◌≡◌, refl, sym,
  ap, ◌∙◌, subst, ◌≢◌, ◌↔◌, ◌⊎◌, inl, inr, Bool, true, false, not, ◌&&◌, ◌||◌, Option, none, some,
  List, [], ◌∷◌, ◌++◌, map, append_assoc, append-nil, arith,
}
use lightnet.Core.Channel.{Channel, Operation, ctl_add, ctl_mod, ctl_del, update_operation}

pub record Epoll (K : Type 0) : Type 0 where
  pub epoll_ctl : Operation → ℕ → ℕ → K → K
  pub watched : ℕ → K → Option ℕ

-- What `epoll_wait` returned: the ready descriptors with their events, or -1 with `errno`.
pub data Waited : Type 0 where
  ready : List (ℕ × ℕ) → Waited
  failed : ℕ → Waited

abbrev pub init_event_list_size : ℕ
init_event_list_size = 16

pub record EpollPoller (K : Type 0) : Type 0 where
  pub epoll : K
  pub events_size : ℕ
  pub channels : List ℕ

unfoldable pub holds : ℕ → List ℕ → Bool
holds fd [] = false
holds fd (x ∷ xs) = let rest = holds fd xs in if x == fd then true else rest

unfoldable pub erase : ℕ → List ℕ → List ℕ
erase fd [] = []
erase fd (x ∷ xs) = let rest = erase fd xs in if x == fd then rest else x ∷ rest

-- `channels_[fd] = ch`.
unfoldable pub insert : ℕ → List ℕ → List ℕ
insert fd xs = if holds fd xs then xs else fd ∷ xs

unfoldable pub fill_active_channels : List (ℕ × ℕ) → List ℕ → List ℕ
fill_active_channels [] channels = channels
fill_active_channels ((fd, revents) ∷ rest) channels =
    fill_active_channels rest (insert fd channels)

-- The constructor, behind `epoll_create1`.
unfoldable pub new_poller : {K : Type 0} → K → EpollPoller K
new_poller k = record { epoll = k; events_size = init_event_list_size; channels = [] }

module _ {K : Type 0} (E : Epoll K) where
  abbrev pub update : Operation → Channel → EpollPoller K → EpollPoller K
  update op ch p = record p { epoll = E.epoll_ctl op ch.fd ch.events p.epoll }

  -- The channel's index comes back with it.
  unfoldable pub update_channel : Channel → EpollPoller K → Channel × EpollPoller K
  update_channel ch p = elim ch.index [
    | negsuc n ↦ (record ch { index = pos 0 }, update ctl_add ch p)
    | pos n ↦ (ch, update ctl_mod ch p)
  ]

  unfoldable pub remove_channel : Channel → EpollPoller K → Channel × EpollPoller K
  remove_channel ch p =
      let gone = record ch { index = negsuc 0 } in
      if holds ch.fd p.channels
      then (gone, record (update ctl_del ch p) { channels = erase ch.fd p.channels })
      else (gone, p)

  -- The active channels with their events; the list of events is doubled when it was filled.
  unfoldable pub poll : Waited → EpollPoller K → List (ℕ × ℕ) × EpollPoller K
  poll (ready []) p = ([], p)
  poll (ready (e ∷ es)) p =
      let p' = record p { channels = fill_active_channels (e ∷ es) p.channels } in
      (
        e ∷ es,
        if length (e ∷ es) == p.events_size
            then record p' { events_size = p.events_size * 2 }
            else p',
      )
  poll (failed errno) p = ([], p)
