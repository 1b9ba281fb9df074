-- ===== src/Core/Channel.antt =====
-- core/channel.h and core/channel.cpp: a file descriptor's events of interest, and the order in which
-- the ready events are given to the callbacks. A mask is a number; its bits are tested, set and
-- cleared by arithmetic. `update` and `remove` go through the loop to core/epoll_poller.cpp.
use lightnet.Common.{
  ℕ, ◌+◌, ◌-◌, ◌/◌, ◌%◌, ◌≡◌, Bool, true, false, not, ◌&&◌, ◌||◌, ◌==◌, if◌then◌else◌, Option, none,
  some, ◌>>=◌, ℤ, pos, negsuc, arith,
}

-- The bit of value `b`, a power of two, in a mask: `mask & b`, `mask | b` and `mask & ~b`.
abbrev pub has : ℕ → ℕ → Bool
has b mask = (mask / b) % 2 == 1

abbrev with_bit : ℕ → ℕ → ℕ
with_bit b mask = if has b mask then mask else mask + b

abbrev without_bit : ℕ → ℕ → ℕ
without_bit b mask = if has b mask then mask - b else mask

-- <sys/epoll.h>.
abbrev pub epollin : ℕ
epollin = 1

abbrev pub epollpri : ℕ
epollpri = 2

abbrev pub epollout : ℕ
epollout = 4

abbrev pub epollerr : ℕ
epollerr = 8

abbrev pub epollhup : ℕ
epollhup = 16

abbrev pub epollrdhup : ℕ
epollrdhup = 8192

abbrev pub none_event : ℕ
none_event = 0

abbrev pub read_event : ℕ
read_event = 1

abbrev write_event : ℕ
write_event = 4

-- `added_to_loop` is what the destructor asserts to be false.
pub record Channel : Type 0 where
  pub fd : ℕ
  pub events : ℕ
  pub index : ℤ
  pub added_to_loop : Bool

abbrev pub new_channel : ℕ → Channel
new_channel fd = record { fd = fd; events = 0; index = negsuc 0; added_to_loop = false }

abbrev pub is_writing : Channel → Bool
is_writing ch = has write_event ch.events

abbrev pub is_reading : Channel → Bool
is_reading ch = has read_event ch.events

-- EPOLL_CTL_ADD, EPOLL_CTL_MOD and EPOLL_CTL_DEL.
pub data Operation : Type 0 where
  ctl_add : Operation
  ctl_mod : Operation
  ctl_del : Operation

-- The call of `epoll_ctl` in `update_channel`, and the channel behind it.
unfoldable pub update_operation : Channel → Operation
update_operation ch = elim ch.index [ negsuc n ↦ ctl_add | pos n ↦ ctl_mod ]

unfoldable pub updated : Channel → Channel
updated ch = record ch {
  index = elim ch.index [ negsuc n ↦ pos 0 | pos n ↦ pos n ];
  added_to_loop = true;
}

unfoldable pub enable_reading : Channel → Channel
enable_reading ch = record ch { events = with_bit read_event ch.events }

unfoldable disable_reading : Channel → Channel
disable_reading ch = record ch { events = without_bit read_event ch.events }

unfoldable pub enable_writing : Channel → Channel
enable_writing ch = record ch { events = with_bit write_event ch.events }

unfoldable pub disable_writing : Channel → Channel
disable_writing ch = record ch { events = without_bit write_event ch.events }

unfoldable pub disable_all : Channel → Channel
disable_all ch = record ch { events = none_event }

-- The callbacks as actions on the state `S` of what they belong to; an action may overrun a buffer.
pub record EventCallbacks (S : Type 0) : Type 0 where
  pub read_callback : Option (S → Option S)
  pub write_callback : Option (S → Option S)
  pub close_callback : Option (S → Option S)
  pub error_callback : Option (S → Option S)

-- `if (callback) callback();`.
unfoldable pub call : {S : Type 0} → Option (S → Option S) → S → Option S
call none s = some s
call (some f) s = f s

-- `if (test && callback) callback();`.
unfoldable pub call_if : {S : Type 0} → Bool → Option (S → Option S) → S → Option S
call_if true f s = call f s
call_if false f s = some s

unfoldable pub handle_event : {S : Type 0} → EventCallbacks S → ℕ → S → Option S
handle_event k revents s = do
  closed ← call_if (has epollhup revents && not (has epollin revents)) k.close_callback s
  failed ← call_if (has epollerr revents) k.error_callback closed
  read ←
      call_if (has epollin revents || has epollpri revents || has epollrdhup revents)
        k.read_callback failed
  call_if (has epollout revents) k.write_callback read

pub is_writing-enable_writing : (ch : Channel) → is_writing (enable_writing ch) ≡ true
unfolding enable_writing
is_writing-enable_writing ch = ground arith

pub is_writing-disable_writing : (ch : Channel) → is_writing (disable_writing ch) ≡ false
unfolding disable_writing
is_writing-disable_writing ch = ground arith

pub is_writing-enable_reading : (ch : Channel) → is_writing (enable_reading ch) ≡ is_writing ch
unfolding enable_reading
is_writing-enable_reading ch = ground arith
