-- ===== src/Coro/Awaitable.antt =====
-- coro/awaitable.h and coro/scheduler.cpp: the three awaitables, each in its parts: whether it is ready,
-- what suspending does with the coroutine's handle, and what resuming returns. A handle is resumed
-- by a task that is queued in the loop; coroutines run in the loop's own thread.
pub mod Wakes
use lightnet.Common.{
  ltb, leb, ◌==◌, if◌then◌else◌, ltb→lt, lt→ltb, le→ltb, le→leb, lt→leb, ltb→ge, leb→le, leb→gt,
  ==→eq, ==→ne, eq→==, ==-refl, Bool-cases, Option-cases, some_pair-fst, some_pair-snd, bytes_eq,
  bytes_eq_refl, bytes_eq→eq, ◌>>=◌, ◌>>◌, guard, >>=-eq-some, guard-eq-some, >>=-elim, eq_of_some,
  length, take, drop, replicate, get_or, All, length-append, length-take, length-drop,
  length-replicate, take-append-drop, take_all, drop_all, drop-nil, take-append_le, drop-append_le,
  take-append_ge, drop-append_ge, take_front, drop_front, drop-drop, drop-take, length-map,
  take_first, drop_first, get_or-append, to_signed, to_unsigned, InRange, to_signed-to_unsigned,
  to_unsigned-lt, codes, IsByte, le_bytes, of_le, length-le_bytes, le_bytes-IsByte, of_le-le_bytes,
  ℤ, pos, negsuc, ℕ, zero, suc, ◌+◌, ◌-◌, ◌*◌, ◌/◌, ◌%◌, ◌^◌, ◌≤◌, ◌<◌, min, max, ◌≡◌, refl, sym,
  ap, ◌∙◌, subst, ◌≢◌, ◌↔◌, ◌⊎◌, inl, inr, Bool, true, false, not, ◌&&◌, ◌||◌, Option, none, some,
  List, [], ◌∷◌, ◌++◌, map, append_assoc, append-nil, arith,
}
use lightnet.Buffer.{readable_bytes}
use lightnet.Timer.{TimerWheel, add_timer}
use lightnet.Net.Connection.{
  create, Callback, eagain, is_connected, is_connecting, is_disconnecting, emit, set_channel,
  set_state, waiting, wake_writer, shutdown_if, shutdown_in_loop, shutdown, handle_close,
  handle_error, connect_established, deliver, read_into, handle_read, take_written, write_finished,
  after_write, write_failed, handle_write, buffer_rest, sent_directly, send_in_loop, send,
  force_close, read_some, write_some, channel_callbacks, run_task, connect_destroyed,
  resume_read_coro, resume_write_coro, ConnectionState, connecting, connected, disconnecting,
  disconnected, Task, send_task, shutdown_task, close_task, resume_task, Event, requested, wrote,
  refused, received, counted_read, counted_written, controlled, shut_down, closing, queued, Written,
  sent, rejected, Kernel, TcpConnection, Callbacks,
}

-- `AsyncRead`.
unfoldable read_ready : ℕ → TcpConnection → Bool
read_ready hint c = leb hint (readable_bytes c.input_buffer)

unfoldable pub read_suspend : ℕ → TcpConnection → TcpConnection
read_suspend h c =
    if ltb 0 (readable_bytes c.input_buffer)
    then emit (queued (resume_task h)) c
    else resume_read_coro h c

-- `AsyncSleep`; the callback of the timer is `schedule_coro` for the handle.
unfoldable sleep_ready : ℕ → Bool
sleep_ready ms = ms == 0

unfoldable sleep_suspend : ℕ → ℕ → ℕ → TimerWheel → TimerWheel
sleep_suspend now ms h w = (add_timer w now ms (some h) false).0

module _ (kernel : Kernel) (k : Callbacks) where
  unfoldable read_resume : TcpConnection → Option (ℤ × TcpConnection)
  read_resume c = read_some kernel k c

  -- `AsyncWrite` is never ready.
  unfoldable write_suspend : ℕ → List ℕ → TcpConnection → Option TcpConnection
  write_suspend h bytes c = do
    c' ← send kernel k true bytes c
    some (
        if readable_bytes c'.output_buffer == 0
        then emit (queued (resume_task h)) c'
        else resume_write_coro h c')
