-- ===== src/Net/Connection/Closing.antt =====
-- net/tcp_connection.cpp: the graceful close, which lets the output buffer run empty first, and what
-- hanging up with an error does.
use lightnet.Common.{
  ltb, le→ltb, eq→==, Bool-cases, Option-cases, length, take, drop_all, ℕ, ◌≡◌, refl, sym, ap, ◌∙◌,
  ◌⊎◌, inl, inr, Bool, true, false, ◌||◌, none, some, List, [], ◌∷◌, ◌++◌, append-nil, arith,
}
use lightnet.Buffer.{Buffer, peek, readable_bytes}
use lightnet.Buffer.Space.{IsValid, length-peek}
use lightnet.Buffer.Take.{retrieve_lem}
use lightnet.Core.Channel.{
  is_writing, update_operation, updated, disable_writing, call, is_writing-disable_writing, Channel,
}
use lightnet.Net.Connection.{
  is_disconnecting, emit, set_channel, waiting, wake_writer, shutdown_if, shutdown_in_loop,
  take_written, write_finished, after_write, handle_write, disconnecting, resume_task, Event, wrote,
  counted_written, controlled, shut_down, queued, sent, Kernel, TcpConnection, Callbacks,
}
use lightnet.Net.Connection.Log.{
  closes, requests, writes, closed, closed-snoc, set_channel-Inv, Owes, Inv,
}
use lightnet.Net.Connection.Writing.{take_written-Owes}
use lightnet.Net.Connection.Invariant.{peek-empty, wake_writer-Inv, Keep}

-- All bytes that were to be sent have been written.
abbrev pub IsFlushed : List Event → Type 0
IsFlushed log = writes log ≡ requests log

Owes-empty :
    (log : List Event) (buf : Buffer)
    → Owes [] log buf
    → closed log ≡ false
    → readable_bytes buf ≡ 0
    → IsFlushed log
Owes-empty log buf i up empty =
    sym (append-nil (writes log))
    ∙ ap (λ (l : List ℕ). writes log ++ (l ++ [])) (sym (peek-empty buf i.valid empty))
    ∙ i.in_order up

-- What the task of `shutdown` does: the writing side is closed, and all has been written; or write
-- events are watched, and nothing happens but the change of state.
abbrev ShutsDown : TcpConnection → TcpConnection → Type 0
ShutsDown c c' =
    ((c'.log ≡ c.log ++ (shut_down ∷ [])) × IsFlushed c.log)
    ⊎ ((c'.log ≡ c.log) × (is_writing c'.channel ≡ true))

-- Of a connection that keeps the invariant and that `handle_close` has not closed, the task of
-- `shutdown` closes the writing side only when all the bytes that were to be sent have been
-- written, and otherwise leaves write events watched; the state is `disconnecting` either way.
shutdown_in_loop_lem :
    (c : TcpConnection)
    → Inv c
    → closed c.log ≡ false
    → ((shutdown_in_loop c).state ≡ disconnecting) × ShutsDown c (shutdown_in_loop c)
unfolding shutdown_in_loop shutdown_if
shutdown_in_loop_lem c i up = elim (Bool-cases (is_writing c.channel)) [
  | inl on ↦ rw (on, shutdown_in_loop, shutdown_if) (refl, inr (refl, on))
  | inr off ↦
      rw (off, shutdown_in_loop, shutdown_if)
        (
          refl,
          inl (
            refl,
            Owes-empty c.log c.output_buffer i.content up
                (zero (readable_bytes c.output_buffer) (sym (i.watched up) ∙ off)),
          ),
        )
]
  where
    zero : (n : ℕ) → ltb 0 n ≡ false → n ≡ 0
    zero n h = ground arith

-- Setting the write coroutine aside changes nothing else.
wake_writer_lem :
    (c : TcpConnection)
    → (is_disconnecting (wake_writer c) ≡ is_disconnecting c)
      × ((wake_writer c).channel ≡ c.channel)
      × ((wake_writer c).output_buffer ≡ c.output_buffer)
      × (closed (wake_writer c).log ≡ closed c.log)
unfolding wake_writer is_disconnecting
wake_writer_lem c = elim (Option-cases (waiting c.write_coro_pending c.write_coro)) [
  | inl nobody ↦ rw (nobody, wake_writer) (refl, refl, refl, refl)
  | inr (h, some_h) ↦
      rw (some_h, wake_writer)
        (refl, refl, refl, closed-snoc c.log (queued (resume_task h)) ∙ or_false (closed c.log))
]
  where
    or_false : (a : Bool) → (a || false) ≡ a
    or_false true = refl
    or_false false = refl

open_snoc :
    (log : List Event) (e : Event)
    → closed log ≡ false
    → closes e ≡ false
    → closed (log ++ (e ∷ [])) ≡ false
open_snoc log e up quiet = closed-snoc log e ∙ both (closed log) (closes e) up quiet
  where
    both : (a b : Bool) → a ≡ false → b ≡ false → (a || b) ≡ false
    both false b h k = k
    both true b h k = absurd (cc h)

module _ (kernel : Kernel) (k : Callbacks) (keep : Keep k) where
  -- The rest has been written.
  abbrev drained : TcpConnection → ℕ → TcpConnection
  drained c n = take_written kernel k n c

  drained-empty :
      (c : TcpConnection)
      → IsValid c.output_buffer
      → readable_bytes (drained c (readable_bytes c.output_buffer)).output_buffer ≡ 0
  unfolding take_written
  drained-empty c v =
      let (v', p) = retrieve_lem c.output_buffer (readable_bytes c.output_buffer) v in
      sym (length-peek _ v')
      ∙ ap length (
          p
          ∙ drop_all (readable_bytes c.output_buffer) (peek c.output_buffer)
              (omega (arith, length-peek c.output_buffer v)))

  drained-open :
      (c : TcpConnection) (n : ℕ) → closed c.log ≡ false → closed (drained c n).log ≡ false
  unfolding take_written
  drained-open c n up =
      open_snoc (c.log ++ (wrote (take n (peek c.output_buffer)) ∷ [])) (counted_written n)
        (open_snoc c.log (wrote (take n (peek c.output_buffer))) up refl) refl

  abbrev unwatched : TcpConnection → TcpConnection
  unwatched c = wake_writer (set_channel (disable_writing c.channel) c)

  set_channel-keeps :
      (ch : Channel) (c : TcpConnection)
      → (is_disconnecting (set_channel ch c) ≡ is_disconnecting c)
        × (is_writing (set_channel ch c).channel ≡ is_writing ch)
        × (closed c.log ≡ false → closed (set_channel ch c).log ≡ false)
  unfolding set_channel is_disconnecting updated
  set_channel-keeps ch c =
      (refl, refl, λ up. open_snoc c.log (controlled (update_operation ch) ch.events) up refl)

  write_finished_lem :
      (c : TcpConnection)
      → k.write_complete_callback ≡ none
      → is_disconnecting c ≡ true
      → write_finished kernel k c ≡ some (emit shut_down (unwatched c))
  unfolding write_finished call shutdown_if
  write_finished_lem c silent going =
      let d : TcpConnection = set_channel (disable_writing c.channel) c in
      let still : is_disconnecting (wake_writer d) ≡ true =
        (wake_writer_lem d).0 ∙ (set_channel-keeps (disable_writing c.channel) c).0 ∙ going in
      rw (silent, write_finished, call) (rw (still, shutdown_if) refl)

  write_drained :
      (c : TcpConnection) (errno : ℕ)
      → IsValid c.output_buffer
      → is_writing c.channel ≡ true
      → ltb 0 (readable_bytes c.output_buffer) ≡ true
      → kernel.write c.log (peek c.output_buffer) ≡ sent (readable_bytes c.output_buffer) errno
      → handle_write kernel k c
        ≡ write_finished kernel k (drained c (readable_bytes c.output_buffer))
  unfolding handle_write after_write
  write_drained c errno v on full e =
      let n : ℕ = readable_bytes c.output_buffer in
      rw (on, e, full, handle_write, after_write)
        (rw (eq→== _ 0 (drained-empty c v), after_write) refl)

  unwatched-Inv :
      (c : TcpConnection)
      → Owes [] c.log c.output_buffer
      → readable_bytes c.output_buffer ≡ 0
      → Inv (unwatched c)
  unwatched-Inv c i empty = wake_writer-Inv (set_channel (disable_writing c.channel) c) (
      set_channel-Inv (disable_writing c.channel) c i
        (λ up. is_writing-disable_writing c.channel ∙ sym (le→ltb _ _ (omega (arith, empty)))))

  unwatched-IsFlushed :
      (c : TcpConnection)
      → Owes [] c.log c.output_buffer
      → readable_bytes c.output_buffer ≡ 0
      → closed c.log ≡ false
      → IsFlushed (unwatched c).log
  unfolding set_channel
  unwatched-IsFlushed c i empty up =
      let d : TcpConnection = set_channel (disable_writing c.channel) c in
      let (s, ch, out, cl) = wake_writer_lem d in
      Owes-empty (unwatched c).log (unwatched c).output_buffer (unwatched-Inv c i empty).content
        (cl ∙ (set_channel-keeps (disable_writing c.channel) c).2 up)
        (ap readable_bytes out ∙ empty)

  -- A connection that keeps the invariant, is being shut down, and still has bytes in its output
  -- buffer: when the kernel takes all of them and no callback is set for it, `handle_write` returns,
  -- its last act is to close the writing side, before which all bytes that were to be sent have been
  -- written, and write events are no longer watched.
  pub handle_write-shuts_down :
      (c : TcpConnection) (errno : ℕ)
      → Inv c
      → closed c.log ≡ false
      → is_disconnecting c ≡ true
      → k.write_complete_callback ≡ none
      → ltb 0 (readable_bytes c.output_buffer) ≡ true
      → kernel.write c.log (peek c.output_buffer) ≡ sent (readable_bytes c.output_buffer) errno
      → (before : TcpConnection) × (handle_write kernel k c ≡ some (emit shut_down before))
        × IsFlushed before.log
        × (is_writing before.channel ≡ false)
  unfolding take_written is_disconnecting
  handle_write-shuts_down c errno i up going silent full e =
      let n : ℕ = readable_bytes c.output_buffer in
      let d : TcpConnection = drained c n in
      let empty = drained-empty c i.content.valid in
      let w : TcpConnection = set_channel (disable_writing d.channel) d in
      (
        unwatched d,
        write_drained c errno i.content.valid (i.watched up ∙ full) full e
            ∙ write_finished_lem d silent going,
        unwatched-IsFlushed d (take_written-Owes kernel k keep n c i.content) empty
            (drained-open c n up),
        ap is_writing (wake_writer_lem w).1
            ∙ (set_channel-keeps (disable_writing d.channel) d).1
            ∙ is_writing-disable_writing d.channel,
      )
