-- ===== src/Net/Connection/Steps.antt =====
-- net/tcp_connection.cpp: the life of a connection as a sequence of steps: ready events, calls of its
-- operations in the loop's thread and in others, queued closures, and the use of its input buffer.
use lightnet.Common.{
  ltb, Bool-cases, Option-cases, ℤ, ℕ, ◌≡◌, refl, sym, ◌∙◌, subst, inl, inr, Bool, true, false, not,
  ◌&&◌, ◌||◌, Option, none, some, List, [], ◌∷◌, arith,
}
use lightnet.Buffer.{Buffer, peek, new, readable_bytes, read_room, got, failed, Readv}
use lightnet.Core.Channel.{
  is_writing, is_reading, enable_reading, enable_writing, call, call_if, handle_event,
  is_writing-enable_writing, is_writing-enable_reading,
}
use lightnet.Net.Connection.{
  create, is_connected, is_connecting, shutdown, handle_close, handle_error, connect_established,
  read_into, handle_read, handle_write, send, force_close, read_some, channel_callbacks, run_task,
  connect_destroyed, resume_read_coro, resume_write_coro, Task, send_task, shutdown_task,
  close_task, resume_task, refused, received, queued, Kernel, TcpConnection, Callbacks,
}
use lightnet.Net.Connection.Log.{requests, writes, Post, >>=-Post, emit-Inv, set_channel-Inv, Inv}
use lightnet.Net.Connection.Invariant.{
  Keeps, shutdown_in_loop-Inv, handle_close-Post, handle_error-Post, connect_established-Post,
  read_into-Post, handle_read-Post, Keep,
}
use lightnet.Net.Connection.Sending.{send_in_loop-Post}
use lightnet.Net.Connection.Writing.{handle_write-Post}

module _ (kernel : Kernel) (k : Callbacks) where
  pub data Step : TcpConnection → TcpConnection → Type 0 where
    ready :
        (revents : ℕ) (c c' : TcpConnection)
        → handle_event (channel_callbacks kernel k) revents c ≡ some c'
        → Step c c'
    sends :
        (in_loop : Bool) (bytes : List ℕ) (c c' : TcpConnection)
        → send kernel k in_loop bytes c ≡ some c'
        → Step c c'
    closes_down : (in_loop : Bool) (c : TcpConnection) → Step c (shutdown in_loop c)
    forces :
        (in_loop : Bool) (c c' : TcpConnection)
        → force_close kernel k in_loop c ≡ some c'
        → Step c c'
    establishes : (c c' : TcpConnection) → connect_established kernel k c ≡ some c' → Step c c'
    destroys : (c : TcpConnection) → Step c (connect_destroyed c)
    runs : (t : Task) (c c' : TcpConnection) → run_task kernel k t c ≡ some c' → Step c c'
    reads : (n : ℤ) (c c' : TcpConnection) → read_some kernel k c ≡ some (n, c') → Step c c'
    awaits_read : (h : ℕ) (c : TcpConnection) → Step c (resume_read_coro h c)
    awaits_write : (h : ℕ) (c : TcpConnection) → Step c (resume_write_coro h c)
    consumes : (buf : Buffer) (c : TcpConnection) → Step c (record c { input_buffer = buf })

  -- What is reached from a new connection.
  pub data Reachable (fd conn_id : ℕ) : TcpConnection → Type 0 where
    created : Reachable fd conn_id (create fd conn_id)
    further : (c c' : TcpConnection) → Reachable fd conn_id c → Step c c' → Reachable fd conn_id c'

  create-Inv : (fd conn_id : ℕ) → Inv (create fd conn_id)
  unfolding create new peek requests writes
  create-Inv fd conn_id = record {
    content = record { valid = omega arith; in_order = λ up. refl };
    watched = λ up. refl;
  }

  -- An operation that does not touch the output.
  call_if-Post :
      (b : Bool) (f : Option (TcpConnection → Option TcpConnection)) (c : TcpConnection)
      → Keeps f
      → Inv c
      → Post (call_if b f c)
  unfolding call_if
  call_if-Post true f c keeps i = keeps c i
  call_if-Post false f c keeps i = i

  resume_read_coro-Inv : (h : ℕ) (c : TcpConnection) → Inv c → Inv (resume_read_coro h c)
  unfolding resume_read_coro
  resume_read_coro-Inv h c i =
      let c' : TcpConnection = record c { read_coro = some h; read_coro_pending = true } in
      elim (Bool-cases (is_reading c.channel)) [
        | inl on ↦ rw (on, resume_read_coro) (record { content = i.content; watched = i.watched })
        | inr off ↦
            rw (off, resume_read_coro)
              (set_channel-Inv (enable_reading c.channel) c' i.content
                (λ up. is_writing-enable_reading c.channel ∙ i.watched up))
      ]

  resume_write_coro-Inv : (h : ℕ) (c : TcpConnection) → Inv c → Inv (resume_write_coro h c)
  unfolding resume_write_coro
  resume_write_coro-Inv h c i =
      let c' : TcpConnection = record c { write_coro = some h; write_coro_pending = true } in
      elim (Bool-cases (not (is_writing c.channel) && ltb 0 (readable_bytes c.output_buffer))) [
        | inr off ↦
            rw (off, resume_write_coro) (record { content = i.content; watched = i.watched })
        | inl on ↦
            rw (on, resume_write_coro)
              (set_channel-Inv (enable_writing c.channel) c' i.content
                (λ up. is_writing-enable_writing c.channel ∙ sym (second _ _ on)))
      ]
    where
      second : (a b : Bool) → (a && b) ≡ true → b ≡ true
      second true b h = h
      second false b h = cc

  shutdown-Inv : (in_loop : Bool) (c : TcpConnection) → Inv c → Inv (shutdown in_loop c)
  unfolding shutdown
  shutdown-Inv in_loop c i = elim (Bool-cases (is_connected c)) [
    | inr down ↦ rw (down, shutdown) i
    | inl up ↦ elim (Bool-cases in_loop) [
      | inl here ↦ rw (up, here, shutdown) (shutdown_in_loop-Inv c i)
      | inr away ↦ rw (up, away, shutdown) (emit-Inv (queued shutdown_task) c (refl, refl) i)
    ]
  ]

  module _ (keep : Keep k) where
    handle_event-Post :
        (revents : ℕ) (c : TcpConnection)
        → Inv c
        → Post (handle_event (channel_callbacks kernel k) revents c)
    unfolding handle_event call
    handle_event-Post revents c i =
        >>=-Post _ _
          (call_if-Post _ (some (handle_close kernel k)) c
            (λ d j. handle_close-Post kernel k keep d j.content.valid) i)
          (λ c1 i1.
            >>=-Post _ _
              (call_if-Post _ (some (handle_error kernel k)) c1
                (λ d j. handle_error-Post kernel k keep d j.content.valid) i1)
              (λ c2 i2.
                >>=-Post _ _
                  (call_if-Post _ (some (handle_read kernel k)) c2
                    (λ d j. handle_read-Post kernel k keep d j) i2)
                  (λ c3 i3.
                    call_if-Post _ (some (handle_write kernel k)) c3
                      (λ d j. handle_write-Post kernel k keep d j) i3)))

    run_task-Post : (t : Task) (c : TcpConnection) → Inv c → Post (run_task kernel k t c)
    unfolding run_task
    run_task-Post (send_task bytes) c i = send_in_loop-Post kernel k keep bytes c i
    run_task-Post shutdown_task c i = shutdown_in_loop-Inv c i
    run_task-Post close_task c i = handle_close-Post kernel k keep c i.content.valid
    run_task-Post (resume_task h) c i = i

    send-Post :
        (in_loop : Bool) (bytes : List ℕ) (c : TcpConnection)
        → Inv c
        → Post (send kernel k in_loop bytes c)
    unfolding send
    send-Post in_loop bytes c i = elim (Bool-cases (is_connected c)) [
      | inr down ↦ rw (down, send) i
      | inl up ↦ elim (Bool-cases in_loop) [
        | inl here ↦ rw (up, here, send) (send_in_loop-Post kernel k keep bytes c i)
        | inr away ↦ rw (up, away, send) (emit-Inv (queued (send_task bytes)) c (refl, refl) i)
      ]
    ]

    force_close-Post :
        (in_loop : Bool) (c : TcpConnection) → Inv c → Post (force_close kernel k in_loop c)
    unfolding force_close
    force_close-Post in_loop c i = elim (Bool-cases (is_connected c || is_connecting c)) [
      | inr down ↦ rw (down, force_close) i
      | inl up ↦ elim (Bool-cases in_loop) [
        | inl here ↦ rw (up, here, force_close) (handle_close-Post kernel k keep c i.content.valid)
        | inr away ↦ rw (up, away, force_close) (emit-Inv (queued close_task) c (refl, refl) i)
      ]
    ]

    -- Of what `read_some` leaves.
    PostRead : Option (ℤ × TcpConnection) → Type 0
    PostRead none = Unit {0}
    PostRead (some r) = Inv r.1

    read_some-Post : (c : TcpConnection) → Inv c → PostRead (read_some kernel k c)
    unfolding read_some PostRead
    read_some-Post c i = elim (Bool-cases (ltb 0 (readable_bytes c.input_buffer))) [
      | inl full ↦ rw (full, read_some) i
      | inr empty ↦ go empty (kernel.readv c.log (read_room c.input_buffer)) refl
    ]
      where
        go :
            ltb 0 (readable_bytes c.input_buffer) ≡ false
            → (r : Readv) → kernel.readv c.log (read_room c.input_buffer) ≡ r
            → PostRead (read_some kernel k c)
        go empty (got []) e = rw (empty, e, read_some) (emit-Inv (received []) c (refl, refl) i)
        go empty (got (b ∷ bytes)) e = elim (Option-cases (read_into kernel k c (b ∷ bytes))) [
          | inl overrun ↦ rw (empty, e, overrun, read_some) tt
          | inr (c', stored) ↦
              rw (empty, e, stored, read_some)
                (subst Post stored (read_into-Post kernel k keep c (b ∷ bytes) i))
        ]
        go empty (failed errno) e =
            rw (empty, e, read_some) (emit-Inv (refused errno) c (refl, refl) i)

    step-Inv : (c c' : TcpConnection) → Step c c' → Inv c → Inv c'
    unfolding PostRead
    step-Inv c c' (ready revents _ _ e) i = subst Post e (handle_event-Post revents c i)
    step-Inv c c' (sends in_loop bytes _ _ e) i = subst Post e (send-Post in_loop bytes c i)
    step-Inv c c' (closes_down in_loop _) i = shutdown-Inv in_loop c i
    step-Inv c c' (forces in_loop _ _ e) i = subst Post e (force_close-Post in_loop c i)
    step-Inv c c' (establishes _ _ e) i = subst Post e (connect_established-Post kernel k keep c i)
    step-Inv c c' (destroys _) i = record { content = i.content; watched = i.watched }
    step-Inv c c' (runs t _ _ e) i = subst Post e (run_task-Post t c i)
    step-Inv c c' (reads n _ _ e) i = subst PostRead e (read_some-Post c i)
    step-Inv c c' (awaits_read h _) i = resume_read_coro-Inv h c i
    step-Inv c c' (awaits_write h _) i = resume_write_coro-Inv h c i
    step-Inv c c' (consumes buf _) i = record { content = i.content; watched = i.watched }

    -- Whatever the kernel answers, and with callbacks that keep the invariant themselves, in every
    -- connection that is reached from a new one by ready events, calls of its operations in the
    -- loop's thread or another one, and queued closures, as long as `handle_close` has not run: the
    -- bytes that the kernel has taken, and then those in the output buffer, are the bytes of all
    -- calls of `send_in_loop`, in order, and write events are watched exactly while the output buffer
    -- is not empty.
    pub Reachable-Inv : (fd conn_id : ℕ) (c : TcpConnection) → Reachable fd conn_id c → Inv c
    Reachable-Inv fd conn_id c created = create-Inv fd conn_id
    Reachable-Inv fd conn_id c (further b _ r s) = step-Inv b c s (Reachable-Inv fd conn_id b r)
