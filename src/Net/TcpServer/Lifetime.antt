-- ===== src/Net/TcpServer/Lifetime.antt =====
-- net/tcp_server.cpp with net/connection_manager.cpp and net/tcp_connection.cpp: a connection from its
-- accepted descriptor to its removal.
use lightnet.Common.{
  ◌==◌, ==-refl, ℕ, ◌+◌, ◌≤◌, ◌<◌, ◌≡◌, refl, ap, ◌∙◌, ◌⊎◌, inl, inr, true, false, Option, none,
  some, [], ◌∷◌, ◌++◌, arith,
}
use lightnet.Core.Channel.{read_event, updated, enable_reading, call}
use lightnet.Metrics.{word}
use lightnet.Net.Connection.{
  Callback, eagain, is_connected, is_connecting, is_disconnecting, emit, set_channel, set_state,
  waiting, wake_writer, shutdown_if, shutdown_in_loop, shutdown, handle_close, handle_error,
  connect_established, deliver, read_into, handle_read, take_written, write_finished, after_write,
  write_failed, handle_write, buffer_rest, sent_directly, send_in_loop, send, force_close,
  read_some, write_some, channel_callbacks, run_task, connect_destroyed, resume_read_coro,
  resume_write_coro, ConnectionState, connecting, connected, disconnecting, disconnected, Task,
  send_task, shutdown_task, close_task, resume_task, Event, requested, wrote, refused, received,
  counted_read, counted_written, controlled, shut_down, closing, queued, Written, sent, rejected,
  Kernel, TcpConnection, Callbacks,
}
use lightnet.Net.Manager.{Connections, find, size, Managed, create}
use lightnet.Net.Manager.Gauge.{Absent, IsManaged}
use lightnet.Net.Manager.Lives.{Creates, create-Creates}
use lightnet.Net.Connection
use lightnet.Net.TcpServer.{of_option, establish, register, Registered, fd_closed}

-- The connection that the connection callback is given.
abbrev pub ready : ℕ → ℕ → TcpConnection
ready fd id =
    let conn = Connection.create fd id in
    set_channel (enable_reading conn.channel) (set_state connected conn)

-- What `register` comes to.
abbrev pub Registers : Callbacks → ℕ → Managed → Registered × Managed → Type 0
Registers k fd s (r, s') =
    ((s.0.max_connections ≤ size s.0) × (r ≡ fd_closed fd) × (s' ≡ s))
    ⊎ ((r ≡ of_option (call k.connection_callback (ready fd s.0.next_id)))
        × IsManaged s'
        × (find s.0.next_id s.0.connections ≡ none)
        × (find s.0.next_id s'.0.connections ≡ some (Connection.create fd s.0.next_id)))

find-Absent : (n : ℕ) (cs : Connections) → Absent n cs → find n cs ≡ none
unfolding find
find-Absent n [] a = refl
find-Absent n ((i, c) ∷ rest) (ne, a) =
    let other : (i == n) ≡ false = ground (arith, ne) in rw other (find-Absent n rest a)

find-snoc :
    (n : ℕ) (conn : TcpConnection) (cs : Connections)
    → Absent n cs
    → find n (cs ++ ((n, conn) ∷ [])) ≡ some conn
unfolding find
find-snoc n conn [] a = rw (==-refl n) refl
find-snoc n conn ((i, c) ∷ rest) (ne, a) =
    let other : (i == n) ≡ false = ground (arith, ne) in rw other (find-snoc n conn rest a)

register_made :
    (kernel : Kernel) (k : Callbacks) (fd : ℕ) (s : Managed) (r : Option TcpConnection × Managed)
    → Creates fd s r
    → Registers k fd s (establish kernel k fd r.0, r.1)
unfolding connect_established
register_made kernel k fd s (none, s') (full, same) = inl (full, refl, same)
register_made kernel k fd s (some conn, s') (made, fresh, last, i) = inr (
  (rw made refl),
  i,
  find-Absent s.0.next_id s.0.connections fresh,
  ap (find s.0.next_id)
        (last ∙ ap (λ (c : TcpConnection). s.0.connections ++ ((s.0.next_id, c) ∷ [])) made)
      ∙ find-snoc s.0.next_id (Connection.create fd s.0.next_id) s.0.connections fresh,
)

-- In a well-formed table with ids left, registering an accepted descriptor either closes it at the
-- limit and changes nothing; or enters a connection under an id that no entry has, keeps the table
-- well formed, gauge included, and gives the connection callback a connection that is connected,
-- with its channel watching read events only.
pub register-Registers :
    (kernel : Kernel) (k : Callbacks) (fd : ℕ) (s : Managed)
    → IsManaged s
    → s.0.next_id + 1 < word
    → Registers k fd s (register kernel k fd s)
      × (is_connected (ready fd s.0.next_id) ≡ true)
      × ((ready fd s.0.next_id).channel.events ≡ read_event)
unfolding register is_connected set_channel enable_reading updated Connection.create
register-Registers kernel k fd s i ids =
    (register_made kernel k fd s (create fd s) (create-Creates fd s i ids), refl, refl)
