-- ===== src/Tests/Connections.antt =====
-- Runs of the connections, their table and what waits for them.
use lightnet.Common.{
  length, codes, pos, ℕ, ◌+◌, ◌-◌, ◌*◌, ◌%◌, ◌≤◌, ◌<◌, ◌≡◌, refl, true, false, none, some, List, [],
  ◌∷◌, ◌++◌, arith,
}
use lightnet.Buffer.{Buffer, new, peek, readable_bytes, got, read_room, read_fd}
use lightnet.Core.Channel.{
  none_event, read_event, is_writing, update_operation, updated, enable_reading, call,
}
use lightnet.Metrics.{new_metrics, word}
use lightnet.Net.Connection.{
  create, is_connected, is_disconnecting, emit, set_channel, connect_established, handle_read,
  handle_write, sent_directly, send_in_loop, send, disconnecting, resume_task, requested, wrote,
  received, counted_written, controlled, shut_down, closing, queued, sent, Kernel, TcpConnection,
  Callbacks,
}
use lightnet.Net.Connection.Log.{requests, writes, closed, Inv}
use lightnet.Net.Connection.Invariant.{Keep}
use lightnet.Net.Connection.Steps.{Reachable-Inv, sends, establishes, created, further}
use lightnet.Net.Connection.Returns.{Returns, send_in_loop-Returns}
use lightnet.Net.Connection.Closing.{IsFlushed, handle_write-shuts_down}
use lightnet.Net.Manager.{ConnectionManager, Managed, new_manager, size, remove, find, assign}
use lightnet.Net.Manager
use lightnet.Net.Manager.Gauge.{IsManaged}
use lightnet.Net.Manager.Lives.{started, creates, removes, Life-IsManaged, remove_twice}
use lightnet.Net.TcpServer.{register}
use lightnet.Net.TcpServer.Lifetime.{Registers, ready, register-Registers}
use lightnet.Coro.Awaitable.Wakes.{IsWaiting, IsIndifferent, handle_read-IsWaiting}

-- A kernel that takes all bytes, and has none to read.
abbrev greedy : Kernel
greedy = record { write = λ log bytes. sent (length bytes) 0; readv = λ log room. got [] }

abbrev silent : Callbacks
silent = record {
  connection_callback = none;
  message_callback = none;
  write_complete_callback = none;
  close_callback = none;
}

silent-Keep : Keep silent
unfolding call
silent-Keep = record {
  connection = λ c i. i;
  message = λ c i. i;
  write_complete = λ c i. i;
  close = λ c i. i;
}

abbrev up : TcpConnection
up = ready 5 1

comes_up : connect_established greedy silent (create 5 1) ≡ some up
unfolding connect_established call
comes_up = refl

-- "ab" is sent at once.
abbrev sent_ab : TcpConnection
sent_ab = record up {
  log = up.log ++ (requested (codes "ab") ∷ wrote (codes "ab") ∷ counted_written 2 ∷ []);
}

sends_ab : send greedy silent true (codes "ab") up ≡ some sent_ab
unfolding send send_in_loop sent_directly call is_connected create set_channel enable_reading
    updated new
sends_ab = refl

Reachable-Inv_example : Inv sent_ab
Reachable-Inv_example = Reachable-Inv greedy silent silent-Keep 5 1 sent_ab (
    further up sent_ab (further (create 5 1) up created (establishes (create 5 1) up comes_up))
      (sends true (codes "ab") up sent_ab sends_ab))

new-Inv : Inv (create 5 1)
new-Inv = Reachable-Inv greedy silent silent-Keep 5 1 (create 5 1) created

silent-Returns : Returns none
unfolding call
silent-Returns c = (c, refl)

room_for_ab : (create 5 1).output_buffer.writer_index + 2 ≤ 64 * 1024 * 1024
unfolding create new
room_for_ab = omega arith

send_in_loop-Returns_example :
    (c' : TcpConnection) × (send_in_loop greedy silent (codes "ab") (create 5 1) ≡ some c')
    × (closed c'.log ≡ false → writes c'.log ++ peek c'.output_buffer ≡ requests c'.log)
send_in_loop-Returns_example =
    send_in_loop-Returns greedy silent (codes "ab") (create 5 1) silent-Keep silent-Returns
      silent-Returns new-Inv room_for_ab

-- A connection that is being shut down, with "ab" in its output buffer.
abbrev ab_left : Buffer
ab_left = record {
  storage = 0 ∷ 0 ∷ 0 ∷ 0 ∷ 0 ∷ 0 ∷ 0 ∷ 0 ∷ codes "ab";
  reader_index = 8;
  writer_index = 10;
}

abbrev leaving : TcpConnection
leaving = record (create 5 1) {
  state = disconnecting;
  channel = record { fd = 5; events = 5; index = pos 0; added_to_loop = true };
  output_buffer = ab_left;
  log = requested (codes "ab") ∷ [];
}

leaving-Inv : Inv leaving
unfolding requests writes peek
leaving-Inv = record {
  content = record { valid = omega arith; in_order = λ open_still. refl };
  watched = λ open_still. refl;
}

leaving-open : closed leaving.log ≡ false
unfolding closed
leaving-open = refl

leaving-leaves : is_disconnecting leaving ≡ true
unfolding is_disconnecting
leaving-leaves = refl

two_taken :
    greedy.write leaving.log (peek leaving.output_buffer)
    ≡ sent (readable_bytes leaving.output_buffer) 0
unfolding peek
two_taken = refl

handle_write-shuts_down_example :
    (before : TcpConnection) × (handle_write greedy silent leaving ≡ some (emit shut_down before))
    × IsFlushed before.log
    × (is_writing before.channel ≡ false)
handle_write-shuts_down_example =
    handle_write-shuts_down greedy silent silent-Keep leaving 0 leaving-Inv leaving-open
      leaving-leaves refl refl two_taken

-- A table for one connection.
abbrev table : Managed
table = (new_manager 1, new_metrics)

idle : new_metrics.active_connections ≡ 0
unfolding new_metrics
idle = refl

ids_left : (new_manager 1).next_id + 1 < word
unfolding new_manager
ids_left = omega arith

one_in : find 1 (Manager.create 7 table).1.0.connections ≡ some (create 7 1)
unfolding find Manager.create new_manager assign
one_in = refl

Life-IsManaged_example : IsManaged (remove 1 (Manager.create 7 table).1)
Life-IsManaged_example = Life-IsManaged 1 (remove 1 (Manager.create 7 table).1) (omega arith) (
    removes 1 (create 7 1) (Manager.create 7 table).1 one_in
      (creates 7 table ids_left (started new_metrics idle)))

one-IsManaged : IsManaged (Manager.create 7 table).1
one-IsManaged =
    Life-IsManaged 1 (Manager.create 7 table).1 (omega arith)
      (creates 7 table ids_left (started new_metrics idle))

remove_twice_example :
    ((remove 1 (remove 1 (Manager.create 7 table).1)).0 ≡ (remove 1 (Manager.create 7 table).1).0)
    × ((remove 1 (remove 1 (Manager.create 7 table).1)).1.active_connections
        ≡ (size (remove 1 (Manager.create 7 table).1).0 + (word - 1)) % word)
remove_twice_example = remove_twice 1 (create 7 1) (Manager.create 7 table).1 one-IsManaged one_in

table-IsManaged : IsManaged table
table-IsManaged = Life-IsManaged 1 table (omega arith) (started new_metrics idle)

register-Registers_example :
    Registers silent 7 table (register greedy silent 7 table)
    × (is_connected (ready 7 table.0.next_id) ≡ true)
    × ((ready 7 table.0.next_id).channel.events ≡ read_event)
register-Registers_example = register-Registers greedy silent 7 table table-IsManaged ids_left

-- The coroutine 9 waits, and the peer closes.
abbrev listening : TcpConnection
listening = record up { read_coro = some 9; read_coro_pending = true }

handle_read-IsWaiting_example :
    ((b : ℕ) (bytes : List ℕ) (buf : Buffer)
      → greedy.readv listening.log (read_room listening.input_buffer) ≡ got (b ∷ bytes)
      → read_fd listening.input_buffer (got (b ∷ bytes)) ≡ some buf
      → (before : TcpConnection) × (handle_read greedy silent listening
          ≡ some (emit (queued (resume_task 9)) before))
        × (before.input_buffer ≡ buf)
        × (before.read_coro_pending ≡ false))
    × (greedy.readv listening.log (read_room listening.input_buffer) ≡ got []
        → IsIndifferent greedy silent none
        → (c' : TcpConnection) × (handle_read greedy silent listening ≡ some c')
          × IsWaiting 9 c'
          × (c'.channel.events ≡ none_event)
          × (c'.log
              ≡ listening.log
                ++ (received []
                    ∷ closing
                    ∷ controlled (update_operation listening.channel) none_event
                    ∷ [])))
handle_read-IsWaiting_example = handle_read-IsWaiting greedy silent 9 listening (refl, refl)
