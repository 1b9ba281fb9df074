-- ===== src/Net/Connection.antt =====
-- net/tcp_connection.h and net/tcp_connection.cpp: one connection. The kernel is a parameter: its
-- answer to a read or a write is a function of what has happened so far. What the code does beside
-- changing its own state (system calls, metrics, tasks for the loop) is logged in order. The callbacks
-- are user code, which may call the connection again. An append that overruns a buffer is `none`.
pub mod Log
pub mod Invariant
pub mod Owed
pub mod Sending
pub mod Writing
pub mod Steps
pub mod Closing
pub mod Returns
use lightnet.Common.{
  ℕ, ◌+◌, ◌-◌, ◌≤◌, ◌<◌, ◌≡◌, refl, Bool, true, false, not, ◌&&◌, ◌||◌, ◌==◌, ltb, leb,
  if◌then◌else◌, Option, none, some, ◌>>=◌, List, [], ◌∷◌, ◌++◌, length, take, drop, ℤ, pos, negsuc,
  arith,
}
use lightnet.Buffer.{
  Buffer, Readv, failed, got, readable_bytes, peek, retrieve, append, read_fd, read_room, new,
}
use lightnet.Core.Channel.{
  Channel, Operation, new_channel, is_writing, is_reading, enable_reading, enable_writing,
  disable_writing, disable_all, update_operation, updated, call, EventCallbacks, handle_event,
}

pub data ConnectionState : Type 0 where
  connecting : ConnectionState
  connected : ConnectionState
  disconnecting : ConnectionState
  disconnected : ConnectionState

-- A closure that `run_in_loop` or `schedule_coro` queues; coroutine handles are numbers.
pub data Task : Type 0 where
  send_task : List ℕ → Task
  shutdown_task : Task
  close_task : Task
  resume_task : ℕ → Task

-- `requested` marks the start of `send_in_loop`, `closing` that of `handle_close`.
pub data Event : Type 0 where
  requested : List ℕ → Event
  wrote : List ℕ → Event
  refused : ℕ → Event
  received : List ℕ → Event
  counted_read : ℕ → Event
  counted_written : ℕ → Event
  controlled : Operation → ℕ → Event
  shut_down : Event
  closing : Event
  queued : Task → Event

-- What `write` returned: a count, or -1 with `errno`. A count leaves an old number in `errno`.
pub data Written : Type 0 where
  sent : ℕ → ℕ → Written
  rejected : ℕ → Written

pub record Kernel : Type 0 where
  pub write : List Event → List ℕ → Written
  pub readv : List Event → ℕ → Readv

pub record TcpConnection : Type 0 where
  pub conn_id : ℕ
  pub state : ConnectionState
  pub channel : Channel
  pub input_buffer : Buffer
  pub output_buffer : Buffer
  pub read_coro : Option ℕ
  pub write_coro : Option ℕ
  pub read_coro_pending : Bool
  pub write_coro_pending : Bool
  pub log : List Event

unfoldable pub create : ℕ → ℕ → TcpConnection
create fd conn_id = record {
  conn_id = conn_id;
  state = connecting;
  channel = new_channel fd;
  input_buffer = new;
  output_buffer = new;
  read_coro = none;
  write_coro = none;
  read_coro_pending = false;
  write_coro_pending = false;
  log = [];
}

abbrev pub Callback : Type 0
Callback = Option (TcpConnection → Option TcpConnection)

pub record Callbacks : Type 0 where
  pub connection_callback : Callback
  pub message_callback : Callback
  pub write_complete_callback : Callback
  pub close_callback : Callback

-- EAGAIN, which is EWOULDBLOCK.
abbrev pub eagain : ℕ
eagain = 11

unfoldable pub is_connected : TcpConnection → Bool
is_connected c = elim c.state [ connected ↦ true | _ ↦ false ]

unfoldable pub is_connecting : TcpConnection → Bool
is_connecting c = elim c.state [ connecting ↦ true | _ ↦ false ]

unfoldable pub is_disconnecting : TcpConnection → Bool
is_disconnecting c = elim c.state [ disconnecting ↦ true | _ ↦ false ]

abbrev pub emit : Event → TcpConnection → TcpConnection
emit e c = record c { log = c.log ++ (e ∷ []) }

-- `channel_->update()` after a change of the mask.
unfoldable pub set_channel : Channel → TcpConnection → TcpConnection
set_channel ch c =
    emit (controlled (update_operation ch) ch.events) (record c { channel = updated ch })

abbrev pub set_state : ConnectionState → TcpConnection → TcpConnection
set_state s c = record c { state = s }

-- `read_coro_pending_ && read_coro_`.
abbrev pub waiting : Bool → Option ℕ → Option ℕ
waiting true (some h) = some h
waiting true none = none
waiting false h = none

-- The test of the other direction, where a write coroutine is set aside and queued.
unfoldable pub wake_writer : TcpConnection → TcpConnection
wake_writer c = elim (waiting c.write_coro_pending c.write_coro) [
  | some h ↦
      emit (queued (resume_task h)) (record c { write_coro_pending = false; write_coro = none })
  | none ↦ c
]

unfoldable pub shutdown_if : Bool → TcpConnection → TcpConnection
shutdown_if true c = emit shut_down c
shutdown_if false c = c

-- The task of `shutdown`.
unfoldable pub shutdown_in_loop : TcpConnection → TcpConnection
shutdown_in_loop c = shutdown_if (not (is_writing c.channel)) (set_state disconnecting c)

-- In the loop's own thread, and in another one.
unfoldable pub shutdown : Bool → TcpConnection → TcpConnection
shutdown in_loop c =
    if is_connected c
    then (if in_loop then shutdown_in_loop c else emit (queued shutdown_task) c)
    else c

module _ (kernel : Kernel) (k : Callbacks) where
  unfoldable pub handle_close : TcpConnection → Option TcpConnection
  handle_close c =
      let off = set_channel (disable_all c.channel) (set_state disconnected (emit closing c)) in
      call k.close_callback off

  unfoldable pub handle_error : TcpConnection → Option TcpConnection
  handle_error c = handle_close c

  unfoldable pub connect_established : TcpConnection → Option TcpConnection
  connect_established c =
      call k.connection_callback (set_channel (enable_reading c.channel) (set_state connected c))

  -- The waiting coroutine is queued, or else the message callback runs.
  unfoldable pub deliver : TcpConnection → Option TcpConnection
  deliver c = elim (waiting c.read_coro_pending c.read_coro) [
    | some h ↦
        some
          (emit (queued (resume_task h)) (record c { read_coro_pending = false; read_coro = none }))
    | none ↦ call k.message_callback c
  ]

  abbrev pub read_into : TcpConnection → List ℕ → Option TcpConnection
  read_into c bytes = do
    buf ← read_fd c.input_buffer (got bytes)
    some (
        emit (counted_read (length bytes))
          (emit (received bytes) (record c { input_buffer = buf })))

  unfoldable pub handle_read : TcpConnection → Option TcpConnection
  handle_read c = elim (kernel.readv c.log (read_room c.input_buffer)) [
    | got [] ↦ handle_close (emit (received []) c)
    | got (b ∷ bytes) ↦ do filled ← read_into c (b ∷ bytes); deliver filled
    | failed saved_errno ↦
        if saved_errno == eagain
        then some (emit (refused saved_errno) c)
        else handle_error (emit (refused saved_errno) c)
  ]

  -- `n` bytes of the output buffer have been written.
  unfoldable pub take_written : ℕ → TcpConnection → TcpConnection
  take_written n c = emit (counted_written n) (record c {
    output_buffer = retrieve c.output_buffer n;
    log = c.log ++ (wrote (take n (peek c.output_buffer)) ∷ []);
  })

  -- The output buffer has become empty.
  unfoldable pub write_finished : TcpConnection → Option TcpConnection
  write_finished c = do
    told ← call k.write_complete_callback (set_channel (disable_writing c.channel) c)
    let woken = wake_writer told in some (shutdown_if (is_disconnecting woken) woken)

  unfoldable pub after_write : TcpConnection → Option TcpConnection
  after_write c = if readable_bytes c.output_buffer == 0 then write_finished c else some c

  abbrev pub write_failed : ℕ → TcpConnection → Option TcpConnection
  write_failed errno c =
      if errno == eagain
      then some (emit (refused errno) c)
      else handle_error (emit (refused errno) c)

  unfoldable pub handle_write : TcpConnection → Option TcpConnection
  handle_write c =
      if is_writing c.channel
      then (elim (kernel.write c.log (peek c.output_buffer)) [
        | sent n errno ↦ if ltb 0 n then after_write (take_written n c) else write_failed errno c
        | rejected errno ↦ write_failed errno c
      ])
      else some c

  -- What has not been written goes to the output buffer.
  unfoldable pub buffer_rest : List ℕ → TcpConnection → Option TcpConnection
  buffer_rest bytes c =
      if ltb 0 (length bytes)
      then (do
        buf ← append c.output_buffer bytes
        let stored = record c { output_buffer = buf } in
            some (
              if is_writing c.channel
              then stored
              else set_channel (enable_writing c.channel) stored))
      else some c

  -- `nwrote` bytes of `bytes` have been written at once.
  unfoldable pub sent_directly : List ℕ → ℕ → TcpConnection → Option TcpConnection
  sent_directly bytes n c =
      let c' = emit (counted_written n) (emit (wrote (take n bytes)) c) in
      if leb (length bytes) n
      then call k.write_complete_callback c'
      else buffer_rest (drop n bytes) c'

  unfoldable pub send_in_loop : List ℕ → TcpConnection → Option TcpConnection
  send_in_loop bytes c =
      let c' = emit (requested bytes) c in
      if not (is_writing c.channel) && readable_bytes c.output_buffer == 0
      then (elim (kernel.write c'.log bytes) [
        | sent n errno ↦ sent_directly bytes n c'
        | rejected errno ↦
            if errno == eagain
            then buffer_rest bytes (emit (refused errno) c')
            else handle_error (emit (refused errno) c')
      ])
      else buffer_rest bytes c'

  -- In the loop's own thread, and in another one.
  unfoldable pub send : Bool → List ℕ → TcpConnection → Option TcpConnection
  send in_loop bytes c =
      if is_connected c
      then (if in_loop then send_in_loop bytes c else some (emit (queued (send_task bytes)) c))
      else some c

  unfoldable pub force_close : Bool → TcpConnection → Option TcpConnection
  force_close in_loop c =
      if is_connected c || is_connecting c
      then (if in_loop then handle_close c else some (emit (queued close_task) c))
      else some c

  -- The number of bytes that can be read, or what `readv` returned.
  unfoldable pub read_some : TcpConnection → Option (ℤ × TcpConnection)
  read_some c =
      if ltb 0 (readable_bytes c.input_buffer)
      then some (pos (readable_bytes c.input_buffer), c)
      else elim (kernel.readv c.log (read_room c.input_buffer)) [
        | got [] ↦ some (pos 0, emit (received []) c)
        | got (b ∷ bytes) ↦ do
          filled ← read_into c (b ∷ bytes)
          some (pos (length (b ∷ bytes)), filled)
        | failed saved_errno ↦ some (negsuc 0, emit (refused saved_errno) c)
      ]

  unfoldable pub write_some : Bool → List ℕ → TcpConnection → Option (ℕ × TcpConnection)
  write_some in_loop bytes c = do
    c' ← send in_loop bytes c
    some (if readable_bytes c'.output_buffer == 0 then length bytes else 0, c')

  -- The constructor's four callbacks of the channel.
  abbrev pub channel_callbacks : EventCallbacks TcpConnection
  channel_callbacks = record {
    read_callback = some handle_read;
    write_callback = some handle_write;
    close_callback = some handle_close;
    error_callback = some handle_error;
  }

  -- A queued closure. Resuming a coroutine is what that coroutine then does to the connection.
  unfoldable pub run_task : Task → TcpConnection → Option TcpConnection
  run_task (send_task bytes) c = send_in_loop bytes c
  run_task shutdown_task c = some (shutdown_in_loop c)
  run_task close_task c = handle_close c
  run_task (resume_task h) c = some c

-- Called when the table has dropped the connection.
abbrev pub connect_destroyed : TcpConnection → TcpConnection
connect_destroyed c = set_state disconnected c

unfoldable pub resume_read_coro : ℕ → TcpConnection → TcpConnection
resume_read_coro h c =
    let c' = record c { read_coro = some h; read_coro_pending = true } in
    if is_reading c.channel then c' else set_channel (enable_reading c.channel) c'

unfoldable pub resume_write_coro : ℕ → TcpConnection → TcpConnection
resume_write_coro h c =
    let c' = record c { write_coro = some h; write_coro_pending = true } in
    if not (is_writing c.channel) && ltb 0 (readable_bytes c.output_buffer)
    then set_channel (enable_writing c.channel) c'
    else c'
