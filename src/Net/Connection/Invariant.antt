-- ===== src/Net/Connection/Invariant.antt =====
-- net/tcp_connection.cpp: every operation keeps the invariant between the log of a connection, its
-- output buffer and its interest in write events, provided that the user's callbacks do.
use lightnet.Common.{
  ℕ, ◌+◌, ◌≡◌, refl, sym, ap, ◌∙◌, Bool, true, false, not, ◌||◌, ◌==◌, length-append, Bool-cases,
  Option-cases, inl, inr, Option, none, List, [], ◌∷◌, ◌++◌, length, arith,
}
use lightnet.Buffer.{Readv, Buffer, readable_bytes, peek, failed, got, read_fd, read_room}
use lightnet.Buffer.Space.{IsValid, length-peek}
use lightnet.Core.Channel.{is_writing, enable_reading, disable_all, call, is_writing-enable_reading}
use lightnet.Net.Connection.{
  eagain, emit, set_channel, set_state, waiting, wake_writer, shutdown_if, shutdown_in_loop,
  handle_close, handle_error, connect_established, deliver, read_into, handle_read, connected,
  disconnecting, disconnected, resume_task, refused, received, counted_read, shut_down, closing,
  queued, Kernel, TcpConnection, Callbacks,
}
use lightnet.Net.Connection.Log.{
  Inv, Post, >>=-Post, emit-Inv, closed-Inv, set_channel-Inv, closed, closed-snoc,
}

-- Nothing readable.
pub nil_of_length : (xs : List ℕ) → length xs ≡ 0 → xs ≡ []
nil_of_length [] e = refl
nil_of_length (x ∷ xs) e = absurd (omega (arith, e))

pub peek-empty : (b : Buffer) → IsValid b → readable_bytes b ≡ 0 → peek b ≡ []
peek-empty b v e = nil_of_length (peek b) (length-peek b v ∙ e)

pub readable-append :
    (b b' : Buffer) (bytes : List ℕ)
    → IsValid b
    → IsValid b'
    → peek b' ≡ peek b ++ bytes
    → readable_bytes b' ≡ readable_bytes b + length bytes
readable-append b b' bytes v v' e =
    sym (length-peek b' v')
    ∙ ap length e
    ∙ length-append (peek b) bytes
    ∙ ap (λ (n : ℕ). n + length bytes) (length-peek b v)

-- A callback that keeps the invariant, or is not set.
abbrev pub Keeps : Option (TcpConnection → Option TcpConnection) → Type 0
Keeps f = (c : TcpConnection) → Inv c → Post (call f c)

pub record Keep (k : Callbacks) : Type 0 where
  pub connection : Keeps k.connection_callback
  pub message : Keeps k.message_callback
  pub write_complete : Keeps k.write_complete_callback
  pub close : Keeps k.close_callback

pub shutdown_if-Inv : (b : Bool) (c : TcpConnection) → Inv c → Inv (shutdown_if b c)
unfolding shutdown_if
shutdown_if-Inv true c i = emit-Inv shut_down c (refl, refl) i
shutdown_if-Inv false c i = i

pub wake_writer-Inv : (c : TcpConnection) → Inv c → Inv (wake_writer c)
unfolding wake_writer
wake_writer-Inv c i = elim (Option-cases (waiting c.write_coro_pending c.write_coro)) [
  | inl nobody ↦ rw (nobody, wake_writer) i
  | inr (h, some_h) ↦
      rw (some_h, wake_writer)
        (emit-Inv (queued (resume_task h))
          (record c { write_coro_pending = false; write_coro = none }) (refl, refl)
          (record { content = i.content; watched = i.watched }))
]

pub shutdown_in_loop-Inv : (c : TcpConnection) → Inv c → Inv (shutdown_in_loop c)
unfolding shutdown_in_loop
shutdown_in_loop-Inv c i =
    shutdown_if-Inv (not (is_writing c.channel)) (set_state disconnecting c)
      (record { content = i.content; watched = i.watched })

module _ (kernel : Kernel) (k : Callbacks) (keep : Keep k) where
  -- `handle_close` needs no more than a valid buffer.
  pub handle_close-Post :
      (c : TcpConnection) → IsValid c.output_buffer → Post (handle_close kernel k c)
  unfolding handle_close
  handle_close-Post c v =
      let off : TcpConnection = set_state disconnected (emit closing c) in
      let i : Inv off = closed-Inv off v down in
      keep.close (set_channel (disable_all c.channel) off)
        (set_channel-Inv (disable_all c.channel) off i.content (λ up. absurd (cc (down, up))))
    where
      or_true : (a : Bool) → (a || true) ≡ true
      or_true true = refl
      or_true false = refl

      down : closed (c.log ++ (closing ∷ [])) ≡ true
      down = closed-snoc c.log closing ∙ or_true (closed c.log)

  pub handle_error-Post :
      (c : TcpConnection) → IsValid c.output_buffer → Post (handle_error kernel k c)
  unfolding handle_error
  handle_error-Post c v = handle_close-Post c v

  pub connect_established-Post : (c : TcpConnection) → Inv c → Post (connect_established kernel k c)
  unfolding connect_established
  connect_established-Post c i =
      keep.connection (set_channel (enable_reading c.channel) (set_state connected c)) (
        set_channel-Inv (enable_reading c.channel) (set_state connected c) i.content
          (λ up. is_writing-enable_reading c.channel ∙ i.watched up))

  deliver-Post : (c : TcpConnection) → Inv c → Post (deliver kernel k c)
  unfolding deliver
  deliver-Post c i = elim (Option-cases (waiting c.read_coro_pending c.read_coro)) [
    | inl nobody ↦ rw (nobody, deliver) (keep.message c i)
    | inr (h, some_h) ↦
        rw (some_h, deliver)
          (emit-Inv (queued (resume_task h))
            (record c { read_coro_pending = false; read_coro = none }) (refl, refl)
            (record { content = i.content; watched = i.watched }))
  ]

  -- Input is stored.
  pub read_into-Post :
      (c : TcpConnection) (bytes : List ℕ) → Inv c → Post (read_into kernel k c bytes)
  read_into-Post c bytes i = elim (Option-cases (read_fd c.input_buffer (got bytes))) [
    | inl overrun ↦ rw overrun tt
    | inr (buf, stored) ↦ rw stored (
        emit-Inv (counted_read (length bytes))
          (emit (received bytes) (record c { input_buffer = buf })) (refl, refl)
          (emit-Inv (received bytes) (record c { input_buffer = buf }) (refl, refl)
            (record { content = i.content; watched = i.watched })))
  ]

  pub handle_read-Post : (c : TcpConnection) → Inv c → Post (handle_read kernel k c)
  unfolding handle_read
  handle_read-Post c i = go (kernel.readv c.log (read_room c.input_buffer)) refl
    where
      go :
          (r : Readv)
          → kernel.readv c.log (read_room c.input_buffer) ≡ r
          → Post (handle_read kernel k c)
      go (got []) e = rw (e, handle_read) (handle_close-Post (emit (received []) c) i.content.valid)
      go (got (b ∷ bytes)) e =
          rw (e, handle_read)
            (>>=-Post (read_into kernel k c (b ∷ bytes)) (deliver kernel k)
              (read_into-Post c (b ∷ bytes) i) deliver-Post)
      go (failed errno) e = elim (Bool-cases (errno == eagain)) [
        | inl later ↦ rw (e, later, handle_read) (emit-Inv (refused errno) c (refl, refl) i)
        | inr broken ↦
            rw (e, broken, handle_read) (handle_error-Post (emit (refused errno) c) i.content.valid)
      ]
