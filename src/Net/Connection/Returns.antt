-- ===== src/Net/Connection/Returns.antt =====
-- net/tcp_connection.cpp: `send_in_loop` returns, and which ready events close a connection twice.
use lightnet.Common.{
  ltb, leb, ◌==◌, Bool-cases, Option-cases, ◌>>=◌, length, take, drop, length-drop, ℕ, ◌+◌, ◌≤◌,
  ◌≡◌, refl, sym, ap, ◌∙◌, subst, inl, inr, true, false, not, ◌&&◌, Option, some, List, [], ◌∷◌,
  ◌++◌, append-nil, arith,
}
use lightnet.Buffer.{max_capacity, peek, readable_bytes}
use lightnet.Buffer.Space.{IsValid}
use lightnet.Buffer.Append.{append-peek}
use lightnet.Core.Channel.{
  has, epollin, epollpri, epollout, epollerr, epollhup, epollrdhup, is_writing, disable_all, call,
  call_if, handle_event,
}
use lightnet.Net.Connection.{
  eagain, emit, set_channel, set_state, handle_close, handle_error, buffer_rest, sent_directly,
  send_in_loop, channel_callbacks, disconnected, requested, wrote, refused, counted_written,
  closing, Written, sent, rejected, Kernel, TcpConnection, Callbacks,
}
use lightnet.Net.Connection.Log.{requests, writes, closed, Post, Inv}
use lightnet.Net.Connection.Invariant.{Keep}
use lightnet.Net.Connection.Sending.{send_in_loop-Post}

-- A result that is there.
abbrev Returned : Option TcpConnection → Type 0
Returned m = (c : TcpConnection) × (m ≡ some c)

-- A callback that returns, or is not set.
abbrev pub Returns : Option (TcpConnection → Option TcpConnection) → Type 0
Returns f = (c : TcpConnection) → Returned (call f c)

module _ (kernel : Kernel) (k : Callbacks) where
  buffer_rest-Returned :
      (rest : List ℕ) (c : TcpConnection)
      → IsValid c.output_buffer
      → c.output_buffer.writer_index + length rest ≤ max_capacity
      → Returned (buffer_rest kernel k rest c)
  unfolding buffer_rest
  buffer_rest-Returned rest c v room = elim (Bool-cases (ltb 0 (length rest))) [
    | inr nothing ↦ rw (nothing, buffer_rest) (c, refl)
    | inl some_left ↦
        let (buf, e, v', p) = append-peek c.output_buffer rest v room in
        rw (some_left, e, buffer_rest) (_, refl)
  ]

  handle_close-Returned :
      (c : TcpConnection) → Returns k.close_callback → Returned (handle_close kernel k c)
  unfolding handle_close
  handle_close-Returned c total =
      total (set_channel (disable_all c.channel) (set_state disconnected (emit closing c)))

  sent_directly-Returned :
      (bytes : List ℕ) (n : ℕ) (c : TcpConnection)
      → IsValid c.output_buffer
      → c.output_buffer.writer_index + length bytes ≤ max_capacity
      → Returns k.write_complete_callback
      → Returned (sent_directly kernel k bytes n c)
  unfolding sent_directly
  sent_directly-Returned bytes n c v room total = elim (Bool-cases (leb (length bytes) n)) [
    | inl all ↦
        rw (all, sent_directly) (total (emit (counted_written n) (emit (wrote (take n bytes)) c)))
    | inr part ↦
        rw (part, sent_directly)
          (buffer_rest-Returned (drop n bytes)
            (emit (counted_written n) (emit (wrote (take n bytes)) c)) v
            (omega (arith, length-drop n bytes)))
  ]

  any-Returned :
      (bytes : List ℕ) (c : TcpConnection)
      → Inv c
      → c.output_buffer.writer_index + length bytes ≤ max_capacity
      → Returns k.write_complete_callback
      → Returns k.close_callback
      → Returned (send_in_loop kernel k bytes c)
  unfolding send_in_loop handle_error
  any-Returned bytes c i room told gone =
      elim (Bool-cases (not (is_writing c.channel) && readable_bytes c.output_buffer == 0)) [
        | inr busy ↦ rw (busy, send_in_loop) (buffer_rest-Returned bytes c' i.content.valid room)
        | inl idle ↦ go idle (kernel.write c'.log bytes) refl
      ]
    where
      c' : TcpConnection
      c' = emit (requested bytes) c

      go :
          (not (is_writing c.channel) && readable_bytes c.output_buffer == 0) ≡ true
          → (r : Written) → kernel.write (c.log ++ (requested bytes ∷ [])) bytes ≡ r
          → Returned (send_in_loop kernel k bytes c)
      go idle (sent n errno) e =
          rw (idle, e, send_in_loop) (sent_directly-Returned bytes n c' i.content.valid room told)
      go idle (rejected errno) e = elim (Bool-cases (errno == eagain)) [
        | inl later ↦
            rw (idle, e, later, send_in_loop)
              (buffer_rest-Returned bytes (emit (refused errno) c') i.content.valid room)
        | inr broken ↦
            rw (idle, e, broken, send_in_loop)
              (handle_close-Returned (emit (refused errno) c') gone)
      ]

  -- With callbacks that return and keep the invariant, and with room for `bytes` below the capacity
  -- limit of the output buffer, `send_in_loop` returns, whatever the kernel answers; and as long as
  -- `handle_close` has not run, what the kernel has taken and then what waits in the output buffer
  -- are the bytes of all calls so far, in order.
  pub send_in_loop-Returns :
      (bytes : List ℕ) (c : TcpConnection)
      → Keep k
      → Returns k.write_complete_callback
      → Returns k.close_callback
      → Inv c
      → c.output_buffer.writer_index + length bytes ≤ max_capacity
      → (c' : TcpConnection) × (send_in_loop kernel k bytes c ≡ some c')
        × (closed c'.log ≡ false → writes c'.log ++ peek c'.output_buffer ≡ requests c'.log)
  send_in_loop-Returns bytes c keep told gone i room =
      let (c', e) = any-Returned bytes c i room told gone in
      let j : Inv c' = subst Post e (send_in_loop-Post kernel k keep bytes c i) in
      (
        c',
        e,
        λ up.
            ap (◌++◌ (writes c'.log)) (sym (append-nil (peek c'.output_buffer)))
            ∙ j.content.in_order up,
      )

  -- A mask with EPOLLHUP and EPOLLERR and without the other flags that `handle_event` tests runs
  -- `handle_close` twice, the second time on what the first has left.
  handle_event-closes_twice :
      (revents : ℕ) (c : TcpConnection)
      → has epollhup revents ≡ true
      → has epollerr revents ≡ true
      → has epollin revents ≡ false
      → has epollpri revents ≡ false
      → has epollrdhup revents ≡ false
      → has epollout revents ≡ false
      → handle_event (channel_callbacks kernel k) revents c
        ≡ (handle_close kernel k c >>= handle_close kernel k)
  unfolding handle_event call_if call handle_error
  handle_event-closes_twice revents c hup err no_in no_pri no_rdhup no_out =
      elim (Option-cases (handle_close kernel k c)) [
        | inl overrun ↦
            rw (hup, err, no_in, no_pri, no_rdhup, no_out, handle_event, call_if, call)
              (rw overrun refl)
        | inr (d, e) ↦ elim (Option-cases (handle_close kernel k d)) [
          | inl overrun ↦
              rw (hup, err, no_in, no_pri, no_rdhup, no_out, handle_event, call_if, call)
                (rw (e, overrun) refl)
          | inr (d', e') ↦
              rw (hup, err, no_in, no_pri, no_rdhup, no_out, handle_event, call_if, call)
                (rw (e, e') refl)
        ]
      ]
