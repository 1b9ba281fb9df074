-- ===== src/Coro/Awaitable/Wakes.antt =====
-- coro/scheduler.cpp with net/tcp_connection.cpp: which events wake a coroutine that waits for input.
use lightnet.Common.{
  lt→ltb, le→ltb, Bool-cases, ℕ, ◌<◌, ◌≡◌, refl, ap, ◌∙◌, inl, inr, true, false, some, List, [],
  ◌∷◌, ◌++◌, append_assoc, arith,
}
use lightnet.Buffer.{Buffer, readable_bytes, read_room, got, read_fd}
use lightnet.Core.Channel.{
  none_event, is_reading, update_operation, updated, disable_all, call, Channel,
}
use lightnet.Net.Connection.{
  Callback, emit, set_channel, set_state, handle_close, deliver, handle_read, resume_read_coro,
  disconnected, resume_task, received, controlled, closing, queued, Kernel, TcpConnection,
  Callbacks,
}
use lightnet.Coro.Awaitable.{read_suspend}

-- The coroutine `h` is registered to be woken by input.
abbrev pub IsWaiting : ℕ → TcpConnection → Type 0
IsWaiting h c = (c.read_coro_pending ≡ true) × (c.read_coro ≡ some h)

resume_read_coro-IsWaiting : (h : ℕ) (c : TcpConnection) → IsWaiting h (resume_read_coro h c)
unfolding resume_read_coro set_channel
resume_read_coro-IsWaiting h c = elim (Bool-cases (is_reading c.channel)) [
  | inl on ↦ rw (on, resume_read_coro) (refl, refl)
  | inr off ↦ rw (off, resume_read_coro) (refl, refl)
]

-- Suspending a read queues the coroutine at once when there is input, and otherwise registers it.
read_suspend_lem :
    (h : ℕ) (c : TcpConnection)
    → (0 < readable_bytes c.input_buffer → read_suspend h c ≡ emit (queued (resume_task h)) c)
      × (readable_bytes c.input_buffer ≡ 0 → IsWaiting h (read_suspend h c))
unfolding read_suspend
read_suspend_lem h c = (
  λ full. rw (lt→ltb _ _ full) refl,
  λ empty.
      rw (le→ltb 0 (readable_bytes c.input_buffer) (omega (arith, empty)))
        (resume_read_coro-IsWaiting h c),
)

module _ (kernel : Kernel) (k : Callbacks) where
  -- Bytes come.
  wakes :
      (h : ℕ) (c : TcpConnection) (b : ℕ) (bytes : List ℕ) (buf : Buffer)
      → IsWaiting h c
      → kernel.readv c.log (read_room c.input_buffer) ≡ got (b ∷ bytes)
      → read_fd c.input_buffer (got (b ∷ bytes)) ≡ some buf
      → (before : TcpConnection) × (handle_read kernel k c
          ≡ some (emit (queued (resume_task h)) before))
        × (before.input_buffer ≡ buf)
        × (before.read_coro_pending ≡ false)
  unfolding handle_read deliver
  wakes h c b bytes buf (pending, some_h) e stored =
      rw (e, handle_read) (rw stored (rw (pending, some_h, deliver) (_, refl, refl, refl)))

  -- A `close_callback` that returns and resumes nothing, like the one that `TcpServer` sets, or none.
  abbrev pub IsIndifferent : Callback → Type 0
  IsIndifferent f =
      (d : TcpConnection)
      → (d' : TcpConnection) × (call f d ≡ some d')
        × (d'.read_coro_pending ≡ d.read_coro_pending)
        × (d'.read_coro ≡ d.read_coro)
        × (d'.channel ≡ d.channel)
        × (d'.log ≡ d.log)

  -- The peer has closed.
  forgets :
      (h : ℕ) (c : TcpConnection)
      → IsWaiting h c
      → kernel.readv c.log (read_room c.input_buffer) ≡ got []
      → IsIndifferent k.close_callback
      → (c' : TcpConnection) × (handle_read kernel k c ≡ some c')
        × IsWaiting h c'
        × (c'.channel.events ≡ none_event)
        × (c'.log
            ≡ c.log
              ++ (received [] ∷ closing ∷ controlled (update_operation c.channel) none_event ∷ []))
  unfolding handle_read handle_close set_channel disable_all updated update_operation
  forgets h c (pending, some_h) e quiet =
      let d : TcpConnection = set_state disconnected (emit closing (emit (received []) c)) in
      let (c', returned, p, w, ch, log) = quiet (set_channel (disable_all c.channel) d) in
      rw (e, handle_read)
        (
          c',
          returned,
          (p ∙ pending, w ∙ some_h),
          ap (λ (x : Channel). x.events) ch,
          log
              ∙ append_assoc (c.log ++ (received [] ∷ [])) (closing ∷ []) _
              ∙ append_assoc c.log (received [] ∷ []) _,
        )

  -- Of a coroutine that waits for input on a connection: when bytes come and fit the input buffer,
  -- `handle_read` stores them, queues the coroutine as its last act, and lets it wait no more; but when
  -- the peer has closed, and the `close_callback` is one that resumes nothing, the connection is closed
  -- and the coroutine is not queued: it still waits, on a channel that watches no event any more.
  pub handle_read-IsWaiting :
      (h : ℕ) (c : TcpConnection)
      → IsWaiting h c
      → ((b : ℕ) (bytes : List ℕ) (buf : Buffer)
          → kernel.readv c.log (read_room c.input_buffer) ≡ got (b ∷ bytes)
          → read_fd c.input_buffer (got (b ∷ bytes)) ≡ some buf
          → (before : TcpConnection) × (handle_read kernel k c
              ≡ some (emit (queued (resume_task h)) before))
            × (before.input_buffer ≡ buf)
            × (before.read_coro_pending ≡ false))
        × (kernel.readv c.log (read_room c.input_buffer) ≡ got []
            → IsIndifferent k.close_callback
            → (c' : TcpConnection) × (handle_read kernel k c ≡ some c')
              × IsWaiting h c'
              × (c'.channel.events ≡ none_event)
              × (c'.log
                  ≡ c.log
                    ++ (received []
                        ∷ closing
                        ∷ controlled (update_operation c.channel) none_event
                        ∷ [])))
  handle_read-IsWaiting h c w =
      ((λ b bytes buf e stored. wakes h c b bytes buf w e stored), λ e quiet. forgets h c w e quiet)
