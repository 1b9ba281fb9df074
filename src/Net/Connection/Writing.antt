-- ===== src/Net/Connection/Writing.antt =====
-- net/tcp_connection.cpp: `handle_write` keeps the invariant of the connection.
use lightnet.Common.{
  ltb, ◌==◌, le→ltb, ==→eq, Bool-cases, take, ℕ, ◌≡◌, refl, sym, ◌∙◌, inl, inr, true, false, [],
  ◌∷◌, ◌++◌, append-nil, arith,
}
use lightnet.Buffer.{readable_bytes, peek, retrieve}
use lightnet.Buffer.Take.{retrieve_lem}
use lightnet.Core.Channel.{is_writing, disable_writing, call, is_writing-disable_writing}
use lightnet.Net.Connection.{
  eagain, is_disconnecting, emit, set_channel, wake_writer, take_written, write_finished,
  after_write, write_failed, handle_write, wrote, refused, counted_written, Written, sent, rejected,
  Kernel, TcpConnection, Callbacks,
}
use lightnet.Net.Connection.Log.{Post, >>=-Post, snoc-Owes, emit-Inv, set_channel-Inv, Owes, Inv}
use lightnet.Net.Connection.Invariant.{shutdown_if-Inv, wake_writer-Inv, handle_error-Post, Keep}
use lightnet.Net.Connection.Owed.{wrote-Owes}

module _ (kernel : Kernel) (k : Callbacks) (keep : Keep k) where
  write_finished-Post :
      (c : TcpConnection)
      → Owes [] c.log c.output_buffer
      → readable_bytes c.output_buffer ≡ 0
      → Post (write_finished kernel k c)
  unfolding write_finished
  write_finished-Post c i empty =
      >>=-Post (call k.write_complete_callback (set_channel (disable_writing c.channel) c)) _
        (keep.write_complete (set_channel (disable_writing c.channel) c) (
          set_channel-Inv (disable_writing c.channel) c i
            (λ up. is_writing-disable_writing c.channel ∙ sym (le→ltb _ _ (omega (arith, empty))))))
        (λ told j.
          shutdown_if-Inv (is_disconnecting (wake_writer told)) (wake_writer told)
            (wake_writer-Inv told j))

  pub take_written-Owes :
      (n : ℕ) (c : TcpConnection)
      → Owes [] c.log c.output_buffer
      → Owes [] (take_written kernel k n c).log (take_written kernel k n c).output_buffer
  unfolding take_written
  take_written-Owes n c i =
      let (v', p) = retrieve_lem c.output_buffer n i.valid in
      snoc-Owes (counted_written n) [] (c.log ++ (wrote (take n (peek c.output_buffer)) ∷ []))
        (retrieve c.output_buffer n) (refl, refl)
        (wrote-Owes n c.log c.output_buffer (retrieve c.output_buffer n) (peek c.output_buffer) []
          [] i v' (append-nil (peek c.output_buffer))
          (append-nil (peek (retrieve c.output_buffer n)) ∙ p))

  after_write-Post :
      (c : TcpConnection)
      → Owes [] c.log c.output_buffer
      → is_writing c.channel ≡ true
      → Post (after_write kernel k c)
  unfolding after_write
  after_write-Post c owes on = elim (Bool-cases (readable_bytes c.output_buffer == 0)) [
    | inl done ↦ rw (done, after_write) (write_finished-Post c owes (==→eq _ _ done))
    | inr more ↦
        rw (more, after_write)
          (record { content = owes; watched = λ up. on ∙ sym (positive _ more) })
  ]
    where
      positive : (m : ℕ) → (m == 0) ≡ false → ltb 0 m ≡ true
      positive m h = ground arith

  write_failed-Post : (errno : ℕ) (c : TcpConnection) → Inv c → Post (write_failed kernel k errno c)
  write_failed-Post errno c i = elim (Bool-cases (errno == eagain)) [
    | inl later ↦ rw later (emit-Inv (refused errno) c (refl, refl) i)
    | inr broken ↦
        rw broken (handle_error-Post kernel k keep (emit (refused errno) c) i.content.valid)
  ]

  pub handle_write-Post : (c : TcpConnection) → Inv c → Post (handle_write kernel k c)
  unfolding handle_write
  handle_write-Post c i = elim (Bool-cases (is_writing c.channel)) [
    | inr off ↦ rw (off, handle_write) i
    | inl on ↦ go on (kernel.write c.log (peek c.output_buffer)) refl
  ]
    where
      go :
          is_writing c.channel ≡ true
          → (r : Written) → kernel.write c.log (peek c.output_buffer) ≡ r
          → Post (handle_write kernel k c)
      go on (sent n errno) e = elim (Bool-cases (ltb 0 n)) [
        | inl some_taken ↦
            rw (on, e, some_taken, handle_write)
              (after_write-Post (take_written kernel k n c) (take_written-Owes n c i.content)
                (unfold take_written in on))
        | inr nothing ↦ rw (on, e, nothing, handle_write) (write_failed-Post errno c i)
      ]
      go on (rejected errno) e = rw (on, e, handle_write) (write_failed-Post errno c i)
