-- ===== src/Net/Connection/Sending.antt =====
-- net/tcp_connection.cpp: `send_in_loop` keeps the invariant of the connection.
use lightnet.Common.{
  ltb, leb, ◌==◌, ltb→lt, lt→ltb, leb→le, Bool-cases, Option-cases, length, take, drop, drop_all, ℕ,
  ◌≡◌, refl, sym, ap, ◌∙◌, subst, inl, inr, true, false, not, ◌&&◌, List, [], ◌∷◌, ◌++◌, arith,
}
use lightnet.Buffer.{readable_bytes, peek, append}
use lightnet.Buffer.Overrun.{append-Appended, Appended}
use lightnet.Core.Channel.{is_writing, enable_writing, is_writing-enable_writing}
use lightnet.Net.Connection.{
  eagain, emit, buffer_rest, sent_directly, send_in_loop, Event, requested, wrote, refused,
  counted_written, Written, sent, rejected, Kernel, TcpConnection, Callbacks,
}
use lightnet.Net.Connection.Log.{Watched, Post, still_up, snoc-Owes, set_channel-Inv, Owes, Inv}
use lightnet.Net.Connection.Invariant.{
  nil_of_length, peek-empty, readable-append, handle_error-Post, Keep,
}
use lightnet.Net.Connection.Owed.{wrote-Owes, requested-Owes, stored-Owes}

zero_of_ltb : (n : ℕ) → ltb 0 n ≡ false → n ≡ 0
zero_of_ltb n h = ground arith

module _ (kernel : Kernel) (k : Callbacks) where
  buffer_rest-Post :
      (rest : List ℕ) (c : TcpConnection)
      → Owes rest c.log c.output_buffer
      → Watched c.channel c
      → Post (buffer_rest kernel k rest c)
  unfolding buffer_rest
  buffer_rest-Post rest c i w = elim (Bool-cases (ltb 0 (length rest))) [
    | inr nothing ↦
        rw (nothing, buffer_rest)
          (record {
            content =
                subst (λ (l : List ℕ). Owes l c.log c.output_buffer)
                  (nil_of_length rest (zero_of_ltb (length rest) nothing)) i;
            watched = w;
          })
    | inl some_left ↦ elim (Option-cases (append c.output_buffer rest)) [
      | inl overrun ↦ rw (some_left, overrun, buffer_rest) tt
      | inr (buf, e) ↦
          let (v', p) =
            subst (Appended c.output_buffer rest) e
              (append-Appended c.output_buffer rest i.valid) in
          let stored : TcpConnection = record c { output_buffer = buf } in
          let owes = stored-Owes c.log c.output_buffer buf rest i v' p in
          let filled : ltb 0 (readable_bytes buf) ≡ true = lt→ltb _ _ (
            omega (
              arith,
              ltb→lt _ _ some_left,
              readable-append c.output_buffer buf rest i.valid v' p,
            )) in
          elim (Bool-cases (is_writing c.channel)) [
            | inl on ↦
                rw (some_left, e, on, buffer_rest)
                  (record { content = owes; watched = λ up. on ∙ sym filled })
            | inr off ↦
                rw (some_left, e, off, buffer_rest)
                  (set_channel-Inv (enable_writing c.channel) stored owes
                    (λ up. is_writing-enable_writing c.channel ∙ sym filled))
          ]
    ]
  ]

  module _ (keep : Keep k) where
    sent_directly-Post :
        (bytes : List ℕ) (n : ℕ) (c : TcpConnection)
        → Owes bytes c.log c.output_buffer
        → Watched c.channel c
        → readable_bytes c.output_buffer ≡ 0
        → Post (sent_directly kernel k bytes n c)
    unfolding sent_directly
    sent_directly-Post bytes n c i w idle =
        let e : Event = wrote (take n bytes) in
        let c' : TcpConnection = emit (counted_written n) (emit e c) in
        let nothing : peek c.output_buffer ≡ [] = peek-empty c.output_buffer i.valid idle in
        let owes : Owes (drop n bytes) c'.log c.output_buffer =
          snoc-Owes (counted_written n) (drop n bytes) (c.log ++ (e ∷ [])) c.output_buffer
            (refl, refl)
            (wrote-Owes n c.log c.output_buffer c.output_buffer bytes bytes (drop n bytes) i i.valid
              (ap (λ (l : List ℕ). l ++ bytes) nothing)
              (ap (λ (l : List ℕ). l ++ drop n bytes) nothing)) in
        let w' : Watched c.channel c' =
          (λ up. w (still_up c.log e (still_up (c.log ++ (e ∷ [])) (counted_written n) up))) in
        elim (Bool-cases (leb (length bytes) n)) [
          | inl all ↦
              rw (all, sent_directly)
                (keep.write_complete c' (record {
                  content =
                      subst (λ (l : List ℕ). Owes l c'.log c.output_buffer)
                        (drop_all n bytes (leb→le _ _ all)) owes;
                  watched = w';
                }))
          | inr part ↦ rw (part, sent_directly) (buffer_rest-Post (drop n bytes) c' owes w')
        ]

    -- `send_in_loop`, whatever `write` returns.
    pub send_in_loop-Post :
        (bytes : List ℕ) (c : TcpConnection) → Inv c → Post (send_in_loop kernel k bytes c)
    unfolding send_in_loop
    send_in_loop-Post bytes c i =
        elim (Bool-cases (not (is_writing c.channel) && readable_bytes c.output_buffer == 0)) [
          | inr busy ↦ rw (busy, send_in_loop) (buffer_rest-Post bytes c' owes w)
          | inl idle ↦ go idle (kernel.write c'.log bytes) refl
        ]
      where
        c' : TcpConnection
        c' = emit (requested bytes) c

        owes : Owes bytes (c.log ++ (requested bytes ∷ [])) c.output_buffer
        owes = requested-Owes c.log c.output_buffer bytes i.content

        w : Watched c.channel (emit (requested bytes) c)
        w up = i.watched (still_up c.log (requested bytes) up)

        go :
            (not (is_writing c.channel) && readable_bytes c.output_buffer == 0) ≡ true
            → (r : Written) → kernel.write (c.log ++ (requested bytes ∷ [])) bytes ≡ r
            → Post (send_in_loop kernel k bytes c)
        go idle (sent n errno) e =
            rw (idle, e, send_in_loop) (sent_directly-Post bytes n c' owes w (ground (arith, idle)))
        go idle (rejected errno) e = elim (Bool-cases (errno == eagain)) [
          | inl later ↦
              rw (idle, e, later, send_in_loop)
                (buffer_rest-Post bytes (emit (refused errno) c')
                  (snoc-Owes (refused errno) bytes c'.log c.output_buffer (refl, refl) owes)
                  (λ up. w (still_up c'.log (refused errno) up)))
          | inr broken ↦
              rw (idle, e, broken, send_in_loop)
                (handle_error-Post kernel k keep (emit (refused errno) c') i.content.valid)
        ]
