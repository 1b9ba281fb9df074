-- ===== src/Net/Connection/Log.antt =====
-- net/tcp_connection.cpp: what a connection's log says of the bytes to send, and the invariant that
-- ties it to the output buffer and to the interest in write events.
use lightnet.Common.{
  ℕ, ◌≡◌, refl, sym, ap, ◌∙◌, Bool, true, false, ◌||◌, ltb, Option, none, some, ◌>>=◌, List, [],
  ◌∷◌, ◌++◌, append_assoc, append-nil, arith,
}
use lightnet.Buffer.{Buffer, readable_bytes, peek}
use lightnet.Buffer.Space.{IsValid}
use lightnet.Core.Channel.{Channel, is_writing, update_operation, updated}
use lightnet.Net.Connection.{
  Event, requested, wrote, refused, received, counted_read, counted_written, controlled, shut_down,
  closing, queued, TcpConnection, emit, set_channel,
}

abbrev requested_by : Event → List ℕ
requested_by (requested bytes) = bytes
requested_by (wrote bytes) = []
requested_by (refused errno) = []
requested_by (received bytes) = []
requested_by (counted_read n) = []
requested_by (counted_written n) = []
requested_by (controlled op events) = []
requested_by shut_down = []
requested_by closing = []
requested_by (queued task) = []

abbrev written_by : Event → List ℕ
written_by (requested bytes) = []
written_by (wrote bytes) = bytes
written_by (refused errno) = []
written_by (received bytes) = []
written_by (counted_read n) = []
written_by (counted_written n) = []
written_by (controlled op events) = []
written_by shut_down = []
written_by closing = []
written_by (queued task) = []

abbrev pub closes : Event → Bool
closes closing = true
closes (requested bytes) = false
closes (wrote bytes) = false
closes (refused errno) = false
closes (received bytes) = false
closes (counted_read n) = false
closes (counted_written n) = false
closes (controlled op events) = false
closes shut_down = false
closes (queued task) = false

-- All bytes that were to be sent, all that the kernel took, and whether `handle_close` has run.
unfoldable pub requests : List Event → List ℕ
requests [] = []
requests (e ∷ es) = requested_by e ++ requests es

unfoldable pub writes : List Event → List ℕ
writes [] = []
writes (e ∷ es) = written_by e ++ writes es

unfoldable pub closed : List Event → Bool
closed [] = false
closed (e ∷ es) = closes e || closed es

pub requests-snoc :
    (l : List Event) (e : Event) → requests (l ++ (e ∷ [])) ≡ requests l ++ requested_by e
unfolding requests
requests-snoc [] e = append-nil (requested_by e)
requests-snoc (x ∷ l) e =
    ap (◌++◌ (requested_by x)) (requests-snoc l e)
    ∙ sym (append_assoc (requested_by x) (requests l) (requested_by e))

pub writes-snoc : (l : List Event) (e : Event) → writes (l ++ (e ∷ [])) ≡ writes l ++ written_by e
unfolding writes
writes-snoc [] e = append-nil (written_by e)
writes-snoc (x ∷ l) e =
    ap (◌++◌ (written_by x)) (writes-snoc l e)
    ∙ sym (append_assoc (written_by x) (writes l) (written_by e))

pub closed-snoc : (l : List Event) (e : Event) → closed (l ++ (e ∷ [])) ≡ (closed l || closes e)
unfolding closed
closed-snoc [] e = ground arith
closed-snoc (x ∷ l) e = ground (arith, closed-snoc l e)

-- Until `handle_close` runs, the bytes written, those in the output buffer and `rest`, which is still
-- to be stored, are the bytes to send, in order.
pub record Owes (rest : List ℕ) (log : List Event) (buf : Buffer) : Type 0 where
  pub valid : IsValid buf
  pub in_order : closed log ≡ false → writes log ++ (peek buf ++ rest) ≡ requests log

-- Until then, write events are watched exactly while the output buffer is not empty.
abbrev pub Watched : Channel → TcpConnection → Type 0
Watched ch c = closed c.log ≡ false → is_writing ch ≡ ltb 0 (readable_bytes c.output_buffer)

pub record Inv (c : TcpConnection) : Type 0 where
  pub content : Owes [] c.log c.output_buffer
  pub watched : Watched c.channel c

-- Of an operation's result, where it has overrun no buffer.
abbrev pub Post : Option TcpConnection → Type 0
Post none = Unit {0}
Post (some c) = Inv c

pub >>=-Post :
    (m : Option TcpConnection) (f : TcpConnection → Option TcpConnection)
    → Post m
    → ((c : TcpConnection) → Inv c → Post (f c))
    → Post (m >>= f)
>>=-Post none f h k = tt
>>=-Post (some c) f h k = k c h

pub still_up : (l : List Event) (e : Event) → closed (l ++ (e ∷ [])) ≡ false → closed l ≡ false
still_up l e up = left (closed l) (closes e) (sym (closed-snoc l e) ∙ up)
  where
    left : (a b : Bool) → (a || b) ≡ false → a ≡ false
    left true b h = h
    left false b h = refl

-- An event that says nothing of the bytes to send.
abbrev IsQuiet : Event → Type 0
IsQuiet e = (requested_by e ≡ []) × (written_by e ≡ [])

pub snoc-Owes :
    (e : Event) (rest : List ℕ) (log : List Event) (buf : Buffer)
    → IsQuiet e
    → Owes rest log buf
    → Owes rest (log ++ (e ∷ [])) buf
snoc-Owes e rest log buf (r, w) i = record {
  valid = i.valid;
  in_order = λ up.
      ap (λ (l : List ℕ). l ++ (peek buf ++ rest))
        (writes-snoc log e ∙ ap (◌++◌ (writes log)) w ∙ append-nil (writes log))
      ∙ i.in_order (still_up log e up)
      ∙ sym (requests-snoc log e ∙ ap (◌++◌ (requests log)) r ∙ append-nil (requests log));
}

pub emit-Inv : (e : Event) (c : TcpConnection) → IsQuiet e → Inv c → Inv (emit e c)
emit-Inv e c quiet i = record {
  content = snoc-Owes e [] c.log c.output_buffer quiet i.content;
  watched = λ up. i.watched (still_up c.log e up);
}

clash : ¬ (true ≡ false)
clash e = cc

-- What holds of a connection that `handle_close` has closed.
pub closed-Inv : (c : TcpConnection) → IsValid c.output_buffer → closed c.log ≡ true → Inv c
closed-Inv c v down = record {
  content = record { valid = v; in_order = λ up. absurd (clash (sym down ∙ up)) };
  watched = λ up. absurd (clash (sym down ∙ up));
}

-- A new mask, with `epoll_ctl` called.
pub set_channel-Inv :
    (ch : Channel) (c : TcpConnection)
    → Owes [] c.log c.output_buffer
    → Watched ch c
    → Inv (set_channel ch c)
unfolding set_channel updated
set_channel-Inv ch c i w =
    let e : Event = controlled (update_operation ch) ch.events in
    record {
      content = snoc-Owes e [] c.log c.output_buffer (refl, refl) i;
      watched = λ up. w (still_up c.log e up);
    }
