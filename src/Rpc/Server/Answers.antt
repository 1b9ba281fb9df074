-- ===== src/Rpc/Server/Answers.antt =====
-- rpc/rpc_server.cpp: the coroutine of a connection on messages that stand in the input buffer, one
-- behind the other, and on what follows them.
use lightnet.Common.{
  ltb, lt→ltb, le→ltb, if◌then◌else◌, Option-cases, length, All, ℕ, zero, suc, ◌<◌, ◌≡◌, refl, sym,
  ap, ◌∙◌, subst, inl, inr, Bool, true, false, none, some, List, [], ◌∷◌, ◌++◌, append_assoc, arith,
}
use lightnet.Buffer.{Buffer, peek, readable_bytes}
use lightnet.Buffer.Space.{IsValid, length-peek}
use lightnet.Rpc.Codec.{decode_at, decode, RpcMessage, IsMessage}
use lightnet.Rpc.Codec.RoundTrip.{wire, encode-wire, decode-wire}
use lightnet.Rpc.Codec.Stream.{decode_takes, decode_tail}
use lightnet.Rpc.Server.{
  Handlers, reply, is_request, write_answer, next_answer, serve, resume_read, resume_write,
  Suspension, reading, writing, spins,
}
use lightnet.Rpc.Server.Replies.{wires, Fits}

next_answer_stop :
    (hs : Handlers) (fuel : ℕ) (next : Buffer → Suspension) (buf : Buffer)
    → decode buf ≡ none
    → next_answer (suc fuel) hs next buf ≡ next buf
unfolding next_answer
next_answer_stop hs fuel next buf e = rw (e, next_answer)

next_answer_step :
    (hs : Handlers) (fuel : ℕ) (next : Buffer → Suspension) (buf left : Buffer) (m : RpcMessage)
    → decode buf ≡ some (m, left)
    → next_answer (suc fuel) hs next buf
      ≡ (if is_request m then write_answer hs m left else next_answer fuel hs next left)
unfolding next_answer
next_answer_step hs fuel next buf left m e = rw (e, next_answer)

-- Any fuel above the number of readable bytes is enough.
next_answer_enough :
    (hs : Handlers) (f g : ℕ) (next : Buffer → Suspension) (buf : Buffer)
    → IsValid buf
    → length (peek buf) < f
    → length (peek buf) < g
    → next_answer f hs next buf ≡ next_answer g hs next buf
next_answer_enough hs zero g next buf v h k = absurd (omega arith)
next_answer_enough hs (suc f) zero next buf v h k = absurd (omega arith)
next_answer_enough hs (suc f) (suc g) next buf v h k = elim (Option-cases (decode buf)) [
  | inl stop ↦ next_answer_stop hs f next buf stop ∙ sym (next_answer_stop hs g next buf stop)
  | inr ((m, left), d) ↦
      let (v', shorter) = decode_takes buf left m v d in
      next_answer_step hs f next buf left m d
      ∙ ap (λ (s : Suspension). if is_request m then write_answer hs m left else s)
          (next_answer_enough hs f g next left v' (omega arith) (omega arith))
      ∙ sym (next_answer_step hs g next buf left m d)
]

-- The coroutine, in the suspension given, sends the answers to the requests among the messages, in
-- turn, each when the one before it has been sent. Behind the last message, if nothing follows it, the
-- coroutine waits for more; if bytes follow, it never suspends.
abbrev pub Answers : ℕ → Handlers → List RpcMessage → List ℕ → Suspension → Type 0
Answers fuel hs [] [] s = (b : Buffer) × (s ≡ reading b) × (peek b ≡ [])
Answers fuel hs [] (x ∷ tail) s = s ≡ spins
Answers fuel hs (m ∷ ms) tail s =
    if is_request m
    then ((b : Buffer) × (s ≡ writing (wire (reply hs m)) b)
        × (peek b ≡ wires ms ++ tail)
        × Answers fuel hs ms tail (resume_write fuel true hs b))
    else Answers fuel hs ms tail s

serve-spins :
    (fuel : ℕ) (hs : Handlers) (left : Buffer)
    → ltb 0 (readable_bytes left) ≡ true
    → decode left ≡ none
    → serve fuel true hs left ≡ spins
unfolding serve
serve-spins zero hs left some_left stop = refl
serve-spins (suc fuel) hs left some_left stop = rw some_left (
    next_answer_stop hs (length (peek left)) (serve fuel true hs) left stop
    ∙ serve-spins fuel hs left some_left stop)

-- Nothing is decoded any more.
behind :
    (fuel : ℕ) (hs : Handlers) (tail : List ℕ) (buf : Buffer)
    → IsValid buf
    → decode buf ≡ none
    → peek buf ≡ tail
    → Answers (suc fuel) hs [] tail (resume_read (suc fuel) true hs buf)
unfolding resume_read serve
behind fuel hs [] buf v stop e =
    let empty : ltb 0 (readable_bytes buf) ≡ false =
      le→ltb _ _ (omega (arith, length-peek buf v, ap length e)) in
    (
      buf,
      next_answer_stop hs (length (peek buf)) (serve (suc fuel) true hs) buf stop ∙ rw empty refl,
      e,
    )
behind fuel hs (x ∷ tail) buf v stop e =
    let some_left : ltb 0 (readable_bytes buf) ≡ true =
      lt→ltb _ _ (omega (arith, length-peek buf v, ap length e)) in
    next_answer_stop hs (length (peek buf)) (serve (suc fuel) true hs) buf stop
    ∙ serve-spins (suc fuel) hs buf some_left stop

-- A message in front of the rest.
resume_read-step :
    (fuel : ℕ) (hs : Handlers) (m : RpcMessage) (buf left : Buffer)
    → IsValid buf
    → decode buf ≡ some (m, left)
    → resume_read fuel true hs buf
      ≡ (if is_request m then write_answer hs m left else resume_read fuel true hs left)
unfolding resume_read
resume_read-step fuel hs m buf left v d =
    let (v', shorter) = decode_takes buf left m v d in
    next_answer_step hs (length (peek buf)) (serve fuel true hs) buf left m d
    ∙ ap (λ (s : Suspension). if is_request m then write_answer hs m left else s)
        (next_answer_enough hs (length (peek buf)) (suc (length (peek left))) (serve fuel true hs)
          left v' (omega arith) (omega arith))

write_answer-writing :
    (hs : Handlers) (m : RpcMessage) (left : Buffer)
    → Fits hs m
    → write_answer hs m left ≡ writing (wire (reply hs m)) left
unfolding write_answer
write_answer-writing hs m left fit =
    let (encoded, e, held) = encode-wire (reply hs m) fit in rw (e, write_answer, held.content) refl

message_first :
    (fuel : ℕ) (hs : Handlers) (m : RpcMessage) (ms : List RpcMessage) (tail : List ℕ)
    (buf left : Buffer) (asks : Bool)
    → is_request m ≡ asks
    → Fits hs m
    → IsValid buf
    → decode buf ≡ some (m, left)
    → peek left ≡ wires ms ++ tail
    → Answers fuel hs ms tail (resume_read fuel true hs left)
    → (if asks
        then ((b : Buffer) × (resume_read fuel true hs buf ≡ writing (wire (reply hs m)) b)
            × (peek b ≡ wires ms ++ tail)
            × Answers fuel hs ms tail (resume_write fuel true hs b))
        else Answers fuel hs ms tail (resume_read fuel true hs buf))
unfolding resume_read resume_write
message_first fuel hs m ms tail buf left true asks fit v d p rest = (
  left,
  resume_read-step fuel hs m buf left v d
      ∙ ap (λ (a : Bool). if a then write_answer hs m left else resume_read fuel true hs left) asks
      ∙ write_answer-writing hs m left fit,
  p,
  rest,
)
message_first fuel hs m ms tail buf left false asks fit v d p rest =
    subst (Answers fuel hs ms tail)
      (sym (
        resume_read-step fuel hs m buf left v d
        ∙ ap (λ (a : Bool). if a then write_answer hs m left else resume_read fuel true hs left)
            asks))
      rest

-- On a connection that is up, with the messages `ms`, whose fields and answers fit the format, in a
-- valid buffer, and a rest behind them from which nothing is decoded: from when the coroutine is
-- resumed it sends the answers of exactly the requests among `ms`, in order, and stops at each until it
-- has been sent; behind the last message it waits for more if the rest is empty, with no input left,
-- and never suspends again, however long it runs, if the rest is not: a message that is not whole.
pub resume_read-Answers :
    (fuel : ℕ) (hs : Handlers) (ms : List RpcMessage) (tail : List ℕ) (buf : Buffer)
    → All IsMessage ms
    → All (Fits hs) ms
    → decode_at (length tail) tail ≡ none
    → IsValid buf
    → peek buf ≡ wires ms ++ tail
    → Answers (suc fuel) hs ms tail (resume_read (suc fuel) true hs buf)
resume_read-Answers fuel hs [] tail buf ok fit stop v e =
    behind fuel hs tail buf v (decode_tail buf tail v e stop) e
resume_read-Answers fuel hs (m ∷ ms) tail buf (ok, oks) (fit, fits) stop v e =
    let (left, d, v', p) =
      decode-wire m (wires ms ++ tail) buf ok v (e ∙ append_assoc (wire m) (wires ms) tail) in
    message_first (suc fuel) hs m ms tail buf left (is_request m) refl fit v d p
      (resume_read-Answers fuel hs ms tail left oks fits stop v' p)
