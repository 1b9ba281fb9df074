-- ===== src/Rpc/Server/Replies.antt =====
-- rpc/rpc_server.cpp: what the loop over the buffered messages sends, and when it ends.
use lightnet.Common.{
  of_le, if◌then◌else◌, Option-cases, length, All, ℕ, zero, suc, ◌+◌, ◌≤◌, ◌<◌, ◌≡◌, refl, ap, ◌∙◌,
  ◌≢◌, inl, inr, Bool, true, false, none, some, List, [], ◌∷◌, ◌++◌, append_assoc, arith,
}
use lightnet.Buffer.{Buffer, peek, append, max_capacity}
use lightnet.Buffer.Space.{IsValid}
use lightnet.Rpc.Codec.{magic, decode_at, decode, RpcMessage, IsMessage}
use lightnet.Rpc.Codec.RoundTrip.{wire, encode-wire, decode-wire}
use lightnet.Buffer.Append.{append-peek}
use lightnet.Rpc.Codec.Stream.{decode_bad_magic, decode_takes, decode_tail}
use lightnet.Rpc.Server.{
  answer, Handlers, dispatch, reply, is_request, drain, Outcome, done, out_of_fuel,
}

abbrev pub wires : List RpcMessage → List ℕ
wires [] = []
wires (m ∷ ms) = wire m ++ wires ms

-- The answers that are due: one for each request, none for a response or a one-way call.
abbrev pub replies : Handlers → List RpcMessage → List (List ℕ)
replies hs [] = []
replies hs (m ∷ ms) = if is_request m then wire (reply hs m) ∷ replies hs ms else replies hs ms

-- The answer fits a buffer.
abbrev pub Fits : Handlers → RpcMessage → Type 0
Fits hs m = length m.method + length (dispatch hs m) + 28 ≤ max_capacity

pub drain_stop :
    (hs : Handlers) (fuel : ℕ) (buf : Buffer)
    → decode buf ≡ none
    → drain (suc fuel) hs buf ≡ done [] buf
unfolding drain
drain_stop hs fuel buf e = rw (e, drain)

drain_step :
    (hs : Handlers) (fuel : ℕ) (buf left : Buffer) (m : RpcMessage)
    → decode buf ≡ some (m, left)
    → drain (suc fuel) hs buf
      ≡ (if is_request m then answer hs m (drain fuel hs left) else drain fuel hs left)
unfolding drain
drain_step hs fuel buf left m e = rw (e, drain)

answer-done :
    (hs : Handlers) (m : RpcMessage) (frames : List (List ℕ)) (buf : Buffer)
    → Fits hs m
    → answer hs m (done frames buf) ≡ done (wire (reply hs m) ∷ frames) buf
unfolding answer
answer-done hs m frames buf fit =
    let (encoded, e, held) = encode-wire (reply hs m) fit in rw (e, answer, held.content)

-- A valid buffer holds the messages `ms`, whose fields and answers fit the format, and a rest from
-- which nothing is decoded: with more fuel than messages the loop ends, having sent the answers of
-- exactly the requests among `ms`, in order, and the rest stays in the buffer.
pub drain-wires :
    (hs : Handlers) (ms : List RpcMessage) (tail : List ℕ) (fuel : ℕ) (buf : Buffer)
    → All IsMessage ms
    → All (Fits hs) ms
    → decode_at (length tail) tail ≡ none
    → length ms < fuel
    → IsValid buf
    → peek buf ≡ wires ms ++ tail
    → (buf' : Buffer) × (drain fuel hs buf ≡ done (replies hs ms) buf') × (peek buf' ≡ tail)
drain-wires hs ms tail zero buf ok fit stop enough v e = absurd (omega arith)
drain-wires hs [] tail (suc fuel) buf ok fit stop enough v e =
    (buf, drain_stop hs fuel buf (decode_tail buf tail v e stop), e)
drain-wires hs (m ∷ ms) tail (suc fuel) buf (ok, oks) (fit, fits) stop enough v e =
    let (left, d, v', p) =
      decode-wire m (wires ms ++ tail) buf ok v (e ∙ append_assoc (wire m) (wires ms) tail) in
    let (buf', r, q) = drain-wires hs ms tail fuel left oks fits stop (omega arith) v' p in
    (
      buf',
      drain_step hs fuel buf left m d
          ∙ ap (λ rest. if is_request m then answer hs m rest else rest) r
          ∙ answered (is_request m) (answer-done hs m (replies hs ms) buf' fit),
      q,
    )
  where
    answered :
        (b : Bool) {x : Outcome} {w : List ℕ} {frames : List (List ℕ)} {buf' : Buffer}
        → x ≡ done (w ∷ frames) buf'
        → (if b then x else done frames buf') ≡ done (if b then w ∷ frames else frames) buf'
    answered true h = h
    answered false h = refl

answer-ne-out_of_fuel :
    (hs : Handlers) (m : RpcMessage) (rest : Outcome)
    → rest ≢ out_of_fuel
    → answer hs m rest ≢ out_of_fuel
unfolding answer
answer-ne-out_of_fuel hs m rest h = ground arith

-- With more fuel than readable bytes, the loop ends on every valid buffer, whatever its bytes are.
pub drain-ne-out_of_fuel :
    (hs : Handlers) (fuel : ℕ) (buf : Buffer)
    → IsValid buf
    → length (peek buf) < fuel
    → drain fuel hs buf ≢ out_of_fuel
drain-ne-out_of_fuel hs zero buf v enough = absurd (omega arith)
drain-ne-out_of_fuel hs (suc fuel) buf v enough = elim (Option-cases (decode buf)) [
  | inl stop ↦ rw (drain_stop hs fuel buf stop) (λ e. cc)
  | inr ((m, left), d) ↦
      let (v', shorter) = decode_takes buf left m v d in
      let rest = drain-ne-out_of_fuel hs fuel left v' (omega arith) in
      rw (drain_step hs fuel buf left m d)
        (either (is_request m) (answer-ne-out_of_fuel hs m (drain fuel hs left) rest) rest)
]
  where
    either :
        (b : Bool) {x y : Outcome}
        → x ≢ out_of_fuel
        → y ≢ out_of_fuel
        → (if b then x else y) ≢ out_of_fuel
    either true h k = h
    either false h k = k

-- Where the first four readable bytes of a valid buffer are not the magic number, whatever arrives
-- behind them, within the capacity limit, is kept, and the loop sends nothing.
drain_stuck :
    (hs : Handlers) (fuel : ℕ) (buf : Buffer) (a b c d : ℕ) (rest more : List ℕ)
    → IsValid buf
    → peek buf ≡ a ∷ b ∷ c ∷ d ∷ rest
    → of_le (a ∷ b ∷ c ∷ d ∷ []) ≢ magic
    → buf.writer_index + length more ≤ max_capacity
    → (buf' : Buffer) × (append buf more ≡ some buf')
      × (drain (suc fuel) hs buf' ≡ done [] buf')
      × (peek buf' ≡ peek buf ++ more)
drain_stuck hs fuel buf a b c d rest more v e wrong fits =
    let (buf', added, v', p) = append-peek buf more v fits in
    let front : peek buf' ≡ a ∷ b ∷ c ∷ d ∷ (rest ++ more) = p ∙ ap (λ xs. xs ++ more) e in
    (
      buf',
      added,
      drain_stop hs fuel buf' (decode_bad_magic buf' a b c d (rest ++ more) front wrong),
      p,
    )
