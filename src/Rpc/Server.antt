-- ===== src/Rpc/Server.antt =====
-- rpc/rpc_server.h and rpc/rpc_server.cpp: the handlers, and what one wake-up of a connection does
-- with the messages in its input buffer. A handler is user code: a function from payload to result.
pub mod Replies
pub mod Answers
pub mod Follows
use lightnet.Common.{
  ltb, leb, ◌==◌, if◌then◌else◌, ltb→lt, lt→ltb, le→ltb, le→leb, lt→leb, ltb→ge, leb→le, leb→gt,
  ==→eq, ==→ne, eq→==, ==-refl, Bool-cases, Option-cases, some_pair-fst, some_pair-snd, bytes_eq,
  bytes_eq_refl, bytes_eq→eq, ◌>>=◌, ◌>>◌, guard, length, take, drop, replicate, get_or, All,
  length-append, length-take, length-drop, length-replicate, take-append-drop, take_all, drop_all,
  drop-nil, take-append_le, drop-append_le, take-append_ge, drop-append_ge, take_front, drop_front,
  drop-drop, drop-take, length-map, take_first, drop_first, get_or-append, to_signed, to_unsigned,
  InRange, to_signed-to_unsigned, to_unsigned-lt, codes, IsByte, le_bytes, of_le, length-le_bytes,
  le_bytes-IsByte, of_le-le_bytes, ℤ, pos, negsuc, ℕ, zero, suc, ◌+◌, ◌-◌, ◌*◌, ◌/◌, ◌%◌, ◌^◌, ◌≤◌,
  ◌<◌, min, max, ◌≡◌, refl, sym, ap, ◌∙◌, subst, ◌≢◌, ◌↔◌, ◌⊎◌, inl, inr, Bool, true, false, not,
  ◌&&◌, ◌||◌, Option, none, some, List, [], ◌∷◌, ◌++◌, map, append_assoc, append-nil, arith,
}
use lightnet.Buffer.{Buffer, peek, readable_bytes}
use lightnet.Rpc.Codec.{
  type_code, type_of, magic, protocol_version, encode, slice, decode_at, decode, IsType,
  type_of-type_code, RpcMessageType, request, response, oneway, unnamed, RpcMessage, IsMessage,
}

abbrev pub Handler : Type 0
Handler = List ℕ → List ℕ

-- `handlers_`, from method name to handler.
abbrev pub Handlers : Type 0
Handlers = List (List ℕ × Handler)

unfoldable pub find_handler : List ℕ → Handlers → Option Handler
find_handler method [] = none
find_handler method ((name, f) ∷ hs) =
    if bytes_eq name method then some f else find_handler method hs

unfoldable register_handler : List ℕ → Handler → Handlers → Handlers
register_handler method f [] = (method, f) ∷ []
register_handler method f ((name, g) ∷ hs) =
    if bytes_eq name method then (method, f) ∷ hs else (name, g) ∷ register_handler method f hs

unfoldable pub dispatch : Handlers → RpcMessage → List ℕ
dispatch hs req = elim (find_handler req.method hs) [
  | some f ↦ f req.payload
  | none ↦ codes "error: unknown method"
]

-- The message that answers a request.
abbrev pub reply : Handlers → RpcMessage → RpcMessage
reply hs req = record {
  type = response;
  request_id = req.request_id;
  method = req.method;
  payload = dispatch hs req;
}

-- What one wake-up comes to: the bytes handed to the connection, in order, and the buffer that is
-- left; a write past a buffer's end; or an end by lack of fuel, which is no behaviour of the code.
pub data Outcome : Type 0 where
  done : List (List ℕ) → Buffer → Outcome
  fault : Outcome
  out_of_fuel : Outcome

abbrev pub and_then : List ℕ → Outcome → Outcome
and_then sent (done frames buf) = done (sent ∷ frames) buf
and_then sent fault = fault
and_then sent out_of_fuel = out_of_fuel

-- `if (req.type == RpcMessageType::kRequest)`.
unfoldable pub is_request : RpcMessage → Bool
is_request m = elim m.type [ request ↦ true | _ ↦ false ]

-- The encoded answer is sent before the next message is decoded.
pub answer : Handlers → RpcMessage → Outcome → Outcome
answer hs req rest = elim (encode (reply hs req)) [
  | some encoded ↦ and_then (peek encoded) rest
  | none ↦ fault
]

-- `while (RpcCodec::decode(...))` on the bytes of a buffer to which none are added while the answers
-- are written: what the loop comes to when each `AsyncWrite` is resumed with the buffer that it left.
-- `next_answer` is the same loop up to the first of them.
pub drain : ℕ → Handlers → Buffer → Outcome
drain zero hs buf = out_of_fuel
drain (suc fuel) hs buf = elim (decode buf) [
  | none ↦ done [] buf
  | some (req, left) ↦
      let rest = drain fuel hs left in if is_request req then answer hs req rest else rest
]

-- Where the coroutine of a connection stops: at an `AsyncRead` that suspends, which it does only for
-- an empty buffer, at the `AsyncWrite` of an answer, which suspends always (coro/scheduler.cpp), or
-- behind the loop, after `shutdown`; or a write past a buffer's end; `spins` when its fuel has run out.
pub data Suspension : Type 0 where
  reading : Buffer → Suspension
  writing : List ℕ → Buffer → Suspension
  shut : Buffer → Suspension
  overrun : Suspension
  spins : Suspension

-- The `AsyncWrite` of an answer, with the buffer behind its request.
unfoldable pub write_answer : Handlers → RpcMessage → Buffer → Suspension
write_answer hs req left = elim (encode (reply hs req)) [
  | some encoded ↦ writing (peek encoded) left
  | none ↦ overrun
]

-- `while (RpcCodec::decode(...))` up to the first answer, where `next` is what follows the loop.
unfoldable pub next_answer : ℕ → Handlers → (Buffer → Suspension) → Buffer → Suspension
next_answer zero hs next buf = spins
next_answer (suc fuel) hs next buf = elim (decode buf) [
  | none ↦ next buf
  | some (req, left) ↦
      let rest = next_answer fuel hs next left in
      if is_request req then write_answer hs req left else rest
]

-- `while (conn->is_connected())` from its test on. Nothing else runs in the loop's thread before the
-- coroutine suspends, so that the test has one value, and nothing is read from the socket. The inner
-- loop has the fuel that it needs.
unfoldable pub serve : ℕ → Bool → Handlers → Buffer → Suspension
serve zero connected hs buf = spins
serve (suc fuel) connected hs buf =
    let next = next_answer (suc (length (peek buf))) hs (serve fuel connected hs) buf in
    if connected then (if ltb 0 (readable_bytes buf) then next else reading buf) else shut buf

-- The coroutine is resumed when bytes have come, and when an answer has been sent: either way it goes
-- on with the inner loop, on what the buffer holds by then.
unfoldable pub resume_read : ℕ → Bool → Handlers → Buffer → Suspension
resume_read fuel connected hs buf =
    next_answer (suc (length (peek buf))) hs (serve fuel connected hs) buf

unfoldable pub resume_write : ℕ → Bool → Handlers → Buffer → Suspension
resume_write fuel connected hs buf =
    next_answer (suc (length (peek buf))) hs (serve fuel connected hs) buf

-- The start of `handle_connection`.
abbrev pub handle_connection : ℕ → Bool → Handlers → Buffer → Suspension
handle_connection fuel connected hs buf = serve fuel connected hs buf
