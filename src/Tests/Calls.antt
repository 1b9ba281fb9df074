-- ===== src/Tests/Calls.antt =====
-- Runs of the RPC codec and server.
use lightnet.Common.{
  true, bytes_eq, length, take, drop, replicate, take_all, codes, le_bytes, ℕ, ◌+◌, ◌≡◌, refl, ap,
  ◌≢◌, some, List, [], ◌∷◌, ◌++◌, arith,
}
use lightnet.Buffer.{Buffer, peek, retrieve}
use lightnet.Buffer.Space.{IsValid}
use lightnet.Rpc.Codec.{type_code, type_of, decode_at, decode, request, oneway, RpcMessage}
use lightnet.Rpc.Codec.RoundTrip.{wire, decode-wire}
use lightnet.Rpc.Server.Answers.{Answers, resume_read-Answers}
use lightnet.Rpc.Server.{resume_read, Handlers, find_handler, dispatch, drain, done, out_of_fuel}
use lightnet.Rpc.Server.Replies.{wires, replies, drain-wires, drain-ne-out_of_fuel}

abbrev call : RpcMessage
call = record { type = request; request_id = 7; method = codes "up"; payload = codes "x" }

abbrev note : RpcMessage
note = record call { type = oneway; request_id = 8 }

-- A buffer with the given readable bytes.
abbrev holding : List ℕ → Buffer
holding xs = record {
  storage = 0 ∷ 0 ∷ 0 ∷ 0 ∷ 0 ∷ 0 ∷ 0 ∷ 0 ∷ xs;
  reader_index = 8;
  writer_index = 8 + length xs;
}

holding-IsValid : (xs : List ℕ) → IsValid (holding xs)
holding-IsValid xs = omega arith

peek-holding : (xs : List ℕ) → peek (holding xs) ≡ xs
unfolding peek
peek-holding xs = ap (drop 8) (take_all (8 + length xs) (holding xs).storage (omega arith))

decode-wire_example :
    (left : Buffer) × (decode (holding (wire call ++ codes "LN")) ≡ some (call, left))
    × IsValid left
    × (peek left ≡ codes "LN")
decode-wire_example =
    decode-wire call (codes "LN") (holding (wire call ++ codes "LN")) (omega arith)
      (holding-IsValid (wire call ++ codes "LN")) (peek-holding (wire call ++ codes "LN"))

abbrev front : List ℕ
front = take 22 (wire call)

abbrev emptied : Buffer
emptied = record { storage = replicate 8 0 ++ wire call; reader_index = 8; writer_index = 8 }

decode-call : decode (holding (wire call)) ≡ some (call, emptied)
unfolding decode decode_at peek retrieve le_bytes type_code type_of
decode-call = refl

-- A handler that repeats its payload.
abbrev handlers : Handlers
handlers = (codes "up", λ payload. payload ++ payload) ∷ []

drain-wires_example :
    (left : Buffer) × (drain 3 handlers (holding (wires (call ∷ note ∷ []) ++ codes "LN"))
      ≡ done (replies handlers (call ∷ note ∷ [])) left)
    × (peek left ≡ codes "LN")
unfolding dispatch find_handler bytes_eq decode_at
drain-wires_example =
    drain-wires handlers (call ∷ note ∷ []) (codes "LN") 3
      (holding (wires (call ∷ note ∷ []) ++ codes "LN")) (omega arith) (omega arith) refl
      (omega arith) (holding-IsValid (wires (call ∷ note ∷ []) ++ codes "LN"))
      (peek-holding (wires (call ∷ note ∷ []) ++ codes "LN"))

-- A call, a note, a call, and two of the bytes of the magic number.
abbrev calls : List RpcMessage
calls = call ∷ note ∷ call ∷ []

resume_read-Answers_example :
    Answers 3 handlers calls
      (codes "LN")
      (resume_read 3 true handlers (holding (wires calls ++ codes "LN")))
unfolding dispatch find_handler bytes_eq decode_at
resume_read-Answers_example =
    resume_read-Answers 2 handlers calls (codes "LN") (holding (wires calls ++ codes "LN"))
      (omega arith) (omega arith) refl (holding-IsValid (wires calls ++ codes "LN"))
      (peek-holding (wires calls ++ codes "LN"))

drain-ne-out_of_fuel_example : drain 9 handlers (holding (codes "HTTP/1.1")) ≢ out_of_fuel
drain-ne-out_of_fuel_example =
    drain-ne-out_of_fuel handlers 9 (holding (codes "HTTP/1.1"))
      (holding-IsValid (codes "HTTP/1.1"))
      (omega (arith, ap length (peek-holding (codes "HTTP/1.1"))))
