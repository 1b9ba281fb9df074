-- ===== src/Rpc/Server/Follows.antt =====
-- rpc/rpc_server.cpp: the inner loop of the coroutine, followed from one `AsyncWrite` to the next.
use lightnet.Common.{length, ℕ, zero, suc, []}
use lightnet.Buffer.{Buffer, peek}
use lightnet.Rpc.Server.{
  Handlers, and_then, next_answer, Outcome, done, fault, out_of_fuel, Suspension, reading, writing,
  shut, overrun, spins,
}

-- The loop from the start or from a resumption to its next suspension; `reading` stands for its end.
abbrev pub run_on : Handlers → Buffer → Suspension
run_on hs buf = next_answer (suc (length (peek buf))) hs reading buf

-- Each `AsyncWrite` is resumed with the buffer that it left, as it is when no bytes have come.
abbrev pub follow : ℕ → Handlers → Suspension → Outcome
follow zero hs s = out_of_fuel
follow (suc fuel) hs (reading b) = done [] b
follow (suc fuel) hs (writing bytes b) = and_then bytes (follow fuel hs (run_on hs b))
follow (suc fuel) hs (shut b) = done [] b
follow (suc fuel) hs overrun = fault
follow (suc fuel) hs spins = out_of_fuel
