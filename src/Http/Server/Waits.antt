-- ===== src/Http/Server/Waits.antt =====
-- http/http_server.cpp: what the coroutine of a connection does with a request that has not arrived
-- whole, and that it always comes to a stop when nothing of it is left in the buffer.
use lightnet.Common.{
  ltb, lt→ltb, le→ltb, ℕ, zero, suc, ◌+◌, ◌<◌, ◌≡◌, refl, sym, ap, ◌∙◌, subst, true, false, arith,
}
use lightnet.Buffer.{Buffer, peek, retrieve, readable_bytes}
use lightnet.Http.Parser.{
  advance, after_round, parse_loop, parse, HttpParseState, start_line, headers, body, complete,
  error, HttpParser, Round, proceeds, waits, fails, throws, Outcome, returned,
}
use lightnet.Http.Parser.Rounds.{Progress, advance-Progress}
use lightnet.Http.Parser.Pieces.{IsWaiting}
use lightnet.Http.Server.{
  Routes, in_state, after_parse, serve, resume_read, Suspension, reading, spins,
}

-- Where `parse` has returned in a state in which it waits, the next round waits.
last_round :
    (next : HttpParser → Buffer → Outcome) (p q : HttpParser) (buf left : Buffer) (r : Round)
    → advance p (peek buf) ≡ r
    → Progress p (peek buf) r
    → IsWaiting q.state
    → ((p' : HttpParser) (b : Buffer) → next p' b ≡ returned q left → advance q (peek left) ≡ waits)
    → after_round next p buf r ≡ returned q left
    → advance q (peek left) ≡ waits
last_round next p q buf left (proceeds n p') a d w ih e = ih p' (retrieve buf n) e
last_round next p q buf left waits a d w ih e =
    let pe : p ≡ q = cc e in
    let be : buf ≡ left = cc e in sym (λ i. advance (pe i) (peek (be i))) ∙ a
last_round next p q buf left (fails p') a d w ih e =
    let pe : p' ≡ q = cc e in
    absurd (subst IsWaiting (sym (ap (λ (z : HttpParser). z.state) pe) ∙ d) w)
last_round next p q buf left (throws n x) a d w ih e = absurd (cc e)

parse_loop-waits :
    (fuel : ℕ) (p q : HttpParser) (buf left : Buffer)
    → IsWaiting q.state
    → parse_loop fuel p buf ≡ returned q left
    → advance q (peek left) ≡ waits
unfolding parse_loop
parse_loop-waits zero p q buf left w e = absurd (cc e)
parse_loop-waits (suc fuel) p q buf left w e =
    last_round (parse_loop fuel) p q buf left (advance p (peek buf)) refl
      (advance-Progress p (peek buf)) w (λ p' b e'. parse_loop-waits fuel p' q b left w e') e

-- The same call again does nothing.
parse_again :
    (p q : HttpParser) (buf left : Buffer)
    → IsWaiting q.state
    → parse p buf ≡ returned q left
    → parse q left ≡ returned q left
unfolding parse parse_loop
parse_again p q buf left w e =
    let a : advance q (peek left) ≡ waits =
      parse_loop-waits (readable_bytes buf + 3) p q buf left w e in
    let more : readable_bytes left + 3 ≡ suc (readable_bytes left + 2) = omega arith in
    ap (λ (f : ℕ). parse_loop f q left) more
    ∙ ap (after_round (parse_loop (readable_bytes left + 2)) q left) a

in_state-waiting :
    (next : HttpParser → Buffer → Suspension) (routes : Routes) (s : HttpParseState)
    (q : HttpParser) (left : Buffer)
    → IsWaiting s
    → in_state next routes s q left ≡ next q left
in_state-waiting next routes start_line q left w = refl
in_state-waiting next routes headers q left w = refl
in_state-waiting next routes body q left w = refl
in_state-waiting next routes complete q left w = absurd w
in_state-waiting next routes error q left w = absurd w

serve-spins :
    (fuel : ℕ) (routes : Routes) (q : HttpParser) (left : Buffer)
    → IsWaiting q.state
    → ltb 0 (readable_bytes left) ≡ true
    → parse q left ≡ returned q left
    → serve fuel true routes q left ≡ spins
unfolding serve
serve-spins zero routes q left w some_left again = refl
serve-spins (suc fuel) routes q left w some_left again = rw some_left (
    ap (after_parse (serve fuel true routes) routes) again
    ∙ in_state-waiting (serve fuel true routes) routes q.state q left w
    ∙ serve-spins fuel routes q left w some_left again)

-- When bytes have come on a connection that is up, and `parse` has taken what it can and waits for the
-- rest of the request: if bytes are left over in the buffer, a line or a body that is not whole, the
-- coroutine never stops, however long it runs; if none are, it suspends until more bytes come.
pub resume_read-waits :
    (fuel : ℕ) (routes : Routes) (p q : HttpParser) (buf left : Buffer)
    → IsWaiting q.state
    → parse p buf ≡ returned q left
    → (0 < readable_bytes left → resume_read fuel true routes p buf ≡ spins)
      × (readable_bytes left ≡ 0 → resume_read (suc fuel) true routes p buf ≡ reading q left)
unfolding resume_read serve
resume_read-waits fuel routes p q buf left w e = (
  λ some_left.
      ap (after_parse (serve fuel true routes) routes) e
      ∙ in_state-waiting (serve fuel true routes) routes q.state q left w
      ∙ serve-spins fuel routes q left w (lt→ltb _ _ some_left) (parse_again p q buf left w e),
  λ nothing.
      let empty : ltb 0 (readable_bytes left) ≡ false = le→ltb _ _ (omega (arith, nothing)) in
      ap (after_parse (serve (suc fuel) true routes) routes) e
      ∙ in_state-waiting (serve (suc fuel) true routes) routes q.state q left w
      ∙ (rw empty refl),
)
