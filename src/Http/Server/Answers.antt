-- ===== src/Http/Server/Answers.antt =====
-- http/http_server.cpp: the coroutine of a connection on the text of whole requests, one behind the
-- other in the input buffer.
use lightnet.Common.{
  ltb, lt→ltb, le→ltb, All, length, length-append, if◌then◌else◌, ℕ, zero, suc, ◌+◌, ◌<◌, ◌≡◌, refl,
  sym, ap, subst, Bool, true, false, List, [], ◌∷◌, ◌++◌, arith,
}
use lightnet.Buffer.{Buffer, peek, retrieve, readable_bytes}
use lightnet.Buffer.Space.{IsValid, length-peek}
use lightnet.Buffer.Take.{retrieve_lem}
use lightnet.Http.Message.{HttpRequest, crlf, header_lines, serialize}
use lightnet.Http.Parser.{
  HttpParser, new_parser, reset, advance, after_round, parse_loop, parse, Round, proceeds, waits,
  fails, throws, Outcome, returned, threw, out_of_fuel,
}
use lightnet.Http.Parser.Pieces.{view, left}
use lightnet.Http.Parser.Lines.{request_line, request_text, stays_alive, IsRequest}
use lightnet.Http.Parser.Whole.{as_read, IsSized, finished, parse_request}
use lightnet.Http.Server.{
  Routes, dispatch, after_parse, serve, resume_write, handle_connection, Suspension, reading,
  writing, shut,
}

-- The request fits its text.
abbrev pub IsWhole : HttpRequest → Type 0
IsWhole r = IsRequest r × IsSized r

abbrev pub request_texts : List HttpRequest → List ℕ
request_texts [] = []
request_texts (r ∷ rs) = request_text r ++ request_texts rs

-- The buffer that an outcome leaves.
abbrev Leaves : (Buffer → Type 0) → Outcome → Type 0
Leaves P (returned q b) = P b
Leaves P (threw e q b) = P b
Leaves P out_of_fuel = Unit

after_round-IsValid :
    (next : HttpParser → Buffer → Outcome) (p : HttpParser) (buf : Buffer) (r : Round)
    → IsValid buf
    → ((q : HttpParser) (b : Buffer) → IsValid b → Leaves IsValid (next q b))
    → Leaves IsValid (after_round next p buf r)
after_round-IsValid next p buf (proceeds n q) v ih = ih q (retrieve buf n) (retrieve_lem buf n v).0
after_round-IsValid next p buf waits v ih = v
after_round-IsValid next p buf (fails q) v ih = v
after_round-IsValid next p buf (throws n e) v ih = (retrieve_lem buf n v).0

parse_loop-IsValid :
    (fuel : ℕ) (p : HttpParser) (buf : Buffer)
    → IsValid buf
    → Leaves IsValid (parse_loop fuel p buf)
unfolding parse_loop
parse_loop-IsValid zero p buf v = tt
parse_loop-IsValid (suc fuel) p buf v =
    after_round-IsValid (parse_loop fuel) p buf (advance p (peek buf)) v (parse_loop-IsValid fuel)

parse-IsValid : (p : HttpParser) (buf : Buffer) → IsValid buf → Leaves IsValid (parse p buf)
unfolding parse
parse-IsValid p buf v = parse_loop-IsValid (readable_bytes buf + 3) p buf v

-- An outcome that looks as if `parse` had returned is one.
returned_view :
    (o : Outcome) (p : HttpParser) (xs : List ℕ)
    → Leaves IsValid o
    → view o ≡ left p xs
    → (b : Buffer) × (o ≡ returned p b) × (peek b ≡ xs) × IsValid b
returned_view (returned q b) p xs v e =
    let pe : q ≡ p = cc e in
    let be : peek b ≡ xs = cc e in (b, ap (λ (z : HttpParser). returned z b) pe, be, v)
returned_view (threw x q b) p xs v e = absurd (cc e)
returned_view out_of_fuel p xs v e = absurd (cc e)

request_text-long : (r : HttpRequest) → 0 < length (request_text r)
request_text-long r = omega (
  arith,
  length-append r.method (b' ' ∷ (r.path ++ (b' ' ∷ r.version))),
  length-append (request_line r) (crlf ++ (header_lines r.headers ++ (crlf ++ r.body))),
)

-- The coroutine, in the suspension given, sends the responses to the requests in turn, each when the
-- one before it has been sent. Behind the first request that is not to be kept alive it shuts the
-- connection down; behind the last one, with all of the input taken, a new parser waits for more.
abbrev pub Answers : ℕ → Routes → List HttpRequest → Suspension → Type 0
Answers fuel routes [] s = (b : Buffer) × (s ≡ reading new_parser b) × (peek b ≡ [])
Answers fuel routes (r ∷ rs) s =
    (b : Buffer) × (s ≡ writing (serialize (dispatch routes (as_read r))) (finished r) b)
    × (if stays_alive true r.headers
        then Answers fuel routes rs (resume_write fuel true routes (finished r) b)
        else (resume_write fuel true routes (finished r) b ≡ shut b))

serve-request :
    (fuel : ℕ) (routes : Routes) (r : HttpRequest) (more : List ℕ) (buf : Buffer)
    → IsWhole r
    → IsValid buf
    → peek buf ≡ request_text r ++ more
    → (b : Buffer) × (serve (suc fuel) true routes new_parser buf
        ≡ writing (serialize (dispatch routes (as_read r))) (finished r) b)
      × (peek b ≡ more)
      × IsValid b
unfolding serve
serve-request fuel routes r more buf (i, s) v e =
    let (b, p, q, v') =
      returned_view (parse new_parser buf) (finished r) more (parse-IsValid new_parser buf v)
        (parse_request r more buf i s v e) in
    let some_left : ltb 0 (readable_bytes buf) ≡ true = lt→ltb _ _ (
      omega (
        arith,
        length-peek buf v,
        ap length e,
        length-append (request_text r) more,
        request_text-long r,
      )) in
    (b, rw some_left (ap (after_parse (serve fuel true routes) routes) p), q, v')

serve-nothing :
    (fuel : ℕ) (routes : Routes) (buf : Buffer)
    → IsValid buf
    → peek buf ≡ []
    → serve (suc fuel) true routes new_parser buf ≡ reading new_parser buf
unfolding serve
serve-nothing fuel routes buf v e =
    let empty : ltb 0 (readable_bytes buf) ≡ false =
      le→ltb _ _ (omega (arith, length-peek buf v, ap length e)) in
    rw empty refl

-- What `resume_write` goes on with, by the header of the request that has been answered.
after_write :
    (fuel : ℕ) (routes : Routes) (r : HttpRequest) (rs : List HttpRequest) (b : Buffer)
    (alive : Bool)
    → stays_alive true r.headers ≡ alive
    → Answers (suc fuel) routes rs (serve (suc fuel) true routes new_parser b)
    → (if alive
        then Answers (suc fuel) routes rs (resume_write (suc fuel) true routes (finished r) b)
        else (resume_write (suc fuel) true routes (finished r) b ≡ shut b))
unfolding resume_write reset
after_write fuel routes r rs b true e next =
    subst (Answers (suc fuel) routes rs)
      (sym (
        ap (λ (a : Bool). if a then serve (suc fuel) true routes (reset (finished r)) b else shut b)
          e))
      next
after_write fuel routes r rs b false e next =
    ap (λ (a : Bool). if a then serve (suc fuel) true routes (reset (finished r)) b else shut b) e

-- On a connection that is up, with the text of whole requests, one behind the other, in a valid buffer
-- and nothing behind them: whenever a response has been sent, `handle_connection` sends the next
-- request's, as its route makes it, in their order, until one has asked to be the last, behind which it
-- shuts the connection down; if none does, it waits for more with a new parser and no input left. It
-- needs one round of its loop for each.
pub handle_connection-Answers :
    (fuel : ℕ) (routes : Routes) (rs : List HttpRequest) (buf : Buffer)
    → All IsWhole rs
    → IsValid buf
    → peek buf ≡ request_texts rs
    → Answers (suc fuel) routes rs (handle_connection (suc fuel) true routes buf)
handle_connection-Answers fuel routes [] buf w v e = (buf, serve-nothing fuel routes buf v e, e)
handle_connection-Answers fuel routes (r ∷ rs) buf (w, ws) v e =
    let (b, s, q, v') = serve-request fuel routes r (request_texts rs) buf w v e in
    (
      b,
      s,
      after_write fuel routes r rs b (stays_alive true r.headers) refl
          (handle_connection-Answers fuel routes rs b ws v' q),
    )
