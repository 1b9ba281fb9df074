-- ===== src/Http/Parser/Whole.antt =====
-- http/http_parser.cpp: `parse` on the whole text of a request.
use lightnet.Common.{
  ltb, le→ltb, length, drop, All, length-append, length-drop, take_front, drop_front, drop-drop,
  codes, ℕ, zero, suc, ◌+◌, ◌<◌, ◌≡◌, refl, sym, ap, ◌∙◌, subst, ◌⊎◌, inl, inr, true, false, List,
  [], ◌∷◌, ◌++◌, append_assoc, arith,
}
use lightnet.Buffer.{Buffer, peek, search_crlf}
use lightnet.Buffer.Space.{IsValid}
use lightnet.Buffer.Find.{search_crlf_line}
use lightnet.Http.Text.{stoul, Headers, number}
use lightnet.Http.Message.{get_header, is_empty, crlf, header_lines, HttpRequest}
use lightnet.Http.Parser.{
  new_parser, set_state, sized, end_headers, advance_start, advance_header, advance_body, with_line,
  advance_in, advance, parse, HttpParseState, start_line, headers, body, complete, HttpParser,
  Round, proceeds,
}
use lightnet.Http.Parser.Rounds.{measure, Progress, advance-Progress}
use lightnet.Http.Parser.Pieces.{view, run, run_enough, parse-run, run_step, left}
use lightnet.Http.Parser.Lines.{
  request_line, request_text, IsText, IsHeader, request_line-IsText, started, advance_start-line,
  gathered, stays_alive, with_header, with_headers, advance_header-line, header-IsText, IsRequest,
}

-- With enough fuel the loop on `xs` comes to what the loop on `ys` comes to.
Runs : HttpParser → List ℕ → HttpParser → List ℕ → Type 0
Runs p xs q ys = (f g : ℕ) → measure p xs < f → measure q ys < g → run f p xs ≡ run g q ys

Runs-trans :
    (p q r : HttpParser) (xs ys zs : List ℕ) → Runs p xs q ys → Runs q ys r zs → Runs p xs r zs
unfolding Runs
Runs-trans p q r xs ys zs a b f g h k =
    a f (suc (measure q ys)) h (omega arith) ∙ b (suc (measure q ys)) g (omega arith) k

Runs-step :
    (p q : HttpParser) (xs : List ℕ) (n : ℕ) → advance p xs ≡ proceeds n q → Runs p xs q (drop n xs)
unfolding Runs
Runs-step p q xs n e zero g h k = absurd (omega arith)
Runs-step p q xs n e (suc f) g h k =
    let (there, nearer) = subst (Progress p xs) e (advance-Progress p xs) in
    run_step f p xs e
    ∙ run_enough f g q (drop n xs) (omega (arith, there, nearer, length-drop n xs)) k

drop_line : (line rest : List ℕ) → drop (length line + 2) (line ++ (13 ∷ 10 ∷ rest)) ≡ rest
drop_line line rest =
    sym (drop-drop 2 (length line) (line ++ (13 ∷ 10 ∷ rest)))
    ∙ ap (drop 2) (drop_front line (13 ∷ 10 ∷ rest))

-- A line in front of a state that reads lines.
line-Runs :
    (p q : HttpParser) (f : HttpParser → List ℕ → Round) (line rest : List ℕ)
    → ((xs : List ℕ) → advance p xs ≡ with_line f p xs (search_crlf xs))
    → IsText 13 line
    → f p line ≡ proceeds (length line + 2) q
    → Runs p (line ++ (13 ∷ 10 ∷ rest)) q rest
line-Runs p q f line rest reads text e =
    let xs : List ℕ = line ++ (13 ∷ 10 ∷ rest) in
    let a : advance p xs ≡ proceeds (length line + 2) q =
      reads xs
      ∙ ap (with_line f p xs) (search_crlf_line line rest text)
      ∙ ap (f p) (take_front line (13 ∷ 10 ∷ rest))
      ∙ e in
    subst (Runs p xs q) (drop_line line rest) (Runs-step p q xs (length line + 2) a)

in_headers :
    (p : HttpParser) (xs : List ℕ)
    → p.state ≡ headers
    → advance p xs ≡ with_line advance_header p xs (search_crlf xs)
unfolding advance
in_headers p xs e = ap (λ (s : HttpParseState). advance_in s p xs) e

in_start :
    (p : HttpParser) (xs : List ℕ)
    → p.state ≡ start_line
    → advance p xs ≡ with_line advance_start p xs (search_crlf xs)
unfolding advance
in_start p xs e = ap (λ (s : HttpParseState). advance_in s p xs) e

headers-Runs :
    (p : HttpParser) (hs : Headers) (rest : List ℕ)
    → p.state ≡ headers
    → All IsHeader hs
    → Runs p (header_lines hs ++ rest) (with_headers p hs) rest
unfolding header_lines Runs
headers-Runs p [] rest e h = λ f g a b. run_enough f g p rest a b
headers-Runs p ((key, val) ∷ hs) rest e (h, more) =
    let line : List ℕ = key ++ (b':' ∷ b' ' ∷ val) in
    let behind : List ℕ = header_lines hs ++ rest in
    let shape : (key ++ (codes ": " ++ (val ++ (crlf ++ header_lines hs)))) ++ rest
        ≡ line ++ (13 ∷ 10 ∷ behind) =
      simp append_assoc in
    subst (λ (xs : List ℕ). Runs p xs (with_headers p ((key, val) ∷ hs)) rest) (sym shape)
      (Runs-trans p (with_header p key val) (with_headers p ((key, val) ∷ hs))
        (line ++ (13 ∷ 10 ∷ behind)) behind rest
        (line-Runs p (with_header p key val) advance_header line behind (λ xs. in_headers p xs e)
          (header-IsText key val h) (advance_header-line p key val h))
        (headers-Runs (with_header p key val) hs rest e more))

-- The request as the parser gives it: of two headers with the same key the last value is kept.
abbrev pub as_read : HttpRequest → HttpRequest
as_read r = record r { headers = gathered [] r.headers }

abbrev content_length_of : HttpRequest → List ℕ
content_length_of r = get_header (as_read r) (codes "Content-Length") []

-- The body has the length that its header says, and without one there is no body.
abbrev pub IsSized : HttpRequest → Type 0
IsSized r =
    ((is_empty (content_length_of r) ≡ true) × (r.body ≡ []))
    ⊎ ((is_empty (content_length_of r) ≡ false)
        × (stoul (content_length_of r) ≡ number (length r.body)))

abbrev pub finished : HttpRequest → HttpParser
finished r = record {
  state = complete;
  request = as_read r;
  content_length = length r.body;
  keep_alive = stays_alive true r.headers;
}

-- The parser behind the headers of `r`.
abbrev after_headers : HttpRequest → HttpParser
after_headers r = with_headers (started new_parser r) r.headers

blank-Runs :
    (p q : HttpParser) (rest : List ℕ)
    → p.state ≡ headers
    → end_headers p ≡ proceeds 2 q
    → Runs p (13 ∷ 10 ∷ rest) q rest
unfolding advance_header
blank-Runs p q rest e h = line-Runs p q advance_header [] rest (λ xs. in_headers p xs e) tt h

body-Runs :
    (r : HttpRequest) (more : List ℕ)
    → (let p : HttpParser = record (after_headers r) {
      content_length = length r.body;
      state = body;
    } in
        Runs p (r.body ++ more) (finished r) more)
unfolding advance advance_body
body-Runs r more =
    let p : HttpParser = record (after_headers r) {
      content_length = length r.body;
      state = body;
    } in
    let xs : List ℕ = r.body ++ more in
    let enough : ltb (length xs) (length r.body) ≡ false =
      le→ltb _ _ (omega (arith, length-append r.body more)) in
    let a : advance p xs ≡ proceeds (length r.body) (finished r) = rw enough (
      ap
        (λ (b : List ℕ).
          proceeds (length r.body)
            (record (finished r) { request = record (as_read r) { body = b } }))
        (take_front r.body more)) in
    subst (Runs p xs (finished r)) (drop_front r.body more)
      (Runs-step p (finished r) xs (length r.body) a)

end-Runs :
    (r : HttpRequest) (more : List ℕ)
    → IsSized r
    → Runs (after_headers r) (13 ∷ 10 ∷ (r.body ++ more)) (finished r) more
unfolding end_headers get_header
end-Runs r more (inl (none_said, no_body)) =
    let p : HttpParser = after_headers r in
    let e : end_headers p ≡ proceeds 2 (set_state p complete) = rw none_said refl in
    let same : set_state p complete ≡ finished r =
      ap
        (λ (b : List ℕ). record (finished r) {
          request = record (as_read r) { body = b };
          content_length = length b;
        })
        (sym no_body) in
    subst (λ (b : List ℕ). Runs p (13 ∷ 10 ∷ (b ++ more)) (finished r) more) (sym no_body)
      (subst (λ (q : HttpParser). Runs p (13 ∷ 10 ∷ more) q more) same
        (blank-Runs p (set_state p complete) more refl e))
end-Runs r more (inr (said, n)) =
    let p : HttpParser = after_headers r in
    let q : HttpParser = record p { content_length = length r.body; state = body } in
    let e : end_headers p ≡ proceeds 2 q = rw said (ap (sized p) n) in
    Runs-trans p q (finished r) (13 ∷ 10 ∷ (r.body ++ more)) (r.body ++ more) more
      (blank-Runs p q (r.body ++ more) refl e) (body-Runs r more)

request-Runs :
    (r : HttpRequest) (more : List ℕ)
    → IsRequest r
    → IsSized r
    → Runs new_parser (request_text r ++ more) (finished r) more
request-Runs r more i s =
    let behind : List ℕ = header_lines r.headers ++ (13 ∷ 10 ∷ (r.body ++ more)) in
    let shape : request_text r ++ more ≡ request_line r ++ (13 ∷ 10 ∷ behind) = simp append_assoc in
    subst (λ (xs : List ℕ). Runs new_parser xs (finished r) more) (sym shape)
      (Runs-trans new_parser (started new_parser r) (finished r) _ behind more
        (line-Runs new_parser (started new_parser r) advance_start (request_line r) behind
          (λ xs. in_start new_parser xs refl) (request_line-IsText r i)
          (advance_start-line new_parser r i))
        (Runs-trans (started new_parser r) (after_headers r) (finished r) behind
          (13 ∷ 10 ∷ (r.body ++ more)) more
          (headers-Runs (started new_parser r) r.headers (13 ∷ 10 ∷ (r.body ++ more)) refl
            i.headers_text)
          (end-Runs r more s)))

-- A request whose method and path have no space, whose path starts with a slash, whose version is of 8
-- bytes or more and starts with HTTP/, whose headers fit their lines (no colon in a name, no space in
-- front of a value), with no CR in any of these, and whose body has the length that its Content-Length
-- header says, or is empty where it has none: when its text stands in front of a valid buffer, a new
-- parser takes exactly that text and returns with the request complete, its headers gathered in a
-- table, and `keep_alive` as its Connection headers say.
pub parse_request :
    (r : HttpRequest) (more : List ℕ) (buf : Buffer)
    → IsRequest r
    → IsSized r
    → IsValid buf
    → peek buf ≡ request_text r ++ more
    → view (parse new_parser buf) ≡ left (finished r) more
unfolding Runs run advance
parse_request r more buf i s v e =
    parse-run new_parser buf v
    ∙ ap (λ (xs : List ℕ). run (length xs + 3) new_parser xs) e
    ∙ request-Runs r more i s (length (request_text r ++ more) + 3) (suc (length more))
        (omega arith) (omega arith)
