-- ===== src/Http/Parser/Rounds.antt =====
-- http/http_parser.cpp: what one round of `parse` takes, and how far it is from the end.
use lightnet.Common.{
  ltb, if◌then◌else◌, le→ltb, ltb→ge, Bool-cases, length, take, length-append, length-take,
  take-append_le, codes, ℕ, ◌+◌, ◌-◌, ◌≤◌, ◌<◌, ◌≡◌, refl, inl, inr, Bool, true, false, not, Option,
  none, some, List, [], ◌++◌, arith,
}
use lightnet.Buffer.{search_crlf}
use lightnet.Buffer.Find.{search_crlf-append, search_crlf-lt}
use lightnet.Http.Message.{get_header, is_empty}
use lightnet.Http.Text.{stoul, Stoul, number, invalid_argument, out_of_range}
use lightnet.Http.Parser.{
  parse_start_line, parse_header_line, sized, end_headers, advance_start, stored, advance_header,
  advance_body, with_line, advance_in, advance, HttpParseState, start_line, headers, body, complete,
  error, HttpParser, Round, proceeds, fails,
}

-- How far a state is from the end, beside the bytes that are left.
abbrev pub rank : HttpParseState → ℕ
rank start_line = 2
rank headers = 2
rank body = 1
rank complete = 0
rank error = 0

abbrev pub measure : HttpParser → List ℕ → ℕ
measure p xs = length xs + rank p.state

-- A round that goes on takes only bytes that are there, and brings the end nearer.
abbrev pub Progress : HttpParser → List ℕ → Round → Type 0
Progress p xs (proceeds n q) = (n ≤ length xs) × (length xs - n + rank q.state < measure p xs)
Progress p xs (fails q) = q.state ≡ error
Progress p xs r = Unit {0}

sized-Progress :
    (p : HttpParser) (xs : List ℕ) (s : Stoul)
    → p.state ≡ headers
    → 2 ≤ length xs
    → Progress p xs (sized p s)
sized-Progress p xs (number n) e h = (h, rw e (omega arith))
sized-Progress p xs invalid_argument e h = tt
sized-Progress p xs out_of_range e h = tt

if-Progress :
    (p : HttpParser) (xs : List ℕ) (b : Bool) (r s : Round)
    → Progress p xs r
    → Progress p xs s
    → Progress p xs (if b then r else s)
if-Progress p xs true r s h k = h
if-Progress p xs false r s h k = k

advance_start-Progress :
    (p : HttpParser) (xs : List ℕ) (i : ℕ)
    → p.state ≡ start_line
    → i + 2 ≤ length xs
    → Progress p xs (advance_start p (take i xs))
unfolding advance_start
advance_start-Progress p xs i e h =
    let l : length (take i xs) ≡ i = omega (arith, length-take i xs) in
    if-Progress p xs (parse_start_line p.request (take i xs)).0 _ _
      (rw (l, e) (omega arith, omega arith)) refl

end_headers-Progress :
    (p : HttpParser) (xs : List ℕ)
    → p.state ≡ headers
    → 2 ≤ length xs
    → Progress p xs (end_headers p)
unfolding end_headers
end_headers-Progress p xs e h =
    if-Progress p xs (not (is_empty (get_header p.request (codes "Content-Length") []))) _ _
      (sized-Progress p xs (stoul (get_header p.request (codes "Content-Length") [])) e h)
      (h, rw e (omega arith))

-- A header line changes neither the state nor the length.
parse_header_line-state :
    (p q : HttpParser) (line : List ℕ) → parse_header_line p line ≡ some q → q.state ≡ p.state
unfolding parse_header_line
parse_header_line-state p q line e = ground arith

stored-Progress :
    (p : HttpParser) (xs line : List ℕ) (o : Option HttpParser)
    → p.state ≡ headers
    → length line + 2 ≤ length xs
    → parse_header_line p line ≡ o
    → Progress p xs (stored p (length line + 2) o)
stored-Progress p xs line none e h d = refl
stored-Progress p xs line (some q) e h d =
    (h, rw (parse_header_line-state p q line d, e) (omega arith))

advance_header-Progress :
    (p : HttpParser) (xs : List ℕ) (i : ℕ)
    → p.state ≡ headers
    → i + 2 ≤ length xs
    → Progress p xs (advance_header p (take i xs))
unfolding advance_header
advance_header-Progress p xs i e h =
    if-Progress p xs (is_empty (take i xs)) _ _ (end_headers-Progress p xs e (omega arith))
      (stored-Progress p xs (take i xs) _ e (omega (arith, length-take i xs)) refl)

advance_body-Progress :
    (p : HttpParser) (xs : List ℕ) → p.state ≡ body → Progress p xs (advance_body p xs)
unfolding advance_body
advance_body-Progress p xs e = elim (Bool-cases (ltb (length xs) p.content_length)) [
  | inl short ↦ rw short tt
  | inr there ↦ rw (there, e) (ltb→ge _ _ there, omega (arith, ltb→ge _ _ there))
]

with_line-Progress :
    (f : HttpParser → List ℕ → Round) (p : HttpParser) (xs : List ℕ) (o : Option ℕ)
    → ((i : ℕ) → o ≡ some i → Progress p xs (f p (take i xs)))
    → Progress p xs (with_line f p xs o)
with_line-Progress f p xs none h = tt
with_line-Progress f p xs (some i) h = h i refl

advance_in-Progress :
    (s : HttpParseState) (p : HttpParser) (xs : List ℕ)
    → p.state ≡ s
    → Progress p xs (advance_in s p xs)
advance_in-Progress start_line p xs e =
    with_line-Progress advance_start p xs (search_crlf xs)
      λ i found. advance_start-Progress p xs i e (search_crlf-lt xs i found)
advance_in-Progress headers p xs e =
    with_line-Progress advance_header p xs (search_crlf xs)
      λ i found. advance_header-Progress p xs i e (search_crlf-lt xs i found)
advance_in-Progress body p xs e = advance_body-Progress p xs e
advance_in-Progress complete p xs e = tt
advance_in-Progress error p xs e = tt

pub advance-Progress : (p : HttpParser) (xs : List ℕ) → Progress p xs (advance p xs)
unfolding advance
advance-Progress p xs = advance_in-Progress p.state p xs refl

-- A round that goes on makes the same step when more input stands behind.
with_line-append :
    (f : HttpParser → List ℕ → Round) (p q : HttpParser) (xs more : List ℕ) (n : ℕ) (o : Option ℕ)
    → search_crlf xs ≡ o
    → with_line f p xs o ≡ proceeds n q
    → with_line f p (xs ++ more) (search_crlf (xs ++ more)) ≡ proceeds n q
with_line-append f p q xs more n none e h = cc
with_line-append f p q xs more n (some i) e h =
    rw
      (
        search_crlf-append xs more i e,
        take-append_le i xs more (omega (arith, search_crlf-lt xs i e)),
      )
      h

advance_body-append :
    (p q : HttpParser) (xs more : List ℕ) (n : ℕ)
    → advance_body p xs ≡ proceeds n q
    → advance_body p (xs ++ more) ≡ proceeds n q
unfolding advance_body
advance_body-append p q xs more n h = elim (Bool-cases (ltb (length xs) p.content_length)) [
  | inl short ↦ absurd (cc (rw short at h))
  | inr there ↦
      let enough : p.content_length ≤ length xs = ltb→ge _ _ there in
      rw
        (
          le→ltb (length (xs ++ more)) p.content_length (omega (arith, length-append xs more)),
          take-append_le p.content_length xs more enough,
        )
        (rw there at h)
]

advance_in-append :
    (s : HttpParseState) (p q : HttpParser) (xs more : List ℕ) (n : ℕ)
    → advance_in s p xs ≡ proceeds n q
    → advance_in s p (xs ++ more) ≡ proceeds n q
advance_in-append start_line p q xs more n h =
    with_line-append advance_start p q xs more n (search_crlf xs) refl h
advance_in-append headers p q xs more n h =
    with_line-append advance_header p q xs more n (search_crlf xs) refl h
advance_in-append body p q xs more n h = advance_body-append p q xs more n h
advance_in-append complete p q xs more n h = cc
advance_in-append error p q xs more n h = cc

pub advance-append :
    (p q : HttpParser) (xs more : List ℕ) (n : ℕ)
    → advance p xs ≡ proceeds n q
    → advance p (xs ++ more) ≡ proceeds n q
unfolding advance
advance-append p q xs more n h = advance_in-append p.state p q xs more n h
