-- ===== src/Http/Parser/Lines.antt =====
-- http/http_parser.cpp: the text of a request, and what a round of `parse` makes of each of its lines.
use lightnet.Common.{
  ltb, ◌==◌, if◌then◌else◌, ==-refl, Bool-cases, bytes_eq, length, take, All, codes, ℕ, ◌+◌, ◌≡◌,
  refl, ◌∙◌, ◌≢◌, inl, inr, Bool, true, false, not, ◌||◌, some, List, [], ◌∷◌, ◌++◌, arith,
}
use lightnet.Http.Text.{isspace, split_at, skip_spaces, Headers, insert}
use lightnet.Http.Message.{is_empty, crlf, header_lines, HttpRequest}
use lightnet.Http.Parser.{
  starts_with_slash, parse_start_line, parse_header_line, advance_start, advance_header, headers,
  HttpParser, proceeds,
}

-- The first line of a request without its CR LF.
abbrev pub request_line : HttpRequest → List ℕ
request_line r = r.method ++ (b' ' ∷ (r.path ++ (b' ' ∷ r.version)))

-- A request as a client writes it.
abbrev pub request_text : HttpRequest → List ℕ
request_text r = request_line r ++ (crlf ++ (header_lines r.headers ++ (crlf ++ r.body)))

abbrev pub IsText : ℕ → List ℕ → Type 0
IsText c xs = All (λ x. x ≢ c) xs

-- A header line that is read as it was written: no CR, no colon in the key, no space in front of the
-- value.
abbrev pub IsHeader : List ℕ × List ℕ → Type 0
IsHeader (key, val) = IsText 13 key × IsText b':' key × IsText 13 val × (skip_spaces val ≡ val)

pub record IsRequest (r : HttpRequest) : Type 0 where
  pub method_word : IsText b' ' r.method
  pub method_text : IsText 13 r.method
  pub path_word : IsText b' ' r.path
  pub path_text : IsText 13 r.path
  pub path_rooted : starts_with_slash r.path ≡ true
  pub version_text : IsText 13 r.version
  pub version_long : ltb (length r.version) 8 ≡ false
  pub version_named : bytes_eq (take 5 r.version) (codes "HTTP/") ≡ true
  pub headers_text : All IsHeader r.headers

IsText-append : (c : ℕ) (xs ys : List ℕ) → IsText c xs → IsText c ys → IsText c (xs ++ ys)
IsText-append c [] ys a b = b
IsText-append c (x ∷ xs) ys (p, a) b = (p, IsText-append c xs ys a b)

split_at-word :
    (c : ℕ) (front back : List ℕ)
    → IsText c front
    → split_at c (front ++ (c ∷ back)) ≡ some (front, back)
unfolding split_at
split_at-word c [] back w = rw (==-refl c) refl
split_at-word c (x ∷ front) back (ne, w) =
    let other : (x == c) ≡ false = ground (arith, ne) in
    rw other (rw (split_at-word c front back w) refl)

pub request_line-IsText : (r : HttpRequest) → IsRequest r → IsText 13 (request_line r)
request_line-IsText r i =
    IsText-append 13 r.method (b' ' ∷ (r.path ++ (b' ' ∷ r.version))) i.method_text (
      (λ e. absurd (omega (arith, e))),
      IsText-append 13 r.path (b' ' ∷ r.version) i.path_text
          ((λ e. absurd (omega (arith, e))), i.version_text),
    )

-- The parser behind the request line.
abbrev pub started : HttpParser → HttpRequest → HttpParser
started p r = record p {
  state = headers;
  request = record p.request { method = r.method; path = r.path; version = r.version };
}

parse_start_line-line :
    (q r : HttpRequest)
    → IsRequest r
    → parse_start_line q (request_line r)
      ≡ (true, record q { method = r.method; path = r.path; version = r.version })
unfolding parse_start_line
parse_start_line-line q r i =
    rw (split_at-word b' ' r.method (r.path ++ (b' ' ∷ r.version)) i.method_word, parse_start_line)
      (rw (split_at-word b' ' r.path r.version i.path_word, parse_start_line)
        (rw (i.version_long, i.version_named, i.path_rooted) refl))

pub advance_start-line :
    (p : HttpParser) (r : HttpRequest)
    → IsRequest r
    → advance_start p (request_line r) ≡ proceeds (length (request_line r) + 2) (started p r)
unfolding advance_start
advance_start-line p r i = rw (parse_start_line-line p.request r i, advance_start) refl

-- What the header lines make of the table, and of `keep_alive_`.
abbrev pub gathered : Headers → Headers → Headers
gathered table [] = table
gathered table ((key, val) ∷ hs) = gathered (insert key val table) hs

abbrev names_connection : List ℕ → Bool
names_connection key = bytes_eq key (codes "Connection") || bytes_eq key (codes "connection")

abbrev pub stays_alive : Bool → Headers → Bool
stays_alive alive [] = alive
stays_alive alive ((key, val) ∷ hs) =
    stays_alive (if names_connection key then not (bytes_eq val (codes "close")) else alive) hs

abbrev pub with_header : HttpParser → List ℕ → List ℕ → HttpParser
with_header p key val = record p {
  request = record p.request { headers = insert key val p.request.headers };
  keep_alive = if names_connection key then not (bytes_eq val (codes "close")) else p.keep_alive;
}

abbrev pub with_headers : HttpParser → Headers → HttpParser
with_headers p hs = record p {
  request = record p.request { headers = gathered p.request.headers hs };
  keep_alive = stays_alive p.keep_alive hs;
}

skip_spaces-space : (val : List ℕ) → skip_spaces (b' ' ∷ val) ≡ skip_spaces val
unfolding skip_spaces isspace
skip_spaces-space val = refl

parse_header_line-line :
    (p : HttpParser) (key val : List ℕ)
    → IsHeader (key, val)
    → parse_header_line p (key ++ (b':' ∷ b' ' ∷ val)) ≡ some (with_header p key val)
unfolding parse_header_line
parse_header_line-line p key val (kt, kc, vt, s) = rw (split_at-word b':' key (b' ' ∷ val) kc) (
    rw (skip_spaces-space val ∙ s) (elim (Bool-cases (names_connection key)) [
      | inl named ↦ rw named refl
      | inr other ↦ rw other refl
    ]))

not_empty : (key rest : List ℕ) (c : ℕ) → is_empty (key ++ (c ∷ rest)) ≡ false
not_empty [] rest c = refl
not_empty (k ∷ key) rest c = refl

pub advance_header-line :
    (p : HttpParser) (key val : List ℕ)
    → IsHeader (key, val)
    → advance_header p (key ++ (b':' ∷ b' ' ∷ val))
      ≡ proceeds (length (key ++ (b':' ∷ b' ' ∷ val)) + 2) (with_header p key val)
unfolding advance_header
advance_header-line p key val h =
    rw (not_empty key (b' ' ∷ val) b':') (rw (parse_header_line-line p key val h) refl)

pub header-IsText :
    (key val : List ℕ) → IsHeader (key, val) → IsText 13 (key ++ (b':' ∷ b' ' ∷ val))
header-IsText key val (kt, kc, vt, s) =
    IsText-append 13 key (b':' ∷ b' ' ∷ val) kt
      ((λ e. absurd (omega (arith, e))), ((λ e. absurd (omega (arith, e))), vt))
