-- ===== src/Http/Parser.antt =====
-- http/http_parser.h and http/http_parser.cpp: the incremental parser.
-- `advance` is one round of the loop of `parse` on the readable bytes; the loop takes from the
-- buffer what the round says.
pub mod Rounds
pub mod Pieces
pub mod Lines
pub mod Whole
use lightnet.Common.{
  ltb, leb, ◌==◌, if◌then◌else◌, ltb→lt, lt→ltb, le→ltb, le→leb, lt→leb, ltb→ge, leb→le, leb→gt,
  ==→eq, ==→ne, eq→==, ==-refl, Bool-cases, Option-cases, some_pair-fst, some_pair-snd, bytes_eq,
  bytes_eq_refl, bytes_eq→eq, ◌>>=◌, ◌>>◌, guard, length, take, drop, replicate, get_or, All,
  length-append, length-take, length-drop, length-replicate, take-append-drop, take_all, drop_all,
  drop-nil, take-append_le, drop-append_le, take-append_ge, drop-append_ge, take_front, drop_front,
  drop-drop, drop-take, length-map, take_first, drop_first, get_or-append, to_signed, to_unsigned,
  InRange, to_signed-to_unsigned, to_unsigned-lt, codes, IsByte, le_bytes, of_le, length-le_bytes,
  le_bytes-IsByte, of_le-le_bytes, ℤ, pos, negsuc, ℕ, zero, suc, ◌+◌, ◌-◌, ◌*◌, ◌/◌, ◌%◌, ◌^◌, ◌≤◌,
  ◌<◌, min, max, ◌≡◌, refl, sym, ap, ◌∙◌, subst, ◌≢◌, ◌↔◌, ◌⊎◌, inl, inr, Bool, true, false, not,
  ◌&&◌, ◌||◌, Option, none, some, List, [], ◌∷◌, ◌++◌, map, append_assoc, append-nil, arith,
}
use lightnet.Buffer.{Buffer, peek, retrieve, readable_bytes, search_crlf}
use lightnet.Http.Text.{
  split_at, skip_spaces, insert, stoul, Stoul, number, invalid_argument, out_of_range,
}
use lightnet.Http.Message.{HttpRequest, empty_request, get_header, is_empty}

pub data HttpParseState : Type 0 where
  start_line headers body complete error : HttpParseState

pub record HttpParser : Type 0 where
  pub state : HttpParseState
  pub request : HttpRequest
  pub content_length : ℕ
  pub keep_alive : Bool

abbrev pub new_parser : HttpParser
new_parser = record {
  state = start_line;
  request = empty_request;
  content_length = 0;
  keep_alive = true;
}

unfoldable pub reset : HttpParser → HttpParser
reset p = new_parser

abbrev pub starts_with_slash : List ℕ → Bool
starts_with_slash [] = false
starts_with_slash (c ∷ cs) = c == b'/'

-- The request line; the fields are assigned before the last two checks.
unfoldable pub parse_start_line : HttpRequest → List ℕ → Bool × HttpRequest
unfolding split_at bytes_eq
parse_start_line r line = elim (split_at b' ' line) [
  | none ↦ (false, r)
  | some (method, more) ↦ elim (split_at b' ' more) [
    | none ↦ (false, r)
    | some (path, version) ↦ (
      not (ltb (length version) 8 || not (bytes_eq (take 5 version) (codes "HTTP/")))
          && starts_with_slash path,
      record r { method = method; path = path; version = version },
    )
  ]
]

unfoldable pub parse_header_line : HttpParser → List ℕ → Option HttpParser
unfolding split_at skip_spaces insert bytes_eq
parse_header_line p line = do
  (key, more) ← split_at b':' line
  let val = skip_spaces more
  let stored = record p {
    request = record p.request { headers = insert key val p.request.headers };
  }
  some (
      if bytes_eq key (codes "Connection") || bytes_eq key (codes "connection")
      then record stored { keep_alive = not (bytes_eq val (codes "close")) }
      else stored)

pub data Exception : Type 0 where
  bad_number too_large : Exception

-- One round: take some bytes and go on, wait for more input, fail, or throw after taking some bytes.
pub data Round : Type 0 where
  proceeds : ℕ → HttpParser → Round
  waits : Round
  fails : HttpParser → Round
  throws : ℕ → Exception → Round

abbrev pub set_state : HttpParser → HttpParseState → HttpParser
set_state p s = record p { state = s }

-- The end of the headers: `stoul` on the Content-Length, if there is one.
abbrev pub sized : HttpParser → Stoul → Round
sized p (number n) = proceeds 2 (record p { content_length = n; state = body })
sized p invalid_argument = throws 2 bad_number
sized p out_of_range = throws 2 too_large

unfoldable pub end_headers : HttpParser → Round
end_headers p =
    let cl = get_header p.request (codes "Content-Length") [] in
    if not (is_empty cl) then sized p (stoul cl) else proceeds 2 (set_state p complete)

unfoldable pub advance_start : HttpParser → List ℕ → Round
advance_start p line =
    let (good, request) = parse_start_line p.request line in
    let q = record p { request = request } in
    if good then proceeds (length line + 2) (set_state q headers) else fails (set_state q error)

abbrev pub stored : HttpParser → ℕ → Option HttpParser → Round
stored p n (some q) = proceeds n q
stored p n none = fails (set_state p error)

unfoldable pub advance_header : HttpParser → List ℕ → Round
advance_header p line =
    if is_empty line then end_headers p else stored p (length line + 2) (parse_header_line p line)

unfoldable pub advance_body : HttpParser → List ℕ → Round
advance_body p xs =
    if ltb (length xs) p.content_length
    then waits
    else proceeds p.content_length (record p {
      request = record p.request { body = take p.content_length xs };
      state = complete;
    })

-- A state that reads a line waits for its CR LF.
abbrev pub with_line : (HttpParser → List ℕ → Round) → HttpParser → List ℕ → Option ℕ → Round
with_line f p xs none = waits
with_line f p xs (some i) = f p (take i xs)

abbrev pub advance_in : HttpParseState → HttpParser → List ℕ → Round
advance_in start_line p xs = with_line advance_start p xs (search_crlf xs)
advance_in headers p xs = with_line advance_header p xs (search_crlf xs)
advance_in body p xs = advance_body p xs
advance_in complete p xs = waits
advance_in error p xs = waits

unfoldable pub advance : HttpParser → List ℕ → Round
advance p xs = advance_in p.state p xs

-- What `parse` comes to: it returns, an exception leaves it, or its fuel runs out, which is no
-- behaviour of the code.
pub data Outcome : Type 0 where
  returned : HttpParser → Buffer → Outcome
  threw : Exception → HttpParser → Buffer → Outcome
  out_of_fuel : Outcome

-- What follows a round, where `next` is the rest of the loop.
abbrev pub after_round : (HttpParser → Buffer → Outcome) → HttpParser → Buffer → Round → Outcome
after_round next p buf (proceeds n q) = next q (retrieve buf n)
after_round next p buf waits = returned p buf
after_round next p buf (fails q) = returned q buf
after_round next p buf (throws n e) = threw e p (retrieve buf n)

unfoldable pub parse_loop : ℕ → HttpParser → Buffer → Outcome
parse_loop zero p buf = out_of_fuel
parse_loop (suc fuel) p buf = after_round (parse_loop fuel) p buf (advance p (peek buf))

-- The fuel: a round for each byte, and one for each change of state that takes none.
unfoldable pub parse : HttpParser → Buffer → Outcome
parse p buf = parse_loop (readable_bytes buf + 3) p buf
