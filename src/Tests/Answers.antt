-- ===== src/Tests/Answers.antt =====
-- Whole requests, for the HTTP parser and the HTTP server.
use lightnet.Common.{length, codes, ℕ, ◌+◌, ◌≡◌, refl, inl, inr, List, [], ◌∷◌, ◌++◌, true, arith}
use lightnet.Buffer.{Buffer, peek}
use lightnet.Buffer.Space.{IsValid}
use lightnet.Http.Text.{insert, stoul, skip_spaces, isspace}
use lightnet.Http.Message.{set_body, ok_response, HttpRequest, header_lines, get_header}
use lightnet.Http.Parser.{new_parser, parse}
use lightnet.Http.Parser.Pieces.{left, view}
use lightnet.Http.Parser.Lines.{request_text}
use lightnet.Http.Parser.Whole.{finished, parse_request}
use lightnet.Http.Server.{Routes, add_route, handle_connection}
use lightnet.Http.Server.Answers.{IsWhole, request_texts, Answers, handle_connection-Answers}

abbrev holding : List ℕ → Buffer
holding xs = record {
  storage = 0 ∷ 0 ∷ 0 ∷ 0 ∷ 0 ∷ 0 ∷ 0 ∷ 0 ∷ xs;
  reader_index = 8;
  writer_index = 8 + length xs;
}

holding-IsValid : (xs : List ℕ) → IsValid (holding xs)
holding-IsValid xs = omega arith

abbrev post_hi : HttpRequest
post_hi = record {
  method = codes "POST";
  path = codes "/a";
  version = codes "HTTP/1.1";
  headers = (codes "Content-Length", codes "2") ∷ [];
  body = codes "hi";
}

abbrev get_last : HttpRequest
get_last = record {
  method = codes "GET";
  path = codes "/";
  version = codes "HTTP/1.1";
  headers = (codes "Connection", codes "close") ∷ [];
  body = [];
}

post_hi-IsWhole : IsWhole post_hi
unfolding get_header insert stoul skip_spaces isspace
post_hi-IsWhole = (
  record {
    method_word = omega arith;
    method_text = omega arith;
    path_word = omega arith;
    path_text = omega arith;
    path_rooted = refl;
    version_text = omega arith;
    version_long = refl;
    version_named = refl;
    headers_text = ((omega arith, omega arith, omega arith, refl), tt);
  },
  inr (refl, refl),
)

get_last-IsWhole : IsWhole get_last
unfolding get_header insert stoul skip_spaces isspace
get_last-IsWhole = (
  record {
    method_word = omega arith;
    method_text = omega arith;
    path_word = omega arith;
    path_text = omega arith;
    path_rooted = refl;
    version_text = omega arith;
    version_long = refl;
    version_named = refl;
    headers_text = ((omega arith, omega arith, omega arith, refl), tt);
  },
  inl (refl, refl),
)

abbrev followed : List ℕ
followed = request_text post_hi ++ codes "G"

peek-followed : peek (holding followed) ≡ followed
unfolding peek header_lines
peek-followed = refl

parse_request_example :
    view (parse new_parser (holding followed)) ≡ left (finished post_hi) (codes "G")
parse_request_example =
    parse_request post_hi (codes "G") (holding followed) post_hi-IsWhole.0 post_hi-IsWhole.1
      (holding-IsValid followed) peek-followed

abbrev two_requests : List HttpRequest
two_requests = post_hi ∷ get_last ∷ []

peek-two_requests : peek (holding (request_texts two_requests)) ≡ request_texts two_requests
unfolding peek header_lines
peek-two_requests = refl

abbrev routes : Routes
routes = add_route (codes "POST") (codes "/a") (λ req. set_body ok_response req.body) []

handle_connection-Answers_example :
    Answers 1 routes two_requests
      (handle_connection 1 true routes (holding (request_texts two_requests)))
handle_connection-Answers_example =
    handle_connection-Answers 0 routes two_requests (holding (request_texts two_requests))
      (post_hi-IsWhole, (get_last-IsWhole, tt)) (holding-IsValid (request_texts two_requests))
      peek-two_requests
