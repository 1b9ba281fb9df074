-- ===== src/Tests/Requests.antt =====
-- Runs of the HTTP parser.
use lightnet.Common.{
  length, replicate, codes, ℕ, ◌+◌, ◌≡◌, refl, ◌≢◌, true, false, List, [], ◌∷◌, ◌++◌, arith,
}
use lightnet.Buffer.{Buffer, peek, retrieve, search_crlf}
use lightnet.Buffer.Space.{IsValid}
use lightnet.Http.Text.{stoul}
use lightnet.Http.Message.{empty_request, get_header, request_keep_alive, crlf}
use lightnet.Http.Parser.{
  new_parser, parse_start_line, parse_header_line, end_headers, advance_start, advance_header,
  advance_body, advance, parse_loop, parse, headers, complete, HttpParser, returned, out_of_fuel,
}
use lightnet.Http.Parser.Pieces.{left, view, parse-ne-out_of_fuel, parse_pieces}

abbrev holding : List ℕ → Buffer
holding xs = record {
  storage = 0 ∷ 0 ∷ 0 ∷ 0 ∷ 0 ∷ 0 ∷ 0 ∷ 0 ∷ xs;
  reader_index = 8;
  writer_index = 8 + length xs;
}

holding-IsValid : (xs : List ℕ) → IsValid (holding xs)
holding-IsValid xs = omega arith

abbrev get_line : List ℕ
get_line = codes "GET / HTTP/1.1" ++ crlf

abbrev post : List ℕ
post =
    codes "POST /a HTTP/1.1"
    ++ (crlf ++ (codes "Content-Length: 2" ++ (crlf ++ (crlf ++ codes "hiG"))))

parsed_post :
    view (parse new_parser (holding post))
    ≡ left
        (record {
          state = complete;
          request = record {
            method = codes "POST";
            path = codes "/a";
            version = codes "HTTP/1.1";
            headers = (codes "Content-Length", codes "2") ∷ [];
            body = codes "hi";
          };
          content_length = 2;
          keep_alive = true;
        })
        (codes "G")
unfolding parse parse_loop advance peek retrieve search_crlf advance_start parse_start_line
    advance_header parse_header_line end_headers get_header stoul advance_body
parsed_post = refl

parse-ne-out_of_fuel_example : parse new_parser (holding post) ≢ out_of_fuel
parse-ne-out_of_fuel_example = parse-ne-out_of_fuel new_parser (holding post) (holding-IsValid post)

-- What the first line of a GET request leaves.
abbrev half_read : HttpParser
half_read = record new_parser {
  state = headers;
  request = record empty_request {
    method = codes "GET";
    path = codes "/";
    version = codes "HTTP/1.1";
  };
}

abbrev after_line : Buffer
after_line = record { storage = replicate 8 0 ++ get_line; reader_index = 8; writer_index = 8 }

parsed_line : parse new_parser (holding get_line) ≡ returned half_read after_line
unfolding parse parse_loop advance peek retrieve search_crlf advance_start parse_start_line
    advance_header
parsed_line = refl

parse_pieces_example :
    view (parse half_read (holding crlf)) ≡ view (parse new_parser (holding (get_line ++ crlf)))
unfolding peek
parse_pieces_example =
    parse_pieces new_parser half_read (holding get_line) after_line (holding crlf)
      (holding (get_line ++ crlf)) crlf (holding-IsValid get_line) (holding-IsValid crlf)
      (holding-IsValid (get_line ++ crlf)) parsed_line tt refl refl

-- A request of HTTP/1.0: the parser says to keep the connection, the request to close it.
parsed_old :
    view (parse new_parser (holding (codes "GET / HTTP/1.0" ++ (crlf ++ crlf))))
    ≡ left
        (record half_read {
          state = complete;
          request = record half_read.request { version = codes "HTTP/1.0" };
          keep_alive = true;
        })
        []
unfolding parse parse_loop advance peek retrieve search_crlf advance_start parse_start_line
    advance_header parse_header_line end_headers get_header stoul advance_body
parsed_old = refl

old_closes : request_keep_alive (record half_read.request { version = codes "HTTP/1.0" }) ≡ false
unfolding request_keep_alive
old_closes = refl
