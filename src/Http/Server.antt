-- ===== src/Http/Server.antt =====
-- http/http_server.h and http/http_server.cpp: the routes, and the coroutine of a connection from one
-- resumption to the next. `AsyncRead` with the hint 1 (coro/scheduler.cpp) suspends only when the
-- input buffer is empty; `AsyncWrite` suspends always, after handing the bytes to the connection.
-- A route's handler is user code: a function from request to response.
pub mod Routes
pub mod Answers
pub mod Waits
use lightnet.Common.{
  ltb, leb, ◌==◌, if◌then◌else◌, ltb→lt, lt→ltb, le→ltb, le→leb, lt→leb, ltb→ge, leb→le, leb→gt,
  ==→eq, ==→ne, eq→==, ==-refl, Bool-cases, Option-cases, some_pair-fst, some_pair-snd, bytes_eq,
  bytes_eq_refl, bytes_eq→eq, ◌>>=◌, ◌>>◌, guard, >>=-eq-some, guard-eq-some, >>=-elim, eq_of_some,
  length, take, drop, replicate, get_or, All, length-append, length-take, length-drop,
  length-replicate, take-append-drop, take_all, drop_all, drop-nil, take-append_le, drop-append_le,
  take-append_ge, drop-append_ge, take_front, drop_front, drop-drop, drop-take, length-map,
  take_first, drop_first, get_or-append, to_signed, to_unsigned, InRange, to_signed-to_unsigned,
  to_unsigned-lt, codes, IsByte, le_bytes, of_le, length-le_bytes, le_bytes-IsByte, of_le-le_bytes,
  ℤ, pos, negsuc, ℕ, zero, suc, ◌+◌, ◌-◌, ◌*◌, ◌/◌, ◌%◌, ◌^◌, ◌≤◌, ◌<◌, min, max, ◌≡◌, refl, sym,
  ap, ◌∙◌, subst, ◌≢◌, ◌↔◌, ◌⊎◌, inl, inr, Bool, true, false, not, ◌&&◌, ◌||◌, Option, none, some,
  List, [], ◌∷◌, ◌++◌, map, append_assoc, append-nil, arith,
}
use lightnet.Buffer.{Buffer, readable_bytes}
use lightnet.Http.Message.{
  HttpRequest, HttpResponse, ok_response, set_content_type, set_body, serialize,
}
use lightnet.Http.Parser.{
  HttpParser, HttpParseState, start_line, headers, body, complete, error, new_parser, reset, parse,
  Exception, Outcome, returned, threw, out_of_fuel,
}

abbrev pub Handler : Type 0
Handler = HttpRequest → HttpResponse

-- `routes_`, from "METHOD path" to handler.
abbrev pub Routes : Type 0
Routes = List (List ℕ × Handler)

unfoldable pub route_key : List ℕ → List ℕ → List ℕ
route_key method path = method ++ (codes " " ++ path)

unfoldable pub find_route : List ℕ → Routes → Option Handler
find_route key [] = none
find_route key ((k, h) ∷ rest) =
    let later = find_route key rest in if bytes_eq k key then some h else later

unfoldable pub set_route : List ℕ → Handler → Routes → Routes
set_route key h [] = (key, h) ∷ []
set_route key h ((k, g) ∷ rest) =
    let others = set_route key h rest in if bytes_eq k key then (key, h) ∷ rest else (k, g) ∷ others

unfoldable pub add_route : List ℕ → List ℕ → Handler → Routes → Routes
add_route method path h routes = set_route (route_key method path) h routes

abbrev get : List ℕ → Handler → Routes → Routes
get path h routes = add_route (codes "GET") path h routes

abbrev pub post : List ℕ → Handler → Routes → Routes
post path h routes = add_route (codes "POST") path h routes

unfoldable pub not_found : HttpResponse
not_found =
    set_body
      (set_content_type
        (record ok_response { status_code = 404; status_message = codes "Not Found" })
        (codes "text/plain"))
      (codes "404 Not Found")

unfoldable pub dispatch : Routes → HttpRequest → HttpResponse
dispatch routes req = elim (find_route (route_key req.method req.path) routes) [
  | some h ↦ h req
  | none ↦ not_found
]

-- Where the coroutine stops: at an `AsyncRead` that suspends, at the `AsyncWrite` of a response, or
-- behind the loop, after `shutdown`; or an exception has left it. With `spins` its fuel has run out.
pub data Suspension : Type 0 where
  reading : HttpParser → Buffer → Suspension
  writing : List ℕ → HttpParser → Buffer → Suspension
  shut : Buffer → Suspension
  failed : Exception → Suspension
  spins : Suspension

-- What follows `parse`, where `next` is the next round of the loop.
abbrev pub in_state :
    (HttpParser → Buffer → Suspension) → Routes → HttpParseState → HttpParser → Buffer → Suspension
in_state next routes complete p buf = writing (serialize (dispatch routes p.request)) p buf
in_state next routes error p buf = shut buf
in_state next routes start_line p buf = next p buf
in_state next routes headers p buf = next p buf
in_state next routes body p buf = next p buf

abbrev pub after_parse : (HttpParser → Buffer → Suspension) → Routes → Outcome → Suspension
after_parse next routes (returned p buf) = in_state next routes p.state p buf
after_parse next routes (threw e p buf) = failed e
after_parse next routes out_of_fuel = spins

-- `while (conn->is_connected())`. Nothing else runs in the loop's thread before the coroutine
-- suspends, so that the test has one value, and nothing is read from the socket.
unfoldable pub serve : ℕ → Bool → Routes → HttpParser → Buffer → Suspension
serve zero connected routes p buf = spins
serve (suc fuel) connected routes p buf =
    let next = after_parse (serve fuel connected routes) routes (parse p buf) in
    if connected then (if ltb 0 (readable_bytes buf) then next else reading p buf) else shut buf

-- The coroutine is resumed when bytes have come, and when a response has been sent.
unfoldable pub resume_read : ℕ → Bool → Routes → HttpParser → Buffer → Suspension
resume_read fuel connected routes p buf =
    after_parse (serve fuel connected routes) routes (parse p buf)

unfoldable pub resume_write : ℕ → Bool → Routes → HttpParser → Buffer → Suspension
resume_write fuel connected routes p buf =
    if p.keep_alive then serve fuel connected routes (reset p) buf else shut buf

-- The start of `handle_connection`.
abbrev pub handle_connection : ℕ → Bool → Routes → Buffer → Suspension
handle_connection fuel connected routes buf = serve fuel connected routes new_parser buf
