-- ===== src/Tests/Servers.antt =====
-- Runs of the servers: http/, rpc/, game/ and the UDP socket.
use lightnet.Common.{length, codes, ℕ, ◌+◌, ◌<◌, ◌≡◌, refl, true, some, List, [], ◌∷◌, ◌++◌, arith}
use lightnet.Buffer.{Buffer, peek, search_crlf, readable_bytes}
use lightnet.Http.Message.{HttpRequest, ok_response, empty_request}
use lightnet.Http.Parser.{new_parser, returned, parse, parse_loop, advance}
use lightnet.Http.Server.{Handler, Routes, add_route, dispatch, reading}
use lightnet.Http.Server as HttpServer
use lightnet.Http.Server.Routes.{dispatch-add_route}
use lightnet.Http.Server.Waits.{resume_read-waits}
use lightnet.Game.Player.{Peer}
use lightnet.Net.UdpServer.{datagram, refused, handle_read}
use lightnet.Net.UdpServer.Reading.{handle_read-datagrams}

-- A buffer with the given readable bytes.
abbrev holding : List ℕ → Buffer
holding xs = record {
  storage = 0 ∷ 0 ∷ 0 ∷ 0 ∷ 0 ∷ 0 ∷ 0 ∷ 0 ∷ xs;
  reader_index = 8;
  writer_index = 8 + length xs;
}

abbrev hello : Handler
hello req = ok_response

abbrev get_root : HttpRequest
get_root = record empty_request { method = codes "GET"; path = codes "/" }

dispatch-add_route_example :
    ((get_root.method ≡ codes "GET") × (get_root.path ≡ codes "/")
      → dispatch (add_route (codes "GET") (codes "/") hello []) get_root ≡ hello get_root)
    × (¬ ((get_root.method ≡ codes "GET") × (get_root.path ≡ codes "/"))
        → dispatch (add_route (codes "GET") (codes "/") hello []) get_root ≡ dispatch [] get_root)
dispatch-add_route_example =
    dispatch-add_route (codes "GET") (codes "/") hello [] get_root (omega arith) (omega arith)

-- The first bytes of a request line.
abbrev start_of_line : List ℕ
start_of_line = codes "GET / HT"

parsed_start :
    parse new_parser (holding start_of_line) ≡ returned new_parser (holding start_of_line)
unfolding parse parse_loop advance peek search_crlf
parsed_start = refl

resume_read-waits_example :
    (0 < readable_bytes (holding start_of_line)
      → HttpServer.resume_read 50 true [] new_parser (holding start_of_line) ≡ HttpServer.spins)
    × (readable_bytes (holding start_of_line) ≡ 0
        → HttpServer.resume_read 51 true [] new_parser (holding start_of_line)
          ≡ reading new_parser (holding start_of_line))
resume_read-waits_example =
    resume_read-waits 50 [] new_parser new_parser (holding start_of_line) (holding start_of_line) tt
      parsed_start

abbrev here : Peer
here = record { address = 7; port = 4000 }

handle_read-datagrams_example :
    handle_read (
      (datagram (codes "a") here ∷ refused 4 ∷ datagram (codes "b") here ∷ []) ++ (refused 11 ∷ []))
    ≡ some ((codes "a", here) ∷ (codes "b", here) ∷ [], [])
handle_read-datagrams_example =
    handle_read-datagrams (datagram (codes "a") here ∷ refused 4 ∷ datagram (codes "b") here ∷ [])
      [] 11 (tt, (refl, (tt, tt))) (λ e. absurd (omega (arith, e)))
