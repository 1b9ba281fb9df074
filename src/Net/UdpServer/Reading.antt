-- ===== src/Net/UdpServer/Reading.antt =====
-- net/udp_server.cpp: what `handle_read` hands on of the datagrams that the socket holds.
use lightnet.Common.{
  ◌==◌, eq→==, take, All, ℕ, ◌≡◌, refl, ap, ◌≢◌, false, some, List, [], ◌∷◌, ◌++◌, arith,
}
use lightnet.Game.Player.{Peer}
use lightnet.Net.UdpServer.{
  max_datagram_size, eintr, and_then, handle_read, Received, datagram, refused,
}

-- An answer after which the loop goes on.
abbrev GoesOn : Received → Type 0
GoesOn (datagram [] peer) = ⊥
GoesOn (datagram (b ∷ bytes) peer) = Unit {0}
GoesOn (refused errno) = errno ≡ eintr

-- The datagrams among some answers, cut to the size of the buffer.
abbrev pub datagrams : List Received → List (List ℕ × Peer)
datagrams [] = []
datagrams (datagram bytes peer ∷ rest) = (take max_datagram_size bytes, peer) ∷ datagrams rest
datagrams (refused errno ∷ rest) = datagrams rest

-- When the socket answers with non-empty datagrams and interruptions, in any order, and then with an
-- error other than EINTR, such as that it holds no more, every datagram is handed to the callback, in
-- order, cut to 65507 bytes, and `recvfrom` is not called again.
pub handle_read-datagrams :
    (before rest : List Received) (errno : ℕ)
    → All GoesOn before
    → errno ≢ eintr
    → handle_read (before ++ (refused errno ∷ rest)) ≡ some (datagrams before, rest)
unfolding handle_read
handle_read-datagrams [] rest errno go ne =
    let stop : (errno == eintr) ≡ false = ground (arith, ne) in rw stop refl
handle_read-datagrams (datagram [] peer ∷ before) rest errno (g, go) ne = absurd g
handle_read-datagrams (datagram (b ∷ bytes) peer ∷ before) rest errno (g, go) ne =
    ap (and_then (take max_datagram_size (b ∷ bytes), peer))
      (handle_read-datagrams before rest errno go ne)
handle_read-datagrams (refused e ∷ before) rest errno (g, go) ne =
    rw (eq→== e eintr g) (handle_read-datagrams before rest errno go ne)
