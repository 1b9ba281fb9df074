-- ===== src/Net/UdpServer.antt =====
-- net/udp_server.cpp: the loop that takes datagrams from the socket until it has no more, and sending.
-- The answers of `recvfrom` are a list, which is the kernel's part; the callback is given datagrams.
pub mod Reading
use lightnet.Common.{
  ltb, leb, ◌==◌, if◌then◌else◌, ltb→lt, lt→ltb, le→ltb, le→leb, lt→leb, ltb→ge, leb→le, leb→gt,
  ==→eq, ==→ne, eq→==, ==-refl, Bool-cases, Option-cases, some_pair-fst, some_pair-snd, bytes_eq,
  bytes_eq_refl, bytes_eq→eq, ◌>>=◌, ◌>>◌, guard, >>=-eq-some, guard-eq-some, >>=-elim, eq_of_some,
  length, take, drop, replicate, get_or, All, length-append, length-take, length-drop,
  length-replicate, take-append-drop, take_all, drop_all, drop-nil, take-append_le, drop-append_le,
  take-append_ge, drop-append_ge, take_front, drop_front, drop-drop, drop-take, length-map,
  take_first, drop_first, get_or-append, to_signed, to_unsigned, InRange, to_signed-to_unsigned,
  to_unsigned-lt, codes, IsByte, le_bytes, of_le, length-le_bytes, le_bytes-IsByte, of_le-le_bytes,
  ℤ, pos, negsuc, ℕ, zero, suc, ◌+◌, ◌-◌, ◌*◌, ◌/◌, ◌%◌, ◌^◌, ◌≤◌, ◌<◌, min, max, ◌≡◌, refl, sym,
  ap, ◌∙◌, subst, ◌≢◌, ◌↔◌, ◌⊎◌, inl, inr, Bool, true, false, not, ◌&&◌, ◌||◌, Option, none, some,
  List, [], ◌∷◌, ◌++◌, map, append_assoc, append-nil, arith,
}
use lightnet.Game.Player.{Peer}

abbrev pub max_datagram_size : ℕ
max_datagram_size = 65507

-- EINTR, and EAGAIN, which is EWOULDBLOCK.
abbrev pub eintr : ℕ
eintr = 4

abbrev pub eagain : ℕ
eagain = 11

-- What `recvfrom` returned: a datagram of any size, or -1 with `errno`.
pub data Received : Type 0 where
  datagram : List ℕ → Peer → Received
  refused : ℕ → Received

-- The datagrams handed to the callback, in order, and the answers that are not asked for any more;
-- `none` when the list of answers ends before the loop does.
abbrev Read : Type 0
Read = Option (List (List ℕ × Peer) × List Received)

abbrev pub and_then : List ℕ × Peer → Read → Read
and_then d r = do (ds, rest) ← r; some (d ∷ ds, rest)

-- A datagram of no bytes ends the loop, as an error does that is not EINTR.
unfoldable pub handle_read : List Received → Read
handle_read [] = none
handle_read (datagram [] peer ∷ rest) = some ([], rest)
handle_read (datagram (b ∷ bytes) peer ∷ rest) =
    and_then (take max_datagram_size (b ∷ bytes), peer) (handle_read rest)
handle_read (refused errno ∷ rest) =
    let more = handle_read rest in if errno == eintr then more else some ([], rest)

-- `udp_fd_` is -1 when the socket is closed.
pub record UdpServer : Type 0 where
  pub open_fd : Bool
  pub started : Bool
  pub reading : Bool

-- The socket and its channel, on the first call.
unfoldable pub start : UdpServer → UdpServer
start u = if u.started then u else record u { started = true; reading = true }

-- What goes to `sendto`: nothing for a closed socket or no bytes.
unfoldable pub send_to : UdpServer → List ℕ → Peer → List (List ℕ × Peer)
send_to u [] peer = []
send_to u (b ∷ bytes) peer = if u.open_fd then (b ∷ bytes, peer) ∷ [] else []
