-- ===== src/Net/TcpServer.antt =====
-- net/tcp_server.h and net/tcp_server.cpp: from an accepted descriptor to an established connection, and
-- back. Each closure that is run in a loop is a function here; the callbacks that the server sets on
-- a connection are the `Callbacks` of Net.Connection, with `close_callback` as `remove_connection`.
pub mod Lifetime
use lightnet.Common.{
  ltb, leb, ◌==◌, if◌then◌else◌, ltb→lt, lt→ltb, le→ltb, le→leb, lt→leb, ltb→ge, leb→le, leb→gt,
  ==→eq, ==→ne, eq→==, ==-refl, Bool-cases, Option-cases, some_pair-fst, some_pair-snd, bytes_eq,
  bytes_eq_refl, bytes_eq→eq, ◌>>=◌, ◌>>◌, guard, >>=-eq-some, guard-eq-some, >>=-elim, eq_of_some,
  length, take, drop, replicate, get_or, All, length-append, length-take, length-drop,
  length-replicate, take-append-drop, take_all, drop_all, drop-nil, take-append_le, drop-append_le,
  take-append_ge, drop-append_ge, take_front, drop_front, drop-drop, drop-take, length-map,
  take_first, drop_first, get_or-append, to_signed, to_unsigned, InRange, to_signed-to_unsigned,
  to_unsigned-lt, codes, IsByte, le_bytes, of_le, length-le_bytes, le_bytes-IsByte, of_le-le_bytes,
  ℤ, pos, negsuc, ℕ, zero, suc, ◌+◌, ◌-◌, ◌*◌, ◌/◌, ◌%◌, ◌^◌, ◌≤◌, ◌<◌, min, max, ◌≡◌, refl, sym,
  ap, ◌∙◌, subst, ◌≢◌, ◌↔◌, ◌⊎◌, inl, inr, Bool, true, false, not, ◌&&◌, ◌||◌, Option, none, some,
  List, [], ◌∷◌, ◌++◌, map, append_assoc, append-nil, arith,
}
use lightnet.Core.ThreadPool.{EventLoopThreadPool, get_next_loop}
use lightnet.Net.Connection.{
  TcpConnection, Kernel, Callbacks, connect_established, connect_destroyed,
}
use lightnet.Net.Manager.{ConnectionManager, Managed}
use lightnet.Net.Manager

-- What becomes of an accepted descriptor: it is closed at the limit, or it has a connection, which the
-- connection callback has been given; `overrun` is a write past a buffer's end in that callback.
pub data Registered : Type 0 where
  fd_closed : ℕ → Registered
  established : TcpConnection → Registered
  overrun : Registered

abbrev pub of_option : Option TcpConnection → Registered
of_option none = overrun
of_option (some conn) = established conn

module _ (kernel : Kernel) (k : Callbacks) where
  abbrev pub establish : ℕ → Option TcpConnection → Registered
  establish fd none = fd_closed fd
  establish fd (some conn) = of_option (connect_established kernel k conn)

  -- The closure that `new_connection` runs in the loop of the connection.
  unfoldable pub register : ℕ → Managed → Registered × Managed
  register fd s = let (made, s') = Manager.create fd s in (establish fd made, s')

-- The loop that is chosen, and the closure that goes to it; `none` where the choice is out of bounds.
unfoldable pub new_connection :
    ℕ → EventLoopThreadPool → Option (Option ℕ × ℕ) × EventLoopThreadPool
new_connection fd pool =
    let (chosen, pool') = get_next_loop pool in ((do l ← chosen; some (l, fd)), pool')

-- The closure of `remove_connection`.
unfoldable pub remove_connection : TcpConnection → Managed → TcpConnection × Managed
remove_connection conn s = (connect_destroyed conn, Manager.remove conn.conn_id s)
