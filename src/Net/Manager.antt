-- ===== src/Net/Manager.antt =====
-- net/connection_manager.h and net/connection_manager.cpp: the table of connections, their ids, the
-- limit, and the gauge that the metrics keep of them. The mutex makes each operation one step; the
-- metrics are passed along. An entry stands for the shared pointer: the connection as it was made,
-- and what happens to the connection later is not repeated in it. The idle timeout, which nothing
-- uses, and `touch`, which is empty, are left out.
pub mod Gauge
pub mod Lives
use lightnet.Common.{
  ltb, leb, ◌==◌, if◌then◌else◌, ltb→lt, lt→ltb, le→ltb, le→leb, lt→leb, ltb→ge, leb→le, leb→gt,
  ==→eq, ==→ne, eq→==, ==-refl, Bool-cases, Option-cases, some_pair-fst, some_pair-snd, bytes_eq,
  bytes_eq_refl, bytes_eq→eq, ◌>>=◌, ◌>>◌, guard, >>=-eq-some, guard-eq-some, >>=-elim, eq_of_some,
  length, take, drop, replicate, get_or, All, length-append, length-take, length-drop,
  length-replicate, take-append-drop, take_all, drop_all, drop-nil, take-append_le, drop-append_le,
  take-append_ge, drop-append_ge, take_front, drop_front, drop-drop, drop-take, length-map,
  take_first, drop_first, get_or-append, to_signed, to_unsigned, InRange, to_signed-to_unsigned,
  to_unsigned-lt, codes, IsByte, le_bytes, of_le, length-le_bytes, le_bytes-IsByte, of_le-le_bytes,
  ℤ, pos, negsuc, ℕ, zero, suc, ◌+◌, ◌-◌, ◌*◌, ◌/◌, ◌%◌, ◌^◌, ◌≤◌, ◌<◌, min, max, ◌≡◌, refl, sym,
  ap, ◌∙◌, subst, ◌≢◌, ◌↔◌, ◌⊎◌, inl, inr, Bool, true, false, not, ◌&&◌, ◌||◌, Option, none, some,
  List, [], ◌∷◌, ◌++◌, map, append_assoc, append-nil, arith,
}
use lightnet.Metrics.{
  Metrics, fetch_add, inc_connections_total, inc_active_connections, dec_active_connections,
}
use lightnet.Net.Connection.{TcpConnection}
use lightnet.Net.Connection

abbrev pub Connections : Type 0
Connections = List (ℕ × TcpConnection)

-- `std::unordered_map::operator[]` with an assignment, `erase` and `find`.
unfoldable pub assign : ℕ → TcpConnection → Connections → Connections
assign id conn [] = (id, conn) ∷ []
assign id conn ((i, c) ∷ rest) =
    let others = assign id conn rest in if i == id then (id, conn) ∷ rest else (i, c) ∷ others

unfoldable pub erase : ℕ → Connections → Connections
erase id [] = []
erase id ((i, c) ∷ rest) = let others = erase id rest in if i == id then rest else (i, c) ∷ others

unfoldable pub find : ℕ → Connections → Option TcpConnection
find id [] = none
find id ((i, c) ∷ rest) = let later = find id rest in if i == id then some c else later

pub record ConnectionManager : Type 0 where
  pub connections : Connections
  pub next_id : ℕ
  pub max_connections : ℕ

unfoldable pub new_manager : ℕ → ConnectionManager
new_manager max_connections = record {
  connections = [];
  next_id = 1;
  max_connections = max_connections;
}

abbrev pub size : ConnectionManager → ℕ
size m = length m.connections

abbrev pub Managed : Type 0
Managed = ConnectionManager × Metrics

-- The new connection, or none at the limit.
unfoldable pub create : ℕ → Managed → Option TcpConnection × Managed
create fd (m, metrics) =
    if leb m.max_connections (size m)
    then (none, (m, metrics))
    else let id = m.next_id in
      let conn = Connection.create fd id in
      (
        some conn,
        (
          record m { next_id = fetch_add m.next_id 1; connections = assign id conn m.connections },
          inc_active_connections (inc_connections_total metrics),
        ),
      )

unfoldable pub add : TcpConnection → Managed → Managed
add conn (m, metrics) = (record m { connections = assign conn.conn_id conn m.connections }, metrics)

-- The id is all that `remove` reads of the connection.
unfoldable pub remove : ℕ → Managed → Managed
remove id (m, metrics) =
    (record m { connections = erase id m.connections }, dec_active_connections metrics)
