-- ===== src/Net/Manager/Lives.antt =====
-- net/connection_manager.cpp: the table of connections through its creations and removals.
use lightnet.Common.{
  leb, leb→le, leb→gt, Bool-cases, length, length-append, ℕ, ◌+◌, ◌-◌, ◌%◌, ◌≤◌, ◌<◌, ◌≡◌, refl,
  sym, ap, subst, inl, inr, Option, none, some, [], ◌∷◌, ◌++◌, arith,
}
use lightnet.Metrics.{word, fetch_sub, Metrics}
use lightnet.Net.Connection.{TcpConnection}
use lightnet.Net.Connection
use lightnet.Net.Manager.{
  Connections, erase, find, new_manager, size, Managed, create, remove, ConnectionManager,
}
use lightnet.Net.Manager.Gauge.{
  assign-fresh, length-erase, erase-Absent, Below-snoc, IsDistinct-snoc, IsDistinct-erase,
  Below-erase, Below, Absent, erase_unknown, IsManaged,
}

-- What `create` comes to: nothing at the limit, or a connection that is kept under an id of its own.
abbrev pub Creates : ℕ → Managed → Option TcpConnection × Managed → Type 0
Creates fd s (none, s') = (s.0.max_connections ≤ size s.0) × (s' ≡ s)
Creates fd s (some conn, s') =
    (conn ≡ Connection.create fd s.0.next_id)
    × Absent s.0.next_id s.0.connections
    × (s'.0.connections ≡ s.0.connections ++ ((s.0.next_id, conn) ∷ []))
    × IsManaged s'

Below-Absent : (n : ℕ) (cs : Connections) → Below n cs → Absent n cs
Below-Absent n [] b = tt
Below-Absent n ((i, c) ∷ rest) (l, b) = ((λ e. absurd (omega (arith, l, e))), Below-Absent n rest b)

-- In a table that is well formed and has not used up its 64-bit ids, `create` either is at the limit
-- and changes nothing, or gives a connection with an id that no other has, adds it behind the
-- others, and leaves the table well formed, its gauge included.
pub create-Creates :
    (fd : ℕ) (s : Managed) → IsManaged s → s.0.next_id + 1 < word → Creates fd s (create fd s)
unfolding create
create-Creates fd s i ids =
    let m : ConnectionManager = s.0 in
    elim (Bool-cases (leb m.max_connections (size m))) [
      | inl full ↦ rw (full, create) (leb→le _ _ full, refl)
      | inr room ↦
          let conn : TcpConnection = Connection.create fd m.next_id in
          let e = assign-fresh m.next_id conn m.connections i.fresh in
          let below = leb→gt _ _ room in
          let next : (m.next_id + 1) % word ≡ m.next_id + 1 = omega (arith, ids) in
          let one_more : length (m.connections ++ ((m.next_id, conn) ∷ []))
              ≡ length m.connections + 1 =
            length-append m.connections ((m.next_id, conn) ∷ []) in
          rw (room, create)
            (rw (e, next)
              (
                refl,
                Below-Absent m.next_id m.connections i.fresh,
                refl,
                record {
                  within = omega (arith, below, one_more);
                  distinct = IsDistinct-snoc m.next_id conn m.connections i.fresh i.distinct;
                  fresh = Below-snoc m.next_id conn m.connections i.fresh;
                  gauge = omega (arith, below, one_more, i.gauge, i.in_word);
                  in_word = i.in_word;
                },
              ))
    ]

remove-IsManaged :
    (id : ℕ) (conn : TcpConnection) (s : Managed)
    → IsManaged s
    → find id s.0.connections ≡ some conn
    → IsManaged (remove id s)
unfolding remove
remove-IsManaged id conn s i here =
    let l = length-erase id s.0.connections conn here in
    record {
      within = omega (arith, l, i.within);
      distinct = IsDistinct-erase id s.0.connections i.distinct;
      fresh = Below-erase s.0.next_id id s.0.connections i.fresh;
      gauge = omega (arith, l, i.gauge, i.within, i.in_word);
      in_word = i.in_word;
    }

-- A table with its metrics, from a new one, through creations and removals of present connections.
pub data Life (max_connections : ℕ) : Managed → Type 0 where
  started :
      (metrics : Metrics)
      → metrics.active_connections ≡ 0
      → Life max_connections (new_manager max_connections, metrics)
  creates :
      (fd : ℕ) (s : Managed)
      → s.0.next_id + 1 < word
      → Life max_connections s
      → Life max_connections (create fd s).1
  removes :
      (id : ℕ) (conn : TcpConnection) (s : Managed)
      → find id s.0.connections ≡ some conn
      → Life max_connections s
      → Life max_connections (remove id s)

left_managed :
    (fd : ℕ) (s : Managed) (r : Option TcpConnection × Managed)
    → IsManaged s
    → Creates fd s r
    → IsManaged r.1
left_managed fd s (none, s') i (full, same) = subst IsManaged (sym same) i
left_managed fd s (some conn, s') i (made, fresh, last, j) = j

-- Through any sequence of creations and of removals of connections that are present, with a limit
-- below 2^64, the table never exceeds its limit, holds no id twice, and the gauge of active
-- connections is its size.
pub Life-IsManaged :
    (max_connections : ℕ) (s : Managed)
    → max_connections < word
    → Life max_connections s
    → IsManaged s
unfolding new_manager
Life-IsManaged n s small (started metrics idle) = record {
  within = omega arith;
  distinct = tt;
  fresh = tt;
  gauge = idle;
  in_word = small;
}
Life-IsManaged n s small (creates fd t ids life) =
    let i = Life-IsManaged n t small life in
    left_managed fd t (create fd t) i (create-Creates fd t i ids)
Life-IsManaged n s small (removes id conn t here life) =
    remove-IsManaged id conn t (Life-IsManaged n t small life) here

-- When a present connection of a well-formed table is removed twice, the second removal changes the
-- table no further, but the gauge: it is one less than the size, and 2^64 - 1 for an empty table.
pub remove_twice :
    (id : ℕ) (conn : TcpConnection) (s : Managed)
    → IsManaged s
    → find id s.0.connections ≡ some conn
    → ((remove id (remove id s)).0 ≡ (remove id s).0)
      × ((remove id (remove id s)).1.active_connections
          ≡ (size (remove id s).0 + (word - 1)) % word)
unfolding remove
remove_twice id conn s i here =
    let gone =
      erase_unknown id (erase id s.0.connections) (erase-Absent id s.0.connections i.distinct) in
    let j = remove-IsManaged id conn s i here in
    (
      ap (λ (cs : Connections). record s.0 { connections = cs }) gone,
      ap (λ (n : ℕ). fetch_sub n 1) j.gauge,
    )
