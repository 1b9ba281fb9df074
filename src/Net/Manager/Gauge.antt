-- ===== src/Net/Manager/Gauge.antt =====
-- net/connection_manager.cpp: the table keeps to its limit, hands out each id once, and the gauge of
-- the metrics is its size, as long as only present connections are removed.
use lightnet.Common.{
  ◌==◌, ==→eq, ==→ne, Bool-cases, length, ℕ, suc, ◌+◌, ◌≤◌, ◌<◌, ◌≡◌, refl, ap, subst, ◌≢◌, inl,
  inr, false, some, [], ◌∷◌, ◌++◌, arith,
}
use lightnet.Metrics.{word}
use lightnet.Net.Connection.{TcpConnection}
use lightnet.Net.Manager.{Connections, assign, erase, find, size, Managed}

-- All ids are below `n`.
abbrev pub Below : ℕ → Connections → Type 0
Below n [] = Unit {0}
Below n ((i, c) ∷ rest) = (i < n) × Below n rest

abbrev pub Absent : ℕ → Connections → Type 0
Absent n [] = Unit {0}
Absent n ((i, c) ∷ rest) = (i ≢ n) × Absent n rest

-- No id twice.
abbrev pub IsDistinct : Connections → Type 0
IsDistinct [] = Unit {0}
IsDistinct ((i, c) ∷ rest) = Absent i rest × IsDistinct rest

pub record IsManaged (s : Managed) : Type 0 where
  pub within : size s.0 ≤ s.0.max_connections
  pub distinct : IsDistinct s.0.connections
  pub fresh : Below s.0.next_id s.0.connections
  pub gauge : s.1.active_connections ≡ size s.0
  pub in_word : s.0.max_connections < word

Below-suc : (n : ℕ) (cs : Connections) → Below n cs → Below (n + 1) cs
Below-suc n [] b = tt
Below-suc n ((i, c) ∷ rest) (l, b) = (omega (arith, l), Below-suc n rest b)

-- A new id is put behind the others.
pub assign-fresh :
    (n : ℕ) (conn : TcpConnection) (cs : Connections)
    → Below n cs
    → (assign n conn cs ≡ cs ++ ((n, conn) ∷ []))
unfolding assign
assign-fresh n conn [] b = refl
assign-fresh n conn ((i, c) ∷ rest) (l, b) =
    let other : (i == n) ≡ false = ground (arith, l) in
    rw other (ap (◌∷◌ (i, c)) (assign-fresh n conn rest b))

pub Below-snoc :
    (n : ℕ) (conn : TcpConnection) (cs : Connections)
    → Below n cs
    → Below (n + 1) (cs ++ ((n, conn) ∷ []))
Below-snoc n conn [] b = (omega arith, tt)
Below-snoc n conn ((i, c) ∷ rest) (l, b) = (omega (arith, l), Below-snoc n conn rest b)

Absent-snoc :
    (i n : ℕ) (conn : TcpConnection) (cs : Connections)
    → i < n
    → Absent i cs
    → Absent i (cs ++ ((n, conn) ∷ []))
Absent-snoc i n conn [] l a = ((λ e. absurd (omega (arith, l, e))), tt)
Absent-snoc i n conn ((j, c) ∷ rest) l (ne, a) = (ne, Absent-snoc i n conn rest l a)

pub IsDistinct-snoc :
    (n : ℕ) (conn : TcpConnection) (cs : Connections)
    → Below n cs
    → IsDistinct cs
    → IsDistinct (cs ++ ((n, conn) ∷ []))
IsDistinct-snoc n conn [] b d = (tt, tt)
IsDistinct-snoc n conn ((i, c) ∷ rest) (l, b) (a, d) =
    (Absent-snoc i n conn rest l a, IsDistinct-snoc n conn rest b d)

pub Below-erase : (n id : ℕ) (cs : Connections) → Below n cs → Below n (erase id cs)
unfolding erase
Below-erase n id [] b = tt
Below-erase n id ((i, c) ∷ rest) (l, b) = elim (Bool-cases (i == id)) [
  | inl this ↦ rw this b
  | inr other ↦ rw other (l, Below-erase n id rest b)
]

Absent-erase : (n id : ℕ) (cs : Connections) → Absent n cs → Absent n (erase id cs)
unfolding erase
Absent-erase n id [] b = tt
Absent-erase n id ((i, c) ∷ rest) (l, b) = elim (Bool-cases (i == id)) [
  | inl this ↦ rw this b
  | inr other ↦ rw other (l, Absent-erase n id rest b)
]

pub IsDistinct-erase : (id : ℕ) (cs : Connections) → IsDistinct cs → IsDistinct (erase id cs)
unfolding erase
IsDistinct-erase id [] d = tt
IsDistinct-erase id ((i, c) ∷ rest) (a, d) = elim (Bool-cases (i == id)) [
  | inl this ↦ rw this d
  | inr other ↦ rw other (Absent-erase i id rest a, IsDistinct-erase id rest d)
]

-- The table shrinks by a present id, and not by an absent one.
pub length-erase :
    (id : ℕ) (cs : Connections) (conn : TcpConnection)
    → find id cs ≡ some conn
    → suc (length (erase id cs)) ≡ length cs
unfolding erase find
length-erase id [] conn here = absurd (cc here)
length-erase id ((i, c) ∷ rest) conn here = elim (Bool-cases (i == id)) [
  | inl this ↦ rw this refl
  | inr other ↦ rw other (ap suc (length-erase id rest conn (rw other at here)))
]

pub erase_unknown : (id : ℕ) (cs : Connections) → Absent id cs → erase id cs ≡ cs
unfolding erase
erase_unknown id [] a = refl
erase_unknown id ((i, c) ∷ rest) (ne, a) = elim (Bool-cases (i == id)) [
  | inl this ↦ absurd (ne (==→eq i id this))
  | inr other ↦ rw other (ap (◌∷◌ (i, c)) (erase_unknown id rest a))
]

pub erase-Absent : (id : ℕ) (cs : Connections) → IsDistinct cs → Absent id (erase id cs)
unfolding erase
erase-Absent id [] d = tt
erase-Absent id ((i, c) ∷ rest) (a, d) = elim (Bool-cases (i == id)) [
  | inl this ↦ rw this (subst (λ (n : ℕ). Absent n rest) (==→eq i id this) a)
  | inr other ↦ rw other (==→ne i id other, erase-Absent id rest d)
]
