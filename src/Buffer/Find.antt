-- ===== src/Buffer/Find.antt =====
-- core/buffer.cpp: `find_crlf`, the end of the first line.
use lightnet.Common.{
  ℕ, suc, zero, ◌+◌, ◌≤◌, ◌≡◌, ◌≢◌, refl, List, [], ◌∷◌, ◌++◌, none, some, arith, length, take,
  drop, All,
}
use lightnet.Buffer.{search_crlf}

-- Where an offset is found, CR LF stands there, and none is found in the bytes up to its CR.
search_crlf-found :
    (xs : List ℕ) (i : ℕ)
    → search_crlf xs ≡ some i
    → (xs ≡ take i xs ++ (13 ∷ 10 ∷ drop (suc (suc i)) xs)) × (search_crlf (take (suc i) xs) ≡ none)
unfolding search_crlf
search_crlf-found [] i h = cc
search_crlf-found (c ∷ []) i h = cc
search_crlf-found (c ∷ d ∷ rest) zero h = ground (arith, h, search_crlf-found (d ∷ rest) zero)
search_crlf-found (c ∷ d ∷ rest) (suc i) h = ground (arith, h, search_crlf-found (d ∷ rest) i)

-- More input does not change what was found.
pub search_crlf-append :
    (xs ys : List ℕ) (i : ℕ) → search_crlf xs ≡ some i → search_crlf (xs ++ ys) ≡ some i
unfolding search_crlf
search_crlf-append [] ys i h = cc
search_crlf-append (c ∷ []) ys i h = cc
search_crlf-append (c ∷ d ∷ rest) ys zero h = ground (arith, search_crlf-append (d ∷ rest) ys zero)
search_crlf-append (c ∷ d ∷ rest) ys (suc i) h = ground (arith, search_crlf-append (d ∷ rest) ys i)

-- A line without CR ends at the CR LF behind it.
pub search_crlf_line :
    (line rest : List ℕ)
    → All (λ c. c ≢ 13) line
    → search_crlf (line ++ (13 ∷ 10 ∷ rest)) ≡ some (length line)
unfolding search_crlf
search_crlf_line [] rest h = refl
search_crlf_line (c ∷ []) rest h = ground (arith, h.0)
search_crlf_line (c ∷ d ∷ line) rest (h, hs) = ground (arith, search_crlf_line (d ∷ line) rest hs)

-- The offset leaves room for the two bytes.
pub search_crlf-lt : (xs : List ℕ) (i : ℕ) → search_crlf xs ≡ some i → i + 2 ≤ length xs
unfolding search_crlf
search_crlf-lt [] i h = cc
search_crlf-lt (c ∷ []) i h = cc
search_crlf-lt (c ∷ d ∷ rest) zero h = omega arith
search_crlf-lt (c ∷ d ∷ rest) (suc i) h = ground (arith, search_crlf-lt (d ∷ rest) i)
