-- ===== src/Metrics/Buckets.antt =====
-- metrics/metrics.cpp: what the exported buckets of a histogram say of the observed values.
use lightnet.Common.{
  leb, if◌then◌else◌, le→leb, leb→le, Bool-cases, length, All, ℕ, suc, ◌+◌, ◌%◌, ◌≤◌, ◌<◌, ◌≡◌,
  refl, ap, ◌∙◌, inl, inr, true, List, [], ◌∷◌, arith,
}
use lightnet.Metrics.{
  Histogram, new_histogram, word, fetch_add, bucket_bounds, bump, observe, cumulatives,
}

-- A histogram that has observed the values, the last of the list first.
unfoldable pub observed : List ℕ → Histogram
observed [] = new_histogram
observed (v ∷ vs) = observe v (observed vs)

-- How many of the values are at most `bound`.
abbrev pub at_most : ℕ → List ℕ → ℕ
at_most bound [] = 0
at_most bound (v ∷ vs) = if leb v bound then suc (at_most bound vs) else at_most bound vs

abbrev pub total : List ℕ → ℕ
total [] = 0
total (v ∷ vs) = v + total vs

-- The counts that a cumulative histogram is to show, in a counter of 64 bits.
abbrev pub counts : List ℕ → List ℕ → List ℕ
counts [] vs = []
counts (b ∷ bs) vs = at_most b vs % word ∷ counts bs vs

abbrev IsIncreasing : ℕ → List ℕ → Type 0
IsIncreasing lower [] = Unit {0}
IsIncreasing lower (b ∷ bs) = (lower ≤ b) × IsIncreasing b bs

increment : List ℕ → List ℕ
increment [] = []
increment (n ∷ ns) = (n + 1) % word ∷ increment ns

cumulatives-suc :
    (a b : ℕ) (ns : List ℕ) → b ≡ (a + 1) % word → cumulatives b ns ≡ increment (cumulatives a ns)
unfolding cumulatives increment
cumulatives-suc a b [] e = refl
cumulatives-suc a b (n ∷ ns) e =
    let s : (b + n) % word ≡ ((a + n) % word + 1) % word = omega (arith, e) in
    (λ i. s i ∷ cumulatives-suc ((a + n) % word) ((b + n) % word) ns s i)

counts-suc :
    (v lower : ℕ) (bs vs : List ℕ)
    → v ≤ lower
    → IsIncreasing lower bs
    → increment (counts bs vs) ≡ counts bs (v ∷ vs)
unfolding increment
counts-suc v lower [] vs h inc = refl
counts-suc v lower (b ∷ bs) vs h (l, inc) =
    let below : leb v b ≡ true = le→leb _ _ (omega (arith, l)) in
    let s : (at_most b vs % word + 1) % word ≡ suc (at_most b vs) % word = omega arith in
    rw below (λ i. s i ∷ counts-suc v b bs vs (omega (arith, l)) inc i)

head_eq : {x y : ℕ} {xs ys : List ℕ} → x ∷ xs ≡ y ∷ ys → x ≡ y
head_eq e = cc

tail_eq : {x y : ℕ} {xs ys : List ℕ} → x ∷ xs ≡ y ∷ ys → xs ≡ ys
tail_eq e = cc

-- One more value.
cumulatives-bump :
    (v a lower : ℕ) (bs vs ns : List ℕ)
    → IsIncreasing lower bs
    → cumulatives a ns ≡ counts bs vs
    → cumulatives a (bump v bs ns) ≡ counts bs (v ∷ vs)
unfolding bump cumulatives increment
cumulatives-bump v a lower [] vs ns inc e = e
cumulatives-bump v a lower (b ∷ bs) vs [] inc e = absurd (cc e)
cumulatives-bump v a lower (b ∷ bs) vs (n ∷ ns) (l, inc) e = elim (Bool-cases (leb v b)) [
  | inl here ↦
      let s : (a + (n + 1) % word) % word ≡ ((a + n) % word + 1) % word = omega arith in
      rw here (
        (λ i. s i ∷ cumulatives-suc ((a + n) % word) ((a + (n + 1) % word) % word) ns s i)
        ∙ ap increment e
        ∙ (rw here at (counts-suc v v (b ∷ bs) vs (omega arith) (leb→le _ _ here, inc))))
  | inr later ↦
      rw later (λ i. head_eq e i ∷ cumulatives-bump v (fetch_add a n) b bs vs ns inc (tail_eq e) i)
]

total_mod : (v : ℕ) (n : ℕ) → (n % word + v) % word ≡ (v + n) % word
total_mod v n = omega arith

-- After any sequence of observations of 64-bit words, the histogram that `export_to` prints is the one
-- that the values call for: the cumulative count at each bound is the number of values that are not
-- above it, the sum is their sum and the count is how many they are, each as a counter of 64 bits.
pub observed_lem :
    (vs : List ℕ)
    → (cumulatives 0 (observed vs).buckets ≡ counts bucket_bounds vs)
      × ((observed vs).sum ≡ total vs % word)
      × ((observed vs).count ≡ length vs % word)
unfolding observed observe new_histogram cumulatives
observed_lem [] = (refl, refl, refl)
observed_lem (v ∷ vs) =
    let (c, s, n) = observed_lem vs in
    (
      cumulatives-bump v 0 0 bucket_bounds vs (observed vs).buckets (omega arith) c,
      ap (λ (k : ℕ). fetch_add k v) s ∙ total_mod v (total vs),
      omega (arith, n),
    )

-- The bucket of the largest bound counts every word that has been observed.
observed_every :
    (vs : List ℕ) → All (λ v. v < word) vs → at_most 18446744073709551615 vs ≡ length vs
observed_every [] h = refl
observed_every (v ∷ vs) (h, hs) =
    rw (le→leb v 18446744073709551615 (omega (arith, h))) (ap suc (observed_every vs hs))
