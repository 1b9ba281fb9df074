-- ===== src/Http/Text.antt =====
-- The parts of the C++ library that http/ calls on text: `tolower`, `isspace`, `find`, `to_string`
-- and `stoul`, and a map with text keys. Text is a list of bytes; the locale is "C".
use lightnet.Common.{
  ltb, leb, ◌==◌, if◌then◌else◌, bytes_eq, ◌>>=◌, ℕ, zero, suc, ◌+◌, ◌-◌, ◌*◌, ◌/◌, ◌%◌, ◌^◌, Bool,
  ◌&&◌, ◌||◌, Option, none, some, List, [], ◌∷◌,
}

unfoldable pub tolower : ℕ → ℕ
tolower c = if leb 65 c && leb c 90 then c + 32 else c

unfoldable pub isspace : ℕ → Bool
isspace c = c == 32 || (leb 9 c && leb c 13)

-- The text before the first `c`, and the text behind it.
unfoldable pub split_at : ℕ → List ℕ → Option (List ℕ × List ℕ)
split_at c [] = none
split_at c (x ∷ xs) =
    let later = split_at c xs in
    if x == c then some ([], xs) else (do (front, back) ← later; some (x ∷ front, back))

unfoldable pub skip_spaces : List ℕ → List ℕ
unfolding isspace
skip_spaces [] = []
skip_spaces (c ∷ cs) = let rest = skip_spaces cs in if isspace c then rest else c ∷ cs

unfoldable is_digit : ℕ → Bool
is_digit c = leb 48 c && leb c 57

-- The decimal digits of `n`, with fuel: each digit takes one.
digits_fuel : ℕ → ℕ → List ℕ → List ℕ
digits_fuel zero n out = out
digits_fuel (suc fuel) n out =
    let out' = ((n % 10) + 48) ∷ out in
    let rest = digits_fuel fuel (n / 10) out' in if ltb n 10 then out' else rest

-- `std::to_string`.
unfoldable pub to_string : ℕ → List ℕ
unfolding digits_fuel
to_string n = digits_fuel (suc n) n []

-- The value of the digits in front, added to what was read before.
unfoldable read_digits : ℕ → List ℕ → ℕ
unfolding is_digit
read_digits acc [] = acc
read_digits acc (c ∷ cs) =
    let rest = read_digits (acc * 10 + (c - 48)) cs in if is_digit c then rest else acc

pub data Stoul : Type 0 where
  number : ℕ → Stoul
  invalid_argument out_of_range : Stoul

-- The number behind the sign: an error without a digit, or where it is too large.
unfoldable stoul_digits : List ℕ → Stoul
unfolding is_digit read_digits
stoul_digits [] = invalid_argument
stoul_digits (c ∷ cs) =
    if is_digit c
    then (let n = read_digits 0 (c ∷ cs) in if ltb n (2 ^ 64) then number n else out_of_range)
    else invalid_argument

-- A minus sign is taken modulo 2 ^ 64.
abbrev negated : Stoul → Stoul
negated (number n) = number ((2 ^ 64 - n) % 2 ^ 64)
negated invalid_argument = invalid_argument
negated out_of_range = out_of_range

abbrev stoul_sign : List ℕ → Stoul
stoul_sign [] = invalid_argument
stoul_sign (c ∷ cs) =
    if c == b'-'
    then negated (stoul_digits cs)
    else if c == b'+'
    then stoul_digits cs
    else stoul_digits (c ∷ cs)

-- `std::stoul` in base ten.
unfoldable pub stoul : List ℕ → Stoul
unfolding stoul_digits skip_spaces
stoul s = stoul_sign (skip_spaces s)

-- `std::unordered_map<std::string, std::string>`: the order of its entries is that of the list.
abbrev pub Headers : Type 0
Headers = List (List ℕ × List ℕ)

unfoldable pub lookup : List ℕ → Headers → Option (List ℕ)
lookup key [] = none
lookup key ((k, v) ∷ hs) = if bytes_eq k key then some v else lookup key hs

unfoldable pub insert : List ℕ → List ℕ → Headers → Headers
insert key value [] = (key, value) ∷ []
insert key value ((k, v) ∷ hs) =
    if bytes_eq k key then (k, value) ∷ hs else (k, v) ∷ insert key value hs
