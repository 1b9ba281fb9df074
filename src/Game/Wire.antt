-- ===== src/Game/Wire.antt =====
-- game/game_codec.cpp, the anonymous namespace: the little-endian writers and the bounded readers.
-- A reader's cursor is the list of the bytes from `p` up to `end`.
use lightnet.Common.{
  ap, ◌+◌, Bool-cases, inl, inr, ltb→ge, some_pair-snd, length-drop, ℕ, ◌<◌, ◌^◌, ◌≡◌, ℤ, InRange,
  to_signed, to_unsigned, List, [], ◌∷◌, ◌++◌, Option, none, some, arith, false, append-nil, ltb,
  if◌then◌else◌, length, take, drop, ◌>>=◌, le_bytes, of_le, length-le_bytes, of_le-le_bytes,
  length-append, take_first, drop_first, to_signed-to_unsigned, le→ltb, to_unsigned-lt,
}

unfoldable pub append_u8 : List ℕ → ℕ → List ℕ
append_u8 out v = out ++ (v ∷ [])

unfoldable pub append_u16 : List ℕ → ℕ → List ℕ
append_u16 out v = out ++ le_bytes 2 v

unfoldable pub append_u32 : List ℕ → ℕ → List ℕ
append_u32 out v = out ++ le_bytes 4 v

unfoldable pub append_u64 : List ℕ → ℕ → List ℕ
append_u64 out v = out ++ le_bytes 8 v

unfoldable pub append_i8 : List ℕ → ℤ → List ℕ
unfolding append_u8
append_i8 out v = append_u8 out (to_unsigned 128 v)

unfoldable pub append_i16 : List ℕ → ℤ → List ℕ
unfolding append_u16
append_i16 out v = append_u16 out (to_unsigned 32768 v)

unfoldable pub append_f32 : List ℕ → ℕ → List ℕ
unfolding append_u32
append_f32 out bits = append_u32 out bits

-- The `n` next bytes as a word, with the cursor behind them.
unfoldable read_le : ℕ → List ℕ → Option (ℕ × List ℕ)
read_le n p = if ltb (length p) n then none else some (of_le (take n p), drop n p)

unfoldable pub read_u8 : List ℕ → Option (ℕ × List ℕ)
read_u8 [] = none
read_u8 (b ∷ p) = some (b, p)

unfoldable pub read_u16 : List ℕ → Option (ℕ × List ℕ)
unfolding read_le
read_u16 p = read_le 2 p

unfoldable pub read_u32 : List ℕ → Option (ℕ × List ℕ)
unfolding read_le
read_u32 p = read_le 4 p

unfoldable pub read_u64 : List ℕ → Option (ℕ × List ℕ)
unfolding read_le
read_u64 p = read_le 8 p

unfoldable pub read_i8 : List ℕ → Option (ℤ × List ℕ)
unfolding read_u8
read_i8 p = do (v, p) ← read_u8 p; some (to_signed 128 v, p)

unfoldable pub read_i16 : List ℕ → Option (ℤ × List ℕ)
unfolding read_u16
read_i16 p = do (v, p) ← read_u16 p; some (to_signed 32768 v, p)

unfoldable pub read_f32 : List ℕ → Option (ℕ × List ℕ)
unfolding read_u32
read_f32 p = read_u32 p

read_le-le_bytes :
    (n v : ℕ) → v < 256 ^ n → (p : List ℕ) → read_le n (le_bytes n v ++ p) ≡ some (v, p)
unfolding read_le
read_le-le_bytes n v h p =
    let l : length (le_bytes n v) ≡ n = length-le_bytes n v in
    let room : ltb (length (le_bytes n v ++ p)) n ≡ false =
      le→ltb _ _ (omega (arith, l, length-append (le_bytes n v) p)) in
    rw
      (room, take_first n (le_bytes n v) p l, drop_first n (le_bytes n v) p l, of_le-le_bytes n v h)

-- Each reader takes back what its writer appended, and leaves the cursor behind it.
pub read_u16-le_bytes :
    (v : ℕ) → v < 2 ^ 16 → (p : List ℕ) → read_u16 (le_bytes 2 v ++ p) ≡ some (v, p)
unfolding read_u16
read_u16-le_bytes v h = read_le-le_bytes 2 v h

pub read_u32-le_bytes :
    (v : ℕ) → v < 2 ^ 32 → (p : List ℕ) → read_u32 (le_bytes 4 v ++ p) ≡ some (v, p)
unfolding read_u32
read_u32-le_bytes v h = read_le-le_bytes 4 v h

pub read_u64-le_bytes :
    (v : ℕ) → v < 2 ^ 64 → (p : List ℕ) → read_u64 (le_bytes 8 v ++ p) ≡ some (v, p)
unfolding read_u64
read_u64-le_bytes v h = read_le-le_bytes 8 v h

pub read_f32-le_bytes :
    (v : ℕ) → v < 2 ^ 32 → (p : List ℕ) → read_f32 (le_bytes 4 v ++ p) ≡ some (v, p)
unfolding read_f32
read_f32-le_bytes v h = read_u32-le_bytes v h

pub read_i16-le_bytes :
    (v : ℤ)
    → InRange 32768 v
    → (p : List ℕ) → read_i16 (le_bytes 2 (to_unsigned 32768 v) ++ p) ≡ some (v, p)
unfolding read_i16
read_i16-le_bytes v h p = rw (
  read_u16-le_bytes (to_unsigned 32768 v) (to_unsigned-lt 32768 v h) p,
  ◌>>=◌,
  to_signed-to_unsigned 32768 v h,
)

pub read_i8-cons :
    (v : ℤ) → InRange 128 v → (p : List ℕ) → read_i8 (to_unsigned 128 v ∷ p) ≡ some (v, p)
unfolding read_i8
read_i8-cons v h p = rw (◌>>=◌, to_signed-to_unsigned 128 v h)

-- The same at the end of the payload.
pub read_u16_last : (v : ℕ) → v < 2 ^ 16 → read_u16 (le_bytes 2 v) ≡ some (v, [])
read_u16_last v h = rw append-nil at (read_u16-le_bytes v h [])

pub read_u32_last : (v : ℕ) → v < 2 ^ 32 → read_u32 (le_bytes 4 v) ≡ some (v, [])
read_u32_last v h = rw append-nil at (read_u32-le_bytes v h [])

pub read_f32_last : (v : ℕ) → v < 2 ^ 32 → read_f32 (le_bytes 4 v) ≡ some (v, [])
read_f32_last v h = rw append-nil at (read_f32-le_bytes v h [])

pub read_u64_last : (v : ℕ) → v < 2 ^ 64 → read_u64 (le_bytes 8 v) ≡ some (v, [])
read_u64_last v h = rw append-nil at (read_u64-le_bytes v h [])

-- A reader that succeeds moves the cursor by the size of the word.
read_le_takes :
    (n : ℕ) (p : List ℕ) (r : ℕ × List ℕ) → read_le n p ≡ some r → length p ≡ n + length r.1
unfolding read_le
read_le_takes n p r e = elim (Bool-cases (ltb (length p) n)) [
  | inl short ↦ absurd (cc (rw short at e))
  | inr there ↦
      omega (arith, ltb→ge _ _ there, ap length (some_pair-snd (rw there at e)), length-drop n p)
]

pub read_u8_takes : (p : List ℕ) (r : ℕ × List ℕ) → read_u8 p ≡ some r → length p ≡ 1 + length r.1
unfolding read_u8
read_u8_takes [] r e = cc
read_u8_takes (b ∷ p) r e = omega (arith, ap length (some_pair-snd e))

pub read_u16_takes : (p : List ℕ) (r : ℕ × List ℕ) → read_u16 p ≡ some r → length p ≡ 2 + length r.1
unfolding read_u16
read_u16_takes p r e = read_le_takes 2 p r e

pub read_u32_takes : (p : List ℕ) (r : ℕ × List ℕ) → read_u32 p ≡ some r → length p ≡ 4 + length r.1
unfolding read_u32
read_u32_takes p r e = read_le_takes 4 p r e
