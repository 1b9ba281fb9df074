-- ===== src/Tests/Buffers.antt =====
-- Runs of the buffer of core/buffer.cpp.
use lightnet.Common.{
  length, replicate, length-replicate, codes, ℕ, ◌≡◌, none, some, List, [], ◌∷◌, ◌++◌, arith,
}
use lightnet.Buffer.{peek, append, Buffer}
use lightnet.Buffer.Space.{IsValid}
use lightnet.Buffer.Append.{append-peek, append-overruns}

-- "GE" is readable, and two bytes are free behind it.
abbrev small : Buffer
small = record {
  storage = 0 ∷ 0 ∷ 0 ∷ 0 ∷ 0 ∷ 0 ∷ 0 ∷ 0 ∷ b'G' ∷ b'E' ∷ 0 ∷ 0 ∷ [];
  reader_index = 8;
  writer_index = 10;
}

small-IsValid : IsValid small
small-IsValid = omega arith

append-peek_example :
    (b : Buffer) × (append small (codes "T /") ≡ some b)
    × IsValid b
    × (peek b ≡ peek small ++ codes "T /")
append-peek_example = append-peek small (codes "T /") small-IsValid (omega arith)

-- Many bytes: more than any buffer takes, at 70000000.
zeros : ℕ → List ℕ
zeros n = replicate n 0

length-zeros : (n : ℕ) → length (zeros n) ≡ n
unfolding zeros
length-zeros n = length-replicate n 0

append-overruns_example : append small (zeros 70000000) ≡ none
append-overruns_example =
    append-overruns small (zeros 70000000) small-IsValid (omega (arith, length-zeros 70000000))
      (omega (arith, length-zeros 70000000)) (omega (arith, length-zeros 70000000))
