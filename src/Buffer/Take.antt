-- ===== src/Buffer/Take.antt =====
-- core/buffer.cpp: what the `retrieve` family takes from the readable bytes.
use lightnet.Common.{
  ℕ, ◌≡◌, ap, ◌∙◌, sym, [], ◌++◌, arith, ltb, length, take, drop, min, drop-drop, drop_all,
  Bool-cases, inl, inr, ltb→lt, ltb→ge, take-append-drop, length-take,
}
use lightnet.Buffer.{Buffer, readable_bytes, peek, retrieve, retrieve_all, retrieve_as_string}
use lightnet.Buffer.Space.{IsValid, length-peek}

retrieve_all-IsValid : (b : Buffer) → IsValid b → IsValid (retrieve_all b)
unfolding retrieve_all
retrieve_all-IsValid b v = omega (arith, v.prepend, v.ordered, v.within)

peek-retrieve_all : (b : Buffer) → peek (retrieve_all b) ≡ []
unfolding peek retrieve_all
peek-retrieve_all b = drop_all 8 (take 8 b.storage) (omega (arith, length-take 8 b.storage))

-- In a valid buffer `retrieve` drops `n` bytes from the front of the readable ones, all of them when
-- there are no more, and leaves a valid buffer.
pub retrieve_lem :
    (b : Buffer) (n : ℕ)
    → IsValid b
    → IsValid (retrieve b n) × (peek (retrieve b n) ≡ drop n (peek b))
unfolding retrieve
retrieve_lem b n v = elim (Bool-cases (ltb n (readable_bytes b))) [
  | inl less ↦ rw less (
    record {
      prepend = omega (arith, v.prepend);
      ordered = omega (arith, v.ordered, ltb→lt _ _ less);
      within = v.within;
    },
    unfold peek in sym (drop-drop n b.reader_index (take b.writer_index b.storage)),
  )
  | inr all ↦ rw all (
    retrieve_all-IsValid b v,
    peek-retrieve_all b
        ∙ sym (drop_all n (peek b) (omega (arith, length-peek b v, ltb→ge _ _ all))),
  )
]

-- In a valid buffer `retrieve_as_string` splits the readable bytes: what it returns followed by what
-- stays is what was readable before, it returns `n` bytes, or all if there are fewer, and the
-- buffer is valid again.
retrieve_as_string_lem :
    (b : Buffer) (n : ℕ)
    → IsValid b
    → IsValid (retrieve_as_string b n).1
      × ((retrieve_as_string b n).0 ++ peek (retrieve_as_string b n).1 ≡ peek b)
      × (length (retrieve_as_string b n).0 ≡ min n (length (peek b)))
unfolding retrieve_as_string
retrieve_as_string_lem b n v =
    let len : ℕ = min n (readable_bytes b) in
    let (v', e) = retrieve_lem b len v in
    (
      v',
      ap (◌++◌ (take len (peek b))) e ∙ take-append-drop len (peek b),
      omega (arith, length-take len (peek b), length-peek b v),
    )
