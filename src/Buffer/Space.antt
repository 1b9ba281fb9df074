-- ===== src/Buffer/Space.antt =====
-- core/buffer.cpp: the order of the indices, and the room that `ensure_writable` makes.
use lightnet.Common.{
  ℕ, ◌+◌, ◌-◌, ◌≤◌, ◌<◌, ◌≡◌, refl, ap, ◌∙◌, sym, true, false, List, ◌++◌, none, some, arith, leb,
  ltb, length, take, drop, replicate, length-append, length-take, length-drop, length-replicate,
  take-append_le, take-append_ge, drop-append_ge, take-append-drop, take_front, take_all, ltb→ge,
  Bool-cases, inl, inr,
}
use lightnet.Buffer.{
  Buffer, cheap_prepend, max_capacity, readable_bytes, writable_bytes, prependable_bytes, peek,
  with_size, resize, overwrite, store, capped, make_space, ensure_writable,
}

-- kCheapPrepend ≤ reader_index ≤ writer_index ≤ size.
pub record IsValid (b : Buffer) : Type 0 where
  pub prepend : 8 ≤ b.reader_index
  pub ordered : b.reader_index ≤ b.writer_index
  pub within : b.writer_index ≤ length b.storage

pub with_size-IsValid : (n : ℕ) → IsValid (with_size n)
unfolding with_size
with_size-IsValid n = record {
  prepend = omega arith;
  ordered = omega arith;
  within = omega (arith, length-replicate {A = ℕ} (8 + n) 0);
}

pub length-peek : (b : Buffer) → IsValid b → length (peek b) ≡ readable_bytes b
unfolding peek
length-peek b v = omega (
  arith,
  v.within,
  length-drop b.reader_index (take b.writer_index b.storage),
  length-take b.writer_index b.storage,
)

take-take_le : (w n : ℕ) (xs : List ℕ) → w ≤ n → take w (take n xs) ≡ take w xs
take-take_le w n xs h = elim (Bool-cases (leb n (length xs))) [
  | inl in_range ↦
      sym
        (take-append_le w (take n xs) (drop n xs) (omega (arith, fits in_range, length-take n xs)))
      ∙ ap (take w) (take-append-drop n xs)
  | inr past ↦ ap (take w) (take_all n xs (beyond past))
]
  where
    fits : leb n (length xs) ≡ true → n ≤ length xs
    fits e = ground arith

    beyond : leb n (length xs) ≡ false → length xs ≤ n
    beyond e = ground arith

pub length-resize : (n : ℕ) (xs : List ℕ) → length (resize n xs) ≡ n
length-resize n xs = omega (
  arith,
  length-append (take n xs) (replicate (n - length xs) 0),
  length-take n xs,
  length-replicate {A = ℕ} (n - length xs) 0,
)

take-resize : (w n : ℕ) (xs : List ℕ) → w ≤ n → w ≤ length xs → take w (resize n xs) ≡ take w xs
take-resize w n xs h k =
    take-append_le w (take n xs) (replicate (n - length xs) 0) (omega (arith, length-take n xs))
    ∙ take-take_le w n xs h

pub length-overwrite :
    (xs : List ℕ) (i : ℕ) (d : List ℕ)
    → i + length d ≤ length xs
    → length (overwrite xs i d) ≡ length xs
length-overwrite xs i d h = omega (
  arith,
  length-append (take i xs) (d ++ drop (i + length d) xs),
  length-append d (drop (i + length d) xs),
  length-take i xs,
  length-drop (i + length d) xs,
)

-- What stands below the end of a write.
pub take-overwrite :
    (xs : List ℕ) (i : ℕ) (d : List ℕ)
    → i + length d ≤ length xs
    → take (i + length d) (overwrite xs i d) ≡ take i xs ++ d
take-overwrite xs i d h =
    let l : length (take i xs) ≡ i = omega (arith, length-take i xs) in
    take-append_ge (i + length d) (take i xs) (d ++ drop (i + length d) xs) (omega (arith, l))
    ∙ ap (λ (k : ℕ). take i xs ++ take k (d ++ drop (i + length d) xs)) (omega (arith, l))
    ∙ ap (◌++◌ (take i xs)) (take_front d (drop (i + length d) xs))

pub store-eq-some :
    (xs : List ℕ) (i : ℕ) (d : List ℕ)
    → i + length d ≤ length xs
    → store xs i d ≡ some (overwrite xs i d)
unfolding store
store-eq-some xs i d h = ground arith

pub store-eq-none :
    (xs : List ℕ) (i : ℕ) (d : List ℕ) → length xs < i + length d → store xs i d ≡ none
unfolding store
store-eq-none xs i d h = ground arith

abbrev grown : Buffer → ℕ → Buffer
grown b len = record b { storage = resize (capped (b.writer_index + len)) b.storage }

abbrev pub compacted : Buffer → Buffer
compacted b = record {
  storage = overwrite b.storage cheap_prepend (peek b);
  reader_index = cheap_prepend;
  writer_index = cheap_prepend + readable_bytes b;
}

-- The buffer `b'` has the bytes of `b`, with room for `len` more.
pub record Roomy (b : Buffer) (len : ℕ) (b' : Buffer) : Type 0 where
  pub valid : IsValid b'
  pub same : peek b' ≡ peek b
  pub room : b'.writer_index + len ≤ length b'.storage
  pub lower : b'.writer_index ≤ b.writer_index

grown-Roomy :
    (b : Buffer) (len : ℕ)
    → IsValid b
    → b.writer_index + len ≤ max_capacity
    → Roomy b len (grown b len)
unfolding peek
grown-Roomy b len v fits = rw uncapped (record {
  valid = record {
    prepend = v.prepend;
    ordered = v.ordered;
    within = omega (arith, length-resize (b.writer_index + len) b.storage);
  };
  same =
      ap (drop b.reader_index)
        (take-resize b.writer_index (b.writer_index + len) b.storage (omega arith) v.within);
  room = omega (arith, length-resize (b.writer_index + len) b.storage);
  lower = omega arith;
})
  where
    uncapped : capped (b.writer_index + len) ≡ b.writer_index + len
    uncapped = ground arith

region-overwrite :
    (xs : List ℕ) (i : ℕ) (d : List ℕ)
    → i + length d ≤ length xs
    → drop i (take (i + length d) (overwrite xs i d)) ≡ d
region-overwrite xs i d h =
    let l : length (take i xs) ≡ i = omega (arith, length-take i xs) in
    ap (drop i) (take-overwrite xs i d h)
    ∙ drop-append_ge i (take i xs) d (omega (arith, l))
    ∙ (let e : i - length (take i xs) ≡ 0 = omega (arith, l) in rw e)

peek-compacted : (b : Buffer) → IsValid b → peek (compacted b) ≡ peek b
peek-compacted b v =
    let l : readable_bytes b ≡ length (peek b) = sym (length-peek b v) in
    rw l (
      unfold peek in
      region-overwrite b.storage 8 (peek b) (omega (arith, l, v.prepend, v.ordered, v.within)))

pub compacted-Roomy :
    (b : Buffer) (len : ℕ)
    → IsValid b
    → len + cheap_prepend ≤ writable_bytes b + prependable_bytes b
    → Roomy b len (compacted b)
compacted-Roomy b len v fits =
    let s : length (overwrite b.storage cheap_prepend (peek b)) ≡ length b.storage =
      length-overwrite b.storage cheap_prepend (peek b)
        (omega (arith, length-peek b v, v.prepend, v.ordered, v.within)) in
    record {
      valid = record {
        prepend = omega arith;
        ordered = omega arith;
        within = omega (arith, s, v.within, v.prepend, v.ordered);
      };
      same = peek-compacted b v;
      room = omega (arith, s, v.within, v.prepend, v.ordered);
      lower = omega (arith, v.prepend, v.ordered);
    }

pub ensure_writable-Roomy :
    (b : Buffer) (len : ℕ)
    → IsValid b
    → b.writer_index + len ≤ max_capacity
    → (b' : Buffer) × (ensure_writable b len ≡ some b') × Roomy b len b'
unfolding ensure_writable make_space
ensure_writable-Roomy b len v fits =
    let fits_in : store b.storage cheap_prepend (peek b)
        ≡ some (overwrite b.storage cheap_prepend (peek b)) =
      store-eq-some b.storage 8 (peek b)
        (omega (arith, length-peek b v, v.prepend, v.ordered, v.within)) in
    elim (Bool-cases (ltb (writable_bytes b) len)) [
      | inr enough ↦ rw enough (
        b,
        refl,
        record {
          valid = v;
          same = refl;
          room = omega (arith, v.within, ltb→ge _ _ enough);
          lower = omega arith;
        },
      )
      | inl short ↦
          elim (Bool-cases (ltb (writable_bytes b + prependable_bytes b) (len + cheap_prepend))) [
            | inl crowded ↦ rw (short, crowded) (grown b len, refl, grown-Roomy b len v fits)
            | inr spare ↦
                rw (short, spare)
                  (compacted b, rw fits_in, compacted-Roomy b len v (ltb→ge _ _ spare))
          ]
    ]
