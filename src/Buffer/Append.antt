-- ===== src/Buffer/Append.antt =====
-- core/buffer.cpp: what `append` and `read_fd` add to the readable bytes, and when a write faults.
use lightnet.Common.{
  ltb, leb, if◌then◌else◌, lt→ltb, leb→le, leb→gt, Bool-cases, ◌>>=◌, length, take, drop,
  length-take, length-drop, take-append-drop, drop-append_le, le_bytes, length-le_bytes, ℕ, ◌+◌,
  ◌≤◌, ◌<◌, ◌≡◌, refl, sym, ap, ◌∙◌, inl, inr, true, false, Option, none, some, List, [], ◌++◌,
  append_assoc, arith,
}
use lightnet.Buffer.{
  new, Buffer, cheap_prepend, max_capacity, writable_bytes, prependable_bytes, peek, overwrite,
  store, resize, make_space, ensure_writable, has_written, append, got, extra_size, read_room,
  read_fd,
}
use lightnet.Buffer.Space.{
  with_size-IsValid, IsValid, take-overwrite, length-overwrite, length-resize, store-eq-some,
  store-eq-none, ensure_writable-Roomy,
}

-- The buffer has the readable bytes `xs`, and has not written past `n`.
pub record Holds (n : ℕ) (xs : List ℕ) (b : Buffer) : Type 0 where
  pub valid : IsValid b
  pub content : peek b ≡ xs
  pub bound : b.writer_index ≤ n

-- A write behind the readable bytes.
pub filled-Holds :
    (b : Buffer) (d : List ℕ)
    → IsValid b
    → b.writer_index + length d ≤ length b.storage
    → Holds (b.writer_index + length d) (peek b ++ d) (record b {
      storage = overwrite b.storage b.writer_index d;
      writer_index = b.writer_index + length d;
    })
unfolding peek
filled-Holds b d v fits = record {
  valid = record {
    prepend = v.prepend;
    ordered = omega (arith, v.ordered);
    within = omega (arith, length-overwrite b.storage b.writer_index d fits);
  };
  content =
      ap (drop b.reader_index) (take-overwrite b.storage b.writer_index d fits)
      ∙ drop-append_le b.reader_index (take b.writer_index b.storage) d
          (omega (arith, v.ordered, v.within, length-take b.writer_index b.storage));
  bound = omega arith;
}

append-Holds :
    (n : ℕ) (xs : List ℕ) (b : Buffer) (d : List ℕ)
    → Holds n xs b
    → n + length d ≤ max_capacity
    → (b' : Buffer) × (append b d ≡ some b') × Holds (n + length d) (xs ++ d) b'
unfolding append has_written
append-Holds n xs b d h fits =
    let (r, e, w) = ensure_writable-Roomy b (length d) h.valid (omega (arith, h.bound)) in
    let f = filled-Holds r d w.valid w.room in
    (
      record r {
        storage = overwrite r.storage r.writer_index d;
        writer_index = r.writer_index + length d;
      },
      rw (e, store-eq-some r.storage r.writer_index d w.room),
      record {
        valid = f.valid;
        content = f.content ∙ ap (λ ys. ys ++ d) (w.same ∙ h.content);
        bound = omega (arith, w.lower, h.bound);
      },
    )

-- The step of a chain of appends: `n'` bounds the end of the write.
abbrev pub Yields : ℕ → List ℕ → Option Buffer → Type 0
Yields n xs m = (b : Buffer) × (m ≡ some b) × Holds n xs b

pub append_last-Yields :
    (n n' : ℕ) (xs : List ℕ) (b : Buffer) (d : List ℕ)
    → Holds n xs b
    → n + length d ≤ n'
    → n' ≤ max_capacity
    → Yields n' (xs ++ d) (append b d)
append_last-Yields n n' xs b d h step fits =
    let (b', e, h') = append-Holds n xs b d h (omega arith) in
    (b', e, record { valid = h'.valid; content = h'.content; bound = omega (arith, h'.bound) })

pub append-Yields :
    (n n' : ℕ) (xs : List ℕ) (b : Buffer) (d : List ℕ) (k : Buffer → Option Buffer) (m : ℕ)
    (ys : List ℕ)
    → Holds n xs b
    → n + length d ≤ n'
    → n' ≤ max_capacity
    → ((b' : Buffer) → Holds n' (xs ++ d) b' → Yields m ys (k b'))
    → Yields m ys (append b d >>= k)
append-Yields n n' xs b d k m ys h step fits next =
    let (b', e, h') = append_last-Yields n n' xs b d h step fits in rw e (next b' h')

pub Yields-content :
    (n : ℕ) {xs ys : List ℕ} (m : Option Buffer) → xs ≡ ys → Yields n xs m → Yields n ys m
Yields-content n m e (b, p, h) =
    (b, p, record { valid = h.valid; content = h.content ∙ e; bound = h.bound })

-- The same for a field of `k` bytes.
pub field-Yields :
    (n k v : ℕ) (xs : List ℕ) (b : Buffer) (rest : Buffer → Option Buffer) (m : ℕ) (ys : List ℕ)
    → Holds n xs b
    → n + k ≤ max_capacity
    → ((b' : Buffer) → Holds (n + k) (xs ++ le_bytes k v) b' → Yields m ys (rest b'))
    → Yields m ys (append b (le_bytes k v) >>= rest)
field-Yields n k v xs b rest m ys h fits next =
    append-Yields n (n + k) xs b (le_bytes k v) rest m ys h (omega (arith, length-le_bytes k v))
      fits next

-- The start of an encoder: a new buffer with room for `len` bytes.
pub new_roomy :
    (len : ℕ)
    → len + 8 ≤ max_capacity
    → (b : Buffer) × (ensure_writable new len ≡ some b) × Holds 8 [] b
unfolding new peek
new_roomy len fits =
    let (b, e, w) = ensure_writable-Roomy new len (with_size-IsValid 1024) (omega arith) in
    (b, e, record { valid = w.valid; content = w.same; bound = w.lower })

-- In a valid buffer, and as long as the end of the write stays within the capacity limit, appending
-- succeeds, adds the bytes behind those that are readable, and leaves a valid buffer.
pub append-peek :
    (b : Buffer) (d : List ℕ)
    → IsValid b
    → b.writer_index + length d ≤ max_capacity
    → (b' : Buffer) × (append b d ≡ some b') × IsValid b' × (peek b' ≡ peek b ++ d)
append-peek b d v fits =
    let (b', e, h) =
      append-Holds b.writer_index (peek b) b d
        (record { valid = v; content = refl; bound = omega arith }) fits in
    (b', e, h.valid, h.content)

-- In a valid buffer, a write that ends behind the capacity limit and behind the storage, and does
-- not fit after moving the readable bytes to the front either, runs past the vector's end.
pub append-overruns :
    (b : Buffer) (d : List ℕ)
    → IsValid b
    → max_capacity < b.writer_index + length d
    → length b.storage + b.reader_index < b.writer_index + length d + cheap_prepend
    → length b.storage < b.writer_index + length d
    → append b d ≡ none
unfolding append ensure_writable make_space
append-overruns b d v over crowded tight =
    let narrow : ltb (writable_bytes b) (length d) ≡ true = lt→ltb _ _ (omega (arith, v.within)) in
    let no_room : ltb (writable_bytes b + prependable_bytes b) (length d + cheap_prepend) ≡ true =
      lt→ltb _ _ (omega (arith, v.within)) in
    rw (narrow, no_room, lt→ltb _ _ over)
      (let e : store (resize max_capacity b.storage) b.writer_index d ≡ none =
          store-eq-none _ b.writer_index d (omega (arith, length-resize max_capacity b.storage)) in
        rw e)

-- The part in the first block fills the vector, and the rest is appended.
read_past :
    (b : Buffer) (bytes : List ℕ)
    → IsValid b
    → writable_bytes b < length bytes
    → length bytes ≤ writable_bytes b + extra_size
    → length b.storage + extra_size ≤ max_capacity
    → (b' : Buffer) × ((do
      filled ← store b.storage b.writer_index (take (writable_bytes b) bytes)
      append
          (record b { storage = filled; writer_index = length filled })
          (drop (writable_bytes b) bytes))
        ≡ some b')
      × IsValid b'
      × (peek b' ≡ peek b ++ bytes)
read_past b bytes v over room fits =
    let front : List ℕ = take (writable_bytes b) bytes in
    let rest : List ℕ = drop (writable_bytes b) bytes in
    let front_len : b.writer_index + length front ≡ length b.storage =
      omega (arith, v.within, length-take (writable_bytes b) bytes) in
    let kept : b.writer_index + length front ≤ length b.storage = omega (arith, front_len) in
    let f = filled-Holds b front v kept in
    let full : length (overwrite b.storage b.writer_index front) ≡ b.writer_index + length front =
      length-overwrite b.storage b.writer_index front kept ∙ sym front_len in
    let (b', e, v', p) =
      append-peek _ rest f.valid (omega (arith, front_len, length-drop (writable_bytes b) bytes)) in
    rw (store-eq-some b.storage b.writer_index front kept, full)
      (
        b',
        e,
        v',
        p
            ∙ ap (λ ys. ys ++ rest) f.content
            ∙ append_assoc (peek b) front rest
            ∙ ap (◌++◌ (peek b)) (take-append-drop (writable_bytes b) bytes),
      )

-- In a valid buffer whose storage is 65536 bytes or more below the capacity limit, whatever `readv`
-- delivers into the offered room is added behind the readable bytes, the part that went to the
-- second block included, and the buffer is valid again.
read_fd-peek :
    (b : Buffer) (bytes : List ℕ)
    → IsValid b
    → length bytes ≤ read_room b
    → length b.storage + extra_size ≤ max_capacity
    → (b' : Buffer) × (read_fd b (got bytes) ≡ some b') × IsValid b' × (peek b' ≡ peek b ++ bytes)
unfolding read_fd read_room
read_fd-peek b bytes v room fits = elim (Bool-cases (leb (length bytes) (writable_bytes b))) [
  | inl inside ↦
      let fits' : b.writer_index + length bytes ≤ length b.storage =
        omega (arith, v.within, leb→le _ _ inside) in
      let f = filled-Holds b bytes v fits' in
      rw (inside, store-eq-some b.storage b.writer_index bytes fits') (_, refl, f.valid, f.content)
  | inr outside ↦ rw outside (read_past b bytes v (leb→gt _ _ outside) (spill room outside) fits)
]
  where
    spill :
        length bytes ≤ (
          if ltb (writable_bytes b) extra_size
          then writable_bytes b + extra_size
          else writable_bytes b)
        → leb (length bytes) (writable_bytes b) ≡ false
        → length bytes ≤ writable_bytes b + extra_size
    spill h e = ground arith
