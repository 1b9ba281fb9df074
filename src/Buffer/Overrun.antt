-- ===== src/Buffer/Overrun.antt =====
-- core/buffer.cpp: what `append` leaves whenever it overruns nothing, whatever the capacity.
use lightnet.Common.{
  ltb, leb, ltb→ge, leb→le, leb→gt, Bool-cases, ℕ, ◌+◌, ◌≡◌, refl, ap, ◌∙◌, inl, inr, Option, none,
  some, List, ◌++◌, length, arith, lt→ltb,
}
use lightnet.Buffer.{
  Buffer, cheap_prepend, max_capacity, writable_bytes, prependable_bytes, peek, store, resize,
  make_space, ensure_writable, has_written, append,
}
use lightnet.Buffer.Space.{
  IsValid, Roomy, compacted, compacted-Roomy, length-peek, length-resize, store-eq-some,
  store-eq-none,
}
use lightnet.Buffer.Append.{append-peek, filled-Holds}

abbrev pub Appended : Buffer → List ℕ → Option Buffer → Type 0
Appended b d none = Unit {0}
Appended b d (some b') = IsValid b' × (peek b' ≡ peek b ++ d)

-- A write into the room that has been made.
into_room :
    (b r : Buffer) (d : List ℕ)
    → ensure_writable b (length d) ≡ some r
    → Roomy b (length d) r
    → Appended b d (append b d)
unfolding append has_written
into_room b r d e w =
    let f = filled-Holds r d w.valid w.room in
    rw (e, store-eq-some r.storage r.writer_index d w.room)
      (f.valid, f.content ∙ ap (λ (ys : List ℕ). ys ++ d) w.same)

-- In a valid buffer, where `append` overruns nothing, the bytes stand behind those that were readable,
-- and the buffer is valid.
pub append-Appended : (b : Buffer) (d : List ℕ) → IsValid b → Appended b d (append b d)
append-Appended b d v = elim (Bool-cases (leb (b.writer_index + length d) max_capacity)) [
  | inl fits ↦ let (b', e, v', p) = append-peek b d v (leb→le _ _ fits) in rw e (v', p)
  | inr over ↦ elim (Bool-cases (ltb (writable_bytes b) (length d))) [
    | inr enough ↦ into_room b b d (unfold ensure_writable in rw enough refl) (record {
      valid = v;
      same = refl;
      room = omega (arith, v.within, ltb→ge _ _ enough);
      lower = omega arith;
    })
    | inl short ↦
        elim (Bool-cases
          (ltb (writable_bytes b + prependable_bytes b) (length d + cheap_prepend))) [
            | inr spare ↦
                into_room b (compacted b) d
                  (unfold ensure_writable make_space in
                    rw
                      (
                        short,
                        spare,
                        store-eq-some b.storage 8 (peek b)
                            (omega (arith, length-peek b v, v.prepend, v.ordered, v.within)),
                      )
                      refl)
                  (compacted-Roomy b (length d) v (ltb→ge _ _ spare))
            | inl crowded ↦
                unfold append ensure_writable make_space in
                rw (short, crowded, lt→ltb _ _ (leb→gt _ _ over))
                  (let e : store (resize max_capacity b.storage) b.writer_index d ≡ none =
                      store-eq-none _ b.writer_index d
                        (omega (arith, leb→gt _ _ over, length-resize max_capacity b.storage)) in
                    rw e tt)
          ]
  ]
]
