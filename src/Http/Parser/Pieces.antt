-- ===== src/Http/Parser/Pieces.antt =====
-- http/http_parser.cpp: the rounds of `parse` on an input, whole or in pieces.
use lightnet.Common.{
  length, drop, length-append, length-drop, drop-append_le, ℕ, zero, suc, ◌+◌, ◌≤◌, ◌<◌, ◌≡◌, refl,
  sym, ap, ◌∙◌, subst, ◌≢◌, List, ◌++◌, arith,
}
use lightnet.Buffer.{Buffer, peek, retrieve, readable_bytes}
use lightnet.Buffer.Space.{IsValid, length-peek}
use lightnet.Buffer.Take.{retrieve_lem}
use lightnet.Http.Parser.{
  advance, after_round, parse_loop, parse, HttpParseState, start_line, headers, body, complete,
  error, HttpParser, Exception, Round, proceeds, waits, fails, throws, Outcome, returned, threw,
  out_of_fuel,
}
use lightnet.Http.Parser.Rounds.{rank, measure, Progress, advance-Progress, advance-append}

-- What an outcome shows: the buffer only by its readable bytes.
pub data View : Type 0 where
  left : HttpParser → List ℕ → View
  thrown : Exception → HttpParser → List ℕ → View
  no_fuel : View

abbrev pub view : Outcome → View
view (returned p buf) = left p (peek buf)
view (threw e p buf) = thrown e p (peek buf)
view out_of_fuel = no_fuel

abbrev continue : (HttpParser → List ℕ → View) → HttpParser → List ℕ → Round → View
continue next p xs (proceeds n q) = next q (drop n xs)
continue next p xs waits = left p xs
continue next p xs (fails q) = left q xs
continue next p xs (throws n e) = thrown e p (drop n xs)

-- The loop on the bytes alone.
unfoldable pub run : ℕ → HttpParser → List ℕ → View
run zero p xs = no_fuel
run (suc fuel) p xs = continue (run fuel) p xs (advance p xs)

after_round-continue :
    (fuel : ℕ) (p : HttpParser) (buf : Buffer) (r : Round)
    → IsValid buf
    → ((q : HttpParser) (b : Buffer) → IsValid b → view (parse_loop fuel q b) ≡ run fuel q (peek b))
    → view (after_round (parse_loop fuel) p buf r) ≡ continue (run fuel) p (peek buf) r
after_round-continue fuel p buf waits v ih = refl
after_round-continue fuel p buf (fails q) v ih = refl
after_round-continue fuel p buf (throws n e) v ih = ap (thrown e p) (retrieve_lem buf n v).1
after_round-continue fuel p buf (proceeds n q) v ih =
    let (v', e) = retrieve_lem buf n v in ih q (retrieve buf n) v' ∙ ap (run fuel q) e

view-parse_loop :
    (fuel : ℕ) (p : HttpParser) (buf : Buffer)
    → IsValid buf
    → view (parse_loop fuel p buf) ≡ run fuel p (peek buf)
unfolding parse_loop run
view-parse_loop zero p buf v = refl
view-parse_loop (suc fuel) p buf v =
    after_round-continue fuel p buf (advance p (peek buf)) v (λ q b v'. view-parse_loop fuel q b v')

-- Two runs with enough fuel agree.
continue_enough :
    (f g : ℕ) (p : HttpParser) (xs : List ℕ) (r : Round)
    → Progress p xs r
    → measure p xs < suc f
    → measure p xs < suc g
    → ((q : HttpParser) (ys : List ℕ)
        → measure q ys < f
        → measure q ys < g
        → run f q ys ≡ run g q ys)
    → continue (run f) p xs r ≡ continue (run g) p xs r
continue_enough f g p xs waits d h k ih = refl
continue_enough f g p xs (fails q) d h k ih = refl
continue_enough f g p xs (throws n e) d h k ih = refl
continue_enough f g p xs (proceeds n q) (there, nearer) h k ih =
    ih q (drop n xs) (omega (arith, length-drop n xs)) (omega (arith, length-drop n xs))

pub run_enough :
    (f g : ℕ) (p : HttpParser) (xs : List ℕ)
    → measure p xs < f
    → measure p xs < g
    → run f p xs ≡ run g p xs
unfolding run
run_enough zero g p xs h k = absurd (omega arith)
run_enough (suc f) zero p xs h k = absurd (omega arith)
run_enough (suc f) (suc g) p xs h k =
    continue_enough f g p xs (advance p xs) (advance-Progress p xs) h k
      (λ q ys h' k'. run_enough f g q ys h' k')

continue-ne-no_fuel :
    (f : ℕ) (p : HttpParser) (xs : List ℕ) (r : Round)
    → Progress p xs r
    → measure p xs < suc f
    → ((q : HttpParser) (ys : List ℕ) → measure q ys < f → run f q ys ≢ no_fuel)
    → continue (run f) p xs r ≢ no_fuel
continue-ne-no_fuel f p xs waits d h ih = λ e. cc
continue-ne-no_fuel f p xs (fails q) d h ih = λ e. cc
continue-ne-no_fuel f p xs (throws n x) d h ih = λ e. cc
continue-ne-no_fuel f p xs (proceeds n q) (there, nearer) h ih =
    ih q (drop n xs) (omega (arith, length-drop n xs))

run-ne-no_fuel : (f : ℕ) (p : HttpParser) (xs : List ℕ) → measure p xs < f → run f p xs ≢ no_fuel
unfolding run
run-ne-no_fuel zero p xs h = absurd (omega arith)
run-ne-no_fuel (suc f) p xs h =
    continue-ne-no_fuel f p xs (advance p xs) (advance-Progress p xs) h
      (λ q ys h'. run-ne-no_fuel f q ys h')

rank-le : (s : HttpParseState) → rank s ≤ 2
rank-le start_line = omega arith
rank-le headers = omega arith
rank-le body = omega arith
rank-le complete = omega arith
rank-le error = omega arith

pub parse-run :
    (p : HttpParser) (buf : Buffer)
    → IsValid buf
    → view (parse p buf) ≡ run (length (peek buf) + 3) p (peek buf)
unfolding parse
parse-run p buf v =
    view-parse_loop (readable_bytes buf + 3) p buf v
    ∙ ap (λ (k : ℕ). run (k + 3) p (peek buf)) (sym (length-peek buf v))

-- On a valid buffer `parse` ends, whatever the parser's state and the input are.
pub parse-ne-out_of_fuel : (p : HttpParser) (buf : Buffer) → IsValid buf → parse p buf ≢ out_of_fuel
parse-ne-out_of_fuel p buf v e =
    run-ne-no_fuel (length (peek buf) + 3) p (peek buf) (omega (arith, rank-le p.state))
      (sym (parse-run p buf v) ∙ ap view e)

-- The states in which `parse` waits for input.
abbrev pub IsWaiting : HttpParseState → Type 0
IsWaiting complete = ⊥
IsWaiting error = ⊥
IsWaiting _ = Unit {0}

left-parser : {p q : HttpParser} {xs ys : List ℕ} → left p xs ≡ left q ys → p ≡ q
left-parser e = cc

left-bytes : {p q : HttpParser} {xs ys : List ℕ} → left p xs ≡ left q ys → xs ≡ ys
left-bytes e = cc

pub run_step :
    (g : ℕ) (p : HttpParser) (xs : List ℕ) {r : Round}
    → advance p xs ≡ r
    → run (suc g) p xs ≡ continue (run g) p xs r
unfolding run
run_step g p xs e = ap (continue (run g) p xs) e

-- A run that waits in the middle, and goes on when `more` has come, ends as the run on all of the
-- input does.
continue_pieces :
    (f g h : ℕ) (p q : HttpParser) (xs ys more : List ℕ) (r : Round)
    → advance p xs ≡ r
    → Progress p xs r
    → IsWaiting q.state
    → measure p (xs ++ more) < g
    → measure q (ys ++ more) < h
    → continue (run f) p xs r ≡ left q ys
    → ((p' : HttpParser) (zs : List ℕ) (k : ℕ)
        → measure p' (zs ++ more) < k
        → run f p' zs ≡ left q ys
        → run k p' (zs ++ more) ≡ run h q (ys ++ more))
    → run g p (xs ++ more) ≡ run h q (ys ++ more)
continue_pieces f g h p q xs ys more waits e d w hg hh l ih =
    let enough : measure q (ys ++ more) < g = omega (
      arith,
      hg,
      ap (λ a. measure a (xs ++ more)) (left-parser l),
      ap (λ zs. measure q (zs ++ more)) (left-bytes l),
    ) in
    ap (λ a. run g a (xs ++ more)) (left-parser l)
    ∙ ap (λ zs. run g q (zs ++ more)) (left-bytes l)
    ∙ run_enough g h q (ys ++ more) enough hh
continue_pieces f g h p q xs ys more (fails p') e d w hg hh l ih =
    absurd (subst IsWaiting (sym (ap (λ a. a.state) (left-parser l)) ∙ d) w)
continue_pieces f g h p q xs ys more (throws n x) e d w hg hh l ih = cc
continue_pieces f zero h p q xs ys more (proceeds n p') e (there, nearer) w hg hh l ih =
    absurd (omega arith)
continue_pieces f (suc g) h p q xs ys more (proceeds n p') e (there, nearer) w hg hh l ih =
    run_step g p (xs ++ more) (advance-append p p' xs more n e)
    ∙ ap (run g p') (drop-append_le n xs more there)
    ∙ ih p' (drop n xs) g
        (omega (arith, length-append xs more, length-append (drop n xs) more, length-drop n xs)) l

run_pieces :
    (f g h : ℕ) (p q : HttpParser) (xs ys more : List ℕ)
    → IsWaiting q.state
    → measure p (xs ++ more) < g
    → measure q (ys ++ more) < h
    → run f p xs ≡ left q ys
    → run g p (xs ++ more) ≡ run h q (ys ++ more)
unfolding run
run_pieces zero g h p q xs ys more w hg hh l = cc
run_pieces (suc f) g h p q xs ys more w hg hh l =
    continue_pieces f g h p q xs ys more (advance p xs) refl (advance-Progress p xs) w hg hh l
      (λ p' zs k hk l'. run_pieces f k h p' q zs ys more w hk hh l')

-- If `parse` has stopped to wait, and more input is then added behind what it left, the next call
-- comes to what one call on the whole input does: the same parser, exception and unread bytes. The
-- buffers are valid.
pub parse_pieces :
    (p q : HttpParser) (buf rest next whole : Buffer) (more : List ℕ)
    → IsValid buf
    → IsValid next
    → IsValid whole
    → parse p buf ≡ returned q rest
    → IsWaiting q.state
    → peek next ≡ peek rest ++ more
    → peek whole ≡ peek buf ++ more
    → view (parse q next) ≡ view (parse p whole)
parse_pieces p q buf rest next whole more v v' v'' e w joined all =
    parse-run q next v'
    ∙ ap (λ zs. run (length zs + 3) q zs) joined
    ∙ sym (
        run_pieces (length (peek buf) + 3) (length (peek buf ++ more) + 3)
          (length (peek rest ++ more) + 3) p q (peek buf) (peek rest) more w
          (omega (arith, rank-le p.state)) (omega (arith, rank-le q.state))
          (sym (parse-run p buf v) ∙ ap view e))
    ∙ sym (parse-run p whole v'' ∙ ap (λ zs. run (length zs + 3) p zs) all)
