-- ===== src/Text/Join.antt =====
-- What `split` makes of pieces that stand between single separators.
use coplus.Prelude.{
  ℕ, suc, ◌+◌, ◌-◌, ◌<◌, ◌≡◌, refl, sym, ap, ap₂, ◌∙◌, List, [], ◌∷◌, ◌++◌, true, false, not, none,
  some, ltb, ◌==◌, length, append-nil, arith, take, drop, take-append, take-all, drop-append,
  drop-add, length-drop, Absent, Option, subst,
}
use mathlib.Core.Option
use coplus.Text.{Text, substr, contains, find_if, or_end, split_loop}

find_separator :
    (t : ℕ) (w rest : Text)
    → Absent t w
    → find_if (contains (t ∷ [])) (w ++ t ∷ rest) ≡ some (length w)
find_separator t [] rest a = ground (arith, find_if)
find_separator t (c ∷ w) rest (ne, a) = rw (find_if, other, find_separator t w rest a) refl
  where
    other : (t == c) ≡ false
    other = ground arith

find_no_separator : (t : ℕ) (w : Text) → Absent t w → find_if (contains (t ∷ [])) w ≡ none
find_no_separator t [] a = refl
find_no_separator t (c ∷ w) (ne, a) = rw (find_if, other, find_no_separator t w a) refl
  where
    other : (t == c) ≡ false
    other = ground arith

find_word :
    (t : ℕ) (w rest : Text)
    → 0 < length w
    → Absent t w
    → find_if (λ c. not (contains (t ∷ []) c)) (w ++ rest) ≡ some 0
find_word t [] rest h a = absurd (omega arith)
find_word t (c ∷ w) rest h (ne, a) = rw (find_if, other) refl
  where
    other : (t == c) ≡ false
    other = ground arith

-- The loop after a piece from `c`, when the search for its end has found this.
abbrev after : ℕ → Text → Text → List Text → ℕ → Option ℕ → Option (List Text)
after fuel s token ret c found =
    let to = or_end s (Option.map (λ i. c + i) found) in
    split_loop fuel s token (to + 1) (ret ++ substr s c (to - c) ∷ [])

-- One round of the loop.
one_round :
    (fuel : ℕ) (s token : Text) (cur : ℕ) (ret : List Text) (found : Option ℕ)
    → find_if (λ c. not (contains token c)) (drop cur s) ≡ some 0
    → find_if (contains token) (drop cur s) ≡ found
    → ltb cur (or_end s (Option.map (λ i. cur + i) found)) ≡ true
    → split_loop (suc fuel) s token cur ret ≡ after fuel s token ret cur found
unfolding split_loop
one_round fuel s token cur ret found f =
    subst
      (λ c.
        find_if (contains token) (drop c s) ≡ found
        → ltb c (or_end s (Option.map (λ i. c + i) found)) ≡ true
        → split_loop (suc fuel) s token cur ret ≡ after fuel s token ret c found)
      back
      (λ g.
        subst
          (λ o.
            ltb (cur + 0) (or_end s (Option.map (λ i. cur + 0 + i) o)) ≡ true
            → split_loop (suc fuel) s token cur ret ≡ after fuel s token ret (cur + 0) o)
          g (λ b. rw (split_loop, f, b) refl))
  where
    back : cur + 0 ≡ cur
    back = omega arith

-- One round, at a piece before a separator.
pub next_word :
    (fuel : ℕ) (s : Text) (t cur : ℕ) (w rest : Text) (ret : List Text)
    → drop cur s ≡ w ++ t ∷ rest
    → 0 < length w
    → Absent t w
    → split_loop (suc fuel) s (t ∷ []) cur ret
      ≡ split_loop fuel s (t ∷ []) (cur + length w + 1) (ret ++ w ∷ [])
next_word fuel s t cur w rest ret e h a =
    one_round fuel s (t ∷ []) cur ret (some (length w)) (rw e (find_word t w (t ∷ rest) h a))
      (rw e (find_separator t w rest a)) (ground (arith, h))
    ∙ ap (λ p. split_loop fuel s (t ∷ []) (cur + length w + 1) (ret ++ p ∷ [])) piece
  where
    piece : substr s cur (cur + length w - cur) ≡ w
    piece = ap₂ take (omega arith) e ∙ take-append w (t ∷ rest)

-- One round, at the last piece.
pub last_word :
    (fuel : ℕ) (s : Text) (t cur : ℕ) (w : Text) (ret : List Text)
    → drop cur s ≡ w
    → 0 < length w
    → Absent t w
    → split_loop (suc fuel) s (t ∷ []) cur ret
      ≡ split_loop fuel s (t ∷ []) (length s + 1) (ret ++ w ∷ [])
last_word fuel s t cur w ret e h a =
    one_round fuel s (t ∷ []) cur ret none (rw (e, ← append-nil w) (find_word t w [] h a))
      (rw e (find_no_separator t w a)) (ground (arith, h, measure))
    ∙ ap (λ p. split_loop fuel s (t ∷ []) (length s + 1) (ret ++ p ∷ [])) piece
  where
    measure : length w ≡ length s - cur
    measure = ap length (sym e) ∙ length-drop cur s

    piece : substr s cur (length s - cur) ≡ w
    piece = ap₂ take (sym measure) e ∙ take-all w

-- The loop ends at the end of the string.
pub no_word :
    (fuel : ℕ) (s token : Text) (cur : ℕ) (ret : List Text)
    → drop cur s ≡ []
    → split_loop (suc fuel) s token cur ret ≡ some ret
unfolding split_loop
no_word fuel s token cur ret e = rw (split_loop, e) refl

-- After a piece and its separator stands the rest.
pub past_word :
    (s : Text) (t cur : ℕ) (w rest : Text)
    → drop cur s ≡ w ++ t ∷ rest
    → drop (cur + length w + 1) s ≡ rest
past_word s t cur w rest e =
    ap (λ n. drop n s) (shift cur (length w))
    ∙ drop-add cur (length w + 1) s
    ∙ ap (drop (length w + 1)) e
    ∙ drop-add (length w) 1 (w ++ t ∷ rest)
    ∙ ap (drop 1) (drop-append w (t ∷ rest))
  where
    shift : (a b : ℕ) → a + b + 1 ≡ a + (b + 1)
    shift a b = omega arith
