-- ===== src/Text/Affixes.antt =====
-- `starts_with` and `ends_with` find the prefixes and the suffixes.
use coplus.Prelude.{
  ◌-◌, ◌≡◌, refl, sym, ap, ap₂, ◌∙◌, ◌↔◌, [], ◌∷◌, ◌++◌, true, false, ltb, length, length-append,
  arith, take, drop, take-drop, take-append, drop-append,
}
use coplus.Text.{Text, text_eq, starts_with, ends_with}

eq_refl : (s : Text) → text_eq s s ≡ true
eq_refl [] = refl
eq_refl (c ∷ s) = ground (arith, eq_refl s)

eq-same : (s t : Text) → text_eq s t ≡ true → s ≡ t
eq-same [] [] e = refl
eq-same [] (d ∷ t) e = absurd (ground arith)
eq-same (c ∷ s) [] e = absurd (ground arith)
eq-same (c ∷ s) (d ∷ t) e = ap₂ ◌∷◌ (ground arith) (eq-same s t (ground arith))

not_shorter : (s t : Text) → ltb (length (s ++ t)) (length s) ≡ false
not_shorter s t = ground (arith, length-append s t)

not_shorter_end : (s t : Text) → ltb (length (s ++ t)) (length t) ≡ false
not_shorter_end s t = ground (arith, length-append s t)

-- `starts_with` says yes exactly to the prefixes.
pub starts_with-prefix : (a b : Text) → (starts_with a b ≡ true) ↔ ((rest : Text) × (a ≡ b ++ rest))
unfolding starts_with
starts_with-prefix a b = (go, back)
  where
    go : starts_with a b ≡ true → (rest : Text) × (a ≡ b ++ rest)
    go e = (
      drop (length b) a,
      sym (take-drop (length b) a)
          ∙ ap (λ s. s ++ drop (length b) a) (eq-same _ b (ground (arith, e))),
    )

    back : (rest : Text) × (a ≡ b ++ rest) → starts_with a b ≡ true
    back (rest, e) = rw (e) (rw (starts_with, not_shorter b rest, take-append b rest) (eq_refl b))

-- `ends_with` says yes exactly to the suffixes.
pub ends_with-suffix : (a b : Text) → (ends_with a b ≡ true) ↔ ((rest : Text) × (a ≡ rest ++ b))
unfolding ends_with
ends_with-suffix a b = (go, back)
  where
    go : ends_with a b ≡ true → (rest : Text) × (a ≡ rest ++ b)
    go e = (
      take (length a - length b) a,
      sym (take-drop (length a - length b) a)
          ∙ ap (λ s. take (length a - length b) a ++ s) (sym (eq-same b _ (ground (arith, e)))),
    )

    back : (rest : Text) × (a ≡ rest ++ b) → ends_with a b ≡ true
    back (rest, e) =
        rw (e) (rw (ends_with, not_shorter_end rest b, left, drop-append rest b) (eq_refl b))
      where
        left : length (rest ++ b) - length b ≡ length rest
        left = omega (arith, length-append rest b)
