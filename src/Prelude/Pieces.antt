-- ===== src/Prelude/Pieces.antt =====
-- Lists cut and put together, under the library's names: substrings, and runs of a vector.
use Prim.Native.Nat.{ℕ, zero, suc, ◌+◌, ◌-◌}
use mathlib.Core.Path.{◌≡◌, refl, sym, ap, ◌∙◌}
use mathlib.Core.List.{List, [], ◌∷◌, ◌++◌, append_assoc}
use native.Mathlib.Omega.{arith}
use coplus.Prelude.Lists.{length}

module _ {ℓ} {A : Type ℓ} where
  abbrev pub take : ℕ → List A → List A
  take zero s = []
  take (suc n) [] = []
  take (suc n) (c ∷ s) = c ∷ take n s

  abbrev pub drop : ℕ → List A → List A
  drop zero s = s
  drop (suc n) [] = []
  drop (suc n) (c ∷ s) = drop n s

  abbrev pub concat : List (List A) → List A
  concat [] = []
  concat (s ∷ ss) = s ++ concat ss

  pub concat-append : (xs ys : List (List A)) → concat (xs ++ ys) ≡ concat xs ++ concat ys
  concat-append [] ys = refl
  concat-append (x ∷ xs) ys =
      ap (λ zs. x ++ zs) (concat-append xs ys) ∙ sym (append_assoc x (concat xs) (concat ys))

  pub take-drop : (n : ℕ) (s : List A) → take n s ++ drop n s ≡ s
  take-drop zero s = refl
  take-drop (suc n) [] = refl
  take-drop (suc n) (c ∷ s) = ap (λ t. c ∷ t) (take-drop n s)

  pub take-append : (s t : List A) → take (length s) (s ++ t) ≡ s
  take-append [] t = refl
  take-append (c ∷ s) t = ap (λ u. c ∷ u) (take-append s t)

  pub drop-append : (s t : List A) → drop (length s) (s ++ t) ≡ t
  drop-append [] t = refl
  drop-append (c ∷ s) t = drop-append s t

  drop-nil : (n : ℕ) → drop n [] ≡ []
  drop-nil zero = refl
  drop-nil (suc n) = refl

  pub drop-add : (m n : ℕ) (s : List A) → drop (m + n) s ≡ drop n (drop m s)
  drop-add zero n s = ap (λ k. drop k s) same
    where
      same : 0 + n ≡ n
      same = omega arith
  drop-add (suc m) n [] = drop-nil (suc m + n) ∙ sym (drop-nil n)
  drop-add (suc m) n (c ∷ s) = ap (λ k. drop k (c ∷ s)) same ∙ drop-add m n s
    where
      same : suc m + n ≡ suc (m + n)
      same = omega arith

  pub take-all : (s : List A) → take (length s) s ≡ s
  take-all [] = refl
  take-all (c ∷ s) = ap (λ t. c ∷ t) (take-all s)

  pub length-drop : (n : ℕ) (s : List A) → length (drop n s) ≡ length s - n
  length-drop zero s = omega arith
  length-drop (suc n) [] = omega arith
  length-drop (suc n) (c ∷ s) = omega (arith, length-drop n s)

  pub drop_past : (s : List A) (k : ℕ) → drop (length s + k) s ≡ []
  drop_past [] k = drop-nil (0 + k)
  drop_past (c ∷ s) k = ap (λ n. drop n (c ∷ s)) same ∙ drop_past s k
    where
      same : suc (length s) + k ≡ suc (length s + k)
      same = omega arith
