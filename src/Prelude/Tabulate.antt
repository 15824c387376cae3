-- ===== src/Prelude/Tabulate.antt =====
-- The list of a function's first values: how the queues' contents are read off their arrays.
use Prim.Native.Nat.{ℕ, zero, suc, ◌<◌}
use mathlib.Core.Path.{◌≡◌, refl, ap, ap₂}
use mathlib.Core.List.{List, [], ◌∷◌, ◌++◌}
use native.Mathlib.Omega.{arith}
use coplus.Prelude.Lists.{length, get_or}

module _ {ℓ} {A : Type ℓ} where
  abbrev pub tabulate : ℕ → (ℕ → A) → List A
  tabulate zero f = []
  tabulate (suc n) f = f 0 ∷ tabulate n (λ k. f (suc k))

  pub length-tabulate : (n : ℕ) (f : ℕ → A) → length (tabulate n f) ≡ n
  length-tabulate zero f = refl
  length-tabulate (suc n) f = ap suc (length-tabulate n (λ k. f (suc k)))

  pub tabulate-ext :
      (n : ℕ) (f g : ℕ → A) → ((k : ℕ) → k < n → f k ≡ g k) → tabulate n f ≡ tabulate n g
  tabulate-ext zero f g h = refl
  tabulate-ext (suc n) f g h =
      ap₂ ◌∷◌ (h 0 (omega arith))
        (tabulate-ext n (λ k. f (suc k)) (λ k. g (suc k)) (λ k p. h (suc k) (omega arith)))

  -- The last value goes to the end.
  pub tabulate-suc : (n : ℕ) (f : ℕ → A) → tabulate (suc n) f ≡ tabulate n f ++ f n ∷ []
  tabulate-suc zero f = refl
  tabulate-suc (suc n) f = ap (◌∷◌ (f 0)) (tabulate-suc n (λ k. f (suc k)))

  pub get_or-tabulate :
      (n : ℕ) (f : ℕ → A) (k : ℕ) (e : A) → k < n → get_or (tabulate n f) k e ≡ f k
  get_or-tabulate zero f k e h = absurd (omega arith)
  get_or-tabulate (suc n) f zero e h = refl
  get_or-tabulate (suc n) f (suc k) e h = get_or-tabulate n (λ j. f (suc j)) k e (omega arith)
