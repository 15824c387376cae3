-- ===== src/Prelude/Tally.antt =====
-- Functions on ℕ as arrays that never run out: one entry changed, and the weights of the first
-- entries added up. Threads and numbered calls are kept this way.
use Prim.Native.Nat.{ℕ, zero, suc, ◌+◌, ◌≤◌, ◌<◌}
use mathlib.Core.Path.{◌≡◌}
use native.Mathlib.Decide.{dec_lt}
use native.Mathlib.Omega.{arith}
use coplus.Prelude.Tests.{◌==◌, if◌then◌else◌}

-- Entry `i` becomes `a`.
abbrev pub assign {ℓ} : {A : Type ℓ} → (ℕ → A) → ℕ → A → ℕ → A
assign f i a j = if j == i then a else f j

module _ {A : Type 0} (w : A → ℕ) where
  -- The weight of the entries below `n`.
  pub tally : ℕ → (ℕ → A) → ℕ
  tally zero f = 0
  tally (suc n) f = w (f n) + tally n f

  pub tally-suc : (n : ℕ) (f : ℕ → A) → tally (suc n) f ≡ w (f n) + tally n f
  unfolding tally
  tally-suc n f = omega arith

  pub tally-zero : (f : ℕ → A) → tally 0 f ≡ 0
  unfolding tally
  tally-zero f = omega arith

  pub tally-assign_above :
      (n : ℕ) (f : ℕ → A) (i : ℕ) (a : A) → n ≤ i → tally n (assign f i a) ≡ tally n f
  unfolding tally
  tally-assign_above zero f i a h = omega arith
  tally-assign_above (suc n) f i a h = ground (arith, tally-assign_above n f i a)

  pub tally-assign :
      (n : ℕ) (f : ℕ → A) (i : ℕ) (a : A)
      → i < n
      → tally n (assign f i a) + w (f i) ≡ tally n f + w a
  unfolding tally
  tally-assign zero f i a h = absurd (omega arith)
  tally-assign (suc n) f i a h = elim (dec_lt i n) [
    | yes lt ↦ ground (arith, tally-assign n f i a lt)
    | no ge ↦ ground (arith, tally-assign_above n f i a)
  ]

  -- A weightier entry makes no tally smaller.
  pub tally-assign_le :
      (n : ℕ) (f : ℕ → A) (i : ℕ) (a : A) → w (f i) ≤ w a → tally n f ≤ tally n (assign f i a)
  tally-assign_le n f i a h = elim (dec_lt i n) [
    | yes lt ↦ omega (arith, tally-assign n f i a lt)
    | no ge ↦ omega (arith, tally-assign_above n f i a)
  ]

  pub tally_constant : (n : ℕ) (a : A) → w a ≡ 0 → tally n (λ _. a) ≡ 0
  unfolding tally
  tally_constant zero a h = omega arith
  tally_constant (suc n) a h = omega (arith, tally_constant n a h)

  pub tally_mono : (n m : ℕ) (f : ℕ → A) → n ≤ m → tally n f ≤ tally m f
  unfolding tally
  tally_mono n zero f h = ground arith
  tally_mono n (suc m) f h = elim (dec_lt m n) [
    | yes eq ↦ let e : n ≡ suc m = omega arith in rw e (omega arith)
    | no le ↦ omega (arith, tally_mono n m f)
  ]
