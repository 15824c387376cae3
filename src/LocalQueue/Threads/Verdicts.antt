-- ===== src/LocalQueue/Threads/Verdicts.antt =====
-- The verdicts on the calls of `pop`, by their number in `dequeue_count`: an account that the
-- proofs keep beside the program.
use coplus.Prelude.{
  ℕ, zero, suc, ◌+◌, ◌≤◌, ◌≡◌, tally, tally-suc, tally-zero, arith, ◌⊎◌, inl, inr, refl,
}

pub data Verdict : Type 0 where
  open' passed failed : Verdict

abbrev pub passes : Verdict → ℕ
passes passed = 1
passes _ = 0

abbrev pub fails : Verdict → ℕ
fails failed = 1
fails _ = 0

-- How many of the calls numbered `k` or less have passed, or failed, the test.
abbrev pub passed_to : (ℕ → Verdict) → ℕ → ℕ
passed_to log k = tally passes (suc k) log

abbrev pub failed_to : (ℕ → Verdict) → ℕ → ℕ
failed_to log k = tally fails (suc k) log

-- Calls are numbered from 1: each has one verdict at most.
pub verdicts_disjoint :
    (log : ℕ → Verdict) (k : ℕ) → log 0 ≡ open' → passed_to log k + failed_to log k ≤ k
verdicts_disjoint log zero h = ground (
  arith,
  tally-suc passes 0 log,
  tally-suc fails 0 log,
  tally-zero passes log,
  tally-zero fails log,
)
verdicts_disjoint log (suc k) h =
    ground
      (arith, tally-suc passes (suc k) log, tally-suc fails (suc k) log, verdicts_disjoint log k h)

-- If each call that passed had, at its number, no more calls before it than were published or had
-- failed, then no more calls have passed than items were published.
pub passed-le :
    (log : ℕ → Verdict) (published k : ℕ)
    → log 0 ≡ open'
    → ((m : ℕ) → log m ≡ passed → m ≤ published + failed_to log m)
    → passed_to log k ≤ published
passed-le log published zero h all = omega (arith, verdicts_disjoint log 0 h)
passed-le log published (suc k) h all = elim (Verdict-cases (log (suc k))) [
  | inl p ↦ omega (arith, all (suc k) p, verdicts_disjoint log (suc k) h)
  | inr z ↦ omega (arith, tally-suc passes (suc k) log, z, passed-le log published k h all)
]
  where
    Verdict-cases : (v : Verdict) → (v ≡ passed) ⊎ (passes v ≡ 0)
    Verdict-cases passed = inl refl
    Verdict-cases _ = inr refl
