-- ===== src/Colog/Tests.antt =====
-- A log of two threads.
use coplus.Prelude.{ℕ, ◌≡◌, refl, List, [], ◌∷◌, some, arith}
use coplus.Colog.{start, thread_id, put_thread, put_value, put_batch, painted, warning}
use coplus.Colog.Calls.{
  Call, one_value, batch, in_warning, perform, run, plain, screen, left_on, lines,
}
use coplus.Colog.Numbers.{run-numbered_lines}

abbrev calls : List (ℕ × Call)
calls = (7, one_value (97 ∷ [])) ∷ (5, in_warning ((98 ∷ []) ∷ (99 ∷ []) ∷ [])) ∷ (7, batch []) ∷ []

-- The thread 7 is the first to log.
numbers : ((run calls start).ids 7 ≡ some 0) × ((run calls start).ids 5 ≡ some 1)
unfolding run perform put_value put_batch warning painted put_thread thread_id
numbers = (refl, refl)

run-numbered_lines_example :
    (screen plain (run calls start).out ≡ lines (run calls start).ids calls)
    × (left_on plain (run calls start).out ≡ plain)
    × ((t u n : ℕ) → (run calls start).ids t ≡ some n → (run calls start).ids u ≡ some n → t ≡ u)
run-numbered_lines_example = run-numbered_lines calls (omega arith)
