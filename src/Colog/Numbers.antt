-- ===== src/Colog/Numbers.antt =====
-- The numbers of the threads that log.
use coplus.Prelude.{
  ℕ, ◌+◌, ◌≤◌, ◌<◌, ◌^◌, ◌≡◌, refl, List, [], ◌∷◌, some, Option-cases, inl, inr, length, arith,
}
use coplus.Text.{Text}
use coplus.Colog.{
  Log, start, thread_id, put_thread, put_value, put_batch, painted, write, highlight, warning,
  error, red, green, blue, cyan, purple, yellow,
}
use coplus.Colog.Console.{console_color}
use coplus.Colog.Calls.{
  Call, one_value, batch, in_highlight, in_warning, in_error, in_red, in_green, in_blue, in_cyan,
  in_purple, in_yellow, perform, run, plain, screen, left_on, lines,
}
use coplus.Colog.Lines.{run-lines}

-- The numbers given out are below the next one, and no two threads have the same.
record IsNumbered (s : Log) : Type 0 where
  below : (t n : ℕ) → s.ids t ≡ some n → n < s.next
  apart : (t u n : ℕ) → s.ids t ≡ some n → s.ids u ≡ some n → t ≡ u

-- A call uses at most one number.
record Counts (s s' : Log) : Type 0 where
  numbered : IsNumbered s'
  at_most : s'.next ≤ s.next + 1

thread_id-Counts :
    (t : ℕ) (s : Log) → IsNumbered s → s.next + 1 < 2 ^ 32 → Counts s (thread_id t s).1
unfolding thread_id
thread_id-Counts t s v lt = elim (Option-cases (s.ids t)) [
  | inl e ↦
      rw (thread_id, e)
        (record {
          numbered = record {
            below = λ u n f. ground (arith, f, v.below u n, lt);
            apart = λ u w n f g. ground (arith, f, g, v.below u n, v.below w n, v.apart u w n);
          };
          at_most = ground (arith, lt);
        })
  | inr (n, e) ↦ rw (thread_id, e) (record { numbered = v; at_most = omega arith })
]

put_thread-Counts :
    (t : ℕ) (s : Log) → IsNumbered s → s.next + 1 < 2 ^ 32 → Counts s (put_thread t s)
unfolding put_thread
put_thread-Counts t s v lt =
    let c = thread_id-Counts t s v lt in
    record {
      numbered = record { below = c.numbered.below; apart = c.numbered.apart };
      at_most = c.at_most;
    }

batch-Counts :
    (t : ℕ) (xs : List Text) (s : Log)
    → IsNumbered s
    → s.next + 1 < 2 ^ 32
    → Counts s (put_batch t xs s)
unfolding put_batch
batch-Counts t xs s v lt =
    let c = put_thread-Counts t s v lt in
    record {
      numbered = record { below = c.numbered.below; apart = c.numbered.apart };
      at_most = c.at_most;
    }

painted-Counts :
    (code t : ℕ) (xs : List Text) (s : Log)
    → IsNumbered s
    → s.next + 1 < 2 ^ 32
    → Counts s (painted code t xs s)
unfolding painted
painted-Counts code t xs s v lt =
    let c =
      batch-Counts t xs (write (console_color code) s) (record { below = v.below; apart = v.apart })
        lt in
    record {
      numbered = record { below = c.numbered.below; apart = c.numbered.apart };
      at_most = c.at_most;
    }

perform-Counts :
    (t : ℕ) (call : Call) (s : Log)
    → IsNumbered s
    → s.next + 1 < 2 ^ 32
    → Counts s (perform t call s)
unfolding perform put_value highlight warning error red green blue cyan purple yellow
perform-Counts t (one_value x) s v lt =
    let c = put_thread-Counts t s v lt in
    record {
      numbered = record { below = c.numbered.below; apart = c.numbered.apart };
      at_most = c.at_most;
    }
perform-Counts t (batch xs) s v lt = batch-Counts t xs s v lt
perform-Counts t (in_highlight xs) s v lt = painted-Counts 1 t xs s v lt
perform-Counts t (in_warning xs) s v lt = painted-Counts 2 t xs s v lt
perform-Counts t (in_error xs) s v lt = painted-Counts 3 t xs s v lt
perform-Counts t (in_red xs) s v lt = painted-Counts 4 t xs s v lt
perform-Counts t (in_green xs) s v lt = painted-Counts 5 t xs s v lt
perform-Counts t (in_blue xs) s v lt = painted-Counts 6 t xs s v lt
perform-Counts t (in_cyan xs) s v lt = painted-Counts 7 t xs s v lt
perform-Counts t (in_purple xs) s v lt = painted-Counts 8 t xs s v lt
perform-Counts t (in_yellow xs) s v lt = painted-Counts 9 t xs s v lt

run-IsNumbered :
    (cs : List (ℕ × Call)) (s : Log)
    → IsNumbered s
    → s.next + length cs < 2 ^ 32
    → IsNumbered (run cs s)
unfolding run
run-IsNumbered [] s v lt = v
run-IsNumbered ((t, call) ∷ cs) s v lt =
    let c = perform-Counts t call s v (ground (arith, lt)) in
    run-IsNumbered cs (perform t call s) c.numbered (ground (arith, lt, c.at_most))

-- After fewer than 2^32 calls from the start, in whatever order the threads get the lock, the console
-- shows a line for each call, in the order of the calls and in the colour of the method, with the
-- number of the thread before the values; the plain colour is left on, and no two threads have
-- the same number.
pub run-numbered_lines :
    (cs : List (ℕ × Call))
    → length cs < 2 ^ 32
    → (screen plain (run cs start).out ≡ lines (run cs start).ids cs)
      × (left_on plain (run cs start).out ≡ plain)
      × ((t u n : ℕ) → (run cs start).ids t ≡ some n → (run cs start).ids u ≡ some n → t ≡ u)
run-numbered_lines cs lt =
    let (shown, left, kept) = run-lines cs start refl in
    let v =
      run-IsNumbered cs start
        (record {
          below = λ t n e. absurd (ground (arith, e));
          apart = λ t u n e f. absurd (ground (arith, e));
        })
        (omega (arith, lt)) in
    (shown, left, v.apart)
