-- ===== src/FastStack/Threads/Tests.antt =====
-- Two threads push into one chunk at once: both find it missing, both make one, and the loser
-- deletes its own.
use coplus.Prelude.{ℕ, ◌/◌, ◌<◌, ◌≡◌, ◌≢◌, refl, true, false, some, arith}
use coplus.FastStack.Threads.{
  holding, allocated, reading, getting, Shared, init, become, start_push, advance, exchange, load,
  load_to_get, Step, Reach,
}
use coplus.FastStack.Threads.Invariant.{token, own_chunk}
use coplus.FastStack.Threads.Found.{Reads, pushed-is_found, pushes-are_apart}

-- Chunks of two cells, three tokens.
abbrev go : ℕ → Shared ℕ → Shared ℕ
go i s = advance 2 3 0 i (s.threads i) s

abbrev begun : Shared ℕ
begun = start_push 2 3 0 1 8 (start_push 2 3 0 0 7 (init 2 3 0))

abbrev both_made : Shared ℕ
both_made = go 1 (go 0 (go 1 (go 0 begun)))

-- Thread 1 publishes its chunk first, and thread 0 writes last; thread 2 gets the token 1.
abbrev published : Shared ℕ
published = go 0 (go 1 both_made)

abbrev one_returned : Shared ℕ
one_returned = go 2 (become 2 (getting 1) (go 1 published))

both_made-Reach : Reach 2 3 0 6 both_made
unfolding start_push
both_made-Reach =
    Reach.later
      (Reach.later
        (Reach.later
          (Reach.later
            (Reach.later (Reach.later Reach.starts (Step.pushes 0 7 refl)) (Step.pushes 1 8 refl))
            (Step.advances 0))
          (Step.advances 1))
        (Step.advances 0))
      (Step.advances 1)

one_returned-Reach : Reach 2 3 0 11 one_returned
unfolding start_push advance load load_to_get exchange
one_returned-Reach =
    Reach.later
      (Reach.later
        (Reach.later (Reach.later (Reach.later both_made-Reach (Step.advances 1)) (Step.advances 0))
          (Step.advances 1))
        (Step.gets 2 1 refl (omega arith)))
      (Step.advances 2)

-- The chunk 0, which thread 0 made, is deleted; thread 0 holds the chunk 1, and thread 2 reads it.
race :
    (one_returned.stacks 0 ≡ some 1)
    × (one_returned.is_deleted 0 ≡ true)
    × (one_returned.threads 0 ≡ holding 7 0 1)
    × (one_returned.threads 2 ≡ reading 1 1)
    × (one_returned.log 1 ≡ some 8)
unfolding start_push advance load load_to_get exchange
race = (refl, refl, refl, refl, refl)

pushed-is_found_example :
    (1 < 3)
    × ((p : ℕ) × (one_returned.stacks (1 / 2) ≡ some p) × Reads 2 3 0 one_returned 1 8 p)
    × ((i q : ℕ) → one_returned.threads i ≡ reading 1 q → Reads 2 3 0 one_returned 1 8 q)
    × ((i : ℕ) → token (one_returned.threads i) ≢ some 1)
unfolding start_push advance load load_to_get exchange
pushed-is_found_example =
    pushed-is_found 2 3 0 1 8 (omega arith) (omega arith) one_returned-Reach refl

pushes-are_apart_example :
    ((i j t : ℕ)
      → token (both_made.threads i) ≡ some t
      → token (both_made.threads j) ≡ some t
      → i ≡ j)
    × ((i t p x : ℕ) → both_made.threads i ≡ holding x t p → both_made.is_deleted p ≡ false)
    × ((i t p x : ℕ)
        → both_made.threads i ≡ allocated x t p
        → (both_made.is_deleted p ≡ false) × ((m : ℕ) → both_made.stacks m ≢ some p))
    × ((i j p : ℕ)
        → own_chunk (both_made.threads i) ≡ some p
        → own_chunk (both_made.threads j) ≡ some p
        → i ≡ j)
pushes-are_apart_example = pushes-are_apart 2 3 0 (omega arith) (omega arith) both_made-Reach
