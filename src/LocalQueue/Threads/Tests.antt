-- ===== src/LocalQueue/Threads/Tests.antt =====
-- Interleavings of `push` and `pop`, and the theorems at those states.
use coplus.Prelude.{ℕ, ◌+◌, ◌≤◌, ◌<◌, ◌≡◌, refl, [], ◌∷◌, ◌++◌, length, replicate, tally, arith}
use coplus.LocalQueue.{init}
use coplus.LocalQueue.Refine.{window}
use coplus.LocalQueue.Threads.{Pc, Producer}
use coplus.LocalQueue.Threads.Consumers.{admits}
use coplus.LocalQueue.Threads.Safety.{claims_are_safe}
use coplus.LocalQueue.Threads.Capacity.{Reach-capacity}
use coplus.LocalQueue.Threads.Linear.{written_in, read_in}
use coplus.LocalQueue.Threads.Linear.Fifo.{one_consumer_fifo}
use coplus.LocalQueue.Threads.Schedule.{Run, producer, consumer, run, pushing, popping}

-- Three consumers on one item: consumer 1 reads its revoke count early, 0 gets the item.
abbrev contended : Run {A = ℕ} 0 2 3
contended = run 0 2 3 (
    consumer 1 ∷ []
    ++ pushing 5
    ++ (consumer 0 ∷ consumer 2 ∷ consumer 0 ∷ consumer 2 ∷ consumer 1 ∷ consumer 0 ∷ [])
    ++ (consumer 1 ∷ consumer 2 ∷ consumer 0 ∷ []))

contended_pcs :
    (contended.last.consumer 0 ≡ Pc.claimed 0)
    × (contended.last.consumer 1 ≡ Pc.refused)
    × (contended.last.consumer 2 ≡ Pc.refused)
unfolding run init
contended_pcs = (refl, refl, refl)

claims_are_safe_example :
    (contended.last.mem.head_fast + tally admits 3 contended.last.consumer
      ≤ contended.last.mem.tail)
    × ((i a : ℕ)
        → contended.last.consumer i ≡ Pc.claimed a
        → (a < contended.last.mem.tail)
          × ((j : ℕ) → contended.last.consumer j ≡ Pc.claimed a → i ≡ j))
unfolding run
claims_are_safe_example = claims_are_safe (omega arith) contended.reach

-- The producer fills two slots, and stands at a third after one call of `pop` is complete.
abbrev ahead : Run {A = ℕ} 0 2 1
ahead = run 0 2 1 (pushing 1 ++ pushing 2 ++ popping 0 ++ replicate 4 (producer 3))

Reach-capacity_example :
    let m = ahead.last.mem in
    (m.head ≤ m.head_fast)
    × (m.head_fast ≤ m.tail)
    × (m.tail ≤ m.head + 2)
    × ((x : ℕ) (slot : ℕ)
        → ahead.last.producer ≡ Producer.claimed x slot
        → (slot ≡ m.tail) × (slot < m.head + 2))
unfolding run
Reach-capacity_example = Reach-capacity (omega arith) (omega arith) ahead.reach

one_consumer_fifo_example :
    (rest : ℕ) × (length (read_in ahead.reach) + rest ≡ length (written_in ahead.reach))
    × (written_in ahead.reach
        ≡ read_in ahead.reach
          ++ window 0 2 ahead.last.mem.cells (length (read_in ahead.reach)) rest)
unfolding run
one_consumer_fifo_example =
    one_consumer_fifo (omega arith) (omega arith) (omega arith) (omega arith) ahead.reach

-- With two consumers an item can be lost: 0 has claimed the first slot and is delayed, 1 completes,
-- and `head` then lets the producer into the slot that 0 has not read. 1 is never read, 3 is twice.
abbrev overtaken : Run {A = ℕ} 0 2 2
overtaken = run 0 2 2 (
    pushing 1
    ++ pushing 2
    ++ replicate 4 (consumer 0)
    ++ popping 1
    ++ pushing 3
    ++ replicate 2 (consumer 0)
    ++ popping 0)

overtaken_history :
    (written_in overtaken.reach ≡ 1 ∷ 2 ∷ 3 ∷ []) × (read_in overtaken.reach ≡ 2 ∷ 3 ∷ 3 ∷ [])
unfolding run init written_in read_in
overtaken_history = (refl, refl)
