-- ===== src/LocalQueue/Threads/Linear/Fifo.antt =====
-- The account in every reachable state with one consumer.
use coplus.Prelude.{
  ℕ, zero, suc, ◌+◌, ◌-◌, ◌%◌, ◌≤◌, ◌<◌, ◌^◌, ◌≡◌, refl, ◌++◌, length, length-replicate, tally,
  tally-suc, tally-zero, arith,
}
use coplus.LocalQueue.{init}
use coplus.LocalQueue.Refine.{window}
use coplus.LocalQueue.Threads.{Pc, System, produce, consume, Reach, here, later}
use coplus.LocalQueue.Threads.Safety.{Reach-Inv, claimed-is_published}
use coplus.LocalQueue.Threads.Capacity.{holds, Reach-Account, Reach-capacity}
use coplus.LocalQueue.Threads.Linear.{Linear, written_in, read_in, unread}
use coplus.LocalQueue.Threads.Linear.Moves.{Push-Linear, Pop-Linear}

module _ {A : Type 0} where
  tail_small :
      {d : A} {q n k : ℕ} {s : System A}
      → Reach d q n k s
      → k < 2 ^ 31 - 1
      → s.mem.tail < 2 ^ 31 - 1
  tail_small r small = let inv = (Reach-Inv (omega arith) r).1 in omega (arith, inv.tail_in)

  head_small :
      {d : A} {q n k : ℕ} {s : System A}
      → Reach d q n k s
      → k < 2 ^ 31 - 1
      → s.mem.head_fast < 2 ^ 31 - 1
  head_small r small = let inv = (Reach-Inv (omega arith) r).1 in omega (arith, inv.head_fast_in)

  one_consumer : (c : ℕ → Pc A) → tally holds 1 c ≡ holds (c 0)
  one_consumer c = omega (arith, tally-suc holds 0 c, tally-zero holds c)

  unread-le : (c : Pc A) → unread c ≤ holds c
  unread-le (Pc.claimed a) = omega arith
  unread-le _ = ground arith

  Reach-Linear :
      {d : A} {q k : ℕ} {s : System A}
      → 2 ^ 32 % q ≡ 0
      → 0 < q
      → q ≤ 2 ^ 31
      → k < 2 ^ 31
      → (r : Reach d q 1 k s)
      → Linear d q s.mem s.producer (s.consumer 0) (written_in r) (read_in r)
  unfolding written_in read_in init
  Reach-Linear {d} {q} even room qs small here = record {
    rest = 0;
    capacity = length-replicate q d;
    wrote = refl;
    took = refl;
    next = λ a e. cc;
    ahead = refl;
    items = refl;
  }
  Reach-Linear even room qs small (later {s = s} r (produce mv)) =
      let l = Reach-Linear even room qs (omega arith) r in
      let a = Reach-Account (omega arith) qs r in
      Push-Linear even room (written_in r) (read_in r) mv l (tail_small r (omega arith)) (λ x i e.
        let free = (Reach-capacity (omega arith) qs r).3 x i e in
        (
          free.0,
          omega (
            arith,
            free,
            l.took,
            a.completions,
            one_consumer s.consumer,
            unread-le (s.consumer 0),
          ),
        ))
  Reach-Linear even room qs small (later {s = s} r (consume zero lt mv)) =
      let l = Reach-Linear even room qs (omega arith) r in
      Pop-Linear even room (written_in r) (read_in r) mv l (tail_small r (omega arith))
        (head_small r (omega arith)) (λ i e. (claimed-is_published (omega arith) r 0 i e).0)
  Reach-Linear even room qs small (later r (consume (suc i) lt mv)) = absurd (omega arith)

  -- With one consumer, whatever the interleaving: what has been read, in order, then what is still
  -- in the slots, oldest first, is all that has been written, in order.
  pub one_consumer_fifo :
      {d : A} {q k : ℕ} {s : System A}
      → 2 ^ 32 % q ≡ 0
      → 0 < q
      → q ≤ 2 ^ 31
      → k < 2 ^ 31
      → (r : Reach d q 1 k s)
      → (rest : ℕ) × (length (read_in r) + rest ≡ length (written_in r))
        × (written_in r ≡ read_in r ++ window d q s.mem.cells (length (read_in r)) rest)
  one_consumer_fifo even room qs small r =
      let l = Reach-Linear even room qs small r in (l.rest, l.ahead, l.items)
