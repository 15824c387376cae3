-- ===== src/LocalQueue/Threads/Safety.antt =====
-- What holds of a `FastLocalQueue` in every reachable state, for any number of consumers.
use coplus.Prelude.{ℕ, ◌+◌, ◌≤◌, ◌<◌, ◌^◌, ◌≡◌, refl, tally, tally_constant, arith}
use coplus.LocalQueue.{init}
use coplus.LocalQueue.Threads.{Pc, System, produce, consume, start, Reach, here, later}
use coplus.LocalQueue.Threads.Verdicts.{Verdict, open', passes, fails, passed-le}
use coplus.LocalQueue.Threads.Consumers.{admits, refuses, Inv, note, Push-Inv}
use coplus.LocalQueue.Threads.Consumers.Moves.{Pop-Inv}

module _ {A : Type 0} where
  start-Inv : (d : A) (q n : ℕ) → Inv n 0 (start d q).mem (start d q).consumer (λ _. open')
  unfolding init
  start-Inv d q n = record {
    dequeue_count_in = omega arith;
    dequeue_revoke_in = omega arith;
    tail_in = omega arith;
    head_fast_in = omega arith;
    first = refl;
    future = λ c h. refl;
    claims =
        omega (arith, tally_constant admits n Pc.idle refl, tally_constant passes 1 open' refl);
    revokes =
        omega (arith, tally_constant refuses n Pc.idle refl, tally_constant fails 1 open' refl);
    in_time = λ c h. cc;
    fresh = λ i. tt;
    unique_call = λ i j r r' c e f. cc;
    unique_slot = λ i j a e f. cc;
  }

  pub Reach-Inv :
      {d : A} {q n k : ℕ} {s : System A}
      → k < 2 ^ 31
      → Reach d q n k s
      → (log : ℕ → Verdict) × Inv n k s.mem s.consumer log
  Reach-Inv {d} {q} {n} small here = (λ _. open', start-Inv d q n)
  Reach-Inv small (later r (produce mv)) =
      let (log, inv) = Reach-Inv (omega arith) r in (log, Push-Inv inv (omega arith) mv)
  Reach-Inv small (later r (consume i lt mv)) =
      let (log, inv) = Reach-Inv (omega arith) r in (note mv log, Pop-Inv inv (omega arith) i lt mv)

  -- However the consumers interleave, no more of them get past the test of `pop` than the producer
  -- has published items: what is claimed, and what is about to be, lies below `tail`.
  pub claims-le-tail :
      {d : A} {q n k : ℕ} {s : System A}
      → k < 2 ^ 31
      → Reach d q n k s
      → s.mem.head_fast + tally admits n s.consumer ≤ s.mem.tail
  claims-le-tail {s} small r =
      let (log, inv) = Reach-Inv small r in
      omega (arith, inv.claims, passed-le log s.mem.tail s.mem.dequeue_count inv.first inv.in_time)

  -- A slot that a consumer has claimed is published, and no other consumer has claimed it.
  pub claimed-is_published :
      {d : A} {q n k : ℕ} {s : System A}
      → k < 2 ^ 31
      → Reach d q n k s
      → (i a : ℕ) → s.consumer i ≡ Pc.claimed a
      → (a < s.mem.tail) × ((j : ℕ) → s.consumer j ≡ Pc.claimed a → i ≡ j)
  claimed-is_published small r i a e =
      let (log, inv) = Reach-Inv small r in
      (ground (arith, inv.fresh i, claims-le-tail small r), λ j f. inv.unique_slot i j a e f)

  -- In every state reached in fewer than 2^31 steps, however the consumers interleave: the slots that
  -- are claimed, and those that consumers are admitted to claim, lie below the published tail; and a
  -- slot that a consumer has claimed is published and claimed by no other consumer.
  pub claims_are_safe :
      {d : A} {q n k : ℕ} {s : System A}
      → k < 2 ^ 31
      → Reach d q n k s
      → (s.mem.head_fast + tally admits n s.consumer ≤ s.mem.tail)
        × ((i a : ℕ)
            → s.consumer i ≡ Pc.claimed a
            → (a < s.mem.tail) × ((j : ℕ) → s.consumer j ≡ Pc.claimed a → i ≡ j))
  claims_are_safe small r = (claims-le-tail small r, claimed-is_published small r)
