-- ===== src/LocalQueue/Threads/Schedule.antt =====
-- Reachable states of a `FastLocalQueue` by evaluation: the threads take the turns of a list.
use coplus.Prelude.{ℕ, suc, List, inl, inr, Bool-cases, foldl, dec_lt, replicate}
use coplus.LocalQueue.{LocalQueue}
use coplus.LocalQueue.Threads.{
  Pc, Producer, Pop, Push, System, produce, consume, Reach, here, later, seems_empty, seems_full,
}

-- The producer moves, with `x` if it stands at the start of a `push`; consumer `i` moves.
pub data Turn (A : Type 0) : Type 0 where
  producer : A → Turn A
  consumer : ℕ → Turn A

module _ {A : Type 0} (d : A) (q : ℕ) where
  next_push :
      A
      → (m : LocalQueue A) (p : Producer A)
      → (m' : LocalQueue A) × (p' : Producer A) × Push q m p m' p'
  unfolding Bool-cases
  next_push y m Producer.idle = (_, _, Push.load y)
  next_push y m (Producer.loaded x r) = (_, _, Push.count)
  next_push y m (Producer.counted x r enq) = elim (Bool-cases (seems_full q m r enq)) [
    | inl t ↦ (_, _, Push.refuse t)
    | inr f ↦ (_, _, Push.admit f)
  ]
  next_push y m Producer.refused = (_, _, Push.revoke)
  next_push y m (Producer.admitted x) = (_, _, Push.claim)
  next_push y m (Producer.claimed x slot) = (_, _, Push.write)
  next_push y m Producer.written = (_, _, Push.publish)

  next_pop : (m : LocalQueue A) (p : Pc A) → (m' : LocalQueue A) × (p' : Pc A) × Pop d q m p m' p'
  unfolding Bool-cases
  next_pop m Pc.idle = (_, _, Pop.load)
  next_pop m (Pc.loaded r) = (_, _, Pop.count)
  next_pop m (Pc.counted r deq) = elim (Bool-cases (seems_empty m r deq)) [
    | inl t ↦ (_, _, Pop.refuse t)
    | inr f ↦ (_, _, Pop.admit f)
  ]
  next_pop m Pc.refused = (_, _, Pop.revoke)
  next_pop m Pc.admitted = (_, _, Pop.claim)
  next_pop m (Pc.claimed slot) = (_, _, Pop.read)
  next_pop m (Pc.holding x) = (_, _, Pop.finish)

  pub record Run (n : ℕ) : Type 0 where
    pub steps : ℕ
    pub last : System A
    pub reach : Reach d q n steps last

  turn : {n : ℕ} → Run n → Turn A → Run n
  unfolding next_push next_pop dec_lt
  turn r (producer y) = record {
    steps = suc r.steps;
    last = _;
    reach = later r.reach (produce (next_push y r.last.mem r.last.producer).2);
  }
  turn {n} r (consumer i) = elim (dec_lt i n) [
    | yes lt ↦ record {
      steps = suc r.steps;
      last = _;
      reach = later r.reach (consume i lt (next_pop r.last.mem (r.last.consumer i)).2);
    }
    | no _ ↦ r
  ]

  unfoldable pub run : (n : ℕ) → List (Turn A) → Run n
  unfolding turn
  run n = foldl turn (record { steps = 0; last = _; reach = here })

-- A whole call of `push`, and of `pop` by consumer `i`, undisturbed.
abbrev pub pushing : ℕ → List (Turn ℕ)
pushing x = replicate 6 (producer x)

abbrev pub popping : ℕ → List (Turn ℕ)
popping i = replicate 6 (consumer i)
