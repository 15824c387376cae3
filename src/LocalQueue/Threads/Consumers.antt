-- ===== src/LocalQueue/Threads/Consumers.antt =====
-- What holds of the consumers of a `FastLocalQueue` at every step, and that a step of `pop` keeps it.
pub mod Moves
use coplus.Prelude.{
  ◌≢◌, Bool-cases, ◌==◌, inl, inr, ℕ, suc, ◌+◌, ◌≤◌, ◌<◌, ◌^◌, ◌-◌, ◌≡◌, refl, tally, tally-suc,
  assign, tally-assign, tally-assign_le, tally_mono, arith,
}
use coplus.LocalQueue.{LocalQueue}
use coplus.LocalQueue.Threads.{
  Pc, Producer, Pop, Push, load, count, refuse, revoke, admit, claim, read, finish,
}
use coplus.LocalQueue.Threads.Verdicts.{
  Verdict, open', passed, failed, passes, fails, passed_to, failed_to, verdicts_disjoint,
}

module _ {A : Type 0} where
  -- A consumer that has passed the test and not yet taken a slot; one that has still to revoke.
  abbrev pub admits : Pc A → ℕ
  admits Pc.admitted = 1
  admits _ = 0

  abbrev pub refuses : Pc A → ℕ
  refuses Pc.refused = 1
  refuses _ = 0

  -- What the local variables of a consumer say.
  abbrev pub IsFresh : LocalQueue A → (ℕ → Verdict) → Pc A → Type 0
  IsFresh m log (Pc.loaded r) = r ≤ failed_to log m.dequeue_count
  IsFresh m log (Pc.counted r c) =
      (0 < c) × (c ≤ m.dequeue_count) × (r ≤ failed_to log c) × (log c ≡ open')
  IsFresh m log (Pc.claimed a) = a < m.head_fast
  IsFresh m log _ = Unit

  -- After `k` steps.
  pub record Inv (n k : ℕ) (m : LocalQueue A) (pc : ℕ → Pc A) (log : ℕ → Verdict) : Type 0 where
    pub dequeue_count_in : m.dequeue_count ≤ k
    pub dequeue_revoke_in : m.dequeue_revoke ≤ k
    pub tail_in : m.tail ≤ k
    pub head_fast_in : m.head_fast ≤ k
    pub first : log 0 ≡ open'
    pub future : (c : ℕ) → m.dequeue_count < c → log c ≡ open'
    pub claims : m.head_fast + tally admits n pc ≡ passed_to log m.dequeue_count
    pub revokes : m.dequeue_revoke + tally refuses n pc ≡ failed_to log m.dequeue_count
    pub in_time : (c : ℕ) → log c ≡ passed → c ≤ m.tail + failed_to log c
    pub fresh : (i : ℕ) → IsFresh m log (pc i)
    pub unique_call : (i j r r' c : ℕ) → pc i ≡ Pc.counted r c → pc j ≡ Pc.counted r' c → i ≡ j
    pub unique_slot : (i j a : ℕ) → pc i ≡ Pc.claimed a → pc j ≡ Pc.claimed a → i ≡ j

  -- The account after a step.
  abbrev pub note :
      {d : A} {q : ℕ} {m m' : LocalQueue A} {p p' : Pc A}
      → Pop d q m p m' p'
      → (ℕ → Verdict)
      → ℕ
      → Verdict
  note (refuse {deq} _) log = assign log deq failed
  note (admit {deq} _) log = assign log deq passed
  note load log = log
  note count log = log
  note revoke log = log
  note claim log = log
  note read log = log
  note finish log = log

  -- A thread that does not move stays fresh while the counters and the failures grow.
  pub IsFresh-mono :
      (m m' : LocalQueue A) (log log' : ℕ → Verdict) (p : Pc A)
      → m.dequeue_count ≤ m'.dequeue_count
      → m.head_fast ≤ m'.head_fast
      → ((c : ℕ) → failed_to log c ≤ failed_to log' c)
      → ((r c : ℕ) → p ≡ Pc.counted r c → log c ≡ open' → log' c ≡ open')
      → IsFresh m log p
      → IsFresh m' log' p
  IsFresh-mono m m' log log' (Pc.loaded r) dc hf more still f = omega (
    arith,
    more m.dequeue_count,
    tally_mono fails (suc m.dequeue_count) (suc m'.dequeue_count) log',
  )
  IsFresh-mono m m' log log' (Pc.counted r c) dc hf more still f =
      (f.0, omega arith, omega (arith, more c), still r c refl f.3)
  IsFresh-mono m m' log log' (Pc.claimed a) dc hf more still f = omega arith
  IsFresh-mono m m' log log' Pc.idle dc hf more still f = tt
  IsFresh-mono m m' log log' Pc.refused dc hf more still f = tt
  IsFresh-mono m m' log log' Pc.admitted dc hf more still f = tt
  IsFresh-mono m m' log log' (Pc.holding x) dc hf more still f = tt

  -- The producer leaves the consumers' counters alone, and `tail` only grows.
  pub Push-counters :
      {q k : ℕ} {m m' : LocalQueue A} {p p' : Producer A}
      → Push q m p m' p'
      → m.tail ≤ k
      → k < 2 ^ 31 - 1
      → (m'.dequeue_count ≡ m.dequeue_count)
        × (m'.dequeue_revoke ≡ m.dequeue_revoke)
        × (m'.head_fast ≡ m.head_fast)
        × (m.tail ≤ m'.tail)
        × (m'.tail ≤ suc k)
  Push-counters (Push.load x) h s = omega arith
  Push-counters mv h s = omega arith

  pub Push-Inv :
      {q n k : ℕ} {m m' : LocalQueue A} {p p' : Producer A} {pc : ℕ → Pc A} {log : ℕ → Verdict}
      → Inv n k m pc log
      → k < 2 ^ 31 - 1
      → Push q m p m' p'
      → Inv n (suc k) m' pc log
  Push-Inv {k} {m} {m'} {pc} {log} inv small mv = record {
    dequeue_count_in = omega (arith, same);
    dequeue_revoke_in = omega (arith, same);
    tail_in = same.4;
    head_fast_in = omega (arith, same);
    first = inv.first;
    future = λ c h. inv.future c (omega (arith, same));
    claims = rw (same.0, same.2) inv.claims;
    revokes = rw (same.0, same.1) inv.revokes;
    in_time = λ c h. omega (arith, same, inv.in_time c h);
    fresh = λ i.
        IsFresh-mono m m' log log (pc i) (omega (arith, same)) (omega (arith, same))
          (λ c. omega arith) (λ r c e o. o) (inv.fresh i);
    unique_call = inv.unique_call;
    unique_slot = inv.unique_slot;
  }
    where
      same :
          (m'.dequeue_count ≡ m.dequeue_count)
          × (m'.dequeue_revoke ≡ m.dequeue_revoke)
          × (m'.head_fast ≡ m.head_fast)
          × (m.tail ≤ m'.tail)
          × (m'.tail ≤ suc k)
      same = Push-counters mv inv.tail_in small
