-- ===== src/LocalQueue/Threads.antt =====
-- `FastLocalQueue` of include/coplus/fast_queue.h under threads: one producer in `push`, any number
-- of consumers in `pop`. A step is one access to shared memory, so every interleaving of the
-- atomic operations and of the plain accesses to `data_` is a sequence of steps.
pub mod Verdicts
pub mod Consumers
pub mod Safety
pub mod Capacity
pub mod Linear
pub mod Schedule
mod Tests
use coplus.Prelude.{
  ℕ, suc, ◌<◌, ◌%◌, ◌≡◌, Bool, true, false, ltb, get_or, set, add32, sub32, assign,
}
use coplus.LocalQueue.{LocalQueue, init}

-- Where a consumer stands in `pop`, with its local variables.
pub data Pc (A : Type 0) : Type 0 where
  idle : Pc A
  loaded : (deq_revoke : ℕ) → Pc A
  counted : (deq_revoke deq : ℕ) → Pc A
  refused : Pc A
  admitted : Pc A
  claimed : (slot : ℕ) → Pc A
  holding : A → Pc A

-- Where the producer stands in `push`, with its local variables.
pub data Producer (A : Type 0) : Type 0 where
  idle : Producer A
  loaded : A → (enq_revoke : ℕ) → Producer A
  counted : A → (enq_revoke enq : ℕ) → Producer A
  refused : Producer A
  admitted : A → Producer A
  claimed : A → (slot : ℕ) → Producer A
  written : Producer A

module _ {A : Type 0} where
  -- The test of `pop` that finds the queue empty.
  abbrev pub seems_empty : LocalQueue A → ℕ → ℕ → Bool
  seems_empty m deq_revoke deq = ltb 2147483647 (sub32 m.tail (sub32 deq deq_revoke))

  -- The test of `push` that finds the queue full.
  abbrev pub seems_full : ℕ → LocalQueue A → ℕ → ℕ → Bool
  seems_full queue_size m enq_revoke enq = ltb queue_size (sub32 (sub32 enq enq_revoke) m.head)

  -- `d` is what a read outside `data_` would give.
  pub data Pop (d : A) (queue_size : ℕ) (m : LocalQueue A)
      : Pc A → LocalQueue A → Pc A → Type 0 where
    load : Pop d queue_size m Pc.idle m (Pc.loaded m.dequeue_revoke)
    count :
        {r : ℕ}
        → Pop d queue_size m
            (Pc.loaded r)
            (record m { dequeue_count = add32 m.dequeue_count 1 })
            (Pc.counted r (add32 m.dequeue_count 1))
    refuse :
        {r deq : ℕ}
        → seems_empty m r deq ≡ true
        → Pop d queue_size m (Pc.counted r deq) m Pc.refused
    revoke :
        Pop d queue_size m Pc.refused
          (record m { dequeue_revoke = add32 m.dequeue_revoke 1 })
          Pc.idle
    admit :
        {r deq : ℕ}
        → seems_empty m r deq ≡ false
        → Pop d queue_size m (Pc.counted r deq) m Pc.admitted
    claim :
        Pop d queue_size m Pc.admitted
          (record m { head_fast = add32 m.head_fast 1 })
          (Pc.claimed m.head_fast)
    read :
        {slot : ℕ}
        → Pop d queue_size m (Pc.claimed slot) m (Pc.holding (get_or m.cells (slot % queue_size) d))
    finish :
        {x : A} → Pop d queue_size m (Pc.holding x) (record m { head = add32 m.head 1 }) Pc.idle

  pub data Push (queue_size : ℕ) (m : LocalQueue A)
      : Producer A → LocalQueue A → Producer A → Type 0 where
    load : (x : A) → Push queue_size m Producer.idle m (Producer.loaded x m.enqueue_revoke)
    count :
        {x : A} {r : ℕ}
        → Push queue_size m
            (Producer.loaded x r)
            (record m { enqueue_count = add32 m.enqueue_count 1 })
            (Producer.counted x r (add32 m.enqueue_count 1))
    refuse :
        {x : A} {r enq : ℕ}
        → seems_full queue_size m r enq ≡ true
        → Push queue_size m (Producer.counted x r enq) m Producer.refused
    revoke :
        Push queue_size m Producer.refused
          (record m { enqueue_revoke = add32 m.enqueue_revoke 1 })
          Producer.idle
    admit :
        {x : A} {r enq : ℕ}
        → seems_full queue_size m r enq ≡ false
        → Push queue_size m (Producer.counted x r enq) m (Producer.admitted x)
    claim :
        {x : A}
        → Push queue_size m
            (Producer.admitted x)
            (record m { tail_fast = add32 m.tail_fast 1 })
            (Producer.claimed x m.tail_fast)
    write :
        {x : A} {slot : ℕ}
        → Push queue_size m
            (Producer.claimed x slot)
            (record m { cells = set m.cells (slot % queue_size) x })
            Producer.written
    publish : Push queue_size m Producer.written (record m { tail = add32 m.tail 1 }) Producer.idle

-- Consumers from `n` on name no thread: they are never picked.
pub record System (A : Type 0) : Type 0 where
  pub mem : LocalQueue A
  pub producer : Producer A
  pub consumer : ℕ → Pc A

pub data Step {A : Type 0} (d : A) (queue_size n : ℕ) (s : System A) : System A → Type 0 where
  produce :
      {m : LocalQueue A} {p : Producer A}
      → Push queue_size s.mem s.producer m p
      → Step d queue_size n s (record s { mem = m; producer = p })
  consume :
      (i : ℕ) {m : LocalQueue A} {p : Pc A}
      → i < n
      → Pop d queue_size s.mem (s.consumer i) m p
      → Step d queue_size n s (record s { mem = m; consumer = assign s.consumer i p })

abbrev pub start : {A : Type 0} → A → ℕ → System A
start d queue_size = record {
  mem = init d queue_size;
  producer = Producer.idle;
  consumer = λ _. Pc.idle;
}

-- `Reach d queue_size n k s`: `n` consumers and the producer can come to `s` in `k` steps.
pub data Reach {A : Type 0} (d : A) (queue_size n : ℕ) : ℕ → System A → Type 0 where
  here : Reach d queue_size n 0 (start d queue_size)
  later :
      {k : ℕ} {s t : System A}
      → Reach d queue_size n k s
      → Step d queue_size n s t
      → Reach d queue_size n (suc k) t
