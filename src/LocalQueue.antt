-- ===== src/LocalQueue.antt =====
-- `FastLocalQueue` of include/coplus/fast_queue.h, one call at a time: a bounded queue for one
-- producer on atomic counters. The interleavings of its calls are in LocalQueue/Threads.antt.
pub mod Refine
pub mod Threads
mod Tests
use coplus.Prelude.{
  ℕ, ◌+◌, ◌%◌, ◌^◌, List, Bool, true, false, ltb, if◌then◌else◌, get_or, set, replicate, add32,
  sub32,
}

-- `kLocalQueueSize`
abbrev pub local_queue_size : ℕ
local_queue_size = 32

-- The counters are `uint32_t`s, and wrap.
pub record LocalQueue (A : Type 0) : Type 0 where
  pub enqueue_count : ℕ
  pub enqueue_revoke : ℕ
  pub dequeue_count : ℕ
  pub dequeue_revoke : ℕ
  pub head : ℕ
  pub tail : ℕ
  pub head_fast : ℕ
  pub tail_fast : ℕ
  pub cells : List A  -- `data_`

module _ {A : Type 0} where
  -- `d` stands for the value of a new cell; `queue_size` is the template's `QueueSize`.
  unfoldable pub init : A → ℕ → LocalQueue A
  init d queue_size = record {
    enqueue_count = 0;
    enqueue_revoke = 0;
    dequeue_count = 0;
    dequeue_revoke = 0;
    head = 0;
    tail = 0;
    head_fast = 0;
    tail_fast = 0;
    cells = replicate queue_size d;
  }

  unfoldable pub push : ℕ → LocalQueue A → A → Bool × LocalQueue A
  push queue_size q item =
      let enq_revoke = q.enqueue_revoke in
      let enq = add32 q.enqueue_count 1 in
      if ltb queue_size (sub32 (sub32 enq enq_revoke) q.head)
      then (false, record q { enqueue_count = enq; enqueue_revoke = add32 q.enqueue_revoke 1 })
      else (
        true,
        record q {
          enqueue_count = enq;
          cells = set q.cells (q.tail_fast % queue_size) item;
          tail_fast = add32 q.tail_fast 1;
          tail = add32 q.tail 1;
        },
      )

  -- The result, the value left in `ret`, and the queue.
  unfoldable pub pop : ℕ → LocalQueue A → A → Bool × A × LocalQueue A
  pop queue_size q ret =
      let deq_revoke = q.dequeue_revoke in
      let deq = add32 q.dequeue_count 1 in
      if ltb 2147483647 (sub32 q.tail (sub32 deq deq_revoke))
      then (false, ret, record q { dequeue_count = deq; dequeue_revoke = add32 q.dequeue_revoke 1 })
      else (
        true,
        get_or q.cells (q.head_fast % queue_size) ret,
        record q { dequeue_count = deq; head_fast = add32 q.head_fast 1; head = add32 q.head 1 },
      )

  unfoldable pub size : LocalQueue A → ℕ
  size q = sub32 q.tail q.head
