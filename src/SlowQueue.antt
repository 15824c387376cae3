-- ===== src/SlowQueue.antt =====
-- `SlowQueue` of include/coplus/fast_queue.h: a mutex-guarded ring of fixed size, the free list of
-- `FastQueue`. Each method holds `lock` throughout, so a method is one step.
pub mod Order
pub mod Refine
pub mod Bag
mod Tests
use coplus.Prelude.{
  ℕ, zero, suc, ◌+◌, ◌-◌, List, Bool, true, false, ◌&&◌, ◌==◌, ltb, if◌then◌else◌, get_or, set,
  replicate,
}

-- `head` pops if it differs from `tail`, `tail` pushes; `head == tail` is empty at 0 and full
-- elsewhere. The fields are `int`s that never fall below 0.
pub record SlowQueue (A : Type 0) : Type 0 where
  pub max_size : ℕ
  pub ring : List A
  pub head : ℕ
  pub tail : ℕ

-- `x == max_size - 1 ? 0 : x + 1`, with the test moved across by one for numbers from 0 on.
unfoldable pub next : ℕ → ℕ → ℕ
next max_size i = if i + 1 == max_size then 0 else i + 1

module _ {A : Type 0} where
  -- `d` is the value that `std::vector` gives to a cell at the start.
  unfoldable pub init : A → ℕ → SlowQueue A
  init d max_size = record { max_size = max_size; ring = replicate max_size d; head = 0; tail = 0 }

  -- The result, the value left in `ret`, and the queue. A read out of range would give `ret` back;
  -- the invariant excludes it.
  unfoldable pub pop : SlowQueue A → A → Bool × A × SlowQueue A
  unfolding next
  pop q ret =
      if q.head == q.tail && q.tail == 0
      then (false, ret, q)
      else (let slot = q.head in
          let head = next q.max_size q.head in
          let out = get_or q.ring slot ret in
          if head == q.tail
          then (true, out, record q { head = 0; tail = 0 })
          else (true, out, record q { head = head }))

  unfoldable pub push : SlowQueue A → A → Bool × SlowQueue A
  unfolding next
  push q item =
      if q.head == q.tail
      then (if q.head == 0
          then (true, record q { tail = q.tail + 1; ring = set q.ring 0 item })
          else (false, q))
      else (let ring = set q.ring q.tail item in
          let tail = next q.max_size q.tail in
          if q.head == tail && tail == 0
          then (true, record q { ring = ring; head = 1; tail = 1 })
          else (true, record q { ring = ring; tail = tail }))

  unfoldable pub size : SlowQueue A → ℕ
  size q =
      if q.head == q.tail && q.tail == 0
      then 0
      else if q.head == q.tail
      then q.max_size
      else if ltb q.tail q.head
      then q.tail + q.max_size - q.head
      else q.tail - q.head
