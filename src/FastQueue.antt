-- ===== src/FastQueue.antt =====
-- `FastQueue` and its `ProducerHandle` of include/coplus/fast_queue.h, one call at a time: local
-- queues behind a growing stack of owners and a free list of tokens.
pub mod Consume
use mathlib.Core.Option
use coplus.Prelude.{
  ℕ, zero, suc, ◌+◌, ◌-◌, ◌*◌, ◌%◌, ℤ, pos, negsuc, List, [], ◌∷◌, ◌++◌, Bool, true, false, not,
  ◌&&◌, ◌||◌, Option, none, some, ltb, ◌==◌, if◌then◌else◌, get_elem?, set, length,
}
use coplus.SlowQueue
use coplus.SlowQueue.{SlowQueue}
use coplus.LocalQueue
use coplus.LocalQueue.{LocalQueue, local_queue_size}
use coplus.FastStack
use coplus.FastStack.{FastStack}

-- `kFreeListSize`, `kQueueMaxCount`, and the default chunk size of the stack.
abbrev pub free_list_size : ℕ
free_list_size = 50

abbrev pub queue_max_count : ℕ
queue_max_count = 100

abbrev pub unit_size : ℕ
unit_size = 10

-- `kProducerRetry`
abbrev pub producer_retry : ℕ
producer_retry = 10

-- The local queues made by `new` are cells of `heap`, and a pointer is an index into it; `none` is
-- the null pointer.
pub record FastQueue (A : Type 0) : Type 0 where
  pub heap : List (LocalQueue A)
  pub queue_list : FastStack (Option ℕ)
  pub free_list : SlowQueue ℤ

-- A `ProducerHandle` with the queue that it points to.
pub record Handle (A : Type 0) : Type 0 where
  pub token : ℤ
  pub local : Option ℕ
  pub queue : FastQueue A

-- How a loop with fuel ends: `fault` is a null dereference, an access out of bounds or a division
-- by zero, `running` is fuel used up.
pub data Outcome (B : Type 0) : Type 0 where
  fault : Outcome B
  running : Outcome B
  returned : B → Outcome B

-- Code on a handle: `none` is a fault.
abbrev pub M : Type 0 → Type 0 → Type 0
M A B = Handle A → Option (B × Handle A)

infixl 5 ◌>>=◌
abbrev pub ◌>>=◌ : {A B C : Type 0} → M A B → (B → M A C) → M A C
◌>>=◌ m f h = elim (m h) [ none ↦ none | some (b, h') ↦ f b h' ]

abbrev pub pure : {A B : Type 0} → B → M A B
pure b h = some (b, h)

module _ {A : Type 0} where
  unfoldable pub init : FastQueue A
  init = record {
    heap = [];
    queue_list = FastStack.init unit_size queue_max_count;
    free_list = SlowQueue.init (pos 0) free_list_size;
  }

  unfoldable pub queue_count : FastQueue A → ℕ
  queue_count q = FastStack.size q.queue_list

  -- `QueueList.get(token, local_)`
  look_up : M A Bool
  look_up h =
      Option.map (λ (r : Bool × Option ℕ). (r.0, record h { local = r.1 }))
        (FastStack.get h.queue.queue_list h.token h.local)

  unfoldable pub apply : M A Bool
  unfolding look_up
  apply h =
      let (ok, token, free) = SlowQueue.pop h.queue.free_list h.token in
      let h' = record h { token = token; queue = record h.queue { free_list = free } } in
      elim ok [ false ↦ some (false, h') | true ↦ look_up (record h' { local = none }) ]

  -- The new queue is owned by the stack; where `push` is refused nothing owns it any more.
  -- `d` is the value of a new cell.
  unfoldable pub create_queue : A → FastQueue A → ℤ → Bool × ℤ × FastQueue A
  create_queue d q new_token =
      let p = length q.heap in
      let (token, stack) = FastStack.push none q.queue_list (some p) in
      let q' = record q {
        heap = q.heap ++ LocalQueue.init d local_queue_size ∷ [];
        queue_list = stack;
      } in
      elim token [ negsuc t ↦ (false, new_token, q') | pos t ↦ (true, pos t, q') ]

  unfoldable pub preempt : A → M A Bool
  unfolding create_queue look_up
  preempt d h =
      let (ok, token, q) = create_queue d h.queue h.token in
      let h' = record h { token = token; queue = q } in
      elim ok [ false ↦ some (false, h') | true ↦ look_up (record h' { local = none }) ]

  -- `while(--retry && !act()) { }`, which leaves `retry`.
  unfoldable pub retry : ℕ → M A Bool → M A ℕ
  retry zero act h = some (zero, h)
  retry (suc zero) act h = some (zero, h)
  retry (suc (suc r)) act h = elim (act h) [
    | none ↦ none
    | some (ok, h') ↦ elim ok [ true ↦ some (suc r, h') | false ↦ retry (suc r) act h' ]
  ]

  -- The free list first, then a new queue: the constructor, and the start of `push_hard`.
  unfoldable pub obtain : A → M A ℕ
  unfolding apply preempt retry
  obtain d = do
    r ← retry producer_retry apply
    elim r [ zero ↦ retry producer_retry (preempt d) | suc r' ↦ pure (suc r') ]

  -- `ProducerHandle(queue)`, with the token that the memory happens to hold.
  unfoldable pub new_handle : A → ℤ → FastQueue A → Option (Handle A)
  unfolding obtain
  new_handle d token q =
      Option.map (λ (r : ℕ × Handle A). r.1)
        (obtain d (record { token = token; local = none; queue = q }))

  -- `local_->push(item)`
  unfoldable pub local_push : A → M A Bool
  local_push item h = elim h.local [
    | none ↦ none
    | some p ↦ elim (get_elem? h.queue.heap p) [
      | none ↦ none
      | some q ↦
          let (ok, q') = LocalQueue.push local_queue_size q item in
          some (ok, record h { queue = record h.queue { heap = set h.queue.heap p q' } })
    ]
  ]

  unfoldable pub push : A → M A Bool
  unfolding local_push
  push item h = elim h.local [ none ↦ some (false, h) | some p ↦ local_push item h ]

  -- `queue_->FreeList.push(token)`, whose result nobody reads.
  unfoldable pub free_token : Handle A → Handle A
  free_token h = record h {
    queue = record h.queue { free_list = (SlowQueue.push h.queue.free_list h.token).1 };
  }

  -- The end of `push_hard`, after nine refusals by the local queue.
  unfoldable pub move_on : A → A → M A Bool
  unfolding free_token preempt retry local_push
  move_on d item h = elim (retry producer_retry (preempt d) (free_token h)) [
    | none ↦ none
    | some (r, h') ↦ elim h'.local [
      | none ↦ some (false, h')
      | some p ↦
          Option.map (λ (r : ℕ × Handle A). (not (r.0 == 0), r.1))
            (retry producer_retry (local_push item) h')
    ]
  ]

  -- `push_hard` once `local_` is set.
  unfoldable pub push_local : A → A → M A Bool
  unfolding move_on retry local_push
  push_local d item = do
    r ← retry producer_retry (local_push item)
    elim r [ zero ↦ move_on d item | suc r' ↦ pure true ]

  unfoldable pub push_hard : A → A → M A Bool
  unfolding obtain push_local
  push_hard d item h = elim h.local [
    | some p ↦ push_local d item h
    | none ↦ elim (obtain d h) [
      | none ↦ none
      | some (r, h') ↦ elim h'.local [ none ↦ some (false, h') | some p ↦ push_local d item h' ]
    ]
  ]

  -- `~ProducerHandle()`
  unfoldable pub drop_handle : Handle A → FastQueue A
  unfolding free_token
  drop_handle h = elim h.local [ none ↦ h.queue | some p ↦ (free_token h).queue ]
