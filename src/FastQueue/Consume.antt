-- ===== src/FastQueue/Consume.antt =====
-- The consumers' side of `FastQueue` in include/coplus/fast_queue.h: `element_count`, `pop` and
-- `pop_hard`. The index that `corand` draws is an argument; `int`s here stay below 2^31.
pub mod Livelock
mod Tests
use mathlib.Core.Option
use coplus.Prelude.{
  leb, ◌^◌, ℕ, zero, suc, ◌+◌, ◌-◌, ◌*◌, ◌%◌, pos, List, Bool, true, false, not, ◌||◌, Option, none,
  some, ltb, ◌==◌, if◌then◌else◌, get_elem?, set,
}
use coplus.LocalQueue
use coplus.LocalQueue.{LocalQueue, local_queue_size}
use coplus.FastStack
use coplus.FastQueue.{FastQueue, Outcome, fault, running, returned}

-- One visit of a consumer: no queue there, or what `local->pop` says.
pub data Visit (A : Type 0) : Type 0 where
  absent : Visit A
  popped : Bool → A → FastQueue A → Visit A

module _ {A : Type 0} where
  -- `local` of the stack's answer, or nothing: `!status || !local`.
  unfoldable pub owner : FastQueue A → ℕ → Option (Option ℕ)
  owner q index = elim (FastStack.get q.queue_list (pos index) none) [
    | none ↦ none
    | some (status, local) ↦ elim status [ false ↦ some none | true ↦ some local ]
  ]

  unfoldable pub visit : FastQueue A → ℕ → A → Option (Visit A)
  visit q index ret = elim (owner q index) [
    | none ↦ none
    | some local ↦ elim local [
      | none ↦ some absent
      | some p ↦ elim (get_elem? q.heap p) [
        | none ↦ none
        | some lq ↦
            let (ok, out, lq') = LocalQueue.pop local_queue_size lq ret in
            some (popped ok out (record q { heap = set q.heap p lq' }))
      ]
    ]
  ]

  -- The loop of `pop` from its test on: `cur` has been increased and not yet reduced. A `cur` that is no
  -- `int` any more is a fault, and comes before `i` could be one.
  unfoldable pub pop_loop :
      ℕ → (index i cur : ℕ) → FastQueue A → A → Outcome (Bool × A × FastQueue A)
  pop_loop zero index i cur q ret = running
  pop_loop (suc fuel) index i cur q ret = elim (leb (2 ^ 31) cur) [
    | true ↦ fault
    | false ↦ elim (i == 0 || not (cur == index)) [
      | false ↦ returned (false, ret, q)
      | true ↦ elim (FastStack.size q.queue_list == 0) [
        | true ↦ fault
        | false ↦
            let cur' = cur % FastStack.size q.queue_list in
            elim (visit q cur' ret) [
              | none ↦ fault
              | some v ↦ elim v [
                | absent ↦ pop_loop fuel index (i + 1) (cur' + 2 * (i + 1) + 1) q ret
                | popped ok out q' ↦ elim ok [
                  | true ↦ returned (true, out, q')
                  | false ↦ pop_loop fuel index (i + 1) (cur' + 2 * (i + 1) + 1) q' out
                ]
              ]
            ]
      ]
    ]
  ]

  -- `pop`, for the index that `corand.UInt(QueueList.size())` draws.
  unfoldable pub pop : ℕ → ℕ → FastQueue A → A → Outcome (Bool × A × FastQueue A)
  pop fuel index q ret = pop_loop fuel index 0 index q ret

  -- The second loop of `pop_hard`, upwards; it gives up at the first absent queue.
  unfoldable pub scan_up :
      ℕ → (index approximate : ℕ) → FastQueue A → A → Outcome (Bool × A × FastQueue A)
  scan_up zero index approximate q ret = running
  scan_up (suc fuel) index approximate q ret = elim (ltb index approximate) [
    | false ↦ returned (false, ret, q)
    | true ↦ elim (visit q index ret) [
      | none ↦ fault
      | some v ↦ elim v [
        | absent ↦ returned (false, ret, q)
        | popped ok out q' ↦ elim ok [
          | true ↦ returned (true, out, q')
          | false ↦
              let size = FastStack.size q'.queue_list in
              scan_up fuel (index + 1) (if index + 1 == approximate then size else approximate) q'
                out
        ]
      ]
    ]
  ]

  -- The first loop, down to 0, and then the second from `middle + 1`.
  unfoldable pub scan_down :
      ℕ → (middle approximate index : ℕ) → FastQueue A → A → Outcome (Bool × A × FastQueue A)
  scan_down fuel middle approximate zero q ret = elim (visit q zero ret) [
    | none ↦ fault
    | some v ↦ elim v [
      | absent ↦ scan_up fuel (middle + 1) approximate q ret
      | popped ok out q' ↦ elim ok [
        | true ↦ returned (true, out, q')
        | false ↦ scan_up fuel (middle + 1) approximate q' out
      ]
    ]
  ]
  scan_down fuel middle approximate (suc index) q ret = elim (visit q (suc index) ret) [
    | none ↦ fault
    | some v ↦ elim v [
      | absent ↦ scan_down fuel middle approximate index q ret
      | popped ok out q' ↦ elim ok [
        | true ↦ returned (true, out, q')
        | false ↦ scan_down fuel middle approximate index q' out
      ]
    ]
  ]

  -- `pop_hard`, for the index `middle` that `corand.UInt(QueueList.size())` draws.
  unfoldable pub pop_hard : ℕ → ℕ → FastQueue A → A → Outcome (Bool × A × FastQueue A)
  pop_hard fuel middle q ret = scan_down fuel middle (FastStack.size q.queue_list) middle q ret

  -- The loop of `element_count`.
  unfoldable pub count_loop : ℕ → (index approximate total : ℕ) → FastQueue A → Outcome ℕ
  count_loop zero index approximate total q = running
  count_loop (suc fuel) index approximate total q = elim (ltb index approximate) [
    | false ↦ returned total
    | true ↦ elim (owner q index) [
      | none ↦ fault
      | some local ↦ elim local [
        | none ↦ count_loop fuel (index + 1) approximate total q
        | some p ↦ elim (get_elem? q.heap p) [
          | none ↦ fault
          | some lq ↦
              count_loop fuel (index + 1)
                (if index + 1 == approximate then FastStack.size q.queue_list else approximate)
                (total + LocalQueue.size lq) q
        ]
      ]
    ]
  ]

  unfoldable pub element_count : ℕ → FastQueue A → Outcome ℕ
  element_count fuel q = count_loop fuel 0 (FastStack.size q.queue_list) 0 q
