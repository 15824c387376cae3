-- ===== src/FastQueue/Consume/Tests.antt =====
-- Consumers of `FastQueue` on small queues.
use coplus.Prelude.{
  ℕ, zero, suc, ◌<◌, ◌≡◌, refl, ◌⊎◌, inr, pos, true, false, Bool, Option, some, none, length, arith,
}
use coplus.LocalQueue
use coplus.LocalQueue.{LocalQueue, local_queue_size}
use coplus.LocalQueue.Refine.{IsQuiet, init-IsQuiet}
use coplus.FastStack
use coplus.SlowQueue
use coplus.FastQueue
use coplus.FastQueue.{FastQueue, Handle, Outcome, fault, running, returned}
use coplus.FastQueue.Consume.{owner, visit, pop, pop_loop, pop_hard}
use coplus.FastQueue.Consume.Livelock.{
  IsBarren, local_at, Failed, pop_never_returns, pop_hard_fails,
}

-- Two queues are made and nothing is pushed.
abbrev two_queues : FastQueue ℕ
unfolding FastQueue.create_queue FastQueue.init
two_queues =
    (FastQueue.create_queue 0 (FastQueue.create_queue 0 FastQueue.init (pos 9)).2 (pos 9)).2

two_queues-IsBarren : IsBarren 0 2 two_queues
unfolding FastQueue.create_queue FastQueue.init FastStack.push FastStack.init FastStack.size
    FastStack.get owner LocalQueue.size LocalQueue.init
two_queues-IsBarren = record { count = refl; owners = owners; quiet = quiet; empty = empty }
  where
    owners :
        (t : ℕ)
        → t < 2
        → (owner two_queues t ≡ some none)
          ⊎ ((p : ℕ) × (owner two_queues t ≡ some (some p)) × (p < length two_queues.heap))
    owners zero h = inr (0, refl, omega arith)
    owners (suc zero) h = inr (1, refl, omega arith)
    owners (suc (suc t)) h = absurd (omega arith)

    quiet :
        (p : ℕ) → p < length two_queues.heap → IsQuiet local_queue_size (local_at 0 two_queues p)
    quiet zero h = init-IsQuiet 0 local_queue_size (omega arith) (omega arith) refl
    quiet (suc zero) h = init-IsQuiet 0 local_queue_size (omega arith) (omega arith) refl
    quiet (suc (suc p)) h = absurd (omega arith)

    empty : (p : ℕ) → p < length two_queues.heap → LocalQueue.size (local_at 0 two_queues p) ≡ 0
    empty zero h = refl
    empty (suc zero) h = refl
    empty (suc (suc p)) h = absurd (omega arith)

pop_never_returns_example : pop 1000 1 two_queues 7 ≡ running
pop_never_returns_example =
    pop_never_returns 0 1000 1 two_queues 7 two_queues-IsBarren (omega arith) (omega arith)
      (omega arith) (omega arith)

pop_hard_fails_example : Failed 0 2 7 (pop_hard 3 1 two_queues 7)
pop_hard_fails_example =
    pop_hard_fails 0 3 1 two_queues 7 two_queues-IsBarren (omega arith) (omega arith)

-- With no queue at all, `pop` divides by zero.
pop_no_queue : pop 5 0 (FastQueue.init {A = ℕ}) 7 ≡ fault
unfolding pop FastQueue.init pop_loop FastStack.size FastStack.init
pop_no_queue = refl

-- What a producer pushes, `pop` finds, and a count before it.
abbrev pushed : Option (Bool × Handle ℕ)
unfolding FastQueue.push
pushed = elim (FastQueue.new_handle 0 (pos 9) FastQueue.init) [
  | none ↦ none
  | some h ↦ FastQueue.push 5 h
]

abbrev then_popped : Option (Bool × Handle ℕ) → Outcome (Bool × ℕ × FastQueue ℕ)
then_popped none = fault
then_popped (some (ok, h)) = pop 5 0 h.queue 7

abbrev answer : Outcome (Bool × ℕ × FastQueue ℕ) → Bool × ℕ
answer fault = (false, 0)
answer running = (false, 1)
answer (returned (ok, out, q)) = (ok, out)

pushed_popped : answer (then_popped pushed) ≡ (true, 5)
unfolding pop FastQueue.push FastQueue.new_handle SlowQueue.pop FastQueue.init SlowQueue.init
    FastStack.push FastStack.init FastStack.get pop_loop FastStack.size visit owner LocalQueue.pop
    LocalQueue.push LocalQueue.init
pushed_popped = refl
