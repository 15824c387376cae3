-- ===== src/ThreadPool.antt =====
-- `ThreadPool` of include/coplus/thread_pool.h with the tasks that it runs: fibers
-- (include/coplus/fiber_task.h), `await`, `yield` and `notify` (src/coroutine.cc). The pool's queue
-- of tasks is a parameter with the two operations that are used of it; a fiber switch runs the
-- fiber up to its next suspension.
pub mod Notify
pub mod Await
pub mod Machines
mod Tests
use coplus.Prelude.{
  ℕ, zero, suc, ◌+◌, ℤ, pos, negsuc, List, [], ◌∷◌, ◌++◌, Bool, true, false, not, ◌||◌, Option,
  none, some, ltb, get_or, set, length,
}
use coplus.FastStack
use coplus.FastStack.{FastStack}

-- `TaskStatus`
pub data TaskStatus : Type 0 where
  unknown : TaskStatus
  finished : TaskStatus
  ready : TaskStatus
  waiting : TaskStatus

-- What is left of a fiber's function: up to its end, its calls of `yield`, the three forms of
-- `await`, and `notify`. A trigger is its number.
pub data Script : Type 0 where
  done : Script
  yields : Script → Script
  awaits : ℕ → Script → Script
  awaits_task : Script → Script → Script
  awaits_timer : Script → Script
  notifies : ℕ → Script → Script

-- The function that `await(func)` wraps: `func`, and then a notification.
abbrev pub then_notify : ℕ → Script → Script
then_notify t done = notifies t done
then_notify t (yields s) = yields (then_notify t s)
then_notify t (awaits u s) = awaits u (then_notify t s)
then_notify t (awaits_task f s) = awaits_task f (then_notify t s)
then_notify t (awaits_timer s) = awaits_timer (then_notify t s)
then_notify t (notifies u s) = notifies u (then_notify t s)

-- The pool: tasks are numbered in the order in which they were made, and so are triggers. A shared
-- pointer to a task is its number or null. `failures` counts the messages that a push failed.
pub record Pool (Q : Type 0) : Type 0 where
  pub tasks : Q
  pub wait_queue : FastStack (Option ℕ)
  pub triggers : List (List ℤ)
  pub scripts : List Script
  pub failures : ℕ

-- How a fiber suspends: the status, and for `waiting` the trigger and `wait_for_task`.
pub data Switch : Type 0 where
  ended : Switch
  yielded : Switch
  awaiting : (trigger : ℕ) → (wait_for_task : Option ℕ) → Switch

-- `FiberData::public_status` where the fiber switches back.
abbrev pub status_of : Switch → TaskStatus
status_of ended = TaskStatus.finished
status_of yielded = TaskStatus.ready
status_of (awaiting t w) = TaskStatus.waiting

abbrev pub wait_queue_size : ℕ
wait_queue_size = 1000

module _ {Q : Type 0} where
  -- `NewTrigger`
  abbrev pub new_trigger : Pool Q → ℕ × Pool Q
  new_trigger p = (length p.triggers, record p { triggers = p.triggers ++ [] ∷ [] })

  -- `make_shared<FiberTask<...>>`
  abbrev pub new_task : Script → Pool Q → ℕ × Pool Q
  new_task s p = (length p.scripts, record p { scripts = p.scripts ++ s ∷ [] })

  -- `TriggerData::Register`
  unfoldable pub register : ℕ → ℤ → Pool Q → Pool Q
  register t id p = record p { triggers = set p.triggers t (get_or p.triggers t [] ++ id ∷ []) }

  module _ (push_task : Q → Option ℕ → Bool × Q) where
    -- A handle, `push_hard`, and the message where that fails.
    unfoldable pub push : Option ℕ → Pool Q → Pool Q
    push task p =
        let (ok, tasks) = push_task p.tasks task in
        elim ok [
          | true ↦ record p { tasks = tasks }
          | false ↦ record p { tasks = tasks; failures = p.failures + 1 }
        ]

    -- The loop of `notify` over the waiters. The source pushes them through one handle, and `push_task`
    -- stands for a push through it. `none` is a fault: a read outside the wait queue.
    unfoldable pub notify_all : List ℤ → Option ℕ → Pool Q → Option (Pool Q)
    unfolding push
    notify_all [] task p = some p
    notify_all (id ∷ ids) task p = elim (FastStack.get p.wait_queue id task) [
      | none ↦ none
      | some (status, task') ↦ elim status [
        | false ↦ some p
        | true ↦ notify_all ids task' (push task' p)
      ]
    ]

    unfoldable pub notify : ℕ → Pool Q → Option (Pool Q)
    unfolding notify_all
    notify t p = notify_all (get_or p.triggers t []) none p

    -- The fiber runs to its next suspension: how it suspends, and what is left of it.
    unfoldable pub resume : Script → Pool Q → Option (Switch × Script × Pool Q)
    unfolding notify
    resume done p = some (ended, done, p)
    resume (yields s) p = some (yielded, s, p)
    resume (awaits t s) p = some (awaiting t none, s, p)
    resume (awaits_task f s) p =
        let (t, p') = new_trigger p in
        let (task, p'') = new_task (then_notify t f) p' in some (awaiting t (some task), s, p'')
    resume (awaits_timer s) p = let (t, p') = new_trigger p in some (awaiting t none, s, p')
    resume (notifies t s) p = elim (notify t p) [ none ↦ none | some p' ↦ resume s p' ]

    -- `FiberTask::call`
    unfoldable pub call : ℕ → Pool Q → Option (Switch × Pool Q)
    unfolding resume
    call task p = elim (resume (get_or p.scripts task done) p) [
      | none ↦ none
      | some (s, rest, p') ↦ some (s, record p' { scripts = set p'.scripts task rest })
    ]

    -- The `switch` of the worker, on what the call returned.
    unfoldable pub after_call : ℕ → Switch → Pool Q → Pool Q
    unfolding push register
    after_call task ended p = p
    after_call task yielded p = push (some task) p
    after_call task (awaiting t wait_for_task) p =
        let (id, stack) = FastStack.push none p.wait_queue (some task) in
        let p' = register t id (record p { wait_queue = stack }) in
        elim wait_for_task [ none ↦ p' | some w ↦ push (some w) p' ]

    -- `submit` and `go`: a task of its own.
    unfoldable pub go : Script → Pool Q → Pool Q
    unfolding push
    go s p = let (task, p') = new_task s p in push (some task) p'

    module _ (pop_task : Q → Option (Option ℕ) × Q) where
      -- One round of a worker: whether it ran a task. A null task is a fault.
      unfoldable pub worker : Pool Q → Option (Bool × Pool Q)
      unfolding call after_call
      worker p =
          let (got, tasks) = pop_task p.tasks in
          let p' = record p { tasks = tasks } in
          elim got [
            | none ↦ some (false, p')
            | some pointer ↦ elim pointer [
              | none ↦ none
              | some task ↦ elim (call task p') [
                | none ↦ none
                | some (s, p'') ↦ some (true, after_call task s p'')
              ]
            ]
          ]

      -- `as_machine`: the rounds until `limit` of them in a row found no task and the future is there,
      -- which is asked in round `k` of all. `none` is a fault or fuel used up.
      unfoldable pub as_machine :
          ℕ → (ℕ → Bool) → (limit k retry_count task_count : ℕ) → Pool Q → Option (ℕ × Pool Q)
      unfolding worker
      as_machine zero there limit k retry_count task_count p = none
      as_machine (suc fuel) there limit k retry_count task_count p =
          elim (ltb retry_count limit || not (there k)) [
            | false ↦ some (task_count, p)
            | true ↦ elim (worker p) [
              | none ↦ none
              | some (ran, p') ↦ elim ran [
                | true ↦ as_machine fuel there limit (k + 1) 0 (task_count + 1) p'
                | false ↦ as_machine fuel there limit (k + 1) (retry_count + 1) task_count p'
              ]
            ]
          ]
