-- ===== src/ThreadPool/Tests.antt =====
-- Runs of the pool over a list of tasks, and the theorems at them.
use coplus.Prelude.{
  ℕ, ◌^◌, ◌<◌, ◌≡◌, refl, pos, List, [], ◌∷◌, ◌++◌, Bool, true, Option, none, some, arith,
}
use coplus.FastStack
use coplus.FastStack.{FastStack}
use coplus.FastStack.Items.{IsValid, init-IsValid}
use coplus.FastStack.Push.{push-IsValid}
use coplus.ThreadPool.{
  Pool, done, yields, awaits_task, wait_queue_size, go, notify, push, as_machine,
}
use coplus.ThreadPool.Notify.{waiters_of, push_all, notify-waiters}
use coplus.ThreadPool.Machines.{
  Machine, Machines, start, resize, close, AllAre, IsServing, start-IsServing, resize-IsServing,
  close-all,
}

-- The pool's queue as a list.
abbrev push_task : List (Option ℕ) → Option ℕ → Bool × List (Option ℕ)
push_task q t = (true, q ++ t ∷ [])

abbrev pop_task : List (Option ℕ) → Option (Option ℕ) × List (Option ℕ)
pop_task [] = (none, [])
pop_task (t ∷ q) = (some t, q)

abbrev empty : Pool (List (Option ℕ))
empty = record {
  tasks = [];
  wait_queue = FastStack.init 10 wait_queue_size;
  triggers = [];
  scripts = [];
  failures = 0;
}

-- Task 0 yields, awaits a function, and ends: four rounds with the awaited one, and two
-- idle ones at the limit.
abbrev one_task : Pool (List (Option ℕ))
unfolding go push
one_task = go push_task (yields (awaits_task done done)) empty

abbrev rounds : Option (ℕ × Pool (List (Option ℕ))) → Option ℕ
rounds none = none
rounds (some (n, p)) = some n

one_task_run : rounds (as_machine push_task pop_task 10 (λ _. true) 2 0 0 0 one_task) ≡ some 4
unfolding as_machine go push FastStack.get FastStack.push FastStack.init
one_task_run = refl

init-valid : (n : ℕ) → n < 2 ^ 31 → IsValid (FastStack.init {A = Option ℕ} 10 n)
init-valid n h = init-IsValid 10 n (omega arith) h

-- Task 3 waits under token 0 of a wait queue with one place.
abbrev one_waits : FastStack (Option ℕ)
one_waits = (FastStack.push none (FastStack.init 10 1) (some 3)).1

one_waits-IsValid : IsValid one_waits
unfolding FastStack.init
one_waits-IsValid =
    push-IsValid none (FastStack.init 10 1) (some 3) (init-valid 1 (omega arith)) (omega arith)

abbrev waiting_pool : Pool (List (Option ℕ))
waiting_pool = record empty { wait_queue = one_waits; triggers = (pos 0 ∷ []) ∷ [] }

notify-waiters_example :
    (p' : Pool (List (Option ℕ))) × (notify push_task 0 waiting_pool ≡ some p')
    × (p'.tasks ≡ push_all push_task [] (waiters_of one_waits (pos 0 ∷ [])))
unfolding FastStack.push FastStack.init
notify-waiters_example = notify-waiters push_task 0 waiting_pool one_waits-IsValid (omega arith, tt)

one_waiter : waiters_of one_waits (pos 0 ∷ []) ≡ some 3 ∷ []
unfolding FastStack.push FastStack.init
one_waiter = refl

-- Task 0 stands at its `await`.
abbrev at_await : Pool (List (Option ℕ))
at_await = record empty { scripts = awaits_task done done ∷ [] }

start-IsServing_example : IsServing (start 4)
start-IsServing_example = start-IsServing 4 (omega arith) (omega arith)

resize-IsServing_example :
    (p' : Machines) × (gone : List Machine) × (resize 2 (start 4) ≡ some (p', gone))
    × IsServing p'
    × (p'.thread_size ≡ 2)
    × AllAre true gone
resize-IsServing_example =
    resize-IsServing 2 (start 4) (start-IsServing 4 (omega arith) (omega arith))

close-all_example : AllAre true (close (start 4)).machines
close-all_example = close-all (start 4)
