-- ===== src/ThreadPool/Notify.antt =====
-- What `notify` pushes, and what becomes of a task that waits when the wait queue is full.
use coplus.Prelude.{
  ℕ, ◌<◌, ◌≡◌, refl, sym, ap, ap₂, ◌∙◌, ℤ, pos, negsuc, List, [], ◌∷◌, ◌++◌, Bool, true, Option,
  none, some, get_or, length, get_or_default, append-nil, subst, arith,
}
use coplus.FastStack
use coplus.FastStack.{FastStack}
use coplus.FastStack.Items.{IsValid, items}
use coplus.FastStack.Get.{get-items}
use coplus.ThreadPool.{Pool, push, notify_all, notify}

-- Tokens that the wait queue has given out.
abbrev pub Given : FastStack (Option ℕ) → List ℤ → Type 0
Given s [] = Unit
Given s (pos t ∷ ids) = (t < length (items none s)) × Given s ids
Given s (negsuc t ∷ ids) = ⊥

-- The tasks that wait under them.
abbrev pub waiters_of : FastStack (Option ℕ) → List ℤ → List (Option ℕ)
waiters_of s [] = []
waiters_of s (pos t ∷ ids) = get_or (items none s) t none ∷ waiters_of s ids
waiters_of s (negsuc t ∷ ids) = waiters_of s ids

module _ {Q : Type 0} (push_task : Q → Option ℕ → Bool × Q) where
  -- Pushes in turn; one that is refused is not tried again.
  abbrev pub push_all : Q → List (Option ℕ) → Q
  push_all q [] = q
  push_all q (x ∷ xs) = push_all (push_task q x).1 xs

  pub push-tasks :
      (task : Option ℕ) (p : Pool Q)
      → ((push push_task task p).tasks ≡ (push_task p.tasks task).1)
        × ((push push_task task p).wait_queue ≡ p.wait_queue)
        × ((push push_task task p).triggers ≡ p.triggers)
        × ((push push_task task p).scripts ≡ p.scripts)
  unfolding push
  push-tasks task p = ground arith

  -- The loop over tokens that are all given out goes to what follows them.
  notify_all-append :
      (ids rest : List ℤ) (task : Option ℕ) (p : Pool Q)
      → IsValid p.wait_queue
      → Given p.wait_queue ids
      → (task' : Option ℕ) × (p' : Pool Q) × (notify_all push_task (ids ++ rest) task p
          ≡ notify_all push_task rest task' p')
        × (p'.tasks ≡ push_all p.tasks (waiters_of p.wait_queue ids))
        × (p'.wait_queue ≡ p.wait_queue)
  unfolding notify_all
  notify_all-append [] rest task p v g = (task, p, refl, refl, refl)
  notify_all-append (pos t ∷ ids) rest task p v (lt, g) =
      let item = get_or (items none p.wait_queue) t none in
      let (task', p', run, tasks, stack) =
        notify_all-append ids rest item (push push_task item p)
          (subst IsValid (sym (push-tasks item p).1) v)
          (subst (λ s. Given s ids) (sym (push-tasks item p).1) g) in
      (
        task',
        p',
        rw (notify_all, found) run,
        tasks
            ∙ ap₂ (λ q s. push_all q (waiters_of s ids)) (push-tasks item p).0
                (push-tasks item p).1,
        stack ∙ (push-tasks item p).1,
      )
    where
      found :
          FastStack.get p.wait_queue (pos t) task
          ≡ some (true, get_or (items none p.wait_queue) t none)
      found =
          get-items none p.wait_queue t task v lt
          ∙ ap (λ x. some (true, x)) (get_or_default (items none p.wait_queue) t task none lt)
  notify_all-append (negsuc t ∷ ids) rest task p v g = elim g [ ]

  -- Where all tokens of a trigger were given out, `notify` pushes the tasks that wait under them,
  -- in the order in which they were registered, each once.
  pub notify-waiters :
      (t : ℕ) (p : Pool Q)
      → IsValid p.wait_queue
      → Given p.wait_queue (get_or p.triggers t [])
      → (p' : Pool Q) × (notify push_task t p ≡ some p')
        × (p'.tasks ≡ push_all p.tasks (waiters_of p.wait_queue (get_or p.triggers t [])))
  unfolding notify notify_all
  notify-waiters t p v g =
      let (task', p', run, tasks, stack) =
        notify_all-append (get_or p.triggers t []) [] none p v g in
      (
        p',
        ap (λ ids. notify_all push_task ids none p) (sym (append-nil (get_or p.triggers t [])))
            ∙ run,
        tasks,
      )
