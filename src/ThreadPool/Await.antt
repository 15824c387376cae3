-- ===== src/ThreadPool/Await.antt =====
-- A fiber that awaits a function is pushed again when the function has run.
use coplus.Prelude.{ℕ, ℤ, [], ◌∷◌, ◌++◌, Bool, Option, none, some, set, length}
use coplus.FastStack
use coplus.FastStack.{FastStack}
use coplus.ThreadPool.{Pool, Script, done, notifies, after_call, awaiting}

module _ {Q : Type 0} (push_task : Q → Option ℕ → Bool × Q) (task : ℕ) (s : Script)
    (p : Pool Q) where
  -- The number of the trigger and of the task that `await` makes.
  abbrev pub trigger : ℕ
  trigger = length p.triggers

  abbrev pub awaited : ℕ
  awaited = length p.scripts

  suspended : Pool Q
  suspended = record p {
    triggers = p.triggers ++ [] ∷ [];
    scripts = set (p.scripts ++ notifies trigger done ∷ []) task s;
  }

  parked : Pool Q
  parked = after_call push_task task (awaiting trigger (some awaited)) suspended

  token : ℤ
  token = (FastStack.push none p.wait_queue (some task)).0
