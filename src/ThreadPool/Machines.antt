-- ===== src/ThreadPool/Machines.antt =====
-- The threads of the pool: `Machine` of include/coplus/machine.h, and the constructor, `resize` and
-- `close` of `ThreadPool`. A machine's thread runs until it is told to close.
use coplus.Prelude.{
  ℕ, zero, suc, ◌+◌, ◌-◌, ◌%◌, ◌^◌, ◌≤◌, ◌<◌, ◌≡◌, refl, List, [], ◌∷◌, ◌++◌, Bool, true, false,
  Option, none, some, ltb, if◌then◌else◌, length, length-append, replicate, length-replicate, map,
  Bool-cases, inl, inr, arith,
}

pub record Machine : Type 0 where
  pub closed : Bool
  pub job_count : ℕ

-- A machine that the constructor starts.
abbrev pub started : Machine
started = record { closed = false; job_count = 0 }

-- `restart`: whether a thread was started.
unfoldable pub restart : Machine → Bool
restart m = m.closed

-- `join`: the signal to the thread, and the wait for its end.
unfoldable pub join : Machine → Machine
join m = if m.closed then m else record m { closed = true }

-- A round of the thread's loop, with what its function returned.
unfoldable pub round : Bool → Machine → Machine
round ran m = if ran then record m { job_count = m.job_count + 1 } else m

pub record Machines : Type 0 where
  pub thread_size : ℕ
  pub machines : List Machine

-- The constructor: `threadSize - 1` is a `size_t`, which wraps where `hardware_concurrency` gives 0.
unfoldable pub start : ℕ → Machines
start concurrency = record {
  thread_size = concurrency;
  machines = replicate ((concurrency + (2 ^ 64 - 1)) % 2 ^ 64) started;
}

-- The first `n` machines stay, and the others are joined; `none` where there are fewer.
cut : ℕ → List Machine → Option (List Machine × List Machine)
unfolding join
cut zero ms = some ([], map join ms)
cut (suc n) [] = none
cut (suc n) (m ∷ ms) = elim (cut n ms) [ none ↦ none | some (kept, gone) ↦ some (m ∷ kept, gone) ]

-- `resize`: the pool, and the machines that are destroyed. `none` is a range past the end.
unfoldable pub resize : ℕ → Machines → Option (Machines × List Machine)
unfolding cut
resize new_size p = elim (ltb new_size p.thread_size) [
  | true ↦ elim (cut new_size p.machines) [
    | none ↦ none
    | some (kept, gone) ↦ some (record { thread_size = new_size; machines = kept }, gone)
  ]
  | false ↦
      (if ltb p.thread_size new_size
        then some (
          record {
            thread_size = new_size;
            machines = p.machines ++ replicate (new_size - p.thread_size) started;
          },
          [],
        )
        else some (record p { thread_size = new_size }, []))
]

unfoldable pub close : Machines → Machines
unfolding join
close p = record p { machines = map join p.machines }

-- All machines are closed, or all are running.
abbrev pub AllAre : Bool → List Machine → Type 0
AllAre b [] = Unit
AllAre b (m ∷ ms) = (m.closed ≡ b) × AllAre b ms

-- A pool that serves: its machines run, and there are as many as threads or one fewer.
pub record IsServing (p : Machines) : Type 0 where
  pub running : AllAre false p.machines
  pub few : length p.machines ≤ p.thread_size
  pub enough : p.thread_size ≤ suc (length p.machines)

joined : (ms : List Machine) → AllAre true (map join ms)
unfolding join
joined [] = tt
joined (m ∷ ms) = (ground arith, joined ms)

cut_lem :
    (n : ℕ) (ms : List Machine)
    → AllAre false ms
    → n ≤ length ms
    → (kept : List Machine) × (gone : List Machine) × (cut n ms ≡ some (kept, gone))
      × AllAre false kept
      × (length kept ≡ n)
      × AllAre true gone
unfolding cut
cut_lem zero ms a h = ([], map join ms, refl, tt, refl, joined ms)
cut_lem (suc n) [] a h = absurd (omega arith)
cut_lem (suc n) (m ∷ ms) (e, a) h =
    let (kept, gone, run, run', len, cl) = cut_lem n ms a (omega arith) in
    (m ∷ kept, gone, rw (cut, run) refl, (e, run'), omega (arith, len), cl)

started_all : (n : ℕ) → AllAre false (replicate n started)
started_all zero = tt
started_all (suc n) = (refl, started_all n)

AllAre-append : (b : Bool) (xs ys : List Machine) → AllAre b xs → AllAre b ys → AllAre b (xs ++ ys)
AllAre-append b [] ys a c = c
AllAre-append b (x ∷ xs) ys (e, a) c = (e, AllAre-append b xs ys a c)

-- `start` on a machine that has a processor.
pub start-IsServing : (n : ℕ) → 0 < n → n < 2 ^ 64 → IsServing (start n)
unfolding start
start-IsServing n h k = record {
  running = started_all ((n + (2 ^ 64 - 1)) % 2 ^ 64);
  few = omega (arith, length-replicate ((n + (2 ^ 64 - 1)) % 2 ^ 64) started);
  enough = omega (arith, length-replicate ((n + (2 ^ 64 - 1)) % 2 ^ 64) started);
}

-- A pool that serves can be resized to any size: the pool serves with that size, and the machines
-- that are destroyed were joined before.
pub resize-IsServing :
    (n : ℕ) (p : Machines)
    → IsServing p
    → (p' : Machines) × (gone : List Machine) × (resize n p ≡ some (p', gone))
      × IsServing p'
      × (p'.thread_size ≡ n)
      × AllAre true gone
unfolding resize
resize-IsServing n p v = elim (Bool-cases (ltb n p.thread_size)) [
  | inl e ↦
      let (kept, gone, run, running, len, cl) =
        cut_lem n p.machines v.running (ground (arith, v.enough)) in
      (
        _,
        gone,
        rw (resize, e, run) refl,
        record { running = running; few = omega (arith, len); enough = omega (arith, len) },
        refl,
        cl,
      )
  | inr e ↦ elim (Bool-cases (ltb p.thread_size n)) [
    | inl f ↦ (_, [], rw (resize, e, f) refl, grown (ground arith), refl, tt)
    | inr f ↦ (
      _,
      [],
      rw (resize, e, f) refl,
      record {
        running = v.running;
        few = ground (arith, v.few);
        enough = ground (arith, v.enough);
      },
      refl,
      tt,
    )
  ]
]
  where
    grown :
        p.thread_size < n
        → IsServing (record {
          thread_size = n;
          machines = p.machines ++ replicate (n - p.thread_size) started;
        })
    grown lt =
        let len = length-append p.machines (replicate (n - p.thread_size) started) in
        let more = length-replicate (n - p.thread_size) started in
        record {
          running =
              AllAre-append false p.machines (replicate (n - p.thread_size) started) v.running
                (started_all (n - p.thread_size));
          few = omega (arith, len, more, v.few);
          enough = omega (arith, len, more, v.enough);
        }

-- After `close` no machine of the pool runs.
pub close-all : (p : Machines) → AllAre true (close p).machines
unfolding close
close-all p = joined p.machines
