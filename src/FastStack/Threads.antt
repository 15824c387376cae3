-- ===== src/FastStack/Threads.antt =====
-- `PushOnlyFastStack` of include/coplus/fast_queue.h under threads: any number of them push and
-- get, one shared access at a time.
pub mod Invariant
pub mod Found
mod Tests
use coplus.Prelude.{
  ℕ, suc, ◌+◌, ◌-◌, ◌*◌, ◌/◌, ◌%◌, ◌<◌, ◌≡◌, Bool, true, false, Option, none, some, leb, ltb, ◌==◌,
  if◌then◌else◌, add32, assign,
}
use coplus.FastStack.{to_size}

-- Where a thread stands. In `push` of an item: the slot is taken; the chunk was found missing; a
-- chunk was made; a chunk is at hand. In `get` of a token: before the load, and with the chunk.
pub data Thread (A : Type 0) : Type 0 where
  idle : Thread A
  claimed : A → ℕ → Thread A
  missing : A → ℕ → Thread A
  allocated : A → ℕ → ℕ → Thread A
  holding : A → ℕ → ℕ → Thread A
  getting : ℕ → Thread A
  reading : ℕ → ℕ → Thread A

-- Chunks have numbers in the order in which they are made. `log` has, for each token, the item of
-- the push that returned it; no code reads it.
pub record Shared (A : Type 0) : Type 0 where
  pub end : ℕ
  pub stacks : ℕ → Option ℕ
  pub cells : ℕ → ℕ → A
  pub made : ℕ
  pub is_deleted : ℕ → Bool
  pub threads : ℕ → Thread A
  pub log : ℕ → Option A

module _ {A : Type 0} where
  abbrev pub become : ℕ → Thread A → Shared A → Shared A
  become i th s = record s { threads = assign s.threads i th }

  -- The load of a chunk pointer, in `push` and in `get`.
  unfoldable pub load : A → ℕ → Option ℕ → Thread A
  load x t none = missing x t
  load x t (some p) = holding x t p

  unfoldable pub load_to_get : ℕ → Option ℕ → Thread A
  load_to_get t none = idle
  load_to_get t (some p) = reading t p

-- The template's `unitSize`, the constructor's `maxSize`, and the value of a new cell.
module _ {A : Type 0} (unit_size max_size : ℕ) (d : A) where
  abbrev pub init : Shared A
  init = record {
    end = 0;
    stacks = λ m. none;
    cells = λ p j. d;
    made = 0;
    is_deleted = λ p. false;
    threads = λ i. idle;
    log = λ t. none;
  }

  -- `push` begins: the slot is taken, or there is none left and -1 is returned.
  unfoldable pub start_push : ℕ → A → Shared A → Shared A
  start_push i x s = record s {
    end = add32 s.end 1;
    threads = assign s.threads i (if leb max_size (to_size s.end) then idle else claimed x s.end);
  }

  -- `atomic_compare_exchange_strong` from the null pointer to the chunk `p`, and what follows.
  unfoldable pub exchange : ℕ → A → ℕ → ℕ → Option ℕ → Shared A → Shared A
  exchange i x t p none s = record s {
    stacks = assign s.stacks (t / unit_size) (some p);
    threads = assign s.threads i (holding x t p);
  }
  exchange i x t p (some q) s = record s {
    is_deleted = assign s.is_deleted p true;
    threads = assign s.threads i (holding x t q);
  }

  -- The next access of the thread `i`, by where it stands.
  unfoldable pub advance : ℕ → Thread A → Shared A → Shared A
  unfolding load load_to_get exchange
  advance i idle s = s
  advance i (claimed x t) s = become i (load x t (s.stacks (t / unit_size))) s
  advance i (missing x t) s = record s {
    cells = assign s.cells s.made (λ j. d);
    made = suc s.made;
    threads = assign s.threads i (allocated x t s.made);
  }
  advance i (allocated x t p) s = exchange i x t p (s.stacks (t / unit_size)) s
  advance i (holding x t p) s = record s {
    cells = assign s.cells p (assign (s.cells p) (t - t / unit_size * unit_size) x);
    threads = assign s.threads i idle;
    log = assign s.log t (some x);
  }
  advance i (getting t) s = become i (load_to_get t (s.stacks (t / unit_size))) s
  advance i (reading t p) s = become i idle s

  -- A thread begins to push or to get a token below `max_size`, or takes its next access.
  pub data Step (s : Shared A) : Shared A → Type 0 where
    pushes : (i : ℕ) (x : A) → s.threads i ≡ idle → Step s (start_push i x s)
    gets : (i t : ℕ) → s.threads i ≡ idle → t < max_size → Step s (become i (getting t) s)
    advances : (i : ℕ) → Step s (advance i (s.threads i) s)

  -- The states after a number of steps.
  pub data Reach : ℕ → Shared A → Type 0 where
    starts : Reach 0 init
    later : {n : ℕ} {s s' : Shared A} → Reach n s → Step s s' → Reach (suc n) s'
