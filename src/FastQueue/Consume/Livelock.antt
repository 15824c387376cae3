-- ===== src/FastQueue/Consume/Livelock.antt =====
-- `pop` and `pop_hard` of `FastQueue` where every local queue is empty: `pop_hard` returns, and
-- `pop` over three queues or fewer goes round for ever.
use coplus.Prelude.{
  leb, ◌^◌, ℕ, zero, suc, ◌+◌, ◌*◌, ◌%◌, ◌≤◌, ◌<◌, ◌≡◌, refl, ◌⊎◌, inl, inr, Bool, true, false, not,
  ◌||◌, none, some, ltb, ◌==◌, if◌then◌else◌, get_or, set, length, length-set, get_elem?-eq-get_or,
  get_or-set, Bool-cases, arith,
}
use native.Mathlib.Nat.{mod-lt}
use coplus.LocalQueue
use coplus.LocalQueue.{LocalQueue, local_queue_size}
use coplus.LocalQueue.Refine.{IsQuiet, pop-IsQuiet, pop_empty}
use coplus.FastStack
use coplus.FastQueue.{FastQueue, Outcome, running, returned}
use coplus.FastQueue.Consume.{
  absent, popped, owner, visit, pop_loop, pop, scan_up, scan_down, pop_hard,
}

module _ {A : Type 0} (d : A) where
  abbrev pub local_at : FastQueue A → ℕ → LocalQueue A
  local_at q p = get_or q.heap p (LocalQueue.init d local_queue_size)

  -- `n` queues were made, each of which is gone or is a live local queue, and all of these are
  -- empty and at rest.
  pub record IsBarren (n : ℕ) (q : FastQueue A) : Type 0 where
    pub count : FastStack.size q.queue_list ≡ n
    pub owners :
        (t : ℕ)
        → t < n
        → (owner q t ≡ some none) ⊎ ((p : ℕ) × (owner q t ≡ some (some p)) × (p < length q.heap))
    pub quiet : (p : ℕ) → p < length q.heap → IsQuiet local_queue_size (local_at q p)
    pub empty : (p : ℕ) → p < length q.heap → LocalQueue.size (local_at q p) ≡ 0

  -- A visit finds nothing and leaves all as empty as it was.
  data Fruitless (n : ℕ) (q : FastQueue A) (t : ℕ) (ret : A) : Type 0 where
    gone : visit q t ret ≡ some absent → Fruitless n q t ret
    refused :
        (q' : FastQueue A)
        → visit q t ret ≡ some (popped false ret q')
        → IsBarren n q'
        → Fruitless n q t ret

  module _ {n : ℕ} (q : FastQueue A) (b : IsBarren n q) (p : ℕ) (lt : p < length q.heap)
      (ret : A) where
    abbrev after : FastQueue A
    after = record q { heap = set q.heap p (LocalQueue.pop local_queue_size (local_at q p) ret).2 }

    local_at-after :
        (i : ℕ)
        → local_at after i ≡ (
            if p == i then (LocalQueue.pop local_queue_size (local_at q p) ret).2 else local_at q i)
    local_at-after i = get_or-set q.heap p i _ _ lt

    visit_refused :
        (t : ℕ) → owner q t ≡ some (some p) → visit q t ret ≡ some (popped false ret after)
    unfolding visit
    visit_refused t e =
        rw
          (
            visit,
            e,
            get_elem?-eq-get_or q.heap p (LocalQueue.init d local_queue_size) lt,
            (pop_empty d local_queue_size (local_at q p) ret (b.quiet p lt) (b.empty p lt)).0,
            (pop_empty d local_queue_size (local_at q p) ret (b.quiet p lt) (b.empty p lt)).1,
          )
          refl

    kept :
        (i : ℕ)
        → i < length after.heap
        → IsQuiet local_queue_size (local_at after i) × (LocalQueue.size (local_at after i) ≡ 0)
    kept i h = rw (local_at-after i) (elim (Bool-cases (p == i)) [
      | inl e ↦ rw e (
        pop-IsQuiet local_queue_size (local_at q p) ret (b.quiet p lt),
        (pop_empty d local_queue_size (local_at q p) ret (b.quiet p lt) (b.empty p lt)).2,
      )
      | inr e ↦ rw e (b.quiet i (inside i h), b.empty i (inside i h))
    ])
      where
        inside : (i : ℕ) → i < length after.heap → i < length q.heap
        inside i h =
            rw (← length-set q.heap p (LocalQueue.pop local_queue_size (local_at q p) ret).2) h

    after-IsBarren : IsBarren n after
    unfolding owner
    after-IsBarren = record {
      count = b.count;
      owners = λ t h.
          rw (length-set q.heap p (LocalQueue.pop local_queue_size (local_at q p) ret).2)
            (b.owners t h);
      quiet = λ i h. (kept i h).0;
      empty = λ i h. (kept i h).1;
    }

  visit-Fruitless :
      {n : ℕ} (q : FastQueue A) → IsBarren n q → (t : ℕ) → t < n → (ret : A) → Fruitless n q t ret
  unfolding visit
  visit-Fruitless q b t lt ret = elim (b.owners t lt) [
    | inl e ↦ gone (rw (visit, e) refl)
    | inr (p, e, inside) ↦
        refused (after q b p inside ret) (visit_refused q b p inside ret t e)
          (after-IsBarren q b p inside ret)
  ]

  -- On from the second round the loop stands past its first index.
  loops :
      {n : ℕ} (fuel index i cur : ℕ) (q : FastQueue A) (ret : A)
      → IsBarren n q
      → 0 < n
      → n ≤ 3
      → index < n
      → ((i ≡ 0) ⊎ (index < cur))
      → i + fuel < 2 ^ 29
      → cur ≤ 2 * i + 3
      → pop_loop fuel index i cur q ret ≡ running
  unfolding pop_loop
  loops zero index i cur q ret b pos_n small lt c few le = refl
  loops {n} (suc fuel) index i cur q ret b pos_n small lt c few le =
      elim (visit-Fruitless q b (cur % FastStack.size q.queue_list) low ret) [
        | gone e ↦
            rw (pop_loop, in_int, again, some_size, e)
              (loops fuel index (i + 1) _ q ret b pos_n small lt (inr past) (omega (arith, few))
                next_le)
        | refused q' e b' ↦
            rw (pop_loop, in_int, again, some_size, e)
              (loops fuel index (i + 1) _ q' ret b' pos_n small lt (inr past) (omega (arith, few))
                next_le)
      ]
    where
      in_int : leb (2 ^ 31) cur ≡ false
      in_int = ground (arith, few, le)

      again : (i == 0 || not (cur == index)) ≡ true
      again = ground arith

      some_size : (FastStack.size q.queue_list == 0) ≡ false
      some_size = rw b.count (ground arith)

      low : cur % FastStack.size q.queue_list < n
      low = rw b.count (mod-lt cur pos_n)

      next_le : cur % FastStack.size q.queue_list + 2 * (i + 1) + 1 ≤ 2 * (i + 1) + 3
      next_le = omega (arith, low, small)

      past : index < cur % FastStack.size q.queue_list + 2 * (i + 1) + 1
      past = omega arith

  -- Over one, two or three queues, all of them gone or empty and at rest, `pop` is still going round
  -- after any number of rounds below 2^29, within which its counters stay in range, whichever queue it
  -- starts at.
  pub pop_never_returns :
      {n : ℕ} (fuel index : ℕ) (q : FastQueue A) (ret : A)
      → IsBarren n q
      → 0 < n
      → n ≤ 3
      → index < n
      → fuel < 2 ^ 29
      → pop fuel index q ret ≡ running
  unfolding pop
  pop_never_returns fuel index q ret b pos_n small lt few =
      loops fuel index 0 index q ret b pos_n small lt (inl refl) (omega (arith, few))
        (omega (arith, lt, small))

  -- A scan that fails has changed nothing that can be popped.
  abbrev pub Failed : ℕ → A → Outcome (Bool × A × FastQueue A) → Type 0
  Failed n ret out = (q : FastQueue A) × (out ≡ returned (false, ret, q)) × IsBarren n q

  up-Failed :
      {n : ℕ} (fuel index approximate : ℕ) (q : FastQueue A) (ret : A)
      → IsBarren n q
      → approximate ≡ n
      → index ≤ n
      → n < fuel + index
      → Failed n ret (scan_up fuel index approximate q ret)
  unfolding scan_up
  up-Failed zero index approximate q ret b a le h = absurd (omega arith)
  up-Failed {n} (suc fuel) index approximate q ret b a le h =
      elim (Bool-cases (ltb index approximate)) [
        | inr e ↦ rw (scan_up, e) (q, refl, b)
        | inl e ↦ elim (visit-Fruitless q b index (ground arith) ret) [
          | gone ev ↦ rw (scan_up, e, ev) (q, refl, b)
          | refused q' ev b' ↦
              rw (scan_up, e, ev)
                (up-Failed fuel (index + 1) _ q' ret b' (again q' b') (ground arith) (omega arith))
        ]
      ]
    where
      again :
          (q' : FastQueue A)
          → IsBarren n q'
          → (if index + 1 == approximate then FastStack.size q'.queue_list else approximate) ≡ n
      again q' b' =
          rw b'.count
            (elim (Bool-cases (index + 1 == approximate)) [ inl e ↦ rw e refl | inr e ↦ rw e a ])

  down-Failed :
      {n : ℕ} (fuel middle index : ℕ) (q : FastQueue A) (ret : A)
      → IsBarren n q
      → index ≤ middle
      → middle < n
      → n < fuel
      → Failed n ret (scan_down fuel middle n index q ret)
  unfolding scan_down
  down-Failed fuel middle zero q ret b le lt h = elim (visit-Fruitless q b zero (omega arith) ret) [
    | gone e ↦
        rw (scan_down, e) (up-Failed fuel (middle + 1) _ q ret b refl (omega arith) (omega arith))
    | refused q' e b' ↦
        rw (scan_down, e) (up-Failed fuel (middle + 1) _ q' ret b' refl (omega arith) (omega arith))
  ]
  down-Failed fuel middle (suc index) q ret b le lt h =
      elim (visit-Fruitless q b (suc index) (omega arith) ret) [
        | gone e ↦ rw (scan_down, e) (down-Failed fuel middle index q ret b (omega arith) lt h)
        | refused q' e b' ↦
            rw (scan_down, e) (down-Failed fuel middle index q' ret b' (omega arith) lt h)
      ]

  -- Where all queues are gone or empty and at rest, `pop_hard` returns false from whichever queue
  -- it starts at, leaves the result alone, and leaves all queues as empty as they were.
  pub pop_hard_fails :
      {n : ℕ} (fuel middle : ℕ) (q : FastQueue A) (ret : A)
      → IsBarren n q
      → middle < n
      → n < fuel
      → Failed n ret (pop_hard fuel middle q ret)
  unfolding pop_hard
  pop_hard_fails fuel middle q ret b lt h =
      rw b.count (down-Failed fuel middle middle q ret b (omega arith) lt h)
