-- ===== src/LocalQueue/Refine.antt =====
-- Between calls a `FastLocalQueue` is a bounded first-in first-out queue, also where its 32-bit
-- counters wrap.
use coplus.Prelude.{
  ℕ, zero, suc, ◌+◌, ◌-◌, ◌%◌, ◌^◌, ◌≤◌, ◌<◌, ◌≡◌, ◌≢◌, refl, ap, ap₂, sym, ◌∙◌, inl, inr, List, [],
  ◌∷◌, ◌++◌, Bool, true, false, ◌==◌, length, get_or, set, tabulate, length-tabulate, tabulate-ext,
  tabulate-suc, Bool-cases, ==_iff, get_or_default, get_or-set_self, get_or-set_ne, length-set,
  length-replicate, add32, sub32, arith,
}
use native.Mathlib.Nat.{
  mod-lt, mod-eq_of_lt, mod-add-mod, mod-eq-sub-mod, mod-mod_of_dvd, dvd_iff_mod-eq-zero,
}
use native.Mathlib.Decide.{dec_lt}
use coplus.Fifo
use coplus.LocalQueue.{LocalQueue, init, push, pop, size}

-- What holds between calls: the successful calls counted by the outer and by the inner counters
-- agree, at most `queue_size` items are in, and the slots go round evenly when the counters wrap.
pub record IsQuiet {A : Type 0} (queue_size : ℕ) (q : LocalQueue A) : Type 0 where
  pub some_room : 0 < queue_size
  pub small : queue_size ≤ 2 ^ 31
  pub even : 2 ^ 32 % queue_size ≡ 0
  pub cells : length q.cells ≡ queue_size
  pub head_in : q.head < 2 ^ 32
  pub tail_in : q.tail < 2 ^ 32
  pub enqueue_in : q.enqueue_count < 2 ^ 32
  pub enqueue_revoke_in : q.enqueue_revoke < 2 ^ 32
  pub dequeue_in : q.dequeue_count < 2 ^ 32
  pub dequeue_revoke_in : q.dequeue_revoke < 2 ^ 32
  pub enqueued : sub32 q.enqueue_count q.enqueue_revoke ≡ q.tail
  pub dequeued : sub32 q.dequeue_count q.dequeue_revoke ≡ q.head
  pub tail_fast : q.tail_fast ≡ q.tail
  pub head_fast : q.head_fast ≡ q.head
  pub fits : sub32 q.tail q.head ≤ queue_size

module _ {A : Type 0} where
  pub init-IsQuiet : (d : A) (n : ℕ) → 0 < n → n ≤ 2 ^ 31 → 2 ^ 32 % n ≡ 0 → IsQuiet n (init d n)
  unfolding init
  init-IsQuiet d n h k e = record {
    some_room = h;
    small = k;
    even = e;
    cells = length-replicate n d;
    head_in = omega arith;
    tail_in = omega arith;
    enqueue_in = omega arith;
    enqueue_revoke_in = omega arith;
    dequeue_in = omega arith;
    dequeue_revoke_in = omega arith;
    enqueued = refl;
    dequeued = refl;
    tail_fast = refl;
    head_fast = refl;
    fits = omega arith;
  }

  pub push-IsQuiet : (n : ℕ) (q : LocalQueue A) (x : A) → IsQuiet n q → IsQuiet n (push n q x).1
  unfolding push
  push-IsQuiet n q x v = ground (arith, length-set q.cells (q.tail_fast % n) x)

  pub pop-IsQuiet : (n : ℕ) (q : LocalQueue A) (ret : A) → IsQuiet n q → IsQuiet n (pop n q ret).2
  unfolding pop
  pop-IsQuiet n q ret v = ground arith

-- The slot of the item `k` places behind the head.
abbrev pub slot : ℕ → ℕ → ℕ → ℕ
slot n h k = add32 h k % n

slot-mod : (n h k : ℕ) → 2 ^ 32 % n ≡ 0 → slot n h k ≡ (h + k) % n
slot-mod n h k e = mod-mod_of_dvd n (h + k) ((dvd_iff_mod-eq-zero n).1 e)

-- Fewer than `n` places on is another slot.
add-mod-ne : (n x j : ℕ) → 0 < j → j < n → (x + j) % n ≢ x % n
add-mod-ne n x j p lt e = absurd (apart (dec_lt (x % n + j) n))
  where
    low : x % n < n
    low = mod-lt x (omega arith)

    same : (x % n + j) % n ≡ x % n
    same = mod-add-mod x n j ∙ e

    apart : Dec (x % n + j < n) → ⊥
    apart (yes h) = omega (arith, same, low, mod-eq_of_lt h)
    apart (no h) = omega (
      arith,
      same,
      low,
      mod-eq-sub-mod {n = x % n + j} {m = n} (omega arith),
      mod-eq_of_lt {n = x % n + j - n} {m = n} (omega (arith, low)),
    )

slot-ne : (n h k m : ℕ) → 2 ^ 32 % n ≡ 0 → k < m → m < n → slot n h m ≢ slot n h k
slot-ne n h k m e lt le eq =
    add-mod-ne n (h + k) (m - k) (omega arith) (omega arith)
      (ap (λ i. i % n) shift ∙ sym (slot-mod n h m e) ∙ eq ∙ slot-mod n h k e)
  where
    shift : h + k + (m - k) ≡ h + m
    shift = omega arith

slot-suc : (n h k : ℕ) → slot n h (suc k) ≡ slot n (add32 h 1) k
slot-suc n h k = ap (λ i. i % n) (omega arith)

module _ {A : Type 0} (d : A) (n : ℕ) where
  abbrev pub window : List A → ℕ → ℕ → List A
  window cells h m = tabulate m (λ k. get_or cells (slot n h k) d)

  -- What the queue holds, oldest first.
  abbrev pub contents : LocalQueue A → List A
  contents q = window q.cells q.head (size q)

  pub window-set :
      (cells : List A) (h m i : ℕ) (x : A)
      → 2 ^ 32 % n ≡ 0
      → m < n
      → i ≡ slot n h m
      → i < length cells
      → window (set cells i x) h (suc m) ≡ window cells h m ++ x ∷ []
  window-set cells h m i x even lt e inside =
      tabulate-suc m _
      ∙ ap₂ (λ xs y. xs ++ y ∷ [])
          (tabulate-ext m _ _
            (λ k p. get_or-set_ne cells i (slot n h k) x d (rw e (slot-ne n h k m even p lt))))
          (rw (← e) (get_or-set_self cells i x d inside))

  pub window-suc :
      (cells : List A) (h m : ℕ)
      → h < 2 ^ 32
      → window cells h (suc m) ≡ get_or cells (h % n) d ∷ window cells (add32 h 1) m
  window-suc cells h m lt =
      ap₂ ◌∷◌ (ap (λ i. get_or cells (i % n) d) first)
        (tabulate-ext m _ _ (λ k p. ap (λ i. get_or cells i d) (slot-suc n h k)))
    where
      first : add32 h 0 ≡ h
      first = omega arith

  size-le : (q : LocalQueue A) → IsQuiet n q → size q ≤ n
  unfolding size
  size-le q v = v.fits

  inside : {q : LocalQueue A} → IsQuiet n q → slot n q.head (size q) < length q.cells
  inside {q} v = omega (arith, v.cells, mod-lt (add32 q.head (size q)) v.some_room)

  pub length-contents : (q : LocalQueue A) → length (contents q) ≡ size q
  length-contents q = length-tabulate (size q) _

  pub push_full :
      (q : LocalQueue A) (x : A)
      → IsQuiet n q
      → size q ≡ n
      → ((push n q x).0 ≡ false)
        × ((push n q x).1.cells ≡ q.cells)
        × ((push n q x).1.head ≡ q.head)
        × (size (push n q x).1 ≡ size q)
  unfolding push size
  push_full q x v e = ground arith

  pub push_room :
      (q : LocalQueue A) (x : A)
      → IsQuiet n q
      → size q < n
      → ((push n q x).0 ≡ true)
        × ((push n q x).1.cells ≡ set q.cells (slot n q.head (size q)) x)
        × ((push n q x).1.head ≡ q.head)
        × (size (push n q x).1 ≡ suc (size q))
  unfolding push size
  push_room q x v h = ground arith

  pub pop_empty :
      (q : LocalQueue A) (ret : A)
      → IsQuiet n q
      → size q ≡ 0
      → ((pop n q ret).0 ≡ false) × ((pop n q ret).1 ≡ ret) × (size (pop n q ret).2 ≡ 0)
  unfolding pop size
  pop_empty q ret v e = ground arith

  pub pop_some :
      (q : LocalQueue A) (ret : A) (m : ℕ)
      → IsQuiet n q
      → size q ≡ suc m
      → ((pop n q ret).0 ≡ true)
        × ((pop n q ret).1 ≡ get_or q.cells (q.head % n) ret)
        × ((pop n q ret).2.cells ≡ q.cells)
        × ((pop n q ret).2.head ≡ add32 q.head 1)
        × (size (pop n q ret).2 ≡ m)
  unfolding pop size
  pop_some q ret m v e = ground arith

  contents-eq :
      (q : LocalQueue A) {cells : List A} {h m : ℕ}
      → q.cells ≡ cells
      → q.head ≡ h
      → size q ≡ m
      → contents q ≡ window cells h m
  contents-eq q ec eh em = rw (em, ec, eh)

  -- `push` refuses exactly a full queue, which keeps its contents, and else appends.
  push_refines :
      (q : LocalQueue A) (x : A)
      → IsQuiet n q
      → let (done, q') = push n q x in
        ◌≡◌ {A = Bool × List A} (done, contents q') (Fifo.push n (contents q) x)
  push_refines q x v = elim (Bool-cases (size q == n)) [
    | inl t ↦
        let f = push_full q x v ((==_iff _ _).0 t) in
        rw (length-contents q, t, f.0) (ap (λ xs. (false, xs)) (contents-eq _ f.1 f.2 f.3))
    | inr t ↦
        let r = push_room q x v (ground (arith, size-le q v)) in
        rw (length-contents q, t, r.0)
          (ap (λ xs. (true, xs))
            (contents-eq _ r.1 r.2 r.3
              ∙ window-set q.cells q.head (size q) _ x v.even (ground (arith, size-le q v)) refl
                  (inside v)))
  ]

  contents-pop :
      (q : LocalQueue A) (ret : A) (m : ℕ)
      → IsQuiet n q
      → size q ≡ suc m
      → contents q ≡ (pop n q ret).1 ∷ contents (pop n q ret).2
  contents-pop q ret m v e =
      contents-eq q refl refl e
      ∙ window-suc q.cells q.head m v.head_in
      ∙ ap₂ ◌∷◌ (get_or_default q.cells (q.head % n) d ret at_head ∙ sym p.1)
          (sym (contents-eq (pop n q ret).2 p.2 p.3 p.4))
    where
      p :
          ((pop n q ret).0 ≡ true)
          × ((pop n q ret).1 ≡ get_or q.cells (q.head % n) ret)
          × ((pop n q ret).2.cells ≡ q.cells)
          × ((pop n q ret).2.head ≡ add32 q.head 1)
          × (size (pop n q ret).2 ≡ m)
      p = pop_some q ret m v e

      at_head : q.head % n < length q.cells
      at_head = omega (arith, v.cells, mod-lt q.head v.some_room)

  -- `pop` takes the oldest item, and from an empty queue nothing.
  pop_refines :
      (q : LocalQueue A) (ret : A)
      → IsQuiet n q
      → let (done, out, q') = pop n q ret in
        ◌≡◌ {A = Bool × A × List A} (done, out, contents q') (Fifo.pop (contents q) ret)
  pop_refines q ret v = go (size q) refl
    where
      go :
          (m : ℕ)
          → size q ≡ m
          → ◌≡◌ {A = Bool × A × List A}
              ((pop n q ret).0, (pop n q ret).1, contents (pop n q ret).2)
              (Fifo.pop (contents q) ret)
      go zero e =
          let p = pop_empty q ret v e in
          rw (p.0, p.1, contents-eq (pop n q ret).2 refl refl p.2, contents-eq q refl refl e)
      go (suc m) e = rw (contents-pop q ret m v e, (pop_some q ret m v e).0)

  -- Between calls, on a queue whose size divides 2^32, also where the counters wrap: `push` refuses
  -- exactly a full queue, which keeps its contents, and else appends; `pop` takes the oldest item, and from an empty queue nothing, so that
  -- what it would write stays as it was.
  pub calls_refine :
      (q : LocalQueue A) (x ret : A)
      → IsQuiet n q
      → (let (done, q') = push n q x in
          ◌≡◌ {A = Bool × List A} (done, contents q') (Fifo.push n (contents q) x))
        × (let (done, out, q') = pop n q ret in
            ◌≡◌ {A = Bool × A × List A} (done, out, contents q') (Fifo.pop (contents q) ret))
  calls_refine q x ret v = (push_refines q x v, pop_refines q ret v)
