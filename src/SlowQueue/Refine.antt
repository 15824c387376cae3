-- ===== src/SlowQueue/Refine.antt =====
-- What each method of `SlowQueue` does to the contents of its ring, on every branch.
use coplus.Prelude.{
  ℕ, zero, suc, ◌+◌, ◌<◌, ◌≡◌, refl, ap, ap₂, sym, ◌∙◌, ◌⊎◌, inl, inr, List, [], ◌∷◌, ◌++◌, Bool,
  true, false, ◌&&◌, ◌==◌, if◌then◌else◌, length, get_or, set, length-tabulate, Bool-cases, ==_iff,
  get_or_default, arith,
}
use coplus.Fifo
use coplus.SlowQueue.{SlowQueue, push, pop, size}
use coplus.SlowQueue.Order.{
  IsValid, contents, rotate, window, window-set, window-suc, window_rotated, position, size-le,
}

module _ {A : Type 0} where
  -- A full queue refuses. Filling the last cell of a ring that starts at 0 puts the oldest last.
  abbrev pub ring_push : ℕ → Bool → List A → A → Bool × List A
  ring_push cap at_zero xs x =
      if length xs == cap
      then (false, xs)
      else if at_zero && length xs + 1 == cap
      then (true, rotate (xs ++ x ∷ []))
      else (true, xs ++ x ∷ [])

  pub length-contents : (d : A) (q : SlowQueue A) → length (contents d q) ≡ size q
  length-contents d q = length-tabulate (size q) _

  -- The branch of `pop` on an empty queue.
  pub pop_empty : (q : SlowQueue A) (ret : A) → IsValid q → size q ≡ 0 → pop q ret ≡ (false, ret, q)
  unfolding pop size
  pop_empty q ret v e = ground arith

  -- The other branches of `pop`.
  record Popped (q : SlowQueue A) (ret : A) (n : ℕ) : Type 0 where
    done : (pop q ret).0 ≡ true
    out : (pop q ret).1 ≡ get_or q.ring q.head ret
    ring : (pop q ret).2.ring ≡ q.ring
    cap : (pop q ret).2.max_size ≡ q.max_size
    left : size (pop q ret).2 ≡ n
    start : (n ≡ 0) ⊎ ((pop q ret).2.head ≡ position q.max_size q.head 1)

  pop-Popped : (q : SlowQueue A) (ret : A) (n : ℕ) → IsValid q → size q ≡ suc n → Popped q ret n
  unfolding pop size
  pop-Popped q ret n v e = record {
    done = ground arith;
    out = ground arith;
    ring = ground arith;
    cap = ground arith;
    left = ground arith;
    start = ground arith;
  }

  -- `push` on a queue with room that does not fill a ring from 0.
  record Pushed (q : SlowQueue A) (x : A) : Type 0 where
    done : (push q x).0 ≡ true
    ring : (push q x).1.ring ≡ set q.ring (position q.max_size q.head (size q)) x
    cap : (push q x).1.max_size ≡ q.max_size
    count : size (push q x).1 ≡ size q + 1
    start : (push q x).1.head ≡ (if q.head == 0 && size q + 1 == q.max_size then 1 else q.head)

  push-Pushed : (q : SlowQueue A) (x : A) → IsValid q → size q < q.max_size → Pushed q x
  unfolding push size
  push-Pushed q x v h = record {
    done = ground arith;
    ring = ground arith;
    cap = ground arith;
    count = ground arith;
    start = ground arith;
  }

  pub push_full :
      (q : SlowQueue A) (x : A) → IsValid q → size q ≡ q.max_size → push q x ≡ (false, q)
  unfolding push size
  push_full q x v e = ground arith

  window-eq :
      (d : A) (ring : List A) (m h h' n : ℕ)
      → (n ≡ 0) ⊎ (h' ≡ h)
      → window d ring m h' n ≡ window d ring m h n
  window-eq d ring m h h' n (inl z) = rw z
  window-eq d ring m h h' n (inr e) = rw e

  -- What a window over equal parts shows is equal.
  contents-eq :
      (d : A) (q : SlowQueue A) {ring : List A} {m h n : ℕ}
      → q.ring ≡ ring
      → q.max_size ≡ m
      → (n ≡ 0) ⊎ (q.head ≡ h)
      → size q ≡ n
      → contents d q ≡ window d ring m h n
  contents-eq d q {ring} {m} {h} {n} er em eh en =
      rw (en, er, em) (window-eq d ring m h q.head n eh)

  contents-pop :
      (d : A) (q : SlowQueue A) (ret : A) (n : ℕ)
      → IsValid q
      → size q ≡ suc n
      → contents d q ≡ (pop q ret).1 ∷ contents d (pop q ret).2
  contents-pop d q ret n v e =
      contents-eq d q refl refl (inr refl) e
      ∙ window-suc d q.ring q.max_size q.head (position q.max_size q.head 1) n v.head_in below refl
      ∙ ap₂ ◌∷◌ (get_or_default q.ring q.head d ret inside ∙ sym p.out)
          (sym (contents-eq d (pop q ret).2 p.ring p.cap p.start p.left))
    where
      p : Popped q ret n
      p = pop-Popped q ret n v e

      below : n < q.max_size
      below = omega (arith, size-le q v)

      inside : q.head < length q.ring
      inside = omega arith

  -- `pop` takes the front of the contents, and on an empty queue changes nothing and fails.
  pub pop-front :
      (d : A) (q : SlowQueue A) (ret : A)
      → IsValid q
      → let (done, out, q') = pop q ret in (done, out, contents d q') ≡ Fifo.pop (contents d q) ret
  pop-front d q ret v = go (size q) refl
    where
      go :
          (n : ℕ)
          → size q ≡ n
          → ((pop q ret).0, (pop q ret).1, contents d (pop q ret).2) ≡ Fifo.pop (contents d q) ret
      go zero e = rw (pop_empty q ret v e, contents-eq d q refl refl (inr refl) e)
      go (suc n) e = rw (contents-pop d q ret n v e, (pop-Popped q ret n v e).done)

  contents-push :
      (d : A) (q : SlowQueue A) (x : A)
      → IsValid q
      → size q < q.max_size
      → contents d (push q x).1 ≡ (
          if q.head == 0 && size q + 1 == q.max_size
          then rotate (contents d q ++ x ∷ [])
          else contents d q ++ x ∷ [])
  contents-push d q x v room = elim (Bool-cases (q.head == 0 && size q + 1 == q.max_size)) [
    | inl t ↦
        rw t (
          seen 1 (p.start ∙ rw t) ∙ window_rotated d _ _ _ (ground arith) ∙ ap rotate (from_zero t))
    | inr f ↦ rw f (seen q.head (p.start ∙ rw f) ∙ written)
  ]
    where
      open q use {ring, max_size, head}

      i : ℕ
      i = position max_size head (size q)

      p : Pushed q x
      p = push-Pushed q x v room

      seen :
          (h : ℕ)
          → (push q x).1.head ≡ h
          → contents d (push q x).1 ≡ window d (set ring i x) max_size h (suc (size q))
      seen h e =
          let n : size (push q x).1 ≡ suc (size q) = omega (arith, p.count) in
          contents-eq d (push q x).1 p.ring p.cap (inr e) n

      written : window d (set ring i x) max_size head (suc (size q)) ≡ contents d q ++ x ∷ []
      written = window-set d ring max_size head (size q) i x v.full_length v.head_in room refl

      from_zero :
          (q.head == 0 && size q + 1 == q.max_size) ≡ true
          → window d (set ring i x) max_size 0 (suc (size q)) ≡ contents d q ++ x ∷ []
      from_zero t =
          let z : 0 ≡ head = ground arith in
          ap (λ h. window d (set ring i x) max_size h (suc (size q))) z ∙ written

  if-pair :
      (b : Bool) (xs ys : List A)
      → ◌≡◌ {A = Bool × List A} (true, if b then xs else ys) (if b then (true, xs) else (true, ys))
  if-pair true xs ys = refl
  if-pair false xs ys = refl

  -- `push` refuses exactly a full queue, and else appends; a ring filled from 0 ends up rotated.
  pub push-ring_push :
      (d : A) (q : SlowQueue A) (x : A)
      → IsValid q
      → let (done, q') = push q x in
        (done, contents d q') ≡ ring_push q.max_size (q.head == 0) (contents d q) x
  push-ring_push d q x v = elim (Bool-cases (size q == q.max_size)) [
    | inl t ↦ rw (push_full q x v ((==_iff _ _).0 t), length-contents d q, t)
    | inr f ↦
        let room : size q < q.max_size = ground (arith, size-le q v) in
        rw (length-contents d q, f, contents-push d q x v room, (push-Pushed q x v room).done)
          (if-pair (q.head == 0 && size q + 1 == q.max_size) _ _)
  ]

  -- On a valid ring: `push` refuses exactly a full one, and else appends, where a ring filled from 0
  -- ends up rotated; `pop` takes the front of the contents, and on an empty one fails and changes
  -- nothing.
  pub ring_calls_refine :
      (d : A) (q : SlowQueue A) (x ret : A)
      → IsValid q
      → (let (done, q') = push q x in
          (done, contents d q') ≡ ring_push q.max_size (q.head == 0) (contents d q) x)
        × (let (done, out, q') = pop q ret in
            (done, out, contents d q') ≡ Fifo.pop (contents d q) ret)
  ring_calls_refine d q x ret v = (push-ring_push d q x v, pop-front d q ret v)
