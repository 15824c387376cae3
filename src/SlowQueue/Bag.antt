-- ===== src/SlowQueue/Bag.antt =====
-- A `SlowQueue` over any sequence of calls, as the free list uses it: no token is lost or invented.
use mathlib.Core.List.{perm_append_singleton, perm_append_comm}
use mathlib.Core.List.Perm
use coplus.Prelude.{
  ℕ, ◌≡◌, List, [], ◌∷◌, ◌++◌, Bool, Perm, append_assoc, ◌+◌, ◌&&◌, ◌==◌, Bool-cases, length, inl,
  inr, subst, sym,
}
use coplus.Fifo
use coplus.Fifo.{when}
use coplus.SlowQueue.{SlowQueue, push, pop}
use coplus.SlowQueue.Order.{IsValid, contents, rotate, push-IsValid, pop-IsValid}
use coplus.SlowQueue.Refine.{ring_push, push-ring_push, pop-front}

pub data Call (A : Type 0) : Type 0 where
  put : A → Call A
  get : Call A

-- What a sequence of calls took in and gave out, and the queue that it left.
pub record Trace (A : Type 0) : Type 0 where
  pub taken : List A
  pub given : List A
  pub left : SlowQueue A

module _ {A : Type 0} where
  -- `ret` starts each `get` afresh.
  unfoldable pub run : A → SlowQueue A → List (Call A) → Trace A
  run ret q [] = record { taken = []; given = []; left = q }
  run ret q (put x ∷ cs) =
      let (done, q') = push q x in
      let t = run ret q' cs in record t { taken = when done x ++ t.taken }
  run ret q (get ∷ cs) =
      let (done, out, q') = pop q ret in
      let t = run ret q' cs in record t { given = when done out ++ t.given }

  rotate-perm : (xs : List A) → Perm xs (rotate xs)
  rotate-perm [] = Perm.refl []
  rotate-perm (x ∷ xs) = Perm.symm (perm_append_singleton x xs)

  ring_push-perm :
      (cap : ℕ) (z : Bool) (xs : List A) (x : A)
      → Perm (when (ring_push cap z xs x).0 x ++ xs) (ring_push cap z xs x).1
  ring_push-perm cap z xs x = elim (Bool-cases (length xs == cap)) [
    | inl full ↦ rw full (Perm.refl xs)
    | inr room ↦ elim (Bool-cases (z && length xs + 1 == cap)) [
      | inl r ↦
          rw (room, r)
            (Perm.trans (Perm.symm (perm_append_singleton x xs)) (rotate-perm (xs ++ x ∷ [])))
      | inr r ↦ rw (room, r) (Perm.symm (perm_append_singleton x xs))
    ]
  ]

  push-perm :
      (d : A) (q : SlowQueue A) (x : A)
      → IsValid q
      → Perm (when (push q x).0 x ++ contents d q) (contents d (push q x).1)
  push-perm d q x v =
      subst (λ r. Perm (when r.0 x ++ contents d q) r.1) (sym (push-ring_push d q x v))
        (ring_push-perm q.max_size (q.head == 0) (contents d q) x)

  pop-eq :
      (d : A) (q : SlowQueue A) (ret : A)
      → IsValid q
      → contents d q ≡ when (pop q ret).0 (pop q ret).1 ++ contents d (pop q ret).2
  pop-eq d q ret v =
      subst (λ r. contents d q ≡ when r.0 r.1 ++ r.2) (sym (pop-front d q ret v))
        (Fifo.pop-eq (contents d q) ret)

  take_in :
      (os ts c c' r : List A) → Perm (os ++ c) c' → Perm (ts ++ c') r → Perm ((os ++ ts) ++ c) r
  take_in os ts c c' r p ih =
      Perm.trans (Perm.append_right c (perm_append_comm os ts))
        (rw append_assoc (Perm.trans (Perm.append_left ts p) ih))

  give_out :
      (os ts gs c c' l : List A)
      → c ≡ os ++ c'
      → Perm (ts ++ c') (gs ++ l)
      → Perm (ts ++ c) ((os ++ gs) ++ l)
  give_out os ts gs c c' l e ih =
      rw (e, append_assoc os gs l, ← append_assoc ts os c')
        (Perm.trans (Perm.append_right c' (perm_append_comm ts os))
          (rw append_assoc (Perm.append_left os ih)))

  -- After any calls: what was taken in beside the old contents is what was given out beside the
  -- new contents, each as often.
  pub run-perm :
      (d ret : A) (q : SlowQueue A) (cs : List (Call A))
      → IsValid q
      → let t = run ret q cs in
        Perm (t.taken ++ contents d q) (t.given ++ contents d t.left) × IsValid t.left
  unfolding run
  run-perm d ret q [] v = (Perm.refl _, v)
  run-perm d ret q (put x ∷ cs) v =
      let ih = run-perm d ret (push q x).1 cs (push-IsValid q x v) in
      (take_in (when (push q x).0 x) _ _ _ _ (push-perm d q x v) ih.0, ih.1)
  run-perm d ret q (get ∷ cs) v =
      let ih = run-perm d ret (pop q ret).2 cs (pop-IsValid q ret v) in
      (give_out (when (pop q ret).0 (pop q ret).1) _ _ _ _ _ (pop-eq d q ret v) ih.0, ih.1)
