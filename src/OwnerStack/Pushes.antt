-- ===== src/OwnerStack/Pushes.antt =====
-- A list of pushes on a stack of owners, and what the destructor deletes then.
use coplus.Prelude.{
  Perm, ℕ, zero, suc, ◌+◌, ◌-◌, ◌^◌, ◌≤◌, ◌<◌, ◌≡◌, refl, ap, ◌∙◌, List, [], ◌∷◌, ◌++◌, take, subst,
  length, Option, none, some, map, ltb, if◌then◌else◌, Bool-cases, inl, inr, dec_lt, append_assoc,
  append-nil, tabulate, min, arith,
}
use coplus.FastStack.{init}
use coplus.FastStack.Items.{cell, items}
use coplus.FastStack.Push.{push_items, push-Pushed, push_full}
use coplus.OwnerStack.{OwnerStack, push, owned, delete_stack}
use coplus.OwnerStack.Deleted.{delete_stack-perm}
use coplus.OwnerStack.Owned.{IsOwning, init-IsOwning, push-deletes_nothing}

-- The stack is in order, and its items are the objects `ys`.
record Stocked (s : OwnerStack) (ys : List ℕ) : Type 0 where
  owning : IsOwning s
  holds : items none s ≡ map some ys

owned-map : (xs : List ℕ) → owned (map some xs) ≡ xs
owned-map [] = refl
owned-map (x ∷ xs) = ap (λ zs. x ∷ zs) (owned-map xs)

map-snoc :
    (xs : List ℕ) (x : ℕ) → map {B = Option ℕ} some (xs ++ x ∷ []) ≡ map some xs ++ some x ∷ []
map-snoc [] x = refl
map-snoc (y ∷ xs) x = ap (λ zs. some y ∷ zs) (map-snoc xs x)

length-map : (xs : List ℕ) → length (map {B = Option ℕ} some xs) ≡ length xs
length-map [] = refl
length-map (x ∷ xs) = ap suc (length-map xs)

-- A list of pushes: the stack, and the objects that they delete.
abbrev pub push_all : List ℕ → OwnerStack → OwnerStack × List ℕ
push_all [] s = (s, [])
push_all (x ∷ xs) s =
    let (token, s', deleted) = push s x in
    let (last, more) = push_all xs s' in (last, owned (deleted ∷ []) ++ more)

push-Stocked :
    (s : OwnerStack) (x : ℕ) (ys : List ℕ)
    → Stocked s ys
    → s.end < 2 ^ 32 - 1
    → Stocked (push s x).1 (if ltb (length ys) s.max_size then ys ++ x ∷ [] else ys)
unfolding push
push-Stocked s x ys k h = record {
  owning = (push-deletes_nothing s x k.owning h).1;
  holds =
      ap (λ r. r.1) (push_items none s (some x) k.owning.valid h)
      ∙ elim (Bool-cases (ltb (length ys) s.max_size)) [
        | inl e ↦ rw (k.holds, length-map ys, e, map-snoc ys x) refl
        | inr e ↦ rw (k.holds, length-map ys, e) refl
      ];
}

-- What a push leaves of the capacity, and the number of calls that it adds.
push_end :
    (s : OwnerStack) (x : ℕ)
    → IsOwning s
    → s.end < 2 ^ 32 - 1
    → ((push s x).1.end ≡ suc s.end) × ((push s x).1.max_size ≡ s.max_size)
unfolding push
push_end s x o h = elim (dec_lt s.end s.max_size) [
  | yes room ↦ let p = push-Pushed none s (some x) o.valid room in (p.next, p.max_size)
  | no full ↦
      let same = push_full none s (some x) o.valid (omega (arith, full)) in
      (ap (λ r. r.1.end) same ∙ omega (arith, h), ap (λ r. r.1.max_size) same)
]

take_full : (ys zs : List ℕ) (m : ℕ) → m ≤ length ys → take m (ys ++ zs) ≡ take m ys
take_full ys zs zero h = refl
take_full [] zs (suc m) h = absurd (omega (arith, h))
take_full (y ∷ ys) zs (suc m) h = ap (λ s. y ∷ s) (take_full ys zs m (omega (arith, h)))

take_all : (ys : List ℕ) (m : ℕ) → length ys ≤ m → take m ys ≡ ys
take_all [] zero h = refl
take_all [] (suc m) h = refl
take_all (y ∷ ys) zero h = absurd (omega (arith, h))
take_all (y ∷ ys) (suc m) h = ap (λ s. y ∷ s) (take_all ys m (omega (arith, h)))

-- The objects in a stack of `m` places after one more push.
abbrev kept : List ℕ → ℕ → ℕ → List ℕ
kept ys x m = if ltb (length ys) m then ys ++ x ∷ [] else ys

length-snoc : (ys : List ℕ) (x : ℕ) → length (ys ++ x ∷ []) ≡ suc (length ys)
length-snoc [] x = refl
length-snoc (y ∷ ys) x = ap suc (length-snoc ys x)

length-kept : (ys : List ℕ) (x m : ℕ) → length ys ≤ m → length (kept ys x m) ≤ m
length-kept ys x m h = elim (Bool-cases (ltb (length ys) m)) [
  | inl e ↦ rw (e) (ground (arith, e, length-snoc ys x))
  | inr e ↦ rw (e) h
]

take-kept : (ys xs : List ℕ) (x m : ℕ) → take m (kept ys x m ++ xs) ≡ take m (ys ++ x ∷ xs)
take-kept ys xs x m = elim (Bool-cases (ltb (length ys) m)) [
  | inl e ↦ rw (e) (ap (take m) (append_assoc ys (x ∷ []) xs))
  | inr e ↦
      let full : m ≤ length ys = ground (arith, e) in
      rw (e, take_full ys xs m full, take_full ys (x ∷ xs) m full) refl
]

push_all-Stocked :
    (xs : List ℕ) (s : OwnerStack) (ys : List ℕ)
    → Stocked s ys
    → length ys ≤ s.max_size
    → s.end + length xs < 2 ^ 32
    → ((push_all xs s).1 ≡ []) × Stocked (push_all xs s).0 (take s.max_size (ys ++ xs))
push_all-Stocked [] s ys k le h = (refl, rw (append-nil ys, take_all ys s.max_size le) k)
push_all-Stocked (x ∷ xs) s ys k le h =
    let small : s.end < 2 ^ 32 - 1 = omega (arith, h) in
    let (next, same) = push_end s x k.owning small in
    let (none', later) =
      push_all-Stocked xs (push s x).1 (kept ys x s.max_size) (push-Stocked s x ys k small)
        (rw (same) (length-kept ys x s.max_size le)) (omega (arith, next, h)) in
    (
      rw ((push-deletes_nothing s x k.owning small).0) none',
      subst (Stocked (push_all xs (push s x).1).0)
          (ap (λ m. take m (kept ys x s.max_size ++ xs)) same ∙ take-kept ys xs x s.max_size) later,
    )

-- A stack of owners with `m` places, fewer than 2^31, on which fewer than 2^32 pushes are made: the
-- pushes delete nothing, and the destructor deletes the first `m` of the objects that were pushed, in
-- some order, each as often as it was pushed, and no other.
pub pushes-deleted_once :
    (u m : ℕ) (xs : List ℕ)
    → 0 < u
    → m < 2 ^ 31
    → length xs < 2 ^ 32
    → let (s, deleted) = push_all xs (init u m) in
      (deleted ≡ []) × Perm (delete_stack s) (take m xs)
unfolding init
pushes-deleted_once u m xs h k l =
    let (none', last) =
      push_all-Stocked xs (init u m) []
        (record { owning = init-IsOwning u m h k; holds = none_yet }) (omega arith)
        (omega (arith, l)) in
    (
      none',
      subst (Perm (delete_stack (push_all xs (init u m)).0))
          (ap owned last.holds ∙ owned-map (take m xs)) (delete_stack-perm _ last.owning),
    )
  where
    none_yet : items {A = Option ℕ} none (init u m) ≡ []
    none_yet = ap (λ n. tabulate n (cell none (init u m))) {x = min 0 m} {y = 0} (omega arith)
