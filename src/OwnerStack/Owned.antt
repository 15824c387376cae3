-- ===== src/OwnerStack/Owned.antt =====
-- A stack of owners deletes nothing on `push`: what it was given it keeps.
use coplus.Prelude.{
  ℕ, ◌+◌, ◌-◌, ◌/◌, ◌%◌, ◌^◌, ◌≤◌, ◌<◌, ◌≡◌, ◌≢◌, refl, ap, ◌∙◌, List, false, Option, none, some,
  leb, ◌==◌, get_or, get_or-set_ne, get_or-replicate, ==_iff, Bool-cases, inl, inr, dec_lt, arith,
}
use coplus.FastStack
use coplus.FastStack.{FastStack, to_size, chunk_or_new, init}
use coplus.FastStack.Items.{
  sub_slot-eq, places-ne, chunk_at, cells_of, cell, count, IsValid, init-IsValid,
}
use coplus.FastStack.Push.{push-IsValid, push-Pushed, push_full, chunk_at-push, main, filled}
use coplus.OwnerStack.{OwnerStack, push, displaced}

-- The chunks are in order, and the cells beyond the tokens given out are empty.
pub record IsOwning (s : OwnerStack) : Type 0 where
  pub valid : IsValid s
  pub blank : (t : ℕ) → count s ≤ t → cell none s t ≡ none

-- A chunk that is not there reads as a new one does.
read-chunk_or_new :
    (u i : ℕ) (c : Option (List (Option ℕ)))
    → get_or (chunk_or_new none u c) i none ≡ get_or (cells_of c) i none
unfolding chunk_or_new
read-chunk_or_new u i none = get_or-replicate u none i
read-chunk_or_new u i (some chunk) = refl

displaced-cell : (s : OwnerStack) → IsValid s → s.end < s.max_size → displaced s ≡ cell none s s.end
unfolding displaced
displaced-cell s v h =
    rw (displaced, room, sub_slot-eq s.end s.unit_size)
      (read-chunk_or_new s.unit_size (s.end % s.unit_size) (chunk_at s (s.end / s.unit_size)))
  where
    room : leb s.max_size (to_size s.end) ≡ false
    room = ground (arith, v.small)

cell-push_ne :
    (s : OwnerStack) (x : Option ℕ)
    → IsValid s
    → s.end < s.max_size
    → (t : ℕ) → s.end ≢ t
    → cell none (FastStack.push none s x).1 t ≡ cell none s t
cell-push_ne s x v room t ne =
    rw ((push-Pushed none s x v room).unit_size, chunk_at-push none s x v room (t / s.unit_size))
      (elim (Bool-cases (main none s x v room == t / s.unit_size)) [
        | inl same ↦ rw same (older ((==_iff _ _).0 same))
        | inr other ↦ rw other refl
      ])
  where
    older :
        s.end / s.unit_size ≡ t / s.unit_size
        → get_or (filled none s x v room) (t % s.unit_size) none ≡ cell none s t
    older e =
        get_or-set_ne (chunk_or_new none s.unit_size (chunk_at s (s.end / s.unit_size)))
          (s.end % s.unit_size) (t % s.unit_size) x none (places-ne s.end t s.unit_size e ne)
        ∙ read-chunk_or_new s.unit_size (t % s.unit_size) (chunk_at s (s.end / s.unit_size))
        ∙ ap (λ i. get_or (cells_of (chunk_at s i)) (t % s.unit_size) none) e

displaced_full : (s : OwnerStack) → IsValid s → s.max_size ≤ s.end → displaced s ≡ none
unfolding displaced
displaced_full s v h = ground arith

pub init-IsOwning : (u m : ℕ) → 0 < u → m < 2 ^ 31 → IsOwning (init u m)
unfolding init
init-IsOwning u m h k = record {
  valid = init-IsValid u m h k;
  blank = λ t le.
      ap (λ c. get_or (cells_of c) (t % u) none) (get_or-replicate ((m + u - 1) / u) none (t / u));
}

-- While the count of calls does not wrap, `push` deletes no object that the stack owns, and leaves
-- the cells to come empty.
pub push-deletes_nothing :
    (s : OwnerStack) (new_item : ℕ)
    → IsOwning s
    → s.end < 2 ^ 32 - 1
    → let (token, s', deleted) = push s new_item in (deleted ≡ none) × IsOwning s'
unfolding push
push-deletes_nothing s x o h = elim (dec_lt s.end s.max_size) [
  | yes room ↦ (
    displaced-cell s o.valid room ∙ o.blank s.end (omega arith),
    record {
      valid = push-IsValid none s (some x) o.valid h;
      blank = λ t le.
          let p = push-Pushed none s (some x) o.valid room in
          cell-push_ne s (some x) o.valid room t (omega (arith, p.next, p.max_size, le, room))
          ∙ o.blank t (omega (arith, p.next, p.max_size, le, room));
    },
  )
  | no full ↦ (
    displaced_full s o.valid (omega arith),
    record {
      valid = push-IsValid none s (some x) o.valid h;
      blank = λ t le.
          let same = push_full none s (some x) o.valid (omega arith) in
          ap (λ r. cell none r.1 t) same
          ∙ o.blank t
              (omega (arith, le, full, h, ap (λ r. r.1.end) same, ap (λ r. r.1.max_size) same));
    },
  )
]
