-- ===== src/FastStack/Push.antt =====
-- `push` of `PushOnlyFastStack` appends to the items, and keeps the invariant.
use native.Mathlib.Nat.{mod-lt}
use coplus.Prelude.{
  ℕ, suc, ◌-◌, ◌/◌, ◌%◌, ◌^◌, ◌≤◌, ◌<◌, ◌≡◌, ◌≢◌, refl, ap, ap₂, ◌∙◌, ℤ, pos, minus_one, List, [],
  ◌∷◌, ◌++◌, true, false, Option, none, some, ltb, ◌==◌, if◌then◌else◌, get_or, set, length,
  length-set, length-replicate, get_or-set, get_or-set_self, get_or-set_ne, ==_iff, tabulate,
  tabulate-ext, tabulate-suc, length-tabulate, Bool-cases, inl, inr, add32, dec_lt, ℕ_discrete,
  arith,
}
use coplus.FastStack.{FastStack, push, chunk_or_new}
use coplus.FastStack.Items.{
  sub_slot-eq, places-ne, chunk_at, cells_of, cell, count, items, IsChunk, IsValid, main_slot-lt,
}

module _ {A : Type 0} where
  length-chunk_or_new :
      (d : A) (u : ℕ) (c : Option (List A)) → IsChunk u c → length (chunk_or_new d u c) ≡ u
  unfolding chunk_or_new
  length-chunk_or_new d u none h = length-replicate u d
  length-chunk_or_new d u (some chunk) h = h

  chunk_or_new-cells :
      (d : A) (u : ℕ) (c : Option (List A)) → c ≢ none → chunk_or_new d u c ≡ cells_of c
  unfolding chunk_or_new
  chunk_or_new-cells d u none h = absurd (h refl)
  chunk_or_new-cells d u (some chunk) h = refl

  -- What `push` does where there is room.
  pub record Pushed (d : A) (s : FastStack A) (x : A) : Type 0 where
    pub token : (push d s x).0 ≡ pos s.end
    pub next : (push d s x).1.end ≡ suc s.end
    pub unit_size : (push d s x).1.unit_size ≡ s.unit_size
    pub max_size : (push d s x).1.max_size ≡ s.max_size
    pub stacks :
        (push d s x).1.stacks
        ≡ set s.stacks (s.end / s.unit_size) (
            some (
              set
                (chunk_or_new d s.unit_size (chunk_at s (s.end / s.unit_size)))
                (s.end % s.unit_size)
                x))

  pub push-Pushed :
      (d : A) (s : FastStack A) (x : A) → IsValid s → s.end < s.max_size → Pushed d s x
  unfolding push
  push-Pushed d s x v h = record {
    token = ground arith;
    next = ground arith;
    unit_size = ground arith;
    max_size = ground arith;
    stacks = ground (arith, sub_slot-eq s.end s.unit_size);
  }

  -- The other branch only counts.
  pub push_full :
      (d : A) (s : FastStack A) (x : A)
      → IsValid s
      → s.max_size ≤ s.end
      → push d s x ≡ (minus_one, record s { end = add32 s.end 1 })
  unfolding push
  push_full d s x v h = ground arith

  module _ (d : A) (s : FastStack A) (x : A) (v : IsValid s) (room : s.end < s.max_size) where
    abbrev pub main : ℕ
    main = s.end / s.unit_size

    abbrev pub filled : List A
    filled = set (chunk_or_new d s.unit_size (chunk_at s main)) (s.end % s.unit_size) x

    pub chunk_at-push :
        (i : ℕ) → chunk_at (push d s x).1 i ≡ (if main == i then some filled else chunk_at s i)
    chunk_at-push i =
        rw (push-Pushed d s x v room).stacks
          (get_or-set s.stacks main i (some filled) none (main_slot-lt s s.end v room))

    length-filled : length filled ≡ s.unit_size
    length-filled =
        length-set (chunk_or_new d s.unit_size (chunk_at s main)) (s.end % s.unit_size) x
        ∙ length-chunk_or_new d s.unit_size (chunk_at s main) (v.chunks main)

    -- The new token's cell, and the older ones.
    pub cell-push_self : cell d (push d s x).1 s.end ≡ x
    cell-push_self =
        rw ((push-Pushed d s x v room).unit_size, chunk_at-push main, (==_iff main main).1 refl)
          (get_or-set_self (chunk_or_new d s.unit_size (chunk_at s main)) (s.end % s.unit_size) x d
            inside)
      where
        inside : s.end % s.unit_size < length (chunk_or_new d s.unit_size (chunk_at s main))
        inside =
            rw (length-chunk_or_new d s.unit_size (chunk_at s main) (v.chunks main))
              (mod-lt s.end v.unit_pos)

    cell-push_lt : (t : ℕ) → t < s.end → cell d (push d s x).1 t ≡ cell d s t
    cell-push_lt t h =
        rw ((push-Pushed d s x v room).unit_size, chunk_at-push (t / s.unit_size))
          (elim (Bool-cases (main == t / s.unit_size)) [
            | inl same ↦ rw same (older ((==_iff _ _).0 same))
            | inr other ↦ rw other
          ])
      where
        older : main ≡ t / s.unit_size → get_or filled (t % s.unit_size) d ≡ cell d s t
        older e =
            get_or-set_ne (chunk_or_new d s.unit_size (chunk_at s main)) (s.end % s.unit_size)
              (t % s.unit_size) x d (places-ne s.end t s.unit_size e (omega arith))
            ∙ ap (λ c. get_or c (t % s.unit_size) d)
                (chunk_or_new-cells d s.unit_size (chunk_at s main)
                    (rw e (v.reached t (omega arith)))
                  ∙ ap (λ i. cells_of (chunk_at s i)) e)

    push_room-IsValid : IsValid (push d s x).1
    push_room-IsValid = record {
      unit_pos = rw p.unit_size v.unit_pos;
      small = rw p.max_size v.small;
      end_in = rw p.next (omega (arith, v.small));
      slots =
          rw (p.unit_size, p.max_size, p.stacks) (length-set s.stacks main (some filled) ∙ v.slots);
      chunks = λ i. rw (p.unit_size, chunk_at-push i) (chunks_kept i);
      reached = λ t h. rw (p.unit_size, chunk_at-push (t / s.unit_size)) (reached_kept t h);
    }
      where
        p : Pushed d s x
        p = push-Pushed d s x v room

        chunks_kept :
            (i : ℕ) → IsChunk s.unit_size (if main == i then some filled else chunk_at s i)
        chunks_kept i = elim (Bool-cases (main == i)) [
          | inl t ↦ rw t length-filled
          | inr f ↦ rw f (v.chunks i)
        ]

        reached_kept :
            (t : ℕ)
            → t < count (push d s x).1
            → (if main == t / s.unit_size then some filled else chunk_at s (t / s.unit_size)) ≢ none
        reached_kept t h = elim (Bool-cases (main == t / s.unit_size)) [
          | inl e ↦ rw e (λ q. cc)
          | inr f ↦ rw f (v.reached t (older (ℕ_discrete t s.end) f))
        ]
          where
            older : Dec (t ≡ s.end) → (main == t / s.unit_size) ≡ false → t < count s
            older (yes e) f = absurd (ground (arith, ap (λ i. i / s.unit_size) e))
            older (no ne) f = omega (arith, p.next, p.max_size)

  -- `push` keeps the invariant while the count of calls does not wrap.
  pub push-IsValid :
      (d : A) (s : FastStack A) (x : A) → IsValid s → s.end < 2 ^ 32 - 1 → IsValid (push d s x).1
  push-IsValid d s x v h = elim (dec_lt s.end s.max_size) [
    | yes room ↦ push_room-IsValid d s x v room
    | no full ↦ rw (push_full d s x v (omega arith)) (record {
      unit_pos = v.unit_pos;
      small = v.small;
      end_in = omega arith;
      slots = v.slots;
      chunks = v.chunks;
      reached = λ t lt. v.reached t (omega (arith, lt));
    })
  ]

  length-items_room : (d : A) (s : FastStack A) → s.end < s.max_size → length (items d s) ≡ s.end
  length-items_room d s h = omega (arith, length-tabulate (count s) (cell d s))

  length-items_full :
      (d : A) (s : FastStack A) → ¬ (s.end < s.max_size) → length (items d s) ≡ s.max_size
  length-items_full d s h = omega (arith, length-tabulate (count s) (cell d s))

  items-push_room :
      (d : A) (s : FastStack A) (x : A)
      → IsValid s
      → s.end < s.max_size
      → items d (push d s x).1 ≡ items d s ++ x ∷ []
  items-push_room d s x v room =
      ap (λ n. tabulate n (cell d (push d s x).1)) grown
      ∙ tabulate-suc s.end (cell d (push d s x).1)
      ∙ ap₂ (λ xs y. xs ++ y ∷ [])
          (tabulate-ext s.end _ _ (cell-push_lt d s x v room) ∙ ap (λ n. tabulate n (cell d s)) old)
          (cell-push_self d s x v room)
    where
      grown : count (push d s x).1 ≡ suc s.end
      grown = let p = push-Pushed d s x v room in omega (arith, p.next, p.max_size)

      old : s.end ≡ count s
      old = omega arith

  -- `push` returns the number of the items as the token of the new one, which goes to the end, and
  -- past `max_size` returns -1 and leaves the items alone.
  pub push_items :
      (d : A) (s : FastStack A) (x : A)
      → IsValid s
      → s.end < 2 ^ 32 - 1
      → let (token, s') = push d s x in
        ◌≡◌ {A = ℤ × List A}
          (token, items d s')
          (if ltb (length (items d s)) s.max_size
            then (pos (length (items d s)), items d s ++ x ∷ [])
            else (minus_one, items d s))
  push_items d s x v h = elim (dec_lt s.end s.max_size) [
    | yes room ↦
        let t : ltb s.end s.max_size ≡ true = ground arith in
        rw (length-items_room d s room, t, (push-Pushed d s x v room).token)
          (ap (λ xs. (pos s.end, xs)) (items-push_room d s x v room))
    | no full ↦
        let t : ltb s.max_size s.max_size ≡ false = ground arith in
        rw (length-items_full d s full, t, push_full d s x v (omega arith))
          (ap (λ n. (minus_one, tabulate n (cell d s))) (omega arith))
  ]
