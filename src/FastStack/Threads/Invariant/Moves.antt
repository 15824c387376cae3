-- ===== src/FastStack/Threads/Invariant/Moves.antt =====
-- Every access of a thread keeps the invariant.
use coplus.Prelude.{
  assign, ℕ, suc, ◌-◌, ◌*◌, ◌/◌, ◌%◌, ◌^◌, ◌≤◌, ◌<◌, ◌≡◌, ◌≢◌, refl, sym, ap, ◌∙◌, true, false,
  Option, none, some, Bool-cases, Option-cases, inl, inr, arith, subst, leb, add32,
}
use coplus.FastStack.{to_size}
use coplus.FastStack.Items.{sub_slot-eq, places-ne}
use coplus.FastStack.Threads.{
  Thread, idle, claimed, missing, allocated, holding, getting, reading, Shared, become, start_push,
  exchange, advance,
}
use coplus.FastStack.Threads.Invariant.{
  assign-at, token, own_chunk, IsIn, IsTaken, IsOwn, IsFine, IsFound, Inv, taken, owned,
  IsFine-mono, become-apart,
}

module _ {A : Type 0} (u max_size : ℕ) where
  -- One thread changes its place, and the shared part changes from `s` to `q`.
  module _ (s q : Shared A) (i : ℕ) (th : Thread A) (v : Inv u max_size s) where
    abbrev after : Shared A
    after = record q { threads = assign s.threads i th }

    moved :
        ((j t : ℕ)
          → i ≢ j
          → token (s.threads j) ≡ some t
          → IsTaken u max_size s t
          → IsTaken u max_size q t)
        → ((j p : ℕ)
            → i ≢ j
            → own_chunk (s.threads j) ≡ some p
            → IsOwn u max_size s p
            → IsOwn u max_size q p)
        → ((m p : ℕ) → s.stacks m ≡ some p → q.stacks m ≡ some p)
        → IsFine u max_size q th
        → ((j t : ℕ) → i ≢ j → token th ≡ some t → token (s.threads j) ≢ some t)
        → ((j p : ℕ) → i ≢ j → own_chunk th ≡ some p → own_chunk (s.threads j) ≢ some p)
        → ((m p : ℕ) → q.stacks m ≡ some p → (p < q.made) × (q.is_deleted p ≡ false))
        → ((m m' p : ℕ) → q.stacks m ≡ some p → q.stacks m' ≡ some p → m ≡ m')
        → ((p : ℕ) → q.made ≤ p → q.is_deleted p ≡ false)
        → ((t : ℕ) (x : A) → q.log t ≡ some x → IsFound u max_size q t x)
        → Inv u max_size after
    moved tokens owns stays fine new_token new_own published one_slot unmade found = record {
      fine = λ j.
          assign-at (IsFine u max_size after) s.threads i th j (λ e. same th fine)
            (λ ne. same (s.threads j) (
              IsFine-mono u max_size s q (s.threads j) (λ t. tokens j t ne) (λ p. owns j p ne) stays
                (v.fine j)));
      apart = become-apart token s i th v.apart new_token;
      own_apart = become-apart own_chunk s i th v.own_apart new_own;
      published = published;
      one_slot = one_slot;
      unmade = unmade;
      found = found;
    }
      where
        same : (x : Thread A) → IsFine u max_size q x → IsFine u max_size after x
        same idle f = tt
        same (claimed x t) f = f
        same (missing x t) f = f
        same (allocated x t p) f = f
        same (holding x t p) f = f
        same (getting t) f = f
        same (reading t p) f = f

  -- What a place without a token or a chunk of its own cannot share.
  pub no_clash :
      (f : Thread A → Option ℕ) (s : Shared A) (i : ℕ) (th : Thread A)
      → f th ≡ none
      → (j p : ℕ) → i ≢ j
      → f th ≡ some p
      → f (s.threads j) ≢ some p
  no_clash f s i th e j p ne h k = ground arith

  module _ (s : Shared A) (i : ℕ) (v : Inv u max_size s) where
    -- The token that a thread had is no other's.
    pub kept_token :
        (old th : Thread A)
        → s.threads i ≡ old
        → token th ≡ token old
        → (j t : ℕ) → i ≢ j
        → token th ≡ some t
        → token (s.threads j) ≢ some t
    kept_token old th e same j t ne h k = ne (v.apart i j t (ap token e ∙ sym same ∙ h) k)

    -- The shared part stays as it is.
    pub stays_put :
        (th : Thread A)
        → ((j t : ℕ) → i ≢ j → token th ≡ some t → token (s.threads j) ≢ some t)
        → own_chunk th ≡ none
        → IsFine u max_size s th
        → Inv u max_size (become i th s)
    stays_put th new o f =
        moved s s i th v (λ j t ne e k. k) (λ j p ne e k. k) (λ m p e. e) f new
          (no_clash own_chunk s i th o) v.published v.one_slot v.unmade v.found

    pub push-Inv :
        (d x : A)
        → s.end < 2 ^ 31
        → max_size < 2 ^ 31
        → Inv u max_size (start_push u max_size d i x s)
    unfolding start_push
    push-Inv d x h small = elim (Bool-cases (leb max_size (to_size s.end))) [
      | inl full ↦ rw (start_push, full) (counted idle tt (no_clash token s i idle refl) refl)
      | inr room ↦
          rw (start_push, room)
            (counted (claimed x s.end) (grown, ground arith, unused) taken_by_none refl)
    ]
      where
        q : Shared A
        q = record s { end = add32 s.end 1 }

        grown : s.end < add32 s.end 1
        grown = omega arith

        unused : s.log s.end ≡ none
        unused = elim (Option-cases (s.log s.end)) [
          | inl e ↦ e
          | inr (y, e) ↦ absurd (omega (arith, (v.found s.end y e).0))
        ]

        taken_by_none :
            (j t : ℕ) → i ≢ j → token (claimed x s.end) ≡ some t → token (s.threads j) ≢ some t
        taken_by_none j t ne e k =
            let (lt, l, n) = taken u max_size s (s.threads j) t (v.fine j) k in ground arith

        counted :
            (th : Thread A)
            → IsFine u max_size q th
            → ((j t : ℕ) → i ≢ j → token th ≡ some t → token (s.threads j) ≢ some t)
            → own_chunk th ≡ none
            → Inv u max_size (record q { threads = assign s.threads i th })
        counted th f new o =
            moved s q i th v (λ j t ne e (a, b, c). (omega (arith, grown), b, c)) (λ j p ne e k. k)
              (λ m p e. e) f new (no_clash own_chunk s i th o) v.published v.one_slot v.unmade
              (λ t y e. let (a, b, p, h, c) = v.found t y e in (omega (arith, grown), b, p, h, c))

  module _ (s : Shared A) (i : ℕ) (v : Inv u max_size s) (d x : A) (t : ℕ) where
    -- A chunk is made.
    pub make-Inv :
        s.threads i ≡ missing x t → Inv u max_size (advance u max_size d i (missing x t) s)
    unfolding advance
    make-Inv e =
        moved s q i (allocated x t s.made) v (λ j t' ne k f. f)
          (λ j p ne k (lt, n, o). (omega (arith, lt), n, o)) (λ m p k. k)
          (mine, (omega arith, v.unmade s.made (omega arith), λ m k. fresh m s.made k refl))
          (kept_token s i v (missing x t) (allocated x t s.made) e refl) new_chunk
          (λ m p k. let (lt, n) = v.published m p k in (omega (arith, lt), n)) v.one_slot
          (λ p lt. v.unmade p (omega (arith, lt)))
          (λ t' y k.
            let (a, b, p, h, c) = v.found t' y k in
            (a, b, p, h, old_cell p (t' % u) (fresh (t' / u) p h) ∙ c))
      where
        q : Shared A
        q = record s { cells = assign s.cells s.made (λ j. d); made = suc s.made }

        mine : IsTaken u max_size s t
        mine = subst (IsFine u max_size s) e (v.fine i)

        fresh : (m p : ℕ) → s.stacks m ≡ some p → s.made ≢ p
        fresh m p k ne = omega (arith, (v.published m p k).0)

        old_cell : (p j : ℕ) → s.made ≢ p → assign s.cells s.made (λ j. d) p j ≡ s.cells p j
        old_cell p j ne =
            assign-at (λ c. c j ≡ s.cells p j) s.cells s.made (λ j. d) p (λ e. absurd (ne e))
              (λ ne'. refl)

        new_chunk :
            (j p : ℕ)
            → i ≢ j
            → own_chunk (allocated x t s.made) ≡ some p
            → own_chunk (s.threads j) ≢ some p
        new_chunk j p ne h k =
            let (lt, n, o) = owned u max_size s (s.threads j) p (v.fine j) k in ground arith

    -- The slot was empty, and now has the chunk.
    publish :
        (p : ℕ)
        → s.threads i ≡ allocated x t p
        → s.stacks (t / u) ≡ none
        → Inv u max_size (record s {
          stacks = assign s.stacks (t / u) (some p);
          threads = assign s.threads i (holding x t p);
        })
    publish p e empty =
        moved s q i (holding x t p) v (λ j t' ne k f. f)
          (λ j r ne k (lt, n, o). (lt, n, unpublished j r ne k o)) kept
          (
            mine.0,
            assign-at (λ o. o ≡ some p) s.stacks (t / u) (some p) (t / u) (λ h. refl)
                (λ ne. absurd (ne refl)),
          )
          (kept_token s i v (allocated x t p) (holding x t p) e refl)
          (no_clash own_chunk s i (holding x t p) refl)
          (λ m r.
            assign-at (λ o. o ≡ some r → (r < s.made) × (s.is_deleted r ≡ false)) s.stacks (t / u)
              (some p) m
              (λ same h.
                subst (λ n. (n < s.made) × (s.is_deleted n ≡ false)) (number_eq h)
                  (mine.1.0, mine.1.1))
              (λ ne h. v.published m r h))
          one_slot v.unmade
          (λ t' y k. let (a, b, r, h, c) = v.found t' y k in (a, b, r, kept (t' / u) r h, c))
      where
        q : Shared A
        q = record s { stacks = assign s.stacks (t / u) (some p) }

        mine : IsTaken u max_size s t × IsOwn u max_size s p
        mine = subst (IsFine u max_size s) e (v.fine i)

        number_eq : {a b : ℕ} → some a ≡ some b → a ≡ b
        number_eq h = ground arith

        nothing : {r : ℕ} → none ≢ some r
        nothing h = ground arith

        kept : (m r : ℕ) → s.stacks m ≡ some r → q.stacks m ≡ some r
        kept m r h =
            assign-at (λ o. o ≡ some r) s.stacks (t / u) (some p) m
              (λ same. absurd (nothing (sym empty ∙ ap s.stacks same ∙ h))) (λ ne. h)

        unpublished :
            (j r : ℕ)
            → i ≢ j
            → own_chunk (s.threads j) ≡ some r
            → ((m : ℕ) → s.stacks m ≢ some r)
            → (m : ℕ) → q.stacks m ≢ some r
        unpublished j r ne k o m =
            assign-at (λ z. z ≢ some r) s.stacks (t / u) (some p) m
              (λ same h. ne (v.own_apart i j r (ap own_chunk e ∙ h) k)) (λ ne'. o m)

        one_slot : (m m' r : ℕ) → q.stacks m ≡ some r → q.stacks m' ≡ some r → m ≡ m'
        one_slot m m' r =
            assign-at (λ o. o ≡ some r → q.stacks m' ≡ some r → m ≡ m') s.stacks (t / u) (some p) m
              (λ same h.
                assign-at (λ o. o ≡ some r → m ≡ m') s.stacks (t / u) (some p) m'
                  (λ same' h'. sym same ∙ same') (λ ne h'. absurd (mine.1.2 m' (h' ∙ sym h))))
              (λ ne h.
                assign-at (λ o. o ≡ some r → m ≡ m') s.stacks (t / u) (some p) m'
                  (λ same' h'. absurd (mine.1.2 m (h ∙ sym h'))) (λ ne' h'. v.one_slot m m' r h h'))

    give_up :
        (p r : ℕ)
        → s.threads i ≡ allocated x t p
        → s.stacks (t / u) ≡ some r
        → Inv u max_size (record s {
          is_deleted = assign s.is_deleted p true;
          threads = assign s.threads i (holding x t r);
        })
    give_up p r e full =
        moved s q i (holding x t r) v (λ j t' ne k f. f)
          (λ j b ne k (lt, n, o). (lt, still b (λ same. not_same j b ne k same) n, o)) (λ m b k. k)
          (mine.0, full) (kept_token s i v (allocated x t p) (holding x t r) e refl)
          (no_clash own_chunk s i (holding x t r) refl)
          (λ m b h.
            let (lt, n) = v.published m b h in
            (lt, still b (λ same. mine.1.2 m (h ∙ ap some (sym same))) n))
          v.one_slot (λ b le. still b (λ same. absurd (omega (arith, mine.1.0))) (v.unmade b le))
          v.found
      where
        q : Shared A
        q = record s { is_deleted = assign s.is_deleted p true }

        mine : IsTaken u max_size s t × IsOwn u max_size s p
        mine = subst (IsFine u max_size s) e (v.fine i)

        still : (b : ℕ) → p ≢ b → s.is_deleted b ≡ false → q.is_deleted b ≡ false
        still b ne n =
            assign-at (λ z. z ≡ false) s.is_deleted p true b (λ same. absurd (ne same)) (λ ne'. n)

        not_same : (j b : ℕ) → i ≢ j → own_chunk (s.threads j) ≡ some b → p ≢ b
        not_same j b ne k same = ne (v.own_apart i j b (ap own_chunk e ∙ ap some same) k)

    -- The chunk is published, or another was before it.
    pub exchange-Inv :
        (p : ℕ)
        → s.threads i ≡ allocated x t p
        → Inv u max_size (exchange u max_size d i x t p (s.stacks (t / u)) s)
    unfolding exchange
    exchange-Inv p e = elim (Option-cases (s.stacks (t / u))) [
      | inl empty ↦ rw (exchange, empty) (publish p e empty)
      | inr (r, full) ↦ rw (exchange, full) (give_up p r e full)
    ]

    pub write-Inv :
        (p : ℕ)
        → s.threads i ≡ holding x t p
        → Inv u max_size (advance u max_size d i (holding x t p) s)
    unfolding advance
    write-Inv p e =
        moved s q i idle v (λ j t' ne k (a, b, c). (a, b, unwritten t' (other j t' ne k) c))
          (λ j r ne k f. f) (λ m r k. k) tt (no_clash token s i idle refl)
          (no_clash own_chunk s i idle refl) v.published v.one_slot v.unmade found_after
      where
        cell_of : ℕ
        cell_of = t - t / u * u

        q : Shared A
        q = record s {
          cells = assign s.cells p (assign (s.cells p) cell_of x);
          log = assign s.log t (some x);
        }

        mine : IsTaken u max_size s t × IsIn u max_size s t p
        mine = subst (IsFine u max_size s) e (v.fine i)

        other : (j t' : ℕ) → i ≢ j → token (s.threads j) ≡ some t' → t ≢ t'
        other j t' ne k same = ne (v.apart i j t (ap token e) (k ∙ ap some (sym same)))

        unwritten : (t' : ℕ) → t ≢ t' → s.log t' ≡ none → q.log t' ≡ none
        unwritten t' ne k =
            assign-at (λ o. o ≡ none) s.log t (some x) t' (λ same. absurd (ne same)) (λ ne'. k)

        written : (y : A) → some x ≡ some y → IsFound u max_size q t y
        written y k = (
          mine.0.0,
          mine.0.1,
          p,
          mine.1,
          assign-at (λ c. c (t % u) ≡ y) s.cells p (assign (s.cells p) cell_of x) p
              (λ same.
                assign-at (λ z. z ≡ y) (s.cells p) cell_of x (t % u) (λ h. item_eq k)
                  (λ ne. absurd (ne (sub_slot-eq t u))))
              (λ ne. absurd (ne refl)),
        )
          where
            item_eq : some x ≡ some y → x ≡ y
            item_eq h = ground arith

        older :
            (t' : ℕ) (y : A) (r : ℕ)
            → t ≢ t'
            → s.stacks (t' / u) ≡ some r
            → s.cells r (t' % u) ≡ y
            → q.cells r (t' % u) ≡ y
        older t' y r ne h c =
            assign-at (λ b. b (t' % u) ≡ y) s.cells p (assign (s.cells p) cell_of x) r
              (λ same.
                assign-at (λ z. z ≡ y) (s.cells p) cell_of x (t' % u)
                  (λ clash. absurd (
                    places-ne t t' u (v.one_slot (t / u) (t' / u) p mine.1 (h ∙ ap some (sym same)))
                      ne (sym (sub_slot-eq t u) ∙ clash)))
                  (λ ne'. subst (λ b. s.cells b (t' % u) ≡ y) (sym same) c))
              (λ ne'. c)

        found_after : (t' : ℕ) (y : A) → q.log t' ≡ some y → IsFound u max_size q t' y
        found_after t' y =
            assign-at (λ o. o ≡ some y → IsFound u max_size q t' y) s.log t (some x) t'
              (λ same k. subst (λ n. IsFound u max_size q n y) same (written y k))
              (λ ne k. let (a, b, r, h, c) = v.found t' y k in (a, b, r, h, older t' y r ne h c))
