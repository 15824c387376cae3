-- ===== src/FastStack/Threads/Found.antt =====
-- What pushing and getting threads can rely on in `PushOnlyFastStack`.
use coplus.Prelude.{
  ℕ, suc, ◌/◌, ◌%◌, ◌^◌, ◌≤◌, ◌<◌, ◌≡◌, ◌≢◌, refl, sym, ◌∙◌, false, some, Option-cases, inl, inr,
  arith, subst,
}
use coplus.FastStack.Threads.{
  Thread, idle, claimed, missing, allocated, holding, getting, reading, Shared, init, advance, load,
  load_to_get, exchange, start_push, Step, Reach,
}
use coplus.FastStack.Threads.Step.{pushes, gets, advances}
use coplus.FastStack.Threads.Reach.{starts, later}
use coplus.FastStack.Threads.Invariant.{token, own_chunk, IsFine, IsTaken, Inv, taken}
use coplus.FastStack.Threads.Invariant.Moves.{
  stays_put, kept_token, no_clash, push-Inv, make-Inv, exchange-Inv, write-Inv,
}

module _ {A : Type 0} (u max_size : ℕ) (d : A) where
  advance-Inv :
      (i : ℕ) (th : Thread A) (s : Shared A)
      → s.threads i ≡ th
      → Inv u max_size s
      → Inv u max_size (advance u max_size d i th s)
  unfolding advance load load_to_get
  advance-Inv i idle s e v = v
  advance-Inv i (claimed x t) s e v = elim (Option-cases (s.stacks (t / u))) [
    | inl n ↦ rw n (
        stays_put u max_size s i v (missing x t)
          (kept_token u max_size s i v (claimed x t) (missing x t) e refl) refl mine)
    | inr (p, n) ↦ rw n (
        stays_put u max_size s i v (holding x t p)
          (kept_token u max_size s i v (claimed x t) (holding x t p) e refl) refl (mine, n))
  ]
    where
      mine : IsTaken u max_size s t
      mine = subst (IsFine u max_size s) e (v.fine i)
  advance-Inv i (missing x t) s e v = make-Inv u max_size s i v d x t e
  advance-Inv i (allocated x t p) s e v = exchange-Inv u max_size s i v d x t p e
  advance-Inv i (holding x t p) s e v = write-Inv u max_size s i v d x t p e
  advance-Inv i (getting t) s e v = elim (Option-cases (s.stacks (t / u))) [
    | inl n ↦
        rw n (stays_put u max_size s i v idle (no_clash u max_size token s i idle refl) refl tt)
    | inr (p, n) ↦ rw n (
        stays_put u max_size s i v (reading t p) (no_clash u max_size token s i (reading t p) refl)
          refl (mine, n))
  ]
    where
      mine : t < max_size
      mine = subst (IsFine u max_size s) e (v.fine i)
  advance-Inv i (reading t p) s e v =
      stays_put u max_size s i v idle (no_clash u max_size token s i idle refl) refl tt

  Step-Inv :
      (s s' : Shared A)
      → s.end < 2 ^ 31
      → max_size < 2 ^ 31
      → Inv u max_size s
      → Step u max_size d s s'
      → Inv u max_size s'
  Step-Inv s _ h small v (pushes i x e) = push-Inv u max_size s i v d x h small
  Step-Inv s _ h small v (gets i t e lt) =
      stays_put u max_size s i v (getting t) (no_clash u max_size token s i (getting t) refl) refl
        lt
  Step-Inv s _ h small v (advances i) = advance-Inv i (s.threads i) s refl v

  init-Inv : Inv u max_size (init u max_size d)
  init-Inv = record {
    fine = λ i. tt;
    apart = λ i j t e k. absurd (ground arith);
    own_apart = λ i j p e k. absurd (ground arith);
    published = λ m p e. absurd (ground arith);
    one_slot = λ m m' p e k. absurd (ground arith);
    unmade = λ p le. refl;
    found = λ t x e. absurd (ground arith);
  }

  advance-end : (i : ℕ) (th : Thread A) (s : Shared A) → (advance u max_size d i th s).end ≡ s.end
  unfolding advance exchange
  advance-end i idle s = refl
  advance-end i (claimed x t) s = refl
  advance-end i (missing x t) s = refl
  advance-end i (allocated x t p) s = elim (Option-cases (s.stacks (t / u))) [
    | inl n ↦ rw n
    | inr (q, n) ↦ rw n
  ]
  advance-end i (holding x t p) s = refl
  advance-end i (getting t) s = refl
  advance-end i (reading t p) s = refl

  -- A step counts at most one call of `push`.
  Step-end : (s s' : Shared A) → s.end < 2 ^ 31 → Step u max_size d s s' → s'.end ≤ suc s.end
  unfolding start_push
  Step-end s _ h (pushes i x e) = omega arith
  Step-end s _ h (gets i t e lt) = omega arith
  Step-end s _ h (advances i) = omega (arith, advance-end i (s.threads i) s)

  Reach-Inv :
      {n : ℕ} {s : Shared A}
      → n < 2 ^ 31
      → max_size < 2 ^ 31
      → Reach u max_size d n s
      → Inv u max_size s × (s.end ≤ n)
  Reach-Inv h small starts = (init-Inv, omega arith)
  Reach-Inv h small (later {n = n} {s = s} {s' = s'} r st) =
      let (v, le) = Reach-Inv {n = n} {s = s} (omega arith) small r in
      (
        Step-Inv s s' (omega (arith, le)) small v st,
        omega (arith, le, Step-end s s' (omega (arith, le)) st),
      )

  -- The thread reads, from a chunk that is there, this item under this token.
  abbrev pub Reads : Shared A → ℕ → A → ℕ → Type 0
  Reads s t x q = (s.cells q (t % u) ≡ x) × (s.is_deleted q ≡ false)

  -- In every state that any number of threads reach in fewer than 2^31 steps, where a push has
  -- returned a token, the token is below the size, the item stands in a published chunk that is not
  -- deleted, every thread that is about to read this token reads this item, and no other push
  -- has the token.
  pub pushed-is_found :
      {n : ℕ} {s : Shared A} (t : ℕ) (x : A)
      → n < 2 ^ 31
      → max_size < 2 ^ 31
      → Reach u max_size d n s
      → s.log t ≡ some x
      → (t < max_size)
        × ((p : ℕ) × (s.stacks (t / u) ≡ some p) × Reads s t x p)
        × ((i q : ℕ) → s.threads i ≡ reading t q → Reads s t x q)
        × ((i : ℕ) → token (s.threads i) ≢ some t)
  pushed-is_found {s = s} t x h small r e =
      let (v, le) = Reach-Inv h small r in
      let (a, b, p, published, cell) = v.found t x e in
      (
        b,
        (p, published, (cell, (v.published (t / u) p published).1)),
        λ i q k.
            let same = number_eq (sym published ∙ in_slot i q v k) in
            (
              subst (λ c. s.cells c (t % u) ≡ x) same cell,
              (v.published (t / u) q (in_slot i q v k)).1,
            ),
        λ i k. not_none i v k,
      )
    where
      number_eq : {a b : ℕ} → some a ≡ some b → a ≡ b
      number_eq k = ground arith

      in_slot : (i q : ℕ) → Inv u max_size s → s.threads i ≡ reading t q → s.stacks (t / u) ≡ some q
      in_slot i q v k = let f = subst (IsFine u max_size s) k (v.fine i) in f.1

      not_none : (i : ℕ) → Inv u max_size s → token (s.threads i) ≢ some t
      not_none i v k =
          let (a, b, n) = taken u max_size s (s.threads i) t (v.fine i) k in ground arith

  -- In every state that any number of threads reach in fewer than 2^31 steps, no two of them push
  -- under one token, and the chunk that a thread is about to write to, or has made to publish it,
  -- is not deleted and is no other's to publish.
  pub pushes-are_apart :
      {n : ℕ} {s : Shared A}
      → n < 2 ^ 31
      → max_size < 2 ^ 31
      → Reach u max_size d n s
      → ((i j t : ℕ) → token (s.threads i) ≡ some t → token (s.threads j) ≡ some t → i ≡ j)
        × ((i t p : ℕ) (x : A) → s.threads i ≡ holding x t p → s.is_deleted p ≡ false)
        × ((i t p : ℕ) (x : A)
            → s.threads i ≡ allocated x t p
            → (s.is_deleted p ≡ false) × ((m : ℕ) → s.stacks m ≢ some p))
        × ((i j p : ℕ)
            → own_chunk (s.threads i) ≡ some p
            → own_chunk (s.threads j) ≡ some p
            → i ≡ j)
  pushes-are_apart {s = s} h small r =
      let (v, le) = Reach-Inv h small r in
      (
        v.apart,
        λ i t p x k.
            let f = subst (IsFine u max_size s) k (v.fine i) in (v.published (t / u) p f.1).1,
        λ i t p x k. let f = subst (IsFine u max_size s) k (v.fine i) in (f.1.1, f.1.2),
        v.own_apart,
      )
