-- ===== src/FastStack/Threads/Invariant.antt =====
-- What holds in every state of `PushOnlyFastStack` under threads, and what an access changes.
pub mod Moves
use coplus.Prelude.{
  ℕ, suc, ◌+◌, ◌-◌, ◌*◌, ◌/◌, ◌%◌, ◌≤◌, ◌<◌, ◌≡◌, ◌≢◌, refl, sym, ap, ◌∙◌, Bool, true, false,
  Option, none, some, ◌==◌, if◌then◌else◌, Bool-cases, ==_iff, inl, inr, arith, subst, assign,
}
use coplus.FastStack.Threads.{
  Thread, idle, claimed, missing, allocated, holding, getting, reading, Shared,
}

-- A property of an updated function, place by place.
pub assign-at {ℓ κ} :
    {B : Type ℓ} (P : B → Type κ) (f : ℕ → B) (i : ℕ) (v : B) (j : ℕ)
    → (i ≡ j → P v)
    → (i ≢ j → P (f j))
    → P (assign f i v j)
assign-at P f i v j same other = elim (Bool-cases (j == i)) [
  | inl e ↦ rw e (same (sym ((==_iff j i).0 e)))
  | inr e ↦ rw e (other (λ p. ground arith))
]

module _ {A : Type 0} where
  -- The token that a `push` has taken.
  abbrev pub token : Thread A → Option ℕ
  token idle = none
  token (claimed x t) = some t
  token (missing x t) = some t
  token (allocated x t p) = some t
  token (holding x t p) = some t
  token (getting t) = none
  token (reading t p) = none

  -- The chunk that a thread has made and not yet published or deleted.
  abbrev pub own_chunk : Thread A → Option ℕ
  own_chunk (allocated x t p) = some p
  own_chunk _ = none

  -- One thread changes its place: no two have one token or one chunk.
  pub become-apart :
      (f : Thread A → Option ℕ) (s : Shared A) (i : ℕ) (th : Thread A)
      → ((j k p : ℕ) → f (s.threads j) ≡ some p → f (s.threads k) ≡ some p → j ≡ k)
      → ((j p : ℕ) → i ≢ j → f th ≡ some p → f (s.threads j) ≢ some p)
      → (j k p : ℕ) → f (assign s.threads i th j) ≡ some p
      → f (assign s.threads i th k) ≡ some p
      → j ≡ k
  become-apart f s i th a new j k p =
      assign-at (λ v. f v ≡ some p → f (assign s.threads i th k) ≡ some p → j ≡ k) s.threads i th j
        (λ e h.
          assign-at (λ v. f v ≡ some p → j ≡ k) s.threads i th k (λ e' h'. sym e ∙ e')
            (λ ne h'. absurd (new k p ne h h')))
        (λ ne h.
          assign-at (λ v. f v ≡ some p → j ≡ k) s.threads i th k (λ e' h'. absurd (new j p ne h' h))
            (λ ne' h'. a j k p h h'))

  module _ (unit_size max_size : ℕ) where
    -- The chunk is published under the token's slot.
    abbrev pub IsIn : Shared A → ℕ → ℕ → Type 0
    IsIn s t p = s.stacks (t / unit_size) ≡ some p

    abbrev pub IsTaken : Shared A → ℕ → Type 0
    IsTaken s t = (t < s.end) × (t < max_size) × (s.log t ≡ none)

    -- The chunk is there, and no slot has it.
    abbrev pub IsOwn : Shared A → ℕ → Type 0
    IsOwn s p = (p < s.made) × (s.is_deleted p ≡ false) × ((m : ℕ) → s.stacks m ≢ some p)

    abbrev pub IsFine : Shared A → Thread A → Type 0
    IsFine s idle = Unit
    IsFine s (claimed x t) = IsTaken s t
    IsFine s (missing x t) = IsTaken s t
    IsFine s (allocated x t p) = IsTaken s t × IsOwn s p
    IsFine s (holding x t p) = IsTaken s t × IsIn s t p
    IsFine s (getting t) = t < max_size
    IsFine s (reading t p) = (t < max_size) × IsIn s t p

    -- The item of a push that returned stands in its cell.
    abbrev pub IsFound : Shared A → ℕ → A → Type 0
    IsFound s t x =
        (t < s.end) × (t < max_size) × (p : ℕ) × IsIn s t p × (s.cells p (t % unit_size) ≡ x)

    pub record Inv (s : Shared A) : Type 0 where
      pub fine : (i : ℕ) → IsFine s (s.threads i)
      pub apart : (i j t : ℕ) → token (s.threads i) ≡ some t → token (s.threads j) ≡ some t → i ≡ j
      pub own_apart :
          (i j p : ℕ) → own_chunk (s.threads i) ≡ some p → own_chunk (s.threads j) ≡ some p → i ≡ j
      pub published : (m p : ℕ) → s.stacks m ≡ some p → (p < s.made) × (s.is_deleted p ≡ false)
      pub one_slot : (m m' p : ℕ) → s.stacks m ≡ some p → s.stacks m' ≡ some p → m ≡ m'
      pub unmade : (p : ℕ) → s.made ≤ p → s.is_deleted p ≡ false
      pub found : (t : ℕ) (x : A) → s.log t ≡ some x → IsFound s t x

    pub taken :
        (s : Shared A) (th : Thread A) (t : ℕ) → IsFine s th → token th ≡ some t → IsTaken s t
    taken s idle t f e = absurd (ground arith)
    taken s (claimed x t') t f e = ground arith
    taken s (missing x t') t f e = ground arith
    taken s (allocated x t' p) t f e = ground arith
    taken s (holding x t' p) t f e = ground arith
    taken s (getting t') t f e = absurd (ground arith)
    taken s (reading t' p) t f e = absurd (ground arith)

    pub owned :
        (s : Shared A) (th : Thread A) (p : ℕ) → IsFine s th → own_chunk th ≡ some p → IsOwn s p
    owned s (allocated x t p') p (f, o) e = subst (IsOwn s) (some_eq e) o
      where
        some_eq : some p' ≡ some p → p' ≡ p
        some_eq q = ground arith
    owned s idle p f e = absurd (ground arith)
    owned s (claimed x t) p f e = absurd (ground arith)
    owned s (missing x t) p f e = absurd (ground arith)
    owned s (holding x t p') p f e = absurd (ground arith)
    owned s (getting t) p f e = absurd (ground arith)
    owned s (reading t p') p f e = absurd (ground arith)

    -- A change of the shared part keeps a thread fine: what it took and what it owns stays so, and
    -- published chunks stay where they are.
    pub IsFine-mono :
        (s s' : Shared A) (th : Thread A)
        → ((t : ℕ) → token th ≡ some t → IsTaken s t → IsTaken s' t)
        → ((p : ℕ) → own_chunk th ≡ some p → IsOwn s p → IsOwn s' p)
        → ((m p : ℕ) → s.stacks m ≡ some p → s'.stacks m ≡ some p)
        → IsFine s th
        → IsFine s' th
    IsFine-mono s s' idle a b c f = tt
    IsFine-mono s s' (claimed x t) a b c f = a t refl f
    IsFine-mono s s' (missing x t) a b c f = a t refl f
    IsFine-mono s s' (allocated x t p) a b c (f, o) = (a t refl f, b p refl o)
    IsFine-mono s s' (holding x t p) a b c (f, h) = (a t refl f, c (t / unit_size) p h)
    IsFine-mono s s' (getting t) a b c f = f
    IsFine-mono s s' (reading t p) a b c (f, h) = (f, c (t / unit_size) p h)
