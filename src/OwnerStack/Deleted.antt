-- ===== src/OwnerStack/Deleted.antt =====
-- The destructor of a stack of owners deletes what its items own.
use mathlib.Core.List.{reverse_perm}
use mathlib.Core.List.Perm
use native.Mathlib.Nat.{add-div_left, add-mod_left, mod-eq_of_lt, div-eq_of_lt, lt-div-mul-add}
use coplus.Prelude.{
  ℕ, zero, suc, ◌+◌, ◌-◌, ◌*◌, ◌/◌, ◌%◌, ◌≤◌, ◌<◌, ◌≡◌, refl, sym, ap, ap₂, ◌∙◌, List, [], ◌∷◌,
  ◌++◌, length, Option, none, some, get_or, tabulate, tabulate-ext, arith, Perm, subst,
}
use coplus.FastStack.Items.{cells_of, cell, count, items, IsChunk}
use coplus.OwnerStack.{OwnerStack, owned, delete_chunk, delete_chunks, delete_stack}
use coplus.OwnerStack.Owned.{IsOwning}

owned-append : (xs ys : List (Option ℕ)) → owned (xs ++ ys) ≡ owned xs ++ owned ys
owned-append [] ys = refl
owned-append (none ∷ xs) ys = owned-append xs ys
owned-append (some x ∷ xs) ys = ap (λ zs. x ∷ zs) (owned-append xs ys)

owned_none : (n : ℕ) → owned (tabulate n (λ k. none)) ≡ []
owned_none zero = refl
owned_none (suc n) = owned_none n

-- Empty cells behind the first `n` own nothing.
owned_blank :
    (n m : ℕ) (f : ℕ → Option ℕ)
    → n ≤ m
    → ((k : ℕ) → n ≤ k → f k ≡ none)
    → owned (tabulate m f) ≡ owned (tabulate n f)
owned_blank zero m f le blank =
    ap owned (tabulate-ext m f (λ k. none) (λ k lt. blank k (omega arith))) ∙ owned_none m
owned_blank (suc n) zero f le blank = absurd (omega (arith, le))
owned_blank (suc n) (suc m) f le blank =
    go (f 0) _ _ (
      owned_blank n m (λ k. f (suc k)) (omega (arith, le))
        (λ k h. blank (suc k) (omega (arith, h))))
  where
    go :
        (c : Option ℕ) (xs ys : List (Option ℕ))
        → owned xs ≡ owned ys
        → owned (c ∷ xs) ≡ owned (c ∷ ys)
    go none xs ys e = e
    go (some x) xs ys e = ap (λ zs. x ∷ zs) e

tabulate-add :
    {A : Type 0} (u n : ℕ) (f : ℕ → A)
    → tabulate (u + n) f ≡ tabulate u f ++ tabulate n (λ k. f (u + k))
tabulate-add zero n f =
    ap (λ m. tabulate m f) (omega arith)
    ∙ tabulate-ext n f (λ k. f (0 + k)) (λ k lt. ap f (omega arith))
tabulate-add (suc u) n f =
    ap (λ m. tabulate m f) {x = suc u + n} {y = suc (u + n)} (omega arith)
    ∙ ap (λ xs. f 0 ∷ xs)
        (tabulate-add u n (λ k. f (suc k))
          ∙ ap (λ ys. tabulate u (λ k. f (suc k)) ++ ys)
              (tabulate-ext n (λ k. f (suc (u + k))) (λ k. f (suc u + k))
                (λ k lt. ap f (omega arith))))

tabulate-get_or : {A : Type 0} (c : List A) (d : A) → tabulate (length c) (λ k. get_or c k d) ≡ c
tabulate-get_or [] d = refl
tabulate-get_or (x ∷ c) d = ap (λ xs. x ∷ xs) (tabulate-get_or c d)

-- What the chunks own, from the first cell to the last.
abbrev all_owned : List (Option (List (Option ℕ))) → List ℕ
all_owned [] = []
all_owned (c ∷ cs) = owned (cells_of c) ++ all_owned cs

delete_chunk-perm : (c : Option (List (Option ℕ))) → Perm (delete_chunk c) (owned (cells_of c))
delete_chunk-perm none = Perm.refl []
delete_chunk-perm (some chunk) = reverse_perm (owned chunk)

delete_chunks-perm : (cs : List (Option (List (Option ℕ)))) → Perm (delete_chunks cs) (all_owned cs)
delete_chunks-perm [] = Perm.refl []
delete_chunks-perm (c ∷ cs) = Perm.append (delete_chunk-perm c) (delete_chunks-perm cs)

chunk-owned :
    (u : ℕ) (c : Option (List (Option ℕ)))
    → IsChunk u c
    → owned (cells_of c) ≡ owned (tabulate u (λ k. get_or (cells_of c) k none))
chunk-owned u none h = sym (owned_none u)
chunk-owned u (some chunk) h = rw (← h) (ap owned (sym (tabulate-get_or chunk none)))

-- The cell of a token, in chunks of `u`.
abbrev read : ℕ → List (Option (List (Option ℕ))) → ℕ → Option ℕ
read u cs t = get_or (cells_of (get_or cs (t / u) none)) (t % u) none

chunks-owned :
    (u : ℕ) (cs : List (Option (List (Option ℕ))))
    → 0 < u
    → ((i : ℕ) → IsChunk u (get_or cs i none))
    → all_owned cs ≡ owned (tabulate (length cs * u) (read u cs))
chunks-owned u [] h v = ap (λ n. owned (tabulate n (read u []))) {x = 0} {y = 0 * u} (omega arith)
chunks-owned u (c ∷ cs) h v =
    ap₂ (λ xs ys. xs ++ ys) (chunk-owned u c (v 0) ∙ ap owned first)
      (chunks-owned u cs h (λ i. v (suc i)) ∙ ap owned others)
    ∙ sym (
        owned-append (tabulate u (read u (c ∷ cs)))
          (tabulate (length cs * u) (λ k. read u (c ∷ cs) (u + k))))
    ∙ ap owned (sym (tabulate-add u (length cs * u) (read u (c ∷ cs))))
    ∙ ap (λ n. owned (tabulate n (read u (c ∷ cs)))) (ground arith)
  where
    first : tabulate u (λ k. get_or (cells_of c) k none) ≡ tabulate u (read u (c ∷ cs))
    first =
        tabulate-ext u (λ k. get_or (cells_of c) k none) (read u (c ∷ cs))
          (λ k lt. rw (div-eq_of_lt lt, mod-eq_of_lt lt) refl)

    next : (k : ℕ) → (u + k) / u ≡ suc (k / u)
    next k = omega (arith, add-div_left k h)

    others :
        tabulate (length cs * u) (read u cs)
        ≡ tabulate (length cs * u) (λ k. read u (c ∷ cs) (u + k))
    others =
        tabulate-ext (length cs * u) (read u cs) (λ k. read u (c ∷ cs) (u + k))
          (λ k lt. sym (rw (next k, add-mod_left u k) refl))

-- The destructor deletes what the items own, each once.
pub delete_stack-perm : (s : OwnerStack) → IsOwning s → Perm (delete_stack s) (owned (items none s))
unfolding delete_stack
delete_stack-perm s o = subst (Perm (delete_chunks s.stacks)) same (delete_chunks-perm s.stacks)
  where
    room : count s ≤ length s.stacks * s.unit_size
    room = rw o.valid.slots (
        omega (
          arith,
          o.valid.unit_pos,
          lt-div-mul-add {a = s.max_size + s.unit_size - 1} o.valid.unit_pos,
        ))

    same : all_owned s.stacks ≡ owned (items none s)
    same =
        chunks-owned s.unit_size s.stacks o.valid.unit_pos o.valid.chunks
        ∙ owned_blank (count s) (length s.stacks * s.unit_size) (cell none s) room o.blank
