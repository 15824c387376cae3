-- ===== src/Arena/Heap/Chunks.antt =====
-- Chunks of the heap that are taken, cut, joined and added, while they are left aside.
use coplus.Prelude.{ℕ, ◌+◌, ◌-◌, ◌≤◌, ◌<◌, ◌≡◌, refl, Bool, true, false, none, assign, arith, subst}
use coplus.Arena.{Header, Arena, set_header, span_slot_size, page_total_size}
use coplus.Arena.Heap.{span_of, size_at, total, IsArea}
use coplus.Arena.Heap.Tiled.{IsTiled, split-IsTiled, join-IsTiled, extend-IsTiled}
use coplus.Arena.Heap.Steps.{change-IsArea}

module _ {heads out : ℕ → Bool} {size : ℕ → ℕ} {a : Arena} (v : IsArea heads out size a) where
  -- A chunk that was left aside is in use, as its header says.
  pub close-IsArea :
      (h : ℕ)
      → out h ≡ true
      → span_of (a.headers h).next (a.headers h).flag ≡ none
      → size_at a h ≡ size h
      → IsArea heads (assign out h false) size a
  close-IsArea h o e p =
      change-IsArea v refl v.reserved v.inside v.tiled v.small
        (λ j m k. ground (arith, v.sized j m, k, p)) (λ j. ground (arith, e)) (λ j k f. refl)

  -- The header of a chunk that is left aside is set.
  pub aside-IsArea :
      (h : ℕ) (hd : Header) → out h ≡ true → IsArea heads out size (set_header a h hd)
  aside-IsArea h hd o =
      change-IsArea v refl v.reserved v.inside v.tiled v.small
        (λ j m k. ground (arith, v.sized j m k)) (λ j. ground arith) (λ j k f. ground arith)

  -- A chunk that is in use is left aside.
  pub leave-IsArea :
      (h : ℕ)
      → span_of (a.headers h).next (a.headers h).flag ≡ none
      → IsArea heads (assign out h true) size a
  leave-IsArea h e =
      change-IsArea v refl v.reserved v.inside v.tiled v.small
        (λ j m k. v.sized j m (ground (arith, k))) (λ j. ground (arith, e)) (λ j k f. refl)

  -- The marks in the table may differ from `heads`.
  pub remark-IsArea : (is_head : ℕ → Bool) → IsArea heads out size (record a { is_head = is_head })
  remark-IsArea is_head =
      change-IsArea v refl v.reserved v.inside v.tiled v.small v.sized (λ j. refl) (λ j k f. refl)

  -- A chunk that is left aside is cut in two.
  pub split-IsArea :
      (h n : ℕ) (hd : Header) (is_head : ℕ → Bool)
      → out h ≡ true
      → heads h ≡ true
      → 0 < n
      → n < size h
      → IsArea
          (assign heads (h + n) true)
          (assign out (h + n) true)
          (assign (assign size h n) (h + n) (size h - n))
          (set_header (record a { is_head = is_head }) (h + n) hd)
  split-IsArea h n hd is_head o m pos_n lt =
      let inner = v.tiled.inner h (h + n) m (omega (arith, pos_n)) (omega (arith, lt)) in
      change-IsArea v refl v.reserved v.inside
        (split-IsTiled v.tiled h n m pos_n lt (λ j. refl) (ground (arith, pos_n)) (ground arith)
          (λ j x y. ground (arith, x, y)))
        (λ j k. ground (arith, v.small j, v.small h)) (λ j k x. ground (arith, k, x, v.sized j))
        (λ j. ground (arith, inner)) (λ j k f. ground (arith, inner))

  -- A chunk that is left aside takes in the next one, which is left aside too.
  pub join-IsArea :
      (h n : ℕ) (is_head : ℕ → Bool)
      → out h ≡ true
      → heads h ≡ true
      → size h ≡ n
      → out (h + n) ≡ true
      → heads (h + n) ≡ true
      → n + size (h + n) ≤ span_slot_size
      → IsArea
          (assign heads (h + n) false)
          (assign out (h + n) false)
          (assign size h (n + size (h + n)))
          (record a { is_head = is_head })
  join-IsArea h n is_head o m e o' m' le =
      change-IsArea v refl v.reserved v.inside
        (join-IsTiled v.tiled h m (ground (arith, m', e)) (λ j. ground (arith, e))
          (ground (arith, e)) (λ j x y. ground (arith, x, y)))
        (λ j k. ground (arith, v.small j, le)) (λ j k x. ground (arith, k, x, v.sized j))
        (λ j. ground (arith, o')) (λ j k f. refl)

  -- A chunk of pages from the heap.
  pub extend-IsArea :
      (n : ℕ) (hd : Header) (is_head : ℕ → Bool)
      → 0 < n
      → n ≤ span_slot_size
      → a.heap_pages + n ≤ page_total_size
      → IsArea
          (assign heads (total a + 1) true)
          (assign out (total a + 1) true)
          (assign size (total a + 1) n)
          (set_header
            (record a { is_head = is_head; heap_pages = a.heap_pages + n })
            (total a + 1)
            hd)
  extend-IsArea n hd is_head pos_n le room =
      let fresh : heads (total a + 1) ≡ true
          → (0 < size (total a + 1)) × (total a + 1 + size (total a + 1) ≤ total a + 1) =
        λ m. let (x, y, z) = v.tiled.bounds (total a + 1) m in (y, z) in
      change-IsArea v refl (omega (arith, v.reserved)) room
        (subst (λ k. IsTiled (assign heads (total a + 1) true) (assign size (total a + 1) n) k)
          (omega (arith, v.reserved))
          (extend-IsTiled v.tiled n pos_n (λ j. refl) (ground arith) (λ j x. ground (arith, x))))
        (λ j k. ground (arith, v.small j)) (λ j k x. ground (arith, k, x, v.sized j))
        (λ j. ground (arith, fresh)) (λ j k f. ground (arith, fresh))
