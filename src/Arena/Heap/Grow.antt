-- ===== src/Arena/Heap/Grow.antt =====
-- The heap after an operation, and `AllocArbitaryChunkFromHeap`.
use coplus.Prelude.{
  ℕ, ◌+◌, ◌≤◌, ◌<◌, ◌≡◌, refl, sym, ap, ◌∙◌, pos, Bool, true, false, some, ltb, get_or, get_elem?,
  get_elem?-eq-get_or, assign, arith, subst, fun_ext,
}
use coplus.Arena.{Arena, done, from_table, set_header, span_slot_size, page_total_size}
use coplus.Arena.Spans.{push_span, alloc_mem_from_heap, alloc_chunk_from_heap}
use coplus.Arena.Heap.{size_at, total, IsArea, IsHeap}
use coplus.Arena.Heap.Links.{Pushed, push-Pushed}
use coplus.Arena.Heap.Steps.{cong-IsTiled, change-IsArea, push-IsArea, aside-is_no_head}
use coplus.Arena.Heap.Chunks.{extend-IsArea}
use coplus.Arena.Heap.Busy.{Keeps, Keeps-trans, same-IsBusy, push-Keeps}

-- No chunk is left aside.
abbrev pub nowhere : ℕ → Bool
nowhere h = false

-- The heap is in order when no chunk is left aside any more.
pub settle-IsHeap :
    {heads out : ℕ → Bool} {size : ℕ → ℕ} {a : Arena}
    → IsArea heads out size a
    → a.is_head ≡ heads
    → ((j : ℕ) → out j ≡ false)
    → IsHeap a
settle-IsHeap {heads = heads} {out = out} {size = size} {a = a} v e o =
    let w : IsArea a.is_head nowhere size a =
      subst (λ hs. IsArea hs nowhere size a) (sym e)
        (subst (λ x. IsArea heads x size a) (fun_ext o) v) in
    change-IsArea w refl w.reserved w.inside (cong-IsTiled w.tiled (λ j m. w.sized j m refl) refl)
      (λ j m. ground (arith, w.sized j m, w.small j m)) (λ j m k. refl) (λ j. refl) (λ j k f. refl)

pub settle-Keeps :
    {heads out heads' out' : ℕ → Bool} {a b : Arena}
    → Keeps heads out a heads' out' b
    → b.is_head ≡ heads'
    → ((j : ℕ) → out' j ≡ false)
    → Keeps heads out a b.is_head nowhere b
settle-Keeps k e o j y = let (s, z) = k j y in same-IsBusy y s (ap (λ hs. hs j) e ∙ z.marked) refl

-- The table of lists, read.
pub span_list-is_read :
    {heads out : ℕ → Bool} {size : ℕ → ℕ} {a : Arena}
    → IsArea heads out size a
    → (k : ℕ) → k ≤ span_slot_size
    → from_table (get_elem? a.span_list k) ≡ done (get_or a.span_list k (some 0))
span_list-is_read {a = a} v k le =
    ap from_table (get_elem?-eq-get_or a.span_list k (some 0) (ground (arith, v.entries, le)))

-- What a new chunk of `n` pages leaves.
pub record Grown (a : Arena) (n : ℕ) (b : Arena) : Type 0 where
  pub heap : IsHeap b
  pub keeps : Keeps a.is_head nowhere a b.is_head nowhere b
  pub at_head : get_or b.span_list n (some 0) ≡ some (total a + 1)
  pub taken : b.heap_pages ≡ a.heap_pages + n
  pub bins : b.bins ≡ a.bins

module _ (n : ℕ) (a : Arena) where
  -- The chunk before it is linked.
  abbrev unlinked : Arena
  unlinked =
      let h = total a + 1 in
      let a' = record a { heap_pages = a.heap_pages + n; is_head = assign a.is_head h true } in
      set_header a' h (record (a.headers h) { flag = pos n })

  abbrev pub grown : Arena
  grown = push_span unlinked n (total a + 1) (get_or a.span_list n (some 0))

  pub alloc_chunk-eq-grown :
      IsHeap a
      → n ≤ span_slot_size
      → a.heap_pages + n ≤ page_total_size
      → alloc_chunk_from_heap n a ≡ done grown
  unfolding alloc_chunk_from_heap alloc_mem_from_heap
  alloc_chunk-eq-grown v le room =
      let e : ltb page_total_size (a.heap_pages + n) ≡ false = ground arith in
      rw (alloc_chunk_from_heap, alloc_mem_from_heap, e, span_list-is_read v n le) refl

  module _ (v : IsHeap a) (pos_n : 0 < n) (le : n ≤ span_slot_size)
      (room : a.heap_pages + n ≤ page_total_size) where
    area :
        IsArea
          (assign a.is_head (total a + 1) true)
          (assign nowhere (total a + 1) true)
          (assign (size_at a) (total a + 1) n)
          unlinked
    area =
        extend-IsArea v n (record (a.headers (total a + 1)) { flag = pos n })
          (assign a.is_head (total a + 1) true) pos_n le room

    pushed : Pushed unlinked n (total a + 1) grown
    pushed =
        push-Pushed unlinked n (total a + 1)
          (aside-is_no_head area (total a + 1) n (ground arith) (ground arith))
          (ground (arith, v.entries, le))

    first-Keeps :
        Keeps a.is_head nowhere a
          (assign a.is_head (total a + 1) true)
          (assign nowhere (total a + 1) true)
          unlinked
    first-Keeps j y =
        let b = v.tiled.bounds j y.marked in
        same-IsBusy y (ground (arith, b)) (ground (arith, y.marked)) (ground (arith, b))

    pub grown-Grown : Grown a n grown
    grown-Grown =
        let c = pushed.chunks in
        let o : (j : ℕ) → assign (assign nowhere (total a + 1) true) (total a + 1) false j ≡ false =
          λ j. ground arith in
        record {
          heap =
              settle-IsHeap
                (push-IsArea area (total a + 1) n (ground arith) (ground arith) (ground arith) pos_n
                  (ground arith) pushed)
                c.is_head o;
          keeps =
              settle-Keeps
                (Keeps-trans first-Keeps (push-Keeps area (total a + 1) n (ground arith) pushed))
                c.is_head o;
          at_head = pushed.lists n ∙ ground arith;
          taken = c.heap_pages;
          bins = c.bins;
        }
