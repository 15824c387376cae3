-- ===== src/Arena/Heap/Big.antt =====
-- `Malloc` of more than 4080 bytes.
use coplus.Prelude.{
  ℕ, ◌+◌, ◌*◌, ◌≤◌, ◌<◌, ◌≡◌, ◌⊎◌, inl, inr, refl, sym, ap, ◌∙◌, pos, true, false, none, some, ltb,
  ◌==◌, get_or, assign, arith, Bool-cases,
}
use coplus.Arena.{
  is_page, Header, Arena, done, ◌>>=◌, set_header, span_slot_size, page_total_size, page_len,
  span_header_size,
}
use coplus.Arena.Sizes.{span_slot_of}
use coplus.Arena.Sizes.Fit.{span_slot_of-fits}
use coplus.Arena.Spans.{pop_span}
use coplus.Arena.Malloc.{occupy, malloc_big, malloc}
use coplus.Arena.Heap.{pages_of, size_at, head_at, IsArea, IsHeap}
use coplus.Arena.Heap.Tiled.{apart}
use coplus.Arena.Heap.Chunks.{aside-IsArea, close-IsArea}
use coplus.Arena.Heap.Busy.{IsBusy, Keeps, Keeps-trans, aside-Keeps}
use coplus.Arena.Heap.Grow.{nowhere, settle-IsHeap, span_list-is_read}
use coplus.Arena.Heap.Take.{pop_span-Taken, Larger, take_bigger-Larger}
use coplus.Arena.Heap.Cut.{kept, keep_rest-eq-kept, kept-Cut}

-- A chunk in use, with its first page and its size.
abbrev pub IsChunk : Arena → ℕ → Type 0
IsChunk a j = IsBusy a.is_head nowhere a j

-- The chunk of `k` pages from `h` on is handed out.
pub record Given (a : Arena) (h k : ℕ) (b : Arena) : Type 0 where
  pub heap : IsHeap b
  pub given : IsChunk b h
  pub flag : (b.headers h).flag ≡ pos k
  pub others :
      (j : ℕ)
      → IsChunk a j
      → (b.headers j ≡ a.headers j) × IsChunk b j × ((j + size_at b j ≤ h) ⊎ (h + k ≤ j))

module _ {a : Arena} {h k : ℕ} {b : Arena} {sizes : ℕ → ℕ} where
  give :
      IsArea b.is_head (assign nowhere h true) sizes b
      → b.is_head h ≡ true
      → (b.headers h).next ≡ none
      → (b.headers h).flag ≡ pos k
      → sizes h ≡ k
      → Keeps a.is_head nowhere a b.is_head (assign nowhere h true) b
      → Given a h k b
  give v m n f e keeps =
      let s : size_at b h ≡ k = ap pages_of f in
      let c = close-IsArea v h (ground arith) (ground (arith, n)) (s ∙ sym e) in
      let w = settle-IsHeap c refl (λ j. ground arith) in
      record {
        heap = w;
        given = record { marked = m; stays = refl; held = ground (arith, n) };
        flag = f;
        others = λ j y.
            let (same, z) = keeps j y in
            (
              same,
              record { marked = z.marked; stays = refl; held = z.held },
              ground (arith, s, apart w.tiled j h z.marked m, z.stays),
            );
      }

abbrev Outcome : ℕ → Arena → Type 0
Outcome size a =
    (h : ℕ) × (b : Arena) × (malloc size a ≡ done (some (h * page_len + span_header_size), b))
    × Given a h (span_slot_of size) b

module _ (size : ℕ) (a : Arena) (v : IsHeap a) where
  malloc-eq-big : 4080 < size → malloc size a ≡ malloc_big size a
  unfolding malloc
  malloc-eq-big lt =
      let e : size == 0 ≡ false = ground (arith, lt) in
      let f : ltb 4080 size ≡ true = ground (arith, lt) in rw (malloc, e, f) refl

  exact :
      4080 < size
      → span_slot_of size < span_slot_size
      → is_page (get_or a.span_list (span_slot_of size) (some 0)) ≡ true
      → Outcome size a
  unfolding malloc_big occupy
  exact lt le p =
      let k = span_slot_of size in
      let h = head_at a k in
      let t = pop_span-Taken a k v p in
      let c = pop_span a k h in
      let hd : Header = record (c.headers h) { next = none } in
      (
        h,
        set_header c h hd,
        malloc-eq-big lt
            ∙ rw (malloc_big, span_list-is_read v k (omega (arith, le)), ◌>>=◌, p) refl,
        give (aside-IsArea t.area h hd (ground arith)) t.marked (ground arith)
            (ground (arith, t.flag)) (ap pages_of t.flag)
            (Keeps-trans t.keeps (aside-Keeps h hd (ground arith))),
      )

  from_larger :
      4080 < size
      → is_page (get_or a.span_list (span_slot_of size) (some 0)) ≡ false
      → span_slot_of size < span_slot_size
      → Larger (span_slot_of size) a
      → Outcome size a
  unfolding malloc_big occupy
  from_larger lt p le l =
      let k = span_slot_of size in
      let h = l.page in
      let c = l.rest in
      let sized : Header = record (c.headers h) { flag = pos k } in
      let c1 = set_header c h sized in
      let used : Header = record (c1.headers h) { next = none } in
      let c2 = set_header c1 h used in
      let t = l.taken in
      let w = aside-IsArea (aside-IsArea t.area h sized (ground arith)) h used (ground arith) in
      let e = ap pages_of t.flag in
      let pos_k : 0 < k = omega (arith, span_slot_of-fits size) in
      let u = kept-Cut k l.big h c2 w t.marked e pos_k l.larger in
      (
        h,
        kept k l.big h c2,
        malloc-eq-big lt
            ∙ rw
                (
                  malloc_big,
                  span_list-is_read v k (omega (arith, le)),
                  ◌>>=◌,
                  p,
                  l.is_taken,
                  keep_rest-eq-kept k l.big h c2 w t.marked e pos_k l.larger,
                )
                refl,
        give u.area u.marked (ap (λ hd. hd.next) u.same ∙ ground arith)
            (ap (λ hd. hd.flag) u.same ∙ ground arith) u.size_self
            (Keeps-trans t.keeps (
              Keeps-trans (aside-Keeps h sized (ground arith))
                (Keeps-trans (aside-Keeps h used (ground arith)) u.keeps))),
      )

  -- Where the heap is in order and has 60 pages left, Malloc of more than 4080 bytes that fit into
  -- fewer than 60 pages returns the place behind the header of a chunk in use of as many pages as
  -- they need; the heap stays in order, and every other chunk in use stays so with its header and
  -- lies apart from the new one.
  pub malloc-Given :
      4080 < size
      → span_slot_of size < span_slot_size
      → a.heap_pages + span_slot_size ≤ page_total_size
      → (h : ℕ) × (b : Arena) × (malloc size a ≡ done (some (h * page_len + span_header_size), b))
        × Given a h (span_slot_of size) b
  malloc-Given lt le room =
      let k = span_slot_of size in
      elim (Bool-cases (is_page (get_or a.span_list k (some 0)))) [
        | inl e ↦ exact lt le e
        | inr e ↦ from_larger lt e le (take_bigger-Larger k a v le room)
      ]
