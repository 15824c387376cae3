-- ===== src/Arena/Heap/Start.antt =====
-- `Init`.
use coplus.Prelude.{
  get_or-replicate, ℕ, zero, suc, ◌+◌, ◌*◌, ◌≤◌, ◌<◌, ◌≡◌, refl, ap, ◌∙◌, none, some, true, false,
  ltb, arith,
}
use coplus.Arena.{
  Link, page_of, Arena, Result, done, span_slot_size, page_total_size, self_reserved_page,
}
use coplus.Arena.Spans.{blank, chunks_from_heap, first_spans, Reserved, memory, init}
use coplus.Arena.Heap.{IsHeap}
use coplus.Arena.Heap.Grow.{grown, grown-Grown, alloc_chunk-eq-grown}

blank-IsHeap : IsHeap blank
unfolding blank
blank-IsHeap = record {
  entries = refl;
  readable = λ k e. ground (arith, get_or-replicate {A = Link} 61 (some 0) k, e);
  reserved = omega arith;
  inside = omega arith;
  tiled = record {
    bounds = λ h m. absurd (ground (arith, m));
    next_head = λ h m. absurd (ground (arith, m));
    inner = λ h j m lo hi. refl;
    first = λ p. absurd (omega (arith, p));
  };
  small = λ h m. absurd (ground (arith, m));
  sized = λ h m o. refl;
  linked = record {
    no_page = refl;
    after = λ h k e. absurd (ground (arith, e));
    back = λ h k e. absurd (ground (arith, e));
    first = λ h k e. absurd (ground (arith, e));
    before = λ h k e. absurd (ground (arith, e));
    forth = λ h k e. absurd (ground (arith, e));
    is_free = λ k ne. absurd (ne (ap page_of (get_or-replicate {A = Link} 61 (some 0) k)));
    at_front = λ k ne. absurd (ne (ap page_of (get_or-replicate {A = Link} 61 (some 0) k)));
  };
}

abbrev Begun : Result Arena → ℕ → Type 0
Begun r pages = (b : Arena) × (r ≡ done b) × IsHeap b × (b.heap_pages ≡ pages)

chunks-IsHeap :
    (n page : ℕ) (a : Arena)
    → IsHeap a
    → 0 < page
    → page ≤ span_slot_size
    → a.heap_pages + n * page ≤ page_total_size
    → Begun (chunks_from_heap n page a) (a.heap_pages + n * page)
unfolding chunks_from_heap
chunks-IsHeap zero page a v p le room = (a, refl, v, omega arith)
chunks-IsHeap (suc n) page a v p le room =
    let now : a.heap_pages + page ≤ page_total_size = ground (arith, room) in
    let g = grown-Grown page a v p le now in
    let (b, e, w, m) =
      chunks-IsHeap n page (grown page a) g.heap p le (ground (arith, g.taken, room)) in
    (
      b,
      rw (chunks_from_heap, alloc_chunk-eq-grown page a v le now) e,
      w,
      m ∙ ground (arith, g.taken),
    )

pub first_spans-IsHeap :
    (small large : ℕ)
    → self_reserved_page + small * 2 + large * span_slot_size ≤ page_total_size
    → (b : Arena) × (first_spans small large ≡ done b)
      × IsHeap b
      × (b.heap_pages ≡ self_reserved_page + small * 2 + large * span_slot_size)
unfolding first_spans blank
first_spans-IsHeap small large room =
    let (a, e, v, m) =
      chunks-IsHeap small 2 blank blank-IsHeap (omega arith) (omega arith) (omega (arith, room)) in
    let (b, e', w, m') =
      chunks-IsHeap large span_slot_size a v (omega arith) (omega arith)
        (ground (arith, m, room)) in
    (b, rw (first_spans, e) e', w, m' ∙ ground (arith, m))

-- Where there is no arena yet, memory is reserved and can be committed for each chunk that Init asks
-- for, and the reserved pages, two for each of the small spans and 60 for each of the large ones fit
-- into the arena: Init says yes and ends with the heap in order and with these pages taken, and
-- another Init, whatever memory it would get, says no and leaves the arena as it is.
pub init-IsHeap :
    (commits small large : ℕ)
    → small + large < commits
    → self_reserved_page + small * 2 + large * span_slot_size ≤ page_total_size
    → (b : Arena) × (init none (memory commits) small large ≡ done (true, b))
      × IsHeap b
      × (b.heap_pages ≡ self_reserved_page + small * 2 + large * span_slot_size)
      × ((r : Reserved) (small' large' : ℕ) → init (some b) r small' large' ≡ done (false, b))
unfolding init
init-IsHeap commits small large enough room =
    let (b, e, v, m) = first_spans-IsHeap small large room in
    let committed : ltb commits (1 + small + large) ≡ false = ground (arith, enough) in
    (b, simp (init, committed, e), v, m, λ r small' large'. refl)
