-- ===== src/Arena/Heap/RoundTrip.antt =====
-- `Malloc` of more than 4080 bytes, and then `Free`.
use coplus.Prelude.{ℕ, ◌+◌, ◌*◌, ◌≤◌, ◌<◌, ◌≡◌, ap, ◌∙◌, some, arith}
use coplus.Arena.{Arena, done, span_slot_size, page_total_size, page_len, span_header_size}
use coplus.Arena.Sizes.{span_slot_of}
use coplus.Arena.Sizes.Fit.{span_slot_of-fits}
use coplus.Arena.Malloc.{malloc}
use coplus.Arena.Free.{free}
use coplus.Arena.Heap.{pages_of, IsHeap}
use coplus.Arena.Heap.Big.{IsChunk, Given, malloc-Given}
use coplus.Arena.Heap.Give.{free-Freed}

-- Where the heap is in order and has 60 pages left, Malloc of more than 4080 bytes that fit into
-- fewer than 60 pages returns the place behind the header of a chunk in use of as many pages as they
-- need, apart from the others, and Free of it returns; the heap is in order then, and every chunk
-- that was in use is, with its header.
pub malloc-free :
    (size : ℕ) (a : Arena)
    → IsHeap a
    → 4080 < size
    → span_slot_of size < span_slot_size
    → a.heap_pages + span_slot_size ≤ page_total_size
    → (h : ℕ) × (b : Arena) × (c : Arena) × (malloc size a
        ≡ done (some (h * page_len + span_header_size), b))
      × Given a h (span_slot_of size) b
      × (free (h * page_len + span_header_size) b ≡ done c)
      × IsHeap c
      × ((j : ℕ) → IsChunk a j → (c.headers j ≡ a.headers j) × IsChunk c j)
malloc-free size a v lt le room =
    let (h, b, e, g) = malloc-Given size a v lt le room in
    let ptr = h * page_len + span_header_size in
    let k = span_slot_of size in
    let fits = span_slot_of-fits size (omega (arith, lt)) in
    let (c, e', f) =
      free-Freed ptr h k b g.heap g.given g.flag (omega arith) (omega (arith, fits, lt)) in
    (
      h,
      b,
      c,
      e,
      g,
      e',
      f.heap,
      λ j y.
          let (same, z, apart) = g.others j y in
          let (same', w) =
            f.others j
              (ground (arith, apart, g.heap.tiled.bounds j z.marked, ap pages_of g.flag, fits)) z in
          (same' ∙ same, w),
    )
