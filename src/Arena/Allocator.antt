-- ===== src/Arena/Allocator.antt =====
-- `allocator` of include/coplus/arena/allocator.h, over the one arena: `sizeof(T)` is a parameter.
use coplus.Prelude.{
  ℕ, ◌+◌, ◌*◌, ◌/◌, ◌≤◌, ◌<◌, ◌^◌, ◌≡◌, false, ◌⊎◌, ap, Option, none, some, leb, if◌then◌else◌, u32,
  arith,
}
use coplus.Arena.{Arena, Result, done, page_total_size, page_len, span_slot_size, span_header_size}
use coplus.Arena.Sizes.{span_slot_of}
use coplus.Arena.Sizes.Fit.{span_slot_of-fits}
use coplus.Arena.Malloc.{malloc}
use coplus.Arena.Free.{free}
use coplus.Arena.Heap.{IsHeap, pages_of, size_at}
use coplus.Arena.Heap.Big.{IsChunk}
use coplus.Arena.Heap.RoundTrip.{malloc-free}

module _ (size_of : ℕ) where
  -- The number of bytes becomes an `int32_t`, and `Malloc` of a negative one is a null pointer.
  unfoldable pub allocate : ℕ → Arena → Result (Option ℕ × Arena)
  allocate n a =
      let size = u32 (n * size_of) in if leb (2 ^ 31) size then done (none, a) else malloc size a

  unfoldable pub deallocate : ℕ → ℕ → Arena → Result Arena
  deallocate ptr n a = free ptr a

  abbrev pub max_size : ℕ
  max_size = page_total_size * page_len / size_of

  -- Where the heap is in order and has 60 pages left, and the objects take more than 4080 bytes and fit
  -- into fewer than 60 pages: allocate returns the place behind the header of a chunk in use, which
  -- lies apart from every chunk that was in use, and whose pages have room for the header and the
  -- objects, with less than a page to spare; deallocate of it returns; the heap is in order then, and
  -- every chunk that was in use is, with its header.
  pub allocate-deallocate :
      (n : ℕ) (a : Arena)
      → IsHeap a
      → 4080 < n * size_of
      → span_slot_of (n * size_of) < span_slot_size
      → a.heap_pages + span_slot_size ≤ page_total_size
      → (h : ℕ) × (b : Arena) × (c : Arena) × (allocate n a
          ≡ done (some (h * page_len + span_header_size), b))
        × IsChunk b h
        × (n * size_of + span_header_size ≤ size_at b h * page_len)
        × (size_at b h * page_len < n * size_of + span_header_size + page_len)
        × ((j : ℕ) → IsChunk a j → (j + size_at b j ≤ h) ⊎ (h + size_at b h ≤ j))
        × (deallocate (h * page_len + span_header_size) n b ≡ done c)
        × IsHeap c
        × ((j : ℕ) → IsChunk a j → (c.headers j ≡ a.headers j) × IsChunk c j)
  unfolding allocate deallocate
  allocate-deallocate n a v lt le room =
      let fits = span_slot_of-fits (n * size_of) (omega (arith, lt)) in
      let same : u32 (n * size_of) ≡ n * size_of = omega (arith, fits, le) in
      let small : leb (2 ^ 31) (n * size_of) ≡ false = ground (arith, fits, le) in
      let (h, b, c, e, g, e', w, others) = malloc-free (n * size_of) a v lt le room in
      let pages : size_at b h ≡ span_slot_of (n * size_of) = ap pages_of g.flag in
      (
        h,
        b,
        c,
        rw (allocate, same, small) e,
        g.given,
        omega (arith, pages, fits),
        omega (arith, pages, fits),
        λ j y. rw (pages) (g.others j y).2,
        e',
        w,
        others,
      )
