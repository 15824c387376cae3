-- ===== src/Arena/Heap/Tests.antt =====
-- The heap after `Init`, and the theorems at it.
use coplus.Prelude.{
  get_or-replicate, ℕ, ◌+◌, ◌*◌, ◌≡◌, refl, sym, ap, Option, none, some, true, false, ◌<◌, ◌≤◌, ◌⊎◌,
  arith, subst,
}
use coplus.Arena.{
  Link, page_of, Arena, Result, fault, bad_alloc, done, span_slot_size, self_reserved_page,
  page_len, span_header_size,
}
use coplus.Arena.Sizes.{span_slot_of}
use coplus.Arena.Spans.{
  init, first_spans, Reserved, null, map_failed, memory, blank, alloc_chunk_from_heap,
}
use coplus.Arena.Malloc.{malloc}
use coplus.Arena.Free.{free}
use coplus.Arena.Heap.{IsHeap, size_at}
use coplus.Arena.Heap.Small.{IsServing, Stay}
use coplus.Arena.Heap.Serve.{malloc-IsServing}
use coplus.Arena.Heap.Start.{init-IsHeap, first_spans-IsHeap}
use coplus.Arena.Heap.Big.{IsChunk, Given, malloc-Given}
use coplus.Arena.Heap.Loose.{Freed}
use coplus.Arena.Heap.Give.{free-Freed}
use coplus.Arena.Allocator.{allocate, deallocate, allocate-deallocate}

abbrev arena_of : Result Arena → Arena
unfolding blank
arena_of fault = blank
arena_of bad_alloc = blank
arena_of (done a) = a

abbrev arena_after : Result (Option ℕ × Arena) → Arena
unfolding blank
arena_after fault = blank
arena_after bad_alloc = blank
arena_after (done (p, a)) = a

-- One span of two pages and one of 60.
abbrev small : Arena
unfolding first_spans
small = arena_of (first_spans 1 1)

small-IsHeap : IsHeap small
unfolding arena_of small first_spans
small-IsHeap =
    let (b, e, v, m) = first_spans-IsHeap 1 1 (omega arith) in subst IsHeap (sym (ap arena_of e)) v

init-IsHeap_example :
    (b : Arena) × (init none (memory 1153) 128 1024 ≡ done (true, b))
    × IsHeap b
    × (b.heap_pages ≡ self_reserved_page + 128 * 2 + 1024 * span_slot_size)
    × ((r : Reserved) (small' large' : ℕ) → init (some b) r small' large' ≡ done (false, b))
init-IsHeap_example = init-IsHeap 1153 128 1024 (omega arith) (omega arith)

-- Init throws where no memory is reserved or committed, and writes through `MAP_FAILED`.
init_fails :
    (init none null 128 1024 ≡ bad_alloc)
    × (init none (memory 1152) 128 1024 ≡ bad_alloc)
    × (init none map_failed 128 1024 ≡ fault)
unfolding init
init_fails = (refl, refl, refl)

malloc-Given_example :
    (h : ℕ) × (b : Arena) × (malloc 10000 small ≡ done (some (h * page_len + span_header_size), b))
    × Given small h (span_slot_of 10000) b
unfolding first_spans span_slot_of alloc_chunk_from_heap
malloc-Given_example =
    malloc-Given 10000 small small-IsHeap (omega arith) (omega arith) (omega arith)

-- Three pages are in use.
abbrev used : Arena
unfolding malloc
used = arena_after (malloc 10000 small)

used-IsHeap : IsHeap used
unfolding arena_after used malloc
used-IsHeap =
    let (h, b, e, g) = malloc-Given_example in subst IsHeap (sym (ap arena_after e)) g.heap

-- They are cut from the large span, which starts on page 3.
used-IsChunk : IsChunk used 3
unfolding first_spans malloc span_slot_of
used-IsChunk = record { marked = refl; stays = refl; held = refl }

free-Freed_example : (b : Arena) × (free 20000 used ≡ done b) × Freed used 3 3 b
unfolding first_spans malloc span_slot_of
free-Freed_example =
    free-Freed 20000 3 3 used used-IsHeap used-IsChunk refl (omega arith) (omega arith)

-- 1250 objects of 8 bytes.
allocate-deallocate_example :
    (h : ℕ) × (b : Arena) × (c : Arena) × (allocate 8 1250 used
      ≡ done (some (h * page_len + span_header_size), b))
    × IsChunk b h
    × (1250 * 8 + span_header_size ≤ size_at b h * page_len)
    × (size_at b h * page_len < 1250 * 8 + span_header_size + page_len)
    × ((j : ℕ) → IsChunk used j → (j + size_at b j ≤ h) ⊎ (h + size_at b h ≤ j))
    × (deallocate 8 (h * page_len + span_header_size) 1250 b ≡ done c)
    × IsHeap c
    × ((j : ℕ) → IsChunk used j → (c.headers j ≡ used.headers j) × IsChunk c j)
unfolding first_spans malloc span_slot_of
allocate-deallocate_example =
    allocate-deallocate 8 1250 used used-IsHeap (omega arith) (omega arith) (omega arith)

small-IsServing : IsServing small
unfolding arena_of small first_spans blank alloc_chunk_from_heap
small-IsServing = record {
  heap = small-IsHeap;
  entries = refl;
  fronts = λ k ne. absurd (ne (ap page_of (get_or-replicate {A = Link} 40 (some 0) k)));
}

malloc-IsServing_example :
    (p : ℕ) × (b : Arena) × (malloc 300 small ≡ done (some p, b)) × IsServing b × Stay small b
unfolding first_spans alloc_chunk_from_heap
malloc-IsServing_example =
    malloc-IsServing 300 small small-IsServing (omega arith) (omega arith) (omega arith)
