-- ===== src/Arena/Spans.antt =====
-- The free lists of spans, and the heap behind them. After `Init`, `Commit` is that of the Linux port,
-- which always succeeds; the reserved memory ends where `kPageTotalSize` pages do.
use coplus.Prelude.{
  ℕ, zero, suc, ◌+◌, ◌-◌, pos, List, [], ◌∷◌, Bool, true, false, Option, none, some, ltb, get_elem?,
  replicate, assign, if◌then◌else◌,
}
use coplus.Arena.{
  Link, is_page, page_of, Arena, Result, fault, bad_alloc, done, ◌>>=◌, from_table, page_total_size,
  span_slot_size, bin_slot_size, self_reserved_page, set_header, set_pri, set_span,
  linked_node_delete,
}

-- The first page of a list goes: the head moves on, and `LinkedNodeDeleteHead`.
unfoldable pub pop_span : Arena → ℕ → ℕ → Arena
pop_span a slot h = let next = (a.headers h).next in set_pri (set_span a slot next) next 0

-- A page goes to the front of a list whose head was `old`.
unfoldable pub push_span : Arena → ℕ → ℕ → Link → Arena
push_span a slot h old =
    let a' = set_header a h (record (a.headers h) { pri = 0; next = old }) in
    set_span (set_pri a' old h) slot (some h)

-- A free span leaves its list, wherever it stands.
unfoldable pub unlink_span : Arena → ℕ → ℕ → Arena
unfolding pop_span linked_node_delete
unlink_span a slot h = elim (a.headers h).pri [
  | zero ↦ pop_span a slot h
  | suc p ↦ linked_node_delete a (a.headers h)
]

-- `AllocMemFromHeap`, for whole pages: the first page.
unfoldable pub alloc_mem_from_heap : ℕ → Arena → Result (ℕ × Arena)
alloc_mem_from_heap pages a =
    if ltb page_total_size (a.heap_pages + pages)
    then bad_alloc
    else (done
        (a.heap_pages - self_reserved_page + 1, record a { heap_pages = a.heap_pages + pages }))

-- `AllocArbitaryChunkFromHeap`, and `AllocMaxChunkFromHeap` for 60 pages.
unfoldable pub alloc_chunk_from_heap : ℕ → Arena → Result Arena
unfolding alloc_mem_from_heap push_span
alloc_chunk_from_heap page a = do
  (h, a') ← alloc_mem_from_heap page a
  old ← from_table (get_elem? a'.span_list page)
  let a'' = record a' { is_head = assign a'.is_head h true }
  done (push_span (set_header a'' h (record (a''.headers h) { flag = pos page })) page h old)

-- A loop that allocates `count` chunks.
unfoldable pub chunks_from_heap : ℕ → ℕ → Arena → Result Arena
chunks_from_heap zero page a = done a
chunks_from_heap (suc count) page a = alloc_chunk_from_heap page a >>= chunks_from_heap count page

-- The tables as `Init` makes them: zeroes. Memory from `mmap` is all zeroes.
unfoldable pub blank : Arena
blank = record {
  heap_pages = self_reserved_page;
  is_head = λ _. false;
  bins = replicate (bin_slot_size + 1) (some 0);
  span_list = replicate (span_slot_size + 1) (some 0);
  headers = λ _. record { flag = pos 0; pri = 0; next = some 0; free_offset = 0; used = 0 };
  words = λ _. 0;
}

-- The spans that `Init` starts with: those of two pages, and the largest.
unfoldable pub first_spans : ℕ → ℕ → Result Arena
unfolding chunks_from_heap blank
first_spans small large = do
  a ← chunks_from_heap small 2 blank
  chunks_from_heap large span_slot_size a

-- What `GetReserved` gives: a null pointer, the `MAP_FAILED` of a `mmap` that is refused, or memory,
-- with the number of calls of `Commit` that succeed, one after the other.
pub data Reserved : Type 0 where
  null : Reserved
  map_failed : Reserved
  memory : (commits : ℕ) → Reserved

-- `Init`, where the arena is there already or not, with its numbers of spans. It commits the
-- reserved pages and the spans. `MAP_FAILED` is taken for memory, and written to.
unfoldable pub init : Option Arena → Reserved → ℕ → ℕ → Result (Bool × Arena)
unfolding first_spans
init (some a) r small large = done (false, a)
init none null small large = bad_alloc
init none map_failed small large = fault
init none (memory commits) small large =
    if ltb commits (1 + small + large)
    then bad_alloc
    else first_spans small large >>= (λ a. done (true, a))

-- The first list from `slot` on that has a page; past the last where there is none. The source
-- reads one entry past the table too, and whatever it holds goes on to the heap.
unfoldable pub first_page : List Link → ℕ → ℕ
first_page [] slot = slot
first_page (l ∷ ls) slot = elim (is_page l) [ true ↦ slot | false ↦ first_page ls (suc slot) ]

abbrev pub drop : List Link → ℕ → List Link
drop ls zero = ls
drop [] (suc n) = []
drop (l ∷ ls) (suc n) = drop ls n

unfoldable pub bigger_span : Arena → ℕ → ℕ
unfolding first_page
bigger_span a slot = first_page (drop a.span_list (slot + 1)) (slot + 1)

-- A span larger than `slot`, off its list: its page and its size. The heap serves where no list does.
unfoldable pub take_bigger : ℕ → Arena → Result (Option (ℕ × ℕ × Arena))
unfolding bigger_span alloc_chunk_from_heap pop_span
take_bigger slot a = do
  (big, a') ← elim (ltb span_slot_size (bigger_span a slot)) [
    | false ↦ done (bigger_span a slot, a)
    | true ↦
        alloc_chunk_from_heap span_slot_size a >>= λ (a' : Arena). done (bigger_span a slot - 1, a')
  ]
  l ← from_table (get_elem? a'.span_list big)
  elim (is_page l) [
    | false ↦ done none
    | true ↦ done (some (page_of l, big, pop_span a' big (page_of l)))
  ]

-- What is left of a span of `big` pages from `h` on, beyond the first `slot`.
unfoldable pub keep_rest : ℕ → ℕ → ℕ → Arena → Result Arena
unfolding push_span
keep_rest slot big h a = do
  let rest = h + slot
  old ← from_table (get_elem? a.span_list (big - slot))
  let a' = record a { is_head = assign a.is_head rest true }
  done (
      push_span (set_header a' rest (record (a'.headers rest) { flag = pos (big - slot) }))
        (big - slot) rest old)
