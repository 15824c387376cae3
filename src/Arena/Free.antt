-- ===== src/Arena/Free.antt =====
-- `Free`.
use coplus.Prelude.{
  ℕ, zero, suc, ◌+◌, ◌-◌, ◌*◌, ◌/◌, ℤ, pos, negsuc, Bool, true, false, not, ◌&&◌, ◌||◌, Option,
  none, some, ltb, leb, ◌==◌, get_elem?, assign, if◌then◌else◌,
}
use coplus.Arena.{
  Link, is_page, page_of, Header, Arena, Result, done, ◌>>=◌, from_table, page_len, span_slot_size,
  self_reserved_page, set_header, set_pri, set_span, set_bin, linked_node_delete,
}
use coplus.Arena.Sizes.{bin_span_size}
use coplus.Arena.Spans.{push_span, unlink_span}

-- `SpanHandleOf`: down to the first page of the span.
unfoldable pub span_handle_of : (ℕ → Bool) → ℕ → ℕ
span_handle_of is_head zero = zero
span_handle_of is_head (suc cur) = elim (is_head (suc cur)) [
  | true ↦ suc cur
  | false ↦ span_handle_of is_head cur
]

-- An object goes back to its page, which stays; a page with fewer objects in use than the first of
-- its bin becomes the first. `b` is the first.
unfoldable pub flush_object : ℕ → ℕ → ℕ → ℕ → Arena → Arena
flush_object ptr slot h b a =
    let hd = a.headers h in
    let used = hd.used - 1 in
    let a' = record (set_header a h (record hd { used = used; free_offset = ptr - h * page_len })) {
      words = assign a.words ptr hd.free_offset;
    } in
    if ltb used (a'.headers b).used
    then (let next = (a'.headers h).next in
        let n = page_of next in
        let a1 = set_header a' b (record (a'.headers b) { pri = h; next = next }) in
        let a2 = set_header a1 n (record (a1.headers n) { pri = n }) in
        let a3 = set_header a2 h (record (a2.headers h) { next = some b; pri = 0 }) in
        set_bin a3 slot (some h))
    else a'

-- A page whose last object is freed leaves its bin and becomes a span.
unfoldable pub release_page : ℕ → ℕ → Arena → Arena
unfolding linked_node_delete
release_page slot h a =
    let hd = record (a.headers h) { used = (a.headers h).used - 1 } in
    let a' = set_header a h hd in
    let a'' =
      if hd.pri == 0
      then set_pri (set_bin a' slot hd.next) hd.next 0
      else linked_node_delete a' hd in
    set_header a'' h (record (a''.headers h) { flag = pos (bin_span_size slot) })

-- A neighbour that is a free span of at most `max` pages: its size.
unfoldable pub mergeable : Header → ℕ → Option ℕ
mergeable hd max = elim hd.next [
  | none ↦ none
  | some _ ↦ elim hd.flag [
    | negsuc _ ↦ none
    | pos k ↦ (if ltb 0 k && leb k max then some k else none)
  ]
]

-- The neighbour goes: off its list and into the span.
unfoldable pub absorb : ℕ → ℕ → Arena → Arena
unfolding unlink_span
absorb slot h a = let a' = unlink_span a slot h in record a' { is_head = assign a'.is_head h false }

unfoldable pub merge_forward : ℕ → ℕ → Arena → ℕ × Arena
unfolding mergeable absorb
merge_forward h size a =
    let neighbor = h + size in
    let found =
      if leb neighbor (a.heap_pages - self_reserved_page)
      then mergeable (a.headers neighbor) (span_slot_size - size)
      else none in
    elim found [
      | none ↦ (size, a)
      | some k ↦
          let a' = absorb k neighbor a in
          (size + k, set_header a' h (record (a'.headers h) { flag = pos (size + k) }))
    ]

-- The page that the merged span starts at, and its size. `max` is `maxToMerge`.
unfoldable pub merge_backward : ℕ → ℕ → ℕ → Arena → Result (ℕ × ℕ × Arena)
unfolding span_handle_of mergeable absorb
merge_backward h size max a = do
  let neighbor = span_handle_of a.is_head (h - 1)
  l ← from_table (get_elem? a.span_list size)
  let found =
      (if ltb 0 neighbor && is_page l && ltb size 12
        then mergeable (a.headers neighbor) max
        else none)
  elim found [
    | none ↦ done (h, size, a)
    | some k ↦
        let a' = absorb k neighbor a in
        done (
          neighbor,
          k + size,
          set_header a' neighbor (record (a'.headers neighbor) { flag = pos (k + size) }),
        )
  ]

-- The lazy strategy: the span goes to the front of its list as it is.
unfoldable pub keep_span : ℕ → ℕ → Link → Arena → Arena
keep_span size h old a =
    let a' = set_pri a old h in
    set_span (set_header a' h (record (a'.headers h) { next = old; pri = 0 })) size (some h)

unfoldable pub free_span : ℕ → ℕ → Arena → Result Arena
unfolding keep_span merge_forward merge_backward push_span
free_span h size a = do
  l ← from_table (get_elem? a.span_list size)
  elim (not (is_page l) || leb 12 size) [
    | true ↦ done (keep_span size h l a)
    | false ↦ do
      let (size1, a1) = merge_forward h size (record a { is_head = assign a.is_head h false })
      (h2, size2, a2) ← merge_backward h size1 (span_slot_size - size1) a1
      old ← from_table (get_elem? a2.span_list size2)
      done (push_span (record a2 { is_head = assign a2.is_head h2 true }) size2 h2 old)
  ]

-- Minus the flag of a page of objects.
abbrev pub slot_of : ℤ → ℕ
slot_of (pos _) = 0
slot_of (negsuc k) = suc k

-- A page of objects stays while objects are in use, while the free offset is low, and while it is
-- the first of its bin.
unfoldable pub free_object : ℕ → ℕ → ℕ → Arena → Result Arena
unfolding flush_object release_page free_span
free_object ptr h slot a = do
  l ← from_table (get_elem? a.bins slot)
  let hd = a.headers h
  let stays =
      ltb 0 (hd.used - 1) || ltb hd.free_offset (bin_span_size slot * 512) || (page_of l == h)
  elim stays [
    | true ↦ done (flush_object ptr slot h (page_of l) a)
    | false ↦ free_span h (bin_span_size slot) (release_page slot h a)
  ]

-- `Free` of a pointer into the arena.
unfoldable pub free : ℕ → Arena → Result Arena
unfolding span_handle_of free_object free_span
free ptr a =
    let h = span_handle_of a.is_head (ptr / page_len) in
    elim (a.headers h).flag [
      | negsuc k ↦ free_object ptr h (suc k) a
      | pos zero ↦ free_object ptr h 0 a
      | pos (suc k) ↦ free_span h (suc k) a
    ]
