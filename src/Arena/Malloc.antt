-- ===== src/Arena/Malloc.antt =====
-- `Malloc`: the address, or `none` for the null pointer.
use coplus.Prelude.{
  ℕ, zero, suc, ◌+◌, ◌*◌, ℤ, pos, negsuc, true, false, ◌&&◌, Option, none, some, ltb, leb, ◌==◌,
  get_elem?, assign, if◌then◌else◌,
}
use coplus.Arena.{
  Link, is_page, page_of, Header, Arena, Result, done, ◌>>=◌, from_table, page_len,
  span_header_size, page_header_size, set_header, set_pri, set_bin,
}
use coplus.Arena.Sizes.{template, bin_slot, bin_span_size, span_slot_of}
use coplus.Arena.Spans.{pop_span, take_bigger, keep_rest}

-- Minus a bin slot.
abbrev pub bin_flag : ℕ → ℤ
bin_flag zero = pos 0
bin_flag (suc slot) = negsuc slot

-- The chunk on page `h` becomes occupied.
unfoldable pub occupy : ℕ → Arena → Arena
occupy h a = set_header a h (record (a.headers h) { next = none })

unfoldable pub malloc_big : ℕ → Arena → Result (Option ℕ × Arena)
unfolding pop_span take_bigger keep_rest occupy
malloc_big size a = do
  let slot = span_slot_of size
  l ← from_table (get_elem? a.span_list slot)
  elim (is_page l) [
    | true ↦ done (
      some (page_of l * page_len + span_header_size),
      occupy (page_of l) (pop_span a slot (page_of l)),
    )
    | false ↦ do
      found ← take_bigger slot a
      elim found [
        | none ↦ done (none, a)
        | some (h, big, a') ↦ do
          let a'' = occupy h (set_header a' h (record (a'.headers h) { flag = pos slot }))
          b ← keep_rest slot big h a''
          done (some (h * page_len + span_header_size), b)
      ]
  ]

-- The page of objects to take from, if either of the first two has a free one.
unfoldable pub page_with_object : ℕ → Arena → Result Link
page_with_object slot a = do
  l ← from_table (get_elem? a.bins slot)
  let second = is_page l && leb (a.headers (page_of l)).free_offset 1
  let l' = (if second then (a.headers (page_of l)).next else l)
  done (if is_page l' && ltb 1 (a.headers (page_of l')).free_offset then l' else some 0)

-- The next free object of page `h`.
unfoldable pub take_object : ℕ → ℕ → Arena → ℕ × Arena
take_object slot h a =
    let hd = a.headers h in
    let free_object = h * page_len + hd.free_offset in
    if (a.words free_object == 0)
      && leb (free_object + template slot * 2) (h * page_len + bin_span_size slot * page_len)
    then (
      free_object,
      record (set_header a h
          (record hd { used = hd.used + 1; free_offset = hd.free_offset + template slot })) {
            words = assign a.words (free_object + template slot) 0;
          },
    )
    else (
      free_object,
      set_header a h (record hd { used = hd.used + 1; free_offset = a.words free_object }),
    )

-- A span becomes the first page of a bin, before `old`, with its first object taken.
unfoldable pub start_page : ℕ → ℕ → Link → Arena → ℕ × Arena
start_page slot h old a =
    let hd : Header = record {
      flag = bin_flag slot;
      pri = 0;
      next = old;
      free_offset = page_header_size + template slot;
      used = 1;
    } in
    let a' = set_bin (set_pri (set_header a h hd) old h) slot (some h) in
    let first = h * page_len + page_header_size in
    (first, record a' { words = assign a'.words (first + template slot) 0 })

unfoldable pub to_page : ℕ → ℕ → Arena → Result (Option ℕ × Arena)
unfolding start_page
to_page slot h a = do
  old ← from_table (get_elem? a.bins slot)
  let (p, b) = start_page slot h old a
  done (some p, b)

unfoldable pub malloc_small : ℕ → Arena → Result (Option ℕ × Arena)
unfolding page_with_object take_object to_page pop_span take_bigger keep_rest
malloc_small size a = do
  let slot = bin_slot size
  let pages = bin_span_size slot
  l ← page_with_object slot a
  elim (is_page l) [
    | true ↦ let (p, b) = take_object slot (page_of l) a in done (some p, b)
    | false ↦ do
      s ← from_table (get_elem? a.span_list pages)
      elim (is_page s) [
        | true ↦ to_page slot (page_of s) (pop_span a pages (page_of s))
        | false ↦ do
          found ← take_bigger pages a
          elim found [
            | none ↦ done (none, a)
            | some (h, big, a') ↦ keep_rest pages big h a' >>= to_page slot h
          ]
      ]
  ]

-- `Malloc`, of a size above 0.
unfoldable pub malloc : ℕ → Arena → Result (Option ℕ × Arena)
unfolding malloc_big malloc_small
malloc size a =
    if size == 0
    then done (none, a)
    else if ltb 4080 size
    then malloc_big size a
    else malloc_small size a
