-- ===== src/Arena/Heap/Serve.antt =====
-- `Malloc` of at most 4080 bytes.
use coplus.Prelude.{
  ℕ, suc, ◌+◌, ◌-◌, ◌≤◌, ◌<◌, ◌≡◌, refl, ap, ◌∙◌, true, false, ◌&&◌, Option, none, some, ltb, leb,
  ◌==◌, get_or, get_elem?, get_elem?-eq-get_or, if◌then◌else◌, arith, Bool-cases, inl, inr,
}
use coplus.Arena.{
  Link, is_page, page_of, Arena, Result, done, from_table, ◌>>=◌, span_slot_size, bin_slot_size,
  page_total_size,
}
use coplus.Arena.Sizes.{bin_slot, bin_span_size}
use coplus.Arena.Sizes.Fit.{bin_slot-IsSlot}
use coplus.Arena.Spans.{pop_span, take_bigger, keep_rest}
use coplus.Arena.Malloc.{page_with_object, take_object, to_page, malloc_small, malloc}
use coplus.Arena.Heap.{pages_of, size_at, head_at}
use coplus.Arena.Heap.Grow.{span_list-is_read}
use coplus.Arena.Heap.Busy.{Keeps-trans}
use coplus.Arena.Heap.Take.{pop_span-Taken, Larger, take_bigger-Larger}
use coplus.Arena.Heap.Cut.{kept, keep_rest-eq-kept, kept-Cut}
use coplus.Arena.Heap.Small.{
  IsServing, Stay, take-IsServing, first, begun, begun-IsServing, begun-Stay, to_page-eq,
}

pub bin_span_size-bounds :
    (slot : ℕ) → (0 < bin_span_size slot) × (bin_span_size slot < span_slot_size)
unfolding bin_span_size
bin_span_size-bounds slot = (ground arith, ground arith)

-- A pointer is returned, and the arena serves on.
abbrev Served : Arena → Result (Option ℕ × Arena) → Type 0
Served a r = (p : ℕ) × (b : Arena) × (r ≡ done (some p, b)) × IsServing b × Stay a b

-- The body of `malloc_small`, by the slot.
abbrev from_spans : ℕ → Arena → Result (Option ℕ × Arena)
from_spans slot a = from_table (get_elem? a.span_list (bin_span_size slot)) >>= λ (l : Link).
    elim (is_page l) [
      | true ↦ to_page slot (page_of l) (pop_span a (bin_span_size slot) (page_of l))
      | false ↦ take_bigger (bin_span_size slot) a >>= λ found. elim found [
        | none ↦ done (none, a)
        | some (h, big, a') ↦ keep_rest (bin_span_size slot) big h a' >>= to_page slot h
      ]
    ]

abbrev by_slot : ℕ → Arena → Result (Option ℕ × Arena)
by_slot slot a = page_with_object slot a >>= λ (l : Link). elim (is_page l) [
  | true ↦ let (p, b) = take_object slot (page_of l) a in done (some p, b)
  | false ↦ from_spans slot a
]

module _ (s : ℕ) (a : Arena) (v : IsServing a) (last : suc s ≤ bin_slot_size) where
  -- The page that `page_with_object` finds.
  abbrev picked : Link
  picked =
      let l = get_or a.bins (suc s) (some 0) in
      let second = is_page l && leb (a.headers (page_of l)).free_offset 1 in
      let l' = (if second then (a.headers (page_of l)).next else l) in
      if is_page l' && ltb 1 (a.headers (page_of l')).free_offset then l' else some 0

  page_with_object-eq : page_with_object (suc s) a ≡ done picked
  unfolding page_with_object
  page_with_object-eq =
      let r : from_table (get_elem? a.bins (suc s)) ≡ done (get_or a.bins (suc s) (some 0)) =
        ap from_table
          (get_elem?-eq-get_or a.bins (suc s) (some 0) (omega (arith, last, v.entries))) in
      rw (page_with_object, r) refl

  abbrev pages : ℕ
  pages = bin_span_size (suc s)

  abbrev from_span : Result (Option ℕ × Arena)
  from_span = from_spans (suc s) a

  exact : is_page (get_or a.span_list pages (some 0)) ≡ true → Served a from_span
  exact p =
      let h = head_at a pages in
      let b = pop_span a pages h in
      let t = pop_span-Taken a pages v.heap p in
      let e = ap pages_of t.flag in
      let bounds = bin_span_size-bounds (suc s) in
      (
        first s h a b (size_at b) v t.area t.marked e t.bins t.keeps last,
        begun s h a b (size_at b) v t.area t.marked e t.bins t.keeps last,
        rw (span_list-is_read v.heap pages (omega (arith, bounds)), ◌>>=◌, p)
            (to_page-eq s h a b (size_at b) v t.area t.marked e t.bins t.keeps last),
        begun-IsServing s h a b (size_at b) v t.area t.marked e t.bins t.keeps last,
        begun-Stay s h a b (size_at b) v t.area t.marked e t.bins t.keeps last,
      )

  larger : is_page (get_or a.span_list pages (some 0)) ≡ false → Larger pages a → Served a from_span
  larger p l =
      let h = l.page in
      let t = l.taken in
      let e = ap pages_of t.flag in
      let bounds = bin_span_size-bounds (suc s) in
      let b = kept pages l.big h l.rest in
      let u = kept-Cut pages l.big h l.rest t.area t.marked e bounds.0 l.larger in
      let bins = u.bins ∙ t.bins in
      let keeps = Keeps-trans t.keeps u.keeps in
      (
        first s h a b u.sizes v u.area u.marked u.size_self bins keeps last,
        begun s h a b u.sizes v u.area u.marked u.size_self bins keeps last,
        rw
            (
              span_list-is_read v.heap pages (omega (arith, bounds)),
              ◌>>=◌,
              p,
              l.is_taken,
              keep_rest-eq-kept pages l.big h l.rest t.area t.marked e bounds.0 l.larger,
            )
            (to_page-eq s h a b u.sizes v u.area u.marked u.size_self bins keeps last),
        begun-IsServing s h a b u.sizes v u.area u.marked u.size_self bins keeps last,
        begun-Stay s h a b u.sizes v u.area u.marked u.size_self bins keeps last,
      )

  by_slot-Served : a.heap_pages + span_slot_size ≤ page_total_size → Served a (by_slot (suc s) a)
  by_slot-Served room = elim (Bool-cases (is_page picked)) [
    | inl t ↦
        let (w, stay) = take-IsServing (suc s) (page_of picked) a v in
        (
          (take_object (suc s) (page_of picked) a).0,
          (take_object (suc s) (page_of picked) a).1,
          rw (page_with_object-eq, ◌>>=◌, t) refl,
          w,
          stay,
        )
    | inr t ↦
        let rest : Served a from_span =
          elim (Bool-cases (is_page (get_or a.span_list pages (some 0)))) [
            | inl p ↦ exact p
            | inr p ↦
                larger p (take_bigger-Larger pages a v.heap (bin_span_size-bounds (suc s)).1 room)
          ] in
        let (p, b, x, w, stay) = rest in (p, b, rw (page_with_object-eq, ◌>>=◌, t) x, w, stay)
  ]

malloc-eq-by_slot :
    (size : ℕ) (a : Arena) → 0 < size → size ≤ 4080 → malloc size a ≡ by_slot (bin_slot size) a
unfolding malloc malloc_small
malloc-eq-by_slot size a pos_size le =
    let z : size == 0 ≡ false = ground (arith, pos_size) in
    let small : ltb 4080 size ≡ false = ground (arith, le) in rw (malloc, z, small) refl

-- Where the heap is in order and has 60 pages left, and each bin is empty or begins with a chunk in
-- use, Malloc of 1 to 4080 bytes returns a pointer; the heap stays in order, each bin is empty or
-- begins with a chunk in use, and every chunk in use stays so with its size.
pub malloc-IsServing :
    (size : ℕ) (a : Arena)
    → IsServing a
    → 0 < size
    → size ≤ 4080
    → a.heap_pages + span_slot_size ≤ page_total_size
    → (p : ℕ) × (b : Arena) × (malloc size a ≡ done (some p, b)) × IsServing b × Stay a b
malloc-IsServing size a v pos_size le room =
    let slot = bin_slot-IsSlot size pos_size le in
    let s = bin_slot size - 1 in
    let e : bin_slot size ≡ suc s = omega (arith, slot.first) in
    let (p, b, x, w, stay) = by_slot-Served s a v (omega (arith, slot.first, slot.last)) room in
    (p, b, malloc-eq-by_slot size a pos_size le ∙ ap (λ n. by_slot n a) e ∙ x, w, stay)
