-- ===== src/Arena/Heap/Take.antt =====
-- A span that leaves its list to be used: the search for a larger one, and what is left of it.
use coplus.Prelude.{
  ℕ, zero, suc, ◌+◌, ◌-◌, ◌≤◌, ◌<◌, ◌≡◌, ◌≢◌, refl, sym, ap, ◌∙◌, pos, List, [], ◌∷◌, true, false,
  none, some, ltb, get_or, length, assign, arith, subst, fun_ext, Bool-cases, inl, inr,
}
use coplus.Arena.{Link, is_page, page_of, Arena, done, ◌>>=◌, span_slot_size, page_total_size}
use coplus.Arena.Spans.{pop_span, unlink_span, first_page, drop, bigger_span, take_bigger}
use coplus.Arena.Heap.{pages_of, size_at, head_at, IsArea, IsHeap}
use coplus.Arena.Heap.Links.{unlink-Unlinked, pop-eq-unlink}
use coplus.Arena.Heap.Steps.{free-IsSpan, span_size, unlink-IsArea}
use coplus.Arena.Heap.Busy.{Keeps, Keeps-trans, unlink-Keeps}
use coplus.Arena.Heap.Grow.{nowhere, span_list-is_read, grown, grown-Grown, alloc_chunk-eq-grown}

-- The first list with a page, from `n` on, in a table that begins at `n`.
record Found (ls : List Link) (n r : ℕ) : Type 0 where
  at_least : n ≤ r
  at_most : r ≤ n + length ls
  has_page : r < n + length ls → is_page (get_or ls (r - n) (some 0)) ≡ true

first_page-Found : (ls : List Link) (n : ℕ) → Found ls n (first_page ls n)
unfolding first_page
first_page-Found [] n = record {
  at_least = omega arith;
  at_most = omega arith;
  has_page = λ lt. absurd (omega arith);
}
first_page-Found (l ∷ ls) n = elim (Bool-cases (is_page l)) [
  | inl e ↦
      rw (first_page, e)
        (record {
          at_least = omega arith;
          at_most = omega arith;
          has_page = λ lt.
              subst (λ i. is_page (get_or (l ∷ ls) i (some 0)) ≡ true) {x = 0} (omega arith) e;
        })
  | inr e ↦
      let f = first_page-Found ls (suc n) in
      let r = first_page ls (suc n) in
      rw (first_page, e)
        (record {
          at_least = omega (arith, f.at_least);
          at_most = omega (arith, f.at_most);
          has_page = λ lt.
              subst (λ i. is_page (get_or (l ∷ ls) i (some 0)) ≡ true) {x = suc (r - suc n)}
                (omega (arith, f.at_least)) (f.has_page (omega arith));
        })
]

get_or-drop :
    (ls : List Link) (n i : ℕ) → get_or (drop ls n) i (some 0) ≡ get_or ls (n + i) (some 0)
get_or-drop ls zero i = ground arith
get_or-drop [] (suc n) i = refl
get_or-drop (l ∷ ls) (suc n) i = get_or-drop ls n i ∙ ground arith

length-drop : (ls : List Link) (n : ℕ) → length (drop ls n) ≡ length ls - n
length-drop ls zero = omega arith
length-drop [] (suc n) = omega arith
length-drop (l ∷ ls) (suc n) = omega (arith, length-drop ls n)

-- Either the list is one with a page, or it is the one past the last.
pub bigger_span-has_page :
    (a : Arena) (slot : ℕ)
    → length a.span_list ≡ span_slot_size + 1
    → slot < span_slot_size
    → (slot < bigger_span a slot)
      × (bigger_span a slot ≤ span_slot_size + 1)
      × (bigger_span a slot ≤ span_slot_size
          → is_page (get_or a.span_list (bigger_span a slot) (some 0)) ≡ true)
unfolding bigger_span
bigger_span-has_page a slot e lt =
    let ls = drop a.span_list (slot + 1) in
    let f = first_page-Found ls (slot + 1) in
    let r = first_page ls (slot + 1) in
    let n = length-drop a.span_list (slot + 1) in
    (
      omega (arith, f.at_least),
      omega (arith, f.at_most, n, e),
      λ le.
          subst (λ i. is_page (get_or a.span_list i (some 0)) ≡ true) (omega (arith, f.at_least))
            (ap is_page (sym (get_or-drop a.span_list (slot + 1) (r - (slot + 1))))
              ∙ f.has_page (omega (arith, n, e))),
    )

pub is_page-page_of : (l : Link) → is_page l ≡ true → (page_of l ≢ 0) × (l ≡ some (page_of l))
is_page-page_of none e = absurd (ground (arith, e))
is_page-page_of (some n) e = (ground (arith, e), refl)

-- A span of `big` pages is off its list, and all else is as it was.
pub record Taken (a : Arena) (h big : ℕ) (b : Arena) : Type 0 where
  pub area : IsArea b.is_head (assign nowhere h true) (size_at b) b
  pub marked : b.is_head h ≡ true
  pub flag : (b.headers h).flag ≡ pos big
  pub bins : b.bins ≡ a.bins
  pub keeps : Keeps a.is_head nowhere a b.is_head (assign nowhere h true) b

pub pop_span-Taken :
    (a : Arena) (k : ℕ)
    → IsHeap a
    → is_page (get_or a.span_list k (some 0)) ≡ true
    → Taken a (head_at a k) k (pop_span a k (head_at a k))
pop_span-Taken a k v p =
    let h = head_at a k in
    let (ne, e) = is_page-page_of (get_or a.span_list k (some 0)) p in
    let s = free-IsSpan (v.linked.is_free k ne) in
    let le = (span_size v s).1 in
    let u = unlink-Unlinked a k h (ground (arith, v.entries, le)) in
    let b = unlink_span a k h in
    let sizes : size_at a ≡ size_at b = fun_ext (λ j. ap pages_of (sym (u.flags j))) in
    let heads = sym u.chunks.is_head in
    subst (λ c. Taken a h k c) (sym (pop-eq-unlink a k h (v.linked.at_front k ne)))
      (record {
        area =
            subst (λ hs. IsArea hs (assign nowhere h true) (size_at b) b) heads
              (subst (λ z. IsArea a.is_head (assign nowhere h true) z b) sizes
                (unlink-IsArea v h k s));
        marked = ap (λ hs. hs h) u.chunks.is_head ∙ s.marked;
        flag = u.flags h ∙ s.flag;
        bins = u.chunks.bins;
        keeps =
            subst (λ hs. Keeps a.is_head nowhere a hs (assign nowhere h true) b) heads
              (unlink-Keeps v h k s);
      })

-- A span larger than `slot` is found, or comes from the heap.
pub record Larger (slot : ℕ) (a : Arena) : Type 0 where
  pub page : ℕ
  pub big : ℕ
  pub rest : Arena
  pub is_taken : take_bigger slot a ≡ done (some (page, big, rest))
  pub larger : slot < big
  pub taken : Taken a page big rest

module _ (slot : ℕ) (a : Arena) (v : IsHeap a) (lt : slot < span_slot_size) where
  in_list : bigger_span a slot ≤ span_slot_size → Larger slot a
  unfolding take_bigger
  in_list le =
      let b = bigger_span-has_page a slot v.entries lt in
      let p = b.2 le in
      let big = bigger_span a slot in
      let e : ltb span_slot_size big ≡ false = ground (arith, le) in
      record {
        page = head_at a big;
        big = big;
        rest = pop_span a big (head_at a big);
        is_taken = rw (take_bigger, e, span_list-is_read v big le, ◌>>=◌, p) refl;
        larger = b.0;
        taken = pop_span-Taken a big v p;
      }

  from_heap :
      span_slot_size < bigger_span a slot
      → a.heap_pages + span_slot_size ≤ page_total_size
      → Larger slot a
  unfolding take_bigger
  from_heap more room =
      let b = bigger_span-has_page a slot v.entries lt in
      let big = bigger_span a slot in
      let e : ltb span_slot_size big ≡ true = ground (arith, more) in
      let last : big - 1 ≡ span_slot_size = omega (arith, b.1, more) in
      let g = grown-Grown span_slot_size a v (omega arith) (omega arith) room in
      let c = grown span_slot_size a in
      let p : is_page (get_or c.span_list span_slot_size (some 0)) ≡ true =
        ap is_page g.at_head ∙ ground arith in
      let t = pop_span-Taken c span_slot_size g.heap p in
      record {
        page = head_at c span_slot_size;
        big = span_slot_size;
        rest = pop_span c span_slot_size (head_at c span_slot_size);
        is_taken =
            rw
              (
                take_bigger,
                e,
                alloc_chunk-eq-grown span_slot_size a v (omega arith) room,
                last,
                span_list-is_read g.heap span_slot_size (omega arith),
                ◌>>=◌,
                p,
                last,
              )
              refl;
        larger = lt;
        taken = record {
          area = t.area;
          marked = t.marked;
          flag = t.flag;
          bins = t.bins ∙ g.bins;
          keeps = Keeps-trans g.keeps t.keeps;
        };
      }

  pub take_bigger-Larger : a.heap_pages + span_slot_size ≤ page_total_size → Larger slot a
  take_bigger-Larger room = elim (Bool-cases (ltb span_slot_size (bigger_span a slot))) [
    | inl e ↦ from_heap (ground (arith, e)) room
    | inr e ↦ in_list (ground (arith, e))
  ]
