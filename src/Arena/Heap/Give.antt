-- ===== src/Arena/Heap/Give.antt =====
-- `Free` of a chunk of whole pages.
use coplus.Prelude.{
  ℕ, zero, suc, ◌+◌, ◌-◌, ◌*◌, ◌/◌, ◌≤◌, ◌<◌, ◌≡◌, refl, ap, ◌∙◌, pos, Bool, true, false, not, ◌&&◌,
  ◌||◌, some, ltb, leb, get_or, assign, arith, fun_ext, Option-cases, Bool-cases, inl, inr,
}
use coplus.Arena.{is_page, Arena, Result, done, ◌>>=◌, page_len, set_header, span_slot_size}
use coplus.Arena.Spans.{push_span}
use coplus.Arena.Free.{
  span_handle_of, mergeable, absorb, merge_forward, merge_backward, keep_span, free_span, free,
}
use coplus.Arena.Heap.{pages_of, size_at, IsArea, IsHeap}
use coplus.Arena.Heap.Tiled.{scan_inside}
use coplus.Arena.Heap.Links.{push-Pushed, keep-Pushed}
use coplus.Arena.Heap.Steps.{aside-is_no_head}
use coplus.Arena.Heap.Chunks.{leave-IsArea, remark-IsArea}
use coplus.Arena.Heap.Busy.{Keeps-trans, remark-Keeps}
use coplus.Arena.Heap.Grow.{nowhere, span_list-is_read}
use coplus.Arena.Heap.Big.{IsChunk}
use coplus.Arena.Heap.Loose.{Loose, Freed, link-Freed}
use coplus.Arena.Heap.Merge.{merge_forward-Loose, backward-Loose, at_most}

-- The scan down reads no mark above its start.
scan-below :
    (f g : ℕ → Bool) (c : ℕ)
    → ((j : ℕ) → j ≤ c → f j ≡ g j)
    → span_handle_of f c ≡ span_handle_of g c
unfolding span_handle_of
scan-below f g zero e = refl
scan-below f g (suc c) e =
    let rest = scan-below f g c (λ j le. e j (omega (arith, le))) in
    let same = e (suc c) (omega arith) in
    elim (Bool-cases (g (suc c))) [
      | inl t ↦ rw (span_handle_of, same ∙ t, t) refl
      | inr t ↦ rw (span_handle_of, same ∙ t, t) rest
    ]

-- What `merge_backward` returns.
record Merged (a0 : Arena) (h0 k0 : ℕ) (r : Result (ℕ × ℕ × Arena)) : Type 0 where
  page : ℕ
  pages : ℕ
  after : Arena
  is_done : r ≡ done (page, pages, after)
  loose : Loose a0 h0 k0 page pages after

module _ {a0 : Arena} {h0 k0 h k : ℕ} {a : Arena} (l : Loose a0 h0 k0 h k a) where
  merge_backward-Merged :
      (max : ℕ) → max ≤ span_slot_size - k → Merged a0 h0 k0 (merge_backward h k max a)
  unfolding merge_backward
  merge_backward-Merged max small =
      let g = span_handle_of a.is_head (h - 1) in
      let r = span_list-is_read l.area k (at_most l) in
      let before = ltb 0 g && is_page (get_or a.span_list k (some 0)) && ltb k 12 in
      let scanned : g ≡ span_handle_of l.heads (h - 1) =
        scan-below a.is_head l.heads (h - 1)
          (λ j le. ground (arith, l.marks j, l.area.tiled.bounds h l.marked)) in
      elim (Bool-cases before) [
        | inr f ↦ record {
          page = h;
          pages = k;
          after = a;
          is_done = rw (merge_backward, r, ◌>>=◌, f) refl;
          loose = l;
        }
        | inl t ↦ elim (Option-cases (mergeable (a.headers g) max)) [
          | inl e ↦ record {
            page = h;
            pages = k;
            after = a;
            is_done = rw (merge_backward, r, ◌>>=◌, t, e) refl;
            loose = l;
          }
          | inr (k', e) ↦
              let c = absorb k' g a in
              record {
                page = g;
                pages = k' + k;
                after = set_header c g (record (c.headers g) { flag = pos (k' + k) });
                is_done = rw (merge_backward, r, ◌>>=◌, t, e) refl;
                loose = backward-Loose l g k' max small scanned (ground (arith, t)) e;
              }
        ]
      ]

module _ {a0 : Arena} {h0 k0 h k : ℕ} {a : Arena} (l : Loose a0 h0 k0 h k a) where
  abbrev marked_again : Arena
  marked_again = record a { is_head = assign a.is_head h true }

  link_again : Freed a0 h0 k0 (push_span marked_again k h (get_or a.span_list k (some 0)))
  link_again =
      let w = remark-IsArea l.area (assign a.is_head h true) in
      link-Freed w l.marked l.size_self l.flag l.starts l.ends
        (Keeps-trans l.keeps (remark-Keeps {b = marked_again} (λ j. refl) (λ j m o. (m, o))))
        (fun_ext (λ j. ground (arith, l.marks j, l.marked)))
        (push-Pushed marked_again k h (aside-is_no_head w h k (ground arith) l.marked)
          (ground (arith, l.area.entries, at_most l)))

module _ (h k : ℕ) (a : Arena) (v : IsHeap a) (y : IsChunk a h)
    (f : (a.headers h).flag ≡ pos k) where
  aside : IsArea a.is_head (assign nowhere h true) (size_at a) a
  aside = leave-IsArea v h y.held

  small : k ≤ span_slot_size
  small = ground (arith, v.small h y.marked, ap pages_of f)

  kept_whole : Freed a h k (keep_span k h (get_or a.span_list k (some 0)) a)
  kept_whole =
      link-Freed aside y.marked (ap pages_of f) f (omega arith) (omega arith)
        (remark-Keeps (λ j. refl) (λ j m o. (m, o))) refl
        (keep-Pushed a k h (aside-is_no_head aside h k (ground arith) y.marked)
          (ground (arith, v.entries, small)))

  abbrev unmarked : Arena
  unmarked = record a { is_head = assign a.is_head h false }

  loose : Loose a h k h k unmarked
  loose = record {
    heads = a.is_head;
    sizes = size_at a;
    area = remark-IsArea aside (assign a.is_head h false);
    marked = y.marked;
    marks = λ j. refl;
    size_self = ap pages_of f;
    flag = f;
    starts = omega arith;
    ends = omega arith;
    keeps = remark-Keeps (λ j. refl) (λ j m o. (m, o));
  }

  pub free_span-Freed : (b : Arena) × (free_span h k a ≡ done b) × Freed a h k b
  unfolding free_span
  free_span-Freed =
      let r = span_list-is_read v k small in
      let lazy = not (is_page (get_or a.span_list k (some 0))) || leb 12 k in
      elim (Bool-cases lazy) [
        | inl t ↦ (
          keep_span k h (get_or a.span_list k (some 0)) a,
          rw (free_span, r, ◌>>=◌, t) refl,
          kept_whole,
        )
        | inr t ↦
            let k1 = (merge_forward h k unmarked).0 in
            let a1 = (merge_forward h k unmarked).1 in
            let l1 = merge_forward-Loose loose in
            let m = merge_backward-Merged l1 (span_slot_size - k1) (omega arith) in
            let r2 = span_list-is_read m.loose.area m.pages (at_most m.loose) in
            (
              push_span (marked_again m.loose) m.pages m.page
                  (get_or m.after.span_list m.pages (some 0)),
              rw (free_span, r, ◌>>=◌, t, m.is_done, r2) refl,
              link_again m.loose,
            )
      ]

-- Where the heap is in order, Free of any pointer into a chunk in use that is a span returns; the
-- heap stays in order, the pages of the chunk are part of a free span, and every other chunk in
-- use stays so with its header.
pub free-Freed :
    (ptr h k : ℕ) (a : Arena)
    → IsHeap a
    → IsChunk a h
    → (a.headers h).flag ≡ pos k
    → h * page_len ≤ ptr
    → ptr < (h + k) * page_len
    → (b : Arena) × (free ptr a ≡ done b) × Freed a h k b
unfolding free
free-Freed ptr h zero a v y f lo hi = absurd (omega (arith, lo, hi))
free-Freed ptr h (suc k) a v y f lo hi =
    let scanned =
      scan_inside v.tiled h (ptr / page_len) y.marked (omega (arith, lo))
        (ground (arith, ap pages_of f, hi)) in
    let (b, e, r) = free_span-Freed h (suc k) a v y f in
    (b, rw (free, scanned, f) (ap (λ g. free_span g (suc k) a) scanned ∙ e), r)
