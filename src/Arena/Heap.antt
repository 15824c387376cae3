-- ===== src/Arena/Heap.antt =====
-- The heap of include/coplus/arena/arena.h as chunks of whole pages: how they tile the heap, and
-- how the free ones are linked.
pub mod Linked
pub mod Tiled
pub mod Links
pub mod Steps
pub mod Chunks
pub mod Busy
pub mod Grow
pub mod Take
pub mod Cut
pub mod Big
pub mod Loose
pub mod Merge
pub mod Give
pub mod RoundTrip
pub mod Start
pub mod Small
pub mod Serve
mod Tests
use coplus.Prelude.{
  ℕ, ◌+◌, ◌-◌, ◌≤◌, ◌<◌, ◌≡◌, ◌≢◌, ℤ, pos, negsuc, Bool, true, false, Option, none, some, ltb,
  length, get_or, if◌then◌else◌,
}
use coplus.Arena.{Link, page_of, Header, Arena, page_total_size, self_reserved_page, span_slot_size}
use coplus.Arena.Sizes.{bin_span_size}
use coplus.Arena.Heap.Linked.{IsLinked}
use coplus.Arena.Heap.Tiled.{IsTiled}

-- The pages of a chunk: a span has its size as flag, a page of objects minus its bin slot.
abbrev pub pages_of : ℤ → ℕ
pages_of (pos k) = k
pages_of (negsuc k) = bin_span_size (ℕ.suc k)

-- The size of a free span: its link is not -1, and its flag is positive.
abbrev pub span_of : Link → ℤ → Option ℕ
span_of none flag = none
span_of (some n) (negsuc k) = none
span_of (some n) (pos k) = if ltb 0 k then some k else none

module _ (a : Arena) where
  abbrev pub size_at : ℕ → ℕ
  size_at h = pages_of (a.headers h).flag

  abbrev pub pri_at : ℕ → ℕ
  pri_at h = (a.headers h).pri

  abbrev pub next_at : ℕ → ℕ
  next_at h = page_of (a.headers h).next

  abbrev pub head_at : ℕ → ℕ
  head_at k = page_of (get_or a.span_list k (some 0))

  -- The pages that were taken from the heap.
  abbrev pub total : ℕ
  total = a.heap_pages - self_reserved_page

-- The free spans, with the pages in `out` left aside.
abbrev pub free_by : (ℕ → Bool) → (ℕ → Bool) → Arena → ℕ → Option ℕ
free_by out heads a h =
    if out h
    then none
    else (if heads h then span_of (a.headers h).next (a.headers h).flag else none)

-- The chunks that `heads` marks have the sizes `size` and tile the pages, and the free spans but those
-- in `out` are linked.
pub record IsArea (heads out : ℕ → Bool) (size : ℕ → ℕ) (a : Arena) : Type 0 where
  pub entries : length a.span_list ≡ span_slot_size + 1
  pub readable : (k : ℕ) → get_or a.span_list k (some 0) ≢ none
  pub reserved : self_reserved_page ≤ a.heap_pages
  pub inside : a.heap_pages ≤ page_total_size
  pub tiled : IsTiled heads size (total a)
  pub small : (h : ℕ) → heads h ≡ true → size h ≤ span_slot_size
  pub sized : (h : ℕ) → heads h ≡ true → out h ≡ false → size_at a h ≡ size h
  pub linked : IsLinked (free_by out heads a) (pri_at a) (next_at a) (head_at a)

-- The heap in order.
abbrev pub IsHeap : Arena → Type 0
IsHeap a = IsArea a.is_head (λ h. false) (size_at a) a
