-- ===== src/Arena/Heap/Loose.antt =====
-- A span on its way back into the lists, while `Free` joins it with its neighbours.
use coplus.Prelude.{
  ℕ, ◌+◌, ◌≤◌, ◌<◌, ◌≡◌, ◌≢◌, refl, ap, ◌∙◌, pos, Bool, true, false, some, ◌==◌, assign,
  if◌then◌else◌, arith,
}
use coplus.Arena.{Arena}
use coplus.Arena.Heap.{free_by, IsArea, IsHeap}
use coplus.Arena.Heap.Links.{Pushed}
use coplus.Arena.Heap.Steps.{IsSpan, span-is_free, push-IsArea}
use coplus.Arena.Heap.Busy.{Keeps, Keeps-trans, push-Keeps}
use coplus.Arena.Heap.Grow.{nowhere, settle-IsHeap, settle-Keeps}
use coplus.Arena.Heap.Big.{IsChunk}

-- The `k0` pages from `h0` on are part of the `k` pages from `h` on, which stand in no list. The
-- page `h` is not marked.
pub record Loose (a0 : Arena) (h0 k0 h k : ℕ) (a : Arena) : Type 0 where
  pub heads : ℕ → Bool
  pub sizes : ℕ → ℕ
  pub area : IsArea heads (assign nowhere h true) sizes a
  pub marked : heads h ≡ true
  pub marks : (j : ℕ) → a.is_head j ≡ (if j == h then false else heads j)
  pub size_self : sizes h ≡ k
  pub flag : (a.headers h).flag ≡ pos k
  pub starts : h ≤ h0
  pub ends : h0 + k0 ≤ h + k
  pub keeps : Keeps a0.is_head (assign nowhere h0 true) a0 heads (assign nowhere h true) a

-- The chunk from `h0` on was freed: its pages are part of a free span.
pub record Freed (a0 : Arena) (h0 k0 : ℕ) (b : Arena) : Type 0 where
  pub heap : IsHeap b
  pub start : ℕ
  pub pages : ℕ
  pub is_free : free_by nowhere b.is_head b start ≡ some pages
  pub starts : start ≤ h0
  pub ends : h0 + k0 ≤ start + pages
  pub others : (j : ℕ) → j ≢ h0 → IsChunk a0 j → (b.headers j ≡ a0.headers j) × IsChunk b j

-- The span goes into its list.
pub link-Freed :
    {a0 : Arena} {h0 k0 h k : ℕ} {a b : Arena} {heads : ℕ → Bool} {sizes : ℕ → ℕ}
    → IsArea heads (assign nowhere h true) sizes a
    → heads h ≡ true
    → sizes h ≡ k
    → (a.headers h).flag ≡ pos k
    → h ≤ h0
    → h0 + k0 ≤ h + k
    → Keeps a0.is_head (assign nowhere h0 true) a0 heads (assign nowhere h true) a
    → a.is_head ≡ heads
    → Pushed a k h b
    → Freed a0 h0 k0 b
link-Freed {a0} {h0} {k0} {h} {k} {a} {b} {heads} {sizes} v m e f lo hi keeps marks p =
    let pos_k : 0 < k = ground (arith, v.tiled.bounds h m, e) in
    let o : (j : ℕ) → assign (assign nowhere h true) h false j ≡ false = λ j. ground arith in
    let is = p.chunks.is_head ∙ marks in
    let held = settle-Keeps (Keeps-trans keeps (push-Keeps v h k (ground arith) p)) is o in
    let span : IsSpan nowhere b.is_head b h k = record {
      stays = refl;
      marked = ap (λ hs. hs h) is ∙ m;
      link = λ x. ground (arith, x, p.nexts h, v.readable k);
      flag = p.flags h ∙ f;
      pos_size = pos_k;
    } in
    record {
      heap = settle-IsHeap (push-IsArea v h k (ground arith) m f pos_k e p) is o;
      start = h;
      pages = k;
      is_free = span-is_free span;
      starts = lo;
      ends = hi;
      others =
          λ j n y. held j (record { marked = y.marked; stays = ground (arith, n); held = y.held });
    }
