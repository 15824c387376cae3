-- ===== src/Arena/Heap/Steps.antt =====
-- What an operation on one span does to the heap in order.
use coplus.Prelude.{
  ℕ, ◌-◌, ◌≤◌, ◌<◌, ◌≡◌, ◌≢◌, refl, sym, ap, ◌∙◌, ℤ, pos, negsuc, Bool, true, false, none, some,
  ◌==◌, length, get_or, assign, if◌then◌else◌, arith,
}
use coplus.Arena.{Link, page_of, Arena, span_slot_size, self_reserved_page, page_total_size}
use coplus.Arena.Spans.{unlink_span}
use coplus.Arena.Heap.{pri_at, next_at, pages_of, span_of, size_at, head_at, total, free_by, IsArea}
use coplus.Arena.Heap.Linked.{insert-IsLinked, remove-IsLinked, cong-IsLinked}
use coplus.Arena.Heap.Tiled.{IsTiled}
use coplus.Arena.Heap.Links.{Unlinked, unlink-Unlinked, Pushed}

-- What it means that a page is a free span of `k` pages.
pub record IsSpan (out heads : ℕ → Bool) (a : Arena) (g k : ℕ) : Type 0 where
  pub stays : out g ≡ false
  pub marked : heads g ≡ true
  pub link : (a.headers g).next ≢ none
  pub flag : (a.headers g).flag ≡ pos k
  pub pos_size : 0 < k

pub span_of-some :
    (l : Link) (f : ℤ) (k : ℕ) → span_of l f ≡ some k → (l ≢ none) × (f ≡ pos k) × (0 < k)
span_of-some none f k e = absurd (ground (arith, e))
span_of-some (some n) (negsuc i) k e = absurd (ground (arith, e))
span_of-some (some n) (pos i) k e = (λ p. ground (arith, p), ground arith, ground arith)

pub span_of-eq : (l l' : Link) (f : ℤ) → l ≢ none → l' ≢ none → span_of l f ≡ span_of l' f
span_of-eq none l' f n n' = absurd (n refl)
span_of-eq (some i) none f n n' = absurd (n' refl)
span_of-eq (some i) (some j) (pos k) n n' = refl
span_of-eq (some i) (some j) (negsuc k) n n' = refl

pub free-IsSpan :
    {out heads : ℕ → Bool} {a : Arena} {g k : ℕ}
    → free_by out heads a g ≡ some k
    → IsSpan out heads a g k
free-IsSpan {out} {heads} {a} {g} {k} e = record {
  stays = ground arith;
  marked = ground arith;
  link = s.0;
  flag = s.1;
  pos_size = s.2;
}
  where
    s : ((a.headers g).next ≢ none) × ((a.headers g).flag ≡ pos k) × (0 < k)
    s = span_of-some (a.headers g).next (a.headers g).flag k (ground arith)

pub span-is_free :
    {out heads : ℕ → Bool} {a : Arena} {g k : ℕ}
    → IsSpan out heads a g k
    → free_by out heads a g ≡ some k
span-is_free {a = a} {g = g} {k = k} s = ground (
  arith,
  s.stays,
  s.marked,
  s.flag,
  s.pos_size,
  span_of-eq (a.headers g).next (some 0) (pos k) s.link,
)

-- Sizes and the end may be written otherwise.
pub cong-IsTiled :
    {heads : ℕ → Bool} {size size' : ℕ → ℕ} {n n' : ℕ}
    → IsTiled heads size n
    → ((j : ℕ) → heads j ≡ true → size' j ≡ size j)
    → n' ≡ n
    → IsTiled heads size' n'
cong-IsTiled t s e = record {
  bounds = λ h a. ground (arith, s h, t.bounds h);
  next_head = λ h a le. ground (arith, s h, t.next_head h);
  inner = λ h j a lo hi. ground (arith, s h, t.inner h j);
  first = λ p. ground (arith, t.first);
}

module _ {heads out : ℕ → Bool} {size : ℕ → ℕ} {a : Arena} (v : IsArea heads out size a) where
  -- The size of the chunk that a free span is.
  pub span_size : {g k : ℕ} → IsSpan out heads a g k → (size g ≡ k) × (k ≤ span_slot_size)
  span_size {g} {k} s =
      let e : size g ≡ k = sym (v.sized g s.marked s.stays) ∙ ap pages_of s.flag in
      (e, omega (arith, v.small g s.marked))

  -- A free span leaves its list.
  pub unlink-IsArea :
      (g k : ℕ) → IsSpan out heads a g k → IsArea heads (assign out g true) size (unlink_span a k g)
  unlink-IsArea g k s = record {
    entries = u.entries ∙ v.entries;
    readable = λ i. ground (arith, u.lists i, v.readable i, s.link);
    reserved = ground (arith, u.chunks.heap_pages, v.reserved);
    inside = ground (arith, u.chunks.heap_pages, v.inside);
    tiled =
        cong-IsTiled v.tiled (λ j m. refl) (ap (λ n. n - self_reserved_page) u.chunks.heap_pages);
    small = v.small;
    sized = λ h m o. ap pages_of (u.flags h) ∙ v.sized h m (ground (arith, o));
    linked =
        remove-IsLinked v.linked g k (span-is_free s) frees
          (λ j n z. ground (arith, ap page_of (u.nexts j z))) (λ j n z. u.pris j z)
          (λ i. ground (arith, ap page_of (u.lists i)));
  }
    where
      u : Unlinked a k g (unlink_span a k g)
      u = unlink-Unlinked a k g (ground (arith, v.entries, (span_size s).1))

      frees :
          (j : ℕ)
          → free_by (assign out g true) heads (unlink_span a k g) j
            ≡ (if g == j then none else free_by out heads a j)
      frees j =
          let b = v.linked.before g k (span-is_free s) in
          let f : free_by out heads a j ≡ some k → (a.headers j).next ≢ none =
            λ e. (free-IsSpan {out = out} {heads = heads} {a = a} e).link in
          ground (
            arith,
            v.linked.no_page,
            v.tiled.bounds j,
            u.flags j,
            u.nexts j,
            b,
            f,
            s.link,
            span_of-eq (a.headers g).next (a.headers j).next (a.headers j).flag,
          )

  -- A span that was left aside goes to the front of the list of its size.
  pub push-IsArea :
      (g k : ℕ) {b : Arena}
      → out g ≡ true
      → heads g ≡ true
      → (a.headers g).flag ≡ pos k
      → 0 < k
      → size g ≡ k
      → Pushed a k g b
      → IsArea heads (assign out g false) size b
  push-IsArea g k {b} o m f pos_k e u = record {
    entries = u.entries ∙ v.entries;
    readable = λ i. ground (arith, u.lists i, v.readable i);
    reserved = ground (arith, u.chunks.heap_pages, v.reserved);
    inside = ground (arith, u.chunks.heap_pages, v.inside);
    tiled =
        cong-IsTiled v.tiled (λ j m. refl) (ap (λ n. n - self_reserved_page) u.chunks.heap_pages);
    small = v.small;
    sized = λ h m o'. ap pages_of (u.flags h) ∙ ground (arith, o', ap pages_of f, v.sized h m);
    linked =
        insert-IsLinked v.linked g k (ground (arith, v.tiled.bounds g)) (ground arith) frees
          (ground (arith, ap page_of (u.nexts g))) (λ j n. ground (arith, ap page_of (u.nexts j)))
          u.pri_self (λ j n z. u.pris j n z) (λ i. ground (arith, ap page_of (u.lists i)));
  }
    where
      frees :
          (j : ℕ)
          → free_by (assign out g false) heads b j
            ≡ (if g == j then some k else free_by out heads a j)
      frees j = ground (
        arith,
        u.flags j,
        u.nexts j,
        v.readable k,
        pos_k,
        span_of-eq (get_or a.span_list k (some 0)) (some 0) (pos k),
      )

  -- The page of a span that was left aside is no head of a list.
  pub aside-is_no_head : (g k : ℕ) → out g ≡ true → heads g ≡ true → head_at a k ≢ g
  aside-is_no_head g k o m e = absurd (ground (arith, v.linked.is_free k, v.tiled.bounds g))

  -- The free spans and the lists stay as they are.
  pub renew-IsArea :
      {heads' out' : ℕ → Bool} {size' : ℕ → ℕ} {b : Arena}
      → b.span_list ≡ a.span_list
      → self_reserved_page ≤ b.heap_pages
      → b.heap_pages ≤ page_total_size
      → IsTiled heads' size' (total b)
      → ((h : ℕ) → heads' h ≡ true → size' h ≤ span_slot_size)
      → ((h : ℕ) → heads' h ≡ true → out' h ≡ false → size_at b h ≡ size' h)
      → ((j : ℕ) → free_by out' heads' b j ≡ free_by out heads a j)
      → ((j k : ℕ)
          → free_by out heads a j ≡ some k
          → (pri_at b j ≡ pri_at a j) × (next_at b j ≡ next_at a j))
      → IsArea heads' out' size' b
  renew-IsArea l lo hi t small sized frees same = record {
    entries = ap length l ∙ v.entries;
    readable = λ i e. v.readable i (sym (ap (λ s. get_or s i (some 0)) l) ∙ e);
    reserved = lo;
    inside = hi;
    tiled = t;
    small = small;
    sized = sized;
    linked = cong-IsLinked v.linked frees same (λ i. ap (λ s. page_of (get_or s i (some 0))) l);
  }

  pub change-IsArea :
      {heads' out' : ℕ → Bool} {size' : ℕ → ℕ} {b : Arena}
      → b.span_list ≡ a.span_list
      → self_reserved_page ≤ b.heap_pages
      → b.heap_pages ≤ page_total_size
      → IsTiled heads' size' (total b)
      → ((h : ℕ) → heads' h ≡ true → size' h ≤ span_slot_size)
      → ((h : ℕ) → heads' h ≡ true → out' h ≡ false → size_at b h ≡ size' h)
      → ((j : ℕ) → free_by out' heads' b j ≡ free_by out heads a j)
      → ((j k : ℕ) → free_by out heads a j ≡ some k → b.headers j ≡ a.headers j)
      → IsArea heads' out' size' b
  change-IsArea l lo hi t small sized frees same =
      renew-IsArea l lo hi t small sized frees
        (λ j k e. (ap (λ hd. hd.pri) (same j k e), ap (λ hd. page_of hd.next) (same j k e)))
