-- ===== src/Arena/Heap/Busy.antt =====
-- Chunks in use, and what the operations on spans leave of them.
use coplus.Prelude.{ℕ, ◌≡◌, ◌≢◌, ap, ◌∙◌, Bool, true, false, none, some, assign, arith}
use coplus.Arena.{Header, Arena, set_header}
use coplus.Arena.Spans.{unlink_span}
use coplus.Arena.Heap.{span_of, free_by, IsArea}
use coplus.Arena.Heap.Links.{unlink-Unlinked, Pushed}
use coplus.Arena.Heap.Steps.{IsSpan, span-is_free, span_size}

-- A chunk that is neither free nor left aside.
pub record IsBusy (heads out : ℕ → Bool) (a : Arena) (j : ℕ) : Type 0 where
  pub marked : heads j ≡ true
  pub stays : out j ≡ false
  pub held : span_of (a.headers j).next (a.headers j).flag ≡ none

-- The chunks in use stay so, with their headers.
abbrev pub Keeps : (heads out : ℕ → Bool) → Arena → (heads' out' : ℕ → Bool) → Arena → Type 0
Keeps heads out a heads' out' b =
    (j : ℕ) → IsBusy heads out a j → (b.headers j ≡ a.headers j) × IsBusy heads' out' b j

pub same-IsBusy :
    {heads out heads' out' : ℕ → Bool} {a b : Arena} {j : ℕ}
    → IsBusy heads out a j
    → b.headers j ≡ a.headers j
    → heads' j ≡ true
    → out' j ≡ false
    → (b.headers j ≡ a.headers j) × IsBusy heads' out' b j
same-IsBusy y e m o =
    (e, record { marked = m; stays = o; held = ap (λ hd. span_of hd.next hd.flag) e ∙ y.held })

pub Keeps-trans :
    {heads out heads' out' heads'' out'' : ℕ → Bool} {a b c : Arena}
    → Keeps heads out a heads' out' b
    → Keeps heads' out' b heads'' out'' c
    → Keeps heads out a heads'' out'' c
Keeps-trans k l j y = let (e, z) = k j y in let (f, w) = l j z in (f ∙ e, w)

module _ {heads out : ℕ → Bool} {size : ℕ → ℕ} {a : Arena} (v : IsArea heads out size a) where
  busy-is_not_free : (j k : ℕ) → IsBusy heads out a j → free_by out heads a j ≢ some k
  busy-is_not_free j k y = ground (arith, y.held)

  pub unlink-Keeps :
      (g k : ℕ)
      → IsSpan out heads a g k
      → Keeps heads out a heads (assign out g true) (unlink_span a k g)
  unlink-Keeps g k s j y =
      let u = unlink-Unlinked a k g (ground (arith, v.entries, (span_size v s).1)) in
      let f = span-is_free s in
      let n = busy-is_not_free j k y in
      let x = v.linked.after g k f in
      let z = v.linked.before g k f in
      same-IsBusy y
        (u.others j (λ e. ground (arith, n, x, e, y.marked, v.tiled.bounds j))
          (λ e. ground (arith, n, z, e, y.marked, v.tiled.bounds j)))
        y.marked (ground (arith, n, f, y.stays))

  pub push-Keeps :
      (g k : ℕ) {b : Arena}
      → out g ≡ true
      → Pushed a k g b
      → Keeps heads out a heads (assign out g false) b
  push-Keeps g k o u j y =
      let n = busy-is_not_free j k y in
      let x = v.linked.is_free k in
      same-IsBusy y
        (u.others j (λ e. ground (arith, e, o, y.stays))
          (λ e. ground (arith, n, x, e, y.marked, v.tiled.bounds j)))
        y.marked (ground (arith, y.stays))

pub aside-Keeps :
    {heads out : ℕ → Bool} {a : Arena} (h : ℕ) (hd : Header)
    → out h ≡ true
    → Keeps heads out a heads out (set_header a h hd)
aside-Keeps h hd o j y = same-IsBusy y (ground (arith, o, y.stays)) y.marked y.stays

-- Marks that change elsewhere alone.
pub remark-Keeps :
    {heads out heads' out' : ℕ → Bool} {a b : Arena}
    → ((j : ℕ) → b.headers j ≡ a.headers j)
    → ((j : ℕ) → heads j ≡ true → out j ≡ false → (heads' j ≡ true) × (out' j ≡ false))
    → Keeps heads out a heads' out' b
remark-Keeps same f j y = let (m, o) = f j y.marked y.stays in same-IsBusy y (same j) m o
