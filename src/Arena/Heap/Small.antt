-- ===== src/Arena/Heap/Small.antt =====
-- `Malloc` of at most 4080 bytes, and the heap.
use coplus.Prelude.{
  ℕ, suc, ◌+◌, ◌-◌, ◌*◌, ◌≤◌, ◌≡◌, ◌≢◌, refl, sym, ap, ap₂, ◌∙◌, negsuc, true, ◌&&◌, none, some,
  leb, ◌==◌, get_or, get_elem?, get_elem?-eq-get_or, get_or-set, length-set, length, assign,
  if◌then◌else◌, arith, subst, Bool-cases, inl, inr,
}
use coplus.Arena.{
  Link, page_of, Header, Arena, done, from_table, ◌>>=◌, set_header, set_pri, set_bin,
  bin_slot_size, self_reserved_page, page_len, page_header_size,
}
use coplus.Arena.Sizes.{bin_span_size, template}
use coplus.Arena.Malloc.{take_object, start_page, to_page}
use coplus.Arena.Heap.{pri_at, pages_of, span_of, size_at, free_by, IsArea, IsHeap}
use coplus.Arena.Heap.Links.{
  set_pri-chunks, set_pri-list, set_pri-next, set_pri-flag, set_pri-other,
}
use coplus.Arena.Heap.Steps.{cong-IsTiled, renew-IsArea, change-IsArea}
use coplus.Arena.Heap.Chunks.{aside-IsArea, close-IsArea}
use coplus.Arena.Heap.Busy.{IsBusy, Keeps}
use coplus.Arena.Heap.Grow.{nowhere, settle-IsHeap}
use coplus.Arena.Heap.Big.{IsChunk}

-- The heap is in order, and each bin is empty or begins with a chunk in use.
pub record IsServing (a : Arena) : Type 0 where
  pub heap : IsHeap a
  pub entries : length a.bins ≡ bin_slot_size + 1
  pub fronts :
      (k : ℕ)
      → page_of (get_or a.bins k (some 0)) ≢ 0
      → IsChunk a (page_of (get_or a.bins k (some 0)))

-- The chunks in use stay so, with their sizes.
abbrev pub Stay : Arena → Arena → Type 0
Stay a b = (j : ℕ) → IsChunk a j → IsChunk b j × ((b.headers j).flag ≡ (a.headers j).flag)

-- Headers that differ in counts alone.
counts-IsServing :
    {a b : Arena}
    → IsServing a
    → b.span_list ≡ a.span_list
    → b.heap_pages ≡ a.heap_pages
    → b.is_head ≡ a.is_head
    → b.bins ≡ a.bins
    → ((j : ℕ)
        → (pri_at b j ≡ pri_at a j)
          × ((b.headers j).next ≡ (a.headers j).next)
          × ((b.headers j).flag ≡ (a.headers j).flag))
    → IsServing b × Stay a b
counts-IsServing {a} {b} v l n i bi same =
    let spans : (j : ℕ)
        → span_of (b.headers j).next (b.headers j).flag
          ≡ span_of (a.headers j).next (a.headers j).flag =
      λ j. ap₂ span_of (same j).1 (same j).2 in
    let stay : Stay a b = λ j y. (
      record { marked = ap (λ hs. hs j) i ∙ y.marked; stays = refl; held = spans j ∙ y.held },
      (same j).2,
    ) in
    let w : IsArea a.is_head nowhere (size_at a) b =
      renew-IsArea v.heap l (ground (arith, n, v.heap.reserved)) (ground (arith, n, v.heap.inside))
        (cong-IsTiled v.heap.tiled (λ j m. refl) (ap (λ n. n - self_reserved_page) n)) v.heap.small
        (λ h m o. ap pages_of (same h).2) (λ j. ap (λ s. if a.is_head j then s else none) (spans j))
        (λ j k e. ((same j).0, ap page_of (same j).1)) in
    (
      record {
        heap = settle-IsHeap w i (λ j. refl);
        entries = ap length bi ∙ v.entries;
        fronts = λ k.
            let e : page_of (get_or b.bins k (some 0)) ≡ page_of (get_or a.bins k (some 0)) =
              ap (λ bs. page_of (get_or bs k (some 0))) bi in
            subst (λ f. f ≢ 0 → IsChunk b f) (sym e) (λ ne. (stay _ (v.fronts k ne)).0);
      },
      stay,
    )

module _ (slot h : ℕ) (a : Arena) (v : IsServing a) where
  -- An object is taken from a page: only counts change.
  pub take-IsServing : IsServing (take_object slot h a).1 × Stay a (take_object slot h a).1
  unfolding take_object
  take-IsServing =
      let at = h * page_len + (a.headers h).free_offset in
      let test =
        (a.words at == 0)
        && leb (at + template slot * 2) (h * page_len + bin_span_size slot * page_len) in
      elim (Bool-cases test) [
        | inl e ↦
            rw (take_object, e)
              (counts-IsServing v refl refl refl refl
                (λ j. (ground arith, ground arith, ground arith)))
        | inr e ↦
            rw (take_object, e)
              (counts-IsServing v refl refl refl refl
                (λ j. (ground arith, ground arith, ground arith)))
      ]

span_of-page : (l : Link) (k : ℕ) → span_of l (negsuc k) ≡ none
span_of-page none k = refl
span_of-page (some n) k = refl

-- A span that is off its list becomes the first page of a bin.
module _ (slot h : ℕ) (a b : Arena) (sizes : ℕ → ℕ) (v : IsServing a)
    (area : IsArea b.is_head (assign nowhere h true) sizes b) (marked : b.is_head h ≡ true)
    (size : sizes h ≡ bin_span_size (suc slot)) (bins : b.bins ≡ a.bins)
    (keeps : Keeps a.is_head nowhere a b.is_head (assign nowhere h true) b)
    (last : suc slot ≤ bin_slot_size) where
  abbrev pub old : Link
  old = get_or b.bins (suc slot) (some 0)

  abbrev pub hd : Header
  hd = record {
    flag = negsuc slot;
    pri = 0;
    next = old;
    free_offset = page_header_size + template (suc slot);
    used = 1;
  }

  abbrev pub b1 : Arena
  b1 = set_header b h hd

  abbrev pub b2 : Arena
  b2 = set_pri b1 old h

  old-IsBusy : page_of old ≢ 0 → IsBusy b.is_head (assign nowhere h true) b (page_of old)
  old-IsBusy ne =
      let e : page_of (get_or a.bins (suc slot) (some 0)) ≡ page_of old =
        ap (λ bs. page_of (get_or bs (suc slot) (some 0))) (sym bins) in
      subst (λ f. f ≢ 0 → IsBusy b.is_head (assign nowhere h true) b f) e
        (λ n. (keeps _ (v.fronts (suc slot) n)).1) ne

  first_area : IsArea b.is_head (assign nowhere h true) sizes b1
  first_area = aside-IsArea area h hd (ground arith)

  not_free : (j k : ℕ) → free_by (assign nowhere h true) b.is_head b1 j ≡ some k → page_of old ≢ j
  not_free j k e x =
      let f = page_of old in
      let e' : free_by (assign nowhere h true) b.is_head b1 f ≡ some k =
        subst (λ i. free_by (assign nowhere h true) b.is_head b1 i ≡ some k) (sym x) e in
      let ne : f ≢ 0 = λ z. ground (arith, z, e', first_area.linked.no_page) in
      let y = old-IsBusy ne in absurd (ground (arith, e', y.stays, y.held))

  linked_area : IsArea b.is_head (assign nowhere h true) sizes b2
  linked_area =
      let w = first_area in
      let n = (set_pri-chunks b1 old h).heap_pages in
      change-IsArea w (set_pri-list b1 old h) (ground (arith, n, w.reserved))
        (ground (arith, n, w.inside))
        (cong-IsTiled w.tiled (λ j m. refl) (ap (λ n. n - self_reserved_page) n)) w.small
        (λ j m o. ap pages_of (set_pri-flag b1 old h j) ∙ w.sized j m o)
        (λ j.
          ap (λ s. if assign nowhere h true j then none else (if b.is_head j then s else none))
            (ap₂ span_of (set_pri-next b1 old h j) (set_pri-flag b1 old h j)))
        (λ j k e. set_pri-other b1 old h j (not_free j k e))

  abbrev pub first : ℕ
  first = h * page_len + page_header_size

  abbrev pub begun : Arena
  begun =
      let b3 = set_bin b2 (suc slot) (some h) in
      record b3 { words = assign b3.words (first + template (suc slot)) 0 }

  next_h : (begun.headers h).next ≡ old
  next_h = set_pri-next b1 old h h ∙ ground arith

  flag_h : (begun.headers h).flag ≡ negsuc slot
  flag_h = set_pri-flag b1 old h h ∙ ground arith

  held_h : span_of (begun.headers h).next (begun.headers h).flag ≡ none
  held_h = ap₂ span_of next_h flag_h ∙ span_of-page old slot

  begun-IsHeap : IsHeap begun
  begun-IsHeap =
      let w = linked_area in
      let w3 : IsArea b.is_head (assign nowhere h true) sizes begun =
        change-IsArea w refl w.reserved w.inside w.tiled w.small w.sized (λ j. refl)
          (λ j k e. refl) in
      settle-IsHeap (close-IsArea w3 h (ground arith) held_h (ap pages_of flag_h ∙ sym size))
        (set_pri-chunks b1 old h).is_head (λ j. ground arith)

  pub begun-Stay : Stay a begun
  begun-Stay j y =
      let (e, z) = keeps j y in
      let next : (begun.headers j).next ≡ (b.headers j).next =
        set_pri-next b1 old h j ∙ ground (arith, z.stays) in
      let flag : (begun.headers j).flag ≡ (b.headers j).flag =
        set_pri-flag b1 old h j ∙ ground (arith, z.stays) in
      (
        record {
          marked = ap (λ hs. hs j) (set_pri-chunks b1 old h).is_head ∙ z.marked;
          stays = refl;
          held = ap₂ span_of next flag ∙ z.held;
        },
        flag ∙ ap (λ x. x.flag) e,
      )

  same_bins : b2.bins ≡ a.bins
  same_bins = (set_pri-chunks b1 old h).bins ∙ bins

  length_bins : length b2.bins ≡ bin_slot_size + 1
  length_bins = ap length same_bins ∙ v.entries

  begun-front :
      (k : ℕ)
      → page_of (if suc slot == k then some h else get_or a.bins k (some 0)) ≢ 0
      → IsChunk begun (page_of (if suc slot == k then some h else get_or a.bins k (some 0)))
  begun-front k = elim (Bool-cases (suc slot == k)) [
    | inl e ↦ rw e (λ ne. record {
      marked = ap (λ hs. hs h) (set_pri-chunks b1 old h).is_head ∙ marked;
      stays = refl;
      held = held_h;
    })
    | inr e ↦ rw e (λ ne. (begun-Stay (page_of (get_or a.bins k (some 0))) (v.fronts k ne)).0)
  ]

  pub begun-IsServing : IsServing begun
  begun-IsServing = record {
    heap = begun-IsHeap;
    entries = length-set b2.bins (suc slot) (some h) ∙ length_bins;
    fronts = λ k.
        let e : get_or begun.bins k (some 0)
            ≡ (if suc slot == k then some h else get_or a.bins k (some 0)) =
          get_or-set b2.bins (suc slot) k (some h) (some 0) (omega (arith, last, length_bins))
          ∙ ap (λ bs. if suc slot == k then some h else get_or bs k (some 0)) same_bins in
        subst (λ l. page_of l ≢ 0 → IsChunk begun (page_of l)) (sym e) (begun-front k);
  }

  pub to_page-eq : to_page (suc slot) h b ≡ done (some first, begun)
  unfolding to_page start_page
  to_page-eq =
      let n : length b.bins ≡ bin_slot_size + 1 = ap length bins ∙ v.entries in
      let r : from_table (get_elem? b.bins (suc slot)) ≡ done old =
        ap from_table (get_elem?-eq-get_or b.bins (suc slot) (some 0) (omega (arith, last, n))) in
      rw (to_page, r, ◌>>=◌) refl
