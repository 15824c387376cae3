-- ===== src/Arena/Heap/Cut.antt =====
-- What is left of a larger span goes to the front of the list of its size.
use coplus.Prelude.{
  ℕ, ◌+◌, ◌-◌, ◌<◌, ◌≡◌, ◌≢◌, refl, sym, ap, ◌∙◌, pos, Bool, true, false, some, get_or, assign,
  arith, subst, fun_ext,
}
use coplus.Arena.{Arena, done, set_header}
use coplus.Arena.Spans.{push_span, keep_rest}
use coplus.Arena.Heap.{IsArea}
use coplus.Arena.Heap.Links.{Pushed, push-Pushed}
use coplus.Arena.Heap.Steps.{push-IsArea, aside-is_no_head}
use coplus.Arena.Heap.Chunks.{split-IsArea}
use coplus.Arena.Heap.Busy.{Keeps, Keeps-trans, same-IsBusy, push-Keeps}
use coplus.Arena.Heap.Grow.{nowhere, span_list-is_read}

-- The chunk `h` has `slot` pages, and all else is as it was.
pub record Cut (a : Arena) (size : ℕ → ℕ) (slot h : ℕ) (b : Arena) : Type 0 where
  pub sizes : ℕ → ℕ
  pub area : IsArea b.is_head (assign nowhere h true) sizes b
  pub size_self : sizes h ≡ slot
  pub marked : b.is_head h ≡ true
  pub same : b.headers h ≡ a.headers h
  pub bins : b.bins ≡ a.bins
  pub keeps : Keeps a.is_head (assign nowhere h true) a b.is_head (assign nowhere h true) b

module _ (slot big h : ℕ) (a : Arena) where
  -- The rest is a chunk, and not linked yet.
  abbrev cut_off : Arena
  cut_off =
      let a' = record a { is_head = assign a.is_head (h + slot) true } in
      set_header a' (h + slot) (record (a.headers (h + slot)) { flag = pos (big - slot) })

  abbrev pub kept : Arena
  kept = push_span cut_off (big - slot) (h + slot) (get_or a.span_list (big - slot) (some 0))

  module _ {size : ℕ → ℕ} (v : IsArea a.is_head (assign nowhere h true) size a)
      (m : a.is_head h ≡ true) (e : size h ≡ big) (pos_slot : 0 < slot) (lt : slot < big) where
    pub keep_rest-eq-kept : keep_rest slot big h a ≡ done kept
    unfolding keep_rest
    keep_rest-eq-kept =
        rw (keep_rest, span_list-is_read v (big - slot) (ground (arith, v.small h m, e))) refl

    abbrev sizes_cut : ℕ → ℕ
    sizes_cut = assign (assign size h slot) (h + slot) (size h - slot)

    abbrev aside : ℕ → Bool
    aside = assign (assign nowhere h true) (h + slot) true

    area : IsArea (assign a.is_head (h + slot) true) aside sizes_cut cut_off
    area =
        split-IsArea v h slot (record (a.headers (h + slot)) { flag = pos (big - slot) })
          (assign a.is_head (h + slot) true) (ground arith) m pos_slot (omega (arith, e, lt))

    pushed : Pushed cut_off (big - slot) (h + slot) kept
    pushed =
        push-Pushed cut_off (big - slot) (h + slot)
          (aside-is_no_head area (h + slot) (big - slot) (ground arith) (ground arith))
          (ground (arith, v.entries, v.small h m, e))

    first-Keeps :
        Keeps a.is_head (assign nowhere h true) a (assign a.is_head (h + slot) true) aside cut_off
    first-Keeps j y =
        let i = v.tiled.inner h j m in
        let n : j ≢ h + slot = λ x. ground (arith, x, i, y.marked, e, pos_slot, lt) in
        same-IsBusy y (ground (arith, n)) (ground (arith, y.marked)) (ground (arith, n, y.stays))

    pub kept-Cut : Cut a size slot h kept
    kept-Cut =
        let c = pushed.chunks in
        let heads = sym c.is_head in
        let out : assign aside (h + slot) false ≡ assign nowhere h true =
          fun_ext (λ j. ground (arith, pos_slot)) in
        record {
          sizes = sizes_cut;
          area =
              subst (λ hs. IsArea hs (assign nowhere h true) sizes_cut kept) heads
                (subst (λ o. IsArea (assign a.is_head (h + slot) true) o sizes_cut kept) out
                  (push-IsArea area (h + slot) (big - slot) (ground arith) (ground arith)
                    (ground arith) (omega (arith, lt)) (ground (arith, e)) pushed));
          size_self = ground (arith, pos_slot);
          marked = ap (λ hs. hs h) c.is_head ∙ ground (arith, m);
          same =
              pushed.others h (omega (arith, pos_slot))
                (aside-is_no_head area h (big - slot) (ground arith) (ground (arith, m)))
              ∙ ground (arith, pos_slot);
          bins = c.bins;
          keeps =
              subst
                (λ hs. Keeps a.is_head (assign nowhere h true) a hs (assign nowhere h true) kept)
                heads
                (subst
                  (λ o.
                    Keeps a.is_head (assign nowhere h true) a (assign a.is_head (h + slot) true) o
                      kept)
                  out
                  (Keeps-trans first-Keeps
                    (push-Keeps area (h + slot) (big - slot) (ground arith) pushed)));
        }
