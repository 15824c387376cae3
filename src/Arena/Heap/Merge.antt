-- ===== src/Arena/Heap/Merge.antt =====
-- A span that is freed and its neighbours.
use coplus.Prelude.{
  ℕ, ◌+◌, ◌-◌, ◌≤◌, ◌<◌, ◌≡◌, ◌≢◌, refl, sym, ap, ◌∙◌, ℤ, pos, negsuc, true, false, ◌&&◌, none,
  some, ltb, leb, assign, if◌then◌else◌, arith, subst, fun_ext, Option-cases, Bool-cases, inl, inr,
}
use coplus.Arena.{Link, Header, Arena, set_header, span_slot_size}
use coplus.Arena.Spans.{unlink_span}
use coplus.Arena.Free.{span_handle_of, mergeable, absorb, merge_forward}
use coplus.Arena.Heap.{total, IsArea}
use coplus.Arena.Heap.Tiled.{Scanned, scan, scan_before}
use coplus.Arena.Heap.Links.{Unlinked, unlink-Unlinked}
use coplus.Arena.Heap.Steps.{IsSpan, span_size, unlink-IsArea}
use coplus.Arena.Heap.Chunks.{aside-IsArea, join-IsArea}
use coplus.Arena.Heap.Busy.{Keeps-trans, remark-Keeps, unlink-Keeps, aside-Keeps}
use coplus.Arena.Heap.Grow.{nowhere}
use coplus.Arena.Heap.Loose.{Loose}

record Fits (hd : Header) (max k : ℕ) : Type 0 where
  link : hd.next ≢ none
  flag : hd.flag ≡ pos k
  pos_size : 0 < k
  pub at_most : k ≤ max

mergeable-Fits : (hd : Header) (max k : ℕ) → mergeable hd max ≡ some k → Fits hd max k
unfolding mergeable
mergeable-Fits hd max k e = go hd.next hd.flag refl refl e
  where
    go :
        (l : Link) (f : ℤ)
        → hd.next ≡ l
        → hd.flag ≡ f
        → elim l [
          | none ↦ none
          | some _ ↦ elim f [
            | negsuc _ ↦ none
            | pos k ↦ (if ltb 0 k && leb k max then some k else none)
          ]
        ]
          ≡ some k
        → Fits hd max k
    go none f l x e = absurd (ground (arith, e))
    go (some n) (negsuc i) l x e = absurd (ground (arith, e))
    go (some n) (pos i) l x e = record {
      link = λ z. ground (arith, z, l);
      flag = ground (arith, x, e);
      pos_size = ground (arith, e);
      at_most = ground (arith, e);
    }

module _ {a0 : Arena} {h0 k0 h k : ℕ} {a : Arena} (l : Loose a0 h0 k0 h k a) where
  pub pos_k : 0 < k
  pos_k = ground (arith, l.area.tiled.bounds h l.marked, l.size_self)

  pub at_most : k ≤ span_slot_size
  at_most = ground (arith, l.area.small h l.marked, l.size_self)

  module _ (k' : ℕ) where
    abbrev forward : Arena
    forward =
        let c = absorb k' (h + k) a in set_header c h (record (c.headers h) { flag = pos (k + k') })

    -- The neighbour behind goes in.
    forward-Loose :
        h + k ≤ total a
        → mergeable (a.headers (h + k)) (span_slot_size - k) ≡ some k'
        → Loose a0 h0 k0 h (k + k') forward
    unfolding absorb
    forward-Loose le e = record {
      heads = assign l.heads (h + k) false;
      sizes = assign l.sizes h (k + l.sizes (h + k));
      area =
          subst
            (λ o.
              IsArea (assign l.heads (h + k) false) o (assign l.sizes h (k + l.sizes (h + k)))
                forward)
            out
            (aside-IsArea joined h (record (b.headers h) { flag = pos (k + k') })
              (ground (arith, pos_k)));
      marked = ground (arith, pos_k, l.marked);
      marks = λ j. ground (arith, l.marks j, ap (λ hs. hs j) u.chunks.is_head);
      size_self = ground (arith, size_n);
      flag = ground arith;
      starts = l.starts;
      ends = omega (arith, l.ends);
      keeps = Keeps-trans l.keeps (
          Keeps-trans (unlink-Keeps v (h + k) k' span) (
            Keeps-trans
              (remark-Keeps {b = c} (λ j. refl)
                (λ j m o. (ground (arith, m, o), ground (arith, m, o))))
              (aside-Keeps h (record (b.headers h) { flag = pos (k + k') }) (ground arith))));
    }
      where
        v : IsArea l.heads (assign nowhere h true) l.sizes a
        v = l.area

        fits : Fits (a.headers (h + k)) (span_slot_size - k) k'
        fits = mergeable-Fits (a.headers (h + k)) (span_slot_size - k) k' e

        span : IsSpan (assign nowhere h true) l.heads a (h + k) k'
        span = record {
          stays = ground (arith, pos_k);
          marked = ground (arith, v.tiled.next_head h l.marked, l.size_self, le);
          link = fits.link;
          flag = fits.flag;
          pos_size = fits.pos_size;
        }

        size_n : l.sizes (h + k) ≡ k'
        size_n = (span_size v span).0

        b : Arena
        b = unlink_span a k' (h + k)

        c : Arena
        c = absorb k' (h + k) a

        u : Unlinked a k' (h + k) b
        u = unlink-Unlinked a k' (h + k) (ground (arith, v.entries, (span_size v span).1))

        joined :
            IsArea
              (assign l.heads (h + k) false)
              (assign (assign (assign nowhere h true) (h + k) true) (h + k) false)
              (assign l.sizes h (k + l.sizes (h + k)))
              c
        joined =
            join-IsArea (unlink-IsArea v (h + k) k' span) h k (assign b.is_head (h + k) false)
              (ground (arith, pos_k)) l.marked l.size_self (ground arith) span.marked
              (omega (arith, size_n, fits.at_most, at_most))

        out :
            assign (assign (assign nowhere h true) (h + k) true) (h + k) false
            ≡ assign nowhere h true
        out = fun_ext (λ j. ground (arith, pos_k))

  pub merge_forward-Loose : Loose a0 h0 k0 h (merge_forward h k a).0 (merge_forward h k a).1
  unfolding merge_forward
  merge_forward-Loose = elim (Bool-cases (leb (h + k) (total a))) [
    | inr f ↦ rw (merge_forward, f) l
    | inl t ↦ elim (Option-cases (mergeable (a.headers (h + k)) (span_slot_size - k))) [
      | inl e ↦ rw (merge_forward, t, e) l
      | inr (k', e) ↦ rw (merge_forward, t, e) (forward-Loose k' (ground (arith, t)) e)
    ]
  ]

  module _ (g k' : ℕ) where
    abbrev pub backward : Arena
    backward =
        let c = absorb k' g a in set_header c g (record (c.headers g) { flag = pos (k' + k) })

    -- The neighbour before takes the span in.
    pub backward-Loose :
        (max : ℕ)
        → max ≤ span_slot_size - k
        → g ≡ span_handle_of l.heads (h - 1)
        → 0 < g
        → mergeable (a.headers g) max ≡ some k'
        → Loose a0 h0 k0 g (k' + k) backward
    unfolding absorb
    backward-Loose max small scanned pos_g e = record {
      heads = assign l.heads (g + k') false;
      sizes = assign l.sizes g (k' + l.sizes (g + k'));
      area =
          subst
            (λ o.
              IsArea (assign l.heads (g + k') false) o (assign l.sizes g (k' + l.sizes (g + k')))
                backward)
            out
            (aside-IsArea joined g (record (b.headers g) { flag = pos (k' + k) })
              (ground (arith, fits.pos_size)));
      marked = ground (arith, fits.pos_size, span.marked);
      marks = λ j. ground (arith, l.marks j, ap (λ hs. hs j) u.chunks.is_head, meets);
      size_self = ground (arith, l.size_self, meets);
      flag = ground arith;
      starts = omega (arith, l.starts, meets);
      ends = omega (arith, l.ends, meets);
      keeps = Keeps-trans l.keeps (
          Keeps-trans (unlink-Keeps v g k' span) (
            Keeps-trans
              (remark-Keeps {b = c} (λ j. refl)
                (λ j m o. (ground (arith, m, o, meets), ground (arith, m, o, meets))))
              (aside-Keeps g (record (b.headers g) { flag = pos (k' + k) }) (ground arith))));
    }
      where
        v : IsArea l.heads (assign nowhere h true) l.sizes a
        v = l.area

        s : Scanned l.heads (h - 1) g
        s = subst (λ n. Scanned l.heads (h - 1) n) (sym scanned) (scan l.heads (h - 1))

        fits : Fits (a.headers g) max k'
        fits = mergeable-Fits (a.headers g) max k' e

        span : IsSpan (assign nowhere h true) l.heads a g k'
        span = record {
          stays = ground (arith, s.low, pos_g);
          marked = s.marked pos_g;
          link = fits.link;
          flag = fits.flag;
          pos_size = fits.pos_size;
        }

        size_g : l.sizes g ≡ k'
        size_g = (span_size v span).0

        meets : g + k' ≡ h
        meets =
            subst (λ n. n + k' ≡ h) (sym scanned)
              (ap (λ n. span_handle_of l.heads (h - 1) + n)
                  (sym (subst (λ n. l.sizes n ≡ k') scanned size_g))
                ∙ (scan_before v.tiled h l.marked (omega (arith, s.low, pos_g))).1)

        b : Arena
        b = unlink_span a k' g

        c : Arena
        c = absorb k' g a

        u : Unlinked a k' g b
        u = unlink-Unlinked a k' g (ground (arith, v.entries, (span_size v span).1))

        joined :
            IsArea
              (assign l.heads (g + k') false)
              (assign (assign (assign nowhere h true) g true) (g + k') false)
              (assign l.sizes g (k' + l.sizes (g + k')))
              c
        joined =
            join-IsArea (unlink-IsArea v g k' span) g k' (assign b.is_head g false) (ground arith)
              span.marked size_g (ground (arith, meets)) (ground (arith, meets, l.marked))
              (ground (arith, meets, l.size_self, fits.at_most, small, at_most))

        out : assign (assign (assign nowhere h true) g true) (g + k') false ≡ assign nowhere g true
        out = fun_ext (λ j. ground (arith, meets, fits.pos_size))
