-- ===== src/Arena/Page.antt =====
-- A page of objects between `Malloc` and `Free`: its free objects are a list that ends where the
-- objects begin that were never handed out.
pub mod Exhausted
pub mod Fresh
use coplus.Prelude.{
  ℕ, zero, suc, ◌+◌, ◌-◌, ◌*◌, ◌≤◌, ◌<◌, ◌≡◌, ◌≢◌, refl, sym, ap, ◌∙◌, List, [], ◌∷◌, Bool, true,
  false, ltb, leb, ◌==◌, ◌&&◌, if◌then◌else◌, assign, Absent, subst, Bool-cases, inl, inr, arith,
}
use coplus.Arena.{Header, Arena, page_len, page_of, set_header}
use coplus.Arena.Sizes.{template, bin_span_size}
use coplus.Arena.Malloc.{take_object}
use coplus.Arena.Free.{flush_object}

-- The places of objects: one after the other behind the header, up to the end of the span.
abbrev pub IsPlace : ℕ → ℕ → Type 0
IsPlace slot o =
    (k : ℕ) × (o ≡ 16 + k * template slot) × (o + template slot ≤ bin_span_size slot * page_len)

-- From `start` the words of the objects lead through `frees` to `bump`, where a zero stands.
abbrev pub Chain : (ℕ → ℕ) → ℕ → ℕ → List ℕ → ℕ → Type 0
Chain words base start [] bump = (start ≡ bump) × (words (base + bump) ≡ 0)
Chain words base start (f ∷ fs) bump = (start ≡ f) × Chain words base (words (base + f)) fs bump

-- Free objects: places below `bump`, each once, and none of them live.
abbrev pub AreFree : (ℕ → Bool) → ℕ → ℕ → List ℕ → Type 0
AreFree live slot bump [] = Unit
AreFree live slot bump (f ∷ fs) =
    (live f ≡ false) × IsPlace slot f × (f < bump) × Absent f fs × AreFree live slot bump fs

-- The page `h` of a slot: `live` are the objects that clients hold.
pub record IsPage (slot h : ℕ) (live : ℕ → Bool) (frees : List ℕ) (bump : ℕ) (a : Arena)
    : Type 0 where
  pub chain : Chain a.words (h * page_len) (a.headers h).free_offset frees bump
  pub are_free : AreFree live slot bump frees
  pub end_place : IsPlace slot bump
  pub unborn : (o : ℕ) → bump ≤ o → live o ≡ false
  pub placed : (o : ℕ) → live o ≡ true → IsPlace slot o

-- Writes elsewhere.
Chain-frame :
    (words : ℕ → ℕ) (base start : ℕ) (frees : List ℕ) (bump o v : ℕ)
    → Absent o frees
    → o ≢ bump
    → Chain words base start frees bump
    → Chain (assign words (base + o) v) base start frees bump
Chain-frame words base start [] bump o v apart ne (s, z) = (s, ground (arith, z))
Chain-frame words base start (f ∷ fs) bump o v (nf, apart) ne (s, c) = (
  s,
  subst (λ x. Chain (assign words (base + o) v) base x fs bump) same
      (Chain-frame words base (words (base + f)) fs bump o v apart ne c),
)
  where
    same : words (base + f) ≡ assign words (base + o) v (base + f)
    same = ground arith

-- An object becomes live.
AreFree-live :
    (live : ℕ → Bool) (slot bump o : ℕ) (frees : List ℕ)
    → Absent o frees
    → AreFree live slot bump frees
    → AreFree (assign live o true) slot bump frees
AreFree-live live slot bump o [] apart a = tt
AreFree-live live slot bump o (f ∷ fs) (nf, apart) (l, p, b, ab, a) =
    (ground (arith, l, nf), p, b, ab, AreFree-live live slot bump o fs apart a)

-- An object is freed.
AreFree-freed :
    (live : ℕ → Bool) (slot bump o : ℕ) (frees : List ℕ)
    → AreFree live slot bump frees
    → AreFree (assign live o false) slot bump frees
AreFree-freed live slot bump o [] a = tt
AreFree-freed live slot bump o (f ∷ fs) (l, p, b, ab, a) =
    (ground (arith, l), p, b, ab, AreFree-freed live slot bump o fs a)

-- The objects that were never handed out end further on.
AreFree-mono :
    (live : ℕ → Bool) (slot bump bump' : ℕ) (frees : List ℕ)
    → bump ≤ bump'
    → AreFree live slot bump frees
    → AreFree live slot bump' frees
AreFree-mono live slot bump bump' [] le a = tt
AreFree-mono live slot bump bump' (f ∷ fs) le (l, p, b, ab, a) =
    (l, p, omega arith, ab, AreFree-mono live slot bump bump' fs le a)

-- What is live is absent from the free objects.
live-Absent :
    (live : ℕ → Bool) (slot bump o : ℕ) (frees : List ℕ)
    → live o ≡ true
    → AreFree live slot bump frees
    → Absent o frees
live-Absent live slot bump o [] e a = tt
live-Absent live slot bump o (f ∷ fs) e (l, p, b, ab, a) =
    (λ same. apart (sym e ∙ ap live same ∙ l), live-Absent live slot bump o fs e a)
  where
    apart : true ≡ false → ⊥
    apart e = cc

below-Absent :
    (live : ℕ → Bool) (slot bump : ℕ) (frees : List ℕ)
    → AreFree live slot bump frees
    → Absent bump frees
below-Absent live slot bump [] a = tt
below-Absent live slot bump (f ∷ fs) (l, p, b, ab, a) =
    (λ same. omega (arith, same, b), below-Absent live slot bump fs a)

pub take-offset :
    (slot h : ℕ) (a : Arena) → (take_object slot h a).0 ≡ h * page_len + (a.headers h).free_offset
unfolding take_object
take-offset slot h a = ground arith

take-used :
    (slot h : ℕ) (a : Arena) → ((take_object slot h a).1.headers h).used ≡ (a.headers h).used + 1
unfolding take_object
take-used slot h a = ground arith

-- The effect of `Malloc` on the page, where an object was freed before and where none was.
module _ (slot h : ℕ) (a : Arena) where
  abbrev pub start : ℕ
  start = (a.headers h).free_offset

  take_freed :
      a.words (h * page_len + start) ≢ 0
      → (((take_object slot h a).1.headers h).free_offset ≡ a.words (h * page_len + start))
        × ((take_object slot h a).1.words ≡ a.words)
  unfolding take_object
  take_freed ne = ground arith

  pub take_unborn :
      a.words (h * page_len + start) ≡ 0
      → start + template slot * 2 ≤ bin_span_size slot * page_len
      → (((take_object slot h a).1.headers h).free_offset ≡ start + template slot)
        × ((take_object slot h a).1.words ≡ assign a.words (h * page_len + start + template slot) 0)
  unfolding take_object
  take_unborn z room = ground arith

  pub flush_effect :
      (o b : ℕ)
      → let a' = flush_object (h * page_len + o) slot h b a in
        ((a'.headers h).free_offset ≡ o) × (a'.words ≡ assign a.words (h * page_len + o) start)
  unfolding flush_object
  flush_effect o b = ground arith

start-pos :
    (words : ℕ → ℕ) (base start : ℕ) (live : ℕ → Bool) (slot : ℕ) (frees : List ℕ) (bump : ℕ)
    → Chain words base start frees bump
    → AreFree live slot bump frees
    → IsPlace slot bump
    → 0 < start
start-pos words base first live slot [] bump c a (k, e, le) = omega (arith, c.0, e)
start-pos words base first live slot (f ∷ fs) bump c (l, (k, e, le), b, ab, rest) p =
    omega (arith, c.0, e)

placed_live :
    (live : ℕ → Bool) (slot f : ℕ)
    → IsPlace slot f
    → ((o : ℕ) → live o ≡ true → IsPlace slot o)
    → (o : ℕ) → assign live f true o ≡ true
    → IsPlace slot o
placed_live live slot f p all o e = elim (Bool-cases (o == f)) [
  | inl same ↦ let eq : o ≡ f = ground arith in subst (IsPlace slot) (sym eq) p
  | inr other ↦ all o (ground arith)
]

-- After an object that had been freed, the page is in order.
pub take_freed-IsPage :
    (slot h : ℕ) (live : ℕ → Bool) (f : ℕ) (frees : List ℕ) (bump : ℕ) (a : Arena)
    → IsPage slot h live (f ∷ frees) bump a
    → IsPage slot h (assign live f true) frees bump (take_object slot h a).1
take_freed-IsPage slot h live f frees bump a v = record {
  chain = rw (e.0, e.1, v.chain.0) v.chain.1;
  are_free = AreFree-live live slot bump f frees v.are_free.3 v.are_free.4;
  end_place = v.end_place;
  unborn = λ o le. ground (arith, v.unborn o le, v.are_free);
  placed = placed_live live slot f v.are_free.1 v.placed;
}
  where
    linked : 0 < a.words (h * page_len + f)
    linked =
        start-pos a.words (h * page_len) _ live slot frees bump v.chain.1 v.are_free.4 v.end_place

    ne : a.words (h * page_len + start slot h a) ≢ 0
    ne = rw v.chain.0 (λ z. omega (arith, linked, z))

    e :
        (((take_object slot h a).1.headers h).free_offset ≡ a.words (h * page_len + start slot h a))
        × ((take_object slot h a).1.words ≡ a.words)
    e = take_freed slot h a ne

-- After an object that had never been handed out, the page is in order where another follows.
pub take_unborn-IsPage :
    (slot h : ℕ) (live : ℕ → Bool) (bump : ℕ) (a : Arena)
    → 0 < template slot
    → bump + template slot * 2 ≤ bin_span_size slot * page_len
    → IsPage slot h live [] bump a
    → IsPage slot h (assign live bump true) [] (bump + template slot) (take_object slot h a).1
take_unborn-IsPage slot h live bump a some_bytes room v = record {
  chain = rw (e.0, e.1, v.chain.0) (refl, ground arith);
  are_free = tt;
  end_place = next_place v.end_place;
  unborn = λ o le. ground (arith, v.unborn o (omega arith));
  placed = placed_live live slot bump v.end_place v.placed;
}
  where
    z : a.words (h * page_len + start slot h a) ≡ 0
    z = rw v.chain.0 v.chain.1

    e :
        (((take_object slot h a).1.headers h).free_offset ≡ start slot h a + template slot)
        × ((take_object slot h a).1.words
            ≡ assign a.words (h * page_len + start slot h a + template slot) 0)
    e = take_unborn slot h a z (rw v.chain.0 room)

    next_place : IsPlace slot bump → IsPlace slot (bump + template slot)
    next_place (k, eq, le) = (suc k, grind arith, omega (arith, room))

-- On a page in order, where an object is free or another place follows the one that is next: `Malloc`
-- gives the address of a place that no client holds, and counts one object more; the page is in
-- order then, with that object held as well.
pub take_object-IsPage :
    (slot h : ℕ) (live : ℕ → Bool) (frees : List ℕ) (bump : ℕ) (a : Arena)
    → 0 < template slot
    → (frees ≡ [] → bump + template slot * 2 ≤ bin_span_size slot * page_len)
    → IsPage slot h live frees bump a
    → let (p, a') = take_object slot h a in
      (offset : ℕ) × (left : List ℕ) × (bump' : ℕ) × (p ≡ h * page_len + offset)
      × (live offset ≡ false)
      × IsPlace slot offset
      × IsPage slot h (assign live offset true) left bump' a'
      × ((a'.headers h).used ≡ (a.headers h).used + 1)
take_object-IsPage slot h live [] bump a some_bytes room v = (
  bump,
  [],
  bump + template slot,
  take-offset slot h a ∙ ap (λ o. h * page_len + o) v.chain.0,
  v.unborn bump (omega arith),
  v.end_place,
  take_unborn-IsPage slot h live bump a some_bytes (room refl) v,
  take-used slot h a,
)
take_object-IsPage slot h live (f ∷ fs) bump a some_bytes room v = (
  f,
  fs,
  bump,
  take-offset slot h a ∙ ap (λ o. h * page_len + o) v.chain.0,
  v.are_free.0,
  v.are_free.1,
  take_freed-IsPage slot h live f fs bump a v,
  take-used slot h a,
)

pub flush_object-IsPage :
    (slot h : ℕ) (live : ℕ → Bool) (frees : List ℕ) (bump o b : ℕ) (a : Arena)
    → live o ≡ true
    → IsPage slot h live frees bump a
    → IsPage slot h
        (assign live o false)
        (o ∷ frees)
        bump
        (flush_object (h * page_len + o) slot h b a)
flush_object-IsPage slot h live frees bump o b a l v = record {
  chain =
      subst
        (λ w.
          Chain w (h * page_len)
            ((flush_object (h * page_len + o) slot h b a).headers h).free_offset (o ∷ frees) bump)
        (sym e.1)
        (
          e.0,
          subst
              (λ x.
                Chain (assign a.words (h * page_len + o) (start slot h a)) (h * page_len) x frees
                  bump)
              back
              (Chain-frame a.words (h * page_len) (start slot h a) frees bump o (start slot h a)
                apart (λ same. omega (arith, same, below)) v.chain),
        );
  are_free =
      (ground arith, v.placed o l, below, apart, AreFree-freed live slot bump o frees v.are_free);
  end_place = v.end_place;
  unborn = λ o' le. ground (arith, v.unborn o' le);
  placed = λ o' q. v.placed o' (ground arith);
}
  where
    e :
        (((flush_object (h * page_len + o) slot h b a).headers h).free_offset ≡ o)
        × ((flush_object (h * page_len + o) slot h b a).words
            ≡ assign a.words (h * page_len + o) (start slot h a))
    e = flush_effect slot h a o b

    apart : Absent o frees
    apart = live-Absent live slot bump o frees l v.are_free

    back : start slot h a ≡ assign a.words (h * page_len + o) (start slot h a) (h * page_len + o)
    back = ground arith

    below : o < bump
    below = ground (arith, v.unborn o, l)
