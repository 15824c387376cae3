-- ===== src/Arena/Heap/Tiled.antt =====
-- Chunks that tile the pages from 1 to `total`: `is_head` marks the first page of each.
use coplus.Prelude.{
  ℕ, zero, suc, ◌+◌, ◌-◌, ◌≤◌, ◌<◌, ◌≡◌, ◌≢◌, Bool, true, false, ◌==◌, ◌⊎◌, inl, inr, if◌then◌else◌,
  ℕ_discrete, Bool-cases, arith,
}
use coplus.Arena.Free.{span_handle_of}

pub record IsTiled (is_head : ℕ → Bool) (size : ℕ → ℕ) (total : ℕ) : Type 0 where
  pub bounds : (h : ℕ) → is_head h ≡ true → (0 < h) × (0 < size h) × (h + size h ≤ total + 1)
  pub next_head : (h : ℕ) → is_head h ≡ true → h + size h ≤ total → is_head (h + size h) ≡ true
  pub inner : (h j : ℕ) → is_head h ≡ true → h < j → j < h + size h → is_head j ≡ false
  pub first : 0 < total → is_head 1 ≡ true

-- What the scan down finds.
pub record Scanned (is_head : ℕ → Bool) (c g : ℕ) : Type 0 where
  pub low : g ≤ c
  pub marked : 0 < g → is_head g ≡ true
  pub none_between : (j : ℕ) → g < j → j ≤ c → is_head j ≡ false

pub scan : (is_head : ℕ → Bool) (c : ℕ) → Scanned is_head c (span_handle_of is_head c)
unfolding span_handle_of
scan is_head zero = record {
  low = omega arith;
  marked = λ h. absurd (omega arith);
  none_between = λ j h k. absurd (omega arith);
}
scan is_head (suc c) = elim (Bool-cases (is_head (suc c))) [
  | inl e ↦
      rw (span_handle_of, e)
        (record {
          low = omega arith;
          marked = λ h. e;
          none_between = λ j h k. absurd (omega arith);
        })
  | inr e ↦
      let r = scan is_head c in
      rw (span_handle_of, e)
        (record {
          low = omega (arith, r.low);
          marked = r.marked;
          none_between = λ j h k. between r e j h k;
        })
]
  where
    between :
        Scanned is_head c (span_handle_of is_head c)
        → is_head (suc c) ≡ false
        → (j : ℕ) → span_handle_of is_head c < j
        → j ≤ suc c
        → is_head j ≡ false
    between r e j h k = elim (ℕ_discrete j (suc c)) [
      | yes p ↦ rw p e
      | no p ↦ r.none_between j h (omega arith)
    ]

module _ {is_head : ℕ → Bool} {size : ℕ → ℕ} {total : ℕ} (t : IsTiled is_head size total) where
  -- Two chunks do not overlap.
  pub apart :
      (h g : ℕ) → is_head h ≡ true → is_head g ≡ true → h ≢ g → (h + size h ≤ g) ⊎ (g + size g ≤ h)
  apart h g a b ne = ground (arith, t.inner h g, t.inner g h)

  -- From any page of a chunk the scan finds its first.
  pub scan_inside :
      (h c : ℕ) → is_head h ≡ true → h ≤ c → c < h + size h → span_handle_of is_head c ≡ h
  scan_inside h c a le lt =
      let r = scan is_head c in
      ground
        (arith, r.low, r.none_between h, t.inner h (span_handle_of is_head c), r.marked, t.bounds h)

  -- From the page before a chunk it finds the chunk before, or 0 at the first.
  pub scan_before :
      (h : ℕ)
      → is_head h ≡ true
      → 1 < h
      → (is_head (span_handle_of is_head (h - 1)) ≡ true)
        × (span_handle_of is_head (h - 1) + size (span_handle_of is_head (h - 1)) ≡ h)
  scan_before h a lt =
      let r = scan is_head (h - 1) in
      let p = span_handle_of is_head (h - 1) in
      ground (
        arith,
        r.low,
        r.none_between 1,
        r.none_between (p + size p),
        r.marked,
        t.first,
        t.bounds h,
        t.bounds p,
        t.inner p h,
        t.next_head p,
      )

  module _ {is_head' : ℕ → Bool} {size' : ℕ → ℕ} where
    -- A chunk is cut in two.
    pub split-IsTiled :
        (h n : ℕ)
        → is_head h ≡ true
        → 0 < n
        → n < size h
        → ((j : ℕ) → is_head' j ≡ (if j == h + n then true else is_head j))
        → size' h ≡ n
        → size' (h + n) ≡ size h - n
        → ((j : ℕ) → j ≢ h → j ≢ h + n → size' j ≡ size j)
        → IsTiled is_head' size' total
    split-IsTiled h n a pos_n lt i' s_h s_r s' = record {
      bounds = λ g b. ground (arith, i' g, s' g, t.bounds g, t.bounds h);
      next_head = λ g b le. ground (
        arith,
        i' g,
        i' (g + size' g),
        s' g,
        t.next_head g,
        t.next_head h,
        t.bounds g,
        t.bounds h,
      );
      inner = λ g j b lo hi. ground (
        arith,
        i' g,
        i' j,
        s' g,
        t.inner g j,
        t.inner h j,
        t.inner h g,
        t.inner g h,
        t.bounds g,
        t.bounds h,
      );
      first = λ p. ground (arith, i' 1, t.first);
    }

    -- A chunk and the next one become one.
    pub join-IsTiled :
        (h : ℕ)
        → is_head h ≡ true
        → is_head (h + size h) ≡ true
        → ((j : ℕ) → is_head' j ≡ (if j == h + size h then false else is_head j))
        → size' h ≡ size h + size (h + size h)
        → ((j : ℕ) → j ≢ h → j ≢ h + size h → size' j ≡ size j)
        → IsTiled is_head' size' total
    join-IsTiled h a b i' s_h s' = record {
      bounds = λ g c. ground (arith, i' g, s' g, t.bounds g, t.bounds h, t.bounds (h + size h));
      next_head = λ g c le. ground (
        arith,
        i' g,
        i' (g + size' g),
        s' g,
        t.next_head g,
        t.next_head (h + size h),
        t.bounds g,
        t.bounds h,
        t.bounds (h + size h),
        t.inner g h,
        t.inner h g,
        t.inner g (h + size h),
        t.inner (h + size h) g,
      );
      inner = λ g j c lo hi. ground (
        arith,
        i' g,
        i' j,
        s' g,
        t.inner g j,
        t.inner h j,
        t.inner (h + size h) j,
        t.bounds g,
        t.bounds h,
        t.bounds (h + size h),
      );
      first = λ p. ground (arith, i' 1, t.first, t.bounds h);
    }

    -- A chunk is added at the end.
    pub extend-IsTiled :
        (n : ℕ)
        → 0 < n
        → ((j : ℕ) → is_head' j ≡ (if j == total + 1 then true else is_head j))
        → size' (total + 1) ≡ n
        → ((j : ℕ) → j ≢ total + 1 → size' j ≡ size j)
        → IsTiled is_head' size' (total + n)
    extend-IsTiled n pos_n i' s_e s' = record {
      bounds = λ g c. ground (arith, i' g, s' g, t.bounds g);
      next_head = λ g c le. ground (arith, i' g, i' (g + size' g), s' g, t.next_head g, t.bounds g);
      inner = λ g j c lo hi. ground (arith, i' g, i' j, s' g, t.inner g j, t.bounds g, t.bounds j);
      first = λ p. ground (arith, i' 1, t.first);
    }
