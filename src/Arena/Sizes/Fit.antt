-- ===== src/Arena/Sizes/Fit.antt =====
-- Which class a size falls into.
use coplus.Prelude.{
  ℕ, zero, suc, ◌+◌, ◌-◌, ◌*◌, ◌≤◌, ◌<◌, ◌≡◌, refl, ◌⊎◌, Bool, true, ◌&&◌, ◌||◌, leb, ltb, ◌==◌,
  dec_lt, arith,
}
use coplus.Arena.Sizes.{bin_slot, bin_search, template, bin_span_size, span_slot_of}

-- What the table of sizes is searched for, as a test.
abbrev fits : ℕ → ℕ → Bool
fits size slot =
    leb size (template slot)
    && ((ltb (template (slot - 1)) size && (leb size 288 || ltb 320 size))
        || ((slot == 25) && ltb 288 size && leb size 320))
    && ltb 0 slot
    && leb slot 39
    && leb (16 + template slot) (bin_span_size slot * 4096)
    && leb 4 (template slot)

all_fit : ℕ → Bool
unfolding bin_span_size template
all_fit zero = true
all_fit (suc n) = fits (suc n) (bin_slot (suc n)) && all_fit n

all_fit_table : all_fit 4080 ≡ true
unfolding all_fit bin_slot bin_search bin_span_size template
all_fit_table = refl

all_fit-below : (n s : ℕ) → all_fit n ≡ true → 0 < s → s ≤ n → fits s (bin_slot s) ≡ true
unfolding all_fit
all_fit-below zero s e h k = absurd (omega arith)
all_fit-below (suc n) s e h k = elim (dec_lt s (suc n)) [
  | yes lt ↦ all_fit-below n s (ground arith) h (omega arith)
  | no ge ↦ let same : s ≡ suc n = omega arith in rw same (ground arith)
]

-- What a slot is to a size.
pub record IsSlot (size slot : ℕ) : Type 0 where
  pub above : size ≤ template slot
  pub least :
      ((template (slot - 1) < size) × ((size ≤ 288) ⊎ (320 < size)))
      ⊎ ((slot ≡ 25) × (288 < size) × (size ≤ 320))
  pub first : 1 ≤ slot
  pub last : slot ≤ 39
  pub holds_one : 16 + template slot ≤ bin_span_size slot * 4096
  pub some_bytes : 4 ≤ template slot

of_fits : (size slot : ℕ) → fits size slot ≡ true → IsSlot size slot
of_fits size slot e = ground arith

-- Every size from 1 to 4080 gets a slot of the table whose objects are large enough and of which the
-- span holds at least one. It is the slot of the smallest such objects, but that the sizes from 289
-- to 320 get slot 25, that for 352 bytes.
pub bin_slot-IsSlot : (size : ℕ) → 0 < size → size ≤ 4080 → IsSlot size (bin_slot size)
bin_slot-IsSlot size h k = of_fits size (bin_slot size) (all_fit-below 4080 size all_fit_table h k)

-- A chunk and its header fit into as many pages as the slot says, and into no fewer.
pub span_slot_of-fits :
    (size : ℕ)
    → 0 < size
    → (size + 12 ≤ span_slot_of size * 4096) × ((span_slot_of size - 1) * 4096 < size + 12)
unfolding span_slot_of
span_slot_of-fits size h = omega arith
