-- ===== src/Arena/Sizes.antt =====
-- Size classes of the arena: bins for objects, and spans for chunks.
pub mod Fit
use coplus.Prelude.{
  ℕ, zero, suc, ◌+◌, ◌-◌, ◌/◌, List, [], ◌∷◌, Bool, true, false, leb, ltb, ◌==◌, if◌then◌else◌,
  get_or,
}
use coplus.Arena.{bin_slot_size, page_len, span_header_size}

-- `kBinSlotTemplate`
abbrev pub bin_slot_template : List ℕ
bin_slot_template =
    0 ∷ 4 ∷ 8 ∷ 16 ∷ 32 ∷ 48 ∷ 56 ∷ 64 ∷ 72 ∷ 80 ∷ 88 ∷ 96 ∷ 112 ∷ 128 ∷ 144 ∷ 160 ∷ 176 ∷ 192 ∷ 208
    ∷ 224 ∷ 240 ∷ 256 ∷ 272 ∷ 288 ∷ 320 ∷ 352 ∷ 384 ∷ 448 ∷ 512 ∷ 576 ∷ 672 ∷ 800 ∷ 1024 ∷ 1088
    ∷ 1344 ∷ 1632 ∷ 2016 ∷ 2720 ∷ 3040 ∷ 4080 ∷ []

unfoldable pub template : ℕ → ℕ
template slot = get_or bin_slot_template slot 0

-- The loop of `BinSlot`; with too little fuel the answer is 0, which is no slot.
unfoldable pub bin_search : ℕ → (size lo hi : ℕ) → ℕ
unfolding template
bin_search zero size lo hi = 0
bin_search (suc fuel) size lo hi =
    let mid = lo + (hi - lo) / 2 in
    elim (ltb (lo + 1) hi) [
      | false ↦ hi
      | true ↦ elim (template mid == size) [
        | true ↦ mid
        | false ↦ elim (ltb (template mid) size) [
          | true ↦ bin_search fuel size mid hi
          | false ↦ bin_search fuel size lo mid
        ]
      ]
    ]

-- `BinSlot`, for sizes up to 4080.
unfoldable pub bin_slot : ℕ → ℕ
unfolding bin_search
bin_slot size =
    if leb size 48
    then (if leb size 4
        then 1
        else if leb size 8
        then 2
        else if leb size 16
        then 3
        else if leb size 32
        then 4
        else 5)
    else if leb size 96
    then (size - 1) / 8
    else if leb size 288
    then (size - 1) / 16 + 6
    else bin_search 8 size 24 bin_slot_size

-- `BinSpanSize`
unfoldable pub bin_span_size : ℕ → ℕ
bin_span_size slot = if ltb 37 slot then 6 else if leb 32 slot then 4 else 2

-- `SpanSlotOf`
unfoldable pub span_slot_of : ℕ → ℕ
span_slot_of size = (size + span_header_size - 1) / page_len + 1
