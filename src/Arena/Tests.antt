-- ===== src/Arena/Tests.antt =====
-- Runs of the arena, and the theorems at them.
use coplus.Prelude.{
  ℕ, ◌+◌, ◌-◌, ◌*◌, ◌≤◌, ◌<◌, ◌≡◌, refl, List, [], ◌∷◌, Bool, true, false, Option, some, assign,
  arith,
}
use coplus.Arena.{Arena, Result, fault, done, ◌>>=◌, page_len}
use coplus.Arena.Sizes.{template, bin_slot, bin_span_size, span_slot_of}
use coplus.Arena.Sizes.Fit.{IsSlot, bin_slot-IsSlot, span_slot_of-fits}
use coplus.Arena.Spans.{first_spans, blank}
use coplus.Arena.Malloc.{malloc, start_page, take_object}
use coplus.Arena.Free.{free, flush_object}
use coplus.Arena.Page.{
  IsPlace, IsPage, take_object-IsPage, take_freed-IsPage, take_unborn-IsPage, flush_object-IsPage,
}
use coplus.Arena.Page.Exhausted.{second_take-is_live}
use coplus.Arena.Page.Fresh.{start_page-IsPage}

-- What a client does: it asks for bytes, or frees an address.
data Call : Type 0 where
  ask : ℕ → Call
  give : ℕ → Call

-- The addresses that the asks get.
run : List Call → Arena → Result (List (Option ℕ))
unfolding malloc free
run [] a = done []
run (ask n ∷ cs) a = do (p, a') ← malloc n a; ps ← run cs a'; done (p ∷ ps)
run (give p ∷ cs) a = free p a >>= run cs

-- Six objects of the largest size fill their page. The first is freed, and of the next two asks the
-- second gets an object that was not freed.
filled_page :
    (first_spans 0 1
      >>= run (
          ask 4080
          ∷ ask 4080
          ∷ ask 4080
          ∷ ask 4080
          ∷ ask 4080
          ∷ ask 4080
          ∷ give 4112
          ∷ ask 4080
          ∷ ask 4080
          ∷ []))
    ≡ done (
        some 4112
        ∷ some 8192
        ∷ some 12272
        ∷ some 16352
        ∷ some 20432
        ∷ some 24512
        ∷ some 4112
        ∷ some 8192
        ∷ [])
unfolding run first_spans bin_slot bin_span_size
filled_page = refl

-- Two chunks, and two objects of one page; the first chunk is used again.
mixed :
    (first_spans 0 1 >>= run (ask 5000 ∷ ask 300 ∷ ask 300 ∷ ask 10000 ∷ give 4108 ∷ ask 5000 ∷ []))
    ≡ done (some 4108 ∷ some 12304 ∷ some 12656 ∷ some 20492 ∷ some 4108 ∷ [])
unfolding run first_spans span_slot_of bin_slot bin_span_size
mixed = refl

-- A chunk of more than 60 pages is looked up past the end of the table.
too_large : (first_spans 0 1 >>= run (ask 300000 ∷ [])) ≡ fault
unfolding run first_spans span_slot_of
too_large = refl

bin_slot-IsSlot_example : IsSlot 100 (bin_slot 100)
bin_slot-IsSlot_example = bin_slot-IsSlot 100 (omega arith) (omega arith)

span_slot_of-fits_example :
    (5000 + 12 ≤ span_slot_of 5000 * 4096) × ((span_slot_of 5000 - 1) * 4096 < 5000 + 12)
span_slot_of-fits_example = span_slot_of-fits 5000 (omega arith)

-- A page of the largest objects on page 1.
abbrev page : Arena
unfolding start_page blank
page = (start_page 39 1 (some 0) blank).1

abbrev first_live : ℕ → Bool
first_live = assign (λ _. false) 16 true

page-IsPage : IsPage 39 1 first_live [] (16 + template 39) page
unfolding template start_page blank bin_span_size
page-IsPage = (start_page-IsPage 39 1 (some 0) blank (omega arith) (omega arith)).1

start_page-IsPage_example :
    ((start_page 39 1 (some 0) blank).0 ≡ 1 * page_len + 16)
    × IsPage 39 1 first_live [] (16 + template 39) (start_page 39 1 (some 0) blank).1
unfolding template bin_span_size
start_page-IsPage_example = start_page-IsPage 39 1 (some 0) blank (omega arith) (omega arith)

take_object-IsPage_example :
    let (p, a') = take_object 39 1 page in
    (offset : ℕ) × (left : List ℕ) × (bump' : ℕ) × (p ≡ 1 * page_len + offset)
    × (first_live offset ≡ false)
    × IsPlace 39 offset
    × IsPage 39 1 (assign first_live offset true) left bump' a'
    × ((a'.headers 1).used ≡ (page.headers 1).used + 1)
unfolding template bin_span_size
take_object-IsPage_example =
    take_object-IsPage 39 1 first_live [] (16 + template 39) page (omega arith) (λ e. omega arith)
      page-IsPage

take_unborn-IsPage_example :
    IsPage 39 1
      (assign first_live (16 + template 39) true)
      []
      (16 + template 39 + template 39)
      (take_object 39 1 page).1
unfolding template bin_span_size
take_unborn-IsPage_example =
    take_unborn-IsPage 39 1 first_live (16 + template 39) page (omega arith) (omega arith)
      page-IsPage

flush_object-IsPage_example :
    IsPage 39 1
      (assign first_live 16 false)
      (16 ∷ [])
      (16 + template 39)
      (flush_object (1 * page_len + 16) 39 1 1 page)
flush_object-IsPage_example =
    flush_object-IsPage 39 1 first_live [] (16 + template 39) 16 1 page refl page-IsPage

take_freed-IsPage_example :
    IsPage 39 1
      (assign (assign first_live 16 false) 16 true)
      []
      (16 + template 39)
      (take_object 39 1 (flush_object (1 * page_len + 16) 39 1 1 page)).1
take_freed-IsPage_example =
    take_freed-IsPage 39 1 (assign first_live 16 false) 16 [] (16 + template 39)
      (flush_object (1 * page_len + 16) 39 1 1 page) flush_object-IsPage_example

second_take-is_live_example :
    let a' = flush_object (1 * page_len + 16) 39 1 1 blank in
    let (p, a'') = take_object 39 1 a' in
    (p ≡ 1 * page_len + 16) × ((take_object 39 1 a'').0 ≡ 1 * page_len + (16 + template 39))
unfolding template bin_span_size blank
second_take-is_live_example = second_take-is_live 39 1 1 16 blank refl (omega arith)
