-- ===== src/FastStack/Tests.antt =====
-- Runs of `PushOnlyFastStack`, and the theorems at those stacks.
use coplus.Prelude.{
  ℕ, ◌-◌, ◌<◌, ◌^◌, ◌≡◌, refl, true, ℤ, pos, minus_one, List, [], ◌∷◌, ◌++◌, none, some, get_or,
  arith,
}
use coplus.FastStack.{FastStack, init, get, push}
use coplus.FastStack.Items.{IsValid, items, init-IsValid}
use coplus.FastStack.Push.{push_items, push-IsValid}
use coplus.FastStack.Get.{get-items, get-max_size}

abbrev empty : FastStack ℕ
empty = init 2 4

abbrev one_item : FastStack ℕ
one_item = (push 0 empty 7).1

one_item-IsValid : IsValid one_item
unfolding init
one_item-IsValid = push-IsValid 0 empty 7 (init-IsValid 2 4 (omega arith) (omega arith)) below
  where
    below : empty.end < 2 ^ 32 - 1
    below = omega arith

-- Four items fill the stack; the fifth is refused, and `end` counts it.
abbrev full : FastStack ℕ
full = (push 0 (push 0 (push 0 one_item 8).1 9).1 6).1

full_runs :
    ((push 0 full 5).0 ≡ minus_one)
    × ((push 0 full 5).1.end ≡ 5)
    × (get full (pos 2) 0 ≡ some (true, 9))
    × (get full (pos 4) 0 ≡ none)
    × (get one_item (pos 1) 3 ≡ some (true, 0))
unfolding push get init
full_runs = (refl, refl, refl, refl, refl)

push_items_example :
    ◌≡◌ {A = ℤ × List ℕ}
      ((push 0 one_item 8).0, items 0 (push 0 one_item 8).1)
      (pos 1, items 0 one_item ++ 8 ∷ [])
unfolding push init
push_items_example = push_items 0 one_item 8 one_item-IsValid (omega arith)

get-items_example : get one_item (pos 0) 3 ≡ some (true, get_or (items 0 one_item) 0 3)
unfolding push init
get-items_example = get-items 0 one_item 0 3 one_item-IsValid (omega arith)

get-max_size_example : get one_item (pos 4) 3 ≡ none
unfolding push init
get-max_size_example = get-max_size one_item 3 one_item-IsValid refl
