-- ===== src/Text/Tests.antt =====
-- Strings cut at commas, and the theorems at them.
use coplus.Prelude.{
  ◌≡◌, refl, ◌↔◌, List, [], ◌∷◌, ◌++◌, true, false, some, length, ◌-◌, arith, concat,
}
use coplus.Text.{Text, split, split_loop, split_spaces, split_spaces_loop, starts_with, ends_with}
use coplus.Text.Split.{solid, AreWords, split-pieces}
use coplus.Text.Affixes.{starts_with-prefix, ends_with-suffix}

-- `,ab,,c,` and the comma.
abbrev line : Text
line = 44 ∷ 97 ∷ 98 ∷ 44 ∷ 44 ∷ 99 ∷ 44 ∷ []

abbrev comma : Text
comma = 44 ∷ []

line_pieces : split 8 line comma [] ≡ some (2, (97 ∷ 98 ∷ []) ∷ (99 ∷ []) ∷ [])
unfolding split split_loop
line_pieces = refl

split-pieces_example :
    (ret' : List Text) × (split 8 line comma [] ≡ some (length ret' - 0, ret'))
    × (concat ret' ≡ [] ++ solid comma line)
    × AreWords comma ret'
split-pieces_example = split-pieces 8 line comma [] (omega arith) tt

-- `,ab` starts the line, and `c,` ends it; `ab` does neither.
affixes :
    (starts_with line (44 ∷ 97 ∷ 98 ∷ []) ≡ true)
    × (ends_with line (99 ∷ 44 ∷ []) ≡ true)
    × (starts_with line (97 ∷ 98 ∷ []) ≡ false)
    × (ends_with line (97 ∷ 98 ∷ []) ≡ false)
unfolding starts_with ends_with
affixes = (refl, refl, refl, refl)

starts_with-prefix_example :
    (starts_with line comma ≡ true) ↔ ((rest : Text) × (line ≡ comma ++ rest))
starts_with-prefix_example = starts_with-prefix line comma

ends_with-suffix_example : (ends_with line comma ≡ true) ↔ ((rest : Text) × (line ≡ rest ++ comma))
ends_with-suffix_example = ends_with-suffix line comma

-- ` a  bc d` in words, and in two parts: the second begins with the spaces before it.
words :
    (split_spaces 10 (32 ∷ 97 ∷ 32 ∷ 32 ∷ 98 ∷ 99 ∷ 32 ∷ 100 ∷ []) [] 0
      ≡ some (3, (97 ∷ []) ∷ (98 ∷ 99 ∷ []) ∷ (100 ∷ []) ∷ []))
    × (split_spaces 10 (32 ∷ 97 ∷ 32 ∷ 32 ∷ 98 ∷ 99 ∷ 32 ∷ 100 ∷ []) [] 2
        ≡ some (2, (97 ∷ []) ∷ (32 ∷ 32 ∷ 98 ∷ 99 ∷ 32 ∷ 100 ∷ []) ∷ []))
unfolding split_spaces split_spaces_loop
words = (refl, refl)
