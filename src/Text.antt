-- ===== src/Text.antt =====
-- `StringUtil` of include/coplus/util.h. A string is the list of its bytes, shorter than 2^31.
pub mod Split
pub mod Join
pub mod Affixes
mod Tests
use mathlib.Core.Option
use coplus.Prelude.{
  ℕ, zero, suc, ◌+◌, ◌-◌, List, [], ◌∷◌, ◌++◌, Bool, true, false, not, ◌||◌, ◌&&◌, if◌then◌else◌,
  Option, none, some, ltb, ◌==◌, length, take, drop,
}

abbrev pub Text : Type 0
Text = List ℕ

abbrev pub substr : Text → ℕ → ℕ → Text
substr s pos count = take count (drop pos s)

abbrev pub contains : Text → ℕ → Bool
contains [] c = false
contains (d ∷ ds) c = d == c || contains ds c

-- The place of the first byte that the test likes.
abbrev pub find_if : (ℕ → Bool) → Text → Option ℕ
find_if p [] = none
find_if p (c ∷ s) = elim (p c) [ true ↦ some 0 | false ↦ Option.map suc (find_if p s) ]

abbrev pub find_first_of : Text → Text → ℕ → Option ℕ
find_first_of s token pos = Option.map (λ i. pos + i) (find_if (contains token) (drop pos s))

abbrev pub find_first_not_of : Text → Text → ℕ → Option ℕ
find_first_not_of s token pos =
    Option.map (λ i. pos + i) (find_if (λ c. not (contains token c)) (drop pos s))

-- `if(to == std::string::npos) to = str.size();`
abbrev pub or_end : Text → Option ℕ → ℕ
or_end s none = length s
or_end s (some to) = to

-- The loop of `split` from `cur`; `none` is fuel used up. `cur` and `to` are `int`s, as the places in
-- a string shorter than 2^31 are.
unfoldable pub split_loop : ℕ → Text → Text → ℕ → List Text → Option (List Text)
split_loop zero s token cur ret = none
split_loop (suc fuel) s token cur ret = elim (find_first_not_of s token cur) [
  | none ↦ some ret
  | some c ↦
      let to = or_end s (find_first_of s token c) in
      elim (ltb c to) [
        | true ↦ split_loop fuel s token (to + 1) (ret ++ substr s c (to - c) ∷ [])
        | false ↦ split_loop fuel s token (to + 1) ret
      ]
]

-- The number of new pieces, and all the pieces.
unfoldable pub split : ℕ → Text → Text → List Text → Option (ℕ × List Text)
split fuel s token ret =
    Option.map (λ (ret' : List Text). (length ret' - length ret, ret'))
      (split_loop fuel s token 0 ret)

abbrev pub space : Text
space = 32 ∷ []

-- `if(cur < str.size()) ret.push_back(str.substr(cur));`
abbrev pub push_tail : Text → ℕ → List Text → List Text
push_tail s cur ret = if ltb cur (length s) then ret ++ drop cur s ∷ [] else ret

-- The loop of the `split` at spaces, with the pieces that were there before. A bound of 0 stands
-- for `max_partition` of 0 or less. `none` is fuel used up; the search that finds nothing leaves
-- `cur` at -1, which is no place in the string.
unfoldable pub split_spaces_loop : ℕ → Text → ℕ → ℕ → List Text → ℕ → Option (List Text)
split_spaces_loop zero s cur count ret max_partition = none
split_spaces_loop (suc fuel) s cur count ret max_partition =
    elim (max_partition == 0 || ltb (length ret - count) (max_partition - 1)) [
      | false ↦ some (push_tail s cur ret)
      | true ↦ elim (find_first_not_of s space cur) [
        | none ↦ some ret
        | some c ↦
            let to = or_end s (find_first_of s space c) in
            let piece = if ltb c to then substr s c (to - c) ∷ [] else [] in
            split_spaces_loop fuel s to count (ret ++ piece) max_partition
      ]
    ]

unfoldable pub split_spaces : ℕ → Text → List Text → ℕ → Option (ℕ × List Text)
split_spaces fuel s ret max_partition =
    Option.map (λ (ret' : List Text). (length ret' - length ret, ret'))
      (split_spaces_loop fuel s 0 (length ret) ret max_partition)

-- `compare(...) == 0`
abbrev pub text_eq : Text → Text → Bool
text_eq [] [] = true
text_eq [] (d ∷ t) = false
text_eq (c ∷ s) [] = false
text_eq (c ∷ s) (d ∷ t) = c == d && text_eq s t

unfoldable pub starts_with : Text → Text → Bool
starts_with a b = if ltb (length a) (length b) then false else text_eq (substr a 0 (length b)) b

unfoldable pub ends_with : Text → Text → Bool
ends_with a b =
    if ltb (length a) (length b) then false else text_eq b (drop (length a - length b) a)
