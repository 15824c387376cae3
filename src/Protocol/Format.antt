-- ===== src/Protocol/Format.antt =====
-- `format_message` of include/coplus/protocol.h: what it prints of a message and what it returns.
pub mod Received
pub mod Direct
mod Tests
use coplus.Prelude.{
  ℕ, zero, suc, ◌+◌, ◌-◌, ◌*◌, ◌/◌, ◌%◌, ◌^◌, List, [], ◌∷◌, ◌++◌, Bool, true, false, ◌&&◌, Option,
  none, some, ltb, leb, ◌==◌, length, drop, get_or, if◌then◌else◌, map,
}
use coplus.Text.{Text, substr, starts_with}
use coplus.Protocol.Listing.{Listing, parse_list, table_lines}

-- What is asked for: the bits of `GetType`.
pub record GetType : Type 0 where
  get_type : Bool
  get_content : Bool
  get_length : Bool

-- The lines on the stream, with the texts that vary.
pub data Line : Type 0 where
  type_line : Text → Line
  length_line : Text → Line
  no_message : Line
  list_heading : Line
  null_line : Line
  broken_line : Line
  table_line : Text → Line
  sender_broke : Line
  sender_line : Text → Line
  message_line : Text → Line

-- The names of the message types.
abbrev pub type_name : ℕ → Text
type_name zero = 100 ∷ 101 ∷ 102 ∷ 97 ∷ 117 ∷ 108 ∷ 116 ∷ []
type_name (suc zero) = 114 ∷ 101 ∷ 113 ∷ 117 ∷ 101 ∷ 115 ∷ 116 ∷ []
type_name (suc (suc zero)) = 100 ∷ 105 ∷ 114 ∷ 101 ∷ 99 ∷ 116 ∷ []
type_name (suc (suc (suc zero))) = 114 ∷ 101 ∷ 115 ∷ 112 ∷ 111 ∷ 110 ∷ 115 ∷ 101 ∷ []
type_name _ = []

-- Decimal digits; ten are enough for a word.
abbrev pub digits : ℕ → ℕ → Text
digits zero n = []
digits (suc fuel) n =
    let rest = digits fuel (n / 10) in (if ltb n 10 then [] else rest) ++ (48 + n % 10) ∷ []

-- `*lenPtr`, printed: a signed word.
unfoldable pub int_text : ℕ → Text
int_text w = if ltb w (2 ^ 31) then digits 10 w else 45 ∷ digits 10 (2 ^ 32 - w)

-- The word at a place, least significant byte first.
unfoldable pub read_word : Text → ℕ → ℕ
read_word s pos =
    get_or s pos 0
    + 256 * get_or s (pos + 1) 0
    + 65536 * get_or s (pos + 2) 0
    + 16777216 * get_or s (pos + 3) 0

-- What a stream shows of a C string.
abbrev pub until_nul : Text → Text
until_nul [] = []
until_nul (c ∷ s) = let rest = until_nul s in if c == 0 then [] else c ∷ rest

-- The place of the two colons, from the start of what is given.
abbrev pub find_colons : Text → Option ℕ
find_colons [] = none
find_colons (c ∷ s) = elim (starts_with (c ∷ s) (58 ∷ 58 ∷ [])) [
  | true ↦ some 0
  | false ↦ elim (find_colons s) [ none ↦ none | some i ↦ some (suc i) ]
]

-- The table, and whether the function goes on to its end.
abbrev pub show_listing : Listing → List Line × Bool
show_listing Listing.null_header = (null_line ∷ [], false)
show_listing Listing.broken_row = (broken_line ∷ [], false)
show_listing (Listing.table header content ws) =
    (map table_line (table_lines header content ws), true)

-- A message of a sender. When the colons after it are missing, `addr_end` is -1, and the bytes
-- from 1 on are printed as the message. `addr_end` is an `int`: the message is shorter than 2^31.
abbrev pub show_direct : Text → List Line
show_direct s = elim (find_colons (drop 8 s)) [
  | none ↦ sender_broke ∷ message_line (until_nul (drop 1 s)) ∷ []
  | some i ↦ sender_line (substr s 8 i) ∷ message_line (until_nul (drop (8 + i + 2) s)) ∷ []
]

-- The content, for a message longer than five bytes; `none` where the code reads outside.
unfoldable pub show_content : Text → Option (List Line × Bool)
show_content s = elim (get_or s 5 0 == 108) [
  | true ↦ elim (parse_list (drop 6 s)) [
    | none ↦ none
    | some l ↦ let (lines, ok) = show_listing l in some (list_heading ∷ lines, ok)
  ]
  | false ↦ elim (get_or s 5 0 == 100) [
    | true ↦ some (show_direct s, true)
    | false ↦ some (message_line (until_nul (drop 6 s)) ∷ [], true)
  ]
]

-- What is returned when the function goes on to its end.
unfoldable pub answer : Text → GetType → Text
answer s get =
    if get.get_content && ltb 5 (length s)
    then drop 6 s
    else if get.get_length
    then int_text (read_word s 1)
    else if get.get_type
    then type_name (get_or s 0 0)
    else []

-- The lines and the answer. `none` where the code reads outside the string: on one of less than
-- five bytes, which is reported as broken and then read all the same, and in a list of no entry.
unfoldable pub format_message : Text → GetType → Option (List Line × Text)
format_message s get =
    let head = type_line (type_name (get_or s 0 0)) ∷ length_line (int_text (read_word s 1)) ∷ [] in
    if ltb (length s) 5
    then none
    else if length s == 5
    then some (head ++ no_message ∷ [], answer s get)
    else elim (show_content s) [
      | none ↦ none
      | some (lines, ok) ↦ some (head ++ lines, if ok then answer s get else [])
    ]
