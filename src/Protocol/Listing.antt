-- ===== src/Protocol/Listing.antt =====
-- The list messages of `Protocol` in include/coplus/protocol.h: a header and cells, written by
-- `pickle_message` with commas and semicolons and read back by `format_message`.
pub mod RoundTrip
pub mod Columns
use coplus.Prelude.{
  ℕ, zero, suc, ◌+◌, ◌-◌, ◌*◌, ◌/◌, List, [], ◌∷◌, ◌++◌, Option, none, some, ltb, leb, ◌==◌, length,
  replicate, map, drop, true, false, if◌then◌else◌,
}
use coplus.Text.{Text, split}
use coplus.Protocol.{pickle_message}

abbrev pub comma : Text
comma = 44 ∷ []

abbrev pub semicolon : Text
semicolon = 59 ∷ []

-- The loop `ret += "," + header[i]`, over what is left.
abbrev pub more_cells : ℕ → List Text → Text
more_cells zero ss = []
more_cells (suc n) [] = []
more_cells (suc n) (s ∷ ss) = comma ++ s ++ more_cells n ss

-- The next `n` cells, with a comma before each but the first.
abbrev pub cells : ℕ → List Text → Text
cells zero ss = []
cells (suc n) [] = []
cells (suc n) (s ∷ ss) = s ++ more_cells n ss

-- The loop over the entries, a row for each as many as the header has: a row is begun when that
-- many are left. With a header that has a cell, as much fuel as there are entries is enough.
unfoldable pub entry_rows : ℕ → ℕ → List Text → Text
entry_rows zero n entries = []
entry_rows (suc fuel) n entries =
    let rest = entry_rows fuel n (drop n entries) in
    if leb n (length entries) then cells n entries ++ semicolon ++ rest else []

-- What `pickle_message` writes for a header that is not empty.
abbrev pub list_text : List Text → List Text → Text
list_text header entries =
    cells (length header) header ++ semicolon ++ entry_rows (length entries) (length header) entries

unfoldable pub pickle_list : ℕ → List Text → List Text → Text
pickle_list type [] entries = []
pickle_list type (h ∷ hs) entries = pickle_message type (list_text (h ∷ hs) entries) 108

-- The macro `max`.
abbrev pub max : ℕ → ℕ → ℕ
max a b = if ltb b a then a else b

-- What `format_message` finds in a list message: a header of no cell, a row that has not as many
-- cells as the header, or a table with the widths of its columns.
pub data Listing : Type 0 where
  null_header : Listing
  broken_row : Listing
  table : List Text → List Text → List ℕ → Listing

-- `split` with fuel that is always enough.
abbrev pub split_all : Text → Text → List Text → Option (ℕ × List Text)
split_all s token ret = split (suc (length s)) s token ret

-- `minLayout[j] = max(minLayout[j], ...)`, over a row.
abbrev pub widen : List ℕ → List Text → List ℕ
widen [] row = []
widen (w ∷ ws) [] = w ∷ ws
widen (w ∷ ws) (c ∷ cs) = max w (length c) ∷ widen ws cs

-- The loop over `entries` from `i + 1`, with `content` and `minLayout`.
unfoldable pub parse_rows : List Text → List Text → ℕ → List Text → List ℕ → Option Listing
parse_rows header [] i content min_layout =
    some (table header content (map (λ w. w + 2) min_layout))
parse_rows header (e ∷ es) i content min_layout = elim (split_all e comma content) [
  | none ↦ none
  | some (cnt, content') ↦ elim (cnt == length header) [
    | true ↦
        parse_rows header es (suc i) content' (widen min_layout (drop (length header * i) content'))
    | false ↦ some broken_row
  ]
]

abbrev pub parse_header : List Text → List Text → Option Listing
parse_header [] es = some null_header
parse_header (h ∷ hs) es = parse_rows (h ∷ hs) es 0 [] (map length (h ∷ hs))

-- `none` where the source reads `entries[0]` of no entries.
abbrev pub parse_entries : List Text → Option Listing
parse_entries [] = none
parse_entries (e ∷ es) = elim (split_all e comma []) [
  | none ↦ none
  | some (cnt, header) ↦ parse_header header es
]

unfoldable pub parse_list : Text → Option Listing
parse_list s = elim (split_all s semicolon []) [
  | none ↦ none
  | some (cnt, entries) ↦ parse_entries entries
]

-- A cell behind its bar, in the middle of its column. The widths are never below a cell's.
abbrev pub bar_cell : ℕ → Text → Text
bar_cell w c =
    124 ∷ (replicate ((w - length c) / 2) 32 ++ (c ++ replicate ((w - length c + 1) / 2) 32))

-- A row of the table, with the bar that ends it.
abbrev pub row_text : List ℕ → List Text → Text
row_text [] row = 124 ∷ []
row_text (w ∷ ws) [] = 124 ∷ []
row_text (w ∷ ws) (c ∷ cs) = bar_cell w c ++ row_text ws cs

-- The loop over the content, a row for each as many cells as there are columns.
unfoldable pub content_rows : ℕ → List ℕ → List Text → List Text
content_rows zero ws content = []
content_rows (suc fuel) ws content =
    let rest = content_rows fuel ws (drop (length ws) content) in
    if leb (length ws) (length content) then row_text ws content ∷ rest else []

-- The lines of the table.
abbrev pub table_lines : List Text → List Text → List ℕ → List Text
table_lines header content ws = row_text ws header ∷ content_rows (length content) ws content
