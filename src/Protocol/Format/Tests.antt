-- ===== src/Protocol/Format/Tests.antt =====
-- A table of two columns and a message of a sender, framed and read back, and lists that are not
-- read.
use coplus.Prelude.{
  ◌+◌, ◌<◌, ◌^◌, ◌≡◌, ◌⊎◌, refl, List, [], ◌∷◌, ◌++◌, true, false, none, some, length, map, concat,
  arith, subst, sym,
}
use coplus.Text.{Text, split, split_loop, starts_with}
use coplus.Protocol.{pickle_direct}
use coplus.Protocol.Listing.{
  Listing, semicolon, split_all, entry_rows, list_text, pickle_list, parse_rows, parse_list,
  table_lines, content_rows,
}
use coplus.Protocol.Listing.RoundTrip.{widths, AreCells}
use coplus.Protocol.Listing.Columns.{IsAligned, parse_list-IsAligned}
use coplus.Protocol.Format.{GetType, Line, format_message, type_name, int_text}
use coplus.Protocol.Format.Received.{body, format_message-pickle_list}
use coplus.Protocol.Format.Direct.{format_message-pickle_direct}

abbrev content_only : GetType
content_only = record { get_type = false; get_content = true; get_length = false }

-- `a` and `bcd`
abbrev header : List Text
header = (97 ∷ []) ∷ (98 ∷ 99 ∷ 100 ∷ []) ∷ []

-- `x` and `y`
abbrev rows : List (List Text)
rows = ((120 ∷ []) ∷ (121 ∷ []) ∷ []) ∷ []

-- `q`
abbrev last : List Text
last = (113 ∷ []) ∷ []

-- `a,bcd;x,y;`
written :
    list_text header (concat rows ++ last) ≡ 97 ∷ 44 ∷ 98 ∷ 99 ∷ 100 ∷ 59 ∷ 120 ∷ 44 ∷ 121 ∷ 59 ∷ []
unfolding entry_rows
written = refl

-- `| a | bcd |` and `| x |  y  |`
printed :
    table_lines header (concat rows) (widths (map length header) rows)
    ≡ (124 ∷ 32 ∷ 97 ∷ 32 ∷ 124 ∷ 32 ∷ 98 ∷ 99 ∷ 100 ∷ 32 ∷ 124 ∷ [])
      ∷ (124 ∷ 32 ∷ 120 ∷ 32 ∷ 124 ∷ 32 ∷ 32 ∷ 121 ∷ 32 ∷ 32 ∷ 124 ∷ [])
      ∷ []
unfolding content_rows
printed = refl

-- `a,b;x,;`: the empty cell is lost, and the row is broken.
empty_cell :
    parse_list (list_text ((97 ∷ []) ∷ (98 ∷ []) ∷ []) ((120 ∷ []) ∷ [] ∷ []))
    ≡ some Listing.broken_row
unfolding parse_list entry_rows split split_loop parse_rows
empty_cell = refl

-- `;` has no entry.
no_entry : parse_list semicolon ≡ none
unfolding parse_list split split_loop
no_entry = refl

-- A number is printed with its sign.
numbers : (int_text 120 ≡ 49 ∷ 50 ∷ 48 ∷ []) × (int_text 4294967295 ≡ 45 ∷ 49 ∷ [])
unfolding int_text
numbers = (refl, refl)

two_cells : AreCells header
two_cells = ground arith

one_row : AreCells ((120 ∷ []) ∷ (121 ∷ []) ∷ [])
one_row = ground arith

short : length (list_text header (concat rows ++ last)) + 6 < 2 ^ 31
short = subst (λ t. length t + 6 < 2 ^ 31) (sym written) (omega arith)

format_message-pickle_list_example :
    format_message (body (pickle_list 3 header (concat rows ++ last))) content_only
    ≡ some (
      Line.type_line (type_name 3)
          ∷ Line.length_line (int_text (length (list_text header (concat rows ++ last)) + 6))
          ∷ Line.list_heading
          ∷ map Line.table_line
              (table_lines header (concat rows) (widths (map length header) rows)),
      list_text header (concat rows ++ last),
    )
format_message-pickle_list_example =
    format_message-pickle_list 3 header rows last content_only two_cells (omega arith)
      ((refl, one_row), tt) (omega arith) refl short

-- From `1:2`, the message `m`.
format_message-pickle_direct_example :
    format_message (body (pickle_direct 2 (49 ∷ 58 ∷ 50 ∷ []) (109 ∷ []))) content_only
    ≡ some (
      Line.type_line (type_name 2)
          ∷ Line.length_line (int_text (3 + 1 + 10))
          ∷ Line.sender_line (49 ∷ 58 ∷ 50 ∷ [])
          ∷ Line.message_line (109 ∷ [])
          ∷ [],
      58 ∷ 58 ∷ 49 ∷ 58 ∷ 50 ∷ 58 ∷ 58 ∷ 109 ∷ [],
    )
unfolding starts_with
format_message-pickle_direct_example =
    format_message-pickle_direct 2 (49 ∷ 58 ∷ 50 ∷ []) (109 ∷ []) content_only refl refl
      (omega arith)

parse_list-IsAligned_example :
    ((split_all (list_text header (concat rows)) semicolon [] ≡ some (0, []))
      × (parse_list (list_text header (concat rows)) ≡ none))
    ⊎ ((l : Listing) × (parse_list (list_text header (concat rows)) ≡ some l) × IsAligned l)
parse_list-IsAligned_example = parse_list-IsAligned (list_text header (concat rows))
