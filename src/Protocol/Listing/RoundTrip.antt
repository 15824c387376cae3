-- ===== src/Protocol/Listing/RoundTrip.antt =====
-- List messages are read back as they were written: `pickle_message` and `format_message`.
use coplus.Prelude.{
  ℕ, zero, suc, ◌+◌, ◌-◌, ◌*◌, ◌≤◌, ◌<◌, ◌≡◌, refl, sym, ap, ◌∙◌, List, [], ◌∷◌, ◌++◌, true, false,
  some, leb, ◌==◌, length, length-append, append-nil, append_assoc, arith, drop, concat,
  drop-append, drop_past, Absent, map, subst, foldl,
}
use coplus.Text.{Text, split, split_loop}
use coplus.Text.Join.{next_word, last_word, no_word, past_word}
use coplus.Protocol.Listing.{
  Listing, comma, semicolon, more_cells, cells, entry_rows, list_text, split_all, widen, parse_rows,
  parse_entries, parse_list,
}

-- A cell: nonempty, without a comma or a semicolon.
abbrev pub IsCell : Text → Type 0
IsCell c = (0 < length c) × Absent 44 c × Absent 59 c

abbrev pub AreCells : List Text → Type 0
AreCells [] = Unit
AreCells (c ∷ cs) = IsCell c × AreCells cs

-- A row of `n` cells.
abbrev pub IsRow : ℕ → List Text → Type 0
IsRow n row = (length row ≡ n) × AreCells row

abbrev pub AreRows : ℕ → List (List Text) → Type 0
AreRows n [] = Unit
AreRows n (row ∷ rows) = IsRow n row × AreRows n rows

append-Absent : (t : ℕ) (xs ys : Text) → Absent t xs → Absent t ys → Absent t (xs ++ ys)
append-Absent t [] ys a b = b
append-Absent t (x ∷ xs) ys (ne, a) b = (ne, append-Absent t xs ys a b)

-- A row as it is written.
abbrev line : List Text → Text
line row = cells (length row) row

more_cells-Absent : (row : List Text) → AreCells row → Absent 59 (more_cells (length row) row)
more_cells-Absent [] a = tt
more_cells-Absent (c ∷ cs) ((h, a, b), rest) =
    (λ e. absurd (omega arith), append-Absent 59 c _ b (more_cells-Absent cs rest))

line-Absent : (row : List Text) → AreCells row → Absent 59 (line row)
line-Absent [] a = tt
line-Absent (c ∷ cs) ((h, a, b), rest) = append-Absent 59 c _ b (more_cells-Absent cs rest)

length-line : (row : List Text) → AreCells row → length row ≤ length (line row)
length-line [] a = omega arith
length-line (c ∷ []) ((h, a, b), rest) = omega (arith, h, length-append c [])
length-line (c ∷ d ∷ cs) ((h, a, b), rest) =
    omega (arith, h, length-append c (44 ∷ line (d ∷ cs)), length-line (d ∷ cs) rest)

-- The cells of a row are found again.
cells_found :
    (fuel : ℕ) (s : Text) (cur : ℕ) (row ret : List Text)
    → drop cur s ≡ line row
    → AreCells row
    → length row < fuel
    → split_loop fuel s comma cur ret ≡ some (ret ++ row)
cells_found zero s cur row ret e a h = absurd (omega arith)
cells_found (suc fuel) s cur [] ret e a h =
    no_word fuel s comma cur ret e ∙ ap some (sym (append-nil ret))
cells_found (suc zero) s cur (c ∷ cs) ret e a h = absurd (omega arith)
cells_found (suc (suc fuel)) s cur (c ∷ []) ret e ((k, a, b), rest) h =
    last_word (suc fuel) s 44 cur c ret (e ∙ append-nil c) k a
    ∙ no_word fuel s comma (length s + 1) (ret ++ c ∷ []) (drop_past s 1)
cells_found (suc (suc fuel)) s cur (c ∷ d ∷ cs) ret e ((k, a, b), rest) h =
    next_word (suc fuel) s 44 cur c (line (d ∷ cs)) ret e k a
    ∙ cells_found (suc fuel) s (cur + length c + 1) (d ∷ cs) (ret ++ c ∷ [])
        (past_word s 44 cur c (line (d ∷ cs)) e) rest (omega arith)
    ∙ ap some (append_assoc ret (c ∷ []) (d ∷ cs))

-- A written row, cut at its commas.
split_line :
    (row content : List Text)
    → AreCells row
    → split_all (line row) comma content
      ≡ some (length (content ++ row) - length content, content ++ row)
unfolding split
split_line row content a =
    rw
      (cells_found (suc (length (line row))) (line row) 0 row content refl a
        (omega (arith, length-line row a)))
      refl

-- Rows, each with its semicolon.
abbrev terminated : List (List Text) → Text
terminated [] = []
terminated (row ∷ rows) = line row ++ 59 ∷ terminated rows

abbrev lines : List (List Text) → List Text
lines [] = []
lines (row ∷ rows) = line row ∷ lines rows

length-terminated : (rows : List (List Text)) → length rows ≤ length (terminated rows)
length-terminated [] = omega arith
length-terminated (row ∷ rows) =
    omega (arith, length-append (line row) (59 ∷ terminated rows), length-terminated rows)

rows_found :
    (fuel n : ℕ) (s : Text) (cur : ℕ) (rows : List (List Text)) (ret : List Text)
    → drop cur s ≡ terminated rows
    → AreRows n rows
    → 0 < n
    → length rows < fuel
    → split_loop fuel s semicolon cur ret ≡ some (ret ++ lines rows)
rows_found zero n s cur rows ret e a k h = absurd (omega arith)
rows_found (suc fuel) n s cur [] ret e a k h =
    no_word fuel s semicolon cur ret e ∙ ap some (sym (append-nil ret))
rows_found (suc fuel) n s cur (row ∷ rows) ret e ((l, a), rest) k h =
    next_word fuel s 59 cur (line row) (terminated rows) ret e (omega (arith, length-line row a))
      (line-Absent row a)
    ∙ rows_found fuel n s (cur + length (line row) + 1) rows (ret ++ line row ∷ [])
        (past_word s 59 cur (line row) (terminated rows) e) rest k (omega arith)
    ∙ ap some (append_assoc ret (line row ∷ []) (lines rows))

-- The cells of a row stand first in what is left.
more_cells-append :
    (row rest : List Text) → more_cells (length row) (row ++ rest) ≡ more_cells (length row) row
more_cells-append [] rest = refl
more_cells-append (c ∷ cs) rest = ap (λ t. comma ++ c ++ t) (more_cells-append cs rest)

cells-append : (row rest : List Text) → cells (length row) (row ++ rest) ≡ line row
cells-append [] rest = refl
cells-append (c ∷ cs) rest = ap (λ t. c ++ t) (more_cells-append cs rest)

-- One round of the loop over the entries.
one_row :
    (fuel : ℕ) (row left : List Text)
    → entry_rows (suc fuel) (length row) (row ++ left)
      ≡ line row ++ 59 ∷ entry_rows fuel (length row) left
unfolding entry_rows
one_row fuel row left =
    rw (entry_rows, enough, cells-append row left, drop-append row left)
      (append_assoc (line row) semicolon (entry_rows fuel (length row) left))
  where
    enough : leb (length row) (length (row ++ left)) ≡ true
    enough = ground (arith, length-append row left)

-- What the loop over the entries writes.
rows_written :
    (fuel n : ℕ) (rows : List (List Text)) (last : List Text)
    → AreRows n rows
    → length last < n
    → length (concat rows ++ last) ≤ fuel
    → entry_rows fuel n (concat rows ++ last) ≡ terminated rows
unfolding entry_rows
rows_written zero n [] last a k h = refl
rows_written (suc fuel) n [] last a k h = rw (entry_rows, short) refl
  where
    short : leb n (length last) ≡ false
    short = ground arith
rows_written zero n (row ∷ rows) last ((l, a), rest) k h =
    absurd (omega (arith, length-append row (concat rows), length-append (row ++ concat rows) last))
rows_written (suc fuel) n (row ∷ rows) last ((l, a), rest) k h =
    ap (entry_rows (suc fuel) n) (append_assoc row (concat rows) last)
    ∙ subst (λ m. entry_rows (suc fuel) m (row ++ left) ≡ line row ++ 59 ∷ entry_rows fuel m left) l
        (one_row fuel row left)
    ∙ ap (λ t. line row ++ 59 ∷ t) (rows_written fuel n rows last rest k shorter)
  where
    left : List Text
    left = concat rows ++ last

    shorter : length left ≤ fuel
    shorter = omega (arith, length-append row left, ap length (append_assoc row (concat rows) last))

-- The widths after some rows.
abbrev pub widths : List ℕ → List (List Text) → List ℕ
widths ws rows = map (λ w. w + 2) (foldl widen ws rows)

-- The loop over the rows reads them.
rows_parsed :
    (header : List Text) (rows : List (List Text)) (i : ℕ) (content : List Text) (ws : List ℕ)
    → AreRows (length header) rows
    → length content ≡ length header * i
    → parse_rows header (lines rows) i content ws
      ≡ some (Listing.table header (content ++ concat rows) (widths ws rows))
unfolding parse_rows
rows_parsed header [] i content ws a k =
    ap (λ c. some (Listing.table header c (widths ws []))) (sym (append-nil content))
rows_parsed header (row ∷ rows) i content ws ((l, a), rest) k =
    rw (parse_rows, split_line row content a, whole, new)
      (rows_parsed header rows (suc i) (content ++ row) (widen ws row) rest
        (grind (arith, length-append content row)))
    ∙ ap (λ c. some (Listing.table header c (widths (widen ws row) rows)))
        (append_assoc content row (concat rows))
  where
    whole : (length (content ++ row) - length content == length header) ≡ true
    whole = ground (arith, length-append content row)

    new : drop (length header * i) (content ++ row) ≡ row
    new = ap (λ n. drop n (content ++ row)) (sym k) ∙ drop-append content row

terminated_parsed :
    (c : Text) (cs : List Text) (rows : List (List Text))
    → AreCells (c ∷ cs)
    → AreRows (length (c ∷ cs)) rows
    → parse_list (terminated ((c ∷ cs) ∷ rows))
      ≡ some (Listing.table (c ∷ cs) (concat rows) (widths (map length (c ∷ cs)) rows))
unfolding parse_list split
terminated_parsed c cs rows a b =
    rw
      (
        parse_list,
        rows_found (suc (length s)) (length (c ∷ cs)) s 0 ((c ∷ cs) ∷ rows) [] refl ((refl, a), b)
            (omega arith) (omega (arith, length-terminated ((c ∷ cs) ∷ rows))),
      )
      entries
  where
    s : Text
    s = terminated ((c ∷ cs) ∷ rows)

    entries :
        parse_entries (lines ((c ∷ cs) ∷ rows))
        ≡ some (Listing.table (c ∷ cs) (concat rows) (widths (map length (c ∷ cs)) rows))
    entries =
        rw (parse_entries, split_line (c ∷ cs) [] a)
          (rows_parsed (c ∷ cs) rows 0 [] (map length (c ∷ cs)) b (grind arith))

-- A header with a cell and rows that have as many, all cells nonempty and without commas and
-- semicolons, are read back from the list text that is written for them, whatever incomplete row
-- comes after; that row is left out.
pub list-parse_list :
    (header : List Text) (rows : List (List Text)) (last : List Text)
    → AreCells header
    → 0 < length header
    → AreRows (length header) rows
    → length last < length header
    → parse_list (list_text header (concat rows ++ last))
      ≡ some (Listing.table header (concat rows) (widths (map length header) rows))
unfolding parse_list split
list-parse_list [] rows last a h b k = absurd (omega arith)
list-parse_list (c ∷ cs) rows last a h b k = ap parse_list written ∙ terminated_parsed c cs rows a b
  where
    entries : List Text
    entries = concat rows ++ last

    written : list_text (c ∷ cs) entries ≡ terminated ((c ∷ cs) ∷ rows)
    written =
        ap (λ t. line (c ∷ cs) ++ semicolon ++ t)
          (rows_written (length entries) (length (c ∷ cs)) rows last b k (omega arith))
        ∙ append_assoc (line (c ∷ cs)) semicolon (terminated rows)
