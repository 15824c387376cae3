-- ===== src/Protocol/Listing/Columns.antt =====
-- The tables that `format_message` prints are aligned.
use coplus.Prelude.{
  ℕ, zero, suc, ◌+◌, ◌-◌, ◌*◌, ◌/◌, ◌≤◌, ◌<◌, ◌≡◌, refl, sym, ap, ◌∙◌, ◌⊎◌, inl, inr, List, [], ◌∷◌,
  ◌++◌, true, false, none, some, leb, ◌==◌, length, length-append, length-replicate, replicate, map,
  arith, drop, concat, concat-append, append-nil, drop-append, Bool-cases, ==_iff, subst,
}
use coplus.Text.{Text}
use coplus.Text.Split.{split-added}
use coplus.Protocol.Listing.{
  Listing, comma, semicolon, widen, max, parse_rows, parse_header, parse_entries, parse_list,
  split_all, bar_cell, row_text, content_rows, table_lines,
}

-- A row with a cell for each column, none wider than it.
data Fits : List ℕ → List Text → Type 0 where
  fit_nil : Fits [] []
  fit_cons :
      {w : ℕ} {c : Text} {ws : List ℕ} {cs : List Text}
      → length c ≤ w
      → Fits ws cs
      → Fits (w ∷ ws) (c ∷ cs)

abbrev AllFit : List ℕ → List (List Text) → Type 0
AllFit ws [] = Unit
AllFit ws (row ∷ rows) = Fits ws row × AllFit ws rows

abbrev total : List ℕ → ℕ
total [] = 0
total (w ∷ ws) = w + total ws

max_left : (a b : ℕ) → a ≤ max a b
max_left a b = ground arith

max_right : (a b : ℕ) → b ≤ max a b
max_right a b = ground arith

widen-Fits : (ws : List ℕ) (row : List Text) → length row ≡ length ws → Fits (widen ws row) row
widen-Fits [] [] h = fit_nil
widen-Fits [] (c ∷ cs) h = absurd (omega arith)
widen-Fits (w ∷ ws) [] h = absurd (omega arith)
widen-Fits (w ∷ ws) (c ∷ cs) h = fit_cons (max_right w (length c)) (widen-Fits ws cs (omega arith))

length-widen : (ws : List ℕ) (row : List Text) → length (widen ws row) ≡ length ws
length-widen [] row = refl
length-widen (w ∷ ws) [] = refl
length-widen (w ∷ ws) (c ∷ cs) = ap suc (length-widen ws cs)

Fits-widen : (ws : List ℕ) (row new : List Text) → Fits ws row → Fits (widen ws new) row
Fits-widen [] [] new fit_nil = fit_nil
Fits-widen [] (c ∷ cs) new f = elim f [ ]
Fits-widen (w ∷ ws) [] new f = elim f [ ]
Fits-widen (w ∷ ws) (c ∷ cs) [] f = f
Fits-widen (w ∷ ws) (c ∷ cs) (d ∷ ds) (fit_cons h f) =
    fit_cons (omega (arith, max_left w (length d))) (Fits-widen ws cs ds f)

AllFit-widen :
    (ws : List ℕ) (rows : List (List Text)) (new : List Text)
    → AllFit ws rows
    → AllFit (widen ws new) rows
AllFit-widen ws [] new a = tt
AllFit-widen ws (row ∷ rows) new (f, a) = (Fits-widen ws row new f, AllFit-widen ws rows new a)

AllFit-append :
    (ws : List ℕ) (rows : List (List Text)) (new : List Text)
    → AllFit ws rows
    → Fits ws new
    → AllFit ws (rows ++ new ∷ [])
AllFit-append ws [] new a f = (f, tt)
AllFit-append ws (row ∷ rows) new (g, a) f = (g, AllFit-append ws rows new a f)

Fits-length : (ws : List ℕ) (row : List Text) → Fits ws row → length row ≡ length ws
Fits-length [] [] fit_nil = refl
Fits-length [] (c ∷ cs) f = elim f [ ]
Fits-length (w ∷ ws) [] f = elim f [ ]
Fits-length (w ∷ ws) (c ∷ cs) (fit_cons h f) = ap suc (Fits-length ws cs f)

-- A cell with its bar is as wide as its column and one.
length-bar_cell : (w : ℕ) (c : Text) → length c ≤ w → length (bar_cell w c) ≡ suc w
length-bar_cell w c h = omega (
  arith,
  length-append (blank left) (c ++ blank right),
  length-append c (blank right),
  length-replicate left (let b : ℕ = 32 in b),
  length-replicate right (let b : ℕ = 32 in b),
)
  where
    left : ℕ
    left = (w - length c) / 2

    right : ℕ
    right = (w - length c + 1) / 2

    blank : ℕ → Text
    blank n = replicate n 32

-- So a row that fits is as long as the columns ask.
length-row_text :
    (ws : List ℕ) (row rest : List Text)
    → Fits ws row
    → length (row_text ws (row ++ rest)) ≡ total ws + length ws + 1
length-row_text [] [] rest fit_nil = refl
length-row_text [] (c ∷ cs) rest f = elim f [ ]
length-row_text (w ∷ ws) [] rest f = elim f [ ]
length-row_text (w ∷ ws) (c ∷ cs) rest (fit_cons h f) = omega (
  arith,
  length-append (bar_cell w c) (row_text ws (cs ++ rest)),
  length-bar_cell w c h,
  length-row_text ws cs rest f,
)

abbrev pub AllLong : ℕ → List Text → Type 0
AllLong n [] = Unit
AllLong n (l ∷ ls) = (length l ≡ n) × AllLong n ls

-- The length of a line of the table.
abbrev pub line_length : List ℕ → ℕ
line_length ws = total ws + length ws + 1

content_rows-AllLong :
    (fuel : ℕ) (ws : List ℕ) (rows : List (List Text))
    → 0 < length ws
    → AllFit ws rows
    → AllLong (line_length ws) (content_rows fuel ws (concat rows))
unfolding content_rows
content_rows-AllLong zero ws rows h a = tt
content_rows-AllLong (suc fuel) ws [] h a = rw (content_rows, short) tt
  where
    short : leb (length ws) 0 ≡ false
    short = ground arith
content_rows-AllLong (suc fuel) ws (row ∷ rows) h (f, a) =
    rw (content_rows, enough, rest)
      (length-row_text ws row (concat rows) f, content_rows-AllLong fuel ws rows h a)
  where
    same : length row ≡ length ws
    same = Fits-length ws row f

    enough : leb (length ws) (length (row ++ concat rows)) ≡ true
    enough = ground (arith, same, length-append row (concat rows))

    rest : drop (length ws) (row ++ concat rows) ≡ concat rows
    rest = ap (λ n. drop n (row ++ concat rows)) (sym same) ∙ drop-append row (concat rows)

-- The breath of two.
abbrev breathing : List ℕ → List ℕ
breathing ws = map (λ w. w + 2) ws

breathing-Fits : (ws : List ℕ) (row : List Text) → Fits ws row → Fits (breathing ws) row
breathing-Fits [] [] fit_nil = fit_nil
breathing-Fits [] (c ∷ cs) f = elim f [ ]
breathing-Fits (w ∷ ws) [] f = elim f [ ]
breathing-Fits (w ∷ ws) (c ∷ cs) (fit_cons h f) = fit_cons (omega arith) (breathing-Fits ws cs f)

breathing-AllFit :
    (ws : List ℕ) (rows : List (List Text)) → AllFit ws rows → AllFit (breathing ws) rows
breathing-AllFit ws [] a = tt
breathing-AllFit ws (row ∷ rows) (f, a) = (breathing-Fits ws row f, breathing-AllFit ws rows a)

-- What is found in a list message, when it is a table, has lines of one length.
abbrev pub IsAligned : Listing → Type 0
IsAligned Listing.null_header = Unit
IsAligned Listing.broken_row = Unit
IsAligned (Listing.table header content ws) =
    AllLong (line_length ws) (table_lines header content ws)

table_lines-AllLong :
    (ws : List ℕ) (header : List Text) (rows : List (List Text))
    → 0 < length header
    → Fits ws header
    → AllFit ws rows
    → AllLong (line_length ws) (table_lines header (concat rows) ws)
table_lines-AllLong ws header rows h f a = (
  subst (λ t. length (row_text ws t) ≡ line_length ws) (append-nil header)
      (length-row_text ws header [] f),
  content_rows-AllLong (length (concat rows)) ws rows (omega (arith, Fits-length ws header f)) a,
)

rows-IsAligned :
    (header es : List Text) (i : ℕ) (rows : List (List Text)) (ws : List ℕ)
    → 0 < length header
    → Fits ws header
    → AllFit ws rows
    → length (concat rows) ≡ length header * i
    → (l : Listing) × (parse_rows header es i (concat rows) ws ≡ some l) × IsAligned l
unfolding parse_rows
rows-IsAligned header [] i rows ws h f a k = (
  Listing.table header (concat rows) (breathing ws),
  refl,
  table_lines-AllLong (breathing ws) header rows h (breathing-Fits ws header f)
      (breathing-AllFit ws rows a),
)
rows-IsAligned header (e ∷ es) i rows ws h f a k =
    let (new, run) = split-added e comma (concat rows) in
    elim (Bool-cases (length new == length header)) [
      | inr b ↦ (Listing.broken_row, rw (parse_rows, run, b) refl, tt)
      | inl b ↦
          let n = (==_iff (length new) (length header)).0 b in
          let (l, q, g) =
            rows-IsAligned header es (suc i) (rows ++ new ∷ []) (widen ws new) h
              (Fits-widen ws header new f)
              (AllFit-append (widen ws new) rows new (AllFit-widen ws rows new a)
                (widen-Fits ws new (n ∙ Fits-length ws header f)))
              (grind (arith, length-append (concat rows) new, ap length (snoc new))) in
          (
            l,
            rw (parse_rows, run, b, fresh new)
                (subst (λ t. parse_rows header es (suc i) t (widen ws new) ≡ some l)
                  (sym (snoc new)) q),
            g,
          )
    ]
  where
    snoc : (new : List Text) → concat rows ++ new ≡ concat (rows ++ new ∷ [])
    snoc new =
        ap (λ t. concat rows ++ t) (sym (append-nil new)) ∙ sym (concat-append rows (new ∷ []))

    fresh : (new : List Text) → drop (length header * i) (concat rows ++ new) ≡ new
    fresh new = ap (λ n. drop n (concat rows ++ new)) (sym k) ∙ drop-append (concat rows) new

-- The header's own widths.
lengths-Fits : (header : List Text) → Fits (map length header) header
lengths-Fits [] = fit_nil
lengths-Fits (c ∷ cs) = fit_cons (omega arith) (lengths-Fits cs)

entries-IsAligned :
    (e : Text) (es : List Text) → (l : Listing) × (parse_entries (e ∷ es) ≡ some l) × IsAligned l
unfolding parse_rows
entries-IsAligned e es =
    let (header, run) = split-added e comma [] in
    let (l, q, g) = after_header header in (l, rw (parse_entries, run) q, g)
  where
    after_header :
        (header : List Text) → (l : Listing) × (parse_header header es ≡ some l) × IsAligned l
    after_header [] = (Listing.null_header, refl, tt)
    after_header (h ∷ hs) =
        rows-IsAligned (h ∷ hs) es 0 [] (map length (h ∷ hs)) (omega arith) (lengths-Fits (h ∷ hs))
          tt (grind arith)

-- Whatever list message comes, either it has no entry at all and the code reads
-- outside, or what is found in it is a header
-- of no cell, a broken row, or a table whose lines are all as long as its columns ask: the widths,
-- a bar before each column and a bar at the end.
pub parse_list-IsAligned :
    (s : Text)
    → ((split_all s semicolon [] ≡ some (0, [])) × (parse_list s ≡ none))
      ⊎ ((l : Listing) × (parse_list s ≡ some l) × IsAligned l)
unfolding parse_list
parse_list-IsAligned s = let (entries, run) = split-added s semicolon [] in cases entries run
  where
    cases :
        (entries : List Text)
        → split_all s semicolon [] ≡ some (length entries, entries)
        → ((split_all s semicolon [] ≡ some (0, [])) × (parse_list s ≡ none))
          ⊎ ((l : Listing) × (parse_list s ≡ some l) × IsAligned l)
    cases [] run = inl (run, rw (parse_list, run) refl)
    cases (e ∷ es) run =
        let (l, q, g) = entries-IsAligned e es in inr (l, rw (parse_list, run) q, g)
