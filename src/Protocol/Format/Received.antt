-- ===== src/Protocol/Format/Received.antt =====
-- Messages that are framed by `pickle_message` and read by `format_message`.
use coplus.Prelude.{
  ℕ, ◌+◌, ◌-◌, ◌^◌, ◌<◌, ◌≡◌, refl, ap, ap₂, ◌∙◌, List, [], ◌∷◌, ◌++◌, true, false, some, ltb, ◌==◌,
  length, length-append, arith, take, drop, take-append, concat, map, subst, get_or,
}
use coplus.Text.{Text, substr}
use coplus.Protocol.{word_bytes, pickle_message, app_terminator, app_head}
use coplus.Protocol.Frame.{pickle_message-layout}
use coplus.Protocol.Listing.{list_text, pickle_list, table_lines}
use coplus.Protocol.Listing.RoundTrip.{AreCells, AreRows, widths, list-parse_list}
use coplus.Protocol.Format.{
  GetType, Line, format_message, type_name, int_text, read_word, show_content, answer,
}

-- What stands between the head and the terminator of a frame.
abbrev pub body : Text → Text
body frame = substr frame 4 (length frame - 8)

-- A message with its type, its length word, its raw type and the request.
abbrev pub message : ℕ → ℕ → Text → Text
message type raw_type request = type ∷ (word_bytes (length request + 6) ++ (raw_type ∷ request))

body-pickle_message :
    (type : ℕ) (request : Text) (raw_type : ℕ)
    → body (pickle_message type request raw_type) ≡ message type raw_type request
body-pickle_message type request raw_type = rw (pickle_message-layout type request raw_type) (
    subst (λ n. take n (m ++ word_bytes app_terminator) ≡ m) counted
      (take-append m (word_bytes app_terminator)))
  where
    m : Text
    m = message type raw_type request

    counted : length m ≡ length (word_bytes app_head ++ (m ++ word_bytes app_terminator)) - 8
    counted = omega (arith, length-append m (word_bytes app_terminator))

-- A word is read as it was written.
read-word_bytes :
    (type w : ℕ) (rest : Text) → w < 2 ^ 32 → read_word (type ∷ (word_bytes w ++ rest)) 1 ≡ w
unfolding read_word
read-word_bytes type w rest h = omega arith

shown :
    (s : Text) (get : GetType) (lines : List Line)
    → 5 < length s
    → show_content s ≡ some (lines, true)
    → format_message s get
      ≡ some (
        Line.type_line (type_name (get_or s 0 0))
            ∷ Line.length_line (int_text (read_word s 1))
            ∷ lines,
        answer s get,
      )
unfolding format_message
shown s get lines h e = rw (format_message, whole, longer, e) refl
  where
    whole : ltb (length s) 5 ≡ false
    whole = ground arith

    longer : (length s == 5) ≡ false
    longer = ground arith

answered :
    (s : Text) (get : GetType) → 5 < length s → get.get_content ≡ true → answer s get ≡ drop 6 s
unfolding answer
answered s get h g = rw (answer, g, long) refl
  where
    long : ltb 5 (length s) ≡ true
    long = ground arith

-- What `format_message` makes of a message whose content is shown to the end.
pub formatted :
    (type raw_type : ℕ) (request : Text) (get : GetType) (lines : List Line)
    → length request + 6 < 2 ^ 32
    → get.get_content ≡ true
    → show_content (message type raw_type request) ≡ some (lines, true)
    → format_message (body (pickle_message type request raw_type)) get
      ≡ some (
        Line.type_line (type_name type) ∷ Line.length_line (int_text (length request + 6)) ∷ lines,
        request,
      )
formatted type raw_type request get lines h g e =
    ap (λ s. format_message s get) (body-pickle_message type request raw_type)
    ∙ shown m get lines (omega arith) e
    ∙ ap₂ (λ w a. some (Line.type_line (type_name type) ∷ Line.length_line (int_text w) ∷ lines, a))
        (read-word_bytes type (length request + 6) (raw_type ∷ request) h)
        (answered m get (omega arith) g)
  where
    m : Text
    m = message type raw_type request

-- The list message of a header with a cell and of rows that have as many, all cells nonempty and
-- without commas and semicolons, is printed as the table of these, and its text is returned to one
-- who asks for the content; an incomplete last row is left out of both. The text is shorter than
-- 2^31 - 6 bytes, so that every place in it is an int.
pub format_message-pickle_list :
    (type : ℕ) (header : List Text) (rows : List (List Text)) (last : List Text) (get : GetType)
    → AreCells header
    → 0 < length header
    → AreRows (length header) rows
    → length last < length header
    → get.get_content ≡ true
    → length (list_text header (concat rows ++ last)) + 6 < 2 ^ 31
    → format_message (body (pickle_list type header (concat rows ++ last))) get
      ≡ some (
        Line.type_line (type_name type)
            ∷ Line.length_line (int_text (length (list_text header (concat rows ++ last)) + 6))
            ∷ Line.list_heading
            ∷ map Line.table_line
                (table_lines header (concat rows) (widths (map length header) rows)),
        list_text header (concat rows ++ last),
      )
unfolding pickle_list show_content
format_message-pickle_list type [] rows last get a h b k g s = absurd (omega arith)
format_message-pickle_list type (c ∷ cs) rows last get a h b k g s =
    formatted type 108 (list_text (c ∷ cs) (concat rows ++ last)) get _ (omega (arith, s)) g table
  where
    table :
        show_content (message type 108 (list_text (c ∷ cs) (concat rows ++ last)))
        ≡ some (
          Line.list_heading
              ∷ map Line.table_line
                  (table_lines (c ∷ cs) (concat rows) (widths (map length (c ∷ cs)) rows)),
          true,
        )
    table = rw (show_content, list-parse_list (c ∷ cs) rows last a h b k) refl
