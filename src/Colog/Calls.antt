-- ===== src/Colog/Calls.antt =====
-- Calls of `Colog`, and what they are to show on the console.
use coplus.Prelude.{ℕ, List, [], ◌∷◌, ◌++◌, map, Option, none, some}
use coplus.Text.{Text}
use coplus.Colog.{
  Log, thread_string, put_value, put_batch, highlight, warning, error, red, green, blue, cyan,
  purple, yellow,
}
use coplus.Colog.Console.{Foreground, Background, Event, put, end_line, set_attribute}

-- A call of a method of `Colog`.
pub data Call : Type 0 where
  one_value : Text → Call
  batch : List Text → Call
  in_highlight : List Text → Call
  in_warning : List Text → Call
  in_error : List Text → Call
  in_red : List Text → Call
  in_green : List Text → Call
  in_blue : List Text → Call
  in_cyan : List Text → Call
  in_purple : List Text → Call
  in_yellow : List Text → Call

unfoldable pub perform : ℕ → Call → Log → Log
unfolding put_value put_batch highlight warning error red green blue cyan purple yellow
perform t (one_value x) = put_value t x
perform t (batch xs) = put_batch t xs
perform t (in_highlight xs) = highlight t xs
perform t (in_warning xs) = warning t xs
perform t (in_error xs) = error t xs
perform t (in_red xs) = red t xs
perform t (in_green xs) = green t xs
perform t (in_blue xs) = blue t xs
perform t (in_cyan xs) = cyan t xs
perform t (in_purple xs) = purple t xs
perform t (in_yellow xs) = yellow t xs

-- Calls of numbered threads, in the order in which they get the lock.
unfoldable pub run : List (ℕ × Call) → Log → Log
unfolding perform
run [] s = s
run ((t, c) ∷ cs) s = run cs (perform t c s)

abbrev pub Attribute : Type 0
Attribute = Foreground × Background

abbrev pub plain : Attribute
plain = (Foreground.white, Background.black)

-- The colours that the names of the methods promise.
abbrev pub color_of : Call → Attribute
color_of (one_value x) = plain
color_of (batch xs) = plain
color_of (in_highlight xs) = (Foreground.high_white, Background.black)
color_of (in_warning xs) = (Foreground.black, Background.yellow)
color_of (in_error xs) = (Foreground.black, Background.red)
color_of (in_red xs) = (Foreground.red, Background.black)
color_of (in_green xs) = (Foreground.green, Background.black)
color_of (in_blue xs) = (Foreground.blue, Background.black)
color_of (in_cyan xs) = (Foreground.cyan, Background.black)
color_of (in_purple xs) = (Foreground.purple, Background.black)
color_of (in_yellow xs) = (Foreground.yellow, Background.black)

abbrev pub spaced : List Text → List Text
spaced [] = (10 ∷ []) ∷ []
spaced (x ∷ xs) = x ∷ (32 ∷ []) ∷ spaced xs

-- The texts of a line behind the name of the thread.
abbrev pub texts_of : Call → List Text
texts_of (one_value x) = x ∷ (10 ∷ []) ∷ []
texts_of (batch xs) = spaced xs
texts_of (in_highlight xs) = spaced xs
texts_of (in_warning xs) = spaced xs
texts_of (in_error xs) = spaced xs
texts_of (in_red xs) = spaced xs
texts_of (in_green xs) = spaced xs
texts_of (in_blue xs) = spaced xs
texts_of (in_cyan xs) = spaced xs
texts_of (in_purple xs) = spaced xs
texts_of (in_yellow xs) = spaced xs

-- What stands on the console, each text with the attribute it was written under.
abbrev pub screen : Attribute → List Event → List (Attribute × Text)
screen c [] = []
screen c (put x ∷ es) = (c, x) ∷ screen c es
screen c (end_line ∷ es) = (c, 10 ∷ []) ∷ screen c es
screen c (set_attribute f b ∷ es) = screen (f, b) es

-- The attribute that is set at the end.
abbrev pub left_on : Attribute → List Event → Attribute
left_on c [] = c
left_on c (put x ∷ es) = left_on c es
left_on c (end_line ∷ es) = left_on c es
left_on c (set_attribute f b ∷ es) = left_on (f, b) es

abbrev pub number : Option ℕ → ℕ
number none = 0
number (some n) = n

abbrev pub line : ℕ → Call → List (Attribute × Text)
line n c = map (λ x. (color_of c, x)) (thread_string n ∷ texts_of c)

-- A line for each call, with the numbers that the threads have.
abbrev pub lines : (ℕ → Option ℕ) → List (ℕ × Call) → List (Attribute × Text)
lines ids [] = []
lines ids ((t, c) ∷ cs) = line (number (ids t)) c ++ lines ids cs
