-- ===== src/Colog/Console.antt =====
-- The console of include/coplus/colog.h and `ConsoleColor`, under Windows.
use coplus.Prelude.{ℕ, List, [], ◌∷◌, get_or}
use coplus.Text.{Text}

-- `ConsoleForegroundColor`
pub data Foreground : Type 0 where
  red : Foreground
  green : Foreground
  blue : Foreground
  yellow : Foreground
  purple : Foreground
  cyan : Foreground
  gray : Foreground
  white : Foreground
  high_white : Foreground
  black : Foreground

-- `ConsoleBackGroundColor`
pub data Background : Type 0 where
  red : Background
  green : Background
  blue : Background
  yellow : Background
  purple : Background
  cyan : Background
  white : Background
  high_white : Background
  black : Background

-- What reaches the console.
pub data Event : Type 0 where
  put : Text → Event
  end_line : Event
  set_attribute : Foreground → Background → Event

-- The colours for the codes from 0 on.
abbrev pub colors : List (List Event)
colors =
    (set_attribute Foreground.white Background.black ∷ [])
    ∷ (set_attribute Foreground.high_white Background.black ∷ [])
    ∷ (set_attribute Foreground.black Background.yellow ∷ [])
    ∷ (set_attribute Foreground.black Background.red ∷ [])
    ∷ (set_attribute Foreground.red Background.black ∷ [])
    ∷ (set_attribute Foreground.green Background.black ∷ [])
    ∷ (set_attribute Foreground.blue Background.black ∷ [])
    ∷ (set_attribute Foreground.cyan Background.black ∷ [])
    ∷ (set_attribute Foreground.purple Background.black ∷ [])
    ∷ (set_attribute Foreground.yellow Background.black ∷ [])
    ∷ []

-- `ConsoleColor::operator()`; another code does nothing.
abbrev pub console_color : ℕ → List Event
console_color code = get_or colors code []
