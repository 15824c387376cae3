-- ===== src/Colog.antt =====
-- `Colog` of include/coplus/colog.h, the log of coloured lines. What a stream shows of a value is the
-- library's: a value stands as the text that it shows. Each call holds the lock to its end.
pub mod Console
pub mod Calls
pub mod Lines
pub mod Numbers
mod Tests
use coplus.Prelude.{ℕ, List, [], ◌∷◌, ◌++◌, Option, none, some, add32, assign}
use coplus.Text.{Text}
use coplus.Protocol.Format.{int_text}
use coplus.Colog.Console.{Event, put, end_line, console_color}

-- `id` and the `thread_id` of each thread in `ThreadInfo::thread_id`, and the console.
pub record Log : Type 0 where
  pub next : ℕ
  pub ids : ℕ → Option ℕ
  pub out : List Event

abbrev pub start : Log
start = record { next = 0; ids = λ t. none; out = [] }

-- Each thread gets its number when it first asks for it.
unfoldable pub thread_id : ℕ → Log → ℕ × Log
thread_id t s = elim (s.ids t) [
  | some n ↦ (n, s)
  | none ↦ (s.next, record s { next = add32 s.next 1; ids = assign s.ids t (some s.next) })
]

-- "[thread ", the number and "]"
abbrev pub thread_string : ℕ → Text
thread_string n = (91 ∷ 116 ∷ 104 ∷ 114 ∷ 101 ∷ 97 ∷ 100 ∷ 32 ∷ []) ++ int_text n ++ 93 ∷ []

abbrev pub write : List Event → Log → Log
write es s = record s { out = s.out ++ es }

unfoldable pub put_thread : ℕ → Log → Log
unfolding thread_id
put_thread t s = let (n, s') = thread_id t s in write (put (thread_string n) ∷ []) s'

-- The loop over the values of a call, a blank behind each, and the end of the line.
abbrev pub values : List Text → List Event
values [] = end_line ∷ []
values (x ∷ xs) = put x ∷ put (32 ∷ []) ∷ values xs

-- `operator<<`
unfoldable pub put_value : ℕ → Text → Log → Log
unfolding put_thread
put_value t x s = write (put x ∷ end_line ∷ []) (put_thread t s)

unfoldable pub put_batch : ℕ → List Text → Log → Log
unfolding put_thread
put_batch t xs s = write (values xs) (put_thread t s)

-- A line between two changes of colour.
unfoldable pub painted : ℕ → ℕ → List Text → Log → Log
unfolding put_batch
painted code t xs s = write (console_color 0) (put_batch t xs (write (console_color code) s))

unfoldable pub highlight : ℕ → List Text → Log → Log
unfolding painted
highlight = painted 1

unfoldable pub warning : ℕ → List Text → Log → Log
unfolding painted
warning = painted 2

unfoldable pub error : ℕ → List Text → Log → Log
unfolding painted
error = painted 3

unfoldable pub red : ℕ → List Text → Log → Log
unfolding painted
red = painted 4

unfoldable pub green : ℕ → List Text → Log → Log
unfolding painted
green = painted 5

unfoldable pub blue : ℕ → List Text → Log → Log
unfolding painted
blue = painted 6

unfoldable pub cyan : ℕ → List Text → Log → Log
unfolding painted
cyan = painted 7

unfoldable pub purple : ℕ → List Text → Log → Log
unfolding painted
purple = painted 8

unfoldable pub yellow : ℕ → List Text → Log → Log
unfolding painted
yellow = painted 9
