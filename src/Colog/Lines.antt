-- ===== src/Colog/Lines.antt =====
-- What calls of `Colog` show on the console.
use coplus.Prelude.{
  ℕ, ◌≡◌, refl, sym, ap, ◌∙◌, List, [], ◌∷◌, ◌++◌, map, append-nil, append_assoc, some,
  Option-cases, inl, inr, assign, add32, arith,
}
use coplus.Text.{Text}
use coplus.Colog.{
  Log, thread_id, thread_string, write, put_thread, values, put_value, put_batch, painted,
  highlight, warning, error, red, green, blue, cyan, purple, yellow,
}
use coplus.Colog.Console.{
  Foreground, Background, Event, put, end_line, set_attribute, console_color,
}
use coplus.Colog.Calls.{
  Call, one_value, batch, in_highlight, in_warning, in_error, in_red, in_green, in_blue, in_cyan,
  in_purple, in_yellow, perform, run, Attribute, plain, spaced, screen, left_on, number, line,
  lines,
}

-- The values of a line show as texts.
screen-values :
    (c : Attribute) (xs : List Text) (es : List Event)
    → screen c (values xs ++ es) ≡ map (λ x. (c, x)) (spaced xs) ++ screen c es
screen-values c [] es = refl
screen-values c (x ∷ xs) es = ap (λ r. (c, x) ∷ (c, 32 ∷ []) ∷ r) (screen-values c xs es)

left_on-values :
    (c : Attribute) (xs : List Text) (es : List Event) → left_on c (values xs ++ es) ≡ left_on c es
left_on-values c [] es = refl
left_on-values c (x ∷ xs) es = left_on-values c xs es

-- The events that a call adds, by the number of the thread, under a code or without one.
abbrev block : List Event → List Event → List Event → ℕ → List Event
block before vs behind n = before ++ (put (thread_string n) ∷ (vs ++ behind))

abbrev events : ℕ → Call → List Event
events n (one_value x) = block [] (put x ∷ end_line ∷ []) [] n
events n (batch xs) = block [] (values xs) [] n
events n (in_highlight xs) = block (console_color 1) (values xs) (console_color 0) n
events n (in_warning xs) = block (console_color 2) (values xs) (console_color 0) n
events n (in_error xs) = block (console_color 3) (values xs) (console_color 0) n
events n (in_red xs) = block (console_color 4) (values xs) (console_color 0) n
events n (in_green xs) = block (console_color 5) (values xs) (console_color 0) n
events n (in_blue xs) = block (console_color 6) (values xs) (console_color 0) n
events n (in_cyan xs) = block (console_color 7) (values xs) (console_color 0) n
events n (in_purple xs) = block (console_color 8) (values xs) (console_color 0) n
events n (in_yellow xs) = block (console_color 9) (values xs) (console_color 0) n

screen-colored :
    (f : Foreground) (b : Background) (xs : List Text) (n : ℕ) (es : List Event)
    → screen plain (block (set_attribute f b ∷ []) (values xs) (console_color 0) n ++ es)
      ≡ map (λ x. ((f, b), x)) (thread_string n ∷ spaced xs) ++ screen plain es
screen-colored f b xs n es =
    ap (λ r. ((f, b), thread_string n) ∷ r)
      (ap (screen (f, b)) (append_assoc (values xs) (console_color 0) es)
        ∙ screen-values (f, b) xs (console_color 0 ++ es))

screen-events :
    (n : ℕ) (c : Call) (es : List Event)
    → screen plain (events n c ++ es) ≡ line n c ++ screen plain es
screen-events n (one_value x) es = refl
screen-events n (batch xs) es =
    ap (λ r. (plain, thread_string n) ∷ r)
      (ap (screen plain) (append_assoc (values xs) [] es) ∙ screen-values plain xs es)
screen-events n (in_highlight xs) es = screen-colored Foreground.high_white Background.black xs n es
screen-events n (in_warning xs) es = screen-colored Foreground.black Background.yellow xs n es
screen-events n (in_error xs) es = screen-colored Foreground.black Background.red xs n es
screen-events n (in_red xs) es = screen-colored Foreground.red Background.black xs n es
screen-events n (in_green xs) es = screen-colored Foreground.green Background.black xs n es
screen-events n (in_blue xs) es = screen-colored Foreground.blue Background.black xs n es
screen-events n (in_cyan xs) es = screen-colored Foreground.cyan Background.black xs n es
screen-events n (in_purple xs) es = screen-colored Foreground.purple Background.black xs n es
screen-events n (in_yellow xs) es = screen-colored Foreground.yellow Background.black xs n es

-- What a call leaves: its events, under the number that its thread has from then on.
record Adds (es : ℕ → List Event) (t : ℕ) (s s' : Log) : Type 0 where
  id : ℕ
  has_id : s'.ids t ≡ some id
  shown : s'.out ≡ s.out ++ es id
  others : (u m : ℕ) → s.ids u ≡ some m → s'.ids u ≡ some m

-- The number of a thread is handed out.
record Named (t : ℕ) (s : Log) : Type 0 where
  id : ℕ
  after : Log
  is_named : thread_id t s ≡ (id, after)
  has_id : after.ids t ≡ some id
  same : after.out ≡ s.out
  others : (u m : ℕ) → s.ids u ≡ some m → after.ids u ≡ some m

thread_id-Named : (t : ℕ) (s : Log) → Named t s
unfolding thread_id
thread_id-Named t s = elim (Option-cases (s.ids t)) [
  | inl e ↦ record {
    id = s.next;
    after = record s { next = add32 s.next 1; ids = assign s.ids t (some s.next) };
    is_named = rw (thread_id, e) refl;
    has_id = ground arith;
    same = refl;
    others = λ u m f. ground (arith, e, f);
  }
  | inr (n, e) ↦ record {
    id = n;
    after = s;
    is_named = rw (thread_id, e) refl;
    has_id = e;
    same = refl;
    others = λ u m f. f;
  }
]

framed-Adds :
    (before vs behind : List Event) (t : ℕ) (s s0 r : Log)
    → s0.ids ≡ s.ids
    → s0.out ≡ s.out ++ before
    → r.ids ≡ (put_thread t s0).ids
    → r.out ≡ (put_thread t s0).out ++ (vs ++ behind)
    → Adds (block before vs behind) t s r
unfolding put_thread
framed-Adds before vs behind t s s0 r i o i' o' =
    let m = thread_id-Named t s0 in
    let named = m.is_named in
    let ids : (put_thread t s0).ids ≡ m.after.ids = ap (λ p. p.1.ids) named in
    let out : (put_thread t s0).out ≡ (s.out ++ before) ++ put (thread_string m.id) ∷ [] =
      ap (λ p. p.1.out ++ put (thread_string p.0) ∷ []) named
      ∙ ap (λ l. l ++ put (thread_string m.id) ∷ []) (m.same ∙ o) in
    let all = i' ∙ ids in
    record {
      id = m.id;
      has_id = ap (λ f. f t) all ∙ m.has_id;
      shown =
          o'
          ∙ ap (λ l. l ++ (vs ++ behind)) out
          ∙ append_assoc (s.out ++ before) (put (thread_string m.id) ∷ []) (vs ++ behind)
          ∙ append_assoc s.out before (put (thread_string m.id) ∷ (vs ++ behind));
      others = λ u k e. ap (λ f. f u) all ∙ m.others u k (ap (λ f. f u) i ∙ e);
    }

plain-Adds :
    (vs : List Event) (t : ℕ) (s : Log) → Adds (block [] vs []) t s (write vs (put_thread t s))
plain-Adds vs t s =
    framed-Adds [] vs [] t s s (write vs (put_thread t s)) refl (sym (append-nil s.out)) refl
      (ap (λ l. (put_thread t s).out ++ l) (sym (append-nil vs)))

painted-Adds :
    (code : ℕ) (xs : List Text) (t : ℕ) (s : Log)
    → Adds (block (console_color code) (values xs) (console_color 0)) t s (painted code t xs s)
unfolding painted put_batch
painted-Adds code xs t s =
    let s0 = write (console_color code) s in
    framed-Adds (console_color code) (values xs) (console_color 0) t s s0 (painted code t xs s) refl
      refl refl (append_assoc (put_thread t s0).out (values xs) (console_color 0))

perform-Adds : (t : ℕ) (c : Call) (s : Log) → Adds (λ n. events n c) t s (perform t c s)
unfolding perform put_value put_batch highlight warning error red green blue cyan purple yellow
perform-Adds t (one_value x) s = plain-Adds (put x ∷ end_line ∷ []) t s
perform-Adds t (batch xs) s = plain-Adds (values xs) t s
perform-Adds t (in_highlight xs) s = painted-Adds 1 xs t s
perform-Adds t (in_warning xs) s = painted-Adds 2 xs t s
perform-Adds t (in_error xs) s = painted-Adds 3 xs t s
perform-Adds t (in_red xs) s = painted-Adds 4 xs t s
perform-Adds t (in_green xs) s = painted-Adds 5 xs t s
perform-Adds t (in_blue xs) s = painted-Adds 6 xs t s
perform-Adds t (in_cyan xs) s = painted-Adds 7 xs t s
perform-Adds t (in_purple xs) s = painted-Adds 8 xs t s
perform-Adds t (in_yellow xs) s = painted-Adds 9 xs t s

screen-append :
    (c : Attribute) (xs ys : List Event)
    → screen c (xs ++ ys) ≡ screen c xs ++ screen (left_on c xs) ys
screen-append c [] ys = refl
screen-append c (put x ∷ xs) ys = ap (λ r. (c, x) ∷ r) (screen-append c xs ys)
screen-append c (end_line ∷ xs) ys = ap (λ r. (c, 10 ∷ []) ∷ r) (screen-append c xs ys)
screen-append c (set_attribute f b ∷ xs) ys = screen-append (f, b) xs ys

left_on-append :
    (c : Attribute) (xs ys : List Event) → left_on c (xs ++ ys) ≡ left_on (left_on c xs) ys
left_on-append c [] ys = refl
left_on-append c (put x ∷ xs) ys = left_on-append c xs ys
left_on-append c (end_line ∷ xs) ys = left_on-append c xs ys
left_on-append c (set_attribute f b ∷ xs) ys = left_on-append (f, b) xs ys

left_on-colored :
    (f : Foreground) (b : Background) (xs : List Text) (n : ℕ)
    → left_on plain (block (set_attribute f b ∷ []) (values xs) (console_color 0) n) ≡ plain
left_on-colored f b xs n = left_on-values (f, b) xs (console_color 0)

left_on-events : (n : ℕ) (c : Call) → left_on plain (events n c) ≡ plain
left_on-events n (one_value x) = refl
left_on-events n (batch xs) = left_on-values plain xs []
left_on-events n (in_highlight xs) = left_on-colored Foreground.high_white Background.black xs n
left_on-events n (in_warning xs) = left_on-colored Foreground.black Background.yellow xs n
left_on-events n (in_error xs) = left_on-colored Foreground.black Background.red xs n
left_on-events n (in_red xs) = left_on-colored Foreground.red Background.black xs n
left_on-events n (in_green xs) = left_on-colored Foreground.green Background.black xs n
left_on-events n (in_blue xs) = left_on-colored Foreground.blue Background.black xs n
left_on-events n (in_cyan xs) = left_on-colored Foreground.cyan Background.black xs n
left_on-events n (in_purple xs) = left_on-colored Foreground.purple Background.black xs n
left_on-events n (in_yellow xs) = left_on-colored Foreground.yellow Background.black xs n

line-events : (n : ℕ) (c : Call) → screen plain (events n c) ≡ line n c
line-events n c =
    ap (screen plain) (sym (append-nil (events n c))) ∙ screen-events n c [] ∙ append-nil (line n c)

-- A thread keeps its number.
run-ids : (cs : List (ℕ × Call)) (s : Log) (t n : ℕ) → s.ids t ≡ some n → (run cs s).ids t ≡ some n
unfolding run
run-ids [] s t n e = e
run-ids ((u, c) ∷ cs) s t n e = run-ids cs (perform u c s) t n ((perform-Adds u c s).others t n e)

-- From a log whose last colour is the plain one, whatever calls of whatever threads follow, the
-- console shows what it showed and then a line for each call, in the order of the calls and in the
-- colour of the method, with the number of the thread before the values; the plain colour is
-- left on, and threads keep their numbers.
pub run-lines :
    (cs : List (ℕ × Call)) (s : Log)
    → left_on plain s.out ≡ plain
    → (screen plain (run cs s).out ≡ screen plain s.out ++ lines (run cs s).ids cs)
      × (left_on plain (run cs s).out ≡ plain)
      × ((t n : ℕ) → s.ids t ≡ some n → (run cs s).ids t ≡ some n)
unfolding run
run-lines [] s e = (sym (append-nil (screen plain s.out)), e, λ t n f. f)
run-lines ((t, c) ∷ cs) s e =
    let a = perform-Adds t c s in
    let s' = perform t c s in
    let e' : left_on plain s'.out ≡ plain =
      ap (left_on plain) a.shown
      ∙ left_on-append plain s.out (events a.id c)
      ∙ ap (λ x. left_on x (events a.id c)) e
      ∙ left_on-events a.id c in
    let shown : screen plain s'.out ≡ screen plain s.out ++ line a.id c =
      ap (screen plain) a.shown
      ∙ screen-append plain s.out (events a.id c)
      ∙ ap (λ x. screen plain s.out ++ screen x (events a.id c)) e
      ∙ ap (λ l. screen plain s.out ++ l) (line-events a.id c) in
    let id = run-ids cs s' t a.id a.has_id in
    let (r, left, kept) = run-lines cs s' e' in
    (
      r
          ∙ ap (λ l. l ++ lines (run cs s').ids cs) shown
          ∙ append_assoc (screen plain s.out) (line a.id c) (lines (run cs s').ids cs)
          ∙ ap (λ k. screen plain s.out ++ (line (number k) c ++ lines (run cs s').ids cs))
              (sym id),
      left,
      λ u n f. kept u n (a.others u n f),
    )
