-- ===== src/Text/Split.antt =====
-- What `split` cuts a string into.
use coplus.Prelude.{
  ℕ, zero, suc, ◌+◌, ◌-◌, ◌≤◌, ◌<◌, ◌≡◌, refl, sym, ap, ap₂, ◌∙◌, inl, inr, List, [], ◌∷◌, ◌++◌,
  Bool, true, false, not, none, some, ltb, length, append-nil, append_assoc, length-append,
  Bool-cases, arith, subst, take, drop, concat, concat-append, drop-add, take-all, length-drop,
  drop_past,
}
use coplus.Text.{Text, substr, contains, find_if, find_first_of, or_end, split_loop, split}

-- The bytes that the test likes.
abbrev pub keep : (ℕ → Bool) → Text → Text
keep p [] = []
keep p (c ∷ s) = elim (p c) [ true ↦ c ∷ keep p s | false ↦ keep p s ]

all_taken : (s : Text) (c : ℕ) → substr s c (length s - c) ≡ drop c s
all_taken s c = ap (λ n. take n (drop c s)) (sym (length-drop c s)) ∙ take-all (drop c s)

back : (c j : ℕ) → j ≡ c + j - c
back c j = omega arith

drop_on : (c j : ℕ) (s : Text) → drop (c + j + 1) s ≡ drop (suc j) (drop c s)
drop_on c j s = ap (λ n. drop n s) same ∙ drop-add c (suc j) s
  where
    same : c + j + 1 ≡ c + suc j
    same = omega arith

-- What a search finds.
data Found (p : ℕ → Bool) (s : Text) : Type 0 where
  nowhere : find_if p s ≡ none → keep p s ≡ [] → keep (λ c. not (p c)) s ≡ s → Found p s
  at :
      (i : ℕ)
      → find_if p s ≡ some i
      → i < length s
      → keep p s ≡ keep p (drop i s)
      → keep (λ c. not (p c)) (take i s) ≡ take i s
      → keep (λ c. not (p c)) s ≡ take i s ++ keep (λ c. not (p c)) (drop (suc i) s)
      → Found p s

find : (p : ℕ → Bool) (s : Text) → Found p s
find p [] = nowhere refl refl refl
find p (c ∷ s) = elim (Bool-cases (p c)) [
  | inl e ↦ at 0 (rw (find_if, e) refl) (omega arith) refl refl (rw (keep, e) refl)
  | inr e ↦ elim (find p s) [
    | nowhere f k r ↦
        nowhere (rw (find_if, e, f) refl) (rw (keep, e) k) (rw (keep, e) (ap (λ t. c ∷ t) r))
    | at i f l k w r ↦
        at (suc i) (rw (find_if, e, f) refl) (omega arith) (rw (keep, e) k)
          (rw (keep, e) (ap (λ t. c ∷ t) w)) (rw (keep, e) (ap (λ t. c ∷ t) r))
  ]
]

-- The bytes that are no separators.
abbrev pub solid : Text → Text → Text
solid token s = keep (λ c. not (contains token c)) s

-- Where the piece from `c` on ends.
abbrev stop : Text → Text → ℕ → ℕ
stop s token c = or_end s (find_first_of s token c)

-- A piece: nonempty and without separators.
abbrev pub IsWord : Text → Text → Type 0
IsWord token w = (0 < length w) × (solid token w ≡ w)

abbrev pub AreWords : Text → List Text → Type 0
AreWords token [] = Unit
AreWords token (w ∷ ws) = IsWord token w × AreWords token ws

append-AreWords :
    (token : Text) (ws : List Text) (w : Text)
    → AreWords token ws
    → IsWord token w
    → AreWords token (ws ++ w ∷ [])
append-AreWords token [] w a b = (b, tt)
append-AreWords token (v ∷ ws) w (a, as') b = (a, append-AreWords token ws w as' b)

length-take_pos : (n : ℕ) (s : Text) → 0 < n → 0 < length s → 0 < length (take n s)
length-take_pos zero s h k = absurd (omega arith)
length-take_pos (suc n) [] h k = absurd (omega arith)
length-take_pos (suc n) (c ∷ s) h k = omega arith

-- One round of the loop.
record Piece (s token : Text) (c : ℕ) : Type 0 where
  past : c ≤ stop s token c
  pure : solid token (substr s c (stop s token c - c)) ≡ substr s c (stop s token c - c)
  cut :
      solid token (drop c s)
      ≡ substr s c (stop s token c - c) ++ solid token (drop (stop s token c + 1) s)

next-Piece : (s token : Text) (c : ℕ) → c < length s → Piece s token c
next-Piece s token c h = elim (find (contains token) (drop c s)) [
  | nowhere f k r ↦ record {
    past = rw f (omega arith);
    pure = rw f (ap (solid token) (all_taken s c) ∙ r ∙ sym (all_taken s c));
    cut = rw f (
        r
        ∙ sym (all_taken s c)
        ∙ sym (ap₂ (λ t u. t ++ solid token u) refl (drop_past s 1) ∙ append-nil _));
  }
  | at j f l k w r ↦ record {
    past = rw f (omega arith);
    pure = rw f (subst (λ n. solid token (take n (drop c s)) ≡ take n (drop c s)) (back c j) w);
    cut =
        rw f (r ∙ ap₂ (λ n t. take n (drop c s) ++ solid token t) (back c j) (sym (drop_on c j s)));
  }
]

-- What the loop is to give.
abbrev Pieces : ℕ → Text → Text → ℕ → List Text → Type 0
Pieces fuel s token cur ret =
    (ret' : List Text) × (split_loop fuel s token cur ret ≡ some ret')
    × (concat ret' ≡ concat ret ++ solid token (drop cur s))
    × (AreWords token ret → AreWords token ret')
    × ((new : List Text) × (ret' ≡ ret ++ new))

skipped : (s : Text) (c to : ℕ) → ltb c to ≡ false → substr s c (to - c) ≡ []
skipped s c to e = ap (λ n. take n (drop c s)) same
  where
    same : to - c ≡ 0
    same = ground arith

flat_push :
    (ret : List Text) (piece rest : Text)
    → concat (ret ++ piece ∷ []) ++ rest ≡ concat ret ++ (piece ++ rest)
flat_push ret piece rest =
    ap (λ t. t ++ rest) (concat-append ret (piece ∷ []))
    ∙ append_assoc (concat ret) (piece ++ []) rest
    ∙ ap (λ t. concat ret ++ (t ++ rest)) (append-nil piece)

loop-Pieces :
    (fuel : ℕ) (s token : Text) (cur : ℕ) (ret : List Text)
    → length s < fuel + cur
    → 0 < fuel
    → Pieces fuel s token cur ret
unfolding split_loop
loop-Pieces zero s token cur ret h k = absurd (omega arith)
loop-Pieces (suc fuel) s token cur ret h k =
    elim (find (λ c. not (contains token c)) (drop cur s)) [
      | nowhere f e r ↦ (
        ret,
        rw (split_loop, f) refl,
        rw e (sym (append-nil (concat ret))),
        λ ws. ws,
        ([], sym (append-nil ret)),
      )
      | at i f l e w r ↦
          go i f (omega (arith, l, length-drop cur s)) e
            (λ cur' ret' h' k'. loop-Pieces fuel s token cur' ret' h' k')
    ]
  where
    go :
        (i : ℕ)
        → find_if (λ c. not (contains token c)) (drop cur s) ≡ some i
        → cur + i < length s
        → solid token (drop cur s) ≡ solid token (drop i (drop cur s))
        → ((cur' : ℕ) (ret' : List Text)
            → length s < fuel + cur'
            → 0 < fuel
            → Pieces fuel s token cur' ret')
        → Pieces (suc fuel) s token cur ret
    go i f lt e again = elim (Bool-cases (ltb (cur + i) to)) [
      | inl b ↦
          let (ret', run, flat, words, (new, ext)) =
            again (to + 1) (ret ++ piece ∷ []) (omega (arith, p.past)) (omega arith) in
          (
            ret',
            rw (split_loop, f, b) run,
            flat ∙ flat_push ret piece _ ∙ ap (λ t. concat ret ++ t) (sym whole),
            λ ws. words (append-AreWords token ret piece ws (piece_pos b, p.pure)),
            (piece ∷ new, ext ∙ append_assoc ret (piece ∷ []) new),
          )
      | inr b ↦
          let (ret', run, flat, words, more) =
            again (to + 1) ret (omega (arith, p.past)) (omega arith) in
          (
            ret',
            rw (split_loop, f, b) run,
            flat
                ∙ ap (λ t. concat ret ++ t)
                    (sym (
                      whole
                      ∙ ap (λ t. t ++ solid token (drop (to + 1) s)) (skipped s (cur + i) to b))),
            words,
            more,
          )
    ]
      where
        to : ℕ
        to = stop s token (cur + i)

        p : Piece s token (cur + i)
        p = next-Piece s token (cur + i) lt

        piece : Text
        piece = substr s (cur + i) (to - (cur + i))

        piece_pos : ltb (cur + i) to ≡ true → 0 < length piece
        piece_pos b =
            length-take_pos (to - (cur + i)) (drop (cur + i) s) (ground arith)
              (omega (arith, length-drop (cur + i) s))

        whole : solid token (drop cur s) ≡ piece ++ solid token (drop (to + 1) s)
        whole = e ∙ ap (solid token) (sym (drop-add cur i s)) ∙ p.cut

-- With more fuel than the string has bytes, and with nonempty pieces free of separators in `ret`,
-- `split` returns; the pieces, put together, are those in `ret` followed by the string without its
-- separators, and all are nonempty and free of separators.
pub split-pieces :
    (fuel : ℕ) (s token : Text) (ret : List Text)
    → length s < fuel
    → AreWords token ret
    → (ret' : List Text) × (split fuel s token ret ≡ some (length ret' - length ret, ret'))
      × (concat ret' ≡ concat ret ++ solid token s)
      × AreWords token ret'
unfolding split
split-pieces fuel s token ret h ws =
    let (ret', run, flat, words, more) =
      loop-Pieces fuel s token 0 ret (omega arith) (omega arith) in
    (ret', rw (split, run) refl, flat, words ws)

-- The pieces are added to those in `ret`.
pub split-added :
    (s token : Text) (ret : List Text)
    → (new : List Text) × (split (suc (length s)) s token ret ≡ some (length new, ret ++ new))
unfolding split
split-added s token ret =
    let (ret', run, flat, words, (new, ext)) =
      loop-Pieces (suc (length s)) s token 0 ret (omega arith) (omega arith) in
    (
      new,
      rw (split, run, ext) (ap (λ n. some (n, ret ++ new)) (omega (arith, length-append ret new))),
    )
