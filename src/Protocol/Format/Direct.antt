-- ===== src/Protocol/Format/Direct.antt =====
-- Messages of a sender: the address is found again between its colons.
use coplus.Prelude.{
  ℕ, suc, ◌+◌, ◌<◌, ◌^◌, ◌≡◌, ◌≢◌, drop-add, refl, sym, ap, ap₂, ◌∙◌, [], ◌∷◌, ◌++◌, true, false,
  none, some, length, length-append, append_assoc, arith, drop, take-append, drop-append, inl, inr,
  Bool-cases, Option-cases, subst, ltb,
}
use coplus.Text.{Text, starts_with}
use coplus.Protocol.{pickle_direct}
use coplus.Protocol.Format.{
  GetType, Line, format_message, type_name, int_text, until_nul, find_colons, show_content,
  show_direct,
}
use coplus.Protocol.Format.Received.{body, message, formatted}

abbrev colons : Text
colons = 58 ∷ 58 ∷ []

-- Two bytes decide.
starts_same :
    (c d : ℕ) (s t : Text) → starts_with (c ∷ d ∷ s) colons ≡ starts_with (c ∷ d ∷ t) colons
unfolding starts_with
starts_same c d s t = rw (starts_with, long s, long t) refl
  where
    long : (u : Text) → ltb (suc (suc (length u))) 2 ≡ false
    long u = ground arith

-- A byte before: the search goes on.
found_later :
    (c d : ℕ) (s t : Text) (n : ℕ)
    → find_colons (c ∷ d ∷ s) ≡ none
    → (find_colons (d ∷ s) ≡ none → find_colons (d ∷ t) ≡ some n)
    → find_colons (c ∷ d ∷ t) ≡ some (suc n)
found_later c d s t n e again = elim (Bool-cases (starts_with (c ∷ d ∷ s) colons)) [
  | inl b ↦ absurd (some≢none {i = 0} (sym (rw (find_colons, b) refl) ∙ e))
  | inr b ↦ elim (Option-cases (find_colons (d ∷ s))) [
    | inl f ↦ rw (find_colons, starts_same c d t s, b, again f) refl
    | inr (i, f) ↦ absurd (some≢none {i = suc i} (sym (rw (find_colons, b, f) refl) ∙ e))
  ]
]
  where
    some≢none : {i : ℕ} → some i ≢ none
    some≢none p = ground arith

-- The colons after an address are found, when no two colons stand next to each other in it with
-- one more at its end.
found_after :
    (addr rest : Text)
    → find_colons (addr ++ 58 ∷ []) ≡ none
    → find_colons (addr ++ 58 ∷ 58 ∷ rest) ≡ some (length addr)
unfolding starts_with
found_after [] rest e = rw (find_colons, starts_same 58 58 rest []) refl
found_after (c ∷ []) rest e = found_later c 58 [] (58 ∷ rest) 0 e (found_after [] rest)
found_after (c ∷ d ∷ addr) rest e =
    found_later c d (addr ++ 58 ∷ []) (addr ++ 58 ∷ 58 ∷ rest) (suc (length addr)) e
      (found_after (d ∷ addr) rest)

-- What stands after the address.
after_addr : (addr rest : Text) → drop (length addr + 2) (addr ++ 58 ∷ 58 ∷ rest) ≡ rest
after_addr addr rest =
    drop-add (length addr) 2 (addr ++ 58 ∷ 58 ∷ rest) ∙ ap (drop 2) (drop-append addr _)

-- A message of the sender at an address, in which no two colons stand next to each other with one
-- more at its end, is printed with this address and with the request, up to its first zero byte.
-- One who asks for the content is given the address, between colons, and the request. They are
-- shorter together than 2^31 - 10 bytes, so that every place in them is an int.
pub format_message-pickle_direct :
    (type : ℕ) (addr request : Text) (get : GetType)
    → find_colons (addr ++ 58 ∷ []) ≡ none
    → get.get_content ≡ true
    → length addr + length request + 10 < 2 ^ 31
    → format_message (body (pickle_direct type addr request)) get
      ≡ some (
        Line.type_line (type_name type)
            ∷ Line.length_line (int_text (length addr + length request + 10))
            ∷ Line.sender_line addr
            ∷ Line.message_line (until_nul request)
            ∷ [],
        colons ++ addr ++ colons ++ request,
      )
unfolding pickle_direct show_content
format_message-pickle_direct type addr request get e g h =
    formatted type 100 content get _ (omega (arith, counted, h)) g shown
    ∙ ap
        (λ n. some (
          Line.type_line (type_name type)
              ∷ Line.length_line (int_text n)
              ∷ Line.sender_line addr
              ∷ Line.message_line (until_nul request)
              ∷ [],
          content,
        ))
        (omega (arith, counted, h))
  where
    content : Text
    content = colons ++ addr ++ colons ++ request

    tail : addr ++ colons ++ request ≡ addr ++ 58 ∷ 58 ∷ request
    tail = append_assoc addr colons request

    counted : length content ≡ length addr + length request + 4
    counted = omega (arith, length-append (addr ++ colons) request, length-append addr colons)

    m : Text
    m = message type 100 (58 ∷ 58 ∷ (addr ++ 58 ∷ 58 ∷ request))

    shift : (n : ℕ) → 8 + n + 2 ≡ 8 + (n + 2)
    shift n = omega arith

    rest : drop (8 + length addr + 2) m ≡ request
    rest =
        ap (λ n. drop n m) (shift (length addr))
        ∙ drop-add 8 (length addr + 2) m
        ∙ after_addr addr request

    shown :
        show_content (message type 100 content)
        ≡ some (Line.sender_line addr ∷ Line.message_line (until_nul request) ∷ [], true)
    shown =
        subst
          (λ t.
            show_content (message type 100 (58 ∷ 58 ∷ t))
            ≡ some (Line.sender_line addr ∷ Line.message_line (until_nul request) ∷ [], true))
          (sym tail)
          (rw (show_content, show_direct, found_after addr request e)
            (ap₂ (λ a b. some (Line.sender_line a ∷ Line.message_line (until_nul b) ∷ [], true))
              (take-append addr (58 ∷ 58 ∷ request)) rest))
