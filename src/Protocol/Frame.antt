-- ===== src/Protocol/Frame.antt =====
-- The layout of a framed message.
use coplus.Prelude.{
  ℕ, ◌+◌, ◌-◌, ◌≡◌, ap, ap₂, ◌∙◌, [], ◌∷◌, ◌++◌, length, length-append, append-nil, arith, drop,
  take-append, drop_past,
}
use coplus.Text.{Text}
use coplus.Protocol.{app_head, app_terminator, word_bytes, write_word, spaces, pickle_message}

-- What stands before the terminator, with the length word that is given.
abbrev pub opening : ℕ → ℕ → ℕ → Text → Text
opening type len raw_type request =
    word_bytes app_head ++ (type ∷ (word_bytes len ++ (raw_type ∷ request)))

-- The last word of a string.
write_word_last :
    (s : Text) (w : ℕ) → write_word (s ++ spaces) (length (s ++ spaces) - 4) w ≡ s ++ word_bytes w
write_word_last s w =
    ap (λ n. write_word (s ++ spaces) n w) place
    ∙ ap₂ (λ a b. a ++ (word_bytes w ++ b)) (take-append s spaces) end
    ∙ ap (λ t. s ++ t) (append-nil (word_bytes w))
  where
    place : length (s ++ spaces) - 4 ≡ length s
    place = omega (arith, length-append s spaces)

    whole : length s + 4 ≡ length (s ++ spaces) + 0
    whole = omega (arith, length-append s spaces)

    end : drop (length s + 4) (s ++ spaces) ≡ []
    end = ap (λ n. drop n (s ++ spaces)) whole ∙ drop_past (s ++ spaces) 0

-- The frame is the head, the type, a length word that counts all but the head and the terminator,
-- the raw type, the request and the terminator.
pub pickle_message-layout :
    (type : ℕ) (request : Text) (raw_type : ℕ)
    → pickle_message type request raw_type
      ≡ opening type (length request + 6) raw_type request ++ word_bytes app_terminator
unfolding pickle_message
pickle_message-layout type request raw_type =
    write_word_last
      (opening type (length (opening type 0 raw_type request ++ spaces) - 8) raw_type request)
      app_terminator
    ∙ ap (λ l. opening type l raw_type request ++ word_bytes app_terminator) counted
  where
    counted : length (opening type 0 raw_type request ++ spaces) - 8 ≡ length request + 6
    counted = omega (arith, length-append request spaces)
