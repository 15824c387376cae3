-- ===== src/StringHash/Polynomial.antt =====
-- The hash as the value of a polynomial.
use coplus.Prelude.{ℕ, ◌+◌, ◌*◌, ◌^◌, [], ◌∷◌, length}
use coplus.Text.{Text}
use coplus.StringHash.{seed, char_word}

-- The bytes as coefficients, the last one for the power 0.
abbrev pub polynomial : Text → ℕ
polynomial [] = 0
polynomial (c ∷ s) = char_word c * seed ^ length s + polynomial s

-- The loop without wrap-around.
abbrev horner : Text → ℕ → ℕ
horner [] h = h
horner (c ∷ s) h = horner s (h * seed + char_word c)
