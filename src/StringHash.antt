-- ===== src/StringHash.antt =====
-- `_hash<std::string>` of include/coplus/level_hash.h.
pub mod Polynomial
mod Tests
use coplus.Prelude.{ℕ, zero, suc, ◌+◌, ◌-◌, ◌*◌, ◌^◌, List, [], ◌∷◌, ltb, if◌then◌else◌, u32}
use coplus.Text.{Text}

abbrev pub seed : ℕ
seed = 131

-- A `char` has a sign, and becomes an unsigned word.
abbrev pub char_word : ℕ → ℕ
char_word c = if ltb c 128 then c else 2 ^ 32 + c - 256

-- The loop over the bytes of `c_str`, which ends at the first zero, also one within the string.
unfoldable pub hash_loop : Text → ℕ → ℕ
hash_loop [] hash = hash
hash_loop (zero ∷ s) hash = hash
hash_loop (suc c ∷ s) hash = hash_loop s (u32 (hash * seed + char_word (suc c)))

unfoldable pub string_hash : Text → ℕ
unfolding hash_loop
string_hash s = hash_loop s 0
