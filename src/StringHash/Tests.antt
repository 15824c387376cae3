-- ===== src/StringHash/Tests.antt =====
-- Hashes of short strings.
use coplus.Prelude.{◌≡◌, refl, [], ◌∷◌}
use coplus.StringHash.{hash_loop, string_hash}

-- "ab", and what stands behind a zero does not count.
short : (string_hash (97 ∷ 98 ∷ []) ≡ 12805) × (string_hash (97 ∷ 98 ∷ 0 ∷ 99 ∷ []) ≡ 12805)
unfolding string_hash hash_loop
short = (refl, refl)

-- A byte from 128 on counts as a negative number.
negative : string_hash (200 ∷ []) ≡ 4294967240
unfolding string_hash hash_loop
negative = refl
