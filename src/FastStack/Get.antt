-- ===== src/FastStack/Get.antt =====
-- `get` of `PushOnlyFastStack`, for every token.
use native.Mathlib.Nat.{div-add-mod', mod-lt, div-lt_iff_lt-mul}
use coplus.Prelude.{
  ℕ, suc, ◌+◌, ◌-◌, ◌*◌, ◌/◌, ◌%◌, ◌≤◌, ◌<◌, ◌≡◌, ◌≢◌, refl, ap, pos, negsuc, List, true, false,
  Option, none, some, ltb, get_or, length, get_or-tabulate, get_elem?-eq-get_or, get_elem?-eq-none,
  get_or_default, length-tabulate, arith,
}
use coplus.FastStack.{FastStack, get, read_chunk}
use coplus.FastStack.Items.{
  sub_slot-eq, chunk_at, cells_of, cell, count, items, IsChunk, IsValid, main_slot-lt,
}

module _ {A : Type 0} where
  read_cell :
      (d ret : A) (u t : ℕ) (c : Option (List A))
      → 0 < u
      → c ≢ none
      → IsChunk u c
      → read_chunk (t - t / u * u) ret c ≡ (true, get_or (cells_of c) (t % u) d)
  unfolding read_chunk
  read_cell d ret u t none h ne len = absurd (ne refl)
  read_cell d ret u t (some chunk) h ne len =
      rw (sub_slot-eq t u)
        (ap (λ x. (true, x)) (get_or_default chunk (t % u) ret d (rw len (mod-lt t h))))

  -- `get` of a token that was given out finds the item that was pushed under it.
  pub get-items :
      (d : A) (s : FastStack A) (t : ℕ) (ret : A)
      → IsValid s
      → t < length (items d s)
      → get s (pos t) ret ≡ some (true, get_or (items d s) t ret)
  unfolding get
  get-items d s t ret v h =
      rw
        (
          below,
          get_elem?-eq-get_or s.stacks (t / s.unit_size) none
              (main_slot-lt s t v (omega (arith, given))),
          get_or-tabulate (count s) (cell d s) t ret given,
        )
        (ap some (
          read_cell d ret s.unit_size t (chunk_at s (t / s.unit_size)) v.unit_pos
            (v.reached t given) (v.chunks (t / s.unit_size))))
    where
      given : t < count s
      given = rw (length-tabulate (count s) (cell d s)) at h

      below : ltb s.max_size t ≡ false
      below = ground (arith, given)

  -- A negative token, such as the -1 of a refused `push`, and one past `max_size` find nothing.
  pub get_beyond :
      (s : FastStack A) (ret : A) (t : ℕ)
      → (get s (negsuc t) ret ≡ some (false, ret))
        × (s.max_size < t → get s (pos t) ret ≡ some (false, ret))
  unfolding get
  get_beyond s ret t = (refl, λ h. ground arith)

  -- The token `max_size` passes the test of `get`. Where the chunks are full, it is read outside
  -- the array `stacks`.
  pub get-max_size :
      (s : FastStack A) (ret : A)
      → IsValid s
      → s.max_size % s.unit_size ≡ 0
      → get s (pos s.max_size) ret ≡ none
  unfolding get
  get-max_size s ret v e =
      let t : ltb s.max_size s.max_size ≡ false = ground arith in
      rw (t, get_elem?-eq-none s.stacks (s.max_size / s.unit_size) beyond)
    where
      open s use {max_size, unit_size}

      counted : max_size / unit_size * unit_size ≡ max_size
      counted = omega (arith, div-add-mod' max_size unit_size)

      beyond : length s.stacks ≤ max_size / unit_size
      beyond =
          let up : (max_size + unit_size - 1) / unit_size < suc (max_size / unit_size) =
            (div-lt_iff_lt-mul v.unit_pos).1 (omega (arith, counted, v.unit_pos)) in
          omega (arith, v.slots, up)
