-- ===== src/FastStack.antt =====
-- `PushOnlyFastStack` of include/coplus/fast_queue.h, one call at a time: a vector that only grows,
-- in chunks that are allocated on demand.
pub mod Items
pub mod Push
pub mod Get
pub mod Threads
mod Tests
use mathlib.Core.Option
use coplus.Prelude.{
  ℕ, ◌+◌, ◌-◌, ◌*◌, ◌/◌, ◌^◌, ℤ, pos, negsuc, minus_one, List, Bool, true, false, Option, none,
  some, leb, ltb, if◌then◌else◌, get_elem?, get_or, set, replicate, add32,
}

-- `end` is an `int`, kept as its 32 bits; `unit_size` is the template's argument. A chunk that is
-- not allocated is `none`.
pub record FastStack (A : Type 0) : Type 0 where
  pub unit_size : ℕ
  pub max_size : ℕ
  pub stacks : List (Option (List A))
  pub end : ℕ

-- An `int` given by its bits, converted to the 64 bits of a `size_t`.
abbrev pub to_size : ℕ → ℕ
to_size w = if ltb w (2 ^ 31) then w else w + (2 ^ 64 - 2 ^ 32)

module _ {A : Type 0} where
  unfoldable pub init : ℕ → ℕ → FastStack A
  init unit_size max_size = record {
    unit_size = unit_size;
    max_size = max_size;
    stacks = replicate ((max_size + unit_size - 1) / unit_size) none;
    end = 0;
  }

  -- The chunk is there or not; `ret` keeps its value where there is none. A `subSlot` outside the
  -- chunk would give `ret`, and never occurs.
  read_chunk : ℕ → A → Option (List A) → Bool × A
  read_chunk sub_slot ret none = (false, ret)
  read_chunk sub_slot ret (some chunk) = (true, get_or chunk sub_slot ret)

  -- The result and `ret`; `none` is a read outside the array `stacks`. A negative token is a huge
  -- `size_t`, beyond every `max_size`.
  unfoldable pub get : FastStack A → ℤ → A → Option (Bool × A)
  unfolding read_chunk
  get s (negsuc t) ret = some (false, ret)
  get s (pos token) ret =
      if ltb s.max_size token
      then some (false, ret)
      else (let main_slot = token / s.unit_size in
          let sub_slot = token - main_slot * s.unit_size in
          Option.map (read_chunk sub_slot ret) (get_elem? s.stacks main_slot))

  -- The chunk to write to: the one there is, or a new one of cells `d`. One call at a time, the
  -- compare-exchange finds the null pointer that was loaded.
  unfoldable pub chunk_or_new : A → ℕ → Option (List A) → List A
  chunk_or_new d unit_size none = replicate unit_size d
  chunk_or_new d unit_size (some chunk) = chunk

  -- The new token, or -1, and the stack.
  unfoldable pub push : A → FastStack A → A → ℤ × FastStack A
  unfolding chunk_or_new
  push d s item =
      let slot = s.end in
      let end' = add32 s.end 1 in
      if leb s.max_size (to_size slot)
      then (minus_one, record s { end = end' })
      else (let main_slot = slot / s.unit_size in
          let sub_slot = slot - main_slot * s.unit_size in
          let chunk = chunk_or_new d s.unit_size (get_or s.stacks main_slot none) in
          (
            pos slot,
            record s {
              end = end';
              stacks = set s.stacks main_slot (some (set chunk sub_slot item));
            },
          ))

  -- `size()` gives the `int` `end`.
  unfoldable pub size : FastStack A → ℕ
  size s = s.end
