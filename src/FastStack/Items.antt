-- ===== src/FastStack/Items.antt =====
-- A `PushOnlyFastStack` is the list of the items pushed, indexed by token.
use native.Mathlib.Nat.{div-add-mod', le-div_iff_mul-le, div-mul-le_self, mod-eq-sub-div-mul}
use coplus.Prelude.{
  ℕ, ◌+◌, ◌-◌, ◌*◌, ◌/◌, ◌%◌, ◌^◌, ◌<◌, min, ◌≡◌, ◌≢◌, sym, ap₂, ◌∙◌, List, [], Option, none, some,
  get_or, length, length-replicate, get_or-replicate, subst, tabulate, arith,
}
use coplus.FastStack.{FastStack, init}

pub sub_slot-eq : (t u : ℕ) → t - t / u * u ≡ t % u
sub_slot-eq t u = sym (mod-eq-sub-div-mul t u)

-- Tokens of one chunk differ in their places in it.
pub places-ne : (t t' u : ℕ) → t / u ≡ t' / u → t ≢ t' → t % u ≢ t' % u
places-ne t t' u e ne p =
    ne (sym (div-add-mod' t u) ∙ ap₂ (λ a b. a * u + b) e p ∙ div-add-mod' t' u)

module _ {A : Type 0} where
  abbrev pub chunk_at : FastStack A → ℕ → Option (List A)
  chunk_at s main = get_or s.stacks main none

  abbrev pub cells_of : Option (List A) → List A
  cells_of none = []
  cells_of (some chunk) = chunk

  -- The cell of a token.
  abbrev pub cell : A → FastStack A → ℕ → A
  cell d s t = get_or (cells_of (chunk_at s (t / s.unit_size))) (t % s.unit_size) d

  abbrev pub count : FastStack A → ℕ
  count s = min s.end s.max_size

  -- What was pushed, by token.
  abbrev pub items : A → FastStack A → List A
  items d s = tabulate (count s) (cell d s)

  abbrev pub IsChunk : ℕ → Option (List A) → Type 0
  IsChunk unit_size none = Unit
  IsChunk unit_size (some chunk) = length chunk ≡ unit_size

  -- Chunks have their size, and the tokens given out have their chunks.
  pub record IsValid (s : FastStack A) : Type 0 where
    pub unit_pos : 0 < s.unit_size
    pub small : s.max_size < 2 ^ 31
    pub end_in : s.end < 2 ^ 32
    pub slots : length s.stacks ≡ (s.max_size + s.unit_size - 1) / s.unit_size
    pub chunks : (i : ℕ) → IsChunk s.unit_size (chunk_at s i)
    pub reached : (t : ℕ) → t < count s → chunk_at s (t / s.unit_size) ≢ none

  pub main_slot-lt :
      (s : FastStack A) (t : ℕ) → IsValid s → t < s.max_size → t / s.unit_size < length s.stacks
  main_slot-lt s t v h =
      rw v.slots ((le-div_iff_mul-le v.unit_pos).1 (omega (arith, div-mul-le_self t s.unit_size)))

  pub init-IsValid :
      (unit_size max_size : ℕ)
      → 0 < unit_size
      → max_size < 2 ^ 31
      → IsValid (init {A = A} unit_size max_size)
  unfolding init
  init-IsValid u m h k = record {
    unit_pos = h;
    small = k;
    end_in = omega arith;
    slots = length-replicate ((m + u - 1) / u) none;
    chunks = λ i. subst (IsChunk u) (sym (get_or-replicate ((m + u - 1) / u) none i)) tt;
    reached = λ t lt. absurd (omega (arith, lt));
  }
