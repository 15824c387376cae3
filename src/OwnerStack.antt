-- ===== src/OwnerStack.antt =====
-- The specialisation of `PushOnlyFastStack` for `std::unique_ptr` in include/coplus/fast_queue.h: the
-- same vector, of owning pointers. A pointer is the number of its object, and a `unique_ptr` is
-- empty or owns one.
pub mod Owned
pub mod Deleted
pub mod Pushes
mod Tests
use mathlib.Core.List.{reverse}
use coplus.Prelude.{
  ℕ, ◌-◌, ◌*◌, ◌/◌, ℤ, List, [], ◌∷◌, ◌++◌, Bool, Option, none, some, leb, if◌then◌else◌, get_or,
}
use coplus.FastStack
use coplus.FastStack.{FastStack, to_size, chunk_or_new}

abbrev pub OwnerStack : Type 0
OwnerStack = FastStack (Option ℕ)

-- `get`, with the bare pointer that the cell owns.
unfoldable pub get : OwnerStack → ℤ → Option ℕ → Option (Bool × Option ℕ)
get s token ret = FastStack.get s token ret

-- What the cell of the next token owns, which the assignment to it deletes: nothing where the push
-- is refused.
unfoldable pub displaced : OwnerStack → Option ℕ
unfolding chunk_or_new
displaced s =
    if leb s.max_size (to_size s.end)
    then none
    else (let main_slot = s.end / s.unit_size in
        let sub_slot = s.end - main_slot * s.unit_size in
        get_or (chunk_or_new none s.unit_size (get_or s.stacks main_slot none)) sub_slot none)

-- `push` of a bare pointer, or of an owner that it moves from: the token or -1, the stack, and
-- the object that is deleted.
unfoldable pub push : OwnerStack → ℕ → ℤ × OwnerStack × Option ℕ
unfolding displaced
push s new_item =
    let (token, s') = FastStack.push none s (some new_item) in (token, s', displaced s)

-- The objects that the cells of a chunk own.
abbrev pub owned : List (Option ℕ) → List ℕ
owned [] = []
owned (none ∷ cells) = owned cells
owned (some x ∷ cells) = x ∷ owned cells

-- `delete []` of a chunk, or of a null pointer: the objects that are deleted, in this order. The cells
-- go from the last to the first.
abbrev pub delete_chunk : Option (List (Option ℕ)) → List ℕ
delete_chunk none = []
delete_chunk (some chunk) = reverse (owned chunk)

abbrev pub delete_chunks : List (Option (List (Option ℕ))) → List ℕ
delete_chunks [] = []
delete_chunks (c ∷ cs) = delete_chunk c ++ delete_chunks cs

-- The destructor: the objects that it deletes, in this order.
unfoldable pub delete_stack : OwnerStack → List ℕ
delete_stack s = delete_chunks s.stacks
