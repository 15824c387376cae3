-- ===== src/OwnerStack/Tests.antt =====
-- Runs of the stack of owners, and the theorem at one.
use coplus.Prelude.{Perm, ◌≡◌, refl, [], ◌∷◌, pos, none, some, true, arith}
use coplus.FastStack
use coplus.FastStack.{init}
use coplus.OwnerStack.{OwnerStack, push, get, displaced, delete_stack}
use coplus.OwnerStack.Pushes.{push_all, pushes-deleted_once}

abbrev empty : OwnerStack
empty = init 2 4

-- Object 7 goes in under token 0, and the next push deletes nothing.
abbrev one_owner : OwnerStack
one_owner = (push empty 7).1

one_owner_runs :
    (get one_owner (pos 0) none ≡ some (true, some 7))
    × (get one_owner (pos 1) none ≡ some (true, none))
unfolding push get FastStack.push FastStack.get init
one_owner_runs = (refl, refl)

-- The fifth object finds no place, and is not deleted with the others.
pushes-deleted_once_example :
    let (s, deleted) = push_all (7 ∷ 8 ∷ 9 ∷ 5 ∷ 6 ∷ []) (init 2 4) in
    (deleted ≡ []) × Perm (delete_stack s) (7 ∷ 8 ∷ 9 ∷ 5 ∷ [])
pushes-deleted_once_example =
    pushes-deleted_once 2 4 (7 ∷ 8 ∷ 9 ∷ 5 ∷ 6 ∷ []) (omega arith) (omega arith) (omega arith)

-- The cells of a chunk go from the last to the first.
deleted_backwards :
    delete_stack (push_all (7 ∷ 8 ∷ 9 ∷ 5 ∷ 6 ∷ []) (init 2 4)).0 ≡ 8 ∷ 7 ∷ 5 ∷ 9 ∷ []
unfolding push displaced FastStack.push init delete_stack
deleted_backwards = refl
