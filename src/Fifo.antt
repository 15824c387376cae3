-- ===== src/Fifo.antt =====
-- The abstract bounded first-in first-out queue that the rings of include/coplus/fast_queue.h are
-- held against: a list, oldest first.
use coplus.Prelude.{
  ℕ, ◌≡◌, refl, List, [], ◌∷◌, ◌++◌, Bool, true, false, ◌==◌, if◌then◌else◌, length,
}

module _ {A : Type 0} where
  -- The front comes out; from an empty queue nothing does, and `ret` stays.
  abbrev pub pop : List A → A → Bool × A × List A
  pop [] ret = (false, ret, [])
  pop (x ∷ xs) ret = (true, x, xs)

  -- A full queue refuses.
  abbrev pub push : ℕ → List A → A → Bool × List A
  push cap xs x = if length xs == cap then (false, xs) else (true, xs ++ x ∷ [])

  -- An item that was let in or out, or none.
  abbrev pub when : Bool → A → List A
  when b x = if b then x ∷ [] else []

  pub pop-eq : (xs : List A) (ret : A) → xs ≡ when (pop xs ret).0 (pop xs ret).1 ++ (pop xs ret).2
  pop-eq [] ret = refl
  pop-eq (x ∷ xs) ret = refl
