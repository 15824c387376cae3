-- ===== src/SlowQueue/Tests.antt =====
-- Runs of `SlowQueue` on small rings, and the theorems at those inputs.
use coplus.Prelude.{ℕ, ◌≡◌, refl, List, [], ◌∷◌, ◌++◌, true, Perm, arith}
use coplus.Fifo
use coplus.SlowQueue.{SlowQueue, push, pop}
use coplus.SlowQueue.Order.{IsValid, contents}
use coplus.SlowQueue.Refine.{ring_push, ring_calls_refine}
use coplus.SlowQueue.Bag.{Call, put, get, run, run-perm}

abbrev empty : SlowQueue ℕ
empty = record { max_size = 3; ring = 0 ∷ 0 ∷ 0 ∷ []; head = 0; tail = 0 }

-- 7, then 8, round the end of the ring
abbrev wrapped : SlowQueue ℕ
wrapped = record { max_size = 3; ring = 8 ∷ 5 ∷ 7 ∷ []; head = 2; tail = 1 }

abbrev almost : SlowQueue ℕ
almost = record { max_size = 3; ring = 1 ∷ 2 ∷ 0 ∷ []; head = 0; tail = 2 }

wrapped-IsValid : IsValid wrapped
wrapped-IsValid = omega arith

almost-IsValid : IsValid almost
almost-IsValid = omega arith

abbrev script : List (Call ℕ)
script = put 1 ∷ put 2 ∷ put 3 ∷ put 4 ∷ get ∷ get ∷ get ∷ get ∷ []

-- Three tokens that fill an empty ring come out as 2, 3, 1.
script_given : (run 0 empty script).given ≡ 2 ∷ 3 ∷ 1 ∷ []
unfolding run push pop
script_given = refl

ring_calls_refine_example :
    (((push almost 3).0, contents 0 (push almost 3).1) ≡ ring_push 3 true (contents 0 almost) 3)
    × (((pop almost 9).0, (pop almost 9).1, contents 0 (pop almost 9).2)
        ≡ Fifo.pop (contents 0 almost) 9)
ring_calls_refine_example = ring_calls_refine 0 almost 3 9 almost-IsValid

run-perm_example :
    let t = run 0 wrapped script in
    Perm (t.taken ++ contents 0 wrapped) (t.given ++ contents 0 t.left) × IsValid t.left
run-perm_example = run-perm 0 0 wrapped script wrapped-IsValid
