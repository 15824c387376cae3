-- ===== src/LocalQueue/Tests.antt =====
-- Runs of `FastLocalQueue`, one call at a time, also where the counters wrap.
use coplus.Prelude.{ℕ, ◌-◌, ◌^◌, ◌≡◌, refl, List, [], ◌∷◌, Bool, arith}
use coplus.Fifo
use coplus.LocalQueue.{LocalQueue, push, pop, size}
use coplus.LocalQueue.Refine.{IsQuiet, contents, push-IsQuiet, calls_refine}

-- 7 and 8, the second in the slot after the wrap of the counters; one `push` had been refused.
abbrev at_wrap : LocalQueue ℕ
at_wrap = record {
  enqueue_count = 2;
  enqueue_revoke = 1;
  dequeue_count = 2 ^ 32 - 1;
  dequeue_revoke = 0;
  head = 2 ^ 32 - 1;
  tail = 1;
  head_fast = 2 ^ 32 - 1;
  tail_fast = 1;
  cells = 8 ∷ 7 ∷ [];
}

at_wrap-IsQuiet : IsQuiet 2 at_wrap
at_wrap-IsQuiet = omega arith

at_wrap-contents : contents 0 2 at_wrap ≡ 7 ∷ 8 ∷ []
unfolding size
at_wrap-contents = refl

calls_refine_example :
    (◌≡◌ {A = Bool × List ℕ}
      ((push 2 at_wrap 9).0, contents 0 2 (push 2 at_wrap 9).1)
      (Fifo.push 2 (contents 0 2 at_wrap) 9))
    × (◌≡◌ {A = Bool × ℕ × List ℕ}
        ((pop 2 at_wrap 0).0, (pop 2 at_wrap 0).1, contents 0 2 (pop 2 at_wrap 0).2)
        (Fifo.pop (contents 0 2 at_wrap) 0))
calls_refine_example = calls_refine 0 2 at_wrap 9 0 at_wrap-IsQuiet

push-IsQuiet_example : IsQuiet 2 (push 2 at_wrap 9).1
push-IsQuiet_example = push-IsQuiet 2 at_wrap 9 at_wrap-IsQuiet
