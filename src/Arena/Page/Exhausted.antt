-- ===== src/Arena/Page/Exhausted.antt =====
-- A page of objects after its last object was handed out: `oFree` is 0 there.
use coplus.Prelude.{ℕ, ◌+◌, ◌*◌, ◌≤◌, ◌≡◌, ap, ◌∙◌, assign, arith}
use coplus.Arena.{Arena, page_len}
use coplus.Arena.Sizes.{template, bin_span_size}
use coplus.Arena.Malloc.{take_object}
use coplus.Arena.Free.{flush_object}
use coplus.Arena.Page.{take-offset, take_unborn, flush_effect, start}

-- Where all objects of a page were handed out and then one is freed that is not the last, the next
-- two calls of `Malloc` on the page get that object and the one behind it, which was never freed.
pub second_take-is_live :
    (slot h b o : ℕ) (a : Arena)
    → (a.headers h).free_offset ≡ 0
    → o + template slot * 2 ≤ bin_span_size slot * page_len
    → let a' = flush_object (h * page_len + o) slot h b a in
      let (p, a'') = take_object slot h a' in
      (p ≡ h * page_len + o) × ((take_object slot h a'').0 ≡ h * page_len + (o + template slot))
second_take-is_live slot h b o a used_up room = (
  take-offset slot h a' ∙ ap (λ x. h * page_len + x) e.0,
  take-offset slot h (take_object slot h a').1
      ∙ ap (λ x. h * page_len + x)
          ((take_unborn slot h a' zero_word (rw e.0 room)).0 ∙ ap (λ x. x + template slot) e.0),
)
  where
    a' : Arena
    a' = flush_object (h * page_len + o) slot h b a

    e :
        ((a'.headers h).free_offset ≡ o)
        × (a'.words ≡ assign a.words (h * page_len + o) (start slot h a))
    e = flush_effect slot h a o b

    zero_word : a'.words (h * page_len + start slot h a') ≡ 0
    zero_word = rw (e.0, e.1) (ground (arith, used_up))
