-- ===== src/Arena/Page/Fresh.antt =====
-- A span that becomes a page of objects.
use coplus.Prelude.{
  ℕ, zero, suc, ◌+◌, ◌*◌, ◌≤◌, ◌<◌, ◌≡◌, refl, ◌∙◌, [], true, false, none, some, assign, arith,
}
use coplus.Arena.{Link, Header, Arena, set_pri, set_header, page_len, page_header_size}
use coplus.Arena.Sizes.{template, bin_span_size}
use coplus.Arena.Malloc.{start_page, bin_flag}
use coplus.Arena.Page.{IsPlace, IsPage}

-- Lists of pages do not show in the pages' objects.
pub free_offset-set_pri :
    (a : Arena) (l : Link) (p h : ℕ)
    → ((set_pri a l p).headers h).free_offset ≡ (a.headers h).free_offset
free_offset-set_pri a none p h = refl
free_offset-set_pri a (some zero) p h = refl
free_offset-set_pri a (some (suc n)) p h = ground arith

pub words-set_pri : (a : Arena) (l : Link) (p : ℕ) → (set_pri a l p).words ≡ a.words
words-set_pri a none p = refl
words-set_pri a (some zero) p = refl
words-set_pri a (some (suc n)) p = refl

-- A new page has one object, at the front, and the others are to be handed out.
pub start_page-IsPage :
    (slot h : ℕ) (old : Link) (a : Arena)
    → 0 < template slot
    → 16 + template slot * 2 ≤ bin_span_size slot * page_len
    → let (p, a') = start_page slot h old a in
      (p ≡ h * page_len + 16)
      × IsPage slot h (assign (λ _. false) 16 true) [] (16 + template slot) a'
unfolding start_page
start_page-IsPage slot h old a some_bytes room = (
  refl,
  record {
    chain = (offset, zero_word);
    are_free = tt;
    end_place = (1, omega arith, omega arith);
    unborn = λ o le. ground arith;
    placed = λ o e. first o e;
  },
)
  where
    hd : Header
    hd = record {
      flag = bin_flag slot;
      pri = 0;
      next = old;
      free_offset = page_header_size + template slot;
      used = 1;
    }

    offset : ((start_page slot h old a).1.headers h).free_offset ≡ 16 + template slot
    offset = free_offset-set_pri (set_header a h hd) old h h ∙ ground arith

    zero_word : (start_page slot h old a).1.words (h * page_len + (16 + template slot)) ≡ 0
    zero_word = ground arith

    first : (o : ℕ) → assign (λ _. false) 16 true o ≡ true → IsPlace slot o
    first o e =
        let same : o ≡ 16 = ground arith in (0, omega (arith, same), omega (arith, same, room))
