-- ===== src/Arena/Heap/Linked.antt =====
-- Doubly linked lists of pages, by what holds at each page: `free` has the size of a free page, and
-- `head` the first page of each size; the page 0 is the end.
use coplus.Prelude.{ℕ, ◌≡◌, ◌≢◌, ◌&&◌, Option, none, some, ◌==◌, if◌then◌else◌, arith}

pub record IsLinked (free : ℕ → Option ℕ) (pri next head : ℕ → ℕ) : Type 0 where
  pub no_page : free 0 ≡ none
  pub after : (h k : ℕ) → free h ≡ some k → next h ≢ 0 → free (next h) ≡ some k
  pub back : (h k : ℕ) → free h ≡ some k → next h ≢ 0 → pri (next h) ≡ h
  pub first : (h k : ℕ) → free h ≡ some k → pri h ≡ 0 → head k ≡ h
  pub before : (h k : ℕ) → free h ≡ some k → pri h ≢ 0 → free (pri h) ≡ some k
  pub forth : (h k : ℕ) → free h ≡ some k → pri h ≢ 0 → next (pri h) ≡ h
  pub is_free : (k : ℕ) → head k ≢ 0 → free (head k) ≡ some k
  pub at_front : (k : ℕ) → head k ≢ 0 → pri (head k) ≡ 0

-- A page goes to the front of the list of its size.
module _ {free free' : ℕ → Option ℕ} {pri next head pri' next' head' : ℕ → ℕ}
    (l : IsLinked free pri next head) (h k : ℕ) where
  pub insert-IsLinked :
      h ≢ 0
      → free h ≡ none
      → ((j : ℕ) → free' j ≡ (if h == j then some k else free j))
      → next' h ≡ head k
      → ((j : ℕ) → h ≢ j → next' j ≡ next j)
      → pri' h ≡ 0
      → ((j : ℕ) → h ≢ j → j ≢ 0 → pri' j ≡ (if head k == j then h else pri j))
      → ((i : ℕ) → head' i ≡ (if k == i then h else head i))
      → IsLinked free' pri' next' head'
  insert-IsLinked pos_h f f' n_h n' p_h p' hd' = record {
    no_page = rw (f' 0) (grind (arith, l.no_page));
    after = λ g i e ne. ground (arith, f' g, f' (next' g), n' g, l.after g i, l.is_free k);
    back = λ g i e ne. ground (
      arith,
      f' g,
      f' (next' g),
      n' g,
      p' (next' g),
      l.back g i,
      l.after g i,
      l.is_free k,
      l.at_front k,
      l.no_page,
    );
    first = λ g i e z. ground (arith, f' g, p' g, hd' i, l.first g i, l.no_page);
    before = λ g i e nz. ground (arith, f' g, f' (pri' g), p' g, l.before g i, l.is_free k);
    forth =
        λ g i e nz. ground (arith, f' g, p' g, n' (pri' g), l.forth g i, l.before g i, l.is_free k);
    is_free = λ i ne. ground (arith, hd' i, f' (head' i), l.is_free i);
    at_front = λ i ne. ground (arith, hd' i, p' (head' i), l.is_free i, l.is_free k, l.at_front i);
  }

  -- A free page leaves the list of its size, wherever it stands.
  pub remove-IsLinked :
      free h ≡ some k
      → ((j : ℕ) → free' j ≡ (if h == j then none else free j))
      → ((j : ℕ) → h ≢ j → j ≢ 0 → next' j ≡ (if pri h == j then next h else next j))
      → ((j : ℕ) → h ≢ j → j ≢ 0 → pri' j ≡ (if next h == j then pri h else pri j))
      → ((i : ℕ) → head' i ≡ (if (k == i) && (pri h == 0) then next h else head i))
      → IsLinked free' pri' next' head'
  remove-IsLinked f f' n' p' hd' = record {
    no_page = ground (arith, f' 0, l.no_page);
    after = λ g i e ne. ground (
      arith,
      f' g,
      f' (next' g),
      n' g,
      l.after g i,
      l.after h k,
      l.back g i,
      l.back h k,
      l.before h k,
      l.forth h k,
      l.no_page,
    );
    back = λ g i e ne. ground (
      arith,
      f' g,
      n' g,
      p' (next' g),
      l.after g i,
      l.after h k,
      l.back g i,
      l.back h k,
      l.before h k,
      l.forth h k,
      l.no_page,
    );
    first = λ g i e z.
        ground
          (arith, f' g, p' g, hd' i, l.first g i, l.first h k, l.back h k, l.after h k, l.no_page);
    before = λ g i e nz. ground (
      arith,
      f' g,
      f' (pri' g),
      p' g,
      l.before g i,
      l.before h k,
      l.forth g i,
      l.forth h k,
      l.after h k,
      l.back h k,
      l.no_page,
    );
    forth = λ g i e nz. ground (
      arith,
      f' g,
      p' g,
      n' (pri' g),
      l.forth g i,
      l.forth h k,
      l.before g i,
      l.before h k,
      l.after h k,
      l.back h k,
      l.no_page,
    );
    is_free = λ i ne.
        ground (arith, hd' i, f' (head' i), l.is_free i, l.after h k, l.back h k, l.at_front i);
    at_front = λ i ne. ground (
      arith,
      hd' i,
      p' (head' i),
      l.is_free i,
      l.after h k,
      l.back h k,
      l.at_front i,
      l.first h k,
    );
  }

-- Only what stands at free pages counts.
pub cong-IsLinked :
    {free free' : ℕ → Option ℕ} {pri next head pri' next' head' : ℕ → ℕ}
    → IsLinked free pri next head
    → ((j : ℕ) → free' j ≡ free j)
    → ((j k : ℕ) → free j ≡ some k → (pri' j ≡ pri j) × (next' j ≡ next j))
    → ((i : ℕ) → head' i ≡ head i)
    → IsLinked free' pri' next' head'
cong-IsLinked {pri' = pri'} {next' = next'} {head' = head'} l f' pn hd' = record {
  no_page = ground (arith, f' 0, l.no_page);
  after = λ g i e ne. ground (arith, f' g, f' (next' g), pn g i, l.after g i);
  back = λ g i e ne. ground (arith, f' g, pn g i, pn (next' g) i, l.after g i, l.back g i);
  first = λ g i e z. ground (arith, f' g, pn g i, hd' i, l.first g i);
  before = λ g i e nz. ground (arith, f' g, f' (pri' g), pn g i, l.before g i);
  forth = λ g i e nz. ground (arith, f' g, pn g i, pn (pri' g) i, l.before g i, l.forth g i);
  is_free = λ i ne. ground (arith, hd' i, f' (head' i), l.is_free i);
  at_front = λ i ne. ground (arith, hd' i, pn (head' i) i, l.is_free i, l.at_front i);
}
