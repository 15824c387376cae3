-- ===== src/Arena/Heap/Links.antt =====
-- What the list operations of include/coplus/arena/arena.h do to the headers.
use coplus.Prelude.{
  ℕ, zero, suc, ◌<◌, ◌≡◌, ◌≢◌, refl, ap, ◌∙◌, ◌&&◌, none, some, ◌==◌, length, get_or, get_or-set,
  length-set, if◌then◌else◌, arith,
}
use coplus.Arena.{Link, page_of, Arena, set_header, set_pri, set_next, set_span, linked_node_delete}
use coplus.Arena.Spans.{pop_span, push_span, unlink_span}
use coplus.Arena.Free.{keep_span}
use coplus.Arena.Heap.{pri_at, next_at, head_at}

-- Two arenas that differ in links and lists alone.
pub record SameChunks (a b : Arena) : Type 0 where
  pub heap_pages : b.heap_pages ≡ a.heap_pages
  pub is_head : b.is_head ≡ a.is_head
  pub bins : b.bins ≡ a.bins
  pub words : b.words ≡ a.words

set_pri-pri :
    (a : Arena) (l : Link) (p j : ℕ)
    → j ≢ 0
    → pri_at (set_pri a l p) j ≡ (if page_of l == j then p else pri_at a j)
set_pri-pri a none p j ne = ground arith
set_pri-pri a (some zero) p j ne = ground arith
set_pri-pri a (some (suc n)) p j ne = ground arith

pub set_pri-next :
    (a : Arena) (l : Link) (p j : ℕ) → ((set_pri a l p).headers j).next ≡ (a.headers j).next
set_pri-next a none p j = refl
set_pri-next a (some zero) p j = refl
set_pri-next a (some (suc n)) p j = ground arith

pub set_pri-flag :
    (a : Arena) (l : Link) (p j : ℕ) → ((set_pri a l p).headers j).flag ≡ (a.headers j).flag
set_pri-flag a none p j = refl
set_pri-flag a (some zero) p j = refl
set_pri-flag a (some (suc n)) p j = ground arith

pub set_pri-list : (a : Arena) (l : Link) (p : ℕ) → (set_pri a l p).span_list ≡ a.span_list
set_pri-list a none p = refl
set_pri-list a (some zero) p = refl
set_pri-list a (some (suc n)) p = refl

pub set_pri-chunks : (a : Arena) (l : Link) (p : ℕ) → SameChunks a (set_pri a l p)
set_pri-chunks a none p = record { heap_pages = refl; is_head = refl; bins = refl; words = refl }
set_pri-chunks a (some zero) p = record {
  heap_pages = refl;
  is_head = refl;
  bins = refl;
  words = refl;
}
set_pri-chunks a (some (suc n)) p = record {
  heap_pages = refl;
  is_head = refl;
  bins = refl;
  words = refl;
}

-- A page other than the one that is set keeps its header.
pub set_pri-other :
    (a : Arena) (l : Link) (p j : ℕ) → page_of l ≢ j → (set_pri a l p).headers j ≡ a.headers j
set_pri-other a none p j ne = refl
set_pri-other a (some zero) p j ne = refl
set_pri-other a (some (suc n)) p j ne = ground arith

set_next-next :
    (a : Arena) (p : ℕ) (l : Link) (j : ℕ)
    → j ≢ 0
    → ((set_next a p l).headers j).next ≡ (if p == j then l else (a.headers j).next)
set_next-next a zero l j ne = ground arith
set_next-next a (suc p) l j ne = ground arith

set_next-rest :
    (a : Arena) (p : ℕ) (l : Link) (j : ℕ)
    → (pri_at (set_next a p l) j ≡ pri_at a j)
      × (((set_next a p l).headers j).flag ≡ (a.headers j).flag)
      × (p ≢ j → (set_next a p l).headers j ≡ a.headers j)
set_next-rest a zero l j = (refl, refl, λ ne. refl)
set_next-rest a (suc p) l j = (ground arith, ground arith, λ ne. ground arith)

set_next-list : (a : Arena) (p : ℕ) (l : Link) → (set_next a p l).span_list ≡ a.span_list
set_next-list a zero l = refl
set_next-list a (suc p) l = refl

set_next-chunks : (a : Arena) (p : ℕ) (l : Link) → SameChunks a (set_next a p l)
set_next-chunks a zero l = record { heap_pages = refl; is_head = refl; bins = refl; words = refl }
set_next-chunks a (suc p) l = record {
  heap_pages = refl;
  is_head = refl;
  bins = refl;
  words = refl;
}

-- The page `h` is no longer in the list of `k` pages.
pub record Unlinked (a : Arena) (k h : ℕ) (b : Arena) : Type 0 where
  pub chunks : SameChunks a b
  pub flags : (j : ℕ) → (b.headers j).flag ≡ (a.headers j).flag
  pub nexts :
      (j : ℕ)
      → j ≢ 0
      → (b.headers j).next ≡ (if pri_at a h == j then (a.headers h).next else (a.headers j).next)
  pub pris : (j : ℕ) → j ≢ 0 → pri_at b j ≡ (if next_at a h == j then pri_at a h else pri_at a j)
  pub lists :
      (i : ℕ)
      → get_or b.span_list i (some 0) ≡ (
          if (k == i) && (pri_at a h == 0)
          then (a.headers h).next
          else get_or a.span_list i (some 0))
  pub entries : length b.span_list ≡ length a.span_list
  pub others : (j : ℕ) → next_at a h ≢ j → pri_at a h ≢ j → b.headers j ≡ a.headers j

pop-Unlinked :
    (a : Arena) (k h : ℕ)
    → pri_at a h ≡ 0
    → k < length a.span_list
    → Unlinked a k h (pop_span a k h)
unfolding pop_span
pop-Unlinked a k h z lt = record {
  chunks = chunks;
  flags = λ j. set_pri-flag a' next 0 j;
  nexts = λ j ne. set_pri-next a' next 0 j ∙ ground (arith, z);
  pris = λ j ne. set_pri-pri a' next 0 j ne ∙ ground (arith, z);
  lists = λ i.
      ap (λ l. get_or l i (some 0)) (set_pri-list a' next 0)
      ∙ get_or-set a.span_list k i next (some 0) lt
      ∙ ground (arith, z);
  entries = ap length (set_pri-list a' next 0) ∙ length-set a.span_list k next;
  others = λ j n p. set_pri-other a' next 0 j n;
}
  where
    next : Link
    next = (a.headers h).next

    a' : Arena
    a' = set_span a k next

    chunks : SameChunks a (set_pri a' next 0)
    chunks =
        let c = set_pri-chunks a' next 0 in
        record { heap_pages = c.heap_pages; is_head = c.is_head; bins = c.bins; words = c.words }

delete-Unlinked :
    (a : Arena) (k h : ℕ) → pri_at a h ≢ 0 → Unlinked a k h (linked_node_delete a (a.headers h))
unfolding linked_node_delete
delete-Unlinked a k h nz = record {
  chunks =
      let c = set_pri-chunks a' next (pri_at a h) in
      let d = set_next-chunks a (pri_at a h) next in
      record {
        heap_pages = c.heap_pages ∙ d.heap_pages;
        is_head = c.is_head ∙ d.is_head;
        bins = c.bins ∙ d.bins;
        words = c.words ∙ d.words;
      };
  flags = λ j. set_pri-flag a' next (pri_at a h) j ∙ (set_next-rest a (pri_at a h) next j).1;
  nexts = λ j ne. set_pri-next a' next (pri_at a h) j ∙ set_next-next a (pri_at a h) next j ne;
  pris = λ j ne.
      set_pri-pri a' next (pri_at a h) j ne
      ∙ ap (λ x. if page_of next == j then pri_at a h else x)
          (set_next-rest a (pri_at a h) next j).0;
  lists = λ i.
      ap (λ l. get_or l i (some 0))
        (set_pri-list a' next (pri_at a h) ∙ set_next-list a (pri_at a h) next)
      ∙ ground (arith, nz);
  entries = ap length (set_pri-list a' next (pri_at a h) ∙ set_next-list a (pri_at a h) next);
  others =
      λ j n p. set_pri-other a' next (pri_at a h) j n ∙ (set_next-rest a (pri_at a h) next j).2 p;
}
  where
    next : Link
    next = (a.headers h).next

    a' : Arena
    a' = set_next a (pri_at a h) next

pub unlink-Unlinked :
    (a : Arena) (k h : ℕ) → k < length a.span_list → Unlinked a k h (unlink_span a k h)
unfolding unlink_span
unlink-Unlinked a k h lt = go (pri_at a h) refl
  where
    go :
        (p : ℕ)
        → pri_at a h ≡ p
        → Unlinked a k h
            (elim p [ zero ↦ pop_span a k h | suc q ↦ linked_node_delete a (a.headers h) ])
    go zero e = pop-Unlinked a k h e lt
    go (suc q) e = delete-Unlinked a k h (λ z. ground arith)

-- The page at the front leaves by `pop_span` as by `unlink_span`.
pub pop-eq-unlink : (a : Arena) (k h : ℕ) → pri_at a h ≡ 0 → pop_span a k h ≡ unlink_span a k h
unfolding unlink_span
pop-eq-unlink a k h z = rw (unlink_span, z) refl

-- The page `h` is the first in the list of `k` pages.
pub record Pushed (a : Arena) (k h : ℕ) (b : Arena) : Type 0 where
  pub chunks : SameChunks a b
  pub flags : (j : ℕ) → (b.headers j).flag ≡ (a.headers j).flag
  pub nexts :
      (j : ℕ)
      → (b.headers j).next ≡ (if j == h then get_or a.span_list k (some 0) else (a.headers j).next)
  pub pri_self : pri_at b h ≡ 0
  pub pris : (j : ℕ) → h ≢ j → j ≢ 0 → pri_at b j ≡ (if head_at a k == j then h else pri_at a j)
  pub lists :
      (i : ℕ)
      → get_or b.span_list i (some 0) ≡ (if k == i then some h else get_or a.span_list i (some 0))
  pub entries : length b.span_list ≡ length a.span_list
  pub others : (j : ℕ) → j ≢ h → head_at a k ≢ j → b.headers j ≡ a.headers j

pub push-Pushed :
    (a : Arena) (k h : ℕ)
    → head_at a k ≢ h
    → k < length a.span_list
    → Pushed a k h (push_span a k h (get_or a.span_list k (some 0)))
unfolding push_span
push-Pushed a k h ne lt = record {
  chunks =
      let c = set_pri-chunks a' old h in
      record { heap_pages = c.heap_pages; is_head = c.is_head; bins = c.bins; words = c.words };
  flags = λ j. set_pri-flag a' old h j ∙ ground arith;
  nexts = λ j. set_pri-next a' old h j ∙ ground arith;
  pri_self = ap (λ hd. hd.pri) (set_pri-other a' old h h ne) ∙ ground arith;
  pris = λ j n z. set_pri-pri a' old h j z ∙ ground (arith, n);
  lists = λ i.
      get_or-set (set_pri a' old h).span_list k i (some h) (some 0)
        (omega (arith, ap length (set_pri-list a' old h)))
      ∙ ap (λ l. if k == i then some h else get_or l i (some 0)) (set_pri-list a' old h);
  entries = length-set (set_pri a' old h).span_list k (some h) ∙ ap length (set_pri-list a' old h);
  others = λ j n m. set_pri-other a' old h j m ∙ ground (arith, n);
}
  where
    old : Link
    old = get_or a.span_list k (some 0)

    a' : Arena
    a' = set_header a h (record (a.headers h) { pri = 0; next = old })

-- `Free` puts a span that it does not merge there too.
pub keep-Pushed :
    (a : Arena) (k h : ℕ)
    → head_at a k ≢ h
    → k < length a.span_list
    → Pushed a k h (keep_span k h (get_or a.span_list k (some 0)) a)
unfolding keep_span
keep-Pushed a k h ne lt =
    let old = get_or a.span_list k (some 0) in
    let c = set_pri-chunks a old h in
    record {
      chunks = record {
        heap_pages = c.heap_pages;
        is_head = c.is_head;
        bins = c.bins;
        words = c.words;
      };
      flags = λ j. ground (arith, set_pri-flag a old h j, set_pri-flag a old h h);
      nexts = λ j. ground (arith, set_pri-next a old h j);
      pri_self = ground arith;
      pris = λ j n z. ground (arith, n, set_pri-pri a old h j z);
      lists = λ i.
          get_or-set (set_pri a old h).span_list k i (some h) (some 0)
            (omega (arith, ap length (set_pri-list a old h), lt))
          ∙ ap (λ l. if k == i then some h else get_or l i (some 0)) (set_pri-list a old h);
      entries =
          length-set (set_pri a old h).span_list k (some h) ∙ ap length (set_pri-list a old h);
      others = λ j n m. ground (arith, n, set_pri-other a old h j m);
    }
