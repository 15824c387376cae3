-- ===== src/Arena.antt =====
-- `Arena` of include/coplus/arena/arena.h: the tables, the page headers and the words that objects
-- hold. An address is counted from `PtrOf(0)`, so that page `h` starts at `4096 * h`.
pub mod Sizes
pub mod Spans
pub mod Malloc
pub mod Free
pub mod Page
pub mod Heap
pub mod Allocator
mod Tests
use coplus.Prelude.{
  ℕ, zero, suc, ◌+◌, ◌*◌, ◌≡◌, ℤ, pos, negsuc, List, Bool, true, false, Option, none, some, ltb,
  set, assign, replicate,
}

-- A `PageHandle` in a table or a header: `none` is -1, for occupied, and `some 0` the end.
abbrev pub Link : Type 0
Link = Option ℕ

abbrev pub is_page : Link → Bool
is_page none = false
is_page (some h) = ltb 0 h

-- The handle behind a link that is read as one.
abbrev pub page_of : Link → ℕ
page_of none = 0
page_of (some h) = h

-- `SpanHeader` and `PageHeader`, which share their first fields. `flag` is the size of a span in
-- pages, or minus the bin slot of a page of objects.
pub record Header : Type 0 where
  pub flag : ℤ
  pub pri : ℕ
  pub next : Link
  pub free_offset : ℕ
  pub used : ℕ

-- `words` has the two bytes at each address, as `oFree` of a free object.
pub record Arena : Type 0 where
  pub heap_pages : ℕ
  pub is_head : ℕ → Bool
  pub bins : List Link
  pub span_list : List Link
  pub headers : ℕ → Header
  pub words : ℕ → ℕ

-- A read outside a table is a fault; `bad_alloc` is the exception.
pub data Result (A : Type 0) : Type 0 where
  fault : Result A
  bad_alloc : Result A
  done : A → Result A

infixl 5 ◌>>=◌
abbrev pub ◌>>=◌ : {A B : Type 0} → Result A → (A → Result B) → Result B
fault >>= f = fault
bad_alloc >>= f = bad_alloc
done a >>= f = f a

abbrev pub page_total_size : ℕ
page_total_size = 180224

abbrev pub span_slot_size : ℕ
span_slot_size = 60

abbrev pub bin_slot_size : ℕ
bin_slot_size = 39

abbrev pub span_header_size : ℕ
span_header_size = 12

abbrev pub page_header_size : ℕ
page_header_size = 16

abbrev pub page_len : ℕ
page_len = 4096

abbrev pub self_reserved_page : ℕ
self_reserved_page = 6

-- A table as code reads it: outside it is a fault.
abbrev pub from_table : {A : Type 0} → Option A → Result A
from_table none = fault
from_table (some a) = done a

-- Assignments to fields of the header of a page.
abbrev pub set_header : Arena → ℕ → Header → Arena
set_header a h hd = record a { headers = assign a.headers h hd }

abbrev pub set_pri : Arena → Link → ℕ → Arena
set_pri a none p = a
set_pri a (some zero) p = a
set_pri a (some (suc n)) p = set_header a (suc n) (record (a.headers (suc n)) { pri = p })

abbrev pub set_next : Arena → ℕ → Link → Arena
set_next a zero l = a
set_next a (suc p) l = set_header a (suc p) (record (a.headers (suc p)) { next = l })

abbrev pub set_span : Arena → ℕ → Link → Arena
set_span a k l = record a { span_list = set a.span_list k l }

abbrev pub set_bin : Arena → ℕ → Link → Arena
set_bin a k l = record a { bins = set a.bins k l }

-- `LinkedNodeMerge` and `LinkedNodeDelete`
unfoldable pub linked_node_delete : Arena → Header → Arena
linked_node_delete a node = set_pri (set_next a node.pri node.next) node.next node.pri
