-- ===== src/LocalQueue/Threads/Linear.antt =====
-- With one consumer a `FastLocalQueue` is first-in first-out under every interleaving: what `pop`
-- reads, in order, is a prefix of what `push` writes, in order.
pub mod Moves
pub mod Fifo
use native.Mathlib.Nat.{mod-lt}
use coplus.Prelude.{
  ℕ, zero, suc, ◌+◌, ◌-◌, ◌%◌, ◌≤◌, ◌<◌, ◌^◌, ◌≡◌, refl, sym, ap, ap₂, ◌∙◌, List, [], ◌∷◌, ◌++◌,
  append-nil, append_assoc, length, length-append, length-set, length-replicate, get_or, set, tally,
  tally-suc, tally-zero, add32, arith,
}
use coplus.LocalQueue.{LocalQueue, init}
use coplus.LocalQueue.Refine.{window, window-set, window-suc}
use coplus.LocalQueue.Threads.{
  Pc, Producer, Pop, Push, System, produce, consume, Reach, here, later,
}
use coplus.LocalQueue.Threads.Safety.{Reach-Inv, claimed-is_published}
use coplus.LocalQueue.Threads.Capacity.{holds, Reach-Account, Reach-capacity}

module _ {A : Type 0} where
  abbrev pub written_by :
      {q : ℕ} {m m' : LocalQueue A} {p p' : Producer A} → Push q m p m' p' → List A
  written_by (Push.write {x} {slot}) = x ∷ []
  written_by mv = []

  abbrev pub read_by :
      {d : A} {q : ℕ} {m m' : LocalQueue A} {p p' : Pc A} → Pop d q m p m' p' → List A
  read_by {d} {q} {m} (Pop.read {slot}) = get_or m.cells (slot % q) d ∷ []
  read_by mv = []

  -- What the calls of `push` have written and those of `pop` have read on the way to a state.
  unfoldable pub written_in : {d : A} {q n k : ℕ} {s : System A} → Reach d q n k s → List A
  written_in here = []
  written_in (later r (produce mv)) = written_in r ++ written_by mv
  written_in (later r (consume i lt mv)) = written_in r

  unfoldable pub read_in : {d : A} {q n k : ℕ} {s : System A} → Reach d q n k s → List A
  read_in here = []
  read_in (later r (produce mv)) = read_in r
  read_in (later r (consume i lt mv)) = read_in r ++ read_by mv

  -- A written item that is not yet published; a claimed slot that is not yet read.
  abbrev pub unpublished : Producer A → ℕ
  unpublished Producer.written = 1
  unpublished _ = 0

  abbrev pub unread : Pc A → ℕ
  unread (Pc.claimed a) = 1
  unread _ = 0

  pub record Linear (d : A) (q : ℕ) (m : LocalQueue A) (p : Producer A) (c : Pc A) (ws rs : List A)
      : Type 0 where
    pub rest : ℕ
    pub capacity : length m.cells ≡ q
    pub wrote : length ws ≡ m.tail + unpublished p
    pub took : length rs + unread c ≡ m.head_fast
    pub next : (a : ℕ) → c ≡ Pc.claimed a → a ≡ length rs
    pub ahead : length rs + rest ≡ length ws
    pub items : ws ≡ rs ++ window d q m.cells (length rs) rest
