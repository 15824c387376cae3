-- ===== src/Client/Lives.antt =====
-- Clients that are constructed, copied, moved, used and destroyed.
use coplus.Prelude.{ℕ, ◌≡◌, false, Option, none, some, assign}
use coplus.Text.{Text}
use coplus.Client.{
  Sockets, Client, Memory, new_client, move_client, copy_client, delete_client, connect, close,
  receive,
}

-- The clients that are alive, by a number for each.
pub record Objects : Type 0 where
  pub clients : ℕ → Option Client
  pub memory : Memory

abbrev pub start : Objects
start = record {
  clients = λ i. none;
  memory = record { made = 0; is_deleted = λ p. false; deleted_twice = 0 };
}

-- A client `i` with its memory.
abbrev pub put : ℕ → Client × Memory → Objects → Objects
put i (k, m) s = record { clients = assign s.clients i (some k); memory = m }

abbrev pub moved : ℕ → ℕ → Client × Client → Objects → Objects
moved i j (k, rest) s = record s { clients = assign (assign s.clients i (some rest)) j (some k) }

-- What may happen next. The calls of a client are made on any network.
pub data Life {Net Address : Type 0} (lib : Sockets Net Address) (s : Objects)
    : Objects → Type 0 where
  constructs :
      (j bufflen : ℕ) → s.clients j ≡ none → Life lib s (put j (new_client bufflen s.memory) s)
  copies :
      (i j : ℕ) (k : Client)
      → s.clients i ≡ some k
      → s.clients j ≡ none
      → Life lib s (put j (copy_client k s.memory) s)
  moves :
      (i j : ℕ) (k : Client)
      → s.clients i ≡ some k
      → s.clients j ≡ none
      → Life lib s (moved i j (move_client k) s)
  connects :
      (i : ℕ) (k : Client) (ip port : Text) (n : Net)
      → s.clients i ≡ some k
      → Life lib s (put i ((connect lib ip port k n).0.0, s.memory) s)
  closes :
      (i : ℕ) (k : Client) (n : Net)
      → s.clients i ≡ some k
      → Life lib s (put i ((close lib k n).0, s.memory) s)
  receives :
      (i : ℕ) (k : Client) (n : Net)
      → s.clients i ≡ some k
      → Life lib s (put i ((receive lib k n).0.0, s.memory) s)
  destroys :
      (i : ℕ) (k : Client)
      → s.clients i ≡ some k
      → Life lib s (record { clients = assign s.clients i none; memory = delete_client k s.memory })

pub data Reach {Net Address : Type 0} (lib : Sockets Net Address) : Objects → Type 0 where
  starts : Reach lib start
  later : {s s' : Objects} → Reach lib s → Life lib s s' → Reach lib s'

abbrev pub buffer_of : Option Client → Option ℕ
buffer_of none = none
buffer_of (some k) = k.buffer
