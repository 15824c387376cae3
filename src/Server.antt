-- ===== src/Server.antt =====
-- `Server` of include/coplus/socket.h: the clients it knows, and the threads of `Serve`. The calls
-- of the socket library, and what they act on, are parameters.
pub mod Tracking
pub mod Serving
pub mod Opening
mod Tests
use mathlib.Core.Option
use coplus.Prelude.{
  ℕ, zero, suc, ◌+◌, ◌-◌, ℤ, pos, negsuc, List, [], ◌∷◌, ◌++◌, Bool, true, false, Option, none,
  some, length, get_elem?, set, if◌then◌else◌, not, ◌&&◌, ◌≡◌,
}
use coplus.Text.{Text}
use coplus.Protocol.Format.{int_text}

-- `ClientSocketInfo`
pub record Entry : Type 0 where
  handle : ℕ
  addr : Text
  status : Bool

-- `delegated_list` has the sockets that are served.
pub record Server : Type 0 where
  database : List Entry
  is_close : Bool
  delegated_list : List ℕ

abbrev pub new_server : Server
new_server = record { database = []; is_close = false; delegated_list = [] }

abbrev pub on_off : Bool → Text
on_off true = 111 ∷ 110 ∷ []
on_off false = 111 ∷ 102 ∷ 102 ∷ []

-- The cells that `OutputDatabase` adds, from the client `id` on.
abbrev pub database_cells : ℕ → List Entry → List Text
database_cells id [] = []
database_cells id (e ∷ es) = int_text id ∷ e.addr ∷ on_off e.status ∷ database_cells (suc id) es

unfoldable pub output_database : Server → List Text → List Text → List Text × List Text
output_database s header entries = (
  header
      ++ (105 ∷ 100 ∷ [])
        ∷ (97 ∷ 100 ∷ 100 ∷ 114 ∷ 101 ∷ 115 ∷ 115 ∷ [])
        ∷ (115 ∷ 116 ∷ 97 ∷ 116 ∷ 117 ∷ 115 ∷ [])
        ∷ [],
  entries ++ database_cells 0 s.database,
)

-- `none` is `INVALID_SOCKET`.
abbrev pub get_client : Server → ℤ → Option ℕ
get_client s (negsuc n) = none
get_client s (pos id) = Option.map (λ e. e.handle) (get_elem? s.database id)

abbrev pub get_addr : Server → ℤ → Text
get_addr s (negsuc n) = []
get_addr s (pos id) = elim (get_elem? s.database id) [ none ↦ [] | some e ↦ e.addr ]

-- What `recv` gives: bytes, the other side's end, or an error.
pub data Received : Type 0 where
  received : Text → Received
  ended : Received
  failed : Received

-- A thread of `Serve`, with its socket and the place of its client.
pub record Connection : Type 0 where
  socket : ℕ
  id : ℕ
  is_live : Bool

-- Where the thread that calls `Serve` stands.
pub data Acceptor : Type 0 where
  accepting : Acceptor
  registered : ℕ → Acceptor
  checking : Acceptor
  joining : Acceptor
  returned : Bool → Acceptor

-- The socket library.
pub record Sockets (Net : Type 0) : Type 0 where
  listen : ℕ → Net → Net × Bool
  accept : ℕ → Net → Net × Option ℕ
  recv : ℕ → Net → Net × Received
  send : ℕ → Text → Net → Net × Bool
  closesocket : ℕ → Net → Net
  get_peer_addr : ℕ → Net → Text

pub record Serve (Net : Type 0) : Type 0 where
  server : Server
  net : Net
  acceptor : Acceptor
  threads : List Connection

-- The thread of the client with a socket, which is taken to stand last in the database.
abbrev pub new_connection : ℕ → List Entry → Connection
new_connection c database = record { socket = c; id = length database - 1; is_live = true }

abbrev pub AllEnded : List Connection → Type 0
AllEnded [] = Unit
AllEnded (c ∷ cs) = (c.is_live ≡ false) × AllEnded cs

module _ {Net : Type 0} (lib : Sockets Net) where
  -- `Close`, from any thread.
  abbrev pub close_all : List ℕ → Net → Net
  close_all [] n = n
  close_all (h ∷ hs) n = close_all hs (lib.closesocket h n)

  abbrev pub close : Server → Net → Server × Net
  close s n = (record s { is_close = true }, close_all s.delegated_list n)

  -- `CloseClient`
  abbrev pub close_client : ℕ → Server → Net → Server × Net
  close_client id s n = elim (get_elem? s.database id) [
    | none ↦ (s, n)
    | some e ↦ (
      record s { database = set s.database id (record e { status = false }) },
      lib.closesocket e.handle n,
    )
  ]

  -- `Send`; true when nothing went wrong.
  abbrev pub send : ℕ → Text → Net → Net × Bool
  send target [] n = (n, true)
  send target (c ∷ message) n = lib.send target (c ∷ message) n

  -- The replies are sent up to the first that fails.
  abbrev pub send_all : ℕ → List Text → Net → Net × Bool
  send_all c [] n = (n, true)
  send_all c (r ∷ rs) n =
      let (n', ok) = send c r n in elim ok [ true ↦ send_all c rs n' | false ↦ (n', false) ]

  -- The listening socket is delegated to the server, and it listens.
  unfoldable pub start_serve : ℕ → Server → Net → Serve Net
  start_serve server s n =
      let s' = record s { delegated_list = s.delegated_list ++ server ∷ [] } in
      let (n', ok) = lib.listen server n in
      record {
        server = s';
        net = if ok then n' else lib.closesocket server n';
        acceptor = if ok then accepting else returned false;
        threads = [];
      }

  -- `accept`, and the client goes into the database.
  unfoldable pub accept_client : ℕ → Serve Net → Serve Net
  accept_client server w =
      let (n, client) = lib.accept server w.net in
      elim client [
        | none ↦ record w { net = n; acceptor = joining }
        | some c ↦
            let e : Entry = record { handle = c; addr = lib.get_peer_addr c n; status = true } in
            record w {
              server = record w.server { database = w.server.database ++ e ∷ [] };
              net = n;
              acceptor = registered c;
            }
      ]

  abbrev pub start_thread : ℕ → Serve Net → Serve Net
  start_thread c w = record w {
    threads = w.threads ++ new_connection c w.server.database ∷ [];
    acceptor = checking;
  }

  -- `while(!should_close())`
  abbrev pub check_close : Serve Net → Serve Net
  check_close w = record w { acceptor = if w.server.is_close then joining else accepting }

  -- The threads are joined, and the listening socket is closed.
  abbrev pub finish_serve : ℕ → Serve Net → Serve Net
  finish_serve server w = record w { net = lib.closesocket server w.net; acceptor = returned true }

  module _ (response : ℕ → Text → Server → Net → (Server × Net) × List Text) where
    -- After `recv` in a client's thread; true when the thread goes on.
    unfoldable pub after_recv : ℕ → ℕ → Server → Net → Received → (Server × Net) × Bool
    after_recv c id s n (received message) =
        let ((s', n'), resps) = response c message s n in
        let (n'', ok) = send_all c resps n' in
        if ok && not s'.is_close then ((s', n''), true) else (close_client id s' n'', false)
    after_recv c id s n ended = (close_client id s n, false)
    after_recv c id s n failed = (close_client id s n, false)

    abbrev pub client_round : ℕ → ℕ → Server → Net → (Server × Net) × Bool
    client_round c id s n = let (n', r) = lib.recv c n in after_recv c id s n' r

    -- The thread `i` takes a round.
    unfoldable pub thread_round : ℕ → Connection → Serve Net → Serve Net
    thread_round i c w =
        let ((s, n), go_on) = client_round c.socket c.id w.server w.net in
        record w { server = s; net = n; threads = set w.threads i (record c { is_live = go_on }) }

    -- A step of the thread that calls `Serve`, a round of a client's thread, or `Close` or `CloseClient` from without.
    pub data Step (server : ℕ) (w : Serve Net) : Serve Net → Type 0 where
      accepts : w.acceptor ≡ accepting → Step server w (accept_client server w)
      starts_thread : (c : ℕ) → w.acceptor ≡ registered c → Step server w (start_thread c w)
      checks : w.acceptor ≡ checking → Step server w (check_close w)
      serves :
          (i : ℕ) (c : Connection)
          → get_elem? w.threads i ≡ some c
          → c.is_live ≡ true
          → Step server w (thread_round i c w)
      finishes : w.acceptor ≡ joining → AllEnded w.threads → Step server w (finish_serve server w)
      closes :
          Step server w
            (record w { server = (close w.server w.net).0; net = (close w.server w.net).1 })
      closes_client :
          (id : ℕ)
          → Step server w (record w {
            server = (close_client id w.server w.net).0;
            net = (close_client id w.server w.net).1;
          })

    pub data Reach (server : ℕ) (s : Server) (n : Net) : Serve Net → Type 0 where
      starts : Reach server s n (start_serve server s n)
      later : {w w' : Serve Net} → Reach server s n w → Step server w w' → Reach server s n w'
