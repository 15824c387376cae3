-- ===== src/Server/Serving.antt =====
-- `Serve` of include/coplus/socket.h leaves no client on.
use coplus.Prelude.{ℕ, ◌≡◌, List, [], ◌∷◌, ◌++◌, Bool, true, false}
use coplus.Text.{Text}
use coplus.Server.Tracking.{Keeps, Tracks, IsOffAt}
use coplus.Server.{Connection, Entry, Server, Acceptor, Sockets, Serve, AllEnded, new_connection}

module _ {Net : Type 0} (lib : Sockets Net) where
  module _ (response : ℕ → Text → Server → Net → (Server × Net) × List Text)
      (response-Keeps : (c : ℕ) (message : Text) (s : Server) (n : Net)
        → Keeps s.database (response c message s n).0.0.database) where
    -- What a round of a client's thread does to the clients.
    abbrev Kept : ℕ → Server → (Server × Net) × Bool → Type 0
    Kept id s r = Keeps s.database r.0.0.database × (r.1 ≡ false → IsOffAt id r.0.0.database)

    -- The threads, with the one that is about to start.
    abbrev coming : Acceptor → List Entry → List Connection
    coming (Acceptor.registered c) database = new_connection c database ∷ []
    coming _ database = []

    -- In every state of `Serve`.
    abbrev Inv : Serve Net → Type 0
    Inv w =
        Tracks 0 w.server.database (w.threads ++ coming w.acceptor w.server.database)
        × (w.acceptor ≡ Acceptor.returned true → AllEnded w.threads)
