-- ===== src/Client/Tests.antt =====
-- A client on a network where the second address can be connected. The network is the list of the
-- sockets that are open.
use coplus.Prelude.{
  ℕ, ◌≡◌, refl, List, [], ◌∷◌, Bool, true, false, Option, none, some, ◌==◌, ◌<◌, if◌then◌else◌,
}
use coplus.Server.{ended}
use coplus.Client.Lives.{
  Objects, Reach, starts, later, constructs, copies, moves, connects, destroys, buffer_of,
}
use coplus.Client.Buffers.{Reach-owned}
use coplus.Client.Connecting.{is_socket, connect-open}
use coplus.Client.Numbered.{Numbers, numbered, is_numbered, numbered-Behaves}
use coplus.Client.{
  Sockets, Client, Memory, new_client, move_client, copy_client, is_closed, is_some, connect_loop,
  connect, close, send, receive,
}

abbrev without : ℕ → List ℕ → List ℕ
without s [] = []
without s (t ∷ ts) = let rest = without s ts in elim (s == t) [ true ↦ rest | false ↦ t ∷ rest ]

abbrev without_this : Option ℕ → List ℕ → List ℕ
without_this none n = n
without_this (some s) n = without s n

abbrev network : Sockets (List ℕ) ℕ
network = record {
  getaddrinfo = λ ip port n. (n, some (3 ∷ 4 ∷ []));
  new_socket = λ a n. (a ∷ n, some a);
  connect = λ s a n. (n, a == 4);
  closesocket = without_this;
  shutdown = λ s n. (n, true);
  send = λ s message n. (n, true);
  recv = λ s len n. (n, ended);
}

abbrev empty_memory : Memory
empty_memory = record { made = 0; is_deleted = λ p. false; deleted_twice = 0 }

abbrev fresh : Client
unfolding new_client
fresh = (new_client 512 empty_memory).0

abbrev connected : (Client × List ℕ) × Bool
connected = connect network [] [] fresh []

-- The socket of the first address is closed, that of the second kept.
second_address : connected ≡ ((record fresh { socket = some 4 }, 4 ∷ []), true)
unfolding connect connect_loop new_client
second_address = refl

-- A client that is connected is not connected again.
connected_once : (connect network [] [] connected.0.0 connected.0.1).1 ≡ false
unfolding connect connect_loop new_client
connected_once = refl

-- A client that closes its connection, or that finds it closed, forgets a socket that is open.
left_open :
    (close network connected.0.0 connected.0.1 ≡ (fresh, 4 ∷ []))
    × (receive network connected.0.0 connected.0.1 ≡ ((fresh, 4 ∷ []), []))
unfolding connect connect_loop new_client close receive
left_open = (refl, refl)

-- Nothing is sent by a client that is not connected.
not_connected : send network (104 ∷ []) fresh [] ≡ ([], false)
unfolding send new_client
not_connected = refl

-- A client is constructed, copied and connected; the first is moved, and what is left is destroyed.
abbrev second : Client
unfolding copy_client
second = record { closing = false; socket = none; buffer = some 1; buffer_len = 512 }

lived : (s : Objects) × Reach network s
unfolding new_client copy_client move_client
lived = (
  _,
  later
      (later
        (later (later (later starts (constructs 0 512 refl)) (copies 0 1 fresh refl refl))
          (connects 1 second [] [] [] refl))
        (moves 0 2 fresh refl refl))
      (destroys 0 (record fresh { buffer = none }) refl),
)

Reach-owned_example :
    (lived.0.memory.deleted_twice ≡ 0)
    × ((i p : ℕ) → buffer_of (lived.0.clients i) ≡ some p → lived.0.memory.is_deleted p ≡ false)
    × ((i j p : ℕ)
        → buffer_of (lived.0.clients i) ≡ some p
        → buffer_of (lived.0.clients j) ≡ some p
        → i ≡ j)
    × ((p : ℕ)
        → p < lived.0.memory.made
        → lived.0.memory.is_deleted p ≡ false
        → (i : ℕ) × (buffer_of (lived.0.clients i) ≡ some p))
    × ((i : ℕ) (k : Client) → lived.0.clients i ≡ some k → is_closed k ≡ false)
Reach-owned_example = Reach-owned lived.1

abbrev two_open : Numbers
two_open = (2, (λ t. true), λ t. false)

abbrev opened : (Client × Numbers) × Bool
opened = connect numbered [] [] fresh two_open

connect-open_example :
    ((t : ℕ)
      → is_numbered opened.0.1 t
        ≡ (if is_socket opened.0.0.socket t then true else is_numbered two_open t))
    × ((t : ℕ) → opened.0.0.socket ≡ some t → is_numbered two_open t ≡ false)
    × (opened.1 ≡ is_some opened.0.0.socket)
unfolding new_client
connect-open_example = connect-open numbered numbered-Behaves [] [] fresh two_open refl

-- The socket of the first address is closed again.
opened_third : opened.0.0.socket ≡ some 3
unfolding connect connect_loop new_client
opened_third = refl
