-- ===== src/Server/Tests.antt =====
-- A server that one client asks for the list of clients, and the theorem at this run.
use mathlib.Core.Option
use coplus.Prelude.{
  assign, Bool, false, ℕ, zero, suc, ◌≡◌, refl, List, [], ◌∷◌, true, Option, none, some, negsuc,
  pos,
}
use coplus.Text.{Text}
use coplus.Protocol.Format.{int_text}
use coplus.Server.{
  Server, new_server, Received, Connection, Sockets, Serve, start_serve, accept_client,
  start_thread, check_close, finish_serve, thread_round, output_database, get_client, get_addr,
  Step, Reach, after_recv,
}
use coplus.Server.Opening.{Binding, new_socket, get_socket_addr}
use coplus.Client.Numbered.{Numbers, numbered, is_numbered}

-- The network counts the calls: the first `accept` gives the client 7, the first `recv` a message,
-- and then nothing comes.
abbrev first_client : ℕ → Option ℕ
first_client zero = none
first_client (suc zero) = some 7
first_client (suc (suc n)) = none

abbrev first_message : ℕ → Received
first_message zero = Received.ended
first_message (suc zero) = Received.ended
first_message (suc (suc zero)) = Received.received (108 ∷ [])
first_message (suc (suc (suc n))) = Received.ended

abbrev network : Sockets ℕ
network = record {
  listen = λ server n. (suc n, true);
  accept = λ server n. (suc n, first_client n);
  recv = λ c n. (suc n, first_message n);
  send = λ c message n. (suc n, true);
  closesocket = λ c n. suc n;
  get_peer_addr = λ c n. 49 ∷ 58 ∷ 50 ∷ [];
}

-- The client is told the cells of the clients.
abbrev response : ℕ → Text → Server → ℕ → (Server × ℕ) × List Text
response c message s n = ((s, n), (output_database s [] []).1)

abbrev started : Serve ℕ
started = start_serve network 3 new_server 0

abbrev joined : Serve ℕ
joined = check_close network (start_thread network 7 (accept_client network 3 started))

-- The client is accepted, asks, and leaves.
abbrev client : Connection
client = record { socket = 7; id = 0; is_live = true }

abbrev asked : Serve ℕ
asked = thread_round network response 0 client joined

abbrev left : Serve ℕ
left = thread_round network response 0 client asked

abbrev no_more : Serve ℕ
no_more = accept_client network 3 left

abbrev done : Serve ℕ
done = finish_serve network 3 no_more

listed :
    ((output_database joined.server [] []).1
      ≡ (48 ∷ []) ∷ (49 ∷ 58 ∷ 50 ∷ []) ∷ (111 ∷ 110 ∷ []) ∷ [])
    × ((output_database left.server [] []).1
        ≡ (48 ∷ []) ∷ (49 ∷ 58 ∷ 50 ∷ []) ∷ (111 ∷ 102 ∷ 102 ∷ []) ∷ [])
unfolding start_serve accept_client thread_round after_recv output_database int_text
listed = (refl, refl)

looked_up :
    (get_client joined.server (pos 0) ≡ some 7)
    × (get_client joined.server (pos 1) ≡ none)
    × (get_client joined.server (negsuc 0) ≡ none)
    × (get_addr joined.server (pos 0) ≡ 49 ∷ 58 ∷ 50 ∷ [])
unfolding start_serve accept_client
looked_up = (refl, refl, refl, refl)

run : Reach network response 3 new_server 0 done
unfolding start_serve accept_client thread_round after_recv output_database int_text
run =
    Reach.later
      (Reach.later
        (Reach.later (Reach.later come (Step.serves 0 client refl refl))
          (Step.serves 0 client refl refl))
        (Step.accepts refl))
      (Step.finishes refl (refl, tt))
  where
    come : Reach network response 3 new_server 0 joined
    come =
        Reach.later
          (Reach.later (Reach.later Reach.starts (Step.accepts refl)) (Step.starts_thread 7 refl))
          (Step.checks refl)

-- Two sockets are open, and a third is made, which can be bound or not.
abbrev two_open : Numbers
two_open = (2, (λ t. true), λ t. false)

abbrev bind_to : Bool → Option ℕ → ℕ → Numbers → Numbers × Bool
bind_to ok none a n = (n, false)
bind_to ok (some s) a n = ((n.0, n.1, assign n.2 s ok), ok)

abbrev is_bound : Numbers → ℕ → Bool
is_bound n = n.2

abbrev binding : Bool → Binding Numbers ℕ
binding ok = record { bind = bind_to ok; names = λ peer s n. some (49 ∷ [], 80) }

-- Whether the third socket is open afterwards, and the answer.
abbrev opening : Bool → Option (Bool × Option ℕ)
unfolding new_socket
opening ok =
    Option.map (λ r. (is_numbered r.0 2, r.1))
      (new_socket numbered (binding ok) true [] [] two_open)

-- A socket that can be bound is given, one that cannot is lost: it is open, and none is given.
bound_or_lost : (opening true ≡ some (true, some 2)) × (opening false ≡ some (true, none))
unfolding new_socket
bound_or_lost = (refl, refl)

-- 1:80
named : get_socket_addr numbered (binding true) 2 two_open ≡ 49 ∷ 58 ∷ 56 ∷ 48 ∷ []
unfolding get_socket_addr int_text
named = refl
