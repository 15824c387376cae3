-- ===== src/Client/Numbered.antt =====
-- A network that numbers its sockets, for tests: the number of the next one, those that are not closed,
-- and those that are bound. The address 4 can be connected.
use coplus.Prelude.{
  ℕ, suc, ◌≡◌, refl, [], ◌∷◌, Bool, true, false, ◌&&◌, Option, none, some, ◌==◌, ltb, assign,
  if◌then◌else◌, arith,
}
use coplus.Server.{ended}
use coplus.Client.{Sockets, is_some}
use coplus.Client.Connecting.{Behaves, is_socket}

abbrev pub Numbers : Type 0
Numbers = ℕ × (ℕ → Bool) × (ℕ → Bool)

abbrev pub numbered : Sockets Numbers ℕ
numbered = record {
  getaddrinfo = λ ip port n. (n, some (3 ∷ 4 ∷ []));
  new_socket = λ a n. ((suc n.0, assign n.1 n.0 true, assign n.2 n.0 false), some n.0);
  connect = λ s a n. (n, is_some s && (a == 4));
  closesocket = λ s n. elim s [ none ↦ n | some t ↦ (n.0, assign n.1 t false, n.2) ];
  shutdown = λ s n. (n, true);
  send = λ s message n. (n, true);
  recv = λ s len n. (n, ended);
}

abbrev pub is_numbered : Numbers → ℕ → Bool
is_numbered n t = ltb t n.0 && n.1 t

numbered_closed :
    (s : Option ℕ) (n : Numbers) (t : ℕ)
    → is_numbered (numbered.closesocket s n) t ≡ (if is_socket s t then false else is_numbered n t)
numbered_closed none n t = refl
numbered_closed (some s) n t = ground arith

pub numbered-Behaves : Behaves numbered is_numbered
numbered-Behaves = record {
  getaddrinfo_open = λ ip port n t. refl;
  socket_new = λ a n s e. ground (arith, e);
  socket_open = λ a n t. ground arith;
  connect_open = λ s a n t. refl;
  connect_invalid = λ a n. refl;
  close_open = numbered_closed;
}
