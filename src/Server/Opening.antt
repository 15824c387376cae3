-- ===== src/Server/Opening.antt =====
-- `NewSocket`, `GetSocketAddr` and `GetPeerAddr` of `Server`: the socket to serve on, and the names of
-- sockets.
use coplus.Prelude.{
  ℕ, ◌≡◌, ◌≢◌, List, [], ◌∷◌, ◌++◌, Bool, true, false, Option, none, some, ◌⊎◌, if◌then◌else◌,
}
use coplus.Text.{Text}
use coplus.Protocol.Format.{int_text}
use coplus.Client.{Sockets, is_some}
use coplus.Client.Connecting.{Behaves, is_socket}

-- The address and the port of a socket, or "" where the library does not give them.
abbrev pub addr_text : Option (Text × ℕ) → Text
addr_text none = []
addr_text (some (ip, port)) = ip ++ 58 ∷ int_text port

-- What more of the library it takes: `names` are `getsockname` and `getpeername`, `true` for the
-- peer, with what `inet_ntop` and `ntohs` make of them.
pub record Binding (Net Address : Type 0) : Type 0 where
  pub bind : Option ℕ → Address → Net → Net × Bool
  pub names : Bool → ℕ → Net → Option (Text × ℕ)

module _ {Net Address : Type 0} (lib : Sockets Net Address) (more : Binding Net Address) where
  unfoldable pub get_socket_addr : ℕ → Net → Text
  get_socket_addr s n = addr_text (more.names false s n)

  unfoldable pub get_peer_addr : ℕ → Net → Text
  get_peer_addr s n = addr_text (more.names true s n)

  -- The socket of the first address, bound to it. `none` is the null pointer, read where there is
  -- no address.
  abbrev pub bind_first : Net × Option (List Address) → Option (Net × Option ℕ)
  bind_first (n, none) = some (n, none)
  bind_first (n, some []) = none
  bind_first (n, some (a ∷ as')) =
      let (n1, s) = lib.new_socket a n in
      let (n2, ok) = more.bind s a n1 in some (n2, elim ok [ true ↦ s | false ↦ none ])

  -- `is_ok` is `WSAProof::Ok()`.
  unfoldable pub new_socket : Bool → Text → Text → Net → Option (Net × Option ℕ)
  new_socket is_ok addr port n =
      if is_ok then bind_first (lib.getaddrinfo addr port n) else some (n, none)

-- The library as documented, on the sockets that are open and those that are bound to an address.
pub record BindBehaves {Net Address : Type 0} (lib : Sockets Net Address)
    (more : Binding Net Address) (is_open is_bound : Net → ℕ → Bool) : Type 0 where
  pub sockets : Behaves lib is_open
  pub socket_unbound :
      (a : Address) (n : Net) (s : ℕ)
      → (lib.new_socket a n).1 ≡ some s
      → is_bound (lib.new_socket a n).0 s ≡ false
  pub bind_open :
      (s : Option ℕ) (a : Address) (n : Net) (t : ℕ) → is_open (more.bind s a n).0 t ≡ is_open n t
  pub bind_bound :
      (s : ℕ) (a : Address) (n : Net)
      → is_bound n s ≡ false
      → is_bound (more.bind (some s) a n).0 s ≡ (more.bind (some s) a n).1
  pub some_address : (ip port : Text) (n : Net) → (lib.getaddrinfo ip port n).1 ≢ some []

-- The socket that the library makes for the first address, where there is one.
abbrev pub first_made :
    {Net Address : Type 0} → Sockets Net Address → Net × Option (List Address) → Option ℕ
first_made lib (n, none) = none
first_made lib (n, some []) = none
first_made lib (n, some (a ∷ as')) = (lib.new_socket a n).1

abbrev pub made_socket :
    {Net Address : Type 0} → Sockets Net Address → Bool → Text → Text → Net → Option ℕ
made_socket lib is_ok addr port n =
    if is_ok then first_made lib (lib.getaddrinfo addr port n) else none

-- What a call that makes a socket leaves: the socket is new and the only one that is open beyond those
-- that were, nothing else is given, and it is given exactly where it is bound.
pub record Opened {Net : Type 0} (is_open is_bound : Net → ℕ → Bool) (n : Net) (made : Option ℕ)
    (r : Net × Option ℕ) : Type 0 where
  pub sockets : (t : ℕ) → is_open r.0 t ≡ (if is_socket made t then true else is_open n t)
  pub is_new : (t : ℕ) → made ≡ some t → is_open n t ≡ false
  pub given : (r.1 ≡ made) ⊎ (r.1 ≡ none)
  pub bound : (t : ℕ) → made ≡ some t → is_some r.1 ≡ is_bound r.0 t
