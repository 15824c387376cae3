-- ===== src/Client.antt =====
-- `Client` of include/coplus/socket.h: a connection of its own. The calls of the socket library,
-- and what they act on, are parameters.
pub mod Lives
pub mod Buffers
pub mod Connecting
pub mod Numbered
mod Tests
use coplus.Prelude.{
  ℕ, suc, ◌+◌, List, [], ◌∷◌, Bool, true, false, not, ◌&&◌, Option, none, some, if◌then◌else◌,
  assign,
}
use coplus.Text.{Text}
use coplus.Server.{Received, received, ended, failed}

-- The socket library. `none` is `INVALID_SOCKET`, or an address that is not resolved; `true` is a
-- call that succeeds.
pub record Sockets (Net Address : Type 0) : Type 0 where
  pub getaddrinfo : Text → Text → Net → Net × Option (List Address)
  pub new_socket : Address → Net → Net × Option ℕ
  pub connect : Option ℕ → Address → Net → Net × Bool
  pub closesocket : Option ℕ → Net → Net
  pub shutdown : ℕ → Net → Net × Bool
  pub send : ℕ → Text → Net → Net × Bool
  pub recv : ℕ → ℕ → Net → Net × Received

abbrev pub is_some : Option ℕ → Bool
is_some none = false
is_some (some s) = true

-- `none` is `INVALID_SOCKET`, or a null pointer to a buffer. `closing` is `close_`.
pub record Client : Type 0 where
  pub closing : Bool
  pub socket : Option ℕ
  pub buffer : Option ℕ
  pub buffer_len : ℕ

-- Buffers are numbered in the order in which they are made; `deleted_twice` counts the faults of
-- `delete []`.
pub record Memory : Type 0 where
  pub made : ℕ
  pub is_deleted : ℕ → Bool
  pub deleted_twice : ℕ

-- A client with a buffer of its own, and the memory.
abbrev with_buffer : Client → Memory → Client × Memory
with_buffer k m = (record k { buffer = some m.made }, record m { made = suc m.made })

unfoldable pub new_client : ℕ → Memory → Client × Memory
new_client bufflen =
    with_buffer (record { closing = false; socket = none; buffer = none; buffer_len = bufflen })

-- The new client, and what is left of the one that it is made from.
unfoldable pub move_client : Client → Client × Client
move_client rhs = (rhs, record rhs { buffer = none })

unfoldable pub copy_client : Client → Memory → Client × Memory
copy_client rhs = with_buffer rhs

abbrev pub delete_buffer : Option ℕ → Memory → Memory
delete_buffer none m = m
delete_buffer (some p) m = record m {
  is_deleted = assign m.is_deleted p true;
  deleted_twice = if m.is_deleted p then m.deleted_twice + 1 else m.deleted_twice;
}

-- The destructor.
unfoldable pub delete_client : Client → Memory → Memory
delete_client k = delete_buffer k.buffer

unfoldable pub is_closed : Client → Bool
is_closed k = k.closing && not (is_some k.socket)

module _ {Net Address : Type 0} (lib : Sockets Net Address) where
  -- The loop over the addresses: the first that can be connected is kept.
  unfoldable pub connect_loop : List Address → Net → Net × Option ℕ
  connect_loop [] n = (n, none)
  connect_loop (a ∷ as') n =
      let (n1, s) = lib.new_socket a n in
      let (n2, ok) = lib.connect s a n1 in
      elim ok [ true ↦ (n2, s) | false ↦ connect_loop as' (lib.closesocket s n2) ]

  abbrev pub connect_any : Client → Net × Option (List Address) → (Client × Net) × Bool
  connect_any k (n, none) = ((k, n), false)
  connect_any k (n, some []) = ((k, n), false)
  connect_any k (n, some (a ∷ as')) =
      let (n', s) = connect_loop (a ∷ as') n in ((record k { socket = s }, n'), is_some s)

  unfoldable pub connect : Text → Text → Client → Net → (Client × Net) × Bool
  connect ip port k n = elim k.socket [
    | some s ↦ ((k, n), false)
    | none ↦ connect_any k (lib.getaddrinfo ip port n)
  ]

  -- The socket is closed only where it cannot be shut down.
  unfoldable pub close : Client → Net → Client × Net
  close k n = elim k.socket [
    | none ↦ (k, n)
    | some s ↦
        let (n', ok) = lib.shutdown s n in
        (record k { socket = none }, elim ok [ true ↦ n' | false ↦ lib.closesocket (some s) n' ])
  ]

  unfoldable pub send : Text → Client → Net → Net × Bool
  send message k n = elim k.socket [ none ↦ (n, false) | some s ↦ lib.send s message n ]

  abbrev pub taken : Client → Net → Received → (Client × Net) × Text
  taken k n (received bytes) = ((k, n), bytes)
  taken k n ended = ((record k { socket = none }, n), [])
  taken k n failed = ((record k { socket = none }, n), [])

  unfoldable pub receive : Client → Net → (Client × Net) × Text
  receive k n = elim k.socket [
    | none ↦ ((k, n), [])
    | some s ↦ let (n', r) = lib.recv s k.buffer_len n in taken k n' r
  ]
