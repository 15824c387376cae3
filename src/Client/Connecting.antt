-- ===== src/Client/Connecting.antt =====
-- The sockets that `Connect` leaves open, over a socket library that behaves as documented.
use coplus.Prelude.{
  ℕ, ◌≡◌, refl, ◌∙◌, List, [], ◌∷◌, Bool, true, false, Option, none, some, Bool-cases, inl, inr,
  ◌==◌, if◌then◌else◌, arith,
}
use coplus.Text.{Text}
use coplus.Client.{Sockets, Client, is_some, connect_loop, connect_any, connect}

abbrev pub is_socket : Option ℕ → ℕ → Bool
is_socket none t = false
is_socket (some s) t = s == t

is_socket_eq : (s : Option ℕ) (t : ℕ) → is_socket s t ≡ true → s ≡ some t
is_socket_eq none t e = ground (arith, e)
is_socket_eq (some s) t e = ground (arith, e)

-- `is_open n` are the open sockets of this process.
pub record Behaves {Net Address : Type 0} (lib : Sockets Net Address) (is_open : Net → ℕ → Bool)
    : Type 0 where
  pub getaddrinfo_open :
      (ip port : Text) (n : Net) (t : ℕ) → is_open (lib.getaddrinfo ip port n).0 t ≡ is_open n t
  pub socket_new :
      (a : Address) (n : Net) (s : ℕ) → (lib.new_socket a n).1 ≡ some s → is_open n s ≡ false
  pub socket_open :
      (a : Address) (n : Net) (t : ℕ)
      → is_open (lib.new_socket a n).0 t
        ≡ (if is_socket (lib.new_socket a n).1 t then true else is_open n t)
  pub connect_open :
      (s : Option ℕ) (a : Address) (n : Net) (t : ℕ) → is_open (lib.connect s a n).0 t ≡ is_open n t
  pub connect_invalid : (a : Address) (n : Net) → (lib.connect none a n).1 ≡ false
  pub close_open :
      (s : Option ℕ) (n : Net) (t : ℕ)
      → is_open (lib.closesocket s n) t ≡ (if is_socket s t then false else is_open n t)

-- After the loop the socket that is kept is open, and new, and no other one has been left open.
record Kept {Net : Type 0} (is_open : Net → ℕ → Bool) (n n' : Net) (s : Option ℕ) : Type 0 where
  sockets : (t : ℕ) → is_open n' t ≡ (if is_socket s t then true else is_open n t)
  is_new : (t : ℕ) → s ≡ some t → is_open n t ≡ false

module _ {Net Address : Type 0} (lib : Sockets Net Address) {is_open : Net → ℕ → Bool}
    (b : Behaves lib is_open) where
  connect_loop-Kept :
      (as' : List Address) (n : Net)
      → Kept is_open n (connect_loop lib as' n).0 (connect_loop lib as' n).1
  unfolding connect_loop
  connect_loop-Kept [] n = record { sockets = λ t. refl; is_new = λ t e. ground (arith, e) }
  connect_loop-Kept (a ∷ as') n =
      let s = (lib.new_socket a n).1 in
      let n1 = (lib.new_socket a n).0 in
      let n2 = (lib.connect s a n1).0 in
      elim (Bool-cases (lib.connect s a n1).1) [
        | inl e ↦
            rw (connect_loop, e)
              (record {
                sockets = λ t. b.connect_open s a n1 t ∙ b.socket_open a n t;
                is_new = λ t f. b.socket_new a n t f;
              })
        | inr e ↦
            let rest = connect_loop-Kept as' (lib.closesocket s n2) in
            let same : (t : ℕ) → is_open (lib.closesocket s n2) t ≡ is_open n t = λ t. ground (
              arith,
              b.close_open s n2 t,
              b.connect_open s a n1 t,
              b.socket_open a n t,
              b.socket_new a n t,
              is_socket_eq s t,
            ) in
            rw (connect_loop, e)
              (record {
                sockets = λ t. ground (arith, rest.sockets t, same t);
                is_new = λ t f. ground (arith, rest.is_new t f, same t);
              })
      ]

  connect_any-Kept :
      (k : Client) (n : Net) (found : Net × Option (List Address))
      → k.socket ≡ none
      → ((t : ℕ) → is_open found.0 t ≡ is_open n t)
      → let r = connect_any lib k found in
        Kept is_open n r.0.1 r.0.0.socket × (r.1 ≡ is_some r.0.0.socket)
  connect_any-Kept k n (n', none) e same =
      (record { sockets = λ t. rw (e) (same t); is_new = λ t f. ground (arith, e, f) }, rw (e) refl)
  connect_any-Kept k n (n', some []) e same =
      (record { sockets = λ t. rw (e) (same t); is_new = λ t f. ground (arith, e, f) }, rw (e) refl)
  connect_any-Kept k n (n', some (a ∷ as')) e same =
      let kept = connect_loop-Kept (a ∷ as') n' in
      (
        record {
          sockets = λ t. ground (arith, kept.sockets t, same t);
          is_new = λ t f. ground (arith, kept.is_new t f, same t);
        },
        refl,
      )

  connect_none :
      (ip port : Text) (k : Client) (n : Net)
      → k.socket ≡ none
      → connect lib ip port k n ≡ connect_any lib k (lib.getaddrinfo ip port n)
  unfolding connect
  connect_none ip port k n e = simp (connect, e)

  -- Connect of a client that is not connected, over a socket library that behaves as documented:
  -- the sockets that are open afterwards are those that were open before and the client's own, which
  -- was not open before; and it says yes exactly where the client has a socket.
  pub connect-open :
      (ip port : Text) (k : Client) (n : Net)
      → k.socket ≡ none
      → let r = connect lib ip port k n in
        ((t : ℕ) → is_open r.0.1 t ≡ (if is_socket r.0.0.socket t then true else is_open n t))
        × ((t : ℕ) → r.0.0.socket ≡ some t → is_open n t ≡ false)
        × (r.1 ≡ is_some r.0.0.socket)
  connect-open ip port k n e =
      let (kept, yes') =
        connect_any-Kept k n (lib.getaddrinfo ip port n) e (b.getaddrinfo_open ip port n) in
      rw (connect_none ip port k n e) (kept.sockets, kept.is_new, yes')
