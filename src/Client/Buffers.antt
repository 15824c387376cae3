-- ===== src/Client/Buffers.antt =====
-- The buffers of clients that are constructed, copied, moved, used and destroyed.
use coplus.Prelude.{
  ℕ, suc, List, [], ◌∷◌, ◌<◌, ◌≡◌, refl, sym, ap, true, false, Option, none, some, Option-cases,
  inl, inr, assign, arith, ℕ_discrete, subst,
}
use coplus.Text.{Text}
use coplus.Server.{Received, received, ended, failed}
use coplus.Client.{
  Sockets, Client, new_client, move_client, copy_client, delete_client, delete_buffer, is_closed,
  connect_any, connect, close, taken, receive,
}
use coplus.Client.Lives.{
  Objects, put, moved, constructs, copies, moves, connects, closes, receives, destroys, Reach,
  starts, later, buffer_of,
}

-- Each buffer that is not deleted has one owner, and no other has one.
pub record IsOwned (s : Objects) : Type 0 where
  pub live :
      (i p : ℕ)
      → buffer_of (s.clients i) ≡ some p
      → (p < s.memory.made) × (s.memory.is_deleted p ≡ false)
  pub apart :
      (i j p : ℕ) → buffer_of (s.clients i) ≡ some p → buffer_of (s.clients j) ≡ some p → i ≡ j
  pub owned :
      (p : ℕ)
      → p < s.memory.made
      → s.memory.is_deleted p ≡ false
      → (i : ℕ) × (buffer_of (s.clients i) ≡ some p)
  pub fresh : (p : ℕ) → s.memory.is_deleted p ≡ true → p < s.memory.made
  pub once : s.memory.deleted_twice ≡ 0
  pub unclosed : (i : ℕ) (k : Client) → s.clients i ≡ some k → k.closing ≡ false

-- A client with a buffer of its own joins the others.
join-IsOwned :
    {s : Objects} (j : ℕ) (k : Client)
    → IsOwned s
    → s.clients j ≡ none
    → k.closing ≡ false
    → IsOwned (
        put j
          (record k { buffer = some s.memory.made }, record s.memory { made = suc s.memory.made })
          s)
join-IsOwned {s} j k v n c = record {
  live = λ i p e. ground (arith, e, v.live i p, v.fresh p);
  apart = λ i l p e f. ground (arith, e, f, v.live i p, v.live l p, v.apart i l p);
  owned = λ p lt d. elim (ℕ_discrete p s.memory.made) [
    | yes e ↦ (j, ground (arith, e))
    | no ne ↦
        let (i, o) = v.owned p (omega (arith, lt, ne)) d in (i, ground (arith, o, ap buffer_of n))
  ];
  fresh = λ p d. ground (arith, v.fresh p);
  once = v.once;
  unclosed = λ i l e. ground (arith, e, c, v.unclosed i l);
}

move-IsOwned :
    {s : Objects} (i j : ℕ) (k : Client)
    → IsOwned s
    → s.clients i ≡ some k
    → s.clients j ≡ none
    → IsOwned (moved i j (k, record k { buffer = none }) s)
move-IsOwned {s} i j k v e n = record {
  live = λ x p f. ground (arith, f, ap buffer_of e, v.live x p, v.live i p);
  apart = λ x y p f g.
      ground (arith, f, g, ap buffer_of e, v.apart x y p, v.apart i y p, v.apart x i p);
  owned = λ p lt d.
      let (x, o) = v.owned p lt d in
      elim (ℕ_discrete x i) [
        | yes same ↦ (j, ground (arith, o, same, ap buffer_of e))
        | no ne ↦ (x, ground (arith, o, ne, ap buffer_of n))
      ];
  fresh = v.fresh;
  once = v.once;
  unclosed = λ x l f. ground (arith, f, v.unclosed x l, v.unclosed i k);
}

-- What a call leaves of a client.
record Keeps (k k' : Client) : Type 0 where
  buffer : k'.buffer ≡ k.buffer
  closing : k'.closing ≡ k.closing

call-IsOwned :
    {s : Objects} (i : ℕ) {k k' : Client}
    → Keeps k k'
    → IsOwned s
    → s.clients i ≡ some k
    → IsOwned (put i (k', s.memory) s)
call-IsOwned {s} i c v e = record {
  live = λ x p f. ground (arith, f, ap buffer_of e, c.buffer, v.live x p);
  apart = λ x y p f g. ground (arith, f, g, ap buffer_of e, c.buffer, v.apart x y p);
  owned = λ p lt d. let (x, o) = v.owned p lt d in (x, ground (arith, o, ap buffer_of e, c.buffer));
  fresh = v.fresh;
  once = v.once;
  unclosed = λ x l f. ground (arith, f, v.unclosed x l, v.unclosed i _ e, c.closing);
}

same_client : {k k' : Client} → k' ≡ k → Keeps k k'
same_client e = record { buffer = ap (λ l. l.buffer) e; closing = ap (λ l. l.closing) e }

module _ {Net Address : Type 0} (lib : Sockets Net Address) where
  connect_any-Keeps :
      (k : Client) (found : Net × Option (List Address)) → Keeps k (connect_any lib k found).0.0
  connect_any-Keeps k (n, none) = same_client refl
  connect_any-Keeps k (n, some []) = same_client refl
  connect_any-Keeps k (n, some (a ∷ as')) = record { buffer = refl; closing = refl }

  connect-Keeps : (ip port : Text) (k : Client) (n : Net) → Keeps k (connect lib ip port k n).0.0
  unfolding connect
  connect-Keeps ip port k n = elim (Option-cases k.socket) [
    | inl e ↦
        let same : connect lib ip port k n ≡ connect_any lib k (lib.getaddrinfo ip port n) =
          simp (connect, e) in
        subst (λ r. Keeps k r.0.0) (sym same) (connect_any-Keeps k (lib.getaddrinfo ip port n))
    | inr (t, e) ↦
        let same : connect lib ip port k n ≡ ((k, n), false) = simp (connect, e) in
        same_client (ap (λ r. r.0.0) same)
  ]

  close-Keeps : (k : Client) (n : Net) → Keeps k (close lib k n).0
  unfolding close
  close-Keeps k n = elim (Option-cases k.socket) [
    | inl e ↦
        let same : close lib k n ≡ (k, n) = simp (close, e) in same_client (ap (λ r. r.0) same)
    | inr (t, e) ↦
        let same : (close lib k n).0 ≡ record k { socket = none } = simp (close, e) in
        record { buffer = ap (λ l. l.buffer) same; closing = ap (λ l. l.closing) same }
  ]

  taken-Keeps : (k : Client) (n : Net) (r : Received) → Keeps k (taken lib k n r).0.0
  taken-Keeps k n (received bytes) = same_client refl
  taken-Keeps k n ended = record { buffer = refl; closing = refl }
  taken-Keeps k n failed = record { buffer = refl; closing = refl }

  receive-Keeps : (k : Client) (n : Net) → Keeps k (receive lib k n).0.0
  unfolding receive
  receive-Keeps k n = elim (Option-cases k.socket) [
    | inl e ↦
        let same : receive lib k n ≡ ((k, n), []) = simp (receive, e) in
        same_client (ap (λ r. r.0.0) same)
    | inr (t, e) ↦
        let (n', r) = lib.recv t k.buffer_len n in
        let same : receive lib k n ≡ taken lib k n' r = simp (receive, e) in
        subst (λ r. Keeps k r.0.0) (sym same) (taken-Keeps k n' r)
  ]

destroy-IsOwned :
    {s : Objects} (i : ℕ) (k : Client)
    → IsOwned s
    → s.clients i ≡ some k
    → IsOwned (record { clients = assign s.clients i none; memory = delete_client k s.memory })
unfolding delete_client
destroy-IsOwned {s} i k v e = go k.buffer (ap buffer_of e)
  where
    go :
        (b : Option ℕ)
        → buffer_of (s.clients i) ≡ b
        → IsOwned (record { clients = assign s.clients i none; memory = delete_buffer b s.memory })
    go none f = record {
      live = λ x p g. ground (arith, g, v.live x p);
      apart = λ x y p g h. ground (arith, g, h, v.apart x y p);
      owned = λ p lt d. let (x, o) = v.owned p lt d in (x, ground (arith, o, f));
      fresh = v.fresh;
      once = v.once;
      unclosed = λ x l g. ground (arith, g, v.unclosed x l);
    }
    go (some b) f = record {
      live = λ x p g. ground (arith, g, f, v.live x p, v.apart x i b);
      apart = λ x y p g h. ground (arith, g, h, v.apart x y p);
      owned =
          λ p lt d. let (x, o) = v.owned p lt (ground (arith, d)) in (x, ground (arith, o, d, f));
      fresh = λ p d. ground (arith, d, v.fresh p, v.live i b);
      once = ground (arith, f, v.live i b, v.once);
      unclosed = λ x l g. ground (arith, g, v.unclosed x l);
    }

Reach-IsOwned :
    {Net Address : Type 0} {lib : Sockets Net Address} {s : Objects} → Reach lib s → IsOwned s
unfolding new_client copy_client move_client
Reach-IsOwned starts = record {
  live = λ i p e. absurd (ground (arith, e));
  apart = λ i j p e f. absurd (ground (arith, e));
  owned = λ p lt d. absurd (omega (arith, lt));
  fresh = λ p d. absurd (ground (arith, d));
  once = refl;
  unclosed = λ i k e. absurd (ground (arith, e));
}
Reach-IsOwned (later r (constructs j bufflen n)) =
    join-IsOwned j (record { closing = false; socket = none; buffer = none; buffer_len = bufflen })
      (Reach-IsOwned r) n refl
Reach-IsOwned (later r (copies i j k e n)) =
    let v = Reach-IsOwned r in join-IsOwned j k v n (v.unclosed i k e)
Reach-IsOwned (later r (moves i j k e n)) = move-IsOwned i j k (Reach-IsOwned r) e n
Reach-IsOwned {lib} (later r (connects i k ip port n e)) =
    call-IsOwned i (connect-Keeps lib ip port k n) (Reach-IsOwned r) e
Reach-IsOwned {lib} (later r (closes i k n e)) =
    call-IsOwned i (close-Keeps lib k n) (Reach-IsOwned r) e
Reach-IsOwned {lib} (later r (receives i k n e)) =
    call-IsOwned i (receive-Keeps lib k n) (Reach-IsOwned r) e
Reach-IsOwned (later r (destroys i k e)) = destroy-IsOwned i k (Reach-IsOwned r) e

-- However clients are constructed, copied, moved, connected, closed, read from and destroyed: no buffer is deleted twice, the
-- buffer of a client that is alive is not deleted and no other client's, each buffer that is not
-- deleted belongs to a client that is alive, and is_closed says no of every client.
pub Reach-owned :
    {Net Address : Type 0} {lib : Sockets Net Address} {s : Objects}
    → Reach lib s
    → (s.memory.deleted_twice ≡ 0)
      × ((i p : ℕ) → buffer_of (s.clients i) ≡ some p → s.memory.is_deleted p ≡ false)
      × ((i j p : ℕ) → buffer_of (s.clients i) ≡ some p → buffer_of (s.clients j) ≡ some p → i ≡ j)
      × ((p : ℕ)
          → p < s.memory.made
          → s.memory.is_deleted p ≡ false
          → (i : ℕ) × (buffer_of (s.clients i) ≡ some p))
      × ((i : ℕ) (k : Client) → s.clients i ≡ some k → is_closed k ≡ false)
unfolding is_closed
Reach-owned r =
    let v = Reach-IsOwned r in
    (v.once, λ i p e. (v.live i p e).1, v.apart, v.owned, λ i k e. ground (arith, v.unclosed i k e))
