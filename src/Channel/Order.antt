-- ===== src/Channel/Order.antt =====
-- A buffered `Channel` is a bounded first-in first-out queue, under every interleaving.
use coplus.Prelude.{
  ℕ, ◌≤◌, ◌≡◌, refl, sym, ap, ◌∙◌, List, [], ◌∷◌, ◌++◌, ltb, Bool-cases, inl, inr, length,
  length-append, append-nil, append_assoc, arith,
}
use coplus.Channel.{
  Channel, Event, Step, announce_send, block_send, finish_send, announce_recv, block_recv,
  finish_recv, close, open_up, go_round, leave, lock, senders, receivers, unlock, wake, Run, fresh,
  next, spurious, sends, receipts, serve_senders, serve_receivers, notify_sender, notify_receiver,
}

module _ {A : Type 0} where
  senders-buffer : (capacity : ℕ) (s : Channel A) → (serve_senders capacity s).buffer ≡ s.buffer
  unfolding serve_senders notify_sender
  senders-buffer capacity s = elim (Bool-cases (ltb (length s.buffer) capacity)) [
    | inl e ↦ rw (serve_senders, e) (notified s.sendq)
    | inr e ↦ rw (serve_senders, e) refl
  ]
    where
      notified : (ts : List ℕ) → (notify_sender s ts).buffer ≡ s.buffer
      notified [] = refl
      notified (t ∷ ts) = refl

  receivers-buffer : (s : Channel A) → (serve_receivers s).buffer ≡ s.buffer
  unfolding serve_receivers notify_receiver
  receivers-buffer s = elim (Bool-cases (ltb 0 (length s.buffer))) [
    | inl e ↦ rw (serve_receivers, e) (notified s.recvq)
    | inr e ↦ rw (serve_receivers, e) refl
  ]
    where
      notified : (ts : List ℕ) → (notify_receiver s ts).buffer ≡ s.buffer
      notified [] = refl
      notified (t ∷ ts) = refl

  -- A step moves what its event says.
  Step-flow :
      {capacity : ℕ} {s s' : Channel A} {e : Event A}
      → Step capacity s e s'
      → receipts e ++ s'.buffer ≡ s.buffer ++ sends e
  Step-flow {s} (announce_send t x p) = sym (append-nil s.buffer)
  Step-flow {s} (block_send t x p f l) = sym (append-nil s.buffer)
  Step-flow (finish_send t x p f l) = refl
  Step-flow {s} (announce_recv t p) = sym (append-nil s.buffer)
  Step-flow {s} (block_recv t p f b) = sym (append-nil s.buffer)
  Step-flow {s} (finish_recv t x rest p f b) = sym (append-nil s.buffer ∙ b)
  Step-flow {s} close = sym (append-nil s.buffer)
  Step-flow {s} (open_up p) = sym (append-nil s.buffer)
  Step-flow {s} (go_round p c) = sym (append-nil s.buffer)
  Step-flow {s} (leave p c) = sym (append-nil s.buffer)
  Step-flow {s} (lock p) = sym (append-nil s.buffer)
  Step-flow {capacity} {s} (senders p) = senders-buffer capacity s ∙ sym (append-nil s.buffer)
  Step-flow {s} (receivers p) = receivers-buffer s ∙ sym (append-nil s.buffer)
  Step-flow {s} (unlock p) = sym (append-nil s.buffer)

  Step-room :
      {capacity : ℕ} {s s' : Channel A} {e : Event A}
      → Step capacity s e s'
      → length s.buffer ≤ capacity
      → length s'.buffer ≤ capacity
  Step-room (announce_send t x p) h = h
  Step-room (block_send t x p f l) h = h
  Step-room {s} (finish_send t x p f l) h = ground (arith, length-append s.buffer (x ∷ []))
  Step-room (announce_recv t p) h = h
  Step-room (block_recv t p f b) h = h
  Step-room {s} (finish_recv t x rest p f b) h = omega (arith, ap length b)
  Step-room close h = h
  Step-room (open_up p) h = h
  Step-room (go_round p c) h = h
  Step-room (leave p c) h = h
  Step-room (lock p) h = h
  Step-room {capacity} {s} (senders p) h = rw (senders-buffer capacity s) h
  Step-room {s} (receivers p) h = rw (receivers-buffer s) h
  Step-room (unlock p) h = h

  -- In every state that the threads, the scheduler and spurious wakeups reach, the items received
  -- followed by those in the buffer are the items sent, in order, and the buffer holds at most
  -- `capacity` items.
  pub bounded_and_in_order :
      {capacity : ℕ} {given taken : List A} {s : Channel A}
      → Run capacity given taken s
      → (taken ++ s.buffer ≡ given) × (length s.buffer ≤ capacity)
  bounded_and_in_order (fresh c) = (refl, omega arith)
  bounded_and_in_order (next {given} {taken} {e} {s} {s'} r st) =
      let (order, room) = bounded_and_in_order r in
      (
        append_assoc taken (receipts e) s'.buffer
            ∙ ap (λ xs. taken ++ xs) (Step-flow st)
            ∙ sym (append_assoc taken s.buffer (sends e))
            ∙ ap (λ xs. xs ++ sends e) order,
        Step-room st room,
      )
  bounded_and_in_order (spurious r (wake t)) = bounded_and_in_order r
