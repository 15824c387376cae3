-- ===== src/Channel/Wakeups.antt =====
-- Alerts of a buffered `Channel` that the scheduler has spent before their threads wait.
use coplus.Prelude.{
  ℕ, ◌≡◌, ◌≢◌, sym, ap, ◌∙◌, List, [], ◌∷◌, ltb, ◌==◌, length, Bool-cases, inl, inr, assign, Absent,
  Absent-append, ℕ_discrete, if◌then◌else◌, arith,
}
use coplus.Channel.{
  Thread, Channel, Event, Step, announce_send, block_send, finish_send, announce_recv, block_recv,
  finish_recv, close, open_up, go_round, leave, lock, senders, receivers, unlock, serve_senders,
  serve_receivers, wake_receiver, notify_sender, notify_receiver,
}

-- No spurious wakeup occurs on the way.
pub data Steps {A : Type 0} (capacity : ℕ) (s : Channel A) : Channel A → Type 0 where
  here : Steps capacity s s
  onward :
      {e : Event A} {s' s'' : Channel A}
      → Steps capacity s s'
      → Step capacity s' e s''
      → Steps capacity s s''

module _ {A : Type 0} where
  -- The thread waits to send, and its alert is in no queue.
  pub record IsForgotten (t : ℕ) (x : A) (s : Channel A) : Type 0 where
    pub waits : s.threads t ≡ Thread.blocked_send x
    pub unqueued : Absent t s.sendq

  module _ {t : ℕ} {x : A} {s : Channel A} (g : IsForgotten t x s) where
    idle-ne : (u : ℕ) → s.threads u ≡ Thread.idle → t ≢ u
    idle-ne u p = λ e. apart (sym g.waits ∙ ap s.threads e ∙ p)
      where
        apart : Thread.blocked_send x ≡ Thread.idle → ⊥
        apart e = cc

    sending-ne : (u : ℕ) (y : A) → s.threads u ≡ Thread.sending y → t ≢ u
    sending-ne u y p = λ e. apart (sym g.waits ∙ ap s.threads e ∙ p)
      where
        apart : Thread.blocked_send x ≡ Thread.sending y → ⊥
        apart e = cc

    receiving-ne : (u : ℕ) → s.threads u ≡ Thread.receiving → t ≢ u
    receiving-ne u p = λ e. apart (sym g.waits ∙ ap s.threads e ∙ p)
      where
        apart : Thread.blocked_send x ≡ Thread.receiving → ⊥
        apart e = cc

    -- Another thread's change.
    elsewhere : (u : ℕ) (b : Thread A) → t ≢ u → assign s.threads u b t ≡ Thread.blocked_send x
    elsewhere u b ne = ground (arith, g.waits)

    -- The alert of another receiver, or of this thread as one.
    still_waits :
        (u : ℕ) → assign s.threads u (wake_receiver (s.threads u)) t ≡ Thread.blocked_send x
    still_waits u = elim (ℕ_discrete t u) [
      | no ne ↦ elsewhere u _ ne
      | yes e ↦ rw (← e) (woken (s.threads t) g.waits)
    ]
      where
        woken :
            (th : Thread A)
            → th ≡ Thread.blocked_send x
            → (if t == t then wake_receiver th else th) ≡ Thread.blocked_send x
        woken th p = rw p (ground arith)

    senders-IsForgotten : (capacity : ℕ) → IsForgotten t x (serve_senders capacity s)
    unfolding serve_senders notify_sender
    senders-IsForgotten capacity = elim (Bool-cases (ltb (length s.buffer) capacity)) [
      | inl e ↦ rw (serve_senders, e) (front s.sendq g.unqueued)
      | inr e ↦ rw (serve_senders, e) g
    ]
      where
        front : (ts : List ℕ) → Absent t ts → IsForgotten t x (notify_sender s ts)
        front [] a = g
        front (u ∷ us) a = record { waits = elsewhere u _ a.0; unqueued = a.1 }

    receivers-IsForgotten : IsForgotten t x (serve_receivers s)
    unfolding serve_receivers notify_receiver
    receivers-IsForgotten = elim (Bool-cases (ltb 0 (length s.buffer))) [
      | inl e ↦ rw (serve_receivers, e) (front s.recvq)
      | inr e ↦ rw (serve_receivers, e) g
    ]
      where
        front : (ts : List ℕ) → IsForgotten t x (notify_receiver s ts)
        front [] = g
        front (u ∷ us) = record { waits = still_waits u; unqueued = g.unqueued }

  Step-IsForgotten :
      {capacity t : ℕ} {x : A} {s s' : Channel A} {e : Event A}
      → IsForgotten t x s
      → Step capacity s e s'
      → IsForgotten t x s'
  Step-IsForgotten {t} {s} g (announce_send u y p) = record {
    waits = elsewhere g u _ (idle-ne g u p);
    unqueued = Absent-append t u s.sendq g.unqueued (idle-ne g u p);
  }
  Step-IsForgotten g (block_send u y p f l) = record {
    waits = elsewhere g u _ (sending-ne g u y p);
    unqueued = g.unqueued;
  }
  Step-IsForgotten g (finish_send u y p f l) = record {
    waits = elsewhere g u _ (sending-ne g u y p);
    unqueued = g.unqueued;
  }
  Step-IsForgotten g (announce_recv u p) = record {
    waits = elsewhere g u _ (idle-ne g u p);
    unqueued = g.unqueued;
  }
  Step-IsForgotten g (block_recv u p f b) = record {
    waits = elsewhere g u _ (receiving-ne g u p);
    unqueued = g.unqueued;
  }
  Step-IsForgotten g (finish_recv u y rest p f b) = record {
    waits = elsewhere g u _ (receiving-ne g u p);
    unqueued = g.unqueued;
  }
  Step-IsForgotten g close = record { waits = g.waits; unqueued = g.unqueued }
  Step-IsForgotten g (open_up p) = record { waits = g.waits; unqueued = g.unqueued }
  Step-IsForgotten g (go_round p c) = record { waits = g.waits; unqueued = g.unqueued }
  Step-IsForgotten g (leave p c) = record { waits = g.waits; unqueued = g.unqueued }
  Step-IsForgotten g (lock p) = record { waits = g.waits; unqueued = g.unqueued }
  Step-IsForgotten {capacity} g (senders p) =
      let g' = senders-IsForgotten g capacity in record { waits = g'.waits; unqueued = g'.unqueued }
  Step-IsForgotten g (receivers p) =
      let g' = receivers-IsForgotten g in record { waits = g'.waits; unqueued = g'.unqueued }
  Step-IsForgotten g (unlock p) = record { waits = g.waits; unqueued = g.unqueued }

  -- A thread that waits to send when its alert is in no queue waits on in every state that steps
  -- without spurious wakeups lead to.
  pub spent_alert_waits_on :
      {capacity t : ℕ} {x : A} {s s' : Channel A}
      → s.threads t ≡ Thread.blocked_send x
      → Absent t s.sendq
      → Steps capacity s s'
      → s'.threads t ≡ Thread.blocked_send x
  spent_alert_waits_on {capacity} {t} {x} {s} w a steps = (kept steps).waits
    where
      kept : {s' : Channel A} → Steps capacity s s' → IsForgotten t x s'
      kept here = record { waits = w; unqueued = a }
      kept (onward r st) = Step-IsForgotten (kept r) st
