-- ===== src/Channel/Sync/Wakeups.antt =====
-- Receivers of a `SyncChannel` that are woken before their item is there.
use coplus.Prelude.{
  Absent, Absent-append, ℕ, ◌≡◌, ◌≢◌, sym, ap, ◌∙◌, ◌==◌, if◌then◌else◌, assign, ℕ_discrete, subst,
  arith,
}
use coplus.Channel.{Event}
use coplus.Channel.Sync.{
  Party, SyncChannel, Step, announce_send, wait_send, retry_send, finish_send, announce_recv,
  wait_recv, retry_recv, finish_recv, close, open_up, go_round, leave, no_sender, no_receiver, pair,
  paired, wake_sender,
}

-- No spurious wakeup occurs on the way.
pub data Steps {A : Type 0} (s : SyncChannel A) : SyncChannel A → Type 0 where
  here : Steps s s
  onward : {e : Event A} {s' s'' : SyncChannel A} → Steps s s' → Step s' e s'' → Steps s s''

module _ {A : Type 0} where
  -- The thread waits to receive, and its alert is in no queue.
  pub record IsStranded (t : ℕ) (s : SyncChannel A) : Type 0 where
    pub waits : s.threads t ≡ Party.blocked_recv
    pub unqueued : Absent t s.recvq

  module _ {t : ℕ} {s : SyncChannel A} (g : IsStranded t s) where
    -- A thread that stands elsewhere is another thread.
    other : (u : ℕ) {p : Party A} → s.threads u ≡ p → (Party.blocked_recv ≡ p → ⊥) → t ≢ u
    other u q apart e = apart (sym g.waits ∙ ap s.threads e ∙ q)

    -- Its change leaves the stranded one alone.
    elsewhere : (u : ℕ) (b : Party A) → t ≢ u → assign s.threads u b t ≡ Party.blocked_recv
    elsewhere u b ne = ground (arith, g.waits)

    moved :
        (u : ℕ) {p : Party A} (b : Party A)
        → s.threads u ≡ p
        → (Party.blocked_recv ≡ p → ⊥)
        → IsStranded t (record s { threads = assign s.threads u b })
    moved u b q apart = record { waits = elsewhere u b (other u q apart); unqueued = g.unqueued }

    still_waits : (u : ℕ) → assign s.threads u (wake_sender (s.threads u)) t ≡ Party.blocked_recv
    still_waits u = elim (ℕ_discrete t u) [
      | no ne ↦ elsewhere u _ ne
      | yes e ↦ rw (← e) (woken (s.threads t) g.waits)
    ]
      where
        woken :
            (th : Party A)
            → th ≡ Party.blocked_recv
            → (if t == t then wake_sender th else th) ≡ Party.blocked_recv
        woken th p = rw p (ground arith)

  Step-IsStranded :
      {t : ℕ} {s s' : SyncChannel A} {e : Event A} → IsStranded t s → Step s e s' → IsStranded t s'
  Step-IsStranded g (announce_send u x p f) =
      let g' = moved g u (Party.announced_send x) p (λ e. cc) in
      record { waits = g'.waits; unqueued = g'.unqueued }
  Step-IsStranded g (wait_send u x p) = moved g u _ p (λ e. cc)
  Step-IsStranded g (retry_send u x y p b) = moved g u _ p (λ e. cc)
  Step-IsStranded g (finish_send u x p b) =
      let g' = moved g u Party.idle p (λ e. cc) in
      record { waits = g'.waits; unqueued = g'.unqueued }
  Step-IsStranded {t} {s} g (announce_recv u p f) =
      let ne = other g u p (λ e. cc) in
      record {
        waits = elsewhere g u Party.announced_recv ne;
        unqueued = Absent-append t u s.recvq g.unqueued ne;
      }
  Step-IsStranded g (wait_recv u p) = moved g u _ p (λ e. cc)
  Step-IsStranded g (retry_recv u p b) = moved g u _ p (λ e. cc)
  Step-IsStranded g (finish_recv u x p b) =
      let g' = moved g u Party.idle p (λ e. cc) in
      record { waits = g'.waits; unqueued = g'.unqueued }
  Step-IsStranded g close = record { waits = g.waits; unqueued = g.unqueued }
  Step-IsStranded g (open_up p) = record { waits = g.waits; unqueued = g.unqueued }
  Step-IsStranded g (go_round p c) = record { waits = g.waits; unqueued = g.unqueued }
  Step-IsStranded g (leave p c) = record { waits = g.waits; unqueued = g.unqueued }
  Step-IsStranded g (no_sender p q) = record { waits = g.waits; unqueued = g.unqueued }
  Step-IsStranded g (no_receiver p q) = record { waits = g.waits; unqueued = g.unqueued }
  Step-IsStranded g (pair u v us vs p q r) = record {
    waits = still_waits g u;
    unqueued = g.unqueued;
  }
  Step-IsStranded {t} g (paired u v us vs p q r) =
      let a = subst (Absent t) r g.unqueued in
      record { waits = elsewhere g v _ a.0; unqueued = a.1 }

  -- A thread that waits to receive when its alert is in no queue waits on in every state that steps
  -- without spurious wakeups lead to.
  pub stranded_receiver_waits_on :
      {t : ℕ} {s s' : SyncChannel A}
      → s.threads t ≡ Party.blocked_recv
      → Absent t s.recvq
      → Steps s s'
      → s'.threads t ≡ Party.blocked_recv
  stranded_receiver_waits_on {t} {s} w a steps = (kept steps).waits
    where
      kept : {s' : SyncChannel A} → Steps s s' → IsStranded t s'
      kept here = record { waits = w; unqueued = a }
      kept (onward r st) = Step-IsStranded (kept r) st
