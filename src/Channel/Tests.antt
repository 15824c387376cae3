-- ===== src/Channel/Tests.antt =====
-- A schedule of a buffered `Channel` with one place in which an alert is spent too early.
use coplus.Prelude.{ℕ, ◌≤◌, ◌≡◌, refl, List, [], ◌∷◌, ◌++◌, false, length, arith}
use coplus.Channel.{
  Thread, Channel, announce_send, block_send, finish_send, announce_recv, finish_recv, open_up,
  go_round, lock, senders, receivers, unlock, Run, fresh, next, serve_senders, serve_receivers,
  notify_sender, notify_receiver,
}
use coplus.Channel.Order.{bounded_and_in_order}
use coplus.Channel.Wakeups.{Steps, here, onward, spent_alert_waits_on}

-- A run with what went through.
abbrev Trace : Type 0
Trace = (given : List ℕ) × (taken : List ℕ) × (s : Channel ℕ) × Run 1 given taken s

abbrev opened : Trace
opened = (_, _, _, next (next (next (fresh false) (open_up refl)) (go_round refl refl)) (lock refl))

-- Thread 0 queues its alert, and the scheduler spends it at once.
abbrev spent : Trace
unfolding serve_senders serve_receivers notify_sender notify_receiver
spent = (
  _,
  _,
  _,
  next (next (next (next opened.3 (announce_send 0 5 refl)) (senders refl)) (receivers refl))
      (unlock refl),
)

-- Thread 1 fills the buffer, and thread 0 waits.
abbrev parked : Trace
unfolding serve_senders serve_receivers notify_sender notify_receiver
parked = (
  _,
  _,
  _,
  next (next (next spent.3 (announce_send 1 6 refl)) (finish_send 1 6 refl refl refl))
      (block_send 0 5 refl refl refl),
)

parked_state :
    (parked.2.threads 0 ≡ Thread.blocked_send 5)
    × (parked.2.sendq ≡ 1 ∷ [])
    × (parked.2.buffer ≡ 6 ∷ [])
unfolding serve_senders serve_receivers notify_sender notify_receiver
parked_state = (refl, refl, refl)

-- Thread 2 empties the buffer, and the scheduler goes round with room in it and no alert left.
abbrev drained : (s : Channel ℕ) × Steps 1 parked.2 s
unfolding serve_senders serve_receivers notify_sender notify_receiver
drained = (
  _,
  onward
      (onward
        (onward
          (onward
            (onward
              (onward (onward here (announce_recv 2 refl)) (finish_recv 2 6 [] refl refl refl))
              (go_round refl refl))
            (lock refl))
          (senders refl))
        (receivers refl))
      (unlock refl),
)

drained_state : (drained.0.buffer ≡ []) × (drained.0.sendq ≡ [])
unfolding serve_senders serve_receivers notify_sender notify_receiver
drained_state = (refl, refl)

bounded_and_in_order_example :
    (parked.1 ++ parked.2.buffer ≡ parked.0) × (length parked.2.buffer ≤ 1)
bounded_and_in_order_example = bounded_and_in_order parked.3

spent_alert_waits_on_example : drained.0.threads 0 ≡ Thread.blocked_send 5
unfolding serve_senders serve_receivers notify_sender notify_receiver
spent_alert_waits_on_example =
    spent_alert_waits_on {t = 0} refl (λ e. omega (arith, e), tt) drained.1
