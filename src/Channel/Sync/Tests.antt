-- ===== src/Channel/Sync/Tests.antt =====
-- A schedule of a `SyncChannel` in which the receiver of a pair wakes first.
use coplus.Prelude.{ℕ, ◌≡◌, refl, List, [], ◌++◌, false, some}
use coplus.Channel.Sync.{
  Party, SyncChannel, announce_send, wait_send, finish_send, announce_recv, wait_recv, retry_recv,
  open_up, go_round, no_sender, pair, paired, Run, fresh, next,
}
use coplus.Channel.Sync.Order.{in_flight, handed_over_in_order}
use coplus.Channel.Sync.Wakeups.{Steps, here, onward, stranded_receiver_waits_on}

-- A run with what went through.
abbrev Trace : Type 0
Trace = (given : List ℕ) × (taken : List ℕ) × (s : SyncChannel ℕ) × Run given taken s

-- Thread 0 sends 5, thread 1 receives, and both wait.
abbrev waiting : Trace
waiting = (
  _,
  _,
  _,
  next
      (next
        (next (next (next (fresh false) (announce_send 0 5 refl refl)) (announce_recv 1 refl refl))
          (wait_send 0 5 refl))
        (wait_recv 1 refl))
      (open_up refl),
)

-- The scheduler pairs them; the receiver wakes first, finds nothing and waits again.
abbrev stranded : Trace
stranded = (
  _,
  _,
  _,
  next
      (next (next (next waiting.3 (go_round refl refl)) (pair 0 1 [] [] refl refl refl))
        (paired 0 1 [] [] refl refl refl))
      (retry_recv 1 refl refl),
)

-- The sender hands its item over, and the scheduler goes round.
abbrev handed_over : (s : SyncChannel ℕ) × Steps stranded.2 s
handed_over = (
  _,
  onward (onward (onward here (finish_send 0 5 refl refl)) (go_round refl refl))
      (no_sender refl refl),
)

handed_over_state : handed_over.0.buffer ≡ some 5
handed_over_state = refl

handed_over_in_order_example : stranded.1 ++ in_flight stranded.2.buffer ≡ stranded.0
handed_over_in_order_example = handed_over_in_order stranded.3

stranded_receiver_waits_on_example : handed_over.0.threads 1 ≡ Party.blocked_recv
stranded_receiver_waits_on_example = stranded_receiver_waits_on {t = 1} refl tt handed_over.1
