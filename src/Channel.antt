-- ===== src/Channel.antt =====
-- The buffered `Channel` of include/coplus/channel.h: threads in `<<` and `>>`, the scheduler thread
-- that the constructor starts, and `close`. A step is a critical section, or the part of one that
-- a nested lock delimits.
pub mod Order
pub mod Wakeups
pub mod Sync
mod Tests
use coplus.Prelude.{ℕ, ◌≡◌, List, [], ◌∷◌, ◌++◌, Bool, true, false, ltb, length, assign}

-- Where a thread stands: outside; with its alert queued, or woken, about to lock `buffer_lock` and
-- test the buffer; or waiting on its alert.
pub data Thread (A : Type 0) : Type 0 where
  idle : Thread A
  sending : A → Thread A
  blocked_send : A → Thread A
  receiving : Thread A
  blocked_recv : Thread A

-- Where the scheduler stands. From `locked` to `served` it holds `buffer_lock`.
pub data Scheduler : Type 0 where
  starting : Scheduler
  testing : Scheduler
  entering : Scheduler
  locked : Scheduler
  half_served : Scheduler
  served : Scheduler
  stopped : Scheduler

-- An alert is `thread_local`, one for each direction: in a queue it is its thread's number.
pub record Channel (A : Type 0) : Type 0 where
  pub recvq : List ℕ
  pub sendq : List ℕ
  pub buffer : List A
  pub closed : Bool
  pub scheduler : Scheduler
  pub threads : ℕ → Thread A

abbrev pub buffer_free : Scheduler → Bool
buffer_free Scheduler.locked = false
buffer_free Scheduler.half_served = false
buffer_free Scheduler.served = false
buffer_free Scheduler.starting = true
buffer_free Scheduler.testing = true
buffer_free Scheduler.entering = true
buffer_free Scheduler.stopped = true

module _ {A : Type 0} where
  -- `closed` holds what the memory happens to hold until the scheduler's first step.
  abbrev pub init : Bool → Channel A
  init closed = record {
    recvq = [];
    sendq = [];
    buffer = [];
    closed = closed;
    scheduler = Scheduler.starting;
    threads = λ _. Thread.idle;
  }

  -- `notify_one` on the alert of a sender, or of a receiver: it wakes the thread if that waits.
  abbrev pub wake_sender : Thread A → Thread A
  wake_sender (Thread.blocked_send x) = Thread.sending x
  wake_sender Thread.idle = Thread.idle
  wake_sender (Thread.sending x) = Thread.sending x
  wake_sender Thread.receiving = Thread.receiving
  wake_sender Thread.blocked_recv = Thread.blocked_recv

  abbrev pub wake_receiver : Thread A → Thread A
  wake_receiver Thread.blocked_recv = Thread.receiving
  wake_receiver Thread.idle = Thread.idle
  wake_receiver (Thread.sending x) = Thread.sending x
  wake_receiver (Thread.blocked_send x) = Thread.blocked_send x
  wake_receiver Thread.receiving = Thread.receiving

  unfoldable pub notify_sender : Channel A → List ℕ → Channel A
  notify_sender s [] = s
  notify_sender s (t ∷ ts) = record s {
    sendq = ts;
    threads = assign s.threads t (wake_sender (s.threads t));
  }

  unfoldable pub notify_receiver : Channel A → List ℕ → Channel A
  notify_receiver s [] = s
  notify_receiver s (t ∷ ts) = record s {
    recvq = ts;
    threads = assign s.threads t (wake_receiver (s.threads t));
  }

  -- The two halves of the scheduler's round.
  unfoldable pub serve_senders : ℕ → Channel A → Channel A
  serve_senders capacity s = elim (ltb (length s.buffer) capacity) [
    | false ↦ s
    | true ↦ notify_sender s s.sendq
  ]

  unfoldable pub serve_receivers : Channel A → Channel A
  serve_receivers s = elim (ltb 0 (length s.buffer)) [
    | false ↦ s
    | true ↦ notify_receiver s s.recvq
  ]

-- What a step moves through the channel.
pub data Event (A : Type 0) : Type 0 where
  quiet : Event A
  sent : A → Event A
  received : A → Event A

-- Without spurious wakeups.
pub data Step {A : Type 0} (capacity : ℕ) (s : Channel A) : Event A → Channel A → Type 0 where
  -- `<<`: the alert is queued.
  announce_send :
      (t : ℕ) (x : A)
      → s.threads t ≡ Thread.idle
      → Step capacity s Event.quiet
          (record s { sendq = s.sendq ++ t ∷ []; threads = assign s.threads t (Thread.sending x) })
  -- The test fails, and the thread waits.
  block_send :
      (t : ℕ) (x : A)
      → s.threads t ≡ Thread.sending x
      → buffer_free s.scheduler ≡ true
      → ltb (length s.buffer) capacity ≡ false
      → Step capacity s Event.quiet
          (record s { threads = assign s.threads t (Thread.blocked_send x) })
  -- The test holds, and the item goes in.
  finish_send :
      (t : ℕ) (x : A)
      → s.threads t ≡ Thread.sending x
      → buffer_free s.scheduler ≡ true
      → ltb (length s.buffer) capacity ≡ true
      → Step capacity s
          (Event.sent x)
          (record s { buffer = s.buffer ++ x ∷ []; threads = assign s.threads t Thread.idle })
  -- `>>`
  announce_recv :
      (t : ℕ)
      → s.threads t ≡ Thread.idle
      → Step capacity s Event.quiet
          (record s { recvq = s.recvq ++ t ∷ []; threads = assign s.threads t Thread.receiving })
  block_recv :
      (t : ℕ)
      → s.threads t ≡ Thread.receiving
      → buffer_free s.scheduler ≡ true
      → s.buffer ≡ []
      → Step capacity s Event.quiet (record s { threads = assign s.threads t Thread.blocked_recv })
  finish_recv :
      (t : ℕ) (x : A) (rest : List A)
      → s.threads t ≡ Thread.receiving
      → buffer_free s.scheduler ≡ true
      → s.buffer ≡ x ∷ rest
      → Step capacity s
          (Event.received x)
          (record s { buffer = rest; threads = assign s.threads t Thread.idle })
  close : Step capacity s Event.quiet (record s { closed = true })
  -- The scheduler.
  open_up :
      s.scheduler ≡ Scheduler.starting
      → Step capacity s Event.quiet (record s { closed = false; scheduler = Scheduler.testing })
  go_round :
      s.scheduler ≡ Scheduler.testing
      → s.closed ≡ false
      → Step capacity s Event.quiet (record s { scheduler = Scheduler.entering })
  leave :
      s.scheduler ≡ Scheduler.testing
      → s.closed ≡ true
      → Step capacity s Event.quiet (record s { scheduler = Scheduler.stopped })
  lock :
      s.scheduler ≡ Scheduler.entering
      → Step capacity s Event.quiet (record s { scheduler = Scheduler.locked })
  senders :
      s.scheduler ≡ Scheduler.locked
      → Step capacity s Event.quiet
          (record (serve_senders capacity s) { scheduler = Scheduler.half_served })
  receivers :
      s.scheduler ≡ Scheduler.half_served
      → Step capacity s Event.quiet (record (serve_receivers s) { scheduler = Scheduler.served })
  unlock :
      s.scheduler ≡ Scheduler.served
      → Step capacity s Event.quiet (record s { scheduler = Scheduler.testing })

-- What a condition variable may do on its own.
pub data Spurious {A : Type 0} (s : Channel A) : Channel A → Type 0 where
  wake :
      (t : ℕ)
      → Spurious s
          (record s { threads = assign s.threads t (wake_sender (wake_receiver (s.threads t))) })

module _ {A : Type 0} where
  abbrev pub sends : Event A → List A
  sends Event.quiet = []
  sends (Event.sent x) = x ∷ []
  sends (Event.received x) = []

  abbrev pub receipts : Event A → List A
  receipts Event.quiet = []
  receipts (Event.sent x) = []
  receipts (Event.received x) = x ∷ []

-- `Run capacity given taken s`: the channel can come to `s` while the items `given` are sent and
-- the items `taken` are received.
pub data Run {A : Type 0} (capacity : ℕ) : List A → List A → Channel A → Type 0 where
  fresh : (closed : Bool) → Run capacity [] [] (init closed)
  next :
      {given taken : List A} {e : Event A} {s s' : Channel A}
      → Run capacity given taken s
      → Step capacity s e s'
      → Run capacity (given ++ sends e) (taken ++ receipts e) s'
  spurious :
      {given taken : List A} {s s' : Channel A}
      → Run capacity given taken s
      → Spurious s s'
      → Run capacity given taken s'
