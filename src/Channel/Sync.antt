-- ===== src/Channel/Sync.antt =====
-- `SyncChannel` of include/coplus/channel.h, the `Channel` of capacity 0: the scheduler thread pairs
-- a sender with a receiver, and the item passes through one pointer. A step is a critical section,
-- or one of the two notifications.
pub mod Order
pub mod Wakeups
mod Tests
use coplus.Prelude.{ℕ, ◌≡◌, List, [], ◌∷◌, ◌++◌, Bool, true, false, Option, none, some, assign}
use coplus.Channel.{Event, sends, receipts}

-- Where a thread stands: outside; with its alert queued, about to lock `buffer_lock`; waiting; or
-- woken. The first test of the buffer fails whatever it holds, since `wakeonly` is 0 there.
pub data Party (A : Type 0) : Type 0 where
  idle : Party A
  announced_send : A → Party A
  blocked_send : A → Party A
  woken_send : A → Party A
  announced_recv : Party A
  blocked_recv : Party A
  woken_recv : Party A

-- In `pairing` the scheduler holds both queues' locks and has notified the sender.
pub data Matcher : Type 0 where
  starting : Matcher
  testing : Matcher
  entering : Matcher
  pairing : Matcher
  stopped : Matcher

pub record SyncChannel (A : Type 0) : Type 0 where
  pub recvq : List ℕ
  pub sendq : List ℕ
  pub buffer : Option A
  pub closed : Bool
  pub scheduler : Matcher
  pub threads : ℕ → Party A

abbrev pub queues_free : Matcher → Bool
queues_free Matcher.pairing = false
queues_free Matcher.starting = true
queues_free Matcher.testing = true
queues_free Matcher.entering = true
queues_free Matcher.stopped = true

module _ {A : Type 0} where
  abbrev pub init : Bool → SyncChannel A
  init closed = record {
    recvq = [];
    sendq = [];
    buffer = none;
    closed = closed;
    scheduler = Matcher.starting;
    threads = λ _. Party.idle;
  }

  abbrev pub wake_sender : Party A → Party A
  wake_sender (Party.blocked_send x) = Party.woken_send x
  wake_sender Party.idle = Party.idle
  wake_sender (Party.announced_send x) = Party.announced_send x
  wake_sender (Party.woken_send x) = Party.woken_send x
  wake_sender Party.announced_recv = Party.announced_recv
  wake_sender Party.blocked_recv = Party.blocked_recv
  wake_sender Party.woken_recv = Party.woken_recv

  abbrev pub wake_receiver : Party A → Party A
  wake_receiver Party.blocked_recv = Party.woken_recv
  wake_receiver Party.idle = Party.idle
  wake_receiver (Party.announced_send x) = Party.announced_send x
  wake_receiver (Party.blocked_send x) = Party.blocked_send x
  wake_receiver (Party.woken_send x) = Party.woken_send x
  wake_receiver Party.announced_recv = Party.announced_recv
  wake_receiver Party.woken_recv = Party.woken_recv

-- Without spurious wakeups.
pub data Step {A : Type 0} (s : SyncChannel A) : Event A → SyncChannel A → Type 0 where
  -- `<<`
  announce_send :
      (t : ℕ) (x : A)
      → s.threads t ≡ Party.idle
      → queues_free s.scheduler ≡ true
      → Step s Event.quiet (record s {
        sendq = s.sendq ++ t ∷ [];
        threads = assign s.threads t (Party.announced_send x);
      })
  wait_send :
      (t : ℕ) (x : A)
      → s.threads t ≡ Party.announced_send x
      → Step s Event.quiet (record s { threads = assign s.threads t (Party.blocked_send x) })
  retry_send :
      (t : ℕ) (x y : A)
      → s.threads t ≡ Party.woken_send x
      → s.buffer ≡ some y
      → Step s Event.quiet (record s { threads = assign s.threads t (Party.blocked_send x) })
  finish_send :
      (t : ℕ) (x : A)
      → s.threads t ≡ Party.woken_send x
      → s.buffer ≡ none
      → Step s
          (Event.sent x)
          (record s { buffer = some x; threads = assign s.threads t Party.idle })
  -- `>>`
  announce_recv :
      (t : ℕ)
      → s.threads t ≡ Party.idle
      → queues_free s.scheduler ≡ true
      → Step s Event.quiet (record s {
        recvq = s.recvq ++ t ∷ [];
        threads = assign s.threads t Party.announced_recv;
      })
  wait_recv :
      (t : ℕ)
      → s.threads t ≡ Party.announced_recv
      → Step s Event.quiet (record s { threads = assign s.threads t Party.blocked_recv })
  retry_recv :
      (t : ℕ)
      → s.threads t ≡ Party.woken_recv
      → s.buffer ≡ none
      → Step s Event.quiet (record s { threads = assign s.threads t Party.blocked_recv })
  finish_recv :
      (t : ℕ) (x : A)
      → s.threads t ≡ Party.woken_recv
      → s.buffer ≡ some x
      → Step s
          (Event.received x)
          (record s { buffer = none; threads = assign s.threads t Party.idle })
  close : Step s Event.quiet (record s { closed = true })
  -- The scheduler.
  open_up :
      s.scheduler ≡ Matcher.starting
      → Step s Event.quiet (record s { closed = false; scheduler = Matcher.testing })
  go_round :
      s.scheduler ≡ Matcher.testing
      → s.closed ≡ false
      → Step s Event.quiet (record s { scheduler = Matcher.entering })
  leave :
      s.scheduler ≡ Matcher.testing
      → s.closed ≡ true
      → Step s Event.quiet (record s { scheduler = Matcher.stopped })
  no_sender :
      s.scheduler ≡ Matcher.entering
      → s.sendq ≡ []
      → Step s Event.quiet (record s { scheduler = Matcher.testing })
  no_receiver :
      s.scheduler ≡ Matcher.entering
      → s.recvq ≡ []
      → Step s Event.quiet (record s { scheduler = Matcher.testing })
  pair :
      (t u : ℕ) (ts us : List ℕ)
      → s.scheduler ≡ Matcher.entering
      → s.sendq ≡ t ∷ ts
      → s.recvq ≡ u ∷ us
      → Step s Event.quiet (record s {
        scheduler = Matcher.pairing;
        threads = assign s.threads t (wake_sender (s.threads t));
      })
  paired :
      (t u : ℕ) (ts us : List ℕ)
      → s.scheduler ≡ Matcher.pairing
      → s.sendq ≡ t ∷ ts
      → s.recvq ≡ u ∷ us
      → Step s Event.quiet (record s {
        scheduler = Matcher.testing;
        sendq = ts;
        recvq = us;
        threads = assign s.threads u (wake_receiver (s.threads u));
      })

-- What a condition variable may do on its own.
pub data Spurious {A : Type 0} (s : SyncChannel A) : SyncChannel A → Type 0 where
  wake :
      (t : ℕ)
      → Spurious s
          (record s { threads = assign s.threads t (wake_sender (wake_receiver (s.threads t))) })

pub data Run {A : Type 0} : List A → List A → SyncChannel A → Type 0 where
  fresh : (closed : Bool) → Run [] [] (init closed)
  next :
      {given taken : List A} {e : Event A} {s s' : SyncChannel A}
      → Run given taken s
      → Step s e s'
      → Run (given ++ sends e) (taken ++ receipts e) s'
  spurious :
      {given taken : List A} {s s' : SyncChannel A}
      → Run given taken s
      → Spurious s s'
      → Run given taken s'
