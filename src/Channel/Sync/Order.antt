-- ===== src/Channel/Sync/Order.antt =====
-- Through a `SyncChannel` no item is lost, overwritten or taken twice.
use coplus.Prelude.{
  ◌≡◌, refl, sym, ap, ◌∙◌, List, [], ◌∷◌, ◌++◌, Option, none, some, append-nil, append_assoc,
}
use coplus.Channel.{Event, sends, receipts}
use coplus.Channel.Sync.{
  SyncChannel, Step, announce_send, wait_send, retry_send, finish_send, announce_recv, wait_recv,
  retry_recv, finish_recv, close, open_up, go_round, leave, no_sender, no_receiver, pair, paired,
  wake, Run, fresh, next, spurious,
}

module _ {A : Type 0} where
  abbrev pub in_flight : Option A → List A
  in_flight none = []
  in_flight (some x) = x ∷ []

  -- A step moves what its event says.
  Step-flow :
      {s s' : SyncChannel A} {e : Event A}
      → Step s e s'
      → receipts e ++ in_flight s'.buffer ≡ in_flight s.buffer ++ sends e
  Step-flow {s} (announce_send t x p f) = sym (append-nil (in_flight s.buffer))
  Step-flow {s} (wait_send t x p) = sym (append-nil (in_flight s.buffer))
  Step-flow {s} (retry_send t x y p b) = sym (append-nil (in_flight s.buffer))
  Step-flow (finish_send t x p b) = rw b refl
  Step-flow {s} (announce_recv t p f) = sym (append-nil (in_flight s.buffer))
  Step-flow {s} (wait_recv t p) = sym (append-nil (in_flight s.buffer))
  Step-flow {s} (retry_recv t p b) = sym (append-nil (in_flight s.buffer))
  Step-flow (finish_recv t x p b) = rw b refl
  Step-flow {s} close = sym (append-nil (in_flight s.buffer))
  Step-flow {s} (open_up p) = sym (append-nil (in_flight s.buffer))
  Step-flow {s} (go_round p c) = sym (append-nil (in_flight s.buffer))
  Step-flow {s} (leave p c) = sym (append-nil (in_flight s.buffer))
  Step-flow {s} (no_sender p q) = sym (append-nil (in_flight s.buffer))
  Step-flow {s} (no_receiver p q) = sym (append-nil (in_flight s.buffer))
  Step-flow {s} (pair t u ts us p q r) = sym (append-nil (in_flight s.buffer))
  Step-flow {s} (paired t u ts us p q r) = sym (append-nil (in_flight s.buffer))

  -- In every state that the threads, the scheduler and spurious wakeups reach, the items received
  -- followed by the one in the pointer, where there is one, are the items sent, in order.
  pub handed_over_in_order :
      {given taken : List A} {s : SyncChannel A}
      → Run given taken s
      → taken ++ in_flight s.buffer ≡ given
  handed_over_in_order (fresh c) = refl
  handed_over_in_order (next {given} {taken} {e} {s} {s'} r st) =
      append_assoc taken (receipts e) (in_flight s'.buffer)
      ∙ ap (λ xs. taken ++ xs) (Step-flow st)
      ∙ sym (append_assoc taken (in_flight s.buffer) (sends e))
      ∙ ap (λ xs. xs ++ sends e) (handed_over_in_order r)
  handed_over_in_order (spurious r (wake t)) = handed_over_in_order r
