-- ===== src/LocalQueue/Threads/Consumers/Moves.antt =====
-- A step of `pop` by one consumer keeps what holds of all of them.
use coplus.Prelude.{
  ◌≢◌, Bool-cases, ◌==◌, inl, inr, ℕ, suc, ◌+◌, ◌≤◌, ◌<◌, ◌^◌, ◌-◌, ◌≡◌, refl, tally, tally-suc,
  assign, tally-assign, tally-assign_le, arith,
}
use coplus.LocalQueue.{LocalQueue}
use coplus.LocalQueue.Threads.{Pc, Pop, load, count, refuse, revoke, admit, claim, read, finish}
use coplus.LocalQueue.Threads.Verdicts.{
  Verdict, open', passed, failed, passes, fails, passed_to, failed_to, verdicts_disjoint,
}
use coplus.LocalQueue.Threads.Consumers.{admits, refuses, IsFresh, Inv, note, IsFresh-mono}

module _ {A : Type 0} where
  module _ {d : A} {q n k : ℕ} {m : LocalQueue A} {pc : ℕ → Pc A} {log : ℕ → Verdict}
      (inv : Inv n k m pc log) (small : k < 2 ^ 31 - 1) (i : ℕ) (lt : i < n) where
    open inv use {
      dequeue_count_in, dequeue_revoke_in, tail_in, head_fast_in, first, future, claims, revokes,
      in_time, fresh, unique_call, unique_slot,
    }

    -- The counters after a step, none of which wraps.
    counters :
        {p p' : Pc A} {m' : LocalQueue A}
        → Pop d q m p m' p'
        → (m'.dequeue_count ≤ suc k)
          × (m'.dequeue_revoke ≤ suc k)
          × (m'.tail ≤ suc k)
          × (m'.head_fast ≤ suc k)
    counters load = omega arith
    counters mv = omega arith

    future_kept :
        {p p' : Pc A} {m' : LocalQueue A} (mv : Pop d q m p m' p')
        → pc i ≡ p
        → (c : ℕ) → m'.dequeue_count < c
        → note mv log c ≡ open'
    future_kept load e c h = future c h
    future_kept mv e c h = ground (arith, fresh i, future c)

    first_kept :
        {p p' : Pc A} {m' : LocalQueue A} (mv : Pop d q m p m' p')
        → pc i ≡ p
        → note mv log 0 ≡ open'
    first_kept load e = first
    first_kept mv e = ground (arith, fresh i)

    claims_kept :
        {p p' : Pc A} {m' : LocalQueue A} (mv : Pop d q m p m' p')
        → pc i ≡ p
        → m'.head_fast + tally admits n (assign pc i p') ≡ passed_to (note mv log) m'.dequeue_count
    claims_kept {p'} load e = ground (arith, tally-assign admits n pc i p')
    claims_kept {p'} (refuse {deq} t) e = ground (
      arith,
      fresh i,
      tally-assign admits n pc i p',
      tally-assign passes (suc m.dequeue_count) log deq failed,
    )
    claims_kept {p'} (admit {deq} t) e = ground (
      arith,
      fresh i,
      tally-assign admits n pc i p',
      tally-assign passes (suc m.dequeue_count) log deq passed,
    )
    claims_kept {p'} mv e = ground (
      arith,
      tally-assign admits n pc i p',
      tally-suc passes (suc m.dequeue_count) log,
      future (suc m.dequeue_count),
    )

    revokes_kept :
        {p p' : Pc A} {m' : LocalQueue A} (mv : Pop d q m p m' p')
        → pc i ≡ p
        → m'.dequeue_revoke + tally refuses n (assign pc i p')
          ≡ failed_to (note mv log) m'.dequeue_count
    revokes_kept {p'} load e = ground (arith, tally-assign refuses n pc i p')
    revokes_kept {p'} (refuse {deq} t) e = ground (
      arith,
      fresh i,
      tally-assign refuses n pc i p',
      tally-assign fails (suc m.dequeue_count) log deq failed,
    )
    revokes_kept {p'} (admit {deq} t) e = ground (
      arith,
      fresh i,
      tally-assign refuses n pc i p',
      tally-assign fails (suc m.dequeue_count) log deq passed,
    )
    revokes_kept {p'} mv e = ground (
      arith,
      tally-assign refuses n pc i p',
      tally-suc fails (suc m.dequeue_count) log,
      future (suc m.dequeue_count),
    )

    -- No verdict is taken back.
    failed-le :
        {p p' : Pc A} {m' : LocalQueue A} (mv : Pop d q m p m' p')
        → pc i ≡ p
        → (c : ℕ) → failed_to log c ≤ failed_to (note mv log) c
    failed-le load e c = omega arith
    failed-le (refuse {deq} t) e c =
        tally-assign_le fails (suc c) log deq failed (ground (arith, fresh i))
    failed-le (admit {deq} t) e c =
        tally-assign_le fails (suc c) log deq passed (ground (arith, fresh i))
    failed-le mv e c = omega arith

    in_time_kept :
        {p p' : Pc A} {m' : LocalQueue A} (mv : Pop d q m p m' p')
        → pc i ≡ p
        → (c : ℕ) → note mv log c ≡ passed
        → c ≤ m'.tail + failed_to (note mv log) c
    in_time_kept load e c h = in_time c h
    in_time_kept (refuse {deq} t) e c h =
        ground (arith, in_time c, failed-le (refuse {deq = deq} t) e c)
    in_time_kept (admit {r} {deq} t) e c h = ground (
      arith,
      in_time c,
      fresh i,
      verdicts_disjoint log c first,
      failed-le (admit {deq = deq} t) e c,
    )
    in_time_kept mv e c h = ground (arith, in_time c)

    counts-le :
        {p p' : Pc A} {m' : LocalQueue A}
        → Pop d q m p m' p'
        → (m.dequeue_count ≤ m'.dequeue_count) × (m.head_fast ≤ m'.head_fast) × (m.tail ≤ m'.tail)
    counts-le load = omega arith
    counts-le mv = omega arith

    -- The mover itself.
    own-IsFresh :
        {p p' : Pc A} {m' : LocalQueue A} (mv : Pop d q m p m' p')
        → pc i ≡ p
        → IsFresh m' (note mv log) p'
    own-IsFresh load e = omega (arith, revokes)
    own-IsFresh (count {r}) e =
        ground
          (arith, fresh i, future (suc m.dequeue_count), tally-suc fails (suc m.dequeue_count) log)
    own-IsFresh claim e = omega arith
    own-IsFresh (refuse t) e = tt
    own-IsFresh revoke e = tt
    own-IsFresh (admit t) e = tt
    own-IsFresh read e = tt
    own-IsFresh finish e = tt

    -- Another thread's call has another number.
    still_open :
        {p p' : Pc A} {m' : LocalQueue A} (mv : Pop d q m p m' p')
        → pc i ≡ p
        → (j : ℕ) → j ≢ i
        → (r c : ℕ) → pc j ≡ Pc.counted r c
        → log c ≡ open'
        → note mv log c ≡ open'
    still_open load e j ne r c ej o = o
    still_open (refuse {r = r'} {deq = deq} t) e j ne r c ej o =
        ground (arith, unique_call i j r' r c)
    still_open (admit {r = r'} {deq = deq} t) e j ne r c ej o =
        ground (arith, unique_call i j r' r c)
    still_open mv e j ne r c ej o = o

    IsFresh-kept :
        {p p' : Pc A} {m' : LocalQueue A} (mv : Pop d q m p m' p')
        → pc i ≡ p
        → (j : ℕ) → IsFresh m' (note mv log) (assign pc i p' j)
    IsFresh-kept {m'} mv e j = elim (Bool-cases (j == i)) [
      | inl t ↦ rw t (own-IsFresh mv e)
      | inr f ↦ rw f (
          IsFresh-mono m m' log (note mv log) (pc j) (counts-le mv).0 (counts-le mv).1
            (failed-le mv e) (still_open mv e j (ground arith)) (fresh j))
    ]

    unique_call_kept :
        {p p' : Pc A} {m' : LocalQueue A}
        → Pop d q m p m' p'
        → pc i ≡ p
        → (a b r r' c : ℕ) → assign pc i p' a ≡ Pc.counted r c
        → assign pc i p' b ≡ Pc.counted r' c
        → a ≡ b
    unique_call_kept load e a b r r' c ea eb = ground (arith, unique_call a b r r' c)
    unique_call_kept mv e a b r r' c ea eb =
        ground (arith, unique_call a b r r' c, fresh a, fresh b)

    unique_slot_kept :
        {p p' : Pc A} {m' : LocalQueue A}
        → Pop d q m p m' p'
        → pc i ≡ p
        → (a b s : ℕ) → assign pc i p' a ≡ Pc.claimed s
        → assign pc i p' b ≡ Pc.claimed s
        → a ≡ b
    unique_slot_kept load e a b s ea eb = ground (arith, unique_slot a b s)
    unique_slot_kept mv e a b s ea eb = ground (arith, unique_slot a b s, fresh a, fresh b)

    -- A step of `pop` keeps the invariant.
    pub Pop-Inv :
        {p' : Pc A} {m' : LocalQueue A} (mv : Pop d q m (pc i) m' p')
        → Inv n (suc k) m' (assign pc i p') (note mv log)
    Pop-Inv mv = record {
      dequeue_count_in = (counters mv).0;
      dequeue_revoke_in = (counters mv).1;
      tail_in = (counters mv).2;
      head_fast_in = (counters mv).3;
      first = first_kept mv refl;
      future = future_kept mv refl;
      claims = claims_kept mv refl;
      revokes = revokes_kept mv refl;
      in_time = in_time_kept mv refl;
      fresh = IsFresh-kept mv refl;
      unique_call = unique_call_kept mv refl;
      unique_slot = unique_slot_kept mv refl;
    }
