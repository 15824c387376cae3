-- ===== src/LocalQueue/Threads/Capacity.antt =====
-- The producer's side of a `FastLocalQueue` under threads: it never runs more than `queue_size`
-- items ahead of the calls of `pop` that are complete.
use coplus.Prelude.{
  ℕ, suc, ◌+◌, ◌≤◌, ◌<◌, ◌^◌, ◌-◌, ◌≡◌, refl, tally, tally-assign, tally_constant, arith,
}
use coplus.LocalQueue.{LocalQueue, init}
use coplus.LocalQueue.Threads.{
  Pc, Producer, Pop, Push, System, produce, consume, Reach, here, later,
}
use coplus.LocalQueue.Threads.Safety.{Reach-Inv, claims-le-tail}

module _ {A : Type 0} where
  -- A consumer between its claim of a slot and its update of `head`.
  abbrev pub holds : Pc A → ℕ
  holds (Pc.claimed a) = 1
  holds (Pc.holding x) = 1
  holds _ = 0

  -- What the producer's local variables say, and what its counters add up to.
  abbrev pub Produces : ℕ → LocalQueue A → Producer A → Type 0
  Produces q m Producer.idle =
      (m.enqueue_count ≡ m.enqueue_revoke + m.tail) × (m.tail_fast ≡ m.tail)
  Produces q m (Producer.loaded x r) =
      (m.enqueue_count ≡ m.enqueue_revoke + m.tail)
      × (m.tail_fast ≡ m.tail)
      × (r ≡ m.enqueue_revoke)
  Produces q m (Producer.counted x r enq) =
      (m.enqueue_count ≡ m.enqueue_revoke + m.tail + 1)
      × (m.tail_fast ≡ m.tail)
      × (r ≡ m.enqueue_revoke)
      × (enq ≡ m.enqueue_count)
  Produces q m Producer.refused =
      (m.enqueue_count ≡ m.enqueue_revoke + m.tail + 1) × (m.tail_fast ≡ m.tail)
  Produces q m (Producer.admitted x) =
      (m.enqueue_count ≡ m.enqueue_revoke + m.tail + 1)
      × (m.tail_fast ≡ m.tail)
      × (m.tail < m.head + q)
  Produces q m (Producer.claimed x slot) =
      (m.enqueue_count ≡ m.enqueue_revoke + m.tail + 1)
      × (m.tail_fast ≡ m.tail + 1)
      × (m.tail < m.head + q)
      × (slot ≡ m.tail)
  Produces q m Producer.written =
      (m.enqueue_count ≡ m.enqueue_revoke + m.tail + 1)
      × (m.tail_fast ≡ m.tail + 1)
      × (m.tail < m.head + q)

  pub record Account (q n k : ℕ) (s : System A) : Type 0 where
    pub enqueue_count_in : s.mem.enqueue_count ≤ k
    pub head_in : s.mem.head ≤ k
    pub completions : s.mem.head + tally holds n s.consumer ≡ s.mem.head_fast
    pub bounded : s.mem.tail ≤ s.mem.head + q
    pub producing : Produces q s.mem s.producer

  Push-Produces :
      {q k : ℕ} {m m' : LocalQueue A} {p p' : Producer A}
      → Push q m p m' p'
      → k < 2 ^ 31 - 1
      → q ≤ 2 ^ 31
      → m.enqueue_count ≤ k
      → m.head ≤ m.tail
      → m.tail ≤ m.head + q
      → Produces q m p
      → (m'.enqueue_count ≤ suc k)
        × (m'.head ≡ m.head)
        × (m'.head_fast ≡ m.head_fast)
        × (m'.tail ≤ m'.head + q)
        × Produces q m' p'
  Push-Produces (Push.load x) ks qs en ht bd pr = ground arith
  Push-Produces (Push.admit t) ks qs en ht bd pr = ground arith
  Push-Produces mv ks qs en ht bd pr = ground arith

  -- `pop` moves none of the producer's counters, and `head` only grows.
  Pop-Produces :
      (q : ℕ) (m m' : LocalQueue A) (p : Producer A)
      → m'.enqueue_count ≡ m.enqueue_count
      → m'.enqueue_revoke ≡ m.enqueue_revoke
      → m'.tail ≡ m.tail
      → m'.tail_fast ≡ m.tail_fast
      → m.head ≤ m'.head
      → Produces q m p
      → Produces q m' p
  Pop-Produces q m m' Producer.idle a b c e h pr = omega arith
  Pop-Produces q m m' p a b c e h pr = omega arith

  Pop-counters :
      {d : A} {q k : ℕ} {m m' : LocalQueue A} {p p' : Pc A}
      → Pop d q m p m' p'
      → m.head ≤ k
      → m.head_fast ≤ k
      → k < 2 ^ 31 - 1
      → (m'.enqueue_count ≡ m.enqueue_count)
        × (m'.enqueue_revoke ≡ m.enqueue_revoke)
        × (m'.tail ≡ m.tail)
        × (m'.tail_fast ≡ m.tail_fast)
        × (m.head ≤ m'.head)
        × (m'.head ≤ suc k)
        × (m'.head + holds p' + m.head_fast ≡ m.head + holds p + m'.head_fast)
  Pop-counters Pop.load h f s = omega arith
  Pop-counters mv h f s = omega arith

  pub Reach-Account :
      {d : A} {q n k : ℕ} {s : System A}
      → k < 2 ^ 31
      → q ≤ 2 ^ 31
      → Reach d q n k s
      → Account q n k s
  unfolding init
  Reach-Account {n} small qs here = record {
    enqueue_count_in = omega arith;
    head_in = omega arith;
    completions = omega (arith, tally_constant holds n Pc.idle refl);
    bounded = omega arith;
    producing = omega arith;
  }
  Reach-Account {n} {k = suc k} small qs (later {s = s} r (produce mv)) =
      let a = Reach-Account (omega arith) qs r in
      let le = claims-le-tail (omega arith) r in
      let f =
        Push-Produces {k = k} mv (omega arith) qs a.enqueue_count_in (omega (arith, a.completions))
          a.bounded a.producing in
      record {
        enqueue_count_in = f.0;
        head_in = omega (arith, a.head_in);
        completions = omega (arith, a.completions);
        bounded = f.3;
        producing = f.4;
      }
  Reach-Account {n} {k = suc k} small qs (later {s = s} r (consume i {m = m} {p = p} lt mv)) =
      let a = Reach-Account (omega arith) qs r in
      let inv = (Reach-Inv (omega arith) r).1 in
      let f = Pop-counters {k = k} mv a.head_in inv.head_fast_in (omega arith) in
      record {
        enqueue_count_in = omega (arith, a.enqueue_count_in);
        head_in = f.5;
        completions = omega (arith, a.completions, tally-assign holds n s.consumer i p lt);
        bounded = omega (arith, a.bounded);
        producing = Pop-Produces _ s.mem m s.producer f.0 f.1 f.2 f.3 f.4 a.producing;
      }

  -- However the threads interleave, the published items outnumber the complete calls of `pop` by
  -- `queue_size` at most, and so do they while the producer holds a slot to write.
  pub Reach-capacity :
      {d : A} {q n k : ℕ} {s : System A}
      → k < 2 ^ 31
      → q ≤ 2 ^ 31
      → Reach d q n k s
      → (s.mem.head ≤ s.mem.head_fast)
        × (s.mem.head_fast ≤ s.mem.tail)
        × (s.mem.tail ≤ s.mem.head + q)
        × ((x : A) (slot : ℕ)
            → s.producer ≡ Producer.claimed x slot
            → (slot ≡ s.mem.tail) × (slot < s.mem.head + q))
  Reach-capacity small qs r =
      let a = Reach-Account small qs r in
      (
        omega (arith, a.completions),
        omega (arith, claims-le-tail small r),
        a.bounded,
        λ x slot e. ground (arith, a.producing),
      )
