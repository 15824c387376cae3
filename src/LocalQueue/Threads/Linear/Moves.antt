-- ===== src/LocalQueue/Threads/Linear/Moves.antt =====
-- Each step keeps the account of what the one consumer has read.
use native.Mathlib.Nat.{mod-lt}
use coplus.Prelude.{
  ℕ, suc, ◌+◌, ◌-◌, ◌%◌, ◌<◌, ◌^◌, ◌≡◌, refl, sym, ap, ap₂, ◌∙◌, List, [], ◌∷◌, ◌++◌, append-nil,
  append_assoc, length, length-append, length-set, get_or, set, add32, arith,
}
use coplus.LocalQueue.{LocalQueue}
use coplus.LocalQueue.Refine.{window, window-set, window-suc}
use coplus.LocalQueue.Threads.{Pc, Producer, Pop, Push}
use coplus.LocalQueue.Threads.Linear.{Linear, written_by, read_by, unpublished, unread}

module _ {A : Type 0} where
  module _ {d : A} {q : ℕ} (even : 2 ^ 32 % q ≡ 0) (room : 0 < q) where
    -- A step of the producer that writes nothing.
    Push_quiet :
        {m m' : LocalQueue A} {p p' : Producer A} {c : Pc A} (ws : List A) {rs : List A}
        → Linear d q m p c ws rs
        → m'.cells ≡ m.cells
        → m'.head_fast ≡ m.head_fast
        → m'.tail + unpublished p' ≡ m.tail + unpublished p
        → Linear d q m' p' c (ws ++ []) rs
    Push_quiet ws l cells head tail = record {
      rest = l.rest;
      capacity = rw cells l.capacity;
      wrote = rw (append-nil ws, tail) l.wrote;
      took = rw head l.took;
      next = l.next;
      ahead = rw (append-nil ws) l.ahead;
      items = rw (append-nil ws, cells) l.items;
    }

    Push_write :
        {m : LocalQueue A} {c : Pc A} (ws rs : List A) (x : A) (i : ℕ)
        → Linear d q m (Producer.claimed x i) c ws rs
        → i ≡ m.tail
        → m.tail < length rs + q
        → m.tail < 2 ^ 31
        → Linear d q
            (record m { cells = set m.cells (i % q) x })
            Producer.written
            c
            (ws ++ x ∷ [])
            rs
    Push_write {m} ws rs x i l ei fits small = record {
      rest = suc l.rest;
      capacity = length-set m.cells (i % q) x ∙ l.capacity;
      wrote = omega (arith, length-append ws (x ∷ []), l.wrote);
      took = l.took;
      next = l.next;
      ahead = omega (arith, length-append ws (x ∷ []), l.ahead);
      items =
          ap (λ zs. zs ++ x ∷ []) l.items
          ∙ append_assoc rs _ _
          ∙ ap (λ zs. rs ++ zs)
              (sym (
                window-set d q m.cells (length rs) l.rest (i % q) x even
                  (omega (arith, l.ahead, l.wrote)) (ap (λ j. j % q) place) inside));
    }
      where
        place : i ≡ add32 (length rs) l.rest
        place = omega (arith, l.ahead, l.wrote)

        inside : i % q < length m.cells
        inside = omega (arith, l.capacity, mod-lt i room)

    pub Push-Linear :
        {m m' : LocalQueue A} {p p' : Producer A} {c : Pc A} (ws rs : List A)
        (mv : Push q m p m' p')
        → Linear d q m p c ws rs
        → m.tail < 2 ^ 31 - 1
        → ((x : A) (i : ℕ) → p ≡ Producer.claimed x i → (i ≡ m.tail) × (m.tail < length rs + q))
        → Linear d q m' p' c (ws ++ written_by mv) rs
    Push-Linear ws rs (Push.write {x} {slot}) l small free =
        let f = free x slot refl in Push_write ws rs x slot l f.0 f.1 (omega arith)
    Push-Linear ws rs (Push.load x) l small free = Push_quiet ws l refl refl refl
    Push-Linear ws rs Push.count l small free = Push_quiet ws l refl refl refl
    Push-Linear ws rs (Push.refuse t) l small free = Push_quiet ws l refl refl refl
    Push-Linear ws rs Push.revoke l small free = Push_quiet ws l refl refl refl
    Push-Linear ws rs (Push.admit t) l small free = Push_quiet ws l refl refl refl
    Push-Linear ws rs Push.claim l small free = Push_quiet ws l refl refl refl
    Push-Linear ws rs Push.publish l small free = Push_quiet ws l refl refl (omega arith)

    -- A step of the consumer that reads nothing.
    Pop_quiet :
        {m m' : LocalQueue A} {p : Producer A} {c c' : Pc A} {ws : List A} (rs : List A)
        → Linear d q m p c ws rs
        → m'.cells ≡ m.cells
        → m'.tail ≡ m.tail
        → unread c' + m.head_fast ≡ unread c + m'.head_fast
        → ((a : ℕ) → c' ≡ Pc.claimed a → a ≡ length rs)
        → Linear d q m' p c' ws (rs ++ [])
    Pop_quiet rs l cells tail head next = record {
      rest = l.rest;
      capacity = rw cells l.capacity;
      wrote = rw tail l.wrote;
      took = rw (append-nil rs) (omega (arith, l.took));
      next = rw (append-nil rs) next;
      ahead = rw (append-nil rs) l.ahead;
      items = rw (append-nil rs, cells) l.items;
    }

    Pop_read :
        {m : LocalQueue A} {p : Producer A} (ws rs : List A) (i r : ℕ)
        → (l : Linear d q m p (Pc.claimed i) ws rs) → l.rest ≡ suc r
        → length ws < 2 ^ 32
        → let x = get_or m.cells (i % q) d in Linear d q m p (Pc.holding x) ws (rs ++ x ∷ [])
    Pop_read {m} ws rs i r l er small = record {
      rest = r;
      capacity = l.capacity;
      wrote = l.wrote;
      took = omega (arith, l.took, more);
      next = λ a e. cc;
      ahead = omega (arith, l.ahead, more);
      items =
          l.items
          ∙ ap (λ k. rs ++ window d q m.cells (length rs) k) er
          ∙ ap (λ zs. rs ++ zs) (window-suc d q m.cells (length rs) r (omega (arith, l.ahead)))
          ∙ ap₂ (λ y h. rs ++ (y ∷ window d q m.cells h r))
              (ap (λ j. get_or m.cells (j % q) d) (sym (l.next i refl))) moved
          ∙ sym (append_assoc rs (get_or m.cells (i % q) d ∷ []) _);
    }
      where
        more : length (rs ++ get_or m.cells (i % q) d ∷ []) ≡ length rs + 1
        more = length-append rs (get_or m.cells (i % q) d ∷ [])

        moved : add32 (length rs) 1 ≡ length (rs ++ get_or m.cells (i % q) d ∷ [])
        moved = omega (arith, l.ahead, more)

    pub Pop-Linear :
        {m m' : LocalQueue A} {p : Producer A} {c c' : Pc A} (ws rs : List A)
        (mv : Pop d q m c m' c')
        → Linear d q m p c ws rs
        → m.tail < 2 ^ 31 - 1
        → m.head_fast < 2 ^ 31 - 1
        → ((i : ℕ) → c ≡ Pc.claimed i → i < m.tail)
        → Linear d q m' p c' ws (rs ++ read_by mv)
    Pop-Linear {m} {p} ws rs (Pop.read {slot}) l ts hs below =
        Pop_read ws rs slot (l.rest - 1) l more (ground (arith, l.wrote))
      where
        more : l.rest ≡ suc (l.rest - 1)
        more = omega (arith, l.ahead, l.wrote, below slot refl, l.next slot refl)
    Pop-Linear ws rs Pop.load l ts hs below = Pop_quiet rs l refl refl refl (λ a e. cc)
    Pop-Linear ws rs Pop.count l ts hs below = Pop_quiet rs l refl refl refl (λ a e. cc)
    Pop-Linear ws rs (Pop.refuse t) l ts hs below = Pop_quiet rs l refl refl refl (λ a e. cc)
    Pop-Linear ws rs Pop.revoke l ts hs below = Pop_quiet rs l refl refl refl (λ a e. cc)
    Pop-Linear ws rs (Pop.admit t) l ts hs below = Pop_quiet rs l refl refl refl (λ a e. cc)
    Pop-Linear ws rs Pop.claim l ts hs below =
        Pop_quiet rs l refl refl (omega arith) (λ a e. ground (arith, l.took))
    Pop-Linear ws rs Pop.finish l ts hs below = Pop_quiet rs l refl refl refl (λ a e. cc)
