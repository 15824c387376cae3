-- ===== src/SlowQueue/Order.antt =====
-- What a `SlowQueue` holds, oldest first, and its invariant.
use coplus.Prelude.{
  ℕ, suc, ◌+◌, ◌-◌, ◌≤◌, ◌<◌, ◌≡◌, ◌≢◌, ap, ap₂, sym, ◌∙◌, List, [], ◌∷◌, ◌++◌, ltb, if◌then◌else◌,
  length, get_or, set, tabulate, tabulate-ext, tabulate-suc, length-replicate, length-set,
  get_or-set_self, get_or-set_ne, arith,
}
use coplus.SlowQueue.{SlowQueue, init, push, pop, size}

-- The ring has its capacity, of two at least, and both indices lie in it.
pub record IsValid {A : Type 0} (q : SlowQueue A) : Type 0 where
  pub room : 2 ≤ q.max_size
  pub full_length : length q.ring ≡ q.max_size
  pub head_in : q.head < q.max_size
  pub tail_in : q.tail < q.max_size

-- The index `k` places after `h`, going round at `m`.
abbrev pub position : ℕ → ℕ → ℕ → ℕ
position m h k = if ltb (h + k) m then h + k else h + k - m

position-ne : (m h k n : ℕ) → h < m → n < m → k < n → position m h n ≢ position m h k
position-ne m h k n hh hn hk = ground arith

position-lt : (m h n : ℕ) → h < m → n < m → position m h n < m
position-lt m h n hh hn = ground arith

position-suc :
    (m h k : ℕ) → h < m → suc k < m → position m h (suc k) ≡ position m (position m h 1) k
position-suc m h k hh hk = ground arith

position-zero : (m h : ℕ) → h < m → position m h 0 ≡ h
position-zero m h hh = ground arith

position_one : (m n k : ℕ) → m ≡ suc n → k < n → position m 1 k ≡ position m 0 (suc k)
position_one m n k e h = ground arith

position_last : (m n : ℕ) → m ≡ suc n → position m 1 n ≡ position m 0 0
position_last m n e = ground arith

-- The front goes to the end.
abbrev pub rotate {ℓ} : {A : Type ℓ} → List A → List A
rotate [] = []
rotate (x ∷ xs) = xs ++ x ∷ []

module _ {A : Type 0} (d : A) where
  abbrev pub window : List A → ℕ → ℕ → ℕ → List A
  window ring m h n = tabulate n (λ k. get_or ring (position m h k) d)

  abbrev pub contents : SlowQueue A → List A
  contents q = window q.ring q.max_size q.head (size q)

  -- Writing just past a window extends it.
  pub window-set :
      (ring : List A) (m h n i : ℕ) (x : A)
      → length ring ≡ m
      → h < m
      → n < m
      → i ≡ position m h n
      → window (set ring i x) m h (suc n) ≡ window ring m h n ++ x ∷ []
  window-set ring m h n i x len hh hn e =
      tabulate-suc n _
      ∙ ap₂ (λ xs y. xs ++ y ∷ [])
          (tabulate-ext n _ _
            (λ k p. get_or-set_ne ring i (position m h k) x d (rw e (position-ne m h k n hh hn p))))
          last
    where
      last : get_or (set ring i x) (position m h n) d ≡ x
      last = rw (← e) (get_or-set_self ring i x d (rw (e, len) (position-lt m h n hh hn)))

  -- Dropping the head of a window moves its start on by one.
  pub window-suc :
      (ring : List A) (m h h' n : ℕ)
      → h < m
      → n < m
      → h' ≡ position m h 1
      → window ring m h (suc n) ≡ get_or ring h d ∷ window ring m h' n
  window-suc ring m h h' n hh hn e = ap₂ ◌∷◌ (ap at (position-zero m h hh)) (
      tabulate-ext n _ _
        (λ k p. ap at (position-suc m h k hh (omega arith) ∙ ap (λ j. position m j k) (sym e))))
    where
      at : ℕ → A
      at i = get_or ring i d

  -- The whole ring read from 1 is the whole ring read from 0 with its first cell last.
  pub window_rotated :
      (ring : List A) (m n : ℕ)
      → m ≡ suc n
      → window ring m 1 (suc n) ≡ rotate (window ring m 0 (suc n))
  window_rotated ring m n e =
      tabulate-suc n _
      ∙ ap₂ (λ xs y. xs ++ y ∷ []) (tabulate-ext n _ _ (λ k p. ap at (position_one m n k e p)))
          (ap at (position_last m n e))
    where
      at : ℕ → A
      at i = get_or ring i d

module _ {A : Type 0} where
  pub init-IsValid : (d : A) (m : ℕ) → 2 ≤ m → IsValid (init d m)
  unfolding init
  init-IsValid d m h = record {
    room = h;
    full_length = length-replicate m d;
    head_in = omega arith;
    tail_in = omega arith;
  }

  pub push-IsValid : (q : SlowQueue A) (x : A) → IsValid q → IsValid (push q x).1
  unfolding push
  push-IsValid q x v = ground (arith, length-set q.ring 0 x, length-set q.ring q.tail x)

  pub pop-IsValid : (q : SlowQueue A) (ret : A) → IsValid q → IsValid (pop q ret).2
  unfolding pop
  pop-IsValid q ret v = ground arith

  pub size-le : (q : SlowQueue A) → IsValid q → size q ≤ q.max_size
  unfolding size
  size-le q v = ground arith
