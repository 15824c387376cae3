-- ===== src/Server/Tracking.antt =====
-- The clients of `Server` in include/coplus/socket.h and the threads of `Serve` that are about them.
use coplus.Prelude.{
  ℕ, zero, suc, ◌+◌, ◌≡◌, refl, sym, ap, ◌∙◌, List, [], ◌∷◌, ◌++◌, Bool, true, false, none, some,
  length, get_elem?, set, arith,
}
use coplus.Server.{Entry, Connection, AllEnded}

-- The same clients, of which none went on again.
pub data Keeps : List Entry → List Entry → Type 0 where
  keeps_none : Keeps [] []
  keeps :
      {d e : Entry} {ds es : List Entry}
      → d.handle ≡ e.handle
      → (d.status ≡ false → e.status ≡ false)
      → Keeps ds es
      → Keeps (d ∷ ds) (e ∷ es)

-- From the place `i` on, each thread is about the client at its place, which is off once the
-- thread has ended.
pub data Tracks : ℕ → List Entry → List Connection → Type 0 where
  tracks_none : {i : ℕ} → Tracks i [] []
  tracks :
      {i : ℕ} {e : Entry} {es : List Entry} {c : Connection} {cs : List Connection}
      → e.handle ≡ c.socket
      → c.id ≡ i
      → (c.is_live ≡ false → e.status ≡ false)
      → Tracks (suc i) es cs
      → Tracks i (e ∷ es) (c ∷ cs)

-- All clients are off.
abbrev pub AllOff : List Entry → Type 0
AllOff [] = Unit
AllOff (e ∷ es) = (e.status ≡ false) × AllOff es

pub Keeps-refl : (ds : List Entry) → Keeps ds ds
Keeps-refl [] = keeps_none
Keeps-refl (d ∷ ds) = keeps refl (λ e. e) (Keeps-refl ds)

pub Keeps-trans : (ds es fs : List Entry) → Keeps ds es → Keeps es fs → Keeps ds fs
Keeps-trans [] [] [] keeps_none keeps_none = keeps_none
Keeps-trans [] [] (f ∷ fs) a b = elim b [ ]
Keeps-trans [] (e ∷ es) fs a b = elim a [ ]
Keeps-trans (d ∷ ds) [] fs a b = elim a [ ]
Keeps-trans (d ∷ ds) (e ∷ es) [] a b = elim b [ ]
Keeps-trans (d ∷ ds) (e ∷ es) (f ∷ fs) (keeps h k a) (keeps h' k' b) =
    keeps (h ∙ h') (λ o. k' (k o)) (Keeps-trans ds es fs a b)

pub Tracks-Keeps :
    (i : ℕ) (ds es : List Entry) (cs : List Connection)
    → Tracks i ds cs
    → Keeps ds es
    → Tracks i es cs
Tracks-Keeps i [] [] [] tracks_none keeps_none = tracks_none
Tracks-Keeps i [] [] (c ∷ cs) t a = elim t [ ]
Tracks-Keeps i [] (e ∷ es) cs t a = elim a [ ]
Tracks-Keeps i (d ∷ ds) [] cs t a = elim a [ ]
Tracks-Keeps i (d ∷ ds) (e ∷ es) [] t a = elim t [ ]
Tracks-Keeps i (d ∷ ds) (e ∷ es) (c ∷ cs) (tracks h p o t) (keeps h' k a) =
    tracks (sym h' ∙ h) p (λ x. k (o x)) (Tracks-Keeps (suc i) ds es cs t a)

-- The client at a place is turned off.
pub turned_off :
    (ds : List Entry) (id : ℕ) (e : Entry)
    → get_elem? ds id ≡ some e
    → Keeps ds (set ds id (record e { status = false }))
turned_off [] id e h = absurd (ground arith)
turned_off (d ∷ ds) zero e h = keeps same (λ o. refl) (Keeps-refl ds)
  where
    same : d.handle ≡ e.handle
    same = ap (λ o. elim o [ none ↦ 0 | some x ↦ x.handle ]) h
turned_off (d ∷ ds) (suc id) e h = keeps refl (λ o. o) (turned_off ds id e h)

-- The client at a place, if there is one, is off.
abbrev pub IsOffAt : ℕ → List Entry → Type 0
IsOffAt id [] = Unit
IsOffAt zero (e ∷ es) = e.status ≡ false
IsOffAt (suc id) (e ∷ es) = IsOffAt id es

pub set-IsOffAt :
    (ds : List Entry) (id : ℕ) (e : Entry) → IsOffAt id (set ds id (record e { status = false }))
set-IsOffAt [] id e = tt
set-IsOffAt (d ∷ ds) zero e = refl
set-IsOffAt (d ∷ ds) (suc id) e = set-IsOffAt ds id e

pub absent-IsOffAt : (ds : List Entry) (id : ℕ) → get_elem? ds id ≡ none → IsOffAt id ds
absent-IsOffAt [] id h = tt
absent-IsOffAt (d ∷ ds) zero h = absurd (ground arith)
absent-IsOffAt (d ∷ ds) (suc id) h = absent-IsOffAt ds id h

-- A thread that goes on, or that has turned its client off, may change its state.
pub Tracks-set :
    (k i : ℕ) (es : List Entry) (cs : List Connection) (c : Connection) (go_on : Bool)
    → Tracks k es cs
    → get_elem? cs i ≡ some c
    → (go_on ≡ false → IsOffAt i es)
    → Tracks k es (set cs i (record c { is_live = go_on }))
Tracks-set k i [] [] c go_on tracks_none h o = tracks_none
Tracks-set k i [] (b ∷ cs) c go_on t h o = elim t [ ]
Tracks-set k i (e ∷ es) [] c go_on t h o = elim t [ ]
Tracks-set k zero (e ∷ es) (b ∷ cs) c go_on (tracks s p q t) h o =
    tracks (s ∙ ap (λ x. elim x [ none ↦ 0 | some y ↦ y.socket ]) h)
      (ap (λ x. elim x [ none ↦ 0 | some y ↦ y.id ]) (sym h) ∙ p) o t
Tracks-set k (suc i) (e ∷ es) (b ∷ cs) c go_on (tracks s p q t) h o =
    tracks s p q (Tracks-set (suc k) i es cs c go_on t h o)

-- The place of a thread.
pub place :
    (k i : ℕ) (es : List Entry) (cs : List Connection) (c : Connection)
    → Tracks k es cs
    → get_elem? cs i ≡ some c
    → c.id ≡ k + i
place k i [] [] c t h = absurd (ground arith)
place k i [] (b ∷ cs) c t h = elim t [ ]
place k i (e ∷ es) [] c t h = elim t [ ]
place k zero (e ∷ es) (b ∷ cs) c (tracks s p q t) h =
    ap (λ x. elim x [ none ↦ 0 | some y ↦ y.id ]) (sym h) ∙ omega (arith, p)
place k (suc i) (e ∷ es) (b ∷ cs) c (tracks s p q t) h = omega (arith, place (suc k) i es cs c t h)

-- A client and its thread are added.
pub Tracks-append :
    (k : ℕ) (es : List Entry) (cs : List Connection) (e : Entry) (c : Connection)
    → Tracks k es cs
    → e.handle ≡ c.socket
    → c.id ≡ k + length es
    → c.is_live ≡ true
    → Tracks k (es ++ e ∷ []) (cs ++ c ∷ [])
Tracks-append k [] [] e c tracks_none h p l =
    tracks h (omega (arith, p)) (λ o. absurd (ground arith)) tracks_none
Tracks-append k [] (b ∷ cs) e c t h p l = elim t [ ]
Tracks-append k (d ∷ es) [] e c t h p l = elim t [ ]
Tracks-append k (d ∷ es) (b ∷ cs) e c (tracks s q o t) h p l =
    tracks s q o (Tracks-append (suc k) es cs e c t h (omega (arith, p)) l)

-- Where all threads have ended, all clients are off.
pub Tracks-AllOff :
    (k : ℕ) (es : List Entry) (cs : List Connection) → Tracks k es cs → AllEnded cs → AllOff es
Tracks-AllOff k [] [] t a = tt
Tracks-AllOff k [] (b ∷ cs) t a = elim t [ ]
Tracks-AllOff k (e ∷ es) [] t a = elim t [ ]
Tracks-AllOff k (e ∷ es) (c ∷ cs) (tracks h p o t) (l, a) = (o l, Tracks-AllOff (suc k) es cs t a)

pub ended_at :
    (cs : List Connection) (i : ℕ) (c : Connection)
    → AllEnded cs
    → get_elem? cs i ≡ some c
    → c.is_live ≡ false
ended_at [] i c a h = absurd (ground arith)
ended_at (b ∷ cs) zero c (l, a) h =
    ap (λ x. elim x [ none ↦ false | some y ↦ y.is_live ]) (sym h) ∙ l
ended_at (b ∷ cs) (suc i) c (l, a) h = ended_at cs i c a h

pub length-Keeps : (ds es : List Entry) → Keeps ds es → length ds ≡ length es
length-Keeps [] [] keeps_none = refl
length-Keeps [] (e ∷ es) a = elim a [ ]
length-Keeps (d ∷ ds) [] a = elim a [ ]
length-Keeps (d ∷ ds) (e ∷ es) (keeps h k a) = ap suc (length-Keeps ds es a)

pub get_elem?-append :
    (cs ds : List Connection) (i : ℕ) (c : Connection)
    → get_elem? cs i ≡ some c
    → get_elem? (cs ++ ds) i ≡ some c
get_elem?-append [] ds i c h = absurd (ground arith)
get_elem?-append (b ∷ cs) ds zero c h = h
get_elem?-append (b ∷ cs) ds (suc i) c h = get_elem?-append cs ds i c h

pub set-append :
    (cs ds : List Connection) (i : ℕ) (c d : Connection)
    → get_elem? cs i ≡ some c
    → set (cs ++ ds) i d ≡ set cs i d ++ ds
set-append [] ds i c d h = absurd (ground arith)
set-append (b ∷ cs) ds zero c d h = refl
set-append (b ∷ cs) ds (suc i) c d h = ap (λ xs. b ∷ xs) (set-append cs ds i c d h)
