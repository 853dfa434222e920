-- ===== src/Storage/Db/Newest.antt =====
-- crates/storage/src/db.rs: the newest version of a key over several lists of versions.
use raft_kv_engine_project.Base.{
  ℕ, ◌<◌, ◌≡◌, refl, sym, ap, ◌∙◌, subst, ◌⊎◌, inl, inr, Bool, true, false, ◌&&◌, Option, none,
  some, List, [], ◌∷◌, ◌++◌, arith, leb, if◌then◌else◌,
}
use raft_kv_engine_project.Base.Bytes.{Bytes, bytes_eq}
use raft_kv_engine_project.Storage.MemTable.{Entry, newer_of, newest}

-- The newer of two versions, the first one where they are as new as each other.
abbrev pub pick : Option Entry → Option Entry → Option Entry
pick none r = r
pick (some x) none = some x
pick (some x) (some y) = if leb y.seq x.seq then some x else some y

pub pick-none : (o : Option Entry) → pick o none ≡ o
pick-none none = refl
pick-none (some x) = refl

newer_of-pick :
    (key : Bytes) (snapshot : ℕ) (x : Entry) (a b : Option Entry)
    → newer_of key snapshot x (pick a b) ≡ pick (newer_of key snapshot x a) b
newer_of-pick key snapshot x none none = pick_candidate (bytes_eq x.key key && leb x.seq snapshot)
  where
    pick_candidate :
        (t : Bool) → (if t then some x else none) ≡ pick (if t then some x else none) none
    pick_candidate true = refl
    pick_candidate false = refl
newer_of-pick key snapshot x none (some b) = ground (arith)
newer_of-pick key snapshot x (some a) none = ground arith
newer_of-pick key snapshot x (some a) (some b) = ground arith

pub newest-append :
    (key : Bytes) (snapshot : ℕ) (xs ys : List Entry)
    → newest key snapshot (xs ++ ys) ≡ pick (newest key snapshot xs) (newest key snapshot ys)
newest-append key snapshot [] ys = refl
newest-append key snapshot (x ∷ xs) ys =
    ap (newer_of key snapshot x) (newest-append key snapshot xs ys)
    ∙ newer_of-pick key snapshot x (newest key snapshot xs) (newest key snapshot ys)

-- The first version is newer than the second, or the same.
abbrev pub Over : Option Entry → Option Entry → Type 0
Over (some x) (some y) = (y.seq < x.seq) ⊎ (y ≡ x)
Over (some x) none = Unit
Over none b = Unit

-- At every snapshot, what is found above is newer than what is found below, or the same version.
abbrev pub Dominates : List Entry → List Entry → Type 0
Dominates above below =
    (key : Bytes) (snapshot : ℕ) → Over (newest key snapshot above) (newest key snapshot below)

same_seq : {x y : Entry} → y ≡ x → y.seq ≡ x.seq
same_seq e = ap (λ (z : Entry). z.seq) e

pub pick-Over : (a b : Option Entry) → Over a b → (x : Entry) → a ≡ some x → pick a b ≡ some x
pick-Over none b o x e = cc
pick-Over (some a) none o x e = e
pick-Over (some a) (some b) (inl older) x e = ground (arith, older, e)
pick-Over (some a) (some b) (inr same) x e = ground (arith, same_seq same, e)

Over-trans :
    (m l d : Entry) → Over (some m) (some l) → Over (some l) (some d) → Over (some m) (some d)
Over-trans m l d (inl h) (inl o) = inl (omega (arith, h, o))
Over-trans m l d (inl h) (inr o) = inl (omega (arith, h, same_seq o))
Over-trans m l d (inr h) (inl o) = inl (omega (arith, same_seq h, o))
Over-trans m l d (inr h) (inr o) = inr (o ∙ h)

pick-under : (m l : Entry) → Over (some m) (some l) → pick (some l) (some m) ≡ some m
pick-under m l (inl older) = ground (arith, older)
pick-under m l (inr same) =
    let equal : leb m.seq l.seq ≡ true = ground (arith, same_seq same) in rw equal (ap some same)

-- What is moved from above two layers to the end of the upper one is found as before.
pub pick_moved :
    (m l d : Option Entry) → Over m (pick l d) → Over l d → pick (pick l m) d ≡ pick m (pick l d)
pick_moved none l d h o = ap (λ x. pick x d) (pick-none l)
pick_moved (some m) none d h o = refl
pick_moved (some m) (some l) d h o =
    let lower = pick-Over (some l) d o l refl in
    let upper = subst (Over (some m)) lower h in
    ap (λ x. pick x d) (pick-under m l upper)
    ∙ (pick-Over (some m) d (beyond d o) m refl
        ∙ sym (ap (pick (some m)) lower ∙ pick-Over (some m) (some l) upper m refl))
  where
    beyond : (b : Option Entry) → Over (some l) b → Over (some m) b
    beyond none x = tt
    beyond (some b) x = Over-trans m l b (subst (Over (some m)) (pick-Over (some l) d o l refl) h) x

pub Over-moved : (m l d : Option Entry) → Over m (pick l d) → Over l d → Over (pick l m) d
Over-moved none l d h o = subst (λ x. Over x d) (sym (pick-none l)) o
Over-moved (some m) none d h o = h
Over-moved (some m) (some l) d h o =
    let upper = subst (Over (some m)) (pick-Over (some l) d o l refl) h in
    subst (λ x. Over x d) (sym (pick-under m l upper)) (beyond d o)
  where
    beyond : (b : Option Entry) → Over (some l) b → Over (some m) b
    beyond none x = tt
    beyond (some b) x = Over-trans m l b (subst (Over (some m)) (pick-Over (some l) d o l refl) h) x

abbrev pub value_of : Option Entry → Option Bytes
value_of none = none
value_of (some e) = e.value
