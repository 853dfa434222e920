-- ===== src/Raft/Log/Contiguous.antt =====
-- crates/raft/src/log.rs: the operations of the log and the indices of its entries.
use raft_kv_engine_project.Base.{
  ℕ, zero, suc, ◌+◌, ◌-◌, ◌≤◌, min, ◌≡◌, refl, true, some, List, [], ◌∷◌, ◌++◌, arith, length, take,
  drop, get_elem?,
}
use raft_kv_engine_project.Raft.Types.{Entry, Index, Term}
use raft_kv_engine_project.Raft.Log.{
  RaftLog, assert_contiguous, last_index, push, truncate_from, compact,
}

-- The indices of the list run on from `base`.
abbrev pub Contiguous : Index → List Entry → Type 0
Contiguous base [] = Unit
Contiguous base (e ∷ es) = (e.index ≡ base + 1) × Contiguous (base + 1) es

abbrev pub IsContiguous : RaftLog → Type 0
IsContiguous log = Contiguous log.snap_index log.entries

pub assert_contiguous_sound :
    (base : Index) (es : List Entry) → assert_contiguous base es ≡ true → Contiguous base es
unfolding assert_contiguous
assert_contiguous_sound base [] h = tt
assert_contiguous_sound base (e ∷ es) h = ground (arith, assert_contiguous_sound (base + 1) es)

pub Contiguous-append :
    (base mid : Index) (xs ys : List Entry)
    → mid ≡ base + length xs
    → Contiguous base xs
    → Contiguous mid ys
    → Contiguous base (xs ++ ys)
Contiguous-append base mid [] ys e hx hy = let e' : base ≡ mid = omega arith in rw e' hy
Contiguous-append base mid (x ∷ xs) ys e hx hy =
    (hx.0, Contiguous-append (base + 1) mid xs ys (omega arith) hx.1 hy)

pub Contiguous-take :
    (base : Index) (n : ℕ) (xs : List Entry) → Contiguous base xs → Contiguous base (take n xs)
Contiguous-take base zero xs h = tt
Contiguous-take base (suc n) [] h = tt
Contiguous-take base (suc n) (x ∷ xs) h = (h.0, Contiguous-take (base + 1) n xs h.1)

pub Contiguous-drop :
    (base mid : Index) (n : ℕ) (xs : List Entry)
    → mid ≡ base + n
    → n ≤ length xs
    → Contiguous base xs
    → Contiguous mid (drop n xs)
Contiguous-drop base mid zero xs e l h = let e' : mid ≡ base = omega arith in rw e' h
Contiguous-drop base mid (suc n) [] e l h = absurd (omega arith)
Contiguous-drop base mid (suc n) (x ∷ xs) e l h =
    Contiguous-drop (base + 1) mid n xs (omega arith) (omega arith) h.1

-- The entry at place `i` has the index that its place says.
pub Contiguous-index :
    (base : Index) (xs : List Entry) (i : ℕ) (e : Entry)
    → Contiguous base xs
    → get_elem? xs i ≡ some e
    → e.index ≡ base + i + 1
Contiguous-index base [] i e h g = cc
Contiguous-index base (x ∷ xs) zero e h g = ground arith
Contiguous-index base (x ∷ xs) (suc i) e h g =
    omega (arith, Contiguous-index (base + 1) xs i e h.1 g)

pub push-IsContiguous :
    (log : RaftLog) (e : Entry)
    → e.index ≡ last_index log + 1
    → IsContiguous log
    → IsContiguous (push log e)
unfolding push last_index
push-IsContiguous log e i h = Contiguous-append log.snap_index _ log.entries (e ∷ []) refl h (i, tt)

pub truncate_from-IsContiguous :
    (log : RaftLog) (idx : Index) (log' : RaftLog)
    → truncate_from log idx ≡ some log'
    → IsContiguous log
    → IsContiguous log'
unfolding truncate_from
truncate_from-IsContiguous log idx log' e h = ground (
  arith,
  Contiguous-take log.snap_index (min (idx - log.snap_index - 1) (length log.entries)) log.entries
      h,
)

pub compact-IsContiguous :
    (log : RaftLog) (idx : Index) (t : Term)
    → idx ≤ last_index log
    → IsContiguous log
    → IsContiguous (compact log idx t)
unfolding compact last_index
compact-IsContiguous log idx t l h = ground (
  arith,
  Contiguous-drop log.snap_index idx (min (idx - log.snap_index) (length log.entries)) log.entries,
)
