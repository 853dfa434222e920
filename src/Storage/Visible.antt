-- ===== src/Storage/Visible.antt =====
-- crates/storage/src/iter.rs, `VisibleIter`: the filter of a stream of versions that yields the
-- newest visible one of each key. The inner iterator is the list of what it has left.
use raft_kv_engine_project.Base.{
  ℕ, zero, suc, ◌+◌, ◌≤◌, ◌<◌, ◌≡◌, refl, Bool, true, false, not, ◌&&◌, Option, none, some, List,
  [], ◌∷◌, arith, ltb, if◌then◌else◌, length,
}
use raft_kv_engine_project.Base.Bytes.{Bytes, bytes_eq}
use raft_kv_engine_project.Storage.MemTable.{Entry}
pub mod PointReads

pub record VisibleIter : Type 0 where
  pub inner : List Entry
  pub snapshot : ℕ
  pub current_key : Option Bytes

abbrev pub new : List Entry → ℕ → VisibleIter
new inner snapshot = record { inner = inner; snapshot = snapshot; current_key = none }

unfoldable pub is_current : Option Bytes → Bytes → Bool
is_current none key = false
is_current (some k) key = bytes_eq k key

-- The loop of `next`: the item, if there is one, and the iterator after it.
unfoldable pub next_from :
    ℕ → Option Bytes → List Entry → Option ((Bytes × Option Bytes) × VisibleIter)
next_from snapshot current [] = none
next_from snapshot current (x ∷ xs) =
    let rest = next_from snapshot current xs in
    if is_current current x.key
    then rest
    else if ltb snapshot x.seq
    then rest
    else some
        ((x.key, x.value), record { inner = xs; snapshot = snapshot; current_key = some x.key })

unfoldable pub next : VisibleIter → Option ((Bytes × Option Bytes) × VisibleIter)
unfolding next_from
next it = next_from it.snapshot it.current_key it.inner

-- What a caller collects in at most `fuel` calls of `next`.
unfoldable pub collect : ℕ → VisibleIter → List (Bytes × Option Bytes)
unfolding next
collect zero it = []
collect (suc fuel) it = elim (next it) [ none ↦ [] | some (item, it') ↦ item ∷ collect fuel it' ]

-- The value that comes with a key in what was collected.
unfoldable pub lookup : Bytes → List (Bytes × Option Bytes) → Option (Option Bytes)
lookup key [] = none
lookup key (x ∷ xs) = let rest = lookup key xs in if bytes_eq x.0 key then some x.1 else rest
