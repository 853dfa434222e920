-- ===== src/Raft/Log.antt =====
-- crates/raft/src/log.rs: the log in memory above a snapshot base. The guards keep each index of
-- `entries` in range, where `get_elem?` is the source's indexing. `none` is a panic in
-- `truncate_from`, and an absent entry in `term` and `get`. The debug assertions of `new`, `push`
-- and `compact` are compiled out of a release build and have no effect here.
pub mod Contiguous
pub mod Lookup
pub mod Slice
use raft_kv_engine_project.Base.{
  ℕ, ◌+◌, ◌-◌, ◌≤◌, ◌<◌, min, max, ◌≡◌, Bool, true, false, ◌&&◌, ◌||◌, Option, none, some, List, [],
  ◌∷◌, ◌++◌, ltb, leb, ◌==◌, if◌then◌else◌, length, get_elem?, take, drop, last,
}
use mathlib.Core.Option
use raft_kv_engine_project.Raft.Types.{Entry, Index, Term}

pub record RaftLog : Type 0 where
  pub snap_index : Index
  pub snap_term : Term
  pub entries : List Entry

-- The loop of `assert_contiguous`: each index is one more than the one before.
unfoldable pub assert_contiguous : Index → List Entry → Bool
assert_contiguous base [] = true
assert_contiguous base (e ∷ es) = e.index == base + 1 && assert_contiguous (base + 1) es

unfoldable pub new : Index → Term → List Entry → RaftLog
new snap_index snap_term entries = record {
  snap_index = snap_index;
  snap_term = snap_term;
  entries = entries;
}

unfoldable pub first_index : RaftLog → Index
first_index log = log.snap_index + 1

unfoldable pub last_index : RaftLog → Index
last_index log = log.snap_index + length log.entries

unfoldable pub last_term : RaftLog → Term
last_term log = elim (last log.entries) [ none ↦ log.snap_term | some e ↦ e.term ]

unfoldable pub term : RaftLog → Index → Option Term
term log idx =
    if idx == log.snap_index
    then some log.snap_term
    else if ltb idx log.snap_index || ltb (last_index log) idx
    then none
    else Option.map (λ e. e.term) (get_elem? log.entries (idx - log.snap_index - 1))

unfoldable pub get : RaftLog → Index → Option Entry
get log idx =
    if leb idx log.snap_index || ltb (last_index log) idx
    then none
    else get_elem? log.entries (idx - log.snap_index - 1)

unfoldable pub slice : RaftLog → Index → ℕ → List Entry
slice log from count =
    let from = max from (first_index log) in
    if ltb (last_index log) from
    then []
    else let start = from - log.snap_index - 1 in
      let end = min (start + count) (length log.entries) in
      take (end - start) (drop start log.entries)

unfoldable pub push : RaftLog → Entry → RaftLog
push log e = record log { entries = log.entries ++ e ∷ [] }

unfoldable pub truncate_from : RaftLog → Index → Option RaftLog
truncate_from log idx =
    if leb idx log.snap_index
    then none
    else let keep = idx - log.snap_index - 1 in
      some (record log { entries = take (min keep (length log.entries)) log.entries })

unfoldable pub compact : RaftLog → Index → Term → RaftLog
compact log idx t =
    if leb idx log.snap_index
    then log
    else let drop_n = min (idx - log.snap_index) (length log.entries) in
      record { snap_index = idx; snap_term = t; entries = drop drop_n log.entries }

unfoldable pub reset_to_snapshot : RaftLog → Index → Term → RaftLog
reset_to_snapshot log idx t = record { snap_index = idx; snap_term = t; entries = [] }
