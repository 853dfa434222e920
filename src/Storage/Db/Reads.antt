-- ===== src/Storage/Db/Reads.antt =====
-- crates/storage/src/db.rs: point reads and scans.
use raft_kv_engine_project.Base.{
  ℕ, zero, suc, ◌+◌, ◌-◌, Bool, false, not, Option, none, some, List, [], ◌∷◌, ◌++◌, ltb, leb,
  if◌then◌else◌, length, get_elem?,
}
use raft_kv_engine_project.Base.Bytes.{Bytes, bytes_lt}
use raft_kv_engine_project.Storage.Error.{Result, ok, ◌>>=◌}
use raft_kv_engine_project.Storage.MemTable
use raft_kv_engine_project.Storage.MemTable.{Entry}
use raft_kv_engine_project.Storage.Merge
use raft_kv_engine_project.Storage.Merge.{MergeIter}
use raft_kv_engine_project.Storage.Visible
use raft_kv_engine_project.Storage.SsTable.{Format}
use raft_kv_engine_project.Storage.SsTable.Reader
use raft_kv_engine_project.Storage.SsTable.Reader.{SsTable, partition_point}
use raft_kv_engine_project.Storage.SsTable.Iteration.{collect, iter}
use raft_kv_engine_project.Storage.Db.{Db}

abbrev pub Found : Type 0
Found = Option (ℕ × Option Bytes)

-- `best.as_ref().map_or(true, |(bs, _)| s > *bs)`.
unfoldable pub better : Found → ℕ × Option Bytes → Found
better none found = some found
better (some best) found = if ltb best.0 found.0 then some found else some best

-- What a level finds, or what the levels below it find.
unfoldable pub or_deeper : Found → Result (Option Bytes) → Result (Option Bytes)
or_deeper (some (seq, value)) later = ok value
or_deeper none later = later

-- The entries a merge yields in at most so many calls of `next`.
unfoldable pub merged : ℕ → MergeIter → List Entry
merged zero it = []
merged (suc calls) it = elim (Merge.next it) [ none ↦ [] | some (e, it') ↦ e ∷ merged calls it' ]

abbrev pub total : List (List Entry) → ℕ
total [] = 0
total (es ∷ sources) = length es + total sources

-- `k.as_slice() >= e`, where there is an end.
unfoldable pub reaches : Option Bytes → Bytes → Bool
reaches none k = false
reaches (some e) k = not (bytes_lt k e)

-- The loop of `scan_at` over what is visible, with the number of pairs that may still be pushed.
unfoldable pub select :
    Bytes → Option Bytes → ℕ → List (Bytes × Option Bytes) → List (Bytes × Bytes)
unfolding reaches
select start end left [] = []
select start end left ((k, v) ∷ items) =
    let later = select start end left items in
    let fewer = select start end (left - 1) items in
    if bytes_lt k start
    then later
    else if reaches end k
    then []
    else elim v [ none ↦ later | some w ↦ (k, w) ∷ (if leb left 1 then [] else fewer) ]

module _ (fmt : Format) where
  -- The tables of level 0, all of them.
  unfoldable pub best_of : Bytes → ℕ → List SsTable → Found → Result Found
  unfolding better
  best_of key snapshot [] best = ok best
  best_of key snapshot (t ∷ ts) best = Reader.get fmt t key snapshot >>= λ found.
      best_of key snapshot ts (elim found [ none ↦ best | some f ↦ better best f ])

  -- A deeper level: the one table whose range may hold the key.
  unfoldable pub in_level : Bytes → ℕ → List SsTable → Result Found
  in_level key snapshot level =
      elim (get_elem? level (partition_point (λ t. bytes_lt t.index.max_key key) level)) [
        | none ↦ ok none
        | some t ↦ if bytes_lt key t.index.min_key then ok none else Reader.get fmt t key snapshot
      ]

  -- The levels below the first.
  unfoldable pub get_deeper : Bytes → ℕ → List (List SsTable) → Result (Option Bytes)
  unfolding in_level or_deeper
  get_deeper key snapshot [] = ok none
  get_deeper key snapshot (level ∷ levels) =
      in_level key snapshot level >>= λ best. or_deeper best (get_deeper key snapshot levels)

  unfoldable pub get_levels : Bytes → ℕ → List (List SsTable) → Result (Option Bytes)
  unfolding get_deeper best_of
  get_levels key snapshot [] = ok none
  get_levels key snapshot (level ∷ levels) =
      best_of key snapshot level none >>= λ best. or_deeper best (get_deeper key snapshot levels)

  unfoldable pub get_at : Db → Bytes → ℕ → Result (Option Bytes)
  unfolding get_levels
  get_at db key snapshot = elim (MemTable.get db.mem key snapshot) [
    | some value ↦ ok value
    | none ↦ get_levels key snapshot db.levels
  ]

  unfoldable pub get : Db → Bytes → Result (Option Bytes)
  unfolding get_at
  get db key = get_at db key db.seq

  -- What the iterators of the tables yield, in at most a call for each byte of a file.
  unfoldable pub sources_of : List SsTable → Result (List (List Entry))
  sources_of [] = ok []
  sources_of (t ∷ ts) = collect fmt (suc (length t.file)) (iter t) >>= λ es.
      (sources_of ts >>= λ more. ok (es ∷ more))

  unfoldable pub all_tables : List (List SsTable) → List SsTable
  all_tables [] = []
  all_tables (level ∷ levels) = level ++ all_tables levels

  unfoldable pub scan_at : Db → Bytes → Option Bytes → ℕ → ℕ → Result (List (Bytes × Bytes))
  unfolding sources_of all_tables merged select
  scan_at db start end limit snapshot = sources_of (all_tables db.levels) >>= λ more.
      (let sources = MemTable.iter db.mem ∷ more in
        let entries = merged (total sources) (Merge.new sources) in
        ok (
          select start end limit (Visible.collect (length entries) (Visible.new entries snapshot))))

  unfoldable pub scan : Db → Bytes → Option Bytes → ℕ → Result (List (Bytes × Bytes))
  unfolding scan_at
  scan db start end limit = scan_at db start end limit db.seq
