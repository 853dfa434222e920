-- ===== src/Raft/Log/Lookup.antt =====
-- What `term` and `get` return after each operation of the log.
use mathlib.Core.Option
use raft_kv_engine_project.Base.{
  ◌+◌, ◌-◌, ◌≤◌, ◌<◌, min, ◌≡◌, ap, none, some, [], ◌∷◌, ◌++◌, arith, ltb, leb, ◌==◌, if◌then◌else◌,
  get_elem?, length, drop, length-append, length-take, length-drop, get_elem?-take, get_elem?-drop,
  get_elem?-append_left, get_elem?-append_right, get_elem?_beyond, get_elem?_within,
}
use raft_kv_engine_project.Raft.Types.{Entry, Index, Term}
use raft_kv_engine_project.Raft.Log.{RaftLog, last_index, term, get, push, truncate_from, compact}
use raft_kv_engine_project.Raft.Log.Contiguous.{IsContiguous, Contiguous-index}

-- The lookup without its upper guard, which the list itself makes.
pub get_lem :
    (log : RaftLog) (j : Index)
    → get log j
      ≡ (if leb j log.snap_index then none else get_elem? log.entries (j - log.snap_index - 1))
unfolding get last_index
get_lem log j = ground (arith, get_elem?_beyond log.entries (j - log.snap_index - 1))

pub term_lem :
    (log : RaftLog) (j : Index)
    → term log j
      ≡ (if j == log.snap_index then some log.snap_term else Option.map (λ e. e.term) (get log j))
unfolding term get
term_lem log j = ground arith

pub get-within :
    (log : RaftLog) (j : Index)
    → log.snap_index < j
    → j ≤ last_index log
    → (e : Entry) × (get log j ≡ some e)
unfolding last_index
get-within log j l u =
    let (e, p) = get_elem?_within log.entries (j - log.snap_index - 1) (omega arith) in
    (e, ground (arith, get_lem log j))

-- `get` and `term` answer exactly inside their ranges.
pub get-range :
    (log : RaftLog) (j : Index) (e : Entry)
    → get log j ≡ some e
    → (log.snap_index < j) × (j ≤ last_index log)
unfolding get
get-range log j e h = ground arith

pub term-range :
    (log : RaftLog) (j : Index) (t : Term)
    → term log j ≡ some t
    → (log.snap_index ≤ j) × (j ≤ last_index log)
unfolding term last_index
term-range log j t h = ground arith

pub term_outside :
    (log : RaftLog) (j : Index) → term log j ≡ none → log.snap_index ≤ j → last_index log < j
term_outside log j h l = ground (arith, term_lem log j, get-within log j)

-- An entry found at an index carries that index.
pub get-index :
    (log : RaftLog) (j : Index) (e : Entry) → IsContiguous log → get log j ≡ some e → e.index ≡ j
get-index log j e c h =
    ground (
      arith,
      get_lem log j,
      Contiguous-index log.snap_index log.entries (j - log.snap_index - 1) e c,
    )

pub last_index-push : (log : RaftLog) (e : Entry) → last_index (push log e) ≡ last_index log + 1
unfolding last_index push
last_index-push log e = omega (arith, length-append log.entries (e ∷ []))

pub get-push :
    (log : RaftLog) (e : Entry) (j : Index)
    → get (push log e) j ≡ (if j == last_index log + 1 then some e else get log j)
unfolding last_index push
get-push log e j = ground (
  arith,
  get_lem (record log { entries = log.entries ++ e ∷ [] }) j,
  get_lem log j,
  get_elem?-append_left log.entries (e ∷ []) (j - log.snap_index - 1),
  get_elem?-append_right log.entries (e ∷ []) (j - log.snap_index - 1),
  get_elem?_beyond log.entries (j - log.snap_index - 1),
  get_elem?_beyond (e ∷ []) (j - log.snap_index - 1 - length log.entries),
  ap (get_elem? (e ∷ [])) {x = j - log.snap_index - 1 - length log.entries} {y = 0},
)

module _ (log : RaftLog) (idx : Index) (log' : RaftLog)
    (cut : truncate_from log idx ≡ some log') where
  pub snap-truncate_from : (log'.snap_index ≡ log.snap_index) × (log'.snap_term ≡ log.snap_term)
  unfolding truncate_from
  snap-truncate_from = ground arith

  pub last_index-truncate_from : last_index log' ≡ min (idx - 1) (last_index log)
  unfolding truncate_from last_index
  last_index-truncate_from =
      ground (arith, length-take (min (idx - log.snap_index - 1) (length log.entries)) log.entries)

  pub get-truncate_from : (j : Index) → get log' j ≡ (if ltb j idx then get log j else none)
  unfolding truncate_from
  get-truncate_from j = ground (
    arith,
    get_lem log' j,
    get_lem log j,
    get_elem?-take (min (idx - log.snap_index - 1) (length log.entries)) log.entries
        (j - log.snap_index - 1),
    get_elem?_beyond log.entries (j - log.snap_index - 1),
  )

module _ (log : RaftLog) (idx : Index) (t : Term) (above : log.snap_index < idx)
    (held : idx ≤ last_index log) where
  pub last_index-compact : last_index (compact log idx t) ≡ last_index log
  unfolding compact last_index
  last_index-compact =
      ground (arith, length-drop (min (idx - log.snap_index) (length log.entries)) log.entries)

  pub get-compact :
      (j : Index) → get (compact log idx t) j ≡ (if leb j idx then none else get log j)
  unfolding compact last_index
  get-compact j = ground (
    arith,
    get_lem
        (record {
          snap_index = idx;
          snap_term = t;
          entries = drop (min (idx - log.snap_index) (length log.entries)) log.entries;
        })
        j,
    get_lem log j,
    get_elem?-drop (min (idx - log.snap_index) (length log.entries)) log.entries (j - idx - 1),
    ap (get_elem? log.entries) {x = min (idx - log.snap_index) (length log.entries) + (j - idx - 1)}
        {y = j - log.snap_index - 1},
  )
