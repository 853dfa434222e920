-- ===== src/Storage/Db/Compact.antt =====
-- crates/storage/src/db.rs: compaction of a level into the next one.
use raft_kv_engine_project.Base.{
  ℕ, zero, suc, ◌+◌, ◌-◌, ◌*◌, ◌^◌, Bool, true, false, not, ◌||◌, Option, none, some, List, [], ◌∷◌,
  ◌++◌, map, ltb, leb, ◌==◌, if◌then◌else◌, length, drop, get_elem?, any, retain, set,
}
use raft_kv_engine_project.Base.BTreeMap
use raft_kv_engine_project.Base.Bytes.{Bytes, bytes_lt}
use raft_kv_engine_project.Storage.Error.{Result, ok, err, panic, ◌>>=◌, or_error}
use raft_kv_engine_project.Storage.Merge
use raft_kv_engine_project.Storage.Manifest
use raft_kv_engine_project.Storage.Manifest.{Manifest, TableMeta}
use raft_kv_engine_project.Storage.SsTable.Reader.{SsTable, open_table}
use raft_kv_engine_project.Storage.Db.{Db, Formats, min_snapshot}
use raft_kv_engine_project.Storage.Db.Reads.{sources_of, merged, total}
use raft_kv_engine_project.Storage.Db.Merging.{start, merge_loop}

unfoldable pub contains : List ℕ → ℕ → Bool
contains ids id = any (λ x. x == id) ids

-- The lowest and the highest key of tables, from those found so far.
unfoldable pub lowest : Option Bytes → List SsTable → Option Bytes
lowest found [] = found
lowest none (t ∷ ts) = lowest (some t.index.min_key) ts
lowest (some m) (t ∷ ts) =
    lowest (if bytes_lt t.index.min_key m then some t.index.min_key else some m) ts

unfoldable pub highest : Option Bytes → List SsTable → Option Bytes
highest found [] = found
highest none (t ∷ ts) = highest (some t.index.max_key) ts
highest (some m) (t ∷ ts) =
    highest (if bytes_lt m t.index.max_key then some t.index.max_key else some m) ts

unfoldable pub overlaps : Bytes → Bytes → SsTable → Bool
overlaps low high t = not (bytes_lt t.index.max_key low || bytes_lt high t.index.min_key)

-- `iter().map(|t| t.id).min()`.
unfoldable pub min_id : List SsTable → Option ℕ
min_id [] = none
min_id (t ∷ ts) = elim (min_id ts) [
  | none ↦ some t.id
  | some i ↦ some (if leb t.id i then t.id else i)
]

unfoldable pub source_ids : ℕ → List SsTable → List ℕ
unfolding min_id
source_ids zero tables = map (λ (t : SsTable). t.id) tables
source_ids (suc level) tables = elim (min_id tables) [ none ↦ [] | some id ↦ id ∷ [] ]

-- `sort_by` on the lowest keys, which keeps the order of equal ones.
unfoldable pub insert_by {ℓ} : {A : Type ℓ} → (A → Bytes) → A → List A → List A
insert_by key x [] = x ∷ []
insert_by key x (y ∷ ys) = if bytes_lt (key y) (key x) then y ∷ insert_by key x ys else x ∷ y ∷ ys

unfoldable pub sort_by {ℓ} : {A : Type ℓ} → (A → Bytes) → List A → List A
unfolding insert_by
sort_by key [] = []
sort_by key (x ∷ xs) = insert_by key x (sort_by key xs)

-- Empty levels up to an index.
unfoldable pub grow {ℓ} : {A : Type ℓ} → ℕ → List (List A) → List (List A)
grow zero [] = [] ∷ []
grow zero (l ∷ ls) = l ∷ ls
grow (suc n) [] = [] ∷ grow n []
grow (suc n) (l ∷ ls) = l ∷ grow n ls

unfoldable pub level_at {ℓ} : {A : Type ℓ} → ℕ → List (List A) → List A
level_at i levels = elim (get_elem? levels i) [ none ↦ [] | some l ↦ l ]

unfoldable pub all_empty {ℓ} : {A : Type ℓ} → List (List A) → Bool
all_empty [] = true
all_empty ([] ∷ ls) = all_empty ls
all_empty ((x ∷ xs) ∷ ls) = false

unfoldable pub sum : List TableMeta → ℕ
sum [] = 0
sum (m ∷ ms) = m.bytes + sum ms

module _ (fmt : Formats) where
  unfoldable pub open_outputs : List (TableMeta × Bytes) → Result (List SsTable)
  open_outputs [] = ok []
  open_outputs ((meta, file) ∷ outs) =
      open_table fmt.table file meta.id >>= λ t. (open_outputs outs >>= λ ts. ok (t ∷ ts))

  unfoldable pub write_files : List (TableMeta × Bytes) → List (ℕ × Bytes) → List (ℕ × Bytes)
  write_files [] files = files
  write_files ((meta, file) ∷ outs) files = write_files outs (BTreeMap.insert meta.id file files)

  -- The levels with the sources and the overlapped tables replaced by the outputs.
  unfoldable pub replace_in {ℓ} :
      {A : Type ℓ}
      → (A → ℕ)
      → (A → Bytes)
      → ℕ
      → List ℕ
      → List ℕ
      → List A
      → List (List A)
      → List (List A)
  unfolding contains sort_by level_at
  replace_in id key level src dst new levels =
      let upper = retain (λ x. not (contains src (id x))) (level_at level levels) in
      let lower = retain (λ x. not (contains dst (id x))) (level_at (suc level) levels) in
      set (set levels level upper) (suc level) (sort_by key (lower ++ new))

  -- The merge of the sources and what they overlap, and the swap of the levels.
  unfoldable pub swap : ℕ → List SsTable → List SsTable → Db → Result Db
  unfolding merge_loop open_outputs write_files replace_in all_empty contains
  swap level sources overlapped db =
      let src = map (λ (t : SsTable). t.id) sources in
      let dst = map (λ (t : SsTable). t.id) overlapped in
      let bottom = all_empty (drop (suc (suc level)) db.levels) in
      sources_of fmt.table (sources ++ overlapped) >>= λ lists.
      (merge_loop fmt db.opts (min_snapshot db) bottom start
          (record {
            builder = none;
            out_bytes = 0;
            next_id = db.manifest.next_table_id;
            outputs = [];
          })
          (merged (total lists) (Merge.new lists))
        >>= λ o.
            (open_outputs o.outputs >>= λ tables.
            (let metas = map (λ (p : TableMeta × Bytes). p.0) o.outputs in
              let manifest : Manifest = record db.manifest {
                next_table_id = o.next_id;
                levels =
                    replace_in (λ (m : TableMeta). m.id) (λ (m : TableMeta). m.min_key) level src
                      dst metas db.manifest.levels;
              } in
              ok (record db {
                dir = record {
                  tables =
                      BTreeMap.retain_keys (λ k. not (contains (src ++ dst) k))
                        (write_files o.outputs db.dir.tables);
                  manifest = Manifest.save fmt.manifest manifest db.dir.manifest;
                };
                levels =
                    replace_in (λ (t : SsTable). t.id) (λ (t : SsTable). t.index.min_key) level src
                      dst tables db.levels;
                manifest = manifest;
              }))))

  -- The tables that overlap the sources, and the swap; the sources are not empty.
  unfoldable pub compact_sources : ℕ → List SsTable → Db → Result Db
  unfolding lowest highest overlaps level_at swap
  compact_sources level sources db = or_error (lowest none sources) panic >>= λ low.
      (or_error (highest none sources) panic >>= λ high.
      swap level sources (retain (overlaps low high) (level_at (suc level) db.levels)) db)

  unfoldable pub compact_level : ℕ → Db → Result Db
  unfolding grow source_ids level_at contains
  compact_level level db0 =
      let db = record db0 {
        levels = grow (suc level) db0.levels;
        manifest = record db0.manifest { levels = grow (suc level) db0.manifest.levels };
      } in
      let tables = level_at level db.levels in
      let ids = source_ids level tables in
      elim ids [
        | [] ↦ ok db
        | id ∷ more ↦
            compact_sources level (retain (λ (t : SsTable). contains (id ∷ more) t.id) tables) db
      ]

  unfoldable pub level_bytes : Db → ℕ → ℕ
  unfolding level_at sum
  level_bytes db i = sum (level_at i db.manifest.levels)

  unfoldable pub level_limit : Db → ℕ → ℕ
  level_limit db i = db.opts.level_base_bytes * db.opts.level_multiplier ^ (i - 1)

  -- The first level from an index on that is over its limit, of so many levels.
  unfoldable pub over_limit : Db → ℕ → ℕ → Option ℕ
  unfolding level_bytes level_limit
  over_limit db zero i = none
  over_limit db (suc left) i =
      let later = over_limit db left (i + 1) in
      if ltb (level_limit db i) (level_bytes db i) then some i else later

  -- The level that a round of `maybe_compact` compacts, if there is one.
  unfoldable pub due : Db → Option ℕ
  unfolding over_limit level_at
  due db =
      if leb db.opts.l0_trigger (length (level_at 0 db.levels))
      then some 0
      else over_limit db (length db.levels - 1) 1

  -- The loop of `maybe_compact`; `none` where so many rounds do not end it.
  unfoldable pub maybe_compact : ℕ → Db → Option (Result Db)
  unfolding due compact_level
  maybe_compact zero db = none
  maybe_compact (suc rounds) db = elim (due db) [
    | none ↦ some (ok db)
    | some level ↦ elim (compact_level level db) [
      | err e ↦ some (err e)
      | ok db' ↦ maybe_compact rounds db'
    ]
  ]
