-- ===== src/Storage/Db/Merging.antt =====
-- crates/storage/src/db.rs: the merge of a compaction, with what it drops.
use raft_kv_engine_project.Base.{
  ℕ, ◌+◌, Bool, true, false, not, ◌&&◌, ◌||◌, Option, none, some, List, [], ◌∷◌, ◌++◌, leb, ◌==◌,
  if◌then◌else◌, length,
}
use raft_kv_engine_project.Base.Bytes.{Bytes, bytes_eq, value_eq}
use raft_kv_engine_project.Storage.Error.{Result, ok, ◌>>=◌}
use raft_kv_engine_project.Storage.MemTable.{Entry, value_size}
use raft_kv_engine_project.Storage.Manifest.{TableMeta}
use raft_kv_engine_project.Storage.SsTable.Builder.{TableBuilder, create, add, finish}
use raft_kv_engine_project.Storage.Db.{Formats, Options}

-- The variables of the merge that decide what is kept: `cur_key`, `kept_baseline`, `last_written`.
pub record Cursor : Type 0 where
  pub cur_key : Option Bytes
  pub kept_baseline : Bool
  pub last_written : Option (Bytes × ℕ)

abbrev pub start : Cursor
start = record { cur_key = none; kept_baseline = false; last_written = none }

unfoldable pub new_key : Cursor → Entry → Bool
new_key c e = not (value_eq c.cur_key (some e.key))

unfoldable pub enter_key : Cursor → Entry → Cursor
unfolding new_key
enter_key c e = if new_key c e then record c { cur_key = some e.key; kept_baseline = false } else c

-- `last_written.as_ref() == Some(&(k.clone(), s))`.
unfoldable pub was_written : Option (Bytes × ℕ) → Entry → Bool
was_written none e = false
was_written (some w) e = bytes_eq w.0 e.key && w.1 == e.seq

unfoldable pub is_tombstone : Entry → Bool
is_tombstone e = elim e.value [ none ↦ true | some v ↦ false ]

-- Whether a version is written, and the variables after it.
unfoldable pub decide : ℕ → Bool → Cursor → Entry → Bool × Cursor
unfolding enter_key was_written is_tombstone
decide min_snap bottom c0 e =
    let c = enter_key c0 e in
    let baseline = leb e.seq min_snap in
    if was_written c.last_written e
    then (false, c)
    else if baseline && c.kept_baseline
    then (false, c)
    else if baseline && (is_tombstone e && bottom)
    then (false, record c { kept_baseline = true })
    else (
      true,
      record c { kept_baseline = baseline || c.kept_baseline; last_written = some (e.key, e.seq) },
    )

-- The tables of the merge: the one under construction, and the finished ones with their files.
pub record Output : Type 0 where
  pub builder : Option (ℕ × TableBuilder)
  pub out_bytes : ℕ
  pub next_id : ℕ
  pub outputs : List (TableMeta × Bytes)

module _ (fmt : Formats) where
  -- `builder.take()` and `finish`.
  unfoldable pub close : Output → Result Output
  close o = elim o.builder [
    | none ↦ ok o
    | some (id, b) ↦ finish fmt.table b >>= λ (file, entries, bytes, min_key, max_key).
        ok (record o {
          builder = none;
          outputs =
              o.outputs
              ++ (
                record {
                  id = id;
                  min_key = min_key;
                  max_key = max_key;
                  entries = entries;
                  bytes = bytes;
                },
                file,
              )
                ∷ [];
        })
  ]

  -- Tables are rotated between keys only.
  unfoldable pub rotate : Options → Bool → Output → Result Output
  unfolding close
  rotate opts at_new_key o =
      if at_new_key && leb opts.target_table_bytes o.out_bytes
      then (close o >>= λ o'. ok (record o' { out_bytes = 0 }))
      else ok o

  unfoldable pub opened : Options → Output → (ℕ × TableBuilder) × ℕ
  opened opts o = elim o.builder [
    | some b ↦ (b, o.next_id)
    | none ↦ ((o.next_id, create opts.block_bytes opts.bits_per_key), o.next_id + 1)
  ]

  unfoldable pub emit : Options → Entry → Output → Result Output
  unfolding opened
  emit opts e o =
      let ((id, b), next_id) = opened opts o in
      add fmt.table b e.key e.seq e.value >>= λ b'. ok (record o {
        builder = some (id, b');
        out_bytes = o.out_bytes + (length e.key + value_size e.value + 17);
        next_id = next_id;
      })

  -- The loop over the merged versions.
  unfoldable pub merge_loop : Options → ℕ → Bool → Cursor → Output → List Entry → Result Output
  unfolding rotate decide emit
  merge_loop opts min_snap bottom c o [] = close o
  merge_loop opts min_snap bottom c o (e ∷ es) =
      let (keep, c') = decide min_snap bottom c e in
      rotate opts (new_key c e) o >>= λ o1.
      ((if keep then emit opts e o1 else ok o1) >>= λ o2. merge_loop opts min_snap bottom c' o2 es)
