-- ===== src/Storage/Db/Isolation.antt =====
-- crates/storage/src/db.rs: what later reads and older snapshots see of a batch.
use raft_kv_engine_project.Base.{
  ℕ, suc, ◌+◌, ◌≤◌, ◌<◌, ◌≡◌, refl, sym, ap, ◌∙◌, subst, Bool, true, false, Option, none, some,
  List, [], ◌∷◌, ◌++◌, arith, leb, if◌then◌else◌, length, All-append, All-split, All-map,
}
use raft_kv_engine_project.Base.Bytes.{Bytes}
use raft_kv_engine_project.Storage.Batch.{Op, last_write}
use raft_kv_engine_project.Storage.Error.{Result, ok, err, ◌>>=◌}
use raft_kv_engine_project.Storage.MemTable
use raft_kv_engine_project.Storage.MemTable.{Entry, newest}
use raft_kv_engine_project.Storage.SsTable.Layout.{all_entries}
use raft_kv_engine_project.Storage.SsTable.RoundTrip.{IsFaithful}
use raft_kv_engine_project.Storage.Db.{Db, Formats}
use raft_kv_engine_project.Storage.Db.Reads.{get_at, get}
use raft_kv_engine_project.Storage.Db.Flush.{flush}
use raft_kv_engine_project.Storage.Db.Compact.{due, maybe_compact}
use raft_kv_engine_project.Storage.Db.Writes.{
  insert_ops, apply_batch, flush_and_compact, write_batch,
}
use raft_kv_engine_project.Storage.Db.Newest.{pick, newest-append, value_of}
use raft_kv_engine_project.Storage.Db.Layers.{Holds}
use raft_kv_engine_project.Storage.Db.PointReads.{get_at-Holds}
use raft_kv_engine_project.Storage.Db.Flushed.{FitsTable, flush-Holds}
use raft_kv_engine_project.Storage.Db.Written.{
  Below, after, newest-Under, newest_seen, newest-insert_ops, newest_before, value_after,
  insert_ops-IsOrdered,
}

module _ (fmt : Formats) where
  -- A database that holds these layers, with no version above its number.
  pub record Valid (db : Db) (layers : List (List Entry)) : Type 0 where
    pub holds : Holds fmt.table db layers
    pub mem_below : Below (db.seq + 1) db.mem.versions
    pub layers_below : Below (db.seq + 1) (all_entries layers)

  get_is : (db : Db) (key : Bytes) → get fmt.table db key ≡ get_at fmt.table db key db.seq
  unfolding get
  get_is db key = refl

  module _ (db : Db) (layers : List (List Entry)) (v : Valid db layers) (ops : List Op) where
    pub apply_batch-Valid : Valid (apply_batch fmt db ops) layers
    unfolding apply_batch
    apply_batch-Valid =
        let parts =
          insert_ops-IsOrdered (db.seq + 1) ops db.mem (all_entries layers) v.holds.ordered
            v.mem_below v.layers_below v.holds.layered.0 in
        record {
          holds = record {
            ordered = parts.0;
            levels = v.holds.levels;
            layered = (parts.2, v.holds.layered.1);
          };
          mem_below =
              subst (λ n. Below n (insert_ops (db.seq + 1) ops db.mem).versions)
                {x = db.seq + 1 + length ops} {y = db.seq + length ops + 1} (omega arith) parts.1;
          layers_below =
              All-map (λ e. e.seq < db.seq + 1) (λ e. e.seq < db.seq + length ops + 1)
                (all_entries layers) (λ e l. omega (arith, l)) v.layers_below;
        }

    later : (xs : List Entry) → Below (db.seq + 1) xs → Below (db.seq + length ops + 1) xs
    later xs h =
        All-map (λ e. e.seq < db.seq + 1) (λ e. e.seq < db.seq + length ops + 1) xs
          (λ e l. omega (arith, l)) h

    newest_now :
        (key : Bytes) (xs : List Entry)
        → Below (db.seq + 1) xs
        → newest key (db.seq + length ops) xs ≡ newest key db.seq xs
    newest_now key xs h = newest_seen key (db.seq + length ops) db.seq xs (later xs h) h

    get-apply_batch :
        (key : Bytes)
        → get fmt.table (apply_batch fmt db ops) key
          ≡ (get fmt.table db key >>= λ old. ok (last_write ops key old))
    unfolding apply_batch
    get-apply_batch key =
        let S = db.seq + length ops in
        let below = all_entries layers in
        let mem' = insert_ops (db.seq + 1) ops db.mem in
        get_is (apply_batch fmt db ops) key
        ∙ (get_at-Holds fmt.table key S (apply_batch fmt db ops) layers apply_batch-Valid.holds
            ∙ (ap (λ (o : Option Entry). ok (value_of o))
                  (newest-append key S mem'.versions below
                    ∙ (ap (λ o. pick o (newest key S below))
                          (newest-insert_ops (db.seq + 1) ops db.mem key S v.mem_below (omega arith)
                            ∙ ap (after (db.seq + 1) ops key)
                                (newest_now key db.mem.versions v.mem_below))
                        ∙ ap (pick (after (db.seq + 1) ops key (newest key db.seq db.mem.versions)))
                            (newest_now key below v.layers_below)))
                ∙ (ap (λ (x : Option Bytes). ok x)
                      (value_after (db.seq + 1) ops key (newest key db.seq db.mem.versions)
                          (newest key db.seq below)
                          (newest-Under key db.seq (db.seq + 1) below v.layers_below)
                        ∙ ap (λ (o : Option Entry). last_write ops key (value_of o))
                            (sym (newest-append key db.seq db.mem.versions below)))
                    ∙ sym (
                        ap (λ (r : Result (Option Bytes)). r >>= λ old. ok (last_write ops key old))
                          (get_is db key ∙ get_at-Holds fmt.table key db.seq db layers v.holds)))))

    get_at-apply_batch :
        (key : Bytes) (snapshot : ℕ)
        → snapshot ≤ db.seq
        → get_at fmt.table (apply_batch fmt db ops) key snapshot ≡ get_at fmt.table db key snapshot
    unfolding apply_batch
    get_at-apply_batch key snapshot old =
        let below = all_entries layers in
        let mem' = insert_ops (db.seq + 1) ops db.mem in
        get_at-Holds fmt.table key snapshot (apply_batch fmt db ops) layers apply_batch-Valid.holds
        ∙ (ap (λ (o : Option Entry). ok (value_of o))
              (newest-append key snapshot mem'.versions below
                ∙ (ap (λ o. pick o (newest key snapshot below))
                      (newest_before (db.seq + 1) ops db.mem key snapshot v.mem_below
                        (omega (arith, old)))
                    ∙ sym (newest-append key snapshot db.mem.versions below)))
            ∙ sym (get_at-Holds fmt.table key snapshot db layers v.holds))

  -- What holds of a database after a batch: it is valid, reads see the batch over what they saw before,
  -- and the reads at the snapshots from before are what they were.
  pub record Sees (db : Db) (ops : List Op) (after_it : Db) : Type 0 where
    pub layers : List (List Entry)
    pub valid : Valid after_it layers
    pub reads :
        (key : Bytes)
        → get fmt.table after_it key ≡ (get fmt.table db key >>= λ old. ok (last_write ops key old))
    pub isolated :
        (key : Bytes) (snapshot : ℕ)
        → snapshot ≤ db.seq
        → get_at fmt.table after_it key snapshot ≡ get_at fmt.table db key snapshot

  apply_batch-Sees :
      (db : Db) (layers : List (List Entry)) (ops : List Op)
      → Valid db layers
      → Sees db ops (apply_batch fmt db ops)
  apply_batch-Sees db layers ops v = record {
    layers = layers;
    valid = apply_batch-Valid db layers v ops;
    reads = get-apply_batch db layers v ops;
    isolated = get_at-apply_batch db layers v ops;
  }

  empty-Sees : (db : Db) (layers : List (List Entry)) → Valid db layers → Sees db [] db
  empty-Sees db layers v = record {
    layers = layers;
    valid = v;
    reads =
        λ key. sym (rw (get_is db key ∙ get_at-Holds fmt.table key db.seq db layers v.holds) refl);
    isolated = λ key snapshot h. refl;
  }

  flush_calm :
      (rounds : ℕ) (db flushed : Db)
      → flush fmt db ≡ ok flushed
      → due fmt flushed ≡ none
      → flush_and_compact fmt (suc rounds) db ≡ some (ok flushed)
  unfolding flush_and_compact maybe_compact
  flush_calm rounds db flushed f d = compacted (flush fmt db) f
    where
      compacted :
          (r : Result Db)
          → r ≡ ok flushed
          → (elim r [ err e ↦ some (err e) | ok db' ↦ maybe_compact fmt (suc rounds) db' ])
            ≡ some (ok flushed)
      compacted r e = rw (e, maybe_compact, d) refl

  module _ (faithful : IsFaithful fmt.table) where
    -- A flush keeps a database valid.
    flushed-Sees :
        (db : Db) (upper : List Entry) (layers : List (List Entry)) (ops : List Op)
        → Valid db (upper ∷ layers)
        → FitsTable fmt faithful (apply_batch fmt db ops)
        → (flushed : Db) × (flush fmt (apply_batch fmt db ops) ≡ ok flushed) × Sees db ops flushed
    flushed-Sees db upper layers ops v fits =
        let applied = apply_batch fmt db ops in
        let w = apply_batch-Valid db (upper ∷ layers) v ops in
        let sees = apply_batch-Sees db (upper ∷ layers) ops v in
        let (flushed, flushes, holds, empty, same_seq, reads) =
          flush-Holds fmt faithful applied upper layers w.holds fits in
        (
          flushed,
          flushes,
          record {
            layers = (upper ++ applied.mem.versions) ∷ layers;
            valid = record {
              holds = holds;
              mem_below = subst (Below (flushed.seq + 1)) (sym empty) tt;
              layers_below =
                  subst (λ n. Below (n + 1) ((upper ++ applied.mem.versions) ++ all_entries layers))
                    (sym same_seq)
                    (rearranged (applied.seq + 1) upper applied.mem.versions (all_entries layers)
                      w.layers_below w.mem_below);
            };
            reads = λ key.
                get_is flushed key
                ∙ (ap (get_at fmt.table flushed key) same_seq
                    ∙ (reads key applied.seq ∙ (sym (get_is applied key) ∙ sees.reads key)));
            isolated = λ key snapshot h. reads key snapshot ∙ sees.isolated key snapshot h;
          },
        )
      where
        rearranged :
            (n : ℕ) (xs ys zs : List Entry)
            → Below n (xs ++ zs)
            → Below n ys
            → Below n ((xs ++ ys) ++ zs)
        rearranged n xs ys zs h k =
            let parts = All-split (λ e. e.seq < n) xs zs h in
            All-append (λ e. e.seq < n) (xs ++ ys) zs (All-append (λ e. e.seq < n) xs ys parts.0 k)
              parts.1

    -- A batch written to a valid database succeeds and leaves it valid, whether or not it makes the
    -- memtable flush: reads see the last operation of the batch on their key, and what they saw before
    -- where there is none, and the reads at any snapshot from before the batch return what they
    -- returned. The versions of the memtable fit a table, the serializer of tables
    -- reads back what it writes, and no compaction is due after the flush.
    pub write_batch-Sees :
        (rounds : ℕ) (db : Db) (upper : List Entry) (layers : List (List Entry)) (ops : List Op)
        → Valid db (upper ∷ layers)
        → FitsTable fmt faithful (apply_batch fmt db ops)
        → ((flushed : Db)
            → flush fmt (apply_batch fmt db ops) ≡ ok flushed
            → due fmt flushed ≡ none)
        → (after_it : Db) × (write_batch fmt (suc rounds) db ops ≡ some (ok after_it))
          × Sees db ops after_it
    unfolding write_batch
    write_batch-Sees rounds db upper layers [] v fits calm =
        (db, refl, empty-Sees db (upper ∷ layers) v)
    write_batch-Sees rounds db upper layers (op ∷ ops) v fits calm =
        by_size
          (leb db.opts.memtable_bytes (MemTable.approx_bytes (apply_batch fmt db (op ∷ ops)).mem))
      where
        by_size :
            (full : Bool)
            → (after_it : Db) × ((if full
                  then flush_and_compact fmt (suc rounds) (apply_batch fmt db (op ∷ ops))
                  else some (ok (apply_batch fmt db (op ∷ ops))))
                ≡ some (ok after_it))
              × Sees db (op ∷ ops) after_it
        by_size false =
            (apply_batch fmt db (op ∷ ops), refl, apply_batch-Sees db (upper ∷ layers) (op ∷ ops) v)
        by_size true =
            let (flushed, flushes, sees) = flushed-Sees db upper layers (op ∷ ops) v fits in
            (
              flushed,
              flush_calm rounds (apply_batch fmt db (op ∷ ops)) flushed flushes
                  (calm flushed flushes),
              sees,
            )
