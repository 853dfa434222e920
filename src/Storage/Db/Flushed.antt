-- ===== src/Storage/Db/Flushed.antt =====
-- crates/storage/src/db.rs: what `flush` does to the reads.
use raft_kv_engine_project.Base.{
  ℕ, ◌+◌, ◌^◌, ◌<◌, ◌≡◌, refl, sym, ap, ◌∙◌, subst, Bool, true, false, Option, List, [], ◌∷◌, ◌++◌,
  arith, length, All, append-nil, append_assoc,
}
use raft_kv_engine_project.Base.Bytes.{Bytes}
use raft_kv_engine_project.Storage.Error.{Result, ok, err, ◌>>=◌}
use raft_kv_engine_project.Base.BTreeMap
use raft_kv_engine_project.Storage.Wal
use raft_kv_engine_project.Storage.Manifest
use raft_kv_engine_project.Storage.Manifest.{Manifest, TableMeta}
use raft_kv_engine_project.Storage.MemTable
use raft_kv_engine_project.Storage.MemTable.{Entry, IsOrdered, newest}
use raft_kv_engine_project.Storage.SsTable.Builder.{
  TableBuilder, create, add_all, flush_block, finish, table_index,
}
use raft_kv_engine_project.Storage.SsTable.Reader.{SsTable}
use raft_kv_engine_project.Storage.SsTable.Coding.{Fits, block_bytes}
use raft_kv_engine_project.Storage.SsTable.Layout.{all_entries}
use raft_kv_engine_project.Storage.SsTable.Built.{build_blocks, build_blocks-Holds}
use raft_kv_engine_project.Storage.SsTable.RoundTrip.{IsFaithful, file_of, table_of, built-IsTable}
use raft_kv_engine_project.Storage.Db.{Db, Formats}
use raft_kv_engine_project.Storage.Db.Reads.{get_at}
use raft_kv_engine_project.Storage.Db.Flush.{flush, push_to, or_one, listed}
use raft_kv_engine_project.Storage.Db.Newest.{
  pick, newest-append, Over, Dominates, pick_moved, Over-moved, value_of,
}
use raft_kv_engine_project.Storage.Db.Layers.{TableHolds, LevelHolds, LevelsHold, Holds}
use raft_kv_engine_project.Storage.Db.PointReads.{get_at-Holds}

module _ (fmt : Formats) (faithful : IsFaithful fmt.table) where
  -- The versions of the memtable fit a table: lengths and numbers their widths, and the data and the
  -- index 32 bits.
  pub record FitsTable (db : Db) : Type 0 where
    pub entries : All Fits db.mem.versions
    pub size : length (block_bytes db.mem.versions) < 2 ^ 32
    pub index_size :
        (b : TableBuilder)
        → build_blocks fmt.table db.opts.block_bytes db.opts.bits_per_key db.mem.versions ≡ ok b
        → length (fmt.table.serialize (table_index fmt.table b)) < 2 ^ 32

  -- A table under construction is finished by writing its last block.
  pub finish-build_blocks :
      (size bits : ℕ) (es : List Entry) (b : TableBuilder)
      → build_blocks fmt.table size bits es ≡ ok b
      → (b1 : TableBuilder) × (add_all fmt.table (create size bits) es ≡ ok b1)
        × (finish fmt.table b1
            ≡ ok (
              file_of fmt.table faithful b,
              b.entry_count,
              b.offset + length (fmt.table.serialize (table_index fmt.table b)) + 24,
              (table_index fmt.table b).min_key,
              (table_index fmt.table b).max_key,
            ))
  unfolding build_blocks finish
  finish-build_blocks size bits es b h = from (add_all fmt.table (create size bits) es) refl h
    where
      from :
          (r : Result TableBuilder)
          → add_all fmt.table (create size bits) es ≡ r
          → (r >>= λ b1. flush_block fmt.table b1) ≡ ok b
          → (b1 : TableBuilder) × (add_all fmt.table (create size bits) es ≡ ok b1)
            × (finish fmt.table b1
                ≡ ok (
                  file_of fmt.table faithful b,
                  b.entry_count,
                  b.offset + length (fmt.table.serialize (table_index fmt.table b)) + 24,
                  (table_index fmt.table b).min_key,
                  (table_index fmt.table b).max_key,
                ))
      from (err e) a f = cc
      from (ok b1) a f = (b1, a, rw f refl)

  -- The last table of a level holds the entries at its end.
  LevelHolds-snoc :
      (ts : List SsTable) (es : List Entry) (t : SsTable) (more : List Entry)
      → LevelHolds fmt.table ts es
      → TableHolds fmt.table t more
      → LevelHolds fmt.table (ts ++ t ∷ []) (es ++ more)
  LevelHolds-snoc [] es t more h held =
      (more, [], held, refl, ap (λ l. l ++ more) h ∙ sym (append-nil more))
  LevelHolds-snoc (x ∷ ts) es t more (first, rest, held_x, h, whole) held = (
    first,
    rest ++ more,
    held_x,
    LevelHolds-snoc ts rest t more h held,
    ap (λ l. l ++ more) whole ∙ append_assoc first rest more,
  )

  -- Moving the memtable to the end of the first level changes no read.
  moved :
      (mem upper deeper : List Entry) (key : Bytes) (snapshot : ℕ)
      → Dominates mem (upper ++ deeper)
      → Dominates upper deeper
      → newest key snapshot ((upper ++ mem) ++ deeper)
        ≡ newest key snapshot (mem ++ (upper ++ deeper))
  moved mem upper deeper key snapshot above layered =
      let m = newest key snapshot mem in
      let l = newest key snapshot upper in
      let d = newest key snapshot deeper in
      newest-append key snapshot (upper ++ mem) deeper
      ∙ (ap (λ x. pick x d) (newest-append key snapshot upper mem)
          ∙ (pick_moved m l d
                (subst (Over m) (newest-append key snapshot upper deeper) (above key snapshot))
                (layered key snapshot)
              ∙ sym (
                  newest-append key snapshot mem (upper ++ deeper)
                  ∙ ap (pick m) (newest-append key snapshot upper deeper))))

  moved-Dominates :
      (mem upper deeper : List Entry)
      → Dominates mem (upper ++ deeper)
      → Dominates upper deeper
      → Dominates (upper ++ mem) deeper
  moved-Dominates mem upper deeper above layered key snapshot =
      subst (λ x. Over x (newest key snapshot deeper)) (sym (newest-append key snapshot upper mem))
        (Over-moved (newest key snapshot mem) (newest key snapshot upper)
          (newest key snapshot deeper)
          (subst (Over (newest key snapshot mem)) (newest-append key snapshot upper deeper)
            (above key snapshot))
          (layered key snapshot))

  pushed :
      (levels : List (List SsTable)) (upper : List Entry) (layers : List (List Entry)) (t : SsTable)
      (more : List Entry)
      → LevelsHold fmt.table levels (upper ∷ layers)
      → TableHolds fmt.table t more
      → (grown : List (List SsTable)) × (push_to 0 t levels ≡ ok grown)
        × LevelsHold fmt.table grown ((upper ++ more) ∷ layers)
  unfolding push_to
  pushed [] upper layers t more h held = cc
  pushed (ts ∷ levels) upper layers t more h held =
      ((ts ++ t ∷ []) ∷ levels, refl, (LevelHolds-snoc ts upper t more h.0 held, h.1))

  listed-ok :
      (m : Manifest) (seq : ℕ) (meta : TableMeta)
      → (found : Manifest) × (listed m seq meta ≡ ok found)
  unfolding listed push_to or_one
  listed-ok m seq meta = by_levels m.levels
    where
      by_levels :
          (ls : List (List TableMeta))
          → (found : Manifest) × ((push_to 0 meta (or_one ls) >>= λ levels.
                ok
                  (record { levels = levels; next_table_id = m.next_table_id + 1; last_seq = seq }))
              ≡ ok found)
      by_levels [] = (
        record { levels = (meta ∷ []) ∷ []; next_table_id = m.next_table_id + 1; last_seq = seq },
        refl,
      )
      by_levels (l ∷ ls) = (
        record {
          levels = (l ++ meta ∷ []) ∷ ls;
          next_table_id = m.next_table_id + 1;
          last_seq = seq;
        },
        refl,
      )

  is_empty_lem :
      (m : MemTable.MemTable) (l : List Entry)
      → m.versions ≡ l
      → MemTable.is_empty m ≡ (elim l [ [] ↦ true | x ∷ xs ↦ false ])
  unfolding MemTable.is_empty
  is_empty_lem m l e =
      ap (λ (k : List Entry). elim k as (λ _. Bool) [ [] ↦ true | x ∷ xs ↦ false ]) e

  -- A flush that writes a table.
  Flushes : Db → List Entry → List (List Entry) → Type 0
  Flushes db upper layers =
      (flushed : Db) × (flush fmt db ≡ ok flushed)
      × Holds fmt.table flushed ((upper ++ db.mem.versions) ∷ layers)
      × (flushed.mem.versions ≡ [])
      × (flushed.seq ≡ db.seq)

  flush-written :
      (db : Db) (upper : List Entry) (layers : List (List Entry))
      → Holds fmt.table db (upper ∷ layers)
      → FitsTable db
      → MemTable.is_empty db.mem ≡ false
      → 0 < length db.mem.versions
      → Flushes db upper layers
  unfolding flush Flushes MemTable.iter
  flush-written db upper layers h fits some_entry positive =
      let es = db.mem.versions in
      let id = db.manifest.next_table_id in
      let (b, _, built, _) =
        build_blocks-Holds fmt.table db.opts.block_bytes db.opts.bits_per_key es in
      let (b1, added, finished) =
        finish-build_blocks db.opts.block_bytes db.opts.bits_per_key es b built in
      let (blocks, opens, table, same) =
        built-IsTable fmt.table faithful db.opts.block_bytes db.opts.bits_per_key id es b built
          h.ordered fits.entries positive fits.size (fits.index_size b built) in
      let (levels, pushes, held) =
        pushed db.levels upper layers (table_of fmt.table faithful b id) es h.levels
          (record { blocks = blocks; table = table; same = same }) in
      let (manifest, lists) = listed-ok db.manifest db.seq (record {
        id = id;
        min_key = (table_index fmt.table b).min_key;
        max_key = (table_index fmt.table b).max_key;
        entries = b.entry_count;
        bytes = b.offset + length (fmt.table.serialize (table_index fmt.table b)) + 24;
      }) in
      (
        record db {
          dir = record {
            tables = BTreeMap.insert id (file_of fmt.table faithful b) db.dir.tables;
            manifest = Manifest.save fmt.manifest manifest db.dir.manifest;
          };
          mem = MemTable.new;
          wal = Wal.reset db.wal;
          levels = levels;
          manifest = manifest;
        },
        rw (some_entry, added, finished, opens, lists, pushes) refl,
        record {
          ordered = tt;
          levels = held;
          layered = (
            λ key snapshot. tt,
            (
              moved-Dominates es upper (all_entries layers) h.layered.0 h.layered.1.0,
              h.layered.1.1,
            ),
          );
        },
        refl,
        refl,
      )

  -- Flushing a database that holds these layers succeeds, whatever its memtable holds; afterwards the
  -- memtable is empty, the versions stand in its layers as before, and every point read at every
  -- snapshot returns what it returned. The versions of the memtable fit a table, and the
  -- serializer of tables reads back what it writes.
  pub flush-Holds :
      (db : Db) (upper : List Entry) (layers : List (List Entry))
      → Holds fmt.table db (upper ∷ layers)
      → FitsTable db
      → (flushed : Db) × (flush fmt db ≡ ok flushed)
        × Holds fmt.table flushed ((upper ++ db.mem.versions) ∷ layers)
        × (flushed.mem.versions ≡ [])
        × (flushed.seq ≡ db.seq)
        × ((key : Bytes) (snapshot : ℕ)
            → get_at fmt.table flushed key snapshot ≡ get_at fmt.table db key snapshot)
  unfolding flush Flushes
  flush-Holds db upper layers h fits =
      let (flushed, flushes, held, empty, same_seq) = by_mem db.mem.versions refl in
      (
        flushed,
        flushes,
        held,
        empty,
        same_seq,
        λ key snapshot.
            get_at-Holds fmt.table key snapshot flushed ((upper ++ db.mem.versions) ∷ layers) held
            ∙ (ap
                  (λ (l : List Entry). ok (
                    value_of (
                      newest key snapshot
                        (l ++ ((upper ++ db.mem.versions) ++ all_entries layers)))))
                  empty
                ∙ (ap (λ (o : Option Entry). ok (value_of o))
                      (moved db.mem.versions upper (all_entries layers) key snapshot h.layered.0
                        h.layered.1.0)
                    ∙ sym (get_at-Holds fmt.table key snapshot db (upper ∷ layers) h))),
      )
    where
      nothing : MemTable.is_empty db.mem ≡ true → flush fmt db ≡ ok db
      nothing empty = rw empty refl

      by_mem : (l : List Entry) → db.mem.versions ≡ l → Flushes db upper layers
      by_mem [] e = (
        db,
        nothing (is_empty_lem db.mem [] e),
        subst (λ u. Holds fmt.table db (u ∷ layers))
            (sym (ap (λ l. upper ++ l) e ∙ append-nil upper)) h,
        e,
        refl,
      )
      by_mem (x ∷ xs) e =
          flush-written db upper layers h fits (is_empty_lem db.mem (x ∷ xs) e)
            (ground (arith, ap length e))
