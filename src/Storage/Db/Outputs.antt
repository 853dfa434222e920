-- ===== src/Storage/Db/Outputs.antt =====
-- crates/storage/src/db.rs: the tables that the merge of a compaction writes.
use raft_kv_engine_project.Base.{
  ℕ, ◌+◌, ◌<◌, ◌≡◌, refl, sym, ap, ◌∙◌, subst, Bool, ◌&&◌, Option, none, some, List, [], ◌∷◌, ◌++◌,
  arith, leb, length, Bool-cases, inl, inr, length-append, append-nil, append_assoc,
}
use raft_kv_engine_project.Base.Bytes.{Bytes}
use raft_kv_engine_project.Storage.Error.{Result, ok, err, ◌>>=◌}
use raft_kv_engine_project.Storage.MemTable.{Entry, value_size}
use raft_kv_engine_project.Storage.Manifest.{TableMeta}
use raft_kv_engine_project.Storage.SsTable.Builder.{
  TableBuilder, create, add, add_all, finish, table_index,
}
use raft_kv_engine_project.Storage.SsTable.Layout.{all_entries}
use raft_kv_engine_project.Storage.SsTable.Built.{
  build_blocks, build_blocks-Holds, create-Holds, add-Holds, add_all-Holds, all_entries-append,
}
use raft_kv_engine_project.Storage.SsTable.RoundTrip.{IsFaithful, file_of}
use raft_kv_engine_project.Storage.Db.{Formats, Options}
use raft_kv_engine_project.Storage.Db.Merging.{
  Cursor, start, new_key, decide, Output, close, rotate, opened, emit, merge_loop,
}
use raft_kv_engine_project.Storage.Db.Kept.{kept}
use raft_kv_engine_project.Storage.Db.Flushed.{finish-build_blocks}

module _ (fmt : Formats) (faithful : IsFaithful fmt.table) (opts : Options) where
  -- A file of the merge and its entry of the manifest are those of a table of these entries.
  pub record IsOutput (id : ℕ) (out : TableMeta × Bytes) (es : List Entry) : Type 0 where
    pub builder : TableBuilder
    pub built : build_blocks fmt.table opts.block_bytes opts.bits_per_key es ≡ ok builder
    pub some_entry : 0 < length es
    pub file : out.1 ≡ file_of fmt.table faithful builder
    pub meta : out.0 ≡ record {
      id = id;
      min_key = (table_index fmt.table builder).min_key;
      max_key = (table_index fmt.table builder).max_key;
      entries = builder.entry_count;
      bytes = builder.offset + length (fmt.table.serialize (table_index fmt.table builder)) + 24;
    }

  -- The outputs, numbered in turn, hold these runs of entries.
  abbrev pub AreOutputs : ℕ → List (TableMeta × Bytes) → List (List Entry) → Type 0
  AreOutputs id [] [] = Unit
  AreOutputs id (out ∷ outs) (es ∷ groups) = IsOutput id out es × AreOutputs (id + 1) outs groups
  AreOutputs id _ _ = ⊥

  AreOutputs-snoc :
      (id last : ℕ) (outs : List (TableMeta × Bytes)) (groups : List (List Entry))
      (out : TableMeta × Bytes) (es : List Entry)
      → AreOutputs id outs groups
      → last ≡ id + length outs
      → IsOutput last out es
      → AreOutputs id (outs ++ out ∷ []) (groups ++ es ∷ [])
  AreOutputs-snoc id last [] [] out es h e is =
      (subst (λ n. IsOutput n out es) {x = last} {y = id} (omega (arith, e)) is, tt)
  AreOutputs-snoc id last [] (g ∷ groups) out es h e is = elim h [ ]
  AreOutputs-snoc id last (o ∷ outs) [] out es h e is = elim h [ ]
  AreOutputs-snoc id last (o ∷ outs) (g ∷ groups) out es h e is =
      (h.0, AreOutputs-snoc (id + 1) last outs groups out es h.1 (omega (arith, e)) is)

  -- A table under construction that holds the entries `es`, or none.
  Under : ℕ → Option (ℕ × TableBuilder) → ℕ → List Entry → Type 0
  Under id none next es = (es ≡ []) × (next ≡ id)
  Under id (some under) next es =
      (under.0 ≡ id)
      × (next ≡ id + 1)
      × (0 < length es)
      × (add_all fmt.table (create opts.block_bytes opts.bits_per_key) es ≡ ok under.1)

  record Progress (first : ℕ) (o : Output) (groups : List (List Entry)) (es : List Entry)
      : Type 0 where
    done : AreOutputs first o.outputs groups
    under : Under (first + length o.outputs) o.builder o.next_id es

  add_all_last :
      (b0 b b' : TableBuilder) (es : List Entry) (e : Entry)
      → add_all fmt.table b0 es ≡ ok b
      → add fmt.table b e.key e.seq e.value ≡ ok b'
      → add_all fmt.table b0 (es ++ e ∷ []) ≡ ok b'
  unfolding add_all
  add_all_last b0 b b' [] e h a =
      subst
        (λ (r : Result TableBuilder).
          (r >>= λ x. add fmt.table x e.key e.seq e.value >>= λ y. ok y) ≡ ok b')
        (sym h) (rw a refl)
  add_all_last b0 b b' (x ∷ es) e h a =
      first_added (add fmt.table b0 x.key x.seq x.value) h (λ b1 k. add_all_last b1 b b' es e k a)
    where
      first_added :
          (r : Result TableBuilder)
          → (r >>= λ b1. add_all fmt.table b1 es) ≡ ok b
          → ((b1 : TableBuilder)
              → add_all fmt.table b1 es ≡ ok b
              → add_all fmt.table b1 (es ++ e ∷ []) ≡ ok b')
          → (r >>= λ b1. add_all fmt.table b1 (es ++ e ∷ [])) ≡ ok b'
      first_added (err failure) k rest = cc
      first_added (ok b1) k rest = rest b1 k

  same_builder : {x y : TableBuilder} → ◌≡◌ {A = Result TableBuilder} (ok x) (ok y) → x ≡ y
  same_builder h = cc

  -- One more entry goes into a table.
  add-snoc :
      (es : List Entry) (e : Entry) (b : TableBuilder)
      → add_all fmt.table (create opts.block_bytes opts.bits_per_key) es ≡ ok b
      → (b' : TableBuilder) × (add fmt.table b e.key e.seq e.value ≡ ok b')
        × (add_all fmt.table (create opts.block_bytes opts.bits_per_key) (es ++ e ∷ []) ≡ ok b')
  add-snoc es e b h =
      let b0 = create opts.block_bytes opts.bits_per_key in
      let (b1, blocks, last, built, v) =
        add_all-Holds fmt.table b0 [] [] [] es
          (create-Holds fmt.table opts.block_bytes opts.bits_per_key) in
      let (b', _, _, added, _) = add-Holds fmt.table b1 ([] ++ es) blocks last e v in
      let here : add fmt.table b e.key e.seq e.value ≡ ok b' =
        subst (λ x. add fmt.table x e.key e.seq e.value ≡ ok b') (same_builder (sym built ∙ h))
          added in
      (b', here, add_all_last b0 b b' es e h here)

  -- The end of a table.
  Closed : ℕ → Output → List (List Entry) → List Entry → Type 0
  Closed first o groups es =
      (o' : Output) × (groups' : List (List Entry)) × (close fmt o ≡ ok o')
      × Progress first o' groups' []
      × (all_entries groups' ≡ all_entries groups ++ es)
      × (o'.next_id ≡ first + length o'.outputs)

  build_blocks_of :
      (es : List Entry) (b : TableBuilder)
      → add_all fmt.table (create opts.block_bytes opts.bits_per_key) es ≡ ok b
      → (b' : TableBuilder) × (build_blocks fmt.table opts.block_bytes opts.bits_per_key es ≡ ok b')
        × (finish fmt.table b
            ≡ ok (
              file_of fmt.table faithful b',
              b'.entry_count,
              b'.offset + length (fmt.table.serialize (table_index fmt.table b')) + 24,
              (table_index fmt.table b').min_key,
              (table_index fmt.table b').max_key,
            ))
  build_blocks_of es b h =
      let (b', _, built, _) = build_blocks-Holds fmt.table opts.block_bytes opts.bits_per_key es in
      let (b1, added, finished) =
        finish-build_blocks fmt faithful opts.block_bytes opts.bits_per_key es b' built in
      (b', built, ap (finish fmt.table) (same_builder (sym h ∙ added)) ∙ finished)

  close-Progress :
      (first : ℕ) (o : Output) (groups : List (List Entry)) (es : List Entry)
      → Progress first o groups es
      → Closed first o groups es
  unfolding Closed Under close
  close-Progress first o groups es p = by_builder o.builder refl p.under
    where
      by_builder :
          (under : Option (ℕ × TableBuilder))
          → o.builder ≡ under
          → Under (first + length o.outputs) under o.next_id es
          → Closed first o groups es
      by_builder none e u = (
        o,
        groups,
        rw e refl,
        record {
          done = p.done;
          under = subst (λ b. Under (first + length o.outputs) b o.next_id []) (sym e) (refl, u.1);
        },
        sym (append-nil (all_entries groups)) ∙ ap (λ l. all_entries groups ++ l) (sym u.0),
        u.1,
      )
      by_builder (some (id, b)) e (here, next, some_entry, added) =
          let (b', built, finished) = build_blocks_of es b added in
          let out : TableMeta × Bytes = (
            record {
              id = id;
              min_key = (table_index fmt.table b').min_key;
              max_key = (table_index fmt.table b').max_key;
              entries = b'.entry_count;
              bytes = b'.offset + length (fmt.table.serialize (table_index fmt.table b')) + 24;
            },
            file_of fmt.table faithful b',
          ) in
          (
            record o { builder = none; outputs = o.outputs ++ out ∷ [] },
            groups ++ es ∷ [],
            rw (e, finished) refl,
            record {
              done = AreOutputs-snoc first id o.outputs groups out es p.done here (record {
                builder = b';
                built = built;
                some_entry = some_entry;
                file = refl;
                meta = refl;
              });
              under = (refl, omega (arith, next, length-append o.outputs (out ∷ [])));
            },
            all_entries-append groups es,
            omega (arith, next, length-append o.outputs (out ∷ [])),
          )

  emit-Progress :
      (first : ℕ) (o : Output) (groups : List (List Entry)) (es : List Entry) (e : Entry)
      → Progress first o groups es
      → (o' : Output) × (emit fmt opts e o ≡ ok o') × Progress first o' groups (es ++ e ∷ [])
  unfolding Under emit opened add_all
  emit-Progress first o groups es e p = by_builder o.builder refl p.under
    where
      by_builder :
          (under : Option (ℕ × TableBuilder))
          → o.builder ≡ under
          → Under (first + length o.outputs) under o.next_id es
          → (o' : Output) × (emit fmt opts e o ≡ ok o') × Progress first o' groups (es ++ e ∷ [])
      by_builder none b (empty, next) =
          let (b', added, built) = add-snoc [] e (create opts.block_bytes opts.bits_per_key) refl in
          (
            record o {
              builder = some (o.next_id, b');
              out_bytes = o.out_bytes + (length e.key + value_size e.value + 17);
              next_id = o.next_id + 1;
            },
            rw (b, added) refl,
            record {
              done = p.done;
              under = (
                next,
                omega (arith, next),
                omega (arith, length-append es (e ∷ [])),
                subst
                    (λ l.
                      add_all fmt.table (create opts.block_bytes opts.bits_per_key) (l ++ e ∷ [])
                      ≡ ok b')
                    (sym empty) built,
              );
            },
          )
      by_builder (some (id, under)) b (here, next, some_entry, added_all) =
          let (b', added, built) = add-snoc es e under added_all in
          (
            record o {
              builder = some (id, b');
              out_bytes = o.out_bytes + (length e.key + value_size e.value + 17);
            },
            rw (b, added) refl,
            record {
              done = p.done;
              under = (here, next, omega (arith, length-append es (e ∷ [])), built);
            },
          )

  -- What the tables and the one under construction hold.
  abbrev held : List (List Entry) → List Entry → List Entry
  held groups es = all_entries groups ++ es

  rotate-Progress :
      (first : ℕ) (at_new_key : Bool) (o : Output) (groups : List (List Entry)) (es : List Entry)
      → Progress first o groups es
      → (o' : Output) × (groups' : List (List Entry)) × (es' : List Entry) × (rotate fmt opts
            at_new_key o
          ≡ ok o')
        × Progress first o' groups' es'
        × (held groups' es' ≡ held groups es)
  unfolding rotate Closed Under
  rotate-Progress first at_new_key o groups es p =
      elim (Bool-cases (at_new_key && leb opts.target_table_bytes o.out_bytes)) [
        | inr stays ↦ (o, groups, es, rw stays refl, p, refl)
        | inl full ↦
            let (o', groups', closes, p', whole, _) = close-Progress first o groups es p in
            (
              record o' { out_bytes = 0 },
              groups',
              [],
              rw (full, closes) refl,
              record { done = p'.done; under = p'.under },
              append-nil (all_entries groups') ∙ whole,
            )
      ]

  one_more :
      (xs ys : List Entry) (e : Entry) (rest : List Entry)
      → (xs ++ (ys ++ e ∷ [])) ++ rest ≡ (xs ++ ys) ++ e ∷ rest
  one_more xs ys e rest =
      append_assoc xs (ys ++ e ∷ []) rest
      ∙ (ap (λ l. xs ++ l) (append_assoc ys (e ∷ []) rest) ∙ sym (append_assoc xs ys (e ∷ rest)))

  module _ (min_snap : ℕ) (bottom : Bool) where
    merge_loop-Progress :
        (first : ℕ) (c : Cursor) (o : Output) (groups : List (List Entry)) (under es : List Entry)
        → Progress first o groups under
        → (out : Output) × (groups' : List (List Entry)) × (merge_loop fmt opts min_snap bottom c o
              es
            ≡ ok out)
          × AreOutputs first out.outputs groups'
          × (out.next_id ≡ first + length out.outputs)
          × (all_entries groups' ≡ held groups under ++ kept min_snap bottom c es)
    unfolding merge_loop Closed Under kept
    merge_loop-Progress first c o groups under [] p =
        let (out, groups', closes, p', whole, next) = close-Progress first o groups under p in
        (out, groups', closes, p'.done, next, whole ∙ sym (append-nil (held groups under)))
    merge_loop-Progress first c o groups under (e ∷ es) p =
        let (o1, groups1, under1, rotates, p1, same) =
          rotate-Progress first (new_key c e) o groups under p in
        let c' = (decide min_snap bottom c e).1 in
        elim (Bool-cases (decide min_snap bottom c e).0) [
          | inl keeps ↦
              let (o2, emits, p2) = emit-Progress first o1 groups1 under1 e p1 in
              let (out, groups', loops, done, next, whole) =
                merge_loop-Progress first c' o2 groups1 (under1 ++ e ∷ []) es p2 in
              (
                out,
                groups',
                rw (rotates, keeps, emits) loops,
                done,
                next,
                rw keeps (
                    whole
                    ∙ (one_more (all_entries groups1) under1 e (kept min_snap bottom c' es)
                        ∙ ap (λ l. l ++ e ∷ kept min_snap bottom c' es) same)),
              )
          | inr drops ↦
              let (out, groups', loops, done, next, whole) =
                merge_loop-Progress first c' o1 groups1 under1 es p1 in
              (
                out,
                groups',
                rw (rotates, drops) loops,
                done,
                next,
                rw drops (whole ∙ ap (λ l. l ++ kept min_snap bottom c' es) same),
              )
        ]

    -- The merge of a compaction ends without an error, whatever the versions: its outputs are tables
    -- numbered in turn from the first free number, none is empty, and one after the other they hold
    -- exactly the versions that the loop keeps, in their order.
    pub merge_loop-AreOutputs :
        (first : ℕ) (es : List Entry)
        → (out : Output) × (groups : List (List Entry)) × (merge_loop fmt opts min_snap bottom start
              (record { builder = none; out_bytes = 0; next_id = first; outputs = [] })
              es
            ≡ ok out)
          × AreOutputs first out.outputs groups
          × (out.next_id ≡ first + length out.outputs)
          × (all_entries groups ≡ kept min_snap bottom start es)
    unfolding Under
    merge_loop-AreOutputs first es =
        merge_loop-Progress first start
          (record { builder = none; out_bytes = 0; next_id = first; outputs = [] }) [] [] es
          (record { done = tt; under = (refl, omega arith) })
