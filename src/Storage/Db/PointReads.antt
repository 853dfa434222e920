-- ===== src/Storage/Db/PointReads.antt =====
-- crates/storage/src/db.rs: what a point read finds of the versions that a database holds.
use mathlib.Core.Option
use raft_kv_engine_project.Base.{
  ℕ, ◌≡◌, refl, sym, ap, ◌∙◌, subst, inl, inr, Bool, true, false, Option, none, some, List, [], ◌∷◌,
  ◌++◌, arith, if◌then◌else◌, get_elem?, All, Bool-cases,
}
use raft_kv_engine_project.Base.Bytes.{
  Bytes, bytes_eq, bytes_lt, bytes_lt_trans, bytes_lt_total, bytes_eq_sound,
}
use raft_kv_engine_project.Storage.Error.{Result, ok}
use raft_kv_engine_project.Storage.MemTable.{Entry, newest}
use raft_kv_engine_project.Storage.MemTable.Versions.{get-newest}
use raft_kv_engine_project.Storage.SsTable.{Format}
use raft_kv_engine_project.Storage.SsTable.Reader
use raft_kv_engine_project.Storage.SsTable.Reader.{SsTable, partition_point}
use raft_kv_engine_project.Storage.SsTable.Layout.{all_entries}
use raft_kv_engine_project.Storage.SsTable.Scanning.{version, lookup}
use raft_kv_engine_project.Storage.SsTable.Lookup.{get-IsTable, newest_below_min, newest_above_max}
use raft_kv_engine_project.Storage.Db.{Db}
use raft_kv_engine_project.Storage.Db.Reads.{
  Found, better, or_deeper, best_of, in_level, get_deeper, get_levels, get_at,
}
use raft_kv_engine_project.Storage.Db.Newest.{
  pick, pick-none, newest-append, Over, pick-Over, Dominates, value_of,
}
use raft_kv_engine_project.Storage.Db.Layers.{
  TableHolds, LevelHolds, IsDisjoint, DeeperHold, LevelsHold, IsLayered, Holds,
}

module _ (fmt : Format) where
  module _ (key : Bytes) (snapshot : ℕ) where
    get-TableHolds :
        (t : SsTable) (es : List Entry)
        → TableHolds fmt t es
        → Reader.get fmt t key snapshot ≡ ok (lookup key snapshot es)
    get-TableHolds t es h =
        get-IsTable fmt t h.blocks key snapshot h.table
        ∙ ap (λ (l : List Entry). ok (lookup key snapshot l)) h.same

    better-pick :
        (b n : Option Entry)
        → (elim (Option.map version n) as (λ _. Found) [
          | none ↦ Option.map version b
          | some f ↦ better (Option.map version b) f
        ])
          ≡ Option.map version (pick b n)
    unfolding better
    better-pick none none = refl
    better-pick (some x) none = refl
    better-pick none (some y) = refl
    better-pick (some x) (some y) = ground arith

    pick_assoc : (a b c : Option Entry) → pick (pick a b) c ≡ pick a (pick b c)
    pick_assoc none b c = refl
    pick_assoc (some x) none c = refl
    pick_assoc (some x) (some y) none = pick-none (pick (some x) (some y))
    pick_assoc (some x) (some y) (some z) = ground arith

    newest_parts :
        (es first rest : List Entry)
        → es ≡ first ++ rest
        → newest key snapshot es ≡ pick (newest key snapshot first) (newest key snapshot rest)
    newest_parts es first rest whole =
        ap (newest key snapshot) whole ∙ newest-append key snapshot first rest

    best_of-LevelHolds :
        (ts : List SsTable) (es : List Entry) (b : Option Entry)
        → LevelHolds fmt ts es
        → best_of fmt key snapshot ts (Option.map version b)
          ≡ ok (Option.map version (pick b (newest key snapshot es)))
    unfolding best_of
    best_of-LevelHolds [] es b h =
        ap (λ (o : Option Entry). ok (Option.map version o))
          (sym (pick-none b) ∙ ap (λ l. pick b (newest key snapshot l)) (sym h))
    best_of-LevelHolds (t ∷ ts) es b (first, rest, held, more, whole) =
        rw (get-TableHolds t first held) (
          ap (best_of fmt key snapshot ts) (better-pick b (newest key snapshot first))
          ∙ (best_of-LevelHolds ts rest (pick b (newest key snapshot first)) more
              ∙ ap (λ (o : Option Entry). ok (Option.map version o))
                  (pick_assoc b (newest key snapshot first) (newest key snapshot rest)
                    ∙ ap (pick b) (sym (newest_parts es first rest whole)))))

    table_below :
        (t : SsTable) (es : List Entry)
        → TableHolds fmt t es
        → bytes_lt key t.index.min_key ≡ true
        → newest key snapshot es ≡ none
    table_below t es h l =
        ap (newest key snapshot) (sym h.same)
        ∙ newest_below_min fmt t h.blocks h.table key snapshot l

    table_above :
        (t : SsTable) (es : List Entry)
        → TableHolds fmt t es
        → bytes_lt t.index.max_key key ≡ true
        → newest key snapshot es ≡ none
    table_above t es h l =
        ap (newest key snapshot) (sym h.same)
        ∙ newest_above_max fmt t h.blocks h.table key snapshot l

    -- A key below the ranges of the tables is in none of them.
    below_level :
        (ts : List SsTable) (es : List Entry)
        → LevelHolds fmt ts es
        → All (λ u. bytes_lt key u.index.min_key ≡ true) ts
        → newest key snapshot es ≡ none
    below_level [] es h a = ap (newest key snapshot) h
    below_level (t ∷ ts) es (first, rest, held, more, whole) a =
        newest_parts es first rest whole
        ∙ (ap (λ o. pick o (newest key snapshot rest)) (table_below t first held a.0)
            ∙ below_level ts rest more a.1)

    not_below :
        (low : Bytes) (k : Bytes)
        → bytes_lt low key ≡ false
        → bytes_lt low k ≡ true
        → bytes_lt key k ≡ true
    not_below low k h l = elim (Bool-cases (bytes_eq low key)) [
      | inl same ↦ subst (λ j. bytes_lt j k ≡ true) (bytes_eq_sound low key same) l
      | inr other ↦ bytes_lt_trans key low k (reversed other) l
    ]
      where
        reversed : bytes_eq low key ≡ false → bytes_lt key low ≡ true
        reversed other = ground (arith, bytes_lt_total low key other, h)

    found_in : Option SsTable → Result Found
    found_in none = ok none
    found_in (some t) =
        if bytes_lt key t.index.min_key then ok none else Reader.get fmt t key snapshot

    in_level-found_in :
        (ts : List SsTable)
        → in_level fmt key snapshot ts
          ≡ found_in (get_elem? ts (partition_point (λ t. bytes_lt t.index.max_key key) ts))
    unfolding in_level found_in
    in_level-found_in ts = ground arith

    in_level-LevelHolds :
        (ts : List SsTable) (es : List Entry)
        → LevelHolds fmt ts es
        → IsDisjoint fmt ts
        → found_in (get_elem? ts (partition_point (λ t. bytes_lt t.index.max_key key) ts))
          ≡ ok (lookup key snapshot es)
    unfolding partition_point found_in
    in_level-LevelHolds [] es h d = ap (λ (l : List Entry). ok (lookup key snapshot l)) (sym h)
    in_level-LevelHolds (t ∷ ts) es (first, rest, held, more, whole) d =
        elim (Bool-cases (bytes_lt t.index.max_key key)) [
          | inl past ↦ rw past (
              in_level-LevelHolds ts rest more d.1
              ∙ ap (λ (o : Option Entry). ok (Option.map version o))
                  (sym (
                    newest_parts es first rest whole
                    ∙ ap (λ o. pick o (newest key snapshot rest)) (table_above t first held past))))
          | inr here ↦ rw here (
              here_found (bytes_lt key t.index.min_key) refl
              ∙ ap (λ (o : Option Entry). ok (Option.map version o))
                  (sym (
                    newest_parts es first rest whole
                    ∙ (ap (pick (newest key snapshot first))
                          (below_level ts rest more (above_all ts d.0 here))
                        ∙ pick-none (newest key snapshot first)))))
        ]
      where
        above_all :
            (us : List SsTable)
            → All (λ u. bytes_lt t.index.max_key u.index.min_key ≡ true) us
            → bytes_lt t.index.max_key key ≡ false
            → All (λ u. bytes_lt key u.index.min_key ≡ true) us
        above_all [] a h = tt
        above_all (u ∷ us) a h =
            (not_below t.index.max_key u.index.min_key h a.0, above_all us a.1 h)

        here_found :
            (b : Bool)
            → bytes_lt key t.index.min_key ≡ b
            → (if b then ok none else Reader.get fmt t key snapshot)
              ≡ ok (lookup key snapshot first)
        here_found true h =
            ap (λ (o : Option Entry). ok (Option.map version o)) (sym (table_below t first held h))
        here_found false h = get-TableHolds t first held

    -- What a layer settles with what the layers below it come to.
    layer_first :
        (es : List Entry) (layers : List (List Entry))
        → Dominates es (all_entries layers)
        → (later : Result (Option Bytes))
        → later ≡ ok (value_of (newest key snapshot (all_entries layers)))
        → or_deeper (lookup key snapshot es) later
          ≡ ok (value_of (newest key snapshot (es ++ all_entries layers)))
    unfolding or_deeper
    layer_first es layers d later h =
        settle (newest key snapshot es) (newest key snapshot (all_entries layers)) (d key snapshot)
          h
        ∙ ap (λ (o : Option Entry). ok (value_of o))
            (sym (newest-append key snapshot es (all_entries layers)))
      where
        settle :
            (a b : Option Entry)
            → Over a b
            → later ≡ ok (value_of b)
            → or_deeper (Option.map version a) later ≡ ok (value_of (pick a b))
        settle none b o l = l
        settle (some x) b o l =
            ap (λ (r : Option Entry). ok (value_of r)) (sym (pick-Over (some x) b o x refl))

    get_deeper-DeeperHold :
        (levels : List (List SsTable)) (layers : List (List Entry))
        → DeeperHold fmt levels layers
        → IsLayered fmt layers
        → get_deeper fmt key snapshot levels
          ≡ ok (value_of (newest key snapshot (all_entries layers)))
    unfolding get_deeper
    get_deeper-DeeperHold [] [] h l = refl
    get_deeper-DeeperHold [] (es ∷ layers) h l = elim h [ ]
    get_deeper-DeeperHold (ts ∷ levels) [] h l = elim h [ ]
    get_deeper-DeeperHold (ts ∷ levels) (es ∷ layers) (held, disjoint, deeper) (above, l) =
        rw (in_level-found_in ts ∙ in_level-LevelHolds ts es held disjoint) (
          layer_first es layers above (get_deeper fmt key snapshot levels)
            (get_deeper-DeeperHold levels layers deeper l))

    get_levels-LevelsHold :
        (levels : List (List SsTable)) (layers : List (List Entry))
        → LevelsHold fmt levels layers
        → IsLayered fmt layers
        → get_levels fmt key snapshot levels
          ≡ ok (value_of (newest key snapshot (all_entries layers)))
    unfolding get_levels
    get_levels-LevelsHold [] layers h l =
        ap (λ (ls : List (List Entry)). ok (value_of (newest key snapshot (all_entries ls))))
          (sym h)
    get_levels-LevelsHold (ts ∷ levels) [] h l = elim h [ ]
    get_levels-LevelsHold (ts ∷ levels) (es ∷ layers) (held, deeper) (above, l) =
        rw (best_of-LevelHolds ts es none held) (
          layer_first es layers above (get_deeper fmt key snapshot levels)
            (get_deeper-DeeperHold levels layers deeper l))

    -- A point read of a database that holds these layers, at any snapshot, returns the value of the
    -- newest version of the key at or below the snapshot among all the versions of the memtable and of
    -- the tables of every level, and nothing where there is none or it is a tombstone; it does not fail.
    pub get_at-Holds :
        (db : Db) (layers : List (List Entry))
        → Holds fmt db layers
        → get_at fmt db key snapshot
          ≡ ok (value_of (newest key snapshot (db.mem.versions ++ all_entries layers)))
    unfolding get_at or_deeper
    get_at-Holds db layers h =
        ap
          (λ (o : Option (Option Bytes)). elim o as (λ _. Result (Option Bytes)) [
            | some value ↦ ok value
            | none ↦ get_levels fmt key snapshot db.levels
          ])
          (get-newest db.mem key snapshot h.ordered)
        ∙ (from_mem (newest key snapshot db.mem.versions)
            ∙ layer_first db.mem.versions layers h.layered.0 (get_levels fmt key snapshot db.levels)
                (get_levels-LevelsHold db.levels layers h.levels h.layered.1))
      where
        from_mem :
            (o : Option Entry)
            → (elim (Option.map (λ (x : Entry). x.value) o) as (λ _. Result (Option Bytes)) [
              | some value ↦ ok value
              | none ↦ get_levels fmt key snapshot db.levels
            ])
              ≡ or_deeper (Option.map version o) (get_levels fmt key snapshot db.levels)
        from_mem none = refl
        from_mem (some x) = refl
