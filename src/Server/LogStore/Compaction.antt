-- ===== src/Server/LogStore/Compaction.antt =====
-- crates/server/src/logstore.rs: what `compact_to` leaves in the engine.
use raft_kv_engine_project.Base.{
  ◌+◌, Option, List, refl, ◌^◌, ◌<◌, ◌≡◌, ◌∙◌, inl, inr, ◌⊎◌, min, Bool, true, false, not, ◌&&◌,
  none, [], arith, leb, ◌==◌, Bool-cases, if◌then◌else◌,
}
use raft_kv_engine_project.Raft.Types.{Snapshot, Index}
use raft_kv_engine_project.Storage.Batch.{Op, last_write}
use raft_kv_engine_project.Storage.Error.{ok, ◌>>=◌}
use raft_kv_engine_project.Base.Bytes.{Bytes}
use raft_kv_engine_project.Server.LogStore.{
  Engine, Codec, LogStore, entry_key, delete_range, covers, compact_batch, compact_to,
}
use raft_kv_engine_project.Server.LogStore.Contents.{
  entry_at, IsBounded, deleted, snapshot_other, out_of_bounds, by_result,
}

module _ (engine : Engine) (codec : Codec) (s : LogStore engine codec)
    (v : IsBounded engine codec s) (snap : Snapshot) where
  module _ (i : Index) (low : 0 < i) (hi : i < 2 ^ 64) (old : Option Bytes)
      (held : entry_at engine codec s i ≡ ok old) where
    -- A key outside of the bounds is empty, and stays so.
    gone : (t : Bool) → (i < s.first_index) ⊎ (s.last_index < i) → old ≡ (if t then none else old)
    gone true o = out_of_bounds engine codec s v i low hi old held o
    gone false o = refl

    -- The deletion of the entries that the snapshot covers, given its test.
    dropped :
        (covers : Bool)
        → (not (s.last_index == 0) && leb s.first_index snap.last_index) ≡ covers
        → last_write
            (if covers then delete_range s.first_index (min snap.last_index s.last_index) else [])
            (entry_key i)
            old
          ≡ (if leb i snap.last_index then none else old)
    dropped true h =
        deleted engine codec s.first_index (min snap.last_index s.last_index) i old hi
          (omega (arith, v.fits)) (ground (arith, h, v.ordered))
        ∙ within (leb s.first_index i) (leb i s.last_index) (leb i snap.last_index) refl refl refl
      where
        within :
            (a b c : Bool)
            → leb s.first_index i ≡ a
            → leb i s.last_index ≡ b
            → leb i snap.last_index ≡ c
            → (if a && leb i (min snap.last_index s.last_index) then none else old)
              ≡ (if c then none else old)
        within false b c ha hb hc = gone c (inl (ground (arith, ha)))
        within true true true ha hb hc =
            let yes : leb i (min snap.last_index s.last_index) ≡ true = ground (arith, hb, hc) in
            rw yes refl
        within true b false ha hb hc =
            let no : leb i (min snap.last_index s.last_index) ≡ false = ground (arith, hc) in
            rw no refl
        within true false true ha hb hc =
            let no : leb i (min snap.last_index s.last_index) ≡ false = ground (arith, hb) in
            rw no (gone true (inr (ground (arith, hb))))
    dropped false h = within (leb i snap.last_index) refl
      where
        within : (c : Bool) → leb i snap.last_index ≡ c → old ≡ (if c then none else old)
        within false hc = refl
        within true hc = elim (Bool-cases (s.last_index == 0)) [
          | inl empty ↦ gone true (inr (ground (arith, empty, low)))
          | inr some_entry ↦ gone true (inl (ground (arith, h, some_entry, hc)))
        ]

  -- A batch that the engine accepts is compacted without an error. After it, the keys of the indices up
  -- to the last one of the snapshot are empty, and those after it hold what they held before, whatever
  -- part of the log the snapshot covers. The bounds of the store were right.
  pub compact_to-entry_at :
      engine.Accepts s.db (compact_batch engine codec s snap)
      → (s' : LogStore engine codec) × (compact_to engine codec s snap ≡ ok s')
        × ((i : Index)
            → 0 < i
            → i < 2 ^ 64
            → entry_at engine codec s' i ≡ (
                entry_at engine codec s i >>= λ old.
                ok (if leb i snap.last_index then none else old)))
  unfolding compact_to compact_batch covers
  compact_to-entry_at accepts =
      let (db, writes, gets) =
        engine.write_batch-Accepts s.db (compact_batch engine codec s snap) accepts in
      (
        record {
          db = db;
          first_index =
              if covers engine codec s snap
              then (if leb s.last_index snap.last_index then 0 else snap.last_index + 1)
              else s.first_index;
          last_index =
              if covers engine codec s snap
              then (if leb s.last_index snap.last_index then 0 else s.last_index)
              else s.last_index;
        },
        rw writes refl,
        λ i low hi.
            gets (entry_key i)
            ∙ by_result (entry_at engine codec s i) (λ old held.
              snapshot_other engine codec (codec.ser_snap snap)
                (removed (covers engine codec s snap)) i old
              ∙ dropped i low hi old held (covers engine codec s snap) refl),
      )
    where
      removed : Bool → List Op
      removed test =
          if test then delete_range s.first_index (min snap.last_index s.last_index) else []
