-- ===== src/Storage/Db/Layers.antt =====
-- crates/storage/src/db.rs: the versions that a database holds, layer by layer.
use raft_kv_engine_project.Base.{◌≡◌, true, List, [], ◌∷◌, ◌++◌, All}
use raft_kv_engine_project.Base.Bytes.{bytes_lt}
use raft_kv_engine_project.Storage.MemTable.{Entry, IsOrdered}
use raft_kv_engine_project.Storage.SsTable.{Format}
use raft_kv_engine_project.Storage.SsTable.Reader.{SsTable}
use raft_kv_engine_project.Storage.SsTable.Layout.{all_entries}
use raft_kv_engine_project.Storage.SsTable.Lookup.{IsTable}
use raft_kv_engine_project.Storage.Db.{Db}
use raft_kv_engine_project.Storage.Db.Newest.{Dominates}

module _ (fmt : Format) where
  -- A table holds these entries.
  pub record TableHolds (t : SsTable) (es : List Entry) : Type 0 where
    pub blocks : List (List Entry)
    pub table : IsTable fmt t blocks
    pub same : all_entries blocks ≡ es

  -- The tables of a level hold these entries one after the other.
  abbrev pub LevelHolds : List SsTable → List Entry → Type 0
  LevelHolds [] es = es ≡ []
  LevelHolds (t ∷ ts) es =
      (first : List Entry) × (rest : List Entry) × TableHolds t first
      × LevelHolds ts rest
      × (es ≡ first ++ rest)

  -- The key ranges of the tables follow one another.
  abbrev pub IsDisjoint : List SsTable → Type 0
  IsDisjoint [] = Unit
  IsDisjoint (t ∷ ts) =
      All (λ u. bytes_lt t.index.max_key u.index.min_key ≡ true) ts × IsDisjoint ts

  -- The levels below the first.
  abbrev pub DeeperHold : List (List SsTable) → List (List Entry) → Type 0
  DeeperHold [] [] = Unit
  DeeperHold (ts ∷ levels) (es ∷ layers) =
      LevelHolds ts es × IsDisjoint ts × DeeperHold levels layers
  DeeperHold _ _ = ⊥

  abbrev pub LevelsHold : List (List SsTable) → List (List Entry) → Type 0
  LevelsHold [] layers = layers ≡ []
  LevelsHold (ts ∷ levels) [] = ⊥
  LevelsHold (ts ∷ levels) (es ∷ layers) = LevelHolds ts es × DeeperHold levels layers

  -- Every layer is newer than the layers below it.
  abbrev pub IsLayered : List (List Entry) → Type 0
  IsLayered [] = Unit
  IsLayered (es ∷ layers) = Dominates es (all_entries layers) × IsLayered layers

  -- A database whose memtable and levels hold these layers.
  pub record Holds (db : Db) (layers : List (List Entry)) : Type 0 where
    pub ordered : IsOrdered db.mem.versions
    pub levels : LevelsHold db.levels layers
    pub layered : IsLayered (db.mem.versions ∷ layers)
