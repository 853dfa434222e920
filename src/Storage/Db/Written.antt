-- ===== src/Storage/Db/Written.antt =====
-- crates/storage/src/db.rs: what a batch does to the reads.
use raft_kv_engine_project.Base.{
  ℕ, suc, ◌+◌, ◌≤◌, ◌<◌, ◌≡◌, refl, sym, ap, ◌∙◌, subst, inl, Bool, true, false, ◌&&◌, Option, none,
  some, List, [], ◌∷◌, arith, leb, if◌then◌else◌, length, All, All-map,
}
use raft_kv_engine_project.Base.Bytes.{Bytes, bytes_eq}
use raft_kv_engine_project.Storage.Batch.{Op, last_write}
use raft_kv_engine_project.Storage.MemTable
use raft_kv_engine_project.Storage.MemTable.{Entry, MemTable, insert_version, IsOrdered, newest}
use raft_kv_engine_project.Storage.MemTable.Versions.{newest-insert_version, get-insert, IsNewest}
use raft_kv_engine_project.Storage.Db.Writes.{insert_ops}
use raft_kv_engine_project.Storage.Db.Newest.{pick, Over, Dominates, value_of}

-- Every version is older than a number.
abbrev pub Below : ℕ → List Entry → Type 0
Below seq = All (λ e. e.seq < seq)

Below-IsNewest : (key : Bytes) (seq : ℕ) (xs : List Entry) → Below seq xs → IsNewest key seq xs
Below-IsNewest key seq [] h = tt
Below-IsNewest key seq (x ∷ xs) h = (λ same. h.0, Below-IsNewest key seq xs h.1)

Below-insert_version :
    (seq : ℕ) (e : Entry) (xs : List Entry)
    → e.seq < seq
    → Below seq xs
    → Below seq (insert_version e xs)
unfolding insert_version
Below-insert_version seq e [] l h = (l, tt)
Below-insert_version seq e (x ∷ xs) l h = ground (arith, Below-insert_version seq e xs l h.1)

-- What is found is older than the number, too.
abbrev pub Under : ℕ → Option Entry → Type 0
Under seq none = Unit
Under seq (some y) = y.seq < seq

pub newest-Under :
    (key : Bytes) (snapshot seq : ℕ) (xs : List Entry)
    → Below seq xs
    → Under seq (newest key snapshot xs)
newest-Under key snapshot seq [] h = tt
newest-Under key snapshot seq (x ∷ xs) h =
    newer (newest key snapshot xs) (newest-Under key snapshot seq xs h.1)
  where
    chosen : (o : Option Entry) → Under seq o → (t : Bool) → Under seq (if t then some x else o)
    chosen o u true = h.0
    chosen o u false = u

    newer : (o : Option Entry) → Under seq o → Under seq (MemTable.newer_of key snapshot x o)
    newer none u = chosen none u (bytes_eq x.key key && leb x.seq snapshot)
    newer (some y) u =
        chosen (some y) u (bytes_eq x.key key && leb x.seq snapshot && leb y.seq x.seq)

-- Two snapshots that see every version find the same.
pub newest_seen :
    (key : Bytes) (a b : ℕ) (xs : List Entry)
    → Below (a + 1) xs
    → Below (b + 1) xs
    → newest key a xs ≡ newest key b xs
newest_seen key a b [] h k = refl
newest_seen key a b (x ∷ xs) h k =
    ap (MemTable.newer_of key a x) (newest_seen key a b xs h.1 k.1) ∙ same (newest key b xs)
  where
    same : (o : Option Entry) → MemTable.newer_of key a x o ≡ MemTable.newer_of key b x o
    same none = ground (arith, h.0, k.0)
    same (some y) = ground (arith, h.0, k.0)

Below-insert :
    (s : ℕ) (m : MemTable) (k : Bytes) (v : Option Bytes)
    → Below s m.versions
    → Below (s + 1) (MemTable.insert m k s v).versions
unfolding MemTable.insert
Below-insert s m k v h =
    Below-insert_version (s + 1) (record { key = k; seq = s; value = v }) m.versions (omega arith)
      (All-map (λ e. e.seq < s) (λ e. e.seq < s + 1) m.versions (λ e l. omega (arith, l)) h)

newest-insert :
    (s : ℕ) (m : MemTable) (k : Bytes) (v : Option Bytes) (key : Bytes) (snapshot : ℕ)
    → Below s m.versions
    → newest key snapshot (MemTable.insert m k s v).versions ≡ (
        if bytes_eq k key && leb s snapshot
        then some (record { key = k; seq = s; value = v })
        else newest key snapshot m.versions)
unfolding MemTable.insert
newest-insert s m k v key snapshot h =
    newest-insert_version (record { key = k; seq = s; value = v }) key snapshot m.versions
      (Below-IsNewest k s m.versions h)

-- The entry of the last operation on a key, or what was found before.
pub after : ℕ → List Op → Bytes → Option Entry → Option Entry
after s [] key o = o
after s ((k, v) ∷ ops) key o =
    after (s + 1) ops key
      (if bytes_eq k key then some (record { key = k; seq = s; value = v }) else o)

pub newest-insert_ops :
    (s : ℕ) (ops : List Op) (m : MemTable) (key : Bytes) (snapshot : ℕ)
    → Below s m.versions
    → s + length ops ≤ snapshot + 1
    → newest key snapshot (insert_ops s ops m).versions
      ≡ after s ops key (newest key snapshot m.versions)
unfolding insert_ops after
newest-insert_ops s [] m key snapshot h l = refl
newest-insert_ops s ((k, v) ∷ ops) m key snapshot h l =
    newest-insert_ops (s + 1) ops (MemTable.insert m k s v) key snapshot (Below-insert s m k v h)
      (omega (arith, l))
    ∙ ap (after (s + 1) ops key) (
        newest-insert s m k v key snapshot h
        ∙ seen (bytes_eq k key) (newest key snapshot m.versions))
  where
    seen :
        (t : Bool) (o : Option Entry)
        → (if t && leb s snapshot then some (record { key = k; seq = s; value = v }) else o)
          ≡ (if t then some (record { key = k; seq = s; value = v }) else o)
    seen true o = ground (arith, l)
    seen false o = refl

-- A snapshot from before the batch finds what it found.
pub newest_before :
    (s : ℕ) (ops : List Op) (m : MemTable) (key : Bytes) (snapshot : ℕ)
    → Below s m.versions
    → snapshot < s
    → newest key snapshot (insert_ops s ops m).versions ≡ newest key snapshot m.versions
unfolding insert_ops
newest_before s [] m key snapshot h l = refl
newest_before s ((k, v) ∷ ops) m key snapshot h l =
    newest_before (s + 1) ops (MemTable.insert m k s v) key snapshot (Below-insert s m k v h)
      (omega (arith, l))
    ∙ (newest-insert s m k v key snapshot h
        ∙ unseen (bytes_eq k key) (newest key snapshot m.versions))
  where
    unseen :
        (t : Bool) (o : Option Entry)
        → (if t && leb s snapshot then some (record { key = k; seq = s; value = v }) else o) ≡ o
    unseen true o = ground (arith, l)
    unseen false o = refl

pub value_after :
    (s : ℕ) (ops : List Op) (key : Bytes) (o r : Option Entry)
    → Under s r
    → value_of (pick (after s ops key o) r) ≡ last_write ops key (value_of (pick o r))
unfolding after
value_after s [] key o r u = refl
value_after s ((k, v) ∷ ops) key o r u =
    value_after (s + 1) ops key
      (if bytes_eq k key then some (record { key = k; seq = s; value = v }) else o) r (later r u)
    ∙ ap (last_write ops key) (written (bytes_eq k key) r u)
  where
    later : (b : Option Entry) → Under s b → Under (s + 1) b
    later none l = tt
    later (some y) l = omega (arith, l)

    written :
        (t : Bool) (b : Option Entry)
        → Under s b
        → value_of (pick (if t then some (record { key = k; seq = s; value = v }) else o) b)
          ≡ (if t then v else value_of (pick o b))
    written true none l = refl
    written true (some y) l = ground (arith, l)
    written false b l = refl

Over-insert :
    (s : ℕ) (m : MemTable) (k : Bytes) (v : Option Bytes) (below : List Entry)
    → Below s m.versions
    → Below s below
    → Dominates m.versions below
    → Dominates (MemTable.insert m k s v).versions below
Over-insert s m k v below h b d key snapshot =
    subst (λ o. Over o (newest key snapshot below)) (sym (newest-insert s m k v key snapshot h))
      (chosen (bytes_eq k key && leb s snapshot))
  where
    over_all :
        (o : Option Entry) → Under s o → Over (some (record { key = k; seq = s; value = v })) o
    over_all none u = tt
    over_all (some y) u = inl u

    chosen :
        (t : Bool)
        → Over
            (if t
              then some (record { key = k; seq = s; value = v })
              else newest key snapshot m.versions)
            (newest key snapshot below)
    chosen true = over_all (newest key snapshot below) (newest-Under key snapshot s below b)
    chosen false = d key snapshot

pub insert_ops-IsOrdered :
    (s : ℕ) (ops : List Op) (m : MemTable) (below : List Entry)
    → IsOrdered m.versions
    → Below s m.versions
    → Below s below
    → Dominates m.versions below
    → IsOrdered (insert_ops s ops m).versions
      × Below (s + length ops) (insert_ops s ops m).versions
      × Dominates (insert_ops s ops m).versions below
unfolding insert_ops
insert_ops-IsOrdered s [] m below o h b d =
    (o, subst (λ n. Below n m.versions) {x = s} {y = s + 0} (omega arith) h, d)
insert_ops-IsOrdered s ((k, v) ∷ ops) m below o h b d =
    let rest =
      insert_ops-IsOrdered (s + 1) ops (MemTable.insert m k s v) below (kept o)
        (Below-insert s m k v h)
        (All-map (λ e. e.seq < s) (λ e. e.seq < s + 1) below (λ e l. omega (arith, l)) b)
        (Over-insert s m k v below h b d) in
    (
      rest.0,
      subst (λ n. Below n (insert_ops (s + 1) ops (MemTable.insert m k s v)).versions)
          {x = s + 1 + length ops} {y = s + suc (length ops)} (omega arith) rest.1,
      rest.2,
    )
  where
    kept : IsOrdered m.versions → IsOrdered (MemTable.insert m k s v).versions
    kept i = (get-insert m k s v k s i (Below-IsNewest k s m.versions h)).0
