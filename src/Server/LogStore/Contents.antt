-- ===== src/Server/LogStore/Contents.antt =====
-- crates/server/src/logstore.rs: what `persist` leaves in the engine.
use raft_kv_engine_project.Base.{
  ◌+◌, ◌-◌, ◌^◌, ◌≤◌, ◌<◌, ◌≡◌, refl, sym, ap, ◌∙◌, ◌⊎◌, inl, inr, Bool, true, false, not, ◌&&◌,
  Option, none, some, List, [], ◌∷◌, ◌++◌, arith, ltb, leb, ◌==◌, if◌then◌else◌, get_elem?, length,
}
use raft_kv_engine_project.Base.Bytes.{Bytes, bytes_eq}
use raft_kv_engine_project.Raft.Types.{Entry, HardState, Snapshot, Index}
use raft_kv_engine_project.Raft.Log.Contiguous.{Contiguous}
use raft_kv_engine_project.Storage.Batch.{Op, last_write}
use raft_kv_engine_project.Storage.Error.{Result, ok, err, ◌>>=◌}
use raft_kv_engine_project.Server.LogStore.{
  Engine, Codec, LogStore, entry_key, key_snap, delete_range, hard_state_ops, install, append, puts,
  write, persist_batch, persist,
}
use raft_kv_engine_project.Server.LogStore.Writes.{
  last_write-append, last_write-deletions, last_write-puts, after_puts, after_puts_below,
  after_puts_at, or_old,
}

-- Two continuations that agree on what a read returns.
pub by_result :
    {f g : Option Bytes → Option Bytes} (r : Result (Option Bytes))
    → ((old : Option Bytes) → r ≡ ok old → f old ≡ g old)
    → (r >>= λ old. ok (f old)) ≡ (r >>= λ old. ok (g old))
by_result (ok old) h = ap (λ (o : Option Bytes). ok o) (h old refl)
by_result (err failure) h = refl

module _ (engine : Engine) (codec : Codec) where
  abbrev pub entry_at : LogStore engine codec → Index → Result (Option Bytes)
  entry_at s i = engine.get s.db (entry_key i)

  -- Entries stand at every index between the bounds and at no other one, and where the lower bound is 0
  -- the upper one is.
  pub record IsBounded (s : LogStore engine codec) : Type 0 where
    pub outside :
        (i : Index)
        → 0 < i
        → i < 2 ^ 64
        → (i < s.first_index) ⊎ (s.last_index < i)
        → entry_at s i ≡ ok none
    pub inside :
        (i : Index)
        → 0 < i
        → s.first_index ≤ i
        → i ≤ s.last_index
        → (b : Bytes) × (entry_at s i ≡ ok (some b))
    pub empty : s.first_index ≡ 0 → s.last_index ≡ 0
    pub ordered : s.first_index ≤ s.last_index
    pub fits : s.last_index < 2 ^ 64

  pub write-Accepts :
      (db : engine.Db) (ops : List Op)
      → engine.Accepts db ops
      → (db' : engine.Db) × (write engine codec db ops ≡ ok db')
        × ((key : Bytes)
            → engine.get db' key ≡ (engine.get db key >>= λ old. ok (last_write ops key old)))
  unfolding write
  write-Accepts db [] a = (db, refl, λ key. unchanged (engine.get db key))
    where
      unchanged : (r : Result (Option Bytes)) → r ≡ (r >>= λ old. ok old)
      unchanged (ok old) = refl
      unchanged (err failure) = refl
  write-Accepts db (op ∷ ops) a = engine.write_batch-Accepts db (op ∷ ops) a

  hard_state_other :
      (hs : Option HardState) (i : Index) (old : Option Bytes)
      → last_write (hard_state_ops engine codec hs) (entry_key i) old ≡ old
  unfolding hard_state_ops entry_key bytes_eq
  hard_state_other none i old = refl
  hard_state_other (some hs) i old = refl

  pub snapshot_other :
      (snap : Bytes) (ops : List Op) (i : Index) (old : Option Bytes)
      → last_write ((key_snap, some snap) ∷ ops) (entry_key i) old
        ≡ last_write ops (entry_key i) old
  unfolding entry_key bytes_eq
  snapshot_other snap ops i old = refl

  pub deleted :
      (first last i : Index) (old : Option Bytes)
      → i < 2 ^ 64
      → last < 2 ^ 64
      → first ≤ last
      → last_write (delete_range first last) (entry_key i) old
        ≡ (if leb first i && leb i last then none else old)
  deleted first last i old hi hl h =
      last_write-deletions (last + 1 - first) first i old hi (omega (arith, hl, h))
      ∙ ground (arith, h)

  -- A key of an entry after a snapshot was installed.
  abbrev pub kept : Option Snapshot → Option Bytes → Option Bytes
  kept none old = old
  kept (some snap) old = none

  -- What the entries from the index of the first of them on leave of an old value.
  abbrev pub replaced : List Entry → Index → Option Bytes → Option Bytes
  replaced [] i old = old
  replaced (e ∷ es) i old =
      if ltb i e.index then old else or_old engine codec (get_elem? (e ∷ es) (i - e.index)) none

  pub ok_injective : {x y : Option Bytes} → ◌≡◌ {A = Result (Option Bytes)} (ok x) (ok y) → x ≡ y
  ok_injective h = cc

  module _ (s : LogStore engine codec) (v : IsBounded s) (i : Index) (low : 0 < i) (hi : i < 2 ^ 64)
      (old : Option Bytes) (held : entry_at s i ≡ ok old) where
    pub out_of_bounds : (i < s.first_index) ⊎ (s.last_index < i) → old ≡ none
    out_of_bounds o = ok_injective (sym held ∙ v.outside i low hi o)

    cleared :
        (empty : Bool)
        → (s.last_index == 0) ≡ empty
        → last_write
            (if empty then [] else delete_range s.first_index s.last_index)
            (entry_key i)
            old
          ≡ none
    cleared true h = out_of_bounds (inr (ground arith))
    cleared false h =
        deleted s.first_index s.last_index i old hi v.fits v.ordered
        ∙ within (leb s.first_index i) (leb i s.last_index) refl refl
      where
        within :
            (a b : Bool)
            → leb s.first_index i ≡ a
            → leb i s.last_index ≡ b
            → (if a && b then none else old) ≡ none
        within true true ha hb = refl
        within true false ha hb = out_of_bounds (inr (ground arith))
        within false b ha hb = out_of_bounds (inl (ground arith))

    install_lem :
        (snapshot : Option Snapshot)
        → last_write (install engine codec s snapshot).0 (entry_key i) old ≡ kept snapshot old
    unfolding install
    install_lem none = refl
    install_lem (some snap) =
        snapshot_other (codec.ser_snap snap)
          (if s.last_index == 0 then [] else delete_range s.first_index s.last_index) i old
        ∙ cleared (s.last_index == 0) refl

  module _ (base : Index) (last : Index) (i : Index) (low : 0 < i) (hi : i < 2 ^ 64)
      (hl : last < 2 ^ 64) (old : Option Bytes) (above : last < i → old ≡ none) where
    -- The deletion of the entries from one index on, given its test.
    truncated :
        (test : Bool)
        → (not (last == 0) && leb (base + 1) last) ≡ test
        → last_write (if test then delete_range (base + 1) last else []) (entry_key i) old
          ≡ (if ltb base i then none else old)
    truncated true h =
        deleted (base + 1) last i old hi hl (ground (arith, h))
        ∙ within (leb (base + 1) i) (leb i last) refl refl
      where
        within :
            (a b : Bool)
            → leb (base + 1) i ≡ a
            → leb i last ≡ b
            → (if a && b then none else old) ≡ (if ltb base i then none else old)
        within true true ha hb = ground arith
        within true false ha hb = above (ground arith) ∙ ground arith
        within false b ha hb = ground arith
    truncated false h = within (leb (base + 1) i) refl
      where
        within : (a : Bool) → leb (base + 1) i ≡ a → old ≡ (if ltb base i then none else old)
        within true ha = above (ground (arith, h)) ∙ ground arith
        within false ha = ground arith

    placed :
        (e : Entry) (es : List Entry) (t : Bool)
        → ltb base i ≡ t
        → e.index ≡ base + 1
        → after_puts engine codec (e ∷ es) base i (if t then none else old)
          ≡ replaced (e ∷ es) i old
    placed e es false h at =
        let yes : ltb i e.index ≡ true = ground (arith, h, at) in
        after_puts_below engine codec (e ∷ es) base i old (ground (arith, h)) ∙ rw yes refl
    placed e es true h at =
        let no : ltb i e.index ≡ false = ground (arith, h, at) in
        let k = i - (base + 1) in
        ap (λ j. after_puts engine codec (e ∷ es) base j none) {x = i} {y = base + 1 + k}
          (ground (arith, h))
        ∙ (after_puts_at engine codec (e ∷ es) base k none
            ∙ (ap (λ j. or_old engine codec (get_elem? (e ∷ es) j) none) {x = k} {y = i - e.index}
                  (omega (arith, at))
                ∙ rw no refl))

    append_lem :
        (s : LogStore engine codec) (es : List Entry)
        → s.last_index ≡ last
        → Contiguous base es
        → base + length es < 2 ^ 64
        → last_write (append engine codec s es).0 (entry_key i) old ≡ replaced es i old
    unfolding append
    append_lem s [] at c fits = refl
    append_lem s (e ∷ es) at c fits =
        let truncation =
          λ (l k : Index). if not (l == 0) && leb k l then delete_range k l else [] in
        last_write-append (truncation s.last_index e.index) (puts engine codec (e ∷ es))
          (entry_key i) old
        ∙ (ap (λ o. last_write (puts engine codec (e ∷ es)) (entry_key i) o)
              (ap (λ l. last_write (truncation l e.index) (entry_key i) old) at
                ∙ (ap (λ k. last_write (truncation last k) (entry_key i) old) c.0
                    ∙ truncated (not (last == 0) && leb (base + 1) last) refl))
            ∙ (last_write-puts engine codec (e ∷ es) base i (if ltb base i then none else old) hi
                  fits c
                ∙ placed e es (ltb base i) refl c.0))

  module _ (s : LogStore engine codec) (v : IsBounded s) (hs : Option HardState) (es : List Entry)
      (snapshot : Option Snapshot) (base : Index) (c : Contiguous base es)
      (fits : base + length es < 2 ^ 64) where
    installed_above :
        (i : Index)
        → 0 < i
        → i < 2 ^ 64
        → (old : Option Bytes) → entry_at s i ≡ ok old
        → (install engine codec s snapshot).1.last_index < i
        → kept snapshot old ≡ none
    unfolding install
    installed_above i low hi old held h = by_snapshot snapshot h
      where
        by_snapshot :
            (o : Option Snapshot) → (install engine codec s o).1.last_index < i → kept o old ≡ none
        by_snapshot none l = out_of_bounds s v i low hi old held (inr l)
        by_snapshot (some snap) l = refl

    installed_fits : (install engine codec s snapshot).1.last_index < 2 ^ 64
    unfolding install
    installed_fits = by_snapshot snapshot
      where
        by_snapshot : (o : Option Snapshot) → (install engine codec s o).1.last_index < 2 ^ 64
        by_snapshot none = v.fits
        by_snapshot (some snap) = omega arith

    -- What the batch of `persist` leaves at the key of an index.
    batch_lem :
        (i : Index)
        → 0 < i
        → i < 2 ^ 64
        → (old : Option Bytes) → entry_at s i ≡ ok old
        → last_write (persist_batch engine codec s hs es snapshot).0 (entry_key i) old
          ≡ replaced es i (kept snapshot old)
    unfolding persist_batch
    batch_lem i low hi old held =
        let hard = hard_state_ops engine codec hs in
        let (snap_ops, installed) = install engine codec s snapshot in
        let entry_ops = (append engine codec installed es).0 in
        last_write-append hard (snap_ops ++ entry_ops) (entry_key i) old
        ∙ (ap (λ o. last_write (snap_ops ++ entry_ops) (entry_key i) o) (hard_state_other hs i old)
            ∙ (last_write-append snap_ops entry_ops (entry_key i) old
                ∙ (ap (λ o. last_write entry_ops (entry_key i) o)
                      (install_lem s v i low hi old held snapshot)
                    ∙ append_lem base installed.last_index i low hi installed_fits
                        (kept snapshot old) (installed_above i low hi old held) installed es refl c
                        fits)))

    -- A batch that the engine accepts is persisted without an error. After it, with or without a hard
    -- state and an installed snapshot, an entry of the batch stands at the key of its index, no entry
    -- stands after the last one of a batch that has one, and a key before the first one of the batch, or
    -- any key where the batch is empty, holds what it held before, or nothing where a snapshot was
    -- installed. The bounds of the store were right, the entries follow one another, and their indices
    -- have 64 bits.
    pub persist-entry_at :
        engine.Accepts s.db (persist_batch engine codec s hs es snapshot).0
        → (s' : LogStore engine codec) × (persist engine codec s hs es snapshot ≡ ok s')
          × (s'.first_index ≡ (persist_batch engine codec s hs es snapshot).1.first_index)
          × (s'.last_index ≡ (persist_batch engine codec s hs es snapshot).1.last_index)
          × ((i : Index)
              → 0 < i
              → i < 2 ^ 64
              → entry_at s' i ≡ (entry_at s i >>= λ old. ok (replaced es i (kept snapshot old))))
    unfolding persist
    persist-entry_at accepts =
        let (ops, after) = persist_batch engine codec s hs es snapshot in
        let (db, writes, gets) = write-Accepts s.db ops accepts in
        (
          record after { db = db },
          rw writes refl,
          refl,
          refl,
          λ i low hi.
              gets (entry_key i)
              ∙ by_result (entry_at s i) (λ old held. batch_lem i low hi old held),
        )
