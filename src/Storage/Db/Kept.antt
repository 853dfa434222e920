-- ===== src/Storage/Db/Kept.antt =====
-- crates/storage/src/db.rs: the versions that a compaction keeps, and what a read finds of them.
use raft_kv_engine_project.Base.{
  ℕ, ◌≤◌, ◌≡◌, refl, sym, ◌∙◌, subst, inl, inr, Bool, true, false, ◌&&◌, Option, none, some, List,
  [], ◌∷◌, arith, leb, if◌then◌else◌, All, Bool-cases,
}
use raft_kv_engine_project.Base.Bytes.{Bytes, bytes_eq, value_eq, bytes_eq_sound}
use raft_kv_engine_project.Storage.MemTable.{Entry, newest}
use raft_kv_engine_project.Storage.Db.Merging.{Cursor, start, decide}
use raft_kv_engine_project.Storage.Db.Ordered.{
  Follows, IsMerged, newest_behind, not_found, past_key, beyond, follower, invisible,
}
use raft_kv_engine_project.Storage.Db.Decisions.{
  Fresh, Settled, Settled-decide, Fresh-other, Fresh-above, seen,
}

module _ (min_snap : ℕ) (bottom : Bool) where
  -- The versions that the loop over a merge writes.
  unfoldable pub kept : Cursor → List Entry → List Entry
  kept c [] = []
  kept c (e ∷ es) =
      let rest = kept (decide min_snap bottom c e).1 es in
      if (decide min_snap bottom c e).0 then e ∷ rest else rest

  All-kept : (P : Entry → Type 0) (c : Cursor) (es : List Entry) → All P es → All P (kept c es)
  unfolding kept
  All-kept P c [] h = tt
  All-kept P c (e ∷ es) h =
      by_keep (decide min_snap bottom c e).0 (All-kept P (decide min_snap bottom c e).1 es h.1)
    where
      by_keep :
          (b : Bool)
          → All P (kept (decide min_snap bottom c e).1 es)
          → All P (
              if b
              then e ∷ kept (decide min_snap bottom c e).1 es
              else kept (decide min_snap bottom c e).1 es)
      by_keep true rest = (h.0, rest)
      by_keep false rest = rest

  module _ (key : Bytes) (snapshot : ℕ) where
    kept-Settled :
        (c : Cursor) (p : Entry) (es : List Entry)
        → Settled min_snap bottom key snapshot c
        → p.key ≡ key
        → p.seq ≤ min_snap
        → All (Follows p) es
        → IsMerged es
        → newest key snapshot (kept c es) ≡ none
    unfolding kept
    kept-Settled c p [] st k low after o = refl
    kept-Settled c p (e ∷ es) st k low after o = elim (follower key snapshot p e k after.0) [
      | inl (same, older) ↦
          let (drops, st') =
            Settled-decide min_snap bottom key snapshot c e st same (omega (arith, low, older)) in
          rw drops (kept-Settled (decide min_snap bottom c e).1 p es st' k low after.1 o.1)
      | inr past ↦ not_found key snapshot (kept c (e ∷ es)) (
          All-kept (λ x. bytes_eq x.key key ≡ false) c (e ∷ es)
            (past_key key snapshot e.key past, beyond key snapshot e es past o.0))
    ]

    -- What is found of the kept versions and what is found of all: the same version, or at the bottom
    -- nothing in place of a tombstone.
    pub data Agree (found : Option Entry) (among : Option Entry) : Type 0 where
      same_found : found ≡ among → Agree found among
      gone :
          (t : Entry)
          → bottom ≡ true
          → among ≡ some t
          → t.value ≡ none
          → found ≡ none
          → Agree found among

    kept_invisible :
        (c : Cursor) (e : Entry) (es : List Entry)
        → (bytes_eq e.key key && leb e.seq snapshot) ≡ false
        → newest key snapshot (kept c (e ∷ es))
          ≡ newest key snapshot (kept (decide min_snap bottom c e).1 es)
    unfolding kept
    kept_invisible c e es h =
        by_keep (decide min_snap bottom c e).0 (kept (decide min_snap bottom c e).1 es)
      where
        by_keep :
            (b : Bool) (rest : List Entry)
            → newest key snapshot (if b then e ∷ rest else rest) ≡ newest key snapshot rest
        by_keep true rest = invisible key snapshot e rest h
        by_keep false rest = refl

    -- A version that the snapshot does not see changes neither side.
    past_invisible :
        (c : Cursor) (e : Entry) (es : List Entry)
        → (bytes_eq e.key key && leb e.seq snapshot) ≡ false
        → Agree
            (newest key snapshot (kept (decide min_snap bottom c e).1 es))
            (newest key snapshot es)
        → Agree (newest key snapshot (kept c (e ∷ es))) (newest key snapshot (e ∷ es))
    past_invisible c e es h agree =
        subst (λ x. Agree x (newest key snapshot (e ∷ es))) (sym (kept_invisible c e es h))
          (subst (Agree (newest key snapshot (kept (decide min_snap bottom c e).1 es)))
            (sym (invisible key snapshot e es h)) agree)

    -- The newest version that the snapshot sees is kept, or it is a tombstone at the bottom.
    at_visible :
        (c : Cursor) (e : Entry) (es : List Entry)
        → Fresh min_snap bottom key snapshot c
        → e.key ≡ key
        → e.seq ≤ snapshot
        → IsMerged (e ∷ es)
        → Agree (newest key snapshot (kept c (e ∷ es))) (newest key snapshot (e ∷ es))
    unfolding kept
    at_visible c e es f k visible o = elim (seen min_snap bottom key snapshot c e f k visible) [
      | inl keeps ↦ same_found (
          rw keeps (
            newest_behind key snapshot e (kept (decide min_snap bottom c e).1 es) k visible
              (All-kept (Follows e) (decide min_snap bottom c e).1 es o.0))
          ∙ sym (newest_behind key snapshot e es k visible o.0))
      | inr (lowest, dead, drops, below, st) ↦
          gone e lowest (newest_behind key snapshot e es k visible o.0) dead
            (rw drops (kept-Settled (decide min_snap bottom c e).1 e es st k below o.0 o.1))
    ]

    kept-Fresh :
        (c : Cursor) (es : List Entry)
        → min_snap ≤ snapshot
        → Fresh min_snap bottom key snapshot c
        → IsMerged es
        → Agree (newest key snapshot (kept c es)) (newest key snapshot es)
    unfolding kept
    kept-Fresh c [] low f o = same_found refl
    kept-Fresh c (e ∷ es) low f o =
        let rest = kept-Fresh (decide min_snap bottom c e).1 es low in
        elim (Bool-cases (bytes_eq e.key key)) [
          | inr other ↦
              past_invisible c e es (ground (arith, other))
                (rest (Fresh-other min_snap bottom key snapshot c e f other) o.1)
          | inl same ↦
              let k = bytes_eq_sound e.key key same in
              elim (Bool-cases (leb e.seq snapshot)) [
                | inl visible ↦ at_visible c e es f k (ground (arith, visible)) o
                | inr above ↦ past_invisible c e es (ground (arith, above)) (
                    rest
                      (Fresh-above min_snap bottom key snapshot c e f k low (ground (arith, above)))
                      o.1)
              ]
        ]

    -- A compaction drops no version that a live snapshot reads. In the order of a merge, and for any
    -- snapshot at or above the lowest live one, the newest version of a key at or below the snapshot is
    -- the same among the versions written as among all of them, save that at the bottom nothing may
    -- stand in place of a tombstone.
    pub kept-Agree :
        (es : List Entry)
        → min_snap ≤ snapshot
        → IsMerged es
        → Agree (newest key snapshot (kept start es)) (newest key snapshot es)
    unfolding value_eq
    kept-Agree es low o = kept-Fresh start es low (record { baseline = λ h. refl; written = tt }) o
