-- ===== src/Storage/Db/Decisions.antt =====
-- crates/storage/src/db.rs: what the merge of a compaction decides about a version.
use raft_kv_engine_project.Base.{
  ℕ, ◌≤◌, ◌<◌, ◌≡◌, refl, sym, ap, ◌∙◌, subst, ◌⊎◌, inl, inr, Bool, true, false, ◌&&◌, ◌||◌, Option,
  none, some, arith, leb, if◌then◌else◌, Bool-cases,
}
use raft_kv_engine_project.Base.Bytes.{Bytes, bytes_eq, value_eq, bytes_eq_sound, bytes_eq_refl}
use raft_kv_engine_project.Storage.MemTable.{Entry}
use raft_kv_engine_project.Storage.Db.Merging.{
  Cursor, new_key, enter_key, was_written, is_tombstone, decide,
}

module _ (min_snap : ℕ) (bottom : Bool) where
  enter_key-cur_key :
      (c : Cursor) (e : Entry) → value_eq (enter_key c e).cur_key (some e.key) ≡ true
  unfolding enter_key new_key value_eq
  enter_key-cur_key c e = elim (Bool-cases (value_eq c.cur_key (some e.key))) [
    | inl same ↦ rw same same
    | inr other ↦ rw other (bytes_eq_refl e.key)
  ]

  enter_key-last_written : (c : Cursor) (e : Entry) → (enter_key c e).last_written ≡ c.last_written
  unfolding enter_key
  enter_key-last_written c e = ground arith

  decide-cur_key :
      (c : Cursor) (e : Entry) → value_eq (decide min_snap bottom c e).1.cur_key (some e.key) ≡ true
  unfolding decide
  decide-cur_key c e = ground (arith, enter_key-cur_key c e)

  -- The last version written is the one from before, or this one.
  decide-last_written :
      (P : Option (Bytes × ℕ) → Type 0) (c : Cursor) (e : Entry)
      → P c.last_written
      → P (some (e.key, e.seq))
      → P (decide min_snap bottom c e).1.last_written
  unfolding decide
  decide-last_written P c e h k =
      by_tests (was_written (enter_key c e).last_written e)
        (leb e.seq min_snap && (enter_key c e).kept_baseline)
        (leb e.seq min_snap && (is_tombstone e && bottom))
    where
      before_it : P (enter_key c e).last_written
      before_it = subst P (sym (enter_key-last_written c e)) h

      by_tests :
          (written shadowed gone : Bool)
          → (λ (r : Bool × Cursor). P r.1.last_written)
              (if written
                then (false, enter_key c e)
                else if shadowed
                then (false, enter_key c e)
                else if gone
                then (false, record (enter_key c e) { kept_baseline = true })
                else (
                  true,
                  record (enter_key c e) {
                    kept_baseline = leb e.seq min_snap || (enter_key c e).kept_baseline;
                    last_written = some (e.key, e.seq);
                  },
                ))
      by_tests true shadowed gone = before_it
      by_tests false true gone = before_it
      by_tests false false true = before_it
      by_tests false false false = k

  module _ (key : Bytes) (snapshot : ℕ) where
    -- No version of the key that the snapshot sees is behind the cursor.
    abbrev pub NotWritten : Option (Bytes × ℕ) → Type 0
    NotWritten none = Unit
    NotWritten (some w) = bytes_eq w.0 key ≡ true → snapshot < w.1

    pub record Fresh (c : Cursor) : Type 0 where
      pub baseline : value_eq c.cur_key (some key) ≡ true → c.kept_baseline ≡ false
      pub written : NotWritten c.last_written

    -- The version at or below the oldest snapshot is behind the cursor.
    pub record Settled (c : Cursor) : Type 0 where
      pub here : value_eq c.cur_key (some key) ≡ true
      pub baseline : c.kept_baseline ≡ true

    pub Settled-decide :
        (c : Cursor) (e : Entry)
        → Settled c
        → e.key ≡ key
        → e.seq ≤ min_snap
        → ((decide min_snap bottom c e).0 ≡ false) × Settled (decide min_snap bottom c e).1
    unfolding decide enter_key new_key
    Settled-decide c e st k low =
        let same : value_eq c.cur_key (some e.key) ≡ true =
          subst (λ j. value_eq c.cur_key (some j) ≡ true) (sym k) st.here in
        (
          ground (arith, same, st.baseline, low),
          record {
            here = ground (arith, same, st.baseline, low, st.here);
            baseline = ground (arith, same, st.baseline, low);
          },
        )

    two_keys :
        (o : Option Bytes) (k : Bytes)
        → value_eq o (some k) ≡ true
        → value_eq o (some key) ≡ true
        → k ≡ key
    unfolding value_eq
    two_keys none k h g = cc
    two_keys (some j) k h g = sym (bytes_eq_sound j k h) ∙ bytes_eq_sound j key g

    differs : (k : Bytes) → bytes_eq k key ≡ false → k ≡ key → ⊥
    differs k other same =
        let equal : bytes_eq k key ≡ true =
          subst (λ j. bytes_eq j key ≡ true) (sym same) (bytes_eq_refl key) in
        cc

    pub Fresh-other :
        (c : Cursor) (e : Entry)
        → Fresh c
        → bytes_eq e.key key ≡ false
        → Fresh (decide min_snap bottom c e).1
    Fresh-other c e f k = record {
      baseline = λ h.
          elim (differs e.key k
            (two_keys (decide min_snap bottom c e).1.cur_key e.key (decide-cur_key c e) h)) [ ];
      written = decide-last_written NotWritten c e f.written (λ h. cc);
    }

    entered :
        (c : Cursor) (e : Entry) → Fresh c → e.key ≡ key → (enter_key c e).kept_baseline ≡ false
    unfolding enter_key new_key
    entered c e f k =
        let same : value_eq c.cur_key (some key) ≡ value_eq c.cur_key (some e.key) =
          ap (λ j. value_eq c.cur_key (some j)) (sym k) in
        ground (arith, same, f.baseline)

    pub Fresh-above :
        (c : Cursor) (e : Entry)
        → Fresh c
        → e.key ≡ key
        → min_snap ≤ snapshot
        → snapshot < e.seq
        → Fresh (decide min_snap bottom c e).1
    unfolding decide
    Fresh-above c e f k low above = record {
      baseline = λ h. ground (arith, entered c e f k, low, above);
      written = decide-last_written NotWritten c e f.written (λ h. above);
    }

    -- The first version that the snapshot sees is written, or it is a tombstone that nothing is below.
    abbrev pub Seen : Cursor → Entry → Type 0
    Seen c e =
        ((decide min_snap bottom c e).0 ≡ true)
        ⊎ ((bottom ≡ true)
            × (e.value ≡ none)
            × ((decide min_snap bottom c e).0 ≡ false)
            × (e.seq ≤ min_snap)
            × Settled (decide min_snap bottom c e).1)

    not_written :
        (o : Option (Bytes × ℕ)) (e : Entry)
        → NotWritten o
        → e.key ≡ key
        → e.seq ≤ snapshot
        → was_written o e ≡ false
    unfolding was_written
    not_written none e n k visible = refl
    not_written (some w) e n k visible =
        let same : bytes_eq w.0 e.key ≡ bytes_eq w.0 key = ap (bytes_eq w.0) k in
        ground (arith, n, same, visible)

    pub seen : (c : Cursor) (e : Entry) → Fresh c → e.key ≡ key → e.seq ≤ snapshot → Seen c e
    unfolding decide is_tombstone
    seen c e f k visible =
        let fresh =
          ap (λ o. was_written o e) (enter_key-last_written c e)
          ∙ not_written c.last_written e f.written k visible in
        let unsettled = entered c e f k in
        elim (Bool-cases (leb e.seq min_snap && (is_tombstone e && bottom))) [
          | inl gone ↦ inr (
            ground (arith, gone),
            ground (arith, gone),
            ground (arith, gone, fresh, unsettled),
            ground (arith, gone),
            record {
              here =
                  subst (λ j. value_eq (decide min_snap bottom c e).1.cur_key (some j) ≡ true) k
                    (decide-cur_key c e);
              baseline = ground (arith, gone, fresh, unsettled);
            },
          )
          | inr stays ↦ inl (ground (arith, stays, fresh, unsettled))
        ]
