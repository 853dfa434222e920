-- ===== src/Storage/SsTable/Lookup.antt =====
-- crates/storage/src/sstable.rs: `get` on a table whose blocks are known.
use mathlib.Core.Option
use raft_kv_engine_project.Base.{
  ℕ, zero, suc, ◌+◌, ◌-◌, ◌≤◌, ◌<◌, ◌≡◌, refl, sym, ap, ◌∙◌, subst, Bool, true, false, ◌||◌, Option,
  none, some, List, [], ◌∷◌, ◌++◌, arith, if◌then◌else◌, length, drop, All, All-drop, get_elem?,
  get_elem?-drop, length-drop, Bool-cases, inl, inr, ◌⊎◌,
}
use raft_kv_engine_project.Base.Bytes.{Bytes, bytes_eq, bytes_lt, bytes_eq_sound, bytes_lt_trans}
use raft_kv_engine_project.Storage.Error.{ok}
use raft_kv_engine_project.Storage.MemTable.{Entry, After, IsOrdered, newest}
use raft_kv_engine_project.Storage.Bloom.{may_contain}
use raft_kv_engine_project.Storage.SsTable.{BlockMeta, Format}
use raft_kv_engine_project.Storage.SsTable.Reader.{
  SsTable, Scan, hit, past, onward, partition_point, scan_block, proceed, ends_at, read_block,
  get_from, get,
}
use raft_kv_engine_project.Storage.SsTable.Coding.{block_bytes}
use raft_kv_engine_project.Storage.SsTable.Layout.{
  first_key, data_bytes, all_entries, BlockFits, metas, read_at-metas,
}
use raft_kv_engine_project.Storage.SsTable.Scanning.{
  lookup, version, settle, differs, newest_other, newest_absent, newest_after, scan_block-lookup,
}

-- The entries of a later block come after those before it.
After-reaches :
    (k : Bytes) (s : ℕ) (es : List Entry) (y : Entry) (ys : List Entry)
    → After k s (es ++ y ∷ ys)
    → (bytes_lt k y.key ≡ true) ⊎ (k ≡ y.key)
After-reaches k s [] y ys (inl less, a) = inl less
After-reaches k s [] y ys (inr same, a) = inr same.0
After-reaches k s (x ∷ es) y ys a = After-reaches k s es y ys a.1

-- Blocks before one that starts below the key have none of its versions.
lookup_skip :
    (key : Bytes) (snapshot : ℕ) (es : List Entry) (y : Entry) (ys : List Entry)
    → bytes_lt y.key key ≡ true
    → IsOrdered (es ++ y ∷ ys)
    → newest key snapshot (es ++ y ∷ ys) ≡ newest key snapshot (y ∷ ys)
lookup_skip key snapshot [] y ys h o = refl
lookup_skip key snapshot (x ∷ es) y ys h o =
    newest_other key snapshot x (es ++ y ∷ ys)
      (differs x.key key (below (After-reaches x.key x.seq es y ys o.0)))
    ∙ lookup_skip key snapshot es y ys h o.1
  where
    below : (bytes_lt x.key y.key ≡ true) ⊎ (x.key ≡ y.key) → bytes_lt x.key key ≡ true
    below (inl less) = bytes_lt_trans x.key y.key key less h
    below (inr same) = rw same h

IsOrdered-later : (es later : List Entry) → IsOrdered (es ++ later) → IsOrdered later
IsOrdered-later [] later o = o
IsOrdered-later (x ∷ es) later o = IsOrdered-later es later o.1

drop_split :
    (n : ℕ) (blocks : List (List Entry))
    → n < length blocks
    → (es : List Entry) × (more : List (List Entry)) × (drop n blocks ≡ es ∷ more)
drop_split n [] h = absurd (omega (arith, h))
drop_split zero (es ∷ blocks) h = (es, blocks, refl)
drop_split (suc n) (es ∷ blocks) h = drop_split n blocks (omega (arith, h))

module _ (fmt : Format) where
  -- A table whose file holds the given blocks, and whose index and filter are those of the blocks.
  pub record IsTable (t : SsTable) (blocks : List (List Entry)) : Type 0 where
    pub rest : Bytes
    pub file : t.file ≡ data_bytes blocks ++ rest
    pub index : t.index.blocks ≡ metas fmt 0 blocks
    pub fits : All BlockFits blocks
    pub some_block : 0 < length blocks
    pub ordered : IsOrdered (all_entries blocks)
    pub min : t.index.min_key ≡ first_key (all_entries blocks)
    pub max : All (λ e. bytes_lt t.index.max_key e.key ≡ false) (all_entries blocks)
    pub bloom : All (λ e. may_contain t.bloom e.key ≡ true) (all_entries blocks)

  pub read_block-IsTable :
      (t : SsTable) (blocks : List (List Entry)) (i : ℕ) (es : List Entry)
      → IsTable t blocks
      → get_elem? blocks i ≡ some es
      → read_block fmt t i ≡ ok es
  unfolding read_block
  read_block-IsTable t blocks i es v h =
      rw (v.index, v.file) (read_at-metas fmt [] v.rest blocks i es v.fits h)

  first_of : Bytes → Option (List Entry) → Bool
  first_of key none = true
  first_of key (some es) = bytes_lt key (first_key es)

  ends_at-metas :
      (off : ℕ) (blocks : List (List Entry)) (i : ℕ) (key : Bytes)
      → ends_at (metas fmt off blocks) i key ≡ first_of key (get_elem? blocks i)
  unfolding ends_at first_of
  ends_at-metas off [] i key = refl
  ends_at-metas off (es ∷ blocks) zero key = refl
  ends_at-metas off (es ∷ blocks) (suc i) key = ends_at-metas (off + length _) blocks i key

  -- The block where `get` starts.
  start : Bytes → List BlockMeta → ℕ
  start key ms = partition_point (λ m. bytes_lt m.first_key key) ms - 1

  start-lookup :
      (off : ℕ) (key : Bytes) (snapshot : ℕ) (blocks : List (List Entry))
      → All BlockFits blocks
      → IsOrdered (all_entries blocks)
      → newest key snapshot (all_entries (drop (start key (metas fmt off blocks)) blocks))
        ≡ newest key snapshot (all_entries blocks)
  unfolding start partition_point
  start-lookup off key snapshot [] fits o = refl
  start-lookup off key snapshot (es ∷ []) fits o = elim (Bool-cases (bytes_lt (first_key es) key)) [
    | inl low ↦ rw low refl
    | inr high ↦ rw high refl
  ]
  start-lookup off key snapshot (es ∷ [] ∷ blocks) fits o = absurd (omega (arith, fits.1.0.0))
  start-lookup off key snapshot (es ∷ (y ∷ ys) ∷ blocks) fits o =
      let off1 = off + length (block_bytes es) in
      let p =
        partition_point (λ m. bytes_lt m.first_key key)
          (metas fmt (off1 + length (block_bytes (y ∷ ys))) blocks) in
      let ih =
        start-lookup off1 key snapshot ((y ∷ ys) ∷ blocks) fits.1
          (IsOrdered-later es (all_entries ((y ∷ ys) ∷ blocks)) o) in
      elim (Bool-cases (bytes_lt (first_key es) key)) [
        | inr high ↦ rw high refl
        | inl low ↦ elim (Bool-cases (bytes_lt y.key key)) [
          | inr high ↦ rw (low, high) refl
          | inl next_low ↦
              let one : suc p - 1 ≡ p = omega arith in
              let two : suc (suc p) - 1 ≡ suc p = omega arith in
              rw (low, next_low)
                (ap (λ (n : ℕ). newest key snapshot (all_entries (drop n (es ∷ (y ∷ ys) ∷ blocks))))
                    two
                  ∙ ap (λ (n : ℕ). newest key snapshot (all_entries (drop n ((y ∷ ys) ∷ blocks))))
                      (sym one)
                  ∙ rw next_low at ih
                  ∙ sym (lookup_skip key snapshot es y (ys ++ all_entries blocks) next_low o))
        ]
      ]

  pub length-metas :
      (off : ℕ) (blocks : List (List Entry)) → length (metas fmt off blocks) ≡ length blocks
  length-metas off [] = refl
  length-metas off (es ∷ blocks) = ap suc (length-metas (off + length (block_bytes es)) blocks)

  partition_point-le :
      (p : BlockMeta → Bool) (ms : List BlockMeta) → partition_point p ms ≤ length ms
  unfolding partition_point
  partition_point-le p [] = omega arith
  partition_point-le p (m ∷ ms) = ground (arith, partition_point-le p ms)

  start-lt :
      (key : Bytes) (off : ℕ) (blocks : List (List Entry))
      → 0 < length blocks
      → start key (metas fmt off blocks) < length blocks
  unfolding start
  start-lt key off blocks h = omega (
    arith,
    h,
    length-metas off blocks,
    partition_point-le (λ m. bytes_lt m.first_key key) (metas fmt off blocks),
  )

  IsOrdered-drop :
      (n : ℕ) (blocks : List (List Entry))
      → IsOrdered (all_entries blocks)
      → IsOrdered (all_entries (drop n blocks))
  IsOrdered-drop zero blocks o = o
  IsOrdered-drop (suc n) [] o = o
  IsOrdered-drop (suc n) (es ∷ blocks) o =
      IsOrdered-drop n blocks (IsOrdered-later es (all_entries blocks) o)

  proceed-settle :
      (s : Scan) (later : Option (ℕ × Option Bytes)) → proceed s (ok later) ≡ ok (settle s later)
  unfolding proceed
  proceed-settle (hit seq value) later = refl
  proceed-settle past later = refl
  proceed-settle onward later = refl

  module _ (t : SsTable) (blocks : List (List Entry)) (v : IsTable t blocks) (key : Bytes)
      (snapshot : ℕ) where
    -- One block, given what the loop does if it goes on.
    get_block-lookup :
        (fuel idx : ℕ) (es : List Entry) (more : List Entry)
        → get_elem? blocks idx ≡ some es
        → IsOrdered (es ++ more)
        → (if ends_at t.index.blocks (idx + 1) key
            then ok none
            else get_from fmt fuel t key snapshot (idx + 1))
          ≡ ok (lookup key snapshot more)
        → get_from fmt (suc fuel) t key snapshot idx ≡ ok (lookup key snapshot (es ++ more))
    unfolding get_from
    get_block-lookup fuel idx es more here o goes_on =
        rw
          (
            read_block-IsTable t blocks idx es v here,
            goes_on,
            scan_block-lookup key snapshot es more o,
          )
          (proceed-settle (scan_block key snapshot es) (lookup key snapshot more))

    next_first :
        (idx : ℕ) (next : Option (List Entry))
        → get_elem? blocks (idx + 1) ≡ next
        → ends_at t.index.blocks (idx + 1) key ≡ first_of key next
    next_first idx next h =
        ap (λ (ms : List BlockMeta). ends_at ms (idx + 1) key) v.index
        ∙ ends_at-metas 0 blocks (idx + 1) key
        ∙ ap (first_of key) h

    -- The loop finds what there is from its block on.
    get_from-lookup :
        (fuel idx : ℕ) (es : List Entry) (more : List (List Entry))
        → ((i : ℕ) → get_elem? blocks (idx + i) ≡ get_elem? (es ∷ more) i)
        → All BlockFits more
        → IsOrdered (es ++ all_entries more)
        → length more < fuel
        → get_from fmt fuel t key snapshot idx ≡ ok (lookup key snapshot (es ++ all_entries more))
    unfolding first_of
    get_from-lookup zero idx es more at fits o h = absurd (omega (arith, h))
    get_from-lookup (suc fuel) idx es [] at fits o h =
        get_block-lookup fuel idx es []
          (ap (get_elem? blocks) {x = idx} {y = idx + 0} (omega arith) ∙ at 0) o
          (rw (next_first idx none (at 1)) refl)
    get_from-lookup (suc fuel) idx es ([] ∷ more) at fits o h = absurd (omega (arith, fits.0.0))
    get_from-lookup (suc fuel) idx es ((y ∷ ys) ∷ more) at fits o h =
        get_block-lookup fuel idx es (y ∷ (ys ++ all_entries more))
          (ap (get_elem? blocks) {x = idx} {y = idx + 0} (omega arith) ∙ at 0) o
          (rw (next_first idx (some (y ∷ ys)) (at 1)) (elim (Bool-cases (bytes_lt key y.key)) [
            | inl above ↦ rw above (
                ap (λ (n : Option Entry). ok (Option.map version n))
                  (sym (
                    newest_after key snapshot y (ys ++ all_entries more) above
                      (IsOrdered-later es (y ∷ (ys ++ all_entries more)) o))))
            | inr not_above ↦ rw not_above (
                get_from-lookup fuel (idx + 1) (y ∷ ys) more
                  (λ i.
                    ap (get_elem? blocks) {x = idx + 1 + i} {y = idx + suc i} (omega arith)
                    ∙ at (suc i))
                  fits.1 (IsOrdered-later es (y ∷ (ys ++ all_entries more)) o) (omega (arith, h)))
          ]))

    pub newest_below_min :
        bytes_lt key t.index.min_key ≡ true → newest key snapshot (all_entries blocks) ≡ none
    newest_below_min h =
        below (all_entries blocks) v.ordered (subst (λ k. bytes_lt key k ≡ true) v.min h)
      where
        below :
            (es : List Entry)
            → IsOrdered es
            → bytes_lt key (first_key es) ≡ true
            → newest key snapshot es ≡ none
        below [] o l = refl
        below (x ∷ es) o l = newest_after key snapshot x es l o

    pub newest_above_max :
        bytes_lt t.index.max_key key ≡ true → newest key snapshot (all_entries blocks) ≡ none
    newest_above_max h =
        newest_absent key snapshot (all_entries blocks) (others (all_entries blocks) v.max)
      where
        other : (e : Entry) → bytes_lt t.index.max_key e.key ≡ false → bytes_eq e.key key ≡ false
        other e l = elim (Bool-cases (bytes_eq e.key key)) [
          | inr no_match ↦ no_match
          | inl same ↦ ground (
            arith,
            l,
            subst (λ k. bytes_lt t.index.max_key k ≡ true) (sym (bytes_eq_sound e.key key same)) h,
          )
        ]

        others :
            (es : List Entry)
            → All (λ e. bytes_lt t.index.max_key e.key ≡ false) es
            → All (λ e. bytes_eq e.key key ≡ false) es
        others [] a = tt
        others (e ∷ es) a = (other e a.0, others es a.1)

    newest_filtered :
        may_contain t.bloom key ≡ false → newest key snapshot (all_entries blocks) ≡ none
    newest_filtered h =
        newest_absent key snapshot (all_entries blocks) (others (all_entries blocks) v.bloom)
      where
        other : (e : Entry) → may_contain t.bloom e.key ≡ true → bytes_eq e.key key ≡ false
        other e l = elim (Bool-cases (bytes_eq e.key key)) [
          | inr no_match ↦ no_match
          | inl same ↦ ground (
            arith,
            h,
            subst (λ k. may_contain t.bloom k ≡ true) (bytes_eq_sound e.key key same) l,
          )
        ]

        others :
            (es : List Entry)
            → All (λ e. may_contain t.bloom e.key ≡ true) es
            → All (λ e. bytes_eq e.key key ≡ false) es
        others [] a = tt
        others (e ∷ es) a = (other e a.0, others es a.1)

    -- From the block where `get` starts, the loop finds what the whole table has.
    get_from-start :
        get_from fmt (suc (length t.index.blocks)) t key snapshot (start key t.index.blocks)
        ≡ ok (lookup key snapshot (all_entries blocks))
    get_from-start =
        let idx = start key (metas fmt 0 blocks) in
        let (es, more, split) = drop_split idx blocks (start-lt key 0 blocks v.some_block) in
        let fits =
          subst (λ (bs : List (List Entry)). All BlockFits bs) split
            (All-drop BlockFits idx blocks v.fits) in
        let o =
          subst (λ (bs : List (List Entry)). IsOrdered (all_entries bs)) split
            (IsOrdered-drop idx blocks v.ordered) in
        let size : length (es ∷ more) ≤ length blocks =
          omega (arith, ap length split, length-drop idx blocks) in
        subst
          (λ (ms : List BlockMeta).
            get_from fmt (suc (length ms)) t key snapshot (start key ms)
            ≡ ok (lookup key snapshot (all_entries blocks)))
          (sym v.index)
          (get_from-lookup (suc (length (metas fmt 0 blocks))) idx es more
              (λ i.
                sym (get_elem?-drop idx blocks i)
                ∙ ap (λ (bs : List (List Entry)). get_elem? bs i) split)
              fits.1 o (omega (arith, size, length-metas 0 blocks))
            ∙ ap (λ (bs : List (List Entry)). ok (lookup key snapshot (all_entries bs))) (sym split)
            ∙ ap (λ (n : Option Entry). ok (Option.map version n))
                (start-lookup 0 key snapshot blocks v.fits v.ordered))

  -- A lookup in such a table returns the number and the value of the newest version of the key at or
  -- below the snapshot among the entries of its blocks, and nothing if there is none; it neither fails
  -- nor reads past the table.
  pub get-IsTable :
      (t : SsTable) (blocks : List (List Entry)) (key : Bytes) (snapshot : ℕ)
      → IsTable t blocks
      → get fmt t key snapshot ≡ ok (lookup key snapshot (all_entries blocks))
  unfolding get start
  get-IsTable t blocks key snapshot v =
      elim (Bool-cases (bytes_lt key t.index.min_key || bytes_lt t.index.max_key key)) [
        | inl outside ↦
            let nothing : newest key snapshot (all_entries blocks) ≡ none = ground (
              arith,
              outside,
              λ (h : bytes_lt key t.index.min_key ≡ true).
                  newest_below_min t blocks v key snapshot h,
              λ (h : bytes_lt t.index.max_key key ≡ true).
                  newest_above_max t blocks v key snapshot h,
            ) in
            rw (outside, nothing) refl
        | inr inside ↦ rw inside (elim (Bool-cases (may_contain t.bloom key)) [
          | inr ruled_out ↦ rw (ruled_out, newest_filtered t blocks v key snapshot ruled_out) refl
          | inl possible ↦ rw possible (get_from-start t blocks v key snapshot)
        ])
      ]
