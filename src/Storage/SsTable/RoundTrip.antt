-- ===== src/Storage/SsTable/RoundTrip.antt =====
-- crates/storage/src/sstable.rs: a finished table is opened and read.
use raft_kv_engine_project.Base.{
  ℕ, ◌+◌, ◌-◌, ◌^◌, ◌<◌, ◌≡◌, refl, sym, ap, ◌∙◌, subst, true, false, Option, some, List, [], ◌∷◌,
  ◌++◌, append-nil, append_assoc, arith, leb, ==_iff, length, take, drop, All, All-split,
  length-append, drop_append, Bool-cases, inl, inr, ◌⊎◌,
}
use raft_kv_engine_project.Base.Bytes.{Bytes, bytes_lt, bytes_lt_irrefl, bytes_lt_trans}
use raft_kv_engine_project.Base.LittleEndian.{from_le_bytes, from_le_bytes-to_le_bytes}
use raft_kv_engine_project.Storage.Error.{Result, ok, ◌>>=◌}
use raft_kv_engine_project.Storage.MemTable.{Entry, IsOrdered}
use raft_kv_engine_project.Storage.Bloom
use raft_kv_engine_project.Storage.Bloom.{fnv1a, from_hashes, may_contain}
use raft_kv_engine_project.Storage.Bloom.Coding.{decode-encode}
use raft_kv_engine_project.Storage.Bloom.NoFalseNegatives.{
  may_contain-from_hashes, from_hashes_shape,
}
use raft_kv_engine_project.Storage.SsTable.{TableIndex, Format, magic, read_exact, entry_bytes}
use raft_kv_engine_project.Storage.SsTable.Builder.{TableBuilder, table_index, footer, or_empty}
use raft_kv_engine_project.Storage.SsTable.Reader.{SsTable, open_table, get}
use raft_kv_engine_project.Storage.SsTable.Coding.{Fits, block_bytes}
use raft_kv_engine_project.Storage.SsTable.Layout.{
  head_key, first_key, data_bytes, all_entries, BlockFits, read_exact_within,
}
use raft_kv_engine_project.Storage.SsTable.Built.{
  last_key, IsHashed, Holds, build_blocks, build_blocks-Holds,
}
use raft_kv_engine_project.Storage.SsTable.Scanning.{lookup}
use raft_kv_engine_project.Storage.SsTable.Iteration.{iter, collect, collect-iter}
use raft_kv_engine_project.Storage.SsTable.Lookup.{IsTable, get-IsTable}

-- A checksum has 32 bits, and an index that was serialized is read back.
pub record IsFaithful (fmt : Format) : Type 0 where
  pub crc_bound : (bytes : Bytes) → fmt.crc32 bytes < 2 ^ 32
  pub read_back : (index : TableIndex) → fmt.deserialize (fmt.serialize index) ≡ some index

data_bytes-all_entries :
    (blocks : List (List Entry)) → data_bytes blocks ≡ block_bytes (all_entries blocks)
data_bytes-all_entries [] = refl
data_bytes-all_entries (es ∷ blocks) =
    ap (λ (r : Bytes). block_bytes es ++ r) (data_bytes-all_entries blocks)
    ∙ sym (joined es (all_entries blocks))
  where
    joined : (xs ys : List Entry) → block_bytes (xs ++ ys) ≡ block_bytes xs ++ block_bytes ys
    joined [] ys = refl
    joined (x ∷ xs) ys =
        ap (λ (r : Bytes). entry_bytes x ++ r) (joined xs ys)
        ∙ sym (append_assoc (entry_bytes x) (block_bytes xs) (block_bytes ys))

blocks-BlockFits :
    (blocks : List (List Entry))
    → All (λ block. 0 < length block) blocks
    → All Fits (all_entries blocks)
    → length (data_bytes blocks) < 2 ^ 32
    → All BlockFits blocks
blocks-BlockFits [] s f l = tt
blocks-BlockFits (es ∷ blocks) s f l =
    let parts = All-split Fits es (all_entries blocks) f in
    let size = length-append (block_bytes es) (data_bytes blocks) in
    (
      (s.0, parts.0, omega (arith, l, size)),
      blocks-BlockFits blocks s.1 parts.1 (omega (arith, l, size)),
    )

-- No key of an ordered table is above its last one.
last_key-bounds :
    (es : List Entry) → IsOrdered es → All (λ e. bytes_lt (or_empty (last_key es)) e.key ≡ false) es
unfolding or_empty
last_key-bounds [] o = tt
last_key-bounds (e ∷ []) o = (bytes_lt_irrefl e.key, tt)
last_key-bounds (e ∷ x ∷ es) o =
    let later = last_key-bounds (x ∷ es) o.1 in (not_above (last_key (x ∷ es)) later.0 o.0.0, later)
  where
    not_above :
        (k : Option Bytes)
        → bytes_lt (or_empty k) x.key ≡ false
        → (bytes_lt e.key x.key ≡ true) ⊎ ((e.key ≡ x.key) × (x.seq < e.seq))
        → bytes_lt (or_empty k) e.key ≡ false
    not_above k h (inr same) = subst (λ j. bytes_lt (or_empty k) j ≡ false) (sym same.0) h
    not_above k h (inl less) = elim (Bool-cases (bytes_lt (or_empty k) e.key)) [
      | inr no_less ↦ no_less
      | inl above ↦ ground (arith, h, bytes_lt_trans (or_empty k) e.key x.key above less)
    ]

or_empty-head_key : (es : List Entry) → or_empty (head_key es) ≡ first_key es
unfolding or_empty
or_empty-head_key [] = refl
or_empty-head_key (e ∷ es) = refl

module _ (fmt : Format) (faithful : IsFaithful fmt) where
  -- What `finish` leaves in the file, once the last block is written.
  abbrev pub file_of : TableBuilder → Bytes
  file_of b =
      let payload = fmt.serialize (table_index fmt b) in
      b.file ++ (payload ++ footer fmt b.offset payload)

  abbrev pub table_of : TableBuilder → ℕ → SsTable
  table_of b id = record {
    id = id;
    file = file_of b;
    index = table_index fmt b;
    bloom = from_hashes fmt.scaled b.key_hashes b.bits_per_key;
  }

  module _ (off : ℕ) (payload : Bytes) where
    length-footer : length (footer fmt off payload) ≡ 24
    unfolding footer
    length-footer = refl

    footer-magic : from_le_bytes (take 8 (drop 16 (footer fmt off payload))) ≡ magic
    unfolding footer
    footer-magic = from_le_bytes-to_le_bytes 8 magic (omega arith)

    footer_offset : off < 2 ^ 64 → from_le_bytes (take 8 (footer fmt off payload)) ≡ off
    unfolding footer
    footer_offset h = from_le_bytes-to_le_bytes 8 off h

    footer-length :
        length payload < 2 ^ 32
        → from_le_bytes (take 4 (drop 8 (footer fmt off payload))) ≡ length payload
    unfolding footer
    footer-length h = from_le_bytes-to_le_bytes 4 (length payload) h

    footer_crc : from_le_bytes (take 4 (drop 12 (footer fmt off payload))) ≡ fmt.crc32 payload
    unfolding footer
    footer_crc = from_le_bytes-to_le_bytes 4 (fmt.crc32 payload) (faithful.crc_bound payload)

  stored_filter :
      (b : TableBuilder)
      → Bloom.decode (table_index fmt b).bloom
        ≡ some (from_hashes fmt.scaled b.key_hashes b.bits_per_key)
  unfolding table_index
  stored_filter b =
      let shape = from_hashes_shape fmt.scaled b.key_hashes b.bits_per_key in
      decode-encode (from_hashes fmt.scaled b.key_hashes b.bits_per_key) shape.0 shape.1

  open_table-file_of :
      (b : TableBuilder) (id : ℕ)
      → b.offset ≡ length b.file
      → b.offset < 2 ^ 64
      → length (fmt.serialize (table_index fmt b)) < 2 ^ 32
      → open_table fmt (file_of b) id ≡ ok (table_of b id)
  unfolding open_table
  open_table-file_of b id at small fits =
      let index = table_index fmt b in
      let payload = fmt.serialize index in
      let last = footer fmt b.offset payload in
      let file = b.file ++ (payload ++ last) in
      let size : length file ≡ length b.file + length payload + 24 = omega (
        arith,
        length-append b.file (payload ++ last),
        length-append payload last,
        length-footer b.offset payload,
      ) in
      let found : drop (length file - 24) file ≡ last =
        ap (drop (length file - 24)) (sym (append_assoc b.file payload last))
        ∙ drop_append (length file - 24) (b.file ++ payload) last
            (omega (arith, size, length-append b.file payload)) in
      let long : leb 24 (length file) ≡ true = ground (arith, size) in
      let read : read_exact file b.offset (length payload) ≡ ok payload =
        subst (λ (o : ℕ). read_exact file o (length payload) ≡ ok payload) (sym at)
          (read_exact_within b.file payload last (length payload) refl) in
      rw
        (
          found,
          long,
          footer-magic b.offset payload,
          footer_offset b.offset payload small,
          footer-length b.offset payload fits,
          footer_crc b.offset payload,
          read,
          (==_iff (fmt.crc32 payload) (fmt.crc32 payload)).1 refl,
          faithful.read_back index,
          stored_filter b,
        )
        refl

  table_of-IsTable :
      (b : TableBuilder) (id : ℕ) (es : List Entry) (blocks : List (List Entry))
      → Holds fmt b es blocks []
      → IsOrdered es
      → All Fits es
      → 0 < length es
      → length (block_bytes es) < 2 ^ 32
      → IsTable fmt (table_of b id) blocks
  unfolding table_index
  table_of-IsTable b id es blocks v o fits some_entry size =
      let same : all_entries blocks ≡ es = sym (append-nil (all_entries blocks)) ∙ v.whole in
      let payload = fmt.serialize (table_index fmt b) in
      let bytes : length (data_bytes blocks) < 2 ^ 32 = omega (
        arith,
        size,
        ap length (data_bytes-all_entries blocks),
        ap (λ (l : List Entry). length (block_bytes l)) same,
      ) in
      record {
        rest = payload ++ footer fmt b.offset payload;
        file = ap (λ (r : Bytes). r ++ (payload ++ footer fmt b.offset payload)) v.file;
        index = v.blocks;
        fits =
            blocks-BlockFits blocks v.some_entry
              (subst (λ (l : List Entry). All Fits l) (sym same) fits) bytes;
        some_block = has_block blocks (ap length same);
        ordered = subst (λ (l : List Entry). IsOrdered l) (sym same) o;
        min = ap or_empty v.min ∙ or_empty-head_key es ∙ ap first_key (sym same);
        max =
            subst (λ (l : List Entry). All (λ e. bytes_lt (or_empty b.max_key) e.key ≡ false) l)
              (sym same)
              (subst (λ (k : Option Bytes). All (λ e. bytes_lt (or_empty k) e.key ≡ false) es)
                (sym v.max) (last_key-bounds es o));
        bloom =
            subst (λ (l : List Entry). All (λ e. may_contain (table_of b id).bloom e.key ≡ true) l)
              (sym same) (passes es v.hashes);
      }
    where
      has_block :
          (blocks : List (List Entry)) → length (all_entries blocks) ≡ length es → 0 < length blocks
      has_block [] h = absurd (omega (arith, h, some_entry))
      has_block (x ∷ xs) h = omega arith

      passes :
          (l : List Entry)
          → All (IsHashed b.key_hashes) l
          → All (λ e. may_contain (table_of b id).bloom e.key ≡ true) l
      passes [] h = tt
      passes (e ∷ l) h =
          (may_contain-from_hashes fmt.scaled b.key_hashes b.bits_per_key e.key h.0, passes l h.1)

  ok_injective : {x y : TableBuilder} → ◌≡◌ {A = Result TableBuilder} (ok x) (ok y) → x ≡ y
  ok_injective h = cc

  -- A table built from entries in order, opened again, and the blocks that it holds.
  pub built-IsTable :
      (block_size bits id : ℕ) (es : List Entry) (b : TableBuilder)
      → build_blocks fmt block_size bits es ≡ ok b
      → IsOrdered es
      → All Fits es
      → 0 < length es
      → length (block_bytes es) < 2 ^ 32
      → length (fmt.serialize (table_index fmt b)) < 2 ^ 32
      → (blocks : List (List Entry)) × (open_table fmt (file_of b) id ≡ ok (table_of b id))
        × IsTable fmt (table_of b id) blocks
        × (all_entries blocks ≡ es)
  built-IsTable block_size bits id es b built o fits some_entry size index_size =
      let (b0, blocks, built0, v0) = build_blocks-Holds fmt block_size bits es in
      let v =
        subst (λ (x : TableBuilder). Holds fmt x es blocks []) (ok_injective (sym built0 ∙ built))
          v0 in
      let same : all_entries blocks ≡ es = sym (append-nil (all_entries blocks)) ∙ v.whole in
      let bytes : length (data_bytes blocks) < 2 ^ 32 = omega (
        arith,
        size,
        ap length (data_bytes-all_entries blocks),
        ap (λ (l : List Entry). length (block_bytes l)) same,
      ) in
      (
        blocks,
        open_table-file_of b id (v.offset ∙ sym (ap length v.file)) (omega (arith, v.offset, bytes))
            index_size,
        table_of-IsTable b id es blocks v o fits some_entry size,
        same,
      )

  -- A table built from entries in order, whatever the size of its blocks and its number of filter
  -- bits: it opens, and its lookups at every key and snapshot return the number and the value of the
  -- newest visible version among the entries, and nothing if there is none. There is an entry, lengths
  -- and numbers fit their widths, and the data and the index are shorter than 4 GiB.
  pub get-build_blocks :
      (block_size bits id : ℕ) (es : List Entry) (b : TableBuilder) (key : Bytes) (snapshot : ℕ)
      → build_blocks fmt block_size bits es ≡ ok b
      → IsOrdered es
      → All Fits es
      → 0 < length es
      → length (block_bytes es) < 2 ^ 32
      → length (fmt.serialize (table_index fmt b)) < 2 ^ 32
      → (open_table fmt (file_of b) id >>= λ t. get fmt t key snapshot)
        ≡ ok (lookup key snapshot es)
  get-build_blocks block_size bits id es b key snapshot built o fits some_entry size index_size =
      let (blocks, opens, table, same) =
        built-IsTable block_size bits id es b built o fits some_entry size index_size in
      rw opens (
        get-IsTable fmt (table_of b id) blocks key snapshot table
        ∙ ap (λ (l : List Entry). ok (lookup key snapshot l)) same)

  -- A table built from entries in order, whatever the size of its blocks and its number of filter
  -- bits, opens, and its iterator runs
  -- through exactly these entries in their order and then ends: they are what is collected by any
  -- number of calls of `next` above theirs. There is an entry, lengths and numbers fit their widths, and
  -- the data and the index are shorter than 4 GiB.
  pub collect-build_blocks :
      (block_size bits id calls : ℕ) (es : List Entry) (b : TableBuilder)
      → build_blocks fmt block_size bits es ≡ ok b
      → IsOrdered es
      → All Fits es
      → 0 < length es
      → length (block_bytes es) < 2 ^ 32
      → length (fmt.serialize (table_index fmt b)) < 2 ^ 32
      → length es < calls
      → (open_table fmt (file_of b) id >>= λ t. collect fmt calls (iter t)) ≡ ok es
  collect-build_blocks block_size bits id calls es b built o fits some_entry size index_size
        enough =
      let (blocks, opens, table, same) =
        built-IsTable block_size bits id es b built o fits some_entry size index_size in
      rw opens (
        collect-iter fmt (table_of b id) blocks table calls (omega (arith, enough, ap length same))
        ∙ ap (λ (l : List Entry). ok l) same)
