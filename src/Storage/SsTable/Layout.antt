-- ===== src/Storage/SsTable/Layout.antt =====
-- crates/storage/src/sstable.rs: the blocks of a table in its file, and how they are read.
use mathlib.Core.Option
use raft_kv_engine_project.Base.{
  ℕ, zero, suc, ◌+◌, ◌%◌, ◌^◌, ◌<◌, ◌≡◌, refl, sym, ap, ◌∙◌, subst₂, Option, none, some, List, [],
  ◌∷◌, ◌++◌, append-nil, append_assoc, arith, ◌==◌, ==_iff, length, All, get_elem?, length-append,
  take_append, drop_append,
}
use raft_kv_engine_project.Base.Bytes.{Bytes}
use raft_kv_engine_project.Storage.Error.{
  Result, ok, corruption, panic, ◌>>=◌, ◌>>◌, ensure, or_error,
}
use raft_kv_engine_project.Storage.MemTable.{Entry}
use raft_kv_engine_project.Storage.SsTable.{BlockMeta, Format, decode_block, read_exact}
use raft_kv_engine_project.Storage.SsTable.Coding.{Fits, block_bytes, decode_block-block_bytes}

abbrev pub head_key : List Entry → Option Bytes
head_key [] = none
head_key (e ∷ es) = some e.key

-- The first key of a block that has one.
abbrev pub first_key : List Entry → Bytes
first_key [] = []
first_key (e ∷ es) = e.key

abbrev pub data_bytes : List (List Entry) → Bytes
data_bytes [] = []
data_bytes (es ∷ blocks) = block_bytes es ++ data_bytes blocks

abbrev pub all_entries : List (List Entry) → List Entry
all_entries [] = []
all_entries (es ∷ blocks) = es ++ all_entries blocks

-- A block has an entry, its entries fit their widths, and its length has 32 bits.
abbrev pub BlockFits : List Entry → Type 0
BlockFits es = (0 < length es) × All Fits es × (length (block_bytes es) < 2 ^ 32)

pub read_exact_within :
    (before middle after : Bytes) (n : ℕ)
    → n ≡ length middle
    → read_exact (before ++ (middle ++ after)) (length before) n ≡ ok middle
unfolding read_exact
read_exact_within before middle after n h = ground (
  arith,
  drop_append (length before) before (middle ++ after) refl,
  length-append middle after,
  take_append n middle after h,
)

module _ (fmt : Format) where
  abbrev pub meta_at : ℕ → List Entry → BlockMeta
  meta_at off es = record {
    first_key = first_key es;
    offset = off;
    len = length (block_bytes es) % 2 ^ 32;
    crc = fmt.crc32 (block_bytes es);
  }

  -- The index of blocks that follow one another from an offset on.
  abbrev pub metas : ℕ → List (List Entry) → List BlockMeta
  metas off [] = []
  metas off (es ∷ blocks) = meta_at off es ∷ metas (off + length (block_bytes es)) blocks

  pub metas-append :
      (off : ℕ) (blocks : List (List Entry)) (es : List Entry)
      → metas off (blocks ++ es ∷ [])
        ≡ metas off blocks ++ meta_at (off + length (data_bytes blocks)) es ∷ []
  metas-append off [] es = ap (λ (o : ℕ). meta_at o es ∷ []) {x = off} {y = off + 0} (omega arith)
  metas-append off (x ∷ blocks) es =
      ap (λ (ms : List BlockMeta). meta_at off x ∷ ms)
        (metas-append (off + length (block_bytes x)) blocks es
          ∙ ap (λ (o : ℕ). metas (off + length (block_bytes x)) blocks ++ meta_at o es ∷ [])
              {x = off + length (block_bytes x) + length (data_bytes blocks)}
              {y = off + length (data_bytes (x ∷ blocks))}
              (omega (arith, length-append (block_bytes x) (data_bytes blocks))))

  pub data_bytes-append :
      (blocks : List (List Entry)) (es : List Entry)
      → data_bytes (blocks ++ es ∷ []) ≡ data_bytes blocks ++ block_bytes es
  data_bytes-append [] es = append-nil (block_bytes es)
  data_bytes-append (x ∷ blocks) es =
      ap (λ (r : Bytes). block_bytes x ++ r) (data_bytes-append blocks es)
      ∙ sym (append_assoc (block_bytes x) (data_bytes blocks) (block_bytes es))

  -- What `read_block` does once it has the block's place.
  abbrev read_at : Bytes → Option BlockMeta → Result (List Entry)
  read_at file meta = or_error meta panic >>= λ m.
      (read_exact file m.offset m.len >>= λ buf.
      (ensure (fmt.crc32 buf == m.crc) corruption >> decode_block buf))

  read_at-meta_at :
      (before after : Bytes) (es : List Entry)
      → BlockFits es
      → read_at (before ++ (block_bytes es ++ after)) (some (meta_at (length before) es)) ≡ ok es
  read_at-meta_at before after es fits =
      rw
        (read_exact_within before (block_bytes es) after (length (block_bytes es) % 2 ^ 32)
          (omega (arith, fits.2)))
        (rw ((==_iff (fmt.crc32 (block_bytes es)) (fmt.crc32 (block_bytes es))).1 refl)
          (decode_block-block_bytes es fits.1))

  pub read_at-metas :
      (before after : Bytes) (blocks : List (List Entry)) (i : ℕ) (es : List Entry)
      → All BlockFits blocks
      → get_elem? blocks i ≡ some es
      → read_at
          (before ++ (data_bytes blocks ++ after))
          (get_elem? (metas (length before) blocks) i)
        ≡ ok es
  read_at-metas before after [] i es fits h = ground (arith, h)
  read_at-metas before after (x ∷ blocks) zero es fits h =
      rw (append_assoc (block_bytes x) (data_bytes blocks) after)
        (read_at-meta_at before (data_bytes blocks ++ after) x fits.0 ∙ ap ok (Option.some_inj.0 h))
  read_at-metas before after (x ∷ blocks) (suc i) es fits h =
      let rest = data_bytes blocks ++ after in
      let moved : (before ++ block_bytes x) ++ rest
          ≡ before ++ ((block_bytes x ++ data_bytes blocks) ++ after) =
        append_assoc before (block_bytes x) rest
        ∙ ap (λ (r : Bytes). before ++ r)
            (sym (append_assoc (block_bytes x) (data_bytes blocks) after)) in
      subst₂ (λ (file : Bytes) (o : ℕ). read_at file (get_elem? (metas o blocks) i) ≡ ok es) moved
        (length-append before (block_bytes x))
        (read_at-metas (before ++ block_bytes x) after blocks i es fits.1 h)
