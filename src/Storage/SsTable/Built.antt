-- ===== src/Storage/SsTable/Built.antt =====
-- crates/storage/src/sstable.rs: what the builder holds after a number of entries.
use raft_kv_engine_project.Base.{
  ℕ, ◌+◌, ◌%◌, ◌^◌, ◌<◌, ◌≡◌, refl, sym, ap, ◌∙◌, subst, Bool, true, false, Option, none, some,
  List, [], ◌∷◌, ◌++◌, append-nil, append_assoc, arith, leb, ◌==◌, ==_iff, if◌then◌else◌, length,
  All, All-append, any, length-append, Bool-cases, inl, inr,
}
use raft_kv_engine_project.Base.Bytes.{Bytes, bytes_eq_sound, value_eq}
use raft_kv_engine_project.Storage.Error.{Result, ok, ◌>>=◌}
use raft_kv_engine_project.Storage.MemTable.{Entry}
use raft_kv_engine_project.Storage.Bloom.{fnv1a}
use raft_kv_engine_project.Storage.SsTable.{BlockMeta, Format, entry_bytes}
use raft_kv_engine_project.Storage.SsTable.Builder.{
  TableBuilder, create, or_first, note_hash, note_entry, write_block, flush_block, add, add_all,
}
use raft_kv_engine_project.Storage.SsTable.Coding.{block_bytes, length-entry_bytes}
use raft_kv_engine_project.Storage.SsTable.Layout.{
  head_key, data_bytes, all_entries, metas, metas-append, data_bytes-append,
}

-- The key of the last entry.
abbrev pub last_key : List Entry → Option Bytes
last_key [] = none
last_key (e ∷ []) = some e.key
last_key (e ∷ x ∷ es) = last_key (x ∷ es)

abbrev pub Noted : Option Bytes → List ℕ → Type 0
Noted none hashes = Unit
Noted (some k) hashes = any (λ h. h == fnv1a k) hashes ≡ true

abbrev pub IsHashed : List ℕ → Entry → Type 0
IsHashed hashes e = any (λ h. h == fnv1a e.key) hashes ≡ true

last_key-append : (es : List Entry) (e : Entry) → last_key (es ++ e ∷ []) ≡ some e.key
last_key-append [] e = refl
last_key-append (x ∷ []) e = refl
last_key-append (x ∷ y ∷ es) e = last_key-append (y ∷ es) e

head_key-append :
    (es : List Entry) (e : Entry) → or_first (head_key es) e.key ≡ head_key (es ++ e ∷ [])
unfolding or_first
head_key-append [] e = refl
head_key-append (x ∷ es) e = refl

block_bytes-append :
    (es : List Entry) (e : Entry) → block_bytes (es ++ e ∷ []) ≡ block_bytes es ++ entry_bytes e
block_bytes-append [] e = append-nil (entry_bytes e)
block_bytes-append (x ∷ es) e =
    ap (λ (r : Bytes). entry_bytes x ++ r) (block_bytes-append es e)
    ∙ sym (append_assoc (entry_bytes x) (block_bytes es) (entry_bytes e))

pub all_entries-append :
    (blocks : List (List Entry)) (es : List Entry)
    → all_entries (blocks ++ es ∷ []) ≡ all_entries blocks ++ es
all_entries-append [] es = append-nil es
all_entries-append (x ∷ blocks) es =
    ap (λ (r : List Entry). x ++ r) (all_entries-append blocks es)
    ∙ sym (append_assoc x (all_entries blocks) es)

any-append : (p : ℕ → Bool) (xs ys : List ℕ) → any p xs ≡ true → any p (xs ++ ys) ≡ true
any-append p [] ys h = cc
any-append p (x ∷ xs) ys h = ground (arith, h, any-append p xs ys)

any_last : (p : ℕ → Bool) (xs : List ℕ) (x : ℕ) → p x ≡ true → any p (xs ++ x ∷ []) ≡ true
any_last p [] x h = rw h refl
any_last p (y ∷ xs) x h = ground (arith, any_last p xs x h)

module _ (fmt : Format) where
  -- The entries so far are those of the blocks written and of the block under way.
  pub record Holds (b : TableBuilder) (es : List Entry) (done : List (List Entry))
      (under_way : List Entry) : Type 0 where
    pub whole : all_entries done ++ under_way ≡ es
    pub file : b.file ≡ data_bytes done
    pub offset : b.offset ≡ length (data_bytes done)
    pub block : b.block ≡ block_bytes under_way
    pub blocks : b.blocks ≡ metas fmt 0 done
    pub first : b.block_first_key ≡ head_key under_way
    pub some_entry : All (λ block. 0 < length block) done
    pub min : b.min_key ≡ head_key es
    pub max : b.max_key ≡ last_key es
    pub hashes : All (IsHashed b.key_hashes) es
    pub noted : Noted b.last_user_key b.key_hashes

  pub create-Holds : (size bits : ℕ) → Holds (create size bits) [] [] []
  create-Holds size bits = record {
    whole = refl;
    file = refl;
    offset = refl;
    block = refl;
    blocks = refl;
    first = refl;
    some_entry = tt;
    min = refl;
    max = refl;
    hashes = tt;
    noted = tt;
  }

  -- The hashes after one more key.
  hashes_with : TableBuilder → Bytes → List ℕ
  hashes_with b key =
      if value_eq b.last_user_key (some key) then b.key_hashes else b.key_hashes ++ fnv1a key ∷ []

  hashes_kept :
      (b : TableBuilder) (key k : Bytes)
      → any (λ h. h == fnv1a k) b.key_hashes ≡ true
      → any (λ h. h == fnv1a k) (hashes_with b key) ≡ true
  unfolding hashes_with
  hashes_kept b key k h =
      ground (arith, any-append (λ h. h == fnv1a k) b.key_hashes (fnv1a key ∷ []) h)

  hashes_new :
      (b : TableBuilder) (key : Bytes)
      → Noted b.last_user_key b.key_hashes
      → any (λ h. h == fnv1a key) (hashes_with b key) ≡ true
  unfolding hashes_with value_eq
  hashes_new b key n = elim (Bool-cases (value_eq b.last_user_key (some key))) [
    | inr distinct ↦ rw distinct (
        any_last (λ h. h == fnv1a key) b.key_hashes (fnv1a key)
          ((==_iff (fnv1a key) (fnv1a key)).1 refl))
    | inl seen ↦ rw seen (noted_key b.last_user_key n seen)
  ]
    where
      noted_key :
          (k : Option Bytes)
          → Noted k b.key_hashes
          → value_eq k (some key) ≡ true
          → any (λ h. h == fnv1a key) b.key_hashes ≡ true
      noted_key none n s = cc
      noted_key (some k) n s =
          subst (λ j. any (λ h. h == fnv1a j) b.key_hashes ≡ true) (bytes_eq_sound k key s) n

  hashes_all :
      (b : TableBuilder) (key : Bytes) (es : List Entry)
      → All (IsHashed b.key_hashes) es
      → All (IsHashed (hashes_with b key)) es
  hashes_all b key [] h = tt
  hashes_all b key (e ∷ es) h = (hashes_kept b key e.key h.0, hashes_all b key es h.1)

  pushed-Noted :
      (b : TableBuilder) (key : Bytes)
      → Noted b.last_user_key b.key_hashes
      → Noted
          (if value_eq b.last_user_key (some key) then b.last_user_key else some key)
          (hashes_with b key)
  unfolding hashes_with
  pushed-Noted b key n = elim (Bool-cases (value_eq b.last_user_key (some key))) [
    | inl seen ↦ rw seen n
    | inr distinct ↦ rw distinct (
        any_last (λ h. h == fnv1a key) b.key_hashes (fnv1a key)
          ((==_iff (fnv1a key) (fnv1a key)).1 refl))
  ]

  -- The entry in the block under way, before the block's size is looked at.
  pushed : TableBuilder → Entry → TableBuilder
  pushed b e = let b1 = note_entry b e.key e.seq in record b1 { block = b1.block ++ entry_bytes e }

  pushed-Holds :
      (b : TableBuilder) (es : List Entry) (done : List (List Entry)) (under_way : List Entry)
      (e : Entry)
      → Holds b es done under_way
      → Holds (pushed b e) (es ++ e ∷ []) done (under_way ++ e ∷ [])
  unfolding pushed note_entry note_hash hashes_with
  pushed-Holds b es done under_way e v = record {
    whole =
        sym (append_assoc (all_entries done) under_way (e ∷ []))
        ∙ ap (λ (r : List Entry). r ++ e ∷ []) v.whole;
    file = v.file;
    offset = v.offset;
    block = ap (λ (r : Bytes). r ++ entry_bytes e) v.block ∙ sym (block_bytes-append under_way e);
    blocks = v.blocks;
    first = ap (λ (k : Option Bytes). or_first k e.key) v.first ∙ head_key-append under_way e;
    some_entry = v.some_entry;
    min = ap (λ (k : Option Bytes). or_first k e.key) v.min ∙ head_key-append es e;
    max = sym (last_key-append es e);
    hashes =
        All-append (IsHashed (hashes_with b e.key)) es (e ∷ []) (hashes_all b e.key es v.hashes)
          (hashes_new b e.key v.noted, tt);
    noted = pushed-Noted b e.key v.noted;
  }

  -- The entry of the index for a block's bytes.
  abbrev placed : Bytes → ℕ → Bytes → BlockMeta
  placed key off block = record {
    first_key = key;
    offset = off;
    len = length block % 2 ^ 32;
    crc = fmt.crc32 block;
  }

  -- What a flush leaves: a block under way that is not empty becomes the last block.
  write_block-Holds :
      (b : TableBuilder) (es : List Entry) (done : List (List Entry)) (x : Entry) (xs : List Entry)
      → Holds b es done (x ∷ xs)
      → Holds (write_block fmt b x.key) es (done ++ (x ∷ xs) ∷ []) []
  unfolding write_block
  write_block-Holds b es done x xs v = record {
    whole =
        append-nil (all_entries (done ++ (x ∷ xs) ∷ []))
        ∙ all_entries-append done (x ∷ xs)
        ∙ v.whole;
    file =
        ap (λ (r : Bytes). r ++ b.block) v.file
        ∙ ap (λ (r : Bytes). data_bytes done ++ r) v.block
        ∙ sym (data_bytes-append fmt done (x ∷ xs));
    offset = omega (
      arith,
      v.offset,
      ap length v.block,
      ap length (data_bytes-append fmt done (x ∷ xs)),
      length-append (data_bytes done) (block_bytes (x ∷ xs)),
    );
    block = refl;
    blocks =
        ap (λ (ms : List BlockMeta). ms ++ placed x.key b.offset b.block ∷ []) v.blocks
        ∙ ap (λ (o : ℕ). metas fmt 0 done ++ placed x.key o b.block ∷ []) {x = b.offset}
            {y = 0 + length (data_bytes done)} (omega (arith, v.offset))
        ∙ ap (λ (r : Bytes). metas fmt 0 done ++ placed x.key (0 + length (data_bytes done)) r ∷ [])
            v.block
        ∙ sym (metas-append fmt 0 done (x ∷ xs));
    first = refl;
    some_entry =
        All-append (λ block. 0 < length block) done ((x ∷ xs) ∷ []) v.some_entry (omega arith, tt);
    min = v.min;
    max = v.max;
    hashes = v.hashes;
    noted = v.noted;
  }

  -- A flush succeeds, and its block, if there is one, is the last.
  pub flush_block-Holds :
      (b : TableBuilder) (es : List Entry) (done : List (List Entry)) (under_way : List Entry)
      → Holds b es done under_way
      → (b' : TableBuilder) × (done' : List (List Entry)) × (flush_block fmt b ≡ ok b')
        × Holds b' es done' []
  unfolding flush_block
  flush_block-Holds b es done [] v =
      let empty : leb (length b.block) 0 ≡ true = ground (arith, ap length v.block) in
      (b, done, rw empty refl, v)
  flush_block-Holds b es done (x ∷ xs) v =
      let full : leb (length b.block) 0 ≡ false = ground (
        arith,
        ap length v.block,
        length-append (entry_bytes x) (block_bytes xs),
        length-entry_bytes x,
      ) in
      (
        write_block fmt b x.key,
        done ++ (x ∷ xs) ∷ [],
        ground (arith, full, v.first),
        write_block-Holds b es done x xs v,
      )

  pub add-Holds :
      (b : TableBuilder) (es : List Entry) (done : List (List Entry)) (under_way : List Entry)
      (e : Entry)
      → Holds b es done under_way
      → (b' : TableBuilder) × (done' : List (List Entry)) × (under_way' : List Entry) × (add fmt b
            e.key e.seq e.value
          ≡ ok b')
        × Holds b' (es ++ e ∷ []) done' under_way'
  unfolding add pushed
  add-Holds b es done under_way e v =
      let b2 = pushed b e in
      let v2 = pushed-Holds b es done under_way e v in
      elim (Bool-cases (leb b2.block_bytes (length b2.block))) [
        | inl full ↦
            let (b', done', e', v') =
              flush_block-Holds b2 (es ++ e ∷ []) done (under_way ++ e ∷ []) v2 in
            (b', done', [], rw full e', v')
        | inr room ↦ (b2, done, under_way ++ e ∷ [], rw room refl, v2)
      ]

  pub add_all-Holds :
      (b : TableBuilder) (es : List Entry) (done : List (List Entry)) (under_way more : List Entry)
      → Holds b es done under_way
      → (b' : TableBuilder) × (done' : List (List Entry)) × (under_way' : List Entry) × (add_all fmt
            b more
          ≡ ok b')
        × Holds b' (es ++ more) done' under_way'
  unfolding add_all
  add_all-Holds b es done under_way [] v = (
    b,
    done,
    under_way,
    refl,
    subst (λ (l : List Entry). Holds b l done under_way) (sym (append-nil es)) v,
  )
  add_all-Holds b es done under_way (e ∷ more) v =
      let (b1, done1, under_way1, e1, v1) = add-Holds b es done under_way e v in
      let (b2, done2, under_way2, e2, v2) =
        add_all-Holds b1 (es ++ e ∷ []) done1 under_way1 more v1 in
      (
        b2,
        done2,
        under_way2,
        rw (e1, e2) refl,
        subst (λ (l : List Entry). Holds b2 l done2 under_way2) (append_assoc es (e ∷ []) more) v2,
      )

  -- A table under construction, at the end of its entries and with its last block written.
  unfoldable pub build_blocks : ℕ → ℕ → List Entry → Result TableBuilder
  build_blocks size bits es = add_all fmt (create size bits) es >>= λ b. flush_block fmt b

  -- Whatever the entries, the builder takes them without an error or a panic, and cuts them into
  -- blocks that hold them all, in order, where the index says.
  pub build_blocks-Holds :
      (size bits : ℕ) (es : List Entry)
      → (b : TableBuilder) × (blocks : List (List Entry)) × (build_blocks size bits es ≡ ok b)
        × Holds b es blocks []
  unfolding build_blocks
  build_blocks-Holds size bits es =
      let (b1, done1, under_way1, e1, v1) =
        add_all-Holds (create size bits) [] [] [] es (create-Holds size bits) in
      let (b2, done2, e2, v2) = flush_block-Holds b1 es done1 under_way1 v1 in
      (b2, done2, rw (e1, e2) refl, v2)
