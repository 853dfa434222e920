-- ===== src/Storage/Samples.antt =====
-- A serializer for the test data of crates/storage: numbers are written as they are, sequences behind
-- their length.
use raft_kv_engine_project.Base.{
  ℕ, zero, suc, ◌*◌, ◌/◌, ◌%◌, ◌^◌, ◌<◌, arith, ◌≡◌, refl, sym, ap, ◌∙◌, Option, none, some, List,
  [], ◌∷◌, ◌++◌, append_assoc, append-nil, length, ◌>>=◌,
}
use raft_kv_engine_project.Base.Bytes.{Bytes}
use raft_kv_engine_project.Storage.Wal
use raft_kv_engine_project.Storage.Wal.{WalBatch}
use raft_kv_engine_project.Storage.Manifest
use raft_kv_engine_project.Storage.Manifest.{TableMeta, Manifest}
use raft_kv_engine_project.Storage.SsTable
use raft_kv_engine_project.Storage.SsTable.{BlockMeta, TableIndex}
use raft_kv_engine_project.Storage.SsTable.RoundTrip

pub record Coder (A : Type 0) : Type 0 where
  pub enc : A → Bytes
  pub dec : Bytes → Option (A × Bytes)
  pub law : (a : A) (rest : Bytes) → dec (enc a ++ rest) ≡ some (a, rest)

unfoldable pub dec_number : Bytes → Option (ℕ × Bytes)
dec_number [] = none
dec_number (n ∷ rest) = some (n, rest)

pub number_law : (n : ℕ) (rest : Bytes) → dec_number (n ∷ rest) ≡ some (n, rest)
unfolding dec_number
number_law n rest = refl

abbrev pub number : Coder ℕ
number = record { enc = λ n. n ∷ []; dec = dec_number; law = number_law }

module _ {A B : Type 0} (a : Coder A) (b : Coder B) where
  unfoldable pub enc_pair : A × B → Bytes
  enc_pair p = a.enc p.0 ++ b.enc p.1

  unfoldable pub dec_pair : Bytes → Option ((A × B) × Bytes)
  dec_pair bytes = a.dec bytes >>= λ x. (b.dec x.1 >>= λ y. some ((x.0, y.0), y.1))

  pub pair_law : (p : A × B) (rest : Bytes) → dec_pair (enc_pair p ++ rest) ≡ some (p, rest)
  unfolding enc_pair dec_pair
  pair_law p rest =
      rw (append_assoc (a.enc p.0) (b.enc p.1) rest, a.law p.0 (b.enc p.1 ++ rest), b.law p.1 rest)
        refl

  abbrev pub pair : Coder (A × B)
  pair = record { enc = enc_pair; dec = dec_pair; law = pair_law }

module _ {A : Type 0} (a : Coder A) where
  unfoldable pub enc_items : List A → Bytes
  enc_items [] = []
  enc_items (x ∷ xs) = a.enc x ++ enc_items xs

  unfoldable pub dec_items : ℕ → Bytes → Option (List A × Bytes)
  dec_items zero bytes = some ([], bytes)
  dec_items (suc n) bytes = a.dec bytes >>= λ x. (dec_items n x.1 >>= λ xs. some (x.0 ∷ xs.0, xs.1))

  items_law :
      (xs : List A) (rest : Bytes) → dec_items (length xs) (enc_items xs ++ rest) ≡ some (xs, rest)
  unfolding enc_items dec_items
  items_law [] rest = refl
  items_law (x ∷ xs) rest =
      rw
        (
          append_assoc (a.enc x) (enc_items xs) rest,
          a.law x (enc_items xs ++ rest),
          items_law xs rest,
        )
        refl

  unfoldable pub enc_list : List A → Bytes
  unfolding enc_items
  enc_list xs = length xs ∷ enc_items xs

  unfoldable pub dec_list : Bytes → Option (List A × Bytes)
  unfolding dec_items
  dec_list [] = none
  dec_list (n ∷ bytes) = dec_items n bytes

  pub list_law : (xs : List A) (rest : Bytes) → dec_list (enc_list xs ++ rest) ≡ some (xs, rest)
  unfolding enc_list dec_list
  list_law xs rest = items_law xs rest

  abbrev pub list : Coder (List A)
  list = record { enc = enc_list; dec = dec_list; law = list_law }

  unfoldable pub enc_option : Option A → Bytes
  enc_option none = 0 ∷ []
  enc_option (some x) = 1 ∷ a.enc x

  unfoldable pub dec_option : Bytes → Option (Option A × Bytes)
  dec_option [] = none
  dec_option (zero ∷ bytes) = some (none, bytes)
  dec_option (suc n ∷ bytes) = a.dec bytes >>= λ x. some (some x.0, x.1)

  pub option_law :
      (x : Option A) (rest : Bytes) → dec_option (enc_option x ++ rest) ≡ some (x, rest)
  unfolding enc_option dec_option
  option_law none rest = refl
  option_law (some x) rest = rw (a.law x rest) refl

  abbrev pub option : Coder (Option A)
  option = record { enc = enc_option; dec = dec_option; law = option_law }

module _ {A B : Type 0} (a : Coder A) (into : A → B) (from : B → A)
    (same : (b : B) → into (from b) ≡ b) where
  unfoldable pub enc_via : B → Bytes
  enc_via b = a.enc (from b)

  unfoldable pub dec_via : Bytes → Option (B × Bytes)
  dec_via bytes = a.dec bytes >>= λ x. some (into x.0, x.1)

  pub via_law : (b : B) (rest : Bytes) → dec_via (enc_via b ++ rest) ≡ some (b, rest)
  unfolding enc_via dec_via
  via_law b rest = rw (a.law (from b) rest) (ap (λ (x : B). some (x, rest)) (same b))

  abbrev pub via : Coder B
  via = record { enc = enc_via; dec = dec_via; law = via_law }

abbrev pub whole : {A : Type 0} → Coder A → Bytes → Option A
whole a bytes = a.dec bytes >>= λ x. some x.0

whole_law : {A : Type 0} (a : Coder A) (x : A) → whole a (a.enc x) ≡ some x
whole_law a x = ap (λ (r : Bytes). whole a r) (sym (append-nil (a.enc x))) ∙ rw (a.law x []) refl

abbrev pub bytes_coder : Coder Bytes
bytes_coder = list number

abbrev pub batch_coder : Coder WalBatch
batch_coder =
    via (pair number (list (pair bytes_coder (option bytes_coder))))
      (λ p. record { first_seq = p.0; ops = p.1 }) (λ b. (b.first_seq, b.ops)) (λ b. refl)

abbrev pub meta_coder : Coder BlockMeta
meta_coder =
    via (pair (pair bytes_coder number) (pair number number))
      (λ p. record { first_key = p.0.0; offset = p.0.1; len = p.1.0; crc = p.1.1 })
      (λ m. ((m.first_key, m.offset), (m.len, m.crc))) (λ m. refl)

abbrev pub index_coder : Coder TableIndex
index_coder =
    via
      (pair (pair (pair (list meta_coder) bytes_coder) number)
        (pair (pair bytes_coder bytes_coder) number))
      (λ p. record {
        blocks = p.0.0.0;
        bloom = p.0.0.1;
        entry_count = p.0.1;
        min_key = p.1.0.0;
        max_key = p.1.0.1;
        max_seq = p.1.1;
      })
      (λ i. (((i.blocks, i.bloom), i.entry_count), ((i.min_key, i.max_key), i.max_seq))) (λ i. refl)

abbrev pub table_meta_coder : Coder TableMeta
table_meta_coder =
    via (pair (pair number bytes_coder) (pair bytes_coder (pair number number)))
      (λ p. record {
        id = p.0.0;
        min_key = p.0.1;
        max_key = p.1.0;
        entries = p.1.1.0;
        bytes = p.1.1.1;
      })
      (λ m. ((m.id, m.min_key), (m.max_key, (m.entries, m.bytes)))) (λ m. refl)

abbrev pub manifest_coder : Coder Manifest
manifest_coder =
    via (pair (list (list table_meta_coder)) (pair number number))
      (λ p. record { levels = p.0; next_table_id = p.1.0; last_seq = p.1.1 })
      (λ m. (m.levels, (m.next_table_id, m.last_seq))) (λ m. refl)

abbrev pub checksum : Bytes → ℕ
checksum bytes = length bytes % 2 ^ 32

checksum_bound : (bytes : Bytes) → checksum bytes < 2 ^ 32
checksum_bound bytes = omega arith

abbrev pub wal_format : Wal.Format
wal_format = record {
  crc32 = checksum;
  serialize = batch_coder.enc;
  deserialize = whole batch_coder;
}

pub wal_format-IsFaithful : Wal.IsFaithful wal_format
wal_format-IsFaithful = record { crc_bound = checksum_bound; read_back = whole_law batch_coder }

abbrev pub table_format : SsTable.Format
table_format = record {
  crc32 = checksum;
  serialize = index_coder.enc;
  deserialize = whole index_coder;
  scaled = λ n. n * 69 / 100;
}

pub table_format-IsFaithful : RoundTrip.IsFaithful table_format
table_format-IsFaithful = record { crc_bound = checksum_bound; read_back = whole_law index_coder }

abbrev pub manifest_format : Manifest.Format
manifest_format = record {
  crc32 = checksum;
  serialize = manifest_coder.enc;
  deserialize = whole manifest_coder;
}

pub manifest_format-IsFaithful : Manifest.IsFaithful manifest_format
manifest_format-IsFaithful = record {
  crc_bound = checksum_bound;
  read_back = whole_law manifest_coder;
}
