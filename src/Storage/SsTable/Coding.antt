-- ===== src/Storage/SsTable/Coding.antt =====
-- crates/storage/src/sstable.rs: a block as `add` writes it and `decode_block` reads it.
use raft_kv_engine_project.Base.{
  ℕ, zero, suc, ◌+◌, ◌^◌, ◌≤◌, ◌<◌, ◌≡◌, refl, ap, ◌∙◌, Option, none, some, List, [], ◌∷◌, ◌++◌,
  append_assoc, arith, length, All, length-append, take_append, drop_append,
}
use raft_kv_engine_project.Base.Bytes.{Bytes}
use raft_kv_engine_project.Base.LittleEndian.{to_le_bytes, from_le_bytes-to_le_bytes}
use raft_kv_engine_project.Storage.Error.{ok, err, corruption, ◌>>=◌}
use raft_kv_engine_project.Storage.MemTable.{Entry}
use raft_kv_engine_project.Storage.SsTable.{
  value_bytes, entry_bytes, need, decode_value, decode_entry, decode_from, decode_block,
}

-- Lengths and sequence numbers have the widths that they are stored in.
abbrev pub ValueFits : Option Bytes → Type 0
ValueFits none = Unit
ValueFits (some v) = length v < 2 ^ 32

pub record Fits (e : Entry) : Type 0 where
  pub key_fits : length e.key < 2 ^ 32
  pub seq_fits : e.seq < 2 ^ 64
  pub value_fits : ValueFits e.value

abbrev pub block_bytes : List Entry → Bytes
block_bytes [] = []
block_bytes (e ∷ es) = entry_bytes e ++ block_bytes es

-- The two parts of a stored value.
abbrev pub kind : Option Bytes → ℕ
kind none = 0
kind (some v) = 1

abbrev pub sized : Option Bytes → Bytes
sized none = to_le_bytes 4 0
sized (some v) = to_le_bytes 4 (length v) ++ v

pub value_bytes-parts : (v : Option Bytes) → value_bytes v ≡ kind v ∷ sized v
unfolding value_bytes
value_bytes-parts none = refl
value_bytes-parts (some v) = refl

pub need_enough : (n : ℕ) (rest : Bytes) → n ≤ length rest → need n rest ≡ ok tt
unfolding need
need_enough n rest h = ground (arith, h)

pub need_short : (n : ℕ) (rest : Bytes) → length rest < n → need n rest ≡ err corruption
unfolding need
need_short n rest h = ground (arith, h)

decode_value-sized :
    (key : Bytes) (seq : ℕ) (v : Option Bytes) (rest : Bytes)
    → ValueFits v
    → decode_value key seq (kind v) (sized v ++ rest)
      ≡ ok (record { key = key; seq = seq; value = v }, rest)
unfolding decode_value
decode_value-sized key seq none rest h =
    rw (need_enough 4 (0 ∷ 0 ∷ 0 ∷ 0 ∷ rest) (omega arith)) refl
decode_value-sized key seq (some v) rest h = ground (
  arith,
  need_enough 4 (to_le_bytes 4 (length v) ++ (v ++ rest)) (omega arith),
  from_le_bytes-to_le_bytes 4 (length v) h,
  need_enough (length v) (v ++ rest) (omega (arith, length-append v rest)),
  take_append (length v) v rest refl,
  drop_append (length v) v rest refl,
)

-- The bytes of an entry before those of its value.
entry_bytes-parts :
    (e : Entry) (rest : Bytes)
    → entry_bytes e ++ rest
      ≡ to_le_bytes 4 (length e.key)
        ++ (e.key ++ (to_le_bytes 8 e.seq ++ (kind e.value ∷ (sized e.value ++ rest))))
unfolding entry_bytes
entry_bytes-parts e rest =
    ap (λ (r : Bytes). to_le_bytes 4 (length e.key) ++ r)
      (append_assoc e.key (to_le_bytes 8 e.seq ++ value_bytes e.value) rest
        ∙ ap (λ (v : Bytes). e.key ++ (to_le_bytes 8 e.seq ++ (v ++ rest)))
            (value_bytes-parts e.value))

pub decode_entry-entry_bytes :
    (e : Entry) (rest : Bytes) → Fits e → decode_entry (entry_bytes e ++ rest) ≡ ok (e, rest)
unfolding decode_entry
decode_entry-entry_bytes e rest h =
    let after = to_le_bytes 8 e.seq ++ (kind e.value ∷ (sized e.value ++ rest)) in
    let klen = from_le_bytes-to_le_bytes 4 (length e.key) h.key_fits in
    let seq = from_le_bytes-to_le_bytes 8 e.seq h.seq_fits in
    rw
      (
        entry_bytes-parts e rest,
        need_enough 4 (to_le_bytes 4 (length e.key) ++ (e.key ++ after)) (omega arith),
        klen,
        need_enough (length e.key + 9) (e.key ++ after) (omega (arith, length-append e.key after)),
        take_append (length e.key) e.key after refl,
        drop_append (length e.key) e.key after refl,
        seq,
      )
      (decode_value-sized e.key e.seq e.value rest h.value_fits)

decode_entry_nil : decode_entry [] ≡ err corruption
unfolding decode_entry need
decode_entry_nil = refl

pub decode_step :
    (fuel : ℕ) (buf : Bytes) (e : Entry) (rest : Bytes)
    → decode_entry buf ≡ ok (e, rest)
    → decode_from (suc fuel) buf ≡ (decode_from fuel rest >>= λ es. ok (e ∷ es))
unfolding decode_from
decode_step fuel [] e rest h = ground (arith, h, decode_entry_nil)
decode_step fuel (b ∷ buf) e rest h = rw h refl

decode_from_nil : (fuel : ℕ) → decode_from fuel [] ≡ ok []
unfolding decode_from
decode_from_nil zero = refl
decode_from_nil (suc fuel) = refl

decode_from-block_bytes :
    (fuel : ℕ) (es : List Entry)
    → All Fits es
    → length es ≤ fuel
    → decode_from fuel (block_bytes es) ≡ ok es
decode_from-block_bytes fuel [] fits h = decode_from_nil fuel
decode_from-block_bytes zero (e ∷ es) fits h = absurd (omega (arith, h))
decode_from-block_bytes (suc fuel) (e ∷ es) fits h =
    decode_step fuel (entry_bytes e ++ block_bytes es) e (block_bytes es)
      (decode_entry-entry_bytes e (block_bytes es) fits.0)
    ∙ rw (decode_from-block_bytes fuel es fits.1 (omega (arith, h))) refl

pub length-entry_bytes : (e : Entry) → 17 ≤ length (entry_bytes e)
unfolding entry_bytes
length-entry_bytes e =
    omega (
      arith,
      length-append e.key (to_le_bytes 8 e.seq ++ value_bytes e.value),
      value_length e.value,
    )
  where
    value_length : (v : Option Bytes) → 5 ≤ length (value_bytes v)
    value_length none = omega arith
    value_length (some v) = omega arith

pub length-block_bytes : (es : List Entry) → length es ≤ length (block_bytes es)
length-block_bytes [] = omega arith
length-block_bytes (e ∷ es) = omega (
  arith,
  length-append (entry_bytes e) (block_bytes es),
  length-entry_bytes e,
  length-block_bytes es,
)

-- A block is read back as the entries that were written to it, if their lengths and numbers fit.
pub decode_block-block_bytes :
    (es : List Entry) → All Fits es → decode_block (block_bytes es) ≡ ok es
unfolding decode_block
decode_block-block_bytes es fits =
    decode_from-block_bytes (length (block_bytes es)) es fits (length-block_bytes es)
