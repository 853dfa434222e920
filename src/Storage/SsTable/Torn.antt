-- ===== src/Storage/SsTable/Torn.antt =====
-- crates/storage/src/sstable.rs: blocks that end inside an entry.
use raft_kv_engine_project.Base.{
  ℕ, zero, suc, ◌+◌, ◌-◌, ◌≤◌, ◌<◌, ◌≡◌, refl, ap, ◌∙◌, Option, none, some, List, [], ◌∷◌, ◌++◌,
  append_assoc, arith, ltb, length, take, drop, get_or_else, All, length-append, length-take,
  take-take, drop-take, get_or_else-take, drop_append, Bool-cases, inl, inr,
}
use raft_kv_engine_project.Base.Bytes.{Bytes}
use raft_kv_engine_project.Base.LittleEndian.{to_le_bytes, from_le_bytes, from_le_bytes-to_le_bytes}
use raft_kv_engine_project.Storage.Error.{err, corruption}
use raft_kv_engine_project.Storage.MemTable.{Entry}
use raft_kv_engine_project.Storage.SsTable.{
  entry_bytes, decode_value, decode_entry, decode_from, decode_block,
}
use raft_kv_engine_project.Storage.SsTable.Coding.{
  ValueFits, Fits, block_bytes, kind, sized, need_enough, need_short, decode_step,
  decode_entry-entry_bytes, length-block_bytes, value_bytes-parts,
}

decode_value_torn :
    (key : Bytes) (seq : ℕ) (v : Option Bytes) (n : ℕ)
    → ValueFits v
    → n < length (sized v)
    → decode_value key seq (kind v) (take n (sized v)) ≡ err corruption
unfolding decode_value
decode_value_torn key seq none n fits h =
    rw (need_short 4 (take n (sized none)) (omega (arith, h, length-take n (sized none)))) refl
decode_value_torn key seq (some v) n fits h = elim (Bool-cases (ltb n 4)) [
  | inl short ↦
      rw
        (need_short 4 (take n (sized (some v)))
          (ground (arith, short, length-take n (sized (some v)))))
        refl
  | inr long ↦ ground (
    arith,
    long,
    need_enough 4 (take n (sized (some v))),
    length-take n (sized (some v)),
    take-take 4 n (sized (some v)),
    drop-take 4 n (sized (some v)),
    from_le_bytes-to_le_bytes 4 (length v) fits,
    need_short (length v) (take (n - 4) v),
    length-take (n - 4) v,
  )
]

entry_bytes_lem :
    (e : Entry)
    → entry_bytes e
      ≡ to_le_bytes 4 (length e.key)
        ++ (e.key ++ (to_le_bytes 8 e.seq ++ (kind e.value ∷ sized e.value)))
unfolding entry_bytes
entry_bytes_lem e =
    ap (λ (v : Bytes). to_le_bytes 4 (length e.key) ++ (e.key ++ (to_le_bytes 8 e.seq ++ v)))
      (value_bytes-parts e.value)

module _ (e : Entry) (fits : Fits e) (n : ℕ) where
  after : Bytes
  after = to_le_bytes 8 e.seq ++ (kind e.value ∷ sized e.value)

  -- The entry cut after `n` bytes, at the stages of `decode_entry`.
  cut_length : 4 ≤ n → from_le_bytes (take 4 (take n (entry_bytes e))) ≡ length e.key
  unfolding entry_bytes
  cut_length h =
      ap from_le_bytes (take-take 4 n (entry_bytes e) h)
      ∙ from_le_bytes-to_le_bytes 4 (length e.key) fits.key_fits

  cut_body : drop 4 (take n (entry_bytes e)) ≡ take (n - 4) (e.key ++ after)
  unfolding after
  cut_body =
      drop-take 4 n (entry_bytes e)
      ∙ ap (λ (b : Bytes). take (n - 4) (drop 4 b)) (entry_bytes_lem e)

  cut_after :
      drop (length e.key) (take (n - 4) (e.key ++ after)) ≡ take (n - 4 - length e.key) after
  cut_after =
      drop-take (length e.key) (n - 4) (e.key ++ after)
      ∙ ap (take (n - 4 - length e.key)) (drop_append (length e.key) e.key after refl)

  cut_kind :
      9 ≤ n - 4 - length e.key → get_or_else (take (n - 4 - length e.key) after) 8 0 ≡ kind e.value
  unfolding after
  cut_kind h = get_or_else-take (n - 4 - length e.key) after 8 0 (omega (arith, h))

  cut_sized :
      drop 9 (take (n - 4 - length e.key) after) ≡ take (n - 4 - length e.key - 9) (sized e.value)
  unfolding after
  cut_sized = drop-take 9 (n - 4 - length e.key) after

  length-entry : length (entry_bytes e) ≡ 4 + (length e.key + (9 + length (sized e.value)))
  length-entry =
      ap length (entry_bytes_lem e)
      ∙ omega (arith, length-append e.key (to_le_bytes 8 e.seq ++ (kind e.value ∷ sized e.value)))

  length-after : length after ≡ 9 + length (sized e.value)
  unfolding after
  length-after = omega arith

  -- An entry that is cut anywhere is rejected.
  pub decode_entry_torn :
      n < length (entry_bytes e) → decode_entry (take n (entry_bytes e)) ≡ err corruption
  unfolding decode_entry
  decode_entry_torn h = elim (Bool-cases (ltb n 4)) [
    | inl short ↦
        rw
          (need_short 4 (take n (entry_bytes e))
            (ground (arith, short, length-take n (entry_bytes e))))
          refl
    | inr long ↦
        let four : 4 ≤ n = ground (arith, long) in
        let start =
          need_enough 4 (take n (entry_bytes e))
            (omega (arith, four, h, length-take n (entry_bytes e))) in
        elim (Bool-cases (ltb (n - 4) (length e.key + 9))) [
          | inl short ↦
              rw
                (
                  start,
                  cut_length four,
                  cut_body,
                  need_short (length e.key + 9) (take (n - 4) (e.key ++ after))
                      (ground (arith, short, length-take (n - 4) (e.key ++ after))),
                )
                refl
          | inr rest ↦
              let nine : 9 ≤ n - 4 - length e.key = ground (arith, rest) in
              let enough : length e.key + 9 ≤ length (take (n - 4) (e.key ++ after)) = omega (
                arith,
                nine,
                h,
                length-entry,
                length-after,
                length-take (n - 4) (e.key ++ after),
                length-append e.key after,
              ) in
              rw
                (
                  start,
                  cut_length four,
                  cut_body,
                  need_enough (length e.key + 9) (take (n - 4) (e.key ++ after)) enough,
                  cut_after,
                  cut_kind nine,
                  cut_sized,
                )
                (decode_value_torn (take (length e.key) (take (n - 4) (e.key ++ after)))
                  (from_le_bytes (take 8 (take (n - 4 - length e.key) after))) e.value
                  (n - 4 - length e.key - 9) fits.value_fits (omega (arith, h, length-entry, nine)))
        ]
  ]

torn_step :
    (fuel : ℕ) (buf : Bytes)
    → 0 < length buf
    → decode_entry buf ≡ err corruption
    → decode_from (suc fuel) buf ≡ err corruption
unfolding decode_from
torn_step fuel [] p r = absurd (omega (arith, p))
torn_step fuel (b ∷ buf) p r = rw r refl

decode_from_torn :
    (fuel : ℕ) (es : List Entry) (e : Entry) (n : ℕ)
    → All Fits es
    → Fits e
    → 0 < n
    → n < length (entry_bytes e)
    → length es < fuel
    → decode_from fuel (block_bytes es ++ take n (entry_bytes e)) ≡ err corruption
decode_from_torn zero es e n fits one pos h l = absurd (omega (arith, l))
decode_from_torn (suc fuel) [] e n fits one pos h l =
    torn_step fuel (take n (entry_bytes e)) (omega (arith, length-take n (entry_bytes e), pos, h))
      (decode_entry_torn e one n h)
decode_from_torn (suc fuel) (x ∷ es) e n fits one pos h l =
    rw (append_assoc (entry_bytes x) (block_bytes es) (take n (entry_bytes e))) (
      decode_step fuel (entry_bytes x ++ (block_bytes es ++ take n (entry_bytes e))) x
        (block_bytes es ++ take n (entry_bytes e))
        (decode_entry-entry_bytes x (block_bytes es ++ take n (entry_bytes e)) fits.0)
      ∙ rw (decode_from_torn fuel es e n fits.1 one pos h (omega (arith, l))) refl)

-- A block that ends inside an entry is rejected as corrupt, whatever entries come before: nothing of
-- it is returned. Lengths and numbers fit.
pub decode_block_torn :
    (es : List Entry) (e : Entry) (n : ℕ)
    → All Fits es
    → Fits e
    → 0 < n
    → n < length (entry_bytes e)
    → decode_block (block_bytes es ++ take n (entry_bytes e)) ≡ err corruption
unfolding decode_block
decode_block_torn es e n fits one pos h =
    decode_from_torn (length (block_bytes es ++ take n (entry_bytes e))) es e n fits one pos h (
      omega (
        arith,
        length-block_bytes es,
        length-append (block_bytes es) (take n (entry_bytes e)),
        length-take n (entry_bytes e),
        pos,
        h,
      ))
