-- ===== src/Storage/Wal/Frames.antt =====
-- crates/storage/src/wal.rs: a frame as the loop of `replay` reads it, whole or torn.
use raft_kv_engine_project.Base.{
  ℕ, ◌+◌, ◌^◌, ◌<◌, ◌≡◌, refl, sym, none, some, ◌++◌, arith, ltb, length, take, drop, length-append,
  length-take, take_append, drop_append, take-take, Bool-cases, inl, inr,
}
use raft_kv_engine_project.Base.Bytes.{Bytes}
use raft_kv_engine_project.Base.LittleEndian.{from_le_bytes, from_le_bytes-to_le_bytes}
use raft_kv_engine_project.Storage.Wal.{WalBatch, Format, IsFaithful, frame, read_frame}

module _ (fmt : Format) (faithful : IsFaithful fmt) where
  pub length-frame : (b : WalBatch) → length (frame fmt b) ≡ 8 + length (fmt.serialize b)
  unfolding frame
  length-frame b = omega arith

  module _ (b : WalBatch) (fits : length (fmt.serialize b) < 2 ^ 32) (rest : Bytes) where
    payload_length : from_le_bytes (take 4 (frame fmt b ++ rest)) ≡ length (fmt.serialize b)
    unfolding frame
    payload_length = from_le_bytes-to_le_bytes 4 (length (fmt.serialize b)) fits

    checksum : from_le_bytes (take 4 (drop 4 (frame fmt b ++ rest))) ≡ fmt.crc32 (fmt.serialize b)
    unfolding frame
    checksum =
        from_le_bytes-to_le_bytes 4 (fmt.crc32 (fmt.serialize b))
          (faithful.crc_bound (fmt.serialize b))

    payload : drop 8 (frame fmt b ++ rest) ≡ fmt.serialize b ++ rest
    unfolding frame
    payload = refl

    pub read_frame-frame : read_frame fmt (frame fmt b ++ rest) ≡ some (b, length (fmt.serialize b))
    unfolding read_frame
    read_frame-frame = ground (
      arith,
      payload_length,
      checksum,
      payload,
      take_append (length (fmt.serialize b)) (fmt.serialize b) rest refl,
      length-append (frame fmt b) rest,
      length-frame b,
      faithful.read_back b,
    )

    pub read_frame_torn :
        (n : ℕ) → n < length (frame fmt b) → read_frame fmt (take n (frame fmt b ++ rest)) ≡ none
    unfolding read_frame
    read_frame_torn n h = elim (Bool-cases (ltb n 8)) [
      | inl short ↦ ground (arith, short, length-take n (frame fmt b ++ rest))
      | inr long ↦ ground (
        arith,
        long,
        payload_length,
        h,
        length-frame b,
        take-take 4 n (frame fmt b ++ rest),
        length-take n (frame fmt b ++ rest),
      )
    ]

    pub drop-frame : drop (8 + length (fmt.serialize b)) (frame fmt b ++ rest) ≡ rest
    drop-frame = drop_append _ (frame fmt b) rest (sym (length-frame b))
