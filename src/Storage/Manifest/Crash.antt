-- ===== src/Storage/Manifest/Crash.antt =====
-- crates/storage/src/manifest.rs: what a saved manifest is read as, at its end and after a crash.
use raft_kv_engine_project.Base.{
  ℕ, ◌+◌, ◌-◌, ◌<◌, ◌≡◌, refl, ap, ◌∙◌, ◌⊎◌, inl, inr, none, some, ◌++◌, arith, length, take,
  length-append, length-take, take_append, drop_append,
}
use raft_kv_engine_project.Base.Bytes.{Bytes}
use raft_kv_engine_project.Base.LittleEndian.{
  to_le_bytes, from_le_bytes-to_le_bytes, length-to_le_bytes,
}
use raft_kv_engine_project.Storage.Error.{ok}
use raft_kv_engine_project.Storage.Manifest.{
  Manifest, Dir, Format, IsFaithful, Crashed, perform, perform_all, save_calls, read_file, or_next,
  load, file_bytes, save,
}

module _ (fmt : Format) where
  read_file_short : (bytes : Bytes) → length bytes < 4 → read_file fmt (some bytes) ≡ ok none
  unfolding read_file
  read_file_short bytes h = ground (arith, h)

  module _ (faithful : IsFaithful fmt) where
    read_file-file_bytes : (m : Manifest) → read_file fmt (some (file_bytes fmt m)) ≡ ok (some m)
    unfolding read_file file_bytes
    read_file-file_bytes m =
        let payload = fmt.serialize m in
        let crc = to_le_bytes 4 (fmt.crc32 payload) in
        let size : length (payload ++ crc) ≡ length payload + 4 =
          omega (arith, length-append payload crc, length-to_le_bytes 4 (fmt.crc32 payload)) in
        ground (
          arith,
          size,
          take_append (length (payload ++ crc) - 4) payload crc (omega (arith, size)),
          drop_append (length (payload ++ crc) - 4) payload crc (omega (arith, size)),
          from_le_bytes-to_le_bytes 4 (fmt.crc32 payload) (faithful.crc_bound payload),
          faithful.read_back m,
        )

    -- A manifest that was saved is the one that is loaded, whatever the directory held before.
    pub load-save : (m : Manifest) (d : Dir) → load fmt (save fmt m d) ≡ ok (some m)
    unfolding load save save_calls perform_all perform or_next
    load-save m d = rw (read_file-file_bytes m) refl

    load-removed :
        (m : Manifest) (d : Dir)
        → d.current ≡ none
        → d.tmp ≡ some (file_bytes fmt m)
        → load fmt d ≡ ok (some m)
    unfolding load or_next read_file
    load-removed m d gone there = rw (gone, there) (read_file-file_bytes m)

    load_in_place :
        (old : Manifest) (d : Dir)
        → read_file fmt d.current ≡ ok (some old)
        → load fmt d ≡ ok (some old)
    unfolding load or_next
    load_in_place old d h = rw h refl

    -- Where the manifest in place is read as `old`, a crash in the middle of any of the calls of a save of
    -- `m`, or after the last of them, leaves a directory that is loaded as `old` or as `m`.
    pub load-Crashed :
        (old m : Manifest) (d after : Dir)
        → read_file fmt d.current ≡ ok (some old)
        → Crashed fmt m d after
        → (load fmt after ≡ ok (some old)) ⊎ (load fmt after ≡ ok (some m))
    unfolding save_calls perform
    load-Crashed old m d after h (inl e) =
        inl (load_in_place old after (ap (λ (x : Dir). read_file fmt x.current) e ∙ h))
    load-Crashed old m d after h (inr (inl (n, e))) =
        inl (load_in_place old after (ap (λ (x : Dir). read_file fmt x.current) e ∙ h))
    load-Crashed old m d after h (inr (inr (inl e))) =
        inl (load_in_place old after (ap (λ (x : Dir). read_file fmt x.current) e ∙ h))
    load-Crashed old m d after h (inr (inr (inr (inl e)))) =
        inr (load-removed m after (ap (λ (x : Dir). x.current) e) (ap (λ (x : Dir). x.tmp) e))
    load-Crashed old m d after h (inr (inr (inr (inr e)))) = inr (
        load_in_place m after
          (ap (λ (x : Dir). read_file fmt x.current) e ∙ read_file-file_bytes m))

    -- A crash between the removal and the rename of a save of `old` leaves a directory that is loaded as
    -- `old`. Where the next save, of `m`, is cut short before it has written four bytes of the temporary
    -- file, the directory is loaded as one without a manifest. Both are crashes in the middle of a call.
    pub load-interrupted_twice :
        (old m : Manifest) (d : Dir) (n : ℕ)
        → n < 4
        → Crashed fmt old d (record { current = none; tmp = some (file_bytes fmt old) })
          × (load fmt (record { current = none; tmp = some (file_bytes fmt old) }) ≡ ok (some old))
          × Crashed fmt m
              (record { current = none; tmp = some (file_bytes fmt old) })
              (record { current = none; tmp = some (take n (file_bytes fmt m)) })
          × (load fmt (record { current = none; tmp = some (take n (file_bytes fmt m)) }) ≡ ok none)
    unfolding load or_next read_file save_calls perform
    load-interrupted_twice old m d n h = (
      inr (inr (inr (inl refl))),
      read_file-file_bytes old,
      inr (inl (n, refl)),
      read_file_short (take n (file_bytes fmt m))
          (omega (arith, h, length-take n (file_bytes fmt m))),
    )
