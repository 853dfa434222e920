-- ===== src/Storage/Wal/Recovery.antt =====
-- crates/storage/src/wal.rs: what `replay` gets back after a crash.
use raft_kv_engine_project.Base.{
  ℕ, zero, suc, ◌+◌, ◌-◌, ◌^◌, ◌≤◌, ◌<◌, max, ◌≡◌, refl, sym, ap, ◌∙◌, subst, Bool, true, false,
  Option, none, some, List, [], ◌∷◌, ◌++◌, append-nil, append_assoc, arith, ltb, leb, if◌then◌else◌,
  length, take, drop, All, length-append, length-take, take-append_past, take_all, take_nil,
  Bool-cases, inl, inr,
}
use raft_kv_engine_project.Base.Bytes.{Bytes}
use raft_kv_engine_project.Storage.Wal.{
  SyncPolicy, always, never, WalBatch, File, Wal, Format, IsFaithful, open_log, open_file, sync_by,
  synced_file, frame, append, append_all, read_frame, replay_from, replay, cut_at, crash,
}
use raft_kv_engine_project.Storage.Wal.Frames.{
  length-frame, read_frame-frame, read_frame_torn, drop-frame,
}

module _ (fmt : Format) where
  abbrev pub frames : List WalBatch → Bytes
  frames [] = []
  frames (b ∷ bs) = frame fmt b ++ frames bs

  -- Each payload's length has 32 bits.
  abbrev pub Fits : List WalBatch → Type 0
  Fits bs = All (λ b. length (fmt.serialize b) < 2 ^ 32) bs

  -- The batches whose frames lie in the first `n` bytes.
  abbrev kept : ℕ → List WalBatch → List WalBatch
  kept n [] = []
  kept n (b ∷ bs) =
      let later = kept (n - length (frame fmt b)) bs in
      if leb (length (frame fmt b)) n then b ∷ later else []

  kept-take : (n : ℕ) (bs : List WalBatch) → kept n bs ≡ take (length (kept n bs)) bs
  kept-take n [] = refl
  kept-take n (b ∷ bs) = elim (Bool-cases (leb (length (frame fmt b)) n)) [
    | inl whole ↦ rw whole (ap (λ r. b ∷ r) (kept-take (n - length (frame fmt b)) bs))
    | inr torn ↦ rw torn refl
  ]

  kept_all : (n : ℕ) (bs : List WalBatch) → length (frames bs) ≤ n → kept n bs ≡ bs
  kept_all n [] h = refl
  kept_all n (b ∷ bs) h =
      let l = length-append (frame fmt b) (frames bs) in
      let whole : leb (length (frame fmt b)) n ≡ true = ground (arith, l, h) in
      rw whole (ap (λ r. b ∷ r) (kept_all (n - length (frame fmt b)) bs (omega (arith, l, h))))

  -- The whole frames fit.
  length_kept :
      (n : ℕ) (bs : List WalBatch)
      → (length (frames (kept n bs)) ≤ n) × (length (frames (kept n bs)) ≤ length (frames bs))
  length_kept n [] = (omega arith, omega arith)
  length_kept n (b ∷ bs) = elim (Bool-cases (leb (length (frame fmt b)) n)) [
    | inr torn ↦ rw torn (omega arith, omega arith)
    | inl whole ↦
        let L = length (frame fmt b) in
        let later = length_kept (n - L) bs in
        let size = length-append (frame fmt b) (frames (kept (n - L) bs)) in
        let all = length-append (frame fmt b) (frames bs) in
        rw whole (ground (arith, whole, later, size), omega (arith, later, size, all))
  ]

  -- One more frame would not.
  kept_most :
      (n : ℕ) (bs : List WalBatch)
      → length (kept n bs) < length bs
      → n < length (frames (take (length (kept n bs) + 1) bs))
  kept_most n [] h = absurd (omega (arith, h))
  kept_most n (b ∷ bs) h =
      by_whole (leb (length (frame fmt b)) n) refl h
        (λ more. kept_most (n - length (frame fmt b)) bs more)
    where
      by_whole :
          (t : Bool)
          → leb (length (frame fmt b)) n ≡ t
          → length (if t then b ∷ kept (n - length (frame fmt b)) bs else []) < length (b ∷ bs)
          → (length (kept (n - length (frame fmt b)) bs) < length bs
              → n - length (frame fmt b)
                < length (frames (take (length (kept (n - length (frame fmt b)) bs) + 1) bs)))
          → n
            < length (
                frames (
                  take
                    (length (if t then b ∷ kept (n - length (frame fmt b)) bs else []) + 1)
                    (b ∷ bs)))
      by_whole false torn more rec = ground (arith, torn, length-append (frame fmt b) [])
      by_whole true whole more rec =
          let k = length (kept (n - length (frame fmt b)) bs) in
          let below = rec (omega (arith, more)) in
          subst (λ c. n < length (frames (take c (b ∷ bs)))) {x = suc (k + 1)} {y = suc k + 1}
            (omega arith)
            (omega (arith, below, length-append (frame fmt b) (frames (take (k + 1) bs))))

  frames-kept :
      (n : ℕ) (bs : List WalBatch)
      → take (length (frames (kept n bs))) (take n (frames bs)) ≡ frames (kept n bs)
  frames-kept n [] = refl
  frames-kept n (b ∷ bs) = elim (Bool-cases (leb (length (frame fmt b)) n)) [
    | inr torn ↦ rw torn refl
    | inl whole ↦
        let L = length (frame fmt b) in
        let later = frames (kept (n - L) bs) in
        rw (whole, take-append_past n (frame fmt b) (frames bs) (ground (arith, whole)))
          (take-append_past (length (frame fmt b ++ later)) (frame fmt b) (take (n - L) (frames bs))
              (omega (arith, length-append (frame fmt b) later))
            ∙ ap (λ r. frame fmt b ++ r)
                (ap (λ k. take k (take (n - L) (frames bs))) {x = length (frame fmt b ++ later) - L}
                    {y = length later} (omega (arith, length-append (frame fmt b) later))
                  ∙ frames-kept (n - L) bs))
  ]

  module _ (faithful : IsFaithful fmt) where
    replay_stop :
        (fuel off : ℕ) (rest : Bytes)
        → read_frame fmt rest ≡ none
        → replay_from fmt fuel off rest ≡ ([], off)
    unfolding replay_from
    replay_stop zero off rest e = refl
    replay_stop (suc fuel) off rest e = ground (arith, e)

    replay_go :
        (fuel off : ℕ) (rest : Bytes) (b : WalBatch) (len : ℕ) (bs : List WalBatch) (last : ℕ)
        → read_frame fmt rest ≡ some (b, len)
        → replay_from fmt fuel (off + 8 + len) (drop (8 + len) rest) ≡ (bs, last)
        → replay_from fmt (suc fuel) off rest ≡ (b ∷ bs, last)
    unfolding replay_from
    replay_go fuel off rest b len bs last e r = ground (arith, e, r)

    read_frame_nil : read_frame fmt [] ≡ none
    unfolding read_frame
    read_frame_nil = refl

    -- One whole frame, then what the loop does from its end on.
    replay_whole :
        (fuel off n : ℕ) (b : WalBatch) (fs : Bytes) (bs : List WalBatch) (size : ℕ)
        → length (fmt.serialize b) < 2 ^ 32
        → length (frame fmt b) ≤ n
        → replay_from fmt fuel
            (off + 8 + length (fmt.serialize b))
            (take (n - length (frame fmt b)) fs)
          ≡ (bs, off + 8 + length (fmt.serialize b) + size)
        → replay_from fmt (suc fuel) off (take n (frame fmt b ++ fs))
          ≡ (b ∷ bs, off + (length (frame fmt b) + size))
    replay_whole fuel off n b fs bs size fits whole later =
        let rest = take (n - length (frame fmt b)) fs in
        let last : off + 8 + length (fmt.serialize b) + size ≡ off + (length (frame fmt b) + size) =
          omega (arith, length-frame fmt faithful b) in
        rw (take-append_past n (frame fmt b) fs whole) (
          replay_go fuel off (frame fmt b ++ rest) b (length (fmt.serialize b)) bs
            (off + (length (frame fmt b) + size)) (read_frame-frame fmt faithful b fits rest)
            (rw (drop-frame fmt faithful b fits rest) (later ∙ ap (λ (k : ℕ). (bs, k)) last)))

    replay_from-frames :
        (fuel off n : ℕ) (bs : List WalBatch)
        → Fits bs
        → length (take n (frames bs)) ≤ fuel
        → replay_from fmt fuel off (take n (frames bs))
          ≡ (kept n bs, off + length (frames (kept n bs)))
    replay_from-frames fuel off n [] fits h = rw (take_nil {A = ℕ} n) (
        replay_stop fuel off [] read_frame_nil
        ∙ ap (λ (k : ℕ). ([], k)) {x = off} {y = off + 0} (omega arith))
    replay_from-frames zero off n (b ∷ bs) fits h =
        let short = length-take n (frame fmt b ++ frames bs) in
        let torn : leb (length (frame fmt b)) n ≡ false =
          ground (
            arith,
            short,
            h,
            length-append (frame fmt b) (frames bs),
            length-frame fmt faithful b,
          ) in
        rw torn (
          replay_stop 0 off (take n (frame fmt b ++ frames bs))
            (read_frame_torn fmt faithful b fits.0 (frames bs) n (ground (arith, torn)))
          ∙ ap (λ (k : ℕ). ([], k)) {x = off} {y = off + 0} (omega arith))
    replay_from-frames (suc fuel) off n (b ∷ bs) fits h =
        elim (Bool-cases (leb (length (frame fmt b)) n)) [
          | inr torn ↦ rw torn (
              replay_stop (suc fuel) off (take n (frame fmt b ++ frames bs))
                (read_frame_torn fmt faithful b fits.0 (frames bs) n (ground (arith, torn)))
              ∙ ap (λ (k : ℕ). ([], k)) {x = off} {y = off + 0} (omega arith))
          | inl whole ↦
              let L = length (frame fmt b) in
              let later = kept (n - L) bs in
              let size : length (frames (b ∷ later)) ≡ L + length (frames later) =
                length-append (frame fmt b) (frames later) in
              let le : L ≤ n = ground (arith, whole) in
              let enough : length (take (n - L) (frames bs)) ≤ fuel = omega (
                arith,
                h,
                le,
                length-take n (frames (b ∷ bs)),
                length-take (n - L) (frames bs),
                length-append (frame fmt b) (frames bs),
                length-frame fmt faithful b,
              ) in
              rw (whole, size)
                (replay_whole fuel off n b (frames bs) later (length (frames later)) fits.0 le (
                  replay_from-frames fuel (off + 8 + length (fmt.serialize b)) (n - L) bs fits.1
                    enough))
        ]

    Fits-kept : (n : ℕ) (bs : List WalBatch) → Fits bs → Fits (kept n bs)
    Fits-kept n [] fits = tt
    Fits-kept n (b ∷ bs) fits = elim (Bool-cases (leb (length (frame fmt b)) n)) [
      | inl whole ↦ rw whole (fits.0, Fits-kept (n - length (frame fmt b)) bs fits.1)
      | inr torn ↦ rw torn tt
    ]

    -- A log of whole frames is read to its end and left alone.
    replay_clean :
        (bs : List WalBatch) (synced : ℕ)
        → Fits bs
        → replay fmt (some (record { contents = frames bs; synced = synced }))
          ≡ (bs, some (record { contents = frames bs; synced = synced }))
    unfolding replay cut_at
    replay_clean bs synced fits =
        let n = length (frames bs) in
        let every = take_all n (frames bs) (omega arith) in
        let found : replay_from fmt n 0 (frames bs) ≡ (bs, 0 + n) =
          subst (λ (f : Bytes). replay_from fmt n 0 f ≡ (bs, 0 + n)) every
            (subst
              (λ (ks : List WalBatch).
                replay_from fmt n 0 (take n (frames bs)) ≡ (ks, 0 + length (frames ks)))
              (kept_all n bs (omega arith))
              (replay_from-frames n 0 n bs fits (omega (arith, length-take n (frames bs))))) in
        rw found (ground arith)

    -- A torn log gives the batches whose frames are whole, and is cut after the last of these.
    replay_torn :
        (bs : List WalBatch) (n synced : ℕ)
        → Fits bs
        → (s : ℕ) × (replay fmt (some (record { contents = take n (frames bs); synced = synced }))
            ≡ (kept n bs, some (record { contents = frames (kept n bs); synced = s })))
    unfolding replay cut_at
    replay_torn bs n synced fits =
        let held = take n (frames bs) in
        let last = 0 + length (frames (kept n bs)) in
        let found = replay_from-frames (length held) 0 n bs fits (omega arith) in
        let same : last ≡ length (frames (kept n bs)) = omega arith in
        let cut : take last held ≡ frames (kept n bs) =
          ap (λ (k : ℕ). take k held) same ∙ frames-kept n bs in
        elim (Bool-cases (ltb last (length held))) [
          | inl shorter ↦ (last, rw (found, shorter, cut) refl)
          | inr whole ↦ (
            synced,
            rw (found, whole, sym (take_all last held (ground (arith, whole))) ∙ cut) refl,
          )
        ]

    contents-sync_by : (policy : SyncPolicy) (f : File) → (sync_by policy f).contents ≡ f.contents
    unfolding sync_by synced_file
    contents-sync_by always f = refl
    contents-sync_by never f = refl

    contents-append_all :
        (w : Wal) (bs : List WalBatch)
        → (append_all fmt w bs).file.contents ≡ w.file.contents ++ frames bs
    unfolding append_all append
    contents-append_all w [] = sym (append-nil w.file.contents)
    contents-append_all w (b ∷ bs) =
        contents-append_all (append fmt w b) bs
        ∙ ap (λ (c : Bytes). c ++ frames bs)
            (contents-sync_by w.policy
              (record w.file { contents = w.file.contents ++ frame fmt b }))
        ∙ append_assoc w.file.contents (frame fmt b) (frames bs)

    -- Under `always` every byte is synced.
    synced-append_all :
        (f : File) (bs : List WalBatch)
        → f.synced ≡ length f.contents
        → (append_all fmt (record { file = f; policy = always }) bs).file.synced
          ≡ length (append_all fmt (record { file = f; policy = always }) bs).file.contents
    unfolding append_all append
    synced-append_all f [] h = h
    synced-append_all f (b ∷ bs) h =
        synced-append_all (synced_file (record f { contents = f.contents ++ frame fmt b })) bs refl

    -- The log that a new file holds after a number of appends, and after a crash.
    abbrev pub crashed : SyncPolicy → ℕ → List WalBatch → File
    crashed policy n bs = crash n (append_all fmt (open_log none policy) bs).file

    crashed-frames :
        (policy : SyncPolicy) (n : ℕ) (bs : List WalBatch)
        → (m : ℕ) × (s : ℕ) × (crashed policy n bs
            ≡ record { contents = take m (frames bs); synced = s })
    unfolding crash open_log open_file
    crashed-frames policy n bs =
        let w = append_all fmt (open_log none policy) bs in
        (
          max w.file.synced n,
          w.file.synced,
          ap
              (λ (c : Bytes). record {
                contents = take (max w.file.synced n) c;
                synced = w.file.synced;
              })
              (contents-append_all (open_log none policy) bs),
        )

    -- However many of the unsynced bytes of a log survive a crash, `replay` returns the batches that
    -- were appended up to some point, in order and unchanged: as many as there are whole frames in the
    -- bytes that survived. It cuts the file after the last of these frames, so that reading it again
    -- returns the same and leaves it alone. The payloads' lengths fit 32 bits.
    pub replay-crashed :
        (policy : SyncPolicy) (n : ℕ) (bs : List WalBatch)
        → Fits bs
        → (k : ℕ) × (s : ℕ) × (replay fmt (some (crashed policy n bs))
            ≡ (take k bs, some (record { contents = frames (take k bs); synced = s })))
          × (length (frames (take k bs)) ≤ length (crashed policy n bs).contents)
          × (k < length bs
              → length (crashed policy n bs).contents < length (frames (take (k + 1) bs)))
          × (replay fmt (replay fmt (some (crashed policy n bs))).1
              ≡ replay fmt (some (crashed policy n bs)))
    replay-crashed policy n bs fits =
        let (m, s, e) = crashed-frames policy n bs in
        let (s', r) = replay_torn bs m s fits in
        let r' : replay fmt (some (crashed policy n bs))
            ≡ (kept m bs, some (record { contents = frames (kept m bs); synced = s' })) =
          ap (λ (f : File). replay fmt (some f)) e ∙ r in
        let size : length (crashed policy n bs).contents ≡ length (take m (frames bs)) =
          ap (λ (f : File). length f.contents) e in
        let k = length (kept m bs) in
        (
          k,
          s',
          r'
              ∙ ap (λ ks. (ks, some (record { contents = frames ks; synced = s' })))
                  (kept-take m bs),
          omega (
            arith,
            size,
            length-take m (frames bs),
            length_kept m bs,
            ap (λ ks. length (frames ks)) (kept-take m bs),
          ),
          λ more. omega (arith, size, length-take m (frames bs), kept_most m bs more),
          rw r' (replay_clean (kept m bs) s' (Fits-kept m bs fits)),
        )

    -- Under `always`, in a log that starts empty, `replay` returns exactly the batches whose append has
    -- returned before a crash, in order. The payloads' lengths fit 32 bits.
    pub replay_durable :
        (n : ℕ) (bs : List WalBatch) → Fits bs → (replay fmt (some (crashed always n bs))).0 ≡ bs
    unfolding crash open_log open_file
    replay_durable n bs fits =
        let f = (append_all fmt (open_log none always) bs).file in
        let all_synced = synced-append_all (open_file none) bs refl in
        let whole : take (max f.synced n) f.contents ≡ frames bs =
          take_all (max f.synced n) f.contents (ground (arith, all_synced))
          ∙ contents-append_all (open_log none always) bs in
        ap (λ (p : List WalBatch × Option File). p.0)
          (ap (λ (c : Bytes). replay fmt (some (record { contents = c; synced = f.synced }))) whole
            ∙ replay_clean bs f.synced fits)
