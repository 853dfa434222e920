-- ===== src/Raft/Log/Slice.antt =====
-- crates/raft/src/log.rs: the windows that `slice` copies.
use raft_kv_engine_project.Base.{
  ℕ, zero, suc, ◌+◌, ◌-◌, ◌≤◌, ◌<◌, min, max, ◌≡◌, refl, none, List, [], ◌∷◌, arith, ltb,
  if◌then◌else◌, get_elem?, length, take, drop, length-take, ap, length-drop, get_elem?-take,
  get_elem?-drop,
}
use raft_kv_engine_project.Raft.Types.{Entry, Index}
use raft_kv_engine_project.Raft.Log.{RaftLog, first_index, last_index, get, slice}
use raft_kv_engine_project.Raft.Log.Contiguous.{
  Contiguous, IsContiguous, Contiguous-take, Contiguous-drop,
}
use raft_kv_engine_project.Raft.Log.Lookup.{get_lem}

take-min : (n m : ℕ) (xs : List Entry) → m ≡ min n (length xs) → take m xs ≡ take n xs
take-min zero zero xs h = refl
take-min zero (suc m) xs h = absurd (omega arith)
take-min (suc n) zero [] h = refl
take-min (suc n) (suc m) [] h = refl
take-min (suc n) zero (x ∷ xs) h = absurd (omega arith)
take-min (suc n) (suc m) (x ∷ xs) h = ap (◌∷◌ x) (take-min n m xs (omega arith))

drop_beyond : (n : ℕ) (xs : List Entry) → length xs ≤ n → drop n xs ≡ []
drop_beyond zero [] h = refl
drop_beyond zero (x ∷ xs) h = absurd (omega arith)
drop_beyond (suc n) [] h = refl
drop_beyond (suc n) (x ∷ xs) h = drop_beyond n xs (omega arith)

take_nil : (n : ℕ) → take n (let xs : List Entry = [] in xs) ≡ []
take_nil zero = refl
take_nil (suc n) = refl

module _ (log : RaftLog) (from : Index) (count : ℕ) (above : log.snap_index < from) where
  slice_lem : slice log from count ≡ take count (drop (from - log.snap_index - 1) log.entries)
  unfolding slice first_index last_index
  slice_lem =
      let m : max from (log.snap_index + 1) ≡ from = omega arith in
      rw m (
        ground (
          arith,
          drop_beyond (from - log.snap_index - 1) log.entries,
          take_nil count,
          length-drop (from - log.snap_index - 1) log.entries,
          take-min count
              (min (from - log.snap_index - 1 + count) (length log.entries)
                - (from - log.snap_index - 1))
              (drop (from - log.snap_index - 1) log.entries),
        ))

  pub length-slice : length (slice log from count) ≡ min count (last_index log + 1 - from)
  unfolding last_index
  length-slice = rw slice_lem (
      omega (
        arith,
        length-take count (drop (from - log.snap_index - 1) log.entries),
        length-drop (from - log.snap_index - 1) log.entries,
      ))

  pub get_elem?-slice :
      (i : ℕ)
      → get_elem? (slice log from count) i ≡ (if ltb i count then get log (from + i) else none)
  get_elem?-slice i = rw slice_lem (
      ground (
        arith,
        get_elem?-take count (drop (from - log.snap_index - 1) log.entries) i,
        get_elem?-drop (from - log.snap_index - 1) log.entries i,
        get_lem log (from + i),
        ap (get_elem? log.entries) {x = from - log.snap_index - 1 + i}
            {y = from + i - log.snap_index - 1},
      ))

  pub slice-Contiguous :
      (prev : Index)
      → from ≡ prev + 1
      → prev ≤ last_index log
      → IsContiguous log
      → Contiguous prev (slice log from count)
  unfolding last_index
  slice-Contiguous prev e l c = rw slice_lem (
      Contiguous-take prev count _ (
        Contiguous-drop log.snap_index prev (from - log.snap_index - 1) log.entries (omega arith)
          (omega arith) c))
