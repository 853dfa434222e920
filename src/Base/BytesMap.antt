-- ===== src/Base/BytesMap.antt =====
-- `std::collections::BTreeMap` with byte strings for keys: an association list in ascending order.
use raft_kv_engine_project.Base.Tests.{if◌then◌else◌}
use raft_kv_engine_project.Base.Bytes.{
  Bytes, bytes_eq, bytes_lt, bytes_eq_sound, bytes_eq_refl, bytes_lt_trans, bytes_lt_irrefl,
  bytes_lt_total,
}
use mathlib.Core.Path.{◌≡◌, refl, ◌∙◌, sym}
use mathlib.Core.Bool.{true}
use mathlib.Core.Option.{Option, none, some}
use mathlib.Core.List.{List, [], ◌∷◌, ◌++◌, append_assoc, append-nil}
use native.Mathlib.Omega.{arith}

module _ {ℓ} {V : Type ℓ} where
  unfoldable pub get : List (Bytes × V) → Bytes → Option V
  get [] k = none
  get ((j, v) ∷ m) k = if bytes_eq j k then some v else get m k

  unfoldable pub insert : Bytes → V → List (Bytes × V) → List (Bytes × V)
  insert k v [] = (k, v) ∷ []
  insert k v ((j, w) ∷ m) =
      let rest = insert k v m in
      if bytes_eq j k
      then (k, v) ∷ m
      else if bytes_lt k j
      then (k, v) ∷ (j, w) ∷ m
      else (j, w) ∷ rest

  unfoldable pub remove : Bytes → List (Bytes × V) → List (Bytes × V)
  remove k [] = []
  remove k ((j, w) ∷ m) = let rest = remove k m in if bytes_eq j k then rest else (j, w) ∷ rest

  -- `range(start..)`.
  unfoldable pub range_from : Bytes → List (Bytes × V) → List (Bytes × V)
  range_from start [] = []
  range_from start ((j, w) ∷ m) =
      let rest = range_from start m in if bytes_lt j start then rest else (j, w) ∷ m

  -- `into_iter().collect()`: the pairs are inserted in turn.
  unfoldable pub collect : List (Bytes × V) → List (Bytes × V) → List (Bytes × V)
  collect m [] = m
  collect m ((k, v) ∷ kvs) = collect (insert k v m) kvs

  pub get-insert :
      (k j : Bytes) (v : V) (m : List (Bytes × V))
      → get (insert k v m) j ≡ (if bytes_eq k j then some v else get m j)
  unfolding get insert
  get-insert k j v [] = refl
  get-insert k j v ((i, w) ∷ m) = ground (
    arith,
    get-insert k j v m,
    bytes_eq_sound i k,
    bytes_eq_sound i j,
    bytes_eq_sound k j,
    bytes_eq_refl j,
  )

  pub get-remove :
      (k j : Bytes) (m : List (Bytes × V))
      → get (remove k m) j ≡ (if bytes_eq k j then none else get m j)
  unfolding get remove
  get-remove k j [] = ground arith
  get-remove k j ((i, w) ∷ m) = ground (
    arith,
    get-remove k j m,
    bytes_eq_sound i k,
    bytes_eq_sound i j,
    bytes_eq_sound k j,
    bytes_eq_refl j,
    bytes_eq_refl k,
  )

  -- Every key is above `k`.
  abbrev pub Above : Bytes → List (Bytes × V) → Type 0
  Above k [] = Unit
  Above k ((j, w) ∷ m) = (bytes_lt k j ≡ true) × Above k m

  -- The keys rise strictly.
  abbrev pub IsAscending : List (Bytes × V) → Type 0
  IsAscending [] = Unit
  IsAscending ((j, w) ∷ m) = Above j m × IsAscending m

  Above-insert :
      (i k : Bytes) (v : V) (m : List (Bytes × V))
      → bytes_lt i k ≡ true
      → Above i m
      → Above i (insert k v m)
  unfolding insert
  Above-insert i k v [] h a = (h, tt)
  Above-insert i k v ((j, w) ∷ m) h a = ground (arith, Above-insert i k v m h a.1)

  Above-trans : (i k : Bytes) (m : List (Bytes × V)) → bytes_lt i k ≡ true → Above k m → Above i m
  Above-trans i k [] h a = tt
  Above-trans i k ((j, w) ∷ m) h a = (bytes_lt_trans i k j h a.0, Above-trans i k m h a.1)

  pub insert-IsAscending :
      (k : Bytes) (v : V) (m : List (Bytes × V)) → IsAscending m → IsAscending (insert k v m)
  unfolding insert
  insert-IsAscending k v [] a = (tt, tt)
  insert-IsAscending k v ((j, w) ∷ m) a = ground (
    arith,
    bytes_eq_sound j k,
    bytes_lt_total k j,
    bytes_eq_sound k j,
    bytes_eq_refl k,
    Above-trans k j m,
    Above-insert j k v m,
    insert-IsAscending k v m a.1,
  )

  Above-remove : (i k : Bytes) (m : List (Bytes × V)) → Above i m → Above i (remove k m)
  unfolding remove
  Above-remove i k [] a = tt
  Above-remove i k ((j, w) ∷ m) a = ground (arith, Above-remove i k m a.1)

  pub remove-IsAscending :
      (k : Bytes) (m : List (Bytes × V)) → IsAscending m → IsAscending (remove k m)
  unfolding remove
  remove-IsAscending k [] a = tt
  remove-IsAscending k ((j, w) ∷ m) a =
      ground (arith, remove-IsAscending k m a.1, Above-remove j k m a.0)

  -- Every key of the first list is below every key of the second.
  abbrev Below : List (Bytes × V) → List (Bytes × V) → Type 0
  Below [] n = Unit
  Below ((j, w) ∷ m) n = Above j n × Below m n

  insert_end :
      (k : Bytes) (v : V) (m n : List (Bytes × V))
      → Below m ((k, v) ∷ n)
      → insert k v m ≡ m ++ (k, v) ∷ []
  unfolding insert
  insert_end k v [] n b = refl
  insert_end k v ((j, w) ∷ m) n b = ground (
    arith,
    insert_end k v m n b.1,
    bytes_eq_sound j k,
    bytes_lt_irrefl j,
    bytes_lt_trans k j k,
    bytes_lt_irrefl k,
  )

  Below-shift :
      (k : Bytes) (v : V) (m n : List (Bytes × V))
      → Below m ((k, v) ∷ n)
      → Above k n
      → Below (m ++ (k, v) ∷ []) n
  Below-shift k v [] n b a = (a, tt)
  Below-shift k v ((j, w) ∷ m) n b a = (b.0.1, Below-shift k v m n b.1 a)

  collect-append : (m n : List (Bytes × V)) → Below m n → IsAscending n → collect m n ≡ m ++ n
  unfolding collect
  collect-append m [] b a = sym (append-nil m)
  collect-append m ((k, v) ∷ n) b a = rw (insert_end k v m n b) (
      collect-append (m ++ (k, v) ∷ []) n (Below-shift k v m n b a.0) a.1
      ∙ append_assoc m ((k, v) ∷ []) n)

  -- The pairs of an ordered map collect into that map.
  pub collect_ascending : (n : List (Bytes × V)) → IsAscending n → collect [] n ≡ n
  collect_ascending n a = collect-append [] n tt a
