-- ===== src/Base/BTreeMap.antt =====
-- `std::collections::BTreeMap` with integer keys: an association list in ascending key order.
use raft_kv_engine_project.Base.Tests.{ltb, ◌==◌, if◌then◌else◌}
use Prim.Native.Nat.{ℕ, ◌<◌}
use mathlib.Core.Path.{◌≡◌, refl, sym, ◌∙◌}
use mathlib.Core.Bool.{Bool}
use mathlib.Core.Option.{Option, none, some}
use mathlib.Core.List.{List, [], ◌∷◌, ◌++◌, append-nil, append_assoc}
use native.Mathlib.Omega.{arith}

module _ {ℓ} {V : Type ℓ} where
  unfoldable pub get : List (ℕ × V) → ℕ → Option V
  get [] k = none
  get ((j, v) ∷ m) k = if j == k then some v else get m k

  unfoldable pub insert : ℕ → V → List (ℕ × V) → List (ℕ × V)
  insert k v [] = (k, v) ∷ []
  insert k v ((j, w) ∷ m) =
      let rest = insert k v m in
      if j == k then (k, v) ∷ m else if ltb k j then (k, v) ∷ (j, w) ∷ m else (j, w) ∷ rest

  -- `entry(k).or_insert_with(|| v)`.
  unfoldable pub or_insert : ℕ → V → List (ℕ × V) → List (ℕ × V)
  or_insert k v m = elim (get m k) [ none ↦ insert k v m | some w ↦ m ]

  unfoldable pub retain_keys : (ℕ → Bool) → List (ℕ × V) → List (ℕ × V)
  retain_keys p [] = []
  retain_keys p ((j, v) ∷ m) = let rest = retain_keys p m in if p j then (j, v) ∷ rest else rest

  unfoldable pub keys : List (ℕ × V) → List ℕ
  keys [] = []
  keys ((j, v) ∷ m) = j ∷ keys m

  pub get-insert :
      (k j : ℕ) (v : V) (m : List (ℕ × V))
      → get (insert k v m) j ≡ (if k == j then some v else get m j)
  unfolding get insert
  get-insert k j v [] = refl
  get-insert k j v ((i, w) ∷ m) = ground (arith, get-insert k j v m)

  pub get-or_insert :
      (k j : ℕ) (v : V) (m : List (ℕ × V))
      → get (or_insert k v m) j
        ≡ elim (get m j) [ none ↦ if k == j then some v else none | some w ↦ some w ]
  unfolding or_insert
  get-or_insert k j v m = ground (arith, get-insert k j v m)

  pub get-retain_keys :
      (p : ℕ → Bool) (j : ℕ) (m : List (ℕ × V))
      → get (retain_keys p m) j ≡ (if p j then get m j else none)
  unfolding get retain_keys
  get-retain_keys p j [] = ground arith
  get-retain_keys p j ((i, w) ∷ m) = ground (arith, get-retain_keys p j m)

  -- `into_iter().collect()`: the pairs are inserted in turn.
  unfoldable pub collect : List (ℕ × V) → List (ℕ × V) → List (ℕ × V)
  collect m [] = m
  collect m ((k, v) ∷ kvs) = collect (insert k v m) kvs

  -- Every key is above `k`.
  abbrev pub Above : ℕ → List (ℕ × V) → Type 0
  Above k [] = Unit
  Above k ((j, w) ∷ m) = (k < j) × Above k m

  -- The keys rise strictly.
  abbrev pub IsAscending : List (ℕ × V) → Type 0
  IsAscending [] = Unit
  IsAscending ((j, w) ∷ m) = Above j m × IsAscending m

  Above-insert : (i k : ℕ) (v : V) (m : List (ℕ × V)) → i < k → Above i m → Above i (insert k v m)
  unfolding insert
  Above-insert i k v [] h a = (h, tt)
  Above-insert i k v ((j, w) ∷ m) h a = ground (arith, Above-insert i k v m h a.1)

  Above-trans : (i k : ℕ) (m : List (ℕ × V)) → i < k → Above k m → Above i m
  Above-trans i k [] h a = tt
  Above-trans i k ((j, w) ∷ m) h a = (omega arith, Above-trans i k m h a.1)

  pub insert-IsAscending :
      (k : ℕ) (v : V) (m : List (ℕ × V)) → IsAscending m → IsAscending (insert k v m)
  unfolding insert
  insert-IsAscending k v [] a = (tt, tt)
  insert-IsAscending k v ((j, w) ∷ m) a =
      ground (arith, Above-trans k j m, Above-insert j k v m, insert-IsAscending k v m a.1)

  -- Every key of the first list is below every key of the second.
  abbrev Below : List (ℕ × V) → List (ℕ × V) → Type 0
  Below [] n = Unit
  Below ((j, w) ∷ m) n = Above j n × Below m n

  insert_end :
      (k : ℕ) (v : V) (m n : List (ℕ × V)) → Below m ((k, v) ∷ n) → insert k v m ≡ m ++ (k, v) ∷ []
  unfolding insert
  insert_end k v [] n b = refl
  insert_end k v ((j, w) ∷ m) n b = ground (arith, insert_end k v m n b.1)

  Below-shift :
      (k : ℕ) (v : V) (m n : List (ℕ × V))
      → Below m ((k, v) ∷ n)
      → Above k n
      → Below (m ++ (k, v) ∷ []) n
  Below-shift k v [] n b a = (a, tt)
  Below-shift k v ((j, w) ∷ m) n b a = (b.0.1, Below-shift k v m n b.1 a)

  collect-append : (m n : List (ℕ × V)) → Below m n → IsAscending n → collect m n ≡ m ++ n
  unfolding collect
  collect-append m [] b a = sym (append-nil m)
  collect-append m ((k, v) ∷ n) b a = rw (insert_end k v m n b) (
      collect-append (m ++ (k, v) ∷ []) n (Below-shift k v m n b a.0) a.1
      ∙ append_assoc m ((k, v) ∷ []) n)

  -- The pairs of an ordered map collect into that map.
  pub collect_ascending : (n : List (ℕ × V)) → IsAscending n → collect [] n ≡ n
  collect_ascending n a = collect-append [] n tt a
