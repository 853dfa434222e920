-- ===== src/Base/Sort.antt =====
-- `sort_unstable_by(|a, b| b.cmp(a))` on integers, and the element at `quorum - 1` of its result.
use raft_kv_engine_project.Base.Tests.{leb, if◌then◌else◌}
use raft_kv_engine_project.Base.Lists.{length, get_elem?, count}
use Prim.Native.Nat.{ℕ, zero, suc, ◌-◌, ◌≤◌, ◌<◌}
use mathlib.Core.Path.{◌≡◌, refl}
use mathlib.Core.Bool.{Bool}
use mathlib.Core.Option.{some}
use mathlib.Core.List.{List, [], ◌∷◌}
use native.Mathlib.Omega.{arith}

insert_desc : ℕ → List ℕ → List ℕ
insert_desc x [] = x ∷ []
insert_desc x (y ∷ ys) = if leb y x then x ∷ y ∷ ys else y ∷ insert_desc x ys

unfoldable pub sort_desc : List ℕ → List ℕ
unfolding insert_desc
sort_desc [] = []
sort_desc (x ∷ xs) = insert_desc x (sort_desc xs)

length-insert_desc : (x : ℕ) (xs : List ℕ) → length (insert_desc x xs) ≡ suc (length xs)
unfolding insert_desc
length-insert_desc x [] = refl
length-insert_desc x (y ∷ ys) = ground (arith, length-insert_desc x ys)

pub length-sort_desc : (xs : List ℕ) → length (sort_desc xs) ≡ length xs
unfolding sort_desc
length-sort_desc [] = refl
length-sort_desc (x ∷ xs) = omega (arith, length-insert_desc x (sort_desc xs), length-sort_desc xs)

count-insert_desc :
    (p : ℕ → Bool) (x : ℕ) (xs : List ℕ) → count p (insert_desc x xs) ≡ count p (x ∷ xs)
unfolding insert_desc
count-insert_desc p x [] = refl
count-insert_desc p x (y ∷ ys) = ground (arith, count-insert_desc p x ys)

-- Sorting keeps how many elements pass any test.
pub count-sort_desc : (p : ℕ → Bool) (xs : List ℕ) → count p (sort_desc xs) ≡ count p xs
unfolding sort_desc
count-sort_desc p [] = refl
count-sort_desc p (x ∷ xs) =
    ground (arith, count-insert_desc p x (sort_desc xs), count-sort_desc p xs)

-- Every element is at most the bound, and so on down the list.
abbrev pub IsDescending : List ℕ → Type 0
IsDescending [] = Unit
IsDescending (x ∷ []) = Unit
IsDescending (x ∷ y ∷ ys) = (y ≤ x) × IsDescending (y ∷ ys)

insert_desc-IsDescending : (x : ℕ) (xs : List ℕ) → IsDescending xs → IsDescending (insert_desc x xs)
unfolding insert_desc
insert_desc-IsDescending x [] h = tt
insert_desc-IsDescending x (y ∷ []) h = ground arith
insert_desc-IsDescending x (y ∷ z ∷ zs) h = ground (arith, insert_desc-IsDescending x (z ∷ zs) h.1)

pub sort_desc-IsDescending : (xs : List ℕ) → IsDescending (sort_desc xs)
unfolding sort_desc
sort_desc-IsDescending [] = tt
sort_desc-IsDescending (x ∷ xs) =
    insert_desc-IsDescending x (sort_desc xs) (sort_desc-IsDescending xs)

-- Nothing in a descending list passes its head.
nth-le-head :
    (xs : List ℕ) (i x c : ℕ) → IsDescending (x ∷ xs) → get_elem? (x ∷ xs) i ≡ some c → c ≤ x
nth-le-head xs zero x c h e = ground arith
nth-le-head [] (suc i) x c h e = cc
nth-le-head (y ∷ ys) (suc i) x c h e = omega (arith, nth-le-head ys i y c h.1 e)

-- In a descending list, what stands at place `i` is reached by at least `i + 1` elements.
count-at_least :
    (xs : List ℕ) (i c : ℕ) → IsDescending xs → get_elem? xs i ≡ some c → i < count (leb c) xs
count-at_least [] i c h e = cc
count-at_least (x ∷ []) zero c h e = ground arith
count-at_least (x ∷ []) (suc i) c h e = cc
count-at_least (x ∷ y ∷ ys) zero c h e = ground arith
count-at_least (x ∷ y ∷ ys) (suc i) c h e =
    ground (arith, count-at_least (y ∷ ys) i c h.1 e, nth-le-head (y ∷ ys) (suc i) x c h e)

-- The rule by which a leader picks an index, a read round or a tick: the value at place `q - 1` of
-- the sorted list is reached by at least `q` of the elements.
pub quorum-at_least :
    (xs : List ℕ) (q c : ℕ)
    → 0 < q
    → get_elem? (sort_desc xs) (q - 1) ≡ some c
    → q ≤ count (leb c) xs
quorum-at_least xs q c h e = omega (
  arith,
  count-at_least (sort_desc xs) (q - 1) c (sort_desc-IsDescending xs) e,
  count-sort_desc (leb c) xs,
)

-- What lies above the head of a descending list is reached by none of it.
count_above : (xs : List ℕ) (x r : ℕ) → IsDescending (x ∷ xs) → x < r → count (leb r) (x ∷ xs) ≤ 0
count_above [] x r h a = ground arith
count_above (y ∷ ys) x r h a = ground (arith, count_above ys y r h.1)

-- In a descending list, what lies above the value at place `i` is reached by at most `i` elements.
count-at_most :
    (xs : List ℕ) (i c r : ℕ)
    → IsDescending xs
    → get_elem? xs i ≡ some c
    → c < r
    → count (leb r) xs ≤ i
count-at_most [] i c r h e a = cc
count-at_most (x ∷ xs) zero c r h e a = count_above xs x r h (ground (arith, e))
count-at_most (x ∷ []) (suc i) c r h e a = cc
count-at_most (x ∷ y ∷ ys) (suc i) c r h e a = ground (arith, count-at_most (y ∷ ys) i c r h.1 e)

-- A value above the picked one is reached by fewer than `q` of the elements.
pub quorum-at_most :
    (xs : List ℕ) (q c r : ℕ)
    → 0 < q
    → get_elem? (sort_desc xs) (q - 1) ≡ some c
    → c < r
    → count (leb r) xs < q
quorum-at_most xs q c r h e a = omega (
  arith,
  count-at_most (sort_desc xs) (q - 1) c r (sort_desc-IsDescending xs) e a,
  count-sort_desc (leb r) xs,
)
