-- ===== src/Base/Bytes.antt =====
-- Byte strings as lists of numbers, with their lexicographic order and equality.
use Prim.Native.Nat.{ℕ}
use mathlib.Core.Path.{◌≡◌, refl}
use mathlib.Core.Bool.{Bool, true, false, ◌&&◌}
use mathlib.Core.Option.{Option, none, some}
use mathlib.Core.List.{List, [], ◌∷◌}
use native.Mathlib.Omega.{arith}
use raft_kv_engine_project.Base.Tests.{◌==◌, ltb, if◌then◌else◌}

abbrev pub Bytes : Type 0
Bytes = List ℕ

unfoldable pub bytes_eq : Bytes → Bytes → Bool
bytes_eq [] [] = true
bytes_eq (a ∷ xs) (b ∷ ys) = a == b && bytes_eq xs ys
bytes_eq _ _ = false

-- `a < b` for slices.
unfoldable pub bytes_lt : Bytes → Bytes → Bool
bytes_lt [] [] = false
bytes_lt [] (b ∷ ys) = true
bytes_lt (a ∷ xs) [] = false
bytes_lt (a ∷ xs) (b ∷ ys) =
    let rest = bytes_lt xs ys in if ltb a b then true else if a == b then rest else false

pub bytes_eq_sound : (a b : Bytes) → bytes_eq a b ≡ true → a ≡ b
unfolding bytes_eq
bytes_eq_sound [] [] h = refl
bytes_eq_sound [] (b ∷ ys) h = cc
bytes_eq_sound (a ∷ xs) [] h = cc
bytes_eq_sound (a ∷ xs) (b ∷ ys) h = ground (arith, bytes_eq_sound xs ys)

pub bytes_eq_refl : (a : Bytes) → bytes_eq a a ≡ true
unfolding bytes_eq
bytes_eq_refl [] = refl
bytes_eq_refl (a ∷ xs) = ground (arith, bytes_eq_refl xs)

pub bytes_lt_trans :
    (a b c : Bytes) → bytes_lt a b ≡ true → bytes_lt b c ≡ true → bytes_lt a c ≡ true
unfolding bytes_lt
bytes_lt_trans [] [] [] h k = cc
bytes_lt_trans [] (b ∷ ys) [] h k = cc
bytes_lt_trans [] b (c ∷ zs) h k = refl
bytes_lt_trans (a ∷ xs) [] c h k = cc
bytes_lt_trans (a ∷ xs) (b ∷ ys) [] h k = cc
bytes_lt_trans (a ∷ xs) (b ∷ ys) (c ∷ zs) h k = ground (arith, bytes_lt_trans xs ys zs)

pub bytes_lt_irrefl : (a : Bytes) → bytes_lt a a ≡ false
unfolding bytes_lt
bytes_lt_irrefl [] = refl
bytes_lt_irrefl (a ∷ xs) = ground (arith, bytes_lt_irrefl xs)

-- Of two different byte strings one is the smaller.
pub bytes_lt_total :
    (a b : Bytes) → bytes_eq a b ≡ false → bytes_lt a b ≡ false → bytes_lt b a ≡ true
unfolding bytes_lt bytes_eq
bytes_lt_total [] [] h k = cc
bytes_lt_total [] (b ∷ ys) h k = cc
bytes_lt_total (a ∷ xs) [] h k = refl
bytes_lt_total (a ∷ xs) (b ∷ ys) h k = ground (arith, bytes_lt_total xs ys)

-- `==` on optional values.
unfoldable pub value_eq : Option Bytes → Option Bytes → Bool
value_eq none none = true
value_eq (some a) (some b) = bytes_eq a b
value_eq _ _ = false
