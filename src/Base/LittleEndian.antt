-- ===== src/Base/LittleEndian.antt =====
-- `to_le_bytes` and `from_le_bytes` of unsigned integers, at a width in bytes.
use raft_kv_engine_project.Base.Lists.{length}
use raft_kv_engine_project.Base.Bytes.{Bytes}
use Prim.Native.Nat.{ℕ, zero, suc, ◌+◌, ◌*◌, ◌/◌, ◌%◌, ◌^◌, ◌<◌}
use mathlib.Core.Path.{◌≡◌, refl}
use mathlib.Core.List.{[], ◌∷◌}
use native.Mathlib.Omega.{arith}
use native.Mathlib.Nat.{pow-suc}

abbrev pub to_le_bytes : ℕ → ℕ → Bytes
to_le_bytes zero n = []
to_le_bytes (suc width) n = n % 256 ∷ to_le_bytes width (n / 256)

abbrev pub from_le_bytes : Bytes → ℕ
from_le_bytes [] = 0
from_le_bytes (b ∷ bytes) = b + 256 * from_le_bytes bytes

pub length-to_le_bytes : (width n : ℕ) → length (to_le_bytes width n) ≡ width
length-to_le_bytes zero n = refl
length-to_le_bytes (suc width) n = omega (arith, length-to_le_bytes width (n / 256))

pub from_le_bytes-to_le_bytes :
    (width n : ℕ) → n < 256 ^ width → from_le_bytes (to_le_bytes width n) ≡ n
from_le_bytes-to_le_bytes zero n h = omega (arith, h)
from_le_bytes-to_le_bytes (suc width) n h =
    omega (arith, from_le_bytes-to_le_bytes width (n / 256) (smaller h))
  where
    smaller : n < 256 ^ suc width → n / 256 < 256 ^ width
    smaller l = omega (arith, l, pow-suc 256 width)
