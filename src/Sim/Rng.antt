-- ===== src/Sim/Rng.antt =====
-- crates/sim/src/rng.rs: the splitmix64 generator of the simulator. Its u64 arithmetic wraps, also
-- where a range is measured; `none` is the panic of a remainder by zero or of an index out of range.
-- A debug assertion has no effect, and `chance`, which compares floats, is left out.
use Prim.Native.Nat.{bit_xor}
use raft_kv_engine_project.Base.{
  ℕ, ◌+◌, ◌-◌, ◌*◌, ◌/◌, ◌%◌, ◌^◌, ◌≡◌, Option, none, some, List, arith, ◌==◌, if◌then◌else◌,
  length, get_elem?, ◌>>=◌,
}
pub mod Ranges

pub record Rng : Type 0 where
  pub state : ℕ

unfoldable pub new : ℕ → Rng
new seed = record { state = (seed + 0x9E3779B97F4A7C15) % 2 ^ 64 }

-- The three rounds on the new state.
unfoldable pub scramble : ℕ → ℕ
scramble z0 =
    let z1 = bit_xor z0 (z0 / 2 ^ 30) * 0xBF58476D1CE4E5B9 % 2 ^ 64 in
    let z2 = bit_xor z1 (z1 / 2 ^ 27) * 0x94D049BB133111EB % 2 ^ 64 in bit_xor z2 (z2 / 2 ^ 31)

unfoldable pub next_u64 : Rng → ℕ × Rng
next_u64 r = let s = (r.state + 0x9E3779B97F4A7C15) % 2 ^ 64 in (scramble s, record { state = s })

unfoldable pub below : Rng → ℕ → Option (ℕ × Rng)
unfolding next_u64
below r n = if n == 0 then none else some ((next_u64 r).0 % n, (next_u64 r).1)

unfoldable pub range : Rng → ℕ → ℕ → Option (ℕ × Rng)
unfolding below
range r lo hi =
    below r ((hi + (2 ^ 64 - lo) + 1) % 2 ^ 64) >>= λ drawn. some ((lo + drawn.0) % 2 ^ 64, drawn.1)

unfoldable pub pick {ℓ} : {A : Type ℓ} → Rng → List A → Option (A × Rng)
unfolding below
pick r items =
    below r (length items) >>= λ drawn. (get_elem? items drawn.0 >>= λ item. some (item, drawn.1))
