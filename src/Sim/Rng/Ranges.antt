-- ===== src/Sim/Rng/Ranges.antt =====
-- crates/sim/src/rng.rs: the values that are drawn.
use native.Mathlib.Nat.{mod-lt}
use raft_kv_engine_project.Base.{ℕ, ◌+◌, ◌-◌, ◌%◌, ◌^◌, ◌≤◌, ◌<◌, ◌≡◌, Option, none, some, arith}
use raft_kv_engine_project.Sim.Rng.{Rng, next_u64, below, range}

below-drawn : (r : Rng) (n : ℕ) → 0 < n → below r n ≡ some ((next_u64 r).0 % n, (next_u64 r).1)
unfolding below
below-drawn r n h = ground (arith, h)

-- The width of a range does not wrap.
width :
    (lo hi : ℕ)
    → lo ≤ hi
    → hi < 2 ^ 64
    → hi - lo + 1 < 2 ^ 64
    → (hi + (2 ^ 64 - lo) + 1) % 2 ^ 64 ≡ hi - lo + 1
width lo hi h top span = omega (arith, h, top, span)

-- A value was drawn, and it lies between the bounds.
abbrev pub InBounds : ℕ → ℕ → Option (ℕ × Rng) → Type 0
InBounds lo hi none = ⊥
InBounds lo hi (some drawn) = (lo ≤ drawn.0) × (drawn.0 ≤ hi)

-- A draw between two 64-bit bounds, the lower one at most the upper one, that do not span all the
-- 64-bit numbers succeeds, with a value between the bounds, both included.
pub range-InBounds :
    (r : Rng) (lo hi : ℕ)
    → lo ≤ hi
    → hi < 2 ^ 64
    → hi - lo + 1 < 2 ^ 64
    → InBounds lo hi (range r lo hi)
unfolding range
range-InBounds r lo hi h top span =
    let x = (next_u64 r).0 in
    let small : x % (hi - lo + 1) < hi - lo + 1 = mod-lt x (omega arith) in
    rw (width lo hi h top span, below-drawn r (hi - lo + 1) (omega arith))
      (omega (arith, small, h, top), omega (arith, small, h, top))
