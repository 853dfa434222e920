-- ===== src/Sim/Wgl/Order.antt =====
-- crates/sim/src/wgl.rs: what the checker is about, independently of its search.
use mathlib.Core.List.{Perm}
use raft_kv_engine_project.Base.{
  ℕ, ◌≤◌, ◌≡◌, ◌≢◌, Bool, true, false, Option, none, some, List, [], ◌∷◌, ◌++◌, All,
}
use raft_kv_engine_project.Sim.Wgl.{PKind, POp, read, write, cas}

-- What a register with these contents answers to an operation, and its contents afterwards.
pub data Steps : PKind → Option ℕ → Option ℕ → Type 0 where
  reads : (v : Option ℕ) → Steps (read v) v v
  writes : (val : ℕ) (v : Option ℕ) → Steps (write val) v (some val)
  swaps :
      (expect : Option ℕ) (new : ℕ) (success : Option Bool)
      → success ≢ some false
      → Steps (cas expect new success) expect (some new)
  keeps :
      (expect : Option ℕ) (new : ℕ) (success : Option Bool) (v : Option ℕ)
      → v ≢ expect
      → success ≢ some true
      → Steps (cas expect new success) v v

-- The register answers the operations in turn, from its contents before to those after.
abbrev pub Runs : Option ℕ → List POp → Option ℕ → Type 0
Runs v [] w = v ≡ w
Runs v (o ∷ os) w = (u : Option ℕ) × Steps o.kind v u × Runs u os w

-- The second operation did not return before the first was invoked.
abbrev pub MayPrecede : POp → POp → Type 0
MayPrecede o later = (r : ℕ) → later.ret ≡ some r → o.invoke ≤ r

abbrev pub InRealTime : List POp → Type 0
InRealTime [] = Unit
InRealTime (o ∷ os) = All (MayPrecede o) os × InRealTime os

-- An order of all completed operations and some pending ones, which agrees with real time and in which
-- each response is that of a register that is empty at first.
pub record Linearization (ops : List POp) : Type 0 where
  pub order : List POp
  pub left : List POp
  pub last : Option ℕ
  pub whole : Perm ops (order ++ left)
  pub pending : All (λ o. o.ret ≡ none) left
  pub in_time : InRealTime order
  pub runs : Runs none order last
