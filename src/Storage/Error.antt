-- ===== src/Storage/Error.antt =====
-- crates/storage/src/error.rs: errors as values. The message of a corruption is left out, and a panic
-- is a third way to fail, which no caller handles.
use raft_kv_engine_project.Base.{Bool, Option, none, some, if◌then◌else◌}

pub data Error : Type 0 where
  io corruption panic : Error

pub data Result {ℓ} (T : Type ℓ) : Type ℓ where
  err : Error → Result T
  ok : T → Result T

-- The `?` operator: the rest of the method runs on a value, and an error returns at once.
infixl 5 ◌>>=◌ ◌>>◌
abbrev pub ◌>>=◌ {ℓ μ} : {S : Type ℓ} {T : Type μ} → Result S → (S → Result T) → Result T
err failure >>= rest = err failure
ok value >>= rest = rest value

abbrev pub ◌>>◌ {μ} : {T : Type μ} → Result (Unit {0}) → Result T → Result T
err failure >> rest = err failure
ok _ >> rest = rest

-- An error where a test fails, with `return Err(..)`.
abbrev pub ensure : Bool → Error → Result (Unit {0})
ensure test failure = if test then ok tt else err failure

-- `Option::ok_or`, `unwrap` and `expect`.
abbrev pub or_error {ℓ} : {T : Type ℓ} → Option T → Error → Result T
or_error (some value) failure = ok value
or_error none failure = err failure
