-- ===== src/Sim/Wgl/Register.antt =====
-- crates/sim/src/wgl.rs: `try_apply` next to the steps of a register.
use raft_kv_engine_project.Base.{
  ℕ, ◌≡◌, ◌≢◌, refl, sym, ap, ◌∙◌, subst, Bool, true, false, Option, none, some, ==_iff,
  if◌then◌else◌,
}
use raft_kv_engine_project.Sim.Wgl.{PKind, read, write, cas, value_eq, try_swap, try_apply}
use raft_kv_engine_project.Sim.Wgl.Order.{Steps, reads, writes, swaps, keeps}

value_eq_sound : (a b : Option ℕ) → value_eq a b ≡ true → a ≡ b
unfolding value_eq
value_eq_sound none none h = refl
value_eq_sound none (some b) h = cc
value_eq_sound (some a) none h = cc
value_eq_sound (some a) (some b) h = ap some ((==_iff a b).0 h)

value_eq_refl : (a : Option ℕ) → value_eq a a ≡ true
unfolding value_eq
value_eq_refl none = refl
value_eq_refl (some a) = (==_iff a a).1 refl

not_equal : (a b : Option ℕ) → value_eq a b ≡ false → a ≢ b
not_equal a b h same =
    absurd (true_not_false (sym (value_eq_refl b) ∙ (ap (λ x. value_eq x b) (sym same) ∙ h)))
  where
    true_not_false : true ≡ false → ⊥
    true_not_false e = cc

swapped :
    (expect v w : Option ℕ) (new : ℕ) (success : Option Bool)
    → success ≢ some false
    → v ≡ expect
    → some new ≡ w
    → Steps (cas expect new success) v w
swapped expect v w new success possible same next =
    subst (λ x. Steps (cas expect new success) x w) (sym same)
      (subst (λ x. Steps (cas expect new success) expect x) next
        (swaps expect new success possible))

kept :
    (expect v w : Option ℕ) (new : ℕ) (success : Option Bool)
    → success ≢ some true
    → v ≢ expect
    → v ≡ w
    → Steps (cas expect new success) v w
kept expect v w new success possible differs next =
    subst (λ x. Steps (cas expect new success) v x) next
      (keeps expect new success v differs possible)

try_swap-Steps :
    (expect v w : Option ℕ) (new : ℕ) (success : Option Bool) (test : Bool)
    → value_eq v expect ≡ test
    → try_swap success test (some new) v ≡ some w
    → Steps (cas expect new success) v w
unfolding try_swap
try_swap-Steps expect v w new none true t h =
    swapped expect v w new none (λ e. cc) (value_eq_sound v expect t) cc
try_swap-Steps expect v w new (some true) true t h =
    swapped expect v w new (some true) (λ e. cc) (value_eq_sound v expect t) cc
try_swap-Steps expect v w new (some false) true t h = cc
try_swap-Steps expect v w new none false t h =
    kept expect v w new none (λ e. cc) (not_equal v expect t) cc
try_swap-Steps expect v w new (some false) false t h =
    kept expect v w new (some false) (λ e. cc) (not_equal v expect t) cc
try_swap-Steps expect v w new (some true) false t h = cc

some_injective : {x y : Option ℕ} → some x ≡ some y → x ≡ y
some_injective h = cc

read-Steps :
    (result v w : Option ℕ) (test : Bool)
    → value_eq result v ≡ test
    → (if test then some v else none) ≡ some w
    → Steps (read result) v w
read-Steps result v w false t h = cc
read-Steps result v w true t h =
    subst (λ x. Steps (read x) v w) (sym (value_eq_sound result v t))
      (subst (λ x. Steps (read v) v x) (some_injective h) (reads v))

-- What is applied is a step of the register.
pub try_apply-Steps : (kind : PKind) (v w : Option ℕ) → try_apply kind v ≡ some w → Steps kind v w
unfolding try_apply
try_apply-Steps (read result) v w h = read-Steps result v w (value_eq result v) refl h
try_apply-Steps (write val) v w h =
    subst (λ x. Steps (write val) v x) (some_injective h) (writes val v)
try_apply-Steps (cas expect new success) v w h =
    try_swap-Steps expect v w new success (value_eq v expect) refl h
