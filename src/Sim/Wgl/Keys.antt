-- ===== src/Sim/Wgl/Keys.antt =====
-- crates/sim/src/wgl.rs: the keys that `check_history` goes through.
use raft_kv_engine_project.Base.{
  ℕ, zero, suc, ◌≡◌, refl, ap, ◌∙◌, subst, Bool, true, Option, none, some, List, [], ◌∷◌, map,
  arith, ◌==◌, ==_iff, any, get_elem?, Bool-cases, inl, inr,
}
use raft_kv_engine_project.Sim.History.{HRecord, key}
use raft_kv_engine_project.Sim.Wgl.{
  POp, Verdict, accepted, too_many, over_budget, rejected, malformed, ops_of, insert_key, sort_keys,
  dedup, check_key, check_keys, check_history,
}
use raft_kv_engine_project.Sim.Wgl.Order.{Linearization}
use raft_kv_engine_project.Sim.Wgl.Soundness.{check_key-Linearization}

module _ (k : ℕ) where
  abbrev has : List ℕ → Bool
  has = any (λ x. x == k)

  has-insert_key : (x : ℕ) (xs : List ℕ) → has (insert_key x xs) ≡ has (x ∷ xs)
  unfolding insert_key
  has-insert_key x [] = refl
  has-insert_key x (y ∷ ys) = ground (arith, has-insert_key x ys)

  has-sort_keys : (xs : List ℕ) → has (sort_keys xs) ≡ has xs
  unfolding sort_keys
  has-sort_keys [] = refl
  has-sort_keys (x ∷ xs) = ground (arith, has-insert_key x (sort_keys xs), has-sort_keys xs)

  has-dedup : (xs : List ℕ) → has (dedup xs) ≡ has xs
  unfolding dedup
  has-dedup [] = refl
  has-dedup (x ∷ []) = refl
  has-dedup (x ∷ y ∷ ys) = ground (arith, has-dedup (y ∷ ys))

  has-keys :
      (history : List HRecord) (i : ℕ) (r : HRecord)
      → get_elem? history i ≡ some r
      → key r.op ≡ k
      → has (map (λ (r : HRecord). key r.op) history) ≡ true
  has-keys [] i r h e = cc
  has-keys (x ∷ xs) zero r h e = ground (arith, ap (λ (y : HRecord). key y.op) (found h) ∙ e)
    where
      found : some x ≡ some r → x ≡ r
      found h = cc
  has-keys (x ∷ xs) (suc i) r h e = ground (arith, has-keys xs i r h e)

  abbrev KeyOrdered : List HRecord → Type 0
  KeyOrdered history = (ops : List POp) × (ops_of k history ≡ some ops) × Linearization ops

  check_keys-KeyOrdered :
      (ks : List ℕ) (history : List HRecord)
      → has ks ≡ true
      → check_keys ks history ≡ accepted
      → KeyOrdered history
  unfolding check_keys
  check_keys-KeyOrdered [] history h e = cc
  check_keys-KeyOrdered (x ∷ ks) history h e =
      round (check_keys-KeyOrdered ks history) (ops_of x history) refl e
    where
      checked :
          (has ks ≡ true → check_keys ks history ≡ accepted → KeyOrdered history)
          → (ops : List POp) → ops_of x history ≡ some ops
          → (v : Verdict) → check_key ops ≡ v
          → (elim v [
            | accepted ↦ check_keys ks history
            | too_many ↦ too_many
            | over_budget ↦ over_budget
            | rejected ↦ rejected
            | malformed ↦ malformed
          ])
            ≡ accepted
          → KeyOrdered history
      checked further ops o accepted c e = elim (Bool-cases (x == k)) [
        | inl same ↦ (
          ops,
          subst (λ y. ops_of y history ≡ some ops) ((==_iff x k).0 same) o,
          check_key-Linearization ops c,
        )
        | inr other ↦ further (ground (arith, h, other)) e
      ]
      checked further ops o too_many c e = cc
      checked further ops o over_budget c e = cc
      checked further ops o rejected c e = cc
      checked further ops o malformed c e = cc

      round :
          (has ks ≡ true → check_keys ks history ≡ accepted → KeyOrdered history)
          → (found : Option (List POp)) → ops_of x history ≡ found
          → (elim found [
            | none ↦ malformed
            | some ops ↦ elim (check_key ops) [
              | accepted ↦ check_keys ks history
              | too_many ↦ too_many
              | over_budget ↦ over_budget
              | rejected ↦ rejected
              | malformed ↦ malformed
            ]
          ])
            ≡ accepted
          → KeyOrdered history
      round further none o e = cc
      round further (some ops) o e = checked further ops o (check_key ops) refl e

-- Where a history is accepted, the operations on the key of each of its records are well formed, and
-- have an order that takes in every completed one of them, that agrees with real time, and in which each
-- response is the one that a register, empty at first, gives.
pub check_history-Linearization :
    (history : List HRecord) (i : ℕ) (r : HRecord)
    → get_elem? history i ≡ some r
    → check_history history ≡ accepted
    → (ops : List POp) × (ops_of (key r.op) history ≡ some ops) × Linearization ops
unfolding check_history
check_history-Linearization history i r h e =
    let keys = map (λ (x : HRecord). key x.op) history in
    check_keys-KeyOrdered (key r.op) (dedup (sort_keys keys)) history
      (has-dedup (key r.op) (sort_keys keys)
        ∙ (has-sort_keys (key r.op) keys ∙ has-keys (key r.op) history i r h refl))
      e
