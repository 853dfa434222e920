-- ===== src/Sim/Wgl/Masks.antt =====
-- crates/sim/src/wgl.rs: the operations that a bit mask leaves, and what the masks that are pushed
-- take from them.
use raft_kv_engine_project.Base.{
  ℕ, ◌≤◌, ◌≡◌, refl, ap, Bool, true, false, Option, none, some, List, [], ◌∷◌, ◌++◌, map, arith,
  ltb, length, replicate, All, Option-cases, inl, inr, if◌then◌else◌,
}
use raft_kv_engine_project.Sim.Wgl.{
  POp, try_apply, State, completed, done, lower, min_ret, candidates,
}
use raft_kv_engine_project.Sim.Wgl.Order.{Steps}
use raft_kv_engine_project.Sim.Wgl.Register.{try_apply-Steps}

-- The operations whose bits are not set.
abbrev pub unset : List Bool → List POp → List POp
unset (true ∷ bs) (o ∷ os) = unset bs os
unset (false ∷ bs) (o ∷ os) = o ∷ unset bs os
unset _ _ = []

pub unset-replicate : (ops : List POp) → unset (replicate (length ops) false) ops ≡ ops
unset-replicate [] = refl
unset-replicate (o ∷ os) = ap (λ l. o ∷ l) (unset-replicate os)

pub done-unset :
    (bs : List Bool) (ops : List POp) → done bs ops ≡ true → All (λ o. o.ret ≡ none) (unset bs ops)
unfolding done completed
done-unset [] ops h = tt
done-unset (true ∷ bs) [] h = tt
done-unset (false ∷ bs) [] h = tt
done-unset (true ∷ bs) (o ∷ os) h = done-unset bs os (elim (Option-cases o.ret) [
  | inl nothing ↦ ground (arith, h, nothing)
  | inr (r, found) ↦ ground (arith, h, found)
])
done-unset (false ∷ bs) (o ∷ os) h = elim (Option-cases o.ret) [
  | inl nothing ↦ (nothing, done-unset bs os (ground (arith, h, nothing)))
  | inr (r, found) ↦ ground (arith, h, found)
]

-- A time that no response of the operations comes before.
abbrev pub NoneBefore : ℕ → List POp → Type 0
NoneBefore limit = All (λ o. (r : ℕ) → o.ret ≡ some r → limit ≤ r)

lower-le : (acc : ℕ) (o : Option ℕ) → (lower acc o ≤ acc) × ((r : ℕ) → o ≡ some r → lower acc o ≤ r)
unfolding lower
lower-le acc none = (omega arith, λ r h. cc)
lower-le acc (some x) = (omega arith, λ r h. ground (arith, h))

-- The limit is at most the time of every response that is still to be linearized.
pub min_ret-unset :
    (acc : ℕ) (bs : List Bool) (ops : List POp)
    → (min_ret acc bs ops ≤ acc) × NoneBefore (min_ret acc bs ops) (unset bs ops)
unfolding min_ret
min_ret-unset acc [] ops = (omega arith, tt)
min_ret-unset acc (true ∷ bs) [] = (omega arith, tt)
min_ret-unset acc (false ∷ bs) [] = (omega arith, tt)
min_ret-unset acc (true ∷ bs) (o ∷ os) = min_ret-unset acc bs os
min_ret-unset acc (false ∷ bs) (o ∷ os) =
    let (below, later) = min_ret-unset (lower acc o.ret) bs os in
    let (less, own) = lower-le acc o.ret in
    (omega (arith, below, less), (λ r h. omega (arith, below, own r h), later))

-- How a state that is pushed comes from the one that is expanded: an operation is taken from those that
-- are left, was not invoked after the limit, and the register answers it.
pub record Takes (limit : ℕ) (value : Option ℕ) (left left' : List POp) (value' : Option ℕ)
    : Type 0 where
  pub op : POp
  pub front : List POp
  pub back : List POp
  pub before : left ≡ front ++ op ∷ back
  pub after : left' ≡ front ++ back
  pub in_time : op.invoke ≤ limit
  pub step : Steps op.kind value value'

module _ (limit : ℕ) (value : Option ℕ) where
  abbrev pub TakesFrom : List Bool → List POp → State → Type 0
  TakesFrom bs ops s = Takes limit value (unset bs ops) (unset s.0 ops) s.1

  pass_set :
      (bs : List Bool) (o : POp) (os : List POp) (states : List State)
      → All (TakesFrom bs os) states
      → All (TakesFrom (true ∷ bs) (o ∷ os)) (map (λ (s : State). (true ∷ s.0, s.1)) states)
  pass_set bs o os [] h = tt
  pass_set bs o os (s ∷ states) h = (h.0, pass_set bs o os states h.1)

  pass_unset :
      (bs : List Bool) (o : POp) (os : List POp) (states : List State)
      → All (TakesFrom bs os) states
      → All (TakesFrom (false ∷ bs) (o ∷ os)) (map (λ (s : State). (false ∷ s.0, s.1)) states)
  pass_unset bs o os [] h = tt
  pass_unset bs o os (s ∷ states) h = (
    record {
      op = h.0.op;
      front = o ∷ h.0.front;
      back = h.0.back;
      before = ap (λ l. o ∷ l) h.0.before;
      after = ap (λ l. o ∷ l) h.0.after;
      in_time = h.0.in_time;
      step = h.0.step;
    },
    pass_unset bs o os states h.1,
  )

  pick_unset :
      (bs : List Bool) (o : POp) (os : List POp) (later : List State) (late : Bool)
      (applied : Option (Option ℕ))
      → ltb limit o.invoke ≡ late
      → try_apply o.kind value ≡ applied
      → All (TakesFrom (false ∷ bs) (o ∷ os)) later
      → All (TakesFrom (false ∷ bs) (o ∷ os)) (
          if late
          then later
          else elim applied [ none ↦ later | some new_value ↦ (true ∷ bs, new_value) ∷ later ])
  pick_unset bs o os later true applied l a h = h
  pick_unset bs o os later false none l a h = h
  pick_unset bs o os later false (some w) l a h = (
    record {
      op = o;
      front = [];
      back = unset bs os;
      before = refl;
      after = refl;
      in_time = ground arith;
      step = try_apply-Steps o.kind value w a;
    },
    h,
  )

  pub candidates-TakesFrom :
      (bs : List Bool) (ops : List POp) → All (TakesFrom bs ops) (candidates limit value bs ops)
  unfolding candidates
  candidates-TakesFrom [] ops = tt
  candidates-TakesFrom (true ∷ bs) [] = tt
  candidates-TakesFrom (false ∷ bs) [] = tt
  candidates-TakesFrom (true ∷ bs) (o ∷ os) =
      pass_set bs o os (candidates limit value bs os) (candidates-TakesFrom bs os)
  candidates-TakesFrom (false ∷ bs) (o ∷ os) =
      pick_unset bs o os (map (λ (s : State). (false ∷ s.0, s.1)) (candidates limit value bs os))
        (ltb limit o.invoke) (try_apply o.kind value) refl refl
        (pass_unset bs o os (candidates limit value bs os) (candidates-TakesFrom bs os))
