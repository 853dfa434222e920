-- ===== src/Sim/Wgl/Search.antt =====
-- crates/sim/src/wgl.rs: what a state of the search stands for, and that a search that
-- accepts has found a linearization.
use mathlib.Core.List.{Perm, perm_middle}
use mathlib.Core.List.Perm
use raft_kv_engine_project.Base.{
  ℕ, zero, suc, ◌≤◌, ◌≡◌, refl, sym, ap, subst, subst₂, Bool, true, false, Option, none, some, List,
  [], ◌∷◌, ◌++◌, append_assoc, arith, if◌then◌else◌, length, replicate, All, All-append, All-split,
  All-map,
}
use raft_kv_engine_project.Sim.Wgl.{
  POp, u64_max, State, done, min_ret, candidates, push_all, seen, Popped, finished, exhausted,
  fresh, pop_fresh, accepted, over_budget, rejected, expand, search,
}
use raft_kv_engine_project.Sim.Wgl.Order.{Steps, Runs, MayPrecede, InRealTime, Linearization}
use raft_kv_engine_project.Sim.Wgl.Masks.{
  unset, unset-replicate, done-unset, NoneBefore, min_ret-unset, TakesFrom, candidates-TakesFrom,
}

Runs-snoc :
    (v w u : Option ℕ) (os : List POp) (o : POp)
    → Runs v os w
    → Steps o.kind w u
    → Runs v (os ++ o ∷ []) u
Runs-snoc v w u [] o r s = (u, subst (λ x. Steps o.kind x u) (sym r) s, refl)
Runs-snoc v w u (x ∷ os) o (y, s0, r) s = (y, s0, Runs-snoc y w u os o r s)

InRealTime-snoc :
    (os : List POp) (o : POp)
    → InRealTime os
    → All (λ x. MayPrecede x o) os
    → InRealTime (os ++ o ∷ [])
InRealTime-snoc [] o t h = (tt, tt)
InRealTime-snoc (x ∷ os) o t h =
    (All-append (MayPrecede x) os (o ∷ []) t.0 (h.0, tt), InRealTime-snoc os o t.1 h.1)

-- What a state stands for: an order of the operations whose bits are set, with its contents last, that
-- the operations that are left may follow.
pub record Reached (ops : List POp) (s : State) : Type 0 where
  order : List POp
  whole : Perm ops (order ++ unset s.0 ops)
  in_time : InRealTime order
  ahead : All (λ o. All (MayPrecede o) (unset s.0 ops)) order
  runs : Runs none order s.1

All-picked :
    (P : POp → Type 0) (front : List POp) (o : POp) (back : List POp)
    → All P (front ++ o ∷ back)
    → P o × All P (front ++ back)
All-picked P front o back h =
    let parts = All-split P front (o ∷ back) h in
    (parts.1.0, All-append P front back parts.0 parts.1.1)

module _ (ops : List POp) where
  -- Taking an operation from those that are left extends the order by it.
  Takes-Reached :
      (limit : ℕ) (s next : State)
      → Reached ops s
      → NoneBefore limit (unset s.0 ops)
      → TakesFrom limit s.1 s.0 ops next
      → Reached ops next
  Takes-Reached limit s next r least t = record {
    order = r.order ++ t.op ∷ [];
    whole =
        subst (λ l. Perm ops l) (sym (append_assoc r.order (t.op ∷ []) (unset next.0 ops)))
          (Perm.trans r.whole (Perm.append_left r.order picked));
    in_time = InRealTime-snoc r.order t.op r.in_time (
        All-map (λ x. All (MayPrecede x) (unset s.0 ops)) (λ x. MayPrecede x t.op) r.order
          (λ x h. (split x h).0) r.ahead);
    ahead =
        All-append (λ x. All (MayPrecede x) (unset next.0 ops)) r.order (t.op ∷ [])
          (All-map (λ x. All (MayPrecede x) (unset s.0 ops))
            (λ x. All (MayPrecede x) (unset next.0 ops)) r.order (λ x h. (split x h).1) r.ahead)
          ((split t.op first).1, tt);
    runs = Runs-snoc none s.1 next.1 r.order t.op r.runs t.step;
  }
    where
      picked : Perm (unset s.0 ops) (t.op ∷ unset next.0 ops)
      picked =
          subst₂ (λ k l. Perm k l) (sym t.before) (ap (λ l. t.op ∷ l) (sym t.after))
            (perm_middle t.front t.back)

      split :
          (x : POp)
          → All (MayPrecede x) (unset s.0 ops)
          → MayPrecede x t.op × All (MayPrecede x) (unset next.0 ops)
      split x h =
          let parts =
            All-picked (MayPrecede x) t.front t.op t.back
              (subst (λ l. All (MayPrecede x) l) t.before h) in
          (parts.0, subst (λ l. All (MayPrecede x) l) (sym t.after) parts.1)

      first : All (MayPrecede t.op) (unset s.0 ops)
      first =
          All-map (λ o. (r : ℕ) → o.ret ≡ some r → limit ≤ r) (MayPrecede t.op) (unset s.0 ops)
            (λ o f r e. omega (arith, f r e, t.in_time)) least

  All-Reached :
      (limit : ℕ) (s : State) (states : List State)
      → Reached ops s
      → NoneBefore limit (unset s.0 ops)
      → All (TakesFrom limit s.1 s.0 ops) states
      → All (Reached ops) states
  All-Reached limit s states r least h =
      All-map (TakesFrom limit s.1 s.0 ops) (Reached ops) states
        (λ next t. Takes-Reached limit s next r least t) h

  push_all-Reached :
      (states stack : List State)
      → All (Reached ops) states
      → All (Reached ops) stack
      → All (Reached ops) (push_all states stack)
  unfolding push_all
  push_all-Reached [] stack h k = k
  push_all-Reached (s ∷ states) stack h k = push_all-Reached states (s ∷ stack) h.1 (h.0, k)

  expand-Reached :
      (s : State) (stack : List State)
      → Reached ops s
      → All (Reached ops) stack
      → All (Reached ops) (expand ops s stack)
  unfolding expand
  expand-Reached s stack r h =
      let limit = min_ret u64_max s.0 ops in
      push_all-Reached (candidates limit s.1 s.0 ops) stack
        (All-Reached limit s (candidates limit s.1 s.0 ops) r (min_ret-unset u64_max s.0 ops).1
          (candidates-TakesFrom limit s.1 s.0 ops))
        h

  done-Linearization : (s : State) → Reached ops s → done s.0 ops ≡ true → Linearization ops
  done-Linearization s r h = record {
    order = r.order;
    left = unset s.0 ops;
    last = s.1;
    whole = r.whole;
    pending = done-unset s.0 ops h;
    in_time = r.in_time;
    runs = r.runs;
  }

  -- What the states on the stack make of the outcome of popping them.
  abbrev Meaning : Popped → Type 0
  Meaning finished = Linearization ops
  Meaning exhausted = Unit
  Meaning (fresh s rest) = Reached ops s × All (Reached ops) rest

  pop_fresh-Meaning :
      (memo stack : List State) → All (Reached ops) stack → Meaning (pop_fresh ops memo stack)
  unfolding pop_fresh
  pop_fresh-Meaning memo [] h = tt
  pop_fresh-Meaning memo (s ∷ stack) h =
      choose (done s.0 ops) (seen memo s) refl (pop_fresh-Meaning memo stack h.1)
    where
      choose :
          (whole known : Bool)
          → done s.0 ops ≡ whole
          → Meaning (pop_fresh ops memo stack)
          → Meaning (
              if whole then finished else if known then pop_fresh ops memo stack else fresh s stack)
      choose true known e m = done-Linearization s h.0 e
      choose false true e m = m
      choose false false e m = h

  pub search-Linearization :
      (left : ℕ) (memo stack : List State)
      → All (Reached ops) stack
      → search left ops memo stack ≡ accepted
      → Linearization ops
  unfolding search
  search-Linearization zero memo stack h e =
      last_round (pop_fresh ops memo stack) (pop_fresh-Meaning memo stack h) e
    where
      last_round :
          (p : Popped)
          → Meaning p
          → (elim p [ finished ↦ accepted | exhausted ↦ rejected | fresh s rest ↦ over_budget ])
            ≡ accepted
          → Linearization ops
      last_round finished m e = m
      last_round exhausted m e = cc
      last_round (fresh s rest) m e = cc
  search-Linearization (suc left) memo stack h e =
      round (λ s rest k. search-Linearization left (s ∷ memo) (expand ops s rest) k)
        (pop_fresh ops memo stack) (pop_fresh-Meaning memo stack h) e
    where
      round :
          ((s : State) (rest : List State)
            → All (Reached ops) (expand ops s rest)
            → search left ops (s ∷ memo) (expand ops s rest) ≡ accepted
            → Linearization ops)
          → (p : Popped) → Meaning p
          → (elim p [
            | finished ↦ accepted
            | exhausted ↦ rejected
            | fresh s rest ↦ search left ops (s ∷ memo) (expand ops s rest)
          ])
            ≡ accepted
          → Linearization ops
      round further finished m e = m
      round further exhausted m e = cc
      round further (fresh s rest) m e = further s rest (expand-Reached s rest m.0 m.1) e

  pub start-Reached : Reached ops (replicate (length ops) false, none)
  start-Reached = record {
    order = [];
    whole = subst (λ l. Perm ops l) (sym (unset-replicate ops)) (Perm.refl ops);
    in_time = tt;
    ahead = tt;
    runs = refl;
  }
