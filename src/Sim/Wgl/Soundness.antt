-- ===== src/Sim/Wgl/Soundness.antt =====
-- crates/sim/src/wgl.rs: that what the checker accepts has a linearization.
use mathlib.Core.List.{Perm}
use mathlib.Core.List.Perm
use raft_kv_engine_project.Base.{
  ◌≡◌, refl, Bool, true, false, none, List, [], ◌∷◌, arith, ltb, leb, ◌==◌, if◌then◌else◌, length,
  replicate,
}
use raft_kv_engine_project.Sim.Wgl.{
  POp, insert_op, sort_ops, accepted, too_many, search, check_key, expansion_budget,
}
use raft_kv_engine_project.Sim.Wgl.Order.{Linearization}
use raft_kv_engine_project.Sim.Wgl.Search.{start-Reached, search-Linearization}

insert_op-Perm : (o : POp) (os : List POp) → Perm (o ∷ os) (insert_op o os)
unfolding insert_op
insert_op-Perm o [] = Perm.refl (o ∷ [])
insert_op-Perm o (x ∷ xs) = place (insert_op-Perm o xs) (leb o.invoke x.invoke)
  where
    place :
        Perm (o ∷ xs) (insert_op o xs)
        → (b : Bool) → Perm (o ∷ x ∷ xs) (if b then o ∷ x ∷ xs else x ∷ insert_op o xs)
    place p true = Perm.refl (o ∷ x ∷ xs)
    place p false = Perm.trans (Perm.swap x o xs) (Perm.cons x p)

sort_ops-Perm : (ops : List POp) → Perm ops (sort_ops ops)
unfolding sort_ops
sort_ops-Perm [] = Perm.refl []
sort_ops-Perm (o ∷ os) =
    Perm.trans (Perm.cons o (sort_ops-Perm os)) (insert_op-Perm o (sort_ops os))

empty-Linearization : (ops : List POp) → (length ops == 0) ≡ true → Linearization ops
empty-Linearization [] h = record {
  order = [];
  left = [];
  last = none;
  whole = Perm.refl [];
  pending = tt;
  in_time = tt;
  runs = refl;
}
empty-Linearization (o ∷ os) h = absurd (ground (arith, h))

-- Operations that the checker accepts have an order that takes in every completed one of them and
-- possibly some pending ones, that agrees with real time, and in which each response is the one that a
-- register, empty at first, gives.
pub check_key-Linearization : (ops : List POp) → check_key ops ≡ accepted → Linearization ops
unfolding check_key
check_key-Linearization ops h =
    reorder (cases (length sorted == 0) (ltb 4096 (length sorted)) refl h)
  where
    sorted : List POp
    sorted = sort_ops ops

    reorder : Linearization sorted → Linearization ops
    reorder l = record {
      order = l.order;
      left = l.left;
      last = l.last;
      whole = Perm.trans (sort_ops-Perm ops) l.whole;
      pending = l.pending;
      in_time = l.in_time;
      runs = l.runs;
    }

    searched :
        search expansion_budget sorted [] ((replicate (length sorted) false, none) ∷ []) ≡ accepted
        → Linearization sorted
    searched e =
        search-Linearization sorted expansion_budget []
          ((replicate (length sorted) false, none) ∷ []) (start-Reached sorted, tt) e

    cases :
        (empty long : Bool)
        → (length sorted == 0) ≡ empty
        → (if empty
            then accepted
            else if long
            then too_many
            else search expansion_budget sorted [] ((replicate (length sorted) false, none) ∷ []))
          ≡ accepted
        → Linearization sorted
    cases true long z e = empty-Linearization sorted z
    cases false true z e = cc
    cases false false z e = searched e
