-- ===== src/Storage/Visible/PointReads.antt =====
-- crates/storage/src/iter.rs: scans of a table next to its point reads.
use mathlib.Core.Option
use raft_kv_engine_project.Base.{
  ℕ, zero, suc, ◌≤◌, ◌≡◌, refl, sym, ap, ◌∙◌, true, false, ◌||◌, Option, none, some, List, [], ◌∷◌,
  arith, ltb, if◌then◌else◌, length, Bool-cases, Option-cases, inl, inr, subst,
}
use raft_kv_engine_project.Base.Bytes.{Bytes, bytes_eq, bytes_eq_sound}
use raft_kv_engine_project.Storage.MemTable.{Entry, MemTable, get, iter, After, IsOrdered, newest}
use raft_kv_engine_project.Storage.MemTable.Versions.{newest_older, get-newest}
use raft_kv_engine_project.Storage.Visible.{
  VisibleIter, is_current, next_from, next, collect, lookup, new,
}

-- What the filter keeps, in one pass.
abbrev kept : ℕ → Option Bytes → List Entry → List (Bytes × Option Bytes)
kept snapshot current [] = []
kept snapshot current (x ∷ xs) =
    let skipped = kept snapshot current xs in
    let taken = kept snapshot (some x.key) xs in
    if is_current current x.key
    then skipped
    else if ltb snapshot x.seq
    then skipped
    else (x.key, x.value) ∷ taken

abbrev Step : Type 0
Step = Option ((Bytes × Option Bytes) × VisibleIter)

collect-next :
    (fuel : ℕ) (it it' : VisibleIter)
    → next it ≡ next it'
    → collect (suc fuel) it ≡ collect (suc fuel) it'
unfolding collect
collect-next fuel it it' e =
    ap
      (λ (n : Step). elim n as (λ _. List (Bytes × Option Bytes)) [
        | none ↦ []
        | some p ↦ p.0 ∷ collect fuel p.1
      ])
      e

collect-some :
    (fuel : ℕ) (it it' : VisibleIter) (item : Bytes × Option Bytes)
    → next it ≡ some (item, it')
    → collect (suc fuel) it ≡ item ∷ collect fuel it'
unfolding collect
collect-some fuel it it' item e =
    ap
      (λ (n : Step). elim n as (λ _. List (Bytes × Option Bytes)) [
        | none ↦ []
        | some p ↦ p.0 ∷ collect fuel p.1
      ])
      e

abbrev from : ℕ → Option Bytes → List Entry → VisibleIter
from snapshot current xs = record { inner = xs; snapshot = snapshot; current_key = current }

next-skip :
    (snapshot : ℕ) (current : Option Bytes) (x : Entry) (xs : List Entry)
    → is_current current x.key || ltb snapshot x.seq ≡ true
    → next (from snapshot current (x ∷ xs)) ≡ next (from snapshot current xs)
unfolding next next_from
next-skip snapshot current x xs h = ground (arith, h)

next-take :
    (snapshot : ℕ) (current : Option Bytes) (x : Entry) (xs : List Entry)
    → is_current current x.key ≡ false
    → ltb snapshot x.seq ≡ false
    → next (from snapshot current (x ∷ xs)) ≡ some ((x.key, x.value), from snapshot (some x.key) xs)
unfolding next next_from
next-take snapshot current x xs c h = rw c (rw h refl)

-- Enough calls yield all of it.
collect-kept :
    (fuel snapshot : ℕ) (current : Option Bytes) (xs : List Entry)
    → length xs ≤ fuel
    → collect fuel (from snapshot current xs) ≡ kept snapshot current xs
unfolding collect next next_from
collect-kept zero snapshot current [] l = refl
collect-kept (suc fuel) snapshot current [] l = refl
collect-kept zero snapshot current (x ∷ xs) l = absurd (omega (arith, l))
collect-kept (suc fuel) snapshot current (x ∷ xs) l =
    let shorter : length xs ≤ suc fuel = omega (arith, l) in
    elim (Bool-cases (is_current current x.key)) [
      | inl seen ↦
          collect-next fuel (from snapshot current (x ∷ xs)) (from snapshot current xs)
            (next-skip snapshot current x xs (rw seen refl))
          ∙ collect-kept (suc fuel) snapshot current xs shorter
          ∙ ground (arith, seen)
      | inr unseen ↦ elim (Bool-cases (ltb snapshot x.seq)) [
        | inl late ↦
            collect-next fuel (from snapshot current (x ∷ xs)) (from snapshot current xs)
              (next-skip snapshot current x xs (rw (unseen, late) refl))
            ∙ collect-kept (suc fuel) snapshot current xs shorter
            ∙ ground (arith, unseen, late)
        | inr early ↦
            collect-some fuel (from snapshot current (x ∷ xs)) (from snapshot (some x.key) xs)
              (x.key, x.value) (next-take snapshot current x xs unseen early)
            ∙ ap (λ rest. (x.key, x.value) ∷ rest)
                (collect-kept fuel snapshot (some x.key) xs (omega (arith, l)))
            ∙ ground (arith, unseen, early)
      ]
    ]

lookup-kept :
    (key : Bytes) (snapshot : ℕ) (current : Option Bytes) (xs : List Entry)
    → is_current current key ≡ false
    → IsOrdered xs
    → lookup key (kept snapshot current xs) ≡ Option.map (λ x. x.value) (newest key snapshot xs)
unfolding lookup is_current
lookup-kept key snapshot current [] c h = refl
lookup-kept key snapshot current (x ∷ xs) c h = elim (Bool-cases (bytes_eq x.key key)) [
  | inl same ↦
      let e = bytes_eq_sound x.key key same in
      let unseen : is_current current x.key ≡ false =
        subst (λ k. is_current current k ≡ false) (sym e) c in
      let rest = lookup-kept key snapshot current xs c h.1 in
      elim (Option-cases (newest key snapshot xs)) [
        | inl nothing ↦ ground (arith, same, unseen, nothing, rest)
        | inr (y, found) ↦ ground (
          arith,
          same,
          unseen,
          found,
          rest,
          newest_older key snapshot x.seq xs y (subst (λ k. After k x.seq xs) e h.0) found,
        )
      ]
  | inr other ↦ ground (
    arith,
    other,
    lookup-kept key snapshot current xs c h.1,
    lookup-kept key snapshot (some x.key) xs other h.1,
  )
]

-- A scan of an ordered table at a snapshot, collected in at least as many calls as it has versions,
-- gives each key what a lookup of the key at that snapshot gives: its value, its tombstone, or
-- nothing.
pub lookup-collect :
    (m : MemTable) (key : Bytes) (snapshot fuel : ℕ)
    → IsOrdered m.versions
    → length m.versions ≤ fuel
    → lookup key (collect fuel (new (iter m) snapshot)) ≡ get m key snapshot
unfolding is_current iter
lookup-collect m key snapshot fuel h l =
    ap (lookup key) (collect-kept fuel snapshot none m.versions l)
    ∙ lookup-kept key snapshot none m.versions refl h
    ∙ sym (get-newest m key snapshot h)
