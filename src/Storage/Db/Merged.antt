-- ===== src/Storage/Db/Merged.antt =====
-- crates/storage/src/iter.rs, `MergeIter`, run to its end: all versions of its sources, in order.
use mathlib.Core.Option
use mathlib.Core.List.{Perm, perm_middle}
use mathlib.Core.List.Perm
use raft_kv_engine_project.Base.{
  ℕ, zero, suc, ◌≤◌, ◌≡◌, refl, sym, ap, ◌∙◌, subst, inl, inr, true, false, Option, none, some,
  List, [], ◌∷◌, ◌++◌, arith, All, All-append, All-split, Bool-cases, Option-cases, ◌>>=◌,
}
use raft_kv_engine_project.Base.Bytes.{
  bytes_eq, bytes_lt, bytes_eq_sound, bytes_lt_trans, bytes_lt_total,
}
use raft_kv_engine_project.Storage.MemTable.{Entry, before}
use raft_kv_engine_project.Storage.Merge
use raft_kv_engine_project.Storage.Merge.{MergeIter, best_from, next_of, next, takes}
use raft_kv_engine_project.Storage.Merge.Heads.{IsLeast, best_from-IsLeast, next-best, next-nothing}
use raft_kv_engine_project.Storage.SsTable.Layout.{all_entries}
use raft_kv_engine_project.Storage.Db.Reads.{merged, total}
use raft_kv_engine_project.Storage.Db.Ordered.{Follows, IsMerged}

Follows-trans : (x y z : Entry) → Follows x y → Follows y z → Follows x z
Follows-trans x y z (inl p) (inl q) = inl (bytes_lt_trans x.key y.key z.key p q)
Follows-trans x y z (inl p) (inr (q, _)) = inl (subst (λ k. bytes_lt x.key k ≡ true) q p)
Follows-trans x y z (inr (p, _)) (inl q) = inl (subst (λ k. bytes_lt k z.key ≡ true) (sym p) q)
Follows-trans x y z (inr (p, s)) (inr (q, t)) = inr (p ∙ q, omega (arith, s, t))

All-Follows :
    (x y : Entry) (zs : List Entry) → Follows x y → All (Follows y) zs → All (Follows x) zs
All-Follows x y [] f h = tt
All-Follows x y (z ∷ zs) f (g, h) = (Follows-trans x y z f g, All-Follows x y zs f h)

-- What does not come before an entry follows it.
Follows-least : (e x : Entry) → before x e.key e.seq ≡ false → Follows e x
unfolding before
Follows-least e x h = elim (Bool-cases (bytes_eq x.key e.key)) [
  | inl same ↦ inr (sym (bytes_eq_sound x.key e.key same), ground (arith, same, h))
  | inr other ↦ inl (bytes_lt_total x.key e.key other (ground (arith, h)))
]

-- All that is left in the sources follows what `next` yields.
none-some : {A : Type 0} {x : A} → none ≡ some x → ⊥
none-some h = cc

all-Follows :
    (e : Entry) (sources : List (List Entry))
    → All (IsLeast e) sources
    → All IsMerged sources
    → All (Follows e) (all_entries sources)
all-Follows e [] h o = tt
all-Follows e ([] ∷ sources) h o = all-Follows e sources h.1 o.1
all-Follows e ((x ∷ xs) ∷ sources) h o =
    let f = Follows-least e x h.0 in
    (
      f,
      All-append (Follows e) xs (all_entries sources) (All-Follows e x xs f o.0.0)
          (all-Follows e sources h.1 o.1),
    )

-- Taking the head of a source takes one version and leaves the others.
record Takes (sources : List (List Entry)) (e : Entry) (rest : List (List Entry)) : Type 1 where
  whole : Perm (e ∷ all_entries rest) (all_entries sources)
  fewer : total sources ≡ suc (total rest)
  ordered : All IsMerged sources → All IsMerged rest
  back : (P : Entry → Type 0) → P e → All P (all_entries rest) → All P (all_entries sources)
  here : (P : Entry → Type 0) → All P (all_entries sources) → P e
  each : (P : Entry → Type 0) → All P (all_entries sources) → All P (all_entries rest)

first-Takes :
    (x : Entry) (xs : List Entry) (sources : List (List Entry))
    → Takes ((x ∷ xs) ∷ sources) x (xs ∷ sources)
first-Takes x xs sources = record {
  whole = Perm.refl (x ∷ (xs ++ all_entries sources));
  fewer = omega arith;
  ordered = λ o. (o.0.1, o.1);
  back = λ P h k. (h, k);
  here = λ P h. h.0;
  each = λ P h. h.1;
}

later-Takes :
    (source : List Entry) (sources : List (List Entry)) (e : Entry) (rest : List (List Entry))
    → Takes sources e rest
    → Takes (source ∷ sources) e (source ∷ rest)
later-Takes source sources e rest t = record {
  whole =
      Perm.trans (Perm.symm (perm_middle source (all_entries rest)))
        (Perm.append_left source t.whole);
  fewer = omega (arith, t.fewer);
  ordered = λ o. (o.0, t.ordered o.1);
  back = λ P h k.
      let parts = All-split P source (all_entries rest) k in
      All-append P source (all_entries sources) parts.0 (t.back P h parts.1);
  here = λ P h. t.here P (All-split P source (all_entries sources) h).1;
  each = λ P h.
      let parts = All-split P source (all_entries sources) h in
      All-append P source (all_entries rest) parts.0 (t.each P parts.1);
}

next_of-Takes :
    (i : ℕ) (sources : List (List Entry)) (e : Entry) (rest : List (List Entry))
    → next_of i sources ≡ some (e, rest)
    → Takes sources e rest
unfolding next_of
next_of-Takes i [] e rest h = elim (none-some h) [ ]
next_of-Takes zero ([] ∷ sources) e rest h = elim (none-some h) [ ]
next_of-Takes zero ((x ∷ xs) ∷ sources) e rest h =
    subst (λ (p : Entry × List (List Entry)). Takes ((x ∷ xs) ∷ sources) p.0 p.1)
      (Option.some_inj.0 h) (first-Takes x xs sources)
next_of-Takes (suc i) (source ∷ sources) e rest h =
    from_later (next_of i sources) (λ rest' k. next_of-Takes i sources e rest' k) h
  where
    from_later :
        (o : Option (Entry × List (List Entry)))
        → ((rest' : List (List Entry)) → o ≡ some (e, rest') → Takes sources e rest')
        → ◌>>=◌ {B = Entry × List (List Entry)} o (λ taken. some (taken.0, source ∷ taken.1))
          ≡ some (e, rest)
        → Takes (source ∷ sources) e rest
    from_later none rec k = elim (none-some k) [ ]
    from_later (some (x, xs)) rec k =
        let p = Option.some_inj.0 k in
        subst (Takes (source ∷ sources) e) (ap (λ (q : Entry × List (List Entry)). q.1) p) (
          later-Takes source sources e xs
            (rec xs (ap (λ (q : Entry × List (List Entry)). some (q.0, xs)) p)))

nothing_left :
    (i : ℕ) (best : Option (ℕ × Entry)) (sources : List (List Entry))
    → best_from i best sources ≡ none
    → (best ≡ none) × (all_entries sources ≡ [])
unfolding best_from takes
nothing_left i best [] h = (h, refl)
nothing_left i best ([] ∷ sources) h = nothing_left (suc i) best sources h
nothing_left i best ((x ∷ xs) ∷ sources) h = elim (Bool-cases (takes best x)) [
  | inl better ↦
      elim (none-some
        (sym (nothing_left (suc i) (some (i, x)) sources (ground (arith, better, h))).0)) [ ]
  | inr worse ↦
      let rest = nothing_left (suc i) best sources (ground (arith, worse, h)) in
      elim (not_worse best rest.0 worse) [ ]
]
  where
    not_worse : (o : Option (ℕ × Entry)) → o ≡ none → takes o x ≡ false → ⊥
    not_worse none e w = cc
    not_worse (some b) e w = cc

pub record Merges (sources : List (List Entry)) (es : List Entry) : Type 1 where
  pub ordered : All IsMerged sources → IsMerged es
  pub whole : Perm es (all_entries sources)
  pub each : (P : Entry → Type 0) → All P (all_entries sources) → All P es
  pub back : (P : Entry → Type 0) → All P es → All P (all_entries sources)

empty-Merges : (sources : List (List Entry)) → all_entries sources ≡ [] → Merges sources []
empty-Merges sources h = record {
  ordered = λ o. tt;
  whole = subst (λ l. Perm [] l) (sym h) Perm.nil;
  each = λ P a. tt;
  back = λ P a. subst (All P) (sym h) tt;
}

all_spent : (sources : List (List Entry)) → total sources ≤ 0 → all_entries sources ≡ []
all_spent [] h = refl
all_spent ([] ∷ sources) h = all_spent sources (omega (arith, h))
all_spent ((x ∷ xs) ∷ sources) h = absurd (omega (arith, h))

pub merged-Merges :
    (calls : ℕ) (sources : List (List Entry))
    → total sources ≤ calls
    → Merges sources (merged calls (Merge.new sources))
unfolding merged
merged-Merges zero sources enough = empty-Merges sources (all_spent sources enough)
merged-Merges (suc calls) sources enough = elim (Option-cases (best_from 0 none sources)) [
  | inl nothing ↦
      subst
        (λ (o : Option (Entry × MergeIter)).
          Merges sources
            (elim o as (λ _. List Entry) [ none ↦ [] | some p ↦ p.0 ∷ merged calls p.1 ]))
        (sym (next-nothing (Merge.new sources) nothing))
        (empty-Merges sources (nothing_left 0 none sources nothing).1)
  | inr ((j, e), found) ↦
      let (rest, yields, taken) = next-best (Merge.new sources) j e found in
      let t = next_of-Takes j sources e rest taken in
      let m = merged-Merges calls rest (omega (arith, enough, t.fewer)) in
      rw (merged, yields)
        (record {
          ordered = λ o. (
            m.each (Follows e) (
                t.each (Follows e)
                  (all-Follows e sources (best_from-IsLeast 0 none sources j e found).0 o)),
            m.ordered (t.ordered o),
          );
          whole = Perm.trans (Perm.cons e m.whole) t.whole;
          each = λ P h. (t.here P h, m.each P (t.each P h));
          back = λ P h. t.back P h.0 (m.back P h.1);
        })
]

-- The merge of sources in order, run to its end, yields every version of every source once, and in
-- order: keys rise, and the numbers of a key fall or stay.
pub merged-IsMerged :
    (sources : List (List Entry))
    → All IsMerged sources
    → IsMerged (merged (total sources) (Merge.new sources))
      × Perm (merged (total sources) (Merge.new sources)) (all_entries sources)
merged-IsMerged sources o =
    let m = merged-Merges (total sources) sources (omega arith) in (m.ordered o, m.whole)
