-- ===== src/Storage/Merge/Heads.antt =====
-- crates/storage/src/iter.rs: the head that the merge takes.
use mathlib.Core.Option
use raft_kv_engine_project.Base.{
  ℕ, zero, suc, ◌+◌, ◌≡◌, refl, true, false, ◌&&◌, ◌||◌, Option, none, some, List, [], ◌∷◌, arith,
  ltb, All, Bool-cases, Option-cases, inl, inr, ◌⊎◌, subst, subst₂, sym, ap, ◌∙◌,
}
use raft_kv_engine_project.Base.Bytes.{
  Bytes, bytes_eq, bytes_lt, bytes_eq_sound, bytes_eq_refl, bytes_lt_trans, bytes_lt_irrefl,
  bytes_lt_total,
}
use raft_kv_engine_project.Storage.MemTable.{Entry, before}
use raft_kv_engine_project.Storage.Merge.{MergeIter, takes, best_from, next_of, next}

before_irrefl : (e : Entry) → before e e.key e.seq ≡ false
unfolding before
before_irrefl e = ground (arith, bytes_lt_irrefl e.key)

before_trans :
    (x y z : Entry)
    → before x y.key y.seq ≡ true
    → before y z.key z.seq ≡ true
    → before x z.key z.seq ≡ true
unfolding before
before_trans x y z p q = elim (Bool-cases (bytes_eq x.key y.key)) [
  | inl a ↦
      let e = bytes_eq_sound x.key y.key a in
      subst (λ k. bytes_lt k z.key || (bytes_eq k z.key && ltb z.seq x.seq) ≡ true) (sym e)
        (ground (
          arith,
          subst (λ k. bytes_lt k y.key || (bytes_eq k y.key && ltb y.seq x.seq) ≡ true) e p,
          q,
          bytes_lt_irrefl y.key,
        ))
  | inr a ↦ elim (Bool-cases (bytes_eq y.key z.key)) [
    | inl b ↦
        let e = bytes_eq_sound y.key z.key b in
        subst (λ k. bytes_lt x.key k || (bytes_eq x.key k && ltb z.seq x.seq) ≡ true) e
          (ground (arith, p, a))
    | inr b ↦ ground (arith, p, q, a, b, bytes_lt_trans x.key y.key z.key)
  ]
]

-- What is not before is the same place or after it.
before_total :
    (x y : Entry)
    → before x y.key y.seq ≡ false
    → (before y x.key x.seq ≡ true) ⊎ ((x.key ≡ y.key) × (x.seq ≡ y.seq))
unfolding before
before_total x y p = elim (Bool-cases (bytes_eq x.key y.key)) [
  | inl a ↦
      let e = bytes_eq_sound x.key y.key a in
      let eq : bytes_eq y.key x.key ≡ true =
        subst (λ k. bytes_eq y.key k ≡ true) (sym e) (bytes_eq_refl y.key) in
      elim (Bool-cases (ltb x.seq y.seq)) [
        | inl lower ↦ inl (ground (arith, eq, lower))
        | inr rest ↦ inr (e, ground (arith, rest, p, a))
      ]
  | inr a ↦ inl (ground (arith, p, a, bytes_lt_total x.key y.key a))
]

same_place :
    (x y z : Entry)
    → before x z.key z.seq ≡ true
    → before (record y { key = x.key; seq = x.seq }) z.key z.seq ≡ true
unfolding before
same_place x y z h = h

before_negtrans :
    (x y z : Entry)
    → before x y.key y.seq ≡ false
    → before y z.key z.seq ≡ false
    → before x z.key z.seq ≡ false
before_negtrans x y z p q = elim (Bool-cases (before x z.key z.seq)) [
  | inr after ↦ after
  | inl first ↦ elim (before_total x y p) [
    | inl later ↦ ground (arith, q, before_trans y x z later first)
    | inr (k, s) ↦ ground (
      arith,
      q,
      subst₂ (λ (k : Bytes) (s : ℕ). before (record y { key = k; seq = s }) z.key z.seq ≡ true) k s
          (same_place x y z first),
    )
  ]
]

-- The head of a source, if there is one, does not come before the entry.
abbrev pub IsLeast : Entry → List Entry → Type 0
IsLeast e [] = Unit
IsLeast e (x ∷ xs) = before x e.key e.seq ≡ false

abbrev StillLeast : Option (ℕ × Entry) → Entry → Type 0
StillLeast none e = Unit
StillLeast (some best) e = before best.1 e.key e.seq ≡ false

pub best_from-IsLeast :
    (i : ℕ) (best : Option (ℕ × Entry)) (sources : List (List Entry)) (j : ℕ) (e : Entry)
    → best_from i best sources ≡ some (j, e)
    → All (IsLeast e) sources × StillLeast best e
unfolding best_from takes
best_from-IsLeast i none [] j e h = cc
best_from-IsLeast i (some (k, y)) [] j e h = (
  tt,
  subst (λ (b : ℕ × Entry). before b.1 e.key e.seq ≡ false) (sym (Option.some_inj.0 h))
      (before_irrefl e),
)
best_from-IsLeast i best ([] ∷ sources) j e h =
    let rest = best_from-IsLeast (suc i) best sources j e h in ((tt, rest.0), rest.1)
best_from-IsLeast i none ((x ∷ xs) ∷ sources) j e h =
    let rest = best_from-IsLeast (suc i) (some (i, x)) sources j e h in ((rest.1, rest.0), tt)
best_from-IsLeast i (some (k, y)) ((x ∷ xs) ∷ sources) j e h =
    elim (Bool-cases (before x y.key y.seq)) [
      | inl better ↦
          let rest =
            best_from-IsLeast (suc i) (some (i, x)) sources j e (ground (arith, better, h)) in
          (
            (rest.1, rest.0),
            elim (Bool-cases (before y e.key e.seq)) [
              | inr after ↦ after
              | inl first ↦ ground (arith, rest.1, before_trans x y e better first)
            ],
          )
      | inr worse ↦
          let rest =
            best_from-IsLeast (suc i) (some (k, y)) sources j e (ground (arith, worse, h)) in
          ((before_negtrans x y e worse rest.1, rest.0), rest.1)
    ]

abbrev head_of : ℕ → List (List Entry) → Option Entry
head_of i [] = none
head_of zero ([] ∷ sources) = none
head_of zero ((x ∷ xs) ∷ sources) = some x
head_of (suc i) (source ∷ sources) = head_of i sources

best_from-head_of :
    (i : ℕ) (best : Option (ℕ × Entry)) (sources : List (List Entry)) (j : ℕ) (e : Entry)
    → best_from i best sources ≡ some (j, e)
    → (best ≡ some (j, e)) ⊎ ((k : ℕ) × ((j ≡ i + k) × (head_of k sources ≡ some e)))
unfolding best_from
best_from-head_of i best [] j e h = inl h
best_from-head_of i best ([] ∷ sources) j e h =
    elim (best_from-head_of (suc i) best sources j e h) [
      | inl same ↦ inl same
      | inr (k, (at, head)) ↦ inr (suc k, (omega (arith, at), head))
    ]
best_from-head_of i best ((x ∷ xs) ∷ sources) j e h = elim (Bool-cases (takes best x)) [
  | inl taken ↦
      elim (best_from-head_of (suc i) (some (i, x)) sources j e (ground (arith, taken, h))) [
        | inl same ↦
            let p = Option.some_inj.0 same in
            inr (
              0,
              (omega (arith, ap (λ (b : ℕ × Entry). b.0) p), ap (λ (b : ℕ × Entry). some b.1) p),
            )
        | inr (k, (at, head)) ↦ inr (suc k, (omega (arith, at), head))
      ]
  | inr left ↦ elim (best_from-head_of (suc i) best sources j e (ground (arith, left, h))) [
    | inl same ↦ inl same
    | inr (k, (at, head)) ↦ inr (suc k, (omega (arith, at), head))
  ]
]

next_of-head_of :
    (k : ℕ) (sources : List (List Entry)) (e : Entry)
    → head_of k sources ≡ some e
    → (rest : List (List Entry)) × (next_of k sources ≡ some (e, rest))
unfolding next_of
next_of-head_of k [] e h = ground (arith, h)
next_of-head_of zero ([] ∷ sources) e h = ground (arith, h)
next_of-head_of zero ((y ∷ ys) ∷ sources) e h =
    (ys ∷ sources, ap (λ (x : Entry). some (x, ys ∷ sources)) (Option.some_inj.0 h))
next_of-head_of (suc k) (source ∷ sources) e h =
    let found = next_of-head_of k sources e h in (source ∷ found.0, rw found.1 refl)

pub next-best :
    (it : MergeIter) (j : ℕ) (b : Entry)
    → best_from 0 none it.sources ≡ some (j, b)
    → (rest : List (List Entry)) × (next it ≡ some (b, record { sources = rest }))
      × (next_of j it.sources ≡ some (b, rest))
unfolding next
next-best it j b h = elim (best_from-head_of 0 none it.sources j b h) [
  | inl same ↦ ground (arith, same)
  | inr (k, (at, head)) ↦
      let e : j ≡ k = omega (arith, at) in
      let found =
        next_of-head_of j it.sources b (subst (λ i. head_of i it.sources ≡ some b) (sym e) head) in
      (found.0, rw (h, found.1) refl, found.1)
]

pub next-nothing : (it : MergeIter) → best_from 0 none it.sources ≡ none → next it ≡ none
unfolding next
next-nothing it h = rw h refl

-- The version that the merge yields is the first of all the versions its sources show: none of their
-- heads has a smaller key, or the same key and a higher sequence number.
pub next-IsLeast :
    (it : MergeIter) (e : Entry) (it' : MergeIter)
    → next it ≡ some (e, it')
    → All (IsLeast e) it.sources
next-IsLeast it e it' h = elim (Option-cases (best_from 0 none it.sources)) [
  | inl nothing ↦ ground (arith, h, next-nothing it nothing)
  | inr ((j, b), found) ↦
      let same : b ≡ e =
        ap (λ (p : Entry × MergeIter). p.0)
          (Option.some_inj.0 (sym (next-best it j b found).1 ∙ h)) in
      subst (λ x. All (IsLeast x) it.sources) same (best_from-IsLeast 0 none it.sources j b found).0
]
