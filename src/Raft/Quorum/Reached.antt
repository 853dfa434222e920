-- ===== src/Raft/Quorum/Reached.antt =====
-- crates/raft/src/node.rs: how many voters have reached a value, and what the leader picks.
use mathlib.Core.Option
use raft_kv_engine_project.Base.{
  ℕ, ◌+◌, ◌-◌, ◌/◌, ◌≤◌, ◌<◌, ◌≡◌, refl, sym, ◌∙◌, Bool-cases, inl, inr, Bool, true, false, Option,
  none, some, List, [], ◌∷◌, arith, ltb, leb, ◌==◌, if◌then◌else◌, length, count, map, get_or,
  get_elem?_within, count-le-length,
}
use raft_kv_engine_project.Base.BTreeMap
use raft_kv_engine_project.Base.Sort.{sort_desc, length-sort_desc, quorum-at_least, quorum-at_most}
use raft_kv_engine_project.Raft.Types.{NodeId}
use raft_kv_engine_project.Raft.Node.{
  RaftNode, Progress, voters, quorum, voter_values, quorum_value,
}

pub count_mono :
    (p q : ℕ → Bool) (xs : List ℕ) → ((x : ℕ) → p x ≡ true → q x ≡ true) → count p xs ≤ count q xs
count_mono p q [] h = omega arith
count_mono p q (x ∷ xs) h = ground (arith, count_mono p q xs h, h x)

pub count_same :
    (p q : NodeId → Bool) (xs : List NodeId) → ((x : NodeId) → p x ≡ q x) → count p xs ≡ count q xs
count_same p q [] h = refl
count_same p q (x ∷ xs) h = ground (arith, count_same p q xs h, h x)

count-map :
    (p : ℕ → Bool) (q : NodeId → Bool) (f : NodeId → ℕ) (xs : List NodeId)
    → ((x : NodeId) → p (f x) ≡ q x)
    → count p (map f xs) ≡ count q xs
count-map p q f [] h = refl
count-map p q f (x ∷ xs) h = ground (arith, count-map p q f xs h, h x)

length-map : (f : NodeId → ℕ) (xs : List NodeId) → length (map f xs) ≡ length xs
length-map f [] = refl
length-map f (x ∷ xs) = omega (arith, length-map f xs)

module _ (n : RaftNode) (own : ℕ) (field : Progress → ℕ) where
  -- The voter is the node itself, whose value is its own, or its progress is known and has come to `r`.
  abbrev pub has_reached : ℕ → NodeId → Bool
  has_reached r v =
      if v == n.cfg.id
      then leb r own
      else elim (BTreeMap.get n.prs v) [ none ↦ false | some p ↦ leb r (field p) ]

  count-has_reached :
      (r : ℕ) → 0 < r → count (leb r) (voter_values n own field) ≡ count (has_reached r) (voters n)
  unfolding voter_values
  count-has_reached r positive =
      count-map (leb r) (has_reached r)
        (λ v. if v == n.cfg.id then own else get_or (Option.map field (BTreeMap.get n.prs v)) 0)
        (voters n) (λ v. same (v == n.cfg.id) (BTreeMap.get n.prs v))
    where
      same :
          (self : Bool) (found : Option Progress)
          → leb r (if self then own else get_or (Option.map field found) 0)
            ≡ (if self then leb r own else elim found [ none ↦ false | some p ↦ leb r (field p) ])
      same true found = refl
      same false none = ground (arith, positive)
      same false (some p) = refl

  length-voter_values : length (voter_values n own field) ≡ length (voters n)
  unfolding voter_values
  length-voter_values =
      length-map
        (λ v. if v == n.cfg.id then own else get_or (Option.map field (BTreeMap.get n.prs v)) 0)
        (voters n)

  -- The picked value is the highest that a quorum of the voters has reached.
  pub quorum_value-has_reached :
      (r : ℕ)
      → 0 < r
      → (elim (quorum_value n own field) [ none ↦ false | some c ↦ leb r c ])
        ≡ leb (quorum n) (count (has_reached r) (voters n))
  unfolding quorum_value quorum
  quorum_value-has_reached r positive =
      let values = voter_values n own field in
      let q = length (voters n) / 2 + 1 in
      let counted = count-has_reached r positive in
      let sizes = length-voter_values in
      let sorted = length-sort_desc values in
      elim (Bool-cases (ltb (length (sort_desc values)) q)) [
        | inl few ↦
            let most = count-le-length (leb r) values in
            let no : leb q (count (has_reached r) (voters n)) ≡ false =
              ground (arith, few, most, sorted, counted) in
            rw (few, no) refl
        | inr enough ↦
            let (c, found) =
              get_elem?_within (sort_desc values) (q - 1) (ground (arith, enough, sorted, sizes)) in
            rw (enough, found)
              (elim (Bool-cases (leb r c)) [
                | inl under ↦
                    let at_least = quorum-at_least values q c (omega arith) found in
                    let more =
                      count_mono (leb c) (leb r) values (λ x h. ground (arith, under, h)) in
                    let yes : leb q (count (has_reached r) (voters n)) ≡ true =
                      ground (arith, at_least, more, counted) in
                    under ∙ sym yes
                | inr above ↦
                    let at_most =
                      quorum-at_most values q c r (omega arith) found (ground (arith, above)) in
                    let no : leb q (count (has_reached r) (voters n)) ≡ false =
                      ground (arith, at_most, counted) in
                    above ∙ sym no
              ])
      ]
