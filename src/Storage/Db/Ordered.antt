-- ===== src/Storage/Db/Ordered.antt =====
-- crates/storage/src/iter.rs: versions in the order of a merge, and where the newest stands among them.
use raft_kv_engine_project.Base.{
  ℕ, ◌+◌, ◌≤◌, ◌≡◌, refl, sym, ◌∙◌, subst, ◌⊎◌, inl, inr, true, false, ◌&&◌, none, some, List, [],
  ◌∷◌, arith, leb, All, Bool-cases, Option-cases,
}
use raft_kv_engine_project.Base.Bytes.{
  Bytes, bytes_eq, bytes_lt, bytes_eq_sound, bytes_eq_refl, bytes_lt_irrefl, bytes_lt_trans,
}
use raft_kv_engine_project.Storage.MemTable.{Entry, newest}
use raft_kv_engine_project.Storage.MemTable.Versions.{IsNewest, newest_bound}

-- The order of a merge: keys rise, the numbers of a key fall or stay.
abbrev pub Follows : Entry → Entry → Type 0
Follows x y = (bytes_lt x.key y.key ≡ true) ⊎ ((x.key ≡ y.key) × (y.seq ≤ x.seq))

abbrev pub IsMerged : List Entry → Type 0
IsMerged [] = Unit
IsMerged (x ∷ xs) = All (Follows x) xs × IsMerged xs

module _ (key : Bytes) (snapshot : ℕ) where
  none_newer :
      (e : Entry) (xs : List Entry) → e.key ≡ key → All (Follows e) xs → IsNewest key (e.seq + 1) xs
  none_newer e [] k h = tt
  none_newer e (x ∷ xs) k (follows, h) = (
    λ same. elim follows [
      | inl later ↦
          let irrefl = bytes_lt_irrefl key in
          let loop : bytes_lt key key ≡ true =
            subst (λ j. bytes_lt key j ≡ true) (bytes_eq_sound x.key key same)
              (subst (λ j. bytes_lt j x.key ≡ true) k later) in
          cc
      | inr (j, older) ↦ omega (arith, older)
    ],
    none_newer e xs k h,
  )

  -- Behind a version of the key that the snapshot sees, nothing newer is found.
  pub newest_behind :
      (e : Entry) (xs : List Entry)
      → e.key ≡ key
      → e.seq ≤ snapshot
      → All (Follows e) xs
      → newest key snapshot (e ∷ xs) ≡ some e
  newest_behind e xs k visible h =
      let same : bytes_eq e.key key ≡ true =
        subst (λ j. bytes_eq j key ≡ true) (sym k) (bytes_eq_refl key) in
      elim (Option-cases (newest key snapshot xs)) [
        | inl nothing ↦ ground (arith, same, visible, nothing)
        | inr (y, found) ↦
            let bound = newest_bound key snapshot (e.seq + 1) xs y (none_newer e xs k h) found in
            ground (arith, same, visible, found, bound)
      ]

  pub not_found :
      (xs : List Entry) → All (λ x. bytes_eq x.key key ≡ false) xs → newest key snapshot xs ≡ none
  not_found [] h = refl
  not_found (x ∷ xs) h = ground (arith, h.0, not_found xs h.1)

  pub past_key : (k : Bytes) → bytes_lt key k ≡ true → bytes_eq k key ≡ false
  past_key k past = elim (Bool-cases (bytes_eq k key)) [
    | inr other ↦ other
    | inl same ↦
        let irrefl = bytes_lt_irrefl key in
        let loop : bytes_lt key key ≡ true =
          subst (λ j. bytes_lt key j ≡ true) (bytes_eq_sound k key same) past in
        cc
  ]

  later_key : (e x : Entry) → bytes_lt key e.key ≡ true → Follows e x → bytes_lt key x.key ≡ true
  later_key e x past (inl later) = bytes_lt_trans key e.key x.key past later
  later_key e x past (inr (same, _)) = subst (λ j. bytes_lt key j ≡ true) same past

  pub beyond :
      (e : Entry) (xs : List Entry)
      → bytes_lt key e.key ≡ true
      → All (Follows e) xs
      → All (λ x. bytes_eq x.key key ≡ false) xs
  beyond e [] past h = tt
  beyond e (x ∷ xs) past h = (past_key x.key (later_key e x past h.0), beyond e xs past h.1)

  -- A version that follows one of the key is an older one of it, or past the key.
  pub follower :
      (p e : Entry)
      → p.key ≡ key
      → Follows p e
      → ((e.key ≡ key) × (e.seq ≤ p.seq)) ⊎ (bytes_lt key e.key ≡ true)
  follower p e k (inl later) = inr (subst (λ j. bytes_lt j e.key ≡ true) k later)
  follower p e k (inr (same, older)) = inl (sym same ∙ k, older)

  pub invisible :
      (e : Entry) (xs : List Entry)
      → (bytes_eq e.key key && leb e.seq snapshot) ≡ false
      → newest key snapshot (e ∷ xs) ≡ newest key snapshot xs
  invisible e xs h = elim (Option-cases (newest key snapshot xs)) [
    | inl nothing ↦ ground (arith, nothing, h)
    | inr (y, found) ↦ ground (arith, found, h)
  ]
