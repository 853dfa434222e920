-- ===== src/Storage/MemTable/Versions.antt =====
-- crates/storage/src/memtable.rs: lookups and the newest version at a snapshot.
use mathlib.Core.Option
use raft_kv_engine_project.Base.{
  ℕ, ◌<◌, ◌≡◌, refl, true, ◌&&◌, Option, none, some, List, [], ◌∷◌, arith, leb, ◌==◌, if◌then◌else◌,
  Bool-cases, Option-cases, inl, inr, ◌⊎◌, subst, subst₂, ◌∙◌,
}
use raft_kv_engine_project.Base.Bytes.{
  Bytes, bytes_eq, bytes_lt, bytes_eq_sound, bytes_lt_trans, bytes_lt_irrefl, bytes_lt_total,
}
use raft_kv_engine_project.Storage.MemTable.{
  Entry, MemTable, before, insert_version, insert, first_version, get, After, IsOrdered, newest,
}

-- Past `(k, s)` there is no version of a smaller key.
pub newest_past :
    (key : Bytes) (snapshot : ℕ) (k : Bytes) (s : ℕ) (xs : List Entry)
    → bytes_lt key k ≡ true
    → After k s xs
    → newest key snapshot xs ≡ none
newest_past key snapshot k s [] h a = refl
newest_past key snapshot k s (x ∷ xs) h a = ground (
  arith,
  newest_past key snapshot k s xs h a.1,
  bytes_eq_sound x.key key,
  bytes_lt_trans key k x.key h,
  bytes_lt_irrefl key,
)

-- Past `(key, s)` the versions of the key are older than `s`.
pub newest_older :
    (key : Bytes) (snapshot s : ℕ) (xs : List Entry) (y : Entry)
    → After key s xs
    → newest key snapshot xs ≡ some y
    → y.seq < s
newest_older key snapshot s [] y a e = cc
newest_older key snapshot s (x ∷ xs) y a e =
    ground
      (arith, newest_older key snapshot s xs y a.1, bytes_eq_sound x.key key, bytes_lt_irrefl key)

first_version-newest :
    (key : Bytes) (snapshot : ℕ) (xs : List Entry)
    → IsOrdered xs
    → first_version key snapshot xs ≡ Option.map (λ x. x.value) (newest key snapshot xs)
unfolding first_version before
first_version-newest key snapshot [] h = refl
first_version-newest key snapshot (x ∷ xs) h = elim (Bool-cases (bytes_eq x.key key)) [
  | inl same ↦
      let e = bytes_eq_sound x.key key same in
      elim (Option-cases (newest key snapshot xs)) [
        | inl nothing ↦ ground (
          arith,
          nothing,
          e,
          bytes_lt_irrefl key,
          bytes_lt_irrefl x.key,
          first_version-newest key snapshot xs h.1,
        )
        | inr (y, found) ↦ ground (
          arith,
          found,
          e,
          bytes_lt_irrefl key,
          bytes_lt_irrefl x.key,
          newest_older key snapshot x.seq xs y (subst (λ k. After k x.seq xs) e h.0) found,
          first_version-newest key snapshot xs h.1,
        )
      ]
  | inr other ↦ ground (
    arith,
    first_version-newest key snapshot xs h.1,
    bytes_lt_total x.key key other,
    λ (past : bytes_lt key x.key ≡ true). newest_past key snapshot x.key x.seq xs past h.0,
  )
]

-- A lookup in an ordered table returns the value, or the tombstone, of the version of the key with
-- the highest sequence number at or below the snapshot, and nothing if there is no such version.
pub get-newest :
    (m : MemTable) (key : Bytes) (snapshot : ℕ)
    → IsOrdered m.versions
    → get m key snapshot ≡ Option.map (λ x. x.value) (newest key snapshot m.versions)
unfolding get
get-newest m key snapshot h = first_version-newest key snapshot m.versions h

After-insert_version :
    (key : Bytes) (seq : ℕ) (e : Entry) (xs : List Entry)
    → (bytes_lt key e.key ≡ true) ⊎ ((key ≡ e.key) × (e.seq < seq))
    → After key seq xs
    → After key seq (insert_version e xs)
unfolding insert_version
After-insert_version key seq e [] h a = (h, tt)
After-insert_version key seq e (x ∷ xs) h a =
    ground (arith, After-insert_version key seq e xs h a.1)

-- What comes after a later place comes after an earlier one.
After-trans :
    (k : Bytes) (s : ℕ) (key : Bytes) (seq : ℕ) (xs : List Entry)
    → (bytes_lt k key ≡ true) ⊎ ((k ≡ key) × (seq < s))
    → After key seq xs
    → After k s xs
After-trans k s key seq [] h a = tt
After-trans k s key seq (x ∷ xs) h a = (later h a.0, After-trans k s key seq xs h a.1)
  where
    later :
        (bytes_lt k key ≡ true) ⊎ ((k ≡ key) × (seq < s))
        → (bytes_lt key x.key ≡ true) ⊎ ((key ≡ x.key) × (x.seq < seq))
        → (bytes_lt k x.key ≡ true) ⊎ ((k ≡ x.key) × (x.seq < s))
    later (inl p) (inl q) = inl (bytes_lt_trans k key x.key p q)
    later (inl p) (inr q) = inl (rw (← q.0) p)
    later (inr p) (inl q) = inl (rw p.0 q)
    later (inr p) (inr q) = inr (p.0 ∙ q.0, omega (arith, p.1, q.1))

-- A write keeps the table in order.
pub insert_version-IsOrdered :
    (e : Entry) (xs : List Entry) → IsOrdered xs → IsOrdered (insert_version e xs)
unfolding insert_version before
insert_version-IsOrdered e [] h = (tt, tt)
insert_version-IsOrdered e (x ∷ xs) h = elim (Bool-cases (bytes_eq x.key e.key && x.seq == e.seq)) [
  | inl same ↦
      let k : x.key ≡ e.key = bytes_eq_sound x.key e.key (ground arith) in
      let s : x.seq ≡ e.seq = ground arith in rw same (subst₂ (λ k s. After k s xs) k s h.0, h.1)
  | inr differs ↦ rw differs (elim (Bool-cases (before x e.key e.seq)) [
    | inl first ↦
        rw (first, before)
          (
            After-insert_version x.key x.seq e xs
                (ground (arith, first, bytes_eq_sound x.key e.key)) h.0,
            insert_version-IsOrdered e xs h.1,
          )
    | inr second ↦
        let after : (bytes_lt e.key x.key ≡ true) ⊎ ((e.key ≡ x.key) × (x.seq < e.seq)) =
          ground (arith, second, differs, bytes_eq_sound x.key e.key, bytes_lt_total x.key e.key) in
        rw (second, before) ((after, After-trans e.key e.seq x.key x.seq xs after h.0), h)
  ])
]

-- Every version of the key is older than `seq`.
abbrev pub IsNewest : Bytes → ℕ → List Entry → Type 0
IsNewest key seq [] = Unit
IsNewest key seq (x ∷ xs) = (bytes_eq x.key key ≡ true → x.seq < seq) × IsNewest key seq xs

pub newest_bound :
    (key : Bytes) (snapshot seq : ℕ) (xs : List Entry) (y : Entry)
    → IsNewest key seq xs
    → newest key snapshot xs ≡ some y
    → y.seq < seq
newest_bound key snapshot seq [] y n e = cc
newest_bound key snapshot seq (x ∷ xs) y n e =
    ground (arith, n.0, newest_bound key snapshot seq xs y n.1)

pub newest-insert_version :
    (e : Entry) (key : Bytes) (snapshot : ℕ) (xs : List Entry)
    → IsNewest e.key e.seq xs
    → newest key snapshot (insert_version e xs)
      ≡ (if bytes_eq e.key key && leb e.seq snapshot then some e else newest key snapshot xs)
unfolding insert_version
newest-insert_version e key snapshot [] n = ground arith
newest-insert_version e key snapshot (x ∷ xs) n = elim (Bool-cases (bytes_eq e.key key)) [
  | inl same ↦
      let k = bytes_eq_sound e.key key same in
      elim (Option-cases (newest key snapshot xs)) [
        | inl nothing ↦ ground (arith, k, nothing, n.0, newest-insert_version e key snapshot xs n.1)
        | inr (y, found) ↦ ground (
          arith,
          k,
          found,
          n.0,
          newest_bound key snapshot e.seq xs y (subst (λ k. IsNewest k e.seq xs) k n.1) found,
          newest-insert_version e key snapshot xs n.1,
        )
      ]
  | inr other ↦ elim (Option-cases (newest key snapshot xs)) [
    | inl nothing ↦ ground (arith, nothing, n.0, newest-insert_version e key snapshot xs n.1)
    | inr (y, found) ↦ ground (arith, found, n.0, newest-insert_version e key snapshot xs n.1)
  ]
]

-- A write to an ordered table with a sequence number above those of its key keeps the table in
-- order, is seen by the lookups of its key at its number and above, and changes no other lookup: a
-- snapshot taken before the write still reads what it read.
pub get-insert :
    (m : MemTable) (k : Bytes) (seq : ℕ) (value : Option Bytes) (key : Bytes) (snapshot : ℕ)
    → IsOrdered m.versions
    → IsNewest k seq m.versions
    → IsOrdered (insert m k seq value).versions
      × (get (insert m k seq value) key snapshot
          ≡ (if bytes_eq k key && leb seq snapshot then some value else get m key snapshot))
unfolding insert
get-insert m k seq value key snapshot h n =
    let e : Entry = record { key = k; seq = seq; value = value } in
    let ordered = insert_version-IsOrdered e m.versions h in
    (
      ordered,
      ground (
        arith,
        get-newest (insert m k seq value) key snapshot ordered,
        get-newest m key snapshot h,
        newest-insert_version e key snapshot m.versions n,
      ),
    )
