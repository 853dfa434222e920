-- ===== src/Storage/MemTable.antt =====
-- crates/storage/src/memtable.rs: the write buffer, a map ordered by key and then by falling
-- sequence number, as the list of its entries in that order. Lengths and sizes do not wrap.
pub mod Versions
use raft_kv_engine_project.Base.{
  ℕ, ◌+◌, ◌≤◌, ◌<◌, ◌≡◌, refl, Bool, true, false, not, ◌&&◌, ◌||◌, Option, none, some, List, [],
  ◌∷◌, arith, ltb, leb, ◌==◌, if◌then◌else◌, length, Bool-cases, inl, inr, ◌⊎◌,
}
use raft_kv_engine_project.Base.Bytes.{
  Bytes, bytes_eq, bytes_lt, bytes_eq_sound, bytes_eq_refl, bytes_lt_trans, bytes_lt_irrefl,
  bytes_lt_total,
}

-- A version of a key; a value of `none` is a tombstone.
pub record Entry : Type 0 where
  pub key : Bytes
  pub seq : ℕ
  pub value : Option Bytes

pub record MemTable : Type 0 where
  pub versions : List Entry
  pub bytes : ℕ

abbrev pub new : MemTable
new = record { versions = []; bytes = 0 }

-- The order of the map's keys `(key, Reverse(seq))`.
unfoldable pub before : Entry → Bytes → ℕ → Bool
before e key seq = bytes_lt e.key key || (bytes_eq e.key key && ltb seq e.seq)

unfoldable pub insert_version : Entry → List Entry → List Entry
insert_version e [] = e ∷ []
insert_version e (x ∷ xs) =
    let rest = insert_version e xs in
    if bytes_eq x.key e.key && x.seq == e.seq
    then e ∷ xs
    else if before x e.key e.seq
    then x ∷ rest
    else e ∷ x ∷ xs

unfoldable pub value_size : Option Bytes → ℕ
value_size none = 0
value_size (some v) = length v

unfoldable pub insert : MemTable → Bytes → ℕ → Option Bytes → MemTable
unfolding insert_version
insert m key seq value = record {
  versions = insert_version (record { key = key; seq = seq; value = value }) m.versions;
  bytes = m.bytes + (length key + value_size value + 24);
}

-- The first version at or after `(key, snapshot)`, if it is one of `key`.
unfoldable pub first_version : Bytes → ℕ → List Entry → Option (Option Bytes)
first_version key snapshot [] = none
first_version key snapshot (x ∷ xs) =
    let rest = first_version key snapshot xs in
    if before x key snapshot then rest else if bytes_eq x.key key then some x.value else none

unfoldable pub get : MemTable → Bytes → ℕ → Option (Option Bytes)
unfolding first_version
get m key snapshot = first_version key snapshot m.versions

unfoldable pub approx_bytes : MemTable → ℕ
approx_bytes m = m.bytes

-- Every version, in the order of the map.
unfoldable pub iter : MemTable → List Entry
iter m = m.versions

unfoldable pub len : MemTable → ℕ
len m = length m.versions

unfoldable pub is_empty : MemTable → Bool
is_empty m = elim m.versions [ [] ↦ true | _ ∷ _ ↦ false ]

-- Every version comes after `(key, seq)`.
abbrev pub After : Bytes → ℕ → List Entry → Type 0
After key seq [] = Unit
After key seq (x ∷ xs) =
    ((bytes_lt key x.key ≡ true) ⊎ ((key ≡ x.key) × (x.seq < seq))) × After key seq xs

-- The versions stand in the order of the map.
abbrev pub IsOrdered : List Entry → Type 0
IsOrdered [] = Unit
IsOrdered (x ∷ xs) = After x.key x.seq xs × IsOrdered xs

-- What a lookup of the newest version at or below the snapshot finds, in a list in any order: the
-- candidate with the highest sequence number.
abbrev pub newer_of : Bytes → ℕ → Entry → Option Entry → Option Entry
newer_of key snapshot x none = if bytes_eq x.key key && leb x.seq snapshot then some x else none
newer_of key snapshot x (some y) =
    if bytes_eq x.key key && leb x.seq snapshot && leb y.seq x.seq then some x else some y

abbrev pub newest : Bytes → ℕ → List Entry → Option Entry
newest key snapshot [] = none
newest key snapshot (x ∷ xs) = newer_of key snapshot x (newest key snapshot xs)
