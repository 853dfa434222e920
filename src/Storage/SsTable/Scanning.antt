-- ===== src/Storage/SsTable/Scanning.antt =====
-- crates/storage/src/sstable.rs: the scan of a block next to the newest version among entries.
use mathlib.Core.Option
use raft_kv_engine_project.Base.{
  ℕ, ◌≤◌, ◌≡◌, refl, ap, ◌∙◌, subst, true, false, Option, none, some, List, [], ◌∷◌, ◌++◌, arith,
  leb, All, Bool-cases, Option-cases, inl, inr,
}
use raft_kv_engine_project.Base.Bytes.{
  Bytes, bytes_eq, bytes_lt, bytes_eq_sound, bytes_eq_refl, bytes_lt_irrefl, bytes_lt_total,
}
use raft_kv_engine_project.Storage.MemTable.{Entry, After, IsOrdered, newest}
use raft_kv_engine_project.Storage.MemTable.Versions.{newest_past, newest_older}
use raft_kv_engine_project.Storage.SsTable.Reader.{Scan, hit, past, onward, scan_block}

-- What is looked for among entries: the number and the value of the newest visible version.
abbrev pub version : Entry → ℕ × Option Bytes
version e = (e.seq, e.value)

abbrev pub lookup : Bytes → ℕ → List Entry → Option (ℕ × Option Bytes)
lookup key snapshot es = Option.map version (newest key snapshot es)

-- What a scan comes to, given what the entries after the block come to.
abbrev pub settle : Scan → Option (ℕ × Option Bytes) → Option (ℕ × Option Bytes)
settle (hit seq value) later = some (seq, value)
settle past later = none
settle onward later = later

-- Entries of other keys are passed over.
pub newest_other :
    (key : Bytes) (snapshot : ℕ) (x : Entry) (es : List Entry)
    → bytes_eq x.key key ≡ false
    → newest key snapshot (x ∷ es) ≡ newest key snapshot es
newest_other key snapshot x es h = elim (Option-cases (newest key snapshot es)) [
  | inl nothing ↦ ground (arith, nothing, h)
  | inr (y, found) ↦ ground (arith, found, h)
]

pub newest_absent :
    (key : Bytes) (snapshot : ℕ) (es : List Entry)
    → All (λ e. bytes_eq e.key key ≡ false) es
    → newest key snapshot es ≡ none
newest_absent key snapshot [] h = refl
newest_absent key snapshot (x ∷ es) h =
    newest_other key snapshot x es h.0 ∙ newest_absent key snapshot es h.1

pub differs : (a b : Bytes) → bytes_lt a b ≡ true → bytes_eq a b ≡ false
differs a b h = elim (Bool-cases (bytes_eq a b)) [
  | inr no_match ↦ no_match
  | inl same ↦
      ground
        (arith, h, bytes_lt_irrefl b, subst (λ k. bytes_lt k b ≡ true) (bytes_eq_sound a b same) h)
]

pub exceeds : (a b : Bytes) → bytes_lt b a ≡ true → bytes_eq a b ≡ false
exceeds a b h = elim (Bool-cases (bytes_eq a b)) [
  | inr no_match ↦ no_match
  | inl same ↦
      ground
        (arith, h, bytes_lt_irrefl b, subst (λ k. bytes_lt b k ≡ true) (bytes_eq_sound a b same) h)
]

-- The entries from one of a greater key on have no version of the key.
pub newest_after :
    (key : Bytes) (snapshot : ℕ) (x : Entry) (es : List Entry)
    → bytes_lt key x.key ≡ true
    → IsOrdered (x ∷ es)
    → newest key snapshot (x ∷ es) ≡ none
newest_after key snapshot x es h o =
    newest_other key snapshot x es (exceeds x.key key h)
    ∙ newest_past key snapshot x.key x.seq es h o.0

-- The newest version is the first of its key that is visible.
newest_first :
    (key : Bytes) (snapshot : ℕ) (x : Entry) (es : List Entry)
    → x.key ≡ key
    → x.seq ≤ snapshot
    → IsOrdered (x ∷ es)
    → newest key snapshot (x ∷ es) ≡ some x
newest_first key snapshot x es e h o = elim (Option-cases (newest key snapshot es)) [
  | inl nothing ↦
      ground (arith, nothing, h, e, subst (λ k. bytes_eq x.key k ≡ true) e (bytes_eq_refl x.key))
  | inr (y, found) ↦ ground (
    arith,
    found,
    h,
    subst (λ k. bytes_eq x.key k ≡ true) e (bytes_eq_refl x.key),
    newest_older key snapshot x.seq es y (subst (λ k. After k x.seq es) e o.0) found,
  )
]

newest_late :
    (key : Bytes) (snapshot : ℕ) (x : Entry) (es : List Entry)
    → leb x.seq snapshot ≡ false
    → newest key snapshot (x ∷ es) ≡ newest key snapshot es
newest_late key snapshot x es h = elim (Option-cases (newest key snapshot es)) [
  | inl nothing ↦ ground (arith, nothing, h)
  | inr (y, found) ↦ ground (arith, found, h)
]

pub scan_block-lookup :
    (key : Bytes) (snapshot : ℕ) (es later : List Entry)
    → IsOrdered (es ++ later)
    → lookup key snapshot (es ++ later)
      ≡ settle (scan_block key snapshot es) (lookup key snapshot later)
unfolding scan_block
scan_block-lookup key snapshot [] later o = refl
scan_block-lookup key snapshot (x ∷ es) later o = elim (Bool-cases (bytes_lt x.key key)) [
  | inl before ↦ rw before (
      ap (Option.map version) (newest_other key snapshot x (es ++ later) (differs x.key key before))
      ∙ scan_block-lookup key snapshot es later o.1)
  | inr not_before ↦ rw not_before (elim (Bool-cases (bytes_eq x.key key)) [
    | inr other ↦ rw other (
        ap (Option.map version)
          (newest_after key snapshot x (es ++ later) (bytes_lt_total x.key key other not_before) o))
    | inl same ↦ rw same (elim (Bool-cases (leb x.seq snapshot)) [
      | inl visible ↦ rw visible (
          ap (Option.map version) (
            newest_first key snapshot x (es ++ later) (bytes_eq_sound x.key key same)
              (ground (arith, visible)) o))
      | inr late ↦ rw late (
          ap (Option.map version) (newest_late key snapshot x (es ++ later) late)
          ∙ scan_block-lookup key snapshot es later o.1)
    ])
  ])
]
