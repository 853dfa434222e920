-- ===== src/Server/LogStore/Writes.antt =====
-- crates/server/src/logstore.rs: the keys of entries, and what a batch of deletions or of entries
-- leaves at one.
use raft_kv_engine_project.Base.{
  ℕ, zero, suc, ◌+◌, ◌*◌, ◌/◌, ◌%◌, ◌^◌, ◌≤◌, ◌<◌, ◌≡◌, refl, sym, ap, ◌∙◌, Bool, true, false,
  Option, none, some, List, [], ◌∷◌, ◌++◌, arith, ltb, leb, ◌==◌, ==_iff, if◌then◌else◌, ◌&&◌,
  get_elem?, length, drop,
}
use raft_kv_engine_project.Base.Bytes.{Bytes, bytes_eq, bytes_eq_sound, bytes_eq_refl}
use native.Mathlib.Nat.{pow-suc}
use raft_kv_engine_project.Raft.Types.{Entry, Index}
use raft_kv_engine_project.Raft.Log.Contiguous.{Contiguous}
use raft_kv_engine_project.Storage.Batch.{Op, last_write}
use raft_kv_engine_project.Server.LogStore.{Engine, Codec, to_be_bytes, entry_key, deletions, puts}

from_be_bytes : ℕ → Bytes → ℕ
from_be_bytes acc [] = acc
from_be_bytes acc (b ∷ bytes) = from_be_bytes (acc * 256 + b) bytes

from_be_bytes-snoc :
    (acc : ℕ) (bytes : Bytes) (b : ℕ)
    → from_be_bytes acc (bytes ++ b ∷ []) ≡ from_be_bytes acc bytes * 256 + b
unfolding from_be_bytes
from_be_bytes-snoc acc [] b = refl
from_be_bytes-snoc acc (x ∷ bytes) b = from_be_bytes-snoc (acc * 256 + x) bytes b

from_be_bytes-to_be_bytes :
    (width n : ℕ) → n < 256 ^ width → from_be_bytes 0 (to_be_bytes width n) ≡ n
unfolding from_be_bytes to_be_bytes
from_be_bytes-to_be_bytes zero n h = omega (arith, h)
from_be_bytes-to_be_bytes (suc width) n h =
    from_be_bytes-snoc 0 (to_be_bytes width (n / 256)) (n % 256)
    ∙ omega (arith, from_be_bytes-to_be_bytes width (n / 256) (smaller h))
  where
    smaller : n < 256 ^ suc width → n / 256 < 256 ^ width
    smaller l = omega (arith, l, pow-suc 256 width)

entry_key_injective : (i j : Index) → i < 2 ^ 64 → j < 2 ^ 64 → entry_key i ≡ entry_key j → i ≡ j
unfolding entry_key
entry_key_injective i j hi hj h =
    sym (from_be_bytes-to_be_bytes 8 i hi)
    ∙ (ap (λ (k : Bytes). from_be_bytes 0 (drop 2 k)) h ∙ from_be_bytes-to_be_bytes 8 j hj)

-- Indices of 64 bits have different keys.
pub same_key :
    (i j : Index) → i < 2 ^ 64 → j < 2 ^ 64 → bytes_eq (entry_key i) (entry_key j) ≡ (i == j)
same_key i j hi hj = compare_keys (i == j) (bytes_eq (entry_key i) (entry_key j)) refl refl
  where
    compare_keys : (a b : Bool) → (i == j) ≡ a → bytes_eq (entry_key i) (entry_key j) ≡ b → b ≡ a
    compare_keys true true same equal = refl
    compare_keys false false same equal = refl
    compare_keys true false same equal = absurd (
        true_not_false (
          sym (bytes_eq_refl (entry_key i))
          ∙ (ap (λ k. bytes_eq (entry_key i) (entry_key k)) ((==_iff i j).0 same) ∙ equal)))
      where
        true_not_false : true ≡ false → ⊥
        true_not_false e = cc
    compare_keys false true same equal =
        absurd
          (apart (entry_key_injective i j hi hj (bytes_eq_sound (entry_key i) (entry_key j) equal)))
      where
        apart : i ≡ j → ⊥
        apart e = ground (arith, same, e)

pub last_write-append :
    (xs ys : List Op) (key : Bytes) (old : Option Bytes)
    → last_write (xs ++ ys) key old ≡ last_write ys key (last_write xs key old)
last_write-append [] ys key old = refl
last_write-append ((k, v) ∷ xs) ys key old =
    last_write-append xs ys key (if bytes_eq k key then v else old)

-- Deletions empty the keys of their range and leave the others.
pub last_write-deletions :
    (n first i : ℕ) (old : Option Bytes)
    → i < 2 ^ 64
    → first + n ≤ 2 ^ 64
    → last_write (deletions n first) (entry_key i) old
      ≡ (if leb first i && ltb i (first + n) then none else old)
unfolding deletions
last_write-deletions zero first i old hi hn = ground arith
last_write-deletions (suc n) first i old hi hn =
    ap (λ b. last_write (deletions n (first + 1)) (entry_key i) (if b then none else old))
      (same_key first i (omega (arith, hn)) hi)
    ∙ (last_write-deletions n (first + 1) i (if first == i then none else old) hi
          (omega (arith, hn))
        ∙ ground arith)

module _ (engine : Engine) (codec : Codec) where
  -- What entries that follow a base leave at the key of an index.
  abbrev pub after_puts : List Entry → Index → Index → Option Bytes → Option Bytes
  after_puts [] base i old = old
  after_puts (e ∷ es) base i old =
      after_puts es (base + 1) i (if base + 1 == i then some (codec.ser_entry e) else old)

  pub last_write-puts :
      (es : List Entry) (base i : ℕ) (old : Option Bytes)
      → i < 2 ^ 64
      → base + length es < 2 ^ 64
      → Contiguous base es
      → last_write (puts engine codec es) (entry_key i) old ≡ after_puts es base i old
  last_write-puts [] base i old hi hn c = refl
  last_write-puts (e ∷ es) base i old hi hn c =
      ap
        (λ b.
          last_write (puts engine codec es) (entry_key i)
            (if b then some (codec.ser_entry e) else old))
        (same_key e.index i (omega (arith, hn, c.0)) hi ∙ ap (λ k. k == i) c.0)
      ∙ last_write-puts es (base + 1) i (if base + 1 == i then some (codec.ser_entry e) else old) hi
          (omega (arith, hn)) c.1

  -- The bytes of an entry, or what was there where there is no entry.
  abbrev pub or_old : Option Entry → Option Bytes → Option Bytes
  or_old none old = old
  or_old (some e) old = some (codec.ser_entry e)

  pub after_puts_below :
      (es : List Entry) (base i : ℕ) (old : Option Bytes)
      → i ≤ base
      → after_puts es base i old ≡ old
  after_puts_below [] base i old h = refl
  after_puts_below (e ∷ es) base i old h =
      after_puts_below es (base + 1) i (if base + 1 == i then some (codec.ser_entry e) else old)
        (omega (arith, h))
      ∙ ground (arith, h)

  pub after_puts_at :
      (es : List Entry) (base k : ℕ) (old : Option Bytes)
      → after_puts es base (base + 1 + k) old ≡ or_old (get_elem? es k) old
  after_puts_at [] base k old = refl
  after_puts_at (e ∷ es) base zero old =
      after_puts_below es (base + 1) (base + 1 + 0)
        (if base + 1 == base + 1 + 0 then some (codec.ser_entry e) else old) (omega arith)
      ∙ ground arith
  after_puts_at (e ∷ es) base (suc k) old =
      ap (λ i. after_puts (e ∷ es) base i old) {x = base + 1 + suc k} {y = base + 1 + 1 + k}
        (omega arith)
      ∙ (after_puts_at es (base + 1) k
            (if base + 1 == base + 1 + 1 + k then some (codec.ser_entry e) else old)
          ∙ ap (or_old (get_elem? es k)) (ground arith))
