-- ===== src/Storage/Bloom.antt =====
-- crates/storage/src/bloom.rs: the Bloom filter. The u64 arithmetic of the hashes and of the probe
-- position wraps; a bit is found in its byte. The product by the float 0.69, which gives the number
-- of probes before it is clamped, is a parameter. Every value of it allows the proofs.
use Prim.Native.Nat.{bit_xor, bit_or, bit_and}
use raft_kv_engine_project.Base.{
  ℕ, zero, suc, ◌+◌, ◌-◌, ◌*◌, ◌/◌, ◌%◌, ◌^◌, ◌≤◌, ◌<◌, min, max, ◌≡◌, refl, Bool, true, false, not,
  ◌&&◌, List, [], ◌∷◌, arith, ltb, ◌==◌, if◌then◌else◌, length, set, get_or_else, replicate, All,
  Option, none, some, ◌++◌,
}
use raft_kv_engine_project.Base.Bytes.{Bytes}
pub mod NoFalseNegatives
pub mod Coding

abbrev word : ℕ
word = 2 ^ 64

unfoldable pub fnv1a_from : ℕ → Bytes → ℕ
fnv1a_from h [] = h
fnv1a_from h (b ∷ bytes) = fnv1a_from (bit_xor h b * 0x100000001b3 % 2 ^ 64) bytes

unfoldable pub fnv1a : Bytes → ℕ
unfolding fnv1a_from
fnv1a bytes = fnv1a_from 0xcbf29ce484222325 bytes

unfoldable pub mix : ℕ → ℕ
mix x0 =
    let x1 = bit_xor x0 (x0 / 2 ^ 30) * 0xbf58476d1ce4e5b9 % 2 ^ 64 in
    let x2 = bit_xor x1 (x1 / 2 ^ 27) * 0x94d049bb133111eb % 2 ^ 64 in bit_xor x2 (x2 / 2 ^ 31)

pub record BloomFilter : Type 0 where
  pub k : ℕ
  pub bits : List ℕ

-- `self.bits[bit / 8] |= 1 << (bit % 8)`.
unfoldable pub set_bit : List ℕ → ℕ → List ℕ
set_bit bits bit = set bits (bit / 8) (bit_or (get_or_else bits (bit / 8) 0) (2 ^ (bit % 8)))

-- `self.bits[bit / 8] & (1 << (bit % 8)) != 0`.
unfoldable pub test_bit : List ℕ → ℕ → Bool
test_bit bits bit = not (bit_and (get_or_else bits (bit / 8) 0) (2 ^ (bit % 8)) == 0)

-- The loop of `add_hash`, with its rounds left.
unfoldable pub add_probes : ℕ → ℕ → ℕ → ℕ → List ℕ → List ℕ
add_probes zero nbits h2 pos bits = bits
add_probes (suc rounds) nbits h2 pos bits =
    add_probes rounds nbits h2 ((pos + h2) % 2 ^ 64) (set_bit bits (pos % nbits))

unfoldable pub add_hash : BloomFilter → ℕ → BloomFilter
add_hash f h1 = record f { bits = add_probes f.k (length f.bits * 8) (bit_or (mix h1) 1) h1 f.bits }

unfoldable pub add_hashes : BloomFilter → List ℕ → BloomFilter
add_hashes f [] = f
add_hashes f (h ∷ hs) = add_hashes (add_hash f h) hs

-- The filter of the right size with no bit set.
unfoldable pub empty_filter : (ℕ → ℕ) → ℕ → ℕ → BloomFilter
empty_filter scaled count bits_per_key =
    let nbits = (max (count * bits_per_key) 64 + 7) / 8 * 8 in
    record { k = min (max (scaled bits_per_key) 1) 30; bits = replicate (nbits / 8) 0 }

unfoldable pub from_hashes : (ℕ → ℕ) → List ℕ → ℕ → BloomFilter
from_hashes scaled hashes bits_per_key =
    add_hashes (empty_filter scaled (length hashes) bits_per_key) hashes

-- The loop of `may_contain`.
unfoldable pub probes_set : ℕ → ℕ → ℕ → ℕ → List ℕ → Bool
probes_set zero nbits h2 pos bits = true
probes_set (suc rounds) nbits h2 pos bits =
    let rest = probes_set rounds nbits h2 ((pos + h2) % 2 ^ 64) bits in
    if test_bit bits (pos % nbits) then rest else false

unfoldable pub may_contain : BloomFilter → Bytes → Bool
may_contain f key =
    let h1 = fnv1a key in probes_set f.k (length f.bits * 8) (bit_or (mix h1) 1) h1 f.bits

-- `u32::to_le_bytes`.
unfoldable pub to_le_bytes : ℕ → Bytes
to_le_bytes n = n % 256 ∷ n / 256 % 256 ∷ n / 65536 % 256 ∷ n / 16777216 % 256 ∷ []

unfoldable pub encode : BloomFilter → Bytes
unfolding to_le_bytes
encode f = to_le_bytes f.k ++ f.bits

-- `none` is the error for a filter that is too short.
unfoldable pub decode : Bytes → Option BloomFilter
decode (b0 ∷ b1 ∷ b2 ∷ b3 ∷ b4 ∷ bits) =
    some (record { k = b0 + b1 * 256 + b2 * 65536 + b3 * 16777216; bits = b4 ∷ bits })
decode _ = none
