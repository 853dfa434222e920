-- ===== src/Storage/Bloom/Coding.antt =====
-- crates/storage/src/bloom.rs: the stored form of a filter.
use raft_kv_engine_project.Base.{
  ℕ, ◌+◌, ◌*◌, ◌/◌, ◌%◌, ◌<◌, ◌≡◌, ap, some, List, [], ◌∷◌, arith, length,
}
use raft_kv_engine_project.Storage.Bloom.{BloomFilter, encode, decode, to_le_bytes}

le_bytes_value :
    (n : ℕ)
    → n < 4294967296
    → n % 256 + n / 256 % 256 * 256 + n / 65536 % 256 * 65536 + n / 16777216 % 256 * 16777216 ≡ n
le_bytes_value n h = omega (arith, h)

decode-encode_bits :
    (k : ℕ) (bits : List ℕ)
    → k < 4294967296
    → 0 < length bits
    → decode (encode (record { k = k; bits = bits })) ≡ some (record { k = k; bits = bits })
unfolding encode decode to_le_bytes
decode-encode_bits k [] h l = absurd (omega (arith, l))
decode-encode_bits k (b ∷ bits) h l =
    ap (λ n. some (record { k = n; bits = b ∷ bits })) (le_bytes_value k h)

-- A filter with a byte of bits at least, and a number of probes that fits 32 bits, is read back from
-- its stored form as it was.
pub decode-encode :
    (f : BloomFilter) → f.k < 4294967296 → 0 < length f.bits → decode (encode f) ≡ some f
decode-encode f h l = decode-encode_bits f.k f.bits h l
