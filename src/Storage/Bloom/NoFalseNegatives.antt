-- ===== src/Storage/Bloom/NoFalseNegatives.antt =====
-- crates/storage/src/bloom.rs: `may_contain` on the keys a filter was built from.
use native.Mathlib.Nat.{mod-lt}
use Prim.Native.Nat.{bit_or, bit_and}
use raft_kv_engine_project.Base.{
  ℕ, zero, suc, ◌*◌, ◌/◌, ◌%◌, ◌^◌, ◌<◌, ◌≤◌, ◌+◌, max, false, if◌then◌else◌, ◌≡◌, refl, sym, ap,
  ◌∙◌, Bool, true, not, ◌&&◌, ◌||◌, List, [], ◌∷◌, arith, ltb, ◌==◌, length, get_or_else, All, any,
  get_or_else-set, length-set, length-replicate, All-set, All-replicate, All-get_or_else,
  Bool-cases, inl, inr, subst,
}
use raft_kv_engine_project.Base.Bytes.{Bytes}
use raft_kv_engine_project.Storage.Bloom.{
  fnv1a, mix, BloomFilter, set_bit, test_bit, add_probes, add_hash, add_hashes, empty_filter,
  from_hashes, probes_set, may_contain,
}

-- The test holds at each of a number of values in a row.
each : (ℕ → Bool) → ℕ → ℕ → Bool
each test first zero = true
each test first (suc left) =
    let rest = each test (suc first) left in if test first then rest else false

each-member :
    (test : ℕ → Bool) (first left v : ℕ)
    → each test first left ≡ true
    → first ≤ v
    → v < first + left
    → test v ≡ true
unfolding each
each-member test first zero v h low high = absurd (omega (arith, low, high))
each-member test first (suc left) v h low high = elim (Bool-cases (first == v)) [
  | inl same ↦
      let e : first ≡ v = ground (arith, same) in subst (λ x. test x ≡ true) e (ground (arith, h))
  | inr past ↦
      each-member test (suc first) left v (ground (arith, h)) (ground (arith, past, low))
        (omega (arith, high))
]

-- Setting bit `i` of a byte sets it, keeps bit `j`, and leaves a byte.
abbrev byte_law : ℕ → ℕ → ℕ → Bool
byte_law x i j =
    not (bit_and (bit_or x (2 ^ i)) (2 ^ i) == 0)
    && ltb (bit_or x (2 ^ i)) 256
    && (bit_and x (2 ^ j) == 0 || not (bit_and (bit_or x (2 ^ i)) (2 ^ j) == 0))

abbrev law_at_byte : ℕ → ℕ → Bool
law_at_byte x i = each (byte_law x i) 0 8

abbrev law_at_bits : ℕ → Bool
law_at_bits x = each (law_at_byte x) 0 8

bytes_checked : each law_at_bits 0 256 ≡ true
unfolding each
bytes_checked = refl

byte_facts : (x i j : ℕ) → x < 256 → i < 8 → j < 8 → byte_law x i j ≡ true
byte_facts x i j hx hi hj =
    let at_x = each-member law_at_bits 0 256 x bytes_checked (omega arith) hx in
    let at_i = each-member (law_at_byte x) 0 8 i at_x (omega arith) hi in
    each-member (byte_law x i) 0 8 j at_i (omega arith) hj

abbrev IsBytes : List ℕ → Type 0
IsBytes bits = All (λ x. x < 256) bits

byte_at : (bits : List ℕ) (i : ℕ) → IsBytes bits → get_or_else bits i 0 < 256
byte_at bits i h = All-get_or_else (λ x. x < 256) bits i 0 (omega arith) h

set_bit-IsBytes : (bits : List ℕ) (b : ℕ) → IsBytes bits → IsBytes (set_bit bits b)
unfolding set_bit
set_bit-IsBytes bits b h =
    let x = get_or_else bits (b / 8) 0 in
    All-set (λ x. x < 256) bits (b / 8) _
      (ground
        (arith, byte_facts x (b % 8) (b % 8) (byte_at bits (b / 8) h) (omega arith) (omega arith)))
      h

test_bit-set_bit_self :
    (bits : List ℕ) (b : ℕ)
    → b / 8 < length bits
    → IsBytes bits
    → test_bit (set_bit bits b) b ≡ true
unfolding set_bit test_bit
test_bit-set_bit_self bits b l h =
    let x = get_or_else bits (b / 8) 0 in
    ground (
      arith,
      get_or_else-set bits (b / 8) (b / 8) (bit_or x (2 ^ (b % 8))) 0 l,
      byte_facts x (b % 8) (b % 8) (byte_at bits (b / 8) h) (omega arith) (omega arith),
    )

test_bit-set_bit :
    (bits : List ℕ) (b c : ℕ)
    → b / 8 < length bits
    → IsBytes bits
    → test_bit bits c ≡ true
    → test_bit (set_bit bits b) c ≡ true
unfolding set_bit test_bit
test_bit-set_bit bits b c l h t =
    let x = get_or_else bits (b / 8) 0 in
    ground (
      arith,
      t,
      get_or_else-set bits (b / 8) (c / 8) (bit_or x (2 ^ (b % 8))) 0 l,
      ap (λ (i : ℕ). get_or_else bits i 0) {x = b / 8} {y = c / 8},
      byte_facts x (b % 8) (c % 8) (byte_at bits (b / 8) h) (omega arith) (omega arith),
    )

length-set_bit : (bits : List ℕ) (b : ℕ) → length (set_bit bits b) ≡ length bits
unfolding set_bit
length-set_bit bits b = length-set bits (b / 8) _

-- A filter that is sound so far: bytes, at least one of them.
abbrev IsFilter : List ℕ → ℕ → Type 0
IsFilter bits n = IsBytes bits × (length bits ≡ n)

in_range : (pos n : ℕ) → 0 < n → pos % (n * 8) / 8 < n
in_range pos n h = omega (arith, mod-lt pos {m = n * 8} (omega (arith, h)))

add_probes-IsFilter :
    (rounds h2 pos n : ℕ) (bits : List ℕ)
    → IsFilter bits n
    → IsFilter (add_probes rounds (n * 8) h2 pos bits) n
unfolding add_probes
add_probes-IsFilter zero h2 pos n bits f = f
add_probes-IsFilter (suc rounds) h2 pos n bits f =
    add_probes-IsFilter rounds h2 ((pos + h2) % 2 ^ 64) n (set_bit bits (pos % (n * 8)))
      (set_bit-IsBytes bits (pos % (n * 8)) f.0, length-set_bit bits (pos % (n * 8)) ∙ f.1)

-- Adding keeps every bit that is set.
add_probes-test_bit :
    (rounds h2 pos n : ℕ) (bits : List ℕ) (c : ℕ)
    → 0 < n
    → IsFilter bits n
    → test_bit bits c ≡ true
    → test_bit (add_probes rounds (n * 8) h2 pos bits) c ≡ true
unfolding add_probes
add_probes-test_bit zero h2 pos n bits c p f t = t
add_probes-test_bit (suc rounds) h2 pos n bits c p f t =
    add_probes-test_bit rounds h2 ((pos + h2) % 2 ^ 64) n (set_bit bits (pos % (n * 8))) c p
      (set_bit-IsBytes bits (pos % (n * 8)) f.0, length-set_bit bits (pos % (n * 8)) ∙ f.1)
      (test_bit-set_bit bits (pos % (n * 8)) c (omega (arith, in_range pos n p, f.1)) f.0 t)

-- So does it keep every run of probes that pass.
probes_set_mono :
    (rounds h2 pos n : ℕ) (bits bits' : List ℕ)
    → ((c : ℕ) → test_bit bits c ≡ true → test_bit bits' c ≡ true)
    → probes_set rounds n h2 pos bits ≡ true
    → probes_set rounds n h2 pos bits' ≡ true
unfolding probes_set
probes_set_mono zero h2 pos n bits bits' m h = refl
probes_set_mono (suc rounds) h2 pos n bits bits' m h =
    ground (arith, h, m (pos % n), probes_set_mono rounds h2 ((pos + h2) % 2 ^ 64) n bits bits' m)

-- The probes of a hash pass once it is added.
probes_set-add_probes :
    (rounds h2 pos n : ℕ) (bits : List ℕ)
    → 0 < n
    → IsFilter bits n
    → probes_set rounds (n * 8) h2 pos (add_probes rounds (n * 8) h2 pos bits) ≡ true
unfolding add_probes probes_set
probes_set-add_probes zero h2 pos n bits p f = refl
probes_set-add_probes (suc rounds) h2 pos n bits p f =
    let next = (pos + h2) % 2 ^ 64 in
    let bits1 = set_bit bits (pos % (n * 8)) in
    let f1 : IsFilter bits1 n =
      (set_bit-IsBytes bits (pos % (n * 8)) f.0, length-set_bit bits (pos % (n * 8)) ∙ f.1) in
    ground (
      arith,
      probes_set-add_probes rounds h2 next n bits1 p f1,
      add_probes-test_bit rounds h2 next n bits1 (pos % (n * 8)) p f1
          (test_bit-set_bit_self bits (pos % (n * 8)) (omega (arith, in_range pos n p, f.1)) f.0),
    )

-- The filter has bytes, at least one, in its bits.
abbrev IsSound : BloomFilter → Type 0
IsSound f = (0 < length f.bits) × IsBytes f.bits

-- Every probe of a hash passes.
abbrev Passes : BloomFilter → ℕ → Type 0
Passes f h = probes_set f.k (length f.bits * 8) (bit_or (mix h) 1) h f.bits ≡ true

length-add_hash : (f : BloomFilter) (h : ℕ) → IsSound f → length (add_hash f h).bits ≡ length f.bits
unfolding add_hash
length-add_hash f h s =
    (add_probes-IsFilter f.k (bit_or (mix h) 1) h (length f.bits) f.bits (s.1, refl)).1

add_hash-IsSound : (f : BloomFilter) (h : ℕ) → IsSound f → IsSound (add_hash f h)
unfolding add_hash
add_hash-IsSound f h s = (
  omega (arith, length-add_hash f h s, s.0),
  (add_probes-IsFilter f.k (bit_or (mix h) 1) h (length f.bits) f.bits (s.1, refl)).0,
)

add_hash-Passes_self : (f : BloomFilter) (h : ℕ) → IsSound f → Passes (add_hash f h) h
unfolding add_hash
add_hash-Passes_self f h s =
    subst (λ n. probes_set f.k (n * 8) (bit_or (mix h) 1) h (add_hash f h).bits ≡ true)
      (sym (length-add_hash f h s))
      (probes_set-add_probes f.k (bit_or (mix h) 1) h (length f.bits) f.bits s.0 (s.1, refl))

add_hash-Passes : (f : BloomFilter) (h g : ℕ) → IsSound f → Passes f g → Passes (add_hash f h) g
unfolding add_hash
add_hash-Passes f h g s p =
    subst (λ n. probes_set f.k (n * 8) (bit_or (mix g) 1) g (add_hash f h).bits ≡ true)
      (sym (length-add_hash f h s))
      (probes_set_mono f.k (bit_or (mix g) 1) g (length f.bits * 8) f.bits (add_hash f h).bits
        (λ c t.
          add_probes-test_bit f.k (bit_or (mix h) 1) h (length f.bits) f.bits c s.0 (s.1, refl) t)
        p)

add_hashes-Passes :
    (f : BloomFilter) (hs : List ℕ) (g : ℕ) → IsSound f → Passes f g → Passes (add_hashes f hs) g
unfolding add_hashes
add_hashes-Passes f [] g s p = p
add_hashes-Passes f (h ∷ hs) g s p =
    add_hashes-Passes (add_hash f h) hs g (add_hash-IsSound f h s) (add_hash-Passes f h g s p)

add_hashes-Passes_added :
    (f : BloomFilter) (hs : List ℕ) (g : ℕ)
    → IsSound f
    → any (λ h. h == g) hs ≡ true
    → Passes (add_hashes f hs) g
unfolding add_hashes
add_hashes-Passes_added f [] g s m = cc
add_hashes-Passes_added f (h ∷ hs) g s m = elim (Bool-cases (h == g)) [
  | inl same ↦
      let e : h ≡ g = ground (arith, same) in
      add_hashes-Passes (add_hash f h) hs g (add_hash-IsSound f h s)
        (subst (λ x. Passes (add_hash f h) x) e (add_hash-Passes_self f h s))
  | inr other ↦
      add_hashes-Passes_added (add_hash f h) hs g (add_hash-IsSound f h s)
        (ground (arith, m, other))
]

empty_filter-IsSound :
    (scaled : ℕ → ℕ) (count bits_per_key : ℕ) → IsSound (empty_filter scaled count bits_per_key)
unfolding empty_filter
empty_filter-IsSound scaled count bits_per_key =
    let n = (max (count * bits_per_key) 64 + 7) / 8 * 8 / 8 in
    (
      subst (λ l. 0 < l) (sym (length-replicate n 0)) (ground arith),
      All-replicate (λ x. x < 256) n 0 (omega arith),
    )

-- A filter built from hashes, at any number of bits per key and whatever number of probes the float
-- product gives, never rules out a key whose hash is one of them.
pub may_contain-from_hashes :
    (scaled : ℕ → ℕ) (hashes : List ℕ) (bits_per_key : ℕ) (key : Bytes)
    → any (λ h. h == fnv1a key) hashes ≡ true
    → may_contain (from_hashes scaled hashes bits_per_key) key ≡ true
unfolding may_contain from_hashes
may_contain-from_hashes scaled hashes bits_per_key key m =
    add_hashes-Passes_added (empty_filter scaled (length hashes) bits_per_key) hashes (fnv1a key)
      (empty_filter-IsSound scaled (length hashes) bits_per_key) m

add_hashes-IsSound : (f : BloomFilter) (hs : List ℕ) → IsSound f → IsSound (add_hashes f hs)
unfolding add_hashes
add_hashes-IsSound f [] s = s
add_hashes-IsSound f (h ∷ hs) s = add_hashes-IsSound (add_hash f h) hs (add_hash-IsSound f h s)

add_hashes_k : (f : BloomFilter) (hs : List ℕ) → (add_hashes f hs).k ≡ f.k
unfolding add_hashes add_hash
add_hashes_k f [] = refl
add_hashes_k f (h ∷ hs) = add_hashes_k (add_hash f h) hs

-- The filter has bytes, and its number of probes is small.
pub from_hashes_shape :
    (scaled : ℕ → ℕ) (hashes : List ℕ) (bits_per_key : ℕ)
    → ((from_hashes scaled hashes bits_per_key).k < 4294967296)
      × (0 < length (from_hashes scaled hashes bits_per_key).bits)
unfolding from_hashes empty_filter
from_hashes_shape scaled hashes bits_per_key =
    let f = empty_filter scaled (length hashes) bits_per_key in
    (
      omega (arith, add_hashes_k f hashes),
      (add_hashes-IsSound f hashes (empty_filter-IsSound scaled (length hashes) bits_per_key)).0,
    )
