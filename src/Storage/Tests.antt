-- ===== src/Storage/Tests.antt =====
-- Runs of the code of crates/storage on concrete inputs, and the theorems at them.
use mathlib.Core.Option
use raft_kv_engine_project.Base.{
  ℕ, ◌*◌, ◌/◌, ◌≡◌, refl, true, false, ◌&&◌, none, some, List, [], ◌∷◌, arith, leb, if◌then◌else◌,
}
use raft_kv_engine_project.Base.Bytes.{Bytes, bytes_eq, bytes_lt}
use raft_kv_engine_project.Storage.MemTable
use raft_kv_engine_project.Storage.MemTable.{Entry, MemTable, IsOrdered, newest}
use raft_kv_engine_project.Storage.MemTable.Versions
use raft_kv_engine_project.Storage.Bloom
use raft_kv_engine_project.Storage.Bloom.{fnv1a, from_hashes, may_contain}
use raft_kv_engine_project.Storage.Bloom.NoFalseNegatives
use raft_kv_engine_project.Storage.Bloom.Coding
use raft_kv_engine_project.Storage.Merge
use raft_kv_engine_project.Storage.Visible
use raft_kv_engine_project.Storage.Visible.PointReads

abbrev a : Bytes
a = 97 ∷ []

abbrev b : Bytes
b = 98 ∷ []

-- Two values of `a`, its tombstone, and one value of `b`.
abbrev table : MemTable
table = record {
  versions =
      record { key = a; seq = 5; value = none }
      ∷ record { key = a; seq = 3; value = some (51 ∷ []) }
      ∷ record { key = a; seq = 1; value = some (49 ∷ []) }
      ∷ record { key = b; seq = 4; value = some (52 ∷ []) }
      ∷ [];
  bytes = 103;
}

table-IsOrdered : IsOrdered table.versions
unfolding bytes_lt bytes_eq
table-IsOrdered = ground arith

get-newest_example : MemTable.get table a 4 ≡ Option.map (λ x. x.value) (newest a 4 table.versions)
get-newest_example = Versions.get-newest table a 4 table-IsOrdered

get-insert_example :
    IsOrdered (MemTable.insert table b 6 (some (54 ∷ []))).versions
    × (MemTable.get (MemTable.insert table b 6 (some (54 ∷ []))) b 7
        ≡ (if bytes_eq b b && leb 6 7 then some (some (54 ∷ [])) else MemTable.get table b 7))
get-insert_example =
    Versions.get-insert table b 6 (some (54 ∷ [])) b 7 table-IsOrdered (ground arith)

lookup-collect_example :
    Visible.lookup a (Visible.collect 4 (Visible.new (MemTable.iter table) 4))
    ≡ MemTable.get table a 4
lookup-collect_example = PointReads.lookup-collect table a 4 4 table-IsOrdered (omega arith)

-- A snapshot between the versions sees the one below it; a later one sees the tombstone.
get_runs :
    (MemTable.get table a 4 ≡ some (some (51 ∷ [])))
    × (MemTable.get table a 9 ≡ some none)
    × (MemTable.get table (99 ∷ []) 9 ≡ none)
unfolding MemTable.get MemTable.first_version MemTable.before bytes_lt bytes_eq
get_runs = (refl, refl, refl)

abbrev a2 : Entry
a2 = record { key = a; seq = 2; value = some (50 ∷ []) }

abbrev a6 : Entry
a6 = record { key = a; seq = 6; value = none }

abbrev b4 : Entry
b4 = record { key = b; seq = 4; value = some (52 ∷ []) }

abbrev streams : Merge.MergeIter
streams = Merge.new ((a2 ∷ b4 ∷ []) ∷ [] ∷ (a6 ∷ []) ∷ [])

next-streams : Merge.next streams ≡ some (a6, record { sources = (a2 ∷ b4 ∷ []) ∷ [] ∷ [] ∷ [] })
unfolding Merge.next Merge.best_from Merge.next_of Merge.takes MemTable.before bytes_lt bytes_eq
next-streams = refl

abbrev hashes : List ℕ
hashes = fnv1a a ∷ fnv1a b ∷ []

may_contain-from_hashes_example : may_contain (from_hashes (λ n. n * 69 / 100) hashes 10) b ≡ true
may_contain-from_hashes_example =
    NoFalseNegatives.may_contain-from_hashes (λ n. n * 69 / 100) hashes 10 b (ground arith)

decode-encode_example :
    Bloom.decode (Bloom.encode (record { k = 6; bits = 255 ∷ 1 ∷ [] }))
    ≡ some (record { k = 6; bits = 255 ∷ 1 ∷ [] })
decode-encode_example =
    Coding.decode-encode (record { k = 6; bits = 255 ∷ 1 ∷ [] }) (omega arith) (omega arith)

-- The filter of `a` and `b` rules another key out.
may_contain_run : may_contain (from_hashes (λ n. n * 69 / 100) hashes 10) (99 ∷ []) ≡ false
unfolding may_contain from_hashes Bloom.add_hashes Bloom.empty_filter Bloom.add_hash
    Bloom.add_probes Bloom.set_bit Bloom.mix Bloom.probes_set Bloom.test_bit Bloom.fnv1a
    Bloom.fnv1a_from
may_contain_run = refl
