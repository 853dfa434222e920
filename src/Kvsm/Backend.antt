-- ===== src/Kvsm/Backend.antt =====
-- crates/kvsm/src/lib.rs: the storage under the state machine, as an interface with the laws that
-- its user relies on, and the backend in memory with these laws proved.
use raft_kv_engine_project.Base.{
  ℕ, ◌≡◌, Option, none, some, List, [], ◌∷◌, if◌then◌else◌, take, ap, subst, sym,
}
use raft_kv_engine_project.Base.Bytes.{Bytes, bytes_eq, bytes_lt}
use raft_kv_engine_project.Base.BytesMap
use raft_kv_engine_project.Base.BytesMap.{IsAscending}

-- The trait `Backend`.
pub record Backend : Type 1 where
  pub State : Type 0
  pub get : State → Bytes → Option Bytes
  pub set : State → Bytes → Option Bytes → State
  pub scan : State → Bytes → Option Bytes → ℕ → List (Bytes × Bytes)
  pub dump : State → List (Bytes × Bytes)
  pub clear_and_load : State → List (Bytes × Bytes) → State

-- What the state machine relies on, in the states that `Holds` describes.
pub record BackendLaws (b : Backend) : Type 1 where
  pub Holds : b.State → Type 0
  pub set-Holds : (s : b.State) (k : Bytes) (v : Option Bytes) → Holds s → Holds (b.set s k v)
  pub get-set :
      (s : b.State) (k j : Bytes) (v : Option Bytes)
      → Holds s
      → b.get (b.set s k v) j ≡ (if bytes_eq k j then v else b.get s j)
  pub load-Holds : (s t : b.State) → Holds t → Holds (b.clear_and_load s (b.dump t))
  pub get-load :
      (s t : b.State) (k : Bytes) → Holds t → b.get (b.clear_and_load s (b.dump t)) k ≡ b.get t k

-- `MemBackend`.
pub record MemBackend : Type 0 where
  pub kvs : List (Bytes × Bytes)

unfoldable pub get : MemBackend → Bytes → Option Bytes
get m key = BytesMap.get m.kvs key

unfoldable pub set : MemBackend → Bytes → Option Bytes → MemBackend
set m key (some v) = record { kvs = BytesMap.insert key v m.kvs }
set m key none = record { kvs = BytesMap.remove key m.kvs }

-- `take_while` on the end of a range.
unfoldable pub take_below : Option Bytes → List (Bytes × Bytes) → List (Bytes × Bytes)
take_below none kvs = kvs
take_below (some e) [] = []
take_below (some e) ((k, v) ∷ kvs) =
    let rest = take_below (some e) kvs in if bytes_lt k e then (k, v) ∷ rest else []

unfoldable pub scan : MemBackend → Bytes → Option Bytes → ℕ → List (Bytes × Bytes)
scan m start end limit = take limit (take_below end (BytesMap.range_from start m.kvs))

unfoldable pub dump : MemBackend → List (Bytes × Bytes)
dump m = m.kvs

unfoldable pub clear_and_load : MemBackend → List (Bytes × Bytes) → MemBackend
clear_and_load m kvs = record { kvs = BytesMap.collect [] kvs }

abbrev pub mem_backend : Backend
mem_backend = record {
  State = MemBackend;
  get = get;
  set = set;
  scan = scan;
  dump = dump;
  clear_and_load = clear_and_load;
}

pub set-IsAscending :
    (m : MemBackend) (k : Bytes) (v : Option Bytes)
    → IsAscending m.kvs
    → IsAscending (set m k v).kvs
unfolding set
set-IsAscending m k (some v) h = BytesMap.insert-IsAscending k v m.kvs h
set-IsAscending m k none h = BytesMap.remove-IsAscending k m.kvs h

pub get-set :
    (m : MemBackend) (k j : Bytes) (v : Option Bytes)
    → get (set m k v) j ≡ (if bytes_eq k j then v else get m j)
unfolding get set
get-set m k j (some v) = BytesMap.get-insert k j v m.kvs
get-set m k j none = BytesMap.get-remove k j m.kvs

pub load-dump : (m t : MemBackend) → IsAscending t.kvs → clear_and_load m (dump t) ≡ t
unfolding clear_and_load dump
load-dump m t h = λ i. record { kvs = BytesMap.collect_ascending t.kvs h i }

abbrev pub mem_laws : BackendLaws mem_backend
mem_laws = record {
  Holds = λ m. IsAscending m.kvs;
  set-Holds = set-IsAscending;
  get-set = λ m k j v _. get-set m k j v;
  load-Holds = λ m t h. subst (λ (x : MemBackend). IsAscending x.kvs) (sym (load-dump m t h)) h;
  get-load = λ m t k h. ap (λ (x : MemBackend). get x k) (load-dump m t h);
}
