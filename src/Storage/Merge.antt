-- ===== src/Storage/Merge.antt =====
-- crates/storage/src/iter.rs, `MergeIter`: the merge of streams of versions. A source is the list of
-- what it has left, whose head is what `peek` shows.
use raft_kv_engine_project.Base.{
  ℕ, zero, suc, ◌+◌, ◌≤◌, ◌<◌, ◌≡◌, refl, Bool, true, false, not, ◌&&◌, Option, none, some, List,
  [], ◌∷◌, arith, if◌then◌else◌, length, ◌>>=◌,
}
use raft_kv_engine_project.Base.Bytes.{Bytes}
use raft_kv_engine_project.Storage.MemTable.{Entry, before}
pub mod Heads

pub record MergeIter : Type 0 where
  pub sources : List (List Entry)

abbrev pub new : List (List Entry) → MergeIter
new sources = record { sources = sources }

-- A head is taken over the best one so far: a smaller key, or the same key and a higher number.
unfoldable pub takes : Option (ℕ × Entry) → Entry → Bool
takes none x = true
takes (some best) x = before x best.1.key best.1.seq

-- The loop over the sources, from the source with the given index on.
unfoldable pub best_from : ℕ → Option (ℕ × Entry) → List (List Entry) → Option (ℕ × Entry)
unfolding takes
best_from i best [] = best
best_from i best ([] ∷ sources) = best_from (suc i) best sources
best_from i best ((x ∷ xs) ∷ sources) =
    best_from (suc i) (if takes best x then some (i, x) else best) sources

-- `self.sources[i].next()`.
unfoldable pub next_of : ℕ → List (List Entry) → Option (Entry × List (List Entry))
next_of i [] = none
next_of zero ([] ∷ sources) = none
next_of zero ((x ∷ xs) ∷ sources) = some (x, xs ∷ sources)
next_of (suc i) (source ∷ sources) = next_of i sources >>= λ taken. some (taken.0, source ∷ taken.1)

unfoldable pub next : MergeIter → Option (Entry × MergeIter)
unfolding best_from next_of
next it = best_from 0 none it.sources >>= λ best.
    (next_of best.0 it.sources >>= λ taken. some (taken.0, record { sources = taken.1 }))
