-- ===== src/Storage/SsTable/Iteration.antt =====
-- crates/storage/src/sstable.rs: `TableIter`, and the entries it runs through.
use raft_kv_engine_project.Base.{
  ℕ, zero, suc, ◌+◌, ◌<◌, ◌≡◌, refl, sym, ap, ◌∙◌, subst, true, false, Option, none, some, List, [],
  ◌∷◌, ◌++◌, arith, leb, if◌then◌else◌, length, drop, get_elem?, get_elem?-drop, length-drop,
  drop-step,
}
use raft_kv_engine_project.Storage.Error.{Result, ok, err, panic, ◌>>=◌}
use raft_kv_engine_project.Storage.MemTable.{Entry}
use raft_kv_engine_project.Storage.SsTable.{Format}
use raft_kv_engine_project.Storage.SsTable.Reader.{SsTable, read_block}
use raft_kv_engine_project.Storage.SsTable.Layout.{all_entries}
use raft_kv_engine_project.Storage.SsTable.Lookup.{IsTable, read_block-IsTable, length-metas}

pub record TableIter : Type 0 where
  pub table : SsTable
  pub block_idx : ℕ
  pub entries : List Entry

unfoldable pub iter : SsTable → TableIter
iter t = record { table = t; block_idx = 0; entries = [] }

-- `expect`.
unfoldable pub or_panic {ℓ} : {A : Type ℓ} → Result A → Result A
or_panic (ok a) = ok a
or_panic (err e) = err panic

module _ (fmt : Format) where
  -- The loop of `next`, with a bound on the blocks left.
  unfoldable pub next_from : ℕ → SsTable → ℕ → List Entry → Result (Option Entry × TableIter)
  unfolding or_panic
  next_from fuel t i (e ∷ es) = ok (some e, record { table = t; block_idx = i; entries = es })
  next_from zero t i [] = ok (none, record { table = t; block_idx = i; entries = [] })
  next_from (suc fuel) t i [] =
      if leb (length t.index.blocks) i
      then ok (none, record { table = t; block_idx = i; entries = [] })
      else (or_panic (read_block fmt t i) >>= λ block. next_from fuel t (i + 1) block)

  unfoldable pub next : TableIter → Result (Option Entry × TableIter)
  unfolding next_from
  next it = next_from (suc (length it.table.index.blocks)) it.table it.block_idx it.entries

  -- The entries of the calls of `next` until one returns nothing, of at most so many calls.
  unfoldable pub collect : ℕ → TableIter → Result (List Entry)
  unfolding next
  collect zero it = ok []
  collect (suc calls) it = next it >>= λ found. elim found.0 [
    | none ↦ ok []
    | some e ↦ collect calls found.1 >>= λ es. ok (e ∷ es)
  ]

  module _ (t : SsTable) (blocks : List (List Entry)) (v : IsTable fmt t blocks) where
    -- What a call returns, where these entries are left.
    abbrev Returns : Result (Option Entry × TableIter) → List Entry → Type 0
    Returns r [] = (it : TableIter) × (r ≡ ok (none, it))
    Returns r (e ∷ left) =
        (i : ℕ) × (es : List Entry) × (r
          ≡ ok (some e, record { table = t; block_idx = i; entries = es }))
        × (es ++ all_entries (drop i blocks) ≡ left)

    index_length : length t.index.blocks ≡ length blocks
    index_length = ap length v.index ∙ length-metas fmt 0 blocks

    next_from-Returns :
        (bs : List (List Entry)) (fuel i : ℕ) (es : List Entry)
        → drop i blocks ≡ bs
        → length bs < fuel
        → Returns (next_from fuel t i es) (es ++ all_entries bs)
    unfolding next_from
    next_from-Returns bs fuel i (e ∷ es) at h = (i, es, refl, ap (λ l. es ++ all_entries l) at)
    next_from-Returns bs zero i [] at h = absurd (omega arith)
    next_from-Returns [] (suc fuel) i [] at h =
        let past : leb (length t.index.blocks) i ≡ true =
          ground (arith, index_length, ap length at, length-drop i blocks) in
        (record { table = t; block_idx = i; entries = [] }, rw past refl)
    next_from-Returns (b ∷ bs) (suc fuel) i [] at h =
        let within : leb (length t.index.blocks) i ≡ false =
          ground (arith, index_length, ap length at, length-drop i blocks) in
        let here : get_elem? blocks i ≡ some b =
          ap (get_elem? blocks) {x = i} {y = i + 0} (omega arith)
          ∙ (sym (get_elem?-drop i blocks 0) ∙ ap (λ l. get_elem? l 0) at) in
        let reads : next_from (suc fuel) t i [] ≡ next_from fuel t (i + 1) b =
          rw (within, read_block-IsTable fmt t blocks i b v here) refl in
        subst (λ r. Returns r (b ++ all_entries bs)) (sym reads)
          (next_from-Returns bs fuel (i + 1) b (drop-step i blocks b bs at) (omega (arith, h)))

    collect-left :
        (left : List Entry) (calls i : ℕ) (es : List Entry)
        → es ++ all_entries (drop i blocks) ≡ left
        → length left < calls
        → collect calls (record { table = t; block_idx = i; entries = es }) ≡ ok left
    unfolding collect next
    collect-left left zero i es at h = absurd (omega arith)
    collect-left [] (suc calls) i es at h =
        let found = subst (Returns (next_from (suc (length t.index.blocks)) t i es)) at (
          next_from-Returns (drop i blocks) (suc (length t.index.blocks)) i es refl
            (omega (arith, index_length, length-drop i blocks))) in
        rw found.1 refl
    collect-left (e ∷ left) (suc calls) i es at h =
        let (j, later, found, same) =
          subst (Returns (next_from (suc (length t.index.blocks)) t i es)) at (
            next_from-Returns (drop i blocks) (suc (length t.index.blocks)) i es refl
              (omega (arith, index_length, length-drop i blocks))) in
        rw (found, collect-left left calls j later same (omega (arith, h))) refl

    -- The iterator runs through the entries of the blocks in turn, and then ends.
    pub collect-iter :
        (calls : ℕ)
        → length (all_entries blocks) < calls
        → collect calls (iter t) ≡ ok (all_entries blocks)
    unfolding iter
    collect-iter calls h = collect-left (all_entries blocks) calls 0 [] refl h
