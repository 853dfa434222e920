-- ===== src/Storage/Db/Compacted.antt =====
-- crates/storage/src/db.rs: from the sources of a compaction to the tables it writes.
use mathlib.Core.Option
use raft_kv_engine_project.Base.{
  ℕ, ◌≤◌, ◌≡◌, refl, sym, ap, ◌∙◌, subst, inl, inr, Bool, true, false, ◌&&◌, Option, none, some,
  List, [], ◌∷◌, arith, leb, All, All-map, Bool-cases, Option-cases, ◌⊎◌,
}
use raft_kv_engine_project.Base.Bytes.{Bytes, bytes_eq, bytes_eq_sound}
use raft_kv_engine_project.Storage.Error.{ok}
use raft_kv_engine_project.Storage.MemTable.{Entry, newer_of, newest}
use raft_kv_engine_project.Storage.Merge
use raft_kv_engine_project.Storage.SsTable.Layout.{all_entries}
use raft_kv_engine_project.Storage.SsTable.RoundTrip.{IsFaithful}
use raft_kv_engine_project.Storage.Db.{Formats, Options}
use raft_kv_engine_project.Storage.Db.Reads.{merged, total}
use raft_kv_engine_project.Storage.Db.Merging.{Output, start, merge_loop}
use raft_kv_engine_project.Storage.Db.Ordered.{IsMerged}
use raft_kv_engine_project.Storage.Db.Kept.{kept, Agree, kept-Agree}
use raft_kv_engine_project.Storage.Db.Merged.{Merges, merged-Merges}
use raft_kv_engine_project.Storage.Db.Outputs.{AreOutputs, merge_loop-AreOutputs}

-- The value of a version is given by its key and its number.
abbrev pub HasContent : (Bytes → ℕ → Option Bytes) → Entry → Type 0
HasContent content x = x.value ≡ content x.key x.seq

same_version :
    (content : Bytes → ℕ → Option Bytes) (x y : Entry)
    → HasContent content x
    → HasContent content y
    → x.key ≡ y.key
    → x.seq ≡ y.seq
    → x ≡ y
same_version content x y hx hy k s =
    let entry : Bytes → ℕ → Option Bytes → Entry =
      λ key seq value. record { key = key; seq = seq; value = value } in
    ap (λ v. entry x.key x.seq v) hx
    ∙ (ap (λ k. entry k x.seq (content k x.seq)) k
        ∙ (ap (λ s. entry y.key s (content y.key s)) s ∙ ap (λ v. entry y.key y.seq v) (sym hy)))

module _ (key : Bytes) (snapshot : ℕ) where
  -- The version is one of the key that the snapshot sees.
  abbrev sees : Entry → Bool
  sees x = bytes_eq x.key key && leb x.seq snapshot

  newest_unseen : (xs : List Entry) → newest key snapshot xs ≡ none → All (λ x. sees x ≡ false) xs
  newest_unseen [] h = tt
  newest_unseen (x ∷ xs) h = elim (Option-cases (newest key snapshot xs)) [
    | inl nothing ↦ (ground (arith, h, nothing), newest_unseen xs nothing)
    | inr (y, found) ↦ ground (arith, h, found)
  ]

  unseen_newest : (xs : List Entry) → All (λ x. sees x ≡ false) xs → newest key snapshot xs ≡ none
  unseen_newest [] h = refl
  unseen_newest (x ∷ xs) h = ground (arith, h.0, unseen_newest xs h.1)

  newest-sees : (xs : List Entry) (y : Entry) → newest key snapshot xs ≡ some y → sees y ≡ true
  newest-sees [] y h = cc
  newest-sees (x ∷ xs) y h = elim (Option-cases (newest key snapshot xs)) [
    | inl nothing ↦ ground (arith, h, nothing)
    | inr (z, found) ↦ ground (arith, h, found, newest-sees xs z found)
  ]

  AtMost : ℕ → Entry → Type 0
  AtMost n x = sees x ≡ true → x.seq ≤ n

  -- What was the newest is at most as new as this version.
  Beaten : Entry → Option Entry → Type 0
  Beaten x none = Unit
  Beaten x (some z) = z.seq ≤ x.seq

  newer_cases :
      (x : Entry) (o : Option Entry) (y : Entry)
      → newer_of key snapshot x o ≡ some y
      → ((x ≡ y) × Beaten x o) ⊎ ((o ≡ some y) × AtMost y.seq x)
  unfolding AtMost Beaten
  newer_cases x none y h = elim (Bool-cases (sees x)) [
    | inl seen ↦ inl (Option.some_inj.0 (ground (arith, h, seen)), tt)
    | inr unseen ↦ ground (arith, h, unseen)
  ]
  newer_cases x (some z) y h = elim (Bool-cases (sees x && leb z.seq x.seq)) [
    | inl newer ↦ inl (Option.some_inj.0 (ground (arith, h, newer)), ground (arith, newer))
    | inr older ↦
        let same : z ≡ y = Option.some_inj.0 (ground (arith, h, older)) in
        let seqs = ap (λ (e : Entry). e.seq) same in
        inr (ap (λ (e : Entry). some e) same, λ seen. ground (arith, older, seen, seqs))
  ]

  newest-AtMost :
      (xs : List Entry) (y : Entry) → newest key snapshot xs ≡ some y → All (AtMost y.seq) xs
  unfolding AtMost Beaten
  newest-AtMost [] y h = tt
  newest-AtMost (x ∷ xs) y h = elim (newer_cases x (newest key snapshot xs) y h) [
    | inr (found, b) ↦ (b, newest-AtMost xs y found)
    | inl (same, beaten) ↦
        let seqs = ap (λ (e : Entry). e.seq) same in
        (
          λ seen. omega (arith, seqs),
          elim (Option-cases (newest key snapshot xs)) [
            | inl nothing ↦
                All-map (λ e. sees e ≡ false) (AtMost y.seq) xs (λ e unseen seen. cc)
                  (newest_unseen xs nothing)
            | inr (z, found) ↦
                let under : z.seq ≤ x.seq = subst (Beaten x) found beaten in
                All-map (AtMost z.seq) (AtMost y.seq) xs
                  (λ e low seen. let bound = low seen in omega (arith, bound, under, seqs))
                  (newest-AtMost xs z found)
          ],
        )
  ]

  -- What holds of each version holds of the newest.
  newest-each :
      (P : Entry → Type 0) (xs : List Entry) (y : Entry)
      → All P xs
      → newest key snapshot xs ≡ some y
      → P y
  newest-each P [] y a h = elim (nothing_found h) [ ]
    where
      nothing_found : none ≡ some y → ⊥
      nothing_found e = cc
  newest-each P (x ∷ xs) y a h = elim (newer_cases x (newest key snapshot xs) y h) [
    | inl (same, _) ↦ subst P same a.0
    | inr (found, _) ↦ newest-each P xs y a.1 found
  ]

  seen_key : (x : Entry) → sees x ≡ true → x.key ≡ key
  seen_key x h = bytes_eq_sound x.key key (ground (arith, h))

  -- A merge finds what its sources hold.
  newest-Merges :
      (content : Bytes → ℕ → Option Bytes) (sources : List (List Entry)) (es : List Entry)
      → Merges sources es
      → All (HasContent content) (all_entries sources)
      → newest key snapshot es ≡ newest key snapshot (all_entries sources)
  unfolding AtMost
  newest-Merges content sources es m c =
      elim (Option-cases (newest key snapshot (all_entries sources))) [
        | inl nothing ↦
            unseen_newest es
              (m.each (λ x. sees x ≡ false) (newest_unseen (all_entries sources) nothing))
            ∙ sym nothing
        | inr (y, found) ↦ elim (Option-cases (newest key snapshot es)) [
          | inl nothing ↦
              nothing
              ∙ sym (
                  unseen_newest (all_entries sources)
                    (m.back (λ x. sees x ≡ false) (newest_unseen es nothing)))
          | inr (z, merged_found) ↦
              let z_sees = newest-sees es z merged_found in
              let y_sees = newest-sees (all_entries sources) y found in
              let below =
                newest-each (AtMost y.seq) es z
                  (m.each (AtMost y.seq) (newest-AtMost (all_entries sources) y found)) merged_found
                  z_sees in
              let above =
                newest-each (AtMost z.seq) (all_entries sources) y
                  (m.back (AtMost z.seq) (newest-AtMost es z merged_found)) found y_sees in
              merged_found
              ∙ (ap (λ (e : Entry). some e)
                    (same_version content z y
                      (newest-each (HasContent content) es z (m.each (HasContent content) c)
                        merged_found)
                      (newest-each (HasContent content) (all_entries sources) y c found)
                      (seen_key z z_sees ∙ sym (seen_key y y_sees)) (omega (arith, below, above)))
                  ∙ sym found)
        ]
      ]

module _ (fmt : Formats) (faithful : IsFaithful fmt.table) (opts : Options) (min_snap : ℕ)
    (bottom : Bool) where
  -- The merge of a compaction, from its sources to its tables: whatever ordered sources it is given, it
  -- ends without an error and writes tables that are not empty, numbered in turn from the first free
  -- number, and for any snapshot at or above the lowest live one the newest version of a key that the
  -- snapshot sees is the same in these tables as in the sources, save that in a merge to the bottom
  -- nothing may stand in place of a tombstone. The value of a version is given by its key and its number.
  pub compaction-Agree :
      (content : Bytes → ℕ → Option Bytes) (first : ℕ) (sources : List (List Entry))
      → All IsMerged sources
      → All (HasContent content) (all_entries sources)
      → (out : Output) × (groups : List (List Entry)) × (merge_loop fmt opts min_snap bottom start
            (record { builder = none; out_bytes = 0; next_id = first; outputs = [] })
            (merged (total sources) (Merge.new sources))
          ≡ ok out)
        × AreOutputs fmt faithful opts first out.outputs groups
        × ((key : Bytes) (snapshot : ℕ)
            → min_snap ≤ snapshot
            → Agree min_snap bottom key snapshot
                (newest key snapshot (all_entries groups))
                (newest key snapshot (all_entries sources)))
  compaction-Agree content first sources o c =
      let m = merged-Merges (total sources) sources (omega arith) in
      let es = merged (total sources) (Merge.new sources) in
      let (out, groups, loops, outputs, _, same) =
        merge_loop-AreOutputs fmt faithful opts min_snap bottom first es in
      (
        out,
        groups,
        loops,
        outputs,
        λ key snapshot low.
            subst
              (λ l.
                Agree min_snap bottom key snapshot (newest key snapshot l)
                  (newest key snapshot (all_entries sources)))
              (sym same)
              (subst
                (Agree min_snap bottom key snapshot
                  (newest key snapshot (kept min_snap bottom start es)))
                (newest-Merges key snapshot content sources es m c)
                (kept-Agree min_snap bottom key snapshot es low (m.ordered o))),
      )
