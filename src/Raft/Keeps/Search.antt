-- ===== src/Raft/Keeps/Search.antt =====
-- crates/raft/src/node.rs: the search for new entries and their storage, on the log alone.
use raft_kv_engine_project.Base.{
  ℕ, suc, ◌+◌, ◌≤◌, ◌<◌, ◌≡◌, ◌≢◌, refl, sym, ◌∙◌, subst, inl, inr, Option, none, some, List, [],
  ◌∷◌, arith, ltb, ◌==◌, ◌>>=◌, All, length, Bool-cases, Option-cases,
}
use raft_kv_engine_project.Raft.Types.{Index, Entry}
use raft_kv_engine_project.Raft.Log
use raft_kv_engine_project.Raft.Log.{RaftLog, last_index, push, truncate_from}
use raft_kv_engine_project.Raft.Log.Contiguous.{
  Contiguous, IsContiguous, push-IsContiguous, truncate_from-IsContiguous,
}
use raft_kv_engine_project.Raft.Log.Lookup.{
  last_index-push, get-push, term-range, term_outside, snap-truncate_from, last_index-truncate_from,
  get-truncate_from,
}
use raft_kv_engine_project.Raft.Follower.{find_new, push_all}

-- What the search for new entries leaves of the log, for entries that run on from `prev`.
pub record Found (commit prev : Index) (log cut : RaftLog) (size : ℕ) (rest : List Entry)
    : Type 0 where
  pub base : cut.snap_index ≡ log.snap_index
  pub base_term : cut.snap_term ≡ log.snap_term
  pub contiguous : IsContiguous cut
  pub fits : Contiguous (last_index cut) rest
  pub committed : commit ≤ last_index cut
  pub reaches : prev + size ≤ last_index cut + length rest
  pub kept : (j : Index) → j ≤ commit → Log.get cut j ≡ Log.get log j
  pub kept_prev : (j : Index) → j ≤ prev → Log.get cut j ≡ Log.get log j

-- The same of a search that may panic.
abbrev pub FoundIn : Index → Index → RaftLog → ℕ → Option (RaftLog × List Entry) → Type 0
FoundIn commit prev log size none = Unit
FoundIn commit prev log size (some (cut, rest)) = Found commit prev log cut size rest

module _ (commit : Index) (log : RaftLog) (c : IsContiguous log) (u : commit ≤ last_index log) where
  -- Entries that run on from the end of the log.
  Found-end :
      (prev : Index) (es : List Entry)
      → last_index log ≡ prev
      → Contiguous prev es
      → Found commit prev log log (length es) es
  Found-end prev es e h = record {
    base = refl;
    base_term = refl;
    contiguous = c;
    fits = subst (λ p. Contiguous p es) (sym e) h;
    committed = u;
    reaches = omega arith;
    kept = λ j _. refl;
    kept_prev = λ j _. refl;
  }

  -- A conflict above the commit index.
  Found-cut :
      (prev idx : Index) (es : List Entry) (cut : RaftLog)
      → idx ≡ prev + 1
      → prev ≤ last_index log
      → commit < idx
      → truncate_from log idx ≡ some cut
      → Contiguous prev es
      → Found commit prev log cut (length es) es
  Found-cut prev idx es cut i p above e h =
      let l : last_index cut ≡ prev = omega (arith, last_index-truncate_from log idx cut e) in
      record {
        base = (snap-truncate_from log idx cut e).0;
        base_term = (snap-truncate_from log idx cut e).1;
        contiguous = truncate_from-IsContiguous log idx cut e c;
        fits = subst (λ q. Contiguous q es) (sym l) h;
        committed = omega arith;
        reaches = omega arith;
        kept = λ j b. ground (arith, get-truncate_from log idx cut e j);
        kept_prev = λ j b. ground (arith, get-truncate_from log idx cut e j);
      }

  Found-later :
      (prev : Index) (cut : RaftLog) (size : ℕ) (rest : List Entry)
      → Found commit (prev + 1) log cut size rest
      → Found commit prev log cut (suc size) rest
  Found-later prev cut size rest f = record {
    base = f.base;
    base_term = f.base_term;
    contiguous = f.contiguous;
    fits = f.fits;
    committed = f.committed;
    reaches = omega (arith, f.reaches);
    kept = f.kept;
    kept_prev = λ j b. f.kept_prev j (omega arith);
  }

  Found-nil : (prev : Index) → prev ≤ last_index log → Found commit prev log log 0 []
  Found-nil prev p = record {
    base = refl;
    base_term = refl;
    contiguous = c;
    fits = tt;
    committed = u;
    reaches = omega arith;
    kept = λ j _. refl;
    kept_prev = λ j _. refl;
  }

  FoundIn-later :
      (prev : Index) (size : ℕ) (r : Option (RaftLog × List Entry))
      → FoundIn commit (prev + 1) log size r
      → FoundIn commit prev log (suc size) r
  FoundIn-later prev size none f = tt
  FoundIn-later prev size (some (cut, rest)) f = Found-later prev cut size rest f

  FoundIn-cut :
      (prev idx : Index) (es : List Entry) (r : Option RaftLog)
      → idx ≡ prev + 1
      → prev ≤ last_index log
      → commit < idx
      → truncate_from log idx ≡ r
      → Contiguous prev es
      → FoundIn commit prev log (length es) (r >>= λ cut. some (cut, es))
  FoundIn-cut prev idx es none i p above e h = tt
  FoundIn-cut prev idx es (some cut) i p above e h = Found-cut prev idx es cut i p above e h

  pub find_new-Found :
      (prev : Index) (es : List Entry)
      → log.snap_index ≤ prev
      → prev ≤ last_index log
      → Contiguous prev es
      → FoundIn commit prev log (length es) (find_new commit log es)
  unfolding find_new
  find_new-Found prev [] b p h = Found-nil prev p
  find_new-Found prev (x ∷ xs) b p h = elim (Option-cases (Log.term log x.index)) [
    | inl absent ↦
        rw (absent, FoundIn, find_new)
          (Found-end prev (x ∷ xs) (omega (arith, term_outside log x.index absent)) h)
    | inr (t, present) ↦
        rw (present, FoundIn, find_new)
          (elim (Bool-cases (t == x.term)) [
            | inl same ↦
                rw (same, FoundIn, find_new)
                  (FoundIn-later prev (length xs) (find_new commit log xs) (
                    find_new-Found (prev + 1) xs (omega arith)
                      (omega (arith, term-range log x.index t present)) h.1))
            | inr differs ↦
                rw (differs, FoundIn, find_new)
                  (elim (Bool-cases (ltb commit x.index)) [
                    | inl above ↦
                        rw (above, FoundIn, find_new)
                          (FoundIn-cut prev x.index (x ∷ xs) (truncate_from log x.index) h.0 p
                            (ground arith) refl h)
                    | inr below ↦ rw (below, FoundIn, find_new) tt
                  ])
          ])
  ]

-- What storing a run of entries at the end does to the log.
pub record Pushed (log log' : RaftLog) (es : List Entry) : Type 0 where
  pub base : log'.snap_index ≡ log.snap_index
  pub base_term : log'.snap_term ≡ log.snap_term
  pub contiguous : IsContiguous log'
  pub end : last_index log' ≡ last_index log + length es
  pub kept : (j : Index) → j ≤ last_index log → Log.get log' j ≡ Log.get log j

pub push_all-Pushed :
    (log : RaftLog) (es : List Entry)
    → IsContiguous log
    → Contiguous (last_index log) es
    → Pushed log (push_all log es) es
unfolding push_all
push_all-Pushed log [] c h = record {
  base = refl;
  base_term = refl;
  contiguous = c;
  end = omega arith;
  kept = λ j _. refl;
}
push_all-Pushed log (e ∷ es) c h =
    let l = last_index-push log e in
    let p =
      push_all-Pushed (push log e) es (push-IsContiguous log e h.0 c)
        (subst (λ q. Contiguous q es) (sym l) h.1) in
    record {
      base = p.base ∙ (unfold push in refl);
      base_term = p.base_term ∙ (unfold push in refl);
      contiguous = p.contiguous;
      end = omega (arith, p.end);
      kept = λ j b. p.kept j (omega arith) ∙ ground (arith, get-push log e j);
    }

-- The entries that the node holds committed have the terms that the message gives them.
abbrev pub Agrees : Index → RaftLog → List Entry → Type 0
Agrees commit log es =
    All (λ e. log.snap_index < e.index → e.index ≤ commit → Log.term log e.index ≡ some e.term) es

truncate_from-ne-none :
    (log : RaftLog) (idx : Index) → log.snap_index < idx → truncate_from log idx ≢ none
unfolding truncate_from
truncate_from-ne-none log idx h = ground arith

-- Then the search neither fails its assertion nor truncates into the snapshot.
pub find_new-ne-none :
    (commit : Index) (log : RaftLog) (prev : Index) (es : List Entry)
    → log.snap_index ≤ prev
    → prev ≤ last_index log
    → Contiguous prev es
    → Agrees commit log es
    → find_new commit log es ≢ none
unfolding find_new
find_new-ne-none commit log prev [] b p h a = ground arith
find_new-ne-none commit log prev (x ∷ xs) b p h a = λ e. ground (
  arith,
  e,
  a.0,
  truncate_from-ne-none log x.index,
  term-range log x.index x.term,
  λ (q : prev + 1 ≤ last_index log).
      find_new-ne-none commit log (prev + 1) xs (omega arith) q h.1 a.1,
)
