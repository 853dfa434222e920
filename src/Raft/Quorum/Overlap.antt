-- ===== src/Raft/Quorum/Overlap.antt =====
-- crates/raft/src/node.rs: quorums of one voter set, and of two that differ by one change.
use raft_kv_engine_project.Base.{
  ◌+◌, ◌/◌, ◌≤◌, ◌<◌, ◌≡◌, refl, Bool, true, false, not, ◌&&◌, ◌||◌, List, [], ◌∷◌, ◌++◌, arith,
  ◌==◌, length, retain, any, count, contains, length-append,
}
use raft_kv_engine_project.Raft.Types.{
  NodeId, Index, add_node, remove_node, EntryPayload, noop, normal, conf_change, Entry,
}
use raft_kv_engine_project.Raft.Node.{
  RaftNode, apply_conf_change, fold_voters, voters_at, voters, quorum,
}

count_both :
    (p q : NodeId → Bool) (v : List NodeId)
    → count p v + count q v ≤ length v + count (λ x. p x && q x) v
count_both p q [] = omega arith
count_both p q (x ∷ xs) = ground (arith, count_both p q xs)

any_of_count : (p : NodeId → Bool) (v : List NodeId) → 0 < count p v → any p v ≡ true
any_of_count p [] h = elim h [ ]
any_of_count p (x ∷ xs) h = ground (arith, any_of_count p xs)

-- More than as many as there are voters: some voter is counted twice.
overlap :
    (p q : NodeId → Bool) (v : List NodeId)
    → length v < count p v + count q v
    → any (λ x. p x && q x) v ≡ true
overlap p q v h = any_of_count _ v (omega (arith, count_both p q v))

-- Two tests that each a quorum of a node's voters passes are passed by one voter together.
pub quorum_overlap :
    (n : RaftNode) (p q : NodeId → Bool)
    → quorum n ≤ count p (voters n)
    → quorum n ≤ count q (voters n)
    → any (λ x. p x && q x) (voters n) ≡ true
unfolding quorum
quorum_overlap n p q hp hq = overlap p q (voters n) (omega arith)

-- No voter stands twice.
abbrev pub IsDistinct : List NodeId → Type 0
IsDistinct [] = Unit
IsDistinct (x ∷ xs) = (contains xs x ≡ false) × IsDistinct xs

count-append :
    (p : NodeId → Bool) (xs ys : List NodeId) → count p (xs ++ ys) ≡ count p xs + count p ys
count-append p [] ys = omega arith
count-append p (x ∷ xs) ys = ground (arith, count-append p xs ys)

contains-append :
    (xs ys : List NodeId) (a : NodeId) → contains (xs ++ ys) a ≡ contains xs a || contains ys a
contains-append [] ys a = refl
contains-append (x ∷ xs) ys a = ground (arith, contains-append xs ys a)

contains-retain :
    (p : NodeId → Bool) (xs : List NodeId) (a : NodeId)
    → contains xs a ≡ false
    → contains (retain p xs) a ≡ false
contains-retain p [] a h = refl
contains-retain p (x ∷ xs) a h = ground (arith, contains-retain p xs a)

retain-IsDistinct :
    (p : NodeId → Bool) (xs : List NodeId) → IsDistinct xs → IsDistinct (retain p xs)
retain-IsDistinct p [] h = tt
retain-IsDistinct p (x ∷ xs) h =
    ground (arith, retain-IsDistinct p xs h.1, contains-retain p xs x h.0)

append-IsDistinct :
    (xs : List NodeId) (a : NodeId)
    → IsDistinct xs
    → contains xs a ≡ false
    → IsDistinct (xs ++ a ∷ [])
append-IsDistinct [] a h c = (refl, tt)
append-IsDistinct (x ∷ xs) a h c =
    ground (arith, append-IsDistinct xs a h.1, contains-append xs (a ∷ []) x)

count-retain-le : (p q : NodeId → Bool) (xs : List NodeId) → count q (retain p xs) ≤ count q xs
count-retain-le p q [] = omega arith
count-retain-le p q (x ∷ xs) = ground (arith, count-retain-le p q xs)

-- Of distinct voters, a removal takes one at most.
length-remove_absent :
    (id : NodeId) (xs : List NodeId)
    → contains xs id ≡ false
    → length (retain (λ x. not (x == id)) xs) ≡ length xs
length-remove_absent id [] h = refl
length-remove_absent id (x ∷ xs) h = ground (arith, length-remove_absent id xs)

length-remove :
    (id : NodeId) (xs : List NodeId)
    → IsDistinct xs
    → length xs ≤ length (retain (λ x. not (x == id)) xs) + 1
length-remove id [] h = omega arith
length-remove id (x ∷ xs) h =
    ground
      (arith, length-remove id xs h.1, length-remove_absent id xs, length-remove_absent x xs h.0)

-- A configuration change keeps the voters distinct.
pub apply_conf_change-IsDistinct :
    (v : List NodeId) (p : EntryPayload) → IsDistinct v → IsDistinct (apply_conf_change v p)
unfolding apply_conf_change
apply_conf_change-IsDistinct v (conf_change (add_node id)) h =
    ground (arith, append-IsDistinct v id h)
apply_conf_change-IsDistinct v (conf_change (remove_node id)) h = retain-IsDistinct _ v h
apply_conf_change-IsDistinct v noop h = h
apply_conf_change-IsDistinct v (normal c) h = h

fold_voters-IsDistinct :
    (idx : Index) (v : List NodeId) (es : List Entry)
    → IsDistinct v
    → IsDistinct (fold_voters idx v es)
unfolding fold_voters
fold_voters-IsDistinct idx v [] h = h
fold_voters-IsDistinct idx v (e ∷ es) h = ground (
  arith,
  fold_voters-IsDistinct idx (apply_conf_change v e.payload) es
      (apply_conf_change-IsDistinct v e.payload h),
)

-- From distinct base voters, the voters at every index are distinct, whatever changes the log holds.
pub voters_at-IsDistinct :
    (n : RaftNode) (idx : Index) → IsDistinct n.voters_base → IsDistinct (voters_at n idx)
unfolding voters_at
voters_at-IsDistinct n idx h = fold_voters-IsDistinct idx n.voters_base n.log.entries h

-- The voters before and after one configuration change: a majority of the ones and a majority of
-- the others have a member of the first set in common, so that two configurations in a row cannot
-- decide independently.
pub apply_conf_change_overlap :
    (v : List NodeId) (payload : EntryPayload) (p q : NodeId → Bool)
    → IsDistinct v
    → length v / 2 + 1 ≤ count p v
    → length (apply_conf_change v payload) / 2 + 1 ≤ count q (apply_conf_change v payload)
    → any (λ x. p x && q x) v ≡ true
unfolding apply_conf_change
apply_conf_change_overlap v (conf_change (add_node id)) p q d hp hq =
    overlap p q v (ground (arith, count-append q v (id ∷ []), length-append v (id ∷ [])))
apply_conf_change_overlap v (conf_change (remove_node id)) p q d hp hq =
    overlap p q v (omega (arith, length-remove id v d, count-retain-le (λ x. not (x == id)) q v))
apply_conf_change_overlap v noop p q d hp hq = overlap p q v (omega arith)
apply_conf_change_overlap v (normal c) p q d hp hq = overlap p q v (omega arith)
