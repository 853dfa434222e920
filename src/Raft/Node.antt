-- ===== src/Raft/Node.antt =====
-- crates/raft/src/node.rs: the state of a node, its voter set, its timer and its hard state. A
-- method with `&mut self` returns the new node. Counters are unbounded numbers; the u32 and u64
-- arithmetic of the random generator and of the timer wraps as in a release build.
use Prim.Native.Nat.{bit_xor, bit_or}
use raft_kv_engine_project.Base.{
  ℕ, ◌+◌, ◌-◌, ◌*◌, ◌/◌, ◌%◌, ◌^◌, max, Bool, true, false, not, ◌&&◌, ◌||◌, Option, none, some,
  List, [], ◌∷◌, ◌++◌, map, ltb, leb, ◌==◌, if◌then◌else◌, get_or, length, get_elem?, retain, count,
  contains,
}
use mathlib.Core.Option
use raft_kv_engine_project.Base.BTreeMap
use raft_kv_engine_project.Base.Sort.{sort_desc}
use raft_kv_engine_project.Raft.Types.{
  NodeId, Term, Index, add_node, remove_node, EntryPayload, conf_change, Entry, HardState, Snapshot,
  MessageBody, Output, empty_output, Persisted, Role, follower, is_leader, Config,
}
use raft_kv_engine_project.Raft.Log
use raft_kv_engine_project.Raft.Log.{RaftLog, last_index, last_term}

-- The leader's view of one follower.
pub record Progress : Type 0 where
  pub next : Index
  pub matched : Index
  pub inflight : ℕ
  pub pending_snapshot : Bool
  pub snapshot_sent_tick : ℕ
  pub acked_read_ctx : ℕ
  pub last_resp_tick : ℕ

-- `Progress::new`.
abbrev pub new_progress : Index → Progress
new_progress next = record {
  next = next;
  matched = 0;
  inflight = 0;
  pending_snapshot = false;
  snapshot_sent_tick = 0;
  acked_read_ctx = 0;
  last_resp_tick = 0;
}

-- A read that waits for its round: (ctx, request_id, commit index at request time).
abbrev pub PendingRead : Type 0
PendingRead = ℕ × ℕ × Index

pub record RaftNode : Type 0 where
  pub cfg : Config
  pub log : RaftLog
  pub hs : HardState
  pub role : Role
  pub leader_id : Option NodeId
  pub commit : Index
  pub snapshot : Option Snapshot
  pub voters_base : List NodeId
  pub election_elapsed : ℕ
  pub randomized_timeout : ℕ
  pub heartbeat_elapsed : ℕ
  pub tick_counter : ℕ
  pub votes : List (NodeId × Bool)
  pub prs : List (NodeId × Progress)
  pub read_ctx_counter : ℕ
  pub pending_reads : List PendingRead
  pub out : Output
  pub rng : ℕ

unfoldable pub commit_index : RaftNode → Index
commit_index n = n.commit

unfoldable pub leader_hint : RaftNode → Option NodeId
leader_hint n = n.leader_id

unfoldable pub apply_conf_change : List NodeId → EntryPayload → List NodeId
apply_conf_change v (conf_change (add_node id)) = if contains v id then v else v ++ id ∷ []
apply_conf_change v (conf_change (remove_node id)) = retain (λ x. not (x == id)) v
apply_conf_change v _ = v

-- The loop of `voters_at` over the entries, which stops above `idx`.
unfoldable pub fold_voters : Index → List NodeId → List Entry → List NodeId
fold_voters idx v [] = v
fold_voters idx v (e ∷ es) =
    let rest = fold_voters idx (apply_conf_change v e.payload) es in
    if ltb idx e.index then v else rest

unfoldable pub voters_at : RaftNode → Index → List NodeId
voters_at n idx = fold_voters idx n.voters_base n.log.entries

unfoldable pub voters : RaftNode → List NodeId
voters n = voters_at n (last_index n.log)

unfoldable pub quorum : RaftNode → ℕ
quorum n = length (voters n) / 2 + 1

-- The value that each voter contributes to a quorum: the node's own, or that of its progress, or 0.
unfoldable pub voter_values : RaftNode → ℕ → (Progress → ℕ) → List ℕ
voter_values n own field =
    map (λ v. if v == n.cfg.id then own else get_or (Option.map field (BTreeMap.get n.prs v)) 0)
      (voters n)

-- The element at `q - 1` of the sorted values, with the test on their number.
unfoldable pub quorum_value : RaftNode → ℕ → (Progress → ℕ) → Option ℕ
quorum_value n own field =
    let values = sort_desc (voter_values n own field) in
    if ltb (length values) (quorum n) then none else get_elem? values (quorum n - 1)

unfoldable pub lease_valid : RaftNode → Bool
lease_valid n =
    if is_leader n.role
    then elim (quorum_value n n.tick_counter (λ p. p.last_resp_tick)) [
      | none ↦ false
      | some quorum_tick ↦ ltb (n.tick_counter - quorum_tick) n.cfg.election_tick_min
    ]
    else false

-- `next_rand` without the store: the new generator state.
unfoldable pub shift_rng : ℕ → ℕ
shift_rng x0 =
    let x1 = bit_xor x0 (x0 / 2 ^ 12) in
    let x2 = bit_xor x1 (x1 * 2 ^ 25 % 2 ^ 64) in bit_xor x2 (x2 / 2 ^ 27)

unfoldable pub next_rand : RaftNode → RaftNode × ℕ
next_rand n = let x = shift_rng n.rng in (record n { rng = x }, x * 0x2545F4914F6CDD1D % 2 ^ 64)

unfoldable pub election_span : Config → ℕ
election_span cfg = max ((cfg.election_tick_max + 2 ^ 32 - cfg.election_tick_min) % 2 ^ 32) 1

unfoldable pub reset_election_timer : RaftNode → RaftNode
unfolding next_rand
reset_election_timer n =
    let (n1, r) = next_rand n in
    record n1 {
      randomized_timeout = (n1.cfg.election_tick_min + r % election_span n1.cfg % 2 ^ 32) % 2 ^ 32;
      election_elapsed = 0;
    }

-- The start of `new`, before the timer is set.
unfoldable pub initial_node : Config → List NodeId → Persisted → RaftNode
initial_node cfg initial_voters persisted =
    let snap_index = get_or (Option.map (λ (s : Snapshot). s.last_index) persisted.snapshot) 0 in
    let snap_term = get_or (Option.map (λ (s : Snapshot). s.last_term) persisted.snapshot) 0 in
    let base = get_or (Option.map (λ (s : Snapshot). s.voters) persisted.snapshot) initial_voters in
    record {
      cfg = cfg;
      log = Log.new snap_index snap_term persisted.entries;
      hs = persisted.hard_state;
      role = follower;
      leader_id = none;
      commit = snap_index;
      snapshot = persisted.snapshot;
      voters_base = base;
      election_elapsed = 0;
      randomized_timeout = 0;
      heartbeat_elapsed = 0;
      tick_counter = 0;
      votes = [];
      prs = [];
      read_ctx_counter = 0;
      pending_reads = [];
      out = empty_output;
      rng = bit_or (bit_xor cfg.seed (cfg.id * 0x9E3779B97F4A7C15 % 2 ^ 64)) 1;
    }

unfoldable pub new : Config → List NodeId → Persisted → RaftNode
unfolding initial_node reset_election_timer
new cfg initial_voters persisted = reset_election_timer (initial_node cfg initial_voters persisted)

unfoldable pub take_output : RaftNode → RaftNode × Output
take_output n = (record n { out = empty_output }, n.out)

-- Two stored votes are the same.
unfoldable pub same_vote : Option NodeId → Option NodeId → Bool
same_vote none none = true
same_vote (some a) (some b) = a == b
same_vote _ _ = false

unfoldable pub set_term : RaftNode → Term → RaftNode
set_term n t =
    if n.hs.term == t
    then n
    else let hs = record n.hs { term = t } in
      record n { hs = hs; out = record n.out { hard_state = some hs } }

unfoldable pub set_vote : RaftNode → Option NodeId → RaftNode
set_vote n v =
    if same_vote n.hs.voted_for v
    then n
    else let hs = record n.hs { voted_for = v } in
      record n { hs = hs; out = record n.out { hard_state = some hs } }

-- `self.out.messages.push(Message { from: self.cfg.id, .. })`.
unfoldable pub send : RaftNode → NodeId → Term → MessageBody → RaftNode
send n to t body = record n {
  out = record n.out {
    messages = n.out.messages ++ record { from = n.cfg.id; to = to; term = t; body = body } ∷ [];
  };
}

unfoldable pub log_up_to_date : RaftNode → Index → Term → Bool
log_up_to_date n lli llt =
    ltb (last_term n.log) llt || (last_term n.log == llt && leb (last_index n.log) lli)

unfoldable pub count_granted : RaftNode → ℕ
count_granted n = count (λ vote. vote.1 && contains (voters n) vote.0) n.votes

unfoldable pub become_follower : RaftNode → Term → Option NodeId → RaftNode
become_follower n t leader =
    let n1 = if ltb n.hs.term t then set_vote (set_term n t) none else n in
    reset_election_timer
      (record n1 { role = follower; leader_id = leader; prs = []; pending_reads = [] })
