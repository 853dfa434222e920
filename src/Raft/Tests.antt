-- ===== src/Raft/Tests.antt =====
-- Runs of the node of crates/raft on concrete inputs, and the theorems at them.
use raft_kv_engine_project.Base.{
  ◌++◌, map, retain, ◌-◌, ◌≤◌, ◌<◌, ◌≡◌, ◌≢◌, refl, ◌⊎◌, true, false, not, ◌&&◌, Option, none, some,
  List, [], ◌∷◌, arith, get_or, All, any, count, leb, ltb,
}
use raft_kv_engine_project.Raft.Types.{
  NodeId, Index, Entry, noop, normal, conf_change, add_node, leader, is_leader, Message,
  append_entries, request_vote, Persisted, default_config,
}
use raft_kv_engine_project.Base.BTreeMap
use raft_kv_engine_project.Base.Sort.{sort_desc}
use raft_kv_engine_project.Raft.Log
use raft_kv_engine_project.Raft.Node
use raft_kv_engine_project.Raft.Node.{RaftNode, PendingRead}
use raft_kv_engine_project.Raft.Replication
use raft_kv_engine_project.Raft.Election
use raft_kv_engine_project.Raft.Follower
use raft_kv_engine_project.Raft.Leader
use raft_kv_engine_project.Raft.Step
use raft_kv_engine_project.Raft.Step.{
  Event, clock, receive, client_command, client_read, compaction, drain, handle, run,
}
use raft_kv_engine_project.Raft.Advance.{IsValid}
use raft_kv_engine_project.Raft.Safety
use raft_kv_engine_project.Raft.Conflict
use raft_kv_engine_project.Raft.Keeps
use raft_kv_engine_project.Raft.Quorum

abbrev first_entry : Entry
first_entry = record { term = 1; index = 1; payload = noop }

abbrev second_entry : Entry
second_entry = record { term = 1; index = 2; payload = normal (7 ∷ []) }

abbrev disk : Persisted
disk = record {
  hard_state = record { term = 1; voted_for = some 2 };
  entries = first_entry ∷ [];
  snapshot = none;
}

abbrev three : List NodeId
three = 1 ∷ 2 ∷ 3 ∷ []

abbrev fresh : RaftNode
fresh = Node.new (default_config 1 5) three disk

-- The leader 2 sends the second entry and commits the first.
abbrev replicate_second : Message
replicate_second = record {
  from = 2;
  to = 1;
  term = 1;
  body = append_entries 1 1 (second_entry ∷ []) 1 0;
}

-- A candidate of the same term asks for a vote.
abbrev ask_vote : Message
ask_vote = record { from = 3; to = 1; term = 1; body = request_vote 5 1 }

abbrev script : List Event
script = receive replicate_second ∷ clock ∷ drain ∷ receive ask_vote ∷ compaction 1 [] ∷ []

-- Opening this opens every operation that the runs below make.
open_run : RaftNode → List Event → Option RaftNode
unfolding Log.assert_contiguous Log.new Log.first_index Log.last_index Log.last_term Log.term
    Log.get Log.slice Log.push Log.truncate_from Log.compact Log.reset_to_snapshot
    Node.apply_conf_change Node.fold_voters Node.voters_at Node.voters Node.quorum Node.voter_values
    Node.quorum_value Node.lease_valid Node.shift_rng Node.next_rand Node.election_span
    Node.reset_election_timer Node.initial_node Node.new Node.take_output Node.same_vote
    Node.set_term Node.set_vote Node.send Node.log_up_to_date Node.count_granted
    Node.become_follower Replication.has_term Replication.set_progress Replication.add_progress
    Replication.sync_progress_with_voters Replication.send_snapshot Replication.window_full
    Replication.batch Replication.send_entries Replication.send_ready Replication.send_append
    Replication.send_each Replication.broadcast_append Replication.entries_from Replication.removes
    Replication.commit_entries Replication.advance_commit_to Replication.maybe_advance_commit
    Replication.push_entry Replication.append_local Replication.released_reads
    Replication.release_reads Replication.process_read_acks Replication.reply_append
    Election.send_peers Election.leader_state Election.become_leader Election.candidate_state
    Election.campaign Election.pre_candidate_state Election.campaign_pre Election.leader_alive
    Election.grants_pre_vote Election.handle_pre_vote Election.record_vote
    Election.handle_pre_vote_resp Election.can_vote Election.handle_request_vote
    Election.handle_request_vote_resp Follower.follow Follower.first_of_term Follower.find_new
    Follower.push_all Follower.store_entries Follower.append_at Follower.handle_append_entries
    Follower.adopt_snapshot Follower.handle_install_snapshot Leader.propose Leader.is_conf_change
    Leader.conf_in_flight Leader.propose_conf_change Leader.queue_read Leader.read_index
    Leader.heard Leader.accepted Leader.rejected Leader.send_if_behind Leader.handle_append_resp
    Leader.installed Leader.handle_install_snapshot_resp Leader.snapshot_at Leader.compact
    Step.timeout Step.tick_leader Step.tick_other Step.tick Step.named_leader Step.answer_stale
    Step.dispatch Step.step_term Step.step_body Step.step run handle sort_desc BTreeMap.get
    BTreeMap.insert BTreeMap.or_insert BTreeMap.retain_keys BTreeMap.keys
open_run = run

fresh-IsValid : IsValid fresh
fresh-IsValid = (Safety.new-IsValid (default_config 1 5) three disk (refl, tt)).0

-- The node after one message.
abbrev take_first : Message → RaftNode
unfolding open_run
take_first m = get_or (handle fresh (receive m)) fresh

finished : RaftNode
unfolding open_run
finished = get_or (run fresh script) fresh

ran : run fresh script ≡ some finished
unfolding open_run finished
ran = refl

script_valid : All Safety.EventIsValid script
script_valid = omega arith

run-IsValid_example : IsValid finished
run-IsValid_example = Safety.run-IsValid fresh script finished script_valid fresh-IsValid ran

run-committed_example :
    (fresh.commit ≤ finished.commit)
    × (fresh.log.snap_index ≤ finished.log.snap_index)
    × ((j : Index)
        → finished.log.snap_index < j
        → j ≤ fresh.commit
        → Log.get finished.log j ≡ Log.get fresh.log j)
run-committed_example = Safety.run-committed fresh script finished script_valid fresh-IsValid ran

run-voted_for_example :
    (fresh.hs.term ≤ finished.hs.term)
    × ((candidate : NodeId)
        → finished.hs.term ≡ fresh.hs.term
        → fresh.hs.voted_for ≡ some candidate
        → finished.hs.voted_for ≡ some candidate)
run-voted_for_example = Safety.run-voted_for fresh script finished script_valid fresh-IsValid ran

handle-hard_state_example :
    ((take_first ask_vote).out.hard_state ≡ some (take_first ask_vote).hs)
    ⊎ (((take_first ask_vote).hs ≡ fresh.hs)
        × ((take_first ask_vote).out.hard_state ≡ fresh.out.hard_state))
unfolding open_run
handle-hard_state_example =
    Safety.handle-hard_state fresh (receive ask_vote) (take_first ask_vote) (λ e. cc) tt
      fresh-IsValid refl

step-ne-none_example : Step.step fresh replicate_second ≢ none
unfolding open_run
step-ne-none_example =
    Keeps.Total.step-ne-none fresh replicate_second (refl, tt) ((λ a b. absurd (no_second b)), tt)
  where
    no_second : 2 ≤ fresh.commit → ⊥
    no_second b = omega arith

-- Node 1 leads term 2, and node 2 has acknowledged its first entry.
led : RaftNode
unfolding open_run
led = Election.become_leader (Election.candidate_state fresh)

acked : RaftNode
unfolding led
acked =
    Replication.set_progress led 2
      (record (Node.new_progress 3) { matched = 2; acked_read_ctx = 1; last_resp_tick = 0 })

moved : (Replication.maybe_advance_commit acked).commit ≢ acked.commit
unfolding acked
moved = omega arith

low : Node.quorum acked ≤ count (λ x. leb x 2) (Node.voters acked)
unfolding acked
low = omega arith

high : Node.quorum acked ≤ count (λ x. leb 2 x) (Node.voters acked)
unfolding acked
high = omega arith

maybe_advance_commit-quorum_example :
    (acked.role ≡ leader)
    × (acked.commit < (Replication.maybe_advance_commit acked).commit)
    × (Replication.has_term acked.log (Replication.maybe_advance_commit acked).commit acked.hs.term
        ≡ true)
    × (Node.quorum acked
        ≤ count
            (leb (Replication.maybe_advance_commit acked).commit)
            (Node.voter_values acked (Log.last_index acked.log) (λ p. p.matched)))
maybe_advance_commit-quorum_example = Quorum.Decisions.maybe_advance_commit-quorum acked moved

-- The leader, twenty ticks on, with two reads of which the first round is acknowledged.
polled : RaftNode
unfolding acked
polled =
    record (Replication.set_progress led 2
      (record (Node.new_progress 3) { matched = 2; acked_read_ctx = 1; last_resp_tick = 15 })) {
        tick_counter = 20;
        read_ctx_counter = 2;
        pending_reads = (1, 7, 1) ∷ (2, 8, 2) ∷ [];
      }

polled_ticks :
    (0 < polled.cfg.election_tick_min) × (polled.cfg.election_tick_min ≤ polled.tick_counter)
unfolding polled
polled_ticks = omega arith

lease_valid-quorum_example : Node.lease_valid polled ≡ (
    is_leader polled.role
    && leb (Node.quorum polled) (count (Quorum.Decisions.heard_of polled) (Node.voters polled)))
lease_valid-quorum_example =
    Quorum.Decisions.lease_valid-quorum polled polled_ticks.0 polled_ticks.1

lease_run : Node.lease_valid polled ≡ true
unfolding polled
lease_run = refl

polled_rounds : All (λ (r : PendingRead). 0 < r.0) polled.pending_reads
unfolding polled
polled_rounds = omega arith

apply_conf_change_overlap_example : any (λ x. leb x 2 && leb 2 x) three ≡ true
unfolding open_run
apply_conf_change_overlap_example =
    Quorum.Overlap.apply_conf_change_overlap three (conf_change (add_node 4)) (λ x. leb x 2)
      (λ x. leb 2 x) (refl, (refl, (refl, tt))) (omega arith) (omega arith)

process_read_acks-quorum_example :
    ((Replication.process_read_acks polled).pending_reads
      ≡ retain (λ r. not (Quorum.Decisions.is_ready polled r)) polled.pending_reads)
    × ((Replication.process_read_acks polled).out.read_states
        ≡ polled.out.read_states
          ++ map
              (λ (r : PendingRead). (r.1, r.2))
              (retain (Quorum.Decisions.is_ready polled) polled.pending_reads))
process_read_acks-quorum_example = Quorum.Decisions.process_read_acks-quorum polled polled_rounds

-- The first read is released, and the second waits.
read_acks_run :
    ((Replication.process_read_acks polled).out.read_states ≡ (7, 1) ∷ [])
    × ((Replication.process_read_acks polled).pending_reads ≡ (2, 8, 2) ∷ [])
unfolding polled Replication.process_read_acks
read_acks_run = (refl, refl)

first_of_term_lem_example :
    (Follower.first_of_term fresh.log 1 2 2 ≤ 2)
    × ((ltb (Log.first_index fresh.log) (Follower.first_of_term fresh.log 1 2 2)
          && Replication.has_term fresh.log (Follower.first_of_term fresh.log 1 2 2 - 1) 1)
        ≡ false)
    × ((leb (Follower.first_of_term fresh.log 1 2 2) 1
          && ltb 1 2
          && not (Replication.has_term fresh.log 1 1))
        ≡ false)
first_of_term_lem_example = Conflict.first_of_term_lem fresh.log 1 2 2 1 (omega arith)
