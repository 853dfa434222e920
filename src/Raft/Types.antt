-- ===== src/Raft/Types.antt =====
-- crates/raft/src/types.rs: wire and state types. Identifiers, terms and indices are numbers, and
-- the bytes of a command or of a serialized state machine are lists of numbers.
use raft_kv_engine_project.Base.{ℕ, Bool, true, false, Option, none, some, List, [], ◌∷◌, ◌&&◌}

abbrev pub NodeId : Type 0
NodeId = ℕ

abbrev pub Term : Type 0
Term = ℕ

abbrev pub Index : Type 0
Index = ℕ

pub data ConfChange : Type 0 where
  add_node : NodeId → ConfChange
  remove_node : NodeId → ConfChange

pub data EntryPayload : Type 0 where
  noop : EntryPayload
  normal : List ℕ → EntryPayload
  conf_change : ConfChange → EntryPayload

pub record Entry : Type 0 where
  pub term : Term
  pub index : Index
  pub payload : EntryPayload

pub record HardState : Type 0 where
  pub term : Term
  pub voted_for : Option NodeId

pub record Snapshot : Type 0 where
  pub last_index : Index
  pub last_term : Term
  pub voters : List NodeId
  pub contents : List ℕ

pub data MessageBody : Type 0 where
  -- last_log_index, last_log_term
  pre_vote : Index → Term → MessageBody
  -- granted
  pre_vote_resp : Bool → MessageBody
  -- last_log_index, last_log_term
  request_vote : Index → Term → MessageBody
  -- granted
  request_vote_resp : Bool → MessageBody
  -- prev_log_index, prev_log_term, entries, leader_commit, read_ctx
  append_entries : Index → Term → List Entry → Index → ℕ → MessageBody
  -- success, match_index, conflict_index, read_ctx
  append_entries_resp : Bool → Index → Index → ℕ → MessageBody
  install_snapshot : Snapshot → MessageBody
  -- last_index
  install_snapshot_resp : Index → MessageBody

pub record Message : Type 0 where
  pub from : NodeId
  pub to : NodeId
  pub term : Term
  pub body : MessageBody

pub record Output : Type 0 where
  pub messages : List Message
  pub committed : List Entry
  pub hard_state : Option HardState
  pub append : List Entry
  pub snapshot : Option Snapshot
  pub read_states : List (ℕ × Index)

-- `Output::default()`.
abbrev pub empty_output : Output
empty_output = record {
  messages = [];
  committed = [];
  hard_state = none;
  append = [];
  snapshot = none;
  read_states = [];
}

abbrev no_items {ℓ} : {A : Type ℓ} → List A → Bool
no_items [] = true
no_items (x ∷ xs) = false

abbrev absent {ℓ} : {A : Type ℓ} → Option A → Bool
absent none = true
absent (some a) = false

unfoldable pub is_empty : Output → Bool
is_empty out =
    no_items out.messages
    && no_items out.committed
    && absent out.hard_state
    && no_items out.append
    && absent out.snapshot
    && no_items out.read_states

-- `Persisted`.
pub record Persisted : Type 0 where
  pub hard_state : HardState
  pub entries : List Entry
  pub snapshot : Option Snapshot

pub data Role : Type 0 where
  follower pre_candidate candidate leader : Role

abbrev pub is_leader : Role → Bool
is_leader leader = true
is_leader _ = false

pub data ProposeError : Type 0 where
  not_leader : Option NodeId → ProposeError
  conf_change_in_flight : ProposeError
  not_ready : ProposeError

-- `Result<A, ProposeError>`.
pub data Result (A : Type 0) : Type 0 where
  ok : A → Result A
  err : ProposeError → Result A

pub record Config : Type 0 where
  pub id : NodeId
  pub election_tick_min : ℕ
  pub election_tick_max : ℕ
  pub heartbeat_tick : ℕ
  pub max_batch_entries : ℕ
  pub max_inflight : ℕ
  pub pre_vote : Bool
  pub seed : ℕ

-- `Config::new`.
abbrev pub default_config : NodeId → ℕ → Config
default_config id seed = record {
  id = id;
  election_tick_min = 10;
  election_tick_max = 20;
  heartbeat_tick = 2;
  max_batch_entries = 64;
  max_inflight = 10;
  pre_vote = true;
  seed = seed;
}
