-- ===== src/Kvsm/Effect.antt =====
-- crates/kvsm/src/lib.rs: the state machine against a map from keys to values and a map from
-- sessions to their last command, as functions.
use mathlib.Core.Path.{fun_ext}
use raft_kv_engine_project.Base.{
  ℕ, ◌≡◌, refl, ◌∙◌, ap, Bool, true, false, Option, none, some, List, [], ◌∷◌, arith, ltb, ◌==◌,
  if◌then◌else◌,
}
use raft_kv_engine_project.Base.BTreeMap
use raft_kv_engine_project.Base.Bytes.{Bytes, bytes_eq, value_eq}
use raft_kv_engine_project.Kvsm.Backend.{Backend, BackendLaws}
use raft_kv_engine_project.Kvsm.Machine.{
  Op, put, delete, cas, get, Command, OpResult, ok, value, stale, SessionState, StateMachine,
  execute, apply_fresh, apply_known, apply, apply_all,
}

pub record View : Type 0 where
  pub kv : Bytes → Option Bytes
  pub session : ℕ → Option SessionState

abbrev pub update : (Bytes → Option Bytes) → Bytes → Option Bytes → Bytes → Option Bytes
update f k v j = if bytes_eq k j then v else f j

-- The contents after an operation, and its answer.
abbrev pub effect : Op → (Bytes → Option Bytes) → Bytes → Option Bytes
effect (put k v) f = update f k (some v)
effect (delete k) f = update f k none
effect (cas k expect new) f = λ j. if value_eq (f k) expect then update f k new j else f j
effect (get k) f = f

abbrev pub answer : Op → (Bytes → Option Bytes) → OpResult
answer (put k v) f = ok
answer (delete k) f = ok
answer (cas k expect new) f = OpResult.cas (value_eq (f k) expect) (f k)
answer (get k) f = value (f k)

-- A command that its session has not seen runs, and the session remembers it.
abbrev pub run_fresh : View → Command → View × OpResult
run_fresh v c = (
  record {
    kv = effect c.op v.kv;
    session = λ id.
        if c.session_id == 0
        then v.session id
        else if c.session_id == id
        then some (record { last_seq = c.seq; last_result = answer c.op v.kv })
        else v.session id;
  },
  answer c.op v.kv,
)

-- The last command of a session is answered again, older ones are stale.
abbrev pub run_once : View → Command → Option SessionState → View × OpResult
run_once v c none = run_fresh v c
run_once v c (some s) =
    if c.seq == s.last_seq
    then (v, s.last_result)
    else if ltb c.seq s.last_seq
    then (v, stale)
    else run_fresh v c

abbrev pub run_command : View → Command → View × OpResult
run_command v c = if c.session_id == 0 then run_fresh v c else run_once v c (v.session c.session_id)

abbrev pub run_commands : View → List Command → View × List OpResult
run_commands v [] = (v, [])
run_commands v (c ∷ cs) =
    let (v1, r) = run_command v c in let (v2, rs) = run_commands v1 cs in (v2, r ∷ rs)

module _ (b : Backend) (laws : BackendLaws b) where
  open laws use {Holds, set-Holds, get-set}

  abbrev pub view : StateMachine b → View
  view m = record { kv = b.get m.backend; session = BTreeMap.get m.sessions }

  pub record IsValid (m : StateMachine b) : Type 0 where
    pub holds : Holds m.backend
    pub ascending : BTreeMap.IsAscending m.sessions

  execute-kv :
      (s : b.State) (op : Op) (j : Bytes)
      → Holds s
      → b.get (execute b s op).0 j ≡ effect op (b.get s) j
  unfolding execute
  execute-kv s (put k v) j h = get-set s k j (some v) h
  execute-kv s (delete k) j h = get-set s k j none h
  execute-kv s (cas k expect new) j h = ground (arith, get-set s k j new h)
  execute-kv s (get k) j h = refl

  execute-answer : (s : b.State) (op : Op) → (execute b s op).1 ≡ answer op (b.get s)
  unfolding execute
  execute-answer s (put k v) = refl
  execute-answer s (delete k) = refl
  execute-answer s (cas k expect new) = ground arith
  execute-answer s (get k) = refl

  execute-Holds : (s : b.State) (op : Op) → Holds s → Holds (execute b s op).0
  unfolding execute
  execute-Holds s (put k v) h = set-Holds s k (some v) h
  execute-Holds s (delete k) h = set-Holds s k none h
  execute-Holds s (cas k expect new) h = ground (arith, h, set-Holds s k new h)
  execute-Holds s (get k) h = h

  apply_fresh-IsValid :
      (m : StateMachine b) (c : Command) → IsValid m → IsValid (apply_fresh b m c).0
  unfolding apply_fresh
  apply_fresh-IsValid m c v = record {
    holds = execute-Holds m.backend c.op v.holds;
    ascending = ground (
      arith,
      v.ascending,
      BTreeMap.insert-IsAscending c.session_id
          (let r : SessionState = record {
            last_seq = c.seq;
            last_result = (execute b m.backend c.op).1;
          } in
            r)
          m.sessions v.ascending,
    );
  }

  -- Every command keeps the backend in order and the session table ascending.
  pub apply-IsValid : (m : StateMachine b) (c : Command) → IsValid m → IsValid (apply b m c).0
  unfolding apply
  apply-IsValid m c v = ground (arith, v, apply_fresh-IsValid m c v)

  session_fresh :
      (m : StateMachine b) (c : Command) (id : ℕ)
      → BTreeMap.get (apply_fresh b m c).0.sessions id ≡ (run_fresh (view m) c).0.session id
  unfolding apply_fresh
  session_fresh m c id = ground (
    arith,
    execute-answer m.backend c.op,
    BTreeMap.get-insert c.session_id id
        (let r : SessionState = record {
          last_seq = c.seq;
          last_result = (execute b m.backend c.op).1;
        } in
          r)
        m.sessions,
  )

  view-apply_fresh :
      (m : StateMachine b) (c : Command)
      → IsValid m
      → (view (apply_fresh b m c).0 ≡ (run_fresh (view m) c).0)
        × ((apply_fresh b m c).1 ≡ (run_fresh (view m) c).1)
  unfolding apply_fresh
  view-apply_fresh m c v = (
    λ i. record {
      kv = fun_ext (λ j. execute-kv m.backend c.op j v.holds) i;
      session = fun_ext (λ id. session_fresh m c id) i;
    },
    execute-answer m.backend c.op,
  )

  -- A result of the machine and one of the functions show the same.
  abbrev Shows : StateMachine b × OpResult → View × OpResult → Type 0
  Shows r s = (view r.0 ≡ s.0) × (r.1 ≡ s.1)

  Shows-if :
      (t : Bool) (x y : StateMachine b × OpResult) (x' y' : View × OpResult)
      → Shows x x'
      → Shows y y'
      → Shows (if t then x else y) (if t then x' else y')
  Shows-if true x y x' y' p q = p
  Shows-if false x y x' y' p q = q

  apply_known-Shows :
      (m : StateMachine b) (c : Command) (s : Option SessionState)
      → IsValid m
      → Shows (apply_known b m c s) (run_once (view m) c s)
  unfolding apply_known
  apply_known-Shows m c none v = view-apply_fresh m c v
  apply_known-Shows m c (some s) v =
      Shows-if _ (m, s.last_result) _ (view m, s.last_result) _ (refl, refl)
        (Shows-if _ (m, stale) _ (view m, stale) _ (refl, refl) (view-apply_fresh m c v))

  -- One command on a valid machine has the effect and the answer that the functions give: an
  -- operation runs if its session has not come so far, a repeated one is answered from the table,
  -- an older one is stale, and neither of these changes anything.
  pub apply-Shows :
      (m : StateMachine b) (c : Command) → IsValid m → Shows (apply b m c) (run_command (view m) c)
  unfolding apply
  apply-Shows m c v =
      Shows-if (c.session_id == 0) (apply_fresh b m c)
        (apply_known b m c (BTreeMap.get m.sessions c.session_id)) _ _ (view-apply_fresh m c v)
        (apply_known-Shows m c (BTreeMap.get m.sessions c.session_id) v)

  -- Any log applied to a valid machine leaves the contents and the sessions, and returns the
  -- results, that the functions give from the machine's contents and sessions.
  pub apply_all-run_commands :
      (m : StateMachine b) (cs : List Command)
      → IsValid m
      → (view (apply_all b m cs).0 ≡ (run_commands (view m) cs).0)
        × ((apply_all b m cs).1 ≡ (run_commands (view m) cs).1)
  unfolding apply_all
  apply_all-run_commands m [] v = (refl, refl)
  apply_all-run_commands m (c ∷ cs) v =
      let one = apply-Shows m c v in
      let rest = apply_all-run_commands (apply b m c).0 cs (apply-IsValid m c v) in
      (
        rest.0 ∙ ap (λ w. (run_commands w cs).0) one.0,
        λ i. one.1 i ∷ (rest.1 ∙ ap (λ w. (run_commands w cs).1) one.0) i,
      )
