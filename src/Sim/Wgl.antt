-- ===== src/Sim/Wgl.antt =====
-- crates/sim/src/wgl.rs: the linearizability checker. A bit mask is the list of its bits, the stack is
-- a list whose head is popped next, and the texts of the reports are left out.
use raft_kv_engine_project.Base.{
  ℕ, zero, suc, ◌-◌, ◌^◌, min, Bool, true, false, not, ◌&&◌, ◌||◌, Option, none, some, List, [],
  ◌∷◌, map, ltb, leb, ◌==◌, if◌then◌else◌, length, replicate, retain,
}
use raft_kv_engine_project.Sim.History.{HOp, HRes, HRecord, key}
pub mod Order
mod Register
mod Masks
mod Search
pub mod Soundness
pub mod Keys

pub data PKind : Type 0 where
  read : Option ℕ → PKind
  write : ℕ → PKind
  cas : Option ℕ → ℕ → Option Bool → PKind

pub record POp : Type 0 where
  pub invoke : ℕ
  pub ret : Option ℕ
  pub kind : PKind
  pub client : ℕ

-- Equality of two contents of the register.
unfoldable pub value_eq : Option ℕ → Option ℕ → Bool
value_eq none none = true
value_eq (some a) (some b) = a == b
value_eq _ _ = false

-- The verdict on a swap, given whether it would succeed.
unfoldable pub try_swap : Option Bool → Bool → Option ℕ → Option ℕ → Option (Option ℕ)
try_swap (some true) false updated value = none
try_swap (some false) true updated value = none
try_swap success would_succeed updated value = some (if would_succeed then updated else value)

unfoldable pub try_apply : PKind → Option ℕ → Option (Option ℕ)
unfolding value_eq try_swap
try_apply (read result) value = if value_eq result value then some value else none
try_apply (write val) value = some (some val)
try_apply (cas expect new success) value = try_swap success (value_eq value expect) (some new) value

abbrev pub expansion_budget : ℕ
expansion_budget = 5000000

abbrev pub u64_max : ℕ
u64_max = 2 ^ 64 - 1

-- `sort_by_key(|o| o.invoke)`, which keeps the order of equal keys.
unfoldable pub insert_op : POp → List POp → List POp
insert_op o [] = o ∷ []
insert_op o (x ∷ xs) = if leb o.invoke x.invoke then o ∷ x ∷ xs else x ∷ insert_op o xs

unfoldable pub sort_ops : List POp → List POp
unfolding insert_op
sort_ops [] = []
sort_ops (o ∷ os) = insert_op o (sort_ops os)

-- The bits that have been linearized, and the contents of the register.
abbrev pub State : Type 0
State = List Bool × Option ℕ

unfoldable pub completed : POp → Bool
completed o = elim o.ret [ none ↦ false | some r ↦ true ]

-- The closure `done`: every completed operation has its bit set.
unfoldable pub done : List Bool → List POp → Bool
unfolding completed
done (b ∷ bs) (o ∷ os) = (not (completed o) || b) && done bs os
done _ _ = true

-- `if let Some(r) = o.ret { min_ret = min_ret.min(r) }`.
unfoldable pub lower : ℕ → Option ℕ → ℕ
lower acc none = acc
lower acc (some r) = min acc r

unfoldable pub min_ret : ℕ → List Bool → List POp → ℕ
unfolding lower
min_ret acc (true ∷ bs) (o ∷ os) = min_ret acc bs os
min_ret acc (false ∷ bs) (o ∷ os) = min_ret (lower acc o.ret) bs os
min_ret acc _ _ = acc

-- The states that are pushed, in the order of the loop.
unfoldable pub candidates : ℕ → Option ℕ → List Bool → List POp → List State
unfolding try_apply
candidates limit value (b ∷ bs) (o ∷ os) =
    let later = map (λ (s : State). (b ∷ s.0, s.1)) (candidates limit value bs os) in
    if b then later else if ltb limit o.invoke then later else elim (try_apply o.kind value) [
      | none ↦ later
      | some new_value ↦ (true ∷ bs, new_value) ∷ later
    ]
candidates limit value _ _ = []

unfoldable pub push_all : List State → List State → List State
push_all [] stack = stack
push_all (s ∷ states) stack = push_all states (s ∷ stack)

unfoldable pub mask_eq : List Bool → List Bool → Bool
mask_eq [] [] = true
mask_eq (true ∷ xs) (true ∷ ys) = mask_eq xs ys
mask_eq (false ∷ xs) (false ∷ ys) = mask_eq xs ys
mask_eq _ _ = false

unfoldable pub seen : List State → State → Bool
unfolding mask_eq value_eq
seen [] s = false
seen (x ∷ memo) s = (mask_eq x.0 s.0 && value_eq x.1 s.1) || seen memo s

-- What the rounds of the loop come to until one that expands a state: everything that is completed has
-- been linearized, the stack is empty, or a state that was not seen before and the stack below it.
pub data Popped : Type 0 where
  finished exhausted : Popped
  fresh : State → List State → Popped

unfoldable pub pop_fresh : List POp → List State → List State → Popped
unfolding done seen
pop_fresh ops memo [] = exhausted
pop_fresh ops memo (s ∷ stack) =
    let later = pop_fresh ops memo stack in
    if done s.0 ops then finished else if seen memo s then later else fresh s stack

pub data Verdict : Type 0 where
  accepted too_many over_budget rejected malformed : Verdict

unfoldable pub expand : List POp → State → List State → List State
unfolding push_all candidates min_ret
expand ops s stack = push_all (candidates (min_ret u64_max s.0 ops) s.1 s.0 ops) stack

-- The loop of `check_key`, with the expansions left.
unfoldable pub search : ℕ → List POp → List State → List State → Verdict
unfolding pop_fresh expand
search zero ops memo stack = elim (pop_fresh ops memo stack) [
  | finished ↦ accepted
  | exhausted ↦ rejected
  | fresh s rest ↦ over_budget
]
search (suc left) ops memo stack = elim (pop_fresh ops memo stack) [
  | finished ↦ accepted
  | exhausted ↦ rejected
  | fresh s rest ↦ search left ops (s ∷ memo) (expand ops s rest)
]

unfoldable pub check_key : List POp → Verdict
unfolding sort_ops search
check_key ops =
    let sorted = sort_ops ops in
    let n = length sorted in
    if n == 0
    then accepted
    else if ltb 4096 n
    then too_many
    else search expansion_budget sorted [] ((replicate n false, none) ∷ [])

-- What a record of the history becomes.
pub data Prepared : Type 0 where
  skipped broken : Prepared
  ready : PKind → Prepared

unfoldable pub prepare : HOp → Option HRes → Prepared
prepare (HOp.read k) none = skipped
prepare (HOp.read k) (some (HRes.read_ok v)) = ready (read v)
prepare (HOp.write k val) res = ready (write val)
prepare (HOp.cas k expect new) (some (HRes.cas_ok success)) = ready (cas expect new (some success))
prepare (HOp.cas k expect new) none = ready (cas expect new none)
prepare _ _ = broken

-- The operations of a key; `none` is the early return on a malformed record.
unfoldable pub ops_of : ℕ → List HRecord → Option (List POp)
unfolding prepare key
ops_of k [] = some []
ops_of k (r ∷ rs) =
    let later = ops_of k rs in
    if key r.op == k
    then (elim (prepare r.op r.result) [
      | skipped ↦ later
      | broken ↦ none
      | ready kind ↦ elim later [
        | none ↦ none
        | some ops ↦
            some (record { invoke = r.invoke; ret = r.ret; kind = kind; client = r.client } ∷ ops)
      ]
    ])
    else later

-- `sort_unstable` and `dedup` on the keys.
unfoldable pub insert_key : ℕ → List ℕ → List ℕ
insert_key k [] = k ∷ []
insert_key k (x ∷ xs) = if leb k x then k ∷ x ∷ xs else x ∷ insert_key k xs

unfoldable pub sort_keys : List ℕ → List ℕ
unfolding insert_key
sort_keys [] = []
sort_keys (k ∷ ks) = insert_key k (sort_keys ks)

unfoldable pub dedup : List ℕ → List ℕ
dedup [] = []
dedup (x ∷ []) = x ∷ []
dedup (x ∷ y ∷ ys) = let rest = dedup (y ∷ ys) in if x == y then rest else x ∷ rest

-- The loop over the keys: the first that is not accepted ends it.
unfoldable pub check_keys : List ℕ → List HRecord → Verdict
unfolding check_key ops_of
check_keys [] history = accepted
check_keys (k ∷ ks) history = elim (ops_of k history) [
  | none ↦ malformed
  | some ops ↦ elim (check_key ops) [
    | accepted ↦ check_keys ks history
    | too_many ↦ too_many
    | over_budget ↦ over_budget
    | rejected ↦ rejected
    | malformed ↦ malformed
  ]
]

unfoldable pub check_history : List HRecord → Verdict
unfolding check_keys sort_keys dedup key
check_history history =
    check_keys (dedup (sort_keys (map (λ (r : HRecord). key r.op) history))) history
