-- ===== src/Rpc/Tools.antt =====
-- kernel/src/rpc.rs: the tools.
pub mod Guards
pub mod Repeats
use kernai.Base.{
  ℕ, Bool, true, false, Option, none, some, [], ◌∷◌, if◌then◌else◌, ok, err, ◌>>=?◌, value_or,
}
use kernai.Text.{Text, bytes_of, joined, same}
use kernai.Text.Numbers.{decimal}
use kernai.Traps.Ring.{set_autonomous, set_classic_surface}
use kernai.Traps.Report.{write_ring_resource}
use kernai.Payload.Images.{Build}
use kernai.Payload.Table.{any_alive}
use kernai.Payload.Suites.{seed_suite}
use kernai.Payload.Hooks.{kill_pid, set_deadline}
use kernai.Rpc.Ops.{fnv1a, op_seen, op_record}
use kernai.Rpc.Json.{object_get, as_string, parse_u32}
use kernai.Rpc.Answers.{respond_result, respond_error, respond_accepted, respond_duplicate}
use kernai.Kernel.{Kernel}
use kernai.Rpc.Names.{
  invalid_params, busy, suite_named, Tool, run_suite, crash, kill, set_budget, ring_read,
  set_surface, set_autonomy, tool_named, refusal_text,
}

-- How a request ends: back in its caller, in a suite just seeded (`payload::run`), or in the
-- deliberate crash.
pub data Verdict : Type 0 where
  served seeded crashed : Verdict

-- `object_get(..).unwrap_or(..)` and `object_get(..).and_then(as_string)`
unfoldable pub member_or : Text → Text → Text → Text
unfolding object_get
member_or key obj default = value_or default (object_get key obj)

unfoldable pub string_member : Text → Text → Option Text
unfolding object_get as_string
string_member key obj = object_get key obj >>=? as_string

unfoldable pub number_member : Text → Text → Option ℕ
unfolding object_get parse_u32
number_member key obj = object_get key obj >>=? parse_u32

-- The guard of the tools that change something: an operation id that was seen is acknowledged
-- and nothing more, and a new one is recorded first.
unfoldable pub once : Option Text → Text → (Kernel → Verdict × Kernel) → Kernel → Verdict × Kernel
unfolding op_seen op_record fnv1a respond_duplicate
once none id act k = act k
once (some op) id act k =
    if op_seen (fnv1a op) k.ops
    then (served, respond_duplicate id op k)
    else act (record k { ops = op_record (fnv1a op) k.ops })

-- What `kill` and `set_budget` answer when they are done.
unfoldable pub killed_json : ℕ → ℕ → Text
unfolding bytes_of joined decimal
killed_json pid elapsed = joined (
    bytes_of "{\"status\":\"killed\",\"pid\":"
    ∷ decimal pid
    ∷ bytes_of ",\"elapsed\":"
    ∷ decimal elapsed
    ∷ bytes_of "}"
    ∷ [])

unfoldable pub budget_json : ℕ → ℕ → Text
unfolding bytes_of joined decimal
budget_json pid deadline = joined (
    bytes_of "{\"status\":\"budget_set\",\"pid\":"
    ∷ decimal pid
    ∷ bytes_of ",\"deadline\":"
    ∷ decimal deadline
    ∷ bytes_of "}"
    ∷ [])

-- The two behind the guard.
unfoldable pub kill_now : Text → ℕ → Kernel → Verdict × Kernel
unfolding kill_pid respond_result respond_error refusal_text killed_json
kill_now id pid k =
    let (r, k') = kill_pid pid k in
    elim r [
      | err e ↦ (served, respond_error id invalid_params (refusal_text e) k')
      | ok elapsed ↦ (served, respond_result id (killed_json pid elapsed) k')
    ]

unfoldable pub budget_now : Text → ℕ → ℕ → Kernel → Verdict × Kernel
unfolding set_deadline respond_result respond_error refusal_text budget_json
budget_now id pid deadline k =
    let (r, k') = set_deadline pid deadline k in
    elim r [
      | err e ↦ (served, respond_error id invalid_params (refusal_text e) k')
      | ok _ ↦ (served, respond_result id (budget_json pid deadline) k')
    ]

-- What the two dials answer, here and as resources.
unfoldable pub surface_json : Bool → Text
unfolding bytes_of
surface_json true = bytes_of "{\"surface\":\"classic\"}"
surface_json false = bytes_of "{\"surface\":\"agentic\"}"

unfoldable pub autonomy_json : Bool → Text
unfolding bytes_of
autonomy_json true = bytes_of "{\"autonomy\":\"autonomous\"}"
autonomy_json false = bytes_of "{\"autonomy\":\"reactive\"}"

unfoldable pub turn_surface : Bool → Text → Kernel → Verdict × Kernel
unfolding set_classic_surface respond_result surface_json
turn_surface on id k = (
  served,
  respond_result id (surface_json on) (record k { traps = set_classic_surface on k.traps }),
)

unfoldable pub turn_autonomy : Bool → Text → Kernel → Verdict × Kernel
unfolding set_autonomous respond_result autonomy_json
turn_autonomy on id k =
    (served, respond_result id (autonomy_json on) (record k { traps = set_autonomous on k.traps }))

unfoldable pub refuse : Text → ℕ → Text → Kernel → Verdict × Kernel
unfolding respond_error
refuse id code message k = (served, respond_error id code message k)

unfoldable pub tool_run_suite : Build → Text → Option Text → Text → Kernel → Verdict × Kernel
unfolding bytes_of any_alive refuse once respond_accepted
tool_run_suite b args op id k =
    let name = value_or [] (string_member (bytes_of "suite") args) in
    elim (suite_named b name) [
      | none ↦ refuse id invalid_params (bytes_of "unknown suite") k
      | some suite ↦
          if any_alive k
          then refuse id busy (bytes_of "busy: payloads active") k
          else once op id (λ k'. (seeded, seed_suite b suite (respond_accepted id name k'))) k
    ]

unfoldable pub crashing_json : Text
unfolding bytes_of
crashing_json = bytes_of "{\"status\":\"crashing\"}"

unfoldable pub tool_crash : Option Text → Text → Kernel → Verdict × Kernel
unfolding bytes_of any_alive refuse once respond_result crashing_json
tool_crash op id k =
    if any_alive k
    then refuse id busy (bytes_of "busy: payloads active") k
    else once op id (λ k'. (crashed, respond_result id crashing_json k')) k

unfoldable pub tool_kill : Text → Option Text → Text → Kernel → Verdict × Kernel
unfolding bytes_of refuse once kill_now
tool_kill args op id k = elim (number_member (bytes_of "pid") args) [
  | none ↦ refuse id invalid_params (bytes_of "missing pid") k
  | some pid ↦ once op id (kill_now id pid) k
]

unfoldable pub tool_set_budget : Text → Option Text → Text → Kernel → Verdict × Kernel
unfolding bytes_of refuse once budget_now
tool_set_budget args op id k = elim (number_member (bytes_of "pid") args) [
  | none ↦ refuse id invalid_params (bytes_of "missing pid") k
  | some pid ↦ elim (number_member (bytes_of "deadline") args) [
    | none ↦ refuse id invalid_params (bytes_of "missing deadline") k
    | some deadline ↦ once op id (budget_now id pid deadline) k
  ]
]

unfoldable pub tool_set_surface : Text → Text → Kernel → Verdict × Kernel
unfolding bytes_of same refuse turn_surface
tool_set_surface args id k =
    let mode = value_or [] (string_member (bytes_of "mode") args) in
    if same mode (bytes_of "classic")
    then turn_surface true id k
    else (if same mode (bytes_of "agentic")
        then turn_surface false id k
        else refuse id invalid_params (bytes_of "mode must be classic|agentic") k)

unfoldable pub tool_set_autonomy : Text → Text → Kernel → Verdict × Kernel
unfolding bytes_of same refuse turn_autonomy
tool_set_autonomy args id k =
    let mode = value_or [] (string_member (bytes_of "mode") args) in
    if same mode (bytes_of "autonomous")
    then turn_autonomy true id k
    else (if same mode (bytes_of "reactive")
        then turn_autonomy false id k
        else refuse id invalid_params (bytes_of "mode must be reactive|autonomous") k)

unfoldable pub run_tool : Build → Tool → Text → Option Text → Text → Kernel → Verdict × Kernel
unfolding tool_run_suite tool_crash tool_kill tool_set_budget tool_set_surface tool_set_autonomy
    respond_result
run_tool b run_suite args op id k = tool_run_suite b args op id k
run_tool b crash args op id k = tool_crash op id k
run_tool b kill args op id k = tool_kill args op id k
run_tool b set_budget args op id k = tool_set_budget args op id k
run_tool b ring_read args op id k = (served, respond_result id (write_ring_resource k.traps) k)
run_tool b set_surface args op id k = tool_set_surface args id k
run_tool b set_autonomy args op id k = tool_set_autonomy args id k

unfoldable pub handle_tools_call : Build → Text → Text → Kernel → Verdict × Kernel
unfolding bytes_of member_or string_member tool_named run_tool refuse
handle_tools_call b json id k =
    let params = member_or (bytes_of "params") json (bytes_of "{}") in
    let op = string_member (bytes_of "opId") params in
    let args = member_or (bytes_of "arguments") params (bytes_of "{}") in
    elim (string_member (bytes_of "name") params) [
      | none ↦ refuse id invalid_params (bytes_of "missing tool name") k
      | some name ↦ elim (tool_named name) [
        | none ↦ refuse id invalid_params (bytes_of "unknown tool") k
        | some tool ↦ run_tool b tool args op id k
      ]
    ]
