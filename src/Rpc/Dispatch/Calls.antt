-- ===== src/Rpc/Dispatch/Calls.antt =====
-- kernel/src/rpc.rs: what the tools of `tools/call` can do.
use kernai.Base.{
  ℕ, ◌≡◌, refl, ◌∙◌, inl, inr, Bool, true, false, Option, List, [], ◌∷◌, Result-cases, Bool-cases,
  Option-cases, value_or,
}
use kernai.Text.{Text, bytes_of, same}
use kernai.Payload.Slot.{no_pid, is_empty}
use kernai.Payload.Images.{Build, image_at}
use kernai.Payload.Table.{any_alive, enqueue, position}
use kernai.Payload.Suites.{Suite, seed, seed_suite, suite_queue, enqueue_all, clear_table}
use kernai.Payload.Hooks.{kill_pid, set_deadline}
use kernai.Rpc.Dispatch.Spares.{
  Spares, Spares-same, Spares-trans, kill_pid-Spares, set_deadline-Spares,
}
use kernai.Traps.Ring.{set_autonomous, set_classic_surface}
use kernai.Rpc.Names.{suite_named, invalid_params, busy, refusal_text}
use kernai.Rpc.Answers.{respond_result, respond_accepted}
use kernai.Rpc.Tools.{
  seeded, crashed, string_member, number_member, kill_now, budget_now, tool_run_suite, tool_crash,
  tool_kill, tool_set_budget, tool_set_surface, tool_set_autonomy, killed_json, budget_json,
  surface_json, autonomy_json, crashing_json, turn_surface, turn_autonomy,
}
use kernai.Kernel.{Kernel, put_slot}
use kernai.Rpc.Dispatch.Answered.{
  IsAnswered, Serves, respond_result-Answers, respond_error-Answers, respond_accepted-Answers,
  refuse-Serves, once-Serves,
}

kill_now-Serves : (b : Build) (id : Text) (pid : ℕ) (k : Kernel) → Serves b k (kill_now id pid k)
unfolding kill_now
kill_now-Serves b id pid k = elim (Result-cases (kill_pid pid k).0) [
  | inl (elapsed, e) ↦
      rw (e, kill_now)
        (then_answer (respond_result-Answers id (killed_json pid elapsed) (kill_pid pid k).1))
  | inr (r, e) ↦
      rw (e, kill_now)
        (then_answer (respond_error-Answers id invalid_params (refusal_text r) (kill_pid pid k).1))
]
  where
    then_answer :
        {k' : Kernel}
        → Spares (kill_pid pid k).1 k' × IsAnswered k'.log
        → Spares k k' × IsAnswered k'.log
    then_answer (q, a) = (Spares-trans k _ _ (kill_pid-Spares pid k) q, a)

budget_now-Serves :
    (b : Build) (id : Text) (pid deadline : ℕ) (k : Kernel)
    → Serves b k (budget_now id pid deadline k)
unfolding budget_now
budget_now-Serves b id pid deadline k = elim (Result-cases (set_deadline pid deadline k).0) [
  | inl (u, e) ↦
      rw (e, budget_now)
        (then_answer
          (respond_result-Answers id (budget_json pid deadline) (set_deadline pid deadline k).1))
  | inr (r, e) ↦
      rw (e, budget_now)
        (then_answer (
          respond_error-Answers id invalid_params (refusal_text r) (set_deadline pid deadline k).1))
]
  where
    then_answer :
        {k' : Kernel}
        → Spares (set_deadline pid deadline k).1 k' × IsAnswered k'.log
        → Spares k k' × IsAnswered k'.log
    then_answer (q, a) = (Spares-trans k _ _ (set_deadline-Spares pid deadline k) q, a)

log-enqueue : (image caps parent : ℕ) (k : Kernel) → (enqueue image caps parent k).1.log ≡ k.log
unfolding enqueue put_slot
log-enqueue image caps parent k = elim (Option-cases (position is_empty k.table 0)) [
  | inl e ↦ rw (e, enqueue) refl
  | inr (pid, e) ↦ rw (e, enqueue) refl
]

log-enqueue_all : (images : List ℕ) (k : Kernel) → (enqueue_all images k).log ≡ k.log
unfolding enqueue_all
log-enqueue_all [] k = refl
log-enqueue_all (image ∷ rest) k =
    log-enqueue_all rest (enqueue image (image_at image).caps no_pid k).1
    ∙ log-enqueue image (image_at image).caps no_pid k

-- Seeding emits no event.
log-seed_suite : (b : Build) (suite : Suite) (k : Kernel) → (seed_suite b suite k).log ≡ k.log
unfolding seed_suite seed clear_table
log-seed_suite b suite k = log-enqueue_all (suite_queue suite) (clear_table b k)

seeding-Serves :
    (b : Build) (suite : Suite) (id name : Text) (k : Kernel)
    → any_alive k ≡ false
    → Serves b k (seeded, seed_suite b suite (respond_accepted id name k))
seeding-Serves b suite id name k a =
    let (q, (n, t, rest, e, l)) = respond_accepted-Answers id name k in
    (a, suite, _, q, refl, (n, t, rest, log-seed_suite b suite _ ∙ e, l))

module _ (b : Build) (args : Text) (op : Option Text) (id : Text) (k : Kernel) where
  pub tool_crash-Serves : Serves b k (tool_crash op id k)
  unfolding tool_crash
  tool_crash-Serves = elim (Bool-cases (any_alive k)) [
    | inl a ↦ rw (a, tool_crash) (refuse-Serves b id busy (bytes_of "busy: payloads active") k)
    | inr a ↦
        rw (a, tool_crash)
          (once-Serves b id op (λ k'. (crashed, respond_result id crashing_json k')) k
            (λ o.
              let (q, n) = respond_result-Answers id crashing_json (record k { ops = o }) in
              (a, q, n)))
  ]

  pub tool_set_budget-Serves : Serves b k (tool_set_budget args op id k)
  unfolding tool_set_budget
  tool_set_budget-Serves = elim (Option-cases (number_member (bytes_of "pid") args)) [
    | inl e ↦ rw (e, tool_set_budget) (refuse-Serves b id invalid_params (bytes_of "missing pid") k)
    | inr (pid, e) ↦ elim (Option-cases (number_member (bytes_of "deadline") args)) [
      | inl f ↦
          rw (e, tool_set_budget, f)
            (refuse-Serves b id invalid_params (bytes_of "missing deadline") k)
      | inr (deadline, f) ↦
          rw (e, tool_set_budget, f)
            (once-Serves b id op (budget_now id pid deadline) k
              (λ o. budget_now-Serves b id pid deadline (record k { ops = o })))
    ]
  ]

  pub tool_run_suite-Serves : Serves b k (tool_run_suite b args op id k)
  unfolding tool_run_suite
  tool_run_suite-Serves = elim (Option-cases (suite_named b name)) [
    | inl e ↦
        rw (e, tool_run_suite) (refuse-Serves b id invalid_params (bytes_of "unknown suite") k)
    | inr (suite, e) ↦ elim (Bool-cases (any_alive k)) [
      | inl a ↦
          rw (e, tool_run_suite, a) (refuse-Serves b id busy (bytes_of "busy: payloads active") k)
      | inr a ↦
          rw (e, tool_run_suite, a)
            (once-Serves b id op (λ k'. (seeded, seed_suite b suite (respond_accepted id name k')))
              k (λ o. seeding-Serves b suite id name (record k { ops = o }) a))
    ]
  ]
    where
      name : Text
      name = value_or [] (string_member (bytes_of "suite") args)

  turn_surface-Serves : (on : Bool) → Serves b k (turn_surface on id k)
  unfolding turn_surface
  turn_surface-Serves on =
      let (q, a) =
        respond_result-Answers id (surface_json on)
          (record k { traps = set_classic_surface on k.traps }) in
      (Spares-trans k _ _ (Spares-same k _ refl refl) q, a)

  turn_autonomy-Serves : (on : Bool) → Serves b k (turn_autonomy on id k)
  unfolding turn_autonomy
  turn_autonomy-Serves on =
      let (q, a) =
        respond_result-Answers id (autonomy_json on)
          (record k { traps = set_autonomous on k.traps }) in
      (Spares-trans k _ _ (Spares-same k _ refl refl) q, a)

  pub tool_set_surface-Serves : Serves b k (tool_set_surface args id k)
  unfolding tool_set_surface
  tool_set_surface-Serves = elim (Bool-cases (same mode (bytes_of "classic"))) [
    | inl e ↦ rw (e, tool_set_surface) (turn_surface-Serves true)
    | inr e ↦ elim (Bool-cases (same mode (bytes_of "agentic"))) [
      | inl f ↦ rw (e, tool_set_surface, f) (turn_surface-Serves false)
      | inr f ↦
          rw (e, tool_set_surface, f)
            (refuse-Serves b id invalid_params (bytes_of "mode must be classic|agentic") k)
    ]
  ]
    where
      mode : Text
      mode = value_or [] (string_member (bytes_of "mode") args)

  pub tool_set_autonomy-Serves : Serves b k (tool_set_autonomy args id k)
  unfolding tool_set_autonomy
  tool_set_autonomy-Serves = elim (Bool-cases (same mode (bytes_of "autonomous"))) [
    | inl e ↦ rw (e, tool_set_autonomy) (turn_autonomy-Serves true)
    | inr e ↦ elim (Bool-cases (same mode (bytes_of "reactive"))) [
      | inl f ↦ rw (e, tool_set_autonomy, f) (turn_autonomy-Serves false)
      | inr f ↦
          rw (e, tool_set_autonomy, f)
            (refuse-Serves b id invalid_params (bytes_of "mode must be reactive|autonomous") k)
    ]
  ]
    where
      mode : Text
      mode = value_or [] (string_member (bytes_of "mode") args)

  pub tool_kill-Serves : Serves b k (tool_kill args op id k)
  unfolding tool_kill
  tool_kill-Serves = elim (Option-cases (number_member (bytes_of "pid") args)) [
    | inl e ↦ rw (e, tool_kill) (refuse-Serves b id invalid_params (bytes_of "missing pid") k)
    | inr (pid, e) ↦
        rw (e, tool_kill)
          (once-Serves b id op (kill_now id pid) k
            (λ o. kill_now-Serves b id pid (record k { ops = o })))
  ]
