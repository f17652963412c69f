-- ===== src/Rpc/Tools/Repeats.antt =====
-- kernel/src/rpc.rs: the tools that take an operation id act at most once under it.
use kernai.Base.{
  ℕ, ◌≡◌, ◌⊎◌, inl, inr, refl, ap, ◌∙◌, true, Bool-cases, Option-cases, some, List, [], ◌∷◌, length,
  Result, ok, err, Result-cases, value_or, ltb,
}
use kernai.Text.{Text, bytes_of}
use kernai.Payload.Slot.{is_pending, is_empty, max_proc, no_pid}
use kernai.Payload.Images.{Build, image_at}
use kernai.Payload.Table.{any_alive, enqueue, position}
use kernai.Payload.Suites.{Suite, seed_suite, seed, clear_table, enqueue_all, suite_queue}
use kernai.Payload.Hooks.{Refusal, kill_pid, set_deadline}
use kernai.Payload.Kills.{Kills, kill_pid-Kills}
use kernai.Rpc.Ops.{op_slots, fnv1a, op_seen}
use kernai.Rpc.Names.{
  Tool, run_suite, crash, kill, set_budget, ring_read, set_surface, set_autonomy, suite_named,
  invalid_params, busy,
}
use kernai.Rpc.Answers.{
  emit_rpc, respond_result, respond_error, respond_accepted, respond_duplicate, result_json,
  error_json, duplicate_json,
}
use kernai.Rpc.Tools.{
  Verdict, served, seeded, crashed, once, refuse, run_tool, tool_run_suite, tool_crash, tool_kill,
  tool_set_budget, kill_now, budget_now, string_member, number_member, crashing_json,
}
use kernai.Rpc.Tools.Guards.{op_seen-op_record, once-seen, once-new}
use kernai.Kernel.{Kernel, put_slot, slot_at, emit}

-- The tools that ask for an operation id.
abbrev pub IsGuarded : Tool → Type 0
IsGuarded run_suite = Unit
IsGuarded crash = Unit
IsGuarded kill = Unit
IsGuarded set_budget = Unit
IsGuarded _ = ⊥

-- The call is served by one answer, and nothing else of the kernel changes.
abbrev pub OnlyAnswers : Kernel → Verdict × Kernel → Type 0
OnlyAnswers k r = (answer : Text) × (r ≡ (served, emit_rpc answer k))

refuse-OnlyAnswers :
    (id : Text) (code : ℕ) (message : Text) (k : Kernel) → OnlyAnswers k (refuse id code message k)
unfolding refuse respond_error
refuse-OnlyAnswers id code message k = (error_json id code message, refl)

-- What a call with an operation id has done: it only answered, or the id counts as seen.
abbrev Once : Text → Kernel → Verdict × Kernel → Type 0
Once op k r = OnlyAnswers k r ⊎ (op_seen (fnv1a op) r.1.ops ≡ true)

once-OnlyAnswers :
    (op id : Text) (act : Kernel → Verdict × Kernel) (k : Kernel)
    → op_seen (fnv1a op) k.ops ≡ true
    → OnlyAnswers k (once (some op) id act k)
unfolding respond_duplicate respond_result
once-OnlyAnswers op id act k e = (result_json id (duplicate_json op), once-seen op id act k e)

once-Once :
    (op id : Text) (act : Kernel → Verdict × Kernel) (k : Kernel)
    → length k.ops.slots ≡ op_slots
    → ((l : Kernel) → (act l).1.ops ≡ l.ops)
    → Once op k (once (some op) id act k)
once-Once op id act k n keeps = elim (Bool-cases (op_seen (fnv1a op) k.ops)) [
  | inl e ↦ inl (once-OnlyAnswers op id act k e)
  | inr e ↦ inr (
      ap (op_seen (fnv1a op)) (ap (λ r. r.1.ops) (once-new op id act k e) ∙ keeps _)
      ∙ op_seen-op_record (fnv1a op) k.ops n)
]

-- Nothing that the tools do moves the window.
kill_now-ops : (id : Text) (pid : ℕ) (k : Kernel) → (kill_now id pid k).1.ops ≡ k.ops
unfolding kill_now respond_result respond_error emit_rpc emit put_slot
kill_now-ops id pid k = elim (Result-cases (kill_pid pid k).0) [
  | inl (elapsed, e) ↦ rw (e, kill_now) killed
  | inr (r, e) ↦ rw (e, kill_now) killed
]
  where
    ops_of : (r : Result Refusal ℕ × Kernel) → Kills pid k r → r.1.ops ≡ k.ops
    ops_of (err Refusal.no_such_pid, k') (l, e) = ap (λ x. x.ops) e
    ops_of (err Refusal.not_alive, k') (l, p, e) = ap (λ x. x.ops) e
    ops_of (ok t, k') (l, p, r) = r.ops

    killed : (kill_pid pid k).1.ops ≡ k.ops
    killed = ops_of (kill_pid pid k) (kill_pid-Kills pid k)

set_deadline-ops : (pid units : ℕ) (k : Kernel) → (set_deadline pid units k).1.ops ≡ k.ops
unfolding set_deadline put_slot
set_deadline-ops pid units k = elim (Bool-cases (ltb pid max_proc)) [
  | inr l ↦ rw (l, set_deadline) refl
  | inl l ↦ elim (Bool-cases (is_pending (slot_at pid k).state)) [
    | inr p ↦ rw (l, set_deadline, p) refl
    | inl p ↦ rw (l, set_deadline, p) refl
  ]
]

budget_now-ops :
    (id : Text) (pid deadline : ℕ) (k : Kernel) → (budget_now id pid deadline k).1.ops ≡ k.ops
unfolding budget_now respond_result respond_error emit_rpc emit
budget_now-ops id pid deadline k = elim (Result-cases (set_deadline pid deadline k).0) [
  | inl (u, e) ↦ rw (e, budget_now) (set_deadline-ops pid deadline k)
  | inr (r, e) ↦ rw (e, budget_now) (set_deadline-ops pid deadline k)
]

enqueue-ops : (image caps parent : ℕ) (k : Kernel) → (enqueue image caps parent k).1.ops ≡ k.ops
unfolding enqueue put_slot
enqueue-ops image caps parent k = elim (Option-cases (position is_empty k.table 0)) [
  | inl e ↦ rw (e, enqueue) refl
  | inr (pid, e) ↦ rw (e, enqueue) refl
]

enqueue_all-ops : (images : List ℕ) (k : Kernel) → (enqueue_all images k).ops ≡ k.ops
unfolding enqueue_all
enqueue_all-ops [] k = refl
enqueue_all-ops (image ∷ rest) k =
    enqueue_all-ops rest (enqueue image (image_at image).caps no_pid k).1
    ∙ enqueue-ops image (image_at image).caps no_pid k

seeding-ops :
    (b : Build) (suite : Suite) (id name : Text) (k : Kernel)
    → (seed_suite b suite (respond_accepted id name k)).ops ≡ k.ops
unfolding seed_suite seed clear_table respond_accepted respond_result emit_rpc emit
seeding-ops b suite id name k =
    enqueue_all-ops (suite_queue suite) (clear_table b (respond_accepted id name k))

crash-ops : (id : Text) (k : Kernel) → (respond_result id crashing_json k).ops ≡ k.ops
unfolding respond_result emit_rpc emit
crash-ops id k = refl

-- A guarded tool refuses, or goes through `once` with an action that leaves the window alone.
module _ (b : Build) (op : Text) (k : Kernel) (P : Verdict × Kernel → Type 0)
    (refused : (id : Text) (code : ℕ) (message : Text) → P (refuse id code message k))
    (guarded : (id : Text) (act : Kernel → Verdict × Kernel)
      → ((l : Kernel) → (act l).1.ops ≡ l.ops)
      → P (once (some op) id act k)) where
  run_suite-guarded : (args id : Text) → P (tool_run_suite b args (some op) id k)
  unfolding tool_run_suite
  run_suite-guarded args id = elim (Option-cases (suite_named b name)) [
    | inl e ↦ rw (e, tool_run_suite) (refused id invalid_params (bytes_of "unknown suite"))
    | inr (suite, e) ↦ elim (Bool-cases (any_alive k)) [
      | inl a ↦ rw (e, tool_run_suite, a) (refused id busy (bytes_of "busy: payloads active"))
      | inr a ↦
          rw (e, tool_run_suite, a)
            (guarded id (λ k'. (seeded, seed_suite b suite (respond_accepted id name k')))
              (seeding-ops b suite id name))
    ]
  ]
    where
      name : Text
      name = value_or [] (string_member (bytes_of "suite") args)

  crash-guarded : (id : Text) → P (tool_crash (some op) id k)
  unfolding tool_crash
  crash-guarded id = elim (Bool-cases (any_alive k)) [
    | inl a ↦ rw (a, tool_crash) (refused id busy (bytes_of "busy: payloads active"))
    | inr a ↦
        rw (a, tool_crash)
          (guarded id (λ k'. (crashed, respond_result id crashing_json k')) (crash-ops id))
  ]

  kill-guarded : (args id : Text) → P (tool_kill args (some op) id k)
  unfolding tool_kill
  kill-guarded args id = elim (Option-cases (number_member (bytes_of "pid") args)) [
    | inl e ↦ rw (e, tool_kill) (refused id invalid_params (bytes_of "missing pid"))
    | inr (pid, e) ↦ rw (e, tool_kill) (guarded id (kill_now id pid) (kill_now-ops id pid))
  ]

  set_budget-guarded : (args id : Text) → P (tool_set_budget args (some op) id k)
  unfolding tool_set_budget
  set_budget-guarded args id = elim (Option-cases (number_member (bytes_of "pid") args)) [
    | inl e ↦ rw (e, tool_set_budget) (refused id invalid_params (bytes_of "missing pid"))
    | inr (pid, e) ↦ elim (Option-cases (number_member (bytes_of "deadline") args)) [
      | inl f ↦ rw (e, tool_set_budget, f) (refused id invalid_params (bytes_of "missing deadline"))
      | inr (deadline, f) ↦
          rw (e, tool_set_budget, f)
            (guarded id (budget_now id pid deadline) (budget_now-ops id pid deadline))
    ]
  ]

  run_tool-guarded :
      (tool : Tool) (args id : Text) → IsGuarded tool → P (run_tool b tool args (some op) id k)
  unfolding run_tool
  run_tool-guarded run_suite args id g = run_suite-guarded args id
  run_tool-guarded crash args id g = crash-guarded id
  run_tool-guarded kill args id g = kill-guarded args id
  run_tool-guarded set_budget args id g = set_budget-guarded args id
  run_tool-guarded ring_read args id g = absurd g
  run_tool-guarded set_surface args id g = absurd g
  run_tool-guarded set_autonomy args id g = absurd g

-- Two calls of `run_suite`, `crash`, `kill` or `set_budget`, the same tool or not, that carry one
-- operation id act at most once: the first only answers (it is refused, or is itself a repeat), or
-- the second, in any kernel with the window that the first left, only answers. The window has its
-- eight slots.
pub run_tool-twice :
    (b : Build) (tool tool' : Tool) (args args' op id id' : Text) (k k' : Kernel)
    → IsGuarded tool
    → IsGuarded tool'
    → length k.ops.slots ≡ op_slots
    → k'.ops ≡ (run_tool b tool args (some op) id k).1.ops
    → OnlyAnswers k (run_tool b tool args (some op) id k)
      ⊎ OnlyAnswers k' (run_tool b tool' args' (some op) id' k')
run_tool-twice b tool tool' args args' op id id' k k' g g' n e =
    elim (run_tool-guarded b op k (Once op k)
      (λ i code message. inl (refuse-OnlyAnswers i code message k))
      (λ i act keeps. once-Once op i act k n keeps) tool args id g) [
        | inl answers ↦ inl answers
        | inr seen ↦ inr (
            run_tool-guarded b op k' (OnlyAnswers k')
              (λ i code message. refuse-OnlyAnswers i code message k')
              (λ i act keeps. once-OnlyAnswers op i act k' (ap (op_seen (fnv1a op)) e ∙ seen)) tool'
              args' id' g')
      ]
