-- ===== src/Rpc/Dispatch/Answered.antt =====
-- kernel/src/rpc.rs: what a request can do, and that every answer is one frame that fits.
use kernai.Base.{
  ℕ, ◌≤◌, ◌≡◌, refl, sym, ◌∙◌, inl, inr, false, Option, none, some, List, ◌∷◌, length, Bool-cases,
}
use kernai.Text.{Text}
use kernai.Console.{capacity}
use kernai.Payload.Images.{Build}
use kernai.Payload.Table.{any_alive}
use kernai.Payload.Suites.{Suite, seed_suite}
use kernai.Rpc.Dispatch.Spares.{Spares, Spares-same, Spares-trans}
use kernai.Rpc.Ops.{Ops, fnv1a, op_seen, op_record}
use kernai.Rpc.Answers.{
  rpc_frame, emit_rpc, respond_result, respond_error, respond_accepted, respond_duplicate,
  respond_initialize, result_json, error_json, accepted_json, duplicate_json, initialize_json,
}
use kernai.Rpc.Catalog.{
  respond_tools_list, respond_resources_list, tools_list_json, resources_list_json,
}
use kernai.Rpc.Answers.Bounds.{length-rpc_frame}
use kernai.Rpc.Tools.{Verdict, served, seeded, crashed, once, refuse}
use kernai.Kernel.{Kernel, Body, Event, emit}

-- The newest event is an answer, whose frame fits.
abbrev pub IsAnswered : List Event → Type 0
IsAnswered l =
    (id : ℕ) × (t : Text) × (rest : List Event) × (l ≡ record { id = id; body = Body.rpc t } ∷ rest)
    × (length t ≤ capacity)

-- What a request makes of a kernel that it found in the state `k`.
abbrev pub Serves : Build → Kernel → Verdict × Kernel → Type 0
Serves b k (served, k') = Spares k k' × IsAnswered k'.log
Serves b k (crashed, k') = (any_alive k ≡ false) × Spares k k' × IsAnswered k'.log
Serves b k (seeded, k') =
    (any_alive k ≡ false)
    × (suite : Suite) × (k0 : Kernel) × (Spares k k0)
    × (k' ≡ seed_suite b suite k0)
    × IsAnswered k'.log

emit_rpc-Answers :
    (body : Text) (k : Kernel) → Spares k (emit_rpc body k) × IsAnswered (emit_rpc body k).log
unfolding emit_rpc emit
emit_rpc-Answers body k = (
  Spares-same k _ refl refl,
  (k.next_id, rpc_frame k.next_id body, k.log, refl, length-rpc_frame k.next_id body),
)

pub respond_result-Answers :
    (id result : Text) (k : Kernel)
    → Spares k (respond_result id result k) × IsAnswered (respond_result id result k).log
unfolding respond_result
respond_result-Answers id result k = emit_rpc-Answers (result_json id result) k

pub respond_error-Answers :
    (id : Text) (code : ℕ) (message : Text) (k : Kernel)
    → Spares k (respond_error id code message k) × IsAnswered (respond_error id code message k).log
unfolding respond_error
respond_error-Answers id code message k = emit_rpc-Answers (error_json id code message) k

pub respond_accepted-Answers :
    (id suite : Text) (k : Kernel)
    → Spares k (respond_accepted id suite k) × IsAnswered (respond_accepted id suite k).log
unfolding respond_accepted
respond_accepted-Answers id suite k = respond_result-Answers id (accepted_json suite) k

pub respond_duplicate-Answers :
    (id op : Text) (k : Kernel)
    → Spares k (respond_duplicate id op k) × IsAnswered (respond_duplicate id op k).log
unfolding respond_duplicate
respond_duplicate-Answers id op k = respond_result-Answers id (duplicate_json op) k

pub respond_initialize-Answers :
    (id : Text) (k : Kernel)
    → Spares k (respond_initialize id k) × IsAnswered (respond_initialize id k).log
unfolding respond_initialize
respond_initialize-Answers id k = respond_result-Answers id initialize_json k

pub respond_tools_list-Answers :
    (id : Text) (k : Kernel)
    → Spares k (respond_tools_list id k) × IsAnswered (respond_tools_list id k).log
unfolding respond_tools_list
respond_tools_list-Answers id k = respond_result-Answers id tools_list_json k

pub respond_resources_list-Answers :
    (id : Text) (k : Kernel)
    → Spares k (respond_resources_list id k) × IsAnswered (respond_resources_list id k).log
unfolding respond_resources_list
respond_resources_list-Answers id k = respond_result-Answers id resources_list_json k

pub refuse-Serves :
    (b : Build) (id : Text) (code : ℕ) (message : Text) (k : Kernel)
    → Serves b k (refuse id code message k)
unfolding refuse
refuse-Serves b id code message k = respond_error-Answers id code message k

-- An answer after a quiet step.
Serves-after :
    (b : Build) (k l : Kernel) (r : Verdict × Kernel)
    → Spares k l
    → any_alive l ≡ any_alive k
    → Serves b l r
    → Serves b k r
Serves-after b k l (served, k') q a (p, n) = (Spares-trans k l k' q p, n)
Serves-after b k l (crashed, k') q a (e, p, n) = (sym a ∙ e, Spares-trans k l k' q p, n)
Serves-after b k l (seeded, k') q a (e, suite, k0, p, n, m) =
    (sym a ∙ e, suite, k0, Spares-trans k l k0 q p, n, m)

-- The guard lets the action run on the kernel, or on the kernel with the operation recorded.
pub once-Serves :
    (b : Build) (id : Text) (op : Option Text) (act : Kernel → Verdict × Kernel) (k : Kernel)
    → ((o : Ops) → Serves b (record k { ops = o }) (act (record k { ops = o })))
    → Serves b k (once op id act k)
unfolding once any_alive
once-Serves b id none act k h = h k.ops
once-Serves b id (some op) act k h = elim (Bool-cases (op_seen (fnv1a op) k.ops)) [
  | inl e ↦ rw (e, once) (respond_duplicate-Answers id op k)
  | inr e ↦
      rw (e, once)
        (Serves-after b k (record k { ops = o }) _ (Spares-same k _ refl refl) refl (h o))
]
  where
    o : Ops
    o = op_record (fnv1a op) k.ops
