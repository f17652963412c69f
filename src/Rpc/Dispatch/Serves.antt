-- ===== src/Rpc/Dispatch/Serves.antt =====
-- kernel/src/rpc.rs: what a request can do. It is answered, it moves no capability, and it seeds a
-- suite or crashes the kernel only while no payload is alive.
use kernai.Base.{inl, inr, Option, Option-cases}
use kernai.Text.{Text, bytes_of}
use kernai.Payload.Images.{Build}
use kernai.Traps.Report.{write_ring_resource}
use kernai.Rpc.Names.{
  Tool, run_suite, crash, kill, set_budget, ring_read, set_surface, set_autonomy, tool_named,
  resource_named, Method, initialize, tools_list, tools_call, resources_list, resources_read,
  method_named, invalid_request, method_not_found, invalid_params,
}
use kernai.Rpc.Tools.{member_or, string_member, run_tool, handle_tools_call}
use kernai.Rpc.Dispatch.{resource_text, handle_resources_read, run_method, dispatch}
use kernai.Kernel.{Kernel}
use kernai.Rpc.Dispatch.Answered.{
  Serves, respond_result-Answers, respond_initialize-Answers, respond_tools_list-Answers,
  respond_resources_list-Answers, refuse-Serves,
}
use kernai.Rpc.Dispatch.Calls.{
  tool_crash-Serves, tool_set_budget-Serves, tool_run_suite-Serves, tool_set_surface-Serves,
  tool_set_autonomy-Serves, tool_kill-Serves,
}

run_tool-Serves :
    (b : Build) (tool : Tool) (args : Text) (op : Option Text) (id : Text) (k : Kernel)
    → Serves b k (run_tool b tool args op id k)
unfolding run_tool
run_tool-Serves b run_suite args op id k = tool_run_suite-Serves b args op id k
run_tool-Serves b crash args op id k = tool_crash-Serves b args op id k
run_tool-Serves b kill args op id k = tool_kill-Serves b args op id k
run_tool-Serves b set_budget args op id k = tool_set_budget-Serves b args op id k
run_tool-Serves b ring_read args op id k = respond_result-Answers id (write_ring_resource k.traps) k
run_tool-Serves b set_surface args op id k = tool_set_surface-Serves b args op id k
run_tool-Serves b set_autonomy args op id k = tool_set_autonomy-Serves b args op id k

handle_tools_call-Serves :
    (b : Build) (json id : Text) (k : Kernel) → Serves b k (handle_tools_call b json id k)
unfolding handle_tools_call
handle_tools_call-Serves b json id k =
    elim (Option-cases (string_member (bytes_of "name") params)) [
      | inl e ↦
          rw (e, handle_tools_call)
            (refuse-Serves b id invalid_params (bytes_of "missing tool name") k)
      | inr (name, e) ↦ elim (Option-cases (tool_named name)) [
        | inl f ↦
            rw (e, handle_tools_call, f)
              (refuse-Serves b id invalid_params (bytes_of "unknown tool") k)
        | inr (tool, f) ↦ rw (e, handle_tools_call, f) (run_tool-Serves b tool _ _ id k)
      ]
    ]
  where
    params : Text
    params = member_or (bytes_of "params") json (bytes_of "{}")

handle_resources_read-Serves :
    (b : Build) (json id : Text) (k : Kernel) → Serves b k (handle_resources_read b json id k)
unfolding handle_resources_read
handle_resources_read-Serves b json id k =
    elim (Option-cases (string_member (bytes_of "uri") params)) [
      | inl e ↦
          rw (e, handle_resources_read)
            (refuse-Serves b id invalid_params (bytes_of "missing uri") k)
      | inr (uri, e) ↦ elim (Option-cases (resource_named uri)) [
        | inl f ↦
            rw (e, handle_resources_read, f)
              (refuse-Serves b id invalid_params (bytes_of "unknown resource") k)
        | inr (r, f) ↦
            rw (e, handle_resources_read, f)
              (respond_result-Answers id (resource_text b r params k) k)
      ]
    ]
  where
    params : Text
    params = member_or (bytes_of "params") json (bytes_of "{}")

run_method-Serves :
    (b : Build) (m : Method) (json id : Text) (k : Kernel) → Serves b k (run_method b m json id k)
unfolding run_method
run_method-Serves b initialize json id k = respond_initialize-Answers id k
run_method-Serves b tools_list json id k = respond_tools_list-Answers id k
run_method-Serves b tools_call json id k = handle_tools_call-Serves b json id k
run_method-Serves b resources_list json id k = respond_resources_list-Answers id k
run_method-Serves b resources_read json id k = handle_resources_read-Serves b json id k

-- Every request that is dispatched, whatever its text, is answered by the newest event in a frame
-- of at most 2048 bytes. Unless it seeds a suite, it moves no capability, occupies or frees no slot,
-- keeps `CURRENT`, and leaves every slot that is not pending, the running payload's too, exactly as
-- it was; it seeds a suite or crashes the kernel only if no payload was alive.
pub dispatch-Serves : (b : Build) (json : Text) (k : Kernel) → Serves b k (dispatch b json k)
unfolding dispatch
dispatch-Serves b json k = elim (Option-cases (string_member (bytes_of "method") json)) [
  | inl e ↦ rw (e, dispatch) (refuse-Serves b id invalid_request (bytes_of "missing method") k)
  | inr (name, e) ↦ elim (Option-cases (method_named name)) [
    | inl f ↦
        rw (e, dispatch, f) (refuse-Serves b id method_not_found (bytes_of "method not found") k)
    | inr (method, f) ↦ rw (e, dispatch, f) (run_method-Serves b method json id k)
  ]
]
  where
    id : Text
    id = member_or (bytes_of "id") json (bytes_of "null")
