-- ===== src/Rpc/Dispatch.antt =====
-- kernel/src/rpc.rs: the resources, and the dispatch of a request.
pub mod Spares
pub mod Answered
pub mod Calls
pub mod Serves
pub mod Dropped
use kernai.Base.{Bool, false, none, some, [], ◌∷◌, ◌==◌, if◌then◌else◌, min, value_or}
use kernai.Text.{Text, bytes_of, joined}
use kernai.Text.Numbers.{decimal}
use kernai.Text.Utf8.{trim_start}
use kernai.Frames.{stats}
use kernai.Traps.Report.{write_ring_resource, digest_text}
use kernai.Payload.Images.{Build}
use kernai.Payload.Report.{write_process_table, write_spec}
use kernai.Rpc.Request.{read_frame}
use kernai.Rpc.Answers.{respond_result, respond_initialize}
use kernai.Rpc.Catalog.{respond_tools_list, respond_resources_list}
use kernai.Kernel.{Kernel}
use kernai.Rpc.Names.{
  invalid_request, method_not_found, invalid_params, Resource, trap_ring, processes, spec, surface,
  autonomy, memory, digest, resource_named, Method, initialize, tools_list, tools_call,
  resources_list, resources_read, method_named,
}
use kernai.Rpc.Tools.{
  Verdict, served, member_or, string_member, number_member, refuse, surface_json, autonomy_json,
  handle_tools_call,
}

-- The text of a resource.
unfoldable pub resource_text : Build → Resource → Text → Kernel → Text
unfolding bytes_of joined decimal number_member surface_json autonomy_json write_ring_resource
    write_process_table write_spec stats digest_text
resource_text b trap_ring params k = write_ring_resource k.traps
resource_text b processes params k = write_process_table k
resource_text b spec params k = write_spec b
resource_text b surface params k = surface_json k.traps.classic_surface
resource_text b autonomy params k = autonomy_json k.traps.autonomous
resource_text b memory params k =
    let (allocated, capacity) = stats k.pool in
    joined (
      bytes_of "{\"allocated\":"
      ∷ decimal allocated
      ∷ bytes_of ",\"capacity\":"
      ∷ decimal capacity
      ∷ bytes_of "}"
      ∷ [])
resource_text b digest params k =
    let budget = value_or 4 (number_member (bytes_of "budget") params) in
    digest_text (min budget 64) k.traps

unfoldable pub handle_resources_read : Build → Text → Text → Kernel → Verdict × Kernel
unfolding bytes_of member_or string_member resource_named resource_text respond_result refuse
handle_resources_read b json id k =
    let params = member_or (bytes_of "params") json (bytes_of "{}") in
    elim (string_member (bytes_of "uri") params) [
      | none ↦ refuse id invalid_params (bytes_of "missing uri") k
      | some uri ↦ elim (resource_named uri) [
        | none ↦ refuse id invalid_params (bytes_of "unknown resource") k
        | some r ↦ (served, respond_result id (resource_text b r params k) k)
      ]
    ]

unfoldable pub run_method : Build → Method → Text → Text → Kernel → Verdict × Kernel
unfolding respond_initialize respond_tools_list handle_tools_call respond_resources_list
    handle_resources_read
run_method b initialize json id k = (served, respond_initialize id k)
run_method b tools_list json id k = (served, respond_tools_list id k)
run_method b tools_call json id k = handle_tools_call b json id k
run_method b resources_list json id k = (served, respond_resources_list id k)
run_method b resources_read json id k = handle_resources_read b json id k

unfoldable pub dispatch : Build → Text → Kernel → Verdict × Kernel
unfolding bytes_of member_or string_member method_named run_method refuse
dispatch b json k =
    let id = member_or (bytes_of "id") json (bytes_of "null") in
    elim (string_member (bytes_of "method") json) [
      | none ↦ refuse id invalid_request (bytes_of "missing method") k
      | some name ↦ elim (method_named name) [
        | none ↦ refuse id method_not_found (bytes_of "method not found") k
        | some method ↦ run_method b method json id k
      ]
    ]

abbrev pub starts_object : Text → Bool
starts_object [] = false
starts_object (b ∷ s) = b == b'{'

-- `read_request`: a frame that carries a JSON object is dispatched, and anything else dropped.
unfoldable pub read_request : Build → Kernel → Verdict × Kernel
unfolding read_frame trim_start dispatch
read_request b k =
    let (frame, k') = read_frame k in
    elim frame [
      | none ↦ (served, k')
      | some json ↦ if starts_object (trim_start json) then dispatch b json k' else (served, k')
    ]
