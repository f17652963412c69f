-- ===== src/Rpc/Catalog.antt =====
-- kernel/src/rpc.rs: the lists of the tools and of the resources.
use kernai.Base.{Option, none, some, [], ◌∷◌}
use kernai.Text.{Text, bytes_of, joined, comma_separated}
use kernai.Kernel.{Kernel}
use kernai.Rpc.Answers.{respond_result}

-- The schema of a tool with one property, or with none.
unfoldable pub tool_json : Text → Text → Option Text → Text
unfolding bytes_of joined
tool_json name desc prop = joined (
    bytes_of "{\"name\":\""
    ∷ name
    ∷ bytes_of "\",\"description\":\""
    ∷ desc
    ∷ bytes_of "\",\"inputSchema\":{\"type\":\"object\""
    ∷ elim prop [
      | none ↦ []
      | some p ↦ joined (
          bytes_of ",\"properties\":{\""
          ∷ p
          ∷ bytes_of "\":{\"type\":\"string\"}},\"required\":[\""
          ∷ p
          ∷ bytes_of "\"]"
          ∷ [])
    ]
    ∷ bytes_of "}}"
    ∷ [])

unfoldable pub tools_list_json : Text
unfolding bytes_of joined comma_separated tool_json
tools_list_json =
    (joined (
      bytes_of "{\"tools\":["
      ∷ comma_separated (
          tool_json (bytes_of "run_suite")
            (bytes_of "Run a payload suite (p|m|i|f|d|e|e2; feature builds add craycast/doom).")
            (some (bytes_of "suite"))
          ∷ tool_json (bytes_of "crash") (bytes_of "Trigger a deliberate kernel fault → shutdown.")
              none
          ∷ tool_json (bytes_of "kill")
              (bytes_of "Kill a live payload by pid — servable mid-run (M13/E2 remediation).")
              (some (bytes_of "pid"))
          ∷ tool_json (bytes_of "set_budget")
              (bytes_of
                "Set a live payload's instruction budget (deadline, timebase units; 0=none) — P1 policy, servable mid-run.")
              (some (bytes_of "pid"))
          ∷ tool_json (bytes_of "ring_read") (bytes_of "Read the trap ring buffer.") none
          ∷ tool_json (bytes_of "set_surface")
              (bytes_of "Select the diagnostic surface: classic|agentic (P6/E1).")
              (some (bytes_of "mode"))
          ∷ tool_json (bytes_of "set_autonomy")
              (bytes_of "Set the autonomy dial: reactive|autonomous (P1/P3).")
              (some (bytes_of "mode"))
          ∷ [])
      ∷ bytes_of "]}"
      ∷ []))

unfoldable pub respond_tools_list : Text → Kernel → Kernel
unfolding respond_result tools_list_json
respond_tools_list id k = respond_result id tools_list_json k

unfoldable pub resource_json : Text → Text → Text
unfolding bytes_of joined
resource_json uri desc = joined (
    bytes_of "{\"uri\":\""
    ∷ uri
    ∷ bytes_of "\",\"name\":\""
    ∷ uri
    ∷ bytes_of "\",\"description\":\""
    ∷ desc
    ∷ bytes_of "\",\"mimeType\":\"application/json\"}"
    ∷ [])

unfoldable pub resources_list_json : Text
unfolding bytes_of joined comma_separated resource_json
resources_list_json =
    (joined (
      bytes_of "{\"resources\":["
      ∷ comma_separated (
          resource_json (bytes_of "trap_ring") (bytes_of "The trap ring buffer (last N traps).")
          ∷ resource_json (bytes_of "processes") (bytes_of "The process table.")
          ∷ resource_json (bytes_of "spec")
              (bytes_of "Self-describing surface: syscalls, caps, memory map (P5).")
          ∷ resource_json (bytes_of "surface")
              (bytes_of "The active diagnostic surface (classic|agentic).")
          ∷ resource_json (bytes_of "autonomy")
              (bytes_of "The active autonomy dial (reactive|autonomous).")
          ∷ resource_json (bytes_of "memory")
              (bytes_of "Frame-allocator state: allocated/capacity (P11).")
          ∷ resource_json (bytes_of "digest")
              (bytes_of "Budgeted, coalesced activity summary; takes a `budget` param (P3).")
          ∷ [])
      ∷ bytes_of "]}"
      ∷ []))

unfoldable pub respond_resources_list : Text → Kernel → Kernel
unfolding respond_result resources_list_json
respond_resources_list id k = respond_result id resources_list_json k
