-- ===== src/Rpc/Names.antt =====
-- kernel/src/rpc.rs: the names of the methods, the tools, the resources and the suites, and the
-- codes of the errors.
use kernai.Base.{ℕ, ◌&&◌, Option, none, some, if◌then◌else◌}
use kernai.Text.{Text, bytes_of, same}
use kernai.Payload.Images.{Build}
use kernai.Payload.Suites.{Suite}
use kernai.Payload.Hooks.{Refusal, no_such_pid, not_alive}

-- The codes of the errors, without their sign.
abbrev pub invalid_request : ℕ
invalid_request = 32600

abbrev pub method_not_found : ℕ
method_not_found = 32601

abbrev pub invalid_params : ℕ
invalid_params = 32602

abbrev pub busy : ℕ
busy = 32002

-- The suite that a name stands for, among those of the build.
unfoldable pub suite_named : Build → Text → Option Suite
unfolding bytes_of same
suite_named b s =
    if same s (bytes_of "p")
    then some Suite.m3
    else (if same s (bytes_of "m3")
        then some Suite.m3
        else (if same s (bytes_of "m")
            then some Suite.m4
            else (if same s (bytes_of "m4")
                then some Suite.m4
                else (if same s (bytes_of "i")
                    then some Suite.m5
                    else (if same s (bytes_of "m5")
                        then some Suite.m5
                        else (if same s (bytes_of "f")
                            then some Suite.m6
                            else (if same s (bytes_of "m6")
                                then some Suite.m6
                                else (if same s (bytes_of "d")
                                    then some Suite.m10
                                    else (if same s (bytes_of "m10")
                                        then some Suite.m10
                                        else (if same s (bytes_of "e")
                                            then some Suite.eval
                                            else (if same s (bytes_of "eval")
                                                then some Suite.eval
                                                else (if same s (bytes_of "l")
                                                    then some Suite.e2
                                                    else (if same s (bytes_of "e2")
                                                        then some Suite.e2
                                                        else (if same s (bytes_of "e7")
                                                            then some Suite.e7
                                                            else (if same s (bytes_of "e5")
                                                            then some Suite.e5
                                                            else (if b.cpayloads
                                                            && same s (bytes_of "c")
                                                            then some Suite.craycast
                                                            else (if b.cpayloads
                                                            && same s (bytes_of "craycast")
                                                            then some Suite.craycast
                                                            else (if b.doom && same s (bytes_of "D")
                                                            then some Suite.doom
                                                            else (if b.doom
                                                            && same s (bytes_of "doom")
                                                            then some Suite.doom
                                                            else (if b.doom
                                                            && same s (bytes_of "doomfork")
                                                            then some Suite.doom_fork
                                                            else none))))))))))))))))))))

pub data Tool : Type 0 where
  run_suite crash kill set_budget ring_read set_surface set_autonomy : Tool

unfoldable pub tool_named : Text → Option Tool
unfolding bytes_of same
tool_named s =
    if same s (bytes_of "run_suite")
    then some run_suite
    else (if same s (bytes_of "crash")
        then some crash
        else (if same s (bytes_of "kill")
            then some kill
            else (if same s (bytes_of "set_budget")
                then some set_budget
                else (if same s (bytes_of "ring_read")
                    then some ring_read
                    else (if same s (bytes_of "set_surface")
                        then some set_surface
                        else (if same s (bytes_of "set_autonomy")
                            then some set_autonomy
                            else none))))))

unfoldable pub refusal_text : Refusal → Text
unfolding bytes_of
refusal_text no_such_pid = bytes_of "no such pid"
refusal_text not_alive = bytes_of "payload not alive"

pub data Resource : Type 0 where
  trap_ring processes spec surface autonomy memory digest : Resource

unfoldable pub resource_named : Text → Option Resource
unfolding bytes_of same
resource_named s =
    if same s (bytes_of "trap_ring")
    then some trap_ring
    else (if same s (bytes_of "processes")
        then some processes
        else (if same s (bytes_of "spec")
            then some spec
            else (if same s (bytes_of "surface")
                then some surface
                else (if same s (bytes_of "autonomy")
                    then some autonomy
                    else (if same s (bytes_of "memory")
                        then some memory
                        else (if same s (bytes_of "digest") then some digest else none))))))

pub data Method : Type 0 where
  initialize tools_list tools_call resources_list resources_read : Method

unfoldable pub method_named : Text → Option Method
unfolding bytes_of same
method_named s =
    if same s (bytes_of "initialize")
    then some initialize
    else (if same s (bytes_of "tools/list")
        then some tools_list
        else (if same s (bytes_of "tools/call")
            then some tools_call
            else (if same s (bytes_of "resources/list")
                then some resources_list
                else (if same s (bytes_of "resources/read") then some resources_read else none))))
