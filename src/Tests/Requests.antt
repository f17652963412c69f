-- ===== src/Tests/Requests.antt =====
-- The control plane and the console at concrete inputs (kernel/src/rpc.rs, kernel/src/console.rs).
use kernai.Base.{
  inr, ◌^◌, ◌≤◌, ◌≡◌, ◌⊎◌, refl, true, none, some, List, [], ◌∷◌, ◌++◌, length, leb, drop, arith,
  if◌then◌else◌, ◌>>=?◌,
}
use kernai.Text.{Text, joined}
use kernai.Text.Numbers.{decimal}
use kernai.Text.Utf8.{is_utf8, trim}
use kernai.Payload.Slot.{State, new_slot}
use kernai.Console.{
  le_u32, capacity, new_frame_buf, write_pieces, emit_frame, framed, json_escaped_bytes,
}
use kernai.Console.Buffer.{emit_frame-write_pieces}
use kernai.Payload.Hooks.{kill_pid}
use kernai.Payload.Output.{output_text}
use kernai.Payload.Output.Bounds.{length-output_text}
use kernai.Payload.Kills.{Kills, kill_pid-Kills}
use kernai.Rpc.Names.{Tool}
use kernai.Rpc.Tools.Repeats.{OnlyAnswers, run_tool-twice}
use kernai.Payload.Report.{write_process_table}
use kernai.Payload.Report.Bounds.{length-write_process_table}
use kernai.Rpc.Json.{skip_string, object_get, parse_u32, u32_max}
use kernai.Rpc.Json.Numbers.{parse_u32-decimal}
use kernai.Rpc.Json.Escape.{skip_string-json_escaped_bytes}
use kernai.Rpc.Request.{read_frame}
use kernai.Rpc.Request.Polls.{with_rx}
use kernai.Rpc.Request.RoundTrip.{arriving, read_frame-framed}
use kernai.Rpc.Tools.{Verdict, served}
use kernai.Rpc.Tools.{run_tool}
use kernai.Rpc.Dispatch.{dispatch, read_request}
use kernai.Rpc.Dispatch.Answered.{Serves}
use kernai.Rpc.Dispatch.Serves.{dispatch-Serves}
use kernai.Rpc.Dispatch.Dropped.{Drops, read_request-dropped}
use kernai.Kernel.{Kernel}
use kernai.Tests.Processes.{build, booted, spawned}
use kernai.Tests.Spaces.{mapped}

abbrev pieces : List Text
pieces = (1 ∷ 2 ∷ []) ∷ (3 ∷ []) ∷ []

emit_frame-write_pieces_example :
    emit_frame (write_pieces pieces new_frame_buf).1
    ≡ (if leb (length (joined pieces)) capacity then framed (joined pieces) else [])
emit_frame-write_pieces_example = emit_frame-write_pieces pieces

-- Bytes that try to end their string: a quote, a backslash, a newline, a byte above ASCII.
abbrev hostile : Text
hostile = b'"' ∷ b'\\' ∷ 10 ∷ 0xFF ∷ b',' ∷ []

skip_string-json_escaped_bytes_example :
    skip_string (b'"' ∷ (json_escaped_bytes hostile ++ (b'"' ∷ b'}' ∷ []))) ≡ b'}' ∷ []
skip_string-json_escaped_bytes_example = skip_string-json_escaped_bytes hostile (b'}' ∷ [])

abbrev kill_request : Text
kill_request =
    b'{' ∷ b'"' ∷ b'i' ∷ b'd' ∷ b'"' ∷ b':' ∷ b'7' ∷ b',' ∷ b'"' ∷ b'm' ∷ b'"' ∷ b':' ∷ b'"' ∷ b'k'
    ∷ b'"' ∷ b'}' ∷ []

member_found : object_get (b'm' ∷ []) kill_request ≡ some (b'"' ∷ b'k' ∷ b'"' ∷ [])
unfolding object_get trim ◌>>=?◌
member_found = refl

number_found : parse_u32 (b'1' ∷ b'2' ∷ []) ≡ some 12
unfolding parse_u32 trim
number_found = refl

-- The first number that no u32 holds.
parse_u32-decimal_example : parse_u32 (decimal (2 ^ 32)) ≡ some u32_max
parse_u32-decimal_example = parse_u32-decimal (2 ^ 32) (omega arith)

length-output_text_example : length (output_text 9 1 4 hostile) ≤ capacity
length-output_text_example = length-output_text 9 1 4 hostile (omega arith)

-- One payload runs.
abbrev running : Kernel
running = record booted {
  table = record new_slot { state = State.running; image = 22; caps = 7; exit_code = 5 } ∷ [];
}

length-write_process_table_example : length (write_process_table running) ≤ 1440
length-write_process_table_example = length-write_process_table running (omega arith)

abbrev drawing : Kernel
drawing = record booted { pool = mapped }

utf8 : is_utf8 kill_request ≡ true
unfolding is_utf8
utf8 = refl

read_frame-framed_example :
    read_frame (with_rx booted (arriving (drop 1 (framed kill_request)) (none ∷ [])))
    ≡ (some kill_request, with_rx booted (none ∷ []))
read_frame-framed_example =
    read_frame-framed kill_request (none ∷ []) booted (omega arith) (omega arith) utf8

dispatch-Serves_example : Serves build spawned (dispatch build kill_request spawned)
dispatch-Serves_example = dispatch-Serves build kill_request spawned

-- A frame of 513 bytes.
read_request-dropped_example :
    read_request build (with_rx booted (some 0x99 ∷ arriving (le_u32 513) (some 0x41 ∷ [])))
    ≡ (served, with_rx booted (some 0x41 ∷ []))
read_request-dropped_example =
    read_request-dropped build booted (some 0x99 ∷ arriving (le_u32 513) (some 0x41 ∷ []))
      (some 0x41 ∷ []) (Drops.wrong_length 513 (some 0x41 ∷ []) (omega arith) (inr (omega arith)))

-- One payload is queued.
abbrev waiting : Kernel
waiting = record booted { table = record new_slot { state = State.pending } ∷ [] }

kill_pid-Kills_example : Kills 0 waiting (kill_pid 0 waiting)
kill_pid-Kills_example = kill_pid-Kills 0 waiting

abbrev kill_first : Text
kill_first = b'{' ∷ b'"' ∷ b'p' ∷ b'i' ∷ b'd' ∷ b'"' ∷ b':' ∷ b'0' ∷ b'}' ∷ []

-- The call of `kill`, and the kernel that it leaves.
abbrev killed_once : Verdict × Kernel
killed_once = run_tool build Tool.kill kill_first (some (b'a' ∷ [])) (b'1' ∷ []) waiting

run_tool-twice_example :
    OnlyAnswers waiting killed_once
    ⊎ OnlyAnswers killed_once.1
        (run_tool build Tool.kill kill_first (some (b'a' ∷ [])) (b'2' ∷ []) killed_once.1)
run_tool-twice_example =
    run_tool-twice build Tool.kill Tool.kill kill_first kill_first (b'a' ∷ []) (b'1' ∷ [])
      (b'2' ∷ []) waiting killed_once.1 tt tt refl refl
