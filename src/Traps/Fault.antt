-- ===== src/Traps/Fault.antt =====
-- kernel/src/traps.rs: the fault report, in its full form, in the small form that stands in when
-- that overflows the frame buffer, and as the classic line.
use kernai.Base.{
  ℕ, ◌+◌, ◌/◌, ◌%◌, ◌^◌, Bool, true, false, not, ◌&&◌, ◌||◌, Option, none, some, List, [], ◌∷◌,
  ◌==◌, leb, if◌then◌else◌, length,
}
use kernai.Text.{Text, bytes_of, joined, comma_separated}
use kernai.Text.Numbers.{decimal, hex}
use kernai.Console.{capacity}
use kernai.Mm.{WalkChain}
use kernai.Traps.Frame.{TrapFrame}
use kernai.Traps.Report.{x, cause_name, write_ring}
use kernai.Payload.Table.{current_pagewalk, current_cause}
use kernai.Kernel.{Kernel, Body, emit_as}

-- The ABI names of x1 to x31.
unfoldable pub register_names : List Text
unfolding bytes_of
register_names =
    bytes_of "ra"
    ∷ bytes_of "sp"
    ∷ bytes_of "gp"
    ∷ bytes_of "tp"
    ∷ bytes_of "t0"
    ∷ bytes_of "t1"
    ∷ bytes_of "t2"
    ∷ bytes_of "s0"
    ∷ bytes_of "s1"
    ∷ bytes_of "a0"
    ∷ bytes_of "a1"
    ∷ bytes_of "a2"
    ∷ bytes_of "a3"
    ∷ bytes_of "a4"
    ∷ bytes_of "a5"
    ∷ bytes_of "a6"
    ∷ bytes_of "a7"
    ∷ bytes_of "s2"
    ∷ bytes_of "s3"
    ∷ bytes_of "s4"
    ∷ bytes_of "s5"
    ∷ bytes_of "s6"
    ∷ bytes_of "s7"
    ∷ bytes_of "s8"
    ∷ bytes_of "s9"
    ∷ bytes_of "s10"
    ∷ bytes_of "s11"
    ∷ bytes_of "t3"
    ∷ bytes_of "t4"
    ∷ bytes_of "t5"
    ∷ bytes_of "t6"
    ∷ []

-- The registers from x_n on, by their names.
unfoldable pub register_rows : ℕ → List Text → TrapFrame → List Text
unfolding bytes_of joined hex x
register_rows n [] f = []
register_rows n (name ∷ names) f =
    joined (bytes_of "\"" ∷ name ∷ bytes_of "\":\"0x" ∷ hex (x n f) ∷ bytes_of "\"" ∷ [])
    ∷ register_rows (n + 1) names f

unfoldable pub write_regs : TrapFrame → Text
unfolding bytes_of joined comma_separated register_rows register_names
write_regs f =
    joined (bytes_of "{" ∷ comma_separated (register_rows 1 register_names f) ∷ bytes_of "}" ∷ [])

-- A level of the walk, with the flags of its entry.
unfoldable pub walk_rows : WalkChain → List Text
unfolding bytes_of joined decimal hex
walk_rows [] = []
walk_rows ((level, pte) ∷ rest) =
    joined (
      bytes_of "{\"level\":"
      ∷ decimal level
      ∷ bytes_of ",\"pte\":\"0x"
      ∷ hex pte
      ∷ bytes_of "\",\"v\":"
      ∷ decimal (pte % 2)
      ∷ bytes_of ",\"r\":"
      ∷ decimal (pte / 2 % 2)
      ∷ bytes_of ",\"w\":"
      ∷ decimal (pte / 4 % 2)
      ∷ bytes_of ",\"x\":"
      ∷ decimal (pte / 8 % 2)
      ∷ bytes_of ",\"u\":"
      ∷ decimal (pte / 16 % 2)
      ∷ bytes_of "}"
      ∷ [])
    ∷ walk_rows rest

unfoldable pub write_pagewalk : ℕ → Kernel → Text
unfolding bytes_of joined comma_separated walk_rows current_pagewalk
write_pagewalk va k = elim (current_pagewalk va k) [
  | none ↦ bytes_of "null"
  | some chain ↦ joined (bytes_of "[" ∷ comma_separated (walk_rows chain) ∷ bytes_of "]" ∷ [])
]

abbrev pub cause_illegal_instruction : ℕ
cause_illegal_instruction = 2

-- The fields of the offending encoding, which an illegal instruction leaves in stval.
unfoldable pub instruction_json : ℕ → Text
unfolding bytes_of joined decimal hex
instruction_json stval = joined (
    bytes_of "{\"bits\":\"0x"
    ∷ hex stval
    ∷ bytes_of "\",\"opcode\":\"0x"
    ∷ hex (stval % 128)
    ∷ bytes_of "\",\"rd\":"
    ∷ decimal (stval / 2 ^ 7 % 32)
    ∷ bytes_of ",\"funct3\":"
    ∷ decimal (stval / 2 ^ 12 % 8)
    ∷ bytes_of ",\"rs1\":"
    ∷ decimal (stval / 2 ^ 15 % 32)
    ∷ bytes_of ",\"rs2\":"
    ∷ decimal (stval / 2 ^ 20 % 32)
    ∷ bytes_of ",\"funct7\":\"0x"
    ∷ hex (stval / 2 ^ 25 % 128)
    ∷ bytes_of "\""
    ∷ (if stval % 128 == 0x73
        then joined (bytes_of ",\"csr\":\"0x" ∷ hex (stval / 2 ^ 20 % 4096) ∷ bytes_of "\"" ∷ [])
        else [])
    ∷ bytes_of "}"
    ∷ [])

-- The beginning of both forms.
unfoldable pub fault_head : ℕ → Option ℕ → Text
unfolding bytes_of joined decimal
fault_head id (some pid) = joined (
    bytes_of "{\"id\":"
    ∷ decimal id
    ∷ bytes_of ",\"type\":\"fault\",\"origin\":\"payload\",\"pid\":"
    ∷ decimal pid
    ∷ bytes_of ","
    ∷ [])
fault_head id none =
    joined (
      bytes_of "{\"id\":" ∷ decimal id ∷ bytes_of ",\"type\":\"fault\",\"origin\":\"kernel\"," ∷ [])

abbrev is_page_fault : ℕ → Bool
is_page_fault scause = (scause == 12) || ((scause == 13) || (scause == 15))

abbrev is_some : Option ℕ → Bool
is_some none = false
is_some (some n) = true

-- `pid.and(current_cause())` as JSON.
unfoldable pub cause_json : Option ℕ → Kernel → Text
unfolding bytes_of decimal current_cause
cause_json none k = bytes_of "null"
cause_json (some pid) k = elim (current_cause k) [ none ↦ bytes_of "null" | some ev ↦ decimal ev ]

-- The full form.
unfoldable pub fault_text : TrapFrame → ℕ → ℕ → ℕ → Option ℕ → Kernel → Text
unfolding bytes_of joined decimal hex x fault_head cause_json cause_name write_regs instruction_json
    write_pagewalk write_ring
fault_text frame id scause stval pid k = joined (
    fault_head id pid
    ∷ bytes_of "\"caused_by\":"
    ∷ cause_json pid k
    ∷ bytes_of ",\"cause\":\"0x"
    ∷ hex scause
    ∷ bytes_of "\",\"cause_name\":\""
    ∷ cause_name scause
    ∷ bytes_of "\",\"sepc\":\"0x"
    ∷ hex frame.sepc
    ∷ bytes_of "\",\"stval\":\"0x"
    ∷ hex stval
    ∷ bytes_of "\",\"ra\":\"0x"
    ∷ hex (x 1 frame)
    ∷ bytes_of "\",\"sp\":\"0x"
    ∷ hex (x 2 frame)
    ∷ bytes_of "\",\"regs\":"
    ∷ write_regs frame
    ∷ bytes_of ",\"insn\":"
    ∷ (if (scause == cause_illegal_instruction) && not (stval == 0)
        then instruction_json stval
        else bytes_of "null")
    ∷ bytes_of ",\"pagewalk\":"
    ∷ (if is_some pid && is_page_fault scause then write_pagewalk stval k else bytes_of "null")
    ∷ bytes_of ",\"ring\":"
    ∷ write_ring k.traps
    ∷ bytes_of "}"
    ∷ [])

-- The small form.
unfoldable pub small_fault_text : TrapFrame → ℕ → ℕ → ℕ → Option ℕ → Text
unfolding bytes_of joined hex fault_head cause_name
small_fault_text frame id scause stval pid = joined (
    fault_head id pid
    ∷ bytes_of "\"overflow\":true,\"cause_name\":\""
    ∷ cause_name scause
    ∷ bytes_of "\",\"sepc\":\"0x"
    ∷ hex frame.sepc
    ∷ bytes_of "\",\"stval\":\"0x"
    ∷ hex stval
    ∷ bytes_of "\"}"
    ∷ [])

-- The line of `emit_fault_classic`.
unfoldable pub classic_line : TrapFrame → ℕ → ℕ → Option ℕ → Text
unfolding bytes_of joined hex x cause_name
classic_line frame scause stval pid = joined (
    bytes_of "[FAULT] "
    ∷ (if is_some pid then bytes_of "payload" else bytes_of "kernel")
    ∷ bytes_of " "
    ∷ cause_name scause
    ∷ bytes_of " pc=0x"
    ∷ hex frame.sepc
    ∷ bytes_of " stval=0x"
    ∷ hex stval
    ∷ bytes_of " ra=0x"
    ∷ hex (x 1 frame)
    ∷ bytes_of " sp=0x"
    ∷ hex (x 2 frame)
    ∷ (10 ∷ [])
    ∷ [])

-- What `emit_fault` sends under its event id.
unfoldable pub fault_body : TrapFrame → ℕ → ℕ → ℕ → Option ℕ → Kernel → Body
unfolding fault_text small_fault_text classic_line
fault_body frame id scause stval pid k =
    let full = fault_text frame id scause stval pid k in
    if k.traps.classic_surface
    then Body.console_line (classic_line frame scause stval pid)
    else (if leb (length full) capacity
        then Body.fault pid full
        else Body.fault pid (small_fault_text frame id scause stval pid))

unfoldable pub emit_fault : TrapFrame → ℕ → ℕ → ℕ → Option ℕ → Kernel → Kernel
unfolding fault_body
emit_fault frame id scause stval pid k = emit_as id (fault_body frame id scause stval pid k) k
