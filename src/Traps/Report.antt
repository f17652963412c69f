-- ===== src/Traps/Report.antt =====
-- kernel/src/traps.rs: the ring, the digest and the fault reports, as the text that they write
-- into a frame.
use kernai.Base.{ℕ, zero, suc, not, List, [], ◌∷◌, bit_and, ◌==◌, leb, if◌then◌else◌, get_or}
use kernai.Text.{Text, bytes_of, joined, comma_separated}
use kernai.Text.Numbers.{decimal, hex}
use kernai.Traps.Ring.{
  Trap, TrapState, Severity, severity_of, ring_entries, write_digest, cause_timer, interrupt_bit,
}
use kernai.Traps.Frame.{TrapFrame, reg}

-- `x(n)`: x0 is the constant zero.
unfoldable pub x : ℕ → TrapFrame → ℕ
unfolding reg
x zero f = 0
x (suc i) f = reg i f

-- The names of the causes 0 to 15; `unknown` for 14.
unfoldable pub exception_names : List Text
unfolding bytes_of
exception_names =
    bytes_of "instruction_address_misaligned"
    ∷ bytes_of "instruction_access_fault"
    ∷ bytes_of "illegal_instruction"
    ∷ bytes_of "breakpoint"
    ∷ bytes_of "load_address_misaligned"
    ∷ bytes_of "load_access_fault"
    ∷ bytes_of "store_address_misaligned"
    ∷ bytes_of "store_access_fault"
    ∷ bytes_of "ecall"
    ∷ bytes_of "ecall"
    ∷ bytes_of "ecall"
    ∷ bytes_of "ecall"
    ∷ bytes_of "instruction_page_fault"
    ∷ bytes_of "load_page_fault"
    ∷ bytes_of "unknown"
    ∷ bytes_of "store_page_fault"
    ∷ []

unfoldable pub cause_name : ℕ → Text
unfolding bytes_of exception_names
cause_name scause =
    if leb scause 15
    then get_or exception_names scause []
    else (if scause == cause_timer
        then bytes_of "timer"
        else (if not (bit_and scause interrupt_bit == 0)
            then bytes_of "unexpected_interrupt"
            else bytes_of "unknown"))

unfoldable pub severity_name : Severity → Text
unfolding bytes_of
severity_name Severity.trace = bytes_of "trace"
severity_name Severity.info = bytes_of "info"
severity_name Severity.warn = bytes_of "warn"
severity_name Severity.error = bytes_of "error"

-- One entry of the ring.
unfoldable pub ring_row : Trap → Text
unfolding bytes_of joined decimal hex cause_name
ring_row t = joined (
    bytes_of "{\"id\":"
    ∷ decimal t.id
    ∷ bytes_of ",\"cause\":\""
    ∷ cause_name t.scause
    ∷ bytes_of "\",\"sepc\":\"0x"
    ∷ hex t.sepc
    ∷ bytes_of "\"}"
    ∷ [])

unfoldable pub rows : (Trap → Text) → List Trap → List Text
rows row [] = []
rows row (t ∷ ts) = row t ∷ rows row ts

unfoldable pub write_ring : TrapState → Text
unfolding bytes_of joined comma_separated rows ring_row ring_entries
write_ring s =
    joined (bytes_of "[" ∷ comma_separated (rows ring_row (ring_entries s)) ∷ bytes_of "]" ∷ [])

unfoldable pub write_ring_resource : TrapState → Text
unfolding bytes_of joined decimal write_ring
write_ring_resource s = joined (
    bytes_of "{\"count\":"
    ∷ decimal s.ring_count
    ∷ bytes_of ",\"entries\":"
    ∷ write_ring s
    ∷ bytes_of "}"
    ∷ [])

-- What `emit_ring_dump` writes under the event's id.
unfoldable pub ring_dump_text : ℕ → TrapState → Text
unfolding bytes_of joined decimal write_ring
ring_dump_text id s = joined (
    bytes_of "{\"id\":"
    ∷ decimal id
    ∷ bytes_of ",\"type\":\"trap_ring\",\"count\":"
    ∷ decimal s.ring_count
    ∷ bytes_of ",\"entries\":"
    ∷ write_ring s
    ∷ bytes_of "}"
    ∷ [])

-- One item of the digest.
unfoldable pub digest_row : Trap → Text
unfolding bytes_of joined decimal hex cause_name severity_name severity_of
digest_row t = joined (
    bytes_of "{\"id\":"
    ∷ decimal t.id
    ∷ bytes_of ",\"severity\":\""
    ∷ severity_name (severity_of t.scause)
    ∷ bytes_of "\",\"cause\":\""
    ∷ cause_name t.scause
    ∷ bytes_of "\",\"sepc\":\"0x"
    ∷ hex t.sepc
    ∷ bytes_of "\"}"
    ∷ [])

-- What `write_digest` writes of what it has found.
unfoldable pub digest_text : ℕ → TrapState → Text
unfolding bytes_of joined decimal comma_separated rows digest_row write_digest
digest_text budget s =
    let d = write_digest budget s in
    joined (
      bytes_of "{\"budget\":"
      ∷ decimal budget
      ∷ bytes_of ",\"autonomy\":\""
      ∷ (if s.autonomous then bytes_of "autonomous" else bytes_of "reactive")
      ∷ bytes_of "\",\"totals\":{\"traps\":"
      ∷ decimal d.total
      ∷ bytes_of ",\"timer\":"
      ∷ decimal d.timer
      ∷ bytes_of ",\"ecall\":"
      ∷ decimal d.ecall
      ∷ bytes_of ",\"fault\":"
      ∷ decimal d.fault
      ∷ bytes_of "},\"by_severity\":{\"error\":"
      ∷ decimal d.fault
      ∷ bytes_of ",\"info\":"
      ∷ decimal d.ecall
      ∷ bytes_of ",\"trace\":"
      ∷ decimal d.timer
      ∷ bytes_of "},\"items\":["
      ∷ comma_separated (rows digest_row d.items)
      ∷ bytes_of "],\"elided\":"
      ∷ decimal d.elided
      ∷ bytes_of "}"
      ∷ [])
