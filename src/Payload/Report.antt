-- ===== src/Payload/Report.antt =====
-- kernel/src/payload.rs: the process table and the self-description, as the text that they write
-- into a frame.
pub mod Bounds
use kernai.Base.{
  ℕ, zero, suc, ◌+◌, ◌*◌, ◌^◌, Bool, true, false, List, [], ◌∷◌, ◌++◌, bit_and, ◌==◌, if◌then◌else◌,
}
use kernai.Text.{Text, bytes_of, joined, comma_separated}
use kernai.Text.Numbers.{decimal, signed, hex}
use kernai.Hal.{pool_base, pool_end}
use kernai.Payload.Slot.{Slot, State, is_empty, cap_write, cap_yield, cap_spawn}
use kernai.Payload.Images.{Build, image_at}
use kernai.Kernel.{Kernel}

-- A name of the lattice, if its bit is there.
unfoldable pub cap_name : Text → ℕ → ℕ → List Text → List Text
cap_name name bit caps rest =
    if bit_and caps bit == 0 then rest else (b'"' ∷ (name ++ (b'"' ∷ []))) ∷ rest

unfoldable pub caps_json : ℕ → Text
unfolding cap_name comma_separated bytes_of
caps_json caps = joined (
    bytes_of "["
    ∷ comma_separated (
        cap_name (bytes_of "write") cap_write caps (
          cap_name (bytes_of "yield") cap_yield caps
            (cap_name (bytes_of "spawn") cap_spawn caps [])))
    ∷ bytes_of "]"
    ∷ [])

unfoldable pub state_name : State → Text
unfolding bytes_of
state_name State.empty = bytes_of "empty"
state_name State.pending = bytes_of "pending"
state_name State.running = bytes_of "running"
state_name State.exited = bytes_of "exited"
state_name State.faulted = bytes_of "faulted"
state_name State.killed = bytes_of "killed"

-- One entry of the process table.
unfoldable pub process_row : ℕ → Slot → Text
unfolding caps_json state_name bytes_of joined decimal signed
process_row pid s = joined (
    bytes_of "{\"pid\":"
    ∷ decimal pid
    ∷ bytes_of ",\"name\":\""
    ∷ bytes_of (image_at s.image).name
    ∷ bytes_of "\",\"state\":\""
    ∷ state_name s.state
    ∷ bytes_of "\",\"exit_code\":"
    ∷ signed s.exit_code
    ∷ bytes_of ",\"caps\":"
    ∷ caps_json s.caps
    ∷ bytes_of "}"
    ∷ [])

-- The rows of the slots that are not empty, from `pid` on.
unfoldable pub process_rows : ℕ → List Slot → List Text
unfolding process_row
process_rows pid [] = []
process_rows pid (s ∷ rest) =
    let rows = process_rows (pid + 1) rest in
    if is_empty s.state then rows else process_row pid s ∷ rows

unfoldable pub write_process_table : Kernel → Text
unfolding process_rows comma_separated bytes_of joined
write_process_table k =
    joined
      (bytes_of "{\"processes\":[" ∷ comma_separated (process_rows 0 k.table) ∷ bytes_of "]}" ∷ [])

abbrev syscall_row : ℕ → Text → Text
syscall_row num name =
    joined
      (bytes_of "{\"num\":" ∷ decimal num ∷ bytes_of ",\"name\":\"" ∷ name ∷ bytes_of "\"}" ∷ [])

abbrev cap_row : Text → ℕ → Text
cap_row name bit =
    joined
      (bytes_of "{\"name\":\"" ∷ name ∷ bytes_of "\",\"bit\":" ∷ decimal bit ∷ bytes_of "}" ∷ [])

unfoldable pub write_spec : Build → Text
unfolding bytes_of joined decimal hex
write_spec b = joined (
    bytes_of "{\"proto\":0,\"arch\":\"riscv64\",\"syscalls\":["
    ∷ comma_separated (
        syscall_row 0 (bytes_of "exit")
        ∷ syscall_row 1 (bytes_of "write")
        ∷ syscall_row 2 (bytes_of "yield")
        ∷ syscall_row 3 (bytes_of "spawn")
        ∷ syscall_row 4 (bytes_of "snapshot")
        ∷ syscall_row 5 (bytes_of "blit")
        ∷ [])
    ∷ (if b.doom
        then bytes_of ",{\"num\":6,\"name\":\"frame\"},{\"num\":7,\"name\":\"getkey\"}"
        else [])
    ∷ bytes_of "],\"caps\":["
    ∷ comma_separated (
        cap_row (bytes_of "write") cap_write
        ∷ cap_row (bytes_of "yield") cap_yield
        ∷ cap_row (bytes_of "spawn") cap_spawn
        ∷ [])
    ∷ bytes_of "],\"memory\":{\"kernel_base\":\"0x80200000\",\"pool_base\":\"0x"
    ∷ hex pool_base
    ∷ bytes_of "\",\"pool_end\":\"0x"
    ∷ hex pool_end
    ∷ bytes_of "\"}"
    ∷ (if b.doom
        then joined (
            bytes_of ",\"windows\":[{\"name\":\"iwad\",\"image\":\"doom\",\"va\":\"0x"
            ∷ hex 0x5000_0000
            ∷ bytes_of "\",\"len\":"
            ∷ decimal (32 * 2 ^ 20)
            ∷ bytes_of ",\"perms\":\"r\"}]"
            ∷ [])
        else [])
    ∷ bytes_of "}"
    ∷ [])
