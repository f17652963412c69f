-- ===== src/Idle.antt =====
-- kernel/src/main.rs: the boot order, and the idle loop that serves single bytes and requests.
-- `payload::run` diverges; here it returns where it goes.
pub mod Soundness
pub mod Boot
pub mod Panic
pub mod Reachable
use kernai.Base.{
  ℕ, zero, suc, Bool, true, false, ◌&&◌, Option, none, some, ◌==◌, if◌then◌else◌, Result, ok, err,
}
use kernai.Mm.{new_space, map_kernel, satp_of}
use kernai.Traps.Handle.{arm_first_tick}
use kernai.Payload.Images.{Build}
use kernai.Payload.Keys.{swallow_stray_key}
use kernai.Payload.Suites.{Suite, seed_suite}
use kernai.Payload.Scheduler.{Outcome, to_user, to_idle, to_crash, out_of_fuel, emit_ring_dump, run}
use kernai.Rpc.Tools.{Verdict, served, seeded, crashed}
use kernai.Rpc.Dispatch.{read_request}
use kernai.Kernel.{Kernel, Body, emit, getchar}

-- `init_paging`: none if a frame for the kernel's tables is missing, which panics.
unfoldable pub init_paging : Kernel → Option Kernel
init_paging k = elim (new_space k.pool) [
  | none ↦ none
  | some (space, p) ↦
      let (mapped, p') = map_kernel space p in
      elim mapped [
        | err _ ↦ none
        | ok _ ↦ some (record k { pool = p'; kernel_root = space; satp = satp_of space })
      ]
]

-- `kmain` up to the idle loop.
unfoldable pub kmain : Kernel → Option Kernel
unfolding init_paging
kmain k = elim (init_paging (emit Body.hello k)) [
  | none ↦ none
  | some k1 ↦ some (arm_first_tick k1)
]

-- A byte of the key protocol that came too late is swallowed, in a `doom` build.
unfoldable pub filtered : Build → Option ℕ → Kernel → Option ℕ × Kernel
filtered b none k = (none, k)
filtered b (some c) k =
    let (stray, keys) = swallow_stray_key c k.keys in
    if b.doom then (if stray then none else some c, record k { keys = keys }) else (some c, k)

-- The suite that a single byte starts.
unfoldable pub suite_of_byte : Build → ℕ → Option Suite
suite_of_byte b c =
    if c == b'p'
    then some Suite.m3
    else (if c == b'm'
        then some Suite.m4
        else (if c == b'i'
            then some Suite.m5
            else (if c == b'f'
                then some Suite.m6
                else (if c == b'd'
                    then some Suite.m10
                    else (if c == b'e'
                        then some Suite.eval
                        else (if b.cpayloads && (c == b'c')
                            then some Suite.craycast
                            else (if b.doom && (c == b'D') then some Suite.doom else none)))))))

-- What the CPU does after a byte: the loop goes on, the scheduler runs, or the kernel crashes.
unfoldable pub command : Build → ℕ → Kernel → Verdict × Kernel
unfolding read_request emit_ring_dump suite_of_byte
command b c k =
    if c == 0xAA
    then read_request b k
    else (if c == b'r'
        then (served, emit_ring_dump k)
        else (if c == b'x' then (crashed, k) else elim (suite_of_byte b c) [
          | none ↦ (served, k)
          | some suite ↦ (seeded, seed_suite b suite k)
        ]))

-- One round of the loop; without a byte it waits for the next interrupt.
unfoldable pub idle_round : Build → Kernel → Verdict × Kernel
unfolding filtered command
idle_round b k =
    let (byte, k1) = getchar k in
    let (command_byte, k2) = filtered b byte k1 in
    elim command_byte [ none ↦ (served, k2) | some c ↦ command b c k2 ]

-- The loop, for as many rounds as given, with as many passes for each run of the scheduler.
unfoldable pub idle : ℕ → ℕ → Build → Kernel → Outcome × Kernel
unfolding idle_round run
idle zero passes b k = (out_of_fuel, k)
idle (suc rounds) passes b k =
    let (v, k1) = idle_round b k in
    let (o, k2) = run passes b k1 in
    let go_on = idle rounds passes b k1 in
    let go_back = idle rounds passes b k2 in
    elim v [
      | served ↦ go_on
      | crashed ↦ (to_crash, k1)
      | seeded ↦ elim o [
        | to_user pid satp frame ↦ (to_user pid satp frame, k2)
        | to_idle ↦ go_back
        | to_crash ↦ (to_crash, k2)
        | out_of_fuel ↦ (out_of_fuel, k2)
      ]
    ]
