-- ===== src/Tests/Machine.antt =====
-- Traps, system calls and the boot at concrete inputs (kernel/src/traps.rs, kernel/src/syscall.rs,
-- kernel/src/main.rs).
use kernai.Base.{
  subst, false, arith, ℕ, ◌≡◌, refl, Option, none, some, [], ◌∷◌, replicate, value_or, List,
}
use kernai.Console.{framed}
use kernai.Traps.Ring.{cause_timer}
use kernai.Traps.Frame.{TrapFrame}
use kernai.Traps.Handle.{Layout, handle}
use kernai.Traps.Handle.Soundness.{Returns, handle-IsSound, handle-Returns}
use kernai.Payload.Attenuation.{IsSound}
use kernai.Idle.{kmain, idle_round}
use kernai.Idle.Reachable.{Reachable, after_round, after_run, Reachable-IsSound}
use kernai.Payload.Scheduler.{run}
use kernai.Rpc.Tools.{seeded}
use kernai.Idle.Panic.{Location, panic}
use kernai.Idle.Panic.Reports.{panic_text, panic-reported}
use kernai.Kernel.{Kernel, boot_state}
use kernai.Tests.Memory.{empty_pool}
use kernai.Tests.Processes.{build, spawned, spawned-IsSound}

abbrev layout : Layout
layout = record { scheduler_resume = 0x8020_1000; boot_stack_top = 0x8030_0000 }

-- A payload's frame with a store page fault, and one with the system call `spawn`.
abbrev user_frame : TrapFrame
user_frame = record { regs = replicate 31 3; sepc = 0x10_0000; sstatus = 0x20 }

handle-IsSound_example : IsSound (handle build layout user_frame cause_timer 0 spawned).1
handle-IsSound_example =
    handle-IsSound build layout user_frame cause_timer 0 spawned spawned-IsSound

handle-Returns_example :
    Returns layout user_frame (handle build layout user_frame 15 0x9000_0000 spawned)
handle-Returns_example =
    handle-Returns build layout user_frame 15 0x9000_0000 spawned spawned-IsSound

-- The operator starts the suite `p` and asks for the ring.
abbrev typed : List (Option ℕ)
typed = some b'p' ∷ none ∷ some b'r' ∷ []

abbrev powered_on : Kernel
powered_on = boot_state empty_pool (λ n. n) typed

abbrev up : Kernel
up = value_or powered_on (kmain powered_on)

boots : kmain powered_on ≡ some up
unfolding kmain kernai.Mm.new_space kernai.Frames.alloc kernai.Frames.alloc_from kernai.Frames.test
    kernai.Kernel.emit kernai.Mm.map_kernel kernai.Mm.read_pte kernai.Hal.phys_read_u64
    kernai.Frames.take_frame kernai.Mm.vpn kernai.Hal.phys_zero
boots = refl

-- The first round of the idle loop serves the byte `p`.
round_seeds : (idle_round build up).0 ≡ seeded
unfolding idle_round kernai.Idle.filtered kernai.Idle.command kernai.Kernel.getchar kmain
    kernai.Kernel.emit kernai.Mm.new_space kernai.Frames.alloc kernai.Frames.alloc_from
    kernai.Frames.test kernai.Mm.map_kernel kernai.Mm.read_pte kernai.Hal.phys_read_u64
    kernai.Frames.take_frame kernai.Mm.vpn kernai.Hal.phys_zero kernai.Traps.Handle.arm_first_tick
round_seeds = refl

-- Two passes of the scheduler over the suite that was seeded.
after_two_passes :
    Reachable build layout empty_pool
      (λ n. n)
      typed
      (after_run (run 2 build (idle_round build up).1).0)
      (run 2 build (idle_round build up).1).1
after_two_passes = Reachable.schedules (idle_round build up).1 2 (
    subst
      (λ v.
        Reachable build layout empty_pool (λ n. n) typed (after_round v) (idle_round build up).1)
      round_seeds (Reachable.idles up (Reachable.boots up boots)))

Reachable-IsSound_example : IsSound (run 2 build (idle_round build up).1).1
Reachable-IsSound_example =
    Reachable-IsSound build layout empty_pool (λ n. n) typed
      (after_run (run 2 build (idle_round build up).1).0) (run 2 build (idle_round build up).1).1
      after_two_passes

abbrev some_location : Location
some_location = record { file = b'm' ∷ b'.' ∷ b'r' ∷ b's' ∷ []; line = 42 }

-- A quote, a line end and a character of three bytes.
abbrev some_message : List ℕ
some_message = b'"' ∷ 10 ∷ 0x2014 ∷ []

panic-reported_example :
    ((panic (some some_location) some_message (false, powered_on)).0
      ≡ framed (panic_text 0 (some some_location) some_message))
    × ((l' : Option Location) (message' : List ℕ)
        → panic l' message' (panic (some some_location) some_message (false, powered_on)).1
          ≡ ([], (panic (some some_location) some_message (false, powered_on)).1))
panic-reported_example = panic-reported some_location some_message powered_on (omega arith)
