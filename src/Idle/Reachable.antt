-- ===== src/Idle/Reachable.antt =====
-- The whole kernel as a transition system: kernel/src/main.rs boots it into the idle loop, the loop
-- of kernel/src/payload.rs (`run`) schedules, a payload runs until it traps, and `handle` of
-- kernel/src/traps.rs takes each trap.
use kernai.Base.{ℕ, ◌≡◌, ◌==◌, if◌then◌else◌, Bool, true, false, Option, some, List}
use kernai.Frames.{Pool}
use kernai.Traps.Frame.{TrapFrame, is_from_user}
use kernai.Traps.Handle.{Layout, Return, sret, shutdown, handle}
use kernai.Traps.Handle.Soundness.{handle-IsSound}
use kernai.Payload.Images.{Build}
use kernai.Payload.Slot.{no_pid}
use kernai.Payload.Scheduler.{Outcome, to_user, to_idle, to_crash, out_of_fuel, run}
use kernai.Payload.Attenuation.{IsSound}
use kernai.Payload.Soundness.Seeds.{IsIdle}
use kernai.Payload.Soundness.Passes.{Left, run-Left}
use kernai.Rpc.Tools.{Verdict, served, seeded, crashed}
use kernai.Idle.{kmain, idle_round}
use kernai.Idle.Boot.{kmain-IsIdle}
use kernai.Idle.Soundness.{idle_round-IsIdle}
use kernai.Kernel.{Kernel, boot_state}

-- Who has the CPU.
pub data Mode : Type 0 where
  idling scheduling in_user stopped : Mode

abbrev pub after_round : Verdict → Mode
after_round served = Mode.idling
after_round seeded = Mode.scheduling
after_round crashed = Mode.stopped

abbrev pub after_run : Outcome → Mode
after_run (to_user pid satp frame) = Mode.in_user
after_run to_idle = Mode.idling
after_run to_crash = Mode.stopped
after_run out_of_fuel = Mode.scheduling

-- The handler returns into the scheduler exactly when no payload is current any more.
abbrev pub after_trap : Return × Kernel → Mode
after_trap (shutdown, k) = Mode.stopped
after_trap (sret f, k) = if k.current == no_pid then Mode.scheduling else Mode.in_user

-- The states that the kernel comes to over a memory, a clock and the input of the serial line,
-- whatever frames and causes its payloads trap with.
pub data Reachable (b : Build) (l : Layout) (p : Pool) (clock : ℕ → ℕ) (rx : List (Option ℕ))
    : Mode → Kernel → Type 0 where
  boots :
      (k : Kernel) → kmain (boot_state p clock rx) ≡ some k → Reachable b l p clock rx Mode.idling k
  idles :
      (k : Kernel)
      → Reachable b l p clock rx Mode.idling k
      → Reachable b l p clock rx (after_round (idle_round b k).0) (idle_round b k).1
  schedules :
      (k : Kernel) (passes : ℕ)
      → Reachable b l p clock rx Mode.scheduling k
      → Reachable b l p clock rx (after_run (run passes b k).0) (run passes b k).1
  traps :
      (k : Kernel) (f : TrapFrame) (scause stval : ℕ)
      → is_from_user f ≡ true
      → Reachable b l p clock rx Mode.in_user k
      → Reachable b l p clock rx
          (after_trap (handle b l f scause stval k))
          (handle b l f scause stval k).1

-- What holds in each mode.
abbrev Fits : Mode → Kernel → Type 0
Fits Mode.idling k = IsIdle k
Fits _ k = IsSound k

round-Fits : (v : Verdict) (k : Kernel) → IsIdle k → Fits (after_round v) k
round-Fits served k s = s
round-Fits seeded k s = s.sound
round-Fits crashed k s = s.sound

run-Fits : (r : Outcome × Kernel) → Left r → Fits (after_run r.0) r.1
run-Fits (to_user pid satp frame, k) s = s
run-Fits (to_idle, k) s = s
run-Fits (to_crash, k) s = s
run-Fits (out_of_fuel, k) s = s

trap-Fits : (r : Return × Kernel) → IsSound r.1 → Fits (after_trap r) r.1
trap-Fits (shutdown, k) s = s
trap-Fits (sret f, k) s = either (k.current == no_pid)
  where
    either : (c : Bool) → Fits (if c then Mode.scheduling else Mode.in_user) k
    either true = s
    either false = s

Fits-IsSound : (m : Mode) (k : Kernel) → Fits m k → IsSound k
Fits-IsSound Mode.idling k s = s.sound
Fits-IsSound Mode.scheduling k s = s
Fits-IsSound Mode.in_user k s = s
Fits-IsSound Mode.stopped k s = s

module _ (b : Build) (l : Layout) (p : Pool) (clock : ℕ → ℕ) (rx : List (Option ℕ)) where
  Reachable-Fits : (m : Mode) (k : Kernel) → Reachable b l p clock rx m k → Fits m k
  Reachable-Fits _ _ (boots k h) = kmain-IsIdle p clock rx k h
  Reachable-Fits _ _ (idles k r) =
      round-Fits (idle_round b k).0 _ (idle_round-IsIdle b k (Reachable-Fits _ k r))
  Reachable-Fits _ _ (schedules k passes r) =
      run-Fits (run passes b k) (run-Left passes b k (Reachable-Fits _ k r))
  Reachable-Fits _ _ (traps k f scause stval u r) =
      trap-Fits (handle b l f scause stval k)
        (handle-IsSound b l f scause stval k (Reachable-Fits _ k r))

-- A kernel that boots, over any memory, clock and input of the serial line, is sound in every state
-- that it comes to, through any rounds of the idle loop, passes of the scheduler and traps of its
-- payloads (system calls, ticks and faults): every occupied slot's capabilities lie under its
-- image's ceiling and, when it has a parent, under its parent's, and the current payload has a slot.
pub Reachable-IsSound :
    (b : Build) (l : Layout) (p : Pool) (clock : ℕ → ℕ) (rx : List (Option ℕ)) (m : Mode)
    (k : Kernel)
    → Reachable b l p clock rx m k
    → IsSound k
Reachable-IsSound b l p clock rx m k r = Fits-IsSound m k (Reachable-Fits b l p clock rx m k r)
