-- ===== src/Traps/Handle.antt =====
-- kernel/src/traps.rs: the trap handler.
pub mod Soundness
use kernai.Base.{
  ℕ, ◌+◌, ◌%◌, ◌^◌, Bool, true, false, not, ◌||◌, Option, none, some, bit_or, ◌==◌, if◌then◌else◌,
}
use kernai.Traps.Ring.{
  Trap, u64_mod, tick_interval, cause_timer, cause_ecall, bump, ring_record, next_tick,
}
use kernai.Traps.Frame.{
  TrapFrame, sstatus_spp, sstatus_spie, set_a0, set_sp, is_from_user, advance_past_ecall,
}
use kernai.Traps.Fault.{emit_fault}
use kernai.Payload.Images.{Build}
use kernai.Payload.Table.{current_pid, leave_current}
use kernai.Payload.Hooks.{mark_faulted, on_tick, drain_keys}
use kernai.Payload.Preempt.{maybe_preempt}
use kernai.Syscall.{Outcome, resume, leave, dispatch}
use kernai.Kernel.{Kernel, Body, read_time, take_id, emit_as}

-- The addresses that the linker gives to `scheduler_resume` and to the top of the boot stack.
pub record Layout : Type 0 where
  pub scheduler_resume : ℕ
  pub boot_stack_top : ℕ

-- How a trap ends: `sret` with a frame, or the machine is shut down.
pub data Return : Type 0 where
  sret : TrapFrame → Return
  shutdown : Return

-- `set_timer` and the deadline that it is armed for.
unfoldable pub arm : ℕ → Kernel → Kernel
arm deadline k = record k { timer = deadline; traps = record k.traps { next_deadline = deadline } }

unfoldable pub arm_first_tick : Kernel → Kernel
unfolding read_time arm
arm_first_tick k = let (now, k1) = read_time k in arm ((now + tick_interval) % u64_mod) k1

-- The frame that returns to the scheduler in S-mode with interrupts on, on the boot stack.
unfoldable pub to_scheduler : Layout → TrapFrame → TrapFrame
unfolding set_sp
to_scheduler l f = set_sp l.boot_stack_top (record f {
  sepc = l.scheduler_resume;
  sstatus = bit_or (bit_or f.sstatus sstatus_spp) sstatus_spie;
})

unfoldable pub redirect_to_scheduler : Layout → TrapFrame → Kernel → Return × Kernel
unfolding leave_current to_scheduler
redirect_to_scheduler l f k = (sret (to_scheduler l f), leave_current k)

-- The tick's event, which the autonomous kernel does not send.
unfoldable pub report_tick : ℕ → ℕ → Kernel → Kernel
unfolding read_time emit_as
report_tick id seq k =
    let (now, k1) = read_time k in
    if k.traps.autonomous then k else emit_as id (Body.tick seq now) k1

-- The timer is armed again and the tick counted and reported.
unfoldable pub count_tick : ℕ → Kernel → Kernel
unfolding read_time arm report_tick next_tick
count_tick id k =
    let (now, k1) = read_time k in
    let k2 = arm (next_tick k1.traps.next_deadline now) k1 in
    let seq = bump k2.traps.ticks in
    report_tick id seq (record k2 { traps = record k2.traps { ticks = seq } })

-- The hooks of a tick: the keys, the deadline, the preemption.
unfoldable pub tick_hooks : Build → Layout → TrapFrame → Kernel → Return × Kernel
unfolding drain_keys on_tick maybe_preempt redirect_to_scheduler
tick_hooks b l f k =
    let (op_killed, k1) = if b.doom then drain_keys b k else (false, k) in
    let (over, k2) = on_tick k1 in
    let (preempted, k3) = maybe_preempt b f k2 in
    if over || op_killed
    then redirect_to_scheduler l f k2
    else (if preempted then redirect_to_scheduler l f k3 else (sret f, k3))

unfoldable pub handle_tick : Build → Layout → TrapFrame → ℕ → Kernel → Return × Kernel
unfolding count_tick tick_hooks
handle_tick b l f id k = tick_hooks b l f (count_tick id k)

unfoldable pub handle_ecall : Build → Layout → TrapFrame → Kernel → Return × Kernel
unfolding advance_past_ecall dispatch set_a0 redirect_to_scheduler
handle_ecall b l f k =
    let f1 = advance_past_ecall f in
    let (r, k1) = dispatch b f1 k in
    elim r [ resume v ↦ (sret (set_a0 v f1), k1) | leave ↦ redirect_to_scheduler l f1 k1 ]

unfoldable pub handle_fault : Layout → TrapFrame → ℕ → ℕ → ℕ → Kernel → Return × Kernel
unfolding is_from_user emit_fault mark_faulted redirect_to_scheduler
handle_fault l f id scause stval k =
    if is_from_user f
    then redirect_to_scheduler l f (mark_faulted (emit_fault f id scause stval (current_pid k) k))
    else (shutdown, emit_fault f id scause stval none k)

-- The trap's event id is taken and the trap recorded.
unfoldable pub record_trap : TrapFrame → ℕ → ℕ → Kernel → ℕ × Kernel
unfolding take_id ring_record
record_trap f scause stval k =
    let (id, k1) = take_id k in
    let trap : Trap = record { id = id; scause = scause; sepc = f.sepc; stval = stval } in
    (id, record k1 { traps = ring_record trap k1.traps })

-- What the handler tells apart.
pub data Cause : Type 0 where
  timer ecall other : Cause

abbrev pub cause_of : ℕ → Cause
cause_of scause =
    if scause == cause_timer then timer else (if scause == cause_ecall then ecall else other)

-- The rest, by the cause.
unfoldable pub route : Cause → Build → Layout → TrapFrame → ℕ → ℕ → ℕ → Kernel → Return × Kernel
unfolding handle_tick handle_ecall handle_fault
route timer b l f id scause stval k = handle_tick b l f id k
route ecall b l f id scause stval k = handle_ecall b l f k
route other b l f id scause stval k = handle_fault l f id scause stval k

-- `handle`, with what the two registers `scause` and `stval` hold.
unfoldable pub handle : Build → Layout → TrapFrame → ℕ → ℕ → Kernel → Return × Kernel
unfolding record_trap route
handle b l f scause stval k =
    let (id, k1) = record_trap f scause stval k in route (cause_of scause) b l f id scause stval k1
