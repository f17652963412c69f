-- ===== src/Payload/Preempt.antt =====
-- kernel/src/payload.rs: the preemptive control plane (`maybe_preempt`).
use kernai.Base.{ℕ, Bool, true, false, not, Option, none, some, bit_or, ◌==◌, if◌then◌else◌}
use kernai.Frames.{alloc}
use kernai.Traps.Frame.{TrapFrame, a0, save_frame_to}
use kernai.Payload.Slot.{State, is_running}
use kernai.Payload.Images.{Build, image_wants_input}
use kernai.Payload.Table.{current_pid}
use kernai.Kernel.{Kernel, Body, slot_at, put_slot, emit, getchar}

-- The frame that the registers are saved in: the slot's, or a new one that the slot keeps.
unfoldable pub resume_frame_for : ℕ → Kernel → Option ℕ × Kernel
resume_frame_for pid k =
    let s = slot_at pid k in
    if not (s.resume_frame == 0) then (some s.resume_frame, k) else elim (alloc k.pool) [
      | none ↦ (none, k)
      | some (frame, pool) ↦
          (some frame, put_slot pid (record s { resume_frame = frame }) (record k { pool = pool }))
    ]

-- The payload is suspended: its registers saved, its slot queued again.
unfoldable pub suspend : TrapFrame → ℕ → ℕ → Kernel → Kernel
suspend f pid frame k =
    let k1 = record k { pool = save_frame_to f frame (a0 f) k.pool } in
    let s = slot_at pid k1 in
    emit (Body.sched_preempt pid s.start_event)
      (put_slot pid (record s { preempted = true; state = State.pending }) k1)

-- `0x100 | b` marks the byte as stashed.
unfoldable pub preempt_with : TrapFrame → ℕ → ℕ → Kernel → Bool × Kernel
unfolding resume_frame_for suspend
preempt_with f pid b k =
    let (frame, k1) = resume_frame_for pid (record k { stashed_byte = bit_or 0x100 b }) in
    elim frame [ none ↦ (false, k1) | some rf ↦ (true, suspend f pid rf k1) ]

unfoldable pub maybe_preempt : Build → TrapFrame → Kernel → Bool × Kernel
unfolding preempt_with
maybe_preempt b f k = elim (current_pid k) [
  | none ↦ (false, k)
  | some pid ↦
      if not (is_running (slot_at pid k).state)
      then (false, k)
      else (if image_wants_input b (slot_at pid k).image
          then (false, k)
          else (let (byte, k1) = getchar k in
              elim byte [ none ↦ (false, k1) | some c ↦ preempt_with f pid c k1 ]))
]
