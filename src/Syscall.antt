-- ===== src/Syscall.antt =====
-- kernel/src/syscall.rs: the dispatch of a system call.
pub mod Soundness
use kernai.Base.{ℕ, ◌%◌, ◌^◌, ◌&&◌, Option, none, some, ◌==◌, if◌then◌else◌}
use kernai.Traps.Frame.{TrapFrame, a0, a1, a2, a7}
use kernai.Payload.Images.{Build}
use kernai.Payload.Checkpoint.{enosys, on_snapshot}
use kernai.Payload.Hooks.{on_exit, sys_write, on_yield, on_spawn, on_getkey}
use kernai.Payload.Output.{on_blit, on_frame_rgb}
use kernai.Kernel.{Kernel}

-- What the trap handler does after a system call: the payload resumes with a value, or leaves.
pub data Outcome : Type 0 where
  resume : ℕ → Outcome
  leave : Outcome

abbrev resuming : ℕ × Kernel → Outcome × Kernel
resuming (v, k) = (resume v, k)

pub data Call : Type 0 where
  exit write yield spawn snapshot blit frame_rgb getkey : Call

-- The call of a number, among those of the build.
unfoldable pub call_of : Build → ℕ → Option Call
call_of b nr =
    if nr == 0
    then some exit
    else (if nr == 1
        then some write
        else (if nr == 2
            then some yield
            else (if nr == 3
                then some spawn
                else (if nr == 4
                    then some snapshot
                    else (if nr == 5
                        then some blit
                        else (if b.doom && (nr == 6)
                            then some frame_rgb
                            else (if b.doom && (nr == 7) then some getkey else none)))))))

unfoldable pub perform : Call → TrapFrame → Kernel → Outcome × Kernel
unfolding on_exit sys_write on_yield on_spawn on_snapshot on_blit on_frame_rgb on_getkey
perform exit f k = (leave, on_exit (a0 f) k)
perform write f k = resuming (sys_write (a0 f) (a1 f) k)
perform yield f k = resuming (on_yield k)
perform spawn f k = resuming (on_spawn (a0 f) (a1 f % 2 ^ 32) k)
perform snapshot f k = resuming (on_snapshot f k)
perform blit f k = resuming (on_blit (a0 f) (a1 f) (a2 f) k)
perform frame_rgb f k = resuming (on_frame_rgb (a0 f) (a1 f) (a2 f) k)
perform getkey f k = resuming (on_getkey k)

unfoldable pub dispatch : Build → TrapFrame → Kernel → Outcome × Kernel
unfolding call_of perform
dispatch b f k = elim (call_of b (a7 f)) [ none ↦ (resume enosys, k) | some c ↦ perform c f k ]
