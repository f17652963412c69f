-- ===== src/Traps/Frame.antt =====
-- kernel/src/traps.rs: the trap frame and its copy in a frame of the pool
-- (x_n at (n - 1) * 8, sepc at 248, sstatus at 256).
use kernai.Base.{ℕ, ◌+◌, ◌*◌, ◌%◌, ◌^◌, Bool, List, [], ◌∷◌, bit_and, ◌==◌, get_or, set}
use kernai.Hal.{phys_write_u64}
use kernai.Frames.{Pool}

pub record TrapFrame : Type 0 where
  pub regs : List ℕ
  pub sepc : ℕ
  pub sstatus : ℕ

abbrev pub sstatus_spp : ℕ
sstatus_spp = 2 ^ 8

abbrev pub sstatus_spie : ℕ
sstatus_spie = 2 ^ 5

abbrev pub x_sp : ℕ
x_sp = 1

abbrev pub x_a0 : ℕ
x_a0 = 9

unfoldable pub reg : ℕ → TrapFrame → ℕ
reg i f = get_or f.regs i 0

abbrev pub a0 : TrapFrame → ℕ
a0 = reg 9

abbrev pub a1 : TrapFrame → ℕ
a1 = reg 10

abbrev pub a2 : TrapFrame → ℕ
a2 = reg 11

abbrev pub a7 : TrapFrame → ℕ
a7 = reg 16

unfoldable pub set_a0 : ℕ → TrapFrame → TrapFrame
set_a0 v f = record f { regs = set f.regs x_a0 v }

unfoldable pub set_sp : ℕ → TrapFrame → TrapFrame
set_sp v f = record f { regs = set f.regs x_sp v }

unfoldable pub is_from_user : TrapFrame → Bool
is_from_user f = bit_and f.sstatus sstatus_spp == 0

unfoldable pub advance_past_ecall : TrapFrame → TrapFrame
advance_past_ecall f = record f { sepc = (f.sepc + 4) % 2 ^ 64 }

abbrev pub write_u64 : ℕ → ℕ → Pool → Pool
write_u64 pa v s = record s { mem = (phys_write_u64 pa v s.mem).1 }

-- The loop over the registers, from register `i` on.
unfoldable pub save_regs : List ℕ → ℕ → ℕ → Pool → Pool
save_regs [] i pa s = s
save_regs (r ∷ rs) i pa s = save_regs rs (i + 1) pa (write_u64 (pa + i * 8) r s)

unfoldable pub save_frame_to : TrapFrame → ℕ → ℕ → Pool → Pool
unfolding save_regs
save_frame_to f pa a0' s =
    let s1 = save_regs f.regs 0 pa s in
    let s2 = write_u64 (pa + x_a0 * 8) a0' s1 in
    let s3 = write_u64 (pa + 248) f.sepc s2 in write_u64 (pa + 256) f.sstatus s3

unfoldable pub init_frame_to : ℕ → ℕ → Pool → Pool
init_frame_to pa entry s = write_u64 (pa + 256) sstatus_spie (write_u64 (pa + 248) entry s)
