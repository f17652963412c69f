-- ===== src/Hart/Vector.antt =====
-- kernel/src/hal/trap.rs: the trap vector, in the blocks that its labels end, the return from
-- `__kernai_trap` and `__resume_user`.
use kernai.Base.{ℕ, zero, suc, ◌+◌, ◌-◌, ◌*◌, List, [], ◌∷◌, ◌==◌, if◌then◌else◌}
use kernai.Hal.{Mem, usize_mod, overlay, le_bytes, word_at}
use kernai.Traps.Frame.{TrapFrame, is_from_user}
use kernai.Hart.{
  Hart, Instr, csrrw, csrr, csrci, addi, andi, sd, ld, la, bnez, jump, sfence_vma, csrw, mv, Csr,
  sp, add64, exec, sret, get_x,
}
use kernai.Hart.Interrupts.{write_sscratch, write_stvec}

abbrev pub frame_bytes : ℕ
frame_bytes = 272

-- Up to label 1.
abbrev pub swap_stack : List Instr
swap_stack = csrrw sp Csr.scratch sp ∷ bnez sp 1 ∷ csrrw sp Csr.scratch sp ∷ []

abbrev pub save_registers : List Instr
save_registers =
    addi sp sp (usize_mod - frame_bytes)
    ∷ sd 1 0 sp
    ∷ sd 3 16 sp
    ∷ sd 4 24 sp
    ∷ sd 5 32 sp
    ∷ sd 6 40 sp
    ∷ sd 7 48 sp
    ∷ sd 8 56 sp
    ∷ sd 9 64 sp
    ∷ sd 10 72 sp
    ∷ sd 11 80 sp
    ∷ sd 12 88 sp
    ∷ sd 13 96 sp
    ∷ sd 14 104 sp
    ∷ sd 15 112 sp
    ∷ sd 16 120 sp
    ∷ sd 17 128 sp
    ∷ sd 18 136 sp
    ∷ sd 19 144 sp
    ∷ sd 20 152 sp
    ∷ sd 21 160 sp
    ∷ sd 22 168 sp
    ∷ sd 23 176 sp
    ∷ sd 24 184 sp
    ∷ sd 25 192 sp
    ∷ sd 26 200 sp
    ∷ sd 27 208 sp
    ∷ sd 28 216 sp
    ∷ sd 29 224 sp
    ∷ sd 30 232 sp
    ∷ sd 31 240 sp
    ∷ []

-- From `csrr t0, sstatus` up to label 3; t0, t1, t2 are x5, x6, x7.
abbrev pub classify : List Instr
classify =
    csrr 5 Csr.status
    ∷ sd 5 256 sp
    ∷ csrr 7 Csr.epc
    ∷ sd 7 248 sp
    ∷ andi 6 5 0x100
    ∷ bnez 6 2
    ∷ csrr 6 Csr.scratch
    ∷ jump 1
    ∷ addi 6 sp frame_bytes
    ∷ []

-- From label 3 up to the call.
abbrev pub pass_frame : List Instr
pass_frame = sd 6 8 sp ∷ csrw Csr.scratch 0 ∷ mv 10 sp ∷ []

unfoldable pub vector_entry : Hart → Hart
unfolding exec
vector_entry h = exec 0 pass_frame (exec 0 classify (exec 0 save_registers (exec 0 swap_stack h)))

abbrev pub load_registers : List Instr
load_registers =
    ld 5 248 sp
    ∷ csrw Csr.epc 5
    ∷ ld 5 256 sp
    ∷ csrw Csr.status 5
    ∷ ld 1 0 sp
    ∷ ld 3 16 sp
    ∷ ld 4 24 sp
    ∷ ld 5 32 sp
    ∷ ld 6 40 sp
    ∷ ld 7 48 sp
    ∷ ld 8 56 sp
    ∷ ld 9 64 sp
    ∷ ld 10 72 sp
    ∷ ld 11 80 sp
    ∷ ld 12 88 sp
    ∷ ld 13 96 sp
    ∷ ld 14 104 sp
    ∷ ld 15 112 sp
    ∷ ld 16 120 sp
    ∷ ld 17 128 sp
    ∷ ld 18 136 sp
    ∷ ld 19 144 sp
    ∷ ld 20 152 sp
    ∷ ld 21 160 sp
    ∷ ld 22 168 sp
    ∷ ld 23 176 sp
    ∷ ld 24 184 sp
    ∷ ld 25 192 sp
    ∷ ld 26 200 sp
    ∷ ld 27 208 sp
    ∷ ld 28 216 sp
    ∷ ld 29 224 sp
    ∷ ld 30 232 sp
    ∷ ld 31 240 sp
    ∷ ld sp 8 sp
    ∷ []

-- What follows the call, up to and with the `sret`.
unfoldable pub vector_exit : Hart → Hart
unfolding exec sret
vector_exit h = sret (exec 0 load_registers h)

-- The frame that the RAM holds at an address, and a frame laid over the RAM: x_n at (n - 1) * 8,
-- sepc at 248, sstatus at 256.
unfoldable pub regs_at : Mem → ℕ → ℕ → ℕ → List ℕ
regs_at m fp i zero = []
regs_at m fp i (suc n) = word_at m (add64 fp (i * 8)) ∷ regs_at m fp (i + 1) n

unfoldable pub frame_at : Mem → ℕ → TrapFrame
unfolding regs_at
frame_at m fp = record {
  regs = regs_at m fp 0 31;
  sepc = word_at m (add64 fp 248);
  sstatus = word_at m (add64 fp 256);
}

abbrev pub put_word : ℕ → ℕ → Mem → Mem
put_word a v m = overlay a (le_bytes v) m

unfoldable pub put_regs : ℕ → ℕ → List ℕ → Mem → Mem
put_regs fp i [] m = m
put_regs fp i (r ∷ rs) m = put_regs fp (i + 1) rs (put_word (add64 fp (i * 8)) r m)

unfoldable pub put_frame : ℕ → TrapFrame → Mem → Mem
unfolding put_regs
put_frame fp f m =
    put_word (add64 fp 256) f.sstatus (put_word (add64 fp 248) f.sepc (put_regs fp 0 f.regs m))

-- What compiled code may do in a call: it rewrites the frame that it was lent, leaves sp as it was,
-- and whatever it likes in the other registers and in the rest of the RAM.
pub record Callee : Type 0 where
  pub handle : TrapFrame → TrapFrame
  pub clobbered : ℕ → ℕ
  pub touched : Mem → Mem

-- `__kernai_trap`: the handler, then sscratch for the privilege that the frame resumes into.
unfoldable pub kernai_trap : Callee → ℕ → Hart → Hart
unfolding frame_at put_frame is_from_user
kernai_trap c trap_stack_top h =
    let f = c.handle (frame_at h.mem (get_x 10 h)) in
    record h {
      regs = λ n. if n == sp then h.regs sp else c.clobbered n;
      mem = put_frame (get_x 10 h) f (c.touched h.mem);
      sscratch = if is_from_user f then trap_stack_top else 0;
    }

-- The trap vector from its first instruction to the `sret`.
unfoldable pub trap : Callee → ℕ → Hart → Hart
unfolding vector_entry kernai_trap vector_exit
trap c trap_stack_top h = vector_exit (kernai_trap c trap_stack_top (vector_entry h))

-- `__resume_user` up to the loads that it shares with the vector; satp is in a0, the frame in a1,
-- t0 is x5. The CSR bit is SIE.
abbrev pub enter_user : ℕ → List Instr
enter_user trap_stack_top =
    csrci Csr.status 2
    ∷ csrw Csr.atp 10
    ∷ sfence_vma
    ∷ la 5 trap_stack_top
    ∷ csrw Csr.scratch 5
    ∷ mv sp 11
    ∷ []

-- `resume_user`, with its arguments in a0 and a1.
unfoldable pub resume_user : ℕ → ℕ → ℕ → Hart → Hart
unfolding exec vector_exit
resume_user trap_stack_top satp frame_pa h =
    let called = record h {
      regs = λ n. if n == 10 then satp else if n == 11 then frame_pa else h.regs n;
    } in
    vector_exit (exec 0 (enter_user trap_stack_top) called)

-- `init`
unfoldable pub init : ℕ → Hart → Hart
init trap_vector h = write_stvec trap_vector (write_sscratch 0 h)
