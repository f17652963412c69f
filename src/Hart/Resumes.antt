-- ===== src/Hart/Resumes.antt =====
-- What the trap vector of kernel/src/hal/trap.rs resumes.
use kernai.Base.{
  ℕ, ◌^◌, ◌≤◌, ◌<◌, ◌≡◌, ◌∙◌, ap, length, if◌then◌else◌, arith, Bool-cases, inl, inr, true, false,
}
use kernai.Traps.Frame.{TrapFrame, is_from_user}
use kernai.Hart.{Hart, sp, exec}
use kernai.Hart.Vector.{regs_at, frame_at, vector_entry, vector_exit, kernai_trap, trap, Callee}
use kernai.Hart.Stores.{Fits, AreWords, frame_at-put_frame}
use kernai.Hart.Saves.{
  registers, interrupted, IsHart, frame_of_sp, Saved, vector_entry_user, vector_entry_kernel,
}

-- The hart goes on in the context of a frame, with sscratch as its privilege wants it.
pub record Resumed (f : TrapFrame) (trap_stack_top : ℕ) (h : Hart) : Type 0 where
  pub regs : registers h ≡ f.regs
  pub pc : h.pc ≡ f.sepc
  pub user : h.user ≡ is_from_user f
  pub sscratch : h.sscratch ≡ (if is_from_user f then trap_stack_top else 0)

-- The exit resumes the frame that sp points at.
pub vector_exit-Resumed :
    (f : TrapFrame) (top : ℕ) (h : Hart)
    → frame_at h.mem (h.regs sp) ≡ f
    → h.sscratch ≡ (if is_from_user f then top else 0)
    → Resumed f top (vector_exit h)
unfolding vector_exit exec frame_at regs_at is_from_user
vector_exit-Resumed f top h e a = record {
  regs = ap (λ g. g.regs) e;
  pc = ap (λ g. g.sepc) e;
  user = ap is_from_user e;
  sscratch = a;
}

-- The state in which traps arrive: with the trap stack in sscratch from U-mode, with 0 from S-mode,
-- and room for a frame.
pub record Armed (trap_stack_top : ℕ) (h : Hart) : Type 0 where
  pub room : 272 ≤ trap_stack_top
  pub from_user : is_from_user (interrupted h) ≡ true → h.sscratch ≡ trap_stack_top
  pub from_kernel : is_from_user (interrupted h) ≡ false → (h.sscratch ≡ 0) × (272 ≤ h.regs sp)

-- 31 registers and two CSRs of 64 bits.
pub record IsFrame (f : TrapFrame) : Type 0 where
  pub length : length f.regs ≡ 31
  pub regs : AreWords f.regs
  pub sepc : f.sepc < 2 ^ 64
  pub sstatus : f.sstatus < 2 ^ 64

handled :
    (c : Callee) (top fp : ℕ) (h h1 : Hart)
    → Fits fp
    → Saved fp h h1
    → IsFrame (c.handle (interrupted h))
    → Resumed (c.handle (interrupted h)) top (vector_exit (kernai_trap c top h1))
unfolding kernai_trap
handled c top fp h h1 fits s b =
    vector_exit-Resumed (c.handle (interrupted h)) top (kernai_trap c top h1)
      (rw (s.a0, s.stack, s.frame)
        (frame_at-put_frame fp (c.handle (interrupted h)) (c.touched h1.mem) fits b.length b.regs
          b.sepc b.sstatus))
      (ap (λ g. if is_from_user (c.handle g) then top else 0) (ap (frame_at h1.mem) s.a0 ∙ s.frame))

-- The context that goes on after a trap, from U-mode or from S-mode, is the one that the handler
-- made of the interrupted context, all 31 registers, the pc and the privilege, and sscratch is set
-- for the next trap; compiled code may use every other register and the rest of the RAM.
pub trap-Resumed :
    (c : Callee) (top : ℕ) (h : Hart)
    → IsHart h
    → Armed top h
    → IsFrame (c.handle (interrupted h))
    → Resumed (c.handle (interrupted h)) top (trap c top h)
unfolding trap
trap-Resumed c top h b a f = elim (Bool-cases (is_from_user (interrupted h))) [
  | inl u ↦
      let e = a.from_user u in
      handled c top (frame_of_sp h.sscratch) h (vector_entry h)
        (omega (arith, b.sscratch, a.room, e)) (vector_entry_user h b u (omega (arith, a.room, e)))
        f
  | inr u ↦
      let (z, l) = a.from_kernel u in
      handled c top (frame_of_sp (h.regs sp)) h (vector_entry h) (omega (arith, b.regs sp))
        (vector_entry_kernel h b u z l) f
]
