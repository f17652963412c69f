-- ===== src/Hart/Continues.antt =====
-- kernel/src/hal/trap.rs and kernel/src/traps.rs: `resume_user` goes on from the frame that
-- `save_frame_to` wrote.
use kernai.Base.{
  ℕ, zero, suc, ◌+◌, ◌*◌, ◌^◌, ◌≤◌, ◌<◌, ◌≡◌, inr, ◌∙◌, refl, sym, ap, subst, true, List, [], ◌∷◌,
  length, set, arith, ◌==◌, if◌then◌else◌,
}
use kernai.Hal.{Mem, word_at, usize_mod}
use kernai.Hal.Memory.{phys_write_u64_lem, word_at-overlay, word_at-overlay_ne}
use kernai.Frames.{Pool}
use kernai.Mm.Access.{IsRoot}
use kernai.Traps.Frame.{TrapFrame, write_u64, save_regs, save_frame_to, set_a0, is_from_user}
use kernai.Hart.{Hart, add64, exec}
use kernai.Hart.Vector.{put_word, put_regs, regs_at, frame_at, resume_user, enter_user}
use kernai.Hart.Stores.{Fits, IsField, regs_at-put_word, regs_at-put_regs, frame_at-put_csrs}
use kernai.Hart.Resumes.{IsFrame, Resumed, vector_exit-Resumed}

-- A page of the pool, aligned.
write_u64-mem :
    (pa off v : ℕ) (s : Pool)
    → IsRoot pa
    → IsField off
    → (write_u64 (pa + off) v s).mem ≡ put_word (add64 pa off) v s.mem
write_u64-mem pa off v s r f =
    let e : add64 pa off ≡ pa + off = omega arith in
    rw (phys_write_u64_lem (pa + off) v s.mem (omega arith), e) refl

save_regs-mem :
    (rs : List ℕ) (i pa : ℕ) (s : Pool)
    → IsRoot pa
    → i + length rs ≤ 31
    → (save_regs rs i pa s).mem ≡ put_regs pa i rs s.mem
unfolding save_regs put_regs
save_regs-mem [] i pa s h l = refl
save_regs-mem (r ∷ rs) i pa s h l =
    save_regs-mem rs (i + 1) pa (write_u64 (pa + i * 8) r s) h (omega arith)
    ∙ ap (put_regs pa (i + 1) rs) (write_u64-mem pa (i * 8) r s h (omega arith))

add64_zero : (a : ℕ) → a < 2 ^ 64 → add64 a 0 ≡ a
add64_zero a h = omega arith

-- A word stored over a register.
regs_at-put_word_self :
    (fp v o i k n : ℕ) (m : Mem)
    → Fits fp
    → v < 2 ^ 64
    → o ≡ (i + k) * 8
    → i + n ≤ 31
    → i + k < 31
    → regs_at (put_word (add64 fp o) v m) fp i n ≡ set (regs_at m fp i n) k v
unfolding regs_at
regs_at-put_word_self fp v o i k zero m fits b e l h = refl
regs_at-put_word_self fp v o i zero (suc n) m fits b e l h =
    let e' : o ≡ i * 8 = omega arith in
    let stored : word_at (put_word (add64 fp o) v m) (add64 fp (i * 8)) ≡ v =
      subst (λ p. word_at (put_word (add64 fp o) v m) (add64 fp p) ≡ v) e'
        (word_at-overlay (add64 fp o) v m b) in
    rw (
      stored,
      regs_at-put_word fp o v (i + 1) n m fits (omega arith) (omega arith) (inr (omega arith)),
    )
regs_at-put_word_self fp v o i (suc k) (suc n) m fits b e l h = rw (
  word_at-overlay_ne (add64 fp o) (add64 fp (i * 8)) v m (ground arith),
  regs_at-put_word_self fp v o (i + 1) k n m fits b (omega arith) (omega arith) (omega arith),
)

-- What `save_frame_to` leaves in a page of the pool is the frame with its a0 replaced.
frame_at-save_frame_to :
    (f : TrapFrame) (pa v : ℕ) (s : Pool)
    → IsRoot pa
    → IsFrame f
    → v < 2 ^ 64
    → frame_at (save_frame_to f pa v s).mem pa ≡ set_a0 v f
unfolding save_frame_to set_a0
frame_at-save_frame_to f pa v s r b h =
    let s1 = save_regs f.regs 0 pa s in
    let s2 = write_u64 (pa + 72) v s1 in
    let s3 = write_u64 (pa + 248) f.sepc s2 in
    let regs0 =
      subst (λ n. regs_at (put_regs pa 0 f.regs s.mem) pa 0 n ≡ f.regs) b.length
        (regs_at-put_regs pa 0 f.regs s.mem (omega arith) b.regs (omega (arith, b.length))) in
    let regs1 : regs_at s1.mem pa 0 31 ≡ f.regs =
      ap (λ m. regs_at m pa 0 31) (save_regs-mem f.regs 0 pa s r (omega (arith, b.length)))
      ∙ regs0 in
    let regs2 : regs_at s2.mem pa 0 31 ≡ set f.regs 9 v =
      ap (λ m. regs_at m pa 0 31) (write_u64-mem pa 72 v s1 r (omega arith))
      ∙ regs_at-put_word_self pa v 72 0 9 31 s1.mem (omega arith) h (omega arith) (omega arith)
          (omega arith)
      ∙ ap (λ l. set l 9 v) regs1 in
    ap (λ m. frame_at m pa)
      (write_u64-mem pa 256 f.sstatus s3 r (omega arith)
        ∙ ap (put_word (add64 pa 256) f.sstatus) (write_u64-mem pa 248 f.sepc s2 r (omega arith)))
    ∙ frame_at-put_csrs pa f.sepc f.sstatus s2.mem (omega arith) b.sepc b.sstatus
    ∙ ap (λ l. record f { regs = l }) regs2

-- The hart in which `resume_user` begins to load the frame.
abbrev entering : ℕ → ℕ → ℕ → Hart → Hart
entering top satp pa h =
    exec 0 (enter_user top)
      (record h { regs = λ n. if n == 10 then satp else if n == 11 then pa else h.regs n })

resume_user-Resumed :
    (f : TrapFrame) (top satp pa : ℕ) (h : Hart)
    → frame_at h.mem pa ≡ f
    → is_from_user f ≡ true
    → pa < usize_mod
    → Resumed f top (resume_user top satp pa h)
unfolding resume_user exec
resume_user-Resumed f top satp pa h e u l =
    vector_exit-Resumed f top (entering top satp pa h)
      (subst (λ a. frame_at h.mem a ≡ f) (sym (add64_zero pa l)) e)
      (ap (λ t. if t then top else 0) (sym u))

-- A continuation resumes where the checkpoint was taken: all registers, the pc and the privilege of
-- the saved frame, with the value that the checkpoint returns in a0, and the trap stack in sscratch.
pub resume_user-save_frame_to :
    (f : TrapFrame) (pa v satp top : ℕ) (s : Pool) (h : Hart)
    → IsRoot pa
    → IsFrame f
    → v < 2 ^ 64
    → is_from_user f ≡ true
    → Resumed
        (set_a0 v f)
        top
        (resume_user top satp pa (record h { mem = (save_frame_to f pa v s).mem }))
unfolding set_a0 is_from_user
resume_user-save_frame_to f pa v satp top s h r b l u =
    resume_user-Resumed (set_a0 v f) top satp pa (record h { mem = (save_frame_to f pa v s).mem })
      (frame_at-save_frame_to f pa v s r b l) u (omega arith)
