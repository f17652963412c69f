-- ===== src/Hart.antt =====
-- The hart that kernel/src/hal runs on: the registers and CSRs that the assembly of hal/trap.rs and
-- hal/boot.rs and the wrappers of hal/csr.rs name, and what each instruction that they use does
-- to them. A forward jump is a number of instructions still to pass over, and a label is the end of
-- a block.
pub mod Vector
pub mod Stores
pub mod Saves
pub mod Resumes
pub mod Continues
pub mod Interrupts
pub mod Start
use kernai.Base.{
  ℕ, zero, suc, ◌+◌, ◌-◌, ◌/◌, ◌%◌, ◌^◌, Bool, List, [], ◌∷◌, bit_and, bit_or, ◌==◌, if◌then◌else◌,
}
use kernai.Hal.{Mem, usize_mod, overlay, le_bytes, word_at}

pub data Csr : Type 0 where
  status epc scratch atp tvec : Csr

-- `regs n` is x_n; `user` tells U-mode from S-mode.
pub record Hart : Type 0 where
  pub regs : ℕ → ℕ
  pub mem : Mem
  pub pc : ℕ
  pub user : Bool
  pub sstatus : ℕ
  pub sepc : ℕ
  pub sscratch : ℕ
  pub satp : ℕ
  pub stvec : ℕ
  pub sie : ℕ
  pub scause : ℕ
  pub stval : ℕ

-- x0 reads as zero and ignores writes.
abbrev pub get_x : ℕ → Hart → ℕ
get_x n h = if n == 0 then 0 else h.regs n

abbrev pub set_x : ℕ → ℕ → Hart → Hart
set_x rd v h = if rd == 0 then h else record h { regs = λ n. if n == rd then v else h.regs n }

abbrev pub csr : Csr → Hart → ℕ
csr Csr.status h = h.sstatus
csr Csr.epc h = h.sepc
csr Csr.scratch h = h.sscratch
csr Csr.atp h = h.satp
csr Csr.tvec h = h.stvec

abbrev pub set_csr : Csr → ℕ → Hart → Hart
set_csr Csr.status v h = record h { sstatus = v }
set_csr Csr.epc v h = record h { sepc = v }
set_csr Csr.scratch v h = record h { sscratch = v }
set_csr Csr.atp v h = record h { satp = v }
set_csr Csr.tvec v h = record h { stvec = v }

abbrev pub sp : ℕ
sp = 2

-- An address or a sum of 64 bits.
abbrev pub add64 : ℕ → ℕ → ℕ
add64 a b = (a + b) % usize_mod

-- The instructions, with the destination first and a CSR between the registers, as they are written.
-- A displacement is given as its u64, a jump as the number of instructions that it passes over.
pub data Instr : Type 0 where
  csrrw : ℕ → Csr → ℕ → Instr
  csrr : ℕ → Csr → Instr
  csrci : Csr → ℕ → Instr
  addi andi : ℕ → ℕ → ℕ → Instr
  -- register, displacement, base
  sd ld : ℕ → ℕ → ℕ → Instr
  la : ℕ → ℕ → Instr
  bnez : ℕ → ℕ → Instr
  jump : ℕ → Instr
  sfence_vma : Instr

abbrev pub csrw : Csr → ℕ → Instr
csrw c rs = csrrw 0 c rs

abbrev pub mv : ℕ → ℕ → Instr
mv rd rs = addi rd rs 0

-- How many instructions are passed over next, and the hart after the instruction.
unfoldable pub step : Instr → Hart → ℕ × Hart
step (csrrw rd c rs) h = (0, set_x rd (csr c h) (set_csr c (get_x rs h) h))
step (csrr rd c) h = (0, set_x rd (csr c h) h)
step (csrci c mask) h = (0, set_csr c (csr c h - bit_and (csr c h) mask) h)
step (addi rd rs v) h = (0, set_x rd (add64 (get_x rs h) v) h)
step (andi rd rs v) h = (0, set_x rd (bit_and (get_x rs h) v) h)
step (sd rs off base) h =
    (0, record h { mem = overlay (add64 (get_x base h) off) (le_bytes (get_x rs h)) h.mem })
step (ld rd off base) h = (0, set_x rd (word_at h.mem (add64 (get_x base h) off)) h)
step (la rd address) h = (0, set_x rd address h)
step (bnez rs n) h = (if get_x rs h == 0 then 0 else n, h)
step (jump n) h = (n, h)
step sfence_vma h = (0, h)

unfoldable pub exec : ℕ → List Instr → Hart → Hart
unfolding step
exec skip [] h = h
exec (suc skip) (i ∷ code) h = exec skip code h
exec zero (i ∷ code) h = let (skip, h') = step i h in exec skip code h'

-- `sret`: the pc and the privilege come from sepc and SPP, SIE from SPIE; SPIE is set and SPP cleared.
unfoldable pub sret : Hart → Hart
sret h = record h {
  pc = h.sepc;
  user = bit_and h.sstatus (2 ^ 8) == 0;
  sstatus =
      bit_or
        (h.sstatus - bit_and h.sstatus (2 ^ 8 + 2 ^ 5 + 2 ^ 1) + bit_and h.sstatus (2 ^ 5) / 2 ^ 4)
        (2 ^ 5);
}
