-- ===== src/Tests/Harts.antt =====
-- The hart at concrete inputs (kernel/src/hal/trap.rs, kernel/src/hal/csr.rs, kernel/src/hal/boot.rs).
use kernai.Base.{ℕ, ◌^◌, ◌≤◌, ◌<◌, ◌≡◌, ◌⊎◌, refl, true, false, some, arith}
use kernai.Hal.{pool_base}
use kernai.Traps.Frame.{is_from_user, set_a0, save_frame_to}
use kernai.Hart.{Hart, sp}
use kernai.Hart.Vector.{Callee, trap, resume_user}
use kernai.Hart.Saves.{interrupted, IsHart}
use kernai.Hart.Resumes.{Armed, IsFrame, Resumed, trap-Resumed}
use kernai.Hart.Continues.{resume_user-save_frame_to}
use kernai.Hart.Interrupts.{masked, enabled, without_interrupts, without_interrupts-enabled}
use kernai.Hart.Start.{Symbols, hart_start, hart_start-Cleared}
use kernai.Tests.Memory.{empty_pool}

abbrev trap_top : ℕ
trap_top = 0x8030_0000

-- A payload is running, with interrupts on once it is left, and has trapped.
abbrev hart : Hart
hart = record {
  regs = λ n. n;
  mem = λ a. 0xFF;
  pc = 0x8020_0100;
  user = false;
  sstatus = 2 ^ 5;
  sepc = 0x40_0000;
  sscratch = trap_top;
  satp = 0;
  stvec = 0x8020_0100;
  sie = 2 ^ 5;
  scause = 8;
  stval = 0;
}

abbrev payload : Hart
payload = record hart { regs = λ n. 7 }

payload-IsHart : IsHart payload
payload-IsHart = record {
  regs = λ n. omega arith;
  sepc = omega arith;
  sstatus = omega arith;
  sscratch = omega arith;
}

payload-user : is_from_user (interrupted payload) ≡ true
unfolding is_from_user
payload-user = refl

payload-Armed : Armed trap_top payload
unfolding is_from_user
payload-Armed = record { room = omega arith; from_user = λ u. refl; from_kernel = λ u. cc }

-- A handler that answers 9 and goes on behind the ecall.
abbrev answering : Callee
answering = record {
  handle = λ f. record f { regs = (set_a0 9 f).regs; sepc = 0x40_0004 };
  clobbered = λ n. 0xDEAD;
  touched = λ m a. 0;
}

answered-IsFrame : IsFrame (answering.handle (interrupted payload))
unfolding set_a0
answered-IsFrame = record {
  length = refl;
  regs = omega arith;
  sepc = omega arith;
  sstatus = omega arith;
}

trap-Resumed_example :
    Resumed (answering.handle (interrupted payload)) trap_top (trap answering trap_top payload)
trap-Resumed_example =
    trap-Resumed answering trap_top payload payload-IsHart payload-Armed answered-IsFrame

payload-IsFrame : IsFrame (interrupted payload)
payload-IsFrame = record {
  length = refl;
  regs = omega arith;
  sepc = omega arith;
  sstatus = omega arith;
}

resume_user-save_frame_to_example : Resumed (set_a0 0 (interrupted payload)) trap_top (
    resume_user trap_top 5 pool_base
      (record hart { mem = (save_frame_to (interrupted payload) pool_base 0 empty_pool).mem }))
resume_user-save_frame_to_example =
    resume_user-save_frame_to (interrupted payload) pool_base 0 5 trap_top empty_pool hart
      (omega arith) payload-IsFrame (omega arith) payload-user

abbrev quiet : Hart → ℕ × Hart
quiet h = (1, h)

without_interrupts-enabled_example :
    (enabled (masked hart) ≡ 0)
    × (enabled (without_interrupts quiet hart).1 ≡ enabled hart)
    × ((without_interrupts quiet hart).0 ≡ 1)
without_interrupts-enabled_example = without_interrupts-enabled quiet hart refl

abbrev symbols : Symbols
symbols = record { stack_top = 0x8028_0000; bss_start = 0x8022_0000; bss_end = 0x8022_0010 }

hart_start-Cleared_example :
    (h' : Hart) × (hart_start symbols hart ≡ some h')
    × (h'.regs sp ≡ 0x8028_0000)
    × (h'.regs 10 ≡ 10)
    × (h'.regs 11 ≡ 11)
    × ((p : ℕ) → 0x8022_0000 ≤ p → p < 0x8022_0010 → h'.mem p ≡ 0)
    × ((p : ℕ) → (p < 0x8022_0000) ⊎ (0x8022_0010 ≤ p) → h'.mem p ≡ 0xFF)
hart_start-Cleared_example = hart_start-Cleared symbols 2 hart refl (omega arith)
