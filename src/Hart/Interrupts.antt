-- ===== src/Hart/Interrupts.antt =====
-- kernel/src/hal/csr.rs: the wrappers of the CSR instructions, and the critical section.
use kernai.Base.{
  ℕ, ◌-◌, ◌^◌, ◌≡◌, ◌∙◌, refl, sym, bit_and, bit_or, ◌==◌, if◌then◌else◌, arith, Bool-cases, inl,
  inr, not, true, false,
}
use kernai.Bits.{bit, bit-lt-two, bit_and-pow, bit-bit_or}
use kernai.Hart.{Hart}

abbrev pub sstatus_sie : ℕ
sstatus_sie = 2 ^ 1

abbrev pub sie_stie : ℕ
sie_stie = 2 ^ 5

abbrev pub read_scause : Hart → ℕ
read_scause h = h.scause

abbrev pub read_stval : Hart → ℕ
read_stval h = h.stval

abbrev pub write_stvec : ℕ → Hart → Hart
write_stvec addr h = record h { stvec = addr }

abbrev pub write_satp : ℕ → Hart → Hart
write_satp value h = record h { satp = value }

abbrev pub write_sscratch : ℕ → Hart → Hart
write_sscratch value h = record h { sscratch = value }

unfoldable pub enable_timer_interrupts : Hart → Hart
enable_timer_interrupts h = record h {
  sie = bit_or h.sie sie_stie;
  sstatus = bit_or h.sstatus sstatus_sie;
}

-- `csrrc {}, sstatus, SIE`: the old value, and the hart with interrupts off.
unfoldable pub masked : Hart → Hart
masked h = record h { sstatus = h.sstatus - bit_and h.sstatus sstatus_sie }

unfoldable pub without_interrupts {ℓ} : {A : Type ℓ} → (Hart → A × Hart) → Hart → A × Hart
unfolding masked
without_interrupts f h =
    let (out, h') = f (masked h) in
    if not (bit_and h.sstatus sstatus_sie == 0)
    then (out, record h' { sstatus = bit_or h'.sstatus sstatus_sie })
    else (out, h')

-- The interrupt enable of the hart: 1 or 0.
abbrev pub enabled : Hart → ℕ
enabled h = bit h.sstatus 1

masked-disabled : (h : Hart) → enabled (masked h) ≡ 0
unfolding masked bit
masked-disabled h = omega (arith, bit_and-pow 1 h.sstatus)

enabled_or : (s : ℕ) → bit (bit_or s sstatus_sie) 1 ≡ 1
enabled_or s = omega (arith, bit-bit_or 1 s sstatus_sie, sie_set, bit-lt-two s 1)
  where
    sie_set : bit sstatus_sie 1 ≡ 1
    sie_set = unfold bit in refl

was_off : (s : ℕ) → (bit_and s sstatus_sie == 0) ≡ true → bit s 1 ≡ 0
was_off s e = ground (arith, bit_and-pow 1 s)

was_on : (s : ℕ) → (bit_and s sstatus_sie == 0) ≡ false → bit s 1 ≡ 1
was_on s e = ground (arith, bit_and-pow 1 s, bit-lt-two s 1)

-- A critical section runs with interrupts off. If what runs in it gives interrupts back as it found
-- them, so does the section, and sections nest.
pub without_interrupts-enabled {ℓ} :
    {A : Type ℓ} (f : Hart → A × Hart) (h : Hart)
    → enabled (f (masked h)).1 ≡ enabled (masked h)
    → (enabled (masked h) ≡ 0)
      × (enabled (without_interrupts f h).1 ≡ enabled h)
      × ((without_interrupts f h).0 ≡ (f (masked h)).0)
unfolding without_interrupts
without_interrupts-enabled f h keep = elim (Bool-cases (bit_and h.sstatus sstatus_sie == 0)) [
  | inl e ↦
      rw (e, without_interrupts)
        (masked-disabled h, keep ∙ masked-disabled h ∙ sym (was_off h.sstatus e), refl)
  | inr e ↦
      rw (e, without_interrupts) (masked-disabled h, enabled_or _ ∙ sym (was_on h.sstatus e), refl)
]
