-- ===== src/Hart/Start.antt =====
-- kernel/src/hal/boot.rs: `_start` clears the bss and calls `__kernai_start`.
use kernai.Base.{
  ℕ, zero, suc, ◌+◌, ◌-◌, ◌*◌, ◌/◌, ◌^◌, ◌≤◌, ◌<◌, ◌≡◌, ◌⊎◌, inl, inr, ◌∙◌, refl, Option, none,
  some, List, [], ◌∷◌, leb, if◌then◌else◌, arith, get_or, replicate, ap, ◌≢◌, false,
}
use kernai.Hal.{Mem, overlay, le_bytes}
use kernai.Hal.Memory.{overlay_ne}
use kernai.Hart.{Hart, Instr, la, sd, addi, sp, exec, get_x, add64}

-- The addresses that the linker script gives to the symbols.
pub record Symbols : Type 0 where
  pub stack_top : ℕ
  pub bss_start : ℕ
  pub bss_end : ℕ

abbrev pub set_up : Symbols → List Instr
set_up l = la sp l.stack_top ∷ la 5 l.bss_start ∷ la 6 l.bss_end ∷ []

abbrev pub clear_word : List Instr
clear_word = sd 0 0 5 ∷ addi 5 5 8 ∷ []

-- The loop at label 1, that `bgeu t0, t1` leaves.
unfoldable pub clear_loop : ℕ → Hart → Option Hart
unfolding exec
clear_loop zero h = none
clear_loop (suc fuel) h =
    let rest = clear_loop fuel (exec 0 clear_word h) in
    if leb (get_x 6 h) (get_x 5 h) then some h else rest

-- `_start` up to the call, with a round for each word of the bss and one to leave the loop.
unfoldable pub hart_start : Symbols → Hart → Option Hart
unfolding exec clear_loop
hart_start l h = clear_loop ((l.bss_end - l.bss_start) / 8 + 1) (exec 0 (set_up l) h)

get_or-zeros : (n i : ℕ) → ◌≡◌ {A = ℕ} (get_or (replicate n 0) i 0) 0
get_or-zeros zero i = refl
get_or-zeros (suc n) zero = refl
get_or-zeros (suc n) (suc i) = get_or-zeros n i

overlay-zero : (a p : ℕ) (m : Mem) → a ≤ p → p < a + 8 → overlay a (le_bytes 0) m p ≡ 0
unfolding overlay le_bytes
overlay-zero a p m lo hi = ground (arith, get_or-zeros 8 (p - a))

-- `n` words from address `a` on are zero in `h'`, and it differs from `h` in them and in t0 only.
pub record Cleared (a n : ℕ) (h h' : Hart) : Type 0 where
  pub zeroed : (p : ℕ) → a ≤ p → p < a + 8 * n → h'.mem p ≡ 0
  pub others : (p : ℕ) → (p < a) ⊎ (a + 8 * n ≤ p) → h'.mem p ≡ h.mem p
  pub regs : (r : ℕ) → r ≢ 5 → h'.regs r ≡ h.regs r

below : (a p : ℕ) → (p < a + 8) ⊎ (a + 8 ≤ p)
below a p = ground arith

-- One round, and the rounds after it.
Cleared-round :
    (n a : ℕ) (h h' : Hart)
    → h.regs 5 ≡ a
    → a + 8 * suc n < 2 ^ 64
    → Cleared (a + 8) n (exec 0 clear_word h) h'
    → Cleared a (suc n) h h'
unfolding exec le_bytes
Cleared-round n a h h' t0 l c =
    let e : add64 (h.regs 5) 0 ≡ a = omega arith in
    record {
      zeroed = λ p lo hi. elim (below a p) [
        | inl b ↦
            c.others p (inl b)
            ∙ ap (λ b. overlay b (le_bytes 0) h.mem p) e
            ∙ overlay-zero a p h.mem lo b
        | inr b ↦ c.zeroed p b (omega arith)
      ];
      others = λ p o.
          c.others p (ground arith)
          ∙ ap (λ b. overlay b (le_bytes 0) h.mem p) e
          ∙ overlay_ne a (le_bytes 0) h.mem p (ground arith);
      regs = λ r o. c.regs r o ∙ ground arith;
    }

clear_loop-Cleared :
    (n a : ℕ) (h : Hart)
    → h.regs 5 ≡ a
    → h.regs 6 ≡ a + 8 * n
    → a + 8 * n < 2 ^ 64
    → (h' : Hart) × (clear_loop (suc n) h ≡ some h') × Cleared a n h h'
unfolding clear_loop exec
clear_loop-Cleared zero a h t0 t1 l = (
  h,
  ground arith,
  record { zeroed = λ p lo hi. absurd (omega arith); others = λ p o. refl; regs = λ r o. refl },
)
clear_loop-Cleared (suc n) a h t0 t1 l =
    let ih =
      clear_loop-Cleared n (a + 8) (exec 0 clear_word h) (omega arith) (omega arith)
        (omega arith) in
    let s : leb (h.regs 6) (h.regs 5) ≡ false = ground arith in
    (ih.0, rw s ih.1, Cleared-round n a h ih.0 t0 l ih.2)

-- `_start` ends its loop, for a bss of whole words, and calls into Rust on the boot stack with every
-- byte of the bss zero, the rest of the RAM as it was, and in a0 and a1 what the firmware passed.
pub hart_start-Cleared :
    (l : Symbols) (n : ℕ) (h : Hart)
    → l.bss_end ≡ l.bss_start + 8 * n
    → l.bss_end < 2 ^ 64
    → (h' : Hart) × (hart_start l h ≡ some h')
      × (h'.regs sp ≡ l.stack_top)
      × (h'.regs 10 ≡ h.regs 10)
      × (h'.regs 11 ≡ h.regs 11)
      × ((p : ℕ) → l.bss_start ≤ p → p < l.bss_end → h'.mem p ≡ 0)
      × ((p : ℕ) → (p < l.bss_start) ⊎ (l.bss_end ≤ p) → h'.mem p ≡ h.mem p)
unfolding hart_start exec
hart_start-Cleared l n h e b =
    let (h', q, c) =
      clear_loop-Cleared n l.bss_start (exec 0 (set_up l) h) refl e (omega (arith, e, b)) in
    (
      h',
      ap (λ k. clear_loop k (exec 0 (set_up l) h)) (rounds l n e) ∙ q,
      c.regs 2 (omega arith),
      c.regs 10 (omega arith),
      c.regs 11 (omega arith),
      (λ p lo hi. c.zeroed p lo (omega (arith, e, hi))),
      (λ p o. c.others p (ground (arith, e))),
    )
  where
    rounds :
        (l : Symbols) (n : ℕ)
        → l.bss_end ≡ l.bss_start + 8 * n
        → (l.bss_end - l.bss_start) / 8 + 1 ≡ suc n
    rounds l n e = omega (arith, e)
