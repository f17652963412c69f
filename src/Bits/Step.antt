-- ===== src/Bits/Step.antt =====
-- One equation of `bit_or` and of `bit_and` for the lowest digit, and both at zero.
use Prim.Native.Nat.{min, max, digits, bitwise, bit_and-bitwise, bit_or-bitwise}
use native.Mathlib.Nat.{le_refl}
use kernai.Base.{
  ℕ, zero, suc, ◌+◌, ◌-◌, ◌*◌, ◌/◌, ◌%◌, ◌≤◌, bit_and, bit_or, ◌≡◌, refl, ap, ◌∙◌, sym, arith,
}

module _ (rest : ℕ → ℕ) (join : ℕ → ℕ → ℕ) where
  -- As much fuel as the number is large, and one to spare, is as good as any.
  spare : (a b n : ℕ) → a ≤ n → digits rest join (suc n) a b ≡ digits rest join n a b
  spare zero b zero h = refl
  spare (suc a) b zero h = absurd (omega arith)
  spare zero b (suc n) h = refl
  spare (suc a) b (suc n) h =
      ap (λ high. high * 2 + join (suc a % 2) (b % 2)) (spare (suc a / 2) (b / 2) n (omega arith))

  settled : (a b d : ℕ) → digits rest join (d + a) a b ≡ digits rest join a a b
  settled a b zero = ap (λ k. digits rest join k a b) (let e : 0 + a ≡ a = omega arith in e)
  settled a b (suc d) =
      ap (λ k. digits rest join k a b) (let e : suc d + a ≡ suc (d + a) = omega arith in e)
      ∙ spare a b (d + a) (omega arith)
      ∙ settled a b d

  low_digit :
      (b a : ℕ)
      → bitwise rest join (suc a) b
        ≡ bitwise rest join (suc a / 2) (b / 2) * 2 + join (suc a % 2) (b % 2)
  low_digit b a =
      let enough : (a - suc a / 2) + suc a / 2 ≡ a = omega arith in
      ap (λ high. high * 2 + join (suc a % 2) (b % 2))
        (sym (ap (λ k. digits rest join k (suc a / 2) (b / 2)) enough)
          ∙ settled (suc a / 2) (b / 2) (a - suc a / 2))

-- The digits but the lowest, and the lowest.
abbrev pub StepOf : (ℕ → ℕ → ℕ) → (ℕ → ℕ → ℕ) → ℕ → ℕ → Type 0
StepOf word_op digit_op a b = word_op a b ≡ word_op (a / 2) (b / 2) * 2 + digit_op (a % 2) (b % 2)

pub bit_and_step : (a b : ℕ) → StepOf bit_and min a b
bit_and_step zero b = simp bit_and-bitwise (omega arith)
bit_and_step (suc a) b = simp bit_and-bitwise (low_digit (λ k. 0) min b a)

pub bit_or_step : (a b : ℕ) → StepOf bit_or max a b
bit_or_step zero b = simp bit_or-bitwise (omega arith)
bit_or_step (suc a) b = simp bit_or-bitwise (low_digit (λ k. k) max b a)

pub zero-bit_and : (b : ℕ) → bit_and 0 b ≡ 0
zero-bit_and b = bit_and-bitwise 0 b

zero_below : (n a : ℕ) → a ≤ n → bit_and a 0 ≡ 0
zero_below n zero h = refl
zero_below zero (suc a) h = absurd (omega arith)
zero_below (suc n) (suc a) h =
    omega (arith, bit_and_step (suc a) 0, zero_below n (suc a / 2) (omega arith))

pub bit_and-zero : (a : ℕ) → bit_and a 0 ≡ 0
bit_and-zero a = zero_below a a (le_refl a)
