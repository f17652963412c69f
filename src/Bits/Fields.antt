-- ===== src/Bits/Fields.antt =====
-- Bit operations on a low field of a word: what stands above the field stays out of them.
use kernai.Base.{ℕ, zero, suc, ◌+◌, ◌*◌, ◌/◌, ◌^◌, ◌≤◌, ◌<◌, bit_and, bit_or, ◌≡◌, refl, ap, arith}
use kernai.Bits.Step.{bit_and-zero, bit_or_step, bit_and_step}
use native.Mathlib.Nat.{pow-suc}

pow_step : (k : ℕ) → 2 ^ suc k ≡ 2 * 2 ^ k
pow_step k = omega (arith, pow-suc 2 k)

mul-pow_step : (q k : ℕ) → q * 2 ^ suc k ≡ 2 * (q * 2 ^ k)
mul-pow_step q k = omega (arith, ap (λ t. q * t) (pow_step k))

bit_or-zero_below : (n a : ℕ) → a ≤ n → bit_or a 0 ≡ a
bit_or-zero_below n zero h = refl
bit_or-zero_below zero (suc a) h = absurd (omega arith)
bit_or-zero_below (suc n) (suc a) h =
    omega (arith, bit_or_step (suc a) 0, bit_or-zero_below n (suc a / 2) (omega arith))

zero-bit_or_below : (n a : ℕ) → a ≤ n → bit_or 0 a ≡ a
zero-bit_or_below n zero h = refl
zero-bit_or_below zero (suc a) h = absurd (omega arith)
zero-bit_or_below (suc n) (suc a) h =
    omega (arith, bit_or_step 0 (suc a), zero-bit_or_below n (suc a / 2) (omega arith))

pub zero-bit_or : (a : ℕ) → bit_or 0 a ≡ a
zero-bit_or a = zero-bit_or_below a a (omega arith)

pub bit_or-field :
    (n q lo b : ℕ) → lo < 2 ^ n → b < 2 ^ n → bit_or (q * 2 ^ n + lo) b ≡ q * 2 ^ n + bit_or lo b
bit_or-field zero q zero zero h k = bit_or-zero_below (q * 1 + 0) (q * 1 + 0) (omega arith)
bit_or-field zero q zero (suc b) h k = absurd (omega arith)
bit_or-field zero q (suc lo) b h k = absurd (omega arith)
bit_or-field (suc n) q lo b h k = omega (
  arith,
  mul-pow_step q n,
  bit_or_step (q * 2 ^ suc n + lo) b,
  bit_or_step lo b,
  ap (λ t. bit_or t (b / 2))
      (let e : (q * 2 ^ suc n + lo) / 2 ≡ q * 2 ^ n + lo / 2 = omega (arith, mul-pow_step q n) in
        e),
  bit_or-field n q (lo / 2) (b / 2) (omega (arith, pow_step n)) (omega (arith, pow_step n)),
)

pub bit_and-field :
    (n q lo m : ℕ) → lo < 2 ^ n → m < 2 ^ n → bit_and (q * 2 ^ n + lo) m ≡ bit_and lo m
bit_and-field zero q zero zero h k = bit_and-zero (q * 1 + 0)
bit_and-field zero q zero (suc b) h k = absurd (omega arith)
bit_and-field zero q (suc lo) b h k = absurd (omega arith)
bit_and-field (suc n) q lo b h k = omega (
  arith,
  mul-pow_step q n,
  bit_and_step (q * 2 ^ suc n + lo) b,
  bit_and_step lo b,
  ap (λ t. bit_and t (b / 2))
      (let e : (q * 2 ^ suc n + lo) / 2 ≡ q * 2 ^ n + lo / 2 = omega (arith, mul-pow_step q n) in
        e),
  bit_and-field n q (lo / 2) (b / 2) (omega (arith, pow_step n)) (omega (arith, pow_step n)),
)

-- A union with no bit of a mask has two parts with none.
pub bit_and-bit_or-zero :
    (n a b m : ℕ) → m < 2 ^ n → bit_and (bit_or a b) m ≡ 0 → (bit_and a m ≡ 0) × (bit_and b m ≡ 0)
bit_and-bit_or-zero zero a b zero l h = (bit_and-zero a, bit_and-zero b)
bit_and-bit_or-zero zero a b (suc m) l h = absurd (omega arith)
bit_and-bit_or-zero (suc n) a b m l h =
    let half : bit_or a b / 2 ≡ bit_or (a / 2) (b / 2) = omega (arith, bit_or_step a b) in
    let rest : bit_and (bit_or (a / 2) (b / 2)) (m / 2) ≡ 0 =
      omega (arith, bit_and_step (bit_or a b) m, ap (λ t. bit_and t (m / 2)) half, h) in
    let (ea, eb) = bit_and-bit_or-zero n (a / 2) (b / 2) (m / 2) (omega (arith, pow_step n)) rest in
    (
      omega (arith, ea, h, bit_and_step a m, bit_and_step (bit_or a b) m, bit_or_step a b),
      omega (arith, eb, h, bit_and_step b m, bit_and_step (bit_or a b) m, bit_or_step a b),
    )

-- A union has the bits of a mask that one of its parts has.
pub bit_and-bit_or-keep : (n a b m : ℕ) → m < 2 ^ n → bit_and a m ≡ m → bit_and (bit_or a b) m ≡ m
bit_and-bit_or-keep zero a b zero l h = bit_and-zero (bit_or a b)
bit_and-bit_or-keep zero a b (suc m) l h = absurd (omega arith)
bit_and-bit_or-keep (suc n) a b m l h =
    let half : bit_or a b / 2 ≡ bit_or (a / 2) (b / 2) = omega (arith, bit_or_step a b) in
    let rest : bit_and (a / 2) (m / 2) ≡ m / 2 = omega (arith, bit_and_step a m, h) in
    omega (
      arith,
      h,
      bit_and_step a m,
      bit_and_step (bit_or a b) m,
      bit_or_step a b,
      ap (λ t. bit_and t (m / 2)) half,
      bit_and-bit_or-keep n (a / 2) (b / 2) (m / 2) (omega (arith, pow_step n)) rest,
    )
