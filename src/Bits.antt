-- ===== src/Bits.antt =====
-- The bit operations of the machine words, by their digits: `bit a j` is bit j of `a`.
-- `|`, `&` and `!` act digit by digit, and `x & (1 << k)` is tested through `bit x k`.
mod Step
pub mod Fields
pub use Step.{zero-bit_and, bit_or_step, bit_and_step}
use Step.{bit_and-zero, zero-bit_and}
use kernai.Base.{
  ℕ, zero, suc, ◌+◌, ◌-◌, ◌*◌, ◌/◌, ◌%◌, ◌^◌, ◌≤◌, ◌<◌, min, max, bit_and, bit_or, ◌≡◌, ◌≢◌, ◌↔◌,
  refl, ap, arith, ◌==◌, if◌then◌else◌, ◌∙◌,
}
use native.Mathlib.Nat.{pow-suc, one-le-pow}

-- Bit j of a word.
unfoldable pub bit : ℕ → ℕ → ℕ
bit a zero = a % 2
bit a (suc j) = bit (a / 2) j

pub bit-lt-two : (a j : ℕ) → bit a j < 2
unfolding bit
bit-lt-two a zero = omega arith
bit-lt-two a (suc j) = bit-lt-two (a / 2) j

pub bit-zero : (j : ℕ) → bit 0 j ≡ 0
unfolding bit
bit-zero zero = refl
bit-zero (suc j) = bit-zero j

pub bit-bit_or : (j a b : ℕ) → bit (bit_or a b) j ≡ max (bit a j) (bit b j)
unfolding bit
bit-bit_or zero a b = omega (arith, bit_or_step a b)
bit-bit_or (suc j) a b =
    ap (λ t. bit t j) (omega (arith, bit_or_step a b)) ∙ bit-bit_or j (a / 2) (b / 2)

pub bit-bit_and : (j a b : ℕ) → bit (bit_and a b) j ≡ min (bit a j) (bit b j)
unfolding bit
bit-bit_and zero a b = omega (arith, bit_and_step a b)
bit-bit_and (suc j) a b =
    ap (λ t. bit t j) (omega (arith, bit_and_step a b)) ∙ bit-bit_and j (a / 2) (b / 2)

pow_step : (k : ℕ) → 2 ^ suc k ≡ 2 * 2 ^ k
pow_step k = omega (arith, pow-suc 2 k)

pub bit-pow : (k j : ℕ) → bit (2 ^ k) j ≡ (if k == j then 1 else 0)
unfolding bit
bit-pow zero zero = refl
bit-pow zero (suc j) = ground (arith, bit-zero j)
bit-pow (suc k) zero = ground (arith, pow_step k)
bit-pow (suc k) (suc j) = ap (λ t. bit t j) (omega (arith, pow_step k)) ∙ bit-pow k j ∙ ground arith

-- The complement of an n-bit word.
pub bit-complement : (n x j : ℕ) → x < 2 ^ n → j < n → bit (2 ^ n - 1 - x) j ≡ 1 - bit x j
unfolding bit
bit-complement zero x j h k = absurd (omega arith)
bit-complement (suc n) x zero h k = ground (arith, pow_step n)
bit-complement (suc n) x (suc j) h k =
    ap (λ t. bit t j) (omega (arith, pow_step n))
    ∙ bit-complement n (x / 2) j (omega (arith, pow_step n)) (omega arith)

-- Words of n bits with the same bits are the same.
pub eq_of_bits : (n a b : ℕ) → a < 2 ^ n → b < 2 ^ n → ((j : ℕ) → j < n → bit a j ≡ bit b j) → a ≡ b
unfolding bit
eq_of_bits zero a b ha hb h = omega arith
eq_of_bits (suc n) a b ha hb h = omega (
  arith,
  h 0 (omega arith),
  pow_step n,
  eq_of_bits n (a / 2) (b / 2) (omega (arith, pow_step n)) (omega (arith, pow_step n))
      (λ j k. h (suc j) (omega arith)),
)

pub bit_or-lt : (n a b : ℕ) → a < 2 ^ n → b < 2 ^ n → bit_or a b < 2 ^ n
bit_or-lt zero zero zero ha hb = omega arith
bit_or-lt zero zero (suc b) ha hb = absurd (omega arith)
bit_or-lt zero (suc a) b ha hb = absurd (omega arith)
bit_or-lt (suc n) a b ha hb = omega (
  arith,
  bit_or_step a b,
  pow_step n,
  bit_or-lt n (a / 2) (b / 2) (omega (arith, pow_step n)) (omega (arith, pow_step n)),
)

pub bit_and-le_left : (n a b : ℕ) → a ≤ n → bit_and a b ≤ a
bit_and-le_left zero zero b h = omega (arith, zero-bit_and b)
bit_and-le_left zero (suc a) b h = absurd (omega arith)
bit_and-le_left (suc n) zero b h = omega (arith, zero-bit_and b)
bit_and-le_left (suc n) (suc a) b h =
    omega (arith, bit_and_step (suc a) b, bit_and-le_left n (suc a / 2) (b / 2) (omega arith))

-- `w & (1 << k)` is bit k at its place.
pub bit_and-pow : (k w : ℕ) → bit_and w (2 ^ k) ≡ bit w k * 2 ^ k
unfolding bit
bit_and-pow zero w = omega (arith, bit_and_step w 1, bit_and-zero (w / 2))
bit_and-pow (suc k) w = omega (
  arith,
  bit_and_step w (2 ^ suc k),
  pow_step k,
  ap (λ t. bit_and (w / 2) t) (let e : 2 ^ suc k / 2 ≡ 2 ^ k = omega (arith, pow_step k) in e),
  bit_and-pow k (w / 2),
  ap (λ t. bit (w / 2) k * t) (pow_step k),
)
