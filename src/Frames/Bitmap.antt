-- ===== src/Frames/Bitmap.antt =====
-- The bitmap of kernel/src/frames.rs as a set of frames.
use kernai.Base.{ℕ, ◌-◌, ◌/◌, ◌%◌, ◌^◌, ◌≡◌, not, ◌||◌, ◌&&◌, arith, ◌==◌, ◌<◌}
use kernai.Bits.{bit, bit-bit_or, bit-bit_and, bit-pow, bit-complement, bit_and-pow, bit-lt-two}
use kernai.Frames.{Pool, test, set, clear, mask_of}
use native.Mathlib.Nat.{one-le-pow, pow-le-pow_right}

pow_pos : (k : ℕ) → 0 < 2 ^ k
pow_pos k = one-le-pow k 2 (omega arith)

test-eq-bit : (f : ℕ) (s : Pool) → test f s ≡ (bit (s.bitmap (f / 64)) (f % 64) == 1)
unfolding test
test-eq-bit f s = ground (
  arith,
  bit_and-pow (f % 64) (s.bitmap (f / 64)),
  bit-lt-two (s.bitmap (f / 64)) (f % 64),
  pow_pos (f % 64),
)

-- Setting a frame allocates it and no other.
pub test-set : (f g : ℕ) (s : Pool) → test g (set f s) ≡ ((f == g) || test g s)
unfolding set
test-set f g s = ground (
  arith,
  test-eq-bit g (set f s),
  test-eq-bit g s,
  bit-bit_or (g % 64) (s.bitmap (f / 64)) (mask_of f),
  bit-pow (f % 64) (g % 64),
  bit-lt-two (s.bitmap (g / 64)) (g % 64),
)

mask_of-lt : (f : ℕ) → mask_of f < 2 ^ 64
mask_of-lt f =
    omega (arith, pow-le-pow_right {n = 2} (omega arith) {i = f % 64} {j = 63} (omega arith))

-- Clearing a frame frees it and no other.
pub test-clear : (f g : ℕ) (s : Pool) → test g (clear f s) ≡ (not (f == g) && test g s)
unfolding clear
test-clear f g s = ground (
  arith,
  test-eq-bit g (clear f s),
  test-eq-bit g s,
  bit-bit_and (g % 64) (s.bitmap (f / 64)) (2 ^ 64 - 1 - mask_of f),
  bit-complement 64 (mask_of f) (g % 64) (mask_of-lt f) (omega arith),
  bit-pow (f % 64) (g % 64),
  bit-lt-two (s.bitmap (g / 64)) (g % 64),
)
