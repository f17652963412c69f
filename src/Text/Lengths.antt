-- ===== src/Text/Lengths.antt =====
-- How long formatted texts can be.
use kernai.Base.{
  ℕ, zero, suc, ◌+◌, ◌*◌, ◌/◌, ◌%◌, ◌≤◌, ◌≡◌, refl, List, [], ◌∷◌, ltb, length, length-append,
  arith, Bool-cases, inl, inr,
}
use kernai.Text.{Text, joined, with_commas, comma_separated}
use kernai.Text.Numbers.{digits_before, decimal, hex_digit, hex_before, hex}

-- The number of bytes of the pieces.
abbrev pub total : List Text → ℕ
total [] = 0
total (s ∷ rest) = length s + total rest

pub length-joined : (ps : List Text) → length (joined ps) ≡ total ps
unfolding joined
length-joined [] = refl
length-joined (s ∷ rest) = omega (arith, length-append s (joined rest), length-joined rest)

length-digits_before :
    (fuel n : ℕ) (after : Text) → length (digits_before fuel n after) ≤ fuel + length after
unfolding digits_before
length-digits_before zero n after = omega arith
length-digits_before (suc fuel) n after = elim (Bool-cases (ltb n 10)) [
  | inl e ↦ rw e (omega arith)
  | inr e ↦ rw e (omega (arith, length-digits_before fuel (n / 10) ((b'0' + n % 10) ∷ after)))
]

pub length-decimal : (n : ℕ) → length (decimal n) ≤ 20
unfolding decimal
length-decimal n = omega (arith, length-digits_before 20 n [])

length-hex_before :
    (fuel n : ℕ) (after : Text) → length (hex_before fuel n after) ≤ fuel + length after
unfolding hex_before
length-hex_before zero n after = omega arith
length-hex_before (suc fuel) n after = elim (Bool-cases (ltb n 16)) [
  | inl e ↦ rw e (omega arith)
  | inr e ↦ rw e (omega (arith, length-hex_before fuel (n / 16) (hex_digit (n % 16) ∷ after)))
]

pub length-hex : (n : ℕ) → length (hex n) ≤ 16
unfolding hex
length-hex n = omega (arith, length-hex_before 16 n [])

length-with_commas : (ps : List Text) → length (with_commas ps) ≡ total ps + length ps
unfolding with_commas
length-with_commas [] = refl
length-with_commas (s ∷ rest) =
    omega (arith, length-append s (with_commas rest), length-with_commas rest)

pub length-comma_separated : (ps : List Text) → length (comma_separated ps) ≤ total ps + length ps
unfolding comma_separated
length-comma_separated [] = omega arith
length-comma_separated (s ∷ rest) =
    omega (arith, length-append s (with_commas rest), length-with_commas rest)

-- No piece has more than `m` bytes.
abbrev pub IsShort : ℕ → List Text → Type 0
IsShort m [] = Unit
IsShort m (s ∷ rest) = (length s ≤ m) × IsShort m rest

pub total-IsShort : (m : ℕ) (ps : List Text) → IsShort m ps → total ps ≤ length ps * m
total-IsShort m [] h = omega arith
total-IsShort m (s ∷ rest) (h, t) = omega (arith, h, total-IsShort m rest t)
