-- ===== src/Rpc/Json/Numbers.antt =====
-- kernel/src/rpc.rs: `parse_u32` on the numbers that the kernel prints.
use kernai.Base.{
  ℕ, zero, suc, ◌+◌, ◌-◌, ◌*◌, ◌/◌, ◌%◌, ◌^◌, ◌<◌, ◌≡◌, refl, ◌∙◌, true, none, some, [], ◌∷◌, ap,
  length, ltb, ◌&&◌, min, Bool-cases, inl, inr, arith,
}
use kernai.Text.{Text}
use kernai.Text.Numbers.{digits_before, decimal}
use kernai.Text.Utf8.{white_len, white_len_back, trim_from, trim_start, reverse_onto, trim}
use kernai.Rpc.Json.{
  is_digit, all_digits, u32_max, digits_value, parse_digits, as_string, parse_u32,
}

-- One step of the saturating loop, on the quotient and the remainder by ten.
saturating_step :
    (q r : ℕ)
    → min (min (min q u32_max * 10) u32_max + (b'0' + r - b'0')) u32_max ≡ min (10 * q + r) u32_max
saturating_step q r = ground arith

digit_step : (n : ℕ) → n < 10 → min (0 + (b'0' + n - b'0')) u32_max ≡ min n u32_max
digit_step n h = ground arith

is_digit-digit : (n : ℕ) → n < 10 → is_digit (b'0' + n) ≡ true
is_digit-digit n h = ground arith

digits_value-digits_before :
    (fuel n : ℕ) (after : Text)
    → n < 10 ^ fuel
    → digits_value 0 (digits_before fuel n after) ≡ digits_value (min n u32_max) after
unfolding digits_before digits_value
digits_value-digits_before zero n after h =
    let z : 0 ≡ n = omega arith in ap (λ m. digits_value (min m u32_max) after) z
digits_value-digits_before (suc fuel) n after h = elim (Bool-cases (ltb n 10)) [
  | inl e ↦ rw e (ap (λ m. digits_value m after) (digit_step n (ground arith)))
  | inr e ↦
      let split : 10 * (n / 10) + n % 10 ≡ n = omega arith in
      rw e (
        digits_value-digits_before fuel (n / 10) ((b'0' + n % 10) ∷ after) (omega arith)
        ∙ ap (λ m. digits_value m after)
            (saturating_step (n / 10) (n % 10) ∙ ap (λ m. min m u32_max) split))
]

all_digits-digits_before :
    (fuel n : ℕ) (after : Text) → all_digits (digits_before fuel n after) ≡ all_digits after
unfolding digits_before all_digits
all_digits-digits_before zero n after = refl
all_digits-digits_before (suc fuel) n after = elim (Bool-cases (ltb n 10)) [
  | inl e ↦ rw (e, is_digit-digit n (ground arith)) refl
  | inr e ↦ rw e (
      all_digits-digits_before fuel (n / 10) ((b'0' + n % 10) ∷ after)
      ∙ ap (λ d. d && all_digits after) (is_digit-digit (n % 10) (omega arith)))
]

length-digits_before_pos :
    (fuel n : ℕ) (after : Text) → 0 < length after → 0 < length (digits_before fuel n after)
unfolding digits_before
length-digits_before_pos zero n after h = h
length-digits_before_pos (suc fuel) n after h = elim (Bool-cases (ltb n 10)) [
  | inl e ↦ rw e (omega arith)
  | inr e ↦ rw e (length-digits_before_pos fuel (n / 10) ((b'0' + n % 10) ∷ after) (omega arith))
]

as_string-digits : (s : Text) → all_digits s ≡ true → as_string s ≡ none
unfolding as_string all_digits
as_string-digits [] h = refl
as_string-digits (q ∷ []) h = refl
as_string-digits (q ∷ b ∷ s) h = ground arith

white_len-digits : (s : Text) → all_digits s ≡ true → white_len s ≡ 0
unfolding white_len all_digits
white_len-digits [] h = refl
white_len-digits (a ∷ []) h = ground arith
white_len-digits (a ∷ b ∷ []) h = ground arith
white_len-digits (a ∷ b ∷ c ∷ s) h = ground arith

white_len_back-digits : (s : Text) → all_digits s ≡ true → white_len_back s ≡ 0
unfolding white_len_back all_digits
white_len_back-digits [] h = refl
white_len_back-digits (a ∷ []) h = ground arith
white_len_back-digits (a ∷ b ∷ []) h = ground arith
white_len_back-digits (a ∷ b ∷ c ∷ s) h = ground arith

trim_from-none : (width : Text → ℕ) (s : Text) → width s ≡ 0 → trim_from width 0 s ≡ s
unfolding trim_from
trim_from-none width [] h = refl
trim_from-none width (a ∷ s) h = rw (h, trim_from) refl

all_digits-reverse_onto :
    (s t : Text) → all_digits s ≡ true → all_digits t ≡ true → all_digits (reverse_onto s t) ≡ true
unfolding reverse_onto all_digits
all_digits-reverse_onto [] t h k = k
all_digits-reverse_onto (b ∷ s) t h k =
    all_digits-reverse_onto s (b ∷ t) (ground arith) (ground arith)

reverse_onto-reverse_onto : (s t : Text) → reverse_onto (reverse_onto s t) [] ≡ reverse_onto t s
unfolding reverse_onto
reverse_onto-reverse_onto [] t = refl
reverse_onto-reverse_onto (b ∷ s) t = reverse_onto-reverse_onto s (b ∷ t)

trim-digits : (s : Text) → all_digits s ≡ true → trim s ≡ s
unfolding trim trim_start all_digits
trim-digits s h =
    rw
      (
        trim_from-none white_len s (white_len-digits s h),
        trim_from-none white_len_back (reverse_onto s [])
            (white_len_back-digits (reverse_onto s []) (all_digits-reverse_onto s [] h refl)),
      )
      (reverse_onto-reverse_onto s [])

parse_digits-digits :
    (s : Text) → 0 < length s → all_digits s ≡ true → parse_digits s ≡ some (digits_value 0 s)
unfolding parse_digits
parse_digits-digits [] l h = absurd (omega arith)
parse_digits-digits (b ∷ s) l h = rw h refl

parse_u32-digits :
    (s : Text) → 0 < length s → all_digits s ≡ true → parse_u32 s ≡ some (digits_value 0 s)
unfolding parse_u32
parse_u32-digits s l h =
    rw (as_string-digits s h, parse_u32, trim-digits s h) (parse_digits-digits s l h)

all_digits-decimal : (n : ℕ) → all_digits (decimal n) ≡ true
unfolding decimal all_digits
all_digits-decimal n = all_digits-digits_before 20 n []

length-digits_pos : (fuel n : ℕ) → 0 < length (digits_before (suc fuel) n [])
unfolding digits_before
length-digits_pos fuel n = elim (Bool-cases (ltb n 10)) [
  | inl e ↦ rw e (omega arith)
  | inr e ↦ rw e (length-digits_before_pos fuel (n / 10) ((b'0' + n % 10) ∷ []) (omega arith))
]

length-decimal_pos : (n : ℕ) → 0 < length (decimal n)
unfolding decimal
length-decimal_pos n = length-digits_pos 19 n

-- A number of at most 64 bits that the kernel prints in decimal is read back by `parse_u32`:
-- itself if it has at most 32 bits, and the largest u32 otherwise.
pub parse_u32-decimal : (n : ℕ) → n < 2 ^ 64 → parse_u32 (decimal n) ≡ some (min n u32_max)
unfolding decimal digits_value
parse_u32-decimal n h =
    parse_u32-digits (decimal n) (length-decimal_pos n) (all_digits-decimal n)
    ∙ ap some (digits_value-digits_before 20 n [] (omega arith))
