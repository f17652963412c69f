-- ===== src/Text/Numbers.antt =====
-- Numbers as `write!` formats them: `{}` in decimal and `{:x}` in hexadecimal.
use kernai.Base.{ℕ, zero, suc, ◌+◌, ◌-◌, ◌/◌, ◌%◌, ◌^◌, [], ◌∷◌, ltb, if◌then◌else◌}
use kernai.Text.{Text}

-- The digits of a number, written before those that follow; a u64 has at most 20.
unfoldable pub digits_before : ℕ → ℕ → Text → Text
digits_before zero n after = after
digits_before (suc fuel) n after =
    let rest = digits_before fuel (n / 10) ((b'0' + n % 10) ∷ after) in
    if ltb n 10 then (b'0' + n) ∷ after else rest

unfoldable pub decimal : ℕ → Text
unfolding digits_before
decimal n = digits_before 20 n []

abbrev pub hex_digit : ℕ → ℕ
hex_digit d = if ltb d 10 then b'0' + d else b'a' + (d - 10)

unfoldable pub hex_before : ℕ → ℕ → Text → Text
hex_before zero n after = after
hex_before (suc fuel) n after =
    let rest = hex_before fuel (n / 16) (hex_digit (n % 16) ∷ after) in
    if ltb n 16 then hex_digit n ∷ after else rest

unfoldable pub hex : ℕ → Text
unfolding hex_before
hex n = hex_before 16 n []

-- An isize, given as its u64.
unfoldable pub signed : ℕ → Text
unfolding decimal
signed n = if ltb n (2 ^ 63) then decimal n else b'-' ∷ decimal (2 ^ 64 - n)
