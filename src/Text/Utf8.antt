-- ===== src/Text/Utf8.antt =====
-- `from_utf8`, `chars` and `trim`: the well-formed byte sequences, and the code points that are
-- white space. A count of bytes still to pass stands in the loops for a step of several bytes.
use kernai.Base.{
  ℕ, zero, suc, Bool, true, false, ◌&&◌, ◌||◌, [], ◌∷◌, leb, ltb, ◌==◌, if◌then◌else◌,
}
use kernai.Text.{Text, is_continuation}

abbrev between : ℕ → ℕ → ℕ → Bool
between lo hi b = leb lo b && leb b hi

-- The second byte after a leading byte of three or four.
abbrev second_of : ℕ → ℕ → Bool
second_of a b =
    if a == 0xE0
    then between 0xA0 0xBF b
    else (if a == 0xED
        then between 0x80 0x9F b
        else (if a == 0xF0
            then between 0x90 0xBF b
            else (if a == 0xF4 then between 0x80 0x8F b else is_continuation b)))

-- The number of bytes of the code point that a text begins with; 0 if it begins with none.
unfoldable pub char_len : Text → ℕ
char_len [] = 0
char_len (a ∷ []) = if ltb a 0x80 then 1 else 0
char_len (a ∷ b ∷ []) =
    if ltb a 0x80 then 1 else (if between 0xC2 0xDF a && is_continuation b then 2 else 0)
char_len (a ∷ b ∷ c ∷ []) =
    if ltb a 0x80
    then 1
    else (if between 0xC2 0xDF a && is_continuation b
        then 2
        else (if between 0xE0 0xEF a && (second_of a b && is_continuation c) then 3 else 0))
char_len (a ∷ b ∷ c ∷ d ∷ s) =
    if ltb a 0x80
    then 1
    else (if between 0xC2 0xDF a && is_continuation b
        then 2
        else (if between 0xE0 0xEF a && (second_of a b && is_continuation c)
            then 3
            else (if between 0xF0 0xF4 a
                  && (second_of a b && (is_continuation c && is_continuation d))
                then 4
                else 0)))

unfoldable pub utf8_from : ℕ → Text → Bool
unfolding char_len
utf8_from left [] = true
utf8_from (suc left) (a ∷ s) = utf8_from left s
utf8_from zero (a ∷ s) = elim (char_len (a ∷ s)) [ zero ↦ false | suc left ↦ utf8_from left s ]

-- `from_utf8` succeeds.
unfoldable pub is_utf8 : Text → Bool
unfolding utf8_from
is_utf8 s = utf8_from 0 s

-- The first code points of a text, at most `n`.
unfoldable pub take_chars : ℕ → ℕ → Text → Text
unfolding char_len
take_chars n left [] = []
take_chars n (suc left) (a ∷ s) = a ∷ take_chars n left s
take_chars zero zero (a ∷ s) = []
take_chars (suc n) zero (a ∷ s) = elim (char_len (a ∷ s)) [
  | zero ↦ a ∷ take_chars n 0 s
  | suc left ↦ a ∷ take_chars n left s
]

-- White space of one, two and three bytes.
abbrev is_white : ℕ → Bool
is_white a = between 9 13 a || (a == 32)

abbrev is_white_2 : ℕ → ℕ → Bool
is_white_2 a b = (a == 0xC2) && ((b == 0x85) || (b == 0xA0))

abbrev is_white_3 : ℕ → ℕ → ℕ → Bool
is_white_3 a b c =
    ((a == 0xE1) && ((b == 0x9A) && (c == 0x80)))
    || (((a == 0xE2)
          && ((b == 0x80)
              && (between 0x80 0x8A c || ((c == 0xA8) || ((c == 0xA9) || (c == 0xAF))))))
        || (((a == 0xE2) && ((b == 0x81) && (c == 0x9F)))
            || ((a == 0xE3) && ((b == 0x80) && (c == 0x80)))))

-- The number of bytes of the white space that a text begins with; 0 if it begins with none.
unfoldable pub white_len : Text → ℕ
white_len [] = 0
white_len (a ∷ []) = if is_white a then 1 else 0
white_len (a ∷ b ∷ []) = if is_white a then 1 else (if is_white_2 a b then 2 else 0)
white_len (a ∷ b ∷ c ∷ s) =
    if is_white a then 1 else (if is_white_2 a b then 2 else (if is_white_3 a b c then 3 else 0))

-- The same for the white space at the end, on the bytes in reverse.
unfoldable pub white_len_back : Text → ℕ
white_len_back [] = 0
white_len_back (a ∷ []) = if is_white a then 1 else 0
white_len_back (b ∷ a ∷ []) = if is_white b then 1 else (if is_white_2 a b then 2 else 0)
white_len_back (c ∷ b ∷ a ∷ s) =
    if is_white c then 1 else (if is_white_2 b c then 2 else (if is_white_3 a b c then 3 else 0))

unfoldable pub trim_from : (Text → ℕ) → ℕ → Text → Text
trim_from width left [] = []
trim_from width (suc left) (a ∷ s) = trim_from width left s
trim_from width zero (a ∷ s) = elim (width (a ∷ s)) [
  | zero ↦ a ∷ s
  | suc left ↦ trim_from width left s
]

unfoldable pub trim_start : Text → Text
unfolding trim_from white_len
trim_start s = trim_from white_len 0 s

-- The bytes in reverse, before those that follow.
unfoldable pub reverse_onto : Text → Text → Text
reverse_onto [] t = t
reverse_onto (b ∷ s) t = reverse_onto s (b ∷ t)

unfoldable pub trim : Text → Text
unfolding trim_start trim_from white_len_back reverse_onto
trim s = reverse_onto (trim_from white_len_back 0 (reverse_onto (trim_start s) [])) []
