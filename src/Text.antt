-- ===== src/Text.antt =====
-- Text as the source's `str`: its bytes in UTF-8, and what the code uses of the standard library
-- on it (formatting of numbers, `trim`, `chars`, `from_utf8`).
pub mod Numbers
pub mod Utf8
pub mod Lengths
use Prim.Native.Char.{code}
use Prim.Native.String.{String}
use kernai.Base.{
  ℕ, zero, suc, ◌+◌, ◌-◌, ◌/◌, ◌%◌, ◌*◌, Bool, true, false, ◌&&◌, ◌||◌, not, List, [], ◌∷◌, ◌++◌,
  leb, ltb, ◌==◌, if◌then◌else◌,
}

abbrev pub Text : Type 0
Text = List ℕ

-- The bytes of a code point.
unfoldable pub encode_char : ℕ → Text
encode_char c =
    if ltb c 0x80
    then c ∷ []
    else (if ltb c 0x800
        then (0xC0 + c / 64) ∷ (0x80 + c % 64) ∷ []
        else (if ltb c 0x10000
            then (0xE0 + c / 4096) ∷ (0x80 + c / 64 % 64) ∷ (0x80 + c % 64) ∷ []
            else (0xF0 + c / 262144)
              ∷ (0x80 + c / 4096 % 64)
              ∷ (0x80 + c / 64 % 64)
              ∷ (0x80 + c % 64)
              ∷ []))

-- The bytes of a literal.
unfoldable pub bytes_of : String → Text
unfolding encode_char
bytes_of String.[] = []
bytes_of (String.◌∷◌ c s) = encode_char (code c) ++ bytes_of s

-- `==` on texts.
unfoldable pub same : Text → Text → Bool
same [] [] = true
same [] (c ∷ t) = false
same (b ∷ s) [] = false
same (b ∷ s) (c ∷ t) = (b == c) && same s t

-- A byte that continues a code point: no text is cut before it.
abbrev pub is_continuation : ℕ → Bool
is_continuation b = leb 0x80 b && ltb b 0xC0

-- The pieces put together.
unfoldable pub joined : List Text → Text
joined [] = []
joined (s ∷ rest) = s ++ joined rest

-- A comma before each piece.
unfoldable pub with_commas : List Text → Text
with_commas [] = []
with_commas (s ∷ rest) = b',' ∷ (s ++ with_commas rest)

-- The pieces with a comma between two of them.
unfoldable pub comma_separated : List Text → Text
unfolding with_commas
comma_separated [] = []
comma_separated (s ∷ rest) = s ++ with_commas rest
