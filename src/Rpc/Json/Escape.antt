-- ===== src/Rpc/Json/Escape.antt =====
-- kernel/src/console.rs and kernel/src/rpc.rs: what the console escapes is the inside of one JSON
-- string for the reader.
use mathlib.Core.List.{append_assoc}
use kernai.Base.{
  ℕ, ◌/◌, ◌%◌, ◌≡◌, refl, ap, ◌∙◌, false, [], ◌∷◌, ◌++◌, ◌==◌, ltb, leb, ◌&&◌, Bool-cases, inl, inr,
  arith,
}
use kernai.Text.{Text}
use kernai.Text.Numbers.{hex_digit}
use kernai.Console.{unicode_escape, escape_char, escape_byte, json_escaped, json_escaped_bytes}
use kernai.Rpc.Json.{in_string, skip_string}

in_string-other :
    (b : ℕ) (t : Text)
    → (b == 92) ≡ false
    → (b == 34) ≡ false
    → in_string false (b ∷ t) ≡ in_string false t
unfolding in_string
in_string-other b t h k = rw (h, k) refl

in_string-escaped : (b : ℕ) (t : Text) → in_string false (92 ∷ b ∷ t) ≡ in_string false t
unfolding in_string
in_string-escaped b t = refl

hex_digit-no_backslash : (d : ℕ) → (hex_digit d == 92) ≡ false
hex_digit-no_backslash d = ground arith

hex_digit-no_quote : (d : ℕ) → (hex_digit d == 34) ≡ false
hex_digit-no_quote d = ground arith

in_string-hex : (d : ℕ) (t : Text) → in_string false (hex_digit d ∷ t) ≡ in_string false t
in_string-hex d t =
    in_string-other (hex_digit d) t (hex_digit-no_backslash d) (hex_digit-no_quote d)

in_string-unicode : (b : ℕ) (t : Text) → in_string false (unicode_escape b ++ t) ≡ in_string false t
unfolding unicode_escape
in_string-unicode b t =
    in_string-escaped 117 _
    ∙ in_string-other 48 _ refl refl
    ∙ in_string-other 48 _ refl refl
    ∙ in_string-hex (b / 16) _
    ∙ in_string-hex (b % 16) t

in_string-escape_byte :
    (b : ℕ) (t : Text) → in_string false (escape_byte b ++ t) ≡ in_string false t
unfolding escape_byte
in_string-escape_byte b t = elim (Bool-cases (b == 34)) [
  | inl e ↦ rw e (in_string-escaped 34 t)
  | inr e ↦ elim (Bool-cases (b == 92)) [
    | inl f ↦ rw (e, f) (in_string-escaped 92 t)
    | inr f ↦ elim (Bool-cases (leb 0x20 b && leb b 0x7e)) [
      | inl g ↦ rw (e, f, g) (in_string-other b t f e)
      | inr g ↦ rw (e, f, g) (in_string-unicode b t)
    ]
  ]
]

in_string-escape_char :
    (b : ℕ) (t : Text) → in_string false (escape_char b ++ t) ≡ in_string false t
unfolding escape_char
in_string-escape_char b t = elim (Bool-cases (b == 34)) [
  | inl e ↦ rw e (in_string-escaped 34 t)
  | inr e ↦ elim (Bool-cases (b == 92)) [
    | inl f ↦ rw (e, f) (in_string-escaped 92 t)
    | inr f ↦ elim (Bool-cases (b == 10)) [
      | inl g ↦ rw (e, f, g) (in_string-escaped 110 t)
      | inr g ↦ elim (Bool-cases (b == 13)) [
        | inl i ↦ rw (e, f, g, i) (in_string-escaped 114 t)
        | inr i ↦ elim (Bool-cases (b == 9)) [
          | inl j ↦ rw (e, f, g, i, j) (in_string-escaped 116 t)
          | inr j ↦ elim (Bool-cases (ltb b 0x20)) [
            | inl k ↦ rw (e, f, g, i, j, k) (in_string-unicode b t)
            | inr k ↦ rw (e, f, g, i, j, k) (in_string-other b t f e)
          ]
        ]
      ]
    ]
  ]
]

-- A payload's bytes never end the JSON string that they are written into: for the reader, the
-- string that the escaped bytes stand in ends at the quote that is written after them, whatever
-- the bytes are and whatever follows.
pub skip_string-json_escaped_bytes :
    (s rest : Text) → skip_string (b'"' ∷ (json_escaped_bytes s ++ (b'"' ∷ rest))) ≡ rest
unfolding skip_string json_escaped_bytes in_string
skip_string-json_escaped_bytes [] rest = refl
skip_string-json_escaped_bytes (b ∷ s) rest =
    ap (in_string false) (append_assoc (escape_byte b) (json_escaped_bytes s) (b'"' ∷ rest))
    ∙ in_string-escape_byte b (json_escaped_bytes s ++ (b'"' ∷ rest))
    ∙ skip_string-json_escaped_bytes s rest

-- The same of a text, such as an id, an operation id or a suite that a request names.
pub skip_string-json_escaped :
    (s rest : Text) → skip_string (b'"' ∷ (json_escaped s ++ (b'"' ∷ rest))) ≡ rest
unfolding skip_string json_escaped in_string
skip_string-json_escaped [] rest = refl
skip_string-json_escaped (b ∷ s) rest =
    ap (in_string false) (append_assoc (escape_char b) (json_escaped s) (b'"' ∷ rest))
    ∙ in_string-escape_char b (json_escaped s ++ (b'"' ∷ rest))
    ∙ skip_string-json_escaped s rest
