-- ===== src/Payload/Output/Bounds.antt =====
-- kernel/src/payload.rs: the events of payloads fit their frames.
use kernai.Base.{ℕ, ◌+◌, ◌*◌, ◌≤◌, ◌≡◌, refl, List, [], ◌∷◌, length, length-append, arith}
use kernai.Text.{Text, bytes_of, comma_separated}
use kernai.Text.Numbers.{decimal, hex}
use kernai.Text.Lengths.{
  length-joined, length-decimal, length-hex, length-comma_separated, IsShort, total-IsShort,
}
use kernai.Console.{capacity, unicode_escape, escape_byte, json_escaped_bytes}
use kernai.Payload.Hooks.{write_quota}
use kernai.Payload.Output.{output_text, glyphs, blit_row, blit_text, blit_maxw, blit_maxh}

length-escape_byte : (b : ℕ) → length (escape_byte b) ≤ 6
unfolding escape_byte unicode_escape
length-escape_byte b = ground arith

length-json_escaped_bytes : (s : Text) → length (json_escaped_bytes s) ≤ 6 * length s
unfolding json_escaped_bytes
length-json_escaped_bytes [] = omega arith
length-json_escaped_bytes (b ∷ s) = omega (
  arith,
  length-append (escape_byte b) (json_escaped_bytes s),
  length-escape_byte b,
  length-json_escaped_bytes s,
)

-- The event of a payload's output is never too large to be sent: of at most 256 bytes, whatever
-- they are, it makes a text of at most 2048, whatever its numbers are.
pub length-output_text :
    (id pid caused_by : ℕ) (bytes : Text)
    → length bytes ≤ write_quota
    → length (output_text id pid caused_by bytes) ≤ capacity
unfolding output_text bytes_of
length-output_text id pid caused_by bytes h = omega (
  arith,
  length-joined (
      bytes_of "{\"id\":"
      ∷ decimal id
      ∷ bytes_of ",\"type\":\"payload_output\",\"pid\":"
      ∷ decimal pid
      ∷ bytes_of ",\"untrusted\":true,\"caused_by\":"
      ∷ decimal caused_by
      ∷ bytes_of ",\"len\":"
      ∷ decimal (length bytes)
      ∷ bytes_of ",\"data\":\""
      ∷ json_escaped_bytes bytes
      ∷ bytes_of "\"}"
      ∷ []),
  length-decimal id,
  length-decimal pid,
  length-decimal caused_by,
  length-decimal (length bytes),
  length-json_escaped_bytes bytes,
  h,
)

length-glyphs : (s : Text) → length (glyphs s) ≡ length s
unfolding glyphs
length-glyphs [] = refl
length-glyphs (v ∷ s) = omega (arith, length-glyphs s)

pub length-blit_row : (s : Text) → length (blit_row s) ≡ length s + 2
unfolding blit_row
length-blit_row s = omega (arith, length-glyphs s, length-append (glyphs s) (b'"' ∷ []))

-- The text of a drawing of at most 24 rows of at most 72 glyphs.
pub length-blit_text :
    (id pid w h checksum : ℕ) (rows : List Text)
    → length rows ≤ blit_maxh
    → IsShort (blit_maxw + 2) rows
    → length (blit_text id pid w h rows checksum) ≤ capacity
unfolding blit_text bytes_of
length-blit_text id pid w h checksum rows n s = omega (
  arith,
  length-joined (
      bytes_of "{\"id\":"
      ∷ decimal id
      ∷ bytes_of ",\"type\":\"frame\",\"pid\":"
      ∷ decimal pid
      ∷ bytes_of ",\"untrusted\":true,\"w\":"
      ∷ decimal w
      ∷ bytes_of ",\"h\":"
      ∷ decimal h
      ∷ bytes_of ",\"rows\":["
      ∷ comma_separated rows
      ∷ bytes_of "],\"checksum\":\"0x"
      ∷ hex checksum
      ∷ bytes_of "\"}"
      ∷ []),
  length-decimal id,
  length-decimal pid,
  length-decimal w,
  length-decimal h,
  length-hex checksum,
  length-comma_separated rows,
  total-IsShort 74 rows s,
  n,
)
