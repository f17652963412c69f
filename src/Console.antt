-- ===== src/Console.antt =====
-- kernel/src/console.rs: the frame buffer, JSON escaping, and the frame on the serial line.
pub mod Buffer
use kernai.Base.{
  ℕ, ◌+◌, ◌/◌, ◌%◌, Bool, true, false, ◌&&◌, List, [], ◌∷◌, ◌++◌, ltb, leb, ◌==◌, if◌then◌else◌,
  length, Result, ok, err, Action,
}
use kernai.Text.{Text}
use kernai.Text.Numbers.{hex_digit}

abbrev pub capacity : ℕ
capacity = 2048

-- `len` is the length of the bytes written.
pub record FrameBuf : Type 0 where
  pub buf : Text
  pub overflow : Bool

abbrev pub new_frame_buf : FrameBuf
new_frame_buf = record { buf = []; overflow = false }

-- `fmt::Error`
pub data FmtError : Type 0 where
  fmt_error : FmtError

unfoldable pub write_str : Text → Action FrameBuf FmtError (Unit {0})
write_str s f =
    if ltb capacity (length f.buf + length s)
    then (err fmt_error, record f { overflow = true })
    else (ok tt, record f { buf = f.buf ++ s })

-- A chain of `write_str` calls, each under `?`.
unfoldable pub write_pieces : List Text → Action FrameBuf FmtError (Unit {0})
unfolding write_str
write_pieces [] f = (ok tt, f)
write_pieces (s ∷ rest) f =
    let (r, f') = write_str s f in elim r [ ok _ ↦ write_pieces rest f' | err e ↦ (err e, f') ]

-- `\u{:04x}` of a byte.
unfoldable pub unicode_escape : ℕ → Text
unicode_escape b = b'\\' ∷ b'u' ∷ b'0' ∷ b'0' ∷ hex_digit (b / 16) ∷ hex_digit (b % 16) ∷ []

-- One byte of `write_json_escaped`; the bytes of a longer code point stand for themselves.
unfoldable pub escape_char : ℕ → Text
unfolding unicode_escape
escape_char b =
    if b == b'"'
    then b'\\' ∷ b'"' ∷ []
    else (if b == b'\\'
        then b'\\' ∷ b'\\' ∷ []
        else (if b == 10
            then b'\\' ∷ b'n' ∷ []
            else (if b == 13
                then b'\\' ∷ b'r' ∷ []
                else (if b == 9
                    then b'\\' ∷ b't' ∷ []
                    else (if ltb b 0x20 then unicode_escape b else b ∷ [])))))

-- What `write_json_escaped` writes.
unfoldable pub json_escaped : Text → Text
unfolding escape_char
json_escaped [] = []
json_escaped (b ∷ s) = escape_char b ++ json_escaped s

-- One byte of `write_json_escaped_bytes`.
unfoldable pub escape_byte : ℕ → Text
unfolding unicode_escape
escape_byte b =
    if b == b'"'
    then b'\\' ∷ b'"' ∷ []
    else (if b == b'\\'
        then b'\\' ∷ b'\\' ∷ []
        else (if leb 0x20 b && leb b 0x7e then b ∷ [] else unicode_escape b))

-- What `write_json_escaped_bytes` writes.
unfoldable pub json_escaped_bytes : Text → Text
unfolding escape_byte
json_escaped_bytes [] = []
json_escaped_bytes (b ∷ s) = escape_byte b ++ json_escaped_bytes s

-- `(n as u32).to_le_bytes()`
unfoldable pub le_u32 : ℕ → Text
le_u32 n = (n % 256) ∷ (n / 256 % 256) ∷ (n / 65536 % 256) ∷ (n / 16777216 % 256) ∷ []

-- The bytes of a frame: magic, length, payload.
unfoldable pub framed : Text → Text
unfolding le_u32
framed t = 0xAA ∷ 0x99 ∷ (le_u32 (length t) ++ t)

-- `emit`: the bytes it puts on the line.
unfoldable pub emit_frame : FrameBuf → Text
unfolding framed
emit_frame f = if f.overflow then [] else framed f.buf
