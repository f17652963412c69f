-- ===== src/Idle/Panic.antt =====
-- kernel/src/main.rs: the panic handler and `FmtCapture`. What has been formatted is given as its
-- code points. Interrupts are off from the first write on, and both ways out of the handler are
-- `shutdown(true)`, which does not return.
pub mod Reports
use kernai.Base.{
  ℕ, ◌+◌, ◌*◌, ◌≤◌, ◌≡◌, ap, sym, ◌∙◌, Bool, true, false, Option, none, some, List, [], ◌∷◌, ◌++◌,
  ltb, if◌then◌else◌, length, length-append, arith,
}
use kernai.Text.{Text, bytes_of, encode_char, joined}
use kernai.Text.Numbers.{decimal}
use kernai.Text.Lengths.{length-joined, length-decimal}
use kernai.Console.{
  FrameBuf, capacity, new_frame_buf, write_pieces, escape_char, unicode_escape, emit_frame, framed,
}
use kernai.Console.Buffer.{write_pieces-joined, emit_frame-framed}
use kernai.Kernel.{Kernel, take_id}

pub record Location : Type 0 where
  pub file : List ℕ
  pub line : ℕ

-- What `write_json_escaped` writes for each character.
unfoldable pub escape_chars : List ℕ → List Text
unfolding escape_char encode_char
escape_chars [] = []
escape_chars (c ∷ s) = (if ltb c 0x80 then escape_char c else encode_char c) ∷ escape_chars s

-- `FmtCapture`: the text goes escaped into the buffer; that it did not fit is ignored.
unfoldable pub capture : List ℕ → FrameBuf → FrameBuf
unfolding write_pieces escape_chars
capture s f = (write_pieces (escape_chars s) f).1

-- A chain of writes whose result is ignored.
unfoldable pub put : List Text → FrameBuf → FrameBuf
unfolding write_pieces
put ps f = (write_pieces ps f).1

unfoldable pub head_pieces : ℕ → List Text
head_pieces id =
    bytes_of "{\"id\":" ∷ decimal id ∷ bytes_of ",\"type\":\"panic\",\"location\":\"" ∷ []

-- `{}:{}` of the location, if there is one.
unfoldable pub shown : Option Location → List ℕ
unfolding decimal
shown none = []
shown (some loc) = loc.file ++ (b':' ∷ decimal loc.line)

-- The frame that the handler builds.
unfoldable pub panic_frame : ℕ → Option Location → List ℕ → FrameBuf
unfolding capture put shown head_pieces
panic_frame id location message =
    let f1 = put (head_pieces id) new_frame_buf in
    let f2 = capture (shown location) f1 in
    let f3 = put (bytes_of "\",\"msg\":\"" ∷ []) f2 in
    let f4 = capture message f3 in put (bytes_of "\"}" ∷ []) f4

-- The handler, on `IN_PANIC` and the kernel: the bytes it sends before the shutdown.
unfoldable pub panic : Option Location → List ℕ → Bool × Kernel → Text × (Bool × Kernel)
unfolding panic_frame
panic location message (true, k) = ([], (true, k))
panic location message (false, k) =
    let (id, k') = take_id k in (emit_frame (panic_frame id location message), (true, k'))
