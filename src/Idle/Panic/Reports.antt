-- ===== src/Idle/Panic/Reports.antt =====
-- kernel/src/main.rs: a panic is reported, once.
use mathlib.Core.List.{append-nil, append_assoc}
use kernai.Base.{
  ℕ, ◌+◌, ◌*◌, ◌≤◌, ◌≡◌, refl, ap, sym, ◌∙◌, false, Option, some, List, [], ◌∷◌, ◌++◌, ltb,
  if◌then◌else◌, length, length-append, arith,
}
use kernai.Text.{Text, bytes_of, encode_char, joined}
use kernai.Text.Numbers.{decimal}
use kernai.Text.Lengths.{length-joined, length-decimal}
use kernai.Console.{
  FrameBuf, capacity, new_frame_buf, escape_char, unicode_escape, emit_frame, framed,
}
use kernai.Console.Buffer.{write_pieces-joined, emit_frame-framed}
use kernai.Idle.Panic.{Location, escape_chars, put, head_pieces, shown, panic_frame, panic}
use kernai.Kernel.{Kernel, take_id}

-- Characters as they stand in a JSON string.
unfoldable pub escaped : List ℕ → Text
unfolding escape_chars joined
escaped s = joined (escape_chars s)

-- The report of a panic.
unfoldable pub panic_text : ℕ → Option Location → List ℕ → Text
unfolding joined
panic_text id location message = joined (
    joined (head_pieces id)
    ∷ escaped (shown location)
    ∷ bytes_of "\",\"msg\":\""
    ∷ escaped message
    ∷ bytes_of "\"}"
    ∷ [])

length-escape_chars : (c : ℕ) → length (if ltb c 0x80 then escape_char c else encode_char c) ≤ 6
unfolding escape_char unicode_escape encode_char
length-escape_chars c = ground arith

length-escaped : (s : List ℕ) → length (escaped s) ≤ 6 * length s
unfolding escaped escape_chars joined
length-escaped [] = omega arith
length-escaped (c ∷ s) = omega (
  arith,
  length-append (if ltb c 0x80 then escape_char c else encode_char c) (escaped s),
  length-escape_chars c,
  length-escaped s,
)

length-shown : (l : Location) → length (shown (some l)) ≤ length l.file + 21
unfolding shown
length-shown l = omega (arith, length-append l.file (b':' ∷ decimal l.line), length-decimal l.line)

length-head_pieces : (id : ℕ) → length (joined (head_pieces id)) ≤ 54
unfolding head_pieces bytes_of
length-head_pieces id = omega (arith, length-joined (head_pieces id), length-decimal id)

length-panic_text :
    (id : ℕ) (l : Location) (message : List ℕ)
    → length l.file + length message ≤ 300
    → length (panic_text id (some l) message) ≤ capacity
unfolding panic_text bytes_of
length-panic_text id l message h = omega (
  arith,
  h,
  length-joined (
      joined (head_pieces id)
      ∷ escaped (shown (some l))
      ∷ bytes_of "\",\"msg\":\""
      ∷ escaped message
      ∷ bytes_of "\"}"
      ∷ []),
  length-head_pieces id,
  length-escaped (shown (some l)),
  length-shown l,
  length-escaped message,
)

-- A buffer that holds a text and has not overflowed.
abbrev holding : Text → FrameBuf
holding t = record { buf = t; overflow = false }

-- Chains of writes one after the other, whatever each came to.
unfoldable put_all : List (List Text) → FrameBuf → FrameBuf
unfolding put
put_all [] f = f
put_all (ps ∷ rest) f = put_all rest (put ps f)

unfoldable joined_all : List (List Text) → Text
unfolding joined
joined_all [] = []
joined_all (ps ∷ rest) = joined ps ++ joined_all rest

put-holding :
    (ps : List Text) (t : Text)
    → length t + length (joined ps) ≤ capacity
    → put ps (holding t) ≡ holding (t ++ joined ps)
unfolding put
put-holding ps t h = ap (λ x. x.1) (write_pieces-joined ps (holding t) h)

put_all-holding :
    (pss : List (List Text)) (t : Text)
    → length t + length (joined_all pss) ≤ capacity
    → put_all pss (holding t) ≡ holding (t ++ joined_all pss)
unfolding put_all joined_all
put_all-holding [] t h = ap holding (sym (append-nil t))
put_all-holding (ps ∷ rest) t h =
    ap (put_all rest)
      (put-holding ps t (omega (arith, length-append (joined ps) (joined_all rest), h)))
    ∙ put_all-holding rest (t ++ joined ps)
        (omega (arith, length-append t (joined ps), length-append (joined ps) (joined_all rest), h))
    ∙ ap holding (append_assoc t (joined ps) (joined_all rest))

-- The chains of the handler.
abbrev chains : ℕ → Option Location → List ℕ → List (List Text)
chains id location message =
    head_pieces id
    ∷ escape_chars (shown location)
    ∷ (bytes_of "\",\"msg\":\"" ∷ [])
    ∷ escape_chars message
    ∷ (bytes_of "\"}" ∷ [])
    ∷ []

joined_all-chains :
    (id : ℕ) (l : Option Location) (message : List ℕ)
    → joined_all (chains id l message) ≡ panic_text id l message
unfolding joined_all panic_text escaped
joined_all-chains id l message =
    rw
      (
        append-nil (bytes_of "\",\"msg\":\""),
        append-nil (bytes_of "\"}"),
        append-nil (bytes_of "\"}"),
      )
      refl

panic_frame-put_all :
    (id : ℕ) (l : Option Location) (message : List ℕ)
    → panic_frame id l message ≡ put_all (chains id l message) new_frame_buf
unfolding panic_frame put_all
panic_frame-put_all id l message = refl

panic_frame-holding :
    (id : ℕ) (l : Option Location) (message : List ℕ)
    → length (panic_text id l message) ≤ capacity
    → panic_frame id l message ≡ holding (panic_text id l message)
panic_frame-holding id l message h =
    panic_frame-put_all id l message
    ∙ put_all-holding (chains id l message) []
        (omega (arith, ap length (joined_all-chains id l message), h))
    ∙ ap holding (joined_all-chains id l message)

-- The first panic sends its report, in one frame, whenever the name of the file and the message
-- have at most 300 characters together, whatever they are. A panic during a panic sends nothing.
pub panic-reported :
    (l : Location) (message : List ℕ) (k : Kernel)
    → length l.file + length message ≤ 300
    → ((panic (some l) message (false, k)).0 ≡ framed (panic_text k.next_id (some l) message))
      × ((l' : Option Location) (message' : List ℕ)
          → panic l' message' (panic (some l) message (false, k)).1
            ≡ ([], (panic (some l) message (false, k)).1))
unfolding panic take_id
panic-reported l message k h = (
  ap emit_frame
        (panic_frame-holding k.next_id (some l) message (length-panic_text k.next_id l message h))
      ∙ emit_frame-framed (panic_text k.next_id (some l) message),
  λ l' message'. refl,
)
