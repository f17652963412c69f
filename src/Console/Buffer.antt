-- ===== src/Console/Buffer.antt =====
-- kernel/src/console.rs: what a chain of writes leaves in the frame buffer.
use mathlib.Core.List.{append-nil, append_assoc}
use kernai.Base.{
  ℕ, ◌+◌, ◌≤◌, ◌<◌, ◌≡◌, refl, sym, ap, ◌∙◌, true, false, List, [], ◌∷◌, ◌++◌, leb, if◌then◌else◌,
  length, length-append, Result, ok, err, arith, Bool-cases, inl, inr, ◌⊎◌, leb→le,
}
use kernai.Text.{Text, joined}
use kernai.Console.{
  FrameBuf, FmtError, fmt_error, capacity, new_frame_buf, write_str, write_pieces, emit_frame,
  framed,
}

-- What a buffer sends once a text is added to what it holds.
unfoldable sends : Text → Text
unfolding framed
sends t = if leb (length t) capacity then framed t else []

write_str-fits :
    (s : Text) (f : FrameBuf)
    → length f.buf + length s ≤ capacity
    → write_str s f ≡ (ok tt, record { buf = f.buf ++ s; overflow = f.overflow })
unfolding write_str
write_str-fits s f h = ground arith

write_str-overflow :
    (s : Text) (f : FrameBuf)
    → capacity < length f.buf + length s
    → write_str s f ≡ (err fmt_error, record { buf = f.buf; overflow = true })
unfolding write_str
write_str-overflow s f h = ground arith

sends-fits : (t : Text) → length t ≤ capacity → sends t ≡ framed t
unfolding sends
sends-fits t h = ground arith

sends-overflow : (t : Text) → capacity < length t → sends t ≡ []
unfolding sends
sends-overflow t h = ground arith

le-or-lt : (n : ℕ) → (n ≤ capacity) ⊎ (capacity < n)
le-or-lt n = elim (Bool-cases (leb n capacity)) [
  | inl e ↦ inl (leb→le n capacity e)
  | inr e ↦ inr (ground arith)
]

-- What a write that has come to `x` lets the chain do.
unfoldable after :
    List Text → Result FmtError (Unit {0}) × FrameBuf → Result FmtError (Unit {0}) × FrameBuf
after rest x = elim x.0 [ ok _ ↦ write_pieces rest x.1 | err e ↦ (err e, x.1) ]

write_pieces-fits :
    (s : Text) (rest : List Text) (f : FrameBuf)
    → length f.buf + length s ≤ capacity
    → write_pieces (s ∷ rest) f
      ≡ write_pieces rest (record { buf = f.buf ++ s; overflow = f.overflow })
unfolding write_pieces after
write_pieces-fits s rest f h = ap (after rest) (write_str-fits s f h)

write_pieces-overflow :
    (s : Text) (rest : List Text) (f : FrameBuf)
    → capacity < length f.buf + length s
    → write_pieces (s ∷ rest) f ≡ (err fmt_error, record { buf = f.buf; overflow = true })
unfolding write_pieces after
write_pieces-overflow s rest f h = ap (after rest) (write_str-overflow s f h)

emit_frame-poisoned : (t : Text) → emit_frame (record { buf = t; overflow = true }) ≡ []
unfolding emit_frame
emit_frame-poisoned t = refl

write_nothing :
    (f : FrameBuf)
    → f.overflow ≡ false
    → length f.buf ≤ capacity
    → emit_frame (write_pieces [] f).1 ≡ sends (f.buf ++ joined [])
unfolding joined write_pieces emit_frame
write_nothing f n h = rw (append-nil f.buf, n, sends-fits f.buf h) refl

joined-longer :
    (s : Text) (rest : List Text) (f : FrameBuf)
    → capacity < length f.buf + length s
    → capacity < length (f.buf ++ joined (s ∷ rest))
unfolding joined
joined-longer s rest f lt =
    omega (arith, length-append f.buf (s ++ joined rest), length-append s (joined rest), lt)

write_pieces-sends :
    (ps : List Text) (f : FrameBuf)
    → f.overflow ≡ false
    → length f.buf ≤ capacity
    → emit_frame (write_pieces ps f).1 ≡ sends (f.buf ++ joined ps)
unfolding joined
write_pieces-sends [] f n h = write_nothing f n h
write_pieces-sends (s ∷ rest) f n h = elim (le-or-lt (length f.buf + length s)) [
  | inl le ↦
      ap (λ x. emit_frame x.1) (write_pieces-fits s rest f le)
      ∙ write_pieces-sends rest (record { buf = f.buf ++ s; overflow = f.overflow }) n
          (omega (arith, length-append f.buf s, le))
      ∙ ap sends (append_assoc f.buf s (joined rest))
  | inr lt ↦
      ap (λ x. emit_frame x.1) (write_pieces-overflow s rest f lt)
      ∙ emit_frame-poisoned f.buf
      ∙ sym (sends-overflow (f.buf ++ joined (s ∷ rest)) (joined-longer s rest f lt))
]

-- The body of a frame may be written in any pieces: the bytes sent are the frame of the whole text
-- when the whole text has at most 2048 bytes, and no byte at all when it has more.
pub emit_frame-write_pieces :
    (ps : List Text)
    → emit_frame (write_pieces ps new_frame_buf).1
      ≡ (if leb (length (joined ps)) capacity then framed (joined ps) else [])
unfolding sends
emit_frame-write_pieces ps = write_pieces-sends ps new_frame_buf refl (omega arith)

-- A chain of writes whose whole text fits succeeds, and appends it.
pub write_pieces-joined :
    (ps : List Text) (f : FrameBuf)
    → length f.buf + length (joined ps) ≤ capacity
    → write_pieces ps f ≡ (ok tt, record { buf = f.buf ++ joined ps; overflow = f.overflow })
unfolding joined write_pieces
write_pieces-joined [] f h = rw (append-nil f.buf) refl
write_pieces-joined (s ∷ rest) f h =
    write_pieces-fits s rest f (omega (arith, length-append s (joined rest), h))
    ∙ write_pieces-joined rest (record { buf = f.buf ++ s; overflow = f.overflow })
        (omega (arith, length-append f.buf s, length-append s (joined rest), h))
    ∙ ap (λ t. (ok tt, record { buf = t; overflow = f.overflow }))
        (append_assoc f.buf s (joined rest))

pub emit_frame-framed : (t : Text) → emit_frame (record { buf = t; overflow = false }) ≡ framed t
unfolding emit_frame
emit_frame-framed t = refl
