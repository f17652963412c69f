-- ===== src/Rpc/Dispatch/Dropped.antt =====
-- kernel/src/rpc.rs: frames that are no request.
use kernai.Base.{
  ℕ, ◌≤◌, ◌<◌, ◌^◌, ◌≡◌, ◌≢◌, ◌⊎◌, inl, inr, ap, ◌∙◌, refl, true, false, ◌||◌, Option, none, some,
  List, [], ◌∷◌, ◌++◌, zero, suc, length, replicate, ◌==◌, ltb, arith, if◌then◌else◌,
}
use kernai.Text.{Text}
use kernai.Text.Utf8.{is_utf8, trim_start}
use kernai.Console.{le_u32}
use kernai.Payload.Images.{Build}
use kernai.Rpc.Request.{max_req, getc_from, getc_stall, read_bytes, read_body, read_frame}
use kernai.Rpc.Request.Polls.{with_rx}
use kernai.Rpc.Request.RoundTrip.{
  arriving, getc_stall-arriving, read_bytes-arriving, read_body-plausible, checked_body-utf8,
  from_le-le_u32, more_bytes, add_byte, checked_body, past_length, past_magic,
}
use kernai.Rpc.Tools.{Verdict, served}
use kernai.Rpc.Dispatch.{read_request, starts_object, dispatch}
use kernai.Kernel.{Kernel, getchar}

-- A line on which 17 polls in a row find no byte.
abbrev pub stalled : List (Option ℕ) → List (Option ℕ)
stalled rest = replicate 17 none ++ rest

-- What arrives after the byte 0xAA and is no request, and what is left of the line when the reader
-- gives up.
pub data Drops : List (Option ℕ) → List (Option ℕ) → Type 0 where
  no_magic : (rest : List (Option ℕ)) → Drops (stalled rest) rest
  wrong_magic : (m : ℕ) (rest : List (Option ℕ)) → m ≢ 0x99 → Drops (some m ∷ rest) rest
  short_length :
      (q : Text) (rest : List (Option ℕ))
      → length q < 4
      → Drops (some 0x99 ∷ arriving q (stalled rest)) rest
  wrong_length :
      (n : ℕ) (rest : List (Option ℕ))
      → n < 2 ^ 32
      → (n ≡ 0) ⊎ (512 < n)
      → Drops (some 0x99 ∷ arriving (le_u32 n) rest) rest
  short_body :
      (n : ℕ) (q : Text) (rest : List (Option ℕ))
      → n ≤ 512
      → length q < n
      → Drops (some 0x99 ∷ arriving (le_u32 n) (arriving q (stalled rest))) rest
  not_utf8 :
      (t : Text) (rest : List (Option ℕ))
      → 0 < length t
      → length t ≤ 512
      → is_utf8 t ≡ false
      → Drops (some 0x99 ∷ arriving (le_u32 (length t)) (arriving t rest)) rest
  no_object :
      (t : Text) (rest : List (Option ℕ))
      → 0 < length t
      → length t ≤ 512
      → is_utf8 t ≡ true
      → starts_object (trim_start t) ≡ false
      → Drops (some 0x99 ∷ arriving (le_u32 (length t)) (arriving t rest)) rest

getc_stall-stalled :
    (rest : List (Option ℕ)) (k : Kernel)
    → getc_stall (with_rx k (stalled rest)) ≡ (none, with_rx k rest)
unfolding getc_stall getc_from getchar
getc_stall-stalled rest k = refl

read_bytes-stalled :
    (n : ℕ) (q : Text) (rest : List (Option ℕ)) (k : Kernel)
    → length q < n
    → read_bytes n (with_rx k (arriving q (stalled rest))) ≡ (none, with_rx k rest)
unfolding read_bytes more_bytes add_byte
read_bytes-stalled zero q rest k l = absurd (omega arith)
read_bytes-stalled (suc n) [] rest k l = ap (more_bytes n) (getc_stall-stalled rest k)
read_bytes-stalled (suc n) (b ∷ q) rest k l =
    ap (more_bytes n) (getc_stall-arriving b (arriving q (stalled rest)) k)
    ∙ ap (add_byte b) (read_bytes-stalled n q rest k (omega arith))

-- The reader has come past the magic byte.
read_frame-magic :
    (rx : List (Option ℕ)) (k : Kernel)
    → read_frame (with_rx k (some 0x99 ∷ rx)) ≡ past_length (read_bytes 4 (with_rx k rx))
unfolding read_frame past_magic past_length
read_frame-magic rx k = ap past_magic (getc_stall-arriving 0x99 rx k)

-- The reader has come past the length.
read_frame-length :
    (n : ℕ) (rx : List (Option ℕ)) (k : Kernel)
    → n < 2 ^ 32
    → read_frame (with_rx k (some 0x99 ∷ arriving (le_u32 n) rx)) ≡ read_body n (with_rx k rx)
unfolding past_length le_u32
read_frame-length n rx k l =
    read_frame-magic (arriving (le_u32 n) rx) k
    ∙ ap past_length (read_bytes-arriving (le_u32 n) rx k)
    ∙ ap (λ m. read_body m (with_rx k rx)) (from_le-le_u32 n l)

read_body-length : (n : ℕ) (k : Kernel) → (n ≡ 0) ⊎ (512 < n) → read_body n k ≡ (none, k)
unfolding read_body
read_body-length n k h = rw implausible refl
  where
    implausible : ((n == 0) || ltb max_req n) ≡ true
    implausible = elim h [ inl e ↦ ground arith | inr l ↦ ground arith ]

-- What `read_request` does with what the reader has read.
unfoldable answer : Build → Option Text × Kernel → Verdict × Kernel
answer b (json, k) = elim json [
  | none ↦ (served, k)
  | some t ↦ if starts_object (trim_start t) then dispatch b t k else (served, k)
]

read_request-answer : (b : Build) (k : Kernel) → read_request b k ≡ answer b (read_frame k)
unfolding read_request answer
read_request-answer b k = refl

answer-none : (b : Build) (k : Kernel) → answer b (none, k) ≡ (served, k)
unfolding answer
answer-none b k = refl

answer-no_object :
    (b : Build) (t : Text) (k : Kernel)
    → starts_object (trim_start t) ≡ false
    → answer b (some t, k) ≡ (served, k)
unfolding answer
answer-no_object b t k e = rw e refl

checked_body-refused :
    (t : Text) (k : Kernel) → is_utf8 t ≡ false → checked_body (some t, k) ≡ (none, k)
unfolding checked_body
checked_body-refused t k u = rw u refl

past_magic-wrong : (m : ℕ) (k : Kernel) → m ≢ 0x99 → past_magic (some m, k) ≡ (none, k)
unfolding past_magic
past_magic-wrong m k n = let other : (m == 0x99) ≡ false = ground arith in rw other refl

read_frame-Dropped :
    (b : Build) (k : Kernel) (line rest : List (Option ℕ))
    → Drops line rest
    → answer b (read_frame (with_rx k line)) ≡ (served, with_rx k rest)
unfolding read_frame past_magic past_length checked_body
read_frame-Dropped b k _ _ (no_magic rest) =
    ap (λ x. answer b (past_magic x)) (getc_stall-stalled rest k) ∙ answer-none b (with_rx k rest)
read_frame-Dropped b k _ _ (wrong_magic m rest n) =
    ap (λ x. answer b (past_magic x)) (getc_stall-arriving m rest k)
    ∙ ap (answer b) (past_magic-wrong m (with_rx k rest) n)
    ∙ answer-none b (with_rx k rest)
read_frame-Dropped b k _ _ (short_length q rest l) =
    ap (answer b) (
      read_frame-magic (arriving q (stalled rest)) k
      ∙ ap past_length (read_bytes-stalled 4 q rest k l))
    ∙ answer-none b (with_rx k rest)
read_frame-Dropped b k _ _ (wrong_length n rest l h) =
    ap (answer b) (read_frame-length n rest k l ∙ read_body-length n (with_rx k rest) h)
    ∙ answer-none b (with_rx k rest)
read_frame-Dropped b k _ _ (short_body n q rest h l) =
    ap (answer b) (
      read_frame-length n (arriving q (stalled rest)) k (omega (arith, h))
      ∙ read_body-plausible n (with_rx k (arriving q (stalled rest))) (omega (arith, l)) h
      ∙ ap checked_body (read_bytes-stalled n q rest k l))
    ∙ answer-none b (with_rx k rest)
read_frame-Dropped b k _ _ (not_utf8 t rest p h u) =
    ap (answer b) (
      read_frame-length (length t) (arriving t rest) k (omega (arith, h))
      ∙ read_body-plausible (length t) (with_rx k (arriving t rest)) p h
      ∙ ap checked_body (read_bytes-arriving t rest k)
      ∙ checked_body-refused t (with_rx k rest) u)
    ∙ answer-none b (with_rx k rest)
read_frame-Dropped b k _ _ (no_object t rest p h u o) =
    ap (answer b) (
      read_frame-length (length t) (arriving t rest) k (omega (arith, h))
      ∙ read_body-plausible (length t) (with_rx k (arriving t rest)) p h
      ∙ ap checked_body (read_bytes-arriving t rest k)
      ∙ checked_body-utf8 t (with_rx k rest) u)
    ∙ answer-no_object b t (with_rx k rest) o

-- What arrives and is no request is dropped without an answer, and only its polls are gone: a line
-- that stalls for 17 polls before the second magic byte, in the length or in the body; a wrong
-- second magic byte; a length of 0 or above 512, up to 2^32; a body that is no UTF-8; a body that
-- does not begin with an object.
pub read_request-dropped :
    (b : Build) (k : Kernel) (line rest : List (Option ℕ))
    → Drops line rest
    → read_request b (with_rx k line) ≡ (served, with_rx k rest)
read_request-dropped b k line rest d =
    read_request-answer b (with_rx k line) ∙ read_frame-Dropped b k line rest d
