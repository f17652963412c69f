-- ===== src/Rpc/Request/RoundTrip.antt =====
-- kernel/src/console.rs and kernel/src/rpc.rs: the reader of requests undoes the framing.
use kernai.Base.{
  ℕ, ◌^◌, ◌≤◌, ◌<◌, ◌≡◌, refl, ap, ◌∙◌, true, false, ◌||◌, Option, none, some, List, [], ◌∷◌, ◌++◌,
  length, drop, if◌then◌else◌, arith, ltb, ◌==◌,
}
use kernai.Text.{Text}
use kernai.Text.Utf8.{is_utf8}
use kernai.Console.{le_u32, framed}
use kernai.Rpc.Request.{max_req, getc_from, getc_stall, read_bytes, from_le, read_body, read_frame}
use kernai.Rpc.Request.Polls.{with_rx}
use kernai.Kernel.{Kernel, getchar}

-- The answers of the polls while a text arrives, each byte when it is polled for.
abbrev pub arriving : Text → List (Option ℕ) → List (Option ℕ)
arriving [] rest = rest
arriving (b ∷ s) rest = some b ∷ arriving s rest

arriving-append :
    (s t : Text) (rest : List (Option ℕ)) → arriving (s ++ t) rest ≡ arriving s (arriving t rest)
arriving-append [] t rest = refl
arriving-append (b ∷ s) t rest = ap (λ r. some b ∷ r) (arriving-append s t rest)

pub getc_stall-arriving :
    (b : ℕ) (rest : List (Option ℕ)) (k : Kernel)
    → getc_stall (with_rx k (some b ∷ rest)) ≡ (some b, with_rx k rest)
unfolding getc_stall getc_from getchar
getc_stall-arriving b rest k = refl

-- The rest of `read_bytes` once its first byte has come, or not.
unfoldable pub more_bytes : ℕ → Option ℕ × Kernel → Option Text × Kernel
unfolding read_bytes
more_bytes n (b, k1) =
    let (rest, k2) = read_bytes n k1 in
    elim b [
      | none ↦ (none, k1)
      | some c ↦ elim rest [ none ↦ (none, k2) | some t ↦ (some (c ∷ t), k2) ]
    ]

unfoldable pub add_byte : ℕ → Option Text × Kernel → Option Text × Kernel
add_byte b (rest, k) = elim rest [ none ↦ (none, k) | some t ↦ (some (b ∷ t), k) ]

pub read_bytes-arriving :
    (t : Text) (rest : List (Option ℕ)) (k : Kernel)
    → read_bytes (length t) (with_rx k (arriving t rest)) ≡ (some t, with_rx k rest)
unfolding read_bytes more_bytes add_byte
read_bytes-arriving [] rest k = refl
read_bytes-arriving (b ∷ t) rest k =
    ap (more_bytes (length t)) (getc_stall-arriving b (arriving t rest) k)
    ∙ ap (add_byte b) (read_bytes-arriving t rest k)

pub from_le-le_u32 : (n : ℕ) → n < 2 ^ 32 → from_le (le_u32 n) ≡ n
unfolding from_le le_u32
from_le-le_u32 n h = omega arith

-- The rest of `read_body` once its bytes have come, or not.
unfoldable pub checked_body : Option Text × Kernel → Option Text × Kernel
unfolding is_utf8
checked_body (body, k) = elim body [
  | none ↦ (none, k)
  | some t ↦ (if is_utf8 t then some t else none, k)
]

pub read_body-plausible :
    (n : ℕ) (k : Kernel) → 0 < n → n ≤ max_req → read_body n k ≡ checked_body (read_bytes n k)
unfolding read_body checked_body
read_body-plausible n k p h = rw plausible refl
  where
    plausible : ((n == 0) || ltb max_req n) ≡ false
    plausible = ground arith

pub checked_body-utf8 :
    (t : Text) (k : Kernel) → is_utf8 t ≡ true → checked_body (some t, k) ≡ (some t, k)
unfolding checked_body
checked_body-utf8 t k u = rw u refl

read_body-arriving :
    (t : Text) (rest : List (Option ℕ)) (k : Kernel)
    → 0 < length t
    → length t ≤ max_req
    → is_utf8 t ≡ true
    → read_body (length t) (with_rx k (arriving t rest)) ≡ (some t, with_rx k rest)
read_body-arriving t rest k p h u =
    read_body-plausible (length t) (with_rx k (arriving t rest)) p h
    ∙ ap checked_body (read_bytes-arriving t rest k)
    ∙ checked_body-utf8 t (with_rx k rest) u

-- The rest of `read_frame` after the magic byte, and after the length.
unfoldable pub past_length : Option Text × Kernel → Option Text × Kernel
unfolding read_body from_le
past_length (lb, k) = elim lb [ none ↦ (none, k) | some l ↦ read_body (from_le l) k ]

unfoldable pub past_magic : Option ℕ × Kernel → Option Text × Kernel
unfolding read_bytes past_length
past_magic (magic, k) = elim magic [
  | none ↦ (none, k)
  | some m ↦ if m == 0x99 then past_length (read_bytes 4 k) else (none, k)
]

-- A text of 1 to 512 bytes of UTF-8 that arrives in the frame in which the console sends a text
-- comes out of the reader as it is, and the reader leaves the rest of the line alone; the first
-- byte of the frame is the one on which the reader is called.
pub read_frame-framed :
    (t : Text) (rest : List (Option ℕ)) (k : Kernel)
    → 0 < length t
    → length t ≤ max_req
    → is_utf8 t ≡ true
    → read_frame (with_rx k (arriving (drop 1 (framed t)) rest)) ≡ (some t, with_rx k rest)
unfolding read_frame framed past_magic past_length
read_frame-framed t rest k p h u =
    ap past_magic (getc_stall-arriving 0x99 (arriving (le_u32 (length t) ++ t) rest) k)
    ∙ ap (λ r. past_length (read_bytes 4 (with_rx k r)))
        (arriving-append (le_u32 (length t)) t rest)
    ∙ ap past_length (read_bytes-arriving (le_u32 (length t)) (arriving t rest) k)
    ∙ ap (λ n. read_body n (with_rx k (arriving t rest)))
        (from_le-le_u32 (length t) (omega (arith, h)))
    ∙ read_body-arriving t rest k p h u
