-- ===== src/Rpc/Request.antt =====
-- kernel/src/rpc.rs: reading one request frame from the serial line.
pub mod Polls
pub mod RoundTrip
use kernai.Base.{
  ℕ, zero, suc, ◌+◌, ◌*◌, Bool, true, false, ◌||◌, Option, none, some, [], ◌∷◌, ltb, ◌==◌,
  if◌then◌else◌,
}
use kernai.Text.{Text}
use kernai.Text.Utf8.{is_utf8}
use kernai.Kernel.{Kernel, getchar}

abbrev pub max_req : ℕ
max_req = 512

abbrev pub max_stall_waits : ℕ
max_stall_waits = 16

-- The loop of `getc_stall`, with the polls that are left to it.
unfoldable pub getc_from : ℕ → Kernel → Option ℕ × Kernel
getc_from zero k = (none, k)
getc_from (suc left) k =
    let (b, k') = getchar k in
    let rest = getc_from left k' in elim b [ some c ↦ (some c, k') | none ↦ rest ]

-- The first poll, and one more after each wait.
unfoldable pub getc_stall : Kernel → Option ℕ × Kernel
unfolding getc_from
getc_stall k = getc_from (max_stall_waits + 1) k

-- As many bytes as asked for, unless the line stalls.
unfoldable pub read_bytes : ℕ → Kernel → Option Text × Kernel
unfolding getc_stall
read_bytes zero k = (some [], k)
read_bytes (suc n) k =
    let (b, k1) = getc_stall k in
    let (rest, k2) = read_bytes n k1 in
    elim b [
      | none ↦ (none, k1)
      | some c ↦ elim rest [ none ↦ (none, k2) | some t ↦ (some (c ∷ t), k2) ]
    ]

-- `u32::from_le_bytes`
unfoldable pub from_le : Text → ℕ
from_le [] = 0
from_le (b ∷ s) = b + 256 * from_le s

-- The body of a frame whose length is plausible, if it is UTF-8.
unfoldable pub read_body : ℕ → Kernel → Option Text × Kernel
unfolding read_bytes is_utf8
read_body len k =
    let (body, k1) = read_bytes len k in
    if (len == 0) || ltb max_req len
    then (none, k)
    else elim body [ none ↦ (none, k1) | some t ↦ (if is_utf8 t then some t else none, k1) ]

-- `read_request` up to the text of the request: the second magic byte, the length, the body.
unfoldable pub read_frame : Kernel → Option Text × Kernel
unfolding getc_stall read_bytes read_body from_le
read_frame k =
    let (magic, k1) = getc_stall k in
    let (length_bytes, k2) = read_bytes 4 k1 in
    elim magic [
      | none ↦ (none, k1)
      | some m ↦
          if m == 0x99
          then elim length_bytes [ none ↦ (none, k2) | some lb ↦ read_body (from_le lb) k2 ]
          else (none, k1)
    ]
