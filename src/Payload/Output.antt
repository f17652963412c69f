-- ===== src/Payload/Output.antt =====
-- kernel/src/payload.rs: `blit`, the full frames and their base64.
pub mod Bounds
pub mod Drawings
use kernai.Base.{
  ℕ, zero, suc, ◌+◌, ◌-◌, ◌*◌, ◌/◌, ◌%◌, ◌^◌, Bool, true, false, not, ◌||◌, Option, none, some,
  List, [], ◌∷◌, ◌++◌, bit_xor, ◌==◌, ltb, leb, if◌then◌else◌, length, get_or,
}
use kernai.Text.{Text, bytes_of, joined, comma_separated}
use kernai.Text.Numbers.{decimal, hex}
use kernai.Console.{capacity, json_escaped_bytes}
use kernai.Frames.{Pool}
use kernai.Mm.{AddressSpace, copy_from_user}
use kernai.Payload.Slot.{Cap}
use kernai.Payload.Table.{current_has, current_space, emit_denied}
use kernai.Payload.Checkpoint.{einval, enocap, efault}
use kernai.Rpc.Ops.{fnv_offset, fnv_prime}
use kernai.Kernel.{Kernel, Body, take_id, emit_as}

-- The text of a `payload_output` event.
unfoldable pub output_text : ℕ → ℕ → ℕ → Text → Text
unfolding bytes_of joined decimal json_escaped_bytes
output_text id pid caused_by bytes = joined (
    bytes_of "{\"id\":"
    ∷ decimal id
    ∷ bytes_of ",\"type\":\"payload_output\",\"pid\":"
    ∷ decimal pid
    ∷ bytes_of ",\"untrusted\":true,\"caused_by\":"
    ∷ decimal caused_by
    ∷ bytes_of ",\"len\":"
    ∷ decimal (length bytes)
    ∷ bytes_of ",\"data\":\""
    ∷ json_escaped_bytes bytes
    ∷ bytes_of "\"}"
    ∷ [])

abbrev pub blit_maxw : ℕ
blit_maxw = 72

abbrev pub blit_maxh : ℕ
blit_maxh = 24

-- The glyphs, from dark to bright.
unfoldable pub ramp : Text
unfolding bytes_of
ramp = bytes_of " .:-=+*#%@"

unfoldable pub glyphs : Text → Text
unfolding ramp
glyphs [] = []
glyphs (v ∷ vs) = get_or ramp (v * 9 / 255) 0 ∷ glyphs vs

-- A row between its quotes.
unfoldable pub blit_row : Text → Text
unfolding glyphs
blit_row bytes = b'"' ∷ (glyphs bytes ++ (b'"' ∷ []))

unfoldable pub add_to_checksum : Text → ℕ → ℕ
add_to_checksum [] h = h
add_to_checksum (v ∷ vs) h = add_to_checksum vs (bit_xor h v * fnv_prime % 2 ^ 64)

-- The loop over the rows from `y` on, `left` of them: their texts and the checksum, or none if a
-- row cannot be read.
unfoldable pub blit_rows : ℕ → ℕ → AddressSpace → ℕ → ℕ → ℕ → Pool → Option (List Text × ℕ)
unfolding blit_row add_to_checksum
blit_rows zero y space ptr w h p = some ([], h)
blit_rows (suc left) y space ptr w h p = elim (copy_from_user space ((ptr + y * w) % 2 ^ 64) w p) [
  | none ↦ none
  | some bytes ↦ elim (blit_rows left (y + 1) space ptr w (add_to_checksum bytes h) p) [
    | none ↦ none
    | some (rows, h') ↦ some (blit_row bytes ∷ rows, h')
  ]
]

-- The text of a `frame` event.
unfoldable pub blit_text : ℕ → ℕ → ℕ → ℕ → List Text → ℕ → Text
unfolding bytes_of joined decimal hex comma_separated
blit_text id pid w h rows checksum = joined (
    bytes_of "{\"id\":"
    ∷ decimal id
    ∷ bytes_of ",\"type\":\"frame\",\"pid\":"
    ∷ decimal pid
    ∷ bytes_of ",\"untrusted\":true,\"w\":"
    ∷ decimal w
    ∷ bytes_of ",\"h\":"
    ∷ decimal h
    ∷ bytes_of ",\"rows\":["
    ∷ comma_separated rows
    ∷ bytes_of "],\"checksum\":\"0x"
    ∷ hex checksum
    ∷ bytes_of "\"}"
    ∷ [])

-- The frame under its id; one that overflows is not sent.
unfoldable pub send_blit : ℕ → ℕ → ℕ → List Text → ℕ → Kernel → ℕ × Kernel
unfolding blit_text
send_blit id w h rows checksum k =
    let text = blit_text id k.current w h rows checksum in
    if ltb capacity (length text) then (einval, k) else (0, emit_as id (Body.frame text) k)

-- The dimensions are in range, and the payload has an address space. The id is taken before the
-- rows are read.
unfoldable pub blit_in : AddressSpace → ℕ → ℕ → ℕ → Kernel → ℕ × Kernel
unfolding blit_rows send_blit
blit_in space ptr w h k =
    let (id, k1) = take_id k in
    elim (blit_rows h 0 space ptr w fnv_offset k1.pool) [
      | none ↦ (efault, k1)
      | some (rows, checksum) ↦ send_blit id w h rows checksum k1
    ]

unfoldable pub on_blit : ℕ → ℕ → ℕ → Kernel → ℕ × Kernel
unfolding blit_in
on_blit ptr w h k =
    if not (current_has Cap.write k)
    then (enocap, emit_denied (bytes_of "blit") Cap.write k)
    else (if (w == 0) || ((h == 0) || (ltb blit_maxw w || ltb blit_maxh h))
        then (einval, k)
        else elim (current_space k) [ none ↦ (einval, k) | some space ↦ blit_in space ptr w h k ])

unfoldable pub alphabet : Text
unfolding bytes_of
alphabet = bytes_of "ABCDEFGHIJKLMNOPQRSTUVWXYZabcdefghijklmnopqrstuvwxyz0123456789+/"

-- `ALPHABET[(i & 63) as usize]`
unfoldable pub digit64 : ℕ → ℕ
unfolding alphabet
digit64 i = get_or alphabet (i % 64) 0

-- `write_base64`: the chunks of three bytes, then the one or two that are left.
unfoldable pub base64 : Text → Text
unfolding digit64
base64 [] = []
base64 (a ∷ []) = let n = a * 65536 in digit64 (n / 262144) ∷ digit64 (n / 4096) ∷ b'=' ∷ b'=' ∷ []
base64 (a ∷ b ∷ []) =
    let n = a * 65536 + b * 256 in
    digit64 (n / 262144) ∷ digit64 (n / 4096) ∷ digit64 (n / 64) ∷ b'=' ∷ []
base64 (a ∷ b ∷ c ∷ rest) =
    let n = a * 65536 + b * 256 + c in
    digit64 (n / 262144) ∷ digit64 (n / 4096) ∷ digit64 (n / 64) ∷ digit64 n ∷ base64 rest

abbrev pub fb_chunk : ℕ
fb_chunk = 1440

-- The text of an `fbchunk` event.
unfoldable pub chunk_text : ℕ → ℕ → ℕ → Text → Text
unfolding bytes_of joined decimal base64
chunk_text id pid seq bytes = joined (
    bytes_of "{\"id\":"
    ∷ decimal id
    ∷ bytes_of ",\"type\":\"fbchunk\",\"pid\":"
    ∷ decimal pid
    ∷ bytes_of ",\"untrusted\":true,\"seq\":"
    ∷ decimal seq
    ∷ bytes_of ",\"n\":"
    ∷ decimal (length bytes)
    ∷ bytes_of ",\"data\":\""
    ∷ base64 bytes
    ∷ bytes_of "\"}"
    ∷ [])

unfoldable pub send_chunk : ℕ → Text → Kernel → ℕ × Kernel
unfolding chunk_text
send_chunk seq bytes k =
    let (id, k1) = take_id k in
    let text = chunk_text id k1.current seq bytes in
    if ltb capacity (length text) then (einval, k1) else (0, emit_as id (Body.fbchunk text) k1)

-- What follows once the operator's budget allows the chunk.
unfoldable pub read_chunk : ℕ → ℕ → ℕ → Kernel → ℕ × Kernel
unfolding send_chunk
read_chunk ptr len seq k =
    if (len == 0) || ltb fb_chunk len then (einval, k) else elim (current_space k) [
      | none ↦ (einval, k)
      | some space ↦ elim (copy_from_user space ptr len k.pool) [
        | none ↦ (efault, k)
        | some bytes ↦ send_chunk seq bytes k
      ]
    ]

unfoldable pub on_frame_rgb : ℕ → ℕ → ℕ → Kernel → ℕ × Kernel
unfolding read_chunk
on_frame_rgb ptr len seq k =
    if not (current_has Cap.write k)
    then (enocap, emit_denied (bytes_of "frame") Cap.write k)
    else (if k.traps.autonomous then (0, k) else read_chunk ptr len seq k)
