-- ===== src/Frames.antt =====
-- kernel/src/frames.rs: the bitmap allocator of 4 KiB frames.
-- `Pool` is the RAM with the three statics of the module; the bitmap is an array of u64 words,
-- read and written with the source's shifts and masks.
pub mod Bitmap
pub mod Alloc
pub mod Count
use kernai.Base.{
  ℕ, zero, suc, ◌+◌, ◌-◌, ◌*◌, ◌/◌, ◌%◌, ◌^◌, Bool, true, false, not, ◌||◌, Option, none, some,
  bit_and, bit_or, ltb, leb, ◌==◌, if◌then◌else◌,
}
use kernai.Hal.{Mem, usize_mod, pool_base, pool_end, phys_zero}

abbrev pub frame_size : ℕ
frame_size = 4096

abbrev pub pool_frames : ℕ
pool_frames = (pool_end - pool_base) / frame_size

pub record Pool : Type 0 where
  pub mem : Mem
  pub bitmap : ℕ → ℕ
  pub next_hint : ℕ
  pub allocated : ℕ

-- A store into an array of words.
abbrev pub store : (ℕ → ℕ) → ℕ → ℕ → ℕ → ℕ
store f i v j = if i == j then v else f j

-- `1 << (frame % 64)`.
abbrev pub mask_of : ℕ → ℕ
mask_of frame = 2 ^ (frame % 64)

unfoldable pub test : ℕ → Pool → Bool
test frame s = not (bit_and (s.bitmap (frame / 64)) (mask_of frame) == 0)

unfoldable pub set : ℕ → Pool → Pool
set frame s =
    let w = s.bitmap (frame / 64) in
    record s { bitmap = store s.bitmap (frame / 64) (bit_or w (mask_of frame)) }

-- `!m` on a u64 is `2^64 - 1 - m`.
unfoldable pub clear : ℕ → Pool → Pool
clear frame s =
    let w = s.bitmap (frame / 64) in
    record s { bitmap = store s.bitmap (frame / 64) (bit_and w (2 ^ 64 - 1 - mask_of frame)) }

-- The body of `alloc`'s loop on a frame that is free.
unfoldable pub take_frame : ℕ → Pool → ℕ × Pool
unfolding set
take_frame frame s =
    let s' = set frame s in
    let pa = pool_base + frame * frame_size in
    (
      pa,
      record s' {
        allocated = (s'.allocated + 1) % usize_mod;
        next_hint = frame + 1;
        mem = (phys_zero pa frame_size s'.mem).1;
      },
    )

-- The loop `for i in 0..POOL_FRAMES`, with the rounds that are left.
unfoldable pub alloc_from : ℕ → ℕ → ℕ → Pool → Option (ℕ × Pool)
alloc_from zero i start s = none
alloc_from (suc rounds) i start s =
    let rest = alloc_from rounds (i + 1) start s in
    let frame = (start + i) % pool_frames in
    if not (test frame s) then some (take_frame frame s) else rest

unfoldable pub alloc : Pool → Option (ℕ × Pool)
alloc s = alloc_from pool_frames 0 (s.next_hint % pool_frames) s

-- The second half of `free`: an allocated frame goes back to the pool.
unfoldable pub free_frame : ℕ → Pool → Pool
unfolding clear
free_frame frame s =
    let s' = clear frame s in
    if test frame s then record s' { allocated = (s'.allocated + usize_mod - 1) % usize_mod } else s

unfoldable pub free : ℕ → Pool → Pool
unfolding free_frame
free pa s =
    if (ltb pa pool_base || leb pool_end pa) || not ((pa - pool_base) % frame_size == 0)
    then s
    else free_frame ((pa - pool_base) / frame_size) s

unfoldable pub stats : Pool → ℕ × ℕ
stats s = (s.allocated, pool_frames)
