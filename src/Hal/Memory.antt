-- ===== src/Hal/Memory.antt =====
-- Reads after writes of the physical memory (kernel/src/hal/boot.rs).
use kernai.Base.{
  ℕ, ◌+◌, ◌-◌, ◌%◌, ◌^◌, ◌≤◌, ◌<◌, ◌≡◌, ◌≢◌, ◌⊎◌, inl, inr, ap, true, false, some, List, arith,
  length, get_or, ltb, lt→ltb,
}
use kernai.Hal.{
  Mem, pool_base, pool_end, pool_ptr, overlay, le_bytes, word_at, phys_read_u64, phys_write_u64,
}
use native.Mathlib.Nat.{add-zero}

-- An aligned word inside the pool.
abbrev pub IsSlot : ℕ → Type 0
IsSlot pa = (pa % 8 ≡ 0) × (pool_base ≤ pa) × (pa + 8 ≤ pool_end)

overlay_self :
    (pa : ℕ) (bs : List ℕ) (m : Mem) (i : ℕ)
    → i < length bs
    → overlay pa bs m (pa + i) ≡ get_or bs i 0
unfolding overlay
overlay_self pa bs m i h =
    let e : pa + i - pa ≡ i = omega arith in
    let f : ltb (pa + i) pa ≡ false = ground arith in rw (f, e, lt→ltb i (length bs) h)

-- Bytes outside the range keep their value.
pub overlay_ne :
    (pa : ℕ) (bs : List ℕ) (m : Mem) (a : ℕ)
    → (a < pa) ⊎ (pa + length bs ≤ a)
    → overlay pa bs m a ≡ m a
unfolding overlay
overlay_ne pa bs m a (inl h) = ground arith
overlay_ne pa bs m a (inr h) = ground arith

pub word_at-overlay : (pa v : ℕ) (m : Mem) → v < 2 ^ 64 → word_at (overlay pa (le_bytes v) m) pa ≡ v
unfolding word_at le_bytes
word_at-overlay pa v m h = omega (
  arith,
  overlay_self pa (le_bytes v) m 0 (omega arith),
  ap (λ a. overlay pa (le_bytes v) m a) (add-zero pa),
  overlay_self pa (le_bytes v) m 1 (omega arith),
  overlay_self pa (le_bytes v) m 2 (omega arith),
  overlay_self pa (le_bytes v) m 3 (omega arith),
  overlay_self pa (le_bytes v) m 4 (omega arith),
  overlay_self pa (le_bytes v) m 5 (omega arith),
  overlay_self pa (le_bytes v) m 6 (omega arith),
  overlay_self pa (le_bytes v) m 7 (omega arith),
)

pub word_at_congr :
    (m n : Mem) (pa : ℕ) → ((i : ℕ) → i < 8 → m (pa + i) ≡ n (pa + i)) → word_at m pa ≡ word_at n pa
unfolding word_at
word_at_congr m n pa h = omega (
  arith,
  h 0 (omega arith),
  ap m (add-zero pa),
  ap n (add-zero pa),
  h 1 (omega arith),
  h 2 (omega arith),
  h 3 (omega arith),
  h 4 (omega arith),
  h 5 (omega arith),
  h 6 (omega arith),
  h 7 (omega arith),
)

-- A word laid elsewhere leaves the word at `pb` alone.
pub word_at-overlay_ne :
    (pa pb v : ℕ) (m : Mem)
    → (pb + 8 ≤ pa) ⊎ (pa + 8 ≤ pb)
    → word_at (overlay pa (le_bytes v) m) pb ≡ word_at m pb
unfolding le_bytes
word_at-overlay_ne pa pb v m h =
    word_at_congr (overlay pa (le_bytes v) m) m pb
      (λ i l. overlay_ne pa (le_bytes v) m (pb + i) (apart i l))
  where
    apart : (i : ℕ) → i < 8 → (pb + i < pa) ⊎ (pa + length (le_bytes v) ≤ pb + i)
    apart i l = ground arith

pub pool_ptr-IsSlot : (pa : ℕ) → IsSlot pa → pool_ptr pa 8 ≡ some pa
unfolding pool_ptr
pool_ptr-IsSlot pa h = ground arith

pub phys_read_u64_lem : (pa : ℕ) (m : Mem) → IsSlot pa → phys_read_u64 pa m ≡ some (word_at m pa)
unfolding phys_read_u64
phys_read_u64_lem pa m h = ground (arith, pool_ptr-IsSlot pa h)

pub phys_write_u64_lem :
    (pa v : ℕ) (m : Mem) → IsSlot pa → phys_write_u64 pa v m ≡ (true, overlay pa (le_bytes v) m)
unfolding phys_write_u64
phys_write_u64_lem pa v m h = ground (arith, pool_ptr-IsSlot pa h)

-- A word written to a slot of the pool is what is read back from it.
pub phys_read_u64-phys_write_u64 :
    (pa v : ℕ) (m : Mem)
    → IsSlot pa
    → v < 2 ^ 64
    → phys_read_u64 pa (phys_write_u64 pa v m).1 ≡ some v
phys_read_u64-phys_write_u64 pa v m h k =
    rw (phys_write_u64_lem pa v m h, phys_read_u64_lem pa _ h, word_at-overlay pa v m k)

-- A write to one slot leaves every other slot alone.
pub phys_read_u64-phys_write_u64_ne :
    (pa pb v : ℕ) (m : Mem)
    → IsSlot pa
    → IsSlot pb
    → pa ≢ pb
    → phys_read_u64 pb (phys_write_u64 pa v m).1 ≡ phys_read_u64 pb m
phys_read_u64-phys_write_u64_ne pa pb v m h k ne = rw (
  phys_write_u64_lem pa v m h,
  phys_read_u64_lem pb _ k,
  phys_read_u64_lem pb m k,
  word_at-overlay_ne pa pb v m (ground arith),
)
