-- ===== src/Hal.antt =====
-- kernel/src/hal/boot.rs: the bounds-checked accessors of the physical frame pool.
-- The RAM is a function from a physical address to its byte; an access that leaves the pool
-- changes nothing and answers false (or none).
pub mod Memory
use kernai.Base.{
  ℕ, zero, suc, ◌+◌, ◌-◌, ◌*◌, ◌/◌, ◌%◌, ◌^◌, Bool, true, false, ◌||◌, Option, none, some, List, [],
  ◌∷◌, ltb, leb, ◌==◌, if◌then◌else◌, length, get_or, not,
}

abbrev pub usize_mod : ℕ
usize_mod = 2 ^ 64

abbrev pub pool_base : ℕ
pool_base = 0x8040_0000

abbrev pub pool_end : ℕ
pool_end = 0x8800_0000

abbrev pub Mem : Type 0
Mem = ℕ → ℕ

-- `pool_ptr`: the address, if the whole range lies in the pool; `checked_add` refuses a wrap.
unfoldable pub pool_ptr : ℕ → ℕ → Option ℕ
pool_ptr pa len =
    if leb usize_mod (pa + len)
    then none
    else if ltb pa pool_base || ltb pool_end (pa + len)
    then none
    else some pa

-- The bytes of `bs` laid over the memory from address `pa` on.
unfoldable pub overlay : ℕ → List ℕ → Mem → Mem
overlay pa bs m a =
    if ltb a pa then m a else if ltb (a - pa) (length bs) then get_or bs (a - pa) 0 else m a

unfoldable pub phys_write : ℕ → List ℕ → Mem → Bool × Mem
unfolding pool_ptr
phys_write pa bytes m = elim (pool_ptr pa (length bytes)) [
  | some dst ↦ (true, overlay dst bytes m)
  | none ↦ (false, m)
]

unfoldable pub phys_zero : ℕ → ℕ → Mem → Bool × Mem
unfolding pool_ptr
phys_zero pa len m = elim (pool_ptr pa len) [
  | some dst ↦ (true, λ a. if ltb a dst then m a else if ltb a (dst + len) then 0 else m a)
  | none ↦ (false, m)
]

-- The `len` bytes from address `pa` on.
unfoldable pub bytes_at : Mem → ℕ → ℕ → List ℕ
bytes_at m pa zero = []
bytes_at m pa (suc len) = m pa ∷ bytes_at m (pa + 1) len

-- What is read into a buffer of `len` bytes.
unfoldable pub phys_read : ℕ → ℕ → Mem → Option (List ℕ)
unfolding pool_ptr bytes_at
phys_read pa len m = elim (pool_ptr pa len) [ some src ↦ some (bytes_at m src len) | none ↦ none ]

-- The little-endian word of eight bytes.
unfoldable pub word_at : Mem → ℕ → ℕ
word_at m pa =
    m pa
    + 2 ^ 8 * m (pa + 1)
    + 2 ^ 16 * m (pa + 2)
    + 2 ^ 24 * m (pa + 3)
    + 2 ^ 32 * m (pa + 4)
    + 2 ^ 40 * m (pa + 5)
    + 2 ^ 48 * m (pa + 6)
    + 2 ^ 56 * m (pa + 7)

abbrev pub byte_of : ℕ → ℕ → ℕ
byte_of v k = v / 2 ^ k % 2 ^ 8

-- `to_le_bytes` of a u64.
unfoldable pub le_bytes : ℕ → List ℕ
le_bytes v =
    byte_of v 0
    ∷ byte_of v 8
    ∷ byte_of v 16
    ∷ byte_of v 24
    ∷ byte_of v 32
    ∷ byte_of v 40
    ∷ byte_of v 48
    ∷ byte_of v 56
    ∷ []

unfoldable pub phys_read_u64 : ℕ → Mem → Option ℕ
unfolding pool_ptr word_at
phys_read_u64 pa m =
    if not (pa % 8 == 0)
    then none
    else elim (pool_ptr pa 8) [ some ptr ↦ some (word_at m ptr) | none ↦ none ]

unfoldable pub phys_write_u64 : ℕ → ℕ → Mem → Bool × Mem
unfolding pool_ptr overlay le_bytes
phys_write_u64 pa val m = if not (pa % 8 == 0) then (false, m) else elim (pool_ptr pa 8) [
  | some ptr ↦ (true, overlay ptr (le_bytes val) m)
  | none ↦ (false, m)
]
