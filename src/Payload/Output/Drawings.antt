-- ===== src/Payload/Output/Drawings.antt =====
-- kernel/src/payload.rs: what `blit` draws.
use kernai.Base.{ℕ, ◌+◌, ◌*◌, ◌%◌, ◌^◌, ◌≡◌, some, List, [], ◌∷◌}
use kernai.Text.{Text}
use kernai.Frames.{Pool}
use kernai.Mm.{AddressSpace, copy_from_user}
use kernai.Kernel.{Kernel}
use kernai.Payload.Output.{blit_row, add_to_checksum}

-- The rows, each of `w` bytes, that the payload may read one after the other from row `y` on.
abbrev pub AreRows : ℕ → AddressSpace → ℕ → ℕ → Pool → List Text → Type 0
AreRows y space ptr w p [] = Unit
AreRows y space ptr w p (row ∷ rows) =
    (copy_from_user space ((ptr + y * w) % 2 ^ 64) w p ≡ some row)
    × AreRows (y + 1) space ptr w p rows

abbrev pub drawn : List Text → List Text
drawn [] = []
drawn (row ∷ rows) = blit_row row ∷ drawn rows

-- The checksum over the rows.
abbrev pub checksum_of : List Text → ℕ → ℕ
checksum_of [] h = h
checksum_of (row ∷ rows) h = checksum_of rows (add_to_checksum row h)
