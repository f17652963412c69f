-- ===== src/Tests/Spaces.antt =====
-- Address spaces at concrete inputs (kernel/src/mm.rs).
use kernai.Base.{
  ℕ, zero, suc, ◌+◌, ◌%◌, ◌≡◌, ◌<◌, ◌==◌, refl, List, [], ◌∷◌, some, arith, ok, if◌then◌else◌,
}
use kernai.Hal.{pool_base, usize_mod}
use kernai.Frames.{Pool}
use kernai.Mm.{user_read, translate_checked, walk, map_kernel, copy_from_user, kernel_gigapage_va}
use kernai.Mm.Access.{
  translate_checked-eq-walk, resolve, last_entry, translate_checked-Grants, Grants,
}
use kernai.Mm.Copy.{copy_from_user-Copied, Copied}
use kernai.Mm.Copy.Total.{Readable, copy_from_user_total}
use kernai.Tests.Memory.{empty_pool}

-- A root at the pool's first frame whose entry 0 is a leaf for the gigapage at 2 GiB, open to the
-- user for reads; all other bytes are 0 but the two at 0x8050_0000.
abbrev pub mapped_byte : ℕ → ℕ
mapped_byte a =
    if a == pool_base
    then 0x13
    else (if a == pool_base + 3
        then 0x20
        else (if a == 0x8050_0000 then 0x41 else (if a == 0x8050_0001 then 0x42 else 0)))

abbrev pub mapped : Pool
mapped = record empty_pool { mem = mapped_byte }

translated : translate_checked pool_base 0x50_0000 user_read mapped ≡ some 0x8050_0000
unfolding translate_checked kernai.Mm.read_pte kernai.Hal.phys_read_u64 kernai.Mm.vpn
    kernai.Mm.pte_pa
translated = refl

pub copied : copy_from_user pool_base 0x50_0000 2 mapped ≡ some (0x41 ∷ 0x42 ∷ [])
unfolding copy_from_user translate_checked kernai.Mm.read_pte kernai.Hal.phys_read_u64 kernai.Mm.vpn
    kernai.Hal.phys_read kernai.Mm.pte_pa
copied = refl

second_translated : translate_checked pool_base 0x50_0001 user_read mapped ≡ some 0x8050_0001
unfolding translate_checked kernai.Mm.read_pte kernai.Hal.phys_read_u64 kernai.Mm.vpn
    kernai.Mm.pte_pa
second_translated = refl

readable : (i : ℕ) → i < 2 → Readable pool_base mapped ((0x50_0000 + i) % usize_mod)
readable zero l = (0x8050_0000, translated, omega arith, omega arith)
readable (suc zero) l = (0x8050_0001, second_translated, omega arith, omega arith)
readable (suc (suc i)) l = absurd (omega arith)

abbrev with_kernel : Pool
with_kernel = (map_kernel pool_base empty_pool).1

kernel_mapped : map_kernel pool_base empty_pool ≡ (ok tt, with_kernel)
unfolding map_kernel kernai.Mm.read_pte kernai.Hal.phys_read_u64 kernai.Mm.vpn
kernel_mapped = refl

translate_checked-eq-walk_example :
    translate_checked pool_base 0x50_0000 user_read mapped
    ≡ resolve 0x50_0000 user_read (last_entry (walk pool_base 0x50_0000 mapped))
translate_checked-eq-walk_example = translate_checked-eq-walk pool_base 0x50_0000 user_read mapped

translate_checked-Grants_example :
    (level : ℕ) × (pte : ℕ) × (last_entry (walk pool_base 0x50_0000 mapped) ≡ some (level, pte))
    × Grants user_read 0x50_0000 0x8050_0000 level pte
translate_checked-Grants_example =
    translate_checked-Grants pool_base 0x50_0000 user_read 0x8050_0000 mapped (λ e. omega arith)
      translated

copy_from_user-Copied_example : Copied pool_base mapped 0x50_0000 2 (0x41 ∷ 0x42 ∷ [])
copy_from_user-Copied_example =
    copy_from_user-Copied pool_base 0x50_0000 2 mapped (0x41 ∷ 0x42 ∷ []) (omega arith) copied

copy_from_user_total_example :
    (bs : List ℕ) × (copy_from_user pool_base 0x50_0000 2 mapped ≡ some bs)
copy_from_user_total_example =
    copy_from_user_total pool_base 0x50_0000 2 mapped (omega arith) readable
