-- ===== src/Tests/Mappings.antt =====
-- Address spaces at concrete inputs (kernel/src/mm.rs).
use kernai.Base.{ap, none, [], ◌∷◌, ◌%◌, ℕ, ◌+◌, ◌≡◌, refl, false, some, ok, arith}
use kernai.Hal.{pool_base}
use kernai.Frames.{Pool}
use kernai.Mm.{
  map_page, translate_checked, user_read, refuses, page_size, map_kernel, copy_from_user, has,
  perm_mask, new_space,
}
use kernai.Mm.Tables.{IsTable}
use kernai.Mm.Grows.{new_space-IsTable}
use kernai.Mm.Maps.{IsMapping}
use kernai.Mm.Translates.{
  translate_checked-map_page, translate_checked-map_page_kept, map_page-IsTable,
}
use kernai.Mm.Isolates.{map_pages, copy_from_user-map_pages}
use kernai.Tests.Memory.{empty_pool, one_taken, first_alloc}

-- A page of code at 1 GiB, in the frame behind the tables, that the payload may read and run.
abbrev code : ℕ
code = pool_base + 0x10_000

abbrev user_code : ℕ
user_code = 26

root-IsTable : IsTable 2 pool_base one_taken
root-IsTable = (new_space-IsTable empty_pool one_taken pool_base first_space).0
  where
    first_space : new_space empty_pool ≡ some (pool_base, one_taken)
    first_space = unfold new_space in first_alloc

code-IsMapping : IsMapping code user_code
code-IsMapping = record {
  aligned = refl;
  physical = omega arith;
  flags = omega arith;
  accessible = refl;
}

readable : refuses user_code user_read ≡ false
unfolding refuses
readable = refl

mapped : (map_page pool_base 0x4000_0000 code user_code one_taken).0 ≡ ok tt
unfolding map_page kernai.Mm.read_pte kernai.Mm.write_pte kernai.Hal.phys_read_u64
    kernai.Hal.phys_write_u64 kernai.Mm.vpn kernai.Mm.nonleaf kernai.Mm.pte_pa kernai.Frames.alloc
    kernai.Frames.alloc_from kernai.Frames.take_frame kernai.Frames.test kernai.Hal.phys_zero
mapped = refl

abbrev after : Pool
after = (map_page pool_base 0x4000_0000 code user_code one_taken).1

translate_checked-map_page_example :
    translate_checked pool_base 0x4000_0abc user_read after ≡ some (code + 0x4000_0abc % page_size)
translate_checked-map_page_example =
    translate_checked-map_page pool_base 0x4000_0000 0x4000_0abc code user_code user_read one_taken
      after root-IsTable code-IsMapping (omega arith) readable (omega arith)
      (ap (λ r. (r, after)) mapped)

map_page-IsTable_example : IsTable 2 pool_base after
map_page-IsTable_example =
    map_page-IsTable pool_base 0x4000_0000 code user_code pool_base one_taken root-IsTable
      code-IsMapping root-IsTable

-- A page of the next GiB is mapped to the same frame.
after-IsTable : IsTable 2 pool_base after
after-IsTable =
    map_page-IsTable pool_base 0x4000_0000 code user_code pool_base one_taken root-IsTable
      code-IsMapping root-IsTable

at_code : translate_checked pool_base 0x4000_0000 user_read after ≡ some code
at_code =
    translate_checked-map_page pool_base 0x4000_0000 0x4000_0000 code user_code user_read one_taken
      after root-IsTable code-IsMapping (omega arith) readable refl (ap (λ r. (r, after)) mapped)

translate_checked-map_page_kept_example :
    translate_checked pool_base 0x4000_0000 user_read
      (map_page pool_base 0x8000_0000 code user_code after).1
    ≡ some code
translate_checked-map_page_kept_example =
    translate_checked-map_page_kept pool_base 0x8000_0000 code user_code pool_base 0x4000_0000
      user_read code after after-IsTable code-IsMapping after-IsTable at_code

abbrev with_kernel : Pool
with_kernel = (map_kernel pool_base one_taken).1

kernel_mapped : map_kernel pool_base one_taken ≡ (ok tt, with_kernel)
unfolding map_kernel kernai.Mm.read_pte kernai.Hal.phys_read_u64 kernai.Mm.vpn kernai.Hal.phys_zero
    kernai.Frames.take_frame
kernel_mapped = refl

copy_from_user-map_pages_example :
    copy_from_user pool_base 0x8000_1000 4 (
      map_pages pool_base
        (record { va = 0x4000_0000; pa = code; perms = user_code } ∷ [])
        with_kernel)
    ≡ none
copy_from_user-map_pages_example =
    copy_from_user-map_pages pool_base 0x8000_1000 4
      (record { va = 0x4000_0000; pa = code; perms = user_code } ∷ []) one_taken with_kernel
      root-IsTable (code-IsMapping, tt) kernel_mapped (omega arith) (omega arith) (omega arith)
