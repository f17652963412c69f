-- ===== src/Mm.antt =====
-- kernel/src/mm.rs: Sv39 page tables of 512 eight-byte entries, held in frames of the pool.
-- An `AddressSpace` is the physical address of its root table; every method takes the pool and
-- returns it changed.
pub mod Space
pub mod Access
pub mod Copy
pub mod Entries
pub mod Tables
pub mod Grows
pub mod Maps
pub mod Translates
pub mod Isolates
use kernai.Base.{
  ℕ, zero, suc, ◌+◌, ◌-◌, ◌*◌, ◌/◌, ◌%◌, ◌^◌, Bool, true, false, not, ◌||◌, ◌&&◌, Option, none,
  some, List, [], ◌∷◌, ◌++◌, bit_and, bit_or, ltb, leb, ◌==◌, if◌then◌else◌, min, length, Result,
  ok, err,
}
use kernai.Hal.{
  pool_base, pool_end, phys_read, phys_write, phys_read_u64, phys_write_u64, usize_mod,
}
use kernai.Frames.{Pool, alloc, free}

abbrev pub page_size : ℕ
page_size = 4096

-- The flag bits of a page-table entry.
abbrev pub valid_bit : ℕ
valid_bit = 1

abbrev pub read_bit : ℕ
read_bit = 2

abbrev pub write_bit : ℕ
write_bit = 4

abbrev pub execute_bit : ℕ
execute_bit = 8

abbrev pub user_bit : ℕ
user_bit = 16

abbrev pub global_bit : ℕ
global_bit = 32

abbrev pub accessed_bit : ℕ
accessed_bit = 64

abbrev pub dirty_bit : ℕ
dirty_bit = 128

-- R | W | X
abbrev pub perm_mask : ℕ
perm_mask = 14

pub data MmError : Type 0 where
  no_frame overlap unaligned : MmError

abbrev pub MmResult : Type 0
MmResult = Result MmError (Unit {0})

-- The test `w & mask != 0`.
abbrev pub has : ℕ → ℕ → Bool
has w mask = not (bit_and w mask == 0)

abbrev pub AddressSpace : Type 0
AddressSpace = ℕ

-- ---- PTE helpers

unfoldable pub vpn : ℕ → ℕ → ℕ
vpn va level = va / 2 ^ (12 + 9 * level) % 512

unfoldable pub read_pte : ℕ → Pool → ℕ
read_pte pa s = elim (phys_read_u64 pa s.mem) [ some v ↦ v | none ↦ 0 ]

unfoldable pub write_pte : ℕ → ℕ → Pool → Pool
write_pte pa val s = record s { mem = (phys_write_u64 pa val s.mem).1 }

unfoldable pub pte_pa : ℕ → ℕ
pte_pa pte = pte / 2 ^ 10 % 2 ^ 44 * 2 ^ 12

unfoldable pub nonleaf : ℕ → ℕ
nonleaf pa = bit_or (pa / 2 ^ 12 * 2 ^ 10) valid_bit

unfoldable pub leaf : ℕ → ℕ → ℕ
leaf pa perms =
    bit_or (bit_or (bit_or (bit_or (pa / 2 ^ 12 * 2 ^ 10) perms) valid_bit) accessed_bit) dirty_bit

-- ---- AddressSpace

-- `AddressSpace::new`
unfoldable pub new_space : Pool → Option (AddressSpace × Pool)
new_space s = alloc s

-- MODE = 8 (Sv39), ASID = 0.
unfoldable pub satp_of : AddressSpace → ℕ
satp_of root = bit_or (8 * 2 ^ 60) (root / 2 ^ 12)

-- One level of the descent of `map_page`: the next table, made when the slot is empty.
unfoldable pub next_table : ℕ → ℕ → ℕ → Pool → Result MmError ℕ × Pool
next_table table level va s =
    let slot = table + vpn va level * 8 in
    let pte = read_pte slot s in
    if bit_and pte valid_bit == 0
    then elim (alloc s) [
      | none ↦ (err MmError.no_frame, s)
      | some (next, s') ↦ (ok next, write_pte slot (nonleaf next) s')
    ]
    else (if has pte perm_mask then (err MmError.overlap, s) else (ok (pte_pa pte), s))

-- The loop `for level in [2, 1]`.
unfoldable pub descend : List ℕ → ℕ → ℕ → Pool → Result MmError ℕ × Pool
unfolding next_table
descend [] table va s = (ok table, s)
descend (level ∷ levels) table va s =
    let (r, s') = next_table table level va s in
    elim r [ ok next ↦ descend levels next va s' | err e ↦ (err e, s') ]

-- The write of the leaf at level 0.
unfoldable pub map_leaf : ℕ → ℕ → ℕ → ℕ → Pool → MmResult × Pool
map_leaf slot pa perms va s =
    if has (read_pte slot s) valid_bit
    then (err MmError.overlap, s)
    else (ok tt, write_pte slot (leaf pa perms) s)

unfoldable pub map_page : AddressSpace → ℕ → ℕ → ℕ → Pool → MmResult × Pool
unfolding descend map_leaf
map_page root va pa perms s =
    let (r, s') = descend (2 ∷ 1 ∷ []) root va s in
    elim r [ ok table ↦ map_leaf (table + vpn va 0 * 8) pa perms va s' | err e ↦ (err e, s') ]

abbrev pub gib : ℕ
gib = 2 ^ 30

unfoldable pub map_gigapage : AddressSpace → ℕ → ℕ → ℕ → Pool → MmResult × Pool
unfolding map_leaf
map_gigapage root va pa perms s =
    if not (va % gib == 0) || not (pa % gib == 0)
    then (err MmError.unaligned, s)
    else map_leaf (root + vpn va 2 * 8) pa perms va s

abbrev pub kernel_gigapage_va : ℕ
kernel_gigapage_va = 0x8000_0000

-- R | W | X | G
abbrev pub kernel_perms : ℕ
kernel_perms = 46

unfoldable pub map_kernel : AddressSpace → Pool → MmResult × Pool
unfolding map_gigapage
map_kernel root s = map_gigapage root kernel_gigapage_va kernel_gigapage_va kernel_perms s

-- The test of a leaf against the bits that an access needs; 0 asks for none.
unfoldable pub refuses : ℕ → ℕ → Bool
refuses pte need = not (need == 0) && (bit_and pte user_bit == 0 || not (bit_and pte need == need))

-- `va & (page - 1)` at a leaf of this level.
abbrev pub page_offset : ℕ → ℕ → ℕ
page_offset va level = va % 2 ^ (12 + 9 * level)

-- The loop `for level in [2, 1, 0]` of `translate_checked`.
unfoldable pub translate_from : List ℕ → ℕ → ℕ → ℕ → Pool → Option ℕ
unfolding refuses
translate_from [] table va need s = none
translate_from (level ∷ levels) table va need s =
    let pte = read_pte (table + vpn va level * 8) s in
    let rest = translate_from levels (pte_pa pte) va need s in
    if bit_and pte valid_bit == 0
    then none
    else (if has pte perm_mask
        then (if refuses pte need then none else some (pte_pa pte + page_offset va level))
        else rest)

abbrev pub levels_of_walk : List ℕ
levels_of_walk = 2 ∷ 1 ∷ 0 ∷ []

unfoldable pub translate_checked : AddressSpace → ℕ → ℕ → Pool → Option ℕ
unfolding translate_from
translate_checked root va need s = translate_from levels_of_walk root va need s

unfoldable pub translate : AddressSpace → ℕ → Pool → Option ℕ
unfolding translate_checked
translate root va s = translate_checked root va 0 s

-- U | R
abbrev pub user_read : ℕ
user_read = 18

-- `copy_from_user`, with the bytes still to read and fuel for the pages; the result is what the
-- buffer holds, or none for `false`. `va + done` wraps as the release build does.
unfoldable pub copy_loop : ℕ → AddressSpace → ℕ → ℕ → Pool → Option (List ℕ)
copy_loop zero root cur left s = if left == 0 then some [] else none
copy_loop (suc fuel) root cur left s =
    let n = min (page_size - cur % page_size) left in
    let rest = copy_loop fuel root ((cur + n) % usize_mod) (left - n) s in
    if left == 0 then some [] else elim (translate_checked root cur user_read s) [
      | none ↦ none
      | some pa ↦ elim (phys_read pa n s.mem) [
        | none ↦ none
        | some bytes ↦ elim rest [ none ↦ none | some more ↦ some (bytes ++ more) ]
      ]
    ]

-- Every round reads at least one byte, so `len` rounds are enough.
unfoldable pub copy_from_user : AddressSpace → ℕ → ℕ → Pool → Option (List ℕ)
unfolding copy_loop
copy_from_user root va len s = copy_loop len root (va % usize_mod) len s

-- `WalkChain` with its `push`: at most three (level, pte) pairs, outermost first.
abbrev pub WalkChain : Type 0
WalkChain = List (ℕ × ℕ)

unfoldable pub push : WalkChain → ℕ → ℕ → WalkChain
push chain level pte = if ltb (length chain) 3 then chain ++ ((level, pte) ∷ []) else chain

unfoldable pub walk_from : List ℕ → ℕ → ℕ → Pool → WalkChain → WalkChain
unfolding push
walk_from [] table va s chain = chain
walk_from (level ∷ levels) table va s chain =
    let pte = read_pte (table + vpn va level * 8) s in
    let chain' = push chain level pte in
    let rest = walk_from levels (pte_pa pte) va s chain' in
    if (bit_and pte valid_bit == 0) || has pte perm_mask then chain' else rest

unfoldable pub walk : AddressSpace → ℕ → Pool → WalkChain
unfolding walk_from
walk root va s = walk_from levels_of_walk root va s []
