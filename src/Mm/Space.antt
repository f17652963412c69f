-- ===== src/Mm/Space.antt =====
-- kernel/src/mm.rs: whole address spaces, copied (`deep_copy`) and freed (`destroy`).
-- The loops over the 512 entries recur on the entries left, inside a recursion on the level.
use kernai.Base.{
  ℕ, zero, suc, ◌+◌, ◌-◌, ◌*◌, ◌^◌, Bool, true, false, ◌||◌, Option, none, some, bit_and, ltb, leb,
  ◌==◌, if◌then◌else◌, ok, err,
}
use kernai.Hal.{pool_base, pool_end, phys_read, phys_write}
use kernai.Frames.{Pool, alloc, free}
use kernai.Mm.{
  AddressSpace, page_size, valid_bit, user_bit, perm_mask, has, read_pte, pte_pa, new_space,
  map_page, map_kernel,
}

abbrev pub entries : ℕ
entries = 512

-- `pte & (R | W | X | U)`
abbrev pub user_perms : ℕ → ℕ
user_perms pte = bit_and pte 30

-- A user leaf outside the pool is a window: the copy maps the same memory.
unfoldable pub alias_leaf : AddressSpace → ℕ → ℕ → Pool → Bool × Pool
alias_leaf dst va pte s =
    let (r, s') = map_page dst va (pte_pa pte) (user_perms pte) s in
    elim r [ ok _ ↦ (true, s') | err _ ↦ (false, s') ]

-- What follows a new frame: its bytes, then its mapping; it goes back if either fails.
unfoldable pub fill_leaf : AddressSpace → ℕ → ℕ → ℕ → Pool → Bool × Pool
fill_leaf dst va pte new_frame s = elim (phys_read (pte_pa pte) page_size s.mem) [
  | none ↦ (false, free new_frame s)
  | some buf ↦
      let (done, m) = phys_write new_frame buf s.mem in
      let s1 = record s { mem = m } in
      let (r, s2) = map_page dst va new_frame (user_perms pte) s1 in
      elim done [
        | false ↦ (false, free new_frame s1)
        | true ↦ elim r [ ok _ ↦ (true, s2) | err _ ↦ (false, free new_frame s2) ]
      ]
]

-- A leaf of the source: supervisor leaves are skipped.
unfoldable pub copy_leaf : AddressSpace → ℕ → ℕ → Pool → Bool × Pool
unfolding alias_leaf fill_leaf
copy_leaf dst va pte s =
    if bit_and pte user_bit == 0
    then (true, s)
    else (if ltb (pte_pa pte) pool_base || leb pool_end (pte_pa pte)
        then alias_leaf dst va pte s
        else elim (alloc s) [
          | none ↦ (false, s)
          | some (new_frame, s') ↦ fill_leaf dst va pte new_frame s'
        ])

-- The entries of a table from `512 - left` on; `below` copies the table that an interior entry
-- names.
unfoldable pub copy_entries :
    (ℕ → ℕ → Pool → Bool × Pool) → ℕ → AddressSpace → ℕ → ℕ → ℕ → Pool → Bool × Pool
unfolding copy_leaf
copy_entries below zero dst table level va_base s = (true, s)
copy_entries below (suc left) dst table level va_base s =
    let i = entries - suc left in
    let pte = read_pte (table + i * 8) s in
    let va = va_base + i * 2 ^ (12 + 9 * level) in
    let (copied, s') =
      if bit_and pte valid_bit == 0
      then (true, s)
      else (if has pte perm_mask then copy_leaf dst va pte s else below (pte_pa pte) va s) in
    elim copied [ true ↦ copy_entries below left dst table level va_base s' | false ↦ (false, s') ]

-- An interior entry at level 0 is passed over.
unfoldable pub copy_user_pages : ℕ → AddressSpace → ℕ → ℕ → Pool → Bool × Pool
unfolding copy_entries
copy_user_pages zero dst table va_base s =
    copy_entries (λ t va s'. (true, s')) entries dst table 0 va_base s
copy_user_pages (suc level) dst table va_base s =
    copy_entries (λ t va s'. copy_user_pages level dst t va s') entries dst table (suc level)
      va_base s

-- `free_subtree` over the entries left; `below` frees the table that an interior entry names.
unfoldable pub free_entries : (ℕ → Pool → Pool) → ℕ → ℕ → Pool → Pool
free_entries below zero table s = s
free_entries below (suc left) table s =
    let pte = read_pte (table + (entries - suc left) * 8) s in
    let s' =
      if bit_and pte valid_bit == 0
      then s
      else (if has pte perm_mask then free (pte_pa pte) s else below (pte_pa pte) s) in
    free_entries below left table s'

unfoldable pub free_subtree : ℕ → ℕ → Pool → Pool
unfolding free_entries
free_subtree zero table s = free table (free_entries (λ t s'. s') entries table s)
free_subtree (suc level) table s =
    free table (free_entries (λ t s'. free_subtree level t s') entries table s)

-- The root's loop of `destroy`: leaves there are the kernel's.
unfoldable pub destroy_entries : ℕ → AddressSpace → Pool → Pool
destroy_entries zero root s = s
destroy_entries (suc left) root s =
    let pte = read_pte (root + (entries - suc left) * 8) s in
    let s' =
      if (bit_and pte valid_bit == 0) || has pte perm_mask
      then s
      else free_subtree 1 (pte_pa pte) s in
    destroy_entries left root s'

unfoldable pub destroy : AddressSpace → Pool → Pool
unfolding destroy_entries
destroy root s = free root (destroy_entries entries root s)

unfoldable pub deep_copy : AddressSpace → Pool → Option AddressSpace × Pool
deep_copy root s = elim (new_space s) [
  | none ↦ (none, s)
  | some (dst, s1) ↦
      let (mapped, s2) = map_kernel dst s1 in
      elim mapped [
        | err _ ↦ (none, destroy dst s2)
        | ok _ ↦
            let (copied, s3) = copy_user_pages 2 dst root 0 s2 in
            elim copied [ true ↦ (some dst, s3) | false ↦ (none, destroy dst s3) ]
      ]
]
