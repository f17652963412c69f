-- ===== src/Mm/Access.antt =====
-- Which addresses the kernel follows on a payload's behalf (`translate_checked` of
-- kernel/src/mm.rs).
use kernai.Base.{
  ℕ, zero, suc, ◌+◌, ◌*◌, ◌%◌, ◌^◌, ◌≤◌, ◌<◌, ◌≡◌, ◌≢◌, refl, true, not, ◌||◌, Option, none, some,
  [], ◌∷◌, bit_and, ◌==◌, if◌then◌else◌, arith, ok,
}
use kernai.Hal.{pool_base, pool_end, usize_mod}
use kernai.Hal.Memory.{IsSlot, phys_read_u64-phys_write_u64}
use kernai.Frames.{Pool}
use kernai.Mm.{
  AddressSpace, WalkChain, valid_bit, user_bit, perm_mask, has, vpn, read_pte, write_pte, pte_pa,
  leaf, refuses, page_offset, translate_checked, walk, map_kernel, kernel_perms, kernel_gigapage_va,
  page_size, user_read, copy_from_user,
}

abbrev pub last_entry : WalkChain → Option (ℕ × ℕ)
last_entry [] = none
last_entry (e ∷ []) = some e
last_entry (e ∷ f ∷ rest) = last_entry (f ∷ rest)

-- What an access makes of the entry that the walk ends at.
abbrev pub resolve : ℕ → ℕ → Option (ℕ × ℕ) → Option ℕ
resolve va need none = none
resolve va need (some (level, pte)) =
    if (bit_and pte valid_bit == 0) || not (has pte perm_mask)
    then none
    else (if refuses pte need then none else some (pte_pa pte + page_offset va level))

-- The address that an access gets is decided by the last entry of the diagnostic walk: the two
-- traversals of the table agree.
pub translate_checked-eq-walk :
    (root va need : ℕ) (s : Pool)
    → translate_checked root va need s ≡ resolve va need (last_entry (walk root va s))
unfolding translate_checked walk
translate_checked-eq-walk root va need s = ground arith

-- The entry through which an access goes: valid, a leaf, open to the user and granting `need`.
pub record Grants (need va pa level pte : ℕ) : Type 0 where
  pub valid : bit_and pte valid_bit ≢ 0
  pub is_leaf : bit_and pte perm_mask ≢ 0
  pub user : bit_and pte user_bit ≢ 0
  pub rights : bit_and pte need ≡ need
  pub address : pa ≡ pte_pa pte + page_offset va level

resolve-Grants :
    (va need pa : ℕ) (e : Option (ℕ × ℕ))
    → need ≢ 0
    → resolve va need e ≡ some pa
    → (level : ℕ) × (pte : ℕ) × (e ≡ some (level, pte)) × Grants need va pa level pte
unfolding refuses
resolve-Grants va need pa none n h = absurd (cc)
resolve-Grants va need pa (some (level, pte)) n h = (level, pte, refl, ground arith)

-- The confused-deputy defence: an address that the kernel follows for a payload, with some right
-- required, comes from the leaf that ends the payload's own walk, and that leaf is user-accessible
-- with all the rights required.
pub translate_checked-Grants :
    (root va need pa : ℕ) (s : Pool)
    → need ≢ 0
    → translate_checked root va need s ≡ some pa
    → (level : ℕ) × (pte : ℕ) × (last_entry (walk root va s) ≡ some (level, pte))
      × Grants need va pa level pte
translate_checked-Grants root va need pa s n h =
    resolve-Grants va need pa _ n (rw (← translate_checked-eq-walk root va need s) h)

-- A supervisor leaf at the root closes its whole gigapage to user accesses.
pub root_leaf-closed :
    (root va need : ℕ) (s : Pool)
    → need ≢ 0
    → has (read_pte (root + vpn va 2 * 8) s) perm_mask ≡ true
    → bit_and (read_pte (root + vpn va 2 * 8) s) user_bit ≡ 0
    → translate_checked root va need s ≡ none
unfolding translate_checked refuses
root_leaf-closed root va need s n l u = ground arith

-- The root entries of a table frame are slots of the pool.
abbrev pub IsRoot : AddressSpace → Type 0
IsRoot root = (root % page_size ≡ 0) × (pool_base ≤ root) × (root + page_size ≤ pool_end)

pub read_pte-write_pte :
    (slot v : ℕ) (s : Pool) → IsSlot slot → v < 2 ^ 64 → read_pte slot (write_pte slot v s) ≡ v
unfolding read_pte write_pte
read_pte-write_pte slot v s h k = rw (phys_read_u64-phys_write_u64 slot v s.mem h k, read_pte)

abbrev pub kernel_leaf : ℕ
kernel_leaf = 0x2000_00EF

leaf-kernel : leaf kernel_gigapage_va kernel_perms ≡ kernel_leaf
unfolding leaf
leaf-kernel = refl

-- After `map_kernel` has answered Ok, the root's entry for the gigapage is the supervisor leaf.
pub map_kernel_entry :
    (root : ℕ) (s s' : Pool)
    → IsRoot root
    → map_kernel root s ≡ (ok tt, s')
    → read_pte (root + 2 * 8) s' ≡ kernel_leaf
unfolding map_kernel vpn
map_kernel_entry root s s' h e = ground (
  arith,
  read_pte-write_pte (root + 2 * 8) kernel_leaf s (omega arith) (omega arith),
  leaf-kernel,
)

-- No user access is translated inside the kernel's gigapage once it has been mapped.
pub map_kernel-closed :
    (root va need : ℕ) (s s' : Pool)
    → IsRoot root
    → need ≢ 0
    → map_kernel root s ≡ (ok tt, s')
    → kernel_gigapage_va ≤ va
    → va < kernel_gigapage_va + 2 ^ 30
    → translate_checked root va need s' ≡ none
map_kernel-closed root va need s s' h n e lo hi =
    root_leaf-closed root va need s' n (rw (entry) refl) (rw (entry) refl)
  where
    index : vpn va 2 ≡ 2
    index = unfold vpn in omega arith

    entry : read_pte (root + vpn va 2 * 8) s' ≡ kernel_leaf
    entry = rw index (map_kernel_entry root s s' h e)

-- A payload cannot have the kernel read kernel memory for it: in an address space that carries the
-- kernel's gigapage, `copy_from_user` of one or more bytes from an address inside it fails.
pub map_kernel-isolates :
    (root va len : ℕ) (s s' : Pool)
    → IsRoot root
    → map_kernel root s ≡ (ok tt, s')
    → kernel_gigapage_va ≤ va
    → va < kernel_gigapage_va + 2 ^ 30
    → 0 < len
    → copy_from_user root va len s' ≡ none
unfolding copy_from_user
map_kernel-isolates root va zero s s' h e lo hi l = absurd (omega arith)
map_kernel-isolates root va (suc len) s s' h e lo hi l =
    let c : va % usize_mod ≡ va = omega arith in
    rw (c, map_kernel-closed root va user_read s s' h (omega arith) e lo hi) (ground arith)
