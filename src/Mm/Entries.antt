-- ===== src/Mm/Entries.antt =====
-- The page-table entries that kernel/src/mm.rs makes, read back.
use kernai.Base.{
  ℕ, ◌+◌, ◌*◌, ◌/◌, ◌%◌, ◌^◌, ◌<◌, ◌≡◌, ◌≢◌, ◌∙◌, refl, sym, ap, Bool-cases, inl, inr, true, false,
  bit_and, bit_or, ◌==◌, arith,
}
use kernai.Bits.{bit, bit-lt-two, bit-bit_or, bit_and-pow, bit_or-lt}
use kernai.Bits.Fields.{
  bit_or-field, zero-bit_or, bit_and-field, bit_and-bit_or-zero, bit_and-bit_or-keep,
}
use kernai.Mm.{
  page_size, valid_bit, accessed_bit, dirty_bit, perm_mask, user_bit, has, pte_pa, nonleaf, leaf,
  refuses,
}

-- The flags of a leaf.
abbrev pub leaf_flags : ℕ → ℕ
leaf_flags perms = bit_or (bit_or (bit_or perms valid_bit) accessed_bit) dirty_bit

leaf_flags-lt : (perms : ℕ) → perms < 2 ^ 10 → leaf_flags perms < 2 ^ 10
leaf_flags-lt perms h =
    bit_or-lt 10 (bit_or (bit_or perms 1) 64) 128
      (bit_or-lt 10 (bit_or perms 1) 64 (bit_or-lt 10 perms 1 h (omega arith)) (omega arith))
      (omega arith)

-- A flag or-ed to a page number with flags below it.
or_flag :
    (x q lo b : ℕ)
    → x ≡ q * 2 ^ 10 + lo
    → lo < 2 ^ 10
    → b < 2 ^ 10
    → bit_or x b ≡ q * 2 ^ 10 + bit_or lo b
or_flag x q lo b e h k = ap (λ t. bit_or t b) e ∙ bit_or-field 10 q lo b h k

-- The page number stands above the flags.
leaf_split :
    (pa perms : ℕ) → perms < 2 ^ 10 → leaf pa perms ≡ pa / 2 ^ 12 * 2 ^ 10 + leaf_flags perms
unfolding leaf
leaf_split pa perms h =
    let q = pa / 2 ^ 12 in
    let v = bit_or-lt 10 perms 1 h (omega arith) in
    let a = bit_or-lt 10 (bit_or perms 1) 64 v (omega arith) in
    let e0 : bit_or (q * 2 ^ 10) perms ≡ q * 2 ^ 10 + perms =
      or_flag (q * 2 ^ 10) q 0 perms (omega arith) (omega arith) h
      ∙ ap (λ t. q * 2 ^ 10 + t) (zero-bit_or perms) in
    or_flag _ q (bit_or (bit_or perms 1) 64) 128
      (or_flag _ q (bit_or perms 1) 64 (or_flag _ q perms 1 e0 h (omega arith)) v (omega arith)) a
      (omega arith)

bit_and-leaf :
    (pa perms m : ℕ)
    → perms < 2 ^ 10
    → m < 2 ^ 10
    → bit_and (leaf pa perms) m ≡ bit_and (leaf_flags perms) m
bit_and-leaf pa perms m h k =
    ap (λ t. bit_and t m) (leaf_split pa perms h)
    ∙ bit_and-field 10 (pa / 2 ^ 12) (leaf_flags perms) m (leaf_flags-lt perms h) k

pub pte_pa-leaf :
    (pa perms : ℕ) → perms < 2 ^ 10 → pa % page_size ≡ 0 → pa < 2 ^ 56 → pte_pa (leaf pa perms) ≡ pa
unfolding pte_pa
pte_pa-leaf pa perms h a l = omega (arith, leaf_split pa perms h, leaf_flags-lt perms h)

pub leaf-valid : (pa perms : ℕ) → perms < 2 ^ 10 → (bit_and (leaf pa perms) valid_bit == 0) ≡ false
leaf-valid pa perms h = ground (
  arith,
  bit_and-leaf pa perms 1 h (omega arith),
  bit_and-pow 0 (leaf_flags perms),
  bit-bit_or 0 (bit_or (bit_or perms 1) 64) 128,
  bit-bit_or 0 (bit_or perms 1) 64,
  bit-bit_or 0 perms 1,
  low_bit,
)
  where
    low_bit : bit 1 0 ≡ 1
    low_bit = unfold bit in refl

pub leaf-has :
    (pa perms : ℕ)
    → perms < 2 ^ 10
    → has perms perm_mask ≡ true
    → has (leaf pa perms) perm_mask ≡ true
leaf-has pa perms h p = elim (Bool-cases (bit_and (leaf pa perms) perm_mask == 0)) [
  | inr e ↦ rw e refl
  | inl e ↦
      let z : bit_and (leaf pa perms) perm_mask ≡ 0 = ground arith in
      let (z1, _) =
        bit_and-bit_or-zero 10 (bit_or (bit_or perms 1) 64) 128 perm_mask (omega arith)
          (sym (bit_and-leaf pa perms perm_mask h (omega arith)) ∙ z) in
      let (z2, _) = bit_and-bit_or-zero 10 (bit_or perms 1) 64 perm_mask (omega arith) z1 in
      let (z3, _) = bit_and-bit_or-zero 10 perms 1 perm_mask (omega arith) z2 in
      absurd (ground (arith, z3))
]

nonleaf_split : (pa : ℕ) → nonleaf pa ≡ pa / 2 ^ 12 * 2 ^ 10 + 1
unfolding nonleaf
nonleaf_split pa =
    or_flag (pa / 2 ^ 12 * 2 ^ 10) (pa / 2 ^ 12) 0 1 (omega arith) (omega arith) (omega arith)

bit_and-nonleaf : (pa m : ℕ) → m < 2 ^ 10 → bit_and (nonleaf pa) m ≡ bit_and 1 m
bit_and-nonleaf pa m k =
    ap (λ t. bit_and t m) (nonleaf_split pa) ∙ bit_and-field 10 (pa / 2 ^ 12) 1 m (omega arith) k

pub pte_pa-nonleaf : (pa : ℕ) → pa % page_size ≡ 0 → pa < 2 ^ 56 → pte_pa (nonleaf pa) ≡ pa
unfolding pte_pa
pte_pa-nonleaf pa a l = omega (arith, nonleaf_split pa)

pub nonleaf-valid : (pa : ℕ) → (bit_and (nonleaf pa) valid_bit == 0) ≡ false
nonleaf-valid pa = rw (bit_and-nonleaf pa valid_bit (omega arith)) refl

pub nonleaf-has : (pa : ℕ) → has (nonleaf pa) perm_mask ≡ false
nonleaf-has pa = rw (bit_and-nonleaf pa perm_mask (omega arith)) refl

kept : (perms m : ℕ) → m < 2 ^ 10 → bit_and perms m ≡ m → bit_and (leaf_flags perms) m ≡ m
kept perms m k g =
    bit_and-bit_or-keep 10 (bit_or (bit_or perms 1) 64) 128 m k
      (bit_and-bit_or-keep 10 (bit_or perms 1) 64 m k (bit_and-bit_or-keep 10 perms 1 m k g))

-- A leaf grants what its permissions grant.
pub leaf-grants :
    (pa perms need : ℕ)
    → perms < 2 ^ 10
    → need < 2 ^ 10
    → refuses perms need ≡ false
    → refuses (leaf pa perms) need ≡ false
unfolding refuses
leaf-grants pa perms need h k r = elim (Bool-cases (need == 0)) [
  | inl z ↦ rw z refl
  | inr z ↦
      let u : bit_and perms user_bit ≢ 0 = ground arith in
      let f : bit_and perms user_bit ≡ user_bit =
        ground (arith, bit_and-pow 4 perms, bit-lt-two perms 4) in
      let g : bit_and perms need ≡ need = ground arith in
      ground (
        arith,
        bit_and-leaf pa perms user_bit h (omega arith),
        bit_and-leaf pa perms need h k,
        kept perms user_bit (omega arith) f,
        kept perms need k g,
      )
]

pub leaf-lt : (pa perms : ℕ) → perms < 2 ^ 10 → pa < 2 ^ 56 → leaf pa perms < 2 ^ 64
leaf-lt pa perms h l = omega (arith, leaf_split pa perms h, leaf_flags-lt perms h)

pub nonleaf-lt : (pa : ℕ) → pa < 2 ^ 56 → nonleaf pa < 2 ^ 64
nonleaf-lt pa l = omega (arith, nonleaf_split pa)
