-- ===== src/Mm/Translates.antt =====
-- kernel/src/mm.rs: a page that `map_page` maps is translated, and no other translation is lost.
use kernai.Base.{
  ℕ, zero, suc, arith, ◌+◌, ◌/◌, ◌%◌, ◌^◌, ◌<◌, ◌≡◌, sym, subst, inl, inr, false, Option, none,
  some, List, [], ◌∷◌, bit_and, ◌==◌, if◌then◌else◌, Bool-cases, ok, err, length,
}
use kernai.Frames.{Pool}
use kernai.Mm.{
  valid_bit, perm_mask, page_size, has, pte_pa, leaf, map_page, vpn, refuses, translate_from,
  translate_checked, page_offset, MmResult,
}
use kernai.Mm.Entries.{leaf-valid, leaf-has, leaf-grants, pte_pa-leaf}
use kernai.Mm.Tables.{entry, Points, IsTable, Extends, Extends-IsTable}
use kernai.Mm.Maps.{IsMapping, LeafPath, Mapped, map_page-Mapped, vpn-lt}

LeafPath-translate_checked :
    (root va pa perms need : ℕ) (s : Pool)
    → IsMapping pa perms
    → need < 2 ^ 10
    → refuses perms need ≡ false
    → LeafPath root va (leaf pa perms) s
    → translate_checked root va need s ≡ some (pa + va % page_size)
unfolding translate_checked
LeafPath-translate_checked root va pa perms need s m n r p = rw (
  p.upper.0.valid,
  p.upper.0.inner,
  p.upper.1,
  p.lower.0.valid,
  p.lower.0.inner,
  p.lower.1,
  p.last,
  leaf-valid pa perms m.flags,
  leaf-has pa perms m.flags m.accessible,
  leaf-grants pa perms need m.flags n r,
  pte_pa-leaf pa perms m.flags m.aligned m.physical,
)

-- The indices of a walk depend on the page alone.
vpn-page :
    (va va' level : ℕ) → level < 3 → va' / page_size ≡ va / page_size → vpn va' level ≡ vpn va level
unfolding vpn
vpn-page va va' zero l e = omega arith
vpn-page va va' (suc zero) l e = omega arith
vpn-page va va' (suc (suc zero)) l e = omega arith
vpn-page va va' (suc (suc (suc level))) l e = absurd (omega arith)

LeafPath-page :
    (root va va' pte : ℕ) (s : Pool)
    → va' / page_size ≡ va / page_size
    → LeafPath root va pte s
    → LeafPath root va' pte s
LeafPath-page root va va' pte s e p = record {
  middle = p.middle;
  table = p.table;
  upper = rw (vpn-page va va' 2 (omega arith) e) p.upper;
  lower = rw (vpn-page va va' 1 (omega arith) e) p.lower;
  last = rw (vpn-page va va' 0 (omega arith) e) p.last;
}

-- A page that has been mapped is translated: an access that its permissions grant, at any address
-- of the page, goes to the same offset in the frame that was mapped. The root is a tree of tables,
-- and the frame is aligned, below 2^56, and mapped with one of R, W and X.
pub translate_checked-map_page :
    (root va va' pa perms need : ℕ) (s s' : Pool)
    → IsTable 2 root s
    → IsMapping pa perms
    → need < 2 ^ 10
    → refuses perms need ≡ false
    → va' / page_size ≡ va / page_size
    → map_page root va pa perms s ≡ (ok tt, s')
    → translate_checked root va' need s' ≡ some (pa + va' % page_size)
translate_checked-map_page root va va' pa perms need s s' h m n r same e =
    LeafPath-translate_checked root va' pa perms need s' m n r (
      LeafPath-page root va va' (leaf pa perms) s' same
        (subst (Mapped root va (leaf pa perms) s) e (map_page-Mapped root va pa perms s h m)).1)

-- One level of the walk, with what the rest of it answers.
abbrev looked_up : ℕ → ℕ → ℕ → ℕ → Option ℕ → Option ℕ
looked_up pte level va need rest =
    if bit_and pte valid_bit == 0
    then none
    else (if has pte perm_mask
        then (if refuses pte need then none else some (pte_pa pte + page_offset va level))
        else rest)

looked_up-valid :
    (pte level va need pa : ℕ) (rest : Option ℕ)
    → looked_up pte level va need rest ≡ some pa
    → (bit_and pte valid_bit == 0) ≡ false
looked_up-valid pte level va need pa rest e = elim (Bool-cases (bit_and pte valid_bit == 0)) [
  | inr v ↦ v
  | inl v ↦ let f : none ≡ some pa = rw v at e in absurd (cc f)
]

looked_up-onward :
    (pte level va need pa : ℕ) (rest rest' : Option ℕ)
    → (Points pte → rest ≡ some pa → rest' ≡ some pa)
    → looked_up pte level va need rest ≡ some pa
    → looked_up pte level va need rest' ≡ some pa
looked_up-onward pte level va need pa rest rest' k e =
    let v = looked_up-valid pte level va need pa rest e in
    elim (Bool-cases (has pte perm_mask)) [
      | inl l ↦ rw (v, l) (rw (v, l) at e)
      | inr l ↦ rw (v, l) (k (record { valid = v; inner = l }) (rw (v, l) at e))
    ]

-- A walk that ends in a leaf ends there after any change that extends the tables.
translate_from-Extends :
    (level : ℕ) (levels : List ℕ) (table va need pa : ℕ) (s s' : Pool)
    → Extends s s'
    → IsTable (length levels) table s
    → translate_from (level ∷ levels) table va need s ≡ some pa
    → translate_from (level ∷ levels) table va need s' ≡ some pa
unfolding translate_from
translate_from-Extends level [] table va need pa s s' e h t =
    let v = looked_up-valid (entry table (vpn va level) s) level va need pa none t in
    rw (e.entries table (vpn va level) h (vpn-lt va level) v) t
translate_from-Extends level (next ∷ levels) table va need pa s s' e (h, below) t =
    let i = vpn va level in
    let pte = entry table i s in
    let v = looked_up-valid pte level va need pa _ t in
    subst
      (λ p.
        looked_up p level va need (translate_from (next ∷ levels) (pte_pa p) va need s') ≡ some pa)
      (sym (e.entries table i h (vpn-lt va level) v))
      (looked_up-onward pte level va need pa (translate_from (next ∷ levels) (pte_pa pte) va need s)
        (translate_from (next ∷ levels) (pte_pa pte) va need s')
        (λ p.
          translate_from-Extends next levels (pte_pa pte) va need pa s s' e
            (below i (vpn-lt va level) p))
        t)

Mapped-Extends :
    (root va pte : ℕ) (s : Pool) (r : MmResult × Pool) → Mapped root va pte s r → Extends s r.1
Mapped-Extends root va pte s (err e, s') m = m
Mapped-Extends root va pte s (ok u, s') (m, _) = m

pub map_page-Extends :
    (root va pa perms : ℕ) (s : Pool)
    → IsTable 2 root s
    → IsMapping pa perms
    → Extends s (map_page root va pa perms s).1
map_page-Extends root va pa perms s h m =
    Mapped-Extends root va (leaf pa perms) s (map_page root va pa perms s)
      (map_page-Mapped root va pa perms s h m)

-- Mapping an aligned frame below 2^56 with one of R, W and X, whether it succeeds or fails, takes no
-- translation away: what an access got in any address space of the pool, it still gets.
pub translate_checked-map_page_kept :
    (root va pa perms other va' need pa' : ℕ) (s : Pool)
    → IsTable 2 root s
    → IsMapping pa perms
    → IsTable 2 other s
    → translate_checked other va' need s ≡ some pa'
    → translate_checked other va' need (map_page root va pa perms s).1 ≡ some pa'
unfolding translate_checked
translate_checked-map_page_kept root va pa perms other va' need pa' s h m o t =
    translate_from-Extends 2 (1 ∷ 0 ∷ []) other va' need pa' s _
      (map_page-Extends root va pa perms s h m) o t

-- Mapping an aligned frame below 2^56 with one of R, W and X, whether it succeeds or fails, leaves
-- every address space a tree of tables in taken frames of the pool.
pub map_page-IsTable :
    (root va pa perms other : ℕ) (s : Pool)
    → IsTable 2 root s
    → IsMapping pa perms
    → IsTable 2 other s
    → IsTable 2 other (map_page root va pa perms s).1
map_page-IsTable root va pa perms other s h m o =
    Extends-IsTable 2 other s _ (map_page-Extends root va pa perms s h m) o
