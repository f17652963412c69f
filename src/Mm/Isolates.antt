-- ===== src/Mm/Isolates.antt =====
-- kernel/src/mm.rs: the kernel's gigapage stays closed to a payload whatever is mapped beside it.
use kernai.Base.{
  ℕ, zero, suc, ◌+◌, ◌%◌, ◌^◌, ◌≤◌, ◌<◌, ◌≡◌, ◌≢◌, ◌∙◌, refl, subst, none, List, [], ◌∷◌, arith, ok,
}
use kernai.Hal.{usize_mod}
use kernai.Frames.{Pool}
use kernai.Mm.{
  AddressSpace, map_page, map_kernel, vpn, translate_checked, kernel_gigapage_va, user_read,
  copy_from_user,
}
use kernai.Mm.Access.{IsRoot, kernel_leaf, map_kernel_entry, root_leaf-closed}
use kernai.Mm.Tables.{
  Holds, entry, IsTable, IsTable-Holds, Extends, Extends-refl, Extends-trans, Extends-IsTable,
}
use kernai.Mm.Maps.{IsMapping, map_kernel-Extends}
use kernai.Mm.Translates.{map_page-Extends}

-- A page to map: its address, its frame and its permissions.
pub record Mapping : Type 0 where
  pub va : ℕ
  pub pa : ℕ
  pub perms : ℕ

abbrev pub AreMappings : List Mapping → Type 0
AreMappings [] = Unit
AreMappings (m ∷ ms) = IsMapping m.pa m.perms × AreMappings ms

-- The pages are mapped one after the other, whether each succeeds or fails.
unfoldable pub map_pages : AddressSpace → List Mapping → Pool → Pool
map_pages root [] s = s
map_pages root (m ∷ ms) s = map_pages root ms (map_page root m.va m.pa m.perms s).1

pub map_pages-Extends :
    (root : ℕ) (ms : List Mapping) (s : Pool)
    → IsTable 2 root s
    → AreMappings ms
    → Extends s (map_pages root ms s)
unfolding map_pages
map_pages-Extends root [] s h a = Extends-refl s
map_pages-Extends root (m ∷ ms) s h (a, bs) =
    let s1 = (map_page root m.va m.pa m.perms s).1 in
    let e = map_page-Extends root m.va m.pa m.perms s h a in
    Extends-trans s s1 (map_pages root ms s1) e
      (map_pages-Extends root ms s1 (Extends-IsTable 2 root s s1 e h) bs)

Holds-IsRoot : (t : ℕ) (s : Pool) → Holds t s → IsRoot t
Holds-IsRoot t s h = omega (arith, h.address, h.in_pool)

closed :
    (root va need : ℕ) (s s1 s2 : Pool)
    → IsTable 2 root s
    → map_kernel root s ≡ (ok tt, s1)
    → Extends s1 s2
    → need ≢ 0
    → kernel_gigapage_va ≤ va
    → va < kernel_gigapage_va + 2 ^ 30
    → translate_checked root va need s2 ≡ none
closed root va need s s1 s2 h k e n lo hi =
    root_leaf-closed root va need s2 n (rw (leaf) refl) (rw (leaf) refl)
  where
    first : entry root 2 s1 ≡ kernel_leaf
    first = map_kernel_entry root s s1 (Holds-IsRoot root s (IsTable-Holds 2 root s h)) k

    held : Holds root s1
    held =
        IsTable-Holds 2 root s1 (
          Extends-IsTable 2 root s s1 (subst (λ r. Extends s r.1) k (map_kernel-Extends root s h))
            h)

    index : vpn va 2 ≡ 2
    index = unfold vpn in omega arith

    leaf : entry root (vpn va 2) s2 ≡ kernel_leaf
    leaf = rw index (e.entries root 2 held (omega arith) (rw first refl) ∙ first)

-- Whatever aligned pages below 2^56 are mapped, each with one of R, W and X, after the kernel's
-- gigapage, a payload cannot have the kernel read kernel memory for it: `copy_from_user` of one or more bytes from an address inside it fails.
pub copy_from_user-map_pages :
    (root va len : ℕ) (ms : List Mapping) (s s1 : Pool)
    → IsTable 2 root s
    → AreMappings ms
    → map_kernel root s ≡ (ok tt, s1)
    → kernel_gigapage_va ≤ va
    → va < kernel_gigapage_va + 2 ^ 30
    → 0 < len
    → copy_from_user root va len (map_pages root ms s1) ≡ none
unfolding copy_from_user
copy_from_user-map_pages root va zero ms s s1 h a k lo hi l = absurd (omega arith)
copy_from_user-map_pages root va (suc len) ms s s1 h a k lo hi l =
    let c : va % usize_mod ≡ va = omega arith in
    let e = subst (λ r. Extends s r.1) k (map_kernel-Extends root s h) in
    rw
      (
        c,
        closed root va user_read s s1 (map_pages root ms s1) h k
            (map_pages-Extends root ms s1 (Extends-IsTable 2 root s s1 e h) a) (omega arith) lo hi,
      )
      (ground arith)
