-- ===== src/Mm/Maps.antt =====
-- `map_page` of kernel/src/mm.rs and the translation of the page that it maps.
use kernai.Base.{
  ℕ, ◌+◌, ◌*◌, ◌%◌, ◌^◌, ◌<◌, ◌≡◌, ◌⊎◌, ◌∙◌, refl, sym, ap, subst, inl, inr, true, false, [], ◌∷◌,
  bit_and, ◌==◌, ==_iff, if◌then◌else◌, arith, Bool-cases, ok, err, Result, Result-cases,
}
use kernai.Frames.{Pool}
use kernai.Mm.{
  AddressSpace, valid_bit, perm_mask, page_size, has, read_pte, write_pte, leaf, next_table,
  descend, map_leaf, map_page, map_kernel, map_gigapage, kernel_gigapage_va, kernel_perms, vpn,
  MmError, MmResult,
}
use kernai.Mm.Entries.{leaf-has, leaf-lt}
use kernai.Mm.Tables.{
  Holds, entry, IsTable, IsTable-Holds, Extends, Extends-refl, Extends-trans, Holds-write_pte,
  entry-write_pte, Holds-IsSlot,
}
use kernai.Mm.Grows.{Leads, Stepped, next_table-Stepped}

-- The page number of a page and the permissions that a leaf takes.
pub record IsMapping (pa perms : ℕ) : Type 0 where
  pub aligned : pa % page_size ≡ 0
  pub physical : pa < 2 ^ 56
  pub flags : perms < 2 ^ 10
  pub accessible : has perms perm_mask ≡ true

-- What the walk of `map_page` makes of a root, and the leaf table that it ends at.
abbrev Descended : AddressSpace → ℕ → Pool → Result MmError ℕ × Pool → Type 0
Descended root va s (err e, s') = Extends s s'
Descended root va s (ok table, s') =
    Extends s s'
    × Holds table s'
    × (middle : ℕ) × Holds middle s'
    × Leads (entry root (vpn va 2) s') middle
    × Leads (entry middle (vpn va 1) s') table

-- A pointer stays where it is under a change that extends the tables.
Leads-Extends :
    (t i next : ℕ) (s s' : Pool)
    → Extends s s'
    → Holds t s
    → i < 512
    → Leads (entry t i s) next
    → Leads (entry t i s') next
Leads-Extends t i next s s' e h l (p, q) =
    subst (λ pte. Leads pte next) (sym (e.entries t i h l p.valid)) (p, q)

pub vpn-lt : (va level : ℕ) → vpn va level < 512
unfolding vpn
vpn-lt va level = omega arith

descend-Descended :
    (root va : ℕ) (s : Pool)
    → IsTable 2 root s
    → Descended root va s (descend (2 ∷ 1 ∷ []) root va s)
unfolding descend
descend-Descended root va s h = elim (Result-cases (next_table root 2 va s).0) [
  | inr (x, e) ↦ rw (e, descend) (subst (λ r. Stepped 1 root (vpn va 2) s (r, s1)) e step)
  | inl (middle, e) ↦
      let (a, below, leads) = subst (λ r. Stepped 1 root (vpn va 2) s (r, s1)) e step in
      let s2 = (next_table middle 1 va s1).1 in
      let step2 = next_table-Stepped 0 middle 1 va s1 below in
      elim (Result-cases (next_table middle 1 va s1).0) [
        | inr (x, f) ↦
            rw (e, descend, f)
              (Extends-trans s s1 s2 a
                (subst (λ r. Stepped 0 middle (vpn va 1) s1 (r, s2)) f step2))
        | inl (table, f) ↦
            let (b, held, leads2) = subst (λ r. Stepped 0 middle (vpn va 1) s1 (r, s2)) f step2 in
            rw (e, descend, f)
              (
                Extends-trans s s1 s2 a b,
                held,
                middle,
                b.held middle (IsTable-Holds 1 middle s1 below),
                Leads-Extends root (vpn va 2) middle s1 s2 b
                    (a.held root (IsTable-Holds 2 root s h)) (vpn-lt va 2) leads,
                leads2,
              )
      ]
]
  where
    s1 : Pool
    s1 = (next_table root 2 va s).1

    step : Stepped 1 root (vpn va 2) s (next_table root 2 va s)
    step = next_table-Stepped 1 root 2 va s h

-- A leaf written to an empty slot.
leaf_written :
    (table i pa perms : ℕ) (s : Pool)
    → Holds table s
    → i < 512
    → IsMapping pa perms
    → (bit_and (entry table i s) valid_bit == 0) ≡ true
    → Extends s (write_pte (table + i * 8) (leaf pa perms) s)
      × (entry table i (write_pte (table + i * 8) (leaf pa perms) s) ≡ leaf pa perms)
leaf_written table i pa perms s h l m v = (
  record {
    held = λ u k. Holds-write_pte slot (leaf pa perms) u s k;
    entries = λ u j k n w. elim (cases u j k n) [
      | inl (_, e) ↦ absurd (ground (arith, ap (λ pte. bit_and pte valid_bit) e, v, w))
      | inr e ↦ e
    ];
    fresh = λ u j k n w p d. elim (cases u j k n) [
      | inl (e, _) ↦
          let f : has (leaf pa perms) perm_mask ≡ false =
            subst (λ pte. has pte perm_mask ≡ false) e p.inner in
          absurd (cc (f, leaf-has pa perms m.flags m.accessible))
      | inr e ↦ absurd (ground (arith, ap (λ pte. bit_and pte valid_bit) e, w, p.valid))
    ];
  },
  let here : (slot == slot) ≡ true = ground arith in written table i h l ∙ rw here refl,
)
  where
    slot : ℕ
    slot = table + i * 8

    written :
        (u j : ℕ)
        → Holds u s
        → j < 512
        → entry u j (write_pte slot (leaf pa perms) s)
          ≡ (if slot == u + j * 8 then leaf pa perms else entry u j s)
    written u j k n =
        entry-write_pte slot (leaf pa perms) u j s (Holds-IsSlot table i s h l)
          (leaf-lt pa perms m.flags m.physical) k n

    cases :
        (u j : ℕ)
        → Holds u s
        → j < 512
        → ((entry u j (write_pte slot (leaf pa perms) s) ≡ leaf pa perms)
            × (entry u j s ≡ entry table i s))
          ⊎ (entry u j (write_pte slot (leaf pa perms) s) ≡ entry u j s)
    cases u j k n = elim (Bool-cases (slot == u + j * 8)) [
      | inl e ↦ inl (
        written u j k n ∙ rw e refl,
        ap (λ a. read_pte a s) (sym ((==_iff slot (u + j * 8)).0 e)),
      )
      | inr e ↦ inr (written u j k n ∙ rw e refl)
    ]

-- The path to the leaf that maps `va`.
pub record LeafPath (root va pte : ℕ) (s : Pool) : Type 0 where
  pub middle : ℕ
  pub table : ℕ
  pub upper : Leads (entry root (vpn va 2) s) middle
  pub lower : Leads (entry middle (vpn va 1) s) table
  pub last : entry table (vpn va 0) s ≡ pte

-- Whatever `map_page` answers, it extends the tables; if it maps the page, there is a path to its leaf.
abbrev pub Mapped : AddressSpace → ℕ → ℕ → Pool → MmResult × Pool → Type 0
Mapped root va pte s (err e, s') = Extends s s'
Mapped root va pte s (ok u, s') = Extends s s' × LeafPath root va pte s'

pub map_page-Mapped :
    (root va pa perms : ℕ) (s : Pool)
    → IsTable 2 root s
    → IsMapping pa perms
    → Mapped root va (leaf pa perms) s (map_page root va pa perms s)
unfolding map_page map_leaf
map_page-Mapped root va pa perms s h m = elim (Result-cases (descend (2 ∷ 1 ∷ []) root va s).0) [
  | inr (x, e) ↦ rw (e, map_page) (subst (λ r. Descended root va s (r, s1)) e walked)
  | inl (table, e) ↦
      let (a, held, middle, held_middle, upper, lower) =
        subst (λ r. Descended root va s (r, s1)) e walked in
      let slot = table + vpn va 0 * 8 in
      elim (Bool-cases (bit_and (read_pte slot s1) valid_bit == 0)) [
        | inr v ↦ rw (e, map_page, v) a
        | inl v ↦
            let (b, last) = leaf_written table (vpn va 0) pa perms s1 held (vpn-lt va 0) m v in
            let s2 = write_pte slot (leaf pa perms) s1 in
            rw (e, map_page, v)
              (
                Extends-trans s s1 s2 a b,
                record {
                  middle = middle;
                  table = table;
                  upper =
                      Leads-Extends root (vpn va 2) middle s1 s2 b
                        (a.held root (IsTable-Holds 2 root s h)) (vpn-lt va 2) upper;
                  lower =
                      Leads-Extends middle (vpn va 1) table s1 s2 b held_middle (vpn-lt va 1) lower;
                  last = last;
                },
              )
      ]
]
  where
    s1 : Pool
    s1 = (descend (2 ∷ 1 ∷ []) root va s).1

    walked : Descended root va s (descend (2 ∷ 1 ∷ []) root va s)
    walked = descend-Descended root va s h

kernel-IsMapping : IsMapping kernel_gigapage_va kernel_perms
kernel-IsMapping = record {
  aligned = refl;
  physical = omega arith;
  flags = omega arith;
  accessible = refl;
}

-- Mapping the kernel extends the tables as well.
pub map_kernel-Extends : (root : ℕ) (s : Pool) → IsTable 2 root s → Extends s (map_kernel root s).1
unfolding map_kernel map_gigapage map_leaf
map_kernel-Extends root s h =
    elim (Bool-cases (bit_and (read_pte (root + vpn kernel_gigapage_va 2 * 8) s) valid_bit == 0)) [
      | inr v ↦ rw (v, map_leaf) (Extends-refl s)
      | inl v ↦
          rw (v, map_leaf)
            (leaf_written root (vpn kernel_gigapage_va 2) kernel_gigapage_va kernel_perms s
              (IsTable-Holds 2 root s h) (vpn-lt kernel_gigapage_va 2) kernel-IsMapping v).0
    ]
