-- ===== src/Mm/Tables.antt =====
-- The trees of tables that kernel/src/mm.rs keeps in frames of the pool, under its writes.
use kernai.Base.{
  ℕ, zero, suc, ◌+◌, ◌*◌, ◌^◌, ◌<◌, ◌≡◌, ◌≢◌, ◌∙◌, refl, sym, ap, subst, inl, inr, true, false,
  bit_and, ◌==◌, ==_iff, if◌then◌else◌, arith, Bool-cases,
}
use kernai.Hal.Memory.{IsSlot, phys_read_u64-phys_write_u64_ne}
use kernai.Frames.{Pool, pool_frames, test}
use kernai.Frames.Alloc.{frame_address}
use kernai.Mm.{valid_bit, perm_mask, has, read_pte, write_pte, pte_pa}
use kernai.Mm.Access.{read_pte-write_pte}

-- `t` is a frame of the pool that the bitmap marks as taken.
pub record Holds (t : ℕ) (s : Pool) : Type 0 where
  pub frame : ℕ
  pub address : t ≡ frame_address frame
  pub in_pool : frame < pool_frames
  pub taken : test frame s ≡ true

abbrev pub entry : ℕ → ℕ → Pool → ℕ
entry t i s = read_pte (t + i * 8) s

-- The entry leads on to a table.
pub record Points (pte : ℕ) : Type 0 where
  pub valid : (bit_and pte valid_bit == 0) ≡ false
  pub inner : has pte perm_mask ≡ false

-- A table with `d` levels of tables below it, all of them in taken frames.
abbrev pub IsTable : ℕ → ℕ → Pool → Type 0
IsTable zero t s = Holds t s
IsTable (suc d) t s =
    Holds t s × ((i : ℕ) → i < 512 → Points (entry t i s) → IsTable d (pte_pa (entry t i s)) s)

pub IsTable-Holds : (d t : ℕ) (s : Pool) → IsTable d t s → Holds t s
IsTable-Holds zero t s h = h
IsTable-Holds (suc d) t s (h, _) = h

-- What a change of the pool may do to the tables: frames stay taken, valid entries stay as they are,
-- and an entry that becomes a pointer leads to a table.
pub record Extends (s s' : Pool) : Type 0 where
  pub held : (t : ℕ) → Holds t s → Holds t s'
  pub entries :
      (t i : ℕ)
      → Holds t s
      → i < 512
      → (bit_and (entry t i s) valid_bit == 0) ≡ false
      → entry t i s' ≡ entry t i s
  pub fresh :
      (t i : ℕ)
      → Holds t s
      → i < 512
      → (bit_and (entry t i s) valid_bit == 0) ≡ true
      → Points (entry t i s')
      → (d : ℕ) → IsTable d (pte_pa (entry t i s')) s'

-- Tables stay tables.
pub Extends-IsTable : (d t : ℕ) (s s' : Pool) → Extends s s' → IsTable d t s → IsTable d t s'
Extends-IsTable zero t s s' e h = e.held t h
Extends-IsTable (suc d) t s s' e (h, below) = (
  e.held t h,
  λ i l p. elim (Bool-cases (bit_and (entry t i s) valid_bit == 0)) [
    | inl v ↦ e.fresh t i h l v p d
    | inr v ↦
        let same = e.entries t i h l v in
        subst (λ pte. IsTable d (pte_pa pte) s') (sym same)
          (Extends-IsTable d (pte_pa (entry t i s)) s s' e (below i l (subst Points same p)))
  ],
)

pub Extends-trans : (s s1 s2 : Pool) → Extends s s1 → Extends s1 s2 → Extends s s2
Extends-trans s s1 s2 a b = record {
  held = λ t h. b.held t (a.held t h);
  entries = λ t i h l v.
      let same = a.entries t i h l v in
      b.entries t i (a.held t h) l
        (subst (λ pte. (bit_and pte valid_bit == 0) ≡ false) (sym same) v)
      ∙ same;
  fresh = λ t i h l v p d. elim (Bool-cases (bit_and (entry t i s1) valid_bit == 0)) [
    | inl w ↦ b.fresh t i (a.held t h) l w p d
    | inr w ↦
        let same = b.entries t i (a.held t h) l w in
        subst (λ pte. IsTable d (pte_pa pte) s2) (sym same)
          (Extends-IsTable d (pte_pa (entry t i s1)) s1 s2 b
            (a.fresh t i h l v (subst Points same p) d))
  ];
}

pub Extends-refl : (s : Pool) → Extends s s
Extends-refl s = record {
  held = λ t h. h;
  entries = λ t i h l v. refl;
  fresh = λ t i h l v p d. absurd (ground (arith, v, p.valid));
}

pub Holds-IsSlot : (t i : ℕ) (s : Pool) → Holds t s → i < 512 → IsSlot (t + i * 8)
Holds-IsSlot t i s h l = omega (arith, h.address, h.in_pool)

pub Holds-write_pte : (slot v t : ℕ) (s : Pool) → Holds t s → Holds t (write_pte slot v s)
unfolding write_pte test
Holds-write_pte slot v t s h = record {
  frame = h.frame;
  address = h.address;
  in_pool = h.in_pool;
  taken = h.taken;
}

read_pte-write_pte_ne :
    (a p v : ℕ) (s : Pool)
    → IsSlot a
    → IsSlot p
    → a ≢ p
    → read_pte p (write_pte a v s) ≡ read_pte p s
unfolding read_pte write_pte
read_pte-write_pte_ne a p v s h k n =
    rw (phys_read_u64-phys_write_u64_ne a p v s.mem h k n, read_pte) refl

pub entry-write_pte :
    (slot v t i : ℕ) (s : Pool)
    → IsSlot slot
    → v < 2 ^ 64
    → Holds t s
    → i < 512
    → entry t i (write_pte slot v s) ≡ (if slot == t + i * 8 then v else entry t i s)
entry-write_pte slot v t i s w b h l = elim (Bool-cases (slot == t + i * 8)) [
  | inl e ↦ rw e (
      ap (λ a. read_pte a (write_pte slot v s)) (sym ((==_iff slot (t + i * 8)).0 e))
      ∙ read_pte-write_pte slot v s w b)
  | inr e ↦
      rw e (read_pte-write_pte_ne slot (t + i * 8) v s w (Holds-IsSlot t i s h l) (ground arith))
]
