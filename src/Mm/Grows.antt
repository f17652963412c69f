-- ===== src/Mm/Grows.antt =====
-- How `map_page` of kernel/src/mm.rs lets a tree of tables grow: a fresh table, a fresh leaf.
use kernai.Base.{
  ℕ, zero, suc, ◌+◌, ◌*◌, ◌<◌, ◌≡◌, ◌≢◌, ◌⊎◌, ◌∙◌, refl, sym, ap, subst, inl, inr, true, false,
  some, bit_and, ◌==◌, ==_iff, if◌then◌else◌, arith, Bool-cases, Option-cases, ok, err, Result,
}
use kernai.Hal.{word_at}
use kernai.Hal.Memory.{IsSlot, phys_read_u64_lem, word_at_congr}
use kernai.Frames.{Pool, test, alloc}
use kernai.Frames.Alloc.{frame_address, Takes, Allocates, alloc-Allocates}
use kernai.Mm.{
  valid_bit, perm_mask, has, read_pte, write_pte, pte_pa, nonleaf, next_table, new_space, vpn,
  MmError,
}
use kernai.Mm.Entries.{pte_pa-nonleaf, nonleaf-valid, nonleaf-lt, nonleaf-has}
use kernai.Mm.Tables.{
  Holds, entry, Points, IsTable, Extends, Extends-refl, Holds-write_pte, entry-write_pte,
  Holds-IsSlot,
}

-- The entry leads to the table `next`.
abbrev pub Leads : ℕ → ℕ → Type 0
Leads pte next = Points pte × (pte_pa pte ≡ next)

-- What one level of the descent makes of a table with tables below it.
abbrev pub Stepped : ℕ → ℕ → ℕ → Pool → Result MmError ℕ × Pool → Type 0
Stepped d table i s (err e, s') = Extends s s'
Stepped d table i s (ok next, s') = Extends s s' × IsTable d next s' × Leads (entry table i s') next

read_pte_lem : (a : ℕ) (s : Pool) → IsSlot a → read_pte a s ≡ word_at s.mem a
unfolding read_pte
read_pte_lem a s h = rw (phys_read_u64_lem a s.mem h, read_pte) refl

module _ (next : ℕ) (s s' : Pool) (f : ℕ) (at : next ≡ frame_address f) (t : Takes f s s') where
  next-Holds : Holds next s'
  next-Holds = record {
    frame = f;
    address = at;
    in_pool = t.in_pool;
    taken = ground (arith, t.bitmap f);
  }

  Holds-Takes : (u : ℕ) → Holds u s → Holds u s'
  Holds-Takes u h = record {
    frame = h.frame;
    address = h.address;
    in_pool = h.in_pool;
    taken = ground (arith, t.bitmap h.frame, h.taken);
  }

  -- A taken frame is not the one that is handed out.
  apart : (u : ℕ) (h : Holds u s) → h.frame ≢ f
  apart u h e = cc (ap (λ g. test g s) e, h.taken, t.was_free)

  entry-Takes : (u i : ℕ) → Holds u s → i < 512 → entry u i s' ≡ entry u i s
  entry-Takes u i h l =
      read_pte_lem (u + i * 8) s' (Holds-IsSlot u i s h l)
      ∙ word_at_congr s'.mem s.mem (u + i * 8)
          (λ j k. t.others (u + i * 8 + j) (ground (arith, h.address, apart u h, k)))
      ∙ sym (read_pte_lem (u + i * 8) s (Holds-IsSlot u i s h l))

  entry-next : (i : ℕ) → i < 512 → entry next i s' ≡ 0
  unfolding word_at
  entry-next i l =
      read_pte_lem (next + i * 8) s' (Holds-IsSlot next i s' next-Holds l)
      ∙ word_at_congr s'.mem (λ a. 0) (next + i * 8)
          (λ j k. t.zeroed (next + i * 8 + j) (omega (arith, at)) (omega (arith, at, k)))

  -- The frame that is handed out is an empty table, of any depth.
  fresh-IsTable : (d : ℕ) → IsTable d next s'
  fresh-IsTable zero = next-Holds
  fresh-IsTable (suc d) = (
    next-Holds,
    λ i l p.
        let e : bit_and (entry next i s') valid_bit ≡ 0 =
          ap (λ pte. bit_and pte valid_bit) (entry-next i l) in
        absurd (ground (arith, e, p.valid)),
  )

  Takes-Extends : Extends s s'
  Takes-Extends = record {
    held = Holds-Takes;
    entries = λ u i h l v. entry-Takes u i h l;
    fresh = λ u i h l v p d.
        let e : bit_and (entry u i s') valid_bit ≡ bit_and (entry u i s) valid_bit =
          ap (λ pte. bit_and pte valid_bit) (entry-Takes u i h l) in
        absurd (ground (arith, e, v, p.valid));
  }

  -- The slot of a taken table, in which the new table is entered.
  module _ (table i : ℕ) (h : Holds table s) (l : i < 512) where
    linked : Pool
    linked = write_pte (table + i * 8) (nonleaf next) s'

    entry-linked :
        (u j : ℕ)
        → Holds u s'
        → j < 512
        → entry u j linked ≡ (if table + i * 8 == u + j * 8 then nonleaf next else entry u j s')
    unfolding linked
    entry-linked u j k m =
        entry-write_pte (table + i * 8) (nonleaf next) u j s' (Holds-IsSlot table i s h l)
          (nonleaf-lt next (omega (arith, at, t.in_pool))) k m

    -- The new table is empty, so it is a table of any depth.
    entry-next_linked : (j : ℕ) → j < 512 → entry next j linked ≡ 0
    entry-next_linked j m =
        let other : (table + i * 8 == next + j * 8) ≡ false =
          ground (arith, h.address, at, apart table h) in
        entry-linked next j next-Holds m ∙ rw other (entry-next j m)

    next-IsTable : (d : ℕ) → IsTable d next linked
    unfolding linked
    next-IsTable zero = Holds-write_pte (table + i * 8) (nonleaf next) next s' next-Holds
    next-IsTable (suc d) = (
      Holds-write_pte (table + i * 8) (nonleaf next) next s' next-Holds,
      λ j m p.
          let e : bit_and (entry next j linked) valid_bit ≡ 0 =
            ap (λ pte. bit_and pte valid_bit) (entry-next_linked j m) in
          absurd (ground (arith, e, p.valid)),
    )

    entry-linked_self : entry table i linked ≡ nonleaf next
    entry-linked_self =
        let here : (table + i * 8 == table + i * 8) ≡ true = ground arith in
        entry-linked table i (Holds-Takes table h) l ∙ rw here refl

    linked-Points : Points (nonleaf next) × (pte_pa (nonleaf next) ≡ next)
    linked-Points = (
      record { valid = nonleaf-valid next; inner = nonleaf-has next },
      pte_pa-nonleaf next (omega (arith, at)) (omega (arith, at, t.in_pool)),
    )

    -- What the slot of an entry holds, whether it is the slot that was written or not.
    entry_cases :
        (u j : ℕ)
        → Holds u s
        → j < 512
        → ((entry u j linked ≡ nonleaf next) × (entry u j s ≡ entry table i s))
          ⊎ (entry u j linked ≡ entry u j s)
    entry_cases u j k m = elim (Bool-cases (table + i * 8 == u + j * 8)) [
      | inl e ↦ inl (
        entry-linked u j (Holds-Takes u k) m ∙ rw e refl,
        ap (λ a. read_pte a s) (sym ((==_iff (table + i * 8) (u + j * 8)).0 e)),
      )
      | inr e ↦ inr (entry-linked u j (Holds-Takes u k) m ∙ rw e (entry-Takes u j k m))
    ]

    linked-Extends : (bit_and (entry table i s) valid_bit == 0) ≡ true → Extends s linked
    unfolding linked write_pte
    linked-Extends v = record {
      held = λ u k. Holds-write_pte (table + i * 8) (nonleaf next) u s' (Holds-Takes u k);
      entries = λ u j k m w. elim (entry_cases u j k m) [
        | inl (_, e) ↦ absurd (ground (arith, ap (λ pte. bit_and pte valid_bit) e, v, w))
        | inr e ↦ e
      ];
      fresh = λ u j k m w p d. elim (entry_cases u j k m) [
        | inl (e, _) ↦
            subst (λ a. IsTable d a linked) (sym (ap pte_pa e ∙ linked-Points.1)) (next-IsTable d)
        | inr e ↦ absurd (ground (arith, ap (λ pte. bit_and pte valid_bit) e, w, p.valid))
      ];
    }

    linked-Stepped :
        (d : ℕ)
        → (bit_and (entry table i s) valid_bit == 0) ≡ true
        → Stepped d table i s (ok next, linked)
    linked-Stepped d v = (
      linked-Extends v,
      next-IsTable d,
      subst (λ pte. Leads pte next) (sym entry-linked_self) linked-Points,
    )

pub next_table-Stepped :
    (d table level va : ℕ) (s : Pool)
    → IsTable (suc d) table s
    → Stepped d table (vpn va level) s (next_table table level va s)
unfolding next_table
next_table-Stepped d table level va s (h, below) =
    elim (Bool-cases (bit_and (entry table i s) valid_bit == 0)) [
      | inr v ↦ elim (Bool-cases (has (entry table i s) perm_mask)) [
        | inl e ↦ rw (v, next_table, e) (Extends-refl s)
        | inr e ↦
            let p : Points (entry table i s) = record { valid = v; inner = e } in
            rw (v, next_table, e) (Extends-refl s, below i in_table p, (p, refl))
      ]
      | inl v ↦ elim (Option-cases (alloc s)) [
        | inl e ↦ rw (v, next_table, e) (Extends-refl s)
        | inr ((next, s'), e) ↦
            let (f, address, t) = subst (Allocates s) e (alloc-Allocates s) in
            rw (v, next_table, e)
              (unfold linked in linked-Stepped next s s' f address t table i h in_table d v)
      ]
    ]
  where
    i : ℕ
    i = vpn va level

    in_table : vpn va level < 512
    in_table = unfold vpn in omega arith

-- A new address space is a tree of tables, and every other one stays as it was.
pub new_space-IsTable :
    (s s' : Pool) (root : ℕ) → new_space s ≡ some (root, s') → IsTable 2 root s' × Extends s s'
unfolding new_space
new_space-IsTable s s' root e =
    let (f, address, t) = subst (Allocates s) e (alloc-Allocates s) in
    (fresh-IsTable root s s' f address t 2, Takes-Extends root s s' f address t)
