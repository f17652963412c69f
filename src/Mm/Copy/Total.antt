-- ===== src/Mm/Copy/Total.antt =====
-- `copy_from_user` of kernel/src/mm.rs answers on a range that the payload may read.
use kernai.Base.{
  ℕ, zero, suc, ◌+◌, ◌-◌, ◌%◌, ◌≤◌, ◌<◌, ◌≡◌, ◌∙◌, refl, sym, ap, subst, some, List, [], ◌++◌,
  arith,
}
use kernai.Hal.{pool_base, pool_end, usize_mod, phys_read, bytes_at}
use kernai.Frames.{Pool}
use kernai.Mm.{AddressSpace, translate_checked, page_size, user_read, copy_loop, copy_from_user}
use kernai.Mm.Copy.{phys_read-in_pool, shift, translate_checked-same_page, chunk}

-- A byte that the payload may read, in a frame of the pool.
abbrev pub Readable : AddressSpace → Pool → ℕ → Type 0
Readable root s a =
    (pa : ℕ) × (translate_checked root a user_read s ≡ some pa) × (pool_base ≤ pa) × (pa < pool_end)

-- The chunk of a readable range lies in the pool.
chunk_in_pool :
    (root cur n : ℕ) (s : Pool)
    → cur < usize_mod
    → 0 < n
    → cur % page_size + n ≤ page_size
    → ((i : ℕ) → i < n → Readable root s ((cur + i) % usize_mod))
    → (pa : ℕ) × (translate_checked root cur user_read s ≡ some pa)
      × (phys_read pa n s.mem ≡ some (bytes_at s.mem pa n))
chunk_in_pool root cur n s w pos fits h =
    let (pa, t, lo, hi) = h 0 pos in
    let (pb, u, lo', hi') = h (n - 1) (omega arith) in
    let first : translate_checked root cur user_read s ≡ some pa =
      subst (λ k. translate_checked root k user_read s ≡ some pa) (at 0 (omega arith) ∙ omega arith)
        t in
    let last : some (pa + (n - 1)) ≡ some pb =
      ap (shift (n - 1)) (sym first)
      ∙ sym (translate_checked-same_page root cur (n - 1) user_read s (omega arith))
      ∙ subst (λ k. translate_checked root k user_read s ≡ some pb) (at (n - 1) (omega arith)) u in
    let same : pa + (n - 1) ≡ pb = cc in (pa, first, phys_read-in_pool pa n s.mem lo (omega arith))
  where
    at : (i : ℕ) → i < n → (cur + i) % usize_mod ≡ cur + i
    at i l = omega arith

copy_loop_total :
    (fuel root cur left : ℕ) (s : Pool)
    → cur < usize_mod
    → left ≤ fuel
    → ((i : ℕ) → i < left → Readable root s ((cur + i) % usize_mod))
    → (bs : List ℕ) × (copy_loop fuel root cur left s ≡ some bs)
unfolding copy_loop
copy_loop_total zero root cur zero s w f h = ([], refl)
copy_loop_total zero root cur (suc left) s w f h = absurd (omega arith)
copy_loop_total (suc fuel) root cur zero s w f h = ([], refl)
copy_loop_total (suc fuel) root cur (suc left) s w f h =
    let n : ℕ = chunk cur (suc left) in
    let (pa, t, r) =
      chunk_in_pool root cur n s w (omega arith) (omega arith) (λ i l. h i (omega arith)) in
    let (more, m) =
      copy_loop_total fuel root ((cur + n) % usize_mod) (suc left - n) s (omega arith) (omega arith)
        (λ i l. subst (Readable root s) (place i l) (h (n + i) (omega arith))) in
    (bytes_at s.mem pa n ++ more, ground arith)
  where
    place :
        (i : ℕ)
        → i < suc left - chunk cur (suc left)
        → (cur + (chunk cur (suc left) + i)) % usize_mod
          ≡ ((cur + chunk cur (suc left)) % usize_mod + i) % usize_mod
    place i l = omega arith

-- `copy_from_user` answers whenever the payload may read every byte of the range itself and the
-- bytes lie in the pool.
pub copy_from_user_total :
    (root va len : ℕ) (s : Pool)
    → va < usize_mod
    → ((i : ℕ) → i < len → Readable root s ((va + i) % usize_mod))
    → (bs : List ℕ) × (copy_from_user root va len s ≡ some bs)
unfolding copy_from_user
copy_from_user_total root va len s w h =
    copy_loop_total len root (va % usize_mod) len s (omega arith) (omega arith)
      (λ i l. subst (Readable root s) (omega arith) (h i l))
