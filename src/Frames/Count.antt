-- ===== src/Frames/Count.antt =====
-- `ALLOCATED` of kernel/src/frames.rs counts the bits that are set.
use kernai.Base.{
  ℕ, zero, suc, ◌+◌, ◌≤◌, ◌<◌, ◌≡◌, ap, subst, refl, sym, ◌∙◌, Bool, true, false, not, ◌||◌, ◌&&◌,
  some, arith, ◌==◌, Bool-cases, ==_iff, ltb, inl, inr, if◌then◌else◌,
}
use mathlib.Core.Path.{fun_ext}
use kernai.Frames.{Pool, pool_frames, test, alloc, free, stats}
use kernai.Frames.Alloc.{
  Frees, Allocates, alloc-Allocates, free-Frees, free-foreign, foreign_or_frame, keep_free,
}

-- How many numbers below `n` pass the test.
unfoldable pub count_below : ℕ → (ℕ → Bool) → ℕ
count_below zero p = 0
count_below (suc n) p = (if p n then 1 else 0) + count_below n p

count_below-le : (n : ℕ) (p : ℕ → Bool) → count_below n p ≤ n
unfolding count_below
count_below-le zero p = omega arith
count_below-le (suc n) p = ground (arith, count_below-le n p)

-- The counter is the number of frames that are marked.
pub record IsCounted (s : Pool) : Type 0 where
  pub counted : s.allocated ≡ count_below pool_frames (λ g. test g s)

count_below-insert :
    (n f : ℕ) (p q : ℕ → Bool)
    → p f ≡ false
    → ((g : ℕ) → q g ≡ ((f == g) || p g))
    → count_below n q ≡ count_below n p + (if ltb f n then 1 else 0)
unfolding count_below
count_below-insert zero f p q e h = ground arith
count_below-insert (suc n) f p q e h =
    ground (arith, h n, count_below-insert n f p q e h, ap p (let k : f ≡ f = refl in k), at n)
  where
    at : (n : ℕ) → f ≡ n → p n ≡ false
    at n k = subst (λ g. p g ≡ false) k e

-- `alloc` keeps the counter equal to the number of marked frames, without a wrap.
pub alloc-IsCounted :
    (s : Pool) (pa : ℕ) (s' : Pool) → IsCounted s → alloc s ≡ some (pa, s') → IsCounted s'
alloc-IsCounted s pa s' c e =
    let (f, at, t) = subst (Allocates s) e (alloc-Allocates s) in
    record {
      counted = ground (
        arith,
        c.counted,
        t.counter,
        t.in_pool,
        count_below-insert pool_frames f (λ g. test g s) (λ g. test g s') t.was_free t.bitmap,
        count_below-le pool_frames (λ g. test g s'),
      );
    }

put_back :
    (f g : ℕ) (p q : ℕ → Bool) → p f ≡ true → q g ≡ (not (f == g) && p g) → p g ≡ ((f == g) || q g)
put_back f g p q e h = elim (Bool-cases (f == g)) [
  | inl same ↦ rw same (subst (λ k. p k ≡ true) ((==_iff f g).0 same) e)
  | inr other ↦ rw (h, other)
]

Frees-IsCounted :
    (f : ℕ) (s s' : Pool) → f < pool_frames → IsCounted s → Frees f s s' → IsCounted s'
Frees-IsCounted f s s' l c r = elim (Bool-cases (test f s)) [
  | inl e ↦ record {
    counted = ground (
      arith,
      c.counted,
      r.counter,
      e,
      count_below-insert pool_frames f (λ g. test g s') (λ g. test g s)
          (r.bitmap f ∙ rw ((==_iff f f).1 refl))
          (λ g. put_back f g (λ k. test k s) (λ k. test k s') e (r.bitmap g)),
      count_below-le pool_frames (λ g. test g s),
    );
  }
  | inr e ↦ record {
    counted =
        r.counter ∙ rw e (c.counted ∙ ap (count_below pool_frames) (fun_ext (λ g. unchanged g e)));
  }
]
  where
    unchanged : (g : ℕ) → test f s ≡ false → test g s ≡ test g s'
    unchanged g e = keep_free f g s e ∙ sym (r.bitmap g)

-- `free` keeps the counter equal to the number of marked frames, whatever address it is given.
pub free-IsCounted : (pa : ℕ) (s : Pool) → IsCounted s → IsCounted (free pa s)
free-IsCounted pa s c = elim (foreign_or_frame pa) [
  | inl out ↦ rw (free-foreign pa s out) c
  | inr (f, e, l) ↦ rw e (Frees-IsCounted f s _ l c (free-Frees f s l))
]

-- The count never exceeds the pool, so neither does what `stats` reports.
pub allocated-le : (s : Pool) → IsCounted s → (stats s).0 ≤ (stats s).1
unfolding stats
allocated-le s c = omega (arith, c.counted, count_below-le pool_frames (λ g. test g s))
