-- ===== src/Base/Recent.antt =====
-- A list that serves as a ring: the value written as number `n` lies at `n % size`, so that the
-- ring holds the last `size` values.
use Prim.Native.Nat.{ℕ, zero, suc, ◌+◌, ◌-◌, ◌%◌, ◌<◌}
use mathlib.Core.Path.{◌≡◌, ap, ◌∙◌}
use mathlib.Core.Logic.{◌≢◌}
use mathlib.Core.List.{List, [], ◌∷◌}
use native.Mathlib.Omega.{arith}
use kernai.Base.Lists.{length, length-set, get_or, get_or-set_self, get_or-set_ne, set}

-- The `n` newest of `hs`, which lists the newest first, in the order they came in.
abbrev pub oldest_first {ℓ} : {A : Type ℓ} → A → ℕ → List A → List A
oldest_first d zero hs = []
oldest_first d (suc n) hs = get_or hs n d ∷ oldest_first d n hs

-- The ring `r` holds the newest values of `hs`, which lists the newest first.
pub record IsRecent {ℓ} {A : Type ℓ} (size : ℕ) (d : A) (r hs : List A) : Type ℓ where
  pub bounded : length r ≡ size
  pub newest :
      (i : ℕ) → i < size → i < length hs → get_or r ((length hs - 1 - i) % size) d ≡ get_or hs i d

-- Numbers less than `size` apart lie at different places.
abbrev pub IsRingSize : ℕ → Type 0
IsRingSize size =
    ((n : ℕ) → n % size < size) × ((m n : ℕ) → m < n → n < m + size → m % size ≢ n % size)

module _ {ℓ} {A : Type ℓ} (size : ℕ) (ring_size : IsRingSize size) (d : A) where
  pub IsRecent-[] : (r : List A) → length r ≡ size → IsRecent size d r []
  IsRecent-[] r h = record { bounded = h; newest = λ i l m. absurd (omega arith) }

  -- Writing the next value.
  pub IsRecent-set :
      (r hs : List A) (x : A)
      → IsRecent size d r hs
      → IsRecent size d (set r (length hs % size) x) (x ∷ hs)
  IsRecent-set r hs x h = record {
    bounded = length-set r (length hs % size) x ∙ h.bounded;
    newest = at;
  }
    where
      at :
          (i : ℕ)
          → i < size
          → i < length (x ∷ hs)
          → get_or (set r (length hs % size) x) ((length (x ∷ hs) - 1 - i) % size) d
            ≡ get_or (x ∷ hs) i d
      at zero l m =
          let e : length (x ∷ hs) - 1 - 0 ≡ length hs = omega arith in
          ap (λ n. get_or (set r (length hs % size) x) (n % size) d) e
          ∙ get_or-set_self r (length hs % size) x d
              (omega (arith, h.bounded, ring_size.0 (length hs)))
      at (suc i) l m =
          let e : length (x ∷ hs) - 1 - suc i ≡ length hs - 1 - i = omega arith in
          ap (λ n. get_or (set r (length hs % size) x) (n % size) d) e
          ∙ get_or-set_ne r (length hs % size) ((length hs - 1 - i) % size) x d (λ s.
            ring_size.1 (length hs - 1 - i) (length hs) (omega arith) (omega arith)
              (omega (arith, s)))
          ∙ h.newest i (omega arith) (omega arith)

pub IsRingSize-8 : IsRingSize 8
IsRingSize-8 = (λ n. omega arith, λ m n l u e. omega arith)

pub IsRingSize-4 : IsRingSize 4
IsRingSize-4 = (λ n. omega arith, λ m n l u e. omega arith)
