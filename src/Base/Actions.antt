-- ===== src/Base/Actions.antt =====
-- Results, and fallible steps over a state: an error keeps the state that it was raised in.
use mathlib.Core.Path.{◌≡◌, refl}
use mathlib.Core.Logic.{◌⊎◌, inl, inr}
use mathlib.Core.Option.{Option, none, some}

pub data Result {ℓ κ} (E : Type ℓ) (A : Type κ) : Type (ℓ ⊔ κ) where
  ok : A → Result E A
  err : E → Result E A

-- A call that changes a state of type `S` and may fail.
abbrev pub Action : Type 0 → Type 0 → Type 0 → Type 0
Action S E A = S → Result E A × S

module _ {S E : Type 0} where
  abbrev pub pure : {A : Type 0} → A → Action S E A
  pure a s = (ok a, s)

  abbrev pub fail : {A : Type 0} → E → Action S E A
  fail e s = (err e, s)

  infixl 5 ◌>>=◌ ◌>>◌
  unfoldable pub ◌>>=◌ : {A B : Type 0} → Action S E A → (A → Action S E B) → Action S E B
  ◌>>=◌ m f s = let (r, s') = m s in elim r [ ok a ↦ f a s' | err e ↦ (err e, s') ]

  abbrev pub ◌>>◌ : {B : Type 0} → Action S E (Unit {0}) → Action S E B → Action S E B
  m >> k = m >>= λ _. k

module _ {E A : Type 0} where
  pub Result-cases : (r : Result E A) → ((a : A) × (r ≡ ok a)) ⊎ ((e : E) × (r ≡ err e))
  Result-cases (ok a) = inl (a, refl)
  Result-cases (err e) = inr (e, refl)

-- Every step of an action, failed or not, keeps a predicate of the state.
module _ {S E : Type 0} (P : S → Type 0) where
  abbrev pub Preserves : {A : Type 0} → Action S E A → Type 0
  Preserves m = (s : S) → P s → P (m s).1

  pub bind-Preserves :
      {A B : Type 0} (m : Action S E A) (f : A → Action S E B)
      → Preserves m
      → ((a : A) → Preserves (f a))
      → Preserves (m >>= f)
  unfolding ◌>>=◌
  bind-Preserves m f h k s p = elim (Result-cases (m s).0) [
    | inl (a, e) ↦ rw (e, ◌>>=◌) (k a (m s).1 (h s p))
    | inr (x, e) ↦ rw (e, ◌>>=◌) (h s p)
  ]

-- What follows from an action's success.
module _ {S E : Type 0} (Q : Type 0) where
  abbrev pub Shows : {A : Type 0} → Action S E A → Type 0
  Shows {A} m = (s : S) (a : A) → (m s).0 ≡ ok a → Q

  pub bind-Shows :
      {A B : Type 0} (m : Action S E A) (f : A → Action S E B)
      → ((a : A) (s : S) → (m s).0 ≡ ok a → Shows (f a))
      → Shows (m >>= f)
  unfolding ◌>>=◌
  bind-Shows {A} {B} m f k s b h = elim (Result-cases (m s).0) [
    | inl (a, e) ↦ k a s e (m s).1 b (rw (e, ◌>>=◌) at h)
    | inr (x, e) ↦ let c : ◌≡◌ {A = Result E B} (err x) (ok b) = rw (e, ◌>>=◌) at h in cc c
  ]

infixl 5 ◌>>=?◌
-- `?` on an option.
unfoldable pub ◌>>=?◌ {ℓ κ} : {A : Type ℓ} {B : Type κ} → Option A → (A → Option B) → Option B
none >>=? f = none
some a >>=? f = f a
