-- ===== src/Payload/Lineage.antt =====
-- The capability lattice over the process table of kernel/src/payload.rs: what an occupied slot
-- may hold, and which changes of the table keep that.
use kernai.Base.{
  ℕ, zero, suc, ◌+◌, ◌≤◌, ◌<◌, ◌≡◌, ◌≢◌, inl, inr, ◌∙◌, sym, refl, subst, ap, Bool, true, false,
  some, List, [], ◌∷◌, bit_and, length, get_or, set, length-set, get_or-set_self, get_or-set_ne,
  arith, Bool-cases,
}
use native.Mathlib.Decide.{ℕ_discrete, dec_lt}
use kernai.Bits.{bit, bit-bit_and}
use kernai.Payload.Slot.{Slot, State, new_slot, is_empty, no_pid}
use kernai.Payload.Images.{image_at}
use kernai.Payload.Table.{position}

-- Every capability of `a` is one of `b`.
pub record Within (a b : ℕ) : Type 0 where
  pub each : (j : ℕ) → bit a j ≤ bit b j

pub Within-refl : (a : ℕ) → Within a a
Within-refl a = record { each = λ j. omega arith }

pub Within-trans : (a b c : ℕ) → Within a b → Within b c → Within a c
Within-trans a b c h k = record { each = λ j. omega (arith, h.each j, k.each j) }

pub bit_and-Within_left : (a b : ℕ) → Within (bit_and a b) a
bit_and-Within_left a b = record { each = λ j. omega (arith, bit-bit_and j a b) }

pub bit_and-Within_right : (a b : ℕ) → Within (bit_and a b) b
bit_and-Within_right a b = record { each = λ j. omega (arith, bit-bit_and j a b) }

abbrev pub slot_of : List Slot → ℕ → Slot
slot_of t pid = get_or t pid new_slot

abbrev pub IsOccupied : List Slot → ℕ → Type 0
IsOccupied t pid = (pid < length t) × (is_empty (slot_of t pid).state ≡ false)

-- The rules of one slot in its table: under the image's ceiling, and under what the parent holds.
pub record Obeys (t : List Slot) (s : Slot) : Type 0 where
  pub ceiling : Within s.caps (image_at s.image).caps
  pub parent : s.parent ≢ no_pid → IsOccupied t s.parent × Within s.caps (slot_of t s.parent).caps

-- Every occupied slot obeys the rules.
pub record IsAttenuated (t : List Slot) : Type 0 where
  pub obeys : (pid : ℕ) → IsOccupied t pid → Obeys t (slot_of t pid)

-- A change of the table that moves no capability: the same slots are occupied, by the same image,
-- parent and capabilities.
pub record SameLineage (s s' : Slot) : Type 0 where
  pub occupied : is_empty s'.state ≡ is_empty s.state
  pub image : s'.image ≡ s.image
  pub caps : s'.caps ≡ s.caps
  pub parent : s'.parent ≡ s.parent

pub record Keeps (t t' : List Slot) : Type 0 where
  pub size : length t' ≡ length t
  pub each : (pid : ℕ) → SameLineage (slot_of t pid) (slot_of t' pid)

pub SameLineage-refl : (s : Slot) → SameLineage s s
SameLineage-refl s = record { occupied = refl; image = refl; caps = refl; parent = refl }

pub Keeps-refl : (t : List Slot) → Keeps t t
Keeps-refl t = record { size = refl; each = λ pid. SameLineage-refl (slot_of t pid) }

pub Keeps-trans : (t u v : List Slot) → Keeps t u → Keeps u v → Keeps t v
Keeps-trans t u v h k = record {
  size = k.size ∙ h.size;
  each = λ pid.
      let a = h.each pid in
      let b = k.each pid in
      record {
        occupied = b.occupied ∙ a.occupied;
        image = b.image ∙ a.image;
        caps = b.caps ∙ a.caps;
        parent = b.parent ∙ a.parent;
      };
}

set_beyond : (t : List Slot) (pid : ℕ) (s : Slot) → ¬ (pid < length t) → set t pid s ≡ t
set_beyond [] pid s h = refl
set_beyond (x ∷ t) zero s h = absurd (h (omega arith))
set_beyond (x ∷ t) (suc pid) s h = ap (λ r. x ∷ r) (set_beyond t pid s (λ l. h (omega arith)))

-- A store that changes no lineage.
pub Keeps-set :
    (t : List Slot) (pid : ℕ) (s : Slot) → SameLineage (slot_of t pid) s → Keeps t (set t pid s)
Keeps-set t pid s h = elim (dec_lt pid (length t)) [
  | no out ↦ rw (set_beyond t pid s out) (Keeps-refl t)
  | yes l ↦ record {
    size = length-set t pid s;
    each = λ q. elim (ℕ_discrete pid q) [
      | yes e ↦
          subst (λ r. SameLineage (slot_of t r) (slot_of (set t pid s) r)) e
            (rw (get_or-set_self t pid s new_slot l) h)
      | no ne ↦ rw (get_or-set_ne t pid q s new_slot ne) (SameLineage-refl (slot_of t q))
    ];
  }
]

pub Keeps-IsAttenuated : (t t' : List Slot) → Keeps t t' → IsAttenuated t → IsAttenuated t'
Keeps-IsAttenuated t t' k h = record {
  obeys = λ pid o.
      let s = k.each pid in
      let old = h.obeys pid (omega (arith, k.size, o.0), sym s.occupied ∙ o.1) in
      record {
        ceiling = rw (s.caps, s.image) old.ceiling;
        parent = λ p.
            let up = old.parent (subst (λ x. x ≢ no_pid) s.parent p) in
            let q = k.each (slot_of t pid).parent in
            rw (s.parent, s.caps)
              ((omega (arith, k.size, up.0.0), q.occupied ∙ up.0.1), rw q.caps up.1);
      };
}

-- Filling an empty slot with one that obeys the rules.
pub fill-IsAttenuated :
    (t : List Slot) (pid : ℕ) (s : Slot)
    → pid < length t
    → is_empty (slot_of t pid).state ≡ true
    → Obeys t s
    → IsAttenuated t
    → IsAttenuated (set t pid s)
fill-IsAttenuated t pid s l e o h = record { obeys = λ q oc. at q oc (ℕ_discrete pid q) }
  where
    t' : List Slot
    t' = set t pid s

    still : (q : ℕ) → IsOccupied t q → slot_of t' q ≡ slot_of t q
    still q oc =
        get_or-set_ne t pid q s new_slot (λ same. cc (ap (λ r. is_empty (slot_of t r).state) same))

    lift : (r : Slot) → Obeys t r → Obeys t' r
    lift r ob = record {
      ceiling = ob.ceiling;
      parent = λ p.
          let up = ob.parent p in
          let same = still r.parent up.0 in
          (
            (omega (arith, length-set t pid s, up.0.0), ap (λ x. is_empty x.state) same ∙ up.0.1),
            rw same up.1,
          );
    }

    at : (q : ℕ) → IsOccupied t' q → Dec (pid ≡ q) → Obeys t' (slot_of t' q)
    at q oc (yes same) =
        subst (λ r. Obeys t' (slot_of t' r)) same
          (rw (get_or-set_self t pid s new_slot l) (lift s o))
    at q oc (no ne) =
        let eq : slot_of t' q ≡ slot_of t q = get_or-set_ne t pid q s new_slot ne in
        rw eq (
          lift (slot_of t q) (
            h.obeys q (
              omega (arith, length-set t pid s, oc.0),
              sym (ap (λ x. is_empty x.state) eq) ∙ oc.1,
            )))

-- The slots down a delegation chain.
pub data Descends (t : List Slot) : ℕ → ℕ → Type 0 where
  itself : (pid : ℕ) → Descends t pid pid
  child_of :
      (pid anc : ℕ)
      → (slot_of t pid).parent ≢ no_pid
      → Descends t (slot_of t pid).parent anc
      → Descends t pid anc

-- Down a delegation chain of any length capabilities only shrink.
pub Descends-Within :
    (t : List Slot) {pid anc : ℕ}
    → IsAttenuated t
    → IsOccupied t pid
    → Descends t pid anc
    → Within (slot_of t pid).caps (slot_of t anc).caps
Descends-Within t h o (itself pid) = Within-refl (slot_of t pid).caps
Descends-Within t h o (child_of pid anc p d) =
    let up = (h.obeys pid o).parent p in
    Within-trans (slot_of t pid).caps (slot_of t (slot_of t pid).parent).caps (slot_of t anc).caps
      up.1 (Descends-Within t h up.0 d)

-- `position` finds a slot that passes the test.
pub position_lem :
    (p : State → Bool) (t : List Slot) (from pid : ℕ)
    → position p t from ≡ some pid
    → (i : ℕ) × (pid ≡ from + i) × (i < length t) × (p (slot_of t i).state ≡ true)
unfolding position
position_lem p [] from pid h = absurd (cc)
position_lem p (s ∷ t) from pid h = elim (Bool-cases (p s.state)) [
  | inl e ↦ (0, ground arith, omega arith, e)
  | inr e ↦
      let (i, at, l, m) = position_lem p t (from + 1) pid (rw e at h) in
      (suc i, omega arith, omega arith, m)
]
