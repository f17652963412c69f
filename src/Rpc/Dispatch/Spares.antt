-- ===== src/Rpc/Dispatch/Spares.antt =====
-- kernel/src/rpc.rs: requests touch pending payloads only.
use kernai.Base.{
  ℕ, ◌≡◌, ◌≢◌, refl, sym, ◌∙◌, subst, ap, inl, inr, ltb, Bool-cases, List, Result, ok, err,
  get_or-set_ne, set,
}
use native.Mathlib.Decide.{ℕ_discrete}
use kernai.Payload.Slot.{Slot, State, is_pending, new_slot, max_proc}
use kernai.Payload.Hooks.{Refusal, kill_pid, set_deadline}
use kernai.Payload.Kills.{Kills, kill_pid-Kills, is_pending-true}
use kernai.Payload.Lineage.{slot_of, Keeps, Keeps-refl}
use kernai.Payload.Soundness.{Quiet, Quiet-trans, kill_pid-Quiet, set_deadline-Quiet}
use kernai.Kernel.{Kernel, slot_at, put_slot}

-- A step that moves no lineage, leaves `CURRENT` as it is, and leaves every slot that is not
-- pending exactly as it was.
pub record Spares (k k' : Kernel) : Type 0 where
  pub quiet : Quiet k k'
  pub spared :
      (pid : ℕ)
      → (slot_of k.table pid).state ≢ State.pending
      → slot_of k'.table pid ≡ slot_of k.table pid

pub Spares-same : (k k' : Kernel) → k'.table ≡ k.table → k'.current ≡ k.current → Spares k k'
Spares-same k k' t c = record {
  quiet = record { table = subst (Keeps k.table) (sym t) (Keeps-refl k.table); current = c };
  spared = λ pid n. ap (λ x. slot_of x pid) t;
}

pub Spares-trans : (k l m : Kernel) → Spares k l → Spares l m → Spares k m
Spares-trans k l m a b = record {
  quiet = Quiet-trans k l m a.quiet b.quiet;
  spared = λ pid n.
      b.spared pid (subst (λ s. s.state ≢ State.pending) (sym (a.spared pid n)) n) ∙ a.spared pid n;
}

-- A store into a slot that is pending.
set-spared :
    (t : List Slot) (pid other : ℕ) (s : Slot)
    → (slot_of t pid).state ≡ State.pending
    → (slot_of t other).state ≢ State.pending
    → slot_of (set t pid s) other ≡ slot_of t other
set-spared t pid other s p n = elim (ℕ_discrete other pid) [
  | yes e ↦ absurd (n (subst (λ i. (slot_of t i).state ≡ State.pending) (sym e) p))
  | no e ↦ get_or-set_ne t pid other s new_slot (λ f. e (sym f))
]

pub kill_pid-Spares : (pid : ℕ) (k : Kernel) → Spares k (kill_pid pid k).1
unfolding put_slot slot_at
kill_pid-Spares pid k = record {
  quiet = kill_pid-Quiet pid k;
  spared = λ other n. spares (kill_pid pid k) (kill_pid-Kills pid k) other n;
}
  where
    spares :
        (r : Result Refusal ℕ × Kernel)
        → Kills pid k r
        → (other : ℕ) → (slot_of k.table other).state ≢ State.pending
        → slot_of r.1.table other ≡ slot_of k.table other
    spares (err Refusal.no_such_pid, k') (l, e) other n = ap (λ x. slot_of x.table other) e
    spares (err Refusal.not_alive, k') (l, p, e) other n = ap (λ x. slot_of x.table other) e
    spares (ok t, k') (l, p, r) other n =
        ap (λ x. slot_of x other) r.table ∙ set-spared k.table pid other _ p n

pub set_deadline-Spares : (pid units : ℕ) (k : Kernel) → Spares k (set_deadline pid units k).1
unfolding set_deadline put_slot slot_at
set_deadline-Spares pid units k = record { quiet = set_deadline-Quiet pid units k; spared = spares }
  where
    spares :
        (other : ℕ)
        → (slot_of k.table other).state ≢ State.pending
        → slot_of (set_deadline pid units k).1.table other ≡ slot_of k.table other
    spares other n = elim (Bool-cases (ltb pid max_proc)) [
      | inr l ↦ rw (l, set_deadline) refl
      | inl l ↦ elim (Bool-cases (is_pending (slot_at pid k).state)) [
        | inr p ↦ rw (l, set_deadline, p) refl
        | inl p ↦ rw (l, set_deadline, p) (set-spared k.table pid other _ (is_pending-true _ p) n)
      ]
    ]
