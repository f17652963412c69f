-- ===== src/Rpc/Tools/Guards.antt =====
-- kernel/src/rpc.rs: the guard of the operation ids.
use kernai.Base.{
  ℕ, zero, suc, ◌≡◌, ◌<◌, refl, inl, inr, true, false, some, List, [], ◌∷◌, ◌==◌, length, set,
  arith, ◌%◌, Bool-cases,
}
use kernai.Text.{Text}
use kernai.Rpc.Ops.{Ops, op_slots, fnv1a, any_slot, op_seen, op_record}
use kernai.Rpc.Answers.{respond_duplicate}
use kernai.Rpc.Tools.{Verdict, served, once}
use kernai.Kernel.{Kernel}

any_slot-set : (xs : List ℕ) (i h : ℕ) → i < length xs → any_slot (set xs i h) h ≡ true
unfolding any_slot
any_slot-set [] i h l = absurd (omega arith)
any_slot-set (x ∷ xs) zero h l = ground arith
any_slot-set (x ∷ xs) (suc i) h l = elim (Bool-cases (x == h)) [
  | inl e ↦ rw e refl
  | inr e ↦ rw e (any_slot-set xs i h (omega arith))
]

-- The operation just recorded is one that was seen.
pub op_seen-op_record :
    (h : ℕ) (o : Ops) → length o.slots ≡ op_slots → op_seen h (op_record h o) ≡ true
unfolding op_seen op_record
op_seen-op_record h o n = any_slot-set o.slots (o.head % op_slots) h (omega (arith, n))

pub once-seen :
    (op id : Text) (act : Kernel → Verdict × Kernel) (k : Kernel)
    → op_seen (fnv1a op) k.ops ≡ true
    → once (some op) id act k ≡ (served, respond_duplicate id op k)
unfolding once
once-seen op id act k h = rw h refl

pub once-new :
    (op id : Text) (act : Kernel → Verdict × Kernel) (k : Kernel)
    → op_seen (fnv1a op) k.ops ≡ false
    → once (some op) id act k ≡ act (record k { ops = op_record (fnv1a op) k.ops })
unfolding once
once-new op id act k h = rw h refl
