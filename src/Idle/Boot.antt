-- ===== src/Idle/Boot.antt =====
-- kernel/src/main.rs: the kernel boots into the idle loop sound.
use kernai.Base.{
  ℕ, zero, suc, ◌≡◌, refl, subst, inl, inr, true, Option, none, some, List, Option-cases,
  Result-cases, replicate,
}
use kernai.Frames.{Pool}
use kernai.Mm.{new_space, map_kernel}
use kernai.Traps.Handle.{arm, arm_first_tick}
use kernai.Payload.Slot.{new_slot, is_empty, max_proc}
use kernai.Payload.Lineage.{slot_of, Keeps-refl}
use kernai.Payload.Soundness.{Quiet, Quiet-trans, emit-Quiet}
use kernai.Payload.Soundness.Seeds.{IsIdle, Quiet-IsIdle}
use kernai.Idle.{init_paging, kmain}
use kernai.Kernel.{Kernel, Body, emit, read_time, boot_state}

is_empty-replicate : (n pid : ℕ) → is_empty (slot_of (replicate n new_slot) pid).state ≡ true
is_empty-replicate zero pid = refl
is_empty-replicate (suc n) zero = refl
is_empty-replicate (suc n) (suc pid) = is_empty-replicate n pid

boot_state-IsIdle :
    (p : Pool) (clock : ℕ → ℕ) (rx : List (Option ℕ)) → IsIdle (boot_state p clock rx)
boot_state-IsIdle p clock rx = record {
  sound = record {
    attenuated = record { obeys = λ pid o. cc (o.1, is_empty-replicate max_proc pid) };
    running = λ n. absurd (n refl);
  };
  idle = refl;
}

-- A kernel that was built keeps the table of the one before.
abbrev Built : Kernel → Option Kernel → Type 0
Built k none = Unit
Built k (some k') = Quiet k k'

init_paging-Built : (k : Kernel) → Built k (init_paging k)
unfolding init_paging
init_paging-Built k = elim (Option-cases (new_space k.pool)) [
  | inl e ↦ rw (e, init_paging) tt
  | inr ((space, p), e) ↦ elim (Result-cases (map_kernel space p).0) [
    | inl (u, f) ↦ rw (e, init_paging, f) (record { table = Keeps-refl k.table; current = refl })
    | inr (x, f) ↦ rw (e, init_paging, f) tt
  ]
]

arm_first_tick-Quiet : (k : Kernel) → Quiet k (arm_first_tick k)
unfolding arm_first_tick arm read_time
arm_first_tick-Quiet k = record { table = Keeps-refl k.table; current = refl }

kmain-Built : (k : Kernel) → Built k (kmain k)
unfolding kmain
kmain-Built k = elim (Option-cases (init_paging greeted)) [
  | inl e ↦ rw (e, kmain) tt
  | inr (k1, e) ↦
      rw (e, kmain)
        (Quiet-trans k greeted _ (emit-Quiet Body.hello k) (
          Quiet-trans greeted k1 _ (subst (Built greeted) e (init_paging-Built greeted))
            (arm_first_tick-Quiet k1)))
]
  where
    greeted : Kernel
    greeted = emit Body.hello k

-- A kernel that boots is sound, and no payload has the CPU.
pub kmain-IsIdle :
    (p : Pool) (clock : ℕ → ℕ) (rx : List (Option ℕ)) (k : Kernel)
    → kmain (boot_state p clock rx) ≡ some k
    → IsIdle k
kmain-IsIdle p clock rx k h =
    Quiet-IsIdle (boot_state p clock rx) k
      (subst (Built (boot_state p clock rx)) h (kmain-Built (boot_state p clock rx)))
      (boot_state-IsIdle p clock rx)
