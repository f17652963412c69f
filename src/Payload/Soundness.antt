-- ===== src/Payload/Soundness.antt =====
-- The scheduler and the operator's tools of kernel/src/payload.rs keep the capability lattice.
pub mod Running
pub mod Seeds
pub mod Picks
pub mod Passes
use kernai.Base.{
  ℕ, zero, suc, ◌+◌, ◌-◌, ◌^◌, ◌≤◌, ◌<◌, ◌≡◌, ◌≢◌, ◌⊎◌, inl, inr, ◌∙◌, sym, refl, subst, ap, Bool,
  true, false, not, Option, none, some, List, [], ◌∷◌, ◌==◌, ==_iff, length, get_or, set, arith,
  Bool-cases, Option-cases, Result, ok, err, ltb, bit_or, if◌then◌else◌,
}
use kernai.Frames.{Pool, alloc}
use kernai.Payload.Slot.{
  Slot, State, new_slot, is_empty, is_pending, is_running, is_terminal, no_pid, max_proc,
}
use kernai.Payload.Images.{Build}
use kernai.Payload.Table.{current_pid, set_state, leave_current, emit_start}
use kernai.Payload.Hooks.{
  mark_faulted, check_deadline, on_tick, kill_pid, set_deadline, emit_killed_operator,
  elapsed_since,
}
use kernai.Payload.Preempt.{resume_frame_for, suspend, preempt_with, maybe_preempt}
use kernai.Traps.Frame.{TrapFrame}
use kernai.Kernel.{Kernel, Body, slot_at, put_slot, emit, emit_as, take_id, read_time, getchar}
use kernai.Payload.Lineage.{
  slot_of, IsOccupied, SameLineage, Keeps, Keeps-refl, Keeps-trans, Keeps-set,
}
use kernai.Payload.Attenuation.{IsSound, Keeps-IsSound, set_state-Keeps, current_pid-some}

-- A step that moves no lineage and leaves `CURRENT` as it is.
pub record Quiet (k k' : Kernel) : Type 0 where
  pub table : Keeps k.table k'.table
  pub current : k'.current ≡ k.current

pub Quiet-refl : (k : Kernel) → Quiet k k
Quiet-refl k = record { table = Keeps-refl k.table; current = refl }

pub Quiet-trans : (k l m : Kernel) → Quiet k l → Quiet l m → Quiet k m
Quiet-trans k l m a b = record {
  table = Keeps-trans k.table l.table m.table a.table b.table;
  current = b.current ∙ a.current;
}

pub Quiet-IsSound : (k k' : Kernel) → Quiet k k' → IsSound k → IsSound k'
Quiet-IsSound k k' q s = Keeps-IsSound k k' s q.table (inl q.current)

pub occupied_of_running : (s : State) → is_running s ≡ true → is_empty s ≡ false
occupied_of_running State.empty h = cc
occupied_of_running _ h = refl

pub occupied_of_pending : (s : State) → is_pending s ≡ true → is_empty s ≡ false
occupied_of_pending State.empty h = cc
occupied_of_pending _ h = refl

pub put_slot-Quiet :
    (pid : ℕ) (s : Slot) (k : Kernel)
    → SameLineage (slot_of k.table pid) s
    → Quiet k (put_slot pid s k)
unfolding put_slot
put_slot-Quiet pid s k h = record { table = Keeps-set k.table pid s h; current = refl }

pub set_state-Quiet :
    (pid : ℕ) (st : State) (k : Kernel)
    → is_empty (slot_at pid k).state ≡ false
    → is_empty st ≡ false
    → Quiet k (set_state pid st k)
unfolding put_slot slot_at
set_state-Quiet pid st k o e = record { table = set_state-Keeps pid st k o e; current = refl }

pub emit-Quiet : (b : Body) (k : Kernel) → Quiet k (emit b k)
unfolding emit
emit-Quiet b k = record { table = Keeps-refl k.table; current = refl }

pub elapsed_since-Quiet : (t : ℕ) (k : Kernel) → Quiet k (elapsed_since t k).1
unfolding elapsed_since read_time
elapsed_since-Quiet t k = record { table = Keeps-refl k.table; current = refl }

-- The deadline check moves no capability.
pub on_tick-Quiet : (k : Kernel) → Quiet k (on_tick k).1
unfolding on_tick elapsed_since read_time
on_tick-Quiet k = elim (Option-cases (current_pid k)) [
  | inl e ↦ rw (e, on_tick) (Quiet-refl k)
  | inr (pid, e) ↦ elim (Bool-cases (is_running (slot_at pid k).state)) [
    | inr r ↦ rw (e, on_tick, r) (Quiet-refl k)
    | inl r ↦ elim (Bool-cases ((slot_at pid k).deadline == 0)) [
      | inl d ↦ rw (e, on_tick, r, d) (Quiet-refl k)
      | inr d ↦ rw (e, on_tick, r, d) (overdue pid r)
    ]
  ]
]
  where
    ticked : Kernel
    ticked = record k { reads = k.reads + 1 }

    same : Quiet k ticked
    same = record { table = Keeps-refl k.table; current = refl }

    overdue : (pid : ℕ) → is_running (slot_at pid k).state ≡ true → Quiet k (check_deadline pid k).1
    overdue pid r =
        elim (Bool-cases
          (ltb (slot_at pid k).deadline (k.clock k.reads - (slot_at pid k).started_at))) [
            | inr c ↦ rw (c, check_deadline) same
            | inl c ↦
                rw (c, check_deadline)
                  (Quiet-trans k (set_state pid State.killed ticked) _
                    (Quiet-trans k ticked _ same
                      (set_state-Quiet pid State.killed ticked (alive pid r) refl))
                    (emit-Quiet _ (set_state pid State.killed ticked)))
          ]
      where
        alive :
            (p : ℕ)
            → is_running (slot_at p k).state ≡ true
            → is_empty (slot_at p ticked).state ≡ false
        alive p h = unfold slot_at in occupied_of_running (slot_of k.table p).state h

pub emit_killed_operator-Quiet : (pid : ℕ) (k : Kernel) → Quiet k (emit_killed_operator pid k)
unfolding emit_killed_operator emit elapsed_since read_time
emit_killed_operator-Quiet pid k = elim (Bool-cases ((slot_at pid k).started_at == 0)) [
  | inl e ↦ rw (e, emit_killed_operator) (record { table = Keeps-refl k.table; current = refl })
  | inr e ↦ rw (e, emit_killed_operator) (record { table = Keeps-refl k.table; current = refl })
]

-- The operator's `kill`, refused or not, moves no capability.
pub kill_pid-Quiet : (pid : ℕ) (k : Kernel) → Quiet k (kill_pid pid k).1
unfolding kill_pid elapsed_since read_time
kill_pid-Quiet pid k = elim (Bool-cases (ltb pid max_proc)) [
  | inr l ↦ rw (l, kill_pid) (Quiet-refl k)
  | inl l ↦ elim (Bool-cases (is_pending (slot_at pid k).state)) [
    | inr p ↦ rw (l, kill_pid, p) (Quiet-refl k)
    | inl p ↦
        elim (Bool-cases (
          (slot_at pid (emit_killed_operator pid (set_state pid State.killed k))).started_at
          == 0)) [
            | inl z ↦ rw (l, kill_pid, p, z) (killed p)
            | inr z ↦
                rw (l, kill_pid, p, z)
                  (record { table = (killed p).table; current = (killed p).current })
          ]
  ]
]
  where
    killed :
        is_pending (slot_at pid k).state ≡ true
        → Quiet k (emit_killed_operator pid (set_state pid State.killed k))
    killed p =
        Quiet-trans k (set_state pid State.killed k) _
          (set_state-Quiet pid State.killed k (occupied_of_pending (slot_at pid k).state p) refl)
          (emit_killed_operator-Quiet pid (set_state pid State.killed k))

-- The operator's `set_budget`, refused or not, moves no capability.
pub set_deadline-Quiet : (pid units : ℕ) (k : Kernel) → Quiet k (set_deadline pid units k).1
unfolding set_deadline slot_at
set_deadline-Quiet pid units k = elim (Bool-cases (ltb pid max_proc)) [
  | inr l ↦ rw (l, set_deadline) (Quiet-refl k)
  | inl l ↦ elim (Bool-cases (is_pending (slot_of k.table pid).state)) [
    | inr p ↦ rw (l, set_deadline, p) (Quiet-refl k)
    | inl p ↦
        rw (l, set_deadline, p)
          (put_slot-Quiet pid (record (slot_of k.table pid) { deadline = units }) k
            (record { occupied = refl; image = refl; caps = refl; parent = refl }))
  ]
]

pub mark_faulted-Quiet : (k : Kernel) → IsSound k → Quiet k (mark_faulted k)
unfolding mark_faulted slot_at
mark_faulted-Quiet k s = elim (Option-cases (current_pid k)) [
  | inl e ↦ rw (e, mark_faulted) (Quiet-refl k)
  | inr (pid, e) ↦
      let (n, at) = current_pid-some k pid e in
      rw (e, mark_faulted) (set_state-Quiet pid State.faulted k (rw at (s.running n).1) refl)
]

resume_frame_for-Quiet : (pid : ℕ) (k : Kernel) → Quiet k (resume_frame_for pid k).1
unfolding resume_frame_for slot_at put_slot
resume_frame_for-Quiet pid k = elim (Bool-cases ((slot_of k.table pid).resume_frame == 0)) [
  | inr z ↦ rw (z, resume_frame_for) (Quiet-refl k)
  | inl z ↦ elim (Option-cases (alloc k.pool)) [
    | inl e ↦ rw (z, resume_frame_for, e) (Quiet-refl k)
    | inr ((frame, pool), e) ↦
        rw (z, resume_frame_for, e)
          (record {
            table =
                Keeps-set k.table pid _
                  (record { occupied = refl; image = refl; caps = refl; parent = refl });
            current = refl;
          })
  ]
]

suspend-Quiet :
    (f : TrapFrame) (pid frame : ℕ) (k : Kernel)
    → is_empty (slot_at pid k).state ≡ false
    → Quiet k (suspend f pid frame k)
unfolding suspend slot_at put_slot emit
suspend-Quiet f pid frame k o = record {
  table =
      Keeps-set k.table pid _
        (record { occupied = sym o; image = refl; caps = refl; parent = refl });
  current = refl;
}

-- A preemption, taken or not, moves no capability.
pub preempt_with-Quiet :
    (f : TrapFrame) (pid b : ℕ) (k : Kernel)
    → is_empty (slot_at pid k).state ≡ false
    → Quiet k (preempt_with f pid b k).1
unfolding preempt_with slot_at
preempt_with-Quiet f pid b k o = elim (Option-cases (resume_frame_for pid stashed).0) [
  | inl e ↦ rw (e, preempt_with) first
  | inr (rf, e) ↦
      rw (e, preempt_with)
        (Quiet-trans k (resume_frame_for pid stashed).1 _ first (
          suspend-Quiet f pid rf (resume_frame_for pid stashed).1
            ((first.table.each pid).occupied ∙ o)))
]
  where
    stashed : Kernel
    stashed = record k { stashed_byte = bit_or 0x100 b }

    first : Quiet k (resume_frame_for pid stashed).1
    first =
        let q = resume_frame_for-Quiet pid stashed in
        record { table = q.table; current = q.current }
