-- ===== src/Traps/Handle/Soundness.antt =====
-- kernel/src/traps.rs: a whole trap keeps the process table sound, and leaves user mode only as it
-- should.
use kernai.Base.{
  ℕ, ◌≡◌, inl, inr, ◌⊎◌, refl, ◌∙◌, Bool, true, false, ◌||◌, Option, none, Bool-cases, Option-cases,
  if◌then◌else◌,
}
use kernai.Traps.Frame.{TrapFrame, set_sp, set_a0, is_from_user, advance_past_ecall}
use kernai.Traps.Fault.{emit_fault}
use kernai.Traps.Handle.{
  Cause, timer, ecall, other, cause_of, Layout, Return, sret, shutdown, arm, to_scheduler,
  redirect_to_scheduler, report_tick, count_tick, tick_hooks, handle_tick, handle_ecall,
  handle_fault, record_trap, route, handle,
}
use kernai.Payload.Slot.{State, no_pid, is_running, is_empty}
use kernai.Payload.Images.{Build, image_wants_input}
use kernai.Payload.Keys.{drain}
use kernai.Payload.Table.{current_pid, leave_current, set_state}
use kernai.Payload.Hooks.{mark_faulted, on_tick, pending_bytes, drain_for, drain_keys}
use kernai.Payload.Preempt.{maybe_preempt}
use kernai.Syscall.{Outcome, resume, leave, dispatch}
use kernai.Syscall.Soundness.{dispatch-IsSound}
use kernai.Kernel.{Kernel, slot_at, getchar, emit_as, take_id, read_time}
use kernai.Payload.Lineage.{slot_of, Keeps-refl}
use kernai.Payload.Attenuation.{IsSound, Keeps-IsSound}
use kernai.Payload.Soundness.{
  Quiet, Quiet-refl, Quiet-trans, Quiet-IsSound, on_tick-Quiet, mark_faulted-Quiet,
  preempt_with-Quiet, emit_killed_operator-Quiet, set_state-Quiet, occupied_of_running,
}
use kernai.Payload.Soundness.Passes.{Polls-Quiet}
use kernai.Rpc.Request.Polls.{getchar-Polls}

leave_current-IsSound : (k : Kernel) → IsSound k → IsSound (leave_current k)
unfolding leave_current
leave_current-IsSound k s = Keeps-IsSound k _ s (Keeps-refl k.table) (inr refl)

-- How the CPU may leave a trap that came with a frame: in the privilege that it came with, or in the
-- scheduler without a current payload; and the machine stops for no trap of a payload.
abbrev pub Returns : Layout → TrapFrame → Return × Kernel → Type 0
Returns l f (shutdown, k) = is_from_user f ≡ false
Returns l f (sret f', k) =
    (f'.sstatus ≡ f.sstatus) ⊎ ((f'.sepc ≡ l.scheduler_resume) × (k.current ≡ no_pid))

abbrev Handled : Layout → TrapFrame → Return × Kernel → Type 0
Handled l f r = IsSound r.1 × Returns l f r

redirect-Handled :
    (l : Layout) (g f : TrapFrame) (k : Kernel)
    → IsSound k
    → Handled l g (redirect_to_scheduler l f k)
unfolding redirect_to_scheduler to_scheduler leave_current set_sp
redirect-Handled l g f k s = (leave_current-IsSound k s, inr (refl, refl))

drain_for-Quiet :
    (pid : ℕ) (k : Kernel) → is_empty (slot_at pid k).state ≡ false → Quiet k (drain_for pid k).1
unfolding drain_for slot_at
drain_for-Quiet pid k o = elim (Bool-cases (drain (pending_bytes k.rx).0 (false, k.keys)).0) [
  | inr e ↦ rw (e, drain_for) drained
  | inl e ↦
      rw (e, drain_for)
        (Quiet-trans k k1 _ drained (
          Quiet-trans k1 (set_state pid State.killed k1) _
            (set_state-Quiet pid State.killed k1 o refl)
            (emit_killed_operator-Quiet pid (set_state pid State.killed k1))))
]
  where
    k1 : Kernel
    k1 = record k {
      rx = (pending_bytes k.rx).1;
      keys = (drain (pending_bytes k.rx).0 (false, k.keys)).1;
    }

    drained : Quiet k k1
    drained = record { table = Keeps-refl k.table; current = refl }

drain_keys-Quiet : (b : Build) (k : Kernel) → Quiet k (drain_keys b k).1
unfolding drain_keys
drain_keys-Quiet b k = elim (Option-cases (current_pid k)) [
  | inl e ↦ rw (e, drain_keys) (Quiet-refl k)
  | inr (pid, e) ↦ elim (Bool-cases (is_running (slot_at pid k).state)) [
    | inr r ↦ rw (e, drain_keys, r) (Quiet-refl k)
    | inl r ↦ elim (Bool-cases (image_wants_input b (slot_at pid k).image)) [
      | inr w ↦ rw (e, drain_keys, r, w) (Quiet-refl k)
      | inl w ↦ rw (e, drain_keys, r, w) (drain_for-Quiet pid k (occupied_of_running _ r))
    ]
  ]
]

maybe_preempt-Quiet : (b : Build) (f : TrapFrame) (k : Kernel) → Quiet k (maybe_preempt b f k).1
unfolding maybe_preempt slot_at
maybe_preempt-Quiet b f k = elim (Option-cases (current_pid k)) [
  | inl e ↦ rw (e, maybe_preempt) (Quiet-refl k)
  | inr (pid, e) ↦ elim (Bool-cases (is_running (slot_at pid k).state)) [
    | inr r ↦ rw (e, maybe_preempt, r) (Quiet-refl k)
    | inl r ↦ elim (Bool-cases (image_wants_input b (slot_at pid k).image)) [
      | inl w ↦ rw (e, maybe_preempt, r, w) (Quiet-refl k)
      | inr w ↦ elim (Option-cases (getchar k).0) [
        | inl g ↦ rw (e, maybe_preempt, r, w, g) polled
        | inr (c, g) ↦
            rw (e, maybe_preempt, r, w, g)
              (Quiet-trans k (getchar k).1 _ polled (
                preempt_with-Quiet f pid c (getchar k).1 (
                  (polled.table.each pid).occupied
                  ∙ occupied_of_running (slot_of k.table pid).state r)))
      ]
    ]
  ]
]
  where
    polled : Quiet k (getchar k).1
    polled = Polls-Quiet k _ (getchar-Polls k)

either-Quiet : (c : Bool) (k x y : Kernel) → Quiet k x → Quiet k y → Quiet k (if c then x else y)
either-Quiet true k x y p q = p
either-Quiet false k x y p q = q

report_tick-Quiet : (id seq : ℕ) (k : Kernel) → Quiet k (report_tick id seq k)
unfolding report_tick read_time emit_as
report_tick-Quiet id seq k =
    either-Quiet k.traps.autonomous k k _ (Quiet-refl k)
      (record { table = Keeps-refl k.table; current = refl })

count_tick-Quiet : (id : ℕ) (k : Kernel) → Quiet k (count_tick id k)
unfolding count_tick arm read_time
count_tick-Quiet id k =
    let q = report_tick-Quiet id _ _ in record { table = q.table; current = q.current }

tick_hooks-Handled :
    (b : Build) (l : Layout) (f : TrapFrame) (k : Kernel)
    → IsSound k
    → Handled l f (tick_hooks b l f k)
unfolding tick_hooks
tick_hooks-Handled b l f k s = decided _ refl
  where
    keyed : Bool × Kernel
    keyed = if b.doom then drain_keys b k else (false, k)

    keyed-Quiet : (c : Bool) → Quiet k (if c then drain_keys b k else (false, k)).1
    keyed-Quiet true = drain_keys-Quiet b k
    keyed-Quiet false = Quiet-refl k

    s2 : IsSound (on_tick keyed.1).1
    s2 =
        Quiet-IsSound keyed.1 _ (on_tick-Quiet keyed.1)
          (Quiet-IsSound k keyed.1 (keyed-Quiet b.doom) s)

    k3 : Kernel
    k3 = (maybe_preempt b f (on_tick keyed.1).1).1

    s3 : IsSound k3
    s3 = Quiet-IsSound (on_tick keyed.1).1 k3 (maybe_preempt-Quiet b f (on_tick keyed.1).1) s2

    decided : (c : Bool) → ((on_tick keyed.1).0 || keyed.0) ≡ c → Handled l f (tick_hooks b l f k)
    decided true e = rw (e, tick_hooks) (redirect-Handled l f f (on_tick keyed.1).1 s2)
    decided false e = elim (Bool-cases (maybe_preempt b f (on_tick keyed.1).1).0) [
      | inl p ↦ rw (e, tick_hooks, p) (redirect-Handled l f f k3 s3)
      | inr p ↦ rw (e, tick_hooks, p) (s3, inl refl)
    ]

handle_ecall-Handled :
    (b : Build) (l : Layout) (f : TrapFrame) (k : Kernel)
    → IsSound k
    → Handled l f (handle_ecall b l f k)
unfolding handle_ecall set_a0 advance_past_ecall
handle_ecall-Handled b l f k s = go _ refl
  where
    f1 : TrapFrame
    f1 = advance_past_ecall f

    s1 : IsSound (dispatch b f1 k).1
    s1 = dispatch-IsSound b f1 k s

    go : (o : Outcome) → (dispatch b f1 k).0 ≡ o → Handled l f (handle_ecall b l f k)
    go (resume v) e = rw (e, handle_ecall) (s1, inl refl)
    go leave e = rw (e, handle_ecall) (redirect-Handled l f f1 (dispatch b f1 k).1 s1)

emit_fault-Quiet :
    (f : TrapFrame) (id scause stval : ℕ) (pid : Option ℕ) (k : Kernel)
    → Quiet k (emit_fault f id scause stval pid k)
unfolding emit_fault emit_as
emit_fault-Quiet f id scause stval pid k = record { table = Keeps-refl k.table; current = refl }

handle_fault-Handled :
    (l : Layout) (f : TrapFrame) (id scause stval : ℕ) (k : Kernel)
    → IsSound k
    → Handled l f (handle_fault l f id scause stval k)
unfolding handle_fault
handle_fault-Handled l f id scause stval k s = elim (Bool-cases (is_from_user f)) [
  | inr e ↦
      rw (e, handle_fault) (Quiet-IsSound k _ (emit_fault-Quiet f id scause stval none k) s, e)
  | inl e ↦
      rw (e, handle_fault)
        (redirect-Handled l f f (mark_faulted k1)
          (Quiet-IsSound k1 _ (mark_faulted-Quiet k1 s1) s1))
]
  where
    k1 : Kernel
    k1 = emit_fault f id scause stval (current_pid k) k

    s1 : IsSound k1
    s1 = Quiet-IsSound k k1 (emit_fault-Quiet f id scause stval (current_pid k) k) s

route-Handled :
    (c : Cause) (b : Build) (l : Layout) (f : TrapFrame) (id scause stval : ℕ) (k : Kernel)
    → IsSound k
    → Handled l f (route c b l f id scause stval k)
unfolding route handle_tick
route-Handled timer b l f id scause stval k s =
    tick_hooks-Handled b l f (count_tick id k) (Quiet-IsSound k _ (count_tick-Quiet id k) s)
route-Handled ecall b l f id scause stval k s = handle_ecall-Handled b l f k s
route-Handled other b l f id scause stval k s = handle_fault-Handled l f id scause stval k s

record_trap-Quiet :
    (f : TrapFrame) (scause stval : ℕ) (k : Kernel) → Quiet k (record_trap f scause stval k).1
unfolding record_trap take_id
record_trap-Quiet f scause stval k = record { table = Keeps-refl k.table; current = refl }

handle-Handled :
    (b : Build) (l : Layout) (f : TrapFrame) (scause stval : ℕ) (k : Kernel)
    → IsSound k
    → Handled l f (handle b l f scause stval k)
unfolding handle
handle-Handled b l f scause stval k s =
    let (id, k1) = record_trap f scause stval k in
    route-Handled (cause_of scause) b l f id scause stval k1
      (Quiet-IsSound k k1 (record_trap-Quiet f scause stval k) s)

-- Every trap, whether a tick, a system call or a fault, keeps a kernel sound.
pub handle-IsSound :
    (b : Build) (l : Layout) (f : TrapFrame) (scause stval : ℕ) (k : Kernel)
    → IsSound k
    → IsSound (handle b l f scause stval k).1
handle-IsSound b l f scause stval k s = (handle-Handled b l f scause stval k s).0

-- A trap of a sound kernel returns with the status register, and so the privilege, that it came
-- with, or to the scheduler's entry with no payload current; it shuts the machine down only if it
-- came from the kernel.
pub handle-Returns :
    (b : Build) (l : Layout) (f : TrapFrame) (scause stval : ℕ) (k : Kernel)
    → IsSound k
    → Returns l f (handle b l f scause stval k)
handle-Returns b l f scause stval k s = (handle-Handled b l f scause stval k s).1
