-- ===== src/Payload/Soundness/Running.antt =====
-- The scheduler of kernel/src/payload.rs keeps the capability lattice through whole passes:
-- reaping, the control plane, restored continuations, fresh and resumed payloads.
use kernai.Base.{
  Result-cases, ℕ, zero, suc, ◌+◌, ◌<◌, ◌≡◌, ◌≢◌, inl, inr, ◌∙◌, sym, refl, ap, Bool, true, false,
  List, [], ◌∷◌, ◌==◌, length, length-set, get_or-set_ne, set, arith, Bool-cases, Option-cases,
}
use kernai.Hal.{phys_read, phys_write}
use kernai.Frames.{Pool}
use kernai.Mm.{page_size}
use kernai.Payload.Slot.{Slot, Snapshot, State, new_slot, is_empty, is_terminal, no_pid}
use kernai.Payload.Images.{Build, image_at}
use kernai.Payload.Table.{position, emit_start}
use kernai.Payload.Checkpoint.{copy_with_frame, queue_restored, enqueue_restore, restored_slot}
use kernai.Payload.Scheduler.{
  reap_slot, reap_all, reap_terminated, resume_saved, build_space, start_fresh, start,
}
use kernai.Kernel.{Kernel, slot_at, put_slot, snap_at, emit, emit_as, take_id, read_time}
use kernai.Payload.Lineage.{
  bit_and-Within_right, slot_of, IsOccupied, SameLineage, SameLineage-refl, Keeps, Keeps-refl,
  Keeps-trans, Keeps-set, Keeps-IsAttenuated, fill-IsAttenuated, position_lem,
}
use kernai.Payload.Attenuation.{IsSound, Keeps-IsOccupied, Keeps-IsSound}
use kernai.Payload.Soundness.{Quiet}

cons_each :
    (s s' : Slot) (t t' : List Slot)
    → SameLineage s s'
    → Keeps t t'
    → (pid : ℕ) → SameLineage (slot_of (s ∷ t) pid) (slot_of (s' ∷ t') pid)
cons_each s s' t t' h k zero = h
cons_each s s' t t' h k (suc pid) = k.each pid

Keeps-cons :
    (s s' : Slot) (t t' : List Slot) → SameLineage s s' → Keeps t t' → Keeps (s ∷ t) (s' ∷ t')
Keeps-cons s s' t t' h k = record { size = ap suc k.size; each = cons_each s s' t t' h k }

reap_slot-SameLineage : (s : Slot) (p : Pool) → SameLineage s (reap_slot s p).0
unfolding reap_slot
reap_slot-SameLineage s p = elim (Bool-cases (is_terminal s.state)) [
  | inl e ↦ rw (e, reap_slot) (record { occupied = refl; image = refl; caps = refl; parent = refl })
  | inr e ↦ rw (e, reap_slot) (SameLineage-refl s)
]

reap_all-Keeps : (t : List Slot) (p : Pool) → Keeps t (reap_all t p).0
unfolding reap_all
reap_all-Keeps [] p = Keeps-refl []
reap_all-Keeps (s ∷ t) p =
    Keeps-cons s (reap_slot s p).0 t _ (reap_slot-SameLineage s p)
      (reap_all-Keeps t (reap_slot s p).1)

-- Reaping moves no capability.
pub reap_terminated-Quiet : (k : Kernel) → Quiet k (reap_terminated k)
unfolding reap_terminated
reap_terminated-Quiet k = record { table = reap_all-Keeps k.table k.pool; current = refl }

-- A continuation that is queued lies under its image's ceiling and has no parent.
queue_restored-IsSound :
    (snap : Snapshot) (space frame : ℕ) (k : Kernel)
    → IsSound k
    → IsSound (queue_restored snap space frame k).1
unfolding queue_restored put_slot
queue_restored-IsSound snap space frame k s =
    elim (Option-cases (phys_read snap.frame page_size k.pool.mem)) [
      | inl e ↦ rw (e, queue_restored) (record { attenuated = s.attenuated; running = s.running })
      | inr (buf, e) ↦ elim (Bool-cases (phys_write frame buf k.pool.mem).0) [
        | inr w ↦
            rw (e, queue_restored, w) (record { attenuated = s.attenuated; running = s.running })
        | inl w ↦ elim (Option-cases (position is_empty k.table 0)) [
          | inl q ↦
              rw (e, queue_restored, w, q)
                (record { attenuated = s.attenuated; running = s.running })
          | inr (pid, q) ↦
              let (i, at, l, m) = position_lem is_empty k.table 0 pid q in
              let same : pid ≡ i = omega arith in
              let f = filled pid (omega arith) (rw same m) in
              rw (e, queue_restored, w, q)
                (record { attenuated = f.attenuated; running = f.running })
        ]
      ]
    ]
  where
    new : Slot
    new = restored_slot snap space frame

    apart :
        (pid : ℕ)
        → is_empty (slot_of k.table pid).state ≡ true
        → k.current ≢ no_pid
        → pid ≢ k.current
    apart pid e n same = cc (ap (λ r. is_empty (slot_of k.table r).state) same, (s.running n).1)

    filled :
        (pid : ℕ)
        → pid < length k.table
        → is_empty (slot_of k.table pid).state ≡ true
        → IsSound (record k { table = set k.table pid new })
    filled pid l e = record {
      attenuated =
          fill-IsAttenuated k.table pid new l e
            (record {
              ceiling = bit_and-Within_right snap.caps (image_at snap.image).caps;
              parent = λ p. absurd (p refl);
            })
            s.attenuated;
      running = λ n.
          let o = s.running n in
          (
            omega (arith, length-set k.table pid new, o.0),
            ap (λ x. is_empty x.state)
                  (get_or-set_ne k.table pid k.current new new_slot (apart pid e n))
                ∙ o.1,
          );
    }

pub enqueue_restore-IsSound : (sid : ℕ) (k : Kernel) → IsSound k → IsSound (enqueue_restore sid k).1
unfolding enqueue_restore
enqueue_restore-IsSound sid k s = elim (Bool-cases (snap_at sid k).valid) [
  | inr e ↦ rw (e, enqueue_restore) s
  | inl e ↦ elim (Option-cases (copy_with_frame (snap_at sid k).root k.pool).0) [
    | inl m ↦ rw (e, enqueue_restore, m) (record { attenuated = s.attenuated; running = s.running })
    | inr ((space, frame), m) ↦
        rw (e, enqueue_restore, m)
          (queue_restored-IsSound (snap_at sid k) space frame _
            (record { attenuated = s.attenuated; running = s.running }))
  ]
]

-- A payload that takes the CPU has an occupied slot.
enter-IsSound :
    (pid : ℕ) (k k' : Kernel)
    → IsSound k
    → IsOccupied k.table pid
    → Keeps k.table k'.table
    → k'.current ≡ pid
    → IsSound k'
enter-IsSound pid k k' s o h c = record {
  attenuated = Keeps-IsAttenuated k.table k'.table h s.attenuated;
  running = λ n. rw c (Keeps-IsOccupied k.table k'.table pid h o);
}

emit_start-Quiet :
    (pid caps entry : ℕ) (restored : Bool) (k : Kernel)
    → Quiet k (emit_start pid caps entry restored k)
unfolding emit_start slot_at put_slot take_id emit_as
emit_start-Quiet pid caps entry restored k = record {
  table =
      Keeps-set k.table pid _
        (record { occupied = refl; image = refl; caps = refl; parent = refl });
  current = refl;
}

resume_saved-IsSound :
    (pid : ℕ) (k : Kernel) → IsSound k → IsOccupied k.table pid → IsSound (resume_saved pid k).1
unfolding resume_saved read_time slot_at put_slot
resume_saved-IsSound pid k s o = elim (Bool-cases (slot_of k.table pid).preempted) [
  | inl e ↦ rw (e, resume_saved) (enter-IsSound pid k _ s o awake refl)
  | inr e ↦
      rw (e, resume_saved)
        (enter-IsSound pid k _ s o
          (Keeps-trans k.table timed.table _
            (Keeps-trans k.table (set k.table pid awake_slot) _ awake (
              Keeps-set (set k.table pid awake_slot) pid _
                (record { occupied = refl; image = refl; caps = refl; parent = refl })))
            (emit_start-Quiet pid (slot_of k.table pid).caps 0 true timed).table)
          (emit_start-Quiet pid (slot_of k.table pid).caps 0 true timed).current)
]
  where
    awake_slot : Slot
    awake_slot = record (slot_of k.table pid) { preempted = false; state = State.running }

    awake : Keeps k.table (set k.table pid awake_slot)
    awake =
        Keeps-set k.table pid awake_slot
          (record { occupied = sym o.1; image = refl; caps = refl; parent = refl })

    timed : Kernel
    timed = record k {
      table =
          set (set k.table pid awake_slot) pid
            (record (slot_of (set k.table pid awake_slot) pid) { started_at = k.clock k.reads });
      reads = k.reads + 1;
      current = pid;
    }

start_fresh-IsSound :
    (b : Build) (pid : ℕ) (k : Kernel)
    → IsSound k
    → IsOccupied k.table pid
    → IsSound (start_fresh b pid k).1
unfolding start_fresh read_time slot_at put_slot emit
start_fresh-IsSound b pid k s o =
    elim (Result-cases (build_space b (slot_of k.table pid).image k.pool).0) [
      | inr (reason, e) ↦
          rw (e, start_fresh)
            (Keeps-IsSound k _ s
              (Keeps-set k.table pid _
                (record { occupied = sym o.1; image = refl; caps = refl; parent = refl }))
              (inl refl))
      | inl ((root, frame, entry), e) ↦
          rw (e, start_fresh)
            (enter-IsSound pid k _ s o
              (Keeps-trans k.table (loaded root frame).table _
                (Keeps-set k.table pid _
                  (record { occupied = sym o.1; image = refl; caps = refl; parent = refl }))
                (emit_start-Quiet pid (slot_of k.table pid).caps entry false
                  (loaded root frame)).table)
              (emit_start-Quiet pid (slot_of k.table pid).caps entry false
                (loaded root frame)).current)
    ]
  where
    loaded : ℕ → ℕ → Kernel
    loaded root frame = record k {
      pool = (build_space b (slot_of k.table pid).image k.pool).1;
      table = set k.table pid (record (slot_of k.table pid) {
        root = root;
        resume_frame = frame;
        state = State.running;
        started_at = k.clock k.reads;
      });
      reads = k.reads + 1;
      current = pid;
    }

-- Starting an occupied slot, resumed, restored or fresh, keeps a kernel sound, also when the fresh
-- payload cannot be loaded.
pub start-IsSound :
    (b : Build) (pid : ℕ) (k : Kernel)
    → IsSound k
    → IsOccupied k.table pid
    → IsSound (start b pid k).1
unfolding start
start-IsSound b pid k s o = elim (Bool-cases ((slot_at pid k).resume_frame == 0)) [
  | inl e ↦ rw (e, start) (start_fresh-IsSound b pid k s o)
  | inr e ↦ rw (e, start) (resume_saved-IsSound pid k s o)
]
