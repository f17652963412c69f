-- ===== src/Payload/Soundness/Picks.antt =====
-- kernel/src/payload.rs: what the scheduler picks next is an occupied slot.
use kernai.Base.{
  ℕ, ◌-◌, ◌≡◌, inl, inr, refl, subst, ap, true, Option, none, some, ◌&&◌, length-set,
  get_or-set_self, arith, Bool-cases, Option-cases, ltb,
}
use kernai.Hal.{phys_read, phys_write}
use kernai.Mm.{page_size}
use kernai.Payload.Slot.{Snapshot, new_slot, is_empty, is_pending}
use kernai.Payload.Table.{position, take_next_pending}
use kernai.Payload.Checkpoint.{copy_with_frame, queue_restored, enqueue_restore, restored_slot}
use kernai.Payload.Scheduler.{pick}
use kernai.Kernel.{Kernel, put_slot, snap_at}
use kernai.Payload.Lineage.{slot_of, IsOccupied, position_lem}
use kernai.Payload.Attenuation.{IsSound}
use kernai.Payload.Soundness.{occupied_of_pending}
use kernai.Payload.Soundness.Running.{enqueue_restore-IsSound}

-- The pid that a call answers with, if any, names an occupied slot.
abbrev pub Finds : Option ℕ × Kernel → Type 0
Finds (none, k) = Unit
Finds (some pid, k) = IsOccupied k.table pid

queue_restored-Finds :
    (snap : Snapshot) (space frame : ℕ) (k : Kernel) → Finds (queue_restored snap space frame k)
unfolding queue_restored put_slot
queue_restored-Finds snap space frame k =
    elim (Option-cases (phys_read snap.frame page_size k.pool.mem)) [
      | inl e ↦ rw (e, queue_restored) tt
      | inr (buf, e) ↦ elim (Bool-cases (phys_write frame buf k.pool.mem).0) [
        | inr w ↦ rw (e, queue_restored, w) tt
        | inl w ↦ elim (Option-cases (position is_empty k.table 0)) [
          | inl q ↦ rw (e, queue_restored, w, q) tt
          | inr (pid, q) ↦
              let (i, at, l, m) = position_lem is_empty k.table 0 pid q in
              rw (e, queue_restored, w, q)
                (
                  omega (arith, length-set k.table pid (restored_slot snap space frame)),
                  ap (λ s. is_empty s.state)
                      (get_or-set_self k.table pid (restored_slot snap space frame) new_slot
                        (omega arith)),
                )
        ]
      ]
    ]

enqueue_restore-Finds : (sid : ℕ) (k : Kernel) → Finds (enqueue_restore sid k)
unfolding enqueue_restore
enqueue_restore-Finds sid k = elim (Bool-cases (snap_at sid k).valid) [
  | inr e ↦ rw (e, enqueue_restore) tt
  | inl e ↦ elim (Option-cases (copy_with_frame (snap_at sid k).root k.pool).0) [
    | inl m ↦ rw (e, enqueue_restore, m) tt
    | inr ((space, frame), m) ↦
        rw (e, enqueue_restore, m) (queue_restored-Finds (snap_at sid k) space frame _)
  ]
]

-- What the scheduler picks has an occupied slot, and picking keeps the lattice.
pub pick_lem : (k : Kernel) → IsSound k → IsSound (pick k).1 × Finds (pick k)
unfolding pick take_next_pending
pick_lem k s = elim (Option-cases (position is_pending k.table 0)) [
  | inr (pid, e) ↦
      let (i, at, l, m) = position_lem is_pending k.table 0 pid e in
      let same : i ≡ pid = omega arith in
      rw (e, pick)
        (
          s,
          (
            omega arith,
            occupied_of_pending _ (subst (λ p. is_pending (slot_of k.table p).state ≡ true) same m),
          ),
        )
  | inl e ↦ elim (Bool-cases (ltb 0 k.auto_fork && ltb 0 k.last_snap)) [
    | inr f ↦ rw (e, pick, f) (s, tt)
    | inl f ↦
        rw (e, pick, f)
          (
            enqueue_restore-IsSound (k.last_snap - 1) (owing k)
                (record { attenuated = s.attenuated; running = s.running }),
            enqueue_restore-Finds (k.last_snap - 1) (owing k),
          )
  ]
]
  where
    owing : Kernel → Kernel
    owing k = record k { auto_fork = k.auto_fork - 1 }

current-queue_restored :
    (snap : Snapshot) (space frame : ℕ) (k : Kernel)
    → (queue_restored snap space frame k).1.current ≡ k.current
unfolding queue_restored put_slot
current-queue_restored snap space frame k =
    elim (Option-cases (phys_read snap.frame page_size k.pool.mem)) [
      | inl e ↦ rw (e, queue_restored) refl
      | inr (buf, e) ↦ elim (Bool-cases (phys_write frame buf k.pool.mem).0) [
        | inr w ↦ rw (e, queue_restored, w) refl
        | inl w ↦ elim (Option-cases (position is_empty k.table 0)) [
          | inl q ↦ rw (e, queue_restored, w, q) refl
          | inr (pid, q) ↦ rw (e, queue_restored, w, q) refl
        ]
      ]
    ]

current-enqueue_restore : (sid : ℕ) (k : Kernel) → (enqueue_restore sid k).1.current ≡ k.current
unfolding enqueue_restore
current-enqueue_restore sid k = elim (Bool-cases (snap_at sid k).valid) [
  | inr e ↦ rw (e, enqueue_restore) refl
  | inl e ↦ elim (Option-cases (copy_with_frame (snap_at sid k).root k.pool).0) [
    | inl m ↦ rw (e, enqueue_restore, m) refl
    | inr ((space, frame), m) ↦
        rw (e, enqueue_restore, m) (current-queue_restored (snap_at sid k) space frame _)
  ]
]

-- Picking gives no payload the CPU.
pub current-pick : (k : Kernel) → (pick k).1.current ≡ k.current
unfolding pick take_next_pending
current-pick k = elim (Option-cases (position is_pending k.table 0)) [
  | inr (pid, e) ↦ rw (e, pick) refl
  | inl e ↦ elim (Bool-cases (ltb 0 k.auto_fork && ltb 0 k.last_snap)) [
    | inr f ↦ rw (e, pick, f) refl
    | inl f ↦
        rw (e, pick, f)
          (current-enqueue_restore (k.last_snap - 1) (record k { auto_fork = k.auto_fork - 1 }))
  ]
]
