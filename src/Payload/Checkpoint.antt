-- ===== src/Payload/Checkpoint.antt =====
-- kernel/src/payload.rs: checkpoints (`on_snapshot`) and the continuations made from them
-- (`enqueue_restore`).
use kernai.Base.{
  ℕ, ◌+◌, ◌-◌, ◌^◌, true, false, not, Option, none, some, List, [], ◌∷◌, bit_and, if◌then◌else◌,
}
use kernai.Hal.{phys_read, phys_write}
use kernai.Frames.{Pool, alloc, free}
use kernai.Mm.{page_size}
use kernai.Mm.Space.{deep_copy, destroy}
use kernai.Traps.Frame.{TrapFrame, save_frame_to}
use kernai.Payload.Slot.{Slot, Snapshot, State, is_empty, no_pid}
use kernai.Payload.Images.{image_at}
use kernai.Payload.Table.{current_pid, current_space, position}
use kernai.Kernel.{Kernel, Body, slot_at, put_slot, snap_at, put_snap, emit}

-- An errno of kernel/src/syscall.rs as the u64 that the payload sees in a0.
abbrev pub errno : ℕ → ℕ
errno n = 2 ^ 64 - n

abbrev pub enosys : ℕ
enosys = errno 1

abbrev pub enocap : ℕ
enocap = errno 2

abbrev pub efault : ℕ
efault = errno 3

abbrev pub einval : ℕ
einval = errno 4

abbrev pub eagain : ℕ
eagain = errno 5

abbrev pub enomem : ℕ
enomem = errno 6

-- `SNAPS.iter().position(|s| !s.valid)`
unfoldable pub free_snap : List Snapshot → ℕ → Option ℕ
free_snap [] sid = none
free_snap (s ∷ rest) sid = if not s.valid then some sid else free_snap rest (sid + 1)

-- The copy of the address space and the frame for the registers, or what is given back when one
-- of them cannot be had.
unfoldable pub copy_with_frame : ℕ → Pool → Option (ℕ × ℕ) × Pool
copy_with_frame root p =
    let (copy, p1) = deep_copy root p in
    elim copy [
      | none ↦ (none, p1)
      | some space ↦ elim (alloc p1) [
        | none ↦ (none, destroy space p1)
        | some (frame, p2) ↦ (some (space, frame), p2)
      ]
    ]

-- The snapshot is recorded once everything that can fail has been done.
unfoldable pub record_snapshot : TrapFrame → ℕ → ℕ → ℕ → ℕ → Kernel → ℕ × Kernel
record_snapshot f pid sid space frame k =
    let k1 = record k { pool = save_frame_to f frame 0 k.pool } in
    let snap : Snapshot = record {
      valid = true;
      root = space;
      frame = frame;
      caps = (slot_at pid k1).caps;
      image = (slot_at pid k1).image;
    } in
    let k2 = put_snap sid snap k1 in
    let k3 = record k2 { last_snap = sid + 1 } in (sid + 1, emit (Body.snapshot pid (sid + 1)) k3)

unfoldable pub on_snapshot : TrapFrame → Kernel → ℕ × Kernel
unfolding free_snap copy_with_frame record_snapshot
on_snapshot f k = elim (current_pid k) [
  | none ↦ (einval, k)
  | some pid ↦ elim (current_space k) [
    | none ↦ (einval, k)
    | some space ↦ elim (free_snap k.snaps 0) [
      | none ↦ (eagain, k)
      | some sid ↦
          let (made, pool) = copy_with_frame space k.pool in
          let k1 = record k { pool = pool } in
          elim made [
            | none ↦ (enomem, k1)
            | some (copy, frame) ↦ record_snapshot f pid sid copy frame k1
          ]
    ]
  ]
]

-- The slot of a continuation: it resumes the saved frame in its own copy of the memory, with the
-- snapshot's capabilities under the image's ceiling, no deadline and no parent.
abbrev pub restored_slot : Snapshot → ℕ → ℕ → Slot
restored_slot snap space frame = record {
  state = State.pending;
  image = snap.image;
  caps = bit_and snap.caps (image_at snap.image).caps;
  parent = no_pid;
  exit_code = 0;
  started_at = 0;
  deadline = 0;
  root = space;
  resume_frame = frame;
  preempted = false;
  start_event = 0;
}

-- `destroy` and `free` when the continuation cannot be queued.
unfoldable pub give_back : ℕ → ℕ → Pool → Pool
give_back space frame p = free frame (destroy space p)

-- The saved registers are copied, then the first empty slot is filled.
unfoldable pub queue_restored : Snapshot → ℕ → ℕ → Kernel → Option ℕ × Kernel
unfolding give_back
queue_restored snap space frame k = elim (phys_read snap.frame page_size k.pool.mem) [
  | none ↦ (none, record k { pool = give_back space frame k.pool })
  | some buf ↦
      let (written, m) = phys_write frame buf k.pool.mem in
      let p = k.pool in
      let p1 = record p { mem = m } in
      let k1 = record k { pool = p1 } in
      if not written
      then (none, record k { pool = give_back space frame p1 })
      else elim (position is_empty k1.table 0) [
        | none ↦ (none, record k { pool = give_back space frame p1 })
        | some pid ↦ (some pid, put_slot pid (restored_slot snap space frame) k1)
      ]
]

unfoldable pub enqueue_restore : ℕ → Kernel → Option ℕ × Kernel
unfolding copy_with_frame queue_restored
enqueue_restore sid k =
    let snap = snap_at sid k in
    let (made, pool) = copy_with_frame snap.root k.pool in
    let k1 = record k { pool = pool } in
    if not snap.valid
    then (none, k)
    else elim made [ none ↦ (none, k1) | some (space, frame) ↦ queue_restored snap space frame k1 ]
