-- ===== src/Payload/Scheduler.antt =====
-- kernel/src/payload.rs: the scheduler. `run` diverges in the source: into a payload
-- (`resume_user`), into the idle loop, or into the deliberate crash; here it returns which.
use kernai.Base.{
  ℕ, zero, suc, ◌+◌, ◌-◌, ◌/◌, ◌%◌, ◌^◌, Bool, true, false, not, ◌&&◌, Option, none, some, List, [],
  ◌∷◌, ◌==◌, if◌then◌else◌, ltb, length, ok, err, Result,
}
use kernai.Frames.{Pool, alloc, free}
use kernai.Mm.{AddressSpace, new_space, map_kernel, map_page, satp_of, page_size}
use kernai.Mm.Space.{destroy}
use kernai.Text.{Text, bytes_of}
use kernai.Elf.{load, as_str}
use kernai.Traps.Frame.{init_frame_to}
use kernai.Payload.Slot.{Slot, State, is_terminal, no_pid}
use kernai.Payload.Images.{Build, image_at, image_window}
use kernai.Payload.Table.{take_next_pending, set_state, emit_start, emit_suite_done}
use kernai.Payload.Checkpoint.{enqueue_restore}
use kernai.Traps.Report.{ring_dump_text}
use kernai.Rpc.Tools.{Verdict, served, seeded, crashed}
use kernai.Rpc.Dispatch.{read_request}
use kernai.Kernel.{Kernel, Body, slot_at, put_slot, emit, read_time, getchar}

-- What one slot gives back when its payload has ended.
unfoldable pub reap_slot : Slot → Pool → Slot × Pool
reap_slot s p =
    let p1 = if s.root == 0 then p else destroy s.root p in
    let p2 = if s.resume_frame == 0 then p1 else free s.resume_frame p1 in
    if is_terminal s.state then (record s { root = 0; resume_frame = 0 }, p2) else (s, p)

unfoldable pub reap_all : List Slot → Pool → List Slot × Pool
unfolding reap_slot
reap_all [] p = ([], p)
reap_all (s ∷ rest) p =
    let (s', p1) = reap_slot s p in let (rest', p2) = reap_all rest p1 in (s' ∷ rest', p2)

unfoldable pub reap_terminated : Kernel → Kernel
unfolding reap_all
reap_terminated k =
    let (table, pool) = reap_all k.table k.pool in record k { table = table; pool = pool }

-- What `start` came to: the payload is entered with this satp and saved frame, or its image could
-- not be loaded.
pub data Started : Type 0 where
  entered : ℕ → ℕ → Started
  load_failed : Started

-- A payload with a saved frame goes on from it; a preempted one silently.
unfoldable pub resume_saved : ℕ → Kernel → Started × Kernel
resume_saved pid k =
    let s = slot_at pid k in
    let k1 = put_slot pid (record s { preempted = false; state = State.running }) k in
    let (now, k2) = read_time k1 in
    let s2 = slot_at pid k2 in
    let k3 = put_slot pid (record s2 { started_at = now }) k2 in
    let k4 = record k3 { current = pid } in
    let k5 = if s.preempted then record k1 { current = pid } else emit_start pid s.caps 0 true k4 in
    (entered (satp_of s.root) s.resume_frame, k5)

-- `map_window`, page by page; `pages` are left.
unfoldable pub map_window : ℕ → AddressSpace → ℕ → ℕ → Pool → Bool × Pool
map_window zero space va pa p = (true, p)
map_window (suc pages) space va pa p =
    let (r, p') = map_page space va pa 18 p in
    elim r [
      | ok _ ↦ map_window pages space (va + page_size) (pa + page_size) p'
      | err _ ↦ (false, p')
    ]

-- The image's window, if it has one.
unfoldable pub map_image_window : Build → ℕ → AddressSpace → Pool → Bool × Pool
unfolding map_window
map_image_window b image space p = elim (image_window b image) [
  | none ↦ (true, p)
  | some (va, pa, len) ↦ map_window (len / page_size) space va pa p
]

-- The address space, the ELF, the window and the register frame of a fresh payload: the root,
-- the frame and the entry, or the reason of the load fault; whatever was made goes back when a later
-- part fails.
unfoldable pub build_space : Build → ℕ → Pool → Result Text (ℕ × ℕ × ℕ) × Pool
unfolding map_image_window bytes_of as_str
build_space b image p = elim (new_space p) [
  | none ↦ (err (bytes_of "out_of_memory"), p)
  | some (space, p1) ↦
      let (mapped, p2) = map_kernel space p1 in
      let (loaded, p3) = load (b.elf image) space p2 in
      let (windowed, p4) = map_image_window b image space p3 in
      elim mapped [
        | err _ ↦ (err (bytes_of "kernel_map_failed"), destroy space p2)
        | ok _ ↦ elim loaded [
          | err e ↦ (err (as_str e), destroy space p3)
          | ok entry ↦ elim windowed [
            | false ↦ (err (bytes_of "window_map_failed"), destroy space p4)
            | true ↦ elim (alloc p4) [
              | none ↦ (err (bytes_of "out_of_memory"), destroy space p4)
              | some (frame, p5) ↦ (ok (space, frame, entry), init_frame_to frame entry p5)
            ]
          ]
        ]
      ]
]

unfoldable pub start_fresh : Build → ℕ → Kernel → Started × Kernel
unfolding build_space
start_fresh b pid k =
    let (built, pool) = build_space b (slot_at pid k).image k.pool in
    let k1 = record k { pool = pool } in
    elim built [
      | err reason ↦ (
        load_failed,
        emit (Body.payload_load_fault pid (bytes_of (image_at (slot_at pid k).image).name) reason)
            (set_state pid State.faulted k1),
      )
      | ok (root, frame, entry) ↦
          let (now, k2) = read_time k1 in
          let s = slot_at pid k2 in
          let k3 =
            put_slot pid
              (record s {
                root = root;
                resume_frame = frame;
                state = State.running;
                started_at = now;
              })
              k2 in
          let k4 = record k3 { current = pid } in
          (entered (satp_of root) frame, emit_start pid s.caps entry false k4)
    ]

unfoldable pub start : Build → ℕ → Kernel → Started × Kernel
unfolding resume_saved start_fresh
start b pid k =
    if not ((slot_at pid k).resume_frame == 0) then resume_saved pid k else start_fresh b pid k

-- The next byte for `service_console`: the stashed one, else a poll.
unfoldable pub service_byte : Kernel → Option ℕ × Kernel
service_byte k =
    if not (k.stashed_byte == 0)
    then (some (k.stashed_byte % 2 ^ 8), record k { stashed_byte = 0 })
    else getchar k

-- `emit_ring_dump`
unfoldable pub emit_ring_dump : Kernel → Kernel
unfolding ring_dump_text
emit_ring_dump k = emit (Body.trap_ring (ring_dump_text k.next_id k.traps)) k

-- One byte: a request, the ring dump, or nothing.
unfoldable pub service_one : Build → ℕ → Kernel → Verdict × Kernel
unfolding read_request emit_ring_dump
service_one build b k =
    if b == 0xAA
    then read_request build k
    else (if b == b'r' then (served, emit_ring_dump k) else (served, k))

-- The loop, with fuel for its bytes.
unfoldable pub service_console : ℕ → Build → Kernel → Verdict × Kernel
unfolding service_byte service_one
service_console zero build k = (served, k)
service_console (suc fuel) build k =
    let (byte, k1) = service_byte k in
    elim byte [
      | none ↦ (served, k1)
      | some b ↦
          let (v, k2) = service_one build b k1 in
          elim v [
            | served ↦ service_console fuel build k2
            | seeded ↦ (seeded, k2)
            | crashed ↦ (crashed, k2)
          ]
    ]

-- Where the CPU goes when the scheduler is done.
pub data Outcome : Type 0 where
  to_user : ℕ → ℕ → ℕ → Outcome
  to_idle to_crash out_of_fuel : Outcome

-- `CURRENT` is cleared and the kernel's address space is active.
unfoldable pub enter_kernel : Kernel → Kernel
enter_kernel k = record k { current = no_pid; satp = satp_of k.kernel_root }

-- What is started next: a pending payload, else a continuation that the suite still owes.
unfoldable pub pick : Kernel → Option ℕ × Kernel
pick k = elim (take_next_pending k) [
  | some pid ↦ (some pid, k)
  | none ↦
      if ltb 0 k.auto_fork && ltb 0 k.last_snap
      then enqueue_restore (k.last_snap - 1) (record k { auto_fork = k.auto_fork - 1 })
      else (none, k)
]

-- `run`: every pass reaps, serves the control plane, reaps again and starts a payload; a payload
-- that cannot be loaded, and a suite seeded on the way, begin a new pass.
unfoldable pub run : ℕ → Build → Kernel → Outcome × Kernel
unfolding enter_kernel pick
run zero b k = (out_of_fuel, k)
run (suc fuel) b k =
    let k1 = reap_terminated (enter_kernel k) in
    let (v, k2) = service_console (length k1.rx + 2) b k1 in
    let (next, k3) = pick (reap_terminated k2) in
    elim v [
      | seeded ↦ run fuel b k2
      | crashed ↦ (to_crash, k2)
      | served ↦ elim next [
        | none ↦ (to_idle, emit_suite_done k3)
        | some pid ↦
            let (r, k4) = start b pid k3 in
            elim r [
              | entered satp frame ↦ (to_user pid satp frame, record k4 { satp = satp })
              | load_failed ↦ run fuel b k4
            ]
      ]
    ]
