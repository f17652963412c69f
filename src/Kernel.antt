-- ===== src/Kernel.antt =====
-- The statics of kernel/src/*.rs in one record, with the hardware that they stand on: the RAM and
-- its allocator, `satp`, the armed timer, the polls of the serial line that are still to come
-- (`console_getchar`), the readings of the clock (`read_time`), and the events that have been
-- emitted, newest first.
use kernai.Base.{ℕ, ◌+◌, ◌%◌, ◌^◌, Bool, Option, none, List, [], ◌∷◌, get_or, set, replicate}
use kernai.Text.{Text}
use kernai.Frames.{Pool}
use kernai.Payload.Slot.{Slot, Snapshot, new_slot, new_snapshot, max_proc, max_snap, no_pid}
use kernai.Payload.Keys.{Keys, new_keys}
use kernai.Traps.Ring.{TrapState, new_trap_state}
use kernai.Rpc.Ops.{Ops, new_ops}

-- What an event says beside its id: one constructor for each `emit_*`, with the fields that the
-- frame carries.
pub data Body : Type 0 where
  -- seq, time
  tick : ℕ → ℕ → Body
  -- the payload's pid if there is one, and the report
  fault : Option ℕ → Text → Body
  -- a line of the classic surface, which goes out without a frame and without its id
  console_line : Text → Body
  -- the ring dump
  trap_ring : Text → Body
  -- the first event
  hello : Body
  -- pid, name of the call, missing capability bit
  syscall_denied : ℕ → Text → ℕ → Body
  -- pid, caused_by, the bytes
  payload_output : ℕ → ℕ → List ℕ → Body
  -- pid, entry, restored, caused_by, caps
  payload_start : ℕ → ℕ → Bool → Option ℕ → ℕ → Body
  -- pid, snapshot id
  snapshot : ℕ → ℕ → Body
  -- pid, code, caused_by
  payload_exit : ℕ → ℕ → ℕ → Body
  -- pid, name of the image, reason
  payload_load_fault : ℕ → Text → Text → Body
  -- pid
  payload_yield : ℕ → Body
  -- parent, child, parent's caps, requested, granted
  payload_spawn : ℕ → ℕ → ℕ → ℕ → ℕ → Body
  -- pid, elapsed, deadline, caused_by
  killed_deadline : ℕ → ℕ → ℕ → ℕ → Body
  -- pid, elapsed, caused_by
  killed_operator : ℕ → ℕ → Option ℕ → Body
  -- pid, caused_by
  sched_preempt : ℕ → ℕ → Body
  -- exited, faulted, killed
  suite_done : ℕ → ℕ → ℕ → Body
  -- a control-plane answer
  rpc : Text → Body
  -- what blit draws, and a chunk of a full frame
  frame : Text → Body
  fbchunk : Text → Body

pub record Event : Type 0 where
  pub id : ℕ
  pub body : Body

pub record Kernel : Type 0 where
  pub pool : Pool
  pub kernel_root : ℕ
  pub satp : ℕ
  pub table : List Slot
  pub current : ℕ
  pub snaps : List Snapshot
  pub last_snap : ℕ
  pub auto_fork : ℕ
  pub stashed_byte : ℕ
  pub keys : Keys
  pub ops : Ops
  pub traps : TrapState
  pub next_id : ℕ
  pub timer : ℕ
  pub rx : List (Option ℕ)
  pub clock : ℕ → ℕ
  pub reads : ℕ
  pub log : List Event

-- `hal::read_time`
unfoldable pub read_time : Kernel → ℕ × Kernel
read_time k = (k.clock k.reads, record k { reads = k.reads + 1 })

-- `hal::console_getchar`: the answer of the next poll; no byte comes after the last one.
unfoldable pub getchar : Kernel → Option ℕ × Kernel
getchar k = elim k.rx [ [] ↦ (none, k) | b ∷ rest ↦ (b, record k { rx = rest }) ]

-- `events::next_id`
unfoldable pub take_id : Kernel → ℕ × Kernel
take_id k = (k.next_id, record k { next_id = (k.next_id + 1) % 2 ^ 64 })

-- An event with an id that was taken before.
unfoldable pub emit_as : ℕ → Body → Kernel → Kernel
emit_as id body k = record k { log = record { id = id; body = body } ∷ k.log }

-- An event with the next id.
unfoldable pub emit : Body → Kernel → Kernel
unfolding emit_as take_id
emit body k = let (id, k') = take_id k in emit_as id body k'

-- `TABLE[pid]`
unfoldable pub slot_at : ℕ → Kernel → Slot
slot_at pid k = get_or k.table pid new_slot

unfoldable pub put_slot : ℕ → Slot → Kernel → Kernel
put_slot pid s k = record k { table = set k.table pid s }

-- `SNAPS[sid]`
unfoldable pub snap_at : ℕ → Kernel → Snapshot
snap_at sid k = get_or k.snaps sid new_snapshot

unfoldable pub put_snap : ℕ → Snapshot → Kernel → Kernel
put_snap sid s k = record k { snaps = set k.snaps sid s }

-- The statics as they are initialised, over the memory, the clock and the serial line given.
abbrev pub boot_state : Pool → (ℕ → ℕ) → List (Option ℕ) → Kernel
boot_state pool clock rx = record {
  pool = pool;
  kernel_root = 0;
  satp = 0;
  table = replicate max_proc new_slot;
  current = no_pid;
  snaps = replicate max_snap new_snapshot;
  last_snap = 0;
  auto_fork = 0;
  stashed_byte = 0;
  keys = new_keys;
  ops = new_ops;
  traps = new_trap_state;
  next_id = 0;
  timer = 0;
  rx = rx;
  clock = clock;
  reads = 0;
  log = [];
}
