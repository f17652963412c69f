-- ===== src/Payload/Slot.antt =====
-- kernel/src/payload.rs: what the process table and the checkpoint table hold.
use kernai.Base.{ℕ, ◌-◌, ◌^◌, Bool, true, false}

-- `usize::MAX`, no process.
abbrev pub no_pid : ℕ
no_pid = 2 ^ 64 - 1

abbrev pub max_proc : ℕ
max_proc = 12

abbrev pub max_snap : ℕ
max_snap = 4

pub data Cap : Type 0 where
  write yield spawn : Cap

abbrev pub cap_write : ℕ
cap_write = 1

abbrev pub cap_yield : ℕ
cap_yield = 2

abbrev pub cap_spawn : ℕ
cap_spawn = 4

unfoldable pub cap_bit : Cap → ℕ
cap_bit Cap.write = cap_write
cap_bit Cap.yield = cap_yield
cap_bit Cap.spawn = cap_spawn

-- The u8 state of a slot, by its names.
pub data State : Type 0 where
  empty pending running exited faulted killed : State

abbrev pub is_empty : State → Bool
is_empty State.empty = true
is_empty _ = false

abbrev pub is_pending : State → Bool
is_pending State.pending = true
is_pending _ = false

abbrev pub is_running : State → Bool
is_running State.running = true
is_running _ = false

-- `EXITED | FAULTED | KILLED`
abbrev pub is_terminal : State → Bool
is_terminal State.exited = true
is_terminal State.faulted = true
is_terminal State.killed = true
is_terminal _ = false

-- `RUNNING | PENDING`
abbrev pub is_alive : State → Bool
is_alive State.running = true
is_alive State.pending = true
is_alive _ = false

pub record Slot : Type 0 where
  pub state : State
  pub image : ℕ
  pub caps : ℕ
  pub parent : ℕ
  pub exit_code : ℕ
  pub started_at : ℕ
  pub deadline : ℕ
  pub root : ℕ
  pub resume_frame : ℕ
  pub preempted : Bool
  pub start_event : ℕ

-- `Slot::new`
abbrev pub new_slot : Slot
new_slot = record {
  state = State.empty;
  image = 0;
  caps = 0;
  parent = no_pid;
  exit_code = 0;
  started_at = 0;
  deadline = 0;
  root = 0;
  resume_frame = 0;
  preempted = false;
  start_event = 0;
}

pub record Snapshot : Type 0 where
  pub valid : Bool
  pub root : ℕ
  pub frame : ℕ
  pub caps : ℕ
  pub image : ℕ

-- `Snapshot::new`
abbrev pub new_snapshot : Snapshot
new_snapshot = record { valid = false; root = 0; frame = 0; caps = 0; image = 0 }
