-- ===== src/Payload/Table.antt =====
-- kernel/src/payload.rs: the process table, its queue, and what it says of the running payload.
use kernai.Base.{
  ℕ, ◌+◌, Bool, true, false, not, ◌||◌, Option, none, some, List, [], ◌∷◌, bit_and, ◌==◌,
  if◌then◌else◌,
}
use kernai.Text.{Text}
use kernai.Mm.{AddressSpace, WalkChain, walk, has}
use kernai.Payload.Slot.{Slot, State, Cap, cap_bit, is_empty, is_pending, is_alive, no_pid}
use kernai.Payload.Images.{image_at}
use kernai.Kernel.{Kernel, Body, slot_at, put_slot, emit, take_id, emit_as}

-- `TABLE.iter().position(..)` by the state, counting from `pid`.
unfoldable pub position : (State → Bool) → List Slot → ℕ → Option ℕ
position p [] pid = none
position p (s ∷ rest) pid = if p s.state then some pid else position p rest (pid + 1)

-- The slot that `enqueue` fills: the capabilities never exceed the image's ceiling.
abbrev pub queued_slot : ℕ → ℕ → ℕ → Slot
queued_slot image caps parent = record {
  state = State.pending;
  image = image;
  caps = bit_and caps (image_at image).caps;
  parent = parent;
  exit_code = 0;
  started_at = 0;
  deadline = (image_at image).deadline;
  root = 0;
  resume_frame = 0;
  preempted = false;
  start_event = 0;
}

unfoldable pub enqueue : ℕ → ℕ → ℕ → Kernel → Option ℕ × Kernel
unfolding position
enqueue image caps parent k = elim (position is_empty k.table 0) [
  | none ↦ (none, k)
  | some pid ↦ (some pid, put_slot pid (queued_slot image caps parent) k)
]

unfoldable pub take_next_pending : Kernel → Option ℕ
unfolding position
take_next_pending k = position is_pending k.table 0

-- Some slot is running or queued.
unfoldable pub any_alive_in : List Slot → Bool
any_alive_in [] = false
any_alive_in (s ∷ rest) = is_alive s.state || any_alive_in rest

unfoldable pub any_alive : Kernel → Bool
unfolding any_alive_in
any_alive k = any_alive_in k.table

unfoldable pub current_pid : Kernel → Option ℕ
current_pid k = if k.current == no_pid then none else some k.current

unfoldable pub current_has : Cap → Kernel → Bool
current_has cap k =
    if k.current == no_pid then false else has (slot_at k.current k).caps (cap_bit cap)

unfoldable pub current_space : Kernel → Option AddressSpace
unfolding current_pid
current_space k = elim (current_pid k) [
  | none ↦ none
  | some pid ↦ let root = (slot_at pid k).root in if not (root == 0) then some root else none
]

unfoldable pub current_pagewalk : ℕ → Kernel → Option WalkChain
unfolding current_space
current_pagewalk va k = elim (current_space k) [
  | none ↦ none
  | some space ↦ some (walk space va k.pool)
]

unfoldable pub current_cause : Kernel → Option ℕ
unfolding current_pid
current_cause k = elim (current_pid k) [ none ↦ none | some pid ↦ some (slot_at pid k).start_event ]

unfoldable pub leave_current : Kernel → Kernel
leave_current k = record k { current = no_pid }

-- A store into one field of a slot.
abbrev pub set_state : ℕ → State → Kernel → Kernel
set_state pid st k = let s = slot_at pid k in put_slot pid (record s { state = st }) k

-- `emit_denied`, with the name of the call that is refused.
unfoldable pub emit_denied : Text → Cap → Kernel → Kernel
emit_denied syscall cap k = emit (Body.syscall_denied k.current syscall (cap_bit cap)) k

-- `emit_start`: the id is recorded in the slot before the event is built.
unfoldable pub emit_start : ℕ → ℕ → ℕ → Bool → Kernel → Kernel
emit_start pid caps entry restored k =
    let (ev, k1) = take_id k in
    let s = slot_at pid k1 in
    let k2 = put_slot pid (record s { start_event = ev }) k1 in
    let caused_by = if s.parent == no_pid then none else some (slot_at s.parent k2).start_event in
    emit_as ev (Body.payload_start pid entry restored caused_by caps) k2

-- How many slots have a state.
unfoldable pub count_state : (State → Bool) → List Slot → ℕ
count_state p [] = 0
count_state p (s ∷ rest) = (if p s.state then 1 else 0) + count_state p rest

abbrev is_exited : State → Bool
is_exited State.exited = true
is_exited _ = false

abbrev is_faulted : State → Bool
is_faulted State.faulted = true
is_faulted _ = false

abbrev is_killed : State → Bool
is_killed State.killed = true
is_killed _ = false

unfoldable pub emit_suite_done : Kernel → Kernel
unfolding count_state
emit_suite_done k =
    emit
      (Body.suite_done (count_state is_exited k.table) (count_state is_faulted k.table)
        (count_state is_killed k.table))
      k
