-- ===== src/Payload/Hooks.antt =====
-- kernel/src/payload.rs: what the system calls, the timer and the operator's tools do to the
-- payloads.
use kernai.Base.{
  ℕ, ◌-◌, Bool, true, false, not, ◌||◌, Option, none, some, List, [], ◌∷◌, bit_and, ◌==◌,
  if◌then◌else◌, ltb, min, Result, ok, err,
}
use kernai.Text.{bytes_of}
use kernai.Mm.{copy_from_user}
use kernai.Payload.Slot.{State, Cap, is_running, is_pending, no_pid, max_proc}
use kernai.Payload.Keys.{pop_key, drain}
use kernai.Payload.Images.{Build, image_at, spawnable_image, image_wants_input}
use kernai.Payload.Table.{enqueue, current_pid, current_has, current_space, set_state, emit_denied}
use kernai.Payload.Checkpoint.{einval, enocap, eagain, efault}
use kernai.Kernel.{Kernel, Body, slot_at, put_slot, emit, read_time}

abbrev pub write_quota : ℕ
write_quota = 256

unfoldable pub on_exit : ℕ → Kernel → Kernel
on_exit code k =
    if k.current == no_pid
    then k
    else (let pid = k.current in
        let s = slot_at pid k in
        emit (Body.payload_exit pid code s.start_event)
          (put_slot pid (record s { exit_code = code; state = State.exited }) k))

unfoldable pub mark_faulted : Kernel → Kernel
mark_faulted k = elim (current_pid k) [ none ↦ k | some pid ↦ set_state pid State.faulted k ]

-- `read_time().saturating_sub(started)`
unfoldable pub elapsed_since : ℕ → Kernel → ℕ × Kernel
elapsed_since started k = let (now, k') = read_time k in (now - started, k')

-- The verdict on a running payload with a deadline.
unfoldable pub check_deadline : ℕ → Kernel → Bool × Kernel
unfolding elapsed_since
check_deadline pid k =
    let s = slot_at pid k in
    let (elapsed, k1) = elapsed_since s.started_at k in
    if ltb s.deadline elapsed
    then (
      true,
      emit (Body.killed_deadline pid elapsed s.deadline s.start_event)
          (set_state pid State.killed k1),
    )
    else (false, k1)

unfoldable pub on_tick : Kernel → Bool × Kernel
unfolding check_deadline
on_tick k = elim (current_pid k) [
  | none ↦ (false, k)
  | some pid ↦
      if not (is_running (slot_at pid k).state)
      then (false, k)
      else (if (slot_at pid k).deadline == 0 then (false, k) else check_deadline pid k)
]

unfoldable pub on_yield : Kernel → ℕ × Kernel
on_yield k =
    if not (current_has Cap.yield k)
    then (enocap, emit_denied (bytes_of "yield") Cap.yield k)
    else elim (current_pid k) [ none ↦ (0, k) | some pid ↦ (0, emit (Body.payload_yield pid) k) ]

-- `requested & parent_caps & IMAGES[image].caps`
unfoldable pub attenuate : ℕ → ℕ → ℕ → ℕ
attenuate requested parent_caps image =
    bit_and (bit_and requested parent_caps) (image_at image).caps

-- The spawn of an image that may be spawned.
unfoldable pub spawn_image : ℕ → ℕ → ℕ → Kernel → ℕ × Kernel
unfolding attenuate
spawn_image parent image requested k =
    let parent_caps = (slot_at parent k).caps in
    let granted = attenuate requested parent_caps image in
    let (queued, k') = enqueue image granted parent k in
    elim queued [
      | none ↦ (eagain, k')
      | some child ↦
          (child, emit (Body.payload_spawn parent child parent_caps requested granted) k')
    ]

-- `requested` is an argument cast to u32.
unfoldable pub on_spawn : ℕ → ℕ → Kernel → ℕ × Kernel
unfolding spawn_image
on_spawn selector requested k = elim (current_pid k) [
  | none ↦ (einval, k)
  | some parent ↦
      if not (current_has Cap.spawn k)
      then (enocap, emit_denied (bytes_of "spawn") Cap.spawn k)
      else elim (spawnable_image selector) [
        | none ↦ (einval, k)
        | some image ↦ spawn_image parent image requested k
      ]
]

-- `emit_output`: true for Ok.
unfoldable pub emit_output : ℕ → ℕ → Kernel → Bool × Kernel
emit_output ptr len k = elim (current_space k) [
  | none ↦ (false, k)
  | some space ↦ elim (copy_from_user space ptr (min len write_quota) k.pool) [
    | none ↦ (false, k)
    | some bytes ↦
        let caused_by = (slot_at k.current k).start_event in
        (true, emit (Body.payload_output k.current caused_by bytes) k)
  ]
]

-- `sys_write` of kernel/src/syscall.rs.
unfoldable pub sys_write : ℕ → ℕ → Kernel → ℕ × Kernel
unfolding emit_output
sys_write ptr len k =
    let take = min len write_quota in
    let (sent, k') = emit_output ptr take k in
    if not (current_has Cap.write k)
    then (enocap, emit_denied (bytes_of "write") Cap.write k)
    else (if sent then (take, k') else (efault, k'))

-- `emit_killed_operator`: the time since the start, 0 if there was none.
unfoldable pub emit_killed_operator : ℕ → Kernel → Kernel
unfolding elapsed_since
emit_killed_operator pid k =
    let s = slot_at pid k in
    let cause = if s.start_event == 0 then none else some s.start_event in
    let (elapsed, k1) = if s.started_at == 0 then (0, k) else elapsed_since s.started_at k in
    emit (Body.killed_operator pid elapsed cause) k1

-- Why a tool refuses: `no such pid`, `payload not alive`.
pub data Refusal : Type 0 where
  no_such_pid not_alive : Refusal

unfoldable pub kill_pid : ℕ → Kernel → Result Refusal ℕ × Kernel
unfolding emit_killed_operator
kill_pid pid k =
    if not (ltb pid max_proc)
    then (err Refusal.no_such_pid, k)
    else (if not (is_pending (slot_at pid k).state)
        then (err Refusal.not_alive, k)
        else (let k1 = emit_killed_operator pid (set_state pid State.killed k) in
            let started = (slot_at pid k1).started_at in
            let (elapsed, k2) = elapsed_since started k1 in
            if started == 0 then (ok 0, k1) else (ok elapsed, k2)))

unfoldable pub set_deadline : ℕ → ℕ → Kernel → Result Refusal (Unit {0}) × Kernel
set_deadline pid units k =
    let s = slot_at pid k in
    if not (ltb pid max_proc)
    then (err Refusal.no_such_pid, k)
    else (if not (is_pending s.state)
        then (err Refusal.not_alive, k)
        else (ok tt, put_slot pid (record s { deadline = units }) k))

unfoldable pub on_getkey : Kernel → ℕ × Kernel
on_getkey k =
    let (key, keys) = pop_key k.keys in
    elim key [ none ↦ (eagain, k) | some b ↦ (b, record k { keys = keys }) ]

-- The bytes that the polls answer until one answers none, and the polls that are left.
unfoldable pub pending_bytes : List (Option ℕ) → List ℕ × List (Option ℕ)
pending_bytes [] = ([], [])
pending_bytes (none ∷ rest) = ([], rest)
pending_bytes (some b ∷ rest) = let (bytes, rest') = pending_bytes rest in (b ∷ bytes, rest')

-- The drain of the serial line for a payload that takes input.
unfoldable pub drain_for : ℕ → Kernel → Bool × Kernel
unfolding pending_bytes emit_killed_operator
drain_for pid k =
    let (bytes, rx) = pending_bytes k.rx in
    let (killed, keys) = drain bytes (false, k.keys) in
    let k1 = record k { rx = rx; keys = keys } in
    if killed then (true, emit_killed_operator pid (set_state pid State.killed k1)) else (false, k1)

-- `drain_keys`, which only a `doom` build has.
unfoldable pub drain_keys : Build → Kernel → Bool × Kernel
unfolding drain_for
drain_keys b k = elim (current_pid k) [
  | none ↦ (false, k)
  | some pid ↦
      if not (is_running (slot_at pid k).state) || not (image_wants_input b (slot_at pid k).image)
      then (false, k)
      else drain_for pid k
]
