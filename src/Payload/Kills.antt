-- ===== src/Payload/Kills.antt =====
-- kernel/src/payload.rs: what the operator's `kill` does to each payload, and whom it refuses.
use kernai.Base.{
  ℕ, ◌+◌, subst, ◌≤◌, ◌<◌, ◌≡◌, ◌≢◌, refl, inl, inr, true, false, Option, ◌∷◌, ◌==◌, ltb, Result,
  ok, err, Bool-cases, arith,
}
use kernai.Payload.Slot.{State, is_pending, max_proc}
use kernai.Payload.Table.{set_state}
use kernai.Payload.Hooks.{Refusal, kill_pid, emit_killed_operator, elapsed_since}
use kernai.Kernel.{Kernel, Body, slot_at, put_slot, emit, emit_as, take_id, read_time}

-- `k'` is `k` with one more event: that `pid` was killed.
pub record Reports (pid : ℕ) (k k' : Kernel) : Type 0 where
  pub table : k'.table ≡ k.table
  pub current : k'.current ≡ k.current
  pub pool : k'.pool ≡ k.pool
  pub ops : k'.ops ≡ k.ops
  pub cause : Option ℕ
  pub elapsed : ℕ
  pub log :
      k'.log ≡ record { id = k.next_id; body = Body.killed_operator pid elapsed cause } ∷ k.log

emit_killed_operator-Reports : (pid : ℕ) (k : Kernel) → Reports pid k (emit_killed_operator pid k)
unfolding emit_killed_operator elapsed_since read_time emit emit_as take_id
emit_killed_operator-Reports pid k = elim (Bool-cases ((slot_at pid k).started_at == 0)) [
  | inl e ↦
      rw (e, emit_killed_operator)
        (record {
          table = refl;
          current = refl;
          pool = refl;
          ops = refl;
          cause = _;
          elapsed = _;
          log = refl;
        })
  | inr e ↦
      rw (e, emit_killed_operator)
        (record {
          table = refl;
          current = refl;
          pool = refl;
          ops = refl;
          cause = _;
          elapsed = _;
          log = refl;
        })
]

-- What `kill` answers, and what it makes of the kernel.
abbrev pub Kills : ℕ → Kernel → Result Refusal ℕ × Kernel → Type 0
Kills pid k (err Refusal.no_such_pid, k') = (max_proc ≤ pid) × (k' ≡ k)
Kills pid k (err Refusal.not_alive, k') =
    (pid < max_proc) × ((slot_at pid k).state ≢ State.pending) × (k' ≡ k)
Kills pid k (ok elapsed, k') =
    (pid < max_proc)
    × ((slot_at pid k).state ≡ State.pending)
    × Reports pid (put_slot pid (record (slot_at pid k) { state = State.killed }) k) k'

pub is_pending-true : (s : State) → is_pending s ≡ true → s ≡ State.pending
is_pending-true State.pending e = refl
is_pending-true _ e = cc

is_pending-false : (s : State) → is_pending s ≡ false → s ≢ State.pending
is_pending-false s e f = cc (subst (λ x. is_pending x ≡ false) f e)

-- `kill` kills exactly the pending payloads: of a pid below 12 whose slot is pending it sets the
-- state of that slot to killed and emits one event, and moves no other slot, `CURRENT`, memory or
-- operation id; any other pid, a running payload's too, it refuses and changes nothing at all.
pub kill_pid-Kills : (pid : ℕ) (k : Kernel) → Kills pid k (kill_pid pid k)
unfolding kill_pid elapsed_since read_time
kill_pid-Kills pid k = elim (Bool-cases (ltb pid max_proc)) [
  | inr l ↦ rw (l, kill_pid) (ground arith, refl)
  | inl l ↦ elim (Bool-cases (is_pending (slot_at pid k).state)) [
    | inr p ↦ rw (l, kill_pid, p) (ground arith, is_pending-false _ p, refl)
    | inl p ↦ elim (Bool-cases ((slot_at pid k1).started_at == 0)) [
      | inl z ↦ rw (l, kill_pid, p, z) (ground arith, is_pending-true _ p, reported)
      | inr z ↦ rw (l, kill_pid, p, z) (ground arith, is_pending-true _ p, timed)
    ]
  ]
]
  where
    k0 : Kernel
    k0 = set_state pid State.killed k

    k1 : Kernel
    k1 = emit_killed_operator pid k0

    reported : Reports pid k0 k1
    reported = emit_killed_operator-Reports pid k0

    timed : Reports pid k0 (record k1 { reads = k1.reads + 1 })
    timed = record {
      table = reported.table;
      current = reported.current;
      pool = reported.pool;
      ops = reported.ops;
      cause = reported.cause;
      elapsed = reported.elapsed;
      log = reported.log;
    }
