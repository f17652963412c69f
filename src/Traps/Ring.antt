-- ===== src/Traps/Ring.antt =====
-- kernel/src/traps.rs: the ring of the last traps, the severity counters, the ring of notable
-- traps and the timer's cadence. The counters are u64 and wrap.
pub mod History
use Prim.Native.String.{String}
use kernai.Base.{
  ℕ, zero, suc, ◌+◌, ◌-◌, ◌%◌, ◌^◌, Bool, true, false, not, Option, none, some, List, [], ◌∷◌, ltb,
  leb, ◌==◌, if◌then◌else◌, get_or, set, replicate, min, ◌||◌, ◌&&◌, bit_and,
}

abbrev pub u64_mod : ℕ
u64_mod = 2 ^ 64

abbrev pub tick_interval : ℕ
tick_interval = 10000

abbrev pub ring_size : ℕ
ring_size = 8

abbrev pub notable_size : ℕ
notable_size = 4

abbrev pub interrupt_bit : ℕ
interrupt_bit = 2 ^ 63

abbrev pub cause_timer : ℕ
cause_timer = 2 ^ 63 + 5

abbrev pub cause_ecall : ℕ
cause_ecall = 8

-- One recorded trap: `RingSlot`.
pub record Trap : Type 0 where
  pub id : ℕ
  pub scause : ℕ
  pub sepc : ℕ
  pub stval : ℕ

abbrev pub new_trap : Trap
new_trap = record { id = 0; scause = 0; sepc = 0; stval = 0 }

pub record TrapState : Type 0 where
  pub ring : List Trap
  pub ring_count : ℕ
  pub ticks : ℕ
  pub next_deadline : ℕ
  pub ecall_traps : ℕ
  pub fault_traps : ℕ
  pub notable : List Trap
  pub notable_count : ℕ
  pub autonomous : Bool
  pub classic_surface : Bool

-- The statics as they are initialised.
abbrev pub new_trap_state : TrapState
new_trap_state = record {
  ring = replicate ring_size new_trap;
  ring_count = 0;
  ticks = 0;
  next_deadline = 0;
  ecall_traps = 0;
  fault_traps = 0;
  notable = replicate notable_size new_trap;
  notable_count = 0;
  autonomous = false;
  classic_surface = false;
}

pub data Severity : Type 0 where
  trace info warn error : Severity

unfoldable pub severity_of : ℕ → Severity
severity_of scause =
    if scause == cause_timer
    then Severity.trace
    else (if scause == cause_ecall
        then Severity.info
        else (if not (bit_and scause interrupt_bit == 0) then Severity.warn else Severity.error))

abbrev pub bump : ℕ → ℕ
bump n = (n + 1) % u64_mod

-- The second half of `ring_record`: the tally and the notable ring.
unfoldable pub record_notable : Trap → TrapState → TrapState
record_notable t s =
    let m = s.notable_count in
    if t.scause == cause_timer then s else record s {
      ecall_traps = (if t.scause == cause_ecall then bump s.ecall_traps else s.ecall_traps);
      fault_traps = (if t.scause == cause_ecall then s.fault_traps else bump s.fault_traps);
      notable = set s.notable (m % notable_size) t;
      notable_count = bump m;
    }

unfoldable pub ring_record : Trap → TrapState → TrapState
unfolding record_notable
ring_record t s =
    let n = s.ring_count in
    record_notable t (record s { ring = set s.ring (n % ring_size) t; ring_count = bump n })

-- The next deadline: one interval on, clamped forward from `now`.
unfoldable pub next_tick : ℕ → ℕ → ℕ
next_tick deadline now =
    let next = (deadline + tick_interval) % u64_mod in
    if leb next now then (now + tick_interval) % u64_mod else next

-- The entries from number `n` on, `left` of them.
unfoldable pub entries_from : ℕ → ℕ → TrapState → List Trap
entries_from zero n s = []
entries_from (suc left) n s = get_or s.ring (n % ring_size) new_trap ∷ entries_from left (n + 1) s

-- What `write_ring` lists, oldest first.
unfoldable pub ring_entries : TrapState → List Trap
unfolding entries_from
ring_entries s = let first = s.ring_count - ring_size in entries_from (s.ring_count - first) first s

-- The items of the digest, newest first: `show` rounds from `k` on.
unfoldable pub digest_from : ℕ → ℕ → TrapState → List Trap
digest_from zero k s = []
digest_from (suc left) k s =
    get_or s.notable ((s.notable_count - 1 - k) % notable_size) new_trap
    ∷ digest_from left (k + 1) s

-- What `write_digest` reports.
pub record Digest : Type 0 where
  pub total : ℕ
  pub timer : ℕ
  pub ecall : ℕ
  pub fault : ℕ
  pub items : List Trap
  pub elided : ℕ

unfoldable pub write_digest : ℕ → TrapState → Digest
unfolding digest_from
write_digest budget s =
    let show = min (min s.notable_count budget) notable_size in
    record {
      total = s.ring_count;
      timer = s.ticks;
      ecall = s.ecall_traps;
      fault = s.fault_traps;
      items = digest_from show 0 s;
      elided = s.ring_count - show;
    }

unfoldable pub set_autonomous : Bool → TrapState → TrapState
set_autonomous on s = record s { autonomous = on }

unfoldable pub set_classic_surface : Bool → TrapState → TrapState
set_classic_surface on s = record s { classic_surface = on }
