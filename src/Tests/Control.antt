-- ===== src/Tests/Control.antt =====
-- The trap rings, the idempotency window and the key ring at concrete inputs
-- (kernel/src/traps.rs, kernel/src/rpc.rs, kernel/src/payload.rs).
use kernai.Base.{
  ℕ, ◌+◌, ◌≡◌, ◌↔◌, refl, true, false, List, [], ◌∷◌, length, min, arith, oldest_first,
}
use kernai.Traps.Ring.{Trap, new_trap, cause_timer, ring_entries, write_digest}
use kernai.Traps.Ring.History.{
  recorded, notables, ecalls, faults, newest_first, ring_entries-recorded, write_digest-recorded,
}
use kernai.Rpc.Ops.{fnv1a, op_seen}
use kernai.Rpc.Ops.Window.{performed, IsFresh, op_seen-performed}
use kernai.Payload.Keys.{new_keys, drain, pop_key, push_key}
use kernai.Payload.Keys.Queue.{
  contents, IsKeys, poll, drain-keyed, pop_key-poll, has_kill, keyed, before_kill, offer_all,
  push_key-IsKeys,
}

abbrev trap : ℕ → ℕ → Trap
trap id scause = record { id = id; scause = scause; sepc = 0; stval = 0 }

abbrev some_traps : List Trap
some_traps = trap 3 8 ∷ trap 2 cause_timer ∷ trap 1 13 ∷ []

ring_entries-recorded_example :
    ring_entries (recorded some_traps) ≡ oldest_first new_trap (min 8 3) some_traps
ring_entries-recorded_example = ring_entries-recorded some_traps (omega arith)

write_digest-recorded_example :
    let d = write_digest 2 (recorded some_traps) in
    let shown = min (min (length (notables some_traps)) 2) 4 in
    d.total ≡ length some_traps
    × d.ecall ≡ ecalls some_traps
    × d.fault ≡ faults some_traps
    × d.items ≡ newest_first shown 0 (notables some_traps)
    × d.elided + shown ≡ length some_traps
write_digest-recorded_example = write_digest-recorded 2 some_traps (omega arith)

abbrev some_op : List ℕ
some_op = b'o' ∷ b'p' ∷ []

op_seen-performed_example :
    (op_seen (fnv1a some_op) (performed (fnv1a some_op ∷ 5 ∷ [])) ≡ true)
    ↔ IsFresh (fnv1a some_op) (fnv1a some_op ∷ 5 ∷ [])
op_seen-performed_example = op_seen-performed some_op (fnv1a some_op ∷ 5 ∷ []) (omega arith)

new_keys-IsKeys : IsKeys new_keys
new_keys-IsKeys = record {
  size = refl;
  head = omega arith;
  tail = omega arith;
  bounded = omega arith;
}

-- A key, a byte outside a pair, a key and a ctrl-C.
abbrev typed : List ℕ
typed = 0xA5 ∷ 97 ∷ 10 ∷ 0xA5 ∷ 98 ∷ 0xA5 ∷ 3 ∷ []

drain-keyed_example :
    let (killed, k') = drain typed (false, new_keys) in
    killed ≡ has_kill (keyed false typed)
    × (contents k' ≡ offer_all (before_kill (keyed false typed)) (contents new_keys) × IsKeys k')
drain-keyed_example = drain-keyed typed new_keys new_keys-IsKeys

pop_key-poll_example :
    ((pop_key (push_key 97 new_keys)).0, contents (pop_key (push_key 97 new_keys)).1)
    ≡ poll (contents (push_key 97 new_keys))
pop_key-poll_example =
    pop_key-poll (push_key 97 new_keys) (push_key-IsKeys 97 new_keys new_keys-IsKeys)
