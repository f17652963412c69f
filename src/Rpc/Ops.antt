-- ===== src/Rpc/Ops.antt =====
-- kernel/src/rpc.rs: idempotency of the mutating tools. Eight slots remember the hashes of the
-- last operation ids; 0 marks a slot that is empty.
pub mod Window
use kernai.Base.{
  ℕ, zero, suc, ◌+◌, ◌*◌, ◌%◌, ◌^◌, Bool, true, false, ◌||◌, List, [], ◌∷◌, bit_or, bit_xor, ◌==◌,
  set, replicate,
}

abbrev pub op_slots : ℕ
op_slots = 8

pub record Ops : Type 0 where
  pub slots : List ℕ
  pub head : ℕ

-- The statics as they are initialised.
abbrev pub new_ops : Ops
new_ops = record { slots = replicate op_slots 0; head = 0 }

abbrev pub fnv_offset : ℕ
fnv_offset = 0xcbf2_9ce4_8422_2325

abbrev pub fnv_prime : ℕ
fnv_prime = 0x0000_0100_0000_01b3

-- The loop of `fnv1a` over the bytes.
unfoldable pub fnv_loop : List ℕ → ℕ → ℕ
fnv_loop [] h = h
fnv_loop (b ∷ bs) h = fnv_loop bs (bit_xor h b * fnv_prime % 2 ^ 64)

unfoldable pub fnv1a : List ℕ → ℕ
unfolding fnv_loop
fnv1a s = bit_or (fnv_loop s fnv_offset) 1

-- `OP_IDS.iter().any(..)`
unfoldable pub any_slot : List ℕ → ℕ → Bool
any_slot [] h = false
any_slot (x ∷ xs) h = (x == h) || any_slot xs h

unfoldable pub op_seen : ℕ → Ops → Bool
unfolding any_slot
op_seen h o = any_slot o.slots h

unfoldable pub op_record : ℕ → Ops → Ops
op_record h o = record o { slots = set o.slots (o.head % op_slots) h; head = (o.head + 1) % 2 ^ 64 }
