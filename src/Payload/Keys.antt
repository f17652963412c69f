-- ===== src/Payload/Keys.antt =====
-- kernel/src/payload.rs, the operator's keys: a ring of 64 bytes fed by the timer tick with
-- `0xA5 <key>` pairs and popped by `getkey`. Head and tail are free-running counters that wrap.
pub mod Queue
use kernai.Base.{
  ℕ, zero, suc, ◌+◌, ◌-◌, ◌%◌, ◌^◌, Bool, true, false, not, Option, none, some, List, [], ◌∷◌, ltb,
  leb, ◌==◌, if◌then◌else◌, get_or, set, replicate,
}

abbrev pub key_ring_size : ℕ
key_ring_size = 64

abbrev pub key_prefix : ℕ
key_prefix = 0xA5

abbrev pub key_op_kill : ℕ
key_op_kill = 0x03

pub record Keys : Type 0 where
  pub ring : List ℕ
  pub head : ℕ
  pub tail : ℕ
  pub pending : Bool

-- The statics as they are initialised.
abbrev pub new_keys : Keys
new_keys = record { ring = replicate key_ring_size 0; head = 0; tail = 0; pending = false }

abbrev pub word : ℕ
word = 2 ^ 64

-- `tail.wrapping_sub(head)`
abbrev pub queued : Keys → ℕ
queued k = (k.tail + word - k.head) % word

-- The end of the loop body of `drain_keys`: the byte is queued unless the ring is full.
unfoldable pub push_key : ℕ → Keys → Keys
push_key b k =
    if leb key_ring_size (queued k)
    then k
    else record k { ring = set k.ring (k.tail % key_ring_size) b; tail = (k.tail + 1) % word }

-- `on_getkey`: none for EAGAIN.
unfoldable pub pop_key : Keys → Option ℕ × Keys
pop_key k =
    if k.head == k.tail
    then (none, k)
    else (some (get_or k.ring (k.head % key_ring_size) 0), record k { head = (k.head + 1) % word })

-- One byte of `drain_keys`, with whether the operator has killed the payload so far.
unfoldable pub drain_byte : ℕ → Bool × Keys → Bool × Keys
unfolding push_key
drain_byte b (killed, k) =
    if not k.pending
    then (killed, (if b == key_prefix then record k { pending = true } else k))
    else (let k' = record k { pending = false } in
        if b == key_op_kill
        then (true, k')
        else (if killed then (true, k') else (false, push_key b k')))

-- The `while let` over the bytes that are pending.
unfoldable pub drain : List ℕ → Bool × Keys → Bool × Keys
unfolding drain_byte
drain [] st = st
drain (b ∷ bs) st = drain bs (drain_byte b st)

unfoldable pub swallow_stray_key : ℕ → Keys → Bool × Keys
swallow_stray_key b k =
    if k.pending
    then (true, record k { pending = false })
    else (if b == key_prefix then (true, record k { pending = true }) else (false, k))

unfoldable pub clear_keys : Keys → Keys
clear_keys k = record k { head = 0; tail = 0; pending = false }
