-- ===== src/Rpc/Ops/Window.antt =====
-- The idempotency window of kernel/src/rpc.rs: the last eight operations that were recorded.
use kernai.Base.{
  ℕ, zero, suc, ◌-◌, ◌%◌, ◌^◌, ◌≤◌, ◌<◌, ◌≡◌, ◌≢◌, inl, inr, refl, sym, ap, ◌∙◌, true, List, [],
  ◌∷◌, ◌==◌, length, get_or, get_or-set_ne, replicate, leb, ◌↔◌, arith, Bool-cases, IsRecent,
  IsRecent-[], IsRecent-set, IsRingSize-8,
}
use kernai.Bits.{bit_or_step}
use kernai.Rpc.Ops.{Ops, new_ops, fnv_offset, fnv_loop, fnv1a, any_slot, op_seen, op_record}

-- The state after the operations of a list of hashes that has the newest first.
abbrev pub performed : List ℕ → Ops
performed [] = new_ops
performed (h ∷ hs) = op_record h (performed hs)

-- `h` is among the eight newest of `hs`.
abbrev pub IsFresh : ℕ → List ℕ → Type 0
IsFresh h hs = (i : ℕ) × (i < 8 × (i < length hs × get_or hs i 0 ≡ h))

pub record IsWindow (hs : List ℕ) (o : Ops) : Type 0 where
  pub recent : IsRecent 8 0 o.slots hs
  pub head : o.head ≡ length hs
  -- The slots that no operation has reached yet are empty.
  pub unused : (i : ℕ) → length hs ≤ i → get_or o.slots i 0 ≡ 0

get_or-replicate : (n i : ℕ) → ◌≡◌ {A = ℕ} (get_or (replicate n 0) i 0) 0
get_or-replicate zero i = refl
get_or-replicate (suc n) zero = refl
get_or-replicate (suc n) (suc i) = get_or-replicate n i

any_slot-found : (xs : List ℕ) (h i : ℕ) → i < length xs → get_or xs i 0 ≡ h → any_slot xs h ≡ true
unfolding any_slot
any_slot-found [] h i l e = absurd (omega arith)
any_slot-found (x ∷ xs) h zero l e = let s : (x == h) ≡ true = ground arith in rw s refl
any_slot-found (x ∷ xs) h (suc i) l e = elim (Bool-cases (x == h)) [
  | inl s ↦ rw s refl
  | inr s ↦ rw s (any_slot-found xs h i (omega arith) e)
]

any_slot-index :
    (xs : List ℕ) (h : ℕ) → any_slot xs h ≡ true → (i : ℕ) × (i < length xs × get_or xs i 0 ≡ h)
unfolding any_slot
any_slot-index [] h e = ground arith
any_slot-index (x ∷ xs) h e = elim (Bool-cases (x == h)) [
  | inl s ↦ (0, (omega arith, ground arith))
  | inr s ↦
      let rest : any_slot xs h ≡ true = rw s at e in
      let (i, l) = any_slot-index xs h rest in (suc i, (omega (arith, l.0), l.1))
]

op_record-IsWindow :
    (h : ℕ) (hs : List ℕ) (o : Ops)
    → length hs < 2 ^ 64 - 1
    → IsWindow hs o
    → IsWindow (h ∷ hs) (op_record h o)
unfolding op_record
op_record-IsWindow h hs o l w = record {
  recent = rw w.head (IsRecent-set 8 IsRingSize-8 0 o.slots hs h w.recent);
  head = omega (arith, w.head);
  unused = λ i m.
      get_or-set_ne o.slots (o.head % 8) i h 0 (λ e. omega (arith, w.head))
      ∙ w.unused i (omega arith);
}

pub performed-IsWindow : (hs : List ℕ) → length hs < 2 ^ 64 → IsWindow hs (performed hs)
performed-IsWindow [] l = record {
  recent = IsRecent-[] 8 IsRingSize-8 0 _ refl;
  head = refl;
  unused = λ i m. get_or-replicate 8 i;
}
performed-IsWindow (h ∷ hs) l =
    op_record-IsWindow h hs (performed hs) (omega arith) (performed-IsWindow hs (omega arith))

op_seen-IsFresh :
    (h : ℕ) (hs : List ℕ) (o : Ops) → IsWindow hs o → IsFresh h hs → op_seen h o ≡ true
unfolding op_seen
op_seen-IsFresh h hs o w (i, f) =
    any_slot-found o.slots h ((length hs - 1 - i) % 8) (omega (arith, w.recent.bounded))
      (w.recent.newest i f.0 f.1.0 ∙ f.1.1)

IsFresh-op_seen :
    (h : ℕ) (hs : List ℕ) (o : Ops) → h ≢ 0 → IsWindow hs o → op_seen h o ≡ true → IsFresh h hs
unfolding op_seen
IsFresh-op_seen h hs o n w e =
    let (j, f) = any_slot-index o.slots h e in
    let b : length o.slots ≡ 8 = w.recent.bounded in
    let l : j < length hs = (elim (Bool-cases (leb (length hs) j)) [
      | inl m ↦ absurd (n (sym f.1 ∙ w.unused j (ground arith)))
      | inr m ↦ ground arith
    ]) in
    let i : ℕ = (length hs - 1 - j) % 8 in
    let m : (length hs - 1 - i) % 8 ≡ j = omega (arith, f.0) in
    (
      i,
      (
        omega arith,
        (
          omega arith,
          sym (w.recent.newest i (omega arith) (omega arith))
              ∙ ap (λ x. get_or o.slots x 0) m
              ∙ f.1,
        ),
      ),
    )

-- The low bit is set, so no operation hashes to the mark of an empty slot.
pub fnv1a-nonzero : (op : List ℕ) → fnv1a op ≢ 0
unfolding fnv1a
fnv1a-nonzero op e = omega (arith, bit_or_step (fnv_loop op fnv_offset) 1)

-- After any sequence of fewer than 2^64 recorded hashes, an operation id counts as seen exactly when its hash is
-- one of the last eight that were recorded: a slot not yet used answers to no operation id.
pub op_seen-performed :
    (op : List ℕ) (hs : List ℕ)
    → length hs < 2 ^ 64
    → (op_seen (fnv1a op) (performed hs) ≡ true) ↔ IsFresh (fnv1a op) hs
op_seen-performed op hs l =
    let w = performed-IsWindow hs l in
    (
      IsFresh-op_seen (fnv1a op) hs (performed hs) (fnv1a-nonzero op) w,
      op_seen-IsFresh (fnv1a op) hs (performed hs) w,
    )
