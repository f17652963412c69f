-- ===== src/Payload/Keys/Queue.antt =====
-- The key ring of kernel/src/payload.rs as a queue of at most 64 bytes.
use kernai.Base.{
  ℕ, zero, suc, ◌+◌, ◌-◌, ◌%◌, ◌^◌, ◌≤◌, ◌<◌, ◌≡◌, ◌≢◌, inl, inr, refl, ap, ◌∙◌, Bool, true, false,
  Option, none, some, List, [], ◌∷◌, ◌++◌, ◌==◌, leb, ltb, length, length-set, get_or,
  get_or-set_self, get_or-set_ne, set, arith, Bool-cases, if◌then◌else◌,
}
use kernai.Payload.Keys.{Keys, queued, push_key, pop_key, drain_byte, drain, word}

-- The `n` bytes from number `i` on.
abbrev pub window : ℕ → ℕ → List ℕ → List ℕ
window zero i r = []
window (suc n) i r = get_or r (i % 64) 0 ∷ window n (i + 1) r

-- What the ring holds, the next byte first.
abbrev pub contents : Keys → List ℕ
contents k = window (queued k) k.head k.ring

pub record IsKeys (k : Keys) : Type 0 where
  pub size : length k.ring ≡ 64
  pub head : k.head < 2 ^ 64
  pub tail : k.tail < 2 ^ 64
  pub bounded : queued k ≤ 64

length-window : (n i : ℕ) (r : List ℕ) → length (window n i r) ≡ n
length-window zero i r = refl
length-window (suc n) i r = ap suc (length-window n (i + 1) r)

-- Only the place matters.
window-place : (n i j : ℕ) (r : List ℕ) → i % 64 ≡ j % 64 → window n i r ≡ window n j r
window-place zero i j r e = refl
window-place (suc n) i j r e =
    let rest = window-place n (i + 1) (j + 1) r (omega arith) in rw (e, rest) refl

-- Writing the byte after the last one.
window-set :
    (n i : ℕ) (r : List ℕ) (b : ℕ)
    → length r ≡ 64
    → n < 64
    → window (suc n) i (set r ((i + n) % 64) b) ≡ window n i r ++ (b ∷ [])
window-set zero i r b l h =
    ap (λ x. x ∷ [])
      (ap (λ j. get_or (set r (j % 64) b) (i % 64) 0) (let e : i + 0 ≡ i = omega arith in e)
        ∙ get_or-set_self r (i % 64) b 0 (omega arith))
window-set (suc n) i r b l h =
    let head : get_or (set r ((i + suc n) % 64) b) (i % 64) 0 ≡ get_or r (i % 64) 0 =
      get_or-set_ne r ((i + suc n) % 64) (i % 64) b 0 (λ e. omega arith) in
    let place : (i + suc n) ≡ (i + 1) + n = omega arith in
    let rest = window-set n (i + 1) r b l (omega arith) in
    ap (λ x. x ∷ window (suc n) (i + 1) (set r ((i + suc n) % 64) b)) head
    ∙ ap (λ x. get_or r (i % 64) 0 ∷ x)
        (ap (λ j. window (suc n) (i + 1) (set r (j % 64) b)) place ∙ rest)

-- The queue's specification: a byte goes to the end unless there are 64, and is taken at the front.
abbrev pub offer : ℕ → List ℕ → List ℕ
offer b q = if ltb (length q) 64 then q ++ (b ∷ []) else q

abbrev pub poll : List ℕ → Option ℕ × List ℕ
poll [] = (none, [])
poll (b ∷ q) = (some b, q)

-- How far the tail runs ahead of the head, after each of them moves.
abbrev pub gap : ℕ → ℕ → ℕ
gap h t = (t + word - h) % word

gap-tail :
    (h t : ℕ) → h < 2 ^ 64 → t < 2 ^ 64 → gap h t < 64 → gap h ((t + 1) % word) ≡ suc (gap h t)
gap-tail h t l m n = omega arith

gap-head : (h t : ℕ) → h < 2 ^ 64 → t < 2 ^ 64 → h ≢ t → gap h t ≡ suc (gap ((h + 1) % word) t)
gap-head h t l m n = omega arith

gap-place : (h t : ℕ) → h < 2 ^ 64 → t < 2 ^ 64 → t % 64 ≡ (h + gap h t) % 64
gap-place h t l m = omega arith

pub push_key-IsKeys : (b : ℕ) (k : Keys) → IsKeys k → IsKeys (push_key b k)
unfolding push_key
push_key-IsKeys b k h = elim (Bool-cases (leb 64 (queued k))) [
  | inl e ↦ rw (e, push_key) h
  | inr e ↦
      let room : queued k < 64 = ground arith in
      rw (e, push_key)
        (record {
          size = length-set k.ring (k.tail % 64) b ∙ h.size;
          head = h.head;
          tail = omega arith;
          bounded = omega (arith, gap-tail k.head k.tail h.head h.tail room);
        })
]

pub contents-push_key :
    (b : ℕ) (k : Keys) → IsKeys k → contents (push_key b k) ≡ offer b (contents k)
unfolding push_key
contents-push_key b k h = elim (Bool-cases (leb 64 (queued k))) [
  | inl e ↦
      let full : ltb (length (contents k)) 64 ≡ false =
        rw (length-window (queued k) k.head k.ring)
          (let g : 64 ≤ queued k = ground arith in ground arith) in
      rw (e, full) refl
  | inr e ↦
      let room : queued k < 64 = ground arith in
      let free : ltb (length (contents k)) 64 ≡ true =
        rw (length-window (queued k) k.head k.ring) (ground arith) in
      rw (e, free)
        (ap (λ n. window n k.head (set k.ring (k.tail % 64) b))
            (gap-tail k.head k.tail h.head h.tail room)
          ∙ ap (λ p. window (suc (queued k)) k.head (set k.ring p b))
              (gap-place k.head k.tail h.head h.tail)
          ∙ window-set (queued k) k.head k.ring b h.size room)
]

pop_key-IsKeys : (k : Keys) → IsKeys k → IsKeys (pop_key k).1
unfolding pop_key
pop_key-IsKeys k h = elim (Bool-cases (k.head == k.tail)) [
  | inl e ↦ rw (e, pop_key) h
  | inr e ↦
      let apart : k.head ≢ k.tail = ground arith in
      rw (e, pop_key)
        (record {
          size = h.size;
          head = omega arith;
          tail = h.tail;
          bounded = omega (arith, gap-head k.head k.tail h.head h.tail apart, h.bounded);
        })
]

-- Taking a key from a well-formed key ring takes the front of the queue, or finds it empty.
pub pop_key-poll :
    (k : Keys) → IsKeys k → ((pop_key k).0, contents (pop_key k).1) ≡ poll (contents k)
unfolding pop_key
pop_key-poll k h = elim (Bool-cases (k.head == k.tail)) [
  | inl e ↦ let none_left : queued k ≡ 0 = ground arith in rw (e, none_left) refl
  | inr e ↦
      let apart : k.head ≢ k.tail = ground arith in
      let n : ℕ = gap ((k.head + 1) % word) k.tail in
      rw (e, gap-head k.head k.tail h.head h.tail apart)
        (ap (λ q. (some (get_or k.ring (k.head % 64) 0), q))
          (window-place n ((k.head + 1) % word) (k.head + 1) k.ring (omega arith)))
]

abbrev pub offer_all : List ℕ → List ℕ → List ℕ
offer_all [] q = q
offer_all (b ∷ bs) q = offer_all bs (offer b q)

-- The keys of a stretch of console bytes: of every pair the second byte.
abbrev pub keyed : Bool → List ℕ → List ℕ
keyed pending [] = []
keyed true (b ∷ bs) = b ∷ keyed false bs
keyed false (b ∷ bs) = keyed (b == 0xA5) bs

-- The keys before the operator's ctrl-C, and whether there is one.
abbrev pub before_kill : List ℕ → List ℕ
before_kill [] = []
before_kill (b ∷ bs) = if b == 0x03 then [] else b ∷ before_kill bs

abbrev pub has_kill : List ℕ → Bool
has_kill [] = false
has_kill (b ∷ bs) = if b == 0x03 then true else has_kill bs

-- What draining ends in, when the operator has killed the payload before, and when not.
abbrev pub Drained : List ℕ → Bool → Keys → Type 0
Drained bs true k =
    (drain bs (true, k)).0 ≡ true
    × (contents (drain bs (true, k)).1 ≡ contents k × IsKeys (drain bs (true, k)).1)
Drained bs false k =
    (drain bs (false, k)).0 ≡ has_kill (keyed k.pending bs)
    × (contents (drain bs (false, k)).1 ≡ offer_all (before_kill (keyed k.pending bs)) (contents k)
        × IsKeys (drain bs (false, k)).1)

IsKeys-pending : (k : Keys) (p : Bool) → IsKeys k → IsKeys (record k { pending = p })
IsKeys-pending k p h = record { size = h.size; head = h.head; tail = h.tail; bounded = h.bounded }

push_key-pending :
    (b : ℕ) (p : Bool) (k : Keys)
    → push_key b (record k { pending = p }) ≡ record (push_key b k) { pending = p }
unfolding push_key
push_key-pending b p k = elim (Bool-cases (leb 64 (queued k))) [
  | inl e ↦ rw (e, push_key) refl
  | inr e ↦ rw (e, push_key) refl
]

drain-Drained :
    (bs : List ℕ) (killed p : Bool) (k : Keys)
    → IsKeys k
    → Drained bs killed (record k { pending = p })
unfolding drain drain_byte
drain-Drained [] true p k h = (refl, (refl, IsKeys-pending k p h))
drain-Drained [] false p k h = (refl, (refl, IsKeys-pending k p h))
drain-Drained (b ∷ bs) true false k h = elim (Bool-cases (b == 0xA5)) [
  | inl e ↦ rw (e, drain, drain_byte) (drain-Drained bs true true k h)
  | inr e ↦ rw (e, drain, drain_byte) (drain-Drained bs true false k h)
]
drain-Drained (b ∷ bs) false false k h = elim (Bool-cases (b == 0xA5)) [
  | inl e ↦ rw (e, drain, drain_byte) (drain-Drained bs false true k h)
  | inr e ↦ rw (e, drain, drain_byte) (drain-Drained bs false false k h)
]
drain-Drained (b ∷ bs) true true k h = elim (Bool-cases (b == 0x03)) [
  | inl e ↦ rw (e, drain, drain_byte) (drain-Drained bs true false k h)
  | inr e ↦ rw (e, drain, drain_byte) (drain-Drained bs true false k h)
]
drain-Drained (b ∷ bs) false true k h = elim (Bool-cases (b == 0x03)) [
  | inl e ↦
      let r = drain-Drained bs true false k h in rw (e, drain, drain_byte) (r.0, (r.1.0, r.1.1))
  | inr e ↦
      let r = drain-Drained bs false false (push_key b k) (push_key-IsKeys b k h) in
      rw (e, drain, drain_byte, push_key-pending b false k)
        ((
          r.0,
          (r.1.0 ∙ ap (offer_all (before_kill (keyed false bs))) (contents-push_key b k h), r.1.1),
        ))
]

-- Draining the console into a well-formed key ring keeps it well-formed. It reads the bytes as
-- pairs of the prefix and a key, skips bytes outside a pair, reports a kill exactly when a key is
-- ctrl-C, and offers the keys before the first ctrl-C to a queue of 64 in their order, those that
-- find it full being dropped.
pub drain-keyed :
    (bs : List ℕ) (k : Keys)
    → IsKeys k
    → let (killed, k') = drain bs (false, k) in
      killed ≡ has_kill (keyed k.pending bs)
      × (contents k' ≡ offer_all (before_kill (keyed k.pending bs)) (contents k) × IsKeys k')
drain-keyed bs k h = drain-Drained bs false k.pending k h
