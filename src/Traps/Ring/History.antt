-- ===== src/Traps/Ring/History.antt =====
-- The rings of kernel/src/traps.rs against the list of the traps that were recorded.
use kernai.Base.{
  ℕ, zero, suc, ◌+◌, ◌-◌, ◌%◌, ◌^◌, ◌≤◌, ◌<◌, ◌≡◌, inl, inr, refl, ap, ◌∙◌, false, List, [], ◌∷◌,
  ◌==◌, length, get_or, set, min, arith, Bool-cases, if◌then◌else◌, oldest_first, IsRecent,
  IsRecent-[], IsRecent-set, IsRingSize-8, IsRingSize-4,
}
use kernai.Traps.Ring.{
  Trap, new_trap, TrapState, new_trap_state, cause_timer, cause_ecall, bump, record_notable,
  ring_record, entries_from, ring_entries, digest_from, write_digest,
}

-- The state after the traps of a list that has the newest first.
abbrev pub recorded : List Trap → TrapState
recorded [] = new_trap_state
recorded (t ∷ hs) = ring_record t (recorded hs)

-- The traps but the timer's.
abbrev pub notables : List Trap → List Trap
notables [] = []
notables (t ∷ hs) = if t.scause == cause_timer then notables hs else t ∷ notables hs

-- How many of the traps are ecalls, and how many are neither ecalls nor the timer's.
abbrev pub ecalls : List Trap → ℕ
ecalls [] = 0
ecalls (t ∷ hs) = if t.scause == cause_ecall then suc (ecalls hs) else ecalls hs

abbrev pub faults : List Trap → ℕ
faults [] = 0
faults (t ∷ hs) =
    if t.scause == cause_timer
    then faults hs
    else (if t.scause == cause_ecall then faults hs else suc (faults hs))

-- The state after `hs` has its counters and its two rings in step with `hs`.
pub record IsRecorded (hs : List Trap) (s : TrapState) : Type 0 where
  pub ring : IsRecent 8 new_trap s.ring hs
  pub count : s.ring_count ≡ length hs
  pub notable : IsRecent 4 new_trap s.notable (notables hs)
  pub notable_count : s.notable_count ≡ length (notables hs)
  pub ecall : s.ecall_traps ≡ ecalls hs
  pub fault : s.fault_traps ≡ faults hs

bump_lem : (n m : ℕ) → n ≡ m → m < 2 ^ 64 - 1 → bump n ≡ suc m
bump_lem n m e h = omega arith

length-notables : (hs : List Trap) → length (notables hs) ≤ length hs
length-notables [] = omega arith
length-notables (t ∷ hs) =
    let r = length-notables hs in
    elim (Bool-cases (t.scause == cause_timer)) [
      | inl e ↦ rw e (omega arith)
      | inr e ↦ rw e (omega arith)
    ]

ecalls-le : (hs : List Trap) → ecalls hs ≤ length hs
ecalls-le [] = omega arith
ecalls-le (t ∷ hs) =
    let r = ecalls-le hs in
    elim (Bool-cases (t.scause == cause_ecall)) [
      | inl e ↦ rw e (omega arith)
      | inr e ↦ rw e (omega arith)
    ]

faults-le : (hs : List Trap) → faults hs ≤ length hs
faults-le [] = omega arith
faults-le (t ∷ hs) =
    let r = faults-le hs in
    elim (Bool-cases (t.scause == cause_timer)) [
      | inl e ↦ rw e (omega arith)
      | inr e ↦ elim (Bool-cases (t.scause == cause_ecall)) [
        | inl f ↦ rw (e, f) (omega arith)
        | inr f ↦ rw (e, f) (omega arith)
      ]
    ]

ring_record-IsRecorded :
    (t : Trap) (hs : List Trap) (s : TrapState)
    → length hs < 2 ^ 64 - 1
    → IsRecorded hs s
    → IsRecorded (t ∷ hs) (ring_record t s)
unfolding ring_record record_notable
ring_record-IsRecorded t hs s l h = elim (Bool-cases (t.scause == cause_timer)) [
  | inl e ↦ rw e (record {
    ring = ring;
    count = bump_lem s.ring_count (length hs) h.count l;
    notable = rw e h.notable;
    notable_count = rw e h.notable_count;
    ecall = let n : (t.scause == cause_ecall) ≡ false = ground arith in rw n h.ecall;
    fault = rw e h.fault;
  })
  | inr e ↦ rw e (record {
    ring = ring;
    count = bump_lem s.ring_count (length hs) h.count l;
    notable = rw e notable;
    notable_count = rw e (
        bump_lem s.notable_count (length (notables hs)) h.notable_count
          (omega (arith, length-notables hs)));
    ecall = elim (Bool-cases (t.scause == cause_ecall)) [
      | inl f ↦ rw f (bump_lem s.ecall_traps (ecalls hs) h.ecall (omega (arith, ecalls-le hs)))
      | inr f ↦ rw f h.ecall
    ];
    fault = elim (Bool-cases (t.scause == cause_ecall)) [
      | inl f ↦ rw (e, f) h.fault
      | inr f ↦ rw (e, f) (bump_lem s.fault_traps (faults hs) h.fault (omega (arith, faults-le hs)))
    ];
  })
]
  where
    ring : IsRecent 8 new_trap (set s.ring (s.ring_count % 8) t) (t ∷ hs)
    ring = rw h.count (IsRecent-set 8 IsRingSize-8 new_trap s.ring hs t h.ring)

    notable : IsRecent 4 new_trap (set s.notable (s.notable_count % 4) t) (t ∷ notables hs)
    notable =
        rw h.notable_count
          (IsRecent-set 4 IsRingSize-4 new_trap s.notable (notables hs) t h.notable)

-- Recording keeps the counters and the rings in step with the traps.
pub recorded-IsRecorded : (hs : List Trap) → length hs < 2 ^ 64 → IsRecorded hs (recorded hs)
recorded-IsRecorded [] l = record {
  ring = IsRecent-[] 8 IsRingSize-8 new_trap _ refl;
  count = refl;
  notable = IsRecent-[] 4 IsRingSize-4 new_trap _ refl;
  notable_count = refl;
  ecall = refl;
  fault = refl;
}
recorded-IsRecorded (t ∷ hs) l =
    ring_record-IsRecorded t hs (recorded hs) (omega arith) (recorded-IsRecorded hs (omega arith))

entries_from-oldest_first :
    (left n : ℕ) (hs : List Trap) (s : TrapState)
    → IsRecent 8 new_trap s.ring hs
    → left ≤ 8
    → n + left ≡ length hs
    → entries_from left n s ≡ oldest_first new_trap left hs
unfolding entries_from
entries_from-oldest_first zero n hs s h l e = refl
entries_from-oldest_first (suc left) n hs s h l e =
    let at : n ≡ length hs - 1 - left = omega arith in
    let head : get_or s.ring (n % 8) new_trap ≡ get_or hs left new_trap =
      ap (λ i. get_or s.ring (i % 8) new_trap) at ∙ h.newest left (omega arith) (omega arith) in
    let rest = entries_from-oldest_first left (n + 1) hs s h (omega arith) (omega arith) in
    rw (head, rest) refl

-- The dump of the ring lists the last eight traps that were recorded, or all of them when there
-- are fewer, oldest first, while fewer than 2^64 have been recorded.
pub ring_entries-recorded :
    (hs : List Trap)
    → length hs < 2 ^ 64
    → ring_entries (recorded hs) ≡ oldest_first new_trap (min 8 (length hs)) hs
unfolding ring_entries
ring_entries-recorded hs l =
    let h = recorded-IsRecorded hs l in
    let left : (recorded hs).ring_count - ((recorded hs).ring_count - 8) ≡ min 8 (length hs) =
      omega (arith, h.count) in
    rw left (
      entries_from-oldest_first (min 8 (length hs)) _ hs (recorded hs) h.ring (omega arith)
        (omega (arith, h.count)))

-- The last of the traps but the timer's, newest first.
abbrev pub newest_first : ℕ → ℕ → List Trap → List Trap
newest_first zero k hs = []
newest_first (suc n) k hs = get_or hs k new_trap ∷ newest_first n (k + 1) hs

digest_from-newest_first :
    (left k : ℕ) (ns : List Trap) (s : TrapState)
    → IsRecent 4 new_trap s.notable ns
    → s.notable_count ≡ length ns
    → k + left ≤ 4
    → k + left ≤ length ns
    → digest_from left k s ≡ newest_first left k ns
unfolding digest_from
digest_from-newest_first zero k ns s h c l m = refl
digest_from-newest_first (suc left) k ns s h c l m =
    let head : get_or s.notable ((s.notable_count - 1 - k) % 4) new_trap ≡ get_or ns k new_trap =
      rw c (h.newest k (omega arith) (omega arith)) in
    let rest = digest_from-newest_first left (k + 1) ns s h c (omega arith) (omega arith) in
    rw (head, rest) refl

-- While fewer than 2^64 traps have been recorded, the digest counts every recorded trap, the ecalls and the faults; its items are the newest traps
-- that are not the timer's, newest first, as many as there are up to the budget and to four; and
-- it reports as elided every recorded trap that is not among them.
pub write_digest-recorded :
    (budget : ℕ) (hs : List Trap)
    → length hs < 2 ^ 64
    → let d = write_digest budget (recorded hs) in
      let shown = min (min (length (notables hs)) budget) 4 in
      d.total ≡ length hs
      × d.ecall ≡ ecalls hs
      × d.fault ≡ faults hs
      × d.items ≡ newest_first shown 0 (notables hs)
      × d.elided + shown ≡ length hs
unfolding write_digest
write_digest-recorded budget hs l =
    let h = recorded-IsRecorded hs l in
    let few = length-notables hs in
    rw h.notable_count (
      h.count,
      h.ecall,
      h.fault,
      digest_from-newest_first _ 0 (notables hs) (recorded hs) h.notable h.notable_count
          (omega arith) (omega arith),
      omega (arith, h.count),
    )
