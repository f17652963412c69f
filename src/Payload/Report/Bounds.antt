-- ===== src/Payload/Report/Bounds.antt =====
-- kernel/src/payload.rs: the process table fits a frame.
use kernai.Base.{
  ℕ, zero, suc, ◌+◌, ◌-◌, ◌^◌, ◌≤◌, ◌<◌, ◌≡◌, refl, inl, inr, Bool-cases, List, [], ◌∷◌, length,
  ltb, ◌==◌, bit_and, arith, get_or, Bool, true, false, ◌&&◌, leb, leb→le, lt→ltb, ◌/◌,
}
use kernai.Text.{bytes_of, joined, comma_separated}
use kernai.Text.Numbers.{digits_before, decimal, signed}
use kernai.Text.Lengths.{
  length-joined, length-decimal, length-comma_separated, IsShort, total-IsShort,
}
use kernai.Payload.Slot.{Slot, State, is_empty, cap_write, cap_yield, cap_spawn, max_proc}
use kernai.Payload.Images.{Image, images, image_at}
use kernai.Payload.Report.{
  cap_name, caps_json, state_name, process_row, process_rows, write_process_table,
}
use kernai.Kernel.{Kernel}

length-caps_json : (caps : ℕ) → length (caps_json caps) ≤ 25
unfolding caps_json cap_name bytes_of joined
length-caps_json caps = elim (Bool-cases (bit_and caps cap_write == 0)) [
  | inl e ↦ elim (Bool-cases (bit_and caps cap_yield == 0)) [
    | inl f ↦ elim (Bool-cases (bit_and caps cap_spawn == 0)) [
      | inl g ↦ rw (e, f, g) (omega arith)
      | inr g ↦ rw (e, f, g) (omega arith)
    ]
    | inr f ↦ elim (Bool-cases (bit_and caps cap_spawn == 0)) [
      | inl g ↦ rw (e, f, g) (omega arith)
      | inr g ↦ rw (e, f, g) (omega arith)
    ]
  ]
  | inr e ↦ elim (Bool-cases (bit_and caps cap_yield == 0)) [
    | inl f ↦ elim (Bool-cases (bit_and caps cap_spawn == 0)) [
      | inl g ↦ rw (e, f, g) (omega arith)
      | inr g ↦ rw (e, f, g) (omega arith)
    ]
    | inr f ↦ elim (Bool-cases (bit_and caps cap_spawn == 0)) [
      | inl g ↦ rw (e, f, g) (omega arith)
      | inr g ↦ rw (e, f, g) (omega arith)
    ]
  ]
]

length-state_name : (s : State) → length (state_name s) ≤ 7
unfolding state_name bytes_of
length-state_name State.empty = omega arith
length-state_name State.pending = omega arith
length-state_name State.running = omega arith
length-state_name State.exited = omega arith
length-state_name State.faulted = omega arith
length-state_name State.killed = omega arith

length-signed : (n : ℕ) → length (signed n) ≤ 21
unfolding signed
length-signed n = elim (Bool-cases (ltb n (2 ^ 63))) [
  | inl e ↦ rw (e, signed) (omega (arith, length-decimal n))
  | inr e ↦ rw (e, signed) (omega (arith, length-decimal (2 ^ 64 - n)))
]

-- Every name has at most 12 bytes.
abbrev Named : List Image → Type 0
Named [] = Unit
Named (i ∷ rest) = (length (bytes_of i.name) ≤ 12) × Named rest

get_or-Named :
    (l : List Image) (i : ℕ) (d : Image)
    → length (bytes_of d.name) ≤ 12
    → Named l
    → length (bytes_of (get_or l i d).name) ≤ 12
get_or-Named [] i d h n = h
get_or-Named (x ∷ l) zero d h (n, m) = n
get_or-Named (x ∷ l) (suc i) d h (n, m) = get_or-Named l i d h m

short : {n : ℕ} → leb n 12 ≡ true → n ≤ 12
short {n} h = leb→le n 12 h

images-Named : Named images
unfolding bytes_of
images-Named = all_short images refl
  where
    are_short : List Image → Bool
    are_short [] = true
    are_short (x ∷ l) = leb (length (bytes_of x.name)) 12 && are_short l

    all_short : (l : List Image) → are_short l ≡ true → Named l
    all_short [] h = tt
    all_short (x ∷ l) h = elim (Bool-cases (leb (length (bytes_of x.name)) 12)) [
      | inl e ↦ (leb→le _ _ e, all_short l (rw (e, are_short) at h))
      | inr e ↦ absurd (let c : false ≡ true = rw (e, are_short) at h in cc c)
    ]

length-image_name : (i : ℕ) → length (bytes_of (image_at i).name) ≤ 12
unfolding image_at bytes_of
length-image_name i = get_or-Named images i _ (short refl) images-Named

length-decimal_small : (n : ℕ) → n < 100 → length (decimal n) ≤ 2
unfolding decimal digits_before
length-decimal_small n h = elim (Bool-cases (ltb n 10)) [
  | inl e ↦ rw (e, decimal) (omega arith)
  | inr e ↦ rw (e, decimal, lt→ltb (n / 10) 10 (omega arith)) (omega arith)
]

length-process_row : (pid : ℕ) (s : Slot) → pid < 100 → length (process_row pid s) ≤ 117
unfolding process_row bytes_of
length-process_row pid s h = omega (
  arith,
  length-joined (
      bytes_of "{\"pid\":"
      ∷ decimal pid
      ∷ bytes_of ",\"name\":\""
      ∷ bytes_of (image_at s.image).name
      ∷ bytes_of "\",\"state\":\""
      ∷ state_name s.state
      ∷ bytes_of "\",\"exit_code\":"
      ∷ signed s.exit_code
      ∷ bytes_of ",\"caps\":"
      ∷ caps_json s.caps
      ∷ bytes_of "}"
      ∷ []),
  length-decimal_small pid h,
  length-image_name s.image,
  length-state_name s.state,
  length-signed s.exit_code,
  length-caps_json s.caps,
)

process_rows-IsShort :
    (pid : ℕ) (t : List Slot)
    → pid + length t ≤ 100
    → IsShort 117 (process_rows pid t) × (length (process_rows pid t) ≤ length t)
unfolding process_rows
process_rows-IsShort pid [] h = (tt, omega arith)
process_rows-IsShort pid (s ∷ t) h = next (process_rows-IsShort (pid + 1) t (omega arith))
  where
    next :
        IsShort 117 (process_rows (pid + 1) t) × (length (process_rows (pid + 1) t) ≤ length t)
        → IsShort 117 (process_rows pid (s ∷ t))
          × (length (process_rows pid (s ∷ t)) ≤ suc (length t))
    next (sh, n) = elim (Bool-cases (is_empty s.state)) [
      | inl e ↦ rw (e, process_rows) (sh, omega arith)
      | inr e ↦ rw (e, process_rows) ((length-process_row pid s (omega arith), sh), omega arith)
    ]

-- The process table of at most twelve slots, whatever they hold, makes a text of at most 1440
-- bytes, which leaves a frame of 2048 room for its envelope.
pub length-write_process_table :
    (k : Kernel) → length k.table ≤ max_proc → length (write_process_table k) ≤ 1440
unfolding write_process_table bytes_of
length-write_process_table k h =
    let (sh, n) = process_rows-IsShort 0 k.table (omega arith) in
    omega (
      arith,
      length-joined (
          bytes_of "{\"processes\":["
          ∷ comma_separated (process_rows 0 k.table)
          ∷ bytes_of "]}"
          ∷ []),
      length-comma_separated (process_rows 0 k.table),
      total-IsShort 117 (process_rows 0 k.table) sh,
      n,
      h,
    )
