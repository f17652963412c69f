-- ===== src/Frames/Alloc.antt =====
-- What `alloc` and `free` of kernel/src/frames.rs do to the pool.
use kernai.Base.{
  ℕ, zero, suc, ◌+◌, ◌-◌, ◌*◌, ◌/◌, ◌%◌, ◌≤◌, ◌<◌, ◌≡◌, ◌≢◌, ◌⊎◌, inl, inr, refl, ap, subst, true,
  false, not, ◌||◌, ◌&&◌, Option, none, some, arith, ◌==◌, Bool-cases, ==_iff, sym, ◌∙◌,
  if◌then◌else◌,
}
use native.Mathlib.Nat.{add-zero}
use native.Mathlib.Decide.{dec_lt, ℕ_discrete}
use kernai.Hal.{usize_mod, pool_base, pool_end, pool_ptr, phys_zero}
use kernai.Frames.{
  Pool, pool_frames, frame_size, test, set, clear, take_frame, alloc_from, alloc, free_frame, free,
}
use kernai.Frames.Bitmap.{test-set, test-clear}

abbrev pub frame_address : ℕ → ℕ
frame_address f = pool_base + f * frame_size

-- `s'` is `s` with the frame `f`, free before, handed out: the bitmap gains just `f`, its bytes
-- are zero and all others are as they were, the counter is one higher, and the next search begins
-- behind it.
pub record Takes (f : ℕ) (s s' : Pool) : Type 0 where
  pub in_pool : f < pool_frames
  pub was_free : test f s ≡ false
  pub bitmap : (g : ℕ) → test g s' ≡ ((f == g) || test g s)
  pub zeroed : (a : ℕ) → frame_address f ≤ a → a < frame_address f + frame_size → s'.mem a ≡ 0
  pub others :
      (a : ℕ) → (a < frame_address f) ⊎ (frame_address f + frame_size ≤ a) → s'.mem a ≡ s.mem a
  pub counter : s'.allocated ≡ (s.allocated + 1) % usize_mod
  pub hint : s'.next_hint ≡ f + 1

-- A result of `alloc` is the address of a frame of the pool that was free.
abbrev pub Allocates : Pool → Option (ℕ × Pool) → Type 0
Allocates s none = (f : ℕ) → f < pool_frames → test f s ≡ true
Allocates s (some (pa, s')) = (f : ℕ) × (pa ≡ frame_address f) × Takes f s s'

test-allocated : (g : ℕ) (s : Pool) (a : ℕ) → test g (record s { allocated = a }) ≡ test g s
unfolding test
test-allocated g s a = refl

pool_ptr-frame :
    (f : ℕ) → f < pool_frames → pool_ptr (frame_address f) frame_size ≡ some (frame_address f)
unfolding pool_ptr
pool_ptr-frame f h = ground arith

take_frame-Takes :
    (f : ℕ) (s : Pool) → f < pool_frames → test f s ≡ false → Takes f s (take_frame f s).1
unfolding take_frame phys_zero set test
take_frame-Takes f s h free_before = record {
  in_pool = h;
  was_free = free_before;
  bitmap = λ g. test-set f g s;
  zeroed = λ a lo hi. ground (arith, pool_ptr-frame f h);
  others = λ a out. ground (arith, pool_ptr-frame f h);
  counter = refl;
  hint = refl;
}

take_frame-address : (f : ℕ) (s : Pool) → (take_frame f s).0 ≡ frame_address f
unfolding take_frame
take_frame-address f s = refl

-- What the loop has found after its remaining rounds, begun at round `i`.
abbrev Searched : ℕ → ℕ → ℕ → Pool → Option (ℕ × Pool) → Type 0
Searched rounds i start s none =
    (j : ℕ) → j < rounds → test ((start + (i + j)) % pool_frames) s ≡ true
Searched rounds i start s (some (pa, s')) = (f : ℕ) × (pa ≡ frame_address f) × Takes f s s'

taken-suc :
    (rounds i start : ℕ) (s : Pool)
    → test ((start + i) % pool_frames) s ≡ true
    → Searched rounds (i + 1) start s none
    → Searched (suc rounds) i start s none
taken-suc rounds i start s e h zero l = rw (add-zero i) e
taken-suc rounds i start s e h (suc j) l =
    subst (λ k. test ((start + k) % pool_frames) s ≡ true) (omega arith) (h j (omega arith))

Searched-suc :
    (rounds i start : ℕ) (s : Pool) (o : Option (ℕ × Pool))
    → test ((start + i) % pool_frames) s ≡ true
    → Searched rounds (i + 1) start s o
    → Searched (suc rounds) i start s o
Searched-suc rounds i start s none e h = taken-suc rounds i start s e h
Searched-suc rounds i start s (some (pa, s')) e h = h

alloc_from-Searched :
    (rounds i start : ℕ) (s : Pool) → Searched rounds i start s (alloc_from rounds i start s)
unfolding alloc_from
alloc_from-Searched zero i start s = λ j l. absurd (omega arith)
alloc_from-Searched (suc rounds) i start s =
    elim (Bool-cases (test ((start + i) % pool_frames) s)) [
      | inl e ↦
          rw e (Searched-suc rounds i start s _ e (alloc_from-Searched rounds (i + 1) start s))
      | inr e ↦ rw e (
        (start + i) % pool_frames,
        take_frame-address _ s,
        take_frame-Takes ((start + i) % pool_frames) s (omega arith) e,
      )
    ]

Searched-Allocates :
    (start : ℕ) (s : Pool) (o : Option (ℕ × Pool))
    → start < pool_frames
    → Searched pool_frames 0 start s o
    → Allocates s o
Searched-Allocates start s none l h = λ f k.
    subst (λ g. test g s ≡ true) (omega arith)
      (h ((f + pool_frames - start) % pool_frames) (omega arith))
Searched-Allocates start s (some (pa, s')) l h = h

-- `alloc` answers the address of a frame of the pool that was free, with that frame marked, zeroed
-- and counted and the next search beginning behind it; no other frame is marked or freed and no
-- other byte of the RAM changes. It answers none only if every frame is taken.
pub alloc-Allocates : (s : Pool) → Allocates s (alloc s)
unfolding alloc
alloc-Allocates s =
    Searched-Allocates (s.next_hint % pool_frames) s _ (omega arith)
      (alloc_from-Searched pool_frames 0 (s.next_hint % pool_frames) s)

-- `free` of an address that is no frame of the pool changes nothing.
pub free-foreign :
    (pa : ℕ) (s : Pool)
    → (pa < pool_base) ⊎ ((pool_end ≤ pa) ⊎ ((pa - pool_base) % frame_size ≢ 0))
    → free pa s ≡ s
unfolding free
free-foreign pa s (inl h) = ground arith
free-foreign pa s (inr (inl h)) = ground arith
free-foreign pa s (inr (inr h)) = ground arith

-- Every address is one that `free` ignores or the address of a frame of the pool.
pub foreign_or_frame :
    (pa : ℕ)
    → ((pa < pool_base) ⊎ ((pool_end ≤ pa) ⊎ ((pa - pool_base) % frame_size ≢ 0)))
      ⊎ ((f : ℕ) × (pa ≡ frame_address f) × (f < pool_frames))
foreign_or_frame pa = elim (dec_lt pa pool_base) [
  | yes h ↦ inl (inl h)
  | no h ↦ elim (dec_lt pa pool_end) [
    | no k ↦ inl (inr (inl (omega arith)))
    | yes k ↦ elim (ℕ_discrete ((pa - pool_base) % frame_size) 0) [
      | no m ↦ inl (inr (inr m))
      | yes m ↦ inr ((pa - pool_base) / frame_size, omega arith, omega arith)
    ]
  ]
]

free-frame_address :
    (f : ℕ) (s : Pool) → f < pool_frames → free (frame_address f) s ≡ free_frame f s
unfolding free
free-frame_address f s h =
    let e : (frame_address f - pool_base) / frame_size ≡ f = omega arith in
    let z : (frame_address f - pool_base) % frame_size ≡ 0 = omega arith in
    ground (arith, ap (λ g. free_frame g s) e)

-- `s'` is `s` with the frame `f` back in the pool: the bitmap loses just `f`, the RAM is as it
-- was, and the counter is one lower if `f` was taken and the same if it was not.
pub record Frees (f : ℕ) (s s' : Pool) : Type 0 where
  pub bitmap : (g : ℕ) → test g s' ≡ (not (f == g) && test g s)
  pub mem : s'.mem ≡ s.mem
  pub counter :
      s'.allocated ≡ (if test f s then (s.allocated + usize_mod - 1) % usize_mod else s.allocated)

pub keep_free : (f g : ℕ) (s : Pool) → test f s ≡ false → test g s ≡ (not (f == g) && test g s)
keep_free f g s e = elim (Bool-cases (f == g)) [
  | inl same ↦ rw same (subst (λ k. test k s ≡ false) ((==_iff f g).0 same) e)
  | inr other ↦ rw other
]

free_frame-Frees : (f : ℕ) (s : Pool) → Frees f s (free_frame f s)
unfolding free_frame clear
free_frame-Frees f s = elim (Bool-cases (test f s)) [
  | inl e ↦ rw e (record {
    bitmap = λ g. test-allocated g (clear f s) _ ∙ test-clear f g s;
    mem = refl;
    counter = rw e;
  })
  | inr e ↦ rw e (record { bitmap = λ g. keep_free f g s e; mem = refl; counter = rw e })
]

-- `free` of a frame of the pool takes just that frame out of the bitmap, also when it was free.
pub free-Frees : (f : ℕ) (s : Pool) → f < pool_frames → Frees f s (free (frame_address f) s)
free-Frees f s h = rw (free-frame_address f s h) (free_frame-Frees f s)

-- Freeing what `alloc` has just handed out gives back the same set of frames.
pub free-alloc :
    (s : Pool) (pa : ℕ) (s' : Pool) (g : ℕ)
    → alloc s ≡ some (pa, s')
    → test g (free pa s') ≡ test g s
free-alloc s pa s' g e =
    let (f, at, t) = subst (Allocates s) e (alloc-Allocates s) in
    rw (at, (free-Frees f s' t.in_pool).bitmap g, t.bitmap g) (restored f t)
  where
    restored : (f : ℕ) → Takes f s s' → (not (f == g) && ((f == g) || test g s)) ≡ test g s
    restored f t = elim (Bool-cases (f == g)) [
      | inl same ↦ rw same (sym (subst (λ k. test k s ≡ false) ((==_iff f g).0 same) t.was_free))
      | inr other ↦ rw other
    ]
