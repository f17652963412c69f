-- ===== src/Mm/Copy.antt =====
-- `copy_from_user` of kernel/src/mm.rs reads, byte by byte, what the payload itself could read.
pub mod Total
use kernai.Base.{
  ℕ, zero, suc, ◌+◌, ◌-◌, ◌%◌, ◌≤◌, ◌<◌, ◌≡◌, ◌≢◌, ◌∙◌, refl, sym, ap, subst, Option, none, some,
  List, [], ◌++◌, length, length-append, get_or, get_or-append_left, get_or-append_right, arith,
  Option-cases, inl, inr, min,
}
use native.Mathlib.Decide.{dec_lt}
use kernai.Hal.{Mem, pool_base, pool_end, usize_mod, phys_read, pool_ptr, bytes_at}
use kernai.Frames.{Pool}
use kernai.Mm.{
  AddressSpace, vpn, page_offset, translate_checked, page_size, user_read, copy_loop,
  copy_from_user,
}

length-bytes_at : (m : Mem) (pa n : ℕ) → length (bytes_at m pa n) ≡ n
unfolding bytes_at
length-bytes_at m pa zero = refl
length-bytes_at m pa (suc n) = ap suc (length-bytes_at m (pa + 1) n)

get_or-bytes_at : (m : Mem) (pa n i : ℕ) → i < n → get_or (bytes_at m pa n) i 0 ≡ m (pa + i)
unfolding bytes_at
get_or-bytes_at m pa zero i h = absurd (omega arith)
get_or-bytes_at m pa (suc n) zero h = ap m (omega arith)
get_or-bytes_at m pa (suc n) (suc i) h =
    get_or-bytes_at m (pa + 1) n i (omega arith) ∙ ap m (omega arith)

phys_read-some :
    (pa n : ℕ) (m : Mem) (bytes : List ℕ) → phys_read pa n m ≡ some bytes → bytes ≡ bytes_at m pa n
unfolding phys_read pool_ptr
phys_read-some pa n m bytes h = ground arith

pub phys_read-in_pool :
    (pa n : ℕ) (m : Mem)
    → pool_base ≤ pa
    → pa + n ≤ pool_end
    → phys_read pa n m ≡ some (bytes_at m pa n)
unfolding phys_read pool_ptr
phys_read-in_pool pa n m lo hi = ground arith

abbrev pub shift : ℕ → Option ℕ → Option ℕ
shift j none = none
shift j (some pa) = some (pa + j)

vpn_same_page :
    (cur j : ℕ)
    → cur % page_size + j < page_size
    → (vpn (cur + j) 0 ≡ vpn cur 0) × (vpn (cur + j) 1 ≡ vpn cur 1) × (vpn (cur + j) 2 ≡ vpn cur 2)
unfolding vpn
vpn_same_page cur j h = omega arith

offset_same_page :
    (cur j : ℕ)
    → cur % page_size + j < page_size
    → (page_offset (cur + j) 0 ≡ page_offset cur 0 + j)
      × (page_offset (cur + j) 1 ≡ page_offset cur 1 + j)
      × (page_offset (cur + j) 2 ≡ page_offset cur 2 + j)
offset_same_page cur j h = omega arith

-- Inside one page translation commutes with adding an offset.
pub translate_checked-same_page :
    (root cur j need : ℕ) (s : Pool)
    → cur % page_size + j < page_size
    → translate_checked root (cur + j) need s ≡ shift j (translate_checked root cur need s)
unfolding translate_checked
translate_checked-same_page root cur j need s h =
    let (v0, v1, v2) = vpn_same_page cur j h in
    let (o0, o1, o2) = offset_same_page cur j h in rw (v0, v1, v2, o0, o1, o2) (ground arith)

-- The payload may read address `a` itself, and finds `b` there.
abbrev pub Reads : AddressSpace → Pool → ℕ → ℕ → Type 0
Reads root s a b = (pa : ℕ) × (translate_checked root a user_read s ≡ some pa) × (b ≡ s.mem pa)

-- The bytes that are copied from `cur` on.
pub record Copied (root : AddressSpace) (s : Pool) (cur len : ℕ) (bs : List ℕ) : Type 0 where
  pub size : length bs ≡ len
  pub each : (i : ℕ) → i < len → Reads root s ((cur + i) % usize_mod) (get_or bs i 0)

-- One chunk, up to the end of its page.
chunk-Copied :
    (root cur n pa : ℕ) (s : Pool) (bytes : List ℕ)
    → cur < usize_mod
    → cur % page_size + n ≤ page_size
    → translate_checked root cur user_read s ≡ some pa
    → phys_read pa n s.mem ≡ some bytes
    → Copied root s cur n bytes
chunk-Copied root cur n pa s bytes w fits t r = record {
  size = rw (phys_read-some pa n s.mem bytes r) (length-bytes_at s.mem pa n);
  each = λ i l. (
    pa + i,
    rw (no_wrap i l, translate_checked-same_page root cur i user_read s (omega arith), t) refl,
    rw (phys_read-some pa n s.mem bytes r) (get_or-bytes_at s.mem pa n i l),
  );
}
  where
    no_wrap : (i : ℕ) → i < n → (cur + i) % usize_mod ≡ cur + i
    no_wrap i l = omega arith

Copied-append :
    (root cur n len : ℕ) (s : Pool) (bytes more : List ℕ)
    → Copied root s cur n bytes
    → Copied root s ((cur + n) % usize_mod) len more
    → Copied root s cur (n + len) (bytes ++ more)
Copied-append root cur n len s bytes more c d = record {
  size = omega (arith, length-append bytes more, c.size, d.size);
  each = λ i l. elim (dec_lt i n) [
    | yes h ↦ rw (get_or-append_left bytes more i 0 (omega (arith, c.size))) (c.each i h)
    | no h ↦
        subst (λ k. Reads root s k (get_or (bytes ++ more) i 0)) (place i h)
          (rw (byte i h) (d.each (i - n) (omega arith)))
  ];
}
  where
    place :
        (i : ℕ) → ¬ (i < n) → ((cur + n) % usize_mod + (i - n)) % usize_mod ≡ (cur + i) % usize_mod
    place i h = omega arith

    byte : (i : ℕ) → ¬ (i < n) → get_or (bytes ++ more) i 0 ≡ get_or more (i - n) 0
    byte i h =
        ap (λ k. get_or (bytes ++ more) k 0) (omega (arith, c.size))
        ∙ get_or-append_right bytes more (i - n) 0

abbrev pub chunk : ℕ → ℕ → ℕ
chunk cur left = min (page_size - cur % page_size) left

-- A round that answers has read a chunk, and so have the rounds after it.
copy_loop_step :
    (fuel root cur left : ℕ) (s : Pool) (bs : List ℕ)
    → left ≢ 0
    → copy_loop (suc fuel) root cur left s ≡ some bs
    → (pa : ℕ) × (bytes : List ℕ) × (more : List ℕ) × (translate_checked root cur user_read s
        ≡ some pa)
      × (phys_read pa (chunk cur left) s.mem ≡ some bytes)
      × (copy_loop fuel root ((cur + chunk cur left) % usize_mod) (left - chunk cur left) s
          ≡ some more)
      × (bs ≡ bytes ++ more)
unfolding copy_loop
copy_loop_step fuel root cur left s bs ne h =
    elim (Option-cases (translate_checked root cur user_read s)) [
      | inl e ↦ absurd (ground arith)
      | inr (pa, e) ↦ elim (Option-cases (phys_read pa (chunk cur left) s.mem)) [
        | inl r ↦ absurd (ground arith)
        | inr (bytes, r) ↦
            elim (Option-cases (
              copy_loop fuel root ((cur + chunk cur left) % usize_mod) (left - chunk cur left) s)) [
                | inl m ↦ absurd (ground arith)
                | inr (more, m) ↦ (pa, bytes, more, e, r, m, ground arith)
              ]
      ]
    ]

nothing-Copied : (root cur : ℕ) (s : Pool) → Copied root s cur 0 []
nothing-Copied root cur s = record { size = refl; each = λ i l. absurd (omega arith) }

copy_loop_end :
    (fuel root cur left : ℕ) (s : Pool) (bs : List ℕ)
    → left ≡ 0
    → copy_loop fuel root cur left s ≡ some bs
    → bs ≡ []
unfolding copy_loop
copy_loop_end zero root cur left s bs e h = ground arith
copy_loop_end (suc fuel) root cur left s bs e h = ground arith

copy_loop_fuel :
    (root cur left : ℕ) (s : Pool) (bs : List ℕ)
    → left ≢ 0
    → copy_loop 0 root cur left s ≡ some bs
    → ⊥
unfolding copy_loop
copy_loop_fuel root cur left s bs e h = ground arith

copy_loop-Copied :
    (fuel root cur left : ℕ) (s : Pool) (bs : List ℕ)
    → cur < usize_mod
    → copy_loop fuel root cur left s ≡ some bs
    → Copied root s cur left bs
copy_loop-Copied fuel root cur zero s bs w h =
    rw (copy_loop_end fuel root cur 0 s bs refl h) (nothing-Copied root cur s)
copy_loop-Copied zero root cur (suc left) s bs w h =
    absurd (copy_loop_fuel root cur (suc left) s bs (omega arith) h)
copy_loop-Copied (suc fuel) root cur (suc left) s bs w h =
    let (pa, bytes, more, t, r, m, e) =
      copy_loop_step fuel root cur (suc left) s bs (omega arith) h in
    let n : ℕ = chunk cur (suc left) in
    let len : n + (suc left - n) ≡ suc left = omega arith in
    rw e (
      subst (λ k. Copied root s cur k (bytes ++ more)) len
        (Copied-append root cur n (suc left - n) s bytes more
          (chunk-Copied root cur n pa s bytes w (omega arith) t r)
          (copy_loop-Copied fuel root ((cur + n) % usize_mod) (suc left - n) s more (omega arith)
            m)))

-- What `copy_from_user` puts in the buffer: as many bytes as asked for, each the one that the
-- payload itself may read at its address.
pub copy_from_user-Copied :
    (root va len : ℕ) (s : Pool) (bs : List ℕ)
    → va < usize_mod
    → copy_from_user root va len s ≡ some bs
    → Copied root s va len bs
unfolding copy_from_user
copy_from_user-Copied root va len s bs w h = copy_loop-Copied len root va len s bs w (
    subst (λ c. copy_loop len root c len s ≡ some bs)
      (let e : va % usize_mod ≡ va = omega arith in e) h)
