-- ===== src/Hart/Stores.antt =====
-- Words stored in a trap frame of kernel/src/hal/trap.rs and read back.
use kernai.Base.{
  ℕ, zero, suc, ◌+◌, ◌*◌, ◌%◌, ◌^◌, ◌≤◌, ◌<◌, ◌≡◌, ◌⊎◌, ◌∙◌, refl, sym, ap, subst, List, [], ◌∷◌,
  length, ◌==◌, ==_iff, if◌then◌else◌, arith, Bool-cases, inl, inr,
}
use kernai.Hal.{Mem, word_at, usize_mod}
use kernai.Hal.Memory.{word_at-overlay, word_at-overlay_ne}
use kernai.Traps.Frame.{TrapFrame}
use kernai.Hart.{add64}
use kernai.Hart.Vector.{put_word, regs_at, frame_at, put_regs, put_frame}

-- A word's place in a frame.
abbrev pub IsField : ℕ → Type 0
IsField off = (off % 8 ≡ 0) × (off + 8 ≤ 264)

-- A frame does not run over the end of the address space.
abbrev pub Fits : ℕ → Type 0
Fits fp = fp + 272 ≤ usize_mod

-- The places and words that are stored one after the other.
abbrev pub Stores : Type 0
Stores = List (ℕ × ℕ)

abbrev pub AreFields : Stores → Type 0
AreFields [] = Unit
AreFields ((off, v) ∷ l) = (IsField off × (v < 2 ^ 64)) × AreFields l

abbrev pub stored : ℕ → Stores → Mem → Mem
stored fp [] m = m
stored fp ((off, v) ∷ l) m = stored fp l (put_word (add64 fp off) v m)

-- The word that the last of the stores left at a place, or what was there.
abbrev pub found : ℕ → Stores → ℕ → ℕ
found off [] old = old
found off ((o, v) ∷ l) old = found off l (if o == off then v else old)

word_at-put_word :
    (fp o off v : ℕ) (m : Mem)
    → Fits fp
    → IsField o
    → IsField off
    → v < 2 ^ 64
    → word_at (put_word (add64 fp o) v m) (add64 fp off)
      ≡ (if o == off then v else word_at m (add64 fp off))
word_at-put_word fp o off v m fits f g b = elim (Bool-cases (o == off)) [
  | inl e ↦ rw e (
      ap (λ a. word_at (put_word (add64 fp o) v m) (add64 fp a)) (sym ((==_iff o off).0 e))
      ∙ word_at-overlay (add64 fp o) v m b)
  | inr e ↦ rw e (word_at-overlay_ne (add64 fp o) (add64 fp off) v m (ground arith))
]

pub word_at-stored :
    (fp off : ℕ) (l : Stores) (m : Mem)
    → Fits fp
    → IsField off
    → AreFields l
    → word_at (stored fp l m) (add64 fp off) ≡ found off l (word_at m (add64 fp off))
word_at-stored fp off [] m fits f a = refl
word_at-stored fp off ((o, v) ∷ l) m fits f ((g, b), a) =
    word_at-stored fp off l (put_word (add64 fp o) v m) fits f a
    ∙ ap (found off l) (word_at-put_word fp o off v m fits g f b)

-- The n words from x_(i + 1) on that the stores leave.
abbrev pub regs_found : ℕ → Stores → Mem → ℕ → ℕ → List ℕ
regs_found fp l m i zero = []
regs_found fp l m i (suc n) =
    found (i * 8) l (word_at m (add64 fp (i * 8))) ∷ regs_found fp l m (i + 1) n

regs_at-stored :
    (fp i n : ℕ) (l : Stores) (m : Mem)
    → Fits fp
    → AreFields l
    → i + n ≤ 31
    → regs_at (stored fp l m) fp i n ≡ regs_found fp l m i n
unfolding regs_at
regs_at-stored fp i zero l m fits a h = refl
regs_at-stored fp i (suc n) l m fits a h = rw (
  word_at-stored fp (i * 8) l m fits (omega arith) a,
  regs_at-stored fp (i + 1) n l m fits a (omega arith),
)

-- The frame that a run of stores leaves.
pub frame_at-stored :
    (fp : ℕ) (l : Stores) (m : Mem)
    → Fits fp
    → AreFields l
    → frame_at (stored fp l m) fp ≡ record {
      regs = regs_found fp l m 0 31;
      sepc = found 248 l (word_at m (add64 fp 248));
      sstatus = found 256 l (word_at m (add64 fp 256));
    }
unfolding frame_at
frame_at-stored fp l m fits a = rw (
  regs_at-stored fp 0 31 l m fits a (omega arith),
  word_at-stored fp 248 l m fits (omega arith) a,
  word_at-stored fp 256 l m fits (omega arith) a,
)

abbrev pub AreWords : List ℕ → Type 0
AreWords [] = Unit
AreWords (v ∷ vs) = (v < 2 ^ 64) × AreWords vs

-- A word stored behind or before the registers leaves them alone.
pub regs_at-put_word :
    (fp o v i n : ℕ) (m : Mem)
    → Fits fp
    → IsField o
    → i + n ≤ 31
    → ((i + n) * 8 ≤ o) ⊎ (o + 8 ≤ i * 8)
    → regs_at (put_word (add64 fp o) v m) fp i n ≡ regs_at m fp i n
unfolding regs_at
regs_at-put_word fp o v i zero m fits f l h = refl
regs_at-put_word fp o v i (suc n) m fits f l h = rw (
  word_at-overlay_ne (add64 fp o) (add64 fp (i * 8)) v m (ground arith),
  regs_at-put_word fp o v (i + 1) n m fits f (omega arith) (ground arith),
)

pub word_at-put_regs :
    (fp i off : ℕ) (rs : List ℕ) (m : Mem)
    → Fits fp
    → i + length rs ≤ 31
    → (off + 8 ≤ i * 8) ⊎ ((248 ≤ off) × (off + 8 ≤ 264))
    → word_at (put_regs fp i rs m) (add64 fp off) ≡ word_at m (add64 fp off)
unfolding put_regs
word_at-put_regs fp i off [] m fits l h = refl
word_at-put_regs fp i off (r ∷ rs) m fits l h =
    word_at-put_regs fp (i + 1) off rs (put_word (add64 fp (i * 8)) r m) fits (omega arith)
      (ground arith)
    ∙ word_at-overlay_ne (add64 fp (i * 8)) (add64 fp off) r m (ground arith)

pub regs_at-put_regs :
    (fp i : ℕ) (rs : List ℕ) (m : Mem)
    → Fits fp
    → AreWords rs
    → i + length rs ≤ 31
    → regs_at (put_regs fp i rs m) fp i (length rs) ≡ rs
unfolding regs_at put_regs
regs_at-put_regs fp i [] m fits b l = refl
regs_at-put_regs fp i (r ∷ rs) m fits (b, bs) l = rw (
  word_at-put_regs fp (i + 1) (i * 8) rs (put_word (add64 fp (i * 8)) r m) fits (omega arith)
      (inl (omega arith)),
  word_at-overlay (add64 fp (i * 8)) r m b,
  regs_at-put_regs fp (i + 1) rs (put_word (add64 fp (i * 8)) r m) fits bs (omega arith),
)

-- The two CSRs stored behind the registers.
pub frame_at-put_csrs :
    (fp sepc sstatus : ℕ) (m : Mem)
    → Fits fp
    → sepc < 2 ^ 64
    → sstatus < 2 ^ 64
    → frame_at (put_word (add64 fp 256) sstatus (put_word (add64 fp 248) sepc m)) fp
      ≡ record { regs = regs_at m fp 0 31; sepc = sepc; sstatus = sstatus }
unfolding frame_at
frame_at-put_csrs fp sepc sstatus m fits a b =
    let m1 = put_word (add64 fp 248) sepc m in
    rw (
      regs_at-put_word fp 256 sstatus 0 31 m1 fits (omega arith) (omega arith) (inl (omega arith)),
      regs_at-put_word fp 248 sepc 0 31 m fits (omega arith) (omega arith) (inl (omega arith)),
      word_at-overlay (add64 fp 256) sstatus m1 b,
      word_at-overlay_ne (add64 fp 256) (add64 fp 248) sstatus m1 (ground arith),
      word_at-overlay (add64 fp 248) sepc m a,
    )

-- A frame laid over the RAM is the frame that is read there.
pub frame_at-put_frame :
    (fp : ℕ) (f : TrapFrame) (m : Mem)
    → Fits fp
    → length f.regs ≡ 31
    → AreWords f.regs
    → f.sepc < 2 ^ 64
    → f.sstatus < 2 ^ 64
    → frame_at (put_frame fp f m) fp ≡ f
unfolding put_frame
frame_at-put_frame fp f m fits l rs a b =
    frame_at-put_csrs fp f.sepc f.sstatus (put_regs fp 0 f.regs m) fits a b
    ∙ ap (λ r. record f { regs = r })
        (subst (λ n. regs_at (put_regs fp 0 f.regs m) fp 0 n ≡ f.regs) l
          (regs_at-put_regs fp 0 f.regs m fits rs (omega arith)))
