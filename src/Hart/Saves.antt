-- ===== src/Hart/Saves.antt =====
-- What the trap vector of kernel/src/hal/trap.rs saves in the frame.
use kernai.Base.{
  ℕ, zero, suc, ◌+◌, ◌-◌, ◌^◌, ◌≤◌, ◌<◌, ◌≡◌, ◌∙◌, refl, ap, List, [], ◌∷◌, ◌==◌, if◌then◌else◌,
  arith, true, false, bit_and, ◌++◌,
}
use kernai.Hal.{Mem, usize_mod}
use kernai.Traps.Frame.{TrapFrame, is_from_user}
use kernai.Hart.{Hart, add64, get_x, sp, exec}
use kernai.Hart.Vector.{frame_at, vector_entry, frame_bytes, swap_stack, save_registers, classify}
use kernai.Hart.Stores.{Fits, IsField, Stores, AreFields, stored, frame_at-stored}

abbrev regs_from : ℕ → ℕ → Hart → List ℕ
regs_from i zero h = []
regs_from i (suc n) h = get_x i h ∷ regs_from (i + 1) n h

-- x1 to x31.
abbrev pub registers : Hart → List ℕ
registers h = regs_from 1 31 h

-- The context that a trap interrupts, at the first instruction of the vector.
abbrev pub interrupted : Hart → TrapFrame
interrupted h = record { regs = registers h; sepc = h.sepc; sstatus = h.sstatus }

-- Registers and CSRs have 64 bits.
pub record IsHart (h : Hart) : Type 0 where
  pub regs : (n : ℕ) → h.regs n < 2 ^ 64
  pub sepc : h.sepc < 2 ^ 64
  pub sstatus : h.sstatus < 2 ^ 64
  pub sscratch : h.sscratch < 2 ^ 64

-- Where the vector puts the frame: below the stack that it finds itself on.
abbrev pub frame_of_sp : ℕ → ℕ
frame_of_sp s = add64 s (usize_mod - frame_bytes)

-- The places of the registers but sp, in the order in which they are stored.
abbrev places : List (ℕ × ℕ)
places =
    (0, 1)
    ∷ (16, 3)
    ∷ (24, 4)
    ∷ (32, 5)
    ∷ (40, 6)
    ∷ (48, 7)
    ∷ (56, 8)
    ∷ (64, 9)
    ∷ (72, 10)
    ∷ (80, 11)
    ∷ (88, 12)
    ∷ (96, 13)
    ∷ (104, 14)
    ∷ (112, 15)
    ∷ (120, 16)
    ∷ (128, 17)
    ∷ (136, 18)
    ∷ (144, 19)
    ∷ (152, 20)
    ∷ (160, 21)
    ∷ (168, 22)
    ∷ (176, 23)
    ∷ (184, 24)
    ∷ (192, 25)
    ∷ (200, 26)
    ∷ (208, 27)
    ∷ (216, 28)
    ∷ (224, 29)
    ∷ (232, 30)
    ∷ (240, 31)
    ∷ []

abbrev stores_of : List (ℕ × ℕ) → Hart → Stores
stores_of [] h = []
stores_of ((off, n) ∷ ps) h = (off, h.regs n) ∷ stores_of ps h

-- What the entry stores.
abbrev saved : ℕ → Hart → Stores
saved sp_word h = stores_of places h ++ ((256, h.sstatus) ∷ (248, h.sepc) ∷ (8, sp_word) ∷ [])

-- On the stack of the trap, with the interrupted sp in sscratch.
abbrev swapped : Hart → Hart
swapped h = record h { regs = λ n. if n == 2 then h.sscratch else h.regs n; sscratch = h.regs 2 }

swap_from_user : (h : Hart) → (h.sscratch == 0) ≡ false → exec 0 swap_stack h ≡ swapped h
unfolding exec
swap_from_user h e = rw (e, exec) refl

abbrev kept : Hart → Hart
kept h = record h {
  regs = λ n. if n == 2 then h.regs 2 else if n == 2 then h.sscratch else h.regs n;
}

-- From S-mode the second exchange undoes the first.
swap_from_kernel :
    (h : Hart)
    → (h.sscratch == 0) ≡ true
    → exec 0 swap_stack h ≡ record h {
      regs = λ n. if n == 2 then h.regs 2 else if n == 2 then h.sscratch else h.regs n;
    }
unfolding exec
swap_from_kernel h e = rw (e, exec) refl

-- The registers but sp are stored in the frame below sp.
pushed : Hart → Hart
pushed h = record h {
  regs = λ n. if n == 2 then frame_of_sp (h.regs 2) else h.regs n;
  mem = stored (frame_of_sp (h.regs 2)) (stores_of places h) h.mem;
}

exec-save_registers : (h : Hart) → exec 0 save_registers h ≡ pushed h
unfolding exec pushed
exec-save_registers h = refl

-- t0, t1, t2 hold sstatus, the interrupted sp and sepc.
classified : ℕ → Hart → Hart
classified sp_word h = record h {
  regs = λ n.
      if n == 6
      then sp_word
      else if n == 6
      then bit_and h.sstatus 256
      else if n == 7
      then h.sepc
      else if n == 5
      then h.sstatus
      else h.regs n;
  mem = stored (h.regs 2) ((256, h.sstatus) ∷ (248, h.sepc) ∷ []) h.mem;
}

classify_user :
    (h : Hart) → (bit_and h.sstatus 256 == 0) ≡ true → exec 0 classify h ≡ classified h.sscratch h
unfolding exec classified
classify_user h e = rw (e, exec) refl

classify_kernel :
    (h : Hart)
    → (bit_and h.sstatus 256 == 0) ≡ false
    → exec 0 classify h ≡ classified (add64 (h.regs 2) frame_bytes) h
unfolding exec classified
classify_kernel h e = rw (e, exec) refl

-- The entry has left the context in a frame and passes the frame to the handler.
pub record Saved (fp : ℕ) (h h' : Hart) : Type 0 where
  pub frame : frame_at h'.mem fp ≡ interrupted h
  pub a0 : h'.regs 10 ≡ fp
  pub stack : h'.regs sp ≡ fp

abbrev ArePlaces : List (ℕ × ℕ) → Type 0
ArePlaces [] = Unit
ArePlaces ((off, n) ∷ ps) = IsField off × ArePlaces ps

stores_of-AreFields :
    (ps : List (ℕ × ℕ)) (h : Hart) (l : Stores)
    → IsHart h
    → ArePlaces ps
    → AreFields l
    → AreFields (stores_of ps h ++ l)
stores_of-AreFields [] h l b p a = a
stores_of-AreFields ((off, n) ∷ ps) h l b (f, p) a =
    ((f, b.regs n), stores_of-AreFields ps h l b p a)

saved-AreFields : (s : ℕ) (h : Hart) → IsHart h → s < 2 ^ 64 → AreFields (saved s h)
saved-AreFields s h b l =
    stores_of-AreFields places h ((256, h.sstatus) ∷ (248, h.sepc) ∷ (8, s) ∷ []) b (omega arith)
      (omega (arith, l, b.sepc, b.sstatus))

frame_saved :
    (s : ℕ) (h : Hart) (m : Mem) (fp : ℕ)
    → IsHart h
    → Fits fp
    → s ≡ h.regs sp
    → frame_at (stored fp (saved s h) m) fp ≡ interrupted h
frame_saved s h m fp b fits e =
    rw e (
      frame_at-stored fp (saved (h.regs sp) h) m fits (saved-AreFields (h.regs sp) h b (b.regs sp)))

-- From the block behind label 1 on, for the hart `h` that was interrupted and the stack `s` found.
entered :
    (s sp_word : ℕ) (h : Hart)
    → IsHart h
    → 272 ≤ s
    → s < 2 ^ 64
    → sp_word ≡ h.regs sp
    → (h1 : Hart) → h1.mem ≡ stored (frame_of_sp s) (saved sp_word h) h.mem
    → h1.regs 10 ≡ frame_of_sp s
    → h1.regs sp ≡ frame_of_sp s
    → Saved (frame_of_sp s) h h1
entered s sp_word h b lo hi e h1 m a t = record {
  frame =
      ap (λ n. frame_at n (frame_of_sp s)) m
      ∙ frame_saved sp_word h h.mem (frame_of_sp s) b (omega arith) e;
  a0 = a;
  stack = t;
}

add64-zero : (a b : ℕ) → add64 (add64 a b) 0 ≡ add64 a b
add64-zero a b = omega arith

pub vector_entry_user :
    (h : Hart)
    → IsHart h
    → is_from_user (interrupted h) ≡ true
    → 272 ≤ h.sscratch
    → Saved (frame_of_sp h.sscratch) h (vector_entry h)
unfolding vector_entry exec pushed classified is_from_user
vector_entry_user h b u l =
    rw
      (
        swap_from_user h (ground arith),
        exec-save_registers (swapped h),
        classify_user (pushed (swapped h)) u,
      )
      (entered h.sscratch (h.regs sp) h b l b.sscratch refl _ refl (add64-zero _ _) refl)

sp_back : (s : ℕ) → s < 2 ^ 64 → add64 (frame_of_sp s) frame_bytes ≡ s
sp_back s h = omega arith

pub vector_entry_kernel :
    (h : Hart)
    → IsHart h
    → is_from_user (interrupted h) ≡ false
    → h.sscratch ≡ 0
    → 272 ≤ h.regs sp
    → Saved (frame_of_sp (h.regs sp)) h (vector_entry h)
unfolding vector_entry exec pushed classified is_from_user
vector_entry_kernel h b u z l =
    rw
      (
        swap_from_kernel h (ground arith),
        exec-save_registers (kept h),
        classify_kernel (pushed (kept h)) u,
      )
      (entered (h.regs sp) (add64 (frame_of_sp (h.regs sp)) frame_bytes) h b l (b.regs sp)
        (sp_back (h.regs sp) (b.regs sp)) _ refl (add64-zero _ _) refl)
