-- ===== src/Elf/Segments.antt =====
-- The segments of kernel/src/elf.rs: the loop over pages ends, and no loaded image has a segment
-- that is both writable and executable.
use kernai.Base.{
  ℕ, zero, suc, ◌+◌, ◌-◌, ◌*◌, ◌/◌, ◌%◌, ◌≡◌, ◌≤◌, ◌<◌, refl, subst, ap, ◌∙◌, sym, Bool, true,
  false, ◌&&◌, Option, none, some, ltb, ◌==◌, arith, bit_or, Shows, bind-Shows, if◌then◌else◌, ok,
  pure, ◌>>◌,
}
use kernai.Frames.{Pool}
use kernai.Mm.{AddressSpace, page_size, has, user_bit, read_bit, write_bit, execute_bit}
use kernai.Elf.{
  ElfError, Image, u16_at, u32_at, u64_at, ok_or, refuse_if, pt_load, segment_perms, load_page,
  load_pages, pages_of, load_segment, load_header, load_headers, load,
}

-- Past the last page, rounds to spare change nothing.
load_pages-spare :
    (pages extra : ℕ) (image : Image) (space : AddressSpace)
    (vaddr offset file_end seg_end perms page : ℕ)
    → seg_end ≤ page + pages * 4096
    → load_pages (suc pages + extra) image space vaddr offset file_end seg_end perms page
      ≡ load_pages (suc pages) image space vaddr offset file_end seg_end perms page
unfolding load_pages
load_pages-spare zero extra image space vaddr offset file_end seg_end perms page l =
    let past : ltb page seg_end ≡ false = ground arith in
    let n : suc zero + extra ≡ suc extra = omega arith in rw (n, past) refl
load_pages-spare (suc pages) extra image space vaddr offset file_end seg_end perms page l =
    let n : suc (suc pages) + extra ≡ suc (suc pages + extra) = omega arith in
    let rest =
      load_pages-spare pages extra image space vaddr offset file_end seg_end perms
        (page + page_size) (omega arith) in
    ap (λ k. load_pages k image space vaddr offset file_end seg_end perms page) n
    ∙ ap
        (λ m.
          if ltb page seg_end
          then load_page image space vaddr offset file_end perms page >> m
          else pure tt)
        rest

-- The rounds that `map_segment` starts with are as good as any greater number of them, so the loop
-- over the pages ends by its own test and not for want of rounds.
pub load_pages-pages_of :
    (fuel : ℕ) (image : Image) (space : AddressSpace) (vaddr offset file_end memsz perms : ℕ)
    → pages_of memsz ≤ fuel
    → load_pages fuel image space vaddr offset file_end
        (vaddr + memsz)
        perms
        (vaddr - vaddr % page_size)
      ≡ load_pages
          (pages_of memsz)
          image
          space
          vaddr
          offset
          file_end
          (vaddr + memsz)
          perms
          (vaddr - vaddr % page_size)
load_pages-pages_of fuel image space vaddr offset file_end memsz perms l =
    let n : fuel ≡ suc (memsz / 4096 + 2) + (fuel - pages_of memsz) = omega arith in
    let m : suc (memsz / 4096 + 2) ≡ pages_of memsz = omega arith in
    ap
      (λ k.
        load_pages k image space vaddr offset file_end (vaddr + memsz) perms
          (vaddr - vaddr % page_size))
      n
    ∙ load_pages-spare (memsz / 4096 + 2) (fuel - pages_of memsz) image space vaddr offset file_end
        (vaddr + memsz) perms (vaddr - vaddr % page_size) (omega arith)
    ∙ ap
        (λ k.
          load_pages k image space vaddr offset file_end (vaddr + memsz) perms
            (vaddr - vaddr % page_size))
        m

-- The permissions that the flags R, W and X make.
abbrev pub perms_of : Bool → Bool → Bool → ℕ
perms_of r w x =
    let p1 = if r then bit_or user_bit read_bit else user_bit in
    let p2 = if w then bit_or p1 write_bit else p1 in if x then bit_or p2 execute_bit else p2

perms_of_lem :
    (r w x : Bool) → has (perms_of r w x) write_bit ≡ w × has (perms_of r w x) execute_bit ≡ x
perms_of_lem true true true = (refl, refl)
perms_of_lem true true false = (refl, refl)
perms_of_lem true false true = (refl, refl)
perms_of_lem true false false = (refl, refl)
perms_of_lem false true true = (refl, refl)
perms_of_lem false true false = (refl, refl)
perms_of_lem false false true = (refl, refl)
perms_of_lem false false false = (refl, refl)

-- The permissions of a segment have W and X as its flags do.
segment_perms_lem :
    (flags : ℕ)
    → has (segment_perms flags) write_bit ≡ has flags 2
      × has (segment_perms flags) execute_bit ≡ has flags 1
unfolding segment_perms
segment_perms_lem flags = perms_of_lem (has flags 4) (has flags 2) (has flags 1)

refuse_if-passed :
    (b : Bool) (e : ElfError) (s : Pool) (u : Unit {0}) → (refuse_if b e s).0 ≡ ok u → b ≡ false
refuse_if-passed true e s u h = cc h
refuse_if-passed false e s u h = refl

ok_or-passed :
    {A : Type 0} (o : Option A) (e : ElfError) (s : Pool) (a : A)
    → (ok_or o e s).0 ≡ ok a
    → o ≡ some a
ok_or-passed none e s a h = cc h
ok_or-passed (some b) e s a h = cc h

-- A segment that is loaded is not both writable and executable.
abbrev pub IsSafe : Image → ℕ → Type 0
IsSafe image ph =
    (flags : ℕ) → u32_at image (ph + 4) ≡ some flags → has flags 2 && has flags 1 ≡ false

and-false : (a b c d : Bool) → a ≡ c → b ≡ d → a && b ≡ false → c && d ≡ false
and-false a b c d e f h = rw (← e, ← f) h

load_segment-IsSafe :
    (image : Image) (space : AddressSpace) (ph : ℕ)
    → Shows (IsSafe image ph) (load_segment image space ph)
unfolding load_segment
load_segment-IsSafe image space ph = bind-Shows _ _ _ λ p_flags s0 h0.
    bind-Shows _ _ _ λ p_offset s1 h1. bind-Shows _ _ _ λ p_vaddr s2 h2.
      bind-Shows _ _ _ λ p_filesz s3 h3. bind-Shows _ _ _ λ p_memsz s4 h4.
        bind-Shows _ _ _ λ u s5 h5. bind-Shows _ _ _ λ v s6 h6 s b h flags f.
          let perms = segment_perms_lem flags in
          let read : p_flags ≡ flags = cc (ok_or-passed _ _ s0 p_flags h0, f) in
          let passed =
            subst
              (λ x. has (segment_perms x) write_bit && has (segment_perms x) execute_bit ≡ false)
              read (refuse_if-passed _ _ s6 v h6) in
          and-false _ _ _ _ perms.0 perms.1 passed

-- Every header of an image that loads, if it is of type PT_LOAD, is safe.
load_header-IsSafe :
    (image : Image) (space : AddressSpace) (ph : ℕ)
    → u32_at image ph ≡ some pt_load
    → Shows (IsSafe image ph) (load_header image space ph)
unfolding load_header
load_header-IsSafe image space ph t = bind-Shows _ _ _ λ p_type s0 h0 s a h.
    let read : p_type ≡ pt_load = cc (ok_or-passed _ _ s0 p_type h0, t) in
    let is_load : (p_type == pt_load) ≡ true = ground arith in
    load_segment-IsSafe image space ph s a (rw is_load at h)

load_headers-IsSafe :
    (left i : ℕ) (image : Image) (space : AddressSpace) (phoff phentsize j : ℕ)
    → j < left
    → u32_at image (phoff + (i + j) * phentsize) ≡ some pt_load
    → Shows
        (IsSafe image (phoff + (i + j) * phentsize))
        (load_headers left i image space phoff phentsize)
unfolding load_headers
load_headers-IsSafe zero i image space phoff phentsize j l t = absurd (omega arith)
load_headers-IsSafe (suc left) i image space phoff phentsize zero l t =
    let at : i + zero ≡ i = omega arith in
    bind-Shows _ _ _ λ u s0 h0 s a h.
      subst (λ n. IsSafe image (phoff + n * phentsize)) (sym at)
        (load_header-IsSafe image space (phoff + i * phentsize)
          (subst (λ n. u32_at image (phoff + n * phentsize) ≡ some pt_load) at t) s0 u h0)
load_headers-IsSafe (suc left) i image space phoff phentsize (suc j) l t =
    let at : i + suc j ≡ (i + 1) + j = omega arith in
    bind-Shows _ _ _ λ u s0 h0 s a h.
      subst (λ n. IsSafe image (phoff + n * phentsize)) (sym at)
        (load_headers-IsSafe left (i + 1) image space phoff phentsize j (omega arith)
          (subst (λ n. u32_at image (phoff + n * phentsize) ≡ some pt_load) at t) s a h)

-- An image that loads has no segment of type PT_LOAD that is both writable and executable,
-- wherever in its table of program headers the segment stands.
pub load-no_wx :
    (image : Image) (space : AddressSpace) (s : Pool) (entry phoff phentsize phnum : ℕ)
    → (load image space s).0 ≡ ok entry
    → u64_at image 32 ≡ some phoff
    → u16_at image 54 ≡ some phentsize
    → u16_at image 56 ≡ some phnum
    → (i : ℕ) → i < phnum
    → u32_at image (phoff + i * phentsize) ≡ some pt_load
    → (flags : ℕ) → u32_at image (phoff + i * phentsize + 4) ≡ some flags
    → has flags 2 && has flags 1 ≡ false
unfolding load
load-no_wx image space s entry phoff phentsize phnum h o e n i l t = shows s entry h
  where
    shows : Shows (IsSafe image (phoff + i * phentsize)) (load image space)
    shows = bind-Shows _ _ _ λ a s0 h0. bind-Shows _ _ _ λ b s1 h1. bind-Shows _ _ _ λ c s2 h2.
        bind-Shows _ _ _ λ entry' s3 h3. bind-Shows _ _ _ λ phoff' s4 h4.
          bind-Shows _ _ _ λ phentsize' s5 h5. bind-Shows _ _ _ λ phnum' s6 h6.
            bind-Shows _ _ _ λ d s7 h7. bind-Shows _ _ _ λ f s8 h8. bind-Shows _ _ _ λ g s9 h9.
              bind-Shows _ _ _ λ u s10 h10 s' x h'.
                let same_off : phoff' ≡ phoff = cc (ok_or-passed _ _ s4 phoff' h4, o) in
                let same_size : phentsize' ≡ phentsize =
                  cc (ok_or-passed _ _ s5 phentsize' h5, e) in
                let same_num : phnum' ≡ phnum = cc (ok_or-passed _ _ s6 phnum' h6, n) in
                let at : i ≡ 0 + i = omega arith in
                subst (λ k. IsSafe image (phoff + k * phentsize)) (sym at)
                  (load_headers-IsSafe phnum 0 image space phoff phentsize i l
                    (subst (λ k. u32_at image (phoff + k * phentsize) ≡ some pt_load) at t) s10 u
                    (rw (same_off, same_size, same_num) at h10))
