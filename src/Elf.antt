-- ===== src/Elf.antt =====
-- kernel/src/elf.rs: the ELF64 loader.
-- An image is its list of bytes. Sums that the source leaves unchecked wrap, as in the release
-- build that the Makefile makes.
pub mod Segments
use kernai.Base.{
  ℕ, zero, suc, ◌+◌, ◌-◌, ◌*◌, ◌/◌, ◌%◌, ◌^◌, ◌≡◌, Bool, true, false, not, ◌||◌, ◌&&◌, Option, none,
  some, List, [], ◌∷◌, bit_and, bit_or, ltb, leb, ◌==◌, if◌then◌else◌, min, max, length, get_or,
  take, drop, Result, ok, err, Action, pure, fail, ◌>>=◌, ◌>>◌,
}
use kernai.Text.{Text, bytes_of}
use kernai.Hal.{usize_mod, phys_write}
use kernai.Frames.{Pool, alloc, free}
use kernai.Mm.{
  AddressSpace, MmError, has, map_page, translate, page_size, user_bit, read_bit, write_bit,
  execute_bit,
}

pub data ElfError : Type 0 where
  too_short bad_magic not_elf64_rv bad_program_headers wx_violation out_of_memory map_failed
        entry_unmapped :
      ElfError

unfoldable pub as_str : ElfError → Text
unfolding bytes_of
as_str ElfError.too_short = bytes_of "too_short"
as_str ElfError.bad_magic = bytes_of "bad_magic"
as_str ElfError.not_elf64_rv = bytes_of "not_elf64_riscv"
as_str ElfError.bad_program_headers = bytes_of "bad_program_headers"
as_str ElfError.wx_violation = bytes_of "wx_violation"
as_str ElfError.out_of_memory = bytes_of "out_of_memory"
as_str ElfError.map_failed = bytes_of "map_failed"
as_str ElfError.entry_unmapped = bytes_of "entry_unmapped"

abbrev pub Image : Type 0
Image = List ℕ

abbrev pub Load : Type 0 → Type 0
Load A = Action Pool ElfError A

-- `b.get(lo..hi)`
unfoldable pub slice : Image → ℕ → ℕ → Option Image
slice b lo hi = if leb lo hi && leb hi (length b) then some (take (hi - lo) (drop lo b)) else none

-- `from_le_bytes`
unfoldable pub from_le_bytes : List ℕ → ℕ
from_le_bytes [] = 0
from_le_bytes (b ∷ bs) = b + 256 * from_le_bytes bs

-- `u16_at`, `u32_at`, `u64_at` are this at 2, 4, 8 bytes.
unfoldable pub le_at : ℕ → Image → ℕ → Option ℕ
unfolding slice from_le_bytes
le_at n b off =
    if leb usize_mod (off + n)
    then none
    else elim (slice b off (off + n)) [ some bytes ↦ some (from_le_bytes bytes) | none ↦ none ]

abbrev pub u16_at : Image → ℕ → Option ℕ
u16_at = le_at 2

abbrev pub u32_at : Image → ℕ → Option ℕ
u32_at = le_at 4

abbrev pub u64_at : Image → ℕ → Option ℕ
u64_at = le_at 8

-- `opt.ok_or(e)?`
abbrev pub ok_or : {A : Type 0} → Option A → ElfError → Load A
ok_or none e = fail e
ok_or (some a) e = pure a

abbrev pub refuse_if : Bool → ElfError → Load (Unit {0})
refuse_if true e = fail e
refuse_if false e = pure tt

abbrev pub pt_load : ℕ
pt_load = 1

-- The permissions of a segment: U, and R, W, X as its flags say.
unfoldable pub segment_perms : ℕ → ℕ
segment_perms p_flags =
    let p0 = user_bit in
    let p1 = if has p_flags 4 then bit_or p0 read_bit else p0 in
    let p2 = if has p_flags 2 then bit_or p1 write_bit else p1 in
    if has p_flags 1 then bit_or p2 execute_bit else p2

-- The bytes of the file that fall in the page, written into its new frame.
unfoldable pub fill_page : Image → ℕ → ℕ → ℕ → ℕ → ℕ → Load (Unit {0})
fill_page image vaddr offset file_end page frame s =
    let page_end = page + page_size in
    let copy_start = max page vaddr in
    let copy_end = min page_end file_end in
    let src_off = (offset + (copy_start - vaddr)) % usize_mod in
    if not (ltb copy_start copy_end)
    then (ok tt, s)
    else elim (slice image src_off ((src_off + (copy_end - copy_start)) % usize_mod)) [
      | none ↦ (err bad_program_headers, s)
      | some src ↦
          let (written, m) = phys_write (frame + (copy_start - page)) src s.mem in
          if written then (ok tt, record s { mem = m }) else (err map_failed, free frame s)
    ]

-- `space.map_page(..).map_err(..)`: the frame goes back if the page cannot be mapped.
unfoldable pub install_page : AddressSpace → ℕ → ℕ → ℕ → Load (Unit {0})
install_page space page frame perms s =
    let (r, s') = map_page space page frame perms s in
    elim r [ ok _ ↦ (ok tt, s') | err _ ↦ (err map_failed, free frame s') ]

-- `frames::alloc().ok_or(OutOfMemory)?`
unfoldable pub alloc_frame : Load ℕ
alloc_frame s = elim (alloc s) [ none ↦ (err out_of_memory, s) | some (pa, s') ↦ (ok pa, s') ]

-- The body of the loop for one page.
unfoldable pub load_page : Image → AddressSpace → ℕ → ℕ → ℕ → ℕ → ℕ → Load (Unit {0})
unfolding fill_page install_page alloc_frame
load_page image space vaddr offset file_end perms page = do
  refuse_if (leb usize_mod (page + page_size)) bad_program_headers
  frame ← alloc_frame
  fill_page image vaddr offset file_end page frame
  install_page space page frame perms

-- `while page < seg_end`: `pages` bounds the rounds, and the loop stops by its own test.
unfoldable pub load_pages : ℕ → Image → AddressSpace → ℕ → ℕ → ℕ → ℕ → ℕ → ℕ → Load (Unit {0})
unfolding load_page
load_pages zero image space vaddr offset file_end seg_end perms page = fail out_of_memory
load_pages (suc pages) image space vaddr offset file_end seg_end perms page =
    let rest =
      load_pages pages image space vaddr offset file_end seg_end perms (page + page_size) in
    if ltb page seg_end
    then (load_page image space vaddr offset file_end perms page >> rest)
    else pure tt

-- As many rounds as the segment has pages, and one.
abbrev pub pages_of : ℕ → ℕ
pages_of memsz = memsz / page_size + 3

unfoldable pub map_segment : Image → AddressSpace → ℕ → ℕ → ℕ → ℕ → ℕ → Load (Unit {0})
unfolding load_pages
map_segment image space vaddr offset filesz memsz perms = do
  refuse_if (leb usize_mod (vaddr + memsz)) bad_program_headers
  refuse_if (leb usize_mod (vaddr + filesz)) bad_program_headers
  load_pages (pages_of memsz) image space vaddr offset (vaddr + filesz) (vaddr + memsz) perms
      (vaddr - vaddr % page_size)

-- The body of the loop over the program headers, at a header of type PT_LOAD.
unfoldable pub load_segment : Image → AddressSpace → ℕ → Load (Unit {0})
unfolding segment_perms map_segment
load_segment image space ph = do
  p_flags ← ok_or (u32_at image (ph + 4)) bad_program_headers
  p_offset ← ok_or (u64_at image (ph + 8)) bad_program_headers
  p_vaddr ← ok_or (u64_at image (ph + 16)) bad_program_headers
  p_filesz ← ok_or (u64_at image (ph + 32)) bad_program_headers
  p_memsz ← ok_or (u64_at image (ph + 40)) bad_program_headers
  refuse_if (ltb p_memsz p_filesz) bad_program_headers
  refuse_if (has (segment_perms p_flags) write_bit && has (segment_perms p_flags) execute_bit)
      wx_violation
  map_segment image space p_vaddr p_offset p_filesz p_memsz (segment_perms p_flags)

unfoldable pub load_header : Image → AddressSpace → ℕ → Load (Unit {0})
unfolding load_segment
load_header image space ph = do
  p_type ← ok_or (u32_at image ph) bad_program_headers
  if p_type == pt_load then load_segment image space ph else pure tt

-- `for i in 0..phnum`
unfoldable pub load_headers : ℕ → ℕ → Image → AddressSpace → ℕ → ℕ → Load (Unit {0})
unfolding load_header
load_headers zero i image space phoff phentsize = pure tt
load_headers (suc left) i image space phoff phentsize =
    load_header image space (phoff + i * phentsize)
    >> load_headers left (i + 1) image space phoff phentsize

abbrev pub is_u16 : Option ℕ → ℕ → Bool
is_u16 none n = false
is_u16 (some v) n = v == n

-- The first four bytes are 0x7f 'E' 'L' 'F'.
unfoldable pub has_magic : Image → Bool
has_magic b =
    ((get_or b 0 0 == 0x7f) && (get_or b 1 0 == b'E'))
    && ((get_or b 2 0 == b'L') && (get_or b 3 0 == b'F'))

-- EI_CLASS = 2, EI_DATA = 1, e_machine = 243.
unfoldable pub is_elf64_rv : Image → Bool
is_elf64_rv b = (get_or b 4 0 == 2) && ((get_or b 5 0 == 1) && is_u16 (u16_at b 18) 243)

-- The entry must be mapped.
unfoldable pub check_entry : AddressSpace → ℕ → Load ℕ
check_entry space entry s = elim (translate space entry s) [
  | none ↦ (err entry_unmapped, s)
  | some _ ↦ (ok entry, s)
]

unfoldable pub load : Image → AddressSpace → Load ℕ
unfolding load_headers has_magic is_elf64_rv check_entry
load image space = do
  refuse_if (ltb (length image) 64) too_short
  refuse_if (not (has_magic image)) bad_magic
  refuse_if (not (is_elf64_rv image)) not_elf64_rv
  entry ← ok_or (u64_at image 24) too_short
  phoff ← ok_or (u64_at image 32) too_short
  phentsize ← ok_or (u16_at image 54) too_short
  phnum ← ok_or (u16_at image 56) too_short
  refuse_if (ltb phentsize 56) bad_program_headers
  refuse_if (leb usize_mod (phnum * phentsize) || leb usize_mod (phoff + phnum * phentsize))
      bad_program_headers
  refuse_if (ltb (length image) (phoff + phnum * phentsize)) bad_program_headers
  load_headers phnum 0 image space phoff phentsize
  check_entry space entry
