-- ===== src/Tests/Loader.antt =====
-- The ELF loader at concrete inputs (kernel/src/elf.rs).
use kernai.Base.{
  ◌>>=◌, ◌+◌, ◌-◌, ◌%◌, ◌≡◌, ◌&&◌, refl, false, [], ◌∷◌, ◌++◌, replicate, some, arith, ok,
}
use kernai.Hal.{pool_base}
use kernai.Mm.{page_size, has}
use kernai.Elf.{
  Image, load, load_pages, pages_of, ElfError, u16_at, u32_at, u64_at, slice, from_le_bytes,
}
use kernai.Elf.Segments.{load-no_wx, load_pages-pages_of}
use kernai.Tests.Spaces.{mapped}

-- An image with one program header, at 64: an empty PT_LOAD segment with the flags R and X. The
-- entry is 0x500000.
abbrev small : Image
small =
    (0x7f ∷ b'E' ∷ b'L' ∷ b'F' ∷ 2 ∷ 1 ∷ 1 ∷ [])
    ++ (replicate 11 0
        ++ ((243 ∷ 0 ∷ [])
            ++ (replicate 4 0
                ++ ((0 ∷ 0 ∷ 0x50 ∷ [])
                    ++ (replicate 5 0
                        ++ ((64 ∷ [])
                            ++ (replicate 21 0
                                ++ ((56 ∷ 0 ∷ 1 ∷ 0 ∷ [])
                                    ++ (replicate 6 0
                                        ++ ((1 ∷ 0 ∷ 0 ∷ 0 ∷ 5 ∷ 0 ∷ 0 ∷ 0 ∷ 64 ∷ [])
                                            ++ (replicate 8 0
                                                ++ ((0x10 ∷ [])
                                                    ++ (replicate 14 0
                                                        ++ replicate 24 0)))))))))))))

phoff_read : u64_at small 32 ≡ some 64
unfolding kernai.Elf.le_at slice from_le_bytes
phoff_read = refl

phentsize_read : u16_at small 54 ≡ some 56
unfolding kernai.Elf.le_at slice from_le_bytes
phentsize_read = refl

phnum_read : u16_at small 56 ≡ some 1
unfolding kernai.Elf.le_at slice from_le_bytes
phnum_read = refl

type_read : u32_at small (64 + 0) ≡ some 1
unfolding kernai.Elf.le_at slice from_le_bytes
type_read = refl

flags_read : u32_at small (64 + 0 + 4) ≡ some 5
unfolding kernai.Elf.le_at slice from_le_bytes
flags_read = refl

load_pages-pages_of_example :
    load_pages 9 small pool_base 0x1000 64 0x1004 (0x1000 + 4) 10 (0x1000 - 0x1000 % page_size)
    ≡ load_pages
        (pages_of 4)
        small
        pool_base
        0x1000
        64
        0x1004
        (0x1000 + 4)
        10
        (0x1000 - 0x1000 % page_size)
load_pages-pages_of_example =
    load_pages-pages_of 9 small pool_base 0x1000 64 0x1004 4 10 (omega arith)

loaded : (load small pool_base mapped).0 ≡ ok 0x50_0000
unfolding load ◌>>=◌ kernai.Elf.le_at slice from_le_bytes kernai.Elf.check_entry
    kernai.Elf.has_magic kernai.Elf.is_elf64_rv kernai.Elf.load_header kernai.Elf.load_headers
    load_pages kernai.Elf.load_segment kernai.Elf.map_segment kernai.Elf.segment_perms
    kernai.Mm.translate kernai.Mm.translate_checked kernai.Mm.read_pte kernai.Hal.phys_read_u64
    kernai.Mm.vpn kernai.Mm.pte_pa
loaded = refl

load-no_wx_example : has 5 2 && has 5 1 ≡ false
load-no_wx_example =
    load-no_wx small pool_base mapped 0x50_0000 64 56 1 loaded phoff_read phentsize_read phnum_read
      0 (omega arith) type_read 5 flags_read
