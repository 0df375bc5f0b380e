-- ===== src/Elf/Layout.antt =====
-- src/elf.c: the addresses of the sections against their offsets in the file.
use shecc.Prelude.{
  ◌+◌, ◌-◌, ◌/◌, ◌%◌, ◌≤◌, ◌<◌, ◌≡◌, ◌⊎◌, arith, Bool, true, false, length, bit_and, ◌==◌,
  if◌then◌else◌,
}
use shecc.Program.Placed.{All}
use shecc.Elf.{Target, Elf, elf_start, page_size}
use shecc.Elf.Header.{Phdr, Shdr}
use shecc.Elf.Preprocess.{header_len}
use shecc.Elf.Segments.{read_only, writable}
use shecc.Elf.Readback.{InterpFits}
use shecc.Elf.Table.{section_headers, first_headers, dynamic_headers, last_headers, add_header}

-- The addresses as `elf_preprocess` chooses them, in terms of the sections as they are written.
abbrev pub IsPlaced : Bool → Elf → Type 0
IsPlaced true s =
    (s.elf_rodata_start ≡ s.elf_code_start + length s.elf_code)
    × (s.elf_relplt_start ≡ s.elf_rodata_start + length s.elf_rodata)
    × (s.elf_plt_start ≡ s.elf_relplt_start + length s.elf_relplt)
    × (s.elf_interp_start ≡ s.elf_plt_start + length s.elf_plt + page_size)
    × (s.elf_got_start ≡ s.elf_interp_start + length s.elf_interp)
    × (s.elf_data_start
        ≡ s.elf_got_start
          + length s.elf_got
          + length s.elf_dynstr
          + length s.elf_dynsym
          + length s.elf_dynamic)
IsPlaced false s =
    (s.elf_rodata_start ≡ s.elf_code_start + length s.elf_code)
    × (s.elf_data_start ≡ s.elf_rodata_start + length s.elf_rodata + page_size)

-- The segment holds the section, in the file and at its address; .bss is in memory alone.
abbrev pub Holds : Phdr → Shdr → Type 0
Holds p h =
    (p.p_offset ≤ h.sh_offset)
    × (h.sh_offset + h.sh_size ≤ p.p_offset + (if h.sh_type == 8 then p.p_memsz else p.p_filesz))
    × (h.sh_addr + p.p_offset ≡ h.sh_offset + p.p_vaddr)

-- A section that is allocated is in one of the two segments.
abbrev pub IsHeld : Phdr → Phdr → Shdr → Type 0
IsHeld ro rw' h = (bit_and h.sh_flags 2 ≡ 0) ⊎ (Holds ro h ⊎ Holds rw' h)

pub section_headers-IsHeld :
    (d : Bool) (t : Target) (s : Elf)
    → s.dynlink ≡ d
    → s.elf_header_len ≡ header_len d
    → s.elf_code_start ≡ elf_start + header_len d
    → s.elf_bss_start ≡ s.elf_data_start + length s.elf_data
    → IsPlaced d s
    → InterpFits d t s
    → All (IsHeld (read_only s) (writable s)) (section_headers t s)
unfolding section_headers first_headers dynamic_headers last_headers add_header read_only writable
section_headers-IsHeld true t s link len code bss placed fits =
    rw link (omega (arith, placed, len, code, bss, fits))
section_headers-IsHeld false t s link len code bss placed fits =
    rw link (omega (arith, placed, len, code, bss))

-- Segments that start at the same place of a page as their parts of the file, and share no page.
abbrev pub ArePaged : Phdr → Phdr → Type 0
ArePaged p q =
    (p.p_vaddr % page_size ≡ p.p_offset % page_size)
    × (q.p_vaddr % page_size ≡ q.p_offset % page_size)
    × ((p.p_vaddr + p.p_memsz - 1) / page_size < q.p_vaddr / page_size)

pub segments-pages :
    (d : Bool) (t : Target) (s : Elf)
    → s.dynlink ≡ d
    → s.elf_header_len ≡ header_len d
    → s.elf_code_start ≡ elf_start + header_len d
    → IsPlaced d s
    → ArePaged (read_only s) (writable s)
unfolding read_only writable
segments-pages true t s link len code placed = rw link (omega (arith, placed, len, code))
segments-pages false t s link len code placed = rw link (omega (arith, placed, len, code))
