-- ===== src/Elf/Reader.antt =====
-- A reader of an ELF file, written after the format: it models no code of the program.
use shecc.Prelude.{
  ℕ, zero, suc, ◌+◌, ◌*◌, ◌≡◌, refl, ap, List, [], ◌∷◌, ◌++◌, map, length, IsWord, ◌==◌,
  if◌then◌else◌,
}
use mathlib.Core.List.{append_assoc}
use shecc.Elf.{Buf}
use shecc.Elf.Bytes.{int_bytes, read_int, read_int-int_bytes}
use shecc.Elf.Header.{ints, Shdr, shdr_bytes}
use shecc.Elf.Table.{shdrs_bytes}
use shecc.Program.Placed.{All}

abbrev pub take : ℕ → Buf → Buf
take zero buf = []
take (suc n) [] = []
take (suc n) (x ∷ xs) = x ∷ take n xs

abbrev pub drop : ℕ → Buf → Buf
drop zero buf = buf
drop (suc n) [] = []
drop (suc n) (x ∷ xs) = drop n xs

-- A string up to its zero.
abbrev pub read_string : Buf → Buf
read_string [] = []
read_string (zero ∷ xs) = []
read_string (suc c ∷ xs) = suc c ∷ read_string xs

-- A two-byte number.
abbrev pub read_half : Buf → ℕ
read_half (a ∷ b ∷ rest) = a + 256 * b
read_half _ = 0

-- As many numbers as are asked for.
unfoldable pub read_ints : ℕ → Buf → List ℕ
read_ints zero buf = []
read_ints (suc n) buf = read_int buf ∷ read_ints n (drop 4 buf)

abbrev shdr_of : List ℕ → Shdr
shdr_of (a ∷ b ∷ c ∷ d ∷ e ∷ f ∷ g ∷ h ∷ i ∷ j ∷ rest) = record {
  sh_name = a;
  sh_type = b;
  sh_flags = c;
  sh_addr = d;
  sh_offset = e;
  sh_size = f;
  sh_link = g;
  sh_info = h;
  sh_addralign = i;
  sh_entsize = j;
}
shdr_of _ = record {
  sh_name = 0;
  sh_type = 0;
  sh_flags = 0;
  sh_addr = 0;
  sh_offset = 0;
  sh_size = 0;
  sh_link = 0;
  sh_info = 0;
  sh_addralign = 0;
  sh_entsize = 0;
}

unfoldable read_shdr : Buf → Shdr
unfolding read_ints
read_shdr buf = shdr_of (read_ints 10 buf)

unfoldable pub read_shdrs : ℕ → Buf → List Shdr
unfolding read_shdr
read_shdrs zero buf = []
read_shdrs (suc n) buf = read_shdr buf ∷ read_shdrs n (drop 40 buf)

-- The headers of the sections: `e_shoff` is at 32, `e_shnum` at 48.
unfoldable pub read_headers : Buf → List Shdr
unfolding read_shdrs
read_headers image = read_shdrs (read_half (drop 48 image)) (drop (read_int (drop 32 image)) image)

-- What a section holds; a section of type SHT_NOBITS has nothing in the file.
abbrev pub read_section : Buf → Shdr → Buf
read_section image h = if h.sh_type == 8 then [] else take h.sh_size (drop h.sh_offset image)

abbrev pub nth : ℕ → List Buf → Buf
nth n [] = []
nth zero (x ∷ xs) = x
nth (suc n) (x ∷ xs) = nth n xs

-- What the sections hold, from the bytes of the file alone.
abbrev pub read_contents : Buf → List Buf
read_contents image = map (read_section image) (read_headers image)

abbrev pub names_in : Buf → List Shdr → List Buf
names_in strings = map (λ h. read_string (drop h.sh_name strings))

-- The names of the sections: `e_shstrndx`, at 50, is the index of the section that holds them.
abbrev pub read_names : Buf → List Buf
read_names image =
    names_in (nth (read_half (drop 50 image)) (read_contents image)) (read_headers image)

-- The fields of a header in their order.
abbrev fields : Shdr → List ℕ
fields h =
    h.sh_name ∷ h.sh_type ∷ h.sh_flags ∷ h.sh_addr ∷ h.sh_offset ∷ h.sh_size ∷ h.sh_link ∷ h.sh_info
    ∷ h.sh_addralign ∷ h.sh_entsize ∷ []

-- No field of a header is larger than an `int`.
abbrev pub HasWords : Shdr → Type 0
HasWords h = All IsWord (fields h)

drop-int_bytes : (v : ℕ) (rest : Buf) → drop 4 (int_bytes v ++ rest) ≡ rest
unfolding int_bytes
drop-int_bytes v rest = refl

drop-shdr_bytes : (h : Shdr) (rest : Buf) → drop 40 (shdr_bytes h ++ rest) ≡ rest
unfolding shdr_bytes ints int_bytes
drop-shdr_bytes h rest = refl

read_ints-ints :
    (vs : List ℕ) (rest : Buf) → All IsWord vs → read_ints (length vs) (ints vs ++ rest) ≡ vs
unfolding read_ints ints int_bytes
read_ints-ints [] rest words = refl
read_ints-ints (v ∷ vs) rest words =
    rw (read_int-int_bytes v (ints vs ++ rest) words.0, read_ints-ints vs rest words.1) refl

read_shdr-shdr_bytes : (h : Shdr) (rest : Buf) → HasWords h → read_shdr (shdr_bytes h ++ rest) ≡ h
unfolding read_shdr shdr_bytes
read_shdr-shdr_bytes h rest words = ap shdr_of (read_ints-ints (fields h) rest words)

-- Headers that are written are read back.
pub read_shdrs-shdrs_bytes :
    (hs : List Shdr) (rest : Buf)
    → All HasWords hs
    → read_shdrs (length hs) (shdrs_bytes hs ++ rest) ≡ hs
unfolding read_shdrs
read_shdrs-shdrs_bytes [] rest words = refl
read_shdrs-shdrs_bytes (h ∷ hs) rest words =
    rw
      (
        append_assoc (shdr_bytes h) (shdrs_bytes hs) rest,
        read_shdr-shdr_bytes h (shdrs_bytes hs ++ rest) words.0,
        drop-shdr_bytes h (shdrs_bytes hs ++ rest),
        read_shdrs-shdrs_bytes hs rest words.1,
      )
      refl
