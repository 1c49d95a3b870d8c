-- ===== src/Elf.antt =====
-- The ELF loader of src/elf.c: the header, the segments and the information about a program. The
-- image is its bytes, the memory a function of the address; a result is an error code or a value.
pub mod Reloc
pub mod Validate
pub mod Sandbox
mod Tests
use muos.Common.{
  ℕ, zero, suc, ◌+◌, ◌-◌, ◌*◌, ◌^◌, ◌⊎◌, inl, inr, Bool, true, false, not, ◌&&◌, ◌||◌, Option, none,
  some, List, [], ltb, leb, ◌==◌, if◌then◌else◌, length, take, drop, get_or, u32,
}
use muos.Common.Int.{ℤ, negsuc}
use muos.Common.Mem.{Mem, blit, fill}
use muos.Common.Words.{le_value}

abbrev pub elf_err_header : ℤ
elf_err_header = negsuc 0

abbrev pub elf_err_format : ℤ
elf_err_format = negsuc 1

abbrev pub elf_err_range : ℤ
elf_err_range = negsuc 2

abbrev pub elf_err_noload : ℤ
elf_err_noload = negsuc 3

abbrev pub elf_err_reloc : ℤ
elf_err_reloc = negsuc 4

-- The numbers of 16 and 32 bits in the image.
abbrev pub half_at : List ℕ → ℕ → ℕ
half_at image at = le_value (take 2 (drop at image))

abbrev pub word_in : List ℕ → ℕ → ℕ
word_in image at = le_value (take 4 (drop at image))

-- Whether the number is one of the first `n` powers of two.
pub power_below : ℕ → ℕ → Bool
power_below zero v = false
power_below (suc n) v = let rest = power_below n v in if v == 2 ^ n then true else rest

pub is_power_of_two : ℕ → Bool
is_power_of_two v = power_below 32 v

abbrev pub range_ok : ℕ → ℕ → ℕ → ℕ → Bool
range_ok va len base limit = if ltb va base || ltb limit va then false else leb len (limit - va)

-- The fields of `elf32_ehdr_t` that are used after the check of the header.
pub record Ehdr : Type 0 where
  pub e_type : ℕ
  pub e_entry : ℕ
  pub e_phoff : ℕ
  pub e_phentsize : ℕ
  pub e_phnum : ℕ

abbrev pub is_elf : List ℕ → Bool
is_elf image =
    (get_or image 0 0 == 0x7F)
    && ((get_or image 1 0 == 0x45) && ((get_or image 2 0 == 0x4C) && (get_or image 3 0 == 0x46)))

-- A 32-bit, little-endian, executable or position-independent image for i386.
abbrev pub is_i386 : List ℕ → Bool
is_i386 image =
    (get_or image 4 0 == 1)
    && ((get_or image 5 0 == 1)
        && ((get_or image 6 0 == 1)
            && (((half_at image 16 == 2) || (half_at image 16 == 3)) && (half_at image 18 == 3))))

-- The table of the program headers lies in the image.
abbrev pub has_phdrs : List ℕ → Bool
has_phdrs image =
    leb 52 (half_at image 40)
    && (leb 32 (half_at image 42)
        && (not (half_at image 44 == 0)
            && (leb (half_at image 44) 128
                && (leb (word_in image 28) (length image)
                    && leb (half_at image 44 * half_at image 42)
                        (length image - word_in image 28)))))

pub elf_parse : List ℕ → ℤ ⊎ Ehdr
elf_parse image =
    if ltb (length image) 52
    then inl elf_err_header
    else if not (is_elf image)
    then inl elf_err_header
    else if not (is_i386 image && has_phdrs image)
    then inl elf_err_format
    else inr (record {
      e_type = half_at image 16;
      e_entry = word_in image 24;
      e_phoff = word_in image 28;
      e_phentsize = half_at image 42;
      e_phnum = half_at image 44;
    })

-- `elf32_phdr_t`
pub record Phdr : Type 0 where
  pub p_type : ℕ
  pub p_offset : ℕ
  pub p_vaddr : ℕ
  pub p_filesz : ℕ
  pub p_memsz : ℕ
  pub p_align : ℕ

pub elf_phdr : List ℕ → Ehdr → ℕ → Phdr
elf_phdr image eh i =
    let at = eh.e_phoff + i * eh.e_phentsize in
    record {
      p_type = word_in image at;
      p_offset = word_in image (at + 4);
      p_vaddr = word_in image (at + 8);
      p_filesz = word_in image (at + 16);
      p_memsz = word_in image (at + 20);
      p_align = word_in image (at + 28);
    }

-- The loop of `elf_load_bias` over the headers from `i` on, `n` of them.
pub lowest_from : ℕ → ℕ → List ℕ → Ehdr → ℕ → ℕ
lowest_from zero i image eh low = low
lowest_from (suc n) i image eh low =
    let ph = elf_phdr image eh i in
    lowest_from n (i + 1) image eh
      (if (ph.p_type == 1) && ltb ph.p_vaddr low then ph.p_vaddr else low)

pub elf_load_bias : List ℕ → Ehdr → ℕ → ℕ
elf_load_bias image eh load_base =
    let low = lowest_from eh.e_phnum 0 image eh (2 ^ 32 - 1) in
    if not (eh.e_type == 3)
    then 0
    else if (low == 2 ^ 32 - 1) || ltb load_base low
    then 0
    else load_base - low

-- The checks of a segment that goes to `va`: an error, or none.
unfoldable pub segment_error : List ℕ → Phdr → ℕ → ℕ → ℕ → Option ℤ
segment_error image ph va base limit =
    if ltb ph.p_memsz ph.p_filesz
    then some elf_err_format
    else if ltb (length image) ph.p_offset || ltb (length image - ph.p_offset) ph.p_filesz
    then some elf_err_range
    else if not (range_ok va ph.p_memsz base limit)
    then some elf_err_range
    else if not (ph.p_align == 0) && not (is_power_of_two ph.p_align)
    then some elf_err_format
    else none

-- The end of the highest segment so far, their number, and the memory.
pub record Load : Type 0 where
  pub max_end : ℕ
  pub loads : ℕ
  pub mem : Mem

-- The bytes of the file, and zeros up to the size in memory.
unfoldable pub copy_segment : List ℕ → Phdr → ℕ → Mem → Mem
copy_segment image ph va m =
    fill (blit m va (take ph.p_filesz (drop ph.p_offset image))) (va + ph.p_filesz) 0
      (ph.p_memsz - ph.p_filesz)

abbrev pub higher : ℕ → ℕ → ℕ
higher e max_end = if ltb max_end e then e else max_end

-- The body of the loop of `elf_map_segments`.
unfoldable pub load_step : List ℕ → Ehdr → ℕ → ℕ → ℕ → ℕ → Load → ℤ ⊎ Load
load_step image eh bias base limit i s =
    let ph = elf_phdr image eh i in
    let va = u32 (ph.p_vaddr + bias) in
    if not (ph.p_type == 1) then inr s else elim (segment_error image ph va base limit) [
      | some e ↦ inl e
      | none ↦ inr (record {
        max_end = higher (u32 (va + ph.p_memsz)) s.max_end;
        loads = s.loads + 1;
        mem = copy_segment image ph va s.mem;
      })
    ]

-- The loop from the header `i` on, `n` headers: the memory, and an error or what was loaded.
pub load_loop : ℕ → ℕ → List ℕ → Ehdr → ℕ → ℕ → ℕ → Load → Mem × (ℤ ⊎ Load)
load_loop zero i image eh bias base limit s = (s.mem, inr s)
load_loop (suc n) i image eh bias base limit s = elim (load_step image eh bias base limit i s) [
  | inl e ↦ (s.mem, inl e)
  | inr s' ↦ load_loop n (i + 1) image eh bias base limit s'
]

-- The checks after the loop, of the entry: an error, or none.
abbrev pub entry_error : ℕ → ℕ → ℕ → ℕ → Option ℤ
entry_error loads entry base limit =
    if loads == 0
    then some elf_err_noload
    else if ltb entry base || leb limit entry
    then some elf_err_range
    else none

-- `elf32_load_info_t`, with the address of the dynamic table, 0 for none.
pub record Info : Type 0 where
  pub entry : ℕ
  pub image_end : ℕ
  pub phdr : ℕ
  pub base : ℕ
  pub is_dyn : Bool
  pub interp : Option (List ℕ)
  pub dyn_va : ℕ

-- The body of the second loop.
unfoldable pub info_step : List ℕ → Ehdr → ℕ → Info → Info
info_step image eh i info =
    let ph = elf_phdr image eh i in
    let fits =
      leb ph.p_offset (length image)
      && (leb ph.p_filesz (length image - ph.p_offset) && ltb ph.p_filesz 64) in
    record info {
      phdr =
          if (ph.p_type == 1)
            && (leb ph.p_offset eh.e_phoff && ltb eh.e_phoff (u32 (ph.p_offset + ph.p_filesz)))
          then u32 (ph.p_vaddr + info.base + (eh.e_phoff - ph.p_offset))
          else info.phdr;
      interp =
          if (ph.p_type == 3) && (ltb 0 ph.p_filesz && fits)
          then some (take ph.p_filesz (drop ph.p_offset image))
          else info.interp;
      dyn_va =
          if (ph.p_type == 2) && leb 8 ph.p_memsz
          then u32 (ph.p_vaddr + info.base)
          else info.dyn_va;
    }

pub info_loop : ℕ → ℕ → List ℕ → Ehdr → Info → Info
info_loop zero i image eh info = info
info_loop (suc n) i image eh info = info_loop n (i + 1) image eh (info_step image eh i info)

abbrev pub first_info : Ehdr → ℕ → ℕ → ℕ → Info
first_info eh entry max_end bias = record {
  entry = entry;
  image_end = max_end;
  phdr = 0;
  base = bias;
  is_dyn = eh.e_type == 3;
  interp = none;
  dyn_va = 0;
}

-- What follows the loop.
unfoldable pub finish_load : List ℕ → Ehdr → ℕ → ℕ → ℕ → Load → ℤ ⊎ Info
finish_load image eh bias base limit s =
    let entry = u32 (eh.e_entry + bias) in
    elim (entry_error s.loads entry base limit) [
      | some e ↦ inl e
      | none ↦ inr (info_loop eh.e_phnum 0 image eh (first_info eh entry s.max_end bias))
    ]

-- `elf_map_segments`: the memory, and an error or the information.
pub elf_map_segments : List ℕ → ℕ → ℕ → Mem → Mem × (ℤ ⊎ Info)
elf_map_segments image load_base load_limit m = elim (elf_parse image) [
  | inl e ↦ (m, inl e)
  | inr eh ↦
      let bias = elf_load_bias image eh load_base in
      let (m', r) =
        load_loop eh.e_phnum 0 image eh bias load_base load_limit
          (record { max_end = load_base; loads = 0; mem = m }) in
      (m', elim r [ inl e ↦ inl e | inr s ↦ finish_load image eh bias load_base load_limit s ])
]

-- The loop of `elf32_validate`, which copies nothing: `max_end` and `loads`.
pub valid_loop : ℕ → ℕ → List ℕ → Ehdr → ℕ → ℕ → ℕ → ℕ → ℕ → ℤ ⊎ (ℕ × ℕ)
valid_loop zero i image eh bias base limit max_end loads = inr (max_end, loads)
valid_loop (suc n) i image eh bias base limit max_end loads =
    let ph = elf_phdr image eh i in
    let va = u32 (ph.p_vaddr + bias) in
    let skip = valid_loop n (i + 1) image eh bias base limit max_end loads in
    let rest =
      valid_loop n (i + 1) image eh bias base limit (higher (u32 (va + ph.p_memsz)) max_end)
        (loads + 1) in
    if not (ph.p_type == 1)
    then skip
    else elim (segment_error image ph va base limit) [ some e ↦ inl e | none ↦ rest ]

-- `elf32_validate`: an error, or the entry and the end.
pub elf32_validate : List ℕ → ℕ → ℕ → ℤ ⊎ (ℕ × ℕ)
elf32_validate image load_base load_limit = elim (elf_parse image) [
  | inl e ↦ inl e
  | inr eh ↦
      let bias = elf_load_bias image eh load_base in
      let entry = u32 (eh.e_entry + bias) in
      elim (valid_loop eh.e_phnum 0 image eh bias load_base load_limit load_base 0) [
        | inl e ↦ inl e
        | inr (max_end, loads) ↦ elim (entry_error loads entry load_base load_limit) [
          | some e ↦ inl e
          | none ↦ inr (entry, max_end)
        ]
      ]
]
