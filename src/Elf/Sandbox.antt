-- ===== src/Elf/Sandbox.antt =====
-- The loader writes nowhere but in the sandbox.
use muos.Common.{
  ℕ, zero, suc, ◌+◌, ◌-◌, ◌≤◌, ◌<◌, ◌≡◌, ◌⊎◌, inl, inr, refl, ◌∙◌, Bool, not, ◌||◌, ◌&&◌, none,
  some, List, length, take, drop, ltb, ◌==◌, if◌then◌else◌, u32, arith, Bool-cases, Option-cases,
  length-take,
}
use muos.Common.Int.{ℤ}
use muos.Common.Mem.{Mem, blit_out, fill_out}
use muos.Elf.{
  Ehdr, Phdr, Load, elf_phdr, range_ok, segment_error, is_power_of_two, elf_err_format,
  elf_err_range, copy_segment, load_step, load_loop, elf_parse, elf_load_bias, elf_map_segments,
}

-- Outside [base, limit) the memory is the same.
abbrev pub Inside : ℕ → ℕ → Mem → Mem → Type 0
Inside base limit m m' = (a : ℕ) → (a < base) ⊎ (limit ≤ a) → m' a ≡ m a

pub Inside-trans :
    (base limit : ℕ) (m m' m'' : Mem)
    → Inside base limit m m'
    → Inside base limit m' m''
    → Inside base limit m m''
Inside-trans base limit m m' m'' h k a o = k a o ∙ h a o

checks_fit :
    (memsz filesz va base limit : ℕ) (off align : Bool) (e f g : ℤ)
    → (if ltb memsz filesz
        then some e
        else if off
        then some f
        else if not (range_ok va memsz base limit)
        then some f
        else if align
        then some g
        else none)
      ≡ none
    → (base ≤ va) × (va + memsz ≤ limit) × (filesz ≤ memsz)
checks_fit memsz filesz va base limit off align e f g h = ground arith

-- A segment that passes the checks lies in the sandbox, and has at most as many bytes in the file as
-- in memory.
segment_fits :
    (image : List ℕ) (ph : Phdr) (va base limit : ℕ)
    → segment_error image ph va base limit ≡ none
    → (base ≤ va) × (va + ph.p_memsz ≤ limit) × (ph.p_filesz ≤ ph.p_memsz)
unfolding segment_error
segment_fits image ph va base limit h =
    checks_fit ph.p_memsz ph.p_filesz va base limit
      (ltb (length image) ph.p_offset || ltb (length image - ph.p_offset) ph.p_filesz)
      (not (ph.p_align == 0) && not (is_power_of_two ph.p_align)) elf_err_format elf_err_range
      elf_err_format h

copy_segment-Inside :
    (image : List ℕ) (ph : Phdr) (va base limit : ℕ) (m : Mem)
    → base ≤ va
    → va + ph.p_memsz ≤ limit
    → ph.p_filesz ≤ ph.p_memsz
    → Inside base limit m (copy_segment image ph va m)
unfolding copy_segment
copy_segment-Inside image ph va base limit m from to small a o =
    fill_out _ (va + ph.p_filesz) 0 (ph.p_memsz - ph.p_filesz) a (zeros o)
    ∙ blit_out m va (take ph.p_filesz (drop ph.p_offset image)) a (bytes o)
  where
    zeros :
        (a < base) ⊎ (limit ≤ a)
        → (a < va + ph.p_filesz) ⊎ (va + ph.p_filesz + (ph.p_memsz - ph.p_filesz) ≤ a)
    zeros (inl l) = inl (omega arith)
    zeros (inr l) = inr (omega arith)

    bytes :
        (a < base) ⊎ (limit ≤ a)
        → (a < va) ⊎ (va + length (take ph.p_filesz (drop ph.p_offset image)) ≤ a)
    bytes (inl l) = inl (omega arith)
    bytes (inr l) = inr (omega (arith, length-take ph.p_filesz (drop ph.p_offset image)))

-- The memory after a step, the old one after an error.
abbrev mem_after : Mem → ℤ ⊎ Load → Mem
mem_after m (inl e) = m
mem_after m (inr s) = s.mem

load_step-Inside :
    (image : List ℕ) (eh : Ehdr) (bias base limit i : ℕ) (s : Load)
    → Inside base limit s.mem (mem_after s.mem (load_step image eh bias base limit i s))
unfolding load_step
load_step-Inside image eh bias base limit i s =
    elim (Bool-cases ((elf_phdr image eh i).p_type == 1)) [
      | inr other ↦ simp (load_step, other) (λ a o. refl)
      | inl seg ↦
          elim (Option-cases (
            segment_error image (elf_phdr image eh i) (u32 ((elf_phdr image eh i).p_vaddr + bias))
              base limit)) [
                | inr (e, bad) ↦ simp (load_step, seg, bad) (λ a o. refl)
                | inl good ↦
                    let (from, to, less) =
                      segment_fits image (elf_phdr image eh i) _ base limit good in
                    simp (load_step, seg, good)
                      (copy_segment-Inside image (elf_phdr image eh i) _ base limit s.mem from to
                        less)
              ]
    ]

load_loop-Inside :
    (n i : ℕ) (image : List ℕ) (eh : Ehdr) (bias base limit : ℕ) (s : Load)
    → Inside base limit s.mem (load_loop n i image eh bias base limit s).0
unfolding load_loop
load_loop-Inside zero i image eh bias base limit s = λ a o. refl
load_loop-Inside (suc n) i image eh bias base limit s =
    go (load_step image eh bias base limit i s) (load_step-Inside image eh bias base limit i s)
      (λ s'. load_loop-Inside n (i + 1) image eh bias base limit s')
  where
    go :
        (r : ℤ ⊎ Load)
        → Inside base limit s.mem (mem_after s.mem r)
        → ((s' : Load)
            → Inside base limit s'.mem (load_loop n (i + 1) image eh bias base limit s').0)
        → Inside base limit s.mem
            (elim r as (λ x. Mem × (ℤ ⊎ Load)) [
              | inl e ↦ (s.mem, inl e)
              | inr s' ↦ load_loop n (i + 1) image eh bias base limit s'
            ]).0
    go (inl e) h ih = h
    go (inr s') h ih = Inside-trans base limit s.mem s'.mem _ h (ih s')

pub elf_map_segments-Inside :
    (image : List ℕ) (base limit : ℕ) (m : Mem)
    → Inside base limit m (elf_map_segments image base limit m).0
unfolding elf_map_segments
elf_map_segments-Inside image base limit m = go (elf_parse image) refl
  where
    go :
        (r : ℤ ⊎ Ehdr)
        → elf_parse image ≡ r
        → Inside base limit m (elf_map_segments image base limit m).0
    go (inl e) h = simp (elf_map_segments, h) (λ a o. refl)
    go (inr eh) h =
        simp (elf_map_segments, h)
          (load_loop-Inside eh.e_phnum 0 image eh (elf_load_bias image eh base) base limit
            (record { max_end = base; loads = 0; mem = m }))
