-- ===== src/Elf/Validate.antt =====
-- The validation without loading accepts the same images.
use muos.Common.{
  ℕ, zero, suc, ◌+◌, ◌≡◌, ◌⊎◌, inl, inr, refl, ap, ◌∙◌, sym, Option, none, some, List, ◌==◌, u32,
  Bool-cases, Option-cases,
}
use muos.Common.Int.{ℤ}
use muos.Common.Mem.{Mem}
use muos.Elf.{
  Ehdr, Load, Info, elf_phdr, segment_error, load_step, load_loop, valid_loop, elf_parse,
  elf_load_bias, elf_map_segments, elf32_validate, finish_load, entry_error, info_step, info_loop,
  first_info,
}

-- What the validation keeps of a loaded state.
abbrev pub loaded_part : ℤ ⊎ Load → ℤ ⊎ (ℕ × ℕ)
loaded_part (inl e) = inl e
loaded_part (inr s) = inr (s.max_end, s.loads)

valid_loop-load_loop :
    (n i : ℕ) (image : List ℕ) (eh : Ehdr) (bias base limit : ℕ) (s : Load)
    → valid_loop n i image eh bias base limit s.max_end s.loads
      ≡ loaded_part (load_loop n i image eh bias base limit s).1
unfolding valid_loop load_loop load_step
valid_loop-load_loop zero i image eh bias base limit s = refl
valid_loop-load_loop (suc n) i image eh bias base limit s =
    elim (Bool-cases ((elf_phdr image eh i).p_type == 1)) [
      | inr other ↦
          simp (valid_loop, load_loop, load_step, other)
            (valid_loop-load_loop n (i + 1) image eh bias base limit s)
      | inl seg ↦
          elim (Option-cases (
            segment_error image (elf_phdr image eh i) (u32 ((elf_phdr image eh i).p_vaddr + bias))
              base limit)) [
                | inr (e, bad) ↦ simp (valid_loop, load_loop, load_step, seg, bad) refl
                | inl good ↦
                    simp (valid_loop, load_loop, load_step, seg, good)
                      (valid_loop-load_loop n (i + 1) image eh bias base limit _)
              ]
    ]

-- The entry and the end of a program.
abbrev pub extent : ℤ ⊎ Info → ℤ ⊎ (ℕ × ℕ)
extent (inl e) = inl e
extent (inr info) = inr (info.entry, info.image_end)

info_loop-extent :
    (n i : ℕ) (image : List ℕ) (eh : Ehdr) (info : Info)
    → extent (inr (info_loop n i image eh info)) ≡ extent (inr info)
unfolding info_loop info_step
info_loop-extent zero i image eh info = refl
info_loop-extent (suc n) i image eh info =
    info_loop-extent n (i + 1) image eh (info_step image eh i info)

-- What follows the loops agrees.
finish_load-extent :
    (image : List ℕ) (eh : Ehdr) (bias base limit : ℕ) (s : Load)
    → elim (entry_error s.loads (u32 (eh.e_entry + bias)) base limit) as (λ x. ℤ ⊎ (ℕ × ℕ)) [
      | some e ↦ inl e
      | none ↦ inr (u32 (eh.e_entry + bias), s.max_end)
    ]
      ≡ extent (finish_load image eh bias base limit s)
unfolding finish_load
finish_load-extent image eh bias base limit s =
    go (entry_error s.loads (u32 (eh.e_entry + bias)) base limit)
  where
    entry : ℕ
    entry = u32 (eh.e_entry + bias)

    info : Info
    info = first_info eh entry s.max_end bias

    go :
        (r : Option ℤ)
        → elim r as (λ x. ℤ ⊎ (ℕ × ℕ)) [ some e ↦ inl e | none ↦ inr (entry, s.max_end) ]
          ≡ extent (elim r as (λ x. ℤ ⊎ Info) [
            | some e ↦ inl e
            | none ↦ inr (info_loop eh.e_phnum 0 image eh info)
          ])
    go none = sym (info_loop-extent eh.e_phnum 0 image eh info)
    go (some e) = refl

-- `elf32_validate` accepts exactly the images whose segments `elf_map_segments` loads, with the same
-- entry and end, and refuses the others with the same error, whatever the memory holds.
pub elf32_validate-elf_map_segments :
    (image : List ℕ) (base limit : ℕ) (m : Mem)
    → elf32_validate image base limit ≡ extent (elf_map_segments image base limit m).1
unfolding elf32_validate elf_map_segments
elf32_validate-elf_map_segments image base limit m = parsed (elf_parse image) refl
  where
    start : Load
    start = record { max_end = base; loads = 0; mem = m }

    looped :
        (eh : Ehdr)
        → elf_parse image ≡ inr eh
        → (r : Mem × (ℤ ⊎ Load))
        → load_loop eh.e_phnum 0 image eh (elf_load_bias image eh base) base limit start ≡ r
        → elf32_validate image base limit ≡ extent (elf_map_segments image base limit m).1
    looped eh h (m', inl e) l =
        let v =
          valid_loop-load_loop eh.e_phnum 0 image eh (elf_load_bias image eh base) base limit start
          ∙ ap (λ x. loaded_part x.1) l in
        simp (elf32_validate, elf_map_segments, h, l, v) refl
    looped eh h (m', inr s) l =
        let v : valid_loop eh.e_phnum 0 image eh (elf_load_bias image eh base) base limit base 0
            ≡ inr (s.max_end, s.loads) =
          valid_loop-load_loop eh.e_phnum 0 image eh (elf_load_bias image eh base) base limit start
          ∙ ap (λ x. loaded_part x.1) l in
        simp (elf32_validate, elf_map_segments, h, l, v)
          (finish_load-extent image eh (elf_load_bias image eh base) base limit s)

    parsed :
        (r : ℤ ⊎ Ehdr)
        → elf_parse image ≡ r
        → elf32_validate image base limit ≡ extent (elf_map_segments image base limit m).1
    parsed (inl e) h = simp (elf32_validate, elf_map_segments, h) refl
    parsed (inr eh) h = looped eh h _ refl
