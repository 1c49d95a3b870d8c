-- ===== src/Elf/Tests.antt =====
-- An image that is refused and one that is loaded, and the theorems at them.
use muos.Common.{ℕ, ◌≡◌, refl, inr, List, [], ◌∷◌, ◌++◌, replicate, arith}
use muos.Common.Words.{le_value}
use muos.Elf.{
  elf_parse, elf_load_bias, lowest_from, elf_phdr, is_power_of_two, power_below, segment_error,
  elf32_validate, valid_loop, elf_map_segments,
}
use muos.Elf.Reloc.{elf32_load_ex}
use muos.Elf.Reloc.Confined.{elf32_load_ex-Inside}
use muos.Elf.Sandbox.{Inside}
use muos.Elf.Validate.{extent, elf32_validate-elf_map_segments}

-- One segment of 4 bytes in the file and 8 in memory, at 0x1000.
abbrev image : List ℕ
image =
    (0x7F ∷ 0x45 ∷ 0x4C ∷ 0x46 ∷ 1 ∷ 1 ∷ 1 ∷ replicate 9 0)
    ++ (2 ∷ 0 ∷ 3 ∷ 0 ∷ 1 ∷ 0 ∷ 0 ∷ 0 ∷ 0 ∷ 0x10 ∷ 0 ∷ 0 ∷ 52 ∷ 0 ∷ 0 ∷ 0 ∷ replicate 8 0)
    ++ (52 ∷ 0 ∷ 32 ∷ 0 ∷ 1 ∷ 0 ∷ replicate 6 0)
    ++ (1 ∷ 0 ∷ 0 ∷ 0 ∷ 84 ∷ 0 ∷ 0 ∷ 0 ∷ 0 ∷ 0x10 ∷ 0 ∷ 0 ∷ 0 ∷ 0x10 ∷ 0 ∷ 0 ∷ [])
    ++ (4 ∷ 0 ∷ 0 ∷ 0 ∷ 8 ∷ 0 ∷ 0 ∷ 0 ∷ 5 ∷ 0 ∷ 0 ∷ 0 ∷ 0 ∷ 0x10 ∷ 0 ∷ 0 ∷ [])
    ++ (0x90 ∷ 0x90 ∷ 0x90 ∷ 0xC3 ∷ [])

valid : elf32_validate image 0x1000 0x2000 ≡ inr (0x1000, 0x1008)
unfolding elf32_validate elf_parse elf_load_bias lowest_from valid_loop elf_phdr segment_error
    is_power_of_two power_below le_value
valid = refl

elf32_load_ex-Inside_example :
    Inside 0x1000 0x2000 (λ a. 1) (elf32_load_ex image 0x1000 0x2000 (λ a. 1)).0
elf32_load_ex-Inside_example =
    elf32_load_ex-Inside image 0x1000 0x2000 (λ a. 1) (omega arith) (omega arith)

elf32_validate-elf_map_segments_example :
    elf32_validate image 0x1000 0x2000 ≡ extent (elf_map_segments image 0x1000 0x2000 (λ a. 1)).1
elf32_validate-elf_map_segments_example =
    elf32_validate-elf_map_segments image 0x1000 0x2000 (λ a. 1)
