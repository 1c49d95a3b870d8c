-- ===== src/CString/Tests.antt =====
-- Runs of src/string.c, and the theorems at them.
use muos.Common.{ℕ, ◌≡◌, ◌≤◌, refl, List, [], ◌∷◌, arith, All, length}
use muos.Common.Int.{pos, negsuc}
use muos.Common.Mem.{Mem}
use muos.CString.{strcmp, strncmp, memmove, memcmp, copy_down, low_digits, copy_back, u32_to_dec}
use muos.CString.Move.{moved, memmove-moved}
use muos.CString.Decimal.{value, IsDigit, u32_to_dec-value}

abbrev word : List ℕ
word = b'd' ∷ b'e' ∷ b'v' ∷ []

abbrev memory : Mem
memory i = i

runs :
    (strcmp word (b'd' ∷ []) ≡ pos b'e')
    × (strncmp word (b'd' ∷ b'x' ∷ []) 1 ≡ pos 0)
    × (memmove 3 1 4 memory 5 ≡ 3)
    × (memcmp 1 2 3 memory ≡ negsuc 0)
    × (u32_to_dec 4096 ≡ b'4' ∷ b'0' ∷ b'9' ∷ b'6' ∷ [])
unfolding strcmp strncmp memmove memcmp u32_to_dec copy_down copy_back low_digits
runs = (refl, refl, refl, refl, refl)

memmove-moved_example : memmove 3 1 4 memory 5 ≡ moved 3 1 4 memory 5
memmove-moved_example = memmove-moved 3 1 4 memory 5

u32_to_dec-value_example :
    (value (u32_to_dec 4096) ≡ 4096)
    × All IsDigit (u32_to_dec 4096)
    × (length (u32_to_dec 4096) ≤ 10)
u32_to_dec-value_example = u32_to_dec-value 4096 (omega arith)
