-- ===== src/CString.antt =====
-- The string and memory functions of src/string.c. A C string is the list of its bytes before the
-- NUL, a byte buffer the list of its bytes, and `memmove` works on a memory by address.
pub mod Compare
pub mod Move
pub mod Decimal
mod Tests
use muos.Common.{
  ℕ, zero, suc, ◌+◌, ◌-◌, ◌/◌, ◌%◌, Bool, List, [], ◌∷◌, ◌++◌, length, ltb, ◌==◌, if◌then◌else◌,
}
use muos.Common.Int.{ℤ, pos, sub_ℕ}
use muos.Common.Mem.{Mem}

-- `memset`: `count` bytes of the value.
pub memset : ℕ → ℕ → ℕ → Mem → Mem
memset dst value zero m = m
memset dst value (suc count) m =
    memset (dst + 1) value count (λ i. if i == dst then value % 256 else m i)

-- The ascending loop of `memcpy` and `memmove`.
pub copy_up : ℕ → ℕ → ℕ → Mem → Mem
copy_up d s zero m = m
copy_up d s (suc count) m = copy_up (d + 1) (s + 1) count (λ i. if i == d then m s else m i)

pub memcpy : ℕ → ℕ → ℕ → Mem → Mem
memcpy dst src count m = copy_up dst src count m

-- The descending loop of `memmove`, which copies the last byte first.
pub copy_down : ℕ → ℕ → ℕ → Mem → Mem
copy_down d s zero m = m
copy_down d s (suc count) m =
    copy_down d s count (λ i. if i == d + count then m (s + count) else m i)

pub memmove : ℕ → ℕ → ℕ → Mem → Mem
memmove dst src count m = if ltb dst src then copy_up dst src count m else copy_down dst src count m

pub memcmp : ℕ → ℕ → ℕ → Mem → ℤ
memcmp a b zero m = pos 0
memcmp a b (suc count) m =
    let rest = memcmp (a + 1) (b + 1) count m in if m a == m b then rest else sub_ℕ (m a) (m b)

pub strlen : List ℕ → ℕ
strlen [] = 0
strlen (c ∷ s) = suc (strlen s)

pub strcmp : List ℕ → List ℕ → ℤ
strcmp [] [] = pos 0
strcmp [] (b ∷ t) = sub_ℕ 0 b
strcmp (a ∷ s) [] = pos a
strcmp (a ∷ s) (b ∷ t) = if a == b then strcmp s t else sub_ℕ a b

pub strncmp : List ℕ → List ℕ → ℕ → ℤ
strncmp s t zero = pos 0
strncmp [] [] (suc n) = pos 0
strncmp [] (b ∷ t) (suc n) = sub_ℕ 0 b
strncmp (a ∷ s) [] (suc n) = pos a
strncmp (a ∷ s) (b ∷ t) (suc n) = if a == b then strncmp s t n else sub_ℕ a b

-- The `n` bytes that `strncpy` writes: those of the string, then zeros.
pub strncpy : List ℕ → ℕ → List ℕ
strncpy s zero = []
strncpy [] (suc n) = 0 ∷ strncpy [] n
strncpy (c ∷ s) (suc n) = c ∷ strncpy s n

-- The first loop of `u32_to_dec`: the digits in `tmp`, lowest first. A 32-bit value has ten at most.
pub low_digits : ℕ → ℕ → List ℕ
low_digits zero value = []
low_digits (suc f) value =
    let rest = low_digits f (value / 10) in if value == 0 then [] else (b'0' + value % 10) ∷ rest

-- The second loop copies `tmp` from its end.
pub copy_back : List ℕ → List ℕ
copy_back [] = []
copy_back (c ∷ tmp) = copy_back tmp ++ (c ∷ [])

pub u32_to_dec : ℕ → List ℕ
u32_to_dec value = if value == 0 then b'0' ∷ [] else copy_back (low_digits 10 value)
