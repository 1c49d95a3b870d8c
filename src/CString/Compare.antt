-- ===== src/CString/Compare.antt =====
-- What the comparisons decide, and what a copied string reads back as.
use muos.Common.{
  ℕ, zero, suc, ◌≤◌, ◌<◌, ◌≡◌, ◌↔◌, refl, sym, ap, ◌∙◌, List, [], ◌∷◌, ◌++◌, arith, length, take,
  All, ◌==◌, if◌then◌else◌,
}
use muos.Common.Int.{pos}
use muos.CString.{strlen, strcmp, strncmp, strncpy}

-- The bytes of a C string: none is the NUL.
abbrev pub IsCString : List ℕ → Type 0
IsCString s = All (λ c. 0 < c) s

-- The string that an array of bytes holds.
abbrev pub cstr : List ℕ → List ℕ
cstr [] = []
cstr (c ∷ s) = if c == 0 then [] else c ∷ cstr s

pub strcmp_refl : (s : List ℕ) → strcmp s s ≡ pos 0
unfolding strcmp
strcmp_refl [] = refl
strcmp_refl (c ∷ s) = ground (arith, strcmp_refl s)

pub strcmp-eq : (s t : List ℕ) → IsCString s → IsCString t → strcmp s t ≡ pos 0 → s ≡ t
unfolding strcmp
strcmp-eq [] [] hs ht e = refl
strcmp-eq [] (b ∷ t) hs ht e = ground arith
strcmp-eq (a ∷ s) [] hs ht e = ground arith
strcmp-eq (a ∷ s) (b ∷ t) hs ht e = ground (arith, strcmp-eq s t hs.1 ht.1)

-- `strcmp` returns 0 for equal strings and for no others.
pub strcmp_zero : (s t : List ℕ) → IsCString s → IsCString t → (strcmp s t ≡ pos 0) ↔ (s ≡ t)
strcmp_zero s t hs ht = (strcmp-eq s t hs ht, λ e. ap (strcmp s) {y = s} (sym e) ∙ strcmp_refl s)

-- `strncmp` returns 0 exactly where the strings agree up to `n` bytes or the end.
pub strncmp_zero :
    (n : ℕ) (s t : List ℕ)
    → IsCString s
    → IsCString t
    → (strncmp s t n ≡ pos 0) ↔ (take n s ≡ take n t)
unfolding strncmp
strncmp_zero zero s t hs ht = (λ e. refl, λ e. refl)
strncmp_zero (suc n) [] [] hs ht = (λ e. refl, λ e. refl)
strncmp_zero (suc n) [] (b ∷ t) hs ht = ground arith
strncmp_zero (suc n) (a ∷ s) [] hs ht = ground arith
strncmp_zero (suc n) (a ∷ s) (b ∷ t) hs ht =
    let rest = strncmp_zero n s t hs.1 ht.1 in
    (λ e. ground (arith, rest.0), λ e. ground (arith, rest.1 (ap tail e), ap head e))
  where
    head : List ℕ → ℕ
    head [] = 0
    head (c ∷ u) = c

    tail : List ℕ → List ℕ
    tail [] = []
    tail (c ∷ u) = u

pub length-strncpy : (s : List ℕ) (n : ℕ) → length (strncpy s n) ≡ n
unfolding strncpy
length-strncpy s zero = refl
length-strncpy [] (suc n) = ap suc (length-strncpy [] n)
length-strncpy (c ∷ s) (suc n) = ap suc (length-strncpy s n)

cstr_zeros : (n : ℕ) → cstr (strncpy [] n ++ (0 ∷ [])) ≡ []
unfolding strncpy
cstr_zeros zero = refl
cstr_zeros (suc n) = refl

-- A string that is copied with room for it, and closed by a NUL, is read back.
pub cstr-strncpy :
    (s : List ℕ) (n : ℕ) → IsCString s → length s ≤ n → cstr (strncpy s n ++ (0 ∷ [])) ≡ s
unfolding strncpy
cstr-strncpy [] zero hs h = refl
cstr-strncpy [] (suc n) hs h = refl
cstr-strncpy (c ∷ s) zero hs h = absurd (omega arith)
cstr-strncpy (c ∷ s) (suc n) hs h = ground (arith, cstr-strncpy s n hs.1)

pub strlen-length : (s : List ℕ) → strlen s ≡ length s
unfolding strlen
strlen-length [] = refl
strlen-length (c ∷ s) = ap suc (strlen-length s)
