-- ===== src/CString/Decimal.antt =====
-- Decimal printing by `u32_to_dec`.
use native.Mathlib.Nat.{pow-suc}
use native.Mathlib.Decide.{ℕ_discrete}
use muos.Common.{
  ==_ne, ℕ, zero, suc, ◌+◌, ◌-◌, ◌*◌, ◌/◌, ◌^◌, ◌≤◌, ◌<◌, ◌≡◌, refl, ap, ◌∙◌, List, [], ◌∷◌, ◌++◌,
  arith, All, ◌==◌, Bool-cases, inl, inr, length, length-append,
}
use muos.CString.{low_digits, copy_back, u32_to_dec}

-- The number that a decimal text stands for, after the digits that make `acc`.
unfoldable pub value_from : ℕ → List ℕ → ℕ
value_from acc [] = acc
value_from acc (c ∷ cs) = value_from (acc * 10 + (c - b'0')) cs

abbrev pub value : List ℕ → ℕ
value cs = value_from 0 cs

low_value : List ℕ → ℕ
low_value [] = 0
low_value (c ∷ cs) = low_value cs * 10 + (c - b'0')

value_from-append :
    (acc c : ℕ) (cs : List ℕ)
    → value_from acc (cs ++ (c ∷ [])) ≡ value_from acc cs * 10 + (c - b'0')
unfolding value_from
value_from-append acc c [] = refl
value_from-append acc c (d ∷ cs) = value_from-append (acc * 10 + (d - b'0')) c cs

value-copy_back : (cs : List ℕ) → value (copy_back cs) ≡ low_value cs
unfolding copy_back low_value value_from
value-copy_back [] = refl
value-copy_back (c ∷ cs) =
    value_from-append 0 c (copy_back cs) ∙ ap (λ v. v * 10 + (c - b'0')) (value-copy_back cs)

low_value-low_digits : (f v : ℕ) → v < 10 ^ f → low_value (low_digits f v) ≡ v
unfolding low_value low_digits
low_value-low_digits zero v h = omega arith
low_value-low_digits (suc f) v h = elim (ℕ_discrete v 0) [
  | yes z ↦ ground arith
  | no n ↦
      let ih = low_value-low_digits f (v / 10) (omega (arith, pow-suc 10 f)) in
      rw (==_ne v 0 n, ih) (omega arith)
]

abbrev pub IsDigit : ℕ → Type 0
IsDigit c = (b'0' ≤ c) × (c ≤ b'9')

low_digits-IsDigit : (f v : ℕ) → All IsDigit (low_digits f v)
unfolding low_digits
low_digits-IsDigit zero v = tt
low_digits-IsDigit (suc f) v = elim (Bool-cases (v == 0)) [
  | inl e ↦ rw e tt
  | inr e ↦ rw e ((omega arith, omega arith), low_digits-IsDigit f (v / 10))
]

length-low_digits : (f v : ℕ) → length (low_digits f v) ≤ f
unfolding low_digits
length-low_digits zero v = omega arith
length-low_digits (suc f) v = ground (arith, length-low_digits f (v / 10))

length-copy_back : (cs : List ℕ) → length (copy_back cs) ≡ length cs
unfolding copy_back
length-copy_back [] = refl
length-copy_back (c ∷ cs) =
    omega (arith, length-append (copy_back cs) (c ∷ []), length-copy_back cs)

All-append : (xs ys : List ℕ) → All IsDigit xs → All IsDigit ys → All IsDigit (xs ++ ys)
All-append [] ys h k = k
All-append (x ∷ xs) ys h k = (h.0, All-append xs ys h.1 k)

copy_back-IsDigit : (cs : List ℕ) → All IsDigit cs → All IsDigit (copy_back cs)
unfolding copy_back
copy_back-IsDigit [] h = tt
copy_back-IsDigit (c ∷ cs) h =
    All-append (copy_back cs) (c ∷ []) (copy_back-IsDigit cs h.1) (h.0, tt)

-- `u32_to_dec` writes at most ten characters, all decimal digits, whose value is the number.
pub u32_to_dec-value :
    (v : ℕ)
    → v < 2 ^ 32
    → (value (u32_to_dec v) ≡ v) × All IsDigit (u32_to_dec v) × (length (u32_to_dec v) ≤ 10)
unfolding u32_to_dec value_from
u32_to_dec-value v h = elim (ℕ_discrete v 0) [
  | yes z ↦ rw z (refl, ((omega arith, omega arith), tt), omega arith)
  | no n ↦ rw (==_ne v 0 n) (
    value-copy_back (low_digits 10 v) ∙ low_value-low_digits 10 v (omega arith),
    copy_back-IsDigit (low_digits 10 v) (low_digits-IsDigit 10 v),
    omega (arith, length-copy_back (low_digits 10 v), length-low_digits 10 v),
  )
]
