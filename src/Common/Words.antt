-- ===== src/Common/Words.antt =====
-- Little-endian words in bytes.
use muos.Common.{
  ℕ, zero, suc, ◌+◌, ◌*◌, ◌/◌, ◌%◌, ◌^◌, ◌<◌, ◌≡◌, refl, ap, ◌∙◌, List, [], ◌∷◌, length, arith,
}

-- The `n` bytes of a number.
unfoldable pub le : ℕ → ℕ → List ℕ
le zero v = []
le (suc n) v = v % 256 ∷ le n (v / 256)

unfoldable pub le_value : List ℕ → ℕ
le_value [] = 0
le_value (c ∷ cs) = c + 256 * le_value cs

pub length-le : (n v : ℕ) → length (le n v) ≡ n
unfolding le
length-le zero v = refl
length-le (suc n) v = ap suc (length-le n (v / 256))

-- The bytes of a number that fits have its value.
pub le_value-le : (n v : ℕ) → v < 256 ^ n → le_value (le n v) ≡ v
unfolding le le_value
le_value-le zero v h = omega arith
le_value-le (suc n) v h =
    ap (λ k. v % 256 + 256 * k) (le_value-le n (v / 256) (quotient v (256 ^ n) (omega (arith, h))))
    ∙ omega arith
  where
    quotient : (v k : ℕ) → v < 256 * k → v / 256 < k
    quotient v k h = omega arith
