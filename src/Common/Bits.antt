-- ===== src/Common/Bits.antt =====
-- The bits of an unsigned number: `v & (1u << i)`, `v | (1u << i)` and `v & ~(1u << i)`.
use muos.Common.{
  ℕ, zero, suc, ◌+◌, ◌*◌, ◌/◌, ◌%◌, ◌≢◌, ◌≡◌, refl, ap, ◌∙◌, Bool, true, false, ◌==◌, arith,
}

unfoldable pub bit_at : ℕ → ℕ → Bool
bit_at zero v = v % 2 == 1
bit_at (suc i) v = bit_at i (v / 2)

unfoldable pub bit_set : ℕ → ℕ → ℕ
bit_set zero v = v / 2 * 2 + 1
bit_set (suc i) v = bit_set i (v / 2) * 2 + v % 2

unfoldable pub bit_clear : ℕ → ℕ → ℕ
bit_clear zero v = v / 2 * 2
bit_clear (suc i) v = bit_clear i (v / 2) * 2 + v % 2

half : (a b : ℕ) → (a * 2 + b % 2) / 2 ≡ a
half a b = omega arith

pub bit_at-set_self : (i v : ℕ) → bit_at i (bit_set i v) ≡ true
unfolding bit_at bit_set
bit_at-set_self zero v = ground arith
bit_at-set_self (suc i) v = ap (bit_at i) (half (bit_set i (v / 2)) v) ∙ bit_at-set_self i (v / 2)

pub bit_at-clear_self : (i v : ℕ) → bit_at i (bit_clear i v) ≡ false
unfolding bit_at bit_clear
bit_at-clear_self zero v = ground arith
bit_at-clear_self (suc i) v =
    ap (bit_at i) (half (bit_clear i (v / 2)) v) ∙ bit_at-clear_self i (v / 2)

pub bit_at-set_ne : (i j v : ℕ) → i ≢ j → bit_at j (bit_set i v) ≡ bit_at j v
unfolding bit_at bit_set
bit_at-set_ne zero zero v h = absurd (h refl)
bit_at-set_ne zero (suc j) v h = ap (bit_at j) (omega arith)
bit_at-set_ne (suc i) zero v h = ap (λ k. k == 1) (omega arith)
bit_at-set_ne (suc i) (suc j) v h =
    ap (bit_at j) (half (bit_set i (v / 2)) v) ∙ bit_at-set_ne i j (v / 2) (λ e. h (ap suc e))

pub bit_at-clear_ne : (i j v : ℕ) → i ≢ j → bit_at j (bit_clear i v) ≡ bit_at j v
unfolding bit_at bit_clear
bit_at-clear_ne zero zero v h = absurd (h refl)
bit_at-clear_ne zero (suc j) v h = ap (bit_at j) (omega arith)
bit_at-clear_ne (suc i) zero v h = ap (λ k. k == 1) (omega arith)
bit_at-clear_ne (suc i) (suc j) v h =
    ap (bit_at j) (half (bit_clear i (v / 2)) v) ∙ bit_at-clear_ne i j (v / 2) (λ e. h (ap suc e))

pub bit_set_same : (i v : ℕ) → bit_at i v ≡ true → bit_set i v ≡ v
unfolding bit_at bit_set
bit_set_same zero v h = ground arith
bit_set_same (suc i) v h = ap (λ k. k * 2 + v % 2) (bit_set_same i (v / 2) h) ∙ omega arith

pub bit_clear_same : (i v : ℕ) → bit_at i v ≡ false → bit_clear i v ≡ v
unfolding bit_at bit_clear
bit_clear_same zero v h = ground arith
bit_clear_same (suc i) v h = ap (λ k. k * 2 + v % 2) (bit_clear_same i (v / 2) h) ∙ omega arith
