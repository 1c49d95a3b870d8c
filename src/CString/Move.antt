-- ===== src/CString/Move.antt =====
-- `memcpy`, `memmove` and `memset` against copies of whole ranges.
use muos.Common.{
  ℕ, zero, suc, ◌+◌, ◌-◌, ◌%◌, ◌≤◌, ◌≡◌, ◌⊎◌, inl, inr, ◌&&◌, arith, ltb, leb, ◌==◌, if◌then◌else◌,
  Bool-cases, ltb→lt, ltb-false,
}
use muos.Common.Mem.{Mem, fill}
use muos.CString.{memset, copy_up, copy_down, memmove, memcpy}

-- The `n` bytes at `d` are those that the memory had at `s`.
abbrev pub moved : ℕ → ℕ → ℕ → Mem → Mem
moved d s n m i = if leb d i && ltb (i - d) n then m (s + (i - d)) else m i

copy_up-moved :
    (d s n : ℕ) (m : Mem) (i : ℕ) → (d ≤ s) ⊎ (s + n ≤ d) → copy_up d s n m i ≡ moved d s n m i
unfolding copy_up
copy_up-moved d s zero m i h = ground arith
copy_up-moved d s (suc n) m i h =
    ground (arith, copy_up-moved (d + 1) (s + 1) n (λ i. if i == d then m s else m i) i (later h))
  where
    later : (d ≤ s) ⊎ (s + suc n ≤ d) → (d + 1 ≤ s + 1) ⊎ (s + 1 + n ≤ d + 1)
    later (inl e) = inl (omega arith)
    later (inr e) = inr (omega arith)

copy_down-moved : (d s n : ℕ) (m : Mem) (i : ℕ) → s ≤ d → copy_down d s n m i ≡ moved d s n m i
unfolding copy_down
copy_down-moved d s zero m i h = ground arith
copy_down-moved d s (suc n) m i h =
    ground (arith, copy_down-moved d s n (λ i. if i == d + n then m (s + n) else m i) i h)

-- `memmove` copies the range also where source and destination overlap, either way round.
pub memmove-moved : (d s n : ℕ) (m : Mem) (i : ℕ) → memmove d s n m i ≡ moved d s n m i
unfolding memmove
memmove-moved d s n m i = elim (Bool-cases (ltb d s)) [
  | inl e ↦ rw e (copy_up-moved d s n m i (inl (omega (arith, ltb→lt d s e))))
  | inr e ↦ rw e (copy_down-moved d s n m i (ltb-false d s e))
]

-- `memcpy` does so where the destination does not begin inside the source.
pub memcpy-moved :
    (d s n : ℕ) (m : Mem) (i : ℕ) → (d ≤ s) ⊎ (s + n ≤ d) → memcpy d s n m i ≡ moved d s n m i
unfolding memcpy
memcpy-moved d s n m i h = copy_up-moved d s n m i h

-- `memset` sets the range to the value's low byte and nothing else.
pub memset-fill : (d v n : ℕ) (m : Mem) (i : ℕ) → memset d v n m i ≡ fill m d (v % 256) n i
unfolding memset fill
memset-fill d v zero m i = ground arith
memset-fill d v (suc n) m i =
    ground (arith, memset-fill (d + 1) v n (λ i. if i == d then v % 256 else m i) i)
