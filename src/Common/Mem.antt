-- ===== src/Common/Mem.antt =====
-- Byte memory: a C array or a disk is the function from its indices to its bytes. `memcpy` into it
-- is `blit`, `memcpy` out of it is `slice`, `memset` is `fill`.
use muos.Common.{
  ℕ, zero, suc, ◌+◌, ◌-◌, ◌≤◌, ◌<◌, ◌≡◌, refl, ap, ap₂, ◌∙◌, ◌⊎◌, inl, inr, ◌&&◌, List, [], ◌∷◌,
  ◌++◌, take, drop, sym, replicate, length-replicate, arith, ltb, leb, if◌then◌else◌, length,
  get_or,
}

abbrev pub Mem : Type 0
Mem = ℕ → ℕ

-- Copies the bytes `src` to the addresses from `at` on.
unfoldable pub blit : Mem → ℕ → List ℕ → Mem
blit m at src i = if leb at i && ltb (i - at) (length src) then get_or src (i - at) 0 else m i

-- Sets `n` bytes from `at` on to `v`.
unfoldable pub fill : Mem → ℕ → ℕ → ℕ → Mem
fill m at v n i = if leb at i && ltb (i - at) n then v else m i

-- The `n` bytes from `at` on.
unfoldable pub slice : Mem → ℕ → ℕ → List ℕ
slice m at zero = []
slice m at (suc n) = m at ∷ slice m (at + 1) n

pub length-slice : (m : Mem) (at n : ℕ) → length (slice m at n) ≡ n
unfolding slice
length-slice m at zero = refl
length-slice m at (suc n) = omega (arith, length-slice m (at + 1) n)

pub slice-ext :
    (m k : Mem) (at n : ℕ)
    → ((i : ℕ) → at ≤ i → i < at + n → m i ≡ k i)
    → slice m at n ≡ slice k at n
unfolding slice
slice-ext m k at zero h = refl
slice-ext m k at (suc n) h =
    ap₂ ◌∷◌ (h at (omega arith) (omega arith))
      (slice-ext m k (at + 1) n (λ i p q. h i (omega arith) (omega arith)))

-- A slice is the list that has its bytes.
pub slice-eq :
    (m : Mem) (at : ℕ) (xs : List ℕ)
    → ((i : ℕ) → i < length xs → m (at + i) ≡ get_or xs i 0)
    → slice m at (length xs) ≡ xs
unfolding slice
slice-eq m at [] h = refl
slice-eq m at (x ∷ xs) h =
    ap₂ ◌∷◌ (ap m (omega arith) ∙ h 0 (omega arith))
      (slice-eq m (at + 1) xs (λ i p. ap m (omega arith) ∙ h (suc i) (omega arith)))

pub blit_at :
    (m : Mem) (at : ℕ) (src : List ℕ) (i : ℕ)
    → i < length src
    → blit m at src (at + i) ≡ get_or src i 0
unfolding blit
blit_at m at src i h = ground (arith, ap (λ k. get_or src k 0) (cancel at i))
  where
    cancel : (at i : ℕ) → at + i - at ≡ i
    cancel at i = omega arith

pub blit_out :
    (m : Mem) (at : ℕ) (src : List ℕ) (i : ℕ)
    → (i < at) ⊎ (at + length src ≤ i)
    → blit m at src i ≡ m i
unfolding blit
blit_out m at src i h = ground arith

-- What is written can be read back.
pub slice-blit_self :
    (m : Mem) (at : ℕ) (src : List ℕ) → slice (blit m at src) at (length src) ≡ src
slice-blit_self m at src = slice-eq (blit m at src) at src (blit_at m at src)

-- A write outside a range does not show in it.
pub slice-blit_out :
    (m : Mem) (at : ℕ) (src : List ℕ) (b n : ℕ)
    → (b + n ≤ at) ⊎ (at + length src ≤ b)
    → slice (blit m at src) b n ≡ slice m b n
slice-blit_out m at src b n h = slice-ext _ _ b n (λ i p q. blit_out m at src i (apart h i p q))
  where
    apart :
        (b + n ≤ at) ⊎ (at + length src ≤ b)
        → (i : ℕ) → b ≤ i
        → i < b + n
        → (i < at) ⊎ (at + length src ≤ i)
    apart (inl h) i p q = inl (omega arith)
    apart (inr h) i p q = inr (omega arith)

pub get_or-slice : (m : Mem) (at n i : ℕ) → i < n → get_or (slice m at n) i 0 ≡ m (at + i)
unfolding slice
get_or-slice m at zero i h = absurd (omega arith)
get_or-slice m at (suc n) zero h = ap m (omega arith)
get_or-slice m at (suc n) (suc i) h = get_or-slice m (at + 1) n i (omega arith) ∙ ap m (omega arith)

pub slice_ap : (m : Mem) (a b n k : ℕ) → a ≡ b → n ≡ k → slice m a n ≡ slice m b k
slice_ap m a b n k p q = ap₂ (λ a n. slice m a n) p q

-- A range in two parts, and the parts of a range.
pub slice-append : (m : Mem) (at n k : ℕ) → slice m at n ++ slice m (at + n) k ≡ slice m at (n + k)
unfolding slice
slice-append m at zero k = slice_ap m (at + 0) at k (0 + k) (omega arith) (omega arith)
slice-append m at (suc n) k =
    ap (λ l. m at ∷ l)
      (ap (λ l. slice m (at + 1) n ++ l)
          (slice_ap m (at + suc n) (at + 1 + n) k k (omega arith) refl)
        ∙ slice-append m (at + 1) n k)
    ∙ slice_ap m at at (suc (n + k)) (suc n + k) refl (omega arith)

pub take-slice : (m : Mem) (at n k : ℕ) → n ≤ k → take n (slice m at k) ≡ slice m at n
unfolding slice
take-slice m at zero k h = refl
take-slice m at (suc n) zero h = absurd (omega arith)
take-slice m at (suc n) (suc k) h = ap (λ l. m at ∷ l) (take-slice m (at + 1) n k (omega arith))

pub drop-slice : (m : Mem) (at n k : ℕ) → drop n (slice m at k) ≡ slice m (at + n) (k - n)
unfolding slice
drop-slice m at zero k = slice_ap m at (at + 0) k (k - 0) (omega arith) (omega arith)
drop-slice m at (suc n) zero = slice_ap m (at + suc n) (at + suc n) 0 (0 - suc n) refl (omega arith)
drop-slice m at (suc n) (suc k) =
    drop-slice m (at + 1) n k
    ∙ slice_ap m (at + 1 + n) (at + suc n) (k - n) (suc k - suc n) (omega arith) (omega arith)

get_or-replicate : (n v i : ℕ) → i < n → get_or (replicate n v) i 0 ≡ v
get_or-replicate zero v i h = absurd (omega arith)
get_or-replicate (suc n) v zero h = refl
get_or-replicate (suc n) v (suc i) h = get_or-replicate n v i (omega arith)

pub fill_at : (m : Mem) (at v n i : ℕ) → at ≤ i → i < at + n → fill m at v n i ≡ v
unfolding fill
fill_at m at v n i p q = ground arith

pub fill_out : (m : Mem) (at v n i : ℕ) → (i < at) ⊎ (at + n ≤ i) → fill m at v n i ≡ m i
unfolding fill
fill_out m at v n i h = ground arith

pub slice-fill_self : (m : Mem) (at v n : ℕ) → slice (fill m at v n) at n ≡ replicate n v
slice-fill_self m at v n =
    slice_ap _ at at n (length (replicate n v)) refl (sym (length-replicate n v))
    ∙ slice-eq (fill m at v n) at (replicate n v) (λ i p.
      fill_at m at v n (at + i) (omega arith) (omega (arith, length-replicate n v))
      ∙ sym (get_or-replicate n v i (omega (arith, length-replicate n v))))
