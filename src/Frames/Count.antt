-- ===== src/Frames/Count.antt =====
-- The free count is the number of the bitmap's free frames.
use native.Mathlib.Decide.{ℕ_discrete}
use muos.Common.{
  ℕ, zero, suc, ◌*◌, ◌≤◌, ◌<◌, ◌≡◌, ◌≢◌, refl, ap, ◌⊎◌, inl, inr, Bool, true, false, ltb, leb,
  if◌then◌else◌, arith, Option-cases, Bool-cases, subst⁻¹, subst, ==_ne, ==_refl,
}
use muos.Frames.{
  Frames, page_size, set_bit, set_ref, bitmap_find_first_free, mm_alloc_page, one_less, page_unref,
}
use muos.Frames.First.{Full, IsFirst, bitmap_find_first_free-IsFirst}

-- How many of the first `n` frames are free.
unfoldable pub free_below : ℕ → (ℕ → Bool) → ℕ
free_below zero used = 0
free_below (suc n) used = let rest = free_below n used in if used n then rest else suc rest

-- The free count is that of the bitmap.
abbrev pub IsCounted : Frames → Type 0
IsCounted s = s.free ≡ free_below s.total s.used

free_below-above :
    (n f : ℕ) (v : Bool) (used : ℕ → Bool)
    → n ≤ f
    → free_below n (set_bit f v used) ≡ free_below n used
unfolding free_below set_bit
free_below-above zero f v used h = refl
free_below-above (suc n) f v used h =
    rw (==_ne n f (omega arith), free_below-above n f v used (omega arith)) refl

free_below-set :
    (n f : ℕ) (used : ℕ → Bool)
    → f < n
    → used f ≡ false
    → suc (free_below n (set_bit f true used)) ≡ free_below n used
unfolding free_below set_bit
free_below-set zero f used h u = absurd (omega arith)
free_below-set (suc n) f used h u = elim (ℕ_discrete n f) [
  | yes e ↦ rw (e, ==_refl f, u, free_below-above f f true used (omega arith)) refl
  | no e ↦
      let ih = free_below-set n f used (omega arith) u in
      rw (==_ne n f e) (elim (Bool-cases (used n)) [ inl k ↦ rw k ih | inr k ↦ rw k (ap suc ih) ])
]

free_below-clear :
    (n f : ℕ) (used : ℕ → Bool)
    → f < n
    → used f ≡ true
    → free_below n (set_bit f false used) ≡ suc (free_below n used)
unfolding free_below set_bit
free_below-clear zero f used h u = absurd (omega arith)
free_below-clear (suc n) f used h u = elim (ℕ_discrete n f) [
  | yes e ↦ rw (e, ==_refl f, u, free_below-above f f false used (omega arith)) refl
  | no e ↦
      let ih = free_below-clear n f used (omega arith) u in
      rw (==_ne n f e) (elim (Bool-cases (used n)) [ inl k ↦ rw k ih | inr k ↦ rw k (ap suc ih) ])
]

leb-false : (a b : ℕ) → leb a b ≡ false → b < a
leb-false a b h = ground arith

set_bit_self : (f : ℕ) (v : Bool) (used : ℕ → Bool) → set_bit f v used f ≡ v
unfolding set_bit
set_bit_self f v used = rw (==_refl f) refl

set_bit_other : (f g : ℕ) (v : Bool) (used : ℕ → Bool) → g ≢ f → set_bit f v used g ≡ used g
unfolding set_bit
set_bit_other f g v used h = rw (==_ne g f h) refl

-- What `mm_alloc_page` did: it took the lowest free frame, which now has one reference, or there was
-- none.
pub record Taken (s : Frames) (f : ℕ) (s' : Frames) : Type 0 where
  pub inside : f < s.total
  pub was_free : s.used f ≡ false
  pub lowest : Full s 0 f
  pub now_used : s'.used f ≡ true
  pub one_ref : s'.refs f ≡ 1
  pub others : (g : ℕ) → g ≢ f → (s'.used g ≡ s.used g) × (s'.refs g ≡ s.refs g)
  pub counted : suc s'.free ≡ s.free

abbrev pub Allocated : Frames → Frames × ℕ → Type 0
Allocated s (s', addr) =
    IsCounted s'
    × (((f : ℕ) × (addr ≡ f * page_size) × Taken s f s')
        ⊎ ((s' ≡ s) × (addr ≡ 0) × Full s 0 s.total))

abbrev after : ℕ → Frames → Frames
after f s = record s {
  used = set_bit f true s.used;
  refs = set_ref f 1 s.refs;
  free = one_less s.free;
}

after-Taken :
    (s : Frames) (f : ℕ)
    → IsCounted s
    → f < s.total
    → s.used f ≡ false
    → Full s 0 f
    → IsCounted (after f s) × Taken s f (after f s)
after-Taken s f c inside was_free lowest =
    let less = free_below-set s.total f s.used inside was_free in
    (
      ground (arith, less, c),
      record {
        inside = inside;
        was_free = was_free;
        lowest = lowest;
        now_used = set_bit_self f true s.used;
        one_ref = rw (==_refl f) refl;
        others = λ g ne. (set_bit_other f g true s.used ne, rw (==_ne g f ne) refl);
        counted = ground (arith, less, c);
      },
    )

-- Where the free count is right, `mm_alloc_page` takes the lowest free frame and counts it, or every
-- frame is in use, and it returns `NULL` and changes nothing; the free count stays right.
pub mm_alloc_page-Allocated : (s : Frames) → IsCounted s → Allocated s (mm_alloc_page s)
unfolding mm_alloc_page
mm_alloc_page-Allocated s c = elim (Option-cases (bitmap_find_first_free s)) [
  | inl e ↦
      subst⁻¹ (Allocated s) {x = mm_alloc_page s} {y = (s, 0)} (rw (mm_alloc_page, e) refl)
        (c, inr (refl, refl, subst (IsFirst s 0) e (bitmap_find_first_free-IsFirst s)))
  | inr (f, e) ↦
      let (inside, was_free, z, lowest) =
        subst (IsFirst s 0) e (bitmap_find_first_free-IsFirst s) in
      let (counted, taken) = after-Taken s f c inside was_free lowest in
      subst⁻¹ (Allocated s) {x = mm_alloc_page s} {y = (after f s, f * page_size)}
        (rw (mm_alloc_page, e) refl) (counted, inl (f, refl, taken))
]

-- Dropping a reference keeps the free count right.
pub page_unref-IsCounted : (pfn : ℕ) (s : Frames) → IsCounted s → IsCounted (page_unref pfn s)
unfolding page_unref
page_unref-IsCounted pfn s c = elim (Bool-cases (leb s.total pfn)) [
  | inl e ↦ rw (page_unref, e) c
  | inr e ↦ elim (Bool-cases (ltb 1 (s.refs pfn))) [
    | inl k ↦ simp (page_unref, e, k) c
    | inr k ↦ elim (Bool-cases (s.used pfn)) [
      | inr u ↦ simp (page_unref, e, k, u) c
      | inl u ↦
          simp (page_unref, e, k, u)
            (omega (arith, c, free_below-clear s.total pfn s.used (leb-false s.total pfn e) u))
    ]
  ]
]
