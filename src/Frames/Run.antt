-- ===== src/Frames/Run.antt =====
-- `mm_alloc_pages` finds the first run of free frames that is long enough.
use muos.Common.{
  ℕ, zero, suc, ◌+◌, ◌≤◌, ◌<◌, ◌≡◌, refl, ap, ◌∙◌, inl, inr, true, false, Option, none, some, ltb,
  ◌==◌, arith, Option-cases, Bool-cases, ltb-false, ltb→lt, subst⁻¹, subst,
}
use muos.Frames.{Frames, first_used, find_run}

-- `count` frames from `start` on are free.
pub record IsRun (s : Frames) (count start : ℕ) : Type 0 where
  pub inside : start + count ≤ s.total
  pub free : (g : ℕ) → start ≤ g → g < start + count → s.used g ≡ false

abbrev Blocked : Frames → ℕ → ℕ → ℕ → Option ℕ → Type 0
Blocked s start i end none = (g : ℕ) → start + i ≤ g → g < start + end → s.used g ≡ false
Blocked s start i end (some k) = (i ≤ k) × (k < end) × (s.used (start + k) ≡ true)

first_used-Blocked :
    (n i end start : ℕ) (s : Frames) → i + n ≡ end → Blocked s start i end (first_used n i start s)
unfolding first_used
first_used-Blocked zero i end start s h = λ g p q. absurd (omega arith)
first_used-Blocked (suc n) i end start s h = elim (Bool-cases (s.used (start + i))) [
  | inl e ↦
      subst⁻¹ (Blocked s start i end) {x = first_used (suc n) i start s} {y = some i}
        (rw (first_used, e) refl) (omega arith, omega arith, e)
  | inr e ↦
      subst⁻¹ (Blocked s start i end) {x = first_used (suc n) i start s}
        {y = first_used n (i + 1) start s} (rw (first_used, e) refl)
        (free_here (first_used n (i + 1) start s) e
          (first_used-Blocked n (i + 1) end start s (omega arith)))
]
  where
    free_here :
        (r : Option ℕ)
        → s.used (start + i) ≡ false
        → Blocked s start (i + 1) end r
        → Blocked s start i end r
    free_here none e b = λ g p q. elim (Bool-cases (g == start + i)) [
      | inl k ↦ ap s.used {y = start + i} (ground arith) ∙ e
      | inr k ↦ b g (ground arith) q
    ]
    free_here (some k) e (p, q, r) = (omega arith, q, r)

-- The first run from `start` on, or none where there is none.
abbrev pub IsFirstRun : Frames → ℕ → ℕ → Option ℕ → Type 0
IsFirstRun s count start none = (t : ℕ) → start ≤ t → IsRun s count t → ⊥
IsFirstRun s count start (some a) =
    (start ≤ a) × IsRun s count a × ((t : ℕ) → start ≤ t → t < a → IsRun s count t → ⊥)

-- A run cannot begin at or before a used frame that it would reach.
blocked :
    (s : Frames) (count start k t : ℕ)
    → k < count
    → s.used (start + k) ≡ true
    → start ≤ t
    → t ≤ start + k
    → IsRun s count t
    → ⊥
blocked s count start k t lt u p q run = let f = run.free (start + k) q (omega arith) in cc

skip :
    (s : Frames) (count start k : ℕ) (r : Option ℕ)
    → k < count
    → s.used (start + k) ≡ true
    → IsFirstRun s count (start + k + 1) r
    → IsFirstRun s count start r
skip s count start k none lt u h = λ t p run. elim (Bool-cases (ltb (start + k) t)) [
  | inl e ↦ h t (omega (arith, ltb→lt (start + k) t e)) run
  | inr e ↦ blocked s count start k t lt u p (ltb-false (start + k) t e) run
]
skip s count start k (some a) lt u (p', q', h) = (
  omega arith,
  q',
  λ t p q run. elim (Bool-cases (ltb (start + k) t)) [
    | inl e ↦ h t (omega (arith, ltb→lt (start + k) t e)) q run
    | inr e ↦ blocked s count start k t lt u p (ltb-false (start + k) t e) run
  ],
)

find_run-IsFirstRun :
    (fuel start count : ℕ) (s : Frames)
    → s.total < start + fuel
    → 0 < count
    → IsFirstRun s count start (find_run fuel start count s)
unfolding find_run
find_run-IsFirstRun zero start count s h c = λ t p run. absurd (omega (arith, run.inside))
find_run-IsFirstRun (suc fuel) start count s h c = elim (Bool-cases (ltb s.total (start + count))) [
  | inl e ↦
      subst⁻¹ (IsFirstRun s count start) {x = find_run (suc fuel) start count s} {y = none}
        (rw (find_run, e) refl)
        (λ t p run. absurd (omega (arith, run.inside, ltb→lt s.total (start + count) e)))
  | inr e ↦ elim (Option-cases (first_used count 0 start s)) [
    | inl k ↦
        let b =
          subst (Blocked s start 0 count) k
            (first_used-Blocked count 0 count start s (omega arith)) in
        subst⁻¹ (IsFirstRun s count start) {x = find_run (suc fuel) start count s} {y = some start}
          (rw (find_run, e, k) refl)
          (
            omega arith,
            record {
              inside = ltb-false s.total (start + count) e;
              free = λ g p q. b g (omega arith) q;
            },
            λ t p q run. absurd (omega arith),
          )
    | inr (i, k) ↦
        let (p, q, u) =
          subst (Blocked s start 0 count) k
            (first_used-Blocked count 0 count start s (omega arith)) in
        subst⁻¹ (IsFirstRun s count start) {x = find_run (suc fuel) start count s}
          {y = find_run fuel (start + i + 1) count s} (rw (find_run, e, k) refl)
          (skip s count start i (find_run fuel (start + i + 1) count s) q u
            (find_run-IsFirstRun fuel (start + i + 1) count s (omega arith) c))
  ]
]

-- The search with its skips ahead, over the whole memory, finds the lowest run of free frames that is
-- long enough, and fails only where there is none.
pub find_run-lowest :
    (count : ℕ) (s : Frames) → 0 < count → IsFirstRun s count 0 (find_run (suc s.total) 0 count s)
find_run-lowest count s c = find_run-IsFirstRun (suc s.total) 0 count s (omega arith) c
