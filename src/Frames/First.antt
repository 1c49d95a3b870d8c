-- ===== src/Frames/First.antt =====
-- `mm_alloc_page` hands out the lowest free frame, and the free count stays right.
use muos.Common.{
  ℕ, zero, suc, ◌+◌, ◌*◌, ◌/◌, ◌≤◌, ◌<◌, ◌≡◌, refl, ap, ◌∙◌, inl, inr, true, false, Option, none,
  some, ltb, leb, ◌==◌, arith, Bool-cases, ltb-false, leb→le, ltb→lt,
}
use muos.Frames.{
  Frames, Scan, found, past, full, scan_word, all_set, scan_words, bitmap_find_first_free,
}

-- Every frame from `a` up to `b` is in use.
abbrev pub Full : Frames → ℕ → ℕ → Type 0
Full s a b = (g : ℕ) → a ≤ g → g < b → s.used g ≡ true

abbrev Outcome : Frames → ℕ → ℕ → Scan → Type 0
Outcome s n frame (found f) = (f < s.total) × (s.used f ≡ false) × (frame ≤ f) × Full s frame f
Outcome s n frame past = Full s frame s.total
Outcome s n frame full = Full s frame (frame + n)

Full-cons : (s : Frames) (a b : ℕ) → s.used a ≡ true → Full s (a + 1) b → Full s a b
Full-cons s a b u h g p q = elim (Bool-cases (g == a)) [
  | inl e ↦ ap s.used {y = a} (ground arith) ∙ u
  | inr e ↦ h g (ground arith) q
]

Full-append : (s : Frames) (a b c : ℕ) → Full s a b → Full s b c → Full s a c
Full-append s a b c h k g p q = elim (Bool-cases (ltb g b)) [
  | inl e ↦ h g p (ltb→lt g b e)
  | inr e ↦ k g (ltb-false g b e) q
]

Outcome-cons :
    (s : Frames) (n frame : ℕ) (r : Scan)
    → s.used frame ≡ true
    → Outcome s n (frame + 1) r
    → Outcome s (suc n) frame r
Outcome-cons s n frame (found f) u (a, b, c, d) = (a, b, omega arith, Full-cons s frame f u d)
Outcome-cons s n frame past u d = Full-cons s frame s.total u d
Outcome-cons s n frame full u d = Full-cons s frame (frame + suc n) u (λ g p q. d g p (omega arith))

leb-false : (a b : ℕ) → leb a b ≡ false → b < a
leb-false a b h = ground arith

scan_word-Outcome : (n frame : ℕ) (s : Frames) → Outcome s n frame (scan_word n frame s)
unfolding scan_word
scan_word-Outcome zero frame s = λ g p q. absurd (omega arith)
scan_word-Outcome (suc n) frame s = elim (Bool-cases (leb s.total frame)) [
  | inl e ↦ rw e (λ g p q. absurd (omega (arith, leb→le s.total frame e)))
  | inr e ↦ elim (Bool-cases (s.used frame)) [
    | inr u ↦
        simp (e, u) (leb-false s.total frame e, refl, omega arith, λ g p q. absurd (omega arith))
    | inl u ↦
        simp (e, u)
          (Outcome-cons s n frame (scan_word n (frame + 1) s) u (scan_word-Outcome n (frame + 1) s))
  ]
]

all_set-Full : (n frame : ℕ) (s : Frames) → all_set n frame s ≡ true → Full s frame (frame + n)
unfolding all_set
all_set-Full zero frame s h = λ g p q. absurd (omega arith)
all_set-Full (suc n) frame s h =
    let both : (s.used frame ≡ true) × (all_set n (frame + 1) s ≡ true) = ground arith in
    Full-cons s frame (frame + suc n) both.0
      (λ g p q. all_set-Full n (frame + 1) s both.1 g p (omega arith))

-- The lowest free frame, or none where all are in use.
abbrev pub IsFirst : Frames → ℕ → Option ℕ → Type 0
IsFirst s from none = Full s from s.total
IsFirst s from (some f) = (f < s.total) × (s.used f ≡ false) × (from ≤ f) × Full s from f

IsFirst-append :
    (s : Frames) (a b : ℕ) (r : Option ℕ) → a ≤ b → Full s a b → IsFirst s b r → IsFirst s a r
IsFirst-append s a b none le h k = Full-append s a b s.total h k
IsFirst-append s a b (some f) le h (p, q, r, k) = (p, q, omega arith, Full-append s a b f h k)

-- One word's scan, and what follows it.
IsFirst-word :
    (s : Frames) (i : ℕ) (r : Scan) (rest : Option ℕ)
    → Outcome s 32 (i * 32) r
    → IsFirst s ((i + 1) * 32) rest
    → IsFirst s
        (i * 32)
        (elim r as (λ x. Option ℕ) [ found f ↦ some f | past ↦ none | full ↦ rest ])
IsFirst-word s i (found f) rest h k = h
IsFirst-word s i past rest h k = h
IsFirst-word s i full rest h k =
    IsFirst-append s (i * 32) ((i + 1) * 32) rest (omega arith) (λ g p q. h g p (omega arith)) k

scan_words-IsFirst :
    (n i : ℕ) (s : Frames) → s.total ≤ (i + n) * 32 → IsFirst s (i * 32) (scan_words n i s)
unfolding scan_words
scan_words-IsFirst zero i s h = λ g p q. absurd (omega arith)
scan_words-IsFirst (suc n) i s h =
    let rest = scan_words-IsFirst n (i + 1) s (omega arith) in
    elim (Bool-cases (all_set 32 (i * 32) s)) [
      | inl e ↦ rw e (
          IsFirst-append s (i * 32) ((i + 1) * 32) (scan_words n (i + 1) s) (omega arith)
            (λ g p q. all_set-Full 32 (i * 32) s e g p (omega arith)) rest)
      | inr e ↦ rw e (
          IsFirst-word s i (scan_word 32 (i * 32) s) (scan_words n (i + 1) s)
            (scan_word-Outcome 32 (i * 32) s) rest)
    ]

-- The scan word by word finds the lowest free frame, and fails only where every frame is in use.
pub bitmap_find_first_free-IsFirst : (s : Frames) → IsFirst s 0 (bitmap_find_first_free s)
unfolding bitmap_find_first_free
bitmap_find_first_free-IsFirst s = scan_words-IsFirst ((s.total + 31) / 32) 0 s (omega arith)
