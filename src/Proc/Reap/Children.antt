-- ===== src/Proc/Reap/Children.antt =====
-- The recursion of `proc_cleanup_children`.
use muos.Common.{
  ℕ, zero, suc, ◌+◌, ◌≤◌, ◌<◌, ◌≡◌, ◌⊎◌, inl, inr, refl, ap, ◌∙◌, sym, subst, subst⁻¹, true, false,
  not, ◌&&◌, Option, none, some, List, [], ◌∷◌, if◌then◌else◌, if_all, ltb, get_elem?, set, All,
  length, arith, Option-cases,
}
use muos.Proc.{Proc, no_proc, Kernel, proc_max}
use muos.Proc.Reap.{proc_reap, is_child, children_loop, proc_cleanup_children}

-- Some slots are cleared and all else is as it was.
abbrev pub Shrunk : List Proc → List Proc → Type 0
Shrunk [] [] = Unit
Shrunk [] (q ∷ qs) = ⊥
Shrunk (p ∷ ps) [] = ⊥
Shrunk (p ∷ ps) (q ∷ qs) = ((q ≡ p) ⊎ (q ≡ no_proc)) × Shrunk ps qs

pub Shrunk-refl : (ps : List Proc) → Shrunk ps ps
Shrunk-refl [] = tt
Shrunk-refl (p ∷ ps) = (inl refl, Shrunk-refl ps)

pub Shrunk-trans : (ps qs rs : List Proc) → Shrunk ps qs → Shrunk qs rs → Shrunk ps rs
Shrunk-trans [] [] rs h k = k
Shrunk-trans [] (q ∷ qs) rs h k = absurd h
Shrunk-trans (p ∷ ps) [] rs h k = absurd h
Shrunk-trans (p ∷ ps) (q ∷ qs) [] h k = absurd k
Shrunk-trans (p ∷ ps) (q ∷ qs) (r ∷ rs) (h, hs) (k, ks) = (both h k, Shrunk-trans ps qs rs hs ks)
  where
    both : (q ≡ p) ⊎ (q ≡ no_proc) → (r ≡ q) ⊎ (r ≡ no_proc) → (r ≡ p) ⊎ (r ≡ no_proc)
    both h (inr e) = inr e
    both (inl d) (inl e) = inl (e ∙ d)
    both (inr d) (inl e) = inr (e ∙ d)

Shrunk-set : (ps : List Proc) (i : ℕ) → Shrunk ps (set ps i no_proc)
Shrunk-set [] i = tt
Shrunk-set (p ∷ ps) zero = (inr refl, Shrunk-refl ps)
Shrunk-set (p ∷ ps) (suc i) = (inl refl, Shrunk-set ps i)

pub proc_reap-Shrunk : (i : ℕ) (k : Kernel) → Shrunk k.procs (proc_reap i k).procs
unfolding proc_reap
proc_reap-Shrunk i k = elim (Option-cases (get_elem? k.procs i)) [
  | inl e ↦ simp (proc_reap, e) (Shrunk-refl k.procs)
  | inr (p, e) ↦
      simp (proc_reap, e)
        (if_all (λ (r : Kernel). Shrunk k.procs r.procs) (not p.used) k _ (Shrunk-refl k.procs)
          (Shrunk-set k.procs i))
]

-- A call that only clears slots.
abbrev pub Shrinks : (ℕ → Kernel → Kernel) → Type 0
Shrinks cleanup = (pid : ℕ) (k : Kernel) → Shrunk k.procs (cleanup pid k).procs

-- The body of the loop.
unfoldable pub child_step : (ℕ → Kernel → Kernel) → ℕ → ℕ → Kernel → Kernel
child_step cleanup pid i k = elim (get_elem? k.procs i) [
  | none ↦ k
  | some p ↦ if is_child pid p then proc_reap i (cleanup p.pid k) else k
]

pub child_step-Shrunk :
    (cleanup : ℕ → Kernel → Kernel) (pid i : ℕ) (k : Kernel)
    → Shrinks cleanup
    → Shrunk k.procs (child_step cleanup pid i k).procs
unfolding child_step
child_step-Shrunk cleanup pid i k c = elim (Option-cases (get_elem? k.procs i)) [
  | inl e ↦ simp (child_step, e) (Shrunk-refl k.procs)
  | inr (p, e) ↦
      simp (child_step, e)
        (if_all (λ (r : Kernel). Shrunk k.procs r.procs) (is_child pid p)
          (proc_reap i (cleanup p.pid k)) k
          (Shrunk-trans k.procs (cleanup p.pid k).procs _ (c p.pid k)
            (proc_reap-Shrunk i (cleanup p.pid k)))
          (Shrunk-refl k.procs))
]

pub children_loop-Shrunk :
    (cleanup : ℕ → Kernel → Kernel) (pid n i : ℕ) (k : Kernel)
    → Shrinks cleanup
    → Shrunk k.procs (children_loop cleanup pid n i k).procs
unfolding children_loop child_step
children_loop-Shrunk cleanup pid zero i k c = Shrunk-refl k.procs
children_loop-Shrunk cleanup pid (suc n) i k c =
    Shrunk-trans k.procs (child_step cleanup pid i k).procs _ (child_step-Shrunk cleanup pid i k c)
      (children_loop-Shrunk cleanup pid n (i + 1) (child_step cleanup pid i k) c)

pub cleanup-Shrunk : (f : ℕ) → Shrinks (proc_cleanup_children f)
unfolding proc_cleanup_children
cleanup-Shrunk zero pid k = Shrunk-refl k.procs
cleanup-Shrunk (suc f) pid k =
    children_loop-Shrunk (proc_cleanup_children f) pid proc_max 0 k (cleanup-Shrunk f)

-- A process has a larger number than its parent, as `proc_alloc` gives them out.
abbrev pub Ordered : List Proc → Type 0
Ordered ps = All (λ p. (p.used ≡ false) ⊎ (p.ppid < p.pid)) ps

pub Ordered-Shrunk : (ps qs : List Proc) → Shrunk ps qs → Ordered ps → Ordered qs
Ordered-Shrunk [] [] h o = tt
Ordered-Shrunk [] (q ∷ qs) h o = absurd h
Ordered-Shrunk (p ∷ ps) [] h o = absurd h
Ordered-Shrunk (p ∷ ps) (q ∷ qs) (inl e, hs) (o, os) =
    (subst⁻¹ (λ (x : Proc). (x.used ≡ false) ⊎ (x.ppid < x.pid)) e o, Ordered-Shrunk ps qs hs os)
Ordered-Shrunk (p ∷ ps) (q ∷ qs) (inr e, hs) (o, os) =
    (inl (ap (λ (x : Proc). x.used) e), Ordered-Shrunk ps qs hs os)

-- How many processes have a larger number: no call of the recursion goes deeper.
abbrev pub count_above : ℕ → List Proc → ℕ
count_above pid [] = 0
count_above pid (p ∷ ps) =
    if p.used && ltb pid p.pid then suc (count_above pid ps) else count_above pid ps

pub count_above-Shrunk :
    (pid : ℕ) (ps qs : List Proc) → Shrunk ps qs → count_above pid qs ≤ count_above pid ps
count_above-Shrunk pid [] [] h = omega arith
count_above-Shrunk pid [] (q ∷ qs) h = absurd h
count_above-Shrunk pid (p ∷ ps) [] h = absurd h
count_above-Shrunk pid (p ∷ ps) (q ∷ qs) (inl e, hs) =
    let rest = count_above-Shrunk pid ps qs hs in rw e (ground arith)
count_above-Shrunk pid (p ∷ ps) (q ∷ qs) (inr e, hs) =
    let rest = count_above-Shrunk pid ps qs hs in rw e (ground arith)

count_above_mono : (a b : ℕ) (ps : List Proc) → a ≤ b → count_above b ps ≤ count_above a ps
count_above_mono a b [] h = omega arith
count_above_mono a b (p ∷ ps) h = let rest = count_above_mono a b ps h in ground arith

pub count_above-child :
    (pid i : ℕ) (ps : List Proc) (p : Proc)
    → get_elem? ps i ≡ some p
    → p.used ≡ true
    → pid < p.pid
    → count_above p.pid ps < count_above pid ps
count_above-child pid i [] p h u l = absurd (cc)
count_above-child pid zero (q ∷ ps) p h u l =
    let same : q ≡ p = ground arith in
    let rest = count_above_mono pid p.pid ps (omega arith) in rw same (ground arith)
count_above-child pid (suc i) (q ∷ ps) p h u l =
    let rest = count_above-child pid i ps p h u l in ground arith

-- What the entry of a slot can become.
abbrev pub Cleared : Option Proc → Option Proc → Type 0
Cleared o o' = (o' ≡ o) ⊎ (o' ≡ some no_proc)

pub Shrunk-Cleared :
    (ps qs : List Proc) (i : ℕ) → Shrunk ps qs → Cleared (get_elem? ps i) (get_elem? qs i)
Shrunk-Cleared [] [] i h = inl refl
Shrunk-Cleared [] (q ∷ qs) i h = absurd h
Shrunk-Cleared (p ∷ ps) [] i h = absurd h
Shrunk-Cleared (p ∷ ps) (q ∷ qs) zero (inl e, hs) = inl (ap some e)
Shrunk-Cleared (p ∷ ps) (q ∷ qs) zero (inr e, hs) = inr (ap some e)
Shrunk-Cleared (p ∷ ps) (q ∷ qs) (suc i) (h, hs) = Shrunk-Cleared ps qs i hs

pub Ordered-at :
    (ps : List Proc) (i : ℕ) (p : Proc)
    → Ordered ps
    → get_elem? ps i ≡ some p
    → p.used ≡ true
    → p.ppid < p.pid
Ordered-at [] i p o h u = absurd (cc)
Ordered-at (q ∷ ps) zero p (inl e, os) h u =
    let same : q ≡ p = ground arith in
    let clash : true ≡ false = sym u ∙ ap (λ (x : Proc). x.used) (sym same) ∙ e in absurd (cc)
Ordered-at (q ∷ ps) zero p (inr l, os) h u =
    let same : q ≡ p = ground arith in subst (λ (x : Proc). x.ppid < x.pid) same l
Ordered-at (q ∷ ps) (suc i) p (o, os) h u = Ordered-at ps i p os h u

-- Two calls that agree on all tables with fewer than `b` processes above.
abbrev pub Agree : ℕ → (ℕ → Kernel → Kernel) → (ℕ → Kernel → Kernel) → Type 0
Agree b c d =
    (pid : ℕ) (k : Kernel) → Ordered k.procs → count_above pid k.procs < b → c pid k ≡ d pid k

pub count_above-length : (pid : ℕ) (ps : List Proc) → count_above pid ps ≤ length ps
count_above-length pid [] = omega arith
count_above-length pid (p ∷ ps) = let rest = count_above-length pid ps in ground arith
