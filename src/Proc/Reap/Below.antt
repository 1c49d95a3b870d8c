-- ===== src/Proc/Reap/Below.antt =====
-- Which processes `proc_cleanup_children` leaves alone, and what it does as a whole.
use muos.Common.{
  ℕ, zero, suc, ◌+◌, ◌≡◌, ◌⊎◌, inl, inr, ap, ◌∙◌, sym, subst, true, some, List, ◌==◌, get_elem?,
  length, arith, Bool-cases, Option-cases,
}
use muos.Proc.{Proc, no_proc, Kernel, proc_max}
use muos.Proc.Reap.{proc_reap, is_child, children_loop, proc_cleanup_children}
use muos.Proc.Reap.Children.{
  Shrunk, Shrinks, Ordered, child_step, Shrunk-Cleared, child_step-Shrunk, cleanup-Shrunk,
  count_above-length,
}
use muos.Proc.Reap.Subtree.{
  NoChild, Closed, unused-clash, proc_reap-other, still_there, cleanup-Clears,
}

-- The children of a process, their children, and so on.
pub data Below (ps : List Proc) (pid : ℕ) : Proc → Type 0 where
  child : (p : Proc) → is_child pid p ≡ true → Below ps pid p
  under :
      (i : ℕ) (q p : Proc)
      → get_elem? ps i ≡ some q
      → Below ps pid q
      → is_child q.pid p ≡ true
      → Below ps pid p

Below-under :
    (ps : List Proc) (pid i : ℕ) (p x : Proc)
    → get_elem? ps i ≡ some p
    → is_child pid p ≡ true
    → Below ps p.pid x
    → Below ps pid x
Below-under ps pid i p x at h (child y k) = under i p x at (child p h) k
Below-under ps pid i p x at h (under j q y at' b k) =
    under j q x at' (Below-under ps pid i p q at h b) k

used-Below : (ps : List Proc) (pid : ℕ) (p : Proc) → Below ps pid p → p.used ≡ true
used-Below ps pid p (child q h) = ground arith
used-Below ps pid p (under i q r at b h) = ground arith

Below-Shrunk :
    (ps qs : List Proc) (pid : ℕ) (p : Proc) → Shrunk ps qs → Below qs pid p → Below ps pid p
Below-Shrunk ps qs pid p h (child q k) = child p k
Below-Shrunk ps qs pid p h (under i q r at b k) =
    under i q p (before (Shrunk-Cleared ps qs i h)) (Below-Shrunk ps qs pid q h b) k
  where
    before :
        (get_elem? qs i ≡ get_elem? ps i) ⊎ (get_elem? qs i ≡ some no_proc)
        → get_elem? ps i ≡ some q
    before (inl e) = sym e ∙ at
    before (inr e) = absurd (unused-clash q (used-Below qs pid q b) (sym at ∙ e))

-- Only processes below the number are cleared.
abbrev pub OnlyBelow : ℕ → List Proc → List Proc → Type 0
OnlyBelow pid ps qs =
    (j : ℕ) (p : Proc)
    → get_elem? ps j ≡ some p
    → p.used ≡ true
    → get_elem? qs j ≡ some no_proc
    → Below ps pid p

OnlyBelow-refl : (pid : ℕ) (ps : List Proc) → OnlyBelow pid ps ps
OnlyBelow-refl pid ps j p at used gone = absurd (unused-clash p used (sym at ∙ gone))

OnlyBelow-trans :
    (pid : ℕ) (ps qs rs : List Proc)
    → Shrunk ps qs
    → OnlyBelow pid ps qs
    → OnlyBelow pid qs rs
    → OnlyBelow pid ps rs
OnlyBelow-trans pid ps qs rs h a b j p at used gone = elim (Shrunk-Cleared ps qs j h) [
  | inl e ↦ Below-Shrunk ps qs pid p h (b j p (e ∙ at) used gone)
  | inr e ↦ a j p at used e
]

OnlyBelow-proc_reap :
    (pid i : ℕ) (k : Kernel)
    → ((p : Proc) → get_elem? k.procs i ≡ some p → p.used ≡ true → is_child pid p ≡ true)
    → OnlyBelow pid k.procs (proc_reap i k).procs
OnlyBelow-proc_reap pid i k c j p at used gone = elim (Bool-cases (i == j)) [
  | inl e ↦ child p (c p (ap (get_elem? k.procs) (let s : i ≡ j = ground arith in s) ∙ at) used)
  | inr e ↦
      absurd (unused-clash p used (sym at ∙ sym (proc_reap-other i j k (λ s. ground arith)) ∙ gone))
]

-- A call that clears processes below its number only.
abbrev ClearsBelow : (ℕ → Kernel → Kernel) → Type 0
ClearsBelow c = (pid : ℕ) (k : Kernel) → OnlyBelow pid k.procs (c pid k).procs

child_step-OnlyBelow :
    (c : ℕ → Kernel → Kernel) (pid i : ℕ) (k : Kernel)
    → ClearsBelow c
    → Shrinks c
    → OnlyBelow pid k.procs (child_step c pid i k).procs
unfolding child_step
child_step-OnlyBelow c pid i k a s = elim (Option-cases (get_elem? k.procs i)) [
  | inl e ↦ simp (child_step, e) (OnlyBelow-refl pid k.procs)
  | inr (p, e) ↦ elim (Bool-cases (is_child pid p)) [
    | inr other ↦ simp (child_step, e, other) (OnlyBelow-refl pid k.procs)
    | inl is ↦
        let k' = c p.pid k in
        simp (child_step, e, is)
          (OnlyBelow-trans pid k.procs k'.procs (proc_reap i k').procs (s p.pid k)
            (λ j x at used gone. Below-under k.procs pid i p x e is (a p.pid k j x at used gone))
            (OnlyBelow-proc_reap pid i k' (λ p' at used.
              subst (λ (x : Proc). is_child pid x ≡ true)
                (still_there k.procs k'.procs i p p' (s p.pid k) e at used) is)))
  ]
]

children_loop-OnlyBelow :
    (c : ℕ → Kernel → Kernel) (pid n i : ℕ) (k : Kernel)
    → ClearsBelow c
    → Shrinks c
    → OnlyBelow pid k.procs (children_loop c pid n i k).procs
unfolding children_loop child_step
children_loop-OnlyBelow c pid zero i k a s = OnlyBelow-refl pid k.procs
children_loop-OnlyBelow c pid (suc n) i k a s =
    let k' = child_step c pid i k in
    OnlyBelow-trans pid k.procs k'.procs (children_loop c pid n (i + 1) k').procs
      (child_step-Shrunk c pid i k s) (child_step-OnlyBelow c pid i k a s)
      (children_loop-OnlyBelow c pid n (i + 1) k' a s)

cleanup-OnlyBelow : (f : ℕ) → ClearsBelow (proc_cleanup_children f)
unfolding proc_cleanup_children
cleanup-OnlyBelow zero pid k = OnlyBelow-refl pid k.procs
cleanup-OnlyBelow (suc f) pid k =
    children_loop-OnlyBelow (proc_cleanup_children f) pid proc_max 0 k (cleanup-OnlyBelow f)
      (cleanup-Shrunk f)

-- The release of the children of a process releases exactly the processes below it: afterwards no
-- process has it as its parent, no process has a released one as its parent, only processes below
-- it are released, and every slot that is not cleared holds what it held.
pub proc_cleanup_children-Below :
    (pid : ℕ) (k : Kernel)
    → length k.procs ≡ proc_max
    → Ordered k.procs
    → NoChild pid (proc_cleanup_children 9 pid k).procs
      × Closed k.procs (proc_cleanup_children 9 pid k).procs
      × OnlyBelow pid k.procs (proc_cleanup_children 9 pid k).procs
      × Shrunk k.procs (proc_cleanup_children 9 pid k).procs
proc_cleanup_children-Below pid k e o =
    let (none_left, closed) =
      cleanup-Clears 9 pid k (o, e) (omega (arith, count_above-length pid k.procs)) in
    (none_left, closed, cleanup-OnlyBelow 9 pid k, cleanup-Shrunk 9 pid k)
