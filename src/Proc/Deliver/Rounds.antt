-- ===== src/Proc/Deliver/Rounds.antt =====
-- How many rounds the loop of `proc_signal_deliver` takes.
use muos.Common.{
  ℕ, zero, suc, ◌+◌, ◌≤◌, ◌<◌, ◌≡◌, ◌⊎◌, inl, inr, refl, subst, Bool, true, false, ◌==◌,
  if◌then◌else◌, leb, get_or, arith, Bool-cases,
}
use muos.Proc.{Proc, Registers, Kernel, put_proc, sig_dfl, sig_ign, sigframe_max}
use muos.Proc.Signal.{is_due, proc_sig_default_terminates}
use muos.Proc.Deliver.{first_due, taken, exit_by_signal, call_handler}

-- No signal from `s` to before `t` is due.
abbrev pub NoneDue : Proc → ℕ → ℕ → Type 0
NoneDue p s t = (e : ℕ) → s ≤ e → e < t → is_due p e ≡ false

-- The signal found is the first that is due, 0 when none is.
abbrev pub IsFirstDue : Proc → ℕ → ℕ → ℕ → Type 0
IsFirstDue p s t sig =
    ((sig ≡ 0) × NoneDue p s t) ⊎ ((s ≤ sig) × (sig < t) × (is_due p sig ≡ true) × NoneDue p s sig)

NoneDue-cons : (p : Proc) (s t : ℕ) → is_due p s ≡ false → NoneDue p (suc s) t → NoneDue p s t
NoneDue-cons p s t h k e a b = elim (Bool-cases (s == e)) [
  | inl same ↦ subst (λ x. is_due p x ≡ false) (ground arith) h
  | inr other ↦ k e (ground arith) b
]

pub first_due-IsFirstDue : (p : Proc) (s n : ℕ) → IsFirstDue p s (s + n) (first_due p s n)
unfolding first_due
first_due-IsFirstDue p s zero = inl (refl, λ e a b. absurd (omega arith))
first_due-IsFirstDue p s (suc n) = elim (Bool-cases (is_due p s)) [
  | inl e ↦ rw e (inr (omega arith, omega arith, e, λ x a b. absurd (omega arith)))
  | inr e ↦ rw e (widen e (first_due p (suc s) n) (first_due-IsFirstDue p (suc s) n))
]
  where
    widen :
        is_due p s ≡ false
        → (sig : ℕ) → IsFirstDue p (suc s) (suc s + n) sig
        → IsFirstDue p s (s + suc n) sig
    widen e sig (inl (z, k)) = inl (z, λ x a b. NoneDue-cons p s (suc s + n) e k x a (omega arith))
    widen e sig (inr (a, b, d, k)) = inr (omega arith, omega arith, d, NoneDue-cons p s sig e k)

-- A round that has found a signal, from what the rounds after it would do.
abbrev round : ℕ → Proc → Registers → Kernel → Kernel × Registers × Bool → Kernel × Registers × Bool
round i p regs k rest =
    let sig = first_due p 1 31 in
    let h = get_or p.sig_handler sig 0 in
    if sig == 0
    then (k, regs, false)
    else if h == sig_ign
    then rest
    else if h == sig_dfl
    then (if proc_sig_default_terminates sig
        then exit_by_signal (128 + sig) false regs (put_proc i (taken sig p) k)
        else rest)
    else if leb sigframe_max p.sig_depth
    then exit_by_signal (128 + sig) true regs (put_proc i (taken sig p) k)
    else call_handler i (taken sig p) sig h regs (put_proc i (taken sig p) k)
