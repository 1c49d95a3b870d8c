-- ===== src/Proc/Ids.antt =====
-- Which operations of src/proc.c leave the numbers of all processes, and which slots are used.
use muos.Common.{
  ℕ, zero, suc, ◌≡◌, refl, ◌∙◌, Bool, false, Option, none, some, List, [], ◌∷◌, if_all, get_elem?,
  set, subst, subst⁻¹, arith,
}
use muos.Proc.{
  Proc, Kernel, Registers, Wait, wait_wait4, wait_waitid, wait_none, wait_poll, wait_sigsusp,
  wait_read, put_proc, proc_find,
}
use muos.Proc.Sched.{
  switch_to, sched_load, proc_write_user_u32, write_infop, complete_wait, proc_wake_parent,
  proc_exit_current, sched_pick_next, return_to_kernel, ended, save_fds,
}

-- The slot has the same process, or is free as before.
abbrev pub SameProc : Proc → Proc → Type 0
SameProc p q = (q.used ≡ p.used) × (q.pid ≡ p.pid) × (q.ppid ≡ p.ppid)

abbrev pub SameProcs : List Proc → List Proc → Type 0
SameProcs [] [] = Unit
SameProcs (p ∷ ps) (q ∷ qs) = SameProc p q × SameProcs ps qs
SameProcs [] (q ∷ qs) = ⊥
SameProcs (p ∷ ps) [] = ⊥

abbrev pub SameIds : Kernel → Kernel → Type 0
SameIds k k' = SameProcs k.procs k'.procs × (k'.next_pid ≡ k.next_pid)

pub SameProcs-refl : (ps : List Proc) → SameProcs ps ps
SameProcs-refl [] = tt
SameProcs-refl (p ∷ ps) = ((refl, refl, refl), SameProcs-refl ps)

SameProcs-trans : (ps qs rs : List Proc) → SameProcs ps qs → SameProcs qs rs → SameProcs ps rs
SameProcs-trans [] [] [] h k = tt
SameProcs-trans [] [] (r ∷ rs) h k = absurd k
SameProcs-trans [] (q ∷ qs) rs h k = absurd h
SameProcs-trans (p ∷ ps) [] rs h k = absurd h
SameProcs-trans (p ∷ ps) (q ∷ qs) [] h k = absurd k
SameProcs-trans (p ∷ ps) (q ∷ qs) (r ∷ rs) ((a, b, c), h) ((d, e, f), k) =
    ((d ∙ a, e ∙ b, f ∙ c), SameProcs-trans ps qs rs h k)

pub SameIds-refl : (k : Kernel) → SameIds k k
SameIds-refl k = (SameProcs-refl k.procs, refl)

pub SameIds-trans : (a b c : Kernel) → SameIds a b → SameIds b c → SameIds a c
SameIds-trans a b c (h, n) (k, m) = (SameProcs-trans a.procs b.procs c.procs h k, m ∙ n)

SameProcs-set :
    (ps : List Proc) (i : ℕ) (p q : Proc)
    → get_elem? ps i ≡ some p
    → SameProc p q
    → SameProcs ps (set ps i q)
SameProcs-set [] i p q h s = tt
SameProcs-set (x ∷ ps) zero p q h s =
    let same : p ≡ x = ground arith in
    (subst (λ (y : Proc). SameProc y q) same s, SameProcs-refl ps)
SameProcs-set (x ∷ ps) (suc i) p q h s = ((refl, refl, refl), SameProcs-set ps i p q h s)

pub put_proc-SameIds :
    (k : Kernel) (i : ℕ) (p q : Proc)
    → get_elem? k.procs i ≡ some p
    → SameProc p q
    → SameIds k (put_proc i q k)
unfolding put_proc
put_proc-SameIds k i p q h s = (SameProcs-set k.procs i p q h s, refl)

-- The cases of an option, with what the second one knows.
pub option_all {ℓ ℓ' ℓ''} :
    {A : Type ℓ} {B : Type ℓ'} (P : B → Type ℓ'') (o : Option A) (x : B) (f : A → B)
    → P x
    → ((a : A) → o ≡ some a → P (f a))
    → P (elim o as (λ z. B) [ none ↦ x | some a ↦ f a ])
option_all P none x f h k = h
option_all P (some a) x f h k = k a refl

pub switch_to-SameIds : (i : ℕ) (regs : Registers) (k : Kernel) → SameIds k (switch_to i regs k).0
unfolding switch_to sched_load
switch_to-SameIds i regs k =
    option_all (λ (r : Kernel × Registers). SameIds k r.0) (get_elem? k.procs i) (k, regs) _
      (SameIds-refl k) (λ p h. (SameProcs-set k.procs i p _ h (refl, refl, refl), refl))

-- The table is not written at all.
abbrev Untouched : Kernel → Kernel → Type 0
Untouched k k' = (k'.procs ≡ k.procs) × (k'.next_pid ≡ k.next_pid)

proc_write_user_u32-Untouched :
    (p : Proc) (at v : ℕ) (k : Kernel) → Untouched k (proc_write_user_u32 p at v k)
unfolding proc_write_user_u32
proc_write_user_u32-Untouched p at v k = if_all (λ r. Untouched k r) _ k _ (refl, refl) (refl, refl)

procs_kept : (p : Proc) (at v : ℕ) (k : Kernel) → (proc_write_user_u32 p at v k).procs ≡ k.procs
procs_kept p at v k = (proc_write_user_u32-Untouched p at v k).0

next_pid_kept :
    (p : Proc) (at v : ℕ) (k : Kernel) → (proc_write_user_u32 p at v k).next_pid ≡ k.next_pid
next_pid_kept p at v k = (proc_write_user_u32-Untouched p at v k).1

write_infop-Untouched :
    (p : Proc) (base : ℕ) (child : Proc) (k : Kernel) → Untouched k (write_infop p base child k)
unfolding write_infop
write_infop-Untouched p base child k =
    (simp (write_infop, procs_kept p) refl, simp (write_infop, next_pid_kept p) refl)

-- `put_proc` after the memory has been written.
put_proc-Untouched :
    (k k' : Kernel) (i : ℕ) (p q : Proc)
    → Untouched k k'
    → get_elem? k.procs i ≡ some p
    → SameProc p q
    → SameIds k (put_proc i q k')
unfolding put_proc
put_proc-Untouched k k' i p q (ps, n) h s =
    (subst⁻¹ (λ l. SameProcs k.procs (set l i q)) ps (SameProcs-set k.procs i p q h s), n)

complete_wait-SameIds :
    (i : ℕ) (parent child : Proc) (k : Kernel)
    → get_elem? k.procs i ≡ some parent
    → SameIds k (complete_wait i parent child k)
unfolding complete_wait
complete_wait-SameIds i parent child k h = go parent.wait_kind refl
  where
    go : (w : Wait) → parent.wait_kind ≡ w → SameIds k (complete_wait i parent child k)
    go wait_wait4 e =
        simp (complete_wait, e)
          (put_proc-Untouched k _ i parent _
            (if_all (λ r. Untouched k r) _ k _ (refl, refl)
              (proc_write_user_u32-Untouched parent _ _ k))
            h (refl, refl, refl))
    go wait_waitid e =
        simp (complete_wait, e)
          (put_proc-Untouched k _ i parent _ (write_infop-Untouched parent _ child k) h
            (refl, refl, refl))
    go wait_none e = simp (complete_wait, e) (put_proc-SameIds k i parent _ h (refl, refl, refl))
    go wait_poll e = simp (complete_wait, e) (put_proc-SameIds k i parent _ h (refl, refl, refl))
    go wait_sigsusp e = simp (complete_wait, e) (put_proc-SameIds k i parent _ h (refl, refl, refl))
    go wait_read e = simp (complete_wait, e) (put_proc-SameIds k i parent _ h (refl, refl, refl))

pub proc_wake_parent-SameIds : (child : Proc) (k : Kernel) → SameIds k (proc_wake_parent child k)
unfolding proc_wake_parent
proc_wake_parent-SameIds child k =
    option_all (λ r. SameIds k r) (proc_find child.ppid k.procs) k _ (SameIds-refl k)
      (λ i f.
        option_all (λ r. SameIds k r) (get_elem? k.procs i) k _ (SameIds-refl k)
          (λ p h.
            if_all (λ r. SameIds k r) _ k _ (SameIds-refl k)
              (if_all (λ r. SameIds k r) _ k _ (SameIds-refl k)
                (complete_wait-SameIds i p child k h))))

pub proc_exit_current-SameIds :
    (regs : Registers) (code : ℕ) (faulted : Bool) (k : Kernel)
    → SameIds k (proc_exit_current regs code faulted k).0
unfolding proc_exit_current return_to_kernel
proc_exit_current-SameIds regs code faulted k =
    option_all (λ (r : Kernel × Registers). SameIds k r.0) k.current_proc _ _ (SameIds-refl k)
      (λ i c.
        option_all (λ (r : Kernel × Registers). SameIds k r.0) (get_elem? k.procs i) _ _
          (SameIds-refl k)
          (λ p h.
            if_all (λ (r : Kernel × Registers). SameIds k r.0) _ _ _ (SameIds-refl k) (exit i p h)))
  where
    after : ℕ → Proc → Kernel
    after i p =
        let k1 = put_proc i (ended code faulted p) (save_fds p k) in
        proc_wake_parent (ended code faulted p)
          (record k1 { user = record (k1.user) { active = false } })

    after-SameIds : (i : ℕ) (p : Proc) → get_elem? k.procs i ≡ some p → SameIds k (after i p)
    after-SameIds i p h =
        let k1 = put_proc i (ended code faulted p) (save_fds p k) in
        SameIds-trans k k1 (after i p)
          (put_proc-SameIds (save_fds p k) i p (ended code faulted p) h (refl, refl, refl))
          (proc_wake_parent-SameIds (ended code faulted p)
            (record k1 { user = record (k1.user) { active = false } }))

    exit :
        (i : ℕ) (p : Proc)
        → get_elem? k.procs i ≡ some p
        → SameIds k
            (elim (sched_pick_next none (after i p).procs) as (λ z. Kernel × Registers) [
              | none ↦ (return_to_kernel (after i p), regs)
              | some j ↦ switch_to j regs (after i p)
            ]).0
    exit i p h =
        option_all (λ (r : Kernel × Registers). SameIds k r.0)
          (sched_pick_next none (after i p).procs) (return_to_kernel (after i p), regs)
          (λ j. switch_to j regs (after i p)) (after-SameIds i p h)
          (λ j e.
            SameIds-trans k (after i p) (switch_to j regs (after i p)).0 (after-SameIds i p h)
              (switch_to-SameIds j regs (after i p)))
