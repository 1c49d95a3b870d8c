-- ===== src/Proc/Signal/Send.antt =====
-- What `proc_signal_send` does to the processes.
use muos.Common.{
  ℕ, zero, suc, ◌-◌, ◌^◌, ◌<◌, ◌≡◌, ◌≢◌, inl, inr, refl, ap, ◌∙◌, sym, true, false, ◌||◌, some,
  List, [], ◌∷◌, map, ◌==◌, if◌then◌else◌, leb, get_elem?, get_elem?-set_ne, arith, Bool-cases,
  Option-cases, ==_ne, not_leb, if_all,
}
use muos.Common.Int.{ℤ, pos, negsuc}
use muos.Common.Bits.{bit_set}
use muos.Proc.{
  Proc, Kernel, ProcState, proc_free, proc_running, proc_blocked, proc_zombie, wait_none, put_proc,
  proc_find, proc_nsig, proc_ready,
}
use muos.Proc.Sched.{is_blocked, is_zombie}
use muos.Proc.Signal.{
  add_pending, is_wait_none, signal_one, signal_any, signal_all, signal_self, signal_pid,
  signal_probe, takes_broadcast, proc_signal_send,
}

-- The slot holds the process still.
abbrev pub Keeps : ℕ → Proc → Kernel → Type 0
Keeps j p k = get_elem? k.procs j ≡ some p

put_proc-Keeps :
    (i j : ℕ) (p q t : Proc) (k : Kernel)
    → Keeps j p k
    → get_elem? k.procs i ≡ some t
    → p.pid ≡ 1
    → (t.pid == 1) ≡ false
    → Keeps j p (put_proc i q k)
unfolding put_proc
put_proc-Keeps i j p q t k h at one other = get_elem?-set_ne k.procs q apart ∙ h
  where
    apart : i ≢ j
    apart same =
        let both : some t ≡ some p = sym at ∙ ap (get_elem? k.procs) same ∙ h in
        let pid : t.pid ≡ 1 = ground arith in absurd (ground arith)

signal_all-kernel :
    (sig : ℕ) (ps : List Proc) (j : ℕ) (p : Proc)
    → get_elem? ps j ≡ some p
    → p.pid ≡ 1
    → get_elem? (signal_all sig ps).0 j ≡ some p
unfolding signal_all
signal_all-kernel sig [] j p h one = absurd (cc)
signal_all-kernel sig (q ∷ ps) zero p h one =
    let same : q ≡ p = ground arith in
    let kernel : (q.pid == 1) ≡ true = rw (same, one) refl in
    elim (Bool-cases q.used) [
      | inl e ↦ simp (signal_all, kernel, e) (ap some same)
      | inr e ↦ simp (signal_all, kernel, e) (ap some same)
    ]
signal_all-kernel sig (q ∷ ps) (suc j) p h one = elim (Bool-cases (takes_broadcast q)) [
  | inl e ↦ rw e (signal_all-kernel sig ps j p h one)
  | inr e ↦ rw e (signal_all-kernel sig ps j p h one)
]

signal_self-kernel :
    (sig : ℕ) (k : Kernel) (j : ℕ) (p : Proc)
    → Keeps j p k
    → p.pid ≡ 1
    → Keeps j p (signal_self sig k).0
unfolding signal_self
signal_self-kernel sig k j p h one = elim (Option-cases k.current_proc) [
  | inl e ↦ simp (signal_self, e) h
  | inr (i, e) ↦ elim (Option-cases (get_elem? k.procs i)) [
    | inl e' ↦ simp (signal_self, e, e') h
    | inr (q, e') ↦ elim (Bool-cases (q.pid == 1)) [
      | inl kernel ↦ simp (signal_self, e, e', kernel) h
      | inr other ↦
          simp (signal_self, e, e', other)
            (put_proc-Keeps i j p (add_pending sig q) q k h e' one other)
    ]
  ]
]

signal_pid-kernel :
    (pid sig : ℕ) (k : Kernel) (j : ℕ) (p : Proc)
    → Keeps j p k
    → p.pid ≡ 1
    → Keeps j p (signal_pid pid sig k).0
unfolding signal_pid
signal_pid-kernel pid sig k j p h one = elim (Option-cases (proc_find pid k.procs)) [
  | inl e ↦ simp (signal_pid, e) h
  | inr (i, e) ↦ elim (Option-cases (get_elem? k.procs i)) [
    | inl e' ↦ simp (signal_pid, e, e') h
    | inr (q, e') ↦ elim (Bool-cases (q.pid == 1)) [
      | inl kernel ↦ simp (signal_pid, e, e', kernel) h
      | inr other ↦ elim (Bool-cases (is_zombie q.state)) [
        | inl dead ↦ simp (signal_pid, e, e', other, dead) h
        | inr live ↦
            simp (signal_pid, e, e', other, live)
              (put_proc-Keeps i j p (signal_one sig q) q k h e' one other)
      ]
    ]
  ]
]

signal_probe-kernel :
    (pid : ℕ) (k : Kernel) (j : ℕ) (p : Proc) → Keeps j p k → Keeps j p (signal_probe pid k).0
unfolding signal_probe
signal_probe-kernel pid k j p h =
    if_all (λ (r : Kernel × ℤ). Keeps j p r.0) ((pid == 0) || (pid == 2 ^ 32 - 1)) (k, pos 0) _ h
      (elim (Option-cases (proc_find pid k.procs)) [ inl e ↦ simp e h | inr (i, e) ↦ simp e h ])

-- No signal changes the kernel's own process, whoever sends it and to whom.
pub proc_signal_send-kernel :
    (pid : ℕ) (sig : ℤ) (k : Kernel) (j : ℕ) (p : Proc)
    → get_elem? k.procs j ≡ some p
    → p.pid ≡ 1
    → get_elem? (proc_signal_send pid sig k).0.procs j ≡ some p
unfolding proc_signal_send
proc_signal_send-kernel pid (negsuc n) k j p h one = h
proc_signal_send-kernel pid (pos sig) k j p h one = elim (Bool-cases (leb proc_nsig sig)) [
  | inl e ↦ simp (proc_signal_send, e) h
  | inr e ↦ elim (Bool-cases (sig == 0)) [
    | inl e' ↦ simp (proc_signal_send, e, e') (signal_probe-kernel pid k j p h)
    | inr e' ↦ simp (proc_signal_send, e, e') (target pid)
  ]
]
  where
    Kept : Kernel × ℤ → Type 0
    Kept r = Keeps j p r.0

    target :
        (pid : ℕ)
        → Kept (
            if pid == 0
            then signal_self sig k
            else if pid == 2 ^ 32 - 1
            then (
              record k { procs = (signal_all sig k.procs).0 },
              if (signal_all sig k.procs).1 then pos 0 else negsuc 2,
            )
            else signal_pid pid sig k)
    target pid = if_all Kept (pid == 0) (signal_self sig k) _ (signal_self-kernel sig k j p h one) (
        if_all Kept (pid == 2 ^ 32 - 1)
          (
            record k { procs = (signal_all sig k.procs).0 },
            if (signal_all sig k.procs).1 then pos 0 else negsuc 2,
          )
          (signal_pid pid sig k) (signal_all-kernel sig k.procs j p h one)
          (signal_pid-kernel pid sig k j p h one))

-- What a signal to all makes of one process.
abbrev pub broadcast : ℕ → Proc → Proc
broadcast sig p = if takes_broadcast p then signal_any sig p else p

signal_all-broadcast : (sig : ℕ) (ps : List Proc) → (signal_all sig ps).0 ≡ map (broadcast sig) ps
unfolding signal_all
signal_all-broadcast sig [] = refl
signal_all-broadcast sig (p ∷ ps) = elim (Bool-cases (takes_broadcast p)) [
  | inl e ↦ rw e (ap (λ l. signal_any sig p ∷ l) (signal_all-broadcast sig ps))
  | inr e ↦ rw e (ap (λ l. p ∷ l) (signal_all-broadcast sig ps))
]

signal_all-hit :
    (sig : ℕ) (ps : List Proc) (j : ℕ) (p : Proc)
    → get_elem? ps j ≡ some p
    → takes_broadcast p ≡ true
    → (signal_all sig ps).1 ≡ true
unfolding signal_all
signal_all-hit sig [] j p h t = absurd (cc)
signal_all-hit sig (q ∷ ps) zero p h t =
    let same : takes_broadcast q ≡ true =
      ap takes_broadcast (let e : q ≡ p = ground arith in e) ∙ t in
    rw same refl
signal_all-hit sig (q ∷ ps) (suc j) p h t = elim (Bool-cases (takes_broadcast q)) [
  | inl e ↦ rw e refl
  | inr e ↦ rw e (signal_all-hit sig ps j p h t)
]

get_elem?-map :
    (f : Proc → Proc) (ps : List Proc) (j : ℕ) (p : Proc)
    → get_elem? ps j ≡ some p
    → get_elem? (map f ps) j ≡ some (f p)
get_elem?-map f [] j p h = absurd (cc)
get_elem?-map f (q ∷ ps) zero p h = ap some (ap f (ground arith))
get_elem?-map f (q ∷ ps) (suc j) p h = get_elem?-map f ps j p h

-- A signal to process -1 wakes a blocked process without ending its system call: the signal is
-- pending and the process is ready, and all else is as before, what it waits for and the value its
-- system call returns too, where a signal to the process alone sets -EINTR and ends the wait.
pub proc_signal_send-blocked :
    (sig : ℕ) (k : Kernel) (j : ℕ) (p : Proc)
    → 0 < sig
    → sig < proc_nsig
    → get_elem? k.procs j ≡ some p
    → p.used ≡ true
    → p.pid ≢ 1
    → is_blocked p.state ≡ true
    → is_wait_none p.wait_kind ≡ false
    → (get_elem? (proc_signal_send (2 ^ 32 - 1) (pos sig) k).0.procs j
        ≡ some (record p { sig_pending = bit_set sig p.sig_pending; state = proc_ready }))
      × ((proc_signal_send (2 ^ 32 - 1) (pos sig) k).1 ≡ pos 0)
      × (signal_one sig p ≡ record p {
        sig_pending = bit_set sig p.sig_pending;
        state = proc_ready;
        context = record p.context { eax = 2 ^ 32 - 4 };
        wait_kind = wait_none;
        blk_has_deadline = false;
      })
unfolding proc_signal_send signal_one
proc_signal_send-blocked sig k j p low high at used program blocked waits =
    simp
      (
        proc_signal_send,
        not_leb proc_nsig sig high,
        ==_ne sig 0 (λ e. omega arith),
        signal_all-broadcast sig k.procs,
        signal_all-hit sig k.procs j p at takes,
      )
      (
        get_elem?-map (broadcast sig) k.procs j p at ∙ ap some woken,
        refl,
        simp (signal_one, blocked, waits) refl,
      )
  where
    alive : (s : ProcState) → is_blocked s ≡ true → is_zombie s ≡ false
    alive proc_free h = refl
    alive proc_running h = refl
    alive proc_ready h = refl
    alive proc_blocked h = refl
    alive proc_zombie h = absurd (cc)

    takes : takes_broadcast p ≡ true
    takes = rw (used, ==_ne p.pid 1 program, alive p.state blocked) refl

    woken :
        broadcast sig p ≡ record p { sig_pending = bit_set sig p.sig_pending; state = proc_ready }
    woken = simp (takes, blocked) refl
