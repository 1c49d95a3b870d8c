-- ===== src/Proc/Reap/Numbered.antt =====
-- The numbers of the processes in a table, and how the making and the release of a process change them.
use muos.Common.{
  ℕ, zero, suc, ◌+◌, ◌-◌, ◌^◌, ◌≤◌, ◌<◌, ◌≡◌, ◌≢◌, ◌⊎◌, inl, inr, refl, ◌∙◌, sym, true, false, List,
  [], ◌∷◌, ◌==◌, if_all, length, length-set, get_elem?, set, replicate, ltb, All, u32, arith,
  Bool-cases, Option-cases,
}
use muos.Proc.{
  Proc, no_proc, Kernel, proc_max, proc_init, proc_alloc, new_proc, first_unused, proc_running,
}
use muos.Proc.Sched.{update}
use muos.Proc.Reap.{proc_reap, proc_space_unref, fdstate_unref}

-- Not two processes of one number.
abbrev pub Apart : Proc → Proc → Type 0
Apart p q = (p.used ≡ false) ⊎ ((q.used ≡ false) ⊎ (p.pid ≢ q.pid))

abbrev pub DistinctPids : List Proc → Type 0
DistinctPids [] = Unit
DistinctPids (p ∷ ps) = All (λ q. Apart p q) ps × DistinctPids ps

-- A process has a number that was given out, larger than its parent's.
abbrev pub IsNumbered : ℕ → Proc → Type 0
IsNumbered next p = (p.used ≡ false) ⊎ ((p.ppid < p.pid) × (p.pid < next))

pub record IsProcs (k : Kernel) : Type 0 where
  pub eight : length k.procs ≡ proc_max
  pub numbered : All (λ p. IsNumbered k.next_pid p) k.procs
  pub distinct : DistinctPids k.procs

All-set :
    (P : Proc → Type 0) (ps : List Proc) (i : ℕ) (q : Proc) → All P ps → P q → All P (set ps i q)
All-set P [] i q h k = tt
All-set P (p ∷ ps) zero q (h, hs) k = (k, hs)
All-set P (p ∷ ps) (suc i) q (h, hs) k = (h, All-set P ps i q hs k)

All-map : (P Q : Proc → Type 0) (ps : List Proc) → ((p : Proc) → P p → Q p) → All P ps → All Q ps
All-map P Q [] f h = tt
All-map P Q (p ∷ ps) f (h, hs) = (f p h, All-map P Q ps f hs)

Apart-sym : (p q : Proc) → Apart p q → Apart q p
Apart-sym p q (inl h) = inr (inl h)
Apart-sym p q (inr (inl h)) = inl h
Apart-sym p q (inr (inr h)) = inr (inr (λ e. h (sym e)))

DistinctPids-set :
    (ps : List Proc) (i : ℕ) (q : Proc)
    → DistinctPids ps
    → All (λ p. Apart q p) ps
    → DistinctPids (set ps i q)
DistinctPids-set [] i q d a = tt
DistinctPids-set (p ∷ ps) zero q (h, d) (a, as') = (as', d)
DistinctPids-set (p ∷ ps) (suc i) q (h, d) (a, as') =
    (All-set (λ x. Apart p x) ps i q h (Apart-sym q p a), DistinctPids-set ps i q d as')

-- A larger number than all that were given out is a new one.
Apart-new : (next : ℕ) (q p : Proc) → q.pid ≡ next → IsNumbered next p → Apart q p
Apart-new next q p e (inl h) = inr (inl h)
Apart-new next q p e (inr (a, b)) = inr (inr (λ s. omega arith))

IsNumbered-later : (a b : ℕ) (p : Proc) → a ≤ b → IsNumbered a p → IsNumbered b p
IsNumbered-later a b p h (inl e) = inl e
IsNumbered-later a b p h (inr (c, d)) = inr (c, omega arith)

pub proc_alloc-IsProcs :
    (ppid ks : ℕ) (k : Kernel)
    → ppid < k.next_pid
    → k.next_pid + 1 < 2 ^ 32
    → IsProcs k
    → IsProcs (proc_alloc ppid ks k).0
unfolding proc_alloc new_proc
proc_alloc-IsProcs ppid ks k l b g = elim (Option-cases (first_unused 0 k.procs)) [
  | inl e ↦ simp (proc_alloc, e) g
  | inr (i, e) ↦
      simp (proc_alloc, e)
        (record {
          eight = length-set k.procs i _ ∙ g.eight;
          numbered =
              All-set (λ p. IsNumbered (u32 (k.next_pid + 1)) p) k.procs i _
                (All-map (λ p. IsNumbered k.next_pid p) (λ p. IsNumbered (u32 (k.next_pid + 1)) p)
                  k.procs (λ p. IsNumbered-later k.next_pid (u32 (k.next_pid + 1)) p (omega arith))
                  g.numbered)
                (inr (l, omega arith));
          distinct = DistinctPids-set k.procs i (new_proc k.next_pid ppid ks) g.distinct (
              All-map (λ p. IsNumbered k.next_pid p) (λ p. Apart (new_proc k.next_pid ppid ks) p)
                k.procs (λ p. Apart-new k.next_pid (new_proc k.next_pid ppid ks) p refl)
                g.numbered);
        })
]

space_unref-next : (s : ℕ) (k : Kernel) → (proc_space_unref s k).next_pid ≡ k.next_pid
unfolding proc_space_unref
space_unref-next s k =
    if_all (λ (r : Kernel). r.next_pid ≡ k.next_pid) (s == 0) k _ refl
      (if_all (λ (r : Kernel). r.next_pid ≡ k.next_pid) (ltb 1 (k.refs s))
        (record k { refs = update k.refs s (k.refs s - 1) }) (record k { refs = update k.refs s 0 })
        refl refl)

fdstate_unref-next : (h : ℕ) (k : Kernel) → (fdstate_unref h k).next_pid ≡ k.next_pid
unfolding fdstate_unref
fdstate_unref-next h k =
    if_all (λ (r : Kernel). r.next_pid ≡ k.next_pid) (h == 0) k _ refl
      (if_all (λ (r : Kernel). r.next_pid ≡ k.next_pid) (ltb 1 (k.fd_refs h))
        (record k { fd_refs = update k.fd_refs h (k.fd_refs h - 1) })
        (record k { fd_refs = update k.fd_refs h 0 }) refl refl)

unref-next : (s h : ℕ) (k : Kernel) → (fdstate_unref h (proc_space_unref s k)).next_pid ≡ k.next_pid
unref-next s h k = fdstate_unref-next h (proc_space_unref s k) ∙ space_unref-next s k

pub proc_reap-IsProcs : (i : ℕ) (k : Kernel) → IsProcs k → IsProcs (proc_reap i k)
unfolding proc_reap
proc_reap-IsProcs i k g = elim (Option-cases (get_elem? k.procs i)) [
  | inl e ↦ simp (proc_reap, e) g
  | inr (p, e) ↦ elim (Bool-cases p.used) [
    | inr unused ↦ simp (proc_reap, e, unused) g
    | inl used ↦
        simp (proc_reap, e, used, unref-next p.space p.fd_state k)
          (record {
            eight = length-set k.procs i no_proc ∙ g.eight;
            numbered =
                All-set (λ p. IsNumbered k.next_pid p) k.procs i no_proc g.numbered (inl refl);
            distinct = DistinctPids-set k.procs i no_proc g.distinct (
                All-map (λ p. IsNumbered k.next_pid p) (λ p. Apart no_proc p) k.procs
                  (λ p h. inl refl) g.numbered);
          })
  ]
]

All-replicate : (P : Proc → Type 0) (n : ℕ) (q : Proc) → P q → All P (replicate n q)
All-replicate P zero q h = tt
All-replicate P (suc n) q h = (h, All-replicate P n q h)

DistinctPids-replicate : (n : ℕ) → DistinctPids (replicate n no_proc)
DistinctPids-replicate zero = tt
DistinctPids-replicate (suc n) =
    (All-replicate (λ q. Apart no_proc q) n no_proc (inl refl), DistinctPids-replicate n)

pub proc_init-IsProcs : (k : Kernel) → IsProcs (proc_init k)
unfolding proc_init
proc_init-IsProcs k = record {
  eight = refl;
  numbered =
      (inr (omega arith, omega arith), All-replicate (λ p. IsNumbered 2 p) 7 no_proc (inl refl));
  distinct = (
    All-replicate
        (λ q.
          Apart (record no_proc { used = true; pid = 1; tgid = 1; ppid = 0; state = proc_running })
            q)
        7 no_proc (inr (inl refl)),
    DistinctPids-replicate 7,
  );
}
