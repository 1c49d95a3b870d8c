-- ===== src/Proc/Reap/Pids.antt =====
-- The numbers of the processes in every table that the calls of src/proc.c make.
use muos.Common.{
  if_all, get_elem?, if◌then◌else◌, ℕ, zero, suc, ◌+◌, ◌^◌, ◌<◌, ◌≡◌, inl, inr, refl, ap, ◌∙◌, sym,
  List, [], ◌∷◌, length, get_elem?, All, Bool, subst⁻¹, arith,
}
use muos.Common.Int.{ℤ}
use muos.Proc.{proc_max, Registers, Wait, Proc, Kernel, proc_max, proc_init, proc_alloc}
use muos.Proc.Ids.{
  option_all, SameProc, SameProcs, SameIds, proc_wake_parent-SameIds, proc_exit_current-SameIds,
}
use muos.Proc.Calls.{proc_signal_send-SameIds, proc_block_current_ext-SameIds}
use muos.Proc.Ticks.{proc_sched_tick-SameIds, proc_signal_deliver-SameIds, proc_sigreturn-SameIds}
use muos.Proc.Spaces.{
  proc_space_alloc-SameIds, proc_space_cow-SameIds, proc_space_share-SameIds,
  proc_fdstate_share-SameIds,
}
use muos.Proc.Sched.{proc_wake_parent, proc_exit_current}
use muos.Proc.Signal.{proc_signal_send}
use muos.Proc.Deliver.{proc_sched_tick, proc_block_current_ext, proc_signal_deliver, proc_sigreturn}
use muos.Proc.Reap.{
  proc_cleanup_children, children_loop, is_child, proc_reap, proc_space_alloc, proc_space_cow,
  proc_space_share, proc_fdstate_share,
}
use muos.Proc.Reap.Numbered.{
  Apart, DistinctPids, IsNumbered, IsProcs, proc_alloc-IsProcs, proc_reap-IsProcs,
  proc_init-IsProcs,
}

length-SameProcs : (ps qs : List Proc) → SameProcs ps qs → length qs ≡ length ps
length-SameProcs [] [] h = refl
length-SameProcs [] (q ∷ qs) h = absurd h
length-SameProcs (p ∷ ps) [] h = absurd h
length-SameProcs (p ∷ ps) (q ∷ qs) (a, h) = ap suc (length-SameProcs ps qs h)

All-SameProcs :
    (P Q : Proc → Type 0)
    → ((p q : Proc) → SameProc p q → P p → Q q)
    → (ps qs : List Proc) → SameProcs ps qs
    → All P ps
    → All Q qs
All-SameProcs P Q f [] [] h a = tt
All-SameProcs P Q f [] (q ∷ qs) h a = absurd h
All-SameProcs P Q f (p ∷ ps) [] h a = absurd h
All-SameProcs P Q f (p ∷ ps) (q ∷ qs) (s, h) (a, as') = (f p q s a, All-SameProcs P Q f ps qs h as')

IsNumbered-SameProc : (next : ℕ) (p q : Proc) → SameProc p q → IsNumbered next p → IsNumbered next q
IsNumbered-SameProc next p q (u, n, m) (inl h) = inl (u ∙ h)
IsNumbered-SameProc next p q (u, n, m) (inr (a, b)) = inr (omega arith, omega arith)

Apart-SameProc : (p p' q q' : Proc) → SameProc p p' → SameProc q q' → Apart p q → Apart p' q'
Apart-SameProc p p' q q' (u, n, m) s (inl h) = inl (u ∙ h)
Apart-SameProc p p' q q' s (u, n, m) (inr (inl h)) = inr (inl (u ∙ h))
Apart-SameProc p p' q q' (u, n, m) (v, w, x) (inr (inr h)) = inr (inr (λ e. h (sym n ∙ e ∙ w)))

DistinctPids-SameProcs : (ps qs : List Proc) → SameProcs ps qs → DistinctPids ps → DistinctPids qs
DistinctPids-SameProcs [] [] h d = tt
DistinctPids-SameProcs [] (q ∷ qs) h d = absurd h
DistinctPids-SameProcs (p ∷ ps) [] h d = absurd h
DistinctPids-SameProcs (p ∷ ps) (q ∷ qs) (s, h) (a, d) = (
  All-SameProcs (λ x. Apart p x) (λ y. Apart q y) (λ x y t. Apart-SameProc p q x y s t) ps qs h a,
  DistinctPids-SameProcs ps qs h d,
)

IsProcs-SameIds : (k k' : Kernel) → SameIds k k' → IsProcs k → IsProcs k'
IsProcs-SameIds k k' (h, n) g = record {
  eight = length-SameProcs k.procs k'.procs h ∙ g.eight;
  numbered =
      subst⁻¹ (λ next. All (λ p. IsNumbered next p) k'.procs) n
        (All-SameProcs (λ p. IsNumbered k.next_pid p) (λ p. IsNumbered k.next_pid p)
          (IsNumbered-SameProc k.next_pid) k.procs k'.procs h g.numbered);
  distinct = DistinctPids-SameProcs k.procs k'.procs h g.distinct;
}

children_loop-IsProcs :
    (cleanup : ℕ → Kernel → Kernel)
    → ((pid : ℕ) (k : Kernel) → IsProcs k → IsProcs (cleanup pid k))
    → (pid n i : ℕ) (k : Kernel) → IsProcs k
    → IsProcs (children_loop cleanup pid n i k)
unfolding children_loop
children_loop-IsProcs cleanup c pid zero i k g = g
children_loop-IsProcs cleanup c pid (suc n) i k g =
    children_loop-IsProcs cleanup c pid n (i + 1) _ (
      option_all (λ (r : Kernel). IsProcs r) (get_elem? k.procs i) k
        (λ p. if is_child pid p then proc_reap i (cleanup p.pid k) else k) g
        (λ p e.
          if_all (λ (r : Kernel). IsProcs r) (is_child pid p) (proc_reap i (cleanup p.pid k)) k
            (proc_reap-IsProcs i (cleanup p.pid k) (c p.pid k g)) g))

proc_cleanup_children-IsProcs :
    (f pid : ℕ) (k : Kernel) → IsProcs k → IsProcs (proc_cleanup_children f pid k)
unfolding proc_cleanup_children
proc_cleanup_children-IsProcs zero pid k g = g
proc_cleanup_children-IsProcs (suc f) pid k g =
    children_loop-IsProcs (proc_cleanup_children f) (proc_cleanup_children-IsProcs f) pid proc_max 0
      k g

-- The calls between the making and the release of a process.
pub data Call : Kernel → Kernel → Type 0 where
  tick : (h : ℕ) (regs : Registers) (k : Kernel) → Call k (proc_sched_tick h regs k).0
  block :
      (h : ℕ) (regs : Registers) (kind : Wait) (ptr : ℕ) (len : ℤ) (deadline : ℕ)
      (has_deadline : Bool) (fd : ℤ) (k : Kernel)
      → Call k (proc_block_current_ext h regs kind ptr len deadline has_deadline fd k).0
  exits :
      (regs : Registers) (code : ℕ) (faulted : Bool) (k : Kernel)
      → Call k (proc_exit_current regs code faulted k).0
  wake : (child : Proc) (k : Kernel) → Call k (proc_wake_parent child k)
  send : (pid : ℕ) (sig : ℤ) (k : Kernel) → Call k (proc_signal_send pid sig k).0
  delivery : (regs : Registers) (k : Kernel) → Call k (proc_signal_deliver regs k).0
  returns : (regs : Registers) (k : Kernel) → Call k (proc_sigreturn regs k).0
  new_space : (s mem tramp pd i : ℕ) (k : Kernel) → Call k (proc_space_alloc s mem tramp pd i k).0
  copy_space :
      (s tramp pd i : ℕ) (parent : Proc) (k : Kernel)
      → Call k (proc_space_cow s tramp pd i parent k).0
  share_space : (i : ℕ) (parent : Proc) (k : Kernel) → Call k (proc_space_share i parent k).0
  share_fds : (i : ℕ) (parent : Proc) (k : Kernel) → Call k (proc_fdstate_share i parent k).0

Call-SameIds : (a b : Kernel) → Call a b → SameIds a b
Call-SameIds a b (tick h regs k) = (proc_sched_tick-SameIds h regs k).kept
Call-SameIds a b (block h regs kind ptr len deadline has_deadline fd k) =
    (proc_block_current_ext-SameIds h regs kind ptr len deadline has_deadline fd k).kept
Call-SameIds a b (exits regs code faulted k) = proc_exit_current-SameIds regs code faulted k
Call-SameIds a b (wake child k) = proc_wake_parent-SameIds child k
Call-SameIds a b (send pid sig k) = (proc_signal_send-SameIds pid sig k).kept
Call-SameIds a b (delivery regs k) = (proc_signal_deliver-SameIds regs k).kept
Call-SameIds a b (returns regs k) = (proc_sigreturn-SameIds regs k).kept
Call-SameIds a b (new_space s mem tramp pd i k) = (proc_space_alloc-SameIds s mem tramp pd i k).kept
Call-SameIds a b (copy_space s tramp pd i parent k) =
    (proc_space_cow-SameIds s tramp pd i parent k).kept
Call-SameIds a b (share_space i parent k) = (proc_space_share-SameIds i parent k).kept
Call-SameIds a b (share_fds i parent k) = (proc_fdstate_share-SameIds i parent k).kept

-- The states that these calls make from the one of `proc_init`, with `proc_alloc` for a parent that has
-- a number, as long as the numbers do not wrap, and with `proc_reap` and `proc_cleanup_children`.
pub data Reach : Kernel → Type 0 where
  init : (k : Kernel) → Reach (proc_init k)
  alloc :
      {k : Kernel} (ppid ks : ℕ)
      → ppid < k.next_pid
      → k.next_pid + 1 < 2 ^ 32
      → Reach k
      → Reach (proc_alloc ppid ks k).0
  reap : {k : Kernel} (i : ℕ) → Reach k → Reach (proc_reap i k)
  cleanup : {k : Kernel} (f pid : ℕ) → Reach k → Reach (proc_cleanup_children f pid k)
  call : {k k' : Kernel} → Call k k' → Reach k → Reach k'

pub Reach-IsProcs : (k : Kernel) → Reach k → IsProcs k
Reach-IsProcs k (init k') = proc_init-IsProcs k'
Reach-IsProcs k (alloc {k = k'} ppid ks l b r) =
    proc_alloc-IsProcs ppid ks k' l b (Reach-IsProcs k' r)
Reach-IsProcs k (reap {k = k'} i r) = proc_reap-IsProcs i k' (Reach-IsProcs k' r)
Reach-IsProcs k (cleanup {k = k'} f pid r) =
    proc_cleanup_children-IsProcs f pid k' (Reach-IsProcs k' r)
Reach-IsProcs k (call {k = a} {k' = b} c r) =
    IsProcs-SameIds a b (Call-SameIds a b c) (Reach-IsProcs a r)
