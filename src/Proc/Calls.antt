-- ===== src/Proc/Calls.antt =====
-- The signals, the switches and the set-up of a process in src/proc.c leave all processes their numbers.
use muos.Common.{ℕ, ◌≡◌, refl, Bool, true, false, not, some, List, [], ◌∷◌, ◌==◌, if_all, get_elem?}
use muos.Common.Int.{ℤ, pos, negsuc}
use muos.Proc.{Proc, Kernel, Registers, Wait, put_proc, proc_find, proc_ready, proc_running}
use muos.Proc.Ids.{
  SameProc, SameProcs, SameIds, SameIds-refl, SameIds-trans, put_proc-SameIds, option_all,
  switch_to-SameIds,
}
use muos.Proc.Sched.{
  update, is_zombie, sched_pick_next, proc_save_state, proc_save_ctx, save_fds, switch_to,
}
use muos.Proc.Signal.{
  signal_all, signal_one, signal_self, signal_pid, signal_probe, proc_signal_send, takes_broadcast,
  add_pending,
}
use muos.Proc.Deliver.{
  proc_fdstate_alloc, save_current, tick_switch, block_switch, proc_block_current_ext, blocked_on,
  not_blocked,
}

-- The state that an operation with a result leaves.
pub record Left {ℓ} {A : Type ℓ} (k : Kernel) (r : Kernel × A) : Type 0 where
  pub kept : SameIds k r.0

pub goes {ℓ} : {A : Type ℓ} (k k' : Kernel) {x : A} → SameIds k k' → Left k (k', x)
goes k k' h = record { kept = h }

pub stay {ℓ} : {A : Type ℓ} (k : Kernel) {x : A} → Left k (k, x)
stay k = goes k k (SameIds-refl k)

-- The same for a switch, which also has registers and a Boolean.
pub record LeftBy (k : Kernel) (r : Kernel × Registers × Bool) : Type 0 where
  pub kept : SameIds k r.0

pub goes_by : (k k' : Kernel) (regs : Registers) (b : Bool) → SameIds k k' → LeftBy k (k', regs, b)
goes_by k k' regs b h = record { kept = h }

pub from_pair {ℓ} : {A : Type ℓ} {k : Kernel} (r : Kernel × A) → SameIds k r.0 → Left k r
from_pair r h = record { kept = h }

pub goes_triple : {k : Kernel} (r : Kernel × Registers × Bool) → SameIds k r.0 → LeftBy k r
goes_triple r h = record { kept = h }

signal_all-SameProcs : (sig : ℕ) (ps : List Proc) → SameProcs ps (signal_all sig ps).0
unfolding signal_all
signal_all-SameProcs sig [] = tt
signal_all-SameProcs sig (p ∷ ps) =
    if_all (λ (r : List Proc × Bool). SameProcs (p ∷ ps) r.0) (takes_broadcast p) _ _
      (
        if_all (λ (r : Proc). SameProc p r) _ _ _ (refl, refl, refl) (refl, refl, refl),
        signal_all-SameProcs sig ps,
      )
      ((refl, refl, refl), signal_all-SameProcs sig ps)

signal_one-SameProc : (sig : ℕ) (p : Proc) → SameProc p (signal_one sig p)
unfolding signal_one
signal_one-SameProc sig p =
    if_all (λ (r : Proc). SameProc p r) _ _ _
      (if_all (λ (r : Proc). SameProc p r) _ _ _ (refl, refl, refl) (refl, refl, refl))
      (refl, refl, refl)

signal_self-SameIds : (sig : ℕ) (k : Kernel) → Left k (signal_self sig k)
unfolding signal_self
signal_self-SameIds sig k = option_all (Left k) k.current_proc _ _ (stay k) (λ i c.
    option_all (Left k) (get_elem? k.procs i) _ _ (stay k) (λ p h. if_all (Left k) _ _ _ (stay k) (
      goes k (put_proc i (add_pending sig p) k)
        (put_proc-SameIds k i p (add_pending sig p) h (refl, refl, refl)))))

signal_pid-SameIds : (pid sig : ℕ) (k : Kernel) → Left k (signal_pid pid sig k)
unfolding signal_pid
signal_pid-SameIds pid sig k = option_all (Left k) (proc_find pid k.procs) _ _ (stay k) (λ i c.
    option_all (Left k) (get_elem? k.procs i) _ _ (stay k) (λ p h.
      if_all (Left k) (p.pid == 1) _ _ (stay k) (
        if_all (Left k) (is_zombie p.state) _ _ (stay k) (
          goes k (put_proc i (signal_one sig p) k)
            (put_proc-SameIds k i p (signal_one sig p) h (signal_one-SameProc sig p))))))

signal_probe-SameIds : (pid : ℕ) (k : Kernel) → Left k (signal_probe pid k)
unfolding signal_probe
signal_probe-SameIds pid k =
    if_all (Left k) _ _ _ (stay k)
      (option_all (Left k) (proc_find pid k.procs) _ _ (stay k) (λ i h. stay k))

pub proc_signal_send-SameIds :
    (pid : ℕ) (sig : ℤ) (k : Kernel) → Left k (proc_signal_send pid sig k)
unfolding proc_signal_send
proc_signal_send-SameIds pid (negsuc n) k = stay k
proc_signal_send-SameIds pid (pos sig) k = if_all (Left k) _ _ _ (stay k) (
    if_all (Left k) _ _ _ (signal_probe-SameIds pid k) (
      if_all (Left k) _ _ _ (signal_self-SameIds sig k) (
        if_all (Left k) _ _ _
          (goes k (record k { procs = (signal_all sig k.procs).0 })
            (signal_all-SameProcs sig k.procs, refl))
          (signal_pid-SameIds pid sig k))))

save_current-SameIds :
    (i : ℕ) (regs : Registers) (after : Proc → Proc) (k : Kernel)
    → ((p : Proc) → SameProc p (after p))
    → SameIds k (save_current i regs after k)
unfolding save_current proc_save_state proc_save_ctx
save_current-SameIds i regs after k s =
    option_all (SameIds k) (get_elem? k.procs i) _ _ (SameIds-refl k) (λ p h.
      put_proc-SameIds (save_fds p k) i p (after (proc_save_state k.user (proc_save_ctx regs p))) h
        (s (proc_save_state k.user (proc_save_ctx regs p))))

pub tick_switch-SameIds : (i : ℕ) (regs : Registers) (k : Kernel) → Left k (tick_switch i regs k)
unfolding tick_switch
tick_switch-SameIds i regs k =
    option_all (Left k) (sched_pick_next (some i) ready.procs) _ _ (goes k _ stays) (λ j e.
      if_all (Left k) (j == i) _ _ (goes k _ stays) (
        from_pair (switch_to j regs ready) (
          SameIds-trans k ready (switch_to j regs ready).0 made_ready
            (switch_to-SameIds j regs ready))))
  where
    ready : Kernel
    ready = save_current i regs (λ p. record p { state = proc_ready }) k

    made_ready : SameIds k ready
    made_ready =
        save_current-SameIds i regs (λ p. record p { state = proc_ready }) k
          (λ p. (refl, refl, refl))

    stays : SameIds k (save_current i regs (λ p. record p { state = proc_running }) k)
    stays =
        save_current-SameIds i regs (λ p. record p { state = proc_running }) k
          (λ p. (refl, refl, refl))

block_switch-SameIds :
    (i : ℕ) (wait : Proc → Proc) (regs : Registers) (k : Kernel)
    → ((p : Proc) → SameProc p (wait p))
    → LeftBy k (block_switch i wait regs k)
unfolding block_switch
block_switch-SameIds i wait regs k s =
    option_all (LeftBy k) (sched_pick_next (some i) waiting.procs) _ _
      (goes_by k (record unchanged { user = record (unchanged.user) { active = true } }) regs false
        (save_current-SameIds i regs (λ p. not_blocked (wait p)) k s))
      (λ j e. goes_by k (switch_to j regs away).0 (switch_to j regs away).1 true (
        SameIds-trans k waiting (switch_to j regs away).0 (save_current-SameIds i regs wait k s)
          (switch_to-SameIds j regs away)))
  where
    unchanged : Kernel
    unchanged = save_current i regs (λ p. not_blocked (wait p)) k

    waiting : Kernel
    waiting = save_current i regs wait k

    away : Kernel
    away = record waiting { user = record (waiting.user) { active = false } }

pub proc_fdstate_alloc-SameIds :
    (h i : ℕ) (p : Proc) (k : Kernel)
    → get_elem? k.procs i ≡ some p
    → Left k (proc_fdstate_alloc h i p k)
unfolding proc_fdstate_alloc
proc_fdstate_alloc-SameIds h i p k e =
    if_all (Left k) (not (p.fd_state == 0)) _ _ (stay k {x = true}) (
      if_all (Left k) (h == 0) _ _ (stay k {x = false}) (
        goes k
          (put_proc i (record p { fd_state = h }) (record k { fd_refs = update k.fd_refs h 1 }))
          {x = true}
          (put_proc-SameIds (record k { fd_refs = update k.fd_refs h 1 }) i p
            (record p { fd_state = h }) e (refl, refl, refl))))

pub proc_block_current_ext-SameIds :
    (h : ℕ) (regs : Registers) (kind : Wait) (ptr : ℕ) (len : ℤ) (deadline : ℕ)
    (has_deadline : Bool) (fd : ℤ) (k : Kernel)
    → LeftBy k (proc_block_current_ext h regs kind ptr len deadline has_deadline fd k)
unfolding proc_block_current_ext
proc_block_current_ext-SameIds h regs kind ptr len deadline has_deadline fd k =
    option_all (LeftBy k) k.current_proc _ _ (goes_by k k regs false (SameIds-refl k)) (λ i c.
      option_all (LeftBy k) (get_elem? k.procs i) _ _ (goes_by k k regs false (SameIds-refl k))
        (λ p e.
          let k1 = (proc_fdstate_alloc h i p k).0 in
          let wait = blocked_on kind ptr len deadline has_deadline fd in
          let made = (proc_fdstate_alloc-SameIds h i p k e).kept in
          if_all (LeftBy k) _ _ _ (goes_by k k regs false (SameIds-refl k)) (
            if_all (LeftBy k) _ _ _ (goes_by k k1 regs false made) (
              goes_triple (block_switch i wait regs k1) (
                SameIds-trans k k1 (block_switch i wait regs k1).0 made
                  (block_switch-SameIds i wait regs k1 (λ q. (refl, refl, refl))).kept)))))
