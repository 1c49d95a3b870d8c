-- ===== src/Proc/Deliver/Switch.antt =====
-- A process that the tick takes the processor from goes on later where it was.
use muos.Common.{
  ℕ, ◌%◌, ◌^◌, ◌≤◌, ◌<◌, ◌≡◌, ◌≢◌, refl, ap, ◌∙◌, true, false, some, if◌then◌else◌, get_elem?,
  get_elem?-set_ne, get_elem?-set-some, get_or, length, arith, Option-cases, inl, inr, ==_refl,
  ==_ne, not_ltb, lt→ltb,
}
use muos.Proc.{Proc, Registers, Kernel, User, put_proc, proc_ready}
use muos.Proc.Sched.{
  user_base, user_end, sched_pick_next, proc_save_ctx, proc_save_state, sched_load, load_registers,
  switch_to, update,
}
use muos.Proc.Deliver.{save_current, tick_switch}
use muos.Proc.Deliver.Stack.{IsUser, segments, user_eflags_same}

-- What the table keeps of a process that is ready again.
abbrev pub saved : Registers → User → Proc → Proc
saved regs u p = record (proc_save_ctx regs p) {
  cwd = u.cwd;
  brk = if p.is_thread then p.brk else u.brk;
  tls = u.tls;
  state = proc_ready;
}

-- The kernel with the process saved.
abbrev pub saving : ℕ → Registers → Kernel → Kernel
saving i regs k = save_current i regs (λ p. record p { state = proc_ready }) k

saving-entry :
    (i : ℕ) (p : Proc) (regs : Registers) (k : Kernel)
    → get_elem? k.procs i ≡ some p
    → get_elem? (saving i regs k).procs i ≡ some (saved regs k.user p)
unfolding save_current put_proc proc_save_state proc_save_ctx
saving-entry i p regs k at =
    simp (save_current, at) (get_elem?-set-some i (saved regs k.user p) p k.procs at)

saving-fds :
    (i : ℕ) (p : Proc) (regs : Registers) (k : Kernel)
    → get_elem? k.procs i ≡ some p
    → p.fd_state ≢ 0
    → (saving i regs k).fd_tables p.fd_state ≡ k.user.fds
unfolding save_current put_proc update
saving-fds i p regs k at has =
    simp (save_current, at, ==_ne p.fd_state 0 has, ==_refl p.fd_state) refl

switch_to-entry :
    (i j : ℕ) (regs : Registers) (k : Kernel)
    → j ≢ i
    → get_elem? (switch_to j regs k).0.procs i ≡ get_elem? k.procs i
unfolding switch_to sched_load
switch_to-entry i j regs k other = elim (Option-cases (get_elem? k.procs j)) [
  | inl e ↦ simp (switch_to, e) refl
  | inr (q, e) ↦ simp (switch_to, e) (get_elem?-set_ne k.procs _ other)
]

switch_to-fds :
    (j h : ℕ) (regs : Registers) (k : Kernel) → (switch_to j regs k).0.fd_tables h ≡ k.fd_tables h
unfolding switch_to sched_load
switch_to-fds j h regs k = elim (Option-cases (get_elem? k.procs j)) [
  | inl e ↦ simp (switch_to, e) refl
  | inr (q, e) ↦ simp (switch_to, e) refl
]

tick_switch-switch_to :
    (i j : ℕ) (regs : Registers) (k : Kernel)
    → sched_pick_next (some i) (saving i regs k).procs ≡ some j
    → j ≢ i
    → tick_switch i regs k ≡ switch_to j regs (saving i regs k)
unfolding tick_switch
tick_switch-switch_to i j regs k picked other = simp (tick_switch, picked, ==_ne j i other) refl

-- What the kernel holds of a program that can be switched out: it has an fd table, and is not a
-- thread, whose break is kept by its leader.
pub record IsProgram (p : Proc) (u : User) : Type 0 where
  pub has_fds : p.fd_state ≢ 0
  pub leads : p.is_thread ≡ false
  pub absolute : get_or u.cwd 0 0 ≡ 47
  pub short : length u.cwd < 64
  pub brk_from : user_base ≤ u.brk.base
  pub brk_up : u.brk.base ≤ u.brk.current
  pub brk_to : u.brk.current ≤ user_end
  pub limit_fits : u.tls.limit < 2 ^ 20

selector_small : (v : ℕ) → v < 2 ^ 16 → v % 2 ^ 16 ≡ v
selector_small v h = omega arith

limit_small : (v : ℕ) → v < 2 ^ 20 → v % 2 ^ 20 ≡ v
limit_small v h = omega arith

resumed_registers :
    (regs after : Registers) (p : Proc)
    → IsUser regs
    → load_registers (proc_save_ctx regs p).context after ≡ regs
unfolding load_registers proc_save_ctx
resumed_registers regs after p u =
    rw
      (
        selector_small regs.fs u.fs_fits,
        selector_small regs.gs u.gs_fits,
        ==_ne regs.fs 0 u.fs_set,
        ==_ne regs.gs 0 u.gs_set,
        user_eflags_same regs.eflags u.interrupts u.level_low u.level_high,
      )
      (segments regs 0x23 0x23 0x1B 0x23 u.extra_segment u.data_segment u.code u.stack)

resumed_user :
    (i : ℕ) (p : Proc) (regs after : Registers) (u : User) (later : Kernel)
    → IsProgram p u
    → later.fd_tables p.fd_state ≡ u.fds
    → (sched_load i (saved regs u p) after later).0.user ≡ record u { active = true }
unfolding sched_load proc_save_ctx
resumed_user i p regs after u later g fds =
    rw
      (
        ==_ne p.fd_state 0 g.has_fds,
        fds,
        g.leads,
        g.absolute,
        lt→ltb (length u.cwd) 64 g.short,
        not_ltb u.brk.base user_base g.brk_from,
        not_ltb u.brk.current u.brk.base g.brk_up,
        not_ltb user_end u.brk.current g.brk_to,
        limit_small u.tls.limit g.limit_fits,
      )
      refl

-- The tick takes the processor from a program, for another process. When the program gets the
-- processor again with its entry in the process table and its fd table as they were left, its
-- registers, fd table, working directory, break and TLS segment are those it was stopped with.
pub tick_switch-resumed :
    (i j : ℕ) (p : Proc) (regs after : Registers) (k later : Kernel)
    → get_elem? k.procs i ≡ some p
    → sched_pick_next (some i) (saving i regs k).procs ≡ some j
    → j ≢ i
    → IsUser regs
    → IsProgram p k.user
    → get_elem? later.procs i ≡ get_elem? (tick_switch i regs k).0.procs i
    → later.fd_tables p.fd_state ≡ (tick_switch i regs k).0.fd_tables p.fd_state
    → ((switch_to i after later).1 ≡ regs)
      × ((switch_to i after later).0.user ≡ record (k.user) { active = true })
      × ((switch_to i after later).0.current_proc ≡ some i)
unfolding switch_to sched_load load_registers
tick_switch-resumed i j p regs after k later at picked other u g same table =
    let away = tick_switch-switch_to i j regs k picked other in
    let entry : get_elem? later.procs i ≡ some (saved regs k.user p) =
      same
      ∙ ap (λ r. get_elem? r.0.procs i) away
      ∙ switch_to-entry i j regs (saving i regs k) other
      ∙ saving-entry i p regs k at in
    let fds : later.fd_tables p.fd_state ≡ k.user.fds =
      table
      ∙ ap (λ r. r.0.fd_tables p.fd_state) away
      ∙ switch_to-fds j p.fd_state regs (saving i regs k)
      ∙ saving-fds i p regs k at g.has_fds in
    simp (switch_to, entry)
      (resumed_registers regs after p u, resumed_user i p regs after k.user later g fds, refl)
