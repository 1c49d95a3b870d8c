-- ===== src/Proc/Ticks.antt =====
-- The delivery of signals and the tick of src/proc.c leave all processes their numbers.
use muos.Common.{
  ℕ, zero, suc, ◌+◌, ◌-◌, ◌%◌, ◌≡◌, refl, Bool, true, false, not, ◌&&◌, ◌||◌, some, ◌==◌, if_all,
  get_elem?, get_elem?-set-some, get_or, set, ltb, leb,
}
use muos.Proc.{Proc, Kernel, Registers, put_proc, sig_ign, sig_dfl, sigframe_max}
use muos.Proc.Ids.{
  SameIds, SameIds-refl, SameIds-trans, put_proc-SameIds, option_all, proc_exit_current-SameIds,
}
use muos.Proc.Calls.{
  Left, goes, stay, from_pair, LeftBy, goes_by, goes_triple, proc_fdstate_alloc-SameIds,
  tick_switch-SameIds,
}
use muos.Proc.Sched.{proc_exit_current, user_base, user_sigtramp, is_running}
use muos.Proc.Signal.{proc_sig_default_terminates}
use muos.Proc.Deliver.{
  call_handler, exit_by_signal, taken, deliver_loop, proc_signal_deliver, proc_sigreturn,
  restore_frame, first_due, proc_fdstate_alloc, tick_switch, proc_sched_tick, write_active,
  write_frame, frame_base, same_slot,
}

exit_by_signal-SameIds :
    (code : ℕ) (faulted : Bool) (regs : Registers) (k : Kernel)
    → LeftBy k (exit_by_signal code faulted regs k)
unfolding exit_by_signal
exit_by_signal-SameIds code faulted regs k =
    let r = proc_exit_current regs code faulted k in
    goes_by k r.0 r.1 true (proc_exit_current-SameIds regs code faulted k)

call_handler-SameIds :
    (i : ℕ) (p : Proc) (sig h : ℕ) (regs : Registers) (k : Kernel)
    → get_elem? k.procs i ≡ some p
    → LeftBy k (call_handler i p sig h regs k)
unfolding call_handler write_active
call_handler-SameIds i p sig h regs k e =
    let base = frame_base regs in
    let r = proc_exit_current regs 139 true k in
    let q = record p {
      sig_frame_sp = set p.sig_frame_sp p.sig_depth base;
      sig_depth = p.sig_depth + 1;
    } in
    let k' = write_frame p sig base regs k in
    if_all (LeftBy k) (ltb base user_base || leb user_sigtramp base) (r.0, r.1, true)
      (put_proc i q k', record regs { eip = h; useresp = base - 8; eax = sig }, true)
      (goes_by k r.0 r.1 true (proc_exit_current-SameIds regs 139 true k))
      (goes_triple (put_proc i q k', record regs { eip = h; useresp = base - 8; eax = sig }, true)
        (put_proc-SameIds k' i p q e (refl, refl, refl)))

LeftBy-trans :
    (k k' : Kernel) (r : Kernel × Registers × Bool) → SameIds k k' → LeftBy k' r → LeftBy k r
LeftBy-trans k k' r h l = record { kept = SameIds-trans k k' r.0 h l.kept }

deliver_loop-SameIds :
    (f i : ℕ) (regs : Registers) (k : Kernel) → LeftBy k (deliver_loop f i regs k)
unfolding deliver_loop
deliver_loop-SameIds zero i regs k = goes_by k k regs false (SameIds-refl k)
deliver_loop-SameIds (suc f) i regs k =
    option_all (LeftBy k) (get_elem? k.procs i) _ _ (goes_by k k regs false (SameIds-refl k))
      (λ p e.
        let sig = first_due p 1 31 in
        let h = get_or p.sig_handler sig 0 in
        let k' = put_proc i (taken sig p) k in
        let same = put_proc-SameIds k i p (taken sig p) e (refl, refl, refl) in
        let rest =
          LeftBy-trans k k' (deliver_loop f i regs k') same (deliver_loop-SameIds f i regs k') in
        let by_signal = λ (faulted : Bool).
          LeftBy-trans k k' (exit_by_signal (128 + sig) faulted regs k') same
            (exit_by_signal-SameIds (128 + sig) faulted regs k') in
        let handled = LeftBy-trans k k' (call_handler i (taken sig p) sig h regs k') same (
          call_handler-SameIds i (taken sig p) sig h regs k'
            (unfold put_proc in get_elem?-set-some i (taken sig p) p k.procs e)) in
        if_all (LeftBy k) (sig == 0) _ _ (goes_by k k regs false (SameIds-refl k)) (
          if_all (LeftBy k) (h == sig_ign) _ _ rest (
            if_all (LeftBy k) (h == sig_dfl) _ _
              (if_all (LeftBy k) (proc_sig_default_terminates sig) _ _ (by_signal false) rest)
              (if_all (LeftBy k) (leb sigframe_max p.sig_depth) _ _ (by_signal true) handled))))

pub proc_signal_deliver-SameIds :
    (regs : Registers) (k : Kernel) → LeftBy k (proc_signal_deliver regs k)
unfolding proc_signal_deliver
proc_signal_deliver-SameIds regs k =
    option_all (LeftBy k) k.current_proc _ _ (goes_by k k regs false (SameIds-refl k)) (λ i c.
      option_all (LeftBy k) (get_elem? k.procs i) _ _ (goes_by k k regs false (SameIds-refl k))
        (λ p e.
          if_all (LeftBy k) ((p.pid == 1) || not (regs.cs % 4 == 3)) _ _
            (goes_by k k regs false (SameIds-refl k)) (deliver_loop-SameIds 32 i regs k)))

pub proc_sched_tick-SameIds :
    (h : ℕ) (regs : Registers) (k : Kernel) → Left k (proc_sched_tick h regs k)
unfolding proc_sched_tick
proc_sched_tick-SameIds h regs k = option_all (Left k) k.current_proc _ _ (stay k) (λ i c.
    option_all (Left k) (get_elem? k.procs i) _ _ (stay k) (λ p e.
      let k1 = (proc_fdstate_alloc h i p k).0 in
      let made = (proc_fdstate_alloc-SameIds h i p k e).kept in
      let d = proc_signal_deliver regs k1 in
      let after = SameIds-trans k k1 d.0 made (proc_signal_deliver-SameIds regs k1).kept in
      let t = tick_switch i d.1 d.0 in
      if_all (Left k) ((p.pid == 1) || (not (regs.cs % 4 == 3) || not (is_running p.state))) _ _
        (stay k)
        (if_all (Left k) (not (proc_fdstate_alloc h i p k).1) _ _ (goes k k1 made) (
          if_all (Left k) (d.2 && (d.0.frame_switched || not (same_slot d.0.current_proc i))) _ _
            (goes k d.0 after)
            (from_pair t (SameIds-trans k d.0 t.0 after (tick_switch-SameIds i d.1 d.0).kept))))))

pub proc_sigreturn-SameIds : (regs : Registers) (k : Kernel) → LeftBy k (proc_sigreturn regs k)
unfolding proc_sigreturn
proc_sigreturn-SameIds regs k =
    option_all (LeftBy k) k.current_proc _ _ (goes_by k k regs false (SameIds-refl k)) (λ i c.
      option_all (LeftBy k) (get_elem? k.procs i) _ _ (goes_by k k regs false (SameIds-refl k))
        (λ p e.
          let q = record p { sig_depth = p.sig_depth - 1 } in
          let base = get_or p.sig_frame_sp (p.sig_depth - 1) 0 in
          let same = put_proc-SameIds k i p q e (refl, refl, refl) in
          if_all (LeftBy k) (p.sig_depth == 0) _ _ (goes_by k k regs false (SameIds-refl k)) (
            if_all (LeftBy k) (ltb base user_base || leb user_sigtramp base) _ _
              (goes_by k (put_proc i q k) regs false same)
              (goes_by k (put_proc i q k) (restore_frame (k.memory p.space) base regs) true same))))
