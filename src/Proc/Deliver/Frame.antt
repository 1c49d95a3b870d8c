-- ===== src/Proc/Deliver/Frame.antt =====
-- The registers that a handler's frame keeps come back from it.
use muos.Common.{
  ℕ, suc, ◌+◌, ◌-◌, ◌%◌, ◌≤◌, ◌<◌, ◌≡◌, refl, ap, ◌∙◌, true, false, ◌||◌, some, length, get_elem?,
  get_elem?-set-some, get_or, get_or-set_self, set, ltb, ◌==◌, ==_ne, not_ltb, not_leb, arith,
}
use muos.Common.Mem.{slice}
use muos.Common.Words.{length-le}
use muos.Proc.{Proc, Registers, Kernel, put_proc}
use muos.Proc.Sched.{user_base, user_sigtramp}
use muos.Proc.Deliver.{
  words, off_window, frame, write_active, write_frame, frame_base, restore_frame, call_handler,
  return_address, first_due, taken, deliver_loop, proc_signal_deliver, proc_sigreturn,
}
use muos.Proc.Deliver.Stack.{
  IsUser, restore_frame-frame, frame_size, write_frame-frame, CallsHandler,
}

-- What the call of the handler makes of the process and of the registers.
abbrev pub in_handler : Proc → Registers → Proc
in_handler p regs = record (taken (first_due p 1 31) p) {
  sig_frame_sp = set p.sig_frame_sp p.sig_depth (frame_base regs);
  sig_depth = p.sig_depth + 1;
}

abbrev pub handler_registers : Proc → Registers → Registers
handler_registers p regs = record regs {
  eip = get_or p.sig_handler (first_due p 1 31) 0;
  useresp = frame_base regs - 8;
  eax = first_due p 1 31;
}

deliver_loop-handler :
    (f i : ℕ) (p : Proc) (regs : Registers) (k : Kernel)
    → CallsHandler i p regs k
    → deliver_loop (suc f) i regs k
      ≡ call_handler i
          (taken (first_due p 1 31) p)
          (first_due p 1 31)
          (get_or p.sig_handler (first_due p 1 31) 0)
          regs
          (put_proc i (taken (first_due p 1 31) p) k)
unfolding deliver_loop
deliver_loop-handler f i p regs k c =
    rw
      (
        deliver_loop,
        c.at,
        ==_ne _ 0 c.is_due,
        ==_ne _ 1 c.not_ignored,
        ==_ne _ 0 c.not_default,
        not_leb 4 p.sig_depth c.depth,
      )
      refl

proc_signal_deliver-handler :
    (i : ℕ) (p : Proc) (regs : Registers) (k : Kernel)
    → CallsHandler i p regs k
    → regs.cs ≡ 0x1B
    → proc_signal_deliver regs k ≡ (
      put_proc i (in_handler p regs) (
          write_frame
            (taken (first_due p 1 31) p)
            (first_due p 1 31)
            (frame_base regs)
            regs
            (put_proc i (taken (first_due p 1 31) p) k)),
      handler_registers p regs,
      true,
    )
unfolding proc_signal_deliver call_handler
proc_signal_deliver-handler i p regs k c user =
    simp
      (
        proc_signal_deliver,
        c.runs,
        c.at,
        ==_ne p.pid 1 c.is_program,
        user_mode,
        deliver_loop-handler 31 i p regs k c,
        not_ltb (frame_base regs) user_base c.from,
        not_leb user_sigtramp (frame_base regs) c.to,
      )
      refl
  where
    user_mode : (regs.cs % 4 == 3) ≡ true
    user_mode = rw (user) refl

entry_after :
    (i : ℕ) (p : Proc) (regs : Registers) (k : Kernel)
    → CallsHandler i p regs k
    → regs.cs ≡ 0x1B
    → get_elem? (proc_signal_deliver regs k).0.procs i ≡ some (in_handler p regs)
unfolding put_proc write_active
entry_after i p regs k c user =
    simp (proc_signal_deliver-handler i p regs k c user) (
      get_elem?-set-some i _ (taken (first_due p 1 31) p) _ (get_elem?-set-some i _ p k.procs c.at))

frame_after :
    (i : ℕ) (p : Proc) (regs : Registers) (k : Kernel)
    → CallsHandler i p regs k
    → regs.cs ≡ 0x1B
    → slice ((proc_signal_deliver regs k).0.memory p.space) (frame_base regs) 48
      ≡ words (frame regs)
unfolding put_proc
frame_after i p regs k c user = simp (proc_signal_deliver-handler i p regs k c user) (
    write_frame-frame (taken (first_due p 1 31) p) (first_due p 1 31) (frame_base regs) regs _
      (omega (arith, c.from)))

proc_sigreturn-in_handler :
    (i : ℕ) (p : Proc) (regs after : Registers) (later : Kernel)
    → p.sig_depth < length p.sig_frame_sp
    → user_base ≤ frame_base regs
    → frame_base regs < user_sigtramp
    → later.current_proc ≡ some i
    → get_elem? later.procs i ≡ some (in_handler p regs)
    → proc_sigreturn after later ≡ (
      put_proc i (record (in_handler p regs) { sig_depth = p.sig_depth }) later,
      restore_frame (later.memory p.space) (frame_base regs) after,
      true,
    )
unfolding proc_sigreturn
proc_sigreturn-in_handler i p regs after later room from to runs entry =
    simp
      (
        proc_sigreturn,
        runs,
        entry,
        less p.sig_depth,
        ==_ne (p.sig_depth + 1) 0 (λ e. omega arith),
        get_or-set_self p.sig_frame_sp p.sig_depth (frame_base regs) 0 room,
        not_ltb (frame_base regs) user_base from,
        not_leb user_sigtramp (frame_base regs) to,
      )
      refl
  where
    less : (n : ℕ) → n + 1 - 1 ≡ n
    less n = omega arith

-- A handler that leaves its frame alone and returns gives the program its registers back: a signal
-- was delivered to the process, whose registers are those of a program in user mode and whose
-- stack has room, and at the return it runs with the entry in the process table, and the frame, as
-- the delivery left them.
pub deliver-proc_sigreturn :
    (i : ℕ) (p : Proc) (regs after : Registers) (k later : Kernel)
    → CallsHandler i p regs k
    → IsUser regs
    → later.current_proc ≡ some i
    → get_elem? later.procs i ≡ get_elem? (proc_signal_deliver regs k).0.procs i
    → slice (later.memory p.space) (frame_base regs) 48
      ≡ slice ((proc_signal_deliver regs k).0.memory p.space) (frame_base regs) 48
    → ((proc_sigreturn after later).1 ≡ regs) × ((proc_sigreturn after later).2 ≡ true)
deliver-proc_sigreturn i p regs after k later c u runs entry same =
    let entry' = entry ∙ entry_after i p regs k c u.code in
    let frame' = same ∙ frame_after i p regs k c u.code in
    let done =
      proc_sigreturn-in_handler i p regs after later (omega (arith, c.depth, c.frames)) c.from c.to
        runs entry' in
    (
      ap (λ r. r.1) done
          ∙ restore_frame-frame (later.memory p.space) (frame_base regs) regs after frame' u,
      ap (λ r. r.2) done,
    )

-- The delivery of a signal to a handler writes 48 bytes below the stack and two words below those.
-- The check of the stack is of the lowest of the 48 bytes alone: the kernel panics exactly when the
-- two words are below the window, or the frame goes on into the read-only page above.
pub deliver-panicked :
    (i : ℕ) (p : Proc) (regs : Registers) (k : Kernel)
    → CallsHandler i p regs k
    → regs.cs ≡ 0x1B
    → k.panicked ≡ false
    → (proc_signal_deliver regs k).0.panicked
      ≡ (ltb (frame_base regs) (user_base + 8) || ltb user_sigtramp (frame_base regs + 48))
unfolding write_active put_proc
deliver-panicked i p regs k c user calm =
    simp
      (
        proc_signal_deliver-handler i p regs k c user,
        calm,
        frame_size regs,
        length-le 4 (first_due p 1 31),
        length-le 4 (return_address (taken (first_due p 1 31) p) (first_due p 1 31)),
      )
      (merge (frame_base regs) c.from c.to)
  where
    merge :
        (b : ℕ)
        → user_base ≤ b
        → b < user_sigtramp
        → ((off_window b 48 || off_window (b - 4) 4) || off_window (b - 8) 4)
          ≡ (ltb b (user_base + 8) || ltb user_sigtramp (b + 48))
    merge b h k = ground arith
