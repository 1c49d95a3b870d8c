-- ===== src/Proc/Deliver.antt =====
-- The delivery of signals to the process that runs, the return from a handler, and the two ways a
-- process loses the processor, the tick and a system call that waits, of src/proc.c.
pub mod Stack
pub mod Frame
pub mod Rounds
pub mod Switch
mod Tests
use muos.Common.{
  ℕ, zero, suc, ◌+◌, ◌-◌, ◌*◌, ◌/◌, ◌%◌, ◌^◌, Bool, true, false, not, ◌&&◌, ◌||◌, Option, none,
  some, List, [], ◌∷◌, ◌++◌, ◌==◌, if◌then◌else◌, get_elem?, set, get_or, replicate, ltb, leb, u32,
  length,
}
use muos.Common.Int.{ℤ, pos, negsuc}
use muos.Common.Mem.{Mem, blit, slice}
use muos.Common.Words.{le, le_value}
use muos.Common.Bits.{bit_at, bit_set, bit_clear}
use muos.Proc.{
  Proc, Wait, wait_none, wait_wait4, wait_waitid, proc_ready, proc_running, proc_blocked, Registers,
  Context, Kernel, proc_nsig, sigframe_max, sig_dfl, sig_ign, put_proc,
}
use muos.Proc.Sched.{
  user_base, user_sigtramp, is_running, update, user_eflags, selector, sched_pick_next,
  proc_save_ctx, proc_save_state, save_fds, proc_exit_current, switch_to,
}
use muos.Proc.Signal.{is_due, proc_sig_default_terminates}

-- The inner loop: the first signal that is due from `sig` on, `n` of them, or 0.
pub first_due : Proc → ℕ → ℕ → ℕ
first_due p sig zero = 0
first_due p sig (suc n) = if is_due p sig then sig else first_due p (suc sig) n

abbrev pub words : List ℕ → List ℕ
words [] = []
words (v ∷ vs) = le 4 v ++ words vs

-- The twelve words that are saved.
pub frame : Registers → List ℕ
frame regs =
    regs.eax ∷ regs.ebx ∷ regs.ecx ∷ regs.edx ∷ regs.esi ∷ regs.edi ∷ regs.ebp ∷ regs.useresp
    ∷ regs.eflags ∷ regs.fs ∷ regs.gs ∷ regs.eip ∷ []

-- Whether a write leaves the pages that the process may write. Below the window nothing is mapped,
-- and the trampoline above is read-only, for the kernel too.
abbrev pub off_window : ℕ → ℕ → Bool
off_window at n = ltb at user_base || ltb user_sigtramp (at + n)

-- A write of the kernel through the page directory of the process that runs. A page fault of the
-- kernel is fatal.
unfoldable pub write_active : ℕ → ℕ → List ℕ → Kernel → Kernel
write_active space at bytes k = record k {
  memory = update k.memory space (blit (k.memory space) at bytes);
  panicked = k.panicked || off_window at (length bytes);
}

-- `restorer`, or the trampoline
abbrev pub return_address : Proc → ℕ → ℕ
return_address p sig =
    if bit_at 26 (get_or p.sig_flags sig 0) && not (get_or p.sig_restorer sig 0 == 0)
    then get_or p.sig_restorer sig 0
    else user_sigtramp

-- The two words below the frame, the signal's number and the address to return to, after it.
abbrev pub write_frame : Proc → ℕ → ℕ → Registers → Kernel → Kernel
write_frame p sig base regs k =
    write_active p.space (base - 8) (le 4 (return_address p sig)) (
      write_active p.space (base - 4) (le 4 sig) (write_active p.space base (words (frame regs)) k))

abbrev pub frame_base : Registers → ℕ
frame_base regs = u32 (regs.useresp + (2 ^ 32 - 48))

-- The process, in the slot `i`, goes on in the handler `h`, or ends when its stack is no place for
-- a frame.
unfoldable pub call_handler : ℕ → Proc → ℕ → ℕ → Registers → Kernel → Kernel × Registers × Bool
call_handler i p sig h regs k =
    let base = frame_base regs in
    let (kx, rx) = proc_exit_current regs 139 true k in
    if ltb base user_base || leb user_sigtramp base then (kx, rx, true) else (
      put_proc i
          (record p {
            sig_frame_sp = set p.sig_frame_sp p.sig_depth base;
            sig_depth = p.sig_depth + 1;
          })
          (write_frame p sig base regs k),
      record regs { eip = h; useresp = base - 8; eax = sig },
      true,
    )

unfoldable pub exit_by_signal : ℕ → Bool → Registers → Kernel → Kernel × Registers × Bool
exit_by_signal code faulted regs k =
    let (kx, rx) = proc_exit_current regs code faulted k in (kx, rx, true)

-- The process without the signal.
abbrev pub taken : ℕ → Proc → Proc
taken sig p = record p { sig_pending = bit_clear sig p.sig_pending }

-- The loop of `proc_signal_deliver` for the process in the slot `i`, on fuel: a round for a signal.
unfoldable pub deliver_loop : ℕ → ℕ → Registers → Kernel → Kernel × Registers × Bool
deliver_loop zero i regs k = (k, regs, false)
deliver_loop (suc f) i regs k = elim (get_elem? k.procs i) [
  | none ↦ (k, regs, false)
  | some p ↦
      let sig = first_due p 1 31 in
      let h = get_or p.sig_handler sig 0 in
      let rest = deliver_loop f i regs (put_proc i (taken sig p) k) in
      if sig == 0
      then (k, regs, false)
      else if h == sig_ign
      then rest
      else if h == sig_dfl
      then (if proc_sig_default_terminates sig
          then exit_by_signal (128 + sig) false regs (put_proc i (taken sig p) k)
          else rest)
      else if leb sigframe_max p.sig_depth
      then exit_by_signal (128 + sig) true regs (put_proc i (taken sig p) k)
      else call_handler i (taken sig p) sig h regs (put_proc i (taken sig p) k)
]

-- 32 rounds, one more than there are signals.
unfoldable pub proc_signal_deliver : Registers → Kernel → Kernel × Registers × Bool
proc_signal_deliver regs k = elim k.current_proc [
  | none ↦ (k, regs, false)
  | some i ↦ elim (get_elem? k.procs i) [
    | none ↦ (k, regs, false)
    | some p ↦
        if (p.pid == 1) || not (regs.cs % 4 == 3)
        then (k, regs, false)
        else deliver_loop 32 i regs k
  ]
]

-- The word at an address.
unfoldable pub word_at : Mem → ℕ → ℕ
word_at m at = le_value (slice m at 4)

-- What a frame holds. The flags keep interrupts on and the I/O privilege level 0.
pub restore_frame : Mem → ℕ → Registers → Registers
restore_frame m base regs = record {
  eax = word_at m base;
  ebx = word_at m (base + 4);
  ecx = word_at m (base + 8);
  edx = word_at m (base + 12);
  esi = word_at m (base + 16);
  edi = word_at m (base + 20);
  ebp = word_at m (base + 24);
  useresp = word_at m (base + 28);
  eflags = user_eflags (word_at m (base + 32));
  fs = if word_at m (base + 36) == 0 then 0x23 else word_at m (base + 36) % 2 ^ 16;
  gs = if word_at m (base + 40) == 0 then 0x23 else word_at m (base + 40) % 2 ^ 16;
  eip = word_at m (base + 44);
  cs = 0x1B;
  ss = 0x23;
  ds = 0x23;
  es = 0x23;
}

-- The frame that is dropped may be refused after it is dropped.
unfoldable pub proc_sigreturn : Registers → Kernel → Kernel × Registers × Bool
proc_sigreturn regs k = elim k.current_proc [
  | none ↦ (k, regs, false)
  | some i ↦ elim (get_elem? k.procs i) [
    | none ↦ (k, regs, false)
    | some p ↦
        let base = get_or p.sig_frame_sp (p.sig_depth - 1) 0 in
        let k' = put_proc i (record p { sig_depth = p.sig_depth - 1 }) k in
        if p.sig_depth == 0
        then (k, regs, false)
        else if ltb base user_base || leb user_sigtramp base
        then (k', regs, false)
        else (k', restore_frame (k.memory p.space) base regs, true)
  ]
]

-- `proc_fdstate_alloc`: `h` is what `kmalloc` gives.
unfoldable pub proc_fdstate_alloc : ℕ → ℕ → Proc → Kernel → Kernel × Bool
proc_fdstate_alloc h i p k =
    if not (p.fd_state == 0) then (k, true) else if h == 0 then (k, false) else (
      put_proc i (record p { fd_state = h }) (record k { fd_refs = update k.fd_refs h 1 }),
      true,
    )

-- The process in the slot `i` is saved, and gets the state `after`.
unfoldable pub save_current : ℕ → Registers → (Proc → Proc) → Kernel → Kernel
save_current i regs after k = elim (get_elem? k.procs i) [
  | none ↦ k
  | some p ↦ put_proc i (after (proc_save_state k.user (proc_save_ctx regs p))) (save_fds p k)
]

abbrev pub same_slot : Option ℕ → ℕ → Bool
same_slot none i = false
same_slot (some j) i = j == i

-- `proc_sched_tick` after the signals: the process in the slot `i` makes room for the next.
unfoldable pub tick_switch : ℕ → Registers → Kernel → Kernel × Registers
tick_switch i regs k =
    let k' = save_current i regs (λ p. record p { state = proc_ready }) k in
    let next = sched_pick_next (some i) k'.procs in
    elim next [
      | none ↦ (save_current i regs (λ p. record p { state = proc_running }) k, regs)
      | some j ↦
          if j == i
          then (save_current i regs (λ p. record p { state = proc_running }) k, regs)
          else switch_to j regs k'
    ]

unfoldable pub proc_sched_tick : ℕ → Registers → Kernel → Kernel × Registers
proc_sched_tick h regs k = elim k.current_proc [
  | none ↦ (k, regs)
  | some i ↦ elim (get_elem? k.procs i) [
    | none ↦ (k, regs)
    | some cur ↦
        let (k1, ok) = proc_fdstate_alloc h i cur k in
        let (k2, regs2, changed) = proc_signal_deliver regs k1 in
        if (cur.pid == 1) || (not (regs.cs % 4 == 3) || not (is_running cur.state))
        then (k, regs)
        else if not ok
        then (k1, regs)
        else if changed && (k2.frame_switched || not (same_slot k2.current_proc i))
        then (k2, regs2)
        else tick_switch i regs2 k2
  ]
]

abbrev pub is_child_wait : Wait → Bool
is_child_wait wait_wait4 = true
is_child_wait wait_waitid = true
is_child_wait w = false

-- `proc_block_current_ext`
abbrev pub blocked_on : Wait → ℕ → ℤ → ℕ → Bool → ℤ → Proc → Proc
blocked_on kind ptr len deadline has_deadline fd p = record p {
  wait_kind = kind;
  wait_pid = if is_child_wait kind then len else pos 0;
  wait_status_ptr = elim kind [ wait_wait4 ↦ ptr | _ ↦ 0 ];
  wait_infop = elim kind [ wait_waitid ↦ ptr | _ ↦ 0 ];
  blk_ptr = ptr;
  blk_len = len;
  blk_fd = fd;
  blk_deadline = deadline;
  blk_has_deadline = has_deadline;
  state = proc_blocked;
}

-- Without another process to run the call does not wait: it is as before, and false.
abbrev pub not_blocked : Proc → Proc
not_blocked p = record p { state = proc_running; wait_kind = wait_none; blk_has_deadline = false }

unfoldable pub block_switch : ℕ → (Proc → Proc) → Registers → Kernel → Kernel × Registers × Bool
block_switch i wait regs k =
    let k' = save_current i regs wait k in
    elim (sched_pick_next (some i) k'.procs) [
      | none ↦
          let kn = save_current i regs (λ p. not_blocked (wait p)) k in
          (record kn { user = record (kn.user) { active = true } }, regs, false)
      | some j ↦
          let (kj, rj) =
            switch_to j regs (record k' { user = record (k'.user) { active = false } }) in
          (kj, rj, true)
    ]

unfoldable pub proc_block_current_ext :
    ℕ → Registers → Wait → ℕ → ℤ → ℕ → Bool → ℤ → Kernel → Kernel × Registers × Bool
proc_block_current_ext h regs kind ptr len deadline has_deadline fd k = elim k.current_proc [
  | none ↦ (k, regs, false)
  | some i ↦ elim (get_elem? k.procs i) [
    | none ↦ (k, regs, false)
    | some cur ↦
        let (k1, ok) = proc_fdstate_alloc h i cur k in
        let r = block_switch i (blocked_on kind ptr len deadline has_deadline fd) regs k1 in
        if cur.pid == 1 then (k, regs, false) else if not ok then (k1, regs, false) else r
  ]
]

-- `proc_block_current`
pub proc_block_current : ℕ → Registers → Wait → ℤ → ℕ → Kernel → Kernel × Registers × Bool
proc_block_current h regs kind pid status_ptr k =
    proc_block_current_ext h regs kind status_ptr pid 0 false (negsuc 0) k
