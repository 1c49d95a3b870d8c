-- ===== src/Proc/Signal.antt =====
-- The signals of src/proc.c: sending them, their actions, and the alarm and time limits of the tick.
-- A mask is an unsigned number, read and written bit by bit.
pub mod Send
mod Tests
use muos.Common.{
  ℕ, zero, suc, ◌+◌, ◌-◌, ◌*◌, ◌/◌, ◌%◌, ◌^◌, Bool, true, false, not, ◌&&◌, ◌||◌, Option, none,
  some, List, [], ◌∷◌, ◌==◌, if◌then◌else◌, get_elem?, set, get_or, replicate, ltb, leb,
}
use muos.Common.Int.{ℤ, pos, negsuc}
use muos.Common.Bits.{bit_at, bit_set, bit_clear}
use muos.Proc.{
  Proc, Wait, wait_none, wait_poll, proc_ready, Kernel, proc_nsig, sig_dfl, sig_ign, proc_find,
  put_proc,
}
use muos.Proc.Sched.{is_blocked, is_zombie}

-- The signals whose default action ends the process.
pub proc_sig_default_terminates : ℕ → Bool
proc_sig_default_terminates sig =
    (leb 1 sig && leb sig 16) || ((leb 24 sig && leb sig 27) || (leb 29 sig && leb sig 31))

pub proc_signal_reset : Proc → Proc
proc_signal_reset p = record p {
  sig_pending = 0;
  sig_blocked = 0;
  sig_depth = 0;
  alarm_tick = 0;
  sig_handler = replicate proc_nsig sig_dfl;
  sig_flags = replicate proc_nsig 0;
  sig_restorer = replicate proc_nsig 0;
}

-- `proc_signal_inherit` of the child.
pub proc_signal_inherit : Proc → Proc → Proc
proc_signal_inherit child parent = record (proc_signal_reset child) {
  sig_handler = parent.sig_handler;
  sig_flags = parent.sig_flags;
  sig_restorer = parent.sig_restorer;
  sig_blocked = parent.sig_blocked;
}

abbrev pub is_wait_none : Wait → Bool
is_wait_none wait_none = true
is_wait_none w = false

abbrev pub is_wait_poll : Wait → Bool
is_wait_poll wait_poll = true
is_wait_poll w = false

abbrev pub add_pending : ℕ → Proc → Proc
add_pending sig p = record p { sig_pending = bit_set sig p.sig_pending }

-- The system call that waits ends with -EINTR.
abbrev pub interrupted : Proc → Proc
interrupted p = record p {
  context = record p.context { eax = 2 ^ 32 - 4 };
  wait_kind = wait_none;
  blk_has_deadline = false;
}

-- What a signal to one process does to it.
unfoldable pub signal_one : ℕ → Proc → Proc
signal_one sig t =
    let t' = add_pending sig t in
    if is_blocked t.state
    then record (if is_wait_none t.wait_kind then t' else interrupted t') { state = proc_ready }
    else t'

-- The condition and the body of the loop over all processes.
abbrev pub takes_broadcast : Proc → Bool
takes_broadcast p = p.used && (not (p.pid == 1) && not (is_zombie p.state))

abbrev pub signal_any : ℕ → Proc → Proc
signal_any sig p =
    if is_blocked p.state
    then record (add_pending sig p) { state = proc_ready }
    else add_pending sig p

-- The loop, and `hit`.
unfoldable pub signal_all : ℕ → List Proc → List Proc × Bool
signal_all sig [] = ([], false)
signal_all sig (p ∷ ps) =
    let (ps', hit) = signal_all sig ps in
    if takes_broadcast p then (signal_any sig p ∷ ps', true) else (p ∷ ps', hit)

-- To the process that calls.
unfoldable pub signal_self : ℕ → Kernel → Kernel × ℤ
signal_self sig k = elim k.current_proc [
  | none ↦ (k, negsuc 2)
  | some i ↦ elim (get_elem? k.procs i) [
    | none ↦ (k, negsuc 2)
    | some p ↦ if p.pid == 1 then (k, negsuc 2) else (put_proc i (add_pending sig p) k, pos 0)
  ]
]

unfoldable pub signal_pid : ℕ → ℕ → Kernel → Kernel × ℤ
signal_pid pid sig k = elim (proc_find pid k.procs) [
  | none ↦ (k, negsuc 2)
  | some i ↦ elim (get_elem? k.procs i) [
    | none ↦ (k, negsuc 2)
    | some t ↦
        if t.pid == 1
        then (k, negsuc 0)
        else if is_zombie t.state
        then (k, pos 0)
        else (put_proc i (signal_one sig t) k, pos 0)
  ]
]

-- Signal 0 only asks whether there is such a process.
unfoldable pub signal_probe : ℕ → Kernel → Kernel × ℤ
signal_probe pid k =
    if (pid == 0) || (pid == 2 ^ 32 - 1)
    then (k, pos 0)
    else elim (proc_find pid k.procs) [ none ↦ (k, negsuc 2) | some i ↦ (k, pos 0) ]

-- `proc_signal_send`; the results are 0, -EINVAL, -ESRCH and -EPERM.
unfoldable pub proc_signal_send : ℕ → ℤ → Kernel → Kernel × ℤ
proc_signal_send pid (negsuc n) k = (k, negsuc 21)
proc_signal_send pid (pos sig) k =
    let (ps, hit) = signal_all sig k.procs in
    if leb proc_nsig sig
    then (k, negsuc 21)
    else if sig == 0
    then signal_probe pid k
    else if pid == 0
    then signal_self sig k
    else if pid == 2 ^ 32 - 1
    then (record k { procs = ps }, if hit then pos 0 else negsuc 2)
    else signal_pid pid sig k

-- `ready & (1u << sig)`: pending and not blocked.
abbrev pub is_due : Proc → ℕ → Bool
is_due p sig = bit_at sig p.sig_pending && not (bit_at sig p.sig_blocked)

-- The signals from `sig` on, `n` of them.
abbrev pub due_from : Proc → ℕ → ℕ → Bool
due_from p sig zero = false
due_from p sig (suc n) = if is_due p sig then true else due_from p (suc sig) n

-- `proc_signal_pending`: some bit of `sig_pending & ~sig_blocked`, of all 32.
pub proc_signal_pending : Kernel → Bool
proc_signal_pending k = elim k.current_proc [
  | none ↦ false
  | some i ↦ elim (get_elem? k.procs i) [
    | none ↦ false
    | some p ↦ if p.pid == 1 then false else due_from p 0 proc_nsig
  ]
]

abbrev pub bad_signal : ℤ → Bool
bad_signal (negsuc n) = true
bad_signal (pos n) = (n == 0) || leb proc_nsig n

-- `proc_signal_set_action`: the process, and the old handler or 22 for an error.
pub proc_signal_set_action : ℤ → ℕ → ℕ → ℕ → Proc → Proc × ℕ
proc_signal_set_action (negsuc n) handler flags restorer p = (p, 22)
proc_signal_set_action (pos sig) handler flags restorer p =
    if (sig == 0) || (leb proc_nsig sig || ((sig == 9) || (sig == 19))) then (p, 22) else (
      record p {
        sig_handler = set p.sig_handler sig handler;
        sig_flags = set p.sig_flags sig flags;
        sig_restorer = set p.sig_restorer sig restorer;
        sig_pending =
            if (handler == sig_dfl) || (handler == sig_ign)
            then bit_clear sig p.sig_pending
            else p.sig_pending;
      },
      get_or p.sig_handler sig 0,
    )

-- The handler, flags and restorer, or none for the error 22.
pub proc_signal_get_action : ℤ → Proc → Option (ℕ × ℕ × ℕ)
proc_signal_get_action (negsuc n) p = none
proc_signal_get_action (pos sig) p =
    if (sig == 0) || leb proc_nsig sig
    then none
    else some (get_or p.sig_handler sig 0, get_or p.sig_flags sig 0, get_or p.sig_restorer sig 0)

-- `(int32_t)(now - tick) >= 0`
abbrev pub has_passed : ℕ → ℕ → Bool
has_passed now tick = ltb ((now + (2 ^ 32 - tick)) % 2 ^ 32) (2 ^ 31)

-- The alarm of one process.
unfoldable pub tick_alarm : ℕ → Proc → Proc
tick_alarm now p =
    let p' = record (add_pending 14 p) { alarm_tick = 0 } in
    if not (p.alarm_tick == 0) && has_passed now p.alarm_tick
    then (if is_blocked p.state && not (is_wait_none p.wait_kind)
        then record (interrupted p') { state = proc_ready }
        else p')
    else p

-- Whether its `poll` has waited long enough.
abbrev pub poll_expired : ℕ → Proc → Bool
poll_expired now p =
    is_blocked p.state
    && (is_wait_poll p.wait_kind && (p.blk_has_deadline && has_passed now p.blk_deadline))
