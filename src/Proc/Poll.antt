-- ===== src/Proc/Poll.antt =====
-- The processes that wait in `poll`, and the timer tick over all processes, of src/proc.c. What
-- `user_fd_state_events` of src/user.c says of an fd table, an fd and the events asked for comes as
-- the argument `events`.
use muos.Common.{
  ℕ, zero, suc, ◌+◌, ◌*◌, ◌%◌, ◌^◌, Bool, false, not, ◌&&◌, ◌||◌, none, some, List, ◌==◌,
  if◌then◌else◌, get_elem?, ltb, leb, u32,
}
use muos.Common.Int.{ℤ, pos, negsuc}
use muos.Common.Mem.{blit, slice}
use muos.Common.Words.{le, le_value}
use muos.Proc.{Proc, wait_none, proc_ready, Kernel, put_proc}
use muos.Proc.Sched.{user_base, user_end, update, is_blocked}
use muos.Proc.Signal.{is_wait_poll, tick_alarm, poll_expired}

-- The address space and address behind `proc_user_ptr`, when it is not null.
abbrev pub user_ptr_null : Proc → ℕ → Bool
user_ptr_null p uptr = ltb uptr user_base || (leb user_end uptr || (p.space == 0))

-- The address of entry number `i` of the array of `poll`: fd, events and results, 8 bytes.
abbrev pub entry : Proc → ℕ → ℕ
entry p i = u32 (p.blk_ptr + i * 8)

abbrev pub write_results : Proc → ℕ → ℕ → Kernel → Kernel
write_results p at rev k = record k {
  memory = update k.memory p.space (blit (k.memory p.space) (at + 6) (le 2 rev));
}

-- The results of one entry: `fd >= 0` is its top bit.
abbrev pub entry_events : (List ℕ → ℕ → ℕ → ℕ) → Proc → ℕ → Kernel → ℕ
entry_events events p at k =
    let fd = le_value (slice (k.memory p.space) at 4) in
    if ltb fd (2 ^ 31)
    then events (k.fd_tables p.fd_state) fd (le_value (slice (k.memory p.space) (at + 4) 2))
      % 2 ^ 16
    else 0

-- The loop of `proc_poll_scan` from the entry `i` on, `n` of them: how many are ready.
pub scan_loop : (List ℕ → ℕ → ℕ → ℕ) → Proc → ℕ → ℕ → Kernel → Kernel × ℕ
scan_loop events p zero i k = (k, 0)
scan_loop events p (suc n) i k =
    let rev = entry_events events p (entry p i) k in
    let null = user_ptr_null p (entry p i) in
    let k' = if null then k else write_results p (entry p i) rev k in
    let (kn, ready) = scan_loop events p n (i + 1) k' in
    (kn, if null then ready else if rev == 0 then ready else ready + 1)

pub proc_poll_scan : (List ℕ → ℕ → ℕ → ℕ) → Proc → Kernel → Kernel × ℕ
proc_poll_scan events p k = elim p.blk_len [
  | negsuc n ↦ (k, 0)
  | pos n ↦ if (p.fd_state == 0) || ((n == 0) || ltb 64 n) then (k, 0) else scan_loop events p n 0 k
]

-- `proc_poll_finish`
pub proc_poll_finish : ℕ → Proc → Proc
proc_poll_finish ready p = record p {
  context = record p.context { eax = ready };
  wait_kind = wait_none;
  blk_has_deadline = false;
  state = proc_ready;
}

-- The loop of `proc_poll_expire`.
pub expire_loop : Proc → ℕ → ℕ → Kernel → Kernel
expire_loop p zero i k = k
expire_loop p (suc n) i k =
    expire_loop p n (i + 1)
      (if user_ptr_null p (entry p i) then k else write_results p (entry p i) 0 k)

abbrev pub entries : ℤ → ℕ
entries (negsuc n) = 0
entries (pos n) = if ltb n 64 then n else 64

-- `proc_poll_expire` of the process `p` in the slot `i`.
pub proc_poll_expire : ℕ → Proc → Kernel → Kernel
proc_poll_expire i p k = put_proc i (proc_poll_finish 0 p) (expire_loop p (entries p.blk_len) 0 k)

-- The body of the loop of `proc_tick_all`.
unfoldable pub tick_one : ℕ → ℕ → Kernel → Kernel
tick_one now i k = elim (get_elem? k.procs i) [
  | none ↦ k
  | some p ↦
      let p' = tick_alarm now p in
      if not p.used || (p.pid == 1)
      then k
      else if poll_expired now p'
      then proc_poll_expire i p' (put_proc i p' k)
      else put_proc i p' k
]

-- Every slot from `i` on, `n` of them.
pub each_slot : (ℕ → Kernel → Kernel) → ℕ → ℕ → Kernel → Kernel
each_slot step zero i k = k
each_slot step (suc n) i k = each_slot step n (i + 1) (step i k)

pub proc_tick_all : ℕ → Kernel → Kernel
proc_tick_all now k = each_slot (tick_one now) 8 0 k

-- The body of the loop of `proc_wake_pollers`.
unfoldable pub wake_poller : (List ℕ → ℕ → ℕ → ℕ) → ℕ → Kernel → Kernel
wake_poller events i k = elim (get_elem? k.procs i) [
  | none ↦ k
  | some p ↦
      let (k', ready) = proc_poll_scan events p k in
      if not p.used || ((p.pid == 1) || not (is_blocked p.state && is_wait_poll p.wait_kind))
      then k
      else if ready == 0
      then k'
      else put_proc i (proc_poll_finish ready p) k'
]

pub proc_wake_pollers : (List ℕ → ℕ → ℕ → ℕ) → Kernel → Kernel
proc_wake_pollers events k = each_slot (wake_poller events) 8 0 k
