-- ===== src/Proc/Sched.antt =====
-- The switch between processes: the scheduler, blocking, waking a waiting parent, and the end of a
-- process, of src/proc.c.
pub mod Rotation
mod Tests
use muos.Common.{
  ℕ, zero, suc, ◌+◌, ◌-◌, ◌*◌, ◌/◌, ◌%◌, ◌^◌, Bool, true, false, not, ◌&&◌, ◌||◌, Option, none,
  some, List, [], ◌∷◌, ◌==◌, if◌then◌else◌, get_elem?, set, get_or, u32, length, ltb, leb,
}
use muos.Common.Int.{ℤ, pos, negsuc, ltb_ℤ}
use muos.Common.Mem.{Mem, blit}
use muos.Common.Words.{le}
use muos.Common.Bits.{bit_set, bit_clear}
use muos.Proc.{
  Proc, ProcState, proc_free, proc_running, proc_ready, proc_blocked, proc_zombie, Wait, wait_none,
  wait_wait4, wait_waitid, wait_poll, wait_sigsusp, wait_read, Registers, Context, Kernel, User,
  Brk, proc_max, proc_find, put_proc,
}

abbrev pub user_base : ℕ
user_base = 0x08048000

-- With the 8 MB of the default build.
abbrev pub user_end : ℕ
user_end = 0x08848000

abbrev pub user_sigtramp : ℕ
user_sigtramp = 0x08847000

abbrev pub is_ready : ProcState → Bool
is_ready proc_ready = true
is_ready s = false

abbrev pub is_running : ProcState → Bool
is_running proc_running = true
is_running s = false

abbrev pub is_blocked : ProcState → Bool
is_blocked proc_blocked = true
is_blocked s = false

abbrev pub is_zombie : ProcState → Bool
is_zombie proc_zombie = true
is_zombie s = false

-- The condition of `sched_pick_next`.
abbrev pub can_run : Proc → Bool
can_run p = p.used && (not (p.pid == 1) && (is_ready p.state && p.has_ctx))

abbrev pub can_run_at : List Proc → ℕ → Bool
can_run_at ps i = elim (get_elem? ps i) [ none ↦ false | some p ↦ can_run p ]

-- The second loop of `sched_pick_next`: `left` rounds to go from the round `n` on.
unfoldable pub pick_from : ℕ → ℕ → ℕ → List Proc → Option ℕ
pick_from start n zero ps = none
pick_from start n (suc left) ps =
    let i = (start + n) % proc_max in
    if can_run_at ps i then some i else pick_from start (n + 1) left ps

unfoldable pub sched_pick_next : Option ℕ → List Proc → Option ℕ
sched_pick_next none ps = pick_from 0 0 proc_max ps
sched_pick_next (some cur) ps = pick_from (cur + 1) 0 proc_max ps

unfoldable pub proc_save_ctx : Registers → Proc → Proc
proc_save_ctx regs p = record p {
  context = record {
    eip = regs.eip;
    esp = regs.useresp;
    eflags = regs.eflags;
    eax = regs.eax;
    ebx = regs.ebx;
    ecx = regs.ecx;
    edx = regs.edx;
    esi = regs.esi;
    edi = regs.edi;
    ebp = regs.ebp;
    fs_sel = regs.fs % 2 ^ 16;
    gs_sel = regs.gs % 2 ^ 16;
  };
  has_ctx = true;
}

-- A function with one value changed.
unfoldable pub update {ℓ} : {A : Type ℓ} → (ℕ → A) → ℕ → A → ℕ → A
update f i v j = if j == i then v else f j

-- `user_fd_state_save` into the fd table of the process, when it has one.
abbrev pub save_fds : Proc → Kernel → Kernel
save_fds p k = record k {
  fd_tables = if p.fd_state == 0 then k.fd_tables else update k.fd_tables p.fd_state k.user.fds;
}

-- `proc_save_state` of the process; its fd table is saved by `save_fds`.
unfoldable pub proc_save_state : User → Proc → Proc
proc_save_state u p = record p {
  cwd = u.cwd;
  brk = if p.is_thread then p.brk else u.brk;
  tls = u.tls;
}

-- `user_cwd_set` and `user_restore_brk_state`, which refuse what makes no sense.
abbrev pub cwd_set : List ℕ → List ℕ → List ℕ
cwd_set path old = if (get_or path 0 0 == 47) && ltb (length path) 64 then path else old

abbrev pub restore_brk : Brk → Brk → Brk
restore_brk b old =
    if ltb b.base user_base || (ltb b.current b.base || ltb user_end b.current) then old else b

-- `(eflags | 0x200u) & ~0x3000u`: interrupts on, the I/O privilege level 0.
unfoldable pub user_eflags : ℕ → ℕ
user_eflags v = bit_clear 13 (bit_clear 12 (bit_set 9 v))

-- The selector, or the user's data segment.
abbrev pub selector : ℕ → ℕ
selector v = if v == 0 then 0x23 else v

unfoldable pub load_registers : Context → Registers → Registers
load_registers c regs = record {
  gs = selector c.gs_sel;
  fs = selector c.fs_sel;
  es = 0x23;
  ds = 0x23;
  edi = c.edi;
  esi = c.esi;
  ebp = c.ebp;
  ebx = c.ebx;
  edx = c.edx;
  ecx = c.ecx;
  eax = c.eax;
  eip = c.eip;
  cs = 0x1B;
  eflags = user_eflags c.eflags;
  useresp = c.esp;
  ss = 0x23;
}

-- `sched_load` of the process `p` in the slot `i`.
unfoldable pub sched_load : ℕ → Proc → Registers → Kernel → Kernel × Registers
sched_load i p regs k = (
  record k {
    procs = set k.procs i (record p { state = proc_running });
    current_proc = some i;
    frame_switched = true;
    user = record {
      active = true;
      fds = if p.fd_state == 0 then k.user.fds else k.fd_tables p.fd_state;
      cwd = cwd_set p.cwd k.user.cwd;
      brk = if p.is_thread then k.user.brk else restore_brk p.brk k.user.brk;
      tls = record p.tls { limit = p.tls.limit % 2 ^ 20 };
    };
  },
  load_registers p.context regs,
)

-- The memory that `proc_user_ptr` finds: an address space there is, and an address of the window.
unfoldable pub proc_write_user_u32 : Proc → ℕ → ℕ → Kernel → Kernel
proc_write_user_u32 p uptr value k =
    if ltb uptr user_base || (ltb (user_end - 4) uptr || (p.space == 0))
    then k
    else record k { memory = update k.memory p.space (blit (k.memory p.space) uptr (le 4 value)) }

-- The `siginfo_t` that `waitid` fills in.
unfoldable pub write_infop : Proc → ℕ → Proc → Kernel → Kernel
write_infop parent base child k =
    proc_write_user_u32 parent (u32 (base + 20)) (child.exit_code % 256) (
      proc_write_user_u32 parent (u32 (base + 16)) 0 (
        proc_write_user_u32 parent (u32 (base + 12)) child.pid (
          proc_write_user_u32 parent (u32 (base + 8)) 1 (
            proc_write_user_u32 parent (u32 (base + 4)) 0 (proc_write_user_u32 parent base 17 k)))))

-- The part of `proc_wake_parent` on the kind of the wait, in the slot `i`.
unfoldable pub complete_wait : ℕ → Proc → Proc → Kernel → Kernel
complete_wait i parent child k = elim parent.wait_kind [
  | wait_wait4 ↦
      put_proc i
        (record parent {
          context = record parent.context { eax = child.pid };
          last_wait_pid = child.pid;
          wait_kind = wait_none;
          state = proc_ready;
        })
        (if parent.wait_status_ptr == 0
          then k
          else proc_write_user_u32 parent parent.wait_status_ptr (child.exit_code % 256 * 256) k)
  | wait_waitid ↦
      put_proc i
        (record parent {
          context = record parent.context { eax = 0 };
          last_wait_pid = child.pid;
          wait_kind = wait_none;
          state = proc_ready;
        })
        (write_infop parent parent.wait_infop child k)
  | _ ↦ put_proc i (record parent { wait_kind = wait_none; state = proc_ready }) k
]

-- `parent->wait_pid > 0 && (uint32_t)parent->wait_pid != child->pid`
abbrev pub waits_for_other : ℤ → ℕ → Bool
waits_for_other (pos n) pid = not (n == 0) && not (n == pid)
waits_for_other (negsuc n) pid = false

unfoldable pub proc_wake_parent : Proc → Kernel → Kernel
proc_wake_parent child k = elim (proc_find child.ppid k.procs) [
  | none ↦ k
  | some i ↦ elim (get_elem? k.procs i) [
    | none ↦ k
    | some parent ↦
        if not (is_blocked parent.state)
        then k
        else if waits_for_other parent.wait_pid child.pid
        then k
        else complete_wait i parent child k
  ]
]

-- Nothing can run: back to the shell that started the program, by `user_return_to_kernel`.
unfoldable pub return_to_kernel : Kernel → Kernel
return_to_kernel k = record k { current_proc = proc_find 1 k.procs; returned = true }

-- The slot that ends, its context gone.
abbrev pub ended : ℕ → Bool → Proc → Proc
ended code faulted p = record p {
  exit_code = code;
  faulted = faulted;
  state = proc_zombie;
  has_ctx = false;
  blk_has_deadline = false;
  wait_kind = wait_none;
}

-- The processor goes on to the process in the slot `i`.
unfoldable pub switch_to : ℕ → Registers → Kernel → Kernel × Registers
switch_to i regs k = elim (get_elem? k.procs i) [
  | none ↦ (k, regs)
  | some p ↦ sched_load i p regs k
]

-- `proc_exit_current`. The exit code is the `int` as an unsigned number.
unfoldable pub proc_exit_current : Registers → ℕ → Bool → Kernel → Kernel × Registers
proc_exit_current regs code faulted k = elim k.current_proc [
  | none ↦ (record k { user = record (k.user) { active = false }; returned = true }, regs)
  | some i ↦ elim (get_elem? k.procs i) [
    | none ↦ (k, regs)
    | some cur ↦
        if cur.pid == 1
        then (record k { user = record (k.user) { active = false }; returned = true }, regs)
        else let k1 = put_proc i (ended code faulted cur) (save_fds cur k) in
          let k2 = record k1 { user = record (k1.user) { active = false } } in
          let k3 = proc_wake_parent (ended code faulted cur) k2 in
          elim (sched_pick_next none k3.procs) [
            | none ↦ (return_to_kernel k3, regs)
            | some j ↦ switch_to j regs k3
          ]
  ]
]
