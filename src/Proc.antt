-- ===== src/Proc.antt =====
-- The process table, the scheduler and the signals of src/proc.c and include/proc.h. The static
-- variables of proc.c and what they stand beside in user.c and gdt.c (the active fd table, working
-- directory, break and TLS) are one state, `Kernel`; a pointer to a process is its index in the
-- table. A pointer that the allocators return comes as an argument, 0 when they fail. The memory of
-- an address space is by user address; that all of the window is mapped is the work of src/mm.c.
pub mod Ids
pub mod Calls
pub mod Ticks
pub mod Spaces
pub mod Sched
pub mod Signal
pub mod Deliver
pub mod Poll
pub mod Reap
pub mod Samples
use muos.Common.{
  ℕ, zero, suc, ◌+◌, ◌-◌, Bool, true, false, not, ◌&&◌, ◌||◌, Option, none, some, List, [], ◌∷◌,
  ◌==◌, if◌then◌else◌, get_elem?, set, replicate, u32, length, ltb, leb,
}
use muos.Common.Int.{ℤ, pos, negsuc}
use muos.Common.Mem.{Mem}

abbrev pub proc_max : ℕ
proc_max = 8

abbrev pub proc_nsig : ℕ
proc_nsig = 32

abbrev pub sig_dfl : ℕ
sig_dfl = 0

abbrev pub sig_ign : ℕ
sig_ign = 1

abbrev pub sigframe_max : ℕ
sigframe_max = 4

-- `proc_state_t`
pub data ProcState : Type 0 where
  proc_free : ProcState
  proc_running : ProcState
  proc_ready : ProcState
  proc_blocked : ProcState
  proc_zombie : ProcState

-- `proc_wait_t`
pub data Wait : Type 0 where
  wait_none : Wait
  wait_wait4 : Wait
  wait_waitid : Wait
  wait_poll : Wait
  wait_sigsusp : Wait
  wait_read : Wait

-- The registers of the process that an interrupt frame holds.
pub record Registers : Type 0 where
  pub gs : ℕ
  pub fs : ℕ
  pub es : ℕ
  pub ds : ℕ
  pub edi : ℕ
  pub esi : ℕ
  pub ebp : ℕ
  pub ebx : ℕ
  pub edx : ℕ
  pub ecx : ℕ
  pub eax : ℕ
  pub eip : ℕ
  pub cs : ℕ
  pub eflags : ℕ
  pub useresp : ℕ
  pub ss : ℕ

-- The registers a process keeps in the table.
pub record Context : Type 0 where
  pub eip : ℕ
  pub esp : ℕ
  pub eflags : ℕ
  pub eax : ℕ
  pub ebx : ℕ
  pub ecx : ℕ
  pub edx : ℕ
  pub esi : ℕ
  pub edi : ℕ
  pub ebp : ℕ
  pub fs_sel : ℕ
  pub gs_sel : ℕ

-- The break and the TLS segment: base and current end, and base, limit and flags.
pub record Brk : Type 0 where
  pub base : ℕ
  pub current : ℕ

pub record Tls : Type 0 where
  pub base : ℕ
  pub limit : ℕ
  pub flags : ℕ

-- `proc_t`, without its names, credentials and start time, which no operation here reads, and
-- without `mem` and `pd_phys`, which are the address space's, and `kstack_top`, which is `kstack` and
-- the size of a stack.
pub record Proc : Type 0 where
  pub used : Bool
  pub pid : ℕ
  pub ppid : ℕ
  pub tgid : ℕ
  pub state : ProcState
  pub exit_code : ℕ
  pub faulted : Bool
  pub is_thread : Bool
  pub space : ℕ
  pub kstack : ℕ
  pub fd_state : ℕ
  pub fds_retained : Bool
  pub cwd : List ℕ
  pub brk : Brk
  pub tls : Tls
  pub context : Context
  pub has_ctx : Bool
  pub wait_kind : Wait
  pub wait_pid : ℤ
  pub wait_status_ptr : ℕ
  pub wait_infop : ℕ
  pub last_wait_pid : ℕ
  pub blk_ptr : ℕ
  pub blk_len : ℤ
  pub blk_fd : ℤ
  pub blk_deadline : ℕ
  pub blk_has_deadline : Bool
  pub sig_pending : ℕ
  pub sig_blocked : ℕ
  pub sig_handler : List ℕ
  pub sig_flags : List ℕ
  pub sig_restorer : List ℕ
  pub sig_frame_sp : List ℕ
  pub sig_depth : ℕ
  pub alarm_tick : ℕ

pub Procs : Type 0
Procs = List Proc

-- What user.c and gdt.c hold of the process that runs.
pub record User : Type 0 where
  pub active : Bool
  pub fds : List ℕ
  pub cwd : List ℕ
  pub brk : Brk
  pub tls : Tls

-- `refs` and `memory` are of the address spaces, `fd_refs` and `fd_tables` of the fd tables, by
-- their pointers. `returned` says that `user_return_to_kernel` has left for the shell, `panicked`
-- that the kernel has halted on a page fault of its own.
pub record Kernel : Type 0 where
  pub procs : List Proc
  pub current_proc : Option ℕ
  pub next_pid : ℕ
  pub frame_switched : Bool
  pub user : User
  pub memory : ℕ → Mem
  pub refs : ℕ → ℕ
  pub fd_tables : ℕ → List ℕ
  pub fd_refs : ℕ → ℕ
  pub returned : Bool
  pub panicked : Bool

abbrev pub no_context : Context
no_context = record {
  eip = 0;
  esp = 0;
  eflags = 0;
  eax = 0;
  ebx = 0;
  ecx = 0;
  edx = 0;
  esi = 0;
  edi = 0;
  ebp = 0;
  fs_sel = 0;
  gs_sel = 0;
}

-- A slot after `memset`.
abbrev pub no_proc : Proc
no_proc = record {
  used = false;
  pid = 0;
  ppid = 0;
  tgid = 0;
  state = proc_free;
  exit_code = 0;
  faulted = false;
  is_thread = false;
  space = 0;
  kstack = 0;
  fd_state = 0;
  fds_retained = false;
  cwd = [];
  brk = record { base = 0; current = 0 };
  tls = record { base = 0; limit = 0; flags = 0 };
  context = no_context;
  has_ctx = false;
  wait_kind = wait_none;
  wait_pid = pos 0;
  wait_status_ptr = 0;
  wait_infop = 0;
  last_wait_pid = 0;
  blk_ptr = 0;
  blk_len = pos 0;
  blk_fd = pos 0;
  blk_deadline = 0;
  blk_has_deadline = false;
  sig_pending = 0;
  sig_blocked = 0;
  sig_handler = replicate proc_nsig 0;
  sig_flags = replicate proc_nsig 0;
  sig_restorer = replicate proc_nsig 0;
  sig_frame_sp = replicate sigframe_max 0;
  sig_depth = 0;
  alarm_tick = 0;
}

pub proc_init : Kernel → Kernel
proc_init k = record k {
  procs =
      record no_proc { used = true; pid = 1; tgid = 1; ppid = 0; state = proc_running }
      ∷ replicate 7 no_proc;
  current_proc = some 0;
  next_pid = 2;
}

-- The loop of `proc_find` from the slot `i` on.
pub find_from : ℕ → ℕ → List Proc → Option ℕ
find_from pid i [] = none
find_from pid i (p ∷ ps) = if p.used && (p.pid == pid) then some i else find_from pid (i + 1) ps

pub proc_find : ℕ → List Proc → Option ℕ
proc_find pid ps = find_from pid 0 ps

-- The loop of `proc_get_index` from the slot `i` on, `n` used slots before the wanted one.
pub index_from : ℕ → ℕ → List Proc → Option ℕ
index_from n i [] = none
index_from zero i (p ∷ ps) = if p.used then some i else index_from zero (i + 1) ps
index_from (suc n) i (p ∷ ps) =
    if p.used then index_from n (i + 1) ps else index_from (suc n) (i + 1) ps

pub proc_get_index : ℤ → List Proc → Option ℕ
proc_get_index (pos n) ps = index_from n 0 ps
proc_get_index (negsuc n) ps = none

pub proc_count : List Proc → ℕ
proc_count [] = 0
proc_count (p ∷ ps) = if p.used then proc_count ps + 1 else proc_count ps

pub first_unused : ℕ → List Proc → Option ℕ
first_unused i [] = none
first_unused i (p ∷ ps) = if p.used then first_unused (i + 1) ps else some i

-- What `proc_alloc` makes of a slot. `ks` is the kernel stack it got, 0 for none.
pub new_proc : ℕ → ℕ → ℕ → Proc
new_proc pid ppid ks = record no_proc {
  used = not (ks == 0);
  pid = pid;
  ppid = ppid;
  tgid = pid;
  state = proc_ready;
  context = record no_context { fs_sel = 0x23; gs_sel = 0x23 };
  kstack = ks;
}

-- The slot, or none; the number of a process that gets no stack is used up.
pub proc_alloc : ℕ → ℕ → Kernel → Kernel × Option ℕ
proc_alloc ppid ks k = elim (first_unused 0 k.procs) [
  | none ↦ (k, none)
  | some i ↦ (
    record k {
      procs = set k.procs i (new_proc k.next_pid ppid ks);
      next_pid = u32 (k.next_pid + 1);
    },
    if ks == 0 then none else some i,
  )
]

-- `*p = q`
unfoldable pub put_proc : ℕ → Proc → Kernel → Kernel
put_proc i q k = record k { procs = set k.procs i q }
