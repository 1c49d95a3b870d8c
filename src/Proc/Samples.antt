-- ===== src/Proc/Samples.antt =====
-- Process tables for the tests of the modules of src/proc.c.
use muos.Common.{ℕ, true, false, some, List, [], ◌∷◌, replicate}
use muos.Proc.{Proc, proc_running, proc_ready, proc_blocked, Kernel, no_proc, wait_read}

-- A program that can run.
abbrev pub program : ℕ → ℕ → Proc
program pid ppid = record no_proc {
  used = true;
  pid = pid;
  ppid = ppid;
  tgid = pid;
  state = proc_ready;
  has_ctx = true;
  space = pid;
  fd_state = pid;
}

abbrev pub kernel_task : Proc
kernel_task = record no_proc { used = true; pid = 1; tgid = 1; state = proc_running }

-- The kernel, a program that runs with a handler for signal 2, which is pending, its child, and a
-- child of the child that waits.
abbrev pub runner : Proc
runner = record (program 2 1) {
  state = proc_running;
  sig_pending = 4;
  sig_handler = 0 ∷ 0 ∷ 0x08049000 ∷ replicate 29 0;
}

abbrev pub waiter : Proc
waiter = record (program 4 3) { state = proc_blocked; wait_kind = wait_read }

abbrev pub table : List Proc
table = kernel_task ∷ runner ∷ program 3 2 ∷ waiter ∷ replicate 4 no_proc

abbrev pub machine : Kernel
machine = record {
  procs = table;
  current_proc = some 1;
  next_pid = 5;
  frame_switched = false;
  user = record {
    active = true;
    fds = 7 ∷ [];
    cwd = 47 ∷ [];
    brk = record { base = 0x08100000; current = 0x08100000 };
    tls = record { base = 0; limit = 0; flags = 0 };
  };
  memory = λ s i. 0;
  refs = λ s. 1;
  fd_tables = λ h. [];
  fd_refs = λ h. 1;
  returned = false;
  panicked = false;
}
