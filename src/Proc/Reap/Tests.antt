-- ===== src/Proc/Reap/Tests.antt =====
-- Runs of the release of processes, and the theorems at them.
use muos.Common.{◌^◌, refl, inl, inr, arith}
use muos.Common.Int.{pos}
use muos.Proc.Signal.{proc_signal_send}
use muos.Proc.{Proc, Kernel, proc_init, proc_alloc, new_proc}
use muos.Proc.Samples.{table, machine}
use muos.Proc.Reap.{proc_space_alloc, proc_cleanup_children}
use muos.Proc.Reap.Children.{Shrunk, Ordered}
use muos.Proc.Reap.Subtree.{NoChild, Closed}
use muos.Proc.Reap.Below.{OnlyBelow, proc_cleanup_children-Below}

table-Ordered : Ordered table
table-Ordered = (
  inr (omega arith),
  (
    inr (omega arith),
    (inr (omega arith), (inr (omega arith), (inl refl, (inl refl, (inl refl, (inl refl, tt)))))),
  ),
)

proc_cleanup_children-Below_example :
    NoChild 2 (proc_cleanup_children 9 2 machine).procs
    × Closed table (proc_cleanup_children 9 2 machine).procs
    × OnlyBelow 2 table (proc_cleanup_children 9 2 machine).procs
    × Shrunk table (proc_cleanup_children 9 2 machine).procs
proc_cleanup_children-Below_example = proc_cleanup_children-Below 2 machine refl table-Ordered

-- The kernel and a program that it starts.
abbrev two : Kernel
two = (proc_alloc 1 0x300000 (proc_init machine)).0

-- A second process is made and gets an address space and a signal.
abbrev three : Kernel
three =
    (proc_signal_send 2 (pos 10) (proc_space_alloc 0x400000 0x500000 0x600000 0x700000 1 two).0).0

abbrev program : Proc
program = record (new_proc 2 1 0x300000) { space = 0x400000; sig_pending = 2 ^ 10 }
