-- ===== src/Proc/Signal/Tests.antt =====
-- Runs of the sending of signals, and the theorems at them.
use muos.Common.{◌≡◌, ◌-◌, ◌^◌, refl, false, some, get_elem?, arith}
use muos.Common.Int.{pos, negsuc}
use muos.Common.Bits.{bit_set}
use muos.Proc.{wait_none, proc_ready, proc_find, find_from}
use muos.Proc.Samples.{kernel_task, waiter, machine}
use muos.Proc.Signal.{proc_signal_send, signal_pid, signal_one}
use muos.Proc.Signal.Send.{proc_signal_send-kernel, proc_signal_send-blocked}

kernel_refuses : (proc_signal_send 1 (pos 9) machine).1 ≡ negsuc 0
unfolding proc_signal_send signal_pid proc_find find_from
kernel_refuses = refl

proc_signal_send-kernel_example :
    get_elem? (proc_signal_send 1 (pos 9) machine).0.procs 0 ≡ some kernel_task
proc_signal_send-kernel_example = proc_signal_send-kernel 1 (pos 9) machine 0 kernel_task refl refl

proc_signal_send-blocked_example :
    (get_elem? (proc_signal_send (2 ^ 32 - 1) (pos 15) machine).0.procs 3
      ≡ some (record waiter { sig_pending = bit_set 15 0; state = proc_ready }))
    × ((proc_signal_send (2 ^ 32 - 1) (pos 15) machine).1 ≡ pos 0)
    × (signal_one 15 waiter ≡ record waiter {
      sig_pending = bit_set 15 0;
      state = proc_ready;
      context = record waiter.context { eax = 2 ^ 32 - 4 };
      wait_kind = wait_none;
      blk_has_deadline = false;
    })
proc_signal_send-blocked_example =
    proc_signal_send-blocked 15 machine 3 waiter (omega arith) (omega arith) refl refl
      (λ e. omega arith) refl refl
