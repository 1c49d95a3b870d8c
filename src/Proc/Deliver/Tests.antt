-- ===== src/Proc/Deliver/Tests.antt =====
-- Runs of the delivery of signals and of the tick, and the theorems at them.
use muos.Common.{◌+◌, ◌≤◌, ◌<◌, ◌≡◌, ◌||◌, refl, true, some, ltb, arith}
use muos.Common.Bits.{bit_at}
use muos.Proc.{Registers, put_proc}
use muos.Proc.Sched.{
  proc_save_ctx, proc_save_state, user_base, user_sigtramp, switch_to, sched_pick_next, pick_from,
}
use muos.Proc.Samples.{runner, machine}
use muos.Proc.Deliver.{
  call_handler, write_active, save_current, frame, first_due, frame_base, deliver_loop,
  proc_signal_deliver, proc_sigreturn, tick_switch,
}
use muos.Proc.Deliver.Stack.{IsUser, CallsHandler}
use muos.Proc.Deliver.Frame.{deliver-proc_sigreturn, deliver-panicked}
use muos.Proc.Deliver.Switch.{saving, IsProgram, tick_switch-resumed}

abbrev regs : Registers
regs = record {
  gs = 0x23;
  fs = 0x23;
  es = 0x23;
  ds = 0x23;
  edi = 1;
  esi = 2;
  ebp = 3;
  ebx = 4;
  edx = 5;
  ecx = 6;
  eax = 7;
  eip = 0x08048100;
  cs = 0x1B;
  eflags = 0x202;
  useresp = 0x08840000;
  ss = 0x23;
}

regs-IsUser : IsUser regs
unfolding frame bit_at
regs-IsUser = record {
  words = (
    omega arith,
    (
      omega arith,
      (
        omega arith,
        (
          omega arith,
          (
            omega arith,
            (
              omega arith,
              (
                omega arith,
                (omega arith, (omega arith, (omega arith, (omega arith, (omega arith, tt))))),
              ),
            ),
          ),
        ),
      ),
    ),
  );
  code = refl;
  stack = refl;
  data_segment = refl;
  extra_segment = refl;
  fs_set = λ e. omega arith;
  fs_fits = omega arith;
  gs_set = λ e. omega arith;
  gs_fits = omega arith;
  interrupts = refl;
  level_low = refl;
  level_high = refl;
}

calls_at :
    (r : Registers)
    → user_base ≤ frame_base r
    → frame_base r < user_sigtramp
    → CallsHandler 1 runner r machine
unfolding first_due bit_at
calls_at r from to = record {
  runs = refl;
  at = refl;
  is_program = λ e. omega arith;
  is_due = λ e. omega arith;
  not_default = λ e. omega arith;
  not_ignored = λ e. omega arith;
  depth = omega arith;
  frames = refl;
  from = from;
  to = to;
}

calls : CallsHandler 1 runner regs machine
calls = calls_at regs (omega arith) (omega arith)

in_handler_runs : (proc_signal_deliver regs machine).0.current_proc ≡ some 1
unfolding proc_signal_deliver deliver_loop call_handler first_due bit_at put_proc write_active
in_handler_runs = refl

deliver-proc_sigreturn_example :
    ((proc_sigreturn regs (proc_signal_deliver regs machine).0).1 ≡ regs)
    × ((proc_sigreturn regs (proc_signal_deliver regs machine).0).2 ≡ true)
deliver-proc_sigreturn_example =
    deliver-proc_sigreturn 1 runner regs regs machine (proc_signal_deliver regs machine).0 calls
      regs-IsUser in_handler_runs refl refl

-- A stack of which the lowest byte of the frame is the lowest of the window.
abbrev low_regs : Registers
low_regs = record regs { useresp = 0x08048030 }

low_calls : CallsHandler 1 runner low_regs machine
low_calls = calls_at low_regs (omega arith) (omega arith)

deliver-panicked_example :
    (proc_signal_deliver low_regs machine).0.panicked
    ≡ (ltb (frame_base low_regs) (user_base + 8) || ltb user_sigtramp (frame_base low_regs + 48))
deliver-panicked_example = deliver-panicked 1 runner low_regs machine low_calls refl refl

runner-IsProgram : IsProgram runner machine.user
runner-IsProgram = record {
  has_fds = λ e. omega arith;
  leads = refl;
  absolute = refl;
  short = omega arith;
  brk_from = omega arith;
  brk_up = omega arith;
  brk_to = omega arith;
  limit_fits = omega arith;
}

next : sched_pick_next (some 1) (saving 1 regs machine).procs ≡ some 2
unfolding sched_pick_next pick_from save_current put_proc proc_save_ctx proc_save_state
next = refl

tick_switch-resumed_example :
    ((switch_to 1 low_regs (tick_switch 1 regs machine).0).1 ≡ regs)
    × ((switch_to 1 low_regs (tick_switch 1 regs machine).0).0.user
        ≡ record (machine.user) { active = true })
    × ((switch_to 1 low_regs (tick_switch 1 regs machine).0).0.current_proc ≡ some 1)
tick_switch-resumed_example =
    tick_switch-resumed 1 2 runner regs low_regs machine (tick_switch 1 regs machine).0 refl next
      (λ e. omega arith) regs-IsUser runner-IsProgram refl refl
