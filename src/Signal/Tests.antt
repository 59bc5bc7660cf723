-- ===== src/Signal/Tests.antt =====
-- Signals sent to the processes of a small table, and delivered.
use hobbyos.Base.{◌+◌, ◌≡◌, ◌^◌, refl, true, false, some, [], ◌∷◌, arith, set, find_from}
use hobbyos.Process.{Process, ProcessState, Kernel, set_proc, zero_process}
use hobbyos.Sched.Sample.{waiting}
use hobbyos.ProcessTable.{process_get_by_pid}
use hobbyos.Signal.{
  InterruptFrame, Action, act, save_frame, sys_sigreturn, signal_check, check_at, signal_loop,
  action_of,
}
use hobbyos.Signal.{sys_kill, kill_at}
use hobbyos.Signal.Deliver.{Delivers, signal_check-Delivers}
use hobbyos.Signal.Send.{sigreturn_restores}

abbrev user_frame : InterruptFrame
user_frame = record {
  r15 = 15;
  r14 = 14;
  r13 = 13;
  r12 = 12;
  r11 = 11;
  r10 = 10;
  r9 = 9;
  r8 = 8;
  rbp = 0x7000;
  rdi = 1;
  rsi = 2;
  rdx = 3;
  rcx = 4;
  rbx = 5;
  rax = 6;
  int_no = 32;
  err_code = 0;
  rip = 0x400100;
  cs = 0x23;
  rflags = 0x202;
  rsp = 0x7ff0;
  ss = 0x1b;
}

-- Process 0 ignores SIGTERM, handles signal 20 and has both pending.
abbrev catching : Kernel
unfolding zero_process
catching = record waiting {
  table =
      record zero_process {
        pid = 1;
        state = ProcessState.running;
        is_user = true;
        sig_handlers = set (set zero_process.sig_handlers 15 1) 20 0x401000;
        sig_pending = 2 ^ 15 + 2 ^ 20 + 2 ^ 30;
      }
      ∷ [];
}

handler_runs : signal_check (some 0) user_frame catching ≡ (
  record user_frame { rip = 0x401000; rdi = 20; rsp = 0x7fe8 },
  set_proc 0 (λ (p : Process). record (save_frame user_frame p) { sig_pending = 2 ^ 30 }) catching,
)
unfolding signal_check check_at signal_loop action_of act zero_process
handler_runs = refl

signal_check-Delivers_example :
    Delivers 0 user_frame catching
      (2 ^ 15 + 2 ^ 20 + 2 ^ 30)
      1
      (signal_check (some 0) user_frame catching)
unfolding zero_process
signal_check-Delivers_example = signal_check-Delivers 0 user_frame catching (omega arith) refl refl

sigreturn_restores_example :
    (let (entered, k1) =
        act 0 20 (Action.call 0x401000) (user_frame, catching) user_frame catching in
      (entered.rip ≡ 0x401000)
      × (entered.rdi ≡ 20)
      × (sys_sigreturn 0 (record user_frame { rcx = 99; rax = 15 }) k1 ≡ (
        record user_frame { rcx = 99 },
        set_proc 0 (λ p. record (save_frame user_frame p) { in_signal_handler = false }) catching,
      )))
unfolding zero_process
sigreturn_restores_example =
    sigreturn_restores 0 20 0x401000 (user_frame, catching) user_frame
      (record user_frame { rcx = 99; rax = 15 }) catching (omega arith)

-- A kill of a process that is not there fails.
kill_nobody : (sys_kill 77 15 user_frame waiting).0.rax ≡ 0xFFFFFFFFFFFFFFFF
unfolding sys_kill kill_at process_get_by_pid find_from zero_process
kill_nobody = refl
