-- ===== src/Signal.antt =====
-- kernel/signal/signal.c, and three system calls of kernel/syscall/syscall.c.
-- A pending signal is a bit of a 32-bit word. Processes are slots of the process table.
pub mod Pending
pub mod Deliver
pub mod Send
pub mod Handler
mod Tests
use hobbyos.Base.{
  ℕ, zero, suc, ◌+◌, ◌-◌, ◌%◌, ◌^◌, Bool, true, false, ◌&&◌, ◌||◌, Option, none, some, ltb, ◌==◌,
  not, bit_and, bit_or, if◌then◌else◌, get_or, set,
}
use hobbyos.Base.Words.{flag}
use hobbyos.Process.{Process, ProcessState, SavedFrame, Kernel, proc, set_proc}
use hobbyos.Sched.{scheduler_add, schedule, set_state, is_unused, is_blocked, is_terminated}
use hobbyos.ProcessTable.{process_get_by_pid}

abbrev pub sigint : ℕ
sigint = 2

abbrev pub sigkill : ℕ
sigkill = 9

abbrev pub sigpipe : ℕ
sigpipe = 13

abbrev pub sigterm : ℕ
sigterm = 15

abbrev pub sigchld : ℕ
sigchld = 17

abbrev pub sigtstp : ℕ
sigtstp = 20

abbrev pub sig_dfl : ℕ
sig_dfl = 0

abbrev pub sig_ign : ℕ
sig_ign = 1

-- `struct interrupt_frame` of kernel/arch/x86_64/isr.h.
pub record InterruptFrame : Type 0 where
  pub r15 : ℕ
  pub r14 : ℕ
  pub r13 : ℕ
  pub r12 : ℕ
  pub r11 : ℕ
  pub r10 : ℕ
  pub r9 : ℕ
  pub r8 : ℕ
  pub rbp : ℕ
  pub rdi : ℕ
  pub rsi : ℕ
  pub rdx : ℕ
  pub rcx : ℕ
  pub rbx : ℕ
  pub rax : ℕ
  pub int_no : ℕ
  pub err_code : ℕ
  pub rip : ℕ
  pub cs : ℕ
  pub rflags : ℕ
  pub rsp : ℕ
  pub ss : ℕ

-- `p->state = PROCESS_READY; scheduler_add(p)`
abbrev pub make_ready : ℕ → Kernel → Kernel
make_ready i k = scheduler_add i (set_state i ProcessState.ready k)

-- From the test of the target's state on.
unfoldable pub send_to : ℕ → Option ℕ → Kernel → Kernel
send_to sig none k = k
send_to sig (some t) k =
    if is_unused (proc k t).state || is_terminated (proc k t).state
    then k
    else let k' = set_proc t (λ p. record p { sig_pending = bit_or p.sig_pending (2 ^ sig) }) k in
      if is_blocked (proc k' t).state then make_ready t k' else k'

unfoldable pub signal_send : ℕ → ℕ → Kernel → Kernel
unfolding send_to
signal_send pid sig k =
    if ltb sig 1 || not (ltb sig 32) then k else send_to sig (process_get_by_pid pid k) k

-- What the process has asked for on a signal.
pub data Action : Type 0 where
  ignore : Action
  terminate : Action
  terminate_unknown : Action
  call : ℕ → Action

-- The five signals of the first `case` that terminates.
abbrev pub is_deadly : ℕ → Bool
is_deadly sig =
    (sig == sigkill) || (sig == sigterm) || (sig == sigint) || (sig == sigpipe) || (sig == sigtstp)

unfoldable pub action_of : Process → ℕ → Action
action_of p sig =
    let handler = get_or p.sig_handlers sig 0 in
    if handler == sig_ign
    then Action.ignore
    else if handler == sig_dfl
    then if sig == sigchld
      then Action.ignore
      else if is_deadly sig
      then Action.terminate
      else Action.terminate_unknown
    else Action.call handler

-- `proc->sig_pending &= ~(1u << sig)`
abbrev pub clear_pending : ℕ → ℕ → Kernel → Kernel
clear_pending i sig =
    set_proc i (λ p. record p { sig_pending = bit_and p.sig_pending (2 ^ 32 - 1 - 2 ^ sig) })

abbrev pub die : ℕ → ℕ → Kernel → Kernel
die i sig = set_proc i (λ p. record p { state = ProcessState.zombie; exit_code = 128 + sig })

-- A parent that waits for this child, or for any, is woken.
wake_parent_at : ℕ → Option ℕ → Kernel → Kernel
wake_parent_at i none k = k
wake_parent_at i (some q) k =
    let waits_for = (proc k q).wait_for_pid in
    if is_blocked (proc k q).state && ((waits_for == 0) || (waits_for == (proc k i).pid))
    then make_ready q k
    else k

unfoldable pub wake_parent : ℕ → Kernel → Kernel
unfolding wake_parent_at
wake_parent i k = wake_parent_at i (process_get_by_pid (proc k i).ppid k) k

abbrev pub save_frame : InterruptFrame → Process → Process
save_frame f p = record p {
  sig_saved = record {
    rip = f.rip;
    rsp = f.rsp;
    rflags = f.rflags;
    rax = f.rax;
    rdi = f.rdi;
    rsi = f.rsi;
    rdx = f.rdx;
  };
  in_signal_handler = true;
}

-- `frame->rsp -= 8` on a `uint64_t`.
abbrev pub enter_handler : ℕ → ℕ → InterruptFrame → InterruptFrame
enter_handler handler sig f = record f {
  rip = handler;
  rdi = sig;
  rsp = (f.rsp + 2 ^ 64 - 8) % 2 ^ 64;
}

-- What the body of the loop does on a pending signal; `rest` is the loop on the signals after it.
unfoldable pub act :
    ℕ → ℕ → Action → InterruptFrame × Kernel → InterruptFrame → Kernel → InterruptFrame × Kernel
act i sig Action.ignore rest f k = rest
act i sig Action.terminate rest f k = (f, schedule (wake_parent i (die i sig k)))
act i sig Action.terminate_unknown rest f k = (f, schedule (die i sig k))
act i sig (Action.call handler) rest f k =
    (enter_handler handler sig f, set_proc i (save_frame f) k)

-- The loop, with the number of signals that are left.
unfoldable pub signal_loop : ℕ → ℕ → ℕ → InterruptFrame → Kernel → InterruptFrame × Kernel
signal_loop i zero sig f k = (f, k)
signal_loop i (suc left) sig f k =
    let pending = flag (proc k i).sig_pending sig in
    let k' = if pending then clear_pending i sig k else k in
    let rest = signal_loop i left (sig + 1) f k' in
    if pending then act i sig (action_of (proc k' i) sig) rest f k' else rest

unfoldable pub check_at : Option ℕ → InterruptFrame → Kernel → InterruptFrame × Kernel
unfolding signal_loop
check_at none f k = (f, k)
check_at (some i) f k =
    if not (proc k i).is_user || (proc k i).in_signal_handler
    then (f, k)
    else if (proc k i).sig_pending == 0
    then (f, k)
    else signal_loop i 31 1 f k

unfoldable pub signal_check : Option ℕ → InterruptFrame → Kernel → InterruptFrame × Kernel
unfolding check_at
signal_check p f k = check_at p f k

unfoldable pub fatal_at : Option ℕ → Kernel → Bool
fatal_at none k = false
fatal_at (some i) k =
    not (
      bit_and (proc k i).sig_pending (bit_or (bit_or (2 ^ sigint) (2 ^ sigkill)) (2 ^ sigterm))
      == 0)

unfoldable pub signal_has_fatal : Option ℕ → Kernel → Bool
unfolding fatal_at
signal_has_fatal p k = fatal_at p k

abbrev pub restore_frame : SavedFrame → InterruptFrame → InterruptFrame
restore_frame s f = record f {
  rip = s.rip;
  rsp = s.rsp;
  rflags = s.rflags;
  rax = s.rax;
  rdi = s.rdi;
  rsi = s.rsi;
  rdx = s.rdx;
}

-- `case SYS_SIGRETURN` for the current process `i`; -1 on a `uint64_t` is 2^64 - 1.
unfoldable pub sys_sigreturn : ℕ → InterruptFrame → Kernel → InterruptFrame × Kernel
sys_sigreturn i f k =
    if (proc k i).in_signal_handler
    then (
      restore_frame (proc k i).sig_saved f,
      set_proc i (λ p. record p { in_signal_handler = false }) k,
    )
    else (record f { rax = 2 ^ 64 - 1 }, k)

-- `frame->rax = (uint64_t)-1`
abbrev pub fail : InterruptFrame → InterruptFrame
fail f = record f { rax = 2 ^ 64 - 1 }

-- `case SYS_KILL`, from the lookup on. A negative `int` is 32 or more as a word, and refused too.
unfoldable pub kill_at : Option ℕ → ℕ → ℕ → InterruptFrame → Kernel → InterruptFrame × Kernel
kill_at none pid sig f k = (fail f, k)
kill_at (some t) pid sig f k =
    if is_unused (proc k t).state || is_terminated (proc k t).state
    then (fail f, k)
    else (record f { rax = 0 }, signal_send pid sig k)

unfoldable pub sys_kill : ℕ → ℕ → InterruptFrame → Kernel → InterruptFrame × Kernel
unfolding kill_at
sys_kill pid sig f k =
    if ltb sig 1 || not (ltb sig 32)
    then (fail f, k)
    else kill_at (process_get_by_pid pid k) pid sig f k

-- `case SYS_SIGACTION` for the current process `i`.
unfoldable pub sys_sigaction : ℕ → ℕ → ℕ → InterruptFrame → Kernel → InterruptFrame × Kernel
sys_sigaction i sig handler f k =
    if ltb sig 1 || not (ltb sig 32) || (sig == 9) then (fail f, k) else (
      record f { rax = 0 },
      set_proc i (λ p. record p { sig_handlers = set p.sig_handlers sig handler }) k,
    )
