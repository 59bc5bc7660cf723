-- ===== src/Fd/Tests.antt =====
-- Runs of the system calls on descriptors, and the theorems at some of their states.
use hobbyos.Base.{
  find_from, ℕ, ◌+◌, ◌-◌, ◌≡◌, [], refl, Bool, true, false, none, some, replicate, length, ◌<◌,
  length-replicate, arith,
}
use hobbyos.Process.{ProcessFd, zero_process, zero_fd}
use hobbyos.Pipe.{pipe_create, pipe_close_read, pipe_inc_ref}
use hobbyos.Sched.Sample.{waiting}
use hobbyos.Fd.{
  Files, Objects, process_fd_alloc, sys_close, sys_pipe, fork_fds, exit_fds, pipe_fds, with_rfd,
  with_wfd, inc_all, inc_object, inc_pipe, close_object, close_pipe, fds_of,
}
use hobbyos.Fd.Refs.{tables, ends, refs, total}
use hobbyos.Fd.Tallied.{Tallied}
use hobbyos.Fd.Steps.{FdStep, FdSteps, steps-Tallied, exit_fds-fork_fds}
use hobbyos.Fd.Fork.{NoPipes}
use hobbyos.Fd.Exit.{exit_fds-NoPipes}
use hobbyos.Fd.Create.{sys_pipe-Tallied}

-- Sockets and epoll instances: the number of sockets that are open.
abbrev sockets : Objects ℕ
sockets = record {
  socket_close = λ n o. o - 1;
  socket_inc_ref = λ n o. o + 1;
  epoll_destroy = λ n o. o;
}

-- Two processes without descriptors, and no pipe.
abbrev none_open : Files ℕ
none_open = record {
  kernel = record waiting { table = replicate 2 zero_process };
  pipes = λ a. record {
    buffer = [];
    read_pos = 0;
    write_pos = 0;
    count = 0;
    readers = 0;
    writers = 0;
    blocked_reader = none;
    blocked_writer = none;
  };
  objects = 0;
}

no_refs : (e : Bool) (x : ℕ) → total e x (tables none_open.kernel) ≡ 0
unfolding total refs zero_process
no_refs true x = refl
no_refs false x = refl

zero_fds : length zero_process.fd_table ≡ 32
unfolding zero_process
zero_fds = length-replicate {A = ProcessFd} 32 zero_fd

none_open-Tallied : Tallied none_open
none_open-Tallied = record {
  counts = λ x nz used e. absurd (omega (arith, used, no_refs true x, no_refs false x));
  sized = ((zero_fds, (zero_fds, tt)), omega arith);
}

-- The first process makes a pipe at 4096: its descriptors are 3 and 4.
abbrev piped : Files ℕ
piped = (sys_pipe (some 4096) 1000 0 none_open).1

piped_fds : (sys_pipe (some 4096) 1000 0 none_open).0 ≡ some (3, 4)
unfolding sys_pipe pipe_fds with_rfd with_wfd process_fd_alloc pipe_create find_from zero_process
piped_fds = refl

piped-Tallied : Tallied piped
piped-Tallied =
    sys_pipe-Tallied (some 4096) 1000 0 none_open (omega arith) (λ p h e. no_refs e p)
      none_open-Tallied

-- After a fork and the end of the child there is one reader again.
piped_readers : ends true (piped.pipes 4096) ≡ 1
unfolding sys_pipe pipe_fds with_rfd with_wfd process_fd_alloc pipe_create find_from zero_process
piped_readers = refl

forked_readers : ends true ((fork_fds sockets 0 1 piped).pipes 4096) ≡ 2
unfolding sys_pipe pipe_fds with_rfd with_wfd process_fd_alloc pipe_create find_from zero_process
    fork_fds inc_all inc_object inc_pipe pipe_inc_ref
forked_readers = refl

closed_readers : ends true ((sys_close sockets 0 3 piped).1.pipes 4096) ≡ 0
unfolding sys_pipe pipe_fds with_rfd with_wfd process_fd_alloc pipe_create find_from zero_process
    sys_close close_object close_pipe pipe_close_read
closed_readers = refl

child_free : (e : Bool) (x : ℕ) → refs e x (fds_of piped 1) ≡ 0
unfolding sys_pipe pipe_fds with_rfd with_wfd process_fd_alloc pipe_create find_from zero_process
    refs
child_free true x = refl
child_free false x = refl

piped_live : (i : ℕ) → i < 2 → i < length (tables piped.kernel)
unfolding sys_pipe pipe_fds with_rfd with_wfd process_fd_alloc pipe_create find_from zero_process
piped_live i lt = omega (arith, lt)

piped_refs : total true 4096 (tables piped.kernel) ≡ 1
unfolding sys_pipe pipe_fds with_rfd with_wfd process_fd_alloc pipe_create find_from zero_process
    total refs
piped_refs = refl

exit_fds-fork_fds_example :
    ends true ((exit_fds sockets 1 (fork_fds sockets 0 1 piped)).pipes 4096)
    ≡ ends true (piped.pipes 4096)
exit_fds-fork_fds_example =
    exit_fds-fork_fds sockets 0 1 true 4096 piped (piped_live 0 (omega arith))
      (piped_live 1 (omega arith)) child_free piped-Tallied (omega arith)
      (omega (arith, piped_refs))

exited : Tallied (exit_fds sockets 0 piped) × NoPipes (fds_of (exit_fds sockets 0 piped) 0)
exited = exit_fds-NoPipes sockets 0 piped (piped_live 0 (omega arith)) piped-Tallied

steps-Tallied_example : Tallied (sys_close sockets 0 3 piped).1
steps-Tallied_example =
    steps-Tallied sockets none_open (sys_close sockets 0 3 piped).1
      (FdSteps.next piped _
        (FdSteps.next none_open _ FdSteps.start
          (FdStep.create (some 4096) 1000 0 none_open (omega arith) (λ p h e. no_refs e p)))
        (FdStep.close 0 3 piped (piped_live 0 (omega arith))))
      none_open-Tallied
