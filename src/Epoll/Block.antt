-- ===== src/Epoll/Block.antt =====
-- kernel/syscall/syscall.c, SYS_EPOLL_WAIT: what it answers, and when it blocks.
use hobbyos.Base.{none, modify, ◌/◌, ◌+◌, ◌-◌, ℕ, ◌^◌, List, some, take, if◌then◌else◌, leb}
use hobbyos.Process.{Process, ProcessState}
use hobbyos.Sched.{schedule}
use hobbyos.Epoll.{EpollInstance, instance_at}
use hobbyos.Epoll.Wait.{Ready, EpollEvent, EpollWorld, scan_instance, ready_of, pool_of}
use hobbyos.Epoll.Answers.{answers}

-- The first `n` of the events that are due in an instance.
abbrev pub due_events : Ready → ℕ → EpollInstance → List EpollEvent
due_events r n ep = take n (answers r (take ep.watch_count ep.watches))

-- Those of the instance at `i`, for the process `c`.
abbrev pub due_now : ℕ → ℕ → ℕ → EpollWorld → List EpollEvent
due_now c i n w = due_events (ready_of c w) n (instance_at (pool_of w) i)

-- The world after a scan: the flags of the instance at `i` are those that the scan leaves.
abbrev pub after_scan : ℕ → ℕ → ℕ → EpollWorld → EpollWorld
after_scan c i n w =
    let ep' = (scan_instance (ready_of c w) n (instance_at (pool_of w) i)).1 in
    record w { files = record (w.files) { objects = modify w.files.objects i (λ _. ep') } }

-- A process `c` that waits on the instance at `i` for `ms` milliseconds, for ever when that is a
-- negative number: it is blocked, with its timeout in ticks of 10 milliseconds, and another one has
-- been chosen.
abbrev pub asleep_on : ℕ → ℕ → ℕ → EpollWorld → EpollWorld
asleep_on c i ms w =
    let p' : Process → Process = λ p. record p {
      state = ProcessState.blocked;
      epoll_fd_idx = some i;
      epoll_timeout_ticks = if leb (2 ^ 31) ms then 2 ^ 64 - 1 else ms / 10 + 1;
    } in
    let k = record (w.files.kernel) { table = modify w.files.kernel.table c p' } in
    record w { files = record (w.files) { kernel = schedule k } }

-- A process `c` that waits no more.
abbrev pub resumed : ℕ → EpollWorld → EpollWorld
resumed c w =
    let p' : Process → Process = λ p. record p { epoll_fd_idx = none } in
    let k = record (w.files.kernel) { table = modify w.files.kernel.table c p' } in
    record w { files = record (w.files) { kernel = k } }
