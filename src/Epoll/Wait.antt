-- ===== src/Epoll/Wait.antt =====
-- kernel/syscall/syscall.c: SYS_EPOLL_CREATE, SYS_EPOLL_CTL and SYS_EPOLL_WAIT. The arguments that are
-- copied from user memory are arguments here; an `int32_t` is a word of 32 bits. `c` is the index of
-- the current process.
use hobbyos.Base.{
  ℕ, zero, suc, ◌+◌, ◌-◌, ◌/◌, ◌^◌, Bool, true, false, not, ◌&&◌, ◌||◌, Option, none, some, List,
  [], ◌∷◌, ◌++◌, length, leb, ltb, ◌==◌, if◌then◌else◌, modify, take, drop, bit_and, bit_or,
}
use hobbyos.UserAccess.{kernel_vma}
use hobbyos.Process.{ProcessState, Kernel, proc, set_proc, process_max_fds}
use hobbyos.Sched.{schedule}
use hobbyos.Fd.{Files, error, fd_at, fds_of, set_fd, fd_epoll, process_fd_alloc}
use hobbyos.Poll.{Devices, fd_is_readable, fd_is_writable}
use hobbyos.Epoll.{
  EpollWatch, EpollInstance, epoll_create_instance, epoll_destroy, epoll_get, epoll_ctl_instance,
  instance_at,
}

abbrev pub epollin : ℕ
epollin = 1

abbrev pub epollout : ℕ
epollout = 4

abbrev pub epollet : ℕ
epollet = 2 ^ 31

pub record EpollEvent : Type 0 where
  pub events : ℕ
  pub user_data : ℕ

-- Whether the current process can read and write a descriptor.
pub record Ready : Type 0 where
  pub readable : ℕ → Bool
  pub writable : ℕ → Bool

abbrev pub is_et : EpollWatch → Bool
is_et w = not (bit_and w.events epollet == 0)

unfoldable pub ready_events : Ready → EpollWatch → ℕ
ready_events r w =
    let wev = bit_and w.events (2 ^ 32 - 1 - epollet) in
    bit_or (if not (bit_and wev epollin == 0) && r.readable w.fd then epollin else 0)
      (if not (bit_and wev epollout == 0) && r.writable w.fd then epollout else 0)

abbrev pub scanned :
    EpollWatch → List EpollEvent × List EpollWatch → List EpollEvent × List EpollWatch
scanned w (events, ws) = (events, w ∷ ws)

abbrev pub reported :
    EpollEvent → EpollWatch → List EpollEvent × List EpollWatch → List EpollEvent × List EpollWatch
reported e w (events, ws) = (e ∷ events, w ∷ ws)

-- The loop over the watches in use, while fewer than `maxevents` are found.
unfoldable pub scan : Ready → ℕ → List EpollWatch → List EpollEvent × List EpollWatch
unfolding ready_events
scan r zero ws = ([], ws)
scan r (suc n) [] = ([], [])
scan r (suc n) (w ∷ ws) =
    let fewer = scan r n ws in
    let same = scan r (suc n) ws in
    let ready = ready_events r w in
    if not (ready == 0)
    then if is_et w && w.et_reported
      then scanned w same
      else reported (record { events = ready; user_data = w.user_data })
          (if is_et w then record w { et_reported = true } else w) fewer
    else scanned (if is_et w then record w { et_reported = false } else w) same

abbrev pub rest_of :
    EpollInstance → List EpollEvent × List EpollWatch → List EpollEvent × EpollInstance
rest_of ep (events, ws) = (events, record ep { watches = ws ++ drop ep.watch_count ep.watches })

unfoldable pub scan_instance : Ready → ℕ → EpollInstance → List EpollEvent × EpollInstance
unfolding scan
scan_instance r maxevents ep = rest_of ep (scan r maxevents (take ep.watch_count ep.watches))

pub record EpollWorld : Type 0 where
  pub files : Files (List EpollInstance)
  pub devices : Devices

abbrev pub ready_of : ℕ → EpollWorld → Ready
ready_of c w = record {
  readable = fd_is_readable w.devices w.files c;
  writable = fd_is_writable w.devices w.files c;
}

abbrev pub pool_of : EpollWorld → List EpollInstance
pool_of w = w.files.objects

abbrev pub set_pool : (List EpollInstance → List EpollInstance) → EpollWorld → EpollWorld
set_pool f w = record w { files = record (w.files) { objects = f w.files.objects } }

abbrev pub set_kernel : (Kernel → Kernel) → EpollWorld → EpollWorld
set_kernel f w = record w { files = record (w.files) { kernel = f w.files.kernel } }

-- The descriptor of a new instance.
abbrev pub with_fd : ℕ → ℕ → Option ℕ → EpollWorld → ℕ × EpollWorld
with_fd c i none w = (error, set_pool (epoll_destroy i) w)
with_fd c i (some fd) w = (
  fd,
  record w { files = set_fd c fd (record { type = fd_epoll; object = i; offset = 0 }) w.files },
)

abbrev pub with_instance : ℕ → Option ℕ × List EpollInstance → EpollWorld → ℕ × EpollWorld
with_instance c (none, pool) w = (error, w)
with_instance c (some i, pool) w =
    with_fd c i (process_fd_alloc (fds_of w.files c) 3) (set_pool (λ _. pool) w)

unfoldable pub syscall_epoll_create : ℕ → EpollWorld → ℕ × EpollWorld
unfolding epoll_create_instance epoll_destroy process_fd_alloc
syscall_epoll_create c w =
    let p = proc w.files.kernel c in
    if not p.is_user
    then (error, w)
    else with_instance c (epoll_create_instance p.pid (pool_of w)) w

-- The index of an epoll instance that a descriptor names, or -1.
abbrev pub epoll_index : ℕ → ℕ → ℕ → EpollWorld → Option ℕ
epoll_index c epfd args_ptr w =
    if not (proc w.files.kernel c).is_user
    then none
    else if leb kernel_vma args_ptr
    then none
    else if leb process_max_fds epfd || not ((fd_at w.files c epfd).type == fd_epoll)
    then none
    else some (fd_at w.files c epfd).object

abbrev pub with_pool : ℕ × List EpollInstance → EpollWorld → ℕ × EpollWorld
with_pool (r, pool) w = (r, set_pool (λ _. pool) w)

abbrev pub control_at : Option ℕ → ℕ → ℕ → ℕ → ℕ → EpollWorld → ℕ × EpollWorld
control_at none op fd events user_data w = (error, w)
control_at (some i) op fd events user_data w =
    with_pool (epoll_ctl_instance i op fd events user_data (pool_of w)) w

unfoldable pub syscall_epoll_ctl : ℕ → ℕ → ℕ → ℕ → ℕ → ℕ → ℕ → EpollWorld → ℕ × EpollWorld
unfolding epoll_ctl_instance
syscall_epoll_ctl c epfd args_ptr op fd events user_data w =
    control_at (epoll_index c epfd args_ptr w) op fd events user_data w

pub record WaitArgs : Type 0 where
  pub maxevents : ℕ
  pub timeout_ms : ℕ
  pub events_ptr : ℕ

-- `maxevents` and `timeout_ms` as numbers of 32 bits with a sign.
abbrev pub is_negative : ℕ → Bool
is_negative n = leb (2 ^ 31) n

abbrev pub timeout_ticks : ℕ → ℕ
timeout_ticks ms = if is_negative ms then 2 ^ 64 - 1 else ms / 10 + 1

-- A scan of the instance at `i`: the events, and the world after it.
abbrev pub store_scan :
    ℕ → List EpollEvent × EpollInstance → EpollWorld → List EpollEvent × EpollWorld
store_scan i (events, ep) w = (events, set_pool (λ pool. modify pool i (λ _. ep)) w)

unfoldable pub scan_at : ℕ → ℕ → ℕ → EpollWorld → List EpollEvent × EpollWorld
unfolding scan_instance
scan_at c i maxevents w =
    store_scan i (scan_instance (ready_of c w) maxevents (instance_at (pool_of w) i)) w

-- The process is blocked; the other processes run until the timer makes it ready again.
unfoldable pub wait_ready : (EpollWorld → EpollWorld) → ℕ → ℕ → ℕ → EpollWorld → EpollWorld
wait_ready others c i ms w =
    let blocked =
      set_kernel
        (λ k. schedule (
          set_proc c
            (λ p. record p {
              epoll_fd_idx = some i;
              epoll_timeout_ticks = timeout_ticks ms;
              state = ProcessState.blocked;
            })
            k))
        w in
    set_kernel (set_proc c (λ p. record p { epoll_fd_idx = none })) (others blocked)

abbrev pub first_scan :
    (EpollWorld → EpollWorld)
    → ℕ
    → ℕ
    → WaitArgs
    → List EpollEvent × EpollWorld
    → List EpollEvent × EpollWorld
first_scan others c i args (events, w) =
    if ltb 0 (length events) || (args.timeout_ms == 0)
    then (events, w)
    else scan_at c i args.maxevents (wait_ready others c i args.timeout_ms w)

abbrev pub wait_at :
    (EpollWorld → EpollWorld)
    → ℕ
    → ℕ
    → Option EpollInstance
    → WaitArgs
    → EpollWorld
    → Option (List EpollEvent) × EpollWorld
wait_at others c i none args w = (none, w)
wait_at others c i (some ep) args w =
    if (args.maxevents == 0) || is_negative args.maxevents
    then (none, w)
    else if leb kernel_vma args.events_ptr
    then (none, w)
    else let out = first_scan others c i args (scan_at c i args.maxevents w) in (some out.0, out.1)

abbrev pub wait_on :
    (EpollWorld → EpollWorld)
    → ℕ
    → Option ℕ
    → WaitArgs
    → EpollWorld
    → Option (List EpollEvent) × EpollWorld
wait_on others c none args w = (none, w)
wait_on others c (some i) args w = wait_at others c i (epoll_get i (pool_of w)) args w

-- The events that are written to user memory, whose number is the result, or -1.
unfoldable pub syscall_epoll_wait :
    (EpollWorld → EpollWorld)
    → ℕ
    → ℕ
    → ℕ
    → WaitArgs
    → EpollWorld
    → Option (List EpollEvent) × EpollWorld
unfolding scan_at wait_ready epoll_get
syscall_epoll_wait others c epfd args_ptr args w =
    wait_on others c (epoll_index c epfd args_ptr w) args w
