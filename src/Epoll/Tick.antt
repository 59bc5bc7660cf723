-- ===== src/Epoll/Tick.antt =====
-- kernel/scheduler/scheduler.c, `scheduler_tick`: the timer wakes the processes in SYS_EPOLL_WAIT.
-- What the timer does for the network is a parameter.
use hobbyos.Base.{
  ℕ, zero, suc, ◌+◌, ◌-◌, ◌%◌, ◌^◌, Bool, true, false, not, ◌&&◌, ◌||◌, Option, none, some, List,
  [], ◌∷◌, ltb, ◌==◌, if◌then◌else◌, take, bit_and,
}
use hobbyos.Process.{ProcessState, Kernel, proc, set_proc, max_processes}
use hobbyos.Sched.{schedule, scheduler_add, is_blocked}
use hobbyos.Epoll.{EpollWatch, EpollInstance, epoll_get}
use hobbyos.Epoll.Wait.{Ready, EpollWorld, ready_of, pool_of, set_kernel, epollin, epollout}

abbrev pub watch_ready : Ready → EpollWatch → Bool
watch_ready r w =
    (not (bit_and w.events epollin == 0) && r.readable w.fd)
    || (not (bit_and w.events epollout == 0) && r.writable w.fd)

-- The loop that stops at the first watch that is ready.
unfoldable pub any_ready : Ready → List EpollWatch → Bool
any_ready r [] = false
any_ready r (w ∷ ws) = let rest = any_ready r ws in if watch_ready r w then true else rest

abbrev pub instance_ready : Ready → Option EpollInstance → Bool
instance_ready r none = false
instance_ready r (some ep) = any_ready r (take ep.watch_count ep.watches)

-- A finite timeout goes down.
abbrev pub tick_timeout : ℕ → ℕ
tick_timeout ticks = if ticks == 2 ^ 64 - 1 then ticks else if ltb 0 ticks then ticks - 1 else ticks

abbrev pub wake_epoll : ℕ → Kernel → Kernel
wake_epoll i k =
    scheduler_add i
      (set_proc i (λ p. record p { epoll_fd_idx = none; state = ProcessState.ready }) k)

-- A process that is blocked on the instance at `e`.
unfoldable pub tick_blocked : ℕ → ℕ → EpollWorld → EpollWorld
unfolding any_ready epoll_get
tick_blocked i e w =
    let ticks = tick_timeout (proc w.files.kernel i).epoll_timeout_ticks in
    let w' = set_kernel (set_proc i (λ p. record p { epoll_timeout_ticks = ticks })) w in
    if (ticks == 0) || instance_ready (ready_of i w') (epoll_get e (pool_of w'))
    then set_kernel (wake_epoll i) w'
    else w'

abbrev pub tick_process : Option ℕ → ℕ → EpollWorld → EpollWorld
tick_process none i w = w
tick_process (some e) i w =
    if not (is_blocked (proc w.files.kernel i).state) then w else tick_blocked i e w

-- `for (i = ..; i < MAX_PROCESSES; i++)`, with the rounds that are left.
unfoldable pub tick_waiting : ℕ → ℕ → EpollWorld → EpollWorld
unfolding tick_blocked
tick_waiting zero i w = w
tick_waiting (suc left) i w =
    tick_waiting left (i + 1) (tick_process (proc w.files.kernel i).epoll_fd_idx i w)

-- `scheduler_tick` with the number of ticks so far.
unfoldable pub scheduler_tick : (EpollWorld → EpollWorld) → Bool → ℕ → EpollWorld → EpollWorld
unfolding tick_waiting
scheduler_tick net_tick enabled tick_count w =
    if not enabled
    then w
    else let w' = tick_waiting max_processes 0 (net_tick w) in
      if tick_count % 10 == 0 then set_kernel schedule w' else w'
