-- ===== src/Fd.antt =====
-- kernel/syscall/syscall.c: the descriptor tables of the processes and the pipes that they hold:
-- SYS_CLOSE, SYS_PIPE, SYS_DUP2, and the parts of `syscall_fork` and `syscall_exit` on descriptors.
-- A pipe stands at its address. Sockets and epoll instances are a parameter: their state, and what
-- is done to it. `c` is the index of the current process.
pub mod Refs
pub mod Calls
pub mod Ends
pub mod Refers
pub mod Tallied
pub mod Release
pub mod Fork
pub mod Exit
pub mod Create
pub mod Steps
mod Tests
use hobbyos.Base.{
  ℕ, zero, suc, ◌+◌, ◌^◌, ◌%◌, ◌-◌, Bool, ◌&&◌, ◌||◌, Option, none, some, List, [], ◌∷◌, ltb, leb,
  ◌==◌, not, if◌then◌else◌, get_or, set, drop, find_from,
}
use hobbyos.UserAccess.{kernel_vma}
use hobbyos.Process.{
  ProcessFd, Process, Kernel, proc, set_proc, zero_fd, process_max_fds, fd_none, fd_pipe_read,
  fd_pipe_write,
}
use hobbyos.Pipe.{Pipe, World, pipe_create, pipe_close_read, pipe_close_write, pipe_inc_ref}

abbrev pub fd_socket : ℕ
fd_socket = 7

abbrev pub fd_epoll : ℕ
fd_epoll = 8

-- `(uint64_t)-1`
abbrev pub error : ℕ
error = 2 ^ 64 - 1

-- net/socket.c and fs/epoll.c.
pub record Objects (O : Type 0) : Type 0 where
  pub socket_close : ℕ → O → O
  pub socket_inc_ref : ℕ → O → O
  pub epoll_destroy : ℕ → O → O

pub record Files (O : Type 0) : Type 0 where
  pub kernel : Kernel
  pub pipes : ℕ → Pipe
  pub objects : O

-- `process_fd_alloc`, from `start` on.
unfoldable pub process_fd_alloc : List ProcessFd → ℕ → Option ℕ
process_fd_alloc fds start = find_from (λ f. f.type == fd_none) start (drop start fds)

-- A pointer in `data`.
abbrev pub pointer : ℕ → Option ℕ
pointer object = if object == 0 then none else some object

module _ {O : Type 0} where
  abbrev pub fds_of : Files O → ℕ → List ProcessFd
  fds_of s c = (proc s.kernel c).fd_table

  abbrev pub fd_at : Files O → ℕ → ℕ → ProcessFd
  fd_at s c fd = get_or (fds_of s c) fd zero_fd

  abbrev pub set_fds : ℕ → (List ProcessFd → List ProcessFd) → Files O → Files O
  set_fds c f s = record s {
    kernel = set_proc c (λ p. record p { fd_table = f p.fd_table }) s.kernel;
  }

  abbrev pub set_fd : ℕ → ℕ → ProcessFd → Files O → Files O
  set_fd c fd v s = set_fds c (λ fds. set fds fd v) s

  -- A call on the pipe at an address.
  abbrev pub at_pipe : ℕ → (World → World) → Files O → Files O
  at_pipe a call s =
      let w = call (record { pipe = s.pipes a; kernel = s.kernel }) in
      record s { kernel = w.kernel; pipes = λ x. if x == a then w.pipe else s.pipes x }

  -- The end of a pipe that a descriptor holds is closed.
  unfoldable pub close_pipe : ProcessFd → Files O → Files O
  close_pipe f s =
      if f.type == fd_pipe_read
      then at_pipe f.object (pipe_close_read (pointer f.object)) s
      else if f.type == fd_pipe_write
      then at_pipe f.object (pipe_close_write (pointer f.object)) s
      else s

  unfoldable pub inc_pipe : ProcessFd → Files O → Files O
  inc_pipe f s =
      if f.type == fd_pipe_read || f.type == fd_pipe_write
      then at_pipe f.object (pipe_inc_ref (pointer f.object) f.type) s
      else s

module _ {O : Type 0} (ops : Objects O) where
  unfoldable pub close_object : ProcessFd → Files O → Files O
  unfolding close_pipe
  close_object f s =
      if f.type == fd_socket
      then record s { objects = ops.socket_close f.object s.objects }
      else if f.type == fd_epoll
      then record s { objects = ops.epoll_destroy f.object s.objects }
      else close_pipe f s

  unfoldable pub sys_close : ℕ → ℕ → Files O → ℕ × Files O
  unfolding close_object
  sys_close c fd s =
      if leb process_max_fds fd || ltb fd 3
      then (error, s)
      else if (fd_at s c fd).type == fd_none
      then (error, s)
      else (0, set_fd c fd zero_fd (close_object (fd_at s c fd) s))

  -- One turn of the loop of `syscall_fork` that counts the new references.
  unfoldable pub inc_object : ProcessFd → Files O → Files O
  unfolding inc_pipe
  inc_object f s =
      if f.type == fd_socket
      then record s { objects = ops.socket_inc_ref f.object s.objects }
      else inc_pipe f s

  unfoldable pub inc_all : List ProcessFd → Files O → Files O
  unfolding inc_object
  inc_all [] s = s
  inc_all (f ∷ fs) s = inc_all fs (inc_object f s)

  -- The descriptors of the child.
  unfoldable pub fork_fds : ℕ → ℕ → Files O → Files O
  unfolding inc_all
  fork_fds parent child s = inc_all (fds_of s parent) (set_fds child (λ _. fds_of s parent) s)

  -- One turn of the loop of `syscall_exit`.
  unfoldable pub exit_fd : ℕ → ℕ → Files O → Files O
  unfolding close_object
  exit_fd c fd s =
      let f = fd_at s c fd in
      if f.type == fd_pipe_read || f.type == fd_pipe_write || f.type == fd_socket
      then set_fd c fd (record f { type = fd_none }) (close_object f s)
      else s

  -- `for (i = ..; i < PROCESS_MAX_FDS; i++)`, with the rounds that are left.
  unfoldable pub exit_from : ℕ → ℕ → ℕ → Files O → Files O
  unfolding exit_fd
  exit_from zero fd c s = s
  exit_from (suc left) fd c s = exit_from left (fd + 1) c (exit_fd c fd s)

  unfoldable pub exit_fds : ℕ → Files O → Files O
  unfolding exit_from
  exit_fds c s = exit_from process_max_fds 0 c s

module _ {O : Type 0} where
  unfoldable pub sys_dup2 : ℕ → ℕ → ℕ → Files O → ℕ × Files O
  unfolding close_pipe inc_pipe
  sys_dup2 c oldfd newfd s =
      if leb process_max_fds oldfd || leb process_max_fds newfd
      then (error, s)
      else if (fd_at s c oldfd).type == fd_none
      then (error, s)
      else if oldfd == newfd
      then (newfd, s)
      else let s' = close_pipe (fd_at s c newfd) s in
        let f = fd_at s' c oldfd in (newfd, inc_pipe f (set_fd c newfd f s'))

  -- The descriptors of a new pipe, which are written to user memory, or -1.
  unfoldable pub with_wfd : ℕ → ℕ → ℕ → Option ℕ → Files O → Option (ℕ × ℕ) × Files O
  with_wfd c p rfd none s = (none, set_fd c rfd (record (fd_at s c rfd) { type = fd_none }) s)
  with_wfd c p rfd (some wfd) s = (
    some (rfd, wfd),
    set_fd c wfd (record (fd_at s c wfd) { type = fd_pipe_write; object = p }) s,
  )

  unfoldable pub with_rfd : ℕ → ℕ → Option ℕ → Files O → Option (ℕ × ℕ) × Files O
  unfolding with_wfd process_fd_alloc
  with_rfd c p none s = (none, s)
  with_rfd c p (some rfd) s =
      let s' = set_fd c rfd (record (fd_at s c rfd) { type = fd_pipe_read; object = p }) s in
      with_wfd c p rfd (process_fd_alloc (fds_of s' c) (rfd + 1)) s'

  unfoldable pub pipe_fds : ℕ → ℕ → Files O → Option (ℕ × ℕ) × Files O
  unfolding with_rfd process_fd_alloc
  pipe_fds c p s = with_rfd c p (process_fd_alloc (fds_of s c) 3) s

  -- The pipe at the address that `kmalloc` answers.
  abbrev pub with_pipe : ℕ → Option (ℕ × Pipe) → Files O → Option (ℕ × ℕ) × Files O
  with_pipe c none s = (none, s)
  with_pipe c (some (p, pipe)) s =
      pipe_fds c p (record s { pipes = λ x. if x == p then pipe else s.pipes x })

  unfoldable pub sys_pipe : Option ℕ → ℕ → ℕ → Files O → Option (ℕ × ℕ) × Files O
  unfolding pipe_fds
  sys_pipe kmalloc user_fds c s =
      if leb kernel_vma user_fds || leb kernel_vma ((user_fds + 8) % 2 ^ 64)
      then (none, s)
      else with_pipe c (pipe_create kmalloc) s
