-- ===== src/Poll.antt =====
-- kernel/fs/poll.c: whether a descriptor can be read or written at once. The terminal and the sockets
-- are a parameter. A descriptor is a word of 32 bits, so that a negative one is large.
pub mod Pipes
mod Tests
use hobbyos.Base.{ℕ, Bool, true, false, ◌&&◌, ◌||◌, not, leb, ltb, ◌==◌, if◌then◌else◌}
use hobbyos.Process.{ProcessFd, process_max_fds, fd_pipe_read, fd_pipe_write}
use hobbyos.Pipe.{Pipe, pipe_buf_size}
use hobbyos.Fd.{Files, fd_at, fd_socket}

abbrev pub fd_vfs : ℕ
fd_vfs = 1

abbrev pub fd_console : ℕ
fd_console = 4

abbrev pub fd_ext2 : ℕ
fd_ext2 = 6

pub record Devices : Type 0 where
  pub tty_readable : Bool
  pub socket_readable : ℕ → Bool
  pub socket_writable : ℕ → Bool

unfoldable pub fd_is_readable : {O : Type 0} → Devices → Files O → ℕ → ℕ → Bool
fd_is_readable dev s c fd =
    let f = fd_at s c fd in
    let p = s.pipes f.object in
    if leb process_max_fds fd
    then false
    else if f.type == fd_pipe_read
    then not (f.object == 0) && (ltb 0 p.count || (p.writers == 0))
    else if f.type == fd_console
    then dev.tty_readable
    else if f.type == fd_socket
    then dev.socket_readable f.object
    else (f.type == fd_ext2) || (f.type == fd_vfs)

unfoldable pub fd_is_writable : {O : Type 0} → Devices → Files O → ℕ → ℕ → Bool
fd_is_writable dev s c fd =
    let f = fd_at s c fd in
    let p = s.pipes f.object in
    if leb process_max_fds fd
    then false
    else if f.type == fd_pipe_write
    then not (f.object == 0) && ltb p.count pipe_buf_size
    else if f.type == fd_console
    then true
    else if f.type == fd_socket
    then dev.socket_writable f.object
    else (f.type == fd_ext2) || (f.type == fd_vfs)
