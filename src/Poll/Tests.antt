-- ===== src/Poll/Tests.antt =====
-- The tests on the ends of a pipe at 4096.
use hobbyos.Base.{ℕ, ◌≡◌, refl, false, some, none, [], ◌∷◌, replicate, arith}
use hobbyos.Process.{zero_process, zero_fd, fd_pipe_read, fd_pipe_write}
use hobbyos.Pipe.{pipe_read, pipe_write}
use hobbyos.Sched.Sample.{waiting}
use hobbyos.Fd.{Files}
use hobbyos.Poll.{Devices, fd_is_readable, fd_is_writable}
use hobbyos.Poll.Pipes.{answers, copies, here, readable-pipe_read, writable-pipe_write}

abbrev silent : Devices
silent = record { tty_readable = false; socket_readable = λ n. false; socket_writable = λ n. false }

-- A process with the two ends of an empty pipe.
abbrev piping : Files ℕ
piping = record {
  kernel = record waiting {
    table =
        record zero_process {
          fd_table =
              record zero_fd { type = fd_pipe_read; object = 4096 }
              ∷ record zero_fd { type = fd_pipe_write; object = 4096 }
              ∷ replicate 30 zero_fd;
        }
        ∷ [];
  };
  pipes = λ a. record {
    buffer = replicate 4096 0;
    read_pos = 0;
    write_pos = 0;
    count = 0;
    readers = 1;
    writers = 1;
    blocked_reader = none;
    blocked_writer = none;
  };
  objects = 0;
}

not_readable : fd_is_readable silent piping 0 0 ≡ false
unfolding fd_is_readable
not_readable = refl

readable-pipe_read_example :
    fd_is_readable silent piping 0 0 ≡ answers (pipe_read [] (some 4096) 5 (here silent piping 0 0))
readable-pipe_read_example = readable-pipe_read silent piping 0 0 5 (omega arith) refl (omega arith)

writes_at_once :
    fd_is_writable silent piping 0 1
    ≡ copies (pipe_write [] (some 4096) (9 ∷ []) (here silent piping 0 1))
writes_at_once =
    writable-pipe_write silent piping 0 1 (9 ∷ []) (omega arith) refl (omega arith) (omega arith)
      (omega arith)
