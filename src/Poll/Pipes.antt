-- ===== src/Poll/Pipes.antt =====
-- kernel/fs/poll.c and kernel/fs/pipe.c: what the tests on a pipe say of the calls on it.
use hobbyos.Base.{
  ℕ, ◌≤◌, ◌<◌, ◌≡◌, ◌≢◌, sym, ◌∙◌, ap, List, [], Bool, true, false, ◌||◌, leb, ltb, ◌==◌,
  if◌then◌else◌, some, ne→==, Bool-cases, inl, inr, then_eq, else_eq, arith,
}
use hobbyos.Process.{process_max_fds, fd_pipe_read, fd_pipe_write}
use hobbyos.Pipe.{
  World, ReadResult, WriteResult, pipe_read, pipe_write, read_loop, write_loop, fill, filled,
  broken, sleep_writer, pipe_buf_size,
}
use hobbyos.Fd.{Files, fd_at}
use hobbyos.Poll.{Devices, fd_is_readable, fd_is_writable}

-- The call ends before it would sleep.
abbrev pub answers : ReadResult → Bool
answers (ReadResult.asleep w) = false
answers _ = true

-- The call copies bytes before it would sleep.
abbrev pub copies : WriteResult → Bool
copies (WriteResult.wrote n w) = true
copies _ = false

read_answers :
    (a n : ℕ) (w : World)
    → answers (pipe_read [] (some a) n w) ≡ (ltb 0 w.pipe.count || (w.pipe.writers == 0))
unfolding pipe_read read_loop
read_answers a n w = ground arith

write_copies :
    (a : ℕ) (src : List ℕ) (w : World)
    → w.pipe.count ≤ pipe_buf_size
    → w.pipe.readers ≢ 0
    → copies (pipe_write [] (some a) src w) ≡ ltb w.pipe.count pipe_buf_size
unfolding pipe_write write_loop
write_copies a src w le open_end =
    let test = w.pipe.count == pipe_buf_size in
    let into = filled (fill src w) in
    let stop = if w.pipe.readers == 0 then broken w else WriteResult.asleep (sleep_writer w) in
    ap copies (else_eq (w.pipe.readers == 0) (broken w) _ (ne→== w.pipe.readers 0 open_end))
    ∙ (elim (Bool-cases test) [
      | inl full ↦
          (ap copies (then_eq test stop into full)
            ∙ ap copies
                (else_eq (w.pipe.readers == 0) (broken w) _ (ne→== w.pipe.readers 0 open_end))
            ∙ ground (arith, full))
      | inr room ↦ (ap copies (else_eq test stop into room) ∙ ground (arith, room, le))
    ])

module _ {O : Type 0} (dev : Devices) (s : Files O) (c fd : ℕ) where
  abbrev pub here : World
  here = record { pipe = s.pipes (fd_at s c fd).object; kernel = s.kernel }

  -- A descriptor below 32 of the end that is read of a pipe that is not NULL is readable exactly when
  -- `pipe_read` ends at once.
  pub readable-pipe_read :
      (n : ℕ)
      → fd < process_max_fds
      → (fd_at s c fd).type ≡ fd_pipe_read
      → (fd_at s c fd).object ≢ 0
      → fd_is_readable dev s c fd ≡ answers (pipe_read [] (some (fd_at s c fd).object) n here)
  unfolding fd_is_readable
  readable-pipe_read n lt type nz =
      let f = fd_at s c fd in
      else_eq (leb process_max_fds fd) false _ (ground (arith, lt))
      ∙ then_eq (f.type == fd_pipe_read) _ _ (ground (arith, type))
      ∙ ground (arith, nz)
      ∙ sym (read_answers f.object n here)

  -- A descriptor of the end that is written is writable, while the pipe has a reader, exactly when
  -- `pipe_write` copies bytes at once.
  pub writable-pipe_write :
      (src : List ℕ)
      → fd < process_max_fds
      → (fd_at s c fd).type ≡ fd_pipe_write
      → (fd_at s c fd).object ≢ 0
      → (s.pipes (fd_at s c fd).object).count ≤ pipe_buf_size
      → (s.pipes (fd_at s c fd).object).readers ≢ 0
      → fd_is_writable dev s c fd ≡ copies (pipe_write [] (some (fd_at s c fd).object) src here)
  unfolding fd_is_writable
  writable-pipe_write src lt type nz le open_end =
      let f = fd_at s c fd in
      else_eq (leb process_max_fds fd) false _ (ground (arith, lt))
      ∙ then_eq (f.type == fd_pipe_write) _ _ (ground (arith, type))
      ∙ ground (arith, nz)
      ∙ sym (write_copies f.object src here le open_end)
