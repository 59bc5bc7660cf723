-- ===== src/Pipe.antt =====
-- kernel/fs/pipe.c: a pipe of 4096 bytes between readers and writers that sleep on it.
-- A pointer to the pipe is an address or NULL (`none`); the state of the pipe that it points to
-- stands in the world, beside the scheduler's. While a process sleeps others run: what they do to
-- the world is a function, and a call that sleeps is given one such function for each sleep. It
-- ends as `asleep` when it would sleep once more.
-- The 32-bit counters are written without the wrap where the buffer's size bounds them.
pub mod Inv
pub mod Bytes
pub mod Write
pub mod Wakeup
mod Tests
use hobbyos.Base.{
  ℕ, ◌+◌, ◌-◌, ◌%◌, ◌^◌, Bool, ◌&&◌, Option, none, some, List, [], ◌∷◌, ltb, ◌==◌, is_some,
  if◌then◌else◌, length, take, replicate,
}
use hobbyos.Process.{ProcessState, Kernel, fd_pipe_read, fd_pipe_write}
use hobbyos.Sched.{scheduler_add, schedule, set_state}
use hobbyos.Ring.{copy_out, copy_in}

abbrev pub pipe_buf_size : ℕ
pipe_buf_size = 4096

pub record Pipe : Type 0 where
  pub buffer : List ℕ
  pub read_pos : ℕ
  pub write_pos : ℕ
  pub count : ℕ
  pub readers : ℕ
  pub writers : ℕ
  pub blocked_reader : Option ℕ
  pub blocked_writer : Option ℕ

pub record World : Type 0 where
  pub pipe : Pipe
  pub kernel : Kernel

-- `kmalloc`'s answer is the argument; the outcome is `*out`, or -1.
unfoldable pub pipe_create : Option ℕ → Option (ℕ × Pipe)
pipe_create none = none
pipe_create (some p) = some (
  p,
  record {
    buffer = replicate pipe_buf_size 0;
    read_pos = 0;
    write_pos = 0;
    count = 0;
    readers = 1;
    writers = 1;
    blocked_reader = none;
    blocked_writer = none;
  },
)

-- `if (p) { p->state = PROCESS_READY; scheduler_add(p); }`
unfoldable pub wake : Option ℕ → Kernel → Kernel
wake none k = k
wake (some i) k = scheduler_add i (set_state i ProcessState.ready k)

abbrev pub wake_writer : World → World
wake_writer w = record {
  pipe = record (w.pipe) { blocked_writer = none };
  kernel = wake w.pipe.blocked_writer w.kernel;
}

abbrev pub wake_reader : World → World
wake_reader w = record {
  pipe = record (w.pipe) { blocked_reader = none };
  kernel = wake w.pipe.blocked_reader w.kernel;
}

-- The current process goes to sleep, and `schedule` gives the processor away.
unfoldable pub sleep : Option ℕ → Kernel → Kernel
sleep none k = schedule k
sleep (some c) k = schedule (set_state c ProcessState.blocked k)

abbrev pub sleep_reader : World → World
sleep_reader w = record {
  pipe = record (w.pipe) { blocked_reader = w.kernel.current };
  kernel = sleep w.kernel.current w.kernel;
}

abbrev pub sleep_writer : World → World
sleep_writer w = record {
  pipe = record (w.pipe) { blocked_writer = w.kernel.current };
  kernel = sleep w.kernel.current w.kernel;
}

abbrev pub Interlude : Type 0
Interlude = World → World

pub data ReadResult : Type 0 where
  bad_pipe : World → ReadResult
  eof : World → ReadResult
  bytes : List ℕ → World → ReadResult
  asleep : World → ReadResult

-- From the copy to the end of `pipe_read`.
unfoldable pub drain : ℕ → World → List ℕ × World
unfolding wake
drain n w =
    let p = w.pipe in
    let to_read = if ltb n p.count then n else p.count in
    let (out, pos) = copy_out pipe_buf_size p.buffer p.read_pos to_read in
    (out, wake_writer (record w { pipe = record p { read_pos = pos; count = p.count - to_read } }))

abbrev pub drained : List ℕ × World → ReadResult
drained r = bytes r.0 r.1

-- The loop `while (p->count == 0)`, and what follows it.
unfoldable pub read_loop : List Interlude → ℕ → World → ReadResult
unfolding drain sleep
read_loop [] n w =
    if w.pipe.count == 0
    then if w.pipe.writers == 0 then eof w else asleep (sleep_reader w)
    else drained (drain n w)
read_loop (others ∷ es) n w =
    let again = read_loop es n (others (sleep_reader w)) in
    if w.pipe.count == 0 then if w.pipe.writers == 0 then eof w else again else drained (drain n w)

unfoldable pub pipe_read : List Interlude → Option ℕ → ℕ → World → ReadResult
unfolding read_loop
pipe_read es none n w = bad_pipe w
pipe_read es (some _) n w = read_loop es n w

pub data WriteResult : Type 0 where
  broken : World → WriteResult
  wrote : ℕ → World → WriteResult
  asleep : World → WriteResult

-- From the copy to the end of `pipe_write`.
unfoldable pub fill : List ℕ → World → ℕ × World
unfolding wake
fill src w =
    let p = w.pipe in
    let space = pipe_buf_size - p.count in
    let to_write = if ltb (length src) space then length src else space in
    let (buf, pos) = copy_in pipe_buf_size p.buffer p.write_pos (take to_write src) in
    (
      to_write,
      wake_reader (record w {
        pipe = record p { buffer = buf; write_pos = pos; count = p.count + to_write };
      }),
    )

abbrev pub filled : ℕ × World → WriteResult
filled r = wrote r.0 r.1

-- The loop `while (p->count == PIPE_BUF_SIZE)`, and what follows it.
unfoldable pub write_loop : List Interlude → List ℕ → World → WriteResult
unfolding fill sleep
write_loop [] src w =
    if w.pipe.count == pipe_buf_size
    then if w.pipe.readers == 0 then broken w else WriteResult.asleep (sleep_writer w)
    else filled (fill src w)
write_loop (others ∷ es) src w =
    let again = write_loop es src (others (sleep_writer w)) in
    if w.pipe.count == pipe_buf_size
    then if w.pipe.readers == 0 then broken w else again
    else filled (fill src w)

unfoldable pub pipe_write : List Interlude → Option ℕ → List ℕ → World → WriteResult
unfolding write_loop
pipe_write es none src w = broken w
pipe_write es (some _) src w = if w.pipe.readers == 0 then broken w else write_loop es src w

unfoldable pub pipe_close_read : Option ℕ → World → World
unfolding wake
pipe_close_read none w = w
pipe_close_read (some _) w =
    let p = w.pipe in
    let left = if ltb 0 p.readers then p.readers - 1 else p.readers in
    let w' = record w { pipe = record p { readers = left } } in
    if (left == 0) && is_some p.blocked_writer then wake_writer w' else w'

unfoldable pub pipe_close_write : Option ℕ → World → World
unfolding wake
pipe_close_write none w = w
pipe_close_write (some _) w =
    let p = w.pipe in
    let left = if ltb 0 p.writers then p.writers - 1 else p.writers in
    let w' = record w { pipe = record p { writers = left } } in
    if (left == 0) && is_some p.blocked_reader then wake_reader w' else w'

unfoldable pub pipe_inc_ref : Option ℕ → ℕ → World → World
pipe_inc_ref none type w = w
pipe_inc_ref (some _) type w =
    let p = w.pipe in
    if type == fd_pipe_read
    then record w { pipe = record p { readers = (p.readers + 1) % 2 ^ 32 } }
    else if type == fd_pipe_write
    then record w { pipe = record p { writers = (p.writers + 1) % 2 ^ 32 } }
    else w
