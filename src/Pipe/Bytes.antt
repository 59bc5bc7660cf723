-- ===== src/Pipe/Bytes.antt =====
-- What a pipe's reads and writes move: it is a queue of at most 4096 bytes.
use hobbyos.Base.{
  ℕ, ◌+◌, ◌-◌, ◌<◌, ◌≡◌, refl, min, some, List, [], ◌∷◌, ◌++◌, ltb, ◌==◌, if◌then◌else◌, length,
  take, drop, length-take, arith, Bool-cases, sym, subst, inl, inr, false, All, ==→eq,
  take-append-drop, Option, none, ◌≢◌, true, ==→ne,
}
use hobbyos.Ring.{copy_in}
use hobbyos.Ring.Window.{window, length-window}
use hobbyos.Ring.Transfer.{IsRing, copy_out_lem, copy_in-window}
use hobbyos.Process.{Kernel}
use hobbyos.Sched.Blocked.{Blocks}
use hobbyos.Pipe.{
  sleep, World, ReadResult, Interlude, pipe_buf_size, drain, fill, pipe_read, read_loop, drained,
  sleep_reader,
}
use hobbyos.Pipe.Inv.{IsPipe, contents}

least : (a b : ℕ) → (if ltb a b then a else b) ≡ min a b
least a b = ground arith

pub drain_lem :
    (n : ℕ) (w : World)
    → IsPipe w.pipe
    → let (out, w') = drain n w in
      (out ≡ take (min n w.pipe.count) (contents w.pipe))
      × (contents w'.pipe ≡ drop (min n w.pipe.count) (contents w.pipe))
      × IsPipe w'.pipe
unfolding drain
drain_lem n w r = rw least (
    copy_out_lem pipe_buf_size w.pipe.buffer w.pipe.read_pos w.pipe.write_pos w.pipe.count r
      (min n w.pipe.count) (omega arith))

pub fill_lem :
    (src : List ℕ) (w : World)
    → IsPipe w.pipe
    → let (n, w') = fill src w in
      (n ≡ min (length src) (pipe_buf_size - w.pipe.count))
      × (contents w'.pipe ≡ contents w.pipe ++ take n src)
      × IsPipe w'.pipe
unfolding fill
fill_lem src w r =
    let n = min (length src) (pipe_buf_size - w.pipe.count) in
    let l : length (take n src) ≡ n = omega (arith, length-take n src) in
    let moved =
      copy_in-window pipe_buf_size (take n src) w.pipe.buffer w.pipe.read_pos w.pipe.write_pos
        w.pipe.count r (omega arith) in
    let (buf, pos) = copy_in pipe_buf_size w.pipe.buffer w.pipe.write_pos (take n src) in
    rw least (
      refl,
      subst
          (λ m.
            window pipe_buf_size buf w.pipe.read_pos (w.pipe.count + m)
            ≡ contents w.pipe ++ take n src)
          l moved.0,
      subst (λ m. IsRing pipe_buf_size buf w.pipe.read_pos pos (w.pipe.count + m)) l moved.1,
    )

-- What others do while a process sleeps leaves the pipe well formed.
abbrev pub Keeps : Interlude → Type 0
Keeps others = (w : World) → IsPipe w.pipe → IsPipe (others w).pipe

pub sleep-Blocks : (o : Option ℕ) (k : Kernel) → Blocks o k (sleep o k)
unfolding sleep
sleep-Blocks none k = refl
sleep-Blocks (some c) k = refl

-- A reader sleeps on the pipe of `w`, which is empty and has a writer: `v` is what it leaves.
pub record ReaderSleeps (w v : World) : Type 0 where
  pub empty : w.pipe.count ≡ 0
  pub open_end : w.pipe.writers ≢ 0
  pub waits : v.pipe ≡ record (w.pipe) { blocked_reader = w.kernel.current }
  pub blocked : Blocks w.kernel.current w.kernel v.kernel

-- From `w` a call of `pipe_read` sleeps, others run, and so on, up to the state `u`; `rest` is what
-- is left of the others.
pub data ReadsUpTo : List Interlude → World → List Interlude → World → Type 0 where
  here : {es : List Interlude} {w : World} → ReadsUpTo es w es w
  after_sleep :
      {others : Interlude} {es rest : List Interlude} {w u : World} (v : World)
      → ReaderSleeps w v
      → ReadsUpTo es (others v) rest u
      → ReadsUpTo (others ∷ es) w rest u

-- The promise of `pipe_read` for `n` bytes from `w` on, for each way in which it ends in a state `u`
-- that it comes to by its sleeps. At the end of file the pipe of `u` is empty and has no writer;
-- otherwise the bytes are the oldest of the pipe of `u`, which is not empty, as many as asked for and
-- there, and the others stay in order; and it sleeps only on an empty pipe that has a writer, when
-- the others have run as often as they do.
abbrev pub ReadOk : List Interlude → ℕ → World → ReadResult → Type 0
ReadOk es n w (ReadResult.bad_pipe u) = ⊥
ReadOk es n w (ReadResult.eof u) =
    (rest : List Interlude) × ReadsUpTo es w rest u
    × IsPipe u.pipe
    × (u.pipe.count ≡ 0)
    × (u.pipe.writers ≡ 0)
ReadOk es n w (ReadResult.bytes out w') =
    (rest : List Interlude) × (u : World) × ReadsUpTo es w rest u
    × IsPipe u.pipe
    × (0 < u.pipe.count)
    × (contents u.pipe ≡ out ++ contents w'.pipe)
    × (length out ≡ min n u.pipe.count)
    × IsPipe w'.pipe
ReadOk es n w (ReadResult.asleep v) =
    (u : World) × ReadsUpTo es w [] u × ReaderSleeps u v × IsPipe v.pipe

drain-ReadOk :
    (es : List Interlude) (n : ℕ) (w : World)
    → IsPipe w.pipe
    → (w.pipe.count == 0) ≡ false
    → ReadOk es n w (drained (drain n w))
drain-ReadOk es n w r some_left =
    let k = min n w.pipe.count in
    let (out, rest, r') = drain_lem n w r in
    let len : length (contents w.pipe) ≡ w.pipe.count =
      length-window pipe_buf_size w.pipe.buffer w.pipe.read_pos w.pipe.count in
    (
      es,
      w,
      ReadsUpTo.here,
      r,
      ground arith,
      sym (rw (out, rest) (take-append-drop k (contents w.pipe))),
      rw out (omega (arith, length-take k (contents w.pipe), len)),
      r',
    )

reader_sleeps :
    (w : World)
    → (w.pipe.count == 0) ≡ true
    → (w.pipe.writers == 0) ≡ false
    → ReaderSleeps w (sleep_reader w)
reader_sleeps w empty busy = record {
  empty = ==→eq _ _ empty;
  open_end = ==→ne _ _ busy;
  waits = refl;
  blocked = sleep-Blocks w.kernel.current w.kernel;
}

-- What holds after a sleep holds of the call that slept.
slept-ReadOk :
    (others : Interlude) (es : List Interlude) (n : ℕ) (w v : World)
    → ReaderSleeps w v
    → (r : ReadResult) → ReadOk es n (others v) r
    → ReadOk (others ∷ es) n w r
slept-ReadOk others es n w v sleeps (ReadResult.bad_pipe u) h = h
slept-ReadOk others es n w v sleeps (ReadResult.eof u) (rest, to, a, b, c) =
    (rest, ReadsUpTo.after_sleep v sleeps to, a, b, c)
slept-ReadOk others es n w v sleeps (ReadResult.bytes out w') (rest, u, to, a, b, c, d, e) =
    (rest, u, ReadsUpTo.after_sleep v sleeps to, a, b, c, d, e)
slept-ReadOk others es n w v sleeps (ReadResult.asleep v') (u, to, a, b) =
    (u, ReadsUpTo.after_sleep v sleeps to, a, b)

read_loop-ReadOk :
    (es : List Interlude) (n : ℕ) (w : World)
    → All Keeps es
    → IsPipe w.pipe
    → ReadOk es n w (read_loop es n w)
unfolding read_loop
read_loop-ReadOk [] n w keep r = elim (Bool-cases (w.pipe.count == 0)) [
  | inl empty ↦ elim (Bool-cases (w.pipe.writers == 0)) [
    | inl alone ↦ rw (empty, alone) ([], ReadsUpTo.here, r, ==→eq _ _ empty, ==→eq _ _ alone)
    | inr busy ↦ rw (empty, busy) (w, ReadsUpTo.here, reader_sleeps w empty busy, r)
  ]
  | inr left ↦ rw left (drain-ReadOk [] n w r left)
]
read_loop-ReadOk (others ∷ es) n w keep r = elim (Bool-cases (w.pipe.count == 0)) [
  | inl empty ↦ elim (Bool-cases (w.pipe.writers == 0)) [
    | inl alone ↦
        rw (empty, alone) (others ∷ es, ReadsUpTo.here, r, ==→eq _ _ empty, ==→eq _ _ alone)
    | inr busy ↦
        (let rest =
            read_loop-ReadOk es n (others (sleep_reader w)) keep.1 (keep.0 (sleep_reader w) r) in
          rw (empty, busy)
            (slept-ReadOk others es n w (sleep_reader w) (reader_sleeps w empty busy) _ rest))
  ]
  | inr left ↦ rw left (drain-ReadOk (others ∷ es) n w r left)
]

-- pipe_read on a well-formed pipe, however often it sleeps and whatever well-formed pipe others
-- leave it, ends in a state that it comes to by its sleeps: each is one on an empty pipe with a
-- writer, and blocks the process as the pipe's reader. It returns the oldest bytes of the pipe
-- of that state, which is not empty, in order, as many as asked for and there, and the others
-- stay; or it reports the end of file, when that pipe is empty and has no writer.
pub pipe_read-ReadOk :
    (es : List Interlude) (p n : ℕ) (w : World)
    → All Keeps es
    → IsPipe w.pipe
    → ReadOk es n w (pipe_read es (some p) n w)
unfolding pipe_read
pipe_read-ReadOk es p n w keep r = read_loop-ReadOk es n w keep r
