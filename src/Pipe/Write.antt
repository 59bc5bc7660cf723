-- ===== src/Pipe/Write.antt =====
-- What a call of `pipe_write` promises.
use hobbyos.Base.{
  ℕ, ◌-◌, ◌<◌, ◌≡◌, ◌≢◌, refl, min, some, List, [], ◌∷◌, ◌++◌, ◌==◌, length, take, Bool-cases, inl,
  inr, false, true, tests, All, ==→eq, ==→ne,
}
use hobbyos.Sched.Blocked.{Blocks}
use hobbyos.Pipe.{
  World, WriteResult, Interlude, pipe_buf_size, fill, pipe_write, write_loop, filled, sleep_writer,
}
use hobbyos.Pipe.Inv.{IsPipe, contents}
use hobbyos.Pipe.Bytes.{Keeps, fill_lem, sleep-Blocks}

-- A writer sleeps on the pipe of `w`, which is full and has a reader: `v` is what it leaves.
pub record WriterSleeps (w v : World) : Type 0 where
  pub full : w.pipe.count ≡ pipe_buf_size
  pub open_end : w.pipe.readers ≢ 0
  pub waits : v.pipe ≡ record (w.pipe) { blocked_writer = w.kernel.current }
  pub blocked : Blocks w.kernel.current w.kernel v.kernel

-- From `w` a call of `pipe_write` sleeps, others run, and so on, up to the state `u`; `rest` is what
-- is left of the others.
pub data WritesUpTo : List Interlude → World → List Interlude → World → Type 0 where
  here : {es : List Interlude} {w : World} → WritesUpTo es w es w
  after_sleep :
      {others : Interlude} {es rest : List Interlude} {w u : World} (v : World)
      → WriterSleeps w v
      → WritesUpTo es (others v) rest u
      → WritesUpTo (others ∷ es) w rest u

-- The promise of `pipe_write` from `w` on, for each way in which it ends in a state `u` that it comes
-- to by its sleeps. It fails only when the pipe of `u` has no reader; otherwise it appends as many of
-- the first bytes as the pipe of `u`, which is not full, takes, behind those that wait there; and it
-- sleeps only on a full pipe that has a reader, when the others have run as often as they do.
abbrev pub WriteOk : List Interlude → List ℕ → World → WriteResult → Type 0
WriteOk es src w (WriteResult.broken u) =
    (rest : List Interlude) × WritesUpTo es w rest u × IsPipe u.pipe × (u.pipe.readers ≡ 0)
WriteOk es src w (WriteResult.wrote n w') =
    (rest : List Interlude) × (u : World) × WritesUpTo es w rest u
    × IsPipe u.pipe
    × (u.pipe.count < pipe_buf_size)
    × (n ≡ min (length src) (pipe_buf_size - u.pipe.count))
    × (contents w'.pipe ≡ contents u.pipe ++ take n src)
    × IsPipe w'.pipe
WriteOk es src w (WriteResult.asleep v) =
    (u : World) × WritesUpTo es w [] u × WriterSleeps u v × IsPipe v.pipe

fill-WriteOk :
    (es : List Interlude) (src : List ℕ) (w : World)
    → IsPipe w.pipe
    → (w.pipe.count == pipe_buf_size) ≡ false
    → WriteOk es src w (filled (fill src w))
fill-WriteOk es src w r space =
    let (n, more, r') = fill_lem src w r in
    (es, w, WritesUpTo.here, r, omega (tests, r.fits), n, more, r')

writer_sleeps :
    (w : World)
    → (w.pipe.count == pipe_buf_size) ≡ true
    → (w.pipe.readers == 0) ≡ false
    → WriterSleeps w (sleep_writer w)
writer_sleeps w full busy = record {
  full = ==→eq _ _ full;
  open_end = ==→ne _ _ busy;
  waits = refl;
  blocked = sleep-Blocks w.kernel.current w.kernel;
}

-- What holds after a sleep holds of the call that slept.
slept-WriteOk :
    (others : Interlude) (es : List Interlude) (src : List ℕ) (w v : World)
    → WriterSleeps w v
    → (r : WriteResult) → WriteOk es src (others v) r
    → WriteOk (others ∷ es) src w r
slept-WriteOk others es src w v sleeps (WriteResult.broken u) (rest, to, a, b) =
    (rest, WritesUpTo.after_sleep v sleeps to, a, b)
slept-WriteOk others es src w v sleeps (WriteResult.wrote n w') (rest, u, to, a, b, c, d, e) =
    (rest, u, WritesUpTo.after_sleep v sleeps to, a, b, c, d, e)
slept-WriteOk others es src w v sleeps (WriteResult.asleep v') (u, to, a, b) =
    (u, WritesUpTo.after_sleep v sleeps to, a, b)

write_loop-WriteOk :
    (es : List Interlude) (src : List ℕ) (w : World)
    → All Keeps es
    → IsPipe w.pipe
    → WriteOk es src w (write_loop es src w)
unfolding write_loop
write_loop-WriteOk [] src w keep r = elim (Bool-cases (w.pipe.count == pipe_buf_size)) [
  | inl full ↦ elim (Bool-cases (w.pipe.readers == 0)) [
    | inl alone ↦ rw (full, alone) ([], WritesUpTo.here, r, ==→eq _ _ alone)
    | inr busy ↦ rw (full, busy) (w, WritesUpTo.here, writer_sleeps w full busy, r)
  ]
  | inr space ↦ rw space (fill-WriteOk [] src w r space)
]
write_loop-WriteOk (others ∷ es) src w keep r = elim (Bool-cases (w.pipe.count == pipe_buf_size)) [
  | inl full ↦ elim (Bool-cases (w.pipe.readers == 0)) [
    | inl alone ↦ rw (full, alone) (others ∷ es, WritesUpTo.here, r, ==→eq _ _ alone)
    | inr busy ↦
        (let rest =
            write_loop-WriteOk es src (others (sleep_writer w)) keep.1
              (keep.0 (sleep_writer w) r) in
          rw (full, busy)
            (slept-WriteOk others es src w (sleep_writer w) (writer_sleeps w full busy) _ rest))
  ]
  | inr space ↦ rw space (fill-WriteOk (others ∷ es) src w r space)
]

-- A call without a reader fails at once, and changes nothing; any other keeps the promise.
pub data Writes (es : List Interlude) (src : List ℕ) (w : World) : WriteResult → Type 0 where
  refused : w.pipe.readers ≡ 0 → Writes es src w (WriteResult.broken w)
  proceeds : {r : WriteResult} → w.pipe.readers ≢ 0 → WriteOk es src w r → Writes es src w r

-- pipe_write on a well-formed pipe fails at once, with nothing changed, without a reader.
-- Otherwise, however often it sleeps and whatever well-formed pipe others leave it, it ends in a
-- state that it comes to by its sleeps: each is one on a full pipe with a reader, and blocks the
-- process as the pipe's writer. It appends as many of the first bytes as fit behind those of the
-- pipe of that state, which is not full; or it fails, when that pipe has no reader.
pub pipe_write-Writes :
    (es : List Interlude) (p : ℕ) (src : List ℕ) (w : World)
    → All Keeps es
    → IsPipe w.pipe
    → Writes es src w (pipe_write es (some p) src w)
unfolding pipe_write
pipe_write-Writes es p src w keep r = elim (Bool-cases (w.pipe.readers == 0)) [
  | inl alone ↦ rw alone (Writes.refused (==→eq _ _ alone))
  | inr busy ↦ rw busy (Writes.proceeds (==→ne _ _ busy) (write_loop-WriteOk es src w keep r))
]
