-- ===== src/Pipe/Wakeup.antt =====
-- No sleeper of a pipe is forgotten: a reader sleeps only on an empty pipe that has a writer, and a
-- writer only on a full pipe that has a reader.
use hobbyos.Base.{
  ℕ, ◌+◌, ◌-◌, ◌^◌, ◌<◌, ◌≡◌, refl, ◌≢◌, true, false, ◌&&◌, Option, none, some, List, [], ◌∷◌, ◌++◌,
  ltb, ◌==◌, if◌then◌else◌, length, arith, is_some, length-replicate, replicate, length-modify,
  subst, sym,
}
use hobbyos.Process.{ProcessState, Kernel}
use hobbyos.Sched.{set_state}
use hobbyos.Sched.Queue.{IsQueue, has}
use hobbyos.Sched.Fifo.{scheduler_add-append, set_proc-IsQueue}
use hobbyos.Pipe.{
  Pipe, World, pipe_buf_size, pipe_create, wake, drain, fill, sleep_reader, sleep_writer,
  pipe_close_read, pipe_close_write, pipe_inc_ref,
}
use hobbyos.Pipe.Inv.{IsPipe}
use hobbyos.Pipe.Bytes.{drain_lem, fill_lem}

-- One uninterrupted stretch of code of pipe.c, under the tests that lead to it, or any change of
-- the scheduler's state by others. The descriptors of a pipe number less than 2^32.
pub data Step : World → World → Type 0 where
  reads : (w : World) (n : ℕ) → w.pipe.count ≢ 0 → Step w (drain n w).1
  read_sleeps : (w : World) → w.pipe.count ≡ 0 → w.pipe.writers ≢ 0 → Step w (sleep_reader w)
  writes : (w : World) (src : List ℕ) → w.pipe.count ≢ pipe_buf_size → Step w (fill src w).1
  write_sleeps :
      (w : World) → w.pipe.count ≡ pipe_buf_size → w.pipe.readers ≢ 0 → Step w (sleep_writer w)
  closes_read : (w : World) (p : Option ℕ) → Step w (pipe_close_read p w)
  closes_write : (w : World) (p : Option ℕ) → Step w (pipe_close_write p w)
  opens :
      (w : World) (p : Option ℕ) (type : ℕ)
      → w.pipe.readers + 1 < 2 ^ 32
      → w.pipe.writers + 1 < 2 ^ 32
      → Step w (pipe_inc_ref p type w)
  others : (w : World) (k : Kernel) → Step w (record w { kernel = k })

pub data Reach (s : World) : World → Type 0 where
  here : Reach s s
  next : {w v : World} → Reach s w → Step w v → Reach s v

pub record Alert (p : Pipe) : Type 0 where
  pub reader : is_some p.blocked_reader ≡ true → (p.count ≡ 0) × (p.writers ≢ 0)
  pub writer : is_some p.blocked_writer ≡ true → (p.count ≡ pipe_buf_size) × (p.readers ≢ 0)

abbrev pub Sound : World → Type 0
Sound w = IsPipe w.pipe × Alert w.pipe

pub Step-Sound : {w v : World} → Step w v → Sound w → Sound v
unfolding drain fill pipe_close_read pipe_close_write pipe_inc_ref
Step-Sound (reads w n h) s = ((drain_lem n w s.0).2, ground arith)
Step-Sound (read_sleeps w e h) s = (s.0, ground arith)
Step-Sound (writes w src h) s = ((fill_lem src w s.0).2, ground arith)
Step-Sound (write_sleeps w e h) s = (s.0, ground arith)
Step-Sound (closes_read w none) s = s
Step-Sound (closes_read w (some p)) s = ground arith
Step-Sound (closes_write w none) s = s
Step-Sound (closes_write w (some p)) s = ground arith
Step-Sound (opens w none t hr hw) s = s
Step-Sound (opens w (some p) t hr hw) s = ground arith
Step-Sound (others w k) s = s

pipe_create-Sound :
    (a : ℕ) (b : ℕ) (p : Pipe) (k : Kernel)
    → pipe_create (some a) ≡ some (b, p)
    → Sound (record { pipe = p; kernel = k })
unfolding pipe_create
pipe_create-Sound a b p k e =
    let made : p ≡ fresh = ground arith in
    rw made (
      record {
        size = length-replicate {A = ℕ} 4096 0;
        reader = omega arith;
        fits = omega arith;
        writer = refl;
      },
      record { reader = λ h. cc; writer = λ h. cc },
    )
  where
    fresh : Pipe
    fresh = record {
      buffer = replicate 4096 0;
      read_pos = 0;
      write_pos = 0;
      count = 0;
      readers = 1;
      writers = 1;
      blocked_reader = none;
      blocked_writer = none;
    }

Reach-Sound : {s w : World} → Sound s → Reach s w → Sound w
Reach-Sound h here = h
Reach-Sound h (next r st) = Step-Sound st (Reach-Sound h r)

-- After any sequence of reads, writes, closings and openings of a new pipe, with fewer than 2^32
-- descriptors and any changes of the scheduler's state between, the pipe is well formed, and a
-- process is registered as sleeping reader only while the pipe is empty and has a writer, as
-- sleeping writer only while it is full and has a reader.
pub pipe_reachable-Sound :
    (a b : ℕ) (p : Pipe) (k : Kernel) {w : World}
    → pipe_create (some a) ≡ some (b, p)
    → Reach (record { pipe = p; kernel = k }) w
    → Sound w
pipe_reachable-Sound a b p k e r = Reach-Sound (pipe_create-Sound a b p k e) r

wake-append :
    (k : Kernel) (i : ℕ) (xs : List ℕ)
    → IsQueue k xs
    → i < length k.table
    → has i xs ≡ false
    → IsQueue (wake (some i) k) (xs ++ (i ∷ []))
unfolding wake
wake-append k i xs q inside out =
    scheduler_add-append (set_state i ProcessState.ready k) i xs
      (set_proc-IsQueue k i (λ p. record p { state = ProcessState.ready }) xs q out)
      (rw length-modify inside) out

-- A sleeping reader that is not queued goes to the end of the ready queue when bytes are written,
-- and when the last writer closes.
pub reader_woken :
    (w : World) (i : ℕ) (xs : List ℕ)
    → w.pipe.blocked_reader ≡ some i
    → IsQueue w.kernel xs
    → i < length w.kernel.table
    → has i xs ≡ false
    → ((src : List ℕ) → IsQueue (fill src w).1.kernel (xs ++ (i ∷ [])))
      × ((p : ℕ)
          → w.pipe.writers ≡ 1
          → IsQueue (pipe_close_write (some p) w).kernel (xs ++ (i ∷ [])))
unfolding fill pipe_close_write
reader_woken w i xs sleeper q inside out =
    let woken : IsQueue (wake w.pipe.blocked_reader w.kernel) (xs ++ (i ∷ [])) =
      subst (λ r. IsQueue (wake r w.kernel) (xs ++ (i ∷ []))) (sym sleeper)
        (wake-append w.kernel i xs q inside out) in
    (
      λ src. woken,
      λ p last.
          let test : (((if ltb 0 w.pipe.writers then w.pipe.writers - 1 else w.pipe.writers) == 0)
                && is_some w.pipe.blocked_reader)
              ≡ true =
            ground arith in
          rw test woken,
    )

-- A sleeping writer that is not queued goes to the end of the ready queue when bytes are read, and
-- when the last reader closes.
pub writer_woken :
    (w : World) (i : ℕ) (xs : List ℕ)
    → w.pipe.blocked_writer ≡ some i
    → IsQueue w.kernel xs
    → i < length w.kernel.table
    → has i xs ≡ false
    → ((n : ℕ) → IsQueue (drain n w).1.kernel (xs ++ (i ∷ [])))
      × ((p : ℕ)
          → w.pipe.readers ≡ 1
          → IsQueue (pipe_close_read (some p) w).kernel (xs ++ (i ∷ [])))
unfolding drain pipe_close_read
writer_woken w i xs sleeper q inside out =
    let woken : IsQueue (wake w.pipe.blocked_writer w.kernel) (xs ++ (i ∷ [])) =
      subst (λ r. IsQueue (wake r w.kernel) (xs ++ (i ∷ []))) (sym sleeper)
        (wake-append w.kernel i xs q inside out) in
    (
      λ n. woken,
      λ p last.
          let test : (((if ltb 0 w.pipe.readers then w.pipe.readers - 1 else w.pipe.readers) == 0)
                && is_some w.pipe.blocked_writer)
              ≡ true =
            ground arith in
          rw test woken,
    )

-- A second reader that goes to sleep takes the place of the first in the pipe's one slot: the first
-- stays blocked, and neither slot of the pipe names it any more.
pub second_reader_displaces :
    (w : World) (i c : ℕ)
    → w.pipe.blocked_reader ≡ some i
    → w.pipe.blocked_writer ≡ none
    → w.kernel.current ≡ some c
    → c ≢ i
    → ((sleep_reader w).pipe.blocked_reader ≢ some i)
      × ((sleep_reader w).pipe.blocked_writer ≢ some i)
second_reader_displaces w i c e f g ne = (ground arith, ground arith)
