-- ===== src/Fd/Calls.antt =====
-- kernel/fs/pipe.c: what the calls on the ends of a pipe do to its counts and to the processes.
use hobbyos.Base.{
  ℕ, ◌-◌, ◌≡◌, refl, ◌∙◌, ◌&&◌, Option, none, some, ◌==◌, ltb, if◌then◌else◌, is_some, arith,
  if_both,
}
use hobbyos.Process.{Kernel}
use hobbyos.Sched.{scheduler_add, enqueue, link_tail}
use hobbyos.Pipe.{
  World, pipe_close_read, pipe_close_write, pipe_inc_ref, wake, wake_reader, wake_writer,
}
use hobbyos.Fd.Refs.{tables, tables_keep}

tables-link_tail : (t : Option ℕ) (i : ℕ) (k : Kernel) → tables (link_tail t i k) ≡ tables k
unfolding link_tail
tables-link_tail none i k = refl
tables-link_tail (some t) i k = tables_keep t _ k.table (λ p. refl)

tables-enqueue : (h : Option ℕ) (i : ℕ) (k : Kernel) → tables (enqueue h i k) ≡ tables k
unfolding enqueue
tables-enqueue none i k = refl
tables-enqueue (some h) i k = tables-link_tail k.queue_tail i k

pub tables-wake : (o : Option ℕ) (k : Kernel) → tables (wake o k) ≡ tables k
unfolding wake scheduler_add
tables-wake none k = refl
tables-wake (some i) k =
    tables-enqueue k.queue_head i _
    ∙ tables_keep i _ _ (λ p. refl)
    ∙ tables_keep i _ k.table (λ p. refl)

-- The world of the pipe at `b` after a call: its readers or writers, and the descriptors.
pub record Ends (readers writers : ℕ) (w w' : World) : Type 0 where
  pub reads : w'.pipe.readers ≡ readers
  pub writes : w'.pipe.writers ≡ writers
  pub keeps : tables w'.kernel ≡ tables w.kernel

pub close_read-Ends :
    (a : ℕ) (w : World) → Ends (w.pipe.readers - 1) w.pipe.writers w (pipe_close_read (some a) w)
unfolding pipe_close_read
close_read-Ends a w =
    let left = if ltb 0 w.pipe.readers then w.pipe.readers - 1 else w.pipe.readers in
    let w1 : World = record w { pipe = record (w.pipe) { readers = left } } in
    let less : left ≡ w.pipe.readers - 1 = ground arith in
    if_both (λ (w' : World). Ends (w.pipe.readers - 1) w.pipe.writers w w')
      ((left == 0) && is_some w.pipe.blocked_writer) (wake_writer w1) w1
      (record { reads = less; writes = refl; keeps = tables-wake w.pipe.blocked_writer w.kernel })
      (record { reads = less; writes = refl; keeps = refl })

pub close_write-Ends :
    (a : ℕ) (w : World) → Ends w.pipe.readers (w.pipe.writers - 1) w (pipe_close_write (some a) w)
unfolding pipe_close_write
close_write-Ends a w =
    let left = if ltb 0 w.pipe.writers then w.pipe.writers - 1 else w.pipe.writers in
    let w1 : World = record w { pipe = record (w.pipe) { writers = left } } in
    let less : left ≡ w.pipe.writers - 1 = ground arith in
    if_both (λ (w' : World). Ends w.pipe.readers (w.pipe.writers - 1) w w')
      ((left == 0) && is_some w.pipe.blocked_reader) (wake_reader w1) w1
      (record { reads = refl; writes = less; keeps = tables-wake w.pipe.blocked_reader w.kernel })
      (record { reads = refl; writes = less; keeps = refl })

-- A call on the pipe that a descriptor names, NULL or not.
pub close_read_tables :
    (o : Option ℕ) (w : World) → tables (pipe_close_read o w).kernel ≡ tables w.kernel
close_read_tables none w = unfold pipe_close_read in refl
close_read_tables (some a) w = (close_read-Ends a w).keeps

pub close_write_tables :
    (o : Option ℕ) (w : World) → tables (pipe_close_write o w).kernel ≡ tables w.kernel
close_write_tables none w = unfold pipe_close_write in refl
close_write_tables (some a) w = (close_write-Ends a w).keeps

pub inc_tables :
    (o : Option ℕ) (t : ℕ) (w : World) → tables (pipe_inc_ref o t w).kernel ≡ tables w.kernel
unfolding pipe_inc_ref
inc_tables none t w = refl
inc_tables (some a) t w = ground arith
