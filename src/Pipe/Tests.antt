-- ===== src/Pipe/Tests.antt =====
-- Runs of a pipe, and the theorems at some of its states.
use hobbyos.Base.{ℕ, ◌≡◌, refl, none, some, List, [], ◌∷◌, replicate, length-replicate, arith}
use hobbyos.Sched.Sample.{waiting}
use hobbyos.Ring.{copy_out, copy_in}
use hobbyos.Pipe.{
  Pipe, World, ReadResult, Interlude, pipe_create, drain, fill, pipe_read, pipe_write, sleep_reader,
}
use hobbyos.Pipe.Inv.{IsPipe}
use hobbyos.Pipe.Bytes.{Keeps, ReadOk, fill_lem, pipe_read-ReadOk}
use hobbyos.Pipe.Write.{Writes, pipe_write-Writes}
use hobbyos.Pipe.Wakeup.{Step, Reach, Sound, pipe_reachable-Sound}

abbrev fresh : Pipe
fresh = record {
  buffer = replicate 4096 0;
  read_pos = 0;
  write_pos = 0;
  count = 0;
  readers = 1;
  writers = 1;
  blocked_reader = none;
  blocked_writer = none;
}

abbrev idle : World
idle = record { pipe = fresh; kernel = waiting }

fresh-IsPipe : IsPipe fresh
fresh-IsPipe = record {
  size = length-replicate {A = ℕ} 4096 0;
  reader = omega arith;
  fits = omega arith;
  writer = refl;
}

-- Another process writes two bytes.
abbrev writer : Interlude
writer w = (fill (7 ∷ 8 ∷ []) w).1

writer-Keeps : Keeps writer
writer-Keeps w r = (fill_lem (7 ∷ 8 ∷ []) w r).2

read_bytes : ReadResult → List ℕ
read_bytes (ReadResult.bytes out w) = out
read_bytes _ = []

sleeps_then_reads : read_bytes (pipe_read (writer ∷ []) (some 1) 5 idle) ≡ 7 ∷ 8 ∷ []
unfolding read_bytes pipe_read copy_out copy_in fill drain
sleeps_then_reads = refl

pipe_read-ReadOk_example : ReadOk (writer ∷ []) 5 idle (pipe_read (writer ∷ []) (some 1) 5 idle)
pipe_read-ReadOk_example = pipe_read-ReadOk (writer ∷ []) 1 5 idle (writer-Keeps, tt) fresh-IsPipe

pipe_write-Writes_example :
    Writes [] (1 ∷ 2 ∷ 3 ∷ []) idle (pipe_write [] (some 1) (1 ∷ 2 ∷ 3 ∷ []) idle)
pipe_write-Writes_example = pipe_write-Writes [] 1 (1 ∷ 2 ∷ 3 ∷ []) idle tt fresh-IsPipe

pipe_reachable-Sound_example : Sound (fill (4 ∷ []) (sleep_reader idle)).1
unfolding pipe_create
pipe_reachable-Sound_example = pipe_reachable-Sound 64 64 fresh waiting refl (
    Reach.next (Reach.next Reach.here (Step.read_sleeps idle refl (omega arith)))
      (Step.writes (sleep_reader idle) (4 ∷ []) (omega arith)))

abbrev reader_asleep : World
reader_asleep = record { pipe = record fresh { blocked_reader = some 3 }; kernel = waiting }

abbrev writer_asleep : World
writer_asleep = record { pipe = record fresh { blocked_writer = some 3 }; kernel = waiting }
