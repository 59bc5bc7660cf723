-- ===== src/Pipe/Inv.antt =====
-- The representation invariant of a pipe, kept by every operation.
use hobbyos.Base.{ℕ, List}
use hobbyos.Ring.Window.{window}
use hobbyos.Ring.Transfer.{IsRing}
use hobbyos.Pipe.{Pipe, pipe_buf_size}

abbrev pub IsPipe : Pipe → Type 0
IsPipe p = IsRing pipe_buf_size p.buffer p.read_pos p.write_pos p.count

-- The bytes that wait in the pipe, oldest first.
abbrev pub contents : Pipe → List ℕ
contents p = window pipe_buf_size p.buffer p.read_pos p.count
