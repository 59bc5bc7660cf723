-- ===== src/Fd/Ends.antt =====
-- kernel/syscall/syscall.c: what closing and counting a descriptor does to the pipes.
use hobbyos.Base.{
  ℕ, ◌-◌, ◌≡◌, ◌≢◌, refl, sym, ◌∙◌, ap, subst, Bool, true, false, ◌||◌, some, ◌==◌, if◌then◌else◌,
  arith, if_both, then_eq, else_eq, ne→==, eq→==, ==→eq, ==→ne, Bool-cases, inl, inr,
}
use hobbyos.Process.{ProcessFd, fd_pipe_read, fd_pipe_write}
use hobbyos.Pipe.{Pipe, World, pipe_close_read, pipe_close_write, pipe_inc_ref}
use hobbyos.Fd.{Files, close_pipe, inc_pipe, at_pipe, pointer}
use hobbyos.Fd.Refs.{ends, hit, tables}
use hobbyos.Fd.Calls.{
  close_read-Ends, close_write-Ends, close_read_tables, close_write_tables, inc_tables,
}

module _ {O : Type 0} where
  -- The pipe at `x` after a call on the one at `b`.
  pub at_pipe_other :
      (b x : ℕ) (call : World → World) (s : Files O)
      → x ≢ b
      → (at_pipe b call s).pipes x ≡ s.pipes x
  at_pipe_other b x call s ne = rw (ne→== x b ne) refl

  pub at_pipe_self :
      (b : ℕ) (call : World → World) (s : Files O)
      → (at_pipe b call s).pipes b ≡ (call (record { pipe = s.pipes b; kernel = s.kernel })).pipe
  at_pipe_self b call s = ground arith

  abbrev reading : ProcessFd → Files O → Files O
  reading f s = at_pipe f.object (pipe_close_read (pointer f.object)) s

  abbrev writing : ProcessFd → Files O → Files O
  writing f s = at_pipe f.object (pipe_close_write (pointer f.object)) s

  abbrev pub counting : ProcessFd → Files O → Files O
  counting f s = at_pipe f.object (pipe_inc_ref (pointer f.object) f.type) s

  pub tables-close_pipe :
      (f : ProcessFd) (s : Files O) → tables (close_pipe f s).kernel ≡ tables s.kernel
  unfolding close_pipe
  tables-close_pipe f s =
      let same = λ (s' : Files O). tables s'.kernel ≡ tables s.kernel in
      let w : World = record { pipe = s.pipes f.object; kernel = s.kernel } in
      if_both same (f.type == fd_pipe_read) (reading f s)
        (if f.type == fd_pipe_write then writing f s else s)
        (close_read_tables (pointer f.object) w)
        (if_both same (f.type == fd_pipe_write) (writing f s) s
          (close_write_tables (pointer f.object) w) refl)

  pub tables-inc_pipe :
      (f : ProcessFd) (s : Files O) → tables (inc_pipe f s).kernel ≡ tables s.kernel
  unfolding inc_pipe
  tables-inc_pipe f s =
      let w : World = record { pipe = s.pipes f.object; kernel = s.kernel } in
      if_both (λ (s' : Files O). tables s'.kernel ≡ tables s.kernel)
        (f.type == fd_pipe_read || f.type == fd_pipe_write) (counting f s) s
        (inc_tables (pointer f.object) f.type w) refl

  -- The pipe of a descriptor that is not NULL.
  reads_at :
      (f : ProcessFd) (s : Files O)
      → f.object ≢ 0
      → (((reading f s).pipes f.object).readers ≡ (s.pipes f.object).readers - 1)
        × (((reading f s).pipes f.object).writers ≡ (s.pipes f.object).writers)
  reads_at f s nz =
      let w : World = record { pipe = s.pipes f.object; kernel = s.kernel } in
      let at = at_pipe_self f.object (pipe_close_read (pointer f.object)) s in
      let there : pointer f.object ≡ some f.object = ground (arith, nz) in
      let ok = close_read-Ends f.object w in rw (at, there) (ok.reads, ok.writes)

  writes_at :
      (f : ProcessFd) (s : Files O)
      → f.object ≢ 0
      → (((writing f s).pipes f.object).readers ≡ (s.pipes f.object).readers)
        × (((writing f s).pipes f.object).writers ≡ (s.pipes f.object).writers - 1)
  writes_at f s nz =
      let w : World = record { pipe = s.pipes f.object; kernel = s.kernel } in
      let at = at_pipe_self f.object (pipe_close_write (pointer f.object)) s in
      let there : pointer f.object ≡ some f.object = ground (arith, nz) in
      let ok = close_write-Ends f.object w in rw (at, there) (ok.reads, ok.writes)

  -- The same at any address.
  reading_ends :
      (x : ℕ) (f : ProcessFd) (s : Files O)
      → x ≢ 0
      → (((reading f s).pipes x).readers ≡ (s.pipes x).readers - (if f.object == x then 1 else 0))
        × (((reading f s).pipes x).writers ≡ (s.pipes x).writers)
  reading_ends x f s nz = elim (Bool-cases (f.object == x)) [
    | inl same ↦
        (let at = ==→eq f.object x same in
          subst
            (λ (y : ℕ).
              (((reading f s).pipes y).readers
                ≡ (s.pipes y).readers - (if f.object == y then 1 else 0))
              × (((reading f s).pipes y).writers ≡ (s.pipes y).writers))
            at
            (let (r, w) = reads_at f s (λ z. nz (sym at ∙ z)) in
              (
                r
                    ∙ ap (λ k. (s.pipes f.object).readers - k)
                        (sym (then_eq (f.object == f.object) 1 0 (eq→== f.object f.object refl))),
                w,
              )))
    | inr other ↦
        (let same =
            at_pipe_other f.object x (pipe_close_read (pointer f.object)) s
              (λ i. ==→ne f.object x other (sym i)) in
          (
            ap (λ (q : Pipe). q.readers) same ∙ ground (arith, other),
            ap (λ (q : Pipe). q.writers) same,
          ))
  ]

  writing_ends :
      (x : ℕ) (f : ProcessFd) (s : Files O)
      → x ≢ 0
      → (((writing f s).pipes x).readers ≡ (s.pipes x).readers)
        × (((writing f s).pipes x).writers ≡ (s.pipes x).writers - (if f.object == x then 1 else 0))
  writing_ends x f s nz = elim (Bool-cases (f.object == x)) [
    | inl same ↦
        (let at = ==→eq f.object x same in
          subst
            (λ (y : ℕ).
              (((writing f s).pipes y).readers ≡ (s.pipes y).readers)
              × (((writing f s).pipes y).writers
                  ≡ (s.pipes y).writers - (if f.object == y then 1 else 0)))
            at
            (let (r, w) = writes_at f s (λ z. nz (sym at ∙ z)) in
              (
                r,
                w
                    ∙ ap (λ k. (s.pipes f.object).writers - k)
                        (sym (then_eq (f.object == f.object) 1 0 (eq→== f.object f.object refl))),
              )))
    | inr other ↦
        (let same =
            at_pipe_other f.object x (pipe_close_write (pointer f.object)) s
              (λ i. ==→ne f.object x other (sym i)) in
          (
            ap (λ (q : Pipe). q.readers) same,
            ap (λ (q : Pipe). q.writers) same ∙ ground (arith, other),
          ))
  ]

  close_as_read :
      (f : ProcessFd) (s : Files O) → (f.type == fd_pipe_read) ≡ true → close_pipe f s ≡ reading f s
  unfolding close_pipe
  close_as_read f s r =
      then_eq (f.type == fd_pipe_read) (reading f s)
        (if f.type == fd_pipe_write then writing f s else s) r

  close_as_write :
      (f : ProcessFd) (s : Files O)
      → (f.type == fd_pipe_read) ≡ false
      → (f.type == fd_pipe_write) ≡ true
      → close_pipe f s ≡ writing f s
  unfolding close_pipe
  close_as_write f s r w =
      else_eq (f.type == fd_pipe_read) (reading f s)
        (if f.type == fd_pipe_write then writing f s else s) r
      ∙ then_eq (f.type == fd_pipe_write) (writing f s) s w

  close_as_other :
      (f : ProcessFd) (s : Files O)
      → (f.type == fd_pipe_read) ≡ false
      → (f.type == fd_pipe_write) ≡ false
      → close_pipe f s ≡ s
  unfolding close_pipe
  close_as_other f s r w =
      else_eq (f.type == fd_pipe_read) (reading f s)
        (if f.type == fd_pipe_write then writing f s else s) r
      ∙ else_eq (f.type == fd_pipe_write) (writing f s) s w

  -- Closing a descriptor of an end of a pipe takes one reference away, and touches no other end.
  pub close_ends :
      (e : Bool) (x : ℕ) (f : ProcessFd) (s : Files O)
      → x ≢ 0
      → ends e ((close_pipe f s).pipes x) ≡ ends e (s.pipes x) - hit e x f
  close_ends e x f s nz = elim (Bool-cases (f.type == fd_pipe_read)) [
    | inl r ↦ ap (λ (s' : Files O). ends e (s'.pipes x)) (close_as_read f s r) ∙ at_read e r
    | inr r ↦ elim (Bool-cases (f.type == fd_pipe_write)) [
      | inl w ↦ ap (λ (s' : Files O). ends e (s'.pipes x)) (close_as_write f s r w) ∙ at_write e r w
      | inr w ↦ ap (λ (s' : Files O). ends e (s'.pipes x)) (close_as_other f s r w) ∙ at_other e r w
    ]
  ]
    where
      at_read :
          (d : Bool)
          → (f.type == fd_pipe_read) ≡ true
          → ends d ((reading f s).pipes x) ≡ ends d (s.pipes x) - hit d x f
      at_read true r = (reading_ends x f s nz).0 ∙ ground (arith, r)
      at_read false r = (reading_ends x f s nz).1 ∙ ground (arith, r)

      at_write :
          (d : Bool)
          → (f.type == fd_pipe_read) ≡ false
          → (f.type == fd_pipe_write) ≡ true
          → ends d ((writing f s).pipes x) ≡ ends d (s.pipes x) - hit d x f
      at_write true r w = (writing_ends x f s nz).0 ∙ ground (arith, r, w)
      at_write false r w = (writing_ends x f s nz).1 ∙ ground (arith, r, w)

      at_other :
          (d : Bool)
          → (f.type == fd_pipe_read) ≡ false
          → (f.type == fd_pipe_write) ≡ false
          → ends d (s.pipes x) ≡ ends d (s.pipes x) - hit d x f
      at_other true r w = ground (arith, r, w)
      at_other false r w = ground (arith, r, w)
