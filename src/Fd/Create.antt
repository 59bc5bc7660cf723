-- ===== src/Fd/Create.antt =====
-- kernel/syscall/syscall.c, SYS_PIPE: the counts of the pipes when a pipe is made.
use hobbyos.Base.{
  ℕ, ◌+◌, ◌≤◌, ◌<◌, ◌≡◌, ◌^◌, ◌%◌, refl, sym, ◌∙◌, ap, subst, Bool, true, false, ◌||◌, Option, none,
  some, List, ◌==◌, leb, if◌then◌else◌, length, get_or, arith, if_both, Bool-cases, inl, inr, ==→eq,
  ==→ne, length-set, ne→==, eq→==, Option-cases, get_or-set_self,
}
use hobbyos.UserAccess.{kernel_vma}
use hobbyos.Process.{ProcessFd, zero_fd, fd_none, fd_pipe_read, fd_pipe_write}
use hobbyos.Pipe.{Pipe, pipe_create}
use hobbyos.Fd.{
  Files, process_fd_alloc, with_wfd, with_rfd, pipe_fds, with_pipe, sys_pipe, set_fd, fds_of, fd_at,
}
use hobbyos.Fd.Refs.{ends, hit, total, tables, none_hit, fd_alloc_lem}
use hobbyos.Fd.Tallied.{Tallied, Sized, set_fd-Sized, total-set_fd, length-set_fd, fds_of-set}

-- No descriptor refers to the pipe at an address.
abbrev pub Unreferred : {O : Type 0} → ℕ → Files O → Type 0
Unreferred p s = (e : Bool) → total e p (tables s.kernel) ≡ 0

read_hit :
    (e : Bool) (x p : ℕ) (f : ProcessFd)
    → hit e x (record f { type = fd_pipe_read; object = p })
      ≡ (if e then (if p == x then 1 else 0) else 0)
read_hit true x p f = ground arith
read_hit false x p f = ground arith

write_hit :
    (e : Bool) (x p : ℕ) (f : ProcessFd)
    → hit e x (record f { type = fd_pipe_write; object = p })
      ≡ (if e then 0 else (if p == x then 1 else 0))
write_hit true x p f = ground arith
write_hit false x p f = ground arith

both_hit : (e : Bool) (n : ℕ) → (if e then n else 0) + (if e then 0 else n) ≡ n
both_hit true n = omega arith
both_hit false n = omega arith

one_each : (q : Pipe) → q.readers ≡ 1 → q.writers ≡ 1 → (e : Bool) → ends e q ≡ 1
one_each q r w true = r
one_each q r w false = w

zero_if : (b : Bool) → let n : ℕ = if b then 0 else 0 in n ≡ 0
zero_if true = refl
zero_if false = refl

module _ {O : Type 0} (c p : ℕ) (q : Pipe) (s : Files O) (ok : Tallied s)
    (unreferred : Unreferred p s) (live : c < length (tables s.kernel)) where
  -- The pipe at `p` is new, and `n` descriptors of each of its ends.
  Fresh : ℕ → Files O → Type 0
  Fresh n s' =
      Sized (tables s'.kernel)
      × ((x : ℕ) → s'.pipes x ≡ (if x == p then q else s.pipes x))
      × ((e : Bool) (x : ℕ)
          → total e x (tables s'.kernel) ≡ total e x (tables s.kernel) + (if p == x then n else 0))

  Fresh-Tallied :
      (n : ℕ) (s' : Files O) → n ≤ 1 → ((e : Bool) → ends e q ≡ 1) → Fresh n s' → Tallied s'
  unfolding Fresh
  Fresh-Tallied n s' small one (sized, at, totals) = record {
    counts = λ x nz used e. elim (Bool-cases (p == x)) [
      | inl here ↦
          let self = ap (λ b. if b then q else s.pipes x) (eq→== x p (sym (==→eq p x here))) in
          let more = λ (d : Bool).
            totals d x ∙ ap (λ b. total d x (tables s.kernel) + (if b then n else 0)) here in
          let zero_at = λ (d : Bool).
            subst (λ y. total d y (tables s.kernel) ≡ 0) (==→eq p x here) (unreferred d) in
          ap (ends e) (at x ∙ self)
          ∙ omega (
            arith,
            one e,
            more e,
            more true,
            more false,
            zero_at true,
            zero_at false,
            zero_at e,
            used,
            small,
          )
      | inr away ↦
          let other =
            ap (λ b. if b then q else s.pipes x) (ne→== x p (λ i. ==→ne p x away (sym i))) in
          let more = λ (d : Bool).
            totals d x ∙ ap (λ b. total d x (tables s.kernel) + (if b then n else 0)) away in
          ap (ends e) (at x ∙ other)
          ∙ ok.counts x nz (omega (arith, used, more true, more false)) e
          ∙ omega (arith, more e)
    ];
    sized = sized;
  }

  -- The state with the new pipe, before any descriptor.
  abbrev made : Files O
  made = record s { pipes = λ x. if x == p then q else s.pipes x }

  -- A free descriptor becomes one of the pipe.
  set_free_total :
      (e : Bool) (x fd : ℕ) (v : ProcessFd) (s' : Files O)
      → c < length (tables s'.kernel)
      → fd < length (fds_of s' c)
      → (fd_at s' c fd).type ≡ fd_none
      → total e x (tables (set_fd c fd v s').kernel) ≡ total e x (tables s'.kernel) + hit e x v
  set_free_total e x fd v s' here inside free =
      omega (arith, total-set_fd e x c fd v s' here inside, none_hit e x (fd_at s' c fd) free)

  with_wfd-Tallied :
      (rfd : ℕ) (o : Option ℕ) (f : ProcessFd)
      → (let s1 = set_fd c rfd (record f { type = fd_pipe_read; object = p }) made in
          rfd < length (fds_of made c)
          → (fd_at made c rfd).type ≡ fd_none
          → process_fd_alloc (fds_of s1 c) (rfd + 1) ≡ o
          → ((e : Bool) → ends e q ≡ 1)
          → Tallied (with_wfd c p rfd o s1).1)
  unfolding with_wfd Fresh
  with_wfd-Tallied rfd none f inside free h one =
      let v = record f { type = fd_pipe_read; object = p } in
      let s1 = set_fd c rfd v made in
      let w = record (fd_at s1 c rfd) { type = fd_none } in
      let s2 = set_fd c rfd w s1 in
      let live1 = subst (λ n. c < n) (sym (length-set_fd c rfd v made)) live in
      let back = fds_of-set c rfd v made live in
      let room =
        subst (λ t. rfd < length t) (sym back)
          (subst (λ n. rfd < n) (sym (length-set (fds_of made c) rfd v)) inside) in
      let self =
        ap (λ (t : List ProcessFd). get_or t rfd zero_fd) back
        ∙ get_or-set_self (fds_of made c) rfd v zero_fd inside in
      Fresh-Tallied 0 s2 (omega arith) one (
        set_fd-Sized c rfd w s1 (set_fd-Sized c rfd v made ok.sized),
        (λ x. refl),
        λ e x. omega (
          arith,
          set_free_total e x rfd v made live inside free,
          total-set_fd e x c rfd w s1 live1 room,
          none_hit e x w refl,
          ap (hit e x) self,
          zero_if (p == x),
        ),
      )
  with_wfd-Tallied rfd (some wfd) f inside free h one =
      let v = record f { type = fd_pipe_read; object = p } in
      let s1 = set_fd c rfd v made in
      let g = fd_at s1 c wfd in
      let w = record g { type = fd_pipe_write; object = p } in
      let s2 = set_fd c wfd w s1 in
      let (after, room, empty) = fd_alloc_lem (fds_of s1 c) (rfd + 1) wfd h in
      let live1 = subst (λ n. c < n) (sym (length-set_fd c rfd v made)) live in
      Fresh-Tallied 1 s2 (omega arith) one (
        set_fd-Sized c wfd w s1 (set_fd-Sized c rfd v made ok.sized),
        (λ x. refl),
        λ e x. omega (
          arith,
          set_free_total e x rfd v made live inside free,
          set_free_total e x wfd w s1 live1 room empty,
          read_hit e x p f,
          write_hit e x p g,
          both_hit e (if p == x then 1 else 0),
        ),
      )

  pipe_fds-Tallied : ((e : Bool) → ends e q ≡ 1) → Tallied (pipe_fds c p made).1
  unfolding pipe_fds with_rfd Fresh
  pipe_fds-Tallied one = elim (Option-cases (process_fd_alloc (fds_of made c) 3)) [
    | inl none_free ↦
        subst (λ o. Tallied (with_rfd c p o made).1) (sym none_free)
          (Fresh-Tallied 0 made (omega arith) one
            (ok.sized, (λ x. refl), λ e x. omega (arith, zero_if (p == x))))
    | inr (rfd, found) ↦
        let (after, room, empty) = fd_alloc_lem (fds_of made c) 3 rfd found in
        let s1 =
          set_fd c rfd (record (fd_at made c rfd) { type = fd_pipe_read; object = p }) made in
        subst (λ o. Tallied (with_rfd c p o made).1) (sym found)
          (with_wfd-Tallied rfd (process_fd_alloc (fds_of s1 c) (rfd + 1)) (fd_at made c rfd) room
            empty refl one)
  ]

module _ {O : Type 0} where
  -- SYS_PIPE, whether it succeeds or not: the address that `kmalloc` answers is one that no
  -- descriptor refers to.
  pub sys_pipe-Tallied :
      (kmalloc : Option ℕ) (user_fds c : ℕ) (s : Files O)
      → c < length (tables s.kernel)
      → ((p : ℕ) → kmalloc ≡ some p → Unreferred p s)
      → Tallied s
      → Tallied (sys_pipe kmalloc user_fds c s).1
  unfolding sys_pipe pipe_create
  sys_pipe-Tallied kmalloc user_fds c s live fresh ok =
      if_both (λ (r : Option (ℕ × ℕ) × Files O). Tallied r.1)
        (leb kernel_vma user_fds || leb kernel_vma ((user_fds + 8) % 2 ^ 64)) _ _ ok
        (made_by kmalloc fresh)
    where
      made_by :
          (o : Option ℕ)
          → ((p : ℕ) → o ≡ some p → Unreferred p s)
          → Tallied (with_pipe c (pipe_create o) s).1
      made_by none h = ok
      made_by (some p) h = pipe_fds-Tallied c p _ s ok (h p refl) live (one_each _ refl refl)
