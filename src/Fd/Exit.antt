-- ===== src/Fd/Exit.antt =====
-- kernel/syscall/syscall.c, the loop of `syscall_exit` on descriptors.
use hobbyos.Base.{
  ℕ, zero, suc, ◌+◌, ◌<◌, ◌≡◌, refl, sym, ◌∙◌, ap, subst, Bool, true, false, ◌||◌, List, [], ◌∷◌,
  ◌==◌, length, get_or, set, arith, if_both, Bool-cases, inl, inr, then_eq, else_eq,
  get_or-set_self, get_or-set_ne, ==→eq, ==→ne,
}
use hobbyos.Process.{ProcessFd, zero_fd, fd_none, fd_pipe_read, fd_pipe_write, process_max_fds}
use hobbyos.Fd.{
  Files, Objects, close_object, exit_fd, exit_from, exit_fds, set_fd, fds_of, fd_at, fd_socket,
}
use hobbyos.Fd.Refs.{total, hit, refs, tables, none_hit}
use hobbyos.Fd.Refers.{tables-close_object}
use hobbyos.Fd.Tallied.{fds_of_keep, fds_of-set, total-set_fds, Tallied, length-fds_of}
use hobbyos.Fd.Fork.{NoPipes, length-exit_fd, exit_fd-Tallied, exit_fds_of}

module _ {O : Type 0} (ops : Objects O) where
  -- The first `n` descriptors refer to no pipe.
  abbrev Released : ℕ → ℕ → Files O → Type 0
  Released n c s = (j : ℕ) → j < n → (e : Bool) (x : ℕ) → hit e x (fd_at s c j) ≡ 0

  no_hit :
      (e : Bool) (x : ℕ) (f : ProcessFd)
      → (f.type == fd_pipe_read || f.type == fd_pipe_write || f.type == fd_socket) ≡ false
      → hit e x f ≡ 0
  no_hit true x f h = ground (arith, h)
  no_hit false x f h = ground (arith, h)

  exit_fd-Released :
      (c fd : ℕ) (s : Files O)
      → c < length (tables s.kernel)
      → fd < length (fds_of s c)
      → Released fd c s
      → Released (fd + 1) c (exit_fd ops c fd s)
  exit_fd-Released c fd s live inside before =
      let f = fd_at s c fd in
      let v = record f { type = fd_none } in
      let s' = set_fd c fd v (close_object ops f s) in
      let test = f.type == fd_pipe_read || f.type == fd_pipe_write || f.type == fd_socket in
      elim (Bool-cases test) [
        | inl taken ↦
            unfold exit_fd in
            subst (Released (fd + 1) c) (sym (then_eq test s' s taken)) (λ j lt e x.
              let at =
                ap (λ (t : List ProcessFd). hit e x (get_or t j zero_fd))
                  (exit_fds_of ops c fd v s live) in
              at ∙ (elim (Bool-cases (fd == j)) [
                | inl here ↦
                    subst (λ i. hit e x (get_or (set (fds_of s c) fd v) i zero_fd) ≡ 0)
                      (==→eq fd j here)
                      (ap (hit e x) (get_or-set_self (fds_of s c) fd v zero_fd inside)
                        ∙ none_hit e x v refl)
                | inr other ↦
                    let ne = ==→ne fd j other in
                    ap (hit e x) (get_or-set_ne (fds_of s c) fd j v zero_fd ne)
                    ∙ before j (omega (arith, lt, ne)) e x
              ]))
        | inr shut ↦
            unfold exit_fd in
            subst (Released (fd + 1) c) (sym (else_eq test s' s shut)) (λ j lt e x.
              elim (Bool-cases (fd == j)) [
                | inl here ↦
                    subst (λ i. hit e x (fd_at s c i) ≡ 0) (==→eq fd j here) (no_hit e x f shut)
                | inr other ↦ before j (omega (arith, lt, ==→ne fd j other)) e x
              ])
      ]

  exit_from-Released :
      (left fd c : ℕ) (s : Files O)
      → c < length (tables s.kernel)
      → fd + left ≡ process_max_fds
      → Tallied s
      → Released fd c s
      → Tallied (exit_from ops left fd c s)
        × Released process_max_fds c (exit_from ops left fd c s)
        × (length (tables (exit_from ops left fd c s).kernel) ≡ length (tables s.kernel))
  unfolding exit_from
  exit_from-Released zero fd c s live all ok before =
      (ok, subst (λ n. Released n c s) (omega (arith, all)) before, refl)
  exit_from-Released (suc left) fd c s live all ok before =
      let inside : fd < process_max_fds = omega (arith, all) in
      let same = length-exit_fd ops c fd s in
      let room = subst (λ n. fd < n) (sym (length-fds_of c s ok.sized live)) inside in
      let (counted, free, kept) =
        exit_from-Released left (fd + 1) c (exit_fd ops c fd s) (subst (λ n. c < n) (sym same) live)
          (omega (arith, all)) (exit_fd-Tallied ops c fd s live inside ok)
          (exit_fd-Released c fd s live room before) in
      (counted, free, kept ∙ same)

-- A table whose descriptors refer to no pipe.
none_hit-NoPipes :
    (t : List ProcessFd)
    → ((j : ℕ) → j < length t → (e : Bool) (x : ℕ) → hit e x (get_or t j zero_fd) ≡ 0)
    → NoPipes t
unfolding refs
none_hit-NoPipes [] h e x = refl
none_hit-NoPipes (f ∷ t) h e x =
    let first = h 0 (omega arith) e x in
    let rest = none_hit-NoPipes t (λ j lt. h (suc j) (omega (arith, lt))) e x in
    omega (arith, first, rest)

module _ {O : Type 0} (ops : Objects O) where
  -- After the loop of SYS_EXIT, no descriptor of the process refers to a pipe, and the pipes count
  -- the descriptors of the others.
  pub exit_fds-NoPipes :
      (c : ℕ) (s : Files O)
      → c < length (tables s.kernel)
      → Tallied s
      → Tallied (exit_fds ops c s) × NoPipes (fds_of (exit_fds ops c s) c)
  unfolding exit_fds
  exit_fds-NoPipes c s live ok =
      let s' = exit_from ops process_max_fds 0 c s in
      let (counted, free, same) =
        exit_from-Released ops process_max_fds 0 c s live refl ok
          (λ j lt. absurd (omega (arith, lt))) in
      let size = length-fds_of c s' counted.sized (subst (λ n. c < n) (sym same) live) in
      (counted, none_hit-NoPipes (fds_of s' c) (λ j lt. free j (subst (λ n. j < n) size lt)))

  -- What a round takes from the references of all processes, it takes from those of this one.
  total-exit_fd :
      (e : Bool) (x c fd : ℕ) (s : Files O)
      → c < length (tables s.kernel)
      → total e x (tables (exit_fd ops c fd s).kernel) + refs e x (fds_of s c)
        ≡ total e x (tables s.kernel) + refs e x (fds_of (exit_fd ops c fd s) c)
  unfolding exit_fd
  total-exit_fd e x c fd s live =
      let f = fd_at s c fd in
      let v = record f { type = fd_none } in
      let s1 = close_object ops f s in
      let same = tables-close_object ops f s in
      let before = ap (total e x) same in
      let here = ap (refs e x) (fds_of_keep c s s1 same live) in
      let after =
        ap (refs e x) (fds_of-set c fd v s1 (subst (λ ts. c < length ts) (sym same) live)) in
      let now =
        total-set_fds e x c (λ t. set t fd v) s1 (subst (λ ts. c < length ts) (sym same) live) in
      if_both
        (λ (s' : Files O).
          total e x (tables s'.kernel) + refs e x (fds_of s c)
          ≡ total e x (tables s.kernel) + refs e x (fds_of s' c))
        (f.type == fd_pipe_read || f.type == fd_pipe_write || f.type == fd_socket)
        (set_fd c fd v s1) s (omega (arith, before, here, after, now)) refl

  total-exit_from :
      (e : Bool) (x left fd c : ℕ) (s : Files O)
      → c < length (tables s.kernel)
      → total e x (tables (exit_from ops left fd c s).kernel) + refs e x (fds_of s c)
        ≡ total e x (tables s.kernel) + refs e x (fds_of (exit_from ops left fd c s) c)
  unfolding exit_from
  total-exit_from e x zero fd c s live = refl
  total-exit_from e x (suc left) fd c s live =
      let one = total-exit_fd e x c fd s live in
      let same = length-exit_fd ops c fd s in
      let rest =
        total-exit_from e x left (fd + 1) c (exit_fd ops c fd s)
          (subst (λ n. c < n) (sym same) live) in
      omega (arith, one, rest)

  -- The references that are left when a process has closed its descriptors.
  pub total-exit_fds :
      (e : Bool) (x c : ℕ) (s : Files O)
      → c < length (tables s.kernel)
      → Tallied s
      → total e x (tables (exit_fds ops c s).kernel) + refs e x (fds_of s c)
        ≡ total e x (tables s.kernel)
  unfolding exit_fds
  total-exit_fds e x c s live ok =
      let gone = (exit_fds-NoPipes c s live ok).1 e x in
      omega (arith, total-exit_from e x process_max_fds 0 c s live, gone)
