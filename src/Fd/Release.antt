-- ===== src/Fd/Release.antt =====
-- kernel/syscall/syscall.c, SYS_CLOSE and SYS_DUP2: the counts of the pipes afterwards.
use hobbyos.Base.{
  then_eq, else_eq, ℕ, ◌<◌, ◌≡◌, refl, sym, ap, subst, Bool, true, false, ◌||◌, List, ◌==◌, leb,
  ltb, length, get_or, arith, if_both, Bool-cases, inl, inr,
}
use hobbyos.Process.{ProcessFd, zero_fd, fd_none, process_max_fds}
use hobbyos.Fd.{
  error, Files, Objects, close_pipe, inc_pipe, close_object, sys_close, sys_dup2, set_fd, fd_at,
}
use hobbyos.Fd.Refs.{total, tables, none_hit}
use hobbyos.Fd.Ends.{close_ends, tables-close_pipe, tables-inc_pipe}
use hobbyos.Fd.Refers.{inc_ends, close_object_ends, tables-close_object}
use hobbyos.Fd.Tallied.{
  Tallied, Sized, length-fds_of, set_fd-Sized, hit-le-total, total_small, step-Tallied, fds_of_keep,
  after_total,
}

module _ {O : Type 0} (ops : Objects O) where
  -- The object of a descriptor is closed, and the descriptor refers to nothing.
  pub closed-Tallied :
      (c fd : ℕ) (v : ProcessFd) (s : Files O)
      → c < length (tables s.kernel)
      → fd < process_max_fds
      → v.type ≡ fd_none
      → Tallied s
      → Tallied (set_fd c fd v (close_object ops (fd_at s c fd) s))
  closed-Tallied c fd v s live inside free ok =
      let f = fd_at s c fd in
      let s1 = close_object ops f s in
      let same = tables-close_object ops f s in
      let sized1 = subst Sized (sym same) ok.sized in
      let room = subst (λ n. fd < n) (sym (length-fds_of c s ok.sized live)) inside in
      let less = λ (e : Bool) (x : ℕ). after_total e x c fd v s s1 same live room in
      step-Tallied s (set_fd c fd v s1) ok (set_fd-Sized c fd v s1 sized1) (λ x nz used. (
        omega (
          arith,
          used,
          less true x,
          less false x,
          none_hit true x v free,
          none_hit false x v free,
        ),
        λ e was.
            omega (arith, close_object_ends ops e x f s nz, was, less e x, none_hit e x v free),
      ))

  -- SYS_CLOSE, whatever its argument is.
  pub sys_close-Tallied :
      (c fd : ℕ) (s : Files O)
      → c < length (tables s.kernel)
      → Tallied s
      → Tallied (sys_close ops c fd s).1
  unfolding sys_close
  sys_close-Tallied c fd s live ok = elim (Bool-cases (leb process_max_fds fd || ltb fd 3)) [
    | inl bad ↦ subst (λ (r : ℕ × Files O). Tallied r.1) (sym (then_eq _ (error, s) _ bad)) ok
    | inr good ↦
        subst (λ (r : ℕ × Files O). Tallied r.1) (sym (else_eq _ (error, s) _ good))
          (if_both (λ (r : ℕ × Files O). Tallied r.1) ((fd_at s c fd).type == fd_none) _ _ ok
            (closed-Tallied c fd zero_fd s live (ground (arith, good)) refl ok))
  ]

module _ {O : Type 0} where
  -- A descriptor takes the place of another.
  replaced-Tallied :
      (c fd newfd : ℕ) (s : Files O)
      → c < length (tables s.kernel)
      → newfd < process_max_fds
      → Tallied s
      → (let s1 = close_pipe (fd_at s c newfd) s in
          let f = fd_at s c fd in Tallied (inc_pipe f (set_fd c newfd f s1)))
  replaced-Tallied c fd newfd s live inside ok =
      let g = fd_at s c newfd in
      let f = fd_at s c fd in
      let s1 = close_pipe g s in
      let s2 = set_fd c newfd f s1 in
      let same = tables-close_pipe g s in
      let kept = tables-inc_pipe f s2 in
      let sized2 = set_fd-Sized c newfd f s1 (subst Sized (sym same) ok.sized) in
      let room = subst (λ n. newfd < n) (sym (length-fds_of c s ok.sized live)) inside in
      let more = λ (e : Bool) (x : ℕ). after_total e x c newfd f s s1 same live room in
      let now = λ (e : Bool) (x : ℕ). ap (total e x) kept in
      let one = λ (e : Bool) (x : ℕ). hit-le-total e x c fd s live in
      step-Tallied s (inc_pipe f s2) ok (subst Sized (sym kept) sized2) (λ x nz used. (
        omega (
          arith,
          used,
          now true x,
          now false x,
          more true x,
          more false x,
          one true x,
          one false x,
        ),
        λ e was.
            let closed = close_ends e x g s nz in
            let small = total_small e x s ok.sized in
            let inc = inc_ends e x f s2 nz (omega (arith, closed, was, small)) in
            omega (arith, inc, closed, was, more e x, now e x, hit-le-total e x c newfd s live),
      ))

  -- SYS_DUP2, whatever its arguments are.
  pub sys_dup2-Tallied :
      (c oldfd newfd : ℕ) (s : Files O)
      → c < length (tables s.kernel)
      → Tallied s
      → Tallied (sys_dup2 c oldfd newfd s).1
  unfolding sys_dup2
  sys_dup2-Tallied c oldfd newfd s live ok =
      elim (Bool-cases (leb process_max_fds oldfd || leb process_max_fds newfd)) [
        | inl bad ↦ subst (λ (r : ℕ × Files O). Tallied r.1) (sym (then_eq _ (error, s) _ bad)) ok
        | inr good ↦
            subst (λ (r : ℕ × Files O). Tallied r.1) (sym (else_eq _ (error, s) _ good))
              (if_both (λ (r : ℕ × Files O). Tallied r.1) ((fd_at s c oldfd).type == fd_none) _ _ ok
                (if_both (λ (r : ℕ × Files O). Tallied r.1) (oldfd == newfd) _ _ ok
                  (let s1 = close_pipe (fd_at s c newfd) s in
                    let same = fds_of_keep c s s1 (tables-close_pipe (fd_at s c newfd) s) live in
                    subst (λ (f : ProcessFd). Tallied (inc_pipe f (set_fd c newfd f s1)))
                      (ap (λ (t : List ProcessFd). get_or t oldfd zero_fd) (sym same))
                      (replaced-Tallied c oldfd newfd s live (ground (arith, good)) ok))))
      ]
