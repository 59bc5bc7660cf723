-- ===== src/Fd/Fork.antt =====
-- kernel/syscall/syscall.c, `syscall_fork` and `syscall_exit`: the counts of the pipes when a process
-- gets the descriptors of its parent, and when a process ends.
use hobbyos.Base.{
  ℕ, ◌+◌, ◌≤◌, ◌<◌, ◌≡◌, refl, sym, ◌∙◌, ap, subst, Bool, true, false, ◌||◌, List, [], ◌==◌, length,
  get_or, set, arith, if_both, length-modify, get_or-modify_self,
}
use hobbyos.Process.{ProcessFd, fd_none, fd_pipe_read, fd_pipe_write, process_max_fds}
use hobbyos.Fd.{
  Files, Objects, close_object, fork_fds, inc_all, exit_fd, set_fds, set_fd, fds_of, fd_at,
  fd_socket,
}
use hobbyos.Fd.Refs.{refs, total, tables, refs-le-total}
use hobbyos.Fd.Refers.{inc_all_ends, tables-inc_all, tables-close_object}
use hobbyos.Fd.Tallied.{
  Tallied, Sized, step-Tallied, tables-set_fds, length-set_fd, fds_of-set, fds_of_lem, fds_of_keep,
  length-fds_of, total-set_fds, set_fds-Sized, total_small,
}
use hobbyos.Fd.Release.{closed-Tallied}

-- A table that refers to no pipe.
abbrev pub NoPipes : List ProcessFd → Type 0
NoPipes t = (e : Bool) (x : ℕ) → refs e x t ≡ 0

module _ {O : Type 0} (ops : Objects O) where
  pub fork_fds-Tallied :
      (parent child : ℕ) (s : Files O)
      → parent < length (tables s.kernel)
      → child < length (tables s.kernel)
      → NoPipes (fds_of s child)
      → Tallied s
      → Tallied (fork_fds ops parent child s)
  unfolding fork_fds
  fork_fds-Tallied parent child s live_parent live_child empty ok =
      let fs = fds_of s parent in
      let s1 = set_fds child (λ _. fs) s in
      let kept = tables-inc_all ops fs s1 in
      let sized1 =
        set_fds-Sized child (λ _. fs) s ok.sized
          (λ t n. length-fds_of parent s ok.sized live_parent) in
      let now = λ (e : Bool) (x : ℕ). ap (total e x) kept in
      let more = λ (e : Bool) (x : ℕ). total-set_fds e x child (λ _. fs) s live_child in
      let below : (e : Bool) (x : ℕ) → refs e x fs ≤ total e x (tables s.kernel) = λ e x.
        subst (λ t. refs e x t ≤ total e x (tables s.kernel))
          (sym (fds_of_lem parent s live_parent)) (refs-le-total e x (tables s.kernel) parent) in
      step-Tallied s (inc_all ops fs s1) ok (subst Sized (sym kept) sized1) (λ x nz used. (
        omega (
          arith,
          used,
          now true x,
          now false x,
          more true x,
          more false x,
          empty true x,
          empty false x,
          below true x,
          below false x,
        ),
        λ e was.
            let small = total_small e x s ok.sized in
            let inc = inc_all_ends ops e x fs s1 nz (omega (arith, was, small, below e x)) in
            omega (arith, inc, was, more e x, now e x, empty e x),
      ))

  pub length-exit_fd :
      (c fd : ℕ) (s : Files O)
      → length (tables (exit_fd ops c fd s).kernel) ≡ length (tables s.kernel)
  unfolding exit_fd
  length-exit_fd c fd s =
      let f = fd_at s c fd in
      if_both (λ (s' : Files O). length (tables s'.kernel) ≡ length (tables s.kernel))
        (f.type == fd_pipe_read || f.type == fd_pipe_write || f.type == fd_socket) _ _
        (length-set_fd c fd (record f { type = fd_none }) (close_object ops f s)
          ∙ ap length (tables-close_object ops f s))
        refl

  pub exit_fd-Tallied :
      (c fd : ℕ) (s : Files O)
      → c < length (tables s.kernel)
      → fd < process_max_fds
      → Tallied s
      → Tallied (exit_fd ops c fd s)
  unfolding exit_fd
  exit_fd-Tallied c fd s live inside ok =
      let f = fd_at s c fd in
      if_both (λ (s' : Files O). Tallied s')
        (f.type == fd_pipe_read || f.type == fd_pipe_write || f.type == fd_socket) _ _
        (closed-Tallied ops c fd (record f { type = fd_none }) s live inside refl ok) ok

  -- The descriptors of the process after a round: one of them is free.
  pub exit_fds_of :
      (c fd : ℕ) (v : ProcessFd) (s : Files O)
      → c < length (tables s.kernel)
      → fds_of (set_fd c fd v (close_object ops (fd_at s c fd) s)) c ≡ set (fds_of s c) fd v
  exit_fds_of c fd v s live =
      let s1 = close_object ops (fd_at s c fd) s in
      let same = tables-close_object ops (fd_at s c fd) s in
      fds_of-set c fd v s1 (subst (λ ts. c < length ts) (sym same) live)
      ∙ ap (λ t. set t fd v) (fds_of_keep c s s1 same live)

  pub length-fork_fds :
      (parent child : ℕ) (s : Files O)
      → length (tables (fork_fds ops parent child s).kernel) ≡ length (tables s.kernel)
  unfolding fork_fds
  length-fork_fds parent child s =
      ap length (tables-inc_all ops (fds_of s parent) (set_fds child (λ _. fds_of s parent) s))
      ∙ ap length (tables-set_fds child (λ _. fds_of s parent) s)
      ∙ length-modify (tables s.kernel) child (λ _. fds_of s parent)

  -- The references of the child are new ones.
  pub total-fork_fds :
      (e : Bool) (x parent child : ℕ) (s : Files O)
      → child < length (tables s.kernel)
      → NoPipes (fds_of s child)
      → total e x (tables (fork_fds ops parent child s).kernel)
        ≡ total e x (tables s.kernel) + refs e x (fds_of (fork_fds ops parent child s) child)
  unfolding fork_fds
  total-fork_fds e x parent child s live empty =
      let fs = fds_of s parent in
      let s1 = set_fds child (λ _. fs) s in
      let kept = tables-inc_all ops fs s1 in
      let live1 =
        subst (λ n. child < n)
          (sym (
            ap length (tables-set_fds child (λ _. fs) s)
            ∙ length-modify (tables s.kernel) child (λ _. fs)))
          live in
      let table : fds_of (inc_all ops fs s1) child ≡ fs =
        fds_of_keep child s1 (inc_all ops fs s1) kept live1
        ∙ fds_of_lem child s1 live1
        ∙ ap (λ ts. get_or ts child []) (tables-set_fds child (λ _. fs) s)
        ∙ get_or-modify_self (tables s.kernel) child (λ _. fs) [] live in
      omega (
        arith,
        ap (total e x) kept,
        total-set_fds e x child (λ _. fs) s live,
        empty e x,
        ap (refs e x) table,
      )
