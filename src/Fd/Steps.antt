-- ===== src/Fd/Steps.antt =====
-- kernel/syscall/syscall.c: the system calls on descriptors in any order, of any process.
use hobbyos.Base.{
  ℕ, ◌+◌, ◌<◌, ◌≡◌, ◌≢◌, sym, ◌∙◌, subst, Bool, true, false, Option, some, length, arith,
}
use hobbyos.Fd.{Files, Objects, sys_close, sys_dup2, sys_pipe, fork_fds, exit_fds, fds_of}
use hobbyos.Fd.Refs.{ends, total, tables}
use hobbyos.Fd.Tallied.{Tallied, Sized, step-Tallied}
use hobbyos.Fd.Release.{sys_close-Tallied, sys_dup2-Tallied}
use hobbyos.Fd.Fork.{NoPipes, fork_fds-Tallied, length-fork_fds, total-fork_fds}
use hobbyos.Fd.Exit.{exit_fds-NoPipes, total-exit_fds}
use hobbyos.Fd.Create.{Unreferred, sys_pipe-Tallied}

module _ {O : Type 0} (ops : Objects O) where
  pub data FdStep : Files O → Files O → Type 0 where
    close :
        (c fd : ℕ) (s : Files O) → c < length (tables s.kernel) → FdStep s (sys_close ops c fd s).1
    dup :
        (c oldfd newfd : ℕ) (s : Files O)
        → c < length (tables s.kernel)
        → FdStep s (sys_dup2 c oldfd newfd s).1
    -- `kmalloc` answers NULL or an address that no descriptor refers to.
    create :
        (kmalloc : Option ℕ) (user_fds c : ℕ) (s : Files O)
        → c < length (tables s.kernel)
        → ((p : ℕ) → kmalloc ≡ some p → Unreferred p s)
        → FdStep s (sys_pipe kmalloc user_fds c s).1
    -- The table of the child is one without pipes: of an unused process.
    fork :
        (parent child : ℕ) (s : Files O)
        → parent < length (tables s.kernel)
        → child < length (tables s.kernel)
        → NoPipes (fds_of s child)
        → FdStep s (fork_fds ops parent child s)
    exit : (c : ℕ) (s : Files O) → c < length (tables s.kernel) → FdStep s (exit_fds ops c s)
    -- Other code: it may open, close or make descriptors, but none of a pipe, and changes no count.
    other :
        (s s' : Files O)
        → Sized (tables s'.kernel)
        → ((e : Bool) (x : ℕ) → total e x (tables s'.kernel) ≡ total e x (tables s.kernel))
        → ((e : Bool) (x : ℕ) → ends e (s'.pipes x) ≡ ends e (s.pipes x))
        → FdStep s s'

  pub data FdSteps (s : Files O) : Files O → Type 0 where
    start : FdSteps s s
    next : (s1 s2 : Files O) → FdSteps s s1 → FdStep s1 s2 → FdSteps s s2

  one-Tallied : (s s' : Files O) → FdStep s s' → Tallied s → Tallied s'
  one-Tallied _ _ (close c fd s live) ok = sys_close-Tallied ops c fd s live ok
  one-Tallied _ _ (dup c oldfd newfd s live) ok = sys_dup2-Tallied c oldfd newfd s live ok
  one-Tallied _ _ (create kmalloc user_fds c s live fresh) ok =
      sys_pipe-Tallied kmalloc user_fds c s live fresh ok
  one-Tallied _ _ (fork parent child s live room empty) ok =
      fork_fds-Tallied ops parent child s live room empty ok
  one-Tallied _ _ (exit c s live) ok = (exit_fds-NoPipes ops c s live ok).0
  one-Tallied _ _ (other s s' sized same kept) ok = step-Tallied s s' ok sized (λ x nz used.
      (omega (arith, used, same true x, same false x), λ e was. kept e x ∙ was ∙ sym (same e x)))

  -- Pipes that count their descriptors still do so after any sequence of the calls.
  pub steps-Tallied : (s s' : Files O) → FdSteps s s' → Tallied s → Tallied s'
  steps-Tallied s _ start ok = ok
  steps-Tallied s _ (next s1 s2 before step) ok =
      one-Tallied s1 s2 step (steps-Tallied s s1 before ok)

  -- A child that ends as it was forked leaves every pipe with the readers and the writers that it had.
  pub exit_fds-fork_fds :
      (parent child : ℕ) (e : Bool) (x : ℕ) (s : Files O)
      → parent < length (tables s.kernel)
      → child < length (tables s.kernel)
      → NoPipes (fds_of s child)
      → Tallied s
      → x ≢ 0
      → 0 < total true x (tables s.kernel) + total false x (tables s.kernel)
      → ends e ((exit_fds ops child (fork_fds ops parent child s)).pipes x) ≡ ends e (s.pipes x)
  exit_fds-fork_fds parent child e x s live room empty ok nz used =
      let s1 = fork_fds ops parent child s in
      let ok1 = fork_fds-Tallied ops parent child s live room empty ok in
      let room1 = subst (λ n. child < n) (sym (length-fork_fds ops parent child s)) room in
      let ok2 = (exit_fds-NoPipes ops child s1 room1 ok1).0 in
      let same : (d : Bool)
          → total d x (tables (exit_fds ops child s1).kernel) ≡ total d x (tables s.kernel) =
        λ d. omega (
          arith,
          total-exit_fds ops d x child s1 room1 ok1,
          total-fork_fds ops d x parent child s room empty,
        ) in
      ok2.counts x nz (omega (arith, used, same true, same false)) e
      ∙ same e
      ∙ sym (ok.counts x nz used e)
