-- ===== src/Fd/Tallied.antt =====
-- kernel/syscall/syscall.c: the counts of every pipe are the numbers of descriptors of its ends, and
-- what the writing of a descriptor does to these numbers.
use hobbyos.Base.{
  All-modify, All-inside, get_or-modify_self, ℕ, ◌+◌, ◌≤◌, ◌<◌, ◌≡◌, ◌≢◌, sym, ◌∙◌, ap, subst, Bool,
  true, false, List, [], length, get_or, set, modify, All, arith, length-set, length-modify,
}
use hobbyos.Process.{ProcessFd, zero_fd, process_max_fds, max_processes}
use hobbyos.Fd.{Files, set_fds, set_fd, fds_of, fd_at}
use hobbyos.Fd.Refs.{
  ends, hit, refs, total, tables, refs-set, total-modify, total_bound, tables_modify, tables-get_or,
  hit-le-refs, refs-le-total,
}

abbrev pub Sized : List (List ProcessFd) → Type 0
Sized ts = All (λ t. length t ≡ process_max_fds) ts × (length ts ≤ max_processes)

-- Every pipe that a descriptor refers to counts the descriptors of both ends.
pub record Tallied {O : Type 0} (s : Files O) : Type 0 where
  pub counts :
      (x : ℕ)
      → x ≢ 0
      → 0 < total true x (tables s.kernel) + total false x (tables s.kernel)
      → (e : Bool) → ends e (s.pipes x) ≡ total e x (tables s.kernel)
  pub sized : Sized (tables s.kernel)

module _ {O : Type 0} where
  pub tables-set_fds :
      (c : ℕ) (g : List ProcessFd → List ProcessFd) (s : Files O)
      → tables (set_fds c g s).kernel ≡ modify (tables s.kernel) c g
  tables-set_fds c g s = tables_modify c g s.kernel.table

  pub fds_of_lem :
      (c : ℕ) (s : Files O)
      → c < length (tables s.kernel)
      → fds_of s c ≡ get_or (tables s.kernel) c []
  fds_of_lem c s lt = tables-get_or s.kernel.table c lt

  -- A process has 32 descriptors.
  pub length-fds_of :
      (c : ℕ) (s : Files O)
      → Sized (tables s.kernel)
      → c < length (tables s.kernel)
      → length (fds_of s c) ≡ process_max_fds
  length-fds_of c s sized lt =
      ap length (fds_of_lem c s lt)
      ∙ All-inside (λ t. length t ≡ process_max_fds) (tables s.kernel) c [] sized.0 lt

  -- The references after a process has other descriptors.
  pub total-set_fds :
      (e : Bool) (x c : ℕ) (g : List ProcessFd → List ProcessFd) (s : Files O)
      → c < length (tables s.kernel)
      → total e x (tables (set_fds c g s).kernel) + refs e x (fds_of s c)
        ≡ total e x (tables s.kernel) + refs e x (g (fds_of s c))
  total-set_fds e x c g s lt =
      rw (tables-set_fds c g s, fds_of_lem c s lt) (total-modify e x (tables s.kernel) c g lt)

  pub set_fds-Sized :
      (c : ℕ) (g : List ProcessFd → List ProcessFd) (s : Files O)
      → Sized (tables s.kernel)
      → ((t : List ProcessFd) → length t ≡ process_max_fds → length (g t) ≡ process_max_fds)
      → Sized (tables (set_fds c g s).kernel)
  set_fds-Sized c g s sized keep = subst Sized (sym (tables-set_fds c g s)) (
    All-modify (λ t. length t ≡ process_max_fds) (tables s.kernel) c g sized.0 keep,
    subst (λ n. n ≤ max_processes) (sym (length-modify (tables s.kernel) c g)) sized.1,
  )

  pub set_fd-Sized :
      (c fd : ℕ) (v : ProcessFd) (s : Files O)
      → Sized (tables s.kernel)
      → Sized (tables (set_fd c fd v s).kernel)
  set_fd-Sized c fd v s sized =
      set_fds-Sized c (λ t. set t fd v) s sized (λ t n. length-set t fd v ∙ n)

  -- The references after a descriptor is written.
  pub total-set_fd :
      (e : Bool) (x c fd : ℕ) (v : ProcessFd) (s : Files O)
      → c < length (tables s.kernel)
      → fd < length (fds_of s c)
      → total e x (tables (set_fd c fd v s).kernel) + hit e x (fd_at s c fd)
        ≡ total e x (tables s.kernel) + hit e x v
  total-set_fd e x c fd v s lt inside = omega (
    arith,
    total-set_fds e x c (λ t. set t fd v) s lt,
    refs-set e x (fds_of s c) fd v inside,
    hit-le-refs e x (fds_of s c) fd,
  )

  -- A descriptor is one of the references.
  pub hit-le-total :
      (e : Bool) (x c fd : ℕ) (s : Files O)
      → c < length (tables s.kernel)
      → hit e x (fd_at s c fd) ≤ total e x (tables s.kernel)
  hit-le-total e x c fd s lt =
      let here = ap (refs e x) (fds_of_lem c s lt) in
      omega (arith, hit-le-refs e x (fds_of s c) fd, here, refs-le-total e x (tables s.kernel) c)

  pub total_small :
      (e : Bool) (x : ℕ) (s : Files O)
      → Sized (tables s.kernel)
      → total e x (tables s.kernel) ≤ 2048
  total_small e x s sized =
      omega (arith, total_bound e x process_max_fds (tables s.kernel) sized.0, sized.1)

  -- The counts after a step from counts before it.
  pub step-Tallied :
      (s s' : Files O)
      → Tallied s
      → Sized (tables s'.kernel)
      → ((x : ℕ)
          → x ≢ 0
          → 0 < total true x (tables s'.kernel) + total false x (tables s'.kernel)
          → (0 < total true x (tables s.kernel) + total false x (tables s.kernel))
            × ((e : Bool)
                → ends e (s.pipes x) ≡ total e x (tables s.kernel)
                → ends e (s'.pipes x) ≡ total e x (tables s'.kernel)))
      → Tallied s'
  step-Tallied s s' ok sized step = record {
    counts = λ x nz used e. let now = step x nz used in now.1 e (ok.counts x nz now.0 e);
    sized = sized;
  }

  pub length-set_fd :
      (c fd : ℕ) (v : ProcessFd) (s : Files O)
      → length (tables (set_fd c fd v s).kernel) ≡ length (tables s.kernel)
  length-set_fd c fd v s =
      ap length (tables-set_fds c (λ t. set t fd v) s)
      ∙ length-modify (tables s.kernel) c (λ t. set t fd v)

  pub fds_of-set :
      (c fd : ℕ) (v : ProcessFd) (s : Files O)
      → c < length (tables s.kernel)
      → fds_of (set_fd c fd v s) c ≡ set (fds_of s c) fd v
  fds_of-set c fd v s live =
      fds_of_lem c (set_fd c fd v s) (subst (λ n. c < n) (sym (length-set_fd c fd v s)) live)
      ∙ ap (λ ts. get_or ts c []) (tables-set_fds c (λ t. set t fd v) s)
      ∙ get_or-modify_self (tables s.kernel) c (λ t. set t fd v) [] live
      ∙ ap (λ t. set t fd v) (sym (fds_of_lem c s live))

  pub fds_of_keep :
      (c : ℕ) (s s' : Files O)
      → tables s'.kernel ≡ tables s.kernel
      → c < length (tables s.kernel)
      → fds_of s' c ≡ fds_of s c
  fds_of_keep c s s' same lt =
      fds_of_lem c s' (subst (λ ts. c < length ts) (sym same) lt)
      ∙ ap (λ ts. get_or ts c []) same
      ∙ sym (fds_of_lem c s lt)

  -- A descriptor is written after a call that leaves the processes.
  pub after_total :
      (e : Bool) (x c fd : ℕ) (v : ProcessFd) (s s' : Files O)
      → tables s'.kernel ≡ tables s.kernel
      → c < length (tables s.kernel)
      → fd < length (fds_of s c)
      → total e x (tables (set_fd c fd v s').kernel) + hit e x (fd_at s c fd)
        ≡ total e x (tables s.kernel) + hit e x v
  after_total e x c fd v s s' same lt inside =
      let keep = fds_of_keep c s s' same lt in
      let there = ap (λ (t : List ProcessFd). hit e x (get_or t fd zero_fd)) keep in
      let before = ap (total e x) same in
      let now =
        total-set_fd e x c fd v s' (subst (λ ts. c < length ts) (sym same) lt)
          (subst (λ t. fd < length t) (sym keep) inside) in
      omega (arith, there, before, now)
