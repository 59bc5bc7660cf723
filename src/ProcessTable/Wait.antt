-- ===== src/ProcessTable/Wait.antt =====
-- What `process_wait_for` reaps.
use hobbyos.Base.{
  find_from-none, find_index, is_some, ℕ, ◌-◌, ◌<◌, ◌≡◌, ◌≢◌, refl, Bool, true, false, ◌&&◌, ◌⊎◌,
  inl, inr, Option, none, some, ◌==◌, not, length, get_or, get_or-modify_self, get_or-modify_ne,
  length-modify, find_from-some, arith, subst, List, modify, Bool-cases, Option-cases, ==→eq, ap,
  ◌∙◌, sym,
}
use hobbyos.Process.{Process, ProcessState, Kernel, proc, zero_process}
use hobbyos.Sched.{is_zombie, is_unused, is_terminated, schedule}
use hobbyos.ProcessTable.Slots.{IsTable, get_by_pid_live}
use hobbyos.ProcessTable.{
  WaitResult, find_zombie, own_zombie, reap, reap_found, wait_blocked, wait_as, wait_current,
  process_wait_for, process_find_zombie_child, process_get_by_pid, process_has_children, zombie_of,
  child_of, free_kernel_stack,
}

-- `z` is a zombie child of the process `parent`, and the one that was asked for (0 asks for any).
pub record IsReapable (k : Kernel) (parent child_pid z : ℕ) : Type 0 where
  pub inside : z < length k.table
  pub dead : (proc k z).state ≡ ProcessState.zombie
  pub child : (proc k z).ppid ≡ parent
  pub asked : (child_pid ≡ 0) ⊎ ((proc k z).pid ≡ child_pid)

is_zombie_sound : (s : ProcessState) → is_zombie s ≡ true → s ≡ ProcessState.zombie
is_zombie_sound s h = ground arith

find_child-IsReapable :
    (parent child_pid : ℕ) (k : Kernel) (z : ℕ)
    → child_pid ≡ 0
    → process_find_zombie_child parent k ≡ some z
    → IsReapable k parent child_pid z
unfolding process_find_zombie_child
find_child-IsReapable parent child_pid k z any e =
    let (lo, hi, hit) = find_from-some (zombie_of parent) 0 k.table z zero_process e in
    let at_z : z - 0 ≡ z = omega arith in
    let hit' : zombie_of parent (proc k z) ≡ true = rw at_z at hit in
    record {
      inside = omega arith;
      dead = is_zombie_sound (proc k z).state (ground arith);
      child = ground arith;
      asked = inl any;
    }

own_zombie-IsReapable :
    (parent child_pid : ℕ) (k : Kernel) (z : ℕ) (o : Option ℕ)
    → process_get_by_pid child_pid k ≡ o
    → own_zombie parent o k ≡ some z
    → IsReapable k parent child_pid z
unfolding own_zombie process_get_by_pid
own_zombie-IsReapable parent child_pid k z none found e = cc
own_zombie-IsReapable parent child_pid k z (some i) found e =
    let live : Process → Bool = λ p. not (is_unused p.state) && (p.pid == child_pid) in
    let (lo, hi, hit) = find_from-some live 0 k.table i zero_process found in
    let at_i : i - 0 ≡ i = omega arith in
    let hit' : live (proc k i) ≡ true = rw at_i at hit in
    let same : i ≡ z = ground arith in
    rw (← same) (record {
      inside = omega arith;
      dead = is_zombie_sound (proc k i).state (ground arith);
      child = ground arith;
      asked = inr (ground arith);
    })

find_zombie-IsReapable :
    (parent child_pid : ℕ) (k : Kernel) (z : ℕ)
    → find_zombie parent child_pid k ≡ some z
    → IsReapable k parent child_pid z
unfolding find_zombie
find_zombie-IsReapable parent child_pid k z e = elim (Bool-cases (child_pid == 0)) [
  | inl any ↦ find_child-IsReapable parent child_pid k z (==→eq child_pid 0 any) (rw any at e)
  | inr one ↦ own_zombie-IsReapable parent child_pid k z _ refl (rw one at e)
]

-- From the state `k` before the reaping, `r` is the end of a call that reaps `z`: it returns the
-- child's pid and exit code, frees its slot, and leaves every other process as it was.
pub data Reaps (k : Kernel) (z : ℕ) : WaitResult → Type 0 where
  reaps :
      {k' : Kernel} {pid code : ℕ}
      → pid ≡ (proc k z).pid
      → code ≡ (proc k z).exit_code
      → (proc k' z).state ≡ ProcessState.unused
      → ((j : ℕ) → j ≢ z → proc k' j ≡ proc k j)
      → Reaps k z (WaitResult.reaped pid code k')

table-free_kernel_stack : (g s : ℕ) (k : Kernel) → (free_kernel_stack g s k).table ≡ k.table
unfolding free_kernel_stack
table-free_kernel_stack g s k = ground arith

module _ (z : ℕ) where
  abbrev without_stack : Process → Process
  without_stack q = record q { kernel_stack_guard = 0 }

  abbrev gone : Process → Process
  gone q = record q { state = ProcessState.unused }

  -- The state of the slot, and the other slots, after the last assignment.
  gone_at :
      (t : List Process)
      → z < length t
      → (get_or (modify t z gone) z zero_process).state ≡ ProcessState.unused
  gone_at t inside = ap (λ q. q.state) (get_or-modify_self t z gone zero_process inside)

  reap-Reaps : (g : ℕ) (k : Kernel) → z < length k.table → Reaps k z (reap g z k)
  unfolding reap
  reap-Reaps g k inside = elim (Bool-cases ((proc k z).kernel_stack_guard == 0)) [
    | inl no_stack ↦ rw no_stack (
        reaps refl refl (gone_at k.table inside)
          λ j ne. get_or-modify_ne k.table z j gone zero_process (λ e. ne (sym e)))
    | inr stack ↦
        let k' = free_kernel_stack g (proc k z).kernel_stack_guard k in
        let same = table-free_kernel_stack g (proc k z).kernel_stack_guard k in
        let inside' : z < length (modify k'.table z without_stack) =
          rw (length-modify, same) inside in
        rw stack (
          reaps refl refl (gone_at (modify k'.table z without_stack) inside') λ j ne.
            get_or-modify_ne (modify k'.table z without_stack) z j gone zero_process
              (λ e. ne (sym e))
            ∙ get_or-modify_ne k'.table z j without_stack zero_process (λ e. ne (sym e))
            ∙ ap (λ t. get_or t j zero_process) same)
  ]

-- No zombie child is there that was asked for.
abbrev pub NoReapable : Kernel → ℕ → ℕ → Type 0
NoReapable k parent child_pid = (z : ℕ) → ¬ IsReapable k parent child_pid z

-- `j` is a child of the process `parent`, dead or alive, that has not been reaped.
pub record IsChild (k : Kernel) (parent j : ℕ) : Type 0 where
  pub inside : j < length k.table
  pub child : (proc k j).ppid ≡ parent
  pub used : is_unused (proc k j).state ≡ false
  pub left : is_terminated (proc k j).state ≡ false

find_zombie-none :
    (parent child_pid : ℕ) (k : Kernel)
    → IsTable k
    → find_zombie parent child_pid k ≡ none
    → NoReapable k parent child_pid
unfolding find_zombie own_zombie process_find_zombie_child
find_zombie-none parent child_pid k t e z h =
    let zombie : is_zombie (proc k z).state ≡ true = ap is_zombie h.dead in
    let alive : not (is_unused (proc k z).state) ≡ true = ap (λ s. not (is_unused s)) h.dead in
    elim (Bool-cases (child_pid == 0)) [
      | inl any ↦
          let none_there =
            find_from-none (zombie_of parent) 0 k.table z zero_process (rw any at e) h.inside in
          ground (arith, none_there, zombie, h.child)
      | inr one ↦ elim h.asked [
        | inl z0 ↦ ground (arith, one, z0)
        | inr pid ↦
            let found : process_get_by_pid child_pid k ≡ some z =
              ap (λ n. process_get_by_pid n k) (sym pid) ∙ get_by_pid_live k z t h.inside alive in
            let own : own_zombie parent (process_get_by_pid child_pid k) k ≡ none = rw one at e in
            let own' : own_zombie parent (some z) k ≡ none =
              ap (λ o. own_zombie parent o k) (sym found) ∙ own in
            ground (arith, own', zombie, h.child)
      ]
    ]

has_children_lem :
    (parent : ℕ) (k : Kernel) → process_has_children parent k ≡ true → (j : ℕ) × IsChild k parent j
unfolding process_has_children
has_children_lem parent k e = elim (Option-cases (find_index (child_of parent) k.table)) [
  | inl none_there ↦ absurd (ground (arith, ap is_some none_there, e))
  | inr (j, found) ↦
      let (lo, hi, hit) = find_from-some (child_of parent) 0 k.table j zero_process found in
      let at_j : j - 0 ≡ j = omega arith in
      let hit' : child_of parent (proc k j) ≡ true = rw at_j at hit in
      (
        j,
        record {
          inside = omega arith;
          child = ground (arith, hit');
          used = ground (arith, hit');
          left = ground (arith, hit');
        },
      )
]

no_children_lem :
    (parent : ℕ) (k : Kernel)
    → process_has_children parent k ≡ false
    → (j : ℕ) → ¬ IsChild k parent j
unfolding process_has_children
no_children_lem parent k e j h = elim (Option-cases (find_index (child_of parent) k.table)) [
  | inl none_there ↦
      let miss = find_from-none (child_of parent) 0 k.table j zero_process none_there h.inside in
      ground (arith, miss, h.child, h.used, h.left)
  | inr (i, found) ↦ ground (arith, ap is_some found, e)
]

-- The state when the process `c`, which was blocked until a child of the pid ends, and gave the
-- processor away, runs again after the others.
abbrev pub woken : (Kernel → Kernel) → ℕ → ℕ → Kernel → Kernel
woken others c child_pid k =
    let p' : Process → Process =
      λ p. record p { state = ProcessState.blocked; wait_for_pid = child_pid } in
    others (schedule (record k { table = modify k.table c p' }))

-- How a call by the process `c` ends that asks for `child_pid` on `k`: a zombie child that is there
-- is reaped at once; without one and without children the call fails and changes nothing; otherwise
-- the process is blocked and gives the processor away, and on the state in which it wakes up it reaps
-- a zombie child or fails, with nothing changed, where there is none.
pub data Waits (others : Kernel → Kernel) (k : Kernel) (c child_pid : ℕ) : WaitResult → Type 0 where
  at_once :
      {r : WaitResult} (z : ℕ)
      → IsReapable k (proc k c).pid child_pid z
      → Reaps k z r
      → Waits others k c child_pid r
  refused :
      NoReapable k (proc k c).pid child_pid
      → ((j : ℕ) → ¬ IsChild k (proc k c).pid j)
      → Waits others k c child_pid (WaitResult.no_child k)
  after_sleep :
      {r : WaitResult} (k' : Kernel) (j z : ℕ)
      → NoReapable k (proc k c).pid child_pid
      → IsChild k (proc k c).pid j
      → k' ≡ woken others c child_pid k
      → IsReapable k' (proc k' c).pid child_pid z
      → Reaps k' z r
      → Waits others k c child_pid r
  woken_early :
      (k' : Kernel) (j : ℕ)
      → NoReapable k (proc k c).pid child_pid
      → IsChild k (proc k c).pid j
      → k' ≡ woken others c child_pid k
      → NoReapable k' (proc k' c).pid child_pid
      → Waits others k c child_pid (WaitResult.no_child k')

wake_up-Waits :
    (others : Kernel → Kernel) (g c child_pid j : ℕ) (k : Kernel)
    → NoReapable k (proc k c).pid child_pid
    → IsChild k (proc k c).pid j
    → IsTable (woken others c child_pid k)
    → (let k' = woken others c child_pid k in
        Waits others k c child_pid (reap_found g (find_zombie (proc k' c).pid child_pid k') k'))
unfolding reap_found
wake_up-Waits others g c child_pid j k none_yet children t' =
    let k' = woken others c child_pid k in
    elim (Option-cases (find_zombie (proc k' c).pid child_pid k')) [
      | inl e ↦
          subst (λ o. Waits others k c child_pid (reap_found g o k')) (sym e)
            (woken_early k' j none_yet children refl
              (find_zombie-none (proc k' c).pid child_pid k' t' e))
      | inr (z, e) ↦
          let r = find_zombie-IsReapable (proc k' c).pid child_pid k' z e in
          subst (λ o. Waits others k c child_pid (reap_found g o k')) (sym e)
            (after_sleep k' j z none_yet children refl r (reap-Reaps z g k' r.inside))
    ]

-- When the live processes have distinct pids below the next one, before the call and when it
-- wakes up, process_wait_for reaps a zombie child that was asked for and is there, and fails
-- with nothing changed when there is none and no child at all. Otherwise the process is blocked
-- until a child of that pid ends and gives the processor away; when it runs again after the
-- others, whatever they do, it reaps such a child or fails, with nothing changed, where there is
-- none.
pub wait_for-Waits :
    (others : Kernel → Kernel) (g child_pid c : ℕ) (k : Kernel)
    → k.current ≡ some c
    → IsTable k
    → IsTable (woken others c child_pid k)
    → Waits others k c child_pid (process_wait_for others g child_pid k)
unfolding process_wait_for wait_current wait_as wait_blocked
wait_for-Waits others g child_pid c k current t t' =
    let parent = (proc k c).pid in
    let call : process_wait_for others g child_pid k
        ≡ wait_as others g c child_pid (find_zombie parent child_pid k) k =
      ap (λ o. wait_current others g child_pid o k) current in
    rw call (elim (Option-cases (find_zombie parent child_pid k)) [
      | inr (z, e) ↦
          let r = find_zombie-IsReapable parent child_pid k z e in
          subst (λ o. Waits others k c child_pid (wait_as others g c child_pid o k)) (sym e)
            (at_once z r (reap-Reaps z g k r.inside))
      | inl e ↦
          let none_yet = find_zombie-none parent child_pid k t e in
          subst (λ o. Waits others k c child_pid (wait_as others g c child_pid o k)) (sym e)
            (elim (Bool-cases (process_has_children parent k)) [
              | inl children ↦
                  let (j, child) = has_children_lem parent k children in
                  rw children (wake_up-Waits others g c child_pid j k none_yet child t')
              | inr alone ↦ rw alone (refused none_yet (no_children_lem parent k alone))
            ])
    ])
