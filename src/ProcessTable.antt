-- ===== src/ProcessTable.antt =====
-- kernel/process/process.c: the process table, and waiting for a child.
-- What `kmalloc_page_aligned` and `pmm_alloc_page` answer is an argument of the calls that ask them.
pub mod Slots
pub mod Wait
mod Tests
use hobbyos.Base.{
  ℕ, zero, suc, ◌+◌, ◌-◌, ◌%◌, ◌^◌, Bool, true, false, ◌&&◌, Option, none, some, List, [], ◌∷◌,
  ◌++◌, ltb, ◌==◌, not, if◌then◌else◌, is_some, length, take, replicate, modify, find_index, get_or,
}
use hobbyos.Process.{
  Process, ProcessState, ProcessFd, Kernel, proc, set_proc, zero_process, zero_fd, zero_vma,
  zero_context, max_processes, process_stack_size, process_max_fds, page_size, mmap_base,
  fd_console,
}
use hobbyos.Sched.{schedule, set_state, is_unused, is_zombie, is_terminated}

abbrev pub kstack_alloc_size : ℕ
kstack_alloc_size = page_size + process_stack_size

-- `kstack_free_list` is a stack: its top is the head of the list, and `kstack_free_count` its length.
abbrev pop_stack : Option ℕ → List ℕ → Kernel → Option ℕ × Kernel
pop_stack heap [] k = (heap, k)
pop_stack heap (s ∷ rest) k = (some s, record k { kstack_free = rest })

unfoldable pub process_alloc_kernel_stack : Option ℕ → Kernel → Option ℕ × Kernel
process_alloc_kernel_stack heap k = pop_stack heap k.kstack_free k

abbrev remove : ℕ → List ℕ → List ℕ
remove a [] = []
remove a (x ∷ xs) = if a == x then remove a xs else x ∷ remove a xs

-- `vmm_unmap_page` and `vmm_map_page` on a guard page.
abbrev pub unmap_guard : ℕ → Kernel → Kernel
unmap_guard a k = record k { unmapped = a ∷ k.unmapped }

abbrev pub map_guard : ℕ → Kernel → Kernel
map_guard a k = record k { unmapped = remove a k.unmapped }

-- `guard_phys` is the page that `pmm_alloc_page` returns, 0 for none.
unfoldable pub free_kernel_stack : ℕ → ℕ → Kernel → Kernel
free_kernel_stack guard_phys stack k =
    let k' = if guard_phys == 0 then k else map_guard stack k in
    if ltb (length k'.kstack_free) max_processes
    then record k' { kstack_free = stack ∷ k'.kstack_free }
    else record k' { kfreed = stack ∷ k'.kfreed }

unfoldable pub process_init : Kernel → Kernel
process_init k = record k { table = replicate max_processes zero_process }

-- A slot that is not in use.
abbrev pub free_slot : Kernel → Option ℕ
free_slot k = find_index (λ p. is_unused p.state) k.table

-- `strncpy` of at most 31 characters, padded with zeros, and the final zero.
abbrev pub copy_name : List ℕ → List ℕ
copy_name name = let kept = take 31 name in kept ++ replicate (31 - length kept) 0 ++ (0 ∷ [])

-- The process control block that `process_create` leaves in its slot: the fields that it does not
-- write keep their values.
unfoldable pub new_process : ℕ → List ℕ → ℕ → ℕ → Process → Process
new_process pid name entry stack p = record p {
  pid = pid;
  name = copy_name name;
  state = ProcessState.ready;
  kernel_stack_guard = stack;
  kernel_stack = stack + page_size + process_stack_size;
  next = none;
  cr3 = 0;
  is_user = false;
  user_program_data = 0;
  user_program_size = 0;
  ppid = 0;
  exit_code = 0;
  wait_for_pid = 0;
  fd_table =
      record zero_fd { type = fd_console }
      ∷ record zero_fd { type = fd_console }
      ∷ record zero_fd { type = fd_console }
      ∷ replicate 29 zero_fd;
  sig_pending = 0;
  sig_handlers = replicate 32 0;
  in_signal_handler = false;
  vmas = replicate 32 zero_vma;
  mmap_next = mmap_base;
  brk_start = 0;
  brk_current = 0;
  uid = 0;
  gid = 0;
  euid = 0;
  egid = 0;
  epoll_fd_idx = none;
  epoll_timeout_ticks = 0;
  epoll_events_ptr = 0;
  epoll_maxevents = 0;
  context = record zero_context { rip = entry; rsp = stack + page_size + process_stack_size };
}

-- `next_pid++`
abbrev pub bump_pid : Kernel → Kernel
bump_pid k = record k { next_pid = (k.next_pid + 1) % 2 ^ 32 }

create_on : List ℕ → ℕ → ℕ → Option ℕ × Kernel → Option ℕ × Kernel
create_on name entry slot (none, k) = (none, k)
create_on name entry slot (some stack, k) = (
  some slot,
  set_proc slot (new_process k.next_pid name entry stack) (bump_pid (unmap_guard stack k)),
)

create_in : Option ℕ → List ℕ → ℕ → Option ℕ → Kernel → Option ℕ × Kernel
create_in heap name entry none k = (none, k)
create_in heap name entry (some slot) k =
    create_on name entry slot (process_alloc_kernel_stack heap k)

unfoldable pub process_create : Option ℕ → List ℕ → ℕ → Kernel → Option ℕ × Kernel
unfolding create_in create_on
process_create heap name entry k = create_in heap name entry (free_slot k) k

unfoldable pub process_get_by_pid : ℕ → Kernel → Option ℕ
process_get_by_pid pid k = find_index (λ p. not (is_unused p.state) && (p.pid == pid)) k.table

count_used : List Process → ℕ
count_used [] = 0
count_used (p ∷ ps) = (if is_unused p.state then 0 else 1) + count_used ps

unfoldable pub process_get_count : Kernel → ℕ
unfolding count_used
process_get_count k = count_used k.table

abbrev pub zombie_of : ℕ → Process → Bool
zombie_of parent p = is_zombie p.state && (p.ppid == parent)

unfoldable pub process_find_zombie_child : ℕ → Kernel → Option ℕ
process_find_zombie_child parent k = find_index (zombie_of parent) k.table

abbrev pub child_of : ℕ → Process → Bool
child_of parent p = (p.ppid == parent) && not (is_unused p.state) && not (is_terminated p.state)

unfoldable pub process_has_children : ℕ → Kernel → Bool
process_has_children parent k = is_some (find_index (child_of parent) k.table)

alloc_in : Option ℕ → Kernel → Option ℕ × Kernel
alloc_in none k = (none, k)
alloc_in (some slot) k = (
  some slot,
  set_proc slot
      (λ _. record zero_process { pid = k.next_pid; epoll_fd_idx = none; mmap_next = mmap_base })
      (bump_pid k),
)

unfoldable pub process_alloc : Kernel → Option ℕ × Kernel
unfolding alloc_in
process_alloc k = alloc_in (free_slot k) k

-- What `process_wait_for` returns: a pid with the child's exit code, or -1. A current process that
-- is NULL is a fault.
pub data WaitResult : Type 0 where
  reaped : ℕ → ℕ → Kernel → WaitResult
  no_child : Kernel → WaitResult
  fault : WaitResult

own_zombie : ℕ → Option ℕ → Kernel → Option ℕ
own_zombie parent none k = none
own_zombie parent (some i) k =
    if ((proc k i).ppid == parent) && is_zombie (proc k i).state then some i else none

-- The zombie that the call may reap: any child's for `child_pid` 0.
unfoldable pub find_zombie : ℕ → ℕ → Kernel → Option ℕ
unfolding own_zombie
find_zombie parent child_pid k =
    if child_pid == 0
    then process_find_zombie_child parent k
    else own_zombie parent (process_get_by_pid child_pid k) k

unfoldable pub reap : ℕ → ℕ → Kernel → WaitResult
unfolding free_kernel_stack
reap guard_phys z k =
    let p = proc k z in
    let k' =
      if p.kernel_stack_guard == 0
      then k
      else set_proc z (λ q. record q { kernel_stack_guard = 0 })
          (free_kernel_stack guard_phys p.kernel_stack_guard k) in
    reaped p.pid p.exit_code (set_state z ProcessState.unused k')

reap_found : ℕ → Option ℕ → Kernel → WaitResult
unfolding reap
reap_found guard_phys none k = no_child k
reap_found guard_phys (some z) k = reap guard_phys z k

-- `others` is what the other processes do while the caller is blocked.
wait_blocked : (Kernel → Kernel) → ℕ → ℕ → ℕ → Kernel → WaitResult
unfolding reap_found
wait_blocked others guard_phys c child_pid k =
    let k' = others (
      schedule (
        set_proc c (λ p. record p { wait_for_pid = child_pid; state = ProcessState.blocked }) k)) in
    reap_found guard_phys (find_zombie (proc k' c).pid child_pid k') k'

wait_as : (Kernel → Kernel) → ℕ → ℕ → ℕ → Option ℕ → Kernel → WaitResult
unfolding wait_blocked
wait_as others guard_phys c child_pid (some z) k = reap guard_phys z k
wait_as others guard_phys c child_pid none k =
    if process_has_children (proc k c).pid k
    then wait_blocked others guard_phys c child_pid k
    else no_child k

wait_current : (Kernel → Kernel) → ℕ → ℕ → Option ℕ → Kernel → WaitResult
unfolding wait_as
wait_current others guard_phys child_pid none k = fault
wait_current others guard_phys child_pid (some c) k =
    wait_as others guard_phys c child_pid (find_zombie (proc k c).pid child_pid k) k

unfoldable pub process_wait_for : (Kernel → Kernel) → ℕ → ℕ → Kernel → WaitResult
unfolding wait_current
process_wait_for others guard_phys child_pid k =
    wait_current others guard_phys child_pid k.current k
