-- ===== src/Sched.antt =====
-- kernel/scheduler/scheduler.c: the ready queue and the switch between processes. The switch of
-- register contexts is what the caller of `schedule` sees as the pass of time; here the state
-- after `schedule` is the one in which the chosen process runs.
pub mod Queue
pub mod Fifo
pub mod Again
pub mod Blocked
pub mod Sample
mod Tests
use hobbyos.Base.{ℕ, Bool, true, false, Option, none, some, ◌==◌, if◌then◌else◌, is_some}
use hobbyos.Process.{Process, ProcessState, Kernel, proc, set_proc}

-- The state of a process is compared with a constant.
abbrev pub is_unused : ProcessState → Bool
is_unused ProcessState.unused = true
is_unused _ = false

abbrev pub is_running : ProcessState → Bool
is_running ProcessState.running = true
is_running _ = false

abbrev pub is_blocked : ProcessState → Bool
is_blocked ProcessState.blocked = true
is_blocked _ = false

abbrev pub is_zombie : ProcessState → Bool
is_zombie ProcessState.zombie = true
is_zombie _ = false

abbrev pub is_terminated : ProcessState → Bool
is_terminated ProcessState.terminated = true
is_terminated _ = false

abbrev pub set_state : ℕ → ProcessState → Kernel → Kernel
set_state i s = set_proc i (λ p. record p { state = s })

-- `ready_queue_tail->next = proc`: a NULL tail behind a head would fault, and is no state of the
-- queue that the two functions below leave.
unfoldable pub link_tail : Option ℕ → ℕ → Kernel → Kernel
link_tail none i k = k
link_tail (some t) i k = set_proc t (λ p. record p { next = some i }) k

-- The two branches of `if (!ready_queue_head)`.
unfoldable pub enqueue : Option ℕ → ℕ → Kernel → Kernel
unfolding link_tail
enqueue none i k = record k { queue_head = some i; queue_tail = some i }
enqueue (some _) i k = record (link_tail k.queue_tail i k) { queue_tail = some i }

unfoldable pub scheduler_add : ℕ → Kernel → Kernel
unfolding enqueue
scheduler_add i k =
    enqueue k.queue_head i
      (set_proc i (λ p. record p { state = ProcessState.ready; next = none }) k)

-- `if (current_process && current_process->state == PROCESS_RUNNING)`: back to the queue.
unfoldable pub requeue : Option ℕ → Kernel → Kernel
unfolding scheduler_add
requeue none k = k
requeue (some c) k =
    if is_running (proc k c).state then scheduler_add c (set_state c ProcessState.ready k) else k

-- The process at the head leaves the queue.
abbrev pub pop_head : ℕ → Kernel → Kernel
pop_head n k =
    let rest = (proc k n).next in
    record k { queue_head = rest; queue_tail = elim rest [ none ↦ none | some _ ↦ k.queue_tail ] }

-- `current_process = next`, its state, the kernel stack and the page tables.
abbrev pub switch_to : ℕ → Kernel → Kernel
switch_to n k =
    let k' = set_state n ProcessState.running (record k { current = some n }) in
    record k' {
      rsp0 = (proc k' n).kernel_stack;
      cr3 = if (proc k' n).cr3 == 0 then k'.kernel_cr3 else (proc k' n).cr3;
    }

unfoldable pub run_next : Option ℕ → Kernel → Kernel
unfolding requeue
run_next none k = k
run_next (some n) k = switch_to n (requeue k.current (pop_head n k))

unfoldable pub schedule : Kernel → Kernel
unfolding run_next
schedule k = run_next k.queue_head k

unfoldable pub scheduler_get_current : Kernel → Option ℕ
scheduler_get_current k = k.current
