-- ===== src/ProcessTable/Tests.antt =====
-- Runs of the process table, and the theorems at small tables.
use hobbyos.Base.{
  ℕ, zero, suc, ◌<◌, ◌≡◌, refl, true, not, Option, none, some, [], ◌∷◌, arith, find_from,
}
use hobbyos.Process.{Process, ProcessState, Kernel, zero_process}
use hobbyos.Sched.{is_unused, schedule}
use hobbyos.ProcessTable.{
  WaitResult, process_create, process_wait_for, find_zombie, reap, free_kernel_stack,
  process_find_zombie_child, process_alloc, process_get_count, process_has_children,
}
use hobbyos.ProcessTable.Slots.{Pids, IsTable, slot_at, Creates, process_create-Creates}
use hobbyos.ProcessTable.Wait.{woken, Waits, wait_for-Waits}

-- A parent that runs, and a free slot or its dead child.
abbrev kernel_with : Process → Kernel
unfolding zero_process
kernel_with child = record {
  table = record zero_process { pid = 1; state = ProcessState.running } ∷ child ∷ [];
  next_pid = 3;
  kstack_free = [];
  unmapped = 0xa000 ∷ [];
  kfreed = [];
  current = some 0;
  queue_head = none;
  queue_tail = none;
  kernel_cr3 = 0x1000;
  rsp0 = 0;
  cr3 = 0x1000;
}

abbrev dead : Process
unfolding zero_process
dead = record zero_process {
  pid = 2;
  ppid = 1;
  state = ProcessState.zombie;
  exit_code = 7;
  kernel_stack_guard = 0xa000;
}

reaped_kernel : WaitResult → Option Kernel
reaped_kernel (WaitResult.reaped pid code k) = some k
reaped_kernel _ = none

-- The child's slot and kernel stack can be used again, and the guard page is mapped.
reaps_child :
    process_wait_for (λ k. k) 0x5000 0 (kernel_with dead)
    ≡ WaitResult.reaped 2 7
        (record (kernel_with
          (record dead { state = ProcessState.unused; kernel_stack_guard = 0 })) {
            kstack_free = 0xa000 ∷ [];
            unmapped = [];
          })
unfolding find_from process_wait_for zero_process find_zombie process_find_zombie_child reap
    free_kernel_stack
reaps_child = refl

counts_and_allocs :
    (process_get_count (kernel_with dead) ≡ 2)
    × ((process_alloc (kernel_with zero_process)).0 ≡ some 1)
    × (process_has_children 1 (kernel_with dead) ≡ true)
unfolding find_from process_get_count process_alloc process_has_children zero_process
counts_and_allocs = (refl, refl, refl)

-- Two processes with the pids 1 and 2.
two-Pids : (a b : Process) → a.pid ≡ 1 → b.pid ≡ 2 → Pids (a ∷ b ∷ []) 3
two-Pids a b one two = record { below = below; distinct = distinct }
  where
    below :
        (i : ℕ)
        → i < 2
        → not (is_unused (slot_at (a ∷ b ∷ []) i).state) ≡ true
        → (slot_at (a ∷ b ∷ []) i).pid < 3
    below zero h alive = omega (arith, one)
    below (suc zero) h alive = omega (arith, two)
    below (suc (suc i)) h alive = absurd (omega arith)

    distinct :
        (i j : ℕ)
        → i < 2
        → j < 2
        → not (is_unused (slot_at (a ∷ b ∷ []) i).state) ≡ true
        → not (is_unused (slot_at (a ∷ b ∷ []) j).state) ≡ true
        → (slot_at (a ∷ b ∷ []) i).pid ≡ (slot_at (a ∷ b ∷ []) j).pid
        → i ≡ j
    distinct zero zero hi hj li lj e = refl
    distinct zero (suc zero) hi hj li lj e = absurd (omega (arith, one, two, e))
    distinct zero (suc (suc j)) hi hj li lj e = absurd (omega arith)
    distinct (suc zero) zero hi hj li lj e = absurd (omega (arith, one, two, e))
    distinct (suc zero) (suc zero) hi hj li lj e = refl
    distinct (suc zero) (suc (suc j)) hi hj li lj e = absurd (omega arith)
    distinct (suc (suc i)) j hi hj li lj e = absurd (omega arith)

dead-IsTable : IsTable (kernel_with dead)
unfolding zero_process
dead-IsTable = two-Pids _ _ refl refl

woken-IsTable : IsTable (woken (λ k. k) 0 2 (kernel_with dead))
unfolding zero_process schedule
woken-IsTable = two-Pids _ _ refl refl

wait_for-Waits_example :
    Waits (λ k. k) (kernel_with dead) 0 2 (process_wait_for (λ k. k) 0x5000 2 (kernel_with dead))
unfolding zero_process
wait_for-Waits_example =
    wait_for-Waits (λ k. k) 0x5000 2 0 (kernel_with dead) refl dead-IsTable woken-IsTable

half_used-IsTable : IsTable (kernel_with zero_process)
unfolding zero_process
half_used-IsTable = record { below = below; distinct = distinct }
  where
    below :
        (i : ℕ)
        → i < 2
        → not (is_unused (slot_at (kernel_with zero_process).table i).state) ≡ true
        → (slot_at (kernel_with zero_process).table i).pid < 3
    below zero h alive = omega arith
    below (suc zero) h alive = omega arith
    below (suc (suc i)) h alive = absurd (omega arith)

    distinct :
        (i j : ℕ)
        → i < 2
        → j < 2
        → not (is_unused (slot_at (kernel_with zero_process).table i).state) ≡ true
        → not (is_unused (slot_at (kernel_with zero_process).table j).state) ≡ true
        → (slot_at (kernel_with zero_process).table i).pid
          ≡ (slot_at (kernel_with zero_process).table j).pid
        → i ≡ j
    distinct zero zero hi hj li lj e = refl
    distinct zero (suc zero) hi hj li lj e = cc
    distinct zero (suc (suc j)) hi hj li lj e = absurd (omega arith)
    distinct (suc zero) j hi hj li lj e = cc
    distinct (suc (suc i)) j hi hj li lj e = absurd (omega arith)

process_create-Creates_example :
    Creates
      (kernel_with zero_process)
      (some 0xb000)
      (process_create (some 0xb000) (105 ∷ 110 ∷ []) 0x400000 (kernel_with zero_process))
unfolding zero_process
process_create-Creates_example =
    process_create-Creates (kernel_with zero_process) (some 0xb000) (105 ∷ 110 ∷ []) 0x400000
      half_used-IsTable (omega arith)
