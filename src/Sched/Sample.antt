-- ===== src/Sched/Sample.antt =====
-- A state of the scheduler for tests: process 0 runs, 1 waits before 2, and 3 is blocked.
use hobbyos.Base.{refl, some, [], ◌∷◌, arith}
use hobbyos.Process.{ProcessState, Kernel, zero_process}
use hobbyos.Sched.Queue.{IsQueue}

abbrev pub waiting : Kernel
unfolding zero_process
waiting = record {
  table =
      record zero_process { pid = 1; state = ProcessState.running }
      ∷ record zero_process { pid = 2; state = ProcessState.ready; next = some 2 }
      ∷ record zero_process { pid = 3; state = ProcessState.ready }
      ∷ record zero_process { pid = 4; state = ProcessState.blocked; cr3 = 0x7000 }
      ∷ [];
  next_pid = 5;
  kstack_free = [];
  unmapped = [];
  kfreed = [];
  current = some 0;
  queue_head = some 1;
  queue_tail = some 2;
  kernel_cr3 = 0x1000;
  rsp0 = 0;
  cr3 = 0x1000;
}

pub waiting-IsQueue : IsQueue waiting (1 ∷ 2 ∷ [])
unfolding zero_process
waiting-IsQueue = record {
  linked = (refl, omega arith, refl, (refl, omega arith, refl, refl));
  tail = refl;
  distinct = (refl, (refl, tt));
}
