-- ===== src/Sched/Tests.antt =====
-- Runs of the scheduler.
use hobbyos.Base.{ℕ, ◌≡◌, refl, some, List, [], ◌∷◌, arith}
use hobbyos.Process.{ProcessState, proc, zero_process}
use hobbyos.Sched.{scheduler_add, schedule}
use hobbyos.Sched.Sample.{waiting, waiting-IsQueue}
use hobbyos.Sched.Queue.{IsQueue}
use hobbyos.Sched.Fifo.{returned, schedule_fifo}
use hobbyos.Sched.Again.{scheduler_add_again}

schedule_fifo_example :
    IsQueue (schedule waiting) (2 ∷ 0 ∷ [])
    × ((schedule waiting).current ≡ some 1)
    × ((proc (schedule waiting) 1).state ≡ ProcessState.running)
unfolding zero_process returned
schedule_fifo_example = schedule_fifo waiting 1 (2 ∷ []) waiting-IsQueue λ c e. ground arith

scheduler_add_again_example :
    ((proc (scheduler_add 2 waiting) 2).next ≡ some 2)
    × ((ys : List ℕ) → ¬ IsQueue (scheduler_add 2 waiting) ys)
unfolding zero_process
scheduler_add_again_example = scheduler_add_again waiting 1 2 refl refl (omega arith)
