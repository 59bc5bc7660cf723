-- ===== src/Sched/Blocked.antt =====
-- kernel/scheduler/scheduler.c: what a call that puts the current process to sleep does to it.
use hobbyos.Base.{ℕ, ◌≡◌, Option, none, some, modify}
use hobbyos.Process.{ProcessState, Kernel}
use hobbyos.Sched.{schedule}

-- In `k'` the current process `o` of `k` is blocked, and another one has been chosen.
abbrev pub Blocks : Option ℕ → Kernel → Kernel → Type 0
Blocks none k k' = k' ≡ schedule k
Blocks (some c) k k' =
    k'
    ≡ schedule
        (record k { table = modify k.table c (λ p. record p { state = ProcessState.blocked }) })
