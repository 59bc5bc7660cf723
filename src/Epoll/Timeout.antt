-- ===== src/Epoll/Timeout.antt =====
-- kernel/scheduler/scheduler.c, `scheduler_tick`: a process does not wait longer than its timeout.
use hobbyos.Base.{
  ℕ, zero, suc, ◌+◌, ◌-◌, ◌≤◌, ◌<◌, ◌^◌, ◌≡◌, ◌≢◌, ◌⊎◌, inl, inr, refl, sym, ◌∙◌, ap, subst, not,
  ◌||◌, Option, none, some, List, [], ◌∷◌, length, ==→eq, ==→ne, get_or, modify, ◌==◌, if_both,
  then_eq, else_eq, Bool-cases, get_or-modify_self, get_or-modify_ne, length-modify, arith,
}
use hobbyos.Process.{Process, ProcessState, Kernel, proc, set_proc, zero_process, max_processes}
use hobbyos.Sched.{scheduler_add, enqueue, link_tail, is_blocked}
use hobbyos.Epoll.{epoll_get}
use hobbyos.Epoll.Wait.{EpollWorld, ready_of, pool_of, set_kernel}
use hobbyos.Epoll.Tick.{
  tick_timeout, wake_epoll, tick_blocked, tick_process, tick_waiting, instance_ready,
}

-- What the timer reads of a process.
abbrev pub View : Type 0
View = ProcessState × Option ℕ × ℕ

abbrev pub view : Process → View
view p = (p.state, p.epoll_fd_idx, p.epoll_timeout_ticks)

keep_view :
    (ps : List Process) (j i : ℕ) (f : Process → Process)
    → ((p : Process) → view (f p) ≡ view p)
    → view (get_or (modify ps j f) i zero_process) ≡ view (get_or ps i zero_process)
keep_view [] j i f h = refl
keep_view (p ∷ ps) zero zero f h = h p
keep_view (p ∷ ps) zero (suc i) f h = refl
keep_view (p ∷ ps) (suc j) zero f h = refl
keep_view (p ∷ ps) (suc j) (suc i) f h = keep_view ps j i f h

view-enqueue :
    (h : Option ℕ) (j i : ℕ) (k : Kernel) → view (proc (enqueue h j k) i) ≡ view (proc k i)
unfolding enqueue link_tail
view-enqueue none j i k = refl
view-enqueue (some h) j i k = linked k.queue_tail
  where
    linked : (t : Option ℕ) → view (proc (link_tail t j k) i) ≡ view (proc k i)
    linked none = refl
    linked (some t) = keep_view k.table t i (λ p. record p { next = some j }) (λ p. refl)

-- A process that is woken is ready, and no other process changes.
wake_view : (j i : ℕ) (k : Kernel) → j ≢ i → view (proc (wake_epoll j k) i) ≡ view (proc k i)
unfolding scheduler_add
wake_view j i k ne =
    view-enqueue k.queue_head j i _
    ∙ ap view (get_or-modify_ne (modify k.table j _) j i _ zero_process ne)
    ∙ ap view (get_or-modify_ne k.table j i _ zero_process ne)

wake_self :
    (i : ℕ) (k : Kernel) → i < length k.table → (proc (wake_epoll i k) i).state ≡ ProcessState.ready
unfolding scheduler_add
wake_self i k lt =
    let g = λ (p : Process). record p { epoll_fd_idx = none; state = ProcessState.ready } in
    ap (λ (v : View). v.0) (view-enqueue k.queue_head i i _)
    ∙ ap (λ (p : Process). p.state)
        (get_or-modify_self (modify k.table i g) i _ zero_process
          (subst (λ n. i < n) (sym (length-modify k.table i g)) lt))

-- The rounds for other processes.
blocked_other :
    (j i e : ℕ) (w : EpollWorld)
    → j ≢ i
    → view (proc (tick_blocked j e w).files.kernel i) ≡ view (proc w.files.kernel i)
unfolding tick_blocked
blocked_other j i e w ne =
    let ticks = tick_timeout (proc w.files.kernel j).epoll_timeout_ticks in
    let w' = set_kernel (set_proc j (λ p. record p { epoll_timeout_ticks = ticks })) w in
    let less = ap view (
      get_or-modify_ne w.files.kernel.table j i (λ p. record p { epoll_timeout_ticks = ticks })
        zero_process ne) in
    if_both (λ (v : EpollWorld). view (proc v.files.kernel i) ≡ view (proc w.files.kernel i))
      ((ticks == 0) || instance_ready (ready_of j w') (epoll_get e (pool_of w')))
      (set_kernel (wake_epoll j) w') w' (wake_view j i w'.files.kernel ne ∙ less) less

process_other :
    (o : Option ℕ) (j i : ℕ) (w : EpollWorld)
    → j ≢ i
    → view (proc (tick_process o j w).files.kernel i) ≡ view (proc w.files.kernel i)
process_other none j i w ne = refl
process_other (some e) j i w ne =
    if_both (λ (v : EpollWorld). view (proc v.files.kernel i) ≡ view (proc w.files.kernel i))
      (not (is_blocked (proc w.files.kernel j).state)) w (tick_blocked j e w) refl
      (blocked_other j i e w ne)

enqueue_size : (h : Option ℕ) (j : ℕ) (k : Kernel) → length (enqueue h j k).table ≡ length k.table
unfolding enqueue link_tail
enqueue_size none j k = refl
enqueue_size (some h) j k = linked k.queue_tail
  where
    linked : (t : Option ℕ) → length (link_tail t j k).table ≡ length k.table
    linked none = refl
    linked (some t) = length-modify k.table t (λ p. record p { next = some j })

wake_size : (j : ℕ) (k : Kernel) → length (wake_epoll j k).table ≡ length k.table
unfolding scheduler_add
wake_size j k =
    enqueue_size k.queue_head j _
    ∙ length-modify (modify k.table j _) j _
    ∙ length-modify k.table j _

blocked_size :
    (j e : ℕ) (w : EpollWorld)
    → length (tick_blocked j e w).files.kernel.table ≡ length w.files.kernel.table
unfolding tick_blocked
blocked_size j e w =
    let ticks = tick_timeout (proc w.files.kernel j).epoll_timeout_ticks in
    let w' = set_kernel (set_proc j (λ p. record p { epoll_timeout_ticks = ticks })) w in
    let same =
      length-modify w.files.kernel.table j (λ p. record p { epoll_timeout_ticks = ticks }) in
    if_both (λ (v : EpollWorld). length v.files.kernel.table ≡ length w.files.kernel.table)
      ((ticks == 0) || instance_ready (ready_of j w') (epoll_get e (pool_of w')))
      (set_kernel (wake_epoll j) w') w' (wake_size j w'.files.kernel ∙ same) same

process_size :
    (o : Option ℕ) (j : ℕ) (w : EpollWorld)
    → length (tick_process o j w).files.kernel.table ≡ length w.files.kernel.table
process_size none j w = refl
process_size (some e) j w =
    if_both (λ (v : EpollWorld). length v.files.kernel.table ≡ length w.files.kernel.table)
      (not (is_blocked (proc w.files.kernel j).state)) w (tick_blocked j e w) refl
      (blocked_size j e w)

-- The process is ready, or its timeout is one tick less, and not yet over.
abbrev pub Nearer : ℕ → ℕ → ℕ → EpollWorld → Type 0
Nearer i e t w =
    ((proc w.files.kernel i).state ≡ ProcessState.ready)
    ⊎ ((view (proc w.files.kernel i) ≡ (ProcessState.blocked, some e, t - 1)) × (0 < t - 1))

blocked_self :
    (i e t : ℕ) (w : EpollWorld)
    → i < length w.files.kernel.table
    → t < 2 ^ 64 - 1
    → view (proc w.files.kernel i) ≡ (ProcessState.blocked, some e, t)
    → Nearer i e t (tick_blocked i e w)
unfolding tick_blocked
blocked_self i e t w lt finite waits =
    let ticks = tick_timeout (proc w.files.kernel i).epoll_timeout_ticks in
    let f = λ (p : Process). record p { epoll_timeout_ticks = ticks } in
    let w' = set_kernel (set_proc i f) w in
    let test = (ticks == 0) || instance_ready (ready_of i w') (epoll_get e (pool_of w')) in
    let fewer : ticks ≡ t - 1 =
      ap (λ (v : View). tick_timeout v.2) waits ∙ ground (arith, finite) in
    let now : view (proc w'.files.kernel i) ≡ (ProcessState.blocked, some e, t - 1) =
      ap view (get_or-modify_self w.files.kernel.table i f zero_process lt)
      ∙ ap (λ (v : View). (v.0, v.1, ticks)) waits
      ∙ ap (λ (n : ℕ). (ProcessState.blocked, some e, n)) fewer in
    let size = subst (λ n. i < n) (sym (length-modify w.files.kernel.table i f)) lt in
    elim (Bool-cases test) [
      | inl wakes ↦
          subst (Nearer i e t) (sym (then_eq test (set_kernel (wake_epoll i) w') w' wakes))
            (inl (wake_self i w'.files.kernel size))
      | inr stays ↦
          subst (Nearer i e t) (sym (else_eq test (set_kernel (wake_epoll i) w') w' stays))
            (inr (now, ground (arith, stays, fewer)))
    ]

process_self :
    (o : Option ℕ) (i e t : ℕ) (w : EpollWorld)
    → o ≡ some e
    → i < length w.files.kernel.table
    → t < 2 ^ 64 - 1
    → view (proc w.files.kernel i) ≡ (ProcessState.blocked, some e, t)
    → Nearer i e t (tick_process o i w)
process_self o i e t w at lt finite waits =
    let blocked = ap (λ (v : View). not (is_blocked v.0)) waits in
    subst (λ o. Nearer i e t (tick_process o i w)) (sym at)
      (subst (Nearer i e t)
        (sym
          (else_eq (not (is_blocked (proc w.files.kernel i).state)) w (tick_blocked i e w) blocked))
        (blocked_self i e t w lt finite waits))

-- The rounds behind the one for `i`.
later_rounds :
    (left j i : ℕ) (w : EpollWorld)
    → i < j
    → view (proc (tick_waiting left j w).files.kernel i) ≡ view (proc w.files.kernel i)
unfolding tick_waiting
later_rounds zero j i w lt = refl
later_rounds (suc left) j i w lt =
    later_rounds left (j + 1) i (tick_process (proc w.files.kernel j).epoll_fd_idx j w)
      (omega (arith, lt))
    ∙ process_other (proc w.files.kernel j).epoll_fd_idx j i w (omega (arith, lt))

Nearer-view :
    (i e t : ℕ) (w w' : EpollWorld)
    → view (proc w'.files.kernel i) ≡ view (proc w.files.kernel i)
    → Nearer i e t w
    → Nearer i e t w'
Nearer-view i e t w w' same (inl ready) = inl (ap (λ (v : View). v.0) same ∙ ready)
Nearer-view i e t w w' same (inr waits) = inr (same ∙ waits.0, waits.1)

all_rounds :
    (left j i e t : ℕ) (w : EpollWorld)
    → j ≤ i
    → i < j + left
    → i < length w.files.kernel.table
    → t < 2 ^ 64 - 1
    → view (proc w.files.kernel i) ≡ (ProcessState.blocked, some e, t)
    → Nearer i e t (tick_waiting left j w)
unfolding tick_waiting
all_rounds zero j i e t w le lt size finite waits = absurd (omega (arith, le, lt))
all_rounds (suc left) j i e t w le lt size finite waits =
    let next = tick_process (proc w.files.kernel j).epoll_fd_idx j w in
    let more = all_rounds left (j + 1) i e t next in
    elim (Bool-cases (j == i)) [
      | inl here ↦
          (let at = ==→eq j i here in
            let self =
              process_self (proc w.files.kernel i).epoll_fd_idx i e t w
                (ap (λ (v : View). v.1) waits) size finite waits in
            Nearer-view i e t next (tick_waiting left (j + 1) next)
              (later_rounds left (j + 1) i next (omega (arith, at)))
              (subst (λ k. Nearer i e t (tick_process (proc w.files.kernel k).epoll_fd_idx k w))
                (sym at) self))
      | inr away ↦
          (let ne = ==→ne j i away in
            more (omega (arith, le, ne)) (omega (arith, lt))
              (subst (λ n. i < n) (sym (process_size (proc w.files.kernel j).epoll_fd_idx j w))
                size)
              finite (process_other (proc w.files.kernel j).epoll_fd_idx j i w ne ∙ waits))
    ]

-- The timer's loop brings a process of the table that waits in SYS_EPOLL_WAIT with a finite timeout
-- nearer to its end: it is ready afterwards, or its timeout is one tick less and at least one tick.
pub tick_waiting-Nearer :
    (i e t : ℕ) (w : EpollWorld)
    → i < max_processes
    → i < length w.files.kernel.table
    → t < 2 ^ 64 - 1
    → view (proc w.files.kernel i) ≡ (ProcessState.blocked, some e, t)
    → Nearer i e t (tick_waiting max_processes 0 w)
tick_waiting-Nearer i e t w lt size finite waits =
    all_rounds max_processes 0 i e t w (omega arith) (omega (arith, lt)) size finite waits
