-- ===== src/Signal/Send.antt =====
-- The sending of a signal, and the return from a handler.
use hobbyos.Base.{
  ℕ, zero, suc, ◌-◌, ◌^◌, ◌<◌, ◌≡◌, refl, ap, ◌∙◌, true, false, ◌&&◌, ◌||◌, not, some, List, [],
  ◌∷◌, ◌++◌, ltb, ◌==◌, bit_or, bit_and, if◌then◌else◌, arith, length, length-modify, modify-modify,
  get_or-modify_self, get_or-modify_keeps, ◌/◌, Bool-cases, inl, inr, append-nil,
}
use hobbyos.Base.Words.{flag, bit_and-zero, bit_or_step, bit_and_step}
use native.Mathlib.Nat.{pow-suc}
use hobbyos.Process.{Process, ProcessState, Kernel, proc, set_proc, zero_process}
use hobbyos.Sched.{set_state, is_blocked, is_unused, is_terminated}
use hobbyos.Sched.Queue.{IsQueue, has, Linked-keep}
use hobbyos.Sched.Fifo.{scheduler_add-append, set_proc-IsQueue, Linked-ready, scheduler_add-keeps}
use hobbyos.ProcessTable.{process_get_by_pid}
use hobbyos.Signal.{
  InterruptFrame, Action, act, save_frame, signal_send, send_to, restore_frame, sys_sigreturn,
  signal_has_fatal, fatal_at, make_ready,
}
use hobbyos.Signal.Pending.{flag-set}

-- A handler that is called with `sys_sigreturn` at its end gives the program back its instruction
-- and stack pointers, its flags and rax, rdi, rsi and rdx, whatever they are when the handler ends,
-- and the process can be given the next signal. The other registers stay as the handler left them.
pub sigreturn_restores :
    (i sig handler : ℕ) (rest : InterruptFrame × Kernel) (f g : InterruptFrame) (k : Kernel)
    → i < length k.table
    → (let (entered, k1) = act i sig (Action.call handler) rest f k in
        (entered.rip ≡ handler)
        × (entered.rdi ≡ sig)
        × (sys_sigreturn i g k1 ≡ (
          record g {
            rip = f.rip;
            rsp = f.rsp;
            rflags = f.rflags;
            rax = f.rax;
            rdi = f.rdi;
            rsi = f.rsi;
            rdx = f.rdx;
          },
          set_proc i (λ p. record (save_frame f p) { in_signal_handler = false }) k,
        )))
unfolding act sys_sigreturn
sigreturn_restores i sig handler rest f g k hi =
    let K = set_proc i (save_frame f) k in
    let body : Process → InterruptFrame × Kernel = λ p.
      (if p.in_signal_handler
        then (
          restore_frame p.sig_saved g,
          set_proc i (λ (q : Process). record q { in_signal_handler = false }) K,
        )
        else (record g { rax = 2 ^ 64 - 1 }, K)) in
    (
      refl,
      refl,
      ap body (get_or-modify_self k.table i (save_frame f) zero_process hi)
          ∙ ap (λ t. (restore_frame (save_frame f (proc k i)).sig_saved g, record k { table = t }))
              (modify-modify k.table i (save_frame f)
                (λ (q : Process). record q { in_signal_handler = false })),
    )

-- A mask of two parts.
bit_and-zero_or :
    (fuel w a b : ℕ)
    → a < 2 ^ fuel
    → b < 2 ^ fuel
    → (bit_and w (bit_or a b) == 0) ≡ ((bit_and w a == 0) && (bit_and w b == 0))
bit_and-zero_or zero w a b ha hb =
    let a0 : a ≡ 0 = omega (arith, ha) in
    let b0 : b ≡ 0 = omega (arith, hb) in rw (a0, b0) (rw (bit_and-zero w) refl)
bit_and-zero_or (suc n) w a b ha hb =
    let half : bit_or a b / 2 ≡ bit_or (a / 2) (b / 2) = omega (arith, bit_or_step a b) in
    let rest =
      bit_and-zero_or n (w / 2) (a / 2) (b / 2) (omega (arith, pow-suc 2 n, ha))
        (omega (arith, pow-suc 2 n, hb)) in
    ground (
      arith,
      bit_and_step w (bit_or a b),
      bit_and_step w a,
      bit_and_step w b,
      rw (← half) at rest,
      bit_or_step a b,
    )

-- `signal_has_fatal` tells whether SIGINT, SIGKILL or SIGTERM is pending, and nothing else.
pub has_fatal_lem :
    (i : ℕ) (k : Kernel)
    → (let w = (proc k i).sig_pending in
        signal_has_fatal (some i) k ≡ (flag w 2 || flag w 9 || flag w 15))
unfolding signal_has_fatal fatal_at
has_fatal_lem i k =
    let w = (proc k i).sig_pending in
    ground (
      arith,
      bit_and-zero_or 16 w (bit_or (2 ^ 2) (2 ^ 9)) (2 ^ 15) (omega arith) (omega arith),
      bit_and-zero_or 16 w (2 ^ 2) (2 ^ 9) (omega arith) (omega arith),
    )

abbrev pub tail_of : Process → ℕ → List ℕ
tail_of p t = if is_blocked p.state then t ∷ [] else []

-- What a process that is sent a signal becomes, but for its place in a queue.
module _ (sig pid t : ℕ) (k : Kernel) (hs : 0 < sig) (hi : sig < 32) (inside : t < length k.table)
    (found : process_get_by_pid pid k ≡ some t) (live : is_unused (proc k t).state ≡ false)
    (stays : is_terminated (proc k t).state ≡ false) where
  abbrev marked : Kernel
  marked = set_proc t (λ p. record p { sig_pending = bit_or p.sig_pending (2 ^ sig) }) k

  marked_at :
      proc marked t
      ≡ (let p = proc k t in record p { sig_pending = bit_or p.sig_pending (2 ^ sig) })
  marked_at = get_or-modify_self k.table t _ zero_process inside

  sent :
      signal_send pid sig k ≡ (if is_blocked (proc k t).state then make_ready t marked else marked)
  unfolding signal_send send_to
  sent =
      let valid : (ltb sig 1 || not (ltb sig 32)) ≡ false = ground (arith, hs, hi) in
      rw (valid, found, live, stays)
        (ap (λ (p : Process). if is_blocked p.state then make_ready t marked else marked) marked_at)

  joined : ℕ
  joined = bit_or (proc k t).sig_pending (2 ^ sig)

  marks :
      (w : ℕ)
      → w ≡ joined
      → (j : ℕ) → j < 32
      → flag w j ≡ ((sig == j) || flag (proc k t).sig_pending j)
  unfolding joined
  marks w e j hj = rw e (flag-set sig j hi hj (proc k t).sig_pending)

  marked-IsQueue : (q : List ℕ) → IsQueue k q → IsQueue marked q
  marked-IsQueue q queue = record {
    linked = Linked-keep k.table t _ q k.queue_head (λ p. refl) (λ p. refl) queue.linked;
    tail = queue.tail;
    distinct = queue.distinct;
  }

  blocked_outside :
      (q : List ℕ) → IsQueue k q → is_blocked (proc k t).state ≡ true → has t q ≡ false
  blocked_outside q queue b = elim (Bool-cases (has t q)) [
    | inl h ↦
        (let ready = Linked-ready k.table q k.queue_head t queue.linked h in
          absurd (ground (arith, rw ready at b)))
    | inr h ↦ h
  ]

  woken-IsQueue :
      (q : List ℕ)
      → IsQueue k q
      → is_blocked (proc k t).state ≡ true
      → IsQueue (make_ready t marked) (q ++ (t ∷ []))
  woken-IsQueue q queue b =
      let out = blocked_outside q queue b in
      scheduler_add-append (set_state t ProcessState.ready marked) t q
        (set_proc-IsQueue marked t _ q (marked-IsQueue q queue) out)
        (rw (length-modify, length-modify) inside) out

  woken_pending : (proc (make_ready t marked) t).sig_pending ≡ joined
  unfolding joined
  woken_pending =
      scheduler_add-keeps (λ (p : Process). p.sig_pending) (λ s n p. refl) t t
        (set_state t ProcessState.ready marked)
      ∙ get_or-modify_keeps (λ (p : Process). p.sig_pending) marked.table t t
          (λ (p : Process). record p { state = ProcessState.ready }) zero_process (λ p. refl)
      ∙ ap (λ (p : Process). p.sig_pending) marked_at

  -- Of the signals below 32 the one that is sent becomes pending, and the others are as they were.
  -- A target that is blocked goes to the end of the ready queue; any other keeps its place.
  pub signal_send_lem :
      (q : List ℕ) (j : ℕ)
      → IsQueue k q
      → j < 32
      → (let k' = signal_send pid sig k in
          IsQueue k' (q ++ tail_of (proc k t) t)
          × (flag (proc k' t).sig_pending j ≡ ((sig == j) || flag (proc k t).sig_pending j)))
  unfolding joined
  signal_send_lem q j queue hj = rw sent (elim (Bool-cases (is_blocked (proc k t).state)) [
    | inl b ↦ rw b (woken-IsQueue q queue b, marks _ woken_pending j hj)
    | inr b ↦
        rw (b, append-nil)
          (marked-IsQueue q queue, marks _ (ap (λ (p : Process). p.sig_pending) marked_at) j hj)
  ])
