-- ===== src/Signal/Handler.antt =====
-- The choice of a signal's action.
use hobbyos.Base.{
  ℕ, ◌<◌, ◌≡◌, refl, ap, ◌∙◌, true, false, ◌||◌, not, ltb, ◌==◌, if◌then◌else◌, length, get_or, set,
  get_or-set, get_or-modify_self, arith, Bool-cases, inl, inr, ◌&&◌,
}
use hobbyos.Process.{Process, Kernel, proc, set_proc, zero_process}
use hobbyos.Signal.{
  InterruptFrame, Action, action_of, sys_sigaction, sig_ign, sig_dfl, sigchld, is_deadly,
}

-- The actions follow from the handlers alone.
same_handler :
    (p q : Process) (n : ℕ)
    → get_or p.sig_handlers n 0 ≡ get_or q.sig_handlers n 0
    → action_of p n ≡ action_of q n
unfolding action_of
same_handler p q n e =
    let choose : ℕ → Action = λ handler.
      (if handler == sig_ign
        then Action.ignore
        else if handler == sig_dfl
        then if n == sigchld
          then Action.ignore
          else if is_deadly n
          then Action.terminate
          else Action.terminate_unknown
        else Action.call handler) in
    ap choose e

calls_handler :
    (p : Process) (n handler : ℕ)
    → get_or p.sig_handlers n 0 ≡ handler
    → 1 < handler
    → action_of p n ≡ Action.call handler
unfolding action_of
calls_handler p n handler e address =
    let not_ign : (handler == 1) ≡ false = ground (arith, address) in
    let not_dfl : (handler == 0) ≡ false = ground (arith, address) in
    rw e (rw (not_ign, not_dfl) refl)

-- SYS_SIGACTION of any signal and handler leaves what SIGKILL does; and for a signal that it accepts
-- and a handler that is an address, not SIG_DFL or SIG_IGN, the signal calls the handler afterwards.
pub sigaction_lem :
    (i sig handler : ℕ) (f : InterruptFrame) (k : Kernel)
    → i < length k.table
    → length (proc k i).sig_handlers ≡ 32
    → 1 < handler
    → (let (f', k') = sys_sigaction i sig handler f k in
        (action_of (proc k' i) 9 ≡ action_of (proc k i) 9)
        × (action_of (proc k' i) sig ≡ (
            if ltb 0 sig && ltb sig 32 && not (sig == 9)
            then Action.call handler
            else action_of (proc k i) sig)))
unfolding sys_sigaction
sigaction_lem i sig handler f k inside size address =
    let p = proc k i in
    let change : Process → Process =
      λ q. record q { sig_handlers = set q.sig_handlers sig handler } in
    let now : proc (set_proc i change k) i ≡ change p =
      get_or-modify_self k.table i change zero_process inside in
    elim (Bool-cases (ltb sig 1 || not (ltb sig 32) || (sig == 9))) [
      | inl refused ↦
          (let bad : (ltb 0 sig && ltb sig 32 && not (sig == 9)) ≡ false =
              ground (arith, refused) in
            rw (refused, bad) (refl, refl))
      | inr accepted ↦
          (let good : (ltb 0 sig && ltb sig 32 && not (sig == 9)) ≡ true =
              ground (arith, accepted) in
            let at = get_or-set p.sig_handlers sig in
            let valid : sig < length p.sig_handlers = ground (arith, accepted, size) in
            rw (accepted, good)
              (
                same_handler _ p 9 (
                    ap (λ (q : Process). get_or q.sig_handlers 9 0) now
                    ∙ ground (arith, at 9 handler 0 valid, accepted)),
                calls_handler _ sig handler
                    (ap (λ (q : Process). get_or q.sig_handlers sig 0) now
                      ∙ ground (arith, at sig handler 0 valid))
                    address,
              ))
    ]
