-- ===== src/Tcp/Taken.antt =====
-- What `tcp_accept` returns.
use hobbyos.Base.{
  ℕ, suc, ◌+◌, ◌-◌, ◌%◌, ◌<◌, ◌≡◌, refl, sym, ap, ◌∙◌, true, false, List, [], ◌∷◌, modify, ◌==◌,
  length, get_or, get_or-modify_self, length-modify, All, arith, ==→eq, Bool-cases, inl, inr,
}
use hobbyos.Sched.Blocked.{Blocks}
use hobbyos.Signal.{signal_has_fatal}
use hobbyos.Ring.Window.{window}
use hobbyos.Tcp.{Tcp, Conn, conn, zero_conn, tcp_accept_queue, tcp_max_conns, is_listen}
use hobbyos.Tcp.Calls.{
  Others, Outcome, accept_first, accept_loop, tcp_accept, sleep_accepter, ended,
}
use hobbyos.Tcp.Inv.{IsTcp}
use hobbyos.Tcp.Keep.{block_accepter-IsTcp}
use hobbyos.Tcp.Recv.{Stays, give_way-Blocks}
use hobbyos.Tcp.Accept.{queued}

-- A process sleeps on the listening connection `i` of `n`, whose queue is empty, when no deadly signal
-- is pending: `v` is what it leaves.
pub record AccepterSleeps (i : ℕ) (n v : Tcp) : Type 0 where
  pub empty : (conn n i).accept_count ≡ 0
  pub undisturbed : signal_has_fatal n.kernel.current n.kernel ≡ false
  pub waits : v ≡ record n {
    conns = modify n.conns i (λ c. record c { blocked_accepter = n.kernel.current });
    kernel = v.kernel;
  }
  pub blocked : Blocks n.kernel.current n.kernel v.kernel

-- From `n` a call of `tcp_accept` sleeps, others run, and so on, up to the state `u`; `rest` is what
-- is left of the others.
pub data AcceptsUpTo (i : ℕ) : List Others → Tcp → List Others → Tcp → Type 0 where
  here : {es : List Others} {n : Tcp} → AcceptsUpTo i es n es n
  after_sleep :
      {others : Others} {es rest : List Others} {n u : Tcp} (v : Tcp)
      → AccepterSleeps i n v
      → AcceptsUpTo i es (others v) rest u
      → AcceptsUpTo i (others ∷ es) n rest u

-- How a call of `tcp_accept` on a listening connection ends from `n` on, in a state `u` that it comes
-- to by its sleeps: with -1 a deadly signal is pending there, and the queue is empty; otherwise it
-- takes the connection that has waited longest in `u`, and the others stay in order; and it sleeps
-- only on an empty queue, when the others have run as often as they do.
abbrev pub AcceptOk : ℕ → List Others → Tcp → Outcome ℕ → Type 0
AcceptOk i es n (Outcome.failed u) =
    (rest : List Others) × AcceptsUpTo i es n rest u
    × ((conn u i).accept_count ≡ 0)
    × (signal_has_fatal u.kernel.current u.kernel ≡ true)
AcceptOk i es n (Outcome.returned j n') =
    (rest : List Others) × (u : Tcp) × AcceptsUpTo i es n rest u
    × IsTcp u
    × (queued (conn u i) ≡ j ∷ queued (conn n' i))
AcceptOk i es n (Outcome.asleep v) = (u : Tcp) × AcceptsUpTo i es n [] u × AccepterSleeps i u v

accept_first-AcceptOk :
    (es : List Others) (i : ℕ) (n : Tcp)
    → IsTcp n
    → i < length n.conns
    → ((conn n i).accept_count == 0) ≡ false
    → AcceptOk i es n (ended (accept_first i n))
unfolding accept_first window
accept_first-AcceptOk es i n t inside some_left =
    let c = conn n i in
    let next : Conn → Conn = λ c. record c {
      accept_head = (c.accept_head + 1) % tcp_accept_queue;
      accept_count = c.accept_count - 1;
    } in
    let one_more : c.accept_count ≡ suc (c.accept_count - 1) = ground (arith, some_left) in
    (
      es,
      n,
      AcceptsUpTo.here,
      t,
      ap (λ m. window 4 c.accept_queue c.accept_head m) one_more
          ∙ ap (λ q. get_or c.accept_queue c.accept_head 0 ∷ q)
              (sym (ap queued (get_or-modify_self n.conns i next zero_conn inside))),
    )

accepter_sleeps :
    (i : ℕ) (n : Tcp)
    → ((conn n i).accept_count == 0) ≡ true
    → signal_has_fatal n.kernel.current n.kernel ≡ false
    → AccepterSleeps i n (sleep_accepter i n)
accepter_sleeps i n e f = record {
  empty = ==→eq _ 0 e;
  undisturbed = f;
  waits = refl;
  blocked = give_way-Blocks n.kernel.current n.kernel;
}

-- What holds after a sleep holds of the call that slept.
slept-AcceptOk :
    (others : Others) (es : List Others) (i : ℕ) (n v : Tcp)
    → AccepterSleeps i n v
    → (r : Outcome ℕ) → AcceptOk i es (others v) r
    → AcceptOk i (others ∷ es) n r
slept-AcceptOk others es i n v sleeps (Outcome.failed u) (rest, to, a, b) =
    (rest, AcceptsUpTo.after_sleep v sleeps to, a, b)
slept-AcceptOk others es i n v sleeps (Outcome.returned j n') (rest, u, to, a, b) =
    (rest, u, AcceptsUpTo.after_sleep v sleeps to, a, b)
slept-AcceptOk others es i n v sleeps (Outcome.asleep v') (u, to, a) =
    (u, AcceptsUpTo.after_sleep v sleeps to, a)

accept_loop-AcceptOk :
    (es : List Others) (i : ℕ) (n : Tcp)
    → All Stays es
    → IsTcp n
    → length n.conns ≡ tcp_max_conns
    → i < tcp_max_conns
    → AcceptOk i es n (accept_loop es i n)
unfolding accept_loop
accept_loop-AcceptOk [] i n keep t size inside = elim (Bool-cases ((conn n i).accept_count == 0)) [
  | inl e ↦ elim (Bool-cases (signal_has_fatal n.kernel.current n.kernel)) [
    | inl f ↦ rw (e, f) ([], AcceptsUpTo.here, ==→eq _ 0 e, f)
    | inr f ↦ rw (e, f) (n, AcceptsUpTo.here, accepter_sleeps i n e f)
  ]
  | inr e ↦ rw e (accept_first-AcceptOk [] i n t (rw size inside) e)
]
accept_loop-AcceptOk (others ∷ es) i n keep t size inside =
    elim (Bool-cases ((conn n i).accept_count == 0)) [
      | inl e ↦ elim (Bool-cases (signal_has_fatal n.kernel.current n.kernel)) [
        | inl f ↦ rw (e, f) (others ∷ es, AcceptsUpTo.here, ==→eq _ 0 e, f)
        | inr f ↦
            (let (t', size') =
                keep.0 (sleep_accepter i n) (block_accepter-IsTcp i n t)
                  (length-modify n.conns i _ ∙ size) in
              let rest =
                accept_loop-AcceptOk es i (others (sleep_accepter i n)) keep.1 t' size' inside in
              rw (e, f)
                (slept-AcceptOk others es i n (sleep_accepter i n) (accepter_sleeps i n e f) _
                  rest))
      ]
      | inr e ↦ rw e (accept_first-AcceptOk (others ∷ es) i n t (rw size inside) e)
    ]

-- A call on a connection that does not listen fails at once, and changes nothing; any other keeps the
-- promise.
pub data Accepts (i : ℕ) (es : List Others) (n : Tcp) : Outcome ℕ → Type 0 where
  refused : is_listen (conn n i).state ≡ false → Accepts i es n (Outcome.failed n)
  proceeds :
      {r : Outcome ℕ} → is_listen (conn n i).state ≡ true → AcceptOk i es n r → Accepts i es n r

-- tcp_accept on a table of 32 well-formed connections fails at once, with nothing changed, when
-- the connection does not listen. Otherwise, however often it sleeps and whatever others do
-- meanwhile to a table that stays so, it ends in a state that it comes to by its sleeps: each is
-- one on an empty queue, with no deadly signal pending, and blocks the process as the
-- connection's accepter. It takes the connection that has waited longest in that state, and the
-- others stay in order; or it fails, when a deadly signal is pending on an empty queue.
pub tcp_accept-Accepts :
    (es : List Others) (i : ℕ) (n : Tcp)
    → All Stays es
    → IsTcp n
    → length n.conns ≡ tcp_max_conns
    → i < tcp_max_conns
    → Accepts i es n (tcp_accept es i n)
unfolding tcp_accept
tcp_accept-Accepts es i n keep t size inside = elim (Bool-cases (is_listen (conn n i).state)) [
  | inl e ↦ rw e (Accepts.proceeds e (accept_loop-AcceptOk es i n keep t size inside))
  | inr e ↦ rw e (Accepts.refused e)
]
