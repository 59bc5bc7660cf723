-- ===== src/Tcp/Keep.antt =====
-- The timers and the calls keep the invariant of the connection table.
use hobbyos.Base.{
  ◌&&◌, ◌||◌, ℕ, zero, suc, ◌+◌, ◌-◌, ◌≡◌, false, List, [], ◌∷◌, ltb, ◌==◌, if◌then◌else◌, length,
  All, arith, Bool-cases, inl, inr,
}
use hobbyos.Process.{Kernel}
use hobbyos.Signal.{signal_has_fatal}
use hobbyos.Ring.Transfer.{copy_out_lem}
use hobbyos.Tcp.{
  Tcp, TcpState, Conn, conn, set_conn, tcp_rx_buf_size, is_established, is_close_wait,
}
use hobbyos.Tcp.Timer.{resend, give_up, retransmit, time_out, linger, tick_conn, tick_from}
use hobbyos.Tcp.Calls.{
  Others, Outcome, tcp_connect, accept_first, accept_loop, send_chunk, send_loop, tcp_send,
  recv_now, recv_loop, close_as, must_wait, sleep_accepter, sleep_reader,
}
use hobbyos.Tcp.Inv.{
  IsConn, IsTcp, conn-IsConn, kept, kept_at, if-IsTcp, send_segment-IsTcp, wake_reader-IsTcp,
  wake_writer-IsTcp,
}

-- The invariant does not speak of the rest of the kernel.
same_conns : (n : Tcp) (k : Kernel) → IsTcp n → IsTcp (record n { kernel = k })
same_conns n k t = record { each = t.each }

linger-IsConn : (c : Conn) → IsConn c → IsConn (linger c)
linger-IsConn c h =
    elim (Bool-cases ((if c.retransmit_timer == 0 then 200 else c.retransmit_timer) - 1 == 0)) [
      | inl e ↦ rw e (record { rx = h.rx; queue = h.queue })
      | inr e ↦ rw e (record { rx = h.rx; queue = h.queue })
    ]

resend-IsTcp : (i : ℕ) (n : Tcp) → IsTcp n → IsTcp (resend i n)
unfolding resend
resend-IsTcp i n t =
    kept _ i _
      (send_segment-IsTcp i _ _ _ (kept n i _ t (λ c h. record { rx = h.rx; queue = h.queue })))
      (λ c h. record { rx = h.rx; queue = h.queue })

give_up-IsTcp : (i : ℕ) (n : Tcp) → IsTcp n → IsTcp (give_up i n)
unfolding give_up
give_up-IsTcp i n t = wake_writer-IsTcp i _ (
    wake_reader-IsTcp i _ (
      kept _ i _
        (send_segment-IsTcp i _ [] _ (kept n i _ t (λ c h. record { rx = h.rx; queue = h.queue })))
        (λ c h. record { rx = h.rx; queue = h.queue })))

retransmit-IsTcp : (i : ℕ) (n : Tcp) → IsTcp n → IsTcp (retransmit i n)
unfolding retransmit
retransmit-IsTcp i n t =
    let n' =
      set_conn i (λ (c' : Conn). record c' { retransmit_timer = c'.retransmit_timer - 1 }) n in
    let t' : IsTcp n' = kept n i _ t (λ c h. record { rx = h.rx; queue = h.queue }) in
    let c = conn n i in
    if-IsTcp (ltb 0 c.retransmit_len && ltb 0 c.retransmit_timer) _ _
      (if-IsTcp (c.retransmit_timer - 1 == 0) _ _
        (if-IsTcp (ltb c.retransmit_count 3) _ _ (resend-IsTcp i n' t') (give_up-IsTcp i n' t')) t')
      t

tick_conn-IsTcp : (i : ℕ) (n : Tcp) → IsTcp n → IsTcp (tick_conn i n)
unfolding tick_conn time_out
tick_conn-IsTcp i n t =
    let t' = retransmit-IsTcp i n t in
    if-IsTcp _ _ _ t (if-IsTcp _ _ _ (kept _ i linger t' linger-IsConn) t')

pub tick_from-IsTcp : (left i : ℕ) (n : Tcp) → IsTcp n → IsTcp (tick_from left i n)
unfolding tick_from
tick_from-IsTcp zero i n t = t
tick_from-IsTcp (suc left) i n t = tick_from-IsTcp left (i + 1) _ (tick_conn-IsTcp i n t)

send_loop-IsTcp :
    (fuel i : ℕ) (bytes : List ℕ) (n : Tcp) → IsTcp n → IsTcp (send_loop fuel i bytes n)
unfolding send_loop send_chunk
send_loop-IsTcp zero i bytes n t = t
send_loop-IsTcp (suc fuel) i [] n t = t
send_loop-IsTcp (suc fuel) i (b ∷ bs) n t =
    send_loop-IsTcp fuel i _ _
      (send_segment-IsTcp i _ _ _ (kept n i _ t (λ c h. record { rx = h.rx; queue = h.queue })))

pub close_as-IsTcp : (st : TcpState) (i : ℕ) (n : Tcp) → IsTcp n → IsTcp (close_as st i n)
unfolding close_as
close_as-IsTcp TcpState.established i n t =
    send_segment-IsTcp i _ [] _ (kept n i _ t (λ c h. record { rx = h.rx; queue = h.queue }))
close_as-IsTcp TcpState.close_wait i n t =
    send_segment-IsTcp i _ [] _ (kept n i _ t (λ c h. record { rx = h.rx; queue = h.queue }))
close_as-IsTcp TcpState.listen i n t = kept n i _ t (λ c h. record { rx = h.rx; queue = h.queue })
close_as-IsTcp TcpState.syn_sent i n t = kept n i _ t (λ c h. record { rx = h.rx; queue = h.queue })
close_as-IsTcp TcpState.closed i n t = t
close_as-IsTcp TcpState.syn_received i n t = t
close_as-IsTcp TcpState.fin_wait_1 i n t = t
close_as-IsTcp TcpState.fin_wait_2 i n t = t
close_as-IsTcp TcpState.last_ack i n t = t
close_as-IsTcp TcpState.time_wait i n t = t

-- What others do while a process sleeps keeps the invariant.
abbrev pub Keeps : Others → Type 0
Keeps others = (n : Tcp) → IsTcp n → IsTcp (others n)

abbrev pub state_of {ℓ} : {A : Type ℓ} → Outcome A → Tcp
state_of (Outcome.failed n) = n
state_of (Outcome.returned a n) = n
state_of (Outcome.asleep n) = n

accept_first-IsTcp :
    (i : ℕ) (n : Tcp)
    → IsTcp n
    → ((conn n i).accept_count == 0) ≡ false
    → IsTcp (accept_first i n).1
unfolding accept_first
accept_first-IsTcp i n t some_left = kept_at n i _ t (λ h. record {
  rx = h.rx;
  queue = record {
    size = h.queue.size;
    reader = omega arith;
    fits = omega (arith, h.queue.fits);
    writer = ground (arith, h.queue.writer, some_left, h.queue.reader);
  };
})

recv_now-IsTcp : (i len : ℕ) (n : Tcp) → IsTcp n → IsTcp (recv_now i len n).1
unfolding recv_now
recv_now-IsTcp i len n t =
    let c = conn n i in
    let h = conn-IsConn n i t in
    let wanted = if ltb len c.rx_count then len else c.rx_count in
    let (out, rest, ring) =
      copy_out_lem tcp_rx_buf_size c.rx_buf c.rx_read_pos c.rx_write_pos c.rx_count h.rx wanted
        (ground arith) in
    elim (Bool-cases (c.rx_count == 0)) [
      | inl e ↦ rw e t
      | inr e ↦ rw e (kept_at n i _ t (λ g. record { rx = ring; queue = g.queue }))
    ]

pub block_accepter-IsTcp : (i : ℕ) (n : Tcp) → IsTcp n → IsTcp (sleep_accepter i n)
block_accepter-IsTcp i n t = same_conns _ _ (
    kept n i (λ c. record c { blocked_accepter = n.kernel.current }) t
      (λ c h. record { rx = h.rx; queue = h.queue }))

pub block_reader-IsTcp : (i : ℕ) (n : Tcp) → IsTcp n → IsTcp (sleep_reader i n)
block_reader-IsTcp i n t = same_conns _ _ (
    kept n i (λ c. record c { blocked_reader = n.kernel.current }) t
      (λ c h. record { rx = h.rx; queue = h.queue }))

pub accept_loop-IsTcp :
    (es : List Others) (i : ℕ) (n : Tcp)
    → All Keeps es
    → IsTcp n
    → IsTcp (state_of (accept_loop es i n))
unfolding accept_loop
accept_loop-IsTcp [] i n keep t = elim (Bool-cases ((conn n i).accept_count == 0)) [
  | inl e ↦ elim (Bool-cases (signal_has_fatal n.kernel.current n.kernel)) [
    | inl f ↦ rw (e, f) t
    | inr f ↦ rw (e, f) (block_accepter-IsTcp i n t)
  ]
  | inr e ↦ rw e (accept_first-IsTcp i n t e)
]
accept_loop-IsTcp (others ∷ es) i n keep t = elim (Bool-cases ((conn n i).accept_count == 0)) [
  | inl e ↦ elim (Bool-cases (signal_has_fatal n.kernel.current n.kernel)) [
    | inl f ↦ rw (e, f) t
    | inr f ↦ rw (e, f) (accept_loop-IsTcp es i _ keep.1 (keep.0 _ (block_accepter-IsTcp i n t)))
  ]
  | inr e ↦ rw e (accept_first-IsTcp i n t e)
]

pub recv_loop-IsTcp :
    (es : List Others) (i len : ℕ) (n : Tcp)
    → All Keeps es
    → IsTcp n
    → IsTcp (state_of (recv_loop es i len n))
unfolding recv_loop
recv_loop-IsTcp [] i len n keep t = elim (Bool-cases (must_wait (conn n i))) [
  | inl e ↦ elim (Bool-cases (signal_has_fatal n.kernel.current n.kernel)) [
    | inl f ↦ rw (e, f) t
    | inr f ↦ rw (e, f) (block_reader-IsTcp i n t)
  ]
  | inr e ↦ rw e (recv_now-IsTcp i len n t)
]
recv_loop-IsTcp (others ∷ es) i len n keep t = elim (Bool-cases (must_wait (conn n i))) [
  | inl e ↦ elim (Bool-cases (signal_has_fatal n.kernel.current n.kernel)) [
    | inl f ↦ rw (e, f) t
    | inr f ↦ rw (e, f) (recv_loop-IsTcp es i len _ keep.1 (keep.0 _ (block_reader-IsTcp i n t)))
  ]
  | inr e ↦ rw e (recv_now-IsTcp i len n t)
]

pub connect-IsTcp :
    (others : Others) (i ip port own : ℕ) (n : Tcp)
    → Keeps others
    → IsTcp n
    → IsTcp (tcp_connect others i ip port own n).1
unfolding tcp_connect
connect-IsTcp others i ip port own n keep t = keep _ (
    same_conns _ _ (
      kept _ i _
        (send_segment-IsTcp i _ [] _ (kept n i _ t (λ c h. record { rx = h.rx; queue = h.queue })))
        (λ c h. record { rx = h.rx; queue = h.queue })))

pub send-IsTcp : (i : ℕ) (bytes : List ℕ) (n : Tcp) → IsTcp n → IsTcp (tcp_send i bytes n).1
unfolding tcp_send
send-IsTcp i bytes n t =
    elim (Bool-cases (is_established (conn n i).state || is_close_wait (conn n i).state)) [
      | inl e ↦ rw e (send_loop-IsTcp (length bytes) i bytes n t)
      | inr e ↦ rw e t
    ]
