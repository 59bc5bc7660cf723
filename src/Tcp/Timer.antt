-- ===== src/Tcp/Timer.antt =====
-- kernel/net/tcp.c: `tcp_tick`, the timers of the connections, 100 times a second.
use hobbyos.Base.{ℕ, zero, suc, ◌+◌, ◌-◌, ◌&&◌, false, [], ltb, ◌==◌, not, if◌then◌else◌, take}
use hobbyos.Tcp.{
  Tcp, Conn, TcpState, conn, set_conn, is_time_wait, tcp_ack_psh, tcp_rst, tcp_max_conns,
  tcp_send_segment, wake_reader, wake_writer,
}

-- The last chunk once more, under its own sequence number.
unfoldable pub resend : ℕ → Tcp → Tcp
resend i n =
    let c = conn n i in
    set_conn i
      (λ c'. record c' {
        snd_nxt = c.snd_nxt;
        retransmit_timer = 50;
        retransmit_count = c'.retransmit_count + 1;
      })
      (tcp_send_segment i tcp_ack_psh (take c.retransmit_len c.retransmit_data)
        (set_conn i (λ c'. record c' { snd_nxt = c.retransmit_seq }) n))

unfoldable pub give_up : ℕ → Tcp → Tcp
give_up i n = wake_writer i (
    wake_reader i (
      set_conn i (λ c. record c { state = TcpState.closed })
        (tcp_send_segment i tcp_rst [] (set_conn i (λ c. record c { retransmit_len = 0 }) n))))

unfoldable pub retransmit : ℕ → Tcp → Tcp
unfolding resend give_up
retransmit i n =
    let c = conn n i in
    if ltb 0 c.retransmit_len && ltb 0 c.retransmit_timer
    then (let n' = set_conn i (λ c. record c { retransmit_timer = c.retransmit_timer - 1 }) n in
        if c.retransmit_timer - 1 == 0
        then if ltb c.retransmit_count 3 then resend i n' else give_up i n'
        else n')
    else n

-- Two seconds in TIME_WAIT.
abbrev pub linger : Conn → Conn
linger c =
    let left = (if c.retransmit_timer == 0 then 200 else c.retransmit_timer) - 1 in
    if left == 0
    then record c { retransmit_timer = left; state = TcpState.closed; in_use = false }
    else record c { retransmit_timer = left }

unfoldable pub time_out : ℕ → Tcp → Tcp
time_out i n = if is_time_wait (conn n i).state then set_conn i linger n else n

unfoldable pub tick_conn : ℕ → Tcp → Tcp
unfolding retransmit time_out
tick_conn i n = if not (conn n i).in_use then n else time_out i (retransmit i n)

-- `for (i = ..; i < TCP_MAX_CONNS; i++)`, with the rounds that are left.
unfoldable pub tick_from : ℕ → ℕ → Tcp → Tcp
unfolding tick_conn
tick_from zero i n = n
tick_from (suc left) i n = tick_from left (i + 1) (tick_conn i n)

unfoldable pub tcp_tick : Tcp → Tcp
unfolding tick_from
tcp_tick n = tick_from tcp_max_conns 0 n
