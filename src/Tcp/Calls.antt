-- ===== src/Tcp/Calls.antt =====
-- kernel/net/tcp.c: the calls of the socket layer. What the other processes and the network do while
-- a process sleeps is a function on the state, one for each sleep.
use hobbyos.Base.{
  ℕ, zero, suc, ◌+◌, ◌*◌, ◌-◌, ◌%◌, ◌^◌, ◌&&◌, ◌||◌, Bool, false, Option, none, some, List, [], ◌∷◌,
  ◌++◌, ltb, ◌==◌, not, if◌then◌else◌, length, take, drop, get_or,
}
use hobbyos.Process.{ProcessState, Kernel}
use hobbyos.Sched.{schedule, set_state}
use hobbyos.Signal.{signal_has_fatal}
use hobbyos.Ring.{copy_out}
use hobbyos.Tcp.{
  Tcp, Conn, TcpState, conn, set_conn, is_listen, is_established, is_closed, is_close_wait, tcp_syn,
  tcp_fin_ack, tcp_ack_psh, tcp_rx_buf_size, tcp_accept_queue, tcp_send_segment, tcp_get_conn,
}

abbrev pub Others : Type 0
Others = Tcp → Tcp

-- `cur->state = PROCESS_BLOCKED; schedule()`
unfoldable pub give_way : Option ℕ → Kernel → Kernel
give_way none k = schedule k
give_way (some c) k = schedule (set_state c ProcessState.blocked k)

abbrev pub block : Tcp → Tcp
block n = record n { kernel = give_way n.kernel.current n.kernel }

abbrev pub open_conn : ℕ → ℕ → ℕ → Tcp → Conn → Conn
open_conn dst_ip dst_port src_port n c =
    let isn = (n.ticks * 54321 + 1) % 2 ^ 32 in
    record c {
      local_ip = n.ip;
      local_port = src_port;
      remote_ip = dst_ip;
      remote_port = dst_port;
      snd_nxt = isn;
      snd_una = isn;
      state = TcpState.syn_sent;
    }

-- True is the answer 0, false is -1.
unfoldable pub tcp_connect : Others → ℕ → ℕ → ℕ → ℕ → Tcp → Bool × Tcp
unfolding give_way
tcp_connect others i dst_ip dst_port src_port n =
    let n1 = tcp_send_segment i tcp_syn [] (set_conn i (open_conn dst_ip dst_port src_port n) n) in
    let n2 = set_conn i (λ c. record c { blocked_writer = n1.kernel.current }) n1 in
    let n3 = others (block n2) in (is_established (conn n3 i).state, n3)

unfoldable pub tcp_listen : ℕ → ℕ → Tcp → Tcp
tcp_listen i port n =
    set_conn i
      (λ c. record c {
        local_ip = n.ip;
        local_port = port;
        state = TcpState.listen;
        accept_head = 0;
        accept_tail = 0;
        accept_count = 0;
      })
      n

-- The ends of a call that may sleep: -1, an answer, or that it sleeps once more.
pub data Outcome {ℓ} (A : Type ℓ) : Type ℓ where
  failed : Tcp → Outcome A
  returned : A → Tcp → Outcome A
  asleep : Tcp → Outcome A

unfoldable pub accept_first : ℕ → Tcp → ℕ × Tcp
accept_first i n = (
  get_or (conn n i).accept_queue (conn n i).accept_head 0,
  set_conn i
      (λ c. record c {
        accept_head = (c.accept_head + 1) % tcp_accept_queue;
        accept_count = c.accept_count - 1;
      })
      n,
)

abbrev pub sleep_accepter : ℕ → Tcp → Tcp
sleep_accepter i n = block (set_conn i (λ c. record c { blocked_accepter = n.kernel.current }) n)

abbrev pub ended {ℓ} : {A : Type ℓ} → A × Tcp → Outcome A
ended r = Outcome.returned r.0 r.1

-- The loop `while (c->accept_count == 0)`, and what follows it.
unfoldable pub accept_loop : List Others → ℕ → Tcp → Outcome ℕ
unfolding accept_first give_way
accept_loop [] i n =
    if (conn n i).accept_count == 0
    then if signal_has_fatal n.kernel.current n.kernel
      then Outcome.failed n
      else Outcome.asleep (sleep_accepter i n)
    else ended (accept_first i n)
accept_loop (others ∷ es) i n =
    let again = accept_loop es i (others (sleep_accepter i n)) in
    if (conn n i).accept_count == 0
    then if signal_has_fatal n.kernel.current n.kernel then Outcome.failed n else again
    else ended (accept_first i n)

unfoldable pub tcp_accept : List Others → ℕ → Tcp → Outcome ℕ
unfolding accept_loop
tcp_accept es i n = if is_listen (conn n i).state then accept_loop es i n else Outcome.failed n

-- One chunk is kept for a retransmission, and sent.
unfoldable pub send_chunk : ℕ → List ℕ → Tcp → Tcp
send_chunk i chunk n = tcp_send_segment i tcp_ack_psh chunk (
    set_conn i
      (λ c. record c {
        retransmit_seq = c.snd_nxt;
        retransmit_data = chunk ++ drop (length chunk) c.retransmit_data;
        retransmit_len = length chunk;
        retransmit_timer = 50;
        retransmit_count = 0;
      })
      n)

-- `while (sent < len)`, on the bytes that are left. Every turn sends at least one, so that their
-- number is enough fuel.
unfoldable pub send_loop : ℕ → ℕ → List ℕ → Tcp → Tcp
unfolding send_chunk
send_loop zero i left n = n
send_loop (suc fuel) i [] n = n
send_loop (suc fuel) i (b ∷ bs) n =
    send_loop fuel i (drop 1460 (b ∷ bs)) (send_chunk i (take 1460 (b ∷ bs)) n)

-- `(int)-1`
abbrev pub send_failed : ℕ
send_failed = 2 ^ 32 - 1

-- The number of bytes sent, or -1, as the word of 32 bits that an `int` is.
unfoldable pub tcp_send : ℕ → List ℕ → Tcp → ℕ × Tcp
unfolding send_loop
tcp_send i bytes n =
    if is_established (conn n i).state || is_close_wait (conn n i).state
    then (length bytes % 2 ^ 32, send_loop (length bytes) i bytes n)
    else (send_failed, n)

abbrev pub sleep_reader : ℕ → Tcp → Tcp
sleep_reader i n = block (set_conn i (λ c. record c { blocked_reader = n.kernel.current }) n)

-- From the test `if (c->rx_count == 0)` on.
unfoldable pub recv_now : ℕ → ℕ → Tcp → List ℕ × Tcp
recv_now i len n =
    let c = conn n i in
    let wanted = if ltb len c.rx_count then len else c.rx_count in
    let (out, pos) = copy_out tcp_rx_buf_size c.rx_buf c.rx_read_pos wanted in
    if c.rx_count == 0
    then ([], n)
    else (out, set_conn i (λ c. record c { rx_read_pos = pos; rx_count = c.rx_count - wanted }) n)

-- Nothing to read, and more may come.
abbrev pub must_wait : Conn → Bool
must_wait c =
    (c.rx_count == 0) && not c.eof && not (is_closed c.state) && not (is_close_wait c.state)

unfoldable pub recv_loop : List Others → ℕ → ℕ → Tcp → Outcome (List ℕ)
unfolding recv_now give_way
recv_loop [] i len n =
    if must_wait (conn n i)
    then if signal_has_fatal n.kernel.current n.kernel
      then Outcome.failed n
      else Outcome.asleep (sleep_reader i n)
    else ended (recv_now i len n)
recv_loop (others ∷ es) i len n =
    let again = recv_loop es i len (others (sleep_reader i n)) in
    if must_wait (conn n i)
    then if signal_has_fatal n.kernel.current n.kernel then Outcome.failed n else again
    else ended (recv_now i len n)

unfoldable pub tcp_recv : List Others → ℕ → ℕ → Tcp → Outcome (List ℕ)
unfolding recv_loop
tcp_recv es i len n = recv_loop es i len n

unfoldable pub close_as : TcpState → ℕ → Tcp → Tcp
close_as TcpState.established i n =
    tcp_send_segment i tcp_fin_ack [] (set_conn i (λ c. record c { state = TcpState.fin_wait_1 }) n)
close_as TcpState.close_wait i n =
    tcp_send_segment i tcp_fin_ack [] (set_conn i (λ c. record c { state = TcpState.last_ack }) n)
close_as TcpState.listen i n =
    set_conn i (λ c. record c { state = TcpState.closed; in_use = false }) n
close_as TcpState.syn_sent i n =
    set_conn i (λ c. record c { state = TcpState.closed; in_use = false }) n
close_as _ i n = n

unfoldable pub tcp_close : ℕ → Tcp → Tcp
unfolding close_as
tcp_close i n = close_as (conn n i).state i n

-- The three tests, false for a connection that is not there.
unfoldable pub readable_at : Option ℕ → Tcp → Bool
readable_at none n = false
readable_at (some i) n = let c = conn n i in ltb 0 c.rx_count || c.eof || is_closed c.state

unfoldable pub tcp_conn_readable : ℕ → Tcp → Bool
unfolding readable_at tcp_get_conn
tcp_conn_readable i n = readable_at (tcp_get_conn i n) n

unfoldable pub writable_at : Option ℕ → Tcp → Bool
writable_at none n = false
writable_at (some i) n = is_established (conn n i).state

unfoldable pub tcp_conn_writable : ℕ → Tcp → Bool
unfolding writable_at tcp_get_conn
tcp_conn_writable i n = writable_at (tcp_get_conn i n) n

unfoldable pub acceptable_at : Option ℕ → Tcp → Bool
acceptable_at none n = false
acceptable_at (some i) n = is_listen (conn n i).state && ltb 0 (conn n i).accept_count

unfoldable pub tcp_conn_acceptable : ℕ → Tcp → Bool
unfolding acceptable_at tcp_get_conn
tcp_conn_acceptable i n = acceptable_at (tcp_get_conn i n) n
