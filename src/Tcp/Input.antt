-- ===== src/Tcp/Input.antt =====
-- kernel/net/tcp.c: `tcp_receive`. The memory from the header on is a list, as far as the code reads
-- it (with a data offset beyond the segment it reads behind the packet); past the list it reads 0.
use hobbyos.Base.{
  ℕ, zero, suc, ◌+◌, ◌*◌, ◌-◌, ◌/◌, ◌%◌, ◌^◌, true, false, ◌&&◌, Option, none, some, List, [], ◌∷◌,
  ltb, ◌==◌, if◌then◌else◌, get_or, set,
}
use hobbyos.Base.Words.{flag}
use hobbyos.Ring.{copy_in}
use hobbyos.Tcp.{
  Tcp, Conn, TcpState, conn, set_conn, fin, syn, rst, ack, tcp_syn_ack, tcp_ack, tcp_rx_buf_size,
  tcp_accept_queue, tcp_alloc_conn, tcp_send_segment, find_connection, wake_reader, wake_writer,
  wake_accepter,
}

-- `ntohs` and `ntohl` of the bytes at `i`.
abbrev pub ntohs_at : List ℕ → ℕ → ℕ
ntohs_at m i = get_or m i 0 * 256 + get_or m (i + 1) 0

abbrev pub ntohl_at : List ℕ → ℕ → ℕ
ntohl_at m i = ntohs_at m i * 2 ^ 16 + ntohs_at m (i + 2)

-- `data[0]` to `data[n - 1]`, for a pointer `from` bytes into the segment.
unfoldable pub bytes_at : List ℕ → ℕ → ℕ → List ℕ
bytes_at m from zero = []
bytes_at m from (suc n) = get_or m from 0 ∷ bytes_at m (from + 1) n

-- What `tcp_receive` reads of a segment.
pub record Received : Type 0 where
  pub memory : List ℕ
  pub src_ip : ℕ
  pub src_port : ℕ
  pub dst_port : ℕ
  pub seq : ℕ
  pub ack_num : ℕ
  pub flags : ℕ
  pub data_off : ℕ
  pub data_len : ℕ

unfoldable pub parse : List ℕ → ℕ → ℕ → Received
parse m remaining src_ip =
    let off = (get_or m 12 0 / 16) * 4 in
    record {
      memory = m;
      src_ip = src_ip;
      src_port = ntohs_at m 0;
      dst_port = ntohs_at m 2;
      seq = ntohl_at m 4;
      ack_num = ntohl_at m 8;
      flags = get_or m 13 0;
      data_off = off;
      data_len = (remaining + 2 ^ 32 - off) % 2 ^ 32;
    }

unfoldable pub answer_syn : ℕ → Received → Option ℕ × Tcp → Tcp
answer_syn i s (none, n) = n
answer_syn i s (some j, n) =
    let isn = (n.ticks * 12345 + 1) % 2 ^ 32 in
    let port = (conn n i).local_port in
    tcp_send_segment j tcp_syn_ack [] (
      set_conn j
        (λ c. record c {
          local_ip = n.ip;
          local_port = port;
          remote_ip = s.src_ip;
          remote_port = s.src_port;
          rcv_nxt = (s.seq + 1) % 2 ^ 32;
          snd_nxt = isn;
          snd_una = isn;
          state = TcpState.syn_received;
          parent_idx = some i;
        })
        n)

unfoldable pub on_listen : ℕ → Received → Tcp → Tcp
unfolding answer_syn
on_listen i s n = if flag s.flags syn then answer_syn i s (tcp_alloc_conn n) else n

-- The connection `i` joins its parent's accept queue, unless that is full.
unfoldable pub offer : ℕ → Option ℕ → Tcp → Tcp
offer i none n = n
offer i (some q) n =
    if ltb (conn n q).accept_count tcp_accept_queue
    then wake_accepter q (
        set_conn q
          (λ c. record c {
            accept_queue = set c.accept_queue c.accept_tail i;
            accept_tail = (c.accept_tail + 1) % tcp_accept_queue;
            accept_count = c.accept_count + 1;
          })
          n)
    else n

unfoldable pub on_syn_received : ℕ → Received → Tcp → Tcp
unfolding offer
on_syn_received i s n =
    if flag s.flags ack
    then offer i (conn n i).parent_idx
        (set_conn i (λ c. record c { snd_una = s.ack_num; state = TcpState.established }) n)
    else n

unfoldable pub on_syn_sent : ℕ → Received → Tcp → Tcp
on_syn_sent i s n =
    if flag s.flags syn && flag s.flags ack
    then wake_writer i (
        tcp_send_segment i tcp_ack [] (
          set_conn i
            (λ c. record c {
              rcv_nxt = (s.seq + 1) % 2 ^ 32;
              snd_una = s.ack_num;
              state = TcpState.established;
            })
            n))
    else n

-- `if (flags & TCP_ACK) c->snd_una = ack`
unfoldable pub take_ack : ℕ → Received → Tcp → Tcp
take_ack i s n =
    if flag s.flags ack then set_conn i (λ c. record c { snd_una = s.ack_num }) n else n

-- How much of a segment fits into the receive buffer.
abbrev pub accepted : Received → Conn → ℕ
accepted s c =
    let space = tcp_rx_buf_size - c.rx_count in if ltb s.data_len space then s.data_len else space

abbrev pub store : Received → Conn → Conn
store s c =
    let copied = accepted s c in
    let (buf, pos) =
      copy_in tcp_rx_buf_size c.rx_buf c.rx_write_pos (bytes_at s.memory s.data_off copied) in
    record c {
      rx_buf = buf;
      rx_write_pos = pos;
      rx_count = c.rx_count + copied;
      rcv_nxt = (c.rcv_nxt + copied) % 2 ^ 32;
    }

-- Incoming data.
unfoldable pub take_data : ℕ → Received → Tcp → Tcp
take_data i s n =
    if ltb 0 s.data_len && (s.seq == (conn n i).rcv_nxt)
    then wake_reader i (tcp_send_segment i tcp_ack [] (set_conn i (store s) n))
    else n

unfoldable pub take_fin : ℕ → Received → Tcp → Tcp
take_fin i s n =
    if flag s.flags fin
    then wake_reader i (
        tcp_send_segment i tcp_ack [] (
          set_conn i
            (λ c. record c {
              rcv_nxt = (s.seq + s.data_len + 1) % 2 ^ 32;
              state = TcpState.close_wait;
              eof = true;
            })
            n))
    else n

unfoldable pub take_rst : ℕ → Received → Tcp → Tcp
take_rst i s n =
    if flag s.flags rst
    then wake_writer i
        (wake_reader i (set_conn i (λ c. record c { state = TcpState.closed; eof = true }) n))
    else n

unfoldable pub on_established : ℕ → Received → Tcp → Tcp
unfolding take_ack take_data take_fin take_rst
on_established i s n = take_rst i s (take_fin i s (take_data i s (take_ack i s n)))

-- The FIN of a peer after ours.
unfoldable pub take_last_fin : ℕ → Received → Tcp → Tcp
take_last_fin i s n =
    if flag s.flags fin
    then tcp_send_segment i tcp_ack [] (
        set_conn i (λ c. record c { rcv_nxt = (s.seq + 1) % 2 ^ 32; state = TcpState.time_wait }) n)
    else n

unfoldable pub on_fin_wait_1 : ℕ → Received → Tcp → Tcp
unfolding take_last_fin
on_fin_wait_1 i s n = take_last_fin i s (
    if flag s.flags ack
    then set_conn i (λ c. record c { snd_una = s.ack_num; state = TcpState.fin_wait_2 }) n
    else n)

unfoldable pub on_last_ack : ℕ → Received → Tcp → Tcp
on_last_ack i s n =
    if flag s.flags ack
    then set_conn i (λ c. record c { state = TcpState.closed; in_use = false }) n
    else n

-- The `switch` on the state.
unfoldable pub on_segment : TcpState → ℕ → Received → Tcp → Tcp
unfolding on_listen on_syn_received on_syn_sent on_established on_fin_wait_1 on_last_ack
on_segment TcpState.listen i s n = on_listen i s n
on_segment TcpState.syn_received i s n = on_syn_received i s n
on_segment TcpState.syn_sent i s n = on_syn_sent i s n
on_segment TcpState.established i s n = on_established i s n
on_segment TcpState.fin_wait_1 i s n = on_fin_wait_1 i s n
on_segment TcpState.fin_wait_2 i s n = take_last_fin i s n
on_segment TcpState.last_ack i s n = on_last_ack i s n
on_segment _ i s n = n

unfoldable pub deliver : Option ℕ → Received → Tcp → Tcp
unfolding on_segment
deliver none s n = n
deliver (some i) s n = on_segment (conn n i).state i s n

unfoldable pub tcp_receive : List ℕ → ℕ → ℕ → Tcp → Tcp
unfolding parse deliver
tcp_receive m remaining src_ip n =
    let s = parse m remaining src_ip in
    if ltb remaining 20 then n else deliver (find_connection src_ip s.src_port s.dst_port n) s n
