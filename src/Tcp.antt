-- ===== src/Tcp.antt =====
-- kernel/net/tcp.c: the connection table, and the segments that a connection sends.
-- Connections are indices of `conns`, and -1 is `none`. What `ipv4_send` is given is recorded in
-- `sent`, the latest first; no caller looks at its answer. The 32-bit sequence numbers wrap around.
pub mod Input
pub mod Timer
pub mod Calls
pub mod Inv
pub mod Keep
pub mod Steps
pub mod Stream
pub mod Recv
pub mod Timeout
pub mod Elsewhere
pub mod Resend
pub mod Send
pub mod Accept
pub mod Taken
pub mod Checksum
mod Tests
use hobbyos.Base.{
  ℕ, ◌+◌, ◌*◌, ◌-◌, ◌%◌, ◌^◌, Bool, true, false, ◌&&◌, ◌||◌, Option, none, some, List, [], ◌∷◌, ltb,
  ◌==◌, not, if◌then◌else◌, length, get_or, set, modify, replicate, find_index,
}
use hobbyos.Base.Words.{flag}
use hobbyos.Process.{ProcessState, Kernel}
use hobbyos.Sched.{scheduler_add, schedule, set_state}

abbrev pub tcp_max_conns : ℕ
tcp_max_conns = 32

abbrev pub tcp_rx_buf_size : ℕ
tcp_rx_buf_size = 4096

abbrev pub tcp_accept_queue : ℕ
tcp_accept_queue = 4

-- The flags by the numbers of their bits, and the combinations that are sent.
abbrev pub fin : ℕ
fin = 0

abbrev pub syn : ℕ
syn = 1

abbrev pub rst : ℕ
rst = 2

abbrev pub ack : ℕ
ack = 4

abbrev pub tcp_syn : ℕ
tcp_syn = 0x02

abbrev pub tcp_rst : ℕ
tcp_rst = 0x04

abbrev pub tcp_ack : ℕ
tcp_ack = 0x10

abbrev pub tcp_fin_ack : ℕ
tcp_fin_ack = 0x11

abbrev pub tcp_syn_ack : ℕ
tcp_syn_ack = 0x12

abbrev pub tcp_ack_psh : ℕ
tcp_ack_psh = 0x18

pub data TcpState : Type 0 where
  closed listen syn_sent syn_received established fin_wait_1 fin_wait_2 : TcpState
  close_wait last_ack time_wait : TcpState

abbrev pub is_listen : TcpState → Bool
is_listen TcpState.listen = true
is_listen _ = false

abbrev pub is_established : TcpState → Bool
is_established TcpState.established = true
is_established _ = false

abbrev pub is_closed : TcpState → Bool
is_closed TcpState.closed = true
is_closed _ = false

abbrev pub is_close_wait : TcpState → Bool
is_close_wait TcpState.close_wait = true
is_close_wait _ = false

abbrev pub is_time_wait : TcpState → Bool
is_time_wait TcpState.time_wait = true
is_time_wait _ = false

pub record Conn : Type 0 where
  pub state : TcpState
  pub local_ip : ℕ
  pub local_port : ℕ
  pub remote_ip : ℕ
  pub remote_port : ℕ
  pub snd_nxt : ℕ
  pub snd_una : ℕ
  pub rcv_nxt : ℕ
  pub rx_buf : List ℕ
  pub rx_read_pos : ℕ
  pub rx_write_pos : ℕ
  pub rx_count : ℕ
  pub blocked_reader : Option ℕ
  pub blocked_writer : Option ℕ
  pub blocked_accepter : Option ℕ
  pub accept_queue : List ℕ
  pub accept_head : ℕ
  pub accept_tail : ℕ
  pub accept_count : ℕ
  pub parent_idx : Option ℕ
  pub retransmit_data : List ℕ
  pub retransmit_len : ℕ
  pub retransmit_seq : ℕ
  pub retransmit_timer : ℕ
  pub retransmit_count : ℕ
  pub in_use : Bool
  pub eof : Bool

-- What `memset` leaves; the index 0 of `parent_idx` is overwritten at every allocation.
unfoldable pub zero_conn : Conn
zero_conn = record {
  state = TcpState.closed;
  local_ip = 0;
  local_port = 0;
  remote_ip = 0;
  remote_port = 0;
  snd_nxt = 0;
  snd_una = 0;
  rcv_nxt = 0;
  rx_buf = replicate tcp_rx_buf_size 0;
  rx_read_pos = 0;
  rx_write_pos = 0;
  rx_count = 0;
  blocked_reader = none;
  blocked_writer = none;
  blocked_accepter = none;
  accept_queue = replicate tcp_accept_queue 0;
  accept_head = 0;
  accept_tail = 0;
  accept_count = 0;
  parent_idx = some 0;
  retransmit_data = replicate 1460 0;
  retransmit_len = 0;
  retransmit_seq = 0;
  retransmit_timer = 0;
  retransmit_count = 0;
  in_use = false;
  eof = false;
}

-- A segment that `ipv4_send` is given, with its checksum left out.
pub record TcpSegment : Type 0 where
  pub dst_ip : ℕ
  pub src_port : ℕ
  pub dst_port : ℕ
  pub seq_num : ℕ
  pub ack_num : ℕ
  pub flags : ℕ
  pub payload : List ℕ

-- The connections with what the code reads of the rest of the kernel: the processes, the address of
-- the interface (`net_get_ip`) and the clock (`pit_get_ticks`).
pub record Tcp : Type 0 where
  pub conns : List Conn
  pub kernel : Kernel
  pub ip : ℕ
  pub ticks : ℕ
  pub sent : List TcpSegment

abbrev pub conn : Tcp → ℕ → Conn
conn n i = get_or n.conns i zero_conn

abbrev pub set_conn : ℕ → (Conn → Conn) → Tcp → Tcp
set_conn i f n = record n { conns = modify n.conns i f }

unfoldable pub tcp_init : Tcp → Tcp
tcp_init n = record n { conns = replicate tcp_max_conns zero_conn }

abbrev pub fresh_conn : Conn → Conn
fresh_conn _ = record zero_conn { in_use = true; state = TcpState.closed; parent_idx = none }

unfoldable pub alloc_at : Option ℕ → Tcp → Option ℕ × Tcp
alloc_at none n = (none, n)
alloc_at (some i) n = (some i, set_conn i fresh_conn n)

unfoldable pub tcp_alloc_conn : Tcp → Option ℕ × Tcp
unfolding alloc_at
tcp_alloc_conn n = alloc_at (find_index (λ c. not c.in_use) n.conns) n

unfoldable pub tcp_get_conn : ℕ → Tcp → Option ℕ
tcp_get_conn idx n =
    if not (ltb idx tcp_max_conns) || not (conn n idx).in_use then none else some idx

-- The sequence numbers that a segment takes: one each for SYN and FIN, and one for each byte.
abbrev pub seq_space : ℕ → List ℕ → ℕ
seq_space flags bytes =
    (if flag flags syn then 1 else 0) + (if flag flags fin then 1 else 0) + length bytes

abbrev pub segment_of : Conn → ℕ → List ℕ → TcpSegment
segment_of c flags bytes = record {
  dst_ip = c.remote_ip;
  src_port = c.local_port;
  dst_port = c.remote_port;
  seq_num = c.snd_nxt;
  ack_num = c.rcv_nxt;
  flags = flags;
  payload = bytes;
}

-- A packet has at most 1500 bytes, 20 of them the header; a longer one is not sent.
unfoldable pub tcp_send_segment : ℕ → ℕ → List ℕ → Tcp → Tcp
tcp_send_segment i flags bytes n =
    if ltb 1500 (20 + length bytes)
    then n
    else set_conn i (λ c. record c { snd_nxt = (c.snd_nxt + seq_space flags bytes) % 2 ^ 32 })
        (record n { sent = segment_of (conn n i) flags bytes ∷ n.sent })

unfoldable pub find_connection : ℕ → ℕ → ℕ → Tcp → Option ℕ
find_connection src_ip src_port dst_port n =
    elim (find_index
      (λ (c : Conn).
        c.in_use
        && (c.remote_ip == src_ip)
        && (c.remote_port == src_port)
        && (c.local_port == dst_port))
      n.conns) [
        | some i ↦ some i
        | none ↦
            find_index (λ (c : Conn). c.in_use && is_listen c.state && (c.local_port == dst_port))
              n.conns
      ]

-- The process that a field of a connection names, if any, is made ready.
unfoldable pub wake_process : Option ℕ → Kernel → Kernel
wake_process none k = k
wake_process (some p) k = scheduler_add p (set_state p ProcessState.ready k)

abbrev pub wake_reader : ℕ → Tcp → Tcp
wake_reader i n =
    set_conn i (λ c. record c { blocked_reader = none })
      (record n { kernel = wake_process (conn n i).blocked_reader n.kernel })

abbrev pub wake_writer : ℕ → Tcp → Tcp
wake_writer i n =
    set_conn i (λ c. record c { blocked_writer = none })
      (record n { kernel = wake_process (conn n i).blocked_writer n.kernel })

abbrev pub wake_accepter : ℕ → Tcp → Tcp
wake_accepter i n =
    set_conn i (λ c. record c { blocked_accepter = none })
      (record n { kernel = wake_process (conn n i).blocked_accepter n.kernel })
