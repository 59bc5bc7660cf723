-- ===== src/Tcp/Tests.antt =====
-- Segments and calls on a table of three connections, and the theorems at it.
use hobbyos.Base.{
  ◌<◌, ◌%◌, ◌^◌, ◌≡◌, refl, true, false, none, some, [], ◌∷◌, ◌++◌, arith, replicate, All-replicate,
}
use hobbyos.Sched.Sample.{waiting}
use hobbyos.Ring.Window.{window}
use hobbyos.Tcp.{Tcp, TcpState, Conn, conn, zero_conn, tcp_init, tcp_alloc_conn}
use hobbyos.Tcp.Input.{Received, bytes_at, on_established, on_syn_received}
use hobbyos.Tcp.Timer.{tcp_tick}
use hobbyos.Tcp.Calls.{send_chunk, tcp_send, tcp_recv, tcp_accept, tcp_listen}
use hobbyos.Tcp.Inv.{IsConn, IsTcp, zero_conn-IsConn}
use hobbyos.Tcp.Steps.{TcpSteps, steps-IsTcp}
use hobbyos.Tcp.Stream.{follow, after_data, established_data, fin_skips}
use hobbyos.Tcp.Recv.{RecvOk, tcp_recv-RecvOk}
use hobbyos.Tcp.Resend.{ticks, acknowledged_reset}
use hobbyos.Tcp.Send.{Sends, tcp_send-Sends}
use hobbyos.Tcp.Checksum.{fold_carries, fold_carries_lem}
use hobbyos.Tcp.Accept.{queued, syn_received_lem}
use hobbyos.Tcp.Taken.{Accepts, tcp_accept-Accepts}

-- A connection that listens on port 80, one that is established, and one that has answered a SYN.
abbrev listening : Conn
unfolding zero_conn
listening = record zero_conn {
  in_use = true;
  state = TcpState.listen;
  local_port = 80;
  parent_idx = none;
}

abbrev talking : Conn
unfolding zero_conn
talking = record zero_conn {
  in_use = true;
  state = TcpState.established;
  local_port = 80;
  remote_ip = 0x0a000002;
  remote_port = 4000;
  snd_nxt = 1000;
  rcv_nxt = 500;
}

abbrev joining : Conn
unfolding zero_conn
joining = record talking { state = TcpState.syn_received; remote_port = 4001; parent_idx = some 0 }

abbrev network : Tcp
network = record {
  conns = listening ∷ talking ∷ joining ∷ replicate 29 zero_conn;
  kernel = waiting;
  ip = 0x0a000001;
  ticks = 7;
  sent = [];
}

network-IsTcp : IsTcp network
unfolding zero_conn
network-IsTcp = record {
  each = (
    record { rx = zero_conn-IsConn.rx; queue = zero_conn-IsConn.queue },
    (
      record { rx = zero_conn-IsConn.rx; queue = zero_conn-IsConn.queue },
      (
        record { rx = zero_conn-IsConn.rx; queue = zero_conn-IsConn.queue },
        All-replicate IsConn 29 zero_conn zero_conn-IsConn,
      ),
    ),
  );
}

-- A segment of three bytes of data with ACK, in sequence, and one with FIN that comes too early.
abbrev three_bytes : Received
three_bytes = record {
  memory = replicate 20 0 ++ (65 ∷ 66 ∷ 67 ∷ []);
  src_ip = 0x0a000002;
  src_port = 4000;
  dst_port = 80;
  seq = 500;
  ack_num = 1000;
  flags = 0x18;
  data_off = 20;
  data_len = 3;
}

abbrev early_fin : Received
early_fin = record three_bytes { seq = 510; flags = 0x11 }

established_data_example :
    follow (conn (on_established 1 three_bytes network) 1)
    ≡ after_data three_bytes (follow (conn network 1))
unfolding zero_conn
established_data_example =
    established_data 1 three_bytes network network-IsTcp (omega arith) (omega arith) refl refl

-- That is, the three bytes wait, and 503 is expected.
data_arrives : after_data three_bytes (follow (conn network 1)) ≡ record {
  waiting = 65 ∷ 66 ∷ 67 ∷ [];
  count = 3;
  expected = 503;
  state = TcpState.established;
  eof = false;
}
unfolding zero_conn bytes_at window
data_arrives = refl

fin_skips_example :
    follow (conn (on_established 1 early_fin network) 1)
    ≡ record { waiting = []; count = 0; expected = 514; state = TcpState.close_wait; eof = true }
unfolding zero_conn window
fin_skips_example = fin_skips 1 early_fin network (omega arith) refl refl refl

steps-IsTcp_example : IsTcp (tcp_tick (tcp_listen 0 80 (tcp_alloc_conn (tcp_init network)).1))
steps-IsTcp_example =
    steps-IsTcp (tcp_tick (tcp_listen 0 80 (tcp_alloc_conn (tcp_init network)).1))
      (TcpSteps.ticks _ (TcpSteps.listens 0 80 _ (TcpSteps.allocs _ (TcpSteps.init network))))

tcp_recv-RecvOk_example : RecvOk 1 10 [] network (tcp_recv [] 1 10 network)
tcp_recv-RecvOk_example =
    tcp_recv-RecvOk [] 1 10 network tt network-IsTcp (omega arith) (omega arith)

acknowledged_reset_example :
    (conn (ticks 200 (on_established 1 three_bytes (send_chunk 1 (1 ∷ 2 ∷ []) network))) 1).state
    ≡ TcpState.closed
unfolding zero_conn
acknowledged_reset_example =
    acknowledged_reset 1 (1 ∷ 2 ∷ []) three_bytes network (omega arith) (omega arith) refl refl
      (omega arith) refl refl

tcp_send-Sends_example :
    ((tcp_send 1 (replicate 2000 7) network).0 ≡ 2000)
    × Sends 1 (replicate 2000 7) network (tcp_send 1 (replicate 2000 7) network).1
unfolding zero_conn
tcp_send-Sends_example =
    tcp_send-Sends 1 (replicate 2000 7) network (omega arith) (omega arith) refl

syn_received_lem_example :
    (let n' = on_syn_received 2 three_bytes network in
      ((conn n' 2).state ≡ TcpState.established) × (queued (conn n' 0) ≡ 2 ∷ []))
unfolding zero_conn on_syn_received window
syn_received_lem_example =
    syn_received_lem 2 0 three_bytes network network-IsTcp (omega arith) (omega arith) refl refl
      refl

tcp_accept-Accepts_example : Accepts 0 [] network (tcp_accept [] 0 network)
tcp_accept-Accepts_example =
    tcp_accept-Accepts [] 0 network tt network-IsTcp (omega arith) (omega arith)

fold_carries_lem_example :
    (fold_carries 3 4294967295 < 2 ^ 16)
    × (fold_carries 3 4294967295 % 65535 ≡ 4294967295 % 65535)
    × (fold_carries 4 4294967295 ≡ fold_carries 3 4294967295)
fold_carries_lem_example = fold_carries_lem 1 4294967295 (omega arith)
