-- ===== src/Tcp/Inv.antt =====
-- The invariant of the connection table: the receive buffer of every connection is a ring of 4096
-- bytes, and its accept queue a ring of four connections.
use hobbyos.Base.{
  ℕ, zero, suc, ◌+◌, ◌≤◌, ◌≡◌, refl, ap, ◌∙◌, Bool, true, false, Option, none, some, List, [], ltb,
  if◌then◌else◌, length, length-set, length-replicate, All, All-modify, All-modify_at, All-get_or,
  arith, Bool-cases, inl, inr,
}
use hobbyos.Ring.Transfer.{IsRing, copy_in-window}
use hobbyos.Tcp.{
  Tcp, TcpState, Conn, conn, set_conn, zero_conn, tcp_rx_buf_size, tcp_accept_queue,
  tcp_send_segment, tcp_alloc_conn, alloc_at, wake_reader, wake_writer, wake_accepter,
}
use hobbyos.Tcp.Input.{
  Received, parse, bytes_at, accepted, store, take_data, take_ack, take_fin, take_rst,
  on_established, on_listen, answer_syn, offer, on_syn_received, on_syn_sent, take_last_fin,
  on_fin_wait_1, on_last_ack, on_segment, deliver, tcp_receive,
}

pub record IsConn (c : Conn) : Type 0 where
  pub rx : IsRing tcp_rx_buf_size c.rx_buf c.rx_read_pos c.rx_write_pos c.rx_count
  pub queue : IsRing tcp_accept_queue c.accept_queue c.accept_head c.accept_tail c.accept_count

pub record IsTcp (n : Tcp) : Type 0 where
  pub each : All IsConn n.conns

pub zero_conn-IsConn : IsConn zero_conn
unfolding zero_conn
zero_conn-IsConn = record {
  rx = record {
    size = length-replicate {A = ℕ} 4096 0;
    reader = omega arith;
    fits = omega arith;
    writer = refl;
  };
  queue = record { size = refl; reader = omega arith; fits = omega arith; writer = refl };
}

pub conn-IsConn : (n : Tcp) (i : ℕ) → IsTcp n → IsConn (conn n i)
conn-IsConn n i t = All-get_or IsConn n.conns i zero_conn t.each zero_conn-IsConn

pub if-IsTcp : (b : Bool) (x y : Tcp) → IsTcp x → IsTcp y → IsTcp (if b then x else y)
if-IsTcp true x y hx hy = hx
if-IsTcp false x y hx hy = hy

pub kept :
    (n : Tcp) (i : ℕ) (f : Conn → Conn)
    → IsTcp n
    → ((c : Conn) → IsConn c → IsConn (f c))
    → IsTcp (set_conn i f n)
kept n i f t keep = record { each = All-modify IsConn n.conns i f t.each keep }

pub kept_at :
    (n : Tcp) (i : ℕ) (f : Conn → Conn)
    → IsTcp n
    → (IsConn (conn n i) → IsConn (f (conn n i)))
    → IsTcp (set_conn i f n)
kept_at n i f t keep = record {
  each = All-modify_at IsConn n.conns i f zero_conn t.each (λ l. keep (conn-IsConn n i t));
}

pub send_segment-IsTcp :
    (i flags : ℕ) (bytes : List ℕ) (n : Tcp) → IsTcp n → IsTcp (tcp_send_segment i flags bytes n)
unfolding tcp_send_segment
send_segment-IsTcp i flags bytes n t = if-IsTcp (ltb 1500 (20 + length bytes)) n _ t (record {
  each = All-modify IsConn n.conns i _ t.each (λ c h. record { rx = h.rx; queue = h.queue });
})

pub wake_reader-IsTcp : (i : ℕ) (n : Tcp) → IsTcp n → IsTcp (wake_reader i n)
wake_reader-IsTcp i n t = record {
  each = All-modify IsConn n.conns i _ t.each (λ c h. record { rx = h.rx; queue = h.queue });
}

pub wake_writer-IsTcp : (i : ℕ) (n : Tcp) → IsTcp n → IsTcp (wake_writer i n)
wake_writer-IsTcp i n t = record {
  each = All-modify IsConn n.conns i _ t.each (λ c h. record { rx = h.rx; queue = h.queue });
}

wake_accepter-IsTcp : (i : ℕ) (n : Tcp) → IsTcp n → IsTcp (wake_accepter i n)
wake_accepter-IsTcp i n t = record {
  each = All-modify IsConn n.conns i _ t.each (λ c h. record { rx = h.rx; queue = h.queue });
}

pub length-bytes_at : (m : List ℕ) (from n : ℕ) → length (bytes_at m from n) ≡ n
unfolding bytes_at
length-bytes_at m from zero = refl
length-bytes_at m from (suc n) = ap suc (length-bytes_at m (from + 1) n)

pub accepted-le :
    (s : Received) (c : Conn)
    → c.rx_count ≤ tcp_rx_buf_size
    → c.rx_count + accepted s c ≤ tcp_rx_buf_size
accepted-le s c h = ground arith

store-IsConn : (s : Received) (c : Conn) → IsConn c → IsConn (store s c)
store-IsConn s c h =
    let xs = bytes_at s.memory s.data_off (accepted s c) in
    let len = length-bytes_at s.memory s.data_off (accepted s c) in
    let moved =
      copy_in-window tcp_rx_buf_size xs c.rx_buf c.rx_read_pos c.rx_write_pos c.rx_count h.rx
        (rw len (accepted-le s c h.rx.fits)) in
    record { rx = rw len at (moved.1); queue = h.queue }

alloc_at-IsTcp : (o : Option ℕ) (n : Tcp) → IsTcp n → IsTcp (alloc_at o n).1
unfolding alloc_at zero_conn
alloc_at-IsTcp none n t = t
alloc_at-IsTcp (some i) n t =
    kept _ i _ t (λ c h. record { rx = zero_conn-IsConn.rx; queue = zero_conn-IsConn.queue })

pub alloc_conn-IsTcp : (n : Tcp) → IsTcp n → IsTcp (tcp_alloc_conn n).1
unfolding tcp_alloc_conn
alloc_conn-IsTcp n t = alloc_at-IsTcp _ n t

module _ (i : ℕ) (s : Received) where
  answer_syn-IsTcp : (r : Option ℕ × Tcp) → IsTcp r.1 → IsTcp (answer_syn i s r)
  unfolding answer_syn
  answer_syn-IsTcp (none, n) t = t
  answer_syn-IsTcp (some j, n) t =
      send_segment-IsTcp j _ [] _ (kept _ j _ t (λ c h. record { rx = h.rx; queue = h.queue }))

  on_listen-IsTcp : (n : Tcp) → IsTcp n → IsTcp (on_listen i s n)
  unfolding on_listen
  on_listen-IsTcp n t =
      if-IsTcp _ _ _ (answer_syn-IsTcp (tcp_alloc_conn n) (alloc_conn-IsTcp n t)) t

  offer-IsTcp : (q : Option ℕ) (n : Tcp) → IsTcp n → IsTcp (offer i q n)
  unfolding offer
  offer-IsTcp none n t = t
  offer-IsTcp (some q) n t = elim (Bool-cases (ltb (conn n q).accept_count tcp_accept_queue)) [
    | inr full ↦ rw full t
    | inl room ↦ rw room (
        wake_accepter-IsTcp q _ (
          kept_at n q _ t (λ h. record {
            rx = h.rx;
            queue = record {
              size = length-set (conn n q).accept_queue _ i ∙ h.queue.size;
              reader = h.queue.reader;
              fits = ground (arith, room, h.queue.fits);
              writer = omega (arith, h.queue.writer);
            };
          })))
  ]

  on_syn_received-IsTcp : (n : Tcp) → IsTcp n → IsTcp (on_syn_received i s n)
  unfolding on_syn_received
  on_syn_received-IsTcp n t =
      if-IsTcp _ _ _ (offer-IsTcp _ _ (kept _ i _ t (λ c h. record { rx = h.rx; queue = h.queue })))
        t

  on_syn_sent-IsTcp : (n : Tcp) → IsTcp n → IsTcp (on_syn_sent i s n)
  unfolding on_syn_sent
  on_syn_sent-IsTcp n t =
      if-IsTcp _ _ _
        (wake_writer-IsTcp i _ (
          send_segment-IsTcp i _ [] _
            (kept n i _ t (λ c h. record { rx = h.rx; queue = h.queue }))))
        t

  pub take_ack-IsTcp : (n : Tcp) → IsTcp n → IsTcp (take_ack i s n)
  unfolding take_ack
  take_ack-IsTcp n t =
      if-IsTcp _ _ _ (kept n i _ t (λ c h. record { rx = h.rx; queue = h.queue })) t

  take_data-IsTcp : (n : Tcp) → IsTcp n → IsTcp (take_data i s n)
  unfolding take_data
  take_data-IsTcp n t =
      if-IsTcp _ _ _
        (wake_reader-IsTcp i _
          (send_segment-IsTcp i _ [] _ (kept n i (store s) t (store-IsConn s))))
        t

  take_fin-IsTcp : (n : Tcp) → IsTcp n → IsTcp (take_fin i s n)
  unfolding take_fin
  take_fin-IsTcp n t =
      if-IsTcp _ _ _
        (wake_reader-IsTcp i _ (
          send_segment-IsTcp i _ [] _
            (kept n i _ t (λ c h. record { rx = h.rx; queue = h.queue }))))
        t

  take_rst-IsTcp : (n : Tcp) → IsTcp n → IsTcp (take_rst i s n)
  unfolding take_rst
  take_rst-IsTcp n t =
      if-IsTcp _ _ _
        (wake_writer-IsTcp i _
          (wake_reader-IsTcp i _ (kept n i _ t (λ c h. record { rx = h.rx; queue = h.queue }))))
        t

  take_last_fin-IsTcp : (n : Tcp) → IsTcp n → IsTcp (take_last_fin i s n)
  unfolding take_last_fin
  take_last_fin-IsTcp n t =
      if-IsTcp _ _ _
        (send_segment-IsTcp i _ [] _ (kept _ i _ t (λ c h. record { rx = h.rx; queue = h.queue })))
        t

  on_segment-IsTcp : (st : TcpState) (n : Tcp) → IsTcp n → IsTcp (on_segment st i s n)
  unfolding on_segment on_established on_fin_wait_1 on_last_ack
  on_segment-IsTcp TcpState.listen n t = on_listen-IsTcp n t
  on_segment-IsTcp TcpState.syn_received n t = on_syn_received-IsTcp n t
  on_segment-IsTcp TcpState.syn_sent n t = on_syn_sent-IsTcp n t
  on_segment-IsTcp TcpState.established n t =
      take_rst-IsTcp _ (take_fin-IsTcp _ (take_data-IsTcp _ (take_ack-IsTcp n t)))
  on_segment-IsTcp TcpState.fin_wait_1 n t =
      take_last_fin-IsTcp _
        (if-IsTcp _ _ _ (kept _ i _ t (λ c h. record { rx = h.rx; queue = h.queue })) t)
  on_segment-IsTcp TcpState.fin_wait_2 n t = take_last_fin-IsTcp n t
  on_segment-IsTcp TcpState.last_ack n t =
      if-IsTcp _ _ _ (kept _ i _ t (λ c h. record { rx = h.rx; queue = h.queue })) t
  on_segment-IsTcp TcpState.closed n t = t
  on_segment-IsTcp TcpState.close_wait n t = t
  on_segment-IsTcp TcpState.time_wait n t = t

deliver-IsTcp : (o : Option ℕ) (s : Received) (n : Tcp) → IsTcp n → IsTcp (deliver o s n)
unfolding deliver
deliver-IsTcp none s n t = t
deliver-IsTcp (some i) s n t = on_segment-IsTcp i s _ n t

-- `tcp_receive` keeps the invariant, whatever the segment holds.
pub receive-IsTcp :
    (m : List ℕ) (remaining src_ip : ℕ) (n : Tcp)
    → IsTcp n
    → IsTcp (tcp_receive m remaining src_ip n)
unfolding tcp_receive
receive-IsTcp m remaining src_ip n t =
    if-IsTcp _ _ _ t (deliver-IsTcp _ (parse m remaining src_ip) n t)
