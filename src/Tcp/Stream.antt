-- ===== src/Tcp/Stream.antt =====
-- The bytes that a connection receives: the receive buffer is a queue between the segments that come
-- in order and `tcp_recv`.
use hobbyos.Base.{
  ℕ, ◌+◌, ◌-◌, ◌%◌, ◌^◌, ◌<◌, ◌≡◌, refl, sym, ap, ◌∙◌, subst, Bool, true, false, ◌&&◌, none, List,
  [], ◌++◌, ltb, ◌==◌, if◌then◌else◌, length, ap₂, length-modify, get_or-modify_self,
  get_or-modify_keeps, arith, Bool-cases, inl, inr, min, append-nil,
}
use hobbyos.Base.Words.{flag}
use hobbyos.Ring.Window.{window}
use hobbyos.Ring.Transfer.{copy_in-window}
use hobbyos.Tcp.{
  Tcp, TcpState, Conn, conn, set_conn, zero_conn, fin, rst, ack, tcp_ack, tcp_rx_buf_size,
  tcp_send_segment, wake_reader, wake_writer,
}
use hobbyos.Tcp.Input.{
  Received, bytes_at, accepted, store, take_ack, take_data, take_fin, take_rst, on_established,
}
use hobbyos.Tcp.Inv.{IsConn, IsTcp, conn-IsConn, length-bytes_at, accepted-le, take_ack-IsTcp}

-- The bytes that wait to be read, oldest first.
abbrev pub received : Conn → List ℕ
received c = window tcp_rx_buf_size c.rx_buf c.rx_read_pos c.rx_count

-- A part of a connection that sending and waking leave alone.
pub record IsQuiet {κ} {B : Type κ} (part : Conn → B) : Type κ where
  pub of_sent : (c : Conn) (v : ℕ) → part (record c { snd_nxt = v }) ≡ part c
  pub of_acked : (c : Conn) (v : ℕ) → part (record c { snd_una = v }) ≡ part c
  pub of_reader : (c : Conn) → part (record c { blocked_reader = none }) ≡ part c
  pub of_writer : (c : Conn) → part (record c { blocked_writer = none }) ≡ part c

module _ {κ} {B : Type κ} (part : Conn → B) (quiet : IsQuiet part) (i j : ℕ) where
  pub send_segment-quiet :
      (flags : ℕ) (bytes : List ℕ) (n : Tcp)
      → part (conn (tcp_send_segment i flags bytes n) j) ≡ part (conn n j)
  unfolding tcp_send_segment
  send_segment-quiet flags bytes n = elim (Bool-cases (ltb 1500 (20 + length bytes))) [
    | inl e ↦ rw e refl
    | inr e ↦ rw e (get_or-modify_keeps part n.conns i j _ zero_conn (λ c. quiet.of_sent c _))
  ]

  pub wake_reader-quiet : (n : Tcp) → part (conn (wake_reader i n) j) ≡ part (conn n j)
  wake_reader-quiet n = get_or-modify_keeps part n.conns i j _ zero_conn quiet.of_reader

  pub wake_writer-quiet : (n : Tcp) → part (conn (wake_writer i n) j) ≡ part (conn n j)
  wake_writer-quiet n = get_or-modify_keeps part n.conns i j _ zero_conn quiet.of_writer

  pub take_ack-quiet : (s : Received) (n : Tcp) → part (conn (take_ack i s n) j) ≡ part (conn n j)
  unfolding take_ack
  take_ack-quiet s n = elim (Bool-cases (flag s.flags ack)) [
    | inl e ↦ rw e (get_or-modify_keeps part n.conns i j _ zero_conn (λ c. quiet.of_acked c _))
    | inr e ↦ rw e refl
  ]

store-received :
    (s : Received) (c : Conn)
    → IsConn c
    → received (store s c) ≡ received c ++ bytes_at s.memory s.data_off (accepted s c)
store-received s c h =
    let xs = bytes_at s.memory s.data_off (accepted s c) in
    let len = length-bytes_at s.memory s.data_off (accepted s c) in
    let moved =
      copy_in-window tcp_rx_buf_size xs c.rx_buf c.rx_read_pos c.rx_write_pos c.rx_count h.rx
        (rw len (accepted-le s c h.rx.fits)) in
    rw len at (moved.0)

-- The parts that the theorems below follow.
pub record Followed : Type 0 where
  pub waiting : List ℕ
  pub count : ℕ
  pub expected : ℕ
  pub state : TcpState
  pub eof : Bool

abbrev pub follow : Conn → Followed
follow c = record {
  waiting = received c;
  count = c.rx_count;
  expected = c.rcv_nxt;
  state = c.state;
  eof = c.eof;
}

follow-IsQuiet : IsQuiet follow
follow-IsQuiet = record {
  of_sent = λ c v. refl;
  of_acked = λ c v. refl;
  of_reader = λ c. refl;
  of_writer = λ c. refl;
}

abbrev in_order : Received → ℕ → Bool
in_order s expected = ltb 0 s.data_len && (s.seq == expected)

-- How much of the segment's data is taken: what fits, if the segment is the next.
abbrev pub taken : Received → Followed → ℕ
taken s f = if in_order s f.expected then min s.data_len (tcp_rx_buf_size - f.count) else 0

abbrev pub after_data : Received → Followed → Followed
after_data s f = record f {
  waiting = f.waiting ++ bytes_at s.memory s.data_off (taken s f);
  count = f.count + taken s f;
  expected = (f.expected + taken s f) % 2 ^ 32;
}

module _ (i : ℕ) (s : Received) where
  take_data_lem :
      (n : Tcp)
      → IsTcp n
      → i < length n.conns
      → (conn n i).rcv_nxt < 2 ^ 32
      → follow (conn (take_data i s n) i) ≡ after_data s (follow (conn n i))
  unfolding take_data bytes_at
  take_data_lem n t inside small = elim (Bool-cases (in_order s (conn n i).rcv_nxt)) [
    | inr e ↦
        rw (e, append-nil)
          (ap₂ (λ v m. record (follow (conn n i)) { expected = v; count = m }) (omega arith)
            (omega arith))
    | inl e ↦
        (let c = conn n i in
          let m = set_conn i (store s) n in
          let k : accepted s c ≡ min s.data_len (tcp_rx_buf_size - c.rx_count) = ground arith in
          rw e (
            wake_reader-quiet follow follow-IsQuiet i i (tcp_send_segment i tcp_ack [] m)
            ∙ send_segment-quiet follow follow-IsQuiet i i tcp_ack [] m
            ∙ ap follow (get_or-modify_self n.conns i (store s) zero_conn inside)
            ∙ ap
                (λ w. record (follow c) {
                  waiting = w;
                  count = c.rx_count + accepted s c;
                  expected = (c.rcv_nxt + accepted s c) % 2 ^ 32;
                })
                (store-received s c (conn-IsConn n i t))
            ∙ ap
                (λ m. record (follow c) {
                  waiting = received c ++ bytes_at s.memory s.data_off m;
                  count = c.rx_count + m;
                  expected = (c.rcv_nxt + m) % 2 ^ 32;
                })
                k))
  ]

  pub length-take_ack : (n : Tcp) → length (take_ack i s n).conns ≡ length n.conns
  unfolding take_ack
  length-take_ack n = elim (Bool-cases (flag s.flags ack)) [
    | inl e ↦ rw e (length-modify n.conns i _)
    | inr e ↦ rw e refl
  ]

  -- The data of a segment, after its acknowledgement has been read.
  data_lem :
      (n : Tcp)
      → IsTcp n
      → i < length n.conns
      → (conn n i).rcv_nxt < 2 ^ 32
      → follow (conn (take_data i s (take_ack i s n)) i) ≡ after_data s (follow (conn n i))
  data_lem n t inside small =
      let same = take_ack-quiet follow follow-IsQuiet i i s n in
      take_data_lem (take_ack i s n) (take_ack-IsTcp i s n t) (rw length-take_ack inside)
        (subst (λ (f : Followed). f.expected < 2 ^ 32) (sym same) small)
      ∙ ap (after_data s) same

  -- On a segment of an established connection without FIN and RST, the bytes of the segment join
  -- those that wait to be read, as many as there is room for, if its number is the expected one, and
  -- the next number expected moves on by as many; otherwise what waits stays as it is.
  pub established_data :
      (n : Tcp)
      → IsTcp n
      → i < length n.conns
      → (conn n i).rcv_nxt < 2 ^ 32
      → flag s.flags fin ≡ false
      → flag s.flags rst ≡ false
      → follow (conn (on_established i s n) i) ≡ after_data s (follow (conn n i))
  unfolding on_established take_fin take_rst
  established_data n t inside small no_fin no_rst = rw (no_fin, no_rst) (data_lem n t inside small)

  -- After a FIN.
  abbrev after_fin : Followed → Followed
  after_fin f = record f {
    expected = (s.seq + s.data_len + 1) % 2 ^ 32;
    state = TcpState.close_wait;
    eof = true;
  }

  take_fin_lem :
      (n : Tcp)
      → i < length n.conns
      → flag s.flags fin ≡ true
      → follow (conn (take_fin i s n) i) ≡ after_fin (follow (conn n i))
  unfolding take_fin
  take_fin_lem n inside with_fin =
      let close : Conn → Conn = λ c. record c {
        rcv_nxt = (s.seq + s.data_len + 1) % 2 ^ 32;
        state = TcpState.close_wait;
        eof = true;
      } in
      let m = set_conn i close n in
      rw with_fin (
        wake_reader-quiet follow follow-IsQuiet i i (tcp_send_segment i tcp_ack [] m)
        ∙ send_segment-quiet follow follow-IsQuiet i i tcp_ack [] m
        ∙ ap follow (get_or-modify_self n.conns i close zero_conn inside))

  out_of_order : (n : Tcp) → (s.seq == (conn n i).rcv_nxt) ≡ false → take_data i s n ≡ n
  unfolding take_data
  out_of_order n gap =
      let no : in_order s (conn n i).rcv_nxt ≡ false = ground (arith, gap) in rw no refl

  -- A FIN is taken whatever its number: on a segment that is not the expected one, the connection
  -- still passes to CLOSE_WAIT and expects what follows the FIN, so that the bytes between are never
  -- waited for, while what waits to be read stays as it was.
  pub fin_skips :
      (n : Tcp)
      → i < length n.conns
      → flag s.flags fin ≡ true
      → flag s.flags rst ≡ false
      → (s.seq == (conn n i).rcv_nxt) ≡ false
      → follow (conn (on_established i s n) i) ≡ (
          let f = follow (conn n i) in
          record f {
            expected = (s.seq + s.data_len + 1) % 2 ^ 32;
            state = TcpState.close_wait;
            eof = true;
          })
  unfolding on_established take_rst
  fin_skips n inside with_fin no_rst gap =
      let m = take_ack i s n in
      let same = take_ack-quiet follow follow-IsQuiet i i s n in
      let gap' : (s.seq == (conn m i).rcv_nxt) ≡ false =
        subst (λ (f : Followed). (s.seq == f.expected) ≡ false) (sym same) gap in
      rw no_rst (
        ap (λ k. follow (conn (take_fin i s k) i)) (out_of_order m gap')
        ∙ take_fin_lem m (rw length-take_ack inside) with_fin
        ∙ ap after_fin same)
