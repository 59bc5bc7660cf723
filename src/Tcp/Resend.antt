-- ===== src/Tcp/Resend.antt =====
-- Data that is sent is sent again three times and then the connection is reset, whether it has been
-- acknowledged or not.
use hobbyos.Base.{
  ℕ, zero, suc, ◌+◌, ◌-◌, ◌≤◌, ◌<◌, ◌≡◌, refl, sym, ap, ap₂, ◌∙◌, subst, Bool, true, false, ◌&&◌,
  List, [], ◌++◌, ltb, ◌==◌, length, length-modify, get_or-modify_self, get_or-modify_keeps, drop,
  arith, Bool-cases, inl, inr, ==→eq, ==→ne,
}
use hobbyos.Base.Words.{flag}
use hobbyos.Tcp.{
  Tcp, TcpState, Conn, conn, set_conn, zero_conn, fin, rst, tcp_ack, tcp_ack_psh, tcp_max_conns,
  tcp_send_segment,
}
use hobbyos.Tcp.Input.{Received, store, take_ack, take_data, take_fin, take_rst, on_established}
use hobbyos.Tcp.Timer.{tick_conn, tick_from, tcp_tick}
use hobbyos.Tcp.Calls.{send_chunk}
use hobbyos.Tcp.Stream.{send_segment-quiet, wake_reader-quiet, take_ack-quiet, length-take_ack}
use hobbyos.Tcp.Elsewhere.{tick-elsewhere}
use hobbyos.Tcp.Timeout.{
  Clock, clock, clock-IsQuiet, tick, wait_more, tick_conn-clock, length-tick_conn, length-send,
}

passed : (left j i : ℕ) (n : Tcp) → i < j → conn (tick_from left j n) i ≡ conn n i
unfolding tick_from
passed zero j i n lt = refl
passed (suc left) j i n lt =
    passed left (j + 1) i (tick_conn j n) (omega arith) ∙ tick-elsewhere j i (λ e. omega arith) n

reached :
    (left j i : ℕ) (n : Tcp)
    → j ≤ i
    → i < j + left
    → i < length n.conns
    → clock (conn (tick_from left j n) i) ≡ tick (clock (conn n i))
unfolding tick_from
reached zero j i n le lt inside = absurd (omega arith)
reached (suc left) j i n le lt inside = elim (Bool-cases (j == i)) [
  | inl e ↦
      (let same = ==→eq j i e in
        ap clock (passed left (j + 1) i (tick_conn j n) (omega arith))
        ∙ subst (λ k. clock (conn (tick_conn k n) i) ≡ tick (clock (conn n i))) (sym same)
            (tick_conn-clock i n inside))
  | inr e ↦
      reached left (j + 1) i (tick_conn j n) (ground (arith, e)) (omega arith)
        (rw length-tick_conn inside)
      ∙ ap (λ c. tick (clock c)) (tick-elsewhere j i (==→ne j i e) n)
]

length-tick_from : (left j : ℕ) (n : Tcp) → length (tick_from left j n).conns ≡ length n.conns
unfolding tick_from
length-tick_from zero j n = refl
length-tick_from (suc left) j n =
    length-tick_from left (j + 1) (tick_conn j n) ∙ length-tick_conn j n

-- So many ticks of the clock.
abbrev pub ticks : ℕ → Tcp → Tcp
ticks zero n = n
ticks (suc k) n = ticks k (tcp_tick n)

abbrev rounds : ℕ → Clock → Clock
rounds zero q = q
rounds (suc k) q = rounds k (tick q)

ticks-clock :
    (k i : ℕ) (n : Tcp)
    → i < tcp_max_conns
    → length n.conns ≡ tcp_max_conns
    → clock (conn (ticks k n) i) ≡ rounds k (clock (conn n i))
unfolding tcp_tick
ticks-clock zero i n hi size = refl
ticks-clock (suc k) i n hi size =
    ticks-clock k i (tcp_tick n) hi (length-tick_from tcp_max_conns 0 n ∙ size)
    ∙ ap (rounds k) (reached tcp_max_conns 0 i n (omega arith) hi (rw size hi))

-- An established connection whose last chunk has `len` bytes.
abbrev waiting : ℕ → ℕ → ℕ → Clock
waiting len timer count = record {
  state = TcpState.established;
  in_use = true;
  len = len;
  timer = timer;
  count = count;
}

rounds-add : (a b : ℕ) (q : Clock) → rounds (a + b) q ≡ rounds b (rounds a q)
rounds-add zero b q = let e : zero + b ≡ b = omega arith in ap (λ k. rounds k q) e
rounds-add (suc a) b q =
    let e : suc a + b ≡ suc (a + b) = omega arith in
    ap (λ k. rounds k q) e ∙ rounds-add a b (tick q)

module _ (len : ℕ) (some_data : 0 < len) where
  step :
      (timer count : ℕ) → 0 < timer → tick (waiting len (timer + 1) count) ≡ waiting len timer count
  unfolding tick wait_more
  step timer count h =
      let go : (ltb 0 len && ltb 0 (timer + 1)) ≡ true = ground (arith, some_data) in
      let left : timer + 1 - 1 ≡ timer = omega arith in
      let more : (timer == 0) ≡ false = ground (arith, h) in rw (go, left, more) refl

  count_down :
      (k timer count : ℕ)
      → 0 < timer
      → rounds k (waiting len (k + timer) count) ≡ waiting len timer count
  count_down zero timer count h =
      let e : zero + timer ≡ timer = omega arith in ap (λ t. waiting len t count) e
  count_down (suc k) timer count h =
      let e : suc k + timer ≡ k + timer + 1 = omega arith in
      ap (λ t. rounds k (tick (waiting len t count))) e
      ∙ ap (rounds k) (step (k + timer) count (omega arith))
      ∙ count_down k timer count h

  again : (count : ℕ) → count < 3 → tick (waiting len 1 count) ≡ waiting len 50 (count + 1)
  unfolding tick wait_more
  again count h =
      let go : (ltb 0 len && ltb 0 1) ≡ true = ground (arith, some_data) in
      let few : ltb count 3 ≡ true = ground (arith, h) in rw (go, few) refl

  last : (tick (waiting len 1 3)).state ≡ TcpState.closed
  unfolding tick wait_more
  last = let go : (ltb 0 len && ltb 0 1) ≡ true = ground (arith, some_data) in rw go refl

  lap : (count : ℕ) → count < 3 → rounds 50 (waiting len 50 count) ≡ waiting len 50 (count + 1)
  lap count h =
      rounds-add 49 1 (waiting len 50 count)
      ∙ ap (rounds 1) (count_down 49 1 count (omega arith))
      ∙ again count h

  -- 150 ticks with three more transmissions, and 50 until the connection is given up.
  runs_out : (rounds 200 (waiting len 50 0)).state ≡ TcpState.closed
  runs_out =
      ap (λ (q : Clock). q.state)
        (rounds-add 50 150 (waiting len 50 0)
          ∙ ap (rounds 150) (lap 0 (omega arith))
          ∙ rounds-add 50 100 (waiting len 50 1)
          ∙ ap (rounds 100) (lap 1 (omega arith))
          ∙ rounds-add 50 50 (waiting len 50 2)
          ∙ ap (rounds 50) (lap 2 (omega arith))
          ∙ rounds-add 49 1 (waiting len 50 3)
          ∙ ap (rounds 1) (count_down 49 1 3 (omega arith)))
      ∙ last

-- A segment without FIN and RST leaves the clock of an established connection as it is, whatever it
-- acknowledges.
module _ (i : ℕ) (s : Received) (no_fin : flag s.flags fin ≡ false)
    (no_rst : flag s.flags rst ≡ false) where
  take_data-clock : (n : Tcp) → clock (conn (take_data i s n) i) ≡ clock (conn n i)
  unfolding take_data
  take_data-clock n =
      let m = set_conn i (store s) n in
      elim (Bool-cases (ltb 0 s.data_len && (s.seq == (conn n i).rcv_nxt))) [
        | inr e ↦ rw e refl
        | inl e ↦ rw e (
            wake_reader-quiet clock clock-IsQuiet i i (tcp_send_segment i tcp_ack [] m)
            ∙ send_segment-quiet clock clock-IsQuiet i i tcp_ack [] m
            ∙ get_or-modify_keeps clock n.conns i i (store s) zero_conn (λ c. refl))
      ]

  established-clock : (n : Tcp) → clock (conn (on_established i s n) i) ≡ clock (conn n i)
  unfolding on_established take_fin take_rst
  established-clock n =
      rw (no_fin, no_rst)
        (take_data-clock (take_ack i s n) ∙ take_ack-quiet clock clock-IsQuiet i i s n)

  length-take_data : (n : Tcp) → length (take_data i s n).conns ≡ length n.conns
  unfolding take_data
  length-take_data n = elim (Bool-cases (ltb 0 s.data_len && (s.seq == (conn n i).rcv_nxt))) [
    | inr e ↦ rw e refl
    | inl e ↦ rw e (
        length-modify (tcp_send_segment i tcp_ack [] (set_conn i (store s) n)).conns i _
        ∙ length-send i tcp_ack [] (set_conn i (store s) n)
        ∙ length-modify n.conns i _)
  ]

  length-established : (n : Tcp) → length (on_established i s n).conns ≡ length n.conns
  unfolding on_established take_fin take_rst
  length-established n =
      rw (no_fin, no_rst) (length-take_data (take_ack i s n) ∙ length-take_ack i s n)

length-send_chunk :
    (i : ℕ) (chunk : List ℕ) (n : Tcp) → length (send_chunk i chunk n).conns ≡ length n.conns
unfolding send_chunk
length-send_chunk i chunk n = rw (length-send, length-modify) refl

send_chunk-clock :
    (i : ℕ) (chunk : List ℕ) (n : Tcp)
    → i < length n.conns
    → (conn n i).state ≡ TcpState.established
    → (conn n i).in_use ≡ true
    → clock (conn (send_chunk i chunk n) i) ≡ waiting (length chunk) 50 0
unfolding send_chunk
send_chunk-clock i chunk n inside est used =
    let keep : Conn → Conn = λ c. record c {
      retransmit_seq = c.snd_nxt;
      retransmit_data = chunk ++ drop (length chunk) c.retransmit_data;
      retransmit_len = length chunk;
      retransmit_timer = 50;
      retransmit_count = 0;
    } in
    send_segment-quiet clock clock-IsQuiet i i tcp_ack_psh chunk (set_conn i keep n)
    ∙ ap clock (get_or-modify_self n.conns i keep zero_conn inside)
    ∙ ap₂
        (λ (s : TcpState) (u : Bool). record {
          state = s;
          in_use = u;
          len = length chunk;
          timer = 50;
          count = 0;
        })
        est used

-- A chunk that is sent on an established connection, and then any segment of the peer without FIN
-- and RST, be it the acknowledgement of the chunk: 200 ticks later the connection is closed.
pub acknowledged_reset :
    (i : ℕ) (chunk : List ℕ) (s : Received) (n : Tcp)
    → i < tcp_max_conns
    → length n.conns ≡ tcp_max_conns
    → (conn n i).state ≡ TcpState.established
    → (conn n i).in_use ≡ true
    → 0 < length chunk
    → flag s.flags fin ≡ false
    → flag s.flags rst ≡ false
    → (conn (ticks 200 (on_established i s (send_chunk i chunk n))) i).state ≡ TcpState.closed
acknowledged_reset i chunk s n hi size est used some_data no_fin no_rst =
    let m = send_chunk i chunk n in
    let before : clock (conn (on_established i s m) i) ≡ waiting (length chunk) 50 0 =
      established-clock i s no_fin no_rst m ∙ send_chunk-clock i chunk n (rw size hi) est used in
    ap (λ (q : Clock). q.state)
      (ticks-clock 200 i (on_established i s m) hi
          (length-established i s no_fin no_rst m ∙ length-send_chunk i chunk n ∙ size)
        ∙ ap (rounds 200) before)
    ∙ runs_out (length chunk) some_data
