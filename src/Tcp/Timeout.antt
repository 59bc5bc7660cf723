-- ===== src/Tcp/Timeout.antt =====
-- The clock of one connection: what `tcp_tick` does to it, apart from the other connections.
use hobbyos.Base.{
  ℕ, ◌+◌, ◌-◌, ◌<◌, ◌≡◌, refl, ap, ◌∙◌, Bool, true, false, ◌&&◌, List, [], ltb, ◌==◌, not,
  if◌then◌else◌, length, length-modify, get_or-modify_self, take, Bool-cases, inl, inr,
}
use hobbyos.Tcp.{
  Tcp, TcpState, Conn, conn, set_conn, zero_conn, is_time_wait, tcp_ack_psh, tcp_rst,
  tcp_send_segment, wake_reader,
}
use hobbyos.Tcp.Timer.{resend, give_up, retransmit, linger, time_out, tick_conn}
use hobbyos.Tcp.Stream.{IsQuiet, send_segment-quiet, wake_reader-quiet, wake_writer-quiet}

-- What the clock acts on.
pub record Clock : Type 0 where
  pub state : TcpState
  pub in_use : Bool
  pub len : ℕ
  pub timer : ℕ
  pub count : ℕ

abbrev pub clock : Conn → Clock
clock c = record {
  state = c.state;
  in_use = c.in_use;
  len = c.retransmit_len;
  timer = c.retransmit_timer;
  count = c.retransmit_count;
}

pub clock-IsQuiet : IsQuiet clock
clock-IsQuiet = record {
  of_sent = λ c v. refl;
  of_acked = λ c v. refl;
  of_reader = λ c. refl;
  of_writer = λ c. refl;
}

-- One tick of a connection that sends again at most three times, and then gives up.
unfoldable pub wait_more : Clock → Clock
wait_more q =
    if ltb 0 q.len && ltb 0 q.timer
    then if q.timer - 1 == 0
      then if ltb q.count 3
        then record q { timer = 50; count = q.count + 1 }
        else record q { timer = q.timer - 1; len = 0; state = TcpState.closed }
      else record q { timer = q.timer - 1 }
    else q

abbrev pub linger_on : Clock → Clock
linger_on q =
    let left = (if q.timer == 0 then 200 else q.timer) - 1 in
    if left == 0
    then record q { timer = left; state = TcpState.closed; in_use = false }
    else record q { timer = left }

unfoldable pub tick : Clock → Clock
unfolding wait_more
tick q =
    if not q.in_use
    then q
    else let q' = wait_more q in if is_time_wait q'.state then linger_on q' else q'

pub length-send :
    (i flags : ℕ) (bytes : List ℕ) (n : Tcp)
    → length (tcp_send_segment i flags bytes n).conns ≡ length n.conns
unfolding tcp_send_segment
length-send i flags bytes n = elim (Bool-cases (ltb 1500 (20 + length bytes))) [
  | inl e ↦ rw e refl
  | inr e ↦ rw e (length-modify n.conns i _)
]

-- A change of a connection, as its clock shows it.
changed :
    (i : ℕ) (f : Conn → Conn) (u : Clock → Clock) (n : Tcp)
    → i < length n.conns
    → ((c : Conn) → clock (f c) ≡ u (clock c))
    → clock (conn (set_conn i f n) i) ≡ u (clock (conn n i))
changed i f u n inside h = ap clock (get_or-modify_self n.conns i f zero_conn inside) ∙ h (conn n i)

module _ (i : ℕ) (n : Tcp) (inside : i < length n.conns) where
  resend-clock :
      clock (conn (resend i n) i)
      ≡ (let q = clock (conn n i) in record q { timer = 50; count = q.count + 1 })
  unfolding resend
  resend-clock =
      let c = conn n i in
      let m = set_conn i (λ c'. record c' { snd_nxt = c.retransmit_seq }) n in
      let m' = tcp_send_segment i tcp_ack_psh (take c.retransmit_len c.retransmit_data) m in
      let u : Clock → Clock = λ q. record q { timer = 50; count = q.count + 1 } in
      changed i _ u m' (rw (length-send, length-modify) inside) (λ c. refl)
      ∙ ap u (
          send_segment-quiet clock clock-IsQuiet i i tcp_ack_psh
            (take c.retransmit_len c.retransmit_data) m
          ∙ changed i _ (λ q. q) n inside (λ c. refl))

  give_up-clock :
      clock (conn (give_up i n) i)
      ≡ (let q = clock (conn n i) in record q { len = 0; state = TcpState.closed })
  unfolding give_up
  give_up-clock =
      let m1 = set_conn i (λ c. record c { retransmit_len = 0 }) n in
      let m2 = tcp_send_segment i tcp_rst [] m1 in
      let m3 = set_conn i (λ c. record c { state = TcpState.closed }) m2 in
      let u : Clock → Clock = λ q. record q { state = TcpState.closed } in
      let v : Clock → Clock = λ q. record q { len = 0 } in
      wake_writer-quiet clock clock-IsQuiet i i (wake_reader i m3)
      ∙ wake_reader-quiet clock clock-IsQuiet i i m3
      ∙ changed i _ u m2 (rw (length-send, length-modify) inside) (λ c. refl)
      ∙ ap u (
          send_segment-quiet clock clock-IsQuiet i i tcp_rst [] m1
          ∙ changed i _ v n inside (λ c. refl))

retransmit-clock :
    (i : ℕ) (n : Tcp)
    → i < length n.conns
    → clock (conn (retransmit i n) i) ≡ wait_more (clock (conn n i))
unfolding retransmit wait_more
retransmit-clock i n inside =
    let c = conn n i in
    let less : Conn → Conn = λ c'. record c' { retransmit_timer = c'.retransmit_timer - 1 } in
    let n' = set_conn i less n in
    let inside' : i < length n'.conns = rw (length-modify n.conns i less) inside in
    let dec = changed i less (λ q. record q { timer = q.timer - 1 }) n inside (λ c. refl) in
    elim (Bool-cases (ltb 0 c.retransmit_len && ltb 0 c.retransmit_timer)) [
      | inr e ↦ rw e refl
      | inl e ↦ elim (Bool-cases (c.retransmit_timer - 1 == 0)) [
        | inr l ↦ rw (e, l) dec
        | inl l ↦ elim (Bool-cases (ltb c.retransmit_count 3)) [
          | inl f ↦
              rw (e, l, f)
                (resend-clock i n' inside'
                  ∙ ap (λ (q : Clock). record q { timer = 50; count = q.count + 1 }) dec)
          | inr f ↦
              rw (e, l, f)
                (give_up-clock i n' inside'
                  ∙ ap (λ (q : Clock). record q { len = 0; state = TcpState.closed }) dec)
        ]
      ]
    ]

length-retransmit : (i : ℕ) (n : Tcp) → length (retransmit i n).conns ≡ length n.conns
unfolding retransmit resend give_up
length-retransmit i n =
    let c = conn n i in
    elim (Bool-cases (ltb 0 c.retransmit_len && ltb 0 c.retransmit_timer)) [
      | inr e ↦ rw e refl
      | inl e ↦ elim (Bool-cases (c.retransmit_timer - 1 == 0)) [
        | inr l ↦ rw (e, l) (length-modify n.conns i _)
        | inl l ↦ elim (Bool-cases (ltb c.retransmit_count 3)) [
          | inl f ↦
              rw (e, l, f) (rw (length-modify, length-send, length-modify, length-modify) refl)
          | inr f ↦
              rw (e, l, f)
                (rw
                  (
                    length-modify, length-modify, length-modify, length-send, length-modify,
                    length-modify,
                  )
                  refl)
        ]
      ]
    ]

linger-clock : (c : Conn) → clock (linger c) ≡ linger_on (clock c)
linger-clock c =
    elim (Bool-cases ((if c.retransmit_timer == 0 then 200 else c.retransmit_timer) - 1 == 0)) [
      | inl e ↦ rw e refl
      | inr e ↦ rw e refl
    ]

-- The two tests, on either of their values.
lingers :
    (i : ℕ) (m : Tcp)
    → i < length m.conns
    → (b : Bool)
    → clock (conn (if b then set_conn i linger m else m) i)
      ≡ (if b then linger_on (clock (conn m i)) else clock (conn m i))
lingers i m inside true = changed i linger linger_on m inside linger-clock
lingers i m inside false = refl

abbrev end : Clock → Clock
end q = if is_time_wait q.state then linger_on q else q

if_used :
    (i : ℕ) (n m : Tcp) (q : Clock)
    → clock (conn m i) ≡ q
    → (b : Bool) → clock (conn (if not b then n else m) i) ≡ (if not b then clock (conn n i) else q)
if_used i n m q h true = h
if_used i n m q h false = refl

pub tick_conn-clock :
    (i : ℕ) (n : Tcp)
    → i < length n.conns
    → clock (conn (tick_conn i n) i) ≡ tick (clock (conn n i))
unfolding tick_conn time_out tick
tick_conn-clock i n inside =
    let m = retransmit i n in
    let later : clock (conn (time_out i m) i) ≡ end (wait_more (clock (conn n i))) =
      lingers i m (rw length-retransmit inside) (is_time_wait (conn m i).state)
      ∙ ap end (retransmit-clock i n inside) in
    if_used i n (time_out i m) _ later (conn n i).in_use

pub length-tick_conn : (i : ℕ) (n : Tcp) → length (tick_conn i n).conns ≡ length n.conns
unfolding tick_conn time_out
length-tick_conn i n = elim (Bool-cases (conn n i).in_use) [
  | inr e ↦ rw e refl
  | inl e ↦ elim (Bool-cases (is_time_wait (conn (retransmit i n) i).state)) [
    | inl w ↦ rw (e, w) (length-modify (retransmit i n).conns i linger ∙ length-retransmit i n)
    | inr w ↦ rw (e, w) (length-retransmit i n)
  ]
]
