-- ===== src/Tcp/Elsewhere.antt =====
-- A connection's tick leaves the other connections alone.
use hobbyos.Base.{
  ℕ, ◌+◌, ◌-◌, ◌≡◌, ◌≢◌, refl, ◌∙◌, Bool, true, false, ◌&&◌, List, [], ltb, ◌==◌, not,
  if◌then◌else◌, length, get_or-modify_ne, take, Bool-cases, inl, inr,
}
use hobbyos.Tcp.{
  Tcp, TcpState, Conn, conn, set_conn, zero_conn, is_time_wait, tcp_ack_psh, tcp_rst,
  tcp_send_segment, wake_reader,
}
use hobbyos.Tcp.Timer.{resend, give_up, retransmit, linger, time_out, tick_conn}

-- Another connection's tick.
module _ (j i : ℕ) (ne : j ≢ i) where
  elsewhere : (f : Conn → Conn) (n : Tcp) → conn (set_conn j f n) i ≡ conn n i
  elsewhere f n = get_or-modify_ne n.conns j i f zero_conn ne

  send-elsewhere :
      (flags : ℕ) (bytes : List ℕ) (n : Tcp) → conn (tcp_send_segment j flags bytes n) i ≡ conn n i
  unfolding tcp_send_segment
  send-elsewhere flags bytes n = elim (Bool-cases (ltb 1500 (20 + length bytes))) [
    | inl e ↦ rw e refl
    | inr e ↦ rw e (elsewhere _ n)
  ]

  resend-elsewhere : (n : Tcp) → conn (resend j n) i ≡ conn n i
  unfolding resend
  resend-elsewhere n =
      let c = conn n j in
      let m = set_conn j (λ c'. record c' { snd_nxt = c.retransmit_seq }) n in
      let bytes = take c.retransmit_len c.retransmit_data in
      elsewhere _ (tcp_send_segment j tcp_ack_psh bytes m)
      ∙ send-elsewhere tcp_ack_psh bytes m
      ∙ elsewhere _ n

  give_up-elsewhere : (n : Tcp) → conn (give_up j n) i ≡ conn n i
  unfolding give_up
  give_up-elsewhere n =
      let m1 = set_conn j (λ c. record c { retransmit_len = 0 }) n in
      let m2 = tcp_send_segment j tcp_rst [] m1 in
      let m3 = set_conn j (λ c. record c { state = TcpState.closed }) m2 in
      elsewhere _ (wake_reader j m3)
      ∙ elsewhere _ m3
      ∙ elsewhere _ m2
      ∙ send-elsewhere tcp_rst [] m1
      ∙ elsewhere _ n

  if-elsewhere :
      (b : Bool) (x y n : Tcp)
      → conn x i ≡ conn n i
      → conn y i ≡ conn n i
      → conn (if b then x else y) i ≡ conn n i
  if-elsewhere true x y n hx hy = hx
  if-elsewhere false x y n hx hy = hy

  retransmit-elsewhere : (n : Tcp) → conn (retransmit j n) i ≡ conn n i
  unfolding retransmit
  retransmit-elsewhere n =
      let c = conn n j in
      let less : Conn → Conn = λ c'. record c' { retransmit_timer = c'.retransmit_timer - 1 } in
      let n' = set_conn j less n in
      let dec = elsewhere less n in
      if-elsewhere (ltb 0 c.retransmit_len && ltb 0 c.retransmit_timer) _ n n
        (if-elsewhere (c.retransmit_timer - 1 == 0) _ n' n
          (if-elsewhere (ltb c.retransmit_count 3) (resend j n') (give_up j n') n
            (resend-elsewhere n' ∙ dec) (give_up-elsewhere n' ∙ dec))
          dec)
        refl

  pub tick-elsewhere : (n : Tcp) → conn (tick_conn j n) i ≡ conn n i
  unfolding tick_conn time_out
  tick-elsewhere n =
      let m = retransmit j n in
      if-elsewhere (not (conn n j).in_use) n _ n refl (
        if-elsewhere (is_time_wait (conn m j).state) (set_conn j linger m) m n
          (elsewhere linger m ∙ retransmit-elsewhere n) (retransmit-elsewhere n))
