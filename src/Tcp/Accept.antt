-- ===== src/Tcp/Accept.antt =====
-- The accept queue of a listening connection.
use hobbyos.Base.{
  ℕ, ◌+◌, ◌%◌, ◌<◌, ◌≡◌, refl, ap, ◌∙◌, true, false, none, some, List, [], ◌∷◌, ◌++◌, ltb, ◌==◌,
  if◌then◌else◌, length, set, get_or-modify_self, get_or-modify_keeps, length-modify, arith, ==→ne,
  get_or-modify_ne, Bool-cases, inl, inr,
}
use hobbyos.Base.Words.{flag}
use hobbyos.Ring.Window.{window, window_push}
use hobbyos.Tcp.{Tcp, TcpState, Conn, conn, set_conn, zero_conn, ack, tcp_accept_queue}
use hobbyos.Tcp.Input.{Received, offer, on_syn_received}
use hobbyos.Tcp.Inv.{IsTcp, conn-IsConn, kept}

-- The connections that wait to be accepted, oldest first.
abbrev pub queued : Conn → List ℕ
queued c = window tcp_accept_queue c.accept_queue c.accept_head c.accept_count

-- A connection that is established joins its parent's queue behind the others, if fewer than four
-- wait; otherwise the queue stays as it is.
offer-queued :
    (i q : ℕ) (n : Tcp)
    → IsTcp n
    → q < length n.conns
    → queued (conn (offer i (some q) n) q)
      ≡ (if ltb (conn n q).accept_count 4 then queued (conn n q) ++ (i ∷ []) else queued (conn n q))
unfolding offer
offer-queued i q n t inside = elim (Bool-cases (ltb (conn n q).accept_count 4)) [
  | inr full ↦ rw full refl
  | inl room ↦
      (let c = conn n q in
        let h = conn-IsConn n q t in
        let join : Conn → Conn = λ c. record c {
          accept_queue = set c.accept_queue c.accept_tail i;
          accept_tail = (c.accept_tail + 1) % tcp_accept_queue;
          accept_count = c.accept_count + 1;
        } in
        rw room (
          get_or-modify_keeps queued (set_conn q join n).conns q q
            (λ (c : Conn). record c { blocked_accepter = none }) zero_conn (λ c. refl)
          ∙ ap queued (get_or-modify_self n.conns q join zero_conn inside)
          ∙ ap (λ w. window 4 (set c.accept_queue w i) c.accept_head (c.accept_count + 1))
              h.queue.writer
          ∙ window_push 4 c.accept_queue c.accept_head c.accept_count i
              (omega (arith, h.queue.size)) h.queue.reader (ground (arith, room))))
]

offer-state : (i q : ℕ) (n : Tcp) → (conn (offer i (some q) n) i).state ≡ (conn n i).state
unfolding offer
offer-state i q n = elim (Bool-cases (ltb (conn n q).accept_count 4)) [
  | inr full ↦ rw full refl
  | inl room ↦
      (let join : Conn → Conn = λ c. record c {
        accept_queue = set c.accept_queue c.accept_tail i;
        accept_tail = (c.accept_tail + 1) % tcp_accept_queue;
        accept_count = c.accept_count + 1;
      } in
        let state : Conn → TcpState = λ c. c.state in
        rw room (
          get_or-modify_keeps state (set_conn q join n).conns q i
            (λ (c : Conn). record c { blocked_accepter = none }) zero_conn (λ c. refl)
          ∙ get_or-modify_keeps state n.conns q i join zero_conn (λ c. refl)))
]

-- The acknowledgement that ends the handshake of the connection `i`, a child of `q`: it is
-- established, and joins its parent's accept queue behind the others if fewer than four wait. With
-- four in the queue it is established all the same, and the queue stays as it is.
pub syn_received_lem :
    (i q : ℕ) (s : Received) (n : Tcp)
    → IsTcp n
    → i < length n.conns
    → q < length n.conns
    → (i == q) ≡ false
    → flag s.flags ack ≡ true
    → (conn n i).parent_idx ≡ some q
    → (let n' = on_syn_received i s n in
        ((conn n' i).state ≡ TcpState.established)
        × (queued (conn n' q) ≡ (
            if ltb (conn n q).accept_count 4
            then queued (conn n q) ++ (i ∷ [])
            else queued (conn n q))))
unfolding on_syn_received
syn_received_lem i q s n t hi hq other with_ack parent =
    let open_up : Conn → Conn =
      λ c. record c { snd_una = s.ack_num; state = TcpState.established } in
    let m = set_conn i open_up n in
    let same : conn m q ≡ conn n q =
      get_or-modify_ne n.conns i q open_up zero_conn (==→ne i q other) in
    let t' : IsTcp m = kept n i open_up t (λ c h. record { rx = h.rx; queue = h.queue }) in
    let joins =
      offer-queued i q m t' (rw length-modify hq)
      ∙ ap (λ (c : Conn). if ltb c.accept_count 4 then queued c ++ (i ∷ []) else queued c) same in
    rw with_ack (
      ap (λ p. (conn (offer i p m) i).state) parent
          ∙ offer-state i q m
          ∙ ap (λ (c : Conn). c.state) (get_or-modify_self n.conns i open_up zero_conn hi),
      ap (λ p. queued (conn (offer i p m) q)) parent ∙ joins,
    )
