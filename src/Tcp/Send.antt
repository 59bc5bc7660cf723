-- ===== src/Tcp/Send.antt =====
-- What `tcp_send` hands to the network.
use hobbyos.Base.{
  ℕ, zero, suc, ◌+◌, ◌%◌, ◌^◌, ◌≤◌, ◌<◌, ◌≡◌, refl, sym, ap, ◌∙◌, subst, true, false, List, [], ◌∷◌,
  ◌++◌, ltb, ◌||◌, length, length-append, length-take, length-modify, take, drop, take-append-drop,
  get_or-modify_self, All, arith, append-nil, append_assoc,
}
use hobbyos.Tcp.{
  Tcp, TcpSegment, Conn, conn, set_conn, zero_conn, is_established, is_close_wait, tcp_ack_psh,
  tcp_send_segment, segment_of, seq_space,
}
use hobbyos.Tcp.Calls.{send_chunk, send_loop, tcp_send}

-- The bytes of segments, the latest segment first.
abbrev pub stream : List TcpSegment → List ℕ
stream [] = []
stream (s ∷ older) = stream older ++ s.payload

-- The segments follow each other in sequence from the number `a`.
abbrev pub Numbered : ℕ → List TcpSegment → Type 0
Numbered a [] = Unit
Numbered a (s ∷ older) = (s.seq_num ≡ (a + length (stream older)) % 2 ^ 32) × Numbered a older

abbrev pub Fits : TcpSegment → Type 0
Fits s = (0 < length s.payload) × (length s.payload ≤ 1460)

stream-append :
    (xs : List TcpSegment) (s : TcpSegment) → stream (xs ++ (s ∷ [])) ≡ s.payload ++ stream xs
stream-append [] s = sym (append-nil s.payload)
stream-append (x ∷ xs) s =
    ap (λ t. t ++ x.payload) (stream-append xs s) ∙ append_assoc s.payload (stream xs) x.payload

All-append-one :
    (xs : List TcpSegment) (s : TcpSegment) → All Fits xs → Fits s → All Fits (xs ++ (s ∷ []))
All-append-one [] s h p = (p, tt)
All-append-one (x ∷ xs) s h p = (h.0, All-append-one xs s h.1 p)

Numbered-append :
    (a : ℕ) (xs : List TcpSegment) (s : TcpSegment)
    → a < 2 ^ 32
    → s.seq_num ≡ a
    → Numbered ((a + length s.payload) % 2 ^ 32) xs
    → Numbered a (xs ++ (s ∷ []))
Numbered-append a [] s small e h = (omega arith, tt)
Numbered-append a (x ∷ xs) s small e h =
    let len : length (stream (xs ++ (s ∷ []))) ≡ length s.payload + length (stream xs) =
      ap length (stream-append xs s) ∙ length-append s.payload (stream xs) in
    (omega (arith, h.0, len), Numbered-append a xs s small e h.1)

-- The segments `new` carry the bytes, in order and in sequence, each at most 1460 of them.
pub record Sends (i : ℕ) (bytes : List ℕ) (n n' : Tcp) : Type 0 where
  pub new : List TcpSegment
  pub sent : n'.sent ≡ new ++ n.sent
  pub carries : stream new ≡ bytes
  pub fits : All Fits new
  pub numbered : Numbered (conn n i).snd_nxt new
  pub next : (conn n' i).snd_nxt ≡ ((conn n i).snd_nxt + length bytes) % 2 ^ 32

module _ (i : ℕ) (chunk : List ℕ) (n : Tcp) (short : length chunk ≤ 1460)
    (inside : i < length n.conns) where
  abbrev saved : Conn → Conn
  saved c = record c {
    retransmit_seq = c.snd_nxt;
    retransmit_data = chunk ++ drop (length chunk) c.retransmit_data;
    retransmit_len = length chunk;
    retransmit_timer = 50;
    retransmit_count = 0;
  }

  in_packet : ltb 1500 (20 + length chunk) ≡ false
  in_packet = ground (arith, short)

  chunk_sent : (send_chunk i chunk n).sent ≡ segment_of (conn n i) tcp_ack_psh chunk ∷ n.sent
  unfolding send_chunk tcp_send_segment
  chunk_sent = rw in_packet (
      ap (λ (c : Conn). segment_of c tcp_ack_psh chunk ∷ n.sent)
        (get_or-modify_self n.conns i saved zero_conn inside))

  chunk_next :
      (conn (send_chunk i chunk n) i).snd_nxt ≡ ((conn n i).snd_nxt + length chunk) % 2 ^ 32
  unfolding send_chunk tcp_send_segment
  chunk_next =
      let moved : Conn → Conn =
        λ c. record c { snd_nxt = (c.snd_nxt + seq_space tcp_ack_psh chunk) % 2 ^ 32 } in
      let none_else : seq_space tcp_ack_psh chunk ≡ length chunk = omega arith in
      let m = set_conn i saved n in
      rw in_packet (
        ap (λ (c : Conn). c.snd_nxt)
          (get_or-modify_self m.conns i moved zero_conn (rw length-modify inside)
            ∙ ap moved (get_or-modify_self n.conns i saved zero_conn inside))
        ∙ ap (λ k. ((conn n i).snd_nxt + k) % 2 ^ 32) none_else)

  length-send_chunk : length (send_chunk i chunk n).conns ≡ length n.conns
  unfolding send_chunk tcp_send_segment
  length-send_chunk = rw in_packet (rw (length-modify, length-modify) refl)

nothing : (i : ℕ) (n : Tcp) → (conn n i).snd_nxt < 2 ^ 32 → Sends i [] n n
nothing i n small = record {
  new = [];
  sent = refl;
  carries = refl;
  fits = tt;
  numbered = tt;
  next = omega (arith, small);
}

send_loop-Sends :
    (fuel i : ℕ) (bytes : List ℕ) (n : Tcp)
    → length bytes ≤ fuel
    → i < length n.conns
    → (conn n i).snd_nxt < 2 ^ 32
    → Sends i bytes n (send_loop fuel i bytes n)
unfolding send_loop
send_loop-Sends zero i [] n enough inside small = nothing i n small
send_loop-Sends zero i (b ∷ bs) n enough inside small = absurd (omega arith)
send_loop-Sends (suc fuel) i [] n enough inside small = nothing i n small
send_loop-Sends (suc fuel) i (b ∷ bs) n enough inside small =
    let bytes = b ∷ bs in
    let chunk = take 1460 bytes in
    let rest = drop 1460 bytes in
    let len = length-take 1460 bytes in
    let short : length chunk ≤ 1460 = omega (arith, len) in
    let whole : length chunk + length rest ≡ length bytes =
      sym (length-append chunk rest) ∙ ap length (take-append-drop 1460 bytes) in
    let m = send_chunk i chunk n in
    let next = chunk_next i chunk n short inside in
    let s = segment_of (conn n i) tcp_ack_psh chunk in
    let h =
      send_loop-Sends fuel i rest m (omega (arith, whole, len))
        (rw (length-send_chunk i chunk n short inside) inside) (omega (arith, next)) in
    record {
      new = h.new ++ (s ∷ []);
      sent =
          h.sent
          ∙ ap (λ t. h.new ++ t) (chunk_sent i chunk n short inside)
          ∙ sym (append_assoc h.new (s ∷ []) n.sent);
      carries =
          stream-append h.new s ∙ ap (λ t. chunk ++ t) h.carries ∙ take-append-drop 1460 bytes;
      fits = All-append-one h.new s h.fits (omega (arith, len), short);
      numbered =
          Numbered-append (conn n i).snd_nxt h.new s small refl
            (subst (λ a. Numbered a h.new) next h.numbered);
      next = h.next ∙ omega (arith, next, whole);
    }

-- On a connection that can send, tcp_send takes all the bytes and hands them to the network in
-- order, in segments of at most 1460 bytes that follow each other in sequence. It returns their
-- number as a word of 32 bits.
pub tcp_send-Sends :
    (i : ℕ) (bytes : List ℕ) (n : Tcp)
    → i < length n.conns
    → (conn n i).snd_nxt < 2 ^ 32
    → (is_established (conn n i).state || is_close_wait (conn n i).state) ≡ true
    → ((tcp_send i bytes n).0 ≡ length bytes % 2 ^ 32) × Sends i bytes n (tcp_send i bytes n).1
unfolding tcp_send
tcp_send-Sends i bytes n inside small can_send =
    rw can_send (refl, send_loop-Sends (length bytes) i bytes n (omega arith) inside small)
