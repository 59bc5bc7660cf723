-- ===== src/Tcp/Recv.antt =====
-- What `tcp_recv` returns.
use hobbyos.Base.{
  Option, none, some, ◌⊎◌, modify, ℕ, ◌-◌, ◌<◌, ◌≡◌, refl, sym, ap, ◌∙◌, true, false, List, [], ◌∷◌,
  ◌++◌, ltb, ◌==◌, if◌then◌else◌, length, length-modify, get_or-modify_self, arith, Bool-cases, inl,
  inr, min, length-take, All, take-append-drop,
}
use hobbyos.Ring.{copy_out}
use hobbyos.Ring.Window.{window, length-window}
use hobbyos.Ring.Transfer.{copy_out_lem}
use hobbyos.Tcp.{
  is_closed, is_close_wait, Tcp, Conn, conn, zero_conn, tcp_rx_buf_size, tcp_max_conns,
}
use hobbyos.Signal.{signal_has_fatal}
use hobbyos.Process.{Kernel}
use hobbyos.Sched.Blocked.{Blocks}
use hobbyos.Tcp.Calls.{
  give_way, Others, Outcome, recv_now, recv_loop, tcp_recv, must_wait, ended, sleep_reader,
}
use hobbyos.Tcp.Keep.{block_reader-IsTcp}
use hobbyos.Tcp.Inv.{IsTcp, conn-IsConn}
use hobbyos.Tcp.Stream.{received}

-- What others do while a process sleeps leaves the table well formed, and of its size.
abbrev pub Stays : Others → Type 0
Stays others =
    (n : Tcp)
    → IsTcp n
    → length n.conns ≡ tcp_max_conns
    → IsTcp (others n) × (length (others n).conns ≡ tcp_max_conns)

pub give_way-Blocks : (o : Option ℕ) (k : Kernel) → Blocks o k (give_way o k)
unfolding give_way
give_way-Blocks none k = refl
give_way-Blocks (some c) k = refl

-- More bytes may come on a connection: it is at no end of the stream, and neither closed nor closed by
-- the peer.
pub record MayGrow (c : Conn) : Type 0 where
  pub no_eof : c.eof ≡ false
  pub not_closed : is_closed c.state ≡ false
  pub not_close_wait : is_close_wait c.state ≡ false

abbrev pub HasEnded : Conn → Type 0
HasEnded c = (c.eof ≡ true) ⊎ (is_closed c.state ≡ true) ⊎ (is_close_wait c.state ≡ true)

-- A reader sleeps on the connection `i` of `n`, where no bytes wait and more may come, when no deadly
-- signal is pending: `v` is what it leaves.
pub record ReaderSleeps (i : ℕ) (n v : Tcp) : Type 0 where
  pub empty : (conn n i).rx_count ≡ 0
  pub more : MayGrow (conn n i)
  pub undisturbed : signal_has_fatal n.kernel.current n.kernel ≡ false
  pub waits : v ≡ record n {
    conns = modify n.conns i (λ c. record c { blocked_reader = n.kernel.current });
    kernel = v.kernel;
  }
  pub blocked : Blocks n.kernel.current n.kernel v.kernel

-- From `n` a call of `tcp_recv` sleeps, others run, and so on, up to the state `u`; `rest` is what is
-- left of the others.
pub data RecvsUpTo (i : ℕ) : List Others → Tcp → List Others → Tcp → Type 0 where
  here : {es : List Others} {n : Tcp} → RecvsUpTo i es n es n
  after_sleep :
      {others : Others} {es rest : List Others} {n u : Tcp} (v : Tcp)
      → ReaderSleeps i n v
      → RecvsUpTo i es (others v) rest u
      → RecvsUpTo i (others ∷ es) n rest u

-- How a call of `tcp_recv` for `len` bytes from `n` on ends, in a state `u` that it comes to by its
-- sleeps. With -1 a deadly signal is pending there, no bytes wait and more may come. Otherwise it
-- returns the oldest bytes that wait in `u`, as many as asked for and there, and the others stay in
-- order; none are there only when no more will come. It sleeps only on an empty buffer, when the
-- others have run as often as they do.
abbrev pub RecvOk : ℕ → ℕ → List Others → Tcp → Outcome (List ℕ) → Type 0
RecvOk i len es n (Outcome.failed u) =
    (rest : List Others) × RecvsUpTo i es n rest u
    × ((conn u i).rx_count ≡ 0)
    × MayGrow (conn u i)
    × (signal_has_fatal u.kernel.current u.kernel ≡ true)
RecvOk i len es n (Outcome.returned out n') =
    (rest : List Others) × (u : Tcp) × RecvsUpTo i es n rest u
    × IsTcp u
    × ((0 < (conn u i).rx_count) ⊎ HasEnded (conn u i))
    × (received (conn u i) ≡ out ++ received (conn n' i))
    × (length out ≡ min len (conn u i).rx_count)
RecvOk i len es n (Outcome.asleep v) = (u : Tcp) × RecvsUpTo i es n [] u × ReaderSleeps i u v

wait_lem : (c : Conn) → must_wait c ≡ true → (c.rx_count ≡ 0) × MayGrow c
wait_lem c e = (
  ground (arith, e),
  record {
    no_eof = ground (arith, e);
    not_closed = ground (arith, e);
    not_close_wait = ground (arith, e);
  },
)

go_lem : (c : Conn) → must_wait c ≡ false → (0 < c.rx_count) ⊎ HasEnded c
go_lem c e = elim (Bool-cases (c.rx_count == 0)) [
  | inr left ↦ inl (ground (arith, left))
  | inl empty ↦ elim (Bool-cases c.eof) [
    | inl eof ↦ inr (inl eof)
    | inr open_end ↦ elim (Bool-cases (is_closed c.state)) [
      | inl closed ↦ inr (inr (inl closed))
      | inr alive ↦ inr (inr (inr (ground (arith, e, empty, open_end, alive))))
    ]
  ]
]

reader_sleeps :
    (i : ℕ) (n : Tcp)
    → must_wait (conn n i) ≡ true
    → signal_has_fatal n.kernel.current n.kernel ≡ false
    → ReaderSleeps i n (sleep_reader i n)
reader_sleeps i n e f = record {
  empty = (wait_lem (conn n i) e).0;
  more = (wait_lem (conn n i) e).1;
  undisturbed = f;
  waits = refl;
  blocked = give_way-Blocks n.kernel.current n.kernel;
}

recv_now-RecvOk :
    (es : List Others) (i len : ℕ) (n : Tcp)
    → IsTcp n
    → i < length n.conns
    → must_wait (conn n i) ≡ false
    → RecvOk i len es n (ended (recv_now i len n))
unfolding recv_now window
recv_now-RecvOk es i len n t inside go =
    let c = conn n i in
    let h = conn-IsConn n i t in
    let wanted = if ltb len c.rx_count then len else c.rx_count in
    let e : wanted ≡ min len c.rx_count = ground arith in
    let (out, rest, ring) =
      copy_out_lem tcp_rx_buf_size c.rx_buf c.rx_read_pos c.rx_write_pos c.rx_count h.rx wanted
        (ground arith) in
    let got = copy_out tcp_rx_buf_size c.rx_buf c.rx_read_pos wanted in
    let read : Conn → Conn =
      λ c'. record c' { rx_read_pos = got.1; rx_count = c'.rx_count - wanted } in
    let len' = length-window tcp_rx_buf_size c.rx_buf c.rx_read_pos c.rx_count in
    elim (Bool-cases (c.rx_count == 0)) [
      | inl z ↦ rw z (es, n, RecvsUpTo.here, t, go_lem c go, refl, ground arith)
      | inr z ↦ rw z (
        es,
        n,
        RecvsUpTo.here,
        t,
        go_lem c go,
        sym (
            ap (λ c'. got.0 ++ received c') (get_or-modify_self n.conns i read zero_conn inside)
            ∙ rw (out, rest) (take-append-drop wanted (received c))),
        rw out (omega (arith, length-take wanted (received c), len', e)),
      )
    ]

-- What holds after a sleep holds of the call that slept.
slept-RecvOk :
    (others : Others) (es : List Others) (i len : ℕ) (n v : Tcp)
    → ReaderSleeps i n v
    → (r : Outcome (List ℕ)) → RecvOk i len es (others v) r
    → RecvOk i len (others ∷ es) n r
slept-RecvOk others es i len n v sleeps (Outcome.failed u) (rest, to, a, b, c) =
    (rest, RecvsUpTo.after_sleep v sleeps to, a, b, c)
slept-RecvOk others es i len n v sleeps (Outcome.returned out n') (rest, u, to, a, b, c, d) =
    (rest, u, RecvsUpTo.after_sleep v sleeps to, a, b, c, d)
slept-RecvOk others es i len n v sleeps (Outcome.asleep v') (u, to, a) =
    (u, RecvsUpTo.after_sleep v sleeps to, a)

recv_loop-RecvOk :
    (es : List Others) (i len : ℕ) (n : Tcp)
    → All Stays es
    → IsTcp n
    → length n.conns ≡ tcp_max_conns
    → i < tcp_max_conns
    → RecvOk i len es n (recv_loop es i len n)
unfolding recv_loop
recv_loop-RecvOk [] i len n keep t size inside = elim (Bool-cases (must_wait (conn n i))) [
  | inl e ↦ elim (Bool-cases (signal_has_fatal n.kernel.current n.kernel)) [
    | inl f ↦
        (let (empty, more) = wait_lem (conn n i) e in
          rw (e, f) ([], RecvsUpTo.here, empty, more, f))
    | inr f ↦ rw (e, f) (n, RecvsUpTo.here, reader_sleeps i n e f)
  ]
  | inr e ↦ rw e (recv_now-RecvOk [] i len n t (rw size inside) e)
]
recv_loop-RecvOk (others ∷ es) i len n keep t size inside =
    elim (Bool-cases (must_wait (conn n i))) [
      | inl e ↦ elim (Bool-cases (signal_has_fatal n.kernel.current n.kernel)) [
        | inl f ↦
            (let (empty, more) = wait_lem (conn n i) e in
              rw (e, f) (others ∷ es, RecvsUpTo.here, empty, more, f))
        | inr f ↦
            (let (t', size') =
                keep.0 (sleep_reader i n) (block_reader-IsTcp i n t)
                  (length-modify n.conns i _ ∙ size) in
              let rest =
                recv_loop-RecvOk es i len (others (sleep_reader i n)) keep.1 t' size' inside in
              rw (e, f)
                (slept-RecvOk others es i len n (sleep_reader i n) (reader_sleeps i n e f) _ rest))
      ]
      | inr e ↦ rw e (recv_now-RecvOk (others ∷ es) i len n t (rw size inside) e)
    ]

-- tcp_recv on a table of 32 well-formed connections, however often it sleeps and whatever others
-- do meanwhile to a table that stays so, ends in a state that it comes to by its sleeps: each is
-- one on an empty buffer to which more may come, with no deadly signal pending, and blocks the
-- process as the connection's reader. It returns the oldest bytes that wait in that state, in
-- order, as many as asked for and there, when some are there or no more will come, and the
-- others stay; or it fails, when a deadly signal is pending on an empty buffer.
pub tcp_recv-RecvOk :
    (es : List Others) (i len : ℕ) (n : Tcp)
    → All Stays es
    → IsTcp n
    → length n.conns ≡ tcp_max_conns
    → i < tcp_max_conns
    → RecvOk i len es n (tcp_recv es i len n)
unfolding tcp_recv
tcp_recv-RecvOk es i len n keep t size inside = recv_loop-RecvOk es i len n keep t size inside
