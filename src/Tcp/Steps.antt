-- ===== src/Tcp/Steps.antt =====
-- Sequences of calls, segments and clock ticks on the connection table.
use hobbyos.Base.{ℕ, refl, List, All, All-replicate, arith, Bool-cases, inl, inr}
use hobbyos.Process.{Kernel}
use hobbyos.Tcp.{Tcp, conn, zero_conn, tcp_max_conns, tcp_init, tcp_alloc_conn, is_listen}
use hobbyos.Tcp.Input.{tcp_receive}
use hobbyos.Tcp.Timer.{tcp_tick}
use hobbyos.Tcp.Calls.{Others, tcp_connect, tcp_listen, tcp_accept, tcp_send, tcp_recv, tcp_close}
use hobbyos.Tcp.Inv.{IsConn, IsTcp, zero_conn-IsConn, kept, alloc_conn-IsTcp, receive-IsTcp}
use hobbyos.Tcp.Keep.{
  Keeps, state_of, tick_from-IsTcp, close_as-IsTcp, accept_loop-IsTcp, recv_loop-IsTcp,
  connect-IsTcp, send-IsTcp,
}

-- What leads from a new table to another: the calls, incoming segments and the clock, in any order.
-- A call that sleeps may sleep any number of times. The kernel beside the table changes freely.
pub data TcpSteps : Tcp → Type 0 where
  init : (n : Tcp) → TcpSteps (tcp_init n)
  receives : (m : List ℕ) (len src : ℕ) (n : Tcp) → TcpSteps n → TcpSteps (tcp_receive m len src n)
  ticks : (n : Tcp) → TcpSteps n → TcpSteps (tcp_tick n)
  allocs : (n : Tcp) → TcpSteps n → TcpSteps (tcp_alloc_conn n).1
  listens : (i port : ℕ) (n : Tcp) → TcpSteps n → TcpSteps (tcp_listen i port n)
  connects :
      (others : Others) (i ip port own : ℕ) (n : Tcp)
      → Keeps others
      → TcpSteps n
      → TcpSteps (tcp_connect others i ip port own n).1
  accepts :
      (es : List Others) (i : ℕ) (n : Tcp)
      → All Keeps es
      → TcpSteps n
      → TcpSteps (state_of (tcp_accept es i n))
  sends : (i : ℕ) (bytes : List ℕ) (n : Tcp) → TcpSteps n → TcpSteps (tcp_send i bytes n).1
  recvs :
      (es : List Others) (i len : ℕ) (n : Tcp)
      → All Keeps es
      → TcpSteps n
      → TcpSteps (state_of (tcp_recv es i len n))
  closes : (i : ℕ) (n : Tcp) → TcpSteps n → TcpSteps (tcp_close i n)
  elsewhere :
      (kernel : Kernel) (clock : ℕ) (n : Tcp)
      → TcpSteps n
      → TcpSteps (record n { kernel = kernel; ticks = clock })

-- Whatever is called, received or timed out on a new table, the receive buffer and the accept queue
-- of every connection stay rings: positions in bounds, and the count the distance between them.
pub steps-IsTcp : (n : Tcp) → TcpSteps n → IsTcp n
unfolding tcp_init tcp_tick tcp_listen tcp_accept tcp_recv tcp_close
steps-IsTcp _ (TcpSteps.init n) = record {
  each = All-replicate IsConn tcp_max_conns zero_conn zero_conn-IsConn;
}
steps-IsTcp _ (TcpSteps.receives m len src n s) = receive-IsTcp m len src n (steps-IsTcp n s)
steps-IsTcp _ (TcpSteps.ticks n s) = tick_from-IsTcp tcp_max_conns 0 n (steps-IsTcp n s)
steps-IsTcp _ (TcpSteps.allocs n s) = alloc_conn-IsTcp n (steps-IsTcp n s)
steps-IsTcp _ (TcpSteps.listens i port n s) = kept n i _ (steps-IsTcp n s) (λ c h. record {
  rx = h.rx;
  queue = record { size = h.queue.size; reader = omega arith; fits = omega arith; writer = refl };
})
steps-IsTcp _ (TcpSteps.connects others i ip port own n keep s) =
    connect-IsTcp others i ip port own n keep (steps-IsTcp n s)
steps-IsTcp _ (TcpSteps.accepts es i n keep s) = elim (Bool-cases (is_listen (conn n i).state)) [
  | inl e ↦ rw e (accept_loop-IsTcp es i n keep (steps-IsTcp n s))
  | inr e ↦ rw e (steps-IsTcp n s)
]
steps-IsTcp _ (TcpSteps.sends i bytes n s) = send-IsTcp i bytes n (steps-IsTcp n s)
steps-IsTcp _ (TcpSteps.recvs es i len n keep s) = recv_loop-IsTcp es i len n keep (steps-IsTcp n s)
steps-IsTcp _ (TcpSteps.closes i n s) = close_as-IsTcp (conn n i).state i n (steps-IsTcp n s)
steps-IsTcp _ (TcpSteps.elsewhere kernel clock n s) = record { each = (steps-IsTcp n s).each }
