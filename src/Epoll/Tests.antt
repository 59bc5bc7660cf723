-- ===== src/Epoll/Tests.antt =====
-- Runs of an epoll instance, and the theorems at some of its states.
use hobbyos.Base.{
  take, ◌+◌, ◌^◌, ◌≡◌, refl, true, false, none, some, List, [], ◌∷◌, replicate, arith,
}
use hobbyos.Process.{ProcessState, Process, zero_process, zero_fd}
use hobbyos.Sched.Sample.{waiting}
use hobbyos.Fd.{fd_epoll}
use hobbyos.Poll.{fd_console, fd_is_readable, fd_is_writable}
use hobbyos.Epoll.{
  EpollInstance, zero_watch, zero_instance, epoll_ctl_del, epoll_ctl_instance, add_watch, epoll_get,
}
use hobbyos.Epoll.Interests.{IsEpoll}
use hobbyos.Epoll.Control.{Controls, epoll_ctl_instance-Controls}
use hobbyos.Epoll.Wait.{
  Ready, EpollEvent, EpollWorld, WaitArgs, ready_events, scan, scan_instance, scan_at,
  syscall_epoll_wait,
}
use hobbyos.Epoll.Scan.{levels}
use hobbyos.Epoll.Edge.{edge_once, added_silent}
use hobbyos.Epoll.Tick.{tick_waiting}
use hobbyos.Epoll.Timeout.{Nearer, tick_waiting-Nearer}

-- An edge-triggered and a level-triggered watch of descriptor 3.
abbrev watched : EpollInstance
watched = record {
  in_use = true;
  owner_pid = 1;
  watches =
      record { fd = 3; events = 2 ^ 31 + 1; user_data = 7; et_reported = false }
      ∷ record { fd = 3; events = 1; user_data = 8; et_reported = false }
      ∷ replicate 30 zero_watch;
  watch_count = 2;
}

watched-IsEpoll : IsEpoll watched
watched-IsEpoll = record { size = refl; count = omega arith }

abbrev one_pool : List EpollInstance
one_pool = watched ∷ replicate 15 zero_instance

abbrev always : Ready
always = record { readable = λ fd. true; writable = λ fd. false }

abbrev edge_event : EpollEvent
edge_event = record { events = 1; user_data = 7 }

abbrev level_event : EpollEvent
level_event = record { events = 1; user_data = 8 }

both_first : (scan_instance always 8 watched).0 ≡ edge_event ∷ level_event ∷ []
unfolding scan_instance scan ready_events
both_first = refl

level_then : (scan_instance always 8 (scan_instance always 8 watched).1).0 ≡ level_event ∷ []
unfolding scan_instance scan ready_events
level_then = refl

edge_once_example :
    (scan_instance always 8 (scan_instance always 8 watched).1).0
    ≡ take 8 (levels always (take 2 watched.watches))
edge_once_example = edge_once always 8 8 watched watched-IsEpoll (omega arith)

epoll_ctl_instance-Controls_example :
    Controls 0 epoll_ctl_del
      (record { fd = 3; events = 0; user_data = 0 })
      one_pool
      (epoll_ctl_instance 0 epoll_ctl_del 3 0 0 one_pool)
epoll_ctl_instance-Controls_example =
    epoll_ctl_instance-Controls 0 epoll_ctl_del 3 0 0 one_pool (omega arith) refl watched-IsEpoll

-- The watch that was removed last was edge-triggered and reported.
abbrev stale : EpollInstance
stale = record {
  in_use = true;
  owner_pid = 1;
  watches =
      record { fd = 3; events = 2 ^ 31 + 1; user_data = 7; et_reported = true }
      ∷ replicate 31 zero_watch;
  watch_count = 0;
}

added_silent_example :
    (ep : EpollInstance) × (add_watch 3 (2 ^ 31 + 1) 9 stale ≡ some ep)
    × ((scan_instance always 8 ep).0 ≡ (scan_instance always 8 stale).0)
added_silent_example =
    added_silent always 8 3 (2 ^ 31 + 1) 9 stale (record { size = refl; count = omega arith })
      (omega arith) refl refl

-- A process with the terminal as descriptor 3 and the instance as descriptor 4.
abbrev user : Process
user = record zero_process {
  is_user = true;
  fd_table =
      zero_fd
      ∷ zero_fd
      ∷ zero_fd
      ∷ record zero_fd { type = fd_console }
      ∷ record zero_fd { type = fd_epoll; object = 0 }
      ∷ replicate 27 zero_fd;
}

abbrev typed : EpollWorld
typed = record {
  files = record {
    kernel = record waiting { table = user ∷ [] };
    pipes = λ a. record {
      buffer = [];
      read_pos = 0;
      write_pos = 0;
      count = 0;
      readers = 1;
      writers = 1;
      blocked_reader = none;
      blocked_writer = none;
    };
    objects = one_pool;
  };
  devices = record {
    tty_readable = true;
    socket_readable = λ n. false;
    socket_writable = λ n. false;
  };
}

abbrev no_wait : WaitArgs
no_wait = record { maxevents = 8; timeout_ms = 100; events_ptr = 0x500000 }

waits_not :
    (syscall_epoll_wait (λ w. w) 0 4 0x400000 no_wait typed).0
    ≡ some (edge_event ∷ level_event ∷ [])
unfolding syscall_epoll_wait epoll_get scan_at scan_instance scan ready_events fd_is_readable
    fd_is_writable
waits_not = refl

-- The process waits for three ticks.
abbrev sleeping : EpollWorld
sleeping = record typed {
  files = record (typed.files) {
    kernel = record waiting {
      table =
          record user {
            state = ProcessState.blocked;
            epoll_fd_idx = some 0;
            epoll_timeout_ticks = 3;
          }
          ∷ [];
    };
  };
}

tick_waiting-Nearer_example : Nearer 0 0 3 (tick_waiting 64 0 sleeping)
tick_waiting-Nearer_example =
    tick_waiting-Nearer 0 0 3 sleeping (omega arith) (omega arith) (omega arith) refl
