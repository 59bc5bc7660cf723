-- ===== src/Epoll.antt =====
-- kernel/fs/epoll.c: the pool of epoll instances. An index, a descriptor and an operation is a word
-- of 32 bits, so that a negative one is large.
pub mod Interests
pub mod Control
pub mod Wait
pub mod Scan
pub mod Answers
pub mod Block
pub mod Edge
pub mod Tick
pub mod Timeout
mod Tests
use hobbyos.Base.{
  ℕ, zero, suc, ◌+◌, ◌-◌, ◌^◌, Bool, true, false, not, Option, none, some, List, [], ◌∷◌, replicate,
  leb, ◌==◌, if◌then◌else◌, get_or, set, modify, take, find_from,
}
use hobbyos.Fd.{error}

abbrev pub epoll_max_instances : ℕ
epoll_max_instances = 16

abbrev pub epoll_max_watched : ℕ
epoll_max_watched = 32

abbrev pub epoll_ctl_add : ℕ
epoll_ctl_add = 1

abbrev pub epoll_ctl_mod : ℕ
epoll_ctl_mod = 2

abbrev pub epoll_ctl_del : ℕ
epoll_ctl_del = 3

pub record EpollWatch : Type 0 where
  pub fd : ℕ
  pub events : ℕ
  pub user_data : ℕ
  pub et_reported : Bool

pub record EpollInstance : Type 0 where
  pub in_use : Bool
  pub owner_pid : ℕ
  pub watches : List EpollWatch
  pub watch_count : ℕ

abbrev pub zero_watch : EpollWatch
zero_watch = record { fd = 0; events = 0; user_data = 0; et_reported = false }

-- What `memset` leaves.
abbrev pub zero_instance : EpollInstance
zero_instance = record {
  in_use = false;
  owner_pid = 0;
  watches = replicate epoll_max_watched zero_watch;
  watch_count = 0;
}

-- The instance in the pool that is taken, or -1.
abbrev take_instance : ℕ → Option ℕ → List EpollInstance → Option ℕ × List EpollInstance
take_instance owner_pid none pool = (none, pool)
take_instance owner_pid (some i) pool =
    (some i, set pool i (record zero_instance { in_use = true; owner_pid = owner_pid }))

unfoldable pub epoll_create_instance : ℕ → List EpollInstance → Option ℕ × List EpollInstance
epoll_create_instance owner_pid pool =
    take_instance owner_pid (find_from (λ e. not e.in_use) 0 pool) pool

-- The first of the watches in use that is of a descriptor.
abbrev pub find_watch : ℕ → EpollInstance → Option ℕ
find_watch fd ep = find_from (λ w. w.fd == fd) 0 (take ep.watch_count ep.watches)

abbrev pub write_watch : ℕ → ℕ → ℕ → EpollWatch → EpollWatch
write_watch fd events user_data w = record w { fd = fd; events = events; user_data = user_data }

-- `for (j = ..; ..; j++) watches[j] = watches[j + 1]`, with the rounds that are left.
unfoldable pub compact : ℕ → ℕ → List EpollWatch → List EpollWatch
compact zero j ws = ws
compact (suc left) j ws = compact left (j + 1) (set ws j (get_or ws (j + 1) zero_watch))

unfoldable pub add_watch : ℕ → ℕ → ℕ → EpollInstance → Option EpollInstance
add_watch fd events user_data ep =
    if leb epoll_max_watched ep.watch_count
    then none
    else some (record ep {
      watches = modify ep.watches ep.watch_count (write_watch fd events user_data);
      watch_count = ep.watch_count + 1;
    })

abbrev pub mod_at : Option ℕ → ℕ → ℕ → ℕ → EpollInstance → Option EpollInstance
mod_at none fd events user_data ep = none
mod_at (some i) fd events user_data ep =
    some (record ep { watches = modify ep.watches i (write_watch fd events user_data) })

abbrev pub del_at : Option ℕ → EpollInstance → Option EpollInstance
del_at none ep = none
del_at (some i) ep = some (record ep {
  watches = compact (ep.watch_count - 1 - i) i ep.watches;
  watch_count = ep.watch_count - 1;
})

-- An operation on an instance in use, or -1.
unfoldable pub ctl : ℕ → ℕ → ℕ → ℕ → EpollInstance → Option EpollInstance
unfolding add_watch compact
ctl op fd events user_data ep =
    if op == epoll_ctl_add
    then add_watch fd events user_data ep
    else if op == epoll_ctl_mod
    then mod_at (find_watch fd ep) fd events user_data ep
    else if op == epoll_ctl_del
    then del_at (find_watch fd ep) ep
    else none

abbrev pub instance_at : List EpollInstance → ℕ → EpollInstance
instance_at pool i = get_or pool i zero_instance

abbrev pub put_instance : ℕ → Option EpollInstance → List EpollInstance → ℕ × List EpollInstance
put_instance i none pool = (error, pool)
put_instance i (some ep) pool = (0, set pool i ep)

unfoldable pub epoll_ctl_instance : ℕ → ℕ → ℕ → ℕ → ℕ → List EpollInstance → ℕ × List EpollInstance
unfolding ctl
epoll_ctl_instance i op fd events user_data pool =
    if leb epoll_max_instances i
    then (error, pool)
    else if not (instance_at pool i).in_use
    then (error, pool)
    else put_instance i (ctl op fd events user_data (instance_at pool i)) pool

unfoldable pub epoll_get : ℕ → List EpollInstance → Option EpollInstance
epoll_get i pool =
    if leb epoll_max_instances i
    then none
    else if not (instance_at pool i).in_use
    then none
    else some (instance_at pool i)

unfoldable pub epoll_destroy : ℕ → List EpollInstance → List EpollInstance
epoll_destroy i pool =
    if leb epoll_max_instances i then pool else modify pool i (λ e. record e { in_use = false })
