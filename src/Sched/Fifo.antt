-- ===== src/Sched/Fifo.antt =====
-- The scheduler refines a first-in first-out queue.
use hobbyos.Base.{
  ℕ, ◌<◌, ◌≡◌, refl, true, false, Option, none, some, List, [], ◌∷◌, ◌++◌, ◌==◌, length, get_or,
  modify, get_or-modify_self, get_or-modify_keeps, length-modify, if◌then◌else◌, ap, sym, subst,
  ◌∙◌, arith, Bool-cases, ==→eq, inl, inr, append-nil,
}
use hobbyos.Process.{Process, ProcessState, Kernel, proc, set_proc, zero_process}
use hobbyos.Sched.{
  scheduler_add, schedule, link_tail, enqueue, run_next, requeue, pop_head, switch_to, is_running,
  set_state,
}
use hobbyos.Sched.Queue.{
  has, Linked, last?, IsQueue, Distinct-append, has-append, last?-append, Linked-modify,
  Linked-append,
}

abbrev ready_proc : Process → Process
ready_proc p = record p { state = ProcessState.ready; next = none }

-- The last of a list that is not empty.
last?-cons : (x : ℕ) (xs : List ℕ) → (l : ℕ) × (last? (x ∷ xs) ≡ some l)
last?-cons x [] = (x, refl)
last?-cons x (y ∷ ys) = last?-cons y ys

-- What `scheduler_add` first writes.
abbrev prepared : Kernel → ℕ → Kernel
prepared k i = set_proc i ready_proc k

enqueue-append :
    (k : Kernel) (i : ℕ) (xs : List ℕ)
    → IsQueue k xs
    → i < length k.table
    → has i xs ≡ false
    → IsQueue (enqueue k.queue_head i (prepared k i)) (xs ++ (i ∷ []))
unfolding enqueue link_tail
enqueue-append k i [] q hi out =
    let self = get_or-modify_self k.table i ready_proc zero_process hi in
    let len = length-modify k.table i ready_proc in
    let e : enqueue k.queue_head i (prepared k i) ≡ enqueue none i (prepared k i) =
      ap (λ h. enqueue h i (prepared k i)) q.linked in
    rw e (record {
      linked = (refl, rw len hi, rw self refl, rw self refl);
      tail = refl;
      distinct = (refl, tt);
    })
enqueue-append k i (x ∷ xs) q hi out =
    let self = get_or-modify_self k.table i ready_proc zero_process hi in
    let len = length-modify k.table i ready_proc in
    let (l, last) = last?-cons x xs in
    let t = modify k.table i ready_proc in
    let linked' =
      Linked-append t i l x xs k.queue_head q.distinct out last (rw len hi) (rw self refl)
        (rw self refl) (Linked-modify k.table i ready_proc (x ∷ xs) k.queue_head out q.linked) in
    let e : enqueue k.queue_head i (prepared k i)
        ≡ record (link_tail (some l) i (prepared k i)) { queue_tail = some i } =
      ap (λ h. enqueue h i (prepared k i)) q.linked.0
      ∙ ap (λ h. record (link_tail h i (prepared k i)) { queue_tail = some i }) (q.tail ∙ last) in
    rw e (record {
      linked = linked';
      tail = sym (last?-append (x ∷ xs) i);
      distinct = Distinct-append (x ∷ xs) i q.distinct out;
    })

-- `scheduler_add` of a process that is not in the queue appends it: the processes before it keep
-- their order, and it becomes ready.
pub scheduler_add-append :
    (k : Kernel) (i : ℕ) (xs : List ℕ)
    → IsQueue k xs
    → i < length k.table
    → has i xs ≡ false
    → IsQueue (scheduler_add i k) (xs ++ (i ∷ []))
unfolding scheduler_add
scheduler_add-append k i xs q hi out = enqueue-append k i xs q hi out

-- A process that the queue holds is ready.
pub Linked-ready :
    (t : List Process) (xs : List ℕ) (h : Option ℕ) (i : ℕ)
    → Linked t h xs
    → has i xs ≡ true
    → (get_or t i zero_process).state ≡ ProcessState.ready
Linked-ready t [] h i l m = cc
Linked-ready t (x ∷ xs) h i l m = elim (Bool-cases (i == x)) [
  | inl e ↦ rw (==→eq i x e) l.2
  | inr e ↦ Linked-ready t xs _ i l.3 (ground arith)
]

pub pop_head-IsQueue :
    (k : Kernel) (x : ℕ) (xs : List ℕ) → IsQueue k (x ∷ xs) → IsQueue (pop_head x k) xs
pop_head-IsQueue k x [] q = record {
  linked = q.linked.3;
  tail = rw (q.linked.3, pop_head) refl;
  distinct = tt;
}
pop_head-IsQueue k x (y ∷ ys) q = record {
  linked = q.linked.3;
  tail = rw (q.linked.3.0, pop_head) q.tail;
  distinct = q.distinct.1;
}

pub set_proc-IsQueue :
    (k : Kernel) (i : ℕ) (f : Process → Process) (xs : List ℕ)
    → IsQueue k xs
    → has i xs ≡ false
    → IsQueue (set_proc i f k) xs
set_proc-IsQueue k i f xs q out = record {
  linked = Linked-modify k.table i f xs k.queue_head out q.linked;
  tail = q.tail;
  distinct = q.distinct;
}

-- The process that `schedule` puts back behind the others: the current one, if it still runs.
unfoldable pub returned : Kernel → Option ℕ → List ℕ
returned k none = []
returned k (some c) = if is_running (proc k c).state then c ∷ [] else []

returned-pop_head : (k : Kernel) (c : Option ℕ) (x : ℕ) → returned (pop_head x k) c ≡ returned k c
unfolding returned
returned-pop_head k none x = refl
returned-pop_head k (some c) x = refl

running_outside :
    (k : Kernel) (c : ℕ) (xs : List ℕ)
    → IsQueue k xs
    → is_running (proc k c).state ≡ true
    → has c xs ≡ false
running_outside k c xs q r = elim (Bool-cases (has c xs)) [
  | inl m ↦ ground (arith, Linked-ready k.table xs k.queue_head c q.linked m)
  | inr m ↦ m
]

requeue-IsQueue :
    (k : Kernel) (current : Option ℕ) (xs : List ℕ)
    → IsQueue k xs
    → ((c : ℕ) → current ≡ some c → c < length k.table)
    → IsQueue (requeue current k) (xs ++ returned k current)
unfolding requeue returned
requeue-IsQueue k none xs q inside = rw append-nil q
requeue-IsQueue k (some c) xs q inside = elim (Bool-cases (is_running (proc k c).state)) [
  | inl run ↦
      let out = running_outside k c xs q run in
      rw run (
        scheduler_add-append (set_state c ProcessState.ready k) c xs
          (set_proc-IsQueue k c (λ p. record p { state = ProcessState.ready }) xs q out)
          (rw length-modify (inside c refl)) out)
  | inr stop ↦ rw (stop, append-nil) q
]

length-link_tail :
    (t : Option ℕ) (i : ℕ) (k : Kernel) → length (link_tail t i k).table ≡ length k.table
unfolding link_tail
length-link_tail none i k = refl
length-link_tail (some t) i k = length-modify k.table t _

length-enqueue : (h : Option ℕ) (i : ℕ) (k : Kernel) → length (enqueue h i k).table ≡ length k.table
unfolding enqueue
length-enqueue none i k = refl
length-enqueue (some _) i k = length-link_tail k.queue_tail i k

pub length-scheduler_add : (k : Kernel) (i : ℕ) → length (scheduler_add i k).table ≡ length k.table
unfolding scheduler_add
length-scheduler_add k i =
    length-enqueue k.queue_head i (prepared k i) ∙ length-modify k.table i ready_proc

-- What `scheduler_add` leaves alone of every process.
module _ {κ} {B : Type κ} (part : Process → B)
    (keeps : (s : ProcessState) (n : Option ℕ) (p : Process)
      → part (record p { state = s; next = n }) ≡ part p) where
  link_tail-keeps :
      (t : Option ℕ) (i j : ℕ) (k : Kernel) → part (proc (link_tail t i k) j) ≡ part (proc k j)
  unfolding link_tail
  link_tail-keeps none i j k = refl
  link_tail-keeps (some t) i j k =
      get_or-modify_keeps part k.table t j (λ (p : Process). record p { next = some i })
        zero_process (λ p. keeps p.state (some i) p)

  enqueue-keeps :
      (h : Option ℕ) (i j : ℕ) (k : Kernel) → part (proc (enqueue h i k) j) ≡ part (proc k j)
  unfolding enqueue
  enqueue-keeps none i j k = refl
  enqueue-keeps (some _) i j k = link_tail-keeps k.queue_tail i j k

  pub scheduler_add-keeps :
      (i j : ℕ) (k : Kernel) → part (proc (scheduler_add i k) j) ≡ part (proc k j)
  unfolding scheduler_add
  scheduler_add-keeps i j k =
      enqueue-keeps k.queue_head i j (prepared k i)
      ∙ get_or-modify_keeps part k.table i j ready_proc zero_process (keeps ProcessState.ready none)

length-requeue : (k : Kernel) (c : Option ℕ) → length (requeue c k).table ≡ length k.table
unfolding requeue
length-requeue k none = refl
length-requeue k (some c) = ground (
  arith,
  length-scheduler_add (set_state c ProcessState.ready k) c,
  length-modify k.table c (λ (p : Process). record p { state = ProcessState.ready }),
)

-- The process at the head is ready, so it is not the one that runs.
next_outside :
    (k : Kernel) (current : Option ℕ) (x : ℕ) (xs : List ℕ)
    → IsQueue k (x ∷ xs)
    → has x (xs ++ returned k current) ≡ false
unfolding returned
next_outside k none x xs q = rw append-nil q.distinct.0
next_outside k (some c) x xs q = elim (Bool-cases (is_running (proc k c).state)) [
  | inl run ↦ rw (run, has-append) (ground (arith, q.distinct, running_outside k c (x ∷ xs) q run))
  | inr stop ↦ rw (stop, append-nil) q.distinct.0
]

-- `schedule` takes the process that waits longest, and puts the interrupted one, if it still runs,
-- behind the others, which keep their order.
pub schedule_fifo :
    (k : Kernel) (x : ℕ) (xs : List ℕ)
    → IsQueue k (x ∷ xs)
    → ((c : ℕ) → k.current ≡ some c → c < length k.table)
    → IsQueue (schedule k) (xs ++ returned k k.current)
      × ((schedule k).current ≡ some x)
      × ((proc (schedule k) x).state ≡ ProcessState.running)
unfolding schedule run_next
schedule_fifo k x xs q inside =
    let k' = requeue k.current (pop_head x k) in
    let q' : IsQueue k' (xs ++ returned (pop_head x k) k.current) =
      requeue-IsQueue (pop_head x k) k.current xs (pop_head-IsQueue k x xs q) inside in
    let out = next_outside k k.current x xs q in
    let same : returned (pop_head x k) k.current ≡ returned k k.current =
      returned-pop_head k k.current x in
    let run : Process → Process = λ p. record p { state = ProcessState.running } in
    let q'' : IsQueue k' (xs ++ returned k k.current) =
      subst (λ ys. IsQueue k' (xs ++ ys)) same q' in
    let set =
      set_proc-IsQueue (record k' { current = some x }) x run (xs ++ returned k k.current)
        (record { linked = q''.linked; tail = q''.tail; distinct = q''.distinct }) out in
    let inside' : x < length k'.table = rw length-requeue q.linked.1 in
    let e : schedule k ≡ switch_to x k' = ap (λ h. run_next h k) q.linked.0 in
    rw e (
      record { linked = set.linked; tail = set.tail; distinct = set.distinct },
      refl,
      ap (λ p. p.state) (get_or-modify_self k'.table x run zero_process inside'),
    )
