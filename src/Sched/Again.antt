-- ===== src/Sched/Again.antt =====
-- What `scheduler_add` does to a process that already waits: the queue is lost. A process that a
-- signal has woken stays the `blocked_reader` of its pipe, so the next writer adds it again.
use hobbyos.Base.{
  ℕ, ◌<◌, ◌≡◌, refl, Option, none, some, List, [], ◌∷◌, length, get_or, get_or-modify_self,
  length-modify, ap, ◌∙◌, sym, arith,
}
use hobbyos.Process.{Process, ProcessState, Kernel, proc, set_proc, zero_process}
use hobbyos.Sched.{scheduler_add, enqueue, link_tail}
use hobbyos.Sched.Queue.{Linked, last?, IsQueue}

-- The chain of a queue ends at NULL.
Linked-last :
    (t : List Process) (xs : List ℕ) (h : Option ℕ) (l : ℕ)
    → Linked t h xs
    → last? xs ≡ some l
    → (get_or t l zero_process).next ≡ none
Linked-last t [] h l k e = cc
Linked-last t (x ∷ []) h l k e = ground arith
Linked-last t (x ∷ y ∷ ys) h l k e = Linked-last t (y ∷ ys) _ l k.3 e

module _ (k : Kernel) (h i : ℕ) (head : k.queue_head ≡ some h) (tail : k.queue_tail ≡ some i)
    (inside : i < length k.table) where
  abbrev added : Kernel
  added = set_proc i (λ p. record p { state = ProcessState.ready; next = none }) k

  again-links : scheduler_add i k ≡ record (link_tail (some i) i added) { queue_tail = some i }
  unfolding scheduler_add enqueue
  again-links =
      ap (λ q. enqueue q i added) head
      ∙ ap (λ q. record (link_tail q i added) { queue_tail = some i }) tail

  -- A process that is added again while it is the last of the queue points at itself, and then the
  -- queue stands for no list of processes.
  pub scheduler_add_again :
      ((proc (scheduler_add i k) i).next ≡ some i)
      × ((ys : List ℕ) → ¬ IsQueue (scheduler_add i k) ys)
  unfolding link_tail
  scheduler_add_again =
      let f : Process → Process = λ p. record p { next = some i } in
      let loop : (proc (scheduler_add i k) i).next ≡ some i = rw again-links (
        ap (λ p. p.next)
          (get_or-modify_self added.table i f zero_process (rw length-modify inside))) in
      let at_end : (scheduler_add i k).queue_tail ≡ some i = rw again-links refl in
      (
        loop,
        λ ys q. ground (
          arith,
          loop,
          Linked-last (scheduler_add i k).table ys (scheduler_add i k).queue_head i q.linked
              (sym q.tail ∙ at_end),
        ),
      )
