-- ===== src/ProcessTable/Slots.antt =====
-- The slots of the process table: a new process takes a free slot and a pid of its own.
use hobbyos.Base.{
  ℕ, ◌+◌, ◌-◌, ◌%◌, ◌^◌, ◌<◌, ◌≡◌, ◌≢◌, refl, Bool, true, false, ◌&&◌, Option, none, some, List, [],
  ◌∷◌, ◌==◌, not, length, get_or, modify, get_or-modify_self, get_or-modify_ne, length-modify,
  find_from-some, find_from-none, arith, Bool-cases, Option-cases, inl, inr, ◌⊎◌, ==→eq, ==→ne, ap,
  ◌∙◌, sym, subst,
}
use hobbyos.Process.{Process, Kernel, proc, set_proc, zero_process}
use hobbyos.Sched.{is_unused}
use hobbyos.ProcessTable.{
  process_create, process_get_by_pid, create_in, create_on, free_slot, new_process, pop_stack,
  process_alloc_kernel_stack,
}

abbrev pub live : Kernel → ℕ → Bool
live k i = not (is_unused (proc k i).state)

abbrev pub slot_at : List Process → ℕ → Process
slot_at t i = get_or t i zero_process

-- Every live process of a table has a pid below `n`, and no two of them share one.
pub record Pids (t : List Process) (n : ℕ) : Type 0 where
  pub below :
      (i : ℕ) → i < length t → not (is_unused (slot_at t i).state) ≡ true → (slot_at t i).pid < n
  pub distinct :
      (i j : ℕ)
      → i < length t
      → j < length t
      → not (is_unused (slot_at t i).state) ≡ true
      → not (is_unused (slot_at t j).state) ≡ true
      → (slot_at t i).pid ≡ (slot_at t j).pid
      → i ≡ j

abbrev pub IsTable : Kernel → Type 0
IsTable k = Pids k.table k.next_pid

-- The lookup by pid finds the slot of a live process.
pub get_by_pid_live :
    (k : Kernel) (i : ℕ)
    → IsTable k
    → i < length k.table
    → live k i ≡ true
    → process_get_by_pid (proc k i).pid k ≡ some i
unfolding process_get_by_pid
get_by_pid_live k i t inside alive =
    let wanted : Process → Bool = λ p. not (is_unused p.state) && (p.pid == (proc k i).pid) in
    elim (Option-cases (process_get_by_pid (proc k i).pid k)) [
      | inl e ↦ absurd (ground (arith, find_from-none wanted 0 k.table i zero_process e inside))
      | inr (j, e) ↦
          let (lo, hi, hit) = find_from-some wanted 0 k.table j zero_process e in
          let at_j : j - 0 ≡ j = omega arith in
          let hit' : wanted (proc k j) ≡ true = rw at_j at hit in
          e ∙ ap some (t.distinct j i (omega arith) inside (ground arith) alive (ground arith))
    ]

-- A slot that is written with a process of pid `next_pid`, when `next_pid` moves on.
module _ (k : Kernel) (i : ℕ) (f : Process → Process) (inside : i < length k.table) where
  abbrev filled : Kernel
  filled = set_proc i f (record k { next_pid = k.next_pid + 1 })

  filled_at : (j : ℕ) → ((i ≡ j) × (proc filled j ≡ f (proc k i))) ⊎ (proc filled j ≡ proc k j)
  filled_at j = elim (Bool-cases (i == j)) [
    | inl same ↦
        let e = ==→eq i j same in
        inl (e, rw (← e) (get_or-modify_self k.table i f zero_process inside))
    | inr other ↦ inr (get_or-modify_ne k.table i j f zero_process (==→ne i j other))
  ]

  abbrev Before : ℕ → Type 0
  Before j = j < length (filled).table

  old_slot : (j : ℕ) → Before j → j < length k.table
  old_slot j h = rw (← length-modify k.table i f) h

  filled-IsTable : IsTable k → (f (proc k i)).pid ≡ k.next_pid → IsTable filled
  filled-IsTable t e = record {
    below = λ j hj alive. elim (filled_at j) [
      | inl (_, new) ↦ rw new (omega arith)
      | inr old ↦ rw old (omega (arith, t.below j (old_slot j hj) (rw old at alive)))
    ];
    distinct = λ a b ha hb la lb same. elim (filled_at a) [
      | inl (ea, new_a) ↦ elim (filled_at b) [
        | inl (eb, new_b) ↦ sym ea ∙ eb
        | inr old_b ↦
            absurd
              (omega (arith, t.below b (old_slot b hb) (rw old_b at lb), rw (new_a, old_b) at same))
      ]
      | inr old_a ↦ elim (filled_at b) [
        | inl (eb, new_b) ↦
            absurd
              (omega (arith, t.below a (old_slot a ha) (rw old_a at la), rw (old_a, new_b) at same))
        | inr old_b ↦
            t.distinct a b (old_slot a ha) (old_slot b hb) (rw old_a at la) (rw old_b at lb)
              (rw (old_a, old_b) at same)
      ]
    ];
  }

-- Where the kernel stack `s` of a new process comes from, and the free list afterwards: it is the top
-- of the free list, and only from an empty one that of `kmalloc_page_aligned`.
pub data StackFrom (k : Kernel) (heap : Option ℕ) (s : ℕ) : List ℕ → Type 0 where
  pooled : (rest : List ℕ) → k.kstack_free ≡ s ∷ rest → StackFrom k heap s rest
  fresh : k.kstack_free ≡ [] → heap ≡ some s → StackFrom k heap s []

-- How `process_create` ends: when every slot is in use, or when the free list of stacks is empty and
-- the heap gives none, it fails and changes nothing; otherwise a slot that was not in use holds a
-- process with the next pid and a stack of the free list, or of the heap when the list is empty, which
-- the lookup finds there, the pids stay distinct, and the other slots are as they were.
pub data Creates (k : Kernel) (heap : Option ℕ) : Option ℕ × Kernel → Type 0 where
  no_slot : ((j : ℕ) → j < length k.table → live k j ≡ true) → Creates k heap (none, k)
  no_stack : k.kstack_free ≡ [] → heap ≡ none → Creates k heap (none, k)
  placed :
      {k' : Kernel} (i s : ℕ)
      → i < length k.table
      → live k i ≡ false
      → StackFrom k heap s k'.kstack_free
      → (proc k' i).kernel_stack_guard ≡ s
      → (proc k' i).pid ≡ k.next_pid
      → process_get_by_pid k.next_pid k' ≡ some i
      → IsTable k'
      → ((j : ℕ) → j ≢ i → proc k' j ≡ proc k j)
      → Creates k heap (some i, k')

module _ (k : Kernel) (name : List ℕ) (entry i : ℕ) (t : IsTable k) (room : k.next_pid + 1 < 2 ^ 32)
    (inside : i < length k.table) (unused : live k i ≡ false) where
  abbrev written : ℕ → Process → Process
  written s = new_process k.next_pid name entry s

  create-placed :
      (heap : Option ℕ) (s : ℕ) (k' : Kernel)
      → k'.table ≡ modify k.table i (written s)
      → k'.next_pid ≡ (k.next_pid + 1) % 2 ^ 32
      → StackFrom k heap s k'.kstack_free
      → Creates k heap (some i, k')
  unfolding new_process
  create-placed heap s k' et en from =
      let k₀ = filled k i (written s) inside in
      let t' : IsTable k' =
        subst (λ u. Pids u k'.next_pid) (sym et)
          (subst (λ n. Pids k₀.table n) (omega arith)
            (filled-IsTable k i (written s) inside t refl)) in
      let here : proc k' i ≡ written s (proc k i) =
        ap (λ u. get_or u i zero_process) et
        ∙ get_or-modify_self k.table i (written s) zero_process inside in
      let inside' : i < length k'.table =
        subst (λ u. i < length u) (sym et) (rw length-modify inside) in
      let pid : (proc k' i).pid ≡ k.next_pid = ap (λ p. p.pid) here in
      placed i s inside unused from (ap (λ p. p.kernel_stack_guard) here) pid
        (ap (λ n. process_get_by_pid n k') (sym pid)
          ∙ get_by_pid_live k' i t' inside' (ap (λ p. not (is_unused p.state)) here))
        t'
        λ j ne.
          ap (λ u. get_or u j zero_process) et
          ∙ get_or-modify_ne k.table i j (written s) zero_process (λ e. ne (sym e))

  create_on-Creates :
      (heap : Option ℕ) (stacks : List ℕ)
      → k.kstack_free ≡ stacks
      → Creates k heap (create_on name entry i (pop_stack heap stacks k))
  unfolding create_on
  create_on-Creates none [] e = no_stack e refl
  create_on-Creates (some s) [] e =
      create-placed (some s) s _ refl refl
        (subst (StackFrom k (some s) s) (sym e) (StackFrom.fresh e refl))
  create_on-Creates heap (s ∷ rest) e = create-placed heap s _ refl refl (StackFrom.pooled rest e)

-- On a table whose live processes have distinct pids below the next one, which is below 2^32 -
-- 1, process_create fails and changes nothing when every slot is in use, or when the free list
-- of kernel stacks is empty and the heap gives none. Otherwise a free slot gets the next pid, by
-- which it is found, and the top stack of the free list, or that of the heap when the list is
-- empty; the pids stay distinct and the other slots are unchanged.
pub process_create-Creates :
    (k : Kernel) (heap : Option ℕ) (name : List ℕ) (entry : ℕ)
    → IsTable k
    → k.next_pid + 1 < 2 ^ 32
    → Creates k heap (process_create heap name entry k)
unfolding process_create create_in process_alloc_kernel_stack
process_create-Creates k heap name entry t room = elim (Option-cases (free_slot k)) [
  | inl e ↦
      subst (λ o. Creates k heap (create_in heap name entry o k)) (sym e)
        (no_slot
          (λ j lt. ap not (find_from-none (λ p. is_unused p.state) 0 k.table j zero_process e lt)))
  | inr (i, e) ↦
      let (lo, hi, hit) = find_from-some (λ p. is_unused p.state) 0 k.table i zero_process e in
      let at_i : i - 0 ≡ i = omega arith in
      let unused : is_unused (proc k i).state ≡ true = rw at_i at hit in
      subst (λ o. Creates k heap (create_in heap name entry o k)) (sym e)
        (create_on-Creates k name entry i t room (omega arith) (ground arith) heap k.kstack_free
          refl)
]
