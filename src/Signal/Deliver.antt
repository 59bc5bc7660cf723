-- ===== src/Signal/Deliver.antt =====
-- `signal_check` delivers the lowest pending signal that the process does not ignore.
use hobbyos.Base.{
  ℕ, zero, suc, ◌+◌, ◌-◌, ◌^◌, ◌≤◌, ◌<◌, ◌≡◌, refl, sym, ap, ◌∙◌, subst, Bool, true, false, ◌&&◌,
  not, some, ltb, leb, ◌==◌, bit_and, if◌then◌else◌, arith, length, modify-modify, ==→eq,
  modify_self, get_or-modify_self, Bool-cases, inl, inr,
}
use hobbyos.Base.Words.{flag, flag-zero}
use hobbyos.Process.{Process, Kernel, proc, set_proc, zero_process}
use hobbyos.Sched.{schedule}
use hobbyos.Signal.{
  InterruptFrame, Action, action_of, act, signal_loop, signal_check, check_at, clear_pending, die,
  wake_parent, enter_handler, save_frame,
}
use hobbyos.Signal.Pending.{flag-clear}

abbrev pub with_pending : ℕ → ℕ → Kernel → Kernel
with_pending i w k = set_proc i (λ p. record p { sig_pending = w }) k

-- The process ignores what is pending of the signals from `lo` below `hi`.
abbrev pub Skips : Process → ℕ → ℕ → ℕ → Type 0
Skips p w lo hi = (j : ℕ) → lo ≤ j → j < hi → flag w j ≡ true → action_of p j ≡ Action.ignore

-- `w'` is `w` without the signals from `lo` to below `hi`.
abbrev pub Clears : ℕ → ℕ → ℕ → ℕ → Type 0
Clears w w' lo hi = (j : ℕ) → j < 32 → flag w' j ≡ (not (leb lo j && ltb j hi) && flag w j)

-- `s` is the first pending signal from `lo` that asks for more than to be ignored, namely for `a`.
pub record First (p : Process) (w lo s : ℕ) (a : Action) (w' : ℕ) : Type 0 where
  pub from : lo ≤ s
  pub below : s < 32
  pub pending : flag w s ≡ true
  pub asks : action_of p s ≡ a
  pub skips : Skips p w lo s
  pub clears : Clears w w' lo (s + 1)

-- What is done from the signal `lo` on, when `w` is pending.
pub data Delivers (i : ℕ) (f : InterruptFrame) (k : Kernel) (w lo : ℕ) (r : InterruptFrame × Kernel)
    : Type 0 where
  nothing :
      (w' : ℕ)
      → Skips (proc k i) w lo 32
      → Clears w w' lo 32
      → r ≡ (f, with_pending i w' k)
      → Delivers i f k w lo r
  kills :
      (s w' : ℕ)
      → First (proc k i) w lo s Action.terminate w'
      → r ≡ (f, schedule (wake_parent i (die i s (with_pending i w' k))))
      → Delivers i f k w lo r
  kills_unknown :
      (s w' : ℕ)
      → First (proc k i) w lo s Action.terminate_unknown w'
      → r ≡ (f, schedule (die i s (with_pending i w' k)))
      → Delivers i f k w lo r
  calls :
      (s handler w' : ℕ)
      → First (proc k i) w lo s (Action.call handler) w'
      → r ≡ (enter_handler handler s f, set_proc i (save_frame f) (with_pending i w' k))
      → Delivers i f k w lo r

module _ (i : ℕ) (f : InterruptFrame) (k : Kernel) (hi : i < length k.table) where
  pub proc_with : (w : ℕ) → proc (with_pending i w k) i ≡ record (proc k i) { sig_pending = w }
  proc_with w =
      get_or-modify_self k.table i (λ (p : Process). record p { sig_pending = w }) zero_process hi

  pending_with : (w : ℕ) → (proc (with_pending i w k) i).sig_pending ≡ w
  pending_with w = ap (λ (p : Process). p.sig_pending) (proc_with w)

  action_with : (w j : ℕ) → action_of (proc (with_pending i w k) i) j ≡ action_of (proc k i) j
  unfolding action_of
  action_with w j = ap (λ (p : Process). action_of p j) (proc_with w)

  clear_with :
      (w s : ℕ)
      → clear_pending i s (with_pending i w k) ≡ with_pending i (bit_and w (2 ^ 32 - 1 - 2 ^ s)) k
  clear_with w s =
      ap (λ t. record k { table = t })
        (modify-modify k.table i (λ (p : Process). record p { sig_pending = w })
          (λ (p : Process). record p { sig_pending = bit_and p.sig_pending (2 ^ 32 - 1 - 2 ^ s) }))

  -- One turn, from a word of pending signals: at one that is not pending, and at one that is.
  turn_past :
      (left s w : ℕ)
      → flag w s ≡ false
      → signal_loop i (suc left) s f (with_pending i w k)
        ≡ signal_loop i left (s + 1) f (with_pending i w k)
  unfolding signal_loop
  turn_past left s w e =
      let K = with_pending i w k in
      let body : Bool → InterruptFrame × Kernel = λ b.
        (let k' = if b then clear_pending i s K else K in
          let rest = signal_loop i left (s + 1) f k' in
          if b then act i s (action_of (proc k' i) s) rest f k' else rest) in
      ap body (ap (λ p. flag p s) (pending_with w) ∙ e)

  turn_at :
      (left s w : ℕ) (a : Action)
      → flag w s ≡ true
      → action_of (proc k i) s ≡ a
      → (let K = with_pending i (bit_and w (2 ^ 32 - 1 - 2 ^ s)) k in
          signal_loop i (suc left) s f (with_pending i w k)
          ≡ act i s a (signal_loop i left (s + 1) f K) f K)
  unfolding signal_loop
  turn_at left s w a e asks =
      let K = with_pending i w k in
      let w' = bit_and w (2 ^ 32 - 1 - 2 ^ s) in
      let body : Bool → InterruptFrame × Kernel = λ b.
        (let k' = if b then clear_pending i s K else K in
          let rest = signal_loop i left (s + 1) f k' in
          if b then act i s (action_of (proc k' i) s) rest f k' else rest) in
      let body' : Kernel → InterruptFrame × Kernel =
        λ k'. act i s (action_of (proc k' i) s) (signal_loop i left (s + 1) f k') f k' in
      let K' = with_pending i w' k in
      ap body (ap (λ p. flag p s) (pending_with w) ∙ e)
      ∙ ap body' (clear_with w s)
      ∙ ap (λ b. act i s b (signal_loop i left (s + 1) f K') f K') (action_with w' s ∙ asks)

  -- What is delivered from the next signal on, after one that is not pending or ignored.
  module _ (s w w1 : ℕ) (hs : s < 32) (keeps : Clears w w1 s (s + 1))
      (skip : flag w s ≡ true → action_of (proc k i) s ≡ Action.ignore) where
    Skips-more : (hi : ℕ) → hi ≤ 32 → Skips (proc k i) w1 (s + 1) hi → Skips (proc k i) w s hi
    Skips-more hi le h j l u e = elim (Bool-cases (s == j)) [
      | inl q ↦
          (let m = ==→eq s j q in
            subst (λ n. action_of (proc k i) n ≡ Action.ignore) m
              (skip (subst (λ n. flag w n ≡ true) (sym m) e)))
      | inr q ↦ h j (ground (arith, q)) u (ground (arith, q, keeps j (omega (arith, u, le))))
    ]

    Clears-more : (w' hi : ℕ) → s < hi → hi ≤ 32 → Clears w1 w' (s + 1) hi → Clears w w' s hi
    Clears-more w' hi lt le h j u = ground (arith, h j u, keeps j u)

    First-more :
        (s' : ℕ) (a : Action) (w' : ℕ)
        → First (proc k i) w1 (s + 1) s' a w'
        → First (proc k i) w s s' a w'
    First-more s' a w' h = record {
      from = omega (arith, h.from);
      below = h.below;
      pending = ground (arith, keeps s' h.below, h.pending);
      asks = h.asks;
      skips = Skips-more s' (omega (arith, h.below)) h.skips;
      clears = Clears-more w' (s' + 1) (omega (arith, h.from)) (omega (arith, h.below)) h.clears;
    }

    later : (r : InterruptFrame × Kernel) → Delivers i f k w1 (s + 1) r → Delivers i f k w s r
    later r (Delivers.nothing w' skips clears e) =
        Delivers.nothing w' (Skips-more 32 (omega arith) skips)
          (Clears-more w' 32 hs (omega arith) clears) e
    later r (Delivers.kills s' w' h e) = Delivers.kills s' w' (First-more s' _ w' h) e
    later r (Delivers.kills_unknown s' w' h e) =
        Delivers.kills_unknown s' w' (First-more s' _ w' h) e
    later r (Delivers.calls s' handler w' h e) =
        Delivers.calls s' handler w' (First-more s' _ w' h) e

  Clears-one : (s w : ℕ) → s < 32 → Clears w (bit_and w (2 ^ 32 - 1 - 2 ^ s)) s (s + 1)
  Clears-one s w hs j u = ground (arith, flag-clear s j hs u w)

  Clears-unset : (s w : ℕ) → flag w s ≡ false → Clears w w s (s + 1)
  Clears-unset s w e j u = elim (Bool-cases (s == j)) [
    | inl q ↦ (let at = subst (λ n. flag w n ≡ false) (==→eq s j q) e in ground (arith, q, at))
    | inr q ↦ ground (arith, q)
  ]

  stops :
      (s w : ℕ) (a : Action)
      → s < 32
      → flag w s ≡ true
      → action_of (proc k i) s ≡ a
      → First (proc k i) w s s a (bit_and w (2 ^ 32 - 1 - 2 ^ s))
  stops s w a hs e asks = record {
    from = omega arith;
    below = hs;
    pending = e;
    asks = asks;
    skips = λ j l u p. absurd (omega (arith, l, u));
    clears = Clears-one s w hs;
  }

  Delivers-at :
      (left s w : ℕ) (a : Action) (r : InterruptFrame × Kernel)
      → s < 32
      → flag w s ≡ true
      → action_of (proc k i) s ≡ a
      → (let w1 = bit_and w (2 ^ 32 - 1 - 2 ^ s) in
          Delivers i f k w1 (s + 1) r → Delivers i f k w s (act i s a r f (with_pending i w1 k)))
  unfolding act
  Delivers-at left s w Action.ignore r hs e asks rest =
      later s w _ hs (Clears-one s w hs) (λ p. asks) r rest
  Delivers-at left s w Action.terminate r hs e asks rest =
      Delivers.kills s _ (stops s w _ hs e asks) refl
  Delivers-at left s w Action.terminate_unknown r hs e asks rest =
      Delivers.kills_unknown s _ (stops s w _ hs e asks) refl
  Delivers-at left s w (Action.call handler) r hs e asks rest =
      Delivers.calls s handler _ (stops s w _ hs e asks) refl

  loop-Delivers :
      (left s w : ℕ)
      → s + left ≡ 32
      → Delivers i f k w s (signal_loop i left s f (with_pending i w k))
  unfolding signal_loop
  loop-Delivers zero s w e =
      Delivers.nothing w (λ j l u p. absurd (omega (arith, l, u, e))) (λ j u. ground (arith, e, u))
        refl
  loop-Delivers (suc left) s w e = elim (Bool-cases (flag w s)) [
    | inl p ↦
        (let w1 = bit_and w (2 ^ 32 - 1 - 2 ^ s) in
          subst (Delivers i f k w s) (sym (turn_at left s w (action_of (proc k i) s) p refl)) (
            Delivers-at left s w (action_of (proc k i) s) _ (omega (arith, e)) p refl
              (loop-Delivers left (s + 1) w1 (omega (arith, e)))))
    | inr p ↦ subst (Delivers i f k w s) (sym (turn_past left s w p)) (
        later s w w (omega (arith, e)) (Clears-unset s w p) (λ q. ground (arith, p, q)) _
          (loop-Delivers left (s + 1) w (omega (arith, e))))
  ]

  with_same : with_pending i (proc k i).sig_pending k ≡ k
  with_same =
      ap (λ t. record k { table = t })
        (modify_self k.table i (λ (p : Process). record p { sig_pending = (proc k i).sig_pending })
          zero_process refl)

  from_same : (w : ℕ) → w ≡ 0 → with_pending i w k ≡ k → Delivers i f k w 1 (f, k)
  from_same w e same =
      let unset : (j : ℕ) → flag w j ≡ false = λ j. rw e (flag-zero j) in
      Delivers.nothing w (λ j l u p. ground (arith, unset j, p)) (λ j u. ground (arith, unset j))
        (ap (λ k'. (f, k')) (sym same))

  -- A user process that runs no handler is given its lowest pending signal that it does not ignore,
  -- by its action: the two ways to end it, or the call of its handler. This signal and the ignored
  -- ones below it are no longer pending, the others still are. Without such a signal nothing
  -- is pending any more and the frame stays as it is.
  pub signal_check-Delivers :
      (proc k i).is_user ≡ true
      → (proc k i).in_signal_handler ≡ false
      → Delivers i f k (proc k i).sig_pending 1 (signal_check (some i) f k)
  unfolding signal_check check_at
  signal_check-Delivers user free = elim (Bool-cases ((proc k i).sig_pending == 0)) [
    | inl e ↦ rw (user, free, e) (from_same _ (==→eq _ 0 e) with_same)
    | inr e ↦
        rw (user, free, e)
          (subst (λ k'. Delivers i f k (proc k i).sig_pending 1 (signal_loop i 31 1 f k')) with_same
            (loop-Delivers 31 1 (proc k i).sig_pending refl))
  ]
