-- ===== src/Epoll/Scan.antt =====
-- kernel/syscall/syscall.c, the loop of SYS_EPOLL_WAIT: which events it reports.
use hobbyos.Base.{
  ℕ, zero, suc, ◌≤◌, ◌≡◌, refl, ◌∙◌, ap, Bool, true, false, not, ◌&&◌, List, [], ◌∷◌, length, take,
  bit_and, ◌==◌, if◌then◌else◌, arith,
}
use hobbyos.Epoll.{EpollWatch}
use hobbyos.Epoll.Wait.{epollet, Ready, EpollEvent, is_et, ready_events, scan, scanned, reported}

unfoldable pub event : Ready → EpollWatch → EpollEvent
event r w = record { events = ready_events r w; user_data = w.user_data }

unfoldable pub keep_if : Bool → EpollEvent → List EpollEvent → List EpollEvent
keep_if true e es = e ∷ es
keep_if false e es = es

-- A watch has events, and they are not withheld since they were reported before.
unfoldable pub due : Ready → EpollWatch → Bool
due r w = not (ready_events r w == 0) && not (is_et w && w.et_reported)

-- The events of all watches that are due.
unfoldable pub reports : Ready → List EpollWatch → List EpollEvent
unfolding keep_if due event
reports r [] = []
reports r (w ∷ ws) = keep_if (due r w) (event r w) (reports r ws)

-- The events of the level-triggered watches.
unfoldable pub levels : Ready → List EpollWatch → List EpollEvent
unfolding keep_if event
levels r [] = []
levels r (w ∷ ws) = keep_if (not (ready_events r w == 0) && not (is_et w)) (event r w) (levels r ws)

-- The three ways of a round of the loop, by what the tests on the watch say.
pub branches :
    {A : Type 0} (P : Bool → Bool → A → Type 0) (b c : Bool) (x y z : A)
    → P true true x
    → P true false y
    → P false c z
    → P b c (if b then (if c then x else y) else z)
branches P true true x y z p q t = p
branches P true false x y z p q t = q
branches P false c x y z p q t = t

-- The loop reports the first `n` of the events that are due.
pub scan-reports :
    (r : Ready) (n : ℕ) (ws : List EpollWatch) → (scan r n ws).0 ≡ take n (reports r ws)
unfolding scan reports keep_if due event
scan-reports r zero ws = refl
scan-reports r (suc n) [] = refl
scan-reports r (suc n) (w ∷ ws) =
    let fewer = scan-reports r n ws in
    let same = scan-reports r (suc n) ws in
    let e = event r w in
    branches
      (λ b c (out : List EpollEvent × List EpollWatch).
        out.0 ≡ take (suc n) (keep_if (b && not c) e (reports r ws)))
      (not (ready_events r w == 0)) (is_et w && w.et_reported) (scanned w (scan r (suc n) ws))
      (reported e (if is_et w then record w { et_reported = true } else w) (scan r n ws))
      (scanned (if is_et w then record w { et_reported = false } else w) (scan r (suc n) ws)) same
      (ap (λ es. e ∷ es) fewer) same

withheld :
    (ready et flag : Bool)
    → (ready ≡ true → et ≡ true → flag ≡ true)
    → (ready && not (et && flag)) ≡ (ready && not et)
withheld true true flag h = ap not (h refl refl)
withheld true false flag h = refl
withheld false et flag h = refl

and_right : (a b : Bool) → (a && b) ≡ true → b ≡ true
and_right true b h = h
and_right false b h = cc

-- `w'` is `w` but for its flag, which is set when it is edge-triggered and ready.
next_head :
    (r : Ready) (w w' : EpollWatch) (rest rest' : List EpollEvent)
    → ready_events r w' ≡ ready_events r w
    → w'.events ≡ w.events
    → w'.user_data ≡ w.user_data
    → (not (ready_events r w == 0) ≡ true → is_et w ≡ true → w'.et_reported ≡ true)
    → rest ≡ rest'
    → keep_if (due r w') (event r w') rest
      ≡ keep_if (not (ready_events r w == 0) && not (is_et w)) (event r w) rest'
unfolding due event
next_head r w w' rest rest' ready events user_data flag same =
    let a = ready_events r w in
    ap
      (λ (b : ℕ).
        keep_if (not (b == 0) && not (is_et w' && w'.et_reported))
          (record { events = b; user_data = w'.user_data }) rest)
      ready
    ∙ ap
        (λ (v : ℕ).
          keep_if (not (a == 0) && not (not (bit_and v epollet == 0) && w'.et_reported))
            (record { events = a; user_data = w'.user_data }) rest)
        events
    ∙ ap
        (λ (u : ℕ).
          keep_if (not (a == 0) && not (is_et w && w'.et_reported))
            (record { events = a; user_data = u }) rest)
        user_data
    ∙ ap (λ (d : Bool). keep_if d (record { events = a; user_data = w.user_data }) rest)
        (withheld (not (a == 0)) (is_et w) w'.et_reported flag)
    ∙ ap (keep_if (not (a == 0) && not (is_et w)) (record { events = a; user_data = w.user_data }))
        same

abbrev pub marked : Bool → EpollWatch → EpollWatch
marked v w = if is_et w then record w { et_reported = v } else w

pub marked_lem :
    (r : Ready) (v b : Bool) (w : EpollWatch)
    → (let w' = if b then record w { et_reported = v } else w in
        (ready_events r w' ≡ ready_events r w)
        × (w'.events ≡ w.events)
        × (w'.user_data ≡ w.user_data)
        × (b ≡ true → w'.et_reported ≡ v))
unfolding ready_events
marked_lem r v true w = (refl, refl, refl, λ e. refl)
marked_lem r v false w = (refl, refl, refl, λ e. cc)

-- After a loop that comes to the end, an edge-triggered watch is not due while its descriptor stays as
-- it is.
pub reports_after :
    (r : Ready) (n : ℕ) (ws : List EpollWatch)
    → length ws ≤ n
    → reports r (scan r n ws).1 ≡ levels r ws
unfolding scan reports levels
reports_after r zero [] le = refl
reports_after r zero (w ∷ ws) le = absurd (omega (arith, le))
reports_after r (suc n) [] le = refl
reports_after r (suc n) (w ∷ ws) le =
    let fewer = reports_after r n ws (omega (arith, le)) in
    let same = reports_after r (suc n) ws (omega (arith, le)) in
    let e : EpollEvent = record { events = ready_events r w; user_data = w.user_data } in
    let set = marked_lem r true (is_et w) w in
    let reset = marked_lem r false (is_et w) w in
    branches
      (λ b c (out : List EpollEvent × List EpollWatch).
        not (ready_events r w == 0) ≡ b
        → (is_et w && w.et_reported) ≡ c
        → reports r out.1
          ≡ keep_if (not (ready_events r w == 0) && not (is_et w)) (event r w) (levels r ws))
      (not (ready_events r w == 0)) (is_et w && w.et_reported) (scanned w (scan r (suc n) ws))
      (reported e (marked true w) (scan r n ws)) (scanned (marked false w) (scan r (suc n) ws))
      (λ p q. next_head r w w _ _ refl refl refl (λ a b. and_right (is_et w) w.et_reported q) same)
      (λ p q. next_head r w (marked true w) _ _ set.0 set.1 set.2 (λ a b. set.3 b) fewer)
      (λ p q. next_head r w (marked false w) _ _ reset.0 reset.1 reset.2 (λ a b. cc) same) refl refl

-- A second loop, while the descriptors stay as they are, reports only level-triggered watches.
pub scan_again :
    (r : Ready) (n m : ℕ) (ws : List EpollWatch)
    → length ws ≤ n
    → (scan r m (scan r n ws).1).0 ≡ take m (levels r ws)
scan_again r n m ws le = scan-reports r m (scan r n ws).1 ∙ ap (take m) (reports_after r n ws le)
