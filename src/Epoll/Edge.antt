-- ===== src/Epoll/Edge.antt =====
-- kernel/fs/epoll.c and SYS_EPOLL_WAIT: edge-triggered watches.
use hobbyos.Base.{
  ℕ, zero, suc, ◌+◌, ◌≤◌, ◌<◌, ◌≡◌, refl, sym, ◌∙◌, ap, Bool, true, false, not, ◌&&◌, List, [], ◌∷◌,
  ◌++◌, none, some, length, take, drop, modify, get_or, ◌==◌, leb, else_eq, arith, length-take,
}
use hobbyos.Epoll.{EpollWatch, EpollInstance, add_watch, write_watch, zero_watch, epoll_max_watched}
use hobbyos.Epoll.Interests.{IsEpoll}
use hobbyos.Epoll.Wait.{
  Ready, EpollEvent, is_et, ready_events, scan, scan_instance, scanned, reported,
}
use hobbyos.Epoll.Scan.{
  reports, levels, scan-reports, reports_after, branches, marked, due, event, keep_if,
}

length-scan : (r : Ready) (n : ℕ) (ws : List EpollWatch) → length (scan r n ws).1 ≡ length ws
unfolding scan
length-scan r zero ws = refl
length-scan r (suc n) [] = refl
length-scan r (suc n) (w ∷ ws) =
    let e : EpollEvent = record { events = ready_events r w; user_data = w.user_data } in
    branches (λ b c (out : List EpollEvent × List EpollWatch). length out.1 ≡ suc (length ws))
      (not (ready_events r w == 0)) (is_et w && w.et_reported) (scanned w (scan r (suc n) ws))
      (reported e (marked true w) (scan r n ws)) (scanned (marked false w) (scan r (suc n) ws))
      (ap suc (length-scan r (suc n) ws)) (ap suc (length-scan r n ws))
      (ap suc (length-scan r (suc n) ws))

take_front : (xs ys : List EpollWatch) (n : ℕ) → length xs ≡ n → take n (xs ++ ys) ≡ xs
take_front [] ys n e = ap (λ m. take m ys) (sym e)
take_front (x ∷ xs) ys zero e = absurd (omega (arith, e))
take_front (x ∷ xs) ys (suc n) e = ap (λ zs. x ∷ zs) (take_front xs ys n (omega (arith, e)))

-- An instance is scanned twice, with room for all its watches the first time, while the descriptors
-- stay as they are: the second scan reports only level-triggered watches.
pub edge_once :
    (r : Ready) (n m : ℕ) (ep : EpollInstance)
    → IsEpoll ep
    → ep.watch_count ≤ n
    → (scan_instance r m (scan_instance r n ep).1).0
      ≡ take m (levels r (take ep.watch_count ep.watches))
unfolding scan_instance
edge_once r n m ep ok room =
    let ws = take ep.watch_count ep.watches in
    let size : length ws ≡ ep.watch_count =
      omega (arith, length-take ep.watch_count ep.watches, ok.size, ok.count) in
    let back =
      take_front (scan r n ws).1 (drop ep.watch_count ep.watches) ep.watch_count
        (length-scan r n ws ∙ size) in
    ap (λ vs. (scan r m vs).0) back
    ∙ scan-reports r m (scan r n ws).1
    ∙ ap (take m) (reports_after r n ws (omega (arith, size, room)))

and_false : (b : Bool) → (b && false) ≡ false
and_false true = refl
and_false false = refl

added :
    (n : ℕ) (f : EpollWatch → EpollWatch) (ws : List EpollWatch)
    → n < length ws
    → take (suc n) (modify ws n f) ≡ take n ws ++ f (get_or ws n zero_watch) ∷ []
added n f [] lt = absurd (omega (arith, lt))
added zero f (w ∷ ws) lt = refl
added (suc n) f (w ∷ ws) lt = ap (λ vs. w ∷ vs) (added n f ws (omega (arith, lt)))

not_due :
    (r : Ready) (ws : List EpollWatch) (w : EpollWatch)
    → due r w ≡ false
    → reports r (ws ++ w ∷ []) ≡ reports r ws
unfolding reports
not_due r [] w h = unfold keep_if in ap (λ b. keep_if b (event r w) []) h
not_due r (v ∷ ws) w h = ap (keep_if (due r v) (event r v)) (not_due r ws w h)

-- On an instance with fewer than 32 watches, EPOLL_CTL_ADD takes over the flag of the watch that was in the place before: when it is set, an
-- edge-triggered watch that is added is not reported, although its descriptor is ready.
pub added_silent :
    (r : Ready) (n fd events user_data : ℕ) (ep : EpollInstance)
    → IsEpoll ep
    → ep.watch_count < epoll_max_watched
    → (get_or ep.watches ep.watch_count zero_watch).et_reported ≡ true
    → is_et (record { fd = fd; events = events; user_data = user_data; et_reported = true }) ≡ true
    → (ep' : EpollInstance) × (add_watch fd events user_data ep ≡ some ep')
      × ((scan_instance r n ep').0 ≡ (scan_instance r n ep).0)
unfolding add_watch scan_instance due
added_silent r n fd events user_data ep ok room stale et =
    let f = write_watch fd events user_data in
    let ep' : EpollInstance = record ep {
      watches = modify ep.watches ep.watch_count f;
      watch_count = ep.watch_count + 1;
    } in
    let last = f (get_or ep.watches ep.watch_count zero_watch) in
    let next : ep.watch_count + 1 ≡ suc ep.watch_count = omega arith in
    let used = take ep.watch_count ep.watches in
    let all =
      ap (λ k. take k (modify ep.watches ep.watch_count f)) next
      ∙ added ep.watch_count f ep.watches (omega (arith, room, ok.size)) in
    let quiet : due r last ≡ false =
      ap (λ b. not (ready_events r last == 0) && not (b && last.et_reported)) et
      ∙ ap (λ b. not (ready_events r last == 0) && not b) stale
      ∙ and_false (not (ready_events r last == 0)) in
    (
      ep',
      else_eq (leb epoll_max_watched ep.watch_count) none (some ep') (ground (arith, room)),
      ap (λ vs. (scan r n vs).0) all
          ∙ scan-reports r n (used ++ last ∷ [])
          ∙ ap (take n) (not_due r used last quiet)
          ∙ sym (scan-reports r n used),
    )
