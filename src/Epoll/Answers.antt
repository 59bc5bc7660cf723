-- ===== src/Epoll/Answers.antt =====
-- kernel/syscall/syscall.c, SYS_EPOLL_WAIT: the events that it is to report, by the bits of a watch.
use hobbyos.Base.{
  ℕ, ◌+◌, ◌≡◌, refl, ◌∙◌, ap, ap₂, Bool, true, false, not, ◌&&◌, List, [], ◌∷◌, ◌==◌, if◌then◌else◌,
  ◌^◌, ◌-◌, bit_and, bit_or, arith,
}
use hobbyos.Base.Words.{bit, flag, flag-bit, bit-bit_and, bit-lt}
use hobbyos.Epoll.{EpollWatch}
use hobbyos.Epoll.Wait.{Ready, EpollEvent, ready_events}
use hobbyos.Epoll.Scan.{reports, keep_if, due, event}

-- EPOLLIN is bit 0, EPOLLOUT is bit 2, and EPOLLET is bit 31.
abbrev pub asks : ℕ → EpollWatch → Bool
asks k w = bit w.events k == 1

-- EPOLLIN for a watch that asks for it whose descriptor can be read, and EPOLLOUT for one that asks
-- for that whose descriptor can be written.
abbrev pub answer : Ready → EpollWatch → ℕ
answer r w =
    (if asks 0 w && r.readable w.fd then 1 else 0) + (if asks 2 w && r.writable w.fd then 4 else 0)

-- Each watch with an answer is reported, but for an edge-triggered one that was reported before.
unfoldable pub answers : Ready → List EpollWatch → List EpollEvent
answers r [] = []
answers r (w ∷ ws) =
    let rest = answers r ws in
    if not (answer r w == 0) && not (asks 31 w && w.et_reported)
    then record { events = answer r w; user_data = w.user_data } ∷ rest
    else rest

masked :
    (events k : ℕ)
    → bit (2 ^ 32 - 1 - 2 ^ 31) k ≡ 1
    → flag (bit_and events (2 ^ 32 - 1 - 2 ^ 31)) k ≡ (bit events k == 1)
masked events k one =
    flag-bit (bit_and events (2 ^ 32 - 1 - 2 ^ 31)) k
    ∙ ap (λ (b : ℕ). b == 1)
        (omega (arith, bit-bit_and k events (2 ^ 32 - 1 - 2 ^ 31), one, bit-lt k events))

both :
    (a b : Bool)
    → bit_or (if a then 1 else 0) (if b then 4 else 0) ≡ (if a then 1 else 0) + (if b then 4 else 0)
both true true = refl
both true false = refl
both false true = refl
both false false = refl

ready_events-answer : (r : Ready) (w : EpollWatch) → ready_events r w ≡ answer r w
unfolding ready_events
ready_events-answer r w =
    ap₂
      (λ (a b : Bool).
        bit_or (if a && r.readable w.fd then 1 else 0) (if b && r.writable w.fd then 4 else 0))
      (masked w.events 0 (unfold bit in refl)) (masked w.events 2 (unfold bit in refl))
    ∙ both (asks 0 w && r.readable w.fd) (asks 2 w && r.writable w.fd)

keep_lem :
    (b : Bool) (e : EpollEvent) (es : List EpollEvent) → keep_if b e es ≡ (if b then e ∷ es else es)
unfolding keep_if
keep_lem true e es = refl
keep_lem false e es = refl

pub reports-answers : (r : Ready) (ws : List EpollWatch) → reports r ws ≡ answers r ws
unfolding reports answers due event
reports-answers r [] = refl
reports-answers r (w ∷ ws) =
    let rest = reports-answers r ws in
    keep_lem (due r w) (event r w) (reports r ws)
    ∙ ap₂
        (λ (a : ℕ) (et : Bool).
          if not (a == 0) && not (et && w.et_reported)
          then record { events = a; user_data = w.user_data } ∷ reports r ws
          else reports r ws)
        (ready_events-answer r w) (flag-bit w.events 31)
    ∙ ap
        (λ (es : List EpollEvent).
          if not (answer r w == 0) && not (asks 31 w && w.et_reported)
          then record { events = answer r w; user_data = w.user_data } ∷ es
          else es)
        rest
