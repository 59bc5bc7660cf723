-- ===== src/Epoll/Interests.antt =====
-- kernel/fs/epoll.c: an instance as the list of what it watches.
use hobbyos.Base.{
  ℕ, zero, suc, ◌+◌, ◌-◌, ◌≤◌, ◌<◌, ◌≡◌, inl, inr, refl, sym, ◌∙◌, ap, subst, Option, none, some,
  List, [], ◌∷◌, ◌++◌, map, leb, ◌==◌, if◌then◌else◌, length, get_or, set, modify, take, find_from,
  arith, Bool-cases, then_eq, else_eq, length-set,
}
use hobbyos.Epoll.{
  EpollWatch, EpollInstance, epoll_max_watched, epoll_ctl_add, epoll_ctl_mod, epoll_ctl_del,
  zero_watch, compact, write_watch,
}

pub record Interest : Type 0 where
  pub fd : ℕ
  pub events : ℕ
  pub user_data : ℕ

abbrev pub row : EpollWatch → Interest
row w = record { fd = w.fd; events = w.events; user_data = w.user_data }

-- What an instance watches, in order.
abbrev pub interests : EpollInstance → List Interest
interests ep = map row (take ep.watch_count ep.watches)

pub record IsEpoll (ep : EpollInstance) : Type 0 where
  pub size : length ep.watches ≡ epoll_max_watched
  pub count : ep.watch_count ≤ epoll_max_watched

after : Interest → Option (List Interest) → Option (List Interest)
after x none = none
after x (some xs) = some (x ∷ xs)

-- The first interest in a descriptor is replaced, or removed.
unfoldable pub replace_first : ℕ → Interest → List Interest → Option (List Interest)
unfolding after
replace_first fd r [] = none
replace_first fd r (x ∷ xs) =
    let rest = replace_first fd r xs in if x.fd == fd then some (r ∷ xs) else after x rest

unfoldable pub remove_first : ℕ → List Interest → Option (List Interest)
unfolding after
remove_first fd [] = none
remove_first fd (x ∷ xs) =
    let rest = remove_first fd xs in if x.fd == fd then some xs else after x rest

-- What an operation does to a list of interests, or none when it fails.
unfoldable pub control : ℕ → Interest → List Interest → Option (List Interest)
unfolding replace_first remove_first
control op r xs =
    if op == epoll_ctl_add
    then (if leb epoll_max_watched (length xs) then none else some (xs ++ r ∷ []))
    else if op == epoll_ctl_mod
    then replace_first r.fd r xs
    else if op == epoll_ctl_del
    then remove_first r.fd xs
    else none

pub take-modify :
    (n i : ℕ) (f : EpollWatch → EpollWatch) (ws : List EpollWatch)
    → take n (modify ws i f) ≡ modify (take n ws) i f
take-modify zero i f ws = refl
take-modify (suc n) i f [] = refl
take-modify (suc n) zero f (w ∷ ws) = refl
take-modify (suc n) (suc i) f (w ∷ ws) = ap (λ xs. w ∷ xs) (take-modify n i f ws)

-- The watch at the end of those in use is written.
pub take_append :
    (n fd events user_data : ℕ) (ws : List EpollWatch)
    → n < length ws
    → map row (take (suc n) (modify ws n (write_watch fd events user_data)))
      ≡ map row (take n ws) ++ record { fd = fd; events = events; user_data = user_data } ∷ []
take_append n fd events user_data [] lt = absurd (omega (arith, lt))
take_append zero fd events user_data (w ∷ ws) lt = refl
take_append (suc n) fd events user_data (w ∷ ws) lt =
    ap (λ xs. row w ∷ xs) (take_append n fd events user_data ws (omega (arith, lt)))

unfoldable pub without : ℕ → List EpollWatch → List EpollWatch
without i [] = []
without zero (w ∷ ws) = ws
without (suc i) (w ∷ ws) = w ∷ without i ws

next_round :
    (left j : ℕ) (ws : List EpollWatch)
    → compact (suc left) j ws ≡ compact left (suc j) (set ws j (get_or ws (suc j) zero_watch))
unfolding compact
next_round left j ws =
    let next : j + 1 ≡ suc j = omega arith in
    ap (λ k. compact left k (set ws j (get_or ws k zero_watch))) next

compact_cons :
    (left j : ℕ) (w : EpollWatch) (ws : List EpollWatch)
    → compact left (suc j) (w ∷ ws) ≡ w ∷ compact left j ws
compact_cons zero j w ws = unfold compact in refl
compact_cons (suc left) j w ws =
    next_round left (suc j) (w ∷ ws)
    ∙ compact_cons left (suc j) w (set ws j (get_or ws (suc j) zero_watch))
    ∙ ap (λ xs. w ∷ xs) (sym (next_round left j ws))

-- The watches behind the first one move up.
compact_first :
    (left : ℕ) (w : EpollWatch) (ws : List EpollWatch)
    → left ≤ length ws
    → take left (compact left 0 (w ∷ ws)) ≡ take left ws
compact_first zero w ws le = refl
compact_first (suc left) w [] le = absurd (omega (arith, le))
compact_first (suc left) w (v ∷ ws) le =
    ap (take (suc left)) (next_round left 0 (w ∷ v ∷ ws) ∙ compact_cons left 0 v (v ∷ ws))
    ∙ ap (λ xs. v ∷ xs) (compact_first left v ws (omega (arith, le)))

pub take-compact :
    (i left n : ℕ) (ws : List EpollWatch)
    → i + left ≡ n
    → n < length ws
    → take n (compact left i ws) ≡ without i (take (suc n) ws)
unfolding without
take-compact i left n [] e lt = absurd (omega (arith, lt))
take-compact zero left n (w ∷ ws) e lt =
    let all : left ≡ n = omega (arith, e) in
    subst (λ m. take m (compact left 0 (w ∷ ws)) ≡ take m ws) all
      (compact_first left w ws (omega (arith, lt, all)))
take-compact (suc i) left zero (w ∷ ws) e lt = absurd (omega (arith, e))
take-compact (suc i) left (suc n) (w ∷ ws) e lt =
    ap (take (suc n)) (compact_cons left i w ws)
    ∙ ap (λ xs. w ∷ xs) (take-compact i left n ws (omega (arith, e)) (omega (arith, lt)))

pub length-compact : (left j : ℕ) (ws : List EpollWatch) → length (compact left j ws) ≡ length ws
unfolding compact
length-compact zero j ws = refl
length-compact (suc left) j ws = length-compact left (j + 1) _ ∙ length-set ws j _

some_same : (a b : ℕ) → some a ≡ some b → a ≡ b
some_same a b e = ground (arith, e)

-- The first watch of a descriptor is the first interest in it.
pub first_none :
    (fd : ℕ) (r : Interest) (s : ℕ) (ws : List EpollWatch)
    → find_from (λ w. w.fd == fd) s ws ≡ none
    → (replace_first fd r (map row ws) ≡ none) × (remove_first fd (map row ws) ≡ none)
unfolding find_from replace_first remove_first after
first_none fd r s [] e = (refl, refl)
first_none fd r s (w ∷ ws) e =
    let rest = find_from (λ v. v.fd == fd) (s + 1) ws in
    let other = first_none fd r (s + 1) ws in
    let x = row w in
    elim (Bool-cases (w.fd == fd)) [
      | inl hit ↦ (let both = sym (then_eq (w.fd == fd) (some s) rest hit) ∙ e in cc)
      | inr miss ↦
          (let ih = other (sym (else_eq (w.fd == fd) (some s) rest miss) ∙ e) in
            (
              else_eq (w.fd == fd) (some (r ∷ map row ws))
                    (after x (replace_first fd r (map row ws))) miss
                  ∙ ap (after x) ih.0,
              else_eq (w.fd == fd) (some (map row ws)) (after x (remove_first fd (map row ws))) miss
                  ∙ ap (after x) ih.1,
            ))
    ]

pub first_some :
    (fd : ℕ) (f : EpollWatch → EpollWatch) (r : Interest) (s : ℕ) (ws : List EpollWatch) (i : ℕ)
    → ((w : EpollWatch) → row (f w) ≡ r)
    → find_from (λ w. w.fd == fd) s ws ≡ some i
    → (s ≤ i)
      × (replace_first fd r (map row ws) ≡ some (map row (modify ws (i - s) f)))
      × (remove_first fd (map row ws) ≡ some (map row (without (i - s) ws)))
unfolding find_from replace_first remove_first after without
first_some fd f r s [] i h e = cc
first_some fd f r s (w ∷ ws) i h e =
    let rest = find_from (λ v. v.fd == fd) (s + 1) ws in
    let other = first_some fd f r (s + 1) ws i h in
    let x = row w in
    elim (Bool-cases (w.fd == fd)) [
      | inl hit ↦
          (let at : s ≡ i = some_same s i (sym (then_eq (w.fd == fd) (some s) rest hit) ∙ e) in
            let first : 0 ≡ i - s = omega (arith, at) in
            (
              omega (arith, at),
              then_eq (w.fd == fd) (some (r ∷ map row ws))
                    (after x (replace_first fd r (map row ws))) hit
                  ∙ ap (λ y. some (y ∷ map row ws)) (sym (h w))
                  ∙ ap (λ k. some (map row (modify (w ∷ ws) k f))) first,
              then_eq (w.fd == fd) (some (map row ws)) (after x (remove_first fd (map row ws))) hit
                  ∙ ap (λ k. some (map row (without k (w ∷ ws)))) first,
            ))
      | inr miss ↦
          (let (lo, replaced, removed) =
              other (sym (else_eq (w.fd == fd) (some s) rest miss) ∙ e) in
            let later : suc (i - (s + 1)) ≡ i - s = omega (arith, lo) in
            (
              omega (arith, lo),
              else_eq (w.fd == fd) (some (r ∷ map row ws))
                    (after x (replace_first fd r (map row ws))) miss
                  ∙ ap (after x) replaced
                  ∙ ap (λ k. some (map row (modify (w ∷ ws) k f))) later,
              else_eq (w.fd == fd) (some (map row ws)) (after x (remove_first fd (map row ws))) miss
                  ∙ ap (after x) removed
                  ∙ ap (λ k. some (map row (without k (w ∷ ws)))) later,
            ))
    ]
