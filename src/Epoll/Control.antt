-- ===== src/Epoll/Control.antt =====
-- kernel/fs/epoll.c, `epoll_ctl_instance`: the operations on the list of what an instance watches.
use hobbyos.Base.{
  ℕ, suc, ◌+◌, ◌-◌, ◌<◌, ◌≡◌, inl, inr, refl, sym, ◌∙◌, ap, subst, Bool, true, false, not, Option,
  none, some, List, [], ◌∷◌, ◌++◌, map, leb, ◌==◌, if◌then◌else◌, length, set, modify, take,
  find_from-some, arith, Bool-cases, then_eq, else_eq, length-modify, length-take,
}
use hobbyos.Fd.{error}
use hobbyos.Epoll.{
  EpollWatch, EpollInstance, epoll_max_watched, epoll_max_instances, epoll_ctl_add, epoll_ctl_mod,
  epoll_ctl_del, zero_watch, add_watch, ctl, write_watch, mod_at, del_at, find_watch, instance_at,
  put_instance, epoll_ctl_instance,
}
use hobbyos.Epoll.Interests.{
  Interest, IsEpoll, interests, row, control, replace_first, remove_first, without, take-modify,
  take_append, take-compact, length-compact, first_none, first_some,
}

length-map : (ws : List EpollWatch) → length (map row ws) ≡ length ws
length-map [] = refl
length-map (w ∷ ws) = ap suc (length-map ws)

-- What an operation on an instance leaves: none, or what is watched.
result : Option EpollInstance → Option (List Interest)
result none = none
result (some ep) = some (interests ep)

Kept : Option EpollInstance → Type 0
Kept none = Unit
Kept (some ep) = IsEpoll ep

branch :
    (b : Bool) (x y : Option EpollInstance) (x' y' : Option (List Interest))
    → (result x ≡ x') × Kept x
    → (result y ≡ y') × Kept y
    → (result (if b then x else y) ≡ (if b then x' else y')) × Kept (if b then x else y)
branch true x y x' y' p q = p
branch false x y x' y' p q = q

module _ (fd events user_data : ℕ) (ep : EpollInstance) (ok : IsEpoll ep) where
  interest : Interest
  interest = record { fd = fd; events = events; user_data = user_data }

  length-interests : length (interests ep) ≡ ep.watch_count
  length-interests =
      length-map (take ep.watch_count ep.watches)
      ∙ length-take ep.watch_count ep.watches
      ∙ omega (arith, ok.size, ok.count)

  add_lem :
      (result (add_watch fd events user_data ep) ≡ (
        if leb epoll_max_watched (length (interests ep))
        then none
        else some (interests ep ++ interest ∷ [])))
      × Kept (add_watch fd events user_data ep)
  unfolding add_watch result Kept interest
  add_lem =
      let ep' = record ep {
        watches = modify ep.watches ep.watch_count (write_watch fd events user_data);
        watch_count = ep.watch_count + 1;
      } in
      elim (Bool-cases (leb epoll_max_watched ep.watch_count)) [
        | inl full ↦
            (let here = then_eq (leb epoll_max_watched ep.watch_count) none (some ep') full in
              (
                ap result here
                    ∙ sym (
                        then_eq _ none (some (interests ep ++ interest ∷ []))
                          (ap (leb epoll_max_watched) length-interests ∙ full)),
                subst Kept (sym here) tt,
              ))
        | inr room ↦
            (let here = else_eq (leb epoll_max_watched ep.watch_count) none (some ep') room in
              let lt : ep.watch_count < epoll_max_watched = ground (arith, room) in
              let next : ep.watch_count + 1 ≡ suc ep.watch_count = omega arith in
              (
                ap result here
                    ∙ ap
                        (λ n. some (
                          map row (
                            take n (
                              modify ep.watches ep.watch_count (write_watch fd events user_data)))))
                        next
                    ∙ ap some (
                        take_append ep.watch_count fd events user_data ep.watches
                          (omega (arith, lt, ok.size)))
                    ∙ sym (
                        else_eq _ none (some (interests ep ++ interest ∷ []))
                          (ap (leb epoll_max_watched) length-interests ∙ room)),
                subst Kept (sym here) (record {
                  size = length-modify ep.watches ep.watch_count _ ∙ ok.size;
                  count = omega (arith, lt);
                }),
              ))
      ]

  mod_lem :
      (o : Option ℕ)
      → find_watch fd ep ≡ o
      → (result (mod_at o fd events user_data ep) ≡ replace_first fd interest (interests ep))
        × Kept (mod_at o fd events user_data ep)
  unfolding result Kept interest
  mod_lem none e = (sym (first_none fd interest 0 (take ep.watch_count ep.watches) e).0, tt)
  mod_lem (some i) e =
      let f = write_watch fd events user_data in
      let found = first_some fd f interest 0 (take ep.watch_count ep.watches) i (λ w. refl) e in
      let at : i - 0 ≡ i = omega arith in
      (
        ap (λ ws. some (map row ws)) (take-modify ep.watch_count i f ep.watches)
            ∙ sym (
                found.1
                ∙ ap (λ k. some (map row (modify (take ep.watch_count ep.watches) k f))) at),
        record { size = length-modify ep.watches i f ∙ ok.size; count = ok.count },
      )

  del_lem :
      (o : Option ℕ)
      → find_watch fd ep ≡ o
      → (result (del_at o ep) ≡ remove_first fd (interests ep)) × Kept (del_at o ep)
  unfolding result Kept
  del_lem none e = (sym (first_none fd interest 0 (take ep.watch_count ep.watches) e).1, tt)
  del_lem (some i) e =
      let n = ep.watch_count in
      let used = take n ep.watches in
      let (lo, inside, hit) =
        find_from-some (λ (w : EpollWatch). w.fd == fd) 0 used i zero_watch e in
      let size = length-take n ep.watches in
      let found =
        first_some fd (write_watch fd events user_data) interest 0 used i
          (λ w. unfold interest in refl) e in
      let at : i - 0 ≡ i = omega arith in
      let all : suc (n - 1) ≡ n = omega (arith, inside, size) in
      (
        ap (λ ws. some (map row ws))
              (take-compact i (n - 1 - i) (n - 1) ep.watches (omega (arith, inside, size))
                  (omega (arith, inside, size, ok.size, ok.count))
                ∙ ap (λ m. without i (take m ep.watches)) all)
            ∙ sym (found.2 ∙ ap (λ k. some (map row (without k used))) at),
        record {
          size = length-compact (n - 1 - i) i ep.watches ∙ ok.size;
          count = omega (arith, ok.count);
        },
      )

  ctl_lem :
      (op : ℕ)
      → (result (ctl op fd events user_data ep) ≡ control op interest (interests ep))
        × Kept (ctl op fd events user_data ep)
  unfolding ctl control result Kept interest
  ctl_lem op = branch (op == epoll_ctl_add) (add_watch fd events user_data ep) _ _ _ add_lem (
      branch (op == epoll_ctl_mod) (mod_at (find_watch fd ep) fd events user_data ep) _ _ _
        (mod_lem (find_watch fd ep) refl)
        (branch (op == epoll_ctl_del) (del_at (find_watch fd ep) ep) none _ _
          (del_lem (find_watch fd ep) refl) (refl, tt)))

-- The pool after an operation on the instance at `i`, which watched `before`: the operation is one on
-- that list, or it fails.
pub data Controls (i op : ℕ) (r : Interest) (pool : List EpollInstance)
    : ℕ × List EpollInstance → Type 0 where
  done :
      (ep : EpollInstance)
      → control op r (interests (instance_at pool i)) ≡ some (interests ep)
      → IsEpoll ep
      → Controls i op r pool (0, set pool i ep)
  failed : control op r (interests (instance_at pool i)) ≡ none → Controls i op r pool (error, pool)

put-Controls :
    (i op : ℕ) (r : Interest) (pool : List EpollInstance) (o : Option EpollInstance)
    → (result o ≡ control op r (interests (instance_at pool i))) × Kept o
    → Controls i op r pool (put_instance i o pool)
unfolding result Kept
put-Controls i op r pool none h = Controls.failed (sym h.0)
put-Controls i op r pool (some ep) h = Controls.done ep (sym h.0) h.1

-- `epoll_ctl_instance` on an instance in use with at most 32 watches, at an index below 16, does to the list of its interests what the operation says:
-- it appends one while there are fewer than 32, or replaces or removes the first of a descriptor. It
-- fails, and changes nothing, when the operation cannot be done.
pub epoll_ctl_instance-Controls :
    (i op fd events user_data : ℕ) (pool : List EpollInstance)
    → i < epoll_max_instances
    → (instance_at pool i).in_use ≡ true
    → IsEpoll (instance_at pool i)
    → Controls i op
        (record { fd = fd; events = events; user_data = user_data })
        pool
        (epoll_ctl_instance i op fd events user_data pool)
unfolding epoll_ctl_instance interest
epoll_ctl_instance-Controls i op fd events user_data pool lt live ok =
    let out = put_instance i (ctl op fd events user_data (instance_at pool i)) pool in
    let used = else_eq (not (instance_at pool i).in_use) (error, pool) out (ap not live) in
    let small = else_eq (leb epoll_max_instances i) (error, pool) _ (ground (arith, lt)) in
    subst (Controls i op _ pool) (sym (small ∙ used))
      (put-Controls i op _ pool _ (ctl_lem fd events user_data (instance_at pool i) ok op))
