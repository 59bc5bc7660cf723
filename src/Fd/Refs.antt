-- ===== src/Fd/Refs.antt =====
-- kernel/syscall/syscall.c: how many descriptors refer to an end of a pipe.
use hobbyos.Base.{
  ℕ, zero, suc, ◌+◌, ◌*◌, ◌-◌, ◌≤◌, ◌<◌, ◌≡◌, refl, sym, ◌∙◌, ap, Bool, true, false, ◌&&◌, some,
  List, [], ◌∷◌, map, ◌==◌, if◌then◌else◌, length, get_or, set, modify, drop, All, arith,
  find_from-some, length-drop, subst, ==→eq,
}
use hobbyos.Process.{
  ProcessFd, Process, Kernel, zero_fd, zero_process, fd_none, fd_pipe_read, fd_pipe_write,
}
use hobbyos.Pipe.{Pipe}
use hobbyos.Fd.{process_fd_alloc}

-- The two ends of a pipe: true for the one that is read.
abbrev pub end_type : Bool → ℕ
end_type true = fd_pipe_read
end_type false = fd_pipe_write

abbrev pub ends : Bool → Pipe → ℕ
ends true p = p.readers
ends false p = p.writers

-- 1 for a descriptor of the end of the pipe at `a`.
abbrev pub hit : Bool → ℕ → ProcessFd → ℕ
hit e a f = if f.type == end_type e && f.object == a then 1 else 0

unfoldable pub refs : Bool → ℕ → List ProcessFd → ℕ
refs e a [] = 0
refs e a (f ∷ fs) = hit e a f + refs e a fs

-- The references of all processes.
unfoldable pub total : Bool → ℕ → List (List ProcessFd) → ℕ
unfolding refs
total e a [] = 0
total e a (t ∷ ts) = refs e a t + total e a ts

abbrev pub tables : Kernel → List (List ProcessFd)
tables k = map (λ (p : Process). p.fd_table) k.table

pub refs-set :
    (e : Bool) (a : ℕ) (fs : List ProcessFd) (i : ℕ) (v : ProcessFd)
    → i < length fs
    → refs e a (set fs i v) + hit e a (get_or fs i zero_fd) ≡ refs e a fs + hit e a v
unfolding refs
refs-set e a [] i v lt = absurd (omega arith)
refs-set e a (f ∷ fs) zero v lt = omega arith
refs-set e a (f ∷ fs) (suc i) v lt = omega (arith, refs-set e a fs i v (omega (arith, lt)))

pub total-modify :
    (e : Bool) (a : ℕ) (ts : List (List ProcessFd)) (i : ℕ) (g : List ProcessFd → List ProcessFd)
    → i < length ts
    → total e a (modify ts i g) + refs e a (get_or ts i [])
      ≡ total e a ts + refs e a (g (get_or ts i []))
unfolding total
total-modify e a [] i g lt = absurd (omega arith)
total-modify e a (t ∷ ts) zero g lt = omega arith
total-modify e a (t ∷ ts) (suc i) g lt = omega (arith, total-modify e a ts i g (omega (arith, lt)))

pub refs-le-total :
    (e : Bool) (a : ℕ) (ts : List (List ProcessFd)) (i : ℕ)
    → refs e a (get_or ts i []) ≤ total e a ts
unfolding total refs
refs-le-total e a [] i = omega arith
refs-le-total e a (t ∷ ts) zero = omega arith
refs-le-total e a (t ∷ ts) (suc i) = omega (arith, refs-le-total e a ts i)

-- A free descriptor refers to nothing.
pub none_hit : (e : Bool) (a : ℕ) (f : ProcessFd) → f.type ≡ fd_none → hit e a f ≡ 0
none_hit true a f h = ground (arith, h)
none_hit false a f h = ground (arith, h)

pub hit-le-refs :
    (e : Bool) (a : ℕ) (fs : List ProcessFd) (i : ℕ) → hit e a (get_or fs i zero_fd) ≤ refs e a fs
unfolding refs
hit-le-refs e a [] i = omega (arith, none_hit e a zero_fd refl)
hit-le-refs e a (f ∷ fs) zero = omega arith
hit-le-refs e a (f ∷ fs) (suc i) = omega (arith, hit-le-refs e a fs i)

refs-le-length : (e : Bool) (a : ℕ) (fs : List ProcessFd) → refs e a fs ≤ length fs
unfolding refs
refs-le-length e a [] = omega arith
refs-le-length e a (f ∷ fs) = ground (arith, refs-le-length e a fs)

pub total_bound :
    (e : Bool) (a n : ℕ) (ts : List (List ProcessFd))
    → All (λ t. length t ≡ n) ts
    → total e a ts ≤ n * length ts
unfolding total
total_bound e a n [] h = omega arith
total_bound e a n (t ∷ ts) h = grind (arith, h.0, refs-le-length e a t, total_bound e a n ts h.1)

-- A change of a process that leaves its descriptors.
pub tables_keep :
    (i : ℕ) (f : Process → Process) (ps : List Process)
    → ((p : Process) → (f p).fd_table ≡ p.fd_table)
    → map (λ (p : Process). p.fd_table) (modify ps i f) ≡ map (λ (p : Process). p.fd_table) ps
tables_keep i f [] h = refl
tables_keep zero f (p ∷ ps) h = ap (λ t. t ∷ map (λ (q : Process). q.fd_table) ps) (h p)
tables_keep (suc i) f (p ∷ ps) h = ap (λ ts. p.fd_table ∷ ts) (tables_keep i f ps h)

-- A change of the descriptors of one process.
pub tables_modify :
    (i : ℕ) (g : List ProcessFd → List ProcessFd) (ps : List Process)
    → map (λ (p : Process). p.fd_table) (modify ps i (λ p. record p { fd_table = g p.fd_table }))
      ≡ modify (map (λ (p : Process). p.fd_table) ps) i g
tables_modify i g [] = refl
tables_modify zero g (p ∷ ps) = refl
tables_modify (suc i) g (p ∷ ps) = ap (λ ts. p.fd_table ∷ ts) (tables_modify i g ps)

pub tables-get_or :
    (ps : List Process) (i : ℕ)
    → i < length (map (λ (p : Process). p.fd_table) ps)
    → (get_or ps i zero_process).fd_table ≡ get_or (map (λ (p : Process). p.fd_table) ps) i []
tables-get_or [] i lt = absurd (omega arith)
tables-get_or (p ∷ ps) zero lt = refl
tables-get_or (p ∷ ps) (suc i) lt = tables-get_or ps i (omega (arith, lt))

get_or-drop :
    (n i : ℕ) (fs : List ProcessFd) → get_or (drop n fs) i zero_fd ≡ get_or fs (n + i) zero_fd
get_or-drop zero i fs = ap (λ j. get_or fs j zero_fd) (omega arith)
get_or-drop (suc n) i [] = refl
get_or-drop (suc n) i (f ∷ fs) =
    let next : suc n + i ≡ suc (n + i) = omega arith in
    get_or-drop n i fs ∙ ap (λ j. get_or (f ∷ fs) j zero_fd) (sym next)

-- The descriptor that is found is free, and not before `start`.
pub fd_alloc_lem :
    (fs : List ProcessFd) (start i : ℕ)
    → process_fd_alloc fs start ≡ some i
    → (start ≤ i) × (i < length fs) × ((get_or fs i zero_fd).type ≡ fd_none)
unfolding process_fd_alloc
fd_alloc_lem fs start i h =
    let (lo, hi, free) =
      find_from-some (λ (f : ProcessFd). f.type == fd_none) start (drop start fs) i zero_fd h in
    let back : start + (i - start) ≡ i = omega (arith, lo) in
    let here : get_or (drop start fs) (i - start) zero_fd ≡ get_or fs i zero_fd =
      get_or-drop start (i - start) fs ∙ ap (λ j. get_or fs j zero_fd) back in
    (
      lo,
      omega (arith, hi, lo, length-drop start fs),
      ==→eq _ _ (subst (λ (f : ProcessFd). (f.type == fd_none) ≡ true) here free),
    )
