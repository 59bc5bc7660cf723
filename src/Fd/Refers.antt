-- ===== src/Fd/Refers.antt =====
-- kernel/syscall/syscall.c: what a new reference does to the pipes, and the calls on any object.
use hobbyos.Base.{
  ℕ, ◌+◌, ◌-◌, ◌≤◌, ◌<◌, ◌^◌, ◌≡◌, ◌≢◌, refl, sym, ◌∙◌, ap, subst, Bool, true, false, ◌||◌, some,
  List, [], ◌∷◌, ◌==◌, if◌then◌else◌, arith, if_both, then_eq, else_eq, ==→eq, ==→ne, Bool-cases,
  inl, inr,
}
use hobbyos.Process.{ProcessFd, fd_pipe_read, fd_pipe_write}
use hobbyos.Pipe.{World, pipe_inc_ref}
use hobbyos.Fd.{
  Files, Objects, inc_pipe, close_object, inc_object, inc_all, pointer, fd_socket, fd_epoll,
}
use hobbyos.Fd.Refs.{ends, end_type, hit, refs, tables}
use hobbyos.Fd.Ends.{
  at_pipe_other, at_pipe_self, counting, close_ends, tables-close_pipe, tables-inc_pipe,
}

-- The end that the type names has one more reference.
inc_end :
    (e : Bool) (a t : ℕ) (w : World)
    → ends e w.pipe + 1 < 2 ^ 32
    → ends e (pipe_inc_ref (some a) t w).pipe ≡ ends e w.pipe + (if t == end_type e then 1 else 0)
unfolding pipe_inc_ref
inc_end true a t w lt = ground (arith, lt)
inc_end false a t w lt = ground (arith, lt)

module _ {O : Type 0} where
  -- A type that names no end is not counted.
  counts_either :
      (f : ProcessFd) (s : Files O)
      → f.object ≢ 0
      → (inc_pipe f s).pipes f.object
        ≡ (pipe_inc_ref
            (some f.object)
            f.type
            (record { pipe = s.pipes f.object; kernel = s.kernel })).pipe
  counts_either f s nz =
      let w : World = record { pipe = s.pipes f.object; kernel = s.kernel } in
      let there : pointer f.object ≡ some f.object = ground (arith, nz) in
      elim (Bool-cases (f.type == fd_pipe_read || f.type == fd_pipe_write)) [
        | inl counted ↦
            unfold inc_pipe in
            ap (λ (s' : Files O). s'.pipes f.object)
              (then_eq (f.type == fd_pipe_read || f.type == fd_pipe_write) (counting f s) s counted)
            ∙ at_pipe_self f.object (pipe_inc_ref (pointer f.object) f.type) s
            ∙ ap (λ o. (pipe_inc_ref o f.type w).pipe) there
        | inr other ↦
            unfold inc_pipe pipe_inc_ref in
            ap (λ (s' : Files O). s'.pipes f.object)
              (else_eq (f.type == fd_pipe_read || f.type == fd_pipe_write) (counting f s) s other)
            ∙ ground (arith, other)
      ]

  inc_other :
      (x : ℕ) (f : ProcessFd) (s : Files O) → x ≢ f.object → (inc_pipe f s).pipes x ≡ s.pipes x
  unfolding inc_pipe
  inc_other x f s ne =
      if_both (λ (s' : Files O). s'.pipes x ≡ s.pipes x)
        (f.type == fd_pipe_read || f.type == fd_pipe_write) (counting f s) s
        (at_pipe_other f.object x (pipe_inc_ref (pointer f.object) f.type) s ne) refl

  -- A new descriptor of an end of a pipe counts once.
  pub inc_ends :
      (e : Bool) (x : ℕ) (f : ProcessFd) (s : Files O)
      → x ≢ 0
      → ends e (s.pipes x) + 1 < 2 ^ 32
      → ends e ((inc_pipe f s).pipes x) ≡ ends e (s.pipes x) + hit e x f
  inc_ends e x f s nz lt = elim (Bool-cases (f.object == x)) [
    | inl same ↦ at_self e (==→eq f.object x same) lt
    | inr other ↦ ap (ends e) (inc_other x f s (λ i. ==→ne f.object x other (sym i))) ∙ away e other
  ]
    where
      here :
          (d : Bool)
          → f.object ≡ x
          → ends d (s.pipes f.object) + (if f.type == end_type d then 1 else 0)
            ≡ ends d (s.pipes x) + hit d x f
      here true at =
          ap (λ y. ends true (s.pipes y) + (if f.type == fd_pipe_read then 1 else 0)) at
          ∙ ground (arith, at)
      here false at =
          ap (λ y. ends false (s.pipes y) + (if f.type == fd_pipe_write then 1 else 0)) at
          ∙ ground (arith, at)

      at_self :
          (d : Bool)
          → f.object ≡ x
          → ends d (s.pipes x) + 1 < 2 ^ 32
          → ends d ((inc_pipe f s).pipes x) ≡ ends d (s.pipes x) + hit d x f
      at_self d at small =
          ap (λ y. ends d ((inc_pipe f s).pipes y)) (sym at)
          ∙ ap (ends d) (counts_either f s (λ z. nz (sym at ∙ z)))
          ∙ inc_end d f.object f.type _
              (subst (λ y. ends d (s.pipes y) + 1 < 2 ^ 32) (sym at) small)
          ∙ here d at

      away :
          (d : Bool) → (f.object == x) ≡ false → ends d (s.pipes x) ≡ ends d (s.pipes x) + hit d x f
      away true other = ground (arith, other)
      away false other = ground (arith, other)

-- A descriptor of another type refers to no end.
other_hit :
    (e : Bool) (x t : ℕ) (f : ProcessFd) → (f.type == t) ≡ true → fd_socket ≤ t → hit e x f ≡ 0
other_hit true x t f is ge = ground (arith, is, ge)
other_hit false x t f is ge = ground (arith, is, ge)

none_lost : (n h : ℕ) → h ≡ 0 → n ≡ n - h
none_lost n h z = omega (arith, z)

module _ {O : Type 0} (ops : Objects O) where
  -- The calls on sockets and epoll instances leave the pipes and the processes.
  pub tables-close_object :
      (f : ProcessFd) (s : Files O) → tables (close_object ops f s).kernel ≡ tables s.kernel
  unfolding close_object
  tables-close_object f s =
      let same = λ (s' : Files O). tables s'.kernel ≡ tables s.kernel in
      if_both same (f.type == fd_socket) _ _ refl
        (if_both same (f.type == fd_epoll) _ _ refl (tables-close_pipe f s))

  pub tables-inc_object :
      (f : ProcessFd) (s : Files O) → tables (inc_object ops f s).kernel ≡ tables s.kernel
  unfolding inc_object
  tables-inc_object f s =
      if_both (λ (s' : Files O). tables s'.kernel ≡ tables s.kernel) (f.type == fd_socket) _ _ refl
        (tables-inc_pipe f s)

  pub close_object_ends :
      (e : Bool) (x : ℕ) (f : ProcessFd) (s : Files O)
      → x ≢ 0
      → ends e ((close_object ops f s).pipes x) ≡ ends e (s.pipes x) - hit e x f
  close_object_ends e x f s nz = elim (Bool-cases (f.type == fd_socket)) [
    | inl k ↦
        unfold close_object in
        ap (λ (s' : Files O). ends e (s'.pipes x)) (then_eq (f.type == fd_socket) _ _ k)
        ∙ none_lost _ _ (other_hit e x fd_socket f k (omega arith))
    | inr k ↦ elim (Bool-cases (f.type == fd_epoll)) [
      | inl l ↦
          unfold close_object in
          ap (λ (s' : Files O). ends e (s'.pipes x))
            (else_eq (f.type == fd_socket) _ _ k ∙ then_eq (f.type == fd_epoll) _ _ l)
          ∙ none_lost _ _ (other_hit e x fd_epoll f l (omega arith))
      | inr l ↦
          unfold close_object in
          ap (λ (s' : Files O). ends e (s'.pipes x))
            (else_eq (f.type == fd_socket) _ _ k ∙ else_eq (f.type == fd_epoll) _ _ l)
          ∙ close_ends e x f s nz
    ]
  ]

  inc_object_ends :
      (e : Bool) (x : ℕ) (f : ProcessFd) (s : Files O)
      → x ≢ 0
      → ends e (s.pipes x) + 1 < 2 ^ 32
      → ends e ((inc_object ops f s).pipes x) ≡ ends e (s.pipes x) + hit e x f
  inc_object_ends e x f s nz lt = elim (Bool-cases (f.type == fd_socket)) [
    | inl k ↦
        unfold inc_object in
        ap (λ (s' : Files O). ends e (s'.pipes x)) (then_eq (f.type == fd_socket) _ _ k)
        ∙ omega (arith, other_hit e x fd_socket f k (omega arith))
    | inr k ↦
        unfold inc_object in
        ap (λ (s' : Files O). ends e (s'.pipes x)) (else_eq (f.type == fd_socket) _ _ k)
        ∙ inc_ends e x f s nz lt
  ]

  -- The references of a whole table.
  pub tables-inc_all :
      (fs : List ProcessFd) (s : Files O) → tables (inc_all ops fs s).kernel ≡ tables s.kernel
  unfolding inc_all
  tables-inc_all [] s = refl
  tables-inc_all (f ∷ fs) s = tables-inc_all fs (inc_object ops f s) ∙ tables-inc_object f s

  pub inc_all_ends :
      (e : Bool) (x : ℕ) (fs : List ProcessFd) (s : Files O)
      → x ≢ 0
      → ends e (s.pipes x) + refs e x fs + 1 < 2 ^ 32
      → ends e ((inc_all ops fs s).pipes x) ≡ ends e (s.pipes x) + refs e x fs
  unfolding inc_all refs
  inc_all_ends e x [] s nz lt = omega arith
  inc_all_ends e x (f ∷ fs) s nz lt =
      let one = inc_object_ends e x f s nz (omega (arith, lt)) in
      let rest = inc_all_ends e x fs (inc_object ops f s) nz (omega (arith, lt, one)) in
      omega (arith, one, rest)
