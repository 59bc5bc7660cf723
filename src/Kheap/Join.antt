-- ===== src/Kheap/Join.antt =====
-- kernel/memory/kheap.c: the free block in front of one that was freed joins it.
use hobbyos.Base.{
  ℕ, ◌+◌, ◌≤◌, ◌<◌, ◌≡◌, ◌≢◌, ◌⊎◌, refl, sym, ◌∙◌, ap, subst, some, List, [], ◌∷◌, arith, ◌==◌,
  if◌then◌else◌, Bool-cases, inl, inr, eq→==, ne→==, ==→eq, ==→ne,
}
use hobbyos.Kheap.{Kheap, Ptr, join, coalesce_prev, block_magic_free, block_hdr_size}
use hobbyos.Kheap.Layout.{Chunk, used, free, Layout, lay_used, lay_free, used_at, used_above}
use hobbyos.Kheap.Insert.{
  after, freed, prev_of, Keeps, Keeps-refl, join_lem, join-Keeps, freed_on, freed_here, freed_free,
  prev_on, prev_here, used_on,
}

-- The blocks after a free one that ends at `t` is joined by the next, if it is free.
unfoldable pub joined : ℕ → ℕ → List Chunk → List Chunk
unfolding after
joined t a [] = []
joined t a (used s ∷ cs) = used s ∷ joined t (a + block_hdr_size + s) cs
joined t a (free s ∷ cs) =
    let rest = free s ∷ joined t (a + block_hdr_size + s) cs in
    if a + block_hdr_size + s == t then after s cs else rest

pub joined_past : (t a : ℕ) (cs : List Chunk) → t ≤ a → joined t a cs ≡ cs
unfolding joined
joined_past t a [] le = refl
joined_past t a (used s ∷ cs) le =
    ap (λ xs. used s ∷ xs) (joined_past t (a + block_hdr_size + s) cs (omega (arith, le)))
joined_past t a (free s ∷ cs) le =
    rw (ne→== (a + block_hdr_size + s) t (λ i. omega (arith, i, le)))
      (ap (λ xs. free s ∷ xs) (joined_past t (a + block_hdr_size + s) cs (omega (arith, le))))

module _ (t a s : ℕ) (cs : List Chunk) where
  pub joined_here : a + block_hdr_size + s ≡ t → joined t a (free s ∷ cs) ≡ after s cs
  unfolding joined
  joined_here at = rw (eq→== _ t at) refl

  pub joined_on :
      a + block_hdr_size + s ≢ t
      → joined t a (free s ∷ cs) ≡ free s ∷ joined t (a + block_hdr_size + s) cs
  unfolding joined
  joined_on ne = rw (ne→== _ t ne) refl

-- The block that was freed is free, and behind it are others.
pub freed_first :
    (t : ℕ) (cs : List Chunk) (n : ℕ)
    → used_at t t cs ≡ some n
    → (m : ℕ) × (rest : List Chunk) × (freed t t cs ≡ free m ∷ rest)
unfolding used_at freed after
freed_first t [] n u = cc
freed_first t (used s ∷ []) n u = (s, [], freed_here t t s [] refl)
freed_first t (used s ∷ used m ∷ cs) n u = (s, used m ∷ cs, freed_here t t s (used m ∷ cs) refl)
freed_first t (used s ∷ free m ∷ cs) n u =
    (s + block_hdr_size + m, cs, freed_here t t s (free m ∷ cs) refl)
freed_first t (free s ∷ cs) n u =
    absurd (omega (arith, used_above t (t + block_hdr_size + s) cs n u))

module _ (q t : ℕ) (h : Kheap) where
  prev_near :
      (h.cell q).magic ≡ block_magic_free
      → q + block_hdr_size + (h.cell q).size ≡ t
      → coalesce_prev (some q) t h ≡ join q t h
  unfolding coalesce_prev
  prev_near m at = rw (eq→== (h.cell q).magic _ m, eq→== _ t at) refl

  prev_far :
      (h.cell q).magic ≡ block_magic_free
      → q + block_hdr_size + (h.cell q).size ≢ t
      → coalesce_prev (some q) t h ≡ h
  unfolding coalesce_prev
  prev_far m at = rw (eq→== (h.cell q).magic _ m, ne→== _ t at) refl

-- Either no free block lies between `a` and `t`, or one does, and it joins where it should.
abbrev Joins : ℕ → ℕ → Ptr → Kheap → Ptr → ℕ → List Chunk → Type 0
Joins t a prev r p e cs =
    ((prev_of t a prev cs ≡ prev) × (joined t a (freed t a cs) ≡ freed t a cs))
    ⊎ ((a < t)
        × Layout (coalesce_prev (prev_of t a prev cs) t r).cell a p (joined t a (freed t a cs)) e
        × Keeps a r (coalesce_prev (prev_of t a prev cs) t r))

Keeps-less : (a b : ℕ) (h r : Kheap) → a ≤ b → Keeps b h r → Keeps a h r
Keeps-less a b h r le k = record {
  cells = λ x lt. k.cells x (omega (arith, lt, le));
  list = k.list;
  starts = k.starts;
  ends = k.ends;
}

module _ (t a : ℕ) (prev : Ptr) (r : Kheap) (p : Ptr) (e s : ℕ) (cs : List Chunk) where
  -- An allocated block in front.
  used_first :
      a ≢ t
      → Layout r.cell a p (used s ∷ freed t (a + block_hdr_size + s) cs) e
      → Joins t (a + block_hdr_size + s) prev r p e cs
      → Joins t a prev r p e (used s ∷ cs)
  unfolding joined
  used_first ne l (inl (pr, jo)) = inl (
    prev_on t a s cs prev ne ∙ pr,
    ap (joined t a) (freed_on t a s cs ne) ∙ ap (λ xs. used s ∷ xs) jo ∙ sym (freed_on t a s cs ne),
  )
  used_first ne l (inr (lt, lay, k)) =
      let r' = coalesce_prev (prev_of t (a + block_hdr_size + s) prev cs) t r in
      rw (prev_on t a s cs prev ne, freed_on t a s cs ne)
        (inr (
          omega (arith, lt),
          lay_used r'.cell a s
              (joined t (a + block_hdr_size + s) (freed t (a + block_hdr_size + s) cs)) e (r.cell a)
              (k.cells a (omega arith)) p l.0 l.1 lay,
          Keeps-less a (a + block_hdr_size + s) r r' (omega arith) k,
        ))

-- The blocks of `g` from `a` on are `xs`, and below it is `r`.
abbrev Left : ℕ → ℕ → Kheap → Ptr → ℕ → Kheap → List Chunk → Type 0
Left t a r p e g xs = (a < t) × Layout g.cell a p xs e × Keeps a r g

Left-eq :
    (t a : ℕ) (r : Kheap) (p : Ptr) (e : ℕ) (f g : Kheap) (xs ys : List Chunk)
    → f ≡ g
    → xs ≡ ys
    → Left t a r p e g ys
    → Left t a r p e f xs
Left-eq t a r p e f g xs ys i j w =
    subst (λ (k : Kheap). Left t a r p e k xs) (sym i)
      (subst (λ (zs : List Chunk). Left t a r p e g zs) (sym j) w)

module _ (t a : ℕ) (prev : Ptr) (r : Kheap) (p : Ptr) (e s n : ℕ) (cs : List Chunk) where
  -- The last free block before `t`.
  last_free :
      used_at t (a + block_hdr_size + s) cs ≡ some n
      → Layout r.cell a p (free s ∷ freed t (a + block_hdr_size + s) cs) e
      → joined t (a + block_hdr_size + s) (freed t (a + block_hdr_size + s) cs)
        ≡ freed t (a + block_hdr_size + s) cs
      → Left t a r p e
          (coalesce_prev (some a) t r)
          (joined t a (free s ∷ freed t (a + block_hdr_size + s) cs))
  unfolding after
  last_free u l jo =
      let b = a + block_hdr_size + s in
      let lt : a < t = omega (arith, used_above t b cs n u) in
      elim (Bool-cases (b == t)) [
        | inl hit ↦
            (let at = ==→eq b t hit in
              let (m, rest, first) =
                freed_first b cs n (subst (λ (x : ℕ). used_at x b cs ≡ some n) (sym at) u) in
              let first' : freed t b cs ≡ free m ∷ rest =
                subst (λ (x : ℕ). freed x b cs ≡ free m ∷ rest) at first in
              let l' = subst (λ (xs : List Chunk). Layout r.cell a p (free s ∷ xs) e) first' l in
              Left-eq t a r p e _ (join a b r) _ (free (s + block_hdr_size + m) ∷ rest)
                (prev_near a t r l.0 (rw l.1 at) ∙ ap (λ x. join a x r) (sym at))
                (joined_here t a s (freed t b cs) at ∙ ap (after s) first')
                (lt, join_lem r a s m p rest e l', join-Keeps a b r))
        | inr far ↦
            (let ne = ==→ne b t far in
              Left-eq t a r p e _ r _ (free s ∷ freed t b cs) (prev_far a t r l.0 (rw l.1 ne))
                (joined_on t a s (freed t b cs) ne ∙ ap (λ xs. free s ∷ xs) jo)
                (lt, l, Keeps-refl a r))
      ]

  -- A free block in front.
  free_first :
      used_at t (a + block_hdr_size + s) cs ≡ some n
      → Layout r.cell a p (free s ∷ freed t (a + block_hdr_size + s) cs) e
      → Joins t (a + block_hdr_size + s) (some a) r (r.cell a).next e cs
      → Joins t a prev r p e (free s ∷ cs)
  unfolding prev_of freed
  free_first u l (inl (pr, jo)) = rw pr (inr (last_free u l jo))
  free_first u l (inr (lt, lay, k)) =
      let b = a + block_hdr_size + s in
      let r' = coalesce_prev (prev_of t b (some a) cs) t r in
      inr (
        Left-eq t a r p e r' r' _ (free s ∷ joined t b (freed t b cs)) refl
          (joined_on t a s (freed t b cs) (λ i. omega (arith, i, lt)))
          (
            omega (arith, lt),
            rw l.2 (
                lay_free r'.cell a s (joined t b (freed t b cs)) e (r.cell a)
                  (k.cells a (omega arith)) l.0 l.1 lay),
            Keeps-less a b r r' (omega arith) k,
          ))

pub joined_lem :
    (t a : ℕ) (prev : Ptr) (r : Kheap) (p : Ptr) (e n : ℕ) (cs : List Chunk)
    → used_at t a cs ≡ some n
    → Layout r.cell a p (freed t a cs) e
    → Joins t a prev r p e cs
unfolding used_at
joined_lem t a prev r p e n [] u l = cc
joined_lem t a prev r p e n (used s ∷ cs) u l = elim (Bool-cases (a == t)) [
  | inl hit ↦
      (let at = ==→eq a t hit in
        inl (
          prev_here t a s cs prev at,
          joined_past t a (freed t a (used s ∷ cs)) (omega (arith, at)),
        ))
  | inr other ↦
      (let ne = ==→ne a t other in
        let u' = sym (used_on t a s cs ne) ∙ u in
        let l' = subst (λ (xs : List Chunk). Layout r.cell a p xs e) (freed_on t a s cs ne) l in
        used_first t a prev r p e s cs ne l'
          (joined_lem t (a + block_hdr_size + s) prev r p e n cs u' l'.2))
]
joined_lem t a prev r p e n (free s ∷ cs) u l =
    let l' : Layout r.cell a p (free s ∷ freed t (a + block_hdr_size + s) cs) e =
      subst (λ (xs : List Chunk). Layout r.cell a p xs e) (freed_free t a s cs) l in
    free_first t a prev r p e s n cs u l'
      (joined_lem t (a + block_hdr_size + s) (some a) r (r.cell a).next e n cs u l'.3)
