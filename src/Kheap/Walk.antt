-- ===== src/Kheap/Walk.antt =====
-- The search of the free list in kernel/memory/kheap.c, against the sequence of the blocks.
use hobbyos.Base.{
  ℕ, zero, suc, ◌+◌, ◌≤◌, ◌<◌, ◌^◌, ◌≡◌, refl, sym, ◌∙◌, ap, Option, none, some, List, [], ◌∷◌,
  ◌++◌, length, arith, Option-cases, inl, inr, eq→==,
}
use hobbyos.Kheap.{Kheap, Block, Ptr, Visit, walk, block_magic_free, block_hdr_size}
use hobbyos.Process.{page_size}
use hobbyos.Kheap.Layout.{
  Chunk, used, free, Layout, Below, linked_at, Agrees, link_above, link_same_at, link_same_list_at,
  put_self, put_ne, Below-up,
}

-- What a search makes of the free block of size `s` at `a`: an address and the blocks that take its
-- place, or none.
abbrev pub Spec : Type 0
Spec = ℕ → ℕ → Option (ℕ × List Chunk)

-- The result of a search, and the blocks afterwards.
unfoldable pub first_fit : Spec → ℕ → List Chunk → Ptr × List Chunk
first_fit spec a [] = (none, [])
first_fit spec a (used s ∷ cs) =
    let rest = first_fit spec (a + block_hdr_size + s) cs in (rest.0, used s ∷ rest.1)
first_fit spec a (free s ∷ cs) =
    let rest = first_fit spec (a + block_hdr_size + s) cs in
    elim (spec a s) [ none ↦ (rest.0, free s ∷ rest.1) | some (ptr, new) ↦ (some ptr, new ++ cs) ]

module _ (spec : Spec) (a s : ℕ) (cs : List Chunk) where
  pub fit_used : first_fit spec a (used s ∷ cs) ≡ (
    (first_fit spec (a + block_hdr_size + s) cs).0,
    used s ∷ (first_fit spec (a + block_hdr_size + s) cs).1,
  )
  unfolding first_fit
  fit_used = refl

  pub fit_miss :
      spec a s ≡ none
      → first_fit spec a (free s ∷ cs) ≡ (
        (first_fit spec (a + block_hdr_size + s) cs).0,
        free s ∷ (first_fit spec (a + block_hdr_size + s) cs).1,
      )
  unfolding first_fit
  fit_miss e = rw (e, first_fit) refl

  pub fit_hit :
      (ptr : ℕ) (new : List Chunk)
      → spec a s ≡ some (ptr, new)
      → first_fit spec a (free s ∷ cs) ≡ (some ptr, new ++ cs)
  unfolding first_fit
  fit_hit ptr new e = rw (e, first_fit) refl

-- A result `o` is the address `ptr` with a heap in which the blocks from `a` to `e` are `cs`, and which
-- is `h` but for the link to the first free one of them.
abbrev pub Leaves {ℓ} :
    {A : Type ℓ} → ℕ → Ptr → Kheap → ℕ → List Chunk → A → Option (A × Kheap) → Type ℓ
Leaves a prev h e cs ptr o =
    (r : Kheap) × (p : Ptr) × (o ≡ some (ptr, r)) × Layout r.cell a p cs e × Agrees a prev p h r

-- `visit` does at a free block what `spec` says of it.
pub record Implements (visit : Visit) (spec : Spec) : Type 0 where
  pub misses :
      (prev : Ptr) (a : ℕ) (h : Kheap) (s : ℕ) (p : Ptr) (cs : List Chunk) (e : ℕ)
      → Layout h.cell a p (free s ∷ cs) e
      → e + page_size ≤ 2 ^ 64
      → spec a s ≡ none
      → visit prev a h ≡ none
  pub hits :
      (prev : Ptr) (a : ℕ) (h : Kheap) (s : ℕ) (p : Ptr) (cs : List Chunk) (e : ℕ) (ptr : ℕ)
      (new : List Chunk)
      → Layout h.cell a p (free s ∷ cs) e
      → e + page_size ≤ 2 ^ 64
      → Below prev a
      → linked_at prev h ≡ p
      → spec a s ≡ some (ptr, new)
      → Leaves a prev h e (new ++ cs) ptr (visit prev a h)

-- What is left as it is by a search that goes on behind the block at `a`.
module _ (a s : ℕ) (h r : Kheap) where
  pub Agrees-used :
      (prev p : Ptr) → Agrees (a + block_hdr_size + s) prev p h r → Agrees a prev p h r
  Agrees-used prev p g = record {
    cells = λ x l. g.cells x (omega (arith, l));
    list = g.list;
    starts = g.starts;
    ends = g.ends;
  }

  pub Agrees-free :
      (prev p : Ptr)
      → linked_at prev h ≡ some a
      → Agrees (a + block_hdr_size + s) (some a) p h r
      → Agrees a prev (some a) h r
  Agrees-free prev p e g = record {
    cells = λ x l.
        g.cells x (omega (arith, l))
        ∙ put_ne a _ h x (λ i. omega (arith, i, l))
        ∙ sym (link_same_at prev (some a) h x e);
    list = g.list ∙ sym (link_same_list_at prev (some a) h e);
    starts = g.starts;
    ends = g.ends;
  }

-- The search's end at a list that has no block from `a` on.
Agrees-self : (a : ℕ) (prev p : Ptr) (h : Kheap) → linked_at prev h ≡ p → Agrees a prev p h h
Agrees-self a prev p h e = record {
  cells = λ x l. sym (link_same_at prev p h x e);
  list = sym (link_same_list_at prev p h e);
  starts = refl;
  ends = refl;
}

module _ (visit : Visit) (spec : Spec) (impl : Implements visit spec) where
  -- One round at a free block that the search passes by.
  walk_past :
      (left : ℕ) (prev : Ptr) (a : ℕ) (h : Kheap)
      → (h.cell a).magic ≡ block_magic_free
      → visit prev a h ≡ none
      → walk visit (suc left) prev (some a) h ≡ walk visit left (some a) (h.cell a).next h
  unfolding walk
  walk_past left prev a h m v = rw (eq→== (h.cell a).magic _ m, v) refl

  walk_stop :
      (left : ℕ) (prev : Ptr) (a : ℕ) (h r : Kheap) (ptr : ℕ)
      → (h.cell a).magic ≡ block_magic_free
      → visit prev a h ≡ some (ptr, r)
      → walk visit (suc left) prev (some a) h ≡ some (some ptr, r)
  unfolding walk
  walk_stop left prev a h r ptr m v = rw (eq→== (h.cell a).magic _ m, v) refl

  -- The search finds the first block that fits, and puts the new blocks in its place.
  pub walk_lem :
      (left : ℕ) (prev p : Ptr) (h : Kheap) (a : ℕ) (cs : List Chunk) (e : ℕ)
      → length cs < left
      → e + page_size ≤ 2 ^ 64
      → Below prev a
      → linked_at prev h ≡ p
      → Layout h.cell a p cs e
      → Leaves a prev h e (first_fit spec a cs).1 (first_fit spec a cs).0 (walk visit left prev p h)
  unfolding first_fit
  walk_lem zero prev p h a cs e n t b k l = absurd (omega arith)
  walk_lem (suc left) prev p h a [] e n t b k l = (
    h,
    none,
    rw l.1 (unfold walk first_fit in refl),
    (l.0, refl),
    Agrees-self a prev none h (k ∙ l.1),
  )
  walk_lem (suc left) prev p h a (used s ∷ cs) e n t b k l =
      let (r, p', ran, lay, g) =
        walk_lem (suc left) prev p h (a + block_hdr_size + s) cs e (omega arith) t
          (Below-up prev a _ b (omega arith)) k l.2 in
      let same : r.cell a ≡ h.cell a =
        g.cells a (omega arith) ∙ link_above prev p' h a a b (omega arith) in
      (
        r,
        p',
        ran,
        (ap (λ (c : Block). c.magic) same ∙ l.0, ap (λ (c : Block). c.size) same ∙ l.1, lay),
        Agrees-used a s h r prev p' g,
      )
  walk_lem (suc left) prev p h a (free s ∷ cs) e n t b k l = elim (Option-cases (spec a s)) [
    | inl miss ↦
        (let (r, p', ran, lay, g) =
            walk_lem left (some a) (h.cell a).next h (a + block_hdr_size + s) cs e (omega arith) t
              (omega arith) refl l.3 in
          let same : r.cell a ≡ record (h.cell a) { next = p' } =
            g.cells a (omega arith) ∙ put_self a _ h in
          let go = walk_past left prev a h l.0 (impl.misses prev a h s p cs e l t miss) in
          rw (fit_miss spec a s cs miss) (
            r,
            some a,
            rw l.2 (go ∙ ran),
            (
              ap (λ (c : Block). c.magic) same ∙ l.0,
              ap (λ (c : Block). c.size) same ∙ l.1,
              refl,
              rw (ap (λ (c : Block). c.next) same) lay,
            ),
            Agrees-free a s h r prev p' (k ∙ l.2) g,
          ))
    | inr ((ptr, new), hit) ↦
        (let (r, p', did, lay, g) = impl.hits prev a h s p cs e ptr new l t b k hit in
          rw (fit_hit spec a s cs ptr new hit)
            (r, p', rw l.2 (walk_stop left prev a h r ptr l.0 did), lay, g))
  ]
