-- ===== src/Kheap/Carve.antt =====
-- kernel/memory/kheap.c: a page-aligned block in the middle of a free one.
use hobbyos.Base.{
  ℕ, ◌+◌, ◌-◌, ◌≤◌, ◌<◌, ◌^◌, ◌*◌, ◌%◌, ◌≡◌, refl, sym, ◌∙◌, none, some, List, [], ◌∷◌, ◌++◌, arith,
  leb, if◌then◌else◌, Bool-cases, inl, inr,
}
use hobbyos.Process.{page_size}
use hobbyos.Kheap.{
  Kheap, Block, Ptr, put, set_next, carve, block_magic_free, block_magic_alloc, block_hdr_size,
  min_block_size,
}
use hobbyos.Kheap.Layout.{
  Chunk, used, free, Layout, linked_at, Agrees, link_same_at, link_same_list_at, frame, lay_used,
  lay_free,
}
use hobbyos.Kheap.Walk.{Leaves}

-- The blocks that take the place of a free block of size `s`.
abbrev pub carved : ℕ → ℕ → ℕ → List Chunk
carved size waste s =
    let remaining = s - waste - size in
    if leb (block_hdr_size + min_block_size) remaining
    then free (waste - block_hdr_size) ∷ used size ∷ free (remaining - block_hdr_size) ∷ []
    else free (waste - block_hdr_size) ∷ used (size + remaining) ∷ []

-- Changes from `a` on leave the rest as it was, if the link to `a` stands.
kept :
    (a : ℕ) (prev : Ptr) (h g : Kheap)
    → linked_at prev h ≡ some a
    → ((x : ℕ) → x < a → g.cell x ≡ h.cell x)
    → g.free_list ≡ h.free_list
    → g.heap_start ≡ h.heap_start
    → g.heap_end ≡ h.heap_end
    → Agrees a prev (some a) h g
kept a prev h g k same l s e = record {
  cells = λ x lt. same x lt ∙ sym (link_same_at prev (some a) h x k);
  list = l ∙ sym (link_same_list_at prev (some a) h k);
  starts = s;
  ends = e;
}

module _ (prev : Ptr) (a : ℕ) (h : Kheap) (s : ℕ) (p : Ptr) (cs : List Chunk) (e : ℕ)
    (l : Layout h.cell a p (free s ∷ cs) e) (top : e + page_size ≤ 2 ^ 64)
    (k : linked_at prev h ≡ p) (size waste : ℕ) (room : block_hdr_size + min_block_size ≤ waste)
    (fits : waste + size ≤ s) (inside : a + block_hdr_size + s ≤ e) where
  abbrev first : Block
  first = record (h.cell a) { size = waste - block_hdr_size }

  abbrev taken : ℕ → Block
  taken n = record { size = n; next = none; magic = block_magic_alloc }

  abbrev base : Kheap
  base = put a first (put (a + waste) (taken size) h)

  remains : ((h.cell a).size + 2 * 2 ^ 64 - waste - size) % 2 ^ 64 ≡ s - waste - size
  remains = rw l.1 (omega (arith, fits, top, inside))

  -- What lies behind the free block.
  beyond :
      (g : Kheap)
      → ((x : ℕ) → a + block_hdr_size + s ≤ x → g.cell x ≡ h.cell x)
      → (n : ℕ) → n ≡ a + block_hdr_size + s
      → Layout g.cell n (h.cell a).next cs e
  beyond g same n i =
      rw i (frame h.cell g.cell (a + block_hdr_size + s) (h.cell a).next cs e same l.3)

  with_tail :
      block_hdr_size + min_block_size ≤ s - waste - size
      → Leaves a prev h e
          (free (waste - block_hdr_size)
            ∷ used size
            ∷ free (s - waste - size - block_hdr_size)
            ∷ cs)
          (a + block_hdr_size + waste)
          (some (
            a + block_hdr_size + waste,
            set_next a (some (a + waste + block_hdr_size + size)) (
                put
                  (a + waste + block_hdr_size + size)
                  (record {
                    size = s - waste - size - block_hdr_size;
                    next = (h.cell a).next;
                    magic = block_magic_free;
                  })
                  base),
          ))
  with_tail more =
      let t = a + waste + block_hdr_size + size in
      let tail : Block = record {
        size = s - waste - size - block_hdr_size;
        next = (h.cell a).next;
        magic = block_magic_free;
      } in
      let g = set_next a (some t) (put t tail base) in
      let at_a : g.cell a ≡ record first { next = some t } = ground arith in
      let at_n : g.cell (a + waste) ≡ taken size = ground arith in
      let at_t : g.cell t ≡ tail = ground arith in
      let n_at : a + block_hdr_size + (waste - block_hdr_size) ≡ a + waste = omega arith in
      let t_end : t + block_hdr_size + (s - waste - size - block_hdr_size)
          ≡ a + block_hdr_size + s =
        omega arith in
      (
        g,
        some a,
        refl,
        lay_free g.cell a (waste - block_hdr_size)
            (used size ∷ free (s - waste - size - block_hdr_size) ∷ cs) e
            (record first { next = some t }) at_a l.0 refl
            (rw n_at (
              lay_used g.cell (a + waste) size (free (s - waste - size - block_hdr_size) ∷ cs) e
                (taken size) at_n (some t) refl refl
                (lay_free g.cell t (s - waste - size - block_hdr_size) cs e tail at_t refl refl
                  (beyond g (λ x le. ground arith) _ t_end)))),
        kept a prev h g (k ∙ l.2) (λ x lt. ground arith) refl refl refl,
      )

  without_tail :
      Leaves a prev h e
        (free (waste - block_hdr_size) ∷ used (size + (s - waste - size)) ∷ cs)
        (a + block_hdr_size + waste)
        (some
          (a + block_hdr_size + waste, put (a + waste) (taken (size + (s - waste - size))) base))
  without_tail =
      let n = size + (s - waste - size) in
      let g = put (a + waste) (taken n) base in
      let at_a : g.cell a ≡ first = ground arith in
      let at_n : g.cell (a + waste) ≡ taken n = ground arith in
      let n_at : a + block_hdr_size + (waste - block_hdr_size) ≡ a + waste = omega arith in
      let n_end : a + waste + block_hdr_size + n ≡ a + block_hdr_size + s = omega arith in
      (
        g,
        some a,
        refl,
        lay_free g.cell a (waste - block_hdr_size) (used n ∷ cs) e first at_a l.0 refl (
            rw n_at (
              lay_used g.cell (a + waste) n cs e (taken n) at_n (h.cell a).next refl refl
                (beyond g (λ x le. ground arith) _ n_end))),
        kept a prev h g (k ∙ l.2) (λ x lt. ground arith) refl refl refl,
      )

  pub carve_lem :
      Leaves a prev h e
        (carved size waste s ++ cs)
        (a + block_hdr_size + waste)
        (some (a + block_hdr_size + waste, carve size waste a h))
  unfolding carve
  carve_lem = elim (Bool-cases (leb (block_hdr_size + min_block_size) (s - waste - size))) [
    | inl more ↦ rw (remains, more) (with_tail (ground arith))
    | inr less ↦ rw (remains, less) without_tail
  ]
