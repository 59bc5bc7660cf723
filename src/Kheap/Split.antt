-- ===== src/Kheap/Split.antt =====
-- kernel/memory/kheap.c: a free block that becomes allocated, in part or whole.
use hobbyos.Base.{ℕ, ◌+◌, ◌-◌, ◌≤◌, ◌≡◌, refl, ◌∙◌, ap, none, some, List, ◌∷◌, arith}
use hobbyos.Kheap.{
  Kheap, Block, Ptr, put, set_next, link, split_block, take_block, block_magic_free,
  block_magic_alloc, block_hdr_size, min_block_size,
}
use hobbyos.Kheap.Layout.{
  Chunk, used, free, Layout, Below, link_above, link-Agrees, put_self, put_ne, frame, lay_used,
  lay_free,
}
use hobbyos.Kheap.Walk.{Leaves}

module _ (prev : Ptr) (a : ℕ) (h : Kheap) (s : ℕ) (p : Ptr) (cs : List Chunk) (e : ℕ)
    (l : Layout h.cell a p (free s ∷ cs) e) (b : Below prev a) where
  pub split_lem :
      (size : ℕ)
      → size + block_hdr_size + min_block_size ≤ s
      → Leaves a prev h e
          (used size ∷ free (s - size - block_hdr_size) ∷ cs)
          (a + block_hdr_size)
          (some (a + block_hdr_size, split_block size prev a h))
  unfolding split_block
  split_lem size fits =
      let n = a + block_hdr_size + size in
      let tail : Block = record {
        size = (h.cell a).size - size - block_hdr_size;
        next = (h.cell a).next;
        magic = block_magic_free;
      } in
      let taken : Block = record { size = size; next = none; magic = block_magic_alloc } in
      let h1 = put n tail h in
      let h2 = put a taken h1 in
      let above : (x : ℕ) → a ≤ x → (link prev (some n) h2).cell x ≡ h2.cell x =
        λ x. link_above prev (some n) h2 a x b in
      let at_a : (link prev (some n) h2).cell a ≡ taken =
        above a (omega arith) ∙ put_self a taken h1 in
      let at_n : (link prev (some n) h2).cell n ≡ tail =
        above n (omega arith) ∙ put_ne a taken h1 n (λ i. omega (arith, i)) ∙ put_self n tail h in
      let end : n + block_hdr_size + (s - size - block_hdr_size) ≡ a + block_hdr_size + s =
        omega arith in
      let rest : Layout (link prev (some n) h2).cell (a + block_hdr_size + s) (h.cell a).next cs e =
        frame h.cell (link prev (some n) h2).cell _ _ cs e
          (λ x le.
            above x (omega (arith, le))
            ∙ put_ne a taken h1 x (λ i. omega (arith, i, le))
            ∙ put_ne n tail h x (λ i. omega (arith, i, le)))
          l.3 in
      (
        link prev (some n) h2,
        some n,
        refl,
        lay_used (link prev (some n) h2).cell a size (free (s - size - block_hdr_size) ∷ cs) e taken
            at_a (some n) refl refl
            (lay_free (link prev (some n) h2).cell n (s - size - block_hdr_size) cs e tail at_n refl
              (ap (λ t. t - size - block_hdr_size) l.1) (rw end rest)),
        link-Agrees a prev (some n) h h2 b
            (λ x lt.
              put_ne a taken h1 x (λ i. omega (arith, i, lt))
              ∙ put_ne n tail h x (λ i. omega (arith, i, lt)))
            refl refl refl,
      )

  pub take_lem :
      Leaves a prev h e
        (used s ∷ cs)
        (a + block_hdr_size)
        (some (a + block_hdr_size, take_block prev a h))
  unfolding take_block
  take_lem =
      let q = (h.cell a).next in
      let marked : Block = record (h.cell a) { magic = block_magic_alloc } in
      let h1 = put a marked h in
      let h2 = link prev q h1 in
      let at_a : h2.cell a ≡ marked =
        link_above prev q h1 a a b (omega arith) ∙ put_self a marked h in
      let last : (set_next a none h2).cell a ≡ record marked { next = none } =
        put_self a _ h2 ∙ ap (λ (c : Block). record c { next = none }) at_a in
      let g =
        link-Agrees a prev q h h1 b (λ x lt. put_ne a marked h x (λ i. omega (arith, i, lt))) refl
          refl refl in
      (
        set_next a none h2,
        q,
        refl,
        lay_used (set_next a none h2).cell a s cs e (record marked { next = none }) last q refl l.1
            (frame h.cell (set_next a none h2).cell _ _ cs e
              (λ x le.
                put_ne a _ h2 x (λ i. omega (arith, i, le))
                ∙ link_above prev q h1 a x b (omega (arith, le))
                ∙ put_ne a marked h x (λ i. omega (arith, i, le)))
              l.3),
        record {
          cells = λ x lt. put_ne a _ h2 x (λ i. omega (arith, i, lt)) ∙ g.cells x lt;
          list = g.list;
          starts = g.starts;
          ends = g.ends;
        },
      )
