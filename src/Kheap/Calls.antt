-- ===== src/Kheap/Calls.antt =====
-- kernel/memory/kheap.c: `kmalloc`, `kmalloc_page_aligned` and `kfree` on a whole heap.
use hobbyos.Base.{
  ℕ, ◌+◌, ◌-◌, ◌*◌, ◌/◌, ◌%◌, ◌^◌, ◌≤◌, ◌<◌, ◌≡◌, refl, sym, ◌∙◌, ap, subst, Option, none, some,
  List, [], ◌∷◌, All, length, arith, ◌==◌, false, if◌then◌else◌, Bool-cases, Option-cases, inl, inr,
  eq→==, ==→eq, ==→ne,
}
use hobbyos.Process.{page_size}
use hobbyos.Kheap.{
  Kheap, Block, Ptr, Visit, walk, free_rounds, kmalloc, kmalloc_visit, kmalloc_page_aligned,
  aligned_visit, round_16, round_page, kfree, mark_free, neighbours, place_free, coalesce_prev,
  block_hdr_size, block_magic_alloc,
}
use hobbyos.Kheap.Layout.{Chunk, used, free, Layout, Agrees, span, used_at}
use hobbyos.Kheap.Walk.{Spec, first_fit, fit_used, fit_miss, fit_hit, Implements, walk_lem}
use hobbyos.Kheap.Fit.{
  kmalloc_spec, aligned_spec, kmalloc-Implements, aligned-Implements, spec_aligned, waste_near,
}
use hobbyos.Kheap.Insert.{freed, prev_of, insert_block, freed_lem, used_on, Keeps, Keeps-refl}
use hobbyos.Kheap.Join.{joined, joined_lem}
use hobbyos.Kheap.Merged.{IsMerged, Merges, kmalloc-Merges, aligned-Merges, first_fit-IsMerged}
use hobbyos.Kheap.Blocks.{
  Allots, Fits, free_sizes, first_fit-Fits, kmalloc-Allots, aligned-Allots, freed_blocks,
  joined_blocks,
}

-- The heap is the sequence of blocks `cs`, and does not reach the last page of the address space.
pub record IsHeap (h : Kheap) (cs : List Chunk) : Type 0 where
  pub laid : Layout h.cell h.heap_start h.free_list cs h.heap_end
  pub top : h.heap_end + page_size ≤ 2 ^ 64

-- The rounds that a search is given are enough.
pub length-lt-free_rounds : (h : Kheap) (cs : List Chunk) → IsHeap h cs → length cs < free_rounds h
length-lt-free_rounds h cs w =
    omega (arith, span h.cell h.heap_start h.free_list cs h.heap_end w.laid)

-- A result is a heap again, after the call of an allocator on `h`: with `n` bytes more allocated, or
-- as it was, and then each free block has fewer than `full` bytes.
pub record Allocated (n full : ℕ) (h : Kheap) (cs : List Chunk) (ptr : Ptr) (r : Kheap)
    (cs' : List Chunk) : Type 0 where
  pub heap : IsHeap r cs'
  pub starts : r.heap_start ≡ h.heap_start
  pub ends : r.heap_end ≡ h.heap_end
  pub merged : IsMerged cs → IsMerged cs'
  pub fits : Fits n h.heap_start cs cs' ptr
  pub fails : ptr ≡ none → All (λ s. s < full) (free_sizes cs)

abbrev pub Allocates : ℕ → ℕ → Kheap → List Chunk → Option (Ptr × Kheap) → Type 0
Allocates n full h cs o =
    (ptr : Ptr) × (r : Kheap) × (cs' : List Chunk) × (o ≡ some (ptr, r))
    × Allocated n full h cs ptr r cs'

Fits-less :
    (n m a : ℕ) (cs cs' : List Chunk) (p : Ptr) → n ≤ m → Fits m a cs cs' p → Fits n a cs cs' p
Fits-less n m a cs cs' none le f = f
Fits-less n m a cs cs' (some ptr) le (b, k, at, enough, above, t) =
    (b, k, at, omega (arith, enough, le), above, t)

-- A search that finds nothing has seen all free blocks.
no_fit :
    (spec : Spec) (full a : ℕ) (cs : List Chunk)
    → ((x s : ℕ) → spec x s ≡ none → s < full)
    → (first_fit spec a cs).0 ≡ none
    → All (λ s. s < full) (free_sizes cs)
no_fit spec full a [] small e = tt
no_fit spec full a (used s ∷ cs) small e =
    no_fit spec full (a + block_hdr_size + s) cs small
      (sym (ap (λ (r : Ptr × List Chunk). r.0) (fit_used spec a s cs)) ∙ e)
no_fit spec full a (free s ∷ cs) small e = elim (Option-cases (spec a s)) [
  | inl miss ↦ (
    small a s miss,
    no_fit spec full (a + block_hdr_size + s) cs small
        (sym (ap (λ (r : Ptr × List Chunk). r.0) (fit_miss spec a s cs miss)) ∙ e),
  )
  | inr ((ptr, new), hit) ↦
      (let found = sym (ap (λ (r : Ptr × List Chunk). r.0) (fit_hit spec a s cs ptr new hit)) ∙ e in
        absurd (cc))
]

module _ (visit : Visit) (spec : Spec) (impl : Implements visit spec) (n full : ℕ)
    (ok : Allots spec n) (merges : Merges spec)
    (small : (x s : ℕ) → spec x s ≡ none → s < full) where
  search_lem :
      (m : ℕ) (h : Kheap) (cs : List Chunk)
      → m ≤ n
      → IsHeap h cs
      → (r : Kheap) × (walk visit (free_rounds h) none h.free_list h
          ≡ some ((first_fit spec h.heap_start cs).0, r))
        × Allocated m full h cs
            (first_fit spec h.heap_start cs).0
            r
            (first_fit spec h.heap_start cs).1
  search_lem m h cs le w =
      let (r, p, ran, lay, g) =
        walk_lem visit spec impl (free_rounds h) none h.free_list h h.heap_start cs h.heap_end
          (length-lt-free_rounds h cs w) w.top tt refl w.laid in
      let fit = first_fit spec h.heap_start cs in
      (
        r,
        ran,
        record {
          heap = record { laid = rw (g.starts, g.ends, g.list) lay; top = rw g.ends w.top };
          starts = g.starts;
          ends = g.ends;
          merged = first_fit-IsMerged spec merges h.heap_start cs;
          fits =
              Fits-less m n h.heap_start cs fit.1 fit.0 le
                (first_fit-Fits spec n ok h.heap_start cs);
          fails = no_fit spec full h.heap_start cs small;
        },
      )

kmalloc_small : (n x s : ℕ) → kmalloc_spec n x s ≡ none → s < n
unfolding kmalloc_spec
kmalloc_small n x s e = ground arith

aligned_small : (n x s : ℕ) → aligned_spec n x s ≡ none → s < n + 2 * page_size
unfolding aligned_spec
aligned_small n x s e = ground (arith, waste_near (x + block_hdr_size))

first_fit_aligned :
    (n : ℕ) (f : ℕ → Block) (a : ℕ) (p : Ptr) (cs : List Chunk) (e ptr : ℕ)
    → Layout f a p cs e
    → e + page_size ≤ 2 ^ 64
    → (first_fit (aligned_spec n) a cs).0 ≡ some ptr
    → ptr % page_size ≡ 0
first_fit_aligned n f a p [] e ptr l top i = unfold first_fit in cc
first_fit_aligned n f a p (used s ∷ cs) e ptr l top i =
    first_fit_aligned n f (a + block_hdr_size + s) p cs e ptr l.2 top
      (sym (ap (λ (r : Ptr × List Chunk). r.0) (fit_used (aligned_spec n) a s cs)) ∙ i)
first_fit_aligned n f a p (free s ∷ cs) e ptr l top i = elim (Option-cases (aligned_spec n a s)) [
  | inl miss ↦
      first_fit_aligned n f (a + block_hdr_size + s) (f a).next cs e ptr l.3 top
        (sym (ap (λ (r : Ptr × List Chunk). r.0) (fit_miss (aligned_spec n) a s cs miss)) ∙ i)
  | inr ((q, new), hit) ↦
      (let found =
          sym (ap (λ (r : Ptr × List Chunk). r.0) (fit_hit (aligned_spec n) a s cs q new hit))
          ∙ i in
        let same : q ≡ ptr = ground (arith, found) in
        let room = span f (a + block_hdr_size + s) (f a).next cs e l.3 in
        rw (← same) (spec_aligned n a s q new (omega (arith, room, top)) hit))
]

-- kmalloc of 1 to 2^63 - 15 bytes on a heap takes a free block of that size at least, and no other
-- block changes; it returns NULL, with the blocks as they were, only when every free block is
-- smaller than the size, rounded up to a multiple of 16. The search ends.
pub kmalloc-Allocates :
    (size : ℕ) (h : Kheap) (cs : List Chunk)
    → 0 < size
    → size + 15 ≤ 2 ^ 63
    → IsHeap h cs
    → Allocates size ((size + 15) / 16 * 16) h cs (kmalloc size h)
unfolding kmalloc
kmalloc-Allocates size h cs pos small w =
    let n = round_16 size in
    let some_size : (size == 0) ≡ false = ground (arith, pos) in
    let plain : n ≡ (size + 15) / 16 * 16 = omega (arith, small) in
    let enough : size ≤ n = omega (arith, small) in
    let bounded : n ≤ 2 ^ 63 = omega (arith, small) in
    let (r, ran, ok) =
      search_lem (kmalloc_visit n) (kmalloc_spec n) (kmalloc-Implements n bounded) n n
        (kmalloc-Allots n) (kmalloc-Merges n) (kmalloc_small n) size h cs enough w in
    rw (some_size, ← plain) (_, r, _, ran, ok)

-- kmalloc_page_aligned of 1 to 2^63 - 4095 bytes on a heap takes a block of that size at least that
-- starts at a page boundary, and no other block changes; it returns NULL, with the blocks as they
-- were, only when every free block is smaller than the size, rounded up to pages, and two pages more.
-- The search ends.
pub kmalloc_page_aligned-Allocates :
    (size : ℕ) (h : Kheap) (cs : List Chunk)
    → 0 < size
    → size + (page_size - 1) ≤ 2 ^ 63
    → IsHeap h cs
    → (ptr : Ptr) × (r : Kheap) × (cs' : List Chunk) × (kmalloc_page_aligned size h ≡ some (ptr, r))
      × Allocated size
          ((size + (page_size - 1)) / page_size * page_size + 2 * page_size)
          h
          cs
          ptr
          r
          cs'
      × ((a : ℕ) → ptr ≡ some a → a % page_size ≡ 0)
unfolding kmalloc_page_aligned
kmalloc_page_aligned-Allocates size h cs pos small w =
    let n = round_page size in
    let some_size : (size == 0) ≡ false = ground (arith, pos) in
    let plain : n ≡ (size + (page_size - 1)) / page_size * page_size = omega (arith, small) in
    let enough : size ≤ n = omega (arith, small) in
    let bounded : n ≤ 2 ^ 63 = omega (arith, small) in
    let (r, ran, ok) =
      search_lem (aligned_visit n) (aligned_spec n) (aligned-Implements n bounded) n
        (n + 2 * page_size) (aligned-Allots n) (aligned-Merges n) (aligned_small n) size h cs enough
        w in
    rw (some_size, ← plain)
      (
        _,
        r,
        _,
        ran,
        ok,
        λ a e. first_fit_aligned n h.cell h.heap_start h.free_list cs h.heap_end a w.laid w.top e,
      )

used_magic :
    (f : ℕ → Block) (t a : ℕ) (p : Ptr) (cs : List Chunk) (e n : ℕ)
    → Layout f a p cs e
    → used_at t a cs ≡ some n
    → (f t).magic ≡ block_magic_alloc
unfolding used_at
used_magic f t a p [] e n l u = cc
used_magic f t a p (used s ∷ cs) e n l u = elim (Bool-cases (a == t)) [
  | inl hit ↦ subst (λ (x : ℕ). (f x).magic ≡ block_magic_alloc) (==→eq a t hit) l.0
  | inr other ↦
      used_magic f t (a + block_hdr_size + s) p cs e n l.2
        (sym (used_on t a s cs (==→ne a t other)) ∙ u)
]
used_magic f t a p (free s ∷ cs) e n l u =
    used_magic f t (a + block_hdr_size + s) (f a).next cs e n l.3 u

module _ (h : Kheap) (b : ℕ) (prev cur : Ptr) where
  kfree_runs :
      (h.cell b).magic ≡ block_magic_alloc
      → neighbours b (free_rounds h) none h.free_list (mark_free b h) ≡ some (prev, cur)
      → kfree (some (b + block_hdr_size)) h
        ≡ some (coalesce_prev prev b (insert_block b h (prev, cur)))
  unfolding kfree place_free
  kfree_runs m ran =
      let back : b + block_hdr_size - block_hdr_size ≡ b = omega arith in
      rw (back, eq→== (h.cell b).magic _ m, ran) refl

-- What is left of the two cases of the block in front.
merge_lem :
    (t : ℕ) (h r : Kheap) (p q : Ptr) (n : ℕ) (cs : List Chunk)
    → IsHeap h cs
    → used_at t h.heap_start cs ≡ some n
    → q ≡ prev_of t h.heap_start none cs
    → Layout r.cell h.heap_start p (freed t h.heap_start cs) h.heap_end
    → Agrees h.heap_start none p h r
    → IsHeap (coalesce_prev q t r) (joined t h.heap_start (freed t h.heap_start cs))
      × ((coalesce_prev q t r).heap_start ≡ h.heap_start)
      × ((coalesce_prev q t r).heap_end ≡ h.heap_end)
unfolding coalesce_prev
merge_lem t h r p q n cs w u pr lay g =
    let xs = joined t h.heap_start (freed t h.heap_start cs) in
    let as_heap : (k : Kheap)
        → Layout k.cell h.heap_start p xs h.heap_end
        → Keeps h.heap_start r k
        → IsHeap k xs × (k.heap_start ≡ h.heap_start) × (k.heap_end ≡ h.heap_end) =
      λ k l m. (
        record {
          laid = rw (m.starts ∙ g.starts, m.ends ∙ g.ends, m.list ∙ g.list) l;
          top = rw (m.ends ∙ g.ends) w.top;
        },
        m.starts ∙ g.starts,
        m.ends ∙ g.ends,
      ) in
    subst
      (λ (x : Ptr).
        IsHeap (coalesce_prev x t r) xs
        × ((coalesce_prev x t r).heap_start ≡ h.heap_start)
        × ((coalesce_prev x t r).heap_end ≡ h.heap_end))
      (sym pr)
      (elim (joined_lem t h.heap_start none r p h.heap_end n cs u lay) [
        | inl (before, jo) ↦
            subst
              (λ (x : Ptr).
                IsHeap (coalesce_prev x t r) xs
                × ((coalesce_prev x t r).heap_start ≡ h.heap_start)
                × ((coalesce_prev x t r).heap_end ≡ h.heap_end))
              (sym before)
              (as_heap r
                (subst (λ (zs : List Chunk). Layout r.cell h.heap_start p zs h.heap_end) (sym jo)
                  lay)
                (Keeps-refl h.heap_start r))
        | inr (lt, l, m) ↦ as_heap (coalesce_prev (prev_of t h.heap_start none cs) t r) l m
      ])

-- kfree of an allocated block of a heap takes that block out of the allocated ones, and no other.
-- The walk to its place in the free list ends.
pub kfree-Frees :
    (h : Kheap) (cs : List Chunk) (b n : ℕ)
    → IsHeap h cs
    → used_at b h.heap_start cs ≡ some n
    → (r : Kheap) × (kfree (some (b + block_hdr_size)) h ≡ some r)
      × IsHeap r (joined b h.heap_start (freed b h.heap_start cs))
      × (r.heap_start ≡ h.heap_start)
      × (r.heap_end ≡ h.heap_end)
      × ((t : ℕ)
          → used_at t h.heap_start (joined b h.heap_start (freed b h.heap_start cs))
            ≡ (if t == b then none else used_at t h.heap_start cs))
kfree-Frees h cs b n w u =
    let (between, p, ran, pr, lay, g) =
      freed_lem b (free_rounds h) none h.free_list h h.heap_start cs h.heap_end n
        (length-lt-free_rounds h cs w) tt refl w.laid u in
    let r = insert_block b h between in
    let (heap, starts, ends) = merge_lem b h r p between.0 n cs w u pr lay g in
    (
      coalesce_prev between.0 b r,
      kfree_runs h b between.0 between.1
          (used_magic h.cell b h.heap_start h.free_list cs h.heap_end n w.laid u) ran,
      heap,
      starts,
      ends,
      λ t.
          joined_blocks b t h.heap_start (freed b h.heap_start cs)
          ∙ freed_blocks b t h.heap_start cs n u,
    )
