-- ===== src/Kheap/Steps.antt =====
-- kernel/memory/kheap.c: sequences of calls from `kheap_init` on.
use hobbyos.Base.{
  ℕ, ◌+◌, ◌-◌, ◌*◌, ◌/◌, ◌^◌, ◌≤◌, ◌<◌, ◌≡◌, refl, ◌∙◌, ap, subst, Bool, Option, none, some, List,
  [], ◌∷◌, arith, ◌==◌, true, false, if◌then◌else◌, inl, inr, is_some, Option-cases,
}
use hobbyos.Process.{page_size}
use hobbyos.Kheap.{
  Kheap, Block, Ptr, kmalloc, kmalloc_page_aligned, kfree, kheap_init, block_hdr_size, kheap_start,
  kheap_size,
}
use hobbyos.Kheap.Layout.{Chunk, free, used_at}
use hobbyos.Kheap.Insert.{freed}
use hobbyos.Kheap.Join.{joined}
use hobbyos.Kheap.Blocks.{Fits}
use hobbyos.Kheap.Merged.{IsMerged, release-IsMerged, all_free}
use hobbyos.Kheap.Calls.{
  IsHeap, Allocated, kmalloc-Allocates, kmalloc_page_aligned-Allocates, kfree-Frees,
}

-- The addresses that were returned and not freed since.
abbrev pub Live : Type 0
Live = ℕ → Bool

abbrev pub mark : Ptr → Bool → Live → Live
mark none v live x = live x
mark (some ptr) v live x = if x == ptr then v else live x

-- Calls in any order, of which those of `kfree` are on addresses in use.
pub data HeapSteps (s : Kheap) : Kheap → Live → Type 0 where
  start : HeapSteps s s (λ x. false)
  kmallocs :
      (size : ℕ) (ptr : Ptr) (h r : Kheap) (live : Live)
      → HeapSteps s h live
      → 0 < size
      → size + 15 ≤ 2 ^ 63
      → kmalloc size h ≡ some (ptr, r)
      → HeapSteps s r (mark ptr true live)
  aligned :
      (size : ℕ) (ptr : Ptr) (h r : Kheap) (live : Live)
      → HeapSteps s h live
      → 0 < size
      → size + (page_size - 1) ≤ 2 ^ 63
      → kmalloc_page_aligned size h ≡ some (ptr, r)
      → HeapSteps s r (mark ptr true live)
  kfrees :
      (ptr : ℕ) (h r : Kheap) (live : Live)
      → HeapSteps s h live
      → live ptr ≡ true
      → kfree (some ptr) h ≡ some r
      → HeapSteps s r (mark (some ptr) false live)

-- A heap of `pages` pages whose allocated blocks are those in use, with the free blocks merged.
pub record Holds (pages : ℕ) (h : Kheap) (live : Live) (cs : List Chunk) : Type 0 where
  pub heap : IsHeap h cs
  pub merged : IsMerged cs
  pub at_start : h.heap_start ≡ kheap_start
  pub at_end : h.heap_end ≡ kheap_start + pages * page_size
  pub lives : (b : ℕ) → is_some (used_at b kheap_start cs) ≡ live (b + block_hdr_size)
  pub low : (x : ℕ) → live x ≡ true → block_hdr_size ≤ x

start-Holds :
    (pages : ℕ) (memory : ℕ → Block)
    → 0 < pages
    → pages ≤ kheap_size / page_size
    → Holds pages
        (kheap_init pages memory)
        (λ x. false)
        (free (pages * page_size - block_hdr_size) ∷ [])
unfolding kheap_init used_at
start-Holds pages memory pos most = record {
  heap = record {
    laid = (ground arith, ground arith, refl, (omega arith, ground arith));
    top = omega arith;
  };
  merged = (refl, tt);
  at_start = refl;
  at_end = refl;
  lives = λ b. refl;
  low = λ x e. cc;
}

Fits-lives :
    (n a : ℕ) (live : Live) (cs cs' : List Chunk) (ptr : Ptr)
    → ((b : ℕ) → is_some (used_at b a cs) ≡ live (b + block_hdr_size))
    → Fits n a cs cs' ptr
    → (b : ℕ) → is_some (used_at b a cs') ≡ mark ptr true live (b + block_hdr_size)
Fits-lives n a live cs cs' none lives f b = rw f (lives b)
Fits-lives n a live cs cs' (some ptr) lives (k, m, at, enough, above, f) b =
    rw (f.takes b) (ground (arith, at, lives b))

Fits-low :
    (n a : ℕ) (live : Live) (cs cs' : List Chunk) (ptr : Ptr)
    → ((x : ℕ) → live x ≡ true → block_hdr_size ≤ x)
    → Fits n a cs cs' ptr
    → (x : ℕ) → mark ptr true live x ≡ true
    → block_hdr_size ≤ x
Fits-low n a live cs cs' none low f x e = low x e
Fits-low n a live cs cs' (some ptr) low (k, m, at, enough, above, f) x e = ground (arith, at, low x)

alloc-Holds :
    (pages n full : ℕ) (h r : Kheap) (live : Live) (cs cs' : List Chunk) (ptr : Ptr)
    → Holds pages h live cs
    → Allocated n full h cs ptr r cs'
    → Holds pages r (mark ptr true live) cs'
alloc-Holds pages n full h r live cs cs' ptr w a =
    let fits : Fits n kheap_start cs cs' ptr =
      subst (λ (x : ℕ). Fits n x cs cs' ptr) w.at_start a.fits in
    record {
      heap = a.heap;
      merged = a.merged w.merged;
      at_start = a.starts ∙ w.at_start;
      at_end = a.ends ∙ w.at_end;
      lives = Fits-lives n kheap_start live cs cs' ptr w.lives fits;
      low = Fits-low n kheap_start live cs cs' ptr w.low fits;
    }

-- The call that was made is the one of the theorem.
same_call :
    (pages n full : ℕ) (h r : Kheap) (live : Live) (cs : List Chunk) (ptr : Ptr)
    (o : Option (Ptr × Kheap))
    → o ≡ some (ptr, r)
    → Holds pages h live cs
    → (q : Ptr) × (k : Kheap) × (cs' : List Chunk) × (o ≡ some (q, k))
      × Allocated n full h cs q k cs'
    → (cs' : List Chunk) × Holds pages r (mark ptr true live) cs'
same_call pages n full h r live cs ptr o e w (q, k, cs', e', a) =
    let p_same : q ≡ ptr = ground (arith, e, e') in
    let r_same : k ≡ r = ground (arith, e, e') in
    (
      cs',
      alloc-Holds pages n full h r live cs cs' ptr w (
          subst (λ (x : Ptr). Allocated n full h cs x r cs') p_same
            (subst (λ (x : Kheap). Allocated n full h cs q x cs') r_same a)),
    )

free-Holds :
    (pages : ℕ) (h r : Kheap) (live : Live) (cs : List Chunk) (ptr : ℕ)
    → Holds pages h live cs
    → live ptr ≡ true
    → kfree (some ptr) h ≡ some r
    → (cs' : List Chunk) × Holds pages r (mark (some ptr) false live) cs'
free-Holds pages h r live cs ptr w e ran =
    let b = ptr - block_hdr_size in
    let back : b + block_hdr_size ≡ ptr = omega (arith, w.low ptr e) in
    let there : is_some (used_at b kheap_start cs) ≡ true = w.lives b ∙ ap live back ∙ e in
    elim (Option-cases (used_at b kheap_start cs)) [
      | inl gone ↦ absurd (ground (arith, there, gone))
      | inr (n, u) ↦
          (let (k, did, heap, starts, ends, others) =
              kfree-Frees h cs b n w.heap (rw w.at_start u) in
            let at_ptr : kfree (some ptr) h ≡ some k =
              subst (λ (x : ℕ). kfree (some x) h ≡ some k) back did in
            let same : k ≡ r = ground (arith, at_ptr, ran) in
            let xs = joined b h.heap_start (freed b h.heap_start cs) in
            let others' : (t : ℕ)
                → used_at t kheap_start xs ≡ (if t == b then none else used_at t kheap_start cs) =
              subst
                (λ (a : ℕ). (t : ℕ) → used_at t a xs ≡ (if t == b then none else used_at t a cs))
                w.at_start others in
            (
              xs,
              subst (λ (x : Kheap). Holds pages x (mark (some ptr) false live) xs) same
                  (record {
                    heap = heap;
                    merged = release-IsMerged b h.heap_start cs n (rw w.at_start u) w.merged;
                    at_start = starts ∙ w.at_start;
                    at_end = ends ∙ w.at_end;
                    lives = λ t. rw (others' t) (ground (arith, back, w.lives t));
                    low = λ x i. ground (arith, w.low x, i);
                  }),
            ))
    ]

module _ (pages : ℕ) (memory : ℕ → Block) (pos : 0 < pages)
    (most : pages ≤ kheap_size / page_size) where
  -- After any calls of kmalloc for 1 to 2^63 - 15 bytes and of kmalloc_page_aligned for 1 to
  -- 2^63 - 4095 bytes, and of kfree on addresses in use, the heap is a sequence of blocks
  -- without a gap, of which the allocated ones are those in use, and no two free blocks follow
  -- each other.
  pub steps-Holds :
      (h : Kheap) (live : Live)
      → HeapSteps (kheap_init pages memory) h live
      → (cs : List Chunk) × Holds pages h live cs
  steps-Holds h live HeapSteps.start = (_, start-Holds pages memory pos most)
  steps-Holds h _ (HeapSteps.kmallocs size ptr g _ live s p small ran) =
      let (cs, w) = steps-Holds g live s in
      same_call pages size _ g h live cs ptr (kmalloc size g) ran w
        (kmalloc-Allocates size g cs p small w.heap)
  steps-Holds h _ (HeapSteps.aligned size ptr g _ live s p small ran) =
      let (cs, w) = steps-Holds g live s in
      let (q, k, cs', e, a, _) = kmalloc_page_aligned-Allocates size g cs p small w.heap in
      same_call pages size _ g h live cs ptr (kmalloc_page_aligned size g) ran w (q, k, cs', e, a)
  steps-Holds h _ (HeapSteps.kfrees ptr g _ live s e ran) =
      let (cs, w) = steps-Holds g live s in free-Holds pages g h live cs ptr w e ran

  -- When every block that was allocated from a new heap, by calls for 1 to 2^63 - 15 bytes or,
  -- at page boundaries, to 2^63 - 4095 bytes, has been freed, in whatever order, the heap is one
  -- free block again.
  pub all_freed :
      (h : Kheap) (live : Live)
      → HeapSteps (kheap_init pages memory) h live
      → ((x : ℕ) → live x ≡ false)
      → IsHeap h (free (pages * page_size - block_hdr_size) ∷ [])
  all_freed h live s empty =
      let (cs, w) = steps-Holds h live s in
      let nothing : (b : ℕ) → used_at b kheap_start cs ≡ none =
        λ b. ground (arith, w.lives b, empty (b + block_hdr_size)) in
      elim (all_free kheap_start cs nothing w.merged) [
        | inl e ↦
            (let w' = subst (λ (xs : List Chunk). IsHeap h xs) e w.heap in
              absurd (omega (arith, w'.laid.0, w.at_start, w.at_end, pos)))
        | inr (n, e) ↦
            (let w' = subst (λ (xs : List Chunk). IsHeap h xs) e w.heap in
              let size : n ≡ pages * page_size - block_hdr_size =
                omega (arith, w'.laid.3.0, w.at_start, w.at_end) in
              subst (λ (x : ℕ). IsHeap h (free x ∷ [])) size w')
      ]
