-- ===== src/Kheap/Fit.antt =====
-- kernel/memory/kheap.c: what `kmalloc` and `kmalloc_page_aligned` make of a free block.
use hobbyos.Base.{
  ℕ, ◌+◌, ◌-◌, ◌*◌, ◌%◌, ◌≤◌, ◌<◌, ◌^◌, ◌≡◌, ◌⊎◌, ◌≢◌, refl, sym, ◌∙◌, subst, Option, none, some,
  List, [], ◌∷◌, ◌++◌, arith, ◌==◌, ltb, leb, ◌&&◌, true, false, if◌then◌else◌, Bool-cases, inl,
  inr, ==→eq, ==→ne,
}
use hobbyos.Process.{page_size}
use hobbyos.Kheap.{
  Kheap, Ptr, kmalloc_visit, aligned_visit, splits, aligned_in, split_block, take_block, carve,
  block_hdr_size, min_block_size,
}
use hobbyos.Kheap.Layout.{Chunk, used, free, Layout, Below, linked_at, span}
use hobbyos.Kheap.Walk.{Spec, Leaves, Implements}
use hobbyos.Kheap.Split.{split_lem, take_lem}
use hobbyos.Kheap.Carve.{carved, carve_lem}

-- The blocks that a free block of size `s` becomes, of which the first is allocated.
abbrev pub filled : ℕ → ℕ → List Chunk
filled size s =
    if leb (size + block_hdr_size + min_block_size) s
    then used size ∷ free (s - size - block_hdr_size) ∷ []
    else used s ∷ []

-- The first block that is large enough.
unfoldable pub kmalloc_spec : ℕ → Spec
kmalloc_spec size a s = if ltb s size then none else some (a + block_hdr_size, filled size s)

-- The first block in which `size` bytes fit behind a page boundary that is the block's start or
-- leaves room for a free block in front.
unfoldable pub aligned_spec : ℕ → Spec
aligned_spec size a s =
    let data_start = a + block_hdr_size in
    let waste = aligned_in data_start - data_start in
    if ltb s (waste + size)
    then none
    else if waste == 0
    then some (data_start, filled size s)
    else some (data_start + waste, carved size waste s)

pub room_in : (d : ℕ) → aligned_in d - d ≢ 0 → block_hdr_size + min_block_size ≤ aligned_in d - d
unfolding aligned_in
room_in d ne = ground (arith, ne)

pub waste_near : (d : ℕ) → aligned_in d - d < 2 * page_size
unfolding aligned_in
waste_near d = ground arith

-- An aligned address is not before the block, less than two pages behind its start, and its distance
-- is 0 or leaves room for a free block.
pub aligned_waste :
    (d : ℕ)
    → d + page_size ≤ 2 ^ 64
    → (w : ℕ) × (aligned_in d ≡ d + w)
      × (w < 2 * page_size)
      × ((w ≡ 0) ⊎ (block_hdr_size + min_block_size ≤ w))
      × (aligned_in d % page_size ≡ 0)
unfolding aligned_in
aligned_waste d h = (
  aligned_in d - d,
  ground arith,
  ground arith,
  elim (Bool-cases (aligned_in d - d == 0)) [
    | inl z ↦ inl (==→eq _ _ z)
    | inr n ↦ inr (room_in d (==→ne _ _ n))
  ],
  ground arith,
)

module _ (size : ℕ) (small : size ≤ 2 ^ 63) (prev : Ptr) (a : ℕ) (h : Kheap) (s : ℕ) (p : Ptr)
    (cs : List Chunk) (e : ℕ) (l : Layout h.cell a p (free s ∷ cs) e)
    (top : e + page_size ≤ 2 ^ 64) where
  inside : a + block_hdr_size + s ≤ e
  inside = omega (arith, span h.cell (a + block_hdr_size + s) (h.cell a).next cs e l.3)

  splits_lem : splits size (h.cell a).size ≡ leb (size + block_hdr_size + min_block_size) s
  splits_lem =
      let whole : (size + block_hdr_size + min_block_size) % 2 ^ 64
          ≡ size + block_hdr_size + min_block_size =
        omega (arith, small) in
      rw (l.1, whole) refl

  fill_lem :
      Below prev a
      → size ≤ s
      → Leaves a prev h e (filled size s ++ cs) (a + block_hdr_size) (
          some (
            a + block_hdr_size,
            if leb (size + block_hdr_size + min_block_size) s
                then split_block size prev a h
                else take_block prev a h,
          ))
  fill_lem b le = elim (Bool-cases (leb (size + block_hdr_size + min_block_size) s)) [
    | inl more ↦ rw more (split_lem prev a h s p cs e l b size (ground arith))
    | inr less ↦ rw less (take_lem prev a h s p cs e l b)
  ]

  kmalloc_hit :
      Below prev a
      → size ≤ s
      → Leaves a prev h e (filled size s ++ cs) (a + block_hdr_size) (kmalloc_visit size prev a h)
  unfolding kmalloc_visit
  kmalloc_hit b le =
      let fits : leb size (h.cell a).size ≡ true = ground (arith, l.1) in
      elim (Bool-cases (leb (size + block_hdr_size + min_block_size) s)) [
        | inl more ↦
            rw (fits, splits_lem, more) (split_lem prev a h s p cs e l b size (ground arith))
        | inr less ↦ rw (fits, splits_lem, less) (take_lem prev a h s p cs e l b)
      ]

  kmalloc_miss : s < size → kmalloc_visit size prev a h ≡ none
  unfolding kmalloc_visit
  kmalloc_miss lt =
      let fits : leb size (h.cell a).size ≡ false = ground (arith, l.1) in rw fits refl

  -- The page boundary is `w` bytes behind the block's start.
  module _ (w : ℕ) (al : aligned_in (a + block_hdr_size) ≡ a + block_hdr_size + w)
      (near : w < 2 * page_size) (side : (w ≡ 0) ⊎ (block_hdr_size + min_block_size ≤ w)) where
    visit_at : aligned_visit size prev a h ≡ (
        if w == 0 && leb size s
        then some (
          a + block_hdr_size,
          if leb (size + block_hdr_size + min_block_size) s
              then split_block size prev a h
              else take_block prev a h,
        )
        else if leb (block_hdr_size + min_block_size) w && leb (w + size) s
        then some (a + block_hdr_size + w, carve size w a h)
        else none)
    unfolding aligned_visit
    visit_at =
        let off : a + block_hdr_size + w - (a + block_hdr_size) ≡ w = omega arith in
        let sum : (w + size) % 2 ^ 64 ≡ w + size = omega (arith, small, near) in
        rw (al, off, splits_lem, l.1, sum) refl

    aligned_miss : s < w + size → aligned_visit size prev a h ≡ none
    aligned_miss lt = visit_at ∙ ground (arith, lt)

    aligned_hit_first :
        Below prev a
        → w ≡ 0
        → size ≤ s
        → Leaves a prev h e (filled size s ++ cs) (a + block_hdr_size) (aligned_visit size prev a h)
    aligned_hit_first b z le =
        let same : aligned_visit size prev a h
            ≡ some (
              a + block_hdr_size,
              if leb (size + block_hdr_size + min_block_size) s
                  then split_block size prev a h
                  else take_block prev a h,
            ) =
          visit_at ∙ ground (arith, z, le) in
        rw same (fill_lem b le)

    aligned_hit_later :
        linked_at prev h ≡ p
        → block_hdr_size + min_block_size ≤ w
        → w + size ≤ s
        → Leaves a prev h e
            (carved size w s ++ cs)
            (a + block_hdr_size + w)
            (aligned_visit size prev a h)
    aligned_hit_later k z le =
        let same : aligned_visit size prev a h ≡ some (a + block_hdr_size + w, carve size w a h) =
          visit_at ∙ ground (arith, z, le) in
        rw same (carve_lem prev a h s p cs e l top k size w z le inside)

-- What `kmalloc` does at a free block.
pub kmalloc-Implements :
    (size : ℕ) → size ≤ 2 ^ 63 → Implements (kmalloc_visit size) (kmalloc_spec size)
unfolding kmalloc_spec
kmalloc-Implements size small = record {
  misses = λ prev a h s p cs e l top miss.
      kmalloc_miss size small prev a h s p cs e l top (ground (arith, miss));
  hits = λ prev a h s p cs e ptr new l top b k hit.
      let fits : size ≤ s = ground (arith, hit) in
      let same : ◌≡◌ {A = Option (ℕ × List Chunk)} (some (a + block_hdr_size, filled size s))
          (some (ptr, new)) =
        ground (arith, hit) in
      let at_ptr : a + block_hdr_size ≡ ptr = cc in
      let as_new : filled size s ≡ new = cc in
      rw (← at_ptr, ← as_new) (kmalloc_hit size small prev a h s p cs e l top b fits);
}

module _ (size a s w : ℕ) (al : aligned_in (a + block_hdr_size) ≡ a + block_hdr_size + w) where
  spec_at : aligned_spec size a s ≡ (
      if ltb s (w + size)
      then none
      else if w == 0
      then some (a + block_hdr_size, filled size s)
      else some (a + block_hdr_size + w, carved size w s))
  unfolding aligned_spec
  spec_at =
      let off : a + block_hdr_size + w - (a + block_hdr_size) ≡ w = omega arith in rw (al, off) refl

-- What `kmalloc_page_aligned` does at a free block.
pub aligned-Implements :
    (size : ℕ) → size ≤ 2 ^ 63 → Implements (aligned_visit size) (aligned_spec size)
aligned-Implements size small = record {
  misses = λ prev a h s p cs e l top miss.
      let (w, al, near, side, _) =
        aligned_waste (a + block_hdr_size)
          (omega (arith, top, inside size small prev a h s p cs e l top)) in
      aligned_miss size small prev a h s p cs e l top w al near side
        (ground (arith, miss, spec_at size a s w al));
  hits = λ prev a h s p cs e ptr new l top b k hit.
      let (w, al, near, side, _) =
        aligned_waste (a + block_hdr_size)
          (omega (arith, top, inside size small prev a h s p cs e l top)) in
      let made = sym (spec_at size a s w al) ∙ hit in
      let fits : w + size ≤ s = ground (arith, made) in
      elim (Bool-cases (w == 0)) [
        | inl z ↦
            (let same : ◌≡◌ {A = Option (ℕ × List Chunk)} (some (a + block_hdr_size, filled size s))
                  (some (ptr, new)) =
                ground (arith, made, z) in
              let at_ptr : a + block_hdr_size ≡ ptr = cc in
              let as_new : filled size s ≡ new = cc in
              rw (← at_ptr, ← as_new)
                (aligned_hit_first size small prev a h s p cs e l top w al near side b (==→eq _ _ z)
                  (omega (arith, fits))))
        | inr n ↦
            (let same : ◌≡◌ {A = Option (ℕ × List Chunk)}
                  (some (a + block_hdr_size + w, carved size w s)) (some (ptr, new)) =
                ground (arith, made, n) in
              let at_ptr : a + block_hdr_size + w ≡ ptr = cc in
              let as_new : carved size w s ≡ new = cc in
              let far : block_hdr_size + min_block_size ≤ w = ground (arith, side, n) in
              rw (← at_ptr, ← as_new)
                (aligned_hit_later size small prev a h s p cs e l top w al near side k far fits))
      ];
}

-- The allocated block starts at a page boundary.
pub spec_aligned :
    (size a s ptr : ℕ) (new : List Chunk)
    → a + block_hdr_size + page_size ≤ 2 ^ 64
    → aligned_spec size a s ≡ some (ptr, new)
    → ptr % page_size ≡ 0
spec_aligned size a s ptr new top made =
    let (w, al, near, side, zero_rest) = aligned_waste (a + block_hdr_size) top in
    let at = sym (spec_at size a s w al) ∙ made in
    let same : a + block_hdr_size + w ≡ ptr = ground (arith, at) in
    rw (← same) (subst (λ (x : ℕ). x % page_size ≡ 0) al zero_rest)
