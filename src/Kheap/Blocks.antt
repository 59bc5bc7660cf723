-- ===== src/Kheap/Blocks.antt =====
-- kernel/memory/kheap.c: the allocated blocks as a map from addresses to sizes, before and after a
-- search and a free.
use hobbyos.Base.{
  ℕ, ◌+◌, ◌-◌, ◌≤◌, ◌<◌, ◌≡◌, refl, sym, ◌∙◌, ap, subst, Option, none, some, List, [], ◌∷◌, ◌++◌,
  arith, ◌==◌, leb, if◌then◌else◌, Bool-cases, Option-cases, inl, inr, ==→eq, ==→ne,
}
use hobbyos.Kheap.{Ptr, aligned_in, block_hdr_size, min_block_size}
use hobbyos.Kheap.Layout.{Chunk, used, free, used_at, used_above}
use hobbyos.Kheap.Walk.{Spec, first_fit, fit_used, fit_miss, fit_hit}
use hobbyos.Kheap.Fit.{kmalloc_spec, aligned_spec, filled, room_in}
use hobbyos.Kheap.Carve.{carved}
use hobbyos.Kheap.Insert.{after, freed, freed_on, freed_here, used_on}
use hobbyos.Kheap.Join.{joined}

-- No allocated block starts below the first address.
pub used_below : (t a : ℕ) (cs : List Chunk) → t < a → used_at t a cs ≡ none
used_below t a cs lt = elim (Option-cases (used_at t a cs)) [
  | inl e ↦ e
  | inr (n, e) ↦ absurd (omega (arith, lt, used_above t a cs n e))
]

-- The block of `m` bytes at `b` becomes allocated, and no other block changes.
pub record Takes (a : ℕ) (cs cs' : List Chunk) (b m : ℕ) : Type 0 where
  pub fresh : used_at b a cs ≡ none
  pub takes : (t : ℕ) → used_at t a cs' ≡ (if t == b then some m else used_at t a cs)

-- A specification that allocates at least `n` bytes, inside the free block.
pub record Allots (spec : Spec) (n : ℕ) : Type 0 where
  pub allots :
      (a s ptr : ℕ) (new : List Chunk)
      → spec a s ≡ some (ptr, new)
      → (b : ℕ) × (m : ℕ) × (ptr ≡ b + block_hdr_size)
        × (n ≤ m)
        × (a ≤ b)
        × (b + m ≤ a + s)
        × ((cs : List Chunk) (t : ℕ)
            → used_at t a (new ++ cs)
              ≡ (if t == b then some m else used_at t (a + block_hdr_size + s) cs))

-- The sizes of the free blocks.
abbrev pub free_sizes : List Chunk → List ℕ
free_sizes [] = []
free_sizes (used s ∷ cs) = free_sizes cs
free_sizes (free s ∷ cs) = s ∷ free_sizes cs

-- A search allocates a block of `n` bytes or more, or finds none and changes nothing.
abbrev pub Fits : ℕ → ℕ → List Chunk → List Chunk → Ptr → Type 0
Fits n a cs cs' none = cs' ≡ cs
Fits n a cs cs' (some ptr) =
    (b : ℕ) × (m : ℕ) × (ptr ≡ b + block_hdr_size) × (n ≤ m) × (a ≤ b) × Takes a cs cs' b m

hit_lem :
    (a s b m : ℕ) (cs new : List Chunk)
    → b < a + block_hdr_size + s
    → ((t : ℕ)
        → used_at t a (new ++ cs)
          ≡ (if t == b then some m else used_at t (a + block_hdr_size + s) cs))
    → Takes a (free s ∷ cs) (new ++ cs) b m
unfolding used_at
hit_lem a s b m cs new lt blocks = record {
  fresh = used_below b (a + block_hdr_size + s) cs lt;
  takes = blocks;
}

-- A block in front that stays.
module _ (n a s : ℕ) (cs cs' : List Chunk) where
  Fits-used :
      (p : Ptr) → Fits n (a + block_hdr_size + s) cs cs' p → Fits n a (used s ∷ cs) (used s ∷ cs') p
  unfolding used_at
  Fits-used none f = ap (λ xs. used s ∷ xs) f
  Fits-used (some ptr) (b, m, at, enough, above, f) = (
    b,
    m,
    at,
    enough,
    omega (arith, above),
    record {
      fresh = ground (arith, f.fresh, above);
      takes = λ t. ground (arith, f.takes t, above);
    },
  )

  Fits-free :
      (p : Ptr) → Fits n (a + block_hdr_size + s) cs cs' p → Fits n a (free s ∷ cs) (free s ∷ cs') p
  unfolding used_at
  Fits-free none f = ap (λ xs. free s ∷ xs) f
  Fits-free (some ptr) (b, m, at, enough, above, f) =
      (b, m, at, enough, omega (arith, above), record { fresh = f.fresh; takes = f.takes })

module _ (spec : Spec) (n : ℕ) (ok : Allots spec n) where
  pub first_fit-Fits :
      (a : ℕ) (cs : List Chunk) → Fits n a cs (first_fit spec a cs).1 (first_fit spec a cs).0
  first_fit-Fits a [] = unfold first_fit in refl
  first_fit-Fits a (used s ∷ cs) =
      subst (λ (r : Ptr × List Chunk). Fits n a (used s ∷ cs) r.1 r.0) (sym (fit_used spec a s cs))
        (Fits-used n a s cs _ _ (first_fit-Fits (a + block_hdr_size + s) cs))
  first_fit-Fits a (free s ∷ cs) = elim (Option-cases (spec a s)) [
    | inl miss ↦
        subst (λ (r : Ptr × List Chunk). Fits n a (free s ∷ cs) r.1 r.0)
          (sym (fit_miss spec a s cs miss))
          (Fits-free n a s cs _ _ (first_fit-Fits (a + block_hdr_size + s) cs))
    | inr ((ptr, new), hit) ↦
        (let (b, m, at, enough, above, inside, blocks) = ok.allots a s ptr new hit in
          subst (λ (r : Ptr × List Chunk). Fits n a (free s ∷ cs) r.1 r.0)
            (sym (fit_hit spec a s cs ptr new hit))
            (b, m, at, enough, above, hit_lem a s b m cs new (omega (arith, inside)) (blocks cs)))
  ]

-- The bytes that are allocated of a free block of size `s`, with `waste` bytes left in front.
abbrev allotted : ℕ → ℕ → ℕ
allotted size s = if leb (size + block_hdr_size + min_block_size) s then size else s

abbrev carved_size : ℕ → ℕ → ℕ → ℕ
carved_size size waste s =
    if leb (block_hdr_size + min_block_size) (s - waste - size)
    then size
    else size + (s - waste - size)

module _ (size a s : ℕ) (cs : List Chunk) (t : ℕ) where
  filled_blocks :
      size ≤ s
      → used_at t a (filled size s ++ cs)
        ≡ (if t == a then some (allotted size s) else used_at t (a + block_hdr_size + s) cs)
  unfolding used_at
  filled_blocks le = elim (Bool-cases (leb (size + block_hdr_size + min_block_size) s)) [
    | inl more ↦
        (let end : a + block_hdr_size + size + block_hdr_size + (s - size - block_hdr_size)
              ≡ a + block_hdr_size + s =
            ground arith in
          rw (more, end) (ground arith))
    | inr less ↦ rw less (ground arith)
  ]

  carved_blocks :
      (w : ℕ)
      → block_hdr_size + min_block_size ≤ w
      → w + size ≤ s
      → used_at t a (carved size w s ++ cs) ≡ (
          if t == a + w then some (carved_size size w s) else used_at t (a + block_hdr_size + s) cs)
  unfolding used_at
  carved_blocks w room le =
      let start : a + block_hdr_size + (w - block_hdr_size) ≡ a + w = omega arith in
      elim (Bool-cases (leb (block_hdr_size + min_block_size) (s - w - size))) [
        | inl more ↦
            (let end : a
                    + w
                    + block_hdr_size
                    + size
                    + block_hdr_size
                    + (s - w - size - block_hdr_size)
                  ≡ a + block_hdr_size + s =
                ground arith in
              rw (more, start, end) (ground arith))
        | inr less ↦
            (let end : a + w + block_hdr_size + (size + (s - w - size)) ≡ a + block_hdr_size + s =
                omega arith in
              rw (less, start, end) (ground arith))
      ]

pub kmalloc-Allots : (n : ℕ) → Allots (kmalloc_spec n) n
unfolding kmalloc_spec
kmalloc-Allots n = record {
  allots = λ a s ptr new made.
      let le : n ≤ s = ground (arith, made) in
      let same : ◌≡◌ {A = Option (ℕ × List Chunk)} (some (a + block_hdr_size, filled n s))
          (some (ptr, new)) =
        ground (arith, made) in
      let at_ptr : a + block_hdr_size ≡ ptr = cc in
      let as_new : filled n s ≡ new = cc in
      (
        a,
        allotted n s,
        sym at_ptr,
        ground arith,
        omega arith,
        ground arith,
        λ cs t. rw (← as_new) (filled_blocks n a s cs t le),
      );
}

pub aligned-Allots : (n : ℕ) → Allots (aligned_spec n) n
unfolding aligned_spec
aligned-Allots n = record {
  allots = λ a s ptr new made.
      let d = a + block_hdr_size in
      let w = aligned_in d - d in
      let le : w + n ≤ s = ground (arith, made) in
      elim (Bool-cases (w == 0)) [
        | inl z ↦
            (let same : ◌≡◌ {A = Option (ℕ × List Chunk)} (some (d, filled n s)) (some (ptr, new)) =
                ground (arith, made, z) in
              let at_ptr : d ≡ ptr = cc in
              let as_new : filled n s ≡ new = cc in
              (
                a,
                allotted n s,
                sym at_ptr,
                ground arith,
                omega arith,
                ground arith,
                λ cs t. rw (← as_new) (filled_blocks n a s cs t (omega (arith, le))),
              ))
        | inr far ↦
            (let room = room_in d (==→ne w 0 far) in
              let same : ◌≡◌ {A = Option (ℕ × List Chunk)} (some (d + w, carved n w s))
                  (some (ptr, new)) =
                ground (arith, made, far) in
              let at_ptr : d + w ≡ ptr = cc in
              let as_new : carved n w s ≡ new = cc in
              (
                a + w,
                carved_size n w s,
                omega (arith, at_ptr),
                ground arith,
                omega arith,
                ground (arith, le),
                λ cs t. rw (← as_new) (carved_blocks n a s cs t w room le),
              ))
      ];
}

module _ (t : ℕ) where
  after_blocks :
      (x a s : ℕ) (cs : List Chunk)
      → used_at x a (after s cs) ≡ used_at x (a + block_hdr_size + s) cs
  unfolding used_at after
  after_blocks x a s [] = refl
  after_blocks x a s (used n ∷ cs) = refl
  after_blocks x a s (free n ∷ cs) = ap (λ y. used_at x y cs) (omega arith)

  -- The freed block is no more allocated, the others are as they were.
  pub freed_blocks :
      (x a : ℕ) (cs : List Chunk) (n : ℕ)
      → used_at t a cs ≡ some n
      → used_at x a (freed t a cs) ≡ (if x == t then none else used_at x a cs)
  unfolding used_at freed
  freed_blocks x a [] n u = cc
  freed_blocks x a (used s ∷ cs) n u = elim (Bool-cases (a == t)) [
    | inl hit ↦
        (let at = ==→eq a t hit in
          rw (freed_here t a s cs at)
            (after_blocks x a s cs ∙ ground (arith, at, used_below x (a + block_hdr_size + s) cs)))
    | inr other ↦
        (let ne = ==→ne a t other in
          let ih = freed_blocks x (a + block_hdr_size + s) cs n (sym (used_on t a s cs ne) ∙ u) in
          rw (freed_on t a s cs ne) (ground (arith, ih, ne)))
  ]
  freed_blocks x a (free s ∷ cs) n u = freed_blocks x (a + block_hdr_size + s) cs n u

  pub joined_blocks : (x a : ℕ) (cs : List Chunk) → used_at x a (joined t a cs) ≡ used_at x a cs
  unfolding used_at joined
  joined_blocks x a [] = refl
  joined_blocks x a (used s ∷ cs) = rw (joined_blocks x (a + block_hdr_size + s) cs) refl
  joined_blocks x a (free s ∷ cs) = elim (Bool-cases (a + block_hdr_size + s == t)) [
    | inl hit ↦ rw hit (after_blocks x a s cs)
    | inr far ↦ rw far (joined_blocks x (a + block_hdr_size + s) cs)
  ]
