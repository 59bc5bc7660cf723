-- ===== src/Kheap/Merged.antt =====
-- kernel/memory/kheap.c: sequences of calls from the start on, and the merging of free blocks.
use hobbyos.Base.{
  ℕ, ◌+◌, ◌-◌, ◌≡◌, ◌≢◌, ◌⊎◌, refl, sym, ◌∙◌, subst, Bool, Option, none, some, List, [], ◌∷◌, ◌++◌,
  arith, ◌==◌, leb, true, false, Bool-cases, Option-cases, inl, inr, ==→eq, ==→ne,
}
use hobbyos.Kheap.{Ptr, aligned_in, block_hdr_size, min_block_size}
use hobbyos.Kheap.Layout.{Chunk, used, free, used_at}
use hobbyos.Kheap.Walk.{Spec, first_fit, fit_used, fit_miss, fit_hit}
use hobbyos.Kheap.Fit.{kmalloc_spec, aligned_spec, filled}
use hobbyos.Kheap.Carve.{carved}
use hobbyos.Kheap.Insert.{after, freed, freed_here, freed_on, freed_free, used_on}
use hobbyos.Kheap.Join.{joined, joined_past, joined_here, joined_on}

abbrev pub starts_free : List Chunk → Bool
starts_free (free s ∷ cs) = true
starts_free _ = false

-- No two free blocks follow each other.
abbrev pub IsMerged : List Chunk → Type 0
IsMerged [] = Unit
IsMerged (used s ∷ cs) = IsMerged cs
IsMerged (free s ∷ cs) = (starts_free cs ≡ false) × IsMerged cs

-- A specification whose new blocks end with an allocated one where another block follows.
pub record Merges (spec : Spec) : Type 0 where
  pub merges :
      (a s ptr : ℕ) (new cs : List Chunk)
      → spec a s ≡ some (ptr, new)
      → IsMerged (free s ∷ cs)
      → IsMerged (new ++ cs)

pub filled-IsMerged :
    (n s : ℕ) (cs : List Chunk) → IsMerged (free s ∷ cs) → IsMerged (filled n s ++ cs)
filled-IsMerged n s cs m = elim (Bool-cases (leb (n + block_hdr_size + min_block_size) s)) [
  | inl e ↦ rw e m
  | inr e ↦ rw e m.1
]

pub carved-IsMerged :
    (n w s : ℕ) (cs : List Chunk) → IsMerged (free s ∷ cs) → IsMerged (carved n w s ++ cs)
carved-IsMerged n w s cs m = elim (Bool-cases (leb (block_hdr_size + min_block_size) (s - w - n))) [
  | inl e ↦ rw e (refl, m)
  | inr e ↦ rw e (refl, m.1)
]

pub kmalloc-Merges : (n : ℕ) → Merges (kmalloc_spec n)
unfolding kmalloc_spec
kmalloc-Merges n = record {
  merges = λ a s ptr new cs made m.
      let same : ◌≡◌ {A = Option (ℕ × List Chunk)} (some (a + block_hdr_size, filled n s))
          (some (ptr, new)) =
        ground (arith, made) in
      let as_new : filled n s ≡ new = cc in rw (← as_new) (filled-IsMerged n s cs m);
}

pub aligned-Merges : (n : ℕ) → Merges (aligned_spec n)
unfolding aligned_spec
aligned-Merges n = record {
  merges = λ a s ptr new cs made m.
      let d = a + block_hdr_size in
      let w = aligned_in d - d in
      elim (Bool-cases (w == 0)) [
        | inl z ↦
            (let same : ◌≡◌ {A = Option (ℕ × List Chunk)} (some (d, filled n s)) (some (ptr, new)) =
                ground (arith, made, z) in
              let as_new : filled n s ≡ new = cc in rw (← as_new) (filled-IsMerged n s cs m))
        | inr far ↦
            (let same : ◌≡◌ {A = Option (ℕ × List Chunk)} (some (d + w, carved n w s))
                  (some (ptr, new)) =
                ground (arith, made, far) in
              let as_new : carved n w s ≡ new = cc in rw (← as_new) (carved-IsMerged n w s cs m))
      ];
}

module _ (spec : Spec) (ok : Merges spec) where
  -- A block that does not start free does not after the search.
  first_kept :
      (a : ℕ) (cs : List Chunk)
      → starts_free cs ≡ false
      → starts_free (first_fit spec a cs).1 ≡ false
  unfolding first_fit
  first_kept a [] f = refl
  first_kept a (used s ∷ cs) f = refl
  first_kept a (free s ∷ cs) f = cc

  pub first_fit-IsMerged :
      (a : ℕ) (cs : List Chunk) → IsMerged cs → IsMerged (first_fit spec a cs).1
  first_fit-IsMerged a [] m = unfold first_fit in tt
  first_fit-IsMerged a (used s ∷ cs) m =
      subst (λ (r : Ptr × List Chunk). IsMerged r.1) (sym (fit_used spec a s cs))
        (first_fit-IsMerged (a + block_hdr_size + s) cs m)
  first_fit-IsMerged a (free s ∷ cs) m = elim (Option-cases (spec a s)) [
    | inl miss ↦
        subst (λ (r : Ptr × List Chunk). IsMerged r.1) (sym (fit_miss spec a s cs miss))
          (
            first_kept (a + block_hdr_size + s) cs m.0,
            first_fit-IsMerged (a + block_hdr_size + s) cs m.1,
          )
    | inr ((ptr, new), hit) ↦
        subst (λ (r : Ptr × List Chunk). IsMerged r.1) (sym (fit_hit spec a s cs ptr new hit))
          (ok.merges a s ptr new cs hit m)
  ]

after-IsMerged : (s : ℕ) (cs : List Chunk) → IsMerged cs → IsMerged (after s cs)
unfolding after
after-IsMerged s [] m = (refl, tt)
after-IsMerged s (used n ∷ cs) m = (refl, m)
after-IsMerged s (free n ∷ cs) m = m

module _ (t a s : ℕ) (cs : List Chunk) where
  joined_used :
      IsMerged (joined t (a + block_hdr_size + s) cs) → IsMerged (joined t a (used s ∷ cs))
  unfolding joined
  joined_used m = m

  joined_first : starts_free (joined t a (used s ∷ cs)) ≡ false
  unfolding joined
  joined_first = refl

after_twice : (s n : ℕ) (cs : List Chunk) → IsMerged cs → IsMerged (after s (after n cs))
unfolding after
after_twice s n [] m = (refl, tt)
after_twice s n (used k ∷ cs) m = (refl, m)
after_twice s n (free k ∷ cs) m = m

-- The freed block stands right behind a free one.
head_freed :
    (t s : ℕ) (cs : List Chunk) (n : ℕ)
    → used_at t t cs ≡ some n
    → starts_free cs ≡ false
    → IsMerged cs
    → IsMerged (after s (freed t t cs))
unfolding used_at
head_freed t s [] n u f m = cc
head_freed t s (used k ∷ cs) n u f m = rw (freed_here t t k cs refl) (after_twice s k cs m)
head_freed t s (free k ∷ cs) n u f m = cc

-- The freed block stands farther behind.
head_kept :
    (t b : ℕ) (cs : List Chunk) (n : ℕ)
    → used_at t b cs ≡ some n
    → starts_free cs ≡ false
    → b ≢ t
    → starts_free (joined t b (freed t b cs)) ≡ false
unfolding used_at
head_kept t b [] n u f ne = cc
head_kept t b (used k ∷ cs) n u f ne =
    rw (freed_on t b k cs ne) (joined_first t b k (freed t (b + block_hdr_size + k) cs))
head_kept t b (free k ∷ cs) n u f ne = cc

-- The block in front of the freed one and the freed one, with the next, are one block.
pub release-IsMerged :
    (t a : ℕ) (cs : List Chunk) (n : ℕ)
    → used_at t a cs ≡ some n
    → IsMerged cs
    → IsMerged (joined t a (freed t a cs))
unfolding used_at
release-IsMerged t a [] n u m = cc
release-IsMerged t a (used s ∷ cs) n u m = elim (Bool-cases (a == t)) [
  | inl hit ↦
      (let at = ==→eq a t hit in
        rw (freed_here t a s cs at, joined_past t a (after s cs) (omega (arith, at)))
          (after-IsMerged s cs m))
  | inr other ↦
      (let ne = ==→ne a t other in
        let ih =
          release-IsMerged t (a + block_hdr_size + s) cs n (sym (used_on t a s cs ne) ∙ u) m in
        rw (freed_on t a s cs ne) (joined_used t a s (freed t (a + block_hdr_size + s) cs) ih))
]
release-IsMerged t a (free s ∷ cs) n u m =
    let b = a + block_hdr_size + s in
    let ih = release-IsMerged t b cs n u m.1 in
    elim (Bool-cases (b == t)) [
      | inl hit ↦
          (let at = ==→eq b t hit in
            let u' : used_at t t cs ≡ some n = subst (λ (x : ℕ). used_at t x cs ≡ some n) at u in
            rw (freed_free t a s cs, joined_here t a s (freed t b cs) at)
              (subst (λ (x : ℕ). IsMerged (after s (freed t x cs))) (sym at)
                (head_freed t s cs n u' m.0 m.1)))
      | inr far ↦
          (let ne = ==→ne b t far in
            rw (freed_free t a s cs, joined_on t a s (freed t b cs) ne)
              (head_kept t b cs n u m.0 ne, ih))
    ]

-- Without an allocated block there is one block at most.
pub all_free :
    (a : ℕ) (cs : List Chunk)
    → ((b : ℕ) → used_at b a cs ≡ none)
    → IsMerged cs
    → (cs ≡ []) ⊎ ((s : ℕ) × (cs ≡ free s ∷ []))
unfolding used_at
all_free a [] none_used m = inl refl
all_free a (used s ∷ cs) none_used m = absurd (ground (arith, none_used a))
all_free a (free s ∷ []) none_used m = inr (s, refl)
all_free a (free s ∷ used n ∷ cs) none_used m =
    absurd (ground (arith, none_used (a + block_hdr_size + s)))
all_free a (free s ∷ free n ∷ cs) none_used m = cc
