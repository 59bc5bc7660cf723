-- ===== src/Mmap/Range.antt =====
-- kernel/memory/mmap.c: the search for a free range of addresses ends, and finds the lowest one.
use hobbyos.Base.{
  ℕ, zero, suc, ◌+◌, ◌%◌, ◌^◌, ◌≤◌, ◌<◌, ◌≡◌, ◌⊎◌, refl, true, false, ◌&&◌, none, some, List, [],
  ◌∷◌, ltb, if◌then◌else◌, length, All, arith, inl, inr, Bool-cases, Option-cases,
}
use hobbyos.Process.{Process, Vma}
use hobbyos.Mmap.{mmap_top, overlaps, first_overlap, find_range, search_base, vma_find_free_range}

abbrev pub Any {ℓ} : {A : Type ℓ} → (A → Type 0) → List A → Type 0
Any P [] = ⊥
Any P (x ∷ xs) = P x ⊎ Any P xs

-- A region in use that `len` bytes at `b` touch, and one that they do not.
abbrev pub Hits : ℕ → ℕ → Vma → Type 0
Hits b len v = (v.in_use ≡ true) × (b < v.end) × (v.start < b + len)

abbrev pub Clear : ℕ → ℕ → Vma → Type 0
Clear b len v = (v.in_use ≡ false) ⊎ (v.end ≤ b) ⊎ (b + len ≤ v.start)

-- The end of a region in use is an address below 2^63.
abbrev pub IsLow : Vma → Type 0
IsLow v = (v.in_use ≡ false) ⊎ (v.end ≤ 2 ^ 63)

-- The regions that can still be met from `b` on.
pending : ℕ → List Vma → ℕ
pending b [] = 0
pending b (v ∷ vs) = (if v.in_use && ltb b v.end then 1 else 0) + pending b vs

pending_mono : (b c : ℕ) (vs : List Vma) → b ≤ c → pending c vs ≤ pending b vs
unfolding pending
pending_mono b c [] le = omega arith
pending_mono b c (v ∷ vs) le = ground (arith, pending_mono b c vs le)

pending-le-length : (b : ℕ) (vs : List Vma) → pending b vs ≤ length vs
unfolding pending
pending-le-length b [] = omega arith
pending-le-length b (v ∷ vs) = ground (arith, pending-le-length b vs)

overlap_above : (b len e : ℕ) (vs : List Vma) → first_overlap b len vs ≡ some e → b < e
unfolding first_overlap
overlap_above b len e [] h = cc
overlap_above b len e (v ∷ vs) h = ground (arith, overlap_above b len e vs)

-- A region that is met is behind the search afterwards.
pending_less :
    (b len e : ℕ) (vs : List Vma) → first_overlap b len vs ≡ some e → pending e vs < pending b vs
unfolding first_overlap pending
pending_less b len e [] h = cc
pending_less b len e (v ∷ vs) h = elim (Bool-cases (overlaps b len v)) [
  | inl hit ↦
      (let at : v.end ≡ e = ground (arith, hit, h) in
        ground (arith, hit, at, pending_mono b e vs (ground (arith, hit, at))))
  | inr miss ↦
      (let later : first_overlap b len vs ≡ some e = ground (arith, miss, h) in
        let above = overlap_above b len e vs later in
        ground (arith, pending_less b len e vs later, above))
]

no_overlap :
    (b len : ℕ) (vs : List Vma)
    → b + len < 2 ^ 64
    → first_overlap b len vs ≡ none
    → All (Clear b len) vs
unfolding first_overlap
no_overlap b len [] lt h = tt
no_overlap b len (v ∷ vs) lt h = (ground arith, no_overlap b len vs lt (ground arith))

some_overlap :
    (b len e : ℕ) (vs : List Vma)
    → b + len < 2 ^ 64
    → All IsLow vs
    → first_overlap b len vs ≡ some e
    → (e ≤ 2 ^ 63) × ((x : ℕ) → b ≤ x → x < e → Any (Hits x len) vs)
unfolding first_overlap
some_overlap b len e [] lt low h = cc
some_overlap b len e (v ∷ vs) lt low h = elim (Bool-cases (overlaps b len v)) [
  | inl hit ↦
      (let at : v.end ≡ e = ground (arith, hit, h) in
        let used : v.in_use ≡ true = ground (arith, hit) in
        let below : v.start < b + len = ground (arith, hit, lt) in
        (
          ground (arith, low.0, used, at),
          λ x lo hi. inl (used, omega (arith, hi, at), omega (arith, below, lo)),
        ))
  | inr miss ↦
      (let (small, hits) = some_overlap b len e vs lt low.1 (ground (arith, miss, h)) in
        (small, λ x lo hi. inr (hits x lo hi)))
]

-- `r` is the lowest address from `b` on with `len` free bytes below MMAP_TOP, or 0 when there is none.
abbrev pub Lowest : ℕ → ℕ → List Vma → ℕ → Type 0
Lowest b len vmas r =
    ((r ≡ 0) × ((x : ℕ) → b ≤ x → x + len ≤ mmap_top → Any (Hits x len) vmas))
    ⊎ ((b ≤ r)
        × (r + len ≤ mmap_top)
        × All (Clear r len) vmas
        × ((x : ℕ) → b ≤ x → x < r → Any (Hits x len) vmas))

module _ (len : ℕ) (vmas : List Vma) (small : len < 2 ^ 63) (low : All IsLow vmas) where
  -- What is known behind a region that is in the way.
  Lowest-up :
      (b e r : ℕ)
      → b ≤ e
      → ((x : ℕ) → b ≤ x → x < e → Any (Hits x len) vmas)
      → Lowest e len vmas r
      → Lowest b len vmas r
  Lowest-up b e r le hits (inl (z, full)) = inl (
    z,
    λ x lo fits. elim (Bool-cases (ltb x e)) [
      | inl before ↦ hits x lo (ground (arith, before))
      | inr behind ↦ full x (ground (arith, behind)) fits
    ],
  )
  Lowest-up b e r le hits (inr (above, fits, clear, full)) = inr (
    omega (arith, above, le),
    fits,
    clear,
    λ x lo hi. elim (Bool-cases (ltb x e)) [
      | inl before ↦ hits x lo (ground (arith, before))
      | inr behind ↦ full x (ground (arith, behind)) hi
    ],
  )

  find_range_lem :
      (left b : ℕ)
      → b ≤ 2 ^ 63
      → pending b vmas < left
      → (r : ℕ) × (find_range left b len vmas ≡ some r) × Lowest b len vmas r
  unfolding find_range
  find_range_lem zero b lt p = absurd (omega arith)
  find_range_lem (suc left) b lt p = elim (Bool-cases (ltb mmap_top ((b + len) % 2 ^ 64))) [
    | inl out ↦
        (0, rw out refl, inl (refl, λ x lo fits. absurd (ground (arith, out, fits, lo, lt, small))))
    | inr inside ↦ elim (Option-cases (first_overlap b len vmas)) [
      | inl clear ↦ (
        b,
        rw (inside, clear) refl,
        inr (
          omega arith,
          ground (arith, inside, lt, small),
          no_overlap b len vmas (omega (arith, lt, small)) clear,
          λ x lo hi. absurd (omega (arith, lo, hi)),
        ),
      )
      | inr (e, hit) ↦
          (let (top, hits) = some_overlap b len e vmas (omega (arith, lt, small)) low hit in
            let above = overlap_above b len e vmas hit in
            let (r, found, lowest) =
              find_range_lem left e top (omega (arith, p, pending_less b len e vmas hit)) in
            (r, rw (inside, hit) found, Lowest-up b e r (omega (arith, above)) hits lowest))
    ]
  ]

-- For a length below 2^63, a start of the search that is at most 2^63, and regions in use that
-- end at 2^63 or below, the search ends, with at most one retry for each region, and its result
-- is the lowest address from its start on where the bytes are free below MMAP_TOP, or 0 when
-- there is none.
pub find_free_range-Lowest :
    (proc : Process) (hint len : ℕ)
    → len < 2 ^ 63
    → search_base proc hint ≤ 2 ^ 63
    → All IsLow proc.vmas
    → (r : ℕ) × (vma_find_free_range proc hint len ≡ some r)
      × Lowest (search_base proc hint) len proc.vmas r
unfolding vma_find_free_range
find_free_range-Lowest proc hint len small start low =
    find_range_lem len proc.vmas small low (suc (length proc.vmas)) (search_base proc hint) start
      (omega (arith, pending-le-length (search_base proc hint) proc.vmas))

range_total :
    (left b len : ℕ) (vmas : List Vma)
    → pending b vmas < left
    → (r : ℕ) × (find_range left b len vmas ≡ some r)
unfolding find_range
range_total zero b len vmas p = absurd (omega arith)
range_total (suc left) b len vmas p = elim (Bool-cases (ltb mmap_top ((b + len) % 2 ^ 64))) [
  | inl out ↦ (0, rw out refl)
  | inr inside ↦ elim (Option-cases (first_overlap b len vmas)) [
    | inl clear ↦ (b, rw (inside, clear) refl)
    | inr (e, hit) ↦
        (let (r, found) =
            range_total left e len vmas (omega (arith, p, pending_less b len e vmas hit)) in
          (r, rw (inside, hit) found))
  ]
]

-- The search for a free range ends, whatever the regions, the hint and the length are.
pub find_free_range_total :
    (proc : Process) (hint len : ℕ) → (r : ℕ) × (vma_find_free_range proc hint len ≡ some r)
unfolding vma_find_free_range
find_free_range_total proc hint len =
    range_total (suc (length proc.vmas)) (search_base proc hint) len proc.vmas
      (omega (arith, pending-le-length (search_base proc hint) proc.vmas))
