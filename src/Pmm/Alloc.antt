-- ===== src/Pmm/Alloc.antt =====
-- The next-fit scan of `pmm_alloc_page` finds a free page exactly when there is one.
use hobbyos.Base.{
  ℕ, zero, suc, ◌+◌, ◌-◌, ◌*◌, ◌%◌, ◌≤◌, ◌<◌, ◌≡◌, ◌≢◌, refl, true, false, ◌==◌, arith, get_or-set,
  Bool-cases, inl, inr, ◌⊎◌, subst, ap, sym, ◌∙◌, ==→eq, ==→ne,
}
use native.Mathlib.Nat.{mod-add-mod, add-mod-mod, add-mod_right, mod-eq_of_lt}
use native.Mathlib.Decide.{dec_lt}
use hobbyos.Process.{page_size}
use hobbyos.Pmm.{Pmm, bitmap_test, refcount_at, claim, scan, take_page}
use hobbyos.Pmm.Bitmap.{bitmap_test-set}
use hobbyos.Pmm.Count.{free_below, free_below_pos, free_below_find}
use hobbyos.Pmm.Inv.{Counted, claim-Counted}

-- The page that round `j` of the scan looks at.
abbrev pub probe : Pmm → ℕ → ℕ
probe p j = (p.alloc_hint + j) % p.total_pages

abbrev Found : ℕ → ℕ → Pmm → Type 0
Found left j p =
    (k : ℕ) × (k < j + left)
    × (bitmap_test p.bitmap (probe p k) ≡ false)
    × (scan left j p ≡ claim p (probe p k))

abbrev Missed : ℕ → ℕ → Pmm → Type 0
Missed left j p =
    (scan left j p ≡ (0, p))
    × ((k : ℕ) → j ≤ k → k < j + left → bitmap_test p.bitmap (probe p k) ≡ true)

scan_lem : (left j : ℕ) (p : Pmm) → Found left j p ⊎ Missed left j p
unfolding scan
scan_lem zero j p = inr (refl, λ k lo hi. absurd (omega arith))
scan_lem (suc left) j p = elim (Bool-cases (bitmap_test p.bitmap (probe p j))) [
  | inr free ↦ inl (j, omega arith, free, rw free refl)
  | inl used ↦ elim (scan_lem left (j + 1) p) [
    | inl (k, lt, free, e) ↦ inl (k, omega arith, free, rw used e)
    | inr (e, all) ↦ inr (
      rw used e,
      λ k lo hi. elim (Bool-cases (j == k)) [
        | inl here ↦
            ground
              (arith, subst (λ i. bitmap_test p.bitmap (probe p i) ≡ true) (==→eq j k here) used)
        | inr later ↦ all k (omega (arith, ==→ne j k later)) (omega arith)
      ],
    )
  ]
]

-- Every page is looked at in one of the `total_pages` rounds.
probe_onto : (p : Pmm) (q : ℕ) → q < p.total_pages → (k : ℕ) × (k < p.total_pages) × (probe p k ≡ q)
probe_onto p q h =
    let n = p.total_pages in
    let start = p.alloc_hint % n in
    let back = q + n - start in
    (
      back % n,
      omega arith,
      add-mod-mod p.alloc_hint back n
          ∙ sym (mod-add-mod p.alloc_hint n back)
          ∙ ap (λ (k : ℕ). k % n) (omega arith)
          ∙ add-mod_right q n
          ∙ mod-eq_of_lt h,
    )

take_page_cases :
    (p : Pmm)
    → Counted p
    → ((0 < p.free_pages)
        × ((i : ℕ) × (i < p.total_pages)
            × (bitmap_test p.bitmap i ≡ false)
            × (take_page p ≡ claim p i)))
      ⊎ ((p.free_pages ≡ 0) × (take_page p ≡ (0, p)))
unfolding take_page free_below
take_page_cases p c = elim (scan_lem p.total_pages 0 p) [
  | inl (k, lt, free, e) ↦
      let inside : probe p k < p.total_pages = omega arith in
      let there = free_below_pos (bitmap_test p.bitmap) (probe p k) p.total_pages inside free in
      inl (omega (arith, c.free, there), (probe p k, inside, free, e))
  | inr (e, all) ↦ inr (
    elim (dec_lt 0 p.free_pages) [
      | yes more ↦
          let (q, lt, free) =
            free_below_find (bitmap_test p.bitmap) p.total_pages (omega (arith, c.free)) in
          let (k, hk, at_q) = probe_onto p q lt in
          absurd (
            ground (
              arith,
              all k (omega arith) (omega arith),
              subst (λ i. bitmap_test p.bitmap i ≡ false) (sym at_q) free,
            ))
      | no none_left ↦ omega arith
    ],
    e,
  )
]

-- What a successful allocation changes: one free page is taken, with one reference, and `free_pages`
-- falls by one; the bits and counts of the other pages stay.
pub record Allocated (p p' : Pmm) (i : ℕ) : Type 0 where
  pub inside : i < p.total_pages
  pub was_free : bitmap_test p.bitmap i ≡ false
  pub used : bitmap_test p'.bitmap i ≡ true
  pub counted : refcount_at p' i ≡ 1
  pub fewer : p'.free_pages + 1 ≡ p.free_pages
  pub others :
      (q : ℕ)
      → q ≢ i
      → (bitmap_test p'.bitmap q ≡ bitmap_test p.bitmap q) × (refcount_at p' q ≡ refcount_at p q)

claim-Allocated :
    (p : Pmm) (i : ℕ)
    → Counted p
    → i < p.total_pages
    → bitmap_test p.bitmap i ≡ false
    → 0 < p.free_pages
    → Allocated p (claim p i).1 i
claim-Allocated p i c inside free some_left =
    let test = bitmap_test-set p.bitmap i c.bytes (omega (arith, c.size)) in
    let count = λ (q : ℕ). get_or-set p.page_refcount i q 1 0 (rw c.counts inside) in
    record {
      inside = inside;
      was_free = free;
      used = ground (arith, test i);
      counted = ground (arith, count i);
      fewer = omega arith;
      others = λ q ne. (ground (arith, test q), ground (arith, count q));
    }

-- How an allocation ends: nothing is free and nothing changes, or a free page is taken, whose address
-- is not 0, and the state is counted again.
pub data Takes (p : Pmm) : ℕ × Pmm → Type 0 where
  full : p.free_pages ≡ 0 → Takes p (0, p)
  taken :
      (i : ℕ) (p' : Pmm)
      → i * page_size ≢ 0
      → Counted p'
      → Allocated p p' i
      → Takes p (i * page_size, p')

-- On a counted state whose page 0 is in use, the scan of `pmm_alloc_page` fails, with nothing
-- changed, only when no page is free; otherwise it returns the address, which is not 0, of a page
-- that was free, changes that page alone and leaves the state counted.
pub take_page_lem : (p : Pmm) → Counted p → bitmap_test p.bitmap 0 ≡ true → Takes p (take_page p)
take_page_lem p c low = elim (take_page_cases p c) [
  | inl (some_left, (i, inside, free, e)) ↦
      let ne : i ≢ 0 = λ z. ground (arith, subst (λ k. bitmap_test p.bitmap k ≡ false) z free) in
      rw e (
        Takes.taken i _ (omega arith) (claim-Counted p c i inside free)
          (claim-Allocated p i c inside free some_left))
  | inr (none_left, e) ↦ rw e (Takes.full none_left)
]

pub take_page-Counted : (p : Pmm) → Counted p → Counted (take_page p).1
take_page-Counted p c = elim (take_page_cases p c) [
  | inl (some_left, (i, inside, free, e)) ↦ rw e (claim-Counted p c i inside free)
  | inr (none_left, e) ↦ rw e c
]
