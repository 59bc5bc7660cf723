-- ===== src/Pmm/Count.antt =====
-- How many pages below a bound are free.
use hobbyos.Base.{
  ℕ, zero, suc, ◌+◌, ◌<◌, ◌≡◌, Bool, true, false, ◌&&◌, ◌||◌, not, ◌==◌, ltb, arith, if◌then◌else◌,
  Bool-cases, ==→eq, ==→ne, inl, inr, subst, fun_ext,
}

-- The pages `q < n` that fail the test `used q`.
unfoldable pub free_below : (ℕ → Bool) → ℕ → ℕ
free_below used zero = 0
free_below used (suc n) = (if used n then 0 else 1) + free_below used n

module _ (used used' : ℕ → Bool) (p : ℕ) where
  pub free_below_taken :
      ((q : ℕ) → used' q ≡ ((p == q) || used q))
      → used p ≡ false
      → (n : ℕ) → free_below used n ≡ free_below used' n + (if ltb p n then 1 else 0)
  unfolding free_below
  free_below_taken change free zero = ground arith
  free_below_taken change free (suc n) = elim (Bool-cases (p == n)) [
    | inl same ↦
        let at_n : used n ≡ false = subst (λ q. used q ≡ false) (==→eq p n same) free in
        ground (arith, change n, free_below_taken change free n)
    | inr other ↦ ground (arith, change n, free_below_taken change free n)
  ]

  pub free_below_given :
      ((q : ℕ) → used' q ≡ (not (p == q) && used q))
      → used p ≡ true
      → (n : ℕ) → free_below used' n ≡ free_below used n + (if ltb p n then 1 else 0)
  unfolding free_below
  free_below_given change taken zero = ground arith
  free_below_given change taken (suc n) = elim (Bool-cases (p == n)) [
    | inl same ↦
        let at_n : used n ≡ true = subst (λ q. used q ≡ true) (==→eq p n same) taken in
        ground (arith, change n, free_below_given change taken n)
    | inr other ↦ ground (arith, change n, free_below_given change taken n)
  ]

-- A page that is not used is among the free ones.
pub free_below_pos : (used : ℕ → Bool) (p n : ℕ) → p < n → used p ≡ false → 0 < free_below used n
unfolding free_below
free_below_pos used p zero h free = absurd (omega arith)
free_below_pos used p (suc n) h free = elim (Bool-cases (p == n)) [
  | inl same ↦
      let at_n : used n ≡ false = subst (λ q. used q ≡ false) (==→eq p n same) free in
      rw at_n (omega arith)
  | inr other ↦ ground (arith, free_below_pos used p n (omega (arith, ==→ne p n other)) free)
]

-- Where some page is free, there is one.
pub free_below_find :
    (used : ℕ → Bool) (n : ℕ) → 0 < free_below used n → (p : ℕ) × (p < n) × (used p ≡ false)
unfolding free_below
free_below_find used zero h = absurd (omega arith)
free_below_find used (suc n) h = elim (Bool-cases (used n)) [
  | inl taken ↦ let (p, lt, free) = free_below_find used n (ground arith) in (p, omega arith, free)
  | inr free ↦ (n, omega arith, free)
]

pub free_below_cong :
    (used used' : ℕ → Bool) (n : ℕ)
    → ((q : ℕ) → used' q ≡ used q)
    → free_below used' n ≡ free_below used n
free_below_cong used used' n same = rw (fun_ext same)
