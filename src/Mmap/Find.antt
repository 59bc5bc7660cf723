-- ===== src/Mmap/Find.antt =====
-- kernel/memory/mmap.c: `vma_find` after one region is written.
use hobbyos.Base.{
  ℕ, zero, suc, ◌+◌, ◌≤◌, ◌<◌, ◌≡◌, refl, Bool, true, false, none, some, List, [], ◌∷◌, length, All,
  arith, inl, inr, set, get_or, find_from, find_from-some, Bool-cases,
}
use hobbyos.Process.{Vma}
use hobbyos.Mmap.{covers}
use hobbyos.Mmap.Range.{Clear}

module _ {ℓ} {A : Type ℓ} (test : A → Bool) where
  -- An element that does not pass is replaced by one that does, and none passed before.
  pub find-set_hit :
      (j : ℕ) (xs : List A) (i : ℕ) (v : A)
      → i < length xs
      → test v ≡ true
      → find_from test j xs ≡ none
      → find_from test j (set xs i v) ≡ some (j + i)
  unfolding find_from
  find-set_hit j [] i v lt h e = absurd (omega arith)
  find-set_hit j (x ∷ xs) zero v lt h e = ground (arith, h)
  find-set_hit j (x ∷ xs) (suc i) v lt h e = ground (arith, find-set_hit (j + 1) xs i v)

  -- Neither the old nor the new element passes.
  pub find-set_miss :
      (j : ℕ) (xs : List A) (i : ℕ) (v d : A)
      → test (get_or xs i d) ≡ false
      → test v ≡ false
      → find_from test j (set xs i v) ≡ find_from test j xs
  unfolding find_from
  find-set_miss j [] i v d old new = refl
  find-set_miss j (x ∷ xs) zero v d old new = ground (arith, old, new)
  find-set_miss j (x ∷ xs) (suc i) v d old new = rw (find-set_miss (j + 1) xs i v d old new) refl

  -- An element behind the first that passes is replaced.
  pub find-set_later :
      (k : ℕ) (xs : List A) (i : ℕ) (v d : A) (j : ℕ)
      → find_from test k xs ≡ some j
      → j < k + i
      → find_from test k (set xs i v) ≡ some j
  unfolding find_from
  find-set_later k [] i v d j e lt = e
  find-set_later k (x ∷ xs) zero v d j e lt =
      absurd (omega (arith, lt, (find_from-some test k (x ∷ xs) j d e).0))
  find-set_later k (x ∷ xs) (suc i) v d j e lt = elim (Bool-cases (test x)) [
    | inl hit ↦ rw hit (ground (arith, e, hit))
    | inr miss ↦
        rw miss (find-set_later (k + 1) xs i v d j (ground (arith, e, miss)) (omega (arith, lt)))
  ]

-- No region covers an address of a range that is clear.
pub find-Clear :
    (j b len x : ℕ) (vs : List Vma)
    → All (Clear b len) vs
    → b ≤ x
    → x < b + len
    → find_from (covers x) j vs ≡ none
unfolding find_from
find-Clear j b len x [] c lo hi = refl
find-Clear j b len x (v ∷ vs) c lo hi =
    let miss : covers x v ≡ false = ground (arith, c.0, lo, hi) in
    rw miss (find-Clear (j + 1) b len x vs c.1 lo hi)
