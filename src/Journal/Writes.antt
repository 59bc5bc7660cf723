-- ===== src/Journal/Writes.antt =====
-- Sequences of sector writes.
use hobbyos.Base.{
  ℕ, zero, suc, ◌+◌, ◌*◌, ◌≤◌, ◌<◌, ◌≡◌, ◌≢◌, refl, sym, ap, ap₂, ◌∙◌, subst, true, false, List, [],
  ◌∷◌, ◌++◌, ◌==◌, if◌then◌else◌, length, get_or, take, All, arith, Bool-cases, inl, inr, ◌⊎◌,
}
use hobbyos.Journal.{
  Sector, Disk, Write, Txn, write, apply, sector_writes, read_sectors, area_writes, final_writes,
  block, target,
}

pub apply-append : (xs ys : List Write) (d : Disk) → apply (xs ++ ys) d ≡ apply ys (apply xs d)
unfolding apply
apply-append [] ys d = refl
apply-append (x ∷ xs) ys d = apply-append xs ys (write x d)

-- A sector that is not written stays.
pub apply-untouched :
    (ws : List Write) (d : Disk) (x : ℕ) → All (λ (w : Write). x ≢ w.0) ws → apply ws d x ≡ d x
unfolding apply
apply-untouched [] d x h = refl
apply-untouched (w ∷ ws) d x h =
    let ne = h.0 in
    let off : (x == w.0) ≡ false = ground (arith, ne) in
    apply-untouched ws (write w d) x h.1 ∙ rw off refl

-- What writes leave in a sector depends on what was there alone.
pub apply-local : (ws : List Write) (d e : Disk) (x : ℕ) → d x ≡ e x → apply ws d x ≡ apply ws e x
unfolding apply
apply-local [] d e x h = h
apply-local (w ∷ ws) d e x h =
    apply-local ws (write w d) (write w e) x (ap (λ (s : Sector). if x == w.0 then w.1 else s) h)

-- Writes whose first ones have been done before leave the same.
pub apply-again :
    (ws : List Write) (j : ℕ) (d : Disk) (x : ℕ) → apply ws (apply (take j ws) d) x ≡ apply ws d x
unfolding apply
apply-again [] zero d x = refl
apply-again [] (suc j) d x = refl
apply-again (w ∷ ws) zero d x = refl
apply-again (w ∷ ws) (suc j) d x = elim (Bool-cases (x == w.0)) [
  | inl e ↦ apply-local ws (write w (apply (take j ws) (write w d))) (write w d) x (rw e refl)
  | inr e ↦
      apply-local ws (write w (apply (take j ws) (write w d))) (apply (take j ws) (write w d)) x
        (rw e refl)
      ∙ apply-again ws j (write w d) x
]

-- A crash leaves some of the first writes, or all of them and at least one of the others.
pub take_split :
    {A : Type 0} (m : ℕ) (xs ys : List A)
    → ((j : ℕ) × (take m (xs ++ ys) ≡ take j xs))
      ⊎ ((k : ℕ) × (take m (xs ++ ys) ≡ xs ++ take (suc k) ys))
take_split zero xs ys = inl (zero, refl)
take_split (suc m) [] ys = inr (m, refl)
take_split (suc m) (x ∷ xs) ys = elim (take_split m xs ys) [
  | inl (j, e) ↦ inl (suc j, ap (λ t. x ∷ t) e)
  | inr (k, e) ↦ inr (k, ap (λ t. x ∷ t) e)
]

-- The writes of one block: where they go, and what they leave.
pub sector_writes-All :
    (P : ℕ → Type 0) (a : ℕ) (b : List Sector)
    → ((k : ℕ) → k < length b → P (a + k))
    → All (λ (w : Write). P w.0) (sector_writes a b)
unfolding sector_writes
sector_writes-All P a [] h = tt
sector_writes-All P a (s ∷ ss) h =
    let here : a + 0 ≡ a = omega arith in
    (
      subst P here (h 0 (omega arith)),
      sector_writes-All P (a + 1) ss (λ k l.
          let e : a + suc k ≡ a + 1 + k = omega arith in subst P e (h (suc k) (omega arith))),
    )

apply-sector_writes :
    (a : ℕ) (b : List Sector) (d : Disk) (k : ℕ)
    → k < length b
    → apply (sector_writes a b) d (a + k) ≡ get_or b k []
unfolding sector_writes apply
apply-sector_writes a [] d k h = absurd (omega arith)
apply-sector_writes a (s ∷ ss) d zero h =
    let here : (a + 0 == a) ≡ true = ground arith in
    apply-untouched (sector_writes (a + 1) ss) (write (a, s) d) (a + 0)
      (sector_writes-All (λ n. a + 0 ≢ n) (a + 1) ss (λ k l e. omega arith))
    ∙ rw here refl
apply-sector_writes a (s ∷ ss) d (suc k) h =
    let e : a + suc k ≡ a + 1 + k = omega arith in
    ap (λ n. apply (sector_writes (a + 1) ss) (write (a, s) d) n) e
    ∙ apply-sector_writes (a + 1) ss (write (a, s) d) k (omega arith)

pub read_sectors-block :
    (d : Disk) (a : ℕ) (b : List Sector)
    → ((k : ℕ) → k < length b → d (a + k) ≡ get_or b k [])
    → read_sectors d a (length b) ≡ b
unfolding read_sectors
read_sectors-block d a [] h = refl
read_sectors-block d a (s ∷ ss) h =
    let here : a + 0 ≡ a = omega arith in
    ap₂ (λ (x : Sector) (xs : List Sector). x ∷ xs) (sym (ap d here) ∙ h 0 (omega arith))
      (read_sectors-block d (a + 1) ss
        (λ k l. let e : a + 1 + k ≡ a + suc k = omega arith in ap d e ∙ h (suc k) (omega arith)))

-- The writes leave the sector `x` alone.
abbrev pub Avoids : ℕ → List Write → Type 0
Avoids x ws = All (λ (w : Write). x ≢ w.0) ws

pub Avoids-append : (x : ℕ) (xs ys : List Write) → Avoids x xs → Avoids x ys → Avoids x (xs ++ ys)
Avoids-append x [] ys hx hy = hy
Avoids-append x (w ∷ ws) ys hx hy = (hx.0, Avoids-append x ws ys hx.1 hy)

pub Avoids-take : (x j : ℕ) (xs : List Write) → Avoids x xs → Avoids x (take j xs)
Avoids-take x zero xs h = tt
Avoids-take x (suc j) [] h = tt
Avoids-take x (suc j) (w ∷ ws) h = (h.0, Avoids-take x j ws h.1)

module _ (memory : ℕ → List Sector) (t : Txn)
    (blocks : (i : ℕ) → length (block memory t i) ≡ 8) where
  -- The writes to the journal area lie from its place on.
  pub area_writes-above : (left i lba x : ℕ) → x < lba → Avoids x (area_writes memory t left i lba)
  unfolding area_writes
  area_writes-above zero i lba x h = tt
  area_writes-above (suc left) i lba x h =
      Avoids-append x (sector_writes lba (block memory t i)) _
        (sector_writes-All (λ n. x ≢ n) lba (block memory t i) (λ k l e. omega arith))
        (area_writes-above left (i + 1) (lba + 8) x (omega arith))

  -- After them, the place of each block holds the block.
  pub area_holds :
      (left i lba : ℕ) (d : Disk) (j k : ℕ)
      → j < left
      → k < 8
      → apply (area_writes memory t left i lba) d (lba + 8 * j + k)
        ≡ get_or (block memory t (i + j)) k []
  unfolding area_writes
  area_holds zero i lba d j k hj hk = absurd (omega arith)
  area_holds (suc left) i lba d zero k hj hk =
      let b = block memory t i in
      let at : lba + 8 * 0 + k ≡ lba + k = omega arith in
      let i0 : i + 0 ≡ i = omega arith in
      rw (at, i0)
        (ap (λ (f : Disk). f (lba + k)) (apply-append (sector_writes lba b) _ d)
          ∙ apply-untouched _ (apply (sector_writes lba b) d) (lba + k)
              (area_writes-above left (i + 1) (lba + 8) (lba + k) (omega arith))
          ∙ apply-sector_writes lba b d k (omega (arith, blocks i)))
  area_holds (suc left) i lba d (suc j) k hj hk =
      let b = block memory t i in
      let at : lba + 8 * suc j + k ≡ lba + 8 + 8 * j + k = omega arith in
      let next : i + suc j ≡ i + 1 + j = omega arith in
      rw (at, next)
        (ap (λ (f : Disk). f (lba + 8 + 8 * j + k)) (apply-append (sector_writes lba b) _ d)
          ∙ area_holds left (i + 1) (lba + 8) (apply (sector_writes lba b) d) j k (omega arith) hk)

  -- The writes to the places of the blocks lie below the journal.
  pub final_writes-below :
      (left i x : ℕ)
      → 65536 ≤ x
      → ((j : ℕ) → j < i + left → target memory t j < 8192)
      → Avoids x (final_writes memory t left i)
  unfolding final_writes
  final_writes-below zero i x h small = tt
  final_writes-below (suc left) i x h small =
      let here = small i (omega arith) in
      Avoids-append x (sector_writes (target memory t i * 8) (block memory t i)) _
        (sector_writes-All (λ n. x ≢ n) (target memory t i * 8) (block memory t i)
          (λ k l e. omega (arith, here, blocks i)))
        (final_writes-below left (i + 1) x h (λ j l. small j (omega arith)))
