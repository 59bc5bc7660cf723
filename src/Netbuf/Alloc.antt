-- ===== src/Netbuf/Alloc.antt =====
-- The invariant of the pools, and what an allocation yields.
use hobbyos.Base.{
  ℕ, ◌-◌, ◌≤◌, ◌<◌, ◌≡◌, refl, ap, false, not, Option, none, some, List, ltb, length, get_or,
  get_or-modify_self, All, All-modify, All-inside, ltb→le, min, find_from-some, arith, Bool-cases,
  inl, inr,
}
use hobbyos.Netbuf.{
  Netbuf, Pools, BufPtr, buf, set_buf, zero_netbuf, netbuf_small_size, netbuf_large_size, claim,
  free_in, claim_large, claim_small, netbuf_alloc_size,
}

-- A buffer of a pool has the pool's capacity, and a reference exactly while it is in use.
pub record IsBuf (capacity : ℕ) (b : Netbuf) : Type 0 where
  pub sized : b.capacity ≡ capacity
  pub owned : b.in_use ≡ ltb 0 b.refcount

pub record IsPools (p : Pools) : Type 0 where
  pub smalls : All (IsBuf netbuf_small_size) p.small_pool
  pub larges : All (IsBuf netbuf_large_size) p.large_pool

pub set_buf-IsPools :
    (b : BufPtr) (f : Netbuf → Netbuf) (p : Pools)
    → IsPools p
    → ((c : ℕ) (x : Netbuf) → IsBuf c x → IsBuf c (f x))
    → IsPools (set_buf b f p)
set_buf-IsPools (BufPtr.small i) f p h keep = record {
  smalls = All-modify (IsBuf netbuf_small_size) p.small_pool i f h.smalls (keep netbuf_small_size);
  larges = h.larges;
}
set_buf-IsPools (BufPtr.large i) f p h keep = record {
  smalls = h.smalls;
  larges = All-modify (IsBuf netbuf_large_size) p.large_pool i f h.larges (keep netbuf_large_size);
}

claim-IsBuf : (c : ℕ) (b : Netbuf) → IsBuf c b → IsBuf c (claim b)
claim-IsBuf c b h = record { sized = h.sized; owned = refl }

-- How an allocation of `min_size` bytes ends: the large pool has no free buffer and nothing changes,
-- or a buffer that was free is in use, with one reference and no contents, and the pools are well
-- formed again. It has room for the size, but never for more than 2048 bytes.
pub data Allocs (min_size : ℕ) (p : Pools) : Option BufPtr × Pools → Type 0 where
  full : free_in p.large_pool ≡ none → Allocs min_size p (none, p)
  taken :
      (b : BufPtr) (p' : Pools)
      → (buf b p).in_use ≡ false
      → buf b p' ≡ claim (buf b p)
      → min min_size netbuf_large_size ≤ (buf b p').capacity
      → IsPools p'
      → Allocs min_size p (some b, p')

free_at :
    (pool : List Netbuf) (i : ℕ)
    → free_in pool ≡ some i
    → (i < length pool) × ((get_or pool i zero_netbuf).in_use ≡ false)
free_at pool i e =
    let (lo, hi, hit) = find_from-some (λ (b : Netbuf). not b.in_use) 0 pool i zero_netbuf e in
    let at_i : i - 0 ≡ i = omega arith in
    let free = rw at_i at hit in (omega arith, ground (arith, free))

module _ (p : Pools) (h : IsPools p) (min_size : ℕ) where
  claim_large-Allocs :
      (o : Option ℕ) → free_in p.large_pool ≡ o → Allocs min_size p (claim_large o p)
  unfolding claim_large
  claim_large-Allocs none e = Allocs.full e
  claim_large-Allocs (some i) e =
      let (inside, free) = free_at p.large_pool i e in
      let same = get_or-modify_self p.large_pool i claim zero_netbuf inside in
      let sized =
        (All-inside (IsBuf netbuf_large_size) p.large_pool i zero_netbuf h.larges inside).sized in
      Allocs.taken (BufPtr.large i) _ free same
        (omega (arith, ap (λ (b : Netbuf). b.capacity) same, sized))
        (set_buf-IsPools (BufPtr.large i) claim p h claim-IsBuf)

  claim_small-Allocs :
      (o : Option ℕ)
      → free_in p.small_pool ≡ o
      → min_size ≤ netbuf_small_size
      → Allocs min_size p (claim_small o p)
  unfolding claim_small
  claim_small-Allocs none e fits = claim_large-Allocs (free_in p.large_pool) refl
  claim_small-Allocs (some i) e fits =
      let (inside, free) = free_at p.small_pool i e in
      let same = get_or-modify_self p.small_pool i claim zero_netbuf inside in
      let sized =
        (All-inside (IsBuf netbuf_small_size) p.small_pool i zero_netbuf h.smalls inside).sized in
      Allocs.taken (BufPtr.small i) _ free same
        (omega (arith, ap (λ (b : Netbuf). b.capacity) same, sized))
        (set_buf-IsPools (BufPtr.small i) claim p h claim-IsBuf)

  -- An allocation on well-formed pools ends in one of these ways; a size of at most 256 is looked
  -- for in the small pool first.
  pub alloc_size-Allocs : Allocs min_size p (netbuf_alloc_size min_size p)
  unfolding netbuf_alloc_size
  alloc_size-Allocs = elim (Bool-cases (ltb netbuf_small_size min_size)) [
    | inl big ↦ rw big (claim_large-Allocs (free_in p.large_pool) refl)
    | inr fits ↦ rw fits (claim_small-Allocs (free_in p.small_pool) refl (ltb→le _ _ fits))
  ]
