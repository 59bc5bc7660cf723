-- ===== src/Netbuf/Share.antt =====
-- References to a buffer, and sequences of calls on the pools.
use hobbyos.Base.{
  ℕ, ◌+◌, ◌≡◌, refl, ap, ◌∙◌, true, Option, some, ltb, get_or, modify-modify, modify_self,
  All-inside, All-modify_at, ◌<◌, All-replicate, arith, Bool-cases, inl, inr,
}
use hobbyos.Netbuf.{
  new_small, new_large, Netbuf, Pools, BufPtr, buf, zero_netbuf, netbuf_init, netbuf_small_size,
  netbuf_large_size, netbuf_small_count, netbuf_large_count, netbuf_alloc_size, netbuf_ref,
  netbuf_free, ref_one, free_one,
}
use hobbyos.Netbuf.Alloc.{IsBuf, IsPools, Allocs, set_buf-IsPools, alloc_size-Allocs}

free_one-IsBuf : (c : ℕ) (b : Netbuf) → IsBuf c b → IsBuf c (free_one b)
free_one-IsBuf c b h = elim (Bool-cases (ltb 1 b.refcount)) [
  | inl more ↦ rw more (record { sized = h.sized; owned = ground (arith, more, h.owned) })
  | inr last ↦ rw last (record { sized = h.sized; owned = refl })
]

ref_one-IsBuf : (c : ℕ) (b : Netbuf) → IsBuf c b → b.in_use ≡ true → IsBuf c (ref_one b)
ref_one-IsBuf c b h used = elim (Bool-cases (ltb b.refcount 255)) [
  | inl room ↦ rw room (record { sized = h.sized; owned = ground (arith, used) })
  | inr full ↦ rw full h
]

-- A new reference of a buffer that is in use.
ref-IsPools :
    (b : BufPtr) (p : Pools) → IsPools p → (buf b p).in_use ≡ true → IsPools (netbuf_ref (some b) p)
unfolding netbuf_ref
ref-IsPools (BufPtr.small i) p h used = record {
  smalls = All-modify_at (IsBuf netbuf_small_size) p.small_pool i ref_one zero_netbuf h.smalls (λ l.
      ref_one-IsBuf netbuf_small_size (get_or p.small_pool i zero_netbuf)
        (All-inside (IsBuf netbuf_small_size) p.small_pool i zero_netbuf h.smalls l) used);
  larges = h.larges;
}
ref-IsPools (BufPtr.large i) p h used = record {
  smalls = h.smalls;
  larges = All-modify_at (IsBuf netbuf_large_size) p.large_pool i ref_one zero_netbuf h.larges (λ l.
      ref_one-IsBuf netbuf_large_size (get_or p.large_pool i zero_netbuf)
        (All-inside (IsBuf netbuf_large_size) p.large_pool i zero_netbuf h.larges l) used);
}

after_alloc :
    (size : ℕ) (p : Pools) (r : Option BufPtr × Pools) → IsPools p → Allocs size p r → IsPools r.1
after_alloc size p r h (Allocs.full e) = h
after_alloc size p r h (Allocs.taken b p' free same room h') = h'

-- What leads from the initialised pools to others; only a buffer in use is shared.
pub data PoolSteps : Pools → Type 0 where
  init : PoolSteps netbuf_init
  allocs : (size : ℕ) (p : Pools) → PoolSteps p → PoolSteps (netbuf_alloc_size size p).1
  refs :
      (b : BufPtr) (p : Pools)
      → (buf b p).in_use ≡ true
      → PoolSteps p
      → PoolSteps (netbuf_ref (some b) p)
  frees : (b : BufPtr) (p : Pools) → PoolSteps p → PoolSteps (netbuf_free (some b) p)

-- After any allocations, frees and new references of buffers in use, a buffer of each pool has the
-- pool's capacity, and is in use exactly while it has a reference.
pub steps-IsPools : (p : Pools) → PoolSteps p → IsPools p
unfolding netbuf_init netbuf_free zero_netbuf
steps-IsPools _ PoolSteps.init = record {
  smalls =
      All-replicate (IsBuf netbuf_small_size) netbuf_small_count new_small
        (record { sized = refl; owned = refl });
  larges =
      All-replicate (IsBuf netbuf_large_size) netbuf_large_count new_large
        (record { sized = refl; owned = refl });
}
steps-IsPools _ (PoolSteps.allocs size p s) =
    let h = steps-IsPools p s in after_alloc size p _ h (alloc_size-Allocs p h size)
steps-IsPools _ (PoolSteps.refs b p used s) = ref-IsPools b p (steps-IsPools p s) used
steps-IsPools _ (PoolSteps.frees b p s) =
    set_buf-IsPools b free_one p (steps-IsPools p s) free_one-IsBuf

undo : (b : Netbuf) → 0 < b.refcount → b.refcount < 255 → free_one (ref_one b) ≡ b
undo b some_ref room =
    let can : ltb b.refcount 255 ≡ true = ground (arith, room) in
    let more : ltb 1 (b.refcount + 1) ≡ true = ground (arith, some_ref) in
    rw (can, more) (ap (λ r. record b { refcount = r }) (omega arith))

-- A reference that is taken and given back leaves the pools as they were, if the buffer had one
-- before and the count is not at its limit of 255.
pub free-ref :
    (b : BufPtr) (p : Pools)
    → 0 < (buf b p).refcount
    → (buf b p).refcount < 255
    → netbuf_free (some b) (netbuf_ref (some b) p) ≡ p
unfolding netbuf_free netbuf_ref
free-ref (BufPtr.small i) p some_ref room =
    ap (λ t. record p { small_pool = t })
      (modify-modify p.small_pool i ref_one free_one
        ∙ modify_self p.small_pool i (λ b. free_one (ref_one b)) zero_netbuf (undo _ some_ref room))
free-ref (BufPtr.large i) p some_ref room =
    ap (λ t. record p { large_pool = t })
      (modify-modify p.large_pool i ref_one free_one
        ∙ modify_self p.large_pool i (λ b. free_one (ref_one b)) zero_netbuf (undo _ some_ref room))
