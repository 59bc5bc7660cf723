-- ===== src/Pmm/Tests.antt =====
-- Runs of the page allocator over eight pages, and the theorems at them: the pages 0 to 2 are the
-- kernel's, page 3 is shared by two owners, and page 4 has one.
use hobbyos.Base.{ℕ, zero, suc, ◌*◌, ◌<◌, ◌≡◌, refl, false, [], ◌∷◌, arith}
use hobbyos.Base.Bytes.{bit_test}
use hobbyos.Pmm.{
  Pmm, bitmap_test, refcount_at, take_page, pmm_page_ref, pmm_page_unref, pmm_page_refcount,
  pmm_set_kernel_end,
}
use hobbyos.Pmm.Count.{free_below}
use hobbyos.Pmm.Inv.{Counted}
use hobbyos.Pmm.Steps.{PmmSteps, steps-Counted}

abbrev pages : Pmm
pages = record {
  bitmap = 0x1f ∷ [];
  total_pages = 8;
  free_pages = 3;
  alloc_hint = 7;
  page_refcount = 1 ∷ 1 ∷ 1 ∷ 2 ∷ 1 ∷ 0 ∷ 0 ∷ 0 ∷ [];
  kernel_page_limit = 3;
}

pages-Counted : Counted pages
unfolding free_below bitmap_test bit_test
pages-Counted = record {
  bytes = omega arith;
  size = omega arith;
  counts = refl;
  free = refl;
  unowned = unowned;
}
  where
    unowned : (q : ℕ) → q < 8 → bitmap_test pages.bitmap q ≡ false → refcount_at pages q ≡ 0
    unowned zero lt free = cc
    unowned (suc zero) lt free = cc
    unowned (suc (suc zero)) lt free = cc
    unowned (suc (suc (suc zero))) lt free = cc
    unowned (suc (suc (suc (suc zero)))) lt free = cc
    unowned (suc (suc (suc (suc (suc zero))))) lt free = refl
    unowned (suc (suc (suc (suc (suc (suc zero)))))) lt free = refl
    unowned (suc (suc (suc (suc (suc (suc (suc zero))))))) lt free = refl
    unowned (suc (suc (suc (suc (suc (suc (suc (suc q)))))))) lt free = refl

-- The scan starts at the hint, and goes round.
goes_round :
    ((take_page pages).0 ≡ 7 * 4096)
    × ((take_page (record pages { alloc_hint = 8 })).0 ≡ 5 * 4096)
    × ((pmm_set_kernel_end pages).kernel_page_limit ≡ 5)
unfolding take_page bitmap_test bit_test pmm_set_kernel_end
goes_round = (refl, refl, refl)

steps-Counted_example : Counted (pmm_page_unref 0x3000 (pmm_page_ref 0x3000 (take_page pages).1))
unfolding take_page bitmap_test bit_test pmm_page_refcount
steps-Counted_example =
    steps-Counted pages (pmm_page_unref 0x3000 (pmm_page_ref 0x3000 (take_page pages).1))
      pages-Counted
      (PmmSteps.unrefs 0x3000 _
        (PmmSteps.refs 0x3000 _ (omega arith) (PmmSteps.allocs pages PmmSteps.start)))
