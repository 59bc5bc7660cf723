-- ===== src/Pmm/Steps.antt =====
-- Sequences of calls of the page allocator.
use hobbyos.Base.{ℕ, ◌<◌}
use hobbyos.Pmm.{Pmm, take_page, pmm_free_page, pmm_page_ref, pmm_page_unref, pmm_page_refcount}
use hobbyos.Pmm.Inv.{Counted}
use hobbyos.Pmm.Alloc.{take_page-Counted}
use hobbyos.Pmm.Release.{free_page-Counted, unref-Counted, ref-Counted}

-- A page is shared only by an owner: `pmm_page_ref` is called on a page that has a reference.
pub data PmmSteps (p : Pmm) : Pmm → Type 0 where
  start : PmmSteps p p
  allocs : (q : Pmm) → PmmSteps p q → PmmSteps p (take_page q).1
  frees : (phys : ℕ) (q : Pmm) → PmmSteps p q → PmmSteps p (pmm_free_page phys q)
  unrefs : (phys : ℕ) (q : Pmm) → PmmSteps p q → PmmSteps p (pmm_page_unref phys q)
  refs :
      (phys : ℕ) (q : Pmm)
      → 0 < pmm_page_refcount phys q
      → PmmSteps p q
      → PmmSteps p (pmm_page_ref phys q)

-- From a counted state every sequence of allocations, frees and changes of references leads to a
-- counted one, when only pages with a reference are shared.
pub steps-Counted : (p q : Pmm) → Counted p → PmmSteps p q → Counted q
steps-Counted p _ c PmmSteps.start = c
steps-Counted p _ c (PmmSteps.allocs q s) = take_page-Counted q (steps-Counted p q c s)
steps-Counted p _ c (PmmSteps.frees phys q s) = free_page-Counted phys q (steps-Counted p q c s)
steps-Counted p _ c (PmmSteps.unrefs phys q s) = unref-Counted phys q (steps-Counted p q c s)
steps-Counted p _ c (PmmSteps.refs phys q h s) = ref-Counted phys q (steps-Counted p q c s) h
