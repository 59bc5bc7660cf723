-- ===== src/Pmm.antt =====
-- kernel/memory/pmm.c: the physical page allocator, a bitmap with next-fit and a reference count for
-- each page. The eviction to swap that `pmm_alloc_page` tries first, when few pages are free, is not
-- part of it.
pub mod Bitmap
pub mod Count
pub mod Inv
pub mod Alloc
pub mod Release
pub mod Steps
mod Tests
use hobbyos.Base.{
  ℕ, zero, suc, ◌+◌, ◌-◌, ◌*◌, ◌/◌, ◌%◌, Bool, ◌&&◌, List, ltb, ◌==◌, not, if◌then◌else◌, get_or,
  set, modify,
}
use hobbyos.Base.Bytes.{bit_set, bit_clear, bit_test}
use hobbyos.Process.{page_size}

-- The static variables; `bitmap_size` and `max_phys_addr` are used by `pmm_init` alone.
pub record Pmm : Type 0 where
  pub bitmap : List ℕ
  pub total_pages : ℕ
  pub free_pages : ℕ
  pub alloc_hint : ℕ
  pub page_refcount : List ℕ
  pub kernel_page_limit : ℕ

unfoldable pub bitmap_set : ℕ → List ℕ → List ℕ
bitmap_set page bitmap = modify bitmap (page / 8) (λ b. bit_set b (page % 8))

unfoldable pub bitmap_clear : ℕ → List ℕ → List ℕ
bitmap_clear page bitmap = modify bitmap (page / 8) (λ b. bit_clear b (page % 8))

unfoldable pub bitmap_test : List ℕ → ℕ → Bool
bitmap_test bitmap page = bit_test (get_or bitmap (page / 8) 0) (page % 8)

abbrev pub refcount_at : Pmm → ℕ → ℕ
refcount_at p page = get_or p.page_refcount page 0

-- The body of the scan where it finds a free page.
abbrev pub claim : Pmm → ℕ → ℕ × Pmm
claim p i = (
  i * page_size,
  record p {
    bitmap = bitmap_set i p.bitmap;
    free_pages = p.free_pages - 1;
    page_refcount = set p.page_refcount i 1;
    alloc_hint = i + 1;
  },
)

-- `for (j = ..; j < total_pages; j++)`, with the rounds that are left.
unfoldable pub scan : ℕ → ℕ → Pmm → ℕ × Pmm
scan zero j p = (0, p)
scan (suc left) j p =
    let rest = scan left (j + 1) p in
    let i = (p.alloc_hint + j) % p.total_pages in
    if not (bitmap_test p.bitmap i) then claim p i else rest

-- `pmm_alloc_page` from the scan on: the physical address, or 0.
unfoldable pub take_page : Pmm → ℕ × Pmm
unfolding scan
take_page p = scan p.total_pages 0 p

-- `kernel_page_limit && page < kernel_page_limit`
abbrev pub is_kernel : Pmm → ℕ → Bool
is_kernel p page = not (p.kernel_page_limit == 0) && ltb page p.kernel_page_limit

unfoldable pub pmm_free_page : ℕ → Pmm → Pmm
pmm_free_page phys p =
    let page = phys / page_size in
    if ltb page p.total_pages && bitmap_test p.bitmap page
    then if is_kernel p page then p else record p {
      bitmap = bitmap_clear page p.bitmap;
      page_refcount = set p.page_refcount page 0;
      free_pages = p.free_pages + 1;
    }
    else p

unfoldable pub pmm_get_free_pages : Pmm → ℕ
pmm_get_free_pages p = p.free_pages

unfoldable pub pmm_get_total_pages : Pmm → ℕ
pmm_get_total_pages p = p.total_pages

-- The first free page from `i` on, with the rounds that are left.
unfoldable pub first_free : ℕ → ℕ → Pmm → ℕ
first_free zero i p = p.total_pages
first_free (suc left) i p =
    let rest = first_free left (i + 1) p in if not (bitmap_test p.bitmap i) then i else rest

unfoldable pub pmm_set_kernel_end : Pmm → Pmm
unfolding first_free
pmm_set_kernel_end p = record p { kernel_page_limit = first_free p.total_pages 0 p }

unfoldable pub pmm_page_ref : ℕ → Pmm → Pmm
pmm_page_ref phys p =
    let page = phys / page_size in
    if ltb page p.total_pages && ltb (refcount_at p page) 255
    then record p { page_refcount = set p.page_refcount page (refcount_at p page + 1) }
    else p

unfoldable pub pmm_page_unref : ℕ → Pmm → Pmm
pmm_page_unref phys p =
    let page = phys / page_size in
    if ltb page p.total_pages && ltb 0 (refcount_at p page)
    then (let left = refcount_at p page - 1 in
        let p' = record p { page_refcount = set p.page_refcount page left } in
        if left == 0
        then if is_kernel p page
          then p'
          else record p' { bitmap = bitmap_clear page p.bitmap; free_pages = p.free_pages + 1 }
        else p')
    else p

unfoldable pub pmm_page_refcount : ℕ → Pmm → ℕ
pmm_page_refcount phys p =
    let page = phys / page_size in if ltb page p.total_pages then refcount_at p page else 0
