-- ===== src/Pmm/Inv.antt =====
-- The invariant of the page allocator.
use hobbyos.Base.{
  ℕ, ◌+◌, ◌*◌, ◌/◌, ◌≤◌, ◌<◌, ◌≡◌, ◌≢◌, true, false, arith, length, set, length-set, get_or-set,
  subst, ◌∙◌,
}
use hobbyos.Pmm.{Pmm, bitmap_set, bitmap_clear, bitmap_test, refcount_at, claim}
use hobbyos.Pmm.Bitmap.{
  Bytes, bitmap_test-set, bitmap_test-clear, bitmap_set-Bytes, bitmap_clear-Bytes,
  length-bitmap_set, length-bitmap_clear,
}
use hobbyos.Pmm.Count.{free_below, free_below_taken, free_below_given}

-- The bitmap covers the pages, `free_pages` is the number of clear bits, and a free page has no
-- reference.
pub record Counted (p : Pmm) : Type 0 where
  pub bytes : Bytes p.bitmap
  pub size : p.total_pages ≤ 8 * length p.bitmap
  pub counts : length p.page_refcount ≡ p.total_pages
  pub free : p.free_pages ≡ free_below (bitmap_test p.bitmap) p.total_pages
  pub unowned : (q : ℕ) → q < p.total_pages → bitmap_test p.bitmap q ≡ false → refcount_at p q ≡ 0

module _ (p : Pmm) (c : Counted p) (i : ℕ) (inside : i < p.total_pages) where
  in_bitmap : i / 8 < length p.bitmap
  in_bitmap = omega (arith, c.size)

  -- A page that is claimed was free, and `free_pages` falls by one.
  pub claim-Counted : bitmap_test p.bitmap i ≡ false → Counted (claim p i).1
  claim-Counted free =
      let used' = bitmap_test-set p.bitmap i c.bytes in_bitmap in
      let fell =
        free_below_taken (bitmap_test p.bitmap) (bitmap_test (bitmap_set i p.bitmap)) i used' free
          p.total_pages in
      record {
        bytes = bitmap_set-Bytes p.bitmap i c.bytes in_bitmap;
        size = rw length-bitmap_set c.size;
        counts = length-set p.page_refcount i 1 ∙ c.counts;
        free = ground (arith, fell, c.free);
        unowned = λ q lt clear. ground (
          arith,
          used' q,
          c.unowned q lt,
          get_or-set p.page_refcount i q 1 0 (rw c.counts inside),
        );
      }

  abbrev pub give : ℕ → Pmm
  give count = record p {
    bitmap = bitmap_clear i p.bitmap;
    free_pages = p.free_pages + 1;
    page_refcount = set p.page_refcount i count;
  }

  -- A page that is given back was used, and `free_pages` grows by one.
  pub give-Counted : bitmap_test p.bitmap i ≡ true → Counted (give 0)
  give-Counted taken =
      let used' = bitmap_test-clear p.bitmap i c.bytes in_bitmap in
      let grew =
        free_below_given (bitmap_test p.bitmap) (bitmap_test (bitmap_clear i p.bitmap)) i used'
          taken p.total_pages in
      record {
        bytes = bitmap_clear-Bytes p.bitmap i c.bytes in_bitmap;
        size = rw length-bitmap_clear c.size;
        counts = length-set p.page_refcount i 0 ∙ c.counts;
        free = ground (arith, grew, c.free);
        unowned = λ q lt clear. ground (
          arith,
          used' q,
          c.unowned q lt,
          get_or-set p.page_refcount i q 0 0 (rw c.counts inside),
        );
      }

  -- A reference count of a used page may change.
  pub recount-Counted :
      (count : ℕ)
      → bitmap_test p.bitmap i ≡ true
      → Counted (record p { page_refcount = set p.page_refcount i count })
  recount-Counted count taken = record {
    bytes = c.bytes;
    size = c.size;
    counts = length-set p.page_refcount i count ∙ c.counts;
    free = c.free;
    unowned = λ q lt clear.
        let ne : i ≢ q = λ e. ground (arith, subst (λ k. bitmap_test p.bitmap k ≡ true) e taken) in
        ground (arith, c.unowned q lt, get_or-set p.page_refcount i q count 0 (rw c.counts inside));
  }
