-- ===== src/Swap/Reverse.antt =====
-- The reverse map is a map from pages.
use hobbyos.Base.{
  ℕ, ◌/◌, ◌<◌, ◌≡◌, refl, ap, ◌∙◌, true, false, ◌&&◌, not, Option, none, some, List, ltb, ◌==◌,
  if◌then◌else◌, length, set, get_or-set, arith, Bool-cases, inl, inr,
}
use hobbyos.Process.{page_size}
use hobbyos.Swap.{RmapEntry, no_entry, rmap_set, rmap_clear, rmap_get, rmap_max_pages}

module _ (phys other : ℕ) (table : List RmapEntry) (size : length table ≡ rmap_max_pages)
    (inside : phys / page_size < rmap_max_pages) where
  here : ltb (phys / page_size) rmap_max_pages ≡ true
  here = ground (arith, inside)

  -- What a lookup finds of a table with one entry written.
  written :
      (e : RmapEntry)
      → rmap_get other (set table (phys / page_size) e) ≡ (
          if other / page_size == phys / page_size
          then if not (e.pid == 0) then some e else none
          else rmap_get other table)
  unfolding rmap_get
  written e =
      let i = phys / page_size in
      let o = other / page_size in
      let look : RmapEntry → Option RmapEntry =
        λ x. if ltb o rmap_max_pages && not (x.pid == 0) then some x else none in
      let found = ap look (get_or-set table i o e no_entry (rw size inside)) in
      elim (Bool-cases (o == i)) [
        | inl same ↦
            (let back : (i == o) ≡ true = ground (arith, same) in
              let low : ltb o rmap_max_pages ≡ true = ground (arith, same, inside) in
              found ∙ rw (back, same, low) refl)
        | inr differs ↦
            (let back : (i == o) ≡ false = ground (arith, differs) in
              found ∙ rw (back, differs) refl)
      ]

  -- A lookup after a mapping is set finds it at every address of its page, one after it is cleared
  -- finds none there, and the other pages are as they were.
  pub rmap_get-set :
      (pid virt : ℕ)
      → (pid == 0) ≡ false
      → (let same = other / page_size == phys / page_size in
          (rmap_get other (rmap_set phys pid virt table) ≡ (
            if same then some (record { pid = pid; virt_addr = virt }) else rmap_get other table))
          × (rmap_get other (rmap_clear phys table)
              ≡ (if same then none else rmap_get other table)))
  unfolding rmap_set rmap_clear
  rmap_get-set pid virt nonzero = rw here (
    written (record { pid = pid; virt_addr = virt })
        ∙ ap
            (λ b.
              if other / page_size == phys / page_size
              then if not b then some (record { pid = pid; virt_addr = virt }) else none
              else rmap_get other table)
            nonzero,
    written no_entry,
  )
