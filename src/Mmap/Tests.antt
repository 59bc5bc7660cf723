-- ===== src/Mmap/Tests.antt =====
-- A process with two mapped regions, and the theorems at it.
use hobbyos.Base.{
  ℕ, ◌+◌, ◌-◌, ◌*◌, ◌/◌, ◌≤◌, ◌≡◌, ◌⊎◌, inl, inr, refl, true, none, some, ◌∷◌, replicate, arith,
  find_from, All, All-replicate,
}
use hobbyos.Process.{Process, Vma, zero_vma, zero_process, page_size, mmap_base}
use hobbyos.Mmap.{
  MmapArgs, mmap_top, syscall_mmap, vma_find_free_range, vma_find, vma_alloc, map_failed,
  search_base, page_down,
}
use hobbyos.Mmap.Range.{IsLow, Lowest, find_free_range-Lowest}
use hobbyos.Mmap.Map.{Maps, SameRegions, syscall_mmap-Maps}
use hobbyos.Mmap.Fixed.{fixed_shadowed}

abbrev region : ℕ → ℕ → Vma
region start end = record zero_vma { start = start; end = end; in_use = true }

abbrev mapped : Process
unfolding zero_process
mapped = record zero_process {
  is_user = true;
  vmas = region 0x10000000 0x10002000 ∷ region 0x10003000 0x10004000 ∷ replicate 30 zero_vma;
  mmap_next = 0x10000000;
}

abbrev any_args : MmapArgs
any_args = record { addr = 0; len = 5000; prot = 3; flags = 0x22; fd = 0; offset = 0 }

abbrev fixed_args : MmapArgs
fixed_args = record { addr = 0x10003000; len = 4096; prot = 3; flags = 0x32; fd = 0; offset = 0 }

mapped-IsLow : All IsLow mapped.vmas
unfolding mapped
mapped-IsLow = (inr (omega arith), (inr (omega arith), All-replicate IsLow 30 zero_vma (inl refl)))

find_free_range-Lowest_example :
    (r : ℕ) × (vma_find_free_range mapped 0 8192 ≡ some r)
    × Lowest (search_base mapped 0) 8192 mapped.vmas r
unfolding mapped
find_free_range-Lowest_example =
    find_free_range-Lowest mapped 0 8192 (omega arith) (omega arith) mapped-IsLow

-- 8192 bytes do not fit between the two regions.
free_range : vma_find_free_range mapped 0 8192 ≡ some 0x10004000
unfolding vma_find_free_range mapped
free_range = refl

syscall_mmap-Maps_example :
    (ret : ℕ) × (proc' : Process) × (syscall_mmap none 4096 any_args mapped ≡ some (ret, proc'))
    × (((ret ≡ map_failed) × SameRegions mapped proc')
        ⊎ ((mmap_base ≤ ret)
            × (ret + (5000 + (page_size - 1)) / page_size * page_size ≤ mmap_top)
            × Maps ret ((5000 + (page_size - 1)) / page_size * page_size) mapped proc'))
unfolding mapped
syscall_mmap-Maps_example =
    syscall_mmap-Maps none 4096 any_args mapped refl (omega arith) (omega arith) refl (omega arith)
      (omega arith) (omega arith) mapped-IsLow

fixed_shadowed_example :
    (proc' : Process) × (syscall_mmap none 4096 fixed_args mapped
      ≡ some (page_down 0x10003000, proc'))
    × (vma_find proc' 0x10003000 ≡ some 1)
unfolding mapped vma_find vma_alloc find_from
fixed_shadowed_example =
    fixed_shadowed none 4096 fixed_args mapped 2 1 refl (omega arith) (omega arith) refl refl refl
      refl (omega arith)
