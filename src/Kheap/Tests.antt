-- ===== src/Kheap/Tests.antt =====
-- A heap of one page and one of three blocks, and the theorems at them.
use hobbyos.Base.{
  ℕ, ◌+◌, ◌-◌, ◌*◌, ◌%◌, ◌≡◌, refl, Option, none, some, List, [], ◌∷◌, arith, ◌==◌, true, false,
  if◌then◌else◌,
}
use hobbyos.Process.{page_size}
use hobbyos.Kheap.{
  Kheap, Block, Ptr, kmalloc, kmalloc_page_aligned, kfree, neighbours, kheap_init,
  block_magic_alloc, block_magic_free, block_hdr_size, kheap_start, place_free, coalesce_next,
  coalesce_prev,
}
use hobbyos.Kheap.Layout.{Chunk, used, free, used_at}
use hobbyos.Kheap.Insert.{freed}
use hobbyos.Kheap.Join.{joined}
use hobbyos.Kheap.Calls.{
  IsHeap, Allocates, Allocated, kmalloc-Allocates, kmalloc_page_aligned-Allocates, kfree-Frees,
}
use hobbyos.Kheap.Steps.{HeapSteps, Holds, mark, steps-Holds, all_freed}

abbrev blank : ℕ → Block
blank x = record { size = 0; next = none; magic = 0 }

-- Blocks of 40, 32 and 20000 bytes, of which the second is allocated.
abbrev three : Kheap
three = record {
  cell = λ x.
      if x == 4096
      then record { size = 40; next = some 4216; magic = block_magic_free }
      else if x == 4160
      then record { size = 32; next = none; magic = block_magic_alloc }
      else record { size = 20000; next = none; magic = block_magic_free };
  free_list = some 4096;
  heap_start = 4096;
  heap_end = 24240;
}

abbrev three_blocks : List Chunk
three_blocks = free 40 ∷ used 32 ∷ free 20000 ∷ []

three-IsHeap : IsHeap three three_blocks
three-IsHeap = record {
  laid = (refl, refl, refl, (refl, refl, (refl, refl, refl, (refl, refl))));
  top = omega arith;
}

kmalloc-Allocates_example : Allocates 100 112 three three_blocks (kmalloc 100 three)
kmalloc-Allocates_example =
    kmalloc-Allocates 100 three three_blocks (omega arith) (omega arith) three-IsHeap

kmalloc_page_aligned-Allocates_example :
    (ptr : Ptr) × (r : Kheap) × (cs' : List Chunk) × (kmalloc_page_aligned 5000 three
      ≡ some (ptr, r))
    × Allocated 5000 16384 three three_blocks ptr r cs'
    × ((a : ℕ) → ptr ≡ some a → a % page_size ≡ 0)
kmalloc_page_aligned-Allocates_example =
    kmalloc_page_aligned-Allocates 5000 three three_blocks (omega arith) (omega arith) three-IsHeap

kfree-Frees_example :
    (r : Kheap) × (kfree (some 4184) three ≡ some r)
    × IsHeap r (joined 4160 4096 (freed 4160 4096 three_blocks))
    × (r.heap_start ≡ 4096)
    × (r.heap_end ≡ 24240)
    × ((t : ℕ)
        → used_at t 4096 (joined 4160 4096 (freed 4160 4096 three_blocks))
          ≡ (if t == 4160 then none else used_at t 4096 three_blocks))
unfolding used_at
kfree-Frees_example = kfree-Frees three three_blocks 4160 32 three-IsHeap refl

-- The three blocks become one.
freed_three : joined 4160 4096 (freed 4160 4096 three_blocks) ≡ free 20120 ∷ []
unfolding joined freed
freed_three = refl

abbrev heap_of : Option (Ptr × Kheap) → Kheap
heap_of none = three
heap_of (some (ptr, h)) = h

abbrev freed_heap : Option Kheap → Kheap
freed_heap none = three
freed_heap (some h) = h

abbrev page : Kheap
unfolding kheap_init
page = kheap_init 1 blank

abbrev first_ptr : ℕ
first_ptr = kheap_start + 24

abbrev page_taken : Kheap
unfolding kmalloc page
page_taken = heap_of (kmalloc 100 page)

abbrev page_freed : Kheap
unfolding kfree page_taken neighbours place_free coalesce_next coalesce_prev
page_freed = freed_heap (kfree (some first_ptr) page_taken)

takes_page : kmalloc 100 page ≡ some (some first_ptr, page_taken)
unfolding kmalloc page page_taken
takes_page = refl

frees_page : kfree (some first_ptr) page_taken ≡ some page_freed
unfolding kfree page_taken page_freed neighbours place_free coalesce_next coalesce_prev kmalloc page
frees_page = refl

page_steps : HeapSteps page page_taken (mark (some first_ptr) true (λ x. false))
page_steps =
    HeapSteps.kmallocs 100 (some first_ptr) page page_taken (λ x. false) HeapSteps.start
      (omega arith) (omega arith) takes_page

steps-Holds_example :
    (cs : List Chunk) × Holds 1 page_taken (mark (some first_ptr) true (λ x. false)) cs
unfolding page kheap_init
steps-Holds_example =
    steps-Holds 1 blank (omega arith) (omega arith) page_taken
      (mark (some first_ptr) true (λ x. false)) page_steps

all_freed_example : IsHeap page_freed (free (1 * page_size - block_hdr_size) ∷ [])
unfolding page kheap_init
all_freed_example =
    all_freed 1 blank (omega arith) (omega arith) page_freed
      (mark (some first_ptr) false (mark (some first_ptr) true (λ x. false)))
      (HeapSteps.kfrees first_ptr page_taken page_freed (mark (some first_ptr) true (λ x. false))
        page_steps refl frees_page)
      (λ x. ground arith)
