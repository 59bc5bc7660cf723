-- ===== src/Kheap.antt =====
-- kernel/memory/kheap.c: the kernel's free-list allocator. A pointer is an address or none. The
-- headers are a function from addresses to `struct kheap_block`; the bytes of the blocks, which
-- their owners write, are not part of the state, and neither are the page mappings of `kheap_init`.
pub mod Layout
pub mod Walk
pub mod Split
pub mod Carve
pub mod Fit
pub mod Insert
pub mod Join
pub mod Blocks
pub mod Merged
pub mod Calls
pub mod Steps
mod Tests
use hobbyos.Base.{
  ℕ, zero, suc, ◌+◌, ◌-◌, ◌*◌, ◌/◌, ◌%◌, ◌^◌, Bool, true, false, ◌&&◌, Option, none, some, ltb, leb,
  ◌==◌, not, if◌then◌else◌, is_some,
}
use hobbyos.Process.{page_size}

abbrev pub block_magic_alloc : ℕ
block_magic_alloc = 0xDEADBEEF

abbrev pub block_magic_free : ℕ
block_magic_free = 0xFBEEBEEF

abbrev pub block_hdr_size : ℕ
block_hdr_size = 24

abbrev pub min_block_size : ℕ
min_block_size = 16

abbrev pub kheap_start : ℕ
kheap_start = 0xFFFFFFFF90000000

abbrev pub kheap_size : ℕ
kheap_size = 4 * 1024 * 1024

abbrev pub Ptr : Type 0
Ptr = Option ℕ

-- `struct kheap_block`, the header in front of a block.
pub record Block : Type 0 where
  pub size : ℕ
  pub next : Ptr
  pub magic : ℕ

-- The static variables, and the headers in the heap's memory.
pub record Kheap : Type 0 where
  pub cell : ℕ → Block
  pub free_list : Ptr
  pub heap_start : ℕ
  pub heap_end : ℕ

-- `*a = b`.
abbrev pub put : ℕ → Block → Kheap → Kheap
put a b h = record h { cell = λ x. if x == a then b else h.cell x }

-- `a->next = p`.
abbrev pub set_next : ℕ → Ptr → Kheap → Kheap
set_next a p h = put a (record (h.cell a) { next = p }) h

-- `if (prev) prev->next = p; else free_list = p;`
abbrev pub link : Ptr → Ptr → Kheap → Kheap
link none p h = record h { free_list = p }
link (some a) p h = set_next a p h

-- `kheap_init` after its loop, with the pages that could be mapped: one free block.
unfoldable pub kheap_init : ℕ → (ℕ → Block) → Kheap
kheap_init pages memory =
    let end = kheap_start + pages * page_size in
    put kheap_start
      (record { size = end - kheap_start - block_hdr_size; next = none; magic = block_magic_free })
      (record {
        cell = memory;
        free_list = some kheap_start;
        heap_start = kheap_start;
        heap_end = end;
      })

-- The body of a search at a free block: the returned address and the heap, or none to go on.
abbrev pub Visit : Type 0
Visit = Ptr → ℕ → Kheap → Option (ℕ × Kheap)

-- `while (cur)`, with the rounds that are left: none when they do not suffice, which a cyclic list
-- would make happen. A block that is not marked as free ends the search without a result.
unfoldable pub walk : Visit → ℕ → Ptr → Ptr → Kheap → Option (Ptr × Kheap)
walk visit zero prev cur h = none
walk visit (suc left) prev none h = some (none, h)
walk visit (suc left) prev (some a) h =
    let rest = walk visit left (some a) (h.cell a).next h in
    if not ((h.cell a).magic == block_magic_free)
    then some (none, h)
    else elim (visit prev a h) [ none ↦ rest | some (ptr, h') ↦ some (some ptr, h') ]

-- A list of the heap's blocks is not longer.
abbrev pub free_rounds : Kheap → ℕ
free_rounds h = (h.heap_end - h.heap_start) / block_hdr_size + 2

-- `cur->size >= size + BLOCK_HDR_SIZE + MIN_BLOCK_SIZE`
abbrev pub splits : ℕ → ℕ → Bool
splits size whole = leb ((size + block_hdr_size + min_block_size) % 2 ^ 64) whole

-- The first `size` bytes of the free block at `a` become allocated, the others a free block.
unfoldable pub split_block : ℕ → Ptr → ℕ → Kheap → Kheap
split_block size prev a h =
    let b = h.cell a in
    let new_free = a + block_hdr_size + size in
    link prev (some new_free) (
      put a (record { size = size; next = none; magic = block_magic_alloc })
        (put new_free
          (record {
            size = b.size - size - block_hdr_size;
            next = b.next;
            magic = block_magic_free;
          })
          h))

-- The whole free block at `a` becomes allocated.
unfoldable pub take_block : Ptr → ℕ → Kheap → Kheap
take_block prev a h =
    let b = h.cell a in
    set_next a none (link prev b.next (put a (record b { magic = block_magic_alloc }) h))

unfoldable pub kmalloc_visit : ℕ → Visit
unfolding split_block take_block
kmalloc_visit size prev a h =
    if not (leb size (h.cell a).size)
    then none
    else if splits size (h.cell a).size
    then some (a + block_hdr_size, split_block size prev a h)
    else some (a + block_hdr_size, take_block prev a h)

-- `(size + 15) & ~15ULL`
abbrev pub round_16 : ℕ → ℕ
round_16 size = (size + 15) % 2 ^ 64 / 16 * 16

unfoldable pub kmalloc : ℕ → Kheap → Option (Ptr × Kheap)
unfolding walk kmalloc_visit
kmalloc size h =
    if size == 0
    then some (none, h)
    else walk (kmalloc_visit (round_16 size)) (free_rounds h) none h.free_list h

-- `(x + PAGE_SIZE - 1) & ~(PAGE_SIZE - 1)`
abbrev pub round_page : ℕ → ℕ
round_page x = (x + page_size - 1) % 2 ^ 64 / page_size * page_size

-- The first page boundary in the block whose distance from the block's start is 0 or leaves room
-- for a free block.
unfoldable pub aligned_in : ℕ → ℕ
aligned_in data_start =
    let aligned = round_page data_start in
    let waste = aligned - data_start in
    if not (waste == 0) && ltb waste (block_hdr_size + min_block_size)
    then aligned + page_size
    else aligned

-- A free block keeps the `waste` bytes in front of the aligned one, and what is left behind it
-- becomes a free block if there is room for one.
unfoldable pub carve : ℕ → ℕ → ℕ → Kheap → Kheap
carve size waste a h =
    let b = h.cell a in
    let aligned_block = a + waste in
    let remaining = (b.size + 2 * 2 ^ 64 - waste - size) % 2 ^ 64 in
    let tail_free = aligned_block + block_hdr_size + size in
    let first : Block = record b { size = waste - block_hdr_size } in
    let taken : Block = record { size = size; next = none; magic = block_magic_alloc } in
    if leb (block_hdr_size + min_block_size) remaining
    then set_next a (some tail_free) (
        put tail_free
          (record { size = remaining - block_hdr_size; next = b.next; magic = block_magic_free })
          (put a first (put aligned_block taken h)))
    else put aligned_block (record taken { size = size + remaining })
        (put a first (put aligned_block taken h))

unfoldable pub aligned_visit : ℕ → Visit
unfolding split_block take_block carve
aligned_visit size prev a h =
    let b = h.cell a in
    let data_start = a + block_hdr_size in
    let aligned = aligned_in data_start in
    let waste = aligned - data_start in
    if waste == 0 && leb size b.size
    then some
        (data_start, if splits size b.size then split_block size prev a h else take_block prev a h)
    else if leb (block_hdr_size + min_block_size) waste && leb ((waste + size) % 2 ^ 64) b.size
    then some (aligned, carve size waste a h)
    else none

unfoldable pub kmalloc_page_aligned : ℕ → Kheap → Option (Ptr × Kheap)
unfolding walk aligned_visit
kmalloc_page_aligned size h =
    if size == 0
    then some (none, h)
    else walk (aligned_visit (round_page size)) (free_rounds h) none h.free_list h

-- `while (cur && cur < block)`, with the rounds that are left: the neighbours in the free list.
unfoldable pub neighbours : ℕ → ℕ → Ptr → Ptr → Kheap → Option (Ptr × Ptr)
neighbours block zero prev cur h = none
neighbours block (suc left) prev none h = some (prev, none)
neighbours block (suc left) prev (some a) h =
    let rest = neighbours block left (some a) (h.cell a).next h in
    if ltb a block then rest else some (prev, some a)

-- The block that starts where the free block at `a` ends joins it.
abbrev pub join : ℕ → ℕ → Kheap → Kheap
join a b h =
    put a
      (record (h.cell a) {
        size = (h.cell a).size + block_hdr_size + (h.cell b).size;
        next = (h.cell b).next;
      })
      h

unfoldable pub coalesce_next : ℕ → Kheap → Kheap
coalesce_next block h = elim ((h.cell block).next) [
  | none ↦ h
  | some n ↦ if block + block_hdr_size + (h.cell block).size == n then join block n h else h
]

unfoldable pub coalesce_prev : Ptr → ℕ → Kheap → Kheap
coalesce_prev none block h = h
coalesce_prev (some q) block h =
    if (h.cell q).magic == block_magic_free && q + block_hdr_size + (h.cell q).size == block
    then join q block h
    else h

-- `block->next = cur;` and the link to the block.
abbrev pub insert_free : Ptr → Ptr → ℕ → Kheap → Kheap
insert_free prev cur block h = link prev (some block) (set_next block cur h)

-- `block->magic = BLOCK_MAGIC_FREE`
abbrev pub mark_free : ℕ → Kheap → Kheap
mark_free block h = put block (record (h.cell block) { magic = block_magic_free }) h

-- From `block->next = cur;` to the end, between the neighbours in the free list.
unfoldable pub place_free : Option (Ptr × Ptr) → ℕ → Kheap → Option Kheap
place_free none block h = none
place_free (some (prev, cur)) block h =
    some (coalesce_prev prev block (coalesce_next block (insert_free prev cur block h)))

unfoldable pub kfree : Ptr → Kheap → Option Kheap
kfree none h = some h
kfree (some ptr) h =
    let block = ptr - block_hdr_size in
    if not ((h.cell block).magic == block_magic_alloc)
    then some h
    else let h' = mark_free block h in
      place_free (neighbours block (free_rounds h) none h.free_list h') block h'
