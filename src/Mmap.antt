-- ===== src/Mmap.antt =====
-- kernel/memory/mmap.c: the mapped regions of a process, and `syscall_mmap` of
-- kernel/syscall/syscall.c. A pointer into `vmas` is an index. The framebuffer of drivers/fb.c is
-- its physical address, or none before it is initialised. What touches page tables (the handling of
-- a page fault, and the loops over pages of `vma_unmap` and `vma_protect`) is not part of it.
pub mod Range
pub mod Find
pub mod Map
pub mod Fixed
mod Tests
use hobbyos.Base.{
  ℕ, zero, suc, ◌+◌, ◌-◌, ◌*◌, ◌/◌, ◌%◌, ◌^◌, Bool, true, false, ◌&&◌, ◌||◌, Option, none, some,
  List, [], ◌∷◌, ltb, leb, ◌==◌, not, if◌then◌else◌, get_or, set, length, find_index,
}
use hobbyos.Base.Words.{flag}
use hobbyos.UserAccess.{kernel_vma}
use hobbyos.Process.{
  Process, ProcessFd, Vma, zero_vma, zero_fd, page_size, mmap_base, process_max_fds,
}

abbrev pub mmap_top : ℕ
mmap_top = 0x7FC0000000

abbrev pub vma_anon : ℕ
vma_anon = 0

abbrev pub vma_file : ℕ
vma_file = 1

abbrev pub vma_device : ℕ
vma_device = 2

abbrev pub vma_elf : ℕ
vma_elf = 3

abbrev pub fd_device : ℕ
fd_device = 5

abbrev pub fd_ext2 : ℕ
fd_ext2 = 6

-- The bits of MAP_FIXED and MAP_ANONYMOUS.
abbrev pub map_fixed : ℕ
map_fixed = 4

abbrev pub map_anonymous : ℕ
map_anonymous = 5

-- `(uint64_t)-1`
abbrev pub map_failed : ℕ
map_failed = 2 ^ 64 - 1

abbrev pub covers : ℕ → Vma → Bool
covers addr v = v.in_use && leb v.start addr && ltb addr v.end

unfoldable pub vma_find : Process → ℕ → Option ℕ
vma_find proc addr = find_index (covers addr) proc.vmas

unfoldable pub vma_alloc : Process → Option ℕ
vma_alloc proc = find_index (λ v. not v.in_use) proc.vmas

-- `(x + PAGE_SIZE - 1) & ~(PAGE_SIZE - 1)` and `x & ~(PAGE_SIZE - 1)`
abbrev pub page_up : ℕ → ℕ
page_up x = (x + page_size - 1) % 2 ^ 64 / page_size * page_size

abbrev pub page_down : ℕ → ℕ
page_down x = x / page_size * page_size

-- `v->in_use` and `base < e && base + len > s`
abbrev pub overlaps : ℕ → ℕ → Vma → Bool
overlaps base len v = v.in_use && ltb base v.end && ltb v.start ((base + len) % 2 ^ 64)

-- The loop over the regions: the end of the first that overlaps.
unfoldable pub first_overlap : ℕ → ℕ → List Vma → Option ℕ
first_overlap base len [] = none
first_overlap base len (v ∷ vs) =
    let rest = first_overlap base len vs in if overlaps base len v then some v.end else rest

-- `retry:` with the rounds that are left: none when they do not suffice.
unfoldable pub find_range : ℕ → ℕ → ℕ → List Vma → Option ℕ
find_range zero base len vmas = none
find_range (suc left) base len vmas =
    if ltb mmap_top ((base + len) % 2 ^ 64) then some 0 else elim (first_overlap base len vmas) [
      | none ↦ some base
      | some e ↦ find_range left e len vmas
    ]

-- Where the search starts.
abbrev pub search_base : Process → ℕ → ℕ
search_base proc hint =
    page_up
      (if not (hint == 0) && leb mmap_base hint && ltb hint mmap_top then hint else proc.mmap_next)

-- A round for each region and one more.
unfoldable pub vma_find_free_range : Process → ℕ → ℕ → Option ℕ
unfolding find_range first_overlap
vma_find_free_range proc hint len =
    find_range (suc (length proc.vmas)) (search_base proc hint) len proc.vmas

unfoldable pub vma_fork_copy : Process → Process → Process
vma_fork_copy parent child = record child {
  vmas = parent.vmas;
  mmap_next = parent.mmap_next;
  brk_start = parent.brk_start;
  brk_current = parent.brk_current;
}

-- The regions after they are cleared, and what was given to `kfree`.
unfoldable pub clear_vmas : List Vma → List Vma × List ℕ
clear_vmas [] = ([], [])
clear_vmas (v ∷ vs) =
    let (rest, freed) = clear_vmas vs in
    (
      record v { in_use = false } ∷ rest,
      if v.in_use && v.type == vma_elf && v.elf_data_owned && not (v.elf_data == 0)
          then v.elf_data ∷ freed
          else freed,
    )

unfoldable pub vma_destroy_all : Process → Process × List ℕ
unfolding clear_vmas
vma_destroy_all proc =
    let (cleared, freed) = clear_vmas proc.vmas in
    (record proc { vmas = cleared; mmap_next = mmap_base }, freed)

-- `struct mmap_args`, with `fd` by its bit pattern.
pub record MmapArgs : Type 0 where
  pub addr : ℕ
  pub len : ℕ
  pub prot : ℕ
  pub flags : ℕ
  pub fd : ℕ
  pub offset : ℕ

-- The part of `syscall_mmap` on the object that is mapped: the region, and whether it succeeds.
unfoldable pub map_object : Option ℕ → MmapArgs → Process → Vma → Bool × Vma
map_object framebuffer args proc v =
    let f : Vma = record v { type = vma_file; file_offset = args.offset } in
    let pfd = get_or proc.fd_table args.fd zero_fd in
    let fail : Bool × Vma = (false, record f { in_use = false }) in
    if flag args.flags map_anonymous
    then (true, record v { type = vma_anon; file_inode = 0; file_offset = 0 })
    else if leb (2 ^ 31) args.fd || leb process_max_fds args.fd
    then fail
    else if pfd.type == fd_ext2
    then (true, record f { file_inode = pfd.object % 2 ^ 32 })
    else if pfd.type == fd_device
    then (if pfd.object == 0 then fail else elim framebuffer [
      | none ↦ fail
      | some phys ↦ (
        true,
        record f {
          type = vma_device;
          dev_phys_base = (phys + args.offset) % 2 ^ 64;
          file_inode = 0;
          file_offset = 0;
        },
      )
    ])
    else fail

-- `mmap_next` moves behind the region.
abbrev pub advance : ℕ → Process → Process
advance end proc = if ltb proc.mmap_next end then record proc { mmap_next = end } else proc

-- The end of the call, by what became of the object.
unfoldable pub finish : ℕ → ℕ → ℕ → Process → Bool × Vma → ℕ × Process
finish addr len i proc (false, v) = (map_failed, record proc { vmas = set proc.vmas i v })
finish addr len i proc (true, v) =
    (addr, advance ((addr + len) % 2 ^ 64) (record proc { vmas = set proc.vmas i v }))

-- The region at index `i` before the object is known.
abbrev pub new_region : MmapArgs → ℕ → ℕ → ℕ → Process → Vma
new_region args addr len i proc = record (get_or proc.vmas i zero_vma) {
  start = addr;
  end = (addr + len) % 2 ^ 64;
  prot = args.prot;
  flags = args.flags;
  in_use = true;
  shared_phys = 0;
}

-- From `vma_alloc` to the end, at the address that was chosen.
unfoldable pub map_at : Option ℕ → MmapArgs → ℕ → ℕ → Process → ℕ × Process
map_at framebuffer args addr len proc = elim (vma_alloc proc) [
  | none ↦ (map_failed, proc)
  | some i ↦
      finish addr len i proc (map_object framebuffer args proc (new_region args addr len i proc))
]

abbrev pub is_fixed : MmapArgs → Bool
is_fixed args = flag args.flags map_fixed && not (args.addr == 0)

-- `if (!addr) return (uint64_t)-1;` and the rest.
abbrev pub map_found : Option ℕ → MmapArgs → ℕ → Process → Option ℕ → Option (ℕ × Process)
map_found framebuffer args len proc none = none
map_found framebuffer args len proc (some addr) =
    some (if addr == 0 then (map_failed, proc) else map_at framebuffer args addr len proc)

-- `args` is what `args_ptr` points to; none when the search for a range runs out of rounds.
unfoldable pub syscall_mmap : Option ℕ → ℕ → MmapArgs → Process → Option (ℕ × Process)
syscall_mmap framebuffer args_ptr args proc =
    let len = page_up args.len in
    if not proc.is_user
    then some (map_failed, proc)
    else if leb kernel_vma args_ptr
    then some (map_failed, proc)
    else if args.len == 0
    then some (map_failed, proc)
    else if is_fixed args
    then some (map_at framebuffer args (page_down args.addr) len proc)
    else map_found framebuffer args len proc (vma_find_free_range proc args.addr len)
