-- ===== src/Mmap/Fixed.antt =====
-- kernel/syscall/syscall.c: `syscall_mmap` with MAP_FIXED.
use hobbyos.Base.{
  else_eq, then_eq, ℕ, ◌+◌, ◌%◌, ◌^◌, ◌<◌, ◌≡◌, refl, ◌∙◌, ap, true, false, Option, some, leb, ◌==◌,
  not, arith, set,
}
use hobbyos.Base.Words.{flag}
use hobbyos.UserAccess.{kernel_vma}
use hobbyos.Process.{Process, Vma, zero_vma}
use hobbyos.Mmap.{
  MmapArgs, covers, vma_find, vma_alloc, map_object, map_at, map_anonymous, vma_anon, advance,
  finish, new_region, is_fixed, syscall_mmap, page_up, page_down,
}
use hobbyos.Mmap.Find.{find-set_later}
use hobbyos.Mmap.Map.{advance_find, map_at_slot}

anonymous :
    (framebuffer : Option ℕ) (args : MmapArgs) (proc : Process) (v : Vma)
    → flag args.flags map_anonymous ≡ true
    → map_object framebuffer args proc v
      ≡ (true, record v { type = vma_anon; file_inode = 0; file_offset = 0 })
unfolding map_object
anonymous framebuffer args proc v a = then_eq _ _ _ a

finish-true :
    (addr len i : ℕ) (proc : Process) (v : Vma)
    → finish addr len i proc (true, v)
      ≡ (addr, advance ((addr + len) % 2 ^ 64) (record proc { vmas = set proc.vmas i v }))
unfolding finish
finish-true addr len i proc v = refl

fixed_call :
    (framebuffer : Option ℕ) (args_ptr : ℕ) (args : MmapArgs) (proc : Process)
    → proc.is_user ≡ true
    → args_ptr < kernel_vma
    → 0 < args.len
    → is_fixed args ≡ true
    → syscall_mmap framebuffer args_ptr args proc
      ≡ some (map_at framebuffer args (page_down args.addr) (page_up args.len) proc)
unfolding syscall_mmap
fixed_call framebuffer args_ptr args proc user from_user pos fixed =
    let allowed : not proc.is_user ≡ false = ap not user in
    let below : leb kernel_vma args_ptr ≡ false = ground (arith, from_user) in
    let some_len : (args.len == 0) ≡ false = ground (arith, pos) in
    else_eq _ _ _ allowed ∙ else_eq _ _ _ below ∙ else_eq _ _ _ some_len ∙ then_eq _ _ _ fixed

-- mmap with MAP_FIXED and MAP_ANONYMOUS at an address that a region with a lower index than the first
-- free one covers returns the page of the address as if it had mapped it; but the address still
-- belongs to the old region.
pub fixed_shadowed :
    (framebuffer : Option ℕ) (args_ptr : ℕ) (args : MmapArgs) (proc : Process) (i j : ℕ)
    → proc.is_user ≡ true
    → args_ptr < kernel_vma
    → 0 < args.len
    → is_fixed args ≡ true
    → flag args.flags map_anonymous ≡ true
    → vma_alloc proc ≡ some i
    → vma_find proc args.addr ≡ some j
    → j < i
    → (proc' : Process) × (syscall_mmap framebuffer args_ptr args proc
        ≡ some (page_down args.addr, proc'))
      × (vma_find proc' args.addr ≡ some j)
unfolding vma_find
fixed_shadowed framebuffer args_ptr args proc i j user from_user pos fixed anon slot old lt =
    let len = page_up args.len in
    let addr = page_down args.addr in
    let v : Vma = record (new_region args addr len i proc) {
      type = vma_anon;
      file_inode = 0;
      file_offset = 0;
    } in
    let proc' : Process = record proc { vmas = set proc.vmas i v } in
    let end = (addr + len) % 2 ^ 64 in
    (
      advance end proc',
      fixed_call framebuffer args_ptr args proc user from_user pos fixed
          ∙ ap (λ (o : ℕ × Process). some o)
              (map_at_slot framebuffer args addr len proc i slot
                ∙ ap (finish addr len i proc)
                    (anonymous framebuffer args proc (new_region args addr len i proc) anon)
                ∙ finish-true addr len i proc v),
      advance_find end proc' args.addr
          ∙ find-set_later (covers args.addr) 0 proc.vmas i v zero_vma j old (omega (arith, lt)),
    )
