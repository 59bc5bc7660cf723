-- ===== src/Mmap/Map.antt =====
-- kernel/syscall/syscall.c: what `syscall_mmap` does to the addresses of a process.
use hobbyos.Base.{
  if_both, else_eq, ℕ, ◌+◌, ◌-◌, ◌*◌, ◌/◌, ◌%◌, ◌^◌, ◌≤◌, ◌<◌, ◌≡◌, ◌⊎◌, refl, sym, ◌∙◌, ap, subst,
  Bool, true, false, ◌&&◌, ◌||◌, Option, none, some, ltb, leb, ◌==◌, not, if◌then◌else◌, length,
  All, arith, inl, inr, Bool-cases, Option-cases, get_or, set, find_from, find_from-some,
}
use hobbyos.Base.Words.{flag}
use hobbyos.UserAccess.{kernel_vma}
use hobbyos.Process.{Process, Vma, zero_vma, zero_fd, process_max_fds, page_size, mmap_base}
use hobbyos.Mmap.{
  MmapArgs, mmap_top, covers, vma_find, vma_alloc, map_object, map_found, map_at, map_anonymous,
  fd_ext2, fd_device, advance, finish, new_region, is_fixed, syscall_mmap, search_base,
  vma_find_free_range, map_failed, page_up,
}
use hobbyos.Mmap.Range.{Clear, IsLow, find_free_range-Lowest}
use hobbyos.Mmap.Find.{find-set_hit, find-set_miss, find-Clear}

-- A region keeps its addresses and is in use, or it is out of use.
abbrev Objects : Vma → Bool × Vma → Type 0
Objects v (true, w) = (w.start ≡ v.start) × (w.end ≡ v.end) × (w.in_use ≡ v.in_use)
Objects v (false, w) = w.in_use ≡ false

map_object-Objects :
    (framebuffer : Option ℕ) (args : MmapArgs) (proc : Process) (v : Vma)
    → Objects v (map_object framebuffer args proc v)
unfolding map_object
map_object-Objects none args proc v = elim (Bool-cases (flag args.flags map_anonymous)) [
  | inl a ↦ rw (map_object, a) (refl, refl, refl)
  | inr a ↦ elim (Bool-cases (leb (2 ^ 31) args.fd || leb process_max_fds args.fd)) [
    | inl b ↦ rw (map_object, a, b) refl
    | inr b ↦ elim (Bool-cases ((get_or proc.fd_table args.fd zero_fd).type == fd_ext2)) [
      | inl c ↦ rw (map_object, a, b, c) (refl, refl, refl)
      | inr c ↦ elim (Bool-cases ((get_or proc.fd_table args.fd zero_fd).type == fd_device)) [
        | inl d ↦ elim (Bool-cases ((get_or proc.fd_table args.fd zero_fd).object == 0)) [
          | inl e ↦ rw (map_object, a, b, c, d, e) refl
          | inr e ↦ rw (map_object, a, b, c, d, e) refl
        ]
        | inr d ↦ rw (map_object, a, b, c, d) refl
      ]
    ]
  ]
]
map_object-Objects (some phys) args proc v = elim (Bool-cases (flag args.flags map_anonymous)) [
  | inl a ↦ rw (map_object, a) (refl, refl, refl)
  | inr a ↦ elim (Bool-cases (leb (2 ^ 31) args.fd || leb process_max_fds args.fd)) [
    | inl b ↦ rw (map_object, a, b) refl
    | inr b ↦ elim (Bool-cases ((get_or proc.fd_table args.fd zero_fd).type == fd_ext2)) [
      | inl c ↦ rw (map_object, a, b, c) (refl, refl, refl)
      | inr c ↦ elim (Bool-cases ((get_or proc.fd_table args.fd zero_fd).type == fd_device)) [
        | inl d ↦ elim (Bool-cases ((get_or proc.fd_table args.fd zero_fd).object == 0)) [
          | inl e ↦ rw (map_object, a, b, c, d, e) refl
          | inr e ↦ rw (map_object, a, b, c, d, e) (refl, refl, refl)
        ]
        | inr d ↦ rw (map_object, a, b, c, d) refl
      ]
    ]
  ]
]

-- No address is covered by another region than before.
abbrev pub SameRegions : Process → Process → Type 0
SameRegions proc proc' = (x : ℕ) → vma_find proc' x ≡ vma_find proc x

-- The `len` bytes from `addr` on, that no region covered, are covered by one, and the other
-- addresses by the regions that covered them before.
abbrev pub Maps : ℕ → ℕ → Process → Process → Type 0
Maps addr len proc proc' =
    (i : ℕ) × ((x : ℕ)
      → addr ≤ x
      → x < addr + len
      → (vma_find proc x ≡ none) × (vma_find proc' x ≡ some i))
    × ((x : ℕ) → (x < addr) ⊎ (addr + len ≤ x) → vma_find proc' x ≡ vma_find proc x)

-- What a call returns and leaves: -1 with the addresses as they were, or the address of a new region.
abbrev pub Outcome : ℕ → ℕ → Process → ℕ × Process → Type 0
Outcome addr len proc (ret, proc') =
    ((ret ≡ map_failed) × SameRegions proc proc') ⊎ ((ret ≡ addr) × Maps addr len proc proc')

pub advance_find :
    (end : ℕ) (proc : Process) (x : ℕ) → vma_find (advance end proc) x ≡ vma_find proc x
unfolding vma_find
advance_find end proc x =
    if_both (λ (p : Process). find_from (covers x) 0 p.vmas ≡ find_from (covers x) 0 proc.vmas) _ _
      _ refl refl

-- A region out of use is replaced by what became of the new one.
finish-Outcome :
    (addr len i : ℕ) (proc : Process) (v : Vma) (m : Bool × Vma)
    → i < length proc.vmas
    → (get_or proc.vmas i zero_vma).in_use ≡ false
    → (v.start ≡ addr) × (v.end ≡ addr + len) × (v.in_use ≡ true)
    → All (Clear addr len) proc.vmas
    → Objects v m
    → Outcome addr len proc (finish addr len i proc m)
unfolding vma_find finish
finish-Outcome addr len i proc v (false, w) lt old at clear off = inl (
  refl,
  λ x.
      find-set_miss (covers x) 0 proc.vmas i w zero_vma (ground (arith, old)) (ground (arith, off)),
)
finish-Outcome addr len i proc v (true, w) lt old at clear on =
    let end = (addr + len) % 2 ^ 64 in
    let proc' : Process = record proc { vmas = set proc.vmas i w } in
    inr (
      refl,
      (
        i,
        λ x lo hi. (
          find-Clear 0 addr len x proc.vmas clear lo hi,
          advance_find end proc' x
              ∙ find-set_hit (covers x) 0 proc.vmas i w lt (ground (arith, on, at, lo, hi))
                  (find-Clear 0 addr len x proc.vmas clear lo hi)
              ∙ ap (λ (k : ℕ). some k) (let e : 0 + i ≡ i = omega arith in e),
        ),
        λ x out.
            advance_find end proc' x
            ∙ find-set_miss (covers x) 0 proc.vmas i w zero_vma (ground (arith, old))
                (ground (arith, on, at, out)),
      ),
    )

module _ (framebuffer : Option ℕ) (args : MmapArgs) (addr len : ℕ) (proc : Process) where
  map_at_full : vma_alloc proc ≡ none → map_at framebuffer args addr len proc ≡ (map_failed, proc)
  unfolding map_at
  map_at_full e = rw (e, map_at) refl

  pub map_at_slot :
      (i : ℕ)
      → vma_alloc proc ≡ some i
      → map_at framebuffer args addr len proc
        ≡ finish addr len i proc
            (map_object framebuffer args proc (new_region args addr len i proc))
  unfolding map_at
  map_at_slot i e = rw (e, map_at) refl

  map_at-Outcome :
      addr + len < 2 ^ 64
      → All (Clear addr len) proc.vmas
      → Outcome addr len proc (map_at framebuffer args addr len proc)
  unfolding vma_alloc
  map_at-Outcome top clear = elim (Option-cases (vma_alloc proc)) [
    | inl full ↦
        subst (λ (o : ℕ × Process). Outcome addr len proc o) (sym (map_at_full full))
          (inl (refl, λ x. refl))
    | inr (i, found) ↦
        (let (_, lt, free) =
            find_from-some (λ (v : Vma). not v.in_use) 0 proc.vmas i zero_vma found in
          let v = new_region args addr len i proc in
          subst (λ (o : ℕ × Process). Outcome addr len proc o) (sym (map_at_slot i found))
            (finish-Outcome addr len i proc v (map_object framebuffer args proc v)
              (omega (arith, lt)) (ground (arith, free)) (refl, omega (arith, top), refl) clear
              (map_object-Objects framebuffer args proc v)))
  ]

search_base_bounds :
    (proc : Process) (hint : ℕ)
    → mmap_base ≤ proc.mmap_next
    → proc.mmap_next ≤ 2 ^ 62
    → (mmap_base ≤ search_base proc hint) × (search_base proc hint ≤ 2 ^ 63)
search_base_bounds proc hint lo hi =
    elim (Bool-cases (not (hint == 0) && leb mmap_base hint && ltb hint mmap_top)) [
      | inl e ↦ rw e (ground (arith, e), ground (arith, e))
      | inr e ↦ rw e (omega (arith, lo, hi), omega (arith, lo, hi))
    ]

module _ (framebuffer : Option ℕ) (args_ptr : ℕ) (args : MmapArgs) (proc : Process)
    (user : proc.is_user ≡ true) (from_user : args_ptr < kernel_vma) (pos : 0 < args.len)
    (free_choice : is_fixed args ≡ false) where
  -- The call up to the search.
  searches :
      (addr : ℕ)
      → vma_find_free_range proc args.addr (page_up args.len) ≡ some addr
      → syscall_mmap framebuffer args_ptr args proc
        ≡ some (
            if addr == 0
            then (map_failed, proc)
            else map_at framebuffer args addr (page_up args.len) proc)
  unfolding syscall_mmap
  searches addr found =
      let below : leb kernel_vma args_ptr ≡ false = ground (arith, from_user) in
      let some_len : (args.len == 0) ≡ false = ground (arith, pos) in
      let allowed : not proc.is_user ≡ false = ap not user in
      else_eq _ _ _ allowed
      ∙ else_eq _ _ _ below
      ∙ else_eq _ _ _ some_len
      ∙ else_eq _ _ _ free_choice
      ∙ ap (map_found framebuffer args (page_up args.len) proc) found

  -- mmap without MAP_FIXED by a user process, of 1 to 2^62 bytes with its arguments in user
  -- memory, when mmap_next lies between MMAP_BASE and 2^62 and the regions in use end at 2^63 or
  -- below, returns -1 and leaves what every address maps to as it was, or it returns an address
  -- in the mapping area whose bytes, the length rounded up to pages, no region covered:
  -- afterwards one region covers them, and every other address maps to the region that it mapped
  -- to before.
  pub syscall_mmap-Maps :
      args.len ≤ 2 ^ 62
      → mmap_base ≤ proc.mmap_next
      → proc.mmap_next ≤ 2 ^ 62
      → All IsLow proc.vmas
      → (ret : ℕ) × (proc' : Process) × (syscall_mmap framebuffer args_ptr args proc
          ≡ some (ret, proc'))
        × (((ret ≡ map_failed) × SameRegions proc proc')
            ⊎ ((mmap_base ≤ ret)
                × (ret + (args.len + (page_size - 1)) / page_size * page_size ≤ mmap_top)
                × Maps ret ((args.len + (page_size - 1)) / page_size * page_size) proc proc'))
  syscall_mmap-Maps small lo hi low =
      let len = page_up args.len in
      let plain : len ≡ (args.len + (page_size - 1)) / page_size * page_size =
        omega (arith, small) in
      let (above, below) = search_base_bounds proc args.addr lo hi in
      let (addr, found, lowest) =
        find_free_range-Lowest proc args.addr len (omega (arith, small)) below low in
      let ran = searches addr found in
      rw (← plain) (elim lowest [
        | inl (zero_addr, _) ↦
            (let z : (addr == 0) ≡ true = ground (arith, zero_addr) in
              (map_failed, proc, ran ∙ rw z refl, inl (refl, λ x. refl)))
        | inr (from, fits, clear, _) ↦
            (let nz : (addr == 0) ≡ false = ground (arith, from, above) in
              let o = map_at framebuffer args addr len proc in
              (
                o.0,
                o.1,
                ran ∙ rw nz refl,
                elim (map_at-Outcome framebuffer args addr len proc (omega (arith, fits)) clear) [
                  | inl (r, same) ↦ inl (r, same)
                  | inr (r, maps) ↦
                      inr (omega (arith, r, from, above), omega (arith, r, fits), rw r maps)
                ],
              ))
      ])
