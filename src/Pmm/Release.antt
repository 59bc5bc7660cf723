-- ===== src/Pmm/Release.antt =====
-- Giving pages back: `pmm_free_page`, `pmm_page_ref` and `pmm_page_unref`.
use hobbyos.Base.{
  ◌&&◌, not, ◌==◌, ℕ, ◌+◌, ◌-◌, ◌/◌, ◌<◌, ◌≡◌, refl, true, ltb, arith, length, set, get_or-set_self,
  set-set, set-get_or, ap, ◌∙◌, Bool-cases, inl, inr, if◌then◌else◌, ltb→lt, lt→ltb, ne→==,
}
use native.Mathlib.Decide.{dec_lt}
use hobbyos.Process.{page_size}
use hobbyos.Pmm.{
  Pmm, bitmap_clear, bitmap_test, refcount_at, is_kernel, pmm_free_page, pmm_page_ref,
  pmm_page_unref, pmm_page_refcount,
}
use hobbyos.Pmm.Bitmap.{bitmap_test-clear}
use hobbyos.Pmm.Inv.{Counted, give-Counted, recount-Counted}

-- A page with a reference is in use.
pub used_of_Counted :
    (p : Pmm) (i : ℕ)
    → Counted p
    → i < p.total_pages
    → 0 < refcount_at p i
    → bitmap_test p.bitmap i ≡ true
used_of_Counted p i c inside some_ref = elim (Bool-cases (bitmap_test p.bitmap i)) [
  | inl used ↦ used
  | inr free ↦ absurd (omega (arith, c.unowned i inside free))
]

pub free_page-Counted : (phys : ℕ) (p : Pmm) → Counted p → Counted (pmm_free_page phys p)
unfolding pmm_free_page
free_page-Counted phys p c = ground (arith, give-Counted p c (phys / page_size))

pub ref-Counted :
    (phys : ℕ) (p : Pmm) → Counted p → 0 < pmm_page_refcount phys p → Counted (pmm_page_ref phys p)
unfolding pmm_page_ref pmm_page_refcount
ref-Counted phys p c some_ref = elim (Bool-cases (ltb (phys / page_size) p.total_pages)) [
  | inl inside ↦
      let i = phys / page_size in
      let lt = ltb→lt i p.total_pages inside in
      let used = used_of_Counted p i c lt (ground arith) in
      ground (arith, recount-Counted p c i lt (refcount_at p i + 1) used)
  | inr outside ↦ ground arith
]

-- The cases of `pmm_page_unref` on a page with references.
unref_last :
    (phys : ℕ) (p : Pmm)
    → phys / page_size < p.total_pages
    → refcount_at p (phys / page_size) ≡ 1
    → pmm_page_unref phys p ≡ (
        if is_kernel p (phys / page_size)
        then record p { page_refcount = set p.page_refcount (phys / page_size) 0 }
        else record p {
          bitmap = bitmap_clear (phys / page_size) p.bitmap;
          free_pages = p.free_pages + 1;
          page_refcount = set p.page_refcount (phys / page_size) 0;
        })
unfolding pmm_page_unref
unref_last phys p inside last = rw (lt→ltb _ _ inside, last) refl

unref_shared :
    (phys : ℕ) (p : Pmm)
    → phys / page_size < p.total_pages
    → 1 < refcount_at p (phys / page_size)
    → pmm_page_unref phys p ≡ record p {
      page_refcount = set p.page_refcount (phys / page_size) (refcount_at p (phys / page_size) - 1);
    }
unfolding pmm_page_unref
unref_shared phys p inside shared =
    let i = phys / page_size in
    rw
      (
        lt→ltb _ _ inside,
        lt→ltb 0 (refcount_at p i) (omega arith),
        ne→== (refcount_at p i - 1) 0 (omega arith),
      )
      refl

unref_none : (phys : ℕ) (p : Pmm) → pmm_page_refcount phys p ≡ 0 → pmm_page_unref phys p ≡ p
unfolding pmm_page_unref pmm_page_refcount
unref_none phys p h = ground arith

pub unref-Counted : (phys : ℕ) (p : Pmm) → Counted p → Counted (pmm_page_unref phys p)
unfolding pmm_page_refcount
unref-Counted phys p c =
    let i = phys / page_size in
    elim (dec_lt i p.total_pages) [
      | no outside ↦ rw (unref_none phys p (ground arith)) c
      | yes inside ↦ elim (dec_lt 1 (refcount_at p i)) [
        | yes shared ↦ rw (unref_shared phys p inside shared) (
            recount-Counted p c i inside (refcount_at p i - 1)
              (used_of_Counted p i c inside (omega arith)))
        | no few ↦ elim (dec_lt 0 (refcount_at p i)) [
          | no none_left ↦ rw (unref_none phys p (ground arith)) c
          | yes last ↦
              let used = used_of_Counted p i c inside last in
              rw (unref_last phys p inside (omega arith)) (
                ground (arith, recount-Counted p c i inside 0 used, give-Counted p c i inside used))
        ]
      ]
    ]

-- On a counted state, a second `pmm_free_page` of the same page changes nothing.
pub free_page_twice :
    (phys : ℕ) (p : Pmm)
    → Counted p
    → pmm_free_page phys (pmm_free_page phys p) ≡ pmm_free_page phys p
unfolding pmm_free_page
free_page_twice phys p c = elim (dec_lt (phys / page_size) p.total_pages) [
  | yes inside ↦
      let i = phys / page_size in
      ground (arith, bitmap_test-clear p.bitmap i c.bytes (omega (arith, c.size)) i)
  | no outside ↦ ground arith
]

-- A reference that is taken and given back leaves the whole state as it was, if the page had one
-- before and the count is not at its limit of 255.
pub unref-ref :
    (phys : ℕ) (p : Pmm)
    → 0 < pmm_page_refcount phys p
    → pmm_page_refcount phys p < 255
    → length p.page_refcount ≡ p.total_pages
    → pmm_page_unref phys (pmm_page_ref phys p) ≡ p
unfolding pmm_page_refcount
unref-ref phys p some_ref below len =
    let i = phys / page_size in
    elim (dec_lt i p.total_pages) [
      | no outside ↦ absurd (ground arith)
      | yes inside ↦
          let taken : pmm_page_ref phys p
              ≡ record p { page_refcount = set p.page_refcount i (refcount_at p i + 1) } =
            unfold pmm_page_ref in ground arith in
          let p' = record p { page_refcount = set p.page_refcount i (refcount_at p i + 1) } in
          let at_i : refcount_at p' i ≡ refcount_at p i + 1 =
            get_or-set_self p.page_refcount i (refcount_at p i + 1) 0 (omega arith) in
          let more : 1 < refcount_at p' i = ground arith in
          let back : set (set p.page_refcount i (refcount_at p i + 1)) i (refcount_at p' i - 1)
              ≡ p.page_refcount =
            set-set p.page_refcount i (refcount_at p i + 1) (refcount_at p' i - 1)
            ∙ ap (λ v. set p.page_refcount i v) (omega arith)
            ∙ set-get_or p.page_refcount i 0 in
          rw taken (
            unref_shared phys p' inside more
            ∙ ap (λ counts. record p { page_refcount = counts }) back)
    ]

-- The last reference of a page frees it, unless the page belongs to the kernel, whose pages stay in
-- use; any other reference that is given back only lowers the count by one. The page had a reference.
pub page_unref_lem :
    (phys : ℕ) (p : Pmm)
    → Counted p
    → 0 < pmm_page_refcount phys p
    → let i = phys / page_size in
      let p' = pmm_page_unref phys p in
      let last = pmm_page_refcount phys p == 1 in
      (refcount_at p' i + 1 ≡ pmm_page_refcount phys p)
      × (bitmap_test p'.bitmap i ≡ (if last then is_kernel p i else true))
      × (p'.free_pages ≡ p.free_pages + (if last && not (is_kernel p i) then 1 else 0))
unfolding pmm_page_refcount
page_unref_lem phys p c some_ref =
    let i = phys / page_size in
    elim (dec_lt i p.total_pages) [
      | no outside ↦ absurd (ground arith)
      | yes inside ↦
          let test = bitmap_test-clear p.bitmap i c.bytes (omega (arith, c.size)) i in
          let used = used_of_Counted p i c inside (ground arith) in
          elim (dec_lt 1 (refcount_at p i)) [
            | yes more ↦
                let count =
                  get_or-set_self p.page_refcount i (refcount_at p i - 1) 0
                    (omega (arith, c.counts)) in
                rw (unref_shared phys p inside more)
                  (ground (arith, count), ground arith, ground arith)
            | no few ↦
                let one : refcount_at p i ≡ 1 = ground arith in
                let count = get_or-set_self p.page_refcount i 0 0 (omega (arith, c.counts)) in
                rw (unref_last phys p inside one)
                  (ground (arith, count), ground (arith, test), ground arith)
          ]
    ]
