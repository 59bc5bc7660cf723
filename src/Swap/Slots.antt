-- ===== src/Swap/Slots.antt =====
-- The counter of used slots counts them.
use hobbyos.Base.{
  ℕ, zero, suc, ◌+◌, ◌-◌, ◌<◌, ◌≡◌, refl, sym, ◌∙◌, Bool, true, false, ◌&&◌, not, Option, none,
  some, List, [], ◌∷◌, ltb, if◌then◌else◌, length, get_or, set, replicate, length-set,
  length-replicate, find_from-some, find_from-none, find_index, get_or-set_self, arith, Bool-cases,
  inl, inr,
}
use hobbyos.Swap.{Swap, swap_init, take_slot, swap_alloc_slot, swap_free_slot, swap_max_pages}

abbrev pub used_in : List Bool → ℕ
used_in [] = 0
used_in (b ∷ bs) = (if b then 1 else 0) + used_in bs

pub record IsSwap (s : Swap) : Type 0 where
  pub size : length s.swap_slots ≡ swap_max_pages
  pub counted : s.swap_used ≡ used_in s.swap_slots

used_in-set :
    (bs : List Bool) (i : ℕ) (b : Bool)
    → i < length bs
    → used_in (set bs i b) + (if get_or bs i false then 1 else 0)
      ≡ used_in bs + (if b then 1 else 0)
used_in-set [] i b h = absurd (omega arith)
used_in-set (x ∷ bs) zero b h = omega arith
used_in-set (x ∷ bs) (suc i) b h = omega (arith, used_in-set bs i b (omega arith))

used_in-none : (n : ℕ) → used_in (replicate n false) ≡ 0
used_in-none zero = refl
used_in-none (suc n) = omega (arith, used_in-none n)

-- How an allocation ends: every slot is used and nothing changes, or a slot that was not used is.
pub data TakesSlot (s : Swap) : Option ℕ × Swap → Type 0 where
  full :
      ((i : ℕ) → i < length s.swap_slots → get_or s.swap_slots i false ≡ true)
      → TakesSlot s (none, s)
  taken :
      (i : ℕ) (s' : Swap)
      → i < swap_max_pages
      → get_or s.swap_slots i false ≡ false
      → get_or s'.swap_slots i false ≡ true
      → s'.swap_used ≡ s.swap_used + 1
      → IsSwap s'
      → TakesSlot s (some i, s')

take_slot-TakesSlot :
    (s : Swap) (o : Option ℕ)
    → IsSwap s
    → find_index not s.swap_slots ≡ o
    → TakesSlot s (take_slot o s)
unfolding take_slot
take_slot-TakesSlot s none h e =
    TakesSlot.full (λ i l. ground (arith, find_from-none not 0 s.swap_slots i false e l))
take_slot-TakesSlot s (some i) h e =
    let (lo, hi, hit) = find_from-some not 0 s.swap_slots i false e in
    let at_i : i - 0 ≡ i = omega arith in
    let was : not (get_or s.swap_slots i false) ≡ true = rw at_i at hit in
    let inside : i < length s.swap_slots = omega (arith, hi) in
    let free : get_or s.swap_slots i false ≡ false = ground (arith, was) in
    TakesSlot.taken i _ (omega (arith, inside, h.size)) free
      (get_or-set_self s.swap_slots i true false inside) refl
      (record {
        size = length-set s.swap_slots i true ∙ h.size;
        counted = ground (arith, used_in-set s.swap_slots i true inside, h.counted, free);
      })

-- On well-formed slots an allocation ends in one of these ways.
pub alloc_slot-TakesSlot : (s : Swap) → IsSwap s → TakesSlot s (swap_alloc_slot s)
unfolding swap_alloc_slot
alloc_slot-TakesSlot s h = take_slot-TakesSlot s (find_index not s.swap_slots) h refl

after_alloc : (s : Swap) (r : Option ℕ × Swap) → IsSwap s → TakesSlot s r → IsSwap r.1
after_alloc s r h (TakesSlot.full e) = h
after_alloc s r h (TakesSlot.taken i s' inside free used more h') = h'

free_slot-IsSwap : (s : Swap) (i : ℕ) → IsSwap s → IsSwap (swap_free_slot i s)
unfolding swap_free_slot
free_slot-IsSwap s i h = elim (Bool-cases (ltb i swap_max_pages && get_or s.swap_slots i false)) [
  | inr idle ↦ rw idle h
  | inl busy ↦
      (let inside : i < length s.swap_slots = ground (arith, busy, h.size) in
        rw busy (record {
          size = length-set s.swap_slots i false ∙ h.size;
          counted = ground (arith, used_in-set s.swap_slots i false inside, h.counted, busy);
        }))
]

-- Sequences of allocations and frees, of any slots.
pub data SwapSteps : Swap → Type 0 where
  init : SwapSteps swap_init
  allocs : (s : Swap) → SwapSteps s → SwapSteps (swap_alloc_slot s).1
  frees : (i : ℕ) (s : Swap) → SwapSteps s → SwapSteps (swap_free_slot i s)

-- After any allocations and frees, in any order and of any slots, `swap_used` is the number of slots
-- that are marked as used.
pub steps-IsSwap : (s : Swap) → SwapSteps s → IsSwap s
unfolding swap_init
steps-IsSwap _ SwapSteps.init = record {
  size = length-replicate {A = Bool} swap_max_pages false;
  counted = sym (used_in-none swap_max_pages);
}
steps-IsSwap _ (SwapSteps.allocs s h) =
    let w = steps-IsSwap s h in after_alloc s _ w (alloc_slot-TakesSlot s w)
steps-IsSwap _ (SwapSteps.frees i s h) = free_slot-IsSwap s i (steps-IsSwap s h)
