-- ===== src/Swap.antt =====
-- kernel/memory/swap.c and kernel/memory/rmap.c: the slots of the swap area, and the reverse map from
-- a physical page to the process and the address that it is mapped at. The choice of a page to evict
-- and the transfers are not modelled.
pub mod Slots
pub mod Reverse
use hobbyos.Base.{
  ℕ, zero, suc, ◌+◌, ◌-◌, ◌/◌, Bool, true, false, ◌&&◌, not, Option, none, some, List, [], ◌∷◌, ltb,
  ◌==◌, if◌then◌else◌, get_or, set, replicate, find_index,
}
use hobbyos.Process.{page_size}

abbrev pub swap_max_pages : ℕ
swap_max_pages = 4096

abbrev pub rmap_max_pages : ℕ
rmap_max_pages = 131072

pub record Swap : Type 0 where
  pub swap_slots : List Bool
  pub swap_used : ℕ
  pub swap_ready : Bool

unfoldable pub swap_init : Swap
swap_init = record { swap_slots = replicate swap_max_pages false; swap_used = 0; swap_ready = true }

unfoldable pub take_slot : Option ℕ → Swap → Option ℕ × Swap
take_slot none s = (none, s)
take_slot (some i) s =
    (some i, record s { swap_slots = set s.swap_slots i true; swap_used = s.swap_used + 1 })

-- A slot, or `none` for -1.
unfoldable pub swap_alloc_slot : Swap → Option ℕ × Swap
unfolding take_slot
swap_alloc_slot s = take_slot (find_index not s.swap_slots) s

-- The argument is not negative where the code calls it.
unfoldable pub swap_free_slot : ℕ → Swap → Swap
swap_free_slot slot s =
    if ltb slot swap_max_pages && get_or s.swap_slots slot false
    then record s { swap_slots = set s.swap_slots slot false; swap_used = s.swap_used - 1 }
    else s

unfoldable pub swap_get_used : Swap → ℕ
swap_get_used s = s.swap_used

unfoldable pub swap_get_total : ℕ
swap_get_total = swap_max_pages

pub record RmapEntry : Type 0 where
  pub pid : ℕ
  pub virt_addr : ℕ

abbrev pub no_entry : RmapEntry
no_entry = record { pid = 0; virt_addr = 0 }

unfoldable pub rmap_init : List RmapEntry
rmap_init = replicate rmap_max_pages no_entry

unfoldable pub rmap_set : ℕ → ℕ → ℕ → List RmapEntry → List RmapEntry
rmap_set phys pid virt table =
    let idx = phys / page_size in
    if ltb idx rmap_max_pages then set table idx (record { pid = pid; virt_addr = virt }) else table

unfoldable pub rmap_clear : ℕ → List RmapEntry → List RmapEntry
rmap_clear phys table =
    let idx = phys / page_size in if ltb idx rmap_max_pages then set table idx no_entry else table

unfoldable pub rmap_get : ℕ → List RmapEntry → Option RmapEntry
rmap_get phys table =
    let idx = phys / page_size in
    if ltb idx rmap_max_pages && not ((get_or table idx no_entry).pid == 0)
    then some (get_or table idx no_entry)
    else none
