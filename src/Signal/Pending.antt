-- ===== src/Signal/Pending.antt =====
-- The word of pending signals as a set of numbers below 32.
use hobbyos.Base.{
  ℕ, ◌-◌, ◌^◌, ◌<◌, ◌≡◌, refl, Bool, true, ◌&&◌, ◌||◌, not, ◌==◌, bit_and, bit_or, if◌then◌else◌,
  arith,
}
use hobbyos.Base.Bytes.{table, table_entry}
use hobbyos.Base.Words.{bit, bit-lt, bit-bit_and, bit-bit_or, flag, flag-bit}

abbrev masks_at : ℕ → ℕ → Bool
masks_at s j =
    (bit (2 ^ s) j == (if s == j then 1 else 0))
    && (bit (2 ^ 32 - 1 - 2 ^ s) j == (if s == j then 0 else 1))

masks_table : table (λ s. table (λ j. masks_at s j) 32) 32 ≡ true
unfolding table bit
masks_table = refl

module _ (s j : ℕ) (hs : s < 32) (hj : j < 32) where
  masks : masks_at s j ≡ true
  masks =
      table_entry (λ j. masks_at s j) 32 j hj
        (table_entry (λ s. table (λ j. masks_at s j) 32) 32 s hs masks_table)

  pub flag-set : (w : ℕ) → flag (bit_or w (2 ^ s)) j ≡ ((s == j) || flag w j)
  flag-set w =
      rw (flag-bit (bit_or w (2 ^ s)) j, flag-bit w j)
        (ground (arith, masks, bit-bit_or j w (2 ^ s), bit-lt j w))

  pub flag-clear : (w : ℕ) → flag (bit_and w (2 ^ 32 - 1 - 2 ^ s)) j ≡ (not (s == j) && flag w j)
  flag-clear w =
      rw (flag-bit (bit_and w (2 ^ 32 - 1 - 2 ^ s)) j, flag-bit w j)
        (ground (arith, masks, bit-bit_and j w (2 ^ 32 - 1 - 2 ^ s), bit-lt j w))
