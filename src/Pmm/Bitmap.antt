-- ===== src/Pmm/Bitmap.antt =====
-- The laws of the bitmap: a page's bit is its own.
use hobbyos.Base.{
  ℕ, ◌/◌, ◌%◌, ◌<◌, ◌≡◌, ◌&&◌, ◌||◌, not, List, ◌==◌, arith, length, get_or, All,
  get_or-modify_self, get_or-modify_ne, length-modify, All-modify, All-get_or, inl, inr, Bool-cases,
  ==→eq, ==→ne,
}
use hobbyos.Base.Bytes.{
  bit_set, bit_clear, bit_test-bit_set, bit_test-bit_clear, bit_set-lt, bit_clear-lt,
}
use hobbyos.Pmm.{bitmap_set, bitmap_clear, bitmap_test}

abbrev pub Bytes : List ℕ → Type 0
Bytes = All (λ b. b < 256)

module _ (bm : List ℕ) (p : ℕ) (bytes : Bytes bm) (inside : p / 8 < length bm) where
  byte_lt : (q : ℕ) → get_or bm (q / 8) 0 < 256
  byte_lt q = All-get_or (λ b. b < 256) bm (q / 8) 0 bytes (omega arith)

  pub bitmap_test-set : (q : ℕ) → bitmap_test (bitmap_set p bm) q ≡ ((p == q) || bitmap_test bm q)
  unfolding bitmap_test bitmap_set
  bitmap_test-set q = elim (Bool-cases (p / 8 == q / 8)) [
    | inl same ↦
        let f : ℕ → ℕ = λ b. bit_set b (p % 8) in
        rw
          (
            ← ==→eq (p / 8) (q / 8) same,
            get_or-modify_self bm (p / 8) f 0 inside,
            bit_test-bit_set (get_or bm (p / 8) 0) (p % 8) (q % 8) (byte_lt p) (omega arith)
                (omega arith),
          )
          (ground arith)
    | inr other ↦
        rw (get_or-modify_ne bm (p / 8) (q / 8) (λ b. bit_set b (p % 8)) 0 (==→ne _ _ other))
          (ground arith)
  ]

  pub bitmap_test-clear :
      (q : ℕ) → bitmap_test (bitmap_clear p bm) q ≡ (not (p == q) && bitmap_test bm q)
  unfolding bitmap_test bitmap_clear
  bitmap_test-clear q = elim (Bool-cases (p / 8 == q / 8)) [
    | inl same ↦
        let f : ℕ → ℕ = λ b. bit_clear b (p % 8) in
        rw
          (
            ← ==→eq (p / 8) (q / 8) same,
            get_or-modify_self bm (p / 8) f 0 inside,
            bit_test-bit_clear (get_or bm (p / 8) 0) (p % 8) (q % 8) (byte_lt p) (omega arith)
                (omega arith),
          )
          (ground arith)
    | inr other ↦
        rw (get_or-modify_ne bm (p / 8) (q / 8) (λ b. bit_clear b (p % 8)) 0 (==→ne _ _ other))
          (ground arith)
  ]

  pub bitmap_set-Bytes : Bytes (bitmap_set p bm)
  unfolding bitmap_set
  bitmap_set-Bytes =
      All-modify (λ b. b < 256) bm (p / 8) (λ b. bit_set b (p % 8)) bytes
        (λ b h. bit_set-lt b (p % 8) h (omega arith))

  pub bitmap_clear-Bytes : Bytes (bitmap_clear p bm)
  unfolding bitmap_clear
  bitmap_clear-Bytes =
      All-modify (λ b. b < 256) bm (p / 8) (λ b. bit_clear b (p % 8)) bytes
        (λ b h. bit_clear-lt b (p % 8) h (omega arith))

pub length-bitmap_set : (p : ℕ) (bm : List ℕ) → length (bitmap_set p bm) ≡ length bm
unfolding bitmap_set
length-bitmap_set p bm = length-modify bm (p / 8) (λ b. bit_set b (p % 8))

pub length-bitmap_clear : (p : ℕ) (bm : List ℕ) → length (bitmap_clear p bm) ≡ length bm
unfolding bitmap_clear
length-bitmap_clear p bm = length-modify bm (p / 8) (λ b. bit_clear b (p % 8))
