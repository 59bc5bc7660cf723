-- ===== src/Base/Bytes.antt =====
-- Single bits of a byte: checked over all 256 bytes.
use Prim.Native.Nat.{ℕ, zero, suc, ◌-◌, ◌^◌, ◌<◌, bit_and, bit_or}
use mathlib.Core.Path.{◌≡◌, refl}
use mathlib.Core.Bool.{Bool, true, false, ◌&&◌, ◌||◌, not}
use native.Mathlib.Omega.{arith}
use hobbyos.Base.Tests.{◌==◌, ltb, ltb→lt}

-- A table: whether a test passes at every number below a bound.
unfoldable pub table : (ℕ → Bool) → ℕ → Bool
table test zero = true
table test (suc k) = table test k && test k

pub table_entry :
    (test : ℕ → Bool) (bound i : ℕ) → i < bound → table test bound ≡ true → test i ≡ true
unfolding table
table_entry test zero i inside passes = absurd (omega arith)
table_entry test (suc k) i inside passes =
    ground (arith, λ (lower : i < k). table_entry test k i lower)

-- `b | (1 << k)`, `b & ~(1 << k)` and `b & (1 << k)` on a `uint8_t`.
unfoldable pub bit_set : ℕ → ℕ → ℕ
bit_set b k = bit_or b (2 ^ k)

unfoldable pub bit_clear : ℕ → ℕ → ℕ
bit_clear b k = bit_and b (255 - 2 ^ k)

unfoldable pub bit_test : ℕ → ℕ → Bool
bit_test b k = not (bit_and b (2 ^ k) == 0)

bool_eq : Bool → Bool → Bool
bool_eq true c = c
bool_eq false c = not c

bool_eq_sound : (a b : Bool) → bool_eq a b ≡ true → a ≡ b
unfolding bool_eq
bool_eq_sound a b h = ground arith

abbrev law_at : ℕ → ℕ → ℕ → Bool
law_at b k j =
    bool_eq (bit_test (bit_set b k) j) ((k == j) || bit_test b j)
    && bool_eq (bit_test (bit_clear b k) j) (not (k == j) && bit_test b j)
    && ltb (bit_set b k) 256
    && ltb (bit_clear b k) 256

law_table : table (λ b. table (λ k. table (λ j. law_at b k j) 8) 8) 256 ≡ true
unfolding table bit_set bit_clear bit_test bool_eq
law_table = refl

module _ (b k j : ℕ) (hb : b < 256) (hk : k < 8) (hj : j < 8) where
  law : law_at b k j ≡ true
  law =
      table_entry (λ j. law_at b k j) 8 j hj
        (table_entry (λ k. table (λ j. law_at b k j) 8) 8 k hk
          (table_entry (λ b. table (λ k. table (λ j. law_at b k j) 8) 8) 256 b hb law_table))

  pub bit_test-bit_set : bit_test (bit_set b k) j ≡ ((k == j) || bit_test b j)
  bit_test-bit_set = bool_eq_sound _ _ (ground (arith, law))

  pub bit_test-bit_clear : bit_test (bit_clear b k) j ≡ (not (k == j) && bit_test b j)
  bit_test-bit_clear = bool_eq_sound _ _ (ground (arith, law))

module _ (b k : ℕ) (hb : b < 256) (hk : k < 8) where
  pub bit_set-lt : bit_set b k < 256
  bit_set-lt = ltb→lt _ _ (ground (arith, law b k k hb hk hk))

  pub bit_clear-lt : bit_clear b k < 256
  bit_clear-lt = ltb→lt _ _ (ground (arith, law b k k hb hk hk))
