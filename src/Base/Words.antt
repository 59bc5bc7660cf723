-- ===== src/Base/Words.antt =====
-- Single bits of a machine word of any width, by recursion on the digits.
use Prim.Native.Nat.{
  ℕ, zero, suc, ◌+◌, ◌*◌, ◌/◌, ◌%◌, ◌^◌, ◌≤◌, ◌<◌, min, max, bit_and, bit_or, digits,
  bit_and-bitwise, bit_or-bitwise,
}
use mathlib.Core.Path.{◌≡◌, refl, sym, ap, ◌∙◌}
use mathlib.Core.Bool.{Bool, false, not}
use native.Mathlib.Omega.{arith}
use native.Mathlib.Nat.{pow-suc}
use hobbyos.Base.Tests.{◌==◌}

-- The digit recursion behind the bit operations, for a rule `op` on digits and what is left of the
-- second word when the first has ended. More fuel than the first word's value changes nothing.
module _ (rest : ℕ → ℕ) (op : ℕ → ℕ → ℕ) where
  spare_fuel :
      (more fuel x y : ℕ)
      → x ≤ fuel
      → fuel ≤ more
      → digits rest op more x y ≡ digits rest op fuel x y
  spare_fuel zero zero x y enough le = refl
  spare_fuel zero (suc fuel) x y enough le = absurd (omega arith)
  spare_fuel (suc more) zero zero y enough le = refl
  spare_fuel (suc more) zero (suc x) y enough le = absurd (omega arith)
  spare_fuel (suc more) (suc fuel) zero y enough le = refl
  spare_fuel (suc more) (suc fuel) (suc x) y enough le =
      ap (λ (high : ℕ). high * 2 + op (suc x % 2) (y % 2))
        (spare_fuel more fuel (suc x / 2) (y / 2) (omega arith) (omega arith))

-- An operation on words splits into the lowest digits and the others.
pub bit_and_step : (a b : ℕ) → bit_and a b ≡ bit_and (a / 2) (b / 2) * 2 + min (a % 2) (b % 2)
bit_and_step zero b = omega (arith, bit_and-bitwise 0 b, bit_and-bitwise 0 (b / 2))
bit_and_step (suc a) b =
    bit_and-bitwise (suc a) b
    ∙ ap (λ (high : ℕ). high * 2 + min (suc a % 2) (b % 2))
        (spare_fuel (λ y. 0) min a (suc a / 2) (suc a / 2) (b / 2) (omega arith) (omega arith)
          ∙ sym (bit_and-bitwise (suc a / 2) (b / 2)))

pub bit_or_step : (a b : ℕ) → bit_or a b ≡ bit_or (a / 2) (b / 2) * 2 + max (a % 2) (b % 2)
bit_or_step zero b = omega (arith, bit_or-bitwise 0 b, bit_or-bitwise 0 (b / 2))
bit_or_step (suc a) b =
    bit_or-bitwise (suc a) b
    ∙ ap (λ (high : ℕ). high * 2 + max (suc a % 2) (b % 2))
        (spare_fuel (λ y. y) max a (suc a / 2) (suc a / 2) (b / 2) (omega arith) (omega arith)
          ∙ sym (bit_or-bitwise (suc a / 2) (b / 2)))

-- Bit `j` of a word, 0 or 1.
unfoldable pub bit : ℕ → ℕ → ℕ
bit x zero = x % 2
bit x (suc j) = bit (x / 2) j

pub bit-bit_and : (j a b : ℕ) → bit (bit_and a b) j ≡ min (bit a j) (bit b j)
unfolding bit
bit-bit_and zero a b = omega (arith, bit_and_step a b)
bit-bit_and (suc j) a b =
    let e : bit_and a b / 2 ≡ bit_and (a / 2) (b / 2) = omega (arith, bit_and_step a b) in
    rw e (bit-bit_and j (a / 2) (b / 2))

pub bit-bit_or : (j a b : ℕ) → bit (bit_or a b) j ≡ max (bit a j) (bit b j)
unfolding bit
bit-bit_or zero a b = omega (arith, bit_or_step a b)
bit-bit_or (suc j) a b =
    let e : bit_or a b / 2 ≡ bit_or (a / 2) (b / 2) = omega (arith, bit_or_step a b) in
    rw e (bit-bit_or j (a / 2) (b / 2))

-- `a & 0`, by halving `a` until it is gone.
no_mask : (fuel a : ℕ) → a < fuel → bit_and a 0 ≡ 0
no_mask zero a h = absurd (omega arith)
no_mask (suc fuel) zero h = refl
no_mask (suc fuel) (suc a) h =
    let half = no_mask fuel (suc a / 2) (omega arith) in omega (arith, bit_and_step (suc a) 0, half)

pub bit_and-zero : (a : ℕ) → bit_and a 0 ≡ 0
bit_and-zero a = no_mask (suc a) a (omega arith)

-- `a & (1 << k)` is bit `k` of `a`, in its place.
pub bit_and-pow : (k a : ℕ) → bit_and a (2 ^ k) ≡ bit a k * 2 ^ k
unfolding bit
bit_and-pow zero a = omega (arith, bit_and_step a 1, bit_and-zero (a / 2))
bit_and-pow (suc k) a =
    let half : 2 ^ suc k / 2 ≡ 2 ^ k = omega (arith, pow-suc 2 k) in
    let even : 2 ^ suc k % 2 ≡ 0 = omega (arith, pow-suc 2 k) in
    let rest : bit_and (a / 2) (2 ^ suc k / 2) ≡ bit (a / 2) k * 2 ^ k =
      rw half (bit_and-pow k (a / 2)) in
    omega (
      arith,
      bit_and_step a (2 ^ suc k),
      even,
      rest,
      pow-suc 2 k,
      ap (λ (t : ℕ). bit (a / 2) k * t) (pow-suc 2 k),
    )

pow_pos : (k : ℕ) → 0 < 2 ^ k
pow_pos zero = omega arith
pow_pos (suc k) = omega (arith, pow-suc 2 k, pow_pos k)

pub bit-lt : (j a : ℕ) → bit a j < 2
unfolding bit
bit-lt zero a = omega arith
bit-lt (suc j) a = bit-lt j (a / 2)

-- `(a & (1 << k)) != 0`
abbrev pub flag : ℕ → ℕ → Bool
flag a k = not (bit_and a (2 ^ k) == 0)

pub flag-bit : (a k : ℕ) → flag a k ≡ (bit a k == 1)
flag-bit a k = ground (arith, bit_and-pow k a, pow_pos k, bit-lt k a)

bit-zero : (j : ℕ) → bit 0 j ≡ 0
unfolding bit
bit-zero zero = refl
bit-zero (suc j) = bit-zero j

pub flag-zero : (j : ℕ) → flag 0 j ≡ false
flag-zero j = rw flag-bit (ground (arith, bit-zero j))
