-- ===== src/Tcp/Checksum.antt =====
-- kernel/net/tcp.c: `tcp_checksum`, the one's complement sum of the pseudo-header and the packet.
use hobbyos.Base.{
  ℕ, zero, suc, ◌+◌, ◌*◌, ◌-◌, ◌/◌, ◌%◌, ◌^◌, ◌≤◌, ◌<◌, ◌≡◌, refl, ◌∙◌, List, [], ◌∷◌, ◌++◌, ltb,
  ◌==◌, if◌then◌else◌, length, arith, Bool-cases, inl, inr, true, false,
}

-- The sum of the 16-bit words of memory, the low byte first, and of a last single byte.
unfoldable pub word_sum : List ℕ → ℕ
word_sum [] = 0
word_sum (a ∷ []) = a
word_sum (a ∷ b ∷ rest) = a + b * 256 + word_sum rest

-- `htonl` and `htons`, as bytes in memory.
abbrev be32 : ℕ → List ℕ
be32 x = x / 2 ^ 24 % 256 ∷ x / 2 ^ 16 % 256 ∷ x / 2 ^ 8 % 256 ∷ x % 256 ∷ []

abbrev be16 : ℕ → List ℕ
be16 x = x / 256 % 256 ∷ x % 256 ∷ []

abbrev pseudo_header : ℕ → ℕ → ℕ → List ℕ
pseudo_header src_ip dst_ip tcp_len = be32 src_ip ++ be32 dst_ip ++ (0 ∷ 6 ∷ []) ++ be16 tcp_len

-- `while (sum >> 16)`, with the turns that are left: three are enough for a 32-bit sum.
unfoldable pub fold_carries : ℕ → ℕ → ℕ
fold_carries zero sum = sum
fold_carries (suc left) sum =
    let rest = fold_carries left (sum % 2 ^ 16 + sum / 2 ^ 16) in
    if sum / 2 ^ 16 == 0 then sum else rest

unfoldable pub tcp_checksum : List ℕ → ℕ → ℕ → ℕ
unfolding word_sum fold_carries
tcp_checksum bytes src_ip dst_ip =
    let sum = (word_sum (pseudo_header src_ip dst_ip (length bytes)) + word_sum bytes) % 2 ^ 32 in
    2 ^ 16 - 1 - fold_carries 3 sum

-- One turn more changes nothing once the sum is a word.
folded : (left s : ℕ) → s < 2 ^ 16 → fold_carries left s ≡ s
unfolding fold_carries
folded zero s h = refl
folded (suc left) s h = let e : (s / 2 ^ 16 == 0) ≡ true = ground (arith, h) in rw e refl

fold_one :
    (left s : ℕ)
    → 2 ^ 16 ≤ s
    → fold_carries (suc left) s ≡ fold_carries left (s % 2 ^ 16 + s / 2 ^ 16)
unfolding fold_carries
fold_one left s h = let e : (s / 2 ^ 16 == 0) ≡ false = ground (arith, h) in rw e refl

-- The sum of a sum's two words has the same remainder by 2^16 - 1.
same_rest : (s : ℕ) → (s % 2 ^ 16 + s / 2 ^ 16) % 65535 ≡ s % 65535
same_rest s = omega arith

-- The word that the folding of a 32-bit sum ends with, whatever turns are allowed beyond three.
abbrev Folds : ℕ → ℕ → Type 0
Folds s r = (r < 2 ^ 16) × (r % 65535 ≡ s % 65535)

fold_more :
    (more s : ℕ)
    → s < 2 ^ 32
    → (r : ℕ) × Folds s r × (fold_carries (suc (suc (suc more))) s ≡ r) × (fold_carries 3 s ≡ r)
fold_more more s h = elim (Bool-cases (ltb s (2 ^ 16))) [
  | inl small ↦
      (let lt : s < 2 ^ 16 = ground (arith, small) in
        (s, (lt, refl), folded (suc (suc (suc more))) s lt, folded 3 s lt))
  | inr big ↦
      (let t = s % 2 ^ 16 + s / 2 ^ 16 in
        let le : 2 ^ 16 ≤ s = ground (arith, big) in
        elim (Bool-cases (ltb t (2 ^ 16))) [
          | inl small ↦
              (let lt : t < 2 ^ 16 = ground (arith, small) in
                (
                  t,
                  (lt, same_rest s),
                  fold_one (suc (suc more)) s le ∙ folded (suc (suc more)) t lt,
                  fold_one 2 s le ∙ folded 2 t lt,
                ))
          | inr big' ↦
              (let u = t % 2 ^ 16 + t / 2 ^ 16 in
                let le' : 2 ^ 16 ≤ t = ground (arith, big') in
                let top : t ≤ 131070 = omega (arith, h) in
                let lt : u < 2 ^ 16 = omega (arith, top, le') in
                (
                  u,
                  (lt, same_rest t ∙ same_rest s),
                  fold_one (suc (suc more)) s le
                      ∙ fold_one (suc more) t le'
                      ∙ folded (suc more) u lt,
                  fold_one 2 s le ∙ fold_one 1 t le' ∙ folded 1 u lt,
                ))
        ])
]

-- Three turns fold a 32-bit sum to 16 bits, keep its remainder by 2^16 - 1, and any further turns
-- change nothing.
pub fold_carries_lem :
    (more s : ℕ)
    → s < 2 ^ 32
    → (fold_carries 3 s < 2 ^ 16)
      × (fold_carries 3 s % 65535 ≡ s % 65535)
      × (fold_carries (suc (suc (suc more))) s ≡ fold_carries 3 s)
fold_carries_lem more s h =
    let (r, fits, long, short) = fold_more more s h in rw (short, long) (fits.0, fits.1, refl)
