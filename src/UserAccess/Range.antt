-- ===== src/UserAccess/Range.antt =====
-- No copy reads or writes kernel memory, and no wrap-around of an address gets past the check.
use hobbyos.Base.{
  subst, ◌%◌, ℕ, zero, suc, ◌+◌, ◌^◌, ◌≤◌, ◌<◌, ◌≡◌, ◌≢◌, refl, ap, ◌∙◌, false, ◌&&◌, none, some,
  List, ltb, ◌==◌, not, if◌then◌else◌, length, arith, Bool-cases, inl, inr, ==→eq, ==→ne, ltb→lt,
}
use hobbyos.UserAccess.{
  Memory, kernel_vma, read_bytes, write_bytes, is_bad_range, copy_from_user, copy_to_user,
  string_from, verify_user_string, not_found,
}

-- The check on 64-bit words is the comparison of the true end of the range with the kernel's start.
range_lem :
    (start len : ℕ)
    → start < 2 ^ 64
    → len < 2 ^ 64
    → is_bad_range start len ≡ not (ltb (start + len) kernel_vma)
range_lem start len hs hl = ground arith

-- Both copies succeed exactly when the whole range, with its end, lies below the kernel; then a copy
-- in yields the bytes there, and a copy out changes no byte of the kernel's.
pub copy_user_lem :
    (m : Memory) (user len kernel : ℕ) (bytes : List ℕ)
    → user < 2 ^ 64
    → length bytes < 2 ^ 64
    → length bytes ≡ len
    → kernel_vma ≤ kernel
    → (let below = ltb (user + len) kernel_vma in
        (copy_from_user m user len ≡ (if below then some (read_bytes m user len) else none))
        × (copy_to_user user bytes m ≡ (if below then some (write_bytes m user bytes) else none))
        × ((if below then write_bytes m user bytes else m) kernel ≡ m kernel))
unfolding copy_from_user copy_to_user
copy_user_lem m user len kernel bytes hu hb e hk =
    let r = range_lem user len hu (omega arith) in
    let r' : is_bad_range user (length bytes) ≡ not (ltb (user + len) kernel_vma) =
      ap (is_bad_range user) e ∙ r in
    elim (Bool-cases (ltb (user + len) kernel_vma)) [
      | inl below ↦
          let out : (not (ltb kernel user) && ltb kernel (user + length bytes)) ≡ false =
            ground (arith, below) in
          rw (r, r', below) (refl, refl, rw out refl)
      | inr above ↦ rw (r, r', above) (refl, refl, refl)
    ]

-- How the check of a string ends: with the place of the first zero byte, which lies below the kernel
-- and among the first `max_len` bytes, or with -1, when there is none in that range.
pub data StringOk (m : Memory) (addr max_len : ℕ) : ℕ → Type 0 where
  ends :
      (i : ℕ)
      → i < max_len
      → addr + i < kernel_vma
      → m (addr + i) ≡ 0
      → ((j : ℕ) → j < i → m (addr + j) ≢ 0)
      → StringOk m addr max_len i
  no_end :
      ((i : ℕ) → i < max_len → addr + i < kernel_vma → m (addr + i) ≢ 0)
      → StringOk m addr max_len not_found

string_from-StringOk :
    (left i : ℕ) (m : Memory) (addr max_len : ℕ)
    → max_len ≤ 2 ^ 31
    → i + left ≡ max_len
    → ((j : ℕ) → j < i → m (addr + j) ≢ 0)
    → StringOk m addr max_len (string_from left i m addr)
unfolding string_from
string_from-StringOk zero i m addr max_len small e seen =
    StringOk.no_end (λ j lt below. seen j (omega arith))
string_from-StringOk (suc left) i m addr max_len small e seen =
    elim (Bool-cases (ltb (addr + i) kernel_vma)) [
      | inr above ↦ rw above (StringOk.no_end (λ j lt below. seen j (ground (arith, above))))
      | inl below ↦ elim (Bool-cases (m (addr + i) == 0)) [
        | inl z ↦
            (let word : i ≡ i % 2 ^ 32 = omega (arith, e, small) in
              rw (below, z)
                (subst (StringOk m addr max_len) word
                  (StringOk.ends i (omega (arith, e)) (ltb→lt _ _ below) (==→eq _ 0 z) seen)))
        | inr nz ↦
            rw (below, nz)
              (string_from-StringOk left (i + 1) m addr max_len small (omega (arith, e)) (λ j lt.
                elim (Bool-cases (j == i)) [
                  | inl same ↦ rw (==→eq j i same) (==→ne _ 0 nz)
                  | inr other ↦ seen j (ground (arith, other))
                ]))
      ]
    ]

-- verify_user_string for at most 2^31 bytes returns the place of the first zero byte, if it lies
-- below the kernel and among the first max_len bytes, and -1 exactly without one there.
pub verify_string-StringOk :
    (m : Memory) (addr max_len : ℕ)
    → max_len ≤ 2 ^ 31
    → StringOk m addr max_len (verify_user_string m addr max_len)
unfolding verify_user_string
verify_string-StringOk m addr max_len small = elim (Bool-cases (ltb addr kernel_vma)) [
  | inl below ↦ rw below (
      string_from-StringOk max_len 0 m addr max_len small (omega arith)
        (λ j lt. absurd (omega arith)))
  | inr above ↦ rw above (StringOk.no_end (λ i lt below. absurd (ground (arith, above))))
]
