-- ===== src/UserAccess.antt =====
-- kernel/memory/user_access.c: copies between kernel and user memory, with the check that the user's
-- range lies below the kernel's. Memory is a function from addresses to bytes; addresses and sizes
-- are 64-bit words. A fault on a user page that is not mapped is not modelled.
pub mod Range
mod Tests
use hobbyos.Base.{
  ℕ, zero, suc, ◌+◌, ◌-◌, ◌%◌, ◌^◌, Bool, ◌&&◌, ◌||◌, Option, none, some, List, [], ◌∷◌, ltb, ◌==◌,
  not, if◌then◌else◌, length, get_or,
}

abbrev pub kernel_vma : ℕ
kernel_vma = 0xFFFFFFFF80000000

abbrev pub Memory : Type 0
Memory = ℕ → ℕ

-- The bytes from `a` on, and memory with bytes written there.
unfoldable pub read_bytes : Memory → ℕ → ℕ → List ℕ
read_bytes m a zero = []
read_bytes m a (suc n) = m a ∷ read_bytes m (a + 1) n

abbrev pub write_bytes : Memory → ℕ → List ℕ → Memory
write_bytes m a bytes x =
    if not (ltb x a) && ltb x (a + length bytes) then get_or bytes (x - a) 0 else m x

-- `start >= KERNEL_VMA || end >= KERNEL_VMA || end < start`
abbrev pub is_bad_range : ℕ → ℕ → Bool
is_bad_range start len =
    let end = (start + len) % 2 ^ 64 in
    not (ltb start kernel_vma) || not (ltb end kernel_vma) || ltb end start

-- The bytes that are copied to `dst`, or -1.
unfoldable pub copy_from_user : Memory → ℕ → ℕ → Option (List ℕ)
copy_from_user m src len = if is_bad_range src len then none else some (read_bytes m src len)

unfoldable pub copy_to_user : ℕ → List ℕ → Memory → Option Memory
copy_to_user dst bytes m =
    if is_bad_range dst (length bytes) then none else some (write_bytes m dst bytes)

-- `(int)-1`
abbrev pub not_found : ℕ
not_found = 2 ^ 32 - 1

-- `for (i = ..; i < max_len; i++)`, with the rounds that are left.
unfoldable pub string_from : ℕ → ℕ → Memory → ℕ → ℕ
string_from zero i m addr = not_found
string_from (suc left) i m addr =
    let rest = string_from left (i + 1) m addr in
    if not (ltb (addr + i) kernel_vma)
    then not_found
    else if m (addr + i) == 0
    then i % 2 ^ 32
    else rest

-- The length of the string, or -1, as the word of 32 bits that an `int` is.
unfoldable pub verify_user_string : Memory → ℕ → ℕ → ℕ
unfolding string_from
verify_user_string m addr max_len =
    if not (ltb addr kernel_vma) then not_found else string_from max_len 0 m addr
