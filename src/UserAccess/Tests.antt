-- ===== src/UserAccess/Tests.antt =====
-- The checks at the edge of the kernel's range.
use hobbyos.Base.{◌≡◌, refl, ◌==◌, if◌then◌else◌, none, some, [], ◌∷◌, arith}
use hobbyos.UserAccess.{
  Memory, kernel_vma, read_bytes, write_bytes, copy_from_user, copy_to_user, string_from,
  verify_user_string,
}
use hobbyos.UserAccess.Range.{copy_user_lem, StringOk, verify_string-StringOk}

-- A word that ends at 0x1002, and 1 elsewhere.
abbrev memory : Memory
memory a = if a == 0x1002 then 0 else 1

finds_end : verify_user_string memory 0x1000 10 ≡ 2
unfolding verify_user_string string_from
finds_end = refl

-- An end beyond 2^64 is refused.
refuses_wrap : copy_from_user memory 0x1000 0xFFFFFFFFFFFFFFFF ≡ none
unfolding copy_from_user
refuses_wrap = refl

copy_user_lem_example :
    (copy_from_user memory 0x1001 2 ≡ some (1 ∷ 0 ∷ []))
    × (copy_to_user 0x1001 (7 ∷ 8 ∷ []) memory ≡ some (write_bytes memory 0x1001 (7 ∷ 8 ∷ [])))
    × (write_bytes memory 0x1001 (7 ∷ 8 ∷ []) kernel_vma ≡ memory kernel_vma)
unfolding read_bytes
copy_user_lem_example =
    copy_user_lem memory 0x1001 2 kernel_vma (7 ∷ 8 ∷ []) (omega arith) (omega arith) (omega arith)
      (omega arith)

verify_string-StringOk_example : StringOk memory 0x1000 10 (verify_user_string memory 0x1000 10)
verify_string-StringOk_example = verify_string-StringOk memory 0x1000 10 (omega arith)
