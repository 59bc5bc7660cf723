-- ===== src/Ring.antt =====
-- The two loops over a circular buffer that kernel/fs/pipe.c and kernel/net/tcp.c share in form:
-- `cap` bytes, a position for the reader and one for the writer.
pub mod Window
pub mod Transfer
use hobbyos.Base.{ℕ, zero, suc, ◌+◌, ◌%◌, List, [], ◌∷◌, get_or, set}

-- for (i = 0; i < n; i++) { out[i] = buf[pos]; pos = (pos + 1) % cap; }
unfoldable pub copy_out : ℕ → List ℕ → ℕ → ℕ → List ℕ × ℕ
copy_out cap buf pos zero = ([], pos)
copy_out cap buf pos (suc n) =
    let (xs, pos') = copy_out cap buf ((pos + 1) % cap) n in (get_or buf pos 0 ∷ xs, pos')

-- for (i = 0; i < n; i++) { buf[pos] = src[i]; pos = (pos + 1) % cap; }, with the bytes of `src`.
unfoldable pub copy_in : ℕ → List ℕ → ℕ → List ℕ → List ℕ × ℕ
copy_in cap buf pos [] = (buf, pos)
copy_in cap buf pos (x ∷ xs) = copy_in cap (set buf pos x) ((pos + 1) % cap) xs
