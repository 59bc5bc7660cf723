-- ===== src/Ring/Transfer.antt =====
-- What the two loops move: a prefix of the bytes that the buffer holds, and bytes behind them.
use hobbyos.Base.{
  ℕ, zero, suc, ◌+◌, ◌-◌, ◌%◌, ◌≤◌, ◌<◌, ◌≡◌, refl, sym, List, [], ◌∷◌, ◌++◌, arith, length, set,
  length-set, ap, ◌∙◌, append-nil, append_assoc, take, drop,
}
use native.Mathlib.Nat.{add-zero, mod-add-mod}
use hobbyos.Ring.{copy_out, copy_in}
use hobbyos.Ring.Window.{window, window-append, window_push, turn_step, turn_lt, length-window}

-- A circular buffer: `count` bytes from `rp` on, the next one goes to `wp`.
pub record IsRing (cap : ℕ) (buf : List ℕ) (rp wp count : ℕ) : Type 0 where
  pub size : length buf ≡ cap
  pub reader : rp < cap
  pub fits : count ≤ cap
  pub writer : wp ≡ (rp + count) % cap

take-append {ℓ} : {A : Type ℓ} (n : ℕ) (xs ys : List A) → length xs ≡ n → take n (xs ++ ys) ≡ xs
take-append {A} n xs ys e = rw (← e) (at_length xs ys)
  where
    at_length : (xs ys : List A) → take (length xs) (xs ++ ys) ≡ xs
    at_length [] [] = refl
    at_length [] (y ∷ ys) = refl
    at_length (x ∷ xs) ys = ap (λ zs. x ∷ zs) (at_length xs ys)

drop-append {ℓ} : {A : Type ℓ} (n : ℕ) (xs ys : List A) → length xs ≡ n → drop n (xs ++ ys) ≡ ys
drop-append {A} n xs ys e = rw (← e) (at_length xs ys)
  where
    at_length : (xs ys : List A) → drop (length xs) (xs ++ ys) ≡ ys
    at_length [] ys = refl
    at_length (x ∷ xs) ys = at_length xs ys

pub copy_out-window :
    (cap : ℕ) (buf : List ℕ) (pos n : ℕ)
    → pos < cap
    → copy_out cap buf pos n ≡ (window cap buf pos n, (pos + n) % cap)
unfolding copy_out window
copy_out-window cap buf pos zero h = ap (λ (p : ℕ). ([], p)) (grind arith)
copy_out-window cap buf pos (suc n) h =
    rw (copy_out-window cap buf ((pos + 1) % cap) n (omega arith), turn_step cap pos n)

module _ (cap : ℕ) (buf : List ℕ) (rp wp count : ℕ) (r : IsRing cap buf rp wp count) where
  -- The loop of a reader yields the oldest bytes in order, and leaves the others.
  pub copy_out_lem :
      (n : ℕ)
      → n ≤ count
      → let (xs, rp') = copy_out cap buf rp n in
        (xs ≡ take n (window cap buf rp count))
        × (window cap buf rp' (count - n) ≡ drop n (window cap buf rp count))
        × IsRing cap buf rp' wp (count - n)
  copy_out_lem n h =
      let whole : window cap buf rp count
          ≡ window cap buf rp n ++ window cap buf ((rp + n) % cap) (count - n) =
        ap (λ k. window cap buf rp k) (omega arith)
        ∙ window-append cap buf rp n (count - n) r.reader in
      let len = length-window cap buf rp n in
      rw (copy_out-window cap buf rp n r.reader, whole)
        (
          sym (
              take-append n (window cap buf rp n) (window cap buf ((rp + n) % cap) (count - n))
                len),
          sym (
              drop-append n (window cap buf rp n) (window cap buf ((rp + n) % cap) (count - n))
                len),
          record {
            size = r.size;
            reader = turn_lt cap rp n r.reader;
            fits = omega (arith, r.fits);
            writer = rw mod-add-mod (r.writer ∙ ap (λ k. k % cap) (omega arith));
          },
        )

-- The loop of a writer puts its bytes behind those that are there, if they fit.
pub copy_in-window :
    (cap : ℕ) (xs : List ℕ) (buf : List ℕ) (rp wp count : ℕ)
    → IsRing cap buf rp wp count
    → count + length xs ≤ cap
    → let (buf', wp') = copy_in cap buf wp xs in
      (window cap buf' rp (count + length xs) ≡ window cap buf rp count ++ xs)
      × IsRing cap buf' rp wp' (count + length xs)
unfolding copy_in
copy_in-window cap [] buf rp wp count r h = rw (add-zero, append-nil) (refl, r)
copy_in-window cap (x ∷ xs) buf rp wp count r h =
    let r' : IsRing cap (set buf wp x) rp ((wp + 1) % cap) (count + 1) = record {
      size = length-set buf wp x ∙ r.size;
      reader = r.reader;
      fits = omega arith;
      writer = rw (r.writer, mod-add-mod) (ap (λ k. k % cap) (omega arith));
    } in
    let e : count + 1 + length xs ≡ count + suc (length xs) = omega arith in
    let pushed : window cap (set buf wp x) rp (count + 1) ≡ window cap buf rp count ++ (x ∷ []) =
      rw r.writer (window_push cap buf rp count x (omega (arith, r.size)) r.reader (omega arith)) in
    let rest =
      copy_in-window cap xs (set buf wp x) rp ((wp + 1) % cap) (count + 1) r' (omega arith) in
    rw (← e) (rest.0 ∙ rw pushed (append_assoc (window cap buf rp count) (x ∷ []) xs), rest.1)
