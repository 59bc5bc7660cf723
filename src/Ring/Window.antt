-- ===== src/Ring/Window.antt =====
-- The bytes of a circular buffer from an index on.
use hobbyos.Base.{
  ℕ, zero, suc, ◌+◌, ◌-◌, ◌%◌, ◌≤◌, ◌<◌, ◌≡◌, refl, ◌≢◌, List, [], ◌∷◌, ◌++◌, arith, length, get_or,
  set, get_or-set_ne, get_or-set_self, ap, ap₂, ◌∙◌, ltb, if◌then◌else◌,
}
use native.Mathlib.Nat.{mod-eq_of_lt, mod-eq-sub-mod, mod-add-mod, zero-add}
use Prim.Native.Nat.add
use native.Mathlib.Decide.{dec_lt}

-- One turn at most: `%` takes the capacity off once.
turn :
    (cap h j : ℕ)
    → h < cap
    → j < cap
    → (h + j) % cap ≡ (if ltb (h + j) cap then h + j else h + j - cap)
turn cap h j hh hj = elim (dec_lt (h + j) cap) [
  | yes p ↦ ground (arith, mod-eq_of_lt p)
  | no p ↦ ground (
    arith,
    mod-eq-sub-mod {n = h + j} {m = cap} (omega arith),
    mod-eq_of_lt {n = h + j - cap} {m = cap} (omega arith),
  )
]

pub turn_lt : (cap h j : ℕ) → h < cap → (h + j) % cap < cap
turn_lt cap h j hh = omega arith

turn_ne : (cap h j n : ℕ) → h < cap → n < cap → j < n → (h + n) % cap ≢ (h + j) % cap
turn_ne cap h j n hh hn hj = ground (arith, turn cap h n hh hn, turn cap h j hh (omega arith))

pub turn_step : (cap h j : ℕ) → ((h + 1) % cap + j) % cap ≡ (h + suc j) % cap
turn_step cap h j = rw mod-add-mod (ap (λ k. k % cap) (omega arith))

module _ (cap : ℕ) where
  -- The `n` bytes of `buf` from `h` on, going round at `cap`.
  unfoldable pub window : List ℕ → ℕ → ℕ → List ℕ
  window buf h zero = []
  window buf h (suc n) = get_or buf h 0 ∷ window buf ((h + 1) % cap) n

  pub length-window : (buf : List ℕ) (h n : ℕ) → length (window buf h n) ≡ n
  unfolding window
  length-window buf h zero = refl
  length-window buf h (suc n) = ap suc (length-window buf ((h + 1) % cap) n)

  -- A write at an index outside a window leaves it.
  window_frame :
      (buf : List ℕ) (i x h n : ℕ)
      → ((j : ℕ) → j < n → i ≢ (h + j) % cap)
      → h < cap
      → window (set buf i x) h n ≡ window buf h n
  unfolding window
  window_frame buf i x h zero away hh = refl
  window_frame buf i x h (suc n) away hh =
      ap₂ ◌∷◌ (get_or-set_ne buf i h x 0 (λ e. away 0 (omega arith) (grind arith))) (
        window_frame buf i x ((h + 1) % cap) n
          (λ j hj e. away (suc j) (omega arith) (e ∙ turn_step cap h j)) (omega arith))

  -- A longer window is a shorter one and what comes behind it.
  pub window-append :
      (buf : List ℕ) (h m n : ℕ)
      → h < cap
      → window buf h (m + n) ≡ window buf h m ++ window buf ((h + m) % cap) n
  unfolding window
  window-append buf h zero n hh = let e : (h + 0) % cap ≡ h = grind arith in rw (e, zero-add)
  window-append buf h (suc m) n hh =
      rw (add.suc m n, ← turn_step cap h m)
        (ap (λ xs. get_or buf h 0 ∷ xs) (window-append buf ((h + 1) % cap) m n (omega arith)))

  -- A byte written just behind a window that does not fill the buffer extends the window.
  pub window_push :
      (buf : List ℕ) (h n x : ℕ)
      → cap ≤ length buf
      → h < cap
      → n < cap
      → window (set buf ((h + n) % cap) x) h (n + 1) ≡ window buf h n ++ (x ∷ [])
  unfolding window
  window_push buf h n x size hh hn =
      window-append (set buf ((h + n) % cap) x) h n 1 hh
      ∙ ap₂ ◌++◌ (window_frame buf ((h + n) % cap) x h n (λ j hj. turn_ne cap h j n hh hn hj) hh) (
          ap (λ y. y ∷ [])
            (get_or-set_self buf ((h + n) % cap) x 0 (omega (arith, turn_lt cap h n hh))))
