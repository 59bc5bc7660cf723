-- ===== src/Base/Lists.antt =====
-- C arrays as lists with native indices, under the library's names.
use Prim.Native.Nat.{ℕ, zero, suc, ◌+◌, ◌-◌, ◌≤◌, ◌<◌, min}
use mathlib.Core.Path.{◌≡◌, refl, ap}
use mathlib.Core.Logic.{◌≢◌, inl, inr}
use mathlib.Core.Bool.{Bool, true, false}
use mathlib.Core.List.{List, [], ◌∷◌, ◌++◌}
use mathlib.Core.Option.{Option, none, some}
use native.Mathlib.Omega.{arith}
use hobbyos.Base.Tests.{if◌then◌else◌, ◌==◌, Bool-cases}

module _ {ℓ} {A : Type ℓ} where
  abbrev pub length : List A → ℕ
  length [] = 0
  length (x ∷ xs) = suc (length xs)

  abbrev pub get_elem? : List A → ℕ → Option A
  get_elem? [] i = none
  get_elem? (x ∷ xs) zero = some x
  get_elem? (x ∷ xs) (suc i) = get_elem? xs i

  abbrev pub get_or : List A → ℕ → A → A
  get_or [] i d = d
  get_or (x ∷ xs) zero d = x
  get_or (x ∷ xs) (suc i) d = get_or xs i d

  -- A write out of bounds changes nothing.
  abbrev pub set : List A → ℕ → A → List A
  set [] i v = []
  set (x ∷ xs) zero v = v ∷ xs
  set (x ∷ xs) (suc i) v = x ∷ set xs i v

  -- A change of one element; out of bounds there is none.
  abbrev pub modify : List A → ℕ → (A → A) → List A
  modify [] i f = []
  modify (x ∷ xs) zero f = f x ∷ xs
  modify (x ∷ xs) (suc i) f = x ∷ modify xs i f

  abbrev pub take : ℕ → List A → List A
  take zero xs = []
  take (suc n) [] = []
  take (suc n) (x ∷ xs) = x ∷ take n xs

  abbrev pub drop : ℕ → List A → List A
  drop zero xs = xs
  drop (suc n) [] = []
  drop (suc n) (x ∷ xs) = drop n xs

  abbrev pub replicate : ℕ → A → List A
  replicate zero a = []
  replicate (suc n) a = a ∷ replicate n a

  abbrev pub All {κ} : (A → Type κ) → List A → Type κ
  All P [] = Unit
  All P (x ∷ xs) = P x × All P xs

  pub length-append : (xs ys : List A) → length (xs ++ ys) ≡ length xs + length ys
  length-append [] ys = omega arith
  length-append (x ∷ xs) ys = omega (arith, length-append xs ys)

  pub length-set : (xs : List A) (i : ℕ) (v : A) → length (set xs i v) ≡ length xs
  length-set [] i v = refl
  length-set (x ∷ xs) zero v = refl
  length-set (x ∷ xs) (suc i) v = ap suc (length-set xs i v)

  pub length-replicate : (n : ℕ) (a : A) → length (replicate n a) ≡ n
  length-replicate zero a = refl
  length-replicate (suc n) a = ap suc (length-replicate n a)

  pub length-take : (n : ℕ) (xs : List A) → length (take n xs) ≡ min n (length xs)
  length-take zero xs = omega arith
  length-take (suc n) [] = omega arith
  length-take (suc n) (x ∷ xs) = omega (arith, length-take n xs)

  pub length-drop : (n : ℕ) (xs : List A) → length (drop n xs) ≡ length xs - n
  length-drop zero xs = omega arith
  length-drop (suc n) [] = omega arith
  length-drop (suc n) (x ∷ xs) = omega (arith, length-drop n xs)

  pub take-append-drop : (n : ℕ) (xs : List A) → take n xs ++ drop n xs ≡ xs
  take-append-drop zero xs = refl
  take-append-drop (suc n) [] = refl
  take-append-drop (suc n) (x ∷ xs) = ap (λ ys. x ∷ ys) (take-append-drop n xs)

  pub take_all : (n : ℕ) (xs : List A) → length xs ≤ n → take n xs ≡ xs
  take_all zero [] h = refl
  take_all zero (x ∷ xs) h = absurd (omega arith)
  take_all (suc n) [] h = refl
  take_all (suc n) (x ∷ xs) h = ap (λ ys. x ∷ ys) (take_all n xs (omega arith))

  pub get_or-set_self :
      (xs : List A) (i : ℕ) (v d : A) → i < length xs → get_or (set xs i v) i d ≡ v
  get_or-set_self [] i v d h = absurd (omega arith)
  get_or-set_self (x ∷ xs) zero v d h = refl
  get_or-set_self (x ∷ xs) (suc i) v d h = get_or-set_self xs i v d (omega arith)

  pub get_or-set_ne :
      (xs : List A) (i j : ℕ) (v d : A) → i ≢ j → get_or (set xs i v) j d ≡ get_or xs j d
  get_or-set_ne [] i j v d h = refl
  get_or-set_ne (x ∷ xs) zero zero v d h = absurd (h refl)
  get_or-set_ne (x ∷ xs) zero (suc j) v d h = refl
  get_or-set_ne (x ∷ xs) (suc i) zero v d h = refl
  get_or-set_ne (x ∷ xs) (suc i) (suc j) v d h = get_or-set_ne xs i j v d (λ e. h (ap suc e))

  pub get_or-set :
      (xs : List A) (i j : ℕ) (v d : A)
      → i < length xs
      → get_or (set xs i v) j d ≡ (if i == j then v else get_or xs j d)
  get_or-set [] i j v d h = absurd (omega arith)
  get_or-set (x ∷ xs) zero zero v d h = refl
  get_or-set (x ∷ xs) zero (suc j) v d h = ground arith
  get_or-set (x ∷ xs) (suc i) zero v d h = ground arith
  get_or-set (x ∷ xs) (suc i) (suc j) v d h = ground (arith, get_or-set xs i j v d)

  pub set-set : (xs : List A) (i : ℕ) (v w : A) → set (set xs i v) i w ≡ set xs i w
  set-set [] i v w = refl
  set-set (x ∷ xs) zero v w = refl
  set-set (x ∷ xs) (suc i) v w = ap (λ ys. x ∷ ys) (set-set xs i v w)

  pub set-get_or : (xs : List A) (i : ℕ) (d : A) → set xs i (get_or xs i d) ≡ xs
  set-get_or [] i d = refl
  set-get_or (x ∷ xs) zero d = refl
  set-get_or (x ∷ xs) (suc i) d = ap (λ ys. x ∷ ys) (set-get_or xs i d)

  pub length-modify : (xs : List A) (i : ℕ) (f : A → A) → length (modify xs i f) ≡ length xs
  length-modify [] i f = refl
  length-modify (x ∷ xs) zero f = refl
  length-modify (x ∷ xs) (suc i) f = ap suc (length-modify xs i f)

  pub get_or-modify_self :
      (xs : List A) (i : ℕ) (f : A → A) (d : A)
      → i < length xs
      → get_or (modify xs i f) i d ≡ f (get_or xs i d)
  get_or-modify_self [] i f d h = absurd (omega arith)
  get_or-modify_self (x ∷ xs) zero f d h = refl
  get_or-modify_self (x ∷ xs) (suc i) f d h = get_or-modify_self xs i f d (omega arith)

  pub get_or-modify_ne :
      (xs : List A) (i j : ℕ) (f : A → A) (d : A)
      → i ≢ j
      → get_or (modify xs i f) j d ≡ get_or xs j d
  get_or-modify_ne [] i j f d h = refl
  get_or-modify_ne (x ∷ xs) zero zero f d h = absurd (h refl)
  get_or-modify_ne (x ∷ xs) zero (suc j) f d h = refl
  get_or-modify_ne (x ∷ xs) (suc i) zero f d h = refl
  get_or-modify_ne (x ∷ xs) (suc i) (suc j) f d h = get_or-modify_ne xs i j f d (λ e. h (ap suc e))

  -- What a change leaves alone of every element is the same after it.
  pub get_or-modify_keeps {κ} :
      {B : Type κ} (part : A → B) (xs : List A) (i j : ℕ) (f : A → A) (d : A)
      → ((x : A) → part (f x) ≡ part x)
      → part (get_or (modify xs i f) j d) ≡ part (get_or xs j d)
  get_or-modify_keeps part [] i j f d h = refl
  get_or-modify_keeps part (x ∷ xs) zero zero f d h = h x
  get_or-modify_keeps part (x ∷ xs) zero (suc j) f d h = refl
  get_or-modify_keeps part (x ∷ xs) (suc i) zero f d h = refl
  get_or-modify_keeps part (x ∷ xs) (suc i) (suc j) f d h = get_or-modify_keeps part xs i j f d h

  pub modify-modify :
      (xs : List A) (i : ℕ) (f g : A → A) → modify (modify xs i f) i g ≡ modify xs i (λ x. g (f x))
  modify-modify [] i f g = refl
  modify-modify (x ∷ xs) zero f g = refl
  modify-modify (x ∷ xs) (suc i) f g = ap (λ ys. x ∷ ys) (modify-modify xs i f g)

  pub modify_self :
      (xs : List A) (i : ℕ) (f : A → A) (d : A)
      → f (get_or xs i d) ≡ get_or xs i d
      → modify xs i f ≡ xs
  modify_self [] i f d e = refl
  modify_self (x ∷ xs) zero f d e = ap (λ y. y ∷ xs) e
  modify_self (x ∷ xs) (suc i) f d e = ap (λ ys. x ∷ ys) (modify_self xs i f d e)

module _ {ℓ κ} {A : Type ℓ} (P : A → Type κ) where
  pub All-set : (xs : List A) (i : ℕ) (v : A) → All P xs → P v → All P (set xs i v)
  All-set [] i v h p = h
  All-set (x ∷ xs) zero v h p = (p, h.1)
  All-set (x ∷ xs) (suc i) v h p = (h.0, All-set xs i v h.1 p)

  pub All-get_or : (xs : List A) (i : ℕ) (d : A) → All P xs → P d → P (get_or xs i d)
  All-get_or [] i d h p = p
  All-get_or (x ∷ xs) zero d h p = h.0
  All-get_or (x ∷ xs) (suc i) d h p = All-get_or xs i d h.1 p

  pub All-inside : (xs : List A) (i : ℕ) (d : A) → All P xs → i < length xs → P (get_or xs i d)
  All-inside [] i d h l = absurd (omega arith)
  All-inside (x ∷ xs) zero d h l = h.0
  All-inside (x ∷ xs) (suc i) d h l = All-inside xs i d h.1 (omega arith)

  pub All-modify :
      (xs : List A) (i : ℕ) (f : A → A)
      → All P xs
      → ((x : A) → P x → P (f x))
      → All P (modify xs i f)
  All-modify [] i f h keep = h
  All-modify (x ∷ xs) zero f h keep = (keep x h.0, h.1)
  All-modify (x ∷ xs) (suc i) f h keep = (h.0, All-modify xs i f h.1 keep)

  pub All-modify_at :
      (xs : List A) (i : ℕ) (f : A → A) (d : A)
      → All P xs
      → (i < length xs → P (f (get_or xs i d)))
      → All P (modify xs i f)
  All-modify_at [] i f d h p = h
  All-modify_at (x ∷ xs) zero f d h p = (p (omega arith), h.1)
  All-modify_at (x ∷ xs) (suc i) f d h p = (h.0, All-modify_at xs i f d h.1 (λ l. p (omega arith)))

  pub All-replicate : (n : ℕ) (x : A) → P x → All P (replicate n x)
  All-replicate zero x p = tt
  All-replicate (suc n) x p = (p, All-replicate n x p)

-- A loop over an array that stops at the first element that passes a test.
module _ {ℓ} {A : Type ℓ} (test : A → Bool) where
  unfoldable pub find_from : ℕ → List A → Option ℕ
  find_from i [] = none
  find_from i (x ∷ xs) = let rest = find_from (i + 1) xs in if test x then some i else rest

  pub find_from-some :
      (i : ℕ) (xs : List A) (j : ℕ) (d : A)
      → find_from i xs ≡ some j
      → (i ≤ j) × (j < i + length xs) × (test (get_or xs (j - i) d) ≡ true)
  unfolding find_from
  find_from-some i [] j d e = cc
  find_from-some i (x ∷ xs) j d e = elim (Bool-cases (test x)) [
    | inl hit ↦
        let at_i : i ≡ j = ground arith in
        let first : j - i ≡ 0 = omega arith in (omega arith, omega arith, rw first hit)
    | inr miss ↦
        let (lo, hi, hit) = find_from-some (i + 1) xs j d (ground arith) in
        let later : j - i ≡ suc (j - (i + 1)) = omega arith in
        (omega arith, omega arith, rw later hit)
  ]

  pub find_from-none :
      (i : ℕ) (xs : List A) (j : ℕ) (d : A)
      → find_from i xs ≡ none
      → j < length xs
      → test (get_or xs j d) ≡ false
  unfolding find_from
  find_from-none i [] j d e h = absurd (omega arith)
  find_from-none i (x ∷ xs) zero d e h = ground arith
  find_from-none i (x ∷ xs) (suc j) d e h =
      find_from-none (i + 1) xs j d (ground arith) (omega arith)

  -- From the start of the array.
  abbrev pub find_index : List A → Option ℕ
  find_index = find_from 0
