-- ===== src/Sched/Queue.antt =====
-- The list that the ready queue of scheduler.c stands for.
use hobbyos.Base.{
  ℕ, ◌<◌, ◌≡◌, refl, ◌≢◌, Bool, true, false, ◌||◌, Option, none, some, List, [], ◌∷◌, ◌++◌, ◌==◌,
  length, get_or, modify, get_or-modify_ne, get_or-modify_keeps, ◌∙◌, sym, subst,
  get_or-modify_self, length-modify, arith,
}
use hobbyos.Process.{Process, ProcessState, Kernel, zero_process}

abbrev pub has : ℕ → List ℕ → Bool
has i [] = false
has i (x ∷ xs) = (i == x) || has i xs

abbrev pub Distinct : List ℕ → Type 0
Distinct [] = Unit
Distinct (x ∷ xs) = (has x xs ≡ false) × Distinct xs

-- From `h` the `next` pointers lead through the processes `xs`, all of them ready, to NULL.
abbrev pub Linked : List Process → Option ℕ → List ℕ → Type 0
Linked t h [] = h ≡ none
Linked t h (x ∷ xs) =
    (h ≡ some x)
    × (x < length t)
    × ((get_or t x zero_process).state ≡ ProcessState.ready)
    × Linked t (get_or t x zero_process).next xs

abbrev pub last? : List ℕ → Option ℕ
last? [] = none
last? (x ∷ []) = some x
last? (x ∷ y ∷ ys) = last? (y ∷ ys)

pub record IsQueue (k : Kernel) (xs : List ℕ) : Type 0 where
  pub linked : Linked k.table k.queue_head xs
  pub tail : k.queue_tail ≡ last? xs
  pub distinct : Distinct xs

pub has-append : (i : ℕ) (xs : List ℕ) (y : ℕ) → has i (xs ++ (y ∷ [])) ≡ (has i xs || (i == y))
has-append i [] y = ground arith
has-append i (x ∷ xs) y = ground (arith, has-append i xs y)

pub Distinct-append :
    (xs : List ℕ) (y : ℕ) → Distinct xs → has y xs ≡ false → Distinct (xs ++ (y ∷ []))
Distinct-append [] y d h = (refl, tt)
Distinct-append (x ∷ xs) y d h =
    (ground (arith, has-append x xs y), Distinct-append xs y d.1 (ground arith))

pub last?-append : (xs : List ℕ) (y : ℕ) → last? (xs ++ (y ∷ [])) ≡ some y
last?-append [] y = refl
last?-append (x ∷ []) y = refl
last?-append (x ∷ z ∷ zs) y = last?-append (z ∷ zs) y

pub last?-has : (xs : List ℕ) (l : ℕ) → last? xs ≡ some l → has l xs ≡ true
last?-has [] l e = cc
last?-has (x ∷ []) l e = ground arith
last?-has (x ∷ y ∷ ys) l e = ground (arith, last?-has (y ∷ ys) l e)

-- A change of a process outside the chain keeps it.
pub Linked-modify :
    (t : List Process) (i : ℕ) (f : Process → Process) (xs : List ℕ) (h : Option ℕ)
    → has i xs ≡ false
    → Linked t h xs
    → Linked (modify t i f) h xs
Linked-modify t i f [] h out l = l
Linked-modify t i f (x ∷ xs) h out l =
    let ne : i ≢ x = ground arith in
    let same : get_or (modify t i f) x zero_process ≡ get_or t x zero_process =
      get_or-modify_ne t i x f zero_process ne in
    (
      l.0,
      rw (length-modify t i f) l.1,
      rw same l.2,
      rw same (Linked-modify t i f xs _ (ground arith) l.3),
    )

-- So does a change that leaves states and links alone.
pub Linked-keep :
    (t : List Process) (i : ℕ) (f : Process → Process) (xs : List ℕ) (h : Option ℕ)
    → ((p : Process) → (f p).state ≡ p.state)
    → ((p : Process) → (f p).next ≡ p.next)
    → Linked t h xs
    → Linked (modify t i f) h xs
Linked-keep t i f [] h s n l = l
Linked-keep t i f (x ∷ xs) h s n l = (
  l.0,
  rw (length-modify t i f) l.1,
  get_or-modify_keeps (λ (p : Process). p.state) t i x f zero_process s ∙ l.2,
  subst (λ o. Linked (modify t i f) o xs)
      (sym (get_or-modify_keeps (λ (p : Process). p.next) t i x f zero_process n))
      (Linked-keep t i f xs _ s n l.3),
)

-- To link a ready process that ends at NULL behind the last of the chain.
module _ (t : List Process) (y l : ℕ) where
  abbrev pub linked_to : List Process
  linked_to = modify t l (λ p. record p { next = some y })

  pub Linked-append :
      (x : ℕ) (xs : List ℕ) (h : Option ℕ)
      → Distinct (x ∷ xs)
      → has y (x ∷ xs) ≡ false
      → last? (x ∷ xs) ≡ some l
      → y < length t
      → (get_or t y zero_process).state ≡ ProcessState.ready
      → (get_or t y zero_process).next ≡ none
      → Linked t h (x ∷ xs)
      → Linked linked_to h (x ∷ xs ++ (y ∷ []))
  Linked-append x [] h d out e hy sy ny k =
      let xl : x ≡ l = ground arith in
      let ne : l ≢ y = ground arith in
      let f : Process → Process = λ p. record p { next = some y } in
      let here : get_or linked_to x zero_process
          ≡ record (get_or t x zero_process) { next = some y } =
        rw (← xl) (get_or-modify_self t x f zero_process k.1) in
      let there : get_or linked_to y zero_process ≡ get_or t y zero_process =
        get_or-modify_ne t l y f zero_process ne in
      let len : length linked_to ≡ length t = length-modify t l f in
      (k.0, rw len k.1, rw here k.2, (rw here refl, rw len hy, rw there sy, rw there ny))
  Linked-append x (z ∷ zs) h d out e hy sy ny k =
      let ne : l ≢ x = λ eq. ground (arith, last?-has (z ∷ zs) l e) in
      let same : get_or linked_to x zero_process ≡ get_or t x zero_process =
        get_or-modify_ne t l x (λ p. record p { next = some y }) zero_process ne in
      let rest =
        Linked-append z zs (get_or t x zero_process).next d.1 (ground arith) e hy sy ny k.3 in
      (k.0, rw (length-modify t l (λ p. record p { next = some y })) k.1, rw same k.2, rw same rest)
