-- ===== src/Kheap/Layout.antt =====
-- The heap of kernel/memory/kheap.c as the sequence of its blocks: what it stands for, and changes
-- of headers that leave it as it is.
use hobbyos.Base.{
  ℕ, ◌+◌, ◌*◌, ◌≤◌, ◌<◌, ◌≡◌, ◌≢◌, refl, sym, ap, subst, ◌∙◌, Option, none, some, List, [], ◌∷◌,
  ◌==◌, if◌then◌else◌, length, arith, ne→==, ==→eq,
}
use hobbyos.Kheap.{
  Kheap, Block, Ptr, put, link, block_magic_alloc, block_magic_free, block_hdr_size,
}

-- A block of the heap, with its usable size.
pub data Chunk : Type 0 where
  used : ℕ → Chunk
  free : ℕ → Chunk

abbrev pub chunk_size : Chunk → ℕ
chunk_size (used s) = s
chunk_size (free s) = s

-- The blocks `cs` follow each other from `a` to `e`, each with its header, and the free ones are
-- linked in order, from `p` on.
abbrev pub Layout : (ℕ → Block) → ℕ → Ptr → List Chunk → ℕ → Type 0
Layout cell a p [] e = (a ≡ e) × (p ≡ none)
Layout cell a p (used s ∷ cs) e =
    ((cell a).magic ≡ block_magic_alloc)
    × ((cell a).size ≡ s)
    × Layout cell (a + block_hdr_size + s) p cs e
Layout cell a p (free s ∷ cs) e =
    ((cell a).magic ≡ block_magic_free)
    × ((cell a).size ≡ s)
    × (p ≡ some a)
    × Layout cell (a + block_hdr_size + s) (cell a).next cs e

-- A block in front of the others, from the header that stands at its start.
module _ (f : ℕ → Block) (a s : ℕ) (cs : List Chunk) (e : ℕ) (b : Block) (here : f a ≡ b) where
  pub lay_used :
      (p : Ptr)
      → b.magic ≡ block_magic_alloc
      → b.size ≡ s
      → Layout f (a + block_hdr_size + s) p cs e
      → Layout f a p (used s ∷ cs) e
  lay_used p m z l = (ap (λ (c : Block). c.magic) here ∙ m, ap (λ (c : Block). c.size) here ∙ z, l)

  pub lay_free :
      b.magic ≡ block_magic_free
      → b.size ≡ s
      → Layout f (a + block_hdr_size + s) b.next cs e
      → Layout f a (some a) (free s ∷ cs) e
  lay_free m z l =
      let next : (f a).next ≡ b.next = ap (λ (c : Block). c.next) here in
      (
        ap (λ (c : Block). c.magic) here ∙ m,
        ap (λ (c : Block). c.size) here ∙ z,
        refl,
        subst (λ (q : Ptr). Layout f (a + block_hdr_size + s) q cs e) (sym next) l,
      )

-- Headers that are the same from `a` on have the same blocks there.
pub frame :
    (f g : ℕ → Block) (a : ℕ) (p : Ptr) (cs : List Chunk) (e : ℕ)
    → ((x : ℕ) → a ≤ x → g x ≡ f x)
    → Layout f a p cs e
    → Layout g a p cs e
frame f g a p [] e same l = l
frame f g a p (used s ∷ cs) e same l =
    rw (same a (omega arith))
      (l.0, l.1, frame f g (a + block_hdr_size + s) p cs e (λ x h. same x (omega (arith, h))) l.2)
frame f g a p (free s ∷ cs) e same l = rw (same a (omega arith)) (
  l.0,
  l.1,
  l.2,
  frame f g (a + block_hdr_size + s) _ cs e (λ x h. same x (omega (arith, h))) l.3,
)

-- The blocks end where the heap does, and each takes a header at least.
pub span :
    (f : ℕ → Block) (a : ℕ) (p : Ptr) (cs : List Chunk) (e : ℕ)
    → Layout f a p cs e
    → a + block_hdr_size * length cs ≤ e
span f a p [] e l = omega (arith, l.0)
span f a p (used s ∷ cs) e l = omega (arith, span f (a + block_hdr_size + s) p cs e l.2)
span f a p (free s ∷ cs) e l = omega (arith, span f (a + block_hdr_size + s) _ cs e l.3)

-- The free block before `a` in the free list, or none.
abbrev pub Below : Ptr → ℕ → Type 0
Below none a = Unit
Below (some q) a = q < a

-- What `link` writes to: the pointer to the first free block from `a` on.
abbrev pub linked_at : Ptr → Kheap → Ptr
linked_at none h = h.free_list
linked_at (some q) h = (h.cell q).next

-- `r` is `h` with the link at `prev` set to `p`, but for the headers from `a` on.
pub record Agrees (a : ℕ) (prev p : Ptr) (h r : Kheap) : Type 0 where
  pub cells : (x : ℕ) → x < a → r.cell x ≡ (link prev p h).cell x
  pub list : r.free_list ≡ (link prev p h).free_list
  pub starts : r.heap_start ≡ h.heap_start
  pub ends : r.heap_end ≡ h.heap_end

pub put_self : (a : ℕ) (b : Block) (h : Kheap) → (put a b h).cell a ≡ b
put_self a b h = ground arith

pub put_ne : (a : ℕ) (b : Block) (h : Kheap) (x : ℕ) → x ≢ a → (put a b h).cell x ≡ h.cell x
put_ne a b h x ne = rw (ne→== x a ne) refl

-- A link to a block below leaves the headers from `a` on.
pub link_above :
    (prev p : Ptr) (h : Kheap) (a x : ℕ) → Below prev a → a ≤ x → (link prev p h).cell x ≡ h.cell x
link_above none p h a x b l = refl
link_above (some q) p h a x b l = put_ne q _ h x (λ e. omega (arith, e, b, l))

pub Below-up : (prev : Ptr) (a b : ℕ) → Below prev a → a ≤ b → Below prev b
Below-up none a b l m = tt
Below-up (some q) a b l m = omega arith

-- A link that is set to what it is.
pub link_same_at :
    (prev p : Ptr) (h : Kheap) (x : ℕ) → linked_at prev h ≡ p → (link prev p h).cell x ≡ h.cell x
link_same_at none p h x e = refl
link_same_at (some q) p h x e = ground (arith, ==→eq x q)

pub link_same_list_at :
    (prev p : Ptr) (h : Kheap) → linked_at prev h ≡ p → (link prev p h).free_list ≡ h.free_list
link_same_list_at none p h e = sym e
link_same_list_at (some q) p h e = refl

pub link_starts : (prev p : Ptr) (h : Kheap) → (link prev p h).heap_start ≡ h.heap_start
link_starts none p h = refl
link_starts (some q) p h = refl

-- A heap that differs from `h` only from `a` on, before the link is set.
pub link-Agrees :
    (a : ℕ) (prev p : Ptr) (h g : Kheap)
    → Below prev a
    → ((x : ℕ) → x < a → g.cell x ≡ h.cell x)
    → g.free_list ≡ h.free_list
    → g.heap_start ≡ h.heap_start
    → g.heap_end ≡ h.heap_end
    → Agrees a prev p h (link prev p g)
link-Agrees a none p h g b same l s e = record { cells = same; list = refl; starts = s; ends = e }
link-Agrees a (some q) p h g b same l s e = record {
  cells = λ x lt. ground (arith, same x lt, same q b);
  list = l;
  starts = s;
  ends = e;
}

-- The size of the allocated block that starts at `t`, as a map from addresses.
unfoldable pub used_at : ℕ → ℕ → List Chunk → Option ℕ
used_at t a [] = none
used_at t a (used s ∷ cs) =
    let rest = used_at t (a + block_hdr_size + s) cs in if a == t then some s else rest
used_at t a (free s ∷ cs) = used_at t (a + block_hdr_size + s) cs

pub used_above : (t a : ℕ) (cs : List Chunk) (n : ℕ) → used_at t a cs ≡ some n → a ≤ t
unfolding used_at
used_above t a [] n u = cc
used_above t a (used s ∷ cs) n u = ground (arith, used_above t (a + block_hdr_size + s) cs n)
used_above t a (free s ∷ cs) n u = omega (arith, used_above t (a + block_hdr_size + s) cs n u)

-- The first free block lies behind the start.
pub first_above :
    (f : ℕ → Block) (a : ℕ) (p : Ptr) (cs : List Chunk) (e x : ℕ)
    → Layout f a p cs e
    → p ≡ some x
    → a ≤ x
first_above f a p [] e x l i = cc
first_above f a p (used s ∷ cs) e x l i =
    omega (arith, first_above f (a + block_hdr_size + s) p cs e x l.2 i)
first_above f a p (free s ∷ cs) e x l i = ground (arith, l.2, i)
