-- ===== src/Kheap/Insert.antt =====
-- kernel/memory/kheap.c: a block that is freed joins the free list, and the free block behind it
-- joins the block.
use hobbyos.Base.{
  ℕ, zero, suc, ◌+◌, ◌≤◌, ◌<◌, ◌≡◌, ◌≢◌, refl, sym, ◌∙◌, ap, subst, Option, none, some, List, [],
  ◌∷◌, length, arith, ◌==◌, ltb, true, false, if◌then◌else◌, Bool-cases, Option-cases, inl, inr,
  eq→==, ne→==, ==→eq, ==→ne,
}
use hobbyos.Kheap.{
  Kheap, Block, Ptr, set_next, link, mark_free, join, neighbours, coalesce_next, insert_free,
  block_magic_free, block_hdr_size,
}
use hobbyos.Kheap.Layout.{
  Chunk, used, free, Layout, Below, Below-up, linked_at, Agrees, link_above, link-Agrees, put_self,
  put_ne, frame, lay_used, lay_free, used_at, used_above, first_above,
}
use hobbyos.Kheap.Walk.{Agrees-used, Agrees-free}

-- A free block of size `s` with those behind it, after the next one joined it if it is free.
unfoldable pub after : ℕ → List Chunk → List Chunk
after s [] = free s ∷ []
after s (used n ∷ cs) = free s ∷ used n ∷ cs
after s (free n ∷ cs) = free (s + block_hdr_size + n) ∷ cs

-- The blocks after the one at `t` is freed and joined by the next.
unfoldable pub freed : ℕ → ℕ → List Chunk → List Chunk
unfolding after
freed t a [] = []
freed t a (used s ∷ cs) =
    let rest = used s ∷ freed t (a + block_hdr_size + s) cs in if a == t then after s cs else rest
freed t a (free s ∷ cs) = free s ∷ freed t (a + block_hdr_size + s) cs

-- The last free block before `t`.
unfoldable pub prev_of : ℕ → ℕ → Ptr → List Chunk → Ptr
prev_of t a prev [] = prev
prev_of t a prev (used s ∷ cs) =
    let rest = prev_of t (a + block_hdr_size + s) prev cs in if a == t then prev else rest
prev_of t a prev (free s ∷ cs) = prev_of t (a + block_hdr_size + s) (some a) cs

-- `r` is `h` below `a`.
pub record Keeps (a : ℕ) (h r : Kheap) : Type 0 where
  pub cells : (x : ℕ) → x < a → r.cell x ≡ h.cell x
  pub list : r.free_list ≡ h.free_list
  pub starts : r.heap_start ≡ h.heap_start
  pub ends : r.heap_end ≡ h.heap_end

pub join_lem :
    (h : Kheap) (a s n : ℕ) (p : Ptr) (cs : List Chunk) (e : ℕ)
    → Layout h.cell a p (free s ∷ free n ∷ cs) e
    → Layout (join a (a + block_hdr_size + s) h).cell a p (free (s + block_hdr_size + n) ∷ cs) e
join_lem h a s n p cs e l =
    let b = a + block_hdr_size + s in
    let joined : Block = record (h.cell a) {
      size = (h.cell a).size + block_hdr_size + (h.cell b).size;
      next = (h.cell b).next;
    } in
    let l' = l.3 in
    let end : b + block_hdr_size + n ≡ a + block_hdr_size + (s + block_hdr_size + n) =
      omega arith in
    let rest =
      frame h.cell (join a b h).cell (b + block_hdr_size + n) (h.cell b).next cs e
        (λ x le. put_ne a joined h x (λ i. omega (arith, i, le))) l'.3 in
    rw l.2 (
      lay_free (join a b h).cell a (s + block_hdr_size + n) cs e joined (put_self a joined h) l.0
        (omega (arith, l.1, l'.1)) (rw (← end) rest))

pub join-Keeps : (a b : ℕ) (h : Kheap) → Keeps a h (join a b h)
join-Keeps a b h = record {
  cells = λ x lt. put_ne a _ h x (λ i. omega (arith, i, lt));
  list = refl;
  starts = refl;
  ends = refl;
}

pub Keeps-refl : (a : ℕ) (h : Kheap) → Keeps a h h
Keeps-refl a h = record { cells = λ x lt. refl; list = refl; starts = refl; ends = refl }

module _ (a : ℕ) (h : Kheap) where
  next_none : (h.cell a).next ≡ none → coalesce_next a h ≡ h
  unfolding coalesce_next
  next_none e = rw (e, coalesce_next) refl

  next_far :
      (n : ℕ)
      → (h.cell a).next ≡ some n
      → a + block_hdr_size + (h.cell a).size ≢ n
      → coalesce_next a h ≡ h
  unfolding coalesce_next
  next_far n e ne = rw (coalesce_next, e, ne→== _ n ne) refl

  next_near :
      (n : ℕ)
      → (h.cell a).next ≡ some n
      → a + block_hdr_size + (h.cell a).size ≡ n
      → coalesce_next a h ≡ join a n h
  unfolding coalesce_next
  next_near n e at = rw (coalesce_next, e, eq→== _ n at) refl

  -- A free list that goes on behind the next block.
  not_next :
      (s m : ℕ)
      → (h.cell a).size ≡ s
      → a + block_hdr_size + s < m
      → ((x : ℕ) → (h.cell a).next ≡ some x → m ≤ x)
      → coalesce_next a h ≡ h
  not_next s m z lt far = elim (Option-cases (h.cell a).next) [
    | inl e ↦ next_none e
    | inr (x, e) ↦ next_far x e (λ i. omega (arith, i, z, lt, far x e))
  ]

-- The blocks of `g` from `a` on are `cs`, and below it is `h`.
abbrev Joined : ℕ → Ptr → List Chunk → ℕ → Kheap → Kheap → Type 0
Joined a p cs e h g = Layout g.cell a p cs e × Keeps a h g

-- The next block joins, if it is free and starts where this one ends.
coalesce_lem :
    (h : Kheap) (a s : ℕ) (p : Ptr) (cs : List Chunk) (e : ℕ)
    → Layout h.cell a p (free s ∷ cs) e
    → Joined a p (after s cs) e h (coalesce_next a h)
unfolding after
coalesce_lem h a s p [] e l =
    subst (λ (g : Kheap). Joined a p (free s ∷ []) e h g) (sym (next_none a h l.3.1))
      (l, Keeps-refl a h)
coalesce_lem h a s p (used n ∷ cs) e l =
    let far = λ (x : ℕ) (i : (h.cell a).next ≡ some x).
      first_above h.cell (a + block_hdr_size + s + block_hdr_size + n) (h.cell a).next cs e x l.3.2
        i in
    subst (λ (g : Kheap). Joined a p (free s ∷ used n ∷ cs) e h g)
      (sym (not_next a h s _ l.1 (omega arith) far)) (l, Keeps-refl a h)
coalesce_lem h a s p (free n ∷ cs) e l =
    let b = a + block_hdr_size + s in
    subst (λ (g : Kheap). Joined a p (free (s + block_hdr_size + n) ∷ cs) e h g)
      (sym (next_near a h b l.3.2 (omega (arith, l.1))))
      (join_lem h a s n p cs e l, join-Keeps a b h)

-- The block of size `s` at `a` is marked as free and put between `prev` and the free blocks behind it.
inserted :
    (h : Kheap) (prev p : Ptr) (a s : ℕ) (cs : List Chunk) (e : ℕ)
    → Below prev a
    → Layout h.cell a p (used s ∷ cs) e
    → Layout (insert_free prev p a (mark_free a h)).cell a (some a) (free s ∷ cs) e
      × Agrees a prev (some a) h (insert_free prev p a (mark_free a h))
inserted h prev p a s cs e b l =
    let h1 = mark_free a h in
    let h2 = set_next a p h1 in
    let r = link prev (some a) h2 in
    let block : Block = record (h.cell a) { next = p; magic = block_magic_free } in
    let in_h2 : h2.cell a ≡ block = ground arith in
    let at_a : r.cell a ≡ block = link_above prev (some a) h2 a a b (omega arith) ∙ in_h2 in
    let rest =
      frame h.cell r.cell (a + block_hdr_size + s) p cs e
        (λ x le. link_above prev (some a) h2 a x b (omega (arith, le)) ∙ ground arith) l.2 in
    (
      lay_free r.cell a s cs e block at_a refl l.1 rest,
      link-Agrees a prev (some a) h h2 b (λ x lt. ground arith) refl refl refl,
    )

-- The state after the free block of the list at `prev` and behind it is found, and the block joins.
abbrev pub insert_block : ℕ → Kheap → Ptr × Ptr → Kheap
insert_block t h between = coalesce_next t (insert_free between.0 between.1 t (mark_free t h))

abbrev pub Inserts : ℕ → ℕ → Ptr → Kheap → ℕ → List Chunk → Option (Ptr × Ptr) → Type 0
Inserts t a prev h e cs o =
    (between : Ptr × Ptr) × (p : Ptr) × (o ≡ some between)
    × (between.0 ≡ prev_of t a prev cs)
    × Layout (insert_block t h between).cell a p (freed t a cs) e
    × Agrees a prev p h (insert_block t h between)

module _ (t left : ℕ) (prev : Ptr) (h : Kheap) where
  pass :
      (a : ℕ)
      → a < t
      → neighbours t (suc left) prev (some a) h ≡ neighbours t left (some a) (h.cell a).next h
  unfolding neighbours
  pass a lt = let e : ltb a t ≡ true = ground (arith, lt) in rw e refl

  stop :
      (p : Ptr) → ((x : ℕ) → p ≡ some x → t ≤ x) → neighbours t (suc left) prev p h ≡ some (prev, p)
  unfolding neighbours
  stop none far = refl
  stop (some a) far = let e : ltb a t ≡ false = ground (arith, far a refl) in rw e refl

-- The definitions at the block that is freed, and at another allocated one.
module _ (t a s : ℕ) (cs : List Chunk) where
  pub freed_here : a ≡ t → freed t a (used s ∷ cs) ≡ after s cs
  unfolding freed
  freed_here at = rw (eq→== a t at) refl

  pub freed_on : a ≢ t → freed t a (used s ∷ cs) ≡ used s ∷ freed t (a + block_hdr_size + s) cs
  unfolding freed
  freed_on ne = rw (ne→== a t ne) refl

  pub freed_free : freed t a (free s ∷ cs) ≡ free s ∷ freed t (a + block_hdr_size + s) cs
  unfolding freed
  freed_free = refl

  pub prev_here : (prev : Ptr) → a ≡ t → prev_of t a prev (used s ∷ cs) ≡ prev
  unfolding prev_of
  prev_here prev at = rw (eq→== a t at) refl

  pub prev_on :
      (prev : Ptr)
      → a ≢ t
      → prev_of t a prev (used s ∷ cs) ≡ prev_of t (a + block_hdr_size + s) prev cs
  unfolding prev_of
  prev_on prev ne = rw (ne→== a t ne) refl

  pub used_on : a ≢ t → used_at t a (used s ∷ cs) ≡ used_at t (a + block_hdr_size + s) cs
  unfolding used_at
  used_on ne = rw (ne→== a t ne) refl

module _ (left : ℕ) (prev p : Ptr) (h : Kheap) (a s : ℕ) (cs : List Chunk) (e : ℕ)
    (b : Below prev a) where
  here_lem :
      Layout h.cell a p (used s ∷ cs) e
      → Inserts a a prev h e (used s ∷ cs) (neighbours a (suc left) prev p (mark_free a h))
  here_lem l =
      let (lay, g) = inserted h prev p a s cs e b l in
      let (done, kept) =
        coalesce_lem (insert_free prev p a (mark_free a h)) a s (some a) cs e lay in
      let far : (x : ℕ) → p ≡ some x → a ≤ x =
        λ x i. omega (arith, first_above h.cell (a + block_hdr_size + s) p cs e x l.2 i) in
      (
        (prev, p),
        some a,
        stop a left prev (mark_free a h) p far,
        sym (prev_here a a s cs prev refl),
        subst (λ (xs : List Chunk). Layout (insert_block a h (prev, p)).cell a (some a) xs e)
            (sym (freed_here a a s cs refl)) done,
        record {
          cells = λ x lt. kept.cells x lt ∙ g.cells x lt;
          list = kept.list ∙ g.list;
          starts = kept.starts ∙ g.starts;
          ends = kept.ends ∙ g.ends;
        },
      )

pub freed_lem :
    (t left : ℕ) (prev p : Ptr) (h : Kheap) (a : ℕ) (cs : List Chunk) (e n : ℕ)
    → length cs < left
    → Below prev a
    → linked_at prev h ≡ p
    → Layout h.cell a p cs e
    → used_at t a cs ≡ some n
    → Inserts t a prev h e cs (neighbours t left prev p (mark_free t h))
unfolding used_at freed prev_of
freed_lem t zero prev p h a cs e n le b k l u = absurd (omega arith)
freed_lem t (suc left) prev p h a [] e n le b k l u = cc
freed_lem t (suc left) prev p h a (used s ∷ cs) e n le b k l u = elim (Bool-cases (a == t)) [
  | inl hit ↦
      subst
        (λ (x : ℕ).
          Inserts x a prev h e (used s ∷ cs) (neighbours x (suc left) prev p (mark_free x h)))
        (==→eq a t hit) (here_lem left prev p h a s cs e b l)
  | inr other ↦
      (let ne = ==→ne a t other in
        let (between, p', ran, pr, lay, g) =
          freed_lem t (suc left) prev p h (a + block_hdr_size + s) cs e n (omega arith)
            (Below-up prev a _ b (omega arith)) k l.2 (sym (used_on t a s cs ne) ∙ u) in
        let r = insert_block t h between in
        let same : r.cell a ≡ h.cell a =
          g.cells a (omega arith) ∙ link_above prev p' h a a b (omega arith) in
        (
          between,
          p',
          ran,
          pr ∙ sym (prev_on t a s cs prev ne),
          subst (λ (xs : List Chunk). Layout r.cell a p' xs e) (sym (freed_on t a s cs ne))
              (lay_used r.cell a s (freed t (a + block_hdr_size + s) cs) e (h.cell a) same p' l.0
                l.1 lay),
          Agrees-used a s h r prev p' g,
        ))
]
freed_lem t (suc left) prev p h a (free s ∷ cs) e n le b k l u =
    let lt : a < t = omega (arith, used_above t (a + block_hdr_size + s) cs n u) in
    let (between, p', ran, pr, lay, g) =
      freed_lem t left (some a) (h.cell a).next h (a + block_hdr_size + s) cs e n (omega arith)
        (omega arith) refl l.3 u in
    let r = insert_block t h between in
    let block : Block = record (h.cell a) { next = p' } in
    let same : r.cell a ≡ block = g.cells a (omega arith) ∙ put_self a _ h in
    let marked : ((mark_free t h).cell a).next ≡ (h.cell a).next =
      ap (λ (c : Block). c.next) (put_ne t _ h a (λ i. omega (arith, i, lt))) in
    let go : neighbours t (suc left) prev p (mark_free t h) ≡ some between =
      rw l.2 (pass t left prev (mark_free t h) a lt ∙ rw marked ran) in
    (
      between,
      some a,
      go,
      pr,
      lay_free r.cell a s (freed t (a + block_hdr_size + s) cs) e block same l.0 l.1 lay,
      Agrees-free a s h r prev p' (k ∙ l.2) g,
    )
