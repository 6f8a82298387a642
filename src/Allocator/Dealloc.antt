-- ===== src/Allocator/Dealloc.antt =====
-- src/allocator.rs: `dealloc` on the pointers puts the block back in order and joins neighbours.
use macha_os.Prelude.{
  ℕ, ◌+◌, ◌^◌, ◌<◌, ◌≤◌, ◌≡◌, ◌≢◌, refl, sym, ap, subst, ◌∙◌, true, false, List, [], ◌∷◌, inl, inr,
  arith, ◌==◌, Bool-cases,
}
use macha_os.Allocator.{
  Block, FreeListAllocator, header_size, link_block, absorb, coalesce_next, coalesce_previous,
  insert_block,
}
use macha_os.Allocator.Chain.{Free, end_of, Chain, Ordered, Chain-frame}
use macha_os.Allocator.Blocks.{join}

-- `s'` has the list `bs` from `p` on, and differs from `s` only there.
record Rebuilt (s s' : FreeListAllocator) (p : ℕ) (bs : List Free) : Type 0 where
  pub chain : Chain s'.mem p bs
  frame : (x : ℕ) → x ≢ p → s'.mem x ≡ s.mem x
  head_same : s'.head ≡ s.head
  pub total_same : s'.total ≡ s.total
  pub base_same : s'.base ≡ s.base
  pub allocated_same : s'.allocated ≡ s.allocated

module _ (s : FreeListAllocator) (hi : ℕ) (a : Free) (apos : 0 < a.at) (in_heap : end_of a ≤ hi)
    (bound : hi ≤ 2 ^ 63) (same : (s.mem a.at).size ≡ a.size) where
  -- The successor is swallowed where it touches, and then the list goes on behind it.
  absorb-Rebuilt :
      (c : Free) (bs : List Free)
      → end_of a ≡ c.at
      → Ordered (end_of a) hi (c ∷ bs)
      → Chain s.mem c.at (c ∷ bs)
      → Rebuilt s
          (absorb s a.at c.at)
          a.at
          (record { at = a.at; size = a.size + header_size + c.size } ∷ bs)
  absorb-Rebuilt c bs touch o ch = record {
    chain = (
      refl,
      ground (arith, ch.1, o.1),
      subst (λ p. Chain (absorb s a.at c.at).mem p bs) next_same rest,
    );
    frame = λ x ne. ground arith;
    head_same = refl;
    total_same = refl;
    base_same = refl;
    allocated_same = refl;
  }
    where
      rest : Chain (absorb s a.at c.at).mem (s.mem c.at).next bs
      rest =
          Chain-frame s.mem (absorb s a.at c.at).mem (s.mem c.at).next (end_of c + 1) hi bs
            (λ x le. ground arith) o.4 ch.2

      next_same : (s.mem c.at).next ≡ ((absorb s a.at c.at).mem a.at).next
      next_same = ground arith

  coalesce_next-Rebuilt :
      (p : ℕ) (bs : List Free)
      → (s.mem a.at).next ≡ p
      → Ordered (end_of a) hi bs
      → Chain s.mem p bs
      → Rebuilt s (coalesce_next s a.at p) a.at (join a bs)
  unfolding coalesce_next join
  coalesce_next-Rebuilt p [] e o c = rw (c) (record {
    chain = (refl, same, e ∙ c);
    frame = λ x ne. refl;
    head_same = refl;
    total_same = refl;
    base_same = refl;
    allocated_same = refl;
  })
  coalesce_next-Rebuilt p (c ∷ bs) e o ch = elim (Bool-cases (end_of a == c.at)) [
    | inl touch ↦ rw (touch, merged touch) (absorb-Rebuilt c bs (ground arith) o (refl, ch.1, ch.2))
    | inr gap ↦
        rw (gap, apart gap)
          (record {
            chain = (refl, same, subst (λ q. Chain s.mem q (c ∷ bs)) (sym e) ch);
            frame = λ x ne. refl;
            head_same = refl;
            total_same = refl;
            base_same = refl;
            allocated_same = refl;
          })
  ]
    where
      merged : (end_of a == c.at) ≡ true → coalesce_next s a.at p ≡ absorb s a.at c.at
      merged t = ground (arith, o.0, ch.0)

      apart : (end_of a == c.at) ≡ false → coalesce_next s a.at p ≡ s
      apart t = ground (arith, o.0, ch.0)

coalesce_previous-eq :
    (s : FreeListAllocator) (a p : ℕ)
    → 0 < a
    → 0 < p
    → coalesce_previous s a p ≡ coalesce_next s a p
unfolding coalesce_previous coalesce_next
coalesce_previous-eq s a p h k = ground arith

coalesce_previous-null : (s : FreeListAllocator) (p : ℕ) → coalesce_previous s 0 p ≡ s
unfolding coalesce_previous
coalesce_previous-null s p = refl

-- What the rest of `dealloc` does from the gap `previous`, `current` on: the block and its neighbours
-- become one list, entered at the head or behind `a`, and nothing else below changes.
pub record Freed (s s' : FreeListAllocator) (p lo : ℕ) (bs : List Free) : Type 0 where
  pub chain : Chain s'.mem p bs
  pub below : (x : ℕ) → x < lo → s'.mem x ≡ s.mem x
  pub total_same : s'.total ≡ s.total
  pub base_same : s'.base ≡ s.base
  pub allocated_same : s'.allocated ≡ s.allocated

module _ (s : FreeListAllocator) (hi : ℕ) (b : Free) (bs : List Free) (pos : 0 < b.at)
    (in_heap : end_of b ≤ hi) (bound : hi ≤ 2 ^ 63) (header : (s.mem b.at).size ≡ b.size)
    (current : ℕ) (o : Ordered (end_of b) hi bs) (c : Chain s.mem current bs) where
  linked-Chain :
      (previous : ℕ) → previous < b.at → Chain (link_block s b.at previous current).mem current bs
  unfolding link_block
  linked-Chain previous lt =
      Chain-frame s.mem (link_block s b.at previous current).mem current (end_of b) hi bs
        (λ x le. ground arith) o c

  linked-Rebuilt :
      (previous : ℕ)
      → previous < b.at
      → Rebuilt
          (link_block s b.at previous current)
          (coalesce_next (link_block s b.at previous current) b.at current)
          b.at
          (join b bs)
  unfolding link_block
  linked-Rebuilt previous lt =
      coalesce_next-Rebuilt (link_block s b.at previous current) hi b pos in_heap bound
        (ground arith) current bs (ground arith) o (linked-Chain previous lt)

  linked_head : (link_block s b.at 0 current).head ≡ b.at
  unfolding link_block
  linked_head = refl

  linked_fields :
      (previous : ℕ)
      → ((link_block s b.at previous current).total ≡ s.total)
        × ((link_block s b.at previous current).base ≡ s.base)
        × ((link_block s b.at previous current).allocated ≡ s.allocated)
  unfolding link_block
  linked_fields previous = ground arith

  linked_behind :
      (a : Free)
      → 0 < a.at
      → end_of a ≤ b.at
      → ((link_block s b.at a.at current).mem a.at
          ≡ record { size = (s.mem a.at).size; next = b.at })
        × ((link_block s b.at a.at current).head ≡ s.head)
        × ((x : ℕ) → x < a.at → (link_block s b.at a.at current).mem x ≡ s.mem x)
  unfolding link_block
  linked_behind a apos gap = (ground arith, ground arith, λ x lt. ground arith)

  -- The block with no predecessor.
  pub insert_first :
      Freed s (insert_block s b.at 0 current) (insert_block s b.at 0 current).head 0 (join b bs)
  unfolding insert_block
  insert_first =
      let r = linked-Rebuilt 0 pos in
      rw (coalesce_previous-null (coalesce_next (link_block s b.at 0 current) b.at current) b.at)
        (record {
          chain =
              subst
                (λ p.
                  Chain (coalesce_next (link_block s b.at 0 current) b.at current).mem p
                    (join b bs))
                (sym (r.head_same ∙ linked_head)) r.chain;
          below = λ x lt. elim lt [ ];
          total_same = r.total_same ∙ (linked_fields 0).0;
          base_same = r.base_same ∙ (linked_fields 0).1;
          allocated_same = r.allocated_same ∙ (linked_fields 0).2;
        })

  -- The block behind `previous`, whose block is `a`.
  pub insert_behind :
      (a : Free)
      → 0 < a.at
      → end_of a ≤ b.at
      → (s.mem a.at).size ≡ a.size
      → Ordered (end_of a) hi (join b bs)
      → Freed s (insert_block s b.at a.at current) a.at a.at (join a (join b bs))
        × ((insert_block s b.at a.at current).head ≡ s.head)
  unfolding insert_block
  insert_behind a apos gap same oj =
      let r = linked-Rebuilt a.at (omega arith) in
      let s2 = coalesce_next (link_block s b.at a.at current) b.at current in
      let k = linked_behind a apos gap in
      let at_a : s2.mem a.at ≡ record { size = (s.mem a.at).size; next = b.at } =
        r.frame a.at (omega arith) ∙ k.0 in
      let q =
        coalesce_next-Rebuilt s2 hi a apos (omega arith) bound
          (ap (λ (k : Block). k.size) at_a ∙ same) b.at (join b bs)
          (ap (λ (k : Block). k.next) at_a) oj r.chain in
      rw (coalesce_previous-eq s2 a.at b.at apos pos) (
        record {
          chain = q.chain;
          below = λ x lt. q.frame x (omega arith) ∙ r.frame x (omega arith) ∙ k.2 x lt;
          total_same = q.total_same ∙ r.total_same ∙ (linked_fields a.at).0;
          base_same = q.base_same ∙ r.base_same ∙ (linked_fields a.at).1;
          allocated_same = q.allocated_same ∙ r.allocated_same ∙ (linked_fields a.at).2;
        },
        q.head_same ∙ r.head_same ∙ k.1,
      )
