-- ===== src/Allocator/Gap.antt =====
-- src/allocator.rs: the loop of `dealloc` finds the gap in address order, and `dealloc` as a whole.
use macha_os.Prelude.{
  ℕ, zero, suc, ◌+◌, ◌%◌, ◌^◌, ◌<◌, ◌≤◌, ◌≡◌, ◌≢◌, refl, sym, ap, subst, ◌∙◌, true, false, some,
  List, [], ◌∷◌, inl, inr, arith, length, ltb, ltb→lt, add64, sub64, Bool-cases,
}
use macha_os.Allocator.{
  Block, FreeListAllocator, header_size, min_align, align_up, find_gap, insert_block, fuel_of,
  alloc, dealloc,
}
use macha_os.Allocator.Chain.{Free, end_of, Chain, Ordered, IsValid, length-lt-fuel}
use macha_os.Allocator.Blocks.{join, place, used, first_fit}
use macha_os.Allocator.FirstFit.{Outside, join-above}
use macha_os.Allocator.Place.{join-Ordered, place-Ordered}
use macha_os.Allocator.Dealloc.{Freed, insert_first, insert_behind}
use macha_os.Allocator.Alloc.{Carved, alloc-found, alloc-AllocResult}

module _ (s : FreeListAllocator) (hi : ℕ) (b : Free) (pos : 0 < b.at) (in_heap : end_of b ≤ hi)
    (aligned : b.at % 16 ≡ 0) (whole : b.size % 16 ≡ 0) (bound : hi ≤ 2 ^ 63)
    (header : (s.mem b.at).size ≡ b.size) where
  abbrev inserted : ℕ × ℕ → FreeListAllocator
  inserted gap = insert_block s b.at gap.0 gap.1

  -- Nothing of the list lies before the block.
  place-join :
      (c : Free) (bs : List Free) → ltb c.at b.at ≡ false → place b (c ∷ bs) ≡ join b (c ∷ bs)
  unfolding place
  place-join c bs h = rw h

  place-below :
      (c : Free) (bs : List Free) → ltb c.at b.at ≡ true → place b (c ∷ bs) ≡ join c (place b bs)
  unfolding place
  place-below c bs h = rw h

  place-nil : place b [] ≡ join b []
  unfolding place join
  place-nil = refl

  above :
      (lo : ℕ) (c : Free) (bs : List Free)
      → ltb c.at b.at ≡ false
      → Outside b.at (end_of b) (c ∷ bs)
      → Ordered lo hi (c ∷ bs)
      → Ordered (end_of b) hi (c ∷ bs)
  above lo c bs h out o = (ground (arith, out.0), o.1, o.2, o.3, o.4)

  gap_behind :
      (fuel : ℕ) (a : Free) (current : ℕ) (bs : List Free)
      → length bs < fuel
      → 0 < a.at
      → end_of a ≤ b.at
      → (s.mem a.at).size ≡ a.size
      → (s.mem a.at).next ≡ current
      → Outside b.at (end_of b) bs
      → Ordered (end_of a + 1) hi bs
      → Chain s.mem current bs
      → Freed s (inserted (find_gap fuel s b.at a.at current)) a.at a.at (join a (place b bs))
        × ((inserted (find_gap fuel s b.at a.at current)).head ≡ s.head)
  unfolding find_gap
  gap_behind zero a current bs h apos le same next out o c = absurd (omega arith)
  gap_behind (suc fuel) a current [] h apos le same next out o c =
      rw (c, find_gap, place-nil)
        (insert_behind s hi b [] pos in_heap bound header current tt c a apos le same
          (join-Ordered b (end_of a) hi [] le in_heap aligned whole tt))
  gap_behind (suc fuel) a current (c ∷ bs) h apos le same next out o ch =
      elim (Bool-cases (ltb c.at b.at)) [
        | inl below ↦ rw (onward below) (
            stays below (
              gap_behind fuel c (s.mem c.at).next bs (omega arith) (omega (arith, o.0))
                (omega (arith, out.0, ltb→lt _ _ below)) ch.1 refl out.1 o.4 ch.2))
        | inr stop ↦
            rw (stopped stop, place-join c bs stop)
              (insert_behind s hi b (c ∷ bs) pos in_heap bound header current
                (above _ c bs stop out o) ch a apos le same
                (join-Ordered b (end_of a) hi (c ∷ bs) le in_heap aligned whole
                  (above _ c bs stop out o)))
      ]
    where
      onward :
          ltb c.at b.at ≡ true
          → find_gap (suc fuel) s b.at a.at current ≡ find_gap fuel s b.at c.at (s.mem c.at).next
      onward t = ground (arith, o.0, ch.0)

      stopped : ltb c.at b.at ≡ false → find_gap (suc fuel) s b.at a.at current ≡ (a.at, current)
      stopped t = ground (arith, o.0, ch.0)

      stays :
          ltb c.at b.at ≡ true
          → Freed s
              (inserted (find_gap fuel s b.at c.at (s.mem c.at).next))
              c.at
              c.at
              (join c (place b bs))
            × ((inserted (find_gap fuel s b.at c.at (s.mem c.at).next)).head ≡ s.head)
          → Freed s
              (inserted (find_gap fuel s b.at c.at (s.mem c.at).next))
              a.at
              a.at
              (join a (place b (c ∷ bs)))
            × ((inserted (find_gap fuel s b.at c.at (s.mem c.at).next)).head ≡ s.head)
      stays t (f, e) =
          let at_a = f.below a.at (omega (arith, o.0)) in
          let lo : end_of a + 1 ≤ b.at = omega (arith, o.0, ltb→lt _ _ t) in
          rw
            (join-above a (end_of a + 1) hi (place b (c ∷ bs)) (omega arith)
              (place-Ordered b (end_of a + 1) hi (c ∷ bs) lo in_heap aligned whole out o))
            (rw (place-below c bs t) (
              record {
                chain = (
                  refl,
                  ap (λ (k : Block). k.size) at_a ∙ same,
                  subst
                      (λ p.
                        Chain (inserted (find_gap fuel s b.at c.at (s.mem c.at).next)).mem p
                          (join c (place b bs)))
                      (sym (ap (λ (k : Block). k.next) at_a ∙ next ∙ ch.0)) f.chain,
                );
                below = λ x lt. f.below x (omega (arith, o.0));
                total_same = f.total_same;
                base_same = f.base_same;
                allocated_same = f.allocated_same;
              },
              e,
            ))

  gap_first :
      (fuel lo current : ℕ) (bs : List Free)
      → length bs < fuel
      → 0 < lo
      → lo ≤ b.at
      → s.head ≡ current
      → Outside b.at (end_of b) bs
      → Ordered lo hi bs
      → Chain s.mem current bs
      → Freed s
          (inserted (find_gap fuel s b.at 0 current))
          (inserted (find_gap fuel s b.at 0 current)).head
          0
          (place b bs)
  unfolding find_gap
  gap_first zero lo current bs h lpos le e out o c = absurd (omega arith)
  gap_first (suc fuel) lo current [] h lpos le e out o c =
      rw (c, find_gap, place-nil) (insert_first s hi b [] pos in_heap bound header current tt c)
  gap_first (suc fuel) lo current (c ∷ bs) h lpos le e out o ch =
      elim (Bool-cases (ltb c.at b.at)) [
        | inl below ↦
            rw (onward below, place-below c bs below)
              (from_head (
                gap_behind fuel c (s.mem c.at).next bs (omega arith) (omega (arith, o.0))
                  (omega (arith, out.0, ltb→lt _ _ below)) ch.1 refl out.1 o.4 ch.2))
        | inr stop ↦
            rw (stopped stop, place-join c bs stop)
              (insert_first s hi b (c ∷ bs) pos in_heap bound header current
                (above lo c bs stop out o) ch)
      ]
    where
      onward :
          ltb c.at b.at ≡ true
          → find_gap (suc fuel) s b.at 0 current ≡ find_gap fuel s b.at c.at (s.mem c.at).next
      onward t = ground (arith, o.0, ch.0)

      stopped : ltb c.at b.at ≡ false → find_gap (suc fuel) s b.at 0 current ≡ (0, current)
      stopped t = ground (arith, o.0, ch.0)

      from_head :
          Freed s
              (inserted (find_gap fuel s b.at c.at (s.mem c.at).next))
              c.at
              c.at
              (join c (place b bs))
            × ((inserted (find_gap fuel s b.at c.at (s.mem c.at).next)).head ≡ s.head)
          → Freed s
              (inserted (find_gap fuel s b.at c.at (s.mem c.at).next))
              (inserted (find_gap fuel s b.at c.at (s.mem c.at).next)).head
              0
              (join c (place b bs))
      from_head (f, same_head) = record {
        chain =
            subst
              (λ p.
                Chain (inserted (find_gap fuel s b.at c.at (s.mem c.at).next)).mem p
                  (join c (place b bs)))
              (sym (same_head ∙ e ∙ ch.0)) f.chain;
        below = λ x lt. elim lt [ ];
        total_same = f.total_same;
        base_same = f.base_same;
        allocated_same = f.allocated_same;
      }

-- A block in use: its header is in place, it is aligned, lies in the heap, and touches no free block.
pub record InUse (s : FreeListAllocator) (bs : List Free) (b : Free) : Type 0 where
  pub header : (s.mem b.at).size ≡ b.size
  pub from_base : s.base ≤ b.at
  pub in_heap : end_of b ≤ s.base + s.total
  pub aligned : b.at % 16 ≡ 0
  pub whole : b.size % 16 ≡ 0
  pub outside : Outside b.at (end_of b) bs

-- On a well-formed heap `dealloc` of a block in use keeps the heap well formed, and the free blocks
-- are then those of before with the block put in by address and joined with the neighbours it
-- touches. The byte counter falls by the size in the block's header, modulo 2 ^ 64.
pub dealloc_refines :
    (s : FreeListAllocator) (bs : List Free) (b : Free)
    → IsValid s bs
    → InUse s bs b
    → IsValid (dealloc s (b.at + header_size)) (place b bs)
      × ((dealloc s (b.at + header_size)).allocated ≡ sub64 s.allocated b.size)
unfolding dealloc
dealloc_refines s bs b v u =
    let e : sub64 (b.at + header_size) header_size ≡ b.at = omega (arith, u.in_heap, v.small) in
    let s0 : FreeListAllocator = record s { allocated = sub64 s.allocated (s.mem b.at).size } in
    let f =
      gap_first s0 (s.base + s.total) b (omega (arith, u.from_base, v.base_pos)) u.in_heap u.aligned
        u.whole v.small u.header (fuel_of s) s.base s.head bs (length-lt-fuel s bs v) v.base_pos
        u.from_base refl u.outside v.ordered v.chain in
    rw e (
      record {
        chain = f.chain;
        ordered =
            rw (f.base_same, f.total_same)
              (place-Ordered b s.base (s.base + s.total) bs u.from_base u.in_heap u.aligned u.whole
                u.outside v.ordered);
        base_pos = omega (arith, f.base_same, v.base_pos);
        small = omega (arith, f.base_same, f.total_same, v.small);
      },
      f.allocated_same ∙ ap (λ (k : ℕ). sub64 s.allocated k) u.header,
    )

dealloc-Carved :
    (s : FreeListAllocator) (size : ℕ) (bs : List Free) (b : Free) (rest : List Free) (ptr : ℕ)
    (t : FreeListAllocator)
    → Carved s size bs b rest ptr t
    → IsValid (dealloc t ptr) bs
      × ((dealloc t ptr).allocated ≡ sub64 (add64 s.allocated size) b.size)
dealloc-Carved s size bs b rest ptr t c =
    let (valid, counter) = dealloc_refines t rest b c.valid (record {
      header = c.header;
      from_base = omega (arith, c.base_same, c.from_base);
      in_heap = omega (arith, c.base_same, c.total_same, c.in_heap);
      aligned = c.aligned;
      whole = c.whole;
      outside = c.outside;
    }) in
    rw c.at (
      subst (λ l. IsValid (dealloc t (b.at + header_size)) l) c.back valid,
      counter ∙ ap (λ (k : ℕ). sub64 k b.size) c.counted,
    )

-- On a well-formed heap, where `alloc` of up to 2 ^ 62 bytes returns a block, `dealloc` of that
-- pointer gives back a well-formed heap with exactly the free blocks of before.
pub dealloc-alloc :
    (s : FreeListAllocator) (bs : List Free) (n : ℕ)
    → IsValid s bs
    → n ≤ 2 ^ 62
    → (alloc s n).0 ≢ 0
    → IsValid (dealloc (alloc s n).1 (alloc s n).0) bs
dealloc-alloc s bs n v h ne = elim (alloc-AllocResult s bs n v h) [
  | inl (z, same, small) ↦ absurd (ne z)
  | inr (b, rest, c) ↦
      (dealloc-Carved s (align_up n min_align) bs b rest (alloc s n).0 (alloc s n).1 c).0
]

-- Where the block that first fit finds is exactly one header larger than the rounded request, it is
-- handed out whole: `alloc` counts the request and `dealloc` the block, so that the pair lowers the
-- counter of allocated bytes by 16, modulo 2 ^ 64.
pub allocated_drifts :
    (s : FreeListAllocator) (bs : List Free) (n : ℕ) (f : Free) (rest : List Free)
    → IsValid s bs
    → n ≤ 2 ^ 62
    → first_fit (align_up n min_align) bs ≡ (some f, rest)
    → f.size ≡ align_up n min_align + header_size
    → (dealloc (alloc s n).1 (alloc s n).0).allocated ≡ sub64 s.allocated header_size
allocated_drifts s bs n f rest v h e larger =
    let c = alloc-found s bs n v h f rest e in
    let counter =
      (dealloc-Carved s (align_up n min_align) bs (used (align_up n min_align) f) rest (alloc s n).0
        (alloc s n).1 c).1 in
    let whole : (used (align_up n min_align) f).size ≡ f.size = unfold used in ground arith in
    omega (arith, counter, whole)
