-- ===== src/Allocator/Alloc.antt =====
-- src/allocator.rs: `alloc` on the pointers is first fit on the list of free blocks.
use macha_os.Prelude.{
  ℕ, zero, suc, ◌+◌, ◌%◌, ◌^◌, ◌<◌, ◌≤◌, ◌≡◌, ◌≢◌, refl, sym, ap, subst, ◌∙◌, true, false, Option,
  none, some, List, [], ◌∷◌, ◌⊎◌, inl, inr, arith, length, leb, leb→le, add64, ◌==◌, if◌then◌else◌,
  Bool-cases, All,
}
use macha_os.Allocator.{
  Block, FreeListAllocator, header_size, min_align, align_up, take, search_list, fuel_of, alloc,
}
use macha_os.Allocator.Chain.{Free, end_of, Chain, Ordered, Chain-frame, IsValid, length-lt-fuel}
use macha_os.Allocator.Blocks.{remainder, used, first_fit, place}
use macha_os.Allocator.FirstFit.{Outside, Fitted, first_fit-Fitted}

-- The pointer through which the list is entered behind `previous`.
abbrev pub link : FreeListAllocator → ℕ → ℕ
link s previous = if previous == 0 then s.head else (s.mem previous).next

-- `s'` has the list `bs` behind `previous`, and is `s` at the other addresses below `lo`.
pub record Relinked (s s' : FreeListAllocator) (previous lo : ℕ) (bs : List Free) : Type 0 where
  pub chain : Chain s'.mem (link s' previous) bs
  pub below : (x : ℕ) → x < lo → x ≢ previous → s'.mem x ≡ s.mem x
  pub previous_size : previous ≢ 0 → (s'.mem previous).size ≡ (s.mem previous).size
  pub head_same : previous ≢ 0 → s'.head ≡ s.head
  pub total_same : s'.total ≡ s.total
  pub base_same : s'.base ≡ s.base

module _ (s : FreeListAllocator) (size previous hi : ℕ) (b : Free) (bs : List Free)
    (before : previous < b.at) (fits : size ≤ b.size) (bound : hi ≤ 2 ^ 63)
    (in_heap : end_of b ≤ hi) (o : Ordered (end_of b + 1) hi bs)
    (same_size : (s.mem b.at).size ≡ b.size) (c : Chain s.mem (s.mem b.at).next bs) where
  take-frame : (x : ℕ) → end_of b + 1 ≤ x → (take s size previous b.at).mem x ≡ s.mem x
  unfolding take
  take-frame x h = ground arith

  take-Chain :
      Chain
        (take s size previous b.at).mem
        (link (take s size previous b.at) previous)
        (remainder b size bs)
  unfolding take remainder
  take-Chain = elim (Bool-cases (leb (size + header_size + min_align) b.size)) [
    | inl big ↦ rw big (ground arith, ground arith, tail big)
    | inr whole ↦
        rw whole (subst (λ p. Chain (take s size previous b.at).mem p bs) (last_link whole) rest)
  ]
    where
      rest : Chain (take s size previous b.at).mem (s.mem b.at).next bs
      rest =
          Chain-frame s.mem (take s size previous b.at).mem (s.mem b.at).next (end_of b + 1) hi bs
            take-frame o c

      last_link :
          leb (size + header_size + min_align) b.size ≡ false
          → (s.mem b.at).next ≡ link (take s size previous b.at) previous
      last_link e = ground arith

      rem_next :
          leb (size + header_size + min_align) b.size ≡ true
          → (s.mem b.at).next ≡ ((take s size previous b.at).mem (b.at + header_size + size)).next
      rem_next e = ground arith

      tail :
          leb (size + header_size + min_align) b.size ≡ true
          → Chain
              (take s size previous b.at).mem
              ((take s size previous b.at).mem (b.at + header_size + size)).next
              bs
      tail e = subst (λ p. Chain (take s size previous b.at).mem p bs) (rem_next e) rest

  take-Relinked : Relinked s (take s size previous b.at) previous b.at (remainder b size bs)
  unfolding take
  take-Relinked = record {
    chain = take-Chain;
    below = λ x h ne. ground arith;
    previous_size = λ h. ground arith;
    head_same = λ h. ground arith;
    total_same = ground arith;
    base_same = ground arith;
  }

-- What the loop returns, against first fit on the blocks from `current` on.
abbrev SearchedAs :
    FreeListAllocator → ℕ → ℕ → ℕ → Option Free × List Free → ℕ × FreeListAllocator → Type 0
SearchedAs s size previous lo (none, bs) r = (r.0 ≡ 0) × (r.1 ≡ s)
SearchedAs s size previous lo (some b, bs) r =
    (r.0 ≡ b.at + header_size)
    × Relinked s r.1 previous lo bs
    × (r.1.allocated ≡ add64 s.allocated size)
    × ((r.1.mem b.at).size ≡ (used size b).size)

allocated-take :
    (s : FreeListAllocator) (size previous current : ℕ)
    → (take s size previous current).allocated ≡ add64 s.allocated size
unfolding take
allocated-take s size previous current = ground arith

used_header :
    (s : FreeListAllocator) (size previous : ℕ) (b : Free)
    → previous < b.at
    → (s.mem b.at).size ≡ b.size
    → size + header_size + min_align < 2 ^ 64
    → end_of b < 2 ^ 64
    → ((take s size previous b.at).mem b.at).size ≡ (used size b).size
unfolding take used
used_header s size previous b h e k l = ground arith

module _ (s : FreeListAllocator) (size previous lo hi : ℕ) (b : Free) (bs : List Free)
    (before : previous < lo) (o : Ordered lo hi (b ∷ bs)) (l : link s previous ≡ b.at)
    (same_size : (s.mem b.at).size ≡ b.size) where
  -- A block that stays in the list, in front of what the rest of the loop relinks.
  SearchedAs-skip :
      (f : Option Free × List Free) (r : ℕ × FreeListAllocator)
      → SearchedAs s size b.at (end_of b + 1) f r
      → SearchedAs s size previous lo (f.0, b ∷ f.1) r
  SearchedAs-skip (none, rest) r h = h
  SearchedAs-skip (some c, rest) r (at, k, total, header) = (
    at,
    record {
      chain = (
        entry,
        ground (arith, k.previous_size, o.0),
        subst (λ p. Chain r.1.mem p rest) onward k.chain,
      );
      below = λ x lt ne. k.below x (omega (arith, o.0)) (omega (arith, o.0));
      previous_size = λ ne. ap (λ (c : Block). c.size) (untouched ne);
      head_same = λ ne. k.head_same (omega (arith, o.0));
      total_same = k.total_same;
      base_same = k.base_same;
    },
    total,
    header,
  )
    where
      pos : b.at ≢ 0
      pos = omega (arith, o.0)

      untouched : previous ≢ 0 → r.1.mem previous ≡ s.mem previous
      untouched ne = k.below previous (omega (arith, o.0)) (omega (arith, o.0))

      onward : link r.1 b.at ≡ (r.1.mem b.at).next
      onward = ground (arith, pos)

      entry : link r.1 previous ≡ b.at
      entry = elim (Bool-cases (previous == 0)) [
        | inl z ↦ ground (arith, k.head_same pos)
        | inr nz ↦ let ne : previous ≢ 0 = ground arith in ground (arith, untouched ne)
      ]

search_list-SearchedAs :
    (fuel : ℕ) (s : FreeListAllocator) (size previous current lo hi : ℕ) (bs : List Free)
    → length bs < fuel
    → previous < lo
    → hi ≤ 2 ^ 63
    → link s previous ≡ current
    → Ordered lo hi bs
    → Chain s.mem current bs
    → SearchedAs s size previous lo (first_fit size bs) (search_list fuel s size previous current)
unfolding search_list first_fit
search_list-SearchedAs zero s size previous current lo hi bs h before bound l o c =
    absurd (omega arith)
search_list-SearchedAs (suc fuel) s size previous current lo hi [] h before bound l o c =
    rw c (refl, refl)
search_list-SearchedAs (suc fuel) s size previous current lo hi (b ∷ bs) h before bound l o c =
    subst
      (λ p.
        SearchedAs s size previous lo (first_fit size (b ∷ bs))
          (search_list (suc fuel) s size previous p))
      (sym c.0)
      (here (
        search_list-SearchedAs fuel s size b.at (s.mem b.at).next (end_of b + 1) hi bs (omega arith)
          (omega arith) bound (ground (arith, o.0)) o.4 c.2))
  where
    pos : (b.at == 0) ≡ false
    pos = ground (arith, o.0)

    same : (s.mem b.at).size ≡ b.size
    same = c.1

    relinked :
        leb size b.size ≡ true
        → Relinked s (take s size previous b.at) previous b.at (remainder b size bs)
    relinked fits =
        take-Relinked s size previous hi b bs (omega (arith, o.0)) (leb→le _ _ fits) bound o.1 o.4
          c.1 c.2

    here :
        SearchedAs s size b.at
          (end_of b + 1)
          (first_fit size bs)
          (search_list fuel s size b.at (s.mem b.at).next)
        → SearchedAs s size previous lo
            (first_fit size (b ∷ bs))
            (search_list (suc fuel) s size previous b.at)
    here ih = elim (Bool-cases (leb size b.size)) [
      | inl fits ↦
          let k = relinked fits in
          rw (fits, pos, same, fits, search_list)
            (
              ground (arith, o.0, o.1),
              record {
                chain = k.chain;
                below = λ x lt. k.below x (omega (arith, o.0));
                previous_size = k.previous_size;
                head_same = k.head_same;
                total_same = k.total_same;
                base_same = k.base_same;
              },
              allocated-take s size previous b.at,
              used_header s size previous b (omega (arith, o.0)) same
                  (omega (arith, leb→le _ _ fits, o.1)) (omega (arith, o.1)),
            )
      | inr small ↦
          rw (small, pos, same, small, search_list)
            (SearchedAs-skip s size previous lo hi b bs before o (l ∙ c.0) same (first_fit size bs)
              (search_list fuel s size b.at (s.mem b.at).next) ih)
    ]

-- The block `b`, handed out from the free blocks `bs` so that `rest` stays free: it is aligned, lies
-- in the heap with its header, is at most a header larger than asked, and touches no block of
-- `rest`; putting it back among those gives `bs`.
pub record Carved (s : FreeListAllocator) (size : ℕ) (bs : List Free) (b : Free) (rest : List Free)
    (ptr : ℕ) (t : FreeListAllocator) : Type 0 where
  pub at : ptr ≡ b.at + header_size
  pub header : (t.mem b.at).size ≡ b.size
  pub from_base : s.base ≤ b.at
  pub in_heap : end_of b ≤ s.base + s.total
  pub aligned : b.at % 16 ≡ 0
  pub whole : b.size % 16 ≡ 0
  pub fits : size ≤ b.size
  pub slack : b.size ≤ size + header_size
  pub valid : IsValid t rest
  pub outside : Outside b.at (end_of b) rest
  pub back : place b rest ≡ bs
  pub counted : t.allocated ≡ add64 s.allocated size
  pub base_same : t.base ≡ s.base
  pub total_same : t.total ≡ s.total

abbrev pub AllocResult : FreeListAllocator → ℕ → List Free → ℕ × FreeListAllocator → Type 0
AllocResult s size bs (ptr, t) =
    ((ptr ≡ 0) × (t ≡ s) × All (λ c. c.size < size) bs)
    ⊎ ((b : Free) × (rest : List Free) × Carved s size bs b rest ptr t)

module _ (s : FreeListAllocator) (bs : List Free) (n : ℕ) (v : IsValid s bs) (h : n ≤ 2 ^ 62) where
  fitted :
      Fitted
        (align_up n min_align)
        s.base
        (s.base + s.total)
        bs
        (first_fit (align_up n min_align) bs)
  fitted =
      first_fit-Fitted (align_up n min_align) s.base (s.base + s.total) bs (omega arith) v.ordered

  searched :
      SearchedAs s (align_up n min_align) 0 s.base (first_fit (align_up n min_align) bs) (alloc s n)
  unfolding alloc
  searched =
      search_list-SearchedAs (fuel_of s) s (align_up n min_align) 0 s.head s.base (s.base + s.total)
        bs (length-lt-fuel s bs v) v.base_pos v.small refl v.ordered v.chain

  -- Where first fit finds a block, that block is carved.
  pub alloc-found :
      (f : Free) (rest : List Free)
      → first_fit (align_up n min_align) bs ≡ (some f, rest)
      → Carved s
          (align_up n min_align)
          bs
          (used (align_up n min_align) f)
          rest
          (alloc s n).0
          (alloc s n).1
  unfolding used
  alloc-found f rest e =
      let fit = subst (Fitted (align_up n min_align) s.base (s.base + s.total) bs) e fitted in
      let (at, k, total, header) =
        subst (λ r. SearchedAs s (align_up n min_align) 0 s.base r (alloc s n)) e searched in
      record {
        at = at;
        header = header;
        from_base = fit.0;
        in_heap = fit.1;
        aligned = fit.2;
        whole = fit.3;
        fits = fit.4;
        slack = fit.5;
        valid = record {
          chain = k.chain;
          ordered = rw (k.base_same, k.total_same) (fit.6);
          base_pos = omega (arith, v.base_pos, k.base_same);
          small = omega (arith, v.small, k.base_same, k.total_same);
        };
        outside = fit.7;
        back = fit.8;
        counted = total;
        base_same = k.base_same;
        total_same = k.total_same;
      }

  alloc-missed :
      (rest : List Free)
      → first_fit (align_up n min_align) bs ≡ (none, rest)
      → ((alloc s n).0 ≡ 0) × ((alloc s n).1 ≡ s) × All (λ c. c.size < align_up n min_align) bs
  alloc-missed rest e =
      let fit = subst (Fitted (align_up n min_align) s.base (s.base + s.total) bs) e fitted in
      let (null, same) =
        subst (λ r. SearchedAs s (align_up n min_align) 0 s.base r (alloc s n)) e searched in
      (null, same, fit.1)

-- On a well-formed heap `alloc` of up to 2 ^ 62 bytes, rounded up to a multiple of 16, either
-- returns null and changes nothing, and then every free block is smaller; or it returns the body of
-- a 16-byte aligned block inside the heap that holds the bytes asked for and at most 16 more, that
-- no remaining free block overlaps, header included, and that put back gives the free blocks from
-- before. The heap stays well formed, and the rounded size is added to the byte counter.
pub alloc-AllocResult :
    (s : FreeListAllocator) (bs : List Free) (n : ℕ)
    → IsValid s bs
    → n ≤ 2 ^ 62
    → AllocResult s (align_up n min_align) bs (alloc s n)
alloc-AllocResult s bs n v h = by_cases (first_fit (align_up n min_align) bs) refl
  where
    by_cases :
        (f : Option Free × List Free)
        → first_fit (align_up n min_align) bs ≡ f
        → AllocResult s (align_up n min_align) bs (alloc s n)
    by_cases (none, rest) e = inl (alloc-missed s bs n v h rest e)
    by_cases (some f, rest) e =
        inr (used (align_up n min_align) f, rest, alloc-found s bs n v h f rest e)
