-- ===== src/Allocator/Chain.antt =====
-- src/allocator.rs: the list of free blocks that the pointers of the heap spell out.
use macha_os.Prelude.{
  ℕ, ◌+◌, ◌*◌, ◌%◌, ◌^◌, ◌<◌, ◌≤◌, ◌≡◌, sym, ap, subst, ◌∙◌, List, [], ◌∷◌, arith, length, ◌-◌,
  refl, sub64, ==_iff,
}
use macha_os.Allocator.{init, Block, FreeListAllocator, header_size, fuel_of}

-- A block by its header's address and the size of its body.
pub record Free : Type 0 where
  pub at : ℕ
  pub size : ℕ

abbrev pub end_of : Free → ℕ
end_of b = b.at + header_size + b.size

-- From `p` on the pointers lead through exactly these blocks, and end with null.
abbrev pub Chain : (ℕ → Block) → ℕ → List Free → Type 0
Chain mem p [] = p ≡ 0
Chain mem p (b ∷ bs) = (p ≡ b.at) × ((mem b.at).size ≡ b.size) × Chain mem (mem b.at).next bs

-- The blocks lie in `[lo, hi)` by address, 16-byte aligned, with a gap between any two.
abbrev pub Ordered : ℕ → ℕ → List Free → Type 0
Ordered lo hi [] = Unit {0}
Ordered lo hi (b ∷ bs) =
    (lo ≤ b.at)
    × (end_of b ≤ hi)
    × (b.at % 16 ≡ 0)
    × (b.size % 16 ≡ 0)
    × Ordered (end_of b + 1) hi bs

pub Ordered-weaken :
    (lo lo' hi : ℕ) (bs : List Free) → lo' ≤ lo → Ordered lo hi bs → Ordered lo' hi bs
Ordered-weaken lo lo' hi [] h o = tt
Ordered-weaken lo lo' hi (b ∷ bs) h o = (omega arith, o.1, o.2, o.3, o.4)

-- What is written below the first block, or anywhere outside the list, does not show.
pub Chain-frame :
    (mem mem' : ℕ → Block) (p lo hi : ℕ) (bs : List Free)
    → ((x : ℕ) → lo ≤ x → mem' x ≡ mem x)
    → Ordered lo hi bs
    → Chain mem p bs
    → Chain mem' p bs
Chain-frame mem mem' p lo hi [] same o c = c
Chain-frame mem mem' p lo hi (b ∷ bs) same o c =
    let e = same b.at o.0 in
    (
      c.0,
      ap (λ (k : Block). k.size) e ∙ c.1,
      Chain-frame mem mem' (mem' b.at).next (end_of b + 1) hi bs
          (λ x h. same x (omega (arith, o.0))) o.4
          (subst (λ (k : Block). Chain mem k.next bs) (sym e) c.2),
    )

pub length-Ordered :
    (lo hi : ℕ) (bs : List Free) → Ordered lo hi bs → lo ≤ hi → lo + length bs * header_size ≤ hi
length-Ordered lo hi [] o h = omega arith
length-Ordered lo hi (b ∷ []) o h = omega arith
length-Ordered lo hi (b ∷ c ∷ bs) o h =
    omega (arith, length-Ordered (end_of b + 1) hi (c ∷ bs) o.4 (omega (arith, o.4.0, o.4.1)))

-- The heap `[base, base + total)` lies below 2 ^ 63, so no address of it wraps.
pub record IsValid (s : FreeListAllocator) (bs : List Free) : Type 0 where
  pub chain : Chain s.mem s.head bs
  pub ordered : Ordered s.base (s.base + s.total) bs
  pub base_pos : 0 < s.base
  pub small : s.base + s.total ≤ 2 ^ 63

pub length-lt-fuel : (s : FreeListAllocator) (bs : List Free) → IsValid s bs → length bs < fuel_of s
unfolding fuel_of
length-lt-fuel s bs v = omega (arith, length-Ordered s.base (s.base + s.total) bs v.ordered)

-- `init` on an aligned range below 2 ^ 63 with room for a header makes a well-formed heap whose one
-- free block spans it.
pub init-IsValid :
    (s : FreeListAllocator) (first last : ℕ)
    → 0 < first
    → first % 16 ≡ 0
    → last % 16 ≡ 0
    → first + header_size ≤ last
    → last ≤ 2 ^ 63
    → IsValid (init s first last) (record { at = first; size = last - first - header_size } ∷ [])
unfolding init
init-IsValid s first last pos af al room small = record {
  chain = (refl, stored, emptied);
  ordered = (omega arith, omega (arith, spanned), af, aligned, tt);
  base_pos = pos;
  small = omega (arith, spanned);
}
  where
    spanned : sub64 last first ≡ last - first
    spanned = omega arith

    spanned_body : sub64 (sub64 last first) header_size ≡ last - first - header_size
    spanned_body = omega arith

    stored : ((init s first last).mem first).size ≡ last - first - header_size
    stored = rw ((==_iff first first).1 refl) spanned_body

    emptied : ((init s first last).mem first).next ≡ 0
    emptied = rw ((==_iff first first).1 refl) refl

    aligned : (last - first - header_size) % 16 ≡ 0
    aligned = omega arith
