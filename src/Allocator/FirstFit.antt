-- ===== src/Allocator/FirstFit.antt =====
-- First fit on the list of free blocks: what it finds, what it leaves, and that both stay apart.
use macha_os.Prelude.{
  ℕ, ◌+◌, ◌%◌, ◌<◌, ◌≤◌, ◌≡◌, refl, ap, false, Option, none, some, List, [], ◌∷◌, ◌⊎◌, inl, inr,
  arith, leb, lt→ltb, leb→le, Bool-cases, All,
}
use macha_os.Allocator.{header_size, min_align}
use macha_os.Allocator.Chain.{Free, end_of, Ordered, Ordered-weaken}
use macha_os.Allocator.Blocks.{remainder, used, first_fit, join, place}

-- Every block of the list lies outside `[from, to)`, header and body.
abbrev pub Outside : ℕ → ℕ → List Free → Type 0
Outside from to = All (λ c. (end_of c ≤ from) ⊎ (to ≤ c.at))

Outside-above :
    (from to lo hi : ℕ) (bs : List Free) → to ≤ lo → Ordered lo hi bs → Outside from to bs
Outside-above from to lo hi [] h o = tt
Outside-above from to lo hi (c ∷ bs) h o =
    (inr (omega (arith, o.0)), Outside-above from to (end_of c + 1) hi bs (omega (arith, o.0)) o.4)

-- A block that ends below the list joins nothing.
pub join-above :
    (b : Free) (lo hi : ℕ) (bs : List Free) → end_of b < lo → Ordered lo hi bs → join b bs ≡ b ∷ bs
unfolding join
join-above b lo hi [] h o = refl
join-above b lo hi (c ∷ bs) h o = ground (arith, o.0)

-- What first fit promises of its result on blocks in `[lo, hi)`.
abbrev pub Fitted : ℕ → ℕ → ℕ → List Free → Option Free × List Free → Type 0
Fitted size lo hi bs (none, rest) = (rest ≡ bs) × All (λ c. c.size < size) bs
Fitted size lo hi bs (some b, rest) =
    (lo ≤ b.at)
    × (end_of (used size b) ≤ hi)
    × (b.at % 16 ≡ 0)
    × ((used size b).size % 16 ≡ 0)
    × (size ≤ (used size b).size)
    × ((used size b).size ≤ size + header_size)
    × Ordered lo hi rest
    × Outside b.at (end_of (used size b)) rest
    × (place (used size b) rest ≡ bs)

module _ (size lo hi : ℕ) (aligned : size % 16 ≡ 0) (b : Free) (bs : List Free)
    (o : Ordered lo hi (b ∷ bs)) where
  place-remainder : size ≤ b.size → place (used size b) (remainder b size bs) ≡ b ∷ bs
  unfolding place used remainder join
  place-remainder fits = elim (Bool-cases (leb (size + header_size + min_align) b.size)) [
    | inl big ↦ rw big (ground arith)
    | inr whole ↦ rw whole (place_above bs o.4)
  ]
    where
      place_above : (l : List Free) → Ordered (end_of b + 1) hi l → place b l ≡ b ∷ l
      place_above [] h = refl
      place_above (c ∷ l) h = ground (arith, h.0)

  Fitted-take : size ≤ b.size → Fitted size lo hi (b ∷ bs) (some b, remainder b size bs)
  unfolding remainder used
  Fitted-take fits = elim (Bool-cases (leb (size + header_size + min_align) b.size)) [
    | inl big ↦
        let le : size + header_size + min_align ≤ b.size = leb→le _ _ big in
        let back = place-remainder fits in
        rw big (
          o.0,
          omega (arith, o.1),
          o.2,
          aligned,
          omega arith,
          omega arith,
          (
            omega (arith, o.0),
            omega (arith, o.1),
            omega (arith, o.2),
            omega (arith, o.3),
            Ordered-weaken (end_of b + 1) _ hi bs (omega arith) o.4,
          ),
          (inr (omega arith), Outside-above _ _ (end_of b + 1) hi bs (omega arith) o.4),
          rw big at back,
        )
    | inr whole ↦
        let back = place-remainder fits in
        rw whole (
          o.0,
          o.1,
          o.2,
          o.3,
          fits,
          small whole,
          Ordered-weaken (end_of b + 1) lo hi bs (omega (arith, o.0)) o.4,
          Outside-above _ _ (end_of b + 1) hi bs (omega arith) o.4,
          rw whole at back,
        )
  ]
    where
      small : leb (size + header_size + min_align) b.size ≡ false → b.size ≤ size + header_size
      small h =
          let lt : b.size < size + header_size + min_align = ground arith in
          omega (arith, o.3, aligned)

  Fitted-skip :
      b.size < size
      → (f : Option Free × List Free) → Fitted size (end_of b + 1) hi bs f
      → Fitted size lo hi (b ∷ bs) (f.0, b ∷ f.1)
  unfolding place used
  Fitted-skip small (none, rest) h = (ap (λ (r : List Free). b ∷ r) h.0, (small, h.1))
  Fitted-skip small (some c, rest) h = (
    omega (arith, h.0, o.0),
    h.1,
    h.2,
    h.3,
    h.4,
    h.5,
    (o.0, o.1, o.2, o.3, h.6),
    (inl (omega (arith, h.0)), h.7),
    rw (lt→ltb b.at c.at (omega (arith, h.0)), h.8)
        (join-above b (end_of b + 1) hi bs (omega arith) o.4),
  )

pub first_fit-Fitted :
    (size lo hi : ℕ) (bs : List Free)
    → size % 16 ≡ 0
    → Ordered lo hi bs
    → Fitted size lo hi bs (first_fit size bs)
unfolding first_fit
first_fit-Fitted size lo hi [] a o = (refl, tt)
first_fit-Fitted size lo hi (b ∷ bs) a o = elim (Bool-cases (leb size b.size)) [
  | inl fits ↦ rw fits (Fitted-take size lo hi a b bs o (leb→le _ _ fits))
  | inr small ↦ rw small (
      Fitted-skip size lo hi a b bs o (ground arith) (first_fit size bs)
        (first_fit-Fitted size (end_of b + 1) hi bs a o.4))
]
