-- ===== src/Allocator/Place.antt =====
-- A block put back among the free blocks: order, alignment and gaps are kept.
use macha_os.Prelude.{
  ℕ, ◌+◌, ◌%◌, ◌<◌, ◌≤◌, ◌≡◌, refl, List, [], ◌∷◌, inl, inr, arith, ltb, ltb→lt, ◌==◌, Bool-cases,
}
use macha_os.Allocator.{header_size}
use macha_os.Allocator.Chain.{Free, end_of, Ordered, Ordered-weaken}
use macha_os.Allocator.Blocks.{join, place}
use macha_os.Allocator.FirstFit.{Outside}

-- Memory in free blocks, headers included.
pub footprint : List Free → ℕ
footprint [] = 0
footprint (b ∷ bs) = header_size + b.size + footprint bs

pub join-Ordered :
    (b : Free) (lo hi : ℕ) (bs : List Free)
    → lo ≤ b.at
    → end_of b ≤ hi
    → b.at % 16 ≡ 0
    → b.size % 16 ≡ 0
    → Ordered (end_of b) hi bs
    → Ordered lo hi (join b bs)
unfolding join
join-Ordered b lo hi [] h k a d o = (h, k, a, d, tt)
join-Ordered b lo hi (c ∷ bs) h k a d o = elim (Bool-cases (end_of b == c.at)) [
  | inl touch ↦
      let e : end_of b ≡ c.at = ground arith in
      rw touch (
        h,
        omega (arith, o.1),
        a,
        omega (arith, o.3),
        Ordered-weaken (end_of c + 1) _ hi bs (omega arith) o.4,
      )
  | inr gap ↦ rw gap (h, k, a, d, (ground (arith, o.0), o.1, o.2, o.3, o.4))
]

pub place-Ordered :
    (b : Free) (lo hi : ℕ) (bs : List Free)
    → lo ≤ b.at
    → end_of b ≤ hi
    → b.at % 16 ≡ 0
    → b.size % 16 ≡ 0
    → Outside b.at (end_of b) bs
    → Ordered lo hi bs
    → Ordered lo hi (place b bs)
unfolding place
place-Ordered b lo hi [] h k a d out o = (h, k, a, d, tt)
place-Ordered b lo hi (c ∷ bs) h k a d out o = elim (Bool-cases (ltb c.at b.at)) [
  | inl below ↦
      let lt : c.at < b.at = ltb→lt _ _ below in
      let le : end_of c ≤ b.at = omega (arith, out.0) in
      rw below (
        join-Ordered c lo hi (place b bs) o.0 o.1 o.2 o.3 (
          place-Ordered b (end_of c) hi bs le k a d out.1
            (Ordered-weaken (end_of c + 1) (end_of c) hi bs (omega arith) o.4)))
  | inr above ↦
      let le : b.at ≤ c.at = ground arith in
      rw above (join-Ordered b lo hi (c ∷ bs) h k a d (omega (arith, out.0), o.1, o.2, o.3, o.4))
]

footprint-join :
    (b : Free) (bs : List Free) → footprint (join b bs) ≡ header_size + b.size + footprint bs
unfolding footprint join
footprint-join b [] = refl
footprint-join b (c ∷ bs) = ground arith

-- No byte is lost: coalescing turns headers into bodies.
pub footprint-place :
    (b : Free) (bs : List Free) → footprint (place b bs) ≡ header_size + b.size + footprint bs
unfolding footprint place
footprint-place b [] = refl
footprint-place b (c ∷ bs) =
    ground (arith, footprint-join b (c ∷ bs), footprint-join c (place b bs), footprint-place b bs)
