-- ===== src/Allocator/Blocks.antt =====
-- The abstract heap of src/allocator.rs: free blocks in address order, with no pointers.
use macha_os.Prelude.{ℕ, ◌+◌, ◌-◌, Option, none, some, List, [], ◌∷◌, ltb, leb, ◌==◌, if◌then◌else◌}
use macha_os.Allocator.{header_size, min_align}
use macha_os.Allocator.Chain.{Free, end_of}

-- What is left of a block in the list when `size` bytes are taken from it.
unfoldable pub remainder : Free → ℕ → List Free → List Free
remainder b size bs =
    if leb (size + header_size + min_align) b.size
    then record { at = b.at + header_size + size; size = b.size - size - header_size } ∷ bs
    else bs

-- First fit: the block that is taken, and the free blocks that stay.
unfoldable pub first_fit : ℕ → List Free → Option Free × List Free
first_fit size [] = (none, [])
first_fit size (b ∷ bs) =
    let (found, rest) = first_fit size bs in
    if leb size b.size then (some b, remainder b size bs) else (found, b ∷ rest)

-- The block as it is handed out: the whole of it, unless the rest is worth a block of its own.
unfoldable pub used : ℕ → Free → Free
used size b = record {
  at = b.at;
  size = if leb (size + header_size + min_align) b.size then size else b.size;
}

-- The two blocks as one, if the second begins where the first ends.
unfoldable pub join : Free → List Free → List Free
join b [] = b ∷ []
join b (c ∷ bs) =
    if end_of b == c.at
    then record { at = b.at; size = b.size + header_size + c.size } ∷ bs
    else b ∷ c ∷ bs

-- A block put back by address, one with its neighbours where they touch.
unfoldable pub place : Free → List Free → List Free
place b [] = b ∷ []
place b (c ∷ bs) = let rest = place b bs in if ltb c.at b.at then join c rest else join b (c ∷ bs)
