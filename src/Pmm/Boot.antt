-- ===== src/Pmm/Boot.antt =====
-- src/pmm.rs: `init`, which builds the bitmap from the Multiboot memory map.
use macha_os.Prelude.{
  ℕ, ◌+◌, ◌-◌, ◌*◌, ◌%◌, ◌^◌, ◌<◌, ◌≤◌, ◌≡◌, refl, Bool, true, false, List, [], ◌∷◌, ◌&&◌, ◌||◌,
  not, inl, inr, arith, ltb, leb, ◌==◌, if◌then◌else◌, Bool-cases, All,
}
use macha_os.Pmm.{
  Pmm, Region, initial, frame_count, frame_size, low_reserved_end, mark_reserved, region_start,
  region_end, is_usable, add_region, add_regions, init,
}
use macha_os.Pmm.Frames.{IsValid, within, clear_range-IsBitmap, free-clear_range}
use macha_os.Pmm.Single.{free_in}
use macha_os.Pmm.Reserve.{initial_used, initial-IsValid, reserved, mark_reserved_lem}

-- The frames that the loop over the memory map frees for one region, and for all.
abbrev covers : Region → ℕ → Bool
covers r g = is_usable r && within (region_start r) (region_end r - region_start r) g

abbrev covered : List Region → ℕ → Bool
covered [] g = false
covered (r ∷ rs) g = covers r g || covered rs g

region_end-le : (r : Region) → region_end r ≤ frame_count
unfolding region_end
region_end-le r = omega arith

record Fed (p : Pmm) (rs : List Region) (q : Pmm) : Type 0 where
  free : (g : ℕ) → free_in q g ≡ covered rs g || free_in p g
  grows : p.last ≤ q.last
  reaches : (g : ℕ) → covered rs g ≡ true → g ≤ q.last
  valid : IsValid q

add_region-Fed : (p : Pmm) (r : Region) → IsValid p → Fed p (r ∷ []) (add_region p r)
unfolding add_region
add_region-Fed p r v = elim (Bool-cases (is_usable r)) [
  | inr skip ↦ rw skip (record {
    free = λ g. ground arith;
    grows = omega arith;
    reaches = λ g h. ground arith;
    valid = v;
  })
  | inl go ↦ rw go (record {
    free = λ g. ground (
      arith,
      region_end-le r,
      free-clear_range (region_end r - region_start r) p.bitmap (region_start r) g v.map_valid
          (λ n. omega (arith, region_end-le r)),
    );
    grows = ground arith;
    reaches = λ g h. ground arith;
    valid = record {
      map_valid = clear_range-IsBitmap _ _ _ v.map_valid;
      last_in = ground (arith, region_end-le r, v.last_in);
    };
  })
]

add_regions-Fed : (p : Pmm) (rs : List Region) → IsValid p → Fed p rs (add_regions p rs)
unfolding add_regions
add_regions-Fed p [] v = record {
  free = λ g. refl;
  grows = omega arith;
  reaches = λ g h. cc;
  valid = v;
}
add_regions-Fed p (r ∷ rs) v =
    let one = add_region-Fed p r v in
    let rest = add_regions-Fed (add_region p r) rs one.valid in
    record {
      free = λ g. ground (arith, rest.free g, one.free g);
      grows = omega (arith, one.grows, rest.grows);
      reaches = λ g h. elim (Bool-cases (covered rs g)) [
        | inl later ↦ rest.reaches g later
        | inr now ↦ ground (arith, one.reaches g, rest.grows)
      ];
      valid = rest.valid;
    }

-- An independent reading of what may be handed out, in bytes: the frame lies wholly in a region of
-- type 1 that starts at 1 MiB or above.
abbrev pub in_ram : List Region → ℕ → Bool
in_ram [] g = false
in_ram (r ∷ rs) g =
    (r.region_type == 1)
      && (leb (1024 * 1024) r.base
          && (leb r.base (g * frame_size) && leb (g * frame_size + frame_size) (r.base + r.len)))
    || in_ram rs g

-- The frame shares a byte with the kernel image.
abbrev pub in_kernel : ℕ → ℕ → ℕ → Bool
in_kernel kernel_start kernel_end g =
    ltb kernel_start kernel_end
    && (ltb (g * frame_size) kernel_end && ltb kernel_start (g * frame_size + frame_size))

-- Every region ends at 2 ^ 63 or below.
abbrev pub NoWrap : List Region → Type 0
NoWrap = All (λ r. r.base + r.len ≤ 2 ^ 63)

covers-in_ram :
    (r : Region) (g : ℕ)
    → r.base + r.len ≤ 2 ^ 63
    → g < frame_count
    → covers r g ≡ (
        (r.region_type == 1)
        && (leb (1024 * 1024) r.base
            && (leb r.base (g * frame_size) && leb (g * frame_size + frame_size) (r.base + r.len))))
unfolding is_usable region_start region_end
covers-in_ram r g h k = ground arith

covered-in_ram :
    (rs : List Region) (g : ℕ) → NoWrap rs → g < frame_count → covered rs g ≡ in_ram rs g
covered-in_ram [] g h k = refl
covered-in_ram (r ∷ rs) g h k = ground (arith, covers-in_ram r g h.0 k, covered-in_ram rs g h.1 k)

reserved-in_kernel :
    (kernel_start kernel_end g : ℕ)
    → kernel_start ≤ kernel_end
    → kernel_end ≤ 2 ^ 63
    → g < frame_count
    → reserved kernel_start ((kernel_end + 2 ^ 64 - kernel_start) % 2 ^ 64) g
      ≡ in_kernel kernel_start kernel_end g
reserved-in_kernel a b g h k l =
    let e : (b + 2 ^ 64 - a) % 2 ^ 64 ≡ b - a = omega arith in rw e (ground arith)

reserved_low : (g : ℕ) → reserved 0 low_reserved_end g ≡ ltb (g * frame_size) low_reserved_end
reserved_low g = ground arith

abbrev image_size : ℕ → ℕ → ℕ
image_size kernel_start kernel_end = (kernel_end + 2 ^ 64 - kernel_start) % 2 ^ 64

module _ (map : List Region) (kernel_start kernel_end : ℕ) where
  fed_map : Pmm
  fed_map = add_regions (record initial { last = 0 }) map

  with_image : Pmm
  with_image = mark_reserved fed_map kernel_start (image_size kernel_start kernel_end)

  fed : Fed initial map fed_map
  unfolding fed_map
  fed = add_regions-Fed initial map initial-IsValid

  image :
      ((g : ℕ)
        → free_in with_image g ≡ (
            if reserved kernel_start (image_size kernel_start kernel_end) g
            then false
            else free_in fed_map g))
      × (with_image.last ≡ fed_map.last)
      × IsValid with_image
  unfolding with_image
  image = mark_reserved_lem fed_map kernel_start (image_size kernel_start kernel_end) fed.valid

  low :
      ((g : ℕ)
        → free_in (init initial map kernel_start kernel_end) g
          ≡ (if reserved 0 low_reserved_end g then false else free_in with_image g))
      × ((init initial map kernel_start kernel_end).last ≡ with_image.last)
      × IsValid (init initial map kernel_start kernel_end)
  unfolding with_image fed_map init
  low = mark_reserved_lem with_image 0 low_reserved_end image.2

  -- After the boot scan the manager is valid, whatever the memory map.
  pub init-IsValid : IsValid (init initial map kernel_start kernel_end)
  init-IsValid = low.2

  -- After the boot scan every free frame lies in the range that the allocator scans, and starts
  -- at 64 MiB or above, whatever the memory map.
  pub init_reaches :
      (g : ℕ)
      → free_in (init initial map kernel_start kernel_end) g ≡ true
      → (g ≤ (init initial map kernel_start kernel_end).last) × (low_reserved_end ≤ g * frame_size)
  init_reaches g isf = ground (
    arith,
    low.0 g,
    image.0 g,
    fed.free g,
    initial_used g,
    low.1,
    image.1,
    fed.reaches g,
    reserved_low g,
  )

  -- Where every region of the memory map ends at 2 ^ 63 or below, and the kernel image ends there
  -- or below and not before it starts, after the boot scan from the full bitmap a frame of the
  -- managed memory is free exactly if it lies wholly in a region of type 1 from 1 MiB on, shares
  -- no byte with the kernel image, and starts at 64 MiB or above.
  pub init_free :
      NoWrap map
      → kernel_start ≤ kernel_end
      → kernel_end ≤ 2 ^ 63
      → (g : ℕ) → g < frame_count
      → free_in (init initial map kernel_start kernel_end) g ≡ (
          in_ram map g
          && (not (in_kernel kernel_start kernel_end g) && leb low_reserved_end (g * frame_size)))
  init_free nw h k g lt = ground (
    arith,
    low.0 g,
    image.0 g,
    fed.free g,
    initial_used g,
    reserved_low g,
    covered-in_ram map g nw lt,
    reserved-in_kernel kernel_start kernel_end g h k lt,
  )
