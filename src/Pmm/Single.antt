-- ===== src/Pmm/Single.antt =====
-- src/pmm.rs: one frame at a time, and the counters.
use macha_os.Prelude.{
  ℕ, zero, suc, ◌+◌, ◌*◌, ◌/◌, ◌%◌, ◌<◌, ◌≤◌, ◌≡◌, refl, subst, Bool, true, false, List, Option,
  none, some, ◌&&◌, ◌||◌, not, arith, ltb, leb, ◌==◌, if◌then◌else◌, Bool-cases, inl, inr,
  Option-cases,
}
use macha_os.Pmm.{
  Pmm, frame_count, frame_size, max_phys_mem, set_frame, frame_is_free, find_free, frame_alloc,
  frame_free, count_from, count_free, used_frames, free_frames, total_frames,
}
use macha_os.Pmm.Frames.{
  IsBitmap, IsValid, set_frame-IsBitmap, clear_frame-IsBitmap, free-set_frame, free-clear_frame,
}

abbrev pub free_in : Pmm → ℕ → Bool
free_in p f = frame_is_free p.bitmap f

-- What the scan finds: the lowest free frame of `[frame, frame + n)`, if there is one.
abbrev Found : ℕ → List ℕ → ℕ → Option ℕ → Type 0
Found n m frame none = (g : ℕ) → frame ≤ g → g < frame + n → frame_is_free m g ≡ false
Found n m frame (some f) =
    (frame ≤ f)
    × (f < frame + n)
    × (frame_is_free m f ≡ true)
    × ((g : ℕ) → frame ≤ g → g < f → frame_is_free m g ≡ false)

Found-step_used :
    (n : ℕ) (m : List ℕ) (frame : ℕ) (o : Option ℕ)
    → frame_is_free m frame ≡ false
    → Found n m (frame + 1) o
    → Found (suc n) m frame o
Found-step_used n m frame none u h = λ g lo hi. elim (Bool-cases (frame == g)) [
  | inl same ↦ ground arith
  | inr other ↦ h g (ground arith) (omega arith)
]
Found-step_used n m frame (some f) u (lo, hi, isf, below) = (
  omega arith,
  omega arith,
  isf,
  λ g glo ghi. elim (Bool-cases (frame == g)) [
    | inl same ↦ ground arith
    | inr other ↦ below g (ground arith) ghi
  ],
)

find_free-Found : (n : ℕ) (m : List ℕ) (frame : ℕ) → Found n m frame (find_free n m frame)
unfolding find_free
find_free-Found zero m frame = λ g lo hi. absurd (omega arith)
find_free-Found (suc n) m frame = elim (Bool-cases (frame_is_free m frame)) [
  | inl isf ↦ rw isf (omega arith, omega arith, isf, λ g lo hi. absurd (omega arith))
  | inr used ↦
      rw used (
        Found-step_used n m frame (find_free n m (frame + 1)) used
          (find_free-Found n m (frame + 1)))
]

-- The result of `frame_alloc` on both branches.
abbrev pub Allocated : Pmm → Option ℕ × Pmm → Type 0
Allocated p (none, q) = (q ≡ p) × ((g : ℕ) → g ≤ p.last → free_in p g ≡ false)
Allocated p (some phys, q) =
    (f : ℕ) × (phys ≡ f * frame_size)
    × (f ≤ p.last)
    × (free_in p f ≡ true)
    × ((g : ℕ) → g < f → free_in p g ≡ false)
    × ((g : ℕ) → free_in q g ≡ (if f == g then false else free_in p g))
    × (q.last ≡ p.last)
    × IsValid q

-- On a valid manager `frame_alloc` takes the lowest free frame up to the last usable one, marks it
-- and no other frame in use, and stays valid; it fails, and changes nothing, only if every frame up
-- to the last usable one is in use.
pub frame_alloc-Allocated : (p : Pmm) → IsValid p → Allocated p (frame_alloc p)
unfolding frame_alloc
frame_alloc-Allocated p v =
    go (find_free (p.last + 1) p.bitmap 0) (find_free-Found (p.last + 1) p.bitmap 0)
  where
    go :
        (o : Option ℕ)
        → Found (p.last + 1) p.bitmap 0 o
        → Allocated p (elim o [
          | none ↦ (none, p)
          | some frame ↦ (some (frame * frame_size), record p { bitmap = set_frame p.bitmap frame })
        ])
    go none h = (refl, λ g le. h g (omega arith) (omega arith))
    go (some f) (lo, hi, isf, below) = (
      f,
      refl,
      omega arith,
      isf,
      λ g lt. below g (omega arith) lt,
      λ g. free-set_frame p.bitmap f g v.map_valid (omega (arith, v.last_in)),
      refl,
      record { map_valid = set_frame-IsBitmap p.bitmap f v.map_valid; last_in = v.last_in },
    )

-- On a valid manager `frame_free` of a page-aligned address inside the managed memory makes that
-- frame free and leaves every other frame as it was; of any other address it changes nothing. It
-- keeps the manager valid.
pub frame_free_lem :
    (p : Pmm) (phys : ℕ)
    → IsValid p
    → ((g : ℕ)
        → free_in (frame_free p phys) g ≡ (
            if (phys % frame_size == 0) && (ltb phys max_phys_mem && (phys / frame_size == g))
            then true
            else free_in p g))
      × IsValid (frame_free p phys)
unfolding frame_free
frame_free_lem p phys v =
    elim (Bool-cases (not (phys % frame_size == 0) || leb max_phys_mem phys)) [
      | inl skip ↦ rw skip (λ g. ground arith, v)
      | inr go ↦
          let small : phys / frame_size < frame_count = ground arith in
          rw go (
            λ g. ground (arith, free-clear_frame p.bitmap (phys / frame_size) g v.map_valid),
            record {
              map_valid = clear_frame-IsBitmap p.bitmap (phys / frame_size) v.map_valid;
              last_in = v.last_in;
            },
          )
    ]

-- A frame that was just allocated on a valid manager and is released again leaves every frame as
-- before.
pub frame_free-frame_alloc :
    (p : Pmm) (phys : ℕ) (q : Pmm)
    → IsValid p
    → frame_alloc p ≡ (some phys, q)
    → (g : ℕ) → free_in (frame_free q phys) g ≡ free_in p g
frame_free-frame_alloc p phys q v e g =
    let (f, at, in_range, isf, below, after, same_last, vq) =
      subst (Allocated p) e (frame_alloc-Allocated p v) in
    let small : f < frame_count = omega (arith, v.last_in) in
    ground (arith, (frame_free_lem q phys vq).0 g, after g)

count_from-le : (n : ℕ) (m : List ℕ) (frame : ℕ) → count_from n m frame ≤ n
unfolding count_from
count_from-le zero m frame = omega arith
count_from-le (suc n) m frame = ground (arith, count_from-le n m (frame + 1))

-- The free and the used frames make up all frames: the subtraction does not wrap.
pub used-add-free : (p : Pmm) → used_frames p + free_frames p ≡ total_frames p
unfolding used_frames free_frames total_frames count_free
used-add-free p = omega (arith, count_from-le (p.last + 1) p.bitmap 0)

count_from-set_frame_out :
    (n : ℕ) (m : List ℕ) (frame f : ℕ)
    → IsBitmap m
    → f < frame_count
    → f < frame
    → count_from n (set_frame m f) frame ≡ count_from n m frame
unfolding count_from
count_from-set_frame_out zero m frame f v h lt = refl
count_from-set_frame_out (suc n) m frame f v h lt =
    ground (arith, free-set_frame m f frame v, count_from-set_frame_out n m (frame + 1) f v)

-- Taking a free frame of the range lowers the count by one.
count_from-set_frame :
    (n : ℕ) (m : List ℕ) (frame f : ℕ)
    → IsBitmap m
    → f < frame_count
    → frame ≤ f
    → f < frame + n
    → frame_is_free m f ≡ true
    → count_from n (set_frame m f) frame + 1 ≡ count_from n m frame
unfolding count_from
count_from-set_frame zero m frame f v h lo hi isf = absurd (omega arith)
count_from-set_frame (suc n) m frame f v h lo hi isf = elim (Bool-cases (f == frame)) [
  | inl same ↦
      let e : f ≡ frame = ground arith in
      ground (arith, free-set_frame m f frame v, count_from-set_frame_out n m (frame + 1) f v)
  | inr other ↦ ground (arith, free-set_frame m f frame v, count_from-set_frame n m (frame + 1) f v)
]

-- On a valid manager a successful `frame_alloc` lowers the count of free frames by exactly one and
-- keeps the total.
pub free_frames-frame_alloc :
    (p : Pmm) (phys : ℕ) (q : Pmm)
    → IsValid p
    → frame_alloc p ≡ (some phys, q)
    → (free_frames q + 1 ≡ free_frames p) × (total_frames q ≡ total_frames p)
unfolding free_frames total_frames count_free frame_alloc
free_frames-frame_alloc p phys q v e = elim (Option-cases (find_free (p.last + 1) p.bitmap 0)) [
  | inl failed ↦ ground arith
  | inr (f, found) ↦
      let (lo, hi, isf, below) =
        subst (Found (p.last + 1) p.bitmap 0) found (find_free-Found (p.last + 1) p.bitmap 0) in
      ground
        (arith, v.last_in, v.map_valid, count_from-set_frame (p.last + 1) p.bitmap 0 f v.map_valid)
]
