-- ===== src/Pmm/Contiguous.antt =====
-- src/pmm.rs: `alloc_contiguous`, a first-fit search for a run of free frames.
use macha_os.Prelude.{
  ℕ, zero, suc, ◌+◌, ◌-◌, ◌*◌, ◌<◌, ◌≤◌, ◌≡◌, refl, true, false, List, Option, none, some, ◌||◌,
  ◌⊎◌, inl, inr, arith, ltb, ◌==◌, if◌then◌else◌, Bool-cases,
}
use macha_os.Pmm.{Pmm, frame_size, frame_is_free, find_run, set_range, alloc_contiguous}
use macha_os.Pmm.Frames.{IsValid, within, set_range-IsBitmap, free-set_range}
use macha_os.Pmm.Single.{free_in}

abbrev pub AllFree : List ℕ → ℕ → ℕ → Type 0
AllFree m s n = (g : ℕ) → s ≤ g → g < s + n → frame_is_free m g ≡ true

-- No run of `count` free frames lies below `bound`.
abbrev pub NoRun : List ℕ → ℕ → ℕ → Type 0
NoRun m count bound = (s : ℕ) → s + count ≤ bound → ¬ AllFree m s count

-- The lowest run of `count` free frames below `bound`, if there is one.
abbrev FoundRun : List ℕ → ℕ → ℕ → Option ℕ → Type 0
FoundRun m count bound none = NoRun m count bound
FoundRun m count bound (some s) =
    (s + count ≤ bound) × AllFree m s count × ((t : ℕ) → t < s → ¬ AllFree m t count)

-- The scan stands before `frame`, behind a maximal run of `run_len` free frames.
record Scan (m : List ℕ) (count frame run_start run_len : ℕ) : Type 0 where
  run_free : (g : ℕ) → frame ≤ g + run_len → g < frame → frame_is_free m g ≡ true
  starts : 0 < run_len → run_start + run_len ≡ frame
  short : run_len < count
  fits : run_len ≤ frame
  barrier : run_len < frame → frame_is_free m (frame - run_len - 1) ≡ false
  none_yet : NoRun m count frame

module _ (m : List ℕ) (count frame run_start run_len : ℕ)
    (s : Scan m count frame run_start run_len) where
  Scan-used : frame_is_free m frame ≡ false → Scan m count (frame + 1) run_start 0
  Scan-used used = record {
    run_free = λ g lo hi. absurd (omega arith);
    starts = λ h. absurd (omega arith);
    short = omega (arith, s.short);
    fits = omega arith;
    barrier = λ h. let e : frame + 1 - 0 - 1 ≡ frame = omega arith in rw e used;
    none_yet = λ t h all. elim (Bool-cases (t + count == frame + 1)) [
      | inl last ↦ cc (all frame (ground (arith, s.short)) (ground (arith, s.short)), used)
      | inr before ↦ s.none_yet t (ground arith) all
    ];
  }

  run_free_next :
      frame_is_free m frame ≡ true
      → (g : ℕ) → frame ≤ g + run_len
      → g < frame + 1
      → frame_is_free m g ≡ true
  run_free_next isf g lo hi = elim (Bool-cases (g == frame)) [
    | inl same ↦ let e : g ≡ frame = ground arith in rw e isf
    | inr other ↦ s.run_free g lo (ground arith)
  ]

  next_start : (if run_len == 0 then frame else run_start) + (run_len + 1) ≡ frame + 1
  next_start = elim (Bool-cases (run_len == 0)) [
    | inl e ↦ rw e (ground arith)
    | inr e ↦ let pos : 0 < run_len = ground arith in rw e (omega (arith, s.starts pos))
  ]

  Scan-free :
      frame_is_free m frame ≡ true
      → (run_len + 1 == count) ≡ false
      → Scan m count (frame + 1) (if run_len == 0 then frame else run_start) (run_len + 1)
  Scan-free isf more = record {
    run_free = λ g lo hi. run_free_next isf g (omega arith) hi;
    starts = λ h. next_start;
    short = ground (arith, s.short);
    fits = omega (arith, s.fits);
    barrier = λ h.
        let e : frame + 1 - (run_len + 1) - 1 ≡ frame - run_len - 1 = omega arith in
        rw e (s.barrier (omega arith));
    none_yet = λ t h all. elim (Bool-cases (t + count == frame + 1)) [
      | inl last ↦
          let short : run_len + 1 < count = ground (arith, s.short) in
          let e : t + count ≡ frame + 1 = ground arith in
          let b = s.barrier (omega arith) in
          cc (all (frame - run_len - 1) (omega arith) (omega arith), b)
      | inr before ↦ s.none_yet t (ground arith) all
    ];
  }

  FoundRun-here :
      frame_is_free m frame ≡ true
      → (run_len + 1 == count) ≡ true
      → (bound : ℕ) → frame < bound
      → FoundRun m count bound (some (if run_len == 0 then frame else run_start))
  FoundRun-here isf full bound h =
      let e : run_len + 1 ≡ count = ground arith in
      (
        omega (arith, next_start),
        λ g lo hi. run_free_next isf g (omega (arith, next_start)) (omega (arith, next_start)),
        λ t lt. s.none_yet t (omega (arith, next_start)),
      )

find_run-FoundRun :
    (n : ℕ) (m : List ℕ) (count frame run_start run_len bound : ℕ)
    → frame + n ≡ bound
    → Scan m count frame run_start run_len
    → FoundRun m count bound (find_run n m count frame run_start run_len)
unfolding find_run
find_run-FoundRun zero m count frame run_start run_len bound h s =
    λ t le. s.none_yet t (omega arith)
find_run-FoundRun (suc n) m count frame run_start run_len bound h s =
    elim (Bool-cases (frame_is_free m frame)) [
      | inr used ↦
          rw (used, find_run)
            (find_run-FoundRun n m count (frame + 1) run_start 0 bound (omega arith)
              (Scan-used m count frame run_start run_len s used))
      | inl isf ↦
          rw (isf, find_run)
            (elim (Bool-cases (run_len + 1 == count)) [
              | inl full ↦
                  rw full
                    (FoundRun-here m count frame run_start run_len s isf full bound (omega arith))
              | inr more ↦ rw more (
                  find_run-FoundRun n m count (frame + 1) _ (run_len + 1) bound (omega arith)
                    (Scan-free m count frame run_start run_len s isf more))
            ])
    ]

-- The result of `alloc_contiguous` on all branches.
abbrev pub Taken : Pmm → ℕ → Option ℕ × Pmm → Type 0
Taken p count (none, q) = (q ≡ p) × ((count ≡ 0) ⊎ NoRun p.bitmap count (p.last + 1))
Taken p count (some phys, q) =
    (s : ℕ) × (phys ≡ s * frame_size)
    × (0 < count)
    × (s + count ≤ p.last + 1)
    × AllFree p.bitmap s count
    × ((t : ℕ) → t < s → ¬ AllFree p.bitmap t count)
    × ((g : ℕ) → free_in q g ≡ (if within s count g then false else free_in p g))
    × (q.last ≡ p.last)
    × IsValid q

-- On a valid manager `alloc_contiguous` takes the lowest run of `count` free frames up to the last
-- usable one, marks exactly those frames in use, and stays valid; it fails, and changes nothing,
-- only if `count` is 0 or no such run exists.
pub alloc_contiguous-Taken :
    (p : Pmm) (count : ℕ) → IsValid p → Taken p count (alloc_contiguous p count)
unfolding alloc_contiguous
alloc_contiguous-Taken p count v = elim (Bool-cases (count == 0 || ltb p.last (count - 1))) [
  | inl refused ↦ rw refused (refl, too_big refused)
  | inr tried ↦ rw tried (
      go (find_run (p.last + 1) p.bitmap count 0 0 0)
        (find_run-FoundRun (p.last + 1) p.bitmap count 0 0 0 (p.last + 1) (omega arith) (record {
          run_free = λ g lo hi. absurd (omega arith);
          starts = λ h. absurd (omega arith);
          short = positive tried;
          fits = omega arith;
          barrier = λ h. absurd (omega arith);
          none_yet = λ t h all. absurd (omega (arith, positive tried));
        }))
        (positive tried))
]
  where
    positive : (count == 0 || ltb p.last (count - 1)) ≡ false → 0 < count
    positive e = ground arith

    too_big :
        (count == 0 || ltb p.last (count - 1)) ≡ true
        → (count ≡ 0) ⊎ NoRun p.bitmap count (p.last + 1)
    too_big e = elim (Bool-cases (count == 0)) [
      | inl z ↦ inl (ground arith)
      | inr nz ↦
          let big : p.last < count - 1 = ground arith in inr (λ s h all. absurd (omega arith))
    ]

    go :
        (o : Option ℕ)
        → FoundRun p.bitmap count (p.last + 1) o
        → 0 < count
        → Taken p count (elim o [
          | none ↦ (none, p)
          | some start ↦
              (some (start * frame_size), record p { bitmap = set_range count p.bitmap start })
        ])
    go none h pos = (refl, inr h)
    go (some s) (le, all, first) pos = (
      s,
      refl,
      pos,
      le,
      all,
      first,
      λ g. free-set_range count p.bitmap s g v.map_valid (omega (arith, v.last_in)),
      refl,
      record { map_valid = set_range-IsBitmap count p.bitmap s v.map_valid; last_in = v.last_in },
    )
