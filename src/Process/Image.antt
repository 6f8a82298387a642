-- ===== src/Process/Image.antt =====
-- src/process.rs: where the bytes of a program go, and the range of its pages.
use macha_os.Prelude.{
  ℕ, ◌+◌, ◌-◌, ◌%◌, ◌^◌, ◌<◌, ◌≤◌, min, max, ◌≡◌, refl, sym, ap, ◌∙◌, true, false, ◌&&◌, List, [],
  ◌∷◌, inl, inr, arith, get_or, ltb, leb, add64, ◌==◌, if◌then◌else◌, Bool-cases, All, pick, pass,
  length,
}
use macha_os.Elf.{Segment}
use macha_os.Paging.{page_size, identity_map_end}
use macha_os.Process.{align_down}
use macha_os.Process.Load.{lowest, highest, segment_end, copy_file, copy_segments}

-- The byte of a program at an address: that of the last segment with file bytes there, or what was there before.
abbrev pub image : List ℕ → List Segment → ℕ → ℕ → ℕ
image file [] byte a = byte
image file (s ∷ ss) byte a =
    image file ss
      (if leb s.vaddr a && ltb a (s.vaddr + s.filesz)
        then get_or file (s.file_offset + (a - s.vaddr)) 0
        else byte)
      a

-- What `check_program` has found of a segment, for a file of `size` bytes.
pub record HasRoom (size : ℕ) (s : Segment) : Type 0 where
  pub below : s.vaddr + s.memsz ≤ identity_map_end
  pub file_part : s.filesz ≤ s.memsz
  pub in_file : s.file_offset + s.filesz ≤ size

abbrev pub Within : ℕ → ℕ → Segment → Type 0
Within start end s = (start ≤ s.vaddr) × (s.vaddr + s.memsz ≤ end)

pub copy_segments-image :
    (file : List ℕ) (phys start end : ℕ) (ss : List Segment) (bytes : ℕ → ℕ) (a : ℕ)
    → All (HasRoom (length file)) ss
    → All (Within start end) ss
    → phys + (end - start) < 2 ^ 64
    → start ≤ a
    → a < end
    → copy_segments file phys start ss bytes (phys + (a - start))
      ≡ image file ss (bytes (phys + (a - start))) a
unfolding copy_segments
copy_segments-image file phys start end [] bytes a ok_all within fits lo hi = refl
copy_segments-image file phys start end (s ∷ ss) bytes a ok_all within fits lo hi =
    copy_segments-image file phys start end ss _ a ok_all.1 within.1 fits lo hi
    ∙ ap (λ b. image file ss b a) step
  where
    dst : ℕ
    dst = add64 phys (s.vaddr - start)

    step : (if s.filesz == 0 then bytes else copy_file file s dst bytes) (phys + (a - start)) ≡ (
        if leb s.vaddr a && ltb a (s.vaddr + s.filesz)
        then get_or file (s.file_offset + (a - s.vaddr)) 0
        else bytes (phys + (a - start)))
    step =
        let (from, to) = within.0 in
        let there : dst ≡ phys + (s.vaddr - start) =
          omega (arith, from, to, ok_all.0.file_part, fits) in
        elim (Bool-cases (leb s.vaddr a && ltb a (s.vaddr + s.filesz))) [
          | inl inside ↦
              let some_bytes : (s.filesz == 0) ≡ false = ground (arith, inside) in
              let copied : (leb dst (phys + (a - start))
                    && ltb (phys + (a - start)) (dst + s.filesz))
                  ≡ true =
                ground (arith, inside, there, lo, from) in
              let offset : phys + (a - start) - dst ≡ a - s.vaddr =
                ground (arith, inside, there, lo, from) in
              ap (λ (f : ℕ → ℕ). f (phys + (a - start))) (pass _ _ _ some_bytes)
              ∙ pick _ _ _ copied
              ∙ ap (λ k. get_or file (s.file_offset + k) 0) offset
              ∙ sym (pick _ _ _ inside)
          | inr outside ↦
              let left : (leb dst (phys + (a - start)) && ltb (phys + (a - start)) (dst + s.filesz))
                  ≡ false =
                ground (arith, outside, there, lo, from) in
              elim (Bool-cases (s.filesz == 0)) [
                | inl empty ↦
                    ap (λ (f : ℕ → ℕ). f (phys + (a - start))) (pick _ _ _ empty)
                    ∙ sym (pass _ _ _ outside)
                | inr full ↦
                    ap (λ (f : ℕ → ℕ). f (phys + (a - start))) (pass _ _ _ full)
                    ∙ pass _ _ _ left
                    ∙ sym (pass _ _ _ outside)
              ]
        ]

pub lowest_lem :
    (low : ℕ) (ss : List Segment)
    → (lowest low ss ≤ low)
      × All (λ s. lowest low ss ≤ s.vaddr) ss
      × (low % page_size ≡ 0 → lowest low ss % page_size ≡ 0)
unfolding lowest
lowest_lem low [] = (omega arith, tt, λ h. h)
lowest_lem low (s ∷ ss) =
    let (most, all, whole) = lowest_lem (min low (align_down s.vaddr)) ss in
    (omega (arith, most), (omega (arith, most), all), λ h. whole (omega (arith, h)))

pub highest_lem :
    (size high : ℕ) (ss : List Segment)
    → All (HasRoom size) ss
    → (high ≤ highest high ss)
      × All (λ s. s.vaddr + s.memsz ≤ highest high ss) ss
      × (high % page_size ≡ 0 → highest high ss % page_size ≡ 0)
      × (high ≤ identity_map_end → highest high ss ≤ identity_map_end)
unfolding highest
highest_lem size high [] all = (omega arith, tt, (λ h. h), λ h. h)
highest_lem size high (s ∷ ss) (here, later) =
    let (least, all, whole, below) = highest_lem size (max high (segment_end s)) ss later in
    (
      omega (arith, least),
      (omega (arith, least, here.below), all),
      (λ h. whole (omega (arith, h))),
      λ h. below (omega (arith, h, here.below)),
    )
